-- ===== src/Peers/Rates.antt =====
-- The rate limits of src/network/peer_manager.cpp: recordMessage and checkRateLimit, whose mutex no other
-- call locks, and how many messages of a peer lead to its limit.
use deo.Prelude.{
  ℕ, ◌+◌, ◌%◌, ◌^◌, ◌≡◌, refl, ap, ◌∙◌, Bool, true, false, ◌==◌, ◌&&◌, ltb, leb, if◌then◌else◌,
  Option, none, some, List, [], ◌∷◌, length, incremented, arith,
}
use deo.Prelude.Texts.{Text, same_text, same_text_iff}
use deo.Prelude.Dicts.{Dict, lookup, insert, lookup-insert}
use deo.Peers.{RateLimitEntry, PeerManager, seconds, format_peer_key}

-- rate_limits_[peer_key][message_type]
abbrev pub no_entry : RateLimitEntry
no_entry = record { last_request = 0; request_count = 0; window_duration = 0; max_requests = 0 }

abbrev pub limits_of : Option (Dict RateLimitEntry) → Dict RateLimitEntry
limits_of none = []
limits_of (some limits) = limits

abbrev pub entry_of : Option RateLimitEntry → RateLimitEntry
entry_of none = no_entry
entry_of (some entry) = entry

abbrev pub recorded : ℕ → RateLimitEntry → RateLimitEntry
recorded now entry =
    let counted = record entry {
      request_count = incremented entry.request_count;
      last_request = now;
    } in
    if entry.window_duration == 0
    then record counted { window_duration = seconds 60; max_requests = 100 }
    else counted

abbrev pub found_entry : Text → Text → PeerManager → RateLimitEntry
found_entry key message_type m =
    entry_of (lookup message_type (limits_of (lookup key m.rate_limits)))

abbrev pub with_entry : Text → Text → RateLimitEntry → PeerManager → PeerManager
with_entry key message_type entry m = record m {
  rate_limits =
      insert key (insert message_type entry (limits_of (lookup key m.rate_limits))) m.rate_limits;
}

unfoldable pub record_message : ℕ → Text → ℕ → Text → PeerManager → PeerManager
unfolding format_peer_key
record_message now address port message_type m =
    let key = format_peer_key address port in
    with_entry key message_type (recorded now (found_entry key message_type m)) m

abbrev pub checked : ℕ → Text → Text → Option RateLimitEntry → PeerManager → Bool × PeerManager
checked now key message_type none m = (false, m)
checked now key message_type (some entry) m =
    if ltb (entry.last_request + entry.window_duration) now
    then (
      false,
      with_entry key message_type (record entry { request_count = 0; last_request = now }) m,
    )
    else (leb entry.max_requests entry.request_count, m)

unfoldable pub check_rate_limit : ℕ → Text → ℕ → Text → PeerManager → Bool × PeerManager
unfolding format_peer_key
check_rate_limit now address port message_type m =
    let key = format_peer_key address port in
    checked now key message_type (lookup message_type (limits_of (lookup key m.rate_limits))) m

-- Messages of one type of a peer, recorded at the given times, the latest first.
unfoldable pub record_messages : List ℕ → Text → ℕ → Text → PeerManager → PeerManager
unfolding record_message
record_messages [] address port message_type m = m
record_messages (now ∷ times) address port message_type m =
    record_message now address port message_type (record_messages times address port message_type m)

module _ {ℓ} {V : Type ℓ} where
  lookup-insert_self : (k : Text) (v : V) (m : Dict V) → lookup k (insert k v m) ≡ some v
  lookup-insert_self k v m =
      let same : same_text k k ≡ true = (same_text_iff k k).1 refl in
      lookup-insert k k v m ∙ rw same refl

abbrev entry_at : Text → Text → PeerManager → Option RateLimitEntry
entry_at key message_type m = lookup message_type (limits_of (lookup key m.rate_limits))

entry_at-with_entry :
    (key message_type : Text) (entry : RateLimitEntry) (m : PeerManager)
    → entry_at key message_type (with_entry key message_type entry m) ≡ some entry
entry_at-with_entry key message_type entry m =
    rw
      (
        lookup-insert_self key (insert message_type entry (limits_of (lookup key m.rate_limits)))
            m.rate_limits,
        lookup-insert_self message_type entry (limits_of (lookup key m.rate_limits)),
      )
      refl

abbrev entry_after : ℕ → ℕ → RateLimitEntry
entry_after last count = record {
  last_request = last;
  request_count = count % 2 ^ 64;
  window_duration = seconds 60;
  max_requests = 100;
}

recorded_again :
    (last now count again : ℕ)
    → again ≡ count + 1
    → recorded now (entry_after last count) ≡ entry_after now again
recorded_again last now count again h =
    ap (λ (n : ℕ). record (entry_after now 0) { request_count = n }) (omega (arith, h))

entry_at-record_messages :
    (last : ℕ) (times : List ℕ) (address : Text) (port : ℕ) (message_type : Text) (m : PeerManager)
    → entry_at (format_peer_key address port) message_type m ≡ none
    → entry_at
        (format_peer_key address port)
        message_type
        (record_messages (last ∷ times) address port message_type m)
      ≡ some (entry_after last (length times + 1))
unfolding record_messages record_message
entry_at-record_messages last [] address port message_type m fresh =
    entry_at-with_entry (format_peer_key address port) message_type _ m ∙ rw fresh refl
entry_at-record_messages last (now ∷ times) address port message_type m fresh =
    let key = format_peer_key address port in
    let before = record_messages (now ∷ times) address port message_type m in
    let found = entry_at-record_messages now times address port message_type m fresh in
    entry_at-with_entry key message_type (recorded last (found_entry key message_type before))
      before
    ∙ ap (λ (e : Option RateLimitEntry). some (recorded last (entry_of e))) found
    ∙ ap some (recorded_again now last (length times + 1) (length (now ∷ times) + 1) (omega arith))

-- After messages of a type of a peer that had none recorded, a check answers that the peer is limited just
-- where it comes at most 60 seconds after the latest of them and 100 or more of them were recorded, counted
-- in 64 bits, however long ago the earlier ones were.
pub check_rate_limit-record_messages :
    (now last : ℕ) (times : List ℕ) (address : Text) (port : ℕ) (message_type : Text)
    (m : PeerManager)
    → lookup message_type (limits_of (lookup (format_peer_key address port) m.rate_limits)) ≡ none
    → (check_rate_limit now address port message_type
        (record_messages (last ∷ times) address port message_type m)).0
      ≡ (leb now (last + seconds 60) && leb 100 ((length times + 1) % 2 ^ 64))
unfolding check_rate_limit
check_rate_limit-record_messages now last times address port message_type m fresh =
    let found = entry_at-record_messages last times address port message_type m fresh in
    rw found (ground arith)
