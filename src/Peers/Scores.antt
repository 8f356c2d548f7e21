-- ===== src/Peers/Scores.antt =====
-- The scores, bans and cleaning of src/network/peer_manager.cpp: its calls that report misbehavior, answer
-- questions about peers, and clean up.
use deo.Prelude.{
  ℕ, ◌+◌, Bool, false, ◌&&◌, not, ltb, if◌then◌else◌, Option, none, some, List, [], ◌∷◌, take,
  incremented,
}
use deo.Prelude.Run.{Run, ok, undefined}
use deo.Prelude.Texts.{Text}
use deo.Prelude.Integers.{ℤ, pos, ◌+ℤ◌, less_than, same_number, reaches}
use deo.Prelude.Dicts.{Dict, lookup, update}
use deo.Peers.{
  PeerInfo, PeerManager, Act, seconds, locked, format_peer_key, with_peers, new_peer, fits_i32,
  ban_peer,
}

abbrev pub punished : ℤ → PeerInfo → PeerInfo
punished score info = record info {
  misbehavior_score = info.misbehavior_score +ℤ score;
  invalid_messages = incremented info.invalid_messages;
}

abbrev pub day : ℕ
day = seconds 86400

-- reportMisbehavior, under the lock
abbrev pub misbehaved : ℕ → Text → ℕ → ℤ → Option PeerInfo → Act (Unit {0})
misbehaved now address port score none m = ok (tt, m)
misbehaved now address port score (some info) m =
    let total = info.misbehavior_score +ℤ score in
    let after =
      with_peers (update (format_peer_key address port) (punished score info) m.peers) m in
    let banned = ban_peer now address port (pos 86400) after in
    if not (fits_i32 total) then undefined else if reaches 100 total then banned else ok (tt, after)

unfoldable pub report_misbehavior : ℕ → Text → ℕ → ℤ → Act (Unit {0})
unfolding locked format_peer_key
report_misbehavior now address port score =
    locked
      (λ m. misbehaved now address port score (lookup (format_peer_key address port) m.peers) m)

-- The answer of a query, which leaves the manager as it is.
unfoldable pub reading {ℓ} : {A : Type ℓ} → A → PeerManager → Run A
reading answer m = if m.held then undefined else ok answer

abbrev pub picked : (PeerInfo → Bool) → Dict PeerInfo → Dict PeerInfo
picked test [] = []
picked test ((key, info) ∷ peers) =
    let rest = picked test peers in if test info then (key, info) ∷ rest else rest

abbrev pub keys_of : Dict PeerInfo → List Text
keys_of [] = []
keys_of ((key, info) ∷ peers) = key ∷ keys_of peers

abbrev pub is_usable : PeerInfo → Bool
is_usable info = info.connected && not info.banned

unfoldable pub get_connected_peers : PeerManager → Run (List Text)
unfolding reading
get_connected_peers m = reading (keys_of (picked is_usable m.peers)) m

unfoldable pub get_banned_peers : PeerManager → Run (List Text)
unfolding reading
get_banned_peers m = reading (keys_of (picked (λ info. info.banned) m.peers)) m

abbrev pub is_better : Text × PeerInfo → Text × PeerInfo → Bool
is_better (key, info) (other_key, other) =
    if same_number info.good_behavior_score other.good_behavior_score
    then less_than info.misbehavior_score other.misbehavior_score
    else less_than other.good_behavior_score info.good_behavior_score

unfoldable pub get_best_peers :
    ((Text × PeerInfo → Text × PeerInfo → Bool) → Dict PeerInfo → Dict PeerInfo)
    → ℕ
    → PeerManager
    → Run (List Text)
unfolding reading
get_best_peers sort count m =
    reading (take count (keys_of (sort is_better (picked is_usable m.peers)))) m

-- PeerInfo()
abbrev pub no_peer : ℕ → PeerInfo
no_peer now = record (new_peer now [] 0) { connected = false }

abbrev pub info_or : ℕ → Option PeerInfo → PeerInfo
info_or now none = no_peer now
info_or now (some info) = info

unfoldable pub get_peer_info : ℕ → Text → ℕ → PeerManager → Run PeerInfo
unfolding reading
get_peer_info now address port m =
    reading (info_or now (lookup (format_peer_key address port) m.peers)) m

abbrev pub is_banned : ℕ → Option PeerInfo → Bool
is_banned now none = false
is_banned now (some info) = info.banned && not (less_than info.ban_until (pos now))

unfoldable pub is_peer_banned : ℕ → Text → ℕ → PeerManager → Run Bool
unfolding reading
is_peer_banned now address port m =
    reading (is_banned now (lookup (format_peer_key address port) m.peers)) m

abbrev pub is_connected : Option PeerInfo → Bool
is_connected none = false
is_connected (some info) = is_usable info

unfoldable pub is_peer_connected : Text → ℕ → PeerManager → Run Bool
unfolding reading
is_peer_connected address port m =
    reading (is_connected (lookup (format_peer_key address port) m.peers)) m

-- Peers that were seen in the last 24 hours stay.
unfoldable pub without_stale : ℕ → Dict PeerInfo → Dict PeerInfo
without_stale now [] = []
without_stale now ((key, info) ∷ peers) =
    let rest = without_stale now peers in
    if ltb (info.last_seen + day) now then rest else (key, info) ∷ rest

unfoldable pub cleanup_stale_peers : ℕ → Act (Unit {0})
unfolding locked without_stale
cleanup_stale_peers now = locked (λ m. ok (tt, with_peers (without_stale now m.peers) m))

abbrev pub released : ℕ → PeerInfo → PeerInfo
released now info =
    if info.banned && less_than info.ban_until (pos now)
    then record info { banned = false; ban_until = pos 0 }
    else info

unfoldable pub release_all : ℕ → Dict PeerInfo → Dict PeerInfo
release_all now [] = []
release_all now ((key, info) ∷ peers) = (key, released now info) ∷ release_all now peers

unfoldable pub cleanup_expired_bans : ℕ → Act (Unit {0})
unfolding locked release_all
cleanup_expired_bans now = locked (λ m. ok (tt, with_peers (release_all now m.peers) m))
