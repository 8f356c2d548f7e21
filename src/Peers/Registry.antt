-- ===== src/Peers/Registry.antt =====
-- What the calls of the PeerManager of src/network/peer_manager.cpp keep: each peer stands under its own key.
use deo.Prelude.{
  ℕ, ◌+◌, ◌≡◌, refl, true, false, Bool-cases, inl, inr, Option, none, some, List, [], ◌∷◌, All,
  ◌&&◌, ltb, arith,
}
use deo.Prelude.Run.{Run, ok, throws, undefined, no_fuel, Holds, ◌>>=◌}
use deo.Prelude.Texts.{Text}
use deo.Prelude.Integers.{times, ℤ, pos, ◌+ℤ◌, ◌-ℤ◌, less_than, reaches, reaches-not_negative}
use deo.Prelude.Dicts.{
  Dict, lookup, update, IsDict, All-insert, All-update, All-lookup, insert-IsDict, update-IsDict,
}
use deo.Peers.{
  ban_found, banned_until, fits_clock, seconds, PeerInfo, PeerManager, Act, with_held, locked,
  format_peer_key, changed, change_peer, added, new_peer, fits_i32, praised, rewarded, add_peer,
  add_nodes, ban_peer,
}
use deo.Peers.Scores.{day, misbehaved, punished, without_stale, released, release_all}

-- A peer stands under its own key, with a score below that of a ban.
abbrev pub IsOwn : Text × PeerInfo → Type 0
IsOwn (key, info) =
    (key ≡ format_peer_key info.address info.port) × (reaches 100 info.misbehavior_score ≡ false)

abbrev pub IsPeerMap : Dict PeerInfo → Type 0
IsPeerMap peers = IsDict peers × All IsOwn peers

abbrev pub Keeps : (Unit {0}) × PeerManager → Type 0
Keeps r = (r.1.held ≡ false) × IsPeerMap r.1.peers

abbrev pub KeepsPeers {ℓ} : {A : Type ℓ} → A × PeerManager → Type 0
KeepsPeers r = IsPeerMap r.1.peers

pub locked-Keeps :
    (body : Act (Unit {0})) (m : PeerManager)
    → Holds KeepsPeers (body (with_held true m))
    → Holds Keeps (locked body m)
unfolding locked
locked-Keeps body m h = elim (Bool-cases m.held) [
  | inl held ↦ rw held tt
  | inr free ↦ rw free (comes_back (body (with_held true m)) h)
]
  where
    comes_back :
        (result : Run ((Unit {0}) × PeerManager))
        → Holds KeepsPeers result
        → Holds Keeps (result >>= λ r. ok (r.0, with_held false r.1))
    comes_back (ok r) h = (refl, h)
    comes_back (throws e) h = tt
    comes_back undefined h = tt
    comes_back no_fuel h = tt

-- Entries that a search has found, changed in a way that keeps their place.
updated-IsPeerMap :
    (key : Text) (info other : PeerInfo) (peers : Dict PeerInfo)
    → lookup key peers ≡ some info
    → (IsOwn (key, info) → IsOwn (key, other))
    → IsPeerMap peers
    → IsPeerMap (update key other peers)
updated-IsPeerMap key info other peers found keeps (distinct, own) = (
  update-IsDict key other peers distinct,
  All-update IsOwn key other peers (keeps (All-lookup IsOwn key info peers own found)) own,
)

changed-IsPeerMap :
    (key : Text) (change : PeerInfo → PeerInfo) (found : Option PeerInfo) (m : PeerManager)
    → lookup key m.peers ≡ found
    → ((info : PeerInfo) → IsOwn (key, info) → IsOwn (key, change info))
    → IsPeerMap m.peers
    → IsPeerMap (changed key change found m).peers
changed-IsPeerMap key change none m e keeps h = h
changed-IsPeerMap key change (some info) m e keeps h =
    updated-IsPeerMap key info (change info) m.peers e (keeps info) h

pub change_peer-Keeps :
    (key : Text) (change : PeerInfo → PeerInfo) (m : PeerManager)
    → ((info : PeerInfo) → IsOwn (key, info) → IsOwn (key, change info))
    → IsPeerMap m.peers
    → Holds Keeps (change_peer key change m)
change_peer-Keeps key change m keeps h =
    locked-Keeps _ m
      (changed-IsPeerMap key change (lookup key m.peers) (with_held true m) refl keeps h)

pub added-IsPeerMap :
    (now : ℕ) (address : Text) (port : ℕ) (found : Option PeerInfo) (peers : Dict PeerInfo)
    → lookup (format_peer_key address port) peers ≡ found
    → IsPeerMap peers
    → IsPeerMap (added now address port found peers)
unfolding reaches
added-IsPeerMap now address port (some info) peers e h =
    updated-IsPeerMap (format_peer_key address port) info _ peers e (λ own. own) h
added-IsPeerMap now address port none peers e (distinct, own) =
    let key = format_peer_key address port in
    (
      insert-IsDict key (new_peer now address port) peers e distinct,
      All-insert IsOwn key (new_peer now address port) peers (refl, refl) own,
    )

pub rewarded-Keeps :
    (score : ℕ) (key : Text) (found : Option PeerInfo) (m : PeerManager)
    → lookup key m.peers ≡ found
    → IsPeerMap m.peers
    → Holds KeepsPeers (rewarded (pos score) key found m)
rewarded-Keeps score key none m e h = h
rewarded-Keeps score key (some info) m e h =
    elim (Bool-cases (
      fits_i32 (info.good_behavior_score +ℤ pos score)
      && fits_i32 (info.misbehavior_score -ℤ pos score))) [
        | inl fits ↦ rw fits (
            updated-IsPeerMap key info (praised (pos score) info) m.peers e
              (λ own. (own.0, reaches-not_negative 99 score info.misbehavior_score own.1)) h)
        | inr wide ↦ rw wide tt
      ]

pub ban_found-Keeps :
    (now : ℕ) (key : Text) (duration : ℤ) (found : Option PeerInfo) (m : PeerManager)
    → lookup key m.peers ≡ found
    → IsPeerMap m.peers
    → Holds KeepsPeers (ban_found now key duration found m)
ban_found-Keeps now key duration none m e h = h
ban_found-Keeps now key duration (some info) m e h =
    let until = pos now +ℤ times (seconds 1) duration in
    elim (Bool-cases (fits_clock now duration)) [
      | inl fits ↦
          rw fits (updated-IsPeerMap key info (banned_until until info) m.peers e (λ own. own) h)
      | inr wide ↦ rw wide tt
    ]

pub misbehaved-Keeps :
    (now : ℕ) (address : Text) (port : ℕ) (score : ℤ) (found : Option PeerInfo) (m : PeerManager)
    → m.held ≡ true
    → lookup (format_peer_key address port) m.peers ≡ found
    → IsPeerMap m.peers
    → Holds KeepsPeers (misbehaved now address port score found m)
unfolding ban_peer locked
misbehaved-Keeps now address port score none m held e h = h
misbehaved-Keeps now address port score (some info) m held e h =
    let key = format_peer_key address port in
    let total = info.misbehavior_score +ℤ score in
    elim (Bool-cases (fits_i32 total)) [
      | inr wide ↦ rw wide tt
      | inl fits ↦ elim (Bool-cases (reaches 100 total)) [
        | inl banned ↦ rw (fits, banned, held) tt
        | inr low ↦
            rw (fits, low)
              (updated-IsPeerMap key info (punished score info) m.peers e (λ own. (own.0, low)) h)
      ]
    ]

pub add_nodes-Keeps :
    (now : ℕ) (nodes : List (Text × ℕ)) (m : PeerManager)
    → m.held ≡ true
    → IsPeerMap m.peers
    → Holds KeepsPeers (add_nodes now nodes m)
unfolding add_nodes add_peer locked
add_nodes-Keeps now [] m held h = h
add_nodes-Keeps now ((address, port) ∷ nodes) m held h = rw held tt

lookup-release_all :
    (now : ℕ) (key : Text) (peers : Dict PeerInfo)
    → lookup key peers ≡ none
    → lookup key (release_all now peers) ≡ none
unfolding lookup release_all
lookup-release_all now key [] e = refl
lookup-release_all now key ((j, info) ∷ peers) e = ground (arith, lookup-release_all now key peers)

released-IsOwn :
    (now : ℕ) (key : Text) (info : PeerInfo) → IsOwn (key, info) → IsOwn (key, released now info)
released-IsOwn now key info own =
    elim (Bool-cases (info.banned && less_than info.ban_until (pos now))) [
      | inl over ↦ rw over own
      | inr on ↦ rw on own
    ]

pub release_all-IsPeerMap :
    (now : ℕ) (peers : Dict PeerInfo) → IsPeerMap peers → IsPeerMap (release_all now peers)
unfolding release_all IsDict
release_all-IsPeerMap now [] h = h
release_all-IsPeerMap now ((key, info) ∷ peers) ((fresh, distinct), (own, all)) =
    let later = release_all-IsPeerMap now peers (distinct, all) in
    ((lookup-release_all now key peers fresh, later.0), (released-IsOwn now key info own, later.1))

lookup-without_stale :
    (now : ℕ) (key : Text) (peers : Dict PeerInfo)
    → lookup key peers ≡ none
    → lookup key (without_stale now peers) ≡ none
unfolding lookup without_stale
lookup-without_stale now key [] e = refl
lookup-without_stale now key ((j, info) ∷ peers) e =
    ground (arith, lookup-without_stale now key peers)

pub without_stale-IsPeerMap :
    (now : ℕ) (peers : Dict PeerInfo) → IsPeerMap peers → IsPeerMap (without_stale now peers)
unfolding without_stale IsDict
without_stale-IsPeerMap now [] h = h
without_stale-IsPeerMap now ((key, info) ∷ peers) ((fresh, distinct), (own, all)) =
    let later = without_stale-IsPeerMap now peers (distinct, all) in
    elim (Bool-cases (ltb (info.last_seen + day) now)) [
      | inl stale ↦ rw stale later
      | inr seen ↦ rw seen ((lookup-without_stale now key peers fresh, later.0), (own, later.1))
    ]
