-- ===== src/Peers/Bans.antt =====
-- What the bans of src/network/peer_manager.cpp do: banPeer, reportMisbehavior and cleanupExpiredBans, as
-- isPeerBanned and isPeerConnected tell.
use deo.Prelude.{
  ℕ, ◌^◌, ◌<◌, ◌≤◌, ◌≡◌, ◌≢◌, refl, ap, ◌∙◌, Bool, true, false, Bool-cases, inl, inr, Option, none,
  some, List, [], ◌∷◌, if◌then◌else◌, not, ◌||◌, arith,
}
use deo.Prelude.Run.{ok, undefined}
use deo.Prelude.Texts.{Text, same_text, same_text_iff}
use deo.Prelude.Integers.{ℤ, pos, ◌+ℤ◌, times, less_than, less_than_later, reaches}
use deo.Prelude.Dicts.{Dict, lookup, update, lookup-update}
use deo.Peers.{
  seconds, banned_until, fits_clock, PeerInfo, PeerManager, with_held, with_peers, locked,
  format_peer_key, fits_i32, discover_peers, add_nodes, add_peer, ban_peer,
}
use deo.Peers.Keys.{same_text-format_peer_key}
use deo.Peers.Scores.{
  punished, report_misbehavior, reading, is_banned, is_peer_banned, is_peer_connected, released,
  release_all, cleanup_expired_bans,
}

abbrev map_option : ℕ → Option PeerInfo → Option PeerInfo
map_option now none = none
map_option now (some info) = some (released now info)

lookup-release_all :
    (now : ℕ) (key : Text) (peers : Dict PeerInfo)
    → lookup key (release_all now peers) ≡ map_option now (lookup key peers)
unfolding lookup release_all
lookup-release_all now key [] = refl
lookup-release_all now key ((j, info) ∷ peers) = elim (Bool-cases (same_text j key)) [
  | inl hit ↦ rw hit refl
  | inr miss ↦ rw miss (lookup-release_all now key peers)
]

is_banned-released :
    (now later : ℕ) (found : Option PeerInfo)
    → now ≤ later
    → is_banned later (map_option now found) ≡ is_banned later found
is_banned-released now later none h = refl
is_banned-released now later (some info) h =
    ground (arith, less_than_later info.ban_until now later h)

-- Cleaning up on a free mutex comes back, and at that time and later isPeerBanned answers for each peer what
-- it would have answered without it.
pub is_peer_banned-cleanup_expired_bans :
    (now later : ℕ) (address : Text) (port : ℕ) (m : PeerManager)
    → m.held ≡ false
    → now ≤ later
    → (after : PeerManager) × (cleanup_expired_bans now m ≡ ok (tt, after))
      × (is_peer_banned later address port after ≡ is_peer_banned later address port m)
unfolding cleanup_expired_bans locked is_peer_banned reading
is_peer_banned-cleanup_expired_bans now later address port m free h = (
  with_held false (with_peers (release_all now m.peers) m),
  rw free refl,
  rw (free, lookup-release_all now (format_peer_key address port) m.peers)
      (ap ok (is_banned-released now later (lookup (format_peer_key address port) m.peers) h)),
)

-- Banning a known peer on a free mutex comes back, where the duration in nanoseconds and the end of the ban
-- are of 64 bits; the peer is not connected, and it is banned up to the end of the duration, that moment included; for a peer of another address or port both
-- answers stay.
pub ban_peer-is_peer_banned :
    (now later : ℕ) (duration : ℤ) (address other : Text) (port other_port : ℕ) (info : PeerInfo)
    (m : PeerManager)
    → m.held ≡ false
    → lookup (format_peer_key address port) m.peers ≡ some info
    → fits_clock now duration ≡ true
    → port < 2 ^ 16
    → other_port < 2 ^ 16
    → (address ≡ other → port ≢ other_port)
    → (after : PeerManager) × (ban_peer now address port duration m ≡ ok (tt, after))
      × (is_peer_banned later address port after
          ≡ ok (not (less_than (pos now +ℤ times (seconds 1) duration) (pos later))))
      × (is_peer_connected address port after ≡ ok false)
      × (is_peer_banned later other other_port after ≡ is_peer_banned later other other_port m)
      × (is_peer_connected other other_port after ≡ is_peer_connected other other_port m)
unfolding ban_peer locked is_peer_banned is_peer_connected reading
ban_peer-is_peer_banned now later duration address other port other_port info m free found ends fits
      other_fits apart =
    let differ = same_text-format_peer_key address other port other_port fits other_fits apart in
    let key = format_peer_key address port in
    let ban = banned_until (pos now +ℤ times (seconds 1) duration) info in
    let same : same_text key key ≡ true = (same_text_iff key key).1 refl in
    let here : lookup key (update key ban m.peers) ≡ some ban =
      lookup-update key key ban info m.peers found ∙ rw same refl in
    let there : lookup (format_peer_key other other_port) (update key ban m.peers)
        ≡ lookup (format_peer_key other other_port) m.peers =
      lookup-update key (format_peer_key other other_port) ban info m.peers found
      ∙ rw differ refl in
    (
      with_held false (with_peers (update key ban m.peers) m),
      rw (free, found, ends) refl,
      rw here refl,
      rw here refl,
      rw (there, free) refl,
      rw (there, free) refl,
    )

-- What a report of misbehavior does to a peer that is found, or is not.
abbrev pub IsReported : ℕ → ℕ → Text → ℕ → ℤ → PeerManager → Option PeerInfo → Type 0
IsReported now later address port score m none =
    report_misbehavior now address port score m ≡ ok (tt, m)
IsReported now later address port score m (some info) =
    if reaches 100 (info.misbehavior_score +ℤ score)
      || not (fits_i32 (info.misbehavior_score +ℤ score))
    then report_misbehavior now address port score m ≡ undefined
    else (after : PeerManager) × (report_misbehavior now address port score m ≡ ok (tt, after))
      × (lookup (format_peer_key address port) after.peers ≡ some (punished score info))
      × (is_peer_banned later address port after ≡ is_peer_banned later address port m)

reported :
    (now later : ℕ) (address : Text) (port : ℕ) (score : ℤ) (m : PeerManager)
    (found : Option PeerInfo)
    → m.held ≡ false
    → lookup (format_peer_key address port) m.peers ≡ found
    → IsReported now later address port score m found
unfolding report_misbehavior ban_peer locked is_peer_banned reading
reported now later address port score m none free e = rw (free, e) refl
reported now later address port score m (some info) free e =
    let key = format_peer_key address port in
    let total = info.misbehavior_score +ℤ score in
    let same : same_text key key ≡ true = (same_text_iff key key).1 refl in
    let here : lookup key (update key (punished score info) m.peers) ≡ some (punished score info) =
      lookup-update key key (punished score info) info m.peers e ∙ rw same refl in
    elim (Bool-cases (fits_i32 total)) [
      | inr wide ↦ elim (Bool-cases (reaches 100 total)) [
        | inl high ↦ rw (high, free, e, wide) refl
        | inr low ↦ rw (low, wide, free, e, wide) refl
      ]
      | inl fits ↦ elim (Bool-cases (reaches 100 total)) [
        | inl high ↦ rw (high, free, e, fits, high) refl
        | inr low ↦
            rw (low, fits)
              (
                with_held false (with_peers (update key (punished score info) m.peers) m),
                rw (free, e, fits, low) refl,
                here,
                rw (free, here, e) refl,
              )
      ]
    ]

-- A report of misbehavior on a free mutex leaves a manager that does not know the peer as it is. Where the
-- score of the peer stays below 100 and in 32 bits, the score and the counter of invalid messages are added to, and whether
-- the peer is banned does not change. From 100 on, where the peer is to be banned, it is undefined, since
-- the mutex is locked again, and so it is where the score leaves its 32 bits: no report ever bans a peer.
pub report_misbehavior-IsReported :
    (now later : ℕ) (address : Text) (port : ℕ) (score : ℤ) (m : PeerManager)
    → m.held ≡ false
    → IsReported now later address port score m (lookup (format_peer_key address port) m.peers)
report_misbehavior-IsReported now later address port score m free =
    reported now later address port score m (lookup (format_peer_key address port) m.peers) free
      refl

abbrev pub no_nodes : List (Text × ℕ) → Bool
no_nodes [] = true
no_nodes (node ∷ nodes) = false

discovered :
    (now : ℕ) (nodes : List (Text × ℕ)) (m : PeerManager)
    → m.held ≡ false
    → m.bootstrap_nodes ≡ nodes
    → discover_peers now m ≡ (if no_nodes nodes then ok (tt, m) else undefined)
unfolding discover_peers add_nodes add_peer locked
discovered now [] m free e = rw (free, e) refl
discovered now ((address, port) ∷ nodes) m free e = rw (free, e) refl

-- Looking for peers on a free mutex comes back with nothing changed where there is no bootstrap node; with
-- one it is undefined, since adding a peer locks the mutex again.
pub discover_peers_exact :
    (now : ℕ) (m : PeerManager)
    → m.held ≡ false
    → discover_peers now m ≡ (if no_nodes m.bootstrap_nodes then ok (tt, m) else undefined)
discover_peers_exact now m free = discovered now m.bootstrap_nodes m free refl
