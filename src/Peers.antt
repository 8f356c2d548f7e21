-- ===== src/Peers.antt =====
-- The PeerManager of include/network/peer_manager.h and src/network/peer_manager.cpp: known peers, their
-- scores and bans, and the rates of their messages. Each call reads the steady clock once, in nanoseconds. A
-- mutex that a call locks while it holds it is undefined, and so is a score beyond 32 bits or a time beyond
-- 64 bits. The cleaning thread only makes the two calls that clean up. The members
-- of PeerInfo that nothing reads or writes are left out.
pub mod Keys
pub mod Scores
pub mod Registry
pub mod Calls
pub mod Bans
pub mod Rates
use deo.Prelude.{
  ℕ, zero, suc, ◌+◌, ◌-◌, ◌*◌, ◌%◌, ◌^◌, Bool, true, false, ◌==◌, ◌&&◌, not, ltb, leb,
  if◌then◌else◌, Option, none, some, List, [], ◌∷◌, ◌++◌, incremented,
}
use deo.Prelude.Run.{Run, ok, undefined, ◌>>=◌}
use deo.Prelude.Texts.{Text}
use deo.Prelude.Integers.{ℤ, pos, ◌+ℤ◌, ◌-ℤ◌, times, not_negative, fits_signed}
use deo.Prelude.Dicts.{Dict, lookup, insert, update}
use deo.Transaction.{decimal}

pub record PeerInfo : Type 0 where
  pub address : Text
  pub port : ℕ
  pub first_seen : ℕ
  pub last_seen : ℕ
  pub last_activity : ℕ
  pub misbehavior_score : ℤ
  pub good_behavior_score : ℤ
  pub messages_received : ℕ
  pub invalid_messages : ℕ
  pub connected : Bool
  pub banned : Bool
  pub ban_until : ℤ
  pub best_height : ℕ

pub record RateLimitEntry : Type 0 where
  pub last_request : ℕ
  pub request_count : ℕ
  pub window_duration : ℕ
  pub max_requests : ℕ

-- `held` is whether peers_mutex_ is locked.
pub record PeerManager : Type 0 where
  pub held : Bool
  pub peers : Dict PeerInfo
  pub bootstrap_nodes : List (Text × ℕ)
  pub rate_limits : Dict (Dict RateLimitEntry)

abbrev pub new_peer_manager : PeerManager
new_peer_manager = record { held = false; peers = []; bootstrap_nodes = []; rate_limits = [] }

-- Nanoseconds.
abbrev pub seconds : ℕ → ℕ
seconds n = n * 10 ^ 9

abbrev pub Act {ℓ} : Type ℓ → Type ℓ
Act A = PeerManager → Run (A × PeerManager)

abbrev pub with_held : Bool → PeerManager → PeerManager
with_held held m = record m { held = held }

unfoldable pub locked {ℓ} : {A : Type ℓ} → Act A → Act A
locked body m =
    if m.held
    then undefined
    else do (a, after) ← body (with_held true m); ok (a, with_held false after)

unfoldable pub format_peer_key : Text → ℕ → Text
format_peer_key address port = address ++ b':' ∷ decimal port

abbrev pub with_peers : Dict PeerInfo → PeerManager → PeerManager
with_peers peers m = record m { peers = peers }

-- The peer that is found under a key, changed.
abbrev pub changed : Text → (PeerInfo → PeerInfo) → Option PeerInfo → PeerManager → PeerManager
changed key change none m = m
changed key change (some info) m = with_peers (update key (change info) m.peers) m

abbrev pub change_peer : Text → (PeerInfo → PeerInfo) → Act (Unit {0})
change_peer key change = locked (λ m. ok (tt, changed key change (lookup key m.peers) m))

unfoldable pub add_bootstrap_node : Text → ℕ → Act (Unit {0})
unfolding locked
add_bootstrap_node address port =
    locked (λ m. ok (tt, record m { bootstrap_nodes = m.bootstrap_nodes ++ (address, port) ∷ [] }))

abbrev pub new_peer : ℕ → Text → ℕ → PeerInfo
new_peer now address port = record {
  address = address;
  port = port;
  first_seen = now;
  last_seen = now;
  last_activity = now;
  misbehavior_score = pos 0;
  good_behavior_score = pos 0;
  messages_received = 0;
  invalid_messages = 0;
  connected = true;
  banned = false;
  ban_until = pos 0;
  best_height = 0;
}

abbrev pub added : ℕ → Text → ℕ → Option PeerInfo → Dict PeerInfo → Dict PeerInfo
added now address port (some info) peers =
    update (format_peer_key address port) (record info { last_seen = now; connected = true }) peers
added now address port none peers =
    insert (format_peer_key address port) (new_peer now address port) peers

unfoldable pub add_peer : ℕ → Text → ℕ → Act Bool
unfolding locked format_peer_key
add_peer now address port = locked (λ m. ok (
  true,
  with_peers (added now address port (lookup (format_peer_key address port) m.peers) m.peers) m,
))

-- discoverPeers: addPeer for each bootstrap node, under the lock
unfoldable pub add_nodes : ℕ → List (Text × ℕ) → Act (Unit {0})
unfolding add_peer
add_nodes now [] m = ok (tt, m)
add_nodes now ((address, port) ∷ nodes) m = do
  (done, after) ← add_peer now address port m
  add_nodes now nodes after

unfoldable pub discover_peers : ℕ → Act (Unit {0})
unfolding locked add_nodes
discover_peers now = locked (λ m. add_nodes now m.bootstrap_nodes m)

unfoldable pub remove_peer : Text → ℕ → Act (Unit {0})
unfolding locked format_peer_key
remove_peer address port =
    change_peer (format_peer_key address port) (λ info. record info { connected = false })

unfoldable pub update_peer_activity : ℕ → Text → ℕ → Act (Unit {0})
unfolding locked format_peer_key
update_peer_activity now address port = change_peer (format_peer_key address port) (λ info.
    record info { last_activity = now; messages_received = incremented info.messages_received })

unfoldable pub update_peer_height : Text → ℕ → ℕ → Act (Unit {0})
unfolding locked format_peer_key
update_peer_height address port height =
    change_peer (format_peer_key address port) (λ info. record info { best_height = height })

abbrev pub fits_i32 : ℤ → Bool
fits_i32 = fits_signed 31

abbrev pub praised : ℤ → PeerInfo → PeerInfo
praised score info = record info {
  good_behavior_score = info.good_behavior_score +ℤ score;
  misbehavior_score = not_negative (info.misbehavior_score -ℤ score);
}

-- reportGoodBehavior, under the lock
abbrev pub rewarded : ℤ → Text → Option PeerInfo → Act (Unit {0})
rewarded score key none m = ok (tt, m)
rewarded score key (some info) m =
    if fits_i32 (info.good_behavior_score +ℤ score) && fits_i32 (info.misbehavior_score -ℤ score)
    then ok (tt, with_peers (update key (praised score info) m.peers) m)
    else undefined

unfoldable pub report_good_behavior : Text → ℕ → ℤ → Act (Unit {0})
unfolding locked format_peer_key
report_good_behavior address port score = locked (λ m.
    rewarded score (format_peer_key address port) (lookup (format_peer_key address port) m.peers) m)

abbrev pub banned_until : ℤ → PeerInfo → PeerInfo
banned_until until info = record info { banned = true; ban_until = until; connected = false }

-- Nanoseconds of std::chrono::seconds, of 64 bits as all times
abbrev pub fits_clock : ℕ → ℤ → Bool
fits_clock now duration =
    fits_signed 63 (times (seconds 1) duration)
    && fits_signed 63 (pos now +ℤ times (seconds 1) duration)

-- banPeer, under the lock
abbrev pub ban_found : ℕ → Text → ℤ → Option PeerInfo → Act (Unit {0})
ban_found now key duration none m = ok (tt, m)
ban_found now key duration (some info) m =
    let until = pos now +ℤ times (seconds 1) duration in
    if fits_clock now duration
    then ok (tt, with_peers (update key (banned_until until info) m.peers) m)
    else undefined

unfoldable pub ban_peer : ℕ → Text → ℕ → ℤ → Act (Unit {0})
unfolding locked format_peer_key
ban_peer now address port duration = locked (λ m.
    ban_found now (format_peer_key address port) duration
      (lookup (format_peer_key address port) m.peers) m)

unfoldable pub unban_peer : Text → ℕ → Act (Unit {0})
unfolding locked format_peer_key
unban_peer address port =
    change_peer (format_peer_key address port)
      (λ info. record info { banned = false; ban_until = pos 0 })
