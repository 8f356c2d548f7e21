-- ===== src/Peers/Calls.antt =====
-- The states that the calls of the PeerManager of src/network/peer_manager.cpp lead to.
use deo.Prelude.{
  ℕ, ◌+◌, ◌≡◌, refl, true, false, Bool-cases, inl, inr, Option, none, some, [], ◌∷◌, ◌++◌, ltb,
}
use deo.Prelude.Run.{ok, Holds, Holds_at, ◌>>=◌}
use deo.Prelude.Texts.{Text}
use deo.Prelude.Dicts.{lookup, IsDict}
use deo.Prelude.Integers.{ℤ, pos}
use deo.Peers.{
  ban_found, RateLimitEntry, PeerManager, new_peer_manager, Act, with_held, with_peers, add_nodes,
  rewarded, locked, format_peer_key, add_bootstrap_node, add_peer, discover_peers, remove_peer,
  update_peer_activity, update_peer_height, report_good_behavior, ban_peer, unban_peer,
}
use deo.Peers.Scores.{
  misbehaved, without_stale, release_all, report_misbehavior, cleanup_stale_peers,
  cleanup_expired_bans,
}
use deo.Peers.Rates.{record_message, check_rate_limit, checked}
use deo.Peers.Registry.{
  IsPeerMap, Keeps, locked-Keeps, change_peer-Keeps, added-IsPeerMap, rewarded-Keeps,
  ban_found-Keeps, misbehaved-Keeps, add_nodes-Keeps, release_all-IsPeerMap,
  without_stale-IsPeerMap,
}

-- The calls that change a manager, but for reports of good behavior with a negative score, which raise the
-- score of misbehavior without a ban.
pub data Call : Type 0 where
  adds_bootstrap_node adds removes unbans : (address : Text) (port : ℕ) → Call
  discovers cleans_peers cleans_bans : Call
  acts : (address : Text) (port : ℕ) → Call
  grows praises : (address : Text) (port amount : ℕ) → Call
  reports bans : (address : Text) (port : ℕ) (amount : ℤ) → Call
  records checks : (address : Text) (port : ℕ) (message_type : Text) → Call

-- A call at a time.
unfoldable pub run_call : ℕ → Call → Act (Unit {0})
unfolding add_bootstrap_node add_peer discover_peers remove_peer update_peer_activity
    update_peer_height report_good_behavior report_misbehavior ban_peer unban_peer
    cleanup_stale_peers cleanup_expired_bans record_message check_rate_limit
run_call now (adds_bootstrap_node address port) m = add_bootstrap_node address port m
run_call now (adds address port) m = do (done, after) ← add_peer now address port m; ok (tt, after)
run_call now (removes address port) m = remove_peer address port m
run_call now (unbans address port) m = unban_peer address port m
run_call now discovers m = discover_peers now m
run_call now cleans_peers m = cleanup_stale_peers now m
run_call now cleans_bans m = cleanup_expired_bans now m
run_call now (acts address port) m = update_peer_activity now address port m
run_call now (grows address port height) m = update_peer_height address port height m
run_call now (praises address port score) m = report_good_behavior address port (pos score) m
run_call now (reports address port score) m = report_misbehavior now address port score m
run_call now (bans address port duration) m = ban_peer now address port duration m
run_call now (records address port message_type) m =
    ok (tt, record_message now address port message_type m)
run_call now (checks address port message_type) m =
    ok (tt, (check_rate_limit now address port message_type m).1)

pub data Reach : PeerManager → Type 0 where
  starts : Reach new_peer_manager
  calls :
      {m after : PeerManager} (now : ℕ) (call : Call)
      → Reach m
      → run_call now call m ≡ ok (tt, after)
      → Reach after

add_peer-Keeps :
    (now : ℕ) (address : Text) (port : ℕ) (m : PeerManager)
    → IsPeerMap m.peers
    → Holds Keeps (run_call now (adds address port) m)
unfolding run_call add_peer locked
add_peer-Keeps now address port m h = elim (Bool-cases m.held) [
  | inl held ↦ rw held tt
  | inr free ↦ rw free (
    refl,
    added-IsPeerMap now address port (lookup (format_peer_key address port) m.peers) m.peers refl h,
  )
]

checked-Keeps :
    (now : ℕ) (key message_type : Text) (found : Option RateLimitEntry) (m : PeerManager)
    → (m.held ≡ false) × IsPeerMap m.peers
    → Keeps (tt, (checked now key message_type found m).1)
checked-Keeps now key message_type none m h = h
checked-Keeps now key message_type (some entry) m h =
    elim (Bool-cases (ltb (entry.last_request + entry.window_duration) now)) [
      | inl over ↦ rw over h
      | inr on ↦ rw on h
    ]

run_call-Keeps :
    (now : ℕ) (call : Call) (m : PeerManager)
    → m.held ≡ false
    → IsPeerMap m.peers
    → Holds Keeps (run_call now call m)
unfolding run_call add_bootstrap_node discover_peers remove_peer update_peer_activity
    update_peer_height report_good_behavior report_misbehavior ban_peer unban_peer
    cleanup_stale_peers cleanup_expired_bans record_message check_rate_limit
run_call-Keeps now (adds_bootstrap_node address port) m free h =
    locked-Keeps
      (λ x. ok (tt, record x { bootstrap_nodes = x.bootstrap_nodes ++ (address, port) ∷ [] })) m h
run_call-Keeps now (adds address port) m free h = add_peer-Keeps now address port m h
run_call-Keeps now (removes address port) m free h = change_peer-Keeps _ _ m (λ info own. own) h
run_call-Keeps now (unbans address port) m free h = change_peer-Keeps _ _ m (λ info own. own) h
run_call-Keeps now discovers m free h =
    locked-Keeps (λ x. add_nodes now x.bootstrap_nodes x) m
      (add_nodes-Keeps now m.bootstrap_nodes (with_held true m) refl h)
run_call-Keeps now cleans_peers m free h =
    locked-Keeps (λ x. ok (tt, with_peers (without_stale now x.peers) x)) m
      (without_stale-IsPeerMap now m.peers h)
run_call-Keeps now cleans_bans m free h =
    locked-Keeps (λ x. ok (tt, with_peers (release_all now x.peers) x)) m
      (release_all-IsPeerMap now m.peers h)
run_call-Keeps now (acts address port) m free h = change_peer-Keeps _ _ m (λ info own. own) h
run_call-Keeps now (grows address port height) m free h =
    change_peer-Keeps _ _ m (λ info own. own) h
run_call-Keeps now (praises address port score) m free h =
    let key = format_peer_key address port in
    locked-Keeps (λ x. rewarded (pos score) key (lookup key x.peers) x) m
      (rewarded-Keeps score key (lookup key m.peers) (with_held true m) refl h)
run_call-Keeps now (reports address port score) m free h =
    locked-Keeps
      (λ x. misbehaved now address port score (lookup (format_peer_key address port) x.peers) x) m
      (misbehaved-Keeps now address port score (lookup (format_peer_key address port) m.peers)
        (with_held true m) refl refl h)
run_call-Keeps now (bans address port duration) m free h =
    let key = format_peer_key address port in
    locked-Keeps (λ x. ban_found now key duration (lookup key x.peers) x) m
      (ban_found-Keeps now key duration (lookup key m.peers) (with_held true m) refl h)
run_call-Keeps now (records address port message_type) m free h = (free, h)
run_call-Keeps now (checks address port message_type) m free h =
    checked-Keeps now (format_peer_key address port) message_type _ m (free, h)

-- Whatever calls come back from a new manager, with no negative score among the reports of good behavior, its mutex is free, no key stands twice in its map, each peer
-- stands under the key of its address and port, and its score of misbehavior is below 100.
pub Reach-IsPeerMap : {m : PeerManager} → Reach m → (m.held ≡ false) × IsPeerMap m.peers
unfolding IsDict
Reach-IsPeerMap starts = (refl, (tt, tt))
Reach-IsPeerMap (calls {m} {after} now call r e) =
    let before = Reach-IsPeerMap r in
    Holds_at Keeps (run_call now call m) (tt, after) (run_call-Keeps now call m before.0 before.1) e
