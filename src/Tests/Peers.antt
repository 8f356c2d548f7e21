-- ===== src/Tests/Peers.antt =====
-- The theorems on peers at a manager of two peers, and runs that meet its mutex.
use deo.Prelude.{not, ℕ, ◌+◌, ◌^◌, ◌%◌, ◌≡◌, refl, false, ◌&&◌, leb, [], ◌∷◌, length, arith}
use deo.Prelude.Run.{Run, ok, undefined}
use deo.Prelude.Texts.{Text, same_text}
use deo.Prelude.Integers.{pos, ◌+ℤ◌, times, fits_signed, reaches, less_than}
use deo.Prelude.Dicts.{lookup, insert, update, text_lt}
use deo.Transaction.{decimal, decimal_digits}
use deo.Peers.{
  PeerInfo, PeerManager, new_peer_manager, seconds, format_peer_key, locked, ban_peer, add_peer,
  new_peer,
}
use deo.Peers.Scores.{is_peer_banned, is_peer_connected, cleanup_expired_bans, report_misbehavior}
use deo.Peers.Rates.{record_messages, check_rate_limit, check_rate_limit-record_messages}
use deo.Peers.Registry.{IsPeerMap}
use deo.Peers.Calls.{adds, reports, bans, run_call, Reach, starts, calls, Reach-IsPeerMap}
use deo.Peers.Bans.{
  IsReported, is_peer_banned-cleanup_expired_bans, ban_peer-is_peer_banned,
  report_misbehavior-IsReported,
}

abbrev home : Text
home = b'h' ∷ []

abbrev away : Text
away = b'w' ∷ []

abbrev manager_of : Run ((Unit {0}) × PeerManager) → PeerManager
manager_of (ok (done, m)) = m
manager_of other = new_peer_manager

-- Two peers, the first of which is banned for a minute.
abbrev one_peer : PeerManager
one_peer = manager_of (run_call 1 (adds home 80) new_peer_manager)

abbrev two_peers : PeerManager
two_peers = manager_of (run_call 2 (adds away 81) one_peer)

abbrev reported_peers : PeerManager
reported_peers = manager_of (run_call 3 (reports home 80 (pos 30)) two_peers)

abbrev banned_peers : PeerManager
banned_peers = manager_of (run_call 3 (bans home 80 (pos 60)) two_peers)

reported_peers-Reach : Reach reported_peers
unfolding run_call add_peer report_misbehavior locked lookup insert update format_peer_key decimal
    decimal_digits text_lt same_text ◌+ℤ◌ times fits_signed reaches
reported_peers-Reach =
    calls {m = two_peers} 3 (reports home 80 (pos 30))
      (calls {m = one_peer} 2 (adds away 81)
        (calls {m = new_peer_manager} 1 (adds home 80) starts refl) refl)
      refl

Reach-IsPeerMap_example : (reported_peers.held ≡ false) × IsPeerMap reported_peers.peers
Reach-IsPeerMap_example = Reach-IsPeerMap reported_peers-Reach

abbrev home_info : PeerInfo
home_info = new_peer 1 home 80

is_peer_banned-cleanup_expired_bans_example :
    (after : PeerManager) × (cleanup_expired_bans (seconds 61) banned_peers ≡ ok (tt, after))
    × (is_peer_banned (seconds 61) home 80 after ≡ is_peer_banned (seconds 61) home 80 banned_peers)
unfolding run_call add_peer ban_peer locked lookup insert update format_peer_key decimal
    decimal_digits text_lt same_text ◌+ℤ◌ times fits_signed reaches
is_peer_banned-cleanup_expired_bans_example =
    is_peer_banned-cleanup_expired_bans (seconds 61) (seconds 61) home 80 banned_peers refl
      (omega arith)

report_misbehavior-IsReported_example :
    IsReported 4 5 home 80
      (pos 70)
      reported_peers
      (lookup (format_peer_key home 80) reported_peers.peers)
unfolding run_call add_peer report_misbehavior locked lookup insert update format_peer_key decimal
    decimal_digits text_lt same_text ◌+ℤ◌ times fits_signed reaches
report_misbehavior-IsReported_example =
    report_misbehavior-IsReported 4 5 home 80 (pos 70) reported_peers refl

-- The report that brings a score of 30 to 100.
last_report : report_misbehavior 4 home 80 (pos 70) reported_peers ≡ undefined
unfolding run_call add_peer report_misbehavior ban_peer locked lookup insert update format_peer_key
    decimal decimal_digits text_lt same_text ◌+ℤ◌ times fits_signed reaches
last_report = refl

ban_peer-is_peer_banned_example :
    (after : PeerManager) × (ban_peer 3 home 80 (pos 60) two_peers ≡ ok (tt, after))
    × (is_peer_banned 9 home 80 after
        ≡ ok (not (less_than (pos 3 +ℤ times (seconds 1) (pos 60)) (pos 9))))
    × (is_peer_connected home 80 after ≡ ok false)
    × (is_peer_banned 9 away 81 after ≡ is_peer_banned 9 away 81 two_peers)
    × (is_peer_connected away 81 after ≡ is_peer_connected away 81 two_peers)
unfolding run_call add_peer locked lookup insert update format_peer_key decimal decimal_digits
    text_lt same_text ◌+ℤ◌ times fits_signed reaches
ban_peer-is_peer_banned_example =
    ban_peer-is_peer_banned 3 9 (pos 60) home away 80 81 home_info two_peers refl refl refl
      (omega arith) (omega arith) (λ same same_port. absurd (omega (arith, same_port)))

abbrev told_manager : PeerManager
told_manager = record new_peer_manager { bootstrap_nodes = (home, 80) ∷ [] }

check_rate_limit-record_messages_example :
    (check_rate_limit 50 home 80 away
      (record_messages (40 ∷ 30 ∷ []) home 80 away new_peer_manager)).0
    ≡ (leb 50 (40 + seconds 60) && leb 100 ((length {A = ℕ} (30 ∷ []) + 1) % 2 ^ 64))
unfolding lookup
check_rate_limit-record_messages_example =
    check_rate_limit-record_messages 50 40 (30 ∷ []) home 80 away new_peer_manager refl
