-- ===== src/Tests/Pools.antt =====
-- The theorems on the pool of transactions at a pool of one payment.
use deo.Prelude.{◌≡◌, ◌↔◌, refl, true, some, [], ◌∷◌, length, All}
use deo.Prelude.Run.{ok}
use deo.Prelude.Dicts.{lookup, insert}
use deo.Uint256.Hex.{hex_digit, stoul_pair, digit_value}
use deo.Prelude.Texts.{Text}
use deo.Transaction.{Transaction, get_id, update_hash, verify, verify_inputs}
use deo.Transaction.Wire.{
  get_size, serialize, hex_to_bytes, hex_pairs, is_odd, bytes_to_hex, number_bytes,
  serialize_inputs, serialize_outputs,
}
use deo.Mempool.{
  MempoolEntry, MempoolStats, Mempool, add_transaction, validate_transaction, validation_loop,
}
use deo.Mempool.Acceptance.{IsAcceptable, validate_transaction-IsAcceptable}
use deo.Mempool.Bounded.{Reach, Step, IsSound, Reach-IsSound}
use deo.Mempool.Tracking.{IsSettled, IsMeasurable}
use deo.Mempool.Draining.{validation_loop-IsSettled}
use deo.Tests.Transactions.{payment, spent, shortened_hash, accepts_marked}

abbrev signed_payment : Transaction
signed_payment = record payment { inputs = (record spent { signature = b'2' ∷ b'1' ∷ [] }) ∷ [] }

signed_size : get_size signed_payment ≡ ok 114
unfolding get_size serialize hex_to_bytes hex_pairs is_odd bytes_to_hex stoul_pair digit_value
    hex_digit number_bytes serialize_inputs serialize_outputs
signed_size = refl

validate_transaction-IsAcceptable_example :
    (validate_transaction accepts_marked signed_payment ≡ ok true)
    ↔ IsAcceptable accepts_marked signed_payment 114
validate_transaction-IsAcceptable_example =
    validate_transaction-IsAcceptable accepts_marked signed_payment 114 signed_size

abbrev no_stats : MempoolStats
no_stats = record {
  total_transactions = 0;
  validated_transactions = 0;
  pending_validation = 0;
  transactions_received = 0;
  duplicate_transactions_filtered = 0;
}

abbrev empty_pool : Mempool
empty_pool = record { transactions = []; validation_queue = []; stats = no_stats }

abbrev waiting_pool : Mempool
waiting_pool = (add_transaction shortened_hash 5 (some signed_payment) empty_pool).1

waiting_pool-Reach : Reach shortened_hash accepts_marked waiting_pool
waiting_pool-Reach = Reach.steps (Reach.starts no_stats) (Step.adds 5 (some signed_payment))

Reach-IsSound_example : IsSound shortened_hash waiting_pool.transactions
Reach-IsSound_example = Reach-IsSound shortened_hash accepts_marked waiting_pool-Reach

signed_verifies : verify accepts_marked signed_payment ≡ ok true
unfolding verify verify_inputs hex_to_bytes hex_pairs is_odd bytes_to_hex stoul_pair digit_value
signed_verifies = refl

waiting-IsMeasurable :
    All
      (λ (kv : Text × MempoolEntry). IsMeasurable accepts_marked kv.1.transaction)
      waiting_pool.transactions
unfolding add_transaction lookup insert get_id update_hash get_size serialize verify
waiting-IsMeasurable = (((114, measured), (true, verifies)), tt)
  where
    measured : get_size (get_id shortened_hash signed_payment).1 ≡ ok 114
    measured = signed_size

    verifies : verify accepts_marked (get_id shortened_hash signed_payment).1 ≡ ok true
    verifies = signed_verifies

validation_loop-IsSettled_example :
    (q : Mempool) × (validation_loop accepts_marked
        (length waiting_pool.validation_queue)
        waiting_pool
      ≡ ok q)
    × (q.validation_queue ≡ [])
    × All (λ kv. IsSettled accepts_marked kv.1) q.transactions
validation_loop-IsSettled_example =
    validation_loop-IsSettled shortened_hash accepts_marked waiting_pool-Reach waiting-IsMeasurable
