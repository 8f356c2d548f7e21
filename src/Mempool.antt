-- ===== src/Mempool.antt =====
-- TransactionMempool of include/network/transaction_mempool.h and src/network/transaction_mempool.cpp.
-- Its mutexes make each method one step, and a round of the validation thread, which locks three times,
-- is taken as one step too; a method that locks a mutex that it holds is undefined. The clock, the hash
-- and the signature scheme are parameters. Times are counted in nanoseconds.
pub mod Acceptance
pub mod Room
pub mod Marking
pub mod Bounded
pub mod Tracking
pub mod Draining
use deo.Prelude.{
  ℕ, zero, suc, ◌+◌, ◌-◌, ◌*◌, ◌%◌, ◌^◌, Bool, true, false, ◌==◌, ◌&&◌, not, ltb, leb, incremented,
  decremented, if◌then◌else◌, Option, none, some, List, [], ◌∷◌, ◌++◌, length, take,
}
use deo.Prelude.Run.{Run, ok, throws, undefined, no_fuel, ◌>>=◌}
use deo.Prelude.Texts.{Text, same_text}
use deo.Prelude.Dicts.{Dict, lookup, insert, erase, is_some}
use deo.Transaction.{TransactionInput, Transaction, get_id, verify, decimal, is_empty_list}
use deo.Transaction.Wire.{get_size}
use deo.Fees.{FeeParameters, calculate_fee}

-- The fields of an entry that the code reads; the counts of its propagation are never read.
pub record MempoolEntry : Type 0 where
  pub transaction : Transaction
  pub received_time : ℕ
  pub is_validated : Bool

pub record MempoolStats : Type 0 where
  pub total_transactions : ℕ
  pub validated_transactions : ℕ
  pub pending_validation : ℕ
  pub transactions_received : ℕ
  pub duplicate_transactions_filtered : ℕ

pub record Mempool : Type 0 where
  pub transactions : Dict MempoolEntry
  pub validation_queue : List Text
  pub stats : MempoolStats

abbrev pub max_mempool_size : ℕ
max_mempool_size = 10000

-- 24 hours
abbrev pub transaction_expiry : ℕ
transaction_expiry = 24 * 3600 * 10 ^ 9

-- std::min_element by the time of arrival: the first of the oldest entries.
unfoldable pub oldest_of : Text × ℕ → Dict MempoolEntry → Text
oldest_of best [] = best.0
oldest_of best ((k, entry) ∷ m) =
    oldest_of (if ltb entry.received_time best.1 then (k, entry.received_time) else best) m

unfoldable pub without_oldest : Dict MempoolEntry → Dict MempoolEntry
unfolding oldest_of
without_oldest [] = []
without_oldest ((k, entry) ∷ m) = erase (oldest_of (k, entry.received_time) m) ((k, entry) ∷ m)

-- Makes room where the pool is full.
abbrev pub with_room : Dict MempoolEntry → Dict MempoolEntry
with_room m = if leb max_mempool_size (length m) then without_oldest m else m

abbrev pub new_entry : Transaction → ℕ → MempoolEntry
new_entry tx now = record { transaction = tx; received_time = now; is_validated = false }

module _ (sha256 : Text → Text) where
  abbrev pub id_of : Transaction → Text
  id_of tx = (get_id sha256 tx).0

  -- addTransaction, of a pointer that may be null.
  unfoldable pub add_transaction : ℕ → Option Transaction → Mempool → Bool × Mempool
  add_transaction now none pool = (false, pool)
  add_transaction now (some tx) pool =
      let id = id_of tx in
      let stats = pool.stats in
      let kept = with_room pool.transactions in
      if is_some (lookup id pool.transactions)
      then (
        false,
        record pool {
          stats = record stats {
            duplicate_transactions_filtered = incremented stats.duplicate_transactions_filtered;
          };
        },
      )
      else (
        true,
        record {
          transactions = insert id (new_entry (get_id sha256 tx).1 now) kept;
          validation_queue = pool.validation_queue ++ id ∷ [];
          stats = record stats {
            total_transactions = incremented stats.total_transactions;
            transactions_received = incremented stats.transactions_received;
            pending_validation = incremented stats.pending_validation;
          };
        },
      )

unfoldable pub remove_transaction : Text → Mempool → Bool × Mempool
remove_transaction id pool =
    if is_some (lookup id pool.transactions)
    then (true, record pool { transactions = erase id pool.transactions })
    else (false, pool)

unfoldable pub get_transaction : Text → Mempool → Option Transaction
get_transaction id pool = elim (lookup id pool.transactions) [
  | none ↦ none
  | some entry ↦ some entry.transaction
]

-- The transactions of the first keys.
abbrev pub transactions_of : Dict MempoolEntry → List Transaction
transactions_of [] = []
transactions_of ((k, entry) ∷ m) = entry.transaction ∷ transactions_of m

unfoldable pub get_transactions : ℕ → Mempool → List Transaction
get_transactions max_count pool = take max_count (transactions_of pool.transactions)

unfoldable pub count_validated : Dict MempoolEntry → ℕ
count_validated [] = 0
count_validated ((k, entry) ∷ m) =
    let others = count_validated m in if entry.is_validated then others + 1 else others

unfoldable pub has_transaction : Text → Mempool → Bool
has_transaction id pool = is_some (lookup id pool.transactions)

unfoldable pub drop_expired : ℕ → Dict MempoolEntry → Dict MempoolEntry
drop_expired now [] = []
drop_expired now ((k, entry) ∷ m) =
    let others = drop_expired now m in
    if ltb (entry.received_time + transaction_expiry) now then others else (k, entry) ∷ others

unfoldable pub cleanup_expired_transactions : ℕ → Mempool → Mempool
unfolding drop_expired
cleanup_expired_transactions now pool = record pool {
  transactions = drop_expired now pool.transactions;
}

-- The parameters of the fee that the pool asks for.
abbrev pub pool_parameters : FeeParameters
pool_parameters = record {
  base_fee_per_byte = 1;
  gas_price = 20;
  priority_fee_multiplier = 1;
  min_fee = 100;
  max_fee = 100000000;
}

abbrev pub max_transaction_size : ℕ
max_transaction_size = 1048576

-- previous_tx_hash + ":" + std::to_string(output_index)
abbrev pub input_key : TransactionInput → Text
input_key input = input.previous_tx_hash ++ (b':' ∷ decimal input.output_index)

unfoldable pub has_key : Text → List Text → Bool
has_key key [] = false
has_key key (k ∷ keys) = let later = has_key key keys in if same_text k key then true else later

-- The loop over the inputs, with the keys met so far.
unfoldable pub has_duplicate : List TransactionInput → List Text → Bool
unfolding has_key
has_duplicate [] keys = false
has_duplicate (input ∷ inputs) keys =
    let later = has_duplicate inputs (input_key input ∷ keys) in
    if has_key (input_key input) keys then true else later

module _ (crypto_verify : Text → Text → Text → Run Bool) where
  unfoldable pub validate_transaction : Transaction → Run Bool
  unfolding has_duplicate
  validate_transaction tx =
      let checked = get_size tx >>= λ size. ok (
        if ltb max_transaction_size size
        then false
        else if is_empty_list tx.inputs
        then false
        else if is_empty_list tx.outputs
        then false
        else if has_duplicate tx.inputs []
        then false
        else if ltb (calculate_fee tx pool_parameters).total_fee pool_parameters.min_fee
        then false
        else true) in
      do good ← verify crypto_verify tx; if not good then ok false else checked

  abbrev pub counted_valid : MempoolStats → MempoolStats
  counted_valid stats = record stats {
    validated_transactions = incremented stats.validated_transactions;
    pending_validation = decremented stats.pending_validation;
  }

  -- it->second.is_validated = true, if the transaction is still there.
  unfoldable pub mark_validated : Text → Dict MempoolEntry → Dict MempoolEntry
  mark_validated id [] = []
  mark_validated id ((k, entry) ∷ m) =
      if same_text k id
      then (k, record entry { is_validated = true }) ∷ m
      else (k, entry) ∷ mark_validated id m

  -- A round of the validation loop on the front of the queue. An exception leaves the thread.
  unfoldable pub finish_validation : Text → Mempool → Bool → Mempool
  unfolding mark_validated
  finish_validation id pool false = pool
  finish_validation id pool true = record pool {
    transactions = mark_validated id pool.transactions;
    stats = counted_valid pool.stats;
  }

  -- What follows on the search of the pool, once the identity is off the queue.
  unfoldable pub validate_found : Text → Mempool → Option MempoolEntry → Run Mempool
  unfolding finish_validation
  validate_found id popped none = ok popped
  validate_found id popped (some entry) =
      validate_transaction entry.transaction >>= λ good. ok (finish_validation id popped good)

  unfoldable pub validate_front : Mempool → List Text → Run Mempool
  unfolding validate_found
  validate_front pool [] = ok pool
  validate_front pool (id ∷ queue) =
      validate_found id (record pool { validation_queue = queue }) (lookup id pool.transactions)

  unfoldable pub validate_next : Mempool → Run Mempool
  unfolding validate_front
  validate_next pool = validate_front pool pool.validation_queue

  -- The inner loop of the thread, while the queue is not empty.
  unfoldable pub validation_loop : ℕ → Mempool → Run Mempool
  unfolding validate_front
  validation_loop zero pool = if is_empty_list pool.validation_queue then ok pool else no_fuel
  validation_loop (suc fuel) pool =
      let rest = λ (q : Mempool). validation_loop fuel q in
      if is_empty_list pool.validation_queue then ok pool else validate_next pool >>= rest

  -- validateAllTransactions: it stops at an exception.
  unfoldable pub validate_entries :
      Dict MempoolEntry → MempoolStats → Run (Dict MempoolEntry × MempoolStats)
  validate_entries [] stats = ok ([], stats)
  validate_entries ((k, entry) ∷ m) stats =
      if entry.is_validated
      then (validate_entries m stats >>= λ r. ok ((k, entry) ∷ r.0, r.1))
      else do
        good ← validate_transaction entry.transaction
        rest ← validate_entries m (if good then counted_valid stats else stats)
        ok ((k, if good then record entry { is_validated = true } else entry) ∷ rest.0, rest.1)

  unfoldable pub validate_all_transactions : Mempool → Run Mempool
  unfolding validate_entries
  validate_all_transactions pool = do
    r ← validate_entries pool.transactions pool.stats
    ok (record pool { transactions = r.0; stats = r.1 })

-- propagateTransaction holds the mutex of the pool, and for a validated transaction calls
-- propagateToPeers, which calls getTransaction, which locks it again.
unfoldable pub propagate_transaction : Text → Mempool → Run Mempool
propagate_transaction id pool = elim (lookup id pool.transactions) [
  | none ↦ ok pool
  | some entry ↦ if entry.is_validated then undefined else ok pool
]
