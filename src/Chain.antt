-- ===== src/Chain.antt =====
-- The Blockchain of include/core/blockchain.h and src/core/blockchain.cpp: its members, its mutex, its
-- pool of transactions and its unspent outputs. A std::mutex that a call locks while the same call holds it
-- is undefined. The hash, the signature scheme and the entry that begin() finds in an unordered map are
-- parameters. That a hash of a block or of a transaction is cached when it is asked for changes no later
-- answer here and is left out. No pointer to a transaction of a block is null.
pub mod Ancestry
pub mod Growth
pub mod Extension
pub mod Lineage
pub mod Walks
pub mod Locks
pub mod Pool
pub mod Consistency
pub mod Links
pub mod Verification
use deo.Prelude.{
  ℕ, zero, suc, ◌+◌, ◌-◌, ◌*◌, ◌/◌, ◌%◌, ◌^◌, Bool, true, false, ◌==◌, ◌&&◌, ◌||◌, not, ltb, leb,
  if◌then◌else◌, Option, none, some, List, [], ◌∷◌, ◌++◌, length, map,
}
use deo.Prelude.Run.{Run, ok, undefined, ◌>>=◌}
use deo.Prelude.Texts.{Text, same_text}
use deo.Prelude.Dicts.{Dict, lookup, insert, erase, is_some}
use deo.Transaction.{Transaction, TransactionInput, TransactionOutput, decimal}
use deo.Transaction as Transaction
use deo.Transaction.Wire.{get_size}
use deo.Block.{Block, BlockHeader, zeros, get_hash, id_of}
use deo.Work.{ProofOfWork}

pub record BlockchainConfig : Type 0 where
  pub max_block_size : ℕ
  pub genesis_timestamp : ℕ
  pub genesis_merkle_root : Text
  pub initial_difficulty : ℕ

-- `held` is whether blockchain_mutex_ is locked.
pub record Blockchain : Type 0 where
  pub config : BlockchainConfig
  pub held : Bool
  pub is_initialized : Bool
  pub blocks : List Block
  pub block_index : Dict Block
  pub mempool : Dict Transaction
  pub utxo_set : Dict (List TransactionOutput)
  pub current_height : ℕ
  pub total_difficulty : ℕ
  pub best_block_hash : Text
  pub consensus_engine : Option ProofOfWork

-- Blockchain(config)
abbrev pub new_blockchain : BlockchainConfig → Blockchain
new_blockchain config = record {
  config = config;
  held = false;
  is_initialized = false;
  blocks = [];
  block_index = [];
  mempool = [];
  utxo_set = [];
  current_height = 0;
  total_difficulty = 0;
  best_block_hash = [];
  consensus_engine = none;
}

-- A call that changes the members.
abbrev pub Act {ℓ} : Type ℓ → Type ℓ
Act A = Blockchain → Run (A × Blockchain)

abbrev pub with_held : Bool → Blockchain → Blockchain
with_held held c = record c { held = held }

-- std::lock_guard over a body that changes the members, and over one that does not.
unfoldable pub locked {ℓ} : {A : Type ℓ} → Act A → Act A
locked body c =
    if c.held
    then undefined
    else do (a, after) ← body (with_held true c); ok (a, with_held false after)

unfoldable pub reading {ℓ} : {A : Type ℓ} → A → Blockchain → Run A
reading answer c = if c.held then undefined else ok answer

abbrev pub last_of {ℓ} : {A : Type ℓ} → List A → Option A
last_of [] = none
last_of (x ∷ []) = some x
last_of (x ∷ y ∷ xs) = last_of (y ∷ xs)

abbrev pub first_of {ℓ} : {A : Type ℓ} → List A → Option A
first_of [] = none
first_of (x ∷ xs) = some x

abbrev pub nth_of {ℓ} : {A : Type ℓ} → List A → ℕ → Option A
nth_of [] n = none
nth_of (x ∷ xs) zero = some x
nth_of (x ∷ xs) (suc n) = nth_of xs n

-- getBlock(hash), getBlock(height), getBestBlock, getGenesisBlock
unfoldable pub get_block : Text → Blockchain → Run (Option Block)
unfolding reading
get_block hash c = reading (lookup hash c.block_index) c

unfoldable pub get_block_at : ℕ → Blockchain → Run (Option Block)
unfolding reading
get_block_at height c = reading (nth_of c.blocks height) c

unfoldable pub get_best_block : Blockchain → Run (Option Block)
unfolding reading
get_best_block c = reading (last_of c.blocks) c

unfoldable pub get_genesis_block : Blockchain → Run (Option Block)
unfolding reading
get_genesis_block c = reading (first_of c.blocks) c

-- getHeight, getTotalDifficulty, getTransaction, getUnspentOutputs
unfoldable pub get_height : Blockchain → Run ℕ
unfolding reading
get_height c = reading c.current_height c

unfoldable pub get_total_difficulty : Blockchain → Run ℕ
unfolding reading
get_total_difficulty c = reading c.total_difficulty c

unfoldable pub get_transaction : Text → Blockchain → Run (Option Transaction)
unfolding reading
get_transaction tx_id c = reading (lookup tx_id c.mempool) c

abbrev pub or_nothing {ℓ} : {A : Type ℓ} → Option (List A) → List A
or_nothing none = []
or_nothing (some xs) = xs

unfoldable pub get_unspent_outputs : Text → Blockchain → Run (List TransactionOutput)
unfolding reading
get_unspent_outputs address c = reading (or_nothing (lookup address c.utxo_set)) c

-- The key of an unspent output.
unfoldable pub utxo_key : Text → ℕ → Text
utxo_key tx_hash index = tx_hash ++ b'_' ∷ decimal index

-- validateTransactionInputs, for the inputs from some place on.
unfoldable pub inputs_known : Dict (List TransactionOutput) → List TransactionInput → Bool
unfolding utxo_key
inputs_known utxo_set [] = true
inputs_known utxo_set (input ∷ inputs) =
    let rest = inputs_known utxo_set inputs in
    if same_text input.previous_tx_hash zeros
    then rest
    else if is_some (lookup (utxo_key input.previous_tx_hash input.output_index) utxo_set)
    then rest
    else false

unfoldable pub validate_transaction_inputs : Transaction → Blockchain → Run Bool
unfolding inputs_known reading
validate_transaction_inputs tx c = reading (inputs_known c.utxo_set tx.inputs) c

-- The outputs that a transaction spends leave the set, then its own enter it.
unfoldable pub spend :
    List TransactionInput → Dict (List TransactionOutput) → Dict (List TransactionOutput)
unfolding utxo_key
spend [] utxo_set = utxo_set
spend (input ∷ inputs) utxo_set = spend inputs (
    if same_text input.previous_tx_hash zeros
    then utxo_set
    else erase (utxo_key input.previous_tx_hash input.output_index) utxo_set)

unfoldable pub provide :
    Text
    → ℕ
    → List TransactionOutput
    → Dict (List TransactionOutput)
    → Dict (List TransactionOutput)
unfolding utxo_key
provide tx_id i [] utxo_set = utxo_set
provide tx_id i (output ∷ outputs) utxo_set =
    provide tx_id (i + 1) outputs (insert (utxo_key tx_id i) (output ∷ []) utxo_set)

abbrev pub with_utxo : Dict (List TransactionOutput) → Blockchain → Blockchain
with_utxo utxo_set c = record c { utxo_set = utxo_set }

abbrev pub with_mempool : Dict Transaction → Blockchain → Blockchain
with_mempool mempool c = record c { mempool = mempool }

-- removeTransaction
unfoldable pub remove_transaction : Text → Act Bool
unfolding locked
remove_transaction tx_id = locked (λ c.
    if is_some (lookup tx_id c.mempool)
    then ok (true, with_mempool (erase tx_id c.mempool) c)
    else ok (false, c))

module _ (sha256 : Text → Text) where
  abbrev pub hash_of : Block → Text
  hash_of block = (get_hash sha256 block).0

  unfoldable pub settle_transaction : Transaction → Blockchain → Blockchain
  unfolding spend provide
  settle_transaction tx c =
      with_utxo (provide (id_of sha256 tx) 0 tx.outputs (spend tx.inputs c.utxo_set)) c

  unfoldable pub settle_all : List Transaction → Blockchain → Blockchain
  unfolding settle_transaction
  settle_all [] c = c
  settle_all (tx ∷ txs) c = settle_all txs (settle_transaction tx c)

  -- updateUTXOSet
  unfoldable pub update_utxo_set : Block → Act (Unit {0})
  unfolding locked settle_all
  update_utxo_set block = locked (λ c. ok (tt, settle_all block.transactions c))

  module _ (crypto_verify : Text → Text → Text → Run Bool)
      (begin_of : Dict Transaction → Text) where
    -- The body of processBlockTransactions.
    unfoldable pub process_transactions : List Transaction → Act Bool
    unfolding validate_transaction_inputs settle_transaction
    process_transactions [] c = ok (true, c)
    process_transactions (tx ∷ txs) c =
        let rest = process_transactions txs (settle_transaction tx c) in
        do
          good ← Transaction.verify crypto_verify tx
          if not good then ok (false, c) else do
            known ← validate_transaction_inputs tx c
            if known then rest else ok (false, c)

    unfoldable pub process_block_transactions : Block → Act Bool
    unfolding locked process_transactions
    process_block_transactions block = locked (process_transactions block.transactions)

    abbrev pub with_room : Dict Transaction → Dict Transaction
    with_room [] = []
    with_room (entry ∷ m) =
        if leb 10000 (length (entry ∷ m))
        then erase (begin_of (entry ∷ m)) (entry ∷ m)
        else entry ∷ m

    -- addTransaction, of a pointer that may be null
    unfoldable pub add_transaction : Option Transaction → Act Bool
    unfolding validate_transaction_inputs
    add_transaction none c = ok (false, c)
    add_transaction (some tx) c =
        let id = id_of sha256 tx in
        if is_some (lookup id c.mempool)
        then ok (true, c)
        else if not (Transaction.validate tx)
        then ok (false, c)
        else do
          good ← Transaction.verify crypto_verify tx
          if not good then ok (false, c) else do
            known ← validate_transaction_inputs tx c
            if not known then ok (false, c) else do
              size ← get_size tx
              if ltb c.config.max_block_size size
                  then ok (false, c)
                  else ok (true, with_mempool (insert id tx (with_room c.mempool)) c)
