-- ===== src/Chain/Extension.antt =====
-- addBlock of src/core/blockchain.cpp, createNewBlock, and a round of miningWorker, which puts them
-- together with the consensus engine. The walks have fuel; the clock, the storage and what another thread
-- stops are parameters.
use deo.Prelude.{
  ℕ, ◌+◌, ◌%◌, ◌^◌, Bool, true, false, ◌==◌, not, leb, if◌then◌else◌, Option, none, some, List, [],
  ◌∷◌, ◌++◌, length, map, take,
}
use deo.Prelude.Run.{Run, ok, ◌>>=◌}
use deo.Prelude.Texts.{Text, same_text}
use deo.Prelude.Dicts.{Dict, lookup, insert, erase, is_some}
use deo.Transaction.{Transaction, is_coinbase}
use deo.Block.{Block, new_header, zeros, block_of, update_merkle_root, id_of}
use deo.Work.{ProofOfWork, start_consensus}
use deo.Chain.{
  Blockchain, Act, locked, reading, get_best_block, hash_of, with_mempool,
  process_block_transactions, update_utxo_set, remove_transaction,
}
use deo.Chain.Ancestry.{previous_of, handle_chain_reorganization}
use deo.Chain.Growth.{validate_block, calculate_next_difficulty}

module _ (sha256 : Text → Text) where
  unfoldable pub erase_mined : List Transaction → Dict Transaction → Dict Transaction
  erase_mined [] mempool = mempool
  erase_mined (tx ∷ txs) mempool =
      erase_mined txs (if is_coinbase tx then mempool else erase (id_of sha256 tx) mempool)

  -- The block as the new last one.
  abbrev pub appended : Block → Blockchain → Blockchain
  appended block c = record c {
    blocks = c.blocks ++ block ∷ [];
    block_index = insert (hash_of sha256 block) block c.block_index;
    current_height = block.header.height;
    best_block_hash = hash_of sha256 block;
    total_difficulty = (c.total_difficulty + block.header.difficulty) % 2 ^ 64;
  }

  -- createNewBlock
  unfoldable pub create_new_block : ℕ → List Transaction → Act Block
  unfolding locked calculate_next_difficulty
  create_new_block now transactions = locked (λ c. do
    difficulty ← calculate_next_difficulty c
    let header = record new_header {
      timestamp = now;
      difficulty = difficulty;
      height = (c.current_height + 1) % 2 ^ 64;
      transaction_count = length transactions % 2 ^ 32;
      previous_hash = if length c.blocks == 0 then zeros else c.best_block_hash;
    }
    ok (update_merkle_root (block_of sha256 header transactions), c))

  -- removeTransaction of each transaction that was mined
  unfoldable pub remove_all : List Transaction → Act (Unit {0})
  unfolding remove_transaction
  remove_all [] c = ok (tt, c)
  remove_all (tx ∷ txs) c = do
    (removed, after) ← remove_transaction (id_of sha256 tx) c
    remove_all txs after

  module _ (crypto_verify : Text → Text → Text → Run Bool) (begin_of : Dict Transaction → Text)
      (store : Block → Bool) (fuel : ℕ) where
    -- addBlock of a block that follows the best block and whose transactions are processed
    abbrev pub finish : Block → Act Bool
    finish block c = do
      (done, settled) ← update_utxo_set sha256 block (appended block c)
      if not (store block)
          then ok (false, settled)
          else ok (true, with_mempool (erase_mined block.transactions settled.mempool) settled)

    abbrev pub follow : Block → Block → Act Bool
    follow block best c =
        if not (block.header.height == (best.header.height + 1) % 2 ^ 64)
        then ok (false, c)
        else if leb block.header.timestamp best.header.timestamp
        then ok (false, c)
        else do
          (processed, after) ← process_block_transactions sha256 crypto_verify begin_of block c
          if not processed then ok (false, after) else finish block after

    -- addBlock where there is no reorganisation
    abbrev pub extend : Block → Act Bool
    extend block c = do
      current_best ← get_best_block c
      elim current_best [
        | none ↦ ok (false, c)
        | some best ↦
            if same_text (previous_of block) (hash_of sha256 best)
            then follow block best c
            else ok (false, c)
      ]

    -- The body of addBlock under its lock.
    abbrev pub add_locked : Block → Act Bool
    add_locked block c = do
      valid ← validate_block sha256 crypto_verify block c
      if not valid
          then ok (false, c)
          else if is_some (lookup (hash_of sha256 block) c.block_index)
          then ok (true, c)
          else do
            (reorganised, after) ← handle_chain_reorganization sha256 fuel (some block) c
            if reorganised then ok (true, after) else extend block after

    unfoldable pub add_block : Option Block → Act Bool
    unfolding locked validate_block handle_chain_reorganization process_block_transactions
        update_utxo_set erase_mined get_best_block
    add_block none c = ok (false, c)
    add_block (some block) c = locked (add_locked block) c

    -- A round of miningWorker: a block of at most 100 transactions of the pool.
    module _ (clock : ℕ → ℕ) (stopped_by : ℕ → Bool) (rounds : ℕ) where
      -- What follows once the block is mined.
      abbrev pub add_mined : List Transaction → Block → Act (Unit {0})
      add_mined transactions block c = do
        (added, after) ← add_block (some block) c
        if added then remove_all transactions after else ok (tt, after)

      abbrev pub mine_with : Option ProofOfWork → List Transaction → Block → Act (Unit {0})
      mine_with none transactions block c = ok (tt, c)
      mine_with (some engine) transactions block c = do
        (hash, mined_block, after) ←
            start_consensus sha256 crypto_verify clock stopped_by rounds block engine
        let worked = record c { consensus_engine = some after }
        if is_some hash then add_mined transactions mined_block worked else ok (tt, worked)

      unfoldable pub mining_round : ℕ → Act (Unit {0})
      unfolding create_new_block add_block remove_all
      mining_round now c = do
        transactions ← reading (take 100 (map (λ (e : Text × Transaction). e.1) c.mempool)) c
        if length transactions == 0 then ok (tt, c) else do
          (block, after) ← create_new_block now transactions c
          mine_with after.consensus_engine transactions block after
