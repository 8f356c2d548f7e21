-- ===== src/Chain/Growth.antt =====
-- How the chain of src/core/blockchain.cpp starts, grows, is loaded and is checked, over the engine of the
-- proof of work. The block storage is a parameter: what it has stored, and whether it stores a block.
use deo.Prelude.{
  ℕ, ◌+◌, ◌-◌, ◌*◌, ◌/◌, ◌%◌, ◌^◌, Bool, true, false, not, ltb, if◌then◌else◌, Option, none, some,
  List, [], ◌∷◌, ◌++◌,
}
use deo.Prelude.Run.{Run, ok, ◌>>=◌}
use deo.Prelude.Texts.{Text, same_text}
use deo.Prelude.Dicts.{Dict, insert}
use deo.Block.{Block, new_header, block_of, verify}
use deo.Work as Work
use deo.Work.{ProofOfWork, new_proof_of_work, start_consensus}
use deo.Chain.{Blockchain, BlockchainConfig, Act, reading, last_of, hash_of}

unfoldable pub total_of : ℕ → List Block → ℕ
total_of total [] = total
total_of total (block ∷ blocks) = total_of ((total + block.header.difficulty) % 2 ^ 64) blocks

-- calculateNextDifficulty of the blocks, the last one first: differences of 64 bits, products of 32.
unfoldable pub next_difficulty : ℕ → List Block → ℕ
next_difficulty initial [] = initial
next_difficulty initial (b ∷ []) = initial
next_difficulty initial (last_block ∷ prev_block ∷ earlier) =
    let time_diff =
      (last_block.header.timestamp + (2 ^ 64 - prev_block.header.timestamp)) % 2 ^ 64 in
    let halved = last_block.header.difficulty / 2 in
    if ltb time_diff 300
    then last_block.header.difficulty * 2 % 2 ^ 32
    else if ltb 1200 time_diff
    then (if ltb halved 1 then 1 else halved)
    else last_block.header.difficulty

abbrev pub backwards : List Block → List Block → List Block
backwards [] later = later
backwards (b ∷ bs) later = backwards bs (b ∷ later)

unfoldable pub calculate_next_difficulty : Blockchain → Run ℕ
unfolding reading next_difficulty
calculate_next_difficulty c =
    reading (next_difficulty c.config.initial_difficulty (backwards c.blocks [])) c

-- What a storage finds: all its blocks, or for each height a block or none.
pub data Stored : Type 0 where
  json : List Block → Stored
  leveldb : List (Option Block) → Stored

module _ (sha256 : Text → Text) where
  unfoldable pub index_all : List Block → Dict Block → Dict Block
  index_all [] index = index
  index_all (block ∷ blocks) index = index_all blocks (insert (hash_of sha256 block) block index)

  -- The end of loadState and of importBlockchain: the height, the best hash and the total of the blocks.
  abbrev pub refresh_at : Option Block → Blockchain → Blockchain
  refresh_at none c = c
  refresh_at (some best) c = record c {
    current_height = best.header.height;
    best_block_hash = hash_of sha256 best;
    total_difficulty = total_of 0 c.blocks;
  }

  abbrev pub refreshed : Blockchain → Blockchain
  refreshed c = refresh_at (last_of c.blocks) c

  abbrev pub replace_blocks : List Block → Blockchain → Blockchain
  replace_blocks blocks c =
      refreshed (record c { blocks = blocks; block_index = index_all blocks [] })

  unfoldable pub push_found : List (Option Block) → Blockchain → Blockchain
  push_found [] c = c
  push_found (none ∷ found) c = push_found found c
  push_found (some block ∷ found) c = push_found found (record c {
    blocks = c.blocks ++ block ∷ [];
    block_index = insert (hash_of sha256 block) block c.block_index;
  })

  unfoldable pub load_state : Stored → Blockchain → Blockchain
  unfolding index_all push_found total_of
  load_state (json []) c = c
  load_state (json (block ∷ blocks)) c = replace_blocks (block ∷ blocks) c
  load_state (leveldb []) c = c
  load_state (leveldb (first ∷ found)) c = refreshed (push_found (first ∷ found) c)

  unfoldable pub create_genesis_block : BlockchainConfig → Block
  create_genesis_block config =
      block_of sha256
        (record new_header {
          merkle_root = config.genesis_merkle_root;
          timestamp = config.genesis_timestamp;
          difficulty = config.initial_difficulty;
        })
        []

  -- initialize, where the blocks are loaded
  abbrev pub with_genesis : List Block → Blockchain → Blockchain
  with_genesis (block ∷ blocks) c = c
  with_genesis [] c =
      let genesis_block = create_genesis_block c.config in
      record c {
        blocks = genesis_block ∷ [];
        block_index = insert (hash_of sha256 genesis_block) genesis_block c.block_index;
        best_block_hash = hash_of sha256 genesis_block;
        current_height = 0;
      }

  abbrev pub with_engine : ℕ → Blockchain → Blockchain
  with_engine now c = record c {
    consensus_engine =
        some ((Work.initialize now (new_proof_of_work c.config.initial_difficulty 600)).1);
  }

  unfoldable pub initialize : (storage_ready : Bool) → ℕ → Stored → Blockchain → Bool × Blockchain
  unfolding load_state create_genesis_block
  initialize storage_ready now stored c =
      let loaded = load_state stored (with_engine now c) in
      let started = with_genesis loaded.blocks loaded in
      if c.is_initialized
      then (true, c)
      else if not storage_ready
      then (false, c)
      else (true, record started { is_initialized = true })

  -- shutdown, which keeps the engine. What the storages do when they shut down is left out.
  abbrev pub engine_down : Option ProofOfWork → Option ProofOfWork
  engine_down none = none
  engine_down (some engine) = some (Work.shutdown engine)

  unfoldable pub shutdown : Blockchain → Blockchain
  shutdown c = record c {
    consensus_engine = engine_down c.consensus_engine;
    is_initialized = false;
  }

  -- verifyBlockchain, of the blocks from some place on and the one before
  unfoldable pub links_back : Option Block → Block → Bool
  links_back none block = true
  links_back (some prev_block) block =
      same_text block.header.previous_hash (hash_of sha256 prev_block)

  module _ (crypto_verify : Text → Text → Text → Run Bool) where
    unfoldable pub verify_from : Option Block → List Block → Run Bool
    unfolding links_back
    verify_from prev [] = ok true
    verify_from prev (block ∷ blocks) =
        let rest = verify_from (some block) blocks in
        verify sha256 crypto_verify block >>= λ r.
        if not r.0 then ok false else if not (links_back prev block) then ok false else rest

    unfoldable pub verify_blockchain : Blockchain → Run Bool
    unfolding reading verify_from
    verify_blockchain c = do blocks ← reading c.blocks c; verify_from none blocks

    abbrev pub validate_by : Option ProofOfWork → Block → Run Bool
    validate_by none block = ok true
    validate_by (some engine) block = do
      answer ← Work.validate_block sha256 crypto_verify block engine
      ok (answer.0)

    unfoldable pub validate_block : Block → Blockchain → Run Bool
    validate_block block c = verify sha256 crypto_verify block >>= λ r.
        if not r.0 then ok false else validate_by c.consensus_engine r.1

    unfoldable pub all_valid : List Block → Blockchain → Run Bool
    unfolding validate_block
    all_valid [] c = ok true
    all_valid (block ∷ blocks) c =
        let rest = all_valid blocks c in
        do valid ← validate_block block c; if not valid then ok false else rest

    -- importBlockchain, of the blocks that the file holds, if it can be read
    unfoldable pub import_blockchain : Option (List Block) → Act Bool
    unfolding all_valid index_all total_of
    import_blockchain none c = ok (false, c)
    import_blockchain (some imported_blocks) c = do
      valid ← all_valid imported_blocks c
      if not valid then ok (false, c) else ok (true, replace_blocks imported_blocks c)
