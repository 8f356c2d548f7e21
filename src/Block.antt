-- ===== src/Block.antt =====
-- BlockHeader and Block of include/core/block.h and src/core/block.cpp, over Transaction and Merkle. The
-- hash and the signature scheme are parameters. No pointer in the list of transactions is null: only
-- the argument of addTransaction may be. A search reads the identity of a transaction; that it fills the
-- cache of the transaction changes no later answer and is left out until the tree is built again.
pub mod Agreement
pub mod Checks
use deo.Prelude.{
  ℕ, zero, suc, ◌+◌, ◌%◌, ◌^◌, Bool, true, false, ◌==◌, ◌&&◌, not, if◌then◌else◌, Option, none,
  some, List, [], ◌∷◌, ◌++◌, length, map, replicate,
}
use deo.Prelude.Run.{Run, ok, throws, undefined, no_fuel, ◌>>=◌}
use deo.Prelude.Texts.{Text, same_text}
use deo.Transaction.{Transaction, get_id, decimal}
use deo.Transaction as Transaction
use deo.Merkle.{MerkleTree, build_tree, get_root}
use deo.Uint256.{lt}
use deo.Uint256.Hex.{of_hex}

pub record BlockHeader : Type 0 where
  pub version : ℕ
  pub previous_hash : Text
  pub merkle_root : Text
  pub timestamp : ℕ
  pub nonce : ℕ
  pub difficulty : ℕ
  pub height : ℕ
  pub transaction_count : ℕ

pub record Block : Type 0 where
  pub header : BlockHeader
  pub transactions : List Transaction
  pub merkle_tree : Option MerkleTree
  pub cached_hash : Text
  pub hash_cached : Bool

abbrev pub zeros : Text
zeros = replicate 64 b'0'

abbrev pub new_header : BlockHeader
new_header = record {
  version = 1;
  previous_hash = zeros;
  merkle_root = zeros;
  timestamp = 0;
  nonce = 0;
  difficulty = 1;
  height = 0;
  transaction_count = 0;
}

-- BlockHeader::getSerializedData
unfoldable pub header_data : BlockHeader → Text
header_data h =
    decimal h.version
    ++ (h.previous_hash
        ++ (h.merkle_root
            ++ (decimal h.timestamp
                ++ (decimal h.nonce
                    ++ (decimal h.difficulty
                        ++ (decimal h.height ++ decimal h.transaction_count))))))

-- BlockHeader::validate
unfoldable pub validate_header : BlockHeader → Bool
validate_header h =
    if h.version == 0
    then false
    else if not (length h.previous_hash == 64)
    then false
    else if not (length h.merkle_root == 64)
    then false
    else if h.difficulty == 0
    then false
    else true

-- Block()
abbrev pub new_block : Block
new_block = record {
  header = new_header;
  transactions = [];
  merkle_tree = none;
  cached_hash = [];
  hash_cached = false;
}

unfoldable pub calculate_merkle_root : Block → Text
calculate_merkle_root block = elim block.merkle_tree [ none ↦ zeros | some tree ↦ get_root tree ]

unfoldable pub update_merkle_root : Block → Block
unfolding calculate_merkle_root
update_merkle_root block = record block {
  header = record (block.header) { merkle_root = calculate_merkle_root block };
  hash_cached = false;
}

abbrev pub with_header : BlockHeader → Block → Block
with_header h block = record block { header = h }

-- These keep the cached hash.
abbrev pub set_previous_hash : Text → Block → Block
set_previous_hash hash block = with_header (record (block.header) { previous_hash = hash }) block

abbrev pub set_height : ℕ → Block → Block
set_height height block = with_header (record (block.header) { height = height }) block

abbrev pub set_difficulty : ℕ → Block → Block
set_difficulty difficulty block =
    with_header (record (block.header) { difficulty = difficulty }) block

abbrev pub set_nonce : ℕ → Block → Block
set_nonce nonce block = with_header (record (block.header) { nonce = nonce }) block

abbrev pub set_timestamp : ℕ → Block → Block
set_timestamp time block = record block {
  header = record (block.header) { timestamp = time };
  hash_cached = false;
}

abbrev pub set_header : BlockHeader → Block → Block
set_header header block = record block { header = header; hash_cached = false }

-- The comparison of meetsDifficultyTarget: texts that are no words answer false.
unfoldable pub hash_meets : Text → Text → Run Bool
hash_meets target_hash block_hash =
    let compared =
      of_hex block_hash >>= λ value. of_hex target_hash >>= λ target. ok (lt value target) in
    elim compared [
      | ok answer ↦ ok answer
      | throws e ↦ ok false
      | undefined ↦ undefined
      | no_fuel ↦ no_fuel
    ]

module _ (sha256 : Text → Text) where
  abbrev pub id_of : Transaction → Text
  id_of tx = (get_id sha256 tx).0

  abbrev pub identified : Transaction → Transaction
  identified tx = (get_id sha256 tx).1

  -- updateHash and getHash, which is also calculateHash
  unfoldable pub update_hash : Block → Block
  update_hash block = record block {
    cached_hash = sha256 (header_data block.header);
    hash_cached = true;
  }

  unfoldable pub get_hash : Block → Text × Block
  unfolding update_hash
  get_hash block =
      let updated = update_hash block in
      if block.hash_cached then (block.cached_hash, block) else (updated.cached_hash, updated)

  unfoldable pub rebuild_merkle_tree : Block → Block
  rebuild_merkle_tree block = record block {
    transactions = map identified block.transactions;
    merkle_tree = some (build_tree sha256 (map id_of block.transactions));
  }

  abbrev pub with_transactions : List Transaction → Block → Block
  with_transactions transactions block = record block {
    header = record (block.header) { transaction_count = length transactions % 2 ^ 32 };
    transactions = transactions;
  }

  -- Block(header, transactions)
  unfoldable pub block_of : BlockHeader → List Transaction → Block
  unfolding update_merkle_root rebuild_merkle_tree
  block_of header transactions =
      update_merkle_root
        (rebuild_merkle_tree (with_transactions transactions (with_header header new_block)))

  unfoldable pub has_id : Text → List Transaction → Bool
  has_id id [] = false
  has_id id (tx ∷ txs) =
      let later = has_id id txs in if same_text (id_of tx) id then true else later

  unfoldable pub find_id : Text → List Transaction → Option Transaction
  find_id id [] = none
  find_id id (tx ∷ txs) =
      let later = find_id id txs in if same_text (id_of tx) id then some tx else later

  unfoldable pub erase_id : Text → List Transaction → List Transaction
  erase_id id [] = []
  erase_id id (tx ∷ txs) =
      let later = erase_id id txs in if same_text (id_of tx) id then txs else tx ∷ later

  unfoldable pub add_transaction : Option Transaction → Block → Bool × Block
  unfolding has_id rebuild_merkle_tree update_merkle_root
  add_transaction none block = (false, block)
  add_transaction (some tx) block =
      if not (Transaction.validate tx)
      then (false, block)
      else if has_id (id_of tx) block.transactions
      then (false, block)
      else (
        true,
        update_merkle_root
            (rebuild_merkle_tree (with_transactions (block.transactions ++ tx ∷ []) block)),
      )

  unfoldable pub remove_transaction : Text → Block → Bool × Block
  unfolding has_id erase_id rebuild_merkle_tree update_merkle_root
  remove_transaction id block =
      if has_id id block.transactions
      then (
        true,
        update_merkle_root
            (rebuild_merkle_tree (with_transactions (erase_id id block.transactions) block)),
      )
      else (false, block)

  unfoldable pub get_transaction : Text → Block → Option Transaction
  unfolding find_id
  get_transaction id block = find_id id block.transactions

  unfoldable pub meets_difficulty_target : Text → Block → Run Bool
  meets_difficulty_target target_hash block = hash_meets target_hash (get_hash block).0

unfoldable pub validate_transactions : List Transaction → Bool
validate_transactions [] = true
validate_transactions (tx ∷ txs) =
    let later = validate_transactions txs in if not (Transaction.validate tx) then false else later

unfoldable pub validate : Block → Bool
unfolding validate_transactions
validate block =
    if not (validate_header block.header)
    then false
    else if not (validate_transactions block.transactions)
    then false
    else if not (block.header.transaction_count == length block.transactions)
    then false
    else true

module _ (crypto_verify : Text → Text → Text → Run Bool) where
  unfoldable pub verify_transactions : List Transaction → Run Bool
  verify_transactions [] = ok true
  verify_transactions (tx ∷ txs) =
      let later = verify_transactions txs in
      do good ← Transaction.verify crypto_verify tx; if not good then ok false else later

  unfoldable pub verify_checks : Block → Run Bool
  unfolding validate calculate_merkle_root verify_transactions
  verify_checks block =
      if not (validate block)
      then ok false
      else if not (same_text (calculate_merkle_root block) block.header.merkle_root)
      then ok false
      else verify_transactions block.transactions

-- verify: where every check passes, it reads the hash, which fills the cache.
abbrev pub hashed_if : (Text → Text) → Bool → Block → Block
hashed_if sha256 passed block = if passed then (get_hash sha256 block).1 else block

unfoldable pub verify : (Text → Text) → (Text → Text → Text → Run Bool) → Block → Run (Bool × Block)
verify sha256 crypto_verify block = do
  passed ← verify_checks crypto_verify block
  ok (passed, hashed_if sha256 passed block)

unfoldable pub is_genesis : Block → Bool
is_genesis block = block.header.height == 0 && same_text block.header.previous_hash zeros
