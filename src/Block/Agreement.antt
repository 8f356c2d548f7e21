-- ===== src/Block/Agreement.antt =====
-- The header of a Block against its transactions, after calls that keep them together.
use deo.Prelude.{
  ℕ, suc, ◌%◌, ◌^◌, ◌≡◌, refl, sym, ap, ◌∙◌, Bool-cases, inl, inr, Option, none, some, List, [],
  ◌∷◌, ◌++◌, length, map,
}
use deo.Prelude.Texts.{Text}
use deo.Transaction.{Transaction, get_id}
use deo.Transaction as Transaction
use deo.Transaction.Caching.{get_id_again}
use deo.Merkle.{build_tree, build_tree_recursive, build_levels, get_root}
use deo.Block.{
  BlockHeader, Block, new_block, calculate_merkle_root, update_merkle_root, set_previous_hash,
  set_height, set_difficulty, set_nonce, set_timestamp, id_of, identified, get_hash, update_hash,
  rebuild_merkle_tree, with_transactions, with_header, block_of, has_id, erase_id, add_transaction,
  remove_transaction,
}

module _ (sha256 : Text → Text) where
  -- The root that the transactions of a block have, and the count and the root of its header.
  abbrev pub root_of : List Transaction → Text
  root_of txs = get_root (build_tree sha256 (map (id_of sha256) txs))

  pub record Agrees (block : Block) : Type 0 where
    pub counted : block.header.transaction_count ≡ length block.transactions % 2 ^ 32
    pub stored : block.header.merkle_root ≡ root_of block.transactions
    pub calculated : calculate_merkle_root block ≡ block.header.merkle_root

  pub ids-identified :
      (txs : List Transaction)
      → map (id_of sha256) (map (identified sha256) txs) ≡ map (id_of sha256) txs
  ids-identified [] = refl
  ids-identified (tx ∷ txs) = rw (get_id_again sha256 tx, ids-identified txs) refl

  pub length-identified :
      (txs : List Transaction) → length (map (identified sha256) txs) ≡ length txs
  length-identified [] = refl
  length-identified (tx ∷ txs) = ap suc (length-identified txs)

  abbrev rebuilt : List Transaction → Block → Block
  rebuilt txs block =
      update_merkle_root (rebuild_merkle_tree sha256 (with_transactions sha256 txs block))

  rebuilt-Agrees : (txs : List Transaction) (block : Block) → Agrees (rebuilt txs block)
  unfolding update_merkle_root rebuild_merkle_tree calculate_merkle_root
  rebuilt-Agrees txs block = record {
    counted = rw (length-identified txs) refl;
    stored = rw (ids-identified txs) refl;
    calculated = refl;
  }

  -- The calls that change a block, but for setHeader, fromJson and deserialize, which set the header to
  -- whatever they are given.
  pub data Step : Block → Block → Type 0 where
    adds : {b : Block} (tx : Option Transaction) → Step b (add_transaction sha256 tx b).1
    removes : {b : Block} (id : Text) → Step b (remove_transaction sha256 id b).1
    hashes : {b : Block} → Step b (get_hash sha256 b).1
    sets_previous_hash : {b : Block} (hash : Text) → Step b (set_previous_hash hash b)
    sets_height : {b : Block} (n : ℕ) → Step b (set_height n b)
    sets_difficulty : {b : Block} (n : ℕ) → Step b (set_difficulty n b)
    sets_nonce : {b : Block} (n : ℕ) → Step b (set_nonce n b)
    sets_timestamp : {b : Block} (n : ℕ) → Step b (set_timestamp n b)

  pub data Reach : Block → Type 0 where
    starts : Reach new_block
    starts_with :
        (header : BlockHeader) (txs : List Transaction) → Reach (block_of sha256 header txs)
    steps : {b c : Block} → Reach b → Step b c → Reach c

  same-Agrees :
      (b c : Block)
      → b.transactions ≡ c.transactions
      → b.header.transaction_count ≡ c.header.transaction_count
      → b.header.merkle_root ≡ c.header.merkle_root
      → calculate_merkle_root b ≡ calculate_merkle_root c
      → Agrees b
      → Agrees c
  same-Agrees b c txs count root tree a = record {
    counted = sym count ∙ a.counted ∙ ap (λ (l : List Transaction). length l % 2 ^ 32) txs;
    stored = sym root ∙ a.stored ∙ ap root_of txs;
    calculated = sym tree ∙ a.calculated ∙ root;
  }

  Step-Agrees : {b c : Block} → Step b c → Agrees b → Agrees c
  unfolding add_transaction remove_transaction get_hash update_hash calculate_merkle_root
  Step-Agrees (adds {b} none) a = a
  Step-Agrees (adds {b} (some tx)) a = elim (Bool-cases (Transaction.validate tx)) [
    | inr bad ↦ rw bad a
    | inl good ↦ elim (Bool-cases (has_id sha256 (id_of sha256 tx) b.transactions)) [
      | inl known ↦ rw (good, known) a
      | inr new ↦ rw (good, new) (rebuilt-Agrees (b.transactions ++ tx ∷ []) b)
    ]
  ]
  Step-Agrees (removes {b} id) a = elim (Bool-cases (has_id sha256 id b.transactions)) [
    | inl known ↦ rw known (rebuilt-Agrees (erase_id sha256 id b.transactions) b)
    | inr unknown ↦ rw unknown a
  ]
  Step-Agrees (hashes {b}) a = elim (Bool-cases b.hash_cached) [
    | inl cached ↦ simp cached a
    | inr stale ↦ rw stale (same-Agrees b (update_hash sha256 b) refl refl refl refl a)
  ]
  Step-Agrees (sets_previous_hash {b} hash) a =
      same-Agrees b (set_previous_hash hash b) refl refl refl refl a
  Step-Agrees (sets_height {b} n) a = same-Agrees b (set_height n b) refl refl refl refl a
  Step-Agrees (sets_difficulty {b} n) a = same-Agrees b (set_difficulty n b) refl refl refl refl a
  Step-Agrees (sets_nonce {b} n) a = same-Agrees b (set_nonce n b) refl refl refl refl a
  Step-Agrees (sets_timestamp {b} n) a = same-Agrees b (set_timestamp n b) refl refl refl refl a

  pub Reach-Agrees : {b : Block} → Reach b → Agrees b
  unfolding calculate_merkle_root build_tree build_tree_recursive build_levels get_root block_of
  Reach-Agrees starts = record { counted = refl; stored = refl; calculated = refl }
  Reach-Agrees (starts_with header txs) = rebuilt-Agrees txs (with_header header new_block)
  Reach-Agrees (steps r s) = Step-Agrees s (Reach-Agrees r)
