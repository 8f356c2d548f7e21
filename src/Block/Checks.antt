-- ===== src/Block/Checks.antt =====
-- What verify accepts, what a removal undoes, and what the cached hash hides, in src/core/block.cpp.
use deo.Prelude.{
  ℕ, ◌%◌, ◌^◌, ◌≡◌, refl, sym, ap, ◌∙◌, Bool, true, false, some, List, [], ◌∷◌, ◌++◌, length, map,
  All, arith,
}
use deo.Prelude.Run.{Run, ok}
use deo.Prelude.Texts.{Text, same_text_iff}
use deo.Transaction.{Transaction, get_id}
use deo.Transaction as Transaction
use deo.Transaction.Caching.{get_id_again, get_id_settled}
use deo.Block.{
  BlockHeader, Block, validate_header, calculate_merkle_root, update_merkle_root, set_nonce, id_of,
  identified, get_hash, update_hash, rebuild_merkle_tree, has_id, erase_id, add_transaction,
  remove_transaction, hash_meets, meets_difficulty_target, validate, verify,
}
use deo.Merkle.{build_tree, get_root}
use deo.Block.Agreement.{root_of, Reach, Reach-Agrees, ids-identified, length-identified}

module _ (crypto_verify : Text → Text → Text → Run Bool) where
  abbrev pub IsAccepted : Transaction → Type 0
  IsAccepted tx = (Transaction.validate tx ≡ true) × (Transaction.verify crypto_verify tx ≡ ok true)

  -- What a block needs to verify.
  pub record IsSound (b : Block) : Type 0 where
    pub header : validate_header b.header ≡ true
    pub counted : b.header.transaction_count ≡ length b.transactions
    pub rooted : calculate_merkle_root b ≡ b.header.merkle_root
    pub accepted : All IsAccepted b.transactions

module _ (sha256 : Text → Text) where
  get_hash-set_nonce :
      (b : Block) (nonce : ℕ)
      → (get_hash sha256 (set_nonce nonce (get_hash sha256 b).1)).0 ≡ (get_hash sha256 b).0
  unfolding get_hash update_hash
  get_hash-set_nonce b nonce = ground arith

  -- Once the hash of a block is read, no nonce that is set changes the hash, nor what the block answers
  -- to a target.
  pub nonce_unseen :
      (b : Block) (nonce : ℕ) (target : Text)
      → ((get_hash sha256 (set_nonce nonce (get_hash sha256 b).1)).0 ≡ (get_hash sha256 b).0)
        × (meets_difficulty_target sha256 target (set_nonce nonce (get_hash sha256 b).1)
            ≡ meets_difficulty_target sha256 target b)
  unfolding meets_difficulty_target
  nonce_unseen b nonce target =
      (get_hash-set_nonce b nonce, ap (hash_meets target) (get_hash-set_nonce b nonce))

  ids : List Transaction → List Text
  ids txs = map (id_of sha256) txs

  unlisted :
      (id : Text) (txs : List Transaction) (tx : Transaction)
      → id_of sha256 tx ≡ id
      → has_id sha256 id txs ≡ false
      → (has_id sha256 id (map (identified sha256) (txs ++ tx ∷ [])) ≡ true)
        × (erase_id sha256 id (map (identified sha256) (txs ++ tx ∷ []))
            ≡ map (identified sha256) txs)
  unfolding has_id erase_id
  unlisted id [] tx same new =
      rw (get_id_again sha256 tx) (ground (arith, same, same_text_iff (id_of sha256 tx) id))
  unlisted id (t ∷ txs) tx same new =
      let rest = unlisted id txs tx same (ground (arith, new)) in
      rw (get_id_again sha256 t) (ground (arith, new, rest))

  identified_settled :
      (txs : List Transaction)
      → map (identified sha256) (map (identified sha256) txs) ≡ map (identified sha256) txs
  identified_settled [] = refl
  identified_settled (tx ∷ txs) = rw (get_id_settled sha256 tx, identified_settled txs) refl

  header_back :
      (h : BlockHeader) (count : ℕ) (root : Text)
      → count ≡ h.transaction_count
      → root ≡ h.merkle_root
      → ◌≡◌ {A = BlockHeader} (record h { transaction_count = count; merkle_root = root }) h
  header_back h count root c r =
      ap (λ (n : ℕ). record h { transaction_count = n; merkle_root = root }) c
      ∙ ap (λ (t : Text). record h { merkle_root = t }) r

  -- Added to a block that any calls but setHeader, fromJson and deserialize have led to, which has no transaction of its identity, a
  -- transaction that validates can be removed by its identity, and then the block has its header and its
  -- transactions back, with their hashes cached.
  pub remove_transaction-add_transaction :
      {b : Block} (tx : Transaction)
      → Reach sha256 b
      → Transaction.validate tx ≡ true
      → has_id sha256 (id_of sha256 tx) b.transactions ≡ false
      → let removed =
          remove_transaction sha256 (id_of sha256 tx) (add_transaction sha256 (some tx) b).1 in
        (removed.0 ≡ true)
        × (removed.1.header ≡ b.header)
        × (removed.1.transactions ≡ map (identified sha256) b.transactions)
  unfolding add_transaction remove_transaction rebuild_merkle_tree update_merkle_root
      calculate_merkle_root
  remove_transaction-add_transaction {b} tx r good new =
      let agrees = Reach-Agrees sha256 r in
      let (there, gone) = unlisted (id_of sha256 tx) b.transactions tx refl new in
      let header =
        header_back b.header (length (map (identified sha256) b.transactions) % 2 ^ 32)
          (root_of sha256 (map (identified sha256) b.transactions))
          (ap (λ (n : ℕ). n % 2 ^ 32) (length-identified sha256 b.transactions)
            ∙ sym agrees.counted)
          (ap (λ (l : List Text). get_root (build_tree sha256 l))
              (ids-identified sha256 b.transactions)
            ∙ sym agrees.stored) in
      rw (good, new, there, gone) (refl, header, identified_settled b.transactions)
