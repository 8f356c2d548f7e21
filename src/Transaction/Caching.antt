-- ===== src/Transaction/Caching.antt =====
-- The cached hash of a transaction in src/core/transaction.cpp.
use deo.Prelude.{arith, ◌≡◌, refl, ◌⊎◌, inl, inr, false, Bool-cases}
use deo.Prelude.Texts.{Text}
use deo.Transaction.{
  TransactionInput, TransactionOutput, Transaction, serialized_data, update_hash, get_id, add_input,
  add_output, validate_input, validate_output,
}

module _ (sha256 : Text → Text) where
  -- There is no cached hash, or it is the hash of the transaction.
  abbrev pub IsFresh : Transaction → Type 0
  IsFresh tx = (tx.hash_cached ≡ false) ⊎ (tx.cached_hash ≡ sha256 (serialized_data tx))

  get_id-IsFresh :
      (tx : Transaction)
      → IsFresh tx
      → ((get_id sha256 tx).0 ≡ sha256 (serialized_data tx)) × IsFresh (get_id sha256 tx).1
  unfolding get_id update_hash serialized_data
  get_id-IsFresh tx (inl none) = rw none (refl, inr refl)
  get_id-IsFresh tx (inr same) = elim (Bool-cases tx.hash_cached) [
    | inl cached ↦ rw cached (same, inr same)
    | inr none ↦ rw none (refl, inr refl)
  ]

  add_input-IsFresh :
      (tx : Transaction) (input : TransactionInput) → IsFresh tx → IsFresh (add_input tx input).1
  unfolding add_input
  add_input-IsFresh tx input fresh = elim (Bool-cases (validate_input tx input)) [
    | inl good ↦ rw good (inl refl)
    | inr bad ↦ rw bad fresh
  ]

  add_output-IsFresh :
      (tx : Transaction) (output : TransactionOutput)
      → IsFresh tx
      → IsFresh (add_output tx output).1
  unfolding add_output
  add_output-IsFresh tx output fresh = elim (Bool-cases (validate_output output)) [
    | inl good ↦ rw good (inl refl)
    | inr bad ↦ rw bad fresh
  ]

  -- From a transaction whose cached hash is fresh: getId returns the hash of the transaction, and getId,
  -- addInput and addOutput leave a fresh cache.
  pub changes-IsFresh :
      (tx : Transaction) (input : TransactionInput) (output : TransactionOutput)
      → IsFresh tx
      → ((get_id sha256 tx).0 ≡ sha256 (serialized_data tx))
        × IsFresh (get_id sha256 tx).1
        × IsFresh (add_input tx input).1
        × IsFresh (add_output tx output).1
  changes-IsFresh tx input output fresh =
      let found = get_id-IsFresh tx fresh in
      (found.0, found.1, add_input-IsFresh tx input fresh, add_output-IsFresh tx output fresh)

  pub get_id_again :
      (tx : Transaction) → (get_id sha256 (get_id sha256 tx).1).0 ≡ (get_id sha256 tx).0
  unfolding get_id update_hash
  get_id_again tx = ground arith

  pub get_id_settled :
      (tx : Transaction) → (get_id sha256 (get_id sha256 tx).1).1 ≡ (get_id sha256 tx).1
  unfolding get_id update_hash
  get_id_settled tx = ground arith
