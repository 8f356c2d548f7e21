-- ===== src/Transaction/Signing.antt =====
-- sign and verify of src/core/transaction.cpp together, over a signature scheme that verifies what it
-- signs.
use deo.Prelude.{
  ◌≡◌, refl, ap, suc, Bool, Bool-cases, inl, inr, true, false, List, [], ◌∷◌, ◌++◌, length, map,
  All,
}
use deo.Prelude.Run.{Run, ok}
use deo.Prelude.Texts.{Text}
use deo.Transaction.{
  TransactionInput, Transaction, is_coinbase, is_empty_text, is_empty_list, input_data, unsigned,
  unsigned_inputs_data, signing_data, sign_inputs, sign, verify_inputs, verify,
}

-- An input that waits for the signature of the owner of a public key.
pub record IsUnsigned (public_key : Text) (input : TransactionInput) : Type 0 where
  pub blank : is_empty_text input.signature ≡ true
  pub owned : input.public_key ≡ public_key

module _ (crypto_sign : Text → Text → Text) (crypto_verify : Text → Text → Text → Run Bool)
    (private_key public_key : Text)
    (signs : (d : Text) → is_empty_text (crypto_sign d private_key) ≡ false)
    (verifies : (d : Text) → crypto_verify d (crypto_sign d private_key) public_key ≡ ok true) where
  abbrev signed_with : Text → TransactionInput → TransactionInput
  signed_with d input = record input { signature = crypto_sign d private_key }

  sign_inputs_lem :
      (d : Text) (inputs : List TransactionInput)
      → All (IsUnsigned public_key) inputs
      → sign_inputs crypto_sign d private_key inputs ≡ (true, map (signed_with d) inputs)
  unfolding sign_inputs
  sign_inputs_lem d [] h = refl
  sign_inputs_lem d (input ∷ rest) (h, hs) = rw (sign_inputs_lem d rest hs, h.blank, signs d) refl

  unsigned_inputs_data-map :
      (d : Text) (inputs : List TransactionInput)
      → unsigned_inputs_data (map (signed_with d) inputs) ≡ unsigned_inputs_data inputs
  unfolding unsigned_inputs_data
  unsigned_inputs_data-map d [] = refl
  unsigned_inputs_data-map d (input ∷ rest) =
      ap (λ (t : Text). input_data (unsigned input) ++ t) (unsigned_inputs_data-map d rest)

  length-map_signed :
      (d : Text) (inputs : List TransactionInput)
      → length (map (signed_with d) inputs) ≡ length inputs
  length-map_signed d [] = refl
  length-map_signed d (input ∷ rest) = ap suc (length-map_signed d rest)

  verify_inputs_lem :
      (d e : Text) (inputs : List TransactionInput)
      → is_empty_text public_key ≡ false
      → e ≡ d
      → All (IsUnsigned public_key) inputs
      → verify_inputs crypto_verify e (map (signed_with d) inputs) ≡ ok true
  unfolding verify_inputs
  verify_inputs_lem d e [] some same h = refl
  verify_inputs_lem d e (input ∷ rest) some same (h, hs) =
      let others = verify_inputs_lem d e rest some same hs in
      rw (others, same, signs d, h.owned, some, verifies d) refl

  signed_tx : Text → Transaction → Transaction
  signed_tx d tx = record tx { inputs = map (signed_with d) tx.inputs; hash_cached = false }

  -- The data to sign do not depend on the signatures.
  signing_data-signed_tx :
      (d : Text) (tx : Transaction) → signing_data (signed_tx d tx) ≡ signing_data tx
  unfolding signing_data signed_tx
  signing_data-signed_tx d tx =
      rw (unsigned_inputs_data-map d tx.inputs, length-map_signed d tx.inputs) refl

  some_signed :
      (d : Text) (inputs : List TransactionInput)
      → is_empty_list (map (signed_with d) inputs) ≡ is_empty_list inputs
  some_signed d [] = refl
  some_signed d (input ∷ rest) = refl

  -- A signature scheme that verifies what it signs with the two keys, and a transaction with inputs
  -- that all wait for the signature of these keys: signing succeeds, and the signed transaction verifies.
  pub verify-sign :
      (tx : Transaction)
      → is_empty_text private_key ≡ false
      → is_empty_text public_key ≡ false
      → is_empty_list tx.inputs ≡ false
      → All (IsUnsigned public_key) tx.inputs
      → (signed : Transaction) × (sign crypto_sign tx private_key ≡ (true, signed))
        × (verify crypto_verify signed ≡ ok true)
  unfolding sign verify signed_tx
  verify-sign tx some_private some_public some_inputs h =
      let d = signing_data tx in
      let checked =
        verify_inputs_lem d (signing_data (signed_tx d tx)) tx.inputs some_public
          (signing_data-signed_tx d tx) h in
      (
        signed_tx d tx,
        rw (some_private, some_inputs, sign_inputs_lem d tx.inputs h) refl,
        elim (Bool-cases (is_coinbase tx)) [
          | inl coin ↦ rw coin refl
          | inr plain ↦ rw (plain, some_signed d tx.inputs, some_inputs, checked) refl
        ],
      )
