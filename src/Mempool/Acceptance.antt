-- ===== src/Mempool/Acceptance.antt =====
-- What validateTransaction of src/network/transaction_mempool.cpp accepts.
use deo.Prelude.{
  ℕ, ◌≤◌, ◌≡◌, ◌≢◌, ◌↔◌, refl, Bool, true, false, Bool-cases, inl, inr, not, ltb, le→ltb, ltb→le,
  if◌then◌else◌, List, [], ◌∷◌, map, All, All-mono, arith,
}
use deo.Prelude.Run.{Run, ok, throws, undefined, no_fuel, ◌>>=◌}
use deo.Prelude.Texts.{Text, same_text_iff}
use deo.Transaction.{TransactionInput, Transaction, verify, is_empty_list}
use deo.Transaction.Wire.{get_size}
use deo.Fees.{calculate_fee}
use deo.Fees.Limits.{calculate_fee_limits}
use deo.Mempool.{
  input_key, has_key, has_duplicate, validate_transaction, max_transaction_size, pool_parameters,
}

abbrev pub Distinct : List Text → Type 0
Distinct [] = Unit
Distinct (k ∷ ks) = All (λ j. j ≢ k) ks × Distinct ks

abbrev keys_of : List TransactionInput → List Text
keys_of inputs = map input_key inputs

-- None of the keys was met before.
abbrev Fresh : List Text → List Text → Type 0
Fresh seen ks = All (λ k. has_key k seen ≡ false) ks

has_key-cons :
    (k key : Text) (seen : List Text)
    → (has_key k (key ∷ seen) ≡ false) ↔ ((k ≢ key) × (has_key k seen ≡ false))
unfolding has_key
has_key-cons k key seen = ground (arith, same_text_iff key k)

has_duplicate_sound :
    (inputs : List TransactionInput) (seen : List Text)
    → has_duplicate inputs seen ≡ false
    → Fresh seen (keys_of inputs) × Distinct (keys_of inputs)
unfolding has_duplicate
has_duplicate_sound [] seen h = (tt, tt)
has_duplicate_sound (input ∷ inputs) seen h = elim (Bool-cases (has_key (input_key input) seen)) [
  | inl met ↦ absurd (ground (arith, h, met))
  | inr new ↦
      let later : has_duplicate inputs (input_key input ∷ seen) ≡ false = ground (arith, h, new) in
      let (fresh, distinct) = has_duplicate_sound inputs (input_key input ∷ seen) later in
      (
        (
          new,
          All-mono _ _ (keys_of inputs) (λ k f. ((has_key-cons k (input_key input) seen).0 f).1)
              fresh,
        ),
        (
          All-mono _ _ (keys_of inputs) (λ k f. ((has_key-cons k (input_key input) seen).0 f).0)
              fresh,
          distinct,
        ),
      )
]

Fresh-cons :
    (key : Text) (seen ks : List Text)
    → Fresh seen ks
    → All (λ j. j ≢ key) ks
    → Fresh (key ∷ seen) ks
Fresh-cons key seen [] f d = tt
Fresh-cons key seen (k ∷ ks) (f, fs) (d, ds) =
    ((has_key-cons k key seen).1 (d, f), Fresh-cons key seen ks fs ds)

has_duplicate_complete :
    (inputs : List TransactionInput) (seen : List Text)
    → Fresh seen (keys_of inputs)
    → Distinct (keys_of inputs)
    → has_duplicate inputs seen ≡ false
unfolding has_duplicate
has_duplicate_complete [] seen f d = refl
has_duplicate_complete (input ∷ inputs) seen (f, fs) (d, ds) = rw f (
    has_duplicate_complete inputs (input_key input ∷ seen)
      (Fresh-cons (input_key input) seen (keys_of inputs) fs d) ds)

Fresh-start : (ks : List Text) → Fresh [] ks
unfolding has_key
Fresh-start [] = tt
Fresh-start (k ∷ ks) = (refl, Fresh-start ks)

-- What the chain of tests says where it comes out true.
all_passed :
    (v : Run Bool) (s i o d f : Bool)
    → (v >>= λ good.
        if not good
        then ok false
        else ok (
            if s
            then false
            else if i
            then false
            else if o
            then false
            else if d
            then false
            else if f
            then false
            else true))
      ≡ ok true
    → (v ≡ ok true) × (s ≡ false) × (i ≡ false) × (o ≡ false) × (d ≡ false)
all_passed (ok true) false false false false false h = (refl, refl, refl, refl, refl)
all_passed (ok true) false false false false true h = absurd (cc)
all_passed (ok true) false false false true f h = absurd (cc)
all_passed (ok true) false false true d f h = absurd (cc)
all_passed (ok true) false true o d f h = absurd (cc)
all_passed (ok true) true i o d f h = absurd (cc)
all_passed (ok false) s i o d f h = absurd (cc)
all_passed (throws x) s i o d f h = absurd (cc)
all_passed undefined s i o d f h = absurd (cc)
all_passed no_fuel s i o d f h = absurd (cc)

module _ (crypto_verify : Text → Text → Text → Run Bool) (tx : Transaction) (size : ℕ) where
  pub record IsAcceptable : Type 0 where
    pub verified : verify crypto_verify tx ≡ ok true
    pub small : size ≤ max_transaction_size
    pub some_inputs : is_empty_list tx.inputs ≡ false
    pub some_outputs : is_empty_list tx.outputs ≡ false
    pub distinct : Distinct (map input_key tx.inputs)

  -- The test of the fee never fails: the fee is calculated, and at least the smallest.
  fee_enough : ltb (calculate_fee tx pool_parameters).total_fee pool_parameters.min_fee ≡ false
  fee_enough =
      le→ltb (calculate_fee tx pool_parameters).total_fee pool_parameters.min_fee
        (calculate_fee_limits tx pool_parameters (omega arith)).0

  -- The validation of a transaction that serializes to a given number of bytes accepts it just where its
  -- signatures verify, it has at most 1048576 bytes, an input and an output, and no two inputs spend the
  -- same output.
  pub validate_transaction-IsAcceptable :
      get_size tx ≡ ok size → (validate_transaction crypto_verify tx ≡ ok true) ↔ IsAcceptable
  unfolding validate_transaction
  validate_transaction-IsAcceptable measured = (
    λ h.
        let (v, s, i, o, d) = all_passed _ _ _ _ _ _ (rw measured at h) in
        record {
          verified = v;
          small = ltb→le max_transaction_size size s;
          some_inputs = i;
          some_outputs = o;
          distinct = (has_duplicate_sound tx.inputs [] d).1;
        },
    λ a.
        rw
          (
            a.verified,
            measured,
            le→ltb max_transaction_size size a.small,
            a.some_inputs,
            a.some_outputs,
            has_duplicate_complete tx.inputs [] (Fresh-start (keys_of tx.inputs)) a.distinct,
            fee_enough,
          )
          refl,
  )
