-- ===== src/Transaction/Collision.antt =====
-- Different transactions with one hash and one text to sign, in src/core/transaction.cpp.
use deo.Prelude.{ℕ, suc, ◌≡◌, refl, sym, ap, ◌∙◌, List, [], ◌∷◌, ◌++◌, length}
use mathlib.Core.List.{append_assoc}
use deo.Prelude.Texts.{Text}
use deo.Transaction.{
  TransactionOutput, Transaction, decimal, decimal_digits, output_data, outputs_data,
  serialized_data, signing_data, type_number,
}

-- A last output of the given index, and the lock time.
abbrev pub ending : Transaction → List TransactionOutput → TransactionOutput → ℕ → ℕ → Transaction
ending tx before output index lock_time = record tx {
  outputs = before ++ (record output { output_index = index }) ∷ [];
  lock_time = lock_time;
}

outputs_data-append :
    (before : List TransactionOutput) (output : TransactionOutput) (t : Text)
    → outputs_data (before ++ output ∷ []) ++ t ≡ outputs_data before ++ (output_data output ++ t)
unfolding outputs_data
outputs_data-append [] output t = append_assoc (output_data output) [] t
outputs_data-append (o ∷ before) output t =
    append_assoc (output_data o) (outputs_data (before ++ output ∷ [])) t
    ∙ ap (λ (u : Text). output_data o ++ u) (outputs_data-append before output t)
    ∙ sym (append_assoc (output_data o) (outputs_data before) (output_data output ++ t))

-- The texts of the two numbers run together.
run_together : (t : Text) → decimal 1 ++ (decimal 11 ++ t) ≡ decimal 11 ++ (decimal 1 ++ t)
unfolding decimal decimal_digits
run_together t = refl

-- An output's end and what follows it.
output_end :
    (output : TransactionOutput) (index : ℕ) (t : Text)
    → output_data (record output { output_index = index }) ++ t
      ≡ decimal output.value
        ++ (output.recipient_address ++ (output.script_pubkey ++ (decimal index ++ t)))
output_end output index t = simp append_assoc

outputs_end :
    (before : List TransactionOutput) (output : TransactionOutput) (t : Text)
    → outputs_data (before ++ (record output { output_index = 1 }) ∷ []) ++ (decimal 11 ++ t)
      ≡ outputs_data (before ++ (record output { output_index = 11 }) ∷ []) ++ (decimal 1 ++ t)
outputs_end before output t =
    outputs_data-append before (record output { output_index = 1 }) (decimal 11 ++ t)
    ∙ ap (λ (u : Text). outputs_data before ++ u)
        (output_end output 1 (decimal 11 ++ t)
          ∙ ap
              (λ (u : Text).
                decimal output.value ++ (output.recipient_address ++ (output.script_pubkey ++ u)))
              (run_together t)
          ∙ sym (output_end output 11 (decimal 1 ++ t)))
    ∙ sym (outputs_data-append before (record output { output_index = 11 }) (decimal 1 ++ t))

same_length :
    (before : List TransactionOutput) (o p : TransactionOutput)
    → length (before ++ o ∷ []) ≡ length (before ++ p ∷ [])
same_length [] o p = refl
same_length (b ∷ before) o p = ap suc (same_length before o p)

-- A transaction whose last output has the index 1 and whose lock time is 11, and the one with 11 and 1
-- in their place, have the same data to hash and the same data to sign: a signature of the one is a
-- signature of the other.
pub ending_collides :
    (tx : Transaction) (before : List TransactionOutput) (output : TransactionOutput)
    → (serialized_data (ending tx before output 1 11)
        ≡ serialized_data (ending tx before output 11 1))
      × (signing_data (ending tx before output 1 11) ≡ signing_data (ending tx before output 11 1))
unfolding serialized_data signing_data
ending_collides tx before output =
    let count =
      same_length before (record output { output_index = 1 })
        (record output { output_index = 11 }) in
    let tail = outputs_end before output (decimal (type_number tx.type_)) in
    (rw (count, tail) refl, rw (count, tail) refl)
