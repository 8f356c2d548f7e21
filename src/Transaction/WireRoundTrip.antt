-- ===== src/Transaction/WireRoundTrip.antt =====
-- deserialize after serialize, of src/core/transaction.cpp.
use deo.Prelude.{
  ℕ, suc, ◌^◌, ◌<◌, ◌≤◌, ◌≡◌, refl, sym, ap, ◌∙◌, true, false, le→ltb, Option, some, List, [], ◌∷◌,
  ◌++◌, length, length-append, take, drop, All, arith,
}
use mathlib.Core.List.{append_assoc, append-nil}
use deo.Prelude.Run.{ok}
use deo.Transaction.{TransactionInput, TransactionOutput, Transaction}
use deo.Transaction.Wire.{
  number_bytes, text_bytes, serialize_inputs, serialize_outputs, serialize, read_number, read_input,
  read_output, read_items, deserialize, finish_inputs, finish_outputs,
}
use deo.Transaction.WireReaders.{
  IsHash, length-number_bytes, hex_to_bytes-bytes_to_hex, read_bytes-append, read_u32, read_u64,
  read_text-text_bytes, u32_bytes,
}

-- The numbers and the lengths of an input, an output and a transaction fit the fields on the wire.
pub record IsSendableInput (input : TransactionInput) : Type 0 where
  pub hash : IsHash input.previous_tx_hash
  pub index : input.output_index < 2 ^ 32
  pub sig : length input.signature < 2 ^ 32
  pub key : length input.public_key < 2 ^ 32
  pub seq : input.sequence < 2 ^ 64

pub record IsSendableOutput (output : TransactionOutput) : Type 0 where
  pub amount : output.value < 2 ^ 64
  pub address : length output.recipient_address < 2 ^ 32
  pub script : length output.script_pubkey < 2 ^ 32
  pub index : output.output_index < 2 ^ 32

pub record IsSendable (tx : Transaction) : Type 0 where
  pub version_fits : tx.version < 2 ^ 32
  pub inputs_fit : All IsSendableInput tx.inputs
  pub input_count : length tx.inputs < 2 ^ 32
  pub outputs_fit : All IsSendableOutput tx.outputs
  pub output_count : length tx.outputs < 2 ^ 32
  pub lock_fits : tx.lock_time < 2 ^ 32

pub read_items_step :
    {A : Type 0} (read_one : List ℕ → Option (A × List ℕ)) (n : ℕ) (data_ rest : List ℕ) (a : A)
    → read_one data_ ≡ some (a, rest)
    → read_items read_one (suc n) data_
      ≡ (a ∷ (read_items read_one n rest).0, (read_items read_one n rest).1)
unfolding read_items
read_items_step read_one n data_ rest a e = rw (e, read_items) refl

-- What is written for an input of a given hash, before what follows.
abbrev input_bytes : List ℕ → TransactionInput → List ℕ → List ℕ
input_bytes hash input rest =
    hash
    ++ (number_bytes 4 input.output_index
        ++ (text_bytes input.signature
            ++ (text_bytes input.public_key ++ (number_bytes 8 input.sequence ++ rest))))

read_input_round :
    (input : TransactionInput) (h : IsSendableInput input) (rest : List ℕ)
    → read_input (input_bytes h.hash.0 input rest) ≡ some (input, rest)
unfolding read_input
read_input_round input h rest =
    let (hash, are, size, same) = h.hash in
    rw
      (
        read_bytes-append 32 hash _ size,
        read_u32 input.output_index _ h.index,
        read_text-text_bytes input.signature _ h.sig,
        read_text-text_bytes input.public_key _ h.key,
        read_u64 input.sequence _ h.seq,
        ← same,
      )
      refl

-- The bytes of the inputs, and their loop.
inputs_round :
    (inputs : List TransactionInput) (rest : List ℕ)
    → All IsSendableInput inputs
    → (bytes : List ℕ) × (serialize_inputs inputs ≡ ok bytes)
      × (read_items read_input (length inputs) (bytes ++ rest) ≡ (inputs, some rest))
unfolding serialize_inputs
inputs_round [] rest h = ([], refl, unfold read_items in refl)
inputs_round (input ∷ inputs) rest (h, hs) =
    let (bytes, written, read) = inputs_round inputs rest hs in
    let (hash, are, size, same) = h.hash in
    let regrouped : input_bytes hash input bytes ++ rest ≡ input_bytes hash input (bytes ++ rest) =
      simp append_assoc in
    (
      input_bytes hash input bytes,
      rw (same, hex_to_bytes-bytes_to_hex hash are, written) refl,
      rw
          (
            regrouped,
            read_items_step read_input (length inputs) (input_bytes hash input (bytes ++ rest))
                (bytes ++ rest) input (read_input_round input h (bytes ++ rest)),
            read,
          )
          refl,
    )

read_output_round :
    (output : TransactionOutput) (rest : List ℕ)
    → IsSendableOutput output
    → read_output (serialize_outputs (output ∷ []) rest) ≡ some (output, rest)
unfolding serialize_outputs read_output
read_output_round output rest h =
    rw
      (
        read_u64 output.value _ h.amount,
        read_text-text_bytes output.recipient_address _ h.address,
        read_text-text_bytes output.script_pubkey _ h.script,
        read_u32 output.output_index _ h.index,
      )
      refl

outputs_round :
    (outputs : List TransactionOutput) (rest : List ℕ)
    → All IsSendableOutput outputs
    → read_items read_output (length outputs) (serialize_outputs outputs rest)
      ≡ (outputs, some rest)
unfolding serialize_outputs
outputs_round [] rest h = unfold read_items in refl
outputs_round (output ∷ outputs) rest (h, hs) =
    read_items_step read_output (length outputs) (serialize_outputs (output ∷ outputs) rest)
      (serialize_outputs outputs rest) output
      (read_output_round output (serialize_outputs outputs rest) h)
    ∙ rw (outputs_round outputs rest hs) refl

-- The version and the number of inputs stand in the first eight bytes.
header :
    (v n : ℕ) (rest : List ℕ)
    → let data_ = number_bytes 4 v ++ (number_bytes 4 n ++ rest) in
      (take 4 data_ ≡ number_bytes 4 v)
      × (take 4 (drop 4 data_) ≡ number_bytes 4 n)
      × (drop 8 data_ ≡ rest)
unfolding number_bytes
header v n rest = (refl, refl, refl)

serialize_outputs_long :
    (outputs : List TransactionOutput) (rest : List ℕ)
    → length rest ≤ length (serialize_outputs outputs rest)
unfolding serialize_outputs
serialize_outputs_long [] rest = omega arith
serialize_outputs_long (output ∷ outputs) rest =
    omega (arith, length-append {A = ℕ}, serialize_outputs_long outputs rest)

long_enough :
    (v n k : ℕ) (bytes : List ℕ) (outputs : List TransactionOutput) (lock : ℕ)
    → 16
      ≤ length (
          number_bytes 4 v
          ++ (number_bytes 4 n
              ++ (bytes ++ (number_bytes 4 k ++ serialize_outputs outputs (number_bytes 4 lock)))))
long_enough v n k bytes outputs lock = omega (
  arith,
  length-append {A = ℕ},
  length-number_bytes,
  serialize_outputs_long outputs (number_bytes 4 lock),
)

read_last_u32 : (n : ℕ) → n < 2 ^ 32 → read_number 4 (number_bytes 4 n) ≡ some (n, [])
read_last_u32 n h =
    ap (λ (t : List ℕ). read_number 4 t) (sym (append-nil (number_bytes 4 n))) ∙ read_u32 n [] h

finish_inputs_lem :
    (tx : Transaction) (inputs : List TransactionInput) (rest next : List ℕ) (count : ℕ)
    → read_number 4 rest ≡ some (count, next)
    → finish_inputs tx (inputs, some rest)
      ≡ finish_outputs (record tx { inputs = inputs }) (read_items read_output count next)
finish_inputs_lem tx inputs rest next count e = rw (e, finish_inputs) refl

finish_outputs_lem :
    (tx : Transaction) (outputs : List TransactionOutput) (rest end : List ℕ) (lock : ℕ)
    → read_number 4 rest ≡ some (lock, end)
    → finish_outputs tx (outputs, some rest)
      ≡ (true, record tx { outputs = outputs; lock_time = lock; hash_cached = false })
finish_outputs_lem tx outputs rest end lock e = rw (e, finish_outputs) refl

-- Every transaction whose numbers, lengths and counts fit their fields and whose input hashes are 32
-- bytes in lower case serializes, and deserializing the bytes into any transaction gives it back, but
-- for the type and the cached hash, which the target keeps.
pub deserialize-serialize :
    (tx target : Transaction)
    → IsSendable tx
    → (bytes : List ℕ) × (serialize tx ≡ ok bytes)
      × (deserialize target bytes ≡ (
        true,
        record tx { type_ = target.type_; cached_hash = target.cached_hash; hash_cached = false },
      ))
unfolding serialize deserialize
deserialize-serialize tx target h =
    let after_outputs = number_bytes 4 tx.lock_time in
    let after_count = serialize_outputs tx.outputs after_outputs in
    let after_inputs = number_bytes 4 (length tx.outputs) ++ after_count in
    let (bytes, written, read) = inputs_round tx.inputs after_inputs h.inputs_fit in
    let body = number_bytes 4 (length tx.inputs) ++ (bytes ++ after_inputs) in
    (
      number_bytes 4 tx.version ++ body,
      rw written refl,
      rw
          (
            le→ltb (length (number_bytes 4 tx.version ++ body)) 16 (
                long_enough tx.version (length tx.inputs) (length tx.outputs) bytes tx.outputs
                  tx.lock_time),
            (header tx.version (length tx.inputs) (bytes ++ after_inputs)).0,
            (header tx.version (length tx.inputs) (bytes ++ after_inputs)).1,
            (header tx.version (length tx.inputs) (bytes ++ after_inputs)).2,
            u32_bytes tx.version h.version_fits,
            u32_bytes (length tx.inputs) h.input_count,
            read,
            finish_inputs_lem (record target { version = tx.version }) tx.inputs after_inputs
                after_count (length tx.outputs)
                (read_u32 (length tx.outputs) after_count h.output_count),
            outputs_round tx.outputs after_outputs h.outputs_fit,
          )
          (finish_outputs_lem (record target { version = tx.version; inputs = tx.inputs })
            tx.outputs after_outputs [] tx.lock_time (read_last_u32 tx.lock_time h.lock_fits)),
    )
