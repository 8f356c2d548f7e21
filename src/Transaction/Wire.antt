-- ===== src/Transaction/Wire.antt =====
-- serialize and deserialize of src/core/transaction.cpp, with hexToBytes and bytesToHex of
-- src/crypto/hash.cpp. The code copies the bytes of its integers in memory, lowest first on the
-- machines that it is built for.
use deo.Prelude.{
  ℕ, zero, suc, ◌+◌, ◌*◌, ◌/◌, ◌%◌, Bool, true, false, ltb, if◌then◌else◌, Option, none, some, List,
  [], ◌∷◌, ◌++◌, length, take, drop,
}
use deo.Prelude.Run.{Run, ok, throws, odd_hex, ◌>>=◌}
use deo.Prelude.Texts.{Text}
use deo.Uint256.Hex.{stoul_pair, hex_digit}
use deo.Transaction.{TransactionInput, TransactionOutput, Transaction}

-- hexToBytes, the loop over the pairs and the test of the length.
unfoldable pub hex_pairs : Text → Run (List ℕ)
hex_pairs [] = ok []
hex_pairs (a ∷ []) = throws odd_hex
hex_pairs (a ∷ b ∷ rest) = do byte ← stoul_pair a b; bytes ← hex_pairs rest; ok (byte % 256 ∷ bytes)

unfoldable pub is_odd : Text → Bool
is_odd [] = false
is_odd (a ∷ []) = true
is_odd (a ∷ b ∷ rest) = is_odd rest

unfoldable pub hex_to_bytes : Text → Run (List ℕ)
unfolding hex_pairs is_odd
hex_to_bytes hex = if is_odd hex then throws odd_hex else hex_pairs hex

unfoldable pub bytes_to_hex : List ℕ → Text
bytes_to_hex [] = []
bytes_to_hex (b ∷ bytes) = hex_digit (b / 16 % 16) ∷ hex_digit (b % 16) ∷ bytes_to_hex bytes

-- The bytes of an integer of `count` bytes.
unfoldable pub number_bytes : ℕ → ℕ → List ℕ
number_bytes zero n = []
number_bytes (suc count) n = n % 256 ∷ number_bytes count (n / 256)

unfoldable pub of_number_bytes : List ℕ → ℕ
of_number_bytes [] = 0
of_number_bytes (b ∷ bytes) = b + 256 * of_number_bytes bytes

-- A length in four bytes, and the characters.
abbrev pub text_bytes : Text → List ℕ
text_bytes t = number_bytes 4 (length t) ++ t

unfoldable pub serialize_inputs : List TransactionInput → Run (List ℕ)
serialize_inputs [] = ok []
serialize_inputs (input ∷ inputs) = do
  prev_hash ← hex_to_bytes input.previous_tx_hash
  rest ← serialize_inputs inputs
  ok (
      prev_hash
      ++ (number_bytes 4 input.output_index
          ++ (text_bytes input.signature
              ++ (text_bytes input.public_key ++ (number_bytes 8 input.sequence ++ rest)))))

unfoldable pub serialize_outputs : List TransactionOutput → List ℕ → List ℕ
serialize_outputs [] rest = rest
serialize_outputs (output ∷ outputs) rest =
    number_bytes 8 output.value
    ++ (text_bytes output.recipient_address
        ++ (text_bytes output.script_pubkey
            ++ (number_bytes 4 output.output_index ++ serialize_outputs outputs rest)))

unfoldable pub serialize : Transaction → Run (List ℕ)
unfolding serialize_inputs serialize_outputs
serialize tx = do
  inputs ← serialize_inputs tx.inputs
  ok (
      number_bytes 4 tx.version
      ++ (number_bytes 4 (length tx.inputs)
          ++ (inputs
              ++ (number_bytes 4 (length tx.outputs)
                  ++ serialize_outputs tx.outputs (number_bytes 4 tx.lock_time)))))

unfoldable pub get_size : Transaction → Run ℕ
get_size tx = do data_ ← serialize tx; ok (length data_)

-- A reader takes what it reads off the data, in place of an offset into them, and fails where the
-- code finds that the data end before.
infixl 5 ◌|>◌
abbrev pub ◌|>◌ {ℓ κ} : {A : Type ℓ} {B : Type κ} → Option A → (A → Option B) → Option B
none |> next = none
some a |> next = next a

unfoldable pub read_bytes : ℕ → List ℕ → Option (List ℕ × List ℕ)
read_bytes count data_ =
    if ltb (length data_) count then none else some (take count data_, drop count data_)

unfoldable pub read_number : ℕ → List ℕ → Option (ℕ × List ℕ)
unfolding read_bytes
read_number count data_ = read_bytes count data_ |> λ r. some (of_number_bytes r.0, r.1)

unfoldable pub read_text : List ℕ → Option (Text × List ℕ)
read_text data_ = read_number 4 data_ |> λ r. read_bytes r.0 r.1

unfoldable pub read_input : List ℕ → Option (TransactionInput × List ℕ)
read_input data_ = read_bytes 32 data_ |> λ hash. read_number 4 hash.1 |> λ index.
    read_text index.1 |> λ sig. read_text sig.1 |> λ key. read_number 8 key.1 |> λ seq. some (
      record {
        previous_tx_hash = bytes_to_hex hash.0;
        output_index = index.0;
        signature = sig.0;
        public_key = key.0;
        sequence = seq.0;
      },
      seq.1,
    )

unfoldable pub read_output : List ℕ → Option (TransactionOutput × List ℕ)
read_output data_ = read_number 8 data_ |> λ value. read_text value.1 |> λ address.
    read_text address.1 |> λ script. read_number 4 script.1 |> λ index. some (
      record {
        value = value.0;
        recipient_address = address.0;
        script_pubkey = script.0;
        output_index = index.0;
      },
      index.1,
    )

-- A loop reads `count` items, and gives those that it has read also where it fails.
module _ {A : Type 0} (read_one : List ℕ → Option (A × List ℕ)) where
  unfoldable pub read_items : ℕ → List ℕ → List A × Option (List ℕ)
  read_items zero data_ = ([], some data_)
  read_items (suc count) data_ = elim (read_one data_) [
    | none ↦ ([], none)
    | some (item, rest) ↦ let more = read_items count rest in (item ∷ more.0, more.1)
  ]

-- deserialize changes the transaction as far as it gets. The type is not part of the data.
abbrev pub finish_outputs :
    Transaction → List TransactionOutput × Option (List ℕ) → Bool × Transaction
finish_outputs tx (outputs, none) = (false, record tx { outputs = outputs })
finish_outputs tx (outputs, some rest) = elim (read_number 4 rest) [
  | none ↦ (false, record tx { outputs = outputs })
  | some (lock_time, end) ↦
      (true, record tx { outputs = outputs; lock_time = lock_time; hash_cached = false })
]

abbrev pub finish_inputs :
    Transaction → List TransactionInput × Option (List ℕ) → Bool × Transaction
finish_inputs tx (inputs, none) = (false, record tx { inputs = inputs })
finish_inputs tx (inputs, some rest) = elim (read_number 4 rest) [
  | none ↦ (false, record tx { inputs = inputs })
  | some (count, next) ↦
      finish_outputs (record tx { inputs = inputs }) (read_items read_output count next)
]

unfoldable pub deserialize : Transaction → List ℕ → Bool × Transaction
deserialize tx data_ =
    let version = of_number_bytes (take 4 data_) in
    let count = of_number_bytes (take 4 (drop 4 data_)) in
    if ltb (length data_) 16
    then (false, tx)
    else finish_inputs (record tx { version = version })
        (read_items read_input count (drop 8 data_))
