-- ===== src/Transaction.antt =====
-- TransactionInput, TransactionOutput and Transaction of include/core/transaction.h and
-- src/core/transaction.cpp. The hash and the signature scheme are parameters. The timestamp, which
-- only JSON carries, is left out.
pub mod Wire
pub mod WireReaders
pub mod WireRoundTrip
pub mod Signing
pub mod Caching
pub mod Collision
use deo.Prelude.{
  ℕ, zero, suc, ◌+◌, ◌-◌, ◌*◌, ◌/◌, ◌%◌, ◌^◌, Bool, true, false, ◌==◌, ◌&&◌, ◌||◌, not, ltb,
  if◌then◌else◌, List, [], ◌∷◌, ◌++◌, length, replicate,
}
use deo.Prelude.Run.{Run, ok, throws, undefined, no_fuel, ◌>>=◌}
use deo.Prelude.Texts.{Text, same_text}

pub record TransactionInput : Type 0 where
  pub previous_tx_hash : Text
  pub output_index : ℕ
  pub signature : Text
  pub public_key : Text
  pub sequence : ℕ

pub record TransactionOutput : Type 0 where
  pub value : ℕ
  pub recipient_address : Text
  pub script_pubkey : Text
  pub output_index : ℕ

-- Transaction::Type
pub data TransactionType : Type 0 where
  regular coinbase contract : TransactionType

pub record Transaction : Type 0 where
  pub version : ℕ
  pub inputs : List TransactionInput
  pub outputs : List TransactionOutput
  pub lock_time : ℕ
  pub type_ : TransactionType
  pub cached_hash : Text
  pub hash_cached : Bool

-- Transaction(inputs, outputs, type), and Transaction() for empty lists and `regular`.
abbrev pub new_transaction :
    List TransactionInput → List TransactionOutput → TransactionType → Transaction
new_transaction inputs outputs type_ = record {
  version = 1;
  inputs = inputs;
  outputs = outputs;
  lock_time = 0;
  type_ = type_;
  cached_hash = [];
  hash_cached = false;
}

abbrev pub is_coinbase : Transaction → Bool
is_coinbase tx = elim tx.type_ [ coinbase ↦ true | _ ↦ false ]

abbrev pub is_empty_text : Text → Bool
is_empty_text [] = true
is_empty_text (c ∷ t) = false

-- validateInput and validateOutput
unfoldable pub validate_input : Transaction → TransactionInput → Bool
validate_input tx input =
    if not (is_coinbase tx) && not (length input.previous_tx_hash == 64)
    then false
    else not (is_empty_text input.public_key && not (is_coinbase tx))

unfoldable pub validate_output : TransactionOutput → Bool
validate_output output = not (is_empty_text output.recipient_address)

unfoldable pub add_input : Transaction → TransactionInput → Bool × Transaction
unfolding validate_input
add_input tx input =
    if validate_input tx input
    then (true, record tx { inputs = tx.inputs ++ input ∷ []; hash_cached = false })
    else (false, tx)

unfoldable pub add_output : Transaction → TransactionOutput → Bool × Transaction
unfolding validate_output
add_output tx output =
    if validate_output output
    then (true, record tx { outputs = tx.outputs ++ output ∷ []; hash_cached = false })
    else (false, tx)

abbrev pub set_version : Transaction → ℕ → Transaction
set_version tx version = record tx { version = version }

abbrev pub set_lock_time : Transaction → ℕ → Transaction
set_lock_time tx lock_time = record tx { lock_time = lock_time }

unfoldable pub all_inputs_valid : Transaction → List TransactionInput → Bool
all_inputs_valid tx [] = true
all_inputs_valid tx (input ∷ rest) =
    let others = all_inputs_valid tx rest in if validate_input tx input then others else false

unfoldable pub all_outputs_valid : List TransactionOutput → Bool
all_outputs_valid [] = true
all_outputs_valid (output ∷ rest) =
    let others = all_outputs_valid rest in if validate_output output then others else false

-- The hash of a coinbase input: std::string(64, '0').
abbrev pub null_hash : Text
null_hash = replicate 64 b'0'

-- inputs_.size() != 1 || inputs_[0].previous_tx_hash != "00...00"
abbrev pub is_coinbase_shaped : List TransactionInput → Bool
is_coinbase_shaped [] = false
is_coinbase_shaped (input ∷ []) = same_text input.previous_tx_hash null_hash
is_coinbase_shaped (input ∷ next ∷ rest) = false

abbrev pub is_empty_list {ℓ} : {A : Type ℓ} → List A → Bool
is_empty_list [] = true
is_empty_list (x ∷ xs) = false

unfoldable pub validate : Transaction → Bool
unfolding all_inputs_valid all_outputs_valid
validate tx =
    if tx.version == 0
    then false
    else if is_empty_list tx.inputs && not (is_coinbase tx)
    then false
    else if not (all_inputs_valid tx tx.inputs)
    then false
    else if is_empty_list tx.outputs
    then false
    else if not (all_outputs_valid tx.outputs)
    then false
    else if is_coinbase tx && not (is_coinbase_shaped tx.inputs)
    then false
    else true

-- `ss << n` for an unsigned number of at most 64 bits: at most 20 decimal digits.
unfoldable pub decimal_digits : ℕ → ℕ → Text → Text
decimal_digits zero n acc = acc
decimal_digits (suc places) n acc =
    let more = decimal_digits places (n / 10) ((b'0' + n % 10) ∷ acc) in
    if ltb n 10 then (b'0' + n) ∷ acc else more

unfoldable pub decimal : ℕ → Text
unfolding decimal_digits
decimal n = decimal_digits 20 n []

abbrev pub type_number : TransactionType → ℕ
type_number regular = 0
type_number coinbase = 1
type_number contract = 2

-- getSerializedData of an input and of an output
abbrev pub input_data : TransactionInput → Text
input_data input =
    input.previous_tx_hash
    ++ (decimal input.output_index
        ++ (input.signature ++ (input.public_key ++ decimal input.sequence)))

abbrev pub output_data : TransactionOutput → Text
output_data output =
    decimal output.value
    ++ (output.recipient_address ++ (output.script_pubkey ++ decimal output.output_index))

unfoldable pub inputs_data : List TransactionInput → Text
inputs_data [] = []
inputs_data (input ∷ rest) = input_data input ++ inputs_data rest

unfoldable pub outputs_data : List TransactionOutput → Text
outputs_data [] = []
outputs_data (output ∷ rest) = output_data output ++ outputs_data rest

-- getSerializedData
unfoldable pub serialized_data : Transaction → Text
unfolding inputs_data outputs_data
serialized_data tx =
    decimal tx.version
    ++ (decimal (length tx.inputs)
        ++ (inputs_data tx.inputs
            ++ (decimal (length tx.outputs)
                ++ (outputs_data tx.outputs
                    ++ (decimal tx.lock_time ++ decimal (type_number tx.type_))))))

-- getSerializedDataForSigning leaves the signatures out.
abbrev pub unsigned : TransactionInput → TransactionInput
unsigned input = record input { signature = [] }

unfoldable pub unsigned_inputs_data : List TransactionInput → Text
unsigned_inputs_data [] = []
unsigned_inputs_data (input ∷ rest) = input_data (unsigned input) ++ unsigned_inputs_data rest

unfoldable pub signing_data : Transaction → Text
unfolding unsigned_inputs_data outputs_data
signing_data tx =
    decimal tx.version
    ++ (decimal (length tx.inputs)
        ++ (unsigned_inputs_data tx.inputs
            ++ (decimal (length tx.outputs)
                ++ (outputs_data tx.outputs
                    ++ (decimal tx.lock_time ++ decimal (type_number tx.type_))))))

-- updateHash and getId, which is also calculateHash. The cache is mutable.
unfoldable pub update_hash : (Text → Text) → Transaction → Transaction
update_hash sha256 tx = record tx { cached_hash = sha256 (serialized_data tx); hash_cached = true }

unfoldable pub get_id : (Text → Text) → Transaction → Text × Transaction
unfolding update_hash
get_id sha256 tx =
    let updated = update_hash sha256 tx in
    if tx.hash_cached then (tx.cached_hash, tx) else (updated.cached_hash, updated)

-- Signs the inputs that have no signature, and stops at one that cannot be signed, which then has the
-- empty signature.
unfoldable pub sign_inputs :
    (Text → Text → Text) → Text → Text → List TransactionInput → Bool × List TransactionInput
sign_inputs crypto_sign data_ private_key [] = (true, [])
sign_inputs crypto_sign data_ private_key (input ∷ rest) =
    let signature = crypto_sign data_ private_key in
    let (signed, others) = sign_inputs crypto_sign data_ private_key rest in
    if not (is_empty_text input.signature)
    then (signed, input ∷ others)
    else if is_empty_text signature
    then (false, record input { signature = signature } ∷ rest)
    else (signed, record input { signature = signature } ∷ others)

-- sign: where an input cannot be signed, the cache of the hash stays as it was.
unfoldable pub sign : (Text → Text → Text) → Transaction → Text → Bool × Transaction
unfolding sign_inputs
sign crypto_sign tx private_key =
    let (signed, inputs) = sign_inputs crypto_sign (signing_data tx) private_key tx.inputs in
    if is_empty_text private_key
    then (false, tx)
    else if is_empty_list tx.inputs
    then (false, tx)
    else if signed
    then (true, record tx { inputs = inputs; hash_cached = false })
    else (false, record tx { inputs = inputs })

-- Signature::verify is a parameter. It throws for a signature that is not hexadecimal, and so does verify.
unfoldable pub verify_inputs :
    (Text → Text → Text → Run Bool) → Text → List TransactionInput → Run Bool
verify_inputs crypto_verify data_ [] = ok true
verify_inputs crypto_verify data_ (input ∷ rest) =
    let others = verify_inputs crypto_verify data_ rest in
    if is_empty_text input.signature || is_empty_text input.public_key then ok false else do
      good ← crypto_verify data_ input.signature input.public_key
      if not good then ok false else others

unfoldable pub verify : (Text → Text → Text → Run Bool) → Transaction → Run Bool
unfolding verify_inputs
verify crypto_verify tx =
    if is_coinbase tx
    then ok true
    else if is_empty_list tx.inputs
    then ok false
    else verify_inputs crypto_verify (signing_data tx) tx.inputs

-- getFee, with the fixed value of an input. The sums are of 64 bits.
unfoldable pub output_total : List TransactionOutput → ℕ → ℕ
output_total [] total = total
output_total (output ∷ rest) total = output_total rest ((total + output.value) % 2 ^ 64)

unfoldable pub get_fee : Transaction → ℕ
unfolding output_total
get_fee tx =
    let paid = output_total tx.outputs 0 in
    let given = length tx.inputs * 1000000 % 2 ^ 64 in
    if is_coinbase tx then 0 else if ltb paid given then given - paid else 0
