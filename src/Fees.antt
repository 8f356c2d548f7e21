-- ===== src/Fees.antt =====
-- TransactionFee, FeeParameters and TransactionFeeCalculator of include/core/transaction_fees.h and
-- src/core/transaction_fees.cpp. The arithmetic is of 64 bits and wraps.
pub mod Limits
use deo.Prelude.{
  ℕ, zero, suc, ◌+◌, ◌*◌, ◌/◌, ◌%◌, ◌^◌, Bool, true, false, ◌==◌, not, ltb, leb, if◌then◌else◌,
  List, [], ◌∷◌, length, get_or,
}
use deo.Transaction.{Transaction, output_total, is_empty_list}

pub record TransactionFee : Type 0 where
  pub base_fee : ℕ
  pub gas_fee : ℕ
  pub priority_fee : ℕ
  pub total_fee : ℕ

abbrev pub fee_of : ℕ → ℕ → ℕ → TransactionFee
fee_of base gas priority = record {
  base_fee = base;
  gas_fee = gas;
  priority_fee = priority;
  total_fee = (base + gas + priority) % 2 ^ 64;
}

pub record FeeParameters : Type 0 where
  pub base_fee_per_byte : ℕ
  pub gas_price : ℕ
  pub priority_fee_multiplier : ℕ
  pub min_fee : ℕ
  pub max_fee : ℕ

abbrev pub default_parameters : FeeParameters
default_parameters = record {
  base_fee_per_byte = 1;
  gas_price = 20;
  priority_fee_multiplier = 2;
  min_fee = 1000;
  max_fee = 1000000000;
}

unfoldable pub calculate_transaction_size : Transaction → ℕ
calculate_transaction_size tx = (length tx.inputs * 50 + length tx.outputs * 30 + 100) % 2 ^ 64

unfoldable pub calculate_gas_usage : Transaction → ℕ
calculate_gas_usage tx =
    (21000 + length tx.inputs * 100 + length tx.outputs * 50 + calculate_transaction_size tx * 2)
    % 2 ^ 64

unfoldable pub calculate_base_fee : Transaction → ℕ → ℕ
calculate_base_fee tx fee_per_byte = calculate_transaction_size tx * fee_per_byte % 2 ^ 64

unfoldable pub calculate_gas_fee : Transaction → ℕ → ℕ
calculate_gas_fee tx gas_price = calculate_gas_usage tx * gas_price % 2 ^ 64

unfoldable pub calculate_priority_fee : Transaction → ℕ → ℕ
calculate_priority_fee tx multiplier =
    (length tx.inputs * 10 + length tx.outputs * 5 + calculate_transaction_size tx / 100)
    * multiplier
    % 2 ^ 64

-- The total, and only the total, is brought between the limits.
unfoldable pub calculate_fee : Transaction → FeeParameters → TransactionFee
calculate_fee tx params =
    let fee =
      fee_of (calculate_base_fee tx params.base_fee_per_byte)
        (calculate_gas_fee tx params.gas_price)
        (calculate_priority_fee tx params.priority_fee_multiplier) in
    if ltb fee.total_fee params.min_fee
    then record fee { total_fee = params.min_fee }
    else if ltb params.max_fee fee.total_fee
    then record fee { total_fee = params.max_fee }
    else fee

-- Each input counts for the placeholder value.
abbrev pub calculate_input_value_from_utxo : ℕ
calculate_input_value_from_utxo = 1000000

unfoldable pub is_fee_sufficient : Transaction → TransactionFee → Bool
is_fee_sufficient tx fee =
    leb ((output_total tx.outputs 0 + fee.total_fee) % 2 ^ 64)
      (length tx.inputs * calculate_input_value_from_utxo % 2 ^ 64)

unfoldable pub validate_fee : Transaction → TransactionFee → FeeParameters → Bool
validate_fee tx fee params =
    if ltb fee.total_fee params.min_fee
    then false
    else if ltb params.max_fee fee.total_fee
    then false
    else if not (is_fee_sufficient tx fee)
    then false
    else true

-- The three sums over the recent fees.
unfoldable pub sum_fees : List TransactionFee → ℕ → ℕ → ℕ → ℕ × ℕ × ℕ
sum_fees [] base gas priority = (base, gas, priority)
sum_fees (fee ∷ fees) base gas priority =
    sum_fees fees ((base + fee.base_fee) % 2 ^ 64) ((gas + fee.gas_fee) % 2 ^ 64)
      ((priority + fee.priority_fee) % 2 ^ 64)

-- avg * (100 + variance) / 100
abbrev pub with_variance : ℕ → ℕ
with_variance average = average * 110 % 2 ^ 64 / 100

unfoldable pub estimate_fee : Transaction → List TransactionFee → TransactionFee
unfolding sum_fees
estimate_fee tx [] = calculate_fee tx default_parameters
estimate_fee tx (fee ∷ fees) =
    let (base, gas, priority) = sum_fees (fee ∷ fees) 0 0 0 in
    let count = length (fee ∷ fees) in
    fee_of (with_variance (base / count)) (with_variance (gas / count))
      (with_variance (priority / count))

-- The prices of the fees that have gas, sorted, and the one in the middle.
unfoldable pub gas_prices : List TransactionFee → List ℕ
gas_prices [] = []
gas_prices (fee ∷ fees) =
    let others = gas_prices fees in
    if ltb 0 fee.gas_fee then fee.gas_fee / 1000 ∷ others else others

unfoldable pub insert_sorted : ℕ → List ℕ → List ℕ
insert_sorted n [] = n ∷ []
insert_sorted n (m ∷ ms) = if leb n m then n ∷ m ∷ ms else m ∷ insert_sorted n ms

-- std::sort on numbers
unfoldable pub sorted : List ℕ → List ℕ
unfolding insert_sorted
sorted [] = []
sorted (n ∷ ns) = insert_sorted n (sorted ns)

unfoldable pub get_recommended_gas_price : List TransactionFee → ℕ
unfolding gas_prices sorted
get_recommended_gas_price fees =
    let prices = gas_prices fees in
    if is_empty_list fees
    then 20
    else if is_empty_list prices
    then 20
    else get_or (sorted prices) (length prices / 2) 0
