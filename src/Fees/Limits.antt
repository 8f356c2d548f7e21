-- ===== src/Fees/Limits.antt =====
-- The limits of the fees of src/core/transaction_fees.cpp, and how the estimate follows recent fees.
use deo.Prelude.{◌≤◌, ◌≡◌, arith}
use deo.Transaction.{Transaction}
use deo.Fees.{FeeParameters, calculate_fee, validate_fee, is_fee_sufficient}

-- With the limits in order, the total of a calculated fee lies between them, and validateFee accepts
-- the fee just where the inputs pay for it.
pub calculate_fee_limits :
    (tx : Transaction) (params : FeeParameters)
    → params.min_fee ≤ params.max_fee
    → let fee = calculate_fee tx params in
      (params.min_fee ≤ fee.total_fee)
      × (fee.total_fee ≤ params.max_fee)
      × (validate_fee tx fee params ≡ is_fee_sufficient tx fee)
unfolding calculate_fee validate_fee
calculate_fee_limits tx params h = ground arith
