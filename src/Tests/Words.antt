-- ===== src/Tests/Words.antt =====
-- The theorems on 256-bit words at given words.
use deo.Prelude.{ℕ, ◌+◌, ◌-◌, ◌/◌, ◌^◌, ◌≡◌, ◌==◌, ltb, if◌then◌else◌, arith}
use deo.Prelude.Run.{ok, throws, add_overflow, sub_underflow, division_by_zero}
use deo.Uint256.{Uint256, radix, add, sub}
use deo.Uint256.Value.{to_ℕ, of_ℕ, IsWord}
use deo.Uint256.Sum.{IsCarrySafe, add_exact, sub_exact}
use deo.Uint256.Quotient.{div}
use deo.Uint256.Quotient.Division.{div_exact}
use deo.Uint256.Hex.{of_hex, to_string}
use deo.Uint256.Hex.RoundTrip.{of_hex-to_string}

-- 2 ^ 64 + 2 ^ 64 - 1, and 2 ^ 65 + 3
abbrev carrying : Uint256
carrying = record { d0 = radix - 1; d1 = 1; d2 = 0; d3 = 0 }

abbrev larger : Uint256
larger = record { d0 = 3; d1 = 2; d2 = 0; d3 = 0 }

-- A limb of ones over the number 1
abbrev ones_above : Uint256
ones_above = record { d0 = 1; d1 = radix - 1; d2 = 0; d3 = 0 }

carrying-IsWord : IsWord carrying
carrying-IsWord = record {
  fits0 = omega arith;
  fits1 = omega arith;
  fits2 = omega arith;
  fits3 = omega arith;
}

larger-IsWord : IsWord larger
larger-IsWord = record {
  fits0 = omega arith;
  fits1 = omega arith;
  fits2 = omega arith;
  fits3 = omega arith;
}

ones_above-IsWord : IsWord ones_above
ones_above-IsWord = record {
  fits0 = omega arith;
  fits1 = omega arith;
  fits2 = omega arith;
  fits3 = omega arith;
}

larger-IsCarrySafe : IsCarrySafe larger
larger-IsCarrySafe = record {
  safe1 = λ e. omega (arith, e);
  safe2 = λ e. omega (arith, e);
  safe3 = λ e. omega (arith, e);
}

carrying-IsCarrySafe : IsCarrySafe carrying
carrying-IsCarrySafe = record {
  safe1 = λ e. omega (arith, e);
  safe2 = λ e. omega (arith, e);
  safe3 = λ e. omega (arith, e);
}

add_exact_example : add carrying larger ≡ (
    if ltb (to_ℕ carrying + to_ℕ larger) (2 ^ 256)
    then ok (of_ℕ (to_ℕ carrying + to_ℕ larger))
    else throws add_overflow)
add_exact_example = add_exact carrying larger carrying-IsWord larger-IsWord larger-IsCarrySafe

sub_exact_example : sub larger carrying ≡ (
    if ltb (to_ℕ larger) (to_ℕ carrying)
    then throws sub_underflow
    else ok (of_ℕ (to_ℕ larger - to_ℕ carrying)))
sub_exact_example = sub_exact larger carrying larger-IsWord carrying-IsWord carrying-IsCarrySafe

abbrev half : ℕ
half = 2 ^ 63

div_exact_example : div 5 larger carrying ≡ (
    if to_ℕ carrying == 0 then throws division_by_zero else ok (of_ℕ (to_ℕ larger / to_ℕ carrying)))
div_exact_example =
    div_exact 5 larger carrying larger-IsWord carrying-IsWord carrying-IsCarrySafe (omega arith)

of_hex-to_string_example : of_hex (to_string carrying) ≡ ok carrying
of_hex-to_string_example = of_hex-to_string carrying carrying-IsWord
