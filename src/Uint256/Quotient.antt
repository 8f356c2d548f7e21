-- ===== src/Uint256/Quotient.antt =====
-- operator/ and operator% of src/vm/uint256.cpp. The division subtracts the divisor until it no
-- longer fits; `fuel` bounds the rounds of that loop.
pub mod Loop
pub mod Division
pub mod Remainder
use deo.Prelude.{ℕ, zero, suc, ◌/◌, true, false, ◌&&◌, ◌==◌, if◌then◌else◌, not}
use deo.Prelude.Run.{
  Run, ok, throws, undefined, no_fuel, division_by_zero, modulo_by_zero, modulo_failed, ◌>>=◌,
}
use deo.Uint256.{Uint256, of_u64, add, sub, eq, lt, le, ge, is_zero}
use deo.Uint256.Product.{mul}

-- while (remainder >= other) { remainder = remainder - other; result = result + uint256_t(1); }
unfoldable pub div_loop : ℕ → Uint256 → Uint256 → Uint256 → Run Uint256
div_loop zero remainder other result = no_fuel
div_loop (suc fuel) remainder other result = elim (ge remainder other) [
  | false ↦ ok result
  | true ↦ do
    less ← sub remainder other
    more ← add result (of_u64 1)
    div_loop fuel less other more
]

unfoldable pub div : ℕ → Uint256 → Uint256 → Run Uint256
div fuel x y =
    let loop = div_loop fuel x y (of_u64 0) in
    if is_zero y
    then throws division_by_zero
    else if lt x y
    then ok (of_u64 0)
    else if eq y (of_u64 1)
    then ok x
    else if le x (of_u64 1000000) && (le y (of_u64 1000000) && not (y.d0 == 0))
    then ok (of_u64 (x.d0 / y.d0))
    else loop

-- catch (const std::exception& e) { throw std::runtime_error("Modulo operation failed: ..."); }
abbrev pub or_modulo_failed : Run Uint256 → Run Uint256
or_modulo_failed (ok z) = ok z
or_modulo_failed (throws e) = throws modulo_failed
or_modulo_failed undefined = undefined
or_modulo_failed no_fuel = no_fuel

unfoldable pub modulo : ℕ → Uint256 → Uint256 → Run Uint256
modulo fuel x y =
    let rest : Run Uint256 =
      or_modulo_failed (do quotient ← div fuel x y; product ← mul quotient y; sub x product) in
    if is_zero y then throws modulo_by_zero else if lt x y then ok x else rest
