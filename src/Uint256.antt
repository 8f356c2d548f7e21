-- ===== src/Uint256.antt =====
-- src/vm/uint256.cpp and include/vm/uint256.h: the 256-bit word of the virtual machine, four 64-bit
-- limbs with the lowest first. A loop over the limbs is written out limb by limb.
pub mod Value
pub mod Sum
pub mod Order
pub mod Product
pub mod Quotient
pub mod Bytes
pub mod Hex
use deo.Prelude.{
  ℕ, zero, suc, ◌+◌, ◌-◌, ◌*◌, ◌/◌, ◌%◌, ◌^◌, Bool, true, false, ◌&&◌, ◌||◌, not, ltb, ◌==◌,
  if◌then◌else◌,
}
use deo.Prelude.Run.{
  Run, ok, throws, no_fuel, add_overflow, sub_underflow, mul_overflow, division_by_zero,
  modulo_by_zero, modulo_failed, u64_overflow, ◌>>=◌,
}
use Prim.Native.Nat.{bit_and, bit_or, bit_xor}

-- 2 ^ 64: a `uint64_t` is a number below it.
abbrev pub radix : ℕ
radix = 2 ^ 64

pub record Uint256 : Type 0 where
  pub d0 : ℕ
  pub d1 : ℕ
  pub d2 : ℕ
  pub d3 : ℕ

unfoldable pub of_u64 : ℕ → Uint256
of_u64 v = record { d0 = v; d1 = 0; d2 = 0; d3 = 0 }

-- One round of operator+: the sum of two limbs and the carry, and the next carry, which the code
-- reads off the comparison of the wrapped sum with the first limb.
unfoldable pub sum_limb : ℕ → ℕ → ℕ → ℕ
sum_limb a b carry = (a + b + carry) % radix

unfoldable pub sum_carry : ℕ → ℕ → ℕ → ℕ
unfolding sum_limb
sum_carry a b carry = if ltb (sum_limb a b carry) a then 1 else 0

unfoldable pub add : Uint256 → Uint256 → Run Uint256
add x y =
    let c1 = sum_carry x.d0 y.d0 0 in
    let c2 = sum_carry x.d1 y.d1 c1 in
    let c3 = sum_carry x.d2 y.d2 c2 in
    let c4 = sum_carry x.d3 y.d3 c3 in
    if c4 == 0
    then ok (record {
      d0 = sum_limb x.d0 y.d0 0;
      d1 = sum_limb x.d1 y.d1 c1;
      d2 = sum_limb x.d2 y.d2 c2;
      d3 = sum_limb x.d3 y.d3 c3;
    })
    else throws add_overflow

-- operator==, operator< and the comparisons made of them.
unfoldable pub eq : Uint256 → Uint256 → Bool
eq x y = x.d0 == y.d0 && (x.d1 == y.d1 && (x.d2 == y.d2 && x.d3 == y.d3))

-- The loop of operator< from the highest limb down: the first limb that differs decides.
unfoldable pub lt_limb : ℕ → ℕ → Bool → Bool
lt_limb a b rest = if ltb a b then true else if ltb b a then false else rest

unfoldable pub lt : Uint256 → Uint256 → Bool
unfolding lt_limb
lt x y = lt_limb x.d3 y.d3 (lt_limb x.d2 y.d2 (lt_limb x.d1 y.d1 (lt_limb x.d0 y.d0 false)))

unfoldable pub le : Uint256 → Uint256 → Bool
unfolding lt eq
le x y = lt x y || eq x y

unfoldable pub gt : Uint256 → Uint256 → Bool
unfolding le
gt x y = not (le x y)

unfoldable pub ge : Uint256 → Uint256 → Bool
unfolding lt
ge x y = not (lt x y)

unfoldable pub is_zero : Uint256 → Bool
is_zero x = x.d0 == 0 && (x.d1 == 0 && (x.d2 == 0 && x.d3 == 0))

-- One round of operator-. The wrapped difference is kept non-negative by adding 2 * radix.
unfoldable pub diff_limb : ℕ → ℕ → ℕ → ℕ
diff_limb a b borrow = (a + 2 * radix - b - borrow) % radix

unfoldable pub diff_borrow : ℕ → ℕ → ℕ → ℕ
unfolding diff_limb
diff_borrow a b borrow = if ltb a (diff_limb a b borrow) then 1 else 0

unfoldable pub sub : Uint256 → Uint256 → Run Uint256
sub x y =
    let b1 = diff_borrow x.d0 y.d0 0 in
    let b2 = diff_borrow x.d1 y.d1 b1 in
    let b3 = diff_borrow x.d2 y.d2 b2 in
    if lt x y
    then throws sub_underflow
    else ok (record {
      d0 = diff_limb x.d0 y.d0 0;
      d1 = diff_limb x.d1 y.d1 b1;
      d2 = diff_limb x.d2 y.d2 b2;
      d3 = diff_limb x.d3 y.d3 b3;
    })

-- toUint64: refuses a value that has a higher limb.
unfoldable pub to_u64 : Uint256 → Run ℕ
to_u64 x = if x.d1 == 0 && (x.d2 == 0 && x.d3 == 0) then ok x.d0 else throws u64_overflow

-- operator&, operator|, operator^ and operator~.
unfoldable pub and : Uint256 → Uint256 → Uint256
and x y = record {
  d0 = bit_and x.d0 y.d0;
  d1 = bit_and x.d1 y.d1;
  d2 = bit_and x.d2 y.d2;
  d3 = bit_and x.d3 y.d3;
}

unfoldable pub or : Uint256 → Uint256 → Uint256
or x y = record {
  d0 = bit_or x.d0 y.d0;
  d1 = bit_or x.d1 y.d1;
  d2 = bit_or x.d2 y.d2;
  d3 = bit_or x.d3 y.d3;
}

unfoldable pub xor : Uint256 → Uint256 → Uint256
xor x y = record {
  d0 = bit_xor x.d0 y.d0;
  d1 = bit_xor x.d1 y.d1;
  d2 = bit_xor x.d2 y.d2;
  d3 = bit_xor x.d3 y.d3;
}

unfoldable pub complement : Uint256 → Uint256
complement x = record {
  d0 = radix - 1 - x.d0;
  d1 = radix - 1 - x.d1;
  d2 = radix - 1 - x.d2;
  d3 = radix - 1 - x.d3;
}
