-- ===== src/Uint256/Sum.antt =====
-- operator+ and operator- of src/vm/uint256.cpp against the addition and subtraction of numbers.
use deo.Prelude.{
  Bool-cases, ℕ, ◌+◌, ◌-◌, ◌*◌, ◌^◌, ◌≤◌, ◌<◌, ◌≡◌, ◌≢◌, refl, arith, ltb, if◌then◌else◌, ◌⊎◌, inl,
  inr, ◌==◌, ltb→le, lt→ltb, le→ltb,
}
use deo.Prelude.Run.{Exception, ok, throws, add_overflow, sub_underflow}
use deo.Uint256.{Uint256, radix, sum_limb, sum_carry, add, diff_limb, diff_borrow, sub}
use deo.Uint256.Value.{to_ℕ, of_ℕ, of_ℕ-to_ℕ, to_ℕ-lt, IsWord}
use deo.Uint256.Order.{lt_lem}

-- No limb above the lowest is all ones: the operands at which a carry or a borrow is never lost.
pub record IsCarrySafe (y : Uint256) : Type 0 where
  pub safe1 : y.d1 ≢ radix - 1
  pub safe2 : y.d2 ≢ radix - 1
  pub safe3 : y.d3 ≢ radix - 1

-- One limb is exact, unless a carry comes in to a limb of ones.
pub sum_limb_exact :
    (a b c : ℕ)
    → a < radix
    → b < radix
    → (c ≡ 0) ⊎ ((c ≡ 1) × (b ≢ radix - 1))
    → (sum_limb a b c + 2 ^ 64 * sum_carry a b c ≡ a + b + c)
      × (sum_limb a b c < radix)
      × (sum_carry a b c ≡ 0 ⊎ sum_carry a b c ≡ 1)
unfolding sum_limb sum_carry
sum_limb_exact a b c ha hb hc = ground arith

pub diff_limb_exact :
    (a b c : ℕ)
    → a < radix
    → b < radix
    → (c ≡ 0) ⊎ ((c ≡ 1) × (b ≢ radix - 1))
    → (diff_limb a b c + b + c ≡ a + 2 ^ 64 * diff_borrow a b c)
      × (diff_limb a b c < radix)
      × (diff_borrow a b c ≡ 0 ⊎ diff_borrow a b c ≡ 1)
unfolding diff_limb diff_borrow
diff_limb_exact a b c ha hb hc = ground arith

-- A carry into a limb of ones is lost: the limb keeps its first operand, and no carry comes out.
pub sum_limb_lost :
    (a : ℕ) → a < radix → (sum_limb a (radix - 1) 1 ≡ a) × (sum_carry a (radix - 1) 1 ≡ 0)
unfolding sum_limb sum_carry
sum_limb_lost a ha = ground arith

-- A result of limbs with a last carry, as a number that fits 256 bits or does not.
carry_result :
    (z : Uint256) (c s : ℕ) (e : Exception)
    → IsWord z
    → to_ℕ z + 2 ^ 256 * c ≡ s
    → (c ≡ 0) ⊎ (c ≡ 1)
    → (if c == 0 then ok z else throws e) ≡ (if ltb s (2 ^ 256) then ok (of_ℕ s) else throws e)
carry_result z c s e w sum (inl zero_carry) =
    let same : to_ℕ z ≡ s = omega arith in
    rw (zero_carry, lt→ltb s (2 ^ 256) (omega (arith, to_ℕ-lt z w)), ← same, of_ℕ-to_ℕ z w) refl
carry_result z c s e w sum (inr one_carry) = rw (one_carry, le→ltb s (2 ^ 256) (omega arith)) refl

module _ (x y : Uint256) (w : IsWord x) (v : IsWord y) (safe : IsCarrySafe y) where
  -- The sum of the limbs and the last carry, limb by limb.
  add_limbs :
      let c1 = sum_carry x.d0 y.d0 0 in
      let c2 = sum_carry x.d1 y.d1 c1 in
      let c3 = sum_carry x.d2 y.d2 c2 in
      let c4 = sum_carry x.d3 y.d3 c3 in
      let z : Uint256 = record {
        d0 = sum_limb x.d0 y.d0 0;
        d1 = sum_limb x.d1 y.d1 c1;
        d2 = sum_limb x.d2 y.d2 c2;
        d3 = sum_limb x.d3 y.d3 c3;
      } in
      IsWord z × (to_ℕ z + 2 ^ 256 * c4 ≡ to_ℕ x + to_ℕ y) × (c4 ≡ 0 ⊎ c4 ≡ 1)
  add_limbs =
      let c1 = sum_carry x.d0 y.d0 0 in
      let c2 = sum_carry x.d1 y.d1 c1 in
      let c3 = sum_carry x.d2 y.d2 c2 in
      ground (
        arith,
        sum_limb_exact x.d0 y.d0 0 w.fits0 v.fits0,
        sum_limb_exact x.d1 y.d1 c1 w.fits1 v.fits1,
        sum_limb_exact x.d2 y.d2 c2 w.fits2 v.fits2,
        sum_limb_exact x.d3 y.d3 c3 w.fits3 v.fits3,
      )

  -- For two words, the second with no limb of ones above its lowest, addition is exact where the sum
  -- is below 2 ^ 256, and throws from there on.
  pub add_exact : add x y ≡ (
      if ltb (to_ℕ x + to_ℕ y) (2 ^ 256) then ok (of_ℕ (to_ℕ x + to_ℕ y)) else throws add_overflow)
  unfolding add
  add_exact = carry_result _ _ _ add_overflow add_limbs.0 add_limbs.1 add_limbs.2

  -- The borrow of the last limb is zero where the subtrahend is no greater.
  sub_limbs :
      to_ℕ y ≤ to_ℕ x
      → let b1 = diff_borrow x.d0 y.d0 0 in
        let b2 = diff_borrow x.d1 y.d1 b1 in
        let b3 = diff_borrow x.d2 y.d2 b2 in
        let z : Uint256 = record {
          d0 = diff_limb x.d0 y.d0 0;
          d1 = diff_limb x.d1 y.d1 b1;
          d2 = diff_limb x.d2 y.d2 b2;
          d3 = diff_limb x.d3 y.d3 b3;
        } in
        IsWord z × (to_ℕ z ≡ to_ℕ x - to_ℕ y)
  sub_limbs h =
      let b1 = diff_borrow x.d0 y.d0 0 in
      let b2 = diff_borrow x.d1 y.d1 b1 in
      let b3 = diff_borrow x.d2 y.d2 b2 in
      ground (
        arith,
        diff_limb_exact x.d0 y.d0 0 w.fits0 v.fits0,
        diff_limb_exact x.d1 y.d1 b1 w.fits1 v.fits1,
        diff_limb_exact x.d2 y.d2 b2 w.fits2 v.fits2,
        diff_limb_exact x.d3 y.d3 b3 w.fits3 v.fits3,
      )

  -- For two words, the second with no limb of ones above its lowest, subtraction is exact where the
  -- second is no greater than the first, and throws otherwise.
  pub sub_exact :
      sub x y
      ≡ (if ltb (to_ℕ x) (to_ℕ y) then throws sub_underflow else ok (of_ℕ (to_ℕ x - to_ℕ y)))
  unfolding sub
  sub_exact = rw (lt_lem x y w v) (elim (Bool-cases (ltb (to_ℕ x) (to_ℕ y))) [
    | inl less ↦ rw less
    | inr enough ↦
        let r = sub_limbs (ltb→le (to_ℕ x) (to_ℕ y) enough) in
        rw (enough, ← r.1, of_ℕ-to_ℕ _ r.0) refl
  ])

-- Where the lowest limbs of two words carry into a limb of ones of the second, and the upper halves
-- sum below 2 ^ 128, the carry is dropped: 2 ^ 128 is missing from the sum, which is returned.
pub add_drops_carry :
    (x y : Uint256)
    → IsWord x
    → IsWord y
    → radix ≤ x.d0 + y.d0
    → y.d1 ≡ radix - 1
    → x.d2 + y.d2 + radix * (x.d3 + y.d3) < 2 ^ 128
    → (z : Uint256) × (add x y ≡ ok z) × (to_ℕ z + 2 ^ 128 ≡ to_ℕ x + to_ℕ y)
unfolding add
add_drops_carry x y w v carries ones small =
    let c3 = sum_carry x.d2 y.d2 0 in
    let first : (sum_limb x.d0 y.d0 0 + 2 ^ 64 ≡ x.d0 + y.d0) × (sum_carry x.d0 y.d0 0 ≡ 1) =
      ground (arith, sum_limb_exact x.d0 y.d0 0 w.fits0 v.fits0, w.fits0) in
    let second : (sum_limb x.d1 y.d1 1 ≡ x.d1) × (sum_carry x.d1 y.d1 1 ≡ 0) =
      rw ones (sum_limb_lost x.d1 w.fits1) in
    let third = sum_limb_exact x.d2 y.d2 0 w.fits2 v.fits2 (inl refl) in
    let fourth : (sum_limb x.d3 y.d3 c3 ≡ x.d3 + y.d3 + c3) × (sum_carry x.d3 y.d3 c3 ≡ 0) =
      ground (arith, sum_limb_exact x.d3 y.d3 c3 w.fits3 v.fits3) in
    (
      record {
        d0 = sum_limb x.d0 y.d0 0;
        d1 = x.d1;
        d2 = sum_limb x.d2 y.d2 0;
        d3 = sum_limb x.d3 y.d3 c3;
      },
      rw (first.1, second.0, second.1, fourth.1) refl,
      omega arith,
    )
