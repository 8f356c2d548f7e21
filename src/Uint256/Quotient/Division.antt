-- ===== src/Uint256/Quotient/Division.antt =====
-- operator/ of src/vm/uint256.cpp against the division of numbers.
use deo.Prelude.{
  ℕ, ◌/◌, ◌≤◌, ◌<◌, ◌≡◌, refl, Bool, ◌&&◌, ltb, leb, sym, ap, ◌∙◌, ◌==◌, if◌then◌else◌, arith,
}
use mathlib.Core.Path.{ap₂}
use native.Mathlib.Nat.{div-le_self, le_trans}
use deo.Prelude.Run.{Run, ok, throws, division_by_zero}
use deo.Uint256.{Uint256, of_u64}
use deo.Uint256.Value.{to_ℕ, of_ℕ, of_ℕ-to_ℕ, to_ℕ-lt, of_u64-IsWord, to_ℕ-of_u64, u64-of_ℕ, IsWord}
use deo.Uint256.Order.{eq_lem, le_lem, lt_lem, is_zero_lem}
use deo.Uint256.Sum.{IsCarrySafe}
use deo.Uint256.Quotient.{div}
use deo.Uint256.Quotient.Loop.{div_small, div_loop_lem}

-- The four ways to a quotient without the loop, over the numbers.
by_less : (n d : ℕ) → n < d → of_u64 0 ≡ of_ℕ (n / d)
unfolding of_u64
by_less n d h = rw (div_small n d h) refl

by_one : (x : Uint256) (d : ℕ) → IsWord x → d ≡ 1 → x ≡ of_ℕ (to_ℕ x / d)
by_one x d w e =
    let same : to_ℕ x / d ≡ to_ℕ x = rw e (omega arith) in rw same (sym (of_ℕ-to_ℕ x w))

by_division :
    (x y : Uint256)
    → to_ℕ x ≤ 1000000
    → to_ℕ y ≤ 1000000
    → of_u64 (x.d0 / y.d0) ≡ of_ℕ (to_ℕ x / to_ℕ y)
unfolding of_u64
by_division x y h k =
    let ex : x.d0 ≡ to_ℕ x = omega arith in
    let ey : y.d0 ≡ to_ℕ y = omega arith in
    let bound : to_ℕ x / to_ℕ y ≤ 1000000 = le_trans (div-le_self (to_ℕ x) (to_ℕ y)) h in
    ap₂ (λ (a b : ℕ). of_u64 (a / b)) ex ey ∙ u64-of_ℕ (to_ℕ x / to_ℕ y) (omega arith)

-- The tests of operator/ in their order, where each way that is taken leads to `t`.
ways_agree :
    (t err less one small loop : Run Uint256) (n d : ℕ) (b : Bool)
    → (n < d → less ≡ t)
    → (d ≡ 1 → one ≡ t)
    → (n ≤ 1000000 → d ≤ 1000000 → small ≡ t)
    → (0 < d → loop ≡ t)
    → (if d == 0
        then err
        else if ltb n d
        then less
        else if d == 1
        then one
        else if leb n 1000000 && (leb d 1000000 && b)
        then small
        else loop)
      ≡ (if d == 0 then err else t)
ways_agree t err less one small loop n d b h1 h2 h3 h4 = ground arith

-- Division of a word by a word with no limb of ones above its lowest ends and is exact once the fuel
-- passes the quotient, and a divisor of zero throws.
pub div_exact :
    (fuel : ℕ) (x y : Uint256)
    → IsWord x
    → IsWord y
    → IsCarrySafe y
    → to_ℕ x / to_ℕ y < fuel
    → div fuel x y ≡ (if to_ℕ y == 0 then throws division_by_zero else ok (of_ℕ (to_ℕ x / to_ℕ y)))
unfolding div
div_exact fuel x y w v safe enough =
    rw
      (
        is_zero_lem y,
        lt_lem x y w v,
        eq_lem y (of_u64 1) v (of_u64-IsWord 1 (omega arith)),
        le_lem x (of_u64 1000000) w (of_u64-IsWord 1000000 (omega arith)),
        le_lem y (of_u64 1000000) v (of_u64-IsWord 1000000 (omega arith)),
        to_ℕ-of_u64 1,
        to_ℕ-of_u64 1000000,
      )
      (ways_agree _ _ _ _ _ _ (to_ℕ x) (to_ℕ y) _ (λ h. ap ok (by_less (to_ℕ x) (to_ℕ y) h))
        (λ h. ap ok (by_one x (to_ℕ y) w h)) (λ h k. ap ok (by_division x y h k))
        (λ h.
          div_loop_lem fuel x y (of_u64 0) w v (of_u64-IsWord 0 (omega arith)) safe h
            (rw (to_ℕ-of_u64 0) (omega (arith, to_ℕ-lt x w))) enough
          ∙ ap (λ (m : ℕ). ok (of_ℕ m)) (rw (to_ℕ-of_u64 0) (omega arith))))
