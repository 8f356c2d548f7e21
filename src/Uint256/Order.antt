-- ===== src/Uint256/Order.antt =====
-- The comparisons of src/vm/uint256.cpp and those of the numbers.
use deo.Prelude.{◌≡◌, ◌↔◌, arith, true, ltb, leb, ◌==◌}
use deo.Uint256.{Uint256, lt, lt_limb, eq, le, gt, ge, is_zero}
use deo.Uint256.Value.{to_ℕ, IsWord}

pub lt_lem : (x y : Uint256) → IsWord x → IsWord y → lt x y ≡ ltb (to_ℕ x) (to_ℕ y)
unfolding lt lt_limb
lt_lem x y w v = ground arith

pub eq_lem : (x y : Uint256) → IsWord x → IsWord y → eq x y ≡ (to_ℕ x == to_ℕ y)
unfolding eq
eq_lem x y w v = ground arith

-- operator== holds of equal words only.
pub eq_iff : (x y : Uint256) → (eq x y ≡ true) ↔ (x ≡ y)
unfolding eq
eq_iff x y = ground arith

pub is_zero_lem : (x : Uint256) → is_zero x ≡ (to_ℕ x == 0)
unfolding is_zero
is_zero_lem x = ground arith

pub le_lem : (x y : Uint256) → IsWord x → IsWord y → le x y ≡ leb (to_ℕ x) (to_ℕ y)
unfolding le
le_lem x y w v = ground (arith, lt_lem x y, eq_lem x y)

pub gt_lem : (x y : Uint256) → IsWord x → IsWord y → gt x y ≡ ltb (to_ℕ y) (to_ℕ x)
unfolding gt
gt_lem x y w v = ground (arith, le_lem x y)

pub ge_lem : (x y : Uint256) → IsWord x → IsWord y → ge x y ≡ leb (to_ℕ y) (to_ℕ x)
unfolding ge
ge_lem x y w v = ground (arith, lt_lem x y)

-- Every comparison of two words is the comparison of their numbers.
pub comparisons_exact :
    (x y : Uint256)
    → IsWord x
    → IsWord y
    → (lt x y ≡ ltb (to_ℕ x) (to_ℕ y))
      × (le x y ≡ leb (to_ℕ x) (to_ℕ y))
      × (gt x y ≡ ltb (to_ℕ y) (to_ℕ x))
      × (ge x y ≡ leb (to_ℕ y) (to_ℕ x))
      × (eq x y ≡ (to_ℕ x == to_ℕ y))
comparisons_exact x y w v =
    (lt_lem x y w v, le_lem x y w v, gt_lem x y w v, ge_lem x y w v, eq_lem x y w v)
