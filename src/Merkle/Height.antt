-- ===== src/Merkle/Height.antt =====
-- calculateHeight of src/core/merkle_tree.cpp.
use deo.Prelude.{
  ℕ, zero, suc, ◌+◌, ◌*◌, ◌^◌, ◌≤◌, ◌<◌, ◌≡◌, refl, ltb, ltb→lt, ltb→le, false, Bool-cases, inl,
  inr, arith, ◌==◌,
}
use native.Mathlib.Nat.{pow-succ'}
use deo.Merkle.{height_loop, calculate_height}

-- A height with one more than the rounds of doubling that reach the number of leaves.
abbrev pub Reaches : ℕ → ℕ → Type 0
Reaches leaf_count height =
    (k : ℕ) × (height ≡ k + 1) × (leaf_count ≤ 2 ^ k) × (2 ^ k < 2 * leaf_count)

height_loop-Reaches :
    (fuel n k nodes : ℕ)
    → nodes ≡ 2 ^ k
    → nodes < 2 * n
    → n ≤ nodes + fuel
    → 0 < nodes
    → Reaches n (height_loop fuel n nodes (k + 1))
unfolding height_loop
height_loop-Reaches zero n k nodes e below enough pos =
    (k, refl, omega (arith, e), omega (arith, e))
height_loop-Reaches (suc fuel) n k nodes e below enough pos = elim (Bool-cases (ltb nodes n)) [
  | inl less ↦
      let doubled : nodes * 2 ≡ 2 ^ (k + 1) =
        let next : k + 1 ≡ suc k = omega arith in
        let double : 2 ^ suc k ≡ 2 * 2 ^ k = pow-succ' 2 k in
        rw (next, double) (omega (arith, e)) in
      rw less (
        height_loop-Reaches fuel n (k + 1) (nodes * 2) doubled (omega (arith, ltb→lt nodes n less))
          (omega arith) (omega arith))
  | inr done ↦ rw done (k, refl, omega (arith, e, ltb→le nodes n done), omega (arith, e))
]

-- The height computed for one leaf or more is one more than the rounded up binary logarithm of their
-- number.
pub calculate_height-Reaches : (n : ℕ) → 0 < n → Reaches n (calculate_height n)
unfolding calculate_height
calculate_height-Reaches zero pos = absurd (omega arith)
calculate_height-Reaches (suc zero) pos = (0, refl, omega arith, omega arith)
calculate_height-Reaches (suc (suc n)) pos =
    let some_leaves : (suc (suc n) == 0) ≡ false = ground arith in
    let several : (suc (suc n) == 1) ≡ false = ground arith in
    rw (some_leaves, several)
      (height_loop-Reaches (suc (suc n)) (suc (suc n)) 0 1 refl (omega arith) (omega arith)
        (omega arith))
