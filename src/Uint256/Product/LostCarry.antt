-- ===== src/Uint256/Product/LostCarry.antt =====
-- operator* of src/vm/uint256.cpp where two products fall on one limb.
use deo.Prelude.{
  ℕ, ◌+◌, ◌*◌, ◌^◌, ◌%◌, ◌≤◌, ◌<◌, ◌≡◌, refl, List, [], ◌∷◌, get_or, set, All, length, arith,
}
use deo.Prelude.Run.{ok}
use deo.Uint256.{Uint256, radix}
use deo.Uint256.Value.{to_ℕ}
use deo.Uint256.Product.{mul_cell, mul_row, mul_rows, mul}
use deo.Uint256.Product.Limbwise.{mul_cell_lem}

-- A cell whose product fits 64 bits.
cell_fits :
    (k a b : ℕ) (r : List ℕ)
    → All (λ l. l < radix) r
    → k < length r
    → k < 4
    → 0 < b
    → a * b < radix
    → mul_cell k a b r ≡ ok (set r k ((get_or r k 0 + a * b) % radix))
cell_fits k a b r h lt lt4 pos fits = rw (mul_cell_lem k a b r h lt lt4 pos) (ground arith)

cell_zero : (k a : ℕ) (r : List ℕ) → mul_cell k a 0 r ≡ ok r
unfolding mul_cell
cell_zero k a r = refl

-- A row of two limbs.
row_fits :
    (k a b0 b1 : ℕ) (r r1 r2 : List ℕ)
    → mul_cell k a b0 r ≡ ok r1
    → mul_cell (k + 1) a b1 r1 ≡ ok r2
    → mul_row k a (b0 ∷ b1 ∷ 0 ∷ 0 ∷ []) r ≡ ok r2
unfolding mul_row
row_fits k a b0 b1 r r1 r2 e1 e2 =
    rw (e1, e2, cell_zero (k + 1 + 1) a r2, cell_zero (k + 1 + 1 + 1) a r2) refl

rows_fit :
    (a0 a1 : ℕ) (bs r r1 r2 : List ℕ)
    → 0 < a0
    → 0 < a1
    → mul_row 0 a0 bs r ≡ ok r1
    → mul_row 1 a1 bs r1 ≡ ok r2
    → mul_rows 0 (a0 ∷ a1 ∷ 0 ∷ 0 ∷ []) bs r ≡ ok r2
unfolding mul_rows
rows_fit a0 a1 bs r r1 r2 p0 p1 e1 e2 = ground (arith, e1, e2)

-- Two operands of two limbs whose four products fit 64 bits, and whose middle products together do
-- not: the product comes back 2 ^ 128 too small, with no exception.
pub mul_drops_carry :
    (a0 a1 b0 b1 : ℕ)
    → 0 < a0
    → 0 < a1
    → 0 < b0
    → 0 < b1
    → a0 * b0 < radix
    → a0 * b1 < radix
    → a1 * b0 < radix
    → a1 * b1 < radix
    → radix ≤ a0 * b1 + a1 * b0
    → let x : Uint256 = record { d0 = a0; d1 = a1; d2 = 0; d3 = 0 } in
      let y : Uint256 = record { d0 = b0; d1 = b1; d2 = 0; d3 = 0 } in
      (z : Uint256) × (mul x y ≡ ok z) × (to_ℕ z + 2 ^ 128 ≡ to_ℕ x * to_ℕ y)
unfolding mul
mul_drops_carry a0 a1 b0 b1 pa0 pa1 pb0 pb1 f00 f01 f10 f11 over =
    let m = (a0 * b1 + a1 * b0) % radix in
    let c00 : mul_cell 0 a0 b0 (0 ∷ 0 ∷ 0 ∷ 0 ∷ []) ≡ ok (a0 * b0 ∷ 0 ∷ 0 ∷ 0 ∷ []) =
      ground (arith, cell_fits 0 a0 b0 (0 ∷ 0 ∷ 0 ∷ 0 ∷ [])) in
    let c01 : mul_cell 1 a0 b1 (a0 * b0 ∷ 0 ∷ 0 ∷ 0 ∷ []) ≡ ok (a0 * b0 ∷ a0 * b1 ∷ 0 ∷ 0 ∷ []) =
      ground (arith, cell_fits 1 a0 b1 (a0 * b0 ∷ 0 ∷ 0 ∷ 0 ∷ [])) in
    let c10 : mul_cell 1 a1 b0 (a0 * b0 ∷ a0 * b1 ∷ 0 ∷ 0 ∷ []) ≡ ok (a0 * b0 ∷ m ∷ 0 ∷ 0 ∷ []) =
      ground (arith, cell_fits 1 a1 b0 (a0 * b0 ∷ a0 * b1 ∷ 0 ∷ 0 ∷ [])) in
    let c11 : mul_cell 2 a1 b1 (a0 * b0 ∷ m ∷ 0 ∷ 0 ∷ []) ≡ ok (a0 * b0 ∷ m ∷ a1 * b1 ∷ 0 ∷ []) =
      ground (arith, cell_fits 2 a1 b1 (a0 * b0 ∷ m ∷ 0 ∷ 0 ∷ [])) in
    let r0 = row_fits 0 a0 b0 b1 _ _ _ c00 c01 in
    let r1 = row_fits 1 a1 b0 b1 _ _ _ c10 c11 in
    (
      record { d0 = a0 * b0; d1 = m; d2 = a1 * b1; d3 = 0 },
      rw (rows_fit a0 a1 (b0 ∷ b1 ∷ 0 ∷ 0 ∷ []) _ _ _ pa0 pa1 r0 r1) refl,
      omega arith,
    )
