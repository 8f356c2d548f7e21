-- ===== src/Uint256/Product/Limbwise.antt =====
-- operator* of src/vm/uint256.cpp where one operand fits 64 bits.
use deo.Prelude.{
  ℕ, zero, suc, ◌+◌, ◌*◌, ◌%◌, ◌<◌, ◌≡◌, refl, ◌&&◌, ltb, ◌==◌, if◌then◌else◌, List, [], ◌∷◌,
  get_or, set, All, length, set-get_or, arith,
}
use deo.Prelude.Run.{ok, throws, mul_overflow}
use deo.Uint256.{Uint256, radix, of_u64}
use deo.Uint256.Value.{IsWord, of_u64-IsWord}
use deo.Uint256.Product.{propagate, propagate_from, mul_cell, mul_row, mul_rows, mul}

propagate_lem :
    (l c : ℕ) (ls : List ℕ) → l < radix → propagate (l ∷ ls) c ≡ ((l + c) % radix ∷ ls, 0)
unfolding propagate
propagate_lem l c [] h = ground arith
propagate_lem l c (m ∷ ls) h = ground arith

propagate_from_lem :
    (k c : ℕ) (ls : List ℕ)
    → All (λ l. l < radix) ls
    → k < length ls
    → propagate_from k ls c ≡ (set ls k ((get_or ls k 0 + c) % radix), 0)
unfolding propagate_from
propagate_from_lem zero c [] h lt = absurd (omega arith)
propagate_from_lem zero c (l ∷ ls) h lt = propagate_lem l c ls h.0
propagate_from_lem (suc k) c [] h lt = absurd (omega arith)
propagate_from_lem (suc k) c (l ∷ ls) h lt = rw (propagate_from_lem k c ls h.1 (omega arith)) refl

-- A cell adds its product to limb `k` without a carry, or throws where the product passes 64 bits.
pub mul_cell_lem :
    (k a b : ℕ) (r : List ℕ)
    → All (λ l. l < radix) r
    → k < length r
    → k < 4
    → 0 < b
    → mul_cell k a b r ≡ (
        if ltb (a * b) radix
        then ok (set r k ((get_or r k 0 + a * b) % radix))
        else throws mul_overflow)
unfolding mul_cell
mul_cell_lem k a b r h lt lt4 pos = rw (propagate_from_lem k (a * b % radix) r h lt) (ground arith)

mul_cell_zero : (k a : ℕ) (r : List ℕ) → mul_cell k a 0 r ≡ ok r
unfolding mul_cell
mul_cell_zero k a r = refl

-- A row whose second word is a number of 64 bits.
mul_row_u64 :
    (k a b : ℕ) (r : List ℕ)
    → All (λ l. l < radix) r
    → k < length r
    → k < 4
    → get_or r k 0 ≡ 0
    → 0 < b
    → mul_row k a (b ∷ 0 ∷ 0 ∷ 0 ∷ []) r
      ≡ (if ltb (a * b) radix then ok (set r k (a * b)) else throws mul_overflow)
unfolding mul_row
mul_row_u64 k a b r h lt lt4 empty pos =
    rw (mul_cell_lem k a b r h lt lt4 pos, empty)
      (ground (
        arith,
        mul_cell_zero k a r,
        mul_cell_zero k a (set r k (a * b % radix)),
        mul_cell_zero (k + 1) a (set r k (a * b)),
        mul_cell_zero (k + 1 + 1) a (set r k (a * b)),
        mul_cell_zero (k + 1 + 1 + 1) a (set r k (a * b)),
      ))

-- A row of zeros changes nothing.
pub mul_row_zero : (k a : ℕ) (r : List ℕ) → mul_row k a (0 ∷ 0 ∷ 0 ∷ 0 ∷ []) r ≡ ok r
unfolding mul_row mul_cell
mul_row_zero k a r = refl

-- One round of the outer loop, the two `continue` tests included.
row_u64 :
    (k a b : ℕ) (r : List ℕ)
    → All (λ l. l < radix) r
    → k < length r
    → k < 4
    → get_or r k 0 ≡ 0
    → (if a == 0 then ok r else mul_row k a (b ∷ 0 ∷ 0 ∷ 0 ∷ []) r)
      ≡ (if ltb (a * b) radix then ok (set r k (a * b)) else throws mul_overflow)
row_u64 k a zero r h lt lt4 empty = ground (arith, mul_row_zero k a r, set-get_or r k (a * 0) 0 lt)
row_u64 k a (suc b) r h lt lt4 empty =
    ground (arith, mul_row_u64 k a (suc b) r h lt lt4 empty, set-get_or r k (a * suc b) 0 lt)

rows_u64 :
    (k a b : ℕ) (as_ r : List ℕ)
    → All (λ l. l < radix) r
    → k < length r
    → k < 4
    → get_or r k 0 ≡ 0
    → mul_rows k (a ∷ as_) (b ∷ 0 ∷ 0 ∷ 0 ∷ []) r ≡ (
        if ltb (a * b) radix
        then mul_rows (k + 1) as_ (b ∷ 0 ∷ 0 ∷ 0 ∷ []) (set r k (a * b))
        else throws mul_overflow)
unfolding mul_rows
rows_u64 k a b as_ r h lt lt4 empty = rw (row_u64 k a b r h lt lt4 empty) (ground arith)

pub rows_end : (k : ℕ) (bs r : List ℕ) → mul_rows k [] bs r ≡ ok r
unfolding mul_rows
rows_end k bs r = refl

-- A word times a number of 64 bits: each limb is multiplied for itself, and one product that passes
-- 64 bits throws.
pub mul_by_u64 :
    (x : Uint256) (b : ℕ)
    → IsWord x
    → b < radix
    → mul x (of_u64 b) ≡ (
        if ltb (x.d0 * b) radix
          && (ltb (x.d1 * b) radix && (ltb (x.d2 * b) radix && ltb (x.d3 * b) radix))
        then ok (record { d0 = x.d0 * b; d1 = x.d1 * b; d2 = x.d2 * b; d3 = x.d3 * b })
        else throws mul_overflow)
unfolding mul of_u64
mul_by_u64 x b w h = ground (
  arith,
  rows_u64 0 x.d0 b (x.d1 ∷ x.d2 ∷ x.d3 ∷ []) (0 ∷ 0 ∷ 0 ∷ 0 ∷ []),
  rows_u64 1 x.d1 b (x.d2 ∷ x.d3 ∷ []) (x.d0 * b ∷ 0 ∷ 0 ∷ 0 ∷ []),
  rows_u64 2 x.d2 b (x.d3 ∷ []) (x.d0 * b ∷ x.d1 * b ∷ 0 ∷ 0 ∷ []),
  rows_u64 3 x.d3 b [] (x.d0 * b ∷ x.d1 * b ∷ x.d2 * b ∷ 0 ∷ []),
  rows_end 4 (b ∷ 0 ∷ 0 ∷ 0 ∷ []) (x.d0 * b ∷ x.d1 * b ∷ x.d2 * b ∷ x.d3 * b ∷ []),
)

-- Two numbers of 64 bits whose product fits 64 bits.
pub mul_u64 :
    (a b : ℕ)
    → a < radix
    → b < radix
    → a * b < radix
    → mul (of_u64 a) (of_u64 b) ≡ ok (of_u64 (a * b))
unfolding of_u64
mul_u64 a b ha hb h = rw (mul_by_u64 (of_u64 a) b (of_u64-IsWord a ha) hb) (ground arith)
