-- ===== src/Uint256/Product.antt =====
-- operator* of src/vm/uint256.cpp. The limbs of a word are a list of four, lowest first.
pub mod Limbwise
pub mod LostCarry
use deo.Prelude.{
  ℕ, zero, suc, ◌+◌, ◌-◌, ◌*◌, ◌%◌, ltb, leb, ◌==◌, if◌then◌else◌, List, [], ◌∷◌, get_or,
}
use deo.Prelude.Run.{Run, ok, throws, mul_overflow, ◌>>=◌}
use deo.Uint256.{Uint256, radix}

unfoldable pub limbs : Uint256 → List ℕ
limbs x = x.d0 ∷ x.d1 ∷ x.d2 ∷ x.d3 ∷ []

unfoldable pub of_limbs : List ℕ → Uint256
of_limbs ls = record {
  d0 = get_or ls 0 0;
  d1 = get_or ls 1 0;
  d2 = get_or ls 2 0;
  d3 = get_or ls 3 0;
}

-- The carry loop. The code stores the sum in the limb before it compares the sum with that limb, so
-- the comparison is of the sum with itself.
unfoldable pub propagate : List ℕ → ℕ → List ℕ × ℕ
propagate [] carry = ([], carry)
propagate (l ∷ ls) carry =
    let sum = (l + carry) % radix in
    let rest = propagate ls (if ltb sum sum then 1 else 0) in
    if carry == 0 then (l ∷ ls, carry) else (sum ∷ rest.0, rest.1)

-- The loop starts at limb `k`.
unfoldable pub propagate_from : ℕ → List ℕ → ℕ → List ℕ × ℕ
unfolding propagate
propagate_from zero ls carry = propagate ls carry
propagate_from (suc k) [] carry = ([], carry)
propagate_from (suc k) (l ∷ ls) carry = let rest = propagate_from k ls carry in (l ∷ rest.0, rest.1)

-- The body of the inner loop, at `k = i + j`. The products that the code goes on with fit 64 bits,
-- so their upper half is zero and the test of `product_high` never fires.
unfoldable pub mul_cell : ℕ → ℕ → ℕ → List ℕ → Run (List ℕ)
unfolding propagate_from
mul_cell k a b result =
    let sum = propagate_from k result (a * b % radix) in
    if b == 0
    then ok result
    else if leb 4 k
    then throws mul_overflow
    else if ltb (radix - 1) (a * b)
    then throws mul_overflow
    else if sum.1 == 0
    then ok sum.0
    else throws mul_overflow

unfoldable pub mul_row : ℕ → ℕ → List ℕ → List ℕ → Run (List ℕ)
mul_row k a [] result = ok result
mul_row k a (b ∷ bs) result = do next ← mul_cell k a b result; mul_row (k + 1) a bs next

unfoldable pub mul_rows : ℕ → List ℕ → List ℕ → List ℕ → Run (List ℕ)
mul_rows k [] bs result = ok result
mul_rows k (a ∷ as_) bs result = do
  next ← if a == 0 then ok result else mul_row k a bs result
  mul_rows (k + 1) as_ bs next

unfoldable pub mul : Uint256 → Uint256 → Run Uint256
unfolding limbs of_limbs
mul x y = do result ← mul_rows 0 (limbs x) (limbs y) (0 ∷ 0 ∷ 0 ∷ 0 ∷ []); ok (of_limbs result)
