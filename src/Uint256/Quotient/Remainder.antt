-- ===== src/Uint256/Quotient/Remainder.antt =====
-- operator% of src/vm/uint256.cpp against the remainder of numbers.
use deo.Prelude.{
  ℕ, ◌+◌, ◌-◌, ◌*◌, ◌/◌, ◌%◌, ◌≤◌, ◌<◌, ◌≡◌, ltb, sym, ap, ◌∙◌, ◌==◌, if◌then◌else◌, arith,
}
use mathlib.Core.Path.{ap₂}
use native.Mathlib.Nat.{div-le_self, div-add-mod, mod-eq_of_lt}
use deo.Prelude.Run.{Run, ok, throws, modulo_by_zero, ◌>>=◌}
use deo.Uint256.{Uint256, radix, of_u64, sub, le}
use deo.Uint256.Value.{to_ℕ, of_ℕ, of_u64-IsWord, to_ℕ-injective, to_ℕ-of_u64, u64-of_ℕ, IsWord}
use deo.Uint256.Order.{lt_lem, is_zero_lem}
use deo.Uint256.Product.{mul}
use deo.Uint256.Product.Limbwise.{mul_u64}
use deo.Uint256.Quotient.{div, or_modulo_failed, modulo}
use deo.Uint256.Quotient.Loop.{sub_ok, u64-IsCarrySafe}
use deo.Uint256.Quotient.Division.{div_exact}

sub_u64 : (a b : ℕ) → a < radix → b ≤ a → sub (of_u64 a) (of_u64 b) ≡ ok (of_u64 (a - b))
sub_u64 a b h k =
    sub_ok (of_u64 a) (of_u64 b) (of_u64-IsWord a h) (of_u64-IsWord b (omega arith))
      (u64-IsCarrySafe b) (rw (to_ℕ-of_u64 a, to_ℕ-of_u64 b) k)
    ∙ ap₂ (λ (m n : ℕ). ok (of_ℕ (m - n))) (to_ℕ-of_u64 a) (to_ℕ-of_u64 b)
    ∙ ap ok (sym (u64-of_ℕ (a - b) (omega arith)))

-- The quotient times the divisor, taken off.
mod_u64 :
    (fuel n d : ℕ)
    → n < radix
    → 0 < d
    → d ≤ n
    → n / d < fuel
    → or_modulo_failed (do
      quotient ← div fuel (of_u64 n) (of_u64 d)
      product ← mul quotient (of_u64 d)
      sub (of_u64 n) product)
      ≡ ok (of_u64 (n % d))
mod_u64 fuel n d h pos le enough =
    let back : d * (n / d) + n % d ≡ n = div-add-mod n d in
    let smaller : n / d ≤ n = div-le_self n d in
    let e : div fuel (of_u64 n) (of_u64 d) ≡ ok (of_u64 (n / d)) =
      div_exact fuel (of_u64 n) (of_u64 d) (of_u64-IsWord n h) (of_u64-IsWord d (omega arith))
        (u64-IsCarrySafe d) (rw (to_ℕ-of_u64 n, to_ℕ-of_u64 d) enough)
      ∙ rw (to_ℕ-of_u64 n, to_ℕ-of_u64 d) (ground (arith, u64-of_ℕ (n / d))) in
    rw
      (
        e,
        mul_u64 (n / d) d (omega arith) (omega arith) (omega arith),
        sub_u64 n (n / d * d) h (omega arith),
      )
      (ap (λ (m : ℕ). ok (of_u64 m)) (omega arith))

mod_word :
    (fuel n d : ℕ) (y : Uint256)
    → y ≡ of_u64 d
    → n < radix
    → 0 < d
    → d ≤ n
    → n / d < fuel
    → or_modulo_failed
        (do quotient ← div fuel (of_u64 n) y; product ← mul quotient y; sub (of_u64 n) product)
      ≡ ok (of_u64 (n % d))
mod_word fuel n d y e h pos le enough = rw e (mod_u64 fuel n d h pos le enough)

mod_ways_agree :
    (t err small rest : Run Uint256) (n d : ℕ)
    → (n < d → small ≡ t)
    → (0 < d → d ≤ n → rest ≡ t)
    → (if d == 0 then err else if ltb n d then small else rest) ≡ (if d == 0 then err else t)
mod_ways_agree t err small rest n d h k = ground arith

-- The remainder of a number of 64 bits by any word is exact once the fuel passes the quotient, and a
-- divisor of zero throws.
pub mod_exact :
    (fuel n : ℕ) (y : Uint256)
    → n < radix
    → IsWord y
    → n / to_ℕ y < fuel
    → modulo fuel (of_u64 n) y
      ≡ (if to_ℕ y == 0 then throws modulo_by_zero else ok (of_u64 (n % to_ℕ y)))
unfolding modulo
mod_exact fuel n y h v enough =
    let d = to_ℕ y in
    rw (is_zero_lem y, lt_lem (of_u64 n) y (of_u64-IsWord n h) v, to_ℕ-of_u64 n)
      (mod_ways_agree _ _ _ _ n d (λ k. ap (λ (m : ℕ). ok (of_u64 m)) (sym (mod-eq_of_lt k)))
        (λ pos k.
          let fits : d < radix = omega arith in
          mod_word fuel n d y
            (to_ℕ-injective y (of_u64 d) v (of_u64-IsWord d fits) (sym (to_ℕ-of_u64 d))) h pos k
            enough))
