-- ===== src/Uint256/Quotient/Loop.antt =====
-- The loop of operator/ of src/vm/uint256.cpp and the quotient.
use deo.Prelude.{
  ℕ, zero, suc, ◌+◌, ◌-◌, ◌/◌, ◌^◌, ◌≤◌, ◌<◌, ◌≡◌, refl, true, false, leb, le→ltb, lt→ltb, leb→le,
  leb→lt, sym, ap, ◌∙◌, arith, inl, inr, Bool-cases,
}
use native.Mathlib.Nat.{add-zero}
use deo.Prelude.Run.{ok}
use deo.Uint256.{Uint256, of_u64, add, sub, ge}
use deo.Uint256.Value.{
  to_ℕ, of_ℕ, of_ℕ-to_ℕ, to_ℕ-of_ℕ, of_ℕ-IsWord, to_ℕ-lt, of_u64-IsWord, IsWord,
}
use deo.Uint256.Order.{ge_lem}
use deo.Uint256.Sum.{IsCarrySafe, add_exact, sub_exact}
use deo.Uint256.Quotient.{div_loop}

pub one-IsCarrySafe : IsCarrySafe (of_u64 1)
unfolding of_u64
one-IsCarrySafe = record { safe1 = omega arith; safe2 = omega arith; safe3 = omega arith }

div_step : (r d : ℕ) → 0 < d → d ≤ r → r / d ≡ suc ((r - d) / d)
div_step r d pos h = grind arith

pub div_small : (r d : ℕ) → r < d → r / d ≡ 0
div_small r d h = grind arith

pub sub_ok :
    (x y : Uint256)
    → IsWord x
    → IsWord y
    → IsCarrySafe y
    → to_ℕ y ≤ to_ℕ x
    → sub x y ≡ ok (of_ℕ (to_ℕ x - to_ℕ y))
sub_ok x y w v safe h = rw (sub_exact x y w v safe, le→ltb (to_ℕ x) (to_ℕ y) h) refl

add_one :
    (x : Uint256) → IsWord x → to_ℕ x + 1 < 2 ^ 256 → add x (of_u64 1) ≡ ok (of_ℕ (to_ℕ x + 1))
unfolding of_u64
add_one x w h =
    rw
      (
        add_exact x (of_u64 1) w (of_u64-IsWord 1 (omega arith)) one-IsCarrySafe,
        lt→ltb (to_ℕ x + 1) (2 ^ 256) h,
      )
      refl

loop_stops : (fuel : ℕ) (r y q : Uint256) → ge r y ≡ false → div_loop (suc fuel) r y q ≡ ok q
unfolding div_loop
loop_stops fuel r y q e = rw (e, div_loop)

loop_goes_on :
    (fuel : ℕ) (r y q less more : Uint256)
    → ge r y ≡ true
    → sub r y ≡ ok less
    → add q (of_u64 1) ≡ ok more
    → div_loop (suc fuel) r y q ≡ div_loop fuel less y more
unfolding div_loop
loop_goes_on fuel r y q less more e s a = rw (e, div_loop) (rw (s, a) refl)

pub u64-IsCarrySafe : (n : ℕ) → IsCarrySafe (of_u64 n)
unfolding of_u64
u64-IsCarrySafe n = record { safe1 = omega arith; safe2 = omega arith; safe3 = omega arith }

-- From `q` rounds done the loop ends with the quotient.
pub div_loop_lem :
    (fuel : ℕ) (r y q : Uint256)
    → IsWord r
    → IsWord y
    → IsWord q
    → IsCarrySafe y
    → 0 < to_ℕ y
    → to_ℕ q + to_ℕ r < 2 ^ 256
    → to_ℕ r / to_ℕ y < fuel
    → div_loop fuel r y q ≡ ok (of_ℕ (to_ℕ q + to_ℕ r / to_ℕ y))
div_loop_lem zero r y q wr wy wq safe pos small enough = absurd (omega arith)
div_loop_lem (suc fuel) r y q wr wy wq safe pos small enough =
    elim (Bool-cases (leb (to_ℕ y) (to_ℕ r))) [
      | inl fits ↦
          let h : to_ℕ y ≤ to_ℕ r = leb→le (to_ℕ y) (to_ℕ r) fits in
          let n = to_ℕ r - to_ℕ y in
          let less : to_ℕ (of_ℕ n) ≡ n = to_ℕ-of_ℕ n (omega (arith, to_ℕ-lt r wr)) in
          let more : to_ℕ (of_ℕ (to_ℕ q + 1)) ≡ to_ℕ q + 1 = to_ℕ-of_ℕ (to_ℕ q + 1) (omega arith) in
          let round = div_step (to_ℕ r) (to_ℕ y) pos h in
          loop_goes_on fuel r y q (of_ℕ n) (of_ℕ (to_ℕ q + 1)) (ge_lem r y wr wy ∙ fits)
            (sub_ok r y wr wy safe h) (add_one q wq (omega arith))
          ∙ div_loop_lem fuel (of_ℕ n) y (of_ℕ (to_ℕ q + 1)) (of_ℕ-IsWord n) wy
              (of_ℕ-IsWord (to_ℕ q + 1)) safe pos (omega arith) (rw less (omega arith))
          ∙ ap (λ (m : ℕ). ok (of_ℕ m)) (rw (less, more, round) (omega arith))
      | inr stops ↦
          loop_stops fuel r y q (ge_lem r y wr wy ∙ stops)
          ∙ rw (div_small (to_ℕ r) (to_ℕ y) (leb→lt (to_ℕ y) (to_ℕ r) stops), add-zero (to_ℕ q))
              (ap ok (sym (of_ℕ-to_ℕ q wq)))
    ]
