-- ===== src/Stake/Slashing.antt =====
-- What slashing and undelegation do to stakes of 64 bits, by the arithmetic of src/vm/uint256.cpp.
use native.Mathlib.Nat.{mul-le-mul_left, div-le_self}
use deo.Prelude.{
  ℕ, ◌-◌, ◌*◌, ◌/◌, ◌≤◌, ◌<◌, ◌≡◌, refl, ◌∙◌, true, ltb, incremented, if◌then◌else◌, some, arith,
}
use deo.Prelude.Run.{ok, throws, sub_underflow}
use deo.Prelude.Texts.{Text, same_text}
use deo.Prelude.Dicts.{lookup, lookup-update}
use deo.Uint256.{radix, of_u64, sub}
use deo.Uint256.Value.{of_ℕ, of_u64-IsWord, to_ℕ-of_u64}
use deo.Uint256.Sum.{IsCarrySafe, sub_exact}
use deo.Uint256.Product.Limbwise.{mul_u64}
use deo.Uint256.Quotient.{div}
use deo.Uint256.Quotient.Division.{div_exact}
use deo.Stake.{ValidatorInfo, ProofOfStake}
use deo.Stake.Balances.{slashing_amount, slashed, slash_found, slash_validator}

of_ℕ-small : (n : ℕ) → n < radix → of_ℕ n ≡ of_u64 n
unfolding of_u64
of_ℕ-small n h = ground arith

of_u64-IsCarrySafe : (n : ℕ) → IsCarrySafe (of_u64 n)
unfolding of_u64
of_u64-IsCarrySafe n = record { safe1 = omega arith; safe2 = omega arith; safe3 = omega arith }

pub sub_u64 :
    (a b : ℕ)
    → a < radix
    → b < radix
    → sub (of_u64 a) (of_u64 b) ≡ (if ltb a b then throws sub_underflow else ok (of_u64 (a - b)))
sub_u64 a b ha hb =
    let raw =
      sub_exact (of_u64 a) (of_u64 b) (of_u64-IsWord a ha) (of_u64-IsWord b hb)
        (of_u64-IsCarrySafe b) in
    raw ∙ rw (to_ℕ-of_u64 a, to_ℕ-of_u64 b, of_ℕ-small (a - b) (omega arith)) refl

div_u64 :
    (rounds a b : ℕ)
    → a < radix
    → b < radix
    → 0 < b
    → a / b < rounds
    → div rounds (of_u64 a) (of_u64 b) ≡ ok (of_u64 (a / b))
div_u64 rounds a b ha hb p h =
    let raw =
      div_exact rounds (of_u64 a) (of_u64 b) (of_u64-IsWord a ha) (of_u64-IsWord b hb)
        (of_u64-IsCarrySafe b) (rw (to_ℕ-of_u64 a, to_ℕ-of_u64 b) h) in
    let least : a / b ≤ a = div-le_self a b in
    raw ∙ rw (to_ℕ-of_u64 a, to_ℕ-of_u64 b, of_ℕ-small (a / b) (omega arith)) (ground arith)

slashing_amount_u64 :
    (rounds percentage s : ℕ)
    → s < radix
    → percentage < radix
    → s * percentage < radix
    → s * percentage / 100 < rounds
    → slashing_amount rounds percentage (of_u64 s) ≡ ok (of_u64 (s * percentage / 100))
unfolding slashing_amount
slashing_amount_u64 rounds percentage s hs hp h enough =
    rw (mul_u64 s percentage hs hp h)
      (div_u64 rounds (s * percentage) 100 h (omega arith) (omega arith) enough)

-- A percentage takes no more than there is.
share_le : (s percentage : ℕ) → percentage ≤ 100 → s * percentage / 100 ≤ s
share_le s percentage h = let bound : s * percentage ≤ s * 100 = mul-le-mul_left s h in omega arith

-- A validator whose stake is a number of 64 bits, and stays one when it is multiplied by the percentage of
-- an engine that takes at most a hundred, loses that percentage of it, rounded down, when it is slashed
-- and the division has enough rounds; its count and the engine's go up by one, modulo 2 ^ 64, and no
-- other validator changes.
pub slash_validator_exact :
    (rounds now s : ℕ) (a reason : Text) (v : ValidatorInfo) (p : ProofOfStake)
    → lookup a p.validators ≡ some v
    → v.stake_amount ≡ of_u64 s
    → s < radix
    → p.slashing_percentage ≤ 100
    → s * p.slashing_percentage < radix
    → s * p.slashing_percentage / 100 < rounds
    → (q : ProofOfStake) × (slash_validator rounds now a reason p ≡ ok (true, q))
      × ((b : Text)
          → lookup b q.validators ≡ (
              if same_text a b
              then some (record v {
                stake_amount = of_u64 (s - s * p.slashing_percentage / 100);
                slashing_count = incremented v.slashing_count;
              })
              else lookup b p.validators))
      × (q.total_slashings ≡ incremented p.total_slashings)
unfolding slash_validator slash_found
slash_validator_exact rounds now s a reason v p found stake hs percent h enough =
    let lost = s * p.slashing_percentage / 100 in
    let least = share_le s p.slashing_percentage percent in
    let amount = slashing_amount_u64 rounds p.slashing_percentage s hs (omega arith) h enough in
    let left : sub (of_u64 s) (of_u64 lost) ≡ ok (of_u64 (s - lost)) =
      sub_u64 s lost hs (omega arith) ∙ ground arith in
    (
      slashed a reason now (of_u64 lost) (of_u64 (s - lost)) v p,
      rw (found, stake, amount, left) refl,
      λ b. lookup-update a b _ v p.validators found,
      refl,
    )
