-- ===== src/Stake/Undelegation.antt =====
-- What undelegateStake does to the delegation and to the stake of the validator.
use deo.Prelude.{
  ℕ, ◌-◌, ◌≤◌, ◌<◌, ◌≡◌, refl, ap, ◌∙◌, Bool, true, false, ◌==◌, ◌&&◌, Bool-cases, inl, inr, ltb,
  leb, if◌then◌else◌, Option, none, some, arith,
}
use deo.Prelude.Run.{Run, ok, throws, sub_underflow}
use deo.Prelude.Texts.{Text, same_text_iff}
use deo.Prelude.Dicts.{
  Dict, lookup, update, erase, IsDict, lookup-update, update-IsDict, lookup-erase_self,
}
use deo.Transaction.{is_empty_text}
use deo.Uint256.{Uint256, radix, of_u64, sub, lt, le, eq}
use deo.Uint256.Value.{of_u64-IsWord, to_ℕ-of_u64}
use deo.Uint256.Order.{lt_lem, le_lem, eq_lem}
use deo.Stake.{ValidatorInfo, DelegationInfo, ProofOfStake, delegation_key, with_validator}
use deo.Stake.Balances.{undelegate_from, undelegate_of, undelegate_stake}
use deo.Stake.Slashing.{sub_u64}

lt_u64 : (x y : ℕ) → x < radix → y < radix → lt (of_u64 x) (of_u64 y) ≡ ltb x y
lt_u64 x y hx hy =
    lt_lem (of_u64 x) (of_u64 y) (of_u64-IsWord x hx) (of_u64-IsWord y hy)
    ∙ rw (to_ℕ-of_u64 x, to_ℕ-of_u64 y) refl

le_u64 : (x y : ℕ) → x < radix → y < radix → le (of_u64 x) (of_u64 y) ≡ leb x y
le_u64 x y hx hy =
    le_lem (of_u64 x) (of_u64 y) (of_u64-IsWord x hx) (of_u64-IsWord y hy)
    ∙ rw (to_ℕ-of_u64 x, to_ℕ-of_u64 y) refl

eq_u64 : (x y : ℕ) → x < radix → y < radix → eq (of_u64 x) (of_u64 y) ≡ (x == y)
eq_u64 x y hx hy =
    eq_lem (of_u64 x) (of_u64 y) (of_u64-IsWord x hx) (of_u64-IsWord y hy)
    ∙ rw (to_ℕ-of_u64 x, to_ℕ-of_u64 y) refl

-- What undelegateStake leaves of a delegation of x, when y is taken of it and of a stake of s.
abbrev remainder : ℕ → ℕ → ℕ → DelegationInfo → Option DelegationInfo
remainder x y s d =
    if leb y s && (x == y) then none else some (record d { stake_amount = of_u64 (x - y) })

abbrev Outcome :
    ℕ → ℕ → ℕ → Text → Text → DelegationInfo → ValidatorInfo → Run (Bool × ProofOfStake) → Type 0
Outcome x y s key b d v run =
    (q : ProofOfStake) × (run ≡ ok (leb y s, q))
    × (lookup b q.validators
        ≡ some (record v { stake_amount = of_u64 (if leb y s then s - y else s) }))
    × (lookup key q.delegations ≡ remainder x y s d)

found_after :
    (k : Text) {V : Type 0} (v w : V) (m : Dict V)
    → lookup k m ≡ some w
    → lookup k (update k v m) ≡ some v
found_after k v w m e = lookup-update k k v w m e ∙ ground (arith, same_text_iff k k)

undelegated :
    (x y s : ℕ) (key b : Text) (d : DelegationInfo) (v : ValidatorInfo) (p : ProofOfStake)
    → IsDict p.delegations
    → lookup key p.delegations ≡ some d
    → lookup b p.validators ≡ some v
    → v.stake_amount ≡ of_u64 s
    → x < radix
    → s < radix
    → y ≤ x
    → Outcome x y s key b d v (
        undelegate_from key b (of_u64 y) (of_u64 (x - y)) (lookup b p.validators) (record p {
          delegations = update key (record d { stake_amount = of_u64 (x - y) }) p.delegations;
        }))
unfolding undelegate_from
undelegated x y s key b d v p dict has_d has_v stake hx hs le_ =
    let e : DelegationInfo = record d { stake_amount = of_u64 (x - y) } in
    let w : ValidatorInfo = record v { stake_amount = of_u64 (s - y) } in
    let p' : ProofOfStake = record p { delegations = update key e p.delegations } in
    let paid : ProofOfStake = with_validator b w p' in
    let left = found_after key e d p.delegations has_d in
    let own = found_after b w v p.validators has_v in
    elim (Bool-cases (leb y s)) [
      | inr short ↦
          let throws_ : sub (of_u64 s) (of_u64 y) ≡ throws sub_underflow =
            sub_u64 s y hs (omega arith) ∙ ground (arith, short) in
          (
            p',
            rw (has_v, stake, throws_, short) refl,
            rw short (has_v ∙ ap (λ (t : Uint256). some (record v { stake_amount = t })) stake),
            rw short left,
          )
      | inl enough ↦
          let takes : sub (of_u64 s) (of_u64 y) ≡ ok (of_u64 (s - y)) =
            sub_u64 s y hs (omega arith) ∙ ground (arith, enough) in
          let empty = eq_u64 (x - y) 0 (omega arith) (omega arith) in
          elim (Bool-cases (x == y)) [
            | inl all ↦
                let none_left : eq (of_u64 (x - y)) (of_u64 0) ≡ true =
                  empty ∙ ground (arith, all) in
                (
                  record paid { delegations = erase key paid.delegations },
                  rw (has_v, stake, takes, enough, none_left) refl,
                  rw enough own,
                  rw (enough, all)
                      (lookup-erase_self key paid.delegations
                        (update-IsDict key e p.delegations dict)),
                )
            | inr some_ ↦
                let some_left : eq (of_u64 (x - y)) (of_u64 0) ≡ false =
                  empty ∙ ground (arith, some_) in
                (
                  paid,
                  rw (has_v, stake, takes, enough, some_left) refl,
                  rw enough own,
                  rw (enough, some_) left,
                )
          ]
    ]

-- Undelegating y > 0 of a delegation of x, no less, to a validator with a stake of its own of s, all
-- numbers of 64 bits, takes y of the delegation, and drops it where nothing is left; it takes y of the
-- validator's own stake too, and leaves what was delegated to it as it was. Where s is less than y the
-- call answers false and the validator keeps its stake, but the delegation has lost y all the same.
pub undelegate_stake_exact :
    (x y s : ℕ) (a b : Text) (d : DelegationInfo) (v : ValidatorInfo) (p : ProofOfStake)
    → is_empty_text a ≡ false
    → is_empty_text b ≡ false
    → IsDict p.delegations
    → lookup (delegation_key a b) p.delegations ≡ some d
    → d.stake_amount ≡ of_u64 x
    → lookup b p.validators ≡ some v
    → v.stake_amount ≡ of_u64 s
    → x < radix
    → s < radix
    → 0 < y
    → y ≤ x
    → (q : ProofOfStake) × (undelegate_stake a b (of_u64 y) p ≡ ok (leb y s, q))
      × (lookup b q.validators
          ≡ some (record v { stake_amount = of_u64 (if leb y s then s - y else s) }))
      × (lookup (delegation_key a b) q.delegations ≡ (
          if leb y s && (x == y) then none else some (record d { stake_amount = of_u64 (x - y) })))
unfolding undelegate_stake undelegate_of
undelegate_stake_exact x y s a b d v p has_a has_b dict has_d delegated has_v stake hx hs positive
      le_ =
    let key = delegation_key a b in
    let not_zero : le (of_u64 y) (of_u64 0) ≡ false =
      le_u64 y 0 (omega arith) (omega arith) ∙ ground arith in
    let enough : lt (of_u64 x) (of_u64 y) ≡ false = lt_u64 x y hx (omega arith) ∙ ground arith in
    let taken : sub (of_u64 x) (of_u64 y) ≡ ok (of_u64 (x - y)) =
      sub_u64 x y hx (omega arith) ∙ ground arith in
    let run : undelegate_stake a b (of_u64 y) p
        ≡ undelegate_from key b (of_u64 y) (of_u64 (x - y)) (lookup b p.validators) (record p {
          delegations = update key (record d { stake_amount = of_u64 (x - y) }) p.delegations;
        }) =
      rw (has_a, has_b, not_zero, has_d, delegated, enough, taken) refl in
    rw run (undelegated x y s key b d v p dict has_d has_v stake hx hs le_)
