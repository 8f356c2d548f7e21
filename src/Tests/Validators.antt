-- ===== src/Tests/Validators.antt =====
-- The theorems on proof of authority and proof of stake at engines with two validators.
use mathlib.Core.List.{Perm}
use mathlib.Core.List.Perm
use deo.Prelude.{
  ◌-◌, ◌*◌, ◌/◌, ◌%◌, ◌≡◌, refl, Bool, true, false, ◌==◌, ◌&&◌, inl, inr, Bool-cases, leb,
  incremented, if◌then◌else◌, none, some, List, [], ◌∷◌, ◌++◌, length, take, drop, arith,
}
use deo.Prelude.Run.{ok}
use deo.Prelude.Texts.{Text, same_text}
use deo.Prelude.Dicts.{lookup, insert, IsDict}
use deo.Uint256.{of_u64, lt, lt_limb}
use deo.Authority.{
  Validator, ProofOfAuthority, new_validator, new_proof_of_authority, active_of, has_address,
  by_priority, add_validator, is_authorized_validator, set_validator_active,
}
use deo.Authority.Rotation.{turns, active_addresses, turns-drop-take}
use deo.Authority.Members as Members
use deo.Authority.Members.{Reach-IsUnique, set_validator_active-is_authorized}
use deo.Stake.{
  ValidatorInfo, DelegationInfo, ProofOfStake, new_proof_of_stake, new_validator_info,
  new_delegation, register_validator, delegation_key,
}
use deo.Stake.Balances.{slash_validator, undelegate_stake}
use deo.Stake.Registry.{IsRegistry}
use deo.Stake.Proposers.{Step, Reach, Reach-IsRegistry}
use deo.Stake.Slashing.{slash_validator_exact}
use deo.Stake.Undelegation.{undelegate_stake_exact}

-- A sort that puts the first of two in order.
abbrev sort_two : (Validator → Validator → Bool) → List Validator → List Validator
sort_two less (a ∷ b ∷ []) = if less b a then b ∷ a ∷ [] else a ∷ b ∷ []
sort_two less l = l

sort_two-Perm : (l : List Validator) → Perm (sort_two by_priority l) l
sort_two-Perm [] = Perm.refl []
sort_two-Perm (a ∷ []) = Perm.refl (a ∷ [])
sort_two-Perm (a ∷ b ∷ []) = elim (Bool-cases (by_priority b a)) [
  | inl swapped ↦ rw swapped (Perm.swap a b [])
  | inr kept ↦ rw kept (Perm.refl (a ∷ b ∷ []))
]
sort_two-Perm (a ∷ b ∷ c ∷ l) = Perm.refl (a ∷ b ∷ c ∷ l)

abbrev alice : Text
alice = b'A' ∷ []

abbrev bob : Text
bob = b'B' ∷ []

abbrev two_authorities : ProofOfAuthority
two_authorities =
    (add_validator sort_two (new_validator bob [] [] 5)
      (add_validator sort_two (new_validator alice [] [] 3) new_proof_of_authority).1).1

two_authorities-Reach : Members.Reach sort_two two_authorities
two_authorities-Reach =
    Members.Reach.steps
      (Members.Reach.steps Members.Reach.starts (Members.Step.adds (new_validator alice [] [] 3)))
      (Members.Step.adds (new_validator bob [] [] 5))

two_active : active_addresses two_authorities ≡ alice ∷ bob ∷ []
unfolding active_addresses active_of add_validator has_address same_text
two_active = refl

turns-drop-take_example :
    turns 7 (length (active_addresses two_authorities)) two_authorities
    ≡ drop (7 % length (active_addresses two_authorities)) (active_addresses two_authorities)
      ++ take (7 % length (active_addresses two_authorities)) (active_addresses two_authorities)
turns-drop-take_example = turns-drop-take 7 two_authorities (rw two_active (omega arith))

known_alice : has_address alice two_authorities.validators ≡ true
unfolding add_validator has_address same_text
known_alice = refl

set_validator_active-is_authorized_example :
    is_authorized_validator bob (set_validator_active alice false two_authorities).1
    ≡ (if same_text alice bob then false else is_authorized_validator bob two_authorities)
set_validator_active-is_authorized_example =
    set_validator_active-is_authorized sort_two sort_two-Perm alice bob false two_authorities-Reach
      known_alice

abbrev staked : ProofOfStake
staked =
    (register_validator 1 alice alice (of_u64 1000) (new_proof_of_stake (of_u64 100) 100 100 5 0)).1

staked-Reach : Reach staked
staked-Reach =
    Reach.steps (Reach.starts (of_u64 100) 100 100 5 0) (Step.registers 1 alice alice (of_u64 1000))

Reach-IsRegistry_example : IsRegistry staked
Reach-IsRegistry_example = Reach-IsRegistry staked-Reach

staked_alone : length staked.validators ≡ 1
unfolding register_validator lt of_u64 lt_limb lookup insert
staked_alone = refl

abbrev staker : ValidatorInfo
staker = new_validator_info alice alice (of_u64 1000) 1

abbrev delegation : DelegationInfo
delegation = new_delegation bob alice (of_u64 400) 2

-- An engine that slashes five percent, with a delegation of 400 to a stake of 1000.
abbrev delegated : ProofOfStake
delegated = record (new_proof_of_stake (of_u64 100) 100 100 5 0) {
  validators = (alice, staker) ∷ [];
  delegations = (delegation_key bob alice, delegation) ∷ [];
}

has_staker : lookup alice delegated.validators ≡ some staker
unfolding lookup same_text
has_staker = refl

has_delegation : lookup (delegation_key bob alice) delegated.delegations ≡ some delegation
unfolding lookup same_text
has_delegation = refl

delegated-IsDict : IsDict delegated.delegations
unfolding IsDict lookup
delegated-IsDict = (refl, tt)

slash_validator_exact_example :
    (q : ProofOfStake) × (slash_validator 60 3 alice bob delegated ≡ ok (true, q))
    × ((b : Text)
        → lookup b q.validators ≡ (
            if same_text alice b
            then some (record staker {
              stake_amount = of_u64 (1000 - 1000 * delegated.slashing_percentage / 100);
              slashing_count = incremented staker.slashing_count;
            })
            else lookup b delegated.validators))
    × (q.total_slashings ≡ incremented delegated.total_slashings)
slash_validator_exact_example =
    slash_validator_exact 60 3 1000 alice bob staker delegated has_staker refl (omega arith)
      (omega arith) (omega arith) (omega arith)

undelegate_stake_exact_example :
    (q : ProofOfStake) × (undelegate_stake bob alice (of_u64 400) delegated ≡ ok (leb 400 1000, q))
    × (lookup alice q.validators
        ≡ some
            (record staker { stake_amount = of_u64 (if leb 400 1000 then 1000 - 400 else 1000) }))
    × (lookup (delegation_key bob alice) q.delegations ≡ (
        if leb 400 1000 && (400 == 400)
        then none
        else some (record delegation { stake_amount = of_u64 (400 - 400) })))
undelegate_stake_exact_example =
    undelegate_stake_exact 400 400 1000 bob alice delegation staker delegated refl refl
      delegated-IsDict has_delegation refl has_staker refl (omega arith) (omega arith) (omega arith)
      (omega arith)
