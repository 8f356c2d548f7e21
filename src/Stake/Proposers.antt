-- ===== src/Stake/Proposers.antt =====
-- The states that the calls of ProofOfStake lead to, and the proposers that they name.
use native.Mathlib.Nat.{mod-lt}
use deo.Prelude.{
  ℕ, zero, suc, ◌+◌, ◌<◌, ◌%◌, ◌≡◌, refl, ap, ◌∙◌, Bool, true, ◌==◌, Bool-cases, inl, inr, Option,
  none, some, List, [], ◌∷◌, length, map, get_or, arith,
}
use deo.Prelude.Run.{ok, Holds_at}
use deo.Prelude.Texts.{Text, same_text_iff}
use deo.Prelude.Dicts.{Dict, is_some, lookup, IsDict, All-lookup}
use deo.Uint256.{Uint256}
use deo.Stake.{
  ValidatorInfo, ProofOfStake, new_proof_of_stake, initialize, shutdown, register_validator,
  start_consensus, delegate_stake,
}
use deo.Stake.Balances.{
  undelegate_stake, slash_validator, select_block_proposer, distribute_rewards, update_epoch,
}
use deo.Stake.Registry.{
  IsRegistered, IsRegistry, same_registry, update_validator_set-IsRegistry,
  register_validator-IsRegistry, delegate-Keeps, undelegate-Keeps, slash_found-Keeps,
  distribute-Keeps, Keeps,
}

-- The calls that change an engine. A call on another engine may change the shared index.
pub data Step : ProofOfStake → ProofOfStake → Type 0 where
  initializes : {p : ProofOfStake} → Step p (initialize p)
  shuts_down : {p : ProofOfStake} → Step p (shutdown p)
  starts_consensus : {p : ProofOfStake} → Step p (start_consensus p)
  registers :
      {p : ProofOfStake} (now : ℕ) (a key : Text) (stake : Uint256)
      → Step p (register_validator now a key stake p).1
  delegates :
      {p : ProofOfStake} (now : ℕ) (a b : Text) (amount : Uint256) (r : Bool × ProofOfStake)
      → delegate_stake now a b amount p ≡ ok r
      → Step p r.1
  undelegates :
      {p : ProofOfStake} (a b : Text) (amount : Uint256) (r : Bool × ProofOfStake)
      → undelegate_stake a b amount p ≡ ok r
      → Step p r.1
  slashes :
      {p : ProofOfStake} (rounds now : ℕ) (a reason : Text) (r : Bool × ProofOfStake)
      → slash_validator rounds now a reason p ≡ ok r
      → Step p r.1
  rewards :
      {p : ProofOfStake} (amounts : Dict Uint256) (r : Bool × ProofOfStake)
      → distribute_rewards amounts p ≡ ok r
      → Step p r.1
  proposes : {p : ProofOfStake} → Step p (select_block_proposer p).1
  shares : {p : ProofOfStake} (index : ℕ) → Step p (record p { proposer_index = index })
  moves_on : {p : ProofOfStake} (epoch : ℕ) → Step p (update_epoch epoch p)

pub data Reach : ProofOfStake → Type 0 where
  starts :
      (min_stake : Uint256) (max_validators epoch_length percentage index : ℕ)
      → Reach (new_proof_of_stake min_stake max_validators epoch_length percentage index)
  steps : {p q : ProofOfStake} → Reach p → Step p q → Reach q

empty_registry :
    (p : ProofOfStake) → p.validators ≡ [] → p.current_validator_set ≡ [] → IsRegistry p
unfolding IsDict
empty_registry p v c = record { distinct = rw v tt; registered = rw v tt; current = rw (v, c) refl }

select_block_proposer-IsRegistry :
    (p : ProofOfStake) → IsRegistry p → IsRegistry (select_block_proposer p).1
unfolding select_block_proposer
select_block_proposer-IsRegistry p r = elim (Bool-cases (length p.current_validator_set == 0)) [
  | inl none_ ↦ rw none_ r
  | inr some_ ↦ rw some_ (
      same_registry p
        (record p { proposer_index = (p.proposer_index + 1) % length p.current_validator_set }) refl
        refl r)
]

Step-IsRegistry : {p q : ProofOfStake} → Step p q → IsRegistry p → IsRegistry q
unfolding initialize shutdown start_consensus slash_validator update_epoch
Step-IsRegistry (initializes {p}) k = empty_registry (initialize p) refl refl
Step-IsRegistry (shuts_down {p}) k = empty_registry (shutdown p) refl refl
Step-IsRegistry (starts_consensus {p}) k = update_validator_set-IsRegistry p k.distinct k.registered
Step-IsRegistry (registers {p} now a key stake) k =
    register_validator-IsRegistry now a key stake p k
Step-IsRegistry (delegates {p} now a b amount r e) k =
    Holds_at Keeps (delegate_stake now a b amount p) r (delegate-Keeps now a b amount p k) e
Step-IsRegistry (undelegates {p} a b amount r e) k =
    Holds_at Keeps (undelegate_stake a b amount p) r (undelegate-Keeps a b amount p k) e
Step-IsRegistry (slashes {p} rounds now a reason r e) k =
    Holds_at Keeps (slash_validator rounds now a reason p) r
      (slash_found-Keeps rounds now a reason (lookup a p.validators) p refl k) e
Step-IsRegistry (rewards {p} amounts r e) k =
    Holds_at Keeps (distribute_rewards amounts p) r (distribute-Keeps amounts p k) e
Step-IsRegistry (proposes {p}) k = select_block_proposer-IsRegistry p k
Step-IsRegistry (shares {p} index) k =
    same_registry p (record p { proposer_index = index }) refl refl k
Step-IsRegistry (moves_on {p} epoch) k =
    same_registry p (record p { current_epoch = epoch }) refl refl k

-- Whatever calls are made of a new engine, its map of validators has no address twice, each validator
-- stands in it under its own address and is active, and the current set lists the addresses of the map in
-- their order.
pub Reach-IsRegistry : {p : ProofOfStake} → Reach p → IsRegistry p
Reach-IsRegistry (starts min_stake max_validators epoch_length percentage index) =
    empty_registry (new_proof_of_stake min_stake max_validators epoch_length percentage index) refl
      refl
Reach-IsRegistry (steps r s) = Step-IsRegistry s (Reach-IsRegistry r)

abbrev keys_of : Dict ValidatorInfo → List Text
keys_of m = map (λ (kv : Text × ValidatorInfo). kv.0) m

key_found :
    (m : Dict ValidatorInfo) (i : ℕ)
    → i < length m
    → is_some (lookup (get_or (keys_of m) i []) m) ≡ true
unfolding lookup
key_found [] i h = absurd (omega (arith, h))
key_found ((k, v) ∷ m) zero h = ground (arith, same_text_iff k k)
key_found ((k, v) ∷ m) (suc i) h = ground (arith, key_found m i (omega arith))

what_is_there :
    (found : Option ValidatorInfo) → is_some found ≡ true → (v : ValidatorInfo) × (found ≡ some v)
what_is_there none e = absurd (cc)
what_is_there (some v) e = (v, refl)

length-keys : (m : Dict ValidatorInfo) → length (keys_of m) ≡ length m
length-keys [] = refl
length-keys (x ∷ m) = ap suc (length-keys m)

named_proposer :
    (p : ProofOfStake)
    → 0 < length p.current_validator_set
    → (select_block_proposer p).0
      ≡ get_or p.current_validator_set ((p.proposer_index + 1) % length p.current_validator_set) []
unfolding select_block_proposer
named_proposer p h = ground arith

-- While an engine that any calls have led to has a validator, selectBlockProposer names the address of a
-- validator that its map has and that is active.
pub select_block_proposer-IsRegistered :
    {p : ProofOfStake}
    → Reach p
    → 0 < length p.validators
    → (v : ValidatorInfo) × (lookup (select_block_proposer p).0 p.validators ≡ some v)
      × (v.address ≡ (select_block_proposer p).0)
      × (v.is_active ≡ true)
select_block_proposer-IsRegistered {p} r h =
    let k = Reach-IsRegistry r in
    let size : length p.current_validator_set ≡ length p.validators =
      ap length k.current ∙ length-keys p.validators in
    let i = (p.proposer_index + 1) % length p.current_validator_set in
    let below : i < length p.current_validator_set =
      mod-lt (p.proposer_index + 1) (omega (arith, size)) in
    let name : (select_block_proposer p).0 ≡ get_or (keys_of p.validators) i [] =
      named_proposer p (omega (arith, size))
      ∙ ap (λ (set : List Text). get_or set i []) k.current in
    let (v, found) =
      what_is_there (lookup (select_block_proposer p).0 p.validators)
        (rw name (key_found p.validators i (omega (arith, below, size)))) in
    let registered =
      All-lookup IsRegistered (select_block_proposer p).0 v p.validators k.registered found in
    (v, found, registered.0, registered.1)
