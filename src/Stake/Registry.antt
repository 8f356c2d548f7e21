-- ===== src/Stake/Registry.antt =====
-- The register of validators of ProofOfStake and its current set, after any calls.
use deo.Prelude.{
  ℕ, ◌≡◌, refl, sym, ◌∙◌, Bool, true, false, Bool-cases, inl, inr, if◌then◌else◌, Option, none,
  some, List, [], ◌∷◌, map, All, arith, incremented,
}
use deo.Prelude.Run.{Run, ok, throws, undefined, no_fuel, Holds, Holds-bind, Holds-if}
use deo.Prelude.Texts.{Text}
use deo.Prelude.Dicts.{
  Dict, lookup, insert, update, erase, IsDict, insert-IsDict, update-IsDict, All-insert, All-update,
  All-lookup, is_some, nothing_there,
}
use deo.Transaction.{is_empty_text}
use deo.Uint256.{Uint256, of_u64, add, sub, lt, le, eq}
use deo.Stake.{
  ValidatorInfo, DelegationInfo, ProofOfStake, or_failed, active_addresses, update_validator_set,
  new_validator_info, register_validator, delegation_key, with_validator, new_delegation,
  delegate_to, delegate_stake,
}
use deo.Stake.Balances.{
  undelegate_from, undelegate_of, undelegate_stake, slashing_amount, slashed, slash_found,
  reward_found, distribute_rewards,
}

abbrev keys_of : Dict ValidatorInfo → List Text
keys_of m = map (λ (kv : Text × ValidatorInfo). kv.0) m

-- A validator stands under its address and is active.
abbrev pub IsRegistered : Text × ValidatorInfo → Type 0
IsRegistered (k, v) = (v.address ≡ k) × (v.is_active ≡ true)

-- The map has no address twice, and the current set lists its keys in their order.
pub record IsRegistry (p : ProofOfStake) : Type 0 where
  pub distinct : IsDict p.validators
  pub registered : All IsRegistered p.validators
  pub current : p.current_validator_set ≡ map (λ (kv : Text × ValidatorInfo). kv.0) p.validators

keys-update :
    (k : Text) (v : ValidatorInfo) (m : Dict ValidatorInfo) → keys_of (update k v m) ≡ keys_of m
unfolding update
keys-update k v [] = refl
keys-update k v ((j, w) ∷ m) = ground (arith, keys-update k v m)

active-keys : (m : Dict ValidatorInfo) → All IsRegistered m → active_addresses m ≡ keys_of m
unfolding active_addresses
active-keys [] h = refl
active-keys ((k, v) ∷ m) ((a, b), h) = ground (arith, b, active-keys m h)

-- A change of a found validator that keeps its address and its activity.
replaced :
    (address : Text) (v w : ValidatorInfo) (p : ProofOfStake)
    → lookup address p.validators ≡ some v
    → w.address ≡ v.address
    → w.is_active ≡ v.is_active
    → IsRegistry p
    → IsRegistry (with_validator address w p)
replaced address v w p e a b r =
    let found = All-lookup IsRegistered address v p.validators r.registered e in
    record {
      distinct = update-IsDict address w p.validators r.distinct;
      registered =
          All-update IsRegistered address w p.validators (a ∙ found.0, b ∙ found.1) r.registered;
      current = r.current ∙ sym (keys-update address w p.validators);
    }

-- What the registry depends on.
pub same_registry :
    (p q : ProofOfStake)
    → p.validators ≡ q.validators
    → p.current_validator_set ≡ q.current_validator_set
    → IsRegistry p
    → IsRegistry q
same_registry p q v c r = record {
  distinct = rw (← v) r.distinct;
  registered = rw (← v) r.registered;
  current = rw (← v, ← c) r.current;
}

abbrev pub Keeps : Bool × ProofOfStake → Type 0
Keeps r = IsRegistry r.1

or_failed-Keeps {ℓ} :
    {A : Type ℓ} (m : Run A) (p : ProofOfStake) (f : A → Run (Bool × ProofOfStake))
    → IsRegistry p
    → ((a : A) → Holds Keeps (f a))
    → Holds Keeps (or_failed m p f)
or_failed-Keeps (ok a) p f r k = k a
or_failed-Keeps (throws e) p f r k = r
or_failed-Keeps undefined p f r k = tt
or_failed-Keeps no_fuel p f r k = tt

pub update_validator_set-IsRegistry :
    (p : ProofOfStake)
    → IsDict p.validators
    → All IsRegistered p.validators
    → IsRegistry (update_validator_set p)
unfolding update_validator_set
update_validator_set-IsRegistry p d r = record {
  distinct = d;
  registered = r;
  current = active-keys p.validators r;
}

pub register_validator-IsRegistry :
    (now : ℕ) (a key : Text) (stake : Uint256) (p : ProofOfStake)
    → IsRegistry p
    → IsRegistry (register_validator now a key stake p).1
unfolding register_validator
register_validator-IsRegistry now a key stake p r = elim (Bool-cases (is_empty_text a)) [
  | inl no_address ↦ rw no_address r
  | inr address ↦ elim (Bool-cases (is_empty_text key)) [
    | inl no_key ↦ rw (address, no_key) r
    | inr has_key ↦ elim (Bool-cases (lt stake p.min_stake)) [
      | inl small ↦ rw (address, has_key, small) r
      | inr enough ↦ elim (Bool-cases (is_some (lookup a p.validators))) [
        | inl known ↦ rw (address, has_key, enough, known) r
        | inr new ↦
            let v = new_validator_info a key stake now in
            rw (address, has_key, enough, new)
              (update_validator_set-IsRegistry (record p { validators = insert a v p.validators })
                (insert-IsDict a v p.validators (nothing_there _ new) r.distinct)
                (All-insert IsRegistered a v p.validators (refl, refl) r.registered))
      ]
    ]
  ]
]

delegate_to-Keeps :
    (now : ℕ) (a b : Text) (amount : Uint256) (found : Option ValidatorInfo) (p : ProofOfStake)
    → lookup b p.validators ≡ found
    → IsRegistry p
    → Holds Keeps (delegate_to now a b amount found p)
unfolding delegate_to
delegate_to-Keeps now a b amount none p e r = r
delegate_to-Keeps now a b amount (some v) p e r =
    let delegated : ProofOfStake = record p {
      delegations = insert (delegation_key a b) (new_delegation a b amount now) p.delegations;
    } in
    let same = same_registry p delegated refl refl r in
    or_failed-Keeps (add v.delegated_stake amount) delegated _ same
      (λ total. replaced b v (record v { delegated_stake = total }) delegated e refl refl same)

pub delegate-Keeps :
    (now : ℕ) (a b : Text) (amount : Uint256) (p : ProofOfStake)
    → IsRegistry p
    → Holds Keeps (delegate_stake now a b amount p)
unfolding delegate_stake
delegate-Keeps now a b amount p r =
    Holds-if Keeps (is_empty_text a) _ _ (λ _. r)
      (λ _.
        Holds-if Keeps (is_empty_text b) _ _ (λ _. r)
          (λ _.
            Holds-if Keeps (le amount (of_u64 0)) _ _ (λ _. r)
              (λ _. delegate_to-Keeps now a b amount (lookup b p.validators) p refl r)))

-- The removal of an empty delegation.
cleaned-IsRegistry :
    (empty : Bool) (key : Text) (p : ProofOfStake)
    → IsRegistry p
    → IsRegistry (if empty then record p { delegations = erase key p.delegations } else p)
cleaned-IsRegistry true key p r =
    same_registry p (record p { delegations = erase key p.delegations }) refl refl r
cleaned-IsRegistry false key p r = r

undelegate_from-Keeps :
    (key b : Text) (amount left : Uint256) (found : Option ValidatorInfo) (p : ProofOfStake)
    → lookup b p.validators ≡ found
    → IsRegistry p
    → Holds Keeps (undelegate_from key b amount left found p)
unfolding undelegate_from
undelegate_from-Keeps key b amount left none p e r = cleaned-IsRegistry (eq left (of_u64 0)) key p r
undelegate_from-Keeps key b amount left (some v) p e r =
    or_failed-Keeps (sub v.stake_amount amount) p _ r (λ stake.
      cleaned-IsRegistry (eq left (of_u64 0)) key
        (with_validator b (record v { stake_amount = stake }) p)
        (replaced b v (record v { stake_amount = stake }) p e refl refl r))

undelegate_of-Keeps :
    (key b : Text) (amount : Uint256) (found : Option DelegationInfo) (p : ProofOfStake)
    → IsRegistry p
    → Holds Keeps (undelegate_of key b amount found p)
unfolding undelegate_of
undelegate_of-Keeps key b amount none p r = r
undelegate_of-Keeps key b amount (some d) p r =
    Holds-if Keeps (lt d.stake_amount amount) _ _ (λ _. r)
      (λ _. or_failed-Keeps (sub d.stake_amount amount) p _ r (λ left.
        let q : ProofOfStake = record p {
          delegations = update key (record d { stake_amount = left }) p.delegations;
        } in
        undelegate_from-Keeps key b amount left (lookup b p.validators) q refl
          (same_registry p q refl refl r)))

pub undelegate-Keeps :
    (a b : Text) (amount : Uint256) (p : ProofOfStake)
    → IsRegistry p
    → Holds Keeps (undelegate_stake a b amount p)
unfolding undelegate_stake
undelegate-Keeps a b amount p r =
    Holds-if Keeps (is_empty_text a) _ _ (λ _. r)
      (λ _.
        Holds-if Keeps (is_empty_text b) _ _ (λ _. r)
          (λ _.
            Holds-if Keeps (le amount (of_u64 0)) _ _ (λ _. r)
              (λ _.
                undelegate_of-Keeps (delegation_key a b) b amount
                  (lookup (delegation_key a b) p.delegations) p r)))

pub slash_found-Keeps :
    (rounds now : ℕ) (a reason : Text) (found : Option ValidatorInfo) (p : ProofOfStake)
    → lookup a p.validators ≡ found
    → IsRegistry p
    → Holds Keeps (slash_found rounds now a reason found p)
unfolding slash_found
slash_found-Keeps rounds now a reason none p e r = r
slash_found-Keeps rounds now a reason (some v) p e r =
    or_failed-Keeps (slashing_amount rounds p.slashing_percentage v.stake_amount) p _ r (λ amount.
      or_failed-Keeps (sub v.stake_amount amount) p _ r (λ left.
        let w : ValidatorInfo = record v {
          stake_amount = left;
          slashing_count = incremented v.slashing_count;
        } in
        same_registry (with_validator a w p) (slashed a reason now amount left v p) refl refl
          (replaced a v w p e refl refl r)))

reward_found-Keeps :
    (a : Text) (amount : Uint256) (found : Option ValidatorInfo) (p : ProofOfStake)
    → lookup a p.validators ≡ found
    → IsRegistry p
    → Holds Keeps (reward_found a amount found p)
unfolding reward_found
reward_found-Keeps a amount none p e r = r
reward_found-Keeps a amount (some v) p e r =
    or_failed-Keeps (add v.stake_amount amount) p _ r (λ stake.
      let paid = with_validator a (record v { stake_amount = stake }) p in
      let kept = replaced a v (record v { stake_amount = stake }) p e refl refl r in
      or_failed-Keeps (add p.total_rewards_distributed amount) paid _ kept (λ total.
        same_registry paid (record paid { total_rewards_distributed = total }) refl refl kept))

pub distribute-Keeps :
    (rewards : Dict Uint256) (p : ProofOfStake)
    → IsRegistry p
    → Holds Keeps (distribute_rewards rewards p)
unfolding distribute_rewards
distribute-Keeps [] p r = r
distribute-Keeps ((a, amount) ∷ rewards) p r =
    Holds-bind Keeps Keeps (reward_found a amount (lookup a p.validators) p) _
      (reward_found-Keeps a amount (lookup a p.validators) p refl r) (go (distribute-Keeps rewards))
  where
    go :
        ((q : ProofOfStake) → IsRegistry q → Holds Keeps (distribute_rewards rewards q))
        → (s : Bool × ProofOfStake) → Keeps s
        → Holds Keeps (elim s.0 [ true ↦ distribute_rewards rewards s.1 | false ↦ ok (false, s.1) ])
    go rest (true, q) k = rest q k
    go rest (false, q) k = k
