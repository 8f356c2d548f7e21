-- ===== src/Stake/Balances.antt =====
-- What undelegates, slashes, rewards and measures stakes in src/consensus/proof_of_stake.cpp.
use deo.Prelude.{
  ℕ, ◌+◌, ◌*◌, ◌%◌, ◌^◌, Bool, true, false, ◌==◌, not, if◌then◌else◌, Option, none, some, List, [],
  ◌∷◌, ◌++◌, length, get_or, incremented,
}
use deo.Prelude.Run.{Run, ok, throws, undefined, no_fuel, ◌>>=◌}
use deo.Prelude.Texts.{Text, same_text}
use deo.Prelude.Dicts.{Dict, lookup, insert, update, erase}
use deo.Transaction.{is_empty_text}
use deo.Uint256.{Uint256, of_u64, add, sub, lt, le, ge, eq}
use deo.Uint256.Product.{mul}
use deo.Uint256.Quotient.{div}
use deo.Stake.{
  ValidatorInfo, DelegationInfo, SlashingEvent, ProofOfStake, or_failed, delegation_key,
  with_validator,
}

-- The stake of the validator, where the map has it, and then the removal of an empty delegation.
unfoldable pub undelegate_from :
    Text
    → Text
    → Uint256
    → Uint256
    → Option ValidatorInfo
    → ProofOfStake
    → Run (Bool × ProofOfStake)
undelegate_from key validator_address amount left none p =
    ok (true, if eq left (of_u64 0) then record p { delegations = erase key p.delegations } else p)
undelegate_from key validator_address amount left (some v) p =
    or_failed (sub v.stake_amount amount) p (λ stake.
      let q = with_validator validator_address (record v { stake_amount = stake }) p in
      ok (
        true,
        if eq left (of_u64 0) then record q { delegations = erase key q.delegations } else q,
      ))

unfoldable pub undelegate_of :
    Text → Text → Uint256 → Option DelegationInfo → ProofOfStake → Run (Bool × ProofOfStake)
unfolding undelegate_from
undelegate_of key validator_address amount none p = ok (false, p)
undelegate_of key validator_address amount (some d) p =
    let taken = or_failed (sub d.stake_amount amount) p (λ left.
      undelegate_from key validator_address amount left (lookup validator_address p.validators)
        (record p { delegations = update key (record d { stake_amount = left }) p.delegations })) in
    if lt d.stake_amount amount then ok (false, p) else taken

unfoldable pub undelegate_stake : Text → Text → Uint256 → ProofOfStake → Run (Bool × ProofOfStake)
unfolding undelegate_of
undelegate_stake delegator_address validator_address amount p =
    let key = delegation_key delegator_address validator_address in
    let undelegated = undelegate_of key validator_address amount (lookup key p.delegations) p in
    if is_empty_text delegator_address
    then ok (false, p)
    else if is_empty_text validator_address
    then ok (false, p)
    else if le amount (of_u64 0)
    then ok (false, p)
    else undelegated

-- The sum of the stakes of the active validators.
unfoldable pub sum_stakes : Dict ValidatorInfo → Uint256 → Run Uint256
sum_stakes [] total = ok total
sum_stakes ((address, v) ∷ m) total =
    if v.is_active
    then (add total v.stake_amount >>= λ sum. sum_stakes m sum)
    else sum_stakes m total

-- The try block of a call that answers zero on an exception.
abbrev pub or_zero : Run Uint256 → Run Uint256
or_zero (ok a) = ok a
or_zero (throws e) = ok (of_u64 0)
or_zero undefined = undefined
or_zero no_fuel = no_fuel

unfoldable pub get_total_stake : ProofOfStake → Run Uint256
unfolding sum_stakes
get_total_stake p = or_zero (sum_stakes p.validators (of_u64 0))

unfoldable pub reward_of : ℕ → ValidatorInfo → Uint256 → Run Uint256
reward_of rounds v total =
    let share = mul v.stake_amount (of_u64 100) >>= λ scaled. div rounds scaled total in
    if eq total (of_u64 0) then ok (of_u64 0) else share

unfoldable pub calculate_rewards : ℕ → Text → ProofOfStake → Run Uint256
unfolding sum_stakes reward_of
calculate_rewards rounds validator_address p = elim (lookup validator_address p.validators) [
  | none ↦ ok (of_u64 0)
  | some v ↦ or_zero (sum_stakes p.validators (of_u64 0) >>= λ total. reward_of rounds v total)
]

-- The amount that slashing takes of a stake.
unfoldable pub slashing_amount : ℕ → ℕ → Uint256 → Run Uint256
slashing_amount rounds percentage stake =
    mul stake (of_u64 percentage) >>= λ scaled. div rounds scaled (of_u64 100)

abbrev pub slashed :
    Text → Text → ℕ → Uint256 → Uint256 → ValidatorInfo → ProofOfStake → ProofOfStake
slashed validator_address reason now amount left v p = record p {
  validators =
      update validator_address
        (record v { stake_amount = left; slashing_count = incremented v.slashing_count })
        p.validators;
  slashing_history =
      p.slashing_history
      ++ (record {
        validator_address = validator_address;
        reason = reason;
        slashed_amount = amount;
        slashing_time = now;
      })
        ∷ [];
  total_slashings = incremented p.total_slashings;
}

unfoldable pub slash_found :
    ℕ → ℕ → Text → Text → Option ValidatorInfo → ProofOfStake → Run (Bool × ProofOfStake)
unfolding slashing_amount
slash_found rounds now validator_address reason none p = ok (false, p)
slash_found rounds now validator_address reason (some v) p =
    or_failed (slashing_amount rounds p.slashing_percentage v.stake_amount) p (λ amount.
      or_failed (sub v.stake_amount amount) p
        (λ left. ok (true, slashed validator_address reason now amount left v p)))

unfoldable pub slash_validator : ℕ → ℕ → Text → Text → ProofOfStake → Run (Bool × ProofOfStake)
unfolding slash_found
slash_validator rounds now validator_address reason p =
    slash_found rounds now validator_address reason (lookup validator_address p.validators) p

-- selectBlockProposer: it moves on before it names one.
unfoldable pub select_block_proposer : ProofOfStake → Text × ProofOfStake
select_block_proposer p =
    let index = (p.proposer_index + 1) % length p.current_validator_set in
    if length p.current_validator_set == 0
    then ([], p)
    else (get_or p.current_validator_set index [], record p { proposer_index = index })

-- getDelegations, of a validator.
unfoldable pub delegations_to : Text → Dict DelegationInfo → Dict Uint256 → Dict Uint256
delegations_to validator_address [] found = found
delegations_to validator_address ((key, d) ∷ m) found = delegations_to validator_address m (
    if same_text d.validator_address validator_address
    then insert d.delegator_address d.stake_amount found
    else found)

unfoldable pub get_delegations : Text → ProofOfStake → Dict Uint256
unfolding delegations_to
get_delegations validator_address p = delegations_to validator_address p.delegations []

unfoldable pub slashings_of : Text → List SlashingEvent → List SlashingEvent
slashings_of validator_address [] = []
slashings_of validator_address (event ∷ events) =
    let later = slashings_of validator_address events in
    if same_text event.validator_address validator_address then event ∷ later else later

unfoldable pub get_slashing_history : Text → ProofOfStake → List SlashingEvent
unfolding slashings_of
get_slashing_history validator_address p = slashings_of validator_address p.slashing_history

-- getMiningDifficulty, of 32 bits.
unfoldable pub get_mining_difficulty : ProofOfStake → ℕ
get_mining_difficulty p = length p.validators * 1000 % 2 ^ 32

-- getStakeDistribution: the own stake and every delegation, with no try block.
unfoldable pub add_delegations : Text → Dict DelegationInfo → Uint256 → Run Uint256
add_delegations address [] total = ok total
add_delegations address ((key, d) ∷ m) total =
    if same_text d.validator_address address
    then (add total d.stake_amount >>= λ sum. add_delegations address m sum)
    else add_delegations address m total

unfoldable pub distribution_from :
    Dict ValidatorInfo → Dict DelegationInfo → Dict Uint256 → Run (Dict Uint256)
unfolding add_delegations
distribution_from [] delegations found = ok found
distribution_from ((address, v) ∷ m) delegations found = do
  total ← add_delegations address delegations v.stake_amount
  distribution_from m delegations (insert address total found)

unfoldable pub get_stake_distribution : ProofOfStake → Run (Dict Uint256)
unfolding distribution_from
get_stake_distribution p = distribution_from p.validators p.delegations []

-- A round of distributeRewards; the stake is kept where the sum of all rewards throws.
unfoldable pub reward_found :
    Text → Uint256 → Option ValidatorInfo → ProofOfStake → Run (Bool × ProofOfStake)
reward_found address amount none p = ok (true, p)
reward_found address amount (some v) p = or_failed (add v.stake_amount amount) p (λ stake.
    let paid = with_validator address (record v { stake_amount = stake }) p in
    or_failed (add p.total_rewards_distributed amount) paid
      (λ total. ok (true, record paid { total_rewards_distributed = total })))

unfoldable pub distribute_rewards : Dict Uint256 → ProofOfStake → Run (Bool × ProofOfStake)
unfolding reward_found
distribute_rewards [] p = ok (true, p)
distribute_rewards ((address, amount) ∷ rewards) p =
    reward_found address amount (lookup address p.validators) p >>= λ r. elim r.0 [
      | true ↦ distribute_rewards rewards r.1
      | false ↦ ok (false, r.1)
    ]

unfoldable pub update_epoch : ℕ → ProofOfStake → ProofOfStake
update_epoch epoch_number p = record p { current_epoch = epoch_number }

unfoldable pub is_valid_validator : Text → ProofOfStake → Bool
is_valid_validator validator_address p = elim (lookup validator_address p.validators) [
  | none ↦ false
  | some v ↦ v.is_active
]

unfoldable pub has_minimum_stake : Text → ProofOfStake → Bool
has_minimum_stake validator_address p = elim (lookup validator_address p.validators) [
  | none ↦ false
  | some v ↦ ge v.stake_amount p.min_stake
]

-- "validator1_address", which stands for the proposer of every block.
abbrev pub assumed_proposer : Text
assumed_proposer =
    b'v' ∷ b'a' ∷ b'l' ∷ b'i' ∷ b'd' ∷ b'a' ∷ b't' ∷ b'o' ∷ b'r' ∷ b'1' ∷ b'_' ∷ b'a' ∷ b'd' ∷ b'd'
    ∷ b'r' ∷ b'e' ∷ b's' ∷ b's' ∷ []

-- validateBlock, of the height of a block that may be null.
unfoldable pub validate_block : Option ℕ → ProofOfStake → Bool
unfolding is_valid_validator has_minimum_stake
validate_block none p = false
validate_block (some height) p =
    if height == 0
    then false
    else if not (is_valid_validator assumed_proposer p)
    then false
    else if not (has_minimum_stake assumed_proposer p)
    then false
    else true
