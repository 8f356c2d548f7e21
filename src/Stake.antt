-- ===== src/Stake.antt =====
-- ProofOfStake of include/consensus/proof_of_stake.h and src/consensus/proof_of_stake.cpp: validators,
-- delegations, slashing and rewards. Its mutex makes each method one step. A stake is a word of
-- src/vm/uint256.cpp. The clock is a parameter; a division of stakes takes the fuel `rounds`.
pub mod Balances
pub mod Registry
pub mod Proposers
pub mod Slashing
pub mod Undelegation
use deo.Prelude.{
  ℕ, zero, suc, ◌+◌, ◌*◌, ◌%◌, ◌^◌, Bool, true, false, ◌==◌, not, if◌then◌else◌, Option, none, some,
  List, [], ◌∷◌, ◌++◌, length, get_or, replicate,
}
use deo.Prelude.Run.{Run, ok, throws, undefined, no_fuel, ◌>>=◌}
use deo.Prelude.Texts.{Text, same_text}
use deo.Prelude.Dicts.{is_some, nothing_there, Dict, lookup, insert, update}
use deo.Transaction.{is_empty_text}
use deo.Uint256.{Uint256, of_u64, add, sub, lt, le, ge, eq, to_u64}
use deo.Uint256.Product.{mul}
use deo.Uint256.Quotient.{div}

pub record ValidatorInfo : Type 0 where
  pub address : Text
  pub public_key : Text
  pub stake_amount : Uint256
  pub delegated_stake : Uint256
  pub commission_rate : ℕ
  pub is_active : Bool
  pub last_block_height : ℕ
  pub slashing_count : ℕ
  pub total_rewards : Uint256
  pub registration_time : ℕ
  pub blocks_proposed : ℕ

pub record DelegationInfo : Type 0 where
  pub delegator_address : Text
  pub validator_address : Text
  pub stake_amount : Uint256
  pub start_height : ℕ
  pub is_active : Bool
  pub delegation_time : ℕ

-- The evidence of an event is never set.
pub record SlashingEvent : Type 0 where
  pub validator_address : Text
  pub reason : Text
  pub slashed_amount : Uint256
  pub slashing_time : ℕ

-- The members, and the static index of selectBlockProposer, which all engines share.
pub record ProofOfStake : Type 0 where
  pub min_stake : Uint256
  pub max_validators : ℕ
  pub epoch_length : ℕ
  pub slashing_percentage : ℕ
  pub validators : Dict ValidatorInfo
  pub delegations : Dict DelegationInfo
  pub slashing_history : List SlashingEvent
  pub current_epoch : ℕ
  pub epoch_start_height : ℕ
  pub current_validator_set : List Text
  pub total_blocks_proposed : ℕ
  pub total_slashings : ℕ
  pub total_rewards_distributed : Uint256
  pub proposer_index : ℕ

abbrev pub new_proof_of_stake : Uint256 → ℕ → ℕ → ℕ → ℕ → ProofOfStake
new_proof_of_stake min_stake max_validators epoch_length slashing_percentage index = record {
  min_stake = min_stake;
  max_validators = max_validators;
  epoch_length = epoch_length;
  slashing_percentage = slashing_percentage;
  validators = [];
  delegations = [];
  slashing_history = [];
  current_epoch = 0;
  epoch_start_height = 0;
  current_validator_set = [];
  total_blocks_proposed = 0;
  total_slashings = 0;
  total_rewards_distributed = of_u64 0;
  proposer_index = index;
}

unfoldable pub initialize : ProofOfStake → ProofOfStake
initialize p = record p {
  validators = [];
  delegations = [];
  slashing_history = [];
  current_epoch = 0;
  epoch_start_height = 0;
  current_validator_set = [];
  total_blocks_proposed = 0;
  total_slashings = 0;
  total_rewards_distributed = of_u64 0;
}

unfoldable pub shutdown : ProofOfStake → ProofOfStake
shutdown p = record p {
  validators = [];
  delegations = [];
  slashing_history = [];
  current_validator_set = [];
}

-- What the try block of a call does with an exception.
abbrev pub or_failed {ℓ} :
    {A : Type ℓ}
    → Run A
    → ProofOfStake
    → (A → Run (Bool × ProofOfStake))
    → Run (Bool × ProofOfStake)
or_failed (ok a) p go_on = go_on a
or_failed (throws e) p go_on = ok (false, p)
or_failed undefined p go_on = undefined
or_failed no_fuel p go_on = no_fuel

-- getActiveValidators and getValidatorSet.
unfoldable pub active_addresses : Dict ValidatorInfo → List Text
active_addresses [] = []
active_addresses ((address, v) ∷ m) =
    let later = active_addresses m in if v.is_active then address ∷ later else later

unfoldable pub update_validator_set : ProofOfStake → ProofOfStake
unfolding active_addresses
update_validator_set p = record p { current_validator_set = active_addresses p.validators }

abbrev pub new_validator_info : Text → Text → Uint256 → ℕ → ValidatorInfo
new_validator_info validator_address public_key stake_amount now = record {
  address = validator_address;
  public_key = public_key;
  stake_amount = stake_amount;
  delegated_stake = of_u64 0;
  commission_rate = 0;
  is_active = true;
  last_block_height = 0;
  slashing_count = 0;
  total_rewards = of_u64 0;
  registration_time = now;
  blocks_proposed = 0;
}

unfoldable pub register_validator : ℕ → Text → Text → Uint256 → ProofOfStake → Bool × ProofOfStake
unfolding update_validator_set
register_validator now validator_address public_key stake_amount p =
    if is_empty_text validator_address
    then (false, p)
    else if is_empty_text public_key
    then (false, p)
    else if lt stake_amount p.min_stake
    then (false, p)
    else if is_some (lookup validator_address p.validators)
    then (false, p)
    else (
      true,
      update_validator_set (record p {
        validators =
            insert validator_address
              (new_validator_info validator_address public_key stake_amount now) p.validators;
      }),
    )

-- startConsensus with no argument.
unfoldable pub start_consensus : ProofOfStake → ProofOfStake
unfolding update_validator_set
start_consensus p = update_validator_set p

unfoldable pub get_validator_info : Text → ProofOfStake → Option ValidatorInfo
get_validator_info validator_address p = lookup validator_address p.validators

-- delegator_address + "_" + validator_address
abbrev pub delegation_key : Text → Text → Text
delegation_key delegator_address validator_address = delegator_address ++ (b'_' ∷ validator_address)

abbrev pub with_validator : Text → ValidatorInfo → ProofOfStake → ProofOfStake
with_validator address v p = record p { validators = update address v p.validators }

abbrev pub new_delegation : Text → Text → Uint256 → ℕ → DelegationInfo
new_delegation delegator_address validator_address amount now = record {
  delegator_address = delegator_address;
  validator_address = validator_address;
  stake_amount = amount;
  start_height = 0;
  is_active = true;
  delegation_time = now;
}

-- The rest of delegateStake, for the validator that the map has.
unfoldable pub delegate_to :
    ℕ → Text → Text → Uint256 → Option ValidatorInfo → ProofOfStake → Run (Bool × ProofOfStake)
delegate_to now delegator_address validator_address amount none p = ok (false, p)
delegate_to now delegator_address validator_address amount (some v) p =
    let key = delegation_key delegator_address validator_address in
    let delegated : ProofOfStake = record p {
      delegations =
          insert key (new_delegation delegator_address validator_address amount now) p.delegations;
    } in
    or_failed (add v.delegated_stake amount) delegated (λ total.
      ok (true, with_validator validator_address (record v { delegated_stake = total }) delegated))

unfoldable pub delegate_stake : ℕ → Text → Text → Uint256 → ProofOfStake → Run (Bool × ProofOfStake)
unfolding delegate_to
delegate_stake now delegator_address validator_address amount p =
    if is_empty_text delegator_address
    then ok (false, p)
    else if is_empty_text validator_address
    then ok (false, p)
    else if le amount (of_u64 0)
    then ok (false, p)
    else delegate_to now delegator_address validator_address amount
        (lookup validator_address p.validators) p
