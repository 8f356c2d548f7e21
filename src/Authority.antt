-- ===== src/Authority.antt =====
-- ProofOfAuthority of include/consensus/proof_of_authority.h and src/consensus/proof_of_authority.cpp.
-- Its mutex makes each method one step; a method that calls another one that locks it again is undefined.
-- `std::sort` is a parameter, since it leaves the order of equal priorities open. Times are in seconds.
pub mod Rotation
pub mod Members
use deo.Prelude.{
  ℕ, zero, suc, ◌+◌, ◌-◌, ◌*◌, ◌/◌, ◌%◌, ◌^◌, Bool, true, false, ◌&&◌, not, ltb, if◌then◌else◌,
  Option, none, some, List, [], ◌∷◌, ◌++◌, length, map, get_elem?, replicate,
}
use deo.Prelude.Texts.{Text, same_text}

pub record Validator : Type 0 where
  pub address : Text
  pub public_key : Text
  pub name : Text
  pub is_active : Bool
  pub stake : ℕ
  pub last_block_time : ℕ
  pub blocks_produced : ℕ
  pub priority : ℕ

abbrev pub new_validator : Text → Text → Text → ℕ → Validator
new_validator addr pub_key n stake_amount = record {
  address = addr;
  public_key = pub_key;
  name = n;
  is_active = true;
  stake = stake_amount;
  last_block_time = 0;
  blocks_produced = 0;
  priority = 0;
}

pub record ProofOfAuthority : Type 0 where
  pub validators : List Validator
  pub block_time : ℕ
  pub epoch_length : ℕ
  pub genesis_validator : Text

abbrev pub new_proof_of_authority : ProofOfAuthority
new_proof_of_authority = record {
  validators = [];
  block_time = 15;
  epoch_length = 100;
  genesis_validator = b'0' ∷ b'x' ∷ replicate 40 b'0';
}

abbrev pub addresses : List Validator → List Text
addresses validators = map (λ (v : Validator). v.address) validators

unfoldable pub has_address : Text → List Validator → Bool
has_address address [] = false
has_address address (v ∷ validators) =
    let later = has_address address validators in
    if same_text v.address address then true else later

unfoldable pub find_validator : Text → List Validator → Option Validator
find_validator address [] = none
find_validator address (v ∷ validators) =
    let later = find_validator address validators in
    if same_text v.address address then some v else later

-- The first validator with the address is changed.
unfoldable pub update_first : (Validator → Validator) → Text → List Validator → List Validator
update_first change address [] = []
update_first change address (v ∷ validators) =
    let later = update_first change address validators in
    if same_text v.address address then change v ∷ validators else v ∷ later

unfoldable pub erase_first : Text → List Validator → List Validator
erase_first address [] = []
erase_first address (v ∷ validators) =
    let later = erase_first address validators in
    if same_text v.address address then validators else v ∷ later

unfoldable pub active_of : List Validator → List Validator
active_of [] = []
active_of (v ∷ validators) =
    let later = active_of validators in if v.is_active then v ∷ later else later

unfoldable pub count_active : List Validator → ℕ
count_active [] = 0
count_active (v ∷ validators) =
    let later = count_active validators in if v.is_active then later + 1 else later

-- sortValidators orders by this.
abbrev pub by_priority : Validator → Validator → Bool
by_priority a b = ltb a.priority b.priority

unfoldable pub any_authorized : Text → List Validator → Bool
any_authorized address [] = false
any_authorized address (v ∷ validators) =
    let later = any_authorized address validators in
    if same_text v.address address && v.is_active then true else later

unfoldable pub is_authorized_validator : Text → ProofOfAuthority → Bool
unfolding any_authorized
is_authorized_validator address poa = any_authorized address poa.validators

abbrev pub with_priority : ℕ → Validator → Validator
with_priority height v = record v { priority = height % 2 ^ 32 }

-- The validator whose turn it is, if there is one; it takes the height as its priority.
unfoldable pub give_turn : ℕ → Option Validator → ProofOfAuthority → Text × ProofOfAuthority
unfolding update_first
give_turn height none poa = ([], poa)
give_turn height (some v) poa = (
  v.address,
  record poa { validators = update_first (with_priority height) v.address poa.validators },
)

-- With no active validator the remainder is not taken, and the answer is the empty text.
unfoldable pub get_next_validator : ℕ → ProofOfAuthority → Text × ProofOfAuthority
unfolding give_turn active_of
get_next_validator current_height poa =
    let active = active_of poa.validators in
    give_turn current_height (get_elem? active (current_height % length active)) poa

unfoldable pub get_validator : Text → ProofOfAuthority → Option Validator
unfolding find_validator
get_validator address poa = find_validator address poa.validators

unfoldable pub get_active_validators : ProofOfAuthority → List Validator
unfolding active_of
get_active_validators poa = active_of poa.validators

unfoldable pub get_active_validator_count : ProofOfAuthority → ℕ
unfolding count_active
get_active_validator_count poa = count_active poa.validators

unfoldable pub remove_validator : Text → ProofOfAuthority → Bool × ProofOfAuthority
unfolding has_address erase_first
remove_validator address poa =
    if has_address address poa.validators
    then (true, record poa { validators = erase_first address poa.validators })
    else (false, poa)

abbrev pub with_active : Bool → Validator → Validator
with_active is_active v = record v { is_active = is_active }

unfoldable pub set_validator_active : Text → Bool → ProofOfAuthority → Bool × ProofOfAuthority
unfolding has_address update_first
set_validator_active address is_active poa =
    if has_address address poa.validators
    then (
      true,
      record poa { validators = update_first (with_active is_active) address poa.validators },
    )
    else (false, poa)

abbrev pub with_stake : ℕ → Validator → Validator
with_stake new_stake v = record v { stake = new_stake }

module _ (std_sort : (Validator → Validator → Bool) → List Validator → List Validator) where
  unfoldable pub add_validator : Validator → ProofOfAuthority → Bool × ProofOfAuthority
  unfolding has_address
  add_validator validator poa =
      if has_address validator.address poa.validators then (false, poa) else (
        true,
        record poa { validators = std_sort by_priority (poa.validators ++ validator ∷ []) },
      )

  unfoldable pub update_validator_stake : Text → ℕ → ProofOfAuthority → Bool × ProofOfAuthority
  unfolding has_address update_first
  update_validator_stake address new_stake poa =
      if has_address address poa.validators
      then (
        true,
        record poa {
          validators =
              std_sort by_priority (update_first (with_stake new_stake) address poa.validators);
        },
      )
      else (false, poa)

-- The difference of two times, of 64 bits.
abbrev pub time_since : ℕ → ℕ → ℕ
time_since current_time last = (current_time + (2 ^ 64 - last)) % 2 ^ 64

unfoldable pub calculate_priority : Validator → ℕ → ProofOfAuthority → ℕ
calculate_priority validator current_time poa =
    let priority = (validator.stake / 1000) % 2 ^ 32 in
    let recent =
      ltb (time_since current_time validator.last_block_time) (poa.block_time * 2 % 2 ^ 64) in
    if ltb 0 validator.last_block_time && recent then priority / 2 else priority

unfoldable pub can_produce_block : Validator → ℕ → ProofOfAuthority → Bool
can_produce_block validator current_time poa =
    let soon = ltb (time_since current_time validator.last_block_time) poa.block_time in
    if not validator.is_active
    then false
    else if ltb 0 validator.last_block_time && soon
    then false
    else true
