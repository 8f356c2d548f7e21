-- ===== src/Work.antt =====
-- The proof of work of src/consensus/proof_of_work.cpp: targets, the difficulty, and the mining loop.
-- What lies outside is a parameter: the hash, the signature scheme, the clock in nanoseconds after so
-- many hashes, and whether another thread has called stopMining by then. The thread member is never
-- started, so it is left out; so are the statistics as texts.
pub mod Target
pub mod Difficulty
pub mod Mining
pub mod Consensus
pub mod Starting
use deo.Prelude.{
  ℕ, zero, suc, ◌+◌, ◌-◌, ◌*◌, ◌/◌, ◌%◌, ◌^◌, Bool, true, false, ◌==◌, ◌&&◌, ◌||◌, not, ltb,
  if◌then◌else◌, Option, none, some, List, [], ◌∷◌, ◌++◌, replicate, set, incremented,
}
use deo.Prelude.Run.{Run, ok, throws, undefined, no_fuel, ◌>>=◌}
use deo.Prelude.Texts.{Text, same_text}
use deo.Uint256.{le}
use deo.Uint256.Hex.{of_hex, hex_digits}
use deo.Block.{Block, BlockHeader, zeros, set_nonce, get_hash, verify, is_genesis}

pub record ProofOfWork : Type 0 where
  pub initial_difficulty : ℕ
  pub current_difficulty : ℕ
  pub target_block_time : ℕ
  pub is_active : Bool
  pub is_mining : Bool
  pub stop_mining : Bool
  pub blocks_mined : ℕ
  pub total_hashes : ℕ
  pub hash_count : ℕ
  pub mining_start_time : ℕ
  pub last_hash_time : ℕ

-- ProofOfWork(initial_difficulty, target_block_time): its two times are those of the epoch.
abbrev pub new_proof_of_work : ℕ → ℕ → ProofOfWork
new_proof_of_work difficulty block_time = record {
  initial_difficulty = difficulty;
  current_difficulty = difficulty;
  target_block_time = block_time;
  is_active = false;
  is_mining = false;
  stop_mining = false;
  blocks_mined = 0;
  total_hashes = 0;
  hash_count = 0;
  mining_start_time = 0;
  last_hash_time = 0;
}

unfoldable pub initialize : ℕ → ProofOfWork → Bool × ProofOfWork
initialize now p = (
  true,
  record p { is_active = true; mining_start_time = now; last_hash_time = now; hash_count = 0 },
)

unfoldable pub start_mining : ProofOfWork → Bool × ProofOfWork
start_mining p =
    if p.is_mining then (true, p) else (true, record p { is_mining = true; stop_mining = false })

unfoldable pub halt_mining : ProofOfWork → ProofOfWork
halt_mining p = record p { stop_mining = true; is_mining = false }

unfoldable pub shutdown : ProofOfWork → ProofOfWork
unfolding halt_mining
shutdown p = record (halt_mining p) { is_active = false }

abbrev pub set_difficulty : ℕ → ProofOfWork → ProofOfWork
set_difficulty difficulty p = record p { current_difficulty = difficulty }

abbrev pub set_target_block_time : ℕ → ProofOfWork → ProofOfWork
set_target_block_time target_time p = record p { target_block_time = target_time }

-- std::min and std::max, and an unsigned number of 32 bits.
abbrev pub lesser : ℕ → ℕ → ℕ
lesser a b = if ltb b a then b else a

abbrev pub greater : ℕ → ℕ → ℕ
greater a b = if ltb a b then b else a

abbrev pub u32 : ℕ → ℕ
u32 n = n % 2 ^ 32

abbrev pub u32_max : ℕ
u32_max = 2 ^ 32 - 1

-- adjustDifficulty, with the products, the sum and the difference of 32 bits.
unfoldable pub adjusted_difficulty : (actual target current : ℕ) → ℕ
adjusted_difficulty actual target current =
    if ltb actual (target / 2)
    then lesser (u32 (current * 2)) u32_max
    else if ltb (u32 (target * 2)) actual
    then greater (current / 2) 1
    else if ltb actual target
    then lesser (u32 (current + 1)) u32_max
    else if ltb target actual
    then greater (u32 (current + u32_max)) 1
    else current

unfoldable pub adjust_difficulty : ℕ → ProofOfWork → ProofOfWork
unfolding adjusted_difficulty
adjust_difficulty actual_block_time p = record p {
  current_difficulty =
      adjusted_difficulty actual_block_time p.target_block_time p.current_difficulty;
}

-- The loop of calculateTargetHash over the first characters.
unfoldable pub fill_zeros : (count i : ℕ) → Text → Text
fill_zeros zero i target = target
fill_zeros (suc count) i target = fill_zeros count (i + 1) (set target i b'0')

unfoldable pub calculate_target_hash : ℕ → Text
unfolding fill_zeros
calculate_target_hash difficulty =
    let target = replicate 64 b'f' in
    let leading_zeros = lesser difficulty 64 in
    let filled = fill_zeros leading_zeros 0 target in
    if ltb 0 difficulty
    then (if ltb leading_zeros 64 then set filled leading_zeros b'f' else filled)
    else target

unfoldable pub difficulty_to_target : ℕ → Text
unfolding calculate_target_hash
difficulty_to_target difficulty =
    if difficulty == 0 then zeros else calculate_target_hash difficulty

unfoldable pub count_zeros : Text → ℕ
count_zeros [] = 0
count_zeros (c ∷ target) = let rest = suc (count_zeros target) in if c == b'0' then rest else 0

unfoldable pub target_to_difficulty : Text → ℕ
unfolding count_zeros
target_to_difficulty target =
    if same_text target [] || same_text target zeros
    then 0
    else if count_zeros target == 0
    then 1
    else u32 (count_zeros target)

-- The try block of meetsDifficultyTarget.
abbrev pub or_false : Run Bool → Run Bool
or_false (throws e) = ok false
or_false (ok answer) = ok answer
or_false undefined = undefined
or_false no_fuel = no_fuel

unfoldable pub meets_difficulty_target : Text → ℕ → Run Bool
unfolding calculate_target_hash
meets_difficulty_target hash difficulty = or_false do
  hash_value ← of_hex hash
  target_value ← of_hex (calculate_target_hash difficulty)
  ok (le hash_value target_value)

-- What calculateBlockHash hashes: the numbers with leading zeros, the nonce of the argument.
unfoldable pub mining_data : BlockHeader → ℕ → Text
mining_data header nonce =
    hex_digits 8 header.version
    ++ (header.previous_hash
        ++ (header.merkle_root
            ++ (hex_digits 16 header.timestamp
                ++ (hex_digits 8 nonce
                    ++ (hex_digits 8 header.difficulty ++ hex_digits 16 header.height)))))

unfoldable pub update_hash_rate_stats : ℕ → ProofOfWork → ProofOfWork
update_hash_rate_stats now p =
    if ltb ((now - p.last_hash_time) / 10 ^ 9) 1
    then p
    else record p { hash_count = 0; last_hash_time = now }

-- A hash more; the statistics every 10000 hashes.
abbrev pub counted : ProofOfWork → ProofOfWork
counted p = record p {
  total_hashes = incremented p.total_hashes;
  hash_count = incremented p.hash_count;
}

abbrev pub mined : ProofOfWork → ProofOfWork
mined p = record p { blocks_mined = incremented p.blocks_mined }

module _ (sha256 : Text → Text) where
  unfoldable pub calculate_block_hash : Block → ℕ → Text
  unfolding mining_data
  calculate_block_hash block nonce = sha256 (mining_data block.header nonce)

  module _ (clock : ℕ → ℕ) (stopped_by : ℕ → Bool) where
    -- stopMining, where another thread has called it.
    abbrev pub observed : ProofOfWork → ProofOfWork
    observed p = if stopped_by p.total_hashes then halt_mining p else p

    unfoldable pub after_miss : ProofOfWork → ProofOfWork
    unfolding update_hash_rate_stats
    after_miss p =
        if p.hash_count % 10000 == 0 then update_hash_rate_stats (clock p.total_hashes) p else p

    -- The loop of mineBlock, with fuel.
    unfoldable pub mine_loop :
        (fuel max_nonce nonce : ℕ) → Block → ProofOfWork → Run (Bool × Block × ProofOfWork)
    unfolding calculate_block_hash after_miss
    mine_loop zero max_nonce nonce block p = no_fuel
    mine_loop (suc fuel) max_nonce nonce block p =
        let seen = observed p in
        let next = mine_loop fuel max_nonce (u32 (nonce + 1)) block (after_miss (counted seen)) in
        if not (ltb nonce max_nonce && not seen.stop_mining) then ok (false, block, seen) else do
          hit ← meets_difficulty_target (calculate_block_hash block nonce) seen.current_difficulty
          if hit then ok (true, set_nonce nonce block, mined (counted seen)) else next

    unfoldable pub mine_block :
        (fuel max_nonce : ℕ) → Block → ProofOfWork → Run (Bool × Block × ProofOfWork)
    unfolding mine_loop
    mine_block fuel max_nonce block p = mine_loop fuel max_nonce 0 block p

  module _ (crypto_verify : Text → Text → Text → Run Bool) where
    -- validateBlock of a block that is not null: to verify it fills its cached hash.
    unfoldable pub validate_block : Block → ProofOfWork → Run (Bool × Block)
    unfolding calculate_block_hash
    validate_block block p = verify sha256 crypto_verify block >>= λ (verified, checked).
        if not verified
        then ok (false, checked)
        else if checked.header.height == 0 || is_genesis checked
        then ok (true, checked)
        else do
          hit ←
              meets_difficulty_target (calculate_block_hash checked checked.header.nonce)
                p.current_difficulty
          ok (hit, checked)

    module _ (clock : ℕ → ℕ) (stopped_by : ℕ → Bool) where
      -- The end of startConsensus, once the block is mined: the hash of the result, or no success.
      abbrev pub conclude : Block → ProofOfWork → Run (Option Text × Block × ProofOfWork)
      conclude block p = do
        (valid, checked) ← validate_block block p
        let (hash, hashed) = get_hash sha256 checked
        if valid then ok (some hash, hashed, (start_mining p).1) else ok (none, checked, p)

      abbrev pub mine_first : ℕ → Block → ProofOfWork → Run (Option Text × Block × ProofOfWork)
      mine_first fuel block p = do
        (found, tried, after) ← mine_block clock stopped_by fuel 10000 block p
        if found then conclude tried after else ok (none, tried, after)

      unfoldable pub start_consensus :
          ℕ → Block → ProofOfWork → Run (Option Text × Block × ProofOfWork)
      unfolding validate_block mine_block
      start_consensus fuel block p = do
        (valid, checked) ← validate_block block p
        if valid then conclude checked p else mine_first fuel checked p
