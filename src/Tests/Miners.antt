-- ===== src/Tests/Miners.antt =====
-- The theorems on the proof of work at small difficulties, with hashes of a known text.
use deo.Prelude.{ℕ, ◌*◌, ◌-◌, ◌^◌, ◌≡◌, refl, Bool, true, false, Option, ltb, replicate, arith}
use deo.Prelude.Run.{ok}
use deo.Prelude.Texts.{Text, same_text}
use deo.Uint256.{of_u64, le}
use deo.Uint256.Value.{of_u64-IsWord, to_ℕ}
use deo.Uint256.Hex.{of_hex, parse_pairs, stoul_pair, digit_value}
use deo.Block.{
  Block, new_block, set_height, zeros, verify_checks, validate, validate_header,
  validate_transactions, verify_transactions, calculate_merkle_root,
}
use deo.Work.{
  ProofOfWork, new_proof_of_work, lesser, meets_difficulty_target, calculate_target_hash,
  calculate_block_hash, adjust_difficulty, mine_block, start_consensus,
}
use deo.Work.Target.{meets_difficulty_target_exact}
use deo.Work.Difficulty.{Adjusts, adjust_difficulty-Adjusts}
use deo.Work.Mining.{Tries, Outcome, mine_block-Outcome}
use deo.Work.Consensus.{validate_block-IsProven, EndsAs}
use deo.Work.Starting.{Succeeds, start_consensus-Succeeds}
use deo.Tests.Transactions.{accepts_marked}

abbrev lowest : Text → Text
lowest text = zeros

abbrev highest : Text → Text
highest text = replicate 64 b'f'

abbrev never : ℕ → Bool
never hashes = false

abbrev standing : ℕ → ℕ
standing hashes = 0

abbrev miner : ProofOfWork
miner = new_proof_of_work 1 600

abbrev second_block : Block
second_block = set_height 1 new_block

second_block_verifies : verify_checks accepts_marked second_block ≡ ok true
unfolding verify_checks validate validate_header validate_transactions verify_transactions
    calculate_merkle_root same_text
second_block_verifies = refl

reads_zeros : of_hex zeros ≡ ok (of_u64 0)
unfolding of_hex parse_pairs stoul_pair digit_value of_u64
reads_zeros = refl

meets_difficulty_target_exact_example :
    meets_difficulty_target zeros 3 ≡ ok (ltb (to_ℕ (of_u64 0)) (2 ^ (4 * (64 - lesser 3 64))))
meets_difficulty_target_exact_example =
    meets_difficulty_target_exact zeros (of_u64 0) 3 reads_zeros (of_u64-IsWord 0 (omega arith))

adjust_difficulty-Adjusts_example :
    Adjusts 1500 miner.target_block_time miner.current_difficulty
      (adjust_difficulty 1500 miner).current_difficulty
adjust_difficulty-Adjusts_example =
    adjust_difficulty-Adjusts miner 1500 (omega arith) (omega arith) (omega arith)

abbrev hard_miner : ProofOfWork
hard_miner = new_proof_of_work (2 ^ 31) 600

mine_block-Outcome_example :
    (r : Bool × Block × ProofOfWork) × (mine_block highest standing never 12 10 second_block miner
      ≡ ok r)
    × Outcome highest standing never 10 second_block miner r
mine_block-Outcome_example =
    mine_block-Outcome highest standing never 12 10 second_block miner (omega arith) (omega arith)

highest_misses : (nonce : ℕ) → Tries highest second_block 1 nonce false
unfolding meets_difficulty_target calculate_block_hash calculate_target_hash of_hex parse_pairs
    stoul_pair digit_value le
highest_misses nonce = refl

lowest_meets : Tries lowest second_block 1 3 true
unfolding meets_difficulty_target calculate_block_hash calculate_target_hash of_hex parse_pairs
    stoul_pair digit_value le
lowest_meets = refl

start_consensus-Succeeds_example :
    (r : Option Text × Block × ProofOfWork) × (start_consensus lowest accepts_marked standing never
        10001 second_block miner
      ≡ ok r)
    × Succeeds lowest accepts_marked standing never 1 r
start_consensus-Succeeds_example =
    start_consensus-Succeeds lowest accepts_marked standing never 10001 second_block miner 3
      (omega arith) second_block_verifies refl (λ hashes. refl) (omega arith) lowest_meets

validate_block-IsProven_example :
    EndsAs lowest accepts_marked second_block miner (verify_checks accepts_marked second_block)
validate_block-IsProven_example = validate_block-IsProven lowest accepts_marked second_block miner
