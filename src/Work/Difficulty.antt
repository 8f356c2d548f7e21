-- ===== src/Work/Difficulty.antt =====
-- adjustDifficulty of src/consensus/proof_of_work.cpp against the times that it compares.
use deo.Prelude.{ℕ, ◌+◌, ◌*◌, ◌/◌, ◌^◌, ◌≤◌, ◌<◌, ◌≡◌, ◌⊎◌, inl, inr, Bool-cases, ltb, arith}
use deo.Work.{ProofOfWork, adjusted_difficulty, adjust_difficulty}

-- What one adjustment may do to a difficulty, by how the block's time compares with its target.
pub data Adjusts (actual target current : ℕ) : ℕ → Type 0 where
  doubles : {d : ℕ} → actual < target / 2 → d ≡ 2 * current → Adjusts actual target current d
  halves :
      {d : ℕ}
      → 2 * target < actual
      → (d ≡ current / 2) ⊎ ((current ≡ 1) × (d ≡ 1))
      → Adjusts actual target current d
  rises :
      {d : ℕ}
      → target / 2 ≤ actual
      → actual < target
      → d ≡ current + 1
      → Adjusts actual target current d
  falls :
      {d : ℕ}
      → target < actual
      → actual ≤ 2 * target
      → (d + 1 ≡ current) ⊎ ((current ≡ 1) × (d ≡ 1))
      → Adjusts actual target current d
  stays : {d : ℕ} → actual ≡ target → d ≡ current → Adjusts actual target current d

-- Where the difficulty is at least 1 and, like the target, below 2 ^ 31, a block in under half of
-- the target time doubles it, one in over twice that time halves it, a faster block adds one, a slower one
-- takes one, and it stays for a block in time; it never goes below 1.
pub adjust_difficulty-Adjusts :
    (p : ProofOfWork) (actual : ℕ)
    → 1 ≤ p.current_difficulty
    → p.current_difficulty < 2 ^ 31
    → p.target_block_time < 2 ^ 31
    → Adjusts actual p.target_block_time p.current_difficulty
        (adjust_difficulty actual p).current_difficulty
unfolding adjust_difficulty adjusted_difficulty
adjust_difficulty-Adjusts p actual least most short =
    elim (Bool-cases (ltb actual (p.target_block_time / 2))) [
      | inl fast ↦ Adjusts.doubles (ground arith) (ground arith)
      | inr not_fast ↦ elim (Bool-cases (ltb (p.target_block_time * 2) actual)) [
        | inl slow ↦ Adjusts.halves (ground arith) (elim (Bool-cases (ltb 1 p.current_difficulty)) [
          | inl more ↦ inl (ground arith)
          | inr one ↦ inr (ground arith, ground arith)
        ])
        | inr not_slow ↦ elim (Bool-cases (ltb actual p.target_block_time)) [
          | inl early ↦ Adjusts.rises (ground arith) (ground arith) (ground arith)
          | inr not_early ↦ elim (Bool-cases (ltb p.target_block_time actual)) [
            | inl late ↦
                Adjusts.falls (ground arith) (ground arith)
                  (elim (Bool-cases (ltb 1 p.current_difficulty)) [
                    | inl more ↦ inl (ground arith)
                    | inr one ↦ inr (ground arith, ground arith)
                  ])
            | inr in_time ↦ Adjusts.stays (ground arith) (ground arith)
          ]
        ]
      ]
    ]

-- A difficulty of at least 2 ^ 31 falls where it should double: of 2 ^ 31 the answer is 0.
pub adjust_difficulty_wraps :
    (p : ProofOfWork) (actual : ℕ)
    → 2 ^ 31 ≤ p.current_difficulty
    → p.current_difficulty < 2 ^ 32
    → actual < p.target_block_time / 2
    → (adjust_difficulty actual p).current_difficulty + 2 ^ 32 ≡ 2 * p.current_difficulty
unfolding adjust_difficulty adjusted_difficulty
adjust_difficulty_wraps p actual least most fast = ground arith
