-- ===== src/Work/Consensus.antt =====
-- validateBlock and startConsensus of src/consensus/proof_of_work.cpp, over mineBlock and Block::verify.
use deo.Prelude.{
  ℕ, ◌≡◌, ◌⊎◌, ◌↔◌, refl, sym, ap, ◌∙◌, inl, inr, Bool, true, false, ◌==◌, ◌||◌, not, if◌then◌else◌,
  Bool-cases, arith,
}
use mathlib.Core.Path.{subst}
use deo.Prelude.Run.{Run, ok, throws, undefined, no_fuel, ◌>>=◌}
use deo.Prelude.Texts.{Text}
use deo.Block.{
  Block, set_nonce, get_hash, update_hash, verify, verify_checks, validate, validate_header,
  calculate_merkle_root, is_genesis, hashed_if,
}
use deo.Work.{
  ProofOfWork, calculate_block_hash, meets_difficulty_target, mining_data, validate_block,
}
use deo.Work.Mining.{Tries, meets_difficulty_target_total}

module _ (sha256 : Text → Text) (crypto_verify : Text → Text → Text → Run Bool) where
  -- A block that verifies and is of height 0, the genesis block, or one whose nonce meets the difficulty.
  pub record IsProven (difficulty : ℕ) (block : Block) : Type 0 where
    pub verified : verify_checks crypto_verify block ≡ ok true
    pub proof :
        ((block.header.height == 0 || is_genesis block) ≡ true)
        ⊎ Tries sha256 block difficulty block.header.nonce true

  -- The block after Block::verify has answered.
  abbrev pub checked_of : Bool → Block → Block
  checked_of passed block = hashed_if sha256 passed block

  pub checked-header :
      (passed : Bool) (block : Block) → (checked_of passed block).header ≡ block.header
  unfolding get_hash update_hash
  checked-header passed block = ground arith

  pub mined-verifies :
      (block : Block) (nonce : ℕ)
      → verify_checks crypto_verify (set_nonce nonce block) ≡ verify_checks crypto_verify block
  unfolding verify_checks validate validate_header calculate_merkle_root
  mined-verifies block nonce = refl

  exempt : Block → Bool
  exempt block = block.header.height == 0 || is_genesis block

  validate_block_lem :
      (block : Block) (p : ProofOfWork) (passed : Bool)
      → verify_checks crypto_verify block ≡ ok passed
      → validate_block sha256 crypto_verify block p ≡ (
          if not passed
          then ok (false, checked_of passed block)
          else if exempt block
          then ok (true, checked_of passed block)
          else do
            hit ←
                meets_difficulty_target
                  (calculate_block_hash sha256 block block.header.nonce)
                  p.current_difficulty
            ok (hit, checked_of passed block))
  unfolding validate_block verify calculate_block_hash is_genesis exempt
  validate_block_lem block p passed e = rw (e, checked-header passed block) refl

  pub validate_block-answers :
      (block : Block) (p : ProofOfWork) (passed : Bool)
      → verify_checks crypto_verify block ≡ ok passed
      → (answer : Bool) × (validate_block sha256 crypto_verify block p
          ≡ ok (answer, checked_of passed block))
        × ((answer ≡ true) ↔ IsProven p.current_difficulty block)
  unfolding exempt
  validate_block-answers block p false checks = (
    false,
    validate_block_lem block p false checks,
    (λ h. absurd (cc), λ proven. absurd (cc (proven.verified))),
  )
  validate_block-answers block p true checks =
      let (hit, e) =
        meets_difficulty_target_total (calculate_block_hash sha256 block block.header.nonce)
          p.current_difficulty in
      elim (Bool-cases (exempt block)) [
        | inl free ↦ (
          true,
          validate_block_lem block p true checks ∙ rw free refl,
          (λ h. record { verified = checks; proof = inl free }, λ proven. refl),
        )
        | inr bound ↦ (
          hit,
          validate_block_lem block p true checks ∙ rw (bound, e) refl,
          (
            λ h. record { verified = checks; proof = inr (e ∙ ap ok h) },
            λ proven. elim (proven.proof) [ inl free ↦ absurd (cc) | inr meets ↦ cc ],
          ),
        )
      ]

  -- How validateBlock ends, by how the checks of Block::verify end.
  abbrev pub EndsAs : Block → ProofOfWork → Run Bool → Type 0
  EndsAs block p (ok passed) =
      (answer : Bool) × (validate_block sha256 crypto_verify block p
        ≡ ok (answer, checked_of passed block))
      × ((answer ≡ true) ↔ IsProven p.current_difficulty block)
  EndsAs block p (throws x) =
      (validate_block sha256 crypto_verify block p ≡ throws x)
      × ¬ IsProven p.current_difficulty block
  EndsAs block p undefined = validate_block sha256 crypto_verify block p ≡ undefined
  EndsAs block p no_fuel = validate_block sha256 crypto_verify block p ≡ no_fuel

  ends :
      (block : Block) (p : ProofOfWork) (checks : Run Bool)
      → verify_checks crypto_verify block ≡ checks
      → EndsAs block p checks
  unfolding validate_block verify
  ends block p (ok passed) e = validate_block-answers block p passed e
  ends block p (throws x) e = (rw e refl, λ proven. absurd (cc (proven.verified)))
  ends block p undefined e = rw e refl
  ends block p no_fuel e = rw e refl

  -- Where the checks of Block::verify come back, validateBlock answers, and answers true just for the proven
  -- blocks; it leaves the block as Block::verify does. Where they throw, as for a signature that is not
  -- hexadecimal, validateBlock throws the same, and the block is not proven.
  pub validate_block-IsProven :
      (block : Block) (p : ProofOfWork) → EndsAs block p (verify_checks crypto_verify block)
  validate_block-IsProven block p = ends block p (verify_checks crypto_verify block) refl

  -- A block with its hash cached: as it was, or updated.
  hashed-cases :
      (block : Block)
      → ((get_hash sha256 block).1 ≡ block) ⊎ ((get_hash sha256 block).1 ≡ update_hash sha256 block)
  unfolding get_hash
  hashed-cases block = elim (Bool-cases block.hash_cached) [
    | inl cached ↦ inl (rw cached refl)
    | inr stale ↦ inr (rw stale refl)
  ]

  -- So what does not read the cached hash holds before and after.
  hashed_keeps :
      (P : Block → Type 0) (block : Block)
      → P block
      → P (update_hash sha256 block)
      → P (get_hash sha256 block).1
  hashed_keeps P block before after = elim (hashed-cases block) [
    | inl same ↦ subst P (sym same) before
    | inr same ↦ subst P (sym same) after
  ]

  pub hashed-IsProven :
      (difficulty : ℕ) (block : Block)
      → IsProven difficulty block
      → IsProven difficulty (get_hash sha256 block).1
  unfolding update_hash verify_checks validate calculate_merkle_root is_genesis calculate_block_hash
  hashed-IsProven difficulty block proven =
      hashed_keeps (IsProven difficulty) block proven
        (record { verified = proven.verified; proof = proven.proof })

  pub checked-verifies :
      (block : Block)
      → verify_checks crypto_verify block ≡ ok true
      → verify_checks crypto_verify (get_hash sha256 block).1 ≡ ok true
  unfolding update_hash verify_checks validate calculate_merkle_root
  checked-verifies block verified =
      hashed_keeps (λ b. verify_checks crypto_verify b ≡ ok true) block verified verified

  pub mined-IsProven :
      (difficulty nonce : ℕ) (block : Block)
      → verify_checks crypto_verify block ≡ ok true
      → Tries sha256 block difficulty nonce true
      → IsProven difficulty (set_nonce nonce block)
  unfolding calculate_block_hash mining_data
  mined-IsProven difficulty nonce block verified hit = record {
    verified = mined-verifies block nonce ∙ verified;
    proof = inr hit;
  }
