-- ===== src/Work/Starting.antt =====
-- startConsensus of src/consensus/proof_of_work.cpp: it validates a block, or mines it first.
use deo.Prelude.{
  ℕ, suc, ◌<◌, ◌≡◌, refl, sym, ◌∙◌, inl, inr, Bool, true, false, Bool-cases, arith, Option, none,
  some,
}
use mathlib.Core.Path.{subst}
use deo.Prelude.Run.{Run, ok}
use deo.Prelude.Texts.{Text}
use deo.Block.{Block, get_hash, verify_checks}
use deo.Work.{
  ProofOfWork, start_mining, halt_mining, calculate_block_hash, mine_loop, mine_block, conclude,
  start_consensus, observed,
}
use deo.Work.Consensus.{
  IsProven, checked_of, checked-header, hashed-IsProven, checked-verifies, mined-verifies,
  mined-IsProven, validate_block-answers,
}
use deo.Work.Mining.{Tries, Outcome, mine_block-Outcome}

module _ (sha256 : Text → Text) (crypto_verify : Text → Text → Text → Run Bool) where
  module _ (clock : ℕ → ℕ) (stopped_by : ℕ → Bool) where
    -- What startConsensus comes back with where it succeeds.
    pub record Succeeds (difficulty : ℕ) (r : Option Text × Block × ProofOfWork) : Type 0 where
      pub named : (hash : Text) × (r.0 ≡ some hash)
      pub proven : IsProven sha256 crypto_verify difficulty r.1
      pub mining : r.2.is_mining ≡ true

    started : (p : ProofOfWork) → (start_mining p).1.is_mining ≡ true
    unfolding start_mining
    started p = ground arith

    conclude-Succeeds :
        (block : Block) (p : ProofOfWork)
        → IsProven sha256 crypto_verify p.current_difficulty block
        → (r : Option Text × Block × ProofOfWork) × (conclude sha256 crypto_verify clock stopped_by
              block p
            ≡ ok r)
          × Succeeds p.current_difficulty r
    conclude-Succeeds block p proven =
        let (answer, e, exact) =
          validate_block-answers sha256 crypto_verify block p true proven.verified in
        let yes : answer ≡ true = exact.1 proven in
        let (hash, hashed) = get_hash sha256 (get_hash sha256 block).1 in
        (
          (some hash, hashed, (start_mining p).1),
          rw (e, yes) refl,
          record {
            named = (hash, refl);
            proven =
                hashed-IsProven sha256 crypto_verify p.current_difficulty (get_hash sha256 block).1
                  (hashed-IsProven sha256 crypto_verify p.current_difficulty block proven);
            mining = started p;
          },
        )

    abbrev Sound : ℕ → Run (Option Text × Block × ProofOfWork) → Type 0
    Sound difficulty run =
        (r : Option Text × Block × ProofOfWork) × (run ≡ ok r)
        × ((hash : Text) → r.0 ≡ some hash → Succeeds difficulty r)

    conclude-Sound :
        (block : Block) (p : ProofOfWork) (passed : Bool)
        → verify_checks crypto_verify block ≡ ok passed
        → Sound p.current_difficulty (conclude sha256 crypto_verify clock stopped_by block p)
    conclude-Sound block p passed checks =
        let (answer, e, exact) =
          validate_block-answers sha256 crypto_verify block p passed checks in
        elim (Bool-cases answer) [
          | inl valid ↦
              let (r, comes, success) = conclude-Succeeds block p (exact.0 valid) in
              (r, comes, λ hash h. success)
          | inr not_yet ↦ (
            (none, checked_of sha256 crypto_verify passed block, p),
            rw (e, not_yet) refl,
            λ hash h. absurd (cc),
          )
        ]

    kept_difficulty :
        {max_nonce : ℕ} {block : Block} {p : ProofOfWork} {r : Bool × Block × ProofOfWork}
        → Outcome sha256 clock stopped_by max_nonce block p r
        → r.2.current_difficulty ≡ p.current_difficulty
    kept_difficulty (Outcome.found nonce h hit before tried counts) = tried.kept
    kept_difficulty (Outcome.ended tried why before has counts) = has.kept

    checked-again :
        (passed : Bool) (block : Block)
        → verify_checks crypto_verify block ≡ ok passed
        → verify_checks crypto_verify (checked_of sha256 crypto_verify passed block) ≡ ok passed
    checked-again true block checks = checked-verifies sha256 crypto_verify block checks
    checked-again false block checks = checks

    tried-again :
        {max_nonce : ℕ} {block : Block} {p : ProofOfWork} {r : Bool × Block × ProofOfWork}
        → (passed : Bool) → verify_checks crypto_verify block ≡ ok passed
        → Outcome sha256 clock stopped_by max_nonce block p r
        → verify_checks crypto_verify r.1 ≡ ok passed
    tried-again {block = block} passed checks (Outcome.found nonce h hit before tried counts) =
        mined-verifies sha256 crypto_verify block nonce ∙ checks
    tried-again passed checks (Outcome.ended tried why before has counts) = checks

    -- After at most 10001 rounds of mining startConsensus comes back for a block whose checks come back, and
    -- where it succeeds it has a proven block and an engine that mines.
    pub start_consensus-Sound :
        (fuel : ℕ) (block : Block) (p : ProofOfWork) (passed : Bool)
        → 10000 < fuel
        → verify_checks crypto_verify block ≡ ok passed
        → (r : Option Text × Block × ProofOfWork) × (start_consensus sha256 crypto_verify clock
              stopped_by fuel block p
            ≡ ok r)
          × ((hash : Text) → r.0 ≡ some hash → Succeeds p.current_difficulty r)
    unfolding start_consensus
    start_consensus-Sound fuel block p passed enough checks =
        let checked = checked_of sha256 crypto_verify passed block in
        let again = checked-again passed block checks in
        let (answer, e, exact) =
          validate_block-answers sha256 crypto_verify block p passed checks in
        let ((b, tried, after), comes, outcome) =
          mine_block-Outcome sha256 clock stopped_by fuel 10000 checked p (omega arith) enough in
        elim (Bool-cases answer) [
          | inl valid ↦
              let (r, concludes, sound) = conclude-Sound checked p passed again in
              (r, rw (e, valid) concludes, sound)
          | inr not_yet ↦ elim (Bool-cases b) [
            | inl hit ↦
                let (r, concludes, sound) =
                  conclude-Sound tried after passed (tried-again passed again outcome) in
                (
                  r,
                  rw (e, not_yet, comes, hit) concludes,
                  subst (λ (d : ℕ). (hash : Text) → r.0 ≡ some hash → Succeeds d r)
                      (kept_difficulty outcome) sound,
                )
            | inr miss ↦
                ((none, tried, after), rw (e, not_yet, comes, miss) refl, λ hash h. absurd (cc))
          ]
        ]

    -- What mining gives where a nonce in reach meets the difficulty and nobody stops it.
    Outcome-hit :
        {max_nonce : ℕ} {block : Block} {p : ProofOfWork} {r : Bool × Block × ProofOfWork}
        → ((at : ℕ) → stopped_by at ≡ false)
        → p.stop_mining ≡ false
        → verify_checks crypto_verify block ≡ ok true
        → (nonce : ℕ) → nonce < max_nonce
        → Tries sha256 block p.current_difficulty nonce true
        → Outcome sha256 clock stopped_by max_nonce block p r
        → (r.0 ≡ true) × IsProven sha256 crypto_verify p.current_difficulty r.1
    Outcome-hit unstopped runs verified nonce h meets
          (Outcome.found n less hit before tried counts) =
        (refl, mined-IsProven sha256 crypto_verify _ n _ verified hit)
    Outcome-hit unstopped runs verified nonce h meets (Outcome.ended tried why before has counts) =
        elim why [
          | inl all ↦ let miss = before nonce (omega arith) in absurd (cc)
          | inr stopped ↦ elim (has.asked stopped) [
            | inl first ↦ absurd (cc)
            | inr (at, later) ↦ absurd (cc (unstopped at))
          ]
        ]

    same-Tries :
        (b c : Block) (difficulty nonce : ℕ)
        → b.header ≡ c.header
        → Tries sha256 c difficulty nonce true
        → Tries sha256 b difficulty nonce true
    unfolding calculate_block_hash
    same-Tries b c difficulty nonce same meets = rw same meets

    -- A block that verifies, for which one of the first 10000 nonces meets the difficulty, is given out by
    -- startConsensus, proven, while nobody stops the mining.
    pub start_consensus-Succeeds :
        (fuel : ℕ) (block : Block) (p : ProofOfWork) (nonce : ℕ)
        → 10000 < fuel
        → verify_checks crypto_verify block ≡ ok true
        → p.stop_mining ≡ false
        → ((at : ℕ) → stopped_by at ≡ false)
        → nonce < 10000
        → Tries sha256 block p.current_difficulty nonce true
        → (r : Option Text × Block × ProofOfWork) × (start_consensus sha256 crypto_verify clock
              stopped_by fuel block p
            ≡ ok r)
          × Succeeds p.current_difficulty r
    unfolding start_consensus
    start_consensus-Succeeds fuel block p nonce enough verified runs unstopped h meets =
        let checked = (get_hash sha256 block).1 in
        let (answer, e, exact) =
          validate_block-answers sha256 crypto_verify block p true verified in
        let ((b, tried, after), comes, outcome) =
          mine_block-Outcome sha256 clock stopped_by fuel 10000 checked p (omega arith) enough in
        let still : Tries sha256 checked p.current_difficulty nonce true =
          same-Tries checked block p.current_difficulty nonce
            (checked-header sha256 crypto_verify true block) meets in
        let (hit, proven) =
          Outcome-hit unstopped runs (checked-verifies sha256 crypto_verify block verified) nonce h
            still outcome in
        elim (Bool-cases answer) [
          | inl valid ↦
              let (r, concludes, success) =
                conclude-Succeeds checked p (
                  hashed-IsProven sha256 crypto_verify p.current_difficulty block
                    (exact.0 valid)) in
              (r, rw (e, valid) concludes, success)
          | inr not_yet ↦
              let kept = kept_difficulty outcome in
              let (r, concludes, success) =
                conclude-Succeeds tried after
                  (subst (λ (d : ℕ). IsProven sha256 crypto_verify d tried) (sym kept) proven) in
              (
                r,
                rw (e, not_yet, comes, hit) concludes,
                subst (λ (d : ℕ). Succeeds d r) kept success,
              )
        ]

    stopped_at_once :
        (fuel max_nonce : ℕ) (block : Block) (p : ProofOfWork)
        → p.stop_mining ≡ true
        → (after : ProofOfWork) × (mine_block sha256 clock stopped_by (suc fuel) max_nonce block p
            ≡ ok (false, block, after))
    unfolding mine_block mine_loop halt_mining
    stopped_at_once fuel max_nonce block p stopped =
        (observed sha256 clock stopped_by p, ground (arith, stopped))

    -- Once mining has been stopped, startConsensus fails for every block that is not proven yet and
    -- whose checks come back: it mines
    -- before it calls startMining, which alone would take the stop back.
    pub start_consensus_stopped :
        (fuel : ℕ) (block : Block) (p : ProofOfWork) (passed : Bool)
        → p.stop_mining ≡ true
        → verify_checks crypto_verify block ≡ ok passed
        → ¬ IsProven sha256 crypto_verify p.current_difficulty block
        → (r : Option Text × Block × ProofOfWork) × (start_consensus sha256 crypto_verify clock
              stopped_by
              (suc fuel)
              block
              p
            ≡ ok r)
          × (r.0 ≡ none)
    unfolding start_consensus
    start_consensus_stopped fuel block p passed stopped checks unproven =
        let checked = checked_of sha256 crypto_verify passed block in
        let (answer, e, exact) =
          validate_block-answers sha256 crypto_verify block p passed checks in
        let (after, comes) = stopped_at_once fuel 10000 checked p stopped in
        elim (Bool-cases answer) [
          | inl valid ↦ absurd (unproven (exact.0 valid))
          | inr not_yet ↦ ((none, checked, after), rw (e, not_yet, comes) refl, refl)
        ]
