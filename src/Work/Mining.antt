-- ===== src/Work/Mining.antt =====
-- The loop of mineBlock of src/consensus/proof_of_work.cpp.
use deo.Prelude.{
  ℕ, zero, suc, ◌+◌, ◌-◌, ◌%◌, ◌^◌, ◌≤◌, ◌<◌, ◌≡◌, ◌⊎◌, refl, sym, ap, ◌∙◌, inl, inr, Bool, true,
  false, ◌&&◌, not, ltb, Bool-cases, ltb→lt, ltb→le, arith, incremented,
}
use mathlib.Core.Path.{subst}
use deo.Prelude.Run.{Run, ok, throws, undefined, no_fuel, Settles, Settles-bind}
use deo.Prelude.Texts.{Text}
use deo.Block.{Block, set_nonce}
use deo.Uint256.Hex.{of_hex}
use deo.Uint256.Hex.Settling.{of_hex-Settles}
use deo.Work.{
  ProofOfWork, u32, halt_mining, update_hash_rate_stats, counted, mined, or_false, observed,
  after_miss, calculate_block_hash, meets_difficulty_target, calculate_target_hash, mine_loop,
  mine_block,
}

or_false-ok : (r : Run Bool) → Settles r → (answer : Bool) × (or_false r ≡ ok answer)
or_false-ok (ok answer) h = (answer, refl)
or_false-ok (throws e) h = (false, refl)
or_false-ok undefined h = absurd h
or_false-ok no_fuel h = absurd h

-- Whether a hash meets a difficulty is always decided.
pub meets_difficulty_target_total :
    (hash : Text) (difficulty : ℕ)
    → (answer : Bool) × (meets_difficulty_target hash difficulty ≡ ok answer)
unfolding meets_difficulty_target
meets_difficulty_target_total hash difficulty = or_false-ok _ (
    Settles-bind (of_hex hash) _ (of_hex-Settles hash) (λ value.
      Settles-bind (of_hex (calculate_target_hash difficulty)) _ (of_hex-Settles _) (λ t. tt)))

-- Whether the hash of a block with a nonce meets a difficulty.
abbrev pub Tries : (Text → Text) → Block → (difficulty nonce : ℕ) → Bool → Type 0
Tries sha256 block difficulty nonce answer =
    meets_difficulty_target (calculate_block_hash sha256 block nonce) difficulty ≡ ok answer

module _ (sha256 : Text → Text) (clock : ℕ → ℕ) (stopped_by : ℕ → Bool) where
  -- An engine that has tried so many nonces since another state.
  pub record HasTried (start : ProofOfWork) (tried : ℕ) (p : ProofOfWork) : Type 0 where
    pub kept : p.current_difficulty ≡ start.current_difficulty
    pub hashes : p.total_hashes % 2 ^ 64 ≡ (start.total_hashes + tried) % 2 ^ 64
    pub asked :
        p.stop_mining ≡ true → (start.stop_mining ≡ true) ⊎ ((at : ℕ) × (stopped_by at ≡ true))

  -- What mineBlock may come back with.
  pub data Outcome (max_nonce : ℕ) (block : Block) (start : ProofOfWork)
      : Bool × Block × ProofOfWork → Type 0 where
    found :
        {p : ProofOfWork} (nonce : ℕ)
        → nonce < max_nonce
        → Tries sha256 block start.current_difficulty nonce true
        → ((earlier : ℕ)
            → earlier < nonce
            → Tries sha256 block start.current_difficulty earlier false)
        → HasTried start (nonce + 1) p
        → p.blocks_mined ≡ incremented start.blocks_mined
        → Outcome max_nonce block start (true, set_nonce nonce block, p)
    ended :
        {p : ProofOfWork} (tried : ℕ)
        → (tried ≡ max_nonce) ⊎ (p.stop_mining ≡ true)
        → ((earlier : ℕ)
            → earlier < tried
            → Tries sha256 block start.current_difficulty earlier false)
        → HasTried start tried p
        → p.blocks_mined ≡ start.blocks_mined
        → Outcome max_nonce block start (false, block, p)

  observed_keeps :
      (p : ProofOfWork)
      → ((observed sha256 clock stopped_by p).current_difficulty ≡ p.current_difficulty)
        × ((observed sha256 clock stopped_by p).total_hashes ≡ p.total_hashes)
        × ((observed sha256 clock stopped_by p).blocks_mined ≡ p.blocks_mined)
  unfolding halt_mining
  observed_keeps p = ground arith

  after_miss_keeps :
      (p : ProofOfWork)
      → ((after_miss sha256 clock stopped_by p).current_difficulty ≡ p.current_difficulty)
        × ((after_miss sha256 clock stopped_by p).total_hashes ≡ p.total_hashes)
        × ((after_miss sha256 clock stopped_by p).blocks_mined ≡ p.blocks_mined)
  unfolding after_miss update_hash_rate_stats
  after_miss_keeps p = ground arith

  abbrev look : ProofOfWork → ProofOfWork
  look = observed sha256 clock stopped_by

  abbrev missed : ProofOfWork → ProofOfWork
  missed p = after_miss sha256 clock stopped_by (counted (look p))

  module _ (fuel max_nonce nonce : ℕ) (block : Block) (p : ProofOfWork) where
    abbrev loop : ℕ → ℕ → ProofOfWork → Run (Bool × Block × ProofOfWork)
    loop rounds from q = mine_loop sha256 clock stopped_by rounds max_nonce from block q

    round_ends :
        (ltb nonce max_nonce && not (look p).stop_mining) ≡ false
        → loop (suc fuel) nonce p ≡ ok (false, block, look p)
    unfolding mine_loop
    round_ends over = rw over refl

    round_hits :
        (ltb nonce max_nonce && not (look p).stop_mining) ≡ true
        → Tries sha256 block (look p).current_difficulty nonce true
        → loop (suc fuel) nonce p ≡ ok (true, set_nonce nonce block, mined (counted (look p)))
    unfolding mine_loop
    round_hits more hit = rw (more, hit) refl

    round_misses :
        (ltb nonce max_nonce && not (look p).stop_mining) ≡ true
        → Tries sha256 block (look p).current_difficulty nonce false
        → loop (suc fuel) nonce p ≡ loop fuel (u32 (nonce + 1)) (missed p)
    unfolding mine_loop
    round_misses more miss = rw (more, miss) refl

  HasTried-look :
      (start p : ProofOfWork) (nonce : ℕ) → HasTried start nonce p → HasTried start nonce (look p)
  unfolding halt_mining
  HasTried-look start p nonce tried = elim (Bool-cases (stopped_by p.total_hashes)) [
    | inl stop ↦
        let (d, t, b) = observed_keeps p in
        record {
          kept = d ∙ tried.kept;
          hashes = omega (arith, t, tried.hashes);
          asked = λ h. inr (p.total_hashes, stop);
        }
    | inr goes ↦
        let same : look p ≡ p = rw goes refl in subst (HasTried start nonce) (sym same) tried
  ]

  missed_stops : (p : ProofOfWork) → (missed p).stop_mining ≡ (look p).stop_mining
  unfolding after_miss update_hash_rate_stats
  missed_stops p = ground arith

  HasTried-missed :
      (start p : ProofOfWork) (nonce : ℕ)
      → HasTried start nonce (look p)
      → HasTried start (nonce + 1) (missed p)
  HasTried-missed start p nonce tried =
      let (d, t, b) = after_miss_keeps (counted (look p)) in
      record {
        kept = d ∙ tried.kept;
        hashes = omega (arith, t, tried.hashes);
        asked = λ h. tried.asked (sym (missed_stops p) ∙ h);
      }

  one_more : (P : ℕ → Type 0) (n : ℕ) → ((m : ℕ) → m < n → P m) → P n → (m : ℕ) → m < n + 1 → P m
  one_more P n before now m h = elim (Bool-cases (ltb m n)) [
    | inl less ↦ before m (ltb→lt m n less)
    | inr last ↦ let same : n ≡ m = omega (arith, ltb→le m n last) in subst P same now
  ]

  -- A loop that has tried some nonces in vain goes on from there.
  loop-Outcome :
      (fuel max_nonce nonce : ℕ) (block : Block) (start p : ProofOfWork)
      → max_nonce < 2 ^ 32
      → nonce ≤ max_nonce
      → max_nonce - nonce < fuel
      → ((earlier : ℕ)
          → earlier < nonce
          → Tries sha256 block start.current_difficulty earlier false)
      → HasTried start nonce p
      → p.blocks_mined ≡ start.blocks_mined
      → (r : Bool × Block × ProofOfWork) × (mine_loop sha256 clock stopped_by fuel max_nonce nonce
            block p
          ≡ ok r)
        × Outcome max_nonce block start r
  loop-Outcome zero max_nonce nonce block start p small within enough before so_far same =
      absurd (omega arith)
  loop-Outcome (suc fuel) max_nonce nonce block start p small within enough before so_far same =
      let (d, t, b) = observed_keeps p in
      let tried = HasTried-look start p nonce so_far in
      let (answer, e) =
        meets_difficulty_target_total (calculate_block_hash sha256 block nonce)
          start.current_difficulty in
      let e' : Tries sha256 block (look p).current_difficulty nonce answer =
        subst (λ (n : ℕ). Tries sha256 block n nonce answer) (sym tried.kept) e in
      elim (Bool-cases (ltb nonce max_nonce && not (look p).stop_mining)) [
        | inr over ↦ (
          (false, block, look p),
          round_ends fuel max_nonce nonce block p over,
          Outcome.ended nonce (ground arith) before tried (b ∙ same),
        )
        | inl more ↦ elim (Bool-cases answer) [
          | inl hit ↦ (
            (true, set_nonce nonce block, mined (counted (look p))),
            round_hits fuel max_nonce nonce block p more (e' ∙ ap ok hit),
            Outcome.found nonce (ground arith) (e ∙ ap ok hit) before
                (record {
                  kept = tried.kept;
                  hashes = omega (arith, tried.hashes);
                  asked = tried.asked;
                })
                (ap incremented (b ∙ same)),
          )
          | inr miss ↦
              let next : u32 (nonce + 1) ≡ nonce + 1 = ground arith in
              let (r, comes, outcome) =
                loop-Outcome fuel max_nonce (nonce + 1) block start (missed p) small (ground arith)
                  (ground arith)
                  (one_more (λ n. Tries sha256 block start.current_difficulty n false) nonce before
                    (e ∙ ap ok miss))
                  (HasTried-missed start p nonce tried)
                  ((after_miss_keeps (counted (look p))).2 ∙ b ∙ same) in
              (
                r,
                round_misses fuel max_nonce nonce block p more (e' ∙ ap ok miss) ∙ rw next comes,
                outcome,
              )
        ]
      ]

  -- With a largest nonce below 2 ^ 32 mineBlock comes back after at most one round more than that. What it
  -- finds is the first nonce whose hash meets the difficulty, which it writes into the block; else the block
  -- is as it was, and no nonce below the largest meets the difficulty, or none below the one at which mining
  -- was stopped, by another thread or before the call. It adds the hashes that it has computed and the block that it has mined, modulo 2 ^ 64.
  pub mine_block-Outcome :
      (fuel max_nonce : ℕ) (block : Block) (p : ProofOfWork)
      → max_nonce < 2 ^ 32
      → max_nonce < fuel
      → (r : Bool × Block × ProofOfWork) × (mine_block sha256 clock stopped_by fuel max_nonce block
            p
          ≡ ok r)
        × Outcome max_nonce block p r
  unfolding mine_block
  mine_block-Outcome fuel max_nonce block p small enough =
      loop-Outcome fuel max_nonce 0 block p p small (omega arith) (omega arith)
        (λ m h. absurd (omega arith)) (record { kept = refl; hashes = omega arith; asked = inl })
        refl

  missed_runs :
      ((hashes : ℕ) → stopped_by hashes ≡ false)
      → (q : ProofOfWork) → q.stop_mining ≡ false
      → ((look q).stop_mining ≡ false) × ((missed q).stop_mining ≡ false)
  unfolding after_miss update_hash_rate_stats
  missed_runs unstopped q runs = ground (arith, unstopped q.total_hashes)

  endless :
      ((hashes : ℕ) → stopped_by hashes ≡ false)
      → (fuel max_nonce nonce : ℕ) (block : Block) (p q : ProofOfWork) → 2 ^ 32 ≤ max_nonce
      → ((n : ℕ) → n < 2 ^ 32 → Tries sha256 block p.current_difficulty n false)
      → nonce < 2 ^ 32
      → q.current_difficulty ≡ p.current_difficulty
      → q.stop_mining ≡ false
      → mine_loop sha256 clock stopped_by fuel max_nonce nonce block q ≡ no_fuel
  unfolding mine_loop
  endless unstopped zero max_nonce nonce block p q wide none_meets h same runs = refl
  endless unstopped (suc fuel) max_nonce nonce block p q wide none_meets h same runs =
      let (looks, goes) = missed_runs unstopped q runs in
      let kept = (observed_keeps q).0 ∙ same in
      let miss : Tries sha256 block (look q).current_difficulty nonce false =
        subst (λ (d : ℕ). Tries sha256 block d nonce false) (sym kept) (none_meets nonce h) in
      round_misses fuel max_nonce nonce block q (ground (arith, looks)) miss
      ∙ endless unstopped fuel max_nonce (u32 (nonce + 1)) block p (missed q) wide none_meets
          (omega arith) ((after_miss_keeps (counted (look q))).0 ∙ kept) goes

  -- From 2 ^ 32 on, so by default, the nonce starts again from 0 and never reaches the largest: where
  -- no nonce meets the difficulty and nobody stops it, no number of rounds is enough.
  pub mine_block_endless :
      (fuel max_nonce : ℕ) (block : Block) (p : ProofOfWork)
      → 2 ^ 32 ≤ max_nonce
      → ((nonce : ℕ) → nonce < 2 ^ 32 → Tries sha256 block p.current_difficulty nonce false)
      → p.stop_mining ≡ false
      → ((hashes : ℕ) → stopped_by hashes ≡ false)
      → mine_block sha256 clock stopped_by fuel max_nonce block p ≡ no_fuel
  unfolding mine_block
  mine_block_endless fuel max_nonce block p wide none_meets runs unstopped =
      endless unstopped fuel max_nonce 0 block p p wide none_meets (omega arith) refl runs
