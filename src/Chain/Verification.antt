-- ===== src/Chain/Verification.antt =====
-- verifyBlockchain, importBlockchain and calculateNextDifficulty of src/core/blockchain.cpp.
use deo.Prelude.{
  ℕ, ◌+◌, ◌*◌, ◌/◌, ◌^◌, ◌≤◌, ◌<◌, ◌≡◌, ◌≢◌, ◌↔◌, refl, sym, ap, ◌∙◌, Bool, true, false, Option,
  none, some, List, [], ◌∷◌, ◌++◌, All, not, if◌then◌else◌, arith,
}
use deo.Prelude.Run.{Run, ok, throws, undefined, no_fuel, ◌>>=◌}
use deo.Prelude.Texts.{Text, same_text_iff}
use deo.Block.{Block, verify, verify_checks}
use deo.Chain.{Blockchain, last_of, hash_of}
use deo.Chain.Growth.{
  links_back, verify_from, verify_blockchain, validate_block, all_valid, import_blockchain,
  replace_blocks, refresh_at, next_difficulty, backwards, calculate_next_difficulty,
}
use deo.Chain.Locks.{reading_free}

module _ (sha256 : Text → Text) (crypto_verify : Text → Text → Text → Run Bool) where
  -- Block::verify passes all its checks.
  abbrev pub IsVerified : Block → Type 0
  IsVerified block = verify_checks crypto_verify block ≡ ok true

  -- Each block but the first names the hash of the one before.
  abbrev pub IsLinked : List Block → Type 0
  IsLinked [] = Unit
  IsLinked (a ∷ []) = Unit
  IsLinked (a ∷ b ∷ bs) = (b.header.previous_hash ≡ hash_of sha256 a) × IsLinked (b ∷ bs)

  verify_from-IsLinked :
      (a : Block) (bs : List Block)
      → (verify_from sha256 crypto_verify (some a) bs ≡ ok true)
        ↔ (All IsVerified bs × IsLinked (a ∷ bs))
  unfolding verify_from verify links_back
  verify_from-IsLinked a [] = (λ h. (tt, tt), λ h. refl)
  verify_from-IsLinked a (b ∷ bs) =
      ground
        (arith, verify_from-IsLinked b bs, same_text_iff b.header.previous_hash (hash_of sha256 a))

  verify_from-none-IsLinked :
      (bs : List Block)
      → (verify_from sha256 crypto_verify none bs ≡ ok true) ↔ (All IsVerified bs × IsLinked bs)
  unfolding verify_from verify links_back
  verify_from-none-IsLinked [] = (λ h. (tt, tt), λ h. refl)
  verify_from-none-IsLinked (a ∷ bs) = ground (arith, verify_from-IsLinked a bs)

  pub verify_blockchain-IsLinked :
      (c : Blockchain)
      → c.held ≡ false
      → (verify_blockchain sha256 crypto_verify c ≡ ok true)
        ↔ (All IsVerified c.blocks × IsLinked c.blocks)
  unfolding verify_blockchain
  verify_blockchain-IsLinked c free =
      let reads = reading_free c.blocks c free in
      let exact = verify_from-none-IsLinked c.blocks in
      (λ h. exact.0 (rw reads at h), λ h. rw reads (exact.1 h))

  abbrev pub IsValidIn : Blockchain → Block → Type 0
  IsValidIn c block = validate_block sha256 crypto_verify block c ≡ ok true

  all_valid-IsValidIn :
      (bs : List Block) (c : Blockchain)
      → (all_valid sha256 crypto_verify bs c ≡ ok true) ↔ All (IsValidIn c) bs
  unfolding all_valid
  all_valid-IsValidIn [] c = (λ h. tt, λ h. refl)
  all_valid-IsValidIn (b ∷ bs) c = ground (arith, all_valid-IsValidIn bs c)

  refresh_at-blocks :
      (last : Option Block) (c : Blockchain) → (refresh_at sha256 last c).blocks ≡ c.blocks
  refresh_at-blocks none c = refl
  refresh_at-blocks (some best) c = refl

  -- Where importBlockchain of blocks that were read comes back, it answers true just where each of them is
  -- valid by itself, and then they are the blocks of the chain; otherwise the chain stays as it was.
  pub import_blockchain-IsValidIn :
      (blocks : List Block) (c d : Blockchain) (answer : Bool)
      → import_blockchain sha256 crypto_verify (some blocks) c ≡ ok (answer, d)
      → ((answer ≡ true) ↔ All (IsValidIn c) blocks)
        × (answer ≡ true → d.blocks ≡ blocks)
        × (answer ≡ false → d ≡ c)
  unfolding import_blockchain
  import_blockchain-IsValidIn blocks c d answer e =
      imported (all_valid sha256 crypto_verify blocks c) refl e
    where
      imported :
          (run : Run Bool)
          → all_valid sha256 crypto_verify blocks c ≡ run
          → ◌>>=◌ {B = Bool × Blockchain} run (λ valid.
            if not valid then ok (false, c) else ok (true, replace_blocks sha256 blocks c))
            ≡ ok (answer, d)
          → ((answer ≡ true) ↔ All (IsValidIn c) blocks)
            × (answer ≡ true → d.blocks ≡ blocks)
            × (answer ≡ false → d ≡ c)
      imported (ok true) v h =
          let exact = all_valid-IsValidIn blocks c in
          let stays : replace_blocks sha256 blocks c ≡ d = cc in
          (
            (λ t. exact.0 v, λ all. cc),
            λ t.
                ap (λ (x : Blockchain). x.blocks) (sym stays)
                ∙ refresh_at-blocks (last_of blocks) _,
            λ f. absurd (cc),
          )
      imported (ok false) v h =
          let exact = all_valid-IsValidIn blocks c in
          ((λ t. absurd (cc), λ all. absurd (cc (exact.1 all))), λ t. absurd (cc), λ f. cc)
      imported (throws x) v h = absurd (cc)
      imported undefined v h = absurd (cc)
      imported no_fuel v h = absurd (cc)

  -- So importBlockchain takes two valid blocks that are not linked, and then verifyBlockchain does not answer
  -- true.
  pub import_blockchain_unlinked :
      (a b : Block) (c : Blockchain)
      → c.held ≡ false
      → IsValidIn c a
      → IsValidIn c b
      → b.header.previous_hash ≢ hash_of sha256 a
      → (d : Blockchain) × (import_blockchain sha256 crypto_verify (some (a ∷ b ∷ [])) c
          ≡ ok (true, d))
        × (verify_blockchain sha256 crypto_verify d ≢ ok true)
  unfolding import_blockchain
  import_blockchain_unlinked a b c free valid_a valid_b apart =
      let fine = (all_valid-IsValidIn (a ∷ b ∷ []) c).1 (valid_a, (valid_b, tt)) in
      let d = replace_blocks sha256 (a ∷ b ∷ []) c in
      (d, rw fine refl, λ all. apart ((verify_blockchain-IsLinked d free).0 all).1.0)

backwards-append :
    (bs cs later : List Block) → backwards (bs ++ cs) later ≡ backwards cs (backwards bs later)
backwards-append [] cs later = refl
backwards-append (b ∷ bs) cs later = backwards-append bs cs (b ∷ later)

-- While nobody holds the mutex, the next difficulty after a block of a difficulty of at least 1, below
-- 2 ^ 31, that is no older than the one before, is at least 1 and between half and twice that difficulty: twice
-- where the two are less than 300 seconds apart, and half of a difficulty of at least 2 where they are more
-- than 1200 apart.
pub calculate_next_difficulty_bounds :
    (c : Blockchain) (earlier : List Block) (prev last : Block)
    → c.held ≡ false
    → c.blocks ≡ earlier ++ (prev ∷ last ∷ [])
    → 1 ≤ last.header.difficulty
    → last.header.difficulty < 2 ^ 31
    → prev.header.timestamp ≤ last.header.timestamp
    → last.header.timestamp < 2 ^ 64
    → (next : ℕ) × (calculate_next_difficulty c ≡ ok next)
      × (1 ≤ next)
      × (last.header.difficulty / 2 ≤ next)
      × (next ≤ 2 * last.header.difficulty)
      × (last.header.timestamp < prev.header.timestamp + 300 → next ≡ 2 * last.header.difficulty)
      × (prev.header.timestamp + 1200 < last.header.timestamp
          → 2 ≤ last.header.difficulty
          → next ≡ last.header.difficulty / 2)
unfolding calculate_next_difficulty next_difficulty
calculate_next_difficulty_bounds c earlier prev last free tail least most order small =
    let shape : backwards c.blocks [] ≡ last ∷ prev ∷ backwards earlier [] =
      ap (λ (bs : List Block). backwards bs []) tail
      ∙ backwards-append earlier (prev ∷ last ∷ []) [] in
    let next = next_difficulty c.config.initial_difficulty (backwards c.blocks []) in
    (
      next,
      reading_free next c free,
      rw shape (ground arith),
      rw shape (ground arith),
      rw shape (ground arith),
      rw shape (λ h. ground arith),
      rw shape (λ h two. ground arith),
    )
