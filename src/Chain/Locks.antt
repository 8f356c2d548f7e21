-- ===== src/Chain/Locks.antt =====
-- blockchain_mutex_ of src/core/blockchain.cpp: which calls lock it a second time.
use deo.Prelude.{
  ℕ, ◌<◌, ◌≡◌, ◌≤◌, refl, sym, ap, ◌∙◌, Bool, true, false, ◌==◌, not, if◌then◌else◌, Bool-cases,
  inl, inr, some, List, [], ◌∷◌, length, map, take, arith,
}
use deo.Prelude.Run.{Run, ok, throws, undefined, no_fuel, ◌>>=◌}
use deo.Prelude.Texts.{Text}
use deo.Prelude.Dicts.{Dict, lookup, is_some}
use deo.Transaction.{Transaction}
use deo.Block.{Block}
use deo.Chain.{Blockchain, Act, locked, reading, with_held, get_best_block, hash_of}
use deo.Chain.Ancestry.{handle_chain_reorganization}
use deo.Chain.Growth.{validate_block, calculate_next_difficulty}
use deo.Chain.Extension.{add_locked, add_block, create_new_block, mining_round}

module _ {ℓ} {A : Type ℓ} (body : Act A) (c : Blockchain) (free : c.held ≡ false) where
  abbrev closing : Run (A × Blockchain) → Run (A × Blockchain)
  closing run = do (a, after) ← run; ok (a, with_held false after)

  abbrev closed : Run (A × Blockchain)
  closed = closing (body (with_held true c))

  pub locked_opens : locked body c ≡ closed
  unfolding locked
  locked_opens =
      ap (λ (held : Bool). if◌then◌else◌ {A = Run (A × Blockchain)} held undefined closed) free

  -- The mutex is given back.
  pub locked-unchanged :
      (a : A) → body (with_held true c) ≡ ok (a, with_held true c) → locked body c ≡ ok (a, c)
  locked-unchanged a e =
      let back : with_held false c ≡ c = ap (λ (h : Bool). with_held h c) (sym free) in
      locked_opens ∙ ap closing e ∙ ap (λ (d : Blockchain). ok (a, d)) back

pub reading_free {ℓ} : {A : Type ℓ} (a : A) (c : Blockchain) → c.held ≡ false → reading a c ≡ ok a
unfolding reading
reading_free a c free = rw free refl

module _ (sha256 : Text → Text) where
  -- handleChainReorganization asks for the best block while it holds the mutex, which getBestBlock locks.
  pub handle_chain_reorganization_undefined :
      (fuel : ℕ) (block : Block) (c : Blockchain)
      → handle_chain_reorganization sha256 fuel (some block) c ≡ undefined
  unfolding handle_chain_reorganization get_best_block reading locked
  handle_chain_reorganization_undefined fuel block c = elim (Bool-cases c.held) [
    | inl taken ↦ rw taken refl
    | inr free ↦ rw free refl
  ]

  -- So does createNewBlock, by calculateNextDifficulty.
  pub create_new_block_undefined :
      (now : ℕ) (transactions : List Transaction) (c : Blockchain)
      → create_new_block sha256 now transactions c ≡ undefined
  unfolding create_new_block calculate_next_difficulty reading locked
  create_new_block_undefined now transactions c = elim (Bool-cases c.held) [
    | inl taken ↦ rw taken refl
    | inr free ↦ rw free refl
  ]

  module _ (crypto_verify : Text → Text → Text → Run Bool) where
    same-validate_block :
        (block : Block) (c : Blockchain) (held : Bool)
        → validate_block sha256 crypto_verify block (with_held held c)
          ≡ validate_block sha256 crypto_verify block c
    unfolding validate_block
    same-validate_block block c held = refl

    module _ (begin_of : Dict Transaction → Text) (store : Block → Bool) (fuel : ℕ) where
      -- addBlock in a chain that nobody has locked, by how validateBlock ends.
      abbrev pub AddsAs : Block → Blockchain → Run Bool → Run (Bool × Blockchain) → Type 0
      AddsAs block c (ok valid) run = run ≡ (
          if not valid
          then ok (false, c)
          else if is_some (lookup (hash_of sha256 block) c.block_index)
          then ok (true, c)
          else undefined)
      AddsAs block c (throws x) run = run ≡ throws x
      AddsAs block c undefined run = run ≡ undefined
      AddsAs block c no_fuel run = run ≡ no_fuel

      add_locked_lem :
          (block : Block) (c : Blockchain) (valid : Bool)
          → c.held ≡ false
          → validate_block sha256 crypto_verify block c ≡ ok valid
          → locked (add_locked sha256 crypto_verify begin_of store fuel block) c ≡ (
              if not valid
              then ok (false, c)
              else if is_some (lookup (hash_of sha256 block) c.block_index)
              then ok (true, c)
              else undefined)
      add_locked_lem block c false free e =
          locked-unchanged (add_locked sha256 crypto_verify begin_of store fuel block) c free false
            (rw (same-validate_block block c true ∙ e) refl)
      add_locked_lem block c true free e =
          let checks = same-validate_block block c true ∙ e in
          let body = add_locked sha256 crypto_verify begin_of store fuel block in
          elim (Bool-cases (is_some (lookup (hash_of sha256 block) c.block_index))) [
            | inl known ↦
                locked-unchanged body c free true (rw (checks, known) refl) ∙ rw known refl
            | inr new ↦
                locked_opens body c free
                ∙ rw
                    (
                      checks,
                      new,
                      handle_chain_reorganization_undefined fuel block (with_held true c),
                    )
                    refl
          ]

      adds :
          (block : Block) (c : Blockchain) (result : Run Bool)
          → c.held ≡ false
          → validate_block sha256 crypto_verify block c ≡ result
          → AddsAs block c result
              (add_block sha256 crypto_verify begin_of store fuel (some block) c)
      unfolding add_block
      adds block c (ok valid) free e = add_locked_lem block c valid free e
      adds block c (throws x) free e =
          locked_opens (add_locked sha256 crypto_verify begin_of store fuel block) c free
          ∙ rw (same-validate_block block c true ∙ e) refl
      adds block c undefined free e =
          locked_opens (add_locked sha256 crypto_verify begin_of store fuel block) c free
          ∙ rw (same-validate_block block c true ∙ e) refl
      adds block c no_fuel free e =
          locked_opens (add_locked sha256 crypto_verify begin_of store fuel block) c free
          ∙ rw (same-validate_block block c true ∙ e) refl

      -- In a chain that nobody has locked, addBlock answers false for a block that validateBlock finds not
      -- valid, and true for a valid one whose hash is known, and leaves the chain as it was. Where
      -- validateBlock throws, as for a signature that is not hexadecimal, addBlock throws the same. For every
      -- other block it locks its mutex a second time, so that no call of it adds a block.
      pub add_block_exact :
          (block : Block) (c : Blockchain)
          → c.held ≡ false
          → AddsAs block c
              (validate_block sha256 crypto_verify block c)
              (add_block sha256 crypto_verify begin_of store fuel (some block) c)
      add_block_exact block c free =
          adds block c (validate_block sha256 crypto_verify block c) free refl

      -- So it never changes the chain.
      pub adds_nothing :
          (block : Block) (c d : Blockchain) (answer : Bool)
          → c.held ≡ false
          → add_block sha256 crypto_verify begin_of store fuel (some block) c ≡ ok (answer, d)
          → c ≡ d
      adds_nothing block c d answer free e =
          stays (validate_block sha256 crypto_verify block c) (add_block_exact block c free)
        where
          stays :
              (result : Run Bool)
              → AddsAs block c result
                  (add_block sha256 crypto_verify begin_of store fuel (some block) c)
              → c ≡ d
          stays (ok false) exact = let same : ok (false, c) ≡ ok (answer, d) = sym exact ∙ e in cc
          stays (ok true) exact =
              elim (Bool-cases (is_some (lookup (hash_of sha256 block) c.block_index))) [
                | inl known ↦
                    let same : ok (true, c) ≡ ok (answer, d) = sym (exact ∙ rw known refl) ∙ e in cc
                | inr new ↦
                    let stuck : undefined ≡ ok (answer, d) = sym (exact ∙ rw new refl) ∙ e in
                    absurd (cc)
              ]
          stays (throws x) exact =
              let stuck : throws x ≡ ok (answer, d) = sym exact ∙ e in absurd (cc)
          stays undefined exact =
              let stuck : undefined ≡ ok (answer, d) = sym exact ∙ e in absurd (cc)
          stays no_fuel exact = let stuck : no_fuel ≡ ok (answer, d) = sym exact ∙ e in absurd (cc)

      abbrev taken : Dict Transaction → List Transaction
      taken m = take 100 (map (λ (e : Text × Transaction). e.1) m)

      taken_waiting : (m : Dict Transaction) → 0 < length m → (length (taken m) == 0) ≡ false
      taken_waiting [] h = absurd (omega arith)
      taken_waiting (e ∷ m) h = ground arith

      taken_idle : (m : Dict Transaction) → length m ≤ 0 → (length (taken m) == 0) ≡ true
      taken_idle [] h = refl
      taken_idle (e ∷ m) h = absurd (omega arith)

      -- A round of miningWorker locks its mutex twice too, as soon as the pool has a transaction.
      pub mining_round_undefined :
          (clock : ℕ → ℕ) (stopped_by : ℕ → Bool) (rounds now : ℕ) (c : Blockchain)
          → 0 < length c.mempool
          → mining_round sha256 crypto_verify begin_of store fuel clock stopped_by rounds now c
            ≡ undefined
      unfolding mining_round reading
      mining_round_undefined clock stopped_by rounds now c waiting =
          let some_taken = taken_waiting c.mempool waiting in
          elim (Bool-cases c.held) [
            | inl locked_already ↦ rw locked_already refl
            | inr free ↦ rw (free, some_taken) refl
          ]

      pub mining_round_idle :
          (clock : ℕ → ℕ) (stopped_by : ℕ → Bool) (rounds now : ℕ) (c : Blockchain)
          → c.held ≡ false
          → length c.mempool ≤ 0
          → mining_round sha256 crypto_verify begin_of store fuel clock stopped_by rounds now c
            ≡ ok (tt, c)
      unfolding mining_round
      mining_round_idle clock stopped_by rounds now c free idle =
          let none_taken : (length (taken c.mempool) == 0) ≡ true = taken_idle c.mempool idle in
          let reads : reading (taken c.mempool) c ≡ ok (taken c.mempool) =
            reading_free (taken c.mempool) c free in
          rw (reads, none_taken) refl
