-- ===== src/Mempool/Tracking.antt =====
-- A round of the validation leaves every other transaction tracked: judged, or in the queue.
use deo.Prelude.{
  ℕ, ◌≡◌, refl, Bool, true, false, Bool-cases, inl, inr, ◌⊎◌, Option, none, some, List, [], ◌∷◌,
  ◌++◌, All, arith,
}
use deo.Prelude.Run.{Run, ok, Holds, Holds-then_at}
use deo.Prelude.Texts.{Text, same_text, same_text_iff}
use deo.Prelude.Dicts.{Dict, lookup, IsDict}
use deo.Transaction.{Transaction, verify}
use deo.Transaction.Wire.{get_size}
use deo.Mempool.{
  MempoolEntry, Mempool, has_key, validate_transaction, mark_validated, finish_validation,
  validate_found,
}

-- The queue grows at its end.
has_key-append :
    (k : Text) (queue more : List Text) → has_key k queue ≡ true → has_key k (queue ++ more) ≡ true
unfolding has_key
has_key-append k [] more h = absurd (cc)
has_key-append k (j ∷ queue) more h = ground (arith, has_key-append k queue more)

pub has_key_last : (k : Text) (queue : List Text) → has_key k (queue ++ k ∷ []) ≡ true
unfolding has_key
has_key_last k [] = ground (arith, same_text_iff k k)
has_key_last k (j ∷ queue) = ground (arith, has_key_last k queue)

module _ (crypto_verify : Text → Text → Text → Run Bool) where
  -- An entry has its verdict: it is validated, or the validation rejects it.
  abbrev pub IsSettled : MempoolEntry → Type 0
  IsSettled entry =
      (entry.is_validated ≡ true)
      ⊎ (validate_transaction crypto_verify entry.transaction ≡ ok false)

  -- An entry has its verdict or waits for it.
  abbrev pub IsTracked : List Text → Text × MempoolEntry → Type 0
  IsTracked queue kv = IsSettled kv.1 ⊎ (has_key kv.0 queue ≡ true)

  -- The transaction serializes, and its signatures verify or do not: none of them throws.
  abbrev pub IsMeasurable : Transaction → Type 0
  IsMeasurable tx =
      ((size : ℕ) × (get_size tx ≡ ok size)) × ((good : Bool) × (verify crypto_verify tx ≡ ok good))

  pub verdict :
      (tx : Transaction)
      → IsMeasurable tx
      → (validate_transaction crypto_verify tx ≡ ok true)
        ⊎ (validate_transaction crypto_verify tx ≡ ok false)
  unfolding validate_transaction
  verdict tx ((size, e), (good, v)) = rw (e, v) (ground arith)

  -- Off the queue goes an identity that no entry has.
  missing-IsTracked :
      (id : Text) (queue : List Text) (m : Dict MempoolEntry)
      → lookup id m ≡ none
      → All (IsTracked (id ∷ queue)) m
      → All (IsTracked queue) m
  unfolding lookup has_key
  missing-IsTracked id queue [] e h = tt
  missing-IsTracked id queue ((k, entry) ∷ m) e (inl s, h) =
      (inl s, missing-IsTracked id queue m (ground (arith, e)) h)
  missing-IsTracked id queue ((k, entry) ∷ m) e (inr waits, h) = (
    inr (ground (arith, e, waits, same_text_iff k id, same_text_iff id k)),
    missing-IsTracked id queue m (ground (arith, e)) h,
  )

  rejected-IsTracked :
      (id : Text) (queue : List Text) (entry : MempoolEntry) (m : Dict MempoolEntry)
      → IsDict m
      → lookup id m ≡ some entry
      → validate_transaction crypto_verify entry.transaction ≡ ok false
      → All (IsTracked (id ∷ queue)) m
      → All (IsTracked queue) m
  unfolding lookup has_key IsDict
  rejected-IsTracked id queue entry [] d e bad h = tt
  rejected-IsTracked id queue entry ((k, other) ∷ m) (new, d) e bad (s, h) =
      elim (Bool-cases (same_text k id)) [
        | inl hit ↦
            let same : k ≡ id = (same_text_iff k id).0 hit in
            let found : other ≡ entry = ground (arith, e, hit) in
            (inl (inr (rw found bad)), missing-IsTracked id queue m (rw (← same) new) h)
        | inr miss ↦ (
          elim s [
            | inl done ↦ inl done
            | inr waits ↦ inr (ground (arith, miss, waits, same_text_iff k id, same_text_iff id k))
          ],
          rejected-IsTracked id queue entry m d (ground (arith, e, miss)) bad h,
        )
      ]

  mark_validated-IsTracked :
      (id : Text) (queue : List Text) (m : Dict MempoolEntry)
      → IsDict m
      → All (IsTracked (id ∷ queue)) m
      → All (IsTracked queue) (mark_validated crypto_verify id m)
  unfolding mark_validated has_key IsDict
  mark_validated-IsTracked id queue [] d h = tt
  mark_validated-IsTracked id queue ((k, entry) ∷ m) (new, d) (s, h) =
      elim (Bool-cases (same_text k id)) [
        | inl hit ↦
            let same : k ≡ id = (same_text_iff k id).0 hit in
            rw hit (inl (inl refl), missing-IsTracked id queue m (rw (← same) new) h)
        | inr miss ↦ rw miss (
          elim s [
            | inl done ↦ inl done
            | inr waits ↦ inr (ground (arith, miss, waits, same_text_iff k id, same_text_iff id k))
          ],
          mark_validated-IsTracked id queue m d h,
        )
      ]

  -- What holds of a pool with a given queue left.
  abbrev pub Tracks : List Text → Mempool → Type 0
  Tracks queue p = (p.validation_queue ≡ queue) × All (IsTracked queue) p.transactions

  validated-Tracks :
      (id : Text) (queue : List Text) (entry : MempoolEntry) (p : Mempool) (good : Bool)
      → p.validation_queue ≡ queue
      → IsDict p.transactions
      → lookup id p.transactions ≡ some entry
      → validate_transaction crypto_verify entry.transaction ≡ ok good
      → All (IsTracked (id ∷ queue)) p.transactions
      → Tracks queue (finish_validation crypto_verify id p good)
  unfolding finish_validation
  validated-Tracks id queue entry p false q d e v h =
      (q, rejected-IsTracked id queue entry p.transactions d e v h)
  validated-Tracks id queue entry p true q d e v h =
      (q, mark_validated-IsTracked id queue p.transactions d h)

  pub found-Tracks :
      (id : Text) (queue : List Text) (p : Mempool) (found : Option MempoolEntry)
      → p.validation_queue ≡ queue
      → IsDict p.transactions
      → lookup id p.transactions ≡ found
      → All (IsTracked (id ∷ queue)) p.transactions
      → Holds (Tracks queue) (validate_found crypto_verify id p found)
  unfolding validate_found
  found-Tracks id queue p none q d e h = (q, missing-IsTracked id queue p.transactions e h)
  found-Tracks id queue p (some entry) q d e h =
      Holds-then_at (Tracks queue) (validate_transaction crypto_verify entry.transaction) _
        (λ good v. validated-Tracks id queue entry p good q d e v h)

  pub append-IsTracked :
      (queue more : List Text) (kv : Text × MempoolEntry)
      → IsTracked queue kv
      → IsTracked (queue ++ more) kv
  append-IsTracked queue more kv (inl s) = inl s
  append-IsTracked queue more kv (inr w) = inr (has_key-append kv.0 queue more w)
