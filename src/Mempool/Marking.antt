-- ===== src/Mempool/Marking.antt =====
-- The validation of a TransactionMempool marks entries, and keeps their keys and transactions.
use deo.Prelude.{
  ◌≡◌, refl, Bool, true, false, Bool-cases, inl, inr, if◌then◌else◌, Option, none, some, List, [],
  ◌∷◌, length, arith,
}
use deo.Prelude.Run.{Run, Holds, Holds-bind, Holds-then, Holds-if}
use deo.Prelude.Texts.{Text, same_text}
use deo.Prelude.Dicts.{Dict, lookup, IsDict}
use deo.Mempool.{
  MempoolEntry, MempoolStats, Mempool, validate_transaction, mark_validated, counted_valid,
  finish_validation, validate_found, validate_front, validate_entries, validate_all_transactions,
}

-- The same keys, with the same transactions.
abbrev pub Same : Dict MempoolEntry → Dict MempoolEntry → Type 0
Same [] [] = Unit
Same [] (y ∷ n) = ⊥
Same (x ∷ m) [] = ⊥
Same ((k, entry) ∷ m) ((j, other) ∷ n) =
    (k ≡ j) × (entry.transaction ≡ other.transaction) × Same m n

pub Same-refl : (m : Dict MempoolEntry) → Same m m
Same-refl [] = tt
Same-refl ((k, entry) ∷ m) = (refl, refl, Same-refl m)

pub Same-length : (m n : Dict MempoolEntry) → Same m n → length m ≡ length n
Same-length [] [] e = refl
Same-length [] (y ∷ n) e = absurd e
Same-length (x ∷ m) [] e = absurd e
Same-length (x ∷ m) (y ∷ n) (p, q, e) = omega (arith, Same-length m n e)

Same-none : (i : Text) (m n : Dict MempoolEntry) → Same m n → lookup i m ≡ none → lookup i n ≡ none
unfolding lookup
Same-none i [] [] e h = h
Same-none i [] (y ∷ n) e h = absurd e
Same-none i (x ∷ m) [] e h = absurd e
Same-none i ((k, entry) ∷ m) ((j, other) ∷ n) (p, q, e) h = ground (arith, Same-none i m n e)

pub Same-IsDict : (m n : Dict MempoolEntry) → Same m n → IsDict m → IsDict n
unfolding IsDict
Same-IsDict [] [] e h = tt
Same-IsDict [] (y ∷ n) e h = absurd e
Same-IsDict (x ∷ m) [] e h = absurd e
Same-IsDict ((k, entry) ∷ m) ((j, other) ∷ n) (p, q, e) (h, hs) =
    (rw (← p) (Same-none k m n e h), Same-IsDict m n e hs)

module _ (crypto_verify : Text → Text → Text → Run Bool) where
  mark_validated-Same :
      (id : Text) (m : Dict MempoolEntry) → Same m (mark_validated crypto_verify id m)
  unfolding mark_validated
  mark_validated-Same id [] = tt
  mark_validated-Same id ((k, entry) ∷ m) = elim (Bool-cases (same_text k id)) [
    | inl hit ↦ rw hit (refl, refl, Same-refl m)
    | inr miss ↦ rw miss (refl, refl, mark_validated-Same id m)
  ]

  marked_same :
      (entry : MempoolEntry) (good : Bool)
      → entry.transaction
        ≡ (if good then record entry { is_validated = true } else entry).transaction
  marked_same entry true = refl
  marked_same entry false = refl

  validate_entries-Same :
      (m : Dict MempoolEntry) (stats : MempoolStats)
      → Holds (λ r. Same m r.0) (validate_entries crypto_verify m stats)
  unfolding validate_entries
  validate_entries-Same [] stats = tt
  validate_entries-Same ((k, entry) ∷ m) stats =
      Holds-if (λ r. Same ((k, entry) ∷ m) r.0) entry.is_validated _ _
        (λ done.
          Holds-bind (λ r. Same m r.0) (λ r. Same ((k, entry) ∷ m) r.0)
            (validate_entries crypto_verify m stats) _ (validate_entries-Same m stats)
            (λ r e. (refl, refl, e)))
        (λ waits.
          Holds-then (λ r. Same ((k, entry) ∷ m) r.0)
            (validate_transaction crypto_verify entry.transaction) _
            (λ good.
              Holds-bind (λ r. Same m r.0) (λ r. Same ((k, entry) ∷ m) r.0)
                (validate_entries crypto_verify m
                  (if good then counted_valid crypto_verify stats else stats))
                _
                (validate_entries-Same m
                  (if good then counted_valid crypto_verify stats else stats))
                (λ r e. (refl, marked_same entry good, e))))

  finish_validation-Same :
      (id : Text) (p : Mempool) (good : Bool)
      → Same p.transactions (finish_validation crypto_verify id p good).transactions
  unfolding finish_validation
  finish_validation-Same id p false = Same-refl p.transactions
  finish_validation-Same id p true = mark_validated-Same id p.transactions

  pub validate_found-Same :
      (id : Text) (p : Mempool) (found : Option MempoolEntry)
      → Holds (λ q. Same p.transactions q.transactions) (validate_found crypto_verify id p found)
  unfolding validate_found
  validate_found-Same id p none = Same-refl p.transactions
  validate_found-Same id p (some entry) =
      Holds-then (λ q. Same p.transactions q.transactions)
        (validate_transaction crypto_verify entry.transaction) _
        (λ good. finish_validation-Same id p good)

  pub validate_front-Same :
      (p : Mempool) (queue : List Text)
      → Holds (λ q. Same p.transactions q.transactions) (validate_front crypto_verify p queue)
  unfolding validate_front
  validate_front-Same p [] = Same-refl p.transactions
  validate_front-Same p (id ∷ queue) =
      validate_found-Same id (record p { validation_queue = queue }) (lookup id p.transactions)

  pub validate_all-Same :
      (p : Mempool)
      → Holds (λ q. Same p.transactions q.transactions) (validate_all_transactions crypto_verify p)
  unfolding validate_all_transactions
  validate_all-Same p =
      Holds-bind (λ r. Same p.transactions r.0) (λ q. Same p.transactions q.transactions)
        (validate_entries crypto_verify p.transactions p.stats) _
        (validate_entries-Same p.transactions p.stats) (λ r e. e)
