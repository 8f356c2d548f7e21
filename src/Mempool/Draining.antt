-- ===== src/Mempool/Draining.antt =====
-- The thread of a TransactionMempool that validates: no transaction is left without a verdict.
use deo.Prelude.{
  ◌≡◌, refl, Bool, true, false, Bool-cases, inl, inr, if◌then◌else◌, Option, none, some, List, [],
  ◌∷◌, ◌++◌, length, All, All-mono,
}
use deo.Prelude.Run.{Run, ok, Holds, Holds-bind, Holds-then_at, Holds-mono, Holds-if, Holds_at}
use deo.Prelude.Texts.{Text}
use deo.Prelude.Dicts.{is_some, Dict, lookup, IsDict, All-insert, All-erase, All-lookup}
use deo.Transaction.{get_id}
use deo.Mempool.{
  MempoolEntry, MempoolStats, Mempool, with_room, new_entry, id_of, has_key, add_transaction,
  remove_transaction, cleanup_expired_transactions, validate_transaction, counted_valid,
  finish_validation, validate_found, validate_front, validate_next, validation_loop,
  validate_entries, validate_all_transactions,
}
use deo.Mempool.Room.{All-with_room, All-drop_expired}
use deo.Mempool.Marking.{Same, Same-IsDict, validate_found-Same}
use deo.Mempool.Bounded.{Step, Reach, Reach-IsSound}
use deo.Mempool.Tracking.{
  IsSettled, IsTracked, IsMeasurable, verdict, Tracks, found-Tracks, has_key_last, append-IsTracked,
}

module _ (crypto_verify : Text → Text → Text → Run Bool) where
  found_returns :
      (id : Text) (p : Mempool) (found : Option MempoolEntry)
      → ((entry : MempoolEntry) → found ≡ some entry → IsMeasurable crypto_verify entry.transaction)
      → (q : Mempool) × (validate_found crypto_verify id p found ≡ ok q)
  unfolding validate_found
  found_returns id p none g = (p, refl)
  found_returns id p (some entry) g =
      elim (verdict crypto_verify entry.transaction (g entry refl)) [
        | inl good ↦ (finish_validation crypto_verify id p true, rw good refl)
        | inr bad ↦ (finish_validation crypto_verify id p false, rw bad refl)
      ]

  abbrev AreMeasurable : Dict MempoolEntry → Type 0
  AreMeasurable m =
      All (λ (kv : Text × MempoolEntry). IsMeasurable crypto_verify kv.1.transaction) m

  Same-IsMeasurable : (m n : Dict MempoolEntry) → Same m n → AreMeasurable m → AreMeasurable n
  Same-IsMeasurable [] [] e h = tt
  Same-IsMeasurable [] (y ∷ n) e h = absurd e
  Same-IsMeasurable (x ∷ m) [] e h = absurd e
  Same-IsMeasurable ((k, entry) ∷ m) ((j, other) ∷ n) (p, q, e) (s, h) =
      (rw (← q) s, Same-IsMeasurable m n e h)

  found-IsMeasurable :
      (id : Text) (m : Dict MempoolEntry) (entry : MempoolEntry)
      → AreMeasurable m
      → lookup id m ≡ some entry
      → IsMeasurable crypto_verify entry.transaction
  found-IsMeasurable id m entry h e =
      All-lookup (λ (kv : Text × MempoolEntry). IsMeasurable crypto_verify kv.1.transaction) id
        entry m h e

  settled :
      (m : Dict MempoolEntry)
      → All (IsTracked crypto_verify []) m
      → All (λ kv. IsSettled crypto_verify kv.1) m
  unfolding has_key
  settled [] h = tt
  settled (x ∷ m) (inl s, h) = (s, settled m h)
  settled (x ∷ m) (inr w, h) = absurd (cc)

  -- The loop has enough fuel for its queue.
  drains :
      (queue : List Text) (p : Mempool)
      → p.validation_queue ≡ queue
      → IsDict p.transactions
      → AreMeasurable p.transactions
      → All (IsTracked crypto_verify queue) p.transactions
      → (q : Mempool) × (validation_loop crypto_verify (length queue) p ≡ ok q)
        × (q.validation_queue ≡ [])
        × All (λ kv. IsSettled crypto_verify kv.1) q.transactions
  unfolding validation_loop validate_next validate_front
  drains [] p e d g h = (p, rw e refl, e, settled p.transactions h)
  drains (id ∷ queue) p e d g h =
      let popped : Mempool = record p { validation_queue = queue } in
      let found = lookup id p.transactions in
      let (r, returned) =
        found_returns id popped found (λ entry f. found-IsMeasurable id p.transactions entry g f) in
      let same =
        Holds_at (λ t. Same p.transactions t.transactions)
          (validate_found crypto_verify id popped found) r
          (validate_found-Same crypto_verify id popped found) returned in
      let (left, tracked) =
        Holds_at (Tracks crypto_verify queue) (validate_found crypto_verify id popped found) r
          (found-Tracks crypto_verify id queue popped found refl d refl h) returned in
      let (q, ran, empty, all) =
        drains queue r left (Same-IsDict p.transactions r.transactions same d)
          (Same-IsMeasurable p.transactions r.transactions same g) tracked in
      (q, rw (e, returned) ran, empty, all)

  validated-IsSettled :
      (entry : MempoolEntry) (good : Bool)
      → validate_transaction crypto_verify entry.transaction ≡ ok good
      → IsSettled crypto_verify (if good then record entry { is_validated = true } else entry)
  validated-IsSettled entry true v = inl refl
  validated-IsSettled entry false v = inr v

  abbrev Settled : Dict MempoolEntry × MempoolStats → Type 0
  Settled r = All (λ kv. IsSettled crypto_verify kv.1) r.0

  validate_entries-IsSettled :
      (m : Dict MempoolEntry) (stats : MempoolStats)
      → Holds
          (λ r. All (λ kv. IsSettled crypto_verify kv.1) r.0)
          (validate_entries crypto_verify m stats)
  unfolding validate_entries
  validate_entries-IsSettled [] stats = tt
  validate_entries-IsSettled ((k, entry) ∷ m) stats =
      Holds-if Settled entry.is_validated _ _
        (λ done.
          Holds-bind Settled Settled (validate_entries crypto_verify m stats) _
            (validate_entries-IsSettled m stats) (λ r h. (inl done, h)))
        (λ waits.
          Holds-then_at Settled (validate_transaction crypto_verify entry.transaction) _ (λ good v.
            Holds-bind Settled Settled
              (validate_entries crypto_verify m
                (if good then counted_valid crypto_verify stats else stats))
              _
              (validate_entries-IsSettled m
                (if good then counted_valid crypto_verify stats else stats))
              (λ r h. (validated-IsSettled entry good v, h))))

  validate_all_transactions-IsTracked :
      (p : Mempool)
      → Holds
          (λ q. All (IsTracked crypto_verify q.validation_queue) q.transactions)
          (validate_all_transactions crypto_verify p)
  unfolding validate_all_transactions
  validate_all_transactions-IsTracked p =
      Holds-bind Settled (λ q. All (IsTracked crypto_verify q.validation_queue) q.transactions)
        (validate_entries crypto_verify p.transactions p.stats) _
        (validate_entries-IsSettled p.transactions p.stats)
        (λ r h. All-mono _ _ r.0 (λ kv s. inl s) h)

  validate_front-IsTracked :
      (p : Mempool) (queue : List Text)
      → p.validation_queue ≡ queue
      → IsDict p.transactions
      → All (IsTracked crypto_verify queue) p.transactions
      → Holds
          (λ q. All (IsTracked crypto_verify q.validation_queue) q.transactions)
          (validate_front crypto_verify p queue)
  unfolding validate_front
  validate_front-IsTracked p [] e d h = rw e h
  validate_front-IsTracked p (id ∷ queue) e d h =
      let popped : Mempool = record p { validation_queue = queue } in
      Holds-mono (Tracks crypto_verify queue)
        (λ q. All (IsTracked crypto_verify q.validation_queue) q.transactions)
        (validate_found crypto_verify id popped (lookup id p.transactions)) (λ q t. rw t.0 t.1)
        (found-Tracks crypto_verify id queue popped (lookup id p.transactions) refl d refl h)

module _ (sha256 : Text → Text) (crypto_verify : Text → Text → Text → Run Bool) where
  Step-IsTracked :
      {p q : Mempool}
      → Step sha256 crypto_verify p q
      → IsDict p.transactions
      → All (IsTracked crypto_verify p.validation_queue) p.transactions
      → All (IsTracked crypto_verify q.validation_queue) q.transactions
  unfolding add_transaction remove_transaction cleanup_expired_transactions validate_next
  Step-IsTracked (Step.adds {p} now none) d h = h
  Step-IsTracked (Step.adds {p} now (some tx)) d h =
      let id = id_of sha256 tx in
      let longer = p.validation_queue ++ id ∷ [] in
      elim (Bool-cases (is_some (lookup id p.transactions))) [
        | inl known ↦ rw known h
        | inr new ↦ rw new (
            All-insert (IsTracked crypto_verify longer) id (new_entry (get_id sha256 tx).1 now)
              (with_room p.transactions) (inr (has_key_last id p.validation_queue))
              (All-with_room (IsTracked crypto_verify longer) p.transactions (
                All-mono _ _ p.transactions
                  (append-IsTracked crypto_verify p.validation_queue (id ∷ [])) h)))
      ]
  Step-IsTracked (Step.removes {p} id) d h =
      elim (Bool-cases (is_some (lookup id p.transactions))) [
        | inl found ↦
            rw found (All-erase (IsTracked crypto_verify p.validation_queue) id p.transactions h)
        | inr missing ↦ rw missing h
      ]
  Step-IsTracked (Step.expires {p} now) d h =
      All-drop_expired (IsTracked crypto_verify p.validation_queue) now p.transactions h
  Step-IsTracked (Step.validates {p} {q} e) d h =
      Holds_at (λ r. All (IsTracked crypto_verify r.validation_queue) r.transactions)
        (validate_front crypto_verify p p.validation_queue) q
        (validate_front-IsTracked crypto_verify p p.validation_queue refl d h) e
  Step-IsTracked (Step.validates_all {p} {q} e) d h =
      Holds_at (λ r. All (IsTracked crypto_verify r.validation_queue) r.transactions)
        (validate_all_transactions crypto_verify p) q
        (validate_all_transactions-IsTracked crypto_verify p) e

  Reach-IsTracked :
      {p : Mempool}
      → Reach sha256 crypto_verify p
      → All (IsTracked crypto_verify p.validation_queue) p.transactions
  Reach-IsTracked (Reach.starts stats) = tt
  Reach-IsTracked (Reach.steps r s) =
      Step-IsTracked s (Reach-IsSound sha256 crypto_verify r).distinct (Reach-IsTracked r)

  -- In a pool that the calls of its users and the rounds of its threads lead to, whose transactions all
  -- serialize and have signatures that can be verified without an exception, the loop of the validation comes back with an empty queue after as many rounds as the queue
  -- is long, and then every entry is validated, or is one that the validation rejects.
  pub validation_loop-IsSettled :
      {p : Mempool}
      → Reach sha256 crypto_verify p
      → AreMeasurable crypto_verify p.transactions
      → (q : Mempool) × (validation_loop crypto_verify (length p.validation_queue) p ≡ ok q)
        × (q.validation_queue ≡ [])
        × All (λ kv. IsSettled crypto_verify kv.1) q.transactions
  validation_loop-IsSettled {p} r g =
      drains crypto_verify p.validation_queue p refl (Reach-IsSound sha256 crypto_verify r).distinct
        g (Reach-IsTracked r)
