-- ===== src/Mempool/Bounded.antt =====
-- The states that a TransactionMempool reaches: its size, and the keys of its entries.
use deo.Prelude.{
  ℕ, ◌≤◌, ◌≡◌, Bool, Bool-cases, inl, inr, Option, none, some, [], ◌∷◌, length, All, arith,
}
use deo.Prelude.Run.{Run, ok, Holds_at}
use deo.Prelude.Texts.{Text}
use deo.Prelude.Dicts.{
  is_some, nothing_there, Dict, lookup, insert, IsDict, insert-IsDict, erase-IsDict,
  length-insert_new, length-erase_le, All-insert, All-erase,
}
use deo.Transaction.{Transaction, get_id}
use deo.Transaction.Caching.{get_id_again}
use deo.Mempool.{
  MempoolEntry, MempoolStats, Mempool, max_mempool_size, with_room, new_entry, id_of,
  add_transaction, remove_transaction, drop_expired, cleanup_expired_transactions, validate_front,
  validate_next, validate_all_transactions,
}
use deo.Mempool.Room.{
  length-with_room, with_room-none, with_room-IsDict, drop_expired-IsDict, length-drop_expired,
  All-with_room, All-drop_expired,
}
use deo.Mempool.Marking.{Same, Same-length, Same-IsDict, validate_front-Same, validate_all-Same}

-- An entry stands under the identity of its transaction.
module _ (sha256 : Text → Text) where
  abbrev pub IsKeyed : Text × MempoolEntry → Type 0
  IsKeyed (k, entry) = id_of sha256 entry.transaction ≡ k

  pub record IsSound (m : Dict MempoolEntry) : Type 0 where
    pub distinct : IsDict m
    pub bounded : length m ≤ max_mempool_size
    pub keyed : All IsKeyed m

  add-IsSound :
      (now : ℕ) (tx : Transaction) (m : Dict MempoolEntry)
      → lookup (id_of sha256 tx) m ≡ none
      → IsSound m
      → IsSound (insert (id_of sha256 tx) (new_entry (get_id sha256 tx).1 now) (with_room m))
  add-IsSound now tx m e s =
      let id = id_of sha256 tx in
      let entry = new_entry (get_id sha256 tx).1 now in
      let fresh = with_room-none id m e in
      record {
        distinct = insert-IsDict id entry (with_room m) fresh (with_room-IsDict m s.distinct);
        bounded =
            omega
              (arith, length-insert_new id entry (with_room m) fresh, length-with_room m s.bounded);
        keyed =
            All-insert IsKeyed id entry (with_room m) (get_id_again sha256 tx)
              (All-with_room IsKeyed m s.keyed);
      }

  remove-IsSound :
      (id : Text) (p : Mempool)
      → IsSound p.transactions
      → IsSound (remove_transaction id p).1.transactions
  unfolding remove_transaction
  remove-IsSound id p s = elim (Bool-cases (is_some (lookup id p.transactions))) [
    | inl found ↦ rw found record {
      distinct = erase-IsDict id p.transactions s.distinct;
      bounded = omega (arith, length-erase_le id p.transactions, s.bounded);
      keyed = All-erase IsKeyed id p.transactions s.keyed;
    }
    | inr missing ↦ rw missing s
  ]

  Same-IsKeyed : (m n : Dict MempoolEntry) → Same m n → All IsKeyed m → All IsKeyed n
  Same-IsKeyed [] [] e h = tt
  Same-IsKeyed [] (y ∷ n) e h = absurd e
  Same-IsKeyed (x ∷ m) [] e h = absurd e
  Same-IsKeyed ((k, entry) ∷ m) ((j, other) ∷ n) (p, q, e) (h, hs) =
      (rw (← p, ← q) h, Same-IsKeyed m n e hs)

  drop_expired-IsSound :
      (now : ℕ) (m : Dict MempoolEntry) → IsSound m → IsSound (drop_expired now m)
  drop_expired-IsSound now m s = record {
    distinct = drop_expired-IsDict now m s.distinct;
    bounded = omega (arith, length-drop_expired now m, s.bounded);
    keyed = All-drop_expired IsKeyed now m s.keyed;
  }

  -- What marks entries keeps the keys and the transactions.
  pub Same-IsSound : (m n : Dict MempoolEntry) → Same m n → IsSound m → IsSound n
  Same-IsSound m n e s = record {
    distinct = Same-IsDict m n e s.distinct;
    bounded = omega (arith, Same-length m n e, s.bounded);
    keyed = Same-IsKeyed m n e s.keyed;
  }

-- The steps of the pool: the calls of its users and the rounds of its threads.
module _ (sha256 : Text → Text) (crypto_verify : Text → Text → Text → Run Bool) where
  pub data Step : Mempool → Mempool → Type 0 where
    adds :
        {p : Mempool} (now : ℕ) (tx : Option Transaction)
        → Step p (add_transaction sha256 now tx p).1
    removes : {p : Mempool} (id : Text) → Step p (remove_transaction id p).1
    expires : {p : Mempool} (now : ℕ) → Step p (cleanup_expired_transactions now p)
    validates : {p q : Mempool} → validate_next crypto_verify p ≡ ok q → Step p q
    validates_all : {p q : Mempool} → validate_all_transactions crypto_verify p ≡ ok q → Step p q

  pub data Reach : Mempool → Type 0 where
    starts :
        (stats : MempoolStats)
        → Reach (record { transactions = []; validation_queue = []; stats = stats })
    steps : {p q : Mempool} → Reach p → Step p q → Reach q

  step-IsSound :
      {p q : Mempool} → Step p q → IsSound sha256 p.transactions → IsSound sha256 q.transactions
  unfolding add_transaction remove_transaction cleanup_expired_transactions validate_next
  step-IsSound (adds {p} now none) s = s
  step-IsSound (adds {p} now (some tx)) s =
      elim (Bool-cases (is_some (lookup (id_of sha256 tx) p.transactions))) [
        | inl known ↦ rw known s
        | inr new ↦ rw new (add-IsSound sha256 now tx p.transactions (nothing_there _ new) s)
      ]
  step-IsSound (removes {p} id) s = remove-IsSound sha256 id p s
  step-IsSound (expires {p} now) s = drop_expired-IsSound sha256 now p.transactions s
  step-IsSound (validates {p} {q} e) s =
      Same-IsSound sha256 p.transactions q.transactions
        (Holds_at (λ r. Same p.transactions r.transactions)
          (validate_front crypto_verify p p.validation_queue) q
          (validate_front-Same crypto_verify p p.validation_queue) e)
        s
  step-IsSound (validates_all {p} {q} e) s =
      Same-IsSound sha256 p.transactions q.transactions
        (Holds_at (λ r. Same p.transactions r.transactions)
          (validate_all_transactions crypto_verify p) q (validate_all-Same crypto_verify p) e)
        s

  -- However the calls and the rounds of the threads follow on one another, each taken as one step, the pool holds at most 10000
  -- entries, no identity twice, and each under the identity of its transaction.
  pub Reach-IsSound : {p : Mempool} → Reach p → IsSound sha256 p.transactions
  unfolding IsDict
  Reach-IsSound (starts stats) = record { distinct = tt; bounded = omega arith; keyed = tt }
  Reach-IsSound (steps r s) = step-IsSound s (Reach-IsSound r)
