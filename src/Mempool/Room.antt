-- ===== src/Mempool/Room.antt =====
-- How a TransactionMempool makes room, and drops what has expired.
use deo.Prelude.{
  ℕ, suc, ◌+◌, ◌≤◌, ◌≡◌, refl, true, Bool-cases, inl, inr, ◌⊎◌, ltb, leb, none, [], ◌∷◌, length,
  All, arith,
}
use deo.Prelude.Texts.{Text, same_text_iff}
use deo.Prelude.Dicts.{
  is_some, Dict, lookup, erase, IsDict, lookup-erase-none, erase-IsDict, All-erase,
}
use deo.Mempool.{
  MempoolEntry, Mempool, max_mempool_size, oldest_of, without_oldest, with_room, transaction_expiry,
  remove_transaction, drop_expired,
}

-- The oldest entry is the first one met, or stands in the rest.
oldest_stands :
    (best : Text × ℕ) (m : Dict MempoolEntry)
    → (oldest_of best m ≡ best.0) ⊎ (is_some (lookup (oldest_of best m) m) ≡ true)
unfolding oldest_of lookup
oldest_stands best [] = inl refl
oldest_stands best ((k, entry) ∷ m) = elim (Bool-cases (ltb entry.received_time best.1)) [
  | inl older ↦ ground (
    arith,
    older,
    oldest_stands (k, entry.received_time) m,
    same_text_iff k (oldest_of (k, entry.received_time) m),
  )
  | inr younger ↦ ground (arith, younger, oldest_stands best m)
]

oldest_found :
    (k : Text) (entry : MempoolEntry) (m : Dict MempoolEntry)
    → is_some (lookup (oldest_of (k, entry.received_time) m) ((k, entry) ∷ m)) ≡ true
unfolding lookup
oldest_found k entry m = ground (
  arith,
  oldest_stands (k, entry.received_time) m,
  same_text_iff k (oldest_of (k, entry.received_time) m),
)

length-erase_some :
    (k : Text) (m : Dict MempoolEntry)
    → is_some (lookup k m) ≡ true
    → length (erase k m) + 1 ≡ length m
unfolding lookup erase
length-erase_some k [] h = absurd (cc)
length-erase_some k ((j, entry) ∷ m) h = ground (arith, length-erase_some k m)

length-without_oldest :
    (m : Dict MempoolEntry) → 0 + 1 ≤ length m → length (without_oldest m) + 1 ≡ length m
unfolding without_oldest
length-without_oldest [] h = omega (arith, h)
length-without_oldest ((k, entry) ∷ m) h =
    length-erase_some (oldest_of (k, entry.received_time) m) ((k, entry) ∷ m)
      (oldest_found k entry m)

pub length-with_room :
    (m : Dict MempoolEntry)
    → length m ≤ max_mempool_size
    → length (with_room m) + 1 ≤ max_mempool_size
length-with_room m h = ground (arith, length-without_oldest m)

without_oldest-none :
    (k : Text) (m : Dict MempoolEntry) → lookup k m ≡ none → lookup k (without_oldest m) ≡ none
unfolding without_oldest
without_oldest-none k [] e = e
without_oldest-none k ((j, entry) ∷ m) e =
    lookup-erase-none (oldest_of (j, entry.received_time) m) k ((j, entry) ∷ m) e

pub with_room-none :
    (k : Text) (m : Dict MempoolEntry) → lookup k m ≡ none → lookup k (with_room m) ≡ none
with_room-none k m e = ground (arith, without_oldest-none k m e)

pub with_room-IsDict : (m : Dict MempoolEntry) → IsDict m → IsDict (with_room m)
unfolding without_oldest
with_room-IsDict [] h = h
with_room-IsDict ((k, entry) ∷ m) h =
    ground (arith, erase-IsDict (oldest_of (k, entry.received_time) m) ((k, entry) ∷ m) h)

drop_expired-none :
    (now : ℕ) (k : Text) (m : Dict MempoolEntry)
    → lookup k m ≡ none
    → lookup k (drop_expired now m) ≡ none
unfolding drop_expired lookup
drop_expired-none now k [] e = e
drop_expired-none now k ((j, entry) ∷ m) e = ground (arith, drop_expired-none now k m)

pub drop_expired-IsDict : (now : ℕ) (m : Dict MempoolEntry) → IsDict m → IsDict (drop_expired now m)
unfolding drop_expired IsDict
drop_expired-IsDict now [] h = tt
drop_expired-IsDict now ((k, entry) ∷ m) h =
    ground (arith, drop_expired-IsDict now m h.1, drop_expired-none now k m)

pub length-drop_expired : (now : ℕ) (m : Dict MempoolEntry) → length (drop_expired now m) ≤ length m
unfolding drop_expired
length-drop_expired now [] = omega arith
length-drop_expired now ((k, entry) ∷ m) = ground (arith, length-drop_expired now m)

-- What holds of every entry holds of those that stay.
module _ {κ} (P : Text × MempoolEntry → Type κ) where
  pub All-with_room : (m : Dict MempoolEntry) → All P m → All P (with_room m)
  unfolding without_oldest
  All-with_room [] h = h
  All-with_room ((k, entry) ∷ m) h = elim (Bool-cases (leb max_mempool_size (suc (length m)))) [
    | inl full ↦ rw full (All-erase P (oldest_of (k, entry.received_time) m) ((k, entry) ∷ m) h)
    | inr room ↦ rw room h
  ]

  pub All-drop_expired : (now : ℕ) (m : Dict MempoolEntry) → All P m → All P (drop_expired now m)
  unfolding drop_expired
  All-drop_expired now [] h = tt
  All-drop_expired now ((k, entry) ∷ m) (q, h) =
      elim (Bool-cases (ltb (entry.received_time + transaction_expiry) now)) [
        | inl old ↦ rw old (All-drop_expired now m h)
        | inr recent ↦ rw recent (q, All-drop_expired now m h)
      ]

  pub All-remove :
      (id : Text) (p : Mempool)
      → All P p.transactions
      → All P (remove_transaction id p).1.transactions
  unfolding remove_transaction
  All-remove id p h = elim (Bool-cases (is_some (lookup id p.transactions))) [
    | inl found ↦ rw found (All-erase P id p.transactions h)
    | inr missing ↦ rw missing h
  ]
