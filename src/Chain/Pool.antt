-- ===== src/Chain/Pool.antt =====
-- addTransaction and removeTransaction of src/core/blockchain.cpp: what the pool of a chain may hold.
use deo.Prelude.{
  ◌≤◌, ◌<◌, ◌≡◌, refl, sym, ap, ◌∙◌, Bool, true, not, ltb, leb, leb→lt, Bool-cases, inl, inr,
  Option, none, some, List, [], ◌∷◌, length, All, arith,
}
use deo.Prelude.Run.{Run, ok, Holds, Holds-if, Holds-then, Holds-then_at}
use deo.Prelude.Texts.{Text, same_text, same_text_iff}
use deo.Prelude.Dicts.{
  Dict, lookup, insert, is_some, nothing_there, IsDict, insert-IsDict, erase-IsDict,
  lookup-erase-none, length-insert_new, length-erase, All-insert, All-erase,
}
use deo.Transaction.{Transaction, TransactionInput, TransactionOutput}
use deo.Transaction as Transaction
use deo.Transaction.Wire.{get_size}
use deo.Block.{zeros, id_of}
use deo.Chain.{
  Blockchain, reading, inputs_known, validate_transaction_inputs, with_mempool, with_room,
  add_transaction,
}

-- Where no output is unspent, inputs pass that name the hash of zeros.
abbrev pub SpendsNothing : List TransactionInput → Type 0
SpendsNothing = All (λ input. input.previous_tx_hash ≡ zeros)

inputs_known-SpendsNothing :
    (inputs : List TransactionInput) → inputs_known [] inputs ≡ true → SpendsNothing inputs
unfolding inputs_known lookup
inputs_known-SpendsNothing [] h = tt
inputs_known-SpendsNothing (input ∷ inputs) h =
    elim (Bool-cases (same_text input.previous_tx_hash zeros)) [
      | inl named ↦ (
        (same_text_iff input.previous_tx_hash zeros).0 named,
        inputs_known-SpendsNothing inputs (ground (arith, named, h)),
      )
      | inr other ↦ absurd (ground (arith, other, h))
    ]

module _ (sha256 : Text → Text) (crypto_verify : Text → Text → Text → Run Bool)
    (begin_of : Dict Transaction → Text) where
  -- An entry of the pool.
  pub record IsPooled (entry : Text × Transaction) : Type 0 where
    pub named : id_of sha256 entry.1 ≡ entry.0
    pub valid : Transaction.validate entry.1 ≡ true
    pub verified : Transaction.verify crypto_verify entry.1 ≡ ok true
    pub spends_nothing : SpendsNothing entry.1.inputs

  pub record IsPool (m : Dict Transaction) : Type 0 where
    pub bounded : length m ≤ 10000
    pub keyed : IsDict m
    pub pooled : All IsPooled m

  -- begin() of a map that is not empty is one of its entries.
  abbrev pub Begins : Type 0
  Begins =
      (e : Text × Transaction) (m : Dict Transaction)
      → (tx : Transaction) × (lookup (begin_of (e ∷ m)) (e ∷ m) ≡ some tx)

  room_made :
      Begins
      → (m : Dict Transaction) → IsPool m
      → IsPool (with_room sha256 crypto_verify begin_of m)
        × (length (with_room sha256 crypto_verify begin_of m) < 10000)
  room_made begins [] pool = (pool, omega arith)
  room_made begins (e ∷ m) pool = elim (Bool-cases (leb 10000 (length (e ∷ m)))) [
    | inr room ↦ rw room (pool, omega (arith, leb→lt 10000 (length (e ∷ m)) room))
    | inl full ↦
        let key = begin_of (e ∷ m) in
        let (tx, there) = begins e m in
        let shorter = length-erase key tx (e ∷ m) there in
        rw full (
          record {
            bounded = omega (arith, shorter, pool.bounded);
            keyed = erase-IsDict key (e ∷ m) pool.keyed;
            pooled = All-erase IsPooled key (e ∷ m) pool.pooled;
          },
          omega (arith, shorter, pool.bounded),
        )
  ]

  -- What is not in the pool is not in it after room is made.
  with_room-none :
      (k : Text) (m : Dict Transaction)
      → lookup k m ≡ none
      → lookup k (with_room sha256 crypto_verify begin_of m) ≡ none
  with_room-none k [] e = e
  with_room-none k (entry ∷ m) e = elim (Bool-cases (leb 10000 (length (entry ∷ m)))) [
    | inl full ↦ rw full (lookup-erase-none (begin_of (entry ∷ m)) k (entry ∷ m) e)
    | inr room ↦ rw room e
  ]

  pub with_entry :
      (k : Text) (tx : Transaction) (m : Dict Transaction)
      → Begins
      → lookup k m ≡ none
      → IsPooled (k, tx)
      → IsPool m
      → IsPool (insert k tx (with_room sha256 crypto_verify begin_of m))
  with_entry k tx m begins new fits pool =
      let rest = with_room sha256 crypto_verify begin_of m in
      let (sound, room) = room_made begins m pool in
      let still_new = with_room-none k m new in
      record {
        bounded = omega (arith, length-insert_new k tx rest still_new, room);
        keyed = insert-IsDict k tx rest still_new sound.keyed;
        pooled = All-insert IsPooled k tx rest fits sound.pooled;
      }

  -- The chain after a call that may change its pool only.
  pub record Pools (c d : Blockchain) : Type 0 where
    pub pool : IsPool d.mempool
    pub same : d ≡ with_mempool d.mempool c

  unchanged : (c : Blockchain) → IsPool c.mempool → Pools c c
  unchanged c pool = record { pool = pool; same = refl }

  known_inputs :
      (tx : Transaction) (c : Blockchain)
      → c.utxo_set ≡ []
      → validate_transaction_inputs tx c ≡ ok true
      → SpendsNothing tx.inputs
  unfolding validate_transaction_inputs reading
  known_inputs tx c spent e =
      let known : inputs_known c.utxo_set tx.inputs ≡ true = ground (arith, e) in
      inputs_known-SpendsNothing tx.inputs (
        ap (λ (set : Dict (List TransactionOutput)). inputs_known set tx.inputs) (sym spent)
        ∙ known)

  -- addTransaction keeps the pool of a chain without unspent outputs: at most 10000 entries, none twice,
  -- each under its identity, valid, verified and with inputs that name the hash of zeros only; the rest of
  -- the chain stays.
  pub add_transaction-Pools :
      (tx : Option Transaction) (c : Blockchain)
      → Begins
      → c.utxo_set ≡ []
      → IsPool c.mempool
      → Holds
          (λ (r : Bool × Blockchain). Pools c r.1)
          (add_transaction sha256 crypto_verify begin_of tx c)
  unfolding add_transaction
  add_transaction-Pools none c begins spent pool = unchanged c pool
  add_transaction-Pools (some tx) c begins spent pool =
      let id = id_of sha256 tx in
      let P = λ (r : Bool × Blockchain). Pools c r.1 in
      Holds-if P (is_some (lookup id c.mempool)) _ _ (λ known. unchanged c pool)
        (λ new.
          Holds-if P (not (Transaction.validate tx)) _ _ (λ bad. unchanged c pool)
            (λ valid. Holds-then_at P (Transaction.verify crypto_verify tx) _ (λ good verified.
              Holds-if P (not good) _ _ (λ bad. unchanged c pool)
                (λ passed. Holds-then_at P (validate_transaction_inputs tx c) _ (λ known e.
                  Holds-if P (not known) _ _ (λ bad. unchanged c pool)
                    (λ inputs. Holds-then P (get_size tx) _ (λ size.
                      Holds-if P (ltb c.config.max_block_size size) _ _ (λ large. unchanged c pool)
                        (λ fits. record {
                          pool =
                              with_entry id tx c.mempool begins (nothing_there _ new)
                                (record {
                                  named = refl;
                                  valid = ground (arith, valid);
                                  verified = verified ∙ ap ok (ground (arith, passed));
                                  spends_nothing =
                                      known_inputs tx c spent (e ∙ ap ok (ground (arith, inputs)));
                                })
                                pool;
                          same = refl;
                        }))))))))
