-- ===== src/Chain/Consistency.antt =====
-- What initialize, loadState, importBlockchain, addTransaction and removeTransaction of
-- src/core/blockchain.cpp keep of a chain.
use deo.Prelude.{
  ℕ, ◌≡◌, refl, sym, ap, ◌∙◌, Bool, true, false, not, if◌then◌else◌, Bool-cases, inl, inr, Option,
  none, some, List, [], ◌∷◌, ◌++◌, All, All-append, All-mono, arith,
}
use mathlib.Core.Path.{subst}
use deo.Prelude.Run.{Run, Holds, Holds-if, Holds-then}
use deo.Prelude.Texts.{Text, same_text, same_text_iff}
use deo.Prelude.Dicts.{
  Dict, lookup, insert, is_some, lookup-insert, erase-IsDict, All-erase, length-erase_le,
}
use deo.Transaction.{Transaction}
use deo.Block.{Block, block_of, update_merkle_root, rebuild_merkle_tree}
use deo.Chain.{Blockchain, BlockchainConfig, locked, last_of, hash_of, remove_transaction}
use deo.Chain.Growth.{
  Stored, json, leveldb, index_all, refresh_at, replace_blocks, push_found, load_state,
  create_genesis_block, with_genesis, with_engine, initialize, all_valid, import_blockchain,
}
use deo.Chain.Pool.{IsPooled, IsPool, Pools}

module _ (sha256 : Text → Text) (crypto_verify : Text → Text → Text → Run Bool)
    (begin_of : Dict Transaction → Text) where
  abbrev pub IsIndexed : Dict Block → Block → Type 0
  IsIndexed index block = is_some (lookup (hash_of sha256 block) index) ≡ true

  -- No lock is held and no output is unspent; the pool is sound; the best hash and the height are those of
  -- the last block; and the index has a block for the hash of each block.
  pub record IsConsistent (c : Blockchain) : Type 0 where
    pub free : c.held ≡ false
    pub unspent : c.utxo_set ≡ []
    pub pool : IsPool sha256 crypto_verify begin_of c.mempool
    pub tip :
        (best : Block)
        → last_of c.blocks ≡ some best
        → (c.best_block_hash ≡ hash_of sha256 best) × (c.current_height ≡ best.header.height)
    pub indexed : All (IsIndexed c.block_index) c.blocks

  inserted-IsIndexed :
      (index : Dict Block) (k : Text) (v b : Block)
      → IsIndexed index b
      → IsIndexed (insert k v index) b
  inserted-IsIndexed index k v b h =
      rw (lookup-insert k (hash_of sha256 b) v index)
        (elim (Bool-cases (same_text k (hash_of sha256 b))) [
          | inl same ↦ rw same refl
          | inr other ↦ rw other h
        ])

  own-IsIndexed : (index : Dict Block) (b : Block) → IsIndexed (insert (hash_of sha256 b) b index) b
  own-IsIndexed index b =
      rw
        (
          lookup-insert (hash_of sha256 b) (hash_of sha256 b) b index,
          (same_text_iff (hash_of sha256 b) (hash_of sha256 b)).1 refl,
        )
        refl

  index_all_mono :
      (blocks : List Block) (index : Dict Block) (b : Block)
      → IsIndexed index b
      → IsIndexed (index_all sha256 blocks index) b
  unfolding index_all
  index_all_mono [] index b h = h
  index_all_mono (a ∷ blocks) index b h =
      index_all_mono blocks _ b (inserted-IsIndexed index (hash_of sha256 a) a b h)

  index_all-IsIndexed :
      (blocks : List Block) (index : Dict Block)
      → All (IsIndexed (index_all sha256 blocks index)) blocks
  unfolding index_all
  index_all-IsIndexed [] index = tt
  index_all-IsIndexed (a ∷ blocks) index =
      (index_all_mono blocks _ a (own-IsIndexed index a), index_all-IsIndexed blocks _)

  -- A chain with other blocks, but the same pool, outputs and lock.
  pub record Reblocked (c d : Blockchain) : Type 0 where
    pub same_lock : d.held ≡ c.held
    pub same_outputs : d.utxo_set ≡ c.utxo_set
    pub same_pool : d.mempool ≡ c.mempool
    pub all_indexed : All (IsIndexed d.block_index) d.blocks

  same_mempool-IsPool :
      (c d : Blockchain)
      → IsConsistent c
      → d.mempool ≡ c.mempool
      → IsPool sha256 crypto_verify begin_of d.mempool
  same_mempool-IsPool c d good same =
      subst (IsPool sha256 crypto_verify begin_of) (sym same) good.pool

  refresh_at-IsConsistent :
      (last : Option Block) (c d : Blockchain)
      → last_of d.blocks ≡ last
      → IsConsistent c
      → Reblocked c d
      → IsConsistent (refresh_at sha256 last d)
  refresh_at-IsConsistent none c d e good same = record {
    free = same.same_lock ∙ good.free;
    unspent = same.same_outputs ∙ good.unspent;
    pool = same_mempool-IsPool c d good same.same_pool;
    tip = λ best found. absurd (cc);
    indexed = same.all_indexed;
  }
  refresh_at-IsConsistent (some last) c d e good same = record {
    free = same.same_lock ∙ good.free;
    unspent = same.same_outputs ∙ good.unspent;
    pool = same_mempool-IsPool c d good same.same_pool;
    tip = λ best found.
        let b : last ≡ best = cc in (ap (hash_of sha256) b, ap (λ (x : Block). x.header.height) b);
    indexed = same.all_indexed;
  }

  replace_blocks-IsConsistent :
      (blocks : List Block) (c : Blockchain)
      → IsConsistent c
      → IsConsistent (replace_blocks sha256 blocks c)
  replace_blocks-IsConsistent blocks c good =
      let d = record c { blocks = blocks; block_index = index_all sha256 blocks [] } in
      refresh_at-IsConsistent (last_of blocks) c d refl good (record {
        same_lock = refl;
        same_outputs = refl;
        same_pool = refl;
        all_indexed = index_all-IsIndexed blocks [];
      })

  push_found-Reblocked :
      (found : List (Option Block)) (c d : Blockchain)
      → Reblocked c d
      → Reblocked c (push_found sha256 found d)
  unfolding push_found
  push_found-Reblocked [] c d same = same
  push_found-Reblocked (none ∷ found) c d same = push_found-Reblocked found c d same
  push_found-Reblocked (some b ∷ found) c d same =
      push_found-Reblocked found c
        (record d {
          blocks = d.blocks ++ b ∷ [];
          block_index = insert (hash_of sha256 b) b d.block_index;
        })
        (record {
          same_lock = same.same_lock;
          same_outputs = same.same_outputs;
          same_pool = same.same_pool;
          all_indexed =
              All-append (IsIndexed (insert (hash_of sha256 b) b d.block_index)) d.blocks (b ∷ [])
                (All-mono (IsIndexed d.block_index)
                  (IsIndexed (insert (hash_of sha256 b) b d.block_index)) d.blocks
                  (λ a. inserted-IsIndexed d.block_index (hash_of sha256 b) b a) same.all_indexed)
                (own-IsIndexed d.block_index b, tt);
        })

  pub load_state-IsConsistent :
      (stored : Stored) (c : Blockchain)
      → IsConsistent c
      → IsConsistent (load_state sha256 stored c)
  unfolding load_state
  load_state-IsConsistent (json []) c good = good
  load_state-IsConsistent (json (b ∷ blocks)) c good =
      replace_blocks-IsConsistent (b ∷ blocks) c good
  load_state-IsConsistent (leveldb []) c good = good
  load_state-IsConsistent (leveldb (b ∷ found)) c good =
      refresh_at-IsConsistent _ c (push_found sha256 (b ∷ found) c) refl good (
        push_found-Reblocked (b ∷ found) c c (record {
          same_lock = refl;
          same_outputs = refl;
          same_pool = refl;
          all_indexed = good.indexed;
        }))

  genesis_height :
      (config : BlockchainConfig) → (create_genesis_block sha256 config).header.height ≡ 0
  unfolding create_genesis_block block_of update_merkle_root rebuild_merkle_tree
  genesis_height config = refl

  with_genesis-IsConsistent :
      (blocks : List Block) (c : Blockchain)
      → IsConsistent c
      → IsConsistent (with_genesis sha256 blocks c)
  with_genesis-IsConsistent (b ∷ blocks) c good = good
  with_genesis-IsConsistent [] c good = record {
    free = good.free;
    unspent = good.unspent;
    pool = good.pool;
    tip = λ best found.
        let b : create_genesis_block sha256 c.config ≡ best = cc in
        (
          ap (hash_of sha256) b,
          sym (genesis_height c.config) ∙ ap (λ (x : Block). x.header.height) b,
        );
    indexed = (own-IsIndexed c.block_index (create_genesis_block sha256 c.config), tt);
  }

  if-IsConsistent :
      (b : Bool) (x y : Bool × Blockchain)
      → IsConsistent x.1
      → IsConsistent y.1
      → IsConsistent (if b then x else y).1
  if-IsConsistent true x y first second = first
  if-IsConsistent false x y first second = second

  pub initialize-IsConsistent :
      (ready : Bool) (now : ℕ) (stored : Stored) (c : Blockchain)
      → IsConsistent c
      → IsConsistent (initialize sha256 ready now stored c).1
  unfolding initialize
  initialize-IsConsistent ready now stored c good =
      let engined : IsConsistent (with_engine sha256 now c) = record {
        free = good.free;
        unspent = good.unspent;
        pool = good.pool;
        tip = good.tip;
        indexed = good.indexed;
      } in
      let loaded = load_state sha256 stored (with_engine sha256 now c) in
      let started =
        with_genesis-IsConsistent loaded.blocks loaded
          (load_state-IsConsistent stored (with_engine sha256 now c) engined) in
      let answer : IsConsistent
          (record (with_genesis sha256 loaded.blocks loaded) { is_initialized = true }) =
        record {
          free = started.free;
          unspent = started.unspent;
          pool = started.pool;
          tip = started.tip;
          indexed = started.indexed;
        } in
      if-IsConsistent c.is_initialized _ _ good
        (if-IsConsistent (not ready) (false, c) _ good answer)

  pub import_blockchain-IsConsistent :
      (found : Option (List Block)) (c : Blockchain)
      → IsConsistent c
      → Holds
          (λ (r : Bool × Blockchain). IsConsistent r.1)
          (import_blockchain sha256 crypto_verify found c)
  unfolding import_blockchain
  import_blockchain-IsConsistent none c good = good
  import_blockchain-IsConsistent (some blocks) c good =
      let P = λ (r : Bool × Blockchain). IsConsistent r.1 in
      Holds-then P (all_valid sha256 crypto_verify blocks c) _ (λ valid.
        Holds-if P (not valid) _ _ (λ bad. good)
          (λ fine. replace_blocks-IsConsistent blocks c good))

  pub Pools-IsConsistent :
      (c d : Blockchain) → IsConsistent c → Pools sha256 crypto_verify begin_of c d → IsConsistent d
  Pools-IsConsistent c d good pools = subst IsConsistent (sym pools.same) (record {
    free = good.free;
    unspent = good.unspent;
    pool = pools.pool;
    tip = good.tip;
    indexed = good.indexed;
  })

  pub remove_transaction-IsConsistent :
      (tx_id : Text) (c : Blockchain)
      → IsConsistent c
      → Holds (λ (r : Bool × Blockchain). IsConsistent r.1) (remove_transaction tx_id c)
  unfolding remove_transaction locked
  remove_transaction-IsConsistent tx_id c good =
      elim (Bool-cases (is_some (lookup tx_id c.mempool))) [
        | inl known ↦
            rw (good.free, known)
              (record {
                free = refl;
                unspent = good.unspent;
                pool = record {
                  bounded = omega (arith, length-erase_le tx_id c.mempool, good.pool.bounded);
                  keyed = erase-IsDict tx_id c.mempool good.pool.keyed;
                  pooled =
                      All-erase (IsPooled sha256 crypto_verify begin_of) tx_id c.mempool
                        good.pool.pooled;
                };
                tip = good.tip;
                indexed = good.indexed;
              })
        | inr unknown ↦
            rw (good.free, unknown)
              (record {
                free = refl;
                unspent = good.unspent;
                pool = good.pool;
                tip = good.tip;
                indexed = good.indexed;
              })
      ]
