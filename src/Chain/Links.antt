-- ===== src/Chain/Links.antt =====
-- What holds of a chain of src/core/blockchain.cpp after any calls of its methods.
use deo.Prelude.{ℕ, ◌≡◌, Bool, Option, List}
use deo.Prelude.Run.{Run, ok}
use deo.Prelude.Texts.{Text}
use deo.Prelude.Dicts.{Dict}
use deo.Transaction.{Transaction}
use deo.Block.{Block}
use deo.Chain.{Blockchain, BlockchainConfig, new_blockchain, add_transaction, remove_transaction}
use deo.Chain.Ancestry.{handle_chain_reorganization}
use deo.Chain.Growth.{Stored, load_state, initialize, shutdown, import_blockchain}
use deo.Chain.Extension.{add_block, mining_round}

module _ (sha256 : Text → Text) (crypto_verify : Text → Text → Text → Run Bool)
    (begin_of : Dict Transaction → Text) where
  -- The calls that may change a chain, where they come back. startMining and stopMining only start and stop
  -- the thread, whose rounds may come at any time.
  pub data Step : Blockchain → Blockchain → Type 0 where
    initializes :
        {c : Blockchain} (ready : Bool) (now : ℕ) (stored : Stored)
        → Step c (initialize sha256 ready now stored c).1
    shuts_down : {c : Blockchain} → Step c (shutdown sha256 c)
    loads : {c : Blockchain} (stored : Stored) → Step c (load_state sha256 stored c)
    imports :
        {c d : Blockchain} (found : Option (List Block)) (answer : Bool)
        → import_blockchain sha256 crypto_verify found c ≡ ok (answer, d)
        → Step c d
    adds_transaction :
        {c d : Blockchain} (tx : Option Transaction) (answer : Bool)
        → add_transaction sha256 crypto_verify begin_of tx c ≡ ok (answer, d)
        → Step c d
    removes_transaction :
        {c d : Blockchain} (tx_id : Text) (answer : Bool)
        → remove_transaction tx_id c ≡ ok (answer, d)
        → Step c d
    adds_block :
        {c d : Blockchain} (store : Block → Bool) (fuel : ℕ) (block : Option Block) (answer : Bool)
        → add_block sha256 crypto_verify begin_of store fuel block c ≡ ok (answer, d)
        → Step c d
    mines :
        {c d : Blockchain} (store : Block → Bool) (clock : ℕ → ℕ) (stopped_by : ℕ → Bool)
        (fuel rounds now : ℕ)
        → mining_round sha256 crypto_verify begin_of store fuel clock stopped_by rounds now c
          ≡ ok (tt, d)
        → Step c d
    reorganizes :
        {c d : Blockchain} (fuel : ℕ) (block : Option Block) (answer : Bool)
        → handle_chain_reorganization sha256 fuel block c ≡ ok (answer, d)
        → Step c d

  pub data Reach (config : BlockchainConfig) : Blockchain → Type 0 where
    starts : Reach config (new_blockchain config)
    steps : {c d : Blockchain} → Reach config c → Step c d → Reach config d
