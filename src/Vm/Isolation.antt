-- ===== src/Vm/Isolation.antt =====
-- The storage of contracts through SSTORE, SLOAD and whole executions of src/vm/virtual_machine.cpp.
use deo.Prelude.{
  ℕ, ◌≡◌, ◌≢◌, refl, ap, ◌∙◌, true, false, if◌then◌else◌, List, ◌∷◌, Option, none, some, arith,
  Bool-cases, inl, inr,
}
use deo.Prelude.Run.{ok, Holds, Holds-then, Holds-bind, Holds-mono, Holds_at}
use deo.Prelude.Maps.{Map, find, assign, find-assign}
use deo.Uint256.{Uint256}
use deo.Vm.Opcode.{Opcode, sload, sstore, balance, selfdestruct}
use deo.Vm.State.{VmState, ExecutionContext, Machine, Host}
use deo.Prelude.Texts.{Text, same_text, same_text_iff, text_key}
use deo.Vm.Rules.{handler_rules}
use deo.Vm.Storage.{
  same_word, word_key, or_zero, storage_of, with_storage, handle_sload, handle_sstore,
  handle_balance, handle_selfdestruct,
}
use deo.Vm.Interpreter.{
  execute_instruction, state_instruction, count_instruction, execute, ExecutionResult, Failure,
  empty_bytecode, zero_gas_limit, invalid_bytecode, gas_exhausted, limit_reached, execution_error,
}
use deo.Vm.Accounts.{Account, AccountOf, execute-Account}
use deo.Vm.Trace.{Runs, here, next, current, paid}

-- The word in a slot of a contract's storage, zero if there is none.
abbrev pub slot : Machine → Text → Uint256 → Uint256
slot m address key = or_zero (find key (storage_of m address))

storage-with_storage :
    (m : Machine) (a b : Text) (slots : Map Uint256 Uint256)
    → storage_of (with_storage m a slots) b ≡ (if same_text a b then slots else storage_of m b)
unfolding storage_of with_storage
storage-with_storage m a b slots =
    rw (find-assign a b slots m.contract_storage)
      (elim (Bool-cases (same_text a b)) [ inl e ↦ rw e refl | inr e ↦ rw e refl ])

-- SSTORE on a stack with two words succeeds, and SLOAD of any key after it succeeds and pushes the
-- value that was written, if the keys are the same word, or else what the slot held before.
pub sload-sstore :
    (context : ExecutionContext) (m : Machine) (st st2 : VmState) (key j value : Uint256)
    (s s2 : List Uint256)
    → st.stack ≡ key ∷ value ∷ s
    → st2.stack ≡ j ∷ s2
    → (m1 : Machine) × (m2 : Machine) × (handle_sstore context m st
        ≡ ok (m1, record st { stack = s }))
      × (handle_sload context m1 st2
          ≡ ok (
            m2,
            record st2 {
              stack = (if same_word key j then value else slot m context.contract_address j) ∷ s2;
            },
          ))
unfolding handle_sstore handle_sload
sload-sstore context m st st2 key j value s s2 e e2 =
    let a = context.contract_address in
    let written = assign key value (storage_of m a) in
    let m1 = with_storage m a written in
    let same : same_text a a ≡ true = (same_text_iff a a).1 refl in
    let kept : storage_of m1 a ≡ written = storage-with_storage m a a written ∙ rw same refl in
    (
      m1,
      with_storage m1 a (storage_of m1 a),
      rw e refl,
      rw (e2, kept, find-assign key j value (storage_of m a))
          (elim (Bool-cases (same_word key j)) [ inl hit ↦ rw hit refl | inr miss ↦ rw miss refl ]),
    )

-- Another contract's storage before and after.
abbrev SameStorage : Text → Machine → Machine → Type 0
SameStorage other m m' = storage_of m' other ≡ storage_of m other

module _ (other : Text) (context : ExecutionContext)
    (apart : context.contract_address ≢ other) where
  untouched :
      (m : Machine) (slots : Map Uint256 Uint256)
      → SameStorage other m (with_storage m context.contract_address slots)
  untouched m slots =
      let differ : same_text context.contract_address other ≡ false =
        ground (arith, same_text_iff context.contract_address other) in
      storage-with_storage m context.contract_address other slots ∙ rw differ refl

  sload-SameStorage :
      (m : Machine) (st : VmState)
      → Holds (λ r. SameStorage other m r.0) (handle_sload context m st)
  unfolding handle_sload
  sload-SameStorage m st = search (handler_rules, untouched)

  sstore-SameStorage :
      (m : Machine) (st : VmState)
      → Holds (λ r. SameStorage other m r.0) (handle_sstore context m st)
  unfolding handle_sstore
  sstore-SameStorage m st = search (handler_rules, untouched)

  selfdestruct-SameStorage :
      (m : Machine) (st : VmState)
      → Holds (λ r. SameStorage other m r.0) (handle_selfdestruct context m st)
  unfolding handle_selfdestruct storage_of
  selfdestruct-SameStorage m st = search handler_rules

  execute_instruction-SameStorage :
      (host : Host) (op : Opcode) (m : Machine) (st : VmState)
      → Holds (λ r. SameStorage other m r.0) (execute_instruction host context op m st)
  unfolding execute_instruction
  execute_instruction-SameStorage host sload m st = sload-SameStorage m st
  execute_instruction-SameStorage host sstore m st = sstore-SameStorage m st
  execute_instruction-SameStorage host balance m st =
      Holds-then _ (handle_balance m st) _ (λ r. refl)
  execute_instruction-SameStorage host selfdestruct m st =
      Holds-bind (λ r. SameStorage other m r.0) _ (handle_selfdestruct context m st) _
        (selfdestruct-SameStorage m st) (λ r h. h)
  execute_instruction-SameStorage host op m st =
      Holds-then _ (state_instruction host context op st) _ (λ r. refl)

  Runs-SameStorage :
      (host : Host) {n g : ℕ} {m m' : Machine} {st st' : VmState}
      → Runs host context n g m st m' st'
      → SameStorage other m m'
  unfolding count_instruction storage_of
  Runs-SameStorage host here = refl
  Runs-SameStorage host (next {n} {g} {m} {m1} {m'} {st} {st1} {st'} can e rest) =
      Runs-SameStorage host rest
      ∙ Holds_at (λ r. SameStorage other m r.0) _ (m1, st1)
          (execute_instruction-SameStorage host (current host context st) m (paid host context st))
          e

  account-SameStorage :
      (host : Host) (m m' : Machine) (f : Option Failure) (r : ExecutionResult)
      → AccountOf host context m f m' r
      → SameStorage other m m'
  unfolding storage_of
  account-SameStorage host m m' none r (n, m1, st', run, lt, why, gas, good, data', e) =
      ap (λ (x : Machine). storage_of x other) e ∙ Runs-SameStorage host run
  account-SameStorage host m m' (some empty_bytecode) r (why, e, bad) =
      ap (λ (x : Machine). storage_of x other) e
  account-SameStorage host m m' (some zero_gas_limit) r (why, e, bad) =
      ap (λ (x : Machine). storage_of x other) e
  account-SameStorage host m m' (some invalid_bytecode) r (why, e, bad) =
      ap (λ (x : Machine). storage_of x other) e
  account-SameStorage host m m' (some gas_exhausted) r (n, st', run, poor, bad) =
      Runs-SameStorage host run
  account-SameStorage host m m' (some limit_reached) r (g, st', run, bad) =
      Runs-SameStorage host run
  account-SameStorage host m m' (some (execution_error x)) r (n, g, st', run, raise, bad) =
      Runs-SameStorage host run

  -- Whatever result an execution returns, the storage of a contract with another address is as it was.
  pub execute-SameStorage :
      (host : Host) (m : Machine)
      → Holds (λ r. storage_of r.0 other ≡ storage_of m other) (execute host context m)
  execute-SameStorage host m =
      Holds-mono (Account host context m) _ (execute host context m)
        (λ r h. account-SameStorage host m r.0 r.1.error r.1 h) (execute-Account host context m)
