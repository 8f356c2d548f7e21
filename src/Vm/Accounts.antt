-- ===== src/Vm/Accounts.antt =====
-- The results of `execute` of src/vm/virtual_machine.cpp, as its caller sees them.
use deo.Prelude.{
  ℕ, ◌+◌, ◌-◌, ◌%◌, ◌^◌, incremented, ◌≤◌, ◌<◌, ◌≡◌, refl, true, false, ◌==◌, ==_iff, not, List, [],
  ◌∷◌, length, arith, ◌⊎◌, Option, some, none,
}
use deo.Prelude.Run.{ok, throws, Holds, Holds-if}
use deo.Vm.Opcode.{gas_cost}
use deo.Vm.State.{VmState, ExecutionContext, Machine, Host, initial_state}
use deo.Vm.Validation.{validate_bytecode}
use deo.Vm.Interpreter.{
  run_loop, Ending, finished, out_of_gas, instruction_limit, raised, went_undefined, went_on,
  conclude, execute, max_instructions, ExecutionResult, Failure, failure, empty_bytecode,
  zero_gas_limit, invalid_bytecode, gas_exhausted, limit_reached, execution_error,
}
use deo.Vm.Trace.{Runs, Runs-gas, Explains, run_loop-Explains, runs_instruction, current}

module _ (host : Host) (context : ExecutionContext) (m : Machine) where
  -- What each kind of result stands for. `Runs n g m s m' s'` are `n` instructions, paid with `g` gas.
  abbrev pub AccountOf : Option Failure → Machine → ExecutionResult → Type 0
  AccountOf none m' r =
      (n : ℕ) × (m1 : Machine) × (st' : VmState) × Runs host context n r.gas_used m
        (initial_state context.gas_limit) m1 st'
      × (n < max_instructions)
      × ((st'.halted ≡ true) ⊎ (length context.code ≤ st'.pc))
      × (r.gas_used + st'.gas_remaining ≡ context.gas_limit)
      × (r.success ≡ true)
      × (r.return_data ≡ st'.memory)
      × (m' ≡ record m1 {
        total_executions = incremented m1.total_executions;
        total_gas_used = (m1.total_gas_used + r.gas_used) % 2 ^ 64;
      })
  AccountOf (some empty_bytecode) m' r = (context.code ≡ []) × (m' ≡ m) × (r.success ≡ false)
  AccountOf (some zero_gas_limit) m' r = (context.gas_limit ≡ 0) × (m' ≡ m) × (r.success ≡ false)
  AccountOf (some invalid_bytecode) m' r =
      (validate_bytecode context.code ≡ false) × (m' ≡ m) × (r.success ≡ false)
  AccountOf (some gas_exhausted) m' r =
      (n : ℕ) × (st' : VmState) × Runs host context n r.gas_used m (initial_state context.gas_limit)
        m' st'
      × (st'.gas_remaining < gas_cost (current host context st'))
      × (r.success ≡ false)
  AccountOf (some limit_reached) m' r =
      (g : ℕ) × (st' : VmState) × Runs host context max_instructions g m
        (initial_state context.gas_limit) m' st'
      × (r.success ≡ false)
  AccountOf (some (execution_error x)) m' r =
      (n : ℕ) × (g : ℕ) × (st' : VmState) × Runs host context n g m
        (initial_state context.gas_limit) m' st'
      × (runs_instruction host context m' st' ≡ throws x)
      × (r.success ≡ false)

  abbrev pub Account : Machine × ExecutionResult → Type 0
  Account (m', r) = AccountOf r.error m' r

  start_gas : (initial_state context.gas_limit).gas_remaining ≡ context.gas_limit
  unfolding initial_state
  start_gas = refl

  conclude-Account :
      (out : Machine × Ending)
      → Explains host context max_instructions m (initial_state context.gas_limit) out
      → Holds Account (conclude context out)
  unfolding conclude
  conclude-Account (m', finished st') (n, g, r, lt, why) =
      let spent = Runs-gas host context r in
      let used : context.gas_limit - st'.gas_remaining ≡ g = omega (arith, start_gas) in
      (n, m', st', rw used r, lt, why, omega (arith, start_gas), refl, refl, refl)
  conclude-Account (m', out_of_gas st') (n, g, r, lt, h, i, k) =
      let spent = Runs-gas host context r in
      let used : context.gas_limit - st'.gas_remaining ≡ g = omega (arith, start_gas) in
      (n, st', rw used r, k, refl)
  conclude-Account (m', instruction_limit) (g, st', r) = (g, st', r, refl)
  conclude-Account (m', raised x) (n, g, st', r, lt, can, e) = (n, g, st', r, e, refl)
  conclude-Account (m', went_undefined) h = tt
  conclude-Account (m', went_on) h = tt

  no_bytes : (code : List ℕ) → (length code == 0) ≡ true → code ≡ []
  no_bytes [] e = refl
  no_bytes (b ∷ rest) e = absurd (ground (arith, e))

  no_code : (length context.code == 0) ≡ true → Account (m, failure empty_bytecode 0)
  no_code e = (no_bytes context.code e, refl, refl)

  no_gas : (context.gas_limit == 0) ≡ true → Account (m, failure zero_gas_limit 0)
  no_gas e = ((==_iff context.gas_limit 0).0 e, refl, refl)

  bad_code : not (validate_bytecode context.code) ≡ true → Account (m, failure invalid_bytecode 0)
  bad_code e = (ground (arith, e), refl, refl)

  ran : Holds Account (
      conclude context (run_loop host context max_instructions m (initial_state context.gas_limit)))
  ran =
      conclude-Account _
        (run_loop-Explains host context max_instructions m (initial_state context.gas_limit))

  -- Each result that `execute` returns has its account: a success is a trace of fewer than 10000
  -- instructions, paid by the gas that the result reports, that ends halted or past the code, with
  -- the memory as data and the members counted up, modulo 2 ^ 64; each failure names the check that failed and
  -- leaves the members alone, or is a trace up to the instruction that could not be paid, to the limit,
  -- or to the instruction that threw.
  pub execute-Account : Holds Account (execute host context m)
  unfolding execute
  execute-Account =
      Holds-if Account (length context.code == 0) (ok (m, failure empty_bytecode 0)) _ no_code λ _.
        Holds-if Account (context.gas_limit == 0) (ok (m, failure zero_gas_limit 0)) _ no_gas λ _.
          Holds-if Account (not (validate_bytecode context.code))
            (ok (m, failure invalid_bytecode 0)) _ bad_code (λ _. ran)
