-- ===== src/Vm/Trace.antt =====
-- The loop of `execute` of src/vm/virtual_machine.cpp against a step relation.
use deo.Prelude.{
  ℕ, zero, suc, ◌+◌, ◌-◌, ◌≤◌, ◌<◌, ◌≡◌, refl, true, false, ◌||◌, ltb, leb, ltb→lt, ltb→le, length,
  get_or, arith, ◌⊎◌, inl, inr, Bool-cases,
}
use deo.Prelude.Run.{Run, ok, throws, undefined, no_fuel, Holds_at}
use deo.Vm.Opcode.{Opcode, decode, gas_cost}
use deo.Vm.State.{VmState, ExecutionContext, Machine, Host}
use deo.Vm.Interpreter.{
  execute_instruction, advance, run_loop, count_instruction, settle, Ending, finished, out_of_gas,
  instruction_limit, raised, went_undefined, went_on,
}
use deo.Vm.GasKept.{execute_instruction-SameGas}

module _ (host : Host) (context : ExecutionContext) where
  -- The instruction at the program counter, and the state that has paid for it.
  abbrev pub current : VmState → Opcode
  current st = decode (get_or context.code st.pc 0)

  abbrev pub paid : VmState → VmState
  paid st = record st { gas_remaining = st.gas_remaining - gas_cost (current st) }

  abbrev pub runs_instruction : Machine → VmState → Run (Machine × VmState)
  runs_instruction m st = execute_instruction host context (current st) m (paid st)

  -- `st` can be stepped from: not halted, inside the code, and the gas suffices.
  pub record CanStep (st : VmState) : Type 0 where
    pub running : st.halted ≡ false
    pub inside : st.pc < length context.code
    pub affords : gas_cost (current st) ≤ st.gas_remaining

  -- `n` instructions that cost `g` together.
  pub data Runs : ℕ → ℕ → Machine → VmState → Machine → VmState → Type 0 where
    here : {m : Machine} {st : VmState} → Runs 0 0 m st m st
    next :
        {n g : ℕ} {m m1 m' : Machine} {st st1 st' : VmState}
        → CanStep st
        → runs_instruction m st ≡ ok (m1, st1)
        → Runs n g (count_instruction m1) (advance (current st) st1) m' st'
        → Runs (suc n) (gas_cost (current st) + g) m st m' st'

  -- The gas that a trace spends is the sum of the costs of its instructions.
  pub Runs-gas :
      {n g : ℕ} {m m' : Machine} {st st' : VmState}
      → Runs n g m st m' st'
      → st.gas_remaining ≡ g + st'.gas_remaining
  unfolding advance
  Runs-gas here = omega arith
  Runs-gas (next {n} {g} {m} {m1} {m'} {st} {st1} {st'} can e rest) =
      let same : st1.gas_remaining ≡ (paid st).gas_remaining =
        Holds_at (λ r. r.1.gas_remaining ≡ (paid st).gas_remaining) _ (m1, st1)
          (execute_instruction-SameGas host context (current st) m (paid st)) e in
      ground (arith, Runs-gas rest)

  -- How the trace of a run explains its ending, with `left` instructions until the limit.
  abbrev pub Explains : ℕ → Machine → VmState → Machine × Ending → Type 0
  Explains left m st (m', finished st') =
      (n : ℕ) × (g : ℕ) × Runs n g m st m' st'
      × (n < left)
      × ((st'.halted ≡ true) ⊎ (length context.code ≤ st'.pc))
  Explains left m st (m', out_of_gas st') =
      (n : ℕ) × (g : ℕ) × Runs n g m st m' st'
      × (n < left)
      × (st'.halted ≡ false)
      × (st'.pc < length context.code)
      × (st'.gas_remaining < gas_cost (current st'))
  Explains left m st (m', instruction_limit) = (g : ℕ) × (st' : VmState) × Runs left g m st m' st'
  Explains left m st (m', raised x) =
      (n : ℕ) × (g : ℕ) × (st' : VmState) × Runs n g m st m' st'
      × (n < left)
      × CanStep st'
      × (runs_instruction m' st' ≡ throws x)
  Explains left m st (m', went_undefined) =
      (n : ℕ) × (g : ℕ) × (st' : VmState) × Runs n g m st m' st'
      × (n < left)
      × CanStep st'
      × (runs_instruction m' st' ≡ undefined)
  Explains left m st (m', went_on) =
      (n : ℕ) × (g : ℕ) × (st' : VmState) × Runs n g m st m' st'
      × (n < left)
      × CanStep st'
      × (runs_instruction m' st' ≡ no_fuel)

  one_more :
      (left : ℕ) (m m1 : Machine) (st st1 : VmState) (out : Machine × Ending)
      → CanStep st
      → runs_instruction m st ≡ ok (m1, st1)
      → Explains left (count_instruction m1) (advance (current st) st1) out
      → Explains (suc left) m st out
  one_more left m m1 st st1 (m', finished st') can e (n, g, r, lt, why) =
      (suc n, gas_cost (current st) + g, next can e r, omega arith, why)
  one_more left m m1 st st1 (m', out_of_gas st') can e (n, g, r, lt, h, i, k) =
      (suc n, gas_cost (current st) + g, next can e r, omega arith, h, i, k)
  one_more left m m1 st st1 (m', instruction_limit) can e (g, st', r) =
      (gas_cost (current st) + g, st', next can e r)
  one_more left m m1 st st1 (m', raised x) can e (n, g, st', r, lt, c, t) =
      (suc n, gas_cost (current st) + g, st', next can e r, omega arith, c, t)
  one_more left m m1 st st1 (m', went_undefined) can e (n, g, st', r, lt, c, t) =
      (suc n, gas_cost (current st) + g, st', next can e r, omega arith, c, t)
  one_more left m m1 st st1 (m', went_on) can e (n, g, st', r, lt, c, t) =
      (suc n, gas_cost (current st) + g, st', next can e r, omega arith, c, t)

  settle-Explains :
      (left : ℕ) (m : Machine) (st : VmState) (go_on : Machine → VmState → Machine × Ending)
      (r : Run (Machine × VmState))
      → CanStep st
      → runs_instruction m st ≡ r
      → ((m1 : Machine) (st1 : VmState)
          → Explains left (count_instruction m1) (advance (current st) st1) (go_on m1 st1))
      → Explains (suc left) m st (settle go_on m r)
  settle-Explains left m st go_on (ok (m1, st1)) can e ih =
      one_more left m m1 st st1 (go_on m1 st1) can e (ih m1 st1)
  settle-Explains left m st go_on (throws x) can e ih = (0, 0, st, here, omega arith, can, e)
  settle-Explains left m st go_on undefined can e ih = (0, 0, st, here, omega arith, can, e)
  settle-Explains left m st go_on no_fuel can e ih = (0, 0, st, here, omega arith, can, e)

  stops :
      (st : VmState)
      → (st.halted || leb (length context.code) st.pc) ≡ true
      → (st.halted ≡ true) ⊎ (length context.code ≤ st.pc)
  stops st h = ground (arith, h)

  -- However the loop ends, a trace explains it: it has fewer instructions than the limit and ends
  -- halted or past the code, or before an instruction that cannot be paid, throws, is undefined or
  -- runs out of fuel; or it has as many instructions as the limit.
  pub run_loop-Explains :
      (left : ℕ) (m : Machine) (st : VmState) → Explains left m st (run_loop host context left m st)
  unfolding run_loop
  run_loop-Explains zero m st = (0, st, here)
  run_loop-Explains (suc left) m st =
      elim (Bool-cases (st.halted || leb (length context.code) st.pc)) [
        | inl halt ↦ rw (halt, run_loop) (0, 0, here, omega arith, stops st halt)
        | inr go ↦ elim (Bool-cases (ltb st.gas_remaining (gas_cost (current st)))) [
          | inl poor ↦
              rw (go, poor, run_loop)
                (
                  0,
                  0,
                  here,
                  omega arith,
                  ground (arith, go),
                  ground (arith, go),
                  ltb→lt st.gas_remaining (gas_cost (current st)) poor,
                )
          | inr rich ↦
              rw (go, rich, run_loop)
                (settle-Explains left m st _ _
                  (record {
                    running = ground (arith, go);
                    inside = ground (arith, go);
                    affords = ltb→le st.gas_remaining (gas_cost (current st)) rich;
                  })
                  refl
                  (λ m1 st1.
                    run_loop-Explains left (count_instruction m1) (advance (current st) st1)))
        ]
      ]
