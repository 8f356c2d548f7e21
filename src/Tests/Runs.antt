-- ===== src/Tests/Runs.antt =====
-- A host, the members of a new VirtualMachine, and small programs, run.
use deo.Prelude.{ℕ, ◌≡◌, refl, false, List, [], ◌∷◌, ltb}
use deo.Prelude.Run.{ok, stack_underflow}
use deo.Uint256.{Uint256}
use deo.Vm.State.{ExecutionContext, VmState, Machine, Host}
use deo.Vm.Opcode.{decode, is_valid_opcode, in_push_range, gas_cost}
use deo.Vm.Arithmetic.{handle_add}
use deo.Vm.Validation.{validate_bytecode}
use deo.Vm.Interpreter.{
  execute, execute_instruction, state_instruction, run_loop, failure, execution_error,
}

abbrev pub host : Host
host = record { division_rounds = 1000; can_allocate = λ n. ltb n 100000 }

abbrev pub fresh : Machine
fresh = record {
  contract_storage = [];
  account_balances = [];
  total_executions = 0;
  total_gas_used = 0;
  total_instructions_executed = 0;
}

abbrev pub context_for : List ℕ → ℕ → ExecutionContext
context_for code gas_limit = record {
  code = code;
  input_data = [];
  caller_address = [];
  contract_address = 0x30 ∷ [];
  gas_limit = gas_limit;
  gas_price = 1;
  value = 0;
  block_number = 7;
  block_timestamp = 0;
  block_coinbase = [];
}

abbrev pub state_with : List Uint256 → VmState
state_with s = record { stack = s; memory = []; pc = 0; gas_remaining = 100; halted = false }

-- PUSH1 3, PUSH1 4, ADD, STOP
abbrev pub adds : List ℕ
adds = 0x60 ∷ 3 ∷ 0x60 ∷ 4 ∷ 0x01 ∷ 0x00 ∷ []

-- ADD on an empty stack
abbrev pub adds_nothing : List ℕ
adds_nothing = 0x01 ∷ []

adds_nothing_result :
    execute host (context_for adds_nothing 100) fresh
    ≡ ok (fresh, failure (execution_error stack_underflow) 0)
unfolding execute validate_bytecode is_valid_opcode decode in_push_range run_loop gas_cost
    execute_instruction state_instruction handle_add
adds_nothing_result = refl
