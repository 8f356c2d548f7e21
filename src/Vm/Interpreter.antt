-- ===== src/Vm/Interpreter.antt =====
-- executeInstruction of src/vm/instruction_handlers.cpp and execute of src/vm/virtual_machine.cpp.
use deo.Prelude.{
  ℕ, zero, suc, ◌+◌, ◌-◌, Bool, true, false, ltb, leb, ◌==◌, ◌||◌, if◌then◌else◌, List, [], length,
  get_or, Option, none, some, not, ◌%◌, ◌^◌, incremented,
}
use deo.Prelude.Run.{
  Run, Exception, ok, throws, undefined, no_fuel, invalid_instruction, unknown_opcode, ◌>>=◌,
}
use deo.Uint256.{of_u64}
use deo.Vm.Opcode.{
  Opcode, stop, push0, pop, add_, mul_, sub_, div_, mod_, lt_, gt_, eq_, iszero, and_, or_, xor_,
  not_, jump, jumpi, pc_, msize, gas, jumpdest, mload, mstore, mstore8, sload, sstore, sha3,
  address, balance, caller, callvalue, calldataload, calldatasize, calldatacopy, codesize, codecopy,
  gasprice, blockhash, coinbase, timestamp, number, difficulty, gaslimit, return_, revert, invalid,
  selfdestruct, push, dup, swap, decode, gas_cost, in_push_range,
}
use deo.Vm.State.{VmState, ExecutionContext, Machine, Host, pushed, initial_state}
use deo.Vm.Arithmetic.{
  handle_push, handle_pop, handle_dup, handle_swap, handle_add, handle_mul, handle_sub, handle_div,
  handle_mod, handle_lt, handle_gt, handle_eq, handle_iszero, handle_and, handle_or, handle_xor,
  handle_not, handle_jump, handle_jumpi,
}
use deo.Vm.Memory.{
  handle_mload, handle_mstore, handle_mstore8, handle_calldatacopy, handle_codecopy, handle_sha3,
  handle_return, handle_revert,
}
use deo.Vm.Environment.{
  handle_address, handle_caller, handle_coinbase, handle_pc, handle_msize, handle_gas,
  handle_callvalue, handle_calldatasize, handle_codesize, handle_gasprice, handle_timestamp,
  handle_number, handle_difficulty, handle_gaslimit, handle_calldataload, handle_blockhash,
}
use deo.Vm.Storage.{handle_sload, handle_sstore, handle_balance, handle_selfdestruct}
use deo.Vm.Validation.{validate_bytecode}

-- state.halted = true
abbrev halting : VmState → VmState
halting st = record st { halted = true }

-- The switch, for the handlers that use the VMState and the context alone.
unfoldable pub state_instruction : Host → ExecutionContext → Opcode → VmState → Run VmState
state_instruction host context stop st = ok (halting st)
state_instruction host context push0 st = ok (pushed st (of_u64 0) st.stack)
state_instruction host context (push n) st = handle_push context.code n st
state_instruction host context pop st = handle_pop st
state_instruction host context (dup n) st = handle_dup n st
state_instruction host context (swap n) st = handle_swap n st
state_instruction host context add_ st = handle_add st
state_instruction host context mul_ st = handle_mul st
state_instruction host context sub_ st = handle_sub st
state_instruction host context div_ st = handle_div host st
state_instruction host context mod_ st = handle_mod host st
state_instruction host context lt_ st = handle_lt st
state_instruction host context gt_ st = handle_gt st
state_instruction host context eq_ st = handle_eq st
state_instruction host context iszero st = handle_iszero st
state_instruction host context and_ st = handle_and st
state_instruction host context or_ st = handle_or st
state_instruction host context xor_ st = handle_xor st
state_instruction host context not_ st = handle_not st
state_instruction host context jump st = handle_jump context.code st
state_instruction host context jumpi st = handle_jumpi context.code st
state_instruction host context jumpdest st = ok st
state_instruction host context pc_ st = handle_pc st
state_instruction host context msize st = handle_msize st
state_instruction host context gas st = handle_gas st
state_instruction host context mload st = handle_mload host st
state_instruction host context mstore st = handle_mstore host st
state_instruction host context mstore8 st = handle_mstore8 host st
state_instruction host context address st = handle_address context st
state_instruction host context caller st = handle_caller context st
state_instruction host context callvalue st = handle_callvalue context st
state_instruction host context calldataload st = handle_calldataload context st
state_instruction host context calldatasize st = handle_calldatasize context st
state_instruction host context calldatacopy st = handle_calldatacopy host context st
state_instruction host context codesize st = handle_codesize context st
state_instruction host context codecopy st = handle_codecopy host context st
state_instruction host context gasprice st = handle_gasprice context st
state_instruction host context blockhash st = handle_blockhash context st
state_instruction host context coinbase st = handle_coinbase context st
state_instruction host context timestamp st = handle_timestamp context st
state_instruction host context number st = handle_number context st
state_instruction host context difficulty st = handle_difficulty st
state_instruction host context gaslimit st = handle_gaslimit context st
state_instruction host context sha3 st = handle_sha3 host st
state_instruction host context return_ st = handle_return host st >>= λ r. ok (halting r)
state_instruction host context revert st = handle_revert host st >>= λ r. ok (halting r)
state_instruction host context invalid st = throws invalid_instruction
state_instruction host context _ st = throws unknown_opcode

-- The whole switch.
unfoldable pub execute_instruction :
    Host → ExecutionContext → Opcode → Machine → VmState → Run (Machine × VmState)
execute_instruction host context sload m st = handle_sload context m st
execute_instruction host context sstore m st = handle_sstore context m st
execute_instruction host context balance m st = handle_balance m st >>= λ r. ok (m, r)
execute_instruction host context selfdestruct m st =
    handle_selfdestruct context m st >>= λ r. ok (r.0, halting r.1)
execute_instruction host context op m st = state_instruction host context op st >>= λ r. ok (m, r)

-- A PUSH has moved the program counter itself.
unfoldable pub advance : Opcode → VmState → VmState
advance op st = if st.halted || in_push_range op then st else record st { pc = st.pc + 1 }

-- How the loop of `execute` ends.
pub data Ending : Type 0 where
  finished out_of_gas : VmState → Ending
  instruction_limit : Ending
  raised : Exception → Ending
  went_undefined went_on : Ending

unfoldable pub count_instruction : Machine → Machine
count_instruction m = record m {
  total_instructions_executed = incremented m.total_instructions_executed;
}

-- What follows an instruction: the loop goes on, or has ended.
abbrev pub settle :
    (Machine → VmState → Machine × Ending) → Machine → Run (Machine × VmState) → Machine × Ending
settle go_on m (ok (m', st')) = go_on m' st'
settle go_on m (throws e) = (m, raised e)
settle go_on m undefined = (m, went_undefined)
settle go_on m no_fuel = (m, went_on)

-- The loop, with `left` instructions until the limit. An exception leaves the members as the
-- instruction found them: no handler changes a member before it can throw.
unfoldable pub run_loop : Host → ExecutionContext → ℕ → Machine → VmState → Machine × Ending
unfolding count_instruction
run_loop host context zero m st = (m, instruction_limit)
run_loop host context (suc left) m st =
    let op = decode (get_or context.code st.pc 0) in
    let paid : VmState = record st { gas_remaining = st.gas_remaining - gas_cost op } in
    elim (st.halted || leb (length context.code) st.pc) [
      | true ↦ (m, finished st)
      | false ↦ elim (ltb st.gas_remaining (gas_cost op)) [
        | true ↦ (m, out_of_gas st)
        | false ↦
            settle (λ m' st'. run_loop host context left (count_instruction m') (advance op st')) m
              (execute_instruction host context op m paid)
      ]
    ]

pub data Failure : Type 0 where
  empty_bytecode zero_gas_limit invalid_bytecode gas_exhausted limit_reached : Failure
  execution_error : Exception → Failure

pub record ExecutionResult : Type 0 where
  pub success : Bool
  pub return_data : List ℕ
  pub gas_used : ℕ
  pub error : Option Failure

abbrev pub failure : Failure → ℕ → ExecutionResult
failure f used = record { success = false; return_data = []; gas_used = used; error = some f }

-- What `execute` does after the loop.
unfoldable pub conclude : ExecutionContext → Machine × Ending → Run (Machine × ExecutionResult)
conclude context (m, finished st) =
    let used = context.gas_limit - st.gas_remaining in
    ok (
      record m {
        total_executions = incremented m.total_executions;
        total_gas_used = (m.total_gas_used + used) % 2 ^ 64;
      },
      record { success = true; return_data = st.memory; gas_used = used; error = none },
    )
conclude context (m, out_of_gas st) =
    ok (m, failure gas_exhausted (context.gas_limit - st.gas_remaining))
conclude context (m, instruction_limit) = ok (m, failure limit_reached 0)
conclude context (m, raised e) = ok (m, failure (execution_error e) 0)
conclude context (m, went_undefined) = undefined
conclude context (m, went_on) = no_fuel

abbrev pub max_instructions : ℕ
max_instructions = 10000

unfoldable pub execute : Host → ExecutionContext → Machine → Run (Machine × ExecutionResult)
unfolding conclude initial_state
execute host context m =
    let ran =
      conclude context
        (run_loop host context max_instructions m (initial_state context.gas_limit)) in
    if length context.code == 0
    then ok (m, failure empty_bytecode 0)
    else if context.gas_limit == 0
    then ok (m, failure zero_gas_limit 0)
    else if not (validate_bytecode context.code)
    then ok (m, failure invalid_bytecode 0)
    else ran
