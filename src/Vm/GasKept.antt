-- ===== src/Vm/GasKept.antt =====
-- The gas counter through the handlers of src/vm/instruction_handlers.cpp.
use deo.Prelude.{◌≡◌, refl, List, [], ◌∷◌}
use deo.Prelude.Run.{Holds, Holds-bind}
use deo.Uint256.{Uint256}
use deo.Vm.Opcode.{
  Opcode, stop, push0, jumpdest, sload, sstore, balance, return_, revert, selfdestruct,
}
use deo.Vm.Arithmetic.{
  dup_moved, swap_moved, handle_push, handle_pop, handle_dup, handle_swap, handle_add, handle_mul,
  handle_sub, handle_div, handle_mod, handle_lt, handle_gt, handle_eq, handle_iszero, handle_and,
  handle_or, handle_xor, handle_not, handle_jump, handle_jumpi,
}
use deo.Vm.Memory.{
  handle_mload, handle_mstore, handle_mstore8, handle_calldatacopy, handle_codecopy, handle_sha3,
  handle_return, handle_revert,
}
use deo.Vm.Environment.{
  handle_address, handle_caller, handle_coinbase, handle_pc, handle_msize, handle_gas,
  handle_callvalue, handle_calldatasize, handle_codesize, handle_gasprice, handle_timestamp,
  handle_number, handle_difficulty, handle_gaslimit, handle_calldataload, handle_blockhash,
}
use deo.Vm.Storage.{handle_sload, handle_sstore, handle_balance, handle_selfdestruct}
use deo.Vm.State.{VmState, ExecutionContext, Machine, Host}
use deo.Vm.Rules.{handler_rules}
use deo.Vm.Interpreter.{execute_instruction, state_instruction}

abbrev SameGas : VmState → VmState → Type 0
SameGas st r = r.gas_remaining ≡ st.gas_remaining

dup_moved-SameGas :
    (st : VmState) (p : List Uint256 × List Uint256) → Holds (SameGas st) (dup_moved st p)
dup_moved-SameGas st ([], temp) = tt
dup_moved-SameGas st (a ∷ s, temp) = refl

swap_moved-SameGas :
    (st : VmState) (p : List Uint256 × List Uint256) → Holds (SameGas st) (swap_moved st p)
swap_moved-SameGas st ([], temp) = tt
swap_moved-SameGas st (a ∷ s, []) = tt
swap_moved-SameGas st (a ∷ s, b ∷ temp) = refl

ruleset gas_rules = (handler_rules, dup_moved-SameGas, swap_moved-SameGas)

return-SameGas : (host : Host) (st : VmState) → Holds (SameGas st) (handle_return host st)
unfolding handle_return
return-SameGas host st = search gas_rules

revert-SameGas : (host : Host) (st : VmState) → Holds (SameGas st) (handle_revert host st)
unfolding handle_revert
revert-SameGas host st = search gas_rules

state-SameGas :
    (host : Host) (context : ExecutionContext) (op : Opcode) (st : VmState)
    → Holds (SameGas st) (state_instruction host context op st)
unfolding state_instruction
state-SameGas host context stop st = refl
state-SameGas host context push0 st = refl
state-SameGas host context jumpdest st = refl
state-SameGas host context return_ st =
    Holds-bind (SameGas st) _ (handle_return host st) _ (return-SameGas host st) (λ r h. h)
state-SameGas host context revert st =
    Holds-bind (SameGas st) _ (handle_revert host st) _ (revert-SameGas host st) (λ r h. h)
state-SameGas host context _ st =
    unfold handle_push handle_dup handle_swap handle_pop handle_add handle_mul handle_sub handle_div
      handle_mod handle_lt handle_gt handle_eq handle_iszero handle_and handle_or handle_xor
      handle_not handle_jump handle_jumpi handle_mload handle_mstore handle_mstore8
      handle_calldatacopy handle_codecopy handle_sha3 handle_return handle_revert handle_address
      handle_caller handle_coinbase handle_pc handle_msize handle_gas handle_callvalue
      handle_calldatasize handle_codesize handle_gasprice handle_timestamp handle_number
      handle_difficulty handle_gaslimit handle_calldataload handle_blockhash in
    search gas_rules depth 9

balance-SameGas : (m : Machine) (st : VmState) → Holds (SameGas st) (handle_balance m st)
unfolding handle_balance
balance-SameGas m st = search gas_rules

selfdestruct-SameGas :
    (context : ExecutionContext) (m : Machine) (st : VmState)
    → Holds (λ r. SameGas st r.1) (handle_selfdestruct context m st)
unfolding handle_selfdestruct
selfdestruct-SameGas context m st = search gas_rules

-- Where an instruction succeeds, its handler has left the gas alone.
pub execute_instruction-SameGas :
    (host : Host) (context : ExecutionContext) (op : Opcode) (m : Machine) (st : VmState)
    → Holds (λ r. r.1.gas_remaining ≡ st.gas_remaining) (execute_instruction host context op m st)
unfolding execute_instruction
execute_instruction-SameGas host context sload m st = unfold handle_sload in search gas_rules
execute_instruction-SameGas host context sstore m st = unfold handle_sstore in search gas_rules
execute_instruction-SameGas host context balance m st =
    Holds-bind (SameGas st) _ (handle_balance m st) _ (balance-SameGas m st) (λ r h. h)
execute_instruction-SameGas host context selfdestruct m st =
    Holds-bind (λ r. SameGas st r.1) _ (handle_selfdestruct context m st) _
      (selfdestruct-SameGas context m st) (λ r h. h)
execute_instruction-SameGas host context op m st =
    Holds-bind (SameGas st) _ (state_instruction host context op st) _
      (state-SameGas host context op st) (λ r h. h)
