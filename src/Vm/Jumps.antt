-- ===== src/Vm/Jumps.antt =====
-- Where the handlers of src/vm/instruction_handlers.cpp leave the program counter.
use deo.Prelude.{
  ◌+◌, ◌<◌, ◌≡◌, refl, ◌⊎◌, inl, inr, if◌then◌else◌, List, [], ◌∷◌, length, get_or, arith,
}
use deo.Prelude.Run.{ok, Holds, Holds-then, Holds-if, Holds-bind, Holds-mono}
use deo.Uint256.{Uint256, is_zero}
use deo.Vm.Opcode.{
  Opcode, stop, push0, jump, jumpi, jumpdest, sload, sstore, balance, return_, revert, selfdestruct,
  push,
}
use deo.Vm.Arithmetic.{
  dup_moved, is_valid_jump_destination, jump_to, swap_moved, handle_push, handle_pop, handle_dup,
  handle_swap, handle_add, handle_mul, handle_sub, handle_div, handle_mod, handle_lt, handle_gt,
  handle_eq, handle_iszero, handle_and, handle_or, handle_xor, handle_not, handle_jump,
  handle_jumpi,
}
use deo.Vm.Memory.{
  handle_mload, handle_mstore, handle_mstore8, handle_calldatacopy, handle_codecopy, handle_sha3,
  handle_return, handle_revert,
}
use deo.Vm.Environment.{
  handle_address, handle_caller, handle_coinbase, handle_pc, handle_msize, handle_gas,
  handle_callvalue, handle_calldatasize, handle_codesize, handle_gasprice, handle_timestamp,
  handle_number, handle_difficulty, handle_gaslimit, handle_calldataload, handle_blockhash,
}
use deo.Vm.Storage.{handle_sload, handle_sstore, handle_balance, handle_selfdestruct}
use deo.Vm.State.{VmState, ExecutionContext, Machine, Host}
use deo.Vm.Rules.{handler_rules, with2-Holds}
use deo.Vm.Interpreter.{execute_instruction, state_instruction}

-- The byte at the program counter is JUMPDEST, inside the code.
abbrev pub Lands : ExecutionContext → VmState → Type 0
Lands context r = (r.pc < length context.code) × (get_or context.code r.pc 0 ≡ 0x5b)

-- The program counter after an instruction, before the loop adds its one.
abbrev pub PcAfter : ExecutionContext → Opcode → VmState → VmState → Type 0
PcAfter context (push n) st r = r.pc ≡ st.pc + n + 1
PcAfter context jump st r = Lands context r
PcAfter context jumpi st r = (r.pc ≡ st.pc) ⊎ Lands context r
PcAfter context _ st r = r.pc ≡ st.pc

abbrev SamePc : VmState → VmState → Type 0
SamePc st r = r.pc ≡ st.pc

dup_moved-SamePc :
    (st : VmState) (p : List Uint256 × List Uint256) → Holds (SamePc st) (dup_moved st p)
dup_moved-SamePc st ([], temp) = tt
dup_moved-SamePc st (a ∷ s, temp) = refl

swap_moved-SamePc :
    (st : VmState) (p : List Uint256 × List Uint256) → Holds (SamePc st) (swap_moved st p)
swap_moved-SamePc st ([], temp) = tt
swap_moved-SamePc st (a ∷ s, []) = tt
swap_moved-SamePc st (a ∷ s, b ∷ temp) = refl

jump_to-Lands :
    (context : ExecutionContext) (dest : Uint256) (st : VmState)
    → Holds (Lands context) (jump_to context.code dest st)
unfolding jump_to is_valid_jump_destination
jump_to-Lands context dest st = Holds-then (Lands context) _ _ λ target.
    Holds-if (Lands context) (is_valid_jump_destination context.code target)
      (ok (record st { pc = target })) _ (λ e. (ground (arith, e), ground (arith, e))) (λ _. tt)

jumpi-Lands :
    (context : ExecutionContext) (st st' : VmState) (condition dest : Uint256)
    → st'.pc ≡ st.pc
    → Holds
        (λ r. (r.pc ≡ st.pc) ⊎ Lands context r)
        (if is_zero condition then ok st' else jump_to context.code dest st')
jumpi-Lands context st st' condition dest e =
    Holds-if _ (is_zero condition) (ok st') (jump_to context.code dest st') (λ _. inl e)
      λ _.
        Holds-mono (Lands context) _ (jump_to context.code dest st') (λ r h. inr h)
          (jump_to-Lands context dest st')

ruleset pc_rules = (handler_rules, dup_moved-SamePc, swap_moved-SamePc, jump_to-Lands, jumpi-Lands)

return-SamePc : (host : Host) (st : VmState) → Holds (SamePc st) (handle_return host st)
unfolding handle_return
return-SamePc host st = search pc_rules

revert-SamePc : (host : Host) (st : VmState) → Holds (SamePc st) (handle_revert host st)
unfolding handle_revert
revert-SamePc host st = search pc_rules

jumpi-PcAfter :
    (context : ExecutionContext) (st : VmState)
    → Holds (PcAfter context jumpi st) (handle_jumpi context.code st)
unfolding handle_jumpi
jumpi-PcAfter context st =
    with2-Holds (PcAfter context jumpi st) _ st.stack
      λ dest condition s _. jumpi-Lands context st (record st { stack = s }) condition dest refl

state-PcAfter :
    (host : Host) (context : ExecutionContext) (op : Opcode) (st : VmState)
    → Holds (PcAfter context op st) (state_instruction host context op st)
unfolding state_instruction
state-PcAfter host context stop st = refl
state-PcAfter host context push0 st = refl
state-PcAfter host context jumpdest st = refl
state-PcAfter host context (push n) st = unfold handle_push in search pc_rules depth 9
state-PcAfter host context jump st = unfold handle_jump in search pc_rules
state-PcAfter host context jumpi st = jumpi-PcAfter context st
state-PcAfter host context return_ st =
    Holds-bind (SamePc st) _ (handle_return host st) _ (return-SamePc host st) (λ r h. h)
state-PcAfter host context revert st =
    Holds-bind (SamePc st) _ (handle_revert host st) _ (revert-SamePc host st) (λ r h. h)
state-PcAfter host context _ st =
    unfold handle_dup handle_swap handle_pop handle_add handle_mul handle_sub handle_div handle_mod
      handle_lt handle_gt handle_eq handle_iszero handle_and handle_or handle_xor handle_not
      handle_mload handle_mstore handle_mstore8 handle_calldatacopy handle_codecopy handle_sha3
      handle_return handle_revert handle_address handle_caller handle_coinbase handle_pc
      handle_msize handle_gas handle_callvalue handle_calldatasize handle_codesize handle_gasprice
      handle_timestamp handle_number handle_difficulty handle_gaslimit handle_calldataload
      handle_blockhash in
    search pc_rules depth 9

balance-SamePc : (m : Machine) (st : VmState) → Holds (SamePc st) (handle_balance m st)
unfolding handle_balance
balance-SamePc m st = search pc_rules

selfdestruct-SamePc :
    (context : ExecutionContext) (m : Machine) (st : VmState)
    → Holds (λ r. SamePc st r.1) (handle_selfdestruct context m st)
unfolding handle_selfdestruct
selfdestruct-SamePc context m st = search pc_rules

-- Where an instruction succeeds: a jump that is taken lands on a JUMPDEST byte inside the code, PUSHn
-- passes its data, and no other instruction moves the program counter.
pub execute_instruction-PcAfter :
    (host : Host) (context : ExecutionContext) (op : Opcode) (m : Machine) (st : VmState)
    → Holds (λ r. PcAfter context op st r.1) (execute_instruction host context op m st)
unfolding execute_instruction
execute_instruction-PcAfter host context sload m st = unfold handle_sload in search pc_rules
execute_instruction-PcAfter host context sstore m st = unfold handle_sstore in search pc_rules
execute_instruction-PcAfter host context balance m st =
    Holds-bind (SamePc st) _ (handle_balance m st) _ (balance-SamePc m st) (λ r h. h)
execute_instruction-PcAfter host context selfdestruct m st =
    Holds-bind (λ r. SamePc st r.1) _ (handle_selfdestruct context m st) _
      (selfdestruct-SamePc context m st) (λ r h. h)
execute_instruction-PcAfter host context op m st =
    Holds-bind (PcAfter context op st) _ (state_instruction host context op st) _
      (state-PcAfter host context op st) (λ r h. h)
