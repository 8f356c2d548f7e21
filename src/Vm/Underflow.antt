-- ===== src/Vm/Underflow.antt =====
-- The handlers of src/vm/instruction_handlers.cpp on too few words.
use deo.Prelude.{◌+◌, ◌<◌, ◌≡◌, refl, Bool, true, false, length, arith, lt→ltb}
use deo.Prelude.Run.{throws, stack_underflow, throws-bind}
use deo.Vm.Opcode.{
  Opcode, stop, pop, add_, mul_, sub_, div_, mod_, lt_, gt_, eq_, iszero, and_, or_, xor_, not_,
  jump, jumpi, mload, mstore, mstore8, sload, sstore, sha3, balance, calldataload, calldatacopy,
  codecopy, blockhash, return_, revert, selfdestruct, dup, swap,
}
use deo.Vm.State.{VmState, ExecutionContext, Machine, Host}
use deo.Vm.Arithmetic.{
  handle_pop, handle_dup, handle_swap, handle_add, handle_mul, handle_sub, handle_div, handle_mod,
  handle_lt, handle_gt, handle_eq, handle_iszero, handle_and, handle_or, handle_xor, handle_not,
  handle_jump, handle_jumpi,
}
use deo.Vm.Memory.{
  handle_mload, handle_mstore, handle_mstore8, handle_calldatacopy, handle_codecopy, handle_sha3,
  handle_return, handle_revert,
}
use deo.Vm.Environment.{handle_calldataload, handle_blockhash}
use deo.Vm.Storage.{handle_sload, handle_sstore, handle_balance, handle_selfdestruct}
use deo.Vm.Rules.{short_rules}
use deo.Vm.StackEffect.{needs}
use deo.Vm.Interpreter.{execute_instruction, state_instruction}

-- The instructions that `state_instruction` leaves to `execute_instruction`.
is_member_instruction : Opcode → Bool
is_member_instruction sload = true
is_member_instruction sstore = true
is_member_instruction balance = true
is_member_instruction selfdestruct = true
is_member_instruction _ = false

state_underflow :
    (host : Host) (context : ExecutionContext) (op : Opcode) (st : VmState)
    → length st.stack < needs op
    → is_member_instruction op ≡ false
    → state_instruction host context op st ≡ throws stack_underflow
unfolding state_instruction needs is_member_instruction
state_underflow host context stop st h k = absurd (omega arith)
state_underflow host context (dup n) st h k =
    unfold handle_dup in rw (lt→ltb (length st.stack) n h) refl
state_underflow host context (swap n) st h k =
    unfold handle_swap in rw (lt→ltb (length st.stack) (n + 1) h) refl
state_underflow host context return_ st h k =
    throws-bind (handle_return host st) _ stack_underflow
      (unfold handle_return in search (short_rules, arith))
state_underflow host context revert st h k =
    throws-bind (handle_revert host st) _ stack_underflow
      (unfold handle_revert in search (short_rules, arith))
state_underflow host context sload st h k = cc
state_underflow host context sstore st h k = cc
state_underflow host context balance st h k = cc
state_underflow host context selfdestruct st h k = cc
state_underflow host context pop st h k = unfold handle_pop in search (short_rules, arith)
state_underflow host context add_ st h k = unfold handle_add in search (short_rules, arith)
state_underflow host context mul_ st h k = unfold handle_mul in search (short_rules, arith)
state_underflow host context sub_ st h k = unfold handle_sub in search (short_rules, arith)
state_underflow host context div_ st h k = unfold handle_div in search (short_rules, arith)
state_underflow host context mod_ st h k = unfold handle_mod in search (short_rules, arith)
state_underflow host context lt_ st h k = unfold handle_lt in search (short_rules, arith)
state_underflow host context gt_ st h k = unfold handle_gt in search (short_rules, arith)
state_underflow host context eq_ st h k = unfold handle_eq in search (short_rules, arith)
state_underflow host context iszero st h k = unfold handle_iszero in search (short_rules, arith)
state_underflow host context and_ st h k = unfold handle_and in search (short_rules, arith)
state_underflow host context or_ st h k = unfold handle_or in search (short_rules, arith)
state_underflow host context xor_ st h k = unfold handle_xor in search (short_rules, arith)
state_underflow host context not_ st h k = unfold handle_not in search (short_rules, arith)
state_underflow host context jump st h k = unfold handle_jump in search (short_rules, arith)
state_underflow host context jumpi st h k = unfold handle_jumpi in search (short_rules, arith)
state_underflow host context mload st h k = unfold handle_mload in search (short_rules, arith)
state_underflow host context mstore st h k = unfold handle_mstore in search (short_rules, arith)
state_underflow host context mstore8 st h k = unfold handle_mstore8 in search (short_rules, arith)
state_underflow host context sha3 st h k = unfold handle_sha3 in search (short_rules, arith)
state_underflow host context calldataload st h k =
    unfold handle_calldataload in search (short_rules, arith)
state_underflow host context calldatacopy st h k =
    unfold handle_calldatacopy in search (short_rules, arith)
state_underflow host context codecopy st h k = unfold handle_codecopy in search (short_rules, arith)
state_underflow host context blockhash st h k =
    unfold handle_blockhash in search (short_rules, arith)
state_underflow host context _ st h k = absurd (omega arith)

-- An instruction that finds fewer words on the stack than it needs throws a stack underflow.
pub execute_instruction_underflow :
    (host : Host) (context : ExecutionContext) (op : Opcode) (m : Machine) (st : VmState)
    → length st.stack < needs op
    → execute_instruction host context op m st ≡ throws stack_underflow
unfolding execute_instruction needs is_member_instruction
execute_instruction_underflow host context sload m st h =
    unfold handle_sload in search (short_rules, arith)
execute_instruction_underflow host context sstore m st h =
    unfold handle_sstore in search (short_rules, arith)
execute_instruction_underflow host context balance m st h =
    throws-bind (handle_balance m st) _ stack_underflow
      (unfold handle_balance in search (short_rules, arith))
execute_instruction_underflow host context selfdestruct m st h =
    throws-bind (handle_selfdestruct context m st) _ stack_underflow
      (unfold handle_selfdestruct in search (short_rules, arith))
execute_instruction_underflow host context op m st h =
    throws-bind (state_instruction host context op st) _ stack_underflow
      (state_underflow host context op st h refl)
