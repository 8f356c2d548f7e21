-- ===== src/Vm/StackEffect.antt =====
-- The height of the stack before and after the handlers of src/vm/instruction_handlers.cpp.
use deo.Prelude.{ℕ, zero, suc, ◌+◌, ◌-◌, ◌≤◌, ◌≡◌, refl, ltb, List, [], ◌∷◌, length, arith}
use deo.Prelude.Run.{Holds, Holds-if, Holds-bind}
use deo.Uint256.{Uint256}
use deo.Vm.Opcode.{
  Opcode, stop, push0, pop, add_, mul_, sub_, div_, mod_, lt_, gt_, eq_, iszero, and_, or_, xor_,
  not_, jump, jumpi, jumpdest, mload, mstore, mstore8, sload, sstore, sha3, balance, calldataload,
  calldatacopy, codecopy, blockhash, return_, revert, selfdestruct, push, dup, swap,
}
use deo.Vm.State.{VmState, ExecutionContext, Machine, Host}
use deo.Vm.Arithmetic.{
  move, restore, dup_moved, swap_moved, handle_push, handle_pop, handle_dup, handle_swap,
  handle_add, handle_mul, handle_sub, handle_div, handle_mod, handle_lt, handle_gt, handle_eq,
  handle_iszero, handle_and, handle_or, handle_xor, handle_not, handle_jump, handle_jumpi,
}
use deo.Vm.Memory.{
  handle_mload, handle_mstore, handle_mstore8, handle_calldatacopy, handle_codecopy, handle_sha3,
  handle_return, handle_revert,
}
use deo.Vm.Environment.{
  handle_address, handle_caller, handle_coinbase, handle_pc, handle_msize, handle_gas,
  handle_callvalue, handle_calldatasize, handle_codesize, handle_gasprice, handle_timestamp,
  handle_number, handle_difficulty, handle_gaslimit, handle_calldataload, handle_blockhash,
}
use deo.Vm.Storage.{handle_sload, handle_sstore, handle_balance, handle_selfdestruct}
use deo.Vm.Rules.{handler_rules}
use deo.Vm.Interpreter.{execute_instruction, state_instruction}

-- The words that an instruction must find on the stack.
unfoldable pub needs : Opcode → ℕ
needs pop = 1
needs (dup n) = n
needs (swap n) = n + 1
needs add_ = 2
needs mul_ = 2
needs sub_ = 2
needs div_ = 2
needs mod_ = 2
needs lt_ = 2
needs gt_ = 2
needs eq_ = 2
needs iszero = 1
needs and_ = 2
needs or_ = 2
needs xor_ = 2
needs not_ = 1
needs jump = 1
needs jumpi = 2
needs mload = 1
needs mstore = 2
needs mstore8 = 2
needs sload = 1
needs sstore = 2
needs sha3 = 2
needs balance = 1
needs calldataload = 1
needs calldatacopy = 3
needs codecopy = 3
needs blockhash = 1
needs return_ = 2
needs revert = 2
needs selfdestruct = 1
needs _ = 0

-- The words that stand in their place afterwards.
unfoldable pub leaves : Opcode → ℕ
leaves pop = 0
leaves (dup n) = n + 1
leaves (swap n) = n + 1
leaves stop = 0
leaves jump = 0
leaves jumpi = 0
leaves jumpdest = 0
leaves mstore = 0
leaves mstore8 = 0
leaves sstore = 0
leaves calldatacopy = 0
leaves codecopy = 0
leaves return_ = 0
leaves revert = 0
leaves selfdestruct = 0
leaves _ = 1

-- The stack is `given` words longer after `taken` words were taken off.
abbrev Effect : VmState → ℕ → ℕ → VmState → Type 0
Effect st taken given r = length r.stack + taken ≡ length st.stack + given

length-restore : (temp s : List Uint256) → length (restore temp s) ≡ length temp + length s
unfolding restore
length-restore [] s = omega arith
length-restore (a ∷ temp) s = omega (arith, length-restore temp (a ∷ s))

length-move :
    (n : ℕ) (s temp : List Uint256)
    → n ≤ length s
    → (length (move n s temp).0 + n ≡ length s) × (length (move n s temp).1 ≡ length temp + n)
unfolding move
length-move zero s temp h = omega arith
length-move (suc n) [] temp h = absurd (omega arith)
length-move (suc n) (a ∷ s) temp h = omega (arith, length-move n s (a ∷ temp))

dup_moved-Effect :
    (n k : ℕ) (st : VmState) (s temp : List Uint256)
    → length s + k ≡ length st.stack
    → length temp ≡ k
    → Holds (Effect st n (n + 1)) (dup_moved st (s, temp))
dup_moved-Effect n k st [] temp e f = tt
dup_moved-Effect n k st (a ∷ s) temp e f = omega (arith, length-restore temp (a ∷ s))

dup-Effect : (n : ℕ) (st : VmState) → Holds (Effect st n (n + 1)) (handle_dup n st)
unfolding handle_dup
dup-Effect n st =
    Holds-if (Effect st n (n + 1)) (ltb (length st.stack) n) _ _ (λ _. tt)
      λ e.
        let moved = length-move (n - 1) st.stack [] (ground (arith, e)) in
        dup_moved-Effect n (n - 1) st _ _ moved.0 (omega (arith, moved.1))

swap_moved-Effect :
    (n : ℕ) (st : VmState) (s temp : List Uint256)
    → length s + n ≡ length st.stack
    → length temp ≡ n
    → Holds (Effect st (n + 1) (n + 1)) (swap_moved st (s, temp))
swap_moved-Effect n st [] temp e f = tt
swap_moved-Effect n st (a ∷ s) [] e f = tt
swap_moved-Effect n st (a ∷ s) (b ∷ temp) e f = omega (arith, length-restore temp (b ∷ s))

swap-Effect : (n : ℕ) (st : VmState) → Holds (Effect st (n + 1) (n + 1)) (handle_swap n st)
unfolding handle_swap
swap-Effect n st =
    Holds-if (Effect st (n + 1) (n + 1)) (ltb (length st.stack) (n + 1)) _ _ (λ _. tt)
      λ e.
        let moved = length-move n st.stack [] (ground (arith, e)) in
        swap_moved-Effect n st _ _ moved.0 (omega (arith, moved.1))

state-Effect :
    (host : Host) (context : ExecutionContext) (op : Opcode) (st : VmState)
    → Holds (Effect st (needs op) (leaves op)) (state_instruction host context op st)
unfolding state_instruction needs leaves
state-Effect host context stop st = refl
state-Effect host context push0 st = omega arith
state-Effect host context (push n) st = unfold handle_push in search (handler_rules, arith)
state-Effect host context (dup n) st = dup-Effect n st
state-Effect host context (swap n) st = swap-Effect n st
state-Effect host context jumpdest st = refl
state-Effect host context return_ st = unfold handle_return in search (handler_rules, arith)
state-Effect host context revert st = unfold handle_revert in search (handler_rules, arith)
state-Effect host context _ st =
    unfold handle_pop handle_add handle_mul handle_sub handle_div handle_mod handle_lt handle_gt
      handle_eq handle_iszero handle_and handle_or handle_xor handle_not handle_jump handle_jumpi
      handle_mload handle_mstore handle_mstore8 handle_calldatacopy handle_codecopy handle_sha3
      handle_return handle_revert handle_address handle_caller handle_coinbase handle_pc
      handle_msize handle_gas handle_callvalue handle_calldatasize handle_codesize handle_gasprice
      handle_timestamp handle_number handle_difficulty handle_gaslimit handle_calldataload
      handle_blockhash in
    search (handler_rules, arith)

balance-Effect : (m : Machine) (st : VmState) → Holds (Effect st 1 1) (handle_balance m st)
unfolding handle_balance
balance-Effect m st = search (handler_rules, arith)

selfdestruct-Effect :
    (context : ExecutionContext) (m : Machine) (st : VmState)
    → Holds (λ r. Effect st 1 0 r.1) (handle_selfdestruct context m st)
unfolding handle_selfdestruct
selfdestruct-Effect context m st = search (handler_rules, arith)

-- Where an instruction succeeds, the stack has lost as many words as the instruction takes and gained
-- as many as it leaves.
pub execute_instruction-Effect :
    (host : Host) (context : ExecutionContext) (op : Opcode) (m : Machine) (st : VmState)
    → Holds
        (λ r. length r.1.stack + needs op ≡ length st.stack + leaves op)
        (execute_instruction host context op m st)
unfolding execute_instruction needs leaves
execute_instruction-Effect host context sload m st =
    unfold handle_sload in search (handler_rules, arith)
execute_instruction-Effect host context sstore m st =
    unfold handle_sstore in search (handler_rules, arith)
execute_instruction-Effect host context balance m st =
    Holds-bind (Effect st 1 1) _ (handle_balance m st) _ (balance-Effect m st) (λ r h. h)
execute_instruction-Effect host context selfdestruct m st =
    Holds-bind (λ r. Effect st 1 0 r.1) _ (handle_selfdestruct context m st) _
      (selfdestruct-Effect context m st) (λ r h. h)
execute_instruction-Effect host context op m st =
    Holds-bind (Effect st (needs op) (leaves op)) _ (state_instruction host context op st) _
      (state-Effect host context op st) (λ r h. h)
