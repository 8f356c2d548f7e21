-- ===== src/Vm/Arithmetic.antt =====
-- The stack, arithmetic, comparison, bitwise and jump handlers of src/vm/instruction_handlers.cpp.
use deo.Prelude.{
  ℕ, zero, suc, ◌+◌, ◌-◌, Bool, true, false, ltb, leb, ◌==◌, if◌then◌else◌, List, [], ◌∷◌, length,
  get_or,
}
use deo.Prelude.Run.{
  Run, ok, throws, undefined, stack_underflow, stack_overflow, push_size, push_bounds,
  vm_add_overflow, bad_jump, ◌>>=◌,
}
use deo.Uint256
use deo.Uint256.{Uint256, radix, of_u64, to_u64, is_zero}
use deo.Uint256.Product
use deo.Uint256.Quotient
use deo.Vm.State.{VmState, Host, with1, with2, pushed}

-- The loop of handlePush: value = value * 256 + byte.
unfoldable pub push_value : ℕ → List ℕ → ℕ → Uint256 → Run Uint256
push_value zero code at value = ok value
push_value (suc n) code at value = do
  shifted ← Product.mul value (of_u64 256)
  next ← Uint256.add shifted (of_u64 (get_or code at 0))
  push_value n code (at + 1) next

unfoldable pub handle_push : List ℕ → ℕ → VmState → Run VmState
handle_push code n st =
    if leb 1024 (length st.stack)
    then throws stack_overflow
    else if ltb 32 n
    then throws push_size
    else if ltb (length code) (st.pc + 1 + n)
    then throws push_bounds
    else do
      value ← push_value n code (st.pc + 1) (of_u64 0)
      ok (record st { stack = value ∷ st.stack; pc = st.pc + n + 1 })

unfoldable pub handle_pop : VmState → Run VmState
handle_pop st = with1 (λ a s. ok (record st { stack = s })) st.stack

-- Moves `n` words from one stack to the other, top first.
unfoldable pub move : ℕ → List Uint256 → List Uint256 → List Uint256 × List Uint256
move zero s temp = (s, temp)
move (suc n) [] temp = ([], temp)
move (suc n) (a ∷ s) temp = move n s (a ∷ temp)

-- while (!temp.empty()) { stack.push(temp.top()); temp.pop(); }
unfoldable pub restore : List Uint256 → List Uint256 → List Uint256
restore [] s = s
restore (a ∷ temp) s = restore temp (a ∷ s)

-- stack.top() of an empty stack is undefined.
abbrev pub dup_moved : VmState → List Uint256 × List Uint256 → Run VmState
dup_moved st ([], temp) = undefined
dup_moved st (value ∷ s, temp) = ok (record st { stack = value ∷ restore temp (value ∷ s) })

unfoldable pub handle_dup : ℕ → VmState → Run VmState
unfolding move restore
handle_dup depth st =
    if ltb (length st.stack) depth
    then throws stack_underflow
    else dup_moved st (move (depth - 1) st.stack [])

-- `temp.top()` is pushed first, then the rest of `temp`, then the word below them all.
abbrev pub swap_moved : VmState → List Uint256 × List Uint256 → Run VmState
swap_moved st ([], temp) = undefined
swap_moved st (top ∷ s, []) = undefined
swap_moved st (top ∷ s, bottom ∷ temp) = ok (record st { stack = top ∷ restore temp (bottom ∷ s) })

unfoldable pub handle_swap : ℕ → VmState → Run VmState
unfolding move restore
handle_swap depth st =
    if ltb (length st.stack) (depth + 1)
    then throws stack_underflow
    else swap_moved st (move depth st.stack [])

-- uint256_t("0xFF...FF")
abbrev pub all_ones : Uint256
all_ones = record { d0 = radix - 1; d1 = radix - 1; d2 = radix - 1; d3 = radix - 1 }

abbrev word_of : Bool → Uint256
word_of true = of_u64 1
word_of false = of_u64 0

-- In each handler of two operands `b` is the top of the stack and `a` the word below it.
abbrev binary : (Uint256 → Uint256 → Run Uint256) → VmState → Run VmState
binary op st = with2 (λ b a s. do r ← op a b; ok (pushed st r s)) st.stack

unfoldable pub handle_add : VmState → Run VmState
handle_add = binary λ a b. do
  room ← Uint256.sub all_ones b
  if Uint256.gt a room then throws vm_add_overflow else Uint256.add a b

unfoldable pub handle_mul : VmState → Run VmState
handle_mul = binary Product.mul

unfoldable pub handle_sub : VmState → Run VmState
handle_sub = binary Uint256.sub

unfoldable pub handle_div : Host → VmState → Run VmState
handle_div host =
    binary λ a b. if is_zero b then ok (of_u64 0) else Quotient.div host.division_rounds a b

unfoldable pub handle_mod : Host → VmState → Run VmState
handle_mod host =
    binary λ a b. if is_zero b then ok (of_u64 0) else Quotient.modulo host.division_rounds a b

unfoldable pub handle_lt : VmState → Run VmState
handle_lt = binary λ a b. ok (word_of (Uint256.lt a b))

unfoldable pub handle_gt : VmState → Run VmState
handle_gt = binary λ a b. ok (word_of (Uint256.gt a b))

unfoldable pub handle_eq : VmState → Run VmState
handle_eq = binary λ a b. ok (word_of (Uint256.eq a b))

unfoldable pub handle_iszero : VmState → Run VmState
handle_iszero st = with1 (λ a s. ok (pushed st (word_of (is_zero a)) s)) st.stack

unfoldable pub handle_and : VmState → Run VmState
handle_and = binary λ a b. ok (Uint256.and a b)

unfoldable pub handle_or : VmState → Run VmState
handle_or = binary λ a b. ok (Uint256.or a b)

unfoldable pub handle_xor : VmState → Run VmState
handle_xor = binary λ a b. ok (Uint256.xor a b)

unfoldable pub handle_not : VmState → Run VmState
handle_not st = with1 (λ a s. ok (pushed st (Uint256.complement a) s)) st.stack

-- isValidJumpDestination: the byte at the destination is JUMPDEST.
unfoldable pub is_valid_jump_destination : List ℕ → ℕ → Bool
is_valid_jump_destination code dest =
    if leb (length code) dest then false else get_or code dest 0 == 0x5b

unfoldable pub jump_to : List ℕ → Uint256 → VmState → Run VmState
unfolding is_valid_jump_destination
jump_to code dest st = do
  target ← to_u64 dest
  if is_valid_jump_destination code target then ok (record st { pc = target }) else throws bad_jump

unfoldable pub handle_jump : List ℕ → VmState → Run VmState
unfolding jump_to
handle_jump code st = with1 (λ dest s. jump_to code dest (record st { stack = s })) st.stack

unfoldable pub handle_jumpi : List ℕ → VmState → Run VmState
unfolding jump_to
handle_jumpi code st =
    with2
      (λ dest condition s.
        let rest : VmState = record st { stack = s } in
        if is_zero condition then ok rest else jump_to code dest rest)
      st.stack
