-- ===== src/Vm/PastTheEnd.antt =====
-- The wrap-around of offsets in the handlers of src/vm/instruction_handlers.cpp.
use deo.Prelude.{
  ℕ, zero, suc, ◌+◌, ◌-◌, ◌%◌, ◌≤◌, ◌<◌, ◌≡◌, refl, ◌==◌, false, le→ltb, List, ◌∷◌, length, arith,
}
use deo.Prelude.Run.{undefined}
use deo.Uint256.{Uint256, radix, of_u64, to_u64}
use deo.Vm.State.{VmState, ExecutionContext, Host}
use deo.Vm.Memory.{
  expand_memory, poke, copy_rounds, copy_handler, handle_mstore8, handle_calldatacopy,
}

-- MSTORE8 of a number of 64 bits at the offset 2^64 - 1 writes past the end of any memory that is
-- shorter than 2^64 bytes.
pub mstore8_wraps :
    (host : Host) (st : VmState) (v : ℕ) (s : List Uint256)
    → st.stack ≡ of_u64 (radix - 1) ∷ of_u64 v ∷ s
    → length st.memory < radix
    → handle_mstore8 host st ≡ undefined
unfolding handle_mstore8 expand_memory poke of_u64 to_u64
mstore8_wraps host st v s e h =
    rw
      (
        e,
        le→ltb (length st.memory) 0 (omega arith),
        le→ltb (radix - 1) (length st.memory) (omega arith),
      )
      refl

-- CALLDATACOPY of some bytes to an offset past the memory, and so high that the end of the range wraps
-- to a place inside the memory, writes past the end of the memory.
pub calldatacopy_wraps :
    (host : Host) (context : ExecutionContext) (st : VmState) (to from count : ℕ) (s : List Uint256)
    → st.stack ≡ of_u64 to ∷ of_u64 from ∷ of_u64 count ∷ s
    → to < radix
    → count < radix
    → 0 < count
    → radix ≤ to + count
    → length st.memory ≤ to
    → (to + count) % radix ≤ length st.memory
    → handle_calldatacopy host context st ≡ undefined
unfolding handle_calldatacopy copy_handler copy_rounds expand_memory poke of_u64 to_u64
calldatacopy_wraps host context st to from zero s e a b pos wrap beyond inside =
    absurd (omega arith)
calldatacopy_wraps host context st to from (suc n) s e a b pos wrap beyond inside =
    let index : (to + 0) % radix ≡ to = omega arith in
    let some_bytes : (suc n == 0) ≡ false = ground arith in
    rw
      (
        e,
        some_bytes,
        le→ltb (length st.memory) ((to + suc n) % radix) inside,
        index,
        le→ltb to (length st.memory) beyond,
      )
      refl
