-- ===== src/Vm/MemoryRoundTrip.antt =====
-- MSTORE and then MLOAD, handlers of src/vm/instruction_handlers.cpp, at the same offset.
use deo.Prelude.{
  ℕ, ◌+◌, ◌-◌, ◌%◌, ◌≤◌, ◌<◌, ◌≡◌, refl, ◌∙◌, ltb, if◌then◌else◌, List, ◌∷◌, length, ◌++◌,
  replicate, length-append, length-replicate, arith, true, Bool-cases, inl, inr, ltb→lt,
}
use deo.Prelude.Run.{ok}
use deo.Uint256.{Uint256, radix, of_u64, to_u64}
use deo.Uint256.Value.{IsWord}
use deo.Vm.State.{VmState, Host}
use deo.Vm.Memory.{expand_memory, read_uint256, write_uint256, handle_mload, handle_mstore}
use deo.Vm.MemoryLoops.{
  byte_at, written, write_rounds_lem, read_rounds_lem, length-written, written_at, assembled_bytes,
}

-- The memory after an expansion is long enough.
expanded : Host → ℕ → List ℕ → List ℕ
expanded host size memory =
    if ltb (length memory) size then memory ++ replicate (size - length memory) 0 else memory

expand_memory_lem :
    (host : Host) (size : ℕ) (memory : List ℕ)
    → host.can_allocate size ≡ true
    → expand_memory host size memory ≡ ok (expanded host size memory)
unfolding expand_memory expanded
expand_memory_lem host size memory can = rw (can) (ground arith)

length-expanded :
    (host : Host) (size : ℕ) (memory : List ℕ) → size ≤ length (expanded host size memory)
unfolding expanded
length-expanded host size memory = ground (
  arith,
  length-append memory (replicate (size - length memory) 0),
  length-replicate {A = ℕ} (size - length memory) 0,
)

-- A memory that is long enough is not expanded.
expand_memory_noop :
    (host : Host) (size : ℕ) (memory : List ℕ)
    → size ≤ length memory
    → expand_memory host size memory ≡ ok memory
unfolding expand_memory
expand_memory_noop host size memory long = elim (Bool-cases (ltb (length memory) size)) [
  | inl e ↦ absurd (omega (arith, ltb→lt (length memory) size e))
  | inr e ↦ rw e refl
]

module _ (host : Host) (at : ℕ) (value : Uint256) (st : VmState) (s : List Uint256) where
  after : List ℕ
  after = written 32 0 value at (expanded host (at + 32) st.memory)

  -- MSTORE, where the memory can grow, writes the bytes of the value.
  mstore_lem :
      st.stack ≡ of_u64 at ∷ value ∷ s
      → at + 32 < radix
      → host.can_allocate (at + 32) ≡ true
      → handle_mstore host st ≡ ok (record st { stack = s; memory = after })
  unfolding handle_mstore of_u64 to_u64 write_uint256 after
  mstore_lem e small can =
      let top : (at + 32) % radix ≡ at + 32 = omega arith in
      rw
        (
          e,
          top,
          expand_memory_lem host (at + 32) st.memory can,
          write_rounds_lem 32 0 value at (expanded host (at + 32) st.memory) refl
              (length-expanded host (at + 32) st.memory) small,
        )
        refl

  length-after : at + 32 ≤ length after
  unfolding after
  length-after = omega (
    arith,
    length-written 32 0 value at (expanded host (at + 32) st.memory),
    length-expanded host (at + 32) st.memory,
  )

  read_after : IsWord value → at + 32 < radix → read_uint256 after at ≡ ok value
  unfolding read_uint256 after
  read_after word small =
      read_rounds_lem 32 0 after at (λ j. byte_at value (31 - j)) (of_u64 0) refl length-after small
        (λ j h.
          written_at 32 0 j value at (expanded host (at + 32) st.memory) (omega arith) (omega arith)
            (omega (arith, length-expanded host (at + 32) st.memory)))
      ∙ rw (assembled_bytes value word) refl

  -- MSTORE of a word at an offset whose 32 bytes end below 2^64, where the memory can grow that far:
  -- it succeeds, and MLOAD at that offset, from any state with the memory it left, pushes the word.
  pub mload-mstore :
      (st2 : VmState) (s2 : List Uint256)
      → st.stack ≡ of_u64 at ∷ value ∷ s
      → st2.stack ≡ of_u64 at ∷ s2
      → IsWord value
      → at + 32 < radix
      → host.can_allocate (at + 32) ≡ true
      → (memory : List ℕ) × (handle_mstore host st ≡ ok (record st { stack = s; memory = memory }))
        × (handle_mload host (record st2 { memory = memory })
            ≡ ok (record st2 { stack = value ∷ s2; memory = memory }))
  unfolding handle_mload of_u64 to_u64
  mload-mstore st2 s2 e e2 word small can =
      let top : (at + 32) % radix ≡ at + 32 = omega arith in
      (
        after,
        mstore_lem e small can,
        rw (e2, top, expand_memory_noop host (at + 32) after length-after, read_after word small)
            refl,
      )
