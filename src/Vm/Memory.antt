-- ===== src/Vm/Memory.antt =====
-- The memory, copying and hashing handlers of src/vm/instruction_handlers.cpp. Offsets are `uint64_t`
-- and wrap; an access past the end of a vector by `[]` or by an iterator is undefined.
use Prim.Native.Nat.{bit_xor, min}
use deo.Prelude.{
  ℕ, zero, suc, ◌+◌, ◌-◌, ◌*◌, ◌/◌, ◌%◌, ◌^◌, ltb, leb, ◌==◌, if◌then◌else◌, List, [], ◌∷◌, ◌++◌,
  length, get_or, set, take, drop, replicate,
}
use deo.Prelude.Run.{Run, ok, throws, undefined, bad_alloc, ◌>>=◌}
use deo.Uint256.{Uint256, radix, of_u64, to_u64}
use deo.Uint256.Bytes
use deo.Vm.State.{VmState, ExecutionContext, Host, with1, with2, with3}

-- expandMemory: the vector grows by zeros and never shrinks.
unfoldable pub expand_memory : Host → ℕ → List ℕ → Run (List ℕ)
expand_memory host size memory =
    if ltb (length memory) size
    then if host.can_allocate size
      then ok (memory ++ replicate (size - length memory) 0)
      else throws bad_alloc
    else ok memory

-- readUint256, from round `i` on: bytes past the end read as the zeros of the fresh word.
unfoldable pub read_rounds : ℕ → ℕ → List ℕ → ℕ → Uint256 → Run Uint256
read_rounds zero i memory offset result = ok result
read_rounds (suc n) i memory offset result = do
  next ←
      if ltb ((offset + i) % radix) (length memory)
      then Bytes.set_byte (31 - i) (get_or memory ((offset + i) % radix) 0) result
      else ok result
  read_rounds n (i + 1) memory offset next

unfoldable pub read_uint256 : List ℕ → ℕ → Run Uint256
unfolding read_rounds
read_uint256 memory offset = read_rounds 32 0 memory offset (of_u64 0)

-- writeUint256, from round `i` on: bytes past the end are not written.
unfoldable pub write_rounds : ℕ → ℕ → Uint256 → ℕ → List ℕ → Run (List ℕ)
write_rounds zero i value offset memory = ok memory
write_rounds (suc n) i value offset memory = do
  next ←
      if ltb ((offset + i) % radix) (length memory)
      then (Bytes.get_byte (31 - i) value >>= λ byte. ok (set memory ((offset + i) % radix) byte))
      else ok memory
  write_rounds n (i + 1) value offset next

unfoldable pub write_uint256 : ℕ → Uint256 → List ℕ → Run (List ℕ)
unfolding write_rounds
write_uint256 offset value memory = write_rounds 32 0 value offset memory

unfoldable pub handle_mload : Host → VmState → Run VmState
handle_mload host st =
    with1
      (λ offset s. do
        at ← to_u64 offset
        memory ← expand_memory host ((at + 32) % radix) st.memory
        value ← read_uint256 memory at
        ok (record st { stack = value ∷ s; memory = memory }))
      st.stack

unfoldable pub handle_mstore : Host → VmState → Run VmState
handle_mstore host st =
    with2
      (λ offset value s. do
        at ← to_u64 offset
        memory ← expand_memory host ((at + 32) % radix) st.memory
        written ← write_uint256 at value memory
        ok (record st { stack = s; memory = written }))
      st.stack

-- memory[index] = byte
unfoldable pub poke : List ℕ → ℕ → ℕ → Run (List ℕ)
poke memory index byte = if ltb index (length memory) then ok (set memory index byte) else undefined

unfoldable pub handle_mstore8 : Host → VmState → Run VmState
handle_mstore8 host st =
    with2
      (λ offset value s. do
        at ← to_u64 offset
        memory ← expand_memory host ((at + 1) % radix) st.memory
        byte ← to_u64 value
        written ← poke memory at (byte % 256)
        ok (record st { stack = s; memory = written }))
      st.stack

-- The loop of CALLDATACOPY and CODECOPY: past the end of the source it writes zeros.
unfoldable pub copy_rounds : ℕ → ℕ → List ℕ → ℕ → ℕ → List ℕ → Run (List ℕ)
copy_rounds zero i source from to memory = ok memory
copy_rounds (suc n) i source from to memory = do
  next ←
      poke memory ((to + i) % radix) (
        if ltb ((from + i) % radix) (length source)
        then get_or source ((from + i) % radix) 0
        else 0)
  copy_rounds n (i + 1) source from to next

unfoldable pub copy_handler : Host → List ℕ → VmState → Run VmState
copy_handler host source st =
    with3
      (λ dest_offset src_offset size s. do
        to ← to_u64 dest_offset
        count ← to_u64 size
        memory ← expand_memory host ((to + count) % radix) st.memory
        from ← if count == 0 then ok 0 else to_u64 src_offset
        written ← copy_rounds count 0 source from to memory
        ok (record st { stack = s; memory = written }))
      st.stack

unfoldable pub handle_calldatacopy : Host → ExecutionContext → VmState → Run VmState
unfolding copy_handler
handle_calldatacopy host context = copy_handler host context.input_data

unfoldable pub handle_codecopy : Host → ExecutionContext → VmState → Run VmState
unfolding copy_handler
handle_codecopy host context = copy_handler host context.code

-- data.assign(begin + start, begin + start + size), or the copy padded with zeros.
unfoldable pub extract : List ℕ → ℕ → ℕ → Run (List ℕ)
extract memory start size =
    let copy_size = min size ((length memory + radix - start) % radix) in
    if leb ((start + size) % radix) (length memory)
    then if leb (start + size) (length memory)
      then ok (take size (drop start memory))
      else undefined
    else if leb (start + copy_size) (length memory)
    then ok (take copy_size (drop start memory) ++ replicate (size - copy_size) 0)
    else undefined

-- hash_value = hash_value * 31 + byte; hash_value ^= hash_value >> 16
unfoldable pub sha3_rounds : List ℕ → ℕ → ℕ
sha3_rounds [] hash_value = hash_value
sha3_rounds (byte ∷ bytes) hash_value =
    let mixed = (hash_value * 31 + byte) % radix in
    sha3_rounds bytes (bit_xor mixed (mixed / 2 ^ 16))

unfoldable pub handle_sha3 : Host → VmState → Run VmState
handle_sha3 host st =
    with2
      (λ offset size s. do
        start ← to_u64 offset
        count ← to_u64 size
        memory ← expand_memory host ((start + count) % radix) st.memory
        bytes ← extract memory start count
        ok (record st { stack = of_u64 (sha3_rounds bytes 0) ∷ s; memory = memory }))
      st.stack

-- handleReturn and handleRevert: both only grow the memory over the range that they name.
unfoldable pub handle_return : Host → VmState → Run VmState
handle_return host st =
    with2
      (λ offset size s. do
        start ← to_u64 offset
        count ← to_u64 size
        memory ← expand_memory host ((start + count) % radix) st.memory
        ok (record st { stack = s; memory = memory }))
      st.stack

unfoldable pub handle_revert : Host → VmState → Run VmState
handle_revert host st =
    with2
      (λ offset size s. do
        start ← to_u64 offset
        count ← to_u64 size
        memory ← expand_memory host ((start + count) % radix) st.memory
        ok (record st { stack = s; memory = memory }))
      st.stack
