-- ===== src/Vm/MemoryLoops.antt =====
-- The loops of readUint256 and writeUint256 in src/vm/instruction_handlers.cpp, inside the memory.
use deo.Prelude.{
  ℕ, zero, suc, ◌+◌, ◌-◌, ◌/◌, ◌%◌, ◌≤◌, ◌<◌, ◌≡◌, refl, ◌∙◌, lt→ltb, List, length, length-set,
  get_or, get_or-set_self, get_or-set_ne, set, arith,
}
use native.Mathlib.Decide.{ℕ_discrete}
use deo.Prelude.Run.{ok}
use deo.Uint256.{Uint256, radix, of_u64}
use deo.Uint256.Value.{IsWord}
use deo.Uint256.Product.{limbs, of_limbs}
use deo.Uint256.Bytes.{byte_of, with_byte, set_byte, get_byte, assemble_lem}
use deo.Vm.Memory.{read_rounds, write_rounds}

-- A byte of a word, and a word with one byte replaced, at positions below 32.
pub byte_at : Uint256 → ℕ → ℕ
byte_at x pos = byte_of (get_or (limbs x) (pos / 8) 0) (pos % 8)

replaced : ℕ → ℕ → Uint256 → Uint256
unfolding limbs of_limbs
replaced pos value x =
    of_limbs (set (limbs x) (pos / 8) (with_byte (get_or (limbs x) (pos / 8) 0) (pos % 8) value))

get_byte_lem : (pos : ℕ) (x : Uint256) → pos < 32 → get_byte pos x ≡ ok (byte_at x pos)
unfolding get_byte byte_at
get_byte_lem pos x h = rw (lt→ltb pos 32 h) refl

set_byte_lem :
    (pos value : ℕ) (x : Uint256) → pos < 32 → set_byte pos value x ≡ ok (replaced pos value x)
unfolding set_byte replaced
set_byte_lem pos value x h = rw (lt→ltb pos 32 h) refl

-- The loops without their tests, where the range lies in the memory.
pub written : ℕ → ℕ → Uint256 → ℕ → List ℕ → List ℕ
written zero i value offset memory = memory
written (suc n) i value offset memory =
    written n (i + 1) value offset (set memory (offset + i) (byte_at value (31 - i)))

pub assembled : ℕ → ℕ → (ℕ → ℕ) → Uint256 → Uint256
assembled zero i bytes result = result
assembled (suc n) i bytes result = assembled n (i + 1) bytes (replaced (31 - i) (bytes i) result)

pub write_rounds_lem :
    (n i : ℕ) (value : Uint256) (offset : ℕ) (memory : List ℕ)
    → n + i ≡ 32
    → offset + 32 ≤ length memory
    → offset + 32 < radix
    → write_rounds n i value offset memory ≡ ok (written n i value offset memory)
unfolding write_rounds written
write_rounds_lem zero i value offset memory e there small = refl
write_rounds_lem (suc n) i value offset memory e there small =
    let index : (offset + i) % radix ≡ offset + i = omega arith in
    rw
      (
        index,
        lt→ltb (offset + i) (length memory) (omega arith),
        get_byte_lem (31 - i) value (omega arith),
      )
      (write_rounds_lem n (i + 1) value offset _ (omega arith)
        (omega (arith, length-set memory (offset + i) (byte_at value (31 - i)))) small)

pub read_rounds_lem :
    (n i : ℕ) (memory : List ℕ) (offset : ℕ) (bytes : ℕ → ℕ) (result : Uint256)
    → n + i ≡ 32
    → offset + 32 ≤ length memory
    → offset + 32 < radix
    → ((j : ℕ) → j < 32 → get_or memory (offset + j) 0 ≡ bytes j)
    → read_rounds n i memory offset result ≡ ok (assembled n i bytes result)
unfolding read_rounds assembled
read_rounds_lem zero i memory offset bytes result e there small same = refl
read_rounds_lem (suc n) i memory offset bytes result e there small same =
    let index : (offset + i) % radix ≡ offset + i = omega arith in
    rw
      (
        index,
        lt→ltb (offset + i) (length memory) (omega arith),
        same i (omega arith),
        set_byte_lem (31 - i) (bytes i) result (omega arith),
      )
      (read_rounds_lem n (i + 1) memory offset bytes _ (omega arith) there small same)

pub length-written :
    (n i : ℕ) (value : Uint256) (offset : ℕ) (memory : List ℕ)
    → length (written n i value offset memory) ≡ length memory
unfolding written
length-written zero i value offset memory = refl
length-written (suc n) i value offset memory =
    length-written n (i + 1) value offset _
    ∙ length-set memory (offset + i) (byte_at value (31 - i))

-- The writes touch no index below their first.
written_below :
    (n i : ℕ) (value : Uint256) (offset p : ℕ) (memory : List ℕ)
    → p < offset + i
    → get_or (written n i value offset memory) p 0 ≡ get_or memory p 0
unfolding written
written_below zero i value offset p memory h = refl
written_below (suc n) i value offset p memory h =
    written_below n (i + 1) value offset p _ (omega arith)
    ∙ get_or-set_ne memory (offset + i) p _ 0 (omega arith)

pub written_at :
    (n i j : ℕ) (value : Uint256) (offset : ℕ) (memory : List ℕ)
    → i ≤ j
    → j < n + i
    → offset + n + i ≤ length memory
    → get_or (written n i value offset memory) (offset + j) 0 ≡ byte_at value (31 - j)
unfolding written
written_at zero i j value offset memory lo hi there = absurd (omega arith)
written_at (suc n) i j value offset memory lo hi there = elim (ℕ_discrete i j) [
  | yes e ↦ rw (← e) (
      written_below n (i + 1) value offset (offset + i) _ (omega arith)
      ∙ get_or-set_self memory (offset + i) _ 0 (omega arith))
  | no apart ↦
      written_at n (i + 1) j value offset _ (omega arith) (omega arith)
        (omega (arith, length-set memory (offset + i) (byte_at value (31 - i))))
]

-- The bytes of a word, read from the highest down, make the word.
pub assembled_bytes :
    (x : Uint256) → IsWord x → assembled 32 0 (λ j. byte_at x (31 - j)) (of_u64 0) ≡ x
unfolding assembled replaced byte_at limbs of_limbs of_u64
assembled_bytes x w =
    rw
      (
        assemble_lem x.d0 w.fits0,
        assemble_lem x.d1 w.fits1,
        assemble_lem x.d2 w.fits2,
        assemble_lem x.d3 w.fits3,
      )
      refl
