-- ===== src/Uint256/Bytes.antt =====
-- setByte and getByte of src/vm/uint256.cpp, and a limb put together from its bytes.
use deo.Prelude.{ℕ, ◌+◌, ◌-◌, ◌*◌, ◌/◌, ◌%◌, ◌^◌, ◌<◌, ◌≡◌, ltb, if◌then◌else◌, get_or, set, arith}
use deo.Prelude.Run.{Run, ok, throws, byte_position}
use deo.Uint256.{Uint256, radix}
use deo.Uint256.Product.{limbs, of_limbs}

-- (limb >> (byte * 8)) & 0xFF
unfoldable pub byte_of : ℕ → ℕ → ℕ
byte_of limb byte = limb / 2 ^ (8 * byte) % 256

-- `limb &= ~(0xFF << (byte * 8))` takes the byte off the limb, and `limb |= value << (byte * 8)` adds
-- the new one where the bits are zero.
unfoldable pub with_byte : ℕ → ℕ → ℕ → ℕ
unfolding byte_of
with_byte limb byte value = limb - byte_of limb byte * 2 ^ (8 * byte) + value * 2 ^ (8 * byte)

-- The test `pos < 0` has no counterpart: positions are natural numbers.
unfoldable pub set_byte : ℕ → ℕ → Uint256 → Run Uint256
unfolding limbs of_limbs with_byte
set_byte pos value x =
    let limb = get_or (limbs x) (pos / 8) 0 in
    if ltb pos 32
    then ok (of_limbs (set (limbs x) (pos / 8) (with_byte limb (pos % 8) value)))
    else throws byte_position

unfoldable pub get_byte : ℕ → Uint256 → Run ℕ
unfolding limbs byte_of
get_byte pos x =
    if ltb pos 32
    then ok (byte_of (get_or (limbs x) (pos / 8) 0) (pos % 8))
    else throws byte_position

-- Eight bytes written into a limb of zeros, the highest first.
abbrev pub assemble : (ℕ → ℕ) → ℕ
assemble b =
    with_byte
      (with_byte
        (with_byte
          (with_byte
            (with_byte (with_byte (with_byte (with_byte 0 7 (b 7)) 6 (b 6)) 5 (b 5)) 4 (b 4)) 3
            (b 3))
          2 (b 2))
        1 (b 1))
      0 (b 0)

with_byte_zero : (l i v : ℕ) → byte_of l i ≡ 0 → with_byte l i v ≡ l + v * 2 ^ (8 * i)
unfolding with_byte
with_byte_zero l i v e = rw e (omega arith)

byte_sum :
    (n : ℕ)
    → n < radix
    → n / 72057594037927936 % 256 * 72057594037927936
        + n / 281474976710656 % 256 * 281474976710656
        + n / 1099511627776 % 256 * 1099511627776
        + n / 4294967296 % 256 * 4294967296
        + n / 16777216 % 256 * 16777216
        + n / 65536 % 256 * 65536
        + n / 256 % 256 * 256
        + n % 256
      ≡ n
byte_sum n h = omega arith

-- Eight bytes written into a limb of zeros, the highest first, add up.
assemble_sum :
    (b7 b6 b5 b4 b3 b2 b1 b0 : ℕ)
    → with_byte
        (with_byte
          (with_byte
            (with_byte (with_byte (with_byte (with_byte (with_byte 0 7 b7) 6 b6) 5 b5) 4 b4) 3 b3)
            2
            b2)
          1
          b1)
        0
        b0
      ≡ b7 * 2 ^ 56
        + b6 * 2 ^ 48
        + b5 * 2 ^ 40
        + b4 * 2 ^ 32
        + b3 * 2 ^ 24
        + b2 * 2 ^ 16
        + b1 * 2 ^ 8
        + b0
unfolding byte_of
assemble_sum b7 b6 b5 b4 b3 b2 b1 b0 =
    rw
      (
        with_byte_zero (0) 7 b7 (omega arith),
        with_byte_zero (0 + b7 * 2 ^ 56) 6 b6 (omega arith),
        with_byte_zero (0 + b7 * 2 ^ 56 + b6 * 2 ^ 48) 5 b5 (omega arith),
        with_byte_zero (0 + b7 * 2 ^ 56 + b6 * 2 ^ 48 + b5 * 2 ^ 40) 4 b4 (omega arith),
        with_byte_zero (0 + b7 * 2 ^ 56 + b6 * 2 ^ 48 + b5 * 2 ^ 40 + b4 * 2 ^ 32) 3 b3
            (omega arith),
        with_byte_zero (0 + b7 * 2 ^ 56 + b6 * 2 ^ 48 + b5 * 2 ^ 40 + b4 * 2 ^ 32 + b3 * 2 ^ 24) 2
            b2 (omega arith),
        with_byte_zero
            (0 + b7 * 2 ^ 56 + b6 * 2 ^ 48 + b5 * 2 ^ 40 + b4 * 2 ^ 32 + b3 * 2 ^ 24 + b2 * 2 ^ 16)
            1 b1 (omega arith),
        with_byte_zero
            (0
              + b7 * 2 ^ 56
              + b6 * 2 ^ 48
              + b5 * 2 ^ 40
              + b4 * 2 ^ 32
              + b3 * 2 ^ 24
              + b2 * 2 ^ 16
              + b1 * 2 ^ 8)
            0 b0 (omega arith),
      )
      (omega arith)

-- The bytes of a limb, written back, give the limb.
pub assemble_lem : (n : ℕ) → n < radix → assemble (byte_of n) ≡ n
assemble_lem n h =
    rw
      (assemble_sum (byte_of n 7) (byte_of n 6) (byte_of n 5) (byte_of n 4) (byte_of n 3)
        (byte_of n 2) (byte_of n 1) (byte_of n 0))
      (unfold byte_of in omega (arith, byte_sum n h))
