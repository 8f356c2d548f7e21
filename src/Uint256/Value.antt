-- ===== src/Uint256/Value.antt =====
-- The number that a word of four limbs stands for, and the words that `uint64_t` limbs allow.
use deo.Prelude.{ℕ, ◌+◌, ◌*◌, ◌/◌, ◌%◌, ◌^◌, ◌<◌, ◌≡◌, arith}
use deo.Uint256.{Uint256, radix, of_u64}

abbrev pub to_ℕ : Uint256 → ℕ
to_ℕ x = x.d0 + 2 ^ 64 * x.d1 + 2 ^ 128 * x.d2 + 2 ^ 192 * x.d3

abbrev pub of_ℕ : ℕ → Uint256
of_ℕ n = record {
  d0 = n % 2 ^ 64;
  d1 = n / 2 ^ 64 % 2 ^ 64;
  d2 = n / 2 ^ 128 % 2 ^ 64;
  d3 = n / 2 ^ 192 % 2 ^ 64;
}

-- Each limb fits 64 bits.
pub record IsWord (x : Uint256) : Type 0 where
  pub fits0 : x.d0 < radix
  pub fits1 : x.d1 < radix
  pub fits2 : x.d2 < radix
  pub fits3 : x.d3 < radix

pub of_ℕ-IsWord : (n : ℕ) → IsWord (of_ℕ n)
of_ℕ-IsWord n = record {
  fits0 = omega arith;
  fits1 = omega arith;
  fits2 = omega arith;
  fits3 = omega arith;
}

pub of_ℕ-to_ℕ : (x : Uint256) → IsWord x → of_ℕ (to_ℕ x) ≡ x
of_ℕ-to_ℕ x w = ground arith

pub to_ℕ-of_ℕ : (n : ℕ) → n < 2 ^ 256 → to_ℕ (of_ℕ n) ≡ n
to_ℕ-of_ℕ n h = omega arith

-- Words are equal exactly when their numbers are.
pub to_ℕ-injective : (x y : Uint256) → IsWord x → IsWord y → to_ℕ x ≡ to_ℕ y → x ≡ y
to_ℕ-injective x y w v e = ground arith

pub to_ℕ-lt : (x : Uint256) → IsWord x → to_ℕ x < 2 ^ 256
to_ℕ-lt x w = omega arith

pub of_u64-IsWord : (n : ℕ) → n < radix → IsWord (of_u64 n)
unfolding of_u64
of_u64-IsWord n h = omega arith

pub to_ℕ-of_u64 : (n : ℕ) → to_ℕ (of_u64 n) ≡ n
unfolding of_u64
to_ℕ-of_u64 n = omega arith

-- A number of 64 bits is a word of one limb.
pub u64-of_ℕ : (n : ℕ) → n < radix → of_u64 n ≡ of_ℕ n
unfolding of_u64
u64-of_ℕ n h = ground arith
