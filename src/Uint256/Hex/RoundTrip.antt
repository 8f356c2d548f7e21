-- ===== src/Uint256/Hex/RoundTrip.antt =====
-- toString of src/vm/uint256.cpp and the constructor from a text.
use deo.Prelude.{ℕ, ◌+◌, ◌*◌, ◌/◌, ◌%◌, ◌<◌, ◌≡◌, refl, List, [], ◌∷◌, ◌++◌, some, arith, ap, ◌∙◌}
use deo.Prelude.Run.{Run, ok, ◌>>=◌}
use deo.Uint256.{Uint256, radix}
use deo.Uint256.Value.{IsWord}
use deo.Uint256.Product.{of_limbs}
use deo.Uint256.Hex.{digit_value, stoul_pair, parse_pairs, of_hex, hex_digit, hex_digits, to_string}

digit_value-hex_digit : (d : ℕ) → d < 16 → digit_value (hex_digit d) ≡ some d
unfolding digit_value hex_digit
digit_value-hex_digit d h = ground arith

-- Two printed digits are read back as their byte.
pub stoul_pair-hex_digit :
    (m n : ℕ) → stoul_pair (hex_digit (m % 16)) (hex_digit (n % 16)) ≡ ok (16 * (m % 16) + n % 16)
unfolding stoul_pair
stoul_pair-hex_digit m n =
    rw
      (
        digit_value-hex_digit (m % 16) (omega arith),
        digit_value-hex_digit (n % 16) (omega arith),
        stoul_pair,
      )
      refl

pair_byte : (m : ℕ) → (16 * (m / 16 % 16) + m % 16) % 256 ≡ m % 256
pair_byte m = omega arith

div-16 : (m : ℕ) → m / 16 / 16 ≡ m / 256
div-16 m = omega arith

byte_sum :
    (n : ℕ)
    → n < radix
    → 0
        + n / 256 / 256 / 256 / 256 / 256 / 256 / 256 % 256 * 72057594037927936
        + n / 256 / 256 / 256 / 256 / 256 / 256 % 256 * 281474976710656
        + n / 256 / 256 / 256 / 256 / 256 % 256 * 1099511627776
        + n / 256 / 256 / 256 / 256 % 256 * 4294967296
        + n / 256 / 256 / 256 % 256 * 16777216
        + n / 256 / 256 % 256 * 65536
        + n / 256 % 256 * 256
        + n % 256 * 1
      ≡ n
byte_sum n h = omega arith

-- Sixteen digits fill the limb that they stand for, from the highest limb down.
parse_limb3 :
    (n : ℕ) (rest : List ℕ)
    → n < radix
    → parse_pairs 0 (hex_digits 16 n ++ rest) (0 ∷ 0 ∷ 0 ∷ 0 ∷ [])
      ≡ parse_pairs 16 rest (0 ∷ 0 ∷ 0 ∷ n ∷ [])
unfolding parse_pairs hex_digits
parse_limb3 n rest h = simp stoul_pair-hex_digit (simp (pair_byte, div-16) (rw (byte_sum n h) refl))

parse_limb2 :
    (n a : ℕ) (rest : List ℕ)
    → n < radix
    → parse_pairs 16 (hex_digits 16 n ++ rest) (0 ∷ 0 ∷ 0 ∷ a ∷ [])
      ≡ parse_pairs 32 rest (0 ∷ 0 ∷ n ∷ a ∷ [])
unfolding parse_pairs hex_digits
parse_limb2 n a rest h =
    simp stoul_pair-hex_digit (simp (pair_byte, div-16) (rw (byte_sum n h) refl))

parse_limb1 :
    (n a b : ℕ) (rest : List ℕ)
    → n < radix
    → parse_pairs 32 (hex_digits 16 n ++ rest) (0 ∷ 0 ∷ b ∷ a ∷ [])
      ≡ parse_pairs 48 rest (0 ∷ n ∷ b ∷ a ∷ [])
unfolding parse_pairs hex_digits
parse_limb1 n a b rest h =
    simp stoul_pair-hex_digit (simp (pair_byte, div-16) (rw (byte_sum n h) refl))

parse_limb0 :
    (n a b c : ℕ)
    → n < radix
    → parse_pairs 48 (hex_digits 16 n) (0 ∷ c ∷ b ∷ a ∷ []) ≡ ok (n ∷ c ∷ b ∷ a ∷ [])
unfolding parse_pairs hex_digits
parse_limb0 n a b c h =
    simp stoul_pair-hex_digit (simp (pair_byte, div-16) (rw (byte_sum n h) refl))

-- Printing a word and reading the text back gives the word.
pub of_hex-to_string : (x : Uint256) → IsWord x → of_hex (to_string x) ≡ ok x
unfolding of_hex to_string
of_hex-to_string x w =
    let low = hex_digits 16 x.d0 in
    let below = hex_digits 16 x.d1 ++ low in
    ap (λ (r : Run (List ℕ)). r >>= λ ls. ok (of_limbs ls))
      (parse_limb3 x.d3 (hex_digits 16 x.d2 ++ below) w.fits3
        ∙ parse_limb2 x.d2 x.d3 below w.fits2
        ∙ parse_limb1 x.d1 x.d3 x.d2 low w.fits1
        ∙ parse_limb0 x.d0 x.d3 x.d2 x.d1 w.fits0)
