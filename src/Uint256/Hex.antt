-- ===== src/Uint256/Hex.antt =====
-- The constructor of src/vm/uint256.cpp from a hexadecimal text, and toString. A text is the list of
-- its character codes.
pub mod RoundTrip
pub mod Settling
use deo.Prelude.{
  ℕ, zero, suc, ◌+◌, ◌-◌, ◌*◌, ◌/◌, ◌%◌, ◌^◌, Bool, true, false, ◌&&◌, ◌||◌, ltb, leb, ◌==◌,
  if◌then◌else◌, Option, none, some, List, [], ◌∷◌, ◌++◌, get_or, set, length, drop, replicate,
}
use deo.Prelude.Run.{Run, ok, throws, hex_too_long, bad_hex, ◌>>=◌}
use deo.Uint256.{Uint256, radix, of_u64}
use deo.Uint256.Product.{limbs, of_limbs}

unfoldable pub digit_value : ℕ → Option ℕ
digit_value c =
    if leb b'0' c && leb c b'9'
    then some (c - b'0')
    else if leb b'a' c && leb c b'f'
    then some (c - b'a' + 10)
    else if leb b'A' c && leb c b'F'
    then some (c - b'A' + 10)
    else none

abbrev is_space : ℕ → Bool
is_space c = c == 32 || (leb 9 c && leb c 13)

abbrev or_bad_hex : Option ℕ → Run ℕ
or_bad_hex none = throws bad_hex
or_bad_hex (some v) = ok v

abbrev negated : Run ℕ → Run ℕ
negated (ok v) = ok ((radix - v) % radix)
negated (throws e) = throws e
negated r = r

abbrev two_digits : ℕ → Option ℕ → ℕ
two_digits x none = x
two_digits x (some y) = 16 * x + y

-- std::stoul(text, nullptr, 16) on two characters: one white space or sign may stand before a digit,
-- and what follows the digits is ignored.
unfoldable pub stoul_pair : ℕ → ℕ → Run ℕ
stoul_pair a b = elim (digit_value a) [
  | some x ↦ ok (two_digits x (digit_value b))
  | none ↦
      if is_space a || a == b'+'
      then or_bad_hex (digit_value b)
      else if a == b'-'
      then negated (or_bad_hex (digit_value b))
      else throws bad_hex
]

-- data_[word_idx] |= byte_val << (byte_idx * 8), where these bits are still zero.
unfoldable pub put_byte : List ℕ → ℕ → ℕ → ℕ → List ℕ
put_byte ls word_idx byte_idx byte_val =
    set ls word_idx (get_or ls word_idx 0 + byte_val * 2 ^ (8 * byte_idx))

-- The loop over the pairs of the 64 characters.
unfoldable pub parse_pairs : ℕ → List ℕ → List ℕ → Run (List ℕ)
unfolding put_byte
parse_pairs i [] ls = ok ls
parse_pairs i (a ∷ []) ls = throws bad_hex
parse_pairs i (a ∷ b ∷ rest) ls = do
  byte_val ← stoul_pair a b
  parse_pairs (i + 2) rest (put_byte ls ((63 - i) / 16) ((63 - i) % 16 / 2) (byte_val % 256))

unfoldable pub without_0x : List ℕ → List ℕ
without_0x [] = []
without_0x (a ∷ []) = a ∷ []
without_0x (a ∷ b ∷ rest) = if a == b'0' && b == b'x' then rest else a ∷ b ∷ rest

unfoldable pub of_hex : List ℕ → Run Uint256
unfolding without_0x of_u64 of_limbs
of_hex [] = ok (of_u64 0)
of_hex (c ∷ cs) =
    let hex = without_0x (c ∷ cs) in
    let padded = replicate (64 - length hex) b'0' ++ hex in
    if ltb 64 (length hex)
    then throws hex_too_long
    else do ls ← parse_pairs 0 padded (0 ∷ 0 ∷ 0 ∷ 0 ∷ []); ok (of_limbs ls)

unfoldable pub hex_digit : ℕ → ℕ
hex_digit d = if ltb d 10 then b'0' + d else b'a' + (d - 10)

-- `count` digits of a limb, the highest first, as std::setw(16) and std::setfill('0') print them.
unfoldable pub hex_digits : ℕ → ℕ → List ℕ
unfolding hex_digit
hex_digits zero n = []
hex_digits (suc count) n = hex_digits count (n / 16) ++ hex_digit (n % 16) ∷ []

unfoldable pub to_string : Uint256 → List ℕ
unfolding hex_digits
to_string x =
    b'0'
    ∷ b'x'
    ∷ (hex_digits 16 x.d3 ++ (hex_digits 16 x.d2 ++ (hex_digits 16 x.d1 ++ hex_digits 16 x.d0)))
