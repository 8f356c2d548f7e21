-- ===== src/Transaction/WireReaders.antt =====
-- Each reader of deserialize in src/core/transaction.cpp after what serialize writes for it.
use deo.Prelude.{
  ℕ, zero, suc, ◌+◌, ◌*◌, ◌/◌, ◌%◌, ◌^◌, ◌<◌, ◌≡◌, refl, ap, false, le→ltb, some, List, [], ◌∷◌,
  ◌++◌, length, length-append, take, drop, All, arith,
}
use mathlib.Core.List.{append_assoc}
use deo.Prelude.Run.{ok}
use deo.Prelude.Texts.{Text}
use deo.Uint256.Hex.RoundTrip.{stoul_pair-hex_digit}
use deo.Transaction.Wire.{
  hex_pairs, is_odd, hex_to_bytes, bytes_to_hex, number_bytes, of_number_bytes, text_bytes,
  read_bytes, read_number, read_text,
}

abbrev pub AreBytes : List ℕ → Type 0
AreBytes bs = All (λ b. b < 256) bs

-- 64 hexadecimal digits as bytesToHex prints them.
abbrev pub IsHash : Text → Type 0
IsHash t = (bytes : List ℕ) × AreBytes bytes × (length bytes ≡ 32) × (t ≡ bytes_to_hex bytes)

byte_of_digits : (b : ℕ) → b < 256 → (16 * (b / 16 % 16) + b % 16) % 256 ≡ b
byte_of_digits b h = omega arith

hex_pairs-bytes_to_hex : (bs : List ℕ) → AreBytes bs → hex_pairs (bytes_to_hex bs) ≡ ok bs
unfolding hex_pairs bytes_to_hex
hex_pairs-bytes_to_hex [] h = refl
hex_pairs-bytes_to_hex (b ∷ bs) (h, hs) =
    rw (stoul_pair-hex_digit (b / 16) b, hex_pairs-bytes_to_hex bs hs, byte_of_digits b h) refl

even_digits : (bs : List ℕ) → is_odd (bytes_to_hex bs) ≡ false
unfolding is_odd bytes_to_hex
even_digits [] = refl
even_digits (b ∷ bs) = even_digits bs

pub hex_to_bytes-bytes_to_hex : (bs : List ℕ) → AreBytes bs → hex_to_bytes (bytes_to_hex bs) ≡ ok bs
unfolding hex_to_bytes
hex_to_bytes-bytes_to_hex bs h = rw (even_digits bs) (hex_pairs-bytes_to_hex bs h)

pub length-number_bytes : (count n : ℕ) → length (number_bytes count n) ≡ count
unfolding number_bytes
length-number_bytes zero n = refl
length-number_bytes (suc count) n = ap suc (length-number_bytes count (n / 256))

pub u32_bytes : (n : ℕ) → n < 2 ^ 32 → of_number_bytes (number_bytes 4 n) ≡ n
unfolding of_number_bytes number_bytes
u32_bytes n h = omega arith

u64_bytes : (n : ℕ) → n < 2 ^ 64 → of_number_bytes (number_bytes 8 n) ≡ n
unfolding of_number_bytes number_bytes
u64_bytes n h = omega arith

pub take_front : (xs ys : List ℕ) → take (length xs) (xs ++ ys) ≡ xs
take_front [] ys = refl
take_front (x ∷ xs) ys = ap (λ (t : List ℕ). x ∷ t) (take_front xs ys)

pub drop_front : (xs ys : List ℕ) → drop (length xs) (xs ++ ys) ≡ ys
drop_front [] ys = refl
drop_front (x ∷ xs) ys = drop_front xs ys

pub read_bytes-append :
    (count : ℕ) (xs ys : List ℕ) → length xs ≡ count → read_bytes count (xs ++ ys) ≡ some (xs, ys)
unfolding read_bytes
read_bytes-append count xs ys e =
    rw
      (
        ← e,
        le→ltb (length (xs ++ ys)) (length xs) (omega (arith, length-append xs ys)),
        take_front xs ys,
        drop_front xs ys,
      )
      refl

pub read_u32 :
    (n : ℕ) (ys : List ℕ) → n < 2 ^ 32 → read_number 4 (number_bytes 4 n ++ ys) ≡ some (n, ys)
unfolding read_number
read_u32 n ys h =
    rw (read_bytes-append 4 (number_bytes 4 n) ys (length-number_bytes 4 n), u32_bytes n h) refl

pub read_u64 :
    (n : ℕ) (ys : List ℕ) → n < 2 ^ 64 → read_number 8 (number_bytes 8 n ++ ys) ≡ some (n, ys)
unfolding read_number
read_u64 n ys h =
    rw (read_bytes-append 8 (number_bytes 8 n) ys (length-number_bytes 8 n), u64_bytes n h) refl

pub read_text-text_bytes :
    (t ys : List ℕ) → length t < 2 ^ 32 → read_text (text_bytes t ++ ys) ≡ some (t, ys)
unfolding read_text
read_text-text_bytes t ys h =
    rw
      (
        append_assoc (number_bytes 4 (length t)) t ys,
        read_u32 (length t) (t ++ ys) h,
        read_bytes-append (length t) t ys refl,
      )
      refl
