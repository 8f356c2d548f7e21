-- ===== src/Uint256/Hex/Settling.antt =====
-- The constructor of src/vm/uint256.cpp from a text comes back, or throws.
use deo.Prelude.{
  ℕ, ◌+◌, ◌==◌, inl, inr, Option, none, some, List, [], ◌∷◌, ltb, length, Option-cases,
}
use deo.Prelude.Run.{Settles, Settles-bind, Settles-if}
use deo.Uint256.Hex.{digit_value, or_bad_hex, negated, stoul_pair, parse_pairs, without_0x, of_hex}

or_bad_hex-Settles : (o : Option ℕ) → Settles (or_bad_hex o)
or_bad_hex-Settles none = tt
or_bad_hex-Settles (some v) = tt

negated-Settles : (o : Option ℕ) → Settles (negated (or_bad_hex o))
negated-Settles none = tt
negated-Settles (some v) = tt

stoul_pair-Settles : (a b : ℕ) → Settles (stoul_pair a b)
unfolding stoul_pair
stoul_pair-Settles a b = elim (Option-cases (digit_value a)) [
  | inr (x, e) ↦ rw (e, stoul_pair) tt
  | inl e ↦
      rw (e, stoul_pair)
        (Settles-if _ _ _ (or_bad_hex-Settles (digit_value b))
          (Settles-if (a == b'-') _ _ (negated-Settles (digit_value b)) tt))
]

parse_pairs-Settles : (i : ℕ) (text ls : List ℕ) → Settles (parse_pairs i text ls)
unfolding parse_pairs
parse_pairs-Settles i [] ls = tt
parse_pairs-Settles i (a ∷ []) ls = tt
parse_pairs-Settles i (a ∷ b ∷ rest) ls =
    Settles-bind (stoul_pair a b) _ (stoul_pair-Settles a b)
      (λ v. parse_pairs-Settles (i + 2) rest _)

pub of_hex-Settles : (text : List ℕ) → Settles (of_hex text)
unfolding of_hex
of_hex-Settles [] = tt
of_hex-Settles (c ∷ cs) =
    Settles-if (ltb 64 (length (without_0x (c ∷ cs)))) _ _ tt
      (Settles-bind (parse_pairs 0 _ _) _ (parse_pairs-Settles 0 _ _) (λ ls. tt))
