-- ===== src/Work/Target.antt =====
-- The targets of calculateTargetHash as numbers, and the difficulty that a target gives back.
use deo.Prelude.{
  ℕ, zero, suc, ◌-◌, ◌*◌, ◌^◌, ◌≤◌, ◌<◌, Bool, true, false, ltb, leb, ◌==◌, ◌&&◌, if◌then◌else◌,
  ◌≡◌, refl, ap, ◌∙◌, inl, inr, Bool-cases, ltb→le, lt→ltb, ==_iff, arith,
}
use deo.Prelude.Run.{Run, ok, throws, undefined, no_fuel}
use deo.Prelude.Texts.{Text, same_text}
use deo.Uint256.{Uint256, eq, le}
use deo.Uint256.Value.{to_ℕ, of_ℕ, IsWord, of_ℕ-IsWord, to_ℕ-of_ℕ}
use deo.Uint256.Order.{eq_iff, le_lem}
use deo.Uint256.Hex.{of_hex, parse_pairs, stoul_pair, digit_value}
use deo.Work.{
  lesser, calculate_target_hash, difficulty_to_target, target_to_difficulty,
  meets_difficulty_target,
}

-- A test that holds below a bound, by evaluation.
all_below : ℕ → (ℕ → Bool) → Bool
all_below zero test = true
all_below (suc n) test = test n && all_below n test

all_below_sound :
    (n : ℕ) (test : ℕ → Bool) (x : ℕ) → all_below n test ≡ true → x < n → test x ≡ true
unfolding all_below
all_below_sound zero test x h lt = absurd (omega arith)
all_below_sound (suc n) test x h lt = ground (arith, all_below_sound n test x)

-- The number below which a hash meets a difficulty: 2 ^ 4 for each digit that need not be zero.
abbrev pub bound : ℕ → ℕ
bound difficulty = 2 ^ (4 * (64 - lesser difficulty 64))

reads_as : Run Uint256 → Uint256 → Bool
reads_as (ok x) y = eq x y
reads_as (throws e) y = false
reads_as undefined y = false
reads_as no_fuel y = false

reads_as_sound : (r : Run Uint256) (y : Uint256) → reads_as r y ≡ true → r ≡ ok y
unfolding reads_as
reads_as_sound (ok x) y h = ap ok ((eq_iff x y).0 h)
reads_as_sound (throws e) y h = absurd (cc)
reads_as_sound undefined y h = absurd (cc)
reads_as_sound no_fuel y h = absurd (cc)

target_table :
    all_below 65 (λ d. reads_as (of_hex (calculate_target_hash d)) (of_ℕ (bound d - 1))) ≡ true
unfolding all_below reads_as calculate_target_hash of_hex parse_pairs stoul_pair digit_value eq
target_table = refl

bound_table : all_below 65 (λ d. leb (bound d) (2 ^ 256) && ltb 0 (bound d)) ≡ true
unfolding all_below
bound_table = refl

difficulty_table :
    all_below 65 (λ d. target_to_difficulty (difficulty_to_target d) == (if ltb d 64 then d else 0))
    ≡ true
unfolding all_below target_to_difficulty difficulty_to_target same_text
difficulty_table = refl

-- Difficulties above 64 give the target of 64.
capped : (d : ℕ) → ltb 64 d ≡ true → calculate_target_hash d ≡ calculate_target_hash 64
unfolding calculate_target_hash
capped d h = rw (h, lt→ltb 0 d (ground arith)) refl

target_value : (d : ℕ) → of_hex (calculate_target_hash d) ≡ ok (of_ℕ (bound d - 1))
target_value d = elim (Bool-cases (ltb 64 d)) [
  | inl above ↦
      rw (capped d above, above)
        (reads_as_sound _ _ (all_below_sound 65 _ 64 target_table (omega arith)))
  | inr within ↦
      reads_as_sound _ _ (all_below_sound 65 _ d target_table (omega (arith, ltb→le 64 d within)))
]

bound_within : (d : ℕ) → (bound d ≤ 2 ^ 256) × (0 < bound d)
bound_within d = elim (Bool-cases (ltb 64 d)) [
  | inl above ↦ rw above (omega arith)
  | inr within ↦
      let row = all_below_sound 65 _ d bound_table (omega (arith, ltb→le 64 d within)) in
      ground (arith, row)
]

-- A text that reads as a word meets a difficulty d just where the word is below 16 ^ (64 - d), and from
-- the difficulty 64 on where it is zero.
pub meets_difficulty_target_exact :
    (hash : Text) (value : Uint256) (difficulty : ℕ)
    → of_hex hash ≡ ok value
    → IsWord value
    → meets_difficulty_target hash difficulty
      ≡ ok (ltb (to_ℕ value) (2 ^ (4 * (64 - lesser difficulty 64))))
unfolding meets_difficulty_target
meets_difficulty_target_exact hash value difficulty e w =
    let (most, least) = bound_within difficulty in
    let compared : le value (of_ℕ (bound difficulty - 1)) ≡ ltb (to_ℕ value) (bound difficulty) =
      le_lem value (of_ℕ (bound difficulty - 1)) w (of_ℕ-IsWord _)
      ∙ rw (to_ℕ-of_ℕ (bound difficulty - 1) (omega arith)) (ground arith) in
    rw (e, target_value difficulty, compared) refl

-- The difficulty of a target is the one that it was made for, below 64 leading zeros, and 0 from there on.
pub target_to_difficulty-difficulty_to_target :
    (difficulty : ℕ)
    → target_to_difficulty (difficulty_to_target difficulty)
      ≡ (if ltb difficulty 64 then difficulty else 0)
unfolding difficulty_to_target
target_to_difficulty-difficulty_to_target d = elim (Bool-cases (ltb 64 d)) [
  | inl above ↦
      let top = (==_iff _ _).0 (all_below_sound 65 _ 64 difficulty_table (omega arith)) in
      ground (arith, capped d above, top)
  | inr within ↦
      (==_iff _ _).0 (all_below_sound 65 _ d difficulty_table (omega (arith, ltb→le 64 d within)))
]
