-- ===== src/Authority/Rotation.antt =====
-- The turns of the validators of ProofOfAuthority.
use deo.Prelude.{
  ℕ, zero, suc, ◌+◌, ◌-◌, ◌%◌, ◌≤◌, ◌<◌, ◌≡◌, refl, sym, ap, ◌∙◌, Option, none, some, List, [], ◌∷◌,
  ◌++◌, length, get_elem?, get_or, take, drop, arith,
}
use native.Mathlib.Nat.{mod-lt}
use deo.Prelude.Texts.{Text}
use deo.Authority.{
  Validator, ProofOfAuthority, addresses, active_of, update_first, with_priority, give_turn,
  get_next_validator,
}

-- The answers of getNextValidator at a number of heights that follow on one another.
unfoldable pub turns : ℕ → ℕ → ProofOfAuthority → List Text
unfolding get_next_validator
turns height zero poa = []
turns height (suc count) poa =
    let (address, after) = get_next_validator height poa in address ∷ turns (height + 1) count after

unfoldable pub active_addresses : ProofOfAuthority → List Text
active_addresses poa = addresses (active_of poa.validators)

keeps_turns :
    (height : ℕ) (address : Text) (validators : List Validator)
    → addresses (active_of (update_first (with_priority height) address validators))
      ≡ addresses (active_of validators)
unfolding update_first active_of
keeps_turns height address [] = refl
keeps_turns height address (v ∷ validators) = ground (arith, keeps_turns height address validators)

-- The texts at the heights, taken round the list.
picks : List Text → ℕ → ℕ → List Text
picks texts height zero = []
picks texts height (suc count) =
    get_or texts (height % length texts) [] ∷ picks texts (height + 1) count

turn_of :
    (height : ℕ) (poa : ProofOfAuthority) (validators : List Validator) (i : ℕ)
    → (give_turn height (get_elem? validators i) poa).0 ≡ get_or (addresses validators) i []
unfolding give_turn
turn_of height poa [] i = refl
turn_of height poa (v ∷ validators) zero = refl
turn_of height poa (v ∷ validators) (suc i) = turn_of height poa validators i

turn_keeps :
    (height : ℕ) (poa : ProofOfAuthority) (who : Option Validator)
    → active_addresses (give_turn height who poa).1 ≡ active_addresses poa
unfolding give_turn active_addresses
turn_keeps height poa none = refl
turn_keeps height poa (some v) = keeps_turns height v.address poa.validators

length-addresses : (validators : List Validator) → length (addresses validators) ≡ length validators
length-addresses [] = refl
length-addresses (v ∷ validators) = ap suc (length-addresses validators)

turns-picks :
    (count height : ℕ) (poa : ProofOfAuthority)
    → turns height count poa ≡ picks (active_addresses poa) height count
unfolding turns get_next_validator active_addresses picks
turns-picks zero height poa = refl
turns-picks (suc count) height poa =
    let active = active_of poa.validators in
    let who = get_elem? active (height % length active) in
    let after = (give_turn height who poa).1 in
    rw (length-addresses active) (
      rw
        (
          turns-picks count (height + 1) after,
          turn_keeps height poa who,
          turn_of height poa active (height % length active),
        )
        refl)

take-drop-suc :
    (texts : List Text) (i k : ℕ)
    → i < length texts
    → take (suc k) (drop i texts) ≡ get_or texts i [] ∷ take k (drop (suc i) texts)
take-drop-suc [] i k h = absurd (omega (arith, h))
take-drop-suc (t ∷ texts) zero k h = refl
take-drop-suc (t ∷ texts) (suc i) k h = take-drop-suc texts i k (omega arith)

next_place : (h n : ℕ) → (h % n) + 1 < n → (h + 1) % n ≡ (h % n) + 1
next_place h n e = grind arith

picks-add :
    (texts : List Text) (a b height : ℕ)
    → picks texts height (a + b) ≡ picks texts height a ++ picks texts (height + a) b
unfolding picks
picks-add texts zero b height = ground arith
picks-add texts (suc a) b height =
    let longer : suc a + b ≡ suc (a + b) = omega arith in
    let later : height + suc a ≡ height + 1 + a = omega arith in
    rw (longer, later)
      (ap (get_or texts (height % length texts) [] ∷◌) (picks-add texts a b (height + 1)))

-- The heights of one round.
picks-take :
    (texts : List Text) (count height : ℕ)
    → (height % length texts) + count ≤ length texts
    → picks texts height count ≡ take count (drop (height % length texts) texts)
unfolding picks
picks-take texts zero height h = refl
picks-take texts (suc zero) height h =
    sym (take-drop-suc texts (height % length texts) zero (omega arith))
picks-take texts (suc (suc count)) height h =
    let next : (height + 1) % length texts ≡ suc (height % length texts) =
      next_place height (length texts) (omega arith) ∙ omega arith in
    rw
      (
        picks-take texts (suc count) (height + 1) (omega (arith, next)),
        next,
        take-drop-suc texts (height % length texts) (suc count) (omega arith),
      )
      refl

take_all :
    (texts : List Text) (count i : ℕ)
    → i + count ≡ length texts
    → take count (drop i texts) ≡ drop i texts
take_all [] zero zero h = refl
take_all [] zero (suc i) h = refl
take_all [] (suc count) i h = absurd (omega (arith, h))
take_all (t ∷ texts) zero zero h = absurd (omega (arith, h))
take_all (t ∷ texts) (suc count) zero h = ap (t ∷◌) (take_all texts count zero (omega arith))
take_all (t ∷ texts) count (suc i) h = take_all texts count i (omega arith)

-- The height at which a round starts.
round_start : (h n : ℕ) → 0 < n → (h + (n - h % n)) % n ≡ 0
round_start h n p = grind (arith, mod-lt)

round :
    (texts : List Text) (height : ℕ)
    → 0 < length texts
    → picks texts height (length texts)
      ≡ drop (height % length texts) texts ++ take (height % length texts) texts
round texts height p =
    let n = length texts in
    let i = height % n in
    let below : i < n = mod-lt height p in
    let whole : n ≡ (n - i) + i = omega arith in
    let start = round_start height n p in
    let first =
      picks-take texts (n - i) height (omega arith) ∙ take_all texts (n - i) i (omega arith) in
    let second : picks texts (height + (n - i)) i ≡ take i texts =
      picks-take texts i (height + (n - i)) (omega arith)
      ∙ ap (λ (k : ℕ). take i (drop k texts)) start in
    ap (picks texts height) whole
    ∙ picks-add texts (n - i) i height
    ∙ ap (◌++ picks texts (height + (n - i)) i) first
    ∙ ap (drop i texts ++◌) second

-- At as many heights that follow on one another as there are active validators, getNextValidator names
-- each of them once: from the one at the height's place in their list to the end of the list, and then
-- from its start.
pub turns-drop-take :
    (height : ℕ) (poa : ProofOfAuthority)
    → 0 < length (active_addresses poa)
    → turns height (length (active_addresses poa)) poa
      ≡ drop (height % length (active_addresses poa)) (active_addresses poa)
        ++ take (height % length (active_addresses poa)) (active_addresses poa)
turns-drop-take height poa p =
    turns-picks (length (active_addresses poa)) height poa ∙ round (active_addresses poa) height p
