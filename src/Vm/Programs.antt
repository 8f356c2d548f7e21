-- ===== src/Vm/Programs.antt =====
-- The bytecode that validateBytecode of src/vm/virtual_machine.cpp accepts.
use deo.Prelude.{
  ℕ, zero, suc, ◌≤◌, ◌≡◌, refl, sym, ap, ◌∙◌, ◌↔◌, ◌⊎◌, inl, inr, true, false, Bool-cases, ltb,
  le→ltb, if◌then◌else◌, List, [], ◌∷◌, ◌++◌, length, take, drop, length-append, arith,
}
use deo.Vm.Opcode.{Opcode, push, other, decode, is_valid_opcode, in_push_range}
use deo.Vm.Validation.{validate_from, validate_bytecode}

-- A program is a sequence of opcodes that the enumeration has, each PUSHn with its n bytes of data.
pub data IsProgram : List ℕ → Type 0 where
  ends : IsProgram []
  plain :
      (b : ℕ) (rest : List ℕ)
      → is_valid_opcode (decode b) ≡ true
      → in_push_range (decode b) ≡ false
      → IsProgram rest
      → IsProgram (b ∷ rest)
  pushes :
      (b n : ℕ) (bytes rest code : List ℕ)
      → decode b ≡ push n
      → length bytes ≡ n
      → code ≡ bytes ++ rest
      → IsProgram rest
      → IsProgram (b ∷ code)

drop-append : (xs ys : List ℕ) → drop (length xs) (xs ++ ys) ≡ ys
drop-append [] ys = refl
drop-append (x ∷ xs) ys = drop-append xs ys

take-drop : (n : ℕ) (xs : List ℕ) → xs ≡ take n xs ++ drop n xs
take-drop zero xs = refl
take-drop (suc n) [] = refl
take-drop (suc n) (x ∷ xs) = ap (λ (t : List ℕ). x ∷ t) (take-drop n xs)

length-take : (n : ℕ) (xs : List ℕ) → n ≤ length xs → length (take n xs) ≡ n
length-take zero xs h = refl
length-take (suc n) [] h = absurd (omega arith)
length-take (suc n) (x ∷ xs) h = ap suc (length-take n xs (omega arith))

length-drop : (n : ℕ) (xs : List ℕ) → length (drop n xs) ≤ length xs
length-drop zero xs = omega arith
length-drop (suc n) [] = omega arith
length-drop (suc n) (x ∷ xs) = omega (arith, length-drop n xs)

valid_cases :
    (op : Opcode)
    → is_valid_opcode op ≡ true
    → (in_push_range op ≡ false) ⊎ ((n : ℕ) × (op ≡ push n))
unfolding is_valid_opcode in_push_range
valid_cases (push n) h = inr (n, refl)
valid_cases (other b) h = absurd (cc)
valid_cases op h = inl refl

-- One round of the loop, on each kind of opcode.
module _ (rounds b : ℕ) (rest : List ℕ) where
  round_plain :
      is_valid_opcode (decode b) ≡ true
      → in_push_range (decode b) ≡ false
      → validate_from (suc rounds) (b ∷ rest) ≡ validate_from rounds rest
  unfolding validate_from
  round_plain v p = rw (v, p) refl

  round_push :
      (n : ℕ)
      → decode b ≡ push n
      → validate_from (suc rounds) (b ∷ rest)
        ≡ (if ltb (length rest) n then false else validate_from rounds (drop n rest))
  unfolding validate_from is_valid_opcode in_push_range
  round_push n e = rw e refl

  round_invalid : is_valid_opcode (decode b) ≡ false → validate_from (suc rounds) (b ∷ rest) ≡ false
  unfolding validate_from
  round_invalid v = rw v refl

validate_from_sound :
    (rounds : ℕ) (code : List ℕ)
    → length code ≤ rounds
    → validate_from rounds code ≡ true
    → IsProgram code
validate_from_sound rounds [] enough h = ends
validate_from_sound zero (b ∷ rest) enough h = absurd (omega arith)
validate_from_sound (suc rounds) (b ∷ rest) enough h =
    elim (Bool-cases (is_valid_opcode (decode b))) [
      | inr v ↦ let wrong = round_invalid rounds b rest v in absurd (cc)
      | inl v ↦ elim (valid_cases (decode b) v) [
        | inl p ↦ plain b rest v p (
            validate_from_sound rounds rest (omega arith) (sym (round_plain rounds b rest v p) ∙ h))
        | inr (n, e) ↦ elim (Bool-cases (ltb (length rest) n)) [
          | inl short ↦
              let wrong : validate_from (suc rounds) (b ∷ rest) ≡ false =
                round_push rounds b rest n e ∙ rw short refl in
              absurd (cc)
          | inr long ↦
              pushes b n (take n rest) (drop n rest) rest e (length-take n rest (ground arith))
                (take-drop n rest)
                (validate_from_sound rounds (drop n rest) (omega (arith, length-drop n rest))
                  (sym (round_push rounds b rest n e ∙ rw long refl) ∙ h))
        ]
      ]
    ]

validate_from_complete :
    (rounds : ℕ) {code : List ℕ} → IsProgram code → validate_from rounds code ≡ true
unfolding validate_from is_valid_opcode in_push_range
validate_from_complete zero p = refl
validate_from_complete (suc rounds) ends = refl
validate_from_complete (suc rounds) (plain b rest v p program) =
    rw (v, p) (validate_from_complete rounds program)
validate_from_complete (suc rounds) (pushes b n bytes rest code e count shape program) =
    let long : ltb (length (bytes ++ rest)) n ≡ false =
      le→ltb (length (bytes ++ rest)) n (omega (arith, length-append bytes rest)) in
    let same : drop n (bytes ++ rest) ≡ rest = rw (← count) (drop-append bytes rest) in
    rw (e, shape, long, same) (validate_from_complete rounds program)

-- The validation accepts exactly the bytecode that is a program: a sequence of enumerated opcodes,
-- each PUSHn followed by its n bytes. It looks at no jump destination.
pub validate_bytecode-IsProgram : (code : List ℕ) → (validate_bytecode code ≡ true) ↔ IsProgram code
unfolding validate_bytecode
validate_bytecode-IsProgram code = (
  λ h. validate_from_sound (length code) code (omega arith) h,
  λ p. validate_from_complete (length code) p,
)
