-- ===== src/Prelude/Dicts.antt =====
-- `std::map` with texts as keys where the program iterates over it: an association list that is kept
-- in the order of its keys.
use Prim.Native.Nat.{◌+◌, ◌≤◌}
use mathlib.Core.Path.{◌≡◌, refl, sym}
use mathlib.Core.Logic.{inl, inr}
use mathlib.Core.Bool.{Bool, true, false, ◌&&◌, ◌||◌}
use mathlib.Core.List.{List, [], ◌∷◌}
use mathlib.Core.Option.{Option, none, some}
use native.Mathlib.Omega.{arith}
use deo.Prelude.Tests.{ltb, ◌==◌, if◌then◌else◌, Bool-cases}
use deo.Prelude.Lists.{length, All}
use deo.Prelude.Texts.{Text, same_text, same_text_iff}

-- The lexicographic order of std::string.
unfoldable pub text_lt : Text → Text → Bool
text_lt a [] = false
text_lt [] (d ∷ b) = true
text_lt (c ∷ a) (d ∷ b) = ltb c d || (c == d && text_lt a b)

abbrev pub Dict {ℓ} : Type ℓ → Type ℓ
Dict V = List (Text × V)

abbrev pub is_some {ℓ} : {A : Type ℓ} → Option A → Bool
is_some none = false
is_some (some a) = true

pub nothing_there {ℓ} : {A : Type ℓ} (found : Option A) → is_some found ≡ false → found ≡ none
nothing_there none e = refl
nothing_there (some a) e = absurd (cc)

module _ {ℓ} {V : Type ℓ} where
  unfoldable pub lookup : Text → Dict V → Option V
  lookup k [] = none
  lookup k ((j, v) ∷ m) = if same_text j k then some v else lookup k m

  -- m[k] = v
  unfoldable pub insert : Text → V → Dict V → Dict V
  insert k v [] = (k, v) ∷ []
  insert k v ((j, w) ∷ m) =
      if same_text j k
      then (j, v) ∷ m
      else if text_lt k j
      then (k, v) ∷ (j, w) ∷ m
      else (j, w) ∷ insert k v m

  -- it->second = v, of the entry that a search has found
  unfoldable pub update : Text → V → Dict V → Dict V
  update k v [] = []
  update k v ((j, w) ∷ m) = if same_text j k then (j, v) ∷ m else (j, w) ∷ update k v m

  unfoldable pub erase : Text → Dict V → Dict V
  erase k [] = []
  erase k ((j, w) ∷ m) = if same_text j k then m else (j, w) ∷ erase k m

  -- No key stands twice.
  unfoldable pub IsDict : Dict V → Type ℓ
  IsDict [] = Unit
  IsDict ((k, v) ∷ m) = (lookup k m ≡ none) × IsDict m

  pub lookup-insert :
      (k j : Text) (v : V) (m : Dict V)
      → lookup j (insert k v m) ≡ (if same_text k j then some v else lookup j m)
  unfolding lookup insert
  lookup-insert k j v [] = refl
  lookup-insert k j v ((i, w) ∷ m) =
      ground (arith, same_text_iff k j, same_text_iff i k, same_text_iff i j, lookup-insert k j v m)

  pub lookup-update :
      (k j : Text) (v w : V) (m : Dict V)
      → lookup k m ≡ some w
      → lookup j (update k v m) ≡ (if same_text k j then some v else lookup j m)
  unfolding lookup update
  lookup-update k j v w [] e = absurd (cc)
  lookup-update k j v w ((i, u) ∷ m) e =
      ground
        (arith, same_text_iff k j, same_text_iff i k, same_text_iff i j, lookup-update k j v w m)

  pub lookup-update-none :
      (k j : Text) (v : V) (m : Dict V) → lookup j m ≡ none → lookup j (update k v m) ≡ none
  unfolding lookup update
  lookup-update-none k j v [] e = e
  lookup-update-none k j v ((i, u) ∷ m) e = ground (arith, lookup-update-none k j v m)

  pub update-IsDict : (k : Text) (v : V) (m : Dict V) → IsDict m → IsDict (update k v m)
  unfolding IsDict update
  update-IsDict k v [] h = tt
  update-IsDict k v ((i, w) ∷ m) h =
      ground (arith, update-IsDict k v m h.1, lookup-update-none k i v m)

  pub lookup-erase_ne :
      (k j : Text) (m : Dict V) → same_text k j ≡ false → lookup j (erase k m) ≡ lookup j m
  unfolding lookup erase
  lookup-erase_ne k j [] e = refl
  lookup-erase_ne k j ((i, w) ∷ m) e =
      ground
        (arith, same_text_iff i k, same_text_iff i j, same_text_iff k j, lookup-erase_ne k j m e)

  pub lookup-erase-none :
      (k j : Text) (m : Dict V) → lookup j m ≡ none → lookup j (erase k m) ≡ none
  unfolding lookup erase
  lookup-erase-none k j [] e = refl
  lookup-erase-none k j ((i, w) ∷ m) e = ground (arith, lookup-erase-none k j m)

  pub lookup-erase_self : (k : Text) (m : Dict V) → IsDict m → lookup k (erase k m) ≡ none
  unfolding lookup erase IsDict
  lookup-erase_self k [] h = refl
  lookup-erase_self k ((i, w) ∷ m) h = ground (arith, same_text_iff i k, lookup-erase_self k m h.1)

  pub insert-IsDict :
      (k : Text) (v : V) (m : Dict V) → lookup k m ≡ none → IsDict m → IsDict (insert k v m)
  unfolding IsDict insert lookup
  insert-IsDict k v [] e h = (refl, tt)
  insert-IsDict k v ((i, w) ∷ m) e h = ground (
    arith,
    insert-IsDict k v m,
    same_text_iff i k,
    same_text_iff k i,
    same_text_iff k k,
    lookup-insert k i v m,
  )

  pub erase-IsDict : (k : Text) (m : Dict V) → IsDict m → IsDict (erase k m)
  unfolding IsDict erase
  erase-IsDict k [] h = tt
  erase-IsDict k ((i, w) ∷ m) h = ground (arith, erase-IsDict k m h.1, lookup-erase-none k i m)

  pub length-insert_new :
      (k : Text) (v : V) (m : Dict V) → lookup k m ≡ none → length (insert k v m) ≡ length m + 1
  unfolding lookup insert
  length-insert_new k v [] e = refl
  length-insert_new k v ((i, w) ∷ m) e = ground (arith, length-insert_new k v m)

  pub length-erase :
      (k : Text) (v : V) (m : Dict V) → lookup k m ≡ some v → length (erase k m) + 1 ≡ length m
  unfolding lookup erase
  length-erase k v [] e = cc
  length-erase k v ((i, w) ∷ m) e = ground (arith, length-erase k v m)

  pub length-erase_le : (k : Text) (m : Dict V) → length (erase k m) ≤ length m
  unfolding erase
  length-erase_le k [] = omega arith
  length-erase_le k ((i, w) ∷ m) = ground (arith, length-erase_le k m)

  -- What holds of every entry.
  module _ {κ} (P : Text × V → Type κ) where
    transport_key : (k j : Text) (v : V) → k ≡ j → P (k, v) → P (j, v)
    transport_key k j v e p = rw (← e) p

    pub All-insert : (k : Text) (v : V) (m : Dict V) → P (k, v) → All P m → All P (insert k v m)
    unfolding insert
    All-insert k v [] p h = (p, tt)
    All-insert k v ((j, w) ∷ m) p (q, h) = elim (Bool-cases (same_text j k)) [
      | inl hit ↦
          let same : k ≡ j = sym ((same_text_iff j k).0 hit) in
          rw (hit) (transport_key k j v same p, h)
      | inr miss ↦ elim (Bool-cases (text_lt k j)) [
        | inl before ↦ rw (miss, before) (p, (q, h))
        | inr after ↦ rw (miss, after) (q, All-insert k v m p h)
      ]
    ]

    pub All-erase : (k : Text) (m : Dict V) → All P m → All P (erase k m)
    unfolding erase
    All-erase k [] h = tt
    All-erase k ((j, w) ∷ m) (q, h) = elim (Bool-cases (same_text j k)) [
      | inl hit ↦ rw hit h
      | inr miss ↦ rw miss (q, All-erase k m h)
    ]

    pub All-lookup : (k : Text) (v : V) (m : Dict V) → All P m → lookup k m ≡ some v → P (k, v)
    unfolding lookup
    All-lookup k v [] h e = absurd (cc)
    All-lookup k v ((j, w) ∷ m) (q, h) e = elim (Bool-cases (same_text j k)) [
      | inl hit ↦
          let same : j ≡ k = (same_text_iff j k).0 hit in
          let value : w ≡ v = ground (arith, hit, e) in rw (← same, ← value) q
      | inr miss ↦ All-lookup k v m h (ground (arith, miss, e))
    ]

    pub All-update : (k : Text) (v : V) (m : Dict V) → P (k, v) → All P m → All P (update k v m)
    unfolding update
    All-update k v [] p h = tt
    All-update k v ((j, w) ∷ m) p (q, h) = elim (Bool-cases (same_text j k)) [
      | inl hit ↦
          let same : k ≡ j = sym ((same_text_iff j k).0 hit) in
          rw hit (transport_key k j v same p, h)
      | inr miss ↦ rw miss (q, All-update k v m p h)
    ]
