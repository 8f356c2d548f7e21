-- ===== src/Chain/Lineage.antt =====
-- The blocks that lead up from a block by the index of src/core/blockchain.cpp.
use deo.Prelude.{
  ℕ, zero, suc, ◌+◌, ◌≤◌, ◌<◌, ◌≡◌, ◌≢◌, ◌⊎◌, refl, true, false, Bool-cases, Option-cases, inl, inr,
  none, some, List, [], ◌∷◌, length, All, arith,
}
use deo.Prelude.Run.{ok}
use deo.Prelude.Texts.{Text, same_text, same_text_iff}
use deo.Prelude.Dicts.{Dict, lookup, All-lookup}
use deo.Block.{Block}
use deo.Chain.{Blockchain, reading, get_block, get_best_block, last_of}
use deo.Chain.Ancestry.{previous_of}

-- The blocks from a block up: each names the one after it as its previous block, and the last names
-- none that is known.
pub data Lineage (index : Dict Block) : Block → List Block → Type 0 where
  stops : {b : Block} → previous_of b ≡ [] → Lineage index b (b ∷ [])
  unknown :
      {b : Block}
      → previous_of b ≢ []
      → lookup (previous_of b) index ≡ none
      → Lineage index b (b ∷ [])
  climbs :
      {b a : Block} {bs : List Block}
      → previous_of b ≢ []
      → lookup (previous_of b) index ≡ some a
      → Lineage index a bs
      → Lineage index b (b ∷ bs)

-- A block higher than the one that it names, where that is known.
abbrev pub IsAbove : Dict Block → Block → Type 0
IsAbove index b =
    (a : Block)
    → previous_of b ≢ []
    → lookup (previous_of b) index ≡ some a
    → a.header.height < b.header.height

-- Heights grow along the index, as addBlock checks them for a block that it appends.
abbrev pub Rises : Dict Block → Type 0
Rises index = All (λ (entry : Text × Block). IsAbove index entry.1) index

is_start : (b : Block) → (previous_of b ≡ []) ⊎ (previous_of b ≢ [])
is_start b = elim (Bool-cases (same_text (previous_of b) [])) [
  | inl empty ↦ inl ((same_text_iff (previous_of b) []).0 empty)
  | inr longer ↦ inr (λ e. let hit = (same_text_iff (previous_of b) []).1 e in cc)
]

-- Then the path is no longer than the height allows.
Lineage-below :
    (index : Dict Block) (most : ℕ) (b : Block)
    → Rises index
    → IsAbove index b
    → b.header.height ≤ most
    → (bs : List Block) × Lineage index b bs × (length bs ≤ most + 1)
Lineage-below index zero b rises above h = elim (is_start b) [
  | inl empty ↦ (b ∷ [], Lineage.stops empty, omega arith)
  | inr longer ↦ elim (Option-cases (lookup (previous_of b) index)) [
    | inl missing ↦ (b ∷ [], Lineage.unknown longer missing, omega arith)
    | inr (a, found) ↦ absurd (omega (arith, above a longer found))
  ]
]
Lineage-below index (suc most) b rises above h = elim (is_start b) [
  | inl empty ↦ (b ∷ [], Lineage.stops empty, omega arith)
  | inr longer ↦ elim (Option-cases (lookup (previous_of b) index)) [
    | inl missing ↦ (b ∷ [], Lineage.unknown longer missing, omega arith)
    | inr (a, found) ↦
        let lower = above a longer found in
        let (bs, line, short) =
          Lineage-below index most a rises
            (All-lookup (λ (entry : Text × Block). IsAbove index entry.1) (previous_of b) a index
              rises found)
            (omega arith) in
        (b ∷ bs, Lineage.climbs longer found line, omega arith)
  ]
]

pub lineage :
    (index : Dict Block) (b : Block)
    → Rises index
    → IsAbove index b
    → (bs : List Block) × Lineage index b bs × (length bs ≤ b.header.height + 1)
lineage index b rises above = Lineage-below index b.header.height b rises above (omega arith)

pub continues : (b : Block) → previous_of b ≢ [] → same_text (previous_of b) [] ≡ false
continues b longer = elim (Bool-cases (same_text (previous_of b) [])) [
  | inl empty ↦ absurd (longer ((same_text_iff (previous_of b) []).0 empty))
  | inr e ↦ e
]

pub ends_here : (b : Block) → previous_of b ≡ [] → same_text (previous_of b) [] ≡ true
ends_here b empty = (same_text_iff (previous_of b) []).1 empty

module _ (c : Blockchain) (free : c.held ≡ false) where
  pub finds : (hash : Text) → get_block hash c ≡ ok (lookup hash c.block_index)
  unfolding get_block reading
  finds hash = rw free refl

  pub tip_found : get_best_block c ≡ ok (last_of c.blocks)
  unfolding get_best_block reading
  tip_found = rw free refl
