-- ===== src/Chain/Walks.antt =====
-- The walks of src/core/blockchain.cpp against the path of blocks that they follow.
use deo.Prelude.{
  ℕ, zero, suc, ◌≤◌, ◌<◌, ◌≡◌, refl, true, false, Bool-cases, inl, inr, Option, none, some, List,
  [], ◌∷◌, length, map, arith,
}
use deo.Prelude.Run.{ok}
use deo.Prelude.Texts.{Text, same_text}
use deo.Block.{Block}
use deo.Chain.{Blockchain, last_of, hash_of}
use deo.Chain.Growth.{total_of}
use deo.Chain.Ancestry.{
  previous_of, has_text, chain_hashes, first_among, find_common_ancestor, is_ancestor_from,
  is_on_main_chain, weight_from, get_chain_weight,
}
use deo.Chain.Lineage.{Lineage, Rises, IsAbove, lineage, continues, ends_here, finds, tip_found}

module _ (sha256 : Text → Text) where
  abbrev pub hashes_of : List Block → List Text
  hashes_of = map (hash_of sha256)

  -- The first block of a list with a hash among others, or none.
  pub data IsFirst (hashes : List Text) : List Block → Option Block → Type 0 where
    nowhere : IsFirst hashes [] none
    here :
        {b : Block} {bs : List Block}
        → has_text (hash_of sha256 b) hashes ≡ true
        → IsFirst hashes (b ∷ bs) (some b)
    later :
        {b : Block} {bs : List Block} {found : Option Block}
        → has_text (hash_of sha256 b) hashes ≡ false
        → IsFirst hashes bs found
        → IsFirst hashes (b ∷ bs) found

module _ (c : Blockchain) (free : c.held ≡ false) where
  weight_none : (fuel weight : ℕ) → weight_from fuel weight none c ≡ ok weight
  unfolding weight_from
  weight_none zero weight = refl
  weight_none (suc fuel) weight = refl

  weight_lem :
      (fuel weight : ℕ) (b : Block) (bs : List Block)
      → Lineage c.block_index b bs
      → length bs ≤ fuel
      → weight_from fuel weight (some b) c ≡ ok (total_of weight bs)
  unfolding weight_from total_of
  weight_lem zero weight b bs (Lineage.stops empty) h = absurd (omega arith)
  weight_lem zero weight b bs (Lineage.unknown longer missing) h = absurd (omega arith)
  weight_lem zero weight b bs (Lineage.climbs longer found line) h = absurd (omega arith)
  weight_lem (suc fuel) weight b bs (Lineage.stops empty) h = rw (ends_here b empty) refl
  weight_lem (suc fuel) weight b bs (Lineage.unknown longer missing) h =
      rw (continues b longer, finds c free (previous_of b), missing) (weight_none fuel _)
  weight_lem (suc fuel) weight b bs (Lineage.climbs {a} {bs = rest} longer found line) h =
      rw (continues b longer, finds c free (previous_of b), found)
        (weight_lem fuel _ a rest line (omega arith))

  -- Where heights rise along the index and to the block, getChainWeight ends after at most one round more than the height,
  -- with the sum of the difficulties of the blocks that lead up from the block, modulo 2 ^ 64.
  pub get_chain_weight-Lineage :
      (fuel : ℕ) (b : Block)
      → Rises c.block_index
      → IsAbove c.block_index b
      → b.header.height < fuel
      → (bs : List Block) × Lineage c.block_index b bs
        × (get_chain_weight fuel (some b) c ≡ ok (total_of 0 bs))
  unfolding get_chain_weight
  get_chain_weight-Lineage fuel b rises above enough =
      let (bs, line, short) = lineage c.block_index b rises above in
      (bs, line, weight_lem fuel 0 b bs line (omega arith))

  module _ (sha256 : Text → Text) where
    hashes_lem :
        (fuel : ℕ) (b : Block) (bs : List Block)
        → Lineage c.block_index b bs
        → length bs ≤ fuel
        → chain_hashes sha256 fuel (some b) c ≡ ok (hashes_of sha256 bs)
    unfolding chain_hashes
    hashes_lem zero b bs (Lineage.stops empty) h = absurd (omega arith)
    hashes_lem zero b bs (Lineage.unknown longer missing) h = absurd (omega arith)
    hashes_lem zero b bs (Lineage.climbs longer found line) h = absurd (omega arith)
    hashes_lem (suc fuel) b bs (Lineage.stops empty) h = rw (ends_here b empty) refl
    hashes_lem (suc fuel) b bs (Lineage.unknown longer missing) h =
        rw (continues b longer, finds c free (previous_of b), missing) refl
    hashes_lem (suc fuel) b bs (Lineage.climbs {a} {bs = rest} longer found line) h =
        rw
          (
            continues b longer,
            finds c free (previous_of b),
            found,
            hashes_lem fuel a rest line (omega arith),
          )
          refl

    among_none : (fuel : ℕ) (hashes : List Text) → first_among sha256 fuel hashes none c ≡ ok none
    unfolding first_among
    among_none zero hashes = refl
    among_none (suc fuel) hashes = refl

    first_among-IsFirst :
        (fuel : ℕ) (hashes : List Text) (b : Block) (bs : List Block)
        → Lineage c.block_index b bs
        → length bs ≤ fuel
        → (found : Option Block) × (first_among sha256 fuel hashes (some b) c ≡ ok found)
          × IsFirst sha256 hashes bs found
    unfolding first_among
    first_among-IsFirst zero hashes b bs (Lineage.stops empty) h = absurd (omega arith)
    first_among-IsFirst zero hashes b bs (Lineage.unknown longer missing) h = absurd (omega arith)
    first_among-IsFirst zero hashes b bs (Lineage.climbs longer found line) h = absurd (omega arith)
    first_among-IsFirst (suc fuel) hashes b bs (Lineage.stops empty) h =
        elim (Bool-cases (has_text (hash_of sha256 b) hashes)) [
          | inl hit ↦ (some b, rw hit refl, IsFirst.here hit)
          | inr miss ↦ (none, rw (miss, ends_here b empty) refl, IsFirst.later miss IsFirst.nowhere)
        ]
    first_among-IsFirst (suc fuel) hashes b bs (Lineage.unknown longer missing) h =
        elim (Bool-cases (has_text (hash_of sha256 b) hashes)) [
          | inl hit ↦ (some b, rw hit refl, IsFirst.here hit)
          | inr miss ↦ (
            none,
            rw (miss, continues b longer, finds c free (previous_of b), missing)
                (among_none fuel hashes),
            IsFirst.later miss IsFirst.nowhere,
          )
        ]
    first_among-IsFirst (suc fuel) hashes b bs (Lineage.climbs {a} {bs = rest} longer known line)
          h =
        let (found, e, first) = first_among-IsFirst fuel hashes a rest line (omega arith) in
        elim (Bool-cases (has_text (hash_of sha256 b) hashes)) [
          | inl hit ↦ (some b, rw hit refl, IsFirst.here hit)
          | inr miss ↦ (
            found,
            rw (miss, continues b longer, finds c free (previous_of b), known) e,
            IsFirst.later miss first,
          )
        ]

    -- Where heights rise along the index and to both blocks, findCommonAncestor ends after at most one round more than each height:
    -- of the blocks that lead up from the second block it finds the first whose hash one of those that lead
    -- up from the first block has, or none where there is none.
    pub find_common_ancestor-IsFirst :
        (fuel : ℕ) (b1 b2 : Block)
        → Rises c.block_index
        → IsAbove c.block_index b1
        → IsAbove c.block_index b2
        → b1.header.height < fuel
        → b2.header.height < fuel
        → (bs1 : List Block) × (bs2 : List Block) × (found : Option Block) × Lineage c.block_index
            b1 bs1
          × Lineage c.block_index b2 bs2
          × (find_common_ancestor sha256 fuel (some b1) (some b2) c ≡ ok found)
          × IsFirst sha256 (hashes_of sha256 bs1) bs2 found
    unfolding find_common_ancestor
    find_common_ancestor-IsFirst fuel b1 b2 rises above1 above2 enough1 enough2 =
        let (bs1, line1, short1) = lineage c.block_index b1 rises above1 in
        let (bs2, line2, short2) = lineage c.block_index b2 rises above2 in
        let (found, e, first) =
          first_among-IsFirst fuel (hashes_of sha256 bs1) b2 bs2 line2 (omega arith) in
        let hashes = hashes_lem fuel b1 bs1 line1 (omega arith) in
        (bs1, bs2, found, line1, line2, rw hashes e, first)

    ancestor_lem :
        (fuel : ℕ) (hash : Text) (b : Block) (bs : List Block)
        → Lineage c.block_index b bs
        → length bs ≤ fuel
        → is_ancestor_from sha256 fuel hash (some b) c ≡ ok (has_text hash (hashes_of sha256 bs))
    unfolding is_ancestor_from has_text
    ancestor_lem zero hash b bs (Lineage.stops empty) h = absurd (omega arith)
    ancestor_lem zero hash b bs (Lineage.unknown longer missing) h = absurd (omega arith)
    ancestor_lem zero hash b bs (Lineage.climbs longer found line) h = absurd (omega arith)
    ancestor_lem (suc fuel) hash b bs (Lineage.stops empty) h =
        elim (Bool-cases (same_text (hash_of sha256 b) hash)) [
          | inl hit ↦ rw hit refl
          | inr miss ↦ rw (miss, ends_here b empty) refl
        ]
    ancestor_lem (suc fuel) hash b bs (Lineage.unknown longer missing) h =
        elim (Bool-cases (same_text (hash_of sha256 b) hash)) [
          | inl hit ↦ rw hit refl
          | inr miss ↦ rw (miss, continues b longer, finds c free (previous_of b), missing) refl
        ]
    ancestor_lem (suc fuel) hash b bs (Lineage.climbs {a} {bs = rest} longer found line) h =
        elim (Bool-cases (same_text (hash_of sha256 b) hash)) [
          | inl hit ↦ rw hit refl
          | inr miss ↦
              rw (miss, continues b longer, finds c free (previous_of b), found)
                (ancestor_lem fuel hash a rest line (omega arith))
        ]

    -- There isOnMainChain says whether one of the blocks that lead up from the last block has the hash of the
    -- block.
    pub is_on_main_chain-Lineage :
        (fuel : ℕ) (b best : Block)
        → last_of c.blocks ≡ some best
        → Rises c.block_index
        → IsAbove c.block_index best
        → best.header.height < fuel
        → (bs : List Block) × Lineage c.block_index best bs
          × (is_on_main_chain sha256 fuel (some b) c
              ≡ ok (has_text (hash_of sha256 b) (hashes_of sha256 bs)))
    unfolding is_on_main_chain
    is_on_main_chain-Lineage fuel b best tip rises above enough =
        let (bs, line, short) = lineage c.block_index best rises above in
        (
          bs,
          line,
          rw (tip_found c free, tip)
              (ancestor_lem fuel (hash_of sha256 b) best bs line (omega arith)),
        )
