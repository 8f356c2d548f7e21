-- ===== src/Chain/Ancestry.antt =====
-- The walks of src/core/blockchain.cpp up a chain of blocks, with fuel: each looks up the block before by
-- its hash, until that is empty or unknown. And what builds on them: the common ancestor, the weight, and
-- the reorganisation.
use deo.Prelude.{
  ℕ, zero, suc, ◌+◌, ◌%◌, ◌^◌, Bool, true, false, not, ltb, if◌then◌else◌, Option, none, some, List,
  [], ◌∷◌,
}
use mathlib.Core.List.{reverse}
use deo.Prelude.Run.{Run, ok, no_fuel, ◌>>=◌}
use deo.Prelude.Texts.{Text, same_text}
use deo.Block.{Block, validate}
use deo.Chain.{Blockchain, Act, locked, get_block, get_best_block, hash_of}

abbrev pub previous_of : Block → Text
previous_of block = block.header.previous_hash

-- The set of hashes that findCommonAncestor fills, as a list.
unfoldable pub has_text : Text → List Text → Bool
has_text text [] = false
has_text text (t ∷ ts) = let rest = has_text text ts in if same_text t text then true else rest

module _ (sha256 : Text → Text) where
  unfoldable pub chain_hashes : ℕ → Option Block → Blockchain → Run (List Text)
  unfolding get_block
  chain_hashes fuel none c = ok []
  chain_hashes zero (some block) c = no_fuel
  chain_hashes (suc fuel) (some block) c =
      let rest = (do
        previous ← get_block (previous_of block) c
        hashes ← chain_hashes fuel previous c
        ok (hash_of sha256 block ∷ hashes)) in
      if same_text (previous_of block) [] then ok (hash_of sha256 block ∷ []) else rest

  unfoldable pub first_among : ℕ → List Text → Option Block → Blockchain → Run (Option Block)
  unfolding get_block has_text
  first_among fuel hashes none c = ok none
  first_among zero hashes (some block) c = no_fuel
  first_among (suc fuel) hashes (some block) c =
      let rest = (do
        previous ← get_block (previous_of block) c
        first_among fuel hashes previous c) in
      if has_text (hash_of sha256 block) hashes
      then ok (some block)
      else if same_text (previous_of block) []
      then ok none
      else rest

  unfoldable pub find_common_ancestor :
      ℕ → Option Block → Option Block → Blockchain → Run (Option Block)
  unfolding chain_hashes first_among
  find_common_ancestor fuel none block2 c = ok none
  find_common_ancestor fuel (some block1) none c = ok none
  find_common_ancestor fuel (some block1) (some block2) c = do
    block1_chain ← chain_hashes fuel (some block1) c
    first_among fuel block1_chain (some block2) c

  unfoldable pub is_ancestor_from : ℕ → Text → Option Block → Blockchain → Run Bool
  unfolding get_block
  is_ancestor_from fuel hash none c = ok false
  is_ancestor_from zero hash (some block) c = no_fuel
  is_ancestor_from (suc fuel) hash (some block) c =
      let rest = (do
        previous ← get_block (previous_of block) c
        is_ancestor_from fuel hash previous c) in
      if same_text (hash_of sha256 block) hash
      then ok true
      else if same_text (previous_of block) []
      then ok false
      else rest

  unfoldable pub is_on_main_chain : ℕ → Option Block → Blockchain → Run Bool
  unfolding is_ancestor_from get_best_block
  is_on_main_chain fuel none c = ok false
  is_on_main_chain fuel (some block) c = do
    best ← get_best_block c
    is_ancestor_from fuel (hash_of sha256 block) best c

  -- The new chain of reorganizeChain, from its best block back to the fork.
  unfoldable pub blocks_until : ℕ → Text → Option Block → Blockchain → Run (List Block)
  unfolding get_block
  blocks_until fuel fork none c = ok []
  blocks_until zero fork (some block) c = no_fuel
  blocks_until (suc fuel) fork (some block) c =
      let rest = (do
        previous ← get_block (previous_of block) c
        blocks ← blocks_until fuel fork previous c
        ok (block ∷ blocks)) in
      if same_text (hash_of sha256 block) fork
      then ok []
      else if same_text (previous_of block) []
      then ok (block ∷ [])
      else rest

-- getChainWeight: the sum has 64 bits.
unfoldable pub weight_from : (fuel weight : ℕ) → Option Block → Blockchain → Run ℕ
unfolding get_block
weight_from fuel weight none c = ok weight
weight_from zero weight (some block) c = no_fuel
weight_from (suc fuel) weight (some block) c =
    let heavier = (weight + block.header.difficulty) % 2 ^ 64 in
    let rest = (do
      previous ← get_block (previous_of block) c
      weight_from fuel heavier previous c) in
    if same_text (previous_of block) [] then ok heavier else rest

unfoldable pub get_chain_weight : ℕ → Option Block → Blockchain → Run ℕ
unfolding weight_from
get_chain_weight fuel block c = weight_from fuel 0 block c

unfoldable pub all_validate : List Block → Bool
all_validate [] = true
all_validate (block ∷ blocks) =
    let rest = all_validate blocks in if not (validate block) then false else rest

module _ (sha256 : Text → Text) where
  abbrev pub with_best : Block → Blockchain → Blockchain
  with_best block c = record c {
    best_block_hash = hash_of sha256 block;
    current_height = block.header.height;
  }

  -- reorganizeChain from the fork point on
  abbrev pub reorganize_from : ℕ → Block → Option Block → Act Bool
  reorganize_from fuel new_best_block none c = ok (false, c)
  reorganize_from fuel new_best_block (some fork_point) c = do
    new_chain ← blocks_until sha256 fuel (hash_of sha256 fork_point) (some new_best_block) c
    if all_validate (reverse new_chain)
        then ok (true, with_best new_best_block c)
        else ok (false, c)

  unfoldable pub reorganize_chain : ℕ → Block → Act Bool
  unfolding get_best_block find_common_ancestor blocks_until all_validate
  reorganize_chain fuel new_best_block c = do
    current_best ← get_best_block c
    fork_point ← find_common_ancestor sha256 fuel (some new_best_block) current_best c
    reorganize_from fuel new_best_block fork_point c

  -- handleChainReorganization once there is a best block
  abbrev pub compare_chains : ℕ → Block → Block → Act Bool
  compare_chains fuel new_block current_best c =
      if same_text (previous_of new_block) (hash_of sha256 current_best) then ok (true, c) else do
        common_ancestor ← find_common_ancestor sha256 fuel (some new_block) (some current_best) c
        elim common_ancestor [
          | none ↦ ok (false, c)
          | some fork ↦ do
            current_weight ← get_chain_weight fuel (some current_best) c
            new_weight ← get_chain_weight fuel (some new_block) c
            if ltb current_weight new_weight
                then reorganize_chain fuel new_block c
                else ok (false, c)
        ]

  unfoldable pub handle_chain_reorganization : ℕ → Option Block → Act Bool
  unfolding locked get_best_block get_chain_weight find_common_ancestor reorganize_chain
  handle_chain_reorganization fuel none = locked (λ c. ok (false, c))
  handle_chain_reorganization fuel (some new_block) = locked (λ c. do
    current_best ← get_best_block c
    elim current_best [ none ↦ ok (true, c) | some best ↦ compare_chains fuel new_block best c ])
