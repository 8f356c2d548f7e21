-- ===== src/Merkle/Leaves.antt =====
-- Which hashes a Merkle tree of src/core/merkle_tree.cpp finds among its leaves, and includes.
use deo.Prelude.{
  ℕ, zero, suc, ◌≤◌, ◌≡◌, refl, true, false, List, [], ◌∷◌, ◌++◌, length, arith, if◌then◌else◌,
}
use deo.Prelude.Texts.{Text, same_text}
use deo.Merkle.{
  MerkleTree, absent, node, hash_of, is_absent, parent_hashes, build_levels, build_tree_recursive,
  build_tree, collect_leaves, find_node, find_leaf, get_root, generate_proof,
  generate_proof_from_leaf, verify_inclusion,
}
use deo.Merkle.Levels.{length-parent_hashes}

module _ (sha256 : Text → Text) where
  -- Below the levels stands one leaf, which holds the hash of the root.
  leaves_of_levels :
      (fuel : ℕ) (a : Text) (hs : List Text)
      → length hs ≤ fuel
      → (r : Text) × (hash_of (build_levels sha256 fuel (a ∷ hs)) ≡ r)
        × (is_absent (build_levels sha256 fuel (a ∷ hs)) ≡ false)
        × (collect_leaves (build_levels sha256 fuel (a ∷ hs)) ≡ node r true absent absent ∷ [])
  unfolding build_levels collect_leaves parent_hashes
  leaves_of_levels fuel a [] h = (a, refl, refl, refl)
  leaves_of_levels zero a (b ∷ rest) h = absurd (omega arith)
  leaves_of_levels (suc fuel) a (b ∷ rest) h =
      let fewer = length-parent_hashes sha256 rest in
      let (r, e, there, one) =
        leaves_of_levels fuel (sha256 (a ++ b)) (parent_hashes sha256 rest)
          (omega (arith, fewer)) in
      (r, e, refl, rw one refl)

  -- On a tree built from one leaf or more, findLeaf finds a hash if it is that of the root, and only then.
  pub find_leaf_lem :
      (a : Text) (hs : List Text) (hash : Text)
      → let tree = build_tree sha256 (a ∷ hs) in
        find_leaf tree hash ≡ (
          if same_text (get_root tree) hash
          then node (get_root tree) true absent absent
          else absent)
  unfolding find_leaf find_node get_root build_tree build_tree_recursive
  find_leaf_lem a hs hash =
      let (r, e, there, one) = leaves_of_levels (suc (length hs)) a hs (omega arith) in
      rw (one, there, e) refl

  -- No tree includes any hash: verifyInclusion is false throughout.
  pub verify_inclusion_never :
      (tree : MerkleTree) (hash : Text) → verify_inclusion sha256 tree hash ≡ false
  unfolding verify_inclusion generate_proof generate_proof_from_leaf
  verify_inclusion_never tree hash = ground arith
