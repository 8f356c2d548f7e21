-- ===== src/Merkle/Levels.antt =====
-- The levels of a Merkle tree of src/core/merkle_tree.cpp and their parents.
use deo.Prelude.{
  ℕ, zero, suc, ◌+◌, ◌*◌, ◌≤◌, ◌≡◌, refl, ap, false, List, [], ◌∷◌, ◌++◌, length, arith,
}
use deo.Prelude.Texts.{Text}
use deo.Merkle.{
  MerkleNode, hash_of, absent, node, parent_hashes, build_levels, build_tree_recursive, get_root,
  build_tree, hash_children,
}

module _ (sha256 : Text → Text) where
  pub length-parent_hashes : (hs : List Text) → length (parent_hashes sha256 hs) * 2 ≤ length hs + 1
  unfolding parent_hashes
  length-parent_hashes [] = omega arith
  length-parent_hashes (a ∷ []) = omega arith
  length-parent_hashes (a ∷ b ∷ rest) = omega (arith, length-parent_hashes rest)

  -- Any fuel that reaches the number of hashes builds the same levels.
  pub build_levels_fuel :
      (f g : ℕ) (hs : List Text)
      → length hs ≤ f
      → length hs ≤ g
      → build_levels sha256 f hs ≡ build_levels sha256 g hs
  unfolding build_levels
  build_levels_fuel f g [] hf hg = refl
  build_levels_fuel f g (h ∷ []) hf hg = refl
  build_levels_fuel zero g (a ∷ b ∷ rest) hf hg = absurd (omega arith)
  build_levels_fuel (suc f) zero (a ∷ b ∷ rest) hf hg = absurd (omega arith)
  build_levels_fuel (suc f) (suc g) (a ∷ b ∷ rest) hf hg =
      let fewer = length-parent_hashes (a ∷ b ∷ rest) in
      ap (λ (p : MerkleNode). node (hash_of p) false p absent)
        (build_levels_fuel f g (parent_hashes sha256 (a ∷ b ∷ rest)) (omega (arith, fewer))
          (omega (arith, fewer)))

  -- A tree of two or more hashes stands on the tree of their parents.
  pub build_tree_recursive_step :
      (a b : Text) (rest : List Text)
      → let parent = build_tree_recursive sha256 (parent_hashes sha256 (a ∷ b ∷ rest)) in
        build_tree_recursive sha256 (a ∷ b ∷ rest) ≡ node (hash_of parent) false parent absent
  unfolding build_tree_recursive build_levels
  build_tree_recursive_step a b rest =
      let fewer = length-parent_hashes (a ∷ b ∷ rest) in
      let hs = parent_hashes sha256 (a ∷ b ∷ rest) in
      ap (λ (p : MerkleNode). node (hash_of p) false p absent)
        (build_levels_fuel (suc (length rest)) (length hs) hs (omega (arith, fewer)) (omega arith))

  -- An even number of hashes and one more: the one more may as well stand twice.
  parent_hashes_twice :
      (n : ℕ) (hs : List Text) (h : Text)
      → length hs ≡ n * 2
      → parent_hashes sha256 (hs ++ h ∷ h ∷ []) ≡ parent_hashes sha256 (hs ++ h ∷ [])
  unfolding parent_hashes
  parent_hashes_twice n [] h e = refl
  parent_hashes_twice zero (a ∷ hs) h e = absurd (omega arith)
  parent_hashes_twice (suc n) (a ∷ []) h e = absurd (omega arith)
  parent_hashes_twice (suc n) (a ∷ b ∷ hs) h e =
      ap (λ (t : List Text). hash_children sha256 a b ∷ t)
        (parent_hashes_twice n hs h (omega arith))

  -- Two different lists of leaves, an odd number of three or more hashes and the same with the last
  -- hash written once more, have the same root.
  pub get_root_twice :
      (n : ℕ) (a b : Text) (hs : List Text) (h : Text)
      → length hs ≡ n * 2
      → get_root (build_tree sha256 ((a ∷ b ∷ hs) ++ h ∷ h ∷ []))
        ≡ get_root (build_tree sha256 ((a ∷ b ∷ hs) ++ h ∷ []))
  unfolding get_root build_tree
  get_root_twice n a b hs h e =
      let same = parent_hashes_twice (suc n) (a ∷ b ∷ hs) h (omega arith) in
      rw
        (
          build_tree_recursive_step a b (hs ++ h ∷ h ∷ []),
          build_tree_recursive_step a b (hs ++ h ∷ []),
          same,
        )
        refl
