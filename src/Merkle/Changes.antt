-- ===== src/Merkle/Changes.antt =====
-- The operations of src/core/merkle_tree.cpp that change a Merkle tree.
use deo.Prelude.{
  ◌≡◌, ◌≢◌, refl, ap, true, false, Bool-cases, inl, inr, List, [], ◌∷◌, ◌++◌, length, arith,
}
use deo.Prelude.Texts.{Text, same_text, same_text_iff}
use deo.Merkle.{
  MerkleTree, build_levels, build_tree_recursive, build_tree, calculate_height, add_hash,
  remove_hash, cleared, contains, contains_hash, erase_first,
}

-- A hash that is appended is found, and if it was new it is the one that erase takes.
contains_appended : (h : Text) (hs : List Text) → contains h (hs ++ h ∷ []) ≡ true
unfolding contains
contains_appended h [] = rw ((same_text_iff h h).1 refl) refl
contains_appended h (a ∷ hs) = rw (contains_appended h hs) (ground arith)

erase_appended :
    (h : Text) (hs : List Text) → contains h hs ≡ false → erase_first h (hs ++ h ∷ []) ≡ hs
unfolding contains erase_first
erase_appended h [] e = rw ((same_text_iff h h).1 refl) refl
erase_appended h (a ∷ hs) e =
    let other : same_text a h ≡ false = ground (arith, e) in
    rw (other, erase_appended h hs (ground (arith, e))) refl

module _ (sha256 : Text → Text) where
  -- The root and the height are those of the leaves.
  pub record IsBuilt (tree : MerkleTree) : Type 0 where
    pub same_root : tree.root ≡ build_tree_recursive sha256 tree.leaf_hashes
    pub same_height : tree.height ≡ calculate_height (length tree.leaf_hashes)

  pub build_tree-IsBuilt : (hs : List Text) → IsBuilt (build_tree sha256 hs)
  unfolding build_tree
  build_tree-IsBuilt hs = record { same_root = refl; same_height = refl }

  add_hash-IsBuilt :
      (tree : MerkleTree) (hash : Text) → IsBuilt tree → IsBuilt (add_hash sha256 tree hash)
  unfolding add_hash
  add_hash-IsBuilt tree [] built = built
  add_hash-IsBuilt tree (c ∷ cs) built = build_tree-IsBuilt (tree.leaf_hashes ++ (c ∷ cs) ∷ [])

  remove_hash-IsBuilt :
      (tree : MerkleTree) (hash : Text) → IsBuilt tree → IsBuilt (remove_hash sha256 tree hash).0
  unfolding remove_hash
  remove_hash-IsBuilt tree hash built = elim (Bool-cases (contains hash tree.leaf_hashes)) [
    | inl there ↦ rw there (build_tree-IsBuilt (erase_first hash tree.leaf_hashes))
    | inr gone ↦ rw gone built
  ]

  cleared-IsBuilt : IsBuilt cleared
  unfolding build_tree_recursive build_levels calculate_height
  cleared-IsBuilt = record { same_root = refl; same_height = refl }

  -- Adding or removing a hash keeps the root and the height of a tree those of its leaves, and building
  -- and clearing make them so.
  pub changes-IsBuilt :
      (tree : MerkleTree) (hash : Text) (hs : List Text)
      → IsBuilt tree
      → IsBuilt (add_hash sha256 tree hash)
        × IsBuilt (remove_hash sha256 tree hash).0
        × IsBuilt (build_tree sha256 hs)
        × IsBuilt cleared
  changes-IsBuilt tree hash hs built = (
    add_hash-IsBuilt tree hash built,
    remove_hash-IsBuilt tree hash built,
    build_tree-IsBuilt hs,
    cleared-IsBuilt,
  )

  rebuilt : (tree : MerkleTree) → IsBuilt tree → build_tree sha256 tree.leaf_hashes ≡ tree
  unfolding build_tree
  rebuilt tree built = rw (← built.same_root, ← built.same_height) refl

  -- A hash that is not empty and not among the leaves of a built tree: adding and then removing it
  -- gives the tree back, and the removal reports true.
  pub remove_hash-add_hash :
      (tree : MerkleTree) (hash : Text)
      → IsBuilt tree
      → hash ≢ []
      → contains_hash tree hash ≡ false
      → remove_hash sha256 (add_hash sha256 tree hash) hash ≡ (tree, true)
  unfolding remove_hash add_hash contains_hash build_tree
  remove_hash-add_hash tree [] built some new = absurd (some refl)
  remove_hash-add_hash tree (c ∷ cs) built some new =
      rw (contains_appended (c ∷ cs) tree.leaf_hashes, erase_appended (c ∷ cs) tree.leaf_hashes new)
        (ap (λ (t : MerkleTree). (t, true)) (rebuilt tree built))
