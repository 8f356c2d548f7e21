-- ===== src/Merkle.antt =====
-- MerkleNode, MerkleProof and MerkleTree of include/core/merkle_tree.h and src/core/merkle_tree.cpp. The
-- hash function is a parameter.
pub mod Height
pub mod Levels
pub mod Leaves
pub mod Changes
pub mod Binding
use deo.Prelude.{
  ℕ, zero, suc, ◌+◌, ◌*◌, Bool, true, false, ◌==◌, ◌&&◌, ◌||◌, not, ltb, if◌then◌else◌, List, [],
  ◌∷◌, ◌++◌, length, replicate, Option, none, some,
}
use deo.Prelude.Texts.{Text, same_text}

-- A std::shared_ptr<MerkleNode>: null, or a node with its hash, whether it is a leaf, and its children.
pub data MerkleNode : Type 0 where
  absent : MerkleNode
  node : Text → Bool → MerkleNode → MerkleNode → MerkleNode

pub record MerkleProof : Type 0 where
  pub leaf_hash : Text
  pub path : List Text
  pub directions : List Bool

pub record MerkleTree : Type 0 where
  pub root : MerkleNode
  pub leaf_hashes : List Text
  pub height : ℕ

abbrev pub hash_of : MerkleNode → Text
hash_of absent = []
hash_of (node hash is_leaf left right) = hash

abbrev pub is_absent : MerkleNode → Bool
is_absent absent = true
is_absent (node hash is_leaf left right) = false

-- while (nodes < leaf_count) { nodes *= 2; height++; }, on fuel. A vector has fewer than 2 ^ 63
-- elements, so the doubling does not wrap.
unfoldable pub height_loop : ℕ → ℕ → ℕ → ℕ → ℕ
height_loop zero leaf_count nodes height = height
height_loop (suc fuel) leaf_count nodes height =
    let rest = height_loop fuel leaf_count (nodes * 2) (height + 1) in
    if ltb nodes leaf_count then rest else height

unfoldable pub calculate_height : ℕ → ℕ
unfolding height_loop
calculate_height leaf_count =
    if leaf_count == 0
    then 0
    else if leaf_count == 1
    then 1
    else height_loop leaf_count leaf_count 1 1

-- std::find over the leaf hashes, and erase of the one that is found first.
unfoldable pub contains : Text → List Text → Bool
contains hash [] = false
contains hash (h ∷ hs) = same_text h hash || contains hash hs

unfoldable pub erase_first : Text → List Text → List Text
erase_first hash [] = []
erase_first hash (h ∷ hs) = if same_text h hash then hs else h ∷ erase_first hash hs

-- collectLeaves
unfoldable pub collect_leaves : MerkleNode → List MerkleNode
collect_leaves absent = []
collect_leaves (node hash true left right) = node hash true left right ∷ []
collect_leaves (node hash false left right) = collect_leaves left ++ collect_leaves right

-- findLeaf, over the leaves.
unfoldable pub find_node : Text → List MerkleNode → MerkleNode
find_node hash [] = absent
find_node hash (leaf ∷ leaves) =
    if not (is_absent leaf) && same_text (hash_of leaf) hash then leaf else find_node hash leaves

unfoldable pub find_leaf : MerkleTree → Text → MerkleNode
unfolding collect_leaves find_node
find_leaf tree hash = find_node hash (collect_leaves tree.root)

abbrev pub no_proof : MerkleProof
no_proof = record { leaf_hash = []; path = []; directions = [] }

-- generateProofFromLeaf, which the source leaves unfinished, with an empty path.
unfoldable pub generate_proof_from_leaf : MerkleNode → MerkleProof
generate_proof_from_leaf leaf = record no_proof { leaf_hash = hash_of leaf }

unfoldable pub generate_proof : MerkleTree → Text → MerkleProof
unfolding find_leaf generate_proof_from_leaf
generate_proof tree hash =
    let leaf = find_leaf tree hash in
    if is_absent tree.root
    then no_proof
    else if is_absent leaf
    then no_proof
    else generate_proof_from_leaf leaf

-- std::string(64, '0')
abbrev pub empty_root : Text
empty_root = replicate 64 b'0'

unfoldable pub get_root : MerkleTree → Text
get_root tree = if is_absent tree.root then empty_root else hash_of tree.root

module _ (sha256 : Text → Text) where
  abbrev pub hash_children : Text → Text → Text
  hash_children left right = sha256 (left ++ right)

  -- The parents of a level. An odd last hash is paired with itself.
  unfoldable pub parent_hashes : List Text → List Text
  parent_hashes [] = []
  parent_hashes (a ∷ []) = hash_children a a ∷ []
  parent_hashes (a ∷ b ∷ rest) = hash_children a b ∷ parent_hashes rest

  -- buildTreeRecursive, on fuel: a level of two or more hashes has fewer parents than hashes.
  unfoldable pub build_levels : ℕ → List Text → MerkleNode
  build_levels fuel [] = absent
  build_levels fuel (h ∷ []) = node h true absent absent
  build_levels zero (a ∷ b ∷ rest) = absent
  build_levels (suc fuel) (a ∷ b ∷ rest) =
      let parent = build_levels fuel (parent_hashes (a ∷ b ∷ rest)) in
      node (hash_of parent) false parent absent

  unfoldable pub build_tree_recursive : List Text → MerkleNode
  unfolding build_levels
  build_tree_recursive hashes = build_levels (length hashes) hashes

  -- buildTree, and the constructor from hashes.
  unfoldable pub build_tree : List Text → MerkleTree
  build_tree hashes = record {
    root = build_tree_recursive hashes;
    leaf_hashes = hashes;
    height = calculate_height (length hashes);
  }

  unfoldable pub add_hash : MerkleTree → Text → MerkleTree
  unfolding build_tree
  add_hash tree [] = tree
  add_hash tree (c ∷ cs) = build_tree (tree.leaf_hashes ++ (c ∷ cs) ∷ [])

  unfoldable pub remove_hash : MerkleTree → Text → MerkleTree × Bool
  unfolding build_tree contains erase_first
  remove_hash tree hash =
      if contains hash tree.leaf_hashes
      then (build_tree (erase_first hash tree.leaf_hashes), true)
      else (tree, false)

  -- The loop of verifyProof. A direction is true where the sibling stands on the right.
  unfoldable pub climb : Text → List Text → List Bool → Text
  climb current [] directions = current
  climb current (sibling ∷ path) [] = current
  climb current (sibling ∷ path) (true ∷ directions) =
      climb (hash_children current sibling) path directions
  climb current (sibling ∷ path) (false ∷ directions) =
      climb (hash_children sibling current) path directions

  unfoldable pub verify_proof : MerkleProof → Text → Bool
  unfolding climb
  verify_proof proof root_hash =
      if length proof.path == 0 || length proof.directions == 0
      then false
      else if not (length proof.path == length proof.directions)
      then false
      else same_text (climb proof.leaf_hash proof.path proof.directions) root_hash

  unfoldable pub verify_inclusion : MerkleTree → Text → Bool
  unfolding generate_proof verify_proof
  verify_inclusion tree hash =
      let proof = generate_proof tree hash in
      if is_absent tree.root
      then false
      else if length proof.path == 0
      then false
      else verify_proof proof (hash_of tree.root)

unfoldable pub contains_hash : MerkleTree → Text → Bool
unfolding contains
contains_hash tree hash = contains hash tree.leaf_hashes

abbrev pub cleared : MerkleTree
cleared = record { root = absent; leaf_hashes = []; height = 0 }

unfoldable pub is_empty : MerkleTree → Bool
is_empty tree = is_absent tree.root || length tree.leaf_hashes == 0
