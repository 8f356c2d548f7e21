-- ===== src/Tests/Trees.antt =====
-- The theorems on Merkle trees at given leaves.
use deo.Prelude.{◌⊎◌, ◌≡◌, ◌≢◌, refl, ap, true, false, [], ◌∷◌, length, take, arith}
use deo.Prelude.Texts.{Text, same_text}
use deo.Merkle.{MerkleTree, build_tree, add_hash, remove_hash, contains, contains_hash}
use deo.Merkle.{MerkleProof, verify_proof}
use deo.Merkle.Binding.{HashTree, leaf, node, root_hash, StandsIn, Collision, verify_proof-StandsIn}
use deo.Merkle.Changes.{IsBuilt, build_tree-IsBuilt, remove_hash-add_hash}

-- A stand-in for a hash: the first two characters.
abbrev shortened : Text → Text
shortened t = take 2 t

abbrev first : Text
first = b'a' ∷ []

abbrev second : Text
second = b'b' ∷ []

abbrev third : Text
third = b'c' ∷ []

abbrev pair : MerkleTree
pair = build_tree shortened (first ∷ second ∷ [])

pair-IsBuilt : IsBuilt shortened pair
pair-IsBuilt = build_tree-IsBuilt shortened (first ∷ second ∷ [])

third_some : third ≢ []
third_some e = omega (arith, ap (λ (t : Text). length t) e)

third_new : contains_hash pair third ≡ false
unfolding contains_hash contains build_tree same_text
third_new = refl

remove_hash-add_hash_example :
    remove_hash shortened (add_hash shortened pair third) third ≡ (pair, true)
remove_hash-add_hash_example =
    remove_hash-add_hash shortened pair third pair-IsBuilt third_some third_new

abbrev two_leaves : HashTree
two_leaves = node (leaf first) (leaf second)

abbrev one_step : MerkleProof
one_step = record { leaf_hash = first; path = second ∷ []; directions = true ∷ [] }

first-StandsIn : StandsIn shortened two_leaves one_step.leaf_hash one_step.path one_step.directions
unfolding root_hash
first-StandsIn = StandsIn.on_the_left (StandsIn.alone first)

verify_proof-StandsIn_example :
    (verify_proof shortened one_step (root_hash shortened two_leaves) ≡ true)
    × ((verify_proof shortened
            (record one_step { leaf_hash = third })
            (root_hash shortened two_leaves)
          ≡ false)
        ⊎ ((third ≡ one_step.leaf_hash) ⊎ Collision shortened))
verify_proof-StandsIn_example =
    verify_proof-StandsIn shortened two_leaves one_step third first-StandsIn (omega arith)
