-- ===== src/Merkle/Binding.antt =====
-- What verifyProof of src/core/merkle_tree.cpp accepts: the leaves of a tree of hashes, but for collisions.
use deo.Prelude.{
  ℕ, ◌<◌, ◌≡◌, ◌≢◌, ◌⊎◌, inl, inr, Bool-cases, refl, sym, ap, ◌∙◌, Bool, true, false, List, [], ◌∷◌,
  ◌++◌, length, length-append, arith,
}
use deo.Prelude.Texts.{Text, same_text, same_text_iff}
use deo.Merkle.{MerkleProof, climb, verify_proof}

tail_of : Text → Text
tail_of [] = []
tail_of (c ∷ t) = t

head_of : Text → ℕ
head_of [] = 0
head_of (c ∷ t) = c

append_cancel_left : (s a b : Text) → s ++ a ≡ s ++ b → a ≡ b
append_cancel_left [] a b e = e
append_cancel_left (c ∷ s) a b e = append_cancel_left s a b (unfold tail_of in ap tail_of e)

append_cancel_right : (s a b : Text) → a ++ s ≡ b ++ s → a ≡ b
append_cancel_right s [] [] e = refl
append_cancel_right s [] (d ∷ b) e =
    absurd (omega (arith, ap (λ (t : Text). length t) e, length-append b s))
append_cancel_right s (c ∷ a) [] e =
    absurd (omega (arith, ap (λ (t : Text). length t) e, length-append a s))
append_cancel_right s (c ∷ a) (d ∷ b) e =
    let heads : c ≡ d = unfold head_of in ap head_of e in
    rw (heads, append_cancel_right s a b (unfold tail_of in ap tail_of e)) refl

-- A tree of hashes, apart from any levels.
pub data HashTree : Type 0 where
  leaf : Text → HashTree
  node : (left right : HashTree) → HashTree

module _ (sha256 : Text → Text) where
  unfoldable pub root_hash : HashTree → Text
  root_hash (leaf hash) = hash
  root_hash (node left right) = sha256 (root_hash left ++ root_hash right)

  -- Where a leaf stands: the siblings on its way to the root, and whether each stands to its right.
  pub data StandsIn : HashTree → Text → List Text → List Bool → Type 0 where
    alone : (hash : Text) → StandsIn (leaf hash) hash [] []
    on_the_left :
        {left right : HashTree} {hash : Text} {path : List Text} {directions : List Bool}
        → StandsIn left hash path directions
        → StandsIn (node left right) hash (path ++ root_hash right ∷ []) (directions ++ true ∷ [])
    on_the_right :
        {left right : HashTree} {hash : Text} {path : List Text} {directions : List Bool}
        → StandsIn right hash path directions
        → StandsIn (node left right) hash (path ++ root_hash left ∷ []) (directions ++ false ∷ [])

  StandsIn-length :
      {tree : HashTree} {hash : Text} {path : List Text} {directions : List Bool}
      → StandsIn tree hash path directions
      → length path ≡ length directions
  StandsIn-length (alone hash) = refl
  StandsIn-length (on_the_left {left} {right} {hash} {path} {directions} s) = omega (
    arith,
    StandsIn-length s,
    length-append path (root_hash right ∷ []),
    length-append directions (true ∷ []),
  )
  StandsIn-length (on_the_right {left} {right} {hash} {path} {directions} s) = omega (
    arith,
    StandsIn-length s,
    length-append path (root_hash left ∷ []),
    length-append directions (false ∷ []),
  )

  abbrev joined : Bool → Text → Text → Text
  joined true current sibling = sha256 (current ++ sibling)
  joined false current sibling = sha256 (sibling ++ current)

  climb-append :
      (current sibling : Text) (path : List Text) (directions : List Bool) (right : Bool)
      → length path ≡ length directions
      → climb sha256 current (path ++ sibling ∷ []) (directions ++ right ∷ [])
        ≡ joined right (climb sha256 current path directions) sibling
  unfolding climb
  climb-append current sibling [] [] true e = refl
  climb-append current sibling [] [] false e = refl
  climb-append current sibling [] (d ∷ directions) right e = absurd (omega (arith, e))
  climb-append current sibling (s ∷ path) [] right e = absurd (omega (arith, e))
  climb-append current sibling (s ∷ path) (true ∷ directions) right e =
      climb-append (sha256 (current ++ s)) sibling path directions right (omega (arith, e))
  climb-append current sibling (s ∷ path) (false ∷ directions) right e =
      climb-append (sha256 (s ++ current)) sibling path directions right (omega (arith, e))

  StandsIn-climb :
      {tree : HashTree} {hash : Text} {path : List Text} {directions : List Bool}
      → StandsIn tree hash path directions
      → climb sha256 hash path directions ≡ root_hash tree
  unfolding climb root_hash
  StandsIn-climb (alone hash) = refl
  StandsIn-climb (on_the_left {left} {right} {hash} {path} {directions} s) =
      climb-append hash (root_hash right) path directions true (StandsIn-length s)
      ∙ ap (λ (t : Text). sha256 (t ++ root_hash right)) (StandsIn-climb s)
  StandsIn-climb (on_the_right {left} {right} {hash} {path} {directions} s) =
      climb-append hash (root_hash left) path directions false (StandsIn-length s)
      ∙ ap (λ (t : Text). sha256 (root_hash left ++ t)) (StandsIn-climb s)

  -- Two texts of one hash.
  abbrev pub Collision : Type 0
  Collision = (a : Text) × (b : Text) × (a ≢ b) × (sha256 a ≡ sha256 b)

  same_parent : (a b c d : Text) → sha256 c ≡ sha256 d → (c ≡ d → a ≡ b) → (a ≡ b) ⊎ Collision
  same_parent a b c d e back = elim (Bool-cases (same_text c d)) [
    | inl same ↦ inl (back ((same_text_iff c d).0 same))
    | inr apart ↦ inr (c, d, (λ same. absurd (cc ((same_text_iff c d).1 same))), e)
  ]

  -- A path takes different leaves to different roots, but for a collision.
  climb_collides :
      (path : List Text) (directions : List Bool) (a b : Text)
      → climb sha256 a path directions ≡ climb sha256 b path directions
      → (a ≡ b) ⊎ Collision
  unfolding climb
  climb_collides [] directions a b e = inl e
  climb_collides (s ∷ path) [] a b e = inl e
  climb_collides (s ∷ path) (true ∷ directions) a b e =
      elim (climb_collides path directions (sha256 (a ++ s)) (sha256 (b ++ s)) e) [
        | inl same ↦ same_parent a b (a ++ s) (b ++ s) same (append_cancel_right s a b)
        | inr collision ↦ inr collision
      ]
  climb_collides (s ∷ path) (false ∷ directions) a b e =
      elim (climb_collides path directions (sha256 (s ++ a)) (sha256 (s ++ b)) e) [
        | inl same ↦ same_parent a b (s ++ a) (s ++ b) same (append_cancel_left s a b)
        | inr collision ↦ inr collision
      ]

  climbs_to :
      (proof : MerkleProof) (root : Text)
      → verify_proof sha256 proof root ≡ true
      → climb sha256 proof.leaf_hash proof.path proof.directions ≡ root
  unfolding verify_proof
  climbs_to proof root e =
      (same_text_iff (climb sha256 proof.leaf_hash proof.path proof.directions) root).0
        (ground (arith, e))

  -- The proof of a leaf of a tree of hashes other than a single leaf, with the siblings on its way to the root
  -- and their sides, is accepted for the root. Where a proof with the same way is accepted for another leaf,
  -- there are two texts of one hash.
  pub verify_proof-StandsIn :
      (tree : HashTree) (proof : MerkleProof) (other : Text)
      → StandsIn tree proof.leaf_hash proof.path proof.directions
      → 0 < length proof.path
      → (verify_proof sha256 proof (root_hash tree) ≡ true)
        × ((verify_proof sha256 (record proof { leaf_hash = other }) (root_hash tree) ≡ false)
            ⊎ ((other ≡ proof.leaf_hash) ⊎ Collision))
  unfolding verify_proof
  verify_proof-StandsIn tree proof other stands some_way =
      let root = root_hash tree in
      let climbs = StandsIn-climb stands in
      let sizes = StandsIn-length stands in
      (
        ground (
          arith,
          climbs,
          sizes,
          some_way,
          same_text_iff (climb sha256 proof.leaf_hash proof.path proof.directions) root,
        ),
        elim (Bool-cases (verify_proof sha256 (record proof { leaf_hash = other }) root)) [
          | inr refused ↦ inl refused
          | inl accepted ↦ inr (
              climb_collides proof.path proof.directions other proof.leaf_hash
                (climbs_to (record proof { leaf_hash = other }) root accepted ∙ sym climbs))
        ],
      )
