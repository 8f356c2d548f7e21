-- ===== src/Vm/Rules.antt =====
-- Rules for what holds after a handler, by the way the handler takes its operands.
use deo.Prelude.{◌+◌, ◌<◌, ◌≡◌, refl, List, [], ◌∷◌, length, arith}
use deo.Prelude.Run.{Run, throws, stack_underflow, Holds, Holds-then, Holds-if}
use deo.Uint256.{Uint256}
use deo.Vm.State.{with1, with2, with3}

module _ {ℓ κ} {A : Type ℓ} (P : A → Type κ) where
  pub with1-Holds :
      (k : Uint256 → List Uint256 → Run A) (s : List Uint256)
      → ((a : Uint256) (r : List Uint256) → length s ≡ length r + 1 → Holds P (k a r))
      → Holds P (with1 k s)
  with1-Holds k [] h = tt
  with1-Holds k (a ∷ s) h = h a s (omega arith)

  pub with2-Holds :
      (k : Uint256 → Uint256 → List Uint256 → Run A) (s : List Uint256)
      → ((a b : Uint256) (r : List Uint256) → length s ≡ length r + 2 → Holds P (k a b r))
      → Holds P (with2 k s)
  with2-Holds k [] h = tt
  with2-Holds k (a ∷ []) h = tt
  with2-Holds k (a ∷ b ∷ s) h = h a b s (omega arith)

  pub with3-Holds :
      (k : Uint256 → Uint256 → Uint256 → List Uint256 → Run A) (s : List Uint256)
      → ((a b c : Uint256) (r : List Uint256) → length s ≡ length r + 3 → Holds P (k a b c r))
      → Holds P (with3 k s)
  with3-Holds k [] h = tt
  with3-Holds k (a ∷ []) h = tt
  with3-Holds k (a ∷ b ∷ []) h = tt
  with3-Holds k (a ∷ b ∷ c ∷ s) h = h a b c s (omega arith)

-- With too few words on the stack nothing else is looked at.
module _ {ℓ} {A : Type ℓ} where
  pub with1_short :
      (k : Uint256 → List Uint256 → Run A) (s : List Uint256)
      → length s < 1
      → with1 k s ≡ throws stack_underflow
  with1_short k [] h = refl
  with1_short k (a ∷ s) h = absurd (omega arith)

  pub with2_short :
      (k : Uint256 → Uint256 → List Uint256 → Run A) (s : List Uint256)
      → length s < 2
      → with2 k s ≡ throws stack_underflow
  with2_short k [] h = refl
  with2_short k (a ∷ []) h = refl
  with2_short k (a ∷ b ∷ s) h = absurd (omega arith)

  pub with3_short :
      (k : Uint256 → Uint256 → Uint256 → List Uint256 → Run A) (s : List Uint256)
      → length s < 3
      → with3 k s ≡ throws stack_underflow
  with3_short k [] h = refl
  with3_short k (a ∷ []) h = refl
  with3_short k (a ∷ b ∷ []) h = refl
  with3_short k (a ∷ b ∷ c ∷ s) h = absurd (omega arith)

pub ruleset short_rules = (with1_short, with2_short, with3_short)

pub ruleset handler_rules = (with1-Holds, with2-Holds, with3-Holds, Holds-then, Holds-if)
