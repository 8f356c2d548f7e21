-- ===== src/Prelude/Texts.antt =====
-- Texts, std::string in the source: lists of character codes.
use deo.Prelude.Tests.{◌==◌}
use deo.Prelude.Maps.{Key}
use Prim.Native.Nat.{ℕ}
use mathlib.Core.Path.{◌≡◌, refl}
use mathlib.Core.Logic.{◌↔◌}
use mathlib.Core.Bool.{Bool, true, false, ◌&&◌}
use mathlib.Core.List.{List, [], ◌∷◌}
use native.Mathlib.Omega.{arith}

abbrev pub Text : Type 0
Text = List ℕ

unfoldable pub same_text : Text → Text → Bool
same_text [] [] = true
same_text [] (b ∷ bs) = false
same_text (a ∷ as_) [] = false
same_text (a ∷ as_) (b ∷ bs) = a == b && same_text as_ bs

pub same_text_iff : (a b : Text) → (same_text a b ≡ true) ↔ (a ≡ b)
unfolding same_text
same_text_iff [] [] = (λ _. refl, λ _. refl)
same_text_iff [] (b ∷ bs) = (λ h. cc, λ h. cc)
same_text_iff (a ∷ as_) [] = (λ h. cc, λ h. cc)
same_text_iff (a ∷ as_) (b ∷ bs) = ground (arith, same_text_iff as_ bs)

instance abbrev pub text_key : Key Text
text_key = record { same = same_text; same_iff = same_text_iff }
