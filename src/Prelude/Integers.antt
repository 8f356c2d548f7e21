-- ===== src/Prelude/Integers.antt =====
-- Signed integers over the native numbers, with the tests and the limits that the program uses.
use Prim.Native.Nat.{ℕ, ◌+◌, ◌-◌, ◌*◌, ◌^◌, ◌≤◌}
use mathlib.Core.Path.{◌≡◌, refl}
use mathlib.Core.Bool.{Bool, true, false}
use native.Mathlib.Omega.{arith}
use deo.Prelude.Tests.{ltb, leb, ◌==◌, if◌then◌else◌}

-- negsuc n is - (n + 1).
pub data ℤ : Type 0 where
  pos : ℕ → ℤ
  negsuc : ℕ → ℤ

infixl 6 ◌+ℤ◌ ◌-ℤ◌
unfoldable pub ◌+ℤ◌ : ℤ → ℤ → ℤ
pos m +ℤ pos n = pos (m + n)
pos m +ℤ negsuc n = if ltb n m then pos (m - n - 1) else negsuc (n - m)
negsuc m +ℤ pos n = if ltb m n then pos (n - m - 1) else negsuc (m - n)
negsuc m +ℤ negsuc n = negsuc (m + n + 1)

unfoldable pub ◌-ℤ◌ : ℤ → ℤ → ℤ
pos m -ℤ pos n = if leb n m then pos (m - n) else negsuc (n - m - 1)
pos m -ℤ negsuc n = pos (m + n + 1)
negsuc m -ℤ pos n = negsuc (m + n)
negsuc m -ℤ negsuc n = if leb m n then pos (n - m) else negsuc (m - n - 1)

-- A number times a natural one
unfoldable pub times : ℕ → ℤ → ℤ
times k (pos n) = pos (k * n)
times k (negsuc n) = if k == 0 then pos 0 else negsuc (k * (n + 1) - 1)

unfoldable pub less_than : ℤ → ℤ → Bool
less_than (pos m) (pos n) = ltb m n
less_than (pos m) (negsuc n) = false
less_than (negsuc m) (pos n) = true
less_than (negsuc m) (negsuc n) = ltb n m

unfoldable pub same_number : ℤ → ℤ → Bool
same_number (pos m) (pos n) = m == n
same_number (pos m) (negsuc n) = false
same_number (negsuc m) (pos n) = false
same_number (negsuc m) (negsuc n) = m == n

-- std::max(0, n)
unfoldable pub not_negative : ℤ → ℤ
not_negative (pos n) = pos n
not_negative (negsuc n) = pos 0

-- A signed type of w + 1 bits
unfoldable pub fits_signed : ℕ → ℤ → Bool
fits_signed w (pos n) = ltb n (2 ^ w)
fits_signed w (negsuc n) = ltb n (2 ^ w)

unfoldable pub reaches : ℕ → ℤ → Bool
reaches k (pos n) = leb k n
reaches k (negsuc n) = false

pub reaches-not_negative :
    (k n : ℕ) (x : ℤ)
    → reaches (k + 1) x ≡ false
    → reaches (k + 1) (not_negative (x -ℤ pos n)) ≡ false
unfolding reaches not_negative ◌-ℤ◌
reaches-not_negative k n (pos m) h = ground (arith, h)
reaches-not_negative k n (negsuc m) h = ground arith

pub less_than_later :
    (x : ℤ) (m n : ℕ) → m ≤ n → less_than x (pos m) ≡ true → less_than x (pos n) ≡ true
unfolding less_than
less_than_later (pos k) m n h e = ground (arith, e)
less_than_later (negsuc k) m n h e = refl
