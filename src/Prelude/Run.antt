-- ===== src/Prelude/Run.antt =====
-- The outcome of C++ code: a value, an exception, undefined behaviour, or a loop that has used up
-- its fuel. An exception is named for the `throw` that raises it; its text is not modelled.
use mathlib.Core.Path.{◌≡◌, refl}
use mathlib.Core.Bool.{Bool, true, false}
use deo.Prelude.Tests.{if◌then◌else◌}

pub data Exception : Type 0 where
  add_overflow sub_underflow mul_overflow division_by_zero modulo_by_zero modulo_failed : Exception
  hex_too_long bad_hex odd_hex byte_position u64_overflow : Exception
  stack_underflow stack_overflow push_size push_bounds vm_add_overflow : Exception
  bad_jump bad_alloc invalid_instruction unknown_opcode : Exception

pub data Run {ℓ} (A : Type ℓ) : Type ℓ where
  ok : A → Run A
  throws : Exception → Run A
  undefined : Run A
  no_fuel : Run A

-- What follows a call, where the call comes back.
infixl 5 ◌>>=◌
abbrev pub ◌>>=◌ {ℓ κ} : {A : Type ℓ} {B : Type κ} → Run A → (A → Run B) → Run B
undefined >>= go_on = undefined
no_fuel >>= go_on = no_fuel
throws x >>= go_on = throws x
ok value >>= go_on = go_on value

-- What holds of the value, if there is one.
abbrev pub Holds {ℓ κ} : {A : Type ℓ} → (A → Type κ) → Run A → Type κ
Holds P (ok a) = P a
Holds P (throws e) = Unit
Holds P undefined = Unit
Holds P no_fuel = Unit

module _ {ℓ κ} {A : Type ℓ} {B : Type κ} where
  pub Holds-bind {ι υ} :
      (P : A → Type ι) (Q : B → Type υ) (m : Run A) (f : A → Run B)
      → Holds P m
      → ((a : A) → P a → Holds Q (f a))
      → Holds Q (m >>= f)
  Holds-bind P Q (ok a) f h k = k a h
  Holds-bind P Q (throws e) f h k = tt
  Holds-bind P Q undefined f h k = tt
  Holds-bind P Q no_fuel f h k = tt

pub Holds_at {ℓ κ} : {A : Type ℓ} (P : A → Type κ) (m : Run A) (a : A) → Holds P m → m ≡ ok a → P a
Holds_at P (ok b) a h e = let e' : b ≡ a = cc in rw (e') at h
Holds_at P (throws x) a h e = absurd (cc)
Holds_at P undefined a h e = absurd (cc)
Holds_at P no_fuel a h e = absurd (cc)

-- The rule for a chain of which only the last step matters.
pub Holds-then {ℓ κ ι} :
    {A : Type ℓ} {B : Type κ} (P : B → Type ι) (m : Run A) (f : A → Run B)
    → ((a : A) → Holds P (f a))
    → Holds P (m >>= f)
Holds-then P (ok a) f k = k a
Holds-then P (throws e) f k = tt
Holds-then P undefined f k = tt
Holds-then P no_fuel f k = tt

-- The last step may use what the earlier one came back with.
pub Holds-then_at {ℓ κ ι} :
    {A : Type ℓ} {B : Type κ} (P : B → Type ι) (m : Run A) (f : A → Run B)
    → ((a : A) → m ≡ ok a → Holds P (f a))
    → Holds P (m >>= f)
Holds-then_at P (ok a) f k = k a refl
Holds-then_at P (throws e) f k = tt
Holds-then_at P undefined f k = tt
Holds-then_at P no_fuel f k = tt

pub Holds-if {ℓ κ} :
    {A : Type ℓ} (P : A → Type κ) (b : Bool) (m n : Run A)
    → (b ≡ true → Holds P m)
    → (b ≡ false → Holds P n)
    → Holds P (if b then m else n)
Holds-if P true m n h k = h refl
Holds-if P false m n h k = k refl

pub Holds-mono {ℓ κ ι} :
    {A : Type ℓ} (P : A → Type κ) (Q : A → Type ι) (m : Run A)
    → ((a : A) → P a → Q a)
    → Holds P m
    → Holds Q m
Holds-mono P Q (ok a) f h = f a h
Holds-mono P Q (throws e) f h = tt
Holds-mono P Q undefined f h = tt
Holds-mono P Q no_fuel f h = tt

pub throws-bind {ℓ κ} :
    {A : Type ℓ} {B : Type κ} (m : Run A) (f : A → Run B) (e : Exception)
    → m ≡ throws e
    → (m >>= f) ≡ throws e
throws-bind m f e h = rw h refl

-- The code comes back, or throws.
abbrev pub Settles {ℓ} : {A : Type ℓ} → Run A → Type 0
Settles (ok a) = Unit
Settles (throws e) = Unit
Settles undefined = ⊥
Settles no_fuel = ⊥

pub Settles-bind {ℓ κ} :
    {A : Type ℓ} {B : Type κ} (m : Run A) (f : A → Run B)
    → Settles m
    → ((a : A) → Settles (f a))
    → Settles (m >>= f)
Settles-bind (ok a) f h k = k a
Settles-bind (throws e) f h k = tt
Settles-bind undefined f h k = h
Settles-bind no_fuel f h k = h

pub Settles-if {ℓ} :
    {A : Type ℓ} (b : Bool) (m n : Run A) → Settles m → Settles n → Settles (if b then m else n)
Settles-if true m n h k = h
Settles-if false m n h k = k
