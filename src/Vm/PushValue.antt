-- ===== src/Vm/PushValue.antt =====
-- handlePush of src/vm/instruction_handlers.cpp against the big-endian number of its bytes.
use deo.Prelude.{
  ℕ, zero, suc, ◌+◌, ◌*◌, ◌^◌, ◌≤◌, ◌<◌, ◌≡◌, refl, sym, ap, ◌∙◌, Bool-cases, inl, inr, ltb, lt→ltb,
  le→ltb, ltb→lt, ltb→le, if◌then◌else◌, List, ◌∷◌, length, get_or, All, All-get_or, arith,
}
use deo.Prelude.Run.{ok, throws, mul_overflow}
use deo.Uint256
use deo.Uint256.{Uint256, radix, of_u64}
use deo.Uint256.Product
use deo.Uint256.Product.Limbwise.{mul_by_u64, mul_u64}
use deo.Uint256.Sum.{add_exact}
use deo.Uint256.Quotient.Loop.{u64-IsCarrySafe}
use deo.Uint256.Value.{of_u64-IsWord, to_ℕ-of_u64, u64-of_ℕ}
use deo.Vm.State.{VmState}
use deo.Vm.Arithmetic.{push_value, handle_push}

-- `n` bytes of the code from `at` on, the highest first, after the value `v`.
pub big_endian : ℕ → List ℕ → ℕ → ℕ → ℕ
big_endian zero code at v = v
big_endian (suc n) code at v = big_endian n code (at + 1) (v * 256 + get_or code at 0)

big_endian-ge : (n : ℕ) (code : List ℕ) (at v : ℕ) → v ≤ big_endian n code at v
unfolding big_endian
big_endian-ge zero code at v = omega arith
big_endian-ge (suc n) code at v =
    omega (arith, big_endian-ge n code (at + 1) (v * 256 + get_or code at 0))

shift_fits :
    (v : ℕ)
    → v < radix
    → v * 256 < radix
    → Product.mul (of_u64 v) (of_u64 256) ≡ ok (of_u64 (v * 256))
shift_fits v h k = mul_u64 v 256 h (omega arith) k

shift_overflows :
    (v : ℕ)
    → v < radix
    → radix ≤ v * 256
    → Product.mul (of_u64 v) (of_u64 256) ≡ throws mul_overflow
unfolding of_u64
shift_overflows v h k =
    rw (mul_by_u64 (of_u64 v) 256 (of_u64-IsWord v h) (omega arith)) (ground arith)

add_byte :
    (v b : ℕ)
    → v < radix
    → b < radix
    → v + b < radix
    → Uint256.add (of_u64 v) (of_u64 b) ≡ ok (of_u64 (v + b))
add_byte v b h k fits =
    add_exact (of_u64 v) (of_u64 b) (of_u64-IsWord v h) (of_u64-IsWord b k) (u64-IsCarrySafe b)
    ∙ rw (to_ℕ-of_u64 v, to_ℕ-of_u64 b, lt→ltb (v + b) (2 ^ 256) (omega arith))
        (ap ok (sym (u64-of_ℕ (v + b) fits)))

-- The loop reads the bytes as one number, and throws as soon as that passes 64 bits.
push_value_lem :
    (n : ℕ) (code : List ℕ) (at v : ℕ)
    → All (λ b. b < 256) code
    → v < radix
    → push_value n code at (of_u64 v) ≡ (
        if ltb (big_endian n code at v) radix
        then ok (of_u64 (big_endian n code at v))
        else throws mul_overflow)
unfolding push_value big_endian
push_value_lem zero code at v bytes h = rw (lt→ltb v radix h) refl
push_value_lem (suc n) code at v bytes h =
    let byte : get_or code at 0 < 256 = All-get_or (λ b. b < 256) code at 0 bytes (omega arith) in
    let next = v * 256 + get_or code at 0 in
    elim (Bool-cases (ltb (v * 256) radix)) [
      | inl fits ↦
          rw
            (
              shift_fits v h (ltb→lt (v * 256) radix fits),
              add_byte (v * 256) (get_or code at 0) (ltb→lt (v * 256) radix fits) (omega arith)
                  (ground (arith, fits)),
            )
            (push_value_lem n code (at + 1) next bytes (ground (arith, fits)))
      | inr over ↦
          rw
            (
              shift_overflows v h (ltb→le (v * 256) radix over),
              le→ltb (big_endian n code (at + 1) next) radix
                  (ground (arith, over, big_endian-ge n code (at + 1) next)),
            )
            refl
    ]

-- PUSHn for n up to 32, with room on the stack and its n bytes in the code, pushes their big-endian
-- number if that fits 64 bits, and otherwise throws.
pub handle_push_exact :
    (code : List ℕ) (n : ℕ) (st : VmState)
    → All (λ b. b < 256) code
    → length st.stack < 1024
    → n ≤ 32
    → st.pc + 1 + n ≤ length code
    → let value = big_endian n code (st.pc + 1) 0 in
      handle_push code n st ≡ (
        if ltb value radix
        then ok (record st { stack = of_u64 value ∷ st.stack; pc = st.pc + n + 1 })
        else throws mul_overflow)
unfolding handle_push
handle_push_exact code n st bytes room small there =
    rw (push_value_lem n code (st.pc + 1) 0 bytes (omega arith)) (ground arith)
