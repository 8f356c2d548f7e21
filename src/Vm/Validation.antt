-- ===== src/Vm/Validation.antt =====
-- validateBytecode of src/vm/virtual_machine.cpp.
use deo.Prelude.{
  ℕ, zero, suc, Bool, true, false, ltb, if◌then◌else◌, List, [], ◌∷◌, length, drop, not,
}
use deo.Vm.Opcode.{Opcode, push, decode, is_valid_opcode, in_push_range}

-- static_cast<uint8_t>(opcode) - 0x5F for a PUSH.
abbrev pub push_data_size : Opcode → ℕ
push_data_size (push n) = n
push_data_size _ = 0

-- The loop, on the code from position `i` on. A round takes at least one byte, so as many rounds as
-- there are bytes are enough.
unfoldable pub validate_from : ℕ → List ℕ → Bool
validate_from zero code = true
validate_from (suc rounds) [] = true
validate_from (suc rounds) (b ∷ rest) =
    let op = decode b in
    let next = validate_from rounds rest in
    let after_data = validate_from rounds (drop (push_data_size op) rest) in
    if not (is_valid_opcode op)
    then false
    else if in_push_range op
    then if ltb (length rest) (push_data_size op) then false else after_data
    else next

unfoldable pub validate_bytecode : List ℕ → Bool
unfolding validate_from
validate_bytecode code = validate_from (length code) code
