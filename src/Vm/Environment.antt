-- ===== src/Vm/Environment.antt =====
-- The handlers of src/vm/instruction_handlers.cpp that read the execution context.
use deo.Prelude.{ℕ, ◌+◌, ◌*◌, ◌%◌, leb, if◌then◌else◌, [], ◌∷◌, ◌++◌, length}
use deo.Prelude.Run.{Run, ok, throws, undefined, no_fuel, ◌>>=◌}
use deo.Uint256.{Uint256, radix, of_u64, to_u64}
use deo.Uint256.Hex
use deo.Prelude.Texts.{Text}
use deo.Vm.State.{VmState, ExecutionContext, with1, pushed}
use deo.Vm.Memory.{read_uint256}

-- catch (const std::exception&) { address = uint256_t(0); }
abbrev or_zero : Run Uint256 → Run Uint256
or_zero (ok a) = ok a
or_zero (throws e) = ok (of_u64 0)
or_zero undefined = undefined
or_zero no_fuel = no_fuel

-- A hexadecimal address as a word; an address that is empty or cannot be read is zero.
unfoldable pub address_word : Text → Run Uint256
address_word [] = ok (of_u64 0)
address_word (c ∷ cs) = or_zero (Hex.of_hex (b'0' ∷ b'x' ∷ Hex.without_0x (c ∷ cs)))

abbrev push_word : VmState → Uint256 → VmState
push_word st value = pushed st value st.stack

unfoldable pub handle_address : ExecutionContext → VmState → Run VmState
handle_address context st = do
  address ← address_word context.contract_address
  ok (push_word st address)

unfoldable pub handle_caller : ExecutionContext → VmState → Run VmState
handle_caller context st = do caller ← address_word context.caller_address; ok (push_word st caller)

unfoldable pub handle_coinbase : ExecutionContext → VmState → Run VmState
handle_coinbase context st = do
  coinbase ← address_word context.block_coinbase
  ok (push_word st coinbase)

unfoldable pub handle_pc : VmState → Run VmState
handle_pc st = ok (push_word st (of_u64 st.pc))

unfoldable pub handle_msize : VmState → Run VmState
handle_msize st = ok (push_word st (of_u64 (length st.memory)))

unfoldable pub handle_gas : VmState → Run VmState
handle_gas st = ok (push_word st (of_u64 st.gas_remaining))

unfoldable pub handle_callvalue : ExecutionContext → VmState → Run VmState
handle_callvalue context st = ok (push_word st (of_u64 context.value))

unfoldable pub handle_calldatasize : ExecutionContext → VmState → Run VmState
handle_calldatasize context st = ok (push_word st (of_u64 (length context.input_data)))

unfoldable pub handle_codesize : ExecutionContext → VmState → Run VmState
handle_codesize context st = ok (push_word st (of_u64 (length context.code)))

unfoldable pub handle_gasprice : ExecutionContext → VmState → Run VmState
handle_gasprice context st = ok (push_word st (of_u64 context.gas_price))

unfoldable pub handle_timestamp : ExecutionContext → VmState → Run VmState
handle_timestamp context st = ok (push_word st (of_u64 context.block_timestamp))

unfoldable pub handle_number : ExecutionContext → VmState → Run VmState
handle_number context st = ok (push_word st (of_u64 context.block_number))

unfoldable pub handle_difficulty : VmState → Run VmState
handle_difficulty st = ok (push_word st (of_u64 1))

unfoldable pub handle_gaslimit : ExecutionContext → VmState → Run VmState
handle_gaslimit context st = ok (push_word st (of_u64 context.gas_limit))

unfoldable pub handle_calldataload : ExecutionContext → VmState → Run VmState
handle_calldataload context st =
    with1
      (λ offset s. do
        at ← to_u64 offset
        value ←
            if leb (length context.input_data) at
            then ok (of_u64 0)
            else read_uint256 context.input_data at
        ok (pushed st value s))
      st.stack

-- hash_value = hash_value * 31 + byte
unfoldable pub text_hash : Text → ℕ → ℕ
text_hash [] hash_value = hash_value
text_hash (c ∷ cs) hash_value = text_hash cs ((hash_value * 31 + c) % radix)

-- The characters of "block_".
abbrev block_prefix : Text
block_prefix = b'b' ∷ b'l' ∷ b'o' ∷ b'c' ∷ b'k' ∷ b'_' ∷ []

unfoldable pub handle_blockhash : ExecutionContext → VmState → Run VmState
unfolding text_hash
handle_blockhash context st =
    with1
      (λ block_number s. do
        height ← to_u64 block_number
        ok (
            pushed st
              (if leb height context.block_number
                then of_u64 (text_hash (block_prefix ++ Hex.to_string block_number) 0)
                else of_u64 0)
              s))
      st.stack
