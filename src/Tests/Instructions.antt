-- ===== src/Tests/Instructions.antt =====
-- The theorems on instructions at given states.
use deo.Prelude.{ℕ, ◌+◌, ◌≡◌, refl, List, [], ◌∷◌, length, arith, ◌↔◌, true}
use deo.Prelude.Run.{ok, throws, stack_underflow, Holds}
use deo.Uint256.{Uint256, of_u64}
use deo.Uint256.Value.{of_u64-IsWord}
use deo.Vm.Opcode.{add_, jump}
use deo.Vm.State.{VmState}
use deo.Vm.Memory.{handle_mload, handle_mstore}
use deo.Vm.Interpreter.{execute_instruction}
use deo.Vm.Validation.{validate_bytecode}
use deo.Vm.Programs.{IsProgram, validate_bytecode-IsProgram}
use deo.Vm.StackEffect.{needs, leaves, execute_instruction-Effect}
use deo.Vm.Underflow.{execute_instruction_underflow}
use deo.Vm.Jumps.{PcAfter, execute_instruction-PcAfter}
use deo.Vm.MemoryRoundTrip.{mload-mstore}
use deo.Tests.Runs.{host, fresh, context_for, state_with, adds}

abbrev one : Uint256
one = of_u64 1

abbrev two : Uint256
two = of_u64 2

abbrev three : Uint256
three = of_u64 3

abbrev two_words : VmState
two_words = state_with (one ∷ two ∷ [])

abbrev three_words : VmState
three_words = state_with (one ∷ two ∷ three ∷ [])

execute_instruction_underflow_example :
    execute_instruction host (context_for adds 100) add_ fresh (state_with (one ∷ []))
    ≡ throws stack_underflow
execute_instruction_underflow_example =
    execute_instruction_underflow host (context_for adds 100) add_ fresh (state_with (one ∷ []))
      (unfold needs in omega arith)

execute_instruction-Effect_example :
    Holds
      (λ r. length r.1.stack + needs add_ ≡ length two_words.stack + leaves add_)
      (execute_instruction host (context_for adds 100) add_ fresh two_words)
execute_instruction-Effect_example =
    execute_instruction-Effect host (context_for adds 100) add_ fresh two_words

-- JUMPDEST, JUMPDEST
abbrev landing : List ℕ
landing = 0x5b ∷ 0x5b ∷ []

execute_instruction-PcAfter_example :
    Holds
      (λ r. PcAfter (context_for landing 100) jump two_words r.1)
      (execute_instruction host (context_for landing 100) jump fresh two_words)
execute_instruction-PcAfter_example =
    execute_instruction-PcAfter host (context_for landing 100) jump fresh two_words

mload-mstore_example :
    (memory : List ℕ) × (handle_mstore host two_words
      ≡ ok (record two_words { stack = []; memory = memory }))
    × (handle_mload host (record three_words { memory = memory })
        ≡ ok (record three_words { stack = two ∷ two ∷ three ∷ []; memory = memory }))
mload-mstore_example =
    mload-mstore host 1 two two_words [] three_words (two ∷ three ∷ []) refl refl
      (of_u64-IsWord 2 (omega arith)) (omega arith) refl

validate_bytecode-IsProgram_example : (validate_bytecode adds ≡ true) ↔ IsProgram adds
validate_bytecode-IsProgram_example = validate_bytecode-IsProgram adds

-- PUSH2 of 258
abbrev pushing : List ℕ
pushing = 0x61 ∷ 1 ∷ 2 ∷ []
