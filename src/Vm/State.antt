-- ===== src/Vm/State.antt =====
-- VMState, ExecutionContext and the members of VirtualMachine, and how a handler takes its operands.
-- VMState::storage and account_nonces_ are never used by the code and are left out.
use deo.Prelude.{ℕ, List, [], ◌∷◌, Bool, false}
use deo.Prelude.Run.{Run, throws, stack_underflow}
use deo.Prelude.Maps.{Map}
use deo.Prelude.Texts.{Text}
use deo.Uint256.{Uint256}

-- The top of the stack is the head of the list.
pub record VmState : Type 0 where
  pub stack : List Uint256
  pub memory : List ℕ
  pub pc : ℕ
  pub gas_remaining : ℕ
  pub halted : Bool

unfoldable pub initial_state : ℕ → VmState
initial_state gas_limit = record {
  stack = [];
  memory = [];
  pc = 0;
  gas_remaining = gas_limit;
  halted = false;
}

pub record ExecutionContext : Type 0 where
  pub code : List ℕ
  pub input_data : List ℕ
  pub caller_address : Text
  pub contract_address : Text
  pub gas_limit : ℕ
  pub gas_price : ℕ
  pub value : ℕ
  pub block_number : ℕ
  pub block_timestamp : ℕ
  pub block_coinbase : Text

-- The members that outlive one execution.
pub record Machine : Type 0 where
  pub contract_storage : Map Text (Map Uint256 Uint256)
  pub account_balances : Map Text Uint256
  pub total_executions : ℕ
  pub total_gas_used : ℕ
  pub total_instructions_executed : ℕ

-- What the code takes from its surroundings: how many rounds a division may run, and the sizes that
-- std::vector::resize can provide (otherwise it throws).
pub record Host : Type 0 where
  pub division_rounds : ℕ
  pub can_allocate : ℕ → Bool

-- `if (stack.size() < k) throw`, then k times top and pop.
module _ {ℓ} {A : Type ℓ} where
  abbrev pub with1 : (Uint256 → List Uint256 → Run A) → List Uint256 → Run A
  with1 k [] = throws stack_underflow
  with1 k (a ∷ s) = k a s

  abbrev pub with2 : (Uint256 → Uint256 → List Uint256 → Run A) → List Uint256 → Run A
  with2 k [] = throws stack_underflow
  with2 k (a ∷ []) = throws stack_underflow
  with2 k (a ∷ b ∷ s) = k a b s

  abbrev pub with3 : (Uint256 → Uint256 → Uint256 → List Uint256 → Run A) → List Uint256 → Run A
  with3 k [] = throws stack_underflow
  with3 k (a ∷ []) = throws stack_underflow
  with3 k (a ∷ b ∷ []) = throws stack_underflow
  with3 k (a ∷ b ∷ c ∷ s) = k a b c s

-- state.stack.push(value), where `s` is the stack that the pops left.
abbrev pub pushed : VmState → Uint256 → List Uint256 → VmState
pushed st value s = record st { stack = value ∷ s }
