-- ===== src/Vm/Storage.antt =====
-- The handlers of src/vm/instruction_handlers.cpp that use the members of the machine: the storage of
-- contracts and the balances of accounts.
use deo.Prelude.{
  not, ◌≡◌, ◌↔◌, Bool, true, ◌&&◌, if◌then◌else◌, [], Option, none, some, drop, arith,
}
use deo.Prelude.Run.{Run, ok, ◌>>=◌}
use deo.Prelude.Maps.{Key, Map, find, assign}
use deo.Uint256
use deo.Uint256.{Uint256, of_u64}
use deo.Uint256.Hex
use deo.Prelude.Texts.{Text, text_key}
use deo.Vm.State.{VmState, ExecutionContext, Machine, with1, with2, pushed}

-- Two words are equivalent keys when neither is less.
unfoldable pub same_word : Uint256 → Uint256 → Bool
same_word a b = not (Uint256.lt a b) && not (Uint256.lt b a)

pub same_word_iff : (a b : Uint256) → (same_word a b ≡ true) ↔ (a ≡ b)
unfolding same_word Uint256.lt
same_word_iff a b = ground arith

instance abbrev pub word_key : Key Uint256
word_key = record { same = same_word; same_iff = same_word_iff }

abbrev pub or_empty : Option (Map Uint256 Uint256) → Map Uint256 Uint256
or_empty none = []
or_empty (some m) = m

abbrev pub or_zero : Option Uint256 → Uint256
or_zero none = of_u64 0
or_zero (some v) = v

-- contract_storage_[address], which a read creates if it is missing.
unfoldable pub storage_of : Machine → Text → Map Uint256 Uint256
storage_of m address = or_empty (find address m.contract_storage)

unfoldable pub with_storage : Machine → Text → Map Uint256 Uint256 → Machine
with_storage m address slots = record m {
  contract_storage = assign address slots m.contract_storage;
}

unfoldable pub handle_sload : ExecutionContext → Machine → VmState → Run (Machine × VmState)
handle_sload context m st =
    with1
      (λ key s.
        let slots = storage_of m context.contract_address in
        ok (with_storage m context.contract_address slots, pushed st (or_zero (find key slots)) s))
      st.stack

unfoldable pub handle_sstore : ExecutionContext → Machine → VmState → Run (Machine × VmState)
handle_sstore context m st =
    with2
      (λ key value s.
        let slots = storage_of m context.contract_address in
        ok (
          with_storage m context.contract_address (assign key value slots),
          record st { stack = s },
        ))
      st.stack

-- toString() without its "0x".
unfoldable pub account_key : Uint256 → Text
account_key address = drop 2 (Hex.to_string address)

unfoldable pub balance_of : Machine → Text → Uint256
balance_of m account = or_zero (find account m.account_balances)

unfoldable pub handle_balance : Machine → VmState → Run VmState
unfolding balance_of
handle_balance m st =
    with1 (λ address s. ok (pushed st (balance_of m (account_key address)) s)) st.stack

-- The beneficiary's entry is written before the contract's, also where they are one.
unfoldable pub handle_selfdestruct : ExecutionContext → Machine → VmState → Run (Machine × VmState)
unfolding balance_of
handle_selfdestruct context m st =
    with1
      (λ beneficiary s.
        let to = account_key beneficiary in
        let contract_balance = balance_of m context.contract_address in
        let rest : VmState = record st { stack = s } in
        if Uint256.gt contract_balance (of_u64 0)
        then (Uint256.add (balance_of m to) contract_balance >>= λ sum. ok (
          record m {
            account_balances =
                assign context.contract_address (of_u64 0) (assign to sum m.account_balances);
          },
          rest,
        ))
        else ok (m, rest))
      st.stack
