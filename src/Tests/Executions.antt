-- ===== src/Tests/Executions.antt =====
-- The theorems on executions at given programs.
use deo.Prelude.{ℕ, ◌≡◌, ◌≢◌, ap, List, [], ◌∷◌, arith}
use deo.Prelude.Run.{Holds}
use deo.Prelude.Texts.{Text}
use deo.Vm.Storage.{storage_of}
use deo.Vm.Interpreter.{execute, run_loop}
use deo.Vm.Trace.{Explains, run_loop-Explains}
use deo.Vm.Accounts.{Account, execute-Account}
use deo.Vm.Isolation.{execute-SameStorage}
use deo.Tests.Runs.{host, fresh, context_for, state_with, adds}

execute-Account_example :
    Holds (Account host (context_for adds 100) fresh) (execute host (context_for adds 100) fresh)
execute-Account_example = execute-Account host (context_for adds 100) fresh

run_loop-Explains_example :
    Explains host
      (context_for adds 100)
      5
      fresh
      (state_with [])
      (run_loop host (context_for adds 100) 5 fresh (state_with []))
run_loop-Explains_example = run_loop-Explains host (context_for adds 100) 5 fresh (state_with [])

abbrev another : Text
another = 0x31 ∷ []

abbrev first_code : List ℕ → ℕ
first_code [] = 0
first_code (c ∷ t) = c

another-apart : (context_for adds 100).contract_address ≢ another
another-apart e = omega (arith, ap first_code e)

execute-SameStorage_example :
    Holds
      (λ r. storage_of r.0 another ≡ storage_of fresh another)
      (execute host (context_for adds 100) fresh)
execute-SameStorage_example =
    execute-SameStorage another (context_for adds 100) another-apart host fresh
