-- ===== src/Vm/GasCosts.antt =====
-- struct GasCosts of include/vm/virtual_machine.h, as far as getGasCost uses it.
use deo.Prelude.{ℕ}

abbrev pub zero : ℕ
zero = 0

abbrev pub very_low : ℕ
very_low = 3

abbrev pub low : ℕ
low = 5

abbrev pub mid : ℕ
mid = 8

abbrev pub base : ℕ
base = 2

abbrev pub jumpdest : ℕ
jumpdest = 1

abbrev pub sload : ℕ
sload = 50

abbrev pub sstore_set : ℕ
sstore_set = 20000

abbrev pub sha3 : ℕ
sha3 = 30

abbrev pub blockhash : ℕ
blockhash = 20

abbrev pub selfdestruct : ℕ
selfdestruct = 5000

abbrev pub invalid : ℕ
invalid = 0
