-- ===== src/Vm.antt =====
-- The virtual machine: src/vm/virtual_machine.cpp, src/vm/instruction_handlers.cpp and
-- include/vm/virtual_machine.h.
pub mod GasCosts
pub mod Opcode
pub mod State
pub mod Arithmetic
pub mod Memory
pub mod Environment
pub mod Storage
pub mod Validation
pub mod Programs
pub mod PastTheEnd
pub mod Interpreter
pub mod Rules
pub mod StackEffect
pub mod Underflow
pub mod Shuffle
pub mod PushValue
pub mod GasKept
pub mod Trace
pub mod Accounts
pub mod Jumps
pub mod Isolation
pub mod MemoryLoops
pub mod MemoryRoundTrip
