-- ===== src/Vm/Opcode.antt =====
-- enum Opcode, isValidOpcode and getGasCost of the virtual machine: include/vm/virtual_machine.h and
-- src/vm/virtual_machine.cpp.
use deo.Vm.GasCosts
use deo.Prelude.{ℕ, Bool, true, false, ◌&&◌, leb, ◌==◌, if◌then◌else◌, List, [], ◌∷◌}

-- PUSH1 to PUSH8 and PUSH32, DUP1 to DUP8, SWAP1 to SWAP8 and LOG0 to LOG4 are families with the
-- number as the argument. A byte that is no enumerator is `other`.
pub data Opcode : Type 0 where
  stop push0 pop add_ mul_ sub_ div_ mod_ addmod mulmod exp signextend lt_ gt_ slt sgt : Opcode
  eq_ iszero and_ or_ xor_ not_ byte shl shr sar jump jumpi pc_ msize gas jumpdest : Opcode
  mload mstore mstore8 sload sstore sha3 address balance origin caller callvalue : Opcode
  calldataload calldatasize calldatacopy codesize codecopy gasprice extcodesize : Opcode
  extcodecopy returndatasize returndatacopy extcodehash blockhash coinbase timestamp : Opcode
  number difficulty gaslimit create call callcode return_ delegatecall create2 : Opcode
  staticcall revert invalid selfdestruct : Opcode
  push dup swap log other : ℕ → Opcode

-- The values of the enumerators.
abbrev opcodes : List (ℕ × Opcode)
opcodes =
    (0x00, stop)
    ∷ (0x5F, push0)
    ∷ (0x60, push 1)
    ∷ (0x61, push 2)
    ∷ (0x62, push 3)
    ∷ (0x63, push 4)
    ∷ (0x64, push 5)
    ∷ (0x65, push 6)
    ∷ (0x66, push 7)
    ∷ (0x67, push 8)
    ∷ (0x7F, push 32)
    ∷ (0x50, pop)
    ∷ (0x80, dup 1)
    ∷ (0x81, dup 2)
    ∷ (0x82, dup 3)
    ∷ (0x83, dup 4)
    ∷ (0x84, dup 5)
    ∷ (0x85, dup 6)
    ∷ (0x86, dup 7)
    ∷ (0x87, dup 8)
    ∷ (0x90, swap 1)
    ∷ (0x91, swap 2)
    ∷ (0x92, swap 3)
    ∷ (0x93, swap 4)
    ∷ (0x94, swap 5)
    ∷ (0x95, swap 6)
    ∷ (0x96, swap 7)
    ∷ (0x97, swap 8)
    ∷ (0x01, add_)
    ∷ (0x02, mul_)
    ∷ (0x03, sub_)
    ∷ (0x04, div_)
    ∷ (0x06, mod_)
    ∷ (0x08, addmod)
    ∷ (0x09, mulmod)
    ∷ (0x0A, exp)
    ∷ (0x0B, signextend)
    ∷ (0x10, lt_)
    ∷ (0x11, gt_)
    ∷ (0x12, slt)
    ∷ (0x13, sgt)
    ∷ (0x14, eq_)
    ∷ (0x15, iszero)
    ∷ (0x16, and_)
    ∷ (0x17, or_)
    ∷ (0x18, xor_)
    ∷ (0x19, not_)
    ∷ (0x1A, byte)
    ∷ (0x1B, shl)
    ∷ (0x1C, shr)
    ∷ (0x1D, sar)
    ∷ (0x56, jump)
    ∷ (0x57, jumpi)
    ∷ (0x58, pc_)
    ∷ (0x59, msize)
    ∷ (0x5A, gas)
    ∷ (0x5B, jumpdest)
    ∷ (0x51, mload)
    ∷ (0x52, mstore)
    ∷ (0x53, mstore8)
    ∷ (0x54, sload)
    ∷ (0x55, sstore)
    ∷ (0x20, sha3)
    ∷ (0x30, address)
    ∷ (0x31, balance)
    ∷ (0x32, origin)
    ∷ (0x33, caller)
    ∷ (0x34, callvalue)
    ∷ (0x35, calldataload)
    ∷ (0x36, calldatasize)
    ∷ (0x37, calldatacopy)
    ∷ (0x38, codesize)
    ∷ (0x39, codecopy)
    ∷ (0x3A, gasprice)
    ∷ (0x3B, extcodesize)
    ∷ (0x3C, extcodecopy)
    ∷ (0x3D, returndatasize)
    ∷ (0x3E, returndatacopy)
    ∷ (0x3F, extcodehash)
    ∷ (0x40, blockhash)
    ∷ (0x41, coinbase)
    ∷ (0x42, timestamp)
    ∷ (0x43, number)
    ∷ (0x44, difficulty)
    ∷ (0x45, gaslimit)
    ∷ (0xA0, log 0)
    ∷ (0xA1, log 1)
    ∷ (0xA2, log 2)
    ∷ (0xA3, log 3)
    ∷ (0xA4, log 4)
    ∷ (0xF0, create)
    ∷ (0xF1, call)
    ∷ (0xF2, callcode)
    ∷ (0xF3, return_)
    ∷ (0xF4, delegatecall)
    ∷ (0xF5, create2)
    ∷ (0xFA, staticcall)
    ∷ (0xFD, revert)
    ∷ (0xFE, invalid)
    ∷ (0xFF, selfdestruct)
    ∷ []

find_opcode : ℕ → List (ℕ × Opcode) → Opcode
find_opcode b [] = other b
find_opcode b ((v, op) ∷ rest) = if b == v then op else find_opcode b rest

-- static_cast<Opcode>(byte)
unfoldable pub decode : ℕ → Opcode
unfolding find_opcode
decode b = find_opcode b opcodes

-- isValidOpcode: the enumerators, all of which its switch lists.
unfoldable pub is_valid_opcode : Opcode → Bool
is_valid_opcode (other b) = false
is_valid_opcode _ = true

-- opcode >= Opcode::PUSH1 && opcode <= Opcode::PUSH32
unfoldable pub in_push_range : Opcode → Bool
in_push_range (push n) = true
in_push_range (other b) = leb 0x60 b && leb b 0x7f
in_push_range _ = false

unfoldable pub gas_cost : Opcode → ℕ
gas_cost stop = GasCosts.zero
gas_cost push0 = GasCosts.very_low
gas_cost (push n) = GasCosts.very_low
gas_cost pop = GasCosts.very_low
gas_cost (dup n) = GasCosts.very_low
gas_cost (swap n) = GasCosts.very_low
gas_cost add_ = GasCosts.very_low
gas_cost mul_ = GasCosts.low
gas_cost sub_ = GasCosts.very_low
gas_cost div_ = GasCosts.very_low
gas_cost mod_ = GasCosts.very_low
gas_cost lt_ = GasCosts.very_low
gas_cost gt_ = GasCosts.very_low
gas_cost eq_ = GasCosts.very_low
gas_cost iszero = GasCosts.very_low
gas_cost and_ = GasCosts.very_low
gas_cost or_ = GasCosts.very_low
gas_cost xor_ = GasCosts.very_low
gas_cost not_ = GasCosts.very_low
gas_cost jump = GasCosts.mid
gas_cost jumpi = GasCosts.mid
gas_cost pc_ = GasCosts.base
gas_cost msize = GasCosts.base
gas_cost gas = GasCosts.base
gas_cost jumpdest = GasCosts.jumpdest
gas_cost mload = GasCosts.very_low
gas_cost mstore = GasCosts.very_low
gas_cost mstore8 = GasCosts.very_low
gas_cost sload = GasCosts.sload
gas_cost sstore = GasCosts.sstore_set
gas_cost sha3 = GasCosts.sha3
gas_cost address = GasCosts.base
gas_cost balance = GasCosts.base
gas_cost caller = GasCosts.base
gas_cost callvalue = GasCosts.base
gas_cost calldataload = GasCosts.base
gas_cost calldatasize = GasCosts.base
gas_cost calldatacopy = GasCosts.very_low
gas_cost codesize = GasCosts.base
gas_cost codecopy = GasCosts.very_low
gas_cost gasprice = GasCosts.base
gas_cost blockhash = GasCosts.blockhash
gas_cost coinbase = GasCosts.base
gas_cost timestamp = GasCosts.base
gas_cost number = GasCosts.base
gas_cost difficulty = GasCosts.base
gas_cost gaslimit = GasCosts.base
gas_cost return_ = GasCosts.zero
gas_cost revert = GasCosts.zero
gas_cost invalid = GasCosts.zero
gas_cost selfdestruct = GasCosts.selfdestruct
gas_cost _ = GasCosts.invalid
