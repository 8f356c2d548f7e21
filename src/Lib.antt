-- ===== src/Lib.antt =====
-- Parts of the Deo node: the virtual machine with its 256-bit words, the Merkle tree, transactions with
-- their binary form, signatures and fees, the pool of transactions, blocks, the validators of proof of
-- authority and proof of stake, the proof of work, the chain of blocks, the messages between peers and the
-- manager of peers.
--
-- A contract runs as bytecode in a stack machine. `VirtualMachine::execute` checks the code, then
-- runs a loop that decodes a byte, charges its gas, calls the handler of the opcode and moves the
-- program counter. The handlers compute on words of 256 bits, four limbs of 64 bits, on a memory of
-- bytes, and on the storage of contracts, which outlives the execution. Transactions are signed and
-- serialized; the pool takes them in, a thread validates them by their signatures, size and inputs, and
-- old ones leave it. Stakes of validators are words of the virtual machine. The chain takes blocks in after
-- the engine of the proof of work has validated them; its mining thread makes blocks of its own pool of
-- transactions and has them mined by that engine.
--
-- * Uint256 and its children model src/vm/uint256.cpp and include/vm/uint256.h. A word is the record
--   of its limbs d0 to d3, which are `data_[0]` to `data_[3]`; sums and differences of limbs wrap at
--   `radix`, 2 ^ 64. Sum, Order, Product, Quotient, Bytes and Hex hold the operators of their name and
--   theorems on them; Value gives a word its number.
-- * Vm/Opcode, Vm/GasCosts and Vm/Validation model the enumeration of opcodes, getGasCost,
--   isValidOpcode and validateBytecode of src/vm/virtual_machine.cpp and include/vm/virtual_machine.h.
-- * Vm/State has VMState, ExecutionContext and the members of VirtualMachine as the records VmState,
--   ExecutionContext and Machine. The top of the stack is the head of a list.
-- * Vm/Arithmetic, Vm/Memory, Vm/Environment and Vm/Storage model the handlers of
--   src/vm/instruction_handlers.cpp, one function for each: handleMStore8 is handle_mstore8.
-- * Vm/Interpreter models executeInstruction and execute.
-- * The other files of Vm hold theorems: what the handlers take from the stack (StackEffect,
--   Underflow), where the program counter goes (Jumps), the gas (GasKept), the memory (MemoryRoundTrip,
--   PastTheEnd), the storage (Isolation), pushes and exchanges (PushValue, Shuffle), accepted bytecode
--   (Programs), and the loop as a step relation (Trace, Accounts). Vm/Rules has the rules that their
--   searches use.
-- * Merkle and its children model include/core/merkle_tree.h and src/core/merkle_tree.cpp, which the
--   blocks of the chain use for their transactions: the levels (Levels), the height (Height), the leaves
--   that are found (Leaves), the operations that change a tree (Changes) and accepted proofs (Binding).
--   SHA-256 is a parameter.
-- * Transaction models include/core/transaction.h and src/core/transaction.cpp; its child Wire has
--   serialize and deserialize, with hexToBytes and bytesToHex of src/crypto/hash.cpp. WireReaders and
--   WireRoundTrip are about the binary form, Signing about sign and verify, Caching about the cached hash,
--   Collision about the text that is hashed.
-- * Fees models TransactionFeeCalculator of src/core/transaction_fees.cpp, and Fees/Limits its limits.
-- * Mempool models TransactionMempool of src/network/transaction_mempool.cpp: the map `transactions_`
--   is a Dict in the order of its keys, the queue a list. Acceptance is about validateTransaction, Room
--   about the entries that leave, Marking about those that are validated, Bounded about the states that
--   are reached, Tracking and Draining about the validation thread.
-- * Block models include/core/block.h and src/core/block.cpp, over Transaction and Merkle. Agreement is
--   about the header and the transactions, Checks about verify, removals and the cached hash.
-- * Authority models src/consensus/proof_of_authority.cpp. Rotation is about getNextValidator, Members
--   about the list of validators.
-- * Stake and Stake/Balances model src/consensus/proof_of_stake.cpp. Registry and Proposers are about its
--   map of validators and current set, Slashing and Undelegation about stakes.
-- * Work models src/consensus/proof_of_work.cpp over Block. Target is about calculateTargetHash,
--   targetToDifficulty and meetsDifficultyTarget, Difficulty about adjustDifficulty, Mining about
--   mineBlock, Consensus about validateBlock, and Starting about startConsensus.
-- * Chain models include/core/blockchain.h and src/core/blockchain.cpp: its members, its pool and its
--   unspent outputs. Chain/Ancestry has the walks up the chain and the reorganisation, Chain/Growth
--   initialize, loadState, importBlockchain and the checks of blocks, Chain/Extension addBlock,
--   createNewBlock and the mining thread, over Work. Lineage and Walks are about the walks, Locks about
--   blockchain_mutex_, Pool about addTransaction, Consistency and Links about the states that are
--   reached, Verification about verifyBlockchain, importBlockchain and calculateNextDifficulty.
-- * Messages models the messages of include/network/network_messages.h and src/network/network_messages.cpp
--   and MessageFactory; RoundTrip is about their bytes.
-- * Peers, Peers/Scores and Peers/Rates model PeerManager of include/network/peer_manager.h and
--   src/network/peer_manager.cpp. Keys is about formatPeerKey, Registry and Calls about the states that
--   are reached, Bans about banPeer, reportMisbehavior, cleanupExpiredBans and discoverPeers. Rates
--   also has the theorem on its counters.
-- * Prelude has the tests on numbers, signed integers (Integers), lists, maps (Maps, and Dicts for maps
--   that are iterated over), and Run, the outcome of C++ code: a value, an exception, undefined
--   behaviour, or a loop that has used up its fuel. Tests applies the theorems.
--
-- Bounds and fuel. The loop of `execute` has the limit of the source, 10000 instructions, so its
-- recursion needs no other fuel. The division subtracts in a loop; its rounds are bounded by
-- `division_rounds` of the parameter Host, and each round takes the divisor off the remainder. The loop
-- of validateBytecode has one round for each byte, and each round takes at least one. A Merkle level of
-- n hashes is built on fuel n, since a level of two or more has fewer parents, and the height is found
-- in at most n doublings. Offsets are 64-bit numbers and wrap where the source adds them. A decimal
-- text has at most 20 digits, enough for 64 bits. The inner loop of the validation thread takes one off
-- its queue in each round, so the length of the queue is fuel enough for it. mineBlock takes one round
-- more than its largest nonce, which startConsensus sets to 10000, and a walk up the chain one round
-- more than the height of its block. Counters and times wrap at 64 bits, priorities at 32; in Peers a
-- score beyond 32 bits and a time beyond 64 are undefined.
--
-- Threads. A method that holds its mutex is one step. A round of the validation thread, which locks
-- three times, is taken as one step too. A call that locks again a mutex that it holds is undefined. In
-- Chain and Peers the mutex is a member, so that each call shows where it locks. In Work another thread
-- may stop the mining at any hash: that is a parameter of the loop.
--
-- Parameters. Host has the fuel of a division and the sizes that std::vector::resize can provide.
-- Code and data are lists of numbers below 256, addresses are lists of character codes. std::map is
-- an association list, std::stoul on two characters is written out. SHA-256, the
-- signature scheme, whose verification throws for a signature that is not hexadecimal, the
-- clock and std::sort, which leaves the order of equal elements open, are arguments of what uses them.
-- The integers of the binary form are copied from memory, lowest byte first as on the usual machines.
--
-- Not modelled. Log output, getStatistics, the texts of exceptions, the shifts of words, which no
-- handler calls, and their construction from 32 bytes. uint256_safe.cpp is not part of the build. JSON
-- forms and timestamps of transactions. getTransactionsForBlock and the priorities of EnhancedMempool,
-- which sort by floating-point numbers. The JSON forms and sizes of messages, the averages of
-- getPeerStats and requestPeerList. The JSON and the binary form of blocks, so that fromJson and
-- deserialize are not among the calls that Agreement is about, and the methods of proof of authority
-- and of proof of stake that build or hash a block. Of the chain what only passes to its storage:
-- saveState, exportBlockchain and getBalance, and what the storages do when they shut down; what a
-- storage has and whether it stores a block are parameters. That a hash is cached when it is asked for
-- is left out of Chain, where it changes no answer. Of the repository, the sockets and threads of the
-- network, storage, wallet, compiler and interfaces are outside this library.
pub mod Prelude
pub mod Uint256
pub mod Vm
pub mod Merkle
pub mod Transaction
pub mod Fees
pub mod Mempool
pub mod Block
pub mod Authority
pub mod Stake
pub mod Work
pub mod Chain
pub mod Messages
pub mod Peers
pub mod Tests
