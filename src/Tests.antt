-- ===== src/Tests.antt =====
-- Inputs to run the model on, and the theorems applied at them.
pub mod Runs
pub mod Words
pub mod Instructions
pub mod Executions
pub mod Trees
pub mod Transactions
pub mod Pools
pub mod Blocks
pub mod Validators
pub mod Miners
pub mod Chains
pub mod Messages
pub mod Peers
