-- ===== src/Instruction.antt =====
-- The handlers of program/src/instruction/.
pub mod Initialize
pub mod Authorize
pub mod Delegate
pub mod Split
pub mod Withdraw
pub mod SetLockup
pub mod MergeAccounts
pub mod Move
pub mod Delinquent
