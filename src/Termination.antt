-- ===== src/Termination.antt =====
-- The whole program ends: the loops of program/src/state/delegation.rs have fuel enough, and the
-- assertion of program/src/state/stake_history.rs holds, in every instruction of
-- program/src/entrypoint.rs.
pub mod Leaves
pub mod Rounds
pub mod Stakes
pub mod Authority
pub mod Lifecycle
pub mod Transfers
pub mod Moves
pub mod Dispatch
