-- ===== src/Conservation.antt =====
-- Lamports and owners across an instruction of program/src/entrypoint.rs.
pub mod Dispatch
