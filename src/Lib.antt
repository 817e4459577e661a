-- ===== src/Lib.antt =====
-- The Pinocchio stake program (program/src/): stake accounts of the Solana ledger, which are
-- initialized, delegated to a vote account, split, merged, moved, deactivated and withdrawn from.
--
-- The program's parts and the files that model them:
--
-- Types: program/src/error.rs, helpers/constant.rs, state/accounts.rs, state/state.rs,
-- state/stake_flag.rs and the records of state/delegation.rs. The struct fields of 8 and 32 bytes
-- are the numbers of their little-endian bytes. `Fits` says that each word fits its width.
--
-- Codec: program/src/state/stake_state_v2.rs, the bytes of a state: a tag and the fields in the
-- order of the packed structs, in a buffer of 208 bytes or more. Its children hold the widths of
-- what is read and the shape of what is written.
--
-- Runtime: what the Solana runtime and the `pinocchio` crate give: accounts, sysvars, `f64`. A
-- `Store` is the accounts of a transaction by their keys, so that an account that is listed twice
-- is one account; a handler gives a store only on success, since the runtime rolls a failed
-- instruction back. The sysvars, the system call and the `f64` operations are fields of a record
-- that every theorem takes as an argument.
--
-- History: program/src/state/stake_history.rs, an epoch's entry by the sysvar's system call, and
-- in Memory the table of at most 512 entries.
--
-- Vote: program/src/state/vote_state.rs, the bytes of a vote account, and its list of credits of
-- a fixed capacity.
--
-- Delegation: program/src/state/delegation.rs, how much of a stake is effective at an epoch. The
-- two loops run on fuel, the number of epochs from the delegation's to the target. It is enough
-- because each round but the last goes one epoch on and stays below the target.
--
-- Lockup: `Lockup` of program/src/state/state.rs, and helpers/authorize.rs.
--
-- Merge: program/src/state/merge_kind.rs and the arithmetic of helpers/merge.rs.
--
-- Helpers: program/src/helpers/utils.rs: reading and writing a state, signers, lamports, the
-- amounts of splits and redelegations, the readers of vote accounts.
--
-- Instruction and its children: the handlers of program/src/instruction/, one definition for each
-- handler and one for each `match` in it, composed as the code composes them. `process_split`,
-- `process_merge` and the others keep the code's names.
--
-- Entrypoint: program/src/entrypoint.rs and the numbers of instruction/mod.rs: the payload of each
-- instruction and the dispatch. Its child Wire is the dispatch of typed instructions, which
-- `process_instruction` would call under the feature `wire_bincode`, with the field and the
-- conversions that the source lacks to compile, and its agreement with the dispatch of bytes where
-- bytes carry what it is given: `SetLockup` and `SetLockupChecked` are left out of it.
--
-- Seeds: the parsers of seed arguments in program/src/state/accounts.rs, beside the payloads that
-- the entrypoint runs, and `derive_with_seed_compat` of
-- program/src/instruction/process_authorize_checked_with_seed.rs with the hash as a parameter.
--
-- Casts: the pointer casts `get_account_info` of program/src/state/state.rs and
-- program/src/state/accounts.rs.
--
-- Structs: the layout of `repr(C)`, the argument structs of program/src/state/accounts.rs and the
-- struct of state/stake.rs, with their sizes. Its children hold these against the sizes that the
-- codec, the casts and the payloads count with, and the readers of state/stake_state_v2.rs that take
-- an account's memory for a `StakeStateV2`.
--
-- Flags: the bits of program/src/state/stake_flag.rs.
--
-- Effects: what an instruction may do to the accounts it is given, as a relation on stores that
-- knows no handler: writes of one or two states, each a change that its accounts' states allow,
-- and then at most one payment. What is written and what pays is an actor, one of the instruction's
-- first accounts. Its children show for each handler, and for the dispatch, that a success is such
-- an effect.
--
-- Conservation and Foreign: what follows from an effect for lamports and for accounts of other
-- programs.
--
-- Consent: whose signature each instruction needs, as a table over the instructions, and for each
-- handler, and for the dispatch, that a success has it; and, with the actors, what an account may
-- lose without it. The checked change of an authority with a seed and the deactivation of a
-- delinquent stake need no signature of the account's own authorities.
--
-- Termination: for each handler, and for the dispatch, that it ends without a panic, and that no
-- loop is out of fuel. A slice of the payload out of range is a panic of the model. That the cast of
-- a payload of `SetLockup` that has the struct's 72 bytes gives arguments or an error, and that the
-- stake history sysvar holds the entries that it is asked for, are hypotheses on the runtime; a
-- shorter payload of `SetLockup` is left out.
--
-- Ledger: the accounts of a transaction as a whole: the sum of their lamports, the invariant of a
-- ledger, runs of many instructions as step relations, and the way out of a stake in two of them.
--
-- Base: the Boolean tests, lists, bytes and integers over the native numbers, and `Result`, whose
-- faults are a program error, a panic and the end of a loop's fuel.
--
-- Examples: concrete accounts and the theorems at them.
--
-- A handler reads the accounts it is given, the sysvars and the states in the accounts' bytes. It
-- checks the owner, the signers and the state, writes new states by `set_stake_state` and moves
-- lamports by `relocate_lamports`; nothing else changes an account. The theorems on a handler say
-- what held of what it read when it succeeds, by `Gives`, and which store it leads to.
--
-- Not modelled: log messages and return data; the borrow states of account data, since the
-- handlers borrow for one read or write at a time; and the call of the typed dispatch with what
-- `bincode` decodes, under the feature `wire_bincode`, which Cargo.toml does not declare.
pub mod Base
pub mod Types
pub mod Codec
pub mod Runtime
pub mod History
pub mod Delegation
pub mod Lockup
pub mod Merge
pub mod Helpers
pub mod Vote
pub mod Instruction
pub mod Entrypoint
pub mod Seeds
pub mod Casts
pub mod Flags
pub mod Structs
pub mod Conservation
pub mod Foreign
pub mod Ledger
pub mod Effects
pub mod Consent
pub mod Termination
pub mod Examples
