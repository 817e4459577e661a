-- ===== src/Entrypoint/Wire.antt =====
-- The typed instructions of program/src/entrypoint.rs (`mod wire`) and their dispatch, which the
-- `wire_bincode` feature would call. A `WirePubkey` is the number of its 32 bytes. Two things in the
-- source keep it from compiling: the roles of `wire` are taken for those of state/accounts.rs, and
-- the arguments of `AuthorizeCheckedWithSeed` lack the new authority, which the handler does not
-- read. The roles are one type here, and the handler takes its role alone.
pub mod Payloads
pub mod Agree
use pinocchio_stake_program.Base.{ℕ, Option, List, [], Result, ok, fail, invalid_instruction_data}
use pinocchio_stake_program.Base.Int.{ℤ}
use pinocchio_stake_program.Types.{Pubkey, Authorized, Lockup, StakeAuthorize, SetLockupData}
use pinocchio_stake_program.Runtime.{AccountInfo, Store, Runtime}
use pinocchio_stake_program.Instruction.Initialize.{
  initialize as run_initialize, process_initialize_checked,
}
use pinocchio_stake_program.Instruction.Authorize.{
  process_authorize, process_authorize_checked, process_authorized_with_seeds,
  process_authorize_checked_with_seed,
}
use pinocchio_stake_program.Instruction.Delegate.{process_delegate, process_deactivate}
use pinocchio_stake_program.Instruction.Split.{process_split}
use pinocchio_stake_program.Instruction.Withdraw.{process_withdraw}
use pinocchio_stake_program.Instruction.SetLockup.{
  process_set_lockup_parsed, process_set_lockup_checked,
}
use pinocchio_stake_program.Instruction.MergeAccounts.{process_merge}
use pinocchio_stake_program.Instruction.Move.{process_move_stake, process_move_lamports}
use pinocchio_stake_program.Instruction.Delinquent.{process_deactivate_delinquent}

pub record LockupArgs : Type 0 where
  pub unix_timestamp : Option ℤ
  pub epoch : Option ℕ
  pub custodian : Option Pubkey

pub record LockupCheckedArgs : Type 0 where
  pub unix_timestamp : Option ℤ
  pub epoch : Option ℕ

-- The seeds are the bytes of their strings.
pub record AuthorizeWithSeedArgs : Type 0 where
  pub new_authorized_pubkey : Pubkey
  pub stake_authorize : StakeAuthorize
  pub authority_seed : List ℕ
  pub authority_owner : Pubkey

pub record AuthorizeCheckedWithSeedArgs : Type 0 where
  pub stake_authorize : StakeAuthorize
  pub authority_seed : List ℕ
  pub authority_owner : Pubkey

pub data WireInstruction : Type 0 where
  initialize : Authorized → Lockup → WireInstruction
  authorize : Pubkey → StakeAuthorize → WireInstruction
  delegate_stake : WireInstruction
  split : ℕ → WireInstruction
  withdraw : ℕ → WireInstruction
  deactivate : WireInstruction
  set_lockup : LockupArgs → WireInstruction
  merge : WireInstruction
  authorize_with_seed : AuthorizeWithSeedArgs → WireInstruction
  initialize_checked : WireInstruction
  authorize_checked : StakeAuthorize → WireInstruction
  authorize_checked_with_seed : AuthorizeCheckedWithSeedArgs → WireInstruction
  set_lockup_checked : LockupCheckedArgs → WireInstruction
  get_minimum_delegation : WireInstruction
  deactivate_delinquent : WireInstruction
  redelegate : WireInstruction
  move_stake : ℕ → WireInstruction
  move_lamports : ℕ → WireInstruction

-- The arguments of `SetLockup` as `SetLockupData`.
abbrev pub lockup_data : LockupArgs → SetLockupData
lockup_data args = record {
  unix_timestamp = args.unix_timestamp;
  epoch = args.epoch;
  custodian = args.custodian;
}

-- `SetLockupChecked` passes an empty payload on, whatever its arguments.
unfoldable pub dispatch_wire_instruction :
    Runtime → Store → List AccountInfo → WireInstruction → Result Store
dispatch_wire_instruction rt s accounts (initialize authorized lockup) =
    run_initialize rt s accounts authorized lockup
dispatch_wire_instruction rt s accounts (authorize new_auth role) =
    process_authorize rt s accounts new_auth role
dispatch_wire_instruction rt s accounts delegate_stake = process_delegate rt s accounts
dispatch_wire_instruction rt s accounts (split lamports) = process_split rt s accounts lamports
dispatch_wire_instruction rt s accounts (withdraw lamports) =
    process_withdraw rt s accounts lamports
dispatch_wire_instruction rt s accounts deactivate = process_deactivate rt s accounts
dispatch_wire_instruction rt s accounts (set_lockup args) =
    process_set_lockup_parsed rt s accounts (lockup_data args)
dispatch_wire_instruction rt s accounts merge = process_merge rt s accounts
dispatch_wire_instruction rt s accounts (authorize_with_seed args) =
    process_authorized_with_seeds rt s accounts args.new_authorized_pubkey args.stake_authorize
dispatch_wire_instruction rt s accounts initialize_checked =
    process_initialize_checked rt s accounts
dispatch_wire_instruction rt s accounts (authorize_checked role) =
    process_authorize_checked rt s accounts role
dispatch_wire_instruction rt s accounts (authorize_checked_with_seed args) =
    process_authorize_checked_with_seed rt s accounts args.stake_authorize
dispatch_wire_instruction rt s accounts (set_lockup_checked args) =
    process_set_lockup_checked rt s accounts []
dispatch_wire_instruction rt s accounts get_minimum_delegation = ok s
dispatch_wire_instruction rt s accounts deactivate_delinquent =
    process_deactivate_delinquent rt s accounts
dispatch_wire_instruction rt s accounts redelegate = fail invalid_instruction_data
dispatch_wire_instruction rt s accounts (move_stake lamports) =
    process_move_stake rt s accounts lamports
dispatch_wire_instruction rt s accounts (move_lamports lamports) =
    process_move_lamports rt s accounts lamports
