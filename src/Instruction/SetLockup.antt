-- ===== src/Instruction/SetLockup.antt =====
-- program/src/instruction/process_set_lockup.rs and process_set_lockup_checked.rs.
pub mod Policy
pub mod Checked
use Prim.Native.Nat.{bit_and}
use pinocchio_stake_program.Base.{
  ℕ, Option, none, some, List, [], ◌∷◌, Result, ok, fail, fail_if, ◌>>=◌, ◌>>◌, ltb, ◌==◌, not,
  if◌then◌else◌, length, take, drop, invalid_account_data, invalid_instruction_data,
  not_enough_account_keys, missing_required_signature, get_elem?,
}
use pinocchio_stake_program.Base.Int.{ℤ, of_bits}
use pinocchio_stake_program.Base.Bytes.{le_value}
use pinocchio_stake_program.Types.{
  Pubkey, Lockup, Meta, Clock, StakeStateV2, uninitialized, initialized, staked, rewards_pool,
  contains, SetLockupData,
}
use pinocchio_stake_program.Runtime.{AccountInfo, Store, Runtime}
use pinocchio_stake_program.Lockup.{is_in_force}
use pinocchio_stake_program.Helpers.{
  get_stake_state, set_stake_state, next_account_info, collect_signers,
}

abbrev pub or_keep {ℓ} : {A : Type ℓ} → Option A → A → A
or_keep none a = a
or_keep (some b) a = b

-- The three optional fields, applied.
abbrev pub updated_lockup : Lockup → SetLockupData → Lockup
updated_lockup l args = record {
  unix_timestamp = or_keep args.unix_timestamp l.unix_timestamp;
  epoch = or_keep args.epoch l.epoch;
  custodian = or_keep args.custodian l.custodian;
}

unfoldable pub apply_lockup_update : Meta → SetLockupData → Clock → List Pubkey → Result Meta
apply_lockup_update m args clock signers = do
  fail_if
      (not (
        if is_in_force m.lockup clock none
        then contains signers m.lockup.custodian
        else contains signers m.authorized.withdrawer))
      missing_required_signature
  ok (record m { lockup = updated_lockup m.lockup args })

unfoldable pub lockup_state :
    Store → AccountInfo → SetLockupData → Clock → List Pubkey → StakeStateV2 → Result Store
lockup_state s stake_account args clock signers (initialized m) = do
  m' ← apply_lockup_update m args clock signers
  set_stake_state s stake_account (initialized m')
lockup_state s stake_account args clock signers (staked m k flags) = do
  m' ← apply_lockup_update m args clock signers
  set_stake_state s stake_account (staked m' k flags)
lockup_state s stake_account args clock signers uninitialized = fail invalid_account_data
lockup_state s stake_account args clock signers rewards_pool = fail invalid_account_data

unfoldable pub process_set_lockup_parsed :
    Runtime → Store → List AccountInfo → SetLockupData → Result Store
unfolding lockup_state
process_set_lockup_parsed rt s accounts lockup = do
  (stake_account, rest) ← next_account_info accounts
  clock ← rt.clock_get
  signers ← collect_signers accounts
  state ← get_stake_state s stake_account
  lockup_state s stake_account lockup clock signers state

-- The payload is reinterpreted; the rest is what the parsed variant does.
unfoldable pub process_set_lockup : Runtime → Store → List AccountInfo → List ℕ → Result Store
unfolding lockup_state
process_set_lockup rt s accounts instruction_data = do
  (stake_account, rest) ← next_account_info accounts
  args ← rt.set_lockup_layout instruction_data
  clock ← rt.clock_get
  signers ← collect_signers accounts
  state ← get_stake_state s stake_account
  lockup_state s stake_account args clock signers state

pub record LockupCheckedData : Type 0 where
  pub unix_timestamp : Option ℤ
  pub epoch : Option ℕ

-- An optional 8-byte field: its bytes, if its flag is set, and what follows.
unfoldable pub optional_word : ℕ → ℕ → List ℕ → Result (Option ℕ × List ℕ)
optional_word flags bit bytes =
    if bit_and flags bit == 0
    then ok (none, bytes)
    else if ltb (length bytes) 8
    then fail invalid_instruction_data
    else ok (some (le_value (take 8 bytes)), drop 8 bytes)

abbrev timestamp_of : Option ℕ → Option ℤ
timestamp_of none = none
timestamp_of (some n) = some (of_bits n)

-- `LockupCheckedData::parse`
unfoldable pub parse_checked : List ℕ → Result LockupCheckedData
unfolding optional_word
parse_checked [] = fail invalid_instruction_data
parse_checked (flags ∷ payload) = do
  (timestamp, r1) ← optional_word flags 0x01 payload
  (epoch, r2) ← optional_word flags 0x02 r1
  ok (record { unix_timestamp = timestamp_of timestamp; epoch = epoch })

-- The new custodian is the third account, which must sign if it is there.
unfoldable pub custodian_update : List AccountInfo → Result (Option Pubkey)
custodian_update accounts = elim (get_elem? accounts 2) [
  | none ↦ ok none
  | some ai ↦ if ai.is_signer then ok (some ai.key) else fail missing_required_signature
]

-- The policy of the checked handler, with its two nested tests.
unfoldable pub apply_set_lockup_policy :
    Meta → Option ℤ → Option ℕ → Option Pubkey → List Pubkey → Clock → Result Meta
apply_set_lockup_policy m unix_ts epoch custodian signers clock = do
  (if is_in_force m.lockup clock none
      then fail_if (not (contains signers m.lockup.custodian)) missing_required_signature
      else fail_if (not (contains signers m.authorized.withdrawer)) missing_required_signature)
  ok (record m {
    lockup = record {
      unix_timestamp = or_keep unix_ts m.lockup.unix_timestamp;
      epoch = or_keep epoch m.lockup.epoch;
      custodian = or_keep custodian m.lockup.custodian;
    };
  })

unfoldable pub checked_lockup_state :
    Store
    → AccountInfo
    → LockupCheckedData
    → Option Pubkey
    → List Pubkey
    → Clock
    → StakeStateV2
    → Result Store
checked_lockup_state s stake_account checked custodian signers clock (initialized m) = do
  m' ← apply_set_lockup_policy m checked.unix_timestamp checked.epoch custodian signers clock
  set_stake_state s stake_account (initialized m')
checked_lockup_state s stake_account checked custodian signers clock (staked m k flags) = do
  m' ← apply_set_lockup_policy m checked.unix_timestamp checked.epoch custodian signers clock
  set_stake_state s stake_account (staked m' k flags)
checked_lockup_state s stake_account checked custodian signers clock uninitialized =
    fail invalid_account_data
checked_lockup_state s stake_account checked custodian signers clock rewards_pool =
    fail invalid_account_data

unfoldable pub process_set_lockup_checked :
    Runtime → Store → List AccountInfo → List ℕ → Result Store
unfolding custodian_update checked_lockup_state
process_set_lockup_checked rt s [] instruction_data = fail not_enough_account_keys
process_set_lockup_checked rt s (stake_account ∷ others) instruction_data = do
  checked ← parse_checked instruction_data
  signers ← collect_signers (stake_account ∷ others)
  custodian ← custodian_update (stake_account ∷ others)
  clock ← rt.clock_get
  state ← get_stake_state s stake_account
  checked_lockup_state s stake_account checked custodian signers clock state
