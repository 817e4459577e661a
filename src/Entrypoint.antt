-- ===== src/Entrypoint.antt =====
-- program/src/entrypoint.rs and the instruction numbers of program/src/instruction/mod.rs: the
-- dispatch of a payload behind a single-byte discriminator. The `wire_bincode` feature, which
-- would try `bincode` first, is off: Cargo.toml does not declare it.
pub mod Routes
pub mod Wire
use pinocchio_stake_program.Base.{
  ℕ, ◌+◌, Bool, false, none, some, List, [], ◌∷◌, Result, ok, err, panicked, leb, fail, fail_if,
  ◌>>=◌, ◌>>◌, ltb, ◌==◌, ◌!=◌, if◌then◌else◌, length, take, drop, get_elem?,
  invalid_instruction_data, incorrect_program_id,
}
use pinocchio_stake_program.Base.Int.{of_bits}
use pinocchio_stake_program.Base.Bytes.{le_value}
use pinocchio_stake_program.Types.{
  Pubkey, Authorized, Lockup, StakeAuthorize, staker_role, withdrawer_role, id, to_program_error,
  epoch_rewards_active as epoch_rewards_active_error,
}
use pinocchio_stake_program.Runtime.{AccountInfo, Store, Runtime}
use pinocchio_stake_program.Instruction.Initialize.{
  initialize as run_initialize, process_initialize_checked,
}
use pinocchio_stake_program.Instruction.Authorize.{
  process_authorize, process_authorize_checked, process_authorized_with_seeds,
  process_authorize_checked_with_seed,
}
use pinocchio_stake_program.Instruction.Delegate.{process_delegate, process_deactivate}
use pinocchio_stake_program.Instruction.Split.{process_split}
use pinocchio_stake_program.Instruction.Withdraw.{process_withdraw}
use pinocchio_stake_program.Instruction.SetLockup.{process_set_lockup, process_set_lockup_checked}
use pinocchio_stake_program.Instruction.MergeAccounts.{process_merge}
use pinocchio_stake_program.Instruction.Move.{process_move_stake, process_move_lamports}
use pinocchio_stake_program.Instruction.Delinquent.{process_deactivate_delinquent}

pub data StakeInstruction : Type 0 where
  initialize authorize delegate_stake split withdraw deactivate set_lockup merge : StakeInstruction
  authorize_with_seed initialize_checked authorize_checked : StakeInstruction
  authorize_checked_with_seed set_lockup_checked get_minimum_delegation : StakeInstruction
  deactivate_delinquent redelegate move_stake move_lamports : StakeInstruction

abbrev instructions : List StakeInstruction
instructions =
    initialize ∷ authorize ∷ delegate_stake ∷ split ∷ withdraw ∷ deactivate ∷ set_lockup ∷ merge
    ∷ authorize_with_seed ∷ initialize_checked ∷ authorize_checked ∷ authorize_checked_with_seed
    ∷ set_lockup_checked ∷ get_minimum_delegation ∷ deactivate_delinquent ∷ redelegate ∷ move_stake
    ∷ move_lamports ∷ []

-- `StakeInstruction::try_from`: the numbers 0 to 17, in this order.
unfoldable pub try_from : ℕ → Result StakeInstruction
try_from value = elim (get_elem? instructions value) [
  | none ↦ fail invalid_instruction_data
  | some ix ↦ ok ix
]

-- The gate that the handlers' arms open with, which is never shut.
abbrev epoch_rewards_active : Bool
epoch_rewards_active = false

unfoldable pub gate : Result (Unit {0})
gate = fail_if epoch_rewards_active (to_program_error epoch_rewards_active_error)

unfoldable pub read_u64 : List ℕ → Result ℕ
read_u64 payload = do fail_if (length payload != 8) invalid_instruction_data; ok (le_value payload)

unfoldable pub role_of : ℕ → Result StakeAuthorize
role_of b =
    if b == 0
    then ok staker_role
    else if b == 1
    then ok withdrawer_role
    else fail invalid_instruction_data

-- `payload[off..off + n]`, which panics out of range.
unfoldable pub slice : List ℕ → ℕ → ℕ → Result (List ℕ)
slice payload off n =
    if leb (off + n) (length payload) then ok (take n (drop off payload)) else err panicked

-- `payload[i]`
unfoldable pub byte_at : List ℕ → ℕ → Result ℕ
unfolding slice
byte_at payload i = do bytes ← slice payload i 1; ok (le_value bytes)

-- The eight bytes of an integer.
unfoldable pub word_at : List ℕ → ℕ → Result ℕ
unfolding slice
word_at payload off = do bytes ← slice payload off 8; ok (le_value bytes)

-- `Pubkey::try_from(&payload[off..off + 32])`
unfoldable pub key_at : List ℕ → ℕ → Result Pubkey
unfolding slice
key_at payload off = do bytes ← slice payload off 32; ok (le_value bytes)

-- The 112 bytes of `Initialize`.
unfoldable pub read_initialize : List ℕ → Result (Authorized × Lockup)
unfolding key_at word_at
read_initialize payload = do
  fail_if (length payload != 112) invalid_instruction_data
  staker ← key_at payload 0
  withdrawer ← key_at payload 32
  unix_ts ← word_at payload 64
  epoch ← word_at payload 72
  custodian ← key_at payload 80
  ok (
    record { staker = staker; withdrawer = withdrawer },
    record { unix_timestamp = of_bits unix_ts; epoch = epoch; custodian = custodian },
  )

unfoldable pub run_initialize_payload : Runtime → Store → List AccountInfo → List ℕ → Result Store
unfolding read_initialize
run_initialize_payload rt s accounts payload = do
  (authorized, lockup) ← read_initialize payload
  run_initialize rt s accounts authorized lockup

unfoldable pub run_authorize_payload : Runtime → Store → List AccountInfo → List ℕ → Result Store
unfolding key_at byte_at role_of
run_authorize_payload rt s accounts payload = do
  fail_if (length payload != 33) invalid_instruction_data
  new_authority ← key_at payload 0
  b ← byte_at payload 32
  role ← role_of b
  process_authorize rt s accounts new_authority role

-- `[new_auth(32)] [role(1)] [seed_len(1)] [seed] [owner(32)]`. The handler does not use the seed and
-- the owner that are read.
unfoldable pub read_with_seed : List ℕ → Result (Pubkey × StakeAuthorize)
unfolding key_at byte_at role_of slice
read_with_seed payload = do
  fail_if (ltb (length payload) 34) invalid_instruction_data
  new_authorized ← key_at payload 0
  b ← byte_at payload 32
  role ← role_of b
  seed_len ← byte_at payload 33
  fail_if (ltb (length payload) (34 + seed_len + 32)) invalid_instruction_data
  seed ← slice payload 34 seed_len
  owner ← key_at payload (34 + seed_len)
  ok (new_authorized, role)

unfoldable pub run_with_seed_payload : Runtime → Store → List AccountInfo → List ℕ → Result Store
unfolding read_with_seed
run_with_seed_payload rt s accounts payload = do
  (new_authorized, role) ← read_with_seed payload
  process_authorized_with_seeds rt s accounts new_authorized role

unfoldable pub run_checked_payload : Runtime → Store → List AccountInfo → List ℕ → Result Store
unfolding byte_at role_of
run_checked_payload rt s accounts payload = do
  fail_if (length payload != 1) invalid_instruction_data
  b ← byte_at payload 0
  role ← role_of b
  process_authorize_checked rt s accounts role

unfoldable pub run_checked_with_seed_payload :
    Runtime → Store → List AccountInfo → List ℕ → Result Store
unfolding byte_at role_of
run_checked_with_seed_payload rt s accounts payload = do
  fail_if (ltb (length payload) 34) invalid_instruction_data
  b ← byte_at payload 32
  role ← role_of b
  process_authorize_checked_with_seed rt s accounts role

-- The arms of the `match`. `GetMinimumDelegation` sets return data and changes no account.
unfoldable pub dispatch :
    Runtime → Store → List AccountInfo → List ℕ → StakeInstruction → Result Store
unfolding gate read_u64 run_initialize_payload run_authorize_payload run_with_seed_payload
    run_checked_payload run_checked_with_seed_payload
dispatch rt s accounts payload initialize = gate >> run_initialize_payload rt s accounts payload
dispatch rt s accounts payload initialize_checked = gate >> process_initialize_checked rt s accounts
dispatch rt s accounts payload authorize = gate >> run_authorize_payload rt s accounts payload
dispatch rt s accounts payload authorize_with_seed =
    gate >> run_with_seed_payload rt s accounts payload
dispatch rt s accounts payload authorize_checked = gate >> run_checked_payload rt s accounts payload
dispatch rt s accounts payload authorize_checked_with_seed =
    gate >> run_checked_with_seed_payload rt s accounts payload
dispatch rt s accounts payload delegate_stake = gate >> process_delegate rt s accounts
dispatch rt s accounts payload split = do gate; process_split rt s accounts (← read_u64 payload)
dispatch rt s accounts payload withdraw = do
  gate
  process_withdraw rt s accounts (← read_u64 payload)
dispatch rt s accounts payload deactivate = gate >> process_deactivate rt s accounts
dispatch rt s accounts payload set_lockup = gate >> process_set_lockup rt s accounts payload
dispatch rt s accounts payload set_lockup_checked =
    gate >> process_set_lockup_checked rt s accounts payload
dispatch rt s accounts payload merge = gate >> process_merge rt s accounts
dispatch rt s accounts payload move_stake = do
  gate
  process_move_stake rt s accounts (← read_u64 payload)
dispatch rt s accounts payload move_lamports = do
  gate
  process_move_lamports rt s accounts (← read_u64 payload)
dispatch rt s accounts payload get_minimum_delegation = ok s
dispatch rt s accounts payload deactivate_delinquent = process_deactivate_delinquent rt s accounts
dispatch rt s accounts payload redelegate = fail invalid_instruction_data

unfoldable pub process_instruction :
    Runtime → Store → Pubkey → List AccountInfo → List ℕ → Result Store
unfolding dispatch
process_instruction rt s program_id accounts [] = do
  fail_if (program_id != id) incorrect_program_id
  fail invalid_instruction_data
process_instruction rt s program_id accounts (disc ∷ payload) = do
  fail_if (program_id != id) incorrect_program_id
  ix ← try_from disc
  dispatch rt s accounts payload ix
