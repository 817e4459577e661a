-- ===== src/Instruction/Initialize.antt =====
-- program/src/instruction/initialize.rs and initialize_checked.rs.
pub mod Fresh
use pinocchio_stake_program.Base.{
  List, ◌∷◌, Result, fail, fail_if, ◌>>=◌, ◌>>◌, ltb, ◌!=◌, not, length, invalid_account_data,
  not_enough_account_keys, insufficient_funds, missing_required_signature,
}
use pinocchio_stake_program.Types.{
  Authorized, Lockup, StakeStateV2, uninitialized, initialized, default_lockup,
}
use pinocchio_stake_program.Codec.{account_size}
use pinocchio_stake_program.Runtime.{AccountInfo, Store, Rent, Runtime}
use pinocchio_stake_program.Helpers.{get_stake_state, set_stake_state}

-- `do_initialize` behind its reading of the state.
unfoldable pub initialize_state :
    Store → AccountInfo → Authorized → Lockup → Rent → StakeStateV2 → Result Store
initialize_state s stake_account authorized lockup rent uninitialized = do
  let reserve = rent.minimum_balance (length (s stake_account.key).bytes)
  fail_if (ltb (s stake_account.key).lamports reserve) insufficient_funds
  set_stake_state s stake_account (
      initialized
        (record { rent_exempt_reserve = reserve; authorized = authorized; lockup = lockup }))
initialize_state s stake_account authorized lockup rent other = fail invalid_account_data

unfoldable pub do_initialize : Store → AccountInfo → Authorized → Lockup → Rent → Result Store
unfolding initialize_state
do_initialize s stake_account authorized lockup rent = do
  fail_if (length (s stake_account.key).bytes != account_size) invalid_account_data
  state ← get_stake_state s stake_account
  initialize_state s stake_account authorized lockup rent state

unfoldable pub initialize : Runtime → Store → List AccountInfo → Authorized → Lockup → Result Store
initialize rt s (stake_account ∷ rent_info ∷ rest) authorized lockup = do
  rent ← rt.rent_from_account_info rent_info (s rent_info.key)
  do_initialize s stake_account authorized lockup rent
initialize rt s accounts authorized lockup = fail not_enough_account_keys

unfoldable pub process_initialize_checked : Runtime → Store → List AccountInfo → Result Store
process_initialize_checked rt s
      (stake_account ∷ rent_info ∷ stake_authority ∷ withdraw_authority ∷ rest) =
    do
      rent ← rt.rent_from_account_info rent_info (s rent_info.key)
      fail_if (not withdraw_authority.is_signer) missing_required_signature
      do_initialize s stake_account
          (record { staker = stake_authority.key; withdrawer = withdraw_authority.key })
          default_lockup rent
process_initialize_checked rt s accounts = fail not_enough_account_keys
