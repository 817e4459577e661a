-- ===== src/Instruction/Authorize.antt =====
-- program/src/instruction/authorize.rs, authorize_checked.rs, process_authorized_with_seeds.rs and
-- process_authorize_checked_with_seed.rs.
pub mod Gate
pub mod Takeover
use pinocchio_stake_program.Base.{
  Option, none, some, List, [], ◌∷◌, ◌++◌, Result, ok, err, fail, fail_if, ◌>>=◌, ◌>>◌, ltb, ◌!=◌,
  not, ◌&&◌, ◌||◌, if◌then◌else◌, length, invalid_account_data, not_enough_account_keys,
  missing_required_signature, incorrect_program_id, invalid_argument,
}
use pinocchio_stake_program.Types.{
  Pubkey, Clock, StakeAuthorize, StakeStateV2, uninitialized, initialized, staked, rewards_pool,
  contains, required_key, id, maximum_signers, default_pubkey,
}
use pinocchio_stake_program.Runtime.{AccountInfo, Store, Runtime}
use pinocchio_stake_program.Helpers.{get_stake_state, set_stake_state, collect_signers}
use pinocchio_stake_program.Lockup.{authorize_update}

-- `rest.first()`
abbrev pub first : List AccountInfo → Option AccountInfo
first [] = none
first (a ∷ rest) = some a

-- The `match` that the four handlers share: update the metadata by the policy, and store.
unfoldable pub update_authority :
    Store
    → AccountInfo
    → Pubkey
    → StakeAuthorize
    → List Pubkey
    → Option AccountInfo
    → Clock
    → StakeStateV2
    → Result Store
update_authority s stake_account new_authorized role signers custodian clock (initialized m) = do
  m' ← authorize_update m new_authorized role signers custodian clock
  set_stake_state s stake_account (initialized m')
update_authority s stake_account new_authorized role signers custodian clock (staked m k flags) = do
  m' ← authorize_update m new_authorized role signers custodian clock
  set_stake_state s stake_account (staked m' k flags)
update_authority s stake_account new_authorized role signers custodian clock uninitialized =
    fail invalid_account_data
update_authority s stake_account new_authorized role signers custodian clock rewards_pool =
    fail invalid_account_data

-- The owner, the writable mark and the clock's key.
unfoldable pub basic_checks : Runtime → Store → AccountInfo → AccountInfo → Result (Unit {0})
basic_checks rt s stake_account clock_info = do
  fail_if ((s stake_account.key).owner != id || not stake_account.is_writable) incorrect_program_id
  fail_if (clock_info.key != rt.clock_id) invalid_argument

unfoldable pub process_authorize :
    Runtime → Store → List AccountInfo → Pubkey → StakeAuthorize → Result Store
unfolding basic_checks update_authority
process_authorize rt s (stake_account ∷ clock_info ∷ rest) new_authority authority_type = do
  basic_checks rt s stake_account clock_info
  clock ← rt.clock_from_account_info_unchecked clock_info (s clock_info.key)
  signers ← collect_signers (stake_account ∷ clock_info ∷ rest)
  state ← get_stake_state s stake_account
  update_authority s stake_account new_authority authority_type signers (first rest) clock state
process_authorize rt s accounts new_authority authority_type = fail not_enough_account_keys

-- The authority that the checked handler asks the old one to be.
unfoldable pub required_old : StakeAuthorize → StakeStateV2 → Result Pubkey
required_old role (initialized m) = ok (required_key m.authorized role)
required_old role (staked m k flags) = ok (required_key m.authorized role)
required_old role uninitialized = fail invalid_account_data
required_old role rewards_pool = fail invalid_account_data

unfoldable pub process_authorize_checked :
    Runtime → Store → List AccountInfo → StakeAuthorize → Result Store
unfolding basic_checks required_old update_authority
process_authorize_checked rt s (stake_account ∷ clock_info ∷ old_auth ∷ new_auth ∷ rest) role = do
  basic_checks rt s stake_account clock_info
  fail_if (not new_auth.is_signer) missing_required_signature
  clock ← rt.clock_from_account_info_unchecked clock_info (s clock_info.key)
  signers ← collect_signers (stake_account ∷ clock_info ∷ old_auth ∷ new_auth ∷ rest)
  state ← get_stake_state s stake_account
  old ← required_old role state
  fail_if (old_auth.key != old || not old_auth.is_signer) missing_required_signature
  update_authority s stake_account new_auth.key role signers (first rest) clock state
process_authorize_checked rt s accounts role = fail not_enough_account_keys

-- The seed and the owner of the arguments are not read.
unfoldable pub process_authorized_with_seeds :
    Runtime → Store → List AccountInfo → Pubkey → StakeAuthorize → Result Store
unfolding basic_checks update_authority
process_authorized_with_seeds rt s (stake_account ∷ base ∷ clock_info ∷ rest) new_authorized role =
    do
      basic_checks rt s stake_account clock_info
      clock ← rt.clock_from_account_info clock_info (s clock_info.key)
      signers ← collect_signers (stake_account ∷ base ∷ clock_info ∷ rest)
      state ← get_stake_state s stake_account
      update_authority s stake_account new_authorized role signers (first rest) clock state
process_authorized_with_seeds rt s accounts new_authorized role = fail not_enough_account_keys

-- A key that is put behind the signers, if it is not the default and there is room.
unfoldable pub push_signer : List Pubkey → Pubkey → List Pubkey
push_signer signers k =
    if k != default_pubkey && ltb (length signers) maximum_signers
    then signers ++ k ∷ []
    else signers

-- The keys of the account's metadata that the handler injects where the base has signed.
unfoldable pub inject : List Pubkey → Result StakeStateV2 → List Pubkey
unfolding push_signer
inject signers (ok (initialized m)) =
    push_signer (push_signer signers m.authorized.staker) m.authorized.withdrawer
inject signers (ok (staked m k flags)) =
    push_signer (push_signer signers m.authorized.staker) m.authorized.withdrawer
inject signers (ok uninitialized) = signers
inject signers (ok rewards_pool) = signers
inject signers (err e) = signers

-- The seed and the owner of the arguments are not read, and no address is derived from them.
unfoldable pub process_authorize_checked_with_seed :
    Runtime → Store → List AccountInfo → StakeAuthorize → Result Store
unfolding basic_checks inject update_authority
process_authorize_checked_with_seed rt s (stake_account ∷ old_base ∷ clock_info ∷ new_auth ∷ rest)
      role =
    do
      basic_checks rt s stake_account clock_info
      fail_if (not new_auth.is_signer) missing_required_signature
      clock ← rt.clock_from_account_info clock_info (s clock_info.key)
      collected ← collect_signers (stake_account ∷ old_base ∷ clock_info ∷ new_auth ∷ rest)
      let base_in_signers = contains collected old_base.key
      let new_in_signers = contains collected new_auth.key
      let signers =
          if base_in_signers then inject collected (get_stake_state s stake_account) else collected
      fail_if (not base_in_signers || not new_in_signers) missing_required_signature
      state ← get_stake_state s stake_account
      update_authority s stake_account new_auth.key role signers (first rest) clock state
process_authorize_checked_with_seed rt s accounts role = fail not_enough_account_keys
