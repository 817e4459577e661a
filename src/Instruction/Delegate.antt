-- ===== src/Instruction/Delegate.antt =====
-- program/src/instruction/process_delegate.rs, process_redelegate.rs and deactivate.rs.
pub mod Phases
use pinocchio_stake_program.Base.{
  ℕ, List, Result, fail, fail_if, ◌>>=◌, ◌>>◌, ◌!=◌, ◌&&◌, invalid_account_data, invalid_argument,
}
use pinocchio_stake_program.Types.{
  Pubkey, Clock, StakeStateV2, uninitialized, initialized, staked, rewards_pool, check, staker_role,
  u64_max, empty_flags, to_program_error, too_soon_to_redelegate,
}
use pinocchio_stake_program.Runtime.{AccountInfo, Store, Runtime}
use pinocchio_stake_program.History.{get_entry}
use pinocchio_stake_program.Delegation.{deactivate}
use pinocchio_stake_program.Helpers.{
  get_stake_state, set_stake_state, collect_signers, next_account_info, get_vote_credits,
  validate_delegated_amount, new_stake_with_credits, redelegate_stake_with_credits,
}

-- The `match` of `process_delegate`.
unfoldable pub delegate_state :
    Runtime → Store → AccountInfo → Pubkey → ℕ → Clock → List Pubkey → StakeStateV2 → Result Store
delegate_state rt s stake_account vote vote_credits clock signers (initialized m) = do
  check m.authorized signers staker_role
  let amount = validate_delegated_amount s stake_account m
  set_stake_state s stake_account
      (staked m (new_stake_with_credits amount vote clock.epoch vote_credits) empty_flags)
delegate_state rt s stake_account vote vote_credits clock signers (staked m k flags) = do
  check m.authorized signers staker_role
  let amount = validate_delegated_amount s stake_account m
  fail_if (k.delegation.deactivation_epoch != u64_max && k.delegation.voter_pubkey != vote)
      (to_program_error too_soon_to_redelegate)
  k' ←
      redelegate_stake_with_credits rt.f64 (get_entry rt clock.epoch) k amount vote vote_credits
        clock.epoch
  set_stake_state s stake_account (staked m k' flags)
delegate_state rt s stake_account vote vote_credits clock signers uninitialized =
    fail invalid_account_data
delegate_state rt s stake_account vote vote_credits clock signers rewards_pool =
    fail invalid_account_data

unfoldable pub process_delegate : Runtime → Store → List AccountInfo → Result Store
unfolding delegate_state
process_delegate rt s accounts = do
  signers ← collect_signers accounts
  (stake_account, r1) ← next_account_info accounts
  (vote_account, r2) ← next_account_info r1
  (clock_info, r3) ← next_account_info r2
  (stake_history_info, r4) ← next_account_info r3
  (stake_config_info, r5) ← next_account_info r4
  clock ← rt.clock_from_account_info clock_info (s clock_info.key)
  vote_credits ← get_vote_credits s vote_account
  state ← get_stake_state s stake_account
  delegate_state rt s stake_account vote_account.key vote_credits clock signers state

-- The `match` of `redelegate`: that of `process_delegate` less one test, which the helper makes too.
unfoldable pub redelegate_state :
    Runtime → Store → AccountInfo → Pubkey → ℕ → Clock → List Pubkey → StakeStateV2 → Result Store
redelegate_state rt s stake_account vote vote_credits clock signers (initialized m) = do
  check m.authorized signers staker_role
  let amount = validate_delegated_amount s stake_account m
  set_stake_state s stake_account
      (staked m (new_stake_with_credits amount vote clock.epoch vote_credits) empty_flags)
redelegate_state rt s stake_account vote vote_credits clock signers (staked m k flags) = do
  check m.authorized signers staker_role
  let amount = validate_delegated_amount s stake_account m
  k' ←
      redelegate_stake_with_credits rt.f64 (get_entry rt clock.epoch) k amount vote vote_credits
        clock.epoch
  set_stake_state s stake_account (staked m k' flags)
redelegate_state rt s stake_account vote vote_credits clock signers uninitialized =
    fail invalid_account_data
redelegate_state rt s stake_account vote vote_credits clock signers rewards_pool =
    fail invalid_account_data

unfoldable pub redelegate : Runtime → Store → List AccountInfo → Result Store
unfolding redelegate_state
redelegate rt s accounts = do
  signers ← collect_signers accounts
  (stake_account, r1) ← next_account_info accounts
  (vote_account, r2) ← next_account_info r1
  (clock_info, r3) ← next_account_info r2
  (stake_history_info, r4) ← next_account_info r3
  (stake_config_info, r5) ← next_account_info r4
  clock ← rt.clock_from_account_info clock_info (s clock_info.key)
  vote_credits ← get_vote_credits s vote_account
  state ← get_stake_state s stake_account
  redelegate_state rt s stake_account vote_account.key vote_credits clock signers state

unfoldable pub deactivate_state :
    Store → AccountInfo → Clock → List Pubkey → StakeStateV2 → Result Store
deactivate_state s stake_account clock signers (staked m k flags) = do
  check m.authorized signers staker_role
  k' ← deactivate k clock.epoch
  set_stake_state s stake_account (staked m k' flags)
deactivate_state s stake_account clock signers (initialized m) = fail invalid_account_data
deactivate_state s stake_account clock signers uninitialized = fail invalid_account_data
deactivate_state s stake_account clock signers rewards_pool = fail invalid_account_data

unfoldable pub process_deactivate : Runtime → Store → List AccountInfo → Result Store
unfolding deactivate_state
process_deactivate rt s accounts = do
  signers ← collect_signers accounts
  (stake_account, r1) ← next_account_info accounts
  (clock_info, r2) ← next_account_info r1
  fail_if (clock_info.key != rt.clock_id) invalid_argument
  clock ← rt.clock_from_account_info clock_info (s clock_info.key)
  state ← get_stake_state s stake_account
  deactivate_state s stake_account clock signers state
