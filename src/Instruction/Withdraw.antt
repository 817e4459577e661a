-- ===== src/Instruction/Withdraw.antt =====
-- program/src/instruction/withdraw.rs.
pub mod Guards
pub mod Progress
use pinocchio_stake_program.Base.{
  ℕ, Bool, true, false, Option, none, some, List, [], ◌∷◌, Result, ok, err, fail, fail_if, ◌>>=◌,
  ◌>>◌, ltb, ◌==◌, ◌!=◌, not, ◌&&◌, if◌then◌else◌, invalid_account_data, insufficient_funds,
  missing_required_signature,
}
use pinocchio_stake_program.Types.{
  Pubkey, Lockup, Stake, Clock, StakeStateV2, uninitialized, initialized, staked, rewards_pool,
  check, withdrawer_role, u64_max, default_lockup, to_program_error, lockup_in_force,
}
use pinocchio_stake_program.Runtime.{AccountInfo, Store, Runtime}
use pinocchio_stake_program.History.{get_entry}
use pinocchio_stake_program.Delegation.{effective_stake, perpetual_new_warmup_cooldown_rate_epoch}
use pinocchio_stake_program.Merge.{checked_add}
use pinocchio_stake_program.Lockup.{is_in_force}
use pinocchio_stake_program.Helpers.{
  get_stake_state, set_stake_state, next_account_info, relocate_lamports,
}

-- The optional custodian must sign if it is there.
unfoldable pub custodian_of : List AccountInfo → Result (Option Pubkey)
custodian_of [] = ok none
custodian_of (a ∷ rest) = do fail_if (not a.is_signer) missing_required_signature; ok (some a.key)

-- `&signer_keys[..n]`
abbrev pub signer_keys : Pubkey → Option Pubkey → List Pubkey
signer_keys withdraw_authority none = withdraw_authority ∷ []
signer_keys withdraw_authority (some custodian) = withdraw_authority ∷ custodian ∷ []

-- What counts as staked: after the deactivation epoch, what the history leaves.
unfoldable pub staked_amount : Runtime → Stake → Clock → Result ℕ
staked_amount rt k clock =
    let deact_epoch = k.delegation.deactivation_epoch in
    if deact_epoch != u64_max && clock.epoch == deact_epoch
    then ok k.delegation.stake
    else if deact_epoch != u64_max && ltb deact_epoch clock.epoch
    then effective_stake rt.f64 (get_entry rt clock.epoch) perpetual_new_warmup_cooldown_rate_epoch
        k.delegation clock.epoch
    else ok k.delegation.stake

-- `(lockup, reserve_u64, is_staked)`
pub record Limits : Type 0 where
  pub lockup : Lockup
  pub reserve : ℕ
  pub is_staked : Bool

unfoldable pub withdraw_limits :
    Runtime → AccountInfo → List Pubkey → Clock → StakeStateV2 → Result Limits
unfolding staked_amount
withdraw_limits rt source signers clock (staked m k flags) = do
  check m.authorized signers withdrawer_role
  staked_lamports ← staked_amount rt k clock
  staked_plus_reserve ← checked_add staked_lamports m.rent_exempt_reserve
  ok (record { lockup = m.lockup; reserve = staked_plus_reserve; is_staked = staked_lamports != 0 })
withdraw_limits rt source signers clock (initialized m) = do
  check m.authorized signers withdrawer_role
  ok (record { lockup = m.lockup; reserve = m.rent_exempt_reserve; is_staked = false })
withdraw_limits rt source signers clock uninitialized = do
  fail_if (not source.is_signer) missing_required_signature
  ok (record { lockup = default_lockup; reserve = 0; is_staked = false })
withdraw_limits rt source signers clock rewards_pool = fail invalid_account_data

-- The state that a withdrawal leaves, by whether it takes all the lamports.
unfoldable pub withdraw_state : Store → AccountInfo → ℕ → Limits → Bool → Result Store
withdraw_state s source withdraw_lamports limits true = do
  fail_if limits.is_staked insufficient_funds
  set_stake_state s source uninitialized
withdraw_state s source withdraw_lamports limits false = do
  withdraw_plus_reserve ← checked_add withdraw_lamports limits.reserve
  fail_if (ltb (s source.key).lamports withdraw_plus_reserve) insufficient_funds
  ok s

-- The path behind the one for an uninitialized source.
unfoldable pub withdraw_from :
    Runtime
    → Store
    → AccountInfo
    → AccountInfo
    → AccountInfo
    → AccountInfo
    → List AccountInfo
    → ℕ
    → Result Store
unfolding custodian_of withdraw_limits withdraw_state
withdraw_from rt s source destination clock_info withdraw_authority rest withdraw_lamports = do
  clock ← rt.clock_from_account_info clock_info (s clock_info.key)
  fail_if (not withdraw_authority.is_signer) missing_required_signature
  custodian ← custodian_of rest
  state ← get_stake_state s source
  limits ← withdraw_limits rt source (signer_keys withdraw_authority.key custodian) clock state
  fail_if (is_in_force limits.lockup clock custodian) (to_program_error lockup_in_force)
  s1 ←
      withdraw_state s source withdraw_lamports limits
        (withdraw_lamports == (s source.key).lamports)
  relocate_lamports s1 source destination withdraw_lamports

unfoldable pub withdraw_uninitialized : Store → AccountInfo → AccountInfo → ℕ → Result Store
withdraw_uninitialized s source destination withdraw_lamports = do
  fail_if (not source.is_signer) missing_required_signature
  relocate_lamports s source destination withdraw_lamports

unfoldable pub is_uninitialized : Result StakeStateV2 → Bool
is_uninitialized (ok uninitialized) = true
is_uninitialized (ok (initialized m)) = false
is_uninitialized (ok (staked m k flags)) = false
is_uninitialized (ok rewards_pool) = false
is_uninitialized (err e) = false

unfoldable pub process_withdraw : Runtime → Store → List AccountInfo → ℕ → Result Store
unfolding withdraw_from withdraw_uninitialized is_uninitialized
process_withdraw rt s accounts withdraw_lamports = do
  (source, r1) ← next_account_info accounts
  (destination, r2) ← next_account_info r1
  (clock_info, r3) ← next_account_info r2
  (stake_history_info, r4) ← next_account_info r3
  (withdraw_authority, rest) ← next_account_info r4
  if is_uninitialized (get_stake_state s source)
      then withdraw_uninitialized s source destination withdraw_lamports
      else withdraw_from rt s source destination clock_info withdraw_authority rest
          withdraw_lamports
