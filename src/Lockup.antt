-- ===== src/Lockup.antt =====
-- `impl Lockup` of program/src/state/state.rs and program/src/helpers/authorize.rs: when a lockup
-- binds, and who may change an authority.
pub mod Force
use pinocchio_stake_program.Base.{
  ℕ, Bool, true, false, Option, none, some, Result, ok, fail, fail_if, ◌>>=◌, ◌>>◌, List, ltb, ◌==◌,
  ◌!=◌, not, ◌&&◌, ◌||◌, if◌then◌else◌, missing_required_signature,
}
use pinocchio_stake_program.Base.Int.{ℤ, pos, ltb_ℤ, eqb_ℤ}
use pinocchio_stake_program.Types.{
  Pubkey, Lockup, Meta, Clock, StakeAuthorize, staker_role, withdrawer_role, contains,
}
use pinocchio_stake_program.Runtime.{AccountInfo}

-- `Lockup::is_active`
unfoldable pub is_active : Lockup → ℤ → ℕ → Bool
is_active l current_timestamp current_epoch =
    let time_in_force =
      not (eqb_ℤ l.unix_timestamp (pos 0)) && ltb_ℤ current_timestamp l.unix_timestamp in
    let epoch_in_force = l.epoch != 0 && ltb current_epoch l.epoch in
    time_in_force || epoch_in_force

-- The early return of `is_in_force`: the custodian has signed.
unfoldable pub bypassed : Lockup → Option Pubkey → Bool
bypassed l none = false
bypassed l (some signer) = signer == l.custodian

-- `Lockup::is_in_force`
unfoldable pub is_in_force : Lockup → Clock → Option Pubkey → Bool
unfolding bypassed
is_in_force l clock custodian_signer =
    let time_in_force =
      not (eqb_ℤ l.unix_timestamp (pos 0)) && ltb_ℤ clock.unix_timestamp l.unix_timestamp in
    let epoch_in_force = l.epoch != 0 && ltb clock.epoch l.epoch in
    if bypassed l custodian_signer then false else time_in_force || epoch_in_force

-- `custodian_ok` of `authorize_update`
unfoldable pub custodian_ok : Lockup → Option AccountInfo → Bool
custodian_ok l none = false
custodian_ok l (some a) = a.is_signer && a.key == l.custodian

-- The lockup test that `authorize_update` makes itself.
unfoldable pub authorize_in_force : Lockup → Clock → Bool
authorize_in_force l clock = ltb clock.epoch l.epoch || ltb_ℤ clock.unix_timestamp l.unix_timestamp

-- `authorize_update`: the new `Meta`.
unfoldable pub authorize_update :
    Meta → Pubkey → StakeAuthorize → List Pubkey → Option AccountInfo → Clock → Result Meta
unfolding custodian_ok authorize_in_force
authorize_update m new_authorized staker_role signers maybe_lockup_authority clock = do
  fail_if (not (contains signers m.authorized.staker || contains signers m.authorized.withdrawer))
      missing_required_signature
  ok (record m { authorized = record (m.authorized) { staker = new_authorized } })
authorize_update m new_authorized withdrawer_role signers maybe_lockup_authority clock = do
  fail_if (not (contains signers m.authorized.withdrawer)) missing_required_signature
  fail_if (authorize_in_force m.lockup clock && not (custodian_ok m.lockup maybe_lockup_authority))
      missing_required_signature
  ok (record m { authorized = record (m.authorized) { withdrawer = new_authorized } })
