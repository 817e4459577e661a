-- ===== src/Examples/Authorities.antt =====
-- The theorems on authorities, lockups and initialization, at concrete accounts.
use pinocchio_stake_program.Instruction.Initialize.{do_initialize}
use pinocchio_stake_program.Instruction.SetLockup.{apply_lockup_update}
use pinocchio_stake_program.Types.{contains}
use pinocchio_stake_program.Base.Bytes.{le_value, read_le, write_at}
use pinocchio_stake_program.Examples.{stored}
use pinocchio_stake_program.Helpers.{collect_signers, get_stake_state}
use pinocchio_stake_program.Base.{
  some, ◌↔◌, ◌≡◌, ◌⊎◌, none, List, [], ◌∷◌, ok, refl, arith, fail, missing_required_signature,
}
use pinocchio_stake_program.Base.Bytes.{le_bytes, le_value}
use pinocchio_stake_program.Types.{
  initialized, staker_role, withdrawer_role, default_lockup, MetaFits,
}
use pinocchio_stake_program.Codec.{deserialize}
use pinocchio_stake_program.Runtime.{AccountInfo}
use pinocchio_stake_program.Lockup.{is_in_force, authorize_update}
use pinocchio_stake_program.Lockup.Force.{MayAuthorize, set_authority, authorize_update_iff}
use pinocchio_stake_program.Helpers.{set_stake_state}
use pinocchio_stake_program.Instruction.Initialize.{initialize}
use pinocchio_stake_program.Instruction.Initialize.Fresh.{new_meta, initialize-deserialize}
use pinocchio_stake_program.Instruction.Authorize.{
  process_authorize, process_authorize_checked_with_seed,
}
use pinocchio_stake_program.Instruction.Authorize.Gate.{authorize-Authorized, AuthorizedBy}
use pinocchio_stake_program.Instruction.Authorize.Takeover.{checked_with_seed-any_base}
use pinocchio_stake_program.Instruction.SetLockup.{process_set_lockup, process_set_lockup_checked}
use pinocchio_stake_program.Instruction.SetLockup.Policy.{set_lockup-SetsLockup, SetsRead}
use pinocchio_stake_program.Instruction.SetLockup.Checked.{
  set_lockup_checked_iff, CheckedSets, checked_payload,
}
use pinocchio_stake_program.Examples.{
  rt, rent, clock, store, signer, plain, after, metadata, authorities,
}

authorize-Authorized_example :
    AuthorizedBy store
      (plain 3)
      21
      withdrawer_role
      (plain 3 ∷ plain 7 ∷ signer 12 ∷ [])
      (signer 12 ∷ [])
      (ok clock)
      (after (process_authorize rt store (plain 3 ∷ plain 7 ∷ signer 12 ∷ []) 21 withdrawer_role))
unfolding process_authorize collect_signers get_stake_state deserialize stored write_at le_bytes
    authorize_update contains read_le le_value set_stake_state
authorize-Authorized_example =
    authorize-Authorized rt store (plain 3) (plain 7) (signer 12 ∷ []) 21 withdrawer_role refl

abbrev old_and_new : List AccountInfo
old_and_new = plain 3 ∷ plain 7 ∷ signer 11 ∷ signer 20 ∷ []

-- The accounts 20 and 21 are nothing to the account 3.
checked_with_seed-any_base_example :
    process_authorize_checked_with_seed rt store
      (plain 3 ∷ signer 20 ∷ plain 7 ∷ signer 21 ∷ [])
      staker_role
    ≡ set_stake_state store (plain 3) (initialized (set_authority metadata staker_role 21))
unfolding deserialize get_stake_state stored write_at le_bytes read_le le_value
checked_with_seed-any_base_example =
    checked_with_seed-any_base rt store (plain 3) (signer 20) (plain 7) (signer 21) metadata clock
      refl refl refl refl refl refl refl refl refl (omega arith)

set_lockup-SetsLockup_example :
    SetsRead rt store
      (plain 3)
      (signer 12 ∷ [])
      []
      (after (process_set_lockup rt store (plain 3 ∷ signer 12 ∷ []) []))
unfolding process_set_lockup collect_signers get_stake_state deserialize stored write_at le_bytes
    apply_lockup_update is_in_force read_le le_value contains set_stake_state
set_lockup-SetsLockup_example = set_lockup-SetsLockup rt store (plain 3) (signer 12 ∷ []) [] refl

set_lockup_checked_iff_example :
    (process_set_lockup_checked rt store
        (plain 3 ∷ signer 12 ∷ signer 30 ∷ [])
        (checked_payload none (some 30) [])
      ≡ ok (
          after (
            process_set_lockup_checked rt store
              (plain 3 ∷ signer 12 ∷ signer 30 ∷ [])
              (checked_payload none (some 30) []))))
    ↔ CheckedSets rt store (plain 3) (signer 12 ∷ signer 30 ∷ []) none (some 30) (
        after (
          process_set_lockup_checked rt store
            (plain 3 ∷ signer 12 ∷ signer 30 ∷ [])
            (checked_payload none (some 30) [])))
set_lockup_checked_iff_example =
    set_lockup_checked_iff rt store (plain 3) (signer 12 ∷ signer 30 ∷ []) none (some 30) [] tt
      (omega arith)

metadata-MetaFits : MetaFits (new_meta store (plain 4) authorities default_lockup rent)
metadata-MetaFits = record {
  rent_exempt_reserve_fits = omega arith;
  staker_fits = omega arith;
  withdrawer_fits = omega arith;
  unix_timestamp_fits = omega arith;
  epoch_fits = omega arith;
  custodian_fits = omega arith;
}

initialize-deserialize_example :
    deserialize
      (after (initialize rt store (plain 4 ∷ plain 9 ∷ []) authorities default_lockup) 4).bytes
    ≡ ok (initialized (new_meta store (plain 4) authorities default_lockup rent))
unfolding initialize do_initialize stored write_at get_stake_state deserialize set_stake_state
initialize-deserialize_example =
    initialize-deserialize rt store (plain 4) (plain 9) [] authorities default_lockup rent refl
      metadata-MetaFits refl

authorize_update_iff_example :
    (MayAuthorize metadata staker_role (11 ∷ []) none clock
      × (authorize_update metadata 20 staker_role (11 ∷ []) none clock
          ≡ ok (set_authority metadata staker_role 20)))
    ⊎ (¬ (MayAuthorize metadata staker_role (11 ∷ []) none clock)
        × (authorize_update metadata 20 staker_role (11 ∷ []) none clock
            ≡ fail missing_required_signature))
authorize_update_iff_example = authorize_update_iff metadata 20 staker_role (11 ∷ []) none clock
