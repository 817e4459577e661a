-- ===== src/Examples/Endings.antt =====
-- The end of every instruction, at a split of a delegated account, and the way out of that account.
use pinocchio_stake_program.Base.{List, [], ◌∷◌, ◌++◌, replicate, ◌-◌, ◌/◌, arith, Gives, ok, refl}
use pinocchio_stake_program.Base.Bytes.{le_bytes, write_at, le_value}
use pinocchio_stake_program.Base.Int.{pos}
use pinocchio_stake_program.Base.Bytes.{read_le}
use pinocchio_stake_program.Codec.{deserialize}
use pinocchio_stake_program.History.{get_entry}
use pinocchio_stake_program.Lockup.{is_in_force}
use pinocchio_stake_program.Delegation.{stake_activating_and_deactivating, effective_stake}
use pinocchio_stake_program.Helpers.{get_stake_state}
use pinocchio_stake_program.Instruction.Withdraw.{staked_amount}
use pinocchio_stake_program.Instruction.Withdraw.Progress.{IsEmptied}
use pinocchio_stake_program.Ledger.Exit.{exit, stopped, exit-IsEmptied}
use pinocchio_stake_program.Types.{Clock, Fits, id, staked, empty_flags}
use pinocchio_stake_program.Runtime.{AccountInfo, Runtime}
use pinocchio_stake_program.Examples.{rt, store, signer, plain, metadata, stored, stake_50, clock}

-- At the epoch 10, with an entry for each epoch before it, of no stake.
abbrev with_history : Runtime
with_history = record rt {
  sol_get_sysvar = λ id offset length. (0, le_bytes 8 (9 - (offset - 8) / 32) ++ replicate 24 0);
}

abbrev split_accounts : List AccountInfo
split_accounts = plain 1 ∷ plain 4 ∷ signer 11 ∷ []

-- Ten epochs later, with no history kept.
abbrev clock_20 : Clock
clock_20 = record { epoch = 20; unix_timestamp = pos 9 }

abbrev later : Runtime
later = record rt { clock_from_account_info = λ ai a. ok clock_20 }

stopped-Fits : Fits (staked metadata (stopped stake_50 10) empty_flags)
stopped-Fits = (
  record {
    rent_exempt_reserve_fits = omega arith;
    staker_fits = omega arith;
    withdrawer_fits = omega arith;
    unix_timestamp_fits = omega arith;
    epoch_fits = omega arith;
    custodian_fits = omega arith;
  },
  record {
    voter_pubkey_fits = omega arith;
    stake_fits = omega arith;
    activation_epoch_fits = omega arith;
    deactivation_epoch_fits = omega arith;
    warmup_cooldown_rate_fits = omega arith;
    credits_observed_fits = omega arith;
  },
  omega arith,
)

exit-IsEmptied_example :
    Gives
      (exit rt later store (plain 1) (plain 9) (plain 7) (plain 8) (signer 11) (signer 12))
      λ s2. IsEmptied store s2 1 9
unfolding get_stake_state deserialize stored write_at le_bytes read_le le_value is_in_force
    staked_amount stake_activating_and_deactivating get_entry effective_stake
exit-IsEmptied_example =
    exit-IsEmptied rt later store (plain 1) (plain 9) (plain 7) (plain 8) (signer 11) (signer 12)
      clock clock_20 metadata stake_50 empty_flags refl stopped-Fits refl (omega arith) refl refl
      refl refl (λ a. refl) refl refl refl refl (omega arith) (omega arith)
