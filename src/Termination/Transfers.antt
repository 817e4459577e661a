-- ===== src/Termination/Transfers.antt =====
-- The handlers that move lamports end: split.rs, withdraw.rs, merge_dedicated.rs, process_move_stake.rs
-- and move_lamports.rs of program/src/instruction.
use pinocchio_stake_program.Base.{
  ℕ, ◌<◌, List, [], ◌∷◌, Bool, true, false, arith, Halts, ok, err, Option, none, some, Result,
}
use pinocchio_stake_program.Types.{
  Pubkey, Meta, Stake, StakeFlags, StakeStateV2, uninitialized, initialized, staked, rewards_pool,
  Clock, u64_mod, Fits,
}
use pinocchio_stake_program.Runtime.{AccountInfo, Store, Runtime}
use pinocchio_stake_program.History.{get_entry}
use pinocchio_stake_program.Codec.Widths.{AreBytes}
use pinocchio_stake_program.Delegation.{perpetual_new_warmup_cooldown_rate_epoch}
use pinocchio_stake_program.Helpers.{ValidatedSplitInfo}
use pinocchio_stake_program.Instruction.Split.{
  require_uninitialized, split_amounts, store_split, split_state, close_if, split_accounts,
  process_split,
}
use pinocchio_stake_program.Instruction.Withdraw.{
  custodian_of, staked_amount, withdraw_limits, Limits, withdraw_state, withdraw_from,
  withdraw_uninitialized, process_withdraw,
}
use pinocchio_stake_program.Instruction.MergeAccounts.{store_merged, process_merge}
use pinocchio_stake_program.Termination.Leaves.{
  IsAnswering, IsCurrent, get_entry-Halts, get_stake_state-Halts, get_stake_state-Fits,
  set_stake_state-Halts, relocate_lamports-Halts, collect_signers-Halts, check-Halts,
  validate_split_amount-Halts,
}
use pinocchio_stake_program.Termination.Rounds.{status-Halts}
use pinocchio_stake_program.Termination.Stakes.{
  split-Halts, effective_stake-Halts, mergeable-Halts, metas_can_merge-Halts, merge-Halts,
  checked_add-Halts,
}

require_uninitialized-Halts : (r : Result StakeStateV2) → Halts (require_uninitialized r)
unfolding require_uninitialized
require_uninitialized-Halts (ok uninitialized) = tt
require_uninitialized-Halts (ok (initialized m)) = tt
require_uninitialized-Halts (ok (staked m k flags)) = tt
require_uninitialized-Halts (ok rewards_pool) = tt
require_uninitialized-Halts (err e) = tt

split_amounts-Halts :
    (n d : ℕ) (m : Meta) (k : Stake) (info : ValidatedSplitInfo)
    → Halts (split_amounts n d m k info)
unfolding split_amounts
split_amounts-Halts n d m k info = ground arith

split_accounts-Halts : (accounts : List AccountInfo) → Halts (split_accounts accounts)
split_accounts-Halts [] = tt
split_accounts-Halts (a ∷ []) = tt
split_accounts-Halts (a ∷ b ∷ []) = tt
split_accounts-Halts (a ∷ b ∷ c ∷ []) = tt
split_accounts-Halts (a ∷ b ∷ c ∷ d ∷ rest) = tt

custodian_of-Halts : (accounts : List AccountInfo) → Halts (custodian_of accounts)
unfolding custodian_of
custodian_of-Halts [] = tt
custodian_of-Halts (a ∷ rest) = ground arith

module _ (s : Store) where
  store_split-Halts :
      (a b : AccountInfo) (m : Meta) (reserve : ℕ) (flags : StakeFlags) (stakes : Stake × Stake)
      → Halts (store_split s a b m reserve flags stakes)
  unfolding store_split
  store_split-Halts a b m reserve flags stakes = grind (arith, set_stake_state-Halts)

  close_if-Halts : (a : AccountInfo) (close : Bool) → Halts (close_if s a close)
  unfolding close_if
  close_if-Halts a true = set_stake_state-Halts s a uninitialized
  close_if-Halts a false = tt

  store_merged-Halts :
      (a : AccountInfo) (merged : Option StakeStateV2) → Halts (store_merged s a merged)
  unfolding store_merged
  store_merged-Halts a none = tt
  store_merged-Halts a (some state) = set_stake_state-Halts s a state

  withdraw_state-Halts :
      (a : AccountInfo) (n : ℕ) (limits : Limits) (all : Bool)
      → Halts (withdraw_state s a n limits all)
  unfolding withdraw_state
  withdraw_state-Halts a n limits true = grind (arith, set_stake_state-Halts)
  withdraw_state-Halts a n limits false = grind (arith, checked_add-Halts)

  withdraw_uninitialized-Halts :
      (a b : AccountInfo) (n : ℕ) → Halts (withdraw_uninitialized s a b n)
  unfolding withdraw_uninitialized
  withdraw_uninitialized-Halts a b n = grind (arith, relocate_lamports-Halts)

module _ (rt : Runtime) (answers : IsAnswering rt) (s : Store) where
  split_state-Halts :
      (a b : AccountInfo) (n epoch : ℕ) (signers : List Pubkey) (state : StakeStateV2)
      → IsCurrent rt epoch
      → Fits state
      → Halts (split_state rt s a b n epoch signers state)
  unfolding split_state
  split_state-Halts a b n epoch signers (staked m k flags) w fits =
      let status =
        status-Halts rt.f64 (get_entry rt epoch) (get_entry-Halts rt epoch w)
          perpetual_new_warmup_cooldown_rate_epoch k.delegation epoch w.epoch_fits
          fits.1.stake_fits in
      grind (
        arith,
        check-Halts,
        validate_split_amount-Halts rt answers,
        split_amounts-Halts,
        split-Halts,
        store_split-Halts,
      )
  split_state-Halts a b n epoch signers (initialized m) w fits =
      grind (arith, check-Halts, validate_split_amount-Halts rt answers, set_stake_state-Halts)
  split_state-Halts a b n epoch signers uninitialized w fits = ground arith
  split_state-Halts a b n epoch signers rewards_pool w fits = tt

  staked_amount-Halts :
      (k : Stake) (clock : Clock)
      → IsCurrent rt clock.epoch
      → k.delegation.stake < u64_mod
      → Halts (staked_amount rt k clock)
  unfolding staked_amount
  staked_amount-Halts k clock w ws =
      let effective =
        effective_stake-Halts rt.f64 (get_entry rt clock.epoch) (get_entry-Halts rt clock.epoch w)
          perpetual_new_warmup_cooldown_rate_epoch k.delegation clock.epoch w.epoch_fits ws in
      ground arith

  withdraw_limits-Halts :
      (a : AccountInfo) (signers : List Pubkey) (clock : Clock) (state : StakeStateV2)
      → IsCurrent rt clock.epoch
      → Fits state
      → Halts (withdraw_limits rt a signers clock state)
  unfolding withdraw_limits
  withdraw_limits-Halts a signers clock (staked m k flags) w fits =
      let amount = staked_amount-Halts k clock w fits.1.stake_fits in
      grind (arith, check-Halts, checked_add-Halts)
  withdraw_limits-Halts a signers clock (initialized m) w fits = grind (arith, check-Halts)
  withdraw_limits-Halts a signers clock uninitialized w fits = ground arith
  withdraw_limits-Halts a signers clock rewards_pool w fits = tt

  withdraw_from-Halts :
      (a b c d : AccountInfo) (rest : List AccountInfo) (n : ℕ)
      → AreBytes (s a.key).bytes
      → Halts (withdraw_from rt s a b c d rest n)
  unfolding withdraw_from
  withdraw_from-Halts a b c d rest n bytes =
      let known = answers.clock_info c (s c.key) in
      let fits = get_stake_state-Fits s a bytes in
      grind (
        arith, custodian_of-Halts, get_stake_state-Halts, withdraw_limits-Halts,
        withdraw_state-Halts, relocate_lamports-Halts,
      )

  module _ (bytes : (k : Pubkey) → AreBytes (s k).bytes) where
    pub split_handler-Halts :
        (accounts : List AccountInfo) (n : ℕ) → Halts (process_split rt s accounts n)
    unfolding process_split
    split_handler-Halts accounts n =
        let known = answers.clock in
        let fits = λ (ai : AccountInfo). get_stake_state-Fits s ai (bytes ai.key) in
        grind (
          arith, collect_signers-Halts, split_accounts-Halts, require_uninitialized-Halts,
          get_stake_state-Halts, split_state-Halts, close_if-Halts, relocate_lamports-Halts,
        )

    pub withdraw-Halts :
        (accounts : List AccountInfo) (n : ℕ) → Halts (process_withdraw rt s accounts n)
    unfolding process_withdraw
    withdraw-Halts accounts n =
        let from = λ (a b c d : AccountInfo) (rest : List AccountInfo).
          withdraw_from-Halts a b c d rest n (bytes a.key) in
        grind (arith, withdraw_uninitialized-Halts)

    pub merge_handler-Halts : (accounts : List AccountInfo) → Halts (process_merge rt s accounts)
    unfolding process_merge
    merge_handler-Halts [] = tt
    merge_handler-Halts (a ∷ []) = tt
    merge_handler-Halts (a ∷ b ∷ []) = tt
    merge_handler-Halts (a ∷ b ∷ c ∷ []) = tt
    merge_handler-Halts (a ∷ b ∷ c ∷ d ∷ rest) =
        let known = answers.clock_info c (s c.key) in
        let fits_a = get_stake_state-Fits s a (bytes a.key) in
        let fits_b = get_stake_state-Fits s b (bytes b.key) in
        grind (
          arith, collect_signers-Halts, get_stake_state-Halts, mergeable-Halts,
          metas_can_merge-Halts, merge-Halts, store_merged-Halts, set_stake_state-Halts,
          relocate_lamports-Halts,
        )
