-- ===== src/Termination/Stakes.antt =====
-- What reads a delegation's status ends: program/src/state/merge_kind.rs, the redelegation of
-- program/src/helpers/utils.rs, and the merge of program/src/helpers/merge.rs.
use pinocchio_stake_program.Base.{ℕ, ◌<◌, Option, arith, Halts, Halts-bind, none, some}
use pinocchio_stake_program.Types.{
  Pubkey, Meta, Delegation, Stake, StakeFlags, StakeStateV2, uninitialized, initialized, staked,
  rewards_pool, Clock, u64_mod, Fits,
}
use pinocchio_stake_program.Runtime.{F64, Runtime}
use pinocchio_stake_program.History.{StakeHistoryEntry, History, get_entry}
use pinocchio_stake_program.Termination.Leaves.{IsCurrent, get_entry-Halts}
use pinocchio_stake_program.Delegation.{
  perpetual_new_warmup_cooldown_rate_epoch, effective_stake, split, deactivate,
}
use pinocchio_stake_program.Termination.Rounds.{status-Halts}
use pinocchio_stake_program.Merge.{
  MergeKind, inactive, activation_epoch_kind, fully_active, classify_status, classify_stake,
  get_if_mergeable, classify_loose, metas_can_merge, merge, combine, delegations_ok,
  active_delegations_can_merge, merge_delegation_stake_and_credits_observed, checked_add,
}
use pinocchio_stake_program.Helpers.{redelegate_effective, redelegate_stake_with_credits}

pub split-Halts : (k : Stake) (a b : ℕ) → Halts (split k a b)
unfolding split
split-Halts k a b = ground arith

pub deactivate-Halts : (k : Stake) (epoch : ℕ) → Halts (deactivate k epoch)
unfolding deactivate
deactivate-Halts k epoch = ground arith

module _ (f64 : F64) (history : History) (total : (epoch : ℕ) → Halts (history epoch)) where
  pub effective_stake-Halts :
      (rate_epoch : Option ℕ) (d : Delegation) (tgt : ℕ)
      → tgt < u64_mod
      → d.stake < u64_mod
      → Halts (effective_stake f64 history rate_epoch d tgt)
  unfolding effective_stake
  effective_stake-Halts rate_epoch d tgt w ws =
      Halts-bind _ _ (status-Halts f64 history total rate_epoch d tgt w ws) λ status. tt

  pub redelegate_stake_with_credits-Halts :
      (k : Stake) (lamports : ℕ) (voter : Pubkey) (credits epoch : ℕ)
      → epoch < u64_mod
      → k.delegation.stake < u64_mod
      → Halts (redelegate_stake_with_credits f64 history k lamports voter credits epoch)
  unfolding redelegate_stake_with_credits redelegate_effective
  redelegate_stake_with_credits-Halts k lamports voter credits epoch w ws =
      Halts-bind _ _
        (effective_stake-Halts perpetual_new_warmup_cooldown_rate_epoch k.delegation epoch w ws)
        λ effective. ground arith

  classify_status-Halts :
      (m : Meta) (k : Stake) (flags : StakeFlags) (lamports : ℕ) (clock : Clock)
      (status : StakeHistoryEntry)
      → Halts (classify_status m k flags lamports clock status)
  unfolding classify_status
  classify_status-Halts m k flags lamports clock status = ground arith

  get_if_mergeable-Halts :
      (state : StakeStateV2) (lamports : ℕ) (clock : Clock)
      → Fits state
      → clock.epoch < u64_mod
      → Halts (get_if_mergeable f64 history state lamports clock)
  unfolding get_if_mergeable classify_stake
  get_if_mergeable-Halts (staked m k flags) lamports clock fits w =
      let read =
        Halts-bind _ (classify_status m k flags lamports clock)
          (status-Halts f64 history total perpetual_new_warmup_cooldown_rate_epoch k.delegation
            clock.epoch w fits.1.stake_fits)
          (classify_status-Halts m k flags lamports clock) in
      ground arith
  get_if_mergeable-Halts (initialized m) lamports clock fits w = tt
  get_if_mergeable-Halts uninitialized lamports clock fits w = tt
  get_if_mergeable-Halts rewards_pool lamports clock fits w = tt

-- At the current epoch, by the history that the runtime keeps.
pub mergeable-Halts :
    (rt : Runtime) (state : StakeStateV2) (lamports : ℕ) (clock : Clock)
    → Fits state
    → IsCurrent rt clock.epoch
    → Halts (get_if_mergeable rt.f64 (get_entry rt clock.epoch) state lamports clock)
mergeable-Halts rt state lamports clock fits now =
    get_if_mergeable-Halts rt.f64 (get_entry rt clock.epoch) (get_entry-Halts rt clock.epoch now)
      state lamports clock fits now.epoch_fits

pub classify_loose-Halts :
    (state : StakeStateV2) (lamports : ℕ) (clock : Clock)
    → Halts (classify_loose state lamports clock)
unfolding classify_loose
classify_loose-Halts (staked m k flags) lamports clock = ground arith
classify_loose-Halts (initialized m) lamports clock = tt
classify_loose-Halts uninitialized lamports clock = tt
classify_loose-Halts rewards_pool lamports clock = tt

pub metas_can_merge-Halts : (a b : Meta) (clock : Clock) → Halts (metas_can_merge a b clock)
unfolding metas_can_merge
metas_can_merge-Halts a b clock = ground arith

delegations_ok-Halts : (a b : Option Stake) → Halts (delegations_ok a b)
unfolding delegations_ok active_delegations_can_merge
delegations_ok-Halts none b = tt
delegations_ok-Halts (some k) none = tt
delegations_ok-Halts (some k) (some j) = ground arith

pub checked_add-Halts : (a b : ℕ) → Halts (checked_add a b)
checked_add-Halts a b = ground arith

pub merged_stake-Halts :
    (k : Stake) (n credits : ℕ) → Halts (merge_delegation_stake_and_credits_observed k n credits)
unfolding merge_delegation_stake_and_credits_observed
merged_stake-Halts k n credits = grind arith

combine-Halts : (a b : MergeKind) → Halts (combine a b)
unfolding combine
combine-Halts (inactive m l f) (inactive m' l' f') = tt
combine-Halts (inactive m l f) (activation_epoch_kind m' k' f') = tt
combine-Halts (inactive m l f) (fully_active m' k') = tt
combine-Halts (activation_epoch_kind m k f) (inactive m' l' f') =
    Halts-bind _ _ (checked_add-Halts k.delegation.stake l') λ amount. tt
combine-Halts (activation_epoch_kind m k f) (activation_epoch_kind m' k' f') =
    Halts-bind _ _ (checked_add-Halts m'.rent_exempt_reserve k'.delegation.stake)
      λ amount. Halts-bind _ _ (merged_stake-Halts k amount k'.credits_observed) λ grown. tt
combine-Halts (activation_epoch_kind m k f) (fully_active m' k') = tt
combine-Halts (fully_active m k) (fully_active m' k') =
    Halts-bind _ _ (merged_stake-Halts k k'.delegation.stake k'.credits_observed) λ grown. tt
combine-Halts (fully_active m k) (inactive m' l' f') = tt
combine-Halts (fully_active m k) (activation_epoch_kind m' k' f') = tt

pub merge-Halts : (a b : MergeKind) → Halts (merge a b)
unfolding merge
merge-Halts a b = Halts-bind _ _ (delegations_ok-Halts _ _) λ done. combine-Halts a b
