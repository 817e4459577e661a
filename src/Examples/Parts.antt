-- ===== src/Examples/Parts.antt =====
-- The theorems on the codec, the delegation's arithmetic and the merge, at concrete states.
use pinocchio_stake_program.Merge.{active_delegations_can_merge}
use pinocchio_stake_program.Base.{ℕ, ◌≡◌, ◌≤◌, ◌<◌, none, List, ok, refl, arith, replicate, Ends}
use pinocchio_stake_program.Types.{Stake, staked, Fits, MetaFits, StakeFits, empty_flags}
use pinocchio_stake_program.Codec.{serialize, deserialize}
use pinocchio_stake_program.Codec.RoundTrip.{deserialize-serialize}
use pinocchio_stake_program.History.{get_entry}
use pinocchio_stake_program.History.Entries.{get_entry-Ends}
use pinocchio_stake_program.Delegation.{
  stake_activating_and_deactivating, perpetual_new_warmup_cooldown_rate_epoch,
}
use pinocchio_stake_program.Delegation.Status.{IsStatus, stake_activating_and_deactivating-IsStatus}
use pinocchio_stake_program.Merge.{
  MergeKind, fully_active, merge, get_if_mergeable, stake_weighted_credits_observed,
  merge_delegation_stake_and_credits_observed,
}
use pinocchio_stake_program.Merge.Credits.{
  IsCeilAverage, merge_delegation-bounds, merge_credits_too_low,
}
use pinocchio_stake_program.Merge.Classify.{IsKind, reading_at, get_if_mergeable-IsKind}
use pinocchio_stake_program.Merge.Combine.{MergesTo, merge-MergesTo}
use pinocchio_stake_program.Examples.{rt, clock, integers, or_else, metadata, stake_50}

metadata_fits : MetaFits metadata
metadata_fits = record {
  rent_exempt_reserve_fits = omega arith;
  staker_fits = omega arith;
  withdrawer_fits = omega arith;
  unix_timestamp_fits = omega arith;
  epoch_fits = omega arith;
  custodian_fits = omega arith;
}

stake_fits : StakeFits stake_50
stake_fits = record {
  voter_pubkey_fits = omega arith;
  stake_fits = omega arith;
  activation_epoch_fits = omega arith;
  deactivation_epoch_fits = omega arith;
  warmup_cooldown_rate_fits = omega arith;
  credits_observed_fits = omega arith;
}

staked-Fits : Fits (staked metadata stake_50 empty_flags)
staked-Fits = (metadata_fits, stake_fits, omega arith)

deserialize-serialize_example :
    (out : List ℕ) × (serialize (staked metadata stake_50 empty_flags) (replicate 208 7) ≡ ok out)
    × (deserialize out ≡ ok (staked metadata stake_50 empty_flags))
deserialize-serialize_example =
    deserialize-serialize (staked metadata stake_50 empty_flags) (replicate 208 7) staked-Fits
      (omega arith)

stake_activating_and_deactivating-IsStatus_example : Ends (IsStatus stake_50.delegation 10) (
    stake_activating_and_deactivating integers
      (get_entry rt 10)
      perpetual_new_warmup_cooldown_rate_epoch
      stake_50.delegation
      10)
stake_activating_and_deactivating-IsStatus_example =
    stake_activating_and_deactivating-IsStatus integers (get_entry rt 10)
      perpetual_new_warmup_cooldown_rate_epoch (get_entry-Ends rt 10) stake_50.delegation 10
      (omega arith) (omega arith)

get_if_mergeable-IsKind_example :
    Ends
      (IsKind
        (reading_at integers (get_entry rt 10) 10)
        (staked metadata stake_50 empty_flags)
        60
        10)
      (get_if_mergeable integers (get_entry rt 10) (staked metadata stake_50 empty_flags) 60 clock)
get_if_mergeable-IsKind_example =
    get_if_mergeable-IsKind integers (get_entry rt 10) (get_entry-Ends rt 10)
      (staked metadata stake_50 empty_flags) 60 clock staked-Fits (omega arith)

abbrev active : MergeKind
active = fully_active metadata stake_50

merge-MergesTo_example : MergesTo active active (or_else none (merge active active))
unfolding merge active_delegations_can_merge merge_delegation_stake_and_credits_observed
    stake_weighted_credits_observed
merge-MergesTo_example = merge-MergesTo active active refl

abbrev grown : Stake
grown = or_else stake_50 (merge_delegation_stake_and_credits_observed stake_50 10 8)

merge_delegation-bounds_example :
    (grown.delegation.stake ≡ 60)
    × (grown.delegation.stake < 18446744073709551616)
    × (4 ≤ grown.credits_observed)
    × (grown.credits_observed ≤ 8)
unfolding merge_delegation_stake_and_credits_observed stake_weighted_credits_observed
merge_delegation-bounds_example =
    merge_delegation-bounds stake_50 10 8 4 8 (omega arith) refl (omega arith) (omega arith)
      (omega arith) (omega arith)

abbrev unseen : Stake
unseen = record stake_50 { credits_observed = 0 }

abbrev merged : Stake
merged = or_else unseen (merge_delegation_stake_and_credits_observed unseen 50 6)

merge_credits_too_low_example :
    (merged.credits_observed ≡ 2) × ¬ (IsCeilAverage 0 50 6 50 merged.credits_observed)
unfolding merge_delegation_stake_and_credits_observed stake_weighted_credits_observed
merge_credits_too_low_example = merge_credits_too_low unseen 2 refl (omega arith) (omega arith) refl
