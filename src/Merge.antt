-- ===== src/Merge.antt =====
-- program/src/helpers/merge.rs and program/src/state/merge_kind.rs: what two stake accounts are to
-- one another, and the stake that they make together.
pub mod Credits
pub mod Classify
pub mod Combine
use pinocchio_stake_program.Base.{
  ℕ, ◌+◌, ◌*◌, ◌/◌, Option, none, some, Result, ok, fail, fail_if, ok_or, ◌>>=◌, ◌>>◌, ltb, leb,
  ◌==◌, ◌!=◌, not, ◌&&◌, ◌||◌, if◌then◌else◌, invalid_account_data, insufficient_funds,
  arithmetic_overflow,
}
use pinocchio_stake_program.Types.{
  Meta, Delegation, Stake, StakeFlags, StakeStateV2, uninitialized, initialized, staked,
  rewards_pool, Clock, u64_max, u64_mod, empty_flags, union, authorized_eq, lockup_eq,
  to_program_error, merge_mismatch,
}
use pinocchio_stake_program.Runtime.{F64}
use pinocchio_stake_program.History.{
  StakeHistoryEntry, History, checked_add_u64, checked_sub, and_then,
}
use pinocchio_stake_program.Delegation.{
  stake_activating_and_deactivating, perpetual_new_warmup_cooldown_rate_epoch,
}
use pinocchio_stake_program.Lockup.{is_in_force}

abbrev pub u128_mod : ℕ
u128_mod = 340282366920938463463374607431768211456

abbrev pub checked_u128 : ℕ → Option ℕ
checked_u128 n = if ltb n u128_mod then some n else none

abbrev pub checked_u64 : ℕ → Option ℕ
checked_u64 n = if ltb n u64_mod then some n else none

abbrev pub checked_div : ℕ → ℕ → Option ℕ
checked_div a b = if b == 0 then none else some (a / b)

-- `helpers::checked_add`
abbrev pub checked_add : ℕ → ℕ → Result ℕ
checked_add a b = ok_or (checked_add_u64 a b) insufficient_funds

unfoldable pub stake_weighted_credits_observed : Stake → ℕ → ℕ → Option ℕ
stake_weighted_credits_observed k absorbed_lamports absorbed_credits_observed =
    if k.credits_observed == absorbed_credits_observed
    then some k.credits_observed
    else and_then (checked_add_u64 k.delegation.stake absorbed_lamports) λ total_stake.
      and_then (checked_u128 (k.credits_observed * k.delegation.stake)) λ stake_weighted_credits.
        and_then (checked_u128 (absorbed_credits_observed * absorbed_lamports))
          λ absorbed_weighted_credits.
            and_then (checked_u128 (stake_weighted_credits + absorbed_weighted_credits)) λ credits.
              and_then (checked_u128 (credits + total_stake)) λ credits_and_stake.
                and_then (checked_sub credits_and_stake 1) λ total_weighted_credits.
                  and_then (checked_div total_weighted_credits total_stake) checked_u64

abbrev pub set_stake_amount : Stake → ℕ → Stake
set_stake_amount k amount = record k { delegation = record (k.delegation) { stake = amount } }

-- The amount is written first, and the credits are weighted with the amount written.
unfoldable pub merge_delegation_stake_and_credits_observed : Stake → ℕ → ℕ → Result Stake
merge_delegation_stake_and_credits_observed k lamports_to_merge source_credits_observed = do
  amount ← checked_add k.delegation.stake lamports_to_merge
  let grown = set_stake_amount k amount
  credits ←
      ok_or (stake_weighted_credits_observed grown lamports_to_merge source_credits_observed)
        arithmetic_overflow
  ok (record grown { credits_observed = credits })

pub data MergeKind : Type 0 where
  inactive : Meta → ℕ → StakeFlags → MergeKind
  activation_epoch_kind : Meta → Stake → StakeFlags → MergeKind
  fully_active : Meta → Stake → MergeKind

abbrev pub kind_meta : MergeKind → Meta
kind_meta (inactive m lamports flags) = m
kind_meta (activation_epoch_kind m k flags) = m
kind_meta (fully_active m k) = m

abbrev pub active_stake : MergeKind → Option Stake
active_stake (inactive m lamports flags) = none
active_stake (activation_epoch_kind m k flags) = some k
active_stake (fully_active m k) = some k

-- The `match (effective, activating, deactivating)` of `get_if_mergeable`, behind its test that
-- nothing deactivates.
unfoldable pub classify_status :
    Meta → Stake → StakeFlags → ℕ → Clock → StakeHistoryEntry → Result MergeKind
classify_status m k flags stake_lamports clock status =
    let delegated = k.delegation.stake in
    let act_epoch = k.delegation.activation_epoch in
    let deact_epoch = k.delegation.deactivation_epoch in
    if ltb 0 status.deactivating
    then fail (to_program_error merge_mismatch)
    else if status.effective == 0 && status.activating == 0 && status.deactivating == 0
    then if ltb 0 delegated && deact_epoch == u64_max
      then ok (fully_active m k)
      else ok (inactive m stake_lamports flags)
    else if status.effective == 0
    then if ltb 0 delegated && deact_epoch == u64_max && ltb act_epoch clock.epoch
      then ok (fully_active m k)
      else if ltb 0 status.activating
      then ok (activation_epoch_kind m k flags)
      else fail (to_program_error merge_mismatch)
    else if status.activating == 0 && status.deactivating == 0 && status.effective == delegated
    then ok (fully_active m k)
    else fail (to_program_error merge_mismatch)

unfoldable pub classify_stake :
    F64 → History → Meta → Stake → StakeFlags → ℕ → Clock → Result MergeKind
unfolding classify_status
classify_stake f64 history m k flags stake_lamports clock =
    let delegated = k.delegation.stake in
    let act_epoch = k.delegation.activation_epoch in
    let deact_epoch = k.delegation.deactivation_epoch in
    if deact_epoch != u64_max && leb clock.epoch deact_epoch
    then fail (to_program_error merge_mismatch)
    else if ltb 0 delegated && deact_epoch == u64_max && ltb act_epoch clock.epoch
    then ok (fully_active m k)
    else (stake_activating_and_deactivating f64 history perpetual_new_warmup_cooldown_rate_epoch
          k.delegation clock.epoch
        >>= classify_status m k flags stake_lamports clock)

-- `MergeKind::get_if_mergeable`
unfoldable pub get_if_mergeable : F64 → History → StakeStateV2 → ℕ → Clock → Result MergeKind
unfolding classify_stake
get_if_mergeable f64 history (staked m k flags) stake_lamports clock =
    classify_stake f64 history m k flags stake_lamports clock
get_if_mergeable f64 history (initialized m) stake_lamports clock =
    ok (inactive m stake_lamports empty_flags)
get_if_mergeable f64 history uninitialized stake_lamports clock =
    fail (to_program_error merge_mismatch)
get_if_mergeable f64 history rewards_pool stake_lamports clock =
    fail (to_program_error merge_mismatch)

-- `classify_loose` of helpers/merge.rs
unfoldable pub classify_loose : StakeStateV2 → ℕ → Clock → Result MergeKind
classify_loose (staked m k flags) stake_lamports clock =
    let act = k.delegation.activation_epoch in
    let deact = k.delegation.deactivation_epoch in
    if deact != u64_max && ltb deact clock.epoch
    then ok (inactive m stake_lamports flags)
    else if leb act clock.epoch && deact == u64_max
    then ok (fully_active m k)
    else ok (activation_epoch_kind m k flags)
classify_loose (initialized m) stake_lamports clock = ok (inactive m stake_lamports empty_flags)
classify_loose uninitialized stake_lamports clock = fail invalid_account_data
classify_loose rewards_pool stake_lamports clock = fail invalid_account_data

unfoldable pub metas_can_merge : Meta → Meta → Clock → Result (Unit {0})
metas_can_merge dest source clock = do
  fail_if (not (authorized_eq dest.authorized source.authorized)) (to_program_error merge_mismatch)
  fail_if
      (not (
        lockup_eq dest.lockup source.lockup
        || (not (is_in_force dest.lockup clock none)
            && not (is_in_force source.lockup clock none))))
      (to_program_error merge_mismatch)

unfoldable pub active_delegations_can_merge : Delegation → Delegation → Result (Unit {0})
active_delegations_can_merge dest source = do
  fail_if (dest.voter_pubkey != source.voter_pubkey) (to_program_error merge_mismatch)
  fail_if (not (dest.deactivation_epoch == u64_max && source.deactivation_epoch == u64_max))
      (to_program_error merge_mismatch)

-- The check of the two delegations, where both kinds are active.
unfoldable pub delegations_ok : Option Stake → Option Stake → Result (Unit {0})
delegations_ok none src = ok tt
delegations_ok (some dst) none = ok tt
delegations_ok (some dst) (some src) = active_delegations_can_merge dst.delegation src.delegation

-- The `match (self, source)` of `merge`.
unfoldable pub combine : MergeKind → MergeKind → Result (Option StakeStateV2)
combine (inactive m l f) (inactive m' l' f') = ok none
combine (inactive m l f) (activation_epoch_kind m' k' f') = ok none
combine (activation_epoch_kind m k dst_flags) (inactive m' src_lamports src_flags) = do
  amount ← checked_add k.delegation.stake src_lamports
  ok (some (staked m (set_stake_amount k amount) (union dst_flags src_flags)))
combine (activation_epoch_kind m k dst_flags) (activation_epoch_kind src_meta src_stake src_flags) =
    do
      src_stake_lamports ← checked_add src_meta.rent_exempt_reserve src_stake.delegation.stake
      k' ←
          merge_delegation_stake_and_credits_observed k src_stake_lamports
            src_stake.credits_observed
      ok (some (staked m k' (union dst_flags src_flags)))
combine (fully_active m k) (fully_active src_meta src_stake) = do
  k' ←
      merge_delegation_stake_and_credits_observed k src_stake.delegation.stake
        src_stake.credits_observed
  ok (some (staked m k' empty_flags))
combine dst src = fail (to_program_error merge_mismatch)

-- `MergeKind::merge`
unfoldable pub merge : MergeKind → MergeKind → Result (Option StakeStateV2)
unfolding delegations_ok combine
merge self source = do delegations_ok (active_stake self) (active_stake source); combine self source
