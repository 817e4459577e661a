-- ===== src/Merge/Combine.antt =====
-- `MergeKind::merge` of program/src/state/merge_kind.rs: the state that two kinds make.
use pinocchio_stake_program.Base.{
  ℕ, ◌+◌, ◌<◌, ◌≡◌, inl, inr, refl, ap, none, some, ok, arith, Option, bind-parts, Result-cases,
}
use pinocchio_stake_program.Types.{
  Meta, Delegation, Stake, StakeFlags, StakeStateV2, staked, u64_mod, empty_flags, union,
}
use pinocchio_stake_program.Merge.{
  MergeKind, inactive, activation_epoch_kind, fully_active, merge, combine, delegations_ok,
  kind_meta, set_stake_amount, active_stake, merge_delegation_stake_and_credits_observed,
}
use pinocchio_stake_program.Merge.Credits.{merge_delegation-delegation}

-- What the source adds to the destination's stake.
abbrev pub brought : MergeKind → MergeKind → ℕ
brought (fully_active m k) (fully_active m' k') = k'.delegation.stake
brought dst (inactive m lamports flags) = lamports
brought dst (activation_epoch_kind m k flags) = m.rent_exempt_reserve + k.delegation.stake
brought dst (fully_active m k) = k.delegation.stake

-- The merged state of an active destination: its metadata, its delegation with the source's stake
-- added, and the flags of both.
abbrev pub IsMerged : MergeKind → MergeKind → Stake → StakeStateV2 → Type 0
IsMerged dst src k state =
    (k' : Stake) × (flags : StakeFlags) × (state ≡ staked (kind_meta dst) k' flags)
    × (k'.delegation ≡ (set_stake_amount k (k.delegation.stake + brought dst src)).delegation)
    × (k'.delegation.stake < u64_mod)

module _ (m : Meta) (k : Stake) (f : StakeFlags) {state : StakeStateV2} where
  activation-inactive :
      (m' : Meta) (l : ℕ) (f' : StakeFlags)
      → combine (activation_epoch_kind m k f) (inactive m' l f') ≡ ok (some state)
      → IsMerged (activation_epoch_kind m k f) (inactive m' l f') k state
  unfolding combine
  activation-inactive m' l f' h =
      (set_stake_amount k (k.delegation.stake + l), union f f', ground arith, refl, ground arith)

  activation-activation :
      (m' : Meta) (k' : Stake) (f' : StakeFlags)
      → combine (activation_epoch_kind m k f) (activation_epoch_kind m' k' f') ≡ ok (some state)
      → IsMerged (activation_epoch_kind m k f) (activation_epoch_kind m' k' f') k state
  unfolding combine
  activation-activation m' k' f' h =
      let l = m'.rent_exempt_reserve + k'.delegation.stake in
      elim (Result-cases (merge_delegation_stake_and_credits_observed k l k'.credits_observed)) [
        | inl (r, e) ↦
            let (d, fits) = merge_delegation-delegation k l k'.credits_observed e in
            (r, union f f', ground arith, d, omega (arith, ap Delegation.stake d))
        | inr (x, e) ↦ absurd (ground arith)
      ]

  active-active :
      (m' : Meta) (k' : Stake)
      → combine (fully_active m k) (fully_active m' k') ≡ ok (some state)
      → IsMerged (fully_active m k) (fully_active m' k') k state
  unfolding combine
  active-active m' k' h =
      let l = k'.delegation.stake in
      elim (Result-cases (merge_delegation_stake_and_credits_observed k l k'.credits_observed)) [
        | inl (r, e) ↦
            let (d, fits) = merge_delegation-delegation k l k'.credits_observed e in
            (r, empty_flags, ground arith, d, omega (arith, ap Delegation.stake d))
        | inr (x, e) ↦ absurd (ground arith)
      ]

-- What `merge` answers, by the destination: an active one takes the source's stake; an inactive
-- one stays as it is, and never takes a fully active source.
abbrev pub MergesTo : MergeKind → MergeKind → Option StakeStateV2 → Type 0
MergesTo (inactive m l f) src none = Unit
MergesTo (inactive m l f) src (some state) = ⊥
MergesTo (activation_epoch_kind m k f) src none = ⊥
MergesTo (activation_epoch_kind m k f) src (some state) =
    IsMerged (activation_epoch_kind m k f) src k state
MergesTo (fully_active m k) src none = ⊥
MergesTo (fully_active m k) src (some state) = IsMerged (fully_active m k) src k state

combine-MergesTo :
    (dst src : MergeKind) {out : Option StakeStateV2}
    → combine dst src ≡ ok out
    → MergesTo dst src out
unfolding combine
combine-MergesTo (inactive m l f) (inactive m' l' f') {out = none} h = tt
combine-MergesTo (inactive m l f) (activation_epoch_kind m' k' f') {out = none} h = tt
combine-MergesTo (inactive m l f) (fully_active m' k') {out = none} h = cc
combine-MergesTo (inactive m l f) (inactive m' l' f') {out = some state} h = cc
combine-MergesTo (inactive m l f) (activation_epoch_kind m' k' f') {out = some state} h = cc
combine-MergesTo (inactive m l f) (fully_active m' k') {out = some state} h = cc
combine-MergesTo (activation_epoch_kind m k f) (inactive m' l f') {out = some state} h =
    activation-inactive m k f m' l f' h
combine-MergesTo (activation_epoch_kind m k f) (activation_epoch_kind m' k' f') {out = some state}
      h =
    activation-activation m k f m' k' f' h
combine-MergesTo (activation_epoch_kind m k f) (fully_active m' k') {out = some state} h = cc
combine-MergesTo (activation_epoch_kind m k f) (inactive m' l f') {out = none} h =
    absurd (ground arith)
combine-MergesTo (activation_epoch_kind m k f) (activation_epoch_kind m' k' f') {out = none} h =
    absurd (ground arith)
combine-MergesTo (activation_epoch_kind m k f) (fully_active m' k') {out = none} h = cc
combine-MergesTo (fully_active m k) (fully_active m' k') {out = some state} h =
    active-active m k empty_flags m' k' h
combine-MergesTo (fully_active m k) (fully_active m' k') {out = none} h = absurd (ground arith)
combine-MergesTo (fully_active m k) (inactive m' l f') h = cc
combine-MergesTo (fully_active m k) (activation_epoch_kind m' k' f') h = cc

-- A merge that succeeds leaves an inactive destination alone, and gives an active one the source's
-- stake: the metadata stays, the amounts add up within 64 bits, the rest of the delegation is kept.
pub merge-MergesTo :
    (dst src : MergeKind) {out : Option StakeStateV2}
    → merge dst src ≡ ok out
    → MergesTo dst src out
unfolding merge
merge-MergesTo dst src {out} h =
    let (u, checked, combined) =
      bind-parts (delegations_ok (active_stake dst) (active_stake src)) (λ _. combine dst src) h in
    combine-MergesTo dst src combined
