-- ===== src/Effects/Kinds.antt =====
-- The metadata that a `MergeKind` carries (program/src/state/merge_kind.rs, helpers/merge.rs) are
-- those of the account's state, so that what a merge or a move writes is a change of that state.
use pinocchio_stake_program.Base.{ℕ, ◌≡◌, refl, true, some, ok, Gives, Post, arith, inl}
use pinocchio_stake_program.Types.{
  Meta, Stake, StakeFlags, StakeStateV2, uninitialized, initialized, staked, rewards_pool, Clock,
}
use pinocchio_stake_program.Runtime.{AccountInfo, Store, Runtime, F64}
use pinocchio_stake_program.History.{History}
use pinocchio_stake_program.Merge.{
  MergeKind, inactive, activation_epoch_kind, fully_active, kind_meta, get_if_mergeable,
  classify_stake, classify_status, combine, merge,
}
use pinocchio_stake_program.Helpers.{get_stake_state}
use pinocchio_stake_program.Instruction.Move.{or_loose, shared_checks}
use pinocchio_stake_program.Instruction.Move.Checks.{or_loose-strict}
use pinocchio_stake_program.Effects.{HasMeta, Change, BecomesStaked, BecomesInitialized}

pub HasMeta-BecomesStaked :
    (old : StakeStateV2) (m : Meta) (k : Stake) (flags : StakeFlags)
    → HasMeta old m
    → BecomesStaked old m k flags
HasMeta-BecomesStaked (initialized m') m k flags h = h
HasMeta-BecomesStaked (staked m' k' flags') m k flags h = inl h
HasMeta-BecomesStaked uninitialized m k flags h = tt
HasMeta-BecomesStaked rewards_pool m k flags h = h

pub HasMeta-BecomesInitialized :
    (old : StakeStateV2) (m : Meta) → HasMeta old m → BecomesInitialized old m
HasMeta-BecomesInitialized (initialized m') m h = rw h refl
HasMeta-BecomesInitialized (staked m' k' flags') m h = h
HasMeta-BecomesInitialized uninitialized m h = tt
HasMeta-BecomesInitialized rewards_pool m h = h

-- Two states with the same metadata may follow each other.
HasMeta-Change :
    (old new : StakeStateV2) (m : Meta) → HasMeta old m → HasMeta new m → Change old new
HasMeta-Change old uninitialized m h h' = tt
HasMeta-Change old (initialized m') m h h' = HasMeta-BecomesInitialized old m' (rw (← h') h)
HasMeta-Change old (staked m' k flags) m h h' = HasMeta-BecomesStaked old m' k flags (rw (← h') h)
HasMeta-Change old rewards_pool m h h' = h'

module _ (f64 : F64) (history : History) where
  pub get_if_mergeable-HasMeta :
      (state : StakeStateV2) (lamports : ℕ) (clock : Clock) {kind : MergeKind}
      → get_if_mergeable f64 history state lamports clock ≡ ok kind
      → HasMeta state (kind_meta kind)
  unfolding get_if_mergeable classify_stake classify_status
  get_if_mergeable-HasMeta (staked m k flags) lamports clock h = grind arith
  get_if_mergeable-HasMeta (initialized m) lamports clock h = grind arith
  get_if_mergeable-HasMeta uninitialized lamports clock h = cc
  get_if_mergeable-HasMeta rewards_pool lamports clock h = cc

-- A merge writes a stake with the metadata of the kind that it merges into.
merge-HasMeta :
    (kind source : MergeKind) {new : StakeStateV2}
    → merge kind source ≡ ok (some new)
    → HasMeta new (kind_meta kind)
unfolding merge combine
merge-HasMeta (inactive m l f) (inactive m' l' f') h = grind arith
merge-HasMeta (inactive m l f) (activation_epoch_kind m' k' f') h = grind arith
merge-HasMeta (inactive m l f) (fully_active m' k') h = grind arith
merge-HasMeta (activation_epoch_kind m k f) (inactive m' l' f') h = grind arith
merge-HasMeta (activation_epoch_kind m k f) (activation_epoch_kind m' k' f') h = grind arith
merge-HasMeta (activation_epoch_kind m k f) (fully_active m' k') h = grind arith
merge-HasMeta (fully_active m k) (inactive m' l' f') h = grind arith
merge-HasMeta (fully_active m k) (activation_epoch_kind m' k' f') h = grind arith
merge-HasMeta (fully_active m k) (fully_active m' k') h = grind arith

module _ (rt : Runtime) where
  -- The state that a merge stores is a change of the destination's.
  pub merge-Change :
      (history : History) (state : StakeStateV2) (lamports : ℕ) (clock : Clock)
      (kind source : MergeKind) {new : StakeStateV2}
      → get_if_mergeable rt.f64 history state lamports clock ≡ ok kind
      → merge kind source ≡ ok (some new)
      → Change state new
  merge-Change history state lamports clock kind source {new} h merged =
      HasMeta-Change state new (kind_meta kind)
        (get_if_mergeable-HasMeta rt.f64 history state lamports clock h)
        (merge-HasMeta kind source merged)

or_loose-strict-HasMeta :
    (f64 : F64) (history : History) (state : StakeStateV2) (lamports : ℕ) (clock : Clock)
    {kind : MergeKind}
    → or_loose (get_if_mergeable f64 history state lamports clock) true state lamports clock
      ≡ ok kind
    → HasMeta state (kind_meta kind)
or_loose-strict-HasMeta f64 history state lamports clock h =
    get_if_mergeable-HasMeta f64 history state lamports clock
      (or_loose-strict (get_if_mergeable f64 history state lamports clock) state lamports clock h)

-- The accounts that pass the shared checks are stake accounts with the metadata of their kinds.
pub shared_checks-HasMeta :
    (rt : Runtime) (s : Store) (source : AccountInfo) (n : ℕ) (destination authority : AccountInfo)
    → Post
        (λ (kinds : MergeKind × MergeKind).
          Gives (get_stake_state s source) (λ state. HasMeta state (kind_meta kinds.0))
          × Gives (get_stake_state s destination) (λ state. HasMeta state (kind_meta kinds.1)))
        (shared_checks rt s source n destination authority true true)
unfolding shared_checks
shared_checks-HasMeta rt s source n destination authority = grind (arith, or_loose-strict-HasMeta)
