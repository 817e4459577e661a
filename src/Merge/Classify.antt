-- ===== src/Merge/Classify.antt =====
-- `MergeKind::get_if_mergeable` of program/src/state/merge_kind.rs: what each kind says of the
-- account that it was made from.
use pinocchio_stake_program.Base.{
  ℕ, ◌≤◌, ◌<◌, ◌≡◌, ◌⊎◌, arith, Ends, ◌>>=◌, refl, Result, ok, err, program, panicked, out_of_fuel,
  Gives,
}
use pinocchio_stake_program.Types.{
  Meta, Stake, StakeFlags, StakeStateV2, uninitialized, initialized, staked, rewards_pool, Clock,
  u64_max, u64_mod, empty_flags, Fits,
}
use pinocchio_stake_program.Runtime.{F64}
use pinocchio_stake_program.History.{StakeHistoryEntry, History}
use pinocchio_stake_program.Delegation.{
  stake_activating_and_deactivating, perpetual_new_warmup_cooldown_rate_epoch,
}
use pinocchio_stake_program.Delegation.Loop.{NoFuel}
use pinocchio_stake_program.Delegation.Status.{IsStatus, stake_activating_and_deactivating-IsStatus}
use pinocchio_stake_program.Merge.{
  MergeKind, inactive, activation_epoch_kind, fully_active, get_if_mergeable, classify_stake,
  classify_status, metas_can_merge,
}

-- What the stake of an account is at an epoch, as the kinds ask for it.
abbrev pub Reading : Type 0
Reading = Stake → Result StakeHistoryEntry

abbrev pub reading_at : F64 → History → ℕ → Reading
reading_at f64 history epoch k =
    stake_activating_and_deactivating f64 history perpetual_new_warmup_cooldown_rate_epoch
      k.delegation epoch

-- Nothing warms up or cools down, and all of the delegated stake is effective, or none of it.
abbrev pub Settled : Stake → StakeHistoryEntry → Type 0
Settled k status =
    (status.activating ≡ 0)
    × (status.deactivating ≡ 0)
    × ((status.effective ≡ k.delegation.stake) ⊎ (status.effective ≡ 0))

-- It warms up, and nothing of it is effective yet.
abbrev pub Activating : StakeHistoryEntry → Type 0
Activating status = (status.effective ≡ 0) × (0 < status.activating) × (status.deactivating ≡ 0)

abbrev pub Idle : StakeHistoryEntry → Type 0
Idle status = (status.effective ≡ 0) × (status.activating ≡ 0) × (status.deactivating ≡ 0)

-- A fully active or activating kind keeps the account's parts, and no deactivation is scheduled: the
-- first is past its activation epoch or settled, and the second is activating. An inactive one
-- stands for an account that is not delegated, or whose stake is idle.
abbrev pub IsKind : Reading → StakeStateV2 → ℕ → ℕ → MergeKind → Type 0
IsKind reading state lamports epoch (fully_active m k) =
    (flags : StakeFlags) × (state ≡ staked m k flags)
    × (k.delegation.deactivation_epoch ≡ u64_max)
    × (0 < k.delegation.stake)
    × ((k.delegation.activation_epoch < epoch) ⊎ Gives (reading k) (λ status. Settled k status))
IsKind reading state lamports epoch (activation_epoch_kind m k flags) =
    (state ≡ staked m k flags)
    × (k.delegation.deactivation_epoch ≡ u64_max)
    × (0 < k.delegation.stake)
    × (epoch ≤ k.delegation.activation_epoch)
    × Gives (reading k) (λ status. Activating status)
IsKind reading state lamports epoch (inactive m l flags) =
    (l ≡ lamports)
    × (((state ≡ initialized m) × (flags ≡ empty_flags))
        ⊎ ((k : Stake) × (state ≡ staked m k flags)
            × ((k.delegation.stake ≡ 0) ⊎ (k.delegation.deactivation_epoch < epoch))
            × Gives (reading k) (λ status. Idle status)))

Gives-at : {A : Type 0} (r : Result A) (P : A → Type 0) (a : A) → r ≡ ok a → P a → Gives r P
Gives-at r P a e p = rw e p

module _ (m : Meta) (k : Stake) (flags : StakeFlags) (lamports : ℕ) (clock : Clock) where
  classify_status-IsKind :
      (reading : Reading) (status : StakeHistoryEntry)
      → reading k ≡ ok status
      → clock.epoch < u64_max
      → (k.delegation.deactivation_epoch ≡ u64_max)
        ⊎ (k.delegation.deactivation_epoch < clock.epoch)
      → IsStatus k.delegation clock.epoch status
      → Ends
          (IsKind reading (staked m k flags) lamports clock.epoch)
          (classify_status m k flags lamports clock status)
  unfolding classify_status
  classify_status-IsKind reading status e w past h =
      let settled = Gives-at (reading k) (λ x. Settled k x) status e in
      let activating = Gives-at (reading k) (λ x. Activating x) status e in
      let idle = Gives-at (reading k) (λ x. Idle x) status e in ground arith

  -- The kind of a status that was read, and that it was.
  read-IsKind :
      (reading : Reading)
      → clock.epoch < u64_max
      → (k.delegation.deactivation_epoch ≡ u64_max)
        ⊎ (k.delegation.deactivation_epoch < clock.epoch)
      → (r : Result StakeHistoryEntry) → reading k ≡ r
      → Ends (IsStatus k.delegation clock.epoch) r
      → Ends
          (IsKind reading (staked m k flags) lamports clock.epoch)
          (r >>= classify_status m k flags lamports clock)
  read-IsKind reading w past (ok status) e h = classify_status-IsKind reading status e w past h
  read-IsKind reading w past (err (program x)) e h = tt
  read-IsKind reading w past (err panicked) e h = tt
  read-IsKind reading w past (err out_of_fuel) e h = absurd h

module _ (f64 : F64) (history : History) (total : NoFuel history) where
  read_status-IsKind :
      (m : Meta) (k : Stake) (flags : StakeFlags) (lamports : ℕ) (clock : Clock)
      → clock.epoch < u64_max
      → k.delegation.stake < u64_mod
      → (k.delegation.deactivation_epoch ≡ u64_max)
        ⊎ (k.delegation.deactivation_epoch < clock.epoch)
      → Ends
          (IsKind (reading_at f64 history clock.epoch) (staked m k flags) lamports clock.epoch)
          (reading_at f64 history clock.epoch k >>= classify_status m k flags lamports clock)
  read_status-IsKind m k flags lamports clock w ws past =
      read-IsKind m k flags lamports clock (reading_at f64 history clock.epoch) w past
        (reading_at f64 history clock.epoch k) refl
        (stake_activating_and_deactivating-IsStatus f64 history
          perpetual_new_warmup_cooldown_rate_epoch total k.delegation clock.epoch (omega arith) ws)

  classify_stake-IsKind :
      (m : Meta) (k : Stake) (flags : StakeFlags) (lamports : ℕ) (clock : Clock)
      → clock.epoch < u64_max
      → k.delegation.stake < u64_mod
      → k.delegation.deactivation_epoch < u64_mod
      → Ends
          (IsKind (reading_at f64 history clock.epoch) (staked m k flags) lamports clock.epoch)
          (classify_stake f64 history m k flags lamports clock)
  unfolding classify_stake
  classify_stake-IsKind m k flags lamports clock w ws wd =
      ground (arith, read_status-IsKind m k flags lamports clock w ws)

  -- Of a state whose fields fit their widths, at an epoch below the last `u64` and with a history
  -- that is not out of fuel, the loops behind `get_if_mergeable` end, and the kind that it
  -- answers keeps the account's metadata, stake and flags. A fully active one has a positive
  -- stake, no deactivation scheduled, and an activation epoch that is past (it may still warm up
  -- then), or a status at the clock's epoch at which nothing warms up or cools down and all of
  -- the stake is effective or none. An activating one has the same, except that the activation
  -- epoch is not past and that the status has something that warms up and nothing effective. An
  -- inactive one is of an account that is not delegated, or of a stake that is zero or past its
  -- deactivation epoch and all of whose status is zero.
  pub get_if_mergeable-IsKind :
      (state : StakeStateV2) (lamports : ℕ) (clock : Clock)
      → Fits state
      → clock.epoch < u64_max
      → Ends
          (IsKind (reading_at f64 history clock.epoch) state lamports clock.epoch)
          (get_if_mergeable f64 history state lamports clock)
  unfolding get_if_mergeable
  get_if_mergeable-IsKind (staked m k flags) lamports clock fits w =
      classify_stake-IsKind m k flags lamports clock w fits.1.stake_fits
        fits.1.deactivation_epoch_fits
  get_if_mergeable-IsKind (initialized m) lamports clock fits w = ground arith
  get_if_mergeable-IsKind uninitialized lamports clock fits w = tt
  get_if_mergeable-IsKind rewards_pool lamports clock fits w = tt

-- Whether two accounts' metadata can merge does not depend on which is the destination.
pub metas_can_merge_comm :
    (a b : Meta) (clock : Clock) → metas_can_merge a b clock ≡ metas_can_merge b a clock
unfolding metas_can_merge
metas_can_merge_comm a b clock = ground arith
