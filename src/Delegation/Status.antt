-- ===== src/Delegation/Status.antt =====
-- What `stake_activating_and_deactivating` of program/src/state/delegation.rs reports, for any
-- history and any floating-point unit.
use pinocchio_stake_program.Base.{
  ℕ, ◌+◌, ◌-◌, ◌≤◌, ◌<◌, ◌≡◌, ◌⊎◌, inl, Result, ok, err, Ends, Option, none, some, arith, program,
  panicked, out_of_fuel, ◌>>=◌,
}
use pinocchio_stake_program.Types.{u64_mod, Delegation}
use pinocchio_stake_program.Runtime.{F64}
use pinocchio_stake_program.History.{StakeHistoryEntry, History}
use pinocchio_stake_program.Delegation.{
  activation_round, deactivation_round, activate_since, stake_and_activating, is_bootstrap,
  deactivate_since, status_of, stake_activating_and_deactivating,
}
use pinocchio_stake_program.Delegation.Loop.{
  NoFuel, run_rounds-Ends, activation_round-keeps, deactivation_round-keeps,
}

-- The two parts make up the delegated stake, or both are nothing.
abbrev pub IsSplit : Delegation → ℕ × ℕ → Type 0
IsSplit d (effective, activating) =
    (effective + activating ≡ d.stake) ⊎ ((effective ≡ 0) × (activating ≡ 0))

-- Effective and activating stake stay within the delegated stake. Before the deactivation epoch
-- nothing deactivates; from then on all the effective stake does, and nothing activates.
pub record IsStatus (d : Delegation) (tgt : ℕ) (status : StakeHistoryEntry) : Type 0 where
  pub within : status.effective + status.activating ≤ d.stake
  pub phase :
      ((tgt < d.deactivation_epoch) × (status.deactivating ≡ 0))
      ⊎ ((d.deactivation_epoch ≤ tgt)
          × (status.deactivating ≡ status.effective)
          × (status.activating ≡ 0))

pub Ends-bind :
    {A B : Type 0} (P : A → Type 0) (Q : B → Type 0) (m : Result A) (f : A → Result B)
    → Ends P m
    → ((a : A) → P a → Ends Q (f a))
    → Ends Q (m >>= f)
Ends-bind P Q (ok a) f h k = k a h
Ends-bind P Q (err (program e)) f h k = tt
Ends-bind P Q (err panicked) f h k = tt
Ends-bind P Q (err out_of_fuel) f h k = h

module _ (f64 : F64) (history : History) (rate_epoch : Option ℕ) (total : NoFuel history) where
  activate_since-Ends :
      (d : Delegation) (tgt : ℕ) (entry : Option StakeHistoryEntry)
      → tgt < u64_mod
      → d.stake < u64_mod
      → d.activation_epoch < tgt
      → Ends (IsSplit d) (activate_since f64 history rate_epoch d tgt entry)
  unfolding activate_since
  activate_since-Ends d tgt none w ws h = inl (omega arith)
  activate_since-Ends d tgt (some cluster) w ws h =
      Ends-bind (λ r. r ≤ d.stake) (IsSplit d) _ _
        (run_rounds-Ends (λ r. r ≤ d.stake) tgt
          (activation_round f64 history rate_epoch d.stake tgt d.deactivation_epoch)
          (λ epoch c s hs p.
            activation_round-keeps f64 history rate_epoch total d.stake tgt d.deactivation_epoch
              epoch c s w hs p)
          (tgt - d.activation_epoch) d.activation_epoch cluster 0 h (omega arith) (omega arith))
        (λ current p. inl (omega arith))

  activate_from-Ends :
      (d : Delegation) (tgt : ℕ)
      → tgt < u64_mod
      → d.stake < u64_mod
      → d.activation_epoch < tgt
      → Ends
          (IsSplit d)
          (history d.activation_epoch >>= activate_since f64 history rate_epoch d tgt)
  activate_from-Ends d tgt w ws h =
      Ends-bind (λ _. Unit {0}) (IsSplit d) _ _ (total d.activation_epoch)
        (λ entry _. activate_since-Ends d tgt entry w ws h)

  pub stake_and_activating-Ends :
      (d : Delegation) (tgt : ℕ)
      → tgt < u64_mod
      → d.stake < u64_mod
      → Ends (IsSplit d) (stake_and_activating f64 history rate_epoch d tgt)
  unfolding stake_and_activating is_bootstrap
  stake_and_activating-Ends d tgt w ws = ground (arith, activate_from-Ends d tgt w ws)

  deactivate_since-Ends :
      (d : Delegation) (tgt effective : ℕ) (entry : Option StakeHistoryEntry)
      → tgt < u64_mod
      → effective ≤ d.stake
      → d.deactivation_epoch < tgt
      → Ends (IsStatus d tgt) (deactivate_since f64 history rate_epoch d tgt effective entry)
  unfolding deactivate_since
  deactivate_since-Ends d tgt effective none w we h = ground arith
  deactivate_since-Ends d tgt effective (some cluster) w we h =
      Ends-bind (λ r. r ≤ d.stake) (IsStatus d tgt) _ _
        (run_rounds-Ends (λ r. r ≤ d.stake) tgt (deactivation_round f64 history rate_epoch tgt)
          (λ epoch c s hs p.
            deactivation_round-keeps f64 history rate_epoch total d.stake tgt epoch c s w hs p)
          (tgt - d.deactivation_epoch) d.deactivation_epoch cluster effective h (omega arith) we)
        (λ current p. ground arith)

  deactivate_from-Ends :
      (d : Delegation) (tgt effective : ℕ)
      → tgt < u64_mod
      → effective ≤ d.stake
      → d.deactivation_epoch < tgt
      → Ends
          (IsStatus d tgt)
          (history d.deactivation_epoch >>= deactivate_since f64 history rate_epoch d tgt effective)
  deactivate_from-Ends d tgt effective w we h =
      Ends-bind (λ _. Unit {0}) (IsStatus d tgt) _ _ (total d.deactivation_epoch)
        (λ entry _. deactivate_since-Ends d tgt effective entry w we h)

  status_of-Ends :
      (d : Delegation) (tgt effective activating : ℕ)
      → tgt < u64_mod
      → effective + activating ≤ d.stake
      → Ends (IsStatus d tgt) (status_of f64 history rate_epoch d tgt (effective, activating))
  unfolding status_of
  status_of-Ends d tgt effective activating w h =
      ground (arith, deactivate_from-Ends d tgt effective w)

  -- The loops of `stake_activating_and_deactivating` end within their fuel. A status that it
  -- returns has an effective and an activating stake that together stay within the delegated
  -- stake; before the deactivation epoch nothing deactivates, and from then on all the effective
  -- stake does and nothing activates.
  pub stake_activating_and_deactivating-IsStatus :
      (d : Delegation) (tgt : ℕ)
      → tgt < u64_mod
      → d.stake < u64_mod
      → Ends (IsStatus d tgt) (stake_activating_and_deactivating f64 history rate_epoch d tgt)
  unfolding stake_activating_and_deactivating
  stake_activating_and_deactivating-IsStatus d tgt w ws =
      Ends-bind (IsSplit d) (IsStatus d tgt) _ _ (stake_and_activating-Ends d tgt w ws)
        (λ (effective, activating) h. status_of-Ends d tgt effective activating w (ground arith))
