-- ===== src/Termination/Rounds.antt =====
-- The loops of program/src/state/delegation.rs do not panic where the history does not.
use pinocchio_stake_program.Base.{
  ℕ, zero, suc, Option, none, some, Result, ok, err, program, panicked, out_of_fuel, ◌>>=◌, arith,
  Ends, Halts, ◌<◌, ◌-◌,
}
use pinocchio_stake_program.Types.{Delegation, u64_mod}
use pinocchio_stake_program.Runtime.{F64}
use pinocchio_stake_program.History.{StakeHistoryEntry, History}
use pinocchio_stake_program.Delegation.{
  Round, stop, next, after, run_rounds, activation_round, deactivation_round, activate_since,
  stake_and_activating, is_bootstrap, deactivate_since, status_of,
  stake_activating_and_deactivating,
}
use pinocchio_stake_program.Delegation.Status.{IsStatus, stake_activating_and_deactivating-IsStatus}

abbrev Quiet {ℓ} : {A : Type ℓ} → Result A → Type 0
Quiet (ok a) = Unit
Quiet (err (program e)) = Unit
Quiet (err panicked) = ⊥
Quiet (err out_of_fuel) = Unit

Quiet-bind :
    {A B : Type 0} (m : Result A) (f : A → Result B)
    → Quiet m
    → ((a : A) → Quiet (f a))
    → Quiet (m >>= f)
Quiet-bind (ok a) f h g = g a
Quiet-bind (err (program e)) f h g = tt
Quiet-bind (err panicked) f h g = h
Quiet-bind (err out_of_fuel) f h g = tt

Halts-of : {A : Type 0} (P : A → Type 0) (r : Result A) → Ends P r → Quiet r → Halts r
Halts-of P (ok a) h q = tt
Halts-of P (err (program e)) h q = tt
Halts-of P (err panicked) h q = q
Halts-of P (err out_of_fuel) h q = h

Halts-Ends : {A : Type 0} (r : Result A) → Halts r → Ends (λ _. Unit {0}) r
Halts-Ends (ok a) h = tt
Halts-Ends (err (program e)) h = tt
Halts-Ends (err panicked) h = tt
Halts-Ends (err out_of_fuel) h = h

Halts-Quiet : {A : Type 0} (r : Result A) → Halts r → Quiet r
Halts-Quiet (ok a) h = tt
Halts-Quiet (err (program e)) h = tt
Halts-Quiet (err panicked) h = h
Halts-Quiet (err out_of_fuel) h = tt

after-Quiet :
    (rounds : ℕ → StakeHistoryEntry → ℕ → Result ℕ) (r : Result Round)
    → ((epoch : ℕ) (c : StakeHistoryEntry) (s : ℕ) → Quiet (rounds epoch c s))
    → Quiet r
    → Quiet (after rounds r)
unfolding after
after-Quiet rounds (ok (stop result)) h q = tt
after-Quiet rounds (ok (next epoch c s)) h q = h epoch c s
after-Quiet rounds (err (program e)) h q = tt
after-Quiet rounds (err panicked) h q = q
after-Quiet rounds (err out_of_fuel) h q = tt

run_rounds-Quiet :
    (round : ℕ → StakeHistoryEntry → ℕ → Result Round)
    → ((epoch : ℕ) (c : StakeHistoryEntry) (s : ℕ) → Quiet (round epoch c s))
    → (fuel epoch : ℕ) (c : StakeHistoryEntry) (s : ℕ) → Quiet (run_rounds round fuel epoch c s)
unfolding run_rounds
run_rounds-Quiet round h zero epoch c s = tt
run_rounds-Quiet round h (suc fuel) epoch c s =
    after-Quiet (run_rounds round fuel) (round epoch c s) (run_rounds-Quiet round h fuel)
      (h epoch c s)

module _ (f64 : F64) (history : History) (rate_epoch : Option ℕ)
    (quiet : (epoch : ℕ) → Quiet (history epoch)) where
  activation_round-Quiet :
      (delegated tgt deact epoch : ℕ) (c : StakeHistoryEntry) (s : ℕ)
      → Quiet (activation_round f64 history rate_epoch delegated tgt deact epoch c s)
  unfolding activation_round
  activation_round-Quiet delegated tgt deact epoch c s = grind (arith, quiet)

  deactivation_round-Quiet :
      (tgt epoch : ℕ) (c : StakeHistoryEntry) (s : ℕ)
      → Quiet (deactivation_round f64 history rate_epoch tgt epoch c s)
  unfolding deactivation_round
  deactivation_round-Quiet tgt epoch c s = grind (arith, quiet)

  activate_since-Quiet :
      (d : Delegation) (tgt : ℕ) (entry : Option StakeHistoryEntry)
      → Quiet (activate_since f64 history rate_epoch d tgt entry)
  unfolding activate_since
  activate_since-Quiet d tgt none = tt
  activate_since-Quiet d tgt (some c) =
      Quiet-bind _ _
        (run_rounds-Quiet _ (activation_round-Quiet d.stake tgt d.deactivation_epoch)
          (tgt - d.activation_epoch) d.activation_epoch c 0)
        λ current. tt

  stake_and_activating-Quiet :
      (d : Delegation) (tgt : ℕ) → Quiet (stake_and_activating f64 history rate_epoch d tgt)
  unfolding stake_and_activating is_bootstrap
  stake_and_activating-Quiet d tgt =
      let since =
        Quiet-bind (history d.activation_epoch) (activate_since f64 history rate_epoch d tgt)
          (quiet d.activation_epoch) (activate_since-Quiet d tgt) in
      ground arith

  deactivate_since-Quiet :
      (d : Delegation) (tgt effective : ℕ) (entry : Option StakeHistoryEntry)
      → Quiet (deactivate_since f64 history rate_epoch d tgt effective entry)
  unfolding deactivate_since
  deactivate_since-Quiet d tgt effective none = tt
  deactivate_since-Quiet d tgt effective (some c) =
      Quiet-bind _ _
        (run_rounds-Quiet _ (deactivation_round-Quiet tgt) (tgt - d.deactivation_epoch)
          d.deactivation_epoch c effective)
        λ current. tt

  status_of-Quiet :
      (d : Delegation) (tgt : ℕ) (parts : ℕ × ℕ)
      → Quiet (status_of f64 history rate_epoch d tgt parts)
  unfolding status_of
  status_of-Quiet d tgt (effective, activating) =
      let since =
        Quiet-bind (history d.deactivation_epoch)
          (deactivate_since f64 history rate_epoch d tgt effective) (quiet d.deactivation_epoch)
          (deactivate_since-Quiet d tgt effective) in
      ground arith

  status-Quiet :
      (d : Delegation) (tgt : ℕ)
      → Quiet (stake_activating_and_deactivating f64 history rate_epoch d tgt)
  unfolding stake_activating_and_deactivating
  status-Quiet d tgt = Quiet-bind _ _ (stake_and_activating-Quiet d tgt) (status_of-Quiet d tgt)

module _ (f64 : F64) (history : History) (total : (epoch : ℕ) → Halts (history epoch)) where
  pub status-Halts :
      (rate_epoch : Option ℕ) (d : Delegation) (tgt : ℕ)
      → tgt < u64_mod
      → d.stake < u64_mod
      → Halts (stake_activating_and_deactivating f64 history rate_epoch d tgt)
  status-Halts rate_epoch d tgt w ws =
      Halts-of (IsStatus d tgt) _
        (stake_activating_and_deactivating-IsStatus f64 history rate_epoch
          (λ epoch. Halts-Ends (history epoch) (total epoch)) d tgt w ws)
        (status-Quiet f64 history rate_epoch (λ epoch. Halts-Quiet (history epoch) (total epoch)) d
          tgt)
