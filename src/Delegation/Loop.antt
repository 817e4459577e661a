-- ===== src/Delegation/Loop.antt =====
-- The two loops of program/src/state/delegation.rs, round by round.
use pinocchio_stake_program.Base.{
  ℕ, ◌+◌, ◌≤◌, ◌<◌, zero, suc, ◌≡◌, Result, ok, err, Ends, Option, arith, program, panicked,
  out_of_fuel,
}
use pinocchio_stake_program.Types.{u64_mod}
use pinocchio_stake_program.Runtime.{F64}
use pinocchio_stake_program.History.{StakeHistoryEntry, History}
use pinocchio_stake_program.Delegation.{
  Round, stop, next, after, run_rounds, activation_round, deactivation_round,
}

-- A round that goes on has reached the next epoch, still before the target.
abbrev pub RoundKeeps : (ℕ → Type 0) → ℕ → ℕ → Round → Type 0
RoundKeeps P tgt epoch (stop result) = P result
RoundKeeps P tgt epoch (next epoch' cluster current) =
    (epoch' ≡ epoch + 1) × (epoch' < tgt) × P current

-- A history may panic; no entry of it is out of fuel.
abbrev pub NoFuel : History → Type 0
NoFuel history = (epoch : ℕ) → Ends (λ _. Unit {0}) (history epoch)

module _ (P : ℕ → Type 0) (tgt : ℕ) where
  after-Ends :
      (rounds : ℕ → StakeHistoryEntry → ℕ → Result ℕ) (epoch : ℕ) (r : Result Round)
      → Ends (RoundKeeps P tgt epoch) r
      → ((epoch' : ℕ) (c : StakeHistoryEntry) (s : ℕ)
          → epoch' ≡ epoch + 1
          → epoch' < tgt
          → P s
          → Ends P (rounds epoch' c s))
      → Ends P (after rounds r)
  unfolding after
  after-Ends rounds epoch (ok (stop result)) h ih = h
  after-Ends rounds epoch (ok (next epoch' c s)) h ih = ih epoch' c s h.0 h.1 h.2
  after-Ends rounds epoch (err (program e)) h ih = tt
  after-Ends rounds epoch (err panicked) h ih = tt
  after-Ends rounds epoch (err out_of_fuel) h ih = h

  pub run_rounds-Ends :
      (round : ℕ → StakeHistoryEntry → ℕ → Result Round)
      → ((epoch : ℕ) (c : StakeHistoryEntry) (s : ℕ)
          → epoch < tgt
          → P s
          → Ends (RoundKeeps P tgt epoch) (round epoch c s))
      → (fuel epoch : ℕ) (c : StakeHistoryEntry) (s : ℕ) → epoch < tgt
      → tgt ≤ epoch + fuel
      → P s
      → Ends P (run_rounds round fuel epoch c s)
  unfolding run_rounds
  run_rounds-Ends round keep zero epoch c s h f p = absurd (omega arith)
  run_rounds-Ends round keep (suc fuel) epoch c s h f p =
      after-Ends (run_rounds round fuel) epoch (round epoch c s) (keep epoch c s h p)
        λ epoch' c' s' e h' p'. run_rounds-Ends round keep fuel epoch' c' s' h' (omega arith) p'

module _ (f64 : F64) (history : History) (rate_epoch : Option ℕ) (total : NoFuel history) where
  -- The effective stake stays below the delegated stake.
  pub activation_round-keeps :
      (delegated tgt deact epoch : ℕ) (c : StakeHistoryEntry) (s : ℕ)
      → tgt < u64_mod
      → epoch < tgt
      → s ≤ delegated
      → Ends
          (RoundKeeps (λ r. r ≤ delegated) tgt epoch)
          (activation_round f64 history rate_epoch delegated tgt deact epoch c s)
  unfolding activation_round
  activation_round-keeps delegated tgt deact epoch c s word h p = ground (arith, total (epoch + 1))

  -- The effective stake does not grow.
  pub deactivation_round-keeps :
      (bound tgt epoch : ℕ) (c : StakeHistoryEntry) (s : ℕ)
      → tgt < u64_mod
      → epoch < tgt
      → s ≤ bound
      → Ends
          (RoundKeeps (λ r. r ≤ bound) tgt epoch)
          (deactivation_round f64 history rate_epoch tgt epoch c s)
  unfolding deactivation_round
  deactivation_round-keeps bound tgt epoch c s word h p = ground (arith, total (epoch + 1))
