-- ===== src/Termination/Lifecycle.antt =====
-- The handlers of a delegation end: process_delegate.rs, deactivate.rs and deactivate_delinquent.rs of
-- program/src/instruction.
use pinocchio_stake_program.Base.{ℕ, zero, suc, ◌+◌, List, [], ◌∷◌, Bool, arith, Halts}
use pinocchio_stake_program.Types.{
  Pubkey, StakeStateV2, uninitialized, initialized, staked, rewards_pool, Clock, Fits,
}
use pinocchio_stake_program.Runtime.{AccountInfo, Store, Runtime}
use pinocchio_stake_program.History.{get_entry}
use pinocchio_stake_program.Codec.Widths.{AreBytes}
use pinocchio_stake_program.Instruction.Delegate.{
  delegate_state, process_delegate, deactivate_state, process_deactivate,
}
use pinocchio_stake_program.Instruction.Delinquent.{
  epoch_at, reference_rounds, acceptable_reference_epoch_credits_bytes, last_vote_epoch_bytes,
  deactivate_if_eligible, process_deactivate_delinquent,
}
use pinocchio_stake_program.Termination.Leaves.{
  IsAnswering, IsCurrent, get_entry-Halts, get_stake_state-Halts, get_stake_state-Fits,
  set_stake_state-Halts, get_vote_credits-Halts, collect_signers-Halts, check-Halts,
}
use pinocchio_stake_program.Termination.Stakes.{
  deactivate-Halts, redelegate_stake_with_credits-Halts,
}

module _ (s : Store) where
  delegate_state-Halts :
      (rt : Runtime) (ai : AccountInfo) (vote : Pubkey) (credits : ℕ) (clock : Clock)
      (signers : List Pubkey) (state : StakeStateV2)
      → IsCurrent rt clock.epoch
      → Fits state
      → Halts (delegate_state rt s ai vote credits clock signers state)
  unfolding delegate_state
  delegate_state-Halts rt ai vote credits clock signers (initialized m) w fits =
      grind (arith, check-Halts, set_stake_state-Halts)
  delegate_state-Halts rt ai vote credits clock signers (staked m k flags) w fits =
      let grown = λ (n : ℕ).
        redelegate_stake_with_credits-Halts rt.f64 (get_entry rt clock.epoch)
          (get_entry-Halts rt clock.epoch w) k n vote credits clock.epoch w.epoch_fits
          fits.1.stake_fits in
      grind (arith, check-Halts, set_stake_state-Halts)
  delegate_state-Halts rt ai vote credits clock signers uninitialized w fits = tt
  delegate_state-Halts rt ai vote credits clock signers rewards_pool w fits = tt

  deactivate_state-Halts :
      (ai : AccountInfo) (clock : Clock) (signers : List Pubkey) (state : StakeStateV2)
      → Halts (deactivate_state s ai clock signers state)
  unfolding deactivate_state
  deactivate_state-Halts ai clock signers (staked m k flags) =
      grind (arith, check-Halts, deactivate-Halts, set_stake_state-Halts)
  deactivate_state-Halts ai clock signers (initialized m) = tt
  deactivate_state-Halts ai clock signers uninitialized = tt
  deactivate_state-Halts ai clock signers rewards_pool = tt

  deactivate_if_eligible-Halts :
      (ai : AccountInfo) (vote : Pubkey) (epoch : ℕ) (is_eligible : Bool) (state : StakeStateV2)
      → Halts (deactivate_if_eligible s ai vote epoch is_eligible state)
  unfolding deactivate_if_eligible
  deactivate_if_eligible-Halts ai vote epoch is_eligible (staked m k flags) =
      grind (arith, deactivate-Halts, set_stake_state-Halts)
  deactivate_if_eligible-Halts ai vote epoch is_eligible (initialized m) = tt
  deactivate_if_eligible-Halts ai vote epoch is_eligible uninitialized = tt
  deactivate_if_eligible-Halts ai vote epoch is_eligible rewards_pool = tt

epoch_at-Halts : (bytes : List ℕ) (index : ℕ) → Halts (epoch_at bytes index)
unfolding epoch_at
epoch_at-Halts bytes index = ground arith

-- The loop over the reference votes is a recursion on the number of its rounds.
reference_rounds-Halts :
    (bytes : List ℕ) (epoch count i rounds : ℕ)
    → Halts (reference_rounds bytes epoch count i rounds)
unfolding reference_rounds
reference_rounds-Halts bytes epoch count i zero = tt
reference_rounds-Halts bytes epoch count i (suc rounds) =
    let more = reference_rounds-Halts bytes epoch count (i + 1) rounds in
    grind (arith, epoch_at-Halts)

acceptable-Halts :
    (bytes : List ℕ) (epoch n : ℕ) → Halts (acceptable_reference_epoch_credits_bytes bytes epoch n)
unfolding acceptable_reference_epoch_credits_bytes
acceptable-Halts bytes epoch n = grind (arith, reference_rounds-Halts)

last_vote-Halts : (bytes : List ℕ) → Halts (last_vote_epoch_bytes bytes)
unfolding last_vote_epoch_bytes
last_vote-Halts bytes = grind (arith, epoch_at-Halts)

module _ (rt : Runtime) (answers : IsAnswering rt) (s : Store) where
  pub delegate-Halts :
      (accounts : List AccountInfo)
      → ((k : Pubkey) → AreBytes (s k).bytes)
      → Halts (process_delegate rt s accounts)
  unfolding process_delegate
  delegate-Halts accounts bytes =
      let known = answers.clock_info in
      let fits = λ (ai : AccountInfo). get_stake_state-Fits s ai (bytes ai.key) in
      grind (
        arith, collect_signers-Halts, get_vote_credits-Halts, get_stake_state-Halts,
        delegate_state-Halts,
      )

  pub deactivate_handler-Halts :
      (accounts : List AccountInfo) → Halts (process_deactivate rt s accounts)
  unfolding process_deactivate
  deactivate_handler-Halts [] = grind (arith, collect_signers-Halts)
  deactivate_handler-Halts (x ∷ []) = grind (arith, collect_signers-Halts)
  deactivate_handler-Halts (x ∷ y ∷ rest) =
      let known = answers.clock_info y (s y.key) in
      grind (arith, collect_signers-Halts, get_stake_state-Halts, deactivate_state-Halts)

  pub deactivate_delinquent-Halts :
      (accounts : List AccountInfo) → Halts (process_deactivate_delinquent rt s accounts)
  unfolding process_deactivate_delinquent
  deactivate_delinquent-Halts [] = tt
  deactivate_delinquent-Halts (x ∷ []) = tt
  deactivate_delinquent-Halts (x ∷ y ∷ []) = tt
  deactivate_delinquent-Halts (x ∷ y ∷ z ∷ rest) =
      let known = answers.clock in
      grind (
        arith, acceptable-Halts, last_vote-Halts, get_stake_state-Halts,
        deactivate_if_eligible-Halts,
      )
