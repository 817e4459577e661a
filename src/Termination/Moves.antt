-- ===== src/Termination/Moves.antt =====
-- The moves end: process_move_stake.rs and move_lamports.rs of program/src/instruction, with the
-- shared checks of program/src/helpers/merge.rs.
use pinocchio_stake_program.Base.{
  ℕ, List, Bool, arith, Halts, ok, err, program, panicked, out_of_fuel, Result,
}
use pinocchio_stake_program.Types.{
  Pubkey, Stake, StakeStateV2, uninitialized, initialized, staked, rewards_pool, Clock, Fits,
}
use pinocchio_stake_program.Runtime.{AccountInfo, Store, Runtime}
use pinocchio_stake_program.History.{get_entry}
use pinocchio_stake_program.Codec.Widths.{AreBytes}
use pinocchio_stake_program.Merge.{
  MergeKind, inactive, activation_epoch_kind, fully_active, get_if_mergeable,
}
use pinocchio_stake_program.Instruction.Move.{
  reject_uninitialized, or_loose, shared_checks, reject_readable_uninitialized,
  reject_readable_deactivating, fully_active_parts, move_to, move_stake, process_move_stake,
  reject_transient, free_lamports, move_lamports, process_move_lamports,
}
use pinocchio_stake_program.Termination.Leaves.{
  IsAnswering, IsCurrent, get_stake_state-Halts, get_stake_state-Fits, set_stake_state-Halts,
  relocate_lamports-Halts,
}
use pinocchio_stake_program.Termination.Stakes.{
  mergeable-Halts, classify_loose-Halts, metas_can_merge-Halts, merged_stake-Halts,
}

reject_uninitialized-Halts : (state : StakeStateV2) → Halts (reject_uninitialized state)
unfolding reject_uninitialized
reject_uninitialized-Halts uninitialized = tt
reject_uninitialized-Halts (initialized m) = tt
reject_uninitialized-Halts (staked m k flags) = tt
reject_uninitialized-Halts rewards_pool = tt

-- What falls back on the loose kinds has not run out of fuel.
or_loose-Halts :
    (r : Result MergeKind) (strict : Bool) (state : StakeStateV2) (lamports : ℕ) (clock : Clock)
    → Halts r
    → Halts (or_loose r strict state lamports clock)
unfolding or_loose
or_loose-Halts (ok kind) strict state lamports clock h = tt
or_loose-Halts (err (program e)) strict state lamports clock h =
    grind (arith, reject_uninitialized-Halts, classify_loose-Halts)
or_loose-Halts (err panicked) strict state lamports clock h = h
or_loose-Halts (err out_of_fuel) strict state lamports clock h = h

reject_readable_uninitialized-Halts :
    (r : Result StakeStateV2) → Halts (reject_readable_uninitialized r)
unfolding reject_readable_uninitialized
reject_readable_uninitialized-Halts (ok state) = reject_uninitialized-Halts state
reject_readable_uninitialized-Halts (err e) = tt

reject_transient-Halts : (epoch : ℕ) (state : StakeStateV2) → Halts (reject_transient epoch state)
unfolding reject_transient
reject_transient-Halts epoch uninitialized = tt
reject_transient-Halts epoch (initialized m) = tt
reject_transient-Halts epoch (staked m k flags) = ground arith
reject_transient-Halts epoch rewards_pool = tt

fully_active_parts-Halts : (kind : MergeKind) → Halts (fully_active_parts kind)
unfolding fully_active_parts
fully_active_parts-Halts (fully_active m k) = tt
fully_active_parts-Halts (inactive m l f) = tt
fully_active_parts-Halts (activation_epoch_kind m k f) = tt

free_lamports-Halts : (lamports : ℕ) (kind : MergeKind) → Halts (free_lamports lamports kind)
unfolding free_lamports
free_lamports-Halts lamports (fully_active m k) = tt
free_lamports-Halts lamports (inactive m l f) = tt
free_lamports-Halts lamports (activation_epoch_kind m k f) = tt

module _ (s : Store) where
  move_to-Halts :
      (b : AccountInfo) (n : ℕ) (k : Stake) (kind : MergeKind) → Halts (move_to s b n k kind)
  unfolding move_to
  move_to-Halts b n k (fully_active m j) = grind (arith, merged_stake-Halts, set_stake_state-Halts)
  move_to-Halts b n k (inactive m l f) = grind (arith, set_stake_state-Halts)
  move_to-Halts b n k (activation_epoch_kind m j f) = tt

  move_stake-Halts :
      (a b : AccountInfo) (n : ℕ) (from to : MergeKind) → Halts (move_stake s a b n from to)
  unfolding move_stake
  move_stake-Halts a b n from to = grind (
    arith, fully_active_parts-Halts, move_to-Halts, set_stake_state-Halts, relocate_lamports-Halts,
  )

  move_lamports-Halts :
      (a b c : AccountInfo) (n : ℕ) (from to : MergeKind) → Halts (move_lamports s a b c n from to)
  unfolding move_lamports
  move_lamports-Halts a b c n from to = grind (arith, free_lamports-Halts, relocate_lamports-Halts)

module _ (rt : Runtime) (answers : IsAnswering rt) (s : Store) where
  reject_readable_deactivating-Halts :
      (r : Result StakeStateV2) → Halts (reject_readable_deactivating rt r)
  unfolding reject_readable_deactivating
  reject_readable_deactivating-Halts (ok uninitialized) = tt
  reject_readable_deactivating-Halts (ok (initialized m)) = tt
  reject_readable_deactivating-Halts (ok (staked m k flags)) =
      let known = answers.clock in grind arith
  reject_readable_deactivating-Halts (ok rewards_pool) = tt
  reject_readable_deactivating-Halts (err e) = tt

  kind-Halts :
      (strict : Bool) (state : StakeStateV2) (lamports : ℕ) (clock : Clock)
      → Fits state
      → IsCurrent rt clock.epoch
      → Halts (
          or_loose
            (get_if_mergeable rt.f64 (get_entry rt clock.epoch) state lamports clock)
            strict
            state
            lamports
            clock)
  kind-Halts strict state lamports clock fits w =
      or_loose-Halts _ strict state lamports clock (mergeable-Halts rt state lamports clock fits w)

  module _ (bytes : (k : Pubkey) → AreBytes (s k).bytes) where
    shared_checks-Halts :
        (a : AccountInfo) (n : ℕ) (b c : AccountInfo) (compat strict : Bool)
        → Halts (shared_checks rt s a n b c compat strict)
    unfolding shared_checks
    shared_checks-Halts a n b c compat strict =
        let known = answers.clock in
        let fits_a = get_stake_state-Fits s a (bytes a.key) in
        let fits_b = get_stake_state-Fits s b (bytes b.key) in
        grind (
          arith, get_stake_state-Halts, reject_uninitialized-Halts, kind-Halts,
          metas_can_merge-Halts,
        )

    pub move_stake_handler-Halts :
        (accounts : List AccountInfo) (n : ℕ) → Halts (process_move_stake rt s accounts n)
    unfolding process_move_stake
    move_stake_handler-Halts accounts n = grind (
      arith, reject_readable_uninitialized-Halts, shared_checks-Halts,
      reject_readable_deactivating-Halts, move_stake-Halts,
    )

    pub move_lamports_handler-Halts :
        (accounts : List AccountInfo) (n : ℕ) → Halts (process_move_lamports rt s accounts n)
    unfolding process_move_lamports
    move_lamports_handler-Halts accounts n =
        let known = answers.clock in
        grind (
          arith, get_stake_state-Halts, reject_transient-Halts, shared_checks-Halts,
          move_lamports-Halts,
        )
