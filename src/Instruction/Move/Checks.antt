-- ===== src/Instruction/Move/Checks.antt =====
-- `move_stake_or_lamports_shared_checks` of program/src/helpers/merge.rs, as the two handlers call
-- it: what holds of the accounts that pass.
use pinocchio_stake_program.Base.{
  ℕ, ◌≡◌, ◌≢◌, ◌<◌, true, false, Result, ok, err, Post, Gives, arith, program, panicked,
  out_of_fuel,
}
use pinocchio_stake_program.Types.{Clock, StakeStateV2}
use pinocchio_stake_program.Runtime.{AccountInfo, Store, Runtime}
use pinocchio_stake_program.History.{get_entry}
use pinocchio_stake_program.Merge.{MergeKind, kind_meta, get_if_mergeable, metas_can_merge}
use pinocchio_stake_program.Helpers.{get_stake_state}
use pinocchio_stake_program.Instruction.Move.{or_loose, is_deactivating, shared_checks}

pub or_loose-strict :
    (r : Result MergeKind) (state : StakeStateV2) (lamports : ℕ) (clock : Clock) {kind : MergeKind}
    → or_loose r true state lamports clock ≡ ok kind
    → r ≡ ok kind
unfolding or_loose
or_loose-strict (ok k) state lamports clock h = h
or_loose-strict (err (program e)) state lamports clock h = ground arith
or_loose-strict (err panicked) state lamports clock h = cc
or_loose-strict (err out_of_fuel) state lamports clock h = cc

-- The kinds are those of the two accounts at the clock's time, and neither is deactivating; the two
-- accounts differ, some lamports are to move, and the source's staker signed.
abbrev pub Checked :
    Runtime → Store → AccountInfo → ℕ → AccountInfo → AccountInfo → MergeKind → MergeKind → Type 0
Checked rt s source n destination authority source_kind destination_kind =
    (authority.is_signer ≡ true)
    × (source.key ≢ destination.key)
    × (0 < n)
    × ((kind_meta source_kind).authorized.staker ≡ authority.key)
    × Gives rt.clock_get λ clock. Gives (get_stake_state s source) λ source_state.
      Gives (get_stake_state s destination) λ destination_state.
        (is_deactivating clock.epoch source_state ≡ false)
        × (is_deactivating clock.epoch destination_state ≡ false)
        × (get_if_mergeable rt.f64 (get_entry rt clock.epoch) source_state (s source.key).lamports
              clock
            ≡ ok source_kind)
        × (get_if_mergeable rt.f64 (get_entry rt clock.epoch) destination_state
              (s destination.key).lamports clock
            ≡ ok destination_kind)
        × (metas_can_merge (kind_meta source_kind) (kind_meta destination_kind) clock ≡ ok tt)

module _ (rt : Runtime) (s : Store) (source : AccountInfo) (n : ℕ) where
  pub shared_checks-Post :
      (destination authority : AccountInfo)
      → Post
          (λ (kinds : MergeKind × MergeKind).
            Checked rt s source n destination authority kinds.0 kinds.1)
          (shared_checks rt s source n destination authority true true)
  unfolding shared_checks
  shared_checks-Post destination authority = grind (arith, or_loose-strict)

-- Where a transient account is let through, the kind is that of the loose classification.
abbrev pub LooselyChecked :
    Runtime → Store → AccountInfo → ℕ → AccountInfo → AccountInfo → MergeKind → MergeKind → Type 0
LooselyChecked rt s source n destination authority source_kind destination_kind =
    (authority.is_signer ≡ true)
    × (source.key ≢ destination.key)
    × (0 < n)
    × Gives rt.clock_get λ clock. Gives (get_stake_state s source) λ source_state.
      Gives (get_stake_state s destination) λ destination_state.
        (or_loose
            (get_if_mergeable rt.f64 (get_entry rt clock.epoch) source_state (s source.key).lamports
              clock)
            false source_state (s source.key).lamports clock
          ≡ ok source_kind)
        × (or_loose
              (get_if_mergeable rt.f64 (get_entry rt clock.epoch) destination_state
                (s destination.key).lamports clock)
              false destination_state (s destination.key).lamports clock
            ≡ ok destination_kind)
        × (metas_can_merge (kind_meta source_kind) (kind_meta destination_kind) clock ≡ ok tt)

module _ (rt : Runtime) (s : Store) (source : AccountInfo) (n : ℕ) where
  pub shared_checks-loose :
      (destination authority : AccountInfo)
      → Post
          (λ (kinds : MergeKind × MergeKind).
            LooselyChecked rt s source n destination authority kinds.0 kinds.1)
          (shared_checks rt s source n destination authority true false)
  unfolding shared_checks
  shared_checks-loose destination authority = grind arith
