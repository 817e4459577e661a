-- ===== src/Instruction/Move/Free.antt =====
-- `process_move_lamports` (program/src/instruction/move_lamports.rs): which lamports may go.
use pinocchio_stake_program.Base.{ℕ, ◌+◌, ◌≡◌, ◌≤◌, true, false, List, Gives}
use pinocchio_stake_program.Types.{authorized_eq}
use pinocchio_stake_program.Runtime.{AccountInfo, Store, Runtime}
use pinocchio_stake_program.Merge.{
  MergeKind, inactive, activation_epoch_kind, fully_active, kind_meta,
}
use pinocchio_stake_program.Helpers.Lamports.{IsRelocated}
use pinocchio_stake_program.Instruction.Move.Checks.{LooselyChecked}
use pinocchio_stake_program.Instruction.Move.{shared_checks}

-- What a kind holds back: an active one its stake and its reserve, an inactive one its reserve, of
-- the lamports that it was made with; from an activating one nothing goes.
abbrev pub HoldsBack : MergeKind → ℕ → ℕ → Type 0
HoldsBack (fully_active m k) n balance = k.delegation.stake + m.rent_exempt_reserve + n ≤ balance
HoldsBack (inactive m lamports flags) n balance = m.rent_exempt_reserve + n ≤ lamports
HoldsBack (activation_epoch_kind m k flags) n balance = ⊥

-- The two kinds have the same authorities, of which the staker is the one named; exactly `n`
-- lamports go, which the source does not hold back; both accounts keep their rent reserve.
abbrev pub MovesFree :
    Store → AccountInfo → AccountInfo → AccountInfo → ℕ → MergeKind → MergeKind → Store → Type 0
MovesFree s source destination authority n source_kind dest_kind s' =
    (authorized_eq (kind_meta source_kind).authorized (kind_meta dest_kind).authorized ≡ true)
    × ((kind_meta source_kind).authorized.staker ≡ authority.key)
    × HoldsBack source_kind n (s source.key).lamports
    × IsRelocated s s' source.key destination.key n
    × ((kind_meta source_kind).rent_exempt_reserve ≤ (s' source.key).lamports)
    × ((kind_meta dest_kind).rent_exempt_reserve ≤ (s' destination.key).lamports)

module _ (rt : Runtime) (s : Store) (source destination authority : AccountInfo) where
  module _ (rest : List AccountInfo) (n : ℕ) where
    abbrev pub FreeBy : Store → Type 0
    FreeBy s' =
        Gives (shared_checks rt s source n destination authority true false)
          λ (source_kind, dest_kind).
            LooselyChecked rt s source n destination authority source_kind dest_kind
            × MovesFree s source destination authority n source_kind dest_kind s'
