-- ===== src/Conservation/Dispatch.antt =====
-- Lamports and owners across a whole instruction (program/src/entrypoint.rs), by induction on its
-- effect.
use pinocchio_stake_program.Base.{ℕ, List, Post-of, ok, ◌≡◌}
use pinocchio_stake_program.Types.{Pubkey}
use pinocchio_stake_program.Runtime.{AccountInfo, Store, Runtime}
use pinocchio_stake_program.Helpers.{set_stake_state, relocate_lamports}
use pinocchio_stake_program.Helpers.Lamports.{Moves}
use pinocchio_stake_program.Helpers.Moves.{
  SameLamports, SameLamports-refl, set_stake_state-SameLamports, SameLamports-Moves,
  relocate_lamports-after,
}
use pinocchio_stake_program.Effects.{Writes, unwritten, write, Effect, unpaid, paid}
use pinocchio_stake_program.Effects.Dispatch.{process_instruction-Effect}
use pinocchio_stake_program.Entrypoint.{process_instruction}

module _ (accounts : List AccountInfo) (s : Store) where
  pub Writes-SameLamports : {s1 : Store} → Writes accounts s s1 → SameLamports s s1
  Writes-SameLamports unwritten = SameLamports-refl s
  Writes-SameLamports (write {s1} {s2} ai old new w l r c e) =
      Post-of (SameLamports s) (set_stake_state s1 ai new)
        (set_stake_state-SameLamports s s1 (Writes-SameLamports w) ai new) e

  pub Effect-Moves :
      {receivers : List AccountInfo} {s' : Store} → Effect accounts receivers s s' → Moves s s'
  Effect-Moves (unpaid {s1} w) = SameLamports-Moves s s1 (Writes-SameLamports w)
  Effect-Moves (paid {s1} {s2} source destination n old w l l' r e) =
      Post-of (Moves s) (relocate_lamports s1 source destination n)
        (relocate_lamports-after s s1 (Writes-SameLamports w) source destination n) e

module _ (rt : Runtime) (s : Store) (program_id : Pubkey) (accounts : List AccountInfo) where
  -- An instruction that succeeds, whatever its payload and accounts, moves some lamports from one
  -- account that has them to one other at most; all else keeps its lamports, and every account its
  -- owner.
  pub process_instruction-Moves :
      (input : List ℕ) {s' : Store}
      → process_instruction rt s program_id accounts input ≡ ok s'
      → Moves s s'
  process_instruction-Moves input h =
      Effect-Moves accounts s (process_instruction-Effect rt s program_id accounts input h)
