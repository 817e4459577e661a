-- ===== src/Foreign/Dispatch.antt =====
-- Foreign accounts across a whole instruction (program/src/entrypoint.rs), by induction on its
-- effect.
use pinocchio_stake_program.Base.{ℕ, List, Post-of, ok, ◌≡◌}
use pinocchio_stake_program.Types.{Pubkey}
use pinocchio_stake_program.Runtime.{AccountInfo, Store, Runtime}
use pinocchio_stake_program.Helpers.{set_stake_state, relocate_lamports}
use pinocchio_stake_program.Foreign.{
  KeepsForeign, KeepsForeign-refl, owner_of, set_stake_state-KeepsForeign,
  relocate_lamports-KeepsForeign,
}
use pinocchio_stake_program.Effects.{Writes, unwritten, write, Effect, unpaid, paid}
use pinocchio_stake_program.Effects.Dispatch.{process_instruction-Effect}
use pinocchio_stake_program.Entrypoint.{process_instruction}

module _ (accounts : List AccountInfo) (s : Store) where
  Writes-KeepsForeign : {s1 : Store} → Writes accounts s s1 → KeepsForeign s s1
  Writes-KeepsForeign unwritten = KeepsForeign-refl s
  Writes-KeepsForeign (write {s1} {s2} ai old new w l r c e) =
      Post-of (KeepsForeign s) (set_stake_state s1 ai new)
        (set_stake_state-KeepsForeign s s1 (Writes-KeepsForeign w) ai new (owner_of s ai old r)) e

  pub Effect-KeepsForeign :
      {receivers : List AccountInfo} {s' : Store}
      → Effect accounts receivers s s'
      → KeepsForeign s s'
  Effect-KeepsForeign (unpaid {s1} w) = Writes-KeepsForeign w
  Effect-KeepsForeign (paid {s1} {s2} source destination n old w l l' r e) =
      Post-of (KeepsForeign s) (relocate_lamports s1 source destination n)
        (relocate_lamports-KeepsForeign s s1 (Writes-KeepsForeign w) source destination n
          (owner_of s source old r))
        e

module _ (rt : Runtime) (s : Store) (program_id : Pubkey) (accounts : List AccountInfo) where
  -- An instruction that succeeds, whatever its payload and accounts, leaves every account of another
  -- program its bytes, at least its lamports, and its owner.
  pub process_instruction-KeepsForeign :
      (input : List ℕ) {s' : Store}
      → process_instruction rt s program_id accounts input ≡ ok s'
      → KeepsForeign s s'
  process_instruction-KeepsForeign input h =
      Effect-KeepsForeign accounts s (process_instruction-Effect rt s program_id accounts input h)
