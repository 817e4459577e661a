-- ===== src/Ledger/Runs.antt =====
-- Sequences of instructions of program/src/entrypoint.rs, each with accounts, a payload and a
-- runtime of its own, as the clock and the sysvars change between them.
use pinocchio_stake_program.Base.{ℕ, ◌≡◌, refl, ◌∙◌, true, List, length, ok}
use pinocchio_stake_program.Types.{Pubkey, contains}
use pinocchio_stake_program.Runtime.{AccountInfo, Store, Runtime}
use pinocchio_stake_program.Foreign.{KeepsForeign, KeepsForeign-refl, KeepsForeign-trans}
use pinocchio_stake_program.Foreign.Dispatch.{process_instruction-KeepsForeign}
use pinocchio_stake_program.Effects.{listed}
use pinocchio_stake_program.Effects.Accounts.{BytesStep-length, process_instruction-BytesStep}
use pinocchio_stake_program.Effects.Dispatch.{process_instruction-Effect}
use pinocchio_stake_program.Ledger.{total}
use pinocchio_stake_program.Ledger.Total.{AreDistinct, Effect-total}
use pinocchio_stake_program.Ledger.Invariant.{IsLedger, process_instruction-IsLedger}
use pinocchio_stake_program.Entrypoint.{process_instruction}

-- The stores that instructions lead to. A failed instruction is rolled back: it is no step. The
-- accounts of every instruction are among the keys.
pub data Run (keys : List Pubkey) (s : Store) : Store → Type 0 where
  done : Run keys s s
  then_run :
      {s1 s2 : Store} (rt : Runtime) (program_id : Pubkey) (accounts : List AccountInfo)
      (input : List ℕ)
      → Run keys s s1
      → ((k : Pubkey) → listed accounts k ≡ true → contains keys k ≡ true)
      → process_instruction rt s1 program_id accounts input ≡ ok s2
      → Run keys s s2

-- What a run leaves as it was.
pub record Kept (keys : List Pubkey) (s s' : Store) : Type 0 where
  pub ledger : IsLedger s'
  pub total_kept : total s' keys ≡ total s keys
  pub sizes_kept : (j : Pubkey) → length (s' j).bytes ≡ length (s j).bytes
  pub foreign_kept : KeepsForeign s s'

module _ (keys : List Pubkey) (d : AreDistinct keys) (s : Store) (l : IsLedger s) where
  -- After any sequence of instructions that succeed, from a ledger whose balances fit in 64 bits and
  -- whose accounts of the program read as stake states: both hold, the lamports of all the accounts
  -- involved sum to what they did, no account has another size, and those of other programs have
  -- their bytes, their owners and no fewer lamports.
  pub Run-Kept : {s' : Store} → Run keys s s' → Kept keys s s'
  Run-Kept done = record {
    ledger = l;
    total_kept = refl;
    sizes_kept = λ j. refl;
    foreign_kept = KeepsForeign-refl s;
  }
  Run-Kept (then_run {s1} {s2} rt program_id accounts input run covered h) =
      let kept = Run-Kept run in
      record {
        ledger = process_instruction-IsLedger rt s1 program_id accounts input kept.ledger h;
        total_kept =
            Effect-total accounts s1 keys d covered
              (process_instruction-Effect rt s1 program_id accounts input h)
            ∙ kept.total_kept;
        sizes_kept = λ j.
            BytesStep-length accounts s1 j
              (process_instruction-BytesStep rt s1 program_id accounts input j h)
            ∙ kept.sizes_kept j;
        foreign_kept =
            KeepsForeign-trans s s1 s2 kept.foreign_kept
              (process_instruction-KeepsForeign rt s1 program_id accounts input h);
      }
