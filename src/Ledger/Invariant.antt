-- ===== src/Ledger/Invariant.antt =====
-- What stays true of every account of the ledger under an instruction of program/src/entrypoint.rs.
use pinocchio_stake_program.Base.{
  ℕ, ◌<◌, ◌≡◌, inl, inr, List, Result, ok, err, Gives, arith, sym, ◌∙◌,
}
use pinocchio_stake_program.Types.{Pubkey, StakeStateV2, id, u64_mod}
use pinocchio_stake_program.Codec.{deserialize}
use pinocchio_stake_program.Codec.Shape.{serialize-Stored, SameVariant}
use pinocchio_stake_program.Runtime.{AccountInfo, Store, Runtime}
use pinocchio_stake_program.Helpers.Lamports.{IsRelocated, relocate_lamports-IsRelocated}
use pinocchio_stake_program.Effects.{Writes, Effect, unpaid, paid}
use pinocchio_stake_program.Effects.Dispatch.{process_instruction-Effect}
use pinocchio_stake_program.Effects.Accounts.{BytesStep, same_bytes, rewritten, Effect-BytesStep}
use pinocchio_stake_program.Conservation.Dispatch.{Writes-SameLamports}
use pinocchio_stake_program.Foreign.Dispatch.{Effect-KeepsForeign}
use pinocchio_stake_program.Entrypoint.{process_instruction}

-- The bytes are those of some state.
abbrev pub IsReadable : List ℕ → Type 0
IsReadable bytes = Gives (deserialize bytes) (λ state. Unit {0})

-- Every balance fits in 64 bits, and every account of the program reads as a stake state.
pub record IsLedger (s : Store) : Type 0 where
  pub lamports_fit : (j : Pubkey) → (s j).lamports < u64_mod
  pub readable : (j : Pubkey) → (s j).owner ≡ id → IsReadable (s j).bytes

Stored-IsReadable :
    (state : StakeStateV2) (r : Result StakeStateV2)
    → Gives r (λ read. SameVariant state read)
    → Gives r (λ read. Unit {0})
Stored-IsReadable state (ok read) h = tt
Stored-IsReadable state (err e) h = h

BytesStep-IsReadable :
    (accounts : List AccountInfo) (s s' : Store) (j : Pubkey)
    → BytesStep accounts s s' j
    → IsReadable (s j).bytes
    → IsReadable (s' j).bytes
BytesStep-IsReadable accounts s s' j (same_bytes e) h = rw e h
BytesStep-IsReadable accounts s s' j (rewritten old new l o r c e) h =
    Stored-IsReadable new (deserialize (s' j).bytes) (serialize-Stored new (s j).bytes e).1

module _ (s s1 s2 : Store) (source destination : AccountInfo) (n : ℕ) where
  relocated_fit :
      IsRelocated s1 s2 source.key destination.key n
      → ((j : Pubkey) → (s1 j).lamports < u64_mod)
      → (j : Pubkey) → (s2 j).lamports < u64_mod
  relocated_fit gone fit j = elim (gone.others_kept j) [
    | inl at_source ↦
        let left = gone.source_left in
        let before = fit source.key in
        let grown = gone.destination_grown in let bound = gone.fits in rw at_source (ground arith)
    | inr (inl at_destination) ↦ rw at_destination gone.fits
    | inr (inr kept) ↦ rw kept (fit j)
  ]

module _ (accounts : List AccountInfo) (s : Store) (l : IsLedger s) where
  Writes-fit : {s1 : Store} → Writes accounts s s1 → (j : Pubkey) → (s1 j).lamports < u64_mod
  Writes-fit w j = rw ((Writes-SameLamports accounts s w).lamports_same j) (l.lamports_fit j)

  Effect-fit :
      {receivers : List AccountInfo} {s' : Store}
      → Effect accounts receivers s s'
      → (j : Pubkey) → (s' j).lamports < u64_mod
  Effect-fit (unpaid w) j = Writes-fit w j
  Effect-fit (paid {s1} {s2} source destination n old w ls ld r e) j =
      relocated_fit s s1 s2 source destination n
        (relocate_lamports-IsRelocated s1 source destination n e) (Writes-fit w) j

  pub Effect-IsLedger :
      {receivers : List AccountInfo} {s' : Store} → Effect accounts receivers s s' → IsLedger s'
  Effect-IsLedger {s'} e = record {
    lamports_fit = Effect-fit e;
    readable = λ j o.
        BytesStep-IsReadable accounts s s' j (Effect-BytesStep accounts s e j)
          (l.readable j (sym ((Effect-KeepsForeign accounts s e).owners_kept j) ∙ o));
  }

module _ (rt : Runtime) (s : Store) (program_id : Pubkey) (accounts : List AccountInfo) where
  -- Where every balance fits in 64 bits and every account of the program reads as a stake state,
  -- both hold again after an instruction that succeeds, whatever its payload and accounts.
  pub process_instruction-IsLedger :
      (input : List ℕ) {s' : Store}
      → IsLedger s
      → process_instruction rt s program_id accounts input ≡ ok s'
      → IsLedger s'
  process_instruction-IsLedger input l h =
      Effect-IsLedger accounts s l (process_instruction-Effect rt s program_id accounts input h)
