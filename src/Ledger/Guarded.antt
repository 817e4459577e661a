-- ===== src/Ledger/Guarded.antt =====
-- Sequences of instructions of program/src/entrypoint.rs of which none has the signature that it
-- needs of one stake account.
use pinocchio_stake_program.Base.{
  ℕ, ◌≡◌, inl, inr, true, refl, ◌∙◌, List, ◌∷◌, ok, Gives, arith, Result, err,
}
use pinocchio_stake_program.Types.{Pubkey, Meta, StakeStateV2, id}
use pinocchio_stake_program.Codec.{deserialize}
use pinocchio_stake_program.Runtime.{AccountInfo, Store, Runtime}
use pinocchio_stake_program.Foreign.Dispatch.{process_instruction-KeepsForeign}
use pinocchio_stake_program.Effects.{HasMeta, listed}
use pinocchio_stake_program.Effects.Dispatch.{actors}
use pinocchio_stake_program.Consent.{Consented}
use pinocchio_stake_program.Consent.Accounts.{Untouched, Secured, process_instruction-Secure}
use pinocchio_stake_program.Entrypoint.{process_instruction, try_from, StakeInstruction}

-- The account is no actor of an instruction, or the signature that it needs is not there.
abbrev pub IsKeptOut : List AccountInfo → ℕ → Pubkey → Meta → Type 0
IsKeptOut accounts disc j m =
    Gives (try_from disc) λ ix. (listed (actors ix accounts) j ≡ true) → Consented accounts ix m → ⊥

-- The stores that such instructions lead to.
pub data Guarded (j : Pubkey) (m : Meta) (s : Store) : Store → Type 0 where
  done : Guarded j m s s
  then_run :
      {s1 s2 : Store} (rt : Runtime) (program_id : Pubkey) (accounts : List AccountInfo) (disc : ℕ)
      (payload : List ℕ)
      → Guarded j m s s1
      → IsKeptOut accounts disc j m
      → process_instruction rt s1 program_id accounts (disc ∷ payload) ≡ ok s2
      → Guarded j m s s2

safe_if_out :
    (r : Result StakeInstruction) (accounts : List AccountInfo) (s s' : Store) (j : Pubkey)
    (m : Meta)
    → Gives r (λ ix. Secured accounts ix s s' j m)
    → Gives r (λ ix. (listed (actors ix accounts) j ≡ true) → Consented accounts ix m → ⊥)
    → Untouched s s' j
safe_if_out (ok ix) accounts s s' j m (inl same) out = same
safe_if_out (ok ix) accounts s s' j m (inr (l, c, k)) out = absurd (out l c)
safe_if_out (err e) accounts s s' j m h out = absurd h

module _ (j : Pubkey) (m : Meta) (state : StakeStateV2) (s : Store) (own : (s j).owner ≡ id)
    (read : deserialize (s j).bytes ≡ ok state) (h : HasMeta state m) where
  -- A stake account of the program outlasts every sequence of instructions that succeed without the
  -- signature that they need of its authorities, whoever signs them: its owner and its bytes are what
  -- they were, and it has at least its lamports.
  pub Guarded-Untouched : {s' : Store} → Guarded j m s s' → ((s' j).owner ≡ id) × Untouched s s' j
  Guarded-Untouched done = (own, (refl, omega arith))
  Guarded-Untouched (then_run {s1} {s2} rt program_id accounts disc payload run out step) =
      let (owned, (same, kept)) = Guarded-Untouched run in
      let (same2, kept2) =
        safe_if_out (try_from disc) accounts s1 s2 j m
          (process_instruction-Secure rt s1 program_id disc payload j m state owned (rw same read) h
            accounts step)
          out in
      let foreign =
        process_instruction-KeepsForeign rt s1 program_id accounts (disc ∷ payload) step in
      (foreign.owners_kept j ∙ owned, (same2 ∙ same, omega (arith, kept, kept2)))
