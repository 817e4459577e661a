-- ===== src/Effects/Accounts.antt =====
-- What an instruction does to each account: the changes of its bytes that the specification of
-- effects lets through.
use pinocchio_stake_program.Base.{
  ℕ, ◌≡◌, ◌≢◌, inl, inr, refl, sym, ap, ◌∙◌, true, false, Bool-cases, ◌==◌, ==→eq, ==→ne, List,
  length, ok,
}
use pinocchio_stake_program.Types.{Pubkey, StakeStateV2, id}
use pinocchio_stake_program.Codec.{deserialize, serialize}
use pinocchio_stake_program.Codec.Shape.{serialize-Stored, serialize_same_length}
use pinocchio_stake_program.Runtime.{AccountInfo, Store, Runtime}
use pinocchio_stake_program.Helpers.State.{
  set_stake_state-same, set_stake_state-serialize, get_stake_state-deserialize,
}
use pinocchio_stake_program.Helpers.Lamports.{relocate_lamports-IsRelocated}
use pinocchio_stake_program.Effects.{Writes, unwritten, write, Effect, unpaid, paid, listed, Change}
use pinocchio_stake_program.Effects.Dispatch.{process_instruction-Effect}
use pinocchio_stake_program.Entrypoint.{process_instruction}

-- An account keeps its bytes, or it is listed and the program's, its bytes were those of a state,
-- and they are now those of a state that may follow it.
pub data BytesStep (accounts : List AccountInfo) (s s' : Store) (j : Pubkey) : Type 0 where
  same_bytes : (s' j).bytes ≡ (s j).bytes → BytesStep accounts s s' j
  rewritten :
      (old new : StakeStateV2)
      → listed accounts j ≡ true
      → (s j).owner ≡ id
      → deserialize (s j).bytes ≡ ok old
      → Change old new
      → serialize new (s j).bytes ≡ ok (s' j).bytes
      → BytesStep accounts s s' j

pub unlisted_ne :
    (accounts : List AccountInfo) (ai : AccountInfo) (j : Pubkey)
    → listed accounts ai.key ≡ true
    → listed accounts j ≡ false
    → j ≢ ai.key
unlisted_ne accounts ai j l f e = let same = ap (λ (k : Pubkey). listed accounts k) e in cc

module _ (accounts : List AccountInfo) (s : Store) where
  pub BytesStep-length :
      {s' : Store} (j : Pubkey)
      → BytesStep accounts s s' j
      → length (s' j).bytes ≡ length (s j).bytes
  BytesStep-length j (same_bytes e) = ap (λ (bs : List ℕ). length bs) e
  BytesStep-length j (rewritten old new l o r c e) = (serialize-Stored new (s j).bytes e).0

  -- Bytes that stay behind a step.
  BytesStep-then :
      (s1 s2 : Store) (j : Pubkey)
      → (s2 j).bytes ≡ (s1 j).bytes
      → BytesStep accounts s s1 j
      → BytesStep accounts s s2 j
  BytesStep-then s1 s2 j e (same_bytes h) = same_bytes (e ∙ h)
  BytesStep-then s1 s2 j e (rewritten old new l o r c w) = rewritten old new l o r c (rw e w)

  Writes-BytesStep : {s1 : Store} → Writes accounts s s1 → (j : Pubkey) → BytesStep accounts s s1 j
  Writes-BytesStep unwritten j = same_bytes refl
  Writes-BytesStep (write {s1} {s2} ai old new w l r c e) j = elim (Bool-cases (j == ai.key)) [
    | inl here ↦
        let (owned, read) = get_stake_state-deserialize s ai old r in
        let kept = BytesStep-length ai.key (Writes-BytesStep w ai.key) in
        let stored = set_stake_state-serialize s1 ai new e in
        rw (==→eq j ai.key here) (
          rewritten old new l owned read c
            (sym (serialize_same_length new (s1 ai.key).bytes (s ai.key).bytes kept) ∙ stored))
    | inr other ↦
        BytesStep-then s1 s2 j
          (ap (λ a. a.bytes)
            ((set_stake_state-same s1 ai new e).others_kept j (==→ne j ai.key other)))
          (Writes-BytesStep w j)
  ]

  pub Effect-BytesStep :
      {receivers : List AccountInfo} {s' : Store}
      → Effect accounts receivers s s'
      → (j : Pubkey) → BytesStep accounts s s' j
  Effect-BytesStep (unpaid w) j = Writes-BytesStep w j
  Effect-BytesStep (paid {s1} {s2} source destination n old w l l' r e) j =
      BytesStep-then s1 s2 j
        ((relocate_lamports-IsRelocated s1 source destination n e).bytes_kept j)
        (Writes-BytesStep w j)

  pub Writes-Frame :
      {s1 : Store} → Writes accounts s s1 → (j : Pubkey) → listed accounts j ≡ false → s1 j ≡ s j
  Writes-Frame unwritten j f = refl
  Writes-Frame (write {s1} {s2} ai old new w l r c e) j f =
      (set_stake_state-same s1 ai new e).others_kept j (unlisted_ne accounts ai j l f)
      ∙ Writes-Frame w j f

module _ (rt : Runtime) (s : Store) (program_id : Pubkey) (accounts : List AccountInfo) where
  -- An instruction that succeeds leaves each account its bytes, or rewrites them: then the account
  -- is listed and the program's, held the bytes of a state, and holds those of a state that the
  -- lifecycle lets follow it. Metadata and delegation of a stake never change together, and the
  -- rent reserve changes only where an account is closed or opened.
  pub process_instruction-BytesStep :
      (input : List ℕ) (j : Pubkey) {s' : Store}
      → process_instruction rt s program_id accounts input ≡ ok s'
      → BytesStep accounts s s' j
  process_instruction-BytesStep input j h =
      Effect-BytesStep accounts s (process_instruction-Effect rt s program_id accounts input h) j
