-- ===== src/Examples/Ledgers.antt =====
-- The theorems on the whole program and on sequences of instructions, at concrete accounts.
use pinocchio_stake_program.Helpers.{set_stake_state}
use pinocchio_stake_program.Base.{
  ℕ, ◌≡◌, true, List, [], ◌∷◌, refl, arith, ◌==◌, if◌then◌else◌, replicate, Bool-cases, inl, inr,
  ◌∙◌, Gives,
}
use pinocchio_stake_program.Base.Bytes.{le_bytes, le_value, read_le, write_at}
use pinocchio_stake_program.Types.{Pubkey, id, initialized, staked, empty_flags, contains, check}
use pinocchio_stake_program.Codec.{deserialize}
use pinocchio_stake_program.Runtime.{AccountInfo, Store}
use pinocchio_stake_program.Lockup.{is_in_force}
use pinocchio_stake_program.Helpers.{get_stake_state, relocate_lamports}
use pinocchio_stake_program.Instruction.Withdraw.{process_withdraw}
use pinocchio_stake_program.Instruction.Withdraw.Progress.{IsEmptied, process_withdraw-IsEmptied}
use pinocchio_stake_program.Entrypoint.{process_instruction, try_from}
use pinocchio_stake_program.Consent.{Consented}
use pinocchio_stake_program.Consent.Dispatch.{process_instruction-Consented}
use pinocchio_stake_program.Effects.{Effect, listed}
use pinocchio_stake_program.Effects.Dispatch.{actors, process_instruction-Acts}
use pinocchio_stake_program.Consent.Accounts.{Secured, Untouched, process_instruction-Secure}
use pinocchio_stake_program.Ledger.Guarded.{
  Guarded, IsKeptOut, done as done_guarded, then_run as then_guarded, Guarded-Untouched,
}
use pinocchio_stake_program.Effects.Accounts.{BytesStep, process_instruction-BytesStep}
use pinocchio_stake_program.Ledger.{unique_keys}
use pinocchio_stake_program.Ledger.Total.{contains-unique_keys, unique_keys-AreDistinct}
use pinocchio_stake_program.Ledger.Invariant.{IsLedger}
use pinocchio_stake_program.Ledger.Runs.{Run, done, then_run, Kept, Run-Kept}
use pinocchio_stake_program.Examples.{
  rt, store, signer, plain, after, metadata, stored, account, other, clock, stake_50,
}

abbrev accounts : List AccountInfo
accounts = plain 3 ∷ plain 9 ∷ plain 7 ∷ plain 8 ∷ signer 12 ∷ []

-- A withdrawal of 10 lamports.
abbrev withdraw_10 : List ℕ
withdraw_10 = 4 ∷ 10 ∷ 0 ∷ 0 ∷ 0 ∷ 0 ∷ 0 ∷ 0 ∷ 0 ∷ []

abbrev withdrawn : Store
withdrawn = after (process_instruction rt store id accounts withdraw_10)

process_instruction-Acts_example :
    Gives (try_from 4) λ ix. Effect (actors ix accounts) accounts store withdrawn
unfolding process_instruction try_from process_withdraw get_stake_state deserialize stored write_at
    le_bytes check contains read_le le_value is_in_force relocate_lamports
process_instruction-Acts_example =
    process_instruction-Acts rt store id accounts 4 (10 ∷ replicate 7 0) refl

process_instruction-BytesStep_example : BytesStep accounts store withdrawn 3
unfolding process_instruction try_from process_withdraw get_stake_state deserialize stored write_at
    le_bytes check contains read_le le_value is_in_force relocate_lamports
process_instruction-BytesStep_example =
    process_instruction-BytesStep rt store id accounts withdraw_10 3 refl

process_instruction-Consented_example : Gives (try_from 4) λ ix. Consented accounts ix metadata
unfolding process_instruction try_from process_withdraw get_stake_state deserialize stored write_at
    le_bytes check contains read_le le_value is_in_force relocate_lamports
process_instruction-Consented_example =
    process_instruction-Consented rt store (plain 3) (plain 9 ∷ plain 7 ∷ plain 8 ∷ signer 12 ∷ [])
      metadata (initialized metadata) refl refl id 4 (10 ∷ 0 ∷ 0 ∷ 0 ∷ 0 ∷ 0 ∷ 0 ∷ 0 ∷ []) refl

process_instruction-Secure_example :
    Gives (try_from 4) λ ix. Secured accounts ix store withdrawn 3 metadata
unfolding process_instruction try_from process_withdraw get_stake_state deserialize stored write_at
    le_bytes check contains read_le le_value is_in_force relocate_lamports
process_instruction-Secure_example =
    process_instruction-Secure rt store id 4 (10 ∷ replicate 7 0) 3 metadata (initialized metadata)
      refl refl refl accounts refl

-- The withdrawal pays the stake account 1.
abbrev to_1 : List AccountInfo
to_1 = plain 3 ∷ plain 1 ∷ plain 7 ∷ plain 8 ∷ signer 12 ∷ []

abbrev paid_to_1 : Store
paid_to_1 = after (process_instruction rt store id to_1 withdraw_10)

-- The account 1 is no actor of it.
kept_out : IsKeptOut to_1 4 1 metadata
unfolding try_from listed
kept_out l c = ground arith

guarded : Guarded 1 metadata store paid_to_1
unfolding process_instruction try_from process_withdraw get_stake_state deserialize stored write_at
    le_bytes check contains read_le le_value is_in_force relocate_lamports
guarded = then_guarded rt id to_1 4 (10 ∷ replicate 7 0) done_guarded kept_out refl

Guarded-Untouched_example : ((paid_to_1 1).owner ≡ id) × Untouched store paid_to_1 1
unfolding deserialize stored write_at le_bytes read_le le_value
Guarded-Untouched_example =
    Guarded-Untouched 1 metadata (staked metadata stake_50 empty_flags) store refl refl refl guarded

process_withdraw-IsEmptied_example :
    IsEmptied store (after (process_withdraw rt store accounts 40)) 3 9
unfolding get_stake_state deserialize stored write_at le_bytes read_le le_value is_in_force
    process_withdraw check contains set_stake_state relocate_lamports
process_withdraw-IsEmptied_example =
    process_withdraw-IsEmptied rt store (plain 3) (plain 9) (plain 7) (plain 8) (signer 12) clock
      metadata (initialized metadata) refl refl refl refl (omega arith) refl refl (omega arith)
      (omega arith) (omega arith)

-- The initialized account alone.
abbrev one_account : Store
one_account k = if k == 3 then account (initialized metadata) 40 else other

one_account-IsLedger : IsLedger one_account
unfolding deserialize stored write_at le_bytes
one_account-IsLedger = record {
  lamports_fit = λ j. ground arith;
  readable = λ j o. elim (Bool-cases (j == 3)) [
    | inl here ↦ rw here tt
    | inr there ↦
        let same : (one_account j).owner ≡ 1 = rw there refl in absurd (omega (arith, same, o))
  ];
}

abbrev once : Store
once = after (process_instruction rt one_account id accounts withdraw_10)

abbrev twice : Store
twice = after (process_instruction rt once id accounts withdraw_10)

abbrev keys : List Pubkey
keys = unique_keys accounts

covered : (k : Pubkey) → listed accounts k ≡ true → contains keys k ≡ true
covered k l = contains-unique_keys accounts k ∙ l

-- Two withdrawals, one after the other.
two_withdrawals : Run keys one_account twice
unfolding process_instruction try_from process_withdraw get_stake_state deserialize stored write_at
    le_bytes check contains read_le le_value is_in_force relocate_lamports
two_withdrawals =
    then_run rt id accounts withdraw_10 (then_run rt id accounts withdraw_10 done covered refl)
      covered refl

Run-Kept_example : Kept keys one_account twice
Run-Kept_example =
    Run-Kept keys (unique_keys-AreDistinct accounts) one_account one_account-IsLedger
      two_withdrawals
