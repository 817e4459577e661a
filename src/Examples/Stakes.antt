-- ===== src/Examples/Stakes.antt =====
-- The theorems on delegations, deactivations and delinquency, at concrete accounts.
use pinocchio_stake_program.Instruction.Delinquent.{last_vote_epoch_bytes}
use pinocchio_stake_program.Delegation.{deactivate, stake_activating_and_deactivating}
use pinocchio_stake_program.Types.{check, contains}
use pinocchio_stake_program.Base.Bytes.{le_value, read_le, write_at}
use pinocchio_stake_program.Examples.{stored}
use pinocchio_stake_program.Helpers.{collect_signers, get_stake_state, get_vote_credits}
use pinocchio_stake_program.Base.{
  ℕ, ◌≡◌, List, [], ◌∷◌, ◌++◌, ok, refl, arith, replicate, zero, suc, ◌<◌, ◌-◌, Gives,
  if◌then◌else◌, ◌==◌,
}
use pinocchio_stake_program.Base.Bytes.{le_bytes, le_value}
use pinocchio_stake_program.Types.{Stake, vote_program_id}
use pinocchio_stake_program.Codec.{deserialize}
use pinocchio_stake_program.Runtime.{AccountInfo, Store}
use pinocchio_stake_program.History.{get_entry}
use pinocchio_stake_program.Delegation.{effective_stake, perpetual_new_warmup_cooldown_rate_epoch}
use pinocchio_stake_program.Helpers.{set_stake_state, redelegate_stake_with_credits}
use pinocchio_stake_program.Instruction.Delegate.{process_delegate, process_deactivate}
use pinocchio_stake_program.Instruction.Delegate.Phases.{
  delegate-Delegates, DelegatesBy, deactivate-Deactivates, DeactivatesBy, IsRedelegated,
  redelegate_stake_with_credits-IsRedelegated,
}
use pinocchio_stake_program.Instruction.Delinquent.{
  process_deactivate_delinquent, acceptable_reference_epoch_credits_bytes, count_of, epoch_at,
}
use pinocchio_stake_program.Instruction.Delinquent.Votes.{
  deactivate_delinquent-DelinquentBy, DelinquentBy,
}
use pinocchio_stake_program.Examples.{or_else, rt, integers, store, signer, plain, after, stake_50}

abbrev delegates : List AccountInfo
delegates = plain 3 ∷ plain 13 ∷ plain 7 ∷ plain 8 ∷ plain 9 ∷ signer 11 ∷ []

delegate-Delegates_example :
    DelegatesBy rt store
      (plain 3)
      (plain 13)
      (plain 7)
      (plain 8)
      (plain 9)
      (signer 11 ∷ [])
      (after (process_delegate rt store delegates))
unfolding process_delegate collect_signers get_vote_credits get_stake_state deserialize stored
    write_at le_bytes check contains read_le le_value set_stake_state
delegate-Delegates_example =
    delegate-Delegates rt store (plain 3) (plain 13) (plain 7) (plain 8) (plain 9) (signer 11 ∷ [])
      refl

-- A stake that activates in the clock's epoch.
abbrev activating : Stake
activating = record stake_50 { delegation = record (stake_50.delegation) { activation_epoch = 10 } }

redelegate_stake_with_credits-IsRedelegated_example :
    Gives
      (effective_stake integers
        (get_entry rt 10)
        perpetual_new_warmup_cooldown_rate_epoch
        activating.delegation
        10)
      (λ effective. IsRedelegated activating 60 13 100 10 effective (
        or_else stake_50
          (redelegate_stake_with_credits integers (get_entry rt 10) activating 60 13 100 10)))
unfolding redelegate_stake_with_credits effective_stake stake_activating_and_deactivating
redelegate_stake_with_credits-IsRedelegated_example =
    redelegate_stake_with_credits-IsRedelegated integers (get_entry rt 10) activating 60 13 100 10
      refl

deactivate-Deactivates_example :
    DeactivatesBy rt store
      (plain 1)
      (plain 7)
      (signer 11 ∷ [])
      (after (process_deactivate rt store (plain 1 ∷ plain 7 ∷ signer 11 ∷ [])))
unfolding process_deactivate collect_signers get_stake_state deserialize stored write_at le_bytes
    check contains read_le le_value deactivate set_stake_state
deactivate-Deactivates_example =
    deactivate-Deactivates rt store (plain 1) (plain 7) (signer 11 ∷ []) refl

abbrev entry : ℕ → List ℕ
unfolding le_bytes
entry epoch = le_bytes 8 epoch ++ replicate 16 0

-- Credits of the epochs 6 to 10.
abbrev credits : List ℕ
credits = 5 ∷ 0 ∷ 0 ∷ 0 ∷ (entry 6 ++ (entry 7 ++ (entry 8 ++ (entry 9 ++ entry 10))))

-- The vote account 13 has never voted, and 14 always.
abbrev votes : Store
votes k =
    if k == 13
    then record { owner = vote_program_id; lamports = 1; bytes = 0 ∷ 0 ∷ 0 ∷ 0 ∷ [] }
    else if k == 14
    then record { owner = vote_program_id; lamports = 1; bytes = credits }
    else store k

deactivate_delinquent-DelinquentBy_example :
    DelinquentBy rt votes
      (plain 1)
      (plain 13)
      (plain 14)
      []
      (after (process_deactivate_delinquent rt votes (plain 1 ∷ plain 13 ∷ plain 14 ∷ [])))
unfolding process_deactivate_delinquent acceptable_reference_epoch_credits_bytes entry le_value
    last_vote_epoch_bytes get_stake_state deserialize stored write_at read_le deactivate
    set_stake_state
deactivate_delinquent-DelinquentBy_example =
    deactivate_delinquent-DelinquentBy rt votes (plain 1) (plain 13) (plain 14) [] refl

last_entry : (j : ℕ) → j < 1 → epoch_at credits (count_of credits - 1 - j) ≡ ok (10 - j)
unfolding epoch_at entry count_of le_value
last_entry zero h = refl
last_entry (suc j) h = absurd (omega arith)
