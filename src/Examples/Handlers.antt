-- ===== src/Examples/Handlers.antt =====
-- The theorems on the handlers that move lamports, at concrete accounts.
use pinocchio_stake_program.Instruction.Move.{
  fully_active_parts, is_deactivating, move_stake, move_to, reject_readable_deactivating,
  reject_readable_uninitialized, source_rest,
}
use pinocchio_stake_program.Lockup.{bypassed}
use pinocchio_stake_program.Instruction.MergeAccounts.{store_merged}
use pinocchio_stake_program.Merge.{
  active_delegations_can_merge, classify_loose, classify_stake, classify_status, combine,
  delegations_ok, merge, merge_delegation_stake_and_credits_observed,
  stake_weighted_credits_observed,
}
use pinocchio_stake_program.Base.Bytes.{lex_ltb}
use pinocchio_stake_program.Instruction.Split.{
  close_if, padded, require_uninitialized, split_amounts, split_state, store_split,
}
use pinocchio_stake_program.History.{decode_entry, entry_offset, get_entry, read_entry}
use pinocchio_stake_program.Delegation.{
  activate_since, activation_round, deactivate_since, deactivation_round, go_on, is_bootstrap,
  newly_stake, run_rounds, stake_activating_and_deactivating, stake_and_activating, status_of,
  warmup_cooldown_rate,
}
use pinocchio_stake_program.Merge.{get_if_mergeable, metas_can_merge}
use pinocchio_stake_program.Instruction.Move.{
  or_loose, reject_uninitialized, shared_checks, starts_with_zero,
}
use pinocchio_stake_program.Base.Bytes.{le_bytes, le_value, read_le, write_at}
use pinocchio_stake_program.Examples.{stored}
use pinocchio_stake_program.Base.{
  inr, ℕ, ◌≡◌, ◌⊎◌, true, false, List, [], ◌∷◌, ok, fail, refl, arith, ◌≢◌, incorrect_program_id,
  invalid_instruction_data,
}
use pinocchio_stake_program.Types.{id, uninitialized, contains, required_key, check}
use pinocchio_stake_program.Codec.{deserialize, serialize}
use pinocchio_stake_program.Helpers.{
  get_stake_state, set_stake_state, relocate_lamports, collect_from, collect_signers,
  validate_split_amount,
}
use pinocchio_stake_program.Helpers.Lamports.{Moves}
use pinocchio_stake_program.Runtime.{AccountInfo}
use pinocchio_stake_program.Lockup.{is_in_force}
use pinocchio_stake_program.Instruction.Withdraw.{process_withdraw}
use pinocchio_stake_program.Instruction.Withdraw.Guards.{withdraw-Allowed, Allowed}
use pinocchio_stake_program.Instruction.Split.{process_split}
use pinocchio_stake_program.Instruction.Split.Shares.{split-SplitBy, SplitBy}
use pinocchio_stake_program.Instruction.MergeAccounts.{process_merge}
use pinocchio_stake_program.Instruction.MergeAccounts.Settle.{merge-Merged, Merged}
use pinocchio_stake_program.Instruction.Move.{process_move_stake}
use pinocchio_stake_program.Instruction.Move.Transfer.{process_move_stake-MovesBy, MovesBy}
use pinocchio_stake_program.Entrypoint.{process_instruction, try_from, withdraw}
use pinocchio_stake_program.Structs.{repr_c, place, align_of}
use pinocchio_stake_program.Entrypoint.Routes.{process_instruction-refused, missized}
use pinocchio_stake_program.Conservation.Dispatch.{process_instruction-Moves}
use pinocchio_stake_program.Foreign.{KeepsForeign}
use pinocchio_stake_program.Foreign.Dispatch.{process_instruction-KeepsForeign}
use pinocchio_stake_program.Examples.{rt, store, signer, plain, after}

abbrev withdraw_accounts : List AccountInfo
withdraw_accounts = plain 3 ∷ plain 9 ∷ plain 7 ∷ plain 8 ∷ signer 12 ∷ []

-- A withdrawal of 10 lamports.
abbrev withdraw_10 : List ℕ
withdraw_10 = 4 ∷ 10 ∷ 0 ∷ 0 ∷ 0 ∷ 0 ∷ 0 ∷ 0 ∷ 0 ∷ []

process_instruction-Moves_example :
    Moves store (after (process_instruction rt store id withdraw_accounts withdraw_10))
unfolding process_instruction try_from process_withdraw get_stake_state deserialize stored write_at
    le_bytes check contains read_le le_value is_in_force relocate_lamports
process_instruction-Moves_example =
    process_instruction-Moves rt store id withdraw_accounts withdraw_10 refl

process_instruction-KeepsForeign_example :
    KeepsForeign store (after (process_instruction rt store id withdraw_accounts withdraw_10))
unfolding process_instruction try_from process_withdraw get_stake_state deserialize stored write_at
    le_bytes check contains read_le le_value is_in_force relocate_lamports
process_instruction-KeepsForeign_example =
    process_instruction-KeepsForeign rt store id withdraw_accounts withdraw_10 refl

withdraw-Allowed_example :
    ((get_stake_state store (plain 3) ≡ ok uninitialized) × (false ≡ true))
    ⊎ Allowed rt store (plain 3) (plain 7) (signer 12) [] 10
unfolding process_withdraw get_stake_state deserialize stored write_at le_bytes check contains
    read_le le_value is_in_force relocate_lamports
withdraw-Allowed_example =
    withdraw-Allowed rt store (plain 3) (plain 9) (plain 7) (signer 12) [] 10 (plain 8) refl

split-SplitBy_example :
    SplitBy rt store
      (plain 1)
      (plain 4)
      (signer 11)
      20
      (after (process_split rt store (plain 1 ∷ plain 4 ∷ signer 11 ∷ []) 20))
unfolding process_split collect_signers stored write_at deserialize get_stake_state le_bytes check
    contains read_le le_value stake_activating_and_deactivating get_entry validate_split_amount
    split_amounts pinocchio_stake_program.Delegation.split store_split set_stake_state lex_ltb
    serialize activate_since activation_round pinocchio_stake_program.Delegation.after
    deactivate_since deactivation_round go_on is_bootstrap newly_stake run_rounds
    stake_and_activating status_of warmup_cooldown_rate collect_from relocate_lamports decode_entry
    entry_offset read_entry close_if padded require_uninitialized split_state required_key
split-SplitBy_example = split-SplitBy rt store (plain 1) (plain 4) (signer 11) 20 refl

merge-Merged_example :
    Merged rt store
      (plain 2)
      (plain 1)
      (plain 7)
      (plain 8)
      (signer 11 ∷ [])
      (after (process_merge rt store (plain 2 ∷ plain 1 ∷ plain 7 ∷ plain 8 ∷ signer 11 ∷ [])))
unfolding process_merge collect_signers get_stake_state deserialize stored write_at le_bytes
    get_if_mergeable read_le le_value contains metas_can_merge merge active_delegations_can_merge
    merge_delegation_stake_and_credits_observed stake_weighted_credits_observed set_stake_state
    relocate_lamports lex_ltb serialize activate_since activation_round
    pinocchio_stake_program.Delegation.after deactivate_since deactivation_round go_on is_bootstrap
    newly_stake run_rounds stake_activating_and_deactivating stake_and_activating status_of
    warmup_cooldown_rate collect_from decode_entry entry_offset get_entry read_entry store_merged
    bypassed is_in_force classify_stake classify_status combine delegations_ok
merge-Merged_example =
    merge-Merged rt store (plain 2) (plain 1) (plain 7) (plain 8) (signer 11 ∷ []) refl

process_move_stake-MovesBy_example :
    MovesBy rt store
      (plain 1)
      (plain 2)
      (signer 11)
      []
      10
      (after (process_move_stake rt store (plain 1 ∷ plain 2 ∷ signer 11 ∷ []) 10))
unfolding process_move_stake get_stake_state deserialize stored write_at le_bytes
    reject_uninitialized shared_checks starts_with_zero or_loose get_if_mergeable read_le le_value
    is_deactivating metas_can_merge fully_active_parts move_to
    merge_delegation_stake_and_credits_observed lex_ltb serialize activate_since activation_round
    pinocchio_stake_program.Delegation.after deactivate_since deactivation_round go_on is_bootstrap
    newly_stake run_rounds stake_activating_and_deactivating stake_and_activating status_of
    warmup_cooldown_rate relocate_lamports set_stake_state decode_entry entry_offset get_entry
    read_entry move_stake reject_readable_deactivating reject_readable_uninitialized source_rest
    bypassed is_in_force classify_loose classify_stake classify_status
    stake_weighted_credits_observed
process_move_stake-MovesBy_example =
    process_move_stake-MovesBy rt store (plain 1) (plain 2) (signer 11) [] 10 refl

-- A withdrawal with one byte in place of a number of lamports.
process_instruction-refused_example :
    ((id ≢ id)
      × (process_instruction rt store id withdraw_accounts (4 ∷ 1 ∷ [])
          ≡ fail incorrect_program_id))
    ⊎ ((id ≡ id)
        × (process_instruction rt store id withdraw_accounts (4 ∷ 1 ∷ [])
            ≡ fail invalid_instruction_data))
unfolding repr_c place align_of
process_instruction-refused_example =
    process_instruction-refused rt store id withdraw_accounts 4 (1 ∷ [])
      (inr (missized withdraw 8 refl refl (omega arith)))
