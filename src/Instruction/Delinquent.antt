-- ===== src/Instruction/Delinquent.antt =====
-- program/src/instruction/deactivate_delinquent.rs.
pub mod Votes
pub mod Rows
use pinocchio_stake_program.Base.{
  ℕ, ◌+◌, ◌-◌, ◌*◌, zero, suc, Bool, true, false, Option, none, some, List, Result, ok, fail,
  fail_if, ◌>>=◌, ◌>>◌, ltb, leb, ◌==◌, ◌!=◌, not, ◌&&◌, ◌||◌, if◌then◌else◌, length, take, drop,
  invalid_account_data, incorrect_program_id,
}
use pinocchio_stake_program.Base.Bytes.{le_value}
use pinocchio_stake_program.Types.{
  Pubkey, StakeStateV2, uninitialized, initialized, staked, rewards_pool, vote_program_id,
  default_pubkey, minimum_delinquent_epochs_for_deactivation, to_program_error,
  insufficient_reference_votes, vote_address_mismatch,
  minimum_delinquent_epochs_for_deactivation_not_met,
}
use pinocchio_stake_program.Runtime.{AccountInfo, Store, Runtime}
use pinocchio_stake_program.History.{checked_sub}
use pinocchio_stake_program.Delegation.{deactivate}
use pinocchio_stake_program.Helpers.{get_stake_state, set_stake_state, next_account_info}

-- The `u32` count that the credits begin with, and the epoch of an entry of 24 bytes.
unfoldable pub count_of : List ℕ → ℕ
count_of bytes = le_value (take 4 bytes)

unfoldable pub epoch_at : List ℕ → ℕ → Result ℕ
epoch_at bytes index = do
  let off = 4 + index * 24
  fail_if (ltb (length bytes) (off + 8)) invalid_account_data
  ok (le_value (take 8 (drop off bytes)))

-- The rounds of the loop from `i` on, `rounds` of them.
unfoldable pub reference_rounds : List ℕ → ℕ → ℕ → ℕ → ℕ → Result Bool
reference_rounds bytes current_epoch count i zero = ok true
reference_rounds bytes current_epoch count i (suc rounds) =
    epoch_at bytes (count - 1 - i) >>= λ vote_epoch. elim (vote_epoch == current_epoch - i) [
      | false ↦ ok false
      | true ↦ reference_rounds bytes current_epoch count (i + 1) rounds
    ]

unfoldable pub acceptable_reference_epoch_credits_bytes : List ℕ → ℕ → ℕ → Result Bool
unfolding count_of epoch_at reference_rounds
acceptable_reference_epoch_credits_bytes bytes current_epoch n = do
  fail_if (ltb (length bytes) 4) invalid_account_data
  let rounds = reference_rounds bytes current_epoch (count_of bytes) 0 n
  if ltb (count_of bytes) n then ok false else rounds

unfoldable pub last_vote_epoch_bytes : List ℕ → Result (Option ℕ)
unfolding count_of epoch_at
last_vote_epoch_bytes bytes = do
  fail_if (ltb (length bytes) 4) invalid_account_data
  if count_of bytes == 0
      then ok none
      else (epoch_at bytes (count_of bytes - 1) >>= λ last. ok (some last))

-- `delinquent_is_eligible`
unfoldable pub eligible : ℕ → Option ℕ → Bool
eligible epoch none = true
eligible epoch (some last_epoch) =
    elim (checked_sub epoch minimum_delinquent_epochs_for_deactivation) [
      | none ↦ false
      | some min_epoch ↦ leb last_epoch min_epoch
    ]

unfoldable pub deactivate_if_eligible :
    Store → AccountInfo → Pubkey → ℕ → Bool → StakeStateV2 → Result Store
deactivate_if_eligible s stake_account vote epoch is_eligible (staked m k flags) = do
  fail_if (k.delegation.voter_pubkey != vote) (to_program_error vote_address_mismatch)
  fail_if (not is_eligible) (to_program_error minimum_delinquent_epochs_for_deactivation_not_met)
  k' ← deactivate k epoch
  set_stake_state s stake_account (staked m k' flags)
deactivate_if_eligible s stake_account vote epoch is_eligible (initialized m) =
    fail invalid_account_data
deactivate_if_eligible s stake_account vote epoch is_eligible uninitialized =
    fail invalid_account_data
deactivate_if_eligible s stake_account vote epoch is_eligible rewards_pool =
    fail invalid_account_data

unfoldable pub process_deactivate_delinquent : Runtime → Store → List AccountInfo → Result Store
unfolding eligible deactivate_if_eligible
process_deactivate_delinquent rt s accounts = do
  (stake_account, r1) ← next_account_info accounts
  (delinquent_vote, r2) ← next_account_info r1
  (reference_vote, r3) ← next_account_info r2
  clock ← rt.clock_get
  fail_if
      (vote_program_id != default_pubkey
        && ((s reference_vote.key).owner != vote_program_id
            || (s delinquent_vote.key).owner != vote_program_id))
      incorrect_program_id
  acceptable ←
      acceptable_reference_epoch_credits_bytes (s reference_vote.key).bytes clock.epoch
        minimum_delinquent_epochs_for_deactivation
  fail_if (not acceptable) (to_program_error insufficient_reference_votes)
  last_vote ← last_vote_epoch_bytes (s delinquent_vote.key).bytes
  state ← get_stake_state s stake_account
  deactivate_if_eligible s stake_account delinquent_vote.key clock.epoch
      (eligible clock.epoch last_vote) state
