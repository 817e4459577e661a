-- ===== src/Instruction/Split.antt =====
-- program/src/instruction/split.rs. Its log messages are left out.
pub mod Shares
use pinocchio_stake_program.Base.{
  ℕ, ◌-◌, Bool, true, false, List, [], ◌∷◌, ◌++◌, Result, ok, err, fail, fail_if, ◌>>=◌, ◌>>◌, ltb,
  ◌==◌, ◌!=◌, not, if◌then◌else◌, length, replicate, invalid_account_data, not_enough_account_keys,
  insufficient_funds, missing_required_signature, invalid_account_owner,
}
use pinocchio_stake_program.Types.{
  Pubkey, Meta, Stake, StakeFlags, StakeStateV2, uninitialized, initialized, staked, rewards_pool,
  check, staker_role, id, default_pubkey, maximum_signers, to_program_error,
  insufficient_delegation,
}
use pinocchio_stake_program.Codec.{deserialize, account_size}
use pinocchio_stake_program.Runtime.{AccountInfo, Store, Runtime}
use pinocchio_stake_program.History.{get_entry}
use pinocchio_stake_program.Delegation.{
  stake_activating_and_deactivating, perpetual_new_warmup_cooldown_rate_epoch, split,
}
use pinocchio_stake_program.Helpers.{
  get_stake_state, set_stake_state, collect_signers, get_minimum_delegation, validate_split_amount,
  ValidatedSplitInfo, relocate_lamports,
}

-- Only an account whose bytes are an uninitialized state may receive a split.
unfoldable pub require_uninitialized : Result StakeStateV2 → Result (Unit {0})
require_uninitialized (ok uninitialized) = ok tt
require_uninitialized (ok (initialized m)) = fail invalid_account_data
require_uninitialized (ok (staked m k flags)) = fail invalid_account_data
require_uninitialized (ok rewards_pool) = fail invalid_account_data
require_uninitialized (err e) = fail invalid_account_data

-- `(remaining_stake_delta, split_stake_amount)`
unfoldable pub split_amounts : ℕ → ℕ → Meta → Stake → ValidatedSplitInfo → Result (ℕ × ℕ)
split_amounts split_lamports destination_lamports m k info =
    if info.source_remaining_balance == 0
    then ok (split_lamports - m.rent_exempt_reserve, split_lamports - m.rent_exempt_reserve)
    else if ltb (k.delegation.stake - split_lamports) get_minimum_delegation
    then fail (to_program_error insufficient_delegation)
    else ok (
      split_lamports,
      split_lamports - (info.destination_rent_exempt_reserve - destination_lamports),
    )

abbrev pub with_reserve : Meta → ℕ → Meta
with_reserve m reserve = record m { rent_exempt_reserve = reserve }

-- The two writes behind a split of the stake.
unfoldable pub store_split :
    Store → AccountInfo → AccountInfo → Meta → ℕ → StakeFlags → Stake × Stake → Result Store
store_split s source destination m reserve flags (source_stake, destination_stake) = do
  s1 ← set_stake_state s source (staked m source_stake flags)
  set_stake_state s1 destination (staked (with_reserve m reserve) destination_stake flags)

-- The `match` on the source's state, up to the relocation.
unfoldable pub split_state :
    Runtime → Store → AccountInfo → AccountInfo → ℕ → ℕ → List Pubkey → StakeStateV2 → Result Store
split_state rt s source destination split_lamports epoch signers (staked m k flags) = do
  check m.authorized signers staker_role
  status ←
      stake_activating_and_deactivating rt.f64 (get_entry rt epoch)
        perpetual_new_warmup_cooldown_rate_epoch k.delegation epoch
  info ←
      validate_split_amount rt (s source.key).lamports (s destination.key).lamports split_lamports m
        (length (s destination.key).bytes) get_minimum_delegation (ltb 0 status.effective)
  (remaining_stake_delta, split_stake_amount) ←
      split_amounts split_lamports (s destination.key).lamports m k info
  fail_if (ltb split_stake_amount get_minimum_delegation) (to_program_error insufficient_delegation)
  stakes ← split k remaining_stake_delta split_stake_amount
  store_split s source destination m info.destination_rent_exempt_reserve flags stakes
split_state rt s source destination split_lamports epoch signers (initialized m) = do
  check m.authorized signers staker_role
  info ←
      validate_split_amount rt (s source.key).lamports (s destination.key).lamports split_lamports m
        (length (s destination.key).bytes) 0 false
  set_stake_state s destination (initialized (with_reserve m info.destination_rent_exempt_reserve))
split_state rt s source destination split_lamports epoch signers uninitialized = do
  fail_if (not source.is_signer) missing_required_signature
  ok s
split_state rt s source destination split_lamports epoch signers rewards_pool =
    fail invalid_account_data

-- `Deinitialize state upon zero balance`
unfoldable pub close_if : Store → AccountInfo → Bool → Result Store
close_if s source true = set_stake_state s source uninitialized
close_if s source false = ok s

-- The whole array of signers is searched: the keys, and the default key in each unused place.
unfoldable pub padded : List Pubkey → List Pubkey
padded signers = signers ++ replicate (maximum_signers - length signers) default_pubkey

-- `let [source, destination, _] = accounts else`: exactly three accounts.
abbrev pub split_accounts : List AccountInfo → Result (AccountInfo × AccountInfo)
split_accounts (source ∷ destination ∷ third ∷ []) = ok (source, destination)
split_accounts accounts = fail not_enough_account_keys

unfoldable pub process_split : Runtime → Store → List AccountInfo → ℕ → Result Store
unfolding require_uninitialized split_state close_if padded
process_split rt s accounts split_lamports = do
  signers ← collect_signers accounts
  (source, destination) ← split_accounts accounts
  fail_if ((s source.key).owner != id) invalid_account_owner
  fail_if ((s destination.key).owner != id) invalid_account_owner
  clock ← rt.clock_get
  fail_if (ltb (length (s destination.key).bytes) account_size) invalid_account_data
  require_uninitialized (deserialize (s destination.key).bytes)
  let source_lamport_balance = (s source.key).lamports
  fail_if (ltb source_lamport_balance split_lamports) insufficient_funds
  state ← get_stake_state s source
  s1 ← split_state rt s source destination split_lamports clock.epoch (padded signers) state
  s2 ← close_if s1 source (split_lamports == source_lamport_balance)
  relocate_lamports s2 source destination split_lamports
