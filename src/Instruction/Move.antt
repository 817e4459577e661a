-- ===== src/Instruction/Move.antt =====
-- program/src/instruction/process_move_stake.rs and move_lamports.rs, with
-- `move_stake_or_lamports_shared_checks` of program/src/helpers/merge.rs. Log messages are left out.
pub mod Checks
pub mod Transfer
pub mod Free
use pinocchio_stake_program.Base.{
  ℕ, ◌-◌, Bool, true, false, List, [], ◌∷◌, Result, ok, err, program, panicked, out_of_fuel, fail,
  fail_if, ok_or, ◌>>=◌, ◌>>◌, ltb, leb, ◌==◌, ◌!=◌, not, ◌&&◌, ◌||◌, if◌then◌else◌, length,
  invalid_account_data, invalid_argument, invalid_instruction_data, missing_required_signature,
  arithmetic_overflow,
}
use pinocchio_stake_program.Types.{
  Meta, Stake, Clock, StakeStateV2, uninitialized, initialized, staked, rewards_pool, u64_max,
  empty_flags, to_program_error, merge_mismatch, vote_address_mismatch, authorized_eq,
}
use pinocchio_stake_program.Codec.{account_size}
use pinocchio_stake_program.Runtime.{AccountInfo, Store, Runtime}
use pinocchio_stake_program.History.{get_entry, checked_sub, checked_add_u64}
use pinocchio_stake_program.Merge.{
  MergeKind, inactive, activation_epoch_kind, fully_active, kind_meta, get_if_mergeable,
  classify_loose, metas_can_merge, merge_delegation_stake_and_credits_observed, set_stake_amount,
}
use pinocchio_stake_program.Helpers.{
  get_stake_state, set_stake_state, next_account_info, relocate_lamports, get_minimum_delegation,
}

-- `!data.is_empty() && data[0] == 0`
unfoldable pub starts_with_zero : List ℕ → Bool
starts_with_zero [] = false
starts_with_zero (b ∷ bytes) = b == 0

unfoldable pub reject_uninitialized : StakeStateV2 → Result (Unit {0})
reject_uninitialized uninitialized = fail invalid_account_data
reject_uninitialized (initialized m) = ok tt
reject_uninitialized (staked m k flags) = ok tt
reject_uninitialized rewards_pool = ok tt

-- A deactivation that is scheduled and not past.
unfoldable pub is_deactivating : ℕ → StakeStateV2 → Bool
is_deactivating epoch (staked m k flags) =
    k.delegation.deactivation_epoch != u64_max && leb epoch k.delegation.deactivation_epoch
is_deactivating epoch (initialized m) = false
is_deactivating epoch uninitialized = false
is_deactivating epoch rewards_pool = false

-- The `Err(e)` arms of the classification.
unfoldable pub or_loose : Result MergeKind → Bool → StakeStateV2 → ℕ → Clock → Result MergeKind
or_loose (ok kind) require_mergeable state lamports clock = ok kind
or_loose (err (program e)) require_mergeable state lamports clock = do
  reject_uninitialized state
  if require_mergeable then fail e else classify_loose state lamports clock
or_loose (err panicked) require_mergeable state lamports clock = err panicked
or_loose (err out_of_fuel) require_mergeable state lamports clock = err out_of_fuel

unfoldable pub shared_checks :
    Runtime
    → Store
    → AccountInfo
    → ℕ
    → AccountInfo
    → AccountInfo
    → Bool
    → Bool
    → Result (MergeKind × MergeKind)
shared_checks rt s source lamports destination stake_authority require_meta_compat
      require_mergeable =
    do
      fail_if (not stake_authority.is_signer) missing_required_signature
      fail_if (source.key == destination.key) invalid_instruction_data
      fail_if (not source.is_writable || not destination.is_writable) invalid_instruction_data
      fail_if (lamports == 0) invalid_argument
      clock ← rt.clock_get
      fail_if (starts_with_zero (s source.key).bytes) invalid_account_data
      fail_if (starts_with_zero (s destination.key).bytes) invalid_account_data
      source_state ← get_stake_state s source
      reject_uninitialized source_state
      source_kind ←
          or_loose
            (get_if_mergeable rt.f64 (get_entry rt clock.epoch) source_state (s source.key).lamports
              clock)
            require_mergeable source_state (s source.key).lamports clock
      fail_if (is_deactivating clock.epoch source_state) (to_program_error merge_mismatch)
      fail_if ((kind_meta source_kind).authorized.staker != stake_authority.key)
          missing_required_signature
      destination_state ← get_stake_state s destination
      reject_uninitialized destination_state
      fail_if (is_deactivating clock.epoch destination_state) (to_program_error merge_mismatch)
      destination_kind ←
          or_loose
            (get_if_mergeable rt.f64 (get_entry rt clock.epoch) destination_state
              (s destination.key).lamports clock)
            require_mergeable destination_state (s destination.key).lamports clock
      (if require_meta_compat
          then metas_can_merge (kind_meta source_kind) (kind_meta destination_kind) clock
          else ok tt)
      ok (source_kind, destination_kind)

-- `if let Ok(Uninitialized) = get_stake_state(..)`
unfoldable pub reject_readable_uninitialized : Result StakeStateV2 → Result (Unit {0})
reject_readable_uninitialized (ok state) = reject_uninitialized state
reject_readable_uninitialized (err e) = ok tt

-- `if let Ok(Stake(..)) = get_stake_state(..)` with its second reading of the clock.
unfoldable pub reject_readable_deactivating : Runtime → Result StakeStateV2 → Result (Unit {0})
reject_readable_deactivating rt (ok (staked m k flags)) = do
  clock ← rt.clock_get
  fail_if (is_deactivating clock.epoch (staked m k flags)) (to_program_error merge_mismatch)
reject_readable_deactivating rt (ok (initialized m)) = ok tt
reject_readable_deactivating rt (ok uninitialized) = ok tt
reject_readable_deactivating rt (ok rewards_pool) = ok tt
reject_readable_deactivating rt (err e) = ok tt

unfoldable pub fully_active_parts : MergeKind → Result (Meta × Stake)
fully_active_parts (fully_active m k) = ok (m, k)
fully_active_parts (inactive m lamports flags) = fail (to_program_error merge_mismatch)
fully_active_parts (activation_epoch_kind m k flags) = fail (to_program_error merge_mismatch)

-- The `match destination_kind` of `process_move_stake`: the store and the destination's metadata.
unfoldable pub move_to : Store → AccountInfo → ℕ → Stake → MergeKind → Result (Store × Meta)
move_to s destination lamports source_stake (fully_active destination_meta destination_stake) = do
  fail_if (source_stake.delegation.voter_pubkey != destination_stake.delegation.voter_pubkey)
      (to_program_error vote_address_mismatch)
  final_stake ←
      ok_or (checked_add_u64 destination_stake.delegation.stake lamports) arithmetic_overflow
  fail_if (ltb final_stake get_minimum_delegation) invalid_argument
  k' ←
      merge_delegation_stake_and_credits_observed destination_stake lamports
        source_stake.credits_observed
  s1 ← set_stake_state s destination (staked destination_meta k' empty_flags)
  ok (s1, destination_meta)
move_to s destination lamports source_stake (inactive destination_meta inactive_lamports flags) = do
  fail_if (ltb lamports get_minimum_delegation) invalid_argument
  s1 ←
      set_stake_state s destination
        (staked destination_meta (set_stake_amount source_stake lamports) empty_flags)
  ok (s1, destination_meta)
move_to s destination lamports source_stake (activation_epoch_kind m k flags) =
    fail (to_program_error merge_mismatch)

-- What the source keeps.
unfoldable pub source_rest : Meta → Stake → ℕ → StakeStateV2
source_rest m k final_stake =
    if final_stake == 0
    then initialized m
    else staked m (set_stake_amount k final_stake) empty_flags

-- The steps behind the checks.
unfoldable pub move_stake :
    Store → AccountInfo → AccountInfo → ℕ → MergeKind → MergeKind → Result Store
move_stake s source destination lamports source_kind destination_kind = do
  (source_meta, source_stake) ← fully_active_parts source_kind
  final_stake ← ok_or (checked_sub source_stake.delegation.stake lamports) invalid_argument
  fail_if (final_stake != 0 && ltb final_stake get_minimum_delegation) invalid_argument
  (s1, destination_meta) ← move_to s destination lamports source_stake destination_kind
  s2 ← set_stake_state s1 source (source_rest source_meta source_stake final_stake)
  s3 ← relocate_lamports s2 source destination lamports
  fail_if
      (ltb (s3 source.key).lamports source_meta.rent_exempt_reserve
        || ltb (s3 destination.key).lamports destination_meta.rent_exempt_reserve)
      invalid_argument
  ok s3

unfoldable pub process_move_stake : Runtime → Store → List AccountInfo → ℕ → Result Store
unfolding reject_readable_uninitialized reject_readable_deactivating move_stake
process_move_stake rt s accounts lamports = do
  (source, r1) ← next_account_info accounts
  (destination, r2) ← next_account_info r1
  (stake_authority, r3) ← next_account_info r2
  reject_readable_uninitialized (get_stake_state s source)
  reject_readable_uninitialized (get_stake_state s destination)
  (source_kind, destination_kind) ←
      shared_checks rt s source lamports destination stake_authority true true
  reject_readable_deactivating rt (get_stake_state s destination)
  fail_if
      (length (s source.key).bytes != account_size
        || length (s destination.key).bytes != account_size)
      invalid_account_data
  move_stake s source destination lamports source_kind destination_kind

-- The pre-check of `process_move_lamports` on one account.
unfoldable pub reject_transient : ℕ → StakeStateV2 → Result (Unit {0})
reject_transient epoch (staked m k flags) =
    fail_if (is_deactivating epoch (staked m k flags)) (to_program_error merge_mismatch)
reject_transient epoch (initialized m) = ok tt
reject_transient epoch uninitialized = fail invalid_account_data
reject_transient epoch rewards_pool = fail invalid_account_data

-- `source_free_lamports`
unfoldable pub free_lamports : ℕ → MergeKind → Result ℕ
free_lamports lamports (fully_active m k) =
    ok (lamports - k.delegation.stake - m.rent_exempt_reserve)
free_lamports lamports (inactive m source_lamports flags) =
    ok (source_lamports - m.rent_exempt_reserve)
free_lamports lamports (activation_epoch_kind m k flags) = fail (to_program_error merge_mismatch)

-- The steps behind the checks.
unfoldable pub move_lamports :
    Store → AccountInfo → AccountInfo → AccountInfo → ℕ → MergeKind → MergeKind → Result Store
move_lamports s source destination staker_authority lamports source_kind dest_kind = do
  fail_if (not (authorized_eq (kind_meta source_kind).authorized (kind_meta dest_kind).authorized))
      (to_program_error merge_mismatch)
  fail_if ((kind_meta source_kind).authorized.staker != staker_authority.key)
      missing_required_signature
  free ← free_lamports (s source.key).lamports source_kind
  fail_if (ltb free lamports) invalid_argument
  s1 ← relocate_lamports s source destination lamports
  fail_if
      (ltb (s1 source.key).lamports (kind_meta source_kind).rent_exempt_reserve
        || ltb (s1 destination.key).lamports (kind_meta dest_kind).rent_exempt_reserve)
      invalid_argument
  ok s1

unfoldable pub process_move_lamports : Runtime → Store → List AccountInfo → ℕ → Result Store
unfolding reject_transient is_deactivating move_lamports
process_move_lamports rt s accounts lamports = do
  (source, r1) ← next_account_info accounts
  (destination, r2) ← next_account_info r1
  (staker_authority, r3) ← next_account_info r2
  clock ← rt.clock_get
  source_state ← get_stake_state s source
  reject_transient clock.epoch source_state
  destination_state ← get_stake_state s destination
  reject_transient clock.epoch destination_state
  (source_kind, dest_kind) ←
      shared_checks rt s source lamports destination staker_authority true false
  move_lamports s source destination staker_authority lamports source_kind dest_kind
