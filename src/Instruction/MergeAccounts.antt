-- ===== src/Instruction/MergeAccounts.antt =====
-- program/src/instruction/merge_dedicated.rs, which merge.rs calls.
pub mod Settle
use pinocchio_stake_program.Base.{
  Option, none, some, List, ◌∷◌, Result, ok, fail, fail_if, ◌>>=◌, ◌>>◌, ◌==◌, ◌!=◌, not, ◌||◌,
  invalid_account_data, invalid_argument, invalid_account_owner, not_enough_account_keys,
  missing_required_signature,
}
use pinocchio_stake_program.Types.{StakeStateV2, uninitialized, contains, id}
use pinocchio_stake_program.Runtime.{AccountInfo, Store, Runtime}
use pinocchio_stake_program.History.{get_entry}
use pinocchio_stake_program.Merge.{kind_meta, get_if_mergeable, metas_can_merge, merge}
use pinocchio_stake_program.Helpers.{
  get_stake_state, set_stake_state, collect_signers, relocate_lamports,
}

unfoldable pub store_merged : Store → AccountInfo → Option StakeStateV2 → Result Store
store_merged s dst none = ok s
store_merged s dst (some merged_state) = set_stake_state s dst merged_state

unfoldable pub process_merge : Runtime → Store → List AccountInfo → Result Store
unfolding store_merged
process_merge rt s (dst ∷ src ∷ clock_info ∷ stake_history_info ∷ rest) = do
  fail_if (dst.key == src.key) invalid_argument
  fail_if ((s dst.key).owner != id || (s src.key).owner != id) invalid_account_owner
  fail_if (not dst.is_writable || not src.is_writable) invalid_account_data
  clock ← rt.clock_from_account_info clock_info (s clock_info.key)
  signers ← collect_signers (dst ∷ src ∷ clock_info ∷ stake_history_info ∷ rest)
  dst_state ← get_stake_state s dst
  dst_kind ← get_if_mergeable rt.f64 (get_entry rt clock.epoch) dst_state (s dst.key).lamports clock
  fail_if (not (contains signers (kind_meta dst_kind).authorized.staker)) missing_required_signature
  src_state ← get_stake_state s src
  src_kind ← get_if_mergeable rt.f64 (get_entry rt clock.epoch) src_state (s src.key).lamports clock
  metas_can_merge (kind_meta dst_kind) (kind_meta src_kind) clock
  merged ← merge dst_kind src_kind
  s1 ← store_merged s dst merged
  s2 ← set_stake_state s1 src uninitialized
  relocate_lamports s2 src dst (s2 src.key).lamports
process_merge rt s accounts = fail not_enough_account_keys
