-- ===== src/Helpers.antt =====
-- program/src/helpers/utils.rs: accounts and their states, signers, lamports, and the amounts that
-- a split, a delegation and a redelegation work with.
pub mod State
pub mod Lamports
pub mod Moves
pub mod Signers
pub mod Checked
pub mod Votes
use pinocchio_stake_program.Base.{
  ℕ, ◌+◌, ◌-◌, ◌*◌, zero, suc, Bool, true, false, Option, none, some, List, [], ◌∷◌, Result, ok,
  err, fail, fail_if, ok_or, ◌>>=◌, ◌>>◌, ltb, leb, ◌==◌, ◌!=◌, not, ◌&&◌, ◌||◌, if◌then◌else◌,
  custom, not_enough_account_keys, insufficient_funds, arithmetic_overflow, invalid_account_owner,
  incorrect_program_id, missing_required_signature, length,
}
use pinocchio_stake_program.Types.{
  Pubkey, Meta, Delegation, Stake, StakeStateV2, Clock, id, vote_program_id, maximum_signers,
  u64_max, u64_mod, lamports_per_sol, to_program_error, too_soon_to_redelegate,
}
use pinocchio_stake_program.Codec.{deserialize, serialize}
use pinocchio_stake_program.Runtime.{AccountInfo, Account, Store, update, Rent, Runtime, F64}
use pinocchio_stake_program.History.{History, checked_sub, checked_add_u64}
use pinocchio_stake_program.Delegation.{
  new_delegation, default_delegation, effective_stake, perpetual_new_warmup_cooldown_rate_epoch,
  saturating_add,
}

-- `collect_signers`, with `n` signers found so far: the keys that it writes, in order.
unfoldable pub collect_from : ℕ → List AccountInfo → Result (List Pubkey)
collect_from n [] = ok []
collect_from n (a ∷ accounts) = elim (a.is_signer) [
  | false ↦ collect_from n accounts
  | true ↦ elim (ltb n maximum_signers) [
    | false ↦ fail (custom 1)
    | true ↦ collect_from (n + 1) accounts >>= λ keys. ok (a.key ∷ keys)
  ]
]

unfoldable pub collect_signers : List AccountInfo → Result (List Pubkey)
unfolding collect_from
collect_signers accounts = collect_from 0 accounts

-- The next account of the iterator, and the iterator.
abbrev pub next_account_info : List AccountInfo → Result (AccountInfo × List AccountInfo)
next_account_info [] = fail not_enough_account_keys
next_account_info (a ∷ accounts) = ok (a, accounts)

abbrev feature_stake_raise_minimum_delegation_to_1_sol : Bool
feature_stake_raise_minimum_delegation_to_1_sol = false

abbrev pub get_minimum_delegation : ℕ
get_minimum_delegation =
    if feature_stake_raise_minimum_delegation_to_1_sol then 1 * lamports_per_sol else 1

unfoldable pub get_stake_state : Store → AccountInfo → Result StakeStateV2
get_stake_state s ai = do
  fail_if ((s ai.key).owner != id) invalid_account_owner
  deserialize (s ai.key).bytes

abbrev pub set_bytes : Store → Pubkey → List ℕ → Store
set_bytes s k bytes = update s k (record (s k) { bytes = bytes })

abbrev pub set_lamports : Store → Pubkey → ℕ → Store
set_lamports s k lamports = update s k (record (s k) { lamports = lamports })

unfoldable pub set_stake_state : Store → AccountInfo → StakeStateV2 → Result Store
set_stake_state s ai state = do
  bytes ← serialize state (s ai.key).bytes
  ok (set_bytes s ai.key bytes)

-- The destination is read after the source is written: with one account for both, nothing moves.
unfoldable pub relocate_lamports : Store → AccountInfo → AccountInfo → ℕ → Result Store
relocate_lamports s source destination lamports = do
  left ← ok_or (checked_sub (s source.key).lamports lamports) insufficient_funds
  let s1 = set_lamports s source.key left
  grown ← ok_or (checked_add_u64 (s1 destination.key).lamports lamports) arithmetic_overflow
  ok (set_lamports s1 destination.key grown)

pub record ValidatedSplitInfo : Type 0 where
  pub source_remaining_balance : ℕ
  pub destination_rent_exempt_reserve : ℕ

unfoldable pub validate_split_amount :
    Runtime → ℕ → ℕ → ℕ → Meta → ℕ → ℕ → Bool → Result ValidatedSplitInfo
validate_split_amount rt source_lamports destination_lamports split_lamports source_meta
      destination_data_len additional_required_lamports source_is_active =
    do
      fail_if (split_lamports == 0) insufficient_funds
      fail_if (ltb source_lamports split_lamports) insufficient_funds
      let source_minimum_balance =
          saturating_add source_meta.rent_exempt_reserve additional_required_lamports
      let source_remaining_balance = source_lamports - split_lamports
      fail_if (source_remaining_balance != 0 && ltb source_remaining_balance source_minimum_balance)
          insufficient_funds
      rent ← rt.rent_get
      let reserve = rent.minimum_balance destination_data_len
      fail_if
          (source_is_active && source_remaining_balance != 0 && ltb destination_lamports reserve)
          insufficient_funds
      let destination_minimum_balance = saturating_add reserve additional_required_lamports
      fail_if (ltb split_lamports (destination_minimum_balance - destination_lamports))
          insufficient_funds
      ok (record {
        source_remaining_balance = source_remaining_balance;
        destination_rent_exempt_reserve = reserve;
      })

unfoldable pub get_vote_credits : Store → AccountInfo → Result ℕ
get_vote_credits s vote = do
  fail_if ((s vote.key).owner != vote_program_id) incorrect_program_id
  ok 100

-- `validate_delegated_amount`, which never fails.
abbrev pub validate_delegated_amount : Store → AccountInfo → Meta → ℕ
validate_delegated_amount s stake_account m = (s stake_account.key).lamports - m.rent_exempt_reserve

abbrev pub new_stake_with_credits : ℕ → Pubkey → ℕ → ℕ → Stake
new_stake_with_credits stake_amount vote_pubkey activation_epoch credits_observed = record {
  delegation = new_delegation vote_pubkey stake_amount activation_epoch;
  credits_observed = credits_observed;
}

-- The delegation that `redelegate_stake` and `redelegate_stake_with_credits` write at their end.
abbrev pub redelegated : Stake → ℕ → Pubkey → ℕ → ℕ → Stake
redelegated k stake_lamports voter credits epoch = record {
  delegation = record (k.delegation) {
    stake = stake_lamports;
    activation_epoch = epoch;
    deactivation_epoch = u64_max;
    voter_pubkey = voter;
  };
  credits_observed = credits;
}

abbrev pub rescinded : Stake → Stake
rescinded k = record k { delegation = record (k.delegation) { deactivation_epoch = u64_max } }

unfoldable pub redelegate_stake : F64 → History → Stake → ℕ → Pubkey → ℕ → ℕ → Result Stake
redelegate_stake f64 history k stake_lamports voter vote_credits epoch = do
  effective ←
      effective_stake f64 history perpetual_new_warmup_cooldown_rate_epoch k.delegation epoch
  if effective != 0
      then (if k.delegation.voter_pubkey == voter && k.delegation.deactivation_epoch == epoch
          then ok (rescinded k)
          else fail (to_program_error too_soon_to_redelegate))
      else ok (redelegated k stake_lamports voter vote_credits epoch)

-- The steps of `redelegate_stake_with_credits` behind its reading of the effective stake.
unfoldable pub redelegate_effective : Stake → ℕ → Pubkey → ℕ → ℕ → ℕ → Result Stake
redelegate_effective k stake_lamports voter credits_observed epoch effective =
    let act = k.delegation.activation_epoch in
    let deact = k.delegation.deactivation_epoch in
    let delegated = k.delegation.stake in
    let same_voter = k.delegation.voter_pubkey == voter in
    if not same_voter && ltb 0 delegated && (deact == u64_max || leb epoch deact)
    then fail (to_program_error too_soon_to_redelegate)
    else if deact != u64_max
    then if same_voter then ok (rescinded k) else fail (to_program_error too_soon_to_redelegate)
    else if effective != 0
        || (ltb 0 delegated && deact == u64_max && ltb act epoch)
        || (ltb 0 delegated && deact == epoch)
    then fail (to_program_error too_soon_to_redelegate)
    else ok (redelegated k stake_lamports voter credits_observed epoch)

unfoldable pub redelegate_stake_with_credits :
    F64 → History → Stake → ℕ → Pubkey → ℕ → ℕ → Result Stake
unfolding redelegate_effective
redelegate_stake_with_credits f64 history k stake_lamports voter credits_observed epoch =
    effective_stake f64 history perpetual_new_warmup_cooldown_rate_epoch k.delegation epoch
    >>= redelegate_effective k stake_lamports voter credits_observed epoch
