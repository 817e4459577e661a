-- ===== src/Delegation.antt =====
-- program/src/state/delegation.rs and `warmup_cooldown_rate` of program/src/helpers/utils.rs: how
-- much of a delegation is effective at an epoch. The loops take the number of epochs that they can
-- go through as fuel.
pub mod Loop
pub mod Status
use pinocchio_stake_program.Base.{
  ℕ, ◌+◌, ◌-◌, ◌%◌, zero, suc, max, Result, ok, err, out_of_fuel, Option, none, some, ltb, leb,
  ◌==◌, ◌!=◌, if◌then◌else◌, ◌>>=◌, ◌||◌, ◌&&◌, Bool, true, false, fail,
}
use pinocchio_stake_program.Base.Bytes.{le_bytes, lex_ltb}
use pinocchio_stake_program.Types.{
  Pubkey, Delegation, Stake, u64_max, u64_mod, default_warmup_cooldown_rate,
  new_warmup_cooldown_rate, to_program_error, insufficient_stake, already_deactivated,
  default_pubkey,
}
use pinocchio_stake_program.Runtime.{F64}
use pinocchio_stake_program.History.{
  StakeHistoryEntry, History, default_entry, with_effective, with_effective_and_activating,
  with_deactivating,
}

-- `PERPETUAL_NEW_WARMUP_COOLDOWN_RATE_EPOCH`
abbrev pub perpetual_new_warmup_cooldown_rate_epoch : Option ℕ
perpetual_new_warmup_cooldown_rate_epoch = some 0

abbrev unwrap_or : Option ℕ → ℕ → ℕ
unwrap_or none d = d
unwrap_or (some n) d = n

-- The epochs are compared as byte arrays.
unfoldable pub warmup_cooldown_rate : ℕ → Option ℕ → ℕ
warmup_cooldown_rate current_epoch new_rate_activation_epoch =
    if lex_ltb (le_bytes 8 current_epoch) (le_bytes 8 (unwrap_or new_rate_activation_epoch u64_max))
    then default_warmup_cooldown_rate
    else new_warmup_cooldown_rate

abbrev pub saturating_add : ℕ → ℕ → ℕ
saturating_add a b = if ltb (a + b) u64_mod then a + b else u64_max

abbrev pub default_delegation : Delegation
default_delegation = record {
  voter_pubkey = default_pubkey;
  stake = 0;
  activation_epoch = 0;
  deactivation_epoch = u64_max;
  warmup_cooldown_rate = default_warmup_cooldown_rate;
}

-- `Delegation::new`
abbrev pub new_delegation : Pubkey → ℕ → ℕ → Delegation
new_delegation voter amount activation = record default_delegation {
  voter_pubkey = voter;
  stake = amount;
  activation_epoch = activation;
}

unfoldable pub is_bootstrap : Delegation → Bool
is_bootstrap d = d.activation_epoch == u64_max

-- One round of a loop: it breaks with the effective stake, or goes on with `prev_epoch`,
-- `prev_cluster_stake` and `current_effective_stake`.
pub data Round : Type 0 where
  stop : ℕ → Round
  next : ℕ → StakeHistoryEntry → ℕ → Round

-- A round's outcome, with the rounds that follow it.
unfoldable pub after : (ℕ → StakeHistoryEntry → ℕ → Result ℕ) → Result Round → Result ℕ
after rounds (err e) = err e
after rounds (ok (stop result)) = ok result
after rounds (ok (next prev_epoch cluster current)) = rounds prev_epoch cluster current

unfoldable pub run_rounds :
    (ℕ → StakeHistoryEntry → ℕ → Result Round) → ℕ → ℕ → StakeHistoryEntry → ℕ → Result ℕ
unfolding after
run_rounds round zero prev_epoch cluster current = err out_of_fuel
run_rounds round (suc fuel) prev_epoch cluster current =
    after (run_rounds round fuel) (round prev_epoch cluster current)

-- Where a round looks up the entry of the epoch that it has reached.
unfoldable pub go_on : ℕ → ℕ → Option StakeHistoryEntry → Round
go_on current_epoch current none = stop current
go_on current_epoch current (some cluster) = next current_epoch cluster current

module _ (f64 : F64) (history : History) (new_rate_activation_epoch : Option ℕ) where
  open f64 use {of_u64, div, mul, as_u64}

  -- `((weight * newly_cluster_stake) as u64).max(1)`
  unfoldable pub newly_stake : ℕ → ℕ → ℕ → ℕ → ℕ
  newly_stake share moving cluster_effective current_epoch =
      let weight = div (of_u64 share) (of_u64 moving) in
      let rate = warmup_cooldown_rate current_epoch new_rate_activation_epoch in
      max (as_u64 (mul weight (mul (of_u64 cluster_effective) rate))) 1

  unfoldable pub activation_round : ℕ → ℕ → ℕ → ℕ → StakeHistoryEntry → ℕ → Result Round
  unfolding newly_stake go_on
  activation_round delegated tgt deact prev_epoch cluster current =
      let current_epoch = (prev_epoch + 1) % u64_mod in
      let remaining = (delegated + u64_mod - current) % u64_mod in
      let newly = newly_stake remaining cluster.activating cluster.effective current_epoch in
      let current' = saturating_add current newly in
      if cluster.activating == 0
      then ok (stop current)
      else if leb delegated current'
      then ok (stop delegated)
      else if leb tgt current_epoch || leb deact current_epoch
      then ok (stop current')
      else (history current_epoch >>= λ entry. ok (go_on current_epoch current' entry))

  unfoldable pub deactivation_round : ℕ → ℕ → StakeHistoryEntry → ℕ → Result Round
  unfolding newly_stake go_on
  deactivation_round tgt prev_epoch cluster current =
      let current_epoch = (prev_epoch + 1) % u64_mod in
      let newly = newly_stake current cluster.deactivating cluster.effective current_epoch in
      let current' = current - newly in
      if cluster.deactivating == 0
      then ok (stop current)
      else if current' == 0
      then ok (stop current')
      else if leb tgt current_epoch
      then ok (stop current')
      else (history current_epoch >>= λ entry. ok (go_on current_epoch current' entry))

  unfoldable pub activate_since : Delegation → ℕ → Option StakeHistoryEntry → Result (ℕ × ℕ)
  unfolding activation_round run_rounds
  activate_since d tgt none = ok (d.stake, 0)
  activate_since d tgt (some cluster) =
      run_rounds (activation_round d.stake tgt d.deactivation_epoch) (tgt - d.activation_epoch)
        d.activation_epoch cluster 0
      >>= λ current. ok (current, (d.stake + u64_mod - current) % u64_mod)

  -- The effective and the activating stake.
  unfoldable pub stake_and_activating : Delegation → ℕ → Result (ℕ × ℕ)
  unfolding activate_since is_bootstrap
  stake_and_activating d tgt =
      if is_bootstrap d
      then ok (d.stake, 0)
      else if d.activation_epoch == d.deactivation_epoch
      then ok (0, 0)
      else if tgt == d.activation_epoch
      then ok (0, d.stake)
      else if ltb tgt d.activation_epoch
      then ok (0, 0)
      else (history d.activation_epoch >>= activate_since d tgt)

  unfoldable pub deactivate_since :
      Delegation → ℕ → ℕ → Option StakeHistoryEntry → Result StakeHistoryEntry
  unfolding deactivation_round run_rounds
  deactivate_since d tgt effective none = ok default_entry
  deactivate_since d tgt effective (some cluster) =
      run_rounds (deactivation_round tgt) (tgt - d.deactivation_epoch) d.deactivation_epoch cluster
        effective
      >>= λ current. ok (with_deactivating current)

  unfoldable pub status_of : Delegation → ℕ → ℕ × ℕ → Result StakeHistoryEntry
  unfolding deactivate_since
  status_of d tgt (effective, activating) =
      if ltb tgt d.deactivation_epoch
      then ok (
          if activating == 0
          then with_effective effective
          else with_effective_and_activating effective activating)
      else if tgt == d.deactivation_epoch
      then ok (with_deactivating effective)
      else (history d.deactivation_epoch >>= deactivate_since d tgt effective)

  unfoldable pub stake_activating_and_deactivating : Delegation → ℕ → Result StakeHistoryEntry
  unfolding stake_and_activating status_of
  stake_activating_and_deactivating d tgt = stake_and_activating d tgt >>= status_of d tgt

  -- `Delegation::stake`, which `Stake::stake` calls.
  unfoldable pub effective_stake : Delegation → ℕ → Result ℕ
  effective_stake d tgt = stake_activating_and_deactivating d tgt >>= λ status. ok status.effective

-- `Stake::split`: the stake that stays, and the new one.
unfoldable pub split : Stake → ℕ → ℕ → Result (Stake × Stake)
split k remaining_stake_delta split_stake_amount =
    if ltb k.delegation.stake remaining_stake_delta
    then fail (to_program_error insufficient_stake)
    else let kept : Stake = record k {
      delegation = record (k.delegation) { stake = k.delegation.stake - remaining_stake_delta };
    } in
      ok
        (kept, record kept { delegation = record (kept.delegation) { stake = split_stake_amount } })

-- `Stake::deactivate`
unfoldable pub deactivate : Stake → ℕ → Result Stake
deactivate k epoch =
    if k.delegation.deactivation_epoch != u64_max
    then fail (to_program_error already_deactivated)
    else ok (record k { delegation = record (k.delegation) { deactivation_epoch = epoch } })

-- `Stake::is_active`, the window check.
unfoldable pub is_active : Stake → ℕ → Bool
is_active k current_epoch =
    leb k.delegation.activation_epoch current_epoch
    && ltb current_epoch k.delegation.deactivation_epoch
