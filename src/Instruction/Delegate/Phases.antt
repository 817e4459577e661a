-- ===== src/Instruction/Delegate/Phases.antt =====
-- Delegation, redelegation and deactivation (program/src/instruction/process_delegate.rs,
-- process_redelegate.rs, deactivate.rs): what each asks of a stake and what it leaves.
use pinocchio_stake_program.Base.{
  ℕ, ◌≡◌, ◌≢◌, ◌≤◌, ◌-◌, ◌⊎◌, ◌↔◌, true, List, ◌∷◌, ok, Post, Post-of, Gives, arith,
}
use pinocchio_stake_program.Types.{
  Pubkey, Stake, Clock, StakeStateV2, uninitialized, initialized, staked, rewards_pool, contains,
  check, required_key, u64_max, empty_flags, vote_program_id, default_warmup_cooldown_rate,
}
use pinocchio_stake_program.Runtime.{AccountInfo, Store, Runtime, F64}
use pinocchio_stake_program.History.{History, get_entry}
use pinocchio_stake_program.Delegation.{
  deactivate, effective_stake, perpetual_new_warmup_cooldown_rate_epoch,
}
use pinocchio_stake_program.Helpers.{
  get_stake_state, set_stake_state, collect_signers, redelegated, rescinded, redelegate_effective,
  redelegate_stake_with_credits, get_vote_credits,
}
use pinocchio_stake_program.Instruction.Delegate.{
  delegate_state, process_delegate, redelegate_state, redelegate, deactivate_state,
  process_deactivate,
}

-- What becomes of a stake that is delegated again: to its own voter it loses its scheduled or past
-- deactivation and keeps its amount and its credits; else it was not effective and had no
-- deactivation, and is delegated anew, with the new amount, from the epoch on.
abbrev pub IsRedelegated : Stake → ℕ → Pubkey → ℕ → ℕ → ℕ → Stake → Type 0
IsRedelegated k amount voter credits epoch effective k' =
    ((k.delegation.voter_pubkey ≡ voter)
      × (k.delegation.deactivation_epoch ≢ u64_max)
      × (k' ≡ rescinded k))
    ⊎ ((k.delegation.deactivation_epoch ≡ u64_max)
        × (effective ≡ 0)
        × ((k.delegation.stake ≡ 0)
            ⊎ ((k.delegation.voter_pubkey ≡ voter) × (epoch ≤ k.delegation.activation_epoch)))
        × (k' ≡ redelegated k amount voter credits epoch))

redelegate_effective-IsRedelegated :
    (k : Stake) (amount : ℕ) (voter : Pubkey) (credits epoch effective : ℕ)
    → Post
        (IsRedelegated k amount voter credits epoch effective)
        (redelegate_effective k amount voter credits epoch effective)
unfolding redelegate_effective
redelegate_effective-IsRedelegated k amount voter credits epoch effective = ground arith

-- A redelegation that succeeds either rescinds the deactivation of a stake with the same voter, or
-- delegates anew a stake that has no deactivation, of which nothing is effective, and which is
-- empty or has the same voter and has not passed its activation epoch.
pub redelegate_stake_with_credits-IsRedelegated :
    (f64 : F64) (history : History) (k : Stake) (amount : ℕ) (voter : Pubkey) (credits epoch : ℕ)
    {k' : Stake}
    → redelegate_stake_with_credits f64 history k amount voter credits epoch ≡ ok k'
    → Gives
        (effective_stake f64 history perpetual_new_warmup_cooldown_rate_epoch k.delegation epoch)
        (λ effective. IsRedelegated k amount voter credits epoch effective k')
unfolding redelegate_stake_with_credits
redelegate_stake_with_credits-IsRedelegated f64 history k amount voter credits epoch h =
    grind (arith, redelegate_effective-IsRedelegated k amount voter credits epoch)

module _ (rt : Runtime) (s : Store) (ai : AccountInfo) (vote : Pubkey) (credits : ℕ) where
  module _ (clock : Clock) (signers : List Pubkey) {s' : Store} where
    redelegate_state_iff :
        (state : StakeStateV2)
        → (redelegate_state rt s ai vote credits clock signers state ≡ ok s')
          ↔ (delegate_state rt s ai vote credits clock signers state ≡ ok s')
    unfolding redelegate_state delegate_state redelegate_stake_with_credits redelegate_effective
    redelegate_state_iff (initialized m) = (λ h. h, λ h. h)
    redelegate_state_iff (staked m k flags) = (λ h. grind arith, λ h. grind arith)
    redelegate_state_iff uninitialized = (λ h. h, λ h. h)
    redelegate_state_iff rewards_pool = (λ h. h, λ h. h)

module _ (rt : Runtime) (s : Store) (ai : AccountInfo) (vote : Pubkey) (credits : ℕ) where
  module _ (clock : Clock) (signers : List Pubkey) (state : StakeStateV2) {s' : Store} where
    to_delegate :
        redelegate_state rt s ai vote credits clock signers state ≡ ok s'
        → delegate_state rt s ai vote credits clock signers state ≡ ok s'
    to_delegate = (redelegate_state_iff rt s ai vote credits clock signers state).0

    to_redelegate :
        delegate_state rt s ai vote credits clock signers state ≡ ok s'
        → redelegate_state rt s ai vote credits clock signers state ≡ ok s'
    to_redelegate = (redelegate_state_iff rt s ai vote credits clock signers state).1

-- `redelegate` and `process_delegate` succeed on the same accounts, with the same new store.
pub redelegate_iff :
    (rt : Runtime) (s : Store) (accounts : List AccountInfo) {s' : Store}
    → (redelegate rt s accounts ≡ ok s') ↔ (process_delegate rt s accounts ≡ ok s')
unfolding redelegate process_delegate
redelegate_iff rt s accounts = (λ h. grind (arith, to_delegate), λ h. grind (arith, to_redelegate))

-- What delegating a state leaves. An initialized account delegates all that it has above its
-- reserve, from the clock's epoch on; a stake is redelegated, with its metadata and flags kept.
abbrev pub Delegates :
    Runtime → Store → AccountInfo → Pubkey → ℕ → Clock → List Pubkey → StakeStateV2 → Store → Type 0
Delegates rt s ai vote credits clock signers (initialized m) s' =
    (contains signers m.authorized.staker ≡ true)
    × (set_stake_state s ai (
          staked m
            (record {
              delegation = record {
                voter_pubkey = vote;
                stake = (s ai.key).lamports - m.rent_exempt_reserve;
                activation_epoch = clock.epoch;
                deactivation_epoch = u64_max;
                warmup_cooldown_rate = default_warmup_cooldown_rate;
              };
              credits_observed = credits;
            })
            empty_flags)
        ≡ ok s')
Delegates rt s ai vote credits clock signers (staked m k flags) s' =
    (contains signers m.authorized.staker ≡ true)
    × Gives
        (redelegate_stake_with_credits rt.f64 (get_entry rt clock.epoch) k
          ((s ai.key).lamports - m.rent_exempt_reserve) vote credits clock.epoch)
        (λ k'. set_stake_state s ai (staked m k' flags) ≡ ok s')
Delegates rt s ai vote credits clock signers uninitialized s' = ⊥
Delegates rt s ai vote credits clock signers rewards_pool s' = ⊥

delegate_state-Delegates :
    (rt : Runtime) (s : Store) (ai : AccountInfo) (vote : Pubkey) (credits : ℕ) (clock : Clock)
    (signers : List Pubkey) (state : StakeStateV2)
    → Post
        (Delegates rt s ai vote credits clock signers state)
        (delegate_state rt s ai vote credits clock signers state)
unfolding delegate_state check required_key
delegate_state-Delegates rt s ai vote credits clock signers (initialized m) = grind arith
delegate_state-Delegates rt s ai vote credits clock signers (staked m k flags) = grind arith
delegate_state-Delegates rt s ai vote credits clock signers uninitialized = tt
delegate_state-Delegates rt s ai vote credits clock signers rewards_pool = tt

-- What deactivating a state leaves: the stake with the clock's epoch as its deactivation epoch.
abbrev pub Deactivates : Store → AccountInfo → Clock → List Pubkey → StakeStateV2 → Store → Type 0
Deactivates s ai clock signers (staked m k flags) s' =
    (contains signers m.authorized.staker ≡ true)
    × (k.delegation.deactivation_epoch ≡ u64_max)
    × (set_stake_state s ai (
          staked m
            (record k { delegation = record (k.delegation) { deactivation_epoch = clock.epoch } })
            flags)
        ≡ ok s')
Deactivates s ai clock signers (initialized m) s' = ⊥
Deactivates s ai clock signers uninitialized s' = ⊥
Deactivates s ai clock signers rewards_pool s' = ⊥

deactivate_state-Deactivates :
    (s : Store) (ai : AccountInfo) (clock : Clock) (signers : List Pubkey) (state : StakeStateV2)
    → Post (Deactivates s ai clock signers state) (deactivate_state s ai clock signers state)
unfolding deactivate_state check required_key deactivate
deactivate_state-Deactivates s ai clock signers (staked m k flags) = grind arith
deactivate_state-Deactivates s ai clock signers (initialized m) = tt
deactivate_state-Deactivates s ai clock signers uninitialized = tt
deactivate_state-Deactivates s ai clock signers rewards_pool = tt

module _ (rt : Runtime) (s : Store) (stake_account vote_account clock_info : AccountInfo) where
  module _ (history config : AccountInfo) (rest : List AccountInfo) where
    abbrev pub delegate_accounts : List AccountInfo
    delegate_accounts = stake_account ∷ vote_account ∷ clock_info ∷ history ∷ config ∷ rest

    abbrev pub DelegatesBy : Store → Type 0
    DelegatesBy s' =
        ((s vote_account.key).owner ≡ vote_program_id)
        × Gives (collect_signers delegate_accounts) λ signers.
          Gives (rt.clock_from_account_info clock_info (s clock_info.key)) λ clock.
            Gives (get_stake_state s stake_account)
              λ state. Delegates rt s stake_account vote_account.key 100 clock signers state s'

    delegate-Post : Post DelegatesBy (process_delegate rt s delegate_accounts)
    unfolding process_delegate get_vote_credits
    delegate-Post = grind (arith, delegate_state-Delegates)

    -- A delegation that succeeds was signed by the staker and names an account of the vote program.
    -- An initialized account becomes a stake of its lamports above the reserve, from the clock's
    -- epoch on, with 100 credits whatever the vote account holds; a stake is redelegated.
    pub delegate-Delegates :
        {s' : Store} → process_delegate rt s delegate_accounts ≡ ok s' → DelegatesBy s'
    delegate-Delegates h =
        Post-of DelegatesBy (process_delegate rt s delegate_accounts) delegate-Post h

module _ (rt : Runtime) (s : Store) (stake_account clock_info : AccountInfo) where
  module _ (rest : List AccountInfo) where
    abbrev pub DeactivatesBy : Store → Type 0
    DeactivatesBy s' = Gives (collect_signers (stake_account ∷ clock_info ∷ rest)) λ signers.
        Gives (rt.clock_from_account_info clock_info (s clock_info.key)) λ clock.
          Gives (get_stake_state s stake_account)
            λ state. Deactivates s stake_account clock signers state s'

    deactivate-Post :
        Post DeactivatesBy (process_deactivate rt s (stake_account ∷ clock_info ∷ rest))
    unfolding process_deactivate
    deactivate-Post = grind (arith, deactivate_state-Deactivates)

    -- A deactivation that succeeds was signed by the staker of a stake with no deactivation, and
    -- writes the clock's epoch as its deactivation epoch and nothing else.
    pub deactivate-Deactivates :
        {s' : Store}
        → process_deactivate rt s (stake_account ∷ clock_info ∷ rest) ≡ ok s'
        → DeactivatesBy s'
    deactivate-Deactivates h =
        Post-of DeactivatesBy (process_deactivate rt s (stake_account ∷ clock_info ∷ rest))
          deactivate-Post h
