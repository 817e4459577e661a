-- ===== src/Instruction/Withdraw/Guards.antt =====
-- program/src/instruction/withdraw.rs: what a withdrawal that succeeds was allowed by.
use pinocchio_stake_program.Base.{
  ℕ, ◌+◌, ◌≤◌, ◌≡◌, ◌⊎◌, true, false, ◌≢◌, ◌<◌, Option, none, some, List, [], ◌∷◌, ok, Post,
  Post-of, Gives, ◌==◌, arith,
}
use pinocchio_stake_program.Types.{
  Pubkey, Clock, StakeStateV2, uninitialized, initialized, staked, rewards_pool, contains, Meta,
  check, required_key, Stake, u64_max,
}
use pinocchio_stake_program.History.{get_entry}
use pinocchio_stake_program.Delegation.{effective_stake, perpetual_new_warmup_cooldown_rate_epoch}
use pinocchio_stake_program.Runtime.{AccountInfo, Store, Runtime}
use pinocchio_stake_program.Lockup.{is_in_force}
use pinocchio_stake_program.Helpers.{get_stake_state}
use pinocchio_stake_program.Instruction.Withdraw.{
  custodian_of, signer_keys, staked_amount, Limits, withdraw_limits, withdraw_state, withdraw_from,
  withdraw_uninitialized, is_uninitialized, process_withdraw,
}

-- The withdrawer's key is among the signers' and no lockup binds.
abbrev pub Unlocked : Meta → Clock → Pubkey → Option Pubkey → Type 0
Unlocked m clock authority custodian =
    (contains (signer_keys authority custodian) m.authorized.withdrawer ≡ true)
    × (is_in_force m.lockup clock custodian ≡ false)

-- What still counts as staked: the whole stake up to its deactivation epoch and in it, and behind it
-- what is effective.
abbrev pub CountsAsStaked : Runtime → Clock → Stake → ℕ → Type 0
CountsAsStaked rt clock k left =
    (((k.delegation.deactivation_epoch ≡ u64_max) ⊎ (clock.epoch ≤ k.delegation.deactivation_epoch))
      × (left ≡ k.delegation.stake))
    ⊎ ((k.delegation.deactivation_epoch ≢ u64_max)
        × (k.delegation.deactivation_epoch < clock.epoch)
        × (effective_stake rt.f64 (get_entry rt clock.epoch)
              perpetual_new_warmup_cooldown_rate_epoch k.delegation clock.epoch
            ≡ ok left))

staked_amount-CountsAsStaked :
    (rt : Runtime) (clock : Clock) (k : Stake) {left : ℕ}
    → staked_amount rt k clock ≡ ok left
    → CountsAsStaked rt clock k left
unfolding staked_amount
staked_amount-CountsAsStaked rt clock k h = ground arith

-- The custodian whose key lifts a lockup is the sixth account, which signed, or nobody.
abbrev pub IsCustodian : List AccountInfo → Option Pubkey → Type 0
IsCustodian [] custodian = custodian ≡ none
IsCustodian (a ∷ rest) custodian = (a.is_signer ≡ true) × (custodian ≡ some a.key)

custodian_of-IsCustodian :
    (rest : List AccountInfo) {custodian : Option Pubkey}
    → custodian_of rest ≡ ok custodian
    → IsCustodian rest custodian
unfolding custodian_of
custodian_of-IsCustodian [] h = ground arith
custodian_of-IsCustodian (a ∷ rest) h = ground arith

-- What the state asks of a withdrawal of `n` out of `balance`: either all of it goes, and nothing
-- is staked, or what is staked and the reserve stay behind.
abbrev pub MayWithdraw :
    Runtime → AccountInfo → Clock → Pubkey → Option Pubkey → ℕ → ℕ → StakeStateV2 → Type 0
MayWithdraw rt source clock authority custodian n balance (staked m k flags) =
    Unlocked m clock authority custodian
    × Gives (staked_amount rt k clock) (λ left.
      CountsAsStaked rt clock k left
      × (((n ≡ balance) × (left ≡ 0)) ⊎ (n + left + m.rent_exempt_reserve ≤ balance)))
MayWithdraw rt source clock authority custodian n balance (initialized m) =
    Unlocked m clock authority custodian × ((n ≡ balance) ⊎ (n + m.rent_exempt_reserve ≤ balance))
MayWithdraw rt source clock authority custodian n balance uninitialized = source.is_signer ≡ true
MayWithdraw rt source clock authority custodian n balance rewards_pool = ⊥

module _ (rt : Runtime) (s : Store) (source : AccountInfo) (n : ℕ) where
  limits-MayWithdraw :
      (clock : Clock) (authority : Pubkey) (custodian : Option Pubkey) (state : StakeStateV2)
      {limits : Limits} {s1 : Store}
      → withdraw_limits rt source (signer_keys authority custodian) clock state ≡ ok limits
      → is_in_force limits.lockup clock custodian ≡ false
      → withdraw_state s source n limits (n == (s source.key).lamports) ≡ ok s1
      → MayWithdraw rt source clock authority custodian n (s source.key).lamports state
  unfolding withdraw_limits withdraw_state check required_key
  limits-MayWithdraw clock authority custodian (staked m k flags) h f w =
      grind (arith, staked_amount-CountsAsStaked)
  limits-MayWithdraw clock authority custodian (initialized m) h f w = ground arith
  limits-MayWithdraw clock authority custodian uninitialized h f w = ground arith
  limits-MayWithdraw clock authority custodian rewards_pool h f w = cc

-- The answers of the runtime and of the accounts that a withdrawal is judged by.
abbrev pub Allowed :
    Runtime → Store → AccountInfo → AccountInfo → AccountInfo → List AccountInfo → ℕ → Type 0
Allowed rt s source clock_info authority rest n =
    (authority.is_signer ≡ true)
    × Gives (rt.clock_from_account_info clock_info (s clock_info.key)) λ clock.
      Gives (custodian_of rest) λ custodian.
        IsCustodian rest custodian
        × Gives (get_stake_state s source) λ state.
          MayWithdraw rt source clock authority.key custodian n (s source.key).lamports state

module _ (rt : Runtime) (s : Store) (source destination clock_info : AccountInfo) where
  module _ (authority : AccountInfo) (rest : List AccountInfo) (n : ℕ) where
    withdraw_from-Allowed :
        Post
          (λ _. Allowed rt s source clock_info authority rest n)
          (withdraw_from rt s source destination clock_info authority rest n)
    unfolding withdraw_from
    withdraw_from-Allowed = grind (arith, limits-MayWithdraw, custodian_of-IsCustodian)

    withdraw-Post :
        (history : AccountInfo)
        → Post
            (λ _.
              ((get_stake_state s source ≡ ok uninitialized) × (source.is_signer ≡ true))
              ⊎ Allowed rt s source clock_info authority rest n)
            (process_withdraw rt s
              (source ∷ destination ∷ clock_info ∷ history ∷ authority ∷ rest)
              n)
    unfolding process_withdraw is_uninitialized withdraw_uninitialized
    withdraw-Post history = grind (arith, withdraw_from-Allowed)

    -- A withdrawal that succeeds either takes from an uninitialized account, which signed itself; or
    -- the authority signed, its key or the custodian's is the withdrawer's, the lockup does not bind
    -- at the clock's time for the custodian, who signed, if there is one, and the withdrawal takes all
    -- the lamports of an account with nothing staked, or leaves what is staked and the rent reserve
    -- behind. Up to its deactivation epoch and in it the whole stake counts as staked, and then what
    -- is effective.
    pub withdraw-Allowed :
        (history : AccountInfo) {s' : Store}
        → process_withdraw rt s (source ∷ destination ∷ clock_info ∷ history ∷ authority ∷ rest) n
          ≡ ok s'
        → ((get_stake_state s source ≡ ok uninitialized) × (source.is_signer ≡ true))
          ⊎ Allowed rt s source clock_info authority rest n
    withdraw-Allowed history h =
        Post-of
          (λ _.
            ((get_stake_state s source ≡ ok uninitialized) × (source.is_signer ≡ true))
            ⊎ Allowed rt s source clock_info authority rest n)
          (process_withdraw rt s (source ∷ destination ∷ clock_info ∷ history ∷ authority ∷ rest) n)
          (withdraw-Post history) h
