-- ===== src/Effects/Lifecycle.antt =====
-- Delegations and deactivations (program/src/instruction/process_delegate.rs, deactivate.rs,
-- deactivate_delinquent.rs): their effects.
use pinocchio_stake_program.Base.{ℕ, List, Bool, ok, Post, arith, ◌≡◌, true, take}
use pinocchio_stake_program.Types.{
  Pubkey, StakeStateV2, uninitialized, initialized, staked, rewards_pool, Clock,
}
use pinocchio_stake_program.Runtime.{AccountInfo, Store, Runtime}
use pinocchio_stake_program.Helpers.{get_stake_state}
use pinocchio_stake_program.Effects.{Effect, listed, listed_first, only-Effect}
use pinocchio_stake_program.Instruction.Delegate.{
  delegate_state, process_delegate, deactivate_state, process_deactivate,
}
use pinocchio_stake_program.Instruction.Delinquent.{
  deactivate_if_eligible, process_deactivate_delinquent,
}

module _ (rt : Runtime) (accounts receivers : List AccountInfo) (s : Store) (ai : AccountInfo)
    (l : listed accounts ai.key ≡ true) where
  delegate_state-Effect :
      (vote : Pubkey) (credits : ℕ) (clock : Clock) (signers : List Pubkey) (state : StakeStateV2)
      → get_stake_state s ai ≡ ok state
      → Post (Effect accounts receivers s) (delegate_state rt s ai vote credits clock signers state)
  unfolding delegate_state
  delegate_state-Effect vote credits clock signers (initialized m) r =
      grind (arith, only-Effect accounts receivers)
  delegate_state-Effect vote credits clock signers (staked m k flags) r =
      grind (arith, only-Effect accounts receivers)
  delegate_state-Effect vote credits clock signers uninitialized r = tt
  delegate_state-Effect vote credits clock signers rewards_pool r = tt

module _ (accounts receivers : List AccountInfo) (s : Store) (ai : AccountInfo)
    (l : listed accounts ai.key ≡ true) where
  deactivate_state-Effect :
      (clock : Clock) (signers : List Pubkey) (state : StakeStateV2)
      → get_stake_state s ai ≡ ok state
      → Post (Effect accounts receivers s) (deactivate_state s ai clock signers state)
  unfolding deactivate_state
  deactivate_state-Effect clock signers (staked m k flags) r =
      grind (arith, only-Effect accounts receivers)
  deactivate_state-Effect clock signers (initialized m) r = tt
  deactivate_state-Effect clock signers uninitialized r = tt
  deactivate_state-Effect clock signers rewards_pool r = tt

  deactivate_if_eligible-Effect :
      (vote : Pubkey) (epoch : ℕ) (is_eligible : Bool) (state : StakeStateV2)
      → get_stake_state s ai ≡ ok state
      → Post
          (Effect accounts receivers s)
          (deactivate_if_eligible s ai vote epoch is_eligible state)
  unfolding deactivate_if_eligible
  deactivate_if_eligible-Effect vote epoch is_eligible (staked m k flags) r =
      grind (arith, only-Effect accounts receivers)
  deactivate_if_eligible-Effect vote epoch is_eligible (initialized m) r = tt
  deactivate_if_eligible-Effect vote epoch is_eligible uninitialized r = tt
  deactivate_if_eligible-Effect vote epoch is_eligible rewards_pool r = tt

module _ (rt : Runtime) (s : Store) where
  pub delegate-Effect :
      (accounts : List AccountInfo)
      → Post (Effect (take 1 accounts) accounts s) (process_delegate rt s accounts)
  unfolding process_delegate
  delegate-Effect accounts = grind (arith, listed_first, delegate_state-Effect)

  pub deactivate-Effect :
      (accounts : List AccountInfo)
      → Post (Effect (take 1 accounts) accounts s) (process_deactivate rt s accounts)
  unfolding process_deactivate
  deactivate-Effect accounts = grind (arith, listed_first, deactivate_state-Effect)

  pub deactivate_delinquent-Effect :
      (accounts : List AccountInfo)
      → Post (Effect (take 1 accounts) accounts s) (process_deactivate_delinquent rt s accounts)
  unfolding process_deactivate_delinquent
  deactivate_delinquent-Effect accounts = grind (arith, listed_first, deactivate_if_eligible-Effect)
