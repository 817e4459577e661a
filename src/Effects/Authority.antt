-- ===== src/Effects/Authority.antt =====
-- The handlers that change authorities and lockups (program/src/instruction/initialize.rs,
-- authorize.rs, process_set_lockup.rs and their variants): their effects.
use pinocchio_stake_program.Base.{ℕ, List, [], ◌∷◌, Option, ok, Post, arith, ◌≡◌, true, take}
use pinocchio_stake_program.Base.Int.{ℤ}
use pinocchio_stake_program.Types.{
  Pubkey, Authorized, Lockup, Meta, StakeAuthorize, staker_role, withdrawer_role, StakeStateV2,
  uninitialized, initialized, staked, rewards_pool, Clock, SetLockupData,
}
use pinocchio_stake_program.Lockup.{authorize_update}
use pinocchio_stake_program.Runtime.{AccountInfo, Store, Rent, Runtime}
use pinocchio_stake_program.Helpers.{get_stake_state}
use pinocchio_stake_program.Effects.{Effect, SameReserve, listed, listed_first, only-Effect}
use pinocchio_stake_program.Instruction.Initialize.{
  initialize, do_initialize, initialize_state, process_initialize_checked,
}
use pinocchio_stake_program.Instruction.Authorize.{
  update_authority, process_authorize, process_authorize_checked, process_authorized_with_seeds,
  process_authorize_checked_with_seed,
}
use pinocchio_stake_program.Instruction.SetLockup.{
  LockupCheckedData, lockup_state, checked_lockup_state, process_set_lockup,
  process_set_lockup_checked, apply_lockup_update, apply_set_lockup_policy,
}

-- No policy touches the rent reserve.
authorize_update-SameReserve :
    (m : Meta) (k : Pubkey) (role : StakeAuthorize) (signers : List Pubkey)
    (custodian : Option AccountInfo) (clock : Clock) {m' : Meta}
    → authorize_update m k role signers custodian clock ≡ ok m'
    → SameReserve m m'
unfolding authorize_update
authorize_update-SameReserve m k staker_role signers custodian clock h = grind arith
authorize_update-SameReserve m k withdrawer_role signers custodian clock h = grind arith

apply_lockup_update-SameReserve :
    (m : Meta) (args : SetLockupData) (clock : Clock) (signers : List Pubkey) {m' : Meta}
    → apply_lockup_update m args clock signers ≡ ok m'
    → SameReserve m m'
unfolding apply_lockup_update
apply_lockup_update-SameReserve m args clock signers h = grind arith

apply_set_lockup_policy-SameReserve :
    (m : Meta) (unix_ts : Option ℤ) (epoch : Option ℕ) (custodian : Option Pubkey)
    (signers : List Pubkey) (clock : Clock) {m' : Meta}
    → apply_set_lockup_policy m unix_ts epoch custodian signers clock ≡ ok m'
    → SameReserve m m'
unfolding apply_set_lockup_policy
apply_set_lockup_policy-SameReserve m unix_ts epoch custodian signers clock h = grind arith

module _ (accounts receivers : List AccountInfo) (s : Store) (ai : AccountInfo)
    (l : listed accounts ai.key ≡ true) where
  initialize_state-Effect :
      (a : Authorized) (lockup : Lockup) (rent : Rent) (state : StakeStateV2)
      → get_stake_state s ai ≡ ok state
      → Post (Effect accounts receivers s) (initialize_state s ai a lockup rent state)
  unfolding initialize_state
  initialize_state-Effect a lockup rent uninitialized r =
      grind (arith, only-Effect accounts receivers)
  initialize_state-Effect a lockup rent _ r = tt

  update_authority-Effect :
      (k : Pubkey) (role : StakeAuthorize) (signers : List Pubkey) (custodian : Option AccountInfo)
      (clock : Clock) (state : StakeStateV2)
      → get_stake_state s ai ≡ ok state
      → Post
          (Effect accounts receivers s)
          (update_authority s ai k role signers custodian clock state)
  unfolding update_authority
  update_authority-Effect k role signers custodian clock (initialized m) r =
      grind (arith, only-Effect accounts receivers, authorize_update-SameReserve)
  update_authority-Effect k role signers custodian clock (staked m stake flags) r =
      grind (arith, only-Effect accounts receivers, authorize_update-SameReserve)
  update_authority-Effect k role signers custodian clock uninitialized r = tt
  update_authority-Effect k role signers custodian clock rewards_pool r = tt

  lockup_state-Effect :
      (args : SetLockupData) (clock : Clock) (signers : List Pubkey) (state : StakeStateV2)
      → get_stake_state s ai ≡ ok state
      → Post (Effect accounts receivers s) (lockup_state s ai args clock signers state)
  unfolding lockup_state
  lockup_state-Effect args clock signers (initialized m) r =
      grind (arith, only-Effect accounts receivers, apply_lockup_update-SameReserve)
  lockup_state-Effect args clock signers (staked m stake flags) r =
      grind (arith, only-Effect accounts receivers, apply_lockup_update-SameReserve)
  lockup_state-Effect args clock signers uninitialized r = tt
  lockup_state-Effect args clock signers rewards_pool r = tt

  checked_lockup_state-Effect :
      (checked : LockupCheckedData) (custodian : Option Pubkey) (signers : List Pubkey)
      (clock : Clock) (state : StakeStateV2)
      → get_stake_state s ai ≡ ok state
      → Post
          (Effect accounts receivers s)
          (checked_lockup_state s ai checked custodian signers clock state)
  unfolding checked_lockup_state
  checked_lockup_state-Effect checked custodian signers clock (initialized m) r =
      grind (arith, only-Effect accounts receivers, apply_set_lockup_policy-SameReserve)
  checked_lockup_state-Effect checked custodian signers clock (staked m stake flags) r =
      grind (arith, only-Effect accounts receivers, apply_set_lockup_policy-SameReserve)
  checked_lockup_state-Effect checked custodian signers clock uninitialized r = tt
  checked_lockup_state-Effect checked custodian signers clock rewards_pool r = tt

  do_initialize-Effect :
      (a : Authorized) (lockup : Lockup) (rent : Rent)
      → Post (Effect accounts receivers s) (do_initialize s ai a lockup rent)
  unfolding do_initialize
  do_initialize-Effect a lockup rent = grind (arith, initialize_state-Effect)

module _ (rt : Runtime) (s : Store) where
  pub initialize-Effect :
      (accounts : List AccountInfo) (a : Authorized) (l : Lockup)
      → Post (Effect (take 1 accounts) accounts s) (initialize rt s accounts a l)
  unfolding initialize
  initialize-Effect (ai ∷ rent_info ∷ rest) a l = grind (arith, listed_first, do_initialize-Effect)
  initialize-Effect _ a l = tt

  pub initialize_checked-Effect :
      (accounts : List AccountInfo)
      → Post (Effect (take 1 accounts) accounts s) (process_initialize_checked rt s accounts)
  unfolding process_initialize_checked
  initialize_checked-Effect (ai ∷ rent_info ∷ staker ∷ withdrawer ∷ rest) =
      grind (arith, listed_first, do_initialize-Effect)
  initialize_checked-Effect _ = tt

  pub authorize-Effect :
      (accounts : List AccountInfo) (k : Pubkey) (role : StakeAuthorize)
      → Post (Effect (take 1 accounts) accounts s) (process_authorize rt s accounts k role)
  unfolding process_authorize
  authorize-Effect (ai ∷ clock_info ∷ rest) k role =
      grind (arith, listed_first, update_authority-Effect)
  authorize-Effect _ k role = tt

  pub authorize_checked-Effect :
      (accounts : List AccountInfo) (role : StakeAuthorize)
      → Post (Effect (take 1 accounts) accounts s) (process_authorize_checked rt s accounts role)
  unfolding process_authorize_checked
  authorize_checked-Effect (ai ∷ clock_info ∷ old ∷ fresh ∷ rest) role =
      grind (arith, listed_first, update_authority-Effect)
  authorize_checked-Effect _ role = tt

  pub authorized_with_seeds-Effect :
      (accounts : List AccountInfo) (k : Pubkey) (role : StakeAuthorize)
      → Post
          (Effect (take 1 accounts) accounts s)
          (process_authorized_with_seeds rt s accounts k role)
  unfolding process_authorized_with_seeds
  authorized_with_seeds-Effect (ai ∷ base ∷ clock_info ∷ rest) k role =
      grind (arith, listed_first, update_authority-Effect)
  authorized_with_seeds-Effect _ k role = tt

  pub authorize_checked_with_seed-Effect :
      (accounts : List AccountInfo) (role : StakeAuthorize)
      → Post
          (Effect (take 1 accounts) accounts s)
          (process_authorize_checked_with_seed rt s accounts role)
  unfolding process_authorize_checked_with_seed
  authorize_checked_with_seed-Effect (ai ∷ base ∷ clock_info ∷ fresh ∷ rest) role =
      grind (arith, listed_first, update_authority-Effect)
  authorize_checked_with_seed-Effect _ role = tt

  pub set_lockup-Effect :
      (accounts : List AccountInfo) (payload : List ℕ)
      → Post (Effect (take 1 accounts) accounts s) (process_set_lockup rt s accounts payload)
  unfolding process_set_lockup
  set_lockup-Effect [] payload = tt
  set_lockup-Effect (ai ∷ rest) payload = grind (arith, listed_first, lockup_state-Effect)

  pub set_lockup_checked-Effect :
      (accounts : List AccountInfo) (payload : List ℕ)
      → Post
          (Effect (take 1 accounts) accounts s)
          (process_set_lockup_checked rt s accounts payload)
  unfolding process_set_lockup_checked
  set_lockup_checked-Effect [] payload = tt
  set_lockup_checked-Effect (ai ∷ rest) payload =
      grind (arith, listed_first, checked_lockup_state-Effect)
