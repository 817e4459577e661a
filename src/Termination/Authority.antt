-- ===== src/Termination/Authority.antt =====
-- The handlers that set an account's metadata end: initialize.rs, initialize_checked.rs, authorize.rs
-- and its variants, and process_set_lockup.rs with its checked variant, of program/src/instruction.
use pinocchio_stake_program.Base.{◌≤◌, length, ℕ, List, [], ◌∷◌, Option, arith, Halts}
use pinocchio_stake_program.Types.{
  Pubkey, StakeStateV2, uninitialized, initialized, staked, rewards_pool, Clock, Authorized, Lockup,
  StakeAuthorize, SetLockupData,
}
use pinocchio_stake_program.Runtime.{AccountInfo, Store, Runtime, Rent}
use pinocchio_stake_program.Instruction.Initialize.{
  initialize_state, do_initialize, initialize, process_initialize_checked,
}
use pinocchio_stake_program.Instruction.Authorize.{
  update_authority, basic_checks, required_old, process_authorize, process_authorize_checked,
  process_authorized_with_seeds, process_authorize_checked_with_seed,
}
use pinocchio_stake_program.Instruction.SetLockup.{
  apply_lockup_update, lockup_state, process_set_lockup, parse_checked, optional_word,
  custodian_update, apply_set_lockup_policy, checked_lockup_state, process_set_lockup_checked,
  LockupCheckedData,
}
use pinocchio_stake_program.Termination.Leaves.{
  IsAnswering, get_stake_state-Halts, set_stake_state-Halts, collect_signers-Halts,
  authorize_update-Halts,
}

module _ (rt : Runtime) (answers : IsAnswering rt) (s : Store) where
  initialize_state-Halts :
      (ai : AccountInfo) (a : Authorized) (l : Lockup) (rent : Rent) (state : StakeStateV2)
      → Halts (initialize_state s ai a l rent state)
  unfolding initialize_state
  initialize_state-Halts ai a l rent uninitialized = grind (arith, set_stake_state-Halts)
  initialize_state-Halts ai a l rent (initialized m) = tt
  initialize_state-Halts ai a l rent (staked m k flags) = tt
  initialize_state-Halts ai a l rent rewards_pool = tt

  do_initialize-Halts :
      (ai : AccountInfo) (a : Authorized) (l : Lockup) (rent : Rent)
      → Halts (do_initialize s ai a l rent)
  unfolding do_initialize
  do_initialize-Halts ai a l rent = grind (arith, get_stake_state-Halts, initialize_state-Halts)

  pub initialize-Halts :
      (accounts : List AccountInfo) (a : Authorized) (l : Lockup)
      → Halts (initialize rt s accounts a l)
  unfolding initialize
  initialize-Halts [] a l = tt
  initialize-Halts (x ∷ []) a l = tt
  initialize-Halts (x ∷ y ∷ rest) a l =
      let known = answers.rent_info in grind (arith, do_initialize-Halts)

  pub initialize_checked-Halts :
      (accounts : List AccountInfo) → Halts (process_initialize_checked rt s accounts)
  unfolding process_initialize_checked
  initialize_checked-Halts [] = tt
  initialize_checked-Halts (x ∷ []) = tt
  initialize_checked-Halts (x ∷ y ∷ []) = tt
  initialize_checked-Halts (x ∷ y ∷ z ∷ []) = tt
  initialize_checked-Halts (x ∷ y ∷ z ∷ w ∷ rest) =
      let known = answers.rent_info in grind (arith, do_initialize-Halts)

  update_authority-Halts :
      (ai : AccountInfo) (new : Pubkey) (role : StakeAuthorize) (signers : List Pubkey)
      (custodian : Option AccountInfo) (clock : Clock) (state : StakeStateV2)
      → Halts (update_authority s ai new role signers custodian clock state)
  unfolding update_authority
  update_authority-Halts ai new role signers custodian clock uninitialized = tt
  update_authority-Halts ai new role signers custodian clock (initialized m) =
      grind (arith, authorize_update-Halts, set_stake_state-Halts)
  update_authority-Halts ai new role signers custodian clock (staked m k flags) =
      grind (arith, authorize_update-Halts, set_stake_state-Halts)
  update_authority-Halts ai new role signers custodian clock rewards_pool = tt

  basic_checks-Halts : (a b : AccountInfo) → Halts (basic_checks rt s a b)
  unfolding basic_checks
  basic_checks-Halts a b = grind arith

  pub authorize-Halts :
      (accounts : List AccountInfo) (new : Pubkey) (role : StakeAuthorize)
      → Halts (process_authorize rt s accounts new role)
  unfolding process_authorize
  authorize-Halts [] new role = tt
  authorize-Halts (x ∷ []) new role = tt
  authorize-Halts (x ∷ y ∷ rest) new role =
      let known = answers.clock_unchecked y (s y.key) in
      grind (
        arith, basic_checks-Halts, collect_signers-Halts, get_stake_state-Halts,
        update_authority-Halts,
      )

  required_old-Halts :
      (role : StakeAuthorize) (state : StakeStateV2) → Halts (required_old role state)
  unfolding required_old
  required_old-Halts role uninitialized = tt
  required_old-Halts role (initialized m) = tt
  required_old-Halts role (staked m k flags) = tt
  required_old-Halts role rewards_pool = tt

  pub authorize_checked-Halts :
      (accounts : List AccountInfo) (role : StakeAuthorize)
      → Halts (process_authorize_checked rt s accounts role)
  unfolding process_authorize_checked
  authorize_checked-Halts [] role = tt
  authorize_checked-Halts (x ∷ []) role = tt
  authorize_checked-Halts (x ∷ y ∷ []) role = tt
  authorize_checked-Halts (x ∷ y ∷ z ∷ []) role = tt
  authorize_checked-Halts (x ∷ y ∷ z ∷ w ∷ rest) role =
      let known = answers.clock_unchecked y (s y.key) in
      grind (
        arith, basic_checks-Halts, collect_signers-Halts, get_stake_state-Halts,
        update_authority-Halts, required_old-Halts,
      )

  pub authorized_with_seeds-Halts :
      (accounts : List AccountInfo) (new : Pubkey) (role : StakeAuthorize)
      → Halts (process_authorized_with_seeds rt s accounts new role)
  unfolding process_authorized_with_seeds
  authorized_with_seeds-Halts [] new role = tt
  authorized_with_seeds-Halts (x ∷ []) new role = tt
  authorized_with_seeds-Halts (x ∷ y ∷ []) new role = tt
  authorized_with_seeds-Halts (x ∷ y ∷ z ∷ rest) new role =
      let known = answers.clock_info z (s z.key) in
      grind (
        arith, basic_checks-Halts, collect_signers-Halts, get_stake_state-Halts,
        update_authority-Halts,
      )

  pub authorize_checked_with_seed-Halts :
      (accounts : List AccountInfo) (role : StakeAuthorize)
      → Halts (process_authorize_checked_with_seed rt s accounts role)
  unfolding process_authorize_checked_with_seed
  authorize_checked_with_seed-Halts [] role = tt
  authorize_checked_with_seed-Halts (x ∷ []) role = tt
  authorize_checked_with_seed-Halts (x ∷ y ∷ []) role = tt
  authorize_checked_with_seed-Halts (x ∷ y ∷ z ∷ []) role = tt
  authorize_checked_with_seed-Halts (x ∷ y ∷ z ∷ w ∷ rest) role =
      let known = answers.clock_info z (s z.key) in
      grind (
        arith, basic_checks-Halts, collect_signers-Halts, get_stake_state-Halts,
        update_authority-Halts,
      )

  lockup_state-Halts :
      (ai : AccountInfo) (args : SetLockupData) (clock : Clock) (signers : List Pubkey)
      (state : StakeStateV2)
      → Halts (lockup_state s ai args clock signers state)
  unfolding lockup_state apply_lockup_update
  lockup_state-Halts ai args clock signers uninitialized = tt
  lockup_state-Halts ai args clock signers (initialized m) = grind (arith, set_stake_state-Halts)
  lockup_state-Halts ai args clock signers (staked m k flags) = grind (arith, set_stake_state-Halts)
  lockup_state-Halts ai args clock signers rewards_pool = tt

  pub set_lockup-Halts :
      (accounts : List AccountInfo) (payload : List ℕ)
      → 72 ≤ length payload
      → Halts (process_set_lockup rt s accounts payload)
  unfolding process_set_lockup
  set_lockup-Halts accounts payload long =
      let known = answers.clock in
      let read = answers.layout payload long in
      grind (arith, collect_signers-Halts, get_stake_state-Halts, lockup_state-Halts)

  checked_lockup_state-Halts :
      (ai : AccountInfo) (args : LockupCheckedData) (custodian : Option Pubkey)
      (signers : List Pubkey) (clock : Clock) (state : StakeStateV2)
      → Halts (checked_lockup_state s ai args custodian signers clock state)
  unfolding checked_lockup_state apply_set_lockup_policy
  checked_lockup_state-Halts ai args custodian signers clock uninitialized = tt
  checked_lockup_state-Halts ai args custodian signers clock (initialized m) =
      grind (arith, set_stake_state-Halts)
  checked_lockup_state-Halts ai args custodian signers clock (staked m k flags) =
      grind (arith, set_stake_state-Halts)
  checked_lockup_state-Halts ai args custodian signers clock rewards_pool = tt

  optional_word-Halts : (flags bit : ℕ) (bytes : List ℕ) → Halts (optional_word flags bit bytes)
  unfolding optional_word
  optional_word-Halts flags bit bytes = ground arith

  parse_checked-Halts : (payload : List ℕ) → Halts (parse_checked payload)
  unfolding parse_checked
  parse_checked-Halts [] = tt
  parse_checked-Halts (flags ∷ payload) = grind (arith, optional_word-Halts)

  custodian_update-Halts : (accounts : List AccountInfo) → Halts (custodian_update accounts)
  unfolding custodian_update
  custodian_update-Halts accounts = grind arith

  pub set_lockup_checked-Halts :
      (accounts : List AccountInfo) (payload : List ℕ)
      → Halts (process_set_lockup_checked rt s accounts payload)
  unfolding process_set_lockup_checked
  set_lockup_checked-Halts [] payload = tt
  set_lockup_checked-Halts (x ∷ rest) payload =
      let known = answers.clock in
      grind (
        arith, collect_signers-Halts, get_stake_state-Halts, parse_checked-Halts,
        custodian_update-Halts, checked_lockup_state-Halts,
      )
