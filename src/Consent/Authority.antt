-- ===== src/Consent/Authority.antt =====
-- Who signs the changes of authorities, lockups and delegations (program/src/instruction/).
use pinocchio_stake_program.Base.{ℕ, ◌≡◌, List, [], ◌∷◌, Option, ok, Post, arith, at_end}
use pinocchio_stake_program.Base.Int.{ℤ}
use pinocchio_stake_program.Types.{
  Pubkey, Meta, StakeAuthorize, staker_role, withdrawer_role, StakeStateV2, uninitialized,
  initialized, staked, rewards_pool, Clock, SetLockupData, check, required_key, Authorized, Lockup,
}
use pinocchio_stake_program.Lockup.{authorize_update}
use pinocchio_stake_program.Runtime.{AccountInfo, Store, Runtime, Rent}
use pinocchio_stake_program.Helpers.{get_stake_state, collect_signers}
use pinocchio_stake_program.Instruction.Initialize.{
  initialize, do_initialize, initialize_state, process_initialize_checked,
}
use pinocchio_stake_program.Instruction.Authorize.{
  update_authority, process_authorize, process_authorize_checked, process_authorized_with_seeds,
}
use pinocchio_stake_program.Instruction.SetLockup.{
  LockupCheckedData, lockup_state, checked_lockup_state, process_set_lockup,
  process_set_lockup_checked, apply_lockup_update, apply_set_lockup_policy,
}
use pinocchio_stake_program.Instruction.Delegate.{
  delegate_state, process_delegate, deactivate_state, process_deactivate,
}
use pinocchio_stake_program.Consent.{
  StakerSigned, AuthoritySigned, LockupSigned, OfMeta, collected-Signed,
}

module _ (accounts : List AccountInfo) (signers : List Pubkey)
    (c : collect_signers accounts ≡ ok signers) where
  authorize_update-AuthoritySigned :
      (m : Meta) (k : Pubkey) (role : StakeAuthorize) (custodian : Option AccountInfo)
      (clock : Clock) {m' : Meta}
      → authorize_update m k role signers custodian clock ≡ ok m'
      → AuthoritySigned accounts m
  unfolding authorize_update
  authorize_update-AuthoritySigned m k staker_role custodian clock h =
      grind (arith, collected-Signed)
  authorize_update-AuthoritySigned m k withdrawer_role custodian clock h =
      grind (arith, collected-Signed)

  apply_lockup_update-LockupSigned :
      (m : Meta) (args : SetLockupData) (clock : Clock) {m' : Meta}
      → apply_lockup_update m args clock signers ≡ ok m'
      → LockupSigned accounts m
  unfolding apply_lockup_update
  apply_lockup_update-LockupSigned m args clock h = grind (arith, collected-Signed)

  apply_set_lockup_policy-LockupSigned :
      (m : Meta) (unix_ts : Option ℤ) (epoch : Option ℕ) (custodian : Option Pubkey) (clock : Clock)
      {m' : Meta}
      → apply_set_lockup_policy m unix_ts epoch custodian signers clock ≡ ok m'
      → LockupSigned accounts m
  unfolding apply_set_lockup_policy
  apply_set_lockup_policy-LockupSigned m unix_ts epoch custodian clock h =
      grind (arith, collected-Signed)

  pub check-StakerSigned :
      (m : Meta) → check m.authorized signers staker_role ≡ ok tt → StakerSigned accounts m
  unfolding check required_key
  check-StakerSigned m h = grind (arith, collected-Signed)

  module _ (s : Store) (ai : AccountInfo) where
    update_authority-Signed :
        (k : Pubkey) (role : StakeAuthorize) (custodian : Option AccountInfo) (clock : Clock)
        (state : StakeStateV2)
        → Post
            (λ s'. OfMeta (λ m. AuthoritySigned accounts m) state)
            (update_authority s ai k role signers custodian clock state)
    unfolding update_authority
    update_authority-Signed k role custodian clock (initialized m) =
        grind (arith, authorize_update-AuthoritySigned)
    update_authority-Signed k role custodian clock (staked m stake flags) =
        grind (arith, authorize_update-AuthoritySigned)
    update_authority-Signed k role custodian clock uninitialized = tt
    update_authority-Signed k role custodian clock rewards_pool = tt

    lockup_state-Signed :
        (args : SetLockupData) (clock : Clock) (state : StakeStateV2)
        → Post
            (λ s'. OfMeta (λ m. LockupSigned accounts m) state)
            (lockup_state s ai args clock signers state)
    unfolding lockup_state
    lockup_state-Signed args clock (initialized m) = grind (arith, apply_lockup_update-LockupSigned)
    lockup_state-Signed args clock (staked m k flags) =
        grind (arith, apply_lockup_update-LockupSigned)
    lockup_state-Signed args clock uninitialized = tt
    lockup_state-Signed args clock rewards_pool = tt

    checked_lockup_state-Signed :
        (checked : LockupCheckedData) (custodian : Option Pubkey) (clock : Clock)
        (state : StakeStateV2)
        → Post
            (λ s'. OfMeta (λ m. LockupSigned accounts m) state)
            (checked_lockup_state s ai checked custodian signers clock state)
    unfolding checked_lockup_state
    checked_lockup_state-Signed checked custodian clock (initialized m) =
        grind (arith, apply_set_lockup_policy-LockupSigned)
    checked_lockup_state-Signed checked custodian clock (staked m k flags) =
        grind (arith, apply_set_lockup_policy-LockupSigned)
    checked_lockup_state-Signed checked custodian clock uninitialized = tt
    checked_lockup_state-Signed checked custodian clock rewards_pool = tt

    delegate_state-Signed :
        (rt : Runtime) (vote : Pubkey) (credits : ℕ) (clock : Clock) (state : StakeStateV2)
        → Post
            (λ s'. OfMeta (λ m. StakerSigned accounts m) state)
            (delegate_state rt s ai vote credits clock signers state)
    unfolding delegate_state
    delegate_state-Signed rt vote credits clock (initialized m) = grind (arith, check-StakerSigned)
    delegate_state-Signed rt vote credits clock (staked m k flags) =
        grind (arith, check-StakerSigned)
    delegate_state-Signed rt vote credits clock uninitialized = tt
    delegate_state-Signed rt vote credits clock rewards_pool = tt

    deactivate_state-Signed :
        (clock : Clock) (state : StakeStateV2)
        → Post
            (λ s'. OfMeta (λ m. StakerSigned accounts m) state)
            (deactivate_state s ai clock signers state)
    unfolding deactivate_state
    deactivate_state-Signed clock (staked m k flags) = grind (arith, check-StakerSigned)
    deactivate_state-Signed clock (initialized m) = tt
    deactivate_state-Signed clock uninitialized = tt
    deactivate_state-Signed clock rewards_pool = tt

module _ (rt : Runtime) (s : Store) (ai : AccountInfo) (state : StakeStateV2)
    (r : get_stake_state s ai ≡ ok state) where
  pub authorize-Signed :
      (rest : List AccountInfo) (k : Pubkey) (role : StakeAuthorize)
      → Post
          (λ s'. OfMeta (λ m. AuthoritySigned (ai ∷ rest) m) state)
          (process_authorize rt s (ai ∷ rest) k role)
  unfolding process_authorize
  authorize-Signed [] k role = tt
  authorize-Signed (clock_info ∷ rest) k role = grind (arith, update_authority-Signed)

  pub authorize_checked-Signed :
      (rest : List AccountInfo) (role : StakeAuthorize)
      → Post
          (λ s'. OfMeta (λ m. AuthoritySigned (ai ∷ rest) m) state)
          (process_authorize_checked rt s (ai ∷ rest) role)
  unfolding process_authorize_checked
  authorize_checked-Signed (clock_info ∷ old ∷ fresh ∷ rest) role =
      grind (arith, update_authority-Signed)
  authorize_checked-Signed (clock_info ∷ old ∷ []) role = tt
  authorize_checked-Signed (clock_info ∷ []) role = tt
  authorize_checked-Signed [] role = tt

  pub authorized_with_seeds-Signed :
      (rest : List AccountInfo) (k : Pubkey) (role : StakeAuthorize)
      → Post
          (λ s'. OfMeta (λ m. AuthoritySigned (ai ∷ rest) m) state)
          (process_authorized_with_seeds rt s (ai ∷ rest) k role)
  unfolding process_authorized_with_seeds
  authorized_with_seeds-Signed (base ∷ clock_info ∷ rest) k role =
      grind (arith, update_authority-Signed)
  authorized_with_seeds-Signed (base ∷ []) k role = tt
  authorized_with_seeds-Signed [] k role = tt

  module _ (rest : List AccountInfo) where
    pub set_lockup-Signed :
        (payload : List ℕ)
        → Post
            (λ s'. OfMeta (λ m. LockupSigned (ai ∷ rest) m) state)
            (process_set_lockup rt s (ai ∷ rest) payload)
    unfolding process_set_lockup
    set_lockup-Signed payload = grind (arith, lockup_state-Signed)

    pub set_lockup_checked-Signed :
        (payload : List ℕ)
        → Post
            (λ s'. OfMeta (λ m. LockupSigned (ai ∷ rest) m) state)
            (process_set_lockup_checked rt s (ai ∷ rest) payload)
    unfolding process_set_lockup_checked
    set_lockup_checked-Signed payload = grind (arith, checked_lockup_state-Signed)

    pub delegate-Signed :
        Post
          (λ s'. OfMeta (λ m. StakerSigned (ai ∷ rest) m) state)
          (process_delegate rt s (ai ∷ rest))
    unfolding process_delegate
    delegate-Signed = grind (arith, delegate_state-Signed)

    pub deactivate-Signed :
        Post
          (λ s'. OfMeta (λ m. StakerSigned (ai ∷ rest) m) state)
          (process_deactivate rt s (ai ∷ rest))
    unfolding process_deactivate
    deactivate-Signed = grind (arith, deactivate_state-Signed)

  initialize_state-Signed :
      (a : Authorized) (lockup : Lockup) (rent : Rent) (state' : StakeStateV2)
      → state' ≡ state
      → Post (λ s'. OfMeta (λ m. ⊥) state) (initialize_state s ai a lockup rent state')
  unfolding initialize_state
  initialize_state-Signed a lockup rent uninitialized e =
      rw (← e) (at_end (λ s'. OfMeta (λ m. ⊥) uninitialized) _ λ s' h. tt)
  initialize_state-Signed a lockup rent _ e = tt

  -- Nobody initializes an account that has metadata.
  pub initialize-Signed :
      (rest : List AccountInfo) (a : Authorized) (lockup : Lockup)
      → Post (λ s'. OfMeta (λ m. ⊥) state) (initialize rt s (ai ∷ rest) a lockup)
  unfolding initialize do_initialize
  initialize-Signed [] a lockup = tt
  initialize-Signed (rent_info ∷ rest) a lockup = grind (arith, initialize_state-Signed)

  pub initialize_checked-Signed :
      (rest : List AccountInfo)
      → Post (λ s'. OfMeta (λ m. ⊥) state) (process_initialize_checked rt s (ai ∷ rest))
  unfolding process_initialize_checked do_initialize
  initialize_checked-Signed (rent_info ∷ staker ∷ withdrawer ∷ rest) =
      grind (arith, initialize_state-Signed)
  initialize_checked-Signed _ = tt
