-- ===== src/Consent/Exempt.antt =====
-- What the two instructions keep that change a stake account without a signature of its own
-- authorities: program/src/instruction/process_authorize_checked_with_seed.rs and
-- process_deactivate_delinquent.rs.
use pinocchio_stake_program.Base.{ℕ, Bool, Option, ◌≡◌, List, [], ◌∷◌, Post, arith, at_end, Post-of}
use pinocchio_stake_program.Types.{
  Pubkey, StakeAuthorize, StakeStateV2, uninitialized, initialized, staked, rewards_pool, Clock,
}
use pinocchio_stake_program.Runtime.{AccountInfo, Store, Runtime}
use pinocchio_stake_program.Helpers.{set_stake_state}
use pinocchio_stake_program.Helpers.Moves.{
  SameLamports, SameLamports-refl, set_stake_state-SameLamports,
}
use pinocchio_stake_program.Instruction.Authorize.{
  update_authority, process_authorize_checked_with_seed,
}
use pinocchio_stake_program.Instruction.Delinquent.{
  deactivate_if_eligible, process_deactivate_delinquent,
}
use pinocchio_stake_program.Entrypoint.{
  StakeInstruction, initialize, authorize, delegate_stake, split, withdraw, deactivate, set_lockup,
  merge, authorize_with_seed, initialize_checked, authorize_checked, authorize_checked_with_seed,
  set_lockup_checked, get_minimum_delegation, deactivate_delinquent, redelegate, move_stake,
  move_lamports, dispatch, gate, run_checked_with_seed_payload,
}

-- An account keeps its lamports in the two instructions.
abbrev pub Exempt : StakeInstruction → Store → Store → Pubkey → Type 0
Exempt authorize_checked_with_seed s s' j = (s' j).lamports ≡ (s j).lamports
Exempt deactivate_delinquent s s' j = (s' j).lamports ≡ (s j).lamports
Exempt initialize s s' j = Unit
Exempt authorize s s' j = Unit
Exempt delegate_stake s s' j = Unit
Exempt split s s' j = Unit
Exempt withdraw s s' j = Unit
Exempt deactivate s s' j = Unit
Exempt set_lockup s s' j = Unit
Exempt merge s s' j = Unit
Exempt authorize_with_seed s s' j = Unit
Exempt initialize_checked s s' j = Unit
Exempt authorize_checked s s' j = Unit
Exempt set_lockup_checked s s' j = Unit
Exempt get_minimum_delegation s s' j = Unit
Exempt redelegate s s' j = Unit
Exempt move_stake s s' j = Unit
Exempt move_lamports s s' j = Unit

module _ (s : Store) (ai : AccountInfo) where
  stored_same : (state : StakeStateV2) → Post (SameLamports s) (set_stake_state s ai state)
  stored_same state = set_stake_state-SameLamports s s (SameLamports-refl s) ai state

  update_authority-same :
      (k : Pubkey) (role : StakeAuthorize) (signers : List Pubkey) (custodian : Option AccountInfo)
      (clock : Clock) (state : StakeStateV2)
      → Post (SameLamports s) (update_authority s ai k role signers custodian clock state)
  unfolding update_authority
  update_authority-same k role signers custodian clock uninitialized = tt
  update_authority-same k role signers custodian clock (initialized m) = grind (arith, stored_same)
  update_authority-same k role signers custodian clock (staked m d flags) =
      grind (arith, stored_same)
  update_authority-same k role signers custodian clock rewards_pool = tt

  deactivate_if_eligible-same :
      (vote : Pubkey) (epoch : ℕ) (is_eligible : Bool) (state : StakeStateV2)
      → Post (SameLamports s) (deactivate_if_eligible s ai vote epoch is_eligible state)
  unfolding deactivate_if_eligible
  deactivate_if_eligible-same vote epoch is_eligible uninitialized = tt
  deactivate_if_eligible-same vote epoch is_eligible (initialized m) = tt
  deactivate_if_eligible-same vote epoch is_eligible (staked m k flags) = grind (arith, stored_same)
  deactivate_if_eligible-same vote epoch is_eligible rewards_pool = tt

module _ (rt : Runtime) (s : Store) where
  checked_with_seed-same :
      (accounts : List AccountInfo) (role : StakeAuthorize)
      → Post (SameLamports s) (process_authorize_checked_with_seed rt s accounts role)
  unfolding process_authorize_checked_with_seed
  checked_with_seed-same (a ∷ b ∷ c ∷ d ∷ rest) role = grind (arith, update_authority-same)
  checked_with_seed-same (a ∷ b ∷ c ∷ []) role = tt
  checked_with_seed-same (a ∷ b ∷ []) role = tt
  checked_with_seed-same (a ∷ []) role = tt
  checked_with_seed-same [] role = tt

  checked_payload-same :
      (accounts : List AccountInfo) (payload : List ℕ)
      → Post (SameLamports s) (run_checked_with_seed_payload rt s accounts payload)
  unfolding run_checked_with_seed_payload
  checked_payload-same accounts payload = grind (arith, checked_with_seed-same)

  delinquent-same :
      (accounts : List AccountInfo)
      → Post (SameLamports s) (process_deactivate_delinquent rt s accounts)
  unfolding process_deactivate_delinquent
  delinquent-same accounts = grind (arith, deactivate_if_eligible-same)

  pub dispatch-Exempt :
      (accounts : List AccountInfo) (payload : List ℕ) (j : Pubkey) (ix : StakeInstruction)
      → Post (λ s'. Exempt ix s s' j) (dispatch rt s accounts payload ix)
  unfolding dispatch gate
  dispatch-Exempt accounts payload j authorize_checked_with_seed =
      at_end (λ s'. (s' j).lamports ≡ (s j).lamports)
        (run_checked_with_seed_payload rt s accounts payload)
        λ s' e.
          (Post-of (SameLamports s) _ (checked_payload-same accounts payload) e).lamports_same j
  dispatch-Exempt accounts payload j deactivate_delinquent =
      at_end (λ s'. (s' j).lamports ≡ (s j).lamports) (process_deactivate_delinquent rt s accounts)
        λ s' e. (Post-of (SameLamports s) _ (delinquent-same accounts) e).lamports_same j
  dispatch-Exempt accounts payload j initialize = at_end (λ s'. Unit) _ λ s' e. tt
  dispatch-Exempt accounts payload j authorize = at_end (λ s'. Unit) _ λ s' e. tt
  dispatch-Exempt accounts payload j delegate_stake = at_end (λ s'. Unit) _ λ s' e. tt
  dispatch-Exempt accounts payload j split = at_end (λ s'. Unit) _ λ s' e. tt
  dispatch-Exempt accounts payload j withdraw = at_end (λ s'. Unit) _ λ s' e. tt
  dispatch-Exempt accounts payload j deactivate = at_end (λ s'. Unit) _ λ s' e. tt
  dispatch-Exempt accounts payload j set_lockup = at_end (λ s'. Unit) _ λ s' e. tt
  dispatch-Exempt accounts payload j merge = at_end (λ s'. Unit) _ λ s' e. tt
  dispatch-Exempt accounts payload j authorize_with_seed = at_end (λ s'. Unit) _ λ s' e. tt
  dispatch-Exempt accounts payload j initialize_checked = at_end (λ s'. Unit) _ λ s' e. tt
  dispatch-Exempt accounts payload j authorize_checked = at_end (λ s'. Unit) _ λ s' e. tt
  dispatch-Exempt accounts payload j set_lockup_checked = at_end (λ s'. Unit) _ λ s' e. tt
  dispatch-Exempt accounts payload j get_minimum_delegation = tt
  dispatch-Exempt accounts payload j redelegate = tt
  dispatch-Exempt accounts payload j move_stake = at_end (λ s'. Unit) _ λ s' e. tt
  dispatch-Exempt accounts payload j move_lamports = at_end (λ s'. Unit) _ λ s' e. tt
