-- ===== src/Effects/Dispatch.antt =====
-- The whole program (program/src/entrypoint.rs) held against the specification of its effects.
use pinocchio_stake_program.Base.{
  ℕ, List, [], ◌∷◌, Post, Post-of, ok, ◌≡◌, arith, Gives, Gives-then, Gives-elim, true, take, zero,
  suc,
}
use pinocchio_stake_program.Types.{Pubkey}
use pinocchio_stake_program.Runtime.{AccountInfo, Store, Runtime}
use pinocchio_stake_program.Effects.{Effect, unwritten-Effect, listed, Effect-widen}
use pinocchio_stake_program.Effects.Authority.{
  initialize-Effect, initialize_checked-Effect, authorize-Effect, authorize_checked-Effect,
  authorized_with_seeds-Effect, authorize_checked_with_seed-Effect, set_lockup-Effect,
  set_lockup_checked-Effect,
}
use pinocchio_stake_program.Effects.Lifecycle.{
  delegate-Effect, deactivate-Effect, deactivate_delinquent-Effect,
}
use pinocchio_stake_program.Effects.Transfers.{
  split-Effect, withdraw-Effect, merge-Effect, process_move_stake-Effect,
  process_move_lamports-Effect,
}
use pinocchio_stake_program.Entrypoint.{
  StakeInstruction, initialize, authorize, delegate_stake, split, withdraw, deactivate, set_lockup,
  merge, authorize_with_seed, initialize_checked, authorize_checked, authorize_checked_with_seed,
  set_lockup_checked, get_minimum_delegation, deactivate_delinquent, redelegate, move_stake,
  move_lamports, run_initialize_payload, run_authorize_payload, run_with_seed_payload,
  run_checked_payload, run_checked_with_seed_payload, dispatch, process_instruction, gate, try_from,
}
use pinocchio_stake_program.Entrypoint.Routes.{number, process_instruction-Routed}

-- How many of its first accounts an instruction may write or take lamports from: the two that a
-- split, a merge or a move of stake joins, the one of the other handlers, and none where nothing is
-- changed.
abbrev pub acting : StakeInstruction → ℕ
acting initialize = 1
acting authorize = 1
acting delegate_stake = 1
acting split = 2
acting withdraw = 1
acting deactivate = 1
acting set_lockup = 1
acting merge = 2
acting authorize_with_seed = 1
acting initialize_checked = 1
acting authorize_checked = 1
acting authorize_checked_with_seed = 1
acting set_lockup_checked = 1
acting get_minimum_delegation = 0
acting deactivate_delinquent = 1
acting redelegate = 0
acting move_stake = 2
acting move_lamports = 1

-- Those accounts.
abbrev pub actors : StakeInstruction → List AccountInfo → List AccountInfo
actors ix accounts = take (acting ix) accounts

listed-take :
    (n : ℕ) (accounts : List AccountInfo) (k : Pubkey)
    → listed (take n accounts) k ≡ true
    → listed accounts k ≡ true
unfolding listed
listed-take zero accounts k h = cc
listed-take (suc n) [] k h = h
listed-take (suc n) (a ∷ accounts) k h = ground (arith, listed-take n accounts k)

-- They are accounts of the instruction.
pub listed-actors :
    (ix : StakeInstruction) (accounts : List AccountInfo) (k : Pubkey)
    → listed (actors ix accounts) k ≡ true
    → listed accounts k ≡ true
listed-actors ix accounts k h = listed-take (acting ix) accounts k h

module _ (rt : Runtime) (s : Store) (accounts : List AccountInfo) (payload : List ℕ) where
  run_initialize_payload-Effect :
      Post (Effect (take 1 accounts) accounts s) (run_initialize_payload rt s accounts payload)
  unfolding run_initialize_payload
  run_initialize_payload-Effect = grind (arith, initialize-Effect)

  run_authorize_payload-Effect :
      Post (Effect (take 1 accounts) accounts s) (run_authorize_payload rt s accounts payload)
  unfolding run_authorize_payload
  run_authorize_payload-Effect = grind (arith, authorize-Effect)

  run_with_seed_payload-Effect :
      Post (Effect (take 1 accounts) accounts s) (run_with_seed_payload rt s accounts payload)
  unfolding run_with_seed_payload
  run_with_seed_payload-Effect = grind (arith, authorized_with_seeds-Effect)

  run_checked_payload-Effect :
      Post (Effect (take 1 accounts) accounts s) (run_checked_payload rt s accounts payload)
  unfolding run_checked_payload
  run_checked_payload-Effect = grind (arith, authorize_checked-Effect)

  run_checked_with_seed_payload-Effect :
      Post
        (Effect (take 1 accounts) accounts s)
        (run_checked_with_seed_payload rt s accounts payload)
  unfolding run_checked_with_seed_payload
  run_checked_with_seed_payload-Effect = grind (arith, authorize_checked_with_seed-Effect)

  dispatch-Effect :
      (ix : StakeInstruction)
      → Post (Effect (actors ix accounts) accounts s) (dispatch rt s accounts payload ix)
  unfolding dispatch gate
  dispatch-Effect initialize = run_initialize_payload-Effect
  dispatch-Effect authorize = run_authorize_payload-Effect
  dispatch-Effect delegate_stake = delegate-Effect rt s accounts
  dispatch-Effect split = grind (arith, split-Effect)
  dispatch-Effect withdraw = grind (arith, withdraw-Effect)
  dispatch-Effect deactivate = deactivate-Effect rt s accounts
  dispatch-Effect set_lockup = set_lockup-Effect rt s accounts payload
  dispatch-Effect merge = merge-Effect rt s accounts
  dispatch-Effect authorize_with_seed = run_with_seed_payload-Effect
  dispatch-Effect initialize_checked = initialize_checked-Effect rt s accounts
  dispatch-Effect authorize_checked = run_checked_payload-Effect
  dispatch-Effect authorize_checked_with_seed = run_checked_with_seed_payload-Effect
  dispatch-Effect set_lockup_checked = set_lockup_checked-Effect rt s accounts payload
  dispatch-Effect get_minimum_delegation = unwritten-Effect [] accounts s
  dispatch-Effect deactivate_delinquent = deactivate_delinquent-Effect rt s accounts
  dispatch-Effect redelegate = tt
  dispatch-Effect move_stake = grind (arith, process_move_stake-Effect)
  dispatch-Effect move_lamports = grind (arith, process_move_lamports-Effect)

module _ (rt : Runtime) (s : Store) (program_id : Pubkey) (accounts : List AccountInfo) where
  -- The program implements the specification of its effects: an instruction that succeeds, whatever
  -- its payload and accounts, writes only states that the lifecycle lets follow the account's, into
  -- stake accounts of the program that are among the actors of the instruction, its first account or
  -- its first two, and then makes one payment at most, from a stake account among the actors to an
  -- account that it lists.
  pub process_instruction-Acts :
      (disc : ℕ) (payload : List ℕ) {s' : Store}
      → process_instruction rt s program_id accounts (disc ∷ payload) ≡ ok s'
      → Gives (try_from disc) (λ ix. Effect (actors ix accounts) accounts s s')
  process_instruction-Acts disc payload {s'} h =
      let (own, routed) = process_instruction-Routed rt s program_id accounts disc payload h in
      Gives-then (try_from disc)
        (λ ix. (number ix ≡ disc) × (dispatch rt s accounts payload ix ≡ ok s'))
        (λ ix. Effect (actors ix accounts) accounts s s') routed
        λ ix e run.
          Post-of (Effect (actors ix accounts) accounts s) (dispatch rt s accounts payload ix)
            (dispatch-Effect rt s accounts payload ix) run.1

  -- In particular the effect is one on the accounts that the instruction lists.
  pub process_instruction-Effect :
      (input : List ℕ) {s' : Store}
      → process_instruction rt s program_id accounts input ≡ ok s'
      → Effect accounts accounts s s'
  unfolding process_instruction
  process_instruction-Effect [] h = absurd (grind arith)
  process_instruction-Effect (disc ∷ payload) {s'} h =
      Gives-elim (try_from disc) (λ ix. Effect (actors ix accounts) accounts s s')
        (process_instruction-Acts disc payload h)
        λ ix acts.
          Effect-widen (actors ix accounts) accounts accounts s (listed-actors ix accounts) acts
