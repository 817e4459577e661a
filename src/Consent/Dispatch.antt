-- ===== src/Consent/Dispatch.antt =====
-- Who signs, for the whole program (program/src/entrypoint.rs).
use pinocchio_stake_program.Base.{
  ℕ, ◌≡◌, List, [], ◌∷◌, Result, ok, Post, Post-of, at_end, on_ok, Gives, Gives-then, arith,
}
use pinocchio_stake_program.Types.{
  Pubkey, Meta, StakeStateV2, uninitialized, initialized as initialized_state, staked, rewards_pool,
}
use pinocchio_stake_program.Runtime.{AccountInfo, Store, Runtime}
use pinocchio_stake_program.Helpers.{get_stake_state}
use pinocchio_stake_program.Instruction.Split.{process_split}
use pinocchio_stake_program.Instruction.Withdraw.{process_withdraw}
use pinocchio_stake_program.Instruction.MergeAccounts.{process_merge}
use pinocchio_stake_program.Instruction.Move.{process_move_stake, process_move_lamports}
use pinocchio_stake_program.Effects.{HasMeta}
use pinocchio_stake_program.Consent.{
  Consented, OfMeta, StakerSigned, WithdrawerSigned, AuthoritySigned, LockupSigned,
}
use pinocchio_stake_program.Consent.Authority.{
  authorize-Signed, authorize_checked-Signed, authorized_with_seeds-Signed, set_lockup-Signed,
  set_lockup_checked-Signed, delegate-Signed, deactivate-Signed, initialize-Signed,
  initialize_checked-Signed,
}
use pinocchio_stake_program.Consent.Transfers.{split-Signed, withdraw-Signed, SplitSigned}
use pinocchio_stake_program.Consent.Moves.{move_stake-Signed, move_lamports-Signed, merge-Signed}
use pinocchio_stake_program.Entrypoint.{
  StakeInstruction, initialize, authorize, delegate_stake, split, withdraw, deactivate, set_lockup,
  merge, authorize_with_seed, initialize_checked, authorize_checked, authorize_checked_with_seed,
  set_lockup_checked, get_minimum_delegation, deactivate_delinquent, redelegate, move_stake,
  move_lamports, run_initialize_payload, run_authorize_payload, run_with_seed_payload,
  run_checked_payload, read_initialize, dispatch, process_instruction, gate, try_from,
}
use pinocchio_stake_program.Entrypoint.Routes.{number, process_instruction-Routed}

OfMeta-at :
    (Q : Meta → Type 0) (state : StakeStateV2) (m : Meta) → HasMeta state m → OfMeta Q state → Q m
OfMeta-at Q uninitialized m h q = absurd h
OfMeta-at Q (initialized_state m') m h q = rw h q
OfMeta-at Q (staked m' k flags) m h q = rw h q
OfMeta-at Q rewards_pool m h q = absurd h

module _ (rt : Runtime) (s : Store) (a : AccountInfo) (rest : List AccountInfo) (payload : List ℕ)
    (m : Meta) (state : StakeStateV2) (r : get_stake_state s a ≡ ok state)
    (h : HasMeta state m) where
  of_state :
      (Q : Meta → Type 0) (x : Result Store) → Post (λ s'. OfMeta Q state) x → Post (λ s'. Q m) x
  of_state Q x p =
      at_end (λ s'. Q m) x λ s' e. OfMeta-at Q state m h (Post-of (λ s'. OfMeta Q state) x p e)

  initialize-Consented : Post (λ s'. ⊥) (run_initialize_payload rt s (a ∷ rest) payload)
  unfolding run_initialize_payload
  initialize-Consented =
      on_ok (λ s'. ⊥) (read_initialize payload) _
        λ (authorized, lockup) e.
          of_state (λ m. ⊥) _ (initialize-Signed rt s a state r rest authorized lockup)

  authorize-Consented :
      Post (λ s'. AuthoritySigned (a ∷ rest) m) (run_authorize_payload rt s (a ∷ rest) payload)
  unfolding run_authorize_payload
  authorize-Consented =
      of_state (λ m. AuthoritySigned (a ∷ rest) m) _ (grind (arith, authorize-Signed))

  with_seed-Consented :
      Post (λ s'. AuthoritySigned (a ∷ rest) m) (run_with_seed_payload rt s (a ∷ rest) payload)
  unfolding run_with_seed_payload
  with_seed-Consented =
      of_state (λ m. AuthoritySigned (a ∷ rest) m) _ (grind (arith, authorized_with_seeds-Signed))

  checked-Consented :
      Post (λ s'. AuthoritySigned (a ∷ rest) m) (run_checked_payload rt s (a ∷ rest) payload)
  unfolding run_checked_payload
  checked-Consented =
      of_state (λ m. AuthoritySigned (a ∷ rest) m) _ (grind (arith, authorize_checked-Signed))

module _ (rt : Runtime) (s : Store) (a : AccountInfo) (n : ℕ) (m : Meta) (state : StakeStateV2)
    (r : get_stake_state s a ≡ ok state) (h : HasMeta state m) where
  split-Consented :
      (rest : List AccountInfo)
      → Post (λ s'. SplitSigned (a ∷ rest) m) (process_split rt s (a ∷ rest) n)
  unfolding process_split
  split-Consented (b ∷ c ∷ []) =
      of_state rt s a (b ∷ c ∷ []) [] m state r h (λ m. SplitSigned (a ∷ b ∷ c ∷ []) m)
        (process_split rt s (a ∷ b ∷ c ∷ []) n) (split-Signed rt s a b c n state r)
  split-Consented (b ∷ c ∷ d ∷ rest) = grind arith
  split-Consented (b ∷ []) = grind arith
  split-Consented [] = grind arith

  withdraw-Consented :
      (rest : List AccountInfo)
      → Post (λ s'. WithdrawerSigned (a ∷ rest) m) (process_withdraw rt s (a ∷ rest) n)
  unfolding process_withdraw
  withdraw-Consented (b ∷ c ∷ d ∷ e ∷ rest) = withdraw-Signed rt s a b c d e rest n m state r h
  withdraw-Consented (b ∷ c ∷ d ∷ []) = tt
  withdraw-Consented (b ∷ c ∷ []) = tt
  withdraw-Consented (b ∷ []) = tt
  withdraw-Consented [] = tt

  move_stake-Consented :
      (rest : List AccountInfo)
      → Post (λ s'. StakerSigned (a ∷ rest) m) (process_move_stake rt s (a ∷ rest) n)
  unfolding process_move_stake
  move_stake-Consented (b ∷ c ∷ rest) = move_stake-Signed rt s a b c m state r h rest n
  move_stake-Consented (b ∷ []) = tt
  move_stake-Consented [] = tt

  move_lamports-Consented :
      (rest : List AccountInfo)
      → Post (λ s'. StakerSigned (a ∷ rest) m) (process_move_lamports rt s (a ∷ rest) n)
  unfolding process_move_lamports
  move_lamports-Consented (b ∷ c ∷ rest) = move_lamports-Signed rt s a b c m state r h rest n
  move_lamports-Consented (b ∷ []) = tt
  move_lamports-Consented [] = tt

  merge-Consented :
      (rest : List AccountInfo)
      → Post (λ s'. StakerSigned (a ∷ rest) m) (process_merge rt s (a ∷ rest))
  unfolding process_merge
  merge-Consented (b ∷ c ∷ d ∷ rest) = merge-Signed rt s a b c d rest m state r h
  merge-Consented (b ∷ c ∷ []) = tt
  merge-Consented (b ∷ []) = tt
  merge-Consented [] = tt

module _ (rt : Runtime) (s : Store) (a : AccountInfo) (rest : List AccountInfo) (m : Meta)
    (state : StakeStateV2) (r : get_stake_state s a ≡ ok state) (h : HasMeta state m) where
  dispatch-Consented :
      (payload : List ℕ) (ix : StakeInstruction)
      → Post (λ s'. Consented (a ∷ rest) ix m) (dispatch rt s (a ∷ rest) payload ix)
  unfolding dispatch gate
  dispatch-Consented payload initialize = initialize-Consented rt s a rest payload m state r h
  dispatch-Consented payload authorize = authorize-Consented rt s a rest payload m state r h
  dispatch-Consented payload delegate_stake =
      of_state rt s a rest payload m state r h (λ m. StakerSigned (a ∷ rest) m) _
        (delegate-Signed rt s a state r rest)
  dispatch-Consented payload split =
      let each = λ (n : ℕ). split-Consented rt s a n m state r h rest in grind arith
  dispatch-Consented payload withdraw =
      let each = λ (n : ℕ). withdraw-Consented rt s a n m state r h rest in grind arith
  dispatch-Consented payload deactivate =
      of_state rt s a rest payload m state r h (λ m. StakerSigned (a ∷ rest) m) _
        (deactivate-Signed rt s a state r rest)
  dispatch-Consented payload set_lockup =
      of_state rt s a rest payload m state r h (λ m. LockupSigned (a ∷ rest) m) _
        (set_lockup-Signed rt s a state r rest payload)
  dispatch-Consented payload merge = merge-Consented rt s a 0 m state r h rest
  dispatch-Consented payload authorize_with_seed =
      with_seed-Consented rt s a rest payload m state r h
  dispatch-Consented payload initialize_checked =
      of_state rt s a rest payload m state r h (λ m. ⊥) _
        (initialize_checked-Signed rt s a state r rest)
  dispatch-Consented payload authorize_checked = checked-Consented rt s a rest payload m state r h
  dispatch-Consented payload authorize_checked_with_seed = at_end (λ s'. Unit) _ λ s' e. tt
  dispatch-Consented payload set_lockup_checked =
      of_state rt s a rest payload m state r h (λ m. LockupSigned (a ∷ rest) m) _
        (set_lockup_checked-Signed rt s a state r rest payload)
  dispatch-Consented payload get_minimum_delegation = tt
  dispatch-Consented payload deactivate_delinquent = at_end (λ s'. Unit) _ λ s' e. tt
  dispatch-Consented payload redelegate = tt
  dispatch-Consented payload move_stake =
      let each = λ (n : ℕ). move_stake-Consented rt s a n m state r h rest in grind arith
  dispatch-Consented payload move_lamports =
      let each = λ (n : ℕ). move_lamports-Consented rt s a n m state r h rest in grind arith

  -- An instruction that succeeds on a first account with metadata carries the signature that it
  -- needs: the staker's for delegating, deactivating, merging, moving and splitting, where a split
  -- takes a staker whose key is the default unsigned; the withdrawer's for withdrawing; one of the
  -- two for a new authority; the withdrawer's or the custodian's for a new lockup. No such account is
  -- initialized again. The checked change of an authority with a seed, the deactivation of a
  -- delinquent stake and the reading of the minimum delegation need none of these.
  pub process_instruction-Consented :
      (program_id : Pubkey) (disc : ℕ) (payload : List ℕ) {s' : Store}
      → process_instruction rt s program_id (a ∷ rest) (disc ∷ payload) ≡ ok s'
      → Gives (try_from disc) (λ ix. Consented (a ∷ rest) ix m)
  process_instruction-Consented program_id disc payload {s'} done =
      let (own, routed) = process_instruction-Routed rt s program_id (a ∷ rest) disc payload done in
      Gives-then (try_from disc)
        (λ ix. (number ix ≡ disc) × (dispatch rt s (a ∷ rest) payload ix ≡ ok s'))
        (λ ix. Consented (a ∷ rest) ix m) routed
        λ ix e run.
          Post-of (λ s'. Consented (a ∷ rest) ix m) (dispatch rt s (a ∷ rest) payload ix)
            (dispatch-Consented payload ix) run.1
