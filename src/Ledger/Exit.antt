-- ===== src/Ledger/Exit.antt =====
-- Two instructions of program/src/entrypoint.rs in a row, a deactivation and a withdrawal of all: the
-- way out of a stake account.
use pinocchio_stake_program.Base.{
  ℕ, ◌+◌, ◌≤◌, ◌<◌, ◌≡◌, ◌≢◌, ◌∙◌, refl, true, false, none, [], ◌∷◌, length, ok, Gives, Gives-then,
  Gives-bind, arith, Result, ◌>>=◌,
}
use pinocchio_stake_program.Base.Bytes.{le_bytes, length-le_bytes, le_value-le_bytes}
use pinocchio_stake_program.Types.{
  Pubkey, Meta, Stake, StakeFlags, StakeStateV2, staked, Clock, u64_mod, u64_max, id, check,
  contains, required_key, Fits,
}
use pinocchio_stake_program.Codec.{account_size, deserialize}
use pinocchio_stake_program.Codec.Shape.{serialize-Stored}
use pinocchio_stake_program.Runtime.{AccountInfo, Account, Store, Runtime}
use pinocchio_stake_program.Lockup.{is_in_force}
use pinocchio_stake_program.Delegation.{deactivate}
use pinocchio_stake_program.Helpers.{
  get_stake_state, set_stake_state, collect_signers, collect_from,
}
use pinocchio_stake_program.Helpers.State.{
  SameButBytes, set_stake_state-Gives, set_stake_state-serialize, get_stake_state-deserialize,
  get_stake_state-held,
}
use pinocchio_stake_program.Instruction.Delegate.{process_deactivate, deactivate_state}
use pinocchio_stake_program.Instruction.Withdraw.{staked_amount, process_withdraw}
use pinocchio_stake_program.Instruction.Withdraw.Progress.{IsEmptied, process_withdraw-IsEmptied}
use pinocchio_stake_program.Entrypoint.{process_instruction, dispatch, try_from, gate, read_u64}

-- The stake with a deactivation epoch.
abbrev pub stopped : Stake → ℕ → Stake
stopped k epoch = record k { delegation = record (k.delegation) { deactivation_epoch = epoch } }

-- What a deactivation leaves: the stopped stake in an account as large, and all else as it was.
pub record IsStopped (s s' : Store) (ai : AccountInfo) (state : StakeStateV2) : Type 0 where
  pub same : SameButBytes s s' ai.key
  pub read : get_stake_state s' ai ≡ ok state
  pub size : length (s' ai.key).bytes ≡ length (s ai.key).bytes

store-IsStopped :
    (s : Store) (ai : AccountInfo) (state : StakeStateV2)
    → Fits state
    → account_size ≤ length (s ai.key).bytes
    → (s ai.key).owner ≡ id
    → Gives (set_stake_state s ai state) λ s'. IsStopped s s' ai state
store-IsStopped s ai state fits sized own =
    Gives-then (set_stake_state s ai state)
      (λ s'. SameButBytes s s' ai.key × (deserialize (s' ai.key).bytes ≡ ok state))
      (λ s'. IsStopped s s' ai state) (set_stake_state-Gives s ai state fits sized)
      λ s' e p. record {
        same = p.0;
        read = get_stake_state-held s' ai state (p.0.owner_kept ai.key ∙ own) p.1;
        size = (serialize-Stored state (s ai.key).bytes (set_stake_state-serialize s ai state e)).0;
      }

-- The third account's signature is found, whoever else signs.
third_signs :
    (a b c : AccountInfo)
    → c.is_signer ≡ true
    → Gives (collect_signers (a ∷ b ∷ c ∷ [])) λ signers. contains signers c.key ≡ true
unfolding collect_signers collect_from contains
third_signs a b c signed = ground arith

-- A number of lamports as a payload.
le_bytes-read_u64 : (n : ℕ) → n < u64_mod → read_u64 (le_bytes 8 n) ≡ ok n
unfolding read_u64
le_bytes-read_u64 n h =
    let size = length-le_bytes 8 n in let value = le_value-le_bytes 8 n h in ground arith

module _ (rt : Runtime) (s : Store) (ai clock_info staker : AccountInfo) (clock : Clock) (m : Meta)
    (k : Stake) (flags : StakeFlags) where
  -- The staker can deactivate a stake that has no deactivation.
  deactivate-IsStopped :
      get_stake_state s ai ≡ ok (staked m k flags)
      → Fits (staked m (stopped k clock.epoch) flags)
      → k.delegation.deactivation_epoch ≡ u64_max
      → account_size ≤ length (s ai.key).bytes
      → staker.is_signer ≡ true
      → staker.key ≡ m.authorized.staker
      → clock_info.key ≡ rt.clock_id
      → rt.clock_from_account_info clock_info (s clock_info.key) ≡ ok clock
      → Gives
          (process_deactivate rt s (ai ∷ clock_info ∷ staker ∷ []))
          λ s'. IsStopped s s' ai (staked m (stopped k clock.epoch) flags)
  unfolding process_deactivate deactivate_state deactivate check required_key
  deactivate-IsStopped read fits active sized signed is_staker is_clock told =
      let own = (get_stake_state-deserialize s ai (staked m k flags) read).0 in
      let stored = store-IsStopped s ai (staked m (stopped k clock.epoch) flags) fits sized own in
      let signers = third_signs ai clock_info staker signed in grind arith

IsEmptied-since :
    (s s1 s2 : Store) (ai : AccountInfo) (state : StakeStateV2) (dst : Pubkey)
    → IsStopped s s1 ai state
    → IsEmptied s1 s2 ai.key dst
    → IsEmptied s s2 ai.key dst
IsEmptied-since s s1 s2 ai state dst stop gone =
    let a = stop.same.lamports_kept ai.key in
    let b = stop.same.lamports_kept dst in (gone.0, gone.1 ∙ rw (a, b) refl, gone.2)

module _ (rt later : Runtime) (s : Store)
    (ai destination clock_info history staker withdrawer : AccountInfo) where
  -- The withdrawal of what the account had, from the store `s1`.
  abbrev withdrawal : Store → Result Store
  withdrawal s1 =
      process_instruction later s1 id (ai ∷ destination ∷ clock_info ∷ history ∷ withdrawer ∷ [])
        (4 ∷ le_bytes 8 (s ai.key).lamports)

  -- A deactivation by the staker, and in a later transaction a withdrawal by the withdrawer.
  abbrev pub exit : Result Store
  exit =
      process_instruction rt s id (ai ∷ clock_info ∷ staker ∷ []) (5 ∷ []) >>= λ s1. withdrawal s1

  module _ (clock clock' : Clock) (m : Meta) (k : Stake) (flags : StakeFlags) where
    withdrawal-IsEmptied :
        (s1 : Store)
        → IsStopped s s1 ai (staked m (stopped k clock.epoch) flags)
        → m.rent_exempt_reserve < u64_mod
        → account_size ≤ length (s ai.key).bytes
        → staked_amount later (stopped k clock.epoch) clock' ≡ ok 0
        → withdrawer.is_signer ≡ true
        → withdrawer.key ≡ m.authorized.withdrawer
        → later.clock_from_account_info clock_info (s1 clock_info.key) ≡ ok clock'
        → is_in_force m.lockup clock' none ≡ false
        → ai.key ≢ destination.key
        → (s destination.key).lamports + (s ai.key).lamports < u64_mod
        → Gives (withdrawal s1) λ s2. IsEmptied s s2 ai.key destination.key
    unfolding process_instruction try_from dispatch gate
    withdrawal-IsEmptied s1 stop fits sized cooled signed is_withdrawer told unlocked differ room =
        let a = stop.same.lamports_kept ai.key in
        let b = stop.same.lamports_kept destination.key in
        let paid =
          process_withdraw-IsEmptied later s1 ai destination clock_info history withdrawer clock' m
            (staked m (stopped k clock.epoch) flags) stop.read (refl, cooled) signed is_withdrawer
            fits told unlocked differ (omega arith) (omega (arith, stop.size)) in
        let since =
          Gives-then
            (process_withdraw later s1 (ai ∷ destination ∷ clock_info ∷ history ∷ withdrawer ∷ [])
              (s1 ai.key).lamports)
            (λ s2. IsEmptied s1 s2 ai.key destination.key)
            (λ s2. IsEmptied s s2 ai.key destination.key) paid
            λ s2 e gone.
              IsEmptied-since s s1 s2 ai (staked m (stopped k clock.epoch) flags) destination.key
                stop gone in
        rw (le_bytes-read_u64 (s ai.key).lamports (omega arith)) (rw a at since)

    -- A stake can always be taken out, by two instructions and without anyone's help: the staker of an
    -- account whose stake has no deactivation can deactivate it, and when later nothing of it counts
    -- as staked and no lockup binds, the withdrawer can withdraw all the lamports that the account
    -- had, to a destination that has room for them. The account is left uninitialized, with none.
    pub exit-IsEmptied :
        get_stake_state s ai ≡ ok (staked m k flags)
        → Fits (staked m (stopped k clock.epoch) flags)
        → k.delegation.deactivation_epoch ≡ u64_max
        → account_size ≤ length (s ai.key).bytes
        → staker.is_signer ≡ true
        → staker.key ≡ m.authorized.staker
        → clock_info.key ≡ rt.clock_id
        → rt.clock_from_account_info clock_info (s clock_info.key) ≡ ok clock
        → ((a : Account) → later.clock_from_account_info clock_info a ≡ ok clock')
        → staked_amount later (stopped k clock.epoch) clock' ≡ ok 0
        → is_in_force m.lockup clock' none ≡ false
        → withdrawer.is_signer ≡ true
        → withdrawer.key ≡ m.authorized.withdrawer
        → ai.key ≢ destination.key
        → (s destination.key).lamports + (s ai.key).lamports < u64_mod
        → Gives exit λ s2. IsEmptied s s2 ai.key destination.key
    unfolding process_instruction try_from dispatch gate
    exit-IsEmptied read fits active sized signed is_staker is_clock told told_later cooled unlocked
          signed' is_withdrawer differ room =
        Gives-bind (process_deactivate rt s (ai ∷ clock_info ∷ staker ∷ [])) withdrawal
          (λ s1. IsStopped s s1 ai (staked m (stopped k clock.epoch) flags))
          (λ s2. IsEmptied s s2 ai.key destination.key)
          (deactivate-IsStopped rt s ai clock_info staker clock m k flags read fits active sized
            signed is_staker is_clock told)
          λ s1 stop.
            withdrawal-IsEmptied s1 stop fits.0.rent_exempt_reserve_fits sized cooled signed'
              is_withdrawer (told_later (s1 clock_info.key)) unlocked differ room
