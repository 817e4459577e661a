-- ===== src/Instruction/SetLockup/Policy.antt =====
-- The two policies for a lockup's change (program/src/instruction/process_set_lockup.rs,
-- process_set_lockup_checked.rs), and their handlers.
use pinocchio_stake_program.Base.{
  ℕ, ◌≡◌, ◌⊎◌, true, false, none, List, ◌∷◌, ok, Post, Post-of, Gives, arith, refl,
}
use pinocchio_stake_program.Types.{
  Pubkey, Meta, Clock, StakeStateV2, uninitialized, initialized, staked, rewards_pool, OfMeta,
  with_meta, contains, SetLockupData,
}
use pinocchio_stake_program.Runtime.{AccountInfo, Store, Runtime}
use pinocchio_stake_program.Lockup.{is_in_force}
use pinocchio_stake_program.Helpers.{get_stake_state, set_stake_state, collect_signers}
use pinocchio_stake_program.Instruction.SetLockup.{
  updated_lockup, apply_lockup_update, lockup_state, process_set_lockup, apply_set_lockup_policy,
  checked_lockup_state,
}

-- The checked handler's policy is the plain handler's, on the same optional fields.
pub apply_set_lockup_policy-apply_lockup_update :
    (m : Meta) (args : SetLockupData) (signers : List Pubkey) (clock : Clock)
    → apply_set_lockup_policy m args.unix_timestamp args.epoch args.custodian signers clock
      ≡ apply_lockup_update m args clock signers
unfolding apply_set_lockup_policy apply_lockup_update
apply_set_lockup_policy-apply_lockup_update m args signers clock = ground arith

-- While the lockup binds its custodian has to sign, and else the withdrawer.
abbrev pub MaySetLockup : Meta → Clock → List Pubkey → Type 0
MaySetLockup m clock signers =
    ((is_in_force m.lockup clock none ≡ true) × (contains signers m.lockup.custodian ≡ true))
    ⊎ ((is_in_force m.lockup clock none ≡ false)
        × (contains signers m.authorized.withdrawer ≡ true))

abbrev pub SetsLockup :
    Store → AccountInfo → SetLockupData → Clock → List Pubkey → StakeStateV2 → Store → Type 0
SetsLockup s stake_account args clock signers state s' = OfMeta state λ m.
    MaySetLockup m clock signers
    × (set_stake_state s stake_account
          (with_meta state (record m { lockup = updated_lockup m.lockup args }))
        ≡ ok s')

module _ (s : Store) (ai : AccountInfo) (args : SetLockupData) (clock : Clock) where
  pub lockup_state-SetsLockup :
      (signers : List Pubkey) (state : StakeStateV2)
      → Post (SetsLockup s ai args clock signers state) (lockup_state s ai args clock signers state)
  unfolding lockup_state apply_lockup_update
  lockup_state-SetsLockup signers (initialized m) = grind arith
  lockup_state-SetsLockup signers (staked m k flags) = grind arith
  lockup_state-SetsLockup signers uninitialized = tt
  lockup_state-SetsLockup signers rewards_pool = tt

  pub checked_lockup_state-lockup_state :
      (signers : List Pubkey) (state : StakeStateV2)
      → checked_lockup_state s ai
          (record { unix_timestamp = args.unix_timestamp; epoch = args.epoch })
          args.custodian
          signers
          clock
          state
        ≡ lockup_state s ai args clock signers state
  unfolding checked_lockup_state lockup_state
  checked_lockup_state-lockup_state signers (initialized m) =
      rw (apply_set_lockup_policy-apply_lockup_update m args signers clock) refl
  checked_lockup_state-lockup_state signers (staked m k flags) =
      rw (apply_set_lockup_policy-apply_lockup_update m args signers clock) refl
  checked_lockup_state-lockup_state signers uninitialized = refl
  checked_lockup_state-lockup_state signers rewards_pool = refl

-- The same, of the clock, the signers and the state that the handler read.
abbrev pub SetsLockupBy :
    Runtime → Store → AccountInfo → List AccountInfo → SetLockupData → Store → Type 0
SetsLockupBy rt s stake_account accounts args s' = Gives rt.clock_get λ clock.
    Gives (collect_signers accounts) λ signers.
      Gives (get_stake_state s stake_account)
        λ state. SetsLockup s stake_account args clock signers state s'

module _ (rt : Runtime) (s : Store) (stake_account : AccountInfo) (rest : List AccountInfo) where
  -- The same, of the arguments that the payload is read as.
  abbrev pub SetsRead : List ℕ → Store → Type 0
  SetsRead input s' =
      Gives (rt.set_lockup_layout input)
        λ args. SetsLockupBy rt s stake_account (stake_account ∷ rest) args s'

  set_lockup-Post :
      (input : List ℕ)
      → Post (SetsRead input) (process_set_lockup rt s (stake_account ∷ rest) input)
  unfolding process_set_lockup
  set_lockup-Post input = grind (arith, lockup_state-SetsLockup)

  -- A lockup's change that succeeds was signed by the custodian while the lockup binds, or by the
  -- withdrawer when it does not, and the new store holds the state with the given fields of its
  -- lockup replaced and the others kept.
  pub set_lockup-SetsLockup :
      (input : List ℕ) {s' : Store}
      → process_set_lockup rt s (stake_account ∷ rest) input ≡ ok s'
      → SetsRead input s'
  set_lockup-SetsLockup input h =
      Post-of (SetsRead input) (process_set_lockup rt s (stake_account ∷ rest) input)
        (set_lockup-Post input) h
