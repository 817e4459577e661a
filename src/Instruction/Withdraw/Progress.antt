-- ===== src/Instruction/Withdraw/Progress.antt =====
-- program/src/instruction/withdraw.rs: when the withdrawer can take everything.
use pinocchio_stake_program.Base.{
  ◌+◌, ◌≤◌, ◌<◌, ◌≡◌, ◌≢◌, refl, true, false, none, [], ◌∷◌, length, Result, ok, Gives, Gives-then,
  arith, ==_refl,
}
use pinocchio_stake_program.Types.{
  check, contains, required_key, Pubkey, Meta, StakeStateV2, uninitialized, initialized, staked,
  rewards_pool, Clock, u64_mod,
}
use pinocchio_stake_program.Codec.{account_size, deserialize}
use pinocchio_stake_program.Runtime.{AccountInfo, Store, Runtime}
use pinocchio_stake_program.Lockup.{is_in_force}
use pinocchio_stake_program.Helpers.{get_stake_state, set_stake_state, relocate_lamports}
use pinocchio_stake_program.Helpers.State.{SameButBytes, set_stake_state-Gives}
use pinocchio_stake_program.Helpers.Lamports.{IsRelocated, relocate_lamports-Gives}
use pinocchio_stake_program.Instruction.Withdraw.{
  staked_amount, withdraw_limits, withdraw_state, withdraw_from, process_withdraw, is_uninitialized,
  custodian_of,
}

-- A state with the metadata `m` of which nothing counts as staked.
abbrev pub IsFree : Runtime → Clock → Meta → StakeStateV2 → Type 0
IsFree rt clock m uninitialized = ⊥
IsFree rt clock m (initialized m') = m ≡ m'
IsFree rt clock m (staked m' k flags) = (m ≡ m') × (staked_amount rt k clock ≡ ok 0)
IsFree rt clock m rewards_pool = ⊥

-- The source has nothing left and is uninitialized, and the destination has it all.
abbrev pub IsEmptied : Store → Store → Pubkey → Pubkey → Type 0
IsEmptied s s' src dst =
    ((s' src).lamports ≡ 0)
    × ((s' dst).lamports ≡ (s dst).lamports + (s src).lamports)
    × (deserialize (s' src).bytes ≡ ok uninitialized)

-- The limits of such a state, for its withdrawer alone.
limits_free :
    (rt : Runtime) (source : AccountInfo) (k : Pubkey) (clock : Clock) (m : Meta)
    (state : StakeStateV2)
    → IsFree rt clock m state
    → k ≡ m.authorized.withdrawer
    → m.rent_exempt_reserve < u64_mod
    → Gives
        (withdraw_limits rt source (k ∷ []) clock state)
        λ limits. (limits.lockup ≡ m.lockup) × (limits.is_staked ≡ false)
unfolding withdraw_limits check contains required_key
limits_free rt source k clock m (initialized m') free w r = ground arith
limits_free rt source k clock m (staked m' stake flags) free w r = ground arith
limits_free rt source k clock m uninitialized free w r = absurd free
limits_free rt source k clock m rewards_pool free w r = absurd free

IsFree-initialized :
    (rt : Runtime) (clock : Clock) (m : Meta) (r : Result StakeStateV2) (state : StakeStateV2)
    → r ≡ ok state
    → IsFree rt clock m state
    → is_uninitialized r ≡ false
unfolding is_uninitialized
IsFree-initialized rt clock m r (initialized m') e free = rw e refl
IsFree-initialized rt clock m r (staked m' stake flags) e free = rw e refl
IsFree-initialized rt clock m r uninitialized e free = absurd free
IsFree-initialized rt clock m r rewards_pool e free = absurd free

module _ (s s1 s' : Store) (src dst : Pubkey) where
  emptied :
      SameButBytes s s1 src
      → deserialize (s1 src).bytes ≡ ok uninitialized
      → src ≢ dst
      → IsRelocated s1 s' src dst (s src).lamports
      → IsEmptied s s' src dst
  emptied same read ne gone =
      let left = gone.source_left in
      let grown = gone.destination_grown in
      let a = same.lamports_kept src in
      let b = same.lamports_kept dst in (ground arith, ground arith, rw (gone.bytes_kept src) read)

module _ (s : Store) (source destination : AccountInfo) where
  module _ (differ : source.key ≢ destination.key)
      (room : (s destination.key).lamports + (s source.key).lamports < u64_mod) where
    -- Paying out all that the source has, once it is closed.
    pay_all :
        (s1 : Store)
        → SameButBytes s s1 source.key
        → deserialize (s1 source.key).bytes ≡ ok uninitialized
        → Gives
            (relocate_lamports s1 source destination (s source.key).lamports)
            λ s'. IsEmptied s s' source.key destination.key
    pay_all s1 same read =
        let a = same.lamports_kept source.key in
        let b = same.lamports_kept destination.key in
        let n = (s source.key).lamports in
        Gives-then (relocate_lamports s1 source destination n)
          (λ s'. IsRelocated s1 s' source.key destination.key n)
          (λ s'. IsEmptied s s' source.key destination.key)
          (relocate_lamports-Gives s1 source destination n differ (omega arith) (omega arith))
          λ s' e gone. emptied s s1 s' source.key destination.key same read differ gone

    close_and_pay :
        account_size ≤ length (s source.key).bytes
        → Gives (set_stake_state s source uninitialized) λ s1.
          Gives
            (relocate_lamports s1 source destination (s source.key).lamports)
            λ s'. IsEmptied s s' source.key destination.key
    close_and_pay sized =
        Gives-then (set_stake_state s source uninitialized)
          (λ s1.
            SameButBytes s s1 source.key × (deserialize (s1 source.key).bytes ≡ ok uninitialized))
          (λ s1.
            Gives (relocate_lamports s1 source destination (s source.key).lamports)
              λ s'. IsEmptied s s' source.key destination.key)
          (set_stake_state-Gives s source uninitialized tt sized) λ s1 e p. pay_all s1 p.0 p.1

module _ (rt : Runtime) (s : Store) (source destination clock_info history authority : AccountInfo)
    (clock : Clock) (m : Meta) (state : StakeStateV2) where
  -- The withdrawer can always take everything: from a stake account of which nothing counts as
  -- staked and that no lockup binds, with the withdrawer's signature and a destination that has room
  -- for the lamports, a withdrawal of all of them succeeds, leaves the source uninitialized with
  -- none, and the destination with the sum.
  pub process_withdraw-IsEmptied :
      get_stake_state s source ≡ ok state
      → IsFree rt clock m state
      → authority.is_signer ≡ true
      → authority.key ≡ m.authorized.withdrawer
      → m.rent_exempt_reserve < u64_mod
      → rt.clock_from_account_info clock_info (s clock_info.key) ≡ ok clock
      → is_in_force m.lockup clock none ≡ false
      → source.key ≢ destination.key
      → (s destination.key).lamports + (s source.key).lamports < u64_mod
      → account_size ≤ length (s source.key).bytes
      → Gives
          (process_withdraw rt s
            (source ∷ destination ∷ clock_info ∷ history ∷ authority ∷ [])
            (s source.key).lamports)
          λ s'. IsEmptied s s' source.key destination.key
  unfolding process_withdraw withdraw_from custodian_of withdraw_state
  process_withdraw-IsEmptied read free signed is_withdrawer fits told unlocked differ room sized =
      let shown = IsFree-initialized rt clock m (get_stake_state s source) state read free in
      let limits = limits_free rt source authority.key clock m state free is_withdrawer fits in
      let paid = close_and_pay s source destination differ room sized in
      let all = ==_refl (s source.key).lamports in grind arith
