-- ===== src/Instruction/Move/Transfer.antt =====
-- `process_move_stake` (program/src/instruction/process_move_stake.rs): the stakes and the lamports
-- that it leaves.
use pinocchio_stake_program.Base.{
  ℕ, ◌+◌, ◌-◌, ◌≡◌, ◌<◌, ◌≤◌, ◌⊎◌, ◌≢◌, true, List, ◌∷◌, ok, Post, Post-of, Gives, arith, length,
}
use pinocchio_stake_program.Types.{
  Meta, Stake, StakeStateV2, initialized, staked, u64_mod, empty_flags,
}
use pinocchio_stake_program.Codec.{account_size}
use pinocchio_stake_program.Runtime.{AccountInfo, Store, Runtime}
use pinocchio_stake_program.Merge.{
  MergeKind, inactive, activation_epoch_kind, fully_active,
  merge_delegation_stake_and_credits_observed,
}
use pinocchio_stake_program.Merge.Credits.{merge_delegation-delegation}
use pinocchio_stake_program.Helpers.{set_stake_state, get_minimum_delegation}
use pinocchio_stake_program.Helpers.Lamports.{IsRelocated, relocate_lamports-IsRelocated}
use pinocchio_stake_program.Instruction.Move.{
  shared_checks, fully_active_parts, move_to, source_rest, move_stake, process_move_stake,
}
use pinocchio_stake_program.Instruction.Move.Checks.{Checked, shared_checks-Post}

-- A stake with another amount.
abbrev pub amounting : Stake → ℕ → Stake
amounting k n = record k { delegation = record (k.delegation) { stake = n } }

-- The destination's side: an active one, with the same voter, grows by exactly `n`, its delegation
-- kept; an inactive one takes the source's delegation with `n`, which is at least the minimum.
abbrev pub Arrives : Store → AccountInfo → ℕ → Stake → MergeKind → Store × Meta → Type 0
Arrives s destination n k (fully_active m' k') r =
    (k.delegation.voter_pubkey ≡ k'.delegation.voter_pubkey)
    × (r.1 ≡ m')
    × Gives (merge_delegation_stake_and_credits_observed k' n k.credits_observed) λ grown.
      (grown.delegation ≡ (amounting k' (k'.delegation.stake + n)).delegation)
      × (k'.delegation.stake + n < u64_mod)
      × (set_stake_state s destination (staked m' grown empty_flags) ≡ ok r.0)
Arrives s destination n k (inactive m' l flags) r =
    (get_minimum_delegation ≤ n)
    × (r.1 ≡ m')
    × (set_stake_state s destination (staked m' (amounting k n) empty_flags) ≡ ok r.0)
Arrives s destination n k (activation_epoch_kind m' k' flags) r = ⊥

module _ (s : Store) (destination : AccountInfo) (n : ℕ) (k : Stake) where
  move_to-Arrives :
      (kind : MergeKind) → Post (Arrives s destination n k kind) (move_to s destination n k kind)
  unfolding move_to
  move_to-Arrives (fully_active m' k') = grind (arith, merge_delegation-delegation)
  move_to-Arrives (inactive m' l flags) = grind arith
  move_to-Arrives (activation_epoch_kind m' k' flags) = tt

-- The source's state, with what is kept of its stake: without any it is not delegated any more.
abbrev pub Keeps : Meta → Stake → ℕ → StakeStateV2 → Type 0
Keeps m k kept state =
    ((kept ≡ 0) × (state ≡ initialized m))
    ⊎ ((kept ≢ 0) × (state ≡ staked m (amounting k kept) empty_flags))

source_rest-Keeps : (m : Meta) (k : Stake) (kept : ℕ) → Keeps m k kept (source_rest m k kept)
unfolding source_rest
source_rest-Keeps m k kept = ground arith

-- The whole move: the source is active and keeps its stake less `n`, which is nothing or at least
-- the minimum; exactly `n` lamports go, and both accounts keep their rent reserve.
abbrev pub MovesStake :
    Store → AccountInfo → AccountInfo → ℕ → MergeKind → MergeKind → Store → Type 0
MovesStake s source destination n (fully_active m k) destination_kind s' =
    let kept = k.delegation.stake - n in
    (n ≤ k.delegation.stake)
    × ((kept ≡ 0) ⊎ (get_minimum_delegation ≤ kept))
    × Gives (move_to s destination n k destination_kind) λ (s1, destination_meta).
      Arrives s destination n k destination_kind (s1, destination_meta)
      × Keeps m k kept (source_rest m k kept)
      × Gives (set_stake_state s1 source (source_rest m k kept)) λ s2.
        IsRelocated s2 s' source.key destination.key n
        × (m.rent_exempt_reserve ≤ (s' source.key).lamports)
        × (destination_meta.rent_exempt_reserve ≤ (s' destination.key).lamports)
MovesStake s source destination n (inactive m l flags) destination_kind s' = ⊥
MovesStake s source destination n (activation_epoch_kind m k flags) destination_kind s' = ⊥

module _ (s : Store) (source destination : AccountInfo) (n : ℕ) where
  move_stake-MovesStake :
      (source_kind destination_kind : MergeKind)
      → Post
          (MovesStake s source destination n source_kind destination_kind)
          (move_stake s source destination n source_kind destination_kind)
  unfolding move_stake fully_active_parts
  move_stake-MovesStake (fully_active m k) destination_kind =
      let rest = source_rest-Keeps m k (k.delegation.stake - n) in
      grind (arith, move_to-Arrives, relocate_lamports-IsRelocated)
  move_stake-MovesStake (inactive m l flags) destination_kind = tt
  move_stake-MovesStake (activation_epoch_kind m k flags) destination_kind = tt

module _ (rt : Runtime) (s : Store) (source destination authority : AccountInfo) where
  module _ (rest : List AccountInfo) (n : ℕ) where
    -- Both accounts pass the shared checks with their kinds, have the size of a stake account, and
    -- the move of those kinds was made.
    abbrev pub MovesBy : Store → Type 0
    MovesBy s' =
        Gives (shared_checks rt s source n destination authority true true)
          λ (source_kind, destination_kind).
            Checked rt s source n destination authority source_kind destination_kind
            × (length (s source.key).bytes ≡ account_size)
            × (length (s destination.key).bytes ≡ account_size)
            × MovesStake s source destination n source_kind destination_kind s'

    process_move_stake-Post :
        Post MovesBy (process_move_stake rt s (source ∷ destination ∷ authority ∷ rest) n)
    unfolding process_move_stake
    process_move_stake-Post = grind (arith, shared_checks-Post, move_stake-MovesStake)

    -- A move of stake that succeeds is signed by the staker of the source, which is fully active,
    -- and not deactivating. The source's stake falls by exactly `n`, to nothing or to at least the
    -- minimum; an active destination with the same voter grows by exactly `n`, and an inactive one
    -- is staked with `n`; exactly `n` lamports go with it, and both accounts keep their rent
    -- reserve.
    pub process_move_stake-MovesBy :
        {s' : Store}
        → process_move_stake rt s (source ∷ destination ∷ authority ∷ rest) n ≡ ok s'
        → MovesBy s'
    process_move_stake-MovesBy h =
        Post-of MovesBy (process_move_stake rt s (source ∷ destination ∷ authority ∷ rest) n)
          process_move_stake-Post h
