-- ===== src/Consent/Seconds.antt =====
-- The second account of a split, a merge and a move of stake (program/src/instruction/): its staker
-- signed as well.
use pinocchio_stake_program.Base.{
  ℕ, ◌≡◌, true, [], Bool, List, ◌∷◌, ok, Post, arith, at_end, Post-of, Gives, Post-of,
}
use pinocchio_stake_program.Types.{
  Pubkey, Meta, StakeStateV2, uninitialized, initialized, staked, rewards_pool, Clock, contains,
}
use pinocchio_stake_program.Runtime.{AccountInfo, Store, Runtime}
use pinocchio_stake_program.Merge.{MergeKind, kind_meta, get_if_mergeable}
use pinocchio_stake_program.History.{get_entry}
use pinocchio_stake_program.Helpers.{get_stake_state, collect_signers}
use pinocchio_stake_program.Instruction.MergeAccounts.{process_merge}
use pinocchio_stake_program.Instruction.MergeAccounts.Settle.{merge-Merged}
use pinocchio_stake_program.Instruction.Move.{process_move_stake, shared_checks}
use pinocchio_stake_program.Effects.{HasMeta}
use pinocchio_stake_program.Effects.Kinds.{get_if_mergeable-HasMeta}
use pinocchio_stake_program.Consent.{StakerSigned, collected-Signed}
use pinocchio_stake_program.Consent.Moves.{
  HasMeta-unique, classified-HasMeta, IsStaker, third-Signed,
}
use pinocchio_stake_program.Helpers.State.{get_stake_state-deserialize}
use pinocchio_stake_program.Instruction.Split.{process_split, require_uninitialized}
use pinocchio_stake_program.Merge.{metas_can_merge}

metas_can_merge-staker :
    (m m' : Meta) (clock : Clock)
    → metas_can_merge m m' clock ≡ ok tt
    → m'.authorized.staker ≡ m.authorized.staker
unfolding metas_can_merge
metas_can_merge-staker m m' clock h = grind arith

module _ (rt : Runtime) (s : Store) (dst src clock_info history_info : AccountInfo)
    (rest : List AccountInfo) (m : Meta) (state : StakeStateV2)
    (r : get_stake_state s src ≡ ok state) (h : HasMeta state m) where
  abbrev merge_list : List AccountInfo
  merge_list = dst ∷ src ∷ clock_info ∷ history_info ∷ rest

  signed_by_kinds :
      (clock : Clock) (signers : List Pubkey) (kind kind' : MergeKind)
      → collect_signers merge_list ≡ ok signers
      → get_if_mergeable rt.f64 (get_entry rt clock.epoch) state (s src.key).lamports clock
        ≡ ok kind'
      → metas_can_merge (kind_meta kind) (kind_meta kind') clock ≡ ok tt
      → contains signers (kind_meta kind).authorized.staker ≡ true
      → StakerSigned merge_list m
  signed_by_kinds clock signers kind kind' c k same e =
      let read =
        get_if_mergeable-HasMeta rt.f64 (get_entry rt clock.epoch) state (s src.key).lamports clock
          k in
      let signed = collected-Signed merge_list signers (kind_meta kind).authorized.staker c e in
      rw (HasMeta-unique state m (kind_meta kind') h read)
        (rw (metas_can_merge-staker (kind_meta kind) (kind_meta kind') clock same) signed)

  -- A merge needs the staker of the source, who is that of the destination.
  pub merge-second-Signed : Post (λ s'. StakerSigned merge_list m) (process_merge rt s merge_list)
  merge-second-Signed =
      at_end (λ s'. StakerSigned merge_list m) (process_merge rt s merge_list)
        λ s' e.
          let (ne, od, os, g) = merge-Merged rt s dst src clock_info history_info rest e in
          grind (arith, signed_by_kinds)

IsMoved : Store → AccountInfo → AccountInfo → MergeKind × MergeKind → Type 0
IsMoved s destination authority kinds =
    (authority.is_signer ≡ true)
    × ((kind_meta kinds.1).authorized.staker ≡ authority.key)
    × Gives (get_stake_state s destination) (λ state. HasMeta state (kind_meta kinds.1))

shared_checks-IsMoved :
    (rt : Runtime) (s : Store) (source destination authority : AccountInfo) (n : ℕ) (strict : Bool)
    → Post
        (IsMoved s destination authority)
        (shared_checks rt s source n destination authority true strict)
unfolding shared_checks IsMoved
shared_checks-IsMoved rt s source destination authority n strict =
    grind (arith, classified-HasMeta, metas_can_merge-staker)

module _ (rt : Runtime) (s : Store) (source destination authority : AccountInfo) (m : Meta)
    (state : StakeStateV2) (r : get_stake_state s destination ≡ ok state)
    (h : HasMeta state m) where
  IsMoved-IsStaker :
      (kinds : MergeKind × MergeKind) → IsMoved s destination authority kinds → IsStaker authority m
  unfolding IsMoved
  IsMoved-IsStaker kinds (a, e, g) =
      let same = HasMeta-unique state m (kind_meta kinds.1) h in grind arith

  shared_checks-IsStaker :
      (n : ℕ)
      → Post
          (λ kinds. IsStaker authority m)
          (shared_checks rt s source n destination authority true true)
  shared_checks-IsStaker n =
      at_end (λ kinds. IsStaker authority m)
        (shared_checks rt s source n destination authority true true)
        λ kinds e. IsMoved-IsStaker kinds (
          Post-of (IsMoved s destination authority)
            (shared_checks rt s source n destination authority true true)
            (shared_checks-IsMoved rt s source destination authority n true) e)

  pub move_stake-second-Signed :
      (rest : List AccountInfo) (n : ℕ)
      → Post
          (λ s'. StakerSigned (source ∷ destination ∷ authority ∷ rest) m)
          (process_move_stake rt s (source ∷ destination ∷ authority ∷ rest) n)
  unfolding process_move_stake
  move_stake-second-Signed rest n = grind (arith, shared_checks-IsStaker, third-Signed)

-- A split takes no second account that has metadata.
pub split_refused :
    (rt : Runtime) (s : Store) (source destination third : AccountInfo) (n : ℕ) (m : Meta)
    (state : StakeStateV2)
    → get_stake_state s destination ≡ ok state
    → HasMeta state m
    → Post (λ s'. ⊥) (process_split rt s (source ∷ destination ∷ third ∷ []) n)
unfolding process_split require_uninitialized
split_refused rt s source destination third n m (initialized m') r h =
    let read = get_stake_state-deserialize s destination (initialized m') r in grind arith
split_refused rt s source destination third n m (staked m' k flags) r h =
    let read = get_stake_state-deserialize s destination (staked m' k flags) r in grind arith
split_refused rt s source destination third n m uninitialized r h = absurd h
split_refused rt s source destination third n m rewards_pool r h = absurd h
