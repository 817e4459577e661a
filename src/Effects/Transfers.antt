-- ===== src/Effects/Transfers.antt =====
-- Splits, withdrawals, merges and moves (program/src/instruction/): their effects.
use pinocchio_stake_program.Base.{
  ℕ, List, [], ◌∷◌, Bool, true, false, Option, none, some, ok, err, Result, Post, on_ok, Post-of,
  arith, ◌≡◌, refl, inl, take,
}
use pinocchio_stake_program.Types.{
  Pubkey, StakeStateV2, uninitialized, initialized, staked, rewards_pool, Stake, Meta, StakeFlags,
  id,
}
use pinocchio_stake_program.Codec.{deserialize}
use pinocchio_stake_program.Runtime.{AccountInfo, Store, Runtime}
use pinocchio_stake_program.Merge.{
  MergeKind, inactive, activation_epoch_kind, fully_active, kind_meta,
}
use pinocchio_stake_program.Helpers.{get_stake_state, set_stake_state}
use pinocchio_stake_program.Instruction.Split.{
  with_reserve, store_split, split_state, close_if, process_split, require_uninitialized,
}
use pinocchio_stake_program.Instruction.Withdraw.{
  Limits, withdraw_state, withdraw_from, withdraw_uninitialized, process_withdraw, is_uninitialized,
}
use pinocchio_stake_program.Instruction.MergeAccounts.{store_merged, process_merge}
use pinocchio_stake_program.Instruction.Move.{
  move_to, move_stake, move_lamports, process_move_stake, process_move_lamports, source_rest,
  fully_active_parts,
}
use pinocchio_stake_program.Effects.{
  Writes, unwritten, Effect, listed, Change, HasMeta, next-Writes, first-Writes, paid-Effect,
  listed_first, listed_second,
}
use pinocchio_stake_program.Effects.Kinds.{
  merge-Change, shared_checks-HasMeta, HasMeta-BecomesStaked, HasMeta-BecomesInitialized,
}

-- What a split takes for uninitialized is so.
require_uninitialized_lem :
    (r : Result StakeStateV2) → require_uninitialized r ≡ ok tt → r ≡ ok uninitialized
unfolding require_uninitialized
require_uninitialized_lem (ok uninitialized) h = refl
require_uninitialized_lem (ok (initialized m)) h = cc
require_uninitialized_lem (ok (staked m k flags)) h = cc
require_uninitialized_lem (ok rewards_pool) h = cc
require_uninitialized_lem (err e) h = cc

reads_uninitialized :
    (s : Store) (ai : AccountInfo)
    → (s ai.key).owner ≡ id
    → require_uninitialized (deserialize (s ai.key).bytes) ≡ ok tt
    → get_stake_state s ai ≡ ok uninitialized
unfolding get_stake_state
reads_uninitialized s ai o h =
    let read = require_uninitialized_lem (deserialize (s ai.key).bytes) h in ground arith

is_uninitialized_lem : (r : Result StakeStateV2) → is_uninitialized r ≡ true → r ≡ ok uninitialized
unfolding is_uninitialized
is_uninitialized_lem (ok uninitialized) h = refl
is_uninitialized_lem (ok (initialized m)) h = cc
is_uninitialized_lem (ok (staked m k flags)) h = cc
is_uninitialized_lem (ok rewards_pool) h = cc
is_uninitialized_lem (err e) h = cc

module _ (accounts : List AccountInfo) (s : Store) (source destination : AccountInfo) where
  module _ (ls : listed accounts source.key ≡ true) (ld : listed accounts destination.key ≡ true)
      (rd : get_stake_state s destination ≡ ok uninitialized) where
    store_split-Writes :
        (m : Meta) (k : Stake) (reserve : ℕ) (flags : StakeFlags) (stakes : Stake × Stake)
        → get_stake_state s source ≡ ok (staked m k flags)
        → Post (Writes accounts s) (store_split s source destination m reserve flags stakes)
    unfolding store_split
    store_split-Writes m k reserve flags (k1, k2) rs =
        on_ok (Writes accounts s) (set_stake_state s source (staked m k1 flags))
          (λ s1. set_stake_state s1 destination (staked (with_reserve m reserve) k2 flags))
          λ s1 h.
            next-Writes accounts s s1 destination uninitialized
              (staked (with_reserve m reserve) k2 flags)
              (Post-of (Writes accounts s) (set_stake_state s source (staked m k1 flags))
                (first-Writes accounts s source (staked m k flags) (staked m k1 flags) ls rs
                  (inl refl))
                h)
              ld rd tt

    split_state-Writes :
        (rt : Runtime) (n epoch : ℕ) (signers : List Pubkey) (state : StakeStateV2)
        → get_stake_state s source ≡ ok state
        → Post (Writes accounts s) (split_state rt s source destination n epoch signers state)
    unfolding split_state
    split_state-Writes rt n epoch signers (staked m k flags) r = grind (arith, store_split-Writes)
    split_state-Writes rt n epoch signers (initialized m) r = grind (arith, first-Writes)
    split_state-Writes rt n epoch signers uninitialized r = grind (arith, unwritten)
    split_state-Writes rt n epoch signers rewards_pool r = tt

module _ (accounts : List AccountInfo) (s s1 : Store) (w : Writes accounts s s1) where
  close_if-Writes :
      (source : AccountInfo) (b : Bool) (old : StakeStateV2)
      → listed accounts source.key ≡ true
      → get_stake_state s source ≡ ok old
      → Post (Writes accounts s) (close_if s1 source b)
  unfolding close_if
  close_if-Writes source true old l r = next-Writes accounts s s1 source old uninitialized w l r tt
  close_if-Writes source false old l r = w

source_rest-Change :
    (m : Meta) (k : Stake) (n : ℕ) (old : StakeStateV2)
    → HasMeta old m
    → Change old (source_rest m k n)
unfolding source_rest
source_rest-Change m k n old h = grind (arith, HasMeta-BecomesStaked, HasMeta-BecomesInitialized)

module _ (accounts : List AccountInfo) (s : Store) (source destination : AccountInfo)
    (ls : listed accounts source.key ≡ true) where
  withdraw_state-Writes :
      (n : ℕ) (limits : Limits) (all : Bool) (old : StakeStateV2)
      → get_stake_state s source ≡ ok old
      → Post (Writes accounts s) (withdraw_state s source n limits all)
  unfolding withdraw_state
  withdraw_state-Writes n limits true old r = grind (arith, first-Writes)
  withdraw_state-Writes n limits false old r = grind (arith, unwritten)

  module _ (ld : listed accounts destination.key ≡ true) where
    store_merged-Writes :
        (merged : Option StakeStateV2) (old : StakeStateV2)
        → get_stake_state s destination ≡ ok old
        → ((new : StakeStateV2) → merged ≡ some new → Change old new)
        → Post (Writes accounts s) (store_merged s destination merged)
    unfolding store_merged
    store_merged-Writes none old r c = unwritten
    store_merged-Writes (some new) old r c =
        first-Writes accounts s destination old new ld r (c new refl)

    move_to-Writes :
        (n : ℕ) (k : Stake) (kind : MergeKind) (old : StakeStateV2)
        → get_stake_state s destination ≡ ok old
        → HasMeta old (kind_meta kind)
        → Post (λ (r : Store × Meta). Writes accounts s r.0) (move_to s destination n k kind)
    unfolding move_to
    move_to-Writes n k (fully_active m k') old r h =
        grind (arith, first-Writes, HasMeta-BecomesStaked)
    move_to-Writes n k (inactive m l f) old r h = grind (arith, first-Writes, HasMeta-BecomesStaked)
    move_to-Writes n k (activation_epoch_kind m k' f) old r h = tt

module _ (accounts receivers : List AccountInfo) (s : Store) (source destination : AccountInfo)
    (ls : listed accounts source.key ≡ true) (lr : listed receivers destination.key ≡ true) where
  withdraw_uninitialized-Effect :
      (n : ℕ)
      → is_uninitialized (get_stake_state s source) ≡ true
      → Post (Effect accounts receivers s) (withdraw_uninitialized s source destination n)
  unfolding withdraw_uninitialized
  withdraw_uninitialized-Effect n u =
      let r = is_uninitialized_lem (get_stake_state s source) u in
      let w : Writes accounts s s = unwritten in grind (arith, paid-Effect)

  withdraw_from-Effect :
      (rt : Runtime) (clock_info authority : AccountInfo) (rest : List AccountInfo) (n : ℕ)
      → Post
          (Effect accounts receivers s)
          (withdraw_from rt s source destination clock_info authority rest n)
  unfolding withdraw_from
  withdraw_from-Effect rt clock_info authority rest n =
      grind (arith, withdraw_state-Writes, paid-Effect)

  move_lamports-Effect :
      (authority : AccountInfo) (n : ℕ) (source_kind dest_kind : MergeKind) (old : StakeStateV2)
      → get_stake_state s source ≡ ok old
      → Post
          (Effect accounts receivers s)
          (move_lamports s source destination authority n source_kind dest_kind)
  unfolding move_lamports
  move_lamports-Effect authority n source_kind dest_kind old r =
      let w : Writes accounts s s = unwritten in grind (arith, paid-Effect)

  module _ (ld : listed accounts destination.key ≡ true) where
    move_stake-Effect :
        (n : ℕ) (source_kind destination_kind : MergeKind) (old_s old_d : StakeStateV2)
        → get_stake_state s source ≡ ok old_s
        → HasMeta old_s (kind_meta source_kind)
        → get_stake_state s destination ≡ ok old_d
        → HasMeta old_d (kind_meta destination_kind)
        → Post
            (Effect accounts receivers s)
            (move_stake s source destination n source_kind destination_kind)
    unfolding move_stake fully_active_parts
    move_stake-Effect n (fully_active m k) destination_kind old_s old_d rs hs rd hd =
        grind (arith, move_to-Writes, source_rest-Change, next-Writes, paid-Effect)
    move_stake-Effect n (inactive m l f) destination_kind old_s old_d rs hs rd hd = tt
    move_stake-Effect n (activation_epoch_kind m k f) destination_kind old_s old_d rs hs rd hd = tt

module _ (rt : Runtime) (s : Store) where
  pub split-Effect :
      (accounts : List AccountInfo) (n : ℕ)
      → Post (Effect (take 2 accounts) accounts s) (process_split rt s accounts n)
  unfolding process_split
  split-Effect (source ∷ destination ∷ third ∷ []) n =
      let ls = listed_first source (destination ∷ []) in
      let ld = listed_second source destination [] in
      let lr = listed_second source destination (third ∷ []) in
      grind (arith, reads_uninitialized, split_state-Writes, close_if-Writes, paid-Effect)
  split-Effect (source ∷ destination ∷ third ∷ fourth ∷ rest) n = grind arith
  split-Effect (source ∷ destination ∷ []) n = grind arith
  split-Effect (source ∷ []) n = grind arith
  split-Effect [] n = grind arith

  pub withdraw-Effect :
      (accounts : List AccountInfo) (n : ℕ)
      → Post (Effect (take 1 accounts) accounts s) (process_withdraw rt s accounts n)
  unfolding process_withdraw
  withdraw-Effect (source ∷ destination ∷ clock_info ∷ history ∷ authority ∷ rest) n =
      let ls = listed_first source [] in
      let lr = listed_second source destination (clock_info ∷ history ∷ authority ∷ rest) in
      grind (arith, withdraw_from-Effect, withdraw_uninitialized-Effect)
  withdraw-Effect (source ∷ destination ∷ clock_info ∷ history ∷ []) n = tt
  withdraw-Effect (source ∷ destination ∷ clock_info ∷ []) n = tt
  withdraw-Effect (source ∷ destination ∷ []) n = tt
  withdraw-Effect (source ∷ []) n = tt
  withdraw-Effect [] n = tt

  pub merge-Effect :
      (accounts : List AccountInfo)
      → Post (Effect (take 2 accounts) accounts s) (process_merge rt s accounts)
  unfolding process_merge
  merge-Effect (dst ∷ src ∷ clock_info ∷ history_info ∷ rest) =
      let ld = listed_first dst (src ∷ []) in
      let ls = listed_second dst src [] in
      let lr = listed_first dst (src ∷ clock_info ∷ history_info ∷ rest) in
      grind (arith, merge-Change, store_merged-Writes, next-Writes, paid-Effect)
  merge-Effect _ = tt

  pub process_move_stake-Effect :
      (accounts : List AccountInfo) (n : ℕ)
      → Post (Effect (take 2 accounts) accounts s) (process_move_stake rt s accounts n)
  unfolding process_move_stake
  process_move_stake-Effect (source ∷ destination ∷ authority ∷ rest) n =
      let ls = listed_first source (destination ∷ []) in
      let ld = listed_second source destination [] in
      let lr = listed_second source destination (authority ∷ rest) in
      grind (arith, shared_checks-HasMeta, move_stake-Effect)
  process_move_stake-Effect (source ∷ destination ∷ []) n = tt
  process_move_stake-Effect (source ∷ []) n = tt
  process_move_stake-Effect [] n = tt

  pub process_move_lamports-Effect :
      (accounts : List AccountInfo) (n : ℕ)
      → Post (Effect (take 1 accounts) accounts s) (process_move_lamports rt s accounts n)
  unfolding process_move_lamports
  process_move_lamports-Effect (source ∷ destination ∷ authority ∷ rest) n =
      let ls = listed_first source [] in
      let lr = listed_second source destination (authority ∷ rest) in
      grind (arith, move_lamports-Effect)
  process_move_lamports-Effect (source ∷ destination ∷ []) n = tt
  process_move_lamports-Effect (source ∷ []) n = tt
  process_move_lamports-Effect [] n = tt
