-- ===== src/Instruction/MergeAccounts/Settle.antt =====
-- A merge of two accounts (program/src/instruction/merge_dedicated.rs): who signs, and what the two
-- accounts are left with.
use pinocchio_stake_program.Base.{
  ℕ, ◌+◌, ◌≡◌, ◌≢◌, ◌<◌, true, Option, none, some, List, ◌∷◌, ok, Post, Post-of, Gives, arith, ◌∙◌,
  ap, refl, at_end,
}
use pinocchio_stake_program.Types.{StakeStateV2, uninitialized, contains, id, u64_mod}
use pinocchio_stake_program.Codec.{deserialize, serialize}
use pinocchio_stake_program.Runtime.{AccountInfo, Store, Runtime}
use pinocchio_stake_program.History.{get_entry}
use pinocchio_stake_program.Merge.{kind_meta, get_if_mergeable, metas_can_merge, merge}
use pinocchio_stake_program.Helpers.{
  get_stake_state, set_stake_state, collect_signers, relocate_lamports,
}
use pinocchio_stake_program.Helpers.State.{
  set_stake_state-same, deserialize-set_stake_state, set_stake_state-serialize,
}
use pinocchio_stake_program.Helpers.Lamports.{relocate_lamports-IsRelocated}
use pinocchio_stake_program.Helpers.Moves.{
  SameLamports, SameLamports-refl, set_stake_state-SameLamports,
}
use pinocchio_stake_program.Instruction.MergeAccounts.{store_merged, process_merge}

-- The source is closed: its lamports are the destination's, and its bytes are an uninitialized
-- state; the destination's bytes are `bytes`.
pub record IsClosed (s s' : Store) (bytes : List ℕ) (src dst : ℕ) : Type 0 where
  pub source_empty : (s' src).lamports ≡ 0
  pub destination_sum : (s' dst).lamports ≡ (s dst).lamports + (s src).lamports
  pub fits : (s' dst).lamports < u64_mod
  pub source_uninitialized : deserialize (s' src).bytes ≡ ok uninitialized
  pub destination_bytes : (s' dst).bytes ≡ bytes

module _ (s s1 s2 s' : Store) (src dst : AccountInfo) where
  close-IsClosed :
      SameLamports s s1
      → dst.key ≢ src.key
      → set_stake_state s1 src uninitialized ≡ ok s2
      → relocate_lamports s2 src dst (s2 src.key).lamports ≡ ok s'
      → IsClosed s s' (s1 dst.key).bytes src.key dst.key
  close-IsClosed same ne w m =
      let written = set_stake_state-same s1 src uninitialized w in
      let gone = relocate_lamports-IsRelocated s2 src dst (s2 src.key).lamports m in
      let stored = deserialize-set_stake_state s1 src uninitialized tt w in
      let from = gone.source_left in
      let to = gone.destination_grown in
      let bound = gone.fits in
      let a1 = written.lamports_kept src.key in
      let a2 = written.lamports_kept dst.key in
      let b1 = same.lamports_same src.key in
      let b2 = same.lamports_same dst.key in
      record {
        source_empty = ground arith;
        destination_sum = ground arith;
        fits = bound;
        source_uninitialized = rw (gone.bytes_kept src.key) stored;
        destination_bytes =
            gone.bytes_kept dst.key ∙ ap (λ a. a.bytes) (written.others_kept dst.key ne);
      }

pub store_merged-same :
    (s : Store) (dst : AccountInfo) (merged : Option StakeStateV2)
    → Post (SameLamports s) (store_merged s dst merged)
unfolding store_merged
store_merged-same s dst none = SameLamports-refl s
store_merged-same s dst (some state) =
    set_stake_state-SameLamports s s (SameLamports-refl s) dst state

-- The bytes that hold the merged state, or the old ones where the merge leaves the state alone.
abbrev pub HoldsMerged : List ℕ → Option StakeStateV2 → List ℕ → Type 0
HoldsMerged old none bytes = bytes ≡ old
HoldsMerged old (some state) bytes = serialize state old ≡ ok bytes

store_merged-HoldsMerged :
    (s : Store) (dst : AccountInfo) (merged : Option StakeStateV2)
    → Post
        (λ s1. HoldsMerged (s dst.key).bytes merged (s1 dst.key).bytes)
        (store_merged s dst merged)
unfolding store_merged
store_merged-HoldsMerged s dst none = refl
store_merged-HoldsMerged s dst (some state) =
    at_end (λ s1. HoldsMerged (s dst.key).bytes (some state) (s1 dst.key).bytes)
      (set_stake_state s dst state) λ s1 e. set_stake_state-serialize s dst state e

module _ (rt : Runtime) (s : Store) (dst src clock_info history : AccountInfo) where
  module _ (rest : List AccountInfo) where
    abbrev pub merge_accounts : List AccountInfo
    merge_accounts = dst ∷ src ∷ clock_info ∷ history ∷ rest

    -- Both accounts are of the program and differ; at the clock's time both have a kind, the
    -- destination's staker signed, their metadata can merge, and the merged state, if there is one,
    -- is in the destination's bytes.
    abbrev pub Merged : Store → Type 0
    Merged s' =
        (dst.key ≢ src.key)
        × ((s dst.key).owner ≡ id)
        × ((s src.key).owner ≡ id)
        × Gives (rt.clock_from_account_info clock_info (s clock_info.key)) λ clock.
          Gives (collect_signers merge_accounts) λ signers.
            Gives (get_stake_state s dst) λ dst_state. Gives (get_stake_state s src) λ src_state.
              Gives
                (get_if_mergeable rt.f64 (get_entry rt clock.epoch) dst_state (s dst.key).lamports
                  clock)
                λ dst_kind.
                  Gives
                    (get_if_mergeable rt.f64 (get_entry rt clock.epoch) src_state
                      (s src.key).lamports clock)
                    λ src_kind.
                      (contains signers (kind_meta dst_kind).authorized.staker ≡ true)
                      × (metas_can_merge (kind_meta dst_kind) (kind_meta src_kind) clock ≡ ok tt)
                      × Gives (merge dst_kind src_kind) λ merged.
                        Gives (store_merged s dst merged) λ s1.
                          HoldsMerged (s dst.key).bytes merged (s1 dst.key).bytes
                          × IsClosed s s' (s1 dst.key).bytes src.key dst.key

    merge-Post : Post Merged (process_merge rt s merge_accounts)
    unfolding process_merge
    merge-Post = grind (arith, store_merged-same, store_merged-HoldsMerged, close-IsClosed)

    -- A merge that succeeds is of two accounts of the program that differ, of which the
    -- destination's staker signed, whose kinds merge and whose metadata agree. All the source's
    -- lamports are the destination's then, within 64 bits; the source is left with none and
    -- uninitialized, and the destination's bytes are what the merged state is serialized to, or the
    -- old ones where the merge leaves the destination's state alone.
    pub merge-Merged : {s' : Store} → process_merge rt s merge_accounts ≡ ok s' → Merged s'
    merge-Merged h = Post-of Merged (process_merge rt s merge_accounts) merge-Post h
