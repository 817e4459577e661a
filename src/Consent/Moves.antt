-- ===== src/Consent/Moves.antt =====
-- Who signs merges and moves (program/src/instruction/merge_dedicated.rs, process_move_stake.rs,
-- move_lamports.rs).
use pinocchio_stake_program.Base.{
  ℕ, ◌≡◌, true, Bool, program, panicked, out_of_fuel, List, ◌∷◌, ok, err, Result, Post, arith,
  at_end, Post-of, Gives, Post-of,
}
use pinocchio_stake_program.Types.{
  Pubkey, Meta, StakeStateV2, uninitialized, initialized, staked, rewards_pool, Clock, contains,
}
use pinocchio_stake_program.Runtime.{AccountInfo, Store, Runtime, F64}
use pinocchio_stake_program.Merge.{MergeKind, kind_meta, get_if_mergeable, classify_loose}
use pinocchio_stake_program.History.{get_entry, History}
use pinocchio_stake_program.Helpers.{get_stake_state, collect_signers}
use pinocchio_stake_program.Instruction.MergeAccounts.{process_merge}
use pinocchio_stake_program.Instruction.MergeAccounts.Settle.{merge-Merged}
use pinocchio_stake_program.Instruction.Move.{
  process_move_stake, process_move_lamports, shared_checks, or_loose,
}
use pinocchio_stake_program.Effects.{HasMeta}
use pinocchio_stake_program.Effects.Kinds.{get_if_mergeable-HasMeta}
use pinocchio_stake_program.Consent.{StakerSigned, collected-Signed, Signed-here, Signed-behind}

-- A state has the metadata of one.
pub HasMeta-unique :
    (state : StakeStateV2) (m m' : Meta) → HasMeta state m → HasMeta state m' → m ≡ m'
HasMeta-unique (initialized a) m m' h h' = cc
HasMeta-unique (staked a k flags) m m' h h' = cc
HasMeta-unique uninitialized m m' h h' = absurd h
HasMeta-unique rewards_pool m m' h h' = absurd h

classify_loose-HasMeta :
    (state : StakeStateV2) (lamports : ℕ) (clock : Clock) {kind : MergeKind}
    → classify_loose state lamports clock ≡ ok kind
    → HasMeta state (kind_meta kind)
unfolding classify_loose
classify_loose-HasMeta (staked m k flags) lamports clock h = grind arith
classify_loose-HasMeta (initialized m) lamports clock h = grind arith
classify_loose-HasMeta uninitialized lamports clock h = cc
classify_loose-HasMeta rewards_pool lamports clock h = cc

or_loose-HasMeta :
    (r : Result MergeKind) (strict : Bool) (state : StakeStateV2) (lamports : ℕ) (clock : Clock)
    {kind : MergeKind}
    → ((k : MergeKind) → r ≡ ok k → HasMeta state (kind_meta k))
    → or_loose r strict state lamports clock ≡ ok kind
    → HasMeta state (kind_meta kind)
unfolding or_loose
or_loose-HasMeta (ok k) strict state lamports clock f h = f _ h
or_loose-HasMeta (err (program e)) strict state lamports clock f h =
    grind (arith, classify_loose-HasMeta)
or_loose-HasMeta (err panicked) strict state lamports clock f h = cc
or_loose-HasMeta (err out_of_fuel) strict state lamports clock f h = cc

pub classified-HasMeta :
    (f64 : F64) (history : History) (strict : Bool) (state : StakeStateV2) (lamports : ℕ)
    (clock : Clock) {kind : MergeKind}
    → or_loose (get_if_mergeable f64 history state lamports clock) strict state lamports clock
      ≡ ok kind
    → HasMeta state (kind_meta kind)
classified-HasMeta f64 history strict state lamports clock h =
    or_loose-HasMeta (get_if_mergeable f64 history state lamports clock) strict state lamports clock
      (λ k e. get_if_mergeable-HasMeta f64 history state lamports clock e) h

-- An account signed and is the staker of some metadata.
abbrev pub IsStaker : AccountInfo → Meta → Type 0
IsStaker authority m = (authority.is_signer ≡ true) × (m.authorized.staker ≡ authority.key)

pub third-Signed :
    (source destination authority : AccountInfo) (rest : List AccountInfo) (m : Meta)
    → IsStaker authority m
    → StakerSigned (source ∷ destination ∷ authority ∷ rest) m
third-Signed source destination authority rest m (a, e) = rw e (
    Signed-behind source (destination ∷ authority ∷ rest) authority.key
      (Signed-behind destination (authority ∷ rest) authority.key (Signed-here authority rest a)))

-- The shared checks of the moves: the third account signed and is the staker of the source.
IsMover : Store → AccountInfo → AccountInfo → MergeKind × MergeKind → Type 0
IsMover s source authority kinds =
    (authority.is_signer ≡ true)
    × ((kind_meta kinds.0).authorized.staker ≡ authority.key)
    × Gives (get_stake_state s source) (λ state. HasMeta state (kind_meta kinds.0))

shared_checks-IsMover :
    (rt : Runtime) (s : Store) (source destination authority : AccountInfo) (n : ℕ) (strict : Bool)
    → Post
        (IsMover s source authority)
        (shared_checks rt s source n destination authority true strict)
unfolding shared_checks IsMover
shared_checks-IsMover rt s source destination authority n strict = grind (arith, classified-HasMeta)

module _ (rt : Runtime) (s : Store) (source destination authority : AccountInfo) (m : Meta)
    (state : StakeStateV2) (r : get_stake_state s source ≡ ok state) (h : HasMeta state m) where
  IsMover-IsStaker :
      (kinds : MergeKind × MergeKind) → IsMover s source authority kinds → IsStaker authority m
  unfolding IsMover
  IsMover-IsStaker kinds (a, e, g) =
      let same = HasMeta-unique state m (kind_meta kinds.0) h in grind arith

  shared_checks-IsStaker :
      (n : ℕ) (strict : Bool)
      → Post
          (λ kinds. IsStaker authority m)
          (shared_checks rt s source n destination authority true strict)
  shared_checks-IsStaker n strict =
      at_end (λ kinds. IsStaker authority m)
        (shared_checks rt s source n destination authority true strict)
        λ kinds e. IsMover-IsStaker kinds (
          Post-of (IsMover s source authority)
            (shared_checks rt s source n destination authority true strict)
            (shared_checks-IsMover rt s source destination authority n strict) e)

  pub move_stake-Signed :
      (rest : List AccountInfo) (n : ℕ)
      → Post
          (λ s'. StakerSigned (source ∷ destination ∷ authority ∷ rest) m)
          (process_move_stake rt s (source ∷ destination ∷ authority ∷ rest) n)
  unfolding process_move_stake
  move_stake-Signed rest n = grind (arith, shared_checks-IsStaker, third-Signed)

  pub move_lamports-Signed :
      (rest : List AccountInfo) (n : ℕ)
      → Post
          (λ s'. StakerSigned (source ∷ destination ∷ authority ∷ rest) m)
          (process_move_lamports rt s (source ∷ destination ∷ authority ∷ rest) n)
  unfolding process_move_lamports
  move_lamports-Signed rest n = grind (arith, shared_checks-IsStaker, third-Signed)

module _ (rt : Runtime) (s : Store) (dst src clock_info history_info : AccountInfo)
    (rest : List AccountInfo) (m : Meta) (state : StakeStateV2) where
  signed_by_kind :
      (clock : Clock) (signers : List Pubkey) (kind : MergeKind)
      → HasMeta state m
      → collect_signers (dst ∷ src ∷ clock_info ∷ history_info ∷ rest) ≡ ok signers
      → get_if_mergeable rt.f64 (get_entry rt clock.epoch) state (s dst.key).lamports clock
        ≡ ok kind
      → contains signers (kind_meta kind).authorized.staker ≡ true
      → StakerSigned (dst ∷ src ∷ clock_info ∷ history_info ∷ rest) m
  signed_by_kind clock signers kind h c k e =
      let read =
        get_if_mergeable-HasMeta rt.f64 (get_entry rt clock.epoch) state (s dst.key).lamports clock
          k in
      let signed =
        collected-Signed (dst ∷ src ∷ clock_info ∷ history_info ∷ rest) signers
          (kind_meta kind).authorized.staker c e in
      rw (HasMeta-unique state m (kind_meta kind) h read) signed

  -- A merge needs the staker of the destination.
  pub merge-Signed :
      get_stake_state s dst ≡ ok state
      → HasMeta state m
      → Post
          (λ s'. StakerSigned (dst ∷ src ∷ clock_info ∷ history_info ∷ rest) m)
          (process_merge rt s (dst ∷ src ∷ clock_info ∷ history_info ∷ rest))
  merge-Signed r h =
      at_end (λ s'. StakerSigned (dst ∷ src ∷ clock_info ∷ history_info ∷ rest) m)
        (process_merge rt s (dst ∷ src ∷ clock_info ∷ history_info ∷ rest))
        λ s' e.
          let (ne, od, os, g) = merge-Merged rt s dst src clock_info history_info rest e in
          grind (arith, signed_by_kind)
