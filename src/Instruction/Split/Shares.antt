-- ===== src/Instruction/Split/Shares.antt =====
-- A split (program/src/instruction/split.rs): who signs, and how the stake is shared out.
use pinocchio_stake_program.Base.{
  ℕ, ◌+◌, ◌-◌, ◌≡◌, ◌<◌, ◌≤◌, ◌⊎◌, Bool, true, false, List, [], ◌∷◌, Result, ok, err, Post, Post-of,
  Gives, arith, refl, ◌≢◌, replicate, length, ltb, ◌==◌,
}
use pinocchio_stake_program.Types.{
  Pubkey, Meta, Stake, StakeStateV2, uninitialized, initialized, staked, rewards_pool, contains,
  check, required_key, id, StakeFlags, default_pubkey, maximum_signers,
}
use pinocchio_stake_program.Codec.{deserialize}
use pinocchio_stake_program.Runtime.{AccountInfo, Store, Runtime}
use pinocchio_stake_program.History.{get_entry}
use pinocchio_stake_program.Delegation.{
  stake_activating_and_deactivating, perpetual_new_warmup_cooldown_rate_epoch, split,
  saturating_add,
}
use pinocchio_stake_program.Merge.{set_stake_amount}
use pinocchio_stake_program.Helpers.{
  get_stake_state, set_stake_state, collect_signers, get_minimum_delegation, validate_split_amount,
  ValidatedSplitInfo,
}
use pinocchio_stake_program.Helpers.Signers.{contains-++, contains-replicate}
use pinocchio_stake_program.Helpers.Lamports.{IsRelocated, relocate_lamports-IsRelocated}
use pinocchio_stake_program.Instruction.Split.{
  require_uninitialized, split_amounts, store_split, split_state, close_if, padded, process_split,
}

-- The two stakes that `k` is split into, when `n` of `balance` lamports go to a destination that
-- has `received` of its own: both keep the rest of the delegation; together they have no more
-- stake than `k`, and the new one at least the minimum. If lamports stay behind the old one has
-- the minimum too, and the destination's lamports cover its reserve and its stake.
pub record IsShared (k : Stake) (n balance received reserve : ℕ) (k1 k2 : Stake) : Type 0 where
  pub source_kept : k1 ≡ set_stake_amount k k1.delegation.stake
  pub destination_kept : k2 ≡ set_stake_amount k k2.delegation.stake
  pub conserved : k1.delegation.stake + k2.delegation.stake ≤ k.delegation.stake
  pub minimum : get_minimum_delegation ≤ k2.delegation.stake
  pub backed :
      (n ≡ balance)
      ⊎ ((get_minimum_delegation ≤ k1.delegation.stake)
          × (reserve + k2.delegation.stake ≤ received + n))

module _ (rt : Runtime) (m : Meta) (n balance received len : ℕ) where
  -- What the validation of an amount leaves true of it.
  pub validate_split_amount-info :
      (extra : ℕ) (active : Bool) {info : ValidatedSplitInfo}
      → validate_split_amount rt balance received n m len extra active ≡ ok info
      → (0 < n)
        × (n ≤ balance)
        × (info.source_remaining_balance ≡ balance - n)
        × Gives rt.rent_get
            (λ rent. info.destination_rent_exempt_reserve ≡ rent.minimum_balance len)
        × ((n ≡ balance)
            ⊎ (saturating_add m.rent_exempt_reserve extra ≤ info.source_remaining_balance))
  unfolding validate_split_amount
  validate_split_amount-info extra active h = grind arith

module _ (m : Meta) (k : Stake) (n balance received : ℕ) (info : ValidatedSplitInfo) where
  split-IsShared :
      n ≤ balance
      → info.source_remaining_balance ≡ balance - n
      → (delta amount : ℕ) {k1 k2 : Stake} → split_amounts n received m k info ≡ ok (delta, amount)
      → ltb amount get_minimum_delegation ≡ false
      → split k delta amount ≡ ok (k1, k2)
      → IsShared k n balance received info.destination_rent_exempt_reserve k1 k2
  unfolding split_amounts split
  split-IsShared le e delta amount a b c = record {
    source_kept = ground arith;
    destination_kept = ground arith;
    conserved = ground arith;
    minimum = ground arith;
    backed = ground arith;
  }

module _ (rt : Runtime) (m : Meta) (k : Stake) (n balance received len extra : ℕ) where
  validated-IsShared :
      (active : Bool) {info : ValidatedSplitInfo} {amounts : ℕ × ℕ} {stakes : Stake × Stake}
      → validate_split_amount rt balance received n m len extra active ≡ ok info
      → split_amounts n received m k info ≡ ok amounts
      → ltb amounts.1 get_minimum_delegation ≡ false
      → split k amounts.0 amounts.1 ≡ ok stakes
      → IsShared k n balance received info.destination_rent_exempt_reserve stakes.0 stakes.1
  validated-IsShared active {info} {amounts} v a b c =
      let (positive, le, e, rent, rest) =
        validate_split_amount-info rt m n balance received len extra active v in
      split-IsShared m k n balance received info le e amounts.0 amounts.1 a b c

-- Who signed for a split: the staker; or nobody, where the staker's key is the default one and
-- fewer than 32 accounts signed.
abbrev pub MaySplit : List Pubkey → Meta → Type 0
MaySplit signers m =
    (contains signers m.authorized.staker ≡ true)
    ⊎ ((m.authorized.staker ≡ default_pubkey) × (length signers < maximum_signers))

padded-MaySplit :
    (signers : List Pubkey) (m : Meta)
    → contains (padded signers) m.authorized.staker ≡ true
    → MaySplit signers m
unfolding padded
padded-MaySplit signers m h =
    let k = m.authorized.staker in
    let room = maximum_signers - length signers in
    let parts = contains-++ signers (replicate room default_pubkey) k in
    let rest = contains-replicate room default_pubkey k in ground arith

-- The writes of a split stake: its two parts, with the source's metadata and flags; the new
-- account's reserve is its own.
abbrev pub StoresParts :
    Store → AccountInfo → AccountInfo → Meta → ℕ → StakeFlags → Stake → Stake → Store → Type 0
StoresParts s source destination m reserve flags k1 k2 s1 =
    Gives (set_stake_state s source (staked m k1 flags)) λ s0.
      set_stake_state s0 destination (staked (record m { rent_exempt_reserve = reserve }) k2 flags)
      ≡ ok s1

store_split-StoresParts :
    (s : Store) (source destination : AccountInfo) (m : Meta) (reserve : ℕ) (flags : StakeFlags)
    (k1 k2 : Stake) {s1 : Store}
    → store_split s source destination m reserve flags (k1, k2) ≡ ok s1
    → StoresParts s source destination m reserve flags k1 k2 s1
unfolding store_split
store_split-StoresParts s source destination m reserve flags k1 k2 h = grind arith

-- A source from which all its lamports go becomes uninitialized, and no other one.
abbrev pub Closes : Store → AccountInfo → ℕ → ℕ → Store → Type 0
Closes s1 source n balance s2 =
    ((n ≡ balance) × (set_stake_state s1 source uninitialized ≡ ok s2))
    ⊎ ((n ≢ balance) × (s2 ≡ s1))

close_if-Closes :
    (s1 : Store) (source : AccountInfo) (n balance : ℕ) {s2 : Store}
    → close_if s1 source (n == balance) ≡ ok s2
    → Closes s1 source n balance s2
unfolding close_if
close_if-Closes s1 source n balance h = ground arith

-- What a split of `n` lamports needs of the source's state, and the store that it leads to before
-- the lamports go.
abbrev pub Splits :
    Runtime
    → Store
    → AccountInfo
    → AccountInfo
    → ℕ
    → ℕ
    → List Pubkey
    → StakeStateV2
    → Store
    → Type 0
Splits rt s source destination n epoch signers (staked m k flags) s1 =
    let balance = (s source.key).lamports in
    let received = (s destination.key).lamports in
    MaySplit signers m
    × Gives
        (stake_activating_and_deactivating rt.f64 (get_entry rt epoch)
          perpetual_new_warmup_cooldown_rate_epoch k.delegation epoch)
        λ status.
          Gives
            (validate_split_amount rt balance received n m (length (s destination.key).bytes)
              get_minimum_delegation (ltb 0 status.effective))
            λ info. Gives (split_amounts n received m k info) λ (delta, amount).
              Gives (split k delta amount) λ (k1, k2).
                IsShared k n balance received info.destination_rent_exempt_reserve k1 k2
                × StoresParts s source destination m info.destination_rent_exempt_reserve flags k1
                    k2 s1
Splits rt s source destination n epoch signers (initialized m) s1 =
    MaySplit signers m
    × Gives
        (validate_split_amount rt (s source.key).lamports (s destination.key).lamports n m
          (length (s destination.key).bytes) 0 false)
        λ info.
          set_stake_state s destination
            (initialized (record m { rent_exempt_reserve = info.destination_rent_exempt_reserve }))
          ≡ ok s1
Splits rt s source destination n epoch signers uninitialized s1 =
    (source.is_signer ≡ true) × (s1 ≡ s)
Splits rt s source destination n epoch signers rewards_pool s1 = ⊥

module _ (rt : Runtime) (s : Store) (source destination : AccountInfo) (n epoch : ℕ) where
  split_state-Splits :
      (signers : List Pubkey) (state : StakeStateV2)
      → Post
          (Splits rt s source destination n epoch signers state)
          (split_state rt s source destination n epoch (padded signers) state)
  unfolding split_state check required_key
  split_state-Splits signers (staked m k flags) =
      grind (arith, padded-MaySplit, validated-IsShared, store_split-StoresParts)
  split_state-Splits signers (initialized m) = grind (arith, padded-MaySplit)
  split_state-Splits signers uninitialized = grind arith
  split_state-Splits signers rewards_pool = tt

require_uninitialized-eq :
    (r : Result StakeStateV2) → require_uninitialized r ≡ ok tt → r ≡ ok uninitialized
unfolding require_uninitialized
require_uninitialized-eq (ok uninitialized) h = refl
require_uninitialized-eq (ok (initialized m)) h = cc
require_uninitialized-eq (ok (staked m k flags)) h = cc
require_uninitialized-eq (ok rewards_pool) h = cc
require_uninitialized-eq (err e) h = cc

module _ (rt : Runtime) (s : Store) (source destination third : AccountInfo) (n : ℕ) where
  abbrev pub split_list : List AccountInfo
  split_list = source ∷ destination ∷ third ∷ []

  -- The source's state splits for the accounts that signed, as long as the default key counts as a
  -- signer where fewer than 32 signed, into an uninitialized account; if nothing stays behind the
  -- source is closed; and the lamports go.
  abbrev pub SplitBy : Store → Type 0
  SplitBy s' =
      ((s source.key).owner ≡ id)
      × ((s destination.key).owner ≡ id)
      × (deserialize (s destination.key).bytes ≡ ok uninitialized)
      × Gives rt.clock_get λ clock. Gives (collect_signers split_list) λ signers.
        Gives (get_stake_state s source) λ state.
          Gives (split_state rt s source destination n clock.epoch (padded signers) state) λ s1.
            Splits rt s source destination n clock.epoch signers state s1
            × Gives (close_if s1 source (n == (s source.key).lamports)) λ s2.
              Closes s1 source n (s source.key).lamports s2
              × IsRelocated s2 s' source.key destination.key n

  split-Post : Post SplitBy (process_split rt s split_list n)
  unfolding process_split
  split-Post = grind (
    arith, split_state-Splits, require_uninitialized-eq, close_if-Closes,
    relocate_lamports-IsRelocated,
  )

  -- A split that succeeds is between two accounts of the program, of which the destination is
  -- uninitialized. The staker of an initialized or delegated source signed, or has the default key
  -- while fewer than 32 accounts signed; an uninitialized source signed itself. A stake is shared
  -- out so that no stake is made, the new stake has the minimum, and, if lamports stay behind, so
  -- has the old one, and the destination can pay for its reserve and its stake; each account stores
  -- its part. A source from which all lamports go is closed, and exactly the lamports of the
  -- instruction go.
  pub split-SplitBy : {s' : Store} → process_split rt s split_list n ≡ ok s' → SplitBy s'
  split-SplitBy h = Post-of SplitBy (process_split rt s split_list n) split-Post h
