-- ===== src/Effects.antt =====
-- What an instruction may do to the accounts, as `set_stake_state` and `relocate_lamports` of
-- program/src/helpers/utils.rs let it: the specification that every handler of
-- program/src/instruction/ is held against.
pub mod Authority
pub mod Lifecycle
pub mod Kinds
pub mod Transfers
pub mod Dispatch
pub mod Accounts
use pinocchio_stake_program.Base.{
  ℕ, ◌≡◌, ◌⊎◌, Bool, true, false, ◌||◌, ◌==◌, List, [], ◌∷◌, Result, ok, err, Post, at_end, Post-of,
  arith,
}
use pinocchio_stake_program.Types.{
  Pubkey, Meta, Stake, StakeFlags, StakeStateV2, uninitialized, initialized, staked, rewards_pool,
}
use pinocchio_stake_program.Runtime.{AccountInfo, Store}
use pinocchio_stake_program.Helpers.{get_stake_state, set_stake_state, relocate_lamports}

-- Whether a key is that of an account of the instruction.
unfoldable pub listed : List AccountInfo → Pubkey → Bool
listed [] k = false
listed (a ∷ accounts) k = a.key == k || listed accounts k

-- The first two accounts are listed.
pub listed_first : (a : AccountInfo) (rest : List AccountInfo) → listed (a ∷ rest) a.key ≡ true
unfolding listed
listed_first a rest = ground arith

pub listed_second :
    (a b : AccountInfo) (rest : List AccountInfo) → listed (a ∷ b ∷ rest) b.key ≡ true
unfolding listed
listed_second a b rest = ground arith

abbrev pub SameReserve : Meta → Meta → Type 0
SameReserve m m' = m'.rent_exempt_reserve ≡ m.rent_exempt_reserve

-- What may become an initialized state with the metadata `m'`: a new account, one whose
-- authorities or lockup change, or a stake that is moved away whole.
abbrev pub BecomesInitialized : StakeStateV2 → Meta → Type 0
BecomesInitialized uninitialized m' = Unit
BecomesInitialized (initialized m) m' = SameReserve m m'
BecomesInitialized (staked m k flags) m' = m' ≡ m
BecomesInitialized rewards_pool m' = ⊥

-- What may become a stake: a new account, an initialized one with its metadata as it is, or a
-- stake, of which the metadata change, or the delegation, and never both.
abbrev pub BecomesStaked : StakeStateV2 → Meta → Stake → StakeFlags → Type 0
BecomesStaked uninitialized m' k' flags' = Unit
BecomesStaked (initialized m) m' k' flags' = m' ≡ m
BecomesStaked (staked m k flags) m' k' flags' =
    (m' ≡ m) ⊎ (SameReserve m m' × (k' ≡ k) × (flags' ≡ flags))
BecomesStaked rewards_pool m' k' flags' = ⊥

-- The lifecycle of a stake account: which states one instruction may put in place of which. Any
-- account may be closed; nothing becomes a rewards pool.
abbrev pub Change : StakeStateV2 → StakeStateV2 → Type 0
Change old uninitialized = Unit
Change old (initialized m') = BecomesInitialized old m'
Change old (staked m' k' flags') = BecomesStaked old m' k' flags'
Change old rewards_pool = ⊥

-- The writes of an instruction, from the store `s` that it is given on: each is to an actor, an
-- account that the program owns and whose state in `s` may change to the one written.
pub data Writes (actors : List AccountInfo) (s : Store) : Store → Type 0 where
  unwritten : Writes actors s s
  write :
      {s1 s2 : Store} (ai : AccountInfo) (old new : StakeStateV2)
      → Writes actors s s1
      → listed actors ai.key ≡ true
      → get_stake_state s ai ≡ ok old
      → Change old new
      → set_stake_state s1 ai new ≡ ok s2
      → Writes actors s s2

-- The whole effect: writes, and then one payment at most, from a stake account among the actors to
-- a receiver.
pub data Effect (actors receivers : List AccountInfo) (s : Store) : Store → Type 0 where
  unpaid : {s1 : Store} → Writes actors s s1 → Effect actors receivers s s1
  paid :
      {s1 s2 : Store} (source destination : AccountInfo) (lamports : ℕ) (old : StakeStateV2)
      → Writes actors s s1
      → listed actors source.key ≡ true
      → listed receivers destination.key ≡ true
      → get_stake_state s source ≡ ok old
      → relocate_lamports s1 source destination lamports ≡ ok s2
      → Effect actors receivers s s2

-- The metadata of a state that has some are `m`.
abbrev pub HasMeta : StakeStateV2 → Meta → Type 0
HasMeta uninitialized m = ⊥
HasMeta (initialized m') m = m ≡ m'
HasMeta (staked m' k flags) m = m ≡ m'
HasMeta rewards_pool m = ⊥

module _ (actors : List AccountInfo) (s : Store) where
  -- A write behind others.
  pub next-Writes :
      (s1 : Store) (ai : AccountInfo) (old new : StakeStateV2)
      → Writes actors s s1
      → listed actors ai.key ≡ true
      → get_stake_state s ai ≡ ok old
      → Change old new
      → Post (Writes actors s) (set_stake_state s1 ai new)
  next-Writes s1 ai old new w l r c =
      at_end (Writes actors s) (set_stake_state s1 ai new) λ s2 e. write ai old new w l r c e

  pub first-Writes :
      (ai : AccountInfo) (old new : StakeStateV2)
      → listed actors ai.key ≡ true
      → get_stake_state s ai ≡ ok old
      → Change old new
      → Post (Writes actors s) (set_stake_state s ai new)
  first-Writes ai old new l r c = next-Writes s ai old new unwritten l r c

module _ (actors receivers : List AccountInfo) (s : Store) where
  -- The one write of most handlers.
  pub only-Effect :
      (ai : AccountInfo) (old new : StakeStateV2)
      → listed actors ai.key ≡ true
      → get_stake_state s ai ≡ ok old
      → Change old new
      → Post (Effect actors receivers s) (set_stake_state s ai new)
  only-Effect ai old new l r c =
      at_end (Effect actors receivers s) (set_stake_state s ai new)
        λ s2 e. unpaid (write ai old new unwritten l r c e)

  pub paid-Effect :
      (s1 : Store) (source destination : AccountInfo) (n : ℕ) (old : StakeStateV2)
      → Writes actors s s1
      → listed actors source.key ≡ true
      → listed receivers destination.key ≡ true
      → get_stake_state s source ≡ ok old
      → Post (Effect actors receivers s) (relocate_lamports s1 source destination n)
  paid-Effect s1 source destination n old w l l' r =
      at_end (Effect actors receivers s) (relocate_lamports s1 source destination n)
        λ s2 e. paid source destination n old w l l' r e

  pub unwritten-Effect : Effect actors receivers s s
  unwritten-Effect = unpaid unwritten

-- More actors allow more.
module _ (few many receivers : List AccountInfo) (s : Store)
    (more : (k : Pubkey) → listed few k ≡ true → listed many k ≡ true) where
  Writes-widen : {s1 : Store} → Writes few s s1 → Writes many s s1
  Writes-widen unwritten = unwritten
  Writes-widen (write ai old new w l r c e) =
      write ai old new (Writes-widen w) (more ai.key l) r c e

  pub Effect-widen : {s' : Store} → Effect few receivers s s' → Effect many receivers s s'
  Effect-widen (unpaid w) = unpaid (Writes-widen w)
  Effect-widen (paid source destination n old w l l' r e) =
      paid source destination n old (Writes-widen w) (more source.key l) l' r e
