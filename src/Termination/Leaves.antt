-- ===== src/Termination/Leaves.antt =====
-- The helpers without loops on fuel (program/src/helpers/utils.rs) end.
use pinocchio_stake_program.Base.{
  ◌≤◌, length, ℕ, ◌+◌, ◌<◌, List, [], ◌∷◌, Option, arith, Halts, Answers, none, some, take, ◌≡◌,
  refl, Post, Bool,
}
use pinocchio_stake_program.Types.{
  Pubkey, StakeStateV2, check, Authorized, StakeAuthorize, Clock, u64_mod, Meta, Fits, staker_role,
  withdrawer_role,
}
use pinocchio_stake_program.Runtime.{AccountInfo, Account, Store, Runtime}
use pinocchio_stake_program.Base.Bytes.{le_value}
use pinocchio_stake_program.History.{
  get_entry, read_entry, decode_entry, entry_offset, entry_of, get_sysvar, stake_history_id,
}
use pinocchio_stake_program.Lockup.{authorize_update}
use pinocchio_stake_program.Codec.Halts.{deserialize-Halts, serialize-Halts}
use pinocchio_stake_program.Codec.Widths.{AreBytes, deserialize-Fits}
use pinocchio_stake_program.Helpers.{
  get_stake_state, set_stake_state, relocate_lamports, collect_signers, collect_from,
  validate_split_amount, get_vote_credits,
}

-- At a current epoch, which is a `u64`, the stake history sysvar has entries for the epochs that it
-- is asked for.
pub record IsCurrent (rt : Runtime) (epoch : ℕ) : Type 0 where
  pub epoch_fits : epoch < u64_mod
  pub entries :
      (target offset : ℕ)
      → entry_offset epoch target ≡ some offset
      → (rt.sol_get_sysvar stake_history_id offset 32).0 ≡ 0
      → le_value (take 8 (rt.sol_get_sysvar stake_history_id offset 32).1) ≡ target

-- Each of the runtime's readers answers or fails, and a clock has a current epoch.
pub record IsAnswering (rt : Runtime) : Type 0 where
  pub clock : Answers (λ (c : Clock). IsCurrent rt c.epoch) rt.clock_get
  pub clock_info :
      (ai : AccountInfo) (a : Account)
      → Answers (λ (c : Clock). IsCurrent rt c.epoch) (rt.clock_from_account_info ai a)
  pub clock_unchecked :
      (ai : AccountInfo) (a : Account)
      → Answers (λ (c : Clock). IsCurrent rt c.epoch) (rt.clock_from_account_info_unchecked ai a)
  pub rent : Halts rt.rent_get
  pub rent_info : (ai : AccountInfo) (a : Account) → Halts (rt.rent_from_account_info ai a)
  -- The struct that the payload of `SetLockup` is cast to is in memory if the payload has its size.
  pub layout : (payload : List ℕ) → 72 ≤ length payload → Halts (rt.set_lockup_layout payload)

decode_entry-Halts :
    (target : ℕ) (buf : List ℕ) → le_value (take 8 buf) ≡ target → Halts (decode_entry target buf)
unfolding decode_entry
decode_entry-Halts target buf h = ground arith

read_entry-Halts :
    (rt : Runtime) (epoch target : ℕ) (o : Option ℕ)
    → IsCurrent rt epoch
    → entry_offset epoch target ≡ o
    → Halts (read_entry rt target o)
unfolding read_entry get_sysvar entry_of
read_entry-Halts rt epoch target none now h = tt
read_entry-Halts rt epoch target (some offset) now h =
    let entry = now.entries target offset h in grind (arith, decode_entry-Halts)

-- Then the assertion of `get_entry` holds.
pub get_entry-Halts :
    (rt : Runtime) (epoch : ℕ)
    → IsCurrent rt epoch
    → (target : ℕ) → Halts (get_entry rt epoch target)
unfolding get_entry
get_entry-Halts rt epoch now target =
    read_entry-Halts rt epoch target (entry_offset epoch target) now refl

module _ (s : Store) where
  pub get_stake_state-Halts : (ai : AccountInfo) → Halts (get_stake_state s ai)
  unfolding get_stake_state
  get_stake_state-Halts ai = grind (arith, deserialize-Halts)

  -- A state that is read from bytes fits the widths of its fields.
  pub get_stake_state-Fits :
      (ai : AccountInfo) → AreBytes (s ai.key).bytes → Post Fits (get_stake_state s ai)
  unfolding get_stake_state
  get_stake_state-Fits ai h = grind (arith, deserialize-Fits)

  pub set_stake_state-Halts :
      (ai : AccountInfo) (state : StakeStateV2) → Halts (set_stake_state s ai state)
  unfolding set_stake_state
  set_stake_state-Halts ai state = grind (arith, serialize-Halts)

  pub relocate_lamports-Halts :
      (source destination : AccountInfo) (n : ℕ) → Halts (relocate_lamports s source destination n)
  unfolding relocate_lamports
  relocate_lamports-Halts source destination n = grind arith

  pub get_vote_credits-Halts : (vote : AccountInfo) → Halts (get_vote_credits s vote)
  unfolding get_vote_credits
  get_vote_credits-Halts vote = ground arith

collect_from-Halts : (n : ℕ) (accounts : List AccountInfo) → Halts (collect_from n accounts)
unfolding collect_from
collect_from-Halts n [] = tt
collect_from-Halts n (a ∷ accounts) =
    let same = collect_from-Halts n accounts in
    let more = collect_from-Halts (n + 1) accounts in grind arith

pub collect_signers-Halts : (accounts : List AccountInfo) → Halts (collect_signers accounts)
unfolding collect_signers
collect_signers-Halts accounts = collect_from-Halts 0 accounts

pub check-Halts :
    (a : Authorized) (signers : List Pubkey) (role : StakeAuthorize) → Halts (check a signers role)
unfolding check
check-Halts a signers role = ground arith

pub authorize_update-Halts :
    (m : Meta) (new : Pubkey) (role : StakeAuthorize) (signers : List Pubkey)
    (custodian : Option AccountInfo) (clock : Clock)
    → Halts (authorize_update m new role signers custodian clock)
unfolding authorize_update
authorize_update-Halts m new staker_role signers custodian clock = ground arith
authorize_update-Halts m new withdrawer_role signers custodian clock = ground arith

pub validate_split_amount-Halts :
    (rt : Runtime)
    → IsAnswering rt
    → (a b n : ℕ) (m : Meta) (len more : ℕ) (active : Bool)
    → Halts (validate_split_amount rt a b n m len more active)
unfolding validate_split_amount
validate_split_amount-Halts rt h a b n m len more active = let answer = h.rent in grind arith
