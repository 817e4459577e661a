-- ===== src/Types.antt =====
-- The data of the stake accounts: program/src/error.rs, helpers/constant.rs, state/accounts.rs,
-- state/state.rs, state/delegation.rs, state/stake_flag.rs, state/stake_state_v2.rs.
-- A `Pubkey` is the number of its 32 little-endian bytes, a `[u8; 8]` the number of its 8.
use Prim.Native.Nat.{bit_or}
use pinocchio_stake_program.Base.{
  ℕ, Bool, ProgramError, custom, missing_required_signature, insufficient_funds, Result, fail, ok,
  ◌<◌, ◌==◌, ◌&&◌, ◌||◌, if◌then◌else◌, List, Option, [], ◌∷◌, false,
}
use pinocchio_stake_program.Base.Int.{ℤ, pos, eqb_ℤ, IsI64}

abbrev pub Pubkey : Type 0
Pubkey = ℕ

abbrev pub u64_max : ℕ
u64_max = 18446744073709551615

abbrev pub u64_mod : ℕ
u64_mod = 18446744073709551616

abbrev pub pubkey_mod : ℕ
pubkey_mod = 115792089237316195423570985008687907853269984665640564039457584007913129639936

-- `crate::ID`, and the id of the vote program.
abbrev pub id : Pubkey
id = 20284810245960997200163847131242761598658440775375196312154968465670

abbrev pub vote_program_id : Pubkey
vote_program_id = 13514379571828717336421809819150954645158270247725893632422060777735

abbrev pub default_pubkey : Pubkey
default_pubkey = 0

abbrev pub maximum_signers : ℕ
maximum_signers = 32

abbrev pub lamports_per_sol : ℕ
lamports_per_sol = 1000000000

abbrev pub minimum_delinquent_epochs_for_deactivation : ℕ
minimum_delinquent_epochs_for_deactivation = 5

-- The `f64` constants 0.25 and 0.09 as their bit patterns.
abbrev pub default_warmup_cooldown_rate : ℕ
default_warmup_cooldown_rate = 0x3fd0000000000000

abbrev pub new_warmup_cooldown_rate : ℕ
new_warmup_cooldown_rate = 0x3fb70a3d70a3d70a

pub data StakeError : Type 0 where
  invalid_authorization : StakeError
  insufficient_stake_funds : StakeError
  insufficient_stake : StakeError
  already_deactivated : StakeError
  insufficient_delegation : StakeError
  vote_address_mismatch : StakeError
  merge_mismatch : StakeError
  lockup_in_force : StakeError
  insufficient_reference_votes : StakeError
  minimum_delinquent_epochs_for_deactivation_not_met : StakeError
  too_soon_to_redelegate : StakeError
  epoch_rewards_active : StakeError

abbrev pub to_program_error : StakeError → ProgramError
to_program_error invalid_authorization = missing_required_signature
to_program_error insufficient_stake_funds = insufficient_funds
to_program_error insufficient_stake = custom 0x10
to_program_error already_deactivated = custom 0x11
to_program_error insufficient_delegation = custom 0x12
to_program_error vote_address_mismatch = custom 0x13
to_program_error merge_mismatch = custom 0x14
to_program_error lockup_in_force = custom 0x15
to_program_error insufficient_reference_votes = custom 0x16
to_program_error minimum_delinquent_epochs_for_deactivation_not_met = custom 0x17
to_program_error too_soon_to_redelegate = custom 0x18
to_program_error epoch_rewards_active = custom 0x19

pub data StakeAuthorize : Type 0 where
  staker_role : StakeAuthorize
  withdrawer_role : StakeAuthorize

pub record Authorized : Type 0 where
  pub staker : Pubkey
  pub withdrawer : Pubkey

pub record Lockup : Type 0 where
  pub unix_timestamp : ℤ
  pub epoch : ℕ
  pub custodian : Pubkey

pub record Meta : Type 0 where
  pub rent_exempt_reserve : ℕ
  pub authorized : Authorized
  pub lockup : Lockup

pub record Delegation : Type 0 where
  pub voter_pubkey : Pubkey
  pub stake : ℕ
  pub activation_epoch : ℕ
  pub deactivation_epoch : ℕ
  pub warmup_cooldown_rate : ℕ

pub record Stake : Type 0 where
  pub delegation : Delegation
  pub credits_observed : ℕ

pub record StakeFlags : Type 0 where
  pub bits : ℕ

-- The variants of `StakeStateV2`; `staked` is its variant `Stake`.
pub data StakeStateV2 : Type 0 where
  uninitialized : StakeStateV2
  initialized : Meta → StakeStateV2
  staked : Meta → Stake → StakeFlags → StakeStateV2
  rewards_pool : StakeStateV2

-- The fields of the `Clock` sysvar that the program reads.
pub record Clock : Type 0 where
  pub epoch : ℕ
  pub unix_timestamp : ℤ

-- `SetLockupData` of state/accounts.rs.
pub record SetLockupData : Type 0 where
  pub unix_timestamp : Option ℤ
  pub epoch : Option ℕ
  pub custodian : Option Pubkey

abbrev pub empty_flags : StakeFlags
empty_flags = record { bits = 0 }

abbrev pub union : StakeFlags → StakeFlags → StakeFlags
union a b = record { bits = bit_or a.bits b.bits }

abbrev pub default_lockup : Lockup
default_lockup = record { unix_timestamp = pos 0; epoch = 0; custodian = default_pubkey }

-- `PartialEq` of the two structs that the program compares whole.
abbrev pub authorized_eq : Authorized → Authorized → Bool
authorized_eq a b = a.staker == b.staker && a.withdrawer == b.withdrawer

abbrev pub lockup_eq : Lockup → Lockup → Bool
lockup_eq a b =
    eqb_ℤ a.unix_timestamp b.unix_timestamp && a.epoch == b.epoch && a.custodian == b.custodian

-- Every word fits its width: what the fields' machine types say.
pub record MetaFits (m : Meta) : Type 0 where
  pub rent_exempt_reserve_fits : m.rent_exempt_reserve < u64_mod
  pub staker_fits : m.authorized.staker < pubkey_mod
  pub withdrawer_fits : m.authorized.withdrawer < pubkey_mod
  pub unix_timestamp_fits : IsI64 m.lockup.unix_timestamp
  pub epoch_fits : m.lockup.epoch < u64_mod
  pub custodian_fits : m.lockup.custodian < pubkey_mod

pub record StakeFits (k : Stake) : Type 0 where
  pub voter_pubkey_fits : k.delegation.voter_pubkey < pubkey_mod
  pub stake_fits : k.delegation.stake < u64_mod
  pub activation_epoch_fits : k.delegation.activation_epoch < u64_mod
  pub deactivation_epoch_fits : k.delegation.deactivation_epoch < u64_mod
  pub warmup_cooldown_rate_fits : k.delegation.warmup_cooldown_rate < u64_mod
  pub credits_observed_fits : k.credits_observed < u64_mod

abbrev pub Fits : StakeStateV2 → Type 0
Fits uninitialized = Unit
Fits (initialized m) = MetaFits m
Fits (staked m k f) = MetaFits m × StakeFits k × (f.bits < 256)
Fits rewards_pool = Unit

-- `signers.contains(key)`, `signers.iter().any(|s| s == key)`
unfoldable pub contains : List Pubkey → Pubkey → Bool
contains [] k = false
contains (s ∷ signers) k = s == k || contains signers k

unfoldable pub required_key : Authorized → StakeAuthorize → Pubkey
required_key a staker_role = a.staker
required_key a withdrawer_role = a.withdrawer

-- `Authorized::check`, with the `map_err(to_program_error)` that each caller adds.
unfoldable pub check : Authorized → List Pubkey → StakeAuthorize → Result (Unit {0})
unfolding required_key
check a signers role =
    if contains signers (required_key a role)
    then ok tt
    else fail (to_program_error invalid_authorization)

-- The metadata of a state that has some, and the state with other metadata.
abbrev pub OfMeta : StakeStateV2 → (Meta → Type 0) → Type 0
OfMeta (initialized m) P = P m
OfMeta (staked m k flags) P = P m
OfMeta uninitialized P = ⊥
OfMeta rewards_pool P = ⊥

abbrev pub with_meta : StakeStateV2 → Meta → StakeStateV2
with_meta (initialized m) m' = initialized m'
with_meta (staked m k flags) m' = staked m' k flags
with_meta uninitialized m' = uninitialized
with_meta rewards_pool m' = rewards_pool
