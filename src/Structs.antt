-- ===== src/Structs.antt =====
-- The structs of program/src/state/ in memory: the size and the alignment that `repr(C)` gives each
-- on a 64-bit target, and the argument structs of state/accounts.rs, whose sizes are those of the
-- payloads. No handler makes a value of an argument struct.
pub mod Sizes
pub mod Raw
use pinocchio_stake_program.Base.{ℕ, ◌+◌, ◌-◌, ◌*◌, ◌/◌, max, List, [], ◌∷◌}
use pinocchio_stake_program.Types.{Pubkey, Authorized, Delegation, Lockup, StakeAuthorize}
use pinocchio_stake_program.Casts.{PlainDelegation}

pub record Layout : Type 0 where
  pub size : ℕ
  pub align : ℕ

-- `u8` and the `repr(u8)` enums, `u64`, `i64` and `f64`, `[u8; 8]`, `Pubkey`, a slice's address and
-- length, and the tag of a `repr(C)` enum.
abbrev pub byte : Layout
byte = record { size = 1; align = 1 }

abbrev pub word : Layout
word = record { size = 8; align = 8 }

abbrev pub bytes8 : Layout
bytes8 = record { size = 8; align = 1 }

abbrev pub key : Layout
key = record { size = 32; align = 1 }

abbrev slice : Layout
slice = record { size = 16; align = 8 }

abbrev tag : Layout
tag = record { size = 4; align = 4 }

-- The first multiple of `align` from `offset` on.
abbrev pub aligned : ℕ → ℕ → ℕ
aligned offset align = (offset + (align - 1)) / align * align

-- Where the fields end that are laid from `offset` on, each at the next multiple of its alignment.
unfoldable pub place : ℕ → List Layout → ℕ
place offset [] = offset
place offset (field ∷ fields) = place (aligned offset field.align + field.size) fields

unfoldable pub align_of : List Layout → ℕ
align_of [] = 1
align_of (field ∷ fields) = max field.align (align_of fields)

unfoldable pub largest : List Layout → ℕ
largest [] = 0
largest (field ∷ fields) = max field.size (largest fields)

unfoldable pub total : List Layout → ℕ
total [] = 0
total (field ∷ fields) = field.size + total fields

unfoldable pub repr_c : List Layout → Layout
unfolding place align_of
repr_c fields = record {
  size = aligned (place 0 fields) (align_of fields);
  align = align_of fields;
}

unfoldable pub repr_c_packed : List Layout → Layout
unfolding total
repr_c_packed fields = record { size = total fields; align = 1 }

-- The tag, and room for each of the variants.
unfoldable pub repr_c_enum : List Layout → Layout
unfolding repr_c largest align_of
repr_c_enum variants = repr_c (
    tag
    ∷ record { size = aligned (largest variants) (align_of variants); align = align_of variants }
    ∷ [])

abbrev pub authorized_layout : Layout
authorized_layout = repr_c (key ∷ key ∷ [])

abbrev pub lockup_layout : Layout
lockup_layout = repr_c (word ∷ word ∷ key ∷ [])

abbrev pub meta_layout : Layout
meta_layout = repr_c (bytes8 ∷ authorized_layout ∷ lockup_layout ∷ [])

abbrev pub delegation_layout : Layout
delegation_layout = repr_c_packed (key ∷ bytes8 ∷ bytes8 ∷ bytes8 ∷ bytes8 ∷ [])

abbrev pub stake_layout : Layout
stake_layout = repr_c (delegation_layout ∷ bytes8 ∷ [])

abbrev pub flags_layout : Layout
flags_layout = repr_c (byte ∷ [])

-- `StakeStateV2`, by its variants.
abbrev pub state_layout : Layout
state_layout = repr_c_enum (
    repr_c []
    ∷ repr_c (meta_layout ∷ [])
    ∷ repr_c (meta_layout ∷ stake_layout ∷ flags_layout ∷ [])
    ∷ repr_c []
    ∷ [])

-- `StakeHistoryEntry::size`
abbrev pub history_entry_size : ℕ
history_entry_size = (repr_c (bytes8 ∷ bytes8 ∷ bytes8 ∷ [])).size

-- `Delegation` of state/accounts.rs, which is not packed.
abbrev pub plain_delegation_size : ℕ
plain_delegation_size = (repr_c (key ∷ word ∷ word ∷ word ∷ word ∷ [])).size

-- `Stake` of state/accounts.rs and that of state/stake.rs, which nothing uses.
pub record PlainStake : Type 0 where
  pub delegation : PlainDelegation
  pub credits_observed : ℕ

pub record WordStake : Type 0 where
  pub delegation : Delegation
  pub credits_observed : ℕ

-- `Config`: the rate is the bit pattern of an `f64`.
pub record Config : Type 0 where
  pub warmup_cooldown_rate : ℕ
  pub slash_penalty : ℕ

abbrev pub config_size : ℕ
config_size = (repr_c (word ∷ byte ∷ [])).size

pub record InitializeData : Type 0 where
  pub authorized : Authorized
  pub lockup : Lockup

-- The sum of two sizes, and not the size of the struct.
abbrev pub initialize_data_size : ℕ
initialize_data_size = authorized_layout.size + lockup_layout.size

pub record DelegateStakeData : Type 0 where
  pub vote_pubkey : Pubkey

abbrev pub delegate_stake_data_size : ℕ
delegate_stake_data_size = (repr_c (key ∷ [])).size

pub record SplitData : Type 0 where
  pub lamports : ℕ

abbrev pub split_data_size : ℕ
split_data_size = (repr_c (word ∷ [])).size

pub record WithdrawData : Type 0 where
  pub lamports : ℕ

abbrev pub withdraw_data_size : ℕ
withdraw_data_size = (repr_c (word ∷ [])).size

pub record AuthorizeData : Type 0 where
  pub new_authorized : Pubkey
  pub stake_authorize : StakeAuthorize

abbrev pub authorize_data_size : ℕ
authorize_data_size = (repr_c (key ∷ byte ∷ [])).size

-- Both structs of seed arguments have these fields.
abbrev pub authorize_with_seed_data_size : ℕ
authorize_with_seed_data_size = (repr_c (key ∷ byte ∷ slice ∷ key ∷ [])).size

abbrev pub authorize_checked_with_seed_data_size : ℕ
authorize_checked_with_seed_data_size = (repr_c (key ∷ byte ∷ slice ∷ key ∷ [])).size

-- `SetLockupData::LEN`
abbrev pub set_lockup_data_len : ℕ
set_lockup_data_len = 1 + 8 + 1 + 8 + 1 + 32
