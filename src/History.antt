-- ===== src/History.antt =====
-- program/src/state/stake_history.rs: the cluster's stake per epoch, read from a sysvar.
pub mod Entries
pub mod Memory
use pinocchio_stake_program.Base.{
  ℕ, ◌+◌, ◌-◌, ◌*◌, Result, ok, err, fail, invalid_argument, panicked, Option, none, some, List,
  ltb, ◌==◌, if◌then◌else◌, take, drop,
}
use pinocchio_stake_program.Base.Bytes.{le_value}
use pinocchio_stake_program.Types.{Pubkey, u64_mod}
use pinocchio_stake_program.Runtime.{Runtime}

pub record StakeHistoryEntry : Type 0 where
  pub effective : ℕ
  pub activating : ℕ
  pub deactivating : ℕ

abbrev pub default_entry : StakeHistoryEntry
default_entry = record { effective = 0; activating = 0; deactivating = 0 }

abbrev pub with_effective : ℕ → StakeHistoryEntry
with_effective e = record default_entry { effective = e }

abbrev pub with_effective_and_activating : ℕ → ℕ → StakeHistoryEntry
with_effective_and_activating e a = record default_entry { effective = e; activating = a }

abbrev pub with_deactivating : ℕ → StakeHistoryEntry
with_deactivating d = record default_entry { effective = d; deactivating = d }

-- `StakeHistoryGetEntry`, the trait: what an epoch's entry is. A panic inside is an outcome.
abbrev pub History : Type 0
History = ℕ → Result (Option StakeHistoryEntry)

abbrev pub stake_history_id : Pubkey
stake_history_id = 6588254597427780285814185656649245347286840623366396492600005386151686

abbrev pub max_stake_history_entries : ℕ
max_stake_history_entries = 512

abbrev pub epoch_and_entry_serialized_size : ℕ
epoch_and_entry_serialized_size = 32

abbrev pub checked_sub : ℕ → ℕ → Option ℕ
checked_sub a b = if ltb a b then none else some (a - b)

abbrev pub checked_add_u64 : ℕ → ℕ → Option ℕ
checked_add_u64 a b = if ltb (a + b) u64_mod then some (a + b) else none

abbrev pub checked_mul_u64 : ℕ → ℕ → Option ℕ
checked_mul_u64 a b = if ltb (a * b) u64_mod then some (a * b) else none

-- `o?` in a function that returns an `Option`.
abbrev pub and_then {ℓ κ} : {A : Type ℓ} {B : Type κ} → Option A → (A → Option B) → Option B
and_then none f = none
and_then (some a) f = f a

-- The offset of an epoch's entry in the sysvar: the guards and the arithmetic of `get_entry`.
unfoldable pub entry_offset : ℕ → ℕ → Option ℕ
entry_offset current_epoch target_epoch = and_then (checked_sub current_epoch 1) λ newest.
    if ltb target_epoch (current_epoch - max_stake_history_entries)
    then none
    else and_then (checked_sub newest target_epoch) λ delta.
      and_then (checked_mul_u64 delta epoch_and_entry_serialized_size)
        λ scaled. checked_add_u64 scaled 8

-- The 32 bytes of an entry; `assert_eq!` panics on another epoch.
unfoldable pub decode_entry : ℕ → List ℕ → Result (Option StakeHistoryEntry)
decode_entry target_epoch buf =
    if le_value (take 8 buf) == target_epoch
    then ok (
        some (record {
          effective = le_value (take 8 (drop 8 buf));
          activating = le_value (take 8 (drop 16 buf));
          deactivating = le_value (take 8 (drop 24 buf));
        }))
    else err panicked

-- `get_sysvar` into a buffer of `dst_len` bytes: what it holds then.
unfoldable pub get_sysvar : Runtime → ℕ → Pubkey → ℕ → ℕ → Result (List ℕ)
get_sysvar rt dst_len sysvar_id offset length =
    let (returned, written) = rt.sol_get_sysvar sysvar_id offset length in
    if ltb dst_len length
    then fail invalid_argument
    else if returned == 0
    then ok written
    else fail (rt.error_of returned)

-- The `match result`.
unfoldable pub entry_of : ℕ → Result (List ℕ) → Result (Option StakeHistoryEntry)
unfolding decode_entry
entry_of target_epoch (ok buf) = decode_entry target_epoch buf
entry_of target_epoch (err e) = ok none

unfoldable pub read_entry : Runtime → ℕ → Option ℕ → Result (Option StakeHistoryEntry)
unfolding get_sysvar entry_of
read_entry rt target_epoch none = ok none
read_entry rt target_epoch (some offset) = entry_of target_epoch (
    get_sysvar rt epoch_and_entry_serialized_size stake_history_id offset
      epoch_and_entry_serialized_size)

-- `StakeHistorySysvar(current_epoch).get_entry(target_epoch)`
unfoldable pub get_entry : Runtime → ℕ → History
unfolding read_entry entry_offset
get_entry rt current_epoch target_epoch =
    read_entry rt target_epoch (entry_offset current_epoch target_epoch)
