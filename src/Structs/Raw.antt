-- ===== src/Structs/Raw.antt =====
-- `try_from_account_info_mut_raw` and the method `get_stake_state` of
-- program/src/state/stake_state_v2.rs: an account's memory taken for a `repr(C)` enum as it lies. No
-- handler calls them.
use mathlib.Core.List.{append_assoc}
use pinocchio_stake_program.Base.{
  ℕ, ◌+◌, ◌*◌, ◌%◌, ◌≡◌, ◌≢◌, ◌∙◌, ap, Option, none, some, List, ◌∷◌, ◌++◌, length, take, drop,
  Result, ok, fail_if, ◌>>◌, ◌==◌, ◌!=◌, if◌then◌else◌, get_elem?, arith, invalid_account_data,
  invalid_account_owner,
}
use pinocchio_stake_program.Base.Int.{to_bits}
use pinocchio_stake_program.Base.Bytes.{le_bytes, le_value}
use pinocchio_stake_program.Types.{
  Pubkey, Meta, StakeFlags, StakeStateV2, uninitialized, initialized, staked, rewards_pool, id,
  empty_flags,
}
use pinocchio_stake_program.Codec.{
  account_size, meta_size, stake_size, read_meta, read_stake, meta_bytes,
}
use pinocchio_stake_program.Runtime.{AccountInfo, Store}
use pinocchio_stake_program.Structs.{
  state_layout, repr_c_enum, repr_c_packed, repr_c, place, align_of, largest, total,
}

-- The fields begin behind the tag and its padding.
abbrev fields_offset : ℕ
fields_offset = 8

unfoldable pub raw_flags : Option ℕ → StakeFlags
raw_flags none = empty_flags
raw_flags (some b) = record { bits = b }

-- What the memory is as an enum; `none` where no variant has the tag, to which the language gives no
-- meaning.
unfoldable pub read_raw : List ℕ → Option StakeStateV2
unfolding raw_flags
read_raw bytes =
    let variant = le_value (take 4 bytes) in
    let m = read_meta (drop fields_offset bytes) in
    if variant == 0
    then some uninitialized
    else if variant == 1
    then some (initialized m)
    else if variant == 2
    then some (
        staked m (read_stake (drop (fields_offset + meta_size) bytes))
          (raw_flags (get_elem? bytes (fields_offset + meta_size + stake_size))))
    else if variant == 3
    then some rewards_pool
    else none

-- `address` is where the runtime has put the data.
unfoldable pub try_from_account_info_mut_raw : ℕ → List ℕ → Result (Option StakeStateV2)
unfolding read_raw repr_c_enum
try_from_account_info_mut_raw address bytes = do
  fail_if (length bytes != account_size) invalid_account_data
  fail_if (address % state_layout.align != 0) invalid_account_data
  ok (read_raw bytes)

unfoldable pub get_raw_stake_state :
    (Pubkey → ℕ) → Store → AccountInfo → Result (Option StakeStateV2)
unfolding try_from_account_info_mut_raw
get_raw_stake_state address s ai = do
  fail_if ((s ai.key).owner != id) invalid_account_owner
  try_from_account_info_mut_raw (address ai.key) (s ai.key).bytes

tag_of_word :
    (r : ℕ) (rest : List ℕ)
    → le_value (take 4 (1 ∷ (le_bytes 8 r ++ rest))) ≡ 1 + 256 * (r % 16777216)
unfolding le_value le_bytes
tag_of_word r rest = omega arith

tag_of_meta :
    (m : Meta) (rest : List ℕ)
    → le_value (take 4 (1 ∷ (meta_bytes m ++ rest))) ≡ 1 + 256 * (m.rent_exempt_reserve % 16777216)
unfolding meta_bytes
tag_of_meta m rest =
    let fields =
      le_bytes 32 m.authorized.staker
      ++ (le_bytes 32 m.authorized.withdrawer
          ++ (le_bytes 8 (to_bits m.lockup.unix_timestamp)
              ++ (le_bytes 8 m.lockup.epoch ++ le_bytes 32 m.lockup.custodian))) in
    ap (λ (bs : List ℕ). le_value (take 4 (1 ∷ bs)))
      (append_assoc (le_bytes 8 m.rent_exempt_reserve) fields rest)
    ∙ tag_of_word m.rent_exempt_reserve (fields ++ rest)

-- The bytes of an initialized account are no enum in memory, unless the low three bytes of its rent
-- reserve are 0: its variant is one byte, and the enum's tag has four.
pub get_raw_stake_state-none :
    (address : Pubkey → ℕ) (s : Store) (ai : AccountInfo) (m : Meta) (rest : List ℕ)
    → (s ai.key).bytes ≡ 1 ∷ (meta_bytes m ++ rest)
    → length (s ai.key).bytes ≡ account_size
    → (s ai.key).owner ≡ id
    → address ai.key % 8 ≡ 0
    → m.rent_exempt_reserve % 16777216 ≢ 0
    → get_raw_stake_state address s ai ≡ ok none
unfolding get_raw_stake_state try_from_account_info_mut_raw read_raw repr_c_enum repr_c
    repr_c_packed place align_of largest total
get_raw_stake_state-none address s ai m rest stored size owned at low =
    let seen : le_value (take 4 (s ai.key).bytes) ≡ 1 + 256 * (m.rent_exempt_reserve % 16777216) =
      rw stored (tag_of_meta m rest) in
    ground arith
