-- ===== src/Codec.antt =====
-- program/src/state/stake_state_v2.rs: the bytes of a stake account. One byte holds the variant,
-- `Meta` (120 bytes, `repr(C)`) follows, then `Stake` (72 bytes, its `Delegation` packed), then the
-- flags. `ACCOUNT_SIZE` is the size of the Rust enum, 208.
pub mod RoundTrip
pub mod Shape
pub mod Widths
pub mod Halts
use pinocchio_stake_program.Base.{
  ℕ, ◌+◌, List, [], ◌∷◌, ◌++◌, length, drop, replicate, get_elem?, none, some, Result, ok, fail,
  fail_if, ◌>>=◌, ◌>>◌, ok_or, invalid_account_data, account_data_too_small, ltb, ◌==◌,
  if◌then◌else◌, ◌&&◌, not, Option,
}
use pinocchio_stake_program.Base.Int.{to_bits, of_bits}
use pinocchio_stake_program.Base.Bytes.{le_bytes, read_le, write_at}
use pinocchio_stake_program.Types.{
  Meta, Stake, StakeFlags, StakeStateV2, uninitialized, initialized, staked, rewards_pool,
  empty_flags,
}

abbrev pub account_size : ℕ
account_size = 208

abbrev pub meta_size : ℕ
meta_size = 120

abbrev pub stake_size : ℕ
stake_size = 72

-- The bytes that `write_unaligned` stores for a `Meta` and a `Stake`.
unfoldable pub meta_bytes : Meta → List ℕ
meta_bytes m =
    le_bytes 8 m.rent_exempt_reserve
    ++ (le_bytes 32 m.authorized.staker
        ++ (le_bytes 32 m.authorized.withdrawer
            ++ (le_bytes 8 (to_bits m.lockup.unix_timestamp)
                ++ (le_bytes 8 m.lockup.epoch ++ le_bytes 32 m.lockup.custodian))))

pub stake_bytes : Stake → List ℕ
stake_bytes k =
    le_bytes 32 k.delegation.voter_pubkey
    ++ (le_bytes 8 k.delegation.stake
        ++ (le_bytes 8 k.delegation.activation_epoch
            ++ (le_bytes 8 k.delegation.deactivation_epoch
                ++ (le_bytes 8 k.delegation.warmup_cooldown_rate
                    ++ le_bytes 8 k.credits_observed))))

-- `read_unaligned` at the two types.
unfoldable pub read_meta : List ℕ → Meta
read_meta bytes =
    let (rent, r1) = read_le 8 bytes in
    let (staker, r2) = read_le 32 r1 in
    let (withdrawer, r3) = read_le 32 r2 in
    let (timestamp, r4) = read_le 8 r3 in
    let (epoch, r5) = read_le 8 r4 in
    let (custodian, r6) = read_le 32 r5 in
    record {
      rent_exempt_reserve = rent;
      authorized = record { staker = staker; withdrawer = withdrawer };
      lockup = record { unix_timestamp = of_bits timestamp; epoch = epoch; custodian = custodian };
    }

pub read_stake : List ℕ → Stake
read_stake bytes =
    let (voter, r1) = read_le 32 bytes in
    let (amount, r2) = read_le 8 r1 in
    let (activation, r3) = read_le 8 r2 in
    let (deactivation, r4) = read_le 8 r3 in
    let (rate, r5) = read_le 8 r4 in
    let (credits, r6) = read_le 8 r5 in
    record {
      delegation = record {
        voter_pubkey = voter;
        stake = amount;
        activation_epoch = activation;
        deactivation_epoch = deactivation;
        warmup_cooldown_rate = rate;
      };
      credits_observed = credits;
    }

deserialize_meta : List ℕ → Result Meta
unfolding read_meta
deserialize_meta bytes = do
  fail_if (ltb (length bytes) meta_size) invalid_account_data
  ok (read_meta bytes)

deserialize_stake : List ℕ → Result Stake
unfolding read_stake
deserialize_stake bytes = do
  fail_if (ltb (length bytes) stake_size) invalid_account_data
  ok (read_stake bytes)

-- `&data[off..]` panics past the end; behind a `Meta` that was read it is in range, so that
-- `drop` is the slice.
flags_of : Option ℕ → StakeFlags
flags_of none = empty_flags
flags_of (some b) = if not (b == 0) then record { bits = b } else empty_flags

read_flags : List ℕ → StakeFlags
unfolding flags_of
read_flags bytes = flags_of (get_elem? bytes (1 + meta_size + stake_size))

deserialize_as : ℕ → List ℕ → Result StakeStateV2
unfolding deserialize_meta deserialize_stake read_flags
deserialize_as discriminant bytes =
    if discriminant == 0
    then ok uninitialized
    else if discriminant == 1
    then (deserialize_meta (drop 1 bytes) >>= λ m. ok (initialized m))
    else if discriminant == 2
    then (deserialize_meta (drop 1 bytes) >>= λ m.
        deserialize_stake (drop (1 + meta_size) bytes) >>= λ k. ok (staked m k (read_flags bytes)))
    else if discriminant == 3
    then ok rewards_pool
    else fail invalid_account_data

unfoldable pub deserialize : List ℕ → Result StakeStateV2
unfolding deserialize_as
deserialize [] = fail invalid_account_data
deserialize (b ∷ bytes) = deserialize_as b (b ∷ bytes)

serialize_meta : ℕ → Meta → List ℕ → Result (List ℕ)
unfolding meta_bytes
serialize_meta off m bytes = do
  fail_if (ltb (length (drop off bytes)) meta_size) account_data_too_small
  ok (write_at off (meta_bytes m) bytes)

serialize_stake : ℕ → Stake → List ℕ → Result (List ℕ)
unfolding stake_bytes
serialize_stake off k bytes = do
  fail_if (ltb (length (drop off bytes)) stake_size) account_data_too_small
  ok (write_at off (stake_bytes k) bytes)

-- What `serialize` stores into the buffer that it has filled with zeros.
pub serialize_into : StakeStateV2 → List ℕ → Result (List ℕ)
unfolding serialize_meta serialize_stake
serialize_into uninitialized z = ok (write_at 0 (0 ∷ []) z)
serialize_into (initialized m) z = serialize_meta 1 m (write_at 0 (1 ∷ []) z)
serialize_into (staked m k f) z = do
  z1 ← serialize_meta 1 m (write_at 0 (2 ∷ []) z)
  z2 ← serialize_stake (1 + meta_size) k z1
  ok (write_at (1 + meta_size + stake_size) (f.bits ∷ []) z2)
serialize_into rewards_pool z = ok (write_at 0 (3 ∷ []) z)

unfoldable pub serialize : StakeStateV2 → List ℕ → Result (List ℕ)
unfolding serialize_into
serialize state bytes = do
  fail_if (ltb (length bytes) account_size) account_data_too_small
  serialize_into state (replicate (length bytes) 0)
