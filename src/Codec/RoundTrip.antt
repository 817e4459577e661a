-- ===== src/Codec/RoundTrip.antt =====
-- `serialize` and `deserialize` of program/src/state/stake_state_v2.rs, one after the other.
use pinocchio_stake_program.Base.{
  ℕ, ◌-◌, ◌≤◌, ◌<◌, ◌^◌, ◌≡◌, refl, List, [], ◌∷◌, ◌++◌, length, drop, replicate, ok, arith,
  length-append, length-replicate, length-drop, drop-append, ltb, le→ltb, fail, lt→ltb, ltb→lt,
  ltb→le, Bool-cases, inl, inr, account_data_too_small, get_elem?-append, some,
}
use mathlib.Core.List.{append_assoc}
use pinocchio_stake_program.Base.Int.{to_bits, of_bits-to_bits, to_bits-lt}
use pinocchio_stake_program.Base.Bytes.{write_at, read_le-append, length-le_bytes, write_at-append}
use pinocchio_stake_program.Types.{
  Meta, Stake, StakeFlags, StakeStateV2, uninitialized, initialized, staked, rewards_pool, MetaFits,
  StakeFits, Fits,
}
use pinocchio_stake_program.Codec.{
  meta_bytes, stake_bytes, read_meta, read_stake, deserialize, serialize, deserialize_meta,
  deserialize_stake, serialize_meta, serialize_stake, serialize_into, read_flags, flags_of,
  account_size,
}

read_meta-meta_bytes :
    (m : Meta) (rest : List ℕ) → MetaFits m → read_meta (meta_bytes m ++ rest) ≡ m
unfolding read_meta meta_bytes
read_meta-meta_bytes m rest h =
    let ts : to_bits m.lockup.unix_timestamp < 256 ^ 8 = to_bits-lt _ h.unix_timestamp_fits in
    simp (
      append_assoc,
      read_le-append 8 m.rent_exempt_reserve h.rent_exempt_reserve_fits,
      read_le-append 32 m.authorized.staker h.staker_fits,
      read_le-append 32 m.authorized.withdrawer h.withdrawer_fits,
      read_le-append 8 (to_bits m.lockup.unix_timestamp) ts,
      read_le-append 8 m.lockup.epoch h.epoch_fits,
      read_le-append 32 m.lockup.custodian h.custodian_fits,
      of_bits-to_bits m.lockup.unix_timestamp h.unix_timestamp_fits,
    )

read_stake-stake_bytes :
    (k : Stake) (rest : List ℕ) → StakeFits k → read_stake (stake_bytes k ++ rest) ≡ k
unfolding read_stake stake_bytes
read_stake-stake_bytes k rest h = simp (
  append_assoc,
  read_le-append 32 k.delegation.voter_pubkey h.voter_pubkey_fits,
  read_le-append 8 k.delegation.stake h.stake_fits,
  read_le-append 8 k.delegation.activation_epoch h.activation_epoch_fits,
  read_le-append 8 k.delegation.deactivation_epoch h.deactivation_epoch_fits,
  read_le-append 8 k.delegation.warmup_cooldown_rate h.warmup_cooldown_rate_fits,
  read_le-append 8 k.credits_observed h.credits_observed_fits,
)

pub length-meta_bytes : (m : Meta) → length (meta_bytes m) ≡ 120
unfolding meta_bytes
length-meta_bytes m = omega (arith, length-append {0}, length-le_bytes)

pub length-stake_bytes : (k : Stake) → length (stake_bytes k) ≡ 72
unfolding stake_bytes
length-stake_bytes k = omega (arith, length-append {0}, length-le_bytes)

deserialize_meta-append :
    (m : Meta) (rest : List ℕ) → MetaFits m → deserialize_meta (meta_bytes m ++ rest) ≡ ok m
unfolding deserialize_meta
deserialize_meta-append m rest h =
    let long : 120 ≤ length (meta_bytes m ++ rest) =
      omega (arith, length-append {0} (meta_bytes m) rest, length-meta_bytes m) in
    rw (le→ltb _ _ long) (rw (read_meta-meta_bytes m rest h) refl)

deserialize_stake-append :
    (k : Stake) (rest : List ℕ) → StakeFits k → deserialize_stake (stake_bytes k ++ rest) ≡ ok k
unfolding deserialize_stake
deserialize_stake-append k rest h =
    let long : 72 ≤ length (stake_bytes k ++ rest) =
      omega (arith, length-append {0} (stake_bytes k) rest, length-stake_bytes k) in
    rw (le→ltb _ _ long) (rw (read_stake-stake_bytes k rest h) refl)

-- The bytes of the three parts, in the order of the account, and what stands behind them.
abbrev pub staked_bytes : Meta → Stake → ℕ → List ℕ → List ℕ
staked_bytes m k b rest = 2 ∷ (meta_bytes m ++ (stake_bytes k ++ b ∷ rest))

flags_of-some : (b : ℕ) → flags_of (some b) ≡ record { bits = b }
unfolding flags_of
flags_of-some b = ground arith

read_flags-staked_bytes :
    (m : Meta) (k : Stake) (b : ℕ) (rest : List ℕ)
    → read_flags (staked_bytes m k b rest) ≡ record { bits = b }
unfolding read_flags
read_flags-staked_bytes m k b rest =
    let e : length (meta_bytes m ++ stake_bytes k) ≡ 192 = omega (
      arith,
      length-append {0} (meta_bytes m) (stake_bytes k),
      length-meta_bytes m,
      length-stake_bytes k,
    ) in
    rw (← append_assoc (meta_bytes m) (stake_bytes k) (b ∷ rest))
      (rw (get_elem?-append 192 (meta_bytes m ++ stake_bytes k) rest b e) (flags_of-some b))

deserialize-staked_bytes :
    (m : Meta) (k : Stake) (b : ℕ) (rest : List ℕ)
    → MetaFits m
    → StakeFits k
    → deserialize (staked_bytes m k b rest) ≡ ok (staked m k (record { bits = b }))
unfolding deserialize
deserialize-staked_bytes m k b rest hm hk =
    rw (deserialize_meta-append m (stake_bytes k ++ b ∷ rest) hm) (
      rw (drop-append 120 (meta_bytes m) (stake_bytes k ++ b ∷ rest) (length-meta_bytes m)) (
        rw (deserialize_stake-append k (b ∷ rest) hk)
          (rw (read_flags-staked_bytes m k b rest) refl)))

deserialize-initialized :
    (m : Meta) (rest : List ℕ)
    → MetaFits m
    → deserialize (1 ∷ (meta_bytes m ++ rest)) ≡ ok (initialized m)
unfolding deserialize
deserialize-initialized m rest h = rw (deserialize_meta-append m rest h) refl

serialize_meta-append :
    (t : ℕ) (m : Meta) (ys : List ℕ)
    → 120 ≤ length ys
    → serialize_meta 1 m (t ∷ ys) ≡ ok (t ∷ (meta_bytes m ++ drop 120 ys))
unfolding serialize_meta
serialize_meta-append t m ys h =
    rw (le→ltb _ _ h)
      (rw (write_at-append 1 (t ∷ []) (meta_bytes m) ys refl) (rw (length-meta_bytes m) refl))

serialize_stake-append :
    (xs : List ℕ) (k : Stake) (ys : List ℕ)
    → length xs ≡ 121
    → 72 ≤ length ys
    → serialize_stake 121 k (xs ++ ys) ≡ ok (xs ++ (stake_bytes k ++ drop 72 ys))
unfolding serialize_stake
serialize_stake-append xs k ys e h = rw (drop-append 121 xs ys e) (
    rw (le→ltb _ _ h)
      (rw (write_at-append 121 xs (stake_bytes k) ys e) (rw (length-stake_bytes k) refl)))

write_flags :
    (m : Meta) (k : Stake) (f : StakeFlags) (z : List ℕ)
    → ok (write_at 193 (f.bits ∷ []) ((2 ∷ meta_bytes m) ++ (stake_bytes k ++ drop 72 z)))
      ≡ ok (staked_bytes m k f.bits (drop 1 (drop 72 z)))
write_flags m k f z =
    let e : length ((2 ∷ meta_bytes m) ++ stake_bytes k) ≡ 193 = omega (
      arith,
      length-append {0} (2 ∷ meta_bytes m) (stake_bytes k),
      length-meta_bytes m,
      length-stake_bytes k,
    ) in
    rw (← append_assoc (2 ∷ meta_bytes m) (stake_bytes k) (drop 72 z)) (
      rw (write_at-append 193 ((2 ∷ meta_bytes m) ++ stake_bytes k) (f.bits ∷ []) (drop 72 z) e)
        (rw (append_assoc (2 ∷ meta_bytes m) (stake_bytes k) (f.bits ∷ drop 1 (drop 72 z))) refl))

pub serialize_into-staked :
    (m : Meta) (k : Stake) (f : StakeFlags) (z : List ℕ)
    → 208 ≤ length z
    → serialize_into (staked m k f) z
      ≡ ok (staked_bytes m k f.bits (drop 1 (drop 72 (drop 120 (drop 1 z)))))
unfolding serialize_into write_at
serialize_into-staked m k f z h =
    let z1 = drop 120 (drop 1 z) in
    let l0 : length (drop 1 z) ≡ length z - 1 = length-drop 1 z in
    let l1 : length z1 ≡ length (drop 1 z) - 120 = length-drop 120 (drop 1 z) in
    let lm : length (2 ∷ meta_bytes m) ≡ 121 = omega (arith, length-meta_bytes m) in
    rw (serialize_meta-append 2 m (drop 1 z) (omega arith))
      (rw (serialize_stake-append (2 ∷ meta_bytes m) k z1 lm (omega arith)) (write_flags m k f z1))

pub length-zeros : (bytes : List ℕ) → length (replicate {A = ℕ} (length bytes) 0) ≡ length bytes
length-zeros bytes = length-replicate (length bytes) 0

pub serialize_into-initialized :
    (m : Meta) (z : List ℕ)
    → 208 ≤ length z
    → serialize_into (initialized m) z ≡ ok (1 ∷ (meta_bytes m ++ drop 120 (drop 1 z)))
unfolding serialize_into write_at
serialize_into-initialized m z h =
    let l0 : length (drop 1 z) ≡ length z - 1 = length-drop 1 z in
    serialize_meta-append 1 m (drop 1 z) (omega arith)

-- What a byte buffer that holds the state `s` satisfies: `deserialize` reads `s` from it.
abbrev pub Holds : StakeStateV2 → List ℕ → Type 0
Holds s bytes = deserialize bytes ≡ ok s

serialize_into-Holds :
    (s : StakeStateV2) (z : List ℕ)
    → Fits s
    → 208 ≤ length z
    → (out : List ℕ) × (serialize_into s z ≡ ok out) × Holds s out
unfolding serialize_into deserialize write_at
serialize_into-Holds uninitialized z f h = (0 ∷ drop 1 z, refl, refl)
serialize_into-Holds (initialized m) z f h = (
  1 ∷ (meta_bytes m ++ drop 120 (drop 1 z)),
  serialize_into-initialized m z h,
  deserialize-initialized m (drop 120 (drop 1 z)) f,
)
serialize_into-Holds (staked m k f) z (fm, fk, ff) h =
    let rest = drop 1 (drop 72 (drop 120 (drop 1 z))) in
    (
      staked_bytes m k f.bits rest,
      serialize_into-staked m k f z h,
      deserialize-staked_bytes m k f.bits rest fm fk,
    )
serialize_into-Holds rewards_pool z f h = (3 ∷ drop 1 z, refl, refl)

-- Every state whose words fit their widths is stored into a buffer of at least 208 bytes, and
-- `deserialize` reads the same state from what was stored.
pub deserialize-serialize :
    (s : StakeStateV2) (bytes : List ℕ)
    → Fits s
    → account_size ≤ length bytes
    → (out : List ℕ) × (serialize s bytes ≡ ok out) × (deserialize out ≡ ok s)
unfolding serialize
deserialize-serialize s bytes f h =
    let long : 208 ≤ length (replicate {A = ℕ} (length bytes) 0) =
      omega (arith, length-zeros bytes) in
    let (out, stored, read) = serialize_into-Holds s (replicate (length bytes) 0) f long in
    (out, rw (le→ltb _ _ h) stored, read)

-- A shorter buffer is refused, whatever the state.
pub serialize_short :
    (s : StakeStateV2) (bytes : List ℕ)
    → length bytes < account_size
    → serialize s bytes ≡ fail account_data_too_small
unfolding serialize
serialize_short s bytes h = rw (lt→ltb _ _ h) refl

-- What was stored without an error is read back.
pub deserialize_of_serialize :
    (s : StakeStateV2) (bytes : List ℕ) {out : List ℕ}
    → Fits s
    → serialize s bytes ≡ ok out
    → deserialize out ≡ ok s
deserialize_of_serialize s bytes {out} f h = elim (Bool-cases (ltb (length bytes) account_size)) [
  | inl short ↦ absurd (cc (serialize_short s bytes (ltb→lt _ _ short)))
  | inr long ↦
      let (stored, written, read) = deserialize-serialize s bytes f (ltb→le _ _ long) in
      let same : stored ≡ out = cc in rw same at read
]
