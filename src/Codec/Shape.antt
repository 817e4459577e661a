-- ===== src/Codec/Shape.antt =====
-- What `serialize` of program/src/state/stake_state_v2.rs stores, whatever the widths of the words:
-- a buffer of the same length, which `deserialize` reads without an error.
use pinocchio_stake_program.Base.{
  ℕ, ◌+◌, ◌-◌, ◌≤◌, ◌≡◌, refl, ◌∙◌, List, ◌∷◌, ◌++◌, length, drop, replicate, ok, Gives, arith,
  length-append, length-drop, ltb, le→ltb, ltb→le, ltb→lt, Bool-cases, inl, inr,
}
use pinocchio_stake_program.Types.{
  Meta, Stake, StakeFlags, StakeStateV2, uninitialized, initialized, staked, rewards_pool,
}
use pinocchio_stake_program.Base.Bytes.{write_at}
use pinocchio_stake_program.Codec.{
  meta_bytes, stake_bytes, deserialize, serialize, deserialize_meta, deserialize_stake, read_meta,
  read_stake, read_flags, serialize_into, account_size,
}
use pinocchio_stake_program.Codec.RoundTrip.{
  length-meta_bytes, length-stake_bytes, staked_bytes, serialize_into-staked,
  serialize_into-initialized, length-zeros, serialize_short,
}

-- The same variant of the state.
abbrev pub SameVariant : StakeStateV2 → StakeStateV2 → Type 0
SameVariant uninitialized state = state ≡ uninitialized
SameVariant (initialized m) state = (m' : Meta) × (state ≡ initialized m')
SameVariant (staked m k f) state =
    (m' : Meta) × (k' : Stake) × (f' : StakeFlags) × (state ≡ staked m' k' f')
SameVariant rewards_pool state = state ≡ rewards_pool

-- The buffer has the old length, and reads as a state of the same variant.
abbrev pub Stored : StakeStateV2 → List ℕ → List ℕ → Type 0
Stored state bytes out =
    (length out ≡ length bytes) × Gives (deserialize out) λ read. SameVariant state read

deserialize_meta-long :
    (bytes : List ℕ) → 120 ≤ length bytes → deserialize_meta bytes ≡ ok (read_meta bytes)
unfolding deserialize_meta
deserialize_meta-long bytes h = rw (le→ltb _ _ h) refl

deserialize_stake-long :
    (bytes : List ℕ) → 72 ≤ length bytes → deserialize_stake bytes ≡ ok (read_stake bytes)
unfolding deserialize_stake
deserialize_stake-long bytes h = rw (le→ltb _ _ h) refl

pub deserialize_long-initialized :
    (bytes : List ℕ)
    → 120 ≤ length bytes
    → deserialize (1 ∷ bytes) ≡ ok (initialized (read_meta bytes))
unfolding deserialize
deserialize_long-initialized bytes h = rw (deserialize_meta-long bytes h) refl

deserialize_long-staked :
    (bytes : List ℕ)
    → 192 ≤ length bytes
    → deserialize (2 ∷ bytes)
      ≡ ok (staked (read_meta bytes) (read_stake (drop 120 bytes)) (read_flags (2 ∷ bytes)))
unfolding deserialize
deserialize_long-staked bytes h =
    let l = length-drop 120 bytes in
    rw (deserialize_meta-long bytes (omega arith))
      (rw (deserialize_stake-long (drop 120 bytes) (omega arith)) refl)

length-rest : (n : ℕ) (z : List ℕ) → length (drop n (drop 1 z)) ≡ length z - 1 - n
length-rest n z = rw (length-drop n (drop 1 z)) (rw (length-drop 1 z) refl)

Stored-initialized :
    (m : Meta) (z rest : List ℕ)
    → 121 + length rest ≡ length z
    → Stored (initialized m) z (1 ∷ (meta_bytes m ++ rest))
Stored-initialized m z rest h =
    let l = length-append (meta_bytes m) rest in
    let lm = length-meta_bytes m in
    (
      omega arith,
      rw (deserialize_long-initialized (meta_bytes m ++ rest) (omega arith))
          (read_meta (meta_bytes m ++ rest), refl),
    )

Stored-staked :
    (m : Meta) (k : Stake) (f : StakeFlags) (z rest : List ℕ)
    → 194 + length rest ≡ length z
    → Stored (staked m k f) z (staked_bytes m k f.bits rest)
Stored-staked m k f z rest h =
    let behind = stake_bytes k ++ f.bits ∷ rest in
    let l1 = length-append (stake_bytes k) (f.bits ∷ rest) in
    let l2 = length-append (meta_bytes m) behind in
    let lm = length-meta_bytes m in
    let lk = length-stake_bytes k in
    (
      omega arith,
      rw (deserialize_long-staked (meta_bytes m ++ behind) (omega arith)) (
        read_meta (meta_bytes m ++ behind),
        read_stake (drop 120 (meta_bytes m ++ behind)),
        read_flags (2 ∷ (meta_bytes m ++ behind)),
        refl,
      ),
    )

serialize_into-Stored :
    (state : StakeStateV2) (z : List ℕ)
    → 208 ≤ length z
    → (out : List ℕ) × (serialize_into state z ≡ ok out) × Stored state z out
unfolding serialize_into deserialize write_at
serialize_into-Stored uninitialized z h =
    (0 ∷ drop 1 z, refl, (omega (arith, length-drop 1 z), refl))
serialize_into-Stored (initialized m) z h =
    let rest = drop 120 (drop 1 z) in
    (
      1 ∷ (meta_bytes m ++ rest),
      serialize_into-initialized m z h,
      Stored-initialized m z rest (omega (arith, length-rest 120 z)),
    )
serialize_into-Stored (staked m k f) z h =
    let rest = drop 1 (drop 72 (drop 120 (drop 1 z))) in
    let l1 = length-rest 120 z in
    let l2 = length-drop 72 (drop 120 (drop 1 z)) in
    let l3 = length-drop 1 (drop 72 (drop 120 (drop 1 z))) in
    (
      staked_bytes m k f.bits rest,
      serialize_into-staked m k f z h,
      Stored-staked m k f z rest (omega arith),
    )
serialize_into-Stored rewards_pool z h =
    (3 ∷ drop 1 z, refl, (omega (arith, length-drop 1 z), refl))

Stored-is_Stored :
    (state : StakeStateV2) (z : List ℕ) {out : List ℕ}
    → 208 ≤ length z
    → serialize_into state z ≡ ok out
    → Stored state z out
Stored-is_Stored state z {out} l h =
    let (stored, written, shape) = serialize_into-Stored state z l in
    let same : stored ≡ out = cc in rw same at shape

serialize-zeros :
    (state : StakeStateV2) (bytes : List ℕ)
    → account_size ≤ length bytes
    → serialize state bytes ≡ serialize_into state (replicate (length bytes) 0)
unfolding serialize
serialize-zeros state bytes l = rw (le→ltb _ _ l) refl

-- Whatever state is stored without an error, the buffer keeps its length and reads as a state of
-- that variant.
pub serialize-Stored :
    (state : StakeStateV2) (bytes : List ℕ) {out : List ℕ}
    → serialize state bytes ≡ ok out
    → Stored state bytes out
serialize-Stored state bytes {out} h = elim (Bool-cases (ltb (length bytes) account_size)) [
  | inl short ↦ absurd (cc (serialize_short state bytes (ltb→lt _ _ short)))
  | inr long ↦
      let l : account_size ≤ length bytes = ltb→le _ _ long in
      let zeros = length-zeros bytes in
      let z = replicate {A = ℕ} (length bytes) 0 in
      let (kept, read) =
        Stored-is_Stored state z (omega arith) (cc (serialize-zeros state bytes l)) in
      (kept ∙ zeros, read)
]

-- What is stored depends on the length of the buffer alone.
pub serialize_same_length :
    (state : StakeStateV2) (bytes other : List ℕ)
    → length bytes ≡ length other
    → serialize state bytes ≡ serialize state other
unfolding serialize
serialize_same_length state bytes other h = rw h refl
