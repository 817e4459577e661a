-- ===== src/Codec/Widths.antt =====
-- The words that `deserialize` of program/src/state/stake_state_v2.rs reads from bytes.
use pinocchio_stake_program.Base.{
  ℕ, zero, suc, ◌^◌, ◌<◌, ◌≡◌, refl, List, [], ◌∷◌, take, drop, get_elem?, Option, none, some, ok,
  err, Result, ◌>>=◌, Bool, true, false, ◌==◌, if◌then◌else◌, Post, Post-of, arith,
}
use native.Mathlib.Nat.{pow-suc}
use pinocchio_stake_program.Base.Int.{of_bits-IsI64}
use pinocchio_stake_program.Base.Bytes.{le_value, read_le}
use pinocchio_stake_program.Types.{
  MetaFits, StakeFits, Fits, StakeStateV2, initialized, staked, StakeFlags, Meta, Stake,
}
use pinocchio_stake_program.Codec.{
  deserialize, deserialize_as, deserialize_meta, deserialize_stake, read_meta, read_stake,
  read_flags, flags_of,
}

-- What the element type `u8` says of a slice.
abbrev pub AreBytes : List ℕ → Type 0
AreBytes [] = Unit
AreBytes (b ∷ bytes) = (b < 256) × AreBytes bytes

AreBytes-drop : (n : ℕ) (bytes : List ℕ) → AreBytes bytes → AreBytes (drop n bytes)
AreBytes-drop zero bytes h = h
AreBytes-drop (suc n) [] h = tt
AreBytes-drop (suc n) (b ∷ bytes) h = AreBytes-drop n bytes h.1

pow_pos : (w : ℕ) → 0 < 256 ^ w
pow_pos zero = omega arith
pow_pos (suc w) = omega (arith, pow-suc 256 w, pow_pos w)

-- A word of `w` bytes is below `256 ^ w`.
le_value-take-lt : (w : ℕ) (bytes : List ℕ) → AreBytes bytes → le_value (take w bytes) < 256 ^ w
unfolding le_value
le_value-take-lt zero bytes h = omega arith
le_value-take-lt (suc w) [] h = pow_pos (suc w)
le_value-take-lt (suc w) (b ∷ bytes) h =
    omega (arith, pow-suc 256 w, le_value-take-lt w bytes h.1, h.0)

read_le-lt :
    (w : ℕ) (bytes : List ℕ)
    → AreBytes bytes
    → ((read_le w bytes).0 < 256 ^ w) × AreBytes (read_le w bytes).1
unfolding read_le
read_le-lt w bytes h = (le_value-take-lt w bytes h, AreBytes-drop w bytes h)

read_meta-MetaFits : (bytes : List ℕ) → AreBytes bytes → MetaFits (read_meta bytes)
unfolding read_meta
read_meta-MetaFits bytes h =
    let (f1, b1) = read_le-lt 8 bytes h in
    let (f2, b2) = read_le-lt 32 _ b1 in
    let (f3, b3) = read_le-lt 32 _ b2 in
    let (f4, b4) = read_le-lt 8 _ b3 in
    let (f5, b5) = read_le-lt 8 _ b4 in
    let (f6, b6) = read_le-lt 32 _ b5 in
    record {
      rent_exempt_reserve_fits = f1;
      staker_fits = f2;
      withdrawer_fits = f3;
      unix_timestamp_fits = of_bits-IsI64 _ f4;
      epoch_fits = f5;
      custodian_fits = f6;
    }

read_stake-StakeFits : (bytes : List ℕ) → AreBytes bytes → StakeFits (read_stake bytes)
unfolding read_stake
read_stake-StakeFits bytes h =
    let (f1, b1) = read_le-lt 32 bytes h in
    let (f2, b2) = read_le-lt 8 _ b1 in
    let (f3, b3) = read_le-lt 8 _ b2 in
    let (f4, b4) = read_le-lt 8 _ b3 in
    let (f5, b5) = read_le-lt 8 _ b4 in
    let (f6, b6) = read_le-lt 8 _ b5 in
    record {
      voter_pubkey_fits = f1;
      stake_fits = f2;
      activation_epoch_fits = f3;
      deactivation_epoch_fits = f4;
      warmup_cooldown_rate_fits = f5;
      credits_observed_fits = f6;
    }

get_elem?-lt :
    (bytes : List ℕ) (i : ℕ) {b : ℕ} → AreBytes bytes → get_elem? bytes i ≡ some b → b < 256
get_elem?-lt [] i h e = absurd (cc e)
get_elem?-lt (c ∷ bytes) zero h e = ground arith
get_elem?-lt (c ∷ bytes) (suc i) h e = get_elem?-lt bytes i h.1 e

flags_of-lt : (o : Option ℕ) → ((b : ℕ) → o ≡ some b → b < 256) → (flags_of o).bits < 256
unfolding flags_of
flags_of-lt none h = omega arith
flags_of-lt (some b) h = ground (arith, h b refl)

read_flags-lt : (bytes : List ℕ) → AreBytes bytes → (read_flags bytes).bits < 256
unfolding read_flags
read_flags-lt bytes h = flags_of-lt (get_elem? bytes 193) λ b e. get_elem?-lt bytes 193 h e

deserialize_meta-Fits : (bytes : List ℕ) → AreBytes bytes → Post MetaFits (deserialize_meta bytes)
unfolding deserialize_meta
deserialize_meta-Fits bytes h = grind (arith, read_meta-MetaFits)

deserialize_stake-Fits :
    (bytes : List ℕ) → AreBytes bytes → Post StakeFits (deserialize_stake bytes)
unfolding deserialize_stake
deserialize_stake-Fits bytes h = grind (arith, read_stake-StakeFits)

initialized-Fits : (r : Result Meta) → Post MetaFits r → Post Fits (r >>= λ m. ok (initialized m))
initialized-Fits (ok m) h = h
initialized-Fits (err e) h = tt

staked-Fits :
    (r : Result Meta) (q : Result Stake) (flags : StakeFlags)
    → Post MetaFits r
    → Post StakeFits q
    → flags.bits < 256
    → Post Fits (r >>= λ m. q >>= λ k. ok (staked m k flags))
staked-Fits (ok m) (ok k) flags hm hk hf = (hm, hk, hf)
staked-Fits (ok m) (err e) flags hm hk hf = tt
staked-Fits (err e) q flags hm hk hf = tt

either-Fits :
    (b : Bool) (r q : Result StakeStateV2)
    → Post Fits r
    → Post Fits q
    → Post Fits (if b then r else q)
either-Fits true r q h g = h
either-Fits false r q h g = g

deserialize_as-Fits :
    (discriminant : ℕ) (bytes : List ℕ)
    → AreBytes bytes
    → Post Fits (deserialize_as discriminant bytes)
unfolding deserialize_as
deserialize_as-Fits discriminant bytes h =
    let meta_part = deserialize_meta-Fits (drop 1 bytes) (AreBytes-drop 1 bytes h) in
    let stake_part = deserialize_stake-Fits (drop 121 bytes) (AreBytes-drop 121 bytes h) in
    either-Fits (discriminant == 0) _ _ tt (
      either-Fits (discriminant == 1) _ _ (initialized-Fits _ meta_part) (
        either-Fits (discriminant == 2) _ _
          (staked-Fits _ _ _ meta_part stake_part (read_flags-lt bytes h))
          (either-Fits (discriminant == 3) _ _ tt tt)))

deserialize-Post : (bytes : List ℕ) → AreBytes bytes → Post Fits (deserialize bytes)
unfolding deserialize
deserialize-Post [] h = tt
deserialize-Post (b ∷ bytes) h = deserialize_as-Fits b (b ∷ bytes) h

-- Every state that is read from bytes is one that the Rust types can hold: each word is below its
-- width, the timestamp is an `i64`, and the flags are a byte.
pub deserialize-Fits :
    (bytes : List ℕ) {state : StakeStateV2}
    → AreBytes bytes
    → deserialize bytes ≡ ok state
    → Fits state
deserialize-Fits bytes h e = Post-of Fits (deserialize bytes) (deserialize-Post bytes h) e
