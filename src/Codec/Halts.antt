-- ===== src/Codec/Halts.antt =====
-- program/src/state/stake_state_v2.rs: reading and writing a state end, with a state or an error.
use pinocchio_stake_program.Base.{
  ℕ, List, [], ◌∷◌, arith, Halts, Halts-bind, Halts-if, ◌==◌, ◌+◌, drop,
}
use pinocchio_stake_program.Types.{
  StakeStateV2, Meta, Stake, uninitialized, initialized, staked, rewards_pool,
}
use pinocchio_stake_program.Codec.{
  deserialize, serialize, deserialize_as, deserialize_meta, deserialize_stake, serialize_into,
  serialize_meta, serialize_stake, meta_size,
}

deserialize_meta-Halts : (bytes : List ℕ) → Halts (deserialize_meta bytes)
unfolding deserialize_meta
deserialize_meta-Halts bytes = ground arith

deserialize_stake-Halts : (bytes : List ℕ) → Halts (deserialize_stake bytes)
unfolding deserialize_stake
deserialize_stake-Halts bytes = ground arith

deserialize_as-Halts : (n : ℕ) (bytes : List ℕ) → Halts (deserialize_as n bytes)
unfolding deserialize_as
deserialize_as-Halts n bytes = Halts-if (n == 0) _ _ tt (
    Halts-if (n == 1) _ _
      (Halts-bind (deserialize_meta (drop 1 bytes)) _ (deserialize_meta-Halts (drop 1 bytes))
        λ m. tt)
      (Halts-if (n == 2) _ _
        (Halts-bind (deserialize_meta (drop 1 bytes)) _ (deserialize_meta-Halts (drop 1 bytes)) λ m.
          Halts-bind (deserialize_stake (drop (1 + meta_size) bytes)) _
            (deserialize_stake-Halts (drop (1 + meta_size) bytes)) λ k. tt)
        (Halts-if (n == 3) _ _ tt tt)))

pub deserialize-Halts : (bytes : List ℕ) → Halts (deserialize bytes)
unfolding deserialize
deserialize-Halts [] = tt
deserialize-Halts (b ∷ bytes) = deserialize_as-Halts b (b ∷ bytes)

serialize_meta-Halts : (off : ℕ) (m : Meta) (bytes : List ℕ) → Halts (serialize_meta off m bytes)
unfolding serialize_meta
serialize_meta-Halts off m bytes = ground arith

serialize_stake-Halts : (off : ℕ) (k : Stake) (bytes : List ℕ) → Halts (serialize_stake off k bytes)
unfolding serialize_stake
serialize_stake-Halts off k bytes = ground arith

serialize_into-Halts : (state : StakeStateV2) (z : List ℕ) → Halts (serialize_into state z)
unfolding serialize_into
serialize_into-Halts uninitialized z = tt
serialize_into-Halts (initialized m) z = grind (arith, serialize_meta-Halts)
serialize_into-Halts (staked m k f) z = grind (arith, serialize_meta-Halts, serialize_stake-Halts)
serialize_into-Halts rewards_pool z = tt

pub serialize-Halts : (state : StakeStateV2) (bytes : List ℕ) → Halts (serialize state bytes)
unfolding serialize
serialize-Halts state bytes = grind (arith, serialize_into-Halts)
