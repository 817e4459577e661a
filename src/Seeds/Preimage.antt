-- ===== src/Seeds/Preimage.antt =====
-- The derivation of an address from a base and a seed
-- (program/src/instruction/process_authorize_checked_with_seed.rs).
use pinocchio_stake_program.Base.{
  ℕ, ◌<◌, ◌≡◌, refl, sym, ap, ◌∙◌, List, ◌++◌, length, take, drop, arith, length-append,
  take-append, drop-append,
}
use pinocchio_stake_program.Base.Bytes.{le_bytes, le_value, length-le_bytes, le_value-le_bytes}
use pinocchio_stake_program.Types.{Pubkey, pubkey_mod}
use pinocchio_stake_program.Seeds.{preimage}

le_bytes-injective :
    (k k' : Pubkey) → k < pubkey_mod → k' < pubkey_mod → le_bytes 32 k ≡ le_bytes 32 k' → k ≡ k'
le_bytes-injective k k' h h' e =
    sym (le_value-le_bytes 32 k h)
    ∙ ap (λ (bs : List ℕ). le_value bs) e
    ∙ le_value-le_bytes 32 k' h'

module _ (base base' : Pubkey) (seed seed' : List ℕ) (owner owner' : Pubkey) where
  -- The bytes that are hashed determine the base, the seed and the owner: two addresses that are
  -- derived from different ones are two values of the hash function.
  pub preimage-injective :
      base < pubkey_mod
      → base' < pubkey_mod
      → owner < pubkey_mod
      → owner' < pubkey_mod
      → preimage base seed owner ≡ preimage base' seed' owner'
      → (base ≡ base') × (seed ≡ seed') × (owner ≡ owner')
  unfolding preimage
  preimage-injective hb hb' ho ho' e =
      let a = le_bytes 32 base in
      let a' = le_bytes 32 base' in
      let o = le_bytes 32 owner in
      let o' = le_bytes 32 owner' in
      let la : length a ≡ 32 = length-le_bytes 32 base in
      let la' : length a' ≡ 32 = length-le_bytes 32 base' in
      let lo : length o ≡ 32 = length-le_bytes 32 owner in
      let lo' : length o' ≡ 32 = length-le_bytes 32 owner' in
      let front : a ≡ a' =
        sym (take-append 32 a (seed ++ o) la)
        ∙ ap (λ (bs : List ℕ). take 32 bs) e
        ∙ take-append 32 a' (seed' ++ o') la' in
      let back : seed ++ o ≡ seed' ++ o' =
        sym (drop-append 32 a (seed ++ o) la)
        ∙ ap (λ (bs : List ℕ). drop 32 bs) e
        ∙ drop-append 32 a' (seed' ++ o') la' in
      let sizes : length seed ≡ length seed' = omega (
        arith,
        ap (λ (bs : List ℕ). length bs) back,
        length-append seed o,
        length-append seed' o',
      ) in
      let seeds : seed ≡ seed' =
        sym (take-append (length seed) seed o refl)
        ∙ ap (λ (bs : List ℕ). take (length seed) bs) back
        ∙ take-append (length seed) seed' o' (sym sizes) in
      let owners : o ≡ o' =
        sym (drop-append (length seed) seed o refl)
        ∙ ap (λ (bs : List ℕ). drop (length seed) bs) back
        ∙ drop-append (length seed) seed' o' (sym sizes) in
      (
        le_bytes-injective base base' hb hb' front,
        seeds,
        le_bytes-injective owner owner' ho ho' owners,
      )
