-- ===== src/Entrypoint/Wire/Payloads.antt =====
-- The two formats of an instruction in program/src/entrypoint.rs: a typed one, and a number with a
-- payload of bytes.
use pinocchio_stake_program.Base.{
  ℕ, ◌+◌, ◌<◌, ◌≤◌, ◌^◌, ◌≡◌, refl, ap, ◌∙◌, List, [], ◌∷◌, ◌++◌, length, take, drop, arith, ok,
  length-append, take-append, drop-append,
}
use pinocchio_stake_program.Base.Int.{to_bits, of_bits, of_bits-to_bits, to_bits-lt, IsI64}
use pinocchio_stake_program.Base.Bytes.{le_bytes, le_value, length-le_bytes, le_value-le_bytes}
use pinocchio_stake_program.Base.Slots.{drop-drop, take_all}
use pinocchio_stake_program.Types.{
  Pubkey, Authorized, Lockup, pubkey_mod, u64_mod, StakeAuthorize, staker_role, withdrawer_role,
}
use pinocchio_stake_program.Runtime.{AccountInfo, Store, Runtime}
use pinocchio_stake_program.Instruction.Initialize.{initialize as run_initialize}
use pinocchio_stake_program.Instruction.Authorize.{
  process_authorize, process_authorize_checked, process_authorized_with_seeds,
  process_authorize_checked_with_seed,
}
use pinocchio_stake_program.Entrypoint.{
  run_initialize_payload, run_authorize_payload, run_with_seed_payload, run_checked_payload,
  run_checked_with_seed_payload, role_of, byte_at, key_at, word_at, slice, read_with_seed,
  read_initialize, read_u64,
}
use pinocchio_stake_program.Seeds.{seed_byte, seed_key}
use pinocchio_stake_program.Seeds.Layout.{
  role_number, payload, field_key, field_role, field_len, length-payload,
}

role_of-role_number : (role : StakeAuthorize) → role_of (role_number role) ≡ ok role
unfolding role_of
role_of-role_number staker_role = refl
role_of-role_number withdrawer_role = refl

pub read_u64-le_bytes : (n : ℕ) → n < u64_mod → read_u64 (le_bytes 8 n) ≡ ok n
unfolding read_u64
read_u64-le_bytes n h = rw (length-le_bytes 8 n) (rw (le_value-le_bytes 8 n h) refl)

-- `[staker(32)] [withdrawer(32)] [unix_timestamp(8)] [epoch(8)] [custodian(32)]`
abbrev pub initialize_payload : Authorized → Lockup → List ℕ
initialize_payload a l =
    le_bytes 32 a.staker
    ++ (le_bytes 32 a.withdrawer
        ++ (le_bytes 8 (to_bits l.unix_timestamp)
            ++ (le_bytes 8 l.epoch ++ le_bytes 32 l.custodian)))

-- `[new_authority(32)] [role(1)] [seed_len(1)] [seed] [owner(32)]`
abbrev pub seed_payload : Pubkey → StakeAuthorize → List ℕ → Pubkey → List ℕ
seed_payload k role seed owner =
    le_bytes 32 k ++ (role_number role ∷ (length seed ∷ (seed ++ le_bytes 32 owner)))

-- A field of `w` bytes behind `n` others.
field_at :
    (n w v : ℕ) (bytes rest : List ℕ)
    → drop n bytes ≡ le_bytes w v ++ rest
    → v < 256 ^ w
    → le_value (take w (drop n bytes)) ≡ v
field_at n w v bytes rest e h =
    rw e (rw (take-append w (le_bytes w v) rest (length-le_bytes w v)) (le_value-le_bytes w v h))

slice_in :
    (payload : List ℕ) (off n : ℕ)
    → off + n ≤ length payload
    → slice payload off n ≡ ok (take n (drop off payload))
unfolding slice
slice_in payload off n h = ground arith

-- The readers, in range.
key_at_in :
    (payload : List ℕ) (off v : ℕ)
    → off + 32 ≤ length payload
    → le_value (take 32 (drop off payload)) ≡ v
    → key_at payload off ≡ ok v
unfolding key_at
key_at_in payload off v h e = rw (slice_in payload off 32 h, e) refl

word_at_in :
    (payload : List ℕ) (off v : ℕ)
    → off + 8 ≤ length payload
    → le_value (take 8 (drop off payload)) ≡ v
    → word_at payload off ≡ ok v
unfolding word_at
word_at_in payload off v h e = rw (slice_in payload off 8 h, e) refl

byte_at_in :
    (payload : List ℕ) (i v : ℕ)
    → i < length payload
    → le_value (take 1 (drop i payload)) ≡ v
    → byte_at payload i ≡ ok v
unfolding byte_at
byte_at_in payload i v h e = rw (slice_in payload i 1 (omega arith), e) refl

-- What stands behind that field.
behind :
    (n w v : ℕ) (bytes rest : List ℕ)
    → drop n bytes ≡ le_bytes w v ++ rest
    → drop (n + w) bytes ≡ rest
behind n w v bytes rest e =
    drop-drop n w bytes ∙ rw e (drop-append w (le_bytes w v) rest (length-le_bytes w v))

one_byte : (b : ℕ) → le_value (take 1 (b ∷ [])) ≡ b
unfolding le_value
one_byte b = omega arith

whole_key : (k : Pubkey) → k < pubkey_mod → le_value (take 32 (le_bytes 32 k)) ≡ k
whole_key k h =
    ap (λ (bs : List ℕ). le_value bs)
      (take_all 32 (le_bytes 32 k) (let long = length-le_bytes 32 k in omega arith))
    ∙ le_value-le_bytes 32 k h

length-initialize_payload : (a : Authorized) (l : Lockup) → length (initialize_payload a l) ≡ 112
length-initialize_payload a l =
    let c = le_bytes 32 l.custodian in
    let r3 = le_bytes 8 l.epoch ++ c in
    let r2 = le_bytes 8 (to_bits l.unix_timestamp) ++ r3 in
    let r1 = le_bytes 32 a.withdrawer ++ r2 in
    omega (
      arith,
      length-append (le_bytes 32 a.staker) r1,
      length-append (le_bytes 32 a.withdrawer) r2,
      length-append (le_bytes 8 (to_bits l.unix_timestamp)) r3,
      length-append (le_bytes 8 l.epoch) c,
      length-le_bytes 32 a.staker,
      length-le_bytes 32 a.withdrawer,
      length-le_bytes 8 (to_bits l.unix_timestamp),
      length-le_bytes 8 l.epoch,
      length-le_bytes 32 l.custodian,
    )

-- The words of the arguments of `Initialize` fit their widths.
pub record InitializeFits (a : Authorized) (l : Lockup) : Type 0 where
  pub staker_fits : a.staker < pubkey_mod
  pub withdrawer_fits : a.withdrawer < pubkey_mod
  pub timestamp_fits : IsI64 l.unix_timestamp
  pub epoch_fits : l.epoch < u64_mod
  pub custodian_fits : l.custodian < pubkey_mod

module _ (rt : Runtime) (s : Store) (accounts : List AccountInfo) where
  run_authorize_fields :
      (bytes : List ℕ) (k : Pubkey) (role : StakeAuthorize)
      → length bytes ≡ 33
      → le_value (take 32 (drop 0 bytes)) ≡ k
      → le_value (take 1 (drop 32 bytes)) ≡ role_number role
      → run_authorize_payload rt s accounts bytes ≡ process_authorize rt s accounts k role
  unfolding run_authorize_payload
  run_authorize_fields bytes k role long hk hr = rw (long, hk, hr, role_of-role_number role) refl

  run_with_seed_fields :
      (bytes : List ℕ) (k : Pubkey) (role : StakeAuthorize) (n : ℕ)
      → 34 + n + 32 ≤ length bytes
      → le_value (take 32 (drop 0 bytes)) ≡ k
      → le_value (take 1 (drop 32 bytes)) ≡ role_number role
      → le_value (take 1 (drop 33 bytes)) ≡ n
      → run_with_seed_payload rt s accounts bytes
        ≡ process_authorized_with_seeds rt s accounts k role
  unfolding run_with_seed_payload read_with_seed
  run_with_seed_fields bytes k role n long hk hr hn =
      let key = key_at_in bytes 0 k (omega arith) hk in
      let b = byte_at_in bytes 32 (role_number role) (omega arith) hr in
      let ro = role_of-role_number role in
      let len = byte_at_in bytes 33 n (omega arith) hn in
      let seed = slice_in bytes 34 n (omega arith) in
      let owner =
        key_at_in bytes (34 + n) (le_value (take 32 (drop (34 + n) bytes))) (omega arith) refl in
      grind arith

  run_checked_with_seed_fields :
      (bytes : List ℕ) (role : StakeAuthorize)
      → 34 ≤ length bytes
      → le_value (take 1 (drop 32 bytes)) ≡ role_number role
      → run_checked_with_seed_payload rt s accounts bytes
        ≡ process_authorize_checked_with_seed rt s accounts role
  unfolding run_checked_with_seed_payload
  run_checked_with_seed_fields bytes role long hr =
      let b = byte_at_in bytes 32 (role_number role) (omega arith) hr in
      let ro = role_of-role_number role in grind arith

  run_initialize_fields :
      (bytes : List ℕ) (a : Authorized) (l : Lockup)
      → length bytes ≡ 112
      → le_value (take 32 (drop 0 bytes)) ≡ a.staker
      → le_value (take 32 (drop 32 bytes)) ≡ a.withdrawer
      → le_value (take 8 (drop 64 bytes)) ≡ to_bits l.unix_timestamp
      → of_bits (to_bits l.unix_timestamp) ≡ l.unix_timestamp
      → le_value (take 8 (drop 72 bytes)) ≡ l.epoch
      → le_value (take 32 (drop 80 bytes)) ≡ l.custodian
      → run_initialize_payload rt s accounts bytes ≡ run_initialize rt s accounts a l
  unfolding run_initialize_payload read_initialize
  run_initialize_fields bytes a l long h1 h2 h3 back h4 h5 =
      rw (long, h1, h2, h3, back, h4, h5) refl

  pub run_checked_payload-encoded :
      (role : StakeAuthorize)
      → run_checked_payload rt s accounts (role_number role ∷ [])
        ≡ process_authorize_checked rt s accounts role
  unfolding run_checked_payload byte_at role_of le_value slice
  run_checked_payload-encoded staker_role = refl
  run_checked_payload-encoded withdrawer_role = refl

  pub run_authorize_payload-encoded :
      (k : Pubkey) (role : StakeAuthorize)
      → k < pubkey_mod
      → run_authorize_payload rt s accounts (le_bytes 32 k ++ (role_number role ∷ []))
        ≡ process_authorize rt s accounts k role
  run_authorize_payload-encoded k role h =
      let bytes = le_bytes 32 k ++ (role_number role ∷ []) in
      let tail : drop 32 bytes ≡ role_number role ∷ [] =
        behind 0 32 k bytes (role_number role ∷ []) refl in
      run_authorize_fields bytes k role
        (length-append (le_bytes 32 k) (role_number role ∷ []) ∙ rw (length-le_bytes 32 k) refl)
        (field_at 0 32 k bytes (role_number role ∷ []) refl h)
        (rw tail (one_byte (role_number role)))

  pub run_initialize_payload-encoded :
      (a : Authorized) (l : Lockup)
      → InitializeFits a l
      → run_initialize_payload rt s accounts (initialize_payload a l)
        ≡ run_initialize rt s accounts a l
  run_initialize_payload-encoded a l fits =
      let bytes = initialize_payload a l in
      let c = le_bytes 32 l.custodian in
      let r3 = le_bytes 8 l.epoch ++ c in
      let r2 = le_bytes 8 (to_bits l.unix_timestamp) ++ r3 in
      let r1 = le_bytes 32 a.withdrawer ++ r2 in
      let e1 : drop 32 bytes ≡ r1 = behind 0 32 a.staker bytes r1 refl in
      let e2 : drop 64 bytes ≡ r2 = behind 32 32 a.withdrawer bytes r2 e1 in
      let e3 : drop 72 bytes ≡ r3 = behind 64 8 (to_bits l.unix_timestamp) bytes r3 e2 in
      let e4 : drop 80 bytes ≡ c = behind 72 8 l.epoch bytes c e3 in
      run_initialize_fields bytes a l (length-initialize_payload a l)
        (field_at 0 32 a.staker bytes r1 refl fits.staker_fits)
        (field_at 32 32 a.withdrawer bytes r2 e1 fits.withdrawer_fits)
        (field_at 64 8 (to_bits l.unix_timestamp) bytes r3 e2
          (to_bits-lt l.unix_timestamp fits.timestamp_fits))
        (of_bits-to_bits l.unix_timestamp fits.timestamp_fits)
        (field_at 72 8 l.epoch bytes c e3 fits.epoch_fits)
        (rw e4 (whole_key l.custodian fits.custodian_fits))

  pub run_with_seed_payload-encoded :
      (k : Pubkey) (role : StakeAuthorize) (seed : List ℕ) (owner : Pubkey)
      → k < pubkey_mod
      → run_with_seed_payload rt s accounts (seed_payload k role seed owner)
        ≡ process_authorized_with_seeds rt s accounts k role
  unfolding seed_byte seed_key
  run_with_seed_payload-encoded k role seed owner h =
      let key = le_bytes 32 k in
      let o = le_bytes 32 owner in
      let r = role_number role in
      let n = length seed in
      let lk = length-le_bytes 32 k in
      let sizes = length-payload key r n seed o lk in
      let lo = length-le_bytes 32 owner in
      run_with_seed_fields (payload key r n seed o lk) k role n (omega arith)
        (field_key key r n seed o lk ∙ le_value-le_bytes 32 k h) (field_role key r n seed o lk)
        (field_len key r n seed o lk)

  pub run_checked_with_seed_payload-encoded :
      (k : Pubkey) (role : StakeAuthorize) (seed : List ℕ) (owner : Pubkey)
      → run_checked_with_seed_payload rt s accounts (seed_payload k role seed owner)
        ≡ process_authorize_checked_with_seed rt s accounts role
  unfolding seed_byte
  run_checked_with_seed_payload-encoded k role seed owner =
      let key = le_bytes 32 k in
      let o = le_bytes 32 owner in
      let r = role_number role in
      let n = length seed in
      let lk = length-le_bytes 32 k in
      let sizes = length-payload key r n seed o lk in
      run_checked_with_seed_fields (payload key r n seed o lk) role (omega arith)
        (field_role key r n seed o lk)
