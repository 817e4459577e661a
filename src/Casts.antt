-- ===== src/Casts.antt =====
-- The pointer casts of program/src/state/state.rs and state/accounts.rs: an account's memory read as
-- a `repr(C)` struct from its first byte on. No handler calls them. What `_mut` gives is read the
-- same; writes through it are its caller's.
use mathlib.Core.List.{append_assoc}
use pinocchio_stake_program.Base.{
  ℕ, ◌+◌, ◌*◌, ◌%◌, ◌≡◌, ◌≤◌, ap, ◌∙◌, List, ◌∷◌, ◌++◌, length, take, Bool, Result, ok, fail_if,
  ◌>>◌, Gives, ltb, ◌==◌, ◌!=◌, not, arith, invalid_account_data, incorrect_program_id, leb, le→ltb,
  true, length-append,
}
use pinocchio_stake_program.Base.Int.{of_bits, to_bits}
use pinocchio_stake_program.Base.Bytes.{le_bytes, le_value, read_le}
use pinocchio_stake_program.Types.{
  Pubkey, Authorized, Lockup, Meta, initialized, id, u64_mod, u64_max,
}
use pinocchio_stake_program.Codec.{deserialize, read_meta, meta_size, meta_bytes}
use pinocchio_stake_program.Codec.RoundTrip.{length-meta_bytes}
use pinocchio_stake_program.Codec.Shape.{deserialize_long-initialized}
use pinocchio_stake_program.Runtime.{AccountInfo, Store}

-- `Authorized::new`, `is_staker` and `is_withdrawer`
abbrev pub new_authorized : Pubkey → Pubkey → Authorized
new_authorized staker withdrawer = record { staker = staker; withdrawer = withdrawer }

unfoldable pub is_staker : Authorized → Pubkey → Bool
is_staker a k = a.staker == k

unfoldable pub is_withdrawer : Authorized → Pubkey → Bool
is_withdrawer a k = a.withdrawer == k

-- `size()` of the three structs.
abbrev pub authorized_size : ℕ
authorized_size = 64

abbrev pub lockup_size : ℕ
lockup_size = 48

unfoldable pub read_authorized : List ℕ → Authorized
read_authorized bytes =
    let (staker, r1) = read_le 32 bytes in
    let (withdrawer, r2) = read_le 32 r1 in record { staker = staker; withdrawer = withdrawer }

unfoldable pub read_lockup : List ℕ → Lockup
read_lockup bytes =
    let (timestamp, r1) = read_le 8 bytes in
    let (epoch, r2) = read_le 8 r1 in
    let (custodian, r3) = read_le 32 r2 in
    record { unix_timestamp = of_bits timestamp; epoch = epoch; custodian = custodian }

unfoldable pub authorized_from : Store → AccountInfo → Result Authorized
authorized_from s ai = do
  fail_if (ltb (length (s ai.key).bytes) authorized_size) invalid_account_data
  ok (read_authorized (s ai.key).bytes)

unfoldable pub authorized_from_mut : Store → AccountInfo → Result Authorized
authorized_from_mut s ai = do
  fail_if (ltb (length (s ai.key).bytes) authorized_size) invalid_account_data
  ok (read_authorized (s ai.key).bytes)

unfoldable pub meta_from : Store → AccountInfo → Result Meta
meta_from s ai = do
  fail_if (ltb (length (s ai.key).bytes) meta_size) invalid_account_data
  fail_if (not ai.is_writable) invalid_account_data
  fail_if ((s ai.key).owner != id) incorrect_program_id
  ok (read_meta (s ai.key).bytes)

unfoldable pub meta_from_mut : Store → AccountInfo → Result Meta
meta_from_mut s ai = do
  fail_if (ltb (length (s ai.key).bytes) meta_size) invalid_account_data
  fail_if (not ai.is_writable) invalid_account_data
  fail_if ((s ai.key).owner != id) incorrect_program_id
  ok (read_meta (s ai.key).bytes)

unfoldable pub lockup_from : Store → AccountInfo → Result Lockup
lockup_from s ai = do
  fail_if (ltb (length (s ai.key).bytes) lockup_size) invalid_account_data
  fail_if ((s ai.key).owner != id) incorrect_program_id
  ok (read_lockup (s ai.key).bytes)

unfoldable pub lockup_from_mut : Store → AccountInfo → Result Lockup
lockup_from_mut s ai = do
  fail_if (ltb (length (s ai.key).bytes) lockup_size) invalid_account_data
  fail_if (not ai.is_writable) invalid_account_data
  fail_if ((s ai.key).owner != id) incorrect_program_id
  ok (read_lockup (s ai.key).bytes)

-- The second `Delegation` struct, of state/accounts.rs.
pub record PlainDelegation : Type 0 where
  pub voter_pubkey : Pubkey
  pub stake : ℕ
  pub activation_epoch : ℕ
  pub deactivation_epoch : ℕ
  pub warmup_cooldown_rate : ℕ

unfoldable pub is_active : PlainDelegation → Bool
is_active d = d.deactivation_epoch == u64_max

unfoldable pub is_fully_activated : PlainDelegation → ℕ → Bool
is_fully_activated d current_epoch = leb d.activation_epoch current_epoch

-- The low seven bytes of a word behind a byte 1.
shifted_word :
    (r : ℕ) (rest : List ℕ)
    → le_value (take 8 (1 ∷ (le_bytes 8 r ++ rest))) ≡ (1 + 256 * r) % u64_mod
unfolding le_value le_bytes
shifted_word r rest = omega arith

shifted_reserve :
    (m : Meta) (rest : List ℕ)
    → (read_meta (1 ∷ (meta_bytes m ++ rest))).rent_exempt_reserve
      ≡ (1 + 256 * m.rent_exempt_reserve) % u64_mod
unfolding read_meta read_le meta_bytes
shifted_reserve m rest =
    let fields =
      le_bytes 32 m.authorized.staker
      ++ (le_bytes 32 m.authorized.withdrawer
          ++ (le_bytes 8 (to_bits m.lockup.unix_timestamp)
              ++ (le_bytes 8 m.lockup.epoch ++ le_bytes 32 m.lockup.custodian))) in
    ap (λ (bs : List ℕ). le_value (take 8 (1 ∷ bs)))
      (append_assoc (le_bytes 8 m.rent_exempt_reserve) fields rest)
    ∙ shifted_word m.rent_exempt_reserve (fields ++ rest)

-- An initialized account's bytes have the state's variant before its metadata, which the cast does
-- not skip: the reserve that it gives is the metadata's, moved up by one byte.
pub meta_from-shifted :
    (s : Store) (ai : AccountInfo) (m : Meta) (rest : List ℕ)
    → (s ai.key).bytes ≡ 1 ∷ (meta_bytes m ++ rest)
    → (s ai.key).owner ≡ id
    → ai.is_writable ≡ true
    → (deserialize (s ai.key).bytes ≡ ok (initialized (read_meta (meta_bytes m ++ rest))))
      × Gives
          (meta_from s ai)
          λ m'. m'.rent_exempt_reserve ≡ (1 + 256 * m.rent_exempt_reserve) % u64_mod
unfolding meta_from
meta_from-shifted s ai m rest stored owned writable =
    let sizes = length-append (meta_bytes m) rest in
    let part = length-meta_bytes m in
    let long : 120 ≤ length (1 ∷ (meta_bytes m ++ rest)) = omega arith in
    (
      rw stored (deserialize_long-initialized (meta_bytes m ++ rest) (omega arith)),
      rw stored (rw (le→ltb _ _ long) (rw writable (rw owned (shifted_reserve m rest)))),
    )
