-- ===== src/Instruction/SetLockup/Checked.antt =====
-- `LockupCheckedData::parse` on the bytes of its fields, and the handler
-- (program/src/instruction/process_set_lockup_checked.rs) on them.
use pinocchio_stake_program.Base.{
  ℕ, ◌≡◌, ◌<◌, ◌↔◌, true, false, Option, none, some, List, [], ◌∷◌, ◌++◌, length, ok, Post, Post-of,
  arith, refl, length-append, take-append, drop-append, get_elem?, ltb, ◌==◌,
}
use Prim.Native.Nat.{bit_and}
use pinocchio_stake_program.Base.Int.{ℤ, to_bits, of_bits-to_bits, to_bits-lt, IsI64}
use pinocchio_stake_program.Base.Bytes.{le_bytes, length-le_bytes, le_value-le_bytes}
use pinocchio_stake_program.Types.{
  Pubkey, Clock, StakeStateV2, uninitialized, initialized, staked, rewards_pool, SetLockupData,
  u64_mod,
}
use pinocchio_stake_program.Runtime.{AccountInfo, Store, Runtime}
use pinocchio_stake_program.Instruction.SetLockup.{
  lockup_state, parse_checked, optional_word, custodian_update, process_set_lockup_checked,
  apply_lockup_update,
}
use pinocchio_stake_program.Instruction.SetLockup.Policy.{
  SetsLockup, SetsLockupBy, checked_lockup_state-lockup_state, lockup_state-SetsLockup,
}

-- An optional field is absent, or eight bytes.
abbrev pub word_bytes : Option ℕ → List ℕ
word_bytes none = []
word_bytes (some n) = le_bytes 8 n

abbrev pub timestamp_bytes : Option ℤ → List ℕ
timestamp_bytes none = []
timestamp_bytes (some t) = le_bytes 8 (to_bits t)

-- The bits 1 and 2 of the first byte say which fields follow.
abbrev pub presence : Option ℤ → Option ℕ → ℕ
presence none none = 0
presence (some t) none = 1
presence none (some e) = 2
presence (some t) (some e) = 3

-- `[flags(1)] [unix_timestamp(8)]? [epoch(8)]?`, and whatever follows.
abbrev pub checked_payload : Option ℤ → Option ℕ → List ℕ → List ℕ
checked_payload ts ep rest = presence ts ep ∷ (timestamp_bytes ts ++ (word_bytes ep ++ rest))

abbrev pub TimestampFits : Option ℤ → Type 0
TimestampFits none = Unit
TimestampFits (some t) = IsI64 t

abbrev pub EpochFits : Option ℕ → Type 0
EpochFits none = Unit
EpochFits (some e) = e < u64_mod

word_there :
    (flags bit n : ℕ) (rest : List ℕ)
    → (bit_and flags bit == 0) ≡ false
    → n < u64_mod
    → optional_word flags bit (le_bytes 8 n ++ rest) ≡ ok (some n, rest)
unfolding optional_word
word_there flags bit n rest f h =
    let long = length-append (le_bytes 8 n) rest in
    let eight = length-le_bytes 8 n in
    let field = take-append 8 (le_bytes 8 n) rest eight in
    let behind = drop-append 8 (le_bytes 8 n) rest eight in
    let value = le_value-le_bytes 8 n h in
    let enough : ltb (length (le_bytes 8 n ++ rest)) 8 ≡ false = rw (long, eight) (ground arith) in
    rw (f, enough, field, behind, value) refl

word_absent :
    (flags bit : ℕ) (bytes : List ℕ)
    → (bit_and flags bit == 0) ≡ true
    → optional_word flags bit bytes ≡ ok (none, bytes)
unfolding optional_word
word_absent flags bit bytes f = rw f refl

parse_checked-checked_payload :
    (ts : Option ℤ) (ep : Option ℕ) (rest : List ℕ)
    → TimestampFits ts
    → EpochFits ep
    → parse_checked (checked_payload ts ep rest) ≡ ok (record { unix_timestamp = ts; epoch = ep })
unfolding parse_checked
parse_checked-checked_payload none none rest h g =
    let first = word_absent 0 1 rest refl in let second = word_absent 0 2 rest refl in grind arith
parse_checked-checked_payload none (some e) rest h g =
    let first = word_absent 2 1 (le_bytes 8 e ++ rest) refl in
    let second = word_there 2 2 e rest refl g in grind arith
parse_checked-checked_payload (some t) none rest h g =
    let first = word_there 1 1 (to_bits t) rest refl (to_bits-lt t h) in
    let second = word_absent 1 2 rest refl in let back = of_bits-to_bits t h in grind arith
parse_checked-checked_payload (some t) (some e) rest h g =
    let first = word_there 3 1 (to_bits t) (le_bytes 8 e ++ rest) refl (to_bits-lt t h) in
    let second = word_there 3 2 e rest refl g in let back = of_bits-to_bits t h in grind arith

abbrev pub key_if_there : Option AccountInfo → Option Pubkey
key_if_there none = none
key_if_there (some ai) = some ai.key

abbrev pub SignedIfThere : Option AccountInfo → Type 0
SignedIfThere none = Unit
SignedIfThere (some ai) = ai.is_signer ≡ true

-- The fields of the update: those of the payload, and the third account's key.
abbrev pub fields_of : Option ℤ → Option ℕ → List AccountInfo → SetLockupData
fields_of ts ep accounts = record {
  unix_timestamp = ts;
  epoch = ep;
  custodian = key_if_there (get_elem? accounts 2);
}

custodian_update-Post :
    (accounts : List AccountInfo)
    → Post
        (λ c. SignedIfThere (get_elem? accounts 2) × (c ≡ key_if_there (get_elem? accounts 2)))
        (custodian_update accounts)
unfolding custodian_update
custodian_update-Post accounts = ground arith

custodian_update-there :
    (accounts : List AccountInfo)
    → SignedIfThere (get_elem? accounts 2)
    → custodian_update accounts ≡ ok (key_if_there (get_elem? accounts 2))
unfolding custodian_update
custodian_update-there accounts h = ground arith

lockup_state-of :
    (s : Store) (ai : AccountInfo) (args : SetLockupData) (clock : Clock) (signers : List Pubkey)
    (state : StakeStateV2) {s' : Store}
    → SetsLockup s ai args clock signers state s'
    → lockup_state s ai args clock signers state ≡ ok s'
unfolding lockup_state apply_lockup_update
lockup_state-of s ai args clock signers (initialized m) h = grind arith
lockup_state-of s ai args clock signers (staked m k flags) h = grind arith
lockup_state-of s ai args clock signers uninitialized h = absurd h
lockup_state-of s ai args clock signers rewards_pool h = absurd h

module _ (rt : Runtime) (s : Store) (stake_account : AccountInfo) (others : List AccountInfo)
    (ts : Option ℤ) (ep : Option ℕ) where
  abbrev pub CheckedSets : Store → Type 0
  CheckedSets s' =
      SignedIfThere (get_elem? (stake_account ∷ others) 2)
      × SetsLockupBy rt s stake_account (stake_account ∷ others)
          (fields_of ts ep (stake_account ∷ others)) s'

  module _ (rest : List ℕ) (fits : TimestampFits ts) (epoch_fits : EpochFits ep) where
    set_lockup_checked-Post :
        Post CheckedSets
          (process_set_lockup_checked rt s (stake_account ∷ others) (checked_payload ts ep rest))
    unfolding process_set_lockup_checked
    set_lockup_checked-Post =
        let accounts = stake_account ∷ others in
        let args = fields_of ts ep accounts in
        let parsed = parse_checked-checked_payload ts ep rest fits epoch_fits in
        let third = custodian_update-Post accounts in
        let same = checked_lockup_state-lockup_state s stake_account args in
        let set = lockup_state-SetsLockup s stake_account args in rw parsed (grind arith)

    set_lockup_checked-of :
        {s' : Store}
        → CheckedSets s'
        → process_set_lockup_checked rt s (stake_account ∷ others) (checked_payload ts ep rest)
          ≡ ok s'
    unfolding process_set_lockup_checked
    set_lockup_checked-of (signed, h) =
        let accounts = stake_account ∷ others in
        let args = fields_of ts ep accounts in
        let parsed = parse_checked-checked_payload ts ep rest fits epoch_fits in
        let third = custodian_update-there accounts signed in
        let same = checked_lockup_state-lockup_state s stake_account args in
        let set = lockup_state-of s stake_account args in rw (parsed, third) (grind arith)

    -- The checked change of a lockup, on a payload with any of the two fields, which fit their
    -- eight bytes, succeeds with a store exactly when the clock, the signers and a state with
    -- metadata are read; the third account, if there is one, signs; the custodian signed, while
    -- the lockup binds, or the withdrawer, when it does not; and the store is the one written
    -- with the state in which the lockup has the payload's timestamp and epoch and the third
    -- account's key as its custodian, and keeps each of the three that is not given. Bytes behind
    -- the fields are not read.
    pub set_lockup_checked_iff :
        {s' : Store}
        → (process_set_lockup_checked rt s (stake_account ∷ others) (checked_payload ts ep rest)
            ≡ ok s')
          ↔ CheckedSets s'
    set_lockup_checked_iff = (
      λ e.
          Post-of CheckedSets
            (process_set_lockup_checked rt s (stake_account ∷ others) (checked_payload ts ep rest))
            set_lockup_checked-Post e,
      λ h. set_lockup_checked-of h,
    )
