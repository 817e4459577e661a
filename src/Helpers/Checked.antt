-- ===== src/Helpers/Checked.antt =====
-- `collect_signers_checked` of program/src/helpers/utils.rs, which no handler calls. The ordered set
-- that it fills is asked for membership alone: its test stands for it.
use pinocchio_stake_program.Base.{
  ◌≡◌, refl, ◌⊎◌, inl, inr, Bool, true, false, ◌||◌, not, Option, none, some, List, [], ◌∷◌, ◌++◌,
  Result, ok, fail, ◌>>=◌, ◌==◌, if◌then◌else◌, Gives, arith, Bool-cases,
  missing_required_signature,
}
use pinocchio_stake_program.Types.{Pubkey, contains}
use pinocchio_stake_program.Runtime.{AccountInfo}

-- `BTreeSet<Pubkey>`
abbrev pub KeySet : Type 0
KeySet = Pubkey → Bool

abbrev pub no_keys : KeySet
no_keys k = false

abbrev pub insert : KeySet → Pubkey → KeySet
insert keys a k = a == k || keys k

-- An optional account that must sign if it is there: its key is put into the set.
unfoldable pub insert_signer : Option AccountInfo → KeySet → Result (KeySet × Option Pubkey)
insert_signer none keys = ok (keys, none)
insert_signer (some ai) keys =
    if ai.is_signer then ok (insert keys ai.key, some ai.key) else fail missing_required_signature

unfoldable pub collect_signers_checked :
    Option AccountInfo → Option AccountInfo → Result (KeySet × Option Pubkey)
collect_signers_checked authority_info custodian_info = do
  (signers, authority) ← insert_signer authority_info no_keys
  insert_signer custodian_info signers

abbrev pub has_not_signed : Option AccountInfo → Bool
has_not_signed none = false
has_not_signed (some ai) = not ai.is_signer

abbrev pub key_of : Option AccountInfo → Option Pubkey
key_of none = none
key_of (some ai) = some ai.key

abbrev pub keys_of : Option AccountInfo → List Pubkey
keys_of none = []
keys_of (some ai) = ai.key ∷ []

-- It fails exactly when one of the given accounts has not signed; otherwise the set has the keys of
-- those given and no other, and the custodian's key is passed on.
pub collect_signers_checked-Checked :
    (authority custodian : Option AccountInfo)
    → ((has_not_signed authority || has_not_signed custodian ≡ true)
        × (collect_signers_checked authority custodian ≡ fail missing_required_signature))
      ⊎ ((has_not_signed authority || has_not_signed custodian ≡ false)
          × Gives (collect_signers_checked authority custodian) λ r.
            ((k : Pubkey) → r.0 k ≡ contains (keys_of authority ++ keys_of custodian) k)
            × (r.1 ≡ key_of custodian))
unfolding collect_signers_checked insert_signer contains
collect_signers_checked-Checked none none = inr (refl, (λ k. refl, refl))
collect_signers_checked-Checked none (some c) = elim (Bool-cases c.is_signer) [
  | inl signed ↦ rw signed (inr (refl, (λ k. refl, refl)))
  | inr unsigned ↦ rw unsigned (inl (refl, refl))
]
collect_signers_checked-Checked (some a) none = elim (Bool-cases a.is_signer) [
  | inl signed ↦ rw signed (inr (refl, (λ k. refl, refl)))
  | inr unsigned ↦ rw unsigned (inl (refl, refl))
]
collect_signers_checked-Checked (some a) (some c) = elim (Bool-cases a.is_signer) [
  | inl signed ↦ elim (Bool-cases c.is_signer) [
    | inl signed2 ↦ rw (signed, signed2) (inr (refl, (λ k. ground arith, refl)))
    | inr unsigned ↦ rw (signed, unsigned) (inl (refl, refl))
  ]
  | inr unsigned ↦ rw unsigned (inl (refl, refl))
]
