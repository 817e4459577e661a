-- ===== src/Helpers/Signers.antt =====
-- `collect_signers` of program/src/helpers/utils.rs, and membership in lists of keys.
use pinocchio_stake_program.Base.{
  ℕ, ◌+◌, ◌≡◌, ◌≤◌, inl, inr, zero, suc, List, [], ◌∷◌, ◌++◌, Result, ok, fail, custom, arith, refl,
  length, leb, ltb, ◌==◌, ◌||◌, if◌then◌else◌, replicate, Bool-cases, tests, ◌&&◌,
}
use pinocchio_stake_program.Types.{Pubkey, contains, maximum_signers}
use pinocchio_stake_program.Runtime.{AccountInfo}
use pinocchio_stake_program.Helpers.{collect_from, collect_signers}

-- The keys of the accounts that signed, in order.
abbrev pub signed_keys : List AccountInfo → List Pubkey
signed_keys [] = []
signed_keys (a ∷ accounts) =
    if a.is_signer then a.key ∷ signed_keys accounts else signed_keys accounts

abbrev bounded : ℕ → List Pubkey → Result (List Pubkey)
bounded n keys = if leb (n + length keys) maximum_signers then ok keys else fail (custom 1)

collect_from-bounded :
    (n : ℕ) (accounts : List AccountInfo)
    → n ≤ maximum_signers
    → collect_from n accounts ≡ bounded n (signed_keys accounts)
unfolding collect_from
collect_from-bounded n [] le = ground arith
collect_from-bounded n (a ∷ accounts) le = elim (Bool-cases (a.is_signer)) [
  | inr e ↦ ground (arith, collect_from-bounded n accounts le)
  | inl e ↦ elim (Bool-cases (ltb n maximum_signers)) [
    | inl more ↦ ground (arith, collect_from-bounded (n + 1) accounts (omega tests))
    | inr full ↦ ground arith
  ]
]

-- The signers collected are the keys of the accounts that signed, in order; with more than 32 of
-- them, and only then, the collection fails.
pub collect_signers-signed_keys :
    (accounts : List AccountInfo)
    → collect_signers accounts ≡ (
        if leb (length (signed_keys accounts)) maximum_signers
        then ok (signed_keys accounts)
        else fail (custom 1))
unfolding collect_signers
collect_signers-signed_keys accounts =
    let h = collect_from-bounded 0 accounts (omega arith) in ground arith

pub contains-++ :
    (keys others : List Pubkey) (k : Pubkey)
    → contains (keys ++ others) k ≡ (contains keys k || contains others k)
unfolding contains
contains-++ [] others k = refl
contains-++ (a ∷ keys) others k = ground (arith, contains-++ keys others k)

pub contains-replicate : (n : ℕ) (a k : Pubkey) → contains (replicate n a) k ≡ (ltb 0 n && a == k)
unfolding contains
contains-replicate zero a k = refl
contains-replicate (suc n) a k = ground (arith, contains-replicate n a k)
