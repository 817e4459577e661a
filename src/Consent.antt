-- ===== src/Consent.antt =====
-- Who has to sign an instruction of program/src/entrypoint.rs on a stake account: the authorities
-- that program/src/instruction/ checks, instruction by instruction.
pub mod Authority
pub mod Transfers
pub mod Moves
pub mod Seconds
pub mod Dispatch
pub mod Accounts
pub mod Exempt
use pinocchio_stake_program.Base.{
  ◌≡◌, ◌⊎◌, true, List, ◌∷◌, Result, ok, Post, Post-of, arith, if◌then◌else◌, leb, length, fail,
  custom,
}
use pinocchio_stake_program.Types.{
  Pubkey, Meta, StakeStateV2, uninitialized, initialized, staked, rewards_pool, contains,
  default_pubkey, maximum_signers,
}
use pinocchio_stake_program.Runtime.{AccountInfo}
use pinocchio_stake_program.Helpers.{collect_signers}
use pinocchio_stake_program.Helpers.Signers.{signed_keys, collect_signers-signed_keys}
use pinocchio_stake_program.Entrypoint.{
  StakeInstruction, initialize, authorize, delegate_stake, split, withdraw, deactivate, set_lockup,
  merge, authorize_with_seed, initialize_checked, authorize_checked, authorize_checked_with_seed,
  set_lockup_checked, get_minimum_delegation, deactivate_delinquent, redelegate, move_stake,
  move_lamports,
}

-- A key is that of an account that signed.
unfoldable pub Signed : List AccountInfo → Pubkey → Type 0
Signed accounts k = contains (signed_keys accounts) k ≡ true

abbrev pub StakerSigned : List AccountInfo → Meta → Type 0
StakerSigned accounts m = Signed accounts m.authorized.staker

abbrev pub WithdrawerSigned : List AccountInfo → Meta → Type 0
WithdrawerSigned accounts m = Signed accounts m.authorized.withdrawer

-- Either authority: each role may be given on by the one that holds it, and the staker's by the
-- withdrawer too.
abbrev pub AuthoritySigned : List AccountInfo → Meta → Type 0
AuthoritySigned accounts m = StakerSigned accounts m ⊎ WithdrawerSigned accounts m

-- The withdrawer, or the custodian of a lockup in force.
abbrev pub LockupSigned : List AccountInfo → Meta → Type 0
LockupSigned accounts m = WithdrawerSigned accounts m ⊎ Signed accounts m.lockup.custodian

-- What an instruction needs, of the first account's metadata.
abbrev pub Consented : List AccountInfo → StakeInstruction → Meta → Type 0
Consented accounts initialize m = ⊥
Consented accounts authorize m = AuthoritySigned accounts m
Consented accounts delegate_stake m = StakerSigned accounts m
Consented accounts split m = StakerSigned accounts m ⊎ (m.authorized.staker ≡ default_pubkey)
Consented accounts withdraw m = WithdrawerSigned accounts m
Consented accounts deactivate m = StakerSigned accounts m
Consented accounts set_lockup m = LockupSigned accounts m
Consented accounts merge m = StakerSigned accounts m
Consented accounts authorize_with_seed m = AuthoritySigned accounts m
Consented accounts initialize_checked m = ⊥
Consented accounts authorize_checked m = AuthoritySigned accounts m
Consented accounts authorize_checked_with_seed m = Unit
Consented accounts set_lockup_checked m = LockupSigned accounts m
Consented accounts get_minimum_delegation m = Unit
Consented accounts deactivate_delinquent m = Unit
Consented accounts redelegate m = ⊥
Consented accounts move_stake m = StakerSigned accounts m
Consented accounts move_lamports m = StakerSigned accounts m

-- The same of a state, where it has metadata.
abbrev pub OfMeta : (Meta → Type 0) → StakeStateV2 → Type 0
OfMeta Q uninitialized = Unit
OfMeta Q (initialized m) = Q m
OfMeta Q (staked m k flags) = Q m
OfMeta Q rewards_pool = Unit

pub collected-Signed :
    (accounts : List AccountInfo) (signers : List Pubkey) (k : Pubkey)
    → collect_signers accounts ≡ ok signers
    → contains signers k ≡ true
    → Signed accounts k
unfolding Signed
collected-Signed accounts signers k c h =
    let all = collect_signers-signed_keys accounts in ground arith

pub Signed-here :
    (a : AccountInfo) (rest : List AccountInfo) → a.is_signer ≡ true → Signed (a ∷ rest) a.key
unfolding Signed contains
Signed-here a rest h = ground arith

pub Signed-behind :
    (a : AccountInfo) (rest : List AccountInfo) (k : Pubkey) → Signed rest k → Signed (a ∷ rest) k
unfolding Signed contains
Signed-behind a rest k h = ground arith
