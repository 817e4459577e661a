-- ===== src/Lockup/Force.antt =====
-- The three tests for a lockup that binds (program/src/state/state.rs,
-- program/src/helpers/authorize.rs) compared, and what `authorize_update` asks for.
use pinocchio_stake_program.Base.{
  ℕ, ◌<◌, ◌≤◌, ◌≡◌, ◌≢◌, refl, ◌⊎◌, ◌↔◌, inr, true, false, Option, none, some, ok, fail, List,
  arith, missing_required_signature,
}
use pinocchio_stake_program.Base.Int.{ℤ, pos, ◌<ℤ◌}
use pinocchio_stake_program.Types.{
  Pubkey, Lockup, Meta, Clock, StakeAuthorize, staker_role, withdrawer_role, contains,
}
use pinocchio_stake_program.Runtime.{AccountInfo}
use pinocchio_stake_program.Lockup.{
  is_active, is_in_force, authorize_update, authorize_in_force, custodian_ok,
}

-- `is_in_force` answers as `is_active` does at the clock's time, unless the signer that it is given
-- is the lockup's custodian: then no lockup binds.
pub is_in_force-is_active :
    (l : Lockup) (clock : Clock) (signer : Option Pubkey)
    → ((signer ≡ some l.custodian) × (is_in_force l clock signer ≡ false))
      ⊎ ((signer ≢ some l.custodian)
          × (is_in_force l clock signer ≡ is_active l clock.unix_timestamp clock.epoch))
unfolding is_in_force is_active
is_in_force-is_active l clock none = inr (λ h. cc, refl)
is_in_force-is_active l clock (some k) = ground arith

-- A lockup binds exactly while its date is set and not reached, or its epoch is set and not
-- reached.
pub is_active_iff :
    (l : Lockup) (now : ℤ) (epoch : ℕ)
    → (is_active l now epoch ≡ true) ↔ (
        ((l.unix_timestamp ≢ pos 0) × (now <ℤ l.unix_timestamp))
        ⊎ ((l.epoch ≢ 0) × (epoch < l.epoch)))
unfolding is_active
is_active_iff l now epoch = (λ h. ground arith, λ h. ground arith)

-- At a clock whose time is not negative, the test that `authorize_update` makes by itself agrees
-- with `is_in_force` with no custodian.
pub authorize_in_force-is_in_force :
    (l : Lockup) (clock : Clock) (t : ℕ)
    → clock.unix_timestamp ≡ pos t
    → authorize_in_force l clock ≡ is_in_force l clock none
unfolding authorize_in_force is_in_force
authorize_in_force-is_in_force l clock t h = ground arith

-- The lockup's custodian is the account that is named, and it signed.
abbrev pub CustodianSigned : Lockup → Option AccountInfo → Type 0
CustodianSigned l none = ⊥
CustodianSigned l (some a) = (a.is_signer ≡ true) × (a.key ≡ l.custodian)

-- What a role's change asks for: the staker's or the withdrawer's signature for the staker; the
-- withdrawer's for the withdrawer, and the custodian's too, of the account that is named for it, until
-- the lockup's epoch and its date are both reached.
abbrev pub MayAuthorize : Meta → StakeAuthorize → List Pubkey → Option AccountInfo → Clock → Type 0
MayAuthorize m staker_role signers custodian clock =
    (contains signers m.authorized.staker ≡ true)
    ⊎ (contains signers m.authorized.withdrawer ≡ true)
MayAuthorize m withdrawer_role signers custodian clock =
    (contains signers m.authorized.withdrawer ≡ true)
    × (((m.lockup.epoch ≤ clock.epoch) × ¬ (clock.unix_timestamp <ℤ m.lockup.unix_timestamp))
        ⊎ CustodianSigned m.lockup custodian)

abbrev pub set_authority : Meta → StakeAuthorize → Pubkey → Meta
set_authority m staker_role k = record m { authorized = record (m.authorized) { staker = k } }
set_authority m withdrawer_role k = record m {
  authorized = record (m.authorized) { withdrawer = k };
}

-- `authorize_update` succeeds exactly when the signatures that the role asks for are there, and
-- then it replaces that one authority; otherwise it answers `MissingRequiredSignature`. The staker's
-- role asks for the staker's signature or the withdrawer's; the withdrawer's role asks for the
-- withdrawer's, and until the lockup's epoch and date are both reached for that of an account that
-- is the lockup's custodian.
pub authorize_update_iff :
    (m : Meta) (k : Pubkey) (role : StakeAuthorize) (signers : List Pubkey)
    (custodian : Option AccountInfo) (clock : Clock)
    → (MayAuthorize m role signers custodian clock
        × (authorize_update m k role signers custodian clock ≡ ok (set_authority m role k)))
      ⊎ (¬ (MayAuthorize m role signers custodian clock)
          × (authorize_update m k role signers custodian clock ≡ fail missing_required_signature))
unfolding authorize_update authorize_in_force custodian_ok
authorize_update_iff m k staker_role signers custodian clock = ground arith
authorize_update_iff m k withdrawer_role signers none clock = ground arith
authorize_update_iff m k withdrawer_role signers (some a) clock = ground arith
