-- ===== src/Instruction/Authorize/Gate.antt =====
-- `process_authorize` and `process_authorize_checked` (program/src/instruction/authorize.rs,
-- authorize_checked.rs): what a change needs, and what it writes.
use pinocchio_stake_program.Base.{
  ◌≡◌, true, Option, List, ◌∷◌, Result, ok, Post, Post-of, Gives, arith,
}
use pinocchio_stake_program.Types.{
  Pubkey, Clock, StakeAuthorize, StakeStateV2, uninitialized, initialized, staked, rewards_pool,
  OfMeta, with_meta, required_key, id,
}
use pinocchio_stake_program.Runtime.{AccountInfo, Store, Runtime}
use pinocchio_stake_program.Lockup.Force.{MayAuthorize, set_authority, authorize_update_iff}
use pinocchio_stake_program.Helpers.{get_stake_state, set_stake_state, collect_signers}
use pinocchio_stake_program.Instruction.Authorize.{
  first, update_authority, basic_checks, process_authorize,
}

-- The change was allowed by the state's metadata, and the new store holds the state with that one
-- authority replaced.
abbrev pub Authorizes :
    Store
    → AccountInfo
    → Pubkey
    → StakeAuthorize
    → List Pubkey
    → Option AccountInfo
    → Clock
    → StakeStateV2
    → Store
    → Type 0
Authorizes s stake_account k role signers custodian clock state s' = OfMeta state λ m.
    MayAuthorize m role signers custodian clock
    × (set_stake_state s stake_account (with_meta state (set_authority m role k)) ≡ ok s')

module _ (s : Store) (ai : AccountInfo) (k : Pubkey) (role : StakeAuthorize) where
  module _ (signers : List Pubkey) (custodian : Option AccountInfo) (clock : Clock) where
    update_authority-Authorizes :
        (state : StakeStateV2)
        → Post
            (Authorizes s ai k role signers custodian clock state)
            (update_authority s ai k role signers custodian clock state)
    unfolding update_authority
    update_authority-Authorizes (initialized m) =
        grind (arith, authorize_update_iff m k role signers custodian clock)
    update_authority-Authorizes (staked m k1 flags) =
        grind (arith, authorize_update_iff m k role signers custodian clock)
    update_authority-Authorizes uninitialized = tt
    update_authority-Authorizes rewards_pool = tt

-- The same, of the signers, the state and the clock that the handler read.
abbrev pub AuthorizedBy :
    Store
    → AccountInfo
    → Pubkey
    → StakeAuthorize
    → List AccountInfo
    → List AccountInfo
    → Result Clock
    → Store
    → Type 0
AuthorizedBy s stake_account k role accounts rest clock_read s' =
    ((s stake_account.key).owner ≡ id)
    × (stake_account.is_writable ≡ true)
    × Gives clock_read λ clock. Gives (collect_signers accounts) λ signers.
      Gives (get_stake_state s stake_account)
        λ state. Authorizes s stake_account k role signers (first rest) clock state s'

module _ (rt : Runtime) (s : Store) (stake_account clock_info : AccountInfo) where
  authorize-Post :
      (rest : List AccountInfo) (k : Pubkey) (role : StakeAuthorize)
      → Post
          (AuthorizedBy s stake_account k role
            (stake_account ∷ clock_info ∷ rest)
            rest
            (rt.clock_from_account_info_unchecked clock_info (s clock_info.key)))
          (process_authorize rt s (stake_account ∷ clock_info ∷ rest) k role)
  unfolding process_authorize basic_checks
  authorize-Post rest k role = grind (arith, update_authority-Authorizes)

  -- An authorization that succeeds was of a writable account of the program whose metadata allows
  -- the change for the accounts that signed, and the new store holds that account's state with the
  -- one authority replaced.
  pub authorize-Authorized :
      (rest : List AccountInfo) (k : Pubkey) (role : StakeAuthorize) {s' : Store}
      → process_authorize rt s (stake_account ∷ clock_info ∷ rest) k role ≡ ok s'
      → AuthorizedBy s stake_account k role
          (stake_account ∷ clock_info ∷ rest)
          rest
          (rt.clock_from_account_info_unchecked clock_info (s clock_info.key))
          s'
  authorize-Authorized rest k role h =
      Post-of
        (AuthorizedBy s stake_account k role (stake_account ∷ clock_info ∷ rest) rest
          (rt.clock_from_account_info_unchecked clock_info (s clock_info.key)))
        (process_authorize rt s (stake_account ∷ clock_info ∷ rest) k role)
        (authorize-Post rest k role) h

  -- What the checked handler asks besides: the new authority and the old one, which is the role's
  -- key in the metadata, both signed.
  abbrev pub OldSigned : AccountInfo → AccountInfo → StakeAuthorize → Type 0
  OldSigned old_auth new_auth role =
      (new_auth.is_signer ≡ true)
      × (old_auth.is_signer ≡ true)
      × Gives (get_stake_state s stake_account)
          λ state. OfMeta state λ m. old_auth.key ≡ required_key m.authorized role

  abbrev pub CheckedBy :
      AccountInfo → AccountInfo → List AccountInfo → StakeAuthorize → Store → Type 0
  CheckedBy old_auth new_auth rest role s' =
      OldSigned old_auth new_auth role
      × AuthorizedBy s stake_account new_auth.key role
          (stake_account ∷ clock_info ∷ old_auth ∷ new_auth ∷ rest) rest
          (rt.clock_from_account_info_unchecked clock_info (s clock_info.key)) s'
