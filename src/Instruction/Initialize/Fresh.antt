-- ===== src/Instruction/Initialize/Fresh.antt =====
-- Initialization (program/src/instruction/initialize.rs, initialize_checked.rs): the account before
-- and after it.
use pinocchio_stake_program.Base.{
  ◌≡◌, ◌≤◌, true, List, ◌∷◌, ok, Post, Post-of, Gives, arith, length,
}
use pinocchio_stake_program.Types.{
  Authorized, Lockup, Meta, StakeStateV2, uninitialized, initialized, staked, rewards_pool,
  MetaFits, default_lockup,
}
use pinocchio_stake_program.Codec.{deserialize, account_size}
use pinocchio_stake_program.Runtime.{AccountInfo, Store, Rent, Runtime}
use pinocchio_stake_program.Helpers.{get_stake_state, set_stake_state}
use pinocchio_stake_program.Helpers.State.{deserialize-set_stake_state}
use pinocchio_stake_program.Instruction.Initialize.{
  initialize, do_initialize, initialize_state, process_initialize_checked,
}

abbrev pub new_meta : Store → AccountInfo → Authorized → Lockup → Rent → Meta
new_meta s stake_account authorized lockup rent = record {
  rent_exempt_reserve = rent.minimum_balance (length (s stake_account.key).bytes);
  authorized = authorized;
  lockup = lockup;
}

-- The account was uninitialized, of the size of a stake account and rent exempt; its bytes hold the
-- new metadata.
abbrev pub IsInitialized : Store → AccountInfo → Meta → Store → Type 0
IsInitialized s stake_account m s' =
    (get_stake_state s stake_account ≡ ok uninitialized)
    × (length (s stake_account.key).bytes ≡ account_size)
    × (m.rent_exempt_reserve ≤ (s stake_account.key).lamports)
    × (set_stake_state s stake_account (initialized m) ≡ ok s')

initialize_state-eq :
    (s : Store) (ai : AccountInfo) (a : Authorized) (l : Lockup) (rent : Rent)
    (state : StakeStateV2)
    → Post
        (λ s'.
          (state ≡ uninitialized)
          × ((new_meta s ai a l rent).rent_exempt_reserve ≤ (s ai.key).lamports)
          × (set_stake_state s ai (initialized (new_meta s ai a l rent)) ≡ ok s'))
        (initialize_state s ai a l rent state)
unfolding initialize_state
initialize_state-eq s ai a l rent uninitialized = grind arith
initialize_state-eq s ai a l rent (initialized m) = tt
initialize_state-eq s ai a l rent (staked m k flags) = tt
initialize_state-eq s ai a l rent rewards_pool = tt

do_initialize-IsInitialized :
    (s : Store) (ai : AccountInfo) (a : Authorized) (l : Lockup) (rent : Rent)
    → Post (IsInitialized s ai (new_meta s ai a l rent)) (do_initialize s ai a l rent)
unfolding do_initialize
do_initialize-IsInitialized s ai a l rent = grind (arith, initialize_state-eq)

module _ (rt : Runtime) (s : Store) (stake_account rent_info : AccountInfo) where
  module _ (rest : List AccountInfo) (a : Authorized) (l : Lockup) where
    abbrev pub InitializedBy : Store → Type 0
    InitializedBy s' =
        Gives (rt.rent_from_account_info rent_info (s rent_info.key))
          λ rent. IsInitialized s stake_account (new_meta s stake_account a l rent) s'

    initialize-Post : Post InitializedBy (initialize rt s (stake_account ∷ rent_info ∷ rest) a l)
    unfolding initialize
    initialize-Post = grind (arith, do_initialize-IsInitialized)

    -- An initialization that succeeds is of an uninitialized account of 208 bytes with the lamports
    -- for its rent, and writes the metadata asked for.
    pub initialize-InitializedBy :
        {s' : Store}
        → initialize rt s (stake_account ∷ rent_info ∷ rest) a l ≡ ok s'
        → InitializedBy s'
    initialize-InitializedBy h =
        Post-of InitializedBy (initialize rt s (stake_account ∷ rent_info ∷ rest) a l)
          initialize-Post h

    written :
        {s' : Store} {m : Meta}
        → IsInitialized s stake_account m s'
        → MetaFits m
        → deserialize (s' stake_account.key).bytes ≡ ok (initialized m)
    written {m = m} (fresh, size, lamports, w) f =
        deserialize-set_stake_state s stake_account (initialized m) f w

    -- After an initialization that succeeds with metadata that fit their words, the account's bytes
    -- read back as exactly those metadata.
    pub initialize-deserialize :
        (rent : Rent) {s' : Store}
        → rt.rent_from_account_info rent_info (s rent_info.key) ≡ ok rent
        → MetaFits (new_meta s stake_account a l rent)
        → initialize rt s (stake_account ∷ rent_info ∷ rest) a l ≡ ok s'
        → deserialize (s' stake_account.key).bytes
          ≡ ok (initialized (new_meta s stake_account a l rent))
    initialize-deserialize rent read f h =
        let done = initialize-InitializedBy h in written (rw read at done) f

  module _ (stake_authority withdraw_authority : AccountInfo) (rest : List AccountInfo) where
    abbrev pub checked_accounts : List AccountInfo
    checked_accounts = stake_account ∷ rent_info ∷ stake_authority ∷ withdraw_authority ∷ rest

    abbrev pub keys_of : Authorized
    keys_of = record { staker = stake_authority.key; withdrawer = withdraw_authority.key }

    abbrev pub CheckedInitialized : Store → Type 0
    CheckedInitialized s' =
        (withdraw_authority.is_signer ≡ true)
        × Gives (rt.rent_from_account_info rent_info (s rent_info.key)) λ rent.
          IsInitialized s stake_account (new_meta s stake_account keys_of default_lockup rent) s'

    initialize_checked-Post :
        Post CheckedInitialized (process_initialize_checked rt s checked_accounts)
    unfolding process_initialize_checked
    initialize_checked-Post = grind (arith, do_initialize-IsInitialized)

    -- A checked initialization that succeeds had the withdrawer's signature, and writes the third
    -- and the fourth account's keys as the authorities, with no lockup.
    pub initialize_checked-CheckedInitialized :
        {s' : Store}
        → process_initialize_checked rt s checked_accounts ≡ ok s'
        → CheckedInitialized s'
    initialize_checked-CheckedInitialized h =
        Post-of CheckedInitialized (process_initialize_checked rt s checked_accounts)
          initialize_checked-Post h
