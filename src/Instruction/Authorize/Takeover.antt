-- ===== src/Instruction/Authorize/Takeover.antt =====
-- `process_authorize_checked_with_seed` (program/src/instruction/
-- process_authorize_checked_with_seed.rs): the signers that it puts in by itself.
use pinocchio_stake_program.Base.{◌≡◌, ◌≢◌, true, false, [], ◌∷◌, ok, arith}
use pinocchio_stake_program.Types.{
  Meta, Clock, staker_role, initialized, contains, id, default_pubkey,
}
use pinocchio_stake_program.Runtime.{AccountInfo, Store, Runtime}
use pinocchio_stake_program.Lockup.{authorize_update}
use pinocchio_stake_program.Lockup.Force.{set_authority}
use pinocchio_stake_program.Helpers.{
  get_stake_state, set_stake_state, collect_from, collect_signers,
}
use pinocchio_stake_program.Instruction.Authorize.{
  update_authority, basic_checks, push_signer, inject, process_authorize_checked_with_seed,
}

module _ (rt : Runtime) (s : Store) (stake_account base clock_info new_auth : AccountInfo) where
  two_signers :
      stake_account.is_signer ≡ false
      → base.is_signer ≡ true
      → clock_info.is_signer ≡ false
      → new_auth.is_signer ≡ true
      → collect_signers (stake_account ∷ base ∷ clock_info ∷ new_auth ∷ [])
        ≡ ok (base.key ∷ new_auth.key ∷ [])
  unfolding collect_signers collect_from
  two_signers h1 h2 h3 h4 = ground arith

  injected :
      (m : Meta)
      → m.authorized.staker ≢ default_pubkey
      → contains (inject (base.key ∷ new_auth.key ∷ []) (ok (initialized m))) m.authorized.staker
        ≡ true
  unfolding inject push_signer contains
  injected m h = ground arith

  both_signed :
      (contains (base.key ∷ new_auth.key ∷ []) base.key ≡ true)
      × (contains (base.key ∷ new_auth.key ∷ []) new_auth.key ≡ true)
  unfolding contains
  both_signed = ground arith

  -- Any base and any new authority that sign make the new one the staker of an initialized account
  -- whose staker is not the default key: no signature of the account's staker or withdrawer is
  -- asked for, and neither the seed nor the owner plays a part.
  pub checked_with_seed-any_base :
      (m : Meta) (clock : Clock)
      → stake_account.is_signer ≡ false
      → base.is_signer ≡ true
      → clock_info.is_signer ≡ false
      → new_auth.is_signer ≡ true
      → (s stake_account.key).owner ≡ id
      → stake_account.is_writable ≡ true
      → clock_info.key ≡ rt.clock_id
      → rt.clock_from_account_info clock_info (s clock_info.key) ≡ ok clock
      → get_stake_state s stake_account ≡ ok (initialized m)
      → m.authorized.staker ≢ default_pubkey
      → process_authorize_checked_with_seed rt s
          (stake_account ∷ base ∷ clock_info ∷ new_auth ∷ [])
          staker_role
        ≡ set_stake_state s stake_account (initialized (set_authority m staker_role new_auth.key))
  unfolding process_authorize_checked_with_seed basic_checks update_authority authorize_update
  checked_with_seed-any_base m clock h1 h2 h3 h4 o w c e g d =
      ground (arith, two_signers h1 h2 h3 h4, injected m d, both_signed)
