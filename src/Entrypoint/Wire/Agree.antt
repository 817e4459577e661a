-- ===== src/Entrypoint/Wire/Agree.antt =====
-- The typed dispatch of program/src/entrypoint.rs against the dispatch of bytes.
use pinocchio_stake_program.Base.{ℕ, ◌<◌, ◌≡◌, refl, List, [], ◌∷◌, ◌++◌, Post}
use pinocchio_stake_program.Base.Bytes.{le_bytes}
use pinocchio_stake_program.Types.{Pubkey, id, pubkey_mod, u64_mod}
use pinocchio_stake_program.Runtime.{AccountInfo, Store, Runtime}
use pinocchio_stake_program.Instruction.SetLockup.{process_set_lockup_checked, parse_checked}
use pinocchio_stake_program.Entrypoint.{dispatch, process_instruction, try_from, gate}
use pinocchio_stake_program.Seeds.Layout.{role_number}
use pinocchio_stake_program.Entrypoint.Wire.{
  LockupCheckedArgs, WireInstruction, initialize, authorize, delegate_stake, split, withdraw,
  deactivate, set_lockup, merge, authorize_with_seed, initialize_checked, authorize_checked,
  authorize_checked_with_seed, set_lockup_checked, get_minimum_delegation, deactivate_delinquent,
  redelegate, move_stake, move_lamports, dispatch_wire_instruction,
}
use pinocchio_stake_program.Entrypoint.Wire.Payloads.{
  initialize_payload, seed_payload, InitializeFits, read_u64-le_bytes,
  run_authorize_payload-encoded, run_initialize_payload-encoded, run_checked_payload-encoded,
  run_with_seed_payload-encoded, run_checked_with_seed_payload-encoded,
}

no_payload :
    (rt : Runtime) (s : Store) (accounts : List AccountInfo)
    → Post (λ s'. ⊥) (process_set_lockup_checked rt s accounts [])
unfolding process_set_lockup_checked parse_checked
no_payload rt s [] = tt
no_payload rt s (a ∷ accounts) = tt

-- The bytes that carry a typed instruction, of which the words fit their widths: its number and its
-- payload. A checked authority with a seed comes from the accounts, so that any may stand in the
-- bytes. No bytes are said to carry `SetLockup`, of which the bytes are cast to a struct whose layout
-- the compiler chooses, or `SetLockupChecked`, of which the typed dispatch drops the arguments.
abbrev pub IsEncoded : Runtime → WireInstruction → ℕ → List ℕ → Type 0
IsEncoded rt (initialize a l) disc payload =
    (disc ≡ 0) × (payload ≡ initialize_payload a l) × InitializeFits a l
IsEncoded rt (authorize k role) disc payload =
    (disc ≡ 1) × (payload ≡ le_bytes 32 k ++ (role_number role ∷ [])) × (k < pubkey_mod)
IsEncoded rt delegate_stake disc payload = disc ≡ 2
IsEncoded rt (split n) disc payload = (disc ≡ 3) × (payload ≡ le_bytes 8 n) × (n < u64_mod)
IsEncoded rt (withdraw n) disc payload = (disc ≡ 4) × (payload ≡ le_bytes 8 n) × (n < u64_mod)
IsEncoded rt deactivate disc payload = disc ≡ 5
IsEncoded rt (set_lockup args) disc payload = ⊥
IsEncoded rt merge disc payload = disc ≡ 7
IsEncoded rt (authorize_with_seed args) disc payload =
    (disc ≡ 8)
    × (payload
        ≡ seed_payload args.new_authorized_pubkey args.stake_authorize args.authority_seed
            args.authority_owner)
    × (args.new_authorized_pubkey < pubkey_mod)
IsEncoded rt initialize_checked disc payload = disc ≡ 9
IsEncoded rt (authorize_checked role) disc payload = (disc ≡ 10) × (payload ≡ role_number role ∷ [])
IsEncoded rt (authorize_checked_with_seed args) disc payload =
    (disc ≡ 11)
    × ((k : Pubkey) × (payload
          ≡ seed_payload k args.stake_authorize args.authority_seed args.authority_owner))
IsEncoded rt (set_lockup_checked args) disc payload = ⊥
IsEncoded rt get_minimum_delegation disc payload = disc ≡ 13
IsEncoded rt deactivate_delinquent disc payload = disc ≡ 14
IsEncoded rt redelegate disc payload = disc ≡ 15
IsEncoded rt (move_stake n) disc payload = (disc ≡ 16) × (payload ≡ le_bytes 8 n) × (n < u64_mod)
IsEncoded rt (move_lamports n) disc payload = (disc ≡ 17) × (payload ≡ le_bytes 8 n) × (n < u64_mod)

module _ (rt : Runtime) (s : Store) (accounts : List AccountInfo) where
  -- For sixteen of the eighteen instructions, all but `SetLockup` and `SetLockupChecked`, the bytes
  -- that carry a typed instruction and the typed instruction give the same store, or the same
  -- error: of the typed dispatch with the field and the conversions that it wants to compile.
  pub process_instruction-dispatch_wire_instruction :
      (ix : WireInstruction) (disc : ℕ) (payload : List ℕ)
      → IsEncoded rt ix disc payload
      → process_instruction rt s id accounts (disc ∷ payload)
        ≡ dispatch_wire_instruction rt s accounts ix
  unfolding process_instruction dispatch_wire_instruction try_from dispatch gate
  process_instruction-dispatch_wire_instruction (initialize a l) disc payload (d, p, f) =
      rw d (rw p (run_initialize_payload-encoded rt s accounts a l f))
  process_instruction-dispatch_wire_instruction (authorize k role) disc payload (d, p, f) =
      rw d (rw p (run_authorize_payload-encoded rt s accounts k role f))
  process_instruction-dispatch_wire_instruction delegate_stake disc payload d = rw d refl
  process_instruction-dispatch_wire_instruction (split n) disc payload (d, p, f) =
      rw d (rw p (rw (read_u64-le_bytes n f) refl))
  process_instruction-dispatch_wire_instruction (withdraw n) disc payload (d, p, f) =
      rw d (rw p (rw (read_u64-le_bytes n f) refl))
  process_instruction-dispatch_wire_instruction deactivate disc payload d = rw d refl
  process_instruction-dispatch_wire_instruction (set_lockup args) disc payload h = absurd h
  process_instruction-dispatch_wire_instruction merge disc payload d = rw d refl
  process_instruction-dispatch_wire_instruction (authorize_with_seed args) disc payload (d, p, f) =
      rw d (rw p (run_with_seed_payload-encoded rt s accounts _ _ _ _ f))
  process_instruction-dispatch_wire_instruction initialize_checked disc payload d = rw d refl
  process_instruction-dispatch_wire_instruction (authorize_checked role) disc payload (d, p) =
      rw d (rw p (run_checked_payload-encoded rt s accounts role))
  process_instruction-dispatch_wire_instruction (authorize_checked_with_seed args) disc payload
        (d, (k, p)) =
      rw d (rw p (run_checked_with_seed_payload-encoded rt s accounts k _ _ _))
  process_instruction-dispatch_wire_instruction (set_lockup_checked args) disc payload h = absurd h
  process_instruction-dispatch_wire_instruction get_minimum_delegation disc payload d = rw d refl
  process_instruction-dispatch_wire_instruction deactivate_delinquent disc payload d = rw d refl
  process_instruction-dispatch_wire_instruction redelegate disc payload d = rw d refl
  process_instruction-dispatch_wire_instruction (move_stake n) disc payload (d, p, f) =
      rw d (rw p (rw (read_u64-le_bytes n f) refl))
  process_instruction-dispatch_wire_instruction (move_lamports n) disc payload (d, p, f) =
      rw d (rw p (rw (read_u64-le_bytes n f) refl))

  -- The typed `SetLockupChecked` never succeeds, whatever its arguments.
  pub set_lockup_checked_fails :
      (args : LockupCheckedArgs)
      → Post (λ s'. ⊥) (dispatch_wire_instruction rt s accounts (set_lockup_checked args))
  unfolding dispatch_wire_instruction
  set_lockup_checked_fails args = no_payload rt s accounts
