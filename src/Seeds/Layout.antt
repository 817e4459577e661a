-- ===== src/Seeds/Layout.antt =====
-- The layout of the arguments with a seed (program/src/state/accounts.rs), and the reading of the
-- same payloads by the dispatch of program/src/entrypoint.rs.
use pinocchio_stake_program.Base.{
  ℕ, ◌+◌, ◌≤◌, ◌<◌, ◌≡◌, refl, ap, ◌∙◌, List, ◌∷◌, ◌++◌, length, take, drop, arith, length-append,
  take-append, drop-append, ok,
}
use pinocchio_stake_program.Base.Bytes.{le_bytes, le_value, length-le_bytes, le_value-le_bytes}
use pinocchio_stake_program.Base.Slots.{drop-drop, take_all}
use pinocchio_stake_program.Types.{pubkey_mod, StakeAuthorize, staker_role, withdrawer_role}
use pinocchio_stake_program.Runtime.{AccountInfo, Store, Runtime}
use pinocchio_stake_program.Instruction.Authorize.{
  process_authorized_with_seeds, process_authorize_checked_with_seed,
}
use pinocchio_stake_program.Entrypoint.{
  run_with_seed_payload, run_checked_with_seed_payload, role_of, byte_at, key_at, read_with_seed,
  slice,
}
use pinocchio_stake_program.Seeds.{
  AuthorizeWithSeedData, AuthorizeCheckedWithSeedData, parse_with_seed, parse_checked_with_seed,
  seed_role, seed_byte, seed_key,
}

abbrev pub role_number : StakeAuthorize → ℕ
role_number staker_role = 0
role_number withdrawer_role = 1

-- `[new_authorized(32)] [role(1)] [seed_len(1)] [seed] [owner(32)]`
unfoldable pub encode_with_seed : AuthorizeWithSeedData → List ℕ
encode_with_seed d =
    le_bytes 32 d.new_authorized
    ++ (role_number d.stake_authorize
        ∷ (length d.authority_seed ∷ (d.authority_seed ++ le_bytes 32 d.authority_owner)))

pub seed_role-role_number : (role : StakeAuthorize) → seed_role (role_number role) ≡ ok role
unfolding seed_role
seed_role-role_number staker_role = refl
seed_role-role_number withdrawer_role = refl

-- The five fields of a payload `key ++ r ∷ n ∷ seed ++ owner`.
module _ (key : List ℕ) (r n : ℕ) (seed owner : List ℕ) (lk : length key ≡ 32) where
  abbrev pub payload : List ℕ
  payload = key ++ (r ∷ (n ∷ (seed ++ owner)))

  behind_key : (i : ℕ) → drop (32 + i) payload ≡ drop i (r ∷ (n ∷ (seed ++ owner)))
  behind_key i =
      drop-drop 32 i payload
      ∙ ap (λ (bs : List ℕ). drop i bs) (drop-append 32 key (r ∷ (n ∷ (seed ++ owner))) lk)

  pub field_key : seed_key payload 0 ≡ le_value key
  unfolding seed_key
  field_key = ap (λ (bs : List ℕ). le_value bs) (take-append 32 key (r ∷ (n ∷ (seed ++ owner))) lk)

  pub field_role : seed_byte payload 32 ≡ r
  unfolding seed_byte le_value
  field_role = rw (behind_key 0) (omega arith)

  pub field_len : seed_byte payload 33 ≡ n
  unfolding seed_byte le_value
  field_len = rw (behind_key 1) (omega arith)

  field_seed : length seed ≡ n → take n (drop 34 payload) ≡ seed
  field_seed h = rw (behind_key 2) (take-append n seed owner h)

  field_owner : length seed ≡ n → length owner ≡ 32 → seed_key payload (34 + n) ≡ le_value owner
  unfolding seed_key
  field_owner h lo = rw (drop-drop 34 n payload) (
      rw (behind_key 2) (
        rw (drop-append n seed owner h)
          (ap (λ (bs : List ℕ). le_value bs) (take_all 32 owner (omega arith)))))

  pub length-payload : length payload ≡ 34 + length seed + length owner
  length-payload =
      omega (arith, length-append key (r ∷ (n ∷ (seed ++ owner))), length-append seed owner)

-- What the parser gives where its checks pass.
parse_fields :
    (input : List ℕ) (role : StakeAuthorize) (n : ℕ)
    → 34 + n + 32 ≤ length input
    → seed_role (seed_byte input 32) ≡ ok role
    → seed_byte input 33 ≡ n
    → n ≤ 32
    → parse_with_seed input
      ≡ ok (record {
        new_authorized = seed_key input 0;
        stake_authorize = role;
        authority_seed = take n (drop 34 input);
        authority_owner = seed_key input (34 + n);
      })
unfolding parse_with_seed
parse_fields input role n long hr hn small = ground arith

-- The arguments, of which the seed has at most 32 bytes, are read back.
pub parse_with_seed-encode :
    (d : AuthorizeWithSeedData)
    → length d.authority_seed ≤ 32
    → d.new_authorized < pubkey_mod
    → d.authority_owner < pubkey_mod
    → parse_with_seed (encode_with_seed d) ≡ ok d
unfolding encode_with_seed
parse_with_seed-encode d small hk ho =
    let key = le_bytes 32 d.new_authorized in
    let owner = le_bytes 32 d.authority_owner in
    let r = role_number d.stake_authorize in
    let seed = d.authority_seed in
    let n = length seed in
    let lk = length-le_bytes 32 d.new_authorized in
    let lo = length-le_bytes 32 d.authority_owner in
    let sizes = length-payload key r n seed owner lk in
    let role =
      ap (λ (b : ℕ). seed_role b) (field_role key r n seed owner lk)
      ∙ seed_role-role_number d.stake_authorize in
    let k = field_key key r n seed owner lk ∙ le_value-le_bytes 32 d.new_authorized hk in
    let o = field_owner key r n seed owner lk refl lo ∙ le_value-le_bytes 32 d.authority_owner ho in
    let sd = field_seed key r n seed owner lk refl in
    parse_fields (payload key r n seed owner lk) d.stake_authorize n (omega arith) role
      (field_len key r n seed owner lk) small
    ∙ rw (k, sd, o) refl

read_with_seed-parse :
    (input : List ℕ) {d : AuthorizeWithSeedData}
    → parse_with_seed input ≡ ok d
    → read_with_seed input ≡ ok (d.new_authorized, d.stake_authorize)
unfolding parse_with_seed read_with_seed seed_role seed_byte seed_key role_of byte_at key_at slice
read_with_seed-parse input h = ground arith

module _ (rt : Runtime) (s : Store) (accounts : List AccountInfo) (input : List ℕ) where
  -- Where the parser of the arguments succeeds, the dispatch of the payload runs the handler with
  -- what was parsed.
  pub run_with_seed_payload-parse :
      {d : AuthorizeWithSeedData}
      → parse_with_seed input ≡ ok d
      → run_with_seed_payload rt s accounts input
        ≡ process_authorized_with_seeds rt s accounts d.new_authorized d.stake_authorize
  unfolding run_with_seed_payload
  run_with_seed_payload-parse h = rw (read_with_seed-parse input h) refl

  -- The same for the checked instruction.
  pub run_checked_with_seed_payload-parse :
      {d : AuthorizeCheckedWithSeedData}
      → parse_checked_with_seed input ≡ ok d
      → run_checked_with_seed_payload rt s accounts input
        ≡ process_authorize_checked_with_seed rt s accounts d.stake_authorize
  unfolding parse_checked_with_seed run_checked_with_seed_payload seed_role seed_byte seed_key
      role_of byte_at slice
  run_checked_with_seed_payload-parse h = ground arith
