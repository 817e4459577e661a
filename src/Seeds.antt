-- ===== src/Seeds.antt =====
-- The arguments of the two instructions with a seed (program/src/state/accounts.rs), and the address
-- that a base and a seed derive (program/src/instruction/process_authorize_checked_with_seed.rs).
-- No handler calls them: the dispatch reads the payload itself.
pub mod Layout
pub mod Preimage
use pinocchio_stake_program.Base.{
  ℕ, ◌+◌, Option, none, some, List, ◌++◌, length, take, drop, ltb, ◌==◌, if◌then◌else◌, Result, ok,
  fail, fail_if, ok_or, ◌>>=◌, ◌>>◌, invalid_instruction_data,
}
use pinocchio_stake_program.Base.Bytes.{le_bytes, le_value}
use pinocchio_stake_program.Types.{Pubkey, StakeAuthorize, staker_role, withdrawer_role}

-- `AuthorizeWithSeedData`
pub record AuthorizeWithSeedData : Type 0 where
  pub new_authorized : Pubkey
  pub stake_authorize : StakeAuthorize
  pub authority_seed : List ℕ
  pub authority_owner : Pubkey

-- `AuthorizeCheckedWithSeedData`, with the same fields.
pub record AuthorizeCheckedWithSeedData : Type 0 where
  pub new_authorized : Pubkey
  pub stake_authorize : StakeAuthorize
  pub authority_seed : List ℕ
  pub authority_owner : Pubkey

-- The `match data[32]`.
unfoldable pub seed_role : ℕ → Result StakeAuthorize
seed_role b =
    if b == 0
    then ok staker_role
    else if b == 1
    then ok withdrawer_role
    else fail invalid_instruction_data

-- `data[i]` and `Pubkey::try_from(&data[i..i + 32])`, in range.
unfoldable pub seed_byte : List ℕ → ℕ → ℕ
seed_byte input i = le_value (take 1 (drop i input))

unfoldable pub seed_key : List ℕ → ℕ → Pubkey
seed_key input i = le_value (take 32 (drop i input))

-- `AuthorizeWithSeedData::parse`
unfoldable pub parse_with_seed : List ℕ → Result AuthorizeWithSeedData
parse_with_seed input = do
  fail_if (ltb (length input) (34 + 32)) invalid_instruction_data
  role ← seed_role (seed_byte input 32)
  let seed_len = seed_byte input 33
  fail_if (ltb 32 seed_len) invalid_instruction_data
  fail_if (ltb (length input) (34 + seed_len + 32)) invalid_instruction_data
  ok (record {
    new_authorized = seed_key input 0;
    stake_authorize = role;
    authority_seed = take seed_len (drop 34 input);
    authority_owner = seed_key input (34 + seed_len);
  })

-- `AuthorizeCheckedWithSeedData::parse`
unfoldable pub parse_checked_with_seed : List ℕ → Result AuthorizeCheckedWithSeedData
parse_checked_with_seed input = do
  fail_if (ltb (length input) (34 + 32)) invalid_instruction_data
  role ← seed_role (seed_byte input 32)
  let seed_len = seed_byte input 33
  fail_if (ltb 32 seed_len) invalid_instruction_data
  fail_if (ltb (length input) (34 + seed_len + 32)) invalid_instruction_data
  ok (record {
    new_authorized = seed_key input 0;
    stake_authorize = role;
    authority_seed = take seed_len (drop 34 input);
    authority_owner = seed_key input (34 + seed_len);
  })

-- `buf[..off]`: the bytes that are hashed.
unfoldable pub preimage : Pubkey → List ℕ → Pubkey → List ℕ
preimage base seed owner = le_bytes 32 base ++ (seed ++ le_bytes 32 owner)

-- `sol_sha256` is a system call: a parameter, which gives the 32 bytes if it returned 0.
unfoldable pub derive_with_seed_compat :
    (List ℕ → Option Pubkey) → Pubkey → List ℕ → Pubkey → Result Pubkey
derive_with_seed_compat sol_sha256 base seed owner = do
  fail_if (ltb 32 (length seed)) invalid_instruction_data
  ok_or (sol_sha256 (preimage base seed owner)) invalid_instruction_data
