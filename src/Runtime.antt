-- ===== src/Runtime.antt =====
-- What the Solana runtime and the `pinocchio` crate give the program: the accounts, their store,
-- the sysvars and the floating-point unit. The crate's calls are the fields of `Runtime`, a
-- parameter of everything that uses them.
use pinocchio_stake_program.Base.{ℕ, Bool, Result, ProgramError, List, ◌==◌, if◌then◌else◌}
use pinocchio_stake_program.Types.{Pubkey, Clock, SetLockupData}

-- An entry of the instruction's account list. Two entries with one key are one account.
pub record AccountInfo : Type 0 where
  pub key : Pubkey
  pub is_signer : Bool
  pub is_writable : Bool

-- What the ledger holds under a key.
pub record Account : Type 0 where
  pub owner : Pubkey
  pub lamports : ℕ
  pub bytes : List ℕ

-- The accounts of the transaction. A failed instruction is rolled back by the runtime, so that a
-- handler returns a store only on success.
abbrev pub Store : Type 0
Store = Pubkey → Account

abbrev pub update : Store → Pubkey → Account → Store
update s k a j = if j == k then a else s j

pub record Rent : Type 0 where
  pub minimum_balance : ℕ → ℕ

-- IEEE 754 doubles as their bit patterns, with the operations that the program makes: `as f64`,
-- `/`, `*` and `as u64`.
pub record F64 : Type 0 where
  pub of_u64 : ℕ → ℕ
  pub div : ℕ → ℕ → ℕ
  pub mul : ℕ → ℕ → ℕ
  pub as_u64 : ℕ → ℕ

pub record Runtime : Type 0 where
  pub clock_id : Pubkey
  pub clock_get : Result Clock
  pub clock_from_account_info : AccountInfo → Account → Result Clock
  pub clock_from_account_info_unchecked : AccountInfo → Account → Result Clock
  pub rent_get : Result Rent
  pub rent_from_account_info : AccountInfo → Account → Result Rent
  -- What `sol_get_sysvar` returns, and the bytes that it writes if that is 0.
  pub sol_get_sysvar : Pubkey → ℕ → ℕ → ℕ × List ℕ
  -- `impl From<u64> for ProgramError`
  pub error_of : ℕ → ProgramError
  pub f64 : F64
  -- `SetLockupData::instruction_data`: the payload's memory read as a Rust struct, whose layout
  -- the compiler chooses. The cast does not look at the payload's length, so that the read may run
  -- past its end: that it gives anything is a hypothesis where it is needed.
  pub set_lockup_layout : List ℕ → Result SetLockupData
