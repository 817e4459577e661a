-- ===== src/Ledger.antt =====
-- The ledger across instructions of program/src/entrypoint.rs: the sum of the lamports, what stays
-- true of every account, and sequences of instructions.
pub mod Total
pub mod Invariant
pub mod Runs
pub mod Guarded
pub mod Exit
use pinocchio_stake_program.Base.{ℕ, ◌+◌, ◌<◌, List, [], ◌∷◌, if◌then◌else◌, Gives, ◌≡◌}
use pinocchio_stake_program.Types.{Pubkey, contains, id, u64_mod}
use pinocchio_stake_program.Codec.{deserialize}
use pinocchio_stake_program.Runtime.{AccountInfo, Store}

-- The keys of the accounts, each once, as the runtime counts them.
unfoldable pub unique_keys : List AccountInfo → List Pubkey
unique_keys [] = []
unique_keys (a ∷ accounts) =
    let rest = unique_keys accounts in if contains rest a.key then rest else a.key ∷ rest

unfoldable pub total : Store → List Pubkey → ℕ
total s [] = 0
total s (k ∷ keys) = (s k).lamports + total s keys
