-- ===== src/Termination/Dispatch.antt =====
-- Every instruction of program/src/entrypoint.rs ends.
use pinocchio_stake_program.Base.{◌≡◌, ℕ, ◌≤◌, length, List, [], ◌∷◌}
use pinocchio_stake_program.Types.{Pubkey}
use pinocchio_stake_program.Runtime.{AccountInfo, Store, Runtime}
use pinocchio_stake_program.Codec.Widths.{AreBytes}
use pinocchio_stake_program.Termination.Leaves.{IsAnswering}

module _ (rt : Runtime) (answers : IsAnswering rt) (s : Store)
    (bytes : (k : Pubkey) → AreBytes (s k).bytes) (accounts : List AccountInfo) where
  -- A payload of `SetLockup` has at least the bytes of the struct that it is cast to: two optional
  -- words of 16 bytes and an optional key of 33, padded to the words' alignment of 8.
  abbrev pub IsWhole : List ℕ → Type 0
  IsWhole [] = Unit
  IsWhole (disc ∷ payload) = disc ≡ 6 → 72 ≤ length payload
