-- ===== src/Examples/Readers.antt =====
-- The theorems on vote accounts, typed instructions and the arguments with a seed, at concrete data.
use pinocchio_stake_program.Base.Bytes.{le_bytes}
use pinocchio_stake_program.Base.{
  ℕ, ◌≡◌, ◌↔◌, true, List, [], ◌∷◌, ◌++◌, replicate, ok, refl, arith, Gives,
}
use pinocchio_stake_program.Types.{id}
use pinocchio_stake_program.Vote.{EpochCredits, as_slice, last, from_bytes}
use pinocchio_stake_program.Vote.Parse.{encode, from_bytes-encode}
use pinocchio_stake_program.Instruction.Delinquent.{
  last_vote_epoch_bytes, acceptable_reference_epoch_credits_bytes,
}
use pinocchio_stake_program.Instruction.Delinquent.Rows.{
  readers_agree, acceptable_reference_iff, InRow, epoch_of,
}
use pinocchio_stake_program.Seeds.Preimage.{preimage-injective}
use pinocchio_stake_program.Entrypoint.{process_instruction}
use pinocchio_stake_program.Entrypoint.Wire.{split, dispatch_wire_instruction}
use pinocchio_stake_program.Entrypoint.Wire.Agree.{process_instruction-dispatch_wire_instruction}
use pinocchio_stake_program.Runtime.{AccountInfo}
use pinocchio_stake_program.Examples.{rt, store, signer, plain}

-- Two epochs of votes.
abbrev rows : List EpochCredits
rows =
    record { epoch = 9; credits = 30; prev_credits = 10 }
    ∷ record { epoch = 10; credits = 45; prev_credits = 30 }
    ∷ []

from_bytes-encode_example :
    Gives (from_bytes (encode rows ++ 0 ∷ [])) λ v. as_slice v.epoch_credits ≡ rows
from_bytes-encode_example = from_bytes-encode rows (0 ∷ []) (omega arith) (omega arith)

readers_agree_example : Gives (from_bytes (encode rows ++ 0 ∷ [])) λ v.
    last_vote_epoch_bytes (encode rows ++ 0 ∷ []) ≡ ok (epoch_of (last (as_slice v.epoch_credits)))
readers_agree_example = readers_agree rows (0 ∷ []) (omega arith) (omega arith)

acceptable_reference_iff_example :
    (acceptable_reference_epoch_credits_bytes (encode rows ++ 0 ∷ []) 10 2 ≡ ok true)
    ↔ InRow rows 10 2
acceptable_reference_iff_example =
    acceptable_reference_iff rows (0 ∷ []) (omega arith) (omega arith) 10 2

preimage-injective_example :
    (◌≡◌ {A = ℕ} 5 5) × (◌≡◌ {A = List ℕ} (1 ∷ 2 ∷ []) (1 ∷ 2 ∷ [])) × (◌≡◌ {A = ℕ} 7 7)
preimage-injective_example =
    preimage-injective 5 5 (1 ∷ 2 ∷ []) (1 ∷ 2 ∷ []) 7 7 (omega arith) (omega arith) (omega arith)
      (omega arith) refl

-- The key 0, the role 1, no seed and the owner 0.
abbrev seed_payload : List ℕ
seed_payload = replicate 32 0 ++ (1 ∷ replicate 33 0)

abbrev seed_accounts : List AccountInfo
seed_accounts = plain 3 ∷ signer 11 ∷ plain 7 ∷ []

-- A split of 5 lamports.
process_instruction-dispatch_wire_instruction_example :
    process_instruction rt store id seed_accounts (3 ∷ 5 ∷ replicate 7 0)
    ≡ dispatch_wire_instruction rt store seed_accounts (split 5)
unfolding le_bytes
process_instruction-dispatch_wire_instruction_example =
    process_instruction-dispatch_wire_instruction rt store seed_accounts (split 5) 3
      (5 ∷ replicate 7 0) (refl, refl, omega arith)
