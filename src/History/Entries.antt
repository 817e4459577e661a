-- ===== src/History/Entries.antt =====
-- `StakeHistorySysvar::get_entry` of program/src/state/stake_history.rs: which entry it reads.
use pinocchio_stake_program.Base.{
  ℕ, ◌+◌, ◌-◌, ◌*◌, ◌≤◌, ◌<◌, ◌≡◌, none, some, arith, Ends, Option, List, Result, ok, err,
}
use pinocchio_stake_program.Types.{u64_mod}
use pinocchio_stake_program.Runtime.{Runtime}
use pinocchio_stake_program.History.{
  get_entry, entry_offset, read_entry, decode_entry, entry_of, get_sysvar, stake_history_id,
}

-- The entry of an epoch before the current one, which is a 64-bit word, by 512 epochs at most, lies in
-- the sysvar behind its length of 8 bytes, newest first, each entry of 32 bytes.
pub entry_offset_lem :
    (current target : ℕ)
    → current < u64_mod
    → target < current
    → current ≤ target + 512
    → entry_offset current target ≡ some ((current - 1 - target) * 32 + 8)
unfolding entry_offset
entry_offset_lem current target w h k = ground arith

entry_offset-none :
    (current target : ℕ)
    → (current ≤ target → entry_offset current target ≡ none)
      × (target + 512 < current → entry_offset current target ≡ none)
unfolding entry_offset
entry_offset-none current target = (λ h. ground arith, λ h. ground arith)

decode_entry-Ends : (target : ℕ) (buf : List ℕ) → Ends (λ _. Unit {0}) (decode_entry target buf)
unfolding decode_entry
decode_entry-Ends target buf = ground arith

entry_of-Ends : (target : ℕ) (r : Result (List ℕ)) → Ends (λ _. Unit {0}) (entry_of target r)
unfolding entry_of
entry_of-Ends target (ok buf) = decode_entry-Ends target buf
entry_of-Ends target (err e) = tt

read_entry-Ends :
    (rt : Runtime) (target : ℕ) (o : Option ℕ) → Ends (λ _. Unit {0}) (read_entry rt target o)
unfolding read_entry
read_entry-Ends rt target none = tt
read_entry-Ends rt target (some offset) =
    entry_of-Ends target (get_sysvar rt 32 stake_history_id offset 32)

-- `get_entry` has no loop of its own: it answers or panics.
pub get_entry-Ends :
    (rt : Runtime) (current target : ℕ) → Ends (λ _. Unit {0}) (get_entry rt current target)
unfolding get_entry
get_entry-Ends rt current target = read_entry-Ends rt target (entry_offset current target)
