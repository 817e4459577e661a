-- ===== src/Vote.antt =====
-- program/src/state/vote_state.rs: the epoch credits of a vote account. `as_slice` is the part of
-- the array in use; the slots behind it are never read.
pub mod Parse
use pinocchio_stake_program.Base.{
  ℕ, zero, suc, ◌+◌, ◌*◌, Bool, true, false, Option, none, some, List, [], ◌∷◌, length, take, drop,
  replicate, ltb, ◌==◌, if◌then◌else◌, Result, ok_or, ok, ◌>>=◌, invalid_account_data,
}
use pinocchio_stake_program.Base.Bytes.{le_value, read_le}
use pinocchio_stake_program.Base.Slots.{set_at}
use pinocchio_stake_program.Runtime.{AccountInfo, Store}

-- `(epoch, credits, prev_credits)`
pub record EpochCredits : Type 0 where
  pub epoch : ℕ
  pub credits : ℕ
  pub prev_credits : ℕ

abbrev pub max_epoch_credits : ℕ
max_epoch_credits = 64

pub record EpochCreditsList : Type 0 where
  pub len : ℕ
  pub items : List EpochCredits

pub record VoteState : Type 0 where
  pub epoch_credits : EpochCreditsList

abbrev no_credits : EpochCredits
no_credits = record { epoch = 0; credits = 0; prev_credits = 0 }

abbrev pub new : EpochCreditsList
new = record { len = 0; items = replicate max_epoch_credits no_credits }

-- The list after the push, behind the answer.
unfoldable pub push : EpochCreditsList → EpochCredits → Bool × EpochCreditsList
push list ec =
    if list.len == max_epoch_credits
    then (false, list)
    else (true, record { len = list.len + 1; items = set_at list.len ec list.items })

unfoldable pub as_slice : EpochCreditsList → List EpochCredits
as_slice list = take list.len list.items

-- `slice.last()`
unfoldable pub last : List EpochCredits → Option EpochCredits
last [] = none
last (ec ∷ []) = some ec
last (ec ∷ next ∷ rest) = last (next ∷ rest)

-- `iter().find(|(e, _, _)| *e == epoch)`
unfoldable pub find : ℕ → List EpochCredits → Option EpochCredits
find epoch [] = none
find epoch (ec ∷ rest) = if ec.epoch == epoch then some ec else find epoch rest

abbrev credits_or_zero : Option EpochCredits → ℕ
credits_or_zero none = 0
credits_or_zero (some ec) = ec.credits

abbrev credits_of : Option EpochCredits → Option ℕ
credits_of none = none
credits_of (some ec) = some ec.credits

-- `VoteState::credits`
unfoldable pub latest_credits : VoteState → ℕ
unfolding last as_slice
latest_credits v = credits_or_zero (last (as_slice v.epoch_credits))

unfoldable pub credits_for_epoch : VoteState → ℕ → Option ℕ
unfolding find as_slice
credits_for_epoch v epoch = credits_of (find epoch (as_slice v.epoch_credits))

-- Three words from the front of a slice.
unfoldable pub read_row : List ℕ → EpochCredits
read_row bytes =
    let (e, r1) = read_le 8 bytes in
    let (c, r2) = read_le 8 r1 in
    let (p, r3) = read_le 8 r2 in record { epoch = e; credits = c; prev_credits = p }

-- The rounds of the loop, from the offset on; the answers of `push` are dropped.
unfoldable pub parse_rows : ℕ → List ℕ → EpochCreditsList → EpochCreditsList
parse_rows zero bytes list = list
parse_rows (suc n) bytes list = parse_rows n (drop 24 bytes) (push list (read_row bytes)).1

unfoldable pub parse_epoch_credits : List ℕ → Option EpochCreditsList
unfolding parse_rows
parse_epoch_credits bytes =
    let n = le_value (take 4 bytes) in
    if ltb (length bytes) 4
    then none
    else if ltb (length bytes) (4 + n * 24)
    then none
    else some (parse_rows n (drop 4 bytes) new)

unfoldable pub from_bytes : List ℕ → Result VoteState
unfolding parse_epoch_credits
from_bytes bytes = do
  list ← ok_or (parse_epoch_credits bytes) invalid_account_data
  ok (record { epoch_credits = list })

-- `from_account_info`, of an account whose data is not borrowed.
unfoldable pub from_account_info : Store → AccountInfo → Result VoteState
unfolding from_bytes
from_account_info s ai = from_bytes (s ai.key).bytes
