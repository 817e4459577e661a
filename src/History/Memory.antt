-- ===== src/History/Memory.antt =====
-- `StakeHistory` of program/src/state/stake_history.rs: the history in memory, an array of 512
-- entries of which the first `len` are in use.
use pinocchio_stake_program.Base.{
  ℕ, ◌+◌, ◌≤◌, ◌<◌, ◌≡◌, refl, ◌∙◌, Option, none, some, List, length, replicate, get_elem?, leb,
  ltb, if◌then◌else◌, ◌==◌, Bool-cases, inl, inr, leb→lt, leb→le, ◌⊎◌, arith, length-replicate,
}
use pinocchio_stake_program.Base.Slots.{set_at, length-set_at, get_elem?-set_at}
use pinocchio_stake_program.History.{StakeHistoryEntry, default_entry, max_stake_history_entries}

pub record StakeHistory : Type 0 where
  pub entries : List StakeHistoryEntry
  pub len : ℕ

abbrev pub new : StakeHistory
new = record { entries = replicate max_stake_history_entries default_entry; len = 0 }

-- The account's bytes and the epoch are not read.
unfoldable pub from_account_data : List ℕ → ℕ → StakeHistory
from_account_data bytes current_epoch = new

-- `None` stands for `Err("StakeHistory is full")`, which leaves the history as it is.
unfoldable pub push : StakeHistory → StakeHistoryEntry → Option StakeHistory
push h entry =
    if leb max_stake_history_entries h.len
    then none
    else some (record { entries = set_at h.len entry h.entries; len = h.len + 1 })

unfoldable pub get : StakeHistory → ℕ → Option StakeHistoryEntry
get h index = if ltb index h.len then get_elem? h.entries index else none

pub record IsValid (h : StakeHistory) : Type 0 where
  pub slots : length h.entries ≡ max_stake_history_entries
  pub in_use : h.len ≤ max_stake_history_entries

pub new-IsValid : IsValid new
new-IsValid = record { slots = length-replicate 512 default_entry; in_use = omega arith }

-- What a push that is taken leaves: a valid history, one entry longer, in which the new index has
-- the entry and every other index what it had.
abbrev pub Pushed : StakeHistory → StakeHistoryEntry → StakeHistory → Type 0
Pushed h entry h' =
    IsValid h'
    × (h'.len ≡ h.len + 1)
    × ((i : ℕ) → get h' i ≡ (if i == h.len then some entry else get h i))

module _ (h : StakeHistory) (entry : StakeHistoryEntry) where
  get-pushed :
      (i : ℕ)
      → h.len < length h.entries
      → get (record { entries = set_at h.len entry h.entries; len = h.len + 1 }) i
        ≡ (if i == h.len then some entry else get h i)
  unfolding get
  get-pushed i room = ground (arith, get_elem?-set_at h.len i entry h.entries room)

  -- A push onto a valid history is refused exactly when all 512 entries are in use; otherwise the
  -- history is valid again, and has the entry behind the others.
  pub push-Pushed :
      IsValid h
      → ((h.len ≡ max_stake_history_entries) × (push h entry ≡ none))
        ⊎ ((h.len < max_stake_history_entries)
            × ((h' : StakeHistory) × (push h entry ≡ some h') × Pushed h entry h'))
  unfolding push
  push-Pushed v =
      let s = v.slots in
      let u = v.in_use in
      let kept = length-set_at h.len entry h.entries in
      elim (Bool-cases (leb max_stake_history_entries h.len)) [
        | inl full ↦ inl (omega (arith, leb→le 512 h.len full), rw full refl)
        | inr free ↦
            let room = leb→lt 512 h.len free in
            inr (
              room,
              (
                record { entries = set_at h.len entry h.entries; len = h.len + 1 },
                rw free refl,
                (
                  record { slots = kept ∙ s; in_use = omega arith },
                  refl,
                  λ i. get-pushed i (omega arith),
                ),
              ),
            )
      ]
