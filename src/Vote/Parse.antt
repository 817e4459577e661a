-- ===== src/Vote/Parse.antt =====
-- The parser of program/src/state/vote_state.rs against the layout of a vote account's credits.
use pinocchio_stake_program.Base.{
  ℕ, suc, ◌+◌, ◌*◌, ◌^◌, ◌≤◌, ◌<◌, ◌≡◌, refl, sym, ap, ◌∙◌, some, List, [], ◌∷◌, ◌++◌, length, take,
  drop, arith, length-append, length-take, take-append, drop-append, Bool-cases, inl, inr, ==→eq,
  ==→ne, ◌==◌, le→ltb, Gives,
}
use mathlib.Core.List.{append_assoc, append-nil}
use pinocchio_stake_program.Base.Bytes.{
  le_bytes, le_value, read_le-append, length-le_bytes, le_value-le_bytes,
}
use pinocchio_stake_program.Base.Slots.{
  set_at, length-set_at, take-set_at, take_all, take-take-append,
}
use pinocchio_stake_program.Types.{u64_mod}
use pinocchio_stake_program.Vote.{
  EpochCredits, EpochCreditsList, new, push, as_slice, read_row, parse_rows, parse_epoch_credits,
  from_bytes,
}

-- The array has its 64 slots, and no more are in use.
pub record IsValid (list : EpochCreditsList) : Type 0 where
  pub slots : length list.items ≡ 64
  pub in_use : list.len ≤ 64

new-IsValid : IsValid new
new-IsValid = record { slots = refl; in_use = omega arith }

push-IsValid :
    (list : EpochCreditsList) (ec : EpochCredits) → IsValid list → IsValid (push list ec).1
unfolding push
push-IsValid list ec v =
    let s = v.slots in
    let u = v.in_use in
    let l = length-set_at list.len ec list.items in
    elim (Bool-cases (list.len == 64)) [
      | inl full ↦ rw full v
      | inr free ↦
          rw free (record { slots = l ∙ s; in_use = omega (arith, ==→ne list.len 64 free) })
    ]

full_slice :
    (xs : List EpochCredits) (y : EpochCredits)
    → length xs ≡ 64
    → take 64 xs ≡ take 64 (take 64 xs ++ y ∷ [])
full_slice xs y h =
    let whole = take_all 64 xs (omega arith) in rw whole (rw (take-append 64 xs (y ∷ []) h) refl)

free_slice :
    (n : ℕ) (xs : List EpochCredits) (y : EpochCredits)
    → length xs ≡ 64
    → n < 64
    → take (n + 1) (set_at n y xs) ≡ take 64 (take n xs ++ y ∷ [])
free_slice n xs y h l =
    let filled = take-set_at n y xs (omega arith) in
    let short = length-append (take n xs) (y ∷ []) in
    let part = length-take n xs (omega arith) in
    let next : n + 1 ≡ suc n = omega arith in
    rw next (filled ∙ sym (take_all 64 (take n xs ++ y ∷ []) (omega arith)))

push_slice :
    (n : ℕ) (xs : List EpochCredits) (ec : EpochCredits)
    → length xs ≡ 64
    → n ≤ 64
    → as_slice (push (record { len = n; items = xs }) ec).1 ≡ take 64 (take n xs ++ ec ∷ [])
unfolding push as_slice
push_slice n xs ec h l = elim (Bool-cases (n == 64)) [
  | inl full ↦ rw full (rw (==→eq n 64 full) (full_slice xs ec h))
  | inr free ↦ rw free (free_slice n xs ec h (omega (arith, ==→ne n 64 free)))
]

-- A push appends, and past 64 entries is lost.
as_slice-push :
    (list : EpochCreditsList) (ec : EpochCredits)
    → IsValid list
    → as_slice (push list ec).1 ≡ take 64 (as_slice list ++ ec ∷ [])
unfolding as_slice
as_slice-push list ec v = push_slice list.len list.items ec v.slots v.in_use

-- The layout: rows of three little-endian words, behind their number as a `u32`.
unfoldable pub row_bytes : EpochCredits → List ℕ
row_bytes ec = le_bytes 8 ec.epoch ++ (le_bytes 8 ec.credits ++ le_bytes 8 ec.prev_credits)

unfoldable pub rows_bytes : List EpochCredits → List ℕ
unfolding row_bytes
rows_bytes [] = []
rows_bytes (ec ∷ rows) = row_bytes ec ++ rows_bytes rows

unfoldable pub encode : List EpochCredits → List ℕ
unfolding rows_bytes
encode rows = le_bytes 4 (length rows) ++ rows_bytes rows

abbrev pub RowFits : EpochCredits → Type 0
RowFits ec = (ec.epoch < u64_mod) × (ec.credits < u64_mod) × (ec.prev_credits < u64_mod)

abbrev pub RowsFit : List EpochCredits → Type 0
RowsFit [] = Unit
RowsFit (ec ∷ rows) = RowFits ec × RowsFit rows

pub length-row_bytes : (ec : EpochCredits) → length (row_bytes ec) ≡ 24
unfolding row_bytes
length-row_bytes ec = omega (arith, length-append {0}, length-le_bytes)

pub length-rows_bytes : (rows : List EpochCredits) → length (rows_bytes rows) ≡ length rows * 24
unfolding rows_bytes
length-rows_bytes [] = omega arith
length-rows_bytes (ec ∷ rows) = omega (
  arith,
  length-append {0} (row_bytes ec) (rows_bytes rows),
  length-row_bytes ec,
  length-rows_bytes rows,
)

pub read_row-row_bytes :
    (ec : EpochCredits) (rest : List ℕ) → RowFits ec → read_row (row_bytes ec ++ rest) ≡ ec
unfolding read_row row_bytes
read_row-row_bytes ec rest (fe, fc, fp) = simp (
  append_assoc,
  read_le-append 8 ec.epoch fe,
  read_le-append 8 ec.credits fc,
  read_le-append 8 ec.prev_credits fp,
)

as_slice-short : (list : EpochCreditsList) → IsValid list → length (as_slice list) ≤ 64
unfolding as_slice
as_slice-short list v =
    let s = v.slots in
    let u = v.in_use in let l = length-take list.len list.items (omega arith) in omega arith

-- One round of the loop.
parse_rows-step :
    (n : ℕ) (ec : EpochCredits) (behind : List ℕ) (list : EpochCreditsList)
    → RowFits ec
    → parse_rows (suc n) (row_bytes ec ++ behind) list ≡ parse_rows n behind (push list ec).1
unfolding parse_rows
parse_rows-step n ec behind list f =
    rw (read_row-row_bytes ec behind f)
      (rw (drop-append 24 (row_bytes ec) behind (length-row_bytes ec)) refl)

parse_rows-rows_bytes :
    (rows : List EpochCredits) (rest : List ℕ) (list : EpochCreditsList)
    → RowsFit rows
    → IsValid list
    → as_slice (parse_rows (length rows) (rows_bytes rows ++ rest) list)
      ≡ take 64 (as_slice list ++ rows)
unfolding parse_rows rows_bytes
parse_rows-rows_bytes [] rest list f v =
    rw (append-nil (as_slice list)) (sym (take_all 64 (as_slice list) (as_slice-short list v)))
parse_rows-rows_bytes (ec ∷ rows) rest list (fe, f) v =
    let behind = rows_bytes rows ++ rest in
    let start = append_assoc (row_bytes ec) (rows_bytes rows) rest in
    let step = parse_rows-step (length rows) ec behind list fe in
    let pushed = (push list ec).1 in
    ap (λ (bytes : List ℕ). as_slice (parse_rows (suc (length rows)) bytes list)) start
    ∙ ap (λ (t : EpochCreditsList). as_slice t) step
    ∙ parse_rows-rows_bytes rows rest pushed f (push-IsValid list ec v)
    ∙ ap (λ (t : List EpochCredits). take 64 (t ++ rows)) (as_slice-push list ec v)
    ∙ take-take-append 64 (as_slice list ++ ec ∷ []) rows
    ∙ ap (λ (t : List EpochCredits). take 64 t) (append_assoc (as_slice list) (ec ∷ []) rows)

-- The number of rows is read back.
pub count-encode :
    (rows : List EpochCredits) (rest : List ℕ)
    → length rows < 2 ^ 32
    → le_value (take 4 (encode rows ++ rest)) ≡ length rows
unfolding encode
count-encode rows rest h =
    let n = length rows in
    rw (append_assoc (le_bytes 4 n) (rows_bytes rows) rest) (
      rw (take-append 4 (le_bytes 4 n) (rows_bytes rows ++ rest) (length-le_bytes 4 n))
        (le_value-le_bytes 4 n h))

pub rows-encode :
    (rows : List EpochCredits) (rest : List ℕ)
    → drop 4 (encode rows ++ rest) ≡ rows_bytes rows ++ rest
unfolding encode
rows-encode rows rest =
    let n = length rows in
    rw (append_assoc (le_bytes 4 n) (rows_bytes rows) rest)
      (drop-append 4 (le_bytes 4 n) (rows_bytes rows ++ rest) (length-le_bytes 4 n))

pub length-encode :
    (rows : List EpochCredits) (rest : List ℕ)
    → length (encode rows ++ rest) ≡ 4 + length rows * 24 + length rest
unfolding encode
length-encode rows rest = omega (
  arith,
  length-append {0} (le_bytes 4 (length rows) ++ rows_bytes rows) rest,
  length-append {0} (le_bytes 4 (length rows)) (rows_bytes rows),
  length-le_bytes 4 (length rows),
  length-rows_bytes rows,
)

parse_epoch_credits-encode :
    (rows : List EpochCredits) (rest : List ℕ)
    → length rows < 2 ^ 32
    → parse_epoch_credits (encode rows ++ rest)
      ≡ some (parse_rows (length rows) (rows_bytes rows ++ rest) new)
unfolding parse_epoch_credits
parse_epoch_credits-encode rows rest h =
    let l = length-encode rows rest in
    let long : 4 ≤ length (encode rows ++ rest) = omega arith in
    let enough : 4 + length rows * 24 ≤ length (encode rows ++ rest) = omega arith in
    rw (count-encode rows rest h, rows-encode rows rest)
      (rw (le→ltb _ _ long) (rw (le→ltb _ _ enough) refl))

-- A vote account's credits, of which each word fits, are read back, whatever stands behind them: the
-- first 64 rows, in their order.
pub from_bytes-encode :
    (rows : List EpochCredits) (rest : List ℕ)
    → RowsFit rows
    → length rows < 2 ^ 32
    → Gives (from_bytes (encode rows ++ rest)) λ v. as_slice v.epoch_credits ≡ take 64 rows
unfolding from_bytes as_slice
from_bytes-encode rows rest f h =
    rw (parse_epoch_credits-encode rows rest h) (parse_rows-rows_bytes rows rest new f new-IsValid)
