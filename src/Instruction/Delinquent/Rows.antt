-- ===== src/Instruction/Delinquent/Rows.antt =====
-- The two readers of program/src/instruction/deactivate_delinquent.rs on the layout of a vote
-- account's credits, against the parser of program/src/state/vote_state.rs.
use pinocchio_stake_program.Base.{
  ℕ, zero, suc, ◌+◌, ◌-◌, ◌*◌, ◌^◌, ◌≤◌, ◌<◌, ◌≡◌, refl, sym, ap, ◌∙◌, ◌↔◌, true, Option, none,
  some, List, [], ◌∷◌, ◌++◌, length, take, drop, get_elem?, Result, ok, ◌>>=◌, Gives, Gives-then,
  arith, le→ltb, take-append, drop-append, ne→==,
}
use mathlib.Core.List.{append_assoc}
use pinocchio_stake_program.Base.Bytes.{le_bytes, le_value, length-le_bytes, le_value-le_bytes}
use pinocchio_stake_program.Base.Slots.{drop-drop, get_elem?-some, get_elem?-lt, take_all}
use pinocchio_stake_program.Vote.{EpochCredits, last, as_slice, from_bytes}
use pinocchio_stake_program.Vote.Parse.{
  row_bytes, rows_bytes, encode, RowsFit, length-row_bytes, count-encode, rows-encode,
  length-encode, from_bytes-encode,
}
use pinocchio_stake_program.Instruction.Delinquent.{
  count_of, epoch_at, last_vote_epoch_bytes, acceptable_reference_epoch_credits_bytes,
}
use pinocchio_stake_program.Instruction.Delinquent.Votes.{
  acceptable_reference-row, row-acceptable_reference,
}

-- The first word of a row.
epoch-row :
    (ec : EpochCredits) (behind : List ℕ)
    → ec.epoch < 256 ^ 8
    → le_value (take 8 (row_bytes ec ++ behind)) ≡ ec.epoch
unfolding row_bytes
epoch-row ec behind h =
    let others = le_bytes 8 ec.credits ++ le_bytes 8 ec.prev_credits in
    rw (append_assoc (le_bytes 8 ec.epoch) others behind) (
      rw (take-append 8 (le_bytes 8 ec.epoch) (others ++ behind) (length-le_bytes 8 ec.epoch))
        (le_value-le_bytes 8 ec.epoch h))

-- The epoch of the row `i`.
epoch-rows :
    (i : ℕ) (rows : List EpochCredits) (rest : List ℕ) {ec : EpochCredits}
    → RowsFit rows
    → get_elem? rows i ≡ some ec
    → le_value (take 8 (drop (i * 24) (rows_bytes rows ++ rest))) ≡ ec.epoch
unfolding rows_bytes
epoch-rows i [] rest f h = absurd (cc h)
epoch-rows zero (row ∷ rows) rest {ec} f h =
    let same : row ≡ ec = cc in
    rw (append_assoc (row_bytes row) (rows_bytes rows) rest)
      (rw (epoch-row row (rows_bytes rows ++ rest) f.0.0) (ap (λ (r : EpochCredits). r.epoch) same))
epoch-rows (suc i) (row ∷ rows) rest {ec} f h =
    let behind = rows_bytes rows ++ rest in
    let count : suc i * 24 ≡ 24 + i * 24 = omega arith in
    rw (append_assoc (row_bytes row) (rows_bytes rows) rest) (
      rw count (
        rw (drop-drop 24 (i * 24) (row_bytes row ++ behind)) (
          rw (drop-append 24 (row_bytes row) behind (length-row_bytes row))
            (epoch-rows i rows rest f.1 h))))

epoch_at-encode :
    (rows : List EpochCredits) (rest : List ℕ) (i : ℕ) {ec : EpochCredits}
    → RowsFit rows
    → get_elem? rows i ≡ some ec
    → epoch_at (encode rows ++ rest) i ≡ ok ec.epoch
unfolding epoch_at
epoch_at-encode rows rest i f h =
    let within = get_elem?-lt i rows h in
    let l = length-encode rows rest in
    let enough : 4 + i * 24 + 8 ≤ length (encode rows ++ rest) = omega arith in
    rw (le→ltb _ _ enough) (
      rw (drop-drop 4 (i * 24) (encode rows ++ rest))
        (rw (rows-encode rows rest) (ap (λ (n : ℕ). ok n) (epoch-rows i rows rest f h))))

count-rows :
    (rows : List EpochCredits) (rest : List ℕ)
    → length rows < 2 ^ 32
    → count_of (encode rows ++ rest) ≡ length rows
unfolding count_of
count-rows rows rest h = count-encode rows rest h

abbrev pub epoch_of : Option EpochCredits → Option ℕ
epoch_of none = none
epoch_of (some ec) = some ec.epoch

last-get_elem? :
    (row : EpochCredits) (rows : List EpochCredits)
    → (ec : EpochCredits) × (get_elem? (row ∷ rows) (length rows) ≡ some ec)
      × (last (row ∷ rows) ≡ some ec)
unfolding last
last-get_elem? row [] = (row, refl, refl)
last-get_elem? row (next ∷ rows) = last-get_elem? next rows

last_vote-none :
    (bytes : List ℕ) → 4 ≤ length bytes → count_of bytes ≡ 0 → last_vote_epoch_bytes bytes ≡ ok none
unfolding last_vote_epoch_bytes count_of epoch_at
last_vote-none bytes long h = ground arith

last_vote-some :
    (bytes : List ℕ) (n epoch : ℕ)
    → 4 ≤ length bytes
    → count_of bytes ≡ suc n
    → epoch_at bytes n ≡ ok epoch
    → last_vote_epoch_bytes bytes ≡ ok (some epoch)
unfolding last_vote_epoch_bytes count_of epoch_at
last_vote-some bytes n epoch long h e =
    let pred : suc n - 1 ≡ n = omega arith in
    let some_rows = ne→== (suc n) 0 (λ z. absurd (omega (arith, z))) in
    rw (le→ltb _ _ long)
      (rw h (rw some_rows (rw pred (ap (λ (r : Result ℕ). r >>= λ epoch. ok (some epoch)) e))))

last_vote_epoch_bytes-encode :
    (rows : List EpochCredits) (rest : List ℕ)
    → RowsFit rows
    → length rows < 2 ^ 32
    → last_vote_epoch_bytes (encode rows ++ rest) ≡ ok (epoch_of (last rows))
unfolding last
last_vote_epoch_bytes-encode [] rest f h =
    last_vote-none (encode [] ++ rest) (omega (arith, length-encode [] rest)) (count-rows [] rest h)
last_vote_epoch_bytes-encode (row ∷ rows) rest f h =
    let (ec, at_end_row, is_last) = last-get_elem? row rows in
    let read = epoch_at-encode (row ∷ rows) rest (length rows) f at_end_row in
    last_vote-some (encode (row ∷ rows) ++ rest) (length rows) ec.epoch
      (omega (arith, length-encode (row ∷ rows) rest)) (count-rows (row ∷ rows) rest h) read
    ∙ ap (λ (o : Option EpochCredits). ok (epoch_of o)) (sym is_last)

-- On a vote account with at most 64 rows the reader of the last vote's epoch agrees with the parser
-- of vote_state.rs: it gives the epoch of the parsed slice's last entry, and none for an empty one.
pub readers_agree :
    (rows : List EpochCredits) (rest : List ℕ)
    → RowsFit rows
    → length rows ≤ 64
    → Gives (from_bytes (encode rows ++ rest)) λ v.
      last_vote_epoch_bytes (encode rows ++ rest) ≡ ok (epoch_of (last (as_slice v.epoch_credits)))
readers_agree rows rest f h =
    let read = last_vote_epoch_bytes-encode rows rest f (omega arith) in
    Gives-then (from_bytes (encode rows ++ rest)) (λ v. as_slice v.epoch_credits ≡ take 64 rows)
      (λ v.
        last_vote_epoch_bytes (encode rows ++ rest)
        ≡ ok (epoch_of (last (as_slice v.epoch_credits))))
      (from_bytes-encode rows rest f (omega arith))
      λ v e slice.
        read
        ∙ ap (λ (t : List EpochCredits). ok (epoch_of (last t))) (sym (slice ∙ take_all 64 rows h))

-- The last `n` rows are of the epochs up to the current one, one each.
abbrev pub InRow : List EpochCredits → ℕ → ℕ → Type 0
InRow rows current n =
    (n ≤ length rows)
    × ((j : ℕ) → j < n → epoch_of (get_elem? rows (length rows - 1 - j)) ≡ some (current - j))

module _ (rows : List EpochCredits) (rest : List ℕ) (f : RowsFit rows)
    (h : length rows < 2 ^ 32) where
  epoch_at-index :
      (i current : ℕ)
      → i < length rows
      → (epoch_at (encode rows ++ rest) i ≡ ok current)
        ↔ (epoch_of (get_elem? rows i) ≡ some current)
  epoch_at-index i current l =
      let (ec, there) = get_elem?-some i rows l in
      let read = epoch_at-encode rows rest i f there in
      (λ e. rw there (cc), λ e. let same = ap (λ (o : Option EpochCredits). epoch_of o) there in cc)

  -- A reference vote account is accepted exactly when its last `n` rows are of the current epoch and
  -- the `n - 1` before it, in order and without a gap.
  pub acceptable_reference_iff :
      (current n : ℕ)
      → (acceptable_reference_epoch_credits_bytes (encode rows ++ rest) current n ≡ ok true)
        ↔ InRow rows current n
  acceptable_reference_iff current n = (
    λ a. (enough n a, λ j l. (index j (omega (arith, enough n a))).0 (row j l a)),
    λ r.
        row-acceptable_reference bytes current n long (rw counted r.0)
          (λ j l. rw counted ((index j (omega (arith, r.0, l))).1 (r.1 j l))),
  )
    where
      bytes : List ℕ
      bytes = encode rows ++ rest

      counted : count_of bytes ≡ length rows
      counted = count-rows rows rest h

      long : 4 ≤ length bytes
      long = omega (arith, length-encode rows rest)

      index :
          (j : ℕ)
          → j < length rows
          → (epoch_at bytes (length rows - 1 - j) ≡ ok (current - j))
            ↔ (epoch_of (get_elem? rows (length rows - 1 - j)) ≡ some (current - j))
      index j l = epoch_at-index (length rows - 1 - j) (current - j) (omega arith)

      row :
          (j : ℕ)
          → j < n
          → acceptable_reference_epoch_credits_bytes bytes current n ≡ ok true
          → epoch_at bytes (length rows - 1 - j) ≡ ok (current - j)
      row j l a = rw (← counted) (acceptable_reference-row bytes current n a j l).1

      enough :
          (m : ℕ)
          → acceptable_reference_epoch_credits_bytes bytes current m ≡ ok true
          → m ≤ length rows
      enough zero a = omega arith
      enough (suc m) a =
          omega
            (arith, counted, (acceptable_reference-row bytes current (suc m) a 0 (omega arith)).0)
