-- ===== src/Helpers/Votes.antt =====
-- What program/src/helpers/utils.rs does with vote accounts beside `get_vote_credits`: no handler
-- calls it.
use pinocchio_stake_program.Base.{
  ℕ, zero, suc, ◌*◌, ◌<◌, ◌≡◌, refl, Bool, true, false, ◌&&◌, Option, none, some, List, [], ◌∷◌,
  ◌++◌, length, drop, ltb, leb, ◌!=◌, if◌then◌else◌, Result, ok, fail_if, ◌>>◌, arith,
  incorrect_program_id, invalid_account_data, drop-append, length-append, le→ltb, lt→ltb,
}
use mathlib.Core.List.{append_assoc}
use pinocchio_stake_program.Types.{Pubkey, Stake, vote_program_id, u64_mod}
use pinocchio_stake_program.Runtime.{AccountInfo, Store}
use pinocchio_stake_program.History.{and_then, checked_mul_u64}
use pinocchio_stake_program.Delegation.{new_delegation}
use pinocchio_stake_program.Vote.{EpochCredits, VoteState, read_row, latest_credits}
use pinocchio_stake_program.Vote.Parse.{
  row_bytes, rows_bytes, RowFits, RowsFit, read_row-row_bytes, length-row_bytes, length-rows_bytes,
}

-- The memory is read as a Rust struct: its size and its layout are the compiler's, and parameters.
unfoldable pub get_vote_state : ℕ → (List ℕ → VoteState) → Store → AccountInfo → Result VoteState
get_vote_state size_of layout s ai = do
  fail_if ((s ai.key).owner != vote_program_id) incorrect_program_id
  fail_if (ltb (length (s ai.key).bytes) size_of) invalid_account_data
  ok (layout (s ai.key).bytes)

-- `new_stake`
abbrev pub new_stake : ℕ → Pubkey → VoteState → ℕ → Stake
new_stake stake_amount vote_pubkey vote_state activation_epoch = record {
  delegation = new_delegation vote_pubkey stake_amount activation_epoch;
  credits_observed = latest_credits vote_state;
}

-- The rounds of `parse_epoch_credits_triplets` from the offset on.
unfoldable pub triplet_rounds : ℕ → List ℕ → ℕ → ℕ → Option ℕ
triplet_rounds zero buf last_epoch last_credits = some last_credits
triplet_rounds (suc n) buf last_epoch last_credits =
    let row = read_row buf in
    elim (ltb row.epoch last_epoch) [
      | true ↦ none
      | false ↦ elim (ltb row.credits row.prev_credits) [
        | true ↦ none
        | false ↦ triplet_rounds n (drop 24 buf) row.epoch row.credits
      ]
    ]

unfoldable pub parse_epoch_credits_triplets : List ℕ → ℕ → Option ℕ
parse_epoch_credits_triplets buf n =
    and_then (checked_mul_u64 24 n)
      λ need. if ltb (length buf) need then none else triplet_rounds n buf 0 0

-- The epochs do not fall, from the given one on, and no row has fewer credits than before it.
abbrev pub in_order : ℕ → List EpochCredits → Bool
in_order epoch [] = true
in_order epoch (ec ∷ rows) =
    leb epoch ec.epoch && leb ec.prev_credits ec.credits && in_order ec.epoch rows

abbrev pub last_credits : ℕ → List EpochCredits → ℕ
last_credits credits [] = credits
last_credits credits (ec ∷ rows) = last_credits ec.credits rows

triplet_rounds-at :
    (n : ℕ) (buf behind : List ℕ) (ec : EpochCredits) (epoch credits : ℕ)
    → read_row buf ≡ ec
    → drop 24 buf ≡ behind
    → triplet_rounds (suc n) buf epoch credits ≡ (
        if leb epoch ec.epoch && leb ec.prev_credits ec.credits
        then triplet_rounds n behind ec.epoch ec.credits
        else none)
unfolding triplet_rounds
triplet_rounds-at n buf behind ec epoch credits read skipped = ground arith

triplet_rounds-step :
    (n : ℕ) (ec : EpochCredits) (behind : List ℕ) (epoch credits : ℕ)
    → RowFits ec
    → triplet_rounds (suc n) (row_bytes ec ++ behind) epoch credits ≡ (
        if leb epoch ec.epoch && leb ec.prev_credits ec.credits
        then triplet_rounds n behind ec.epoch ec.credits
        else none)
triplet_rounds-step n ec behind epoch credits f =
    triplet_rounds-at n (row_bytes ec ++ behind) behind ec epoch credits
      (read_row-row_bytes ec behind f) (drop-append 24 (row_bytes ec) behind (length-row_bytes ec))

triplet_rounds-rows :
    (rows : List EpochCredits) (rest : List ℕ) (epoch credits : ℕ)
    → RowsFit rows
    → triplet_rounds (length rows) (rows_bytes rows ++ rest) epoch credits
      ≡ (if in_order epoch rows then some (last_credits credits rows) else none)
unfolding rows_bytes triplet_rounds
triplet_rounds-rows [] rest epoch credits f = refl
triplet_rounds-rows (ec ∷ rows) rest epoch credits (fe, f) =
    rw (append_assoc (row_bytes ec) (rows_bytes rows) rest) (
      rw (triplet_rounds-step (length rows) ec (rows_bytes rows ++ rest) epoch credits fe)
        (ground (arith, triplet_rounds-rows rows rest ec.epoch ec.credits f)))

-- On rows whose words fit the credits of the last row are given, 0 for none, if the epochs are in
-- order and no row has fewer credits than before it; otherwise there is no answer.
pub parse_epoch_credits_triplets-rows :
    (rows : List EpochCredits) (rest : List ℕ)
    → RowsFit rows
    → 24 * length rows < u64_mod
    → parse_epoch_credits_triplets (rows_bytes rows ++ rest) (length rows)
      ≡ (if in_order 0 rows then some (last_credits 0 rows) else none)
unfolding parse_epoch_credits_triplets
parse_epoch_credits_triplets-rows rows rest f h =
    let sizes = length-append (rows_bytes rows) rest in
    let rows_size = length-rows_bytes rows in
    rw (lt→ltb _ _ h) (
      rw (le→ltb (length (rows_bytes rows ++ rest)) (24 * length rows) (omega arith))
        (triplet_rounds-rows rows rest 0 0 f))
