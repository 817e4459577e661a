-- ===== src/Helpers/Lamports.antt =====
-- `relocate_lamports` of program/src/helpers/utils.rs: the lamports that it moves.
use pinocchio_stake_program.Base.{
  ℕ, ◌+◌, ◌-◌, ◌≡◌, ◌⊎◌, ◌≤◌, ◌<◌, ok, arith, if◌then◌else◌, ◌==◌, ◌≢◌, Gives,
}
use pinocchio_stake_program.Types.{u64_mod}
use pinocchio_stake_program.Runtime.{AccountInfo, Store}
use pinocchio_stake_program.Helpers.{relocate_lamports, set_lamports}

-- What a move of `n` lamports from `src` to `dst` leaves. Where both are one account its lamports
-- stay as they are.
pub record IsRelocated (s s' : Store) (src dst n : ℕ) : Type 0 where
  pub covered : n ≤ (s src).lamports
  pub source_left :
      (s' src).lamports ≡ (if src == dst then (s src).lamports else (s src).lamports - n)
  pub destination_grown :
      (s' dst).lamports ≡ (if src == dst then (s dst).lamports else (s dst).lamports + n)
  pub fits : (s' dst).lamports < u64_mod
  pub bytes_kept : (j : ℕ) → (s' j).bytes ≡ (s j).bytes
  pub owner_kept : (j : ℕ) → (s' j).owner ≡ (s j).owner
  pub others_kept : (j : ℕ) → (j ≡ src) ⊎ ((j ≡ dst) ⊎ (s' j ≡ s j))

-- The two writes.
abbrev both : Store → ℕ → ℕ → ℕ → Store
both s src dst n =
    let s1 = set_lamports s src ((s src).lamports - n) in
    set_lamports s1 dst ((s1 dst).lamports + n)

kept_or_named : (s : Store) (src dst n j : ℕ) → (j ≡ src) ⊎ ((j ≡ dst) ⊎ (both s src dst n j ≡ s j))
kept_or_named s src dst n j = ground arith

relocated :
    (s : Store) (src dst n : ℕ)
    → n ≤ (s src).lamports
    → (set_lamports s src ((s src).lamports - n) dst).lamports + n < u64_mod
    → IsRelocated s (both s src dst n) src dst n
relocated s src dst n c f = record {
  covered = c;
  source_left = ground arith;
  destination_grown = ground arith;
  fits = ground arith;
  bytes_kept = λ j. ground arith;
  owner_kept = λ j. ground arith;
  others_kept = λ j. kept_or_named s src dst n j;
}

-- The lamports of each account after `n` have gone from `src` to `dst`.
abbrev pub moved : Store → ℕ → ℕ → ℕ → ℕ → ℕ
moved s src dst n j =
    if src == dst
    then (s j).lamports
    else if j == src
    then (s j).lamports - n
    else if j == dst
    then (s j).lamports + n
    else (s j).lamports

-- No lamports are made or lost: at most one account gives some, which it has, to another; and no
-- account changes its owner.
abbrev pub Moves : Store → Store → Type 0
Moves s s' =
    (src : ℕ) × (dst : ℕ) × (n : ℕ) × (n ≤ (s src).lamports)
    × ((j : ℕ) → (s' j).lamports ≡ moved s src dst n j)
    × ((j : ℕ) → (s' j).owner ≡ (s j).owner)

both-moved :
    (s : Store) (src dst n j : ℕ)
    → n ≤ (s src).lamports
    → (both s src dst n j).lamports ≡ moved s src dst n j
both-moved s src dst n j c = ground arith

module _ (s : Store) (source destination : AccountInfo) (n : ℕ) {s' : Store} where
  relocate_lamports-store :
      relocate_lamports s source destination n ≡ ok s'
      → (n ≤ (s source.key).lamports)
        × ((set_lamports s source.key ((s source.key).lamports - n) destination.key).lamports + n
            < u64_mod)
        × (s' ≡ both s source.key destination.key n)
  unfolding relocate_lamports
  relocate_lamports-store h = ground arith

  -- A move that succeeds takes the lamports from the source, which has them, and adds them to the
  -- destination within 64 bits; no byte, owner or other account changes.
  pub relocate_lamports-IsRelocated :
      relocate_lamports s source destination n ≡ ok s'
      → IsRelocated s s' source.key destination.key n
  relocate_lamports-IsRelocated h =
      let (c, f, e) = relocate_lamports-store h in
      rw e (relocated s source.key destination.key n c f)

  -- The lamports of each account after a move that succeeds.
  pub relocate_lamports-moved :
      relocate_lamports s source destination n ≡ ok s'
      → (n ≤ (s source.key).lamports)
        × ((j : ℕ) → (s' j).lamports ≡ moved s source.key destination.key n j)
  relocate_lamports-moved h =
      let (c, f, e) = relocate_lamports-store h in
      rw e (c, λ j. both-moved s source.key destination.key n j c)

  pub relocate_lamports-Moves : relocate_lamports s source destination n ≡ ok s' → Moves s s'
  relocate_lamports-Moves h =
      let (c, f, e) = relocate_lamports-store h in
      rw e (
        source.key,
        destination.key,
        n,
        c,
        (λ j. both-moved s source.key destination.key n j c),
        (relocated s source.key destination.key n c f).owner_kept,
      )

-- A move between two accounts that the source covers and the destination has room for succeeds.
pub relocate_lamports-Gives :
    (s : Store) (source destination : AccountInfo) (n : ℕ)
    → source.key ≢ destination.key
    → n ≤ (s source.key).lamports
    → (s destination.key).lamports + n < u64_mod
    → Gives
        (relocate_lamports s source destination n)
        λ s'. IsRelocated s s' source.key destination.key n
unfolding relocate_lamports
relocate_lamports-Gives s source destination n ne c room = grind (arith, relocated)
