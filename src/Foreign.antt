-- ===== src/Foreign.antt =====
-- Accounts that another program owns, across `set_stake_state` and `relocate_lamports` of
-- program/src/helpers/utils.rs.
pub mod Dispatch
use pinocchio_stake_program.Base.{
  ℕ, ◌+◌, ◌≡◌, ◌≢◌, ◌≤◌, ◌⊎◌, inl, inr, refl, ◌∙◌, true, false, Bool-cases, ◌==◌, ==→eq, ==→ne, ok,
  err, Result, Post, at_end, ap, arith, sym,
}
use pinocchio_stake_program.Types.{StakeStateV2, id}
use pinocchio_stake_program.Runtime.{AccountInfo, Store}
use pinocchio_stake_program.Helpers.{get_stake_state, set_stake_state, relocate_lamports}
use pinocchio_stake_program.Helpers.State.{SameButBytes, set_stake_state-same}
use pinocchio_stake_program.Helpers.Lamports.{IsRelocated, relocate_lamports-IsRelocated}

-- Every account is the program's, or keeps its bytes and has no fewer lamports; and all keep their
-- owners.
pub record KeepsForeign (s s' : Store) : Type 0 where
  pub ours_or_kept :
      (j : ℕ)
      → ((s j).owner ≡ id) ⊎ (((s' j).bytes ≡ (s j).bytes) × ((s j).lamports ≤ (s' j).lamports))
  pub owners_kept : (j : ℕ) → (s' j).owner ≡ (s j).owner

pub KeepsForeign-refl : (s : Store) → KeepsForeign s s
KeepsForeign-refl s = record {
  ours_or_kept = λ j. inr (refl, omega arith);
  owners_kept = λ j. refl;
}

pub KeepsForeign-trans :
    (s s1 s2 : Store) → KeepsForeign s s1 → KeepsForeign s1 s2 → KeepsForeign s s2
KeepsForeign-trans s s1 s2 h g = record {
  ours_or_kept = λ j. elim (h.ours_or_kept j) [
    | inl ours ↦ inl ours
    | inr (b, l) ↦ elim (g.ours_or_kept j) [
      | inl ours ↦ inl (sym (h.owners_kept j) ∙ ours)
      | inr (b2, l2) ↦ inr (b2 ∙ b, omega (arith, l, l2))
    ]
  ];
  owners_kept = λ j. g.owners_kept j ∙ h.owners_kept j;
}

pub owner_of :
    (s : Store) (ai : AccountInfo) (state : StakeStateV2)
    → get_stake_state s ai ≡ ok state
    → (s ai.key).owner ≡ id
unfolding get_stake_state
owner_of s ai state h = ground arith

-- A step at one key: the others keep their bytes, and lose no lamports.
step-KeepsForeign :
    (s s1 s2 : Store) (k : ℕ)
    → KeepsForeign s s1
    → (s k).owner ≡ id
    → ((j : ℕ) → (s2 j).owner ≡ (s1 j).owner)
    → ((j : ℕ) → j ≢ k → ((s2 j).bytes ≡ (s1 j).bytes) × ((s1 j).lamports ≤ (s2 j).lamports))
    → KeepsForeign s s2
step-KeepsForeign s s1 s2 k h o owners others = record {
  ours_or_kept = λ j. elim (Bool-cases (j == k)) [
    | inl e ↦ inl (rw (==→eq j k e) o)
    | inr ne ↦ elim (h.ours_or_kept j) [
      | inl ours ↦ inl ours
      | inr (b, l) ↦ let (b2, l2) = others j (==→ne j k ne) in inr (b2 ∙ b, omega (arith, l, l2))
    ]
  ];
  owners_kept = λ j. owners j ∙ h.owners_kept j;
}

-- All but the source of a move keep their lamports, or have more.
pub kept_or_grown :
    (s1 : Store) (source destination : AccountInfo) (n : ℕ) (s2 : Store)
    → IsRelocated s1 s2 source.key destination.key n
    → (j : ℕ) → j ≢ source.key
    → (s1 j).lamports ≤ (s2 j).lamports
kept_or_grown s1 source destination n s2 gone j ne = elim (Bool-cases (j == destination.key)) [
  | inl e ↦
      let same = ==→eq j destination.key e in
      let grown = gone.destination_grown in rw same (ground (arith, grown, ne, same))
  | inr other ↦ elim (gone.others_kept j) [
    | inl is_source ↦ absurd (ne is_source)
    | inr (inl is_destination) ↦ absurd (==→ne j destination.key other is_destination)
    | inr (inr kept) ↦ omega (arith, ap (λ a. a.lamports) kept)
  ]
]

module _ (s s1 : Store) (h : KeepsForeign s s1) where
  pub set_stake_state-KeepsForeign :
      (ai : AccountInfo) (state : StakeStateV2)
      → (s ai.key).owner ≡ id
      → Post (KeepsForeign s) (set_stake_state s1 ai state)
  set_stake_state-KeepsForeign ai state o =
      at_end (KeepsForeign s) (set_stake_state s1 ai state) λ s2 e.
        let same = set_stake_state-same s1 ai state e in
        step-KeepsForeign s s1 s2 ai.key h o same.owner_kept
          λ j ne. (ap (λ a. a.bytes) (same.others_kept j ne), omega (arith, same.lamports_kept j))

  pub relocate_lamports-KeepsForeign :
      (source destination : AccountInfo) (n : ℕ)
      → (s source.key).owner ≡ id
      → Post (KeepsForeign s) (relocate_lamports s1 source destination n)
  relocate_lamports-KeepsForeign source destination n o =
      at_end (KeepsForeign s) (relocate_lamports s1 source destination n) λ s2 e.
        let gone = relocate_lamports-IsRelocated s1 source destination n e in
        step-KeepsForeign s s1 s2 source.key h o gone.owner_kept
          λ j ne. (gone.bytes_kept j, kept_or_grown s1 source destination n s2 gone j ne)
