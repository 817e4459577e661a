-- ===== src/Helpers/Moves.antt =====
-- Which lamports the steps of the handlers move.
use pinocchio_stake_program.Base.{ℕ, ◌≡◌, refl, arith, Post, at_end, ◌∙◌}
use pinocchio_stake_program.Types.{StakeStateV2}
use pinocchio_stake_program.Runtime.{AccountInfo, Store}
use pinocchio_stake_program.Helpers.{set_stake_state, relocate_lamports}
use pinocchio_stake_program.Helpers.State.{set_stake_state-same}
use pinocchio_stake_program.Helpers.Lamports.{Moves, moved, relocate_lamports-Moves}

pub Moves-refl : (s : Store) → Moves s s
Moves-refl s = (0, 0, 0, omega arith, λ j. ground arith, λ j. refl)

-- Two stores with the same lamports and owners everywhere: what writes of states lead to.
pub record SameLamports (s s' : Store) : Type 0 where
  pub lamports_same : (j : ℕ) → (s' j).lamports ≡ (s j).lamports
  pub owner_same : (j : ℕ) → (s' j).owner ≡ (s j).owner

pub SameLamports-refl : (s : Store) → SameLamports s s
SameLamports-refl s = record { lamports_same = λ j. refl; owner_same = λ j. refl }

module _ (s s1 : Store) (same : SameLamports s s1) where
  pub set_stake_state-SameLamports :
      (ai : AccountInfo) (state : StakeStateV2)
      → Post (SameLamports s) (set_stake_state s1 ai state)
  set_stake_state-SameLamports ai state =
      at_end (SameLamports s) (set_stake_state s1 ai state) λ s2 e.
        let b = set_stake_state-same s1 ai state e in
        record {
          lamports_same = λ j. b.lamports_kept j ∙ same.lamports_same j;
          owner_same = λ j. b.owner_kept j ∙ same.owner_same j;
        }

  moved-same : (src dst n j : ℕ) → moved s1 src dst n j ≡ moved s src dst n j
  moved-same src dst n j = rw (same.lamports_same j) refl

  Moves-same : (s2 : Store) → Moves s1 s2 → Moves s s2
  Moves-same s2 (src, dst, n, c, m, o) = (
    src,
    dst,
    n,
    rw (same.lamports_same src) at c,
    λ j. m j ∙ moved-same src dst n j,
    λ j. o j ∙ same.owner_same j,
  )

  pub SameLamports-Moves : Moves s s1
  SameLamports-Moves = Moves-same s1 (Moves-refl s1)

  pub relocate_lamports-after :
      (source destination : AccountInfo) (n : ℕ)
      → Post (Moves s) (relocate_lamports s1 source destination n)
  relocate_lamports-after source destination n =
      at_end (Moves s) (relocate_lamports s1 source destination n)
        λ s2 e. Moves-same s2 (relocate_lamports-Moves s1 source destination n e)
