-- ===== src/Ledger/Total.antt =====
-- The sum of the lamports over the accounts of an instruction, which the runtime compares before
-- and after.
use pinocchio_stake_program.Base.{
  ℕ, ◌+◌, ◌≤◌, ◌≡◌, ◌≢◌, refl, true, false, Bool-cases, inl, inr, ◌==◌, ==→ne, List, [], ◌∷◌, ok,
  arith, if◌then◌else◌, ◌∙◌,
}
use pinocchio_stake_program.Types.{Pubkey, contains}
use pinocchio_stake_program.Runtime.{AccountInfo, Store, Runtime}
use pinocchio_stake_program.Helpers.Lamports.{moved, relocate_lamports-moved}
use pinocchio_stake_program.Effects.{Effect, unpaid, paid, listed}
use pinocchio_stake_program.Effects.Dispatch.{process_instruction-Effect}
use pinocchio_stake_program.Conservation.Dispatch.{Writes-SameLamports}
use pinocchio_stake_program.Entrypoint.{process_instruction}
use pinocchio_stake_program.Ledger.{unique_keys, total}

-- No key stands twice.
abbrev pub AreDistinct : List Pubkey → Type 0
AreDistinct [] = Unit
AreDistinct (k ∷ keys) = (contains keys k ≡ false) × AreDistinct keys

pub unique_keys-AreDistinct : (accounts : List AccountInfo) → AreDistinct (unique_keys accounts)
unfolding unique_keys
unique_keys-AreDistinct [] = tt
unique_keys-AreDistinct (a ∷ accounts) = elim (Bool-cases (contains (unique_keys accounts) a.key)) [
  | inl there ↦ rw there (unique_keys-AreDistinct accounts)
  | inr fresh ↦ rw fresh (fresh, unique_keys-AreDistinct accounts)
]

-- The unique keys are those of the listed accounts.
pub contains-unique_keys :
    (accounts : List AccountInfo) (k : Pubkey)
    → contains (unique_keys accounts) k ≡ listed accounts k
unfolding unique_keys contains listed
contains-unique_keys [] k = refl
contains-unique_keys (a ∷ accounts) k = let ih = contains-unique_keys accounts k in ground arith

module _ (s s' : Store) where
  total_same :
      (keys : List Pubkey)
      → ((j : ℕ) → (s' j).lamports ≡ (s j).lamports)
      → total s' keys ≡ total s keys
  unfolding total
  total_same [] same = refl
  total_same (k ∷ keys) same = omega (arith, same k, total_same keys same)

  abbrev share : List Pubkey → Pubkey → ℕ → ℕ
  share keys k n = if contains keys k then n else 0

  -- What the one gives and the other gets, where they are counted.
  total-moved :
      (src dst n : ℕ) (keys : List Pubkey)
      → src ≢ dst
      → n ≤ (s src).lamports
      → ((j : ℕ) → (s' j).lamports ≡ moved s src dst n j)
      → AreDistinct keys
      → total s' keys + share keys src n ≡ total s keys + share keys dst n
  unfolding total contains
  total-moved src dst n [] ne c m d = refl
  total-moved src dst n (k ∷ keys) ne c m d =
      let ih = total-moved src dst n keys ne c m d.1 in let here = m k in ground arith

  -- Where both are counted, nothing is made or lost.
  total_kept :
      (src dst n : ℕ) (keys : List Pubkey)
      → contains keys src ≡ true
      → contains keys dst ≡ true
      → n ≤ (s src).lamports
      → ((j : ℕ) → (s' j).lamports ≡ moved s src dst n j)
      → AreDistinct keys
      → total s' keys ≡ total s keys
  total_kept src dst n keys hs hd c m d = elim (Bool-cases (src == dst)) [
    | inl same ↦ total_same keys (λ j. ground (arith, m j))
    | inr other ↦ ground (arith, total-moved src dst n keys (==→ne src dst other) c m d)
  ]

module _ (accounts : List AccountInfo) (s : Store) where
  -- Over distinct keys among which the listed accounts are, an effect keeps the sum.
  pub Effect-total :
      (keys : List Pubkey)
      → AreDistinct keys
      → ((k : Pubkey) → listed accounts k ≡ true → contains keys k ≡ true)
      → {s' : Store} → Effect accounts accounts s s'
      → total s' keys ≡ total s keys
  Effect-total keys d sub (unpaid {s1} w) =
      total_same s s1 keys (Writes-SameLamports accounts s w).lamports_same
  Effect-total keys d sub (paid {s1} {s2} source destination n old w l l' r e) =
      let (c, m) = relocate_lamports-moved s1 source destination n e in
      total_kept s1 s2 source.key destination.key n keys (sub source.key l) (sub destination.key l')
        c m d
      ∙ total_same s s1 keys (Writes-SameLamports accounts s w).lamports_same

module _ (rt : Runtime) (s : Store) (program_id : Pubkey) (accounts : List AccountInfo) where
  -- An instruction that succeeds leaves the sum of the lamports of its accounts, each counted once,
  -- as it was: what the runtime checks of every instruction.
  pub process_instruction-total :
      (input : List ℕ) {s' : Store}
      → process_instruction rt s program_id accounts input ≡ ok s'
      → total s' (unique_keys accounts) ≡ total s (unique_keys accounts)
  process_instruction-total input h =
      Effect-total accounts s (unique_keys accounts) (unique_keys-AreDistinct accounts)
        (λ k l. contains-unique_keys accounts k ∙ l)
        (process_instruction-Effect rt s program_id accounts input h)
