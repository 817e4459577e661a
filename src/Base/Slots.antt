-- ===== src/Base/Slots.antt =====
-- Fixed arrays of which a first part is in use.
use Prim.Native.Nat.{ℕ, zero, suc, ◌+◌, ◌≤◌, ◌<◌}
use mathlib.Core.Path.{◌≡◌, refl, sym, ap, ◌∙◌}
use mathlib.Core.List.{List, [], ◌∷◌, ◌++◌}
use native.Mathlib.Omega.{arith}
use pinocchio_stake_program.Base.Lists.{length, take, drop, get_elem?}
use pinocchio_stake_program.Base.Tests.{◌==◌, if◌then◌else◌}
use mathlib.Core.Option.{some}

module _ {ℓ} {A : Type ℓ} where
  -- `items[i] = a`, in range.
  abbrev pub set_at : ℕ → A → List A → List A
  set_at i a [] = []
  set_at zero a (x ∷ xs) = a ∷ xs
  set_at (suc i) a (x ∷ xs) = x ∷ set_at i a xs

  pub length-set_at : (i : ℕ) (a : A) (xs : List A) → length (set_at i a xs) ≡ length xs
  length-set_at i a [] = refl
  length-set_at zero a (x ∷ xs) = refl
  length-set_at (suc i) a (x ∷ xs) = omega (arith, length-set_at i a xs)

  -- The part in use, with one more slot filled.
  pub take-set_at :
      (i : ℕ) (a : A) (xs : List A)
      → i < length xs
      → take (suc i) (set_at i a xs) ≡ take i xs ++ a ∷ []
  take-set_at i a [] h = absurd (omega arith)
  take-set_at zero a (x ∷ xs) h = refl
  take-set_at (suc i) a (x ∷ xs) h = ap (λ t. x ∷ t) (take-set_at i a xs (omega arith))

  pub get_elem?-set_at :
      (i j : ℕ) (a : A) (xs : List A)
      → i < length xs
      → get_elem? (set_at i a xs) j ≡ (if i == j then some a else get_elem? xs j)
  get_elem?-set_at i j a [] h = absurd (omega arith)
  get_elem?-set_at zero zero a (x ∷ xs) h = refl
  get_elem?-set_at zero (suc j) a (x ∷ xs) h = ground arith
  get_elem?-set_at (suc i) zero a (x ∷ xs) h = ground arith
  get_elem?-set_at (suc i) (suc j) a (x ∷ xs) h =
      ground (arith, get_elem?-set_at i j a xs (omega arith))

  pub take_all : (n : ℕ) (xs : List A) → length xs ≤ n → take n xs ≡ xs
  take_all zero [] h = refl
  take_all zero (x ∷ xs) h = absurd (omega arith)
  take_all (suc n) [] h = refl
  take_all (suc n) (x ∷ xs) h = ap (λ t. x ∷ t) (take_all n xs (omega arith))

  pub take-take-append : (n : ℕ) (xs ys : List A) → take n (take n xs ++ ys) ≡ take n (xs ++ ys)
  take-take-append zero xs ys = refl
  take-take-append (suc n) [] ys = refl
  take-take-append (suc n) (x ∷ xs) ys = ap (λ t. x ∷ t) (take-take-append n xs ys)

  drop-nil : (n : ℕ) → drop {A = A} n [] ≡ []
  drop-nil zero = refl
  drop-nil (suc n) = refl

  pub drop-drop : (m n : ℕ) (xs : List A) → drop (m + n) xs ≡ drop n (drop m xs)
  drop-drop zero n xs = ap (λ (k : ℕ). drop k xs) (omega arith)
  drop-drop (suc m) n [] = drop-nil (suc m + n) ∙ sym (drop-nil n)
  drop-drop (suc m) n (x ∷ xs) =
      let next : suc m + n ≡ suc (m + n) = omega arith in
      ap (λ (k : ℕ). drop k (x ∷ xs)) next ∙ drop-drop m n xs

  pub get_elem?-lt : (i : ℕ) (xs : List A) {a : A} → get_elem? xs i ≡ some a → i < length xs
  get_elem?-lt i [] h = absurd (cc h)
  get_elem?-lt zero (x ∷ xs) h = omega arith
  get_elem?-lt (suc i) (x ∷ xs) h = omega (arith, get_elem?-lt i xs h)

  pub get_elem?-some : (i : ℕ) (xs : List A) → i < length xs → (a : A) × (get_elem? xs i ≡ some a)
  get_elem?-some i [] h = absurd (omega arith)
  get_elem?-some zero (x ∷ xs) h = (x, refl)
  get_elem?-some (suc i) (x ∷ xs) h = get_elem?-some i xs (omega arith)
