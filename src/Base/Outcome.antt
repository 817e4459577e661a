-- ===== src/Base/Outcome.antt =====
-- `Result<A, ProgramError>` of the program, with the two ways to give no result: a panic, and the
-- end of a loop's fuel.
use Prim.Native.Nat.{ℕ}
use pinocchio_stake_program.Base.Tests.{if◌then◌else◌}
use mathlib.Core.Bool.{Bool, true, false}
use mathlib.Core.Option.{Option, none, some}
use mathlib.Core.Path.{◌≡◌, refl, subst}
use mathlib.Core.Logic.{◌⊎◌, inl, inr}

-- `pinocchio::program_error::ProgramError`: the variants that the program names; `other` is any
-- that it only passes on.
pub data ProgramError : Type 0 where
  custom : ℕ → ProgramError
  invalid_argument : ProgramError
  invalid_instruction_data : ProgramError
  invalid_account_data : ProgramError
  account_data_too_small : ProgramError
  insufficient_funds : ProgramError
  incorrect_program_id : ProgramError
  missing_required_signature : ProgramError
  not_enough_account_keys : ProgramError
  arithmetic_overflow : ProgramError
  invalid_account_owner : ProgramError
  other : ℕ → ProgramError

pub data Fault : Type 0 where
  program : ProgramError → Fault
  panicked : Fault
  out_of_fuel : Fault

pub data Result {ℓ} (A : Type ℓ) : Type ℓ where
  ok : A → Result A
  err : Fault → Result A

-- `m?`, and what is done with the value.
infixl 5 ◌>>=◌
abbrev pub ◌>>=◌ {κ ℓ} : {B : Type κ} {A : Type ℓ} → Result A → (A → Result B) → Result B
err fault >>= next = err fault
ok value >>= next = next value

abbrev pub fail {ℓ} : {A : Type ℓ} → ProgramError → Result A
fail e = err (program e)

-- `if b { return Err(e) }`
abbrev pub fail_if : Bool → ProgramError → Result (Unit {0})
fail_if true e = fail e
fail_if false e = ok tt

-- What follows a check.
infixl 5 ◌>>◌
abbrev pub ◌>>◌ {ℓ} : {B : Type ℓ} → Result (Unit {0}) → Result B → Result B
checked >> next = checked >>= λ done. next

-- `ok_or(e)?`
abbrev pub ok_or {ℓ} : {A : Type ℓ} → Option A → ProgramError → Result A
ok_or none e = fail e
ok_or (some a) e = ok a

-- What a successful result satisfies; the loops never run out of fuel.
abbrev pub Ends {ℓ} : {A : Type ℓ} → (A → Type 0) → Result A → Type 0
Ends P (ok a) = P a
Ends P (err (program e)) = Unit
Ends P (err panicked) = Unit
Ends P (err out_of_fuel) = ⊥

-- A result that satisfies `P`, or an error of the program: neither a panic nor the end of a loop's
-- fuel.
abbrev pub Answers {ℓ} : {A : Type ℓ} → (A → Type 0) → Result A → Type 0
Answers P (ok a) = P a
Answers P (err (program e)) = Unit
Answers P (err panicked) = ⊥
Answers P (err out_of_fuel) = ⊥

abbrev pub Halts {ℓ} : {A : Type ℓ} → Result A → Type 0
Halts r = Answers (λ a. Unit) r

module _ {ℓ κ} {A : Type ℓ} {B : Type κ} where
  -- The two successes behind a successful `>>=`.
  pub bind-parts :
      (m : Result A) (next : A → Result B) {b : B}
      → m >>= next ≡ ok b
      → (a : A) × (m ≡ ok a) × (next a ≡ ok b)
  bind-parts (err fault) next h = cc
  bind-parts (ok a) next h = (a, refl, h)

pub Result-cases {ℓ} :
    {A : Type ℓ} (r : Result A) → ((a : A) × (r ≡ ok a)) ⊎ ((e : Fault) × (r ≡ err e))
Result-cases (ok a) = inl (a, refl)
Result-cases (err e) = inr (e, refl)

-- What holds of every successful result.
abbrev pub Post {ℓ} : {A : Type ℓ} → (A → Type 0) → Result A → Type 0
Post Q (ok a) = Q a
Post Q (err e) = Unit

-- A step of a `do` block: what follows may use that the step succeeded.
pub on_ok {ℓ κ} :
    {A : Type ℓ} {B : Type κ} (Q : B → Type 0) (m : Result A) (f : A → Result B)
    → ((a : A) → m ≡ ok a → Post Q (f a))
    → Post Q (m >>= f)
on_ok Q (ok a) f h = h a refl
on_ok Q (err e) f h = tt

pub at_end {ℓ} :
    {A : Type ℓ} (Q : A → Type 0) (m : Result A) → ((a : A) → m ≡ ok a → Q a) → Post Q m
at_end Q (ok a) h = h a refl
at_end Q (err e) h = tt

pub Post-of {ℓ} : {A : Type ℓ} (Q : A → Type 0) (m : Result A) {a : A} → Post Q m → m ≡ ok a → Q a
Post-of Q (ok b) {a} p h = let same : b ≡ a = cc in subst Q same p
Post-of Q (err e) {a} p h = cc

-- The computation gives a result, and that result satisfies `P`.
abbrev pub Gives {ℓ} : {A : Type ℓ} → Result A → (A → Type 0) → Type 0
Gives (ok a) P = P a
Gives (err e) P = ⊥

pub Gives-then {ℓ} :
    {A : Type ℓ} (r : Result A) (P Q : A → Type 0)
    → Gives r P
    → ((a : A) → r ≡ ok a → P a → Q a)
    → Gives r Q
Gives-then (ok a) P Q h f = f a refl h
Gives-then (err e) P Q h f = h

pub Gives-bind {ℓ κ} :
    {A : Type ℓ} {B : Type κ} (r : Result A) (f : A → Result B) (P : A → Type 0) (Q : B → Type 0)
    → Gives r P
    → ((a : A) → P a → Gives (f a) Q)
    → Gives (r >>= f) Q
Gives-bind (ok a) f P Q h g = g a h
Gives-bind (err e) f P Q h g = absurd h

pub Gives-elim {ℓ} :
    {A : Type ℓ} {B : Type 0} (r : Result A) (P : A → Type 0) → Gives r P → ((a : A) → P a → B) → B
Gives-elim (ok a) P h f = f a h
Gives-elim (err e) P h f = absurd h

pub Gives-of {ℓ} : {A : Type ℓ} (r : Result A) (P : A → Type 0) {a : A} → Gives r P → r ≡ ok a → P a
Gives-of (ok b) P {a} h e = let same : b ≡ a = cc in subst P same h
Gives-of (err x) P {a} h e = absurd h

pub Halts-bind {ℓ κ} :
    {A : Type ℓ} {B : Type κ} (m : Result A) (f : A → Result B)
    → Halts m
    → ((a : A) → Halts (f a))
    → Halts (m >>= f)
Halts-bind (ok a) f h g = g a
Halts-bind (err (program e)) f h g = tt
Halts-bind (err panicked) f h g = h
Halts-bind (err out_of_fuel) f h g = h

pub Halts-if {ℓ} :
    {A : Type ℓ} (b : Bool) (x y : Result A) → Halts x → Halts y → Halts (if b then x else y)
Halts-if true x y h g = h
Halts-if false x y h g = g
