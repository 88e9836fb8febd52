-- ===== src/Base/Results.antt =====
-- Fallible code: `Option` with `and_then`, `Result` with the error that it carries, and the
-- outcome of a method that may also panic or end the process.
use Prim.Native.Nat.{ℕ}
use mathlib.Core.Bool.{Bool, true, false}
use mathlib.Core.Path.{◌≡◌, refl, ap}
use mathlib.Core.Option.{Option, none, some}

abbrev pub and_then {ℓ κ} : {A : Type ℓ} {B : Type κ} → Option A → (A → Option B) → Option B
and_then none f = none
and_then (some a) f = f a

infixl 5 ◌>>=◌ ◌>>◌
abbrev pub ◌>>=◌ {ℓ κ} : {A : Type ℓ} {B : Type κ} → Option A → (A → Option B) → Option B
m >>= f = and_then m f

abbrev pub ◌>>◌ {ℓ} : {B : Type ℓ} → Option (Unit {0}) → Option B → Option B
m >> k = m >>= λ _. k

-- A check that panics, or gives nothing, when it fails.
abbrev pub guard : Bool → Option (Unit {0})
guard true = some tt
guard false = none

abbrev pub unwrap_or {ℓ} : {A : Type ℓ} → Option A → A → A
unwrap_or none d = d
unwrap_or (some a) d = a

abbrev pub is_some {ℓ} : {A : Type ℓ} → Option A → Bool
is_some none = false
is_some (some a) = true

pub data Result (A E : Type 0) : Type 0 where
  ok : A → Result A E
  err : E → Result A E

-- How a call ends: with a value, with an error message, by a panic of the task, or by
-- `std::process::exit` with a code.
pub data Outcome (A E : Type 0) : Type 0 where
  done : A → Outcome A E
  failed : E → Outcome A E
  panicked : Outcome A E
  exited : ℕ → Outcome A E

pub and_then-some :
    {A B : Type 0} (o : Option A) (f : A → Option B) (b : B)
    → and_then o f ≡ some b
    → (a : A) × (o ≡ some a) × (f a ≡ some b)
and_then-some none f b h = cc
and_then-some (some a) f b h = (a, refl, h)

pub unwrap_or-true : (o : Option Bool) → unwrap_or o false ≡ true → o ≡ some true
unwrap_or-true none h = cc
unwrap_or-true (some b) h = ap some h

pub guard-some : (b : Bool) → guard b ≡ some tt → b ≡ true
guard-some true h = refl
guard-some false h = cc

pub some-injective : {A : Type 0} (a b : A) → some a ≡ some b → a ≡ b
some-injective a b h = cc
