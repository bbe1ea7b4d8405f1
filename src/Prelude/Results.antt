-- ===== src/Prelude/Results.antt =====
-- Rust's `Result` with its combinators, and those of `Option` that the code calls.
use mathlib.Core.Path.{◌≡◌, refl}
use mathlib.Core.Logic.{◌⊎◌, inl, inr}
use mathlib.Core.Bool.{Bool, true, false}
use mathlib.Core.Option.{Option, none, some}
use native.Mathlib.Omega.{arith}

pub data Result {ℓ κ} (A : Type ℓ) (E : Type κ) : Type (ℓ ⊔ κ) where
  ok : A → Result A E
  err : E → Result A E

-- The `?` operator.
infixl 5 ◌>>=◌
abbrev pub ◌>>=◌ {ℓ κ μ} :
    {A : Type ℓ} {B : Type κ} {E : Type μ} → Result A E → (A → Result B E) → Result B E
ok a >>= f = f a
err e >>= f = err e

module _ {ℓ κ μ} {A : Type ℓ} {E : Type κ} {B : Type μ} where
  abbrev pub map_ok : (A → B) → Result A E → Result B E
  map_ok f (ok a) = ok (f a)
  map_ok f (err e) = err e

  abbrev pub map_err : (E → B) → Result A E → Result A B
  map_err f (ok a) = ok a
  map_err f (err e) = err (f e)

module _ {ℓ κ} {A : Type ℓ} {E : Type κ} where
  -- `Result::ok`
  abbrev pub to_ok : Result A E → Option A
  to_ok (ok a) = some a
  to_ok (err e) = none

  -- `Result::err`
  abbrev pub to_err : Result A E → Option E
  to_err (ok a) = none
  to_err (err e) = some e

  -- `Option::ok_or`
  abbrev pub ok_or : E → Option A → Result A E
  ok_or e none = err e
  ok_or e (some a) = ok a

  abbrev pub is_ok_and : (A → Bool) → Result A E → Bool
  is_ok_and p (ok a) = p a
  is_ok_and p (err e) = false

module _ {ℓ κ} {A : Type ℓ} {B : Type κ} where
  abbrev pub and_then : (A → Option B) → Option A → Option B
  and_then f none = none
  and_then f (some a) = f a

  pub some-and_then :
      (f : A → Option B) (o : Option A) (b : B)
      → and_then f o ≡ some b
      → (a : A) × (o ≡ some a) × (f a ≡ some b)
  some-and_then f none b h = absurd (ground arith)
  some-and_then f (some a) b h = (a, refl, h)

  abbrev pub map_some : (A → B) → Option A → Option B
  map_some f none = none
  map_some f (some a) = some (f a)

module _ {ℓ} {A : Type ℓ} where
  abbrev pub unwrap_or : A → Option A → A
  unwrap_or d none = d
  unwrap_or d (some a) = a

  abbrev pub is_some : Option A → Bool
  is_some none = false
  is_some (some a) = true

  abbrev pub is_some_and : (A → Bool) → Option A → Bool
  is_some_and p none = false
  is_some_and p (some a) = p a

  -- `Option::or`
  abbrev pub or_else : Option A → Option A → Option A
  or_else none o = o
  or_else (some a) o = some a

  pub or_else_assoc : (x y z : Option A) → or_else (or_else x y) z ≡ or_else x (or_else y z)
  or_else_assoc none y z = refl
  or_else_assoc (some a) y z = refl

  pub Option-cases : (o : Option A) → (o ≡ none) ⊎ ((a : A) × (o ≡ some a))
  Option-cases none = inl refl
  Option-cases (some a) = inr (a, refl)

pub Result-cases {ℓ κ} :
    {A : Type ℓ} {E : Type κ} (r : Result A E) → ((a : A) × (r ≡ ok a)) ⊎ ((e : E) × (r ≡ err e))
Result-cases (ok a) = inl (a, refl)
Result-cases (err e) = inr (e, refl)
