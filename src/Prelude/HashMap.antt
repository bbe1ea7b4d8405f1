-- ===== src/Prelude/HashMap.antt =====
-- `HashMap<String, V>`: an association list with one entry for each key.
pub mod Order
use mathlib.Core.Path.{◌≡◌, refl}
use mathlib.Core.Option.{Option, none, some}
use mathlib.Core.List.{List, [], ◌∷◌, Memᴰ}
use mathlib.Core.Logic.{inl, inr}
use Prim.Native.Nat.{ℕ, ◌+◌, ◌≤◌}
use native.Mathlib.Omega.{arith}
use httptrace.Prelude.Tests.{Bool-cases, if◌then◌else◌}
use httptrace.Prelude.Results.{map_some}
use httptrace.Prelude.Lists.{All}
use httptrace.Prelude.Texts.{Text, text_eq, text_eq_iff, text_eq_refl}

abbrev pub HashMap {ℓ} : Type ℓ → Type ℓ
HashMap V = List (Text × V)

module _ {ℓ} {V : Type ℓ} where
  unfoldable pub get : Text → HashMap V → Option V
  get k [] = none
  get k ((j, v) ∷ m) = if text_eq j k then some v else get k m

  unfoldable pub insert : Text → V → HashMap V → HashMap V
  insert k v [] = (k, v) ∷ []
  insert k v ((j, w) ∷ m) = if text_eq j k then (k, v) ∷ m else (j, w) ∷ insert k v m

  -- A write through `get_mut`: nothing happens on a missing key.
  unfoldable pub modify : Text → (V → V) → HashMap V → HashMap V
  modify k f [] = []
  modify k f ((j, w) ∷ m) = if text_eq j k then (j, f w) ∷ m else (j, w) ∷ modify k f m

  pub get-insert :
      (k j : Text) (v : V) (m : HashMap V)
      → get j (insert k v m) ≡ (if text_eq k j then some v else get j m)
  unfolding get insert
  get-insert k j v [] = refl
  get-insert k j v ((i, w) ∷ m) =
      ground (arith, text_eq_iff i k, text_eq_iff i j, text_eq_iff k j, get-insert k j v m)

  pub get-modify :
      (k j : Text) (f : V → V) (m : HashMap V)
      → get j (modify k f m) ≡ (if text_eq k j then map_some f (get j m) else get j m)
  unfolding get modify
  get-modify k j f [] = ground arith
  get-modify k j f ((i, w) ∷ m) =
      ground (arith, text_eq_iff i k, text_eq_iff i j, text_eq_iff k j, get-modify k j f m)

  -- How many entries stand under a key.
  unfoldable pub count : Text → HashMap V → ℕ
  count k [] = 0
  count k ((j, v) ∷ m) = (if text_eq j k then 1 else 0) + count k m

  pub count-insert :
      (k j : Text) (v : V) (m : HashMap V)
      → count k m ≤ 1
      → count j (insert k v m) ≡ (if text_eq k j then 1 else count j m)
  unfolding count insert
  count-insert k j v [] h = ground arith
  count-insert k j v ((i, w) ∷ m) h = ground (
    arith,
    text_eq_iff i k,
    text_eq_iff i j,
    text_eq_iff k j,
    text_eq_refl k,
    count-insert k j v m,
  )

  pub count-modify : (k j : Text) (f : V → V) (m : HashMap V) → count j (modify k f m) ≡ count j m
  unfolding count modify
  count-modify k j f [] = refl
  count-modify k j f ((i, w) ∷ m) = ground (arith, count-modify k j f m)

  pub All-insert {κ} :
      (P : V → Type κ) (k : Text) (v : V) (m : HashMap V)
      → P v
      → All (λ e. P e.1) m
      → All (λ e. P e.1) (insert k v m)
  unfolding insert
  All-insert P k v [] p h = (p, tt)
  All-insert P k v ((i, w) ∷ m) p h = elim (Bool-cases (text_eq i k)) [
    | inl e ↦ rw e (p, h.1)
    | inr e ↦ rw e (h.0, All-insert P k v m p h.1)
  ]

  pub All-modify {κ} :
      (P : V → Type κ) (k : Text) (f : V → V) (m : HashMap V)
      → ((v : V) → P v → P (f v))
      → All (λ e. P e.1) m
      → All (λ e. P e.1) (modify k f m)
  unfolding modify
  All-modify P k f [] p h = tt
  All-modify P k f ((i, w) ∷ m) p h = elim (Bool-cases (text_eq i k)) [
    | inl e ↦ rw e (p w h.0, h.1)
    | inr e ↦ rw e (h.0, All-modify P k f m p h.1)
  ]

  -- What is stored under a key is among the entries.
  pub get-Mem : (k : Text) (v : V) (m : HashMap V) → get k m ≡ some v → Memᴰ (k, v) m
  unfolding get
  get-Mem k v [] h = cc
  get-Mem k v ((i, w) ∷ m) h = elim (Bool-cases (text_eq i k)) [
    | inl e ↦ Memᴰ.head (ground (arith, text_eq_iff i k))
    | inr e ↦ Memᴰ.tail (get-Mem k v m (ground arith))
  ]
