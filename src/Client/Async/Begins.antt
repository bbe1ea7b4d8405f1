-- ===== src/Client/Async/Begins.antt =====
-- src/client.rs: an asynchronous function that is stopped early, at an `.await`.
use mathlib.Core.List.{append_assoc}
use httptrace.Prelude.{
  ◌⊎◌, inl, inr, ◌≡◌, refl, ap, sym, subst, ◌∙◌, Option, none, some, List, [], ◌++◌, Result, ok,
  err, arith,
}
use httptrace.Error.{Error}
use httptrace.Crates.{Crates}
use httptrace.Client.Async.{Event, Async, ◌>>=◌, await}

-- An answer that is the other or has not come.
abbrev pub Awaited : {A : Type 0} → Option A → Option A → Type 0
Awaited o o' = (o ≡ none) ⊎ (o ≡ o')

module _ {c : Crates} where
  -- The first does all that the second does, or it waits after a beginning of that.
  abbrev pub Begins : {A : Type 0} → Async c A → Async c A → Type 0
  Begins p q = (p ≡ q) ⊎ ((p.1 ≡ none) × (more : List (Event c)) × (p.0 ++ more ≡ q.0))

  pub Begins-await :
      {A : Type 0} (o o' : Option (Result A (Error c.foreign)))
      → Awaited o o'
      → Begins (await o) (await o')
  Begins-await o o' (inl e) = inr (e, [], refl)
  Begins-await o o' (inr e) = inl (ap await e)

  Begins-further :
      {A B : Type 0} (es : List (Event c)) (q : Async c A) (g : A → Async c B)
      → ((more : List (Event c)) × (es ++ more ≡ q.0))
      → (more : List (Event c)) × (es ++ more ≡ (q >>= g).0)
  Begins-further es (fs, none) g h = h
  Begins-further es (fs, some (err e)) g h = h
  Begins-further es (fs, some (ok a)) g (more, h) =
      (more ++ (g a).0, sym (append_assoc es more _) ∙ ap (λ l. l ++ (g a).0) h)

  Begins-then :
      {A B : Type 0} (p : Async c A) (f g : A → Async c B)
      → ((a : A) → Begins (f a) (g a))
      → Begins (p >>= f) (p >>= g)
  Begins-then (es, none) f g h = inl refl
  Begins-then (es, some (err e)) f g h = inl refl
  Begins-then (es, some (ok a)) f g h = elim (h a) [
    | inl e ↦ inl (ap (λ q. (es ++ q.0, q.1)) e)
    | inr (waits, more, e) ↦ inr (waits, more, append_assoc es _ more ∙ ap (λ l. es ++ l) e)
  ]

  Begins-stopped :
      {A B : Type 0} (p q : Async c A) (f g : A → Async c B)
      → p.1 ≡ none
      → ((more : List (Event c)) × (p.0 ++ more ≡ q.0))
      → Begins (p >>= f) (q >>= g)
  Begins-stopped (es, none) q f g waits begun =
      let (more, e) = Begins-further es q g begun in inr (refl, more, e)
  Begins-stopped (es, some r) q f g waits begun = absurd (ground arith)

  -- A chain of steps that is stopped early begins as the whole chain does.
  pub Begins-bind :
      {A B : Type 0} (p q : Async c A) (f g : A → Async c B)
      → Begins p q
      → ((a : A) → Begins (f a) (g a))
      → Begins (p >>= f) (q >>= g)
  Begins-bind p q f g b h = elim b [
    | inl e ↦ subst (λ p'. Begins (p' >>= f) (q >>= g)) (sym e) (Begins-then q f g h)
    | inr (waits, more, e) ↦ Begins-stopped p q f g waits (more, e)
  ]
