-- ===== src/Prelude/HashMap/Order.antt =====
-- The order of the entries of a `HashMap`, which Rust leaves open: maps with the same values under
-- the same keys are permutations of each other.
use mathlib.Core.List.{Perm}
use mathlib.Core.List.Perm
use httptrace.Prelude.{
  ◌≤◌, ◌≡◌, refl, sym, subst, ◌∙◌, Bool-cases, false, inl, inr, none, some, [], ◌∷◌, arith,
  if◌then◌else◌, Text, text_eq, text_eq_iff, text_eq_refl,
}
use httptrace.Prelude.HashMap.{HashMap, get, count, insert, modify, get-insert, get-modify}

module _ {ℓ} {V : Type ℓ} where
  remove : Text → HashMap V → HashMap V
  remove k [] = []
  remove k ((j, w) ∷ m) = if text_eq j k then m else (j, w) ∷ remove k m

  get-count : (k : Text) (m : HashMap V) → count k m ≡ 0 → get k m ≡ none
  unfolding get count
  get-count k [] h = refl
  get-count k ((j, w) ∷ m) h = ground (arith, get-count k m)

  perm-remove : (k : Text) (v : V) (m : HashMap V) → get k m ≡ some v → Perm m ((k, v) ∷ remove k m)
  unfolding get remove
  perm-remove k v [] h = absurd (ground arith)
  perm-remove k v ((j, w) ∷ m) h = elim (Bool-cases (text_eq j k)) [
    | inl e ↦
        let same : ◌≡◌ {A = Text × V} (j, w) (k, v) = ground (arith, text_eq_iff j k) in
        rw e (subst (λ entry. Perm ((j, w) ∷ m) (entry ∷ m)) same (Perm.refl _))
    | inr e ↦ rw e (
        Perm.trans (Perm.cons (j, w) (perm-remove k v m (ground arith)))
          (Perm.swap (k, v) (j, w) (remove k m)))
  ]

  get-remove :
      (k j : Text) (m : HashMap V)
      → count k m ≤ 1
      → get j (remove k m) ≡ (if text_eq k j then none else get j m)
  unfolding get remove count
  get-remove k j [] h = ground arith
  get-remove k j ((i, w) ∷ m) h =
      ground
        (arith, text_eq_iff i k, text_eq_iff i j, text_eq_iff k j, get-remove k j m, get-count k m)

  count-remove : (k j : Text) (m : HashMap V) → count j (remove k m) ≤ count j m
  unfolding remove count
  count-remove k j [] = omega arith
  count-remove k j ((i, w) ∷ m) = ground (arith, count-remove k j m)

  get-head : (k : Text) (v : V) (m : HashMap V) → get k ((k, v) ∷ m) ≡ some v
  unfolding get
  get-head k v m = rw text_eq_refl refl

  count-rest : (j k : Text) (v : V) (m : HashMap V) → count j ((k, v) ∷ m) ≤ 1 → count j m ≤ 1
  unfolding count
  count-rest j k v m h = ground (arith, h)

  get-rest :
      (j k : Text) (v : V) (m m' : HashMap V)
      → count k ((k, v) ∷ m) ≤ 1
      → count k m' ≤ 1
      → get j ((k, v) ∷ m) ≡ get j m'
      → get j m ≡ get j (remove k m')
  unfolding get count
  get-rest j k v m m' o o' h =
      ground (arith, text_eq_iff k j, text_eq_refl k, get-remove k j m' o', get-count k m, h, o)

  -- Maps with one entry for each key at most, that give the same under every key.
  pub get-Perm :
      (m m' : HashMap V)
      → ((k : Text) → count k m ≤ 1)
      → ((k : Text) → count k m' ≤ 1)
      → ((k : Text) → get k m ≡ get k m')
      → Perm m m'
  get-Perm [] [] o o' h = Perm.refl []
  get-Perm [] ((j, w) ∷ m') o o' h = absurd (unfold get in ground (arith, h j, text_eq_refl j))
  get-Perm ((k, v) ∷ m) m' o o' h =
      let there : get k m' ≡ some v = sym (h k) ∙ get-head k v m in
      Perm.trans
        (Perm.cons (k, v)
          (get-Perm m (remove k m') (λ j. count-rest j k v m (o j))
            (λ j. omega (arith, count-remove k j m', o' j))
            (λ j. get-rest j k v m m' (o k) (o' k) (h j))))
        (Perm.symm (perm-remove k v m' there))

  -- Writes under different keys commute.
  module _ (k k' j : Text) (m : HashMap V) (ne : text_eq k k' ≡ false) where
    pub get-insert-insert :
        (v v' : V) → get j (insert k v (insert k' v' m)) ≡ get j (insert k' v' (insert k v m))
    get-insert-insert v v' = ground (
      arith,
      text_eq_iff k k',
      text_eq_iff k j,
      text_eq_iff k' j,
      get-insert k j v (insert k' v' m),
      get-insert k' j v' m,
      get-insert k' j v' (insert k v m),
      get-insert k j v m,
    )

    pub get-insert-modify :
        (v : V) (f : V → V)
        → get j (insert k v (modify k' f m)) ≡ get j (modify k' f (insert k v m))
    get-insert-modify v f = ground (
      arith,
      text_eq_iff k k',
      text_eq_iff k j,
      text_eq_iff k' j,
      get-insert k j v (modify k' f m),
      get-modify k' j f m,
      get-modify k' j f (insert k v m),
      get-insert k j v m,
    )

    pub get-modify-modify :
        (f g : V → V) → get j (modify k f (modify k' g m)) ≡ get j (modify k' g (modify k f m))
    get-modify-modify f g = ground (
      arith,
      text_eq_iff k k',
      text_eq_iff k j,
      text_eq_iff k' j,
      get-modify k j f (modify k' g m),
      get-modify k' j g m,
      get-modify k' j g (modify k f m),
      get-modify k j f m,
    )
