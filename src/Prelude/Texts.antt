-- ===== src/Prelude/Texts.antt =====
-- Rust strings as lists of code points: equality, `join`, decimal numbers and padding.
use Prim.Native.Nat.{ℕ, zero, suc, ◌+◌, ◌-◌, ◌*◌, ◌/◌, ◌%◌, ◌^◌, ◌<◌, ◌≤◌}
use Prim.Native.Char.{code}
use Prim.Native.String.{String}
use mathlib.Core.Path.{◌≡◌, refl, ap, ◌∙◌}
use mathlib.Core.Logic.{◌↔◌, inl, inr}
use mathlib.Core.Bool.{Bool, true, false, ◌&&◌}
use mathlib.Core.List.{List, [], ◌∷◌, ◌++◌}
use native.Mathlib.Nat.{pow-suc}
use native.Mathlib.Omega.{arith}
use httptrace.Prelude.Tests.{Bool-cases, ltb, leb, ◌==◌, if◌then◌else◌}
use httptrace.Prelude.Lists.{All, length, length-append}

abbrev pub Text : Type 0
Text = List ℕ

-- The code points of a literal.
abbrev pub codes : String → Text
codes String.[] = []
codes (String.◌∷◌ c s) = code c ∷ codes s

unfoldable pub text_eq : Text → Text → Bool
text_eq [] [] = true
text_eq [] (d ∷ t) = false
text_eq (c ∷ s) [] = false
text_eq (c ∷ s) (d ∷ t) = (c == d) && text_eq s t

pub text_eq_refl : (s : Text) → text_eq s s ≡ true
unfolding text_eq
text_eq_refl [] = refl
text_eq_refl (c ∷ s) = ground (arith, text_eq_refl s)

pub text_eq→eq : (s t : Text) → text_eq s t ≡ true → s ≡ t
unfolding text_eq
text_eq→eq [] [] h = refl
text_eq→eq [] (d ∷ t) h = ground arith
text_eq→eq (c ∷ s) [] h = ground arith
text_eq→eq (c ∷ s) (d ∷ t) h = ground (arith, text_eq→eq s t)

-- In the form that `ground` takes at each pair of texts that is compared.
pub text_eq_iff : (s t : Text) → (text_eq s t ≡ true) ↔ (s ≡ t)
text_eq_iff s t = (text_eq→eq s t, λ e. rw e (text_eq_refl t))

-- `join` of a vector of strings.
unfoldable pub join : Text → List Text → Text
join sep [] = []
join sep (s ∷ []) = s
join sep (s ∷ t ∷ ts) = s ++ (sep ++ join sep (t ∷ ts))

-- The decimal digits of a number below 10 ^ fuel.
digits_from : ℕ → ℕ → Text → Text
digits_from zero n acc = acc
digits_from (suc f) n acc =
    let rest = digits_from f (n / 10) ((48 + n % 10) ∷ acc) in
    if ltb n 10 then (48 + n) ∷ acc else rest

-- Forty digits are enough for a `u128`.
unfoldable pub decimal : ℕ → Text
unfolding digits_from
decimal n = digits_from 40 n []

-- Spaces to the left, as `{:>width}`.
unfoldable pub spaces : ℕ → Text
spaces zero = []
spaces (suc n) = 32 ∷ spaces n

unfoldable pub pad_left : ℕ → Text → Text
unfolding spaces
pad_left width s = spaces (width - length s) ++ s

length-spaces : (n : ℕ) → length (spaces n) ≡ n
unfolding spaces
length-spaces zero = refl
length-spaces (suc n) = ap suc (length-spaces n)

-- The number that a text of digits stands for.
unfoldable pub value : ℕ → Text → ℕ
value acc [] = acc
value acc (c ∷ s) = value (acc * 10 + (c - 48)) s

-- `digits_from` writes digits in front of what stands there.
digits_from-value :
    (f n : ℕ) (acc : Text) → n < 10 ^ f → value 0 (digits_from f n acc) ≡ value n acc
unfolding digits_from value
digits_from-value zero n acc h = let e : n ≡ 0 = omega arith in rw e
digits_from-value (suc f) n acc h = elim (Bool-cases (ltb n 10)) [
  | inl small ↦ rw small (ap (λ (k : ℕ). value k acc) (omega arith))
  | inr large ↦ rw large (
      digits_from-value f (n / 10) ((48 + n % 10) ∷ acc) (omega (arith, pow-suc 10 f))
      ∙ ap (λ (k : ℕ). value k acc) (omega arith))
]

-- Reading back what was printed.
pub value-decimal : (n : ℕ) → n < 10 ^ 40 → value 0 (decimal n) ≡ n
unfolding decimal value
value-decimal n h = digits_from-value 40 n [] h

abbrev pub IsDigit : ℕ → Type 0
IsDigit c = (48 ≤ c) × (c ≤ 57)

digits_from-IsDigit : (f n : ℕ) (acc : Text) → All IsDigit acc → All IsDigit (digits_from f n acc)
unfolding digits_from
digits_from-IsDigit zero n acc h = h
digits_from-IsDigit (suc f) n acc h = elim (Bool-cases (ltb n 10)) [
  | inl small ↦ rw small ((ground arith, ground arith), h)
  | inr large ↦
      rw large
        (digits_from-IsDigit f (n / 10) ((48 + n % 10) ∷ acc) ((omega arith, omega arith), h))
]

pub decimal-IsDigit : (n : ℕ) → All IsDigit (decimal n)
unfolding decimal
decimal-IsDigit n = digits_from-IsDigit 40 n [] tt

pub length-pad_left :
    (w : ℕ) (s : Text) → length (pad_left w s) ≡ (if leb w (length s) then length s else w)
unfolding pad_left
length-pad_left w s =
    ground (arith, length-append (spaces (w - length s)) s, length-spaces (w - length s))

-- How many line breaks a text holds.
unfoldable pub breaks : Text → ℕ
breaks [] = 0
breaks (c ∷ s) = (if c == 10 then 1 else 0) + breaks s

pub breaks-append : (s t : Text) → breaks (s ++ t) ≡ breaks s + breaks t
unfolding breaks
breaks-append [] t = omega arith
breaks-append (c ∷ s) t = ground (arith, breaks-append s t)

digits_from-breaks : (f n : ℕ) (acc : Text) → breaks (digits_from f n acc) ≡ breaks acc
unfolding digits_from breaks
digits_from-breaks zero n acc = refl
digits_from-breaks (suc f) n acc =
    ground (arith, digits_from-breaks f (n / 10) ((48 + n % 10) ∷ acc))

pub breaks-decimal : (n : ℕ) → breaks (decimal n) ≡ 0
unfolding decimal breaks
breaks-decimal n = digits_from-breaks 40 n []

breaks-spaces : (n : ℕ) → breaks (spaces n) ≡ 0
unfolding spaces breaks
breaks-spaces zero = refl
breaks-spaces (suc n) = ground (arith, breaks-spaces n)

pub breaks-pad_left : (w : ℕ) (s : Text) → breaks (pad_left w s) ≡ breaks s
unfolding pad_left
breaks-pad_left w s =
    omega (arith, breaks-append (spaces (w - length s)) s, breaks-spaces (w - length s))

pub ruleset breaks_laws = (breaks-append, breaks-pad_left, breaks-decimal)
