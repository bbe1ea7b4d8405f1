-- ===== src/Stats/Report/Reading.antt =====
-- src/stats.rs: `Display for Stats` read back, line by line.
use mathlib.Core.List.{append_assoc}
use httptrace.Prelude.{
  ℕ, zero, suc, ◌+◌, ◌-◌, ◌*◌, ◌^◌, ◌<◌, ◌≡◌, refl, sym, ap, ◌∙◌, List, [], ◌∷◌, ◌++◌, map, arith,
  Text, codes, breaks, breaks-append, All, drop, leb, ◌==◌, ◌&&◌, if◌then◌else◌, decimal, pad_left,
  spaces, value, value-decimal, IsDigit, decimal-IsDigit,
}
use httptrace.Prelude.Time.{as_millis}
use httptrace.Stats.Report.{millis}
use httptrace.Stats.Report.Lines.{breaks-millis}

push : ℕ → List Text → List Text
push c [] = (c ∷ []) ∷ []
push c (l ∷ ls) = (c ∷ l) ∷ ls

-- The lines of a text.
unfoldable pub lines : Text → List Text
unfolding push
lines [] = []
lines (c ∷ s) = let rest = lines s in if c == 10 then [] ∷ rest else push c rest

-- The number in front, as far as there are digits.
unfoldable pub number : ℕ → Text → ℕ
number acc [] = acc
number acc (c ∷ s) =
    let rest = number (acc * 10 + (c - 48)) s in if leb 48 c && leb c 57 then rest else acc

unfoldable pub skip_spaces : Text → Text
skip_spaces [] = []
skip_spaces (c ∷ s) = let rest = skip_spaces s in if c == 32 then rest else c ∷ s

-- The number after the label of a line, which has eighteen characters.
abbrev pub read_millis : Text → ℕ
read_millis line = number 0 (skip_spaces (drop 18 line))

lines-line : (l rest : Text) → breaks l ≡ 0 → lines (l ++ 10 ∷ rest) ≡ l ∷ lines rest
unfolding lines breaks
lines-line [] rest h = refl
lines-line (c ∷ l) rest h =
    let more : breaks l ≡ 0 = ground arith in rw (lines-line l rest more) (ground arith)

number-value :
    (acc : ℕ) (l t : Text) → All IsDigit l → number acc (l ++ (codes "ms" ++ t)) ≡ value acc l
unfolding number value
number-value acc [] t h = refl
number-value acc (c ∷ l) t h = ground (arith, h.0, number-value (acc * 10 + (c - 48)) l t h.1)

skip-digits :
    (l t : Text) → All IsDigit l → skip_spaces (l ++ (codes "ms" ++ t)) ≡ l ++ (codes "ms" ++ t)
unfolding skip_spaces
skip-digits [] t h = refl
skip-digits (c ∷ l) t h = ground (arith, h.0)

skip-spaces : (n : ℕ) (t : Text) → skip_spaces (spaces n ++ t) ≡ skip_spaces t
unfolding skip_spaces spaces
skip-spaces zero t = refl
skip-spaces (suc n) t = skip-spaces n t

-- What `millis` writes is read back.
number-millis :
    (d : ℕ) (t : Text)
    → as_millis d < 10 ^ 40
    → number 0 (skip_spaces (millis d ++ t)) ≡ as_millis d
unfolding millis pad_left
number-millis d t h =
    let digits : Text = decimal (as_millis d) in
    let all = decimal-IsDigit (as_millis d) in
    ap (λ (x : Text). number 0 (skip_spaces x))
      (append_assoc _ (codes "ms") t ∙ append_assoc (spaces _) digits (codes "ms" ++ t))
    ∙ ap (number 0) (skip-spaces _ (digits ++ (codes "ms" ++ t)) ∙ skip-digits digits t all)
    ∙ number-value 0 digits t all
    ∙ value-decimal (as_millis d) h

-- A text that is one line.
unfoldable pub IsLine : Text → Type 0
IsLine x = (body : Text) × (x ≡ body ++ codes "\n") × (breaks body ≡ 0)

line-append : (l x body : Text) → x ≡ body ++ codes "\n" → l ++ x ≡ (l ++ body) ++ codes "\n"
line-append l x body e = ap (λ (y : Text). l ++ y) e ∙ sym (append_assoc l body _)

pub IsLine-append : (l x : Text) → breaks l ≡ 0 → IsLine x → IsLine (l ++ x)
unfolding IsLine
IsLine-append l x h (body, e, n) =
    (l ++ body, line-append l x body e, omega (arith, breaks-append l body))

-- A text that is one line, from which a number is read.
unfoldable pub Reads : ℕ → Text → Type 0
Reads k x = (rest : Text) → map read_millis (lines (x ++ rest)) ≡ k ∷ map read_millis (lines rest)

pub Reads-line :
    (label : Text) (d : ℕ) (x : Text)
    → ((t : Text) → drop 18 (label ++ t) ≡ t)
    → breaks label ≡ 0
    → as_millis d < 10 ^ 40
    → IsLine x
    → Reads (as_millis d) (label ++ (millis d ++ x))
unfolding Reads IsLine
Reads-line label d x cut h n (body, e, m) rest =
    let line : Text = label ++ (millis d ++ body) in
    let same : (label ++ (millis d ++ x)) ++ rest ≡ line ++ 10 ∷ rest =
      ap (λ (y : Text). y ++ rest) (line-append label _ _ (line-append (millis d) x body e))
      ∙ append_assoc line (codes "\n") rest in
    let unbroken : breaks line ≡ 0 = omega (
      arith,
      breaks-append label (millis d ++ body),
      breaks-append (millis d) body,
      breaks-millis d,
    ) in
    rw (same, lines-line line rest unbroken, cut (millis d ++ body), number-millis d body n) refl

pub newline : IsLine (codes "\n")
unfolding IsLine breaks
newline = ([], refl, refl)
