-- ===== src/Stats/Report/RoundTrip.antt =====
-- src/stats.rs: what `Display for Stats` writes, read back.
use mathlib.Core.List.{append_assoc, append-nil}
use httptrace.Prelude.{
  ℕ, ◌^◌, ◌<◌, ◌≡◌, refl, sym, ap, ◌∙◌, Option, none, some, List, [], ◌∷◌, ◌++◌, map, Text, codes,
  unwrap_or, breaks, All,
}
use httptrace.Prelude.Time.{as_millis}
use httptrace.Stats.{Stat, Stats}
use httptrace.Stats.Report.{
  report, failure, total_line, dns_line, tcp_line, tcp_lines, tls_line, request_line, if_present,
}
use httptrace.Stats.Report.Lines.{IsOneLine, OneLineEach}
use httptrace.Stats.Report.Reading.{
  lines, read_millis, IsLine, IsLine-append, newline, Reads, Reads-line,
}

failure-IsLine :
    (label : Text) (e : Option Text)
    → breaks label ≡ 0
    → breaks (unwrap_or [] e) ≡ 0
    → IsLine (failure label e)
unfolding failure
failure-IsLine label none h k = newline
failure-IsLine label (some e) h k = IsLine-append label _ h (IsLine-append e (codes "\n") k newline)

-- A stat on one line, with a duration that a `u128` of milliseconds holds.
pub record IsShown (s : Stat) : Type 0 where
  pub one_line : IsOneLine s
  pub bounded : as_millis s.duration < 10 ^ 40

total_line-Reads : (d : ℕ) → as_millis d < 10 ^ 40 → Reads (as_millis d) (total_line d)
unfolding total_line
total_line-Reads d h =
    Reads-line (codes "total_duration:   ") d (codes "\n") (λ t. refl) (unfold breaks in refl) h
      newline

dns_line-Reads : (s : Stat) → IsShown s → Reads (as_millis s.duration) (dns_line s)
unfolding dns_line
dns_line-Reads s h =
    Reads-line (codes "dns_duration:     ") s.duration _ (λ t. refl) (unfold breaks in refl)
      h.bounded
      (IsLine-append (codes " >>> resolve: ") _ (unfold breaks in refl)
        (IsLine-append _ (codes "\n") h.one_line.extend newline))

-- The end of a line on TCP or TLS.
noted-IsLine :
    (label : Text) (s : Stat)
    → breaks label ≡ 0
    → IsOneLine s
    → IsLine
        (label ++ (unwrap_or [] s.extend ++ (codes " " ++ failure (codes "; failed: ") s.error)))
noted-IsLine label s h one = IsLine-append label _ h (
    IsLine-append (unwrap_or [] s.extend) _ one.extend (
      IsLine-append (codes " ") _ (unfold breaks in refl)
        (failure-IsLine (codes "; failed: ") s.error (unfold breaks in refl) one.error)))

tcp_line-Reads : (s : Stat) → IsShown s → Reads (as_millis s.duration) (tcp_line s)
unfolding tcp_line
tcp_line-Reads s h =
    Reads-line (codes "tcp_duration:     ") s.duration _ (λ t. refl) (unfold breaks in refl)
      h.bounded (noted-IsLine (codes " >>> connect: ") s (unfold breaks in refl) h.one_line)

tls_line-Reads : (s : Stat) → IsShown s → Reads (as_millis s.duration) (tls_line s)
unfolding tls_line
tls_line-Reads s h =
    Reads-line (codes "tls_duration:     ") s.duration _ (λ t. refl) (unfold breaks in refl)
      h.bounded (noted-IsLine (codes " >>> version: ") s (unfold breaks in refl) h.one_line)

request_line-Reads : (s : Stat) → IsShown s → Reads (as_millis s.duration) (request_line s)
unfolding request_line
request_line-Reads s h =
    Reads-line (codes "request_duration: ") s.duration _ (λ t. refl) (unfold breaks in refl)
      h.bounded
      (failure-IsLine (codes " failed: ") s.error (unfold breaks in refl) h.one_line.error)

-- A text of which the numbers are read, line by line.
ReadsAll : List ℕ → Text → Type 0
ReadsAll ks x =
    (rest : Text) → map read_millis (lines (x ++ rest)) ≡ ks ++ map read_millis (lines rest)

ReadsAll-append :
    (ks ls : List ℕ) (x y : Text) → ReadsAll ks x → ReadsAll ls y → ReadsAll (ks ++ ls) (x ++ y)
unfolding ReadsAll
ReadsAll-append ks ls x y h k rest =
    ap (λ (t : Text). map read_millis (lines t)) (append_assoc x y rest)
    ∙ h (y ++ rest)
    ∙ ap (λ (l : List ℕ). ks ++ l) (k rest)
    ∙ sym (append_assoc ks ls _)

abbrev pub millis_of : Stat → ℕ
millis_of s = as_millis s.duration

tcp_lines-ReadsAll : (l : List Stat) → All IsShown l → ReadsAll (map millis_of l) (tcp_lines l)
unfolding tcp_lines ReadsAll
tcp_lines-ReadsAll [] h = λ rest. refl
tcp_lines-ReadsAll (s ∷ l) h =
    ReadsAll-append (millis_of s ∷ []) (map millis_of l) (tcp_line s) (tcp_lines l)
      (unfold Reads in tcp_line-Reads s h.0) (tcp_lines-ReadsAll l h.1)

-- The numbers of what is there.
abbrev pub listed_if : {A : Type 0} → (A → List ℕ) → Option A → List ℕ
listed_if f none = []
listed_if f (some a) = f a

if_present-ReadsAll :
    {A : Type 0} (P : A → Type 0) (f : A → Text) (g : A → List ℕ) (o : Option A)
    → ((a : A) → P a → ReadsAll (g a) (f a))
    → OneLineEach P o
    → ReadsAll (listed_if g o) (if_present f o)
unfolding if_present ReadsAll
if_present-ReadsAll P f g none h k = λ rest. refl
if_present-ReadsAll P f g (some a) h k = h a k

abbrev all_millis : Stats → List ℕ
all_millis s =
    as_millis s.total_duration
    ∷ millis_of s.dns_stats
    ∷ (listed_if (map millis_of) s.tcp_stats
        ++ (listed_if (λ r. millis_of r ∷ []) s.tls_stats
            ++ listed_if (λ r. millis_of r ∷ []) s.request_stats))

single : (x : Text) (k : ℕ) → Reads k x → ReadsAll (k ∷ []) x
unfolding Reads ReadsAll
single x k h = h

report-ReadsAll :
    (s : Stats)
    → as_millis s.total_duration < 10 ^ 40
    → IsShown s.dns_stats
    → OneLineEach (All IsShown) s.tcp_stats
    → OneLineEach IsShown s.tls_stats
    → OneLineEach IsShown s.request_stats
    → ReadsAll (all_millis s) (report s)
unfolding report
report-ReadsAll s total dns tcp tls req =
    ReadsAll-append (as_millis s.total_duration ∷ []) _ (total_line s.total_duration) _
      (single _ _ (total_line-Reads s.total_duration total))
      (ReadsAll-append (millis_of s.dns_stats ∷ []) _ (dns_line s.dns_stats) _
        (single _ _ (dns_line-Reads s.dns_stats dns))
        (ReadsAll-append _ _ (if_present tcp_lines s.tcp_stats) _
          (if_present-ReadsAll (All IsShown) tcp_lines (map millis_of) s.tcp_stats
            tcp_lines-ReadsAll tcp)
          (ReadsAll-append _ _ (if_present tls_line s.tls_stats) _
            (if_present-ReadsAll IsShown tls_line (λ r. millis_of r ∷ []) s.tls_stats
              (λ r h. single _ _ (tls_line-Reads r h)) tls)
            (if_present-ReadsAll IsShown request_line (λ r. millis_of r ∷ []) s.request_stats
              (λ r h. single _ _ (request_line-Reads r h)) req))))

-- The report can be read back: it has one line for the total, one for DNS, one for each connection
-- attempt, and one each for the TLS and request phases that are present, in this order, and on each
-- the number after the label is the duration in milliseconds, if no text of the stats holds a line
-- break and no duration has more than forty digits.
pub read-report :
    (s : Stats)
    → as_millis s.total_duration < 10 ^ 40
    → IsShown s.dns_stats
    → OneLineEach (All IsShown) s.tcp_stats
    → OneLineEach IsShown s.tls_stats
    → OneLineEach IsShown s.request_stats
    → map read_millis (lines (report s))
      ≡ as_millis s.total_duration
        ∷ millis_of s.dns_stats
        ∷ (listed_if (map millis_of) s.tcp_stats
            ++ (listed_if (λ r. millis_of r ∷ []) s.tls_stats
                ++ listed_if (λ r. millis_of r ∷ []) s.request_stats))
unfolding ReadsAll lines
read-report s total dns tcp tls req =
    ap (λ (x : Text). map read_millis (lines x)) (sym (append-nil (report s)))
    ∙ report-ReadsAll s total dns tcp tls req []
    ∙ append-nil (all_millis s)
