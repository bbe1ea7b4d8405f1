-- ===== src/Stats/Report/Lines.antt =====
-- src/stats.rs: how many lines `Display for Stats` writes.
use httptrace.Prelude.{
  ℕ, ◌+◌, ◌≡◌, refl, Option, none, some, List, [], ◌∷◌, arith, Text, codes, unwrap_or, breaks,
  breaks-append, breaks_laws, All, length,
}
use httptrace.Stats.{Stat, Stats}
use httptrace.Stats.Report.{
  report, millis, failure, total_line, dns_line, tcp_line, tcp_lines, tls_line, request_line,
  if_present,
}

-- A stat whose texts stand on one line.
pub record IsOneLine (s : Stat) : Type 0 where
  pub extend : breaks (unwrap_or [] s.extend) ≡ 0
  pub error : breaks (unwrap_or [] s.error) ≡ 0

pub breaks-millis : (n : ℕ) → breaks (millis n) ≡ 0
unfolding millis
breaks-millis n = simp breaks_laws (unfold breaks in refl)

ruleset line_laws = (breaks_laws, breaks-millis)

breaks-failure :
    (label : Text) (e : Option Text)
    → breaks label ≡ 0
    → breaks (unwrap_or [] e) ≡ 0
    → breaks (failure label e) ≡ 1
unfolding failure
breaks-failure label none h k = unfold breaks in refl
breaks-failure label (some e) h k = simp (breaks-append, h, k) (unfold breaks in refl)

breaks-total_line : (n : ℕ) → breaks (total_line n) ≡ 1
unfolding total_line
breaks-total_line n = simp line_laws (unfold breaks in refl)

breaks-dns_line : (s : Stat) → IsOneLine s → breaks (dns_line s) ≡ 1
unfolding dns_line
breaks-dns_line s h = simp (line_laws, h.extend) (unfold breaks in refl)

breaks-tcp_line : (s : Stat) → IsOneLine s → breaks (tcp_line s) ≡ 1
unfolding tcp_line
breaks-tcp_line s h =
    simp
      (
        line_laws,
        h.extend,
        breaks-failure (codes "; failed: ") s.error (unfold breaks in refl) h.error,
      )
      (unfold breaks in refl)

breaks-tls_line : (s : Stat) → IsOneLine s → breaks (tls_line s) ≡ 1
unfolding tls_line
breaks-tls_line s h =
    simp
      (
        line_laws,
        h.extend,
        breaks-failure (codes "; failed: ") s.error (unfold breaks in refl) h.error,
      )
      (unfold breaks in refl)

breaks-request_line : (s : Stat) → IsOneLine s → breaks (request_line s) ≡ 1
unfolding request_line
breaks-request_line s h =
    simp (line_laws, breaks-failure (codes " failed: ") s.error (unfold breaks in refl) h.error)
      (unfold breaks in refl)

breaks-tcp_lines : (l : List Stat) → All IsOneLine l → breaks (tcp_lines l) ≡ length l
unfolding tcp_lines
breaks-tcp_lines [] h = unfold breaks in refl
breaks-tcp_lines (s ∷ l) h =
    omega (
      arith,
      breaks-append (tcp_line s) (tcp_lines l),
      breaks-tcp_line s h.0,
      breaks-tcp_lines l h.1,
    )

abbrev pub count_some : {A : Type 0} → (A → ℕ) → Option A → ℕ
count_some f none = 0
count_some f (some a) = f a

abbrev pub OneLineEach : {A : Type 0} → (A → Type 0) → Option A → Type 0
OneLineEach P none = Unit
OneLineEach P (some a) = P a

breaks-if_present :
    {A : Type 0} (P : A → Type 0) (f : A → Text) (g : A → ℕ) (o : Option A)
    → ((a : A) → P a → breaks (f a) ≡ g a)
    → OneLineEach P o
    → breaks (if_present f o) ≡ count_some g o
unfolding if_present
breaks-if_present P f g none h k = unfold breaks in refl
breaks-if_present P f g (some a) h k = h a k

-- A report of stats whose texts hold no line break has one line for the total, one for DNS, one
-- for each connection attempt, and one each for the TLS and request phases that are present.
pub breaks-report :
    (s : Stats)
    → IsOneLine s.dns_stats
    → OneLineEach (All IsOneLine) s.tcp_stats
    → OneLineEach IsOneLine s.tls_stats
    → OneLineEach IsOneLine s.request_stats
    → breaks (report s)
      ≡ 2
        + count_some length s.tcp_stats
        + count_some (λ _. 1) s.tls_stats
        + count_some (λ _. 1) s.request_stats
unfolding report
breaks-report s dns tcp tls req =
    simp
      (
        breaks-append,
        breaks-total_line,
        breaks-dns_line s.dns_stats dns,
        breaks-if_present (All IsOneLine) tcp_lines length s.tcp_stats breaks-tcp_lines tcp,
        breaks-if_present IsOneLine tls_line (λ _. 1) s.tls_stats breaks-tls_line tls,
        breaks-if_present IsOneLine request_line (λ _. 1) s.request_stats breaks-request_line req,
      )
      (omega arith)
