-- ===== src/Stats/Report.antt =====
-- src/stats.rs: `impl Display for Stats`. Writing to the formatter does not fail.
pub mod Lines
pub mod Reading
pub mod RoundTrip
use httptrace.Prelude.{
  ℕ, suc, ◌+◌, ◌≡◌, refl, Option, none, some, List, [], ◌∷◌, ◌++◌, arith, Text, codes, decimal,
  pad_left, unwrap_or,
}
use httptrace.Prelude.Time.{as_millis}
use httptrace.Stats.{Stat, Stats}

-- `{:>4}` of a duration in milliseconds, and the unit.
pub millis : ℕ → Text
millis d = pad_left 4 (decimal (as_millis d)) ++ codes "ms"

-- `write!` of the error, where there is one, and the end of the line.
failure : Text → Option Text → Text
failure label none = codes "\n"
failure label (some e) = label ++ (e ++ codes "\n")

total_line : ℕ → Text
total_line d = codes "total_duration:   " ++ (millis d ++ codes "\n")

dns_line : Stat → Text
dns_line s =
    codes "dns_duration:     "
    ++ (millis s.duration ++ (codes " >>> resolve: " ++ (unwrap_or [] s.extend ++ codes "\n")))

tcp_line : Stat → Text
tcp_line s =
    codes "tcp_duration:     "
    ++ (millis s.duration
        ++ (codes " >>> connect: "
            ++ (unwrap_or [] s.extend ++ (codes " " ++ failure (codes "; failed: ") s.error))))

tcp_lines : List Stat → Text
tcp_lines [] = []
tcp_lines (s ∷ l) = tcp_line s ++ tcp_lines l

tls_line : Stat → Text
tls_line s =
    codes "tls_duration:     "
    ++ (millis s.duration
        ++ (codes " >>> version: "
            ++ (unwrap_or [] s.extend ++ (codes " " ++ failure (codes "; failed: ") s.error))))

request_line : Stat → Text
request_line s =
    codes "request_duration: " ++ (millis s.duration ++ failure (codes " failed: ") s.error)

if_present : {A : Type 0} → (A → Text) → Option A → Text
if_present f none = []
if_present f (some a) = f a

pub report : Stats → Text
report s =
    total_line s.total_duration
    ++ (dns_line s.dns_stats
        ++ (if_present tcp_lines s.tcp_stats
            ++ (if_present tls_line s.tls_stats ++ if_present request_line s.request_stats)))
