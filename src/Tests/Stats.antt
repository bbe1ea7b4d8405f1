-- ===== src/Tests/Stats.antt =====
-- src/stats.rs on the calls of a request with two connection attempts.
use httptrace.Prelude.{
  refl, map, ◌<◌, ◌^◌, sym, false, ℕ, ◌≡◌, ◌≢◌, none, some, List, [], ◌∷◌, ◌++◌, Result, ok, err,
  Text, codes, arith, unwrap_or, to_err, if◌then◌else◌, breaks,
}
use httptrace.Prelude.Time.{duration_since, as_millis}
use httptrace.Net.{v4, SocketAddr}
use httptrace.Recorder.{Call, dns_start, dns_done, tcp_start, tcp_done, request_start}
use httptrace.Stats.{Stat, Stats, Readings, init, replay, finish}
use httptrace.Stats.Attempts.{attempt_reported, Reports}
use httptrace.Stats.Interleaving.{SameStats, exchanged, finish-Reordered}
use httptrace.Stats.Keys.{listed-finish, listed, attempted}
use httptrace.Stats.Report.{report}
use httptrace.Stats.Report.Reading.{lines, read_millis}
use httptrace.Stats.Report.RoundTrip.{IsShown, read-report}
use httptrace.Tests.Fixtures.{display}

abbrev first : SocketAddr
first = record { ip = v4 1; port = 80 }

abbrev second : SocketAddr
second = record { ip = v4 2; port = 80 }

abbrev readings : Readings
readings = record { now = 20; dns = 20; tcp = λ _. 20; tls = 20; request = 20; total = 20 }

abbrev host : Text
host = codes "a.example"

abbrev pre : List (ℕ × Call display)
pre = (5, dns_start [] host) ∷ (6, dns_done [] host (ok (first ∷ second ∷ [], false))) ∷ []

abbrev mid : List (ℕ × Call display)
mid = (10, tcp_start second) ∷ []

abbrev post : List (ℕ × Call display)
post = (12, tcp_done second (ok tt)) ∷ (13, request_start) ∷ []

abbrev refusal : Result (Unit {0}) Text
refusal = err (codes "refused")

second_ne_first : second ≢ first
second_ne_first e = ground arith

attempt_reported_example :
    Reports
      (finish readings (
        replay display
          (pre ++ (7, tcp_start first) ∷ (mid ++ (11, tcp_done first refusal) ∷ post))
          init)).tcp_stats
      (record {
        duration = duration_since 11 7;
        extend = some (display.socket first);
        error = to_err refusal;
      })
attempt_reported_example =
    attempt_reported display first 7 11 refusal readings pre mid post (second_ne_first, tt)
      (second_ne_first, (tt, tt))

abbrev later : List (ℕ × Call display)
later = (7, tcp_start first) ∷ (11, tcp_done first refusal) ∷ (13, request_start) ∷ []

-- The calls of the two attempts, and the start of the second before that of the first.
abbrev both : List (ℕ × Call display)
both = (7, tcp_start first) ∷ (10, tcp_start second) ∷ (11, tcp_done first refusal) ∷ []

abbrev second_first : List (ℕ × Call display)
second_first = (10, tcp_start second) ∷ (7, tcp_start first) ∷ (11, tcp_done first refusal) ∷ []

reordered_example :
    SameStats
      (finish readings (replay display both init))
      (finish readings (replay display second_first init))
reordered_example =
    finish-Reordered display readings both second_first
      (exchanged (7, tcp_start first) (10, tcp_start second) _ (λ e. second_ne_first (sym e)))

listed_example :
    listed
      (display.socket first)
      (unwrap_or [] (finish readings (replay display later init)).tcp_stats)
    ≡ (if attempted display (display.socket first) later then 1 else 0)
listed_example = listed-finish display (display.socket first) readings later

shown :
    {s : Stat}
    → breaks (unwrap_or [] s.extend) ≡ 0
    → breaks (unwrap_or [] s.error) ≡ 0
    → as_millis s.duration < 10 ^ 40
    → IsShown s
shown e i n = record { one_line = record { extend = e; error = i }; bounded = n }

-- The stats of a request over plain TCP whose first attempt failed.
abbrev plain : Stats
plain = record {
  dns_stats = record { duration = 1000000; extend = some (codes "1,2"); error = none };
  tcp_stats = some (
      record { duration = 2000000; extend = some (codes "1"); error = some (codes "refused") }
      ∷ record { duration = 3000000; extend = some (codes "2"); error = none }
      ∷ []);
  tls_stats = none;
  request_stats = some (record { duration = 4000000; extend = none; error = none });
  total_duration = 9000000;
}

report_example : map read_millis (lines (report plain)) ≡ 9 ∷ 1 ∷ 2 ∷ 3 ∷ 4 ∷ []
report_example =
    read-report plain (omega arith)
      (shown (unfold breaks in refl) (unfold breaks in refl) (omega arith))
      (
        shown (unfold breaks in refl) (unfold breaks in refl) (omega arith),
        (shown (unfold breaks in refl) (unfold breaks in refl) (omega arith), tt),
      )
      tt (shown (unfold breaks in refl) (unfold breaks in refl) (omega arith))
