-- ===== src/Stats.antt =====
-- src/stats.rs: `StatsRecorder`. Every method holds the mutex from its first line to its last, so
-- the recorder's clones act on one `Inner` in some order of whole calls. `Instant::now()` is an
-- argument of the call that reads it.
pub mod Timing
pub mod Telling
pub mod Report
pub mod Phases
pub mod Keys
pub mod Attempts
pub mod Alike
pub mod Interleaving
use httptrace.Prelude.{
  ℕ, ◌+◌, ◌*◌, Bool, false, Option, none, some, List, [], ◌∷◌, map, Result, to_ok, to_err,
  is_ok_and, map_ok, and_then, map_some, unwrap_or, Text, codes, join,
}
use httptrace.Prelude.HashMap
use httptrace.Prelude.HashMap.{HashMap}
use httptrace.Prelude.Time.{from_secs, duration_since}
use httptrace.Net.{SocketAddr, Display}
use httptrace.Recorder.{
  Call, dns_start, dns_done, tcp_start, tcp_done, tls_start, tls_done, request_start,
}

pub record StatRecord : Type 0 where
  pub start : Option ℕ
  pub done : Option ℕ
  pub result : Option (Result Text Text)

-- `StatsRecorderInner`
pub record Inner : Type 0 where
  pub dns_stat : StatRecord
  pub dns_hit_cache : Bool
  pub dns_name_servers : Text
  pub tcp_stats : Option (HashMap StatRecord)
  pub tls_stat : Option StatRecord
  pub request_stat : Option StatRecord

pub record Stat : Type 0 where
  pub duration : ℕ
  pub extend : Option Text
  pub error : Option Text

pub record Stats : Type 0 where
  pub dns_stats : Stat
  pub tcp_stats : Option (List Stat)
  pub tls_stats : Option Stat
  pub request_stats : Option Stat
  pub total_duration : ℕ

abbrev pub empty_record : StatRecord
empty_record = record { start = none; done = none; result = none }

-- The derived `Default`, which `StatsRecorder::new` puts behind the mutex.
abbrev pub init : Inner
init = record {
  dns_stat = empty_record;
  dns_hit_cache = false;
  dns_name_servers = [];
  tcp_stats = none;
  tls_stat = none;
  request_stat = none;
}

-- The record that a phase starts with.
abbrev pub started_at : ℕ → StatRecord
started_at now = record { start = some now; done = none; result = none }

abbrev pub finished_at : ℕ → Result Text Text → StatRecord → StatRecord
finished_at now r s = record s { done = some now; result = some r }

abbrev pub version_text : Option (Option Text) → Text
version_text none = codes "unknown"
version_text (some v) = unwrap_or [] v

module _ (d : Display) where
  on_dns_start : ℕ → Inner → Inner
  on_dns_start now s = record s { dns_stat = record s.dns_stat { start = some now } }

  on_dns_done : ℕ → List d.NameServer → Result (List SocketAddr × Bool) Text → Inner → Inner
  on_dns_done now servers r s = record s {
    dns_stat = record s.dns_stat {
      done = some now;
      result = some (map_ok (λ v. join (codes ",") (map d.socket v.0)) r);
    };
    dns_name_servers = join (codes ",") (map d.name_server servers);
    dns_hit_cache = is_ok_and (λ v. v.1) r;
  }

  on_tcp_start : ℕ → SocketAddr → Inner → Inner
  on_tcp_start now dest s = record s {
    tcp_stats = some (HashMap.insert (d.socket dest) (started_at now) (unwrap_or [] s.tcp_stats));
  }

  on_tcp_done : ℕ → SocketAddr → Result (Unit {0}) Text → Inner → Inner
  on_tcp_done now dest r s = record s {
    tcp_stats = some (
        HashMap.modify (d.socket dest) (finished_at now (map_ok (λ _. d.socket dest) r))
          (unwrap_or [] s.tcp_stats));
  }

  on_tls_start : ℕ → Inner → Inner
  on_tls_start now s = record s { tls_stat = some (started_at now) }

  on_tls_done : ℕ → Result (Option (Option Text)) Text → Inner → Inner
  on_tls_done now r s = record s {
    tls_stat = map_some (finished_at now (map_ok version_text r)) s.tls_stat;
  }

  on_request_start : ℕ → Inner → Inner
  on_request_start now s = record s { request_stat = some (started_at now) }

  -- The dispatch of `dyn Recorder`.
  unfoldable pub handle : ℕ → Call d → Inner → Inner
  unfolding on_dns_start on_dns_done on_tcp_start on_tcp_done on_tls_start on_tls_done
      on_request_start
  handle now (dns_start servers host) s = on_dns_start now s
  handle now (dns_done servers host r) s = on_dns_done now servers r s
  handle now (tcp_start dest) s = on_tcp_start now dest s
  handle now (tcp_done dest r) s = on_tcp_done now dest r s
  handle now tls_start s = on_tls_start now s
  handle now (tls_done r) s = on_tls_done now r s
  handle now request_start s = on_request_start now s

  -- A history of calls, each with the time that it read.
  unfoldable pub replay : List (ℕ × Call d) → Inner → Inner
  replay [] s = s
  replay ((now, c) ∷ cs) s = replay cs (handle now c s)

-- `StatRecord::start`: thirty years from `reading` where the phase has not begun.
unfoldable pub start_of : ℕ → StatRecord → ℕ
start_of reading r = unwrap_or (reading + from_secs (86400 * 365 * 30)) r.start

-- The readings of the clock that one call of `finish` makes, each by its own `Instant::now()`.
pub record Readings : Type 0 where
  pub now : ℕ
  pub dns : ℕ
  pub tcp : Text → ℕ
  pub tls : ℕ
  pub request : ℕ
  pub total : ℕ

-- `done.map(|done| done.duration_since(start)).unwrap_or_default()`
unfoldable pub phase : ℕ → StatRecord → ℕ
unfolding start_of
phase reading r = unwrap_or 0 (map_some (λ t. duration_since t (start_of reading r)) r.done)

unfoldable pub dns_stat : ℕ → StatRecord → Stat
unfolding phase
dns_stat reading r = record {
  duration = phase reading r;
  extend = and_then to_ok r.result;
  error = and_then to_err r.result;
}

unfoldable pub tcp_stat : (Text → ℕ) → Text × StatRecord → Stat
unfolding phase
tcp_stat readings (k, r) = record {
  duration = phase (readings k) r;
  extend = some k;
  error = and_then to_err r.result;
}

unfoldable pub tls_stat : ℕ → StatRecord → Stat
unfolding phase
tls_stat reading r = record {
  duration = phase reading r;
  extend = and_then to_ok r.result;
  error = and_then to_err r.result;
}

unfoldable pub request_stat : ℕ → ℕ → StatRecord → Stat
unfolding start_of
request_stat now reading r = record {
  duration = duration_since now (start_of reading r);
  extend = and_then to_ok r.result;
  error = and_then to_err r.result;
}

unfoldable pub finish : Readings → Inner → Stats
unfolding start_of
finish t s = record {
  dns_stats = dns_stat t.dns s.dns_stat;
  tcp_stats = map_some (map (tcp_stat t.tcp)) s.tcp_stats;
  tls_stats = map_some (tls_stat t.tls) s.tls_stat;
  request_stats = map_some (request_stat t.now t.request) s.request_stat;
  total_duration = duration_since t.now (start_of t.total s.dns_stat);
}
