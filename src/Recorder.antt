-- ===== src/Recorder.antt =====
-- The `Recorder` trait of src/stats.rs: its seven callbacks as the constructors of one type. The
-- request is left out of each, since no recorder of the crate reads it. Of a stream that is
-- connected a recorder learns only what it asks for: the TLS protocol version and its name.
use httptrace.Prelude.{Bool, Option, List, Result, Text}
use httptrace.Net.{SocketAddr, Display}

pub data Call (d : Display) : Type 0 where
  dns_start : List d.NameServer → Text → Call d
  dns_done : List d.NameServer → Text → Result (List SocketAddr × Bool) Text → Call d
  tcp_start : SocketAddr → Call d
  tcp_done : SocketAddr → Result (Unit {0}) Text → Call d
  tls_start : Call d
  tls_done : Result (Option (Option Text)) Text → Call d
  request_start : Call d
