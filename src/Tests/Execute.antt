-- ===== src/Tests/Execute.antt =====
-- src/client.rs, `execute`, on one request over TLS to a host with an override.
use httptrace.Prelude.{
  ◌↔◌, ℕ, ◌-◌, ◌≤◌, ◌≡◌, refl, true, false, none, some, List, [], ◌∷◌, map, ok, err, arith, All,
  Text, codes, text_eq, or_else,
}
use httptrace.Prelude.HashMap
use httptrace.Prelude.Time.{from_secs}
use httptrace.Net.{v4, SocketAddr}
use httptrace.Recorder.{
  Call, dns_start, dns_done, tcp_start, tcp_done, tls_start, tls_done, request_start,
}
use httptrace.Error.{Error}
use httptrace.Body.{reusable}
use httptrace.Request
use httptrace.Request.{Request}
use httptrace.Request.Builder
use httptrace.Request.Builder.{Op, timeout_op, version_op, bearer_op, chain}
use httptrace.Request.Builder.Laws.{first_error}
use httptrace.Client.Builder.{Client}
use httptrace.Client.Connect
use httptrace.Client.Connect.{Pick, timer_elapsed, received}
use httptrace.Response.{Response}
use httptrace.Client.Async.Order.{InOrder}
use httptrace.Client.Resolve.{dns_resolve}
use httptrace.Client.Resolve.Laws.{Resolves, dns_resolve_iff}
use httptrace.Client.Handshake.{TlsConfig, connected, tls_handshake}
use httptrace.Client.Handshake.Laws.{IsSecured, tls_handshake-IsSecured}
use httptrace.Client.Execute.{Outside, answered, set_headers, connect_tcp, execute, mozilla}
use httptrace.Client.Execute.Headers.{IsCompleted, set_headers-IsCompleted}
use httptrace.Client.Execute.Order.{execute-InOrder}
use httptrace.Client.Execute.Answering.{IsAnswer}
use httptrace.Client.Execute.Sending.{IsSent, execute-IsSent}
use httptrace.Client.Async.Hearing.{calls}
use httptrace.Client.Execute.Timed.{execute-NoLongerThan}
use httptrace.Client.Send.{request, send, send-chain}
use httptrace.Stats.{Readings, init, replay, finish}
use httptrace.Stats.Timing.{NoLongerThan}
use httptrace.Tests.Fixtures.{foreign, http, display, crates, Uri}
use httptrace.Tests.Peers.{transport, reply, response}

abbrev pub host : Text
host = codes "a.example"

abbrev pub address : Uri
address = record { host = some host; port = none; https = true }

abbrev pub client : Client crates
client = record {
  local_addr = none;
  resolver = record { config = []; ip_strategy = 0 };
  dns_overrides = (host, v4 1 ∷ []) ∷ [];
  skip_tls_verify = false;
  alpn_protocols = none;
  disable_auto_set_header = false;
  prefer_ipv6 = false;
  dns_timeout = from_secs 5;
  tcp_timeout = from_secs 30;
  tls_timeout = from_secs 10;
}

abbrev pub query : Request crates
query = record {
  method = 0;
  uri = address;
  headers = http.empty_headers;
  body = some (reusable (1 ∷ []));
  timeout = none;
  version = 11;
  recorder = some 4;
}

abbrev pub peer : SocketAddr
peer = record { ip = v4 1; port = 443 }

abbrev pub outside : Outside crates transport
outside = record {
  lookup = none;
  now = 0;
  picks = timer_elapsed 0 ∷ received peer (ok 7) ∷ [];
  native_certs = tt ∷ [];
  connect = λ config name. some (connected 5);
  handshake = λ channel. some (ok tt);
  respond = λ channel q. some (ok reply);
  elapsed = tt;
}

order_example : InOrder (execute crates transport client query outside).0
order_example = execute-InOrder crates transport client query outside

sent_example :
    All
      (IsSent crates transport outside client query)
      (execute crates transport client query outside).0
    × ((a : Response crates)
        → (execute crates transport client query outside).1 ≡ ok a
        → IsAnswer crates transport outside (execute crates transport client query outside).0 a)
sent_example = execute-IsSent crates transport client query outside

-- The execution comes to its end.
pub answered_run : (execute crates transport client query outside).1 ≡ ok response
answered_run =
    unfold text_eq execute dns_resolve Request.port HashMap.get connect_tcp Connect.tcp_connect
      Connect.run Connect.turn set_headers tls_handshake Request.into_http answered in
    refl

abbrev heard : List (ℕ × Call display)
heard =
    (2, dns_done [] host (ok (peer ∷ [], true)))
    ∷ (3, tcp_start peer)
    ∷ (4, tcp_done peer (ok tt))
    ∷ (5, tls_start)
    ∷ (6, tls_done (ok none))
    ∷ (7, request_start)
    ∷ []

heard-calls :
    calls (execute crates transport client query outside).0
    ≡ dns_start [] host ∷ map (λ e. e.1) heard
heard-calls =
    unfold text_eq execute dns_resolve Request.port HashMap.get connect_tcp Connect.tcp_connect
      Connect.run Connect.turn set_headers tls_handshake Request.into_http answered in
    refl

abbrev pub readings : Readings
readings = record { now = 9; dns = 9; tcp = λ _. 9; tls = 9; request = 9; total = 9 }

heard_in_time : All (λ (e : ℕ × Call display). (1 ≤ e.0) × (e.0 ≤ 9)) heard
heard_in_time = omega arith

timed_example :
    let s = finish readings (replay display ((1, dns_start [] host) ∷ heard) init) in
    (s.total_duration ≡ 9 - 1) × NoLongerThan s.total_duration s
timed_example =
    execute-NoLongerThan crates transport client query outside 4 1 (dns_start [] host) heard
      readings refl heard-calls heard_in_time

abbrev completed : Request crates
completed = record query {
  headers = http.insert 1 (http.value_of mozilla) (http.insert 0 (false, host) http.empty_headers);
}

completed_example :
    (h : Text) × (http.host address ≡ some h)
    × IsCompleted crates h http.empty_headers completed.headers
    × (completed ≡ record query { headers = completed.headers })
completed_example =
    set_headers-IsCompleted crates client query completed refl (unfold set_headers in refl)

resolve_example :
    ((dns_resolve crates client query none).1 ≡ some (ok (peer ∷ [], true)))
    ↔ Resolves crates client query none (ok (peer ∷ [], true))
resolve_example = dns_resolve_iff crates client query none (ok (peer ∷ [], true))

secured_example :
    (config : TlsConfig crates transport) × (name : Text) × IsSecured crates transport client query
      config name
    × (outside.connect config name ≡ some (connected 5))
secured_example =
    tls_handshake-IsSecured crates transport client query (tt ∷ []) outside.connect 5
      (unfold tls_handshake in refl)

abbrev pub changes : List (Op crates)
changes = timeout_op 9 ∷ version_op 20 ∷ bearer_op (codes "token") ∷ version_op 11 ∷ []

send_example :
    let b = chain changes (request crates client 0 (ok address)) in
    let error = or_else none (first_error changes) in
    ((e : Error foreign) → error ≡ some e → send crates transport b outside ≡ ([], err e))
    × (error ≡ none
        → (r : Request crates) × (Builder.build b ≡ ok r)
          × (send crates transport b outside ≡ execute crates transport client r outside))
send_example = send-chain crates transport client 0 (ok address) changes outside
