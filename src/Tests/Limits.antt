-- ===== src/Tests/Limits.antt =====
-- src/client.rs, `execute`, on runs that fail, and with times.
use mathlib.Core.List.{Memᴰ, Perm, erase-cons-head}
use httptrace.Prelude.{
  ℕ, ◌+◌, ◌≤◌, ◌<◌, ◌≡◌, refl, Bool, none, some, List, [], ◌∷◌, ok, err, arith, text_eq,
}
use httptrace.Prelude.HashMap
use httptrace.Prelude.Time.{from_secs}
use httptrace.Net.{SocketAddr}
use httptrace.Error.{io, all_tcp_connect_failed}
use httptrace.Request
use httptrace.Request.{HttpRequest}
use httptrace.Client.Connect
use httptrace.Client.Connect.{timer_elapsed, received, closed, fallback_interval}
use httptrace.Client.Connect.Runtime.{SocketAddr-discrete, settle}
use httptrace.Client.Connect.Outcome.{failures}
use httptrace.Response.{HttpResponse}
use httptrace.Client.Async.{Channel, sent}
use httptrace.Client.Resolve.{dns_resolve}
use httptrace.Client.Handshake.{tls_handshake}
use httptrace.Client.Execute.{Outside, answered, set_headers, connect_tcp, execute}
use httptrace.Client.Execute.Reached.{IsHonestFor}
use httptrace.Client.Execute.Begins.{IsBegun}
use httptrace.Client.Execute.Failing.{execute-Cause}
use httptrace.Client.Execute.Schedule.{Schedule, within, execute_at}
use httptrace.Client.Builder.{Client}
use httptrace.Client.Execute.Deadline.{execute_at-respond, execute_at-IsBegun, phases_end}
use httptrace.Tests.Fixtures.{crates}
use httptrace.Tests.Peers.{transport, reply, response}
use httptrace.Tests.Execute.{client, query, outside, peer}

-- The one address refuses the connection.
abbrev refusing : Outside crates transport
refusing = record outside {
  picks =
      timer_elapsed 0
      ∷ received peer (err (io tt))
      ∷ timer_elapsed (0 + fallback_interval)
      ∷ closed
      ∷ [];
}

resolved :
    (addrs : List SocketAddr) (hit : Bool)
    → (dns_resolve crates client query none).1 ≡ some (ok (addrs, hit))
    → addrs ≡ peer ∷ []
unfolding dns_resolve Request.port HashMap.get text_eq
resolved addrs hit h = ground arith

refusing-IsHonestFor : IsHonestFor crates transport client query refusing (peer ∷ [])
refusing-IsHonestFor =
    unfold settle Connect.turn in
    (
      omega arith,
      (Memᴰ.head refl, (omega arith, ((refl, erase-cons-head SocketAddr-discrete peer []), refl))),
    )

cause_example :
    (addrs : List SocketAddr) × (hit : Bool) × ((dns_resolve crates client query none).1
      ≡ some (ok (addrs, hit)))
    × Perm addrs (failures refusing.picks)
cause_example =
    execute-Cause crates transport client query refusing all_tcp_connect_failed honest failed_run
  where
    honest :
        (addrs : List SocketAddr) (hit : Bool)
        → (dns_resolve crates client query none).1 ≡ some (ok (addrs, hit))
        → IsHonestFor crates transport client query refusing addrs
    honest addrs hit h = rw (resolved addrs hit h) refusing-IsHonestFor

    failed_run : (execute crates transport client query refusing).1 ≡ err all_tcp_connect_failed
    failed_run =
        unfold text_eq execute dns_resolve Request.port HashMap.get connect_tcp Connect.tcp_connect
          Connect.run Connect.turn in
        refl

-- The response comes nine units after the call.
abbrev schedule : Schedule crates transport
schedule = record {
  called = 0;
  resolver = none;
  dns_elapsed = tt;
  now = 3;
  picks = (3, timer_elapsed 3) ∷ (5, received peer (ok 7)) ∷ [];
  native_certs = tt ∷ [];
  secured = 5;
  peer = λ config name. some (6, ok 5);
  tls_elapsed = tt;
  handshake = λ channel. some (7, ok tt);
  respond = λ channel q. some (9, ok reply);
  elapsed = tt;
}

abbrev hasty : Request.Request crates
hasty = record query { timeout = some 8 }

begun_example :
    IsBegun crates transport tt
      (execute_at crates transport client schedule hasty)
      (execute crates transport client hasty (within crates transport client schedule (0 + 10)))
begun_example = execute_at-IsBegun crates transport client hasty schedule 10 (omega arith)

abbrev patient : Request.Request crates
patient = record query { timeout = some 10 }

respond_example :
    (channel : Channel) × (q : HttpRequest crates) × (resp : HttpResponse crates (List (List ℕ)))
    × (t : ℕ) × Memᴰ (sent channel q) (execute_at crates transport client schedule patient).0
    × (schedule.respond channel q ≡ some (t, ok resp))
    × (response ≡ answered crates transport resp)
    × (t ≤ 0 + 10)
respond_example = execute_at-respond crates transport client patient schedule response (
    unfold text_eq execute_at execute dns_resolve Request.port HashMap.get connect_tcp
      Connect.tcp_connect Connect.run Connect.turn set_headers tls_handshake Request.into_http
      answered in
    refl)

-- A host without an override, and a resolver that does not answer.
abbrev asking : Client crates
asking = record client { dns_overrides = [] }

phases_example :
    ((dns_resolve crates asking hasty (within crates transport asking schedule (0 + 8)).lookup).1
        ≡ none
      → 8 < from_secs 5)
    × ((r : Request.Request crates)
        → (tls_handshake crates transport asking r
            (tt ∷ [])
            (within crates transport asking schedule (0 + 8)).connect).1
          ≡ none
        → 0 + 8 < 5 + from_secs 10)
phases_example = phases_end crates transport asking hasty schedule
