-- ===== src/Client/Execute/Order.antt =====
-- src/client.rs, `execute`: in which order an execution goes through its phases.
use httptrace.Prelude.{
  inl, inr, ◌≡◌, refl, Bool, Option, none, some, List, [], ◌∷◌, map_some, map_err, Result, ok, err,
  arith, All, Bool-cases,
}
use httptrace.Net.{SocketAddr}
use httptrace.Recorder.{request_start}
use httptrace.Error.{Error, hyper}
use httptrace.Crates.{Crates}
use httptrace.Request
use httptrace.Request.{Request, HttpRequest}
use httptrace.Response.{Response}
use httptrace.Client.Builder.{Client}
use httptrace.Client.Connect.{Effect, on_tcp_start, on_tcp_done}
use httptrace.Client.Async.{Transport, Channel, Async, tell, lift, await, plain_h1}
use httptrace.Client.Async.Order.{
  phase, InOrder, Phases, Phases-widen, Phases-bind, Phases-tcp, Phases-told,
}
use httptrace.Client.Resolve.{dns_resolve}
use httptrace.Client.Resolve.Laws.{Phases-dns_resolve}
use httptrace.Client.Handshake.{tls_handshake}
use httptrace.Client.Handshake.Laws.{Phases-tls_handshake}
use httptrace.Client.Execute.{
  Outside, timed, send_converted, send_on, tls_send_request, tcp_send_h1_request, effect_events,
  connect_tcp, transmit, execute_inner, execute, connected, prepared, set_headers, send_told,
  send_tls,
}

module _ (c : Crates) where
  effect_events-tcp :
      (o : Option c.Recorder) (r : Request c) (es : List Effect)
      → All (λ e. phase e ≡ 2) (effect_events c (record r { recorder = o }) es)
  effect_events-tcp o r [] = tt
  effect_events-tcp none r (on_tcp_start a ∷ es) = effect_events-tcp none r es
  effect_events-tcp (some x) r (on_tcp_start a ∷ es) = (refl, effect_events-tcp (some x) r es)
  effect_events-tcp none r (on_tcp_done a k ∷ es) = effect_events-tcp none r es
  effect_events-tcp (some x) r (on_tcp_done a k ∷ es) = (refl, effect_events-tcp (some x) r es)
  effect_events-tcp o r (Effect.spawned a ∷ es) = (refl, effect_events-tcp o r es)
  effect_events-tcp o r (Effect.cancelled ∷ es) = (refl, effect_events-tcp o r es)

module _ (c : Crates) (x : Transport c) (client : Client c) (o : Outside c x) where
  pub Phases-connect_tcp :
      (r : Request c) (addrs : List SocketAddr) → Phases 2 2 (connect_tcp c x client r addrs o).0
  unfolding connect_tcp
  Phases-connect_tcp r addrs = Phases-tcp _ (effect_events-tcp c r.recorder r _)

  Phases-sent :
      (channel : Channel) (q : Result (HttpRequest c) (Error c.foreign))
      → Phases 6 6 (send_converted c x o channel q).0
  unfolding send_converted
  Phases-sent channel (ok q) = ((tt, tt), ((omega arith, omega arith), tt))
  Phases-sent channel (err e) = (tt, tt)

  Phases-send_on : (channel : Channel) (r : Request c) → Phases 6 6 (send_on c x o channel r).0
  unfolding send_on
  Phases-send_on channel r =
      Phases-bind 6 0 6 6 (await (map_some (map_err hyper) (o.handshake channel)))
        (λ _. send_converted c x o channel (Request.into_http r)) (omega arith) (omega arith)
        (omega arith) (tt, tt) (λ _. Phases-sent channel (Request.into_http r))

  Phases-send_told : (channel : Channel) (r : Request c) → Phases 5 6 (send_told c x o channel r).0
  unfolding send_told
  Phases-send_told channel r =
      Phases-bind 5 5 6 6 (tell c r request_start, some (ok tt)) (λ _. send_on c x o channel r)
        (omega arith) (omega arith) (omega arith) (Phases-told c r.recorder request_start)
        (λ _. Phases-send_on channel r)

  Phases-transmit : (r : Request c) → Phases 3 6 (transmit c x client o r).0
  unfolding transmit send_tls tls_send_request tcp_send_h1_request
  Phases-transmit r = elim (Bool-cases (c.http.is_https r.uri)) [
    | inl e ↦ rw e (
        Phases-bind 3 4 5 6 (tls_handshake c x client r o.native_certs o.connect)
          (λ s. tls_send_request c x o s r) (omega arith) (omega arith) (omega arith)
          (Phases-tls_handshake c x client r o.native_certs o.connect) (λ s. Phases-send_told _ r))
    | inr e ↦ rw e (Phases-widen 3 5 6 _ (omega arith) (Phases-send_told plain_h1 r))
  ]

  Phases-prepared : (r : Request c) → Phases 3 6 (prepared c x client r o).0
  unfolding prepared
  Phases-prepared r =
      Phases-bind 3 0 3 6 (lift (set_headers c client r)) (transmit c x client o) (omega arith)
        (omega arith) (omega arith) (tt, tt) Phases-transmit

  Phases-connected :
      (r : Request c) (found : List SocketAddr × Bool)
      → Phases 2 6 (connected c x client r o found).0
  unfolding connected
  Phases-connected r found =
      Phases-bind 2 2 3 6 (connect_tcp c x client r found.0 o) (λ _. prepared c x client r o)
        (omega arith) (omega arith) (omega arith) (Phases-connect_tcp r found.0)
        (λ _. Phases-prepared r)

  Phases-execute_inner : (r : Request c) → Phases 0 6 (execute_inner c x client r o).0
  unfolding execute_inner
  Phases-execute_inner r =
      Phases-bind 0 1 2 6 (dns_resolve c client r o.lookup) (connected c x client r o) (omega arith)
        (omega arith) (omega arith) (Phases-dns_resolve c client r o.lookup) (Phases-connected r)

  pub events-timed : (e : c.foreign.Elapsed) (p : Async c (Response c)) → (timed c x e p).0 ≡ p.0
  unfolding timed
  events-timed e (es, none) = refl
  events-timed e (es, some r) = refl

-- Whatever the outside answers, the events of an execution come in the order of the phases: the
-- recorder hears of the start of name resolution and then of its end, of connection attempts, of
-- the start of the TLS handshake and then of its end, and of the start of the request, and then the
-- request is sent. Except for connection attempts, none of these happens twice.
pub execute-InOrder :
    (c : Crates) (x : Transport c) (client : Client c) (r : Request c) (o : Outside c x)
    → InOrder (execute c x client r o).0
unfolding execute
execute-InOrder c x client r o =
    rw (events-timed c x client o o.elapsed (execute_inner c x client r o))
      (Phases-execute_inner c x client o r).0
