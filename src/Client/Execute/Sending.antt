-- ===== src/Client/Execute/Sending.antt =====
-- src/client.rs, `execute`: what is sent, and on which channel.
use httptrace.Prelude.{
  ◌↔◌, ℕ, ◌≤◌, ◌≡◌, refl, ap, sym, ◌∙◌, false, none, some, List, Result, ok, err, arith, All,
  All-append, All-mono, Bool-cases, inl, inr, map_some, map_err, if◌then◌else◌,
}
use httptrace.Recorder.{request_start}
use httptrace.Error.{Error, hyper}
use httptrace.Crates.{Crates}
use httptrace.Request
use httptrace.Request.{Request, HttpRequest}
use httptrace.Response.{Response}
use httptrace.Client.Builder.{Client}
use httptrace.Client.Async.{
  Transport, Channel, plain_h1, tls_h1, tls_h2, Event, call, spawned, cancelled, sent, Async, tell,
  ◌>>=◌, lift, await,
}
use httptrace.Client.Async.Order.{phase, Phases-told}
use httptrace.Client.Resolve.{dns_resolve}
use httptrace.Client.Resolve.Laws.{Phases-dns_resolve}
use httptrace.Client.Handshake.{tls_handshake}
use httptrace.Client.Handshake.Laws.{Phases-tls_handshake}
use httptrace.Client.Execute.{
  Outside, set_headers, connect_tcp, send_converted, send_on, send_told, tcp_send_h1_request, is_h2,
  tls_send_request, send_tls, transmit, prepared, connected, execute_inner, execute,
}
use httptrace.Client.Execute.Headers.{uri-set_headers}
use httptrace.Client.Execute.Order.{Phases-connect_tcp, events-timed}
use httptrace.Client.Execute.Answering.{IsAnswer, execute-IsAnswer}

module _ {c : Crates} where
  All-bind :
      {A B : Type 0} (P : Event c → Type 0) (p : Async c A) (f : A → Async c B)
      → All P p.0
      → ((a : A) → p.1 ≡ some (ok a) → All P (f a).0)
      → All P (p >>= f).0
  All-bind P (es, none) f h k = h
  All-bind P (es, some (err e)) f h k = h
  All-bind P (es, some (ok a)) f h k = All-append P es (f a).0 h (k a refl)

module _ (c : Crates) (x : Transport c) (o : Outside c x) (client : Client c) where
  -- A request that goes out is that of `r`, with its headers completed, and it goes in plain text
  -- exactly if the scheme of `r` is not HTTPS.
  abbrev pub IsSent : Request c → Event c → Type 0
  IsSent r (sent channel q) =
      ((channel ≡ plain_h1) ↔ (c.http.is_https r.uri ≡ false))
      × (r' : Request c) × (set_headers c client r ≡ ok r')
      × (Request.into_http r' ≡ ok q)
  IsSent r _ = Unit

  unsent : (r : Request c) (e : Event c) → phase e ≤ 5 → IsSent r e
  unsent r (sent channel q) h = absurd (omega (arith, h))
  unsent r (call k) h = tt
  unsent r (spawned a) h = tt
  unsent r cancelled h = tt

  early :
      (r : Request c) (es : List (Event c)) (n : ℕ)
      → n ≤ 5
      → All (λ e. phase e ≤ n) es
      → All (IsSent r) es
  early r es n l h = All-mono (λ e k. unsent r e (omega (arith, k))) es h

  send_converted-IsSent :
      (r r' : Request c) (channel : Channel) (q : Result (HttpRequest c) (Error c.foreign))
      → ((channel ≡ plain_h1) ↔ (c.http.is_https r.uri ≡ false))
      → set_headers c client r ≡ ok r'
      → Request.into_http r' ≡ q
      → All (IsSent r) (send_converted c x o channel q).0
  unfolding send_converted
  send_converted-IsSent r r' channel (ok q) secure e h = ((secure, r', e, h), tt)
  send_converted-IsSent r r' channel (err i) secure e h = tt

  send_told-IsSent :
      (r r' : Request c) (channel : Channel)
      → ((channel ≡ plain_h1) ↔ (c.http.is_https r.uri ≡ false))
      → set_headers c client r ≡ ok r'
      → All (IsSent r) (send_told c x o channel r').0
  unfolding send_told send_on
  send_told-IsSent r r' channel secure e =
      All-append (IsSent r) (tell c r' request_start) (send_on c x o channel r').0
        (early r _ 5 (omega arith)
          (All-mono (λ e k. k.1) _ (Phases-told c r'.recorder request_start).1))
        (All-bind (IsSent r) (await (map_some (map_err hyper) (o.handshake channel)))
          (λ _. send_converted c x o channel (Request.into_http r')) tt
          (λ _ _. send_converted-IsSent r r' channel (Request.into_http r') secure e refl))

  tls_ne_plain : (s : x.TlsStream) → ¬ ((if is_h2 c x s then tls_h2 else tls_h1) ≡ plain_h1)
  tls_ne_plain s = ground arith

  transmit-IsSent :
      (r r' : Request c)
      → set_headers c client r ≡ ok r'
      → r'.uri ≡ r.uri
      → All (IsSent r) (transmit c x client o r').0
  unfolding transmit send_tls tls_send_request tcp_send_h1_request
  transmit-IsSent r r' e same = elim (Bool-cases (c.http.is_https r'.uri)) [
    | inl https ↦ rw https (
        All-bind (IsSent r) (tls_handshake c x client r' o.native_certs o.connect)
          (λ s. tls_send_request c x o s r')
          (early r _ 4 (omega arith) (
            All-mono (λ e k. k.1) _
              (Phases-tls_handshake c x client r' o.native_certs o.connect).1))
          (λ s _.
            send_told-IsSent r r' _
              (
                λ p. absurd (tls_ne_plain s p),
                λ p. absurd (ground (arith, ap c.http.is_https same)),
              )
              e))
    | inr plain ↦
        rw plain
          (send_told-IsSent r r' plain_h1 (λ _. sym (ap c.http.is_https same) ∙ plain, λ _. refl) e)
  ]

  execute_inner-IsSent : (r : Request c) → All (IsSent r) (execute_inner c x client r o).0
  unfolding execute_inner connected prepared
  execute_inner-IsSent r =
      All-bind (IsSent r) (dns_resolve c client r o.lookup) (connected c x client r o)
        (early r _ 1 (omega arith)
          (All-mono (λ e k. k.1) _ (Phases-dns_resolve c client r o.lookup).1))
        (λ found _.
          All-bind (IsSent r) (connect_tcp c x client r found.0 o) (λ _. prepared c x client r o)
            (early r _ 2 (omega arith)
              (All-mono (λ e k. k.1) _ (Phases-connect_tcp c x client o r found.0).1))
            (λ _ _.
              All-bind (IsSent r) (lift (set_headers c client r)) (transmit c x client o) tt
                (λ r' e.
                  transmit-IsSent r r' (ground arith)
                    (uri-set_headers c client r r' (ground arith)))))

  execute-All : (r : Request c) → All (IsSent r) (execute c x client r o).0
  unfolding execute
  execute-All r =
      rw (events-timed c x client o o.elapsed (execute_inner c x client r o))
        (execute_inner-IsSent r)

-- Every request that an execution sends is the one it was given with its headers completed, in
-- plain text exactly if the scheme is not HTTPS; and a response that it returns is the answer to a
-- request that it sent.
pub execute-IsSent :
    (c : Crates) (x : Transport c) (client : Client c) (r : Request c) (o : Outside c x)
    → All (IsSent c x o client r) (execute c x client r o).0
      × ((a : Response c)
          → (execute c x client r o).1 ≡ ok a
          → IsAnswer c x o (execute c x client r o).0 a)
execute-IsSent c x client r o =
    (execute-All c x o client r, λ a e. execute-IsAnswer c x o client r a e)
