-- ===== src/Client/Execute/Begins.antt =====
-- src/client.rs, `execute`: an execution whose outside gives less begins as one that gets more.
use mathlib.Core.List.{append_assoc}
use httptrace.Prelude.{
  ◌⊎◌, inl, inr, refl, ap, ◌∙◌, sym, ◌≡◌, Bool-cases, Option, none, some, List, [], ◌∷◌, ◌++◌,
  Result, ok, err, map_err, map_some, is_some, arith,
}
use httptrace.Net.{SocketAddr}
use httptrace.Recorder.{request_start}
use httptrace.Error.{Error, hyper, timeout}
use httptrace.Crates.{Crates}
use httptrace.Request
use httptrace.Request.{Request, HttpRequest}
use httptrace.Response.{Response}
use httptrace.Client.Builder.{Client}
use httptrace.Client.Connect.{Pick, Effect, Turn, start, tcp_connect}
use httptrace.Client.Connect.Begins.{GoesOn, GoesOn-run}
use httptrace.Client.Async.{Transport, Channel, plain_h1, Event, Async, tell, lift, await}
use httptrace.Client.Async.Begins.{Awaited, Begins, Begins-await, Begins-bind}
use httptrace.Client.Resolve.{dns_resolve}
use httptrace.Client.Resolve.Begins.{Begins-dns_resolve}
use httptrace.Client.Handshake.{TlsConfig, tls_handshake}
use httptrace.Client.Handshake.Begins.{Begins-tls_handshake}
use httptrace.Client.Execute.{
  Outside, settled, responded, effect_event, effect_events, set_headers, connect_tcp,
  send_converted, send_on, send_told, tcp_send_h1_request, tls_send_request, send_tls, transmit,
  prepared, connected, execute_inner, timed, execute,
}

-- The first gives no other answer than the second, and stops giving earlier.
pub record GivesLess (c : Crates) (x : Transport c) (o o' : Outside c x) : Type 0 where
  pub lookup_less : Awaited o.lookup o'.lookup
  pub same_now : o.now ≡ o'.now
  pub picks_less : (more : List (Pick c.foreign x.TcpStream)) × (o.picks ++ more ≡ o'.picks)
  pub same_certs : o.native_certs ≡ o'.native_certs
  pub same_elapsed : o.elapsed ≡ o'.elapsed
  pub connect_less :
      (config : TlsConfig c x) (name : x.ServerName)
      → Awaited (o.connect config name) (o'.connect config name)
  pub handshake_less : (channel : Channel) → Awaited (o.handshake channel) (o'.handshake channel)
  pub respond_less :
      (channel : Channel) (q : HttpRequest c) → Awaited (o.respond channel q) (o'.respond channel q)

Awaited-map :
    {A B : Type 0} (f : A → B) (o o' : Option A)
    → Awaited o o'
    → Awaited (map_some f o) (map_some f o')
Awaited-map f o o' (inl e) = inl (ap (map_some f) e)
Awaited-map f o o' (inr e) = inr (ap (map_some f) e)

module _ (c : Crates) where
  effect_events-append :
      (r : Request c) (xs ys : List Effect)
      → effect_events c r (xs ++ ys) ≡ effect_events c r xs ++ effect_events c r ys
  effect_events-append r [] ys = refl
  effect_events-append r (e ∷ xs) ys =
      ap (λ l. effect_event c r e ++ l) (effect_events-append r xs ys)
      ∙ sym (append_assoc (effect_event c r e) _ _)

  Begins-settled :
      {T : Type 0} (r : Request c) (p q : Turn c.foreign T × List Effect)
      → GoesOn {f = c.foreign} {T = T} (is_some r.recorder) p q
      → Begins {c = c} (effect_events c r p.1, settled c p.0) (effect_events c r q.1, settled c q.0)
  Begins-settled r p q (inl e) = inl (ap (λ k. (effect_events c r k.1, settled c k.0)) e)
  Begins-settled r p q (inr (s, more, waits, e)) = inr (
    ap (settled c) waits,
    effect_events c r more,
    sym (effect_events-append r p.1 more) ∙ ap (effect_events c r) e,
  )

module _ (c : Crates) (x : Transport c) (elapsed : c.foreign.Elapsed) where
  -- It does and gives all the same, or it ends by its timeout after a beginning of the same.
  abbrev pub IsBegun :
      List (Event c) × Result (Response c) (Error c.foreign)
      → List (Event c) × Result (Response c) (Error c.foreign)
      → Type 0
  IsBegun p q =
      (p ≡ q) ⊎ ((p.1 ≡ err (timeout elapsed)) × (more : List (Event c)) × (p.0 ++ more ≡ q.0))

module _ (c : Crates) (x : Transport c) (client : Client c) (o o' : Outside c x)
    (less : GivesLess c x o o') where
  Begins-connect_tcp :
      (r : Request c) (addrs : List SocketAddr)
      → Begins (connect_tcp c x client r addrs o) (connect_tcp c x client r addrs o')
  unfolding connect_tcp tcp_connect
  Begins-connect_tcp r addrs =
      let (more, e) = less.picks_less in
      rw (less.same_now, sym e)
        (Begins-settled c r _ _
          (GoesOn-run (is_some r.recorder) (start o'.now client.tcp_timeout addrs) o.picks more))

  Begins-converted :
      (channel : Channel) (q : Result (HttpRequest c) (Error c.foreign))
      → Begins (send_converted c x o channel q) (send_converted c x o' channel q)
  unfolding send_converted
  Begins-converted channel (err e) = inl refl
  Begins-converted channel (ok q) = elim (less.respond_less channel q) [
    | inl e ↦ inr (ap (map_some (responded c x)) e, [], refl)
    | inr e ↦ inl (ap (λ k. (Event.sent channel q ∷ [], map_some (responded c x) k)) e)
  ]

  Begins-send_told :
      (channel : Channel) (r : Request c)
      → Begins (send_told c x o channel r) (send_told c x o' channel r)
  unfolding send_told send_on
  Begins-send_told channel r =
      Begins-bind (tell c r request_start, some (ok tt)) (tell c r request_start, some (ok tt))
        (λ _. send_on c x o channel r) (λ _. send_on c x o' channel r) (inl refl)
        (λ _.
          Begins-bind (await (map_some (map_err hyper) (o.handshake channel)))
            (await (map_some (map_err hyper) (o'.handshake channel)))
            (λ _. send_converted c x o channel (Request.into_http r))
            (λ _. send_converted c x o' channel (Request.into_http r))
            (Begins-await _ _ (Awaited-map (map_err hyper) _ _ (less.handshake_less channel)))
            (λ _. Begins-converted channel (Request.into_http r)))

  Begins-shake :
      (r : Request c)
      → Begins
          (tls_handshake c x client r o.native_certs o.connect)
          (tls_handshake c x client r o'.native_certs o'.connect)
  Begins-shake r =
      rw (less.same_certs)
        (Begins-tls_handshake c x client r o'.native_certs o.connect o'.connect less.connect_less)

  Begins-transmit : (r : Request c) → Begins (transmit c x client o r) (transmit c x client o' r)
  unfolding transmit send_tls tls_send_request tcp_send_h1_request
  Begins-transmit r = elim (Bool-cases (c.http.is_https r.uri)) [
    | inl e ↦ rw e (
        Begins-bind (tls_handshake c x client r o.native_certs o.connect)
          (tls_handshake c x client r o'.native_certs o'.connect) (λ s. tls_send_request c x o s r)
          (λ s. tls_send_request c x o' s r) (Begins-shake r) (λ s. Begins-send_told _ r))
    | inr e ↦ rw e (Begins-send_told plain_h1 r)
  ]

  Begins-execute_inner :
      (r : Request c) → Begins (execute_inner c x client r o) (execute_inner c x client r o')
  unfolding execute_inner connected prepared
  Begins-execute_inner r =
      Begins-bind (dns_resolve c client r o.lookup) (dns_resolve c client r o'.lookup)
        (connected c x client r o) (connected c x client r o')
        (Begins-dns_resolve c client r o.lookup o'.lookup less.lookup_less)
        (λ found.
          Begins-bind (connect_tcp c x client r found.0 o) (connect_tcp c x client r found.0 o')
            (λ _. prepared c x client r o) (λ _. prepared c x client r o')
            (Begins-connect_tcp r found.0)
            (λ _.
              Begins-bind (lift (set_headers c client r)) (lift (set_headers c client r))
                (transmit c x client o) (transmit c x client o') (inl refl) Begins-transmit))

  IsBegun-timed :
      (p q : Async c (Response c))
      → Begins p q
      → IsBegun c x o.elapsed (timed c x o.elapsed p) (timed c x o'.elapsed q)
  unfolding timed
  IsBegun-timed p q (inl e) = inl (λ i. timed c x (less.same_elapsed i) (e i))
  IsBegun-timed (es, none) (fs, none) (inr (waits, more, e)) = inr (refl, more, e)
  IsBegun-timed (es, none) (fs, some k) (inr (waits, more, e)) = inr (refl, more, e)
  IsBegun-timed (es, some k) q (inr (waits, more, e)) = absurd (ground arith)

  pub execute-IsBegun :
      (r : Request c) → IsBegun c x o.elapsed (execute c x client r o) (execute c x client r o')
  unfolding execute
  execute-IsBegun r = IsBegun-timed _ _ (Begins-execute_inner r)
