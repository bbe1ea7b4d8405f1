-- ===== src/Client/Execute/Answering.antt =====
-- src/client.rs, `execute`: which answer a response is made of.
use mathlib.Core.List.{Memᴰ}
use httptrace.Prelude.{
  ◌≡◌, refl, ap, none, some, List, [], ◌∷◌, ◌++◌, Result, ok, err, arith, Bool-cases, inl, inr,
  map_some, map_err, Option,
}
use httptrace.Recorder.{request_start}
use httptrace.Error.{Error, hyper}
use httptrace.Crates.{Crates}
use httptrace.Request
use httptrace.Request.{Request, HttpRequest}
use httptrace.Response.{HttpResponse, Response}
use httptrace.Client.Builder.{Client}
use httptrace.Client.Async.{
  Transport, Channel, plain_h1, Event, sent, Async, tell, ◌>>=◌, lift, await,
}
use httptrace.Client.Resolve.{dns_resolve}
use httptrace.Client.Handshake.{tls_handshake}
use httptrace.Client.Execute.{
  Outside, answered, responded, set_headers, connect_tcp, send_converted, send_on, send_told,
  tcp_send_h1_request, tls_send_request, send_tls, transmit, prepared, connected, execute_inner,
  timed, execute,
}
use httptrace.Client.Execute.Order.{events-timed}

module _ {c : Crates} where
  later : (e : Event c) (xs ys : List (Event c)) → Memᴰ e ys → Memᴰ e (xs ++ ys)
  later e [] ys m = m
  later e (x ∷ xs) ys m = Memᴰ.tail (later e xs ys m)

module _ (c : Crates) (x : Transport c) (o : Outside c x) where
  -- A response, if there is one, answers a request that was sent.
  abbrev pub IsAnswer : List (Event c) → Response c → Type 0
  IsAnswer es a =
      (channel : Channel) × (q : HttpRequest c) × (resp : HttpResponse c x.Incoming) × Memᴰ
        (sent channel q) es
      × (o.respond channel q ≡ some (ok resp))
      × (a ≡ answered c x resp)

  abbrev IsAnswered : Async c (Response c) → Type 0
  IsAnswered p = (a : Response c) → p.1 ≡ some (ok a) → IsAnswer p.0 a

  IsAnswered-bind :
      {A : Type 0} (p : Async c A) (f : A → Async c (Response c))
      → ((a : A) → IsAnswered (f a))
      → IsAnswered (p >>= f)
  IsAnswered-bind (es, none) f h a e = absurd (ground arith)
  IsAnswered-bind (es, some (err i)) f h a e = absurd (ground arith)
  IsAnswered-bind (es, some (ok b)) f h a e =
      let (channel, q, resp, m, answer, same) = h b a e in
      (channel, q, resp, later _ es (f b).0 m, answer, same)

  response-of :
      (ret : Option (Result (HttpResponse c x.Incoming) c.foreign.HyperError)) (a : Response c)
      → map_some (responded c x) ret ≡ some (ok a)
      → (resp : HttpResponse c x.Incoming) × (ret ≡ some (ok resp)) × (a ≡ answered c x resp)
  response-of none a h = absurd (ground arith)
  response-of (some (err i)) a h = absurd (ground arith)
  response-of (some (ok resp)) a h = (resp, refl, ground arith)

  send_converted-IsAnswered :
      (channel : Channel) (q : Result (HttpRequest c) (Error c.foreign))
      → IsAnswered (send_converted c x o channel q)
  unfolding send_converted
  send_converted-IsAnswered channel (err i) a e = absurd (ground arith)
  send_converted-IsAnswered channel (ok q) a e =
      let (resp, answer, same) = response-of (o.respond channel q) a e in
      (channel, q, resp, Memᴰ.head refl, answer, same)

  send_told-IsAnswered :
      (channel : Channel) (r : Request c) → IsAnswered (send_told c x o channel r)
  unfolding send_told send_on
  send_told-IsAnswered channel r =
      IsAnswered-bind (tell c r request_start, some (ok tt)) (λ _. send_on c x o channel r)
        (λ _.
          IsAnswered-bind (await (map_some (map_err hyper) (o.handshake channel)))
            (λ _. send_converted c x o channel (Request.into_http r))
            (λ _. send_converted-IsAnswered channel (Request.into_http r)))

module _ (c : Crates) (x : Transport c) (o : Outside c x) (client : Client c) where
  transmit-IsAnswered : (r : Request c) → IsAnswered c x o (transmit c x client o r)
  unfolding transmit send_tls tls_send_request tcp_send_h1_request
  transmit-IsAnswered r = elim (Bool-cases (c.http.is_https r.uri)) [
    | inl e ↦ rw e (
        IsAnswered-bind c x o (tls_handshake c x client r o.native_certs o.connect)
          (λ s. tls_send_request c x o s r) (λ s. send_told-IsAnswered c x o _ r))
    | inr e ↦ rw e (send_told-IsAnswered c x o plain_h1 r)
  ]

  execute_inner-IsAnswered : (r : Request c) → IsAnswered c x o (execute_inner c x client r o)
  unfolding execute_inner connected prepared
  execute_inner-IsAnswered r =
      IsAnswered-bind c x o (dns_resolve c client r o.lookup) (connected c x client r o) (λ found.
        IsAnswered-bind c x o (connect_tcp c x client r found.0 o) (λ _. prepared c x client r o)
          (λ _.
            IsAnswered-bind c x o (lift (set_headers c client r)) (transmit c x client o)
              transmit-IsAnswered))

  pub result-timed :
      (e : c.foreign.Elapsed) (p : Async c (Response c)) (a : Response c)
      → (timed c x e p).1 ≡ ok a
      → p.1 ≡ some (ok a)
  unfolding timed
  result-timed e (es, none) a h = absurd (ground arith)
  result-timed e (es, some r) a h = ap some h

  pub execute-IsAnswer :
      (r : Request c) (a : Response c)
      → (execute c x client r o).1 ≡ ok a
      → IsAnswer c x o (execute c x client r o).0 a
  unfolding execute
  execute-IsAnswer r a e =
      rw (events-timed c x client o o.elapsed (execute_inner c x client r o))
        (execute_inner-IsAnswered r a (result-timed o.elapsed _ a e))
