-- ===== src/Client/Execute/Failing.antt =====
-- src/client.rs, `execute`: the errors of the steps after the connection, and of the whole.
use httptrace.Prelude.{
  inl, inr, ◌≡◌, refl, ap, subst, Bool, Bool-cases, Option, none, some, List, Result, ok, err,
  map_err, map_some, arith, Text, Option-cases, Result-cases,
}
use httptrace.Net.{SocketAddr}
use httptrace.Recorder.{request_start}
use httptrace.Error.{
  Foreign, Error, io, timeout, rustls, invalid_dns_name, hyper, http, http_invalid_header,
}
use httptrace.Crates.{Crates}
use httptrace.Request
use httptrace.Request.{Request, HttpRequest}
use httptrace.Response.{HttpResponse, Response}
use httptrace.Client.Builder.{Client}
use httptrace.Client.Async.{Transport, Channel, plain_h1, Async, tell, lift, await}
use httptrace.Client.Resolve.{dns_resolve}
use httptrace.Client.Handshake.{tls_handshake}
use httptrace.Client.Handshake.Failing.{Fails, tls_handshake-Fails}
use httptrace.Client.Execute.{
  Outside, set_headers, auto_headers, with_host, with_user_agent, connect_tcp, send_converted,
  responded, send_on, send_told, tcp_send_h1_request, tls_send_request, send_tls, transmit,
  prepared, connected, execute_inner, timed, execute,
}
use httptrace.Client.Execute.Reached.{IsHonestFor}
use httptrace.Client.Execute.Cause.{
  Cause, IsBlamed, IsBlamed-bind, dns_resolve-CauseOf, connect_tcp-IsBlamed,
}

hyper-error :
    {f : Foreign} {A : Type 0} (a : Option (Result A f.HyperError)) (e : Error f)
    → map_some (map_err hyper) a ≡ some (err e)
    → (i : f.HyperError) × (a ≡ some (err i)) × (hyper i ≡ e)
hyper-error none e h = absurd (ground arith)
hyper-error (some (ok b)) e h = absurd (ground arith)
hyper-error (some (err i)) e h = (i, refl, ground arith)

responded-error :
    (c : Crates) (x : Transport c)
    (a : Option (Result (HttpResponse c x.Incoming) c.foreign.HyperError)) (e : Error c.foreign)
    → map_some (responded c x) a ≡ some (err e)
    → (i : c.foreign.HyperError) × (a ≡ some (err i)) × (hyper i ≡ e)
responded-error c x none e h = absurd (ground arith)
responded-error c x (some (ok b)) e h = absurd (ground arith)
responded-error c x (some (err i)) e h = (i, refl, ground arith)

module _ (c : Crates) (x : Transport c) (client : Client c) (r : Request c) (o : Outside c x) where
  set_headers-Cause :
      (host : Text) (e : Error c.foreign)
      → c.http.host r.uri ≡ some host
      → set_headers c client r ≡ err e
      → Cause c x client r o e
  unfolding set_headers auto_headers with_host
  set_headers-Cause host e there h = elim (Result-cases (c.http.parse_value host)) [
    | inl (v, parsed) ↦ absurd (ground arith)
    | inr (i, refused) ↦
        let same : http_invalid_header i ≡ e = ground arith in
        subst (Cause c x client r o) same (host, there, refused)
  ]

  -- A request with the same target as `r`.
  IsAlike : Request c → Type 0
  IsAlike r' = (r'.method ≡ r.method) × (r'.uri ≡ r.uri) × (r'.version ≡ r.version)

  set_headers-IsAlike : (r' : Request c) → set_headers c client r ≡ ok r' → IsAlike r'
  unfolding set_headers auto_headers with_host with_user_agent IsAlike
  set_headers-IsAlike r' e = (ground arith, ground arith, ground arith)

  into_http-Cause :
      (r' : Request c) (e : Error c.foreign)
      → IsAlike r'
      → Request.into_http r' ≡ err e
      → Cause c x client r o e
  unfolding Request.into_http IsAlike
  into_http-Cause r' e (same_method, same_uri, same_version) h =
      elim (Option-cases (c.http.builder_error r'.method r'.uri r'.version)) [
        | inl n ↦ absurd (ground arith)
        | inr (i, n) ↦
            let same : http i ≡ e = ground arith in
            subst (Cause c x client r o) same (rw (same_method, same_uri, same_version) at n)
      ]

  send_converted-IsBlamed :
      (channel : Channel) (q : Result (HttpRequest c) (Error c.foreign))
      → ((e : Error c.foreign) → q ≡ err e → Cause c x client r o e)
      → IsBlamed c x client r o (send_converted c x o channel q)
  unfolding send_converted
  send_converted-IsBlamed channel (err i) k e h = k e (ground arith)
  send_converted-IsBlamed channel (ok q) k e h =
      let (i, answer, same) = responded-error c x (o.respond channel q) e h in
      subst (Cause c x client r o) same (channel, inr (q, answer))

  send_told-IsBlamed :
      (channel : Channel) (r' : Request c)
      → IsAlike r'
      → IsBlamed c x client r o (send_told c x o channel r')
  unfolding send_told send_on
  send_told-IsBlamed channel r' alike =
      IsBlamed-bind c x client r o (tell c r' request_start, some (ok tt))
        (λ _. send_on c x o channel r') (λ e h. absurd (ground arith))
        (λ _ _.
          IsBlamed-bind c x client r o (await (map_some (map_err hyper) (o.handshake channel)))
            (λ _. send_converted c x o channel (Request.into_http r'))
            (λ e h.
              let (i, answer, same) = hyper-error (o.handshake channel) e h in
              subst (Cause c x client r o) same (channel, inl answer))
            (λ _ _.
              send_converted-IsBlamed channel (Request.into_http r')
                (λ e h. into_http-Cause r' e alike h)))

  Fails-Cause :
      (r' : Request c) (alike : IsAlike r') (e : Error c.foreign)
      → Fails c x r' o.native_certs o.connect e
      → Cause c x client r o e
  unfolding IsAlike
  Fails-Cause r' alike (rustls i) h = h
  Fails-Cause r' alike (io i) h = h
  Fails-Cause r' alike (timeout i) h = inr (inl h)
  Fails-Cause r' alike (invalid_dns_name i) h = rw (alike.1) at h
  Fails-Cause r' alike _ h = absurd h

  tls_handshake-IsBlamed :
      (r' : Request c)
      → IsAlike r'
      → IsBlamed c x client r o (tls_handshake c x client r' o.native_certs o.connect)
  tls_handshake-IsBlamed r' alike e h =
      Fails-Cause r' alike e (tls_handshake-Fails c x r' o.native_certs o.connect client e h)

  timed-Cause :
      (p : Async c (Response c)) (e : Error c.foreign)
      → IsBlamed c x client r o p
      → (timed c x o.elapsed p).1 ≡ err e
      → Cause c x client r o e
  unfolding timed
  timed-Cause (es, none) e h k =
      let same : timeout o.elapsed ≡ e = ground arith in
      subst (Cause c x client r o) same (inr (inr refl))
  timed-Cause (es, some k) e h n = h e (ap some n)

  transmit-IsBlamed :
      (r' : Request c) → IsAlike r' → IsBlamed c x client r o (transmit c x client o r')
  unfolding transmit send_tls tls_send_request tcp_send_h1_request
  transmit-IsBlamed r' alike = elim (Bool-cases (c.http.is_https r'.uri)) [
    | inl e ↦ rw e (
        IsBlamed-bind c x client r o (tls_handshake c x client r' o.native_certs o.connect)
          (λ s. tls_send_request c x o s r') (tls_handshake-IsBlamed r' alike)
          (λ s _. send_told-IsBlamed _ r' alike))
    | inr e ↦ rw e (send_told-IsBlamed plain_h1 r' alike)
  ]

  execute_inner-IsBlamed :
      ((addrs : List SocketAddr) (hit : Bool)
        → (dns_resolve c client r o.lookup).1 ≡ some (ok (addrs, hit))
        → IsHonestFor c x client r o addrs)
      → IsBlamed c x client r o (execute_inner c x client r o)
  unfolding execute_inner connected prepared
  execute_inner-IsBlamed honest =
      IsBlamed-bind c x client r o (dns_resolve c client r o.lookup) (connected c x client r o)
        (λ e h. dns_resolve-CauseOf c x client r o (err e) h)
        (λ found d.
          IsBlamed-bind c x client r o (connect_tcp c x client r found.0 o)
            (λ _. prepared c x client r o)
            (connect_tcp-IsBlamed c x client r o found.0 found.1 d (honest found.0 found.1 d))
            (λ _ _.
              let (host, there) = dns_resolve-CauseOf c x client r o (ok found) d in
              IsBlamed-bind c x client r o (lift (set_headers c client r)) (transmit c x client o)
                (λ e h. set_headers-Cause host e there (ground arith))
                (λ r' e. transmit-IsBlamed r' (set_headers-IsAlike r' (ground arith)))))

  -- Each error of an execution has its own cause in what the outside gave, or in the request itself;
  -- and no execution gives one of the errors that have none.
  pub execute-Cause :
      (e : Error c.foreign)
      → ((addrs : List SocketAddr) (hit : Bool)
          → (dns_resolve c client r o.lookup).1 ≡ some (ok (addrs, hit))
          → IsHonestFor c x client r o addrs)
      → (execute c x client r o).1 ≡ err e
      → Cause c x client r o e
  unfolding execute
  execute-Cause e honest h =
      timed-Cause (execute_inner c x client r o) e (execute_inner-IsBlamed honest) h
