-- ===== src/Client/Execute/Ended.antt =====
-- src/client.rs, `execute`: where an execution can end that has found the addresses, and what was heard of it then.
use httptrace.Prelude.{
  ◌∙◌, ◌≡◌, refl, ap, sym, subst, List, [], Bool, true, false, Option, none, some, Result, ok, err,
  Text, Bool-cases, inl, inr,
}
use httptrace.Error.{Error, timeout, display}
use httptrace.Crates.{Crates}
use httptrace.Request.{Request}
use httptrace.Response.{Response}
use httptrace.Client.Builder.{Client}
use httptrace.Client.Async.{Transport, Async, lift, ◌>>=◌, plain_h1}
use httptrace.Client.Async.Hearing.{hears, hears-append}
use httptrace.Client.Handshake.{tls_handshake}
use httptrace.Client.Handshake.Hearing.{heard_tls, hears-tls_handshake}
use httptrace.Client.Execute.{
  Outside, tls_send_request, tcp_send_h1_request, transmit, set_headers, send_tls,
}
use httptrace.Client.Execute.Headers.{uri-set_headers}
use httptrace.Client.Execute.Hearing.{IsReached, recorder-set_headers, hears-send_told}
use httptrace.Net.{SocketAddr}
use httptrace.Stats.Telling.{Heard}

abbrev pub heard_of : Text → List SocketAddr → Option (Option (Result Text Text)) → Bool → Heard
heard_of addrs tcp tls request = record {
  dns = some (ok addrs);
  tcp = tcp;
  tls = tls;
  request = request;
}

-- The handshake has succeeded, where there is one.
abbrev pub IsSecured : Bool → Option (Option (Result Text Text)) → Type 0
IsSecured true tls = (version : Text) × (tls ≡ some (some (ok version)))
IsSecured false tls = tls ≡ none

-- Where an execution can end that has found the addresses and started the attempts `tcp`, each with
-- what was heard of it and what the execution gives.
pub data Ended (c : Crates) (x : Transport c) (client : Client c) (o : Outside c x) (https : Bool)
    (addrs : Text) (tcp : List SocketAddr) (h : Heard) (res : Result (Response c) (Error c.foreign))
    : Type 0 where
  -- before the TLS handshake and the request
  in_connect :
      (e : Error c.foreign)
      → h ≡ heard_of addrs tcp none false
      → res ≡ err e
      → Ended c x client o https addrs tcp h res
  -- in the TLS handshake, which the execution's own timeout ends
  in_handshake :
      https ≡ true
      → IsReached c x client o tcp
      → h ≡ heard_of addrs tcp (some none) false
      → res ≡ err (timeout o.elapsed)
      → Ended c x client o https addrs tcp h res
  -- with the TLS handshake, which fails
  refused :
      (e : Error c.foreign)
      → https ≡ true
      → IsReached c x client o tcp
      → h ≡ heard_of addrs tcp (some (some (err (display e)))) false
      → res ≡ err e
      → Ended c x client o https addrs tcp h res
  -- with the request
  in_request :
      (tls : Option (Option (Result Text Text)))
      → IsSecured https tls
      → IsReached c x client o tcp
      → h ≡ heard_of addrs tcp tls true
      → Ended c x client o https addrs tcp h res

module _ (c : Crates) where
  abbrev pub outcome :
      Error c.foreign
      → Option (Result (Response c) (Error c.foreign))
      → Result (Response c) (Error c.foreign)
  outcome late none = err late
  outcome late (some r) = r

module _ (c : Crates) (x : Transport c) (client : Client c) (o : Outside c x) where
  abbrev late : Error c.foreign
  late = timeout o.elapsed

  Ended-tls :
      (p : Async c x.TlsStream) (f : x.TlsStream → Async c (Response c)) (addrs : Text)
      (tcp : List SocketAddr)
      → IsReached c x client o tcp
      → hears p.0 (heard_of addrs tcp none false)
        ≡ heard_of addrs tcp (some (heard_tls c x p.1)) false
      → ((s : x.TlsStream) (h : Heard) → hears (f s).0 h ≡ record h { request = true })
      → Ended c x client o true addrs tcp
          (hears (p >>= f).0 (heard_of addrs tcp none false))
          (outcome c late (p >>= f).1)
  Ended-tls (es, none) f addrs tcp w e k = in_handshake refl w e refl
  Ended-tls (es, some (err i)) f addrs tcp w e k = refused i refl w e refl
  Ended-tls (es, some (ok s)) f addrs tcp w e k =
      in_request _ (_, refl) w (hears-append es (f s).0 _ ∙ ap (hears (f s).0) e ∙ k s _)

  transmit-Ended :
      (r : Request c) (recorder : c.Recorder) (addrs : Text) (tcp : List SocketAddr)
      → r.recorder ≡ some recorder
      → IsReached c x client o tcp
      → Ended c x client o
          (c.http.is_https r.uri)
          addrs
          tcp
          (hears (transmit c x client o r).0 (heard_of addrs tcp none false))
          (outcome c late (transmit c x client o r).1)
  unfolding transmit send_tls tls_send_request tcp_send_h1_request
  transmit-Ended r recorder addrs tcp heard w = elim (Bool-cases (c.http.is_https r.uri)) [
    | inl https ↦ rw https (
        Ended-tls (tls_handshake c x client r o.native_certs o.connect)
          (λ s. tls_send_request c x o s r) addrs tcp w
          (hears-tls_handshake c x r recorder heard _ client o.native_certs o.connect)
          (λ s h. hears-send_told c x client o _ r recorder h heard))
    | inr plain ↦
        rw plain (in_request none refl w (hears-send_told c x client o plain_h1 r recorder _ heard))
  ]

  pub Ended-headers :
      (r : Request c) (recorder : c.Recorder) (addrs : Text) (tcp : List SocketAddr)
      (ret : Result (Request c) (Error c.foreign))
      → r.recorder ≡ some recorder
      → IsReached c x client o tcp
      → set_headers c client r ≡ ret
      → Ended c x client o
          (c.http.is_https r.uri)
          addrs
          tcp
          (hears (lift ret >>= transmit c x client o).0 (heard_of addrs tcp none false))
          (outcome c late (lift ret >>= transmit c x client o).1)
  Ended-headers r recorder addrs tcp (err i) heard w e = in_connect i refl refl
  Ended-headers r recorder addrs tcp (ok r') heard w e =
      subst
        (λ b.
          Ended c x client o b addrs tcp
            (hears (transmit c x client o r').0 (heard_of addrs tcp none false))
            (outcome c late (transmit c x client o r').1))
        (ap c.http.is_https (uri-set_headers c client r r' e))
        (transmit-Ended r' recorder addrs tcp (recorder-set_headers c client r r' e ∙ heard) w)

  pub Ended-connect :
      (p : Async c x.TcpStream) (f : x.TcpStream → Async c (Response c)) (https : Bool)
      (addrs : Text) (tcp : List SocketAddr)
      → hears p.0 (heard_of addrs [] none false) ≡ heard_of addrs tcp none false
      → ((t : x.TcpStream) → p.1 ≡ some (ok t) → IsReached c x client o tcp)
      → ((t : x.TcpStream)
          → IsReached c x client o tcp
          → Ended c x client o https addrs tcp
              (hears (f t).0 (heard_of addrs tcp none false))
              (outcome c late (f t).1))
      → Ended c x client o https addrs tcp
          (hears (p >>= f).0 (heard_of addrs [] none false))
          (outcome c late (p >>= f).1)
  Ended-connect (es, none) f https addrs tcp e b k = in_connect late e refl
  Ended-connect (es, some (err i)) f https addrs tcp e b k = in_connect i e refl
  Ended-connect (es, some (ok t)) f https addrs tcp e b k =
      subst (λ h. Ended c x client o https addrs tcp h (outcome c late (f t).1))
        (sym (hears-append es (f t).0 _ ∙ ap (hears (f t).0) e)) (k t (b t refl))
