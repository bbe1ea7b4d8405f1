-- ===== src/Client/Execute/Cause.antt =====
-- src/client.rs, `execute`: what each error comes from, and those of the steps up to the connection.
use mathlib.Core.List.{Memᴰ, Perm}
use httptrace.Prelude.{
  ◌⊎◌, inl, ℕ, ◌+◌, ◌≤◌, ◌≡◌, refl, ap, subst, Bool, none, some, List, [], ok, err, is_some,
  unwrap_or, arith, Text,
}
use httptrace.Net.{SocketAddr}
use httptrace.Error.{
  Error, unknown, uri, resolve, io, timeout, rustls, invalid_dns_name, hyper, http,
  http_invalid_header, host_required, empty_resolve_result, all_tcp_connect_failed,
  tcp_deadline_exceeded, body, body_timeout,
}
use httptrace.Crates.{Crates}
use httptrace.Request.{Request, HttpRequest}
use httptrace.Client.Builder.{Client}
use httptrace.Client.Connect.{deadline_elapsed, Turn, go, stop}
use httptrace.Client.Connect.Outcome.{Verdict, failures, tcp_connect-Verdict}
use httptrace.Client.Async.{Transport, Channel, Async, ◌>>=◌}
use httptrace.Client.Resolve.{elapsed, failed, found, Resolved, dns_resolve}
use httptrace.Client.Resolve.Laws.{
  Resolves, no_host, from_override, from_resolver, nothing_found, lookup_failed, lookup_elapsed,
  dns_resolve_iff,
}
use httptrace.Client.Handshake.{TlsConfig}
use httptrace.Client.Handshake
use httptrace.Client.Handshake.{tls_handshake}
use httptrace.Client.Execute.{Outside, settled, connect_tcp}
use httptrace.Client.Execute.Reached.{IsHonestFor}

stop-failed :
    (c : Crates) {T : Type 0} (u : Turn c.foreign T) (e : Error c.foreign)
    → settled c u ≡ some (err e)
    → u ≡ stop (err e)
stop-failed c (go s) e h = absurd (ground arith)
stop-failed c (stop r) e h = ground arith

module _ (c : Crates) (x : Transport c) (client : Client c) (r : Request c) (o : Outside c x) where
  -- What an error of an execution comes from; the errors that it never gives have no cause.
  abbrev pub Cause : Error c.foreign → Type 0
  Cause host_required = c.http.host r.uri ≡ none
  Cause empty_resolve_result = o.lookup ≡ some (found [])
  Cause (resolve e) = o.lookup ≡ some (failed e)
  Cause (timeout e) =
      (o.lookup ≡ some (elapsed e))
      ⊎ (((config : TlsConfig c x) × (name : x.ServerName) × (o.connect config name
              ≡ some (Handshake.elapsed e)))
          ⊎ (o.elapsed ≡ e))
  Cause all_tcp_connect_failed =
      (addrs : List SocketAddr) × (hit : Bool) × ((dns_resolve c client r o.lookup).1
        ≡ some (ok (addrs, hit)))
      × Perm addrs (failures o.picks)
  Cause tcp_deadline_exceeded =
      (t : ℕ) × Memᴰ (deadline_elapsed t) o.picks × (o.now + client.tcp_timeout ≤ t)
  Cause (io e) =
      (config : TlsConfig c x) × (name : x.ServerName) × (o.connect config name
        ≡ some (Handshake.failed e))
  Cause (rustls e) =
      (cert : x.Cert) × (store : x.RootCertStore) × Memᴰ cert o.native_certs
      × (x.add cert store ≡ err e)
  Cause (invalid_dns_name e) = x.server_name (unwrap_or [] (c.http.host r.uri)) ≡ err e
  Cause (hyper e) =
      (channel : Channel) × ((o.handshake channel ≡ some (err e))
        ⊎ ((q : HttpRequest c) × (o.respond channel q ≡ some (err e))))
  Cause (http e) = c.http.builder_error r.method r.uri r.version ≡ some e
  Cause (http_invalid_header e) =
      (host : Text) × (c.http.host r.uri ≡ some host) × (c.http.parse_value host ≡ err e)
  Cause unknown = ⊥
  Cause (uri e) = ⊥
  Cause (body e) = ⊥
  Cause body_timeout = ⊥

  abbrev pub IsBlamed : {A : Type 0} → Async c A → Type 0
  IsBlamed p = (e : Error c.foreign) → p.1 ≡ some (err e) → Cause e

  pub IsBlamed-bind :
      {A B : Type 0} (p : Async c A) (f : A → Async c B)
      → IsBlamed p
      → ((a : A) → p.1 ≡ some (ok a) → IsBlamed (f a))
      → IsBlamed (p >>= f)
  IsBlamed-bind (es, none) f h k e n = absurd (ground arith)
  IsBlamed-bind (es, some (err i)) f h k e n =
      let same : i ≡ e = ground arith in h e (ap (λ j. some (err j)) same)
  IsBlamed-bind (es, some (ok a)) f h k e n = k a refl e n

  -- Of a result of name resolution: the host if it is good, else the error's cause.
  abbrev pub CauseOf : Resolved c → Type 0
  CauseOf (ok p) = (host : Text) × (c.http.host r.uri ≡ some host)
  CauseOf (err e) = Cause e

  Resolves-CauseOf : (ret : Resolved c) → Resolves c client r o.lookup ret → CauseOf ret
  Resolves-CauseOf _ (no_host h) = h
  Resolves-CauseOf _ (from_override host p ip ips q (h, _)) = (host, h)
  Resolves-CauseOf _ (from_resolver host p ip ips q (h, _) l) = (host, h)
  Resolves-CauseOf _ (nothing_found host a l) = l
  Resolves-CauseOf _ (lookup_failed host e a l) = l
  Resolves-CauseOf _ (lookup_elapsed host e a l) = inl l

  pub dns_resolve-CauseOf :
      (ret : Resolved c) → (dns_resolve c client r o.lookup).1 ≡ some ret → CauseOf ret
  dns_resolve-CauseOf ret h = Resolves-CauseOf ret ((dns_resolve_iff c client r o.lookup ret).0 h)

  Verdict-Cause :
      (addrs : List SocketAddr) (hit : Bool) (e : Error c.foreign)
      → (dns_resolve c client r o.lookup).1 ≡ some (ok (addrs, hit))
      → Verdict {f = c.foreign} {T = x.TcpStream} addrs
          (o.now + client.tcp_timeout)
          o.picks
          (failures o.picks)
          (stop (err e))
      → Cause e
  Verdict-Cause addrs hit all_tcp_connect_failed d v = (addrs, hit, d, v)
  Verdict-Cause addrs hit tcp_deadline_exceeded d v = v
  Verdict-Cause addrs hit _ d v = absurd v

  pub connect_tcp-IsBlamed :
      (addrs : List SocketAddr) (hit : Bool)
      → (dns_resolve c client r o.lookup).1 ≡ some (ok (addrs, hit))
      → IsHonestFor c x client r o addrs
      → IsBlamed (connect_tcp c x client r addrs o)
  unfolding connect_tcp
  connect_tcp-IsBlamed addrs hit d honest e h = Verdict-Cause addrs hit e d (
      subst (Verdict addrs _ o.picks (failures o.picks)) (stop-failed c _ e h)
        (tcp_connect-Verdict (is_some r.recorder) o.now client.tcp_timeout addrs o.picks honest))
