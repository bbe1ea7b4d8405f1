-- ===== src/Client/Handshake.antt =====
-- src/client.rs: `ClientRef::tls_handshake`, and the TLS configuration that it makes.
pub mod Laws
pub mod Provider
pub mod Begins
pub mod Hearing
pub mod Failing
use httptrace.Prelude.{
  Bool, true, false, Option, none, some, List, [], ◌∷◌, ◌++◌, map, Result, ok, err, map_err, map_ok,
  ◌>>=◌, if◌then◌else◌, unwrap_or, Text,
}
use httptrace.Recorder.{tls_start, tls_done}
use httptrace.Error.{Foreign, Error, timeout, io, rustls, invalid_dns_name, display}
use httptrace.Crates.{Crates}
use httptrace.Request.{Request}
use httptrace.Client.Builder.{Client, alpn_text}
use httptrace.Client.Async.{Event, Async, Transport, tell}

-- Which verifier a connection uses.
pub data CertificateVerifier : Type 0 where
  web_pki skip : CertificateVerifier

-- `ClientConfig`, as far as it is set.
pub record TlsConfig (c : Crates) (x : Transport c) : Type 0 where
  pub roots : x.RootCertStore
  pub verifier : CertificateVerifier
  pub alpn_protocols : List Text

-- What `tokio::time::timeout(self.tls_timeout, connector.connect(domain, stream))` gives.
pub data Connected (f : Foreign) (S : Type 0) : Type 0 where
  elapsed : f.Elapsed → Connected f S
  failed : f.IoError → Connected f S
  connected : S → Connected f S

module _ (c : Crates) (x : Transport c) where
  -- The loop over the system's certificates.
  add_certs : List x.Cert → x.RootCertStore → Result x.RootCertStore (Error c.foreign)
  add_certs [] store = ok store
  add_certs (cert ∷ certs) store = do
    store' ← map_err rustls (x.add cert store)
    add_certs certs store'

  -- `native` are the certificates that `load_native_certs` gives.
  pub tls_config : Client c → List x.Cert → Result (TlsConfig c x) (Error c.foreign)
  unfolding add_certs
  tls_config client native = do
    store ← add_certs native x.empty_store
    ok (record {
      roots = store;
      verifier = if client.skip_tls_verify then skip else web_pki;
      alpn_protocols = map alpn_text (unwrap_or [] client.alpn_protocols);
    })

  -- The name that the certificate is checked against.
  domain : Request c → Result x.ServerName (Error c.foreign)
  domain r = map_err invalid_dns_name (x.server_name (unwrap_or [] (c.http.host r.uri)))

  abbrev pub opened : Connected c.foreign x.TlsStream → Result x.TlsStream (Error c.foreign)
  opened (elapsed e) = err (timeout e)
  opened (failed e) = err (io e)
  opened (connected s) = ok s

  -- `connect` is what the peer makes of a configuration and a name.
  connect_to :
      (TlsConfig c x → x.ServerName → Option (Connected c.foreign x.TlsStream))
      → Result (TlsConfig c x × x.ServerName) (Error c.foreign)
      → Option (Result x.TlsStream (Error c.foreign))
  connect_to connect (err e) = some (err e)
  connect_to connect (ok (config, name)) = elim (connect config name) [
    | none ↦ none
    | some a ↦ some (opened a)
  ]

  -- `_tls_handshake`
  shake :
      Client c
      → Request c
      → List x.Cert
      → (TlsConfig c x → x.ServerName → Option (Connected c.foreign x.TlsStream))
      → Option (Result x.TlsStream (Error c.foreign))
  unfolding tls_config domain connect_to
  shake client r native connect =
      connect_to connect (do config ← tls_config client native; name ← domain r; ok (config, name))

  pub shaken :
      Request c
      → Option (Result x.TlsStream (Error c.foreign))
      → List (Event c)
      → Async c x.TlsStream
  shaken r none es = (es, none)
  shaken r (some ret) es =
      (es ++ tell c r (tls_done (map_err display (map_ok x.protocol_version ret))), some ret)

  unfoldable pub tls_handshake :
      Client c
      → Request c
      → List x.Cert
      → (TlsConfig c x → x.ServerName → Option (Connected c.foreign x.TlsStream))
      → Async c x.TlsStream
  unfolding shake shaken
  tls_handshake client r native connect =
      shaken r (shake client r native connect) (tell c r tls_start)
