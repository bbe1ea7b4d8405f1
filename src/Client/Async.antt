-- ===== src/Client/Async.antt =====
-- src/client.rs: what its asynchronous functions do and give, with the types of the crates tokio,
-- rustls and hyper that they handle.
pub mod Order
pub mod Hearing
pub mod Begins
use httptrace.Prelude.{Option, none, some, List, [], ◌∷◌, ◌++◌, Result, ok, err, Text}
use httptrace.Net.{SocketAddr}
use httptrace.Recorder.{Call}
use httptrace.Error.{Foreign, Error, BoxError}
use httptrace.Crates.{Crates}
use httptrace.Body.{HttpBody}
use httptrace.Body.Timeouts.{map_err_body}
use httptrace.Body.Wrapping.{Boxed}
use httptrace.Request.{Request, HttpRequest}

-- The crates rustls and hyper, and tokio's streams.
pub record Transport (c : Crates) : Type 1 where
  pub TcpStream : Type 0
  pub TlsStream : Type 0
  -- `hyper::body::Incoming`, the body of what hyper gives, with the box around it and its errors
  pub Incoming : Type 0
  pub incoming : HttpBody c.api Incoming c.foreign.HyperError
  pub stream : HttpBody c.api c.Stream (BoxError c.foreign)
  pub box_hyper : c.foreign.HyperError → BoxError c.foreign
  pub boxing : Boxed c stream Incoming (map_err_body box_hyper incoming)
  -- what a recorder asks of a TLS stream: its protocol version, if known, and that one's name
  pub protocol_version : TlsStream → Option (Option Text)
  -- `alpn_protocol()`
  pub alpn_protocol : TlsStream → Option Text
  pub Cert : Type 0
  pub RootCertStore : Type 0
  pub empty_store : RootCertStore
  pub add : Cert → RootCertStore → Result RootCertStore c.foreign.RustlsError
  -- `ServerName::try_from`
  pub ServerName : Type 0
  pub server_name : Text → Result ServerName c.foreign.InvalidDnsName

-- How a request goes out: by HTTP/1 on the TCP stream, or by HTTP/1 or HTTP/2 over TLS.
pub data Channel : Type 0 where
  plain_h1 tls_h1 tls_h2 : Channel

-- What an execution does that is seen outside.
pub data Event (c : Crates) : Type 0 where
  call : Call c.display → Event c
  spawned : SocketAddr → Event c
  cancelled : Event c
  -- `tx.send_request`
  sent : Channel → HttpRequest c → Event c

module _ (c : Crates) where
  -- What was done, and what came of it: `none` if the execution still waits.
  abbrev pub Async : Type 0 → Type 0
  Async A = List (Event c) × Option (Result A (Error c.foreign))

  -- `if let Some(recorder) = request.recorder()`
  abbrev pub told : Option c.Recorder → Call c.display → List (Event c)
  told none k = []
  told (some recorder) k = call k ∷ []

  abbrev pub tell : Request c → Call c.display → List (Event c)
  tell r k = told r.recorder k

module _ {c : Crates} where
  -- `.await?`: an error ends the function, and a future that gives nothing leaves it waiting.
  infixl 10 ◌>>=◌
  abbrev pub ◌>>=◌ : {A B : Type 0} → Async c A → (A → Async c B) → Async c B
  (es, none) >>= f = (es, none)
  (es, some (err e)) >>= f = (es, some (err e))
  (es, some (ok a)) >>= f = let (more, r) = f a in (es ++ more, r)

  -- A step that does nothing outside.
  abbrev pub lift : {A : Type 0} → Result A (Error c.foreign) → Async c A
  lift r = ([], some r)

  abbrev pub await : {A : Type 0} → Option (Result A (Error c.foreign)) → Async c A
  await o = ([], o)
