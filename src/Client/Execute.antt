-- ===== src/Client/Execute.antt =====
-- src/client.rs: `ClientRef::execute` and the two functions that send the request.
pub mod Headers
pub mod Order
pub mod Answering
pub mod Sending
pub mod Timed
pub mod Hearing
pub mod Ended
pub mod Told
pub mod Reached
pub mod Begins
pub mod Cause
pub mod Failing
pub mod Family
pub mod Schedule
pub mod Deadline
pub mod Delivered
use httptrace.Prelude.{
  map_ok, map_some, ℕ, Bool, true, false, Option, none, some, List, [], ◌∷◌, ◌++◌, map, Result, ok,
  err, map_err, if◌then◌else◌, is_some, unwrap_or, ok_or, Text, codes, text_eq,
}
use httptrace.Net.{SocketAddr}
use httptrace.Recorder.{tcp_start, tcp_done, request_start}
use httptrace.Error.{Foreign, Error, timeout, hyper, http_invalid_header, empty_resolve_result}
use httptrace.Crates.{Crates}
use httptrace.Request
use httptrace.Request.{Request, HttpRequest}
use httptrace.Response
use httptrace.Response.{HttpResponse, Response, map_body}
use httptrace.Client.Builder.{Client}
use httptrace.Client.Connect
use httptrace.Client.Connect.{Pick, Effect, Turn, go, stop, on_tcp_start, on_tcp_done}
use httptrace.Client.Async.{
  Transport, Channel, plain_h1, tls_h1, tls_h2, Event, call, spawned, cancelled, sent, Async, tell,
  ◌>>=◌, lift, await,
}
use httptrace.Client.Resolve.{Lookup, dns_resolve}
use httptrace.Client.Handshake.{TlsConfig, Connected, tls_handshake}

-- What the outside gives to one execution; `none` is an answer that the execution's own timeout
-- does not wait for.
pub record Outside (c : Crates) (x : Transport c) : Type 0 where
  pub lookup : Option (Lookup c.foreign)
  -- the time at which the connection loop begins, and the branches that it takes
  pub now : ℕ
  pub picks : List (Pick c.foreign x.TcpStream)
  pub native_certs : List x.Cert
  pub connect : TlsConfig c x → x.ServerName → Option (Connected c.foreign x.TlsStream)
  -- hyper's handshake on a stream, and the answer to the request
  pub handshake : Channel → Option (Result (Unit {0}) c.foreign.HyperError)
  pub respond :
      Channel → HttpRequest c → Option (Result (HttpResponse c x.Incoming) c.foreign.HyperError)
  -- the error of the timeout around the execution
  pub elapsed : c.foreign.Elapsed

abbrev pub mozilla : Text
mozilla =
    codes
      "Mozilla/5.0 (Windows NT 10.0; Win64; x64) AppleWebKit/537.36 (KHTML, like Gecko) Chrome/137.0.0.0 Safari/537.36"

module _ (c : Crates) where
  abbrev has : c.http.HeaderName → Request c → Bool
  has k r = is_some (c.http.get k r.headers)

  with_host : Text → Request c → Result (Request c) (Error c.foreign)
  with_host host r =
      if has c.http.host_name r
      then ok r
      else map_ok (λ v. record r { headers = c.http.insert c.http.host_name v r.headers })
          (map_err http_invalid_header (c.http.parse_value host))

  with_user_agent : Request c → Request c
  with_user_agent r = if has c.http.user_agent r then r else record r {
    headers = c.http.insert c.http.user_agent (c.http.value_of mozilla) r.headers;
  }

  auto_headers : Request c → Result (Request c) (Error c.foreign)
  unfolding with_host with_user_agent
  auto_headers r = elim (ok_or empty_resolve_result (c.http.host r.uri)) [
    | ok host ↦ map_ok with_user_agent (with_host host r)
    | err e ↦ err e
  ]

  unfoldable pub set_headers : Client c → Request c → Result (Request c) (Error c.foreign)
  unfolding auto_headers
  set_headers client r = if client.disable_auto_set_header then ok r else auto_headers r

  abbrev effect_event : Request c → Effect → List (Event c)
  effect_event r (on_tcp_start a) = tell c r (tcp_start a)
  effect_event r (on_tcp_done a ret) = tell c r (tcp_done a ret)
  effect_event r (Effect.spawned a) = spawned a ∷ []
  effect_event r Effect.cancelled = cancelled ∷ []

  abbrev pub effect_events : Request c → List Effect → List (Event c)
  effect_events r [] = []
  effect_events r (e ∷ es) = effect_event r e ++ effect_events r es

  abbrev settled : {T : Type 0} → Turn c.foreign T → Option (Result T (Error c.foreign))
  settled (go s) = none
  settled (stop r) = some r

module _ (c : Crates) (x : Transport c) where
  unfoldable pub connect_tcp :
      Client c → Request c → List SocketAddr → Outside c x → Async c x.TcpStream
  connect_tcp client r addrs o =
      let (t, es) =
        Connect.tcp_connect (is_some r.recorder) o.now client.tcp_timeout addrs o.picks in
      (effect_events c r es, settled c t)

  -- `Response::new(resp.map(super::body::boxed))`
  unfoldable pub answered : HttpResponse c x.Incoming → Response c
  unfolding Response.new
  answered resp = Response.new (map_body x.boxing.box resp)

  abbrev pub responded :
      Result (HttpResponse c x.Incoming) c.foreign.HyperError
      → Result (Response c) (Error c.foreign)
  responded (ok resp) = ok (answered resp)
  responded (err e) = err (hyper e)

  -- `tx.send_request(request.try_into()?).await?`, and the response that is made of it
  send_converted :
      Outside c x → Channel → Result (HttpRequest c) (Error c.foreign) → Async c (Response c)
  send_converted o channel (err e) = ([], some (err e))
  send_converted o channel (ok q) = (sent channel q ∷ [], map_some responded (o.respond channel q))

  -- The handshake, and then the request.
  send_on : Outside c x → Channel → Request c → Async c (Response c)
  unfolding send_converted
  send_on o channel r = do
    _ ← await (map_some (map_err hyper) (o.handshake channel))
    send_converted o channel (Request.into_http r)

  -- A sender first tells the recorder.
  pub send_told : Outside c x → Channel → Request c → Async c (Response c)
  unfolding send_on
  send_told o channel r = do _ ← (tell c r request_start, some (ok tt)); send_on o channel r

  tcp_send_h1_request : Outside c x → Request c → Async c (Response c)
  unfolding send_told
  tcp_send_h1_request o r = send_told o plain_h1 r

  -- `String::from_utf8_lossy(alpn) == "h2"`
  is_h2 : x.TlsStream → Bool
  is_h2 s = elim (x.alpn_protocol s) [ none ↦ false | some alpn ↦ text_eq alpn (codes "h2") ]

  tls_send_request : Outside c x → x.TlsStream → Request c → Async c (Response c)
  unfolding send_told is_h2
  tls_send_request o s r = send_told o (if is_h2 s then tls_h2 else tls_h1) r

  send_tls : Client c → Outside c x → Request c → Async c (Response c)
  unfolding tls_send_request
  send_tls client o r = do
    s ← tls_handshake c x client r o.native_certs o.connect
    tls_send_request o s r

  -- With the connection there: the request goes out in plain text or over TLS.
  pub transmit : Client c → Outside c x → Request c → Async c (Response c)
  unfolding send_tls tcp_send_h1_request
  transmit client o r =
      if c.http.is_https r.uri then send_tls client o r else tcp_send_h1_request o r

  -- With the connection there: the headers are completed, and the request goes out.
  prepared : Client c → Request c → Outside c x → Async c (Response c)
  unfolding transmit
  prepared client r o = do r' ← lift (set_headers c client r); transmit client o r'

  -- With the addresses there.
  connected : Client c → Request c → Outside c x → List SocketAddr × Bool → Async c (Response c)
  unfolding prepared
  connected client r o found = do _ ← connect_tcp client r found.0 o; prepared client r o

  -- The block inside the timeout.
  execute_inner : Client c → Request c → Outside c x → Async c (Response c)
  unfolding connected
  execute_inner client r o = do found ← dns_resolve c client r o.lookup; connected client r o found

  pub timed :
      c.foreign.Elapsed
      → Async c (Response c)
      → List (Event c) × Result (Response c) (Error c.foreign)
  timed e (es, none) = (es, err (timeout e))
  timed e (es, some r) = (es, r)

  -- What an execution does and gives.
  unfoldable pub execute :
      Client c → Request c → Outside c x → List (Event c) × Result (Response c) (Error c.foreign)
  unfolding execute_inner timed
  execute client r o = timed o.elapsed (execute_inner client r o)
