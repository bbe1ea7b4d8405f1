-- ===== src/Client/Execute/Schedule.antt =====
-- src/client.rs, `execute`, `_dns_resolve` and `_tls_handshake`: their timeouts, in times.
use httptrace.Prelude.{
  ℕ, ◌+◌, Option, none, some, List, [], ◌∷◌, Result, ok, err, if◌then◌else◌, leb, unwrap_or,
}
use httptrace.Net.{IpAddr}
use httptrace.Error.{Error, Foreign}
use httptrace.Crates.{Crates}
use httptrace.Request.{Request, HttpRequest}
use httptrace.Response.{HttpResponse, Response}
use httptrace.Client.Builder.{Client}
use httptrace.Client.Connect.{Pick, far_interval}
use httptrace.Client.Async.{Transport, Channel, Event}
use httptrace.Client.Resolve
use httptrace.Client.Resolve.{Lookup}
use httptrace.Client.Handshake
use httptrace.Client.Handshake.{TlsConfig, Connected}
use httptrace.Client.Execute.{Outside, execute}

-- What the outside would give to an execution that waits for it, each answer with its time; `none`
-- is an answer that never comes.
pub record Schedule (c : Crates) (x : Transport c) : Type 0 where
  -- the time of the call
  pub called : ℕ
  -- what `lookup_ip` gives, and the error of the timeout around it
  pub resolver : Option (ℕ × Result (List IpAddr) c.foreign.ResolveError)
  pub dns_elapsed : c.foreign.Elapsed
  -- the time at which the connection loop begins, and the branches that it takes
  pub now : ℕ
  pub picks : List (ℕ × Pick c.foreign x.TcpStream)
  pub native_certs : List x.Cert
  -- the time at which the TLS handshake begins, what the peer makes of it, and the error of the
  -- timeout around it
  pub secured : ℕ
  pub peer : TlsConfig c x → x.ServerName → Option (ℕ × Result x.TlsStream c.foreign.IoError)
  pub tls_elapsed : c.foreign.Elapsed
  pub handshake : Channel → Option (ℕ × Result (Unit {0}) c.foreign.HyperError)
  pub respond :
      Channel → HttpRequest c → Option (ℕ × Result (HttpResponse c x.Incoming) c.foreign.HyperError)
  pub elapsed : c.foreign.Elapsed

module _ {A : Type 0} (deadline : ℕ) where
  -- `tokio::time::timeout` polls its future before its sleep, so an answer at the deadline is still
  -- in time. When it gives something and what: `none` for its error.
  abbrev pub timeout_at : Option (ℕ × A) → ℕ × Option A
  timeout_at none = (deadline, none)
  timeout_at (some (t, a)) = if leb t deadline then (t, some a) else (deadline, none)

  -- What comes before a timeout drops the future that waits for it.
  abbrev pub in_time : ℕ × A → Option A
  in_time (t, a) = if leb t deadline then some a else none

  abbrev pub awaited : Option (ℕ × A) → Option A
  awaited none = none
  awaited (some answer) = in_time answer

  -- Those before the first late one.
  abbrev pub all_in_time : List (ℕ × A) → List A
  all_in_time [] = []
  all_in_time (answer ∷ l) =
      let rest = all_in_time l in if leb answer.0 deadline then answer.1 ∷ rest else []

module _ {f : Foreign} where
  abbrev pub lookup_of : f.Elapsed → Option (Result (List IpAddr) f.ResolveError) → Lookup f
  lookup_of e none = Resolve.elapsed e
  lookup_of e (some (err i)) = Resolve.failed i
  lookup_of e (some (ok ips)) = Resolve.found ips

  abbrev pub connected_of : {S : Type 0} → f.Elapsed → Option (Result S f.IoError) → Connected f S
  connected_of e none = Handshake.elapsed e
  connected_of e (some (err i)) = Handshake.failed i
  connected_of e (some (ok s)) = Handshake.connected s

-- `*request.timeout().unwrap_or(&FAR_INTERVAL)`
abbrev pub limit : (c : Crates) → Request c → ℕ
limit c r = unwrap_or far_interval r.timeout

module _ (c : Crates) (x : Transport c) (client : Client c) (k : Schedule c x) where
  -- `tokio::time::timeout(self.dns_timeout, self.resolver.lookup_ip(host))`
  abbrev pub dns_answer : ℕ × Lookup c.foreign
  dns_answer =
      let (t, a) = timeout_at (k.called + client.dns_timeout) k.resolver in
      (t, lookup_of k.dns_elapsed a)

  -- `tokio::time::timeout(self.tls_timeout, connector.connect(domain, stream))`
  abbrev pub tls_answer : TlsConfig c x → x.ServerName → ℕ × Connected c.foreign x.TlsStream
  tls_answer config name =
      let (t, a) = timeout_at (k.secured + client.tls_timeout) (k.peer config name) in
      (t, connected_of k.tls_elapsed a)

  -- What an execution gets until a time.
  abbrev pub within : ℕ → Outside c x
  within deadline = record {
    lookup = in_time deadline dns_answer;
    now = k.now;
    picks = all_in_time deadline k.picks;
    native_certs = k.native_certs;
    connect = λ config name. in_time deadline (tls_answer config name);
    handshake = λ channel. awaited deadline (k.handshake channel);
    respond = λ channel q. awaited deadline (k.respond channel q);
    elapsed = k.elapsed;
  }

  -- `execute`
  unfoldable pub execute_at : Request c → List (Event c) × Result (Response c) (Error c.foreign)
  execute_at r = execute c x client r (within (k.called + limit c r))
