-- ===== src/Client/Resolve.antt =====
-- src/client.rs: `ClientRef::dns_resolve`.
pub mod Ports
pub mod Laws
pub mod Begins
pub mod Hearing
use httptrace.Prelude.{
  ℕ, Bool, true, false, Option, none, some, List, [], ◌∷◌, ◌++◌, map, Result, ok, err, map_err,
  ◌>>=◌, if◌then◌else◌, is_empty, ok_or, Text,
}
use httptrace.Prelude.HashMap
use httptrace.Prelude.HashMap.{HashMap}
use httptrace.Net.{IpAddr, SocketAddr}
use httptrace.Recorder.{Call, dns_start, dns_done}
use httptrace.Error.{Foreign, Error, timeout, resolve, host_required, empty_resolve_result, display}
use httptrace.Crates.{Crates}
use httptrace.Request
use httptrace.Request.{Request}
use httptrace.Client.Builder.{Client}
use httptrace.Client.Async.{Event, Async, tell}

-- What `tokio::time::timeout(self.dns_timeout, self.resolver.lookup_ip(host))` gives.
pub data Lookup (f : Foreign) : Type 0 where
  elapsed : f.Elapsed → Lookup f
  failed : f.ResolveError → Lookup f
  found : List IpAddr → Lookup f

-- `.await??`
abbrev pub looked_up : {f : Foreign} → Lookup f → Result (List IpAddr) (Error f)
looked_up (elapsed e) = err (timeout e)
looked_up (failed e) = err (resolve e)
looked_up (found ips) = ok ips

abbrev pub at_port : ℕ → List IpAddr → List SocketAddr
at_port port [] = []
at_port port (ip ∷ ips) = record { ip = ip; port = port } ∷ at_port port ips

module _ (c : Crates) where
  abbrev pub Resolved : Type 0
  Resolved = Result (List SocketAddr × Bool) (Error c.foreign)

  -- The addresses that the resolver found; an empty list is an error.
  not_empty : ℕ → List IpAddr → Resolved
  not_empty port ips =
      if is_empty (at_port port ips) then err empty_resolve_result else ok (at_port port ips, false)

  ask_resolver : ℕ → Option (Lookup c.foreign) → Option Resolved
  unfolding not_empty
  ask_resolver port none = none
  ask_resolver port (some l) = some (do ips ← looked_up l; not_empty port ips)

  -- `dns_overrides.get(host)`: an override that is empty is passed over.
  overridden : ℕ → Option (List IpAddr) → Option (Lookup c.foreign) → Option Resolved
  unfolding ask_resolver
  overridden port none l = ask_resolver port l
  overridden port (some []) l = ask_resolver port l
  overridden port (some (ip ∷ ips)) l = some (ok (at_port port (ip ∷ ips), true))

  -- `_dns_resolve`; `l` is `none` while the resolver has not answered.
  resolve_host : Client c → Request c → Text → Option (Lookup c.foreign) → Option Resolved
  unfolding overridden
  resolve_host client r host l =
      overridden (Request.port r) (HashMap.get host client.dns_overrides) l

  reported : Resolved → Result (List SocketAddr × Bool) Text
  reported = map_err display

  -- The recorder hears of the answer once it is there.
  answered :
      Client c
      → Request c
      → Text
      → Option Resolved
      → List (Event c)
      → Async c (List SocketAddr × Bool)
  unfolding reported
  answered client r host none es = (es, none)
  answered client r host (some ret) es = (
    es ++ tell c r (dns_done (c.hickory.name_servers client.resolver.config) host (reported ret)),
    some ret,
  )

  resolve_named :
      Client c
      → Request c
      → Option Text
      → Option (Lookup c.foreign)
      → Async c (List SocketAddr × Bool)
  unfolding resolve_host answered
  resolve_named client r none l = ([], some (err host_required))
  resolve_named client r (some host) l =
      answered client r host (resolve_host client r host l)
        (tell c r (dns_start (c.hickory.name_servers client.resolver.config) host))

  unfoldable pub dns_resolve :
      Client c → Request c → Option (Lookup c.foreign) → Async c (List SocketAddr × Bool)
  unfolding resolve_named
  dns_resolve client r l = resolve_named client r (c.http.host r.uri) l
