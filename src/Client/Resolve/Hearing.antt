-- ===== src/Client/Resolve/Hearing.antt =====
-- src/client.rs, `dns_resolve`: what the request's recorder hears of it.
use httptrace.Prelude.{◌≡◌, Option, none, some, List, map, ok, err, Text, codes, join, arith}
use httptrace.Net.{SocketAddr}
use httptrace.Recorder.{dns_start, dns_done}
use httptrace.Error.{display}
use httptrace.Crates.{Crates}
use httptrace.Stats.Telling.{Heard, nothing}
use httptrace.Request.{Request}
use httptrace.Client.Builder.{Client}
use httptrace.Client.Async.{Event}
use httptrace.Client.Async.Hearing.{hears, hears-then_tell, hears-tell}
use httptrace.Client.Resolve.{
  Lookup, Resolved, dns_resolve, resolve_named, answered, reported, resolve_host,
}

module _ (c : Crates) where
  -- The addresses as the stats list them.
  abbrev pub addresses_text : List SocketAddr → Text
  addresses_text addrs = join (codes ",") (map c.display.socket addrs)

  -- What is heard of a resolution.
  abbrev pub heard_dns : Option (Resolved c) → Heard
  heard_dns none = nothing
  heard_dns (some (ok (addrs, hit))) = record nothing { dns = some (ok (addresses_text addrs)) }
  heard_dns (some (err e)) = record nothing { dns = some (err (display e)) }

module _ (c : Crates) (client : Client c) (r : Request c) (recorder : c.Recorder)
    (heard : r.recorder ≡ some recorder) where
  abbrev servers : List c.display.NameServer
  servers = c.hickory.name_servers client.resolver.config

  hears-answered :
      (host : Text) (ret : Option (Resolved c)) (es : List (Event c))
      → hears es nothing ≡ nothing
      → hears (answered c client r host ret es).0 nothing
        ≡ heard_dns c (answered c client r host ret es).1
  unfolding answered reported
  hears-answered host none es e = e
  hears-answered host (some (ok (addrs, hit))) es e =
      hears-then_tell c r recorder (dns_done servers host (ok (addrs, hit))) es nothing nothing
        heard e
  hears-answered host (some (err i)) es e =
      hears-then_tell c r recorder (dns_done servers host (err (display i))) es nothing nothing
        heard e

  hears-resolve_named :
      (o : Option Text) (host : Text) (l : Option (Lookup c.foreign))
      → o ≡ some host
      → hears (resolve_named c client r o l).0 nothing
        ≡ heard_dns c (resolve_named c client r o l).1
  unfolding resolve_named
  hears-resolve_named none host l e = absurd (ground arith)
  hears-resolve_named (some host') host l e =
      hears-answered host' (resolve_host c client r host' l) _
        (hears-tell c r recorder (dns_start servers host') nothing heard)

  pub hears-dns_resolve :
      (host : Text) (l : Option (Lookup c.foreign))
      → c.http.host r.uri ≡ some host
      → hears (dns_resolve c client r l).0 nothing ≡ heard_dns c (dns_resolve c client r l).1
  unfolding dns_resolve
  hears-dns_resolve host l e = hears-resolve_named (c.http.host r.uri) host l e
