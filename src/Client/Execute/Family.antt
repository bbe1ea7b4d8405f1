-- ===== src/Client/Execute/Family.antt =====
-- src/client.rs, `execute` with `tcp_connect`, its tasks and `_tcp_connect`: the peer that a response
-- comes from.
use mathlib.Core.List.{Mem}
use httptrace.Prelude.{◌≡◌, Bool, false, some, List, ok, All-Memᴰ, is_some}
use httptrace.Net.{SocketAddr}
use httptrace.Crates.{Crates}
use httptrace.Request.{Request}
use httptrace.Response.{Response}
use httptrace.Client.Builder.{Client}
use httptrace.Client.Connect.Tasks.{System, Runs, begin}
use httptrace.Client.Connect.Tasks.Attempts.{IsAttempted, tcp_connect-IsHonest}
use httptrace.Client.Async.{Transport}
use httptrace.Client.Attempt.{Sockets, attempt, attempt_family, family_of, chosen}
use httptrace.Client.Resolve.{dns_resolve}
use httptrace.Client.Execute.{Outside, execute}
use httptrace.Client.Execute.Reached.{execute-IsReached}

module _ (c : Crates) (x : Transport c) (s : Sockets c.foreign x.TcpStream) (client : Client c)
    (r : Request c) (o : Outside c x) where
  -- A response comes over a stream that `_tcp_connect` gave for an address that name resolution
  -- gave and that is of the family of the client's local address or, if it has none, of the one
  -- family that the client prefers, if the branches that the connection loop takes are those of
  -- some interleaving of the loop with its tasks. With addresses of the other family only there is
  -- no response.
  pub execute_family :
      (addrs : List SocketAddr) (hit : Bool) (a : Response c) (k : System c.foreign x.TcpStream)
      → (dns_resolve c client r o.lookup).1 ≡ some (ok (addrs, hit))
      → Runs s client.local_addr client.prefer_ipv6
          (is_some r.recorder)
          (begin o.now client.tcp_timeout addrs)
          o.picks
          k
      → (execute c x client r o).1 ≡ ok a
      → (dest : SocketAddr) × (t : x.TcpStream) × Mem dest addrs
        × (attempt s client.local_addr dest false client.prefer_ipv6 ≡ some (ok t))
        × (family_of dest.ip ≡ chosen s client.local_addr client.prefer_ipv6)
  execute_family addrs hit a k d runs h =
      let b = is_some r.recorder in
      let (honest, _, given) =
        tcp_connect-IsHonest s client.local_addr client.prefer_ipv6 b o.now client.tcp_timeout addrs
          o.picks k runs in
      let (dest, t, m, l) = execute-IsReached c x client r o addrs hit a d honest h in
      let gives =
        All-Memᴰ (IsAttempted s client.local_addr client.prefer_ipv6 b) o.picks _ given m in
      (dest, t, l, gives, attempt_family s client.local_addr dest false client.prefer_ipv6 t gives)
