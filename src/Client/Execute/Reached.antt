-- ===== src/Client/Execute/Reached.antt =====
-- src/client.rs, `execute` with `tcp_connect`: which peer a response comes from.
use mathlib.Core.List.{Memᴰ, Mem}
use httptrace.Prelude.{◌≡◌, refl, subst, Bool, none, some, List, [], ok, err, arith, is_some}
use httptrace.Net.{SocketAddr}
use httptrace.Crates.{Crates}
use httptrace.Request.{Request}
use httptrace.Response.{Response}
use httptrace.Client.Builder.{Client}
use httptrace.Client.Connect.{received, Turn, go, stop, start}
use httptrace.Client.Connect.Runtime.{IsHonest}
use httptrace.Client.Connect.Outcome.{Verdict, failures, tcp_connect-Verdict}
use httptrace.Client.Async.{Transport, Async, ◌>>=◌}
use httptrace.Client.Resolve.{dns_resolve}
use httptrace.Client.Execute.{
  Outside, settled, connect_tcp, prepared, connected, execute_inner, execute,
}
use httptrace.Client.Execute.Answering.{result-timed}

module _ {c : Crates} where
  -- The step before an `.await?` has succeeded where the whole has.
  ok-bind :
      {A B : Type 0} (p : Async c A) (f : A → Async c B) (b : B)
      → (p >>= f).1 ≡ some (ok b)
      → (a : A) × (p.1 ≡ some (ok a)) × ((f a).1 ≡ some (ok b))
  ok-bind (es, none) f b h = absurd (ground arith)
  ok-bind (es, some (err e)) f b h = absurd (ground arith)
  ok-bind (es, some (ok a)) f b h = (a, refl, h)

pub stop-settled :
    (c : Crates) {T : Type 0} (u : Turn c.foreign T) (t : T)
    → settled c u ≡ some (ok t)
    → u ≡ stop (ok t)
stop-settled c (go s) t h = absurd (ground arith)
stop-settled c (stop r) t h = ground arith

module _ (c : Crates) (x : Transport c) (client : Client c) (r : Request c) (o : Outside c x) where
  -- A peer of the list that was connected to.
  abbrev pub IsReached : List SocketAddr → Type 0
  IsReached addrs =
      (dest : SocketAddr) × (t : x.TcpStream) × Memᴰ (received dest (ok t)) o.picks × Mem dest addrs

  abbrev pub IsHonestFor : List SocketAddr → Type 0
  IsHonestFor addrs =
      IsHonest (is_some r.recorder) (start o.now client.tcp_timeout addrs) [] o.picks

  connect_tcp-IsReached :
      (addrs : List SocketAddr) (t : x.TcpStream)
      → IsHonestFor addrs
      → (connect_tcp c x client r addrs o).1 ≡ some (ok t)
      → IsReached addrs
  unfolding connect_tcp
  connect_tcp-IsReached addrs t honest h =
      let (dest, m, l) =
        subst (Verdict addrs _ o.picks (failures o.picks)) (stop-settled c _ t h) (
          tcp_connect-Verdict (is_some r.recorder) o.now client.tcp_timeout addrs o.picks honest) in
      (dest, t, m, l)

  execute_inner-IsReached :
      (addrs : List SocketAddr) (hit : Bool) (a : Response c)
      → (dns_resolve c client r o.lookup).1 ≡ some (ok (addrs, hit))
      → IsHonestFor addrs
      → (execute_inner c x client r o).1 ≡ some (ok a)
      → IsReached addrs
  unfolding execute_inner connected
  execute_inner-IsReached addrs hit a d honest h =
      let (found, d', h') =
        ok-bind (dns_resolve c client r o.lookup) (connected c x client r o) a h in
      let same : found.0 ≡ addrs = ground arith in
      let (t, e, _) =
        ok-bind (connect_tcp c x client r found.0 o) (λ _. prepared c x client r o) a h' in
      connect_tcp-IsReached addrs t honest
        (subst (λ l. (connect_tcp c x client r l o).1 ≡ some (ok t)) same e)

-- A response comes over a connection to one of the addresses that name resolution gave, if the
-- branches that the connection loop takes keep the runtime's promises.
pub execute-IsReached :
    (c : Crates) (x : Transport c) (client : Client c) (r : Request c) (o : Outside c x)
    (addrs : List SocketAddr) (hit : Bool) (a : Response c)
    → (dns_resolve c client r o.lookup).1 ≡ some (ok (addrs, hit))
    → IsHonestFor c x client r o addrs
    → (execute c x client r o).1 ≡ ok a
    → IsReached c x client r o addrs
unfolding execute
execute-IsReached c x client r o addrs hit a d honest h =
    execute_inner-IsReached c x client r o addrs hit a d honest
      (result-timed c x o client o.elapsed _ a h)
