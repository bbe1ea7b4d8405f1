-- ===== src/Client/Execute/Told.antt =====
-- src/client.rs and src/stats.rs together: what the stats tell of how an execution went.
use httptrace.Prelude.{
  ◌∙◌, ◌≡◌, refl, ap, sym, subst, ℕ, Bool, false, [], Option, none, some, List, map, Result, ok,
  err, Text,
}
use httptrace.Net.{SocketAddr}
use httptrace.Recorder.{Call}
use httptrace.Error.{Error, timeout, display}
use httptrace.Crates.{Crates}
use httptrace.Request.{Request}
use httptrace.Response.{Response}
use httptrace.Client.Builder.{Client}
use httptrace.Client.Async.{Transport, Async, ◌>>=◌}
use httptrace.Client.Async.Hearing.{calls, hears, hears-append}
use httptrace.Client.Resolve.{Resolved, dns_resolve}
use httptrace.Client.Resolve.Hearing.{addresses_text, heard_dns, hears-dns_resolve}
use httptrace.Client.Execute.{
  Outside, timed, connect_tcp, execute_inner, execute, connected, prepared,
}
use httptrace.Client.Execute.Hearing.{attempts, IsHonestOn, hears-connect_tcp}
use httptrace.Stats.{Readings, init, replay, finish}
use httptrace.Stats.Telling.{Heard, nothing, hear_all, Tells, replay-Tells}
use httptrace.Client.Execute.Ended.{Ended, heard_of, outcome, Ended-headers, Ended-connect}

module _ (c : Crates) (x : Transport c) (client : Client c) (o : Outside c x) where
  abbrev late : Error c.foreign
  late = timeout o.elapsed

  -- Where an execution can end, by what came of name resolution.
  abbrev pub Ends :
      Bool → Option (Resolved c) → Heard → Result (Response c) (Error c.foreign) → Type 0
  Ends https none h res = (h ≡ nothing) × (res ≡ err late)
  Ends https (some (err e)) h res =
      (h ≡ record nothing { dns = some (err (display e)) }) × (res ≡ err e)
  Ends https (some (ok (addrs, hit))) h res =
      Ended c x client o https (addresses_text c addrs) (attempts c x client o addrs) h res

  -- The connection loop is honest on the addresses that were found.
  abbrev pub IsHonestFound : Option (Resolved c) → Type 0
  IsHonestFound found =
      (addrs : List SocketAddr) (hit : Bool)
      → found ≡ some (ok (addrs, hit))
      → IsHonestOn c x client o addrs

  Ends-bind :
      (p : Async c (List SocketAddr × Bool)) (f : List SocketAddr × Bool → Async c (Response c))
      (https : Bool)
      → IsHonestFound p.1
      → hears p.0 nothing ≡ heard_dns c p.1
      → ((addrs : List SocketAddr) (hit : Bool)
          → IsHonestOn c x client o addrs
          → let text = addresses_text c addrs in
            Ended c x client o https text
              (attempts c x client o addrs)
              (hears (f (addrs, hit)).0 (heard_of text [] none false))
              (outcome c late (f (addrs, hit)).1))
      → Ends https p.1 (hears (p >>= f).0 nothing) (outcome c late (p >>= f).1)
  Ends-bind (es, none) f https honest e k = (e, refl)
  Ends-bind (es, some (err i)) f https honest e k = (e, refl)
  Ends-bind (es, some (ok (addrs, hit))) f https honest e k =
      subst
        (λ h.
          Ended c x client o https (addresses_text c addrs) (attempts c x client o addrs) h
            (outcome c late (f (addrs, hit)).1))
        (sym (hears-append es (f (addrs, hit)).0 _ ∙ ap (hears (f (addrs, hit)).0) e))
        (k addrs hit (honest addrs hit refl))

  execute_inner-Ends :
      (r : Request c) (recorder : c.Recorder) (host : Text)
      → r.recorder ≡ some recorder
      → c.http.host r.uri ≡ some host
      → IsHonestFound (dns_resolve c client r o.lookup).1
      → Ends
          (c.http.is_https r.uri)
          (dns_resolve c client r o.lookup).1
          (hears (execute_inner c x client r o).0 nothing)
          (outcome c late (execute_inner c x client r o).1)
  unfolding execute_inner connected prepared
  execute_inner-Ends r recorder host heard e honest =
      Ends-bind (dns_resolve c client r o.lookup) (connected c x client r o) (c.http.is_https r.uri)
        honest (hears-dns_resolve c client r recorder heard host o.lookup e)
        (λ addrs hit good.
          let text = addresses_text c addrs in
          let (told, reached) =
            hears-connect_tcp c x client o r recorder addrs (heard_of text [] none false) heard in
          Ended-connect c x client o (connect_tcp c x client r addrs o)
            (λ _. prepared c x client r o) (c.http.is_https r.uri) text
            (attempts c x client o addrs) told (λ t. reached t good)
            (λ t w.
              Ended-headers c x client o r recorder text (attempts c x client o addrs) _ heard w
                refl))

  Ends-timed :
      (https : Bool) (found : Option (Resolved c)) (p : Async c (Response c))
      → Ends https found (hears p.0 nothing) (outcome c late p.1)
      → Ends https found (hears (timed c x o.elapsed p).0 nothing) (timed c x o.elapsed p).1
  unfolding timed
  Ends-timed https found (es, none) h = h
  Ends-timed https found (es, some r) h = h

  execute-Ends :
      (r : Request c) (recorder : c.Recorder) (host : Text)
      → r.recorder ≡ some recorder
      → c.http.host r.uri ≡ some host
      → IsHonestFound (dns_resolve c client r o.lookup).1
      → Ends
          (c.http.is_https r.uri)
          (dns_resolve c client r o.lookup).1
          (hears (execute c x client r o).0 nothing)
          (execute c x client r o).1
  unfolding execute
  execute-Ends r recorder host heard e honest =
      Ends-timed (c.http.is_https r.uri) (dns_resolve c client r o.lookup).1
        (execute_inner c x client r o) (execute_inner-Ends r recorder host heard e honest)

  -- What the stats of an execution tell of it, with the calls at whatever times.
  pub execute-Tells :
      (r : Request c) (recorder : c.Recorder) (host : Text) (t : Readings)
      (cs : List (ℕ × Call c.display))
      → r.recorder ≡ some recorder
      → c.http.host r.uri ≡ some host
      → IsHonestFound (dns_resolve c client r o.lookup).1
      → map (λ e. e.1) cs ≡ calls (execute c x client r o).0
      → (h : Heard) × Tells c.display (finish t (replay c.display cs init)) h
        × Ends
            (c.http.is_https r.uri)
            (dns_resolve c client r o.lookup).1
            h
            (execute c x client r o).1
  execute-Tells r recorder host t cs heard e honest called = (
    hears (execute c x client r o).0 nothing,
    subst
        (λ ks.
          Tells c.display (finish t (replay c.display cs init)) (hear_all c.display ks nothing))
        called (replay-Tells c.display t cs),
    execute-Ends r recorder host heard e honest,
  )
