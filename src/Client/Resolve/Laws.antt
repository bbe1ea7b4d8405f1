-- ===== src/Client/Resolve/Laws.antt =====
-- src/client.rs: what `dns_resolve` does and gives.
use httptrace.Prelude.{
  ℕ, ◌↔◌, ◌⊎◌, inl, inr, Option-cases, subst, sym, ◌∙◌, ap, ◌≡◌, refl, true, false, Option, none,
  some, List, [], ◌∷◌, ◌++◌, ok, err, arith, Text,
}
use httptrace.Prelude.HashMap
use httptrace.Net.{IpAddr}
use httptrace.Recorder.{dns_start, dns_done}
use httptrace.Error.{timeout, resolve, host_required, empty_resolve_result}
use httptrace.Crates.{Crates}
use httptrace.Request
use httptrace.Request.{Request}
use httptrace.Client.Builder.{Client}
use httptrace.Client.Async.{Event, call, told, tell}
use httptrace.Client.Async.Order.{Phases, Phases-append, Phases-mono, Phases-told}
use httptrace.Client.Resolve.{
  Lookup, Resolved, dns_resolve, resolve_named, resolve_host, answered, reported, found, failed,
  elapsed, ask_resolver, overridden, not_empty,
}
use httptrace.Client.Resolve.Ports.{ports, IsPort, at_port-ports, port-IsPort, at_port-IsPort}

module _ (c : Crates) (client : Client c) (r : Request c) where
  Phases-answered :
      (host : Text) (ret : Option (Resolved c)) (es : List (Event c))
      → Phases 0 0 es
      → Phases 0 1 (answered c client r host ret es).0
  unfolding answered
  Phases-answered host none es h = Phases-mono 0 0 1 es (omega arith) h
  Phases-answered host (some ret) es h =
      Phases-append 0 0 1 1 es _ (omega arith) (omega arith) (omega arith) h (
        Phases-told c r.recorder
          (dns_done (c.hickory.name_servers client.resolver.config) host (reported c ret)))

  Phases-named :
      (host : Option Text) (l : Option (Lookup c.foreign))
      → Phases 0 1 (resolve_named c client r host l).0
  unfolding resolve_named
  Phases-named none l = (tt, tt)
  Phases-named (some host) l =
      Phases-answered host (resolve_host c client r host l) _
        (Phases-told c r.recorder (dns_start (c.hickory.name_servers client.resolver.config) host))

  pub Phases-dns_resolve : (l : Option (Lookup c.foreign)) → Phases 0 1 (dns_resolve c client r l).0
  unfolding dns_resolve
  Phases-dns_resolve l = Phases-named (c.http.host r.uri) l

-- What name resolution is to give: an address list of one of two sources, or one of four errors.
module _ (c : Crates) (client : Client c) (r : Request c) (l : Option (Lookup c.foreign)) where
  -- An override is there and not empty.
  abbrev pub IsOverridden : Text → IpAddr → List IpAddr → Type 0
  IsOverridden host ip ips =
      (c.http.host r.uri ≡ some host) × (HashMap.get host client.dns_overrides ≡ some (ip ∷ ips))

  -- There is a host, and no override or an empty one.
  abbrev pub IsAsked : Text → Type 0
  IsAsked host =
      (c.http.host r.uri ≡ some host)
      × ((HashMap.get host client.dns_overrides ≡ none)
          ⊎ (HashMap.get host client.dns_overrides ≡ some []))

  pub data Resolves : Resolved c → Type 0 where
    no_host : c.http.host r.uri ≡ none → Resolves (err host_required)
    from_override :
        (host : Text) (port : ℕ) (ip : IpAddr) (ips : List IpAddr)
        → IsPort c r port
        → IsOverridden host ip ips
        → Resolves (ok (ports port (ip ∷ ips), true))
    from_resolver :
        (host : Text) (port : ℕ) (ip : IpAddr) (ips : List IpAddr)
        → IsPort c r port
        → IsAsked host
        → l ≡ some (found (ip ∷ ips))
        → Resolves (ok (ports port (ip ∷ ips), false))
    nothing_found :
        (host : Text) → IsAsked host → l ≡ some (found []) → Resolves (err empty_resolve_result)
    lookup_failed :
        (host : Text) (e : c.foreign.ResolveError)
        → IsAsked host
        → l ≡ some (failed e)
        → Resolves (err (resolve e))
    lookup_elapsed :
        (host : Text) (e : c.foreign.Elapsed)
        → IsAsked host
        → l ≡ some (elapsed e)
        → Resolves (err (timeout e))

module _ (c : Crates) (client : Client c) (r : Request c) where
  Resolves-asked :
      (host : Text) (l : Option (Lookup c.foreign)) (ret : Resolved c)
      → IsAsked c client r l host
      → ask_resolver c (Request.port r) l ≡ some ret
      → Resolves c client r l ret
  unfolding ask_resolver not_empty
  Resolves-asked host none ret a h = absurd (ground arith)
  Resolves-asked host (some (elapsed e)) ret a h =
      subst (Resolves c client r _) (ground arith) (lookup_elapsed host e a refl)
  Resolves-asked host (some (failed e)) ret a h =
      subst (Resolves c client r _) (ground arith) (lookup_failed host e a refl)
  Resolves-asked host (some (found [])) ret a h =
      subst (Resolves c client r _) (ground arith) (nothing_found host a refl)
  Resolves-asked host (some (found (ip ∷ ips))) ret a h =
      subst (Resolves c client r _) (ground (arith, at_port-ports (Request.port r) (ip ∷ ips)))
        (from_resolver host (Request.port r) ip ips (port-IsPort c r) a refl)

  Resolves-overridden :
      (host : Text) (o : Option (List IpAddr)) (l : Option (Lookup c.foreign)) (ret : Resolved c)
      → c.http.host r.uri ≡ some host
      → HashMap.get host client.dns_overrides ≡ o
      → overridden c (Request.port r) o l ≡ some ret
      → Resolves c client r l ret
  unfolding overridden
  Resolves-overridden host none l ret e g h = Resolves-asked host l ret (e, inl g) h
  Resolves-overridden host (some []) l ret e g h = Resolves-asked host l ret (e, inr g) h
  Resolves-overridden host (some (ip ∷ ips)) l ret e g h =
      subst (Resolves c client r l) (ground (arith, at_port-ports (Request.port r) (ip ∷ ips)))
        (from_override host (Request.port r) ip ips (port-IsPort c r) (e, g))

  result-answered :
      (host : Text) (ret : Option (Resolved c)) (es : List (Event c))
      → (answered c client r host ret es).1 ≡ ret
  unfolding answered
  result-answered host none es = refl
  result-answered host (some ret) es = refl

  result-named :
      (host : Text) (l : Option (Lookup c.foreign))
      → c.http.host r.uri ≡ some host
      → (dns_resolve c client r l).1
        ≡ overridden c (Request.port r) (HashMap.get host client.dns_overrides) l
  unfolding dns_resolve resolve_named resolve_host
  result-named host l e = rw e (result-answered host _ _)

  resolve-Resolves :
      (l : Option (Lookup c.foreign)) (ret : Resolved c)
      → (dns_resolve c client r l).1 ≡ some ret
      → Resolves c client r l ret
  resolve-Resolves l ret h = elim (Option-cases (c.http.host r.uri)) [
    | inr (host, e) ↦
        Resolves-overridden host (HashMap.get host client.dns_overrides) l ret e refl
          (sym (result-named host l e) ∙ h)
    | inl e ↦
        unfold dns_resolve resolve_named in subst (Resolves c client r l) (ground arith) (no_host e)
  ]

  Resolves-resolve :
      (l : Option (Lookup c.foreign)) (ret : Resolved c)
      → Resolves c client r l ret
      → (dns_resolve c client r l).1 ≡ some ret
  unfolding overridden ask_resolver not_empty
  Resolves-resolve l _ (no_host e) = unfold dns_resolve resolve_named in rw e refl
  Resolves-resolve l _ (from_override host p ip ips q a) =
      result-named host l a.0
      ∙ rw (a.1) (ap (λ l'. some (ok (l', true))) (at_port-IsPort c r p (ip ∷ ips) q))
  Resolves-resolve l _ (from_resolver host p ip ips q (e, inl g) h) =
      result-named host l e
      ∙ rw (g, h) (ap (λ l'. some (ok (l', false))) (at_port-IsPort c r p (ip ∷ ips) q))
  Resolves-resolve l _ (from_resolver host p ip ips q (e, inr g) h) =
      result-named host l e
      ∙ rw (g, h) (ap (λ l'. some (ok (l', false))) (at_port-IsPort c r p (ip ∷ ips) q))
  Resolves-resolve l _ (nothing_found host (e, inl g) h) = result-named host l e ∙ rw (g, h) refl
  Resolves-resolve l _ (nothing_found host (e, inr g) h) = result-named host l e ∙ rw (g, h) refl
  Resolves-resolve l _ (lookup_failed host i (e, inl g) h) = result-named host l e ∙ rw (g, h) refl
  Resolves-resolve l _ (lookup_failed host i (e, inr g) h) = result-named host l e ∙ rw (g, h) refl
  Resolves-resolve l _ (lookup_elapsed host i (e, inl g) h) = result-named host l e ∙ rw (g, h) refl
  Resolves-resolve l _ (lookup_elapsed host i (e, inr g) h) = result-named host l e ∙ rw (g, h) refl

  -- Name resolution gives exactly what it is to give: an override of the host, if there is one that
  -- is not empty, without asking the resolver; else the addresses that the resolver found, at least
  -- one; all of them in their order with the port of the URI, or else 443 for HTTPS and 80 for
  -- others; and each of its four errors exactly in its case.
  pub dns_resolve_iff :
      (l : Option (Lookup c.foreign)) (ret : Resolved c)
      → ((dns_resolve c client r l).1 ≡ some ret) ↔ Resolves c client r l ret
  dns_resolve_iff l ret = (resolve-Resolves l ret, Resolves-resolve l ret)

  start-answered :
      (k : Event c) (host : Text) (ret : Option (Resolved c)) (es : List (Event c))
      → es ≡ k ∷ []
      → (rest : List (Event c)) × ((answered c client r host ret es).0 ≡ k ∷ rest)
  unfolding answered
  start-answered k host none es e = ([], e)
  start-answered k host (some ret) es e =
      let more : List (Event c) =
        tell c r (dns_done (c.hickory.name_servers client.resolver.config) host (reported c ret)) in
      (more, ap (λ l. l ++ more) e)

  -- What a recorder hears first.
  pub dns_resolve-start :
      (recorder : c.Recorder) (host : Text) (l : Option (Lookup c.foreign))
      → r.recorder ≡ some recorder
      → c.http.host r.uri ≡ some host
      → (rest : List (Event c)) × ((dns_resolve c client r l).0
          ≡ call (dns_start (c.hickory.name_servers client.resolver.config) host) ∷ rest)
  unfolding dns_resolve resolve_named
  dns_resolve-start recorder host l e h = rw h (
      start-answered _ host (resolve_host c client r host l) _
        (ap (λ o. told c o (dns_start (c.hickory.name_servers client.resolver.config) host)) e))

  pub dns_resolve-no_host :
      (l : Option (Lookup c.foreign))
      → c.http.host r.uri ≡ none
      → dns_resolve c client r l ≡ ([], some (err host_required))
  unfolding dns_resolve resolve_named
  dns_resolve-no_host l h = rw h refl
