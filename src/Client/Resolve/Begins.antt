-- ===== src/Client/Resolve/Begins.antt =====
-- src/client.rs: name resolution that is stopped before the resolver answers.
use httptrace.Prelude.{◌≡◌, arith, inl, inr, refl, ap, ℕ, Option, none, some, List, [], ◌∷◌, Text}
use httptrace.Prelude.HashMap
use httptrace.Net.{IpAddr}
use httptrace.Crates.{Crates}
use httptrace.Request
use httptrace.Request.{Request}
use httptrace.Client.Builder.{Client}
use httptrace.Client.Async.{Event}
use httptrace.Client.Async.Begins.{Awaited, Begins}
use httptrace.Client.Resolve.{
  Lookup, Resolved, dns_resolve, resolve_named, resolve_host, answered, ask_resolver, overridden,
}

module _ (c : Crates) (client : Client c) (r : Request c) where
  Begins-answered :
      (host : Text) (es : List (Event c)) (ret ret' : Option (Resolved c))
      → Awaited ret ret'
      → Begins (answered c client r host ret es) (answered c client r host ret' es)
  unfolding answered
  Begins-answered host es ret ret' (inr e) = inl (ap (λ k. answered c client r host k es) e)
  Begins-answered host es ret none (inl e) = rw e (inl refl)
  Begins-answered host es ret (some k) (inl e) = rw e (inr (refl, _, refl))

  Awaited-overridden :
      (port : ℕ) (o : Option (List IpAddr)) (l l' : Option (Lookup c.foreign))
      → Awaited l l'
      → Awaited (overridden c port o l) (overridden c port o l')
  unfolding overridden ask_resolver
  Awaited-overridden port o l l' (inr e) = inr (ap (overridden c port o) e)
  Awaited-overridden port none l l' (inl e) = rw e (inl refl)
  Awaited-overridden port (some []) l l' (inl e) = rw e (inl refl)
  Awaited-overridden port (some (ip ∷ ips)) l l' (inl e) = inr refl

  Begins-named :
      (host : Option Text) (l l' : Option (Lookup c.foreign))
      → Awaited l l'
      → Begins (resolve_named c client r host l) (resolve_named c client r host l')
  unfolding resolve_named resolve_host
  Begins-named none l l' h = inl refl
  Begins-named (some host) l l' h =
      Begins-answered host _ _ _
        (Awaited-overridden (Request.port r) (HashMap.get host client.dns_overrides) l l' h)

  pub Begins-dns_resolve :
      (l l' : Option (Lookup c.foreign))
      → Awaited l l'
      → Begins (dns_resolve c client r l) (dns_resolve c client r l')
  unfolding dns_resolve
  Begins-dns_resolve l l' h = Begins-named (c.http.host r.uri) l l' h

  waits-answered :
      (host : Text) (es : List (Event c)) (ret : Option (Resolved c))
      → (answered c client r host ret es).1 ≡ none
      → ret ≡ none
  unfolding answered
  waits-answered host es none h = refl
  waits-answered host es (some k) h = absurd (ground arith)

  waits-overridden :
      (port : ℕ) (o : Option (List IpAddr)) (l : Option (Lookup c.foreign))
      → overridden c port o l ≡ none
      → l ≡ none
  unfolding overridden ask_resolver
  waits-overridden port o none h = refl
  waits-overridden port none (some l) h = absurd (ground arith)
  waits-overridden port (some []) (some l) h = absurd (ground arith)
  waits-overridden port (some (ip ∷ ips)) (some l) h = absurd (ground arith)

  waits-named :
      (host : Option Text) (l : Option (Lookup c.foreign))
      → (resolve_named c client r host l).1 ≡ none
      → l ≡ none
  unfolding resolve_named resolve_host
  waits-named none l h = absurd (ground arith)
  waits-named (some host) l h =
      waits-overridden (Request.port r) (HashMap.get host client.dns_overrides) l
        (waits-answered host _ _ h)

  -- Name resolution waits for nothing but the resolver.
  pub waits-dns_resolve :
      (l : Option (Lookup c.foreign)) → (dns_resolve c client r l).1 ≡ none → l ≡ none
  unfolding dns_resolve
  waits-dns_resolve l h = waits-named (c.http.host r.uri) l h
