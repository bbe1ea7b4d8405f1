-- ===== src/Client/Builder/Configured.antt =====
-- src/client.rs: the client that a chain of calls on a new `ClientBuilder` builds.
use httptrace.Prelude.{
  ◌≡◌, refl, ap, ◌∙◌, false, ◌||◌, Option, none, some, List, [], ◌∷◌, ◌++◌, Result, ok, err,
  unwrap_or, is_some_and, Text, ◌>>=◌, map_err,
}
use httptrace.Prelude.HashMap.{get}
use httptrace.Prelude.Time.{from_secs}
use httptrace.Error.{Error, resolve}
use httptrace.Crates.{Crates}
use httptrace.Client.Builder.{
  Client, add_all, resolver_config, client_of, prefers_ipv6, build, new, Setting, configure,
}
use httptrace.Client.Builder.Laws.{name_servers-add_all, without_headers, build-configure}
use httptrace.Client.Builder.Chains.{
  local_addr_of, strategy_of, name_servers_of, alpn_of, dns_timeout_of, tcp_timeout_of,
  tls_timeout_of, override_of, is_skip, is_disable, last_of, any_of, after, get-overrides_after,
  configure-after,
}

IsResolving : (c : Crates) → List c.display.NameServer → c.hickory.Config → Type 0
IsResolving c [] config = c.hickory.system_config ≡ ok config
IsResolving c ns config = c.hickory.name_servers config ≡ ns

module _ {c : Crates} where
  open c use {foreign, hickory, display}

  -- What the last call gives that gives any.
  abbrev last : {A : Type 0} → (Setting c → Option A) → List (Setting c) → Option A
  last f ss = last_of f ss none

  -- The name servers of the last call of `name_servers`: no call is as good as one without any.
  abbrev servers : List (Setting c) → List display.NameServer
  servers ss = unwrap_or [] (last name_servers_of ss)

  -- What a client is whose builder got the calls.
  record IsClient (ss : List (Setting c)) (client : Client c) : Type 0 where
    bound : client.local_addr ≡ last local_addr_of ss
    asked : IsResolving c (servers ss) client.resolver.config
    strategy :
        client.resolver.ip_strategy ≡ unwrap_or hickory.default_strategy (last strategy_of ss)
    family :
        client.prefer_ipv6
        ≡ is_some_and
            (λ v.
              hickory.same_strategy v hickory.ipv6_only
              || hickory.same_strategy v hickory.ipv6_then_ipv4)
            (last strategy_of ss)
    overrides : (domain : Text) → get domain client.dns_overrides ≡ last (override_of domain) ss
    protocols : client.alpn_protocols ≡ last alpn_of ss
    skipping : client.skip_tls_verify ≡ any_of is_skip ss false
    disabling : client.disable_auto_set_header ≡ any_of is_disable ss false
    dns : client.dns_timeout ≡ unwrap_or (from_secs 5) (last dns_timeout_of ss)
    tcp : client.tcp_timeout ≡ unwrap_or (from_secs 30) (last tcp_timeout_of ss)
    tls : client.tls_timeout ≡ unwrap_or (from_secs 10) (last tls_timeout_of ss)

  pub IsConfigured : List (Setting c) → Result (Client c) (Error foreign) → Type 0
  IsConfigured ss (ok client) = IsClient ss client
  IsConfigured ss (err e) =
      (servers ss ≡ [])
      × ((i : foreign.ResolveError) × (hickory.system_config ≡ err i) × (e ≡ resolve i))

  after-IsClient :
      (ss : List (Setting c)) (config : hickory.Config)
      → IsResolving c (servers ss) config
      → IsClient ss (client_of (after ss new) config)
  unfolding client_of prefers_ipv6 new get
  after-IsClient ss config h = record {
    bound = refl;
    asked = h;
    strategy = refl;
    family = refl;
    overrides = λ domain. get-overrides_after domain ss [];
    protocols = refl;
    skipping = refl;
    disabling = refl;
    dns = refl;
    tcp = refl;
    tls = refl;
  }

  system-IsConfigured :
      (ss : List (Setting c)) (r : Result hickory.Config foreign.ResolveError)
      → servers ss ≡ []
      → hickory.system_config ≡ r
      → IsConfigured ss (do config ← map_err resolve r; ok (client_of (after ss new) config))
  unfolding IsConfigured IsResolving
  system-IsConfigured ss (ok config) h e = after-IsClient ss config (rw h e)
  system-IsConfigured ss (err i) h e = (h, (i, e, refl))

  resolver-IsConfigured :
      (ss : List (Setting c)) (ns : Option (List display.NameServer))
      → last name_servers_of ss ≡ ns
      → IsConfigured ss (do config ← resolver_config c ns; ok (client_of (after ss new) config))
  unfolding IsConfigured IsResolving resolver_config
  resolver-IsConfigured ss none h = system-IsConfigured ss _ (ap (unwrap_or []) h) refl
  resolver-IsConfigured ss (some []) h = system-IsConfigured ss _ (ap (unwrap_or []) h) refl
  resolver-IsConfigured ss (some (n ∷ ns)) h =
      after-IsClient ss (add_all c (n ∷ ns) hickory.new_config) (
        rw h (
          name_servers-add_all c (n ∷ ns) hickory.new_config
          ∙ ap (λ l. l ++ n ∷ ns) hickory.name_servers_new))

  -- The client that a chain of calls on a new builder builds. Of each setting it has what the last
  -- call gives: the local address, the strategy (else the default one, and a client prefers IPv6
  -- exactly if a strategy was given that is IPv6-only or IPv6 before IPv4), the ALPN protocols, the
  -- timeouts (else 5, 30 and 10 seconds for DNS, TCP and TLS) and, for each domain by itself, the
  -- addresses that override its resolution; skipping the verification and leaving the headers alone
  -- are on exactly if a call put them on. It asks exactly the name servers of the last call that
  -- gives any list, if that list is not empty, and building it cannot fail then; otherwise it asks
  -- those of the system, and building it fails exactly with the error that reading the system's
  -- configuration fails with. The calls of `headers` make no difference to the client or the error.
  pub build-IsConfigured :
      (ss : List (Setting c))
      → IsConfigured ss (build (configure ss new))
        × (build (configure ss new) ≡ build (configure (without_headers ss) new))
  unfolding build new
  build-IsConfigured ss =
      (rw (configure-after ss new) (resolver-IsConfigured ss _ refl), build-configure ss new)
