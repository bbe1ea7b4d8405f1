-- ===== src/Client/Builder/Chains.antt =====
-- src/client.rs: what a chain of calls makes of a `ClientBuilder`.
use httptrace.Prelude.{
  ◌≡◌, refl, ap, ◌∙◌, ℕ, Bool, true, false, ◌||◌, Option, none, some, List, [], ◌∷◌, if◌then◌else◌,
  or_else, Text, text_eq, arith,
}
use httptrace.Prelude.HashMap
use httptrace.Prelude.HashMap.{HashMap, get, get-insert}
use httptrace.Net.{IpAddr}
use httptrace.Crates.{Crates}
use httptrace.Client.Builder.{
  Alpn, ClientBuilder, headers, name_servers, resolve_to_addrs, Setting, set_local_addr,
  set_resolve_to_addrs, set_lookup_ip_strategy, set_alpn_protocols, set_name_servers, set_headers,
  set_dns_timeout, set_tcp_timeout, set_tls_timeout, set_skip_tls_verify,
  set_disable_auto_set_header, set, configure, local_addr, lookup_ip_strategy, alpn_protocols,
  dns_timeout, tcp_timeout, tls_timeout, skip_tls_verify, disable_auto_set_header,
}

module _ {c : Crates} where
  abbrev pub local_addr_of : Setting c → Option IpAddr
  local_addr_of (set_local_addr a) = some a
  local_addr_of _ = none

  abbrev pub strategy_of : Setting c → Option c.hickory.Strategy
  strategy_of (set_lookup_ip_strategy s) = some s
  strategy_of _ = none

  abbrev pub name_servers_of : Setting c → Option (List c.display.NameServer)
  name_servers_of (set_name_servers ns) = some ns
  name_servers_of _ = none

  abbrev headers_of : Setting c → Option c.http.HeaderMap
  headers_of (set_headers m) = some m
  headers_of _ = none

  abbrev pub alpn_of : Setting c → Option (List Alpn)
  alpn_of (set_alpn_protocols l) = some l
  alpn_of _ = none

  abbrev pub dns_timeout_of : Setting c → Option ℕ
  dns_timeout_of (set_dns_timeout t) = some t
  dns_timeout_of _ = none

  abbrev pub tcp_timeout_of : Setting c → Option ℕ
  tcp_timeout_of (set_tcp_timeout t) = some t
  tcp_timeout_of _ = none

  abbrev pub tls_timeout_of : Setting c → Option ℕ
  tls_timeout_of (set_tls_timeout t) = some t
  tls_timeout_of _ = none

  abbrev pub override_of : Text → Setting c → Option (List IpAddr)
  override_of domain (set_resolve_to_addrs d l) = if text_eq d domain then some l else none
  override_of domain _ = none

  abbrev pub is_skip : Setting c → Bool
  is_skip set_skip_tls_verify = true
  is_skip _ = false

  abbrev pub is_disable : Setting c → Bool
  is_disable set_disable_auto_set_header = true
  is_disable _ = false

  -- What the last call gives that gives any, or else the value before.
  abbrev pub last_of :
      {A : Type 0} → (Setting c → Option A) → List (Setting c) → Option A → Option A
  last_of f [] a = a
  last_of f (s ∷ ss) a = last_of f ss (or_else (f s) a)

  abbrev pub any_of : (Setting c → Bool) → List (Setting c) → Bool → Bool
  any_of p [] b = b
  any_of p (s ∷ ss) b = any_of p ss (p s || b)

  abbrev overriding : Setting c → HashMap (List IpAddr) → HashMap (List IpAddr)
  overriding (set_resolve_to_addrs d l) m = HashMap.insert d l m
  overriding _ m = m

  abbrev overrides_after : List (Setting c) → HashMap (List IpAddr) → HashMap (List IpAddr)
  overrides_after [] m = m
  overrides_after (s ∷ ss) m = overrides_after ss (overriding s m)

  get-overriding :
      (domain : Text) (s : Setting c) (m : HashMap (List IpAddr))
      → get domain (overriding s m) ≡ or_else (override_of domain s) (get domain m)
  get-overriding domain (set_resolve_to_addrs d l) m = ground (arith, get-insert d domain l m)
  get-overriding domain (set_local_addr a) m = refl
  get-overriding domain (set_lookup_ip_strategy s) m = refl
  get-overriding domain (set_alpn_protocols l) m = refl
  get-overriding domain (set_name_servers l) m = refl
  get-overriding domain (set_headers h) m = refl
  get-overriding domain (set_dns_timeout t) m = refl
  get-overriding domain (set_tcp_timeout t) m = refl
  get-overriding domain (set_tls_timeout t) m = refl
  get-overriding domain set_skip_tls_verify m = refl
  get-overriding domain set_disable_auto_set_header m = refl

  pub get-overrides_after :
      (domain : Text) (ss : List (Setting c)) (m : HashMap (List IpAddr))
      → get domain (overrides_after ss m) ≡ last_of (override_of domain) ss (get domain m)
  get-overrides_after domain [] m = refl
  get-overrides_after domain (s ∷ ss) m =
      get-overrides_after domain ss (overriding s m)
      ∙ ap (last_of (override_of domain) ss) (get-overriding domain s m)

  -- The builder after the calls.
  abbrev pub after : List (Setting c) → ClientBuilder c → ClientBuilder c
  after ss b = record {
    local_addr = last_of local_addr_of ss b.local_addr;
    lookup_ip_strategy = last_of strategy_of ss b.lookup_ip_strategy;
    name_servers = last_of name_servers_of ss b.name_servers;
    headers = last_of headers_of ss b.headers;
    skip_tls_verify = any_of is_skip ss b.skip_tls_verify;
    disable_auto_set_header = any_of is_disable ss b.disable_auto_set_header;
    alpn_protocols = last_of alpn_of ss b.alpn_protocols;
    dns_overrides = overrides_after ss b.dns_overrides;
    dns_timeout = last_of dns_timeout_of ss b.dns_timeout;
    tcp_timeout = last_of tcp_timeout_of ss b.tcp_timeout;
    tls_timeout = last_of tls_timeout_of ss b.tls_timeout;
  }

  pub configure-after : (ss : List (Setting c)) (b : ClientBuilder c) → configure ss b ≡ after ss b
  unfolding configure set local_addr resolve_to_addrs lookup_ip_strategy alpn_protocols name_servers
      headers dns_timeout tcp_timeout tls_timeout skip_tls_verify disable_auto_set_header
  configure-after [] b = refl
  configure-after (set_local_addr a ∷ ss) b = configure-after ss (local_addr a b)
  configure-after (set_resolve_to_addrs d l ∷ ss) b = configure-after ss (resolve_to_addrs d l b)
  configure-after (set_lookup_ip_strategy s ∷ ss) b = configure-after ss (lookup_ip_strategy s b)
  configure-after (set_alpn_protocols l ∷ ss) b = configure-after ss (alpn_protocols l b)
  configure-after (set_name_servers l ∷ ss) b = configure-after ss (name_servers l b)
  configure-after (set_headers m ∷ ss) b = configure-after ss (headers m b)
  configure-after (set_dns_timeout t ∷ ss) b = configure-after ss (dns_timeout t b)
  configure-after (set_tcp_timeout t ∷ ss) b = configure-after ss (tcp_timeout t b)
  configure-after (set_tls_timeout t ∷ ss) b = configure-after ss (tls_timeout t b)
  configure-after (set_skip_tls_verify ∷ ss) b = configure-after ss (skip_tls_verify b)
  configure-after (set_disable_auto_set_header ∷ ss) b =
      configure-after ss (disable_auto_set_header b)
