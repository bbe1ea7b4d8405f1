-- ===== src/Client/Builder.antt =====
-- src/client.rs: `ClientBuilder`, its `build`, and the client that comes of it.
pub mod Laws
pub mod Chains
pub mod Configured
use httptrace.Prelude.{
  ℕ, Bool, true, false, not, ◌||◌, Option, none, some, List, [], ◌∷◌, Result, ok, err, map_err,
  ◌>>=◌, if◌then◌else◌, unwrap_or, is_empty, is_some_and, Text, codes,
}
use httptrace.Prelude.HashMap
use httptrace.Prelude.HashMap.{HashMap}
use httptrace.Prelude.Time.{from_secs}
use httptrace.Net.{IpAddr}
use httptrace.Error.{Error, resolve}
use httptrace.Crates.{Crates}

abbrev pub default_dns_timeout : ℕ
default_dns_timeout = from_secs 5

abbrev pub default_tcp_timeout : ℕ
default_tcp_timeout = from_secs 30

abbrev pub default_tls_timeout : ℕ
default_tls_timeout = from_secs 10

pub data Alpn : Type 0 where
  http1 http2 http3 : Alpn

-- `impl Display for Alpn`
unfoldable pub alpn_text : Alpn → Text
alpn_text http1 = codes "http/1.1"
alpn_text http2 = codes "h2"
alpn_text http3 = codes "h3"

pub record ClientBuilder (c : Crates) : Type 0 where
  pub local_addr : Option IpAddr
  pub lookup_ip_strategy : Option c.hickory.Strategy
  pub name_servers : Option (List c.display.NameServer)
  pub headers : Option c.http.HeaderMap
  pub skip_tls_verify : Bool
  pub disable_auto_set_header : Bool
  pub alpn_protocols : Option (List Alpn)
  pub dns_overrides : HashMap (List IpAddr)
  pub dns_timeout : Option ℕ
  pub tcp_timeout : Option ℕ
  pub tls_timeout : Option ℕ

-- The configuration that the resolver is built from.
pub record Resolver (c : Crates) : Type 0 where
  pub config : c.hickory.Config
  pub ip_strategy : c.hickory.Strategy

-- `ClientRef`, which a `Client` shares.
pub record Client (c : Crates) : Type 0 where
  pub local_addr : Option IpAddr
  pub resolver : Resolver c
  pub dns_overrides : HashMap (List IpAddr)
  pub skip_tls_verify : Bool
  pub alpn_protocols : Option (List Alpn)
  pub disable_auto_set_header : Bool
  pub prefer_ipv6 : Bool
  pub dns_timeout : ℕ
  pub tcp_timeout : ℕ
  pub tls_timeout : ℕ

module _ (c : Crates) where
  -- The loop over the name servers.
  pub add_all : List c.display.NameServer → c.hickory.Config → c.hickory.Config
  add_all [] config = config
  add_all (n ∷ ns) config = add_all ns (c.hickory.add_name_server n config)

  resolver_config : Option (List c.display.NameServer) → Result c.hickory.Config (Error c.foreign)
  resolver_config none = map_err resolve c.hickory.system_config
  resolver_config (some ns) =
      if not (is_empty ns)
      then ok (add_all ns c.hickory.new_config)
      else map_err resolve c.hickory.system_config

  prefers_ipv6 : Option c.hickory.Strategy → Bool
  prefers_ipv6 = is_some_and (λ v.
      c.hickory.same_strategy v c.hickory.ipv6_only
      || c.hickory.same_strategy v c.hickory.ipv6_then_ipv4)

module _ {c : Crates} where
  pub new : ClientBuilder c
  new = record {
    local_addr = none;
    lookup_ip_strategy = none;
    name_servers = none;
    headers = none;
    skip_tls_verify = false;
    disable_auto_set_header = false;
    alpn_protocols = none;
    dns_overrides = [];
    dns_timeout = none;
    tcp_timeout = none;
    tls_timeout = none;
  }

  client_of : ClientBuilder c → c.hickory.Config → Client c
  unfolding prefers_ipv6
  client_of b config = record {
    resolver = record {
      config = config;
      ip_strategy = unwrap_or c.hickory.default_strategy b.lookup_ip_strategy;
    };
    local_addr = b.local_addr;
    skip_tls_verify = b.skip_tls_verify;
    alpn_protocols = b.alpn_protocols;
    disable_auto_set_header = b.disable_auto_set_header;
    dns_overrides = b.dns_overrides;
    dns_timeout = unwrap_or default_dns_timeout b.dns_timeout;
    tcp_timeout = unwrap_or default_tcp_timeout b.tcp_timeout;
    tls_timeout = unwrap_or default_tls_timeout b.tls_timeout;
    prefer_ipv6 = prefers_ipv6 c b.lookup_ip_strategy;
  }

  pub build : ClientBuilder c → Result (Client c) (Error c.foreign)
  unfolding resolver_config client_of
  build b = do config ← resolver_config c b.name_servers; ok (client_of b config)

  pub local_addr : IpAddr → ClientBuilder c → ClientBuilder c
  local_addr addr b = record b { local_addr = some addr }

  pub resolve_to_addrs : Text → List IpAddr → ClientBuilder c → ClientBuilder c
  resolve_to_addrs domain addrs b = record b {
    dns_overrides = HashMap.insert domain addrs b.dns_overrides;
  }

  pub lookup_ip_strategy : c.hickory.Strategy → ClientBuilder c → ClientBuilder c
  lookup_ip_strategy strategy b = record b { lookup_ip_strategy = some strategy }

  pub alpn_protocols : List Alpn → ClientBuilder c → ClientBuilder c
  alpn_protocols alpn b = record b { alpn_protocols = some alpn }

  pub name_servers : List c.display.NameServer → ClientBuilder c → ClientBuilder c
  name_servers addr b = record b { name_servers = some addr }

  pub headers : c.http.HeaderMap → ClientBuilder c → ClientBuilder c
  headers m b = record b { headers = some m }

  pub dns_timeout : ℕ → ClientBuilder c → ClientBuilder c
  dns_timeout t b = record b { dns_timeout = some t }

  pub tcp_timeout : ℕ → ClientBuilder c → ClientBuilder c
  tcp_timeout t b = record b { tcp_timeout = some t }

  pub tls_timeout : ℕ → ClientBuilder c → ClientBuilder c
  tls_timeout t b = record b { tls_timeout = some t }

  pub skip_tls_verify : ClientBuilder c → ClientBuilder c
  skip_tls_verify b = record b { skip_tls_verify = true }

  pub disable_auto_set_header : ClientBuilder c → ClientBuilder c
  disable_auto_set_header b = record b { disable_auto_set_header = true }

-- A call of one of the builder's methods.
pub data Setting (c : Crates) : Type 0 where
  set_local_addr : IpAddr → Setting c
  set_resolve_to_addrs : Text → List IpAddr → Setting c
  set_lookup_ip_strategy : c.hickory.Strategy → Setting c
  set_alpn_protocols : List Alpn → Setting c
  set_name_servers : List c.display.NameServer → Setting c
  set_headers : c.http.HeaderMap → Setting c
  set_dns_timeout set_tcp_timeout set_tls_timeout : ℕ → Setting c
  set_skip_tls_verify set_disable_auto_set_header : Setting c

module _ {c : Crates} where
  unfoldable pub set : Setting c → ClientBuilder c → ClientBuilder c
  set (set_local_addr a) = local_addr a
  set (set_resolve_to_addrs d l) = resolve_to_addrs d l
  set (set_lookup_ip_strategy s) = lookup_ip_strategy s
  set (set_alpn_protocols l) = alpn_protocols l
  set (set_name_servers l) = name_servers l
  set (set_headers m) = headers m
  set (set_dns_timeout t) = dns_timeout t
  set (set_tcp_timeout t) = tcp_timeout t
  set (set_tls_timeout t) = tls_timeout t
  set set_skip_tls_verify = skip_tls_verify
  set set_disable_auto_set_header = disable_auto_set_header

  -- A chain of calls, the first one first.
  unfoldable pub configure : List (Setting c) → ClientBuilder c → ClientBuilder c
  configure [] b = b
  configure (s ∷ ss) b = configure ss (set s b)
