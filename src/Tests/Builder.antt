-- ===== src/Tests/Builder.antt =====
-- src/client.rs on concrete inputs: a client builder that every kind of call is made on.
use httptrace.Prelude.{◌≡◌, List, [], ◌∷◌, codes}
use httptrace.Net.{v4}
use httptrace.Client.Builder
use httptrace.Client.Builder.{
  http1, http2, Client, Setting, set_local_addr, set_resolve_to_addrs, set_lookup_ip_strategy,
  set_alpn_protocols, set_name_servers, set_headers, set_dns_timeout, set_tcp_timeout,
  set_skip_tls_verify, set_disable_auto_set_header,
}
use httptrace.Client.Builder.Laws.{without_headers}
use httptrace.Client.Builder.Configured.{IsConfigured, build-IsConfigured}
use httptrace.Tests.Fixtures.{crates, hickory}

abbrev settings : List (Setting crates)
settings =
    set_local_addr (v4 3)
    ∷ set_resolve_to_addrs (codes "a.org") (v4 1 ∷ [])
    ∷ set_resolve_to_addrs (codes "b.org") (v4 2 ∷ [])
    ∷ set_lookup_ip_strategy hickory.ipv6_only
    ∷ set_alpn_protocols (http1 ∷ http2 ∷ [])
    ∷ set_headers crates.http.empty_headers
    ∷ set_dns_timeout 9
    ∷ set_name_servers []
    ∷ set_name_servers (codes "1.1.1.1" ∷ codes "8.8.8.8" ∷ [])
    ∷ set_resolve_to_addrs (codes "a.org") []
    ∷ set_dns_timeout 7
    ∷ set_tcp_timeout 8
    ∷ set_disable_auto_set_header
    ∷ []

settings-IsConfigured :
    IsConfigured settings (Builder.build (Builder.configure settings Builder.new))
    × (Builder.build (Builder.configure settings Builder.new)
        ≡ Builder.build (Builder.configure (without_headers settings) Builder.new))
settings-IsConfigured = build-IsConfigured settings
