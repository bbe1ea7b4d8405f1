-- ===== src/Client/Builder/Laws.antt =====
-- src/client.rs: what `ClientBuilder::build` makes of the settings.
use mathlib.Core.List.{append_assoc, append-nil}
use httptrace.Prelude.{◌≡◌, refl, ap, sym, ◌∙◌, Option, some, List, [], ◌∷◌, ◌++◌, ok}
use httptrace.Crates.{Crates}
use httptrace.Client.Builder.{
  ClientBuilder, Client, add_all, build, headers, name_servers, resolve_to_addrs, Setting,
  set_local_addr, set_resolve_to_addrs, set_lookup_ip_strategy, set_alpn_protocols,
  set_name_servers, set_headers, set_dns_timeout, set_tcp_timeout, set_tls_timeout,
  set_skip_tls_verify, set_disable_auto_set_header, set, configure, local_addr, lookup_ip_strategy,
  alpn_protocols, dns_timeout, tcp_timeout, tls_timeout, skip_tls_verify, disable_auto_set_header,
}

module _ (c : Crates) where
  pub name_servers-add_all :
      (ns : List c.display.NameServer) (config : c.hickory.Config)
      → c.hickory.name_servers (add_all c ns config) ≡ c.hickory.name_servers config ++ ns
  unfolding add_all
  name_servers-add_all [] config = sym (append-nil _)
  name_servers-add_all (n ∷ ns) config =
      name_servers-add_all ns (c.hickory.add_name_server n config)
      ∙ ap (λ l. l ++ ns) (c.hickory.name_servers_add n config)
      ∙ append_assoc (c.hickory.name_servers config) (n ∷ []) ns

module _ {c : Crates} where
  -- A client whose builder was given name servers, at least one, asks exactly these, in their
  -- order, and building it cannot fail, whatever the system's own configuration.
  pub build-name_servers :
      (b : ClientBuilder c) (n : c.display.NameServer) (ns : List c.display.NameServer)
      → (client : Client c) × (build (name_servers (n ∷ ns) b) ≡ ok client)
        × (c.hickory.name_servers client.resolver.config ≡ n ∷ ns)
  unfolding build name_servers
  build-name_servers b n ns = (
    _,
    refl,
    name_servers-add_all c (n ∷ ns) c.hickory.new_config
        ∙ ap (λ l. l ++ n ∷ ns) c.hickory.name_servers_new,
  )

  -- The chain without its calls of `headers`.
  abbrev pub without_headers : List (Setting c) → List (Setting c)
  without_headers [] = []
  without_headers (set_headers m ∷ ss) = without_headers ss
  without_headers (s ∷ ss) = s ∷ without_headers ss

  forget_headers :
      (ss : List (Setting c)) (m : Option c.http.HeaderMap) (b : ClientBuilder c)
      → build (configure ss (record b { headers = m })) ≡ build (configure (without_headers ss) b)
  unfolding configure set build local_addr resolve_to_addrs lookup_ip_strategy alpn_protocols
      name_servers headers dns_timeout tcp_timeout tls_timeout skip_tls_verify
      disable_auto_set_header
  forget_headers [] m b = refl
  forget_headers (set_headers m' ∷ ss) m b = forget_headers ss (some m') b
  forget_headers (set_local_addr a ∷ ss) m b = forget_headers ss m (local_addr a b)
  forget_headers (set_resolve_to_addrs d l ∷ ss) m b = forget_headers ss m (resolve_to_addrs d l b)
  forget_headers (set_lookup_ip_strategy s ∷ ss) m b = forget_headers ss m (lookup_ip_strategy s b)
  forget_headers (set_alpn_protocols l ∷ ss) m b = forget_headers ss m (alpn_protocols l b)
  forget_headers (set_name_servers l ∷ ss) m b = forget_headers ss m (name_servers l b)
  forget_headers (set_dns_timeout t ∷ ss) m b = forget_headers ss m (dns_timeout t b)
  forget_headers (set_tcp_timeout t ∷ ss) m b = forget_headers ss m (tcp_timeout t b)
  forget_headers (set_tls_timeout t ∷ ss) m b = forget_headers ss m (tls_timeout t b)
  forget_headers (set_skip_tls_verify ∷ ss) m b = forget_headers ss m (skip_tls_verify b)
  forget_headers (set_disable_auto_set_header ∷ ss) m b =
      forget_headers ss m (disable_auto_set_header b)

  -- The default headers of a builder are lost: whatever is called on a builder, the calls of
  -- `headers` among them make no difference to the client that is built, nor to the error.
  pub build-configure :
      (ss : List (Setting c)) (b : ClientBuilder c)
      → build (configure ss b) ≡ build (configure (without_headers ss) b)
  build-configure ss b = forget_headers ss b.headers b
