-- ===== src/Net.antt =====
-- `std::net` addresses, and the texts that foreign types print: client.rs and stats.rs call
-- `to_string` on socket addresses and on the resolver's name servers.
use httptrace.Prelude.{ℕ, ◌≡◌, Bool, true, false, Text}

-- The bits of an address.
pub data IpAddr : Type 0 where
  v4 : ℕ → IpAddr
  v6 : ℕ → IpAddr

abbrev pub is_ipv4 : IpAddr → Bool
is_ipv4 (v4 n) = true
is_ipv4 (v6 n) = false

-- `SocketAddr::new(ip, port)`
pub record SocketAddr : Type 0 where
  pub ip : IpAddr
  pub port : ℕ

-- What the program prints and does not implement.
pub record Display : Type 1 where
  pub NameServer : Type 0
  pub name_server : NameServer → Text
  pub socket : SocketAddr → Text
  -- Different socket addresses print differently.
  pub socket_injective : (a b : SocketAddr) → socket a ≡ socket b → a ≡ b
