-- ===== src/Client/Resolve/Ports.antt =====
-- src/client.rs, `_dns_resolve`, and src/request.rs, `Request::port`: addresses and their port.
use httptrace.Prelude.{
  ℕ, Bool-cases, map, inl, inr, Option-cases, ◌∙◌, ap, ◌≡◌, refl, true, false, none, some, List, [],
  ◌∷◌,
}
use httptrace.Net.{IpAddr, SocketAddr}
use httptrace.Crates.{Crates}
use httptrace.Request
use httptrace.Request.{Request}
use httptrace.Client.Resolve.{at_port}

-- Each of the addresses with the port, in their order.
abbrev pub ports : ℕ → List IpAddr → List SocketAddr
ports port = map (λ (ip : IpAddr). record { ip = ip; port = port })

-- The port that a request is to: that of its URI, or else that of the scheme.
pub data IsPort (c : Crates) (r : Request c) : ℕ → Type 0 where
  explicit_port : (p : ℕ) → c.http.port_u16 r.uri ≡ some p → IsPort c r p
  https_port : c.http.port_u16 r.uri ≡ none → c.http.is_https r.uri ≡ true → IsPort c r 443
  http_port : c.http.port_u16 r.uri ≡ none → c.http.is_https r.uri ≡ false → IsPort c r 80

pub at_port-ports : (port : ℕ) (ips : List IpAddr) → at_port port ips ≡ ports port ips
at_port-ports port [] = refl
at_port-ports port (ip ∷ ips) = ap (◌∷◌ (record { ip = ip; port = port })) (at_port-ports port ips)

module _ (c : Crates) (r : Request c) where
  pub port-IsPort : IsPort c r (Request.port r)
  unfolding Request.port
  port-IsPort = elim (Option-cases (c.http.port_u16 r.uri)) [
    | inr (p, there) ↦ rw there (explicit_port p there)
    | inl none_there ↦ elim (Bool-cases (c.http.is_https r.uri)) [
      | inl e ↦ rw (none_there, e) (https_port none_there e)
      | inr e ↦ rw (none_there, e) (http_port none_there e)
    ]
  ]

  IsPort-port : (p : ℕ) → IsPort c r p → Request.port r ≡ p
  unfolding Request.port
  IsPort-port _ (explicit_port p there) = rw there refl
  IsPort-port _ (https_port none_there e) = rw (none_there, e) refl
  IsPort-port _ (http_port none_there e) = rw (none_there, e) refl

  pub at_port-IsPort :
      (p : ℕ) (ips : List IpAddr) → IsPort c r p → at_port (Request.port r) ips ≡ ports p ips
  at_port-IsPort p ips q = ap (λ n. at_port n ips) (IsPort-port p q) ∙ at_port-ports p ips
