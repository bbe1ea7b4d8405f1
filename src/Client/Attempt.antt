-- ===== src/Client/Attempt.antt =====
-- src/client.rs: `_tcp_connect`, one attempt to connect to one address.
use httptrace.Prelude.{
  Bool, true, false, Option, none, some, Result, ok, err, map_err, ◌>>=◌, if◌then◌else◌, ◌≡◌, refl,
  sym, ◌∙◌, arith, Result-cases, inl, inr, map_some,
}
use httptrace.Net.{IpAddr, v4, v6, is_ipv4, SocketAddr}
use httptrace.Error.{Foreign, Error, io, tcp_deadline_exceeded}

pub data Family : Type 0 where
  ipv4 ipv6 : Family

abbrev pub family_of : IpAddr → Family
family_of (v4 n) = ipv4
family_of (v6 n) = ipv6

-- tokio's `TcpSocket`, with `T` for `TcpStream`. A socket reaches only addresses of its own family.
pub record Sockets (f : Foreign) (T : Type 0) : Type 1 where
  pub TcpSocket : Type 0
  pub family : TcpSocket → Family
  -- `TcpSocket::new_v4`, `TcpSocket::new_v6`
  pub new : Family → Result TcpSocket f.IoError
  -- `bind(SocketAddr::new(local_addr, 0))`, with the socket that it leaves
  pub bind : IpAddr → TcpSocket → Result TcpSocket f.IoError
  -- what `connect(dest)` gives in the end, if it does
  pub connect : TcpSocket → SocketAddr → Option (Result T f.IoError)
  pub family_new : (k : Family) (s : TcpSocket) → new k ≡ ok s → family s ≡ k
  pub family_bind : (a : IpAddr) (s s' : TcpSocket) → bind a s ≡ ok s' → family s' ≡ family s
  pub connect_family :
      (s : TcpSocket) (dest : SocketAddr) (t : T)
      → connect s dest ≡ some (ok t)
      → family s ≡ family_of dest.ip

module _ {f : Foreign} {T : Type 0} (s : Sockets f T) where
  open_bound : IpAddr → Result s.TcpSocket f.IoError
  open_bound a = do socket ← s.new (if is_ipv4 a then ipv4 else ipv6); s.bind a socket

  unfoldable pub open_socket : Option IpAddr → Bool → Result s.TcpSocket (Error f)
  unfolding open_bound
  open_socket (some a) prefer_ipv6 = map_err io (open_bound a)
  open_socket none prefer_ipv6 = map_err io (s.new (if prefer_ipv6 then ipv6 else ipv4))

  -- The branches of `select!`: `cancelled` says that the cancellation came first.
  race : Bool → SocketAddr → Result s.TcpSocket (Error f) → Option (Result T (Error f))
  race cancelled dest (err e) = some (err e)
  race true dest (ok socket) = some (err tcp_deadline_exceeded)
  race false dest (ok socket) = map_some (map_err io) (s.connect socket dest)

  unfoldable pub attempt : Option IpAddr → SocketAddr → Bool → Bool → Option (Result T (Error f))
  unfolding race
  attempt local_addr dest cancelled prefer_ipv6 =
      race cancelled dest (open_socket local_addr prefer_ipv6)

  -- The family that the code gives a socket: that of the local address, or else the preferred one.
  abbrev pub chosen : Option IpAddr → Bool → Family
  chosen (some a) prefer_ipv6 = family_of a
  chosen none prefer_ipv6 = if prefer_ipv6 then ipv6 else ipv4

  family-open_bound :
      (a : IpAddr) (socket : s.TcpSocket) → open_bound a ≡ ok socket → s.family socket ≡ family_of a
  unfolding open_bound
  family-open_bound a socket h = elim (Result-cases (s.new (if is_ipv4 a then ipv4 else ipv6))) [
    | inr (e, n) ↦ absurd (ground arith)
    | inl (plain, n) ↦
        s.family_bind a plain socket (ground arith) ∙ s.family_new _ plain n ∙ by_version a
  ]
    where
      by_version : (a : IpAddr) → (if is_ipv4 a then ipv4 else ipv6) ≡ family_of a
      by_version (v4 n) = refl
      by_version (v6 n) = refl

  family-open_socket :
      (local_addr : Option IpAddr) (prefer_ipv6 : Bool) (socket : s.TcpSocket)
      → open_socket local_addr prefer_ipv6 ≡ ok socket
      → s.family socket ≡ chosen local_addr prefer_ipv6
  unfolding open_socket
  family-open_socket (some a) prefer_ipv6 socket h = family-open_bound a socket (ground arith)
  family-open_socket none prefer_ipv6 socket h = s.family_new _ socket (ground arith)

  connect-race :
      (cancelled : Bool) (dest : SocketAddr) (socket : s.TcpSocket) (t : T)
      → race cancelled dest (ok socket) ≡ some (ok t)
      → s.connect socket dest ≡ some (ok t)
  unfolding race
  connect-race true dest socket t h = absurd (ground arith)
  connect-race false dest socket t h = ground arith

  -- An attempt succeeds only on an address of the family that the code chooses without looking at
  -- that address: the local address's or, if there is none, the preferred one.
  pub attempt_family :
      (local_addr : Option IpAddr) (dest : SocketAddr) (cancelled prefer_ipv6 : Bool) (t : T)
      → attempt local_addr dest cancelled prefer_ipv6 ≡ some (ok t)
      → family_of dest.ip ≡ chosen local_addr prefer_ipv6
  unfolding attempt
  attempt_family local_addr dest cancelled prefer_ipv6 t h =
      elim (Result-cases (open_socket local_addr prefer_ipv6)) [
        | inr (e, n) ↦ absurd (ground (arith, race))
        | inl (socket, n) ↦
            sym (s.connect_family socket dest t (connect-race cancelled dest socket t (rw n at h)))
            ∙ family-open_socket local_addr prefer_ipv6 socket n
      ]
