-- ===== src/Tests/Peers.antt =====
-- Concrete streams and sockets in the place of rustls, hyper and tokio's sockets that src/client.rs
-- uses.
use httptrace.Prelude.{
  List, [], ◌∷◌, false, sym, refl, ◌≡◌, ◌+◌, ℕ, Option, none, some, Result, ok, err, Text, arith,
}
use httptrace.Error.{BoxError}
use httptrace.Body.{ready, Item, HttpBody}
use httptrace.Body.Timeouts.{map_err_body}
use httptrace.Body.Wrapping.{Boxed}
use httptrace.Response.{HttpResponse, Response}
use httptrace.Client.Async.{Transport}
use httptrace.Client.Attempt.{Family, ipv4, ipv6, Sockets, family_of}
use httptrace.Tests.Fixtures.{foreign, crates, api, http}

-- A body that gives its chunks one by one, each as one frame, and trailers for an empty chunk.
abbrev pub frame_of : List ℕ → Option (List ℕ)
frame_of [] = none
frame_of (x ∷ l) = some (x ∷ l)

abbrev next_frame : (E : Type 0) → List (List ℕ) → Item (Option (List ℕ)) E × List (List ℕ)
next_frame E [] = (ready none, [])
next_frame E (chunk ∷ chunks) = (ready (some (ok (frame_of chunk))), chunks)

abbrev pub next_chunk : List (List ℕ) → Item (Option (List ℕ)) (BoxError foreign) × List (List ℕ)
next_chunk = next_frame (BoxError foreign)

abbrev chunked : (E : Type 0) → HttpBody api (List (List ℕ)) E
chunked E = record {
  poll_frame = λ now s. next_frame E s;
  size_hint = λ s. none;
  is_end_stream = λ s. false;
}

abbrev pub chunks : HttpBody api (List (List ℕ)) (BoxError foreign)
chunks = chunked (BoxError foreign)

abbrev pub incoming : HttpBody api (List (List ℕ)) (Unit {0})
incoming = chunked (Unit {0})

abbrev pub box_hyper : Unit {0} → BoxError foreign
box_hyper e = BoxError.foreign tt

abbrev hyper_body : HttpBody api (List (List ℕ)) (BoxError foreign)
hyper_body = map_err_body box_hyper incoming

pub poll_boxed :
    (now : ℕ) (s : List (List ℕ))
    → next_chunk s ≡ ((hyper_body.poll_frame now s).0, (hyper_body.poll_frame now s).1)
unfolding map_err_body
poll_boxed now [] = refl
poll_boxed now (t ∷ s) = refl

pub size_boxed : (s : List (List ℕ)) → none ≡ hyper_body.size_hint s
unfolding map_err_body
size_boxed s = refl

pub end_boxed : (s : List (List ℕ)) → false ≡ hyper_body.is_end_stream s
unfolding map_err_body
end_boxed s = refl

abbrev pub boxing : Boxed crates chunks (List (List ℕ)) hyper_body
boxing = record { box = λ s. s; poll_box = poll_boxed; size_box = size_boxed; end_box = end_boxed }

-- What hyper gives, and the response that is made of it.
abbrev pub reply : HttpResponse crates (List (List ℕ))
reply = record {
  status = 200;
  version = 11;
  headers = http.empty_headers;
  extensions = tt;
  body = (1 ∷ 2 ∷ []) ∷ [] ∷ (3 ∷ []) ∷ [];
}

abbrev pub response : Response crates
response = record { res = reply }

-- A TLS that knows no protocol version and agrees on no protocol.
abbrev pub transport : Transport crates
transport = record {
  TcpStream = ℕ;
  TlsStream = ℕ;
  Incoming = List (List ℕ);
  incoming = incoming;
  stream = chunks;
  box_hyper = box_hyper;
  boxing = boxing;
  protocol_version = λ _. none;
  alpn_protocol = λ _. none;
  Cert = Unit;
  RootCertStore = ℕ;
  empty_store = 0;
  add = λ _ n. ok (n + 1);
  ServerName = Text;
  server_name = ok;
}

abbrev pub connect_socket : Family → Family → Option (Result ℕ (Unit {0}))
connect_socket ipv4 ipv4 = some (ok 7)
connect_socket ipv6 ipv6 = some (ok 7)
connect_socket _ _ = some (err tt)

pub connect_socket_family : (s k : Family) (t : ℕ) → connect_socket s k ≡ some (ok t) → s ≡ k
connect_socket_family ipv4 ipv4 t h = refl
connect_socket_family ipv6 ipv6 t h = refl
connect_socket_family ipv4 ipv6 t h = absurd (ground arith)
connect_socket_family ipv6 ipv4 t h = absurd (ground arith)

pub ok_injective : (a b : Family) → ◌≡◌ {A = Result Family (Unit {0})} (ok a) (ok b) → a ≡ b
ok_injective a b h = ground arith

-- Sockets that are their family, and reach all its addresses.
abbrev pub sockets : Sockets foreign ℕ
sockets = record {
  TcpSocket = Family;
  family = λ s. s;
  new = ok;
  bind = λ a s. ok s;
  connect = λ s dest. connect_socket s (family_of dest.ip);
  family_new = λ k s h. sym (ok_injective k s h);
  family_bind = λ a s s' h. sym (ok_injective s s' h);
  connect_family = λ s dest t h. connect_socket_family s (family_of dest.ip) t h;
}
