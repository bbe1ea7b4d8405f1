-- ===== src/Tests/Delivery.antt =====
-- src/client.rs and src/response.rs: reading the response of an execution.
use mathlib.Core.List.{Memᴰ}
use httptrace.Prelude.{
  arith, Bool, none, true, text_eq, subst, All, ℕ, ◌+◌, ap, map, Text, codes, ◌≡◌, refl, some, List,
  [], ◌∷◌, ok,
}
use httptrace.Request.{HttpRequest}
use httptrace.Response.{HttpResponse, bytes}
use httptrace.Response.Polling.{bytes_at}
use httptrace.Client.Async.{Channel, sent}
use httptrace.Client.Execute.{execute}
use httptrace.Client.Send.{request, send}
use httptrace.Prelude.HashMap
use httptrace.Net.{SocketAddr, v4}
use httptrace.Request
use httptrace.Request.Builder.Chains.{after_calls}
use httptrace.Client.Builder.{Client}
use httptrace.Client.Connect
use httptrace.Client.Connect.Runtime.{settle}
use httptrace.Client.Resolve.{dns_resolve}
use httptrace.Client.Execute.Hearing.{IsHonestOn}
use httptrace.IntoUri.{str_into_uri}
use httptrace.Recorder.{Call}
use httptrace.Request.Builder.{Op, recorder_op, timeout_op, chain}
use httptrace.Client.Async.Hearing.{calls}
use httptrace.Client.Send.Told.{IsTold, IsHonestTo, sending, send-IsTold}
use httptrace.Client.Send.Wire.{IsWired, send-IsWired}
use httptrace.Client.Execute.Delivered.{IsReadAs, execute-IsReadAs}
use httptrace.Tests.Fixtures.{Uri, crates, display, http}
use httptrace.Tests.Peers.{transport, response, chunks}
use httptrace.Tests.Response.{collecting}
use httptrace.Tests.Execute.{peer, address, client, query, outside, changes, answered_run, readings}

abbrev times : List ℕ
times = 11 ∷ 12 ∷ 13 ∷ 14 ∷ []

delivered_example :
    (channel : Channel) × (h : HttpRequest crates) × (resp : HttpResponse crates (List (List ℕ)))
    × Memᴰ (sent channel h) (execute crates transport client query outside).0
    × (outside.respond channel h ≡ some (ok resp))
    × IsReadAs crates transport collecting times response resp
delivered_example =
    execute-IsReadAs crates transport collecting times client query outside response answered_run

read_bytes : bytes_at crates chunks collecting times response ≡ some (ok (1 ∷ 2 ∷ 3 ∷ []))
unfolding bytes_at bytes
read_bytes = refl

wired_example :
    All
      (IsWired crates 0 address changes)
      (send crates transport (chain changes (request crates client 0 (ok address))) outside).0
wired_example = send-IsWired crates transport client 0 address changes outside

-- A text that parses to a target of HTTPS, whose address the client overrides.
abbrev told : List (Op crates)
told = recorder_op 4 ∷ timeout_op 9 ∷ []

abbrev target : Text
target = codes "s.org"

abbrev parsed : Uri
parsed = record { host = some target; port = none; https = true }

abbrev reaching : Client crates
reaching = record client { dns_overrides = (target, v4 1 ∷ []) ∷ [] }

found_peer :
    (addrs : List SocketAddr) (hit : Bool)
    → (dns_resolve crates reaching (after_calls told (Request.new 0 parsed)) none).1
      ≡ some (ok (addrs, hit))
    → addrs ≡ peer ∷ []
unfolding dns_resolve Request.port HashMap.get text_eq Request.new
found_peer addrs hit h = ground arith

outside-IsHonestOn : IsHonestOn crates transport reaching outside (peer ∷ [])
outside-IsHonestOn = unfold settle Connect.turn in (omega arith, (Memᴰ.head refl, refl))

target-IsHonestTo :
    (uri : Uri)
    → str_into_uri http target ≡ ok uri
    → IsHonestTo crates transport reaching 0 told outside uri
unfolding str_into_uri
target-IsHonestTo uri e =
    subst (IsHonestTo crates transport reaching 0 told outside) (ground arith)
      (λ addrs hit h. rw (found_peer addrs hit h) outside-IsHonestOn)

-- The calls that its `send` makes, one each nanosecond.
abbrev stamped : ℕ → List (Call display) → List (ℕ × Call display)
stamped now [] = []
stamped now (k ∷ ks) = (now, k) ∷ stamped (now + 1) ks

map-stamped : (now : ℕ) (ks : List (Call display)) → map (λ e. e.1) (stamped now ks) ≡ ks
map-stamped now [] = refl
map-stamped now (k ∷ ks) = ap (◌∷◌ k) (map-stamped (now + 1) ks)

abbrev history : List (ℕ × Call display)
history =
    stamped 1
      (calls (sending crates transport reaching 0 told outside (str_into_uri http target)).0)

told_example :
    IsTold crates transport reaching 0 told outside readings history (str_into_uri http target)
told_example =
    send-IsTold crates transport reaching 0 told outside 4 target readings history refl
      target-IsHonestTo (map-stamped 1 _)
