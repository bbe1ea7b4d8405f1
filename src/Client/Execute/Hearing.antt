-- ===== src/Client/Execute/Hearing.antt =====
-- src/client.rs, `execute`: what the request's recorder hears of the connection and the request.
use httptrace.Prelude.{
  ◌∙◌, ◌≡◌, refl, ap, sym, subst, true, some, List, [], ◌∷◌, ◌++◌, map_some, map_err, Result, ok,
  err, arith,
}
use httptrace.Net.{SocketAddr}
use httptrace.Recorder.{request_start}
use httptrace.Error.{Error, hyper}
use httptrace.Crates.{Crates}
use httptrace.Request
use httptrace.Request.{Request, HttpRequest}
use httptrace.Client.Builder.{Client}
use httptrace.Client.Connect.{Effect, on_tcp_start, on_tcp_done}
use httptrace.Client.Async.{Transport, Channel, tell, await}
use httptrace.Client.Async.Hearing.{hears, hears-append, hears-bind, hears-tell}
use httptrace.Client.Execute.{
  Outside, send_converted, send_on, effect_events, connect_tcp, set_headers, send_told,
  auto_headers, with_host, with_user_agent,
}
use httptrace.Stats.Telling.{Heard}
use mathlib.Core.List.{append-nil, append_assoc}
use httptrace.Client.Connect.Started.{starts, starts-tcp_connect, Reached, tcp_connect-Reached}
use httptrace.Client.Connect.Runtime.{spawns, IsHonest}
use httptrace.Client.Connect
use httptrace.Client.Connect.{Turn, go, stop, start}
use httptrace.Client.Execute.Reached.{stop-settled}

module _ (c : Crates) where
  hears-effects :
      (recorder : c.Recorder) (r : Request c) (es : List Effect) (h : Heard)
      → hears (effect_events c (record r { recorder = some recorder }) es) h
        ≡ record h { tcp = h.tcp ++ starts es }
  hears-effects x r [] h = ap (λ l. record h { tcp = l }) (sym (append-nil h.tcp))
  hears-effects x r (on_tcp_start a ∷ es) h =
      hears-effects x r es (record h { tcp = h.tcp ++ a ∷ [] })
      ∙ ap (λ l. record h { tcp = l }) (append_assoc h.tcp (a ∷ []) (starts es))
  hears-effects x r (on_tcp_done a k ∷ es) h = hears-effects x r es h
  hears-effects x r (Effect.spawned a ∷ es) h = hears-effects x r es h
  hears-effects x r (Effect.cancelled ∷ es) h = hears-effects x r es h

  pub recorder-set_headers :
      (client : Client c) (r r' : Request c)
      → set_headers c client r ≡ ok r'
      → r'.recorder ≡ r.recorder
  unfolding set_headers auto_headers with_host with_user_agent
  recorder-set_headers client r r' e = ground arith

module _ (c : Crates) (x : Transport c) (client : Client c) (o : Outside c x) where
  hears-sent :
      (channel : Channel) (q : Result (HttpRequest c) (Error c.foreign)) (h : Heard)
      → hears (send_converted c x o channel q).0 h ≡ h
  unfolding send_converted
  hears-sent channel (ok q) h = refl
  hears-sent channel (err e) h = refl

  hears-send_on :
      (channel : Channel) (r : Request c) (h : Heard) → hears (send_on c x o channel r).0 h ≡ h
  unfolding send_on
  hears-send_on channel r h =
      hears-bind (await (map_some (map_err hyper) (o.handshake channel)))
        (λ _. send_converted c x o channel (Request.into_http r)) h refl
        (λ _. hears-sent channel (Request.into_http r) h)

  pub hears-send_told :
      (channel : Channel) (r : Request c) (recorder : c.Recorder) (h : Heard)
      → r.recorder ≡ some recorder
      → hears (send_told c x o channel r).0 h ≡ record h { request = true }
  unfolding send_told
  hears-send_told channel r recorder h heard =
      hears-append (tell c r request_start) (send_on c x o channel r).0 h
      ∙ hears-send_on channel r _
      ∙ hears-tell c r recorder request_start h heard

  -- The attempts that the connection loop starts.
  abbrev pub attempts : List SocketAddr → List SocketAddr
  attempts addrs =
      spawns (Connect.tcp_connect {T = x.TcpStream} true o.now client.tcp_timeout addrs o.picks).1

  -- One of these attempts has given a stream.
  abbrev pub IsReached : List SocketAddr → Type 0
  IsReached tcp = (t : x.TcpStream) × Reached t o.picks tcp

  -- The branches that the loop takes are honest.
  abbrev pub IsHonestOn : List SocketAddr → Type 0
  IsHonestOn addrs = IsHonest true (start o.now client.tcp_timeout addrs) [] o.picks

  -- What is heard of the connection loop: the attempts that it starts.
  abbrev IsHeard : (r : Request c) → List SocketAddr → Heard → Type 0
  IsHeard r addrs h =
      (hears (connect_tcp c x client r addrs o).0 h ≡ record h { tcp = h.tcp ++ attempts addrs })
      × ((t : x.TcpStream)
          → IsHonestOn addrs
          → (connect_tcp c x client r addrs o).1 ≡ some (ok t)
          → IsReached (attempts addrs))

  pub hears-connect_tcp :
      (r : Request c) (recorder : c.Recorder) (addrs : List SocketAddr) (h : Heard)
      → r.recorder ≡ some recorder
      → IsHeard r addrs h
  unfolding connect_tcp
  hears-connect_tcp r recorder addrs h heard =
      subst (λ r'. IsHeard r' addrs h) (ap (λ k. record r { recorder = k }) (sym heard))
        (
          hears-effects c recorder r
                (Connect.tcp_connect {T = x.TcpStream} true o.now client.tcp_timeout addrs
                  o.picks).1
                h
              ∙ ap (λ l. record h { tcp = h.tcp ++ l })
                  (starts-tcp_connect o.now client.tcp_timeout addrs o.picks),
          λ t honest e. (
            t,
            tcp_connect-Reached t o.now client.tcp_timeout addrs o.picks honest
                (stop-settled c _ t e),
          ),
        )
