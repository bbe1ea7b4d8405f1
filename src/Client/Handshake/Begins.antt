-- ===== src/Client/Handshake/Begins.antt =====
-- src/client.rs: a TLS handshake that is stopped before the peer answers.
use httptrace.Prelude.{
  ◌≡◌, Option-cases, sym, ◌∙◌, arith, ok, inl, inr, refl, ap, Option, none, some, List, Result, ok,
  err,
}
use httptrace.Error.{Error}
use httptrace.Crates.{Crates}
use httptrace.Request.{Request}
use httptrace.Client.Builder.{Client}
use httptrace.Client.Async.{Event, Transport}
use httptrace.Client.Async.Begins.{Awaited, Begins}
use httptrace.Client.Handshake.Laws.{result-shaken}
use httptrace.Client.Handshake.{TlsConfig, Connected, tls_handshake, connect_to, shake, shaken}

module _ (c : Crates) (x : Transport c) where
  -- What a peer makes of a configuration and a name.
  abbrev Peer : Type 0
  Peer = TlsConfig c x → x.ServerName → Option (Connected c.foreign x.TlsStream)

  Begins-shaken :
      (r : Request c) (es : List (Event c))
      (ret ret' : Option (Result x.TlsStream (Error c.foreign)))
      → Awaited ret ret'
      → Begins (shaken c x r ret es) (shaken c x r ret' es)
  unfolding shaken
  Begins-shaken r es ret ret' (inr e) = inl (ap (λ k. shaken c x r k es) e)
  Begins-shaken r es ret none (inl e) = rw e (inl refl)
  Begins-shaken r es ret (some k) (inl e) = rw e (inr (refl, _, refl))

  Awaited-connect_to :
      (connect connect' : Peer)
      → ((config : TlsConfig c x) (name : x.ServerName)
          → Awaited (connect config name) (connect' config name))
      → (asked : Result (TlsConfig c x × x.ServerName) (Error c.foreign))
      → Awaited (connect_to c x connect asked) (connect_to c x connect' asked)
  unfolding connect_to
  Awaited-connect_to connect connect' h (err e) = inr refl
  Awaited-connect_to connect connect' h (ok (config, name)) = elim (h config name) [
    | inl e ↦ rw (connect_to, e) (inl refl)
    | inr e ↦ rw (connect_to, e) (inr refl)
  ]

  pub Begins-tls_handshake :
      (client : Client c) (r : Request c) (native : List x.Cert) (connect connect' : Peer)
      → ((config : TlsConfig c x) (name : x.ServerName)
          → Awaited (connect config name) (connect' config name))
      → Begins
          (tls_handshake c x client r native connect)
          (tls_handshake c x client r native connect')
  unfolding tls_handshake shake
  Begins-tls_handshake client r native connect connect' h =
      Begins-shaken r _ _ _ (Awaited-connect_to connect connect' h _)

  waits-connect_to :
      (connect : Peer) (asked : Result (TlsConfig c x × x.ServerName) (Error c.foreign))
      → connect_to c x connect asked ≡ none
      → (config : TlsConfig c x) × (name : x.ServerName) × (connect config name ≡ none)
  unfolding connect_to
  waits-connect_to connect (err e) h = absurd (ground arith)
  waits-connect_to connect (ok (config, name)) h = elim (Option-cases (connect config name)) [
    | inl e ↦ (config, name, e)
    | inr (a, e) ↦ absurd (unfold connect_to in ground arith)
  ]

  -- A TLS handshake waits for nothing but the peer.
  pub waits-tls_handshake :
      (client : Client c) (r : Request c) (native : List x.Cert) (connect : Peer)
      → (tls_handshake c x client r native connect).1 ≡ none
      → (config : TlsConfig c x) × (name : x.ServerName) × (connect config name ≡ none)
  unfolding tls_handshake shake
  waits-tls_handshake client r native connect h =
      waits-connect_to connect _ (sym (result-shaken c x client r _ _) ∙ h)
