-- ===== src/Client/Handshake/Laws.antt =====
-- src/client.rs: what `tls_handshake` does.
use httptrace.Prelude.{
  ◌↔◌, ◌≡◌, ◌∙◌, sym, refl, map, false, unwrap_or, Result-cases, inl, inr, Option, none, some, List,
  [], Result, ok, arith, map_err, map_ok,
}
use httptrace.Recorder.{tls_start, tls_done}
use httptrace.Error.{Error, display}
use httptrace.Crates.{Crates}
use httptrace.Request.{Request}
use httptrace.Client.Builder.{Client, alpn_text}
use httptrace.Client.Async.{Event, Transport}
use httptrace.Client.Async.Order.{Phases, Phases-append, Phases-mono, Phases-told}
use httptrace.Client.Handshake.{
  TlsConfig, Connected, connected, web_pki, tls_handshake, tls_config, domain, connect_to,
  add_certs, shake, shaken,
}

module _ (c : Crates) (x : Transport c) (client : Client c) (r : Request c) where
  Phases-shaken :
      (ret : Option (Result x.TlsStream (Error c.foreign))) (es : List (Event c))
      → Phases 3 3 es
      → Phases 3 4 (shaken c x r ret es).0
  unfolding shaken
  Phases-shaken none es h = Phases-mono 3 3 4 es (omega arith) h
  Phases-shaken (some ret) es h =
      Phases-append 3 3 4 4 es _ (omega arith) (omega arith) (omega arith) h
        (Phases-told c r.recorder (tls_done (map_err display (map_ok x.protocol_version ret))))

  pub Phases-tls_handshake :
      (native : List x.Cert)
      (connect : TlsConfig c x → x.ServerName → Option (Connected c.foreign x.TlsStream))
      → Phases 3 4 (tls_handshake c x client r native connect).0
  unfolding tls_handshake
  Phases-tls_handshake native connect =
      Phases-shaken (shake c x client r native connect) _ (Phases-told c r.recorder tls_start)

  -- What the client and the request ask of a configuration and of the name to check against.
  abbrev pub IsSecured : TlsConfig c x → x.ServerName → Type 0
  IsSecured config name =
      ((config.verifier ≡ web_pki) ↔ (client.skip_tls_verify ≡ false))
      × (config.alpn_protocols ≡ map alpn_text (unwrap_or [] client.alpn_protocols))
      × (x.server_name (unwrap_or [] (c.http.host r.uri)) ≡ ok name)

  secured :
      (native : List x.Cert) (config : TlsConfig c x) (name : x.ServerName)
      → tls_config c x client native ≡ ok config
      → domain c x r ≡ ok name
      → IsSecured config name
  unfolding tls_config domain
  secured native config name h k = elim (Result-cases (add_certs c x native x.empty_store)) [
    | inr (e, n) ↦ absurd (ground arith)
    | inl (store, n) ↦ ((λ e. ground arith, λ e. ground arith), ground arith, ground arith)
  ]

  pub result-shaken :
      (ret : Option (Result x.TlsStream (Error c.foreign))) (es : List (Event c))
      → (shaken c x r ret es).1 ≡ ret
  unfolding shaken
  result-shaken none es = refl
  result-shaken (some ret) es = refl

  shake-IsSecured :
      (native : List x.Cert)
      (connect : TlsConfig c x → x.ServerName → Option (Connected c.foreign x.TlsStream))
      (s : x.TlsStream)
      → shake c x client r native connect ≡ some (ok s)
      → (config : TlsConfig c x) × (name : x.ServerName) × IsSecured config name
        × (connect config name ≡ some (connected s))
  unfolding shake
  shake-IsSecured native connect s h = elim (Result-cases (tls_config c x client native)) [
    | inr (e, n) ↦ absurd (unfold connect_to in ground arith)
    | inl (config, n) ↦ elim (Result-cases (domain c x r)) [
      | inr (e, m) ↦ absurd (unfold connect_to in ground arith)
      | inl (name, m) ↦
          (config, name, secured native config name n m, unfold connect_to in ground arith)
    ]
  ]

  -- If a handshake gives a stream, the peer was connected to with a configuration that checks
  -- certificates exactly if the client does not skip that and that offers exactly the client's
  -- protocols, for the name of the request's host.
  pub tls_handshake-IsSecured :
      (native : List x.Cert)
      (connect : TlsConfig c x → x.ServerName → Option (Connected c.foreign x.TlsStream))
      (s : x.TlsStream)
      → (tls_handshake c x client r native connect).1 ≡ some (ok s)
      → (config : TlsConfig c x) × (name : x.ServerName) × IsSecured config name
        × (connect config name ≡ some (connected s))
  unfolding tls_handshake
  tls_handshake-IsSecured native connect s h =
      shake-IsSecured native connect s (sym (result-shaken _ _) ∙ h)
