-- ===== src/Client/Handshake/Failing.antt =====
-- src/client.rs: the errors of `tls_handshake`.
use mathlib.Core.List.{Memᴰ}
use httptrace.Prelude.{
  ◌≡◌, ◌∙◌, sym, subst, refl, inl, inr, Option, none, some, List, [], ◌∷◌, ok, err, arith,
  unwrap_or, Result-cases,
}
use httptrace.Error.{Error, timeout, io, rustls, invalid_dns_name}
use httptrace.Crates.{Crates}
use httptrace.Request.{Request}
use httptrace.Client.Builder.{Client}
use httptrace.Client.Async.{Transport}
use httptrace.Client.Handshake.{
  TlsConfig, Connected, elapsed, failed, connected, tls_handshake, tls_config, domain, connect_to,
  add_certs, shake,
}
use httptrace.Client.Handshake.Laws.{result-shaken}

module _ (c : Crates) (x : Transport c) (r : Request c) (native : List x.Cert)
    (connect : TlsConfig c x → x.ServerName → Option (Connected c.foreign x.TlsStream)) where
  -- What makes a handshake fail with an error.
  abbrev pub Fails : Error c.foreign → Type 0
  Fails (rustls i) =
      (cert : x.Cert) × (store : x.RootCertStore) × Memᴰ cert native × (x.add cert store ≡ err i)
  Fails (invalid_dns_name i) = x.server_name (unwrap_or [] (c.http.host r.uri)) ≡ err i
  Fails (timeout i) =
      (config : TlsConfig c x) × (name : x.ServerName) × (connect config name ≡ some (elapsed i))
  Fails (io i) =
      (config : TlsConfig c x) × (name : x.ServerName) × (connect config name ≡ some (failed i))
  Fails _ = ⊥

  add_certs-Fails :
      (certs : List x.Cert) (store : x.RootCertStore) (e : Error c.foreign)
      → ((cert : x.Cert) → Memᴰ cert certs → Memᴰ cert native)
      → add_certs c x certs store ≡ err e
      → Fails e
  unfolding add_certs
  add_certs-Fails [] store e w h = absurd (ground arith)
  add_certs-Fails (cert ∷ certs) store e w h = elim (Result-cases (x.add cert store)) [
    | inr (i, refused) ↦
        let same : rustls i ≡ e = ground arith in
        subst Fails same (cert, store, w cert (Memᴰ.head refl), refused)
    | inl (store', added) ↦ add_certs-Fails certs store' e (λ k m. w k (Memᴰ.tail m)) (ground arith)
  ]

  answer-Fails :
      (config : TlsConfig c x) (name : x.ServerName) (o : Option (Connected c.foreign x.TlsStream))
      (e : Error c.foreign)
      → connect config name ≡ o
      → connect_to c x connect (ok (config, name)) ≡ some (err e)
      → Fails e
  unfolding connect_to
  answer-Fails config name none e a h = absurd (ground arith)
  answer-Fails config name (some (connected s)) e a h = absurd (ground arith)
  answer-Fails config name (some (elapsed i)) e a h =
      let same : timeout i ≡ e = unfold connect_to in ground (arith, a, h) in
      subst Fails same (config, name, a)
  answer-Fails config name (some (failed i)) e a h =
      let same : io i ≡ e = unfold connect_to in ground (arith, a, h) in
      subst Fails same (config, name, a)

  tls_config-Fails :
      (client : Client c) (e : Error c.foreign) → tls_config c x client native ≡ err e → Fails e
  unfolding tls_config
  tls_config-Fails client e h = elim (Result-cases (add_certs c x native x.empty_store)) [
    | inl (store, n) ↦ absurd (ground arith)
    | inr (i, n) ↦ add_certs-Fails native x.empty_store e (λ k m. m) (ground arith)
  ]

  domain-Fails : (e : Error c.foreign) → domain c x r ≡ err e → Fails e
  unfolding domain
  domain-Fails e h = elim (Result-cases (x.server_name (unwrap_or [] (c.http.host r.uri)))) [
    | inl (name, n) ↦ absurd (ground arith)
    | inr (i, n) ↦ let same : invalid_dns_name i ≡ e = ground arith in subst Fails same n
  ]

  shake-Fails :
      (client : Client c) (e : Error c.foreign)
      → shake c x client r native connect ≡ some (err e)
      → Fails e
  unfolding shake
  shake-Fails client e h = elim (Result-cases (tls_config c x client native)) [
    | inr (i, n) ↦ tls_config-Fails client e (unfold connect_to in ground arith)
    | inl (config, n) ↦ elim (Result-cases (domain c x r)) [
      | inr (i, m) ↦ domain-Fails e (unfold connect_to in ground arith)
      | inl (name, m) ↦ answer-Fails config name _ e refl (ground arith)
    ]
  ]

  pub tls_handshake-Fails :
      (client : Client c) (e : Error c.foreign)
      → (tls_handshake c x client r native connect).1 ≡ some (err e)
      → Fails e
  unfolding tls_handshake
  tls_handshake-Fails client e h = shake-Fails client e (sym (result-shaken c x client r _ _) ∙ h)
