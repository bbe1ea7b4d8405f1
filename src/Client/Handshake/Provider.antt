-- ===== src/Client/Handshake/Provider.antt =====
-- src/client.rs: `ensure_crypto_provider`, which every TLS handshake calls first, with its `INIT`.
use httptrace.Prelude.{
  ◌≡◌, refl, Bool, true, false, Option, none, some, List, [], ◌∷◌, ◌++◌, if◌then◌else◌, unwrap_or,
  or_else, arith, Option-cases, Bool-cases, inl, inr, ◌∙◌, sym,
}

-- The process default of rustls: it is set at most once.
pub record Rustls : Type 1 where
  pub Process : Type 0
  pub CryptoProvider : Type 0
  -- `crypto::ring::default_provider()`
  pub ring : CryptoProvider
  -- `CryptoProvider::get_default()`, which `ClientConfig::builder()` asks
  pub get_default : Process → Option CryptoProvider
  pub install_default : CryptoProvider → Process → Process
  pub install_first :
      (p : CryptoProvider) (s : Process)
      → get_default s ≡ none
      → get_default (install_default p s) ≡ some p
  pub install_later :
      (p q : CryptoProvider) (s : Process)
      → get_default s ≡ some q
      → get_default (install_default p s) ≡ some q

module _ (k : Rustls) where
  -- Whether `INIT` is completed, and the process.
  pub record State : Type 0 where
    pub init : Bool
    pub process : k.Process

  -- `INIT.call_once`; that a provider is there already is no error.
  pub ensure_crypto_provider : State → State
  ensure_crypto_provider s =
      if s.init then s else record { init = true; process = k.install_default k.ring s.process }

  -- What happens in a process: the application installs a provider, or a TLS handshake begins.
  pub data Action : Type 0 where
    install : k.CryptoProvider → Action
    handshake : Action

  act : Action → State → State
  unfolding ensure_crypto_provider
  act (install p) s = record s { process = k.install_default p s.process }
  act handshake s = ensure_crypto_provider s

  pub run : List Action → State → State
  unfolding act
  run [] s = s
  run (a ∷ l) s = run l (act a s)

  -- The provider that a history sets, if the process had none.
  abbrev pub chosen : List Action → Option k.CryptoProvider
  chosen [] = none
  chosen (install p ∷ l) = some p
  chosen (handshake ∷ l) = some k.ring

  kept :
      (p : k.CryptoProvider) (l : List Action) (s : State)
      → k.get_default s.process ≡ some p
      → k.get_default (run l s).process ≡ some p
  unfolding run
  kept p [] s h = h
  kept p (install q ∷ l) s h = kept p l (act (install q) s) (k.install_later q p s.process h)
  kept p (handshake ∷ l) s h = kept p l (act handshake s) (elim (Bool-cases s.init) [
    | inl done ↦ rw done h
    | inr fresh ↦ rw fresh (k.install_later k.ring p s.process h)
  ])

  installed :
      (q : k.CryptoProvider) (s : k.Process)
      → k.get_default (k.install_default q s) ≡ or_else (k.get_default s) (some q)
  installed q s = elim (Option-cases (k.get_default s)) [
    | inl absent ↦ rw absent (k.install_first q s absent)
    | inr (p, there) ↦ rw there (k.install_later q p s there)
  ]

  or_else-some : (o : Option k.CryptoProvider) → or_else o (some k.ring) ≡ some (unwrap_or k.ring o)
  or_else-some none = refl
  or_else-some (some p) = refl

  chosen-handshake :
      (l more : List Action) → chosen (l ++ handshake ∷ more) ≡ some (unwrap_or k.ring (chosen l))
  chosen-handshake [] more = refl
  chosen-handshake (install p ∷ l) more = refl
  chosen-handshake (handshake ∷ l) more = refl

  provider-run :
      (l : List Action) (s : State)
      → s.init ≡ false
      → k.get_default (run l s).process ≡ or_else (k.get_default s.process) (chosen l)
  unfolding run
  provider-run [] s fresh = ground arith
  provider-run (install q ∷ l) s fresh =
      provider-run l (act (install q) s) fresh ∙ ground (arith, installed q s.process)
  provider-run (handshake ∷ l) s fresh =
      kept (unwrap_or k.ring (k.get_default s.process)) l (act handshake s)
        (rw fresh (installed k.ring s.process ∙ or_else-some (k.get_default s.process)))
      ∙ sym (or_else-some (k.get_default s.process))

  -- In a process in which no handshake has begun, the provider is the one that was there, or else
  -- the first that the application installed, or else, once a handshake has begun, ring's. So each
  -- handshake makes its configuration with a provider, and this provider never changes afterwards.
  pub provider_lem :
      (before after : List Action) (s : State)
      → s.init ≡ false
      → (k.get_default (run before s).process ≡ or_else (k.get_default s.process) (chosen before))
        × (k.get_default (run (before ++ handshake ∷ after) s).process
            ≡ some (unwrap_or (unwrap_or k.ring (chosen before)) (k.get_default s.process)))
  provider_lem before after s fresh = (
    provider-run before s fresh,
    provider-run (before ++ handshake ∷ after) s fresh
        ∙ ground (arith, chosen-handshake before after),
  )
