-- ===== src/Tests/Provider.antt =====
-- src/client.rs, `ensure_crypto_provider`, where the process default is a number.
use httptrace.Prelude.{ℕ, ◌≡◌, refl, Option, none, some, [], ◌∷◌, false, arith}
use httptrace.Client.Handshake.Provider.{Rustls, State, install, handshake, run, provider_lem}

abbrev installed : ℕ → Option ℕ → Option ℕ
installed p none = some p
installed p (some q) = some q

first_installed : (p : ℕ) (s : Option ℕ) → s ≡ none → installed p s ≡ some p
first_installed p none h = refl
first_installed p (some q) h = absurd (ground arith)

later_installed : (p q : ℕ) (s : Option ℕ) → s ≡ some q → installed p s ≡ some q
later_installed p q none h = absurd (ground arith)
later_installed p q (some i) h = h

abbrev rustls : Rustls
rustls = record {
  Process = Option ℕ;
  CryptoProvider = ℕ;
  ring = 1;
  get_default = λ s. s;
  install_default = installed;
  install_first = first_installed;
  install_later = later_installed;
}

abbrev fresh : State rustls
fresh = record { init = false; process = none }

-- The application installs a provider before the first handshake, and another one after it.
provider_example :
    ((run rustls (install 5 ∷ []) fresh).process ≡ some 5)
    × ((run rustls (install 5 ∷ handshake ∷ install 7 ∷ []) fresh).process ≡ some 5)
provider_example = provider_lem rustls (install 5 ∷ []) (install 7 ∷ []) fresh refl
