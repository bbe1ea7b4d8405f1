-- ===== src/Util.antt =====
-- src/util.rs: the header of HTTP basic authentication. A user name and a password enter as the
-- bytes that they print.
use httptrace.Prelude.{
  true, All, All-append, ◌≡◌, refl, sym, ap, unwrap_or, [], Option, none, some, ok, err, ◌++◌, Text,
  codes,
}
use mathlib.Core.List.{append-nil}
use httptrace.Crates.{Crates, IsVisible}
use httptrace.Prelude.{arith}

-- What the encoder is given.
abbrev pub credentials : Text → Option Text → Text
credentials username none = username ++ codes ":"
credentials username (some password) = (username ++ codes ":") ++ password

module _ (c : Crates) where
  abbrev pub basic_bytes : Text → Option Text → Text
  basic_bytes username password = codes "Basic " ++ c.base64.encode (credentials username password)

  -- `none` is the panic of `expect`.
  unfoldable pub basic_auth : Text → Option Text → Option c.http.HeaderValue
  basic_auth username password = elim (c.http.parse_value (basic_bytes username password)) [
    | ok header ↦ some (c.http.set_sensitive true header)
    | err e ↦ none
  ]

  -- The header's text: the user name and the password, if any, with a colon between them, encoded.
  basic_bytes_lem :
      (u : Text) (p : Option Text)
      → basic_bytes u p ≡ codes "Basic " ++ c.base64.encode (u ++ codes ":" ++ unwrap_or [] p)
  basic_bytes_lem u none =
      ap (λ l. codes "Basic " ++ c.base64.encode l) (sym (append-nil (u ++ codes ":")))
  basic_bytes_lem u (some p) = refl

  basic_bytes-IsVisible : (u : Text) (p : Option Text) → All IsVisible (basic_bytes u p)
  basic_bytes-IsVisible u p =
      All-append IsVisible (codes "Basic ") _ (omega arith)
        (c.base64.encode_visible (credentials u p))

  -- Basic authentication never panics: base64 is visible, and so is a valid header value. The value
  -- holds the encoded credentials and is marked as sensitive.
  pub basic_auth_lem :
      (username : Text) (password : Option Text)
      → (v : c.http.HeaderValue) × (basic_auth username password ≡ some v)
        × (v
            ≡ c.http.set_sensitive true (
                c.http.value_of (
                  codes "Basic "
                  ++ c.base64.encode (username ++ codes ":" ++ unwrap_or [] password))))
        × (c.http.is_sensitive v ≡ true)
  unfolding basic_auth
  basic_auth_lem username password = (
    c.http.set_sensitive true (c.http.value_of (basic_bytes username password)),
    rw (c.http.parse_visible _ (basic_bytes-IsVisible username password), basic_auth),
    ap (λ l. c.http.set_sensitive true (c.http.value_of l)) (basic_bytes_lem username password),
    c.http.is_sensitive_set true _,
  )
