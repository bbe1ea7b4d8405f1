-- ===== src/IntoUri.antt =====
-- src/into_uri.rs: what a request may be made from.
use httptrace.Prelude.{
  Result-cases, Option-cases, none, Result, ok, err, map_err, ◌>>=◌, is_some, if◌then◌else◌, Text,
  ◌≡◌, ◌↔◌, true, inl, inr, arith, ◌⊎◌,
}
use httptrace.Error.{Foreign, Error, uri, host_required}
use httptrace.Crates.{Http}

module _ {f : Foreign} (h : Http f) where
  unfoldable pub uri_into_uri : h.Uri → Result h.Uri (Error f)
  uri_into_uri u = if is_some (h.host u) then ok u else err host_required

  -- The implementations for `&str`, `&String` and `String`, of which the last two call the first.
  unfoldable pub str_into_uri : Text → Result h.Uri (Error f)
  unfolding uri_into_uri
  str_into_uri s = do u ← map_err uri (h.parse_uri s); uri_into_uri u

  -- A text is accepted exactly if it parses to a URI with a host, and then it gives that URI; its
  -- only errors are the parser's and `HostRequired`, the latter exactly for a URI without a host.
  pub str_into_uri_lem :
      (s : Text)
      → ((u : h.Uri)
          → (str_into_uri s ≡ ok u) ↔ ((h.parse_uri s ≡ ok u) × (is_some (h.host u) ≡ true)))
        × ((e : Error f)
            → str_into_uri s ≡ err e
            → ((i : f.InvalidUri) × (h.parse_uri s ≡ err i) × (e ≡ uri i))
              ⊎ ((u : h.Uri) × (h.parse_uri s ≡ ok u) × (h.host u ≡ none) × (e ≡ host_required)))
  unfolding str_into_uri
  str_into_uri_lem s = (
    λ u. ground arith,
    λ e p. elim (Result-cases (h.parse_uri s)) [
      | inr (i, q) ↦ inl (i, q, ground arith)
      | inl (u, q) ↦ elim (Option-cases (h.host u)) [
        | inl none_there ↦ inr (u, q, none_there, ground arith)
        | inr (name, there) ↦ absurd (ground arith)
      ]
    ],
  )
