-- ===== src/Tests/Request.antt =====
-- src/request.rs, src/into_uri.rs and src/util.rs on one request.
use httptrace.Prelude.{
  ℕ, ◌≡◌, ◌↔◌, ◌⊎◌, refl, true, false, none, some, List, [], ◌∷◌, ok, err, is_some, codes, ◌++◌,
}
use httptrace.Error.{Error, uri, host_required}
use httptrace.Body.{reusable, streaming}
use httptrace.Request
use httptrace.Request.{Request}
use httptrace.Request.Clone.{try_clone_lem}
use httptrace.Request.Builder
use httptrace.Request.Builder.{RequestBuilder, Op, bearer_op, header_op, timeout_op}
use httptrace.Request.Builder.Headers.{basic_auth_header}
use httptrace.IntoUri.{str_into_uri, str_into_uri_lem}
use httptrace.Tests.Fixtures.{foreign, http, base64, crates, Uri}

abbrev address : Uri
address = record { host = some (codes "a.example"); port = some 8080; https = false }

abbrev post : Request crates
post = record {
  method = 1;
  uri = address;
  headers = http.empty_headers;
  body = some (reusable (1 ∷ 2 ∷ []));
  timeout = some 30;
  version = 11;
  recorder = some 4;
}

abbrev builder : RequestBuilder crates ℕ
builder = record { client = 0; request = ok post }

clone_example :
    ((Request.try_clone post ≡ none) ↔ ((s : List (List ℕ)) × (post.body ≡ some (streaming s))))
    × ((q : Request crates)
        → Request.try_clone post ≡ some q
        → (Request.into_http q ≡ Request.into_http post)
          × (Request.port q ≡ Request.port post)
          × (q.timeout ≡ post.timeout)
          × (q.recorder ≡ none))
clone_example = try_clone_lem post

basic_auth_header_example :
    (b' : RequestBuilder crates ℕ) × (q : Request crates) × (v : http.HeaderValue)
    × (Builder.basic_auth (codes "u") (some (codes "p")) builder ≡ some b')
    × (Builder.build b' ≡ ok q)
    × (q ≡ record post { headers = q.headers })
    × (http.get http.authorization q.headers ≡ some (http.set_sensitive true v))
    × (v ≡ http.set_sensitive true (http.value_of (codes "Basic " ++ base64.encode (codes "u:p"))))
    × (http.is_sensitive (http.set_sensitive true v) ≡ true)
basic_auth_header_example = basic_auth_header builder post (codes "u") (some (codes "p")) refl refl

into_uri_example :
    ((u : Uri)
      → (str_into_uri http (codes "a") ≡ ok u)
        ↔ ((http.parse_uri (codes "a") ≡ ok u) × (is_some (http.host u) ≡ true)))
    × ((e : Error foreign)
        → str_into_uri http (codes "a") ≡ err e
        → ((i : Unit {0}) × (http.parse_uri (codes "a") ≡ err i) × (e ≡ uri i))
          ⊎ ((u : Uri) × (http.parse_uri (codes "a") ≡ ok u)
              × (http.host u ≡ none)
              × (e ≡ host_required)))
into_uri_example = str_into_uri_lem http (codes "a")
