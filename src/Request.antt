-- ===== src/Request.antt =====
-- src/request.rs: `Request` with its accessors, and its conversion into the request that hyper
-- sends. The methods `method`, `uri`, `headers`, `body`, `timeout`, `version` and `recorder` are the
-- fields.
pub mod Clone
pub mod Builder
use httptrace.Prelude.{
  ℕ, Bool, Option, none, some, Result, ok, err, ◌>>=◌, if◌then◌else◌, unwrap_or, Text,
}
use httptrace.Error.{Error, http}
use httptrace.Crates.{Crates}
use httptrace.Body
use httptrace.Body.{Body}

pub record Request (c : Crates) : Type 0 where
  pub method : c.http.Method
  pub uri : c.http.Uri
  pub headers : c.http.HeaderMap
  pub body : Option (Body c)
  pub timeout : Option ℕ
  pub version : c.http.Version
  pub recorder : Option c.Recorder

-- `http::Request<Body>`
pub record HttpRequest (c : Crates) : Type 0 where
  pub method : c.http.Method
  pub uri : c.http.Uri
  pub headers : c.http.HeaderMap
  pub body : Body c
  pub version : c.http.Version

module _ {c : Crates} where
  -- `Request::new`
  unfoldable pub new : c.http.Method → c.http.Uri → Request c
  new method uri = record {
    method = method;
    uri = uri;
    headers = c.http.empty_headers;
    body = none;
    timeout = none;
    version = c.http.default_version;
    recorder = none;
  }

  -- What a mutable reference is used for is a function on what it refers to.
  unfoldable pub method_mut : (c.http.Method → c.http.Method) → Request c → Request c
  method_mut f r = record r { method = f r.method }

  unfoldable pub uri_mut : (c.http.Uri → c.http.Uri) → Request c → Request c
  uri_mut f r = record r { uri = f r.uri }

  unfoldable pub headers_mut : (c.http.HeaderMap → c.http.HeaderMap) → Request c → Request c
  headers_mut f r = record r { headers = f r.headers }

  unfoldable pub body_mut : (Option (Body c) → Option (Body c)) → Request c → Request c
  body_mut f r = record r { body = f r.body }

  unfoldable pub timeout_mut : (Option ℕ → Option ℕ) → Request c → Request c
  timeout_mut f r = record r { timeout = f r.timeout }

  unfoldable pub version_mut : (c.http.Version → c.http.Version) → Request c → Request c
  version_mut f r = record r { version = f r.version }

  unfoldable pub port : Request c → ℕ
  port r = unwrap_or (if c.http.is_https r.uri then 443 else 80) (c.http.port_u16 r.uri)

  -- `self.body.as_ref()`, with the `?` on its clone: the outer `none` is the early return.
  clone_body : Option (Body c) → Option (Option (Body c))
  clone_body none = some none
  clone_body (some b) = elim (Body.try_clone b) [ none ↦ none | some b' ↦ some (some b') ]

  clone_with : Request c → Option (Option (Body c)) → Option (Request c)
  unfolding new headers_mut timeout_mut version_mut
  clone_with r none = none
  clone_with r (some body) =
      let timed = timeout_mut (λ _. r.timeout) (new r.method r.uri) in
      let headed = headers_mut (λ _. r.headers) timed in
      some (record (version_mut (λ _. r.version) headed) { body = body })

  unfoldable pub try_clone : Request c → Option (Request c)
  unfolding clone_body clone_with
  try_clone r = clone_with r (clone_body r.body)

  -- `TryFrom<Request> for HttpRequest<Body>`; the builder's own headers are replaced.
  unfoldable pub into_http : Request c → Result (HttpRequest c) (Error c.foreign)
  into_http r = elim (c.http.builder_error r.method r.uri r.version) [
    | some e ↦ err (http e)
    | none ↦ ok (record {
      method = r.method;
      uri = r.uri;
      version = r.version;
      body = unwrap_or Body.empty r.body;
      headers = r.headers;
    })
  ]
