-- ===== src/Request/Builder.antt =====
-- src/request.rs: `RequestBuilder`. The conversions of a header's name and value have been made, or
-- have failed with an `http::Error`; they have no effect of their own.
pub mod Headers
pub mod Laws
pub mod Chains
use httptrace.Prelude.{
  ℕ, Bool, true, false, Option, none, some, List, [], ◌∷◌, Result, ok, err, if◌then◌else◌, Text,
  codes, ◌++◌, map_ok, map_err, map_some, and_then, to_ok,
}
use httptrace.Error.{Error, http}
use httptrace.Crates.{Crates}
use httptrace.Body.{Body}
use httptrace.Request
use httptrace.Request.{Request}
use httptrace.Util

-- `Client` is the type of clients, which the builder only holds.
pub record RequestBuilder (c : Crates) (Client : Type 0) : Type 0 where
  pub client : Client
  pub request : Result (Request c) (Error c.foreign)

module _ (c : Crates) where
  abbrev pub Name : Type 0
  Name = Result c.http.HeaderName c.foreign.HttpError

  abbrev pub Value : Type 0
  Value = Result c.http.HeaderValue c.foreign.HttpError

  -- What is written to the header map, or the error that takes the request's place.
  appended : Name → Value → Bool → Request c → Result (Request c) (Error c.foreign)
  unfolding Request.headers_mut
  appended (ok key) (ok value) sensitive r =
      let marked = if sensitive then c.http.set_sensitive true value else value in
      ok (Request.headers_mut (c.http.append key marked) r)
  appended (ok key) (err e) sensitive r = err (http e)
  appended (err e) value sensitive r = err (http e)

  -- The body of the methods that begin with `if let Ok(ref mut req) = self.request`.
  abbrev on_request :
      (Request c → Result (Request c) (Error c.foreign))
      → Result (Request c) (Error c.foreign)
      → Result (Request c) (Error c.foreign)
  on_request f (ok r) = f r
  on_request f (err e) = err e

  pub bearer_value : Text → Value
  bearer_value token = map_err c.http.invalid_value (c.http.parse_value (codes "Bearer " ++ token))

module _ {c : Crates} {Client : Type 0} where
  unfoldable pub new : Client → Result (Request c) (Error c.foreign) → RequestBuilder c Client
  new client request = record { client = client; request = request }

  pub from_parts : Client → Request c → RequestBuilder c Client
  from_parts client request = record { client = client; request = ok request }

  pub header_sensitive : Name c → Value c → Bool → RequestBuilder c Client → RequestBuilder c Client
  unfolding appended
  header_sensitive key value sensitive b = record b {
    request = on_request c (appended c key value sensitive) b.request;
  }

  pub header : Name c → Value c → RequestBuilder c Client → RequestBuilder c Client
  unfolding header_sensitive
  header key value b = header_sensitive key value false b

  pub headers : c.http.HeaderMap → RequestBuilder c Client → RequestBuilder c Client
  unfolding Request.headers_mut
  headers m b = record b {
    request = on_request c (λ r. ok (Request.headers_mut (λ _. m) r)) b.request;
  }

  -- The value is made first, also where the request is an error; `none` is its panic.
  pub basic_auth : Text → Option Text → RequestBuilder c Client → Option (RequestBuilder c Client)
  unfolding header_sensitive
  basic_auth username password b =
      map_some (λ v. header_sensitive (ok c.http.authorization) (ok v) true b)
        (Util.basic_auth c username password)

  pub bearer_auth : Text → RequestBuilder c Client → RequestBuilder c Client
  unfolding header_sensitive bearer_value
  bearer_auth token b = header_sensitive (ok c.http.authorization) (bearer_value c token) true b

  pub body : Body c → RequestBuilder c Client → RequestBuilder c Client
  unfolding Request.body_mut
  body x b = record b {
    request = on_request c (λ r. ok (Request.body_mut (λ _. some x) r)) b.request;
  }

  pub timeout : ℕ → RequestBuilder c Client → RequestBuilder c Client
  unfolding Request.timeout_mut
  timeout t b = record b {
    request = on_request c (λ r. ok (Request.timeout_mut (λ _. some t) r)) b.request;
  }

  pub version : c.http.Version → RequestBuilder c Client → RequestBuilder c Client
  version v b = record b { request = on_request c (λ r. ok (record r { version = v })) b.request }

  pub recorder : c.Recorder → RequestBuilder c Client → RequestBuilder c Client
  recorder x b = record b {
    request = on_request c (λ r. ok (record r { recorder = some x })) b.request;
  }

  unfoldable pub build : RequestBuilder c Client → Result (Request c) (Error c.foreign)
  build b = b.request

  pub build_split : RequestBuilder c Client → Client × Result (Request c) (Error c.foreign)
  build_split b = (b.client, b.request)

  pub try_clone : RequestBuilder c Client → Option (RequestBuilder c Client)
  try_clone b =
      map_some (λ r. record { client = b.client; request = ok r })
        (and_then Request.try_clone (to_ok b.request))

-- One call on a builder. (`basic_auth` is apart, since it can panic.)
pub data Op (c : Crates) : Type 0 where
  headers_op : c.http.HeaderMap → Op c
  header_op : Name c → Value c → Op c
  bearer_op : Text → Op c
  body_op : Body c → Op c
  timeout_op : ℕ → Op c
  version_op : c.http.Version → Op c
  recorder_op : c.Recorder → Op c

module _ {c : Crates} {Client : Type 0} where
  pub apply : Op c → RequestBuilder c Client → RequestBuilder c Client
  unfolding header headers bearer_auth body timeout version recorder
  apply (headers_op m) b = headers m b
  apply (header_op key value) b = header key value b
  apply (bearer_op token) b = bearer_auth token b
  apply (body_op x) b = body x b
  apply (timeout_op t) b = timeout t b
  apply (version_op v) b = version v b
  apply (recorder_op x) b = recorder x b

  -- A chain of calls.
  pub chain : List (Op c) → RequestBuilder c Client → RequestBuilder c Client
  chain [] b = b
  chain (o ∷ os) b = chain os (apply o b)
