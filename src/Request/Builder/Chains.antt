-- ===== src/Request/Builder/Chains.antt =====
-- src/request.rs: the request that a chain of calls on a `RequestBuilder` builds.
use httptrace.Prelude.{
  ◌≡◌, Option, none, some, List, [], ◌∷◌, ok, err, unwrap_or, map_some, true, ℕ, arith,
}
use httptrace.Crates.{Crates}
use httptrace.Body.{Body}
use httptrace.Request.{Request}
use httptrace.Request.Builder.{
  RequestBuilder, Name, Value, Op, headers_op, header_op, bearer_op, body_op, timeout_op,
  version_op, recorder_op, apply, chain, build, bearer_value,
}
use httptrace.Request.Builder.Laws.{op_error, first_error}

module _ (c : Crates) where
  abbrev added : Name c → Value c → c.http.HeaderMap → c.http.HeaderMap
  added (ok key) (ok value) m = c.http.append key value m
  added _ _ m = m

  abbrev marked : Value c → Value c
  marked (ok value) = ok (c.http.set_sensitive true value)
  marked (err e) = err e

module _ {c : Crates} where
  open c use {http}

  abbrev pub body_of : Op c → Option (Body c)
  body_of (body_op x) = some x
  body_of _ = none

  abbrev pub timeout_of : Op c → Option ℕ
  timeout_of (timeout_op t) = some t
  timeout_of _ = none

  abbrev pub version_of : Op c → Option http.Version
  version_of (version_op v) = some v
  version_of _ = none

  abbrev pub recorder_of : Op c → Option c.Recorder
  recorder_of (recorder_op x) = some x
  recorder_of _ = none

  -- What the last call gives that gives any, or else the value before.
  abbrev pub last_of : {A : Type 0} → (Op c → Option A) → List (Op c) → A → A
  last_of f [] a = a
  last_of f (o ∷ os) a = last_of f os (unwrap_or a (f o))

  abbrev headers_change : Op c → http.HeaderMap → http.HeaderMap
  headers_change (headers_op m') m = m'
  headers_change (header_op key value) m = added c key value m
  headers_change (bearer_op token) m =
      added c (ok http.authorization) (marked c (bearer_value c token)) m
  headers_change _ m = m

  -- The headers: each call of `headers` puts a map in the place of what was there, and each header
  -- is appended.
  abbrev pub headers_after : List (Op c) → http.HeaderMap → http.HeaderMap
  headers_after [] m = m
  headers_after (o ∷ os) m = headers_after os (headers_change o m)

  -- What calls without an error make of a request.
  abbrev pub after_calls : List (Op c) → Request c → Request c
  after_calls os r = record {
    method = r.method;
    uri = r.uri;
    headers = headers_after os r.headers;
    body = last_of (λ o. map_some some (body_of o)) os r.body;
    timeout = last_of (λ o. map_some some (timeout_of o)) os r.timeout;
    version = last_of version_of os r.version;
    recorder = last_of (λ o. map_some some (recorder_of o)) os r.recorder;
  }

module _ {c : Crates} {Client : Type 0} where
  apply_calls :
      (o : Op c) (b : RequestBuilder c Client) (r : Request c)
      → b.request ≡ ok r
      → op_error o ≡ none
      → (apply o b).request ≡ ok (after_calls (o ∷ []) r)
  unfolding apply
  apply_calls (headers_op m) b r e h = ground arith
  apply_calls (header_op (ok key) (ok value)) b r e h = ground arith
  apply_calls (header_op (ok key) (err i)) b r e h = absurd (ground arith)
  apply_calls (header_op (err i) value) b r e h = absurd (ground arith)
  apply_calls (bearer_op token) b r e h = ground arith
  apply_calls (body_op x) b r e h = ground arith
  apply_calls (timeout_op t) b r e h = ground arith
  apply_calls (version_op v) b r e h = ground arith
  apply_calls (recorder_op x) b r e h = ground arith

  pub chain-after_calls :
      (os : List (Op c)) (b : RequestBuilder c Client) (r : Request c)
      → b.request ≡ ok r
      → first_error os ≡ none
      → build (chain os b) ≡ ok (after_calls os r)
  unfolding chain build
  chain-after_calls [] b r e h = e
  chain-after_calls (o ∷ os) b r e h =
      chain-after_calls os (apply o b) (after_calls (o ∷ []) r) (apply_calls o b r e (ground arith))
        (ground arith)
