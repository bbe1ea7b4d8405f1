-- ===== src/Client/Send/Wire.antt =====
-- src/client.rs and src/request.rs: from a chain of calls on a request builder to the request that
-- `send` gives to hyper.
use httptrace.Prelude.{
  ◌↔◌, ◌≡◌, ◌≢◌, refl, ap, subst, ◌∙◌, false, none, some, List, ok, Bool-cases, Option-cases, inl,
  inr, arith, unwrap_or, All, All-mono, map_some,
}
use httptrace.Crates.{Crates}
use httptrace.Body
use httptrace.Body.{Body}
use httptrace.Request
use httptrace.Request.{Request, HttpRequest}
use httptrace.Request.Builder
use httptrace.Request.Builder.{Op, chain, build}
use httptrace.Request.Builder.Laws.{first_error}
use httptrace.Request.Builder.Chains.{
  last_of, body_of, version_of, headers_after, after_calls, chain-after_calls,
}
use httptrace.Client.Builder.{Client}
use httptrace.Client.Async.{Transport, plain_h1, Event, call, spawned, cancelled, sent}
use httptrace.Client.Execute.{Outside, set_headers}
use httptrace.Client.Execute.Headers.{set_headers-IsCompleted}
use httptrace.Client.Execute.Sending.{IsSent, execute-IsSent}
use httptrace.Client.Send.{request, send, send-chain}

module _ (c : Crates) where
  open c use {http}

  -- The second request is the first with headers added to it at most.
  record IsGrown (r r' : Request c) : Type 0 where
    same_rest : r' ≡ record r { headers = r'.headers }
    kept :
        (k : http.HeaderName) (v : http.HeaderValue)
        → http.get k r.headers ≡ some v
        → http.get k r'.headers ≡ some v
    only :
        (k : http.HeaderName)
        → http.host_name ≢ k
        → http.user_agent ≢ k
        → http.get k r'.headers ≡ http.get k r.headers

  set_headers-IsGrown :
      (client : Client c) (r r' : Request c) → set_headers c client r ≡ ok r' → IsGrown r r'
  unfolding set_headers
  set_headers-IsGrown client r r' e = elim (Bool-cases client.disable_auto_set_header) [
    | inl disabled ↦
        subst (IsGrown r) (ground arith)
          (record { same_rest = refl; kept = λ k v there. there; only = λ k _ _. refl })
    | inr enabled ↦
        let (host, there, completed, rest) = set_headers-IsCompleted c client r r' enabled e in
        record { same_rest = rest; kept = completed.kept; only = completed.only }
  ]

  into_http-ok :
      (r : Request c) (q : HttpRequest c)
      → Request.into_http r ≡ ok q
      → q ≡ record {
        method = r.method;
        uri = r.uri;
        version = r.version;
        body = unwrap_or Body.empty r.body;
        headers = r.headers;
      }
  unfolding Request.into_http
  into_http-ok r q e = ground arith

  module _ (method : http.Method) (uri : http.Uri) (os : List (Op c)) where
    -- What goes out for a request to `uri` after the calls `os`.
    pub record IsBuilt (q : HttpRequest c) : Type 0 where
      pub same_method : q.method ≡ method
      pub same_uri : q.uri ≡ uri
      pub last_version : q.version ≡ last_of version_of os http.default_version
      pub last_body :
          q.body ≡ unwrap_or Body.empty (last_of (λ o. map_some some (body_of o)) os none)
      pub kept_headers :
          (k : http.HeaderName) (v : http.HeaderValue)
          → http.get k (headers_after os http.empty_headers) ≡ some v
          → http.get k q.headers ≡ some v
      pub other_headers :
          (k : http.HeaderName)
          → http.host_name ≢ k
          → http.user_agent ≢ k
          → http.get k q.headers ≡ http.get k (headers_after os http.empty_headers)

    -- A request that goes out is the built one, in plain text exactly if `uri` is not of HTTPS.
    abbrev pub IsWired : Event c → Type 0
    IsWired (sent channel q) = ((channel ≡ plain_h1) ↔ (http.is_https uri ≡ false)) × IsBuilt q
    IsWired _ = Unit

    into_http-IsBuilt :
        (r' : Request c) (q : HttpRequest c)
        → IsGrown (after_calls os (Request.new method uri)) r'
        → Request.into_http r' ≡ ok q
        → IsBuilt q
    unfolding Request.new
    into_http-IsBuilt r' q g e =
        let same = into_http-ok r' q e in
        let rest = g.same_rest in
        let headers = ap (λ (p : HttpRequest c). p.headers) same in
        record {
          same_method =
              ap (λ (p : HttpRequest c). p.method) same ∙ ap (λ (p : Request c). p.method) rest;
          same_uri = ap (λ (p : HttpRequest c). p.uri) same ∙ ap (λ (p : Request c). p.uri) rest;
          last_version =
              ap (λ (p : HttpRequest c). p.version) same ∙ ap (λ (p : Request c). p.version) rest;
          last_body =
              ap (λ (p : HttpRequest c). p.body) same
              ∙ ap (λ (p : Request c). unwrap_or Body.empty p.body) rest;
          kept_headers = λ k v there. ap (http.get k) headers ∙ g.kept k v there;
          other_headers = λ k n n'. ap (http.get k) headers ∙ g.only k n n';
        }

  module _ (x : Transport c) (client : Client c) (method : http.Method) (uri : http.Uri)
      (os : List (Op c)) (o : Outside c x) where
    wired :
        (e : Event c)
        → IsSent c x o client (after_calls os (Request.new method uri)) e
        → IsWired method uri os e
    unfolding Request.new
    wired (sent channel q) (secure, r', e, h) =
        (secure, into_http-IsBuilt method uri os r' q (set_headers-IsGrown client _ r' e) h)
    wired (call k) h = tt
    wired (spawned a) h = tt
    wired cancelled h = tt

    pub new_request : (request c client method (ok uri)).request ≡ ok (Request.new method uri)
    unfolding request Builder.new
    new_request = refl

    pub send-IsWired :
        All (IsWired method uri os) (send c x (chain os (request c client method (ok uri))) o).0
    send-IsWired = elim (Option-cases (first_error os)) [
      | inr (e, left) ↦
          let (never, _) = send-chain c x client method (ok uri) os o in rw (never e left) tt
      | inl good ↦
          let (_, executed) = send-chain c x client method (ok uri) os o in
          let (r, built, same) = executed good in
          let made : r ≡ after_calls os (Request.new method uri) = ground (
            arith,
            chain-after_calls os (request c client method (ok uri)) (Request.new method uri)
                new_request good,
          ) in
          rw (same, made)
            (All-mono wired _
              (execute-IsSent c x client (after_calls os (Request.new method uri)) o).0)
    ]
