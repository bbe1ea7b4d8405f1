-- ===== src/Client/Execute/Headers.antt =====
-- src/client.rs, `execute`: the headers that it sets on its own.
use httptrace.Prelude.{
  ◌≡◌, ◌≢◌, refl, sym, subst, ◌∙◌, ap, false, none, some, ok, arith, Option-cases, Result-cases,
  inl, inr, Text,
}
use httptrace.Crates.{Crates}
use httptrace.Request.{Request}
use httptrace.Client.Builder.{Client}
use httptrace.Client.Execute.{set_headers, auto_headers, with_host, with_user_agent, mozilla}

module _ (c : Crates) where
  open c use {http}

  -- The second map is the first with the header `k` filled in, if it was absent, by a value with `P`.
  record IsFilled (k : http.HeaderName) (P : http.HeaderValue → Type 0) (m m' : http.HeaderMap)
      : Type 0 where
    kept :
        (j : http.HeaderName) (w : http.HeaderValue)
        → http.get j m ≡ some w
        → http.get j m' ≡ some w
    only : (j : http.HeaderName) → k ≢ j → http.get j m' ≡ http.get j m
    filled : http.get k m ≡ none → (v : http.HeaderValue) × P v × (http.get k m' ≡ some v)

  insert-IsFilled :
      (k : http.HeaderName) (P : http.HeaderValue → Type 0) (v : http.HeaderValue)
      (m : http.HeaderMap)
      → P v
      → http.get k m ≡ none
      → IsFilled k P m (http.insert k v m)
  insert-IsFilled k P v m p absent = record {
    kept = λ j w e. http.get_insert_ne k j v m (λ same. cc) ∙ e;
    only = λ j n. http.get_insert_ne k j v m n;
    filled = λ _. (v, p, http.get_insert_self k v m);
  }

  same-IsFilled :
      (k : http.HeaderName) (P : http.HeaderValue → Type 0) (w : http.HeaderValue)
      (m : http.HeaderMap)
      → http.get k m ≡ some w
      → IsFilled k P m m
  same-IsFilled k P w m there = record {
    kept = λ j w e. e;
    only = λ j n. refl;
    filled = λ absent. absurd (ground arith);
  }

  with_host-IsFilled :
      (host : Text) (r r' : Request c)
      → with_host c host r ≡ ok r'
      → IsFilled http.host_name (λ v. http.parse_value host ≡ ok v) r.headers r'.headers
  unfolding with_host
  with_host-IsFilled host r r' e = elim (Option-cases (http.get http.host_name r.headers)) [
    | inr (w, there) ↦
        subst (IsFilled _ _ r.headers) (ground arith)
          (same-IsFilled http.host_name (λ v. http.parse_value host ≡ ok v) w r.headers there)
    | inl absent ↦ elim (Result-cases (http.parse_value host)) [
      | inl (v, parsed) ↦ subst (IsFilled _ _ r.headers) (ground arith) (
          insert-IsFilled http.host_name (λ v. http.parse_value host ≡ ok v) v r.headers parsed
            absent)
      | inr (i, refused) ↦ absurd (ground arith)
    ]
  ]

  with_user_agent-IsFilled :
      (r : Request c)
      → IsFilled http.user_agent
          (λ v. v ≡ http.value_of mozilla)
          r.headers
          (with_user_agent c r).headers
  unfolding with_user_agent
  with_user_agent-IsFilled r = elim (Option-cases (http.get http.user_agent r.headers)) [
    | inr (w, there) ↦ rw there (same-IsFilled _ _ w _ there)
    | inl absent ↦ rw absent (insert-IsFilled _ _ _ _ refl absent)
  ]

  -- What the headers `m` become when they are completed for a request to `host`.
  pub record IsCompleted (host : Text) (m m' : http.HeaderMap) : Type 0 where
    pub kept :
        (k : http.HeaderName) (v : http.HeaderValue)
        → http.get k m ≡ some v
        → http.get k m' ≡ some v
    pub only :
        (k : http.HeaderName)
        → http.host_name ≢ k
        → http.user_agent ≢ k
        → http.get k m' ≡ http.get k m
    pub host_filled :
        http.get http.host_name m ≡ none
        → (v : http.HeaderValue) × (http.parse_value host ≡ ok v)
          × (http.get http.host_name m' ≡ some v)
    pub user_agent_filled :
        http.get http.user_agent m ≡ none
        → http.get http.user_agent m' ≡ some (http.value_of mozilla)

  completed :
      (host : Text) (r q : Request c)
      → with_host c host r ≡ ok q
      → IsCompleted host r.headers (with_user_agent c q).headers
  completed host r q e =
      let h = with_host-IsFilled host r q e in
      let u = with_user_agent-IsFilled q in
      record {
        kept = λ k v there. u.kept k v (h.kept k v there);
        only = λ k n n'. u.only k n' ∙ h.only k n;
        host_filled =
            λ absent. let (v, parsed, there) = h.filled absent in (v, parsed, u.kept _ v there);
        user_agent_filled = λ absent.
            let (v, same, there) =
              u.filled (h.only http.user_agent http.host_ne_user_agent ∙ absent) in
            there ∙ ap some same;
      }

  headers_only :
      (host : Text) (r q : Request c)
      → with_host c host r ≡ ok q
      → with_user_agent c q ≡ record r { headers = (with_user_agent c q).headers }
  unfolding with_host with_user_agent
  headers_only host r q e = ground arith

  -- If the setting of headers is not disabled and gives no error, the request has a host, nothing
  -- of it but its headers is changed, every header that it has is kept, and there are added at most
  -- two: `Host` with the host, if it was absent, and `User-Agent`, if it was absent.
  pub set_headers-IsCompleted :
      (client : Client c) (r r' : Request c)
      → client.disable_auto_set_header ≡ false
      → set_headers c client r ≡ ok r'
      → (host : Text) × (http.host r.uri ≡ some host)
        × IsCompleted host r.headers r'.headers
        × (r' ≡ record r { headers = r'.headers })
  unfolding set_headers auto_headers
  set_headers-IsCompleted client r r' enabled e = elim (Option-cases (http.host r.uri)) [
    | inl none_there ↦ absurd (ground arith)
    | inr (host, there) ↦ elim (Result-cases (with_host c host r)) [
      | inr (i, refused) ↦ absurd (ground arith)
      | inl (q, given) ↦
          let result : with_user_agent c q ≡ r' = ground arith in
          (
            host,
            there,
            subst (λ (p : Request c). IsCompleted host r.headers p.headers) result
                (completed host r q given),
            sym result
                ∙ headers_only host r q given
                ∙ ap (λ (p : Request c). record r { headers = p.headers }) result,
          )
    ]
  ]

  pub uri-set_headers :
      (client : Client c) (r r' : Request c) → set_headers c client r ≡ ok r' → r'.uri ≡ r.uri
  unfolding set_headers auto_headers with_host with_user_agent
  uri-set_headers client r r' e = ground arith
