-- ===== src/Request/Builder/Headers.antt =====
-- src/request.rs: what the methods `headers` and `basic_auth` leave in the header map.
use httptrace.Prelude.{
  ◌≡◌, ◌≢◌, refl, true, Option, none, some, ok, arith, Text, Option-cases, inl, inr, codes, ◌++◌,
  unwrap_or, [],
}
use httptrace.Crates.{Crates}
use httptrace.Request.{Request}
use httptrace.Util
use httptrace.Request.Builder.{RequestBuilder, build, header, headers, basic_auth}

get_appended :
    (c : Crates) (k : c.http.HeaderName) (v : c.http.HeaderValue) (m : c.http.HeaderMap)
    → c.http.get k (c.http.append k v m) ≢ none
get_appended c k v m e = elim (Option-cases (c.http.get k m)) [
  | inl absent ↦ cc (c.http.get_append_none k v m absent)
  | inr (w, there) ↦ cc (c.http.get_append_some k v w m there)
]

module _ {c : Crates} {Client : Type 0} where
  -- `headers` does not merge: a header that was set on a request without error is there before the
  -- call of `headers`, and is gone after it if the new map does not hold its name.
  pub headers_not_merged :
      (b : RequestBuilder c Client) (r : Request c) (k : c.http.HeaderName) (v : c.http.HeaderValue)
      (m : c.http.HeaderMap)
      → b.request ≡ ok r
      → c.http.get k m ≡ none
      → (p q : Request c) × (build (header (ok k) (ok v) b) ≡ ok p)
        × (build (headers m (header (ok k) (ok v) b)) ≡ ok q)
        × (c.http.get k p.headers ≢ none)
        × (c.http.get k q.headers ≡ none)
  unfolding build header headers
  headers_not_merged b r k v m h e = (
    record r { headers = c.http.append k v r.headers },
    record r { headers = m },
    ground arith,
    ground arith,
    get_appended c k v r.headers,
    e,
  )

  -- `basic_auth` on a request without error never panics and gives no error, and changes nothing of
  -- the request but its headers. If the request had no `Authorization` header, it now has one: the
  -- word `Basic` and the encoding of the user name, a colon and the password, which is empty if
  -- there is none, marked as sensitive.
  pub basic_auth_header :
      (b : RequestBuilder c Client) (r : Request c) (username : Text) (password : Option Text)
      → b.request ≡ ok r
      → c.http.get c.http.authorization r.headers ≡ none
      → (b' : RequestBuilder c Client) × (q : Request c) × (v : c.http.HeaderValue) × (basic_auth
            username password b
          ≡ some b')
        × (build b' ≡ ok q)
        × (q ≡ record r { headers = q.headers })
        × (c.http.get c.http.authorization q.headers ≡ some (c.http.set_sensitive true v))
        × (v
            ≡ c.http.set_sensitive true (
                c.http.value_of (
                  codes "Basic "
                  ++ c.base64.encode (username ++ codes ":" ++ unwrap_or [] password))))
        × (c.http.is_sensitive (c.http.set_sensitive true v) ≡ true)
  unfolding build basic_auth
  basic_auth_header b r username password h absent =
      let (v, made, e, sensitive) = Util.basic_auth_lem c username password in
      let q : Request c = record r {
        headers = c.http.append c.http.authorization (c.http.set_sensitive true v) r.headers;
      } in
      (
        record b { request = ok q },
        q,
        v,
        rw (made, h) refl,
        refl,
        refl,
        c.http.get_append_none _ _ _ absent,
        e,
        c.http.is_sensitive_set true v,
      )
