-- ===== src/Response.antt =====
-- src/response.rs: a response with its accessors, its chunks, its bytes and its text.
pub mod Chunks
pub mod Bytes
pub mod Encoding
pub mod Polling
use httptrace.Prelude.{
  ℕ, Bool, Option, none, some, List, [], ◌∷◌, Result, ok, err, map_ok, map_err, and_then, unwrap_or,
  to_ok, Text, codes, ◌++◌, map, ◌≡◌, ◌>>=◌,
}
use httptrace.Error.{Error, BoxError, body}
use httptrace.Crates.{Crates}
use httptrace.Body.{HttpBody}

-- `http::Response<B>`
pub record HttpResponse (c : Crates) (B : Type 0) : Type 0 where
  pub status : c.http.StatusCode
  pub version : c.http.Version
  pub headers : c.http.HeaderMap
  pub extensions : c.http.Extensions
  pub body : B

-- `http::Response::map`
abbrev pub map_body : {c : Crates} {B B' : Type 0} → (B → B') → HttpResponse c B → HttpResponse c B'
map_body f res = record {
  status = res.status;
  version = res.version;
  headers = res.headers;
  extensions = res.extensions;
  body = f res.body;
}

-- `Response`; its body is a `ResponseBody`.
pub record Response (c : Crates) : Type 0 where
  pub res : HttpResponse c c.Stream

module _ {c : Crates} where
  unfoldable pub new : HttpResponse c c.Stream → Response c
  new res = record { res = res }

  unfoldable pub status : Response c → c.http.StatusCode
  status r = r.res.status

  unfoldable pub version : Response c → c.http.Version
  version r = r.res.version

  unfoldable pub headers : Response c → c.http.HeaderMap
  headers r = r.res.headers

  unfoldable pub extensions : Response c → c.http.Extensions
  extensions r = r.res.extensions

  -- What a mutable reference is used for is a function on what it refers to.
  unfoldable pub headers_mut : (c.http.HeaderMap → c.http.HeaderMap) → Response c → Response c
  headers_mut f r = record { res = record r.res { headers = f r.res.headers } }

  unfoldable pub extensions_mut : (c.http.Extensions → c.http.Extensions) → Response c → Response c
  extensions_mut f r = record { res = record r.res { extensions = f r.res.extensions } }

-- The crates mime and encoding_rs.
pub record Decoding (c : Crates) : Type 1 where
  pub content_type : c.http.HeaderName
  -- `HeaderValue::to_str().ok()`
  pub to_str : c.http.HeaderValue → Option Text
  pub Mime : Type 0
  pub parse_mime : Text → Option Mime
  pub charset : Mime → Option Text
  pub Encoding : Type 0
  pub for_label : Text → Option Encoding
  pub utf8 : Encoding
  pub decode : Encoding → c.api.Bytes → Text

-- What `frame().await` gives, one after the other; the body ends after the last.
abbrev pub Frames : Crates → Type 0
Frames c = List (Result c.api.Frame (BoxError c.foreign))

module _ (c : Crates) where
  payload_of : Result c.api.Bytes c.api.Frame → List ℕ → List ℕ
  payload_of (ok b) l = c.api.contents b ++ l
  payload_of (err frame) l = l

  -- The data of frames, in order.
  unfoldable pub payload : List c.api.Frame → List ℕ
  unfolding payload_of
  payload [] = []
  payload (frame ∷ fs) = payload_of (c.api.into_data frame) (payload fs)

-- `BodyExt::collect` of http-body-util, which polls a body to its end and keeps its data, and stops
-- at an error.
pub record Collecting (c : Crates) : Type 1 where
  pub Collected : Type 0
  pub collect : Frames c → Result Collected (BoxError c.foreign)
  pub to_bytes : Collected → c.api.Bytes
  pub collect_end : (fs : List c.api.Frame) → (q : Collected) × (collect (map ok fs) ≡ ok q)
  pub collect_data :
      (fs : List c.api.Frame) (q : Collected)
      → collect (map ok fs) ≡ ok q
      → c.api.contents (to_bytes q) ≡ payload c fs
  pub collect_error :
      (fs : List c.api.Frame) (e : BoxError c.foreign) (more : Frames c)
      → collect (map ok fs ++ err e ∷ more) ≡ err e

module _ (c : Crates) where
  -- `chunk`, and the frames that it leaves.
  chunk_of :
      Result c.api.Bytes c.api.Frame
      → Frames c
      → Result (Option c.api.Bytes) (Error c.foreign) × Frames c
      → Result (Option c.api.Bytes) (Error c.foreign) × Frames c
  chunk_of (ok buf) fs again = (ok (some buf), fs)
  chunk_of (err frame) fs again = again

  unfoldable pub chunk : Frames c → Result (Option c.api.Bytes) (Error c.foreign) × Frames c
  unfolding chunk_of
  chunk [] = (ok none, [])
  chunk (err e ∷ fs) = (err (body e), fs)
  chunk (ok frame ∷ fs) = let again = chunk fs in chunk_of (c.api.into_data frame) fs again

module _ (c : Crates) where
  -- `content_length`
  unfoldable pub content_length : {S E : Type 0} → HttpBody c.api S E → S → Option ℕ
  content_length b s = c.api.exact (b.size_hint s)

  unfoldable pub bytes : Collecting c → Frames c → Result c.api.Bytes (Error c.foreign)
  bytes q fs = map_ok q.to_bytes (map_err body (q.collect fs))

module _ (c : Crates) (d : Decoding c) where
  mime_of : c.http.HeaderMap → Option d.Mime
  mime_of headers = and_then d.parse_mime (and_then d.to_str (c.http.get d.content_type headers))

  encoding_of : c.http.HeaderMap → Text → d.Encoding
  unfolding mime_of
  encoding_of headers default_encoding =
      unwrap_or d.utf8
        (d.for_label (unwrap_or default_encoding (and_then d.charset (mime_of headers))))

  unfoldable pub text_with_charset :
      Collecting c → c.http.HeaderMap → Frames c → Text → Result Text (Error c.foreign)
  unfolding encoding_of
  text_with_charset q headers fs default_encoding = do
    full ← bytes c q fs
    ok (d.decode (encoding_of headers default_encoding) full)

  unfoldable pub text : Collecting c → c.http.HeaderMap → Frames c → Result Text (Error c.foreign)
  text q headers fs = text_with_charset q headers fs (codes "utf-8")
