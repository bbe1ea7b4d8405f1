-- ===== src/Response/Encoding.antt =====
-- src/response.rs: which encoding `text_with_charset` decodes by, and what it decodes.
use httptrace.Prelude.{
  ℕ, ◌<◌, ◌≡◌, refl, Option, Option-cases, none, some, Result, ok, err, arith, length, inl, inr,
  and_then, some-and_then, unwrap_or, Text, ◌>>=◌,
}
use httptrace.Error.{Error}
use httptrace.Crates.{Crates}
use httptrace.Response.{
  Frames, Decoding, Collecting, bytes, mime_of, encoding_of, text_with_charset,
}
use httptrace.Response.Chunks.{Reading, read_chunks}
use httptrace.Response.Bytes.{IsGathered, bytes-read_chunks}

module _ (c : Crates) (d : Decoding c) (headers : c.http.HeaderMap) (default_encoding : Text) where
  -- The content type is there, is a text, parses, and has this charset.
  abbrev pub HasCharset : Text → Type 0
  HasCharset name =
      (v : c.http.HeaderValue) × (t : Text) × (mime : d.Mime) × (c.http.get d.content_type headers
        ≡ some v)
      × (d.to_str v ≡ some t)
      × (d.parse_mime t ≡ some mime)
      × (d.charset mime ≡ some name)

  -- The label of the encoding: that of the content type, or else the default.
  pub data Labels : Text → Type 0 where
    named : (name : Text) → HasCharset name → Labels name
    by_default : ((name : Text) → ¬ HasCharset name) → Labels default_encoding

  -- The encoding with that label, or UTF-8 if there is none.
  pub data Chooses : d.Encoding → Type 0 where
    known : (label : Text) (e : d.Encoding) → Labels label → d.for_label label ≡ some e → Chooses e
    fallback : (label : Text) → Labels label → d.for_label label ≡ none → Chooses d.utf8

  charset_of : Option Text
  charset_of = and_then d.charset (mime_of c d headers)

  charset_of-HasCharset : (name : Text) → charset_of ≡ some name → HasCharset name
  unfolding charset_of mime_of
  charset_of-HasCharset name h =
      let (mime, h', last) = some-and_then d.charset _ name h in
      let (t, h'', parsed) = some-and_then d.parse_mime _ mime h' in
      let (v, there, readable) = some-and_then d.to_str _ t h'' in
      (v, t, mime, there, readable, parsed, last)

  HasCharset-charset_of : (name : Text) → HasCharset name → charset_of ≡ some name
  unfolding charset_of mime_of
  HasCharset-charset_of name (v, t, mime, there, readable, parsed, last) =
      rw (there, readable, parsed) last

  label_of-Labels : Labels (unwrap_or default_encoding charset_of)
  label_of-Labels = elim (Option-cases charset_of) [
    | inl e ↦ rw e (by_default (λ name h. absurd (ground (arith, HasCharset-charset_of name h))))
    | inr (name, e) ↦ rw e (named name (charset_of-HasCharset name e))
  ]

  encoding_of-Chooses : Chooses (encoding_of c d headers default_encoding)
  unfolding encoding_of charset_of
  encoding_of-Chooses = elim (Option-cases (d.for_label (unwrap_or default_encoding charset_of))) [
    | inl e ↦ rw e (fallback _ label_of-Labels e)
    | inr (encoding, e) ↦ rw e (known _ encoding label_of-Labels e)
  ]

  -- A text that was decoded by such an encoding from the data that a reading by chunks gathered, or
  -- the error that this reading met.
  abbrev pub IsDecoded : Result Text (Error c.foreign) → Reading c → Type 0
  IsDecoded (ok t) reading =
      (b : c.api.Bytes) × (e : d.Encoding) × (reading ≡ (c.api.contents b, some (ok tt)))
      × Chooses e
      × (t ≡ d.decode e b)
  IsDecoded (err e) reading = reading.1 ≡ some (err e)

  IsGathered-IsDecoded :
      (full : Result c.api.Bytes (Error c.foreign)) (reading : Reading c)
      → IsGathered c full reading
      → IsDecoded
          (full >>= (λ b. ok (d.decode (encoding_of c d headers default_encoding) b)))
          reading
  IsGathered-IsDecoded (ok b) reading h = (b, _, h, encoding_of-Chooses, refl)
  IsGathered-IsDecoded (err e) reading h = h

  -- The text of a response is its data, as a caller who asks for chunks gathers it, decoded by the
  -- encoding whose label is the charset of the content type or, if there is none that can be read,
  -- the default that was given, and by UTF-8 if no encoding has that label; and the text is an error
  -- exactly if that reading meets one, the same one.
  pub text_with_charset-IsDecoded :
      (q : Collecting c) (n : ℕ) (fs : Frames c)
      → length fs < n
      → IsDecoded (text_with_charset c d q headers fs default_encoding) (read_chunks c n fs)
  unfolding text_with_charset
  text_with_charset-IsDecoded q n fs h =
      IsGathered-IsDecoded (bytes c q fs) (read_chunks c n fs) (bytes-read_chunks c q n fs h)
