-- ===== src/Tests/Response.antt =====
-- src/response.rs on a body of three frames.
use httptrace.Prelude.{
  ℕ, codes, Text, text_eq, if◌then◌else◌, Option, false, ◌≡◌, refl, ap, none, some, List, [], ◌∷◌,
  ◌++◌, map, Result, ok, err, map_ok, arith,
}
use httptrace.Error.{BoxError}
use httptrace.Response.{Frames, Collecting, Decoding, text_with_charset, payload, bytes}
use httptrace.Response.Chunks.{read_chunks}
use httptrace.Response.Bytes.{IsGathered, bytes-read_chunks}
use httptrace.Response.Encoding.{IsDecoded, text_with_charset-IsDecoded}
use httptrace.Tests.Fixtures.{HeaderMap, insert, foreign, crates, api}

abbrev frames : Frames crates
frames = ok (some (1 ∷ 2 ∷ [])) ∷ ok none ∷ ok (some (3 ∷ [])) ∷ []

abbrev before_data : api.Frame → List ℕ → List ℕ
before_data none l = l
before_data (some b) l = b ++ l

-- The data of all frames, or the first error.
abbrev collect : Frames crates → Result (List ℕ) (BoxError foreign)
collect [] = ok []
collect (err e ∷ fs) = err e
collect (ok frame ∷ fs) = map_ok (before_data frame) (collect fs)

before_data-payload :
    (frame : api.Frame) (fs : List api.Frame)
    → before_data frame (payload crates fs) ≡ payload crates (frame ∷ fs)
unfolding payload
before_data-payload none fs = refl
before_data-payload (some b) fs = refl

pub collect-payload : (fs : List api.Frame) → collect (map ok fs) ≡ ok (payload crates fs)
collect-payload [] = unfold payload in refl
collect-payload (frame ∷ fs) = rw (collect-payload fs) (ap ok (before_data-payload frame fs))

pub collect-data :
    (fs : List api.Frame) (q : List ℕ) → collect (map ok fs) ≡ ok q → q ≡ payload crates fs
collect-data fs q h = ground (arith, collect-payload fs)

pub collect-error :
    (fs : List api.Frame) (e : BoxError foreign) (more : Frames crates)
    → collect (map ok fs ++ err e ∷ more) ≡ err e
collect-error [] e more = refl
collect-error (frame ∷ fs) e more = rw (collect-error fs e more) refl

abbrev pub collecting : Collecting crates
collecting = record {
  Collected = List ℕ;
  collect = collect;
  to_bytes = λ l. l;
  collect_end = λ fs. (payload crates fs, collect-payload fs);
  collect_data = collect-data;
  collect_error = collect-error;
}

bytes_example : IsGathered crates (ok (1 ∷ 2 ∷ 3 ∷ [])) (read_chunks crates 4 frames)
unfolding bytes
bytes_example = bytes-read_chunks crates collecting 4 frames (omega arith)

-- Two encodings: one with a label, and UTF-8, which is also without any.
abbrev label : Text → Option ℕ
label t = if text_eq t (codes "utf-16") then some 16 else none

abbrev decoding : Decoding crates
decoding = record {
  content_type = 3;
  to_str = λ v. some v.1;
  Mime = Text;
  parse_mime = some;
  charset = some;
  Encoding = ℕ;
  for_label = label;
  utf8 = 8;
  decode = λ e b. e ∷ b;
}

abbrev headers : HeaderMap
headers = insert 3 (false, codes "utf-16") (λ _. none)

text_example :
    IsDecoded crates decoding headers
      (codes "utf-8")
      (ok (16 ∷ 1 ∷ 2 ∷ 3 ∷ []))
      (read_chunks crates 4 frames)
unfolding text_with_charset bytes text_eq
text_example =
    text_with_charset-IsDecoded crates decoding headers (codes "utf-8") collecting 4 frames
      (omega arith)
