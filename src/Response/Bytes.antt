-- ===== src/Response/Bytes.antt =====
-- src/response.rs: `bytes` and `text`, against reading a body to its end by `chunk`.
use httptrace.Prelude.{
  ◌⊎◌, ℕ, ◌<◌, ◌≡◌, refl, sym, ap, ◌∙◌, some, List, [], ◌∷◌, ◌++◌, map, Result, ok, err, length,
  Result-cases, inl, inr,
}
use httptrace.Error.{BoxError, Error, body}
use httptrace.Crates.{Crates}
use httptrace.Response.{Frames, Collecting, payload, bytes}
use httptrace.Response.Chunks.{Reading, all_data, read_chunks, read_chunks-all_data}

module _ (c : Crates) where
  -- Frames of which none is an error, and frames with a first error.
  Frames-cases :
      (fs : Frames c)
      → ((gs : List c.api.Frame) × (fs ≡ map ok gs))
        ⊎ ((gs : List c.api.Frame) × (e : BoxError c.foreign) × (more : Frames c) × (fs
              ≡ map ok gs ++ err e ∷ more))
  Frames-cases [] = inl ([], refl)
  Frames-cases (err e ∷ fs) = inr ([], e, fs, refl)
  Frames-cases (ok g ∷ fs) = elim (Frames-cases fs) [
    | inl (gs, h) ↦ inl (g ∷ gs, ap (◌∷◌ (ok g)) h)
    | inr (gs, e, more, h) ↦ inr (g ∷ gs, e, more, ap (◌∷◌ (ok g)) h)
  ]

  all_data-ok : (gs : List c.api.Frame) → all_data c (map ok gs) ≡ (payload c gs, some (ok tt))
  unfolding all_data payload
  all_data-ok [] = refl
  all_data-ok (g ∷ gs) = elim (Result-cases (c.api.into_data g)) [
    | inl (b, e) ↦ rw (e, all_data-ok gs) refl
    | inr (i, e) ↦ rw (e, all_data-ok gs) refl
  ]

  all_data-err :
      (gs : List c.api.Frame) (e : BoxError c.foreign) (more : Frames c)
      → all_data c (map ok gs ++ err e ∷ more) ≡ (payload c gs, some (err (body e)))
  unfolding all_data payload
  all_data-err [] e more = refl
  all_data-err (g ∷ gs) e more = elim (Result-cases (c.api.into_data g)) [
    | inl (b, h) ↦ rw (h, all_data-err gs e more) refl
    | inr (i, h) ↦ rw (h, all_data-err gs e more) refl
  ]

  -- What `bytes` gives is what the reading by chunks gathered, or the error that it met.
  abbrev pub IsGathered : Result c.api.Bytes (Error c.foreign) → Reading c → Type 0
  IsGathered (ok b) reading = reading ≡ (c.api.contents b, some (ok tt))
  IsGathered (err e) reading = reading.1 ≡ some (err e)

  pub bytes-IsGathered :
      (q : Collecting c) (fs : Frames c) → IsGathered (bytes c q fs) (all_data c fs)
  unfolding bytes
  bytes-IsGathered q fs = elim (Frames-cases fs) [
    | inl (gs, h) ↦ rw h (
        let (whole, e) = q.collect_end gs in
        rw e (all_data-ok gs ∙ ap (λ l. (l, some (ok tt))) (sym (q.collect_data gs whole e))))
    | inr (gs, e, more, h) ↦
        rw (h, q.collect_error gs e more) (ap (λ r. r.1) (all_data-err gs e more))
  ]

  -- The bytes of a response are the data that a caller who asks for chunks gathers, if it asks once
  -- more than there are frames; and `bytes` fails exactly if that reading meets an error, with the
  -- same one.
  pub bytes-read_chunks :
      (q : Collecting c) (n : ℕ) (fs : Frames c)
      → length fs < n
      → IsGathered (bytes c q fs) (read_chunks c n fs)
  bytes-read_chunks q n fs h = rw (read_chunks-all_data c n fs h) (bytes-IsGathered q fs)
