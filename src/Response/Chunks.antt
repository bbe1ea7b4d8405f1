-- ===== src/Response/Chunks.antt =====
-- src/response.rs: reading a body to its end by `chunk`.
use httptrace.Prelude.{
  ℕ, zero, suc, ◌<◌, ◌≡◌, refl, ap, Option, none, some, List, [], ◌∷◌, ◌++◌, Result, ok, err, arith,
  length, Result-cases, inl, inr,
}
use httptrace.Error.{Error, body}
use httptrace.Crates.{Crates}
use httptrace.Response.{Frames, chunk}

module _ (c : Crates) where
  -- A caller that asks for chunks until there is none or an error, `n` times at most: the chunks'
  -- bytes, and how the reading ended.
  abbrev pub Reading : Type 0
  Reading = List ℕ × Option (Result (Unit {0}) (Error c.foreign))

  abbrev after : c.api.Bytes → Reading → Reading
  after b (l, end) = (c.api.contents b ++ l, end)

  -- One answer of `chunk`, with what the further reading would give.
  read_answer : Result (Option c.api.Bytes) (Error c.foreign) → Reading → Reading
  read_answer (ok none) more = ([], some (ok tt))
  read_answer (ok (some b)) more = after b more
  read_answer (err e) more = ([], some (err e))

  pub read_chunks : ℕ → Frames c → Reading
  unfolding read_answer
  read_chunks zero fs = ([], none)
  read_chunks (suc n) fs =
      let (answer, rest) = chunk c fs in let more = read_chunks n rest in read_answer answer more

  -- The data of the frames up to the first error, and that error.
  data_of : Result c.api.Bytes c.api.Frame → Reading → Reading
  data_of (ok b) more = after b more
  data_of (err frame) more = more

  unfoldable pub all_data : Frames c → Reading
  unfolding data_of
  all_data [] = ([], some (ok tt))
  all_data (err e ∷ fs) = ([], some (err (body e)))
  all_data (ok frame ∷ fs) = let more = all_data fs in data_of (c.api.into_data frame) more

  -- Asking for chunks gives all data of the body, in order, and ends as the body ends, by its first
  -- error if there is one; frames that are not data are passed over. Asking once more than there
  -- are frames is enough.
  pub read_chunks-all_data :
      (n : ℕ) (fs : Frames c) → length fs < n → read_chunks n fs ≡ all_data fs
  unfolding read_chunks all_data chunk
  read_chunks-all_data zero fs h = absurd (omega (arith, h))
  read_chunks-all_data (suc n) [] h = refl
  read_chunks-all_data (suc n) (err e ∷ fs) h = refl
  read_chunks-all_data (suc n) (ok frame ∷ fs) h = elim (Result-cases (c.api.into_data frame)) [
    | inl (b, e) ↦ rw e (ap (after b) (read_chunks-all_data n fs (omega (arith, h))))
    | inr (i, e) ↦ rw e (read_chunks-all_data (suc n) fs (omega (arith, h)))
  ]
