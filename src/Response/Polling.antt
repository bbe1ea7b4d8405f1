-- ===== src/Response/Polling.antt =====
-- src/response.rs: `frame().await`, which polls the body of a response until it is ready, and
-- `bytes` over such polls.
use httptrace.Prelude.{
  ℕ, ◌≡◌, refl, Option, none, some, List, [], ◌∷◌, ◌++◌, map, Result, Result-cases, inl, inr, arith,
  ok, err, map_err, map_some,
}
use httptrace.Error.{Error, BoxError, body}
use httptrace.Crates.{BodyApi, Crates}
use httptrace.Body.{ready, pending, Item, HttpBody, map_item_err}
use httptrace.Body.Timeouts.{map_err_body}
use httptrace.Body.Wrapping.{Boxed}
use httptrace.Response.{Response, Collecting, bytes}
use httptrace.Response.Chunks.{Reading, all_data}
use httptrace.Response.Bytes.{IsGathered, bytes-IsGathered}

module _ {F E : Type 0} where
  -- One poll, with what the later ones give.
  after_poll : Item F E → Option (List (Result F E)) → Option (List (Result F E))
  after_poll pending more = more
  after_poll (ready none) more = some []
  after_poll (ready (some (err e))) more = some (err e ∷ [])
  after_poll (ready (some (ok f))) more = map_some (◌∷◌ (ok f)) more

after_poll-map_item_err :
    {F E E' : Type 0} (f : E → E') (item : Item F E) (more : Option (List (Result F E)))
    → after_poll (map_item_err f item) (map_some (map (map_err f)) more)
      ≡ map_some (map (map_err f)) (after_poll item more)
unfolding after_poll
after_poll-map_item_err f pending more = refl
after_poll-map_item_err f (ready none) more = refl
after_poll-map_item_err f (ready (some (err e))) more = refl
after_poll-map_item_err f (ready (some (ok a))) none = refl
after_poll-map_item_err f (ready (some (ok a))) (some l) = refl

module _ {a : BodyApi} {S E : Type 0} (b : HttpBody a S E) where
  -- The frames that polls at the given times get, up to the end of the body or its first error;
  -- `none` if neither comes by then.
  unfoldable pub frames_at : List ℕ → S → Option (List (Result a.Frame E))
  unfolding after_poll
  frames_at [] s = none
  frames_at (now ∷ ts) s =
      let more = frames_at ts (b.poll_frame now s).1 in after_poll (b.poll_frame now s).0 more

module _ (c : Crates) (stream : HttpBody c.api c.Stream (BoxError c.foreign)) where
  -- `bytes`, where the runtime polls at the given times; `none` if it still waits.
  unfoldable pub bytes_at :
      Collecting c → List ℕ → Response c → Option (Result c.api.Bytes (Error c.foreign))
  unfolding frames_at
  bytes_at q ts r = map_some (bytes c q) (frames_at stream ts r.res.body)

  -- A body behind a box gives its own frames, with the errors converted.
  pub frames_at-box :
      {S E : Type 0} (into : E → BoxError c.foreign) (b : HttpBody c.api S E)
      (x : Boxed c stream S (map_err_body into b)) (ts : List ℕ) (s : S)
      → frames_at stream ts (x.box s) ≡ map_some (map (map_err into)) (frames_at b ts s)
  unfolding frames_at map_err_body
  frames_at-box into b x [] s = refl
  frames_at-box into b x (now ∷ ts) s =
      rw (x.poll_box now s, frames_at-box into b x ts (b.poll_frame now s).1)
        (after_poll-map_item_err into (b.poll_frame now s).0
          (frames_at b ts (b.poll_frame now s).1))

module _ (c : Crates) {E : Type 0} (into : E → BoxError c.foreign) where
  -- The data of frames up to the first error, and that error.
  data_of : Result c.api.Bytes c.api.Frame → List ℕ × Option E → List ℕ × Option E
  data_of (ok b) more = (c.api.contents b ++ more.0, more.1)
  data_of (err frame) more = more

  unfoldable pub data_until : List (Result c.api.Frame E) → List ℕ × Option E
  unfolding data_of
  data_until [] = ([], none)
  data_until (err e ∷ fs) = ([], some e)
  data_until (ok frame ∷ fs) = data_of (c.api.into_data frame) (data_until fs)

  -- A result holds that data, or it is that error, converted.
  abbrev pub IsDataOf : List ℕ × Option E → Result c.api.Bytes (Error c.foreign) → Type 0
  IsDataOf (l, none) got = (b : c.api.Bytes) × (got ≡ ok b) × (c.api.contents b ≡ l)
  IsDataOf (l, some e) got = got ≡ err (body (into e))

  abbrev pub IsRead :
      Option (List (Result c.api.Frame E)) → Option (Result c.api.Bytes (Error c.foreign)) → Type 0
  IsRead none got = got ≡ none
  IsRead (some fs) got =
      (res : Result c.api.Bytes (Error c.foreign)) × (got ≡ some res) × IsDataOf (data_until fs) res

  abbrev ended : List ℕ × Option E → Reading c
  ended (l, none) = (l, some (ok tt))
  ended (l, some e) = (l, some (err (body (into e))))

  all_data-map :
      (fs : List (Result c.api.Frame E))
      → all_data c (map (map_err into) fs) ≡ ended (data_until fs)
  unfolding all_data data_until
  all_data-map [] = refl
  all_data-map (err e ∷ fs) = refl
  all_data-map (ok frame ∷ fs) = elim (Result-cases (c.api.into_data frame)) [
    | inl (b, e) ↦ rw (e, all_data-map fs) (shifted b (data_until fs))
    | inr (i, e) ↦ rw e (all_data-map fs)
  ]
    where
      shifted :
          (b : c.api.Bytes) (d : List ℕ × Option E)
          → ◌≡◌ {A = Reading c}
              (c.api.contents b ++ (ended d).0, (ended d).1)
              (ended (c.api.contents b ++ d.0, d.1))
      shifted b (l, none) = refl
      shifted b (l, some e) = refl

  IsDataOf-IsGathered :
      (d : List ℕ × Option E) (res : Result c.api.Bytes (Error c.foreign))
      → IsGathered c res (ended d)
      → IsDataOf d res
  IsDataOf-IsGathered (l, none) (ok b) h = (b, refl, ground arith)
  IsDataOf-IsGathered (l, none) (err e) h = absurd (ground arith)
  IsDataOf-IsGathered (l, some i) (ok b) h = absurd (ground arith)
  IsDataOf-IsGathered (l, some i) (err e) h = ground arith

  IsRead-frames :
      (q : Collecting c) (o : Option (List (Result c.api.Frame E)))
      → IsRead o (map_some (bytes c q) (map_some (map (map_err into)) o))
  IsRead-frames q none = refl
  IsRead-frames q (some fs) = (
    bytes c q (map (map_err into) fs),
    refl,
    IsDataOf-IsGathered (data_until fs) _
        (rw (all_data-map fs) at (bytes-IsGathered c q (map (map_err into) fs))),
  )

  -- The bytes of a response whose body is a body behind a box are the data of that body up to its
  -- end, or its first error converted.
  pub IsRead-bytes_at :
      (stream : HttpBody c.api c.Stream (BoxError c.foreign)) {S : Type 0} (b : HttpBody c.api S E)
      (x : Boxed c stream S (map_err_body into b)) (q : Collecting c) (ts : List ℕ) (s : S)
      (r : Response c)
      → r.res.body ≡ x.box s
      → IsRead (frames_at b ts s) (bytes_at c stream q ts r)
  unfolding bytes_at
  IsRead-bytes_at stream b x q ts s r e =
      rw (e, frames_at-box c stream into b x ts s) (IsRead-frames q (frames_at b ts s))
