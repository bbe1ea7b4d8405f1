-- ===== src/Body/Wrapping/Laws.antt =====
-- src/body.rs: what comes out of a body that another body or a stream was put into.
use httptrace.Prelude.{
  ℕ, suc, ◌≡◌, refl, ◌∙◌, Option, none, some, List, [], ◌∷◌, map, ok, err, arith, and_then,
  map_some,
}
use httptrace.Error.{Error, BoxError, body}
use httptrace.Crates.{BodyApi, Crates}
use httptrace.Body.{ready, pending, Item, HttpBody, map_item_err, http_body}
use httptrace.Body.DataStream.{
  poll_next, poll_next-Answers, Answers, waits, ends, fails, gives, here,
}
use httptrace.Body.Wrapping.{AnyBody, TryStream, map_item, BoxedStream, framed, from_stream}

-- The answers of a body with any frames, of a stream, and of a body's data stream.
abbrev pub any_polls :
    {a : BodyApi} {F S E : Type 0} → AnyBody a F S E → List ℕ → S → List (Item F E)
any_polls b [] s = []
any_polls b (t ∷ ts) s = (b.poll_frame t s).0 ∷ any_polls b ts (b.poll_frame t s).1

abbrev pub stream_polls : {D S E : Type 0} → TryStream D S E → List ℕ → S → List (Item D E)
stream_polls b [] s = []
stream_polls b (t ∷ ts) s = (b.poll_next t s).0 ∷ stream_polls b ts (b.poll_next t s).1

-- `none` if a poll needs more than the fuel.
abbrev pub data_polls :
    {a : BodyApi} {S E : Type 0} → HttpBody a S E → ℕ → List ℕ → S → Option (List (Item a.Bytes E))
data_polls b fuel [] s = some []
data_polls {a} b fuel (t ∷ ts) s =
    and_then (λ p. map_some (◌∷◌ p.0) (data_polls b fuel ts p.1)) (poll_next a b fuel t s)

module _ (c : Crates) {E : Type 0} (into : E → BoxError c.foreign) where
  -- An item as the body gives it: converted, and an error wrapped.
  abbrev pub wrapped : {F G : Type 0} → (F → G) → Item F E → Item G (Error c.foreign)
  wrapped f item = map_item_err (λ e. body (into e)) (map_item f item)

  map_item_err-wrapped :
      {F G : Type 0} (f : F → G) (item : Item F E)
      → map_item_err body (map_item_err into (map_item f item)) ≡ wrapped f item
  map_item_err-wrapped f pending = refl
  map_item_err-wrapped f (ready none) = refl
  map_item_err-wrapped f (ready (some (ok a))) = refl
  map_item_err-wrapped f (ready (some (err e))) = refl

module _ (c : Crates) (stream : HttpBody c.api c.Stream (BoxError c.foreign)) {D S E : Type 0}
    (bytes_from : D → c.api.Bytes) (into : E → BoxError c.foreign) (b : TryStream D S E)
    (x : BoxedStream c stream S (framed c bytes_from into b)) (fuel : ℕ) where
  abbrev frame_of : D → c.api.Frame
  frame_of d = c.api.data_frame (bytes_from d)

  -- What a body gives for an item of a stream is no frame without data.
  wrapped-Answers :
      (item : Item D E)
      → Answers c.api
          (http_body c stream)
          (wrapped c into frame_of item)
          (wrapped c into bytes_from item)
  wrapped-Answers pending = waits
  wrapped-Answers (ready none) = ends
  wrapped-Answers (ready (some (ok d))) =
      gives (frame_of d) (bytes_from d) (c.api.into_data_frame (bytes_from d))
  wrapped-Answers (ready (some (err e))) = fails (body (into e))

  poll_frame-from_stream :
      (t : ℕ) (s : S)
      → (http_body c stream).poll_frame t (from_stream c bytes_from into b x s) ≡ (
        wrapped c into frame_of (b.poll_next t s).0,
        from_stream c bytes_from into b x (b.poll_next t s).1,
      )
  unfolding http_body from_stream framed
  poll_frame-from_stream t s =
      rw (x.poll_box t s, map_item_err-wrapped c into frame_of (b.poll_next t s).0) refl

  poll_next-from_stream :
      (t : ℕ) (s : S)
      → poll_next c.api (http_body c stream) (suc fuel) t (from_stream c bytes_from into b x s)
        ≡ some (
          wrapped c into bytes_from (b.poll_next t s).0,
          from_stream c bytes_from into b x (b.poll_next t s).1,
        )
  poll_next-from_stream t s =
      let answer = poll_frame-from_stream t s in
      poll_next-Answers c.api (http_body c stream) (suc fuel) t 0
        (from_stream c bytes_from into b x s) (from_stream c bytes_from into b x s)
        (wrapped c into bytes_from (b.poll_next t s).0) (omega arith) (here _)
        (rw answer (wrapped-Answers (b.poll_next t s).0))
      ∙ rw answer refl

  -- A stream that was put into a body and is taken out of it as the body's data is the same stream,
  -- with its items converted to bytes and its errors wrapped; no poll of it makes more than one
  -- round.
  pub data_polls-from_stream :
      (ts : List ℕ) (s : S)
      → data_polls (http_body c stream) (suc fuel) ts (from_stream c bytes_from into b x s)
        ≡ some (map (wrapped c into bytes_from) (stream_polls b ts s))
  data_polls-from_stream [] s = refl
  data_polls-from_stream (t ∷ ts) s =
      rw (poll_next-from_stream t s, data_polls-from_stream ts (b.poll_next t s).1) refl
