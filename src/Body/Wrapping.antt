-- ===== src/Body/Wrapping.antt =====
-- src/body.rs: the ways to make a `Body`: from bytes, from a stream, from another body and from a
-- file; and `IntoBytesBody`, which turns another body's data into `Bytes`.
pub mod Laws
use httptrace.Prelude.{
  ℕ, ◌≡◌, Bool, Option, none, some, List, [], Result, ok, err, map_err, map_ok, Text,
}
use httptrace.Error.{Error, BoxError}
use httptrace.Crates.{BodyApi, Crates}
use httptrace.Body.{
  Poll, ready, pending, Item, HttpBody, map_item_err, Body, reusable, streaming, empty,
}
use httptrace.Body.Timeouts.{map_err_body}

-- An `http_body::Body` with any type `F` of frames.
pub record AnyBody (a : BodyApi) (F S E : Type 0) : Type 0 where
  pub poll_frame : ℕ → S → Item F E × S
  pub size_hint : S → a.SizeHint
  pub is_end_stream : S → Bool

-- A `TryStream` with items of type `D`.
pub record TryStream (D S E : Type 0) : Type 0 where
  pub poll_next : ℕ → S → Item D E × S

-- The items of a stream or a body, each of which is turned into another.
abbrev pub map_item : {F G E : Type 0} → (F → G) → Item F E → Item G E
map_item f pending = pending
map_item f (ready none) = ready none
map_item f (ready (some r)) = ready (some (map_ok f r))

module _ {a : BodyApi} {F S E : Type 0} where
  -- `IntoBytesBody`; `map_data` is `f.map_data(Into::into)`.
  unfoldable pub into_bytes_body : (F → a.Frame) → AnyBody a F S E → HttpBody a S E
  into_bytes_body map_data b = record {
    poll_frame = λ now s. let (item, s') = b.poll_frame now s in (map_item map_data item, s');
    size_hint = b.size_hint;
    is_end_stream = b.is_end_stream;
  }

-- A body behind `BodyExt::boxed`, as the state of a stream: it answers as the body itself.
pub record Boxed (c : Crates) (stream : HttpBody c.api c.Stream (BoxError c.foreign)) (S : Type 0)
    (b : HttpBody c.api S (BoxError c.foreign)) : Type 0 where
  pub box : S → c.Stream
  pub poll_box :
      (now : ℕ) (s : S)
      → stream.poll_frame now (box s) ≡ ((b.poll_frame now s).0, box (b.poll_frame now s).1)
  pub size_box : (s : S) → stream.size_hint (box s) ≡ b.size_hint s
  pub end_box : (s : S) → stream.is_end_stream (box s) ≡ b.is_end_stream s

-- `StreamBody` of http-body-util, boxed: its frames are the items of the stream.
pub record BoxedStream (c : Crates) (stream : HttpBody c.api c.Stream (BoxError c.foreign))
    (S : Type 0) (b : TryStream c.api.Frame S (BoxError c.foreign)) : Type 0 where
  pub box : S → c.Stream
  pub poll_box :
      (now : ℕ) (s : S)
      → stream.poll_frame now (box s) ≡ ((b.poll_next now s).0, box (b.poll_next now s).1)

module _ (c : Crates) {D S E : Type 0} (bytes_from : D → c.api.Bytes)
    (into : E → BoxError c.foreign) (b : TryStream D S E) where
  -- `stream.map_ok(|d| Frame::data(Bytes::from(d))).map_err(Into::into)`
  unfoldable pub framed : TryStream c.api.Frame S (BoxError c.foreign)
  framed = record {
    poll_next = λ now s.
        let (item, s') = b.poll_next now s in
        (map_item_err into (map_item (λ d. c.api.data_frame (bytes_from d)) item), s');
  }

  -- `Body::stream`, and `Body::wrap_stream`, which only calls it.
  unfoldable pub from_stream :
      {stream : HttpBody c.api c.Stream (BoxError c.foreign)}
      → BoxedStream c stream S framed
      → S
      → Body c
  from_stream x s = streaming (x.box s)

-- `From<File>`: `new` is `ReaderStream::new`, and `reader` the stream that it makes.
module _ (c : Crates) {File S E : Type 0} (new : File → S) (into : E → BoxError c.foreign)
    (reader : TryStream c.api.Bytes S E) where
  pub from_file :
      {stream : HttpBody c.api c.Stream (BoxError c.foreign)}
      → BoxedStream c stream S (framed c (λ b. b) into reader)
      → File
      → Body c
  unfolding from_stream
  from_file x file = from_stream c (λ b. b) into reader x (new file)

module _ (c : Crates) {F S E : Type 0} (map_data : F → c.api.Frame) (into : E → BoxError c.foreign)
    (inner : AnyBody c.api F S E) where
  -- `IntoBytesBody { inner }.map_err(Into::into)`
  unfoldable pub bytes_body : HttpBody c.api S (BoxError c.foreign)
  bytes_body = map_err_body into (into_bytes_body map_data inner)

  -- `Body::wrap`
  unfoldable pub wrap :
      {stream : HttpBody c.api c.Stream (BoxError c.foreign)}
      → Boxed c stream S bytes_body
      → S
      → Body c
  wrap x s = streaming (x.box s)

-- `From` of a boxed body, of `Bytes`, of bytes (`Vec<u8>` and `&'static [u8]`) and of texts, given
-- by their bytes; and `Default`.
module _ (c : Crates) where
  pub from_box : c.Stream → Body c
  from_box s = streaming s

  pub from_bytes : c.api.Bytes → Body c
  from_bytes b = reusable b

  pub from_list : List ℕ → Body c
  from_list l = reusable (c.api.of_list l)

  pub from_text : Text → Body c
  unfolding from_list
  from_text t = from_list t

  pub default_body : Body c
  default_body = empty
