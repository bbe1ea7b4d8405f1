-- ===== src/Body.antt =====
-- src/body.rs: the request body, and the `HttpBody` trait that it and its wrappers implement. The
-- task context of a poll is the time at which it is made; wakers are not modelled.
pub mod DataStream
pub mod Reusable
pub mod Timeouts
pub mod Wrapping
use httptrace.Prelude.{
  ℕ, Bool, Option, none, some, Result, ok, err, map_ok, map_err, map_some, if◌then◌else◌, List, [],
  ◌∷◌,
}
use httptrace.Error.{Error, BoxError, body}
use httptrace.Crates.{BodyApi, Crates}

pub data Poll (A : Type 0) : Type 0 where
  ready : A → Poll A
  pending : Poll A

-- What a `Poll<Option<Result<Frame, E>>>` is over.
abbrev pub Item : Type 0 → Type 0 → Type 0
Item F E = Poll (Option (Result F E))

-- The trait `http_body::Body` with `Data = Bytes`, for a type `S` of bodies.
pub record HttpBody (a : BodyApi) (S E : Type 0) : Type 0 where
  pub poll_frame : ℕ → S → Item a.Frame E × S
  pub size_hint : S → a.SizeHint
  pub is_end_stream : S → Bool

-- The answers to polls at the given times.
unfoldable pub polls :
    {a : BodyApi} {S E : Type 0} → HttpBody a S E → List ℕ → S → List (Item a.Frame E)
polls b [] s = []
polls b (now ∷ ts) s = let (item, s') = b.poll_frame now s in item ∷ polls b ts s'

-- `ready!(…).map(|opt_chunk| opt_chunk.map_err(f))`
abbrev pub map_item_err : {F E E' : Type 0} → (E → E') → Item F E → Item F E'
map_item_err f pending = pending
map_item_err f (ready none) = ready none
map_item_err f (ready (some r)) = ready (some (map_err f r))

-- `Body` with its `Inner`.
pub data Body (c : Crates) : Type 0 where
  reusable : c.api.Bytes → Body c
  streaming : c.Stream → Body c

module _ {c : Crates} where
  unfoldable pub as_bytes : Body c → Option c.api.Bytes
  as_bytes (reusable bytes) = some bytes
  as_bytes (streaming s) = none

  unfoldable pub empty : Body c
  empty = reusable (c.api.of_list [])

  unfoldable pub try_reuse : Body c → Option c.api.Bytes × Body c
  try_reuse (reusable chunk) = (some chunk, reusable chunk)
  try_reuse (streaming s) = (none, streaming s)

  unfoldable pub try_clone : Body c → Option (Body c)
  try_clone (reusable chunk) = some (reusable chunk)
  try_clone (streaming s) = none

module _ (c : Crates) (stream : HttpBody c.api c.Stream (BoxError c.foreign)) where
  poll_reusable : c.api.Bytes × c.api.Bytes → Item c.api.Frame (Error c.foreign) × Body c
  poll_reusable (rest, out) =
      if c.api.is_empty out
      then (ready none, reusable rest)
      else (ready (some (ok (c.api.data_frame out))), reusable rest)

  poll_frame : ℕ → Body c → Item c.api.Frame (Error c.foreign) × Body c
  unfolding poll_reusable
  poll_frame now (reusable bytes) = poll_reusable (c.api.split_off 0 bytes)
  poll_frame now (streaming s) =
      let (item, s') = stream.poll_frame now s in (map_item_err body item, streaming s')

  size_hint : Body c → c.api.SizeHint
  size_hint (reusable bytes) = c.api.with_exact (c.api.len bytes)
  size_hint (streaming s) = stream.size_hint s

  is_end_stream : Body c → Bool
  is_end_stream (reusable bytes) = c.api.is_empty bytes
  is_end_stream (streaming s) = stream.is_end_stream s

  -- `impl HttpBody for Body`
  unfoldable pub http_body : HttpBody c.api (Body c) (Error c.foreign)
  unfolding poll_frame size_hint is_end_stream
  http_body = record {
    poll_frame = poll_frame;
    size_hint = size_hint;
    is_end_stream = is_end_stream;
  }
