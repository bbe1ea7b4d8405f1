-- ===== src/Body/Timeouts.antt =====
-- src/body.rs: the bodies with a total timeout and with a read timeout, and `response`, which puts
-- them around a body.
pub mod Total
pub mod Read
pub mod Response
use httptrace.Prelude.{
  ℕ, Bool, Option, none, some, Result, ok, err, map_err, if◌then◌else◌, unwrap_or, true, false,
}
use httptrace.Error.{Error, BoxError, body, boxed, body_timeout}
use httptrace.Crates.{BodyApi, Crates}
use httptrace.Body.{Poll, ready, pending, Item, HttpBody, map_item_err}

-- `TotalTimeoutBody`, `ReadTimeoutBody`
pub record TotalTimeoutBody (c : Crates) (B : Type 0) : Type 0 where
  pub inner : B
  pub timeout : c.timer.Sleep

pub record ReadTimeoutBody (c : Crates) (B : Type 0) : Type 0 where
  pub inner : B
  pub sleep : Option c.timer.Sleep
  pub timeout : ℕ

-- `E: Into<Box<dyn Error + Send + Sync>>`: `into` is the conversion of the inner body's errors.
module _ (c : Crates) {B E : Type 0} (into : E → BoxError c.foreign) (b : HttpBody c.api B E) where
  total_poll : ℕ → TotalTimeoutBody c B → Item c.api.Frame (Error c.foreign) × TotalTimeoutBody c B
  total_poll now s =
      let (over, timeout) = c.timer.poll now s.timeout in
      let (item, inner) = b.poll_frame now s.inner in
      if over
      then (ready (some (err body_timeout)), record s { timeout = timeout })
      else (map_item_err (λ e. body (into e)) item, record { inner = inner; timeout = timeout })

  unfoldable pub total_timeout : HttpBody c.api (TotalTimeoutBody c B) (Error c.foreign)
  unfolding total_poll
  total_timeout = record {
    poll_frame = total_poll;
    size_hint = λ s. b.size_hint s.inner;
    is_end_stream = λ s. b.is_end_stream s.inner;
  }

  -- A frame that is ready, or the end, resets the sleep.
  read_item :
      ReadTimeoutBody c B
      → c.timer.Sleep
      → Item c.api.Frame E × B
      → Item c.api.Frame (Error c.foreign) × ReadTimeoutBody c B
  read_item s sleep (pending, inner) = (pending, record s { inner = inner; sleep = some sleep })
  read_item s sleep (ready item, inner) =
      (map_item_err (λ e. body (into e)) (ready item), record s { inner = inner; sleep = none })

  read_poll : ℕ → ReadTimeoutBody c B → Item c.api.Frame (Error c.foreign) × ReadTimeoutBody c B
  unfolding read_item
  read_poll now s =
      let active : c.timer.Sleep = unwrap_or (c.timer.sleep now s.timeout) s.sleep in
      let (over, sleep) = c.timer.poll now active in
      if over
      then (ready (some (err body_timeout)), record s { sleep = some sleep })
      else read_item s sleep (b.poll_frame now s.inner)

  unfoldable pub with_read_timeout : HttpBody c.api (ReadTimeoutBody c B) (Error c.foreign)
  unfolding read_poll
  with_read_timeout = record {
    poll_frame = read_poll;
    size_hint = λ s. b.size_hint s.inner;
    is_end_stream = λ s. b.is_end_stream s.inner;
  }

-- `BodyExt::map_err`
unfoldable pub map_err_body :
    {a : BodyApi} {S E F : Type 0} → (E → F) → HttpBody a S E → HttpBody a S F
map_err_body f b = record {
  poll_frame = λ now s. let (item, s') = b.poll_frame now s in (map_item_err f item, s');
  size_hint = b.size_hint;
  is_end_stream = b.is_end_stream;
}

-- `BodyExt::boxed`: a body with the type of its state forgotten.
pub record BoxBody (a : BodyApi) (E : Type 0) : Type 1 where
  pub State : Type 0
  pub methods : HttpBody a State E
  pub state : State

module _ (c : Crates) {B E : Type 0} (into : E → BoxError c.foreign) (b : HttpBody c.api B E) where
  -- `boxed`
  unfoldable pub boxed_body : B → BoxBody c.api (BoxError c.foreign)
  boxed_body s = record { State = B; methods = map_err_body into b; state = s }

  read_body : HttpBody c.api (ReadTimeoutBody c B) (BoxError c.foreign)
  read_body = map_err_body boxed (with_read_timeout c into b)

  unfoldable pub response : B → Option c.timer.Sleep → Option ℕ → BoxBody c.api (BoxError c.foreign)
  unfolding read_body
  response s (some total) (some read) = record {
    State = TotalTimeoutBody c (ReadTimeoutBody c B);
    methods = map_err_body boxed (total_timeout c (λ e. e) read_body);
    state = record { inner = record { inner = s; sleep = none; timeout = read }; timeout = total };
  }
  response s (some total) none = record {
    State = TotalTimeoutBody c B;
    methods = map_err_body boxed (total_timeout c into b);
    state = record { inner = s; timeout = total };
  }
  response s none (some read) = record {
    State = ReadTimeoutBody c B;
    methods = read_body;
    state = record { inner = s; sleep = none; timeout = read };
  }
  response s none none = boxed_body s
