-- ===== src/Body/Timeouts/Total.antt =====
-- src/body.rs: `TotalTimeoutBody` against the body inside it.
use httptrace.Prelude.{ℕ, ◌≤◌, ◌<◌, ◌≡◌, refl, ap, List, [], ◌∷◌, ◌++◌, map, All, some, err}
use httptrace.Error.{Error, BoxError, body, body_timeout}
use httptrace.Crates.{Crates}
use httptrace.Body.{ready, Item, HttpBody, polls, map_item_err}
use httptrace.Body.Timeouts.{TotalTimeoutBody, total_timeout}

module _ (c : Crates) {B E : Type 0} (into : E → BoxError c.foreign) (b : HttpBody c.api B E) where
  open c use {timer}

  abbrev wrapped : Item c.api.Frame E → Item c.api.Frame (Error c.foreign)
  wrapped = map_item_err (λ e. body (into e))

  abbrev timed_out : Item c.api.Frame (Error c.foreign)
  timed_out = ready (some (err body_timeout))

  -- From the deadline on every poll fails.
  polls-late :
      (us : List ℕ) (s : TotalTimeoutBody c B)
      → All (λ t. timer.deadline s.timeout ≤ t) us
      → polls (total_timeout c into b) us s ≡ map (λ _. timed_out) us
  unfolding polls total_timeout
  polls-late [] s h = refl
  polls-late (t ∷ us) s h =
      rw (timer.poll_over t s.timeout h.0)
        (ap (◌∷◌ timed_out) (polls-late us _ (rw (timer.deadline_poll t s.timeout) h.1)))

  -- Polls before the deadline are answered as by the body inside, with its errors wrapped, and every
  -- poll from the deadline on by `BodyTimeout`: the deadline is never moved.
  pub polls-total_timeout :
      (ts us : List ℕ) (s : TotalTimeoutBody c B)
      → All (λ t. t < timer.deadline s.timeout) ts
      → All (λ t. timer.deadline s.timeout ≤ t) us
      → polls (total_timeout c into b) (ts ++ us) s
        ≡ map wrapped (polls b ts s.inner) ++ map (λ _. timed_out) us
  unfolding polls total_timeout
  polls-total_timeout [] us s h k = unfold total_timeout in polls-late us s k
  polls-total_timeout (t ∷ ts) us s h k = rw (timer.poll_waits t s.timeout h.0) (
      ap (◌∷◌ (wrapped (b.poll_frame t s.inner).0)) (
        polls-total_timeout ts us _ (rw (timer.deadline_poll t s.timeout) h.1)
          (rw (timer.deadline_poll t s.timeout) k)))
