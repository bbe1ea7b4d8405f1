-- ===== src/Body/Timeouts/Response.antt =====
-- src/body.rs, `response`: a body with both timeouts.
pub mod Layers
use mathlib.Core.List.{map-append}
use httptrace.Prelude.{
  ℕ, ◌≤◌, ◌<◌, ◌≡◌, refl, ap, ◌∙◌, List, [], ◌∷◌, ◌++◌, map, All, none, some, ok, err,
}
use httptrace.Error.{BoxError, body, boxed, body_timeout}
use httptrace.Crates.{BodyApi, Crates}
use httptrace.Body.{ready, pending, Item, HttpBody, polls, map_item_err}
use httptrace.Body.Timeouts.{total_timeout, with_read_timeout, map_err_body, read_body, response}
use httptrace.Body.Timeouts.Total.{polls-total_timeout}
use httptrace.Body.Timeouts.Read.{polls-prompt, IsPrompt}

polls-map_err_body :
    {a : BodyApi} {S E F : Type 0} (f : E → F) (b : HttpBody a S E) (ts : List ℕ) (s : S)
    → polls (map_err_body f b) ts s ≡ map (map_item_err f) (polls b ts s)
unfolding polls map_err_body
polls-map_err_body f b [] s = refl
polls-map_err_body f b (t ∷ ts) s =
    ap (◌∷◌ (map_item_err f (b.poll_frame t s).0)) (polls-map_err_body f b ts (b.poll_frame t s).1)

map-map_item_err :
    {F E E' E'' : Type 0} (f : E' → E'') (g : E → E') (l : List (Item F E))
    → map (map_item_err f) (map (map_item_err g) l) ≡ map (map_item_err (λ e. f (g e))) l
map-map_item_err f g [] = refl
map-map_item_err f g (pending ∷ l) = ap (◌∷◌ pending) (map-map_item_err f g l)
map-map_item_err f g (ready none ∷ l) = ap (◌∷◌ (ready none)) (map-map_item_err f g l)
map-map_item_err f g (ready (some (ok a)) ∷ l) =
    ap (◌∷◌ (ready (some (ok a)))) (map-map_item_err f g l)
map-map_item_err f g (ready (some (err e)) ∷ l) =
    ap (◌∷◌ (ready (some (err (f (g e)))))) (map-map_item_err f g l)

module _ (c : Crates) {B E : Type 0} (into : E → BoxError c.foreign) (b : HttpBody c.api B E) where
  open c use {timer}

  -- The error of the body inside, after both wrappers.
  abbrev pub rewrapped : E → BoxError c.foreign
  rewrapped e = boxed (body (boxed (body (into e))))

  abbrev pub late : ℕ → Item c.api.Frame (BoxError c.foreign)
  late _ = ready (some (err (boxed body_timeout)))

  map-late :
      (us : List ℕ)
      → map (map_item_err boxed) (map (λ (t : ℕ). ready (some (err body_timeout))) us) ≡ map late us
  map-late [] = refl
  map-late (u ∷ us) = ap (◌∷◌ (late u)) (map-late us)

  outer :
      (l : List (Item c.api.Frame (BoxError c.foreign))) (us : List ℕ)
      → map
          (map_item_err boxed)
          (map (map_item_err body) l ++ map (λ (t : ℕ). ready (some (err body_timeout))) us)
        ≡ map (map_item_err (λ e. boxed (body e))) l ++ map late us
  outer l us = rw (map-append, map-map_item_err, map-late) refl

  polls-read_body :
      (read : ℕ) (ts : List ℕ) (s : B)
      → 0 < read
      → IsPrompt c into b
      → polls (read_body c into b) ts (record { inner = s; sleep = none; timeout = read })
        ≡ map (map_item_err (λ e. boxed (body (into e)))) (polls b ts s)
  unfolding read_body
  polls-read_body read ts s h k =
      polls-map_err_body boxed (with_read_timeout c into b) ts _
      ∙ ap (map (map_item_err boxed)) (polls-prompt c into b read ts s h k)
      ∙ map-map_item_err boxed (λ e. body (into e)) (polls b ts s)

  -- A response with both timeouts, whose body always has an item ready: polls before the total
  -- deadline are answered as by the body, with its errors wrapped twice, and every poll from the
  -- deadline on fails.
  pub polls-response :
      (s : B) (total : timer.Sleep) (read : ℕ) (ts us : List ℕ)
      → 0 < read
      → IsPrompt c into b
      → All (λ t. t < timer.deadline total) ts
      → All (λ t. timer.deadline total ≤ t) us
      → let r = response c into b s (some total) (some read) in
        polls r.methods (ts ++ us) r.state
        ≡ map (map_item_err rewrapped) (polls b ts s) ++ map late us
  unfolding response
  polls-response s total read ts us h k before after =
      polls-map_err_body boxed (total_timeout c (λ e. e) (read_body c into b)) (ts ++ us) _
      ∙ ap (map (map_item_err boxed)) (
          polls-total_timeout c (λ e. e) (read_body c into b) ts us
            (record { inner = record { inner = s; sleep = none; timeout = read }; timeout = total })
            before after)
      ∙ outer (polls (read_body c into b) ts _) us
      ∙ ap (λ l. map (map_item_err (λ e. boxed (body e))) l ++ map late us)
          (polls-read_body read ts s h k)
      ∙ ap (λ l. l ++ map late us)
          (map-map_item_err (λ e. boxed (body e)) (λ e. boxed (body (into e))) (polls b ts s))
