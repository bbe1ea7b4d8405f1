-- ===== src/Body/Timeouts/Response/Layers.antt =====
-- src/body.rs, `response`: the answers of a body with any of the two timeouts, in times.
use httptrace.Prelude.{
  ℕ, ◌≤◌, ◌<◌, ◌≡◌, sym, ap, ◌∙◌, List, ◌++◌, map, All, Option, none, some, err,
}
use httptrace.Error.{BoxError, body, boxed, body_timeout}
use httptrace.Crates.{Crates}
use httptrace.Body.{ready, Item, HttpBody, polls, map_item_err}
use httptrace.Body.Timeouts.{total_timeout, with_read_timeout, read_body, boxed_body, response}
use httptrace.Body.Timeouts.Total.{polls-total_timeout}
use httptrace.Body.Timeouts.Read.{read_answers, polls-with_read_timeout}
use httptrace.Body.Timeouts.Response.{polls-map_err_body, map-map_item_err, late, outer}

module _ (c : Crates) {B E : Type 0} (into : E → BoxError c.foreign) (b : HttpBody c.api B E) where
  open c use {timer}

  -- The answers under a read timeout, if there is one.
  abbrev pub read_layer : Option ℕ → List ℕ → B → List (Item c.api.Frame (BoxError c.foreign))
  read_layer none ts s = map (map_item_err into) (polls b ts s)
  read_layer (some read) ts s = map (map_item_err boxed) (read_answers c into b read none ts s)

  -- The polls of `ts` come before the total deadline, if there is one, and those of `us` after it.
  abbrev pub IsSplit : Option timer.Sleep → List ℕ → List ℕ → Type 0
  IsSplit none ts us = Unit
  IsSplit (some total) ts us =
      All (λ t. t < timer.deadline total) ts × All (λ t. timer.deadline total ≤ t) us

  -- The answers under both.
  abbrev pub layers :
      Option timer.Sleep
      → Option ℕ
      → List ℕ
      → List ℕ
      → B
      → List (Item c.api.Frame (BoxError c.foreign))
  layers none read ts us s = read_layer read (ts ++ us) s
  layers (some total) read ts us s =
      map (map_item_err (λ e. boxed (body e))) (read_layer read ts s) ++ map (late c into b) us

  polls-read_layer :
      (read : ℕ) (ts : List ℕ) (s : B)
      → polls (read_body c into b) ts (record { inner = s; sleep = none; timeout = read })
        ≡ read_layer (some read) ts s
  unfolding read_body
  polls-read_layer read ts s =
      polls-map_err_body boxed (with_read_timeout c into b) ts _
      ∙ ap (map (map_item_err boxed)) (polls-with_read_timeout c into b read none ts s none tt)

  -- Whatever timeouts `response` is given, and whatever the body does: polls before the total
  -- deadline are answered as by the body under the read timeout, which is described in times, or as
  -- by the body if there is none; a poll from the deadline on fails with `BodyTimeout`; and each
  -- timeout wraps the errors once.
  pub response-layers :
      (s : B) (total : Option timer.Sleep) (read : Option ℕ) (ts us : List ℕ)
      → IsSplit total ts us
      → let r = response c into b s total read in
        polls r.methods (ts ++ us) r.state ≡ layers total read ts us s
  unfolding response boxed_body
  response-layers s none none ts us h = polls-map_err_body into b (ts ++ us) s
  response-layers s none (some read) ts us h = polls-read_layer read (ts ++ us) s
  response-layers s (some total) none ts us h =
      polls-map_err_body boxed (total_timeout c into b) (ts ++ us) _
      ∙ ap (map (map_item_err boxed)) (
          polls-total_timeout c into b ts us (record { inner = s; timeout = total }) h.0 h.1
          ∙ ap (λ l. l ++ map (λ (t : ℕ). ready (some (err body_timeout))) us)
              (sym (map-map_item_err body into (polls b ts s))))
      ∙ outer c into b (map (map_item_err into) (polls b ts s)) us
  response-layers s (some total) (some read) ts us h =
      polls-map_err_body boxed (total_timeout c (λ e. e) (read_body c into b)) (ts ++ us) _
      ∙ ap (map (map_item_err boxed)) (
          polls-total_timeout c (λ e. e) (read_body c into b) ts us
            (record { inner = record { inner = s; sleep = none; timeout = read }; timeout = total })
            h.0 h.1)
      ∙ outer c into b (polls (read_body c into b) ts _) us
      ∙ ap (λ l. map (map_item_err (λ e. boxed (body e))) l ++ map (late c into b) us)
          (polls-read_layer read ts s)
