-- ===== src/Body/DataStream.antt =====
-- src/body.rs: `DataStream`, the stream of a body's data. Its loop passes over the frames that are
-- not data, as many as the body has ready in a row; here it has fuel.
use httptrace.Prelude.{ℕ, zero, suc, ◌<◌, ◌≡◌, refl, ◌∙◌, Option, none, some, ok, err, arith}
use httptrace.Crates.{BodyApi}
use httptrace.Body.{ready, pending, Item, HttpBody}

module _ (a : BodyApi) {S E : Type 0} (b : HttpBody a S E) where
  -- One turn of the loop, with what the further turns would give.
  loop_turn : Item a.Frame E × S → Option (Item a.Bytes E × S) → Option (Item a.Bytes E × S)
  loop_turn (pending, s) again = some (pending, s)
  loop_turn (ready none, s) again = some (ready none, s)
  loop_turn (ready (some (err e)), s) again = some (ready (some (err e)), s)
  loop_turn (ready (some (ok frame)), s) again = elim (a.into_data frame) [
    | ok buf ↦ some (ready (some (ok buf)), s)
    | err frame ↦ again
  ]

  -- `poll_next`; `none` if the fuel is gone.
  unfoldable pub poll_next : ℕ → ℕ → S → Option (Item a.Bytes E × S)
  unfolding loop_turn
  poll_next zero now s = none
  poll_next (suc fuel) now s =
      let again = poll_next fuel now (b.poll_frame now s).1 in loop_turn (b.poll_frame now s) again

  -- From the first state the body gives, at this time, so many frames that are not data, and is
  -- then in the second state.
  pub data Skips (now : ℕ) : S → ℕ → S → Type 0 where
    here : (s : S) → Skips now s 0 s
    skip :
        (s s' : S) (n : ℕ) (frame rest : a.Frame)
        → (b.poll_frame now s).0 ≡ ready (some (ok frame))
        → a.into_data frame ≡ err rest
        → Skips now (b.poll_frame now s).1 n s'
        → Skips now s (suc n) s'

  -- The answer of a body that is no frame without data, as an answer of the stream.
  pub data Answers : Item a.Frame E → Item a.Bytes E → Type 0 where
    waits : Answers pending pending
    ends : Answers (ready none) (ready none)
    fails : (e : E) → Answers (ready (some (err e))) (ready (some (err e)))
    gives :
        (frame : a.Frame) (buf : a.Bytes)
        → a.into_data frame ≡ ok buf
        → Answers (ready (some (ok frame))) (ready (some (ok buf)))

  turn-Answers :
      (i : Item a.Frame E) (s : S) (item : Item a.Bytes E) (again : Option (Item a.Bytes E × S))
      → Answers i item
      → loop_turn (i, s) again ≡ some (item, s)
  unfolding loop_turn
  turn-Answers _ s _ again waits = refl
  turn-Answers _ s _ again ends = refl
  turn-Answers _ s _ again (fails e) = refl
  turn-Answers _ s _ again (gives frame buf h) = rw (h, loop_turn) refl

  turn_skip :
      (i : Item a.Frame E) (s : S) (frame rest : a.Frame) (again : Option (Item a.Bytes E × S))
      → i ≡ ready (some (ok frame))
      → a.into_data frame ≡ err rest
      → loop_turn (i, s) again ≡ again
  unfolding loop_turn
  turn_skip i s frame rest again h k = rw (h, k) refl

  -- However many frames without data the body has ready, a poll of the stream passes over them and
  -- answers as the body does next; fuel for one turn more than there are such frames is enough.
  pub poll_next-Answers :
      (fuel now n : ℕ) (s s' : S) (item : Item a.Bytes E)
      → n < fuel
      → Skips now s n s'
      → Answers (b.poll_frame now s').0 item
      → poll_next fuel now s ≡ some (item, (b.poll_frame now s').1)
  unfolding poll_next
  poll_next-Answers zero now n s s' item l k h = absurd (omega (arith, l))
  poll_next-Answers (suc fuel) now _ s _ item l (here _) h =
      turn-Answers (b.poll_frame now s).0 (b.poll_frame now s).1 item _ h
  poll_next-Answers (suc fuel) now _ s _ item l (skip _ s' n frame rest ready_one no_data k) h =
      turn_skip (b.poll_frame now s).0 (b.poll_frame now s).1 frame rest _ ready_one no_data
      ∙ poll_next-Answers fuel now n _ s' item (omega (arith, l)) k h
