-- ===== src/Body/Timeouts/Read.antt =====
-- src/body.rs: `ReadTimeoutBody`, whose sleep is started, kept and dropped, against a description
-- in times alone.
use httptrace.Prelude.{
  leb→le, leb→gt, ◌∙◌, ◌≢◌, ℕ, ◌+◌, ◌<◌, ◌≡◌, refl, ap, List, [], ◌∷◌, map, Option, none, some, err,
  unwrap_or, leb, if◌then◌else◌, false, Bool-cases, inl, inr, arith,
}
use httptrace.Error.{Error, BoxError, body, body_timeout}
use httptrace.Crates.{Crates}
use httptrace.Body.{ready, pending, Item, HttpBody, polls, map_item_err}
use httptrace.Body.Timeouts.{read_item, ReadTimeoutBody, with_read_timeout}

module _ (c : Crates) {B E : Type 0} (into : E → BoxError c.foreign) (b : HttpBody c.api B E) where
  open c use {timer}

  abbrev wrapped : Item c.api.Frame E → Item c.api.Frame (Error c.foreign)
  wrapped = map_item_err (λ e. body (into e))

  abbrev timed_out : Item c.api.Frame (Error c.foreign)
  timed_out = ready (some (err body_timeout))

  -- A wait ends with an item and goes on with none.
  abbrev waiting : ℕ → Item c.api.Frame E → Option ℕ
  waiting begun pending = some begun
  waiting begun (ready item) = none

  -- The answers when the wait for a frame began at `since`, if one is on: a poll fails if it comes
  -- `timeout` or more after the first poll that waited for this frame.
  pub read_answers : ℕ → Option ℕ → List ℕ → B → List (Item c.api.Frame (Error c.foreign))
  read_answers timeout since [] s = []
  read_answers timeout since (t ∷ ts) s =
      let begun : ℕ = unwrap_or t since in
      let (item, s') = b.poll_frame t s in
      let late = read_answers timeout (some begun) ts s in
      let rest = read_answers timeout (waiting begun item) ts s' in
      if leb (begun + timeout) t then timed_out ∷ late else wrapped item ∷ rest

  -- The sleep runs out `timeout` after the wait began.
  abbrev Agrees : ℕ → Option ℕ → Option timer.Sleep → Type 0
  Agrees timeout none none = Unit
  Agrees timeout none (some sleep) = ⊥
  Agrees timeout (some begun) none = ⊥
  Agrees timeout (some begun) (some sleep) = timer.deadline sleep ≡ begun + timeout

  deadline-active :
      (t timeout : ℕ) (since : Option ℕ) (o : Option timer.Sleep)
      → Agrees timeout since o
      → timer.deadline (unwrap_or (timer.sleep t timeout) o) ≡ unwrap_or t since + timeout
  deadline-active t timeout none none h = timer.deadline_sleep t timeout
  deadline-active t timeout (some begun) (some sleep) h = h
  deadline-active t timeout none (some sleep) h = absurd h
  deadline-active t timeout (some begun) none h = absurd h

  abbrev state : ℕ → B → Option timer.Sleep → ReadTimeoutBody c B
  state timeout s o = record { inner = s; sleep = o; timeout = timeout }

  -- `ih` is the claim for the polls that follow.
  polls-read_item :
      (timeout begun : ℕ) (ts : List ℕ) (s : B) (o : Option timer.Sleep) (sleep : timer.Sleep)
      (p : Item c.api.Frame E × B)
      → timer.deadline sleep ≡ begun + timeout
      → ((since : Option ℕ) (s' : B) (o' : Option timer.Sleep)
          → Agrees timeout since o'
          → polls (with_read_timeout c into b) ts (state timeout s' o')
            ≡ read_answers timeout since ts s')
      → let (item, next) = read_item c into b (state timeout s o) sleep p in
        ◌≡◌ {A = List (Item c.api.Frame (Error c.foreign))}
          (item ∷ polls (with_read_timeout c into b) ts next)
          (wrapped p.0 ∷ read_answers timeout (waiting begun p.0) ts p.1)
  unfolding read_item
  polls-read_item timeout begun ts s o sleep (pending, s') h ih =
      ap (◌∷◌ pending) (ih (some begun) s' (some sleep) h)
  polls-read_item timeout begun ts s o sleep (ready item, s') h ih =
      ap (◌∷◌ (wrapped (ready item))) (ih none s' none tt)

  -- A body with a read timeout answers every poll as the times say: a wait begins with the first
  -- poll after the start or after the last item, and is on while the body inside has none ready; a
  -- poll fails with `BodyTimeout`, and leaves the body inside alone, exactly if it comes `timeout` or
  -- more after the wait began; otherwise it is answered by the body inside, with its errors wrapped.
  -- The sleep that the state starts with is that of the wait, if one is on.
  pub polls-with_read_timeout :
      (timeout : ℕ) (since : Option ℕ) (ts : List ℕ) (s : B) (o : Option timer.Sleep)
      → Agrees timeout since o
      → polls (with_read_timeout c into b) ts (record { inner = s; sleep = o; timeout = timeout })
        ≡ read_answers timeout since ts s
  unfolding polls read_answers with_read_timeout
  polls-with_read_timeout timeout since [] s o h = refl
  polls-with_read_timeout timeout since (t ∷ ts) s o h =
      elim (Bool-cases (leb (unwrap_or t since + timeout) t)) [
        | inl late ↦
            rw (late, timer.poll_over t active (omega (arith, due, leb→le _ _ late)))
              (ap (◌∷◌ timed_out)
                (polls-with_read_timeout timeout (some (unwrap_or t since)) ts s (some after) kept))
        | inr early ↦
            rw (early, timer.poll_waits t active (omega (arith, due, leb→gt _ _ early)))
              (polls-read_item timeout (unwrap_or t since) ts s o after (b.poll_frame t s) kept
                (λ since' s' o' h'. polls-with_read_timeout timeout since' ts s' o' h'))
      ]
    where
      active : timer.Sleep
      active = unwrap_or (timer.sleep t timeout) o

      after : timer.Sleep
      after = (timer.poll t active).1

      due : timer.deadline active ≡ unwrap_or t since + timeout
      due = deadline-active t timeout since o h

      kept : timer.deadline after ≡ unwrap_or t since + timeout
      kept = timer.deadline_poll t active ∙ due

  -- A body that has an item ready at every poll.
  abbrev pub IsPrompt : Type 0
  IsPrompt = (t : ℕ) (s : B) → (b.poll_frame t s).0 ≢ pending

  read_answers-prompt :
      (timeout : ℕ) (ts : List ℕ) (s : B)
      → 0 < timeout
      → IsPrompt
      → read_answers timeout none ts s ≡ map wrapped (polls b ts s)
  unfolding polls read_answers
  read_answers-prompt timeout [] s h k = refl
  read_answers-prompt timeout (t ∷ ts) s h k =
      rw (not_late t timeout h, waiting-ready t (b.poll_frame t s).0 (k t s))
        (ap (◌∷◌ (wrapped (b.poll_frame t s).0)) (read_answers-prompt timeout ts _ h k))
    where
      not_late : (t timeout : ℕ) → 0 < timeout → leb (t + timeout) t ≡ false
      not_late t timeout h = ground arith

      waiting-ready : (t : ℕ) (item : Item c.api.Frame E) → item ≢ pending → waiting t item ≡ none
      waiting-ready t (ready x) h = refl
      waiting-ready t pending h = absurd (h refl)

  -- A body that never makes its reader wait never times out, however slowly it is read: with a
  -- timeout that is not zero every answer is that of the body inside, its errors wrapped.
  pub polls-prompt :
      (timeout : ℕ) (ts : List ℕ) (s : B)
      → 0 < timeout
      → IsPrompt
      → polls
          (with_read_timeout c into b)
          ts
          (record { inner = s; sleep = none; timeout = timeout })
        ≡ map wrapped (polls b ts s)
  polls-prompt timeout ts s h k =
      polls-with_read_timeout timeout none ts s none tt ∙ read_answers-prompt timeout ts s h k
