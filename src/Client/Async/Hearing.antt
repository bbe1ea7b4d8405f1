-- ===== src/Client/Async/Hearing.antt =====
-- src/client.rs: what a request's recorder hears of what an asynchronous function does.
use httptrace.Prelude.{◌∙◌, ap, ◌≡◌, refl, Option, none, some, List, [], ◌∷◌, ◌++◌, ok, err, arith}
use httptrace.Recorder.{Call}
use httptrace.Crates.{Crates}
use httptrace.Stats.Telling.{Heard, hear, hear_all}
use httptrace.Request.{Request}
use httptrace.Client.Async.{Event, call, spawned, cancelled, sent, Async, told, tell, ◌>>=◌}

module _ {c : Crates} where
  -- The calls among the events.
  abbrev pub calls : List (Event c) → List (Call c.display)
  calls [] = []
  calls (call k ∷ es) = k ∷ calls es
  calls (_ ∷ es) = calls es

  abbrev pub hears : List (Event c) → Heard → Heard
  hears es h = hear_all c.display (calls es) h

  pub hears-append :
      (xs ys : List (Event c)) (h : Heard) → hears (xs ++ ys) h ≡ hears ys (hears xs h)
  hears-append [] ys h = refl
  hears-append (call k ∷ xs) ys h = hears-append xs ys (hear c.display k h)
  hears-append (spawned a ∷ xs) ys h = hears-append xs ys h
  hears-append (cancelled ∷ xs) ys h = hears-append xs ys h
  hears-append (sent channel q ∷ xs) ys h = hears-append xs ys h

  -- Steps of which nothing is heard.
  pub hears-bind :
      {A B : Type 0} (p : Async c A) (f : A → Async c B) (h : Heard)
      → hears p.0 h ≡ h
      → ((a : A) → hears (f a).0 h ≡ h)
      → hears (p >>= f).0 h ≡ h
  hears-bind (es, none) f h e k = e
  hears-bind (es, some (err i)) f h e k = e
  hears-bind (es, some (ok a)) f h e k = hears-append es (f a).0 h ∙ ap (hears (f a).0) e ∙ k a

module _ (c : Crates) where
  hears-told :
      (o : Option c.Recorder) (recorder : c.Recorder) (k : Call c.display) (h : Heard)
      → o ≡ some recorder
      → hears (told c o k) h ≡ hear c.display k h
  hears-told none recorder k h e = absurd (ground arith)
  hears-told (some _) recorder k h e = refl

  pub hears-tell :
      (r : Request c) (recorder : c.Recorder) (k : Call c.display) (h : Heard)
      → r.recorder ≡ some recorder
      → hears (tell c r k) h ≡ hear c.display k h
  hears-tell r = hears-told r.recorder

  pub hears-then_tell :
      (r : Request c) (recorder : c.Recorder) (k : Call c.display) (es : List (Event c))
      (h h' : Heard)
      → r.recorder ≡ some recorder
      → hears es h ≡ h'
      → hears (es ++ tell c r k) h ≡ hear c.display k h'
  hears-then_tell r recorder k es h h' heard e =
      hears-append es (tell c r k) h ∙ ap (hears (tell c r k)) e ∙ hears-tell r recorder k h' heard
