-- ===== src/Stats/Phases.antt =====
-- src/stats.rs: the TLS and request phases in `finish`, from the history alone.
use httptrace.Prelude.{ℕ, ap, ◌∙◌, ◌≡◌, refl, Option, none, some, List, [], ◌∷◌, map_some}
use httptrace.Prelude.Time.{duration_since}
use httptrace.Net.{Display}
use httptrace.Recorder.{Call, request_start}
use httptrace.Stats.{Inner, Readings, init, handle, replay, finish, request_stat, started_at}

module _ (d : Display) where
  -- When the request phase last began.
  unfoldable pub last_request : Option ℕ → List (ℕ × Call d) → Option ℕ
  last_request o [] = o
  last_request o ((now, request_start) ∷ cs) = last_request (some now) cs
  last_request o ((now, _) ∷ cs) = last_request o cs

  request-replay :
      (o : Option ℕ) (cs : List (ℕ × Call d)) (s : Inner)
      → s.request_stat ≡ map_some started_at o
      → (replay d cs s).request_stat ≡ map_some started_at (last_request o cs)
  unfolding replay last_request handle
  request-replay o [] s h = h
  request-replay o ((now, request_start) ∷ cs) s h = request-replay (some now) cs _ refl
  request-replay o ((now, c) ∷ cs) s h = request-replay o cs (handle d now c s) h

request_stat-started :
    (now reading : ℕ) (o : Option ℕ)
    → map_some (request_stat now reading) (map_some started_at o)
      ≡ map_some
          (λ (at : ℕ). record { duration = duration_since now at; extend = none; error = none })
          o
unfolding request_stat
request_stat-started now reading none = refl
request_stat-started now reading (some at) = refl

-- The request phase of `finish` runs from the last `on_request_start` to the call of `finish`, if
-- there was one, and it has neither a result nor an error: no callback ever records how the
-- request ended, so a request that failed looks like one that succeeded.
pub request_stats_lem :
    (d : Display) (t : Readings) (cs : List (ℕ × Call d))
    → (finish t (replay d cs init)).request_stats
      ≡ map_some
          (λ (at : ℕ). record { duration = duration_since t.now at; extend = none; error = none })
          (last_request d none cs)
unfolding finish
request_stats_lem d t cs =
    ap (map_some _) (request-replay d none cs init refl)
    ∙ request_stat-started t.now t.request (last_request d none cs)
