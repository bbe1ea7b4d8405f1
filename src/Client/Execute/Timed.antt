-- ===== src/Client/Execute/Timed.antt =====
-- src/client.rs and src/stats.rs together: the statistics of an execution.
use httptrace.Prelude.{
  ◌⊎◌, ℕ, ◌-◌, ◌≤◌, ◌<◌, ◌≡◌, refl, ap, subst, none, some, List, [], ◌∷◌, ◌++◌, map, ok, err, arith,
  All, All-mono, Option-cases, inl, inr, Text,
}
use httptrace.Recorder.{
  Call, dns_start, dns_done, tcp_start, tcp_done, tls_start, tls_done, request_start,
}
use httptrace.Crates.{Crates}
use httptrace.Request.{Request}
use httptrace.Client.Builder.{Client}
use httptrace.Client.Async.{Transport, Event, call, spawned, cancelled, sent, Async, ◌>>=◌}
use httptrace.Client.Async.Hearing.{calls}
use httptrace.Client.Async.Order.{phase, InOrder}
use httptrace.Client.Resolve.{dns_resolve}
use httptrace.Client.Resolve.Laws.{dns_resolve-start, dns_resolve-no_host}
use httptrace.Client.Execute.{Outside, timed, connected, execute_inner, execute}
use httptrace.Client.Execute.Order.{events-timed, execute-InOrder}
use httptrace.Stats.{Readings, init, replay, finish}
use httptrace.Stats.Timing.{IsLater, NoLongerThan, replay-NoLongerThan}

module _ {c : Crates} where
  -- The first event of a list.
  abbrev Starts : Event c → List (Event c) → Type 0
  Starts e es = (rest : List (Event c)) × (es ≡ e ∷ rest)

  Starts-bind :
      {A B : Type 0} (e : Event c) (p : Async c A) (f : A → Async c B)
      → Starts e p.0
      → Starts e (p >>= f).0
  Starts-bind e (es, none) f h = h
  Starts-bind e (es, some (err i)) f h = h
  Starts-bind e (es, some (ok a)) f (rest, h) = (rest ++ (f a).0, ap (λ l. l ++ (f a).0) h)

  calls-late :
      (es : List (Event c))
      → All (λ e. 0 < phase e) es
      → All (λ k. 0 < phase {c = c} (call k)) (calls es)
  calls-late [] h = tt
  calls-late (call k ∷ es) h = (h.0, calls-late es h.1)
  calls-late (spawned a ∷ es) h = calls-late es h.1
  calls-late (cancelled ∷ es) h = calls-late es h.1
  calls-late (sent channel q ∷ es) h = calls-late es h.1

module _ (c : Crates) where
  IsLater-call :
      (lo hi now : ℕ) (k : Call c.display)
      → 0 < phase {c = c} (call k)
      → (lo ≤ now) × (now ≤ hi)
      → IsLater c.display lo hi (now, k)
  IsLater-call lo hi now (dns_start servers host) h b = absurd (omega (arith, h))
  IsLater-call lo hi now (dns_done servers host r) h b = b
  IsLater-call lo hi now (tcp_start a) h b = b
  IsLater-call lo hi now (tcp_done a r) h b = b
  IsLater-call lo hi now tls_start h b = b
  IsLater-call lo hi now (tls_done r) h b = b
  IsLater-call lo hi now request_start h b = b

  All-IsLater :
      (lo hi : ℕ) (cs : List (ℕ × Call c.display))
      → All (λ k. 0 < phase {c = c} (call k)) (map (λ e. e.1) cs)
      → All (λ e. (lo ≤ e.0) × (e.0 ≤ hi)) cs
      → All (IsLater c.display lo hi) cs
  All-IsLater lo hi [] h b = tt
  All-IsLater lo hi ((now, k) ∷ cs) h b =
      (IsLater-call lo hi now k h.0 b.0, All-IsLater lo hi cs h.1 b.1)

module _ (c : Crates) (x : Transport c) (client : Client c) (r : Request c) (o : Outside c x) where
  -- With a recorder and a host, the first event is the start of name resolution.
  execute-start :
      (recorder : c.Recorder) (host : Text)
      → r.recorder ≡ some recorder
      → c.http.host r.uri ≡ some host
      → Starts
          (call (dns_start (c.hickory.name_servers client.resolver.config) host))
          (execute c x client r o).0
  unfolding execute execute_inner
  execute-start recorder host e h =
      rw (events-timed c x client o o.elapsed (execute_inner c x client r o)) (
        Starts-bind _ (dns_resolve c client r o.lookup) (connected c x client r o)
          (dns_resolve-start c client r recorder host o.lookup e h))

  execute-no_host : c.http.host r.uri ≡ none → (execute c x client r o).0 ≡ []
  unfolding execute execute_inner
  execute-no_host h = rw (dns_resolve-no_host c client r o.lookup h) (unfold timed in refl)

  calls-execute :
      (recorder : c.Recorder)
      → r.recorder ≡ some recorder
      → (calls (execute c x client r o).0 ≡ [])
        ⊎ ((servers : List c.display.NameServer) × (host : Text) × (later : List (Call c.display))
            × (calls (execute c x client r o).0 ≡ dns_start servers host ∷ later)
            × All (λ k. 0 < phase {c = c} (call k)) later)
  calls-execute recorder e = elim (Option-cases (c.http.host r.uri)) [
    | inl h ↦ inl (ap calls (execute-no_host h))
    | inr (host, h) ↦
        let (rest, starts) = execute-start recorder host e h in
        let ordered = subst InOrder starts (execute-InOrder c x client r o) in
        inr (
          _,
          host,
          calls rest,
          ap calls starts,
          calls-late rest (All-mono (λ e' k. ground (arith, k)) rest ordered.0),
        )
  ]

  -- What a recorder that keeps statistics reports of an execution: if the calls that the execution
  -- makes are `first` at time `lo` and then those of `cs`, at times from `lo` to the reading of
  -- `finish`, then the total is the time from `lo` to that reading, and name resolution, each
  -- connection attempt, the TLS handshake and the request each last at most the total.
  pub execute-NoLongerThan :
      (recorder : c.Recorder) (lo : ℕ) (first : Call c.display) (cs : List (ℕ × Call c.display))
      (t : Readings)
      → r.recorder ≡ some recorder
      → calls (execute c x client r o).0 ≡ first ∷ map (λ e. e.1) cs
      → All (λ e. (lo ≤ e.0) × (e.0 ≤ t.now)) cs
      → let s = finish t (replay c.display ((lo, first) ∷ cs) init) in
        (s.total_duration ≡ t.now - lo) × NoLongerThan s.total_duration s
  execute-NoLongerThan recorder lo first cs t e heard b = elim (calls-execute recorder e) [
    | inl none_heard ↦ absurd (ground arith)
    | inr (servers, host, later, all, late) ↦ rw (first_is servers host later all) (
        replay-NoLongerThan c.display lo servers host cs t
          (All-IsLater c lo t.now cs (subst (All _) (rest_is servers host later all) late) b))
  ]
    where
      first_is :
          (servers : List c.display.NameServer) (host : Text) (later : List (Call c.display))
          → calls (execute c x client r o).0 ≡ dns_start servers host ∷ later
          → first ≡ dns_start servers host
      first_is servers host later all = ground arith

      rest_is :
          (servers : List c.display.NameServer) (host : Text) (later : List (Call c.display))
          → calls (execute c x client r o).0 ≡ dns_start servers host ∷ later
          → later ≡ map (λ e. e.1) cs
      rest_is servers host later all = ground arith
