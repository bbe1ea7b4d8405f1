-- ===== src/Client/Execute/Deadline.antt =====
-- src/client.rs, `execute`: what the timeout around the execution does, and those of its phases.
use mathlib.Core.List.{Memᴰ}
use httptrace.Prelude.{
  ◌<◌, true, ℕ, ◌+◌, ◌≤◌, ◌≡◌, refl, inl, inr, ap, arith, Bool-cases, Option, none, some, List, [],
  ◌∷◌, ◌++◌, ok, leb, unwrap_or, ◌*◌,
}
use httptrace.Prelude.Time.{from_secs}
use httptrace.Crates.{Crates}
use httptrace.Request.{Request, HttpRequest}
use httptrace.Response.{HttpResponse, Response}
use httptrace.Client.Builder.{Client}
use httptrace.Client.Async.{Transport, Channel, sent}
use httptrace.Client.Async.Begins.{Awaited}
use httptrace.Client.Resolve.{dns_resolve}
use httptrace.Client.Resolve.Begins.{waits-dns_resolve}
use httptrace.Client.Handshake.{tls_handshake}
use httptrace.Client.Handshake.Begins.{waits-tls_handshake}
use httptrace.Client.Execute.{answered, execute}
use httptrace.Client.Execute.Schedule.{
  Schedule, timeout_at, in_time, awaited, all_in_time, dns_answer, tls_answer, within, limit,
  execute_at,
}
use httptrace.Client.Execute.Sending.{execute-IsSent}
use httptrace.Client.Execute.Begins.{GivesLess, IsBegun, execute-IsBegun}

module _ {A : Type 0} (d d' : ℕ) (h : d ≤ d') where
  Awaited-in_time : (answer : ℕ × A) → Awaited (in_time d answer) (in_time d' answer)
  Awaited-in_time (t, a) = ground arith

  Awaited-awaited : (o : Option (ℕ × A)) → Awaited (awaited d o) (awaited d' o)
  Awaited-awaited none = inl refl
  Awaited-awaited (some answer) = Awaited-in_time answer

  all_in_time-more :
      (l : List (ℕ × A)) → (more : List A) × (all_in_time d l ++ more ≡ all_in_time d' l)
  all_in_time-more [] = ([], refl)
  all_in_time-more ((t, a) ∷ l) = elim (Bool-cases (leb t d)) [
    | inl e ↦
        let longer : leb t d' ≡ true = ground arith in
        let (more, s) = all_in_time-more l in rw (e, longer) (more, ap (◌∷◌ a) s)
    | inr e ↦ rw e (_, refl)
  ]

awaited-some :
    {A : Type 0} (d : ℕ) (o : Option (ℕ × A)) (a : A)
    → awaited d o ≡ some a
    → (t : ℕ) × (o ≡ some (t, a)) × (t ≤ d)
awaited-some d none a h = absurd (ground arith)
awaited-some d (some (t, b)) a h = (t, ground arith, ground arith)

-- An answer that is never there before its own timeout came after another deadline.
late : {A : Type 0} (d : ℕ) (answer : ℕ × A) → in_time d answer ≡ none → d < answer.0
late d (t, a) h = ground arith

timeout_at-soon : {A : Type 0} (d : ℕ) (o : Option (ℕ × A)) → (timeout_at d o).0 ≤ d
timeout_at-soon d none = omega arith
timeout_at-soon d (some (t, a)) = ground arith

module _ (c : Crates) (x : Transport c) (client : Client c) (r : Request c) (k : Schedule c x) where
  abbrev deadline : ℕ
  deadline = k.called + limit c r

  -- A response that an execution returns is the answer to a request that it sent, and that came no
  -- later after the call than the timeout of the request, or thirty years if it has none.
  pub execute_at-respond :
      (a : Response c)
      → (execute_at c x client k r).1 ≡ ok a
      → (channel : Channel) × (q : HttpRequest c) × (resp : HttpResponse c x.Incoming) × (t : ℕ)
        × Memᴰ (sent channel q) (execute_at c x client k r).0
        × (k.respond channel q ≡ some (t, ok resp))
        × (a ≡ answered c x resp)
        × (t ≤ k.called + unwrap_or (from_secs (86400 * 365 * 30)) r.timeout)
  unfolding execute_at
  execute_at-respond a h =
      let (channel, q, resp, m, e, same) =
        (execute-IsSent c x client r (within c x client k deadline)).1 a h in
      let (t, answer, l) = awaited-some deadline (k.respond channel q) (ok resp) e in
      (channel, q, resp, t, m, answer, same, l)

  -- The phases with a timeout end by it: if name resolution still waits when the execution's timeout
  -- is over, then that one is shorter than the client's for DNS; and if the TLS handshake still
  -- waits then, with whatever request, then it began less than the client's timeout for TLS before.
  pub phases_end :
      ((dns_resolve c client r (within c x client k deadline).lookup).1 ≡ none
        → limit c r < client.dns_timeout)
      × ((r' : Request c)
          → (tls_handshake c x client r' k.native_certs (within c x client k deadline).connect).1
            ≡ none
          → k.called + limit c r < k.secured + client.tls_timeout)
  phases_end = (
    λ h.
        let over = late deadline (dns_answer c x client k) (waits-dns_resolve c client r _ h) in
        omega (arith, over, timeout_at-soon (k.called + client.dns_timeout) k.resolver),
    λ r' h.
        let (config, name, none_there) =
          waits-tls_handshake c x client r' k.native_certs (within c x client k deadline).connect
            h in
        let over = late deadline (tls_answer c x client k config name) none_there in
        omega (arith, over, timeout_at-soon (k.secured + client.tls_timeout) (k.peer config name)),
  )

module _ (c : Crates) (x : Transport c) (client : Client c) (r : Request c) (k : Schedule c x)
    (longer : ℕ) (l : limit c r ≤ longer) where
  GivesLess-within :
      GivesLess c x
        (within c x client k (k.called + limit c r))
        (within c x client k (k.called + longer))
  GivesLess-within = record {
    lookup_less = Awaited-in_time _ _ (omega arith) (dns_answer c x client k);
    same_now = refl;
    picks_less = all_in_time-more _ _ (omega arith) k.picks;
    same_certs = refl;
    same_elapsed = refl;
    connect_less =
        λ config name. Awaited-in_time _ _ (omega arith) (tls_answer c x client k config name);
    handshake_less = λ channel. Awaited-awaited _ _ (omega arith) (k.handshake channel);
    respond_less = λ channel q. Awaited-awaited _ _ (omega arith) (k.respond channel q);
  }

  -- An execution does and gives what it would with a longer timeout, or it ends with the error of
  -- its timeout after a beginning of that.
  pub execute_at-IsBegun :
      IsBegun c x k.elapsed
        (execute_at c x client k r)
        (execute c x client r (within c x client k (k.called + longer)))
  unfolding execute_at
  execute_at-IsBegun =
      execute-IsBegun c x client (within c x client k (k.called + limit c r))
        (within c x client k (k.called + longer)) GivesLess-within r
