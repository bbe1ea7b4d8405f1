-- ===== src/Client/Connect/Pace.antt =====
-- src/client.rs, `tcp_connect`: in which order and how fast the attempts start.
use httptrace.Prelude.{
  ℕ, ◌+◌, ◌*◌, ◌≤◌, ◌≡◌, refl, Bool, true, false, List, [], ◌∷◌, ◌++◌, ok, err, ap, arith, inl, inr,
  ◌⊎◌, length,
}
use httptrace.Net.{SocketAddr}
use httptrace.Error.{Foreign, all_tcp_connect_failed}
use httptrace.Client.Connect.{
  Pick, deadline_elapsed, timer_elapsed, received, closed, Loop, stop, turn, run, start,
  tcp_connect, fallback_interval, far_interval,
}
use httptrace.Client.Connect.Runtime.{
  spawns, IsHonest, settle, spawns_laws, spawns-append, spawns-start,
}

abbrev pub loop : List SocketAddr → ℕ → Bool → ℕ → Loop
loop addrs timer tx deadline = record { addrs = addrs; timer = timer; tx = tx; deadline = deadline }

module _ {f : Foreign} {T : Type 0} (b : Bool) (deadline : ℕ) where
  -- Without the sender nothing is spawned.
  spawns-run_done :
      (timer : ℕ) (tx : Bool) (ps : List (Pick f T))
      → spawns (run b (loop [] timer tx deadline) ps).1 ≡ []
  unfolding run turn
  spawns-run_done timer tx [] = refl
  spawns-run_done timer tx (deadline_elapsed now ∷ ps) = refl
  spawns-run_done timer tx (timer_elapsed now ∷ ps) = spawns-run_done (now + far_interval) false ps
  spawns-run_done timer tx (received a (ok t) ∷ ps) = simp spawns_laws
  spawns-run_done timer tx (received a (err e) ∷ ps) =
      simp spawns_laws (spawns-run_done timer tx ps)
  spawns-run_done timer tx (closed ∷ ps) = refl

  spawns-run :
      (addrs : List SocketAddr) (timer : ℕ) (ps : List (Pick f T))
      → (rest : List SocketAddr) × (spawns (run b (loop addrs timer true deadline) ps).1 ++ rest
          ≡ addrs)
  unfolding run turn
  spawns-run addrs timer [] = (addrs, refl)
  spawns-run addrs timer (deadline_elapsed now ∷ ps) = (addrs, refl)
  spawns-run [] timer (timer_elapsed now ∷ ps) = ([], rw spawns-run_done)
  spawns-run (a ∷ rest) timer (timer_elapsed now ∷ ps) =
      let (more, e) = spawns-run rest (timer + fallback_interval) ps in
      (more, rw (spawns-append, spawns-start) (ap (◌∷◌ a) e))
  spawns-run addrs timer (received a (ok t) ∷ ps) = (addrs, simp spawns_laws)
  spawns-run addrs timer (received a (err e) ∷ ps) =
      let (more, k) = spawns-run addrs timer ps in (more, simp spawns_laws k)
  spawns-run addrs timer (closed ∷ ps) = (addrs, refl)

-- Whatever branches the loop takes, the addresses that it tries are the first ones of the list, in
-- the list's order and each once.
pub tcp_connect_order :
    {f : Foreign} {T : Type 0} (recorder : Bool) (now tcp_timeout : ℕ) (addrs : List SocketAddr)
    (picks : List (Pick f T))
    → (rest : List SocketAddr) × (spawns (tcp_connect recorder now tcp_timeout addrs picks).1
          ++ rest
        ≡ addrs)
unfolding tcp_connect
tcp_connect_order recorder now tcp_timeout addrs picks =
    spawns-run recorder (now + tcp_timeout) addrs now picks

module _ {f : Foreign} {T : Type 0} where
  -- Every sleep that a run waited for was over by `end`.
  abbrev pub UpTo : ℕ → List (Pick f T) → Type 0
  UpTo end [] = Unit
  UpTo end (timer_elapsed now ∷ ps) = (now ≤ end) × UpTo end ps
  UpTo end (_ ∷ ps) = UpTo end ps

abbrev Paced : ℕ → ℕ → List SocketAddr → Type 0
Paced end timer l = (l ≡ []) ⊎ (length l * fallback_interval + timer ≤ end + fallback_interval)

Paced-cons :
    (a : SocketAddr) (end timer : ℕ) (l : List SocketAddr)
    → timer ≤ end
    → Paced end (timer + fallback_interval) l
    → Paced end timer (a ∷ l)
Paced-cons a end timer l h (inl e) = inr (rw e (omega arith))
Paced-cons a end timer l h (inr k) = inr (omega arith)

module _ {f : Foreign} {T : Type 0} (b : Bool) (deadline end : ℕ) where
  run-Paced :
      (addrs : List SocketAddr) (timer : ℕ) (pending : List SocketAddr) (ps : List (Pick f T))
      → UpTo end ps
      → IsHonest b (loop addrs timer true deadline) pending ps
      → Paced end timer (spawns (run b (loop addrs timer true deadline) ps).1)
  unfolding run turn settle
  run-Paced addrs timer q [] u h = inl refl
  run-Paced addrs timer q (deadline_elapsed now ∷ ps) u h = inl refl
  run-Paced [] timer q (timer_elapsed now ∷ ps) u h = inl (spawns-run_done b deadline _ false ps)
  run-Paced (a ∷ rest) timer q (timer_elapsed now ∷ ps) u h =
      rw (spawns-append, spawns-start)
        (Paced-cons a end timer _ (omega arith)
          (run-Paced rest (timer + fallback_interval) _ ps u.1 h.1))
  run-Paced addrs timer q (received a (ok t) ∷ ps) u h = inl (simp spawns_laws)
  run-Paced addrs timer q (received a (err e) ∷ ps) u h =
      simp spawns_laws (run-Paced addrs timer _ ps u h.1)
  run-Paced addrs timer q (closed ∷ ps) u h = inl refl

-- How many attempts have started by a time: a run that keeps the runtime's promises and whose
-- sleeps were all over by `end` has started one attempt and at most one more for each full three
-- seconds from its start to `end`. (A loop that comes late to its sleeps can start attempts closer
-- together than that, since each sleep is set from the one before it.)
pub tcp_connect_pace :
    {f : Foreign} {T : Type 0} (recorder : Bool) (now tcp_timeout end : ℕ) (addrs : List SocketAddr)
    (picks : List (Pick f T))
    → UpTo end picks
    → now ≤ end
    → IsHonest recorder (start now tcp_timeout addrs) [] picks
    → length (spawns (tcp_connect recorder now tcp_timeout addrs picks).1) * fallback_interval + now
      ≤ end + fallback_interval
unfolding tcp_connect
tcp_connect_pace recorder now tcp_timeout end addrs picks u n h =
    ground (arith, run-Paced recorder (now + tcp_timeout) end addrs now [] picks u h)

module _ {f : Foreign} {T : Type 0} (b : Bool) (deadline end : ℕ) where
  run-failing :
      (addrs : List SocketAddr) (timer : ℕ) (pending : List SocketAddr) (ps : List (Pick f T))
      → UpTo end ps
      → IsHonest b (loop addrs timer true deadline) pending ps
      → (run b (loop addrs timer true deadline) ps).0 ≡ stop (err all_tcp_connect_failed)
      → length addrs * fallback_interval + timer ≤ end
  unfolding run turn settle
  run-failing addrs timer q [] u h e = absurd (ground arith)
  run-failing addrs timer q (deadline_elapsed now ∷ ps) u h e = absurd (ground arith)
  run-failing [] timer q (timer_elapsed now ∷ ps) u h e = omega (arith, h.0, u.0)
  run-failing (a ∷ rest) timer q (timer_elapsed now ∷ ps) u h e =
      omega (arith, run-failing rest (timer + fallback_interval) _ ps u.1 h.1 e)
  run-failing addrs timer q (received a (ok t) ∷ ps) u h e = absurd (ground arith)
  run-failing addrs timer q (received a (err i) ∷ ps) u h e = run-failing addrs timer _ ps u h.1 e
  run-failing addrs timer q (closed ∷ ps) u h e = absurd (ground (arith, h.0.0))

-- That all connections failed is reported late: a run that keeps the runtime's promises and ends
-- with `AllTcpConnectFailed` has waited for a time that is at least three seconds for each address
-- after its start, however early the last attempt failed.
pub tcp_connect_failing :
    {f : Foreign} {T : Type 0} (recorder : Bool) (now tcp_timeout end : ℕ) (addrs : List SocketAddr)
    (picks : List (Pick f T))
    → UpTo end picks
    → IsHonest recorder (start now tcp_timeout addrs) [] picks
    → (tcp_connect recorder now tcp_timeout addrs picks).0 ≡ stop (err all_tcp_connect_failed)
    → length addrs * fallback_interval + now ≤ end
unfolding tcp_connect
tcp_connect_failing recorder now tcp_timeout end addrs picks u h e =
    run-failing recorder (now + tcp_timeout) end addrs now [] picks u h e
