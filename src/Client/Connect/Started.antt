-- ===== src/Client/Connect/Started.antt =====
-- src/client.rs, `tcp_connect`: the attempts that the recorder hears of, and the one that gives the
-- stream.
use mathlib.Core.List.{Memᴰ, erase, erase-cons-head, erase-cons-tail}
use mathlib.Core.List.Memᴰ
use httptrace.Prelude.{
  ◌≡◌, refl, ap, subst, ℕ, Bool, true, false, List, [], ◌∷◌, ◌++◌, ok, err, arith, inl, inr, ◌+◌,
}
use httptrace.Net.{SocketAddr}
use httptrace.Error.{Foreign}
use httptrace.Client.Connect.{
  Effect, on_tcp_start, Pick, deadline_elapsed, timer_elapsed, received, closed, stop, turn, run,
  start, tcp_connect, fallback_interval, far_interval,
}
use httptrace.Client.Connect.Runtime.{SocketAddr-discrete, spawns, IsHonest, settle}
use httptrace.Client.Connect.Pace.{loop}

-- The addresses of the attempts whose start the recorder is told.
abbrev pub starts : List Effect → List SocketAddr
starts [] = []
starts (on_tcp_start a ∷ es) = a ∷ starts es
starts (_ ∷ es) = starts es

module _ {f : Foreign} {T : Type 0} (deadline : ℕ) where
  starts-run_done :
      (timer : ℕ) (tx : Bool) (ps : List (Pick f T))
      → starts (run true (loop [] timer tx deadline) ps).1
        ≡ spawns (run true (loop [] timer tx deadline) ps).1
  unfolding run turn
  starts-run_done timer tx [] = refl
  starts-run_done timer tx (deadline_elapsed now ∷ ps) = refl
  starts-run_done timer tx (timer_elapsed now ∷ ps) = starts-run_done (now + far_interval) false ps
  starts-run_done timer tx (received a (ok t) ∷ ps) = refl
  starts-run_done timer tx (received a (err e) ∷ ps) = starts-run_done timer tx ps
  starts-run_done timer tx (closed ∷ ps) = refl

  starts-run :
      (addrs : List SocketAddr) (timer : ℕ) (ps : List (Pick f T))
      → starts (run true (loop addrs timer true deadline) ps).1
        ≡ spawns (run true (loop addrs timer true deadline) ps).1
  unfolding run turn
  starts-run addrs timer [] = refl
  starts-run addrs timer (deadline_elapsed now ∷ ps) = refl
  starts-run [] timer (timer_elapsed now ∷ ps) = starts-run_done (now + far_interval) false ps
  starts-run (a ∷ rest) timer (timer_elapsed now ∷ ps) =
      ap (◌∷◌ a) (starts-run rest (timer + fallback_interval) ps)
  starts-run addrs timer (received a (ok t) ∷ ps) = refl
  starts-run addrs timer (received a (err e) ∷ ps) = starts-run addrs timer ps
  starts-run addrs timer (closed ∷ ps) = refl

-- The recorder is told of the start of exactly the attempts that are spawned, in their order.
pub starts-tcp_connect :
    {f : Foreign} {T : Type 0} (now tcp_timeout : ℕ) (addrs : List SocketAddr)
    (ps : List (Pick f T))
    → starts (tcp_connect true now tcp_timeout addrs ps).1
      ≡ spawns (tcp_connect true now tcp_timeout addrs ps).1
unfolding tcp_connect
starts-tcp_connect now tcp_timeout addrs ps = starts-run (now + tcp_timeout) addrs now ps

mem-erase :
    (d a : SocketAddr) (l : List SocketAddr) → Memᴰ d (erase SocketAddr-discrete l a) → Memᴰ d l
mem-erase d a [] m = m
mem-erase d a (x ∷ l) m = elim (SocketAddr-discrete x a) [
  | yes e ↦ Memᴰ.tail (
      subst (Memᴰ d) (erase-cons-head SocketAddr-discrete a l)
        (subst (λ y. Memᴰ d (erase SocketAddr-discrete (y ∷ l) a)) e m))
  | no n ↦ elim (Memᴰ.cases_cons (subst (Memᴰ d) (erase-cons-tail SocketAddr-discrete l n) m)) [
    | inl same ↦ Memᴰ.head same
    | inr more ↦ Memᴰ.tail (mem-erase d a l more)
  ]
]

mem-middle :
    (b a : SocketAddr) (q l : List SocketAddr) → Memᴰ b ((a ∷ q) ++ l) → Memᴰ b (q ++ a ∷ l)
mem-middle b a q l m = elim (Memᴰ.cases_cons m) [
  | inl e ↦ Memᴰ.append_right q (Memᴰ.head e)
  | inr k ↦ elim (Memᴰ.append_cases q k) [
    | inl n ↦ Memᴰ.append_left (a ∷ l) n
    | inr n ↦ Memᴰ.append_right q (Memᴰ.tail n)
  ]
]

mem-append_erase :
    (b a : SocketAddr) (q l : List SocketAddr)
    → Memᴰ b (erase SocketAddr-discrete q a ++ l)
    → Memᴰ b (q ++ l)
mem-append_erase b a q l m = elim (Memᴰ.append_cases (erase SocketAddr-discrete q a) m) [
  | inl n ↦ Memᴰ.append_left l (mem-erase b a q n)
  | inr n ↦ Memᴰ.append_right q n
]

module _ {f : Foreign} {T : Type 0} (t : T) where
  -- An attempt that gave the stream and is among some.
  abbrev pub Reached : List (Pick f T) → List SocketAddr → Type 0
  Reached ps l = (dest : SocketAddr) × Memᴰ (received dest (ok t)) ps × Memᴰ dest l

  Reached-later :
      (p : Pick f T) (ps : List (Pick f T)) (l l' : List SocketAddr)
      → ((a : SocketAddr) → Memᴰ a l → Memᴰ a l')
      → Reached ps l
      → Reached (p ∷ ps) l'
  Reached-later p ps l l' h (dest, m, n) = (dest, Memᴰ.tail m, h dest n)

  run-Reached :
      (deadline timer : ℕ) (addrs : List SocketAddr) (tx : Bool) (pending : List SocketAddr)
      (ps : List (Pick f T))
      → IsHonest true (loop addrs timer tx deadline) pending ps
      → (run true (loop addrs timer tx deadline) ps).0 ≡ stop (ok t)
      → Reached ps (pending ++ spawns (run true (loop addrs timer tx deadline) ps).1)
  unfolding run turn settle
  run-Reached deadline timer addrs tx q [] h e = absurd (ground arith)
  run-Reached deadline timer addrs tx q (deadline_elapsed now ∷ ps) h e = absurd (ground arith)
  run-Reached deadline timer [] tx q (timer_elapsed now ∷ ps) h e =
      Reached-later _ ps _ _ (λ a m. m)
        (run-Reached deadline (now + far_interval) [] false q ps h.1 e)
  run-Reached deadline timer (a ∷ rest) true q (timer_elapsed now ∷ ps) h e =
      Reached-later _ ps _ _ (λ b m. mem-middle b a q _ m)
        (run-Reached deadline (timer + fallback_interval) rest true _ ps h.1 e)
  run-Reached deadline timer (a ∷ rest) false q (timer_elapsed now ∷ ps) h e =
      Reached-later _ ps _ _ (λ b m. m)
        (run-Reached deadline (timer + fallback_interval) rest false q ps h.1 e)
  run-Reached deadline timer addrs tx q (received a (ok t') ∷ ps) h e =
      (a, Memᴰ.head (ground arith), Memᴰ.append_left _ h.0)
  run-Reached deadline timer addrs tx q (received a (err i) ∷ ps) h e =
      Reached-later _ ps _ _ (λ b m. mem-append_erase b a q _ m)
        (run-Reached deadline timer addrs tx (erase SocketAddr-discrete q a) ps h.1 e)
  run-Reached deadline timer addrs tx q (closed ∷ ps) h e = absurd (ground arith)

  -- A stream that an honest run gives is that of an attempt that it started.
  pub tcp_connect-Reached :
      (now tcp_timeout : ℕ) (addrs : List SocketAddr) (ps : List (Pick f T))
      → IsHonest true (start now tcp_timeout addrs) [] ps
      → (tcp_connect true now tcp_timeout addrs ps).0 ≡ stop (ok t)
      → Reached ps (spawns (tcp_connect true now tcp_timeout addrs ps).1)
  unfolding tcp_connect
  tcp_connect-Reached now tcp_timeout addrs ps =
      run-Reached (now + tcp_timeout) now addrs true [] ps
