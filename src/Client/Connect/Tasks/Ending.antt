-- ===== src/Client/Connect/Tasks/Ending.antt =====
-- src/client.rs, `tcp_connect`: what its result says of the attempts and of the time.
use mathlib.Core.List.{Memᴰ, Mem}
use mathlib.Core.List.Perm
use httptrace.Prelude.{
  ℕ, ◌+◌, ◌≤◌, ◌≡◌, subst, ap, ◌∙◌, Bool, Option, List, [], ◌∷◌, Result, ok, err, All, All-Memᴰ,
  arith,
}
use httptrace.Net.{IpAddr, SocketAddr}
use httptrace.Error.{Foreign, Error, all_tcp_connect_failed, tcp_deadline_exceeded}
use httptrace.Client.Attempt.{Sockets}
use httptrace.Client.Connect.{Pick, deadline_elapsed, timer_elapsed, received, closed, stop}
use httptrace.Client.Connect.Progress.{found}
use httptrace.Client.Connect.Outcome.{failures, Verdict, tcp_connect-Verdict}
use httptrace.Client.Connect.Tasks.{
  System, tick, finish, send, lost, dropped, begin, Runs, halt, task, turned,
}
use httptrace.Client.Connect.Tasks.Attempts.{IsFrom, IsAttempted, tcp_connect-IsHonest}

failed :
    {f : Foreign} {T : Type 0} (a : SocketAddr) (ps : List (Pick f T))
    → Memᴰ a (failures ps)
    → (e : Error f) × Memᴰ (received a (err e)) ps
failed a [] m = elim m [ ]
failed a (deadline_elapsed t ∷ ps) m = let (e, n) = failed a ps m in (e, Memᴰ.tail n)
failed a (timer_elapsed t ∷ ps) m = let (e, n) = failed a ps m in (e, Memᴰ.tail n)
failed a (received x (ok t) ∷ ps) m = let (e, n) = failed a ps m in (e, Memᴰ.tail n)
failed a (received x (err i) ∷ ps) (Memᴰ.head e) = (i, Memᴰ.head (ap (λ y. received y (err i)) e))
failed a (received x (err i) ∷ ps) (Memᴰ.tail m) = let (e, n) = failed a ps m in (e, Memᴰ.tail n)
failed a (closed ∷ ps) m = let (e, n) = failed a ps m in (e, Memᴰ.tail n)

module _ {f : Foreign} {T : Type 0} where
  abbrev IsPast : ℕ → Pick f T → Type 0
  IsPast now (deadline_elapsed t) = t ≤ now
  IsPast now _ = Unit

module _ {f : Foreign} {T : Type 0} (s : Sockets f T) (local_addr : Option IpAddr)
    (prefer_ipv6 b : Bool) where
  -- Time does not run backwards.
  clock-Runs :
      {m k : System f T} {ps : List (Pick f T)}
      → Runs s local_addr prefer_ipv6 b m ps k
      → (m.clock ≤ k.clock) × All (IsPast k.clock) ps
  clock-Runs (halt m) = (omega arith, tt)
  clock-Runs (task m n k ps (tick d) more) =
      let (l, past) = clock-Runs more in (omega (arith, l), past)
  clock-Runs (task m n k ps (finish xs a ys c ret e only gives) more) = clock-Runs more
  clock-Runs (task m n k ps (send xs msg ys e room) more) = clock-Runs more
  clock-Runs (task m n k ps (lost xs msg ys e over) more) = clock-Runs more
  clock-Runs (task m n k ps dropped more) = clock-Runs more
  clock-Runs (turned m k l (deadline_elapsed t) ps g off on more) =
      let (after, past) = clock-Runs more in (after, (omega (arith, after, on.0), past))
  clock-Runs (turned m k l (timer_elapsed t) ps g off on more) =
      let (after, past) = clock-Runs more in (after, (tt, past))
  clock-Runs (turned m k l (received a r) ps g off on more) =
      let (after, past) = clock-Runs more in (after, (tt, past))
  clock-Runs (turned m k l closed ps g off on more) =
      let (after, past) = clock-Runs more in (after, (tt, past))

  -- What the results of `tcp_connect` say, for addresses, a deadline and a time.
  abbrev pub IsResult : List SocketAddr → (deadline now : ℕ) → Result T (Error f) → Type 0
  IsResult addrs deadline now (ok t) =
      (a : SocketAddr) × Mem a addrs × IsFrom s local_addr prefer_ipv6 b (a, ok t)
  IsResult addrs deadline now (err tcp_deadline_exceeded) = deadline ≤ now
  IsResult addrs deadline now (err all_tcp_connect_failed) =
      (a : SocketAddr) → Mem a addrs → (e : Error f) × IsFrom s local_addr prefer_ipv6 b (a, err e)
  IsResult addrs deadline now (err _) = ⊥

  module _ (addrs : List SocketAddr) (deadline now : ℕ) (ps : List (Pick f T)) where
    Verdict-IsResult :
        (r : Result T (Error f))
        → All (IsAttempted s local_addr prefer_ipv6 b) ps
        → All (IsPast now) ps
        → Verdict addrs deadline ps (failures ps) (stop r)
        → IsResult addrs deadline now r
    Verdict-IsResult (ok t) given past (a, m, l) =
        (a, l, All-Memᴰ (IsAttempted s local_addr prefer_ipv6 b) ps _ given m)
    Verdict-IsResult (err tcp_deadline_exceeded) given past (t, m, l) =
        omega (arith, l, All-Memᴰ (IsPast now) ps _ past m)
    Verdict-IsResult (err all_tcp_connect_failed) given past p = λ a m.
        let (e, n) = failed a ps (found a (failures ps) ((Perm.mem_iff p).0 m)) in
        (e, All-Memᴰ (IsAttempted s local_addr prefer_ipv6 b) ps _ given n)
    Verdict-IsResult (err _) given past v = v

  pub tcp_connect-IsResult :
      (now tcp_timeout : ℕ) (addrs : List SocketAddr) (ps : List (Pick f T)) (k : System f T)
      (r : Result T (Error f))
      → Runs s local_addr prefer_ipv6 b (begin now tcp_timeout addrs) ps k
      → k.turn ≡ stop r
      → IsResult addrs (now + tcp_timeout) k.clock r
  tcp_connect-IsResult now tcp_timeout addrs ps k r runs e =
      let (honest, same, given) =
        tcp_connect-IsHonest s local_addr prefer_ipv6 b now tcp_timeout addrs ps k runs in
      Verdict-IsResult addrs (now + tcp_timeout) k.clock ps r given (clock-Runs runs).1 (
        subst (Verdict addrs (now + tcp_timeout) ps (failures ps)) (same ∙ e)
          (tcp_connect-Verdict b now tcp_timeout addrs ps honest))
