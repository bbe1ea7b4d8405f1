-- ===== src/Client/Connect/Bound.antt =====
-- src/client.rs, `tcp_connect`: the loop ends after few rounds.
use mathlib.Core.List.{Memᴰ, erase, erase-cons-head, erase-cons-tail}
use httptrace.Prelude.{
  ℕ, suc, ◌+◌, ◌*◌, ◌≤◌, ◌<◌, ◌≡◌, refl, sym, Bool, true, false, List, [], ◌∷◌, ok, err, ap, arith,
  length, if◌then◌else◌,
}
use httptrace.Net.{SocketAddr}
use httptrace.Error.{Foreign, display}
use httptrace.Client.Connect.{
  Pick, deadline_elapsed, timer_elapsed, received, closed, turn, start, fallback_interval,
  far_interval,
}
use httptrace.Client.Connect.Runtime.{
  SocketAddr-discrete, IsHonest, settle, spawns-start, spawns-done,
}
use httptrace.Client.Connect.Pace.{loop, UpTo}

pub elsewhere : {a x : SocketAddr} {l : List SocketAddr} → Memᴰ a (x ∷ l) → ¬ (x ≡ a) → Memᴰ a l
elsewhere (Memᴰ.head e) n = absurd (n (sym e))
elsewhere (Memᴰ.tail m) n = m

length-erase :
    (a : SocketAddr) (l : List SocketAddr)
    → Memᴰ a l
    → suc (length (erase SocketAddr-discrete l a)) ≡ length l
length-erase a [] m = elim m [ ]
length-erase a (x ∷ l) m = elim (SocketAddr-discrete x a) [
  | yes e ↦ rw e (rw (erase-cons-head SocketAddr-discrete a l))
  | no n ↦ rw (erase-cons-tail SocketAddr-discrete l n) (ap suc (length-erase a l (elsewhere m n)))
]

module _ {f : Foreign} {T : Type 0} (b : Bool) (deadline begin end : ℕ)
    (soon : end < begin + far_interval) where
  length-run :
      (addrs : List SocketAddr) (timer : ℕ) (tx : Bool) (pending : List SocketAddr)
      (ps : List (Pick f T))
      → begin ≤ timer
      → (tx ≡ false → end < timer)
      → UpTo end ps
      → IsHonest b (loop addrs timer tx deadline) pending ps
      → length ps ≤ 2 * length addrs + length pending + (if tx then 2 else 1)
  unfolding turn settle
  length-run addrs timer tx q [] g t u h = omega arith
  length-run addrs timer tx q (deadline_elapsed now ∷ ps) g t u h = rw (h.1) (ground arith)
  length-run addrs timer false q (timer_elapsed now ∷ ps) g t u h = absurd (omega (arith, t refl))
  length-run [] timer true q (timer_elapsed now ∷ ps) g t u h = omega (
    arith,
    length-run [] (now + far_interval) false q ps (omega arith) (λ _. omega arith) u.1 h.1,
  )
  length-run (a ∷ rest) timer true q (timer_elapsed now ∷ ps) g t u h = omega (
    arith,
    length-run rest (timer + fallback_interval) true (a ∷ q) ps (omega arith) (λ e. cc) u.1
        (rw (spawns-start b a) at h.1),
  )
  length-run addrs timer tx q (received a (ok r) ∷ ps) g t u h = rw (h.1) (ground arith)
  length-run addrs timer tx q (received a (err e) ∷ ps) g t u h = omega (
    arith,
    length-erase a q h.0,
    length-run addrs timer tx (erase SocketAddr-discrete q a) ps g t u
        (rw (spawns-done b a (err (display e))) at h.1),
  )
  length-run addrs timer tx q (closed ∷ ps) g t u h = rw (h.1) (ground arith)

-- The loop ends: a run that keeps the runtime's promises and lasts less than thirty years takes at
-- most two rounds for each address and two more.
pub tcp_connect_bound :
    {f : Foreign} {T : Type 0} (recorder : Bool) (now tcp_timeout end : ℕ) (addrs : List SocketAddr)
    (picks : List (Pick f T))
    → end < now + far_interval
    → UpTo end picks
    → IsHonest recorder (start now tcp_timeout addrs) [] picks
    → length picks ≤ 2 * length addrs + 2
tcp_connect_bound recorder now tcp_timeout end addrs picks soon u h = omega (
  arith,
  length-run recorder (now + tcp_timeout) now end soon addrs now true [] picks (omega arith)
      (λ e. cc) u h,
)
