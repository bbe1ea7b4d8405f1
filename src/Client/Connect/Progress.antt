-- ===== src/Client/Connect/Progress.antt =====
-- src/client.rs, `tcp_connect`: a loop that still waits can always go on to its end.
use mathlib.Core.List.{Memᴰ, Mem, Perm, mem-append, foldr}
use mathlib.Core.List.Perm
use mathlib.Core.Logic.{∥∥₁_map}
use mathlib.Core.HLevel.{⊥_prop}
use mathlib.Core.Logic.Or
use native.Mathlib.Nat.{ℕ_set}
use httptrace.Prelude.{
  ℕ, suc, ◌∙◌, ◌+◌, ◌≤◌, ◌≡◌, refl, sym, subst, Bool, true, List, [], ◌∷◌, ◌++◌, Result, ok, err,
  ap, arith, length, length-append,
}
use httptrace.Net.{SocketAddr}
use httptrace.Error.{Foreign, Error, all_tcp_connect_failed, tcp_deadline_exceeded}
use httptrace.Client.Connect.{
  Pick, deadline_elapsed, timer_elapsed, received, closed, Loop, go, stop, turn, run, start,
  tcp_connect,
}
use httptrace.Client.Connect.Runtime.{SocketAddr-discrete, IsHonest, settle, spawns}
use httptrace.Client.Connect.Bound.{elsewhere}
use httptrace.Client.Connect.Outcome.{failures, Inv, Inv-begin}
use httptrace.Client.Connect.Waiting.{Waits, run-Waits}

abbrev count : SocketAddr → ℕ → ℕ
count a n = suc n

length-foldr : (l : List SocketAddr) → foldr count 0 l ≡ length l
length-foldr [] = refl
length-foldr (a ∷ l) = ap suc (length-foldr l)

length-Perm : {xs ys : List SocketAddr} → Perm xs ys → length xs ≡ length ys
length-Perm {xs} {ys} p =
    sym (length-foldr xs) ∙ Perm.foldr-eq ℕ_set count (λ a b x. refl) p 0 ∙ length-foldr ys

no_elements : (l : List SocketAddr) → length l ≡ 0 → l ≡ []
no_elements [] h = refl
no_elements (a ∷ l) h = absurd (omega (arith, h))

-- With as many failures as addresses there is nothing left to wait for.
Inv-idle :
    {all addrs pending started fails : List SocketAddr} {tx : Bool}
    → Inv all addrs tx pending started fails
    → Perm all fails
    → (addrs ≡ []) × (pending ≡ [])
Inv-idle {all} {addrs} {pending} {started} {fails} v p =
    let total = sym (length-append started addrs) ∙ ap length v.order in
    let split = length-Perm v.balance ∙ length-append pending fails in
    let same = length-Perm p in (no_elements addrs (omega arith), no_elements pending (omega arith))

pub found : (a : SocketAddr) (l : List SocketAddr) → Mem a l → Memᴰ a l
found a [] m = absurd (∥∥₁_rec ⊥_prop (λ (d : Memᴰ a []). elim d [ ]) m)
found a (x ∷ l) m = elim (SocketAddr-discrete x a) [
  | yes e ↦ Memᴰ.head (sym e)
  | no n ↦ Memᴰ.tail (found a l (∥∥₁_map m (λ d. elsewhere d n)))
]

-- A task that was started and did not fail is out.
Inv-out :
    {all addrs pending started fails : List SocketAddr} {tx : Bool} (a : SocketAddr)
    → Inv all addrs tx pending started fails
    → Mem a started
    → ¬ Mem a fails
    → Memᴰ a pending
Inv-out {pending = pending} {fails = fails} a v m n =
    found a pending
      (Or.elim squash₁ (mem-append.0 ((Perm.mem_iff v.balance).0 m)) (λ k. k) (λ k. absurd (n k)))

-- Without addresses the loop drops its sender, and the closed channel ends it.
module _ (f : Foreign) (T : Type 0) (b : Bool) (s : Loop) (t : ℕ) (none_left : s.addrs ≡ []) where
  abbrev closing_picks : List (Pick f T)
  closing_picks = timer_elapsed t ∷ closed ∷ []

  closing-IsHonest : s.timer ≤ t → IsHonest b s [] closing_picks
  unfolding turn settle
  closing-IsHonest h = (h, rw none_left ((refl, refl), refl))

  closing : (run b s closing_picks).0 ≡ stop (err all_tcp_connect_failed)
  unfolding run turn
  closing = rw none_left refl

module _ {f : Foreign} {T : Type 0} (recorder : Bool) (now tcp_timeout : ℕ)
    (addrs : List SocketAddr) (picks : List (Pick f T)) where
  -- The run can go on by the branches `more`, and then it is over with the result `r`.
  abbrev pub EndsBy : List (Pick f T) → Result T (Error f) → Type 0
  EndsBy more r =
      IsHonest recorder (start now tcp_timeout addrs) [] (picks ++ more)
      × ((tcp_connect recorder now tcp_timeout addrs (picks ++ more)).0 ≡ stop r)

  module _ (s : Loop)
      (w : Waits recorder addrs (start now tcp_timeout addrs) [] [] [] picks s) where
    Waits-EndsBy :
        (more : List (Pick f T)) (r : Result T (Error f))
        → IsHonest recorder s w.out more
        → (run recorder s more).0 ≡ stop r
        → EndsBy more r
    unfolding tcp_connect
    Waits-EndsBy more r h e = let (honest, same) = w.resumed more h in (honest, same ∙ e)

    deadline-EndsBy :
        (t : ℕ)
        → now + tcp_timeout ≤ t
        → EndsBy (deadline_elapsed t ∷ []) (err tcp_deadline_exceeded)
    deadline-EndsBy t h =
        Waits-EndsBy (deadline_elapsed t ∷ []) (err tcp_deadline_exceeded)
          (unfold turn in (omega (arith, w.due), refl)) (unfold run turn in refl)

    failed-EndsBy :
        (t : ℕ)
        → s.timer ≤ t
        → Perm addrs (failures picks)
        → EndsBy (timer_elapsed t ∷ closed ∷ []) (err all_tcp_connect_failed)
    failed-EndsBy t h p =
        let (none_left, none_out) = Inv-idle w.inv (Perm.trans p (Perm.symm w.lost)) in
        Waits-EndsBy (timer_elapsed t ∷ closed ∷ []) (err all_tcp_connect_failed)
          (rw none_out (closing-IsHonest f T recorder s t none_left h))
          (closing f T recorder s t none_left)

    received-EndsBy :
        (a : SocketAddr) (stream : T)
        → Mem a (spawns (tcp_connect recorder now tcp_timeout addrs picks).1)
        → ¬ Mem a (failures picks)
        → EndsBy (received a (ok stream) ∷ []) (ok stream)
    unfolding tcp_connect
    received-EndsBy a stream m n =
        Waits-EndsBy (received a (ok stream) ∷ []) (ok stream)
          (unfold turn in
            (
              Inv-out a w.inv (subst (Mem a) (sym w.begun) m) (λ k. n ((Perm.mem_iff w.lost).0 k)),
              refl,
            ))
          (unfold run turn in refl)

  -- A run that keeps the runtime's promises and still waits is never stuck. At any time from the
  -- deadline on it can end with `TcpDeadlineExceeded`. If every address of the list has failed, it
  -- can end with `AllTcpConnectFailed` as soon as its timer is over, and does not need the deadline.
  -- And an attempt that was started and has not failed can still end it with a stream.
  pub tcp_connect-EndsBy :
      (s : Loop)
      → IsHonest recorder (start now tcp_timeout addrs) [] picks
      → (tcp_connect recorder now tcp_timeout addrs picks).0 ≡ go s
      → ((t : ℕ)
          → now + tcp_timeout ≤ t
          → EndsBy (deadline_elapsed t ∷ []) (err tcp_deadline_exceeded))
        × ((t : ℕ)
            → s.timer ≤ t
            → Perm addrs (failures picks)
            → EndsBy (timer_elapsed t ∷ closed ∷ []) (err all_tcp_connect_failed))
        × ((a : SocketAddr) (stream : T)
            → Mem a (spawns (tcp_connect recorder now tcp_timeout addrs picks).1)
            → ¬ Mem a (failures picks)
            → EndsBy (received a (ok stream) ∷ []) (ok stream))
  unfolding tcp_connect
  tcp_connect-EndsBy s h e =
      let w =
        run-Waits recorder addrs (now + tcp_timeout) s addrs now true [] [] [] picks
          (Inv-begin addrs) h e in
      (deadline-EndsBy s w, failed-EndsBy s w, received-EndsBy s w)
