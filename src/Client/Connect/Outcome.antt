-- ===== src/Client/Connect/Outcome.antt =====
-- src/client.rs, `tcp_connect`: what each way to leave the loop says of the attempts.
use mathlib.Core.List.{
  Memᴰ, Mem, Perm, erase, perm_cons_erase, perm_middle, mem-append_left, append_assoc, append-nil,
}
use mathlib.Core.List.Perm
use httptrace.Prelude.{
  ℕ, ◌∙◌, ◌+◌, ◌≤◌, ◌≡◌, refl, sym, subst, Bool, true, false, List, [], ◌∷◌, ◌++◌, ok, err, ap,
}
use httptrace.Net.{SocketAddr}
use httptrace.Error.{Foreign, all_tcp_connect_failed, tcp_deadline_exceeded, display}
use httptrace.Client.Connect.{
  Pick, deadline_elapsed, timer_elapsed, received, closed, Loop, Turn, go, stop, turn, run, start,
  tcp_connect, fallback_interval, far_interval,
}
use httptrace.Client.Connect.Runtime.{
  SocketAddr-discrete, IsHonest, settle, spawns-start, spawns-done,
}

module _ {f : Foreign} {T : Type 0} where
  -- The addresses whose attempts were received as failed.
  abbrev pub failures : List (Pick f T) → List SocketAddr
  failures [] = []
  failures (received a (err e) ∷ ps) = a ∷ failures ps
  failures (_ ∷ ps) = failures ps

  -- `lost` are the addresses that failed, `picks` the branches taken.
  abbrev pub Verdict : List SocketAddr → ℕ → List (Pick f T) → List SocketAddr → Turn f T → Type 0
  Verdict all deadline picks lost (go s) = Unit
  Verdict all deadline picks lost (stop (ok t)) =
      (a : SocketAddr) × Memᴰ (received a (ok t)) picks × Mem a all
  Verdict all deadline picks lost (stop (err tcp_deadline_exceeded)) =
      (now : ℕ) × Memᴰ (deadline_elapsed now) picks × (deadline ≤ now)
  Verdict all deadline picks lost (stop (err all_tcp_connect_failed)) = Perm all lost
  Verdict all deadline picks lost (stop (err _)) = ⊥

-- The attempts that were started are those still out and those that failed.
pub record Inv (all addrs : List SocketAddr) (tx : Bool) (pending started fails : List SocketAddr)
    : Type 0 where
  pub order : started ++ addrs ≡ all
  pub balance : Perm started (pending ++ fails)
  pub finished : tx ≡ false → addrs ≡ []

pub Inv-begin : (addrs : List SocketAddr) → Inv addrs addrs true [] [] []
Inv-begin addrs = record { order = refl; balance = Perm.refl []; finished = λ e. cc }

balance-received :
    {a : SocketAddr} {pending started : List SocketAddr} (fails : List SocketAddr)
    → Memᴰ a pending
    → Perm started (pending ++ fails)
    → Perm started (erase SocketAddr-discrete pending a ++ a ∷ fails)
balance-received {a} {pending} fails m h = Perm.trans h (
    Perm.trans (Perm.append_right fails (perm_cons_erase SocketAddr-discrete ∣ m ∣₁))
      (Perm.symm (perm_middle (erase SocketAddr-discrete pending a) fails)))

module _ {all addrs : List SocketAddr} {tx : Bool} {pending started fails : List SocketAddr}
    (v : Inv all addrs tx pending started fails) where
  -- An attempt that is still out is on an address of the list.
  started-all : {a : SocketAddr} → Memᴰ a pending → Mem a all
  started-all {a} m =
      subst (Mem a) v.order
        (mem-append_left addrs ((Perm.mem_iff v.balance).1 (mem-append_left fails ∣ m ∣₁)))

  -- With the sender gone and no attempt out, all addresses have failed.
  all-lost : {lost : List SocketAddr} → tx ≡ false → pending ≡ [] → Perm lost fails → Perm all lost
  all-lost {lost} gone idle l =
      Perm.trans
        (subst (λ x. Perm x started)
          (sym (append-nil started) ∙ ap (◌++◌ started) (sym (v.finished gone)) ∙ v.order)
          (Perm.refl started))
        (Perm.trans (subst (λ x. Perm started (x ++ fails)) idle v.balance) (Perm.symm l))

module _ {all : List SocketAddr} {tx : Bool} {pending started fails : List SocketAddr} where
  pub Inv-start :
      (a : SocketAddr) (rest : List SocketAddr)
      → Inv all (a ∷ rest) tx pending started fails
      → Inv all rest true (a ∷ pending) (started ++ a ∷ []) fails
  Inv-start a rest v = record {
    order = rw append_assoc v.order;
    balance = Perm.trans (perm_middle started []) (Perm.cons a (rw append-nil v.balance));
    finished = λ e. cc;
  }

  pub Inv-finished : Inv all [] tx pending started fails → Inv all [] false pending started fails
  Inv-finished v = record { order = v.order; balance = v.balance; finished = λ e. refl }

  pub Inv-failed :
      (a : SocketAddr) (addrs : List SocketAddr)
      → Memᴰ a pending
      → Inv all addrs tx pending started fails
      → Inv all addrs tx (erase SocketAddr-discrete pending a) started (a ∷ fails)
  Inv-failed a addrs m v = record {
    order = v.order;
    balance = balance-received fails m v.balance;
    finished = v.finished;
  }

module _ {f : Foreign} {T : Type 0} (b : Bool) (all : List SocketAddr) (deadline : ℕ)
    (picks : List (Pick f T)) (lost : List SocketAddr) where
  run-Verdict :
      (addrs : List SocketAddr) (timer : ℕ) (tx : Bool) (pending started fails : List SocketAddr)
      (ps : List (Pick f T))
      → Inv all addrs tx pending started fails
      → ((p : Pick f T) → Memᴰ p ps → Memᴰ p picks)
      → Perm lost (fails ++ failures ps)
      → let s : Loop = record { addrs = addrs; timer = timer; tx = tx; deadline = deadline } in
        IsHonest b s pending ps → Verdict all deadline picks lost (run b s ps).0
  unfolding run turn settle
  run-Verdict addrs timer tx q st fa [] v w l h = tt
  run-Verdict addrs timer tx q st fa (deadline_elapsed now ∷ ps) v w l h =
      (now, w _ (Memᴰ.head refl), h.0)
  run-Verdict [] timer tx q st fa (timer_elapsed now ∷ ps) v w l h =
      run-Verdict [] (now + far_interval) false q st fa ps (Inv-finished v)
        (λ p m. w p (Memᴰ.tail m)) l h.1
  run-Verdict (a ∷ rest) timer true q st fa (timer_elapsed now ∷ ps) v w l h =
      run-Verdict rest (timer + fallback_interval) true (a ∷ q) (st ++ a ∷ []) fa ps
        (Inv-start a rest v) (λ p m. w p (Memᴰ.tail m)) l (rw (spawns-start b a) at h.1)
  run-Verdict (a ∷ rest) timer false q st fa (timer_elapsed now ∷ ps) v w l h = cc (v.finished refl)
  run-Verdict addrs timer tx q st fa (received a (ok t) ∷ ps) v w l h =
      (a, w _ (Memᴰ.head refl), started-all v h.0)
  run-Verdict addrs timer tx q st fa (received a (err e) ∷ ps) v w l h =
      run-Verdict addrs timer tx (erase SocketAddr-discrete q a) st (a ∷ fa) ps
        (Inv-failed a addrs h.0 v) (λ p m. w p (Memᴰ.tail m))
        (Perm.trans l (perm_middle fa (failures ps)))
        (rw (spawns-done b a (err (display e))) at h.1)
  run-Verdict addrs timer tx q st fa (closed ∷ ps) v w l h =
      all-lost v h.0.0 h.0.1 (rw (h.1, append-nil) at l)

-- A run that keeps the runtime's promises, of an attempt list that is tried from time `now`, has
-- one of four ends: the loop still waits; it returns a stream that one of the addresses delivered;
-- it returns `TcpDeadlineExceeded`, at a time no earlier than `now + tcp_timeout`; or it returns
-- `AllTcpConnectFailed`, and then the attempts that failed are the addresses of the list, each as
-- often as it stands there. It returns no other error.
pub tcp_connect-Verdict :
    {f : Foreign} {T : Type 0} (recorder : Bool) (now tcp_timeout : ℕ) (addrs : List SocketAddr)
    (picks : List (Pick f T))
    → IsHonest recorder (start now tcp_timeout addrs) [] picks
    → Verdict addrs
        (now + tcp_timeout)
        picks
        (failures picks)
        (tcp_connect recorder now tcp_timeout addrs picks).0
unfolding tcp_connect
tcp_connect-Verdict recorder now tcp_timeout addrs picks h =
    run-Verdict recorder addrs (now + tcp_timeout) picks (failures picks) addrs now true [] [] []
      picks (Inv-begin addrs) (λ p m. m) (Perm.refl _) h
