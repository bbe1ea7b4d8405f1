-- ===== src/Client/Connect/Waiting.antt =====
-- src/client.rs, `tcp_connect`: the state in which a loop waits, and how its run goes on from there.
use mathlib.Core.List.{Perm, erase, perm_middle, append-nil, append_assoc}
use mathlib.Core.List.Perm
use httptrace.Prelude.{
  ℕ, ◌∙◌, ◌+◌, ◌≡◌, refl, sym, subst, Bool, true, false, List, [], ◌∷◌, ◌++◌, ok, err, arith,
}
use httptrace.Net.{SocketAddr}
use httptrace.Error.{Foreign, display}
use httptrace.Client.Connect.{
  Pick, deadline_elapsed, timer_elapsed, received, closed, Loop, go, turn, run, fallback_interval,
  far_interval,
}
use httptrace.Client.Connect.Runtime.{
  SocketAddr-discrete, IsHonest, settle, spawns, spawns-start, spawns-done, spawns-append,
}
use httptrace.Client.Connect.Outcome.{failures, Inv, Inv-start, Inv-finished, Inv-failed}
use httptrace.Client.Connect.Pace.{loop}

module _ {f : Foreign} {T : Type 0} (b : Bool) where
  -- After the branches `ps` of a run from `s0`, with the tasks `q0` out, the loop waits in the
  -- state `s`; `out` are the tasks that are out then.
  pub record Waits (all : List SocketAddr) (s0 : Loop) (q0 st0 fa0 : List SocketAddr)
      (ps : List (Pick f T)) (s : Loop) : Type 0 where
    pub out : List SocketAddr
    pub started : List SocketAddr
    pub fails : List SocketAddr
    pub inv : Inv all s.addrs s.tx out started fails
    pub lost : Perm fails (fa0 ++ failures ps)
    pub begun : started ≡ st0 ++ spawns (run b s0 ps).1
    pub due : s.deadline ≡ s0.deadline
    pub resumed :
        (more : List (Pick f T))
        → IsHonest b s out more
        → IsHonest b s0 q0 (ps ++ more) × ((run b s0 (ps ++ more)).0 ≡ (run b s more).0)

  Waits-cons :
      {all : List SocketAddr} {s0 s1 s : Loop} {q0 q1 st0 st1 fa0 fa1 : List SocketAddr}
      (p : Pick f T) (ps : List (Pick f T))
      → Perm (fa1 ++ failures ps) (fa0 ++ failures (p ∷ ps))
      → st1 ++ spawns (run b s1 ps).1 ≡ st0 ++ spawns (run b s0 (p ∷ ps)).1
      → s1.deadline ≡ s0.deadline
      → ((more : List (Pick f T)) → IsHonest b s1 q1 more → IsHonest b s0 q0 (p ∷ more))
      → ((more : List (Pick f T)) → (run b s0 (p ∷ more)).0 ≡ (run b s1 more).0)
      → Waits all s1 q1 st1 fa1 ps s
      → Waits all s0 q0 st0 fa0 (p ∷ ps) s
  Waits-cons p ps lost begun due honest ran w = record {
    out = w.out;
    started = w.started;
    fails = w.fails;
    inv = w.inv;
    lost = Perm.trans w.lost lost;
    begun = w.begun ∙ begun;
    due = w.due ∙ due;
    resumed = λ more k.
        let (before, same) = w.resumed more k in
        (honest (ps ++ more) before, ran (ps ++ more) ∙ same);
  }

module _ {f : Foreign} {T : Type 0} (b : Bool) (all : List SocketAddr) (deadline : ℕ)
    (s : Loop) where
  pub run-Waits :
      (addrs : List SocketAddr) (timer : ℕ) (tx : Bool) (pending started fails : List SocketAddr)
      (ps : List (Pick f T))
      → Inv all addrs tx pending started fails
      → IsHonest b (loop addrs timer tx deadline) pending ps
      → (run b (loop addrs timer tx deadline) ps).0 ≡ go s
      → Waits b all (loop addrs timer tx deadline) pending started fails ps s
  unfolding run turn settle
  run-Waits addrs timer tx q st fa [] v h e =
      let here : loop addrs timer tx deadline ≡ s = ground arith in
      subst (λ s'. Waits {f = f} {T = T} b all (loop addrs timer tx deadline) q st fa [] s') here
        (record {
          out = q;
          started = st;
          fails = fa;
          inv = v;
          lost = rw append-nil (Perm.refl fa);
          begun = sym (append-nil st);
          due = refl;
          resumed = λ more k. (k, refl);
        })
  run-Waits addrs timer tx q st fa (deadline_elapsed now ∷ ps) v h e = absurd (ground arith)
  run-Waits [] timer tx q st fa (timer_elapsed now ∷ ps) v h e =
      Waits-cons b (timer_elapsed now) ps (Perm.refl _) refl refl (λ more k. (h.0, k))
        (λ more. refl) (run-Waits [] (now + far_interval) false q st fa ps (Inv-finished v) h.1 e)
  run-Waits (a ∷ rest) timer true q st fa (timer_elapsed now ∷ ps) v h e =
      Waits-cons b (timer_elapsed now) ps (Perm.refl _)
        (rw (spawns-append, spawns-start) (append_assoc st (a ∷ []) _)) refl
        (λ more k. (h.0, rw (spawns-start b a) k)) (λ more. refl)
        (run-Waits rest (timer + fallback_interval) true (a ∷ q) (st ++ a ∷ []) fa ps
          (Inv-start a rest v) (rw (spawns-start b a) at h.1) e)
  run-Waits (a ∷ rest) timer false q st fa (timer_elapsed now ∷ ps) v h e = cc (v.finished refl)
  run-Waits addrs timer tx q st fa (received a (ok t) ∷ ps) v h e = absurd (ground arith)
  run-Waits addrs timer tx q st fa (received a (err i) ∷ ps) v h e =
      Waits-cons b (received a (err i)) ps (Perm.symm (perm_middle fa (failures ps)))
        (rw (spawns-append, spawns-done) refl) refl
        (λ more k. (h.0, rw (spawns-done b a (err (display i))) k)) (λ more. refl)
        (run-Waits addrs timer tx (erase SocketAddr-discrete q a) st (a ∷ fa) ps
          (Inv-failed a addrs h.0 v) (rw (spawns-done b a (err (display i))) at h.1) e)
  run-Waits addrs timer tx q st fa (closed ∷ ps) v h e = absurd (ground arith)
