-- ===== src/Client/Connect/Tasks/Honesty.antt =====
-- src/client.rs, `tcp_connect`: its loop, in whatever order its steps and those of its tasks come,
-- takes only branches that the loop's laws allow.
use mathlib.Core.List.{
  Memᴰ, Perm, erase, perm_middle, append_assoc, map-append, cons-perm_iff_perm-erase,
}
use mathlib.Core.List.Memᴰ
use mathlib.Core.List.Perm
use httptrace.Prelude.{
  ◌⊎◌, inl, inr, true, ◌≡◌, refl, sym, subst, ◌∙◌, Bool, false, Option, List, [], ◌∷◌, ◌++◌, Result,
  ok, err, map, arith,
}
use httptrace.Net.{IpAddr, SocketAddr}
use httptrace.Error.{Foreign, Error}
use httptrace.Client.Attempt.{Sockets}
use httptrace.Client.Connect.{
  Pick, deadline_elapsed, timer_elapsed, received, closed, Effect, Loop, Turn, go, stop, turn, run,
  resume, on_received,
}
use httptrace.Client.Connect.Runtime.{
  SocketAddr-discrete, IsReady, settle, spawns, spawns-done, After, IsHonest,
}
use httptrace.Client.Connect.Progress.{found}
use httptrace.Client.Connect.Tasks.{
  Message, System, TaskStep, tick, finish, send, lost, dropped, IsEnabled, fire, Runs, halt, task,
  turned,
}

-- One element is moved from the first list to the second.
moved {ℓ} :
    {A : Type ℓ} (xs : List A) (a : A) (ys zs : List A)
    → Perm ((xs ++ a ∷ ys) ++ zs) ((xs ++ ys) ++ a ∷ zs)
moved xs a ys zs =
    Perm.trans (Perm.append_right zs (perm_middle xs ys)) (Perm.symm (perm_middle (xs ++ ys) zs))

module _ {f : Foreign} {T : Type 0} where
  abbrev pub address : Message f T → SocketAddr
  address m = m.0

  -- The addresses of the tasks whose messages have not been received.
  unfoldable pub out : System f T → List SocketAddr
  out m = m.connecting ++ (map address m.sending ++ map address m.channel)

  After-intro :
      (t : Turn f T) (rest : Loop → Type 0) (ps : List (Pick f T))
      → ((l : Loop) → t ≡ go l → rest l)
      → ((r : Result T (Error f)) → t ≡ stop r → ps ≡ [])
      → After t rest ps
  After-intro (go l) rest ps h k = h l refl
  After-intro (stop r) rest ps h k = k r refl

  result-resume :
      (b : Bool) (t : Turn f T) (es : List Effect) (rest : Loop → Turn f T × List Effect)
      (k : Turn f T)
      → ((l : Loop) → t ≡ go l → (rest l).0 ≡ k)
      → ((r : Result T (Error f)) → t ≡ stop r → k ≡ stop r)
      → (resume b (t, es) rest).0 ≡ k
  unfolding resume
  result-resume b (go l) es rest k h i = h l refl
  result-resume b (stop r) es rest k h i = sym (i r refl)

module _ {f : Foreign} {T : Type 0} (s : Sockets f T) (local_addr : Option IpAddr)
    (prefer_ipv6 : Bool) where
  out-task :
      (m n : System f T)
      → TaskStep s local_addr prefer_ipv6 m n
      → m.cancelled ≡ false
      → Perm (out m) (out n)
  unfolding out
  out-task m n (tick d) g = Perm.refl _
  out-task m n (finish xs a ys c ret e only gives) g =
      subst (λ l. Perm (l ++ waiting) ((xs ++ ys) ++ a ∷ waiting)) (sym e) (moved xs a ys waiting)
    where
      waiting : List SocketAddr
      waiting = map address m.sending ++ map address m.channel
  out-task m n (send xs msg ys e room) g = Perm.append_left m.connecting (
      rw (e, room, map-append, map-append)
        (moved (map address xs) (address msg) (map address ys) []))
  out-task m n (lost xs msg ys e over) g = absurd (ground arith)
  out-task m n dropped g = Perm.refl _

  pub turn-task : (m n : System f T) → TaskStep s local_addr prefer_ipv6 m n → n.turn ≡ m.turn
  turn-task m n (tick d) = refl
  turn-task m n (finish xs a ys c ret e only gives) = refl
  turn-task m n (send xs msg ys e room) = refl
  turn-task m n (lost xs msg ys e over) = refl
  turn-task m n dropped = refl

  -- What is gone stays gone.
  pub cancelled-task :
      (m n : System f T)
      → TaskStep s local_addr prefer_ipv6 m n
      → (n.cancelled ≡ m.cancelled) ⊎ (n.cancelled ≡ true)
  cancelled-task m n (tick d) = inl refl
  cancelled-task m n (finish xs a ys c ret e only gives) = inl refl
  cancelled-task m n (send xs msg ys e room) = inl refl
  cancelled-task m n (lost xs msg ys e over) = inl refl
  cancelled-task m n dropped = inr refl

  pub going-task :
      (m n : System f T)
      → TaskStep s local_addr prefer_ipv6 m n
      → n.cancelled ≡ false
      → m.cancelled ≡ false
  going-task m n st g = elim (cancelled-task m n st) [
    | inl e ↦ sym e ∙ g
    | inr e ↦ absurd (ground arith)
  ]

module _ {f : Foreign} {T : Type 0} (b : Bool) (m : System f T) (l : Loop)
    (pending : List SocketAddr) (h : Perm pending (out m)) where
  ready : (p : Pick f T) → IsEnabled m l p → IsReady l pending p
  unfolding out
  ready (deadline_elapsed now) e = e.1
  ready (timer_elapsed now) e = e.1
  ready (received a r) e = found a pending ((Perm.mem_iff h).1 ∣ queued ∣₁)
    where
      queued : Memᴰ a (m.connecting ++ (map address m.sending ++ map address m.channel))
      queued = Memᴰ.append_right m.connecting (
          Memᴰ.append_right (map address m.sending)
            (subst (λ (q : List (Message f T)). Memᴰ a (map address q)) (sym e) (Memᴰ.head refl)))
  ready closed (gone, c, q, empty) = (gone, Perm.eq-nil (subst (Perm pending) none_out h))
    where
      none_out : m.connecting ++ (map address m.sending ++ map address m.channel) ≡ []
      none_out = rw (c, q, empty) refl

  no_spawns : (a : SocketAddr) (r : Result T (Error f)) → spawns (on_received b l a r).1 ≡ []
  unfolding on_received
  no_spawns a (ok t) = spawns-done b a _
  no_spawns a (err e) = spawns-done b a _

  received-out :
      (a : SocketAddr) (r : Result T (Error f))
      → m.channel ≡ (a, r) ∷ []
      → Perm (erase SocketAddr-discrete pending a) (m.connecting ++ (map address m.sending ++ []))
  unfolding out
  received-out a r e =
      Perm.symm
        ((cons-perm_iff_perm-erase SocketAddr-discrete).0 (Perm.symm (Perm.trans h shifted))).1
    where
      waiting : List SocketAddr
      waiting = map address m.sending

      shifted :
          Perm
            (m.connecting ++ (waiting ++ map address m.channel))
            (a ∷ (m.connecting ++ (waiting ++ [])))
      shifted = rw (e, ← append_assoc, ← append_assoc) (perm_middle (m.connecting ++ waiting) [])

  out-fire :
      (p : Pick f T)
      → IsEnabled m l p
      → Perm (spawns (turn b l p).1 ++ settle p pending) (out (fire b m l p))
  unfolding out turn settle
  out-fire (deadline_elapsed now) e = h
  out-fire (timer_elapsed now) e = rw append_assoc (Perm.append_left _ h)
  out-fire closed e = h
  out-fire (received a r) e = rw (no_spawns a r) (received-out a r e)

module _ {f : Foreign} {T : Type 0} (s : Sockets f T) (local_addr : Option IpAddr)
    (prefer_ipv6 b : Bool) where
  -- A loop that has ended or was dropped takes no further branch.
  pub stopped :
      {m k : System f T} {ps : List (Pick f T)}
      → Runs s local_addr prefer_ipv6 b m ps k
      → m.cancelled ≡ true
      → (ps ≡ []) × (k.turn ≡ m.turn) × (k.cancelled ≡ true)
  stopped (halt m) e = (refl, refl, e)
  stopped (task m n k ps st more) e =
      let kept : n.cancelled ≡ true = elim (cancelled-task s local_addr prefer_ipv6 m n st) [
        | inl h ↦ h ∙ e
        | inr h ↦ h
      ] in
      let (none_left, same, gone) = stopped more kept in
      (none_left, same ∙ turn-task s local_addr prefer_ipv6 m n st, gone)
  stopped (turned m k l p ps g off on more) e = absurd (ground arith)

  pub honest :
      {m k : System f T} {ps : List (Pick f T)}
      → Runs s local_addr prefer_ipv6 b m ps k
      → (l : Loop) (pending : List SocketAddr) → m.turn ≡ go l
      → (m.cancelled ≡ false → Perm pending (out m))
      → IsHonest b l pending ps × ((run b l ps).0 ≡ k.turn)
  unfolding run
  honest (halt m) l pending e h = (tt, sym e)
  honest (task m n k ps st more) l pending e h =
      honest more l pending (turn-task s local_addr prefer_ipv6 m n st ∙ e) (λ g.
        let off = going-task s local_addr prefer_ipv6 m n st g in
        Perm.trans (h off) (out-task s local_addr prefer_ipv6 m n st off))
  honest (turned m k l' p ps g off on more) l pending e h =
      subst (λ q. IsHonest b q pending (p ∷ ps) × ((run b q (p ∷ ps)).0 ≡ k.turn)) (ground arith)
        (
          (
            ready b m l' pending (h off) p on,
            After-intro (turn b l' p).0 _ ps
                (λ q t. (honest more q _ t (λ _. out-fire b m l' pending (h off) p on)).0)
                (λ r t. (stopped more (ground arith)).0),
          ),
          result-resume b (turn b l' p).0 (turn b l' p).1 (λ q. run b q ps) k.turn
              (λ q t. (honest more q _ t (λ _. out-fire b m l' pending (h off) p on)).1)
              (λ r t. (stopped more (ground arith)).1 ∙ t),
        )
