-- ===== src/Client/Connect/Tasks/Cleanup.antt =====
-- src/client.rs, `tcp_connect`: `cancel.send(())` ends the tasks that the loop leaves behind.
use httptrace.Prelude.{
  ℕ, ◌≡◌, refl, Bool, true, Option, some, List, [], ◌∷◌, Result, err, Result-cases, Bool-cases,
  ◌||◌, inl, inr,
}
use httptrace.Net.{IpAddr, SocketAddr}
use httptrace.Error.{Foreign, Error, tcp_deadline_exceeded}
use httptrace.Client.Attempt.{Sockets, attempt, open_socket}
use httptrace.Client.Connect.{Pick}
use httptrace.Client.Connect.Tasks.{
  Message, System, is_stopped, tick, finish, send, lost, dropped, begin, Runs, halt, task, turned,
}

module _ {f : Foreign} {T : Type 0} (s : Sockets f T) (local_addr : Option IpAddr)
    (prefer_ipv6 b : Bool) where
  -- A cancelled attempt returns, whatever its connection does.
  attempt_cancelled :
      (a : SocketAddr)
      → (ret : Result T (Error f)) × (attempt s local_addr a true prefer_ipv6 ≡ some ret)
  unfolding attempt
  attempt_cancelled a = elim (Result-cases (open_socket s local_addr prefer_ipv6)) [
    | inl (socket, e) ↦ (err tcp_deadline_exceeded, rw e refl)
    | inr (i, e) ↦ (err i, rw e refl)
  ]

  -- The loop's ends are gone once the loop has ended.
  cancelled-Runs :
      {m k : System f T} {ps : List (Pick f T)}
      → Runs s local_addr prefer_ipv6 b m ps k
      → (is_stopped m.turn ≡ true → m.cancelled ≡ true)
      → is_stopped k.turn ≡ true
      → k.cancelled ≡ true
  cancelled-Runs (halt m) h = h
  cancelled-Runs (task m n k ps (tick d) more) h = cancelled-Runs more h
  cancelled-Runs (task m n k ps (finish xs a ys c ret e only gives) more) h = cancelled-Runs more h
  cancelled-Runs (task m n k ps (send xs msg ys e room) more) h = cancelled-Runs more h
  cancelled-Runs (task m n k ps (lost xs msg ys e over) more) h = cancelled-Runs more h
  cancelled-Runs (task m n k ps dropped more) h = cancelled-Runs more (λ _. refl)
  cancelled-Runs (turned m k l p ps g off on more) h = cancelled-Runs more (λ e. rw e refl)

  -- The system goes on, without the clock, to one in which no task is left.
  abbrev pub Ends : System f T → Type 0
  Ends m =
      (n : System f T) × Runs s local_addr prefer_ipv6 b m [] n
      × (n.connecting ≡ [])
      × (n.sending ≡ [])
      × (n.clock ≡ m.clock)
      × (n.turn ≡ m.turn)

  Ends-sending :
      (l : List (Message f T)) (m : System f T)
      → m.sending ≡ l
      → m.connecting ≡ []
      → m.cancelled ≡ true
      → Ends m
  Ends-sending [] m e c over = (m, halt m, c, e, refl, refl)
  Ends-sending (msg ∷ l) m e c over =
      let (n, runs, none_connecting, none_sending, same_clock, same_turn) =
        Ends-sending l (record m { sending = l }) refl c over in
      (
        n,
        task m _ n [] (lost [] msg l e over) runs,
        none_connecting,
        none_sending,
        same_clock,
        same_turn,
      )

  Ends-connecting :
      (l : List SocketAddr) (m : System f T) → m.connecting ≡ l → m.cancelled ≡ true → Ends m
  Ends-connecting [] m e on = Ends-sending m.sending m refl e on
  Ends-connecting (a ∷ l) m e on =
      let (ret, gives) = attempt_cancelled a in
      let (n, runs, none_connecting, none_sending, same_clock, same_turn) =
        Ends-connecting l (record m { connecting = l; sending = (a, ret) ∷ m.sending }) refl on in
      (
        n,
        task m _ n [] (finish [] a l true ret e (λ _. on) gives) runs,
        none_connecting,
        none_sending,
        same_clock,
        same_turn,
      )

  -- Once the loop has ended, with whatever result, or its future has been dropped, at whatever point
  -- of whatever interleaving, all tasks that it has spawned can end at once, by themselves, without
  -- any time passing and whatever their connections do.
  pub tcp_connect-Ends :
      (now tcp_timeout : ℕ) (addrs : List SocketAddr) (ps : List (Pick f T)) (k : System f T)
      → Runs s local_addr prefer_ipv6 b (begin now tcp_timeout addrs) ps k
      → (is_stopped k.turn || k.cancelled) ≡ true
      → Ends k
  tcp_connect-Ends now tcp_timeout addrs ps k runs e =
      Ends-connecting k.connecting k refl (elim (Bool-cases (is_stopped k.turn)) [
        | inl over ↦ cancelled-Runs runs (λ h. cc) over
        | inr going ↦ rw going at e
      ])
