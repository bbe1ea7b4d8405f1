-- ===== src/Client/Async/Order.antt =====
-- src/client.rs: the phases of an execution, and events in the order of their phases.
use httptrace.Prelude.{
  ◌⊎◌, inl, inr, ℕ, ◌≤◌, ◌<◌, ◌≡◌, Option, none, some, List, [], ◌∷◌, ◌++◌, ok, err, arith, All,
  All-append, All-mono,
}
use httptrace.Recorder.{
  Call, dns_start, dns_done, tcp_start, tcp_done, tls_start, tls_done, request_start,
}
use httptrace.Crates.{Crates}
use httptrace.Client.Async.{Event, call, spawned, cancelled, sent, Async, told, ◌>>=◌}

module _ {c : Crates} where
  -- The phase that an event belongs to.
  abbrev pub phase : Event c → ℕ
  phase (call (dns_start servers host)) = 0
  phase (call (dns_done servers host r)) = 1
  phase (call (tcp_start a)) = 2
  phase (call (tcp_done a r)) = 2
  phase (call tls_start) = 3
  phase (call (tls_done r)) = 4
  phase (call request_start) = 5
  phase (spawned a) = 2
  phase cancelled = 2
  phase (sent channel q) = 6

  -- A later phase, or the same if that is the connection of TCP.
  abbrev pub Follows : Event c → Event c → Type 0
  Follows e e' = (phase e < phase e') ⊎ ((phase e ≡ 2) × (phase e' ≡ 2))

  -- Each event follows all those before it.
  abbrev pub InOrder : List (Event c) → Type 0
  InOrder [] = Unit
  InOrder (e ∷ es) = All (Follows e) es × InOrder es

  -- Events in order, with phases from `lo` to `hi`.
  abbrev pub Phases : ℕ → ℕ → List (Event c) → Type 0
  Phases lo hi es = InOrder es × All (λ e. (lo ≤ phase e) × (phase e ≤ hi)) es

  InOrder-append :
      (m n : ℕ) (xs ys : List (Event c))
      → m < n
      → InOrder xs
      → InOrder ys
      → All (λ e. phase e ≤ m) xs
      → All (λ e. n ≤ phase e) ys
      → InOrder (xs ++ ys)
  InOrder-append m n [] ys l hx hy ax ay = hy
  InOrder-append m n (x ∷ xs) ys l hx hy ax ay = (
    All-append (Follows x) xs ys hx.0 (All-mono (λ e k. inl (omega (arith, k, ax.0))) ys ay),
    InOrder-append m n xs ys l hx.1 hy ax.1 ay,
  )

  pub Phases-append :
      (lo m n hi : ℕ) (xs ys : List (Event c))
      → m < n
      → lo ≤ n
      → m ≤ hi
      → Phases lo m xs
      → Phases n hi ys
      → Phases lo hi (xs ++ ys)
  Phases-append lo m n hi xs ys l ln mh hx hy = (
    InOrder-append m n xs ys l hx.0 hy.0 (All-mono (λ e k. k.1) xs hx.1)
        (All-mono (λ e k. k.0) ys hy.1),
    All-append _ xs ys (All-mono (λ e k. (k.0, omega (arith, k.1))) xs hx.1)
        (All-mono (λ e k. (omega (arith, k.0), k.1)) ys hy.1),
  )

  pub Phases-mono : (lo m hi : ℕ) (xs : List (Event c)) → m ≤ hi → Phases lo m xs → Phases lo hi xs
  Phases-mono lo m hi xs l h = (h.0, All-mono (λ e k. (k.0, omega (arith, k.1))) xs h.1)

  pub Phases-widen : (lo m hi : ℕ) (xs : List (Event c)) → lo ≤ m → Phases m hi xs → Phases lo hi xs
  Phases-widen lo m hi xs l h = (h.0, All-mono (λ e k. (omega (arith, k.0), k.1)) xs h.1)

  pub Phases-bind :
      {A B : Type 0} (lo m n hi : ℕ) (p : Async c A) (f : A → Async c B)
      → m < n
      → lo ≤ n
      → m ≤ hi
      → Phases lo m p.0
      → ((a : A) → Phases n hi (f a).0)
      → Phases lo hi (p >>= f).0
  Phases-bind lo m n hi (es, none) f l ln mh h k = Phases-mono lo m hi es mh h
  Phases-bind lo m n hi (es, some (err e)) f l ln mh h k = Phases-mono lo m hi es mh h
  Phases-bind lo m n hi (es, some (ok a)) f l ln mh h k =
      Phases-append lo m n hi es (f a).0 l ln mh h (k a)

  InOrder-tcp : (es : List (Event c)) → All (λ e. phase e ≡ 2) es → InOrder es
  InOrder-tcp [] h = tt
  InOrder-tcp (e ∷ es) h = (All-mono (λ e' k. inr (h.0, k)) es h.1, InOrder-tcp es h.1)

  pub Phases-tcp : (es : List (Event c)) → All (λ e. phase e ≡ 2) es → Phases 2 2 es
  Phases-tcp es h = (InOrder-tcp es h, All-mono (λ e k. (omega (arith, k), omega (arith, k))) es h)

module _ (c : Crates) where
  pub Phases-told :
      (o : Option c.Recorder) (k : Call c.display)
      → Phases {c = c} (phase {c = c} (call k)) (phase {c = c} (call k)) (told c o k)
  Phases-told none k = (tt, tt)
  Phases-told (some x) k = ((tt, tt), ((omega arith, omega arith), tt))
