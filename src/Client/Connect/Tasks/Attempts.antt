-- ===== src/Client/Connect/Tasks/Attempts.antt =====
-- src/client.rs, `tcp_connect`: what its loop receives comes of `_tcp_connect`.
use mathlib.Core.List.Perm
use httptrace.Prelude.{
  ℕ, ◌≡◌, refl, subst, Bool, true, false, arith, Option, some, List, [], ◌∷◌, ◌++◌, All,
}
use httptrace.Net.{IpAddr, SocketAddr}
use httptrace.Error.{Foreign}
use httptrace.Client.Attempt.{Sockets, attempt}
use httptrace.Client.Connect.{
  Pick, deadline_elapsed, timer_elapsed, received, closed, Loop, start, tcp_connect,
}
use httptrace.Client.Connect.Runtime.{IsHonest}
use httptrace.Client.Connect.Tasks.{
  Message, System, TaskStep, tick, finish, send, lost, dropped, IsEnabled, fire, begin, Runs, halt,
  task, turned,
}
use httptrace.Client.Connect.Tasks.Honesty.{honest, out, going-task}

All-remove {ℓ κ} :
    {A : Type ℓ} (P : A → Type κ) (xs : List A) (a : A) (ys : List A)
    → All P (xs ++ a ∷ ys)
    → P a × All P (xs ++ ys)
All-remove P [] a ys h = h
All-remove P (x ∷ xs) a ys h = let (p, rest) = All-remove P xs a ys h.1 in (p, (h.0, rest))

module _ {f : Foreign} {T : Type 0} (s : Sockets f T) (local_addr : Option IpAddr)
    (prefer_ipv6 b : Bool) where
  -- `_tcp_connect` gave this for this address, and was not cancelled.
  abbrev pub IsFrom : Message f T → Type 0
  IsFrom (a, ret) = attempt s local_addr a false prefer_ipv6 ≡ some ret

  abbrev pub IsAttempted : Pick f T → Type 0
  IsAttempted (received a ret) = IsFrom (a, ret)
  IsAttempted _ = Unit

  record AllFrom (m : System f T) : Type 0 where
    sending : All IsFrom m.sending
    channel : All IsFrom m.channel

  AllFrom-task :
      (m n : System f T)
      → TaskStep s local_addr prefer_ipv6 m n
      → m.cancelled ≡ false
      → AllFrom m
      → AllFrom n
  AllFrom-task m n (tick d) off h = record { sending = h.sending; channel = h.channel }
  AllFrom-task m n (finish xs a ys true ret e only gives) off h = absurd (ground (arith, only refl))
  AllFrom-task m n (finish xs a ys false ret e only gives) off h = record {
    sending = (gives, h.sending);
    channel = h.channel;
  }
  AllFrom-task m n (send xs msg ys e room) off h =
      let (p, rest) = All-remove IsFrom xs msg ys (subst (All IsFrom) e h.sending) in
      record { sending = rest; channel = (p, tt) }
  AllFrom-task m n (lost xs msg ys e over) off h =
      let (p, rest) = All-remove IsFrom xs msg ys (subst (All IsFrom) e h.sending) in
      record { sending = rest; channel = h.channel }
  AllFrom-task m n dropped off h = record { sending = h.sending; channel = h.channel }

  -- While the loop goes on, nothing is cancelled.
  abbrev Going : System f T → Type 0
  Going m = m.cancelled ≡ false → AllFrom m

  Going-task : (m n : System f T) → TaskStep s local_addr prefer_ipv6 m n → Going m → Going n
  Going-task m n st h g =
      let off = going-task s local_addr prefer_ipv6 m n st g in AllFrom-task m n st off (h off)

  enabled :
      (m : System f T) (l : Loop) (p : Pick f T)
      → IsEnabled m l p
      → AllFrom m
      → IsAttempted p × AllFrom (fire b m l p)
  enabled m l (deadline_elapsed now) e h = (tt, record { sending = h.sending; channel = h.channel })
  enabled m l (timer_elapsed now) e h = (tt, record { sending = h.sending; channel = h.channel })
  enabled m l (received a ret) e h =
      ((subst (All IsFrom) e h.channel).0, record { sending = h.sending; channel = tt })
  enabled m l closed e h = (tt, record { sending = h.sending; channel = h.channel })

  attempted :
      {m k : System f T} {ps : List (Pick f T)}
      → Runs s local_addr prefer_ipv6 b m ps k
      → Going m
      → All IsAttempted ps
  attempted (halt m) h = tt
  attempted (task m n k ps st more) h = attempted more (Going-task m n st h)
  attempted (turned m k l p ps g off on more) h =
      let (given, later) = enabled m l p on (h off) in (given, attempted more (λ _. later))

  -- However the steps of the loop, of its tasks and of the clock interleave, the branches that the
  -- loop takes keep the runtime's promises, the loop is where a run by these branches leaves it, and
  -- everything that it receives of an address is what `_tcp_connect` gave for that address without
  -- having been cancelled.
  pub tcp_connect-IsHonest :
      (now tcp_timeout : ℕ) (addrs : List SocketAddr) (ps : List (Pick f T)) (k : System f T)
      → Runs s local_addr prefer_ipv6 b (begin now tcp_timeout addrs) ps k
      → IsHonest b (start now tcp_timeout addrs) [] ps
        × ((tcp_connect b now tcp_timeout addrs ps).0 ≡ k.turn)
        × All IsAttempted ps
  unfolding tcp_connect
  tcp_connect-IsHonest now tcp_timeout addrs ps k runs =
      let (kept, same) =
        honest s local_addr prefer_ipv6 b runs (start now tcp_timeout addrs) [] refl
          (λ g. unfold out in Perm.refl []) in
      (kept, same, attempted runs (λ g. record { sending = tt; channel = tt }))
