-- ===== src/Client/Connect.antt =====
-- src/client.rs: `ClientRef::tcp_connect`, the loop that starts a connection attempt to one address
-- after the other, by a timer that moves on by three seconds, and takes the first that succeeds.
--
-- The loop is driven by `tokio::select!`: a run is the list of the branches that it took. What the
-- runtime promises of them is `IsReady` in Client/Connect/Runtime.antt; here any list is allowed.
pub mod Runtime
pub mod Started
pub mod Bound
pub mod Pace
pub mod Outcome
pub mod Waiting
pub mod Progress
pub mod Begins
pub mod Tasks
use httptrace.Prelude.{
  ℕ, ◌+◌, ◌*◌, Bool, true, false, Option, none, some, List, [], ◌∷◌, ◌++◌, Result, ok, err, map_ok,
  map_err, Text, if◌then◌else◌,
}
use httptrace.Prelude.Time.{from_secs}
use httptrace.Net.{SocketAddr}
use httptrace.Error.{Foreign, Error, all_tcp_connect_failed, tcp_deadline_exceeded, display}

abbrev pub fallback_interval : ℕ
fallback_interval = from_secs 3

abbrev pub far_interval : ℕ
far_interval = from_secs (86400 * 365 * 30)

-- A branch of `select!` with the value that its future gave; `T` is the type of connected streams.
pub data Pick (f : Foreign) (T : Type 0) : Type 0 where
  -- `sleep_until(deadline)` and `sleep_until(timer)`, with the time at which the branch runs
  deadline_elapsed : ℕ → Pick f T
  timer_elapsed : ℕ → Pick f T
  -- `rx.recv()`
  received : SocketAddr → Result T (Error f) → Pick f T
  closed : Pick f T

pub data Effect : Type 0 where
  on_tcp_start : SocketAddr → Effect
  on_tcp_done : SocketAddr → Result (Unit {0}) Text → Effect
  -- `tokio::spawn` of `_tcp_connect` for the address
  spawned : SocketAddr → Effect
  -- `cancel.send(())`
  cancelled : Effect

-- The loop's variables; `tx` says whether `tx_opt` holds the sender.
pub record Loop : Type 0 where
  pub addrs : List SocketAddr
  pub timer : ℕ
  pub tx : Bool
  pub deadline : ℕ

pub data Turn (f : Foreign) (T : Type 0) : Type 0 where
  go : Loop → Turn f T
  stop : Result T (Error f) → Turn f T

abbrev pub when : Bool → Effect → List Effect
when b e = if b then e ∷ [] else []

module _ {f : Foreign} {T : Type 0} (recorder : Bool) where
  -- The `timer` branch: `addrs.next()`.
  next_address : ℕ → Loop → List SocketAddr → Turn f T × List Effect
  next_address now s [] = (go (record s { tx = false; timer = now + far_interval }), [])
  next_address now s (addr ∷ rest) = (
    go (record s { addrs = rest; timer = s.timer + fallback_interval }),
    when recorder (on_tcp_start addr) ++ when s.tx (spawned addr),
  )

  on_received : Loop → SocketAddr → Result T (Error f) → Turn f T × List Effect
  on_received s addr (ok stream) = (stop (ok stream), when recorder (on_tcp_done addr (ok tt)))
  on_received s addr (err e) = (go s, when recorder (on_tcp_done addr (err (display e))))

  unfoldable pub turn : Loop → Pick f T → Turn f T × List Effect
  unfolding next_address on_received
  turn s (deadline_elapsed now) = (stop (err tcp_deadline_exceeded), [])
  turn s (timer_elapsed now) = next_address now s s.addrs
  turn s (received addr ret) = on_received s addr ret
  turn s closed = (stop (err all_tcp_connect_failed), [])

  -- `break` ends the loop, and then `cancel.send(())` runs.
  resume : Turn f T × List Effect → (Loop → Turn f T × List Effect) → Turn f T × List Effect
  resume (stop r, es) rest = (stop r, es ++ cancelled ∷ [])
  resume (go s, es) rest = let (t, more) = rest s in (t, es ++ more)

  -- The loop over the branches taken; `go` at the end of the list means that it still waits.
  unfoldable pub run : Loop → List (Pick f T) → Turn f T × List Effect
  unfolding resume
  run s [] = (go s, [])
  run s (p ∷ ps) = resume (turn s p) (λ s'. run s' ps)

abbrev pub start : ℕ → ℕ → List SocketAddr → Loop
start now tcp_timeout addrs = record {
  addrs = addrs;
  timer = now;
  tx = true;
  deadline = now + tcp_timeout;
}

unfoldable pub tcp_connect :
    {f : Foreign} {T : Type 0}
    → Bool
    → ℕ
    → ℕ
    → List SocketAddr
    → List (Pick f T)
    → Turn f T × List Effect
tcp_connect recorder now tcp_timeout addrs picks = run recorder (start now tcp_timeout addrs) picks
