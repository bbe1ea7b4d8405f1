-- ===== src/Client/Connect/Tasks.antt =====
-- src/client.rs: `tcp_connect` together with the tasks that it spawns, as one system: the loop, the
-- clock, the tasks and the channel, whose steps interleave in any order.
pub mod Honesty
pub mod Attempts
pub mod Cleanup
pub mod Ending
use httptrace.Prelude.{
  ℕ, ◌+◌, ◌≤◌, ◌≡◌, Bool, true, false, Option, some, List, [], ◌∷◌, ◌++◌, Result, map, ◌||◌,
}
use httptrace.Net.{IpAddr, SocketAddr}
use httptrace.Error.{Foreign, Error}
use httptrace.Client.Attempt.{Sockets, attempt}
use httptrace.Client.Connect.{
  Pick, deadline_elapsed, timer_elapsed, received, closed, Loop, Turn, go, stop, turn, start,
}
use httptrace.Client.Connect.Runtime.{spawns}

-- What a task sends: its address and what `_tcp_connect` gave.
abbrev pub Message : Foreign → Type 0 → Type 0
Message f T = SocketAddr × Result T (Error f)

pub record System (f : Foreign) (T : Type 0) : Type 0 where
  pub clock : ℕ
  -- the loop's variables, or its result
  pub turn : Turn f T
  -- the tasks in `_tcp_connect`, and those at `tx.send`; each holds a sender
  pub connecting : List SocketAddr
  pub sending : List (Message f T)
  -- `mpsc::channel(1)`
  pub channel : List (Message f T)
  -- the loop's ends of the two channels are gone, the receiver and the sender of cancellations:
  -- after `cancel.send(())`, or since the future was dropped
  pub cancelled : Bool

abbrev pub is_stopped : {f : Foreign} {T : Type 0} → Turn f T → Bool
is_stopped (go l) = false
is_stopped (stop r) = true

module _ {f : Foreign} {T : Type 0} (s : Sockets f T) (local_addr : Option IpAddr)
    (prefer_ipv6 : Bool) where
  -- What happens beside the loop's own turns.
  pub data TaskStep (m : System f T) : System f T → Type 0 where
    -- time passes
    tick : (d : ℕ) → TaskStep m (record m { clock = m.clock + d })
    -- `_tcp_connect` returns to a task, by its cancelled branch only if the loop's ends are gone
    finish :
        (xs : List SocketAddr) (a : SocketAddr) (ys : List SocketAddr) (cancelled : Bool)
        (ret : Result T (Error f))
        → m.connecting ≡ xs ++ a ∷ ys
        → (cancelled ≡ true → m.cancelled ≡ true)
        → attempt s local_addr a cancelled prefer_ipv6 ≡ some ret
        → TaskStep m (record m { connecting = xs ++ ys; sending = (a, ret) ∷ m.sending })
    -- `tx.send` finds room in the channel, and the task ends
    send :
        (xs : List (Message f T)) (msg : Message f T) (ys : List (Message f T))
        → m.sending ≡ xs ++ msg ∷ ys
        → m.channel ≡ []
        → TaskStep m (record m { sending = xs ++ ys; channel = msg ∷ [] })
    -- `tx.send` fails, since the receiver is gone, and the task ends
    lost :
        (xs : List (Message f T)) (msg : Message f T) (ys : List (Message f T))
        → m.sending ≡ xs ++ msg ∷ ys
        → m.cancelled ≡ true
        → TaskStep m (record m { sending = xs ++ ys })
    -- the timeout around the execution drops the future of `tcp_connect`
    dropped : TaskStep m (record m { cancelled = true })

module _ {f : Foreign} {T : Type 0} where
  -- A branch of `select!` is ready: a sleep at the time when it runs, a message in the channel, or
  -- the channel's end, when the loop's sender and those of the tasks are gone.
  abbrev pub IsEnabled : System f T → Loop → Pick f T → Type 0
  IsEnabled m l (deadline_elapsed now) = (now ≡ m.clock) × (l.deadline ≤ now)
  IsEnabled m l (timer_elapsed now) = (now ≡ m.clock) × (l.timer ≤ now)
  IsEnabled m l (received a r) = m.channel ≡ (a, r) ∷ []
  IsEnabled m l closed = (l.tx ≡ false) × (m.connecting ≡ []) × (m.sending ≡ []) × (m.channel ≡ [])

  abbrev pub taken : Pick f T → List (Message f T) → List (Message f T)
  taken (received a r) channel = []
  taken _ channel = channel

  -- The loop takes a branch.
  abbrev pub fire : Bool → System f T → Loop → Pick f T → System f T
  fire recorder m l p = record m {
    turn = (turn recorder l p).0;
    connecting = spawns (turn recorder l p).1 ++ m.connecting;
    channel = taken p m.channel;
    cancelled = is_stopped (turn recorder l p).0 || m.cancelled;
  }

  abbrev pub begin : ℕ → ℕ → List SocketAddr → System f T
  begin now tcp_timeout addrs = record {
    clock = now;
    turn = go (start now tcp_timeout addrs);
    connecting = [];
    sending = [];
    channel = [];
    cancelled = false;
  }

module _ {f : Foreign} {T : Type 0} (s : Sockets f T) (local_addr : Option IpAddr)
    (prefer_ipv6 : Bool) (recorder : Bool) where
  -- A run of the system, with the branches that its loop takes.
  pub data Runs : System f T → List (Pick f T) → System f T → Type 0 where
    halt : (m : System f T) → Runs m [] m
    task :
        (m n k : System f T) (ps : List (Pick f T))
        → TaskStep s local_addr prefer_ipv6 m n
        → Runs n ps k
        → Runs m ps k
    turned :
        (m k : System f T) (l : Loop) (p : Pick f T) (ps : List (Pick f T))
        → m.turn ≡ go l
        → m.cancelled ≡ false
        → IsEnabled m l p
        → Runs (fire recorder m l p) ps k
        → Runs m (p ∷ ps) k
