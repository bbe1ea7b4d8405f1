-- ===== src/Tests/Client.antt =====
-- src/client.rs on concrete inputs: two addresses, the first of which refuses the connection.
use mathlib.Core.List.{Memᴰ, erase-cons-head, Mem, Perm}
use httptrace.Prelude.{
  ℕ, ◌+◌, ◌*◌, ◌≤◌, ◌≡◌, refl, true, List, [], ◌∷◌, ◌++◌, ok, err, arith, length,
}
use httptrace.Prelude.Time.{from_secs}
use httptrace.Net.{v4, SocketAddr}
use httptrace.Error.{io, all_tcp_connect_failed, tcp_deadline_exceeded}
use httptrace.Client.Connect.{
  turn, run, Pick, Loop, timer_elapsed, received, deadline_elapsed, closed, tcp_connect, start,
  fallback_interval,
}
use httptrace.Client.Connect.Runtime.{SocketAddr-discrete, IsHonest, spawns, settle}
use httptrace.Client.Connect.Outcome.{failures}
use httptrace.Client.Connect.Pace.{tcp_connect_failing, tcp_connect_pace, tcp_connect_order}
use httptrace.Client.Connect.Bound.{tcp_connect_bound}
use httptrace.Client.Connect.Progress.{EndsBy, tcp_connect-EndsBy}
use httptrace.Tests.Fixtures.{foreign}

abbrev first : SocketAddr
first = record { ip = v4 1; port = 80 }

abbrev second : SocketAddr
second = record { ip = v4 2; port = 80 }

abbrev both : List SocketAddr
both = first ∷ second ∷ []

-- The first attempt is refused before the second starts, which connects.
abbrev picks : List (Pick foreign ℕ)
picks =
    timer_elapsed 0
    ∷ received first (err (io tt))
    ∷ timer_elapsed (from_secs 3)
    ∷ received second (ok 7)
    ∷ []

picks-IsHonest : IsHonest true (start 0 (from_secs 30) both) [] picks
picks-IsHonest =
    unfold settle turn in (omega arith, (Memᴰ.head refl, (omega arith, (Memᴰ.head refl, refl))))

connect_pace_example :
    length (spawns (tcp_connect true 0 (from_secs 30) both picks).1) * fallback_interval + 0
    ≤ from_secs 4 + fallback_interval
connect_pace_example =
    tcp_connect_pace true 0 (from_secs 30) (from_secs 4) both picks (omega arith, (omega arith, tt))
      (omega arith) picks-IsHonest

connect_order_example :
    (rest : List SocketAddr) × (spawns (tcp_connect true 0 (from_secs 30) both picks).1 ++ rest
      ≡ both)
connect_order_example = tcp_connect_order true 0 (from_secs 30) both picks

connect_bound_example : length picks ≤ 2 * length both + 2
connect_bound_example =
    tcp_connect_bound true 0 (from_secs 30) (from_secs 4) both picks (omega arith)
      (omega arith, (omega arith, tt)) picks-IsHonest

-- The first address has failed, and the loop waits to try the second.
abbrev waiting : Loop
waiting = record {
  addrs = second ∷ [];
  timer = 0 + fallback_interval;
  tx = true;
  deadline = 0 + from_secs 30;
}

abbrev one_failed : List (Pick foreign ℕ)
one_failed = timer_elapsed 0 ∷ received first (err (io tt)) ∷ []

connect-EndsBy_example :
    ((t : ℕ)
      → 0 + from_secs 30 ≤ t
      → EndsBy true 0
          (from_secs 30)
          both
          one_failed
          (deadline_elapsed t ∷ [])
          (err tcp_deadline_exceeded))
    × ((t : ℕ)
        → waiting.timer ≤ t
        → Perm both (failures one_failed)
        → EndsBy true 0
            (from_secs 30)
            both
            one_failed
            (timer_elapsed t ∷ closed ∷ [])
            (err all_tcp_connect_failed))
    × ((a : SocketAddr) (stream : ℕ)
        → Mem a (spawns (tcp_connect true 0 (from_secs 30) both one_failed).1)
        → ¬ Mem a (failures one_failed)
        → EndsBy true 0 (from_secs 30) both one_failed (received a (ok stream) ∷ []) (ok stream))
connect-EndsBy_example =
    tcp_connect-EndsBy true 0 (from_secs 30) both one_failed waiting
      (unfold settle turn in (omega arith, (Memᴰ.head refl, tt)))
      (unfold tcp_connect run turn in refl)

-- One address, which refuses the connection at once.
abbrev refused : List (Pick foreign ℕ)
refused =
    timer_elapsed 0
    ∷ received first (err (io tt))
    ∷ timer_elapsed (0 + fallback_interval)
    ∷ closed
    ∷ []

connect_failing_example : length (first ∷ []) * fallback_interval + 0 ≤ from_secs 3
connect_failing_example =
    tcp_connect_failing true 0 (from_secs 30) (from_secs 3) (first ∷ []) refused
      (omega arith, (omega arith, tt)) refused-IsHonest (unfold tcp_connect run turn in refl)
  where
    refused-IsHonest : IsHonest true (start 0 (from_secs 30) (first ∷ [])) [] refused
    refused-IsHonest =
        unfold settle turn in
        (
          omega arith,
          (
            Memᴰ.head refl,
            (omega arith, ((refl, erase-cons-head SocketAddr-discrete first []), refl)),
          ),
        )
