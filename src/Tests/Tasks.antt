-- ===== src/Tests/Tasks.antt =====
-- src/client.rs, `tcp_connect` with its tasks, on one address.
use mathlib.Core.List.{Mem}
use httptrace.Prelude.HashMap
use httptrace.Request
use httptrace.Prelude.{
  text_eq, ℕ, ◌+◌, ◌≡◌, refl, true, false, none, some, List, [], ◌∷◌, ok, All, arith,
}
use httptrace.Prelude.Time.{from_secs}
use httptrace.Net.{v4, SocketAddr}
use httptrace.Client.Attempt.{attempt, open_socket, family_of, chosen}
use httptrace.Client.Connect.{Pick, timer_elapsed, received, stop, go, start, turn, tcp_connect}
use httptrace.Client.Connect.Runtime.{IsHonest}
use httptrace.Client.Connect.Tasks.{System, begin, Runs, halt, task, turned, tick, finish, send}
use httptrace.Client.Connect.Tasks.Attempts.{IsAttempted, tcp_connect-IsHonest}
use httptrace.Client.Connect.Tasks.Cleanup.{Ends, tcp_connect-Ends}
use httptrace.Client.Connect.Tasks.Ending.{IsResult, tcp_connect-IsResult}
use httptrace.Client.Resolve.{dns_resolve}
use httptrace.Client.Execute.Family.{execute_family}
use httptrace.Tests.Fixtures.{foreign, crates}
use httptrace.Tests.Peers.{sockets, transport, response}
use httptrace.Tests.Execute.{client, query, outside, peer, answered_run}

abbrev near : SocketAddr
near = record { ip = v4 1; port = 443 }

abbrev far : SocketAddr
far = record { ip = v4 2; port = 443 }

abbrev addrs : List SocketAddr
addrs = near ∷ far ∷ []

abbrev timeout : ℕ
timeout = from_secs 30

abbrev picks : List (Pick foreign ℕ)
picks = timer_elapsed 0 ∷ timer_elapsed 3000000000 ∷ received far (ok 7) ∷ []

-- Both attempts are started, the second one connects, and the first is left behind.
abbrev waiting : ℕ → List SocketAddr → ℕ → List SocketAddr → System foreign ℕ
waiting clock rest timer connecting = record {
  clock = clock;
  turn = go (record { addrs = rest; timer = timer; tx = true; deadline = timeout });
  connecting = connecting;
  sending = [];
  channel = [];
  cancelled = false;
}

abbrev both : System foreign ℕ
both = waiting 3000000000 [] 6000000000 (far ∷ near ∷ [])

abbrev sent : System foreign ℕ
sent = record both { connecting = near ∷ []; channel = (far, ok 7) ∷ [] }

abbrev ended : System foreign ℕ
ended = record sent { turn = stop (ok 7); channel = []; cancelled = true }

runs : Runs sockets none false true (begin 0 timeout addrs) picks ended
unfolding turn attempt open_socket
runs =
    turned (begin 0 timeout addrs) ended (start 0 timeout addrs) (timer_elapsed 0) _ refl refl
      (refl, omega arith)
      (task (waiting 0 (far ∷ []) 3000000000 (near ∷ [])) _ ended _ (tick 3000000000) (
        turned (waiting 3000000000 (far ∷ []) 3000000000 (near ∷ [])) ended
          (record { addrs = far ∷ []; timer = 3000000000; tx = true; deadline = timeout })
          (timer_elapsed 3000000000) _ refl refl (refl, omega arith)
          (task both _ ended _ (finish [] far (near ∷ []) false (ok 7) refl (λ e. e) refl) (
            task (record both { connecting = near ∷ []; sending = (far, ok 7) ∷ [] }) sent ended _
              (send [] (far, ok 7) [] refl refl)
              (turned sent ended
                (record { addrs = []; timer = 6000000000; tx = true; deadline = timeout })
                (received far (ok 7)) [] refl refl refl (halt ended))))))

honest_example :
    IsHonest true (start 0 timeout addrs) [] picks
    × ((tcp_connect true 0 timeout addrs picks).0 ≡ stop (ok 7))
    × All (IsAttempted sockets none false true) picks
honest_example = tcp_connect-IsHonest sockets none false true 0 timeout addrs picks ended runs

ends_example : Ends sockets none false true ended
ends_example = tcp_connect-Ends sockets none false true 0 timeout addrs picks ended runs refl

result_example : IsResult sockets none false true addrs (0 + timeout) 3000000000 (ok 7)
result_example =
    tcp_connect-IsResult sockets none false true 0 timeout addrs picks ended (ok 7) runs refl

-- The loop of an execution with the task of its one address.
abbrev alone : ℕ → ℕ → List SocketAddr → System foreign ℕ
alone clock timer connecting = record {
  clock = clock;
  turn = go (record { addrs = []; timer = timer; tx = true; deadline = from_secs 30 });
  connecting = connecting;
  sending = [];
  channel = [];
  cancelled = false;
}

abbrev served : System foreign ℕ
served = record (alone 0 3000000000 []) { turn = stop (ok 7); cancelled = true }

query-Runs : Runs sockets none false true (begin 0 (from_secs 30) (peer ∷ [])) outside.picks served
unfolding turn attempt open_socket
query-Runs =
    turned (begin 0 (from_secs 30) (peer ∷ [])) served (start 0 (from_secs 30) (peer ∷ []))
      (timer_elapsed 0) _ refl refl (refl, omega arith)
      (task (alone 0 3000000000 (peer ∷ [])) _ served _
        (finish [] peer [] false (ok 7) refl (λ e. e) refl)
        (task (record (alone 0 3000000000 []) { sending = (peer, ok 7) ∷ [] }) _ served _
          (send [] (peer, ok 7) [] refl refl)
          (turned (record (alone 0 3000000000 []) { channel = (peer, ok 7) ∷ [] }) served
            (record { addrs = []; timer = 3000000000; tx = true; deadline = from_secs 30 })
            (received peer (ok 7)) [] refl refl refl (halt served))))

-- The TCP stream comes of a socket of the address's family.
family_example :
    (dest : SocketAddr) × (t : ℕ) × Mem dest (peer ∷ [])
    × (attempt sockets none dest false false ≡ some (ok t))
    × (family_of dest.ip ≡ chosen sockets none false)
family_example =
    execute_family crates transport sockets client query outside (peer ∷ []) true response served
      (unfold dns_resolve Request.port HashMap.get text_eq in refl) query-Runs answered_run
