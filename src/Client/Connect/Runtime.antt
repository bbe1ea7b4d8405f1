-- ===== src/Client/Connect/Runtime.antt =====
-- What tokio promises of the branches that `select!` takes in src/client.rs, `tcp_connect`:
-- a sleep is over no earlier than its deadline; the channel delivers what the spawned tasks sent,
-- each task's one message once; and `recv` gives `None` only when every sender is gone, the loop's
-- own and those of the tasks, and nothing is left in the channel.
use mathlib.Core.List.{Memᴰ, erase}
use native.Mathlib.Decide.{ℕ_discrete}
use httptrace.Prelude.{true, refl, ap, Result, Text, Bool, ◌≤◌, ◌≡◌, false, List, [], ◌∷◌, ◌++◌}
use httptrace.Net.{SocketAddr}
use httptrace.Error.{Foreign}
use httptrace.Client.Connect.{
  on_tcp_start, on_tcp_done, cancelled, when, Pick, deadline_elapsed, timer_elapsed, received,
  closed, Effect, spawned, Loop, Turn, go, stop, turn,
}

pub SocketAddr-discrete : Discrete SocketAddr
SocketAddr-discrete = hlevel ℕ_discrete

-- The addresses of the tasks that a turn spawns.
abbrev pub spawns : List Effect → List SocketAddr
spawns [] = []
spawns (spawned a ∷ es) = a ∷ spawns es
spawns (_ ∷ es) = spawns es

pub spawns-start :
    (b : Bool) (a : SocketAddr) → spawns (when b (on_tcp_start a) ++ (spawned a ∷ [])) ≡ a ∷ []
spawns-start true a = refl
spawns-start false a = refl

pub spawns-done :
    (b : Bool) (a : SocketAddr) (r : Result (Unit {0}) Text)
    → spawns (when b (on_tcp_done a r)) ≡ []
spawns-done true a r = refl
spawns-done false a r = refl

pub spawns-append : (xs ys : List Effect) → spawns (xs ++ ys) ≡ spawns xs ++ spawns ys
spawns-append [] ys = refl
spawns-append (spawned a ∷ xs) ys = ap (◌∷◌ a) (spawns-append xs ys)
spawns-append (on_tcp_start a ∷ xs) ys = spawns-append xs ys
spawns-append (on_tcp_done a r ∷ xs) ys = spawns-append xs ys
spawns-append (cancelled ∷ xs) ys = spawns-append xs ys

pub ruleset spawns_laws = (spawns-append, spawns-done)

module _ {f : Foreign} {T : Type 0} where
  -- `pending` holds the address of each task whose message has not been received.
  abbrev pub IsReady : Loop → List SocketAddr → Pick f T → Type 0
  IsReady s pending (deadline_elapsed now) = s.deadline ≤ now
  IsReady s pending (timer_elapsed now) = s.timer ≤ now
  IsReady s pending (received a r) = Memᴰ a pending
  IsReady s pending closed = (s.tx ≡ false) × (pending ≡ [])

  -- The tasks whose messages are still to come after a pick.
  unfoldable pub settle : Pick f T → List SocketAddr → List SocketAddr
  settle (received a r) pending = erase SocketAddr-discrete pending a
  settle _ pending = pending

  -- Every pick is ready, and there is none after the loop has ended.
  abbrev pub After : Turn f T → (Loop → Type 0) → List (Pick f T) → Type 0
  After (go s) rest ps = rest s
  After (stop r) rest ps = ps ≡ []

  abbrev pub IsHonest : Bool → Loop → List SocketAddr → List (Pick f T) → Type 0
  IsHonest b s pending [] = Unit
  IsHonest b s pending (p ∷ ps) =
      IsReady s pending p
      × After (turn b s p).0 (λ s'. IsHonest b s' (spawns (turn b s p).1 ++ settle p pending) ps) ps
