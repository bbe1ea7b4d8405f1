-- ===== src/Stats/Interleaving.antt =====
-- src/stats.rs: connection attempts run at the same time, and their calls reach the recorder in any
-- interleaving.
use mathlib.Core.List.{Perm}
use mathlib.Core.List.Perm
use httptrace.Prelude.{
  ◌≤◌, ℕ, ◌≡◌, ap, Option, none, some, List, [], ◌∷◌, map, map_some, unwrap_or, is_some, arith,
  Text,
}
use httptrace.Prelude.HashMap
use httptrace.Prelude.HashMap.{HashMap, get-insert, get-modify, count}
use httptrace.Prelude.HashMap.Order.{get-Perm}
use httptrace.Net.{Display}
use httptrace.Recorder.{Call}
use httptrace.Stats.{
  StatRecord, Inner, Stat, Stats, Readings, init, handle, replay, finish, tcp_stat,
}
use httptrace.Stats.Keys.{OncePerKey, handle-OncePerKey, entries}
use httptrace.Stats.Alike.{Alike, Alike-refl, Alike-trans, Alike-replay, Alike-swap, IsFree}

-- Two histories of which one comes of the other by exchanges of neighbours that are free.
pub data Reordered (d : Display) : List (ℕ × Call d) → List (ℕ × Call d) → Type 0 where
  unchanged : (cs : List (ℕ × Call d)) → Reordered d cs cs
  after :
      (e : ℕ × Call d) (cs cs' : List (ℕ × Call d))
      → Reordered d cs cs'
      → Reordered d (e ∷ cs) (e ∷ cs')
  exchanged :
      (e e' : ℕ × Call d) (cs : List (ℕ × Call d))
      → IsFree d e.1 e'.1
      → Reordered d (e ∷ e' ∷ cs) (e' ∷ e ∷ cs)
  chained :
      (cs cs' cs'' : List (ℕ × Call d))
      → Reordered d cs cs'
      → Reordered d cs' cs''
      → Reordered d cs cs''

-- The same attempts in any order, or none on both sides.
abbrev pub SameAttempts : Option (List Stat) → Option (List Stat) → Type 0
SameAttempts none none = Unit
SameAttempts (some l) (some l') = Perm l l'
SameAttempts none (some l') = ⊥
SameAttempts (some l) none = ⊥

abbrev pub SameStats : Stats → Stats → Type 0
SameStats a b =
    (a.dns_stats ≡ b.dns_stats)
    × SameAttempts a.tcp_stats b.tcp_stats
    × (a.tls_stats ≡ b.tls_stats)
    × (a.request_stats ≡ b.request_stats)
    × (a.total_duration ≡ b.total_duration)

module _ (d : Display) where
  Alike-Reordered :
      (cs cs' : List (ℕ × Call d)) (s : Inner)
      → Reordered d cs cs'
      → Alike (replay d cs s) (replay d cs' s)
  unfolding replay
  Alike-Reordered _ _ s (unchanged cs) = Alike-refl (replay d cs s)
  Alike-Reordered _ _ s (after (t, k) cs cs' r) = Alike-Reordered cs cs' (handle d t k s) r
  Alike-Reordered _ _ s (exchanged (t, k) (t', k') cs n) =
      Alike-replay d cs _ _ (Alike-swap d t t' k k' s n)
  Alike-Reordered _ _ s (chained cs cs' cs'' r r') =
      Alike-trans (Alike-Reordered cs cs' s r) (Alike-Reordered cs' cs'' s r')

  replay-OncePerKey :
      (cs : List (ℕ × Call d)) (s : Inner) → OncePerKey d s → OncePerKey d (replay d cs s)
  unfolding replay
  replay-OncePerKey [] s h = h
  replay-OncePerKey ((t, k) ∷ cs) s h = replay-OncePerKey cs _ (handle-OncePerKey d t k s h)

  attempts-Alike :
      (readings : Text → ℕ) (o o' : Option (HashMap StatRecord))
      → is_some o ≡ is_some o'
      → ((k : Text) → HashMap.get k (unwrap_or [] o) ≡ HashMap.get k (unwrap_or [] o'))
      → ((k : Text) → count k (unwrap_or [] o) ≤ 1)
      → ((k : Text) → count k (unwrap_or [] o') ≤ 1)
      → SameAttempts (map_some (map (tcp_stat readings)) o) (map_some (map (tcp_stat readings)) o')
  attempts-Alike readings none none e h n n' = tt
  attempts-Alike readings (some m) (some m') e h n n' =
      Perm.map (tcp_stat readings) (get-Perm m m' n n' h)
  attempts-Alike readings none (some m') e h n n' = absurd (ground arith)
  attempts-Alike readings (some m) none e h n n' = absurd (ground arith)

  finish-Alike :
      (t : Readings) (s s' : Inner)
      → OncePerKey d s
      → OncePerKey d s'
      → Alike s s'
      → SameStats (finish t s) (finish t s')
  unfolding finish entries
  finish-Alike t s s' n n' v = (
    ap (λ (i : Inner). (finish t i).dns_stats) v.same_rest,
    attempts-Alike t.tcp s.tcp_stats s'.tcp_stats v.same_any v.same_tcp n n',
    ap (λ (i : Inner). (finish t i).tls_stats) v.same_rest,
    ap (λ (i : Inner). (finish t i).request_stats) v.same_rest,
    ap (λ (i : Inner). (finish t i).total_duration) v.same_rest,
  )

  init-OncePerKey : OncePerKey d init
  unfolding entries count
  init-OncePerKey k = omega arith

  -- The stats do not depend on how the calls of concurrent attempts are interleaved: two histories
  -- of which one comes of the other by exchanging neighbours, calls of attempts on two addresses or
  -- of an attempt and of another phase, are reported alike, the attempts up to their order.
  pub finish-Reordered :
      (t : Readings) (cs cs' : List (ℕ × Call d))
      → Reordered d cs cs'
      → SameStats (finish t (replay d cs init)) (finish t (replay d cs' init))
  finish-Reordered t cs cs' r =
      finish-Alike t _ _ (replay-OncePerKey cs init init-OncePerKey)
        (replay-OncePerKey cs' init init-OncePerKey) (Alike-Reordered cs cs' init r)
