-- ===== src/Stats/Timing.antt =====
-- src/stats.rs: the durations that `finish` computes, against its total.
use httptrace.Prelude.{
  ℕ, ◌-◌, ◌≤◌, ◌≡◌, Option, none, some, List, [], ◌∷◌, map, arith, Text, sym, subst, map_some, All,
  unwrap_or,
}
use httptrace.Prelude.HashMap
use httptrace.Prelude.HashMap.{HashMap}
use httptrace.Net.{Display}
use httptrace.Recorder.{
  Call, dns_start, dns_done, tcp_start, tcp_done, tls_start, tls_done, request_start,
}
use httptrace.Stats.{
  StatRecord, Inner, Readings, init, handle, replay, finish, tcp_stat, tls_stat, dns_stat, Stats,
  phase, request_stat,
}

abbrev From : ℕ → Option ℕ → Type 0
From lo none = ⊥
From lo (some t) = lo ≤ t

abbrev UpTo : ℕ → Option ℕ → Type 0
UpTo hi none = Unit
UpTo hi (some t) = t ≤ hi

-- A record that began at `lo` or later and was not done after `hi`.
abbrev Between : ℕ → ℕ → StatRecord → Type 0
Between lo hi r = From lo r.start × UpTo hi r.done

abbrev pub IfSome : {A : Type 0} → (A → Type 0) → Option A → Type 0
IfSome P none = Unit
IfSome P (some a) = P a

record Inv (lo hi : ℕ) (s : Inner) : Type 0 where
  dns_start : s.dns_stat.start ≡ some lo
  dns_done : UpTo hi s.dns_stat.done
  tcp : All (λ e. Between lo hi e.1) (unwrap_or [] s.tcp_stats)
  tls : IfSome (Between lo hi) s.tls_stat
  request : IfSome (Between lo hi) s.request_stat

-- A later call: made between `lo` and `hi`, and not the start of another request's DNS phase.
abbrev pub IsLater : (d : Display) → ℕ → ℕ → ℕ × Call d → Type 0
IsLater d lo hi (now, dns_start servers host) = ⊥
IsLater d lo hi (now, c) = (lo ≤ now) × (now ≤ hi)

module _ (d : Display) (lo hi : ℕ) where
  handle-Inv :
      (now : ℕ) (c : Call d) (s : Inner)
      → IsLater d lo hi (now, c)
      → Inv lo hi s
      → Inv lo hi (handle d now c s)
  unfolding handle
  handle-Inv now (dns_start servers host) s h v = absurd h
  handle-Inv now (dns_done servers host r) s h v = ground arith
  handle-Inv now (tcp_start dest) s h v = record {
    dns_start = v.dns_start;
    dns_done = v.dns_done;
    tls = v.tls;
    request = v.request;
    tcp = HashMap.All-insert (Between lo hi) (d.socket dest) _ _ (h.0, tt) v.tcp;
  }
  handle-Inv now (tcp_done dest r) s h v = record {
    dns_start = v.dns_start;
    dns_done = v.dns_done;
    tls = v.tls;
    request = v.request;
    tcp = HashMap.All-modify (Between lo hi) (d.socket dest) _ _ (λ e b. (b.0, h.1)) v.tcp;
  }
  handle-Inv now tls_start s h v = ground arith
  handle-Inv now (tls_done r) s h v = ground arith
  handle-Inv now request_start s h v = ground arith

  replay-Inv :
      (cs : List (ℕ × Call d)) (s : Inner)
      → All (IsLater d lo hi) cs
      → Inv lo hi s
      → Inv lo hi (replay d cs s)
  unfolding replay
  replay-Inv [] s h v = v
  replay-Inv ((now, c) ∷ cs) s h v = replay-Inv cs (handle d now c s) h.1 (handle-Inv now c s h.0 v)

-- No phase lasts longer than `n`.
abbrev pub NoLongerThan : ℕ → Stats → Type 0
NoLongerThan n r =
    (r.dns_stats.duration ≤ n)
    × IfSome (All (λ s. s.duration ≤ n)) r.tcp_stats
    × IfSome (λ s. s.duration ≤ n) r.tls_stats
    × IfSome (λ s. s.duration ≤ n) r.request_stats

module _ (lo hi : ℕ) where
  phase-le : (reading : ℕ) (r : StatRecord) → Between lo hi r → phase reading r ≤ hi - lo
  unfolding phase
  phase-le reading r b = ground arith

  attempts-le :
      (readings : Text → ℕ) (m : HashMap StatRecord)
      → All (λ e. Between lo hi e.1) m
      → All (λ s. s.duration ≤ hi - lo) (map (tcp_stat readings) m)
  unfolding tcp_stat
  attempts-le readings [] h = tt
  attempts-le readings ((k, r) ∷ m) h = (phase-le (readings k) r h.0, attempts-le readings m h.1)

  attempts-le_some :
      (readings : Text → ℕ) (o : Option (HashMap StatRecord))
      → All (λ e. Between lo hi e.1) (unwrap_or [] o)
      → IfSome (All (λ s. s.duration ≤ hi - lo)) (map_some (map (tcp_stat readings)) o)
  attempts-le_some readings none h = tt
  attempts-le_some readings (some m) h = attempts-le readings m h

total_lem :
    (lo : ℕ) (t : Readings) (s : Inner) → Inv lo t.now s → (finish t s).total_duration ≡ t.now - lo
unfolding finish
total_lem lo t s v = ground arith

finish-NoLongerThan :
    (lo : ℕ) (t : Readings) (s : Inner) → Inv lo t.now s → NoLongerThan (t.now - lo) (finish t s)
unfolding finish dns_stat tls_stat request_stat
finish-NoLongerThan lo t s v = (
  phase-le lo t.now t.dns s.dns_stat (ground arith),
  attempts-le_some lo t.now t.tcp s.tcp_stats v.tcp,
  ground arith,
  ground arith,
)

-- Stats of a recorder whose first call begins the DNS phase and whose other calls stand between
-- that moment and the reading of `finish`, with no second DNS phase among them: the total is the
-- time from the first call to `finish`, and the DNS phase, each connection attempt, the TLS
-- handshake and the request phase each last at most the total.
pub replay-NoLongerThan :
    (d : Display) (lo : ℕ) (servers : List d.NameServer) (host : Text) (cs : List (ℕ × Call d))
    (t : Readings)
    → All (IsLater d lo t.now) cs
    → let r = finish t (replay d ((lo, dns_start servers host) ∷ cs) init) in
      (r.total_duration ≡ t.now - lo) × NoLongerThan r.total_duration r
replay-NoLongerThan d lo servers host cs t h =
    let total = total_lem lo t s inv in
    (total, subst (λ n. NoLongerThan n (finish t s)) (sym total) (finish-NoLongerThan lo t s inv))
  where
    s : Inner
    s = replay d ((lo, dns_start servers host) ∷ cs) init

    inv : Inv lo t.now s
    inv = unfold replay handle in replay-Inv d lo t.now cs _ h (ground arith)
