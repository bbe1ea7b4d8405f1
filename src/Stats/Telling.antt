-- ===== src/Stats/Telling.antt =====
-- src/stats.rs: what `finish` tells of a history but for the times.
use httptrace.Prelude.{
  ◌∙◌, sym, ◌++◌, ◌||◌, text_eq, if◌then◌else◌, unwrap_or, ℕ, ap, Bool, true, false, ◌≡◌, refl,
  Option, none, some, List, [], ◌∷◌, map, map_some, map_ok, is_some, Result, Text, to_ok, to_err,
  and_then, codes, join, arith,
}
use httptrace.Net.{SocketAddr, Display}
use httptrace.Stats.Keys.{listed, attempted, listed-finish}
use httptrace.Recorder.{
  Call, dns_start, dns_done, tcp_start, tcp_done, tls_start, tls_done, request_start,
}
use httptrace.Stats.{
  Inner, Stat, Stats, Readings, StatRecord, init, handle, replay, finish, version_text, dns_stat,
  tls_stat,
}

-- What was heard: the result of name resolution, the attempts to connect that began, whether a TLS
-- handshake began with its result if it ended, and whether the request began.
pub record Heard : Type 0 where
  pub dns : Option (Result Text Text)
  pub tcp : List SocketAddr
  pub tls : Option (Option (Result Text Text))
  pub request : Bool

abbrev pub nothing : Heard
nothing = record { dns = none; tcp = []; tls = none; request = false }

module _ (d : Display) where
  abbrev pub hear : Call d → Heard → Heard
  hear (dns_start servers host) h = h
  hear (dns_done servers host r) h = record h {
    dns = some (map_ok (λ v. join (codes ",") (map d.socket v.0)) r);
  }
  hear (tcp_start a) h = record h { tcp = h.tcp ++ a ∷ [] }
  hear (tcp_done a r) h = h
  hear tls_start h = record h { tls = some none }
  hear (tls_done r) h = record h { tls = map_some (λ _. some (map_ok version_text r)) h.tls }
  hear request_start h = record h { request = true }

  abbrev pub hear_all : List (Call d) → Heard → Heard
  hear_all [] h = h
  hear_all (k ∷ ks) h = hear_all ks (hear k h)

abbrev texts : Option (Result Text Text) → Option Text × Option Text
texts r = (and_then to_ok r, and_then to_err r)

-- Whether an address with a text is among some.
abbrev pub among : Display → Text → List SocketAddr → Bool
among d k [] = false
among d k (a ∷ l) = text_eq (d.socket a) k || among d k l

-- The stats tell what was heard: of name resolution and the TLS handshake their results or errors,
-- and of the attempts that began each address once.
pub record Tells (d : Display) (s : Stats) (h : Heard) : Type 0 where
  dns : (s.dns_stats.extend, s.dns_stats.error) ≡ texts h.dns
  tcp : (k : Text) → listed k (unwrap_or [] s.tcp_stats) ≡ (if among d k h.tcp then 1 else 0)
  tls : map_some (λ (p : Stat). (p.extend, p.error)) s.tls_stats ≡ map_some texts h.tls
  request : is_some s.request_stats ≡ h.request

-- The state keeps what was heard.
record Keeps (s : Inner) (h : Heard) : Type 0 where
  dns : s.dns_stat.result ≡ h.dns
  tls : map_some (λ (p : StatRecord). p.result) s.tls_stat ≡ h.tls
  request : is_some s.request_stat ≡ h.request

module _ (d : Display) where
  handle-Keeps :
      (now : ℕ) (k : Call d) (s : Inner) (h : Heard)
      → Keeps s h
      → Keeps (handle d now k s) (hear d k h)
  unfolding handle
  handle-Keeps now (dns_start servers host) s h v = ground arith
  handle-Keeps now (dns_done servers host r) s h v = ground arith
  handle-Keeps now (tcp_start a) s h v = ground arith
  handle-Keeps now (tcp_done a r) s h v = ground arith
  handle-Keeps now tls_start s h v = ground arith
  handle-Keeps now (tls_done r) s h v = ground arith
  handle-Keeps now request_start s h v = ground arith

  replay-Keeps :
      (cs : List (ℕ × Call d)) (s : Inner) (h : Heard)
      → Keeps s h
      → Keeps (replay d cs s) (hear_all d (map (λ e. e.1) cs) h)
  unfolding replay
  replay-Keeps [] s h v = v
  replay-Keeps ((now, k) ∷ cs) s h v = replay-Keeps cs _ _ (handle-Keeps now k s h v)

  among-append :
      (k : Text) (l : List SocketAddr) (a : SocketAddr)
      → among d k (l ++ a ∷ []) ≡ (among d k l || text_eq (d.socket a) k)
  among-append k [] a = ground arith
  among-append k (b ∷ l) a = ground (arith, among-append k l a)

  -- What was heard of is what the history attempted.
  among-hear_all :
      (k : Text) (cs : List (ℕ × Call d)) (h : Heard)
      → among d k (hear_all d (map (λ e. e.1) cs) h).tcp ≡ (among d k h.tcp || attempted d k cs)
  unfolding attempted
  among-hear_all k [] h = ground arith
  among-hear_all k ((now, tcp_start a) ∷ cs) h =
      ground (arith, among-hear_all k cs (hear d (tcp_start a) h), among-append k h.tcp a)
  among-hear_all k ((now, c) ∷ cs) h = among-hear_all k cs (hear d c h)

  pub replay-Tells :
      (t : Readings) (cs : List (ℕ × Call d))
      → Tells d (finish t (replay d cs init)) (hear_all d (map (λ e. e.1) cs) nothing)
  unfolding finish dns_stat tls_stat
  replay-Tells t cs =
      let v = replay-Keeps cs init nothing (record { dns = refl; tls = refl; request = refl }) in
      record {
        dns = ap texts v.dns;
        tcp = λ k.
            listed-finish d k t cs
            ∙ ap (λ (b : Bool). if b then 1 else 0) (sym (among-hear_all k cs nothing));
        tls = ground arith;
        request = ground arith;
      }
