-- ===== src/Stats/Keys.antt =====
-- src/stats.rs: which addresses `finish` lists.
use httptrace.Prelude.{
  ℕ, ap, ◌∙◌, ◌+◌, ◌≤◌, ◌≡◌, refl, Bool, false, Option, none, some, List, [], ◌∷◌, map, arith, Text,
  unwrap_or, text_eq, map_some, if◌then◌else◌, ◌||◌,
}
use httptrace.Prelude.HashMap.{HashMap, count, count-insert, count-modify}
use httptrace.Net.{Display}
use httptrace.Recorder.{Call, tcp_start, tcp_done}
use httptrace.Stats.{StatRecord, Inner, Stat, Readings, init, handle, replay, finish, tcp_stat}

-- How many stats stand under an address.
unfoldable pub listed : Text → List Stat → ℕ
listed k [] = 0
listed k (s ∷ l) = (if text_eq (unwrap_or [] s.extend) k then 1 else 0) + listed k l

module _ (d : Display) where
  -- Whether a call starts an attempt on the address with this text.
  abbrev pub starts : Text → Call d → Bool
  starts k (tcp_start a) = text_eq (d.socket a) k
  starts k c = false

  unfoldable pub attempted : Text → List (ℕ × Call d) → Bool
  attempted k [] = false
  attempted k ((now, c) ∷ cs) = starts k c || attempted k cs

  unfoldable pub entries : Text → Inner → ℕ
  entries k s = count k (unwrap_or [] s.tcp_stats)

  -- Every key has one entry at most.
  abbrev pub OncePerKey : Inner → Type 0
  OncePerKey s = (j : Text) → entries j s ≤ 1

  entries-handle :
      (k : Text) (now : ℕ) (c : Call d) (s : Inner)
      → OncePerKey s
      → entries k (handle d now c s) ≡ (if starts k c then 1 else entries k s)
  unfolding entries handle
  entries-handle k now (tcp_start a) s h =
      count-insert (d.socket a) k _ (unwrap_or [] s.tcp_stats) (h (d.socket a))
  entries-handle k now (tcp_done a r) s h = count-modify (d.socket a) k _ (unwrap_or [] s.tcp_stats)
  entries-handle k now _ s h = refl

  pub handle-OncePerKey :
      (now : ℕ) (c : Call d) (s : Inner) → OncePerKey s → OncePerKey (handle d now c s)
  handle-OncePerKey now c s h j = ground (arith, entries-handle j now c s h, h j)

  entries-replay :
      (k : Text) (cs : List (ℕ × Call d)) (s : Inner)
      → OncePerKey s
      → entries k (replay d cs s) ≡ (if attempted k cs then 1 else entries k s)
  unfolding replay attempted
  entries-replay k [] s h = refl
  entries-replay k ((now, c) ∷ cs) s h = ground (
    arith,
    entries-handle k now c s h,
    entries-replay k cs (handle d now c s) (handle-OncePerKey now c s h),
  )

listed-map :
    (k : Text) (readings : Text → ℕ) (m : HashMap StatRecord)
    → listed k (map (tcp_stat readings) m) ≡ count k m
unfolding listed tcp_stat count
listed-map k readings [] = refl
listed-map k readings ((j, r) ∷ m) =
    ap (λ (n : ℕ). (if text_eq j k then 1 else 0) + n) (listed-map k readings m)

listed-map_some :
    (k : Text) (readings : Text → ℕ) (o : Option (HashMap StatRecord))
    → listed k (unwrap_or [] (map_some (map (tcp_stat readings)) o)) ≡ count k (unwrap_or [] o)
listed-map_some k readings none = unfold listed count in refl
listed-map_some k readings (some m) = listed-map k readings m

-- In the stats of any history the address with text `k` stands once if the history starts an
-- attempt on it, however often, and not at all otherwise.
pub listed-finish :
    (d : Display) (k : Text) (t : Readings) (cs : List (ℕ × Call d))
    → listed k (unwrap_or [] (finish t (replay d cs init)).tcp_stats)
      ≡ (if attempted d k cs then 1 else 0)
unfolding finish entries count
listed-finish d k t cs = listed-map_some k t.tcp _ ∙ entries-replay d k cs init (λ j. omega arith)
