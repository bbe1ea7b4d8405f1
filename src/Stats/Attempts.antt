-- ===== src/Stats/Attempts.antt =====
-- src/stats.rs: what `finish` says of one connection attempt, whatever the other attempts do
-- between its start and its end.
use mathlib.Core.List.Memᴰ
use mathlib.Core.List.{Memᴰ}
use httptrace.Prelude.{
  ℕ, ◌≡◌, ◌≢◌, ◌∙◌, refl, Option, none, some, List, [], ◌∷◌, ◌++◌, map, arith, Text, All, unwrap_or,
  Result, ok, err, to_err, ap, text_eq, text_eq_iff, text_eq_refl, map_some, map_ok, false,
}
use httptrace.Prelude.HashMap
use httptrace.Prelude.HashMap.{HashMap, get-insert, get-modify}
use httptrace.Prelude.Time.{duration_since}
use httptrace.Net.{SocketAddr, Display}
use httptrace.Recorder.{Call, tcp_start, tcp_done}
use httptrace.Stats.{
  StatRecord, Inner, Stat, Readings, init, handle, replay, finish, tcp_stat, started_at,
  finished_at,
}

module _ (d : Display) (a : SocketAddr) where
  -- A call that is not about the address.
  abbrev pub IsElsewhere : ℕ × Call d → Type 0
  IsElsewhere (now, tcp_start b) = b ≢ a
  IsElsewhere (now, tcp_done b r) = b ≢ a
  IsElsewhere (now, c) = Unit

  attempt : Inner → Option StatRecord
  attempt s = HashMap.get (d.socket a) (unwrap_or [] s.tcp_stats)

  pub elsewhere_text : (b : SocketAddr) → b ≢ a → text_eq (d.socket b) (d.socket a) ≡ false
  elsewhere_text b h = ground (arith, text_eq_iff (d.socket b) (d.socket a), d.socket_injective b a)

  attempt-handle :
      (now : ℕ) (c : Call d) (s : Inner)
      → IsElsewhere (now, c)
      → attempt (handle d now c s) ≡ attempt s
  unfolding attempt handle
  attempt-handle now (tcp_start b) s h = rw (get-insert, elsewhere_text b h)
  attempt-handle now (tcp_done b r) s h = rw (get-modify, elsewhere_text b h)
  attempt-handle now _ s h = refl

  attempt-replay :
      (cs : List (ℕ × Call d)) (s : Inner)
      → All IsElsewhere cs
      → attempt (replay d cs s) ≡ attempt s
  unfolding replay
  attempt-replay [] s h = refl
  attempt-replay ((now, c) ∷ cs) s h =
      attempt-replay cs (handle d now c s) h.1 ∙ attempt-handle now c s h.0

  attempt-start :
      (now : ℕ) (s : Inner) → attempt (handle d now (tcp_start a) s) ≡ some (started_at now)
  unfolding attempt handle
  attempt-start now s = rw (get-insert, text_eq_refl)

  attempt-done :
      (now : ℕ) (r : Result (Unit {0}) Text) (s : Inner)
      → attempt (handle d now (tcp_done a r) s)
        ≡ map_some (finished_at now (map_ok (λ _. d.socket a) r)) (attempt s)
  unfolding attempt handle
  attempt-done now r s = rw (get-modify, text_eq_refl)

replay-append :
    (d : Display) (xs ys : List (ℕ × Call d)) (s : Inner)
    → replay d (xs ++ ys) s ≡ replay d ys (replay d xs s)
unfolding replay
replay-append d [] ys s = refl
replay-append d ((now, c) ∷ xs) ys s = replay-append d xs ys (handle d now c s)

-- A stat among those that `finish` lists.
abbrev pub Reports : Option (List Stat) → Stat → Type 0
Reports none s = ⊥
Reports (some l) s = Memᴰ s l

Reports-get :
    (readings : Text → ℕ) (k : Text) (r : StatRecord) (o : Option (HashMap StatRecord))
    → HashMap.get k (unwrap_or [] o) ≡ some r
    → Reports (map_some (map (tcp_stat readings)) o) (tcp_stat readings (k, r))
Reports-get readings k r none h = unfold HashMap.get in cc
Reports-get readings k r (some m) h = Memᴰ.map (tcp_stat readings) (HashMap.get-Mem k r m h)

module _ (d : Display) (a : SocketAddr) (t₀ t₁ : ℕ) (r : Result (Unit {0}) Text) where
  abbrev around : List (ℕ × Call d) → List (ℕ × Call d) → List (ℕ × Call d) → List (ℕ × Call d)
  around pre mid post = pre ++ (t₀, tcp_start a) ∷ (mid ++ (t₁, tcp_done a r) ∷ post)

  attempt-around :
      (pre mid post : List (ℕ × Call d))
      → All (IsElsewhere d a) mid
      → All (IsElsewhere d a) post
      → attempt d a (replay d (around pre mid post) init)
        ≡ some (finished_at t₁ (map_ok (λ _. d.socket a) r) (started_at t₀))
  unfolding replay
  attempt-around pre mid post hm hp =
      ap (attempt d a) (replay-append d pre _ init ∙ replay-append d mid _ begun)
      ∙ attempt-replay d a post _ hp
      ∙ attempt-done d a t₁ r (replay d mid begun)
      ∙ ap (map_some _) (attempt-replay d a mid begun hm ∙ attempt-start d a t₀ _)
    where
      begun : Inner
      begun = handle d t₀ (tcp_start a) (replay d pre init)

to_err-map_ok {ℓ κ μ} :
    {A : Type ℓ} {B : Type κ} {E : Type μ} (f : A → B) (r : Result A E)
    → to_err (map_ok f r) ≡ to_err r
to_err-map_ok f (ok a) = refl
to_err-map_ok f (err e) = refl

-- An attempt on address `a` that starts at `t₀` and is done at `t₁`, in any history in which no
-- call between the two and none after them is about `a`: `finish` lists it with the address, the
-- time from start to end, and the error exactly if the attempt failed. What else the history holds,
-- attempts on other addresses above all, makes no difference.
pub attempt_reported :
    (d : Display) (a : SocketAddr) (t₀ t₁ : ℕ) (r : Result (Unit {0}) Text) (t : Readings)
    (pre mid post : List (ℕ × Call d))
    → All (IsElsewhere d a) mid
    → All (IsElsewhere d a) post
    → Reports
        (finish t
          (replay d (pre ++ (t₀, tcp_start a) ∷ (mid ++ (t₁, tcp_done a r) ∷ post)) init)).tcp_stats
        (record { duration = duration_since t₁ t₀; extend = some (d.socket a); error = to_err r })
unfolding finish tcp_stat attempt
attempt_reported d a t₀ t₁ r t pre mid post hm hp =
    rw (← to_err-map_ok (λ _. d.socket a) r)
      (Reports-get t.tcp (d.socket a) _ _ (attempt-around d a t₀ t₁ r pre mid post hm hp))
