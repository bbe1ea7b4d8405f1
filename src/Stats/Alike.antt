-- ===== src/Stats/Alike.antt =====
-- src/stats.rs: states that differ in the order of the map of attempts, and calls that commute.
use httptrace.Prelude.{
  ℕ, ◌≡◌, ◌≢◌, ◌∙◌, refl, sym, ap, none, List, [], ◌∷◌, unwrap_or, is_some, Text,
}
use httptrace.Prelude.HashMap
use httptrace.Prelude.HashMap.{HashMap, get-insert, get-modify, count}
use httptrace.Prelude.HashMap.Order.{get-insert-insert, get-insert-modify, get-modify-modify}
use httptrace.Net.{Display}
use httptrace.Recorder.{Call, tcp_start, tcp_done}
use httptrace.Stats.{Inner, handle, replay}
use httptrace.Stats.Attempts.{elsewhere_text}

-- The state without its map of attempts.
abbrev pub without_tcp : Inner → Inner
without_tcp s = record s { tcp_stats = none }

-- States that differ only in the order of the map of attempts.
pub record Alike (s s' : Inner) : Type 0 where
  pub same_rest : without_tcp s ≡ without_tcp s'
  pub same_any : is_some s.tcp_stats ≡ is_some s'.tcp_stats
  pub same_tcp :
      (k : Text)
      → HashMap.get k (unwrap_or [] s.tcp_stats) ≡ HashMap.get k (unwrap_or [] s'.tcp_stats)

pub Alike-refl : (s : Inner) → Alike s s
Alike-refl s = record { same_rest = refl; same_any = refl; same_tcp = λ k. refl }

pub Alike-trans : {s t u : Inner} → Alike s t → Alike t u → Alike s u
Alike-trans v w = record {
  same_rest = v.same_rest ∙ w.same_rest;
  same_any = v.same_any ∙ w.same_any;
  same_tcp = λ k. v.same_tcp k ∙ w.same_tcp k;
}

module _ (d : Display) where
  Alike-handle :
      (now : ℕ) (k : Call d) (s s' : Inner)
      → Alike s s'
      → Alike (handle d now k s) (handle d now k s')
  unfolding handle
  Alike-handle now (tcp_start a) s s' v = record {
    same_rest = v.same_rest;
    same_any = refl;
    same_tcp = λ k. get-insert _ k _ _ ∙ rw (v.same_tcp k) (sym (get-insert _ k _ _));
  }
  Alike-handle now (tcp_done a r) s s' v = record {
    same_rest = v.same_rest;
    same_any = refl;
    same_tcp = λ k. get-modify _ k _ _ ∙ rw (v.same_tcp k) (sym (get-modify _ k _ _));
  }
  Alike-handle now k s s' v = record {
    same_rest = ap (handle d now k) v.same_rest;
    same_any = v.same_any;
    same_tcp = v.same_tcp;
  }

  pub Alike-replay :
      (cs : List (ℕ × Call d)) (s s' : Inner) → Alike s s' → Alike (replay d cs s) (replay d cs s')
  unfolding replay
  Alike-replay [] s s' v = v
  Alike-replay ((now, k) ∷ cs) s s' v = Alike-replay cs _ _ (Alike-handle now k s s' v)

  -- Calls of attempts on two addresses, and a call of an attempt with one of another phase.
  abbrev pub IsFree : Call d → Call d → Type 0
  IsFree (tcp_start a) (tcp_start b) = a ≢ b
  IsFree (tcp_start a) (tcp_done b r) = a ≢ b
  IsFree (tcp_done a r) (tcp_start b) = a ≢ b
  IsFree (tcp_done a r) (tcp_done b r') = a ≢ b
  IsFree (tcp_start a) k = Unit
  IsFree (tcp_done a r) k = Unit
  IsFree k (tcp_start a) = Unit
  IsFree k (tcp_done a r) = Unit
  IsFree k k' = ⊥

  pub Alike-swap :
      (t t' : ℕ) (k k' : Call d) (s : Inner)
      → IsFree k k'
      → Alike (handle d t' k' (handle d t k s)) (handle d t k (handle d t' k' s))
  unfolding handle
  Alike-swap t t' (tcp_start a) (tcp_start b) s n = record {
    same_rest = refl;
    same_any = refl;
    same_tcp = λ k. get-insert-insert _ _ k _ (elsewhere_text d a b (λ e. n (sym e))) _ _;
  }
  Alike-swap t t' (tcp_start a) (tcp_done b r) s n = record {
    same_rest = refl;
    same_any = refl;
    same_tcp = λ k. sym (get-insert-modify _ _ k _ (elsewhere_text d b a n) _ _);
  }
  Alike-swap t t' (tcp_done a r) (tcp_start b) s n = record {
    same_rest = refl;
    same_any = refl;
    same_tcp = λ k. get-insert-modify _ _ k _ (elsewhere_text d a b (λ e. n (sym e))) _ _;
  }
  Alike-swap t t' (tcp_done a r) (tcp_done b r') s n = record {
    same_rest = refl;
    same_any = refl;
    same_tcp = λ k. get-modify-modify _ _ k _ (elsewhere_text d a b (λ e. n (sym e))) _ _;
  }
  Alike-swap t t' (tcp_start a) k s n = record {
    same_rest = refl;
    same_any = refl;
    same_tcp = λ k. refl;
  }
  Alike-swap t t' (tcp_done a r) k s n = record {
    same_rest = refl;
    same_any = refl;
    same_tcp = λ k. refl;
  }
  Alike-swap t t' k (tcp_start a) s n = record {
    same_rest = refl;
    same_any = refl;
    same_tcp = λ k. refl;
  }
  Alike-swap t t' k (tcp_done a r) s n = record {
    same_rest = refl;
    same_any = refl;
    same_tcp = λ k. refl;
  }
  Alike-swap t t' k k' s n = absurd n
