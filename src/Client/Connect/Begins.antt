-- ===== src/Client/Connect/Begins.antt =====
-- src/client.rs, `tcp_connect`: a loop that is given more branches.
use mathlib.Core.List.{append_assoc}
use httptrace.Prelude.{◌⊎◌, inl, inr, refl, ap, ◌∙◌, ◌≡◌, Bool, List, [], ◌∷◌, ◌++◌}
use httptrace.Error.{Foreign}
use httptrace.Client.Connect.{Pick, Effect, Loop, Turn, go, stop, turn, run, resume}

module _ {f : Foreign} {T : Type 0} (b : Bool) where
  -- A run that is over, or that waits and goes on from where it was.
  abbrev pub GoesOn : Turn f T × List Effect → Turn f T × List Effect → Type 0
  GoesOn p q = (p ≡ q) ⊎ ((s : Loop) × (more : List Effect) × (p.0 ≡ go s) × (p.1 ++ more ≡ q.1))

  GoesOn-resume :
      (p : Turn f T × List Effect) (k k' : Loop → Turn f T × List Effect)
      → ((s : Loop) → GoesOn (k s) (k' s))
      → GoesOn (resume b p k) (resume b p k')
  unfolding resume
  GoesOn-resume (stop r, es) k k' h = inl refl
  GoesOn-resume (go s, es) k k' h = elim (h s) [
    | inl e ↦ inl (ap (λ q. (q.0, es ++ q.1)) e)
    | inr (s', more, waits, e) ↦ inr (s', more, waits, append_assoc es _ more ∙ ap (λ l. es ++ l) e)
  ]

  pub GoesOn-run :
      (s : Loop) (ps more : List (Pick f T)) → GoesOn (run b s ps) (run b s (ps ++ more))
  unfolding run
  GoesOn-run s [] more = inr (s, (run b s more).1, refl, refl)
  GoesOn-run s (p ∷ ps) more =
      GoesOn-resume (turn b s p) (λ s'. run b s' ps) (λ s'. run b s' (ps ++ more))
        (λ s'. GoesOn-run s' ps more)
