-- ===== src/Body/Reusable.antt =====
-- src/body.rs: a body made of bytes, polled as an `HttpBody`.
use mathlib.Core.List.{append-nil}
use httptrace.Prelude.{
  ℕ, ◌≡◌, refl, ap, ◌∙◌, sym, true, none, some, List, [], ◌∷◌, ◌++◌, arith, ok, err, length,
  is_empty, Bool-cases, inl, inr, ◌↔◌,
}
use httptrace.Error.{BoxError}
use httptrace.Crates.{BodyApi, Crates}
use httptrace.Body.{ready, Item, HttpBody, polls, reusable, http_body}

is_empty→nil {ℓ} : {A : Type ℓ} (l : List A) → is_empty l ≡ true → l ≡ []
is_empty→nil [] h = refl
is_empty→nil (x ∷ l) h = cc

-- The data of the frames that polls gave.
unfoldable pub delivered : (a : BodyApi) {E : Type 0} → List (Item a.Frame E) → List ℕ
delivered a [] = []
delivered a (ready (some (ok frame)) ∷ items) =
    (elim (a.into_data frame) [ ok b ↦ a.contents b | err f ↦ [] ]) ++ delivered a items
delivered a (_ ∷ items) = delivered a items

module _ (c : Crates) (stream : HttpBody c.api c.Stream (BoxError c.foreign)) where
  open c use {api}

  -- The buffer after a poll, and what the poll took out of it.
  rest : (b : api.Bytes) → api.contents (api.split_off 0 b).0 ≡ []
  rest b = (api.split_off_lem 0 b (omega arith)).0

  out : (b : api.Bytes) → api.contents (api.split_off 0 b).1 ≡ api.contents b
  out b = (api.split_off_lem 0 b (omega arith)).1

  out_empty : (b : api.Bytes) → api.is_empty (api.split_off 0 b).1 ≡ is_empty (api.contents b)
  out_empty b = api.is_empty_lem _ ∙ ap is_empty (out b)

  -- A body whose bytes are gone delivers nothing.
  drained :
      (ts : List ℕ) (b : api.Bytes)
      → api.contents b ≡ []
      → delivered api (polls (http_body c stream) ts (reusable b)) ≡ []
  unfolding polls delivered http_body
  drained [] b h = refl
  drained (now ∷ ts) b h = rw (out_empty b, h) (drained ts _ (rest b))

  delivered-reusable :
      (now : ℕ) (ts : List ℕ) (b : api.Bytes)
      → delivered api (polls (http_body c stream) (now ∷ ts) (reusable b)) ≡ api.contents b
  unfolding polls delivered http_body
  delivered-reusable now ts b = elim (Bool-cases (is_empty (api.contents b))) [
    | inl e ↦ rw (out_empty b, e) (drained ts _ (rest b) ∙ sym (is_empty→nil _ e))
    | inr e ↦ rw (out_empty b, e, api.into_data_frame, drained ts _ (rest b), out b) (append-nil _)
  ]

reusable_end :
    (c : Crates) (stream : HttpBody c.api c.Stream (BoxError c.foreign)) (now : ℕ) (b : c.api.Bytes)
    → ((http_body c stream).is_end_stream (reusable b) ≡ true)
      ↔ (((http_body c stream).poll_frame now (reusable b)).0 ≡ ready none)
unfolding http_body
reusable_end c stream now b = ground (arith, out_empty c stream b, c.api.is_empty_lem b)

-- A body made of bytes, polled at any times and at least once, delivers its bytes, all of them and
-- each once; the size that it announces before is their number; and it says that it is at its end
-- exactly if its next poll gives the end of the stream.
pub reusable_delivers :
    (c : Crates) (stream : HttpBody c.api c.Stream (BoxError c.foreign)) (now : ℕ) (ts : List ℕ)
    (b : c.api.Bytes)
    → let items = polls (http_body c stream) (now ∷ ts) (reusable b) in
      (delivered c.api items ≡ c.api.contents b)
      × (c.api.exact ((http_body c stream).size_hint (reusable b))
          ≡ some (length (delivered c.api items)))
      × (((http_body c stream).is_end_stream (reusable b) ≡ true)
          ↔ (((http_body c stream).poll_frame now (reusable b)).0 ≡ ready none))
unfolding http_body
reusable_delivers c stream now ts b =
    let all = delivered-reusable c stream now ts b in
    (
      all,
      c.api.exact_with_exact _ ∙ ap some (c.api.len_lem b ∙ ap length (sym all)),
      reusable_end c stream now b,
    )
