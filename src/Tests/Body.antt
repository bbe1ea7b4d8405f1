-- ===== src/Tests/Body.antt =====
-- src/body.rs on bodies that are given step by step.
use httptrace.Prelude.{
  refl, ◌≢◌, ℕ, ◌≡◌, ◌↔◌, true, false, none, some, List, [], ◌∷◌, ◌++◌, map, ok, arith, length,
}
use httptrace.Error.{BoxError}
use httptrace.Body.{ready, pending, Item, HttpBody, polls, reusable, http_body, map_item_err}
use httptrace.Body.DataStream.{poll_next, poll_next-Answers, skip, here, gives}
use httptrace.Body.Reusable.{delivered, reusable_delivers}
use httptrace.Body.Timeouts.{response, with_read_timeout, ReadTimeoutBody}
use httptrace.Body.Timeouts.Response.Layers.{layers, response-layers}
use httptrace.Body.Timeouts.Read.{polls-with_read_timeout, read_answers}
use httptrace.Body.Timeouts.{map_err_body}
use httptrace.Body.Wrapping.{
  AnyBody, TryStream, map_item, into_bytes_body, bytes_body, Boxed, BoxedStream, framed,
  from_stream,
}
use httptrace.Body.Wrapping.Laws.{stream_polls, data_polls, wrapped, data_polls-from_stream}
use httptrace.Tests.Fixtures.{foreign, crates, api}
use httptrace.Tests.Peers.{frame_of, next_chunk, chunks}

delivers_example :
    let items = polls (http_body crates chunks) (3 ∷ 4 ∷ []) (reusable (1 ∷ 2 ∷ [])) in
    (delivered api items ≡ 1 ∷ 2 ∷ [])
    × (api.exact ((http_body crates chunks).size_hint (reusable (1 ∷ 2 ∷ [])))
        ≡ some (length (delivered api items)))
    × (((http_body crates chunks).is_end_stream (reusable (1 ∷ 2 ∷ [])) ≡ true)
        ↔ (((http_body crates chunks).poll_frame 3 (reusable (1 ∷ 2 ∷ []))).0 ≡ ready none))
delivers_example = reusable_delivers crates chunks 3 (4 ∷ []) (1 ∷ 2 ∷ [])

abbrev two : List (List ℕ)
two = (1 ∷ []) ∷ (2 ∷ []) ∷ []

abbrev same_error : BoxError foreign → BoxError foreign
same_error e = e

abbrev within_five : ReadTimeoutBody crates (List (List ℕ))
within_five = record { inner = two; sleep = none; timeout = 5 }

read_example :
    polls (with_read_timeout crates same_error chunks) (3 ∷ 20 ∷ []) within_five
    ≡ read_answers crates same_error chunks 5 none (3 ∷ 20 ∷ []) two
read_example = polls-with_read_timeout crates same_error chunks 5 none (3 ∷ 20 ∷ []) two none tt

chunks-prompt : (t : ℕ) (s : List (List ℕ)) → (chunks.poll_frame t s).0 ≢ pending
chunks-prompt t [] = λ e. cc
chunks-prompt t (chunk ∷ s) = λ e. cc

-- The data of a body as a stream, after trailers.
stream_example :
    poll_next api chunks 2 3 ([] ∷ two) ≡ some (ready (some (ok (1 ∷ []))), (2 ∷ []) ∷ [])
stream_example =
    poll_next-Answers api chunks 2 3 1 ([] ∷ two) two (ready (some (ok (1 ∷ [])))) (omega arith)
      (skip ([] ∷ two) two 0 none none refl refl (here two)) (gives (some (1 ∷ [])) (1 ∷ []) refl)

layers_example :
    let r = response crates same_error chunks two (some 10) (some 5) in
    polls r.methods ((3 ∷ 4 ∷ []) ++ 10 ∷ []) r.state
    ≡ layers crates same_error chunks (some 10) (some 5) (3 ∷ 4 ∷ []) (10 ∷ []) two
layers_example =
    response-layers crates same_error chunks two (some 10) (some 5) (3 ∷ 4 ∷ []) (10 ∷ [])
      ((omega arith, (omega arith, tt)), (omega arith, tt))

-- Another body, and a stream, of texts.
abbrev next_text : List (List ℕ) → Item (List ℕ) (BoxError foreign) × List (List ℕ)
next_text [] = (ready none, [])
next_text (t ∷ ts) = (ready (some (ok t)), ts)

abbrev text_body : AnyBody api (List ℕ) (List (List ℕ)) (BoxError foreign)
text_body = record {
  poll_frame = λ now s. next_text s;
  size_hint = λ s. none;
  is_end_stream = λ s. false;
}

poll-text_body :
    (s : List (List ℕ))
    → next_chunk s ≡ (map_item_err same_error (map_item frame_of (next_text s).0), (next_text s).1)
poll-text_body [] = refl
poll-text_body (t ∷ s) = refl

abbrev boxed_body :
    Boxed crates chunks (List (List ℕ)) (bytes_body crates frame_of same_error text_body)
unfolding bytes_body map_err_body into_bytes_body
boxed_body = record {
  box = λ s. s;
  poll_box = λ now s. poll-text_body s;
  size_box = λ s. refl;
  end_box = λ s. refl;
}

abbrev text_stream : TryStream (List ℕ) (List (List ℕ)) (BoxError foreign)
text_stream = record { poll_next = λ now s. next_text s }

-- A stream that was boxed keeps the texts that it still has.
abbrev texts : HttpBody api (List (List ℕ)) (BoxError foreign)
texts = record {
  poll_frame = λ now s. (map_item some (next_text s).0, (next_text s).1);
  size_hint = λ s. none;
  is_end_stream = λ s. false;
}

poll-texts :
    (s : List (List ℕ))
    → texts.poll_frame 0 s
      ≡ (map_item_err same_error (map_item some (next_text s).0), (next_text s).1)
poll-texts [] = refl
poll-texts (t ∷ s) = refl

abbrev boxed_stream :
    BoxedStream crates texts (List (List ℕ)) (framed crates (λ l. l) same_error text_stream)
unfolding framed
boxed_stream = record { box = λ s. s; poll_box = λ now s. poll-texts s }

from_stream_example :
    data_polls
      (http_body crates texts)
      1
      (3 ∷ 4 ∷ 5 ∷ [])
      (from_stream crates (λ l. l) same_error text_stream boxed_stream two)
    ≡ some
        (map (wrapped crates same_error (λ l. l)) (stream_polls text_stream (3 ∷ 4 ∷ 5 ∷ []) two))
from_stream_example =
    data_polls-from_stream crates texts (λ l. l) same_error text_stream boxed_stream 0
      (3 ∷ 4 ∷ 5 ∷ []) two
