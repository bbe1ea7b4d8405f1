-- ===== src/Client/Send.antt =====
-- src/client.rs and src/request.rs: from a client's `get`, `post`, `head` and `request` to
-- `RequestBuilder::send`.
pub mod Wire
pub mod Told
use httptrace.Prelude.{
  ◌≡◌, refl, ap, ◌∙◌, none, some, List, [], Result, ok, err, map_ok, to_err, or_else, Result-cases,
  inl, inr, arith,
}
use httptrace.Error.{Error}
use httptrace.Crates.{Crates}
use httptrace.Request
use httptrace.Request.{Request}
use httptrace.Request.Builder
use httptrace.Request.Builder.{RequestBuilder, Op, chain}
use httptrace.Request.Builder.Laws.{chain_error, first_error}
use httptrace.Response.{Response}
use httptrace.Client.Builder.{Client}
use httptrace.Client.Async.{Transport, Event}
use httptrace.Client.Execute.{Outside, execute}

module _ (c : Crates) (client : Client c) where
  -- `u` is what `u.into_uri()` gave.
  unfoldable pub request :
      c.http.Method → Result c.http.Uri (Error c.foreign) → RequestBuilder c (Client c)
  request method u = Builder.new client (map_ok (λ uri. Request.new method uri) u)

  pub get : Result c.http.Uri (Error c.foreign) → RequestBuilder c (Client c)
  unfolding request
  get u = request c.http.method_get u

  pub post : Result c.http.Uri (Error c.foreign) → RequestBuilder c (Client c)
  unfolding request
  post u = request c.http.method_post u

  pub head : Result c.http.Uri (Error c.foreign) → RequestBuilder c (Client c)
  unfolding request
  head u = request c.http.method_head u

module _ (c : Crates) (x : Transport c) where
  send_to :
      Client c
      → Result (Request c) (Error c.foreign)
      → Outside c x
      → List (Event c) × Result (Response c) (Error c.foreign)
  send_to client (err e) o = ([], err e)
  send_to client (ok r) o = execute c x client r o

  -- `RequestBuilder::send`
  pub send :
      RequestBuilder c (Client c)
      → Outside c x
      → List (Event c) × Result (Response c) (Error c.foreign)
  unfolding send_to
  send b o = send_to b.client b.request o

module _ (c : Crates) (x : Transport c) (client : Client c) where
  to_err-request :
      (method : c.http.Method) (u : Result c.http.Uri (Error c.foreign))
      → to_err (request c client method u).request ≡ to_err u
  unfolding request Builder.new
  to_err-request method (ok uri) = refl
  to_err-request method (err e) = refl

  client-request :
      (method : c.http.Method) (u : Result c.http.Uri (Error c.foreign))
      → (request c client method u).client ≡ client
  unfolding request Builder.new
  client-request method u = refl

  -- A request whose target `u` and whose calls on the builder leave an error, that of the target
  -- before those of the calls, is never executed: `send` gives that error and does nothing. If they
  -- leave no error, `send` is the execution of the request that was built, by the client that it
  -- was made from.
  pub send-chain :
      (method : c.http.Method) (u : Result c.http.Uri (Error c.foreign)) (os : List (Op c))
      (o : Outside c x)
      → let b = chain os (request c client method u) in
        let error = or_else (to_err u) (first_error os) in
        ((e : Error c.foreign) → error ≡ some e → send c x b o ≡ ([], err e))
        × (error ≡ none
            → (r : Request c) × (Builder.build b ≡ ok r) × (send c x b o ≡ execute c x client r o))
  unfolding send Builder.build
  send-chain method u os o =
      let b = chain os (request c client method u) in
      let (left, same) = chain_error os (request c client method u) in
      let error = left ∙ ap (λ e. or_else e (first_error os)) (to_err-request method u) in
      elim (Result-cases b.request) [
        | inl (r, built) ↦ (
          λ e h. absurd (ground arith),
          λ h. (r, built, rw built (ap (λ k. execute c x k r o) (same ∙ client-request method u))),
        )
        | inr (i, failed) ↦ (
          λ e h. rw failed (ap (λ (k : Error c.foreign). ([], err k)) (ground arith)),
          λ h. absurd (ground arith),
        )
      ]
