-- ===== src/Request/Clone.antt =====
-- src/request.rs: `Request::try_clone`.
use httptrace.Prelude.{◌≡◌, refl, ◌↔◌, Option, none, some, arith}
use httptrace.Crates.{Crates}
use httptrace.Body
use httptrace.Body.{Body, reusable, streaming}
use httptrace.Request.{Request, clone_body, try_clone, into_http, port}

module _ {c : Crates} where
  -- A request cannot be cloned exactly if its body is a stream. A clone is sent as the same HTTP
  -- request, or fails to be with the same error, to the same port and under the same timeout; but
  -- no recorder hears of it, whether or not the original had one.
  pub try_clone_lem :
      (r : Request c)
      → ((try_clone r ≡ none) ↔ ((s : c.Stream) × (r.body ≡ some (streaming s))))
        × ((q : Request c)
            → try_clone r ≡ some q
            → (into_http q ≡ into_http r)
              × (port q ≡ port r)
              × (q.timeout ≡ r.timeout)
              × (q.recorder ≡ none))
  unfolding try_clone Body.try_clone into_http port
  try_clone_lem r = ((λ e. stream_of r.body (ground arith), λ e. ground arith), λ q e. ground arith)
    where
      stream_of :
          (o : Option (Body c)) → clone_body o ≡ none → (s : c.Stream) × (o ≡ some (streaming s))
      stream_of none h = cc
      stream_of (some (reusable b)) h = cc
      stream_of (some (streaming s)) h = (s, refl)
