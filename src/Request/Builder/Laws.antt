-- ===== src/Request/Builder/Laws.antt =====
-- src/request.rs: chains of calls on a `RequestBuilder`, and clones.
use httptrace.Prelude.{
  or_else, or_else_assoc, ap, ◌∙◌, ◌≡◌, refl, Option, none, some, List, [], ◌∷◌, ok, err, to_err,
  arith,
}
use httptrace.Error.{Error, http}
use httptrace.Crates.{Crates}
use httptrace.Request.Builder.{
  RequestBuilder, Name, Value, Op, headers_op, header_op, bearer_op, body_op, timeout_op,
  version_op, recorder_op, apply, chain, build, bearer_value,
}

-- The error of a header whose name or, after it, whose value is refused.
abbrev pub refused : (c : Crates) → Name c → Value c → Option (Error c.foreign)
refused c (err e) value = some (http e)
refused c (ok key) (err e) = some (http e)
refused c (ok key) (ok value) = none

module _ {c : Crates} where
  abbrev pub op_error : Op c → Option (Error c.foreign)
  op_error (header_op key value) = refused c key value
  op_error (bearer_op token) = refused c (ok c.http.authorization) (bearer_value c token)
  op_error _ = none

  -- The first error of a chain.
  abbrev pub first_error : List (Op c) → Option (Error c.foreign)
  first_error [] = none
  first_error (o ∷ os) = or_else (op_error o) (first_error os)

module _ {c : Crates} {Client : Type 0} where
  apply_error :
      (o : Op c) (b : RequestBuilder c Client)
      → to_err (apply o b).request ≡ or_else (to_err b.request) (op_error o)
  unfolding apply
  apply_error (headers_op m) b = ground arith
  apply_error (header_op key value) b = ground arith
  apply_error (bearer_op token) b = ground arith
  apply_error (body_op x) b = ground arith
  apply_error (timeout_op t) b = ground arith
  apply_error (version_op v) b = ground arith
  apply_error (recorder_op x) b = ground arith

  client-apply : (o : Op c) (b : RequestBuilder c Client) → (apply o b).client ≡ b.client
  unfolding apply
  client-apply (headers_op m) b = refl
  client-apply _ b = refl

  -- The error that a chain of calls leaves is the builder's own, if it has one, or else that of the
  -- first header whose name or value was refused; there is none exactly if there is no such
  -- header. The client stays what it was.
  pub chain_error :
      (os : List (Op c)) (b : RequestBuilder c Client)
      → (to_err (build (chain os b)) ≡ or_else (to_err b.request) (first_error os))
        × ((chain os b).client ≡ b.client)
  unfolding chain build
  chain_error [] b = (ground arith, refl)
  chain_error (o ∷ os) b =
      let (rest, same) = chain_error os (apply o b) in
      (
        rest
            ∙ ap (λ e. or_else e (first_error os)) (apply_error o b)
            ∙ or_else_assoc (to_err b.request) (op_error o) (first_error os),
        same ∙ client-apply o b,
      )
