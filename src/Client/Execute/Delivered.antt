-- ===== src/Client/Execute/Delivered.antt =====
-- src/client.rs, src/body.rs and src/response.rs: from the answer that hyper gives to what a caller
-- reads of the response.
use mathlib.Core.List.{Memᴰ}
use httptrace.Prelude.{ℕ, ◌≡◌, refl, ap, sym, subst, some, List, ok}
use httptrace.Crates.{Crates}
use httptrace.Body.Timeouts.{map_err_body}
use httptrace.Request.{Request, HttpRequest}
use httptrace.Response
use httptrace.Response.{HttpResponse, Response, Collecting}
use httptrace.Response.Polling.{frames_at, bytes_at, IsRead, IsRead-bytes_at}
use httptrace.Client.Builder.{Client}
use httptrace.Client.Async.{Transport, Channel, sent}
use httptrace.Client.Execute.{Outside, answered, execute}
use httptrace.Client.Execute.Answering.{execute-IsAnswer}

module _ (c : Crates) (x : Transport c) (q : Collecting c) (ts : List ℕ) where
  -- The response tells what hyper's answer tells, and reads as that one's body.
  pub record IsReadAs (a : Response c) (resp : HttpResponse c x.Incoming) : Type 0 where
    pub same_status : Response.status a ≡ resp.status
    pub same_version : Response.version a ≡ resp.version
    pub same_headers : Response.headers a ≡ resp.headers
    pub same_extensions : Response.extensions a ≡ resp.extensions
    pub same_length :
        Response.content_length c x.stream a.res.body ≡ c.api.exact (x.incoming.size_hint resp.body)
    pub read : IsRead c x.box_hyper (frames_at x.incoming ts resp.body) (bytes_at c x.stream q ts a)

  answered-IsReadAs : (resp : HttpResponse c x.Incoming) → IsReadAs (answered c x resp) resp
  unfolding answered Response.status Response.version Response.headers Response.extensions
      Response.content_length map_err_body
  answered-IsReadAs resp = record {
    same_status = refl;
    same_version = refl;
    same_headers = refl;
    same_extensions = refl;
    same_length = ap c.api.exact (x.boxing.size_box resp.body);
    read = IsRead-bytes_at c x.box_hyper x.stream x.incoming x.boxing q ts resp.body _ refl;
  }

  -- A response that an execution returns tells the status, version, headers and extensions of
  -- hyper's answer to a request that it sent, and the length that the body of that answer announces.
  -- However the runtime polls, `bytes` gives the data that the polls get from that body, once it
  -- ends, or the body's first error, behind a box and as an error of a body, once that comes; and
  -- waits until then.
  pub execute-IsReadAs :
      (client : Client c) (r : Request c) (o : Outside c x) (a : Response c)
      → (execute c x client r o).1 ≡ ok a
      → (channel : Channel) × (h : HttpRequest c) × (resp : HttpResponse c x.Incoming) × Memᴰ
          (sent channel h)
          (execute c x client r o).0
        × (o.respond channel h ≡ some (ok resp))
        × IsReadAs a resp
  execute-IsReadAs client r o a e =
      let (channel, h, resp, m, answer, same) = execute-IsAnswer c x o client r a e in
      (
        channel,
        h,
        resp,
        m,
        answer,
        subst (λ k. IsReadAs k resp) (sym same) (answered-IsReadAs resp),
      )
