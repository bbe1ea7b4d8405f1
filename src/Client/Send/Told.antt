-- ===== src/Client/Send/Told.antt =====
-- src/client.rs, src/request.rs, src/into_uri.rs and src/stats.rs together: what the stats of a
-- request tell of how its `send` went.
use httptrace.Prelude.{
  ◌⊎◌, inl, inr, ◌≡◌, refl, ap, subst, sym, ◌∙◌, ℕ, none, some, List, [], map, Result, ok, err,
  to_err, or_else, arith, Text, Option-cases, map_some,
}
use httptrace.Recorder.{Call}
use httptrace.Error.{Error}
use httptrace.Crates.{Crates}
use httptrace.IntoUri.{str_into_uri, str_into_uri_lem}
use httptrace.Request
use httptrace.Request.{Request}
use httptrace.Request.Builder.{Op, chain}
use httptrace.Request.Builder.Laws.{first_error}
use httptrace.Request.Builder.Chains.{last_of, recorder_of, after_calls, chain-after_calls}
use httptrace.Response.{Response}
use httptrace.Client.Builder.{Client}
use httptrace.Client.Async.{Transport, Event}
use httptrace.Client.Async.Hearing.{calls}
use httptrace.Client.Resolve.{dns_resolve}
use httptrace.Client.Execute.{Outside, execute}
use httptrace.Client.Execute.Told.{Ends, IsHonestFound, execute-Tells}
use httptrace.Client.Send.{request, send, send-chain}
use httptrace.Client.Send.Wire.{new_request}
use httptrace.Stats.{Readings, init, replay, finish}
use httptrace.Stats.Telling.{Heard, Tells}

module _ (c : Crates) (x : Transport c) (client : Client c) (method : c.http.Method)
    (os : List (Op c)) (o : Outside c x) where
  -- What `send` does and gives for a target after the calls `os`.
  abbrev pub sending :
      Result c.http.Uri (Error c.foreign) → List (Event c) × Result (Response c) (Error c.foreign)
  sending u = send c x (chain os (request c client method u)) o

  -- The connection loop of the request to `uri` is honest.
  abbrev pub IsHonestTo : c.http.Uri → Type 0
  IsHonestTo uri =
      IsHonestFound c x client o
        (dns_resolve c client (after_calls os (Request.new method uri)) o.lookup).1

  -- What the calls `cs` tell of it: it is not executed, or they tell where the execution ended.
  abbrev pub IsTold :
      Readings → List (ℕ × Call c.display) → Result c.http.Uri (Error c.foreign) → Type 0
  IsTold t cs u =
      ((e : Error c.foreign) × (or_else (to_err u) (first_error os) ≡ some e)
        × (sending u ≡ ([], err e)))
      ⊎ ((uri : c.http.Uri) × (h : Heard) × (u ≡ ok uri)
          × Tells c.display (finish t (replay c.display cs init)) h
          × Ends c x client o (c.http.is_https uri)
              (dns_resolve c client (after_calls os (Request.new method uri)) o.lookup).1 h
              (sending u).1)

  -- A target that was accepted is executed as the request that the calls built.
  sending-execute :
      (uri : c.http.Uri)
      → first_error os ≡ none
      → sending (ok uri) ≡ execute c x client (after_calls os (Request.new method uri)) o
  sending-execute uri good =
      let (_, executed) = send-chain c x client method (ok uri) os o in
      let (r, built, same) = executed good in
      let made : r ≡ after_calls os (Request.new method uri) = ground (
        arith,
        chain-after_calls os (request c client method (ok uri)) (Request.new method uri)
            (new_request c x client method uri os o) good,
      ) in
      same ∙ ap (λ r'. execute c x client r' o) made

  sending-IsTold :
      (recorder : c.Recorder) (t : Readings) (cs : List (ℕ × Call c.display))
      (u : Result c.http.Uri (Error c.foreign))
      → ((uri : c.http.Uri) → u ≡ ok uri → (host : Text) × (c.http.host uri ≡ some host))
      → last_of (λ k. map_some some (recorder_of k)) os none ≡ some recorder
      → ((uri : c.http.Uri) → u ≡ ok uri → IsHonestTo uri)
      → map (λ e. e.1) cs ≡ calls (sending u).0
      → IsTold t cs u
  unfolding Request.new
  sending-IsTold recorder t cs (err e) hosted l honest called =
      let (never, _) = send-chain c x client method (err e) os o in inl (e, refl, never e refl)
  sending-IsTold recorder t cs (ok uri) hosted l honest called =
      elim (Option-cases (first_error os)) [
        | inr (e, left) ↦
            let (never, _) = send-chain c x client method (ok uri) os o in
            inl (e, left, never e left)
        | inl good ↦
            let same = sending-execute uri good in
            let (host, there) = hosted uri refl in
            let (h, tells, ends) =
              execute-Tells c x client o (after_calls os (Request.new method uri)) recorder host t
                cs l there (honest uri refl) (called ∙ ap (λ p. calls p.0) same) in
            inr (
              uri,
              h,
              refl,
              tells,
              subst
                  (λ p.
                    Ends c x client o (c.http.is_https uri)
                      (dns_resolve c client (after_calls os (Request.new method uri)) o.lookup).1 h
                      p.1)
                  (sym same) ends,
            )
      ]

  hosted :
      (s : Text) (uri : c.http.Uri)
      → str_into_uri c.http s ≡ ok uri
      → (host : Text) × (c.http.host uri ≡ some host)
  hosted s uri e = elim (Option-cases (c.http.host uri)) [
    | inr found ↦ found
    | inl none_there ↦
        let (accepted, _) = str_into_uri_lem c.http s in
        let (_, there) = (accepted uri).0 e in absurd (ground arith)
  ]

  -- What the stats of a request to the target `s` tell of its `send`, if the recorder of the last
  -- call of `recorder` is the one that keeps them, `cs` are the calls that `send` makes of it, at
  -- whatever times, and the branches that the connection loop takes keep the runtime's promises.
  -- Either the target or a call on the builder left an error, and then nothing is done and the first
  -- such error is given; or the stats tell where the execution ended. If name resolution had not
  -- ended, they have no attempt, handshake or request, and the execution has timed out. If it
  -- failed, they have its error, which is the execution's, and nothing else. Otherwise they have the
  -- addresses found and no error of DNS, they list exactly the addresses on which the connection
  -- loop has started an attempt, each once, and one of these holds: the execution gives an error and
  -- they have neither a TLS handshake nor a request; or an attempt among those listed has given a
  -- stream, and they have, for an HTTPS request, a TLS handshake, but no request, and either the
  -- handshake has the error that the execution gives, or it has neither error nor version and the
  -- execution has timed out; or an attempt among those listed has given a stream, and they have a
  -- request, and a TLS handshake exactly if the request is for HTTPS, which has the version of the
  -- protocol and no error. Only in this last case can there be a response.
  pub send-IsTold :
      (recorder : c.Recorder) (s : Text) (t : Readings) (cs : List (ℕ × Call c.display))
      → last_of (λ k. map_some some (recorder_of k)) os none ≡ some recorder
      → ((uri : c.http.Uri) → str_into_uri c.http s ≡ ok uri → IsHonestTo uri)
      → map (λ e. e.1) cs ≡ calls (sending (str_into_uri c.http s)).0
      → IsTold t cs (str_into_uri c.http s)
  send-IsTold recorder s t cs = sending-IsTold recorder t cs (str_into_uri c.http s) (hosted s)
