-- ===== src/Lib.antt =====
-- httptrace, an HTTP client that measures the phases of a request.
--
-- A `ClientBuilder` (src/client.rs) makes a `Client`; a `RequestBuilder` (src/request.rs) makes a
-- `Request` from a URI (src/into_uri.rs), headers (src/util.rs for basic authentication) and a body
-- (src/body.rs); the client resolves the host, races connections to its addresses, shakes hands
-- over TLS (src/skip_verify.rs if certificates are not checked) and sends the request. It tells a
-- `Recorder` of each phase; `StatsRecorder` (src/stats.rs) turns what it hears into a report.
--
--   Prelude         numbers, lists, options, results, texts, hash maps and time
--   Net, Recorder   socket addresses, and the calls of the trait `Recorder`
--   Crates          the crates that the program calls, as records of types, operations and the
--                   documented behaviour that it relies on: parameters of the model
--   Error           src/error.rs, `Error` and the texts that it prints
--   Stats           src/stats.rs, `StatsRecorder`: the state behind the mutex (`Inner`), each callback
--                   (`handle`), `finish`; Report is `Display for Stats`
--   Body            src/body.rs, `Body` as an `HttpBody`; DataStream is the adapter of that name;
--                   Wrapping the conversions into a body with `IntoBytesBody`; Timeouts are the two
--                   wrappers and `response`
--   IntoUri, Util   src/into_uri.rs, src/util.rs
--   Verify          src/skip_verify.rs, the verifier
--   Request         src/request.rs, `Request`; Builder is `RequestBuilder`
--   Client          src/client.rs: Builder is `ClientBuilder` and its `build`; Resolve is
--                   `dns_resolve`, Connect `tcp_connect`, Attempt `_tcp_connect`, Handshake
--                   `tls_handshake` (Provider: `ensure_crypto_provider`), Execute `execute` with the
--                   two functions that send; Send is `get`, `post`, `head`, `request` and
--                   `RequestBuilder::send`
--   Response        src/response.rs, `Response` with `chunk`, `bytes`, `text_with_charset`; Polling is
--                   `bytes` over the polls of the body
--   Tests           runs on concrete inputs
--
-- Time is a number of nanoseconds since an origin, unbounded; each reading of the clock is an
-- argument. A call of an asynchronous function that waits on the outside gets what it waited for
-- as an argument: the loop of `tcp_connect` is given the branches of `select!` that it takes, with
-- their values, and what tokio promises of them is a predicate on such lists (Connect/Runtime; a
-- run that keeps it is called honest). Connect/Tasks is the loop with the tasks that it spawns, the
-- channel, the cancellation and the clock, as a relation of steps that interleave. `execute` is
-- given the answers of the resolver, of the peers and of hyper (`Outside`), where `none` stands for
-- an answer that comes only after the timeout around the execution; Execute/Schedule gives each
-- answer its time and that timeout, with those of name resolution and of the TLS handshake, its
-- length. A body or a stream behind a box is one that answers as it did
-- before (`Boxed`, `BoxedStream`). The code's functions recurse on lists and need no fuel, but for
-- the loop of `DataStream`, where the fuel is the number of turns; a caller that reads a body by
-- `chunk` does so a number of times. In both one more than there are frames is enough. A text is
-- the list of its character codes. A type that prints enters with the function that prints it; a
-- panic is `none`.
--
-- A `HashMap` keeps an order here, that of first insertion; Rust's gives any order, and no result
-- depends on it but for the order of lists. A mutable reference that a method gives out is the
-- function that it is used for. Wakers are not modelled, and neither are the tasks that drive
-- hyper's connections, the `Debug` implementations, and the examples, which only call the library
-- and print.
pub mod Prelude
pub mod Net
pub mod Recorder
pub mod Stats
pub mod Error
pub mod Crates
pub mod IntoUri
pub mod Util
pub mod Verify
pub mod Body
pub mod Request
pub mod Client
pub mod Response
pub mod Tests
