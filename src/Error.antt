-- ===== src/Error.antt =====
-- src/error.rs: the crate's error type. The payloads are errors of other crates, which enter with
-- the texts that they print.
use httptrace.Prelude.{◌++◌, Text, codes}

-- The error types of the crates that this one calls.
pub record Foreign : Type 1 where
  pub InvalidUri : Type 0
  pub ResolveError : Type 0
  pub IoError : Type 0
  pub Elapsed : Type 0
  pub RustlsError : Type 0
  pub InvalidDnsName : Type 0
  pub HyperError : Type 0
  pub HttpError : Type 0
  pub InvalidHeaderValue : Type 0
  -- any other error behind a `Box<dyn Error + Send + Sync>`
  pub OtherError : Type 0
  pub invalid_uri_text : InvalidUri → Text
  pub resolve_text : ResolveError → Text
  pub io_text : IoError → Text
  pub elapsed_text : Elapsed → Text
  pub rustls_text : RustlsError → Text
  pub invalid_dns_name_text : InvalidDnsName → Text
  pub hyper_text : HyperError → Text
  pub http_text : HttpError → Text
  pub invalid_header_value_text : InvalidHeaderValue → Text
  pub other_text : OtherError → Text

mutual
  pub data Error (f : Foreign) : Type 0 where
    unknown : Error f
    uri : f.InvalidUri → Error f
    resolve : f.ResolveError → Error f
    io : f.IoError → Error f
    timeout : f.Elapsed → Error f
    rustls : f.RustlsError → Error f
    invalid_dns_name : f.InvalidDnsName → Error f
    hyper : f.HyperError → Error f
    http : f.HttpError → Error f
    http_invalid_header : f.InvalidHeaderValue → Error f
    host_required : Error f
    empty_resolve_result : Error f
    all_tcp_connect_failed : Error f
    tcp_deadline_exceeded : Error f
    body : BoxError f → Error f
    body_timeout : Error f

  -- `Box<dyn Error + Send + Sync>`: an error of this crate behind the pointer, or a foreign one.
  pub data BoxError (f : Foreign) : Type 0 where
    boxed : Error f → BoxError f
    foreign : f.OtherError → BoxError f

unfoldable mutual
  pub display : {f : Foreign} → Error f → Text
  display unknown = codes "unknown error"
  display {f} (uri e) = codes "uri parse error " ++ f.invalid_uri_text e
  display {f} (resolve e) = codes "resolve error " ++ f.resolve_text e
  display {f} (io e) = codes "io error " ++ f.io_text e
  display {f} (timeout e) = codes "timeout error " ++ f.elapsed_text e
  display {f} (rustls e) = codes "rustls error " ++ f.rustls_text e
  display {f} (invalid_dns_name e) = codes "invalid dns name error " ++ f.invalid_dns_name_text e
  display {f} (hyper e) = codes "hyper error " ++ f.hyper_text e
  display {f} (http e) = codes "http error " ++ f.http_text e
  display {f} (http_invalid_header e) =
      codes "http invalid header value " ++ f.invalid_header_value_text e
  display host_required = codes "host required"
  display empty_resolve_result = codes "empty resolve result"
  display all_tcp_connect_failed = codes "all tcp connect failed"
  display tcp_deadline_exceeded = codes "tcp deadline exceeded"
  display (body e) = codes "body error: " ++ display_box e
  display body_timeout = codes "body timeout"

  pub display_box : {f : Foreign} → BoxError f → Text
  display_box (boxed e) = display e
  display_box {f} (foreign e) = f.other_text e
