-- ===== src/Client/Handshake/Hearing.antt =====
-- src/client.rs, `tls_handshake`: what the request's recorder hears of it.
use httptrace.Prelude.{◌≡◌, Option, none, some, List, Result, ok, err, Text}
use httptrace.Recorder.{tls_start, tls_done}
use httptrace.Error.{Error, display}
use httptrace.Crates.{Crates}
use httptrace.Stats.{version_text}
use httptrace.Stats.Telling.{Heard}
use httptrace.Request.{Request}
use httptrace.Client.Builder.{Client}
use httptrace.Client.Async.{Event, Transport}
use httptrace.Client.Async.Hearing.{hears, hears-then_tell, hears-tell}
use httptrace.Client.Handshake.{TlsConfig, Connected, tls_handshake, shaken}

module _ (c : Crates) (x : Transport c) where
  -- What is heard of a handshake that has begun.
  abbrev pub heard_tls : Option (Result x.TlsStream (Error c.foreign)) → Option (Result Text Text)
  heard_tls none = none
  heard_tls (some (ok s)) = some (ok (version_text (x.protocol_version s)))
  heard_tls (some (err e)) = some (err (display e))

module _ (c : Crates) (x : Transport c) (r : Request c) (recorder : c.Recorder)
    (heard : r.recorder ≡ some recorder) (h : Heard) where
  hears-shaken :
      (ret : Option (Result x.TlsStream (Error c.foreign))) (es : List (Event c))
      → hears es h ≡ record h { tls = some none }
      → hears (shaken c x r ret es).0 h
        ≡ record h { tls = some (heard_tls c x (shaken c x r ret es).1) }
  unfolding shaken
  hears-shaken none es e = e
  hears-shaken (some (ok s)) es e =
      hears-then_tell c r recorder (tls_done (ok (x.protocol_version s))) es h _ heard e
  hears-shaken (some (err i)) es e =
      hears-then_tell c r recorder (tls_done (err (display i))) es h _ heard e

  pub hears-tls_handshake :
      (client : Client c) (native : List x.Cert)
      (connect : TlsConfig c x → x.ServerName → Option (Connected c.foreign x.TlsStream))
      → hears (tls_handshake c x client r native connect).0 h
        ≡ record h { tls = some (heard_tls c x (tls_handshake c x client r native connect).1) }
  unfolding tls_handshake
  hears-tls_handshake client native connect =
      hears-shaken _ _ (hears-tell c r recorder tls_start h heard)
