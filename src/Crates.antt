-- ===== src/Crates.antt =====
-- What the program calls and does not implement, as records of types, operations and the documented
-- behaviour that it relies on: the crates http, bytes, http-body, base64,
-- hickory_resolver and tokio.
use httptrace.Prelude.{
  All, [], ◌∷◌, ◌++◌, ℕ, ◌+◌, ◌<◌, true, false, ◌≡◌, ◌≢◌, Bool, Option, none, some, List, Result,
  ok, Text, length, take, drop, is_empty as is_empty_list, ◌≤◌,
}
use httptrace.Net.{Display}
use httptrace.Error.{Foreign}

-- A visible ASCII character or a space.
abbrev pub IsVisible : ℕ → Type 0
IsVisible ch = (32 ≤ ch) × (ch < 127)

-- The http crate.
pub record Http (f : Foreign) : Type 1 where
  pub Method : Type 0
  pub Version : Type 0
  pub StatusCode : Type 0
  pub Extensions : Type 0
  pub Uri : Type 0
  pub HeaderName : Type 0
  pub HeaderValue : Type 0
  pub HeaderMap : Type 0
  pub method_get : Method
  pub method_post : Method
  pub method_head : Method
  -- `Version::default()`, `HeaderMap::default()`
  pub default_version : Version
  pub empty_headers : HeaderMap
  pub parse_uri : Text → Result Uri f.InvalidUri
  pub host : Uri → Option Text
  pub port_u16 : Uri → Option ℕ
  -- `uri.scheme() == Some(&Scheme::HTTPS)`
  pub is_https : Uri → Bool
  pub host_name : HeaderName
  pub user_agent : HeaderName
  pub authorization : HeaderName
  pub get : HeaderName → HeaderMap → Option HeaderValue
  pub insert : HeaderName → HeaderValue → HeaderMap → HeaderMap
  pub append : HeaderName → HeaderValue → HeaderMap → HeaderMap
  -- `HeaderValue::from_bytes`, `HeaderValue::try_from`, `parse`
  pub parse_value : Text → Result HeaderValue f.InvalidHeaderValue
  -- the value of these bytes, if they are visible; `HeaderValue::from_static`
  pub value_of : Text → HeaderValue
  -- `http::Error::from`
  pub invalid_value : f.InvalidHeaderValue → f.HttpError
  pub set_sensitive : Bool → HeaderValue → HeaderValue
  pub is_sensitive : HeaderValue → Bool
  -- the error that `Request::builder().method(…).uri(…).version(…).body(…)` gives, if any
  pub builder_error : Method → Uri → Version → Option f.HttpError
  -- A header map keeps what is inserted under the name and leaves the other names alone.
  pub get_insert_self :
      (k : HeaderName) (v : HeaderValue) (m : HeaderMap) → get k (insert k v m) ≡ some v
  pub get_insert_ne :
      (k j : HeaderName) (v : HeaderValue) (m : HeaderMap) → k ≢ j → get j (insert k v m) ≡ get j m
  -- `get` returns the first of several values.
  pub get_append_none :
      (k : HeaderName) (v : HeaderValue) (m : HeaderMap)
      → get k m ≡ none
      → get k (append k v m) ≡ some v
  pub get_append_some :
      (k : HeaderName) (v w : HeaderValue) (m : HeaderMap)
      → get k m ≡ some w
      → get k (append k v m) ≡ some w
  pub get_append_ne :
      (k j : HeaderName) (v : HeaderValue) (m : HeaderMap) → k ≢ j → get j (append k v m) ≡ get j m
  pub parse_visible : (t : Text) → All IsVisible t → parse_value t ≡ ok (value_of t)
  pub get_empty : (k : HeaderName) → get k empty_headers ≡ none
  pub is_sensitive_set : (s : Bool) (v : HeaderValue) → is_sensitive (set_sensitive s v) ≡ s
  pub host_ne_user_agent : host_name ≢ user_agent

-- The crates bytes and http-body.
pub record BodyApi : Type 1 where
  pub Bytes : Type 0
  pub contents : Bytes → List ℕ
  pub of_list : List ℕ → Bytes
  -- `Bytes::len`, `Bytes::is_empty`
  pub len : Bytes → ℕ
  pub is_empty : Bytes → Bool
  -- What stays in the buffer, and what `split_off` returns.
  pub split_off : ℕ → Bytes → Bytes × Bytes
  pub Frame : Type 0
  -- `Frame::data`
  pub data_frame : Bytes → Frame
  pub into_data : Frame → Result Bytes Frame
  pub SizeHint : Type 0
  pub with_exact : ℕ → SizeHint
  pub exact : SizeHint → Option ℕ
  pub contents_of_list : (l : List ℕ) → contents (of_list l) ≡ l
  pub len_lem : (b : Bytes) → len b ≡ length (contents b)
  pub is_empty_lem : (b : Bytes) → is_empty b ≡ is_empty_list (contents b)
  -- `self` afterwards contains elements `[0, at)`, and the result `[at, len)`.
  pub split_off_lem :
      (at : ℕ) (b : Bytes)
      → at ≤ length (contents b)
      → (contents (split_off at b).0 ≡ take at (contents b))
        × (contents (split_off at b).1 ≡ drop at (contents b))
  pub into_data_frame : (b : Bytes) → into_data (data_frame b) ≡ ok b
  pub exact_with_exact : (n : ℕ) → exact (with_exact n) ≡ some n

-- tokio's `Sleep`, on the runtime's clock.
pub record Timer : Type 1 where
  pub Sleep : Type 0
  -- `tokio::time::sleep(duration)`, called at a time
  pub sleep : ℕ → ℕ → Sleep
  pub deadline : Sleep → ℕ
  -- Whether a poll at this time is ready, and the sleep that it leaves.
  pub poll : ℕ → Sleep → Bool × Sleep
  pub deadline_sleep : (now duration : ℕ) → deadline (sleep now duration) ≡ now + duration
  pub deadline_poll : (now : ℕ) (s : Sleep) → deadline (poll now s).1 ≡ deadline s
  -- A sleep is over once its deadline is reached, and not before.
  pub poll_over : (now : ℕ) (s : Sleep) → deadline s ≤ now → (poll now s).0 ≡ true
  pub poll_waits : (now : ℕ) (s : Sleep) → now < deadline s → (poll now s).0 ≡ false

-- The base64 crate: its standard alphabet is visible.
pub record Base64 : Type 1 where
  pub encode : List ℕ → List ℕ
  pub encode_visible : (b : List ℕ) → All IsVisible (encode b)

-- hickory_resolver.
pub record Hickory (f : Foreign) (d : Display) : Type 1 where
  pub Config : Type 0
  -- `ResolverConfig::new()`
  pub new_config : Config
  pub add_name_server : d.NameServer → Config → Config
  pub name_servers : Config → List d.NameServer
  -- the configuration of the system, which `TokioResolver::builder` reads
  pub system_config : Result Config f.ResolveError
  -- `LookupIpStrategy`
  pub Strategy : Type 0
  pub default_strategy : Strategy
  pub ipv6_only : Strategy
  pub ipv6_then_ipv4 : Strategy
  pub same_strategy : Strategy → Strategy → Bool
  pub name_servers_new : name_servers new_config ≡ []
  -- A server that is added comes after those that are there.
  pub name_servers_add :
      (n : d.NameServer) (c : Config)
      → name_servers (add_name_server n c) ≡ name_servers c ++ n ∷ []

-- All of them together, with the types that the program only passes on.
pub record Crates : Type 1 where
  pub foreign : Foreign
  pub http : Http foreign
  pub api : BodyApi
  pub display : Display
  pub timer : Timer
  pub base64 : Base64
  pub hickory : Hickory foreign display
  -- `BoxBody<Bytes, Box<dyn Error + Send + Sync>>`
  pub Stream : Type 0
  -- `Box<dyn Recorder>`
  pub Recorder : Type 0
