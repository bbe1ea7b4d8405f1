-- ===== src/Tests/Fixtures.antt =====
-- Concrete types and functions in the place of the crates that src/ calls, small ones that keep
-- what the documentation promises.
use httptrace.Prelude.{
  All, ℕ, ◌+◌, ◌≡◌, ◌≢◌, refl, Bool, true, false, Option, none, some, List, [], ◌∷◌, ◌++◌, Result,
  ok, err, Text, codes, length, take, drop, is_empty, leb, ◌≤◌, ◌<◌, ◌==◌, if◌then◌else◌, is_some,
  arith, ◌%◌, ◌/◌,
}
use httptrace.Net.{IpAddr, v4, v6, SocketAddr, Display}
use httptrace.Error.{Foreign}
use httptrace.Crates.{Http, BodyApi, Timer, Base64, Hickory, Crates, IsVisible}

-- Errors that say nothing.
abbrev pub foreign : Foreign
foreign = record {
  InvalidUri = Unit;
  ResolveError = Unit;
  IoError = Unit;
  Elapsed = Unit;
  RustlsError = Unit;
  InvalidDnsName = Unit;
  HyperError = Unit;
  HttpError = Unit;
  InvalidHeaderValue = Unit;
  OtherError = Unit;
  invalid_uri_text = λ _. [];
  resolve_text = λ _. [];
  io_text = λ _. [];
  elapsed_text = λ _. [];
  rustls_text = λ _. [];
  invalid_dns_name_text = λ _. [];
  hyper_text = λ _. [];
  http_text = λ _. [];
  invalid_header_value_text = λ _. [];
  other_text = λ _. [];
}

-- A URI: its host, its port and whether its scheme is HTTPS.
pub record Uri : Type 0 where
  pub host : Option Text
  pub port : Option ℕ
  pub https : Bool

-- A header value: whether it is sensitive, and its text.
abbrev pub HeaderValue : Type 0
HeaderValue = Bool × Text

-- A header map: the first value of each name.
abbrev pub HeaderMap : Type 0
HeaderMap = ℕ → Option HeaderValue

abbrev pub insert : ℕ → HeaderValue → HeaderMap → HeaderMap
insert k v m j = if k == j then some v else m j

abbrev pub append : ℕ → HeaderValue → HeaderMap → HeaderMap
append k v m = if is_some (m k) then m else insert k v m

pub get_insert_self : (k : ℕ) (v : HeaderValue) (m : HeaderMap) → insert k v m k ≡ some v
get_insert_self k v m = ground arith

pub get_insert_ne : (k j : ℕ) (v : HeaderValue) (m : HeaderMap) → k ≢ j → insert k v m j ≡ m j
get_insert_ne k j v m h = ground arith

pub get_append_none :
    (k : ℕ) (v : HeaderValue) (m : HeaderMap) → m k ≡ none → append k v m k ≡ some v
get_append_none k v m h = ground arith

pub get_append_some :
    (k : ℕ) (v w : HeaderValue) (m : HeaderMap) → m k ≡ some w → append k v m k ≡ some w
get_append_some k v w m h = ground arith

pub get_append_ne : (k j : ℕ) (v : HeaderValue) (m : HeaderMap) → k ≢ j → append k v m j ≡ m j
get_append_ne k j v m h = ground arith

-- A text is a host, and the scheme is HTTPS if the host begins with an `s`.
abbrev pub parse_uri : Text → Result Uri (Unit {0})
parse_uri [] = err tt
parse_uri (x ∷ t) = ok (record { host = some (x ∷ t); port = none; https = x == 115 })

abbrev pub http : Http foreign
http = record {
  Method = ℕ;
  Version = ℕ;
  StatusCode = ℕ;
  Extensions = Unit;
  Uri = Uri;
  HeaderName = ℕ;
  HeaderValue = HeaderValue;
  HeaderMap = HeaderMap;
  method_get = 0;
  method_post = 1;
  method_head = 2;
  default_version = 11;
  empty_headers = λ _. none;
  parse_uri = parse_uri;
  host = λ u. u.host;
  port_u16 = λ u. u.port;
  is_https = λ u. u.https;
  host_name = 0;
  user_agent = 1;
  authorization = 2;
  get = λ k m. m k;
  insert = insert;
  append = append;
  parse_value = λ t. ok (false, t);
  value_of = λ t. (false, t);
  invalid_value = λ e. e;
  set_sensitive = λ s v. (s, v.1);
  is_sensitive = λ v. v.0;
  builder_error = λ m u v. none;
  get_insert_self = get_insert_self;
  get_insert_ne = get_insert_ne;
  get_append_none = get_append_none;
  get_append_some = get_append_some;
  get_append_ne = get_append_ne;
  parse_visible = λ t h. refl;
  get_empty = λ k. refl;
  is_sensitive_set = λ s v. refl;
  host_ne_user_agent = λ e. omega arith;
}

-- A frame: its data, or `none` for trailers.
abbrev pub into_data : Option (List ℕ) → Result (List ℕ) (Option (List ℕ))
into_data none = err none
into_data (some b) = ok b

abbrev pub api : BodyApi
api = record {
  Bytes = List ℕ;
  contents = λ b. b;
  of_list = λ b. b;
  len = length;
  is_empty = is_empty;
  split_off = λ at b. (take at b, drop at b);
  Frame = Option (List ℕ);
  data_frame = some;
  into_data = into_data;
  SizeHint = Option ℕ;
  with_exact = some;
  exact = λ h. h;
  contents_of_list = λ l. refl;
  len_lem = λ b. refl;
  is_empty_lem = λ b. refl;
  split_off_lem = λ at b h. (refl, refl);
  into_data_frame = λ b. refl;
  exact_with_exact = λ n. refl;
}

pub leb_over : (now s : ℕ) → s ≤ now → leb s now ≡ true
leb_over now s h = ground arith

pub leb_waits : (now s : ℕ) → now < s → leb s now ≡ false
leb_waits now s h = ground arith

abbrev pub timer : Timer
timer = record {
  Sleep = ℕ;
  sleep = λ now duration. now + duration;
  deadline = λ s. s;
  poll = λ now s. (leb s now, s);
  deadline_sleep = λ now duration. refl;
  deadline_poll = λ now s. refl;
  poll_over = leb_over;
  poll_waits = leb_waits;
}

-- Two letters for each byte.
abbrev pub letters : List ℕ → List ℕ
letters [] = []
letters (b ∷ bs) = (97 + b / 16 % 16) ∷ (97 + b % 16) ∷ letters bs

pub letters-IsVisible : (bs : List ℕ) → All IsVisible (letters bs)
letters-IsVisible [] = tt
letters-IsVisible (b ∷ bs) =
    ((omega arith, omega arith), ((omega arith, omega arith), letters-IsVisible bs))

abbrev pub base64 : Base64
base64 = record { encode = letters; encode_visible = letters-IsVisible }

abbrev pub socket_of : IpAddr → ℕ → Text
socket_of (v4 n) p = 4 ∷ n ∷ p ∷ []
socket_of (v6 n) p = 6 ∷ n ∷ p ∷ []

socket_of_injective : (i j : IpAddr) (p q : ℕ) → socket_of i p ≡ socket_of j q → (i ≡ j) × (p ≡ q)
socket_of_injective (v4 n) (v4 m) p q h = (cc, cc)
socket_of_injective (v4 n) (v6 m) p q h = ground arith
socket_of_injective (v6 n) (v4 m) p q h = ground arith
socket_of_injective (v6 n) (v6 m) p q h = (cc, cc)

abbrev pub socket : SocketAddr → Text
socket a = socket_of a.ip a.port

pub socket_injective : (a b : SocketAddr) → socket a ≡ socket b → a ≡ b
socket_injective a b h = ground (arith, socket_of_injective a.ip b.ip a.port b.port h)

abbrev pub display : Display
display = record {
  NameServer = Text;
  name_server = λ t. t;
  socket = socket;
  socket_injective = socket_injective;
}

abbrev pub hickory : Hickory foreign display
hickory = record {
  Config = List Text;
  new_config = [];
  add_name_server = λ n c. c ++ n ∷ [];
  name_servers = λ c. c;
  system_config = ok (codes "9.9.9.9" ∷ []);
  Strategy = ℕ;
  default_strategy = 0;
  ipv6_only = 1;
  ipv6_then_ipv4 = 2;
  same_strategy = λ a b. a == b;
  name_servers_new = refl;
  name_servers_add = λ n c. refl;
}

abbrev pub crates : Crates
crates = record {
  foreign = foreign;
  http = http;
  api = api;
  display = display;
  timer = timer;
  base64 = base64;
  hickory = hickory;
  Stream = List (List ℕ);
  Recorder = ℕ;
}
