-- ===== src/Driver/Exchange.antt =====
-- pkg/replaydriver/replay.go: the requests, results and variables of `ReplayEvents`, and the headers
-- that a replayed request takes over.
use inferno_sim.Prelude.{
  ℕ, String, Bool, Option, none, some, List, [], ◌∷◌, ◌++◌, str_eq, if◌then◌else◌,
}
use inferno_sim.Prelude.Int.{ℤ}
use inferno_sim.Prelude.Result.{Result}
use inferno_sim.Prelude.Dict.{Dict, lookup, put, member}
use inferno_sim.Matcher.Externals.{Values}
use inferno_sim.EventLog.{Event}
use inferno_sim.Driver.State.{Reader}

pub record Url : Type 0 where
  pub scheme : String
  pub host : String
  pub path : String
  pub raw_path : String
  pub raw_query : String

pub record Request : Type 0 where
  pub method : String
  pub url : Url
  pub headers : Values
  pub body : Option String

-- `*http.Response`, with what reading its body gives
pub record Response : Type 0 where
  pub status : ℤ
  pub headers : Values
  pub body : Option String

-- What is taken from net/url, net/http, crypto/sha256 and encoding/base64: `new_request` is the URL
-- of `http.NewRequest` for a method and a target, `request_uri` is `RequestURI()`.
pub record Tools : Type 0 where
  pub reader : Reader
  pub parse_url : String → Option Url
  pub print_url : Url → String
  pub request_uri : Url → String
  pub new_request : String → Url → Option Url
  pub canonical : String → String
  pub encode : String → String
  pub hash : String → String
  pub size : String → ℕ

-- The clock at the request of an index: whether `MaxIdleTime` has passed since the last progress,
-- whether the deadline of `MaxWallClock` has passed before the request, and after it; and the
-- duration of the request.
pub record Clock : Type 0 where
  pub is_idle : ℕ → Bool
  pub is_late : ℕ → Bool
  pub is_late_after : ℕ → Bool
  pub elapsed : ℕ → ℤ

pub record ReplayConfig : Type 0 where
  pub scale_positive : Bool
  pub density_positive : Bool
  pub max_wall_clock : ℤ
  pub max_idle_time : ℤ
  pub max_events : ℤ
  pub safe_mode : Bool
  pub safe_mode_allow : List String

pub data Error : Type 0 where
  bad_scale bad_density no_requests bad_url bad_target bad_request read_failed too_large : Error
  body_omitted : ℕ → Error

-- What a line of the fingerprint is printed from.
pub data Signature : Type 0 where
  failed : String → String → Signature
  answered : String → String → ℤ → String → String → String → Signature

pub data Ending : Type 0 where
  finished stalled late_before late_after : Ending

pub record ReplayResult : Type 0 where
  pub completed : ℕ
  pub total : ℕ
  pub last_progress : ℕ
  pub signatures : List Signature
  pub error_count : ℕ
  pub skipped : ℕ
  pub replayed : List Event
  pub ending : Ending

-- The variables of the loop, and the requests that have been sent.
pub record Run : Type 0 where
  pub values : Dict String
  pub signatures : List Signature
  pub replayed : List Event
  pub error_count : ℕ
  pub skipped : ℕ
  pub last_progress : ℕ
  pub sent : List Request

-- A round of the loop returns, or goes on.
pub data Progress : Type 0 where
  returned : Result Error ReplayResult → Run → Progress
  going : Run → Progress

-- `shouldSkipReplayHeader`, on a canonical name
unfoldable pub skips_header : String → Bool
unfolding member
skips_header name = member name (
    "Connection" ∷ "Keep-Alive" ∷ "Proxy-Authenticate" ∷ "Proxy-Authorization" ∷ "Proxy-Connection"
    ∷ "Te" ∷ "Trailer" ∷ "Transfer-Encoding" ∷ "Upgrade" ∷ "Content-Length" ∷ [])

abbrev or_no_values : Option (List String) → List String
or_no_values none = []
or_no_values (some vs) = vs

-- `Header.Add` of a canonical name
unfoldable pub add_header : String → String → Values → Values
unfolding lookup put
add_header name v hs = put name (or_no_values (lookup name hs) ++ v ∷ []) hs

unfoldable pub add_values : String → List String → Values → Values
unfolding add_header
add_values name [] hs = hs
add_values name (v ∷ vs) hs =
    add_values name vs (if str_eq v "[REDACTED]" then hs else add_header name v hs)
