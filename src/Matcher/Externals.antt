-- ===== src/Matcher/Externals.antt =====
-- What pkg/matcher takes from Go's regexp, net/url, net/http, encoding/json and encoding/base64, and
-- from the Protobuf registry of pkg/grpcsim.
use inferno_sim.Prelude.{String, Bool, Option, List}
use inferno_sim.Prelude.Dict.{Dict}
use inferno_sim.Json.{Json}

-- `url.Values` and `http.Header`
abbrev pub Values : Type 0
Values = Dict (List String)

-- `url.URL` as `url.Parse` gives it, with `EscapedPath()` and `Query()`
pub record Url : Type 0 where
  pub scheme : String
  pub host : String
  pub path : String
  pub escaped_path : String
  pub raw_query : String
  pub query : Values

pub record Registry : Type 0 where
  pub has_method : String → Bool
  pub decode_request : String → String → Option Json

pub record Library : Type 0 where
  pub compiles : String → Bool
  pub matches : String → String → Bool
  pub parse_url : String → Option Url
  pub unmarshal : String → Option Json
  pub marshal : Json → String
  pub decode : String → Option String
  pub canonical : String → String
  pub strip_port : String → String
  pub split_host_port : String → Option String
  pub join_nul : List String → String
