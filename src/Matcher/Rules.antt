-- ===== src/Matcher/Rules.antt =====
-- pkg/matcher/matcher.go: the configuration, the rules and what a matcher is made of.
use inferno_sim.Prelude.{String, Bool, Option, List}
use inferno_sim.Prelude.Dict.{Dict}
use inferno_sim.Matcher.Externals.{Values, Url, Registry}

pub record Request : Type 0 where
  pub method : String
  pub host : String
  pub url : Url
  pub headers : Values

-- The fields of `event.Event` that the matcher reads.
pub record Captured : Type 0 where
  pub method : String
  pub url : String
  pub headers : Values
  pub body_b64 : String

pub record Rule : Type 0 where
  pub methods : List String
  pub host_regex : String
  pub path_regex : String
  pub header_regex : Dict String
  pub query_regex : Dict String
  pub json_path_regex : Dict String
  pub grpc_method : String
  pub protobuf_field_regex : Dict String
  pub ignored_protobuf_fields : List String
  pub ignored_query_parameters : List String
  pub ignored_headers : List String
  pub ignored_json_paths : List String
  pub compare_headers : Bool
  pub compare_json : Bool
  pub compare_protobuf : Bool

pub record Config : Type 0 where
  pub ignored_query_parameters : List String
  pub ignored_headers : List String
  pub ignored_json_paths : List String
  pub rules : List Rule

-- A pattern stands for the expression compiled from it; `host` and `path` are empty where the
-- source holds `nil`.
pub record CompiledRule : Type 0 where
  pub rule : Rule
  pub headers : Dict String

pub record Matcher : Type 0 where
  pub config : Config
  pub rules : List CompiledRule
  pub grpc : Option Registry

pub data ConfigError : Type 0 where
  bad_regex bad_path needs_schemas unknown_method : ConfigError

pub data Reason : Type 0 where
  missing_url bad_captured_url method_mismatch host_mismatch path_mismatch query_mismatch : Reason
  captured_method host_regex_mismatch path_regex_mismatch header_mismatch : Reason
  query_regex_mismatch header_regex_mismatch json_path_mismatch : String → Reason
  request_not_json no_captured_json captured_not_json json_mismatch : Reason
  no_descriptors request_not_protobuf no_captured_protobuf captured_not_protobuf : Reason
  protobuf_mismatch selector_mismatch : Reason
  protobuf_field_mismatch : String → Reason
