-- ===== src/Tests.antt =====
-- Concrete parameters, records, requests and scenarios, for the runs of the modules below.
use inferno_sim.Prelude.{
  subst, ℕ, zero, suc, ◌+◌, ◌-◌, ◌*◌, ◌/◌, ◌%◌, ◌^◌, ◌≤◌, ◌<◌, min, max, String, ◌≡◌, refl, sym, ap,
  ◌∙◌, ◌≢◌, ◌↔◌, ◌⊎◌, inl, inr, Bool, true, false, not, ◌&&◌, ◌||◌, Option, none, some, List, [],
  ◌∷◌, ◌++◌, map, reverse, arith, str_eq, eq_iff, eq_refl, ltb, leb, ◌==◌, if◌then◌else◌, ltb→lt,
  lt→ltb, leb→le, ==_iff, Bool-cases, Option-cases,
}
use inferno_sim.Prelude.Lists.{
  length, get_elem?, set, take, drop, any, is_empty, count_if, length-append, take-append-drop,
  length-take, length-drop, take_all, drop_all, All, All-append, All-get_elem?, length-map,
  All_mono, All_of_places,
}
use inferno_sim.Prelude.Int.{ℤ, pos, negsuc, pos_part, neg_part, ltb_ℤ, ◌≤ℤ◌}
use inferno_sim.Prelude.Result.{
  Result, ok, err, ◌>>=◌, ◌>>◌, reject_if, >>=-eq-ok, reject_if-ok, guarded-ok, Result-cases,
}
use inferno_sim.Prelude.Text.{
  equal_fold, trim_space, is_blank, is_empty_text, equal_fold_refl, equal_fold_sym,
  equal_fold_trans, equal_fold_congr, str_eq-true, str_eq-false,
}
use inferno_sim.Prelude.Dict.{
  Dict, lookup, put, lookup-put, has_key, member, Distinct, not-member-cons, member-cons_parts,
  place_of_name,
}
pub mod Messages
pub mod Policies
pub mod Linting
pub mod Driving
pub mod Replaying
pub mod Calls
use inferno_sim.Codec.{Codec}
use inferno_sim.Message.{Record, Header}
use inferno_sim.Kafka.{Faults}
use inferno_sim.Json.{Json, null}
use inferno_sim.Matcher.Externals.{Library, Url, Values}
use inferno_sim.Matcher.Rules.{
  Request, Captured, Rule, Config as MatchConfig, CompiledRule, Matcher,
}
use inferno_sim.Scenario.{Response, Step, Config, Engine, Formats}
use inferno_sim.StubProxy.Response.{Backend}
use inferno_sim.StubProxy.State.{Event, Proxy}

abbrev pub plain_codec : Codec
plain_codec = record {
  encode = λ s. s;
  decode = λ s. some s;
  sha256 = λ s. s;
  json_text = λ k s. none;
  decode-encode = λ s. refl;
}

abbrev pub record_named : String → ℕ → ℕ → Record
record_named id timestamp sequence = record {
  version = 1;
  id = id;
  timestamp = timestamp;
  sequence = pos sequence;
  broker = "kafka";
  direction = "publish";
  topic = "orders";
  partition = pos 0;
  offset = pos 0;
  key_b64 = "k";
  headers = record { key = "trace"; value_b64 = "v" } ∷ [];
  payload_b64 = "p";
  payload_sha256 = "p";
  redacted = false;
  correlation_id = "";
  schema = "";
}

abbrev pub three_records : List Record
three_records = record_named "a" 1 1 ∷ record_named "b" 2 2 ∷ record_named "c" 3 3 ∷ []

abbrev pub some_faults : Faults
some_faults = record {
  delay = pos 0;
  drop_every = pos 3;
  duplicate_every = pos 2;
  poison_every = pos 1;
  reorder_window = pos 2;
}

abbrev pub shop_url : Url
shop_url = record {
  scheme = "http";
  host = "shop";
  path = "/orders";
  escaped_path = "/orders";
  raw_query = "id=7";
  query = ("id", "7" ∷ []) ∷ [];
}

abbrev pub plain_library : Library
plain_library = record {
  compiles = λ p. true;
  matches = λ p s. str_eq p s;
  parse_url = λ u. some shop_url;
  unmarshal = λ s. some null;
  marshal = λ v. "null";
  decode = λ s. some s;
  canonical = λ s. s;
  strip_port = λ s. s;
  split_host_port = λ s. some s;
  join_nul = λ ss. "";
}

abbrev pub plain_rule : Rule
plain_rule = record {
  methods = "GET" ∷ [];
  host_regex = "";
  path_regex = "/orders";
  header_regex = ("Accept", "json") ∷ [];
  query_regex = ("id", "7") ∷ [];
  json_path_regex = [];
  grpc_method = "";
  protobuf_field_regex = [];
  ignored_protobuf_fields = [];
  ignored_query_parameters = [];
  ignored_headers = [];
  ignored_json_paths = [];
  compare_headers = false;
  compare_json = false;
  compare_protobuf = false;
}

abbrev pub no_matching : MatchConfig
no_matching = record {
  ignored_query_parameters = "nonce" ∷ [];
  ignored_headers = [];
  ignored_json_paths = [];
  rules = [];
}

abbrev pub legacy_matcher : Matcher
legacy_matcher = record { config = no_matching; rules = []; grpc = none }

abbrev pub compiled_rule : CompiledRule
compiled_rule = record { rule = plain_rule; headers = ("Accept", "json") ∷ [] }

abbrev pub rule_matcher : Matcher
rule_matcher = record {
  config = record no_matching { rules = plain_rule ∷ [] };
  rules = compiled_rule ∷ [];
  grpc = none;
}

abbrev pub get_order : Request
get_order = record {
  method = "GET";
  host = "shop";
  url = shop_url;
  headers = ("Accept", "json" ∷ []) ∷ [];
}

abbrev pub nonce_order : Request
nonce_order = record {
  method = "GET";
  host = "shop";
  url = record shop_url { query = put "nonce" ("1" ∷ []) shop_url.query };
  headers = [];
}

abbrev pub captured_order : Captured
captured_order = record {
  method = "GET";
  url = "http://shop/orders?id=7";
  headers = [];
  body_b64 = "";
}

abbrev pub plain_response : Response
plain_response = record {
  status = pos 200;
  headers = [];
  trailers = [];
  grpc_status = "";
  body = "hi";
  body_b64 = "";
  body_template = "";
  protobuf_type = "";
  protobuf_json = "";
  protobuf_stream = [];
  stream_message_delay = "";
}

abbrev pub plain_step : Step
plain_step = record {
  name = "first";
  state = "start";
  rule = plain_rule;
  next_state = "done";
  response = plain_response;
}

abbrev pub last_step : Step
last_step = record {
  name = "last";
  state = "done";
  rule = plain_rule;
  next_state = "";
  response = plain_response;
}

abbrev pub plain_scenario : Config
plain_scenario = record {
  name = "checkout";
  initial_state = "start";
  steps = plain_step ∷ last_step ∷ [];
}

abbrev pub plain_formats : Formats
plain_formats = record { base64 = λ s. true; delay = λ s. true; template = λ s. true }

abbrev pub plain_engine : Engine
plain_engine = record {
  configs = plain_scenario ∷ [];
  states = ("checkout", "start") ∷ [];
  compiled = (rule_matcher ∷ rule_matcher ∷ []) ∷ [];
}

abbrev pub plain_backend : Backend
plain_backend = record {
  render = λ t req body. some t;
  encode_message = λ t ds. some ds;
  encode_response = λ t ds. some ds;
  has_registry = false;
  delay = λ s. 0;
}

abbrev pub order_event : Event
order_event = record {
  captured = captured_order;
  status = 200;
  response_headers = ("Server", "x" ∷ []) ∷ [];
  response_trailers = [];
  response_body_b64 = "ok";
  grpc_status = "";
}

abbrev pub plain_proxy : Proxy
plain_proxy = record {
  events = order_event ∷ [];
  i = 0;
  seen = 0;
  max_seen = 2;
  rules = [];
  attempts = [];
  divergences = [];
  unexpected = false;
  cycle_expected = true;
  match_multiplier = 2;
  matcher = legacy_matcher;
  use_counts = λ _. 0;
  scenarios = plain_engine;
  tls_hosts = none;
}

abbrev pub orders : List (Request × Option String)
orders = (get_order, some "") ∷ (nonce_order, some "") ∷ (nonce_order, none) ∷ []
