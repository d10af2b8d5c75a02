-- ===== src/Tests/Policies.antt =====
-- Runs of the privacy policy and of the workflow verification on concrete data.
use inferno_sim.Prelude.{
  String, ◌≡◌, refl, ◌↔◌, true, false, none, some, List, [], ◌∷◌, str_eq, if◌then◌else◌,
}
use inferno_sim.Prelude.Lists.{any, All}
use inferno_sim.Prelude.Int.{pos}
use inferno_sim.Prelude.Result.{ok, ◌>>=◌}
use inferno_sim.Prelude.Text.{folded, equal_fold, trim_space, is_empty_text}
use inferno_sim.Prelude.Dict.{member, Distinct}
use inferno_sim.Json.{Json, num, text, obj, end, field, key, value_at, split_key, tokens_from}
use inferno_sim.Privacy as Privacy
use inferno_sim.Privacy.{apply_at, apply_message, apply_body, apply_bytes}
use inferno_sim.Privacy.Checks.{
  MessageHeader, Policy, redact, drop_it, load, check_named, validate_named_rule, check_fields,
  check_message_key, load_key, valid_action, parse_path,
}
use inferno_sim.Privacy.Loading.{IsLoaded, load-IsLoaded}
use inferno_sim.Privacy.Messages.{sanitize, apply_message_lem}
use inferno_sim.Privacy.Documents.{after_rule, value_at-apply_at}
use inferno_sim.Workflow as Workflow
use inferno_sim.Workflow.Observed.{Sources, load_observed, observe_event}
use inferno_sim.Tests.Driving.{order}
use inferno_sim.Workflow.{
  Step, Config, Observation, matches, verify_steps, search, judge, drift, validate_configs,
  check_configs, check_steps, check_step, check_protocol,
}
use inferno_sim.Workflow.Embedding.{Embeds, is_missing_step}
use inferno_sim.Workflow.Correlation.{verify_steps-loose, verify_steps-required, carries}
use inferno_sim.Workflow.Validity.{IsRunnable, config_names, validate_configs-IsRunnable}

abbrev privacy_tools : Privacy.Tools
privacy_tools = record {
  hmac_hex = λ secret value. value;
  unmarshal = λ s. none;
  marshal = λ v. "{}";
}

abbrev secret : String → String
secret name = "0123456789abcdef"

abbrev raw_policy : Policy
raw_policy = record {
  version = pos 1;
  capture_bodies = true;
  token_key_env = "KEY";
  headers = record { name = "Authorization"; action = drop_it } ∷ [];
  query_parameters = record { name = "token"; action = redact } ∷ [];
  json_fields = record { path = "$.user"; action = "tokenize" } ∷ [];
  message_key = redact;
  message_headers =
      record { name = "Cookie"; action = redact }
      ∷ record { name = "Trace"; action = drop_it }
      ∷ [];
  token_key = "";
}

abbrev policy : Policy
policy = record raw_policy { token_key = "0123456789abcdef" }

loaded : load secret (some raw_policy) ≡ ok policy
unfolding load check_named validate_named_rule check_fields check_message_key load_key valid_action
    parse_path trim_space equal_fold member split_key tokens_from folded
loaded = refl

load-IsLoaded_example : IsLoaded policy
load-IsLoaded_example = load-IsLoaded secret (some raw_policy) policy loaded

abbrev sent_headers : List MessageHeader
sent_headers =
    record { name = "cookie"; value = "a=1" } ∷ record { name = "kind"; value = "x" } ∷ []

apply_message_example : apply_message privacy_tools (some policy) "k" sent_headers "" ≡ (
    apply_body privacy_tools policy "" >>= λ body. ok (
      (if is_empty_text policy.message_key
          then "k"
          else apply_bytes privacy_tools policy policy.message_key "k"),
      sanitize privacy_tools policy policy.message_headers sent_headers,
      body,
    ))
apply_message_example =
    apply_message_lem privacy_tools secret (some raw_policy) policy "k" "" sent_headers loaded

abbrev document : Json
document = obj (field "user" (obj (field "mail" (text "a@b") (field "age" (num "7") end))) end)

value_at-apply_at_example :
    value_at
      (key "user" ∷ key "mail" ∷ [])
      (apply_at privacy_tools policy drop_it (key "user" ∷ key "mail" ∷ []) document)
    ≡ after_rule privacy_tools policy drop_it
        (key "user")
        (key "mail" ∷ [])
        (value_at (key "user" ∷ key "mail" ∷ []) document)
value_at-apply_at_example =
    value_at-apply_at privacy_tools policy drop_it (key "user") (key "mail" ∷ []) document

abbrev workflow_tools : Workflow.Tools
workflow_tools = record {
  compiles = λ r. true;
  matches = str_eq;
  parse_duration = λ d. some (pos 5);
}

abbrev order_step : Step
order_step = record {
  name = "order";
  protocol = "http";
  direction = "inbound";
  method = "POST";
  path_regex = "/orders";
  grpc_method = "";
  topic = "";
  within = "";
}

abbrev event_step : Step
event_step = record {
  name = "event";
  protocol = "kafka";
  direction = "";
  method = "";
  path_regex = "";
  grpc_method = "";
  topic = "orders";
  within = "5ns";
}

abbrev ordering : String → Config
ordering correlation = record {
  name = "ordering";
  correlation = correlation;
  steps = order_step ∷ event_step ∷ [];
}

abbrev order_seen : Observation
order_seen = record {
  protocol = "http";
  direction = "inbound";
  method = "post";
  path = "/orders";
  grpc_method = "";
  topic = "";
  correlation = "t1";
  timestamp = 3;
  sequence = pos 1;
  location = "inbound.log#event-1";
}

abbrev event_seen : String → Observation
event_seen id = record {
  protocol = "kafka";
  direction = "outbound";
  method = "";
  path = "";
  grpc_method = "";
  topic = "orders";
  correlation = id;
  timestamp = 9;
  sequence = pos 1;
  location = "messages.log#message-1";
}

abbrev seen : List Observation
seen = order_seen ∷ event_seen "t2" ∷ event_seen "t1" ∷ []

verify_steps-loose_example :
    (any is_missing_step
        (verify_steps workflow_tools (ordering "none") "" 0 0 (ordering "none").steps seen)
      ≡ false)
    ↔ Embeds (matches workflow_tools) (ordering "none").steps seen
verify_steps-loose_example = verify_steps-loose workflow_tools (ordering "none") seen refl

one_run :
    any is_missing_step
      (verify_steps workflow_tools (ordering "required") "" 0 0 (ordering "required").steps seen)
    ≡ false
unfolding verify_steps search judge drift matches equal_fold folded
one_run = refl

verify_steps-required_example :
    (id : String) × (is_empty_text id ≡ false)
    × Embeds (carries workflow_tools id) (ordering "required").steps seen
verify_steps-required_example =
    verify_steps-required workflow_tools (ordering "required") seen refl one_run

accepted : validate_configs workflow_tools (ordering "prefer" ∷ []) ≡ ok tt
unfolding validate_configs check_configs check_steps check_step check_protocol trim_space member
accepted = refl

validate_configs-IsRunnable_example :
    Distinct (config_names (ordering "prefer" ∷ []))
    × All (IsRunnable workflow_tools) (ordering "prefer" ∷ [])
validate_configs-IsRunnable_example =
    validate_configs-IsRunnable workflow_tools (ordering "prefer" ∷ []) accepted

abbrev sources : Sources
sources = record { path_of = λ u. some u; print = λ n. "1" }

observed_in_order :
    load_observed sources (some (some order ∷ [])) none []
    ≡ ok (observe_event sources "inbound.log" "inbound" 1 order "http://shop/orders" ∷ [])
unfolding load_observed
observed_in_order = refl
