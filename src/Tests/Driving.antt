-- ===== src/Tests/Driving.antt =====
-- A replay and an assessment of a login and an order on concrete data.
use inferno_sim.Prelude.{
  ℕ, ◌≡◌, refl, ◌↔◌, true, false, Option, none, some, List, [], ◌∷◌, str_eq, if◌then◌else◌,
}
use inferno_sim.Prelude.Lists.{length, get_elem?, take, All}
use inferno_sim.Prelude.Int.{pos}
use inferno_sim.Prelude.Text.{folded}
use inferno_sim.EventLog.{Event}
use inferno_sim.Driver.State.{Reader, identify_consumers}
use inferno_sim.Driver.Replay.{replay_events}
use inferno_sim.Driver.Exchange.{Url, Request, Response, Tools, Clock, ReplayConfig}
use inferno_sim.Driver.SafeMode.{is_safe, replay_events-safe}
use inferno_sim.Driver.Accounting.{Tells, replay_events-IsTrue}
use inferno_sim.Driver.Verification.{TokenReader, verify_events}
use inferno_sim.Driver.Readiness.{all_produced, produced_by_all, verify_events-missing}

abbrev reader : Reader
reader = record {
  decode = λ s. some s;
  decoded_part = λ s. s;
  cookies = λ hs. [];
  fields = λ body. some (("token", "t1") ∷ []);
  header = λ name hs. "application/json";
  contains = str_eq;
  replace_all = λ s old new. if str_eq s old then new else s;
}

abbrev pub shop : Url
shop = record { scheme = "http"; host = "shop"; path = "/orders"; raw_path = ""; raw_query = "" }

abbrev tools : Tools
tools = record {
  reader = reader;
  parse_url = λ s. some shop;
  print_url = λ u. u.path;
  request_uri = λ u. u.path;
  new_request = λ m u. some u;
  canonical = λ s. s;
  encode = λ s. s;
  hash = λ s. s;
  size = λ s. 2;
}

abbrev clock : Clock
clock = record {
  is_idle = λ i. false;
  is_late = λ i. false;
  is_late_after = λ i. false;
  elapsed = λ i. pos 1;
}

abbrev pub blank : Event
blank = record {
  id = "";
  kind = "InboundRequest";
  timestamp = 1;
  sequence = pos 1;
  method = "GET";
  url = "http://shop/orders";
  status = pos 200;
  duration = pos 1;
  headers = [];
  body_size = pos 0;
  trace_id = "";
  body_b64 = "";
  body_sha256 = "";
  body_truncated = false;
  body_redacted = false;
  response_headers = [];
  response_trailers = [];
  response_body_b64 = "{}";
  response_body_sha256 = "";
  response_body_truncated = false;
  response_body_redacted = false;
  response_captured = true;
  grpc_service_method = "";
}

abbrev pub order : Event
order = record blank {
  method = "post";
  timestamp = 2;
  headers = ("Authorization", "Bearer t1" ∷ []) ∷ [];
}

abbrev recorded : List Event
recorded = blank ∷ order ∷ []

abbrev safe_config : ReplayConfig
safe_config = record {
  scale_positive = true;
  density_positive = true;
  max_wall_clock = pos 0;
  max_idle_time = pos 0;
  max_events = pos 0;
  safe_mode = true;
  safe_mode_allow = "/health" ∷ [];
}

abbrev client : ℕ → Request → Option Response
client i req = some (record { status = pos 200; headers = []; body = some "{}" })

replay_events-safe_example :
    All
      (λ r. is_safe safe_config r ≡ true)
      (replay_events tools clock client recorded "http://shop" safe_config []).1.sent
replay_events-safe_example =
    replay_events-safe tools clock client recorded "http://shop" safe_config [] refl

replay_events-IsTrue_example :
    let out = replay_events tools clock client recorded "http://shop" safe_config [] in
    Tells out.0 out.1
replay_events-IsTrue_example =
    replay_events-IsTrue tools clock client recorded "http://shop" safe_config []

abbrev token_reader : TokenReader
token_reader = record { decode_padded = λ s. none; decode_raw = λ s. none; exp_claim = λ s. none }

verify_events-missing_example : ((verify_events reader token_reader recorded).missing_deps ≡ 0) ↔ (
    (i : ℕ) (e : Event)
    → get_elem? recorded i ≡ some e
    → all_produced (produced_by_all reader (take i recorded)) (identify_consumers e) ≡ true)
verify_events-missing_example = verify_events-missing reader token_reader recorded

sent_one :
    length (replay_events tools clock client recorded "http://shop" safe_config []).1.sent ≡ 1
unfolding replay_events folded
sent_one = refl

scored : (verify_events reader token_reader recorded).readiness_score ≡ 90
unfolding verify_events folded
scored = refl
