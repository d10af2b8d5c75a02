-- ===== src/Driver/Replay.antt =====
-- pkg/replaydriver/replay.go: `ReplayEvents`. The waits, the time scale and the chaos delay are left
-- out, so that what the clock says at each request is a parameter, as the target's answers are.
use inferno_sim.Prelude.{
  ℕ, ◌+◌, ◌-◌, ◌*◌, String, Bool, true, false, not, ◌&&◌, Option, none, some, List, [], ◌∷◌, ◌++◌,
  ltb, if◌then◌else◌,
}
use inferno_sim.Prelude.Lists.{length, take, is_empty}
use inferno_sim.Prelude.Int.{pos, pos_part, ltb_ℤ}
use inferno_sim.Prelude.Result.{Result, ok, err, ◌>>=◌, ◌>>◌, reject_if}
use inferno_sim.Prelude.Text.{is_empty_text}
use inferno_sim.Prelude.Dict.{Dict}
use inferno_sim.Matcher.Externals.{Values}
use inferno_sim.EventLog.{Event}
use inferno_sim.Driver.{is_side_effect, safe_mode_allowed}
use inferno_sim.Driver.State.{
  ConsumedValue, substitute, prepare_body, rewrite_headers, update_state, all_consumers,
}
use inferno_sim.Driver.Exchange.{
  Clock, Ending, Error, Progress, ReplayConfig, ReplayResult, Request, Response, Run, Signature,
  Tools, Url, add_values, answered, bad_density, bad_request, bad_scale, bad_target, bad_url,
  body_omitted, failed, finished, going, late_after, late_before, no_requests, read_failed,
  returned, skips_header, stalled, too_large,
}

-- The result of a return in the middle of the loop: some fields stay zero.
abbrev pub early : Run → ℕ → ℕ → Ending → ReplayResult
early run completed total ending = record {
  completed = completed;
  total = total;
  last_progress = run.last_progress;
  signatures = run.signatures;
  error_count = run.error_count;
  skipped = 0;
  replayed = [];
  ending = ending;
}

abbrev pub last_result : Run → ℕ → ReplayResult
last_result run total = record {
  completed = total - run.skipped;
  total = total;
  last_progress = run.last_progress;
  signatures = run.signatures;
  error_count = run.error_count;
  skipped = run.skipped;
  replayed = run.replayed;
  ending = finished;
}

-- 16 MiB
abbrev pub body_limit : ℕ
body_limit = 16 * 1024 * 1024

-- The request goes out.
abbrev pub sending : Request → Run → Run
sending req run = record run { sent = run.sent ++ req ∷ [] }

module _ (tools : Tools) (clock : Clock) (client : ℕ → Request → Option Response)
    (target_base : String) (cfg : ReplayConfig) (total : ℕ) (consumed : List ConsumedValue) where
  unfoldable pub captured_headers : Values → Values → Values
  unfolding skips_header add_values
  captured_headers [] hs = hs
  captured_headers ((k, vs) ∷ rest) hs =
      captured_headers rest
        (if skips_header (tools.canonical k) then hs else add_values (tools.canonical k) vs hs)

  abbrev pub or_error : {A : Type 0} → Error → Option A → Result Error A
  or_error e none = err e
  or_error e (some x) = ok x

  abbrev pub is_absolute : Url → Bool
  is_absolute u = not (is_empty_text u.scheme) && not (is_empty_text u.host)

  abbrev pub is_missing : Option String → Bool
  is_missing none = true
  is_missing (some b) = false

  -- The request that is made of an event: read, aimed at the target, and rewritten.
  unfoldable pub prepare : ℕ → Event → Dict String → Result Error (Url × Request)
  unfolding prepare_body captured_headers rewrite_headers substitute
  prepare i e values = do
    parsed ← or_error bad_url (tools.parse_url e.url)
    let body = prepare_body tools.reader values e
    reject_if
        (is_missing body && (e.body_redacted && (ltb_ℤ (pos 0) e.body_size && not cfg.safe_mode)))
        (body_omitted (i + 1))
    target ← or_error bad_target (tools.parse_url target_base)
    reject_if (not (is_absolute target)) bad_target
    url ← or_error bad_request (
        tools.new_request e.method (record target {
          path = parsed.path;
          raw_path = parsed.raw_path;
          raw_query = parsed.raw_query;
        }))
    ok (
      parsed,
      record {
        method = e.method;
        url = record url {
          path = substitute tools.reader values url.path;
          raw_query = substitute tools.reader values url.raw_query;
        };
        headers = rewrite_headers tools.reader values (captured_headers e.headers []);
        body = body;
      },
    )

  abbrev pub body_size : Option String → ℕ
  body_size none = 0
  body_size (some b) = tools.size b

  abbrev pub encoded_body : Option String → String
  encoded_body none = ""
  encoded_body (some b) = tools.encode b

  abbrev pub hashed_body : Option String → String
  hashed_body none = ""
  hashed_body (some b) = tools.hash b

  abbrev pub replayed_event : ℕ → Event → Request → Response → String → Event
  replayed_event i e req resp body = record {
    id = "";
    kind = "";
    timestamp = e.timestamp;
    sequence = pos 0;
    method = req.method;
    url = tools.print_url req.url;
    status = resp.status;
    duration = clock.elapsed i;
    headers = req.headers;
    body_size = pos (body_size req.body);
    trace_id = "";
    body_b64 = encoded_body req.body;
    body_sha256 = hashed_body req.body;
    body_truncated = false;
    body_redacted = false;
    response_headers = resp.headers;
    response_trailers = [];
    response_body_b64 = tools.encode body;
    response_body_sha256 = tools.hash body;
    response_body_truncated = false;
    response_body_redacted = false;
    response_captured = true;
    grpc_service_method = "";
  }

  abbrev pub has_deadline : Bool
  has_deadline = ltb_ℤ (pos 0) cfg.max_wall_clock

  -- The end of a round that has made progress.
  abbrev pub progress : ℕ → Run → Progress
  progress i run =
      let now = record run { last_progress = i + 1 } in
      if has_deadline && clock.is_late_after i
      then returned (ok (early now (i + 1) total late_after)) now
      else going now

  abbrev pub after_failure : Event → Url → Run → Run
  after_failure e parsed run = record run {
    signatures = run.signatures ++ failed e.method (tools.request_uri parsed) ∷ [];
    error_count = run.error_count + 1;
  }

  abbrev pub signature_of : Event → Url → Response → String → Signature
  signature_of e parsed resp body =
      answered e.method (tools.request_uri parsed) resp.status (tools.hash body)
        (tools.reader.header "Content-Type" resp.headers)
        (tools.reader.header "Location" resp.headers)

  unfoldable pub after_answer : ℕ → Event → Url → Request → Run → Response → String → Run
  unfolding update_state
  after_answer i e parsed req run resp body = record run {
    values = update_state tools.reader consumed e resp.headers body run.values;
    signatures = run.signatures ++ signature_of e parsed resp body ∷ [];
    replayed = run.replayed ++ replayed_event i e req resp body ∷ [];
  }

  -- What becomes of the answer of the target.
  unfoldable pub receive : ℕ → Event → Url → Request → Run → Option Response → Progress
  unfolding after_answer
  receive i e parsed req run none = progress i (after_failure e parsed run)
  receive i e parsed req run (some resp) = elim resp.body [
    | none ↦ returned (err read_failed) run
    | some body ↦
        if ltb body_limit (tools.size body)
        then returned (err too_large) run
        else progress i (after_answer i e parsed req run resp body)
  ]

  -- A request is skipped in safe mode, or sent.
  unfoldable pub send : ℕ → Event → Url → Request → Run → Progress
  unfolding is_side_effect safe_mode_allowed receive
  send i e parsed req run =
      if cfg.safe_mode
        && (is_side_effect req.method && not (safe_mode_allowed req.url.path cfg.safe_mode_allow))
      then going (record run { skipped = run.skipped + 1; last_progress = i + 1 })
      else receive i e parsed req (sending req run) (client i req)

  -- A round of the loop of `ReplayEvents`.
  unfoldable pub replay_one : ℕ → Event → Run → Progress
  unfolding prepare send
  replay_one i e run =
      if ltb_ℤ (pos 0) cfg.max_idle_time && clock.is_idle i
      then returned (ok (early run i total stalled)) run
      else if has_deadline && clock.is_late i
      then returned (ok (early run i total late_before)) run
      else elim (prepare i e run.values) [
        | err x ↦ returned (err x) run
        | ok (parsed, req) ↦ send i e parsed req run
      ]

  unfoldable pub replay_from : ℕ → List Event → Run → Result Error ReplayResult × Run
  unfolding replay_one
  replay_from i [] run = (ok (last_result run total), run)
  replay_from i (e ∷ es) run = elim (replay_one i e run) [
    | returned r now ↦ (r, now)
    | going now ↦ replay_from (i + 1) es now
  ]

abbrev pub first_run : Dict String → Run
first_run values = record {
  values = values;
  signatures = [];
  replayed = [];
  error_count = 0;
  skipped = 0;
  last_progress = 0;
  sent = [];
}

-- `MaxEvents` cuts the events where it is positive.
abbrev pub limited : ReplayConfig → List Event → List Event
limited cfg es =
    if ltb_ℤ (pos 0) cfg.max_events && ltb (pos_part cfg.max_events) (length es)
    then take (pos_part cfg.max_events) es
    else es

-- `ReplayEvents`, with the values that the state adapters load: its result, and the loop's variables
-- at the end, with the requests that have been sent
unfoldable pub replay_events :
    Tools
    → Clock
    → (ℕ → Request → Option Response)
    → List Event
    → String
    → ReplayConfig
    → Dict String
    → Result Error ReplayResult × Run
unfolding replay_from all_consumers
replay_events tools clock client events target_base cfg values =
    let es = limited cfg events in
    if not cfg.scale_positive
    then (err bad_scale, first_run values)
    else if not cfg.density_positive
    then (err bad_density, first_run values)
    else if is_empty es
    then (err no_requests, first_run values)
    else replay_from tools clock client target_base cfg (length es) (all_consumers es) 0 es
        (first_run values)
