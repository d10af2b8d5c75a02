-- ===== src/Workflow/Observed.antt =====
-- pkg/workflow/workflow.go, `loadObserved`: the observations of an incident. A log is the list of its
-- decoded events, and the records are those of the message log. The path of a URL is read by a
-- parameter, where the source stops with a panic on a URL that does not parse; the number in a location
-- is printed by a parameter.
use inferno_sim.Prelude.{
  ℕ, ◌+◌, String, Bool, true, false, not, ◌&&◌, ◌||◌, Option, none, some, List, [], ◌∷◌, ◌++◌,
  str_eq, ltb, ◌==◌, if◌then◌else◌,
}
use inferno_sim.Prelude.Int.{ltb_ℤ}
use inferno_sim.Prelude.Result.{Result, ok, err, ◌>>=◌}
use inferno_sim.Prelude.Text.{folded, equal_fold, is_empty_text}
use Prim.Native.Nat.{Ordering}
use Prim.Native.String
use Prim.Native.String.{compare}
use inferno_sim.Prelude.Sort.{sort_stable}
use inferno_sim.EventLog.{Event}
use inferno_sim.Message.{Record}
use inferno_sim.Matcher.Externals.{Values}
use inferno_sim.Workflow.{Observation}

pub data LoadError : Type 0 where
  no_inbound_log not_decoded url_panic : LoadError

pub record Sources : Type 0 where
  pub path_of : String → Option String
  pub print : ℕ → String

-- `firstHeader`
unfoldable pub first_header : Values → String → String
unfolding equal_fold
first_header [] wanted = ""
first_header ((name, []) ∷ rest) wanted = first_header rest wanted
first_header ((name, v ∷ vs) ∷ rest) wanted =
    let later = first_header rest wanted in if equal_fold name wanted then v else later

unfoldable pub first_named : Values → List String → String
unfolding first_header
first_named headers [] = ""
first_named headers (name ∷ names) =
    let later = first_named headers names in
    if is_empty_text (first_header headers name) then later else first_header headers name

-- `eventCorrelation`
unfoldable pub event_correlation : Event → String
unfolding first_named
event_correlation e =
    if is_empty_text e.trace_id
    then first_named e.headers
        ("X-Correlation-Id" ∷ "Correlation-Id" ∷ "X-Request-Id" ∷ "Traceparent" ∷ [])
    else e.trace_id

abbrev pub code_prefix : List ℕ → List ℕ → Bool
code_prefix s [] = true
code_prefix [] (c ∷ prefix) = false
code_prefix (d ∷ s) (c ∷ prefix) = d == c && code_prefix s prefix

-- The content type is gRPC's, but for case.
unfoldable pub is_grpc : Event → Bool
unfolding first_header folded
is_grpc e = code_prefix (folded (first_header e.headers "Content-Type")) (folded "application/grpc")

module _ (sources : Sources) where
  unfoldable pub observe_event : String → String → ℕ → Event → String → Observation
  unfolding event_correlation is_grpc
  observe_event name direction index e path =
      let grpc =
        if is_empty_text e.grpc_service_method && is_grpc e then path else e.grpc_service_method in
      record {
        protocol = if is_empty_text grpc then "http" else "grpc";
        direction = direction;
        method = e.method;
        path = path;
        grpc_method = grpc;
        topic = "";
        correlation = event_correlation e;
        timestamp = e.timestamp;
        sequence = e.sequence;
        location = String.◌++◌ name (String.◌++◌ "#event-" (sources.print index));
      }

  -- The loop over a log, with the index of the event before.
  unfoldable pub observe_log :
      String → String → ℕ → List (Option Event) → Result LoadError (List Observation)
  unfolding observe_event
  observe_log name direction n [] = ok []
  observe_log name direction n (none ∷ es) = err not_decoded
  observe_log name direction n (some e ∷ es) =
      let rest = observe_log name direction (n + 1) es in
      if str_eq e.kind "InboundRequest" || str_eq e.kind "OutboundCall"
      then elim (sources.path_of e.url) [
        | none ↦ err url_panic
        | some path ↦ rest >>= λ os. ok (observe_event name direction (n + 1) e path ∷ os)
      ]
      else rest

  unfoldable pub observe_records : ℕ → List Record → List Observation
  observe_records n [] = []
  observe_records n (r ∷ rs) =
      record {
        protocol = "kafka";
        direction = if str_eq r.direction "consume" then "inbound" else "outbound";
        method = "";
        path = "";
        grpc_method = "";
        topic = r.topic;
        correlation = r.correlation_id;
        timestamp = r.timestamp;
        sequence = r.sequence;
        location = String.◌++◌ "messages.log#message-" (sources.print (n + 1));
      }
      ∷ observe_records (n + 1) rs

  abbrev pub text_less : String → String → Bool
  text_less s t = elim (compare s t) [ Ordering.lt ↦ true | _ ↦ false ]

  unfoldable pub observation_less : Observation → Observation → Bool
  observation_less a b =
      if not (a.timestamp == b.timestamp)
      then ltb a.timestamp b.timestamp
      else if ltb_ℤ a.sequence b.sequence
      then true
      else if ltb_ℤ b.sequence a.sequence
      then false
      else text_less a.location b.location

  abbrev pub or_nothing : Option (List (Option Event)) → List (Option Event)
  or_nothing none = []
  or_nothing (some es) = es

  -- `loadObserved`: the inbound log must be there, the outbound log may be missing.
  unfoldable pub load_observed :
      Option (List (Option Event))
      → Option (List (Option Event))
      → List Record
      → Result LoadError (List Observation)
  unfolding observe_log observe_records observation_less sort_stable
  load_observed none outbound records = err no_inbound_log
  load_observed (some inbound) outbound records = do
    a ← observe_log "inbound.log" "inbound" 0 inbound
    b ← observe_log "outbound.log" "outbound" 0 (or_nothing outbound)
    ok (sort_stable observation_less (a ++ b ++ observe_records 0 records))
