-- ===== src/Lib.antt =====
-- InfernoSIM records the calls of a service and replays them with faults. This library models the
-- parts of it that decide: what a message log holds, what a Kafka replay plans and sends, when a
-- request matches a captured call, how scenarios answer by state, what the stub proxy does with an
-- outbound call, what a privacy policy leaves of it, whether an incident shows a workflow, what the
-- linter says of a scenario, and what a replay of captured requests sends and counts.
--
-- The parts:
--   pkg/message/message.go: Message. Records are read (`load`) and written (`write`) through a logger
--     that numbers them. A file is the list of its entries, each decoded or not. Message/Reading,
--     Message/Writing, Message/Numbers and Message/Distinct have the proofs. A line that the disk takes
--     in part leaves an entry that is not decoded, and the logger takes nothing more.
--   pkg/kafkasim/kafka.go: Kafka (`Plan`: `plan`, with the in-place swaps of the reorder window) and
--     Kafka/Replay (`Replay`: `replay`, with the messages sent in its result). It loads by Message.
--   pkg/matcher/matcher.go: Json (JSON values and paths), Matcher (`Match` and `RuleMatcher.Match`),
--     with Matcher/Rules, Matcher/Comparing and Matcher/Compilation (`New`), and Matcher/Externals (the
--     parameters). Matcher/Hosts and Matcher/Queries have what the comparisons of hosts and queries
--     come down to.
--   pkg/scenario/scenario.go: Scenario. `new_engine` checks the configuration and compiles each step's
--     rule by Matcher; `match` answers and moves on; `reset` goes back.
--   pkg/inject/inject.go: Inject (`ParseRules`: `parse_rules`, `Match`: `match`).
--   pkg/stubproxy/stubproxy.go: StubProxy (`ServeHTTP`: `serve`, `handleTransparent`:
--     `serve_transparent`, whose connections interleave as StubProxy/Transparent says), StubProxy/State (the counters, the use counts and the attempts, `Reset`) and
--     StubProxy/Response (headers, trailers and bodies, with RenderHeader of
--     pkg/simtemplate/template.go). It asks Scenario first, then the captured events by Matcher, and
--     then applies the faults of Inject.
--   pkg/privacy/policy.go: Privacy. `load` checks a policy; `apply_message`, `apply_headers`,
--     `apply_query` and `apply_body` sanitize what is captured.
--   pkg/workflow/workflow.go: Workflow. `validate_configs` checks the workflows, `verify_steps` looks
--     for the steps of one among the observations of an incident, which Workflow/Observed loads.
--   pkg/simlint/lint.go: Lint. `lint` reports on a replay configuration; Lint/Reachability has the loop
--     over the states of a scenario, and Lint/Running sets it against the engine of Scenario.
--   pkg/event: EventLog (`Event`, `SanitizeTraceID`, and the logger of pkg/event/log.go).
--   pkg/replaydriver: Driver (`LoadInboundEvents`), Driver/State (the values that a request takes over
--     from earlier responses: dependency.go and state.go), Driver/Replay (`ReplayEvents`: a round is
--     `replay_one`, and `Run` holds the loop's variables with the requests sent) and
--     Driver/Verification (`VerifyIncident` of verify.go). Driver/Rounds has the induction on the loop.
--   pkg/replay/replay.go: Replayer (`NewReplayer`: `new_replayer`, `Replay`: `replay`, with the requests
--     sent).
-- Prelude and its modules hold Boolean tests, lists, integers, results, the stable sort, texts and
-- maps. Tests and its modules hold concrete data and a run of each result.
--
-- Parameters: base64, SHA-256 and JSON texts (Codec), regular expressions, URLs, header names and
-- JSON (Matcher/Externals), durations and numbers (Inject), the checks of formats (Scenario),
-- template execution and Protobuf (StubProxy/Response), HMAC and JSON texts (Privacy), regular
-- expressions and durations (Workflow), the printing of numbers (Lint), and the clock, the target and
-- the readers of cookies, JSON bodies and tokens (Driver). Of these only the base64 round trip is
-- relied on.
--
-- Bounds and fuel: the swap loop of the reorder window gets as many rounds as the window is long, and
-- the loop over windows as many as there are records; each round makes the rest shorter. The path
-- parser gets one round more than the path has characters, and every round takes one. The loop over
-- the states of a scenario gets one pass more than the scenario has steps. The
-- sequence numbers of the two loggers are int64 with their wrap-around, since a file may start them
-- anywhere; `ConfigureReplayCardinality` tests for the wrap of its sum. The other counters start at zero
-- and are natural numbers: they do not wrap in a run of less than 2^63 calls.
--
-- Texts are ASCII where they are folded. Maps with texts as keys are association lists, with the
-- order of Go's random iteration fixed; the maps of use counts are functions.
--
-- Not modelled: files, sockets, TLS, waits and printing; Capture and the client options of Kafka;
-- the random faults of ParseConfig and Evaluate; the log of observed calls; the time
-- scale, the waits and the fingerprint of the replay driver, its comparison and inspection of events;
-- and the other packages.
pub mod Prelude
pub mod Codec
pub mod Message
pub mod Kafka
pub mod Json
pub mod Matcher
pub mod Scenario
pub mod Inject
pub mod StubProxy
pub mod Privacy
pub mod Workflow
pub mod Lint
pub mod EventLog
pub mod Driver
pub mod Replayer
pub mod Tests
