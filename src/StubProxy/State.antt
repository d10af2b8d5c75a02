-- ===== src/StubProxy/State.antt =====
-- pkg/stubproxy/stubproxy.go: the events and the state of the proxy, how it is made and how it is reset.
use inferno_sim.Prelude.{
  leb, ℕ, ◌+◌, ◌-◌, ◌/◌, max, String, Bool, true, false, ◌&&◌, Option, none, some, List, [], ◌∷◌,
  ◌++◌, ltb, ◌==◌, if◌then◌else◌,
}
use inferno_sim.Prelude.Lists.{length, any}
use inferno_sim.Prelude.Int.{max_int64, ℤ, pos_part}
use inferno_sim.Prelude.Dict.{Dict, lookup}
use inferno_sim.Prelude.Text.{codes}
use inferno_sim.Matcher.Externals.{Values}
use inferno_sim.Matcher.Rules.{Matcher, Request, Captured}
use inferno_sim.Scenario.{Engine, reset as reset_scenarios}
use inferno_sim.Inject.{Rule}
use inferno_sim.StubProxy.Response.{Reply, Error as BodyError}

-- The fields of `event.Event` that the proxy reads.
pub record Event : Type 0 where
  pub captured : Captured
  pub status : ℕ
  pub response_headers : Values
  pub response_trailers : Values
  pub response_body_b64 : String
  pub grpc_status : String

pub data Divergence : Type 0 where
  too_many : ℕ → Divergence
  no_captured_call : ℕ → Request → Divergence

pub record Proxy : Type 0 where
  pub events : List Event
  pub i : ℕ
  pub seen : ℕ
  pub max_seen : ℕ
  pub rules : List Rule
  pub attempts : Dict ℕ
  pub divergences : List Divergence
  pub unexpected : Bool
  pub cycle_expected : Bool
  pub match_multiplier : ℕ
  pub matcher : Matcher
  pub use_counts : ℕ → ℕ
  pub scenarios : Engine
  pub tls_hosts : Option (String → Bool)

-- The message of a plain error response.
pub data Failure : Type 0 where
  no_https host_not_allowed bad_body too_large unexpected_call no_capture : Failure
  injected_timeout injected_retry captured_error captured_body : Failure
  bad_scenario : BodyError → Failure

pub data Outcome : Type 0 where
  failed : ℕ → Failure → Outcome
  replied : Reply → Outcome
  tunnel : String → Outcome

-- `NewWithOptions`, with the events, the matcher and the scenarios that it has read
unfoldable pub new : List Event → List Rule → Matcher → Engine → Option (String → Bool) → Proxy
new events rules matcher scenarios tls_hosts = record {
  events = events;
  i = 0;
  seen = 0;
  max_seen = 0;
  rules = rules;
  attempts = [];
  divergences = [];
  unexpected = false;
  cycle_expected = false;
  match_multiplier = 1;
  matcher = matcher;
  use_counts = λ _. 0;
  scenarios = scenarios;
  tls_hosts = tls_hosts;
}

-- `Reset`
unfoldable pub reset : Proxy → Proxy
reset p = record p {
  i = 0;
  seen = 0;
  max_seen = 0;
  attempts = [];
  divergences = [];
  unexpected = false;
  use_counts = λ _. 0;
  scenarios = reset_scenarios p.scenarios;
}

-- A sum that an int64 does not hold wraps to a negative one, and its quotient is below one.
abbrev pub multiplier_for : Bool → ℕ → ℕ → ℕ
multiplier_for cycle maximum n =
    if cycle && ltb 0 n && leb (maximum + n - 1) max_int64 then max ((maximum + n - 1) / n) 1 else 1

-- `ConfigureReplayCardinality`
unfoldable pub configure_replay_cardinality : Bool → ℤ → Proxy → Proxy
configure_replay_cardinality cycle max_observed p = record p {
  cycle_expected = cycle;
  max_seen = pos_part max_observed;
  match_multiplier = multiplier_for cycle (pos_part max_observed) (length p.events);
}

abbrev pub has_colon : String → Bool
has_colon s = any (λ c. c == b':') (codes s)

abbrev pub bump : (ℕ → ℕ) → ℕ → ℕ → ℕ
bump uses k n = if n == k then uses n + 1 else uses n

abbrev pub diverge : Proxy → Divergence → Proxy
diverge p d = record p { divergences = p.divergences ++ (d ∷ []); unexpected = true }

abbrev pub count_of : String → Dict ℕ → ℕ
count_of k m = elim (lookup k m) [ none ↦ 0 | some n ↦ n ]
