-- ===== src/Scenario.antt =====
-- pkg/scenario/scenario.go: scenarios that answer requests by state. The engine's map from a
-- scenario's name to its state is an association list. The tests of base64 texts, durations and
-- templates, which stand in Go's packages and pkg/simtemplate, are a parameter.
use inferno_sim.Prelude.{
  subst, ℕ, zero, suc, ◌+◌, ◌-◌, ◌*◌, ◌/◌, ◌%◌, ◌^◌, ◌≤◌, ◌<◌, min, max, String, ◌≡◌, refl, sym, ap,
  ◌∙◌, ◌≢◌, ◌↔◌, ◌⊎◌, inl, inr, Bool, true, false, not, ◌&&◌, ◌||◌, Option, none, some, List, [],
  ◌∷◌, ◌++◌, map, reverse, arith, str_eq, eq_iff, eq_refl, ltb, leb, ◌==◌, if◌then◌else◌, ltb→lt,
  lt→ltb, leb→le, ==_iff, Bool-cases, Option-cases,
}
use inferno_sim.Prelude.Lists.{
  length, get_elem?, set, take, drop, any, is_empty, count_if, length-append, take-append-drop,
  length-take, length-drop, take_all, drop_all, All, All-append, All-get_elem?, length-map,
  All_mono,
}
use inferno_sim.Prelude.Int.{ℤ, pos, negsuc, pos_part, neg_part, ltb_ℤ, ◌≤ℤ◌}
use inferno_sim.Prelude.Result.{
  Result, ok, err, ◌>>=◌, ◌>>◌, reject_if, >>=-eq-ok, reject_if-ok, guarded-ok, Result-cases,
}
use inferno_sim.Prelude.Text.{
  equal_fold, trim_space, is_blank, is_empty_text, equal_fold_refl, equal_fold_sym,
  equal_fold_trans, equal_fold_congr, str_eq-true, str_eq-false,
}
use inferno_sim.Prelude.Dict.{Dict, lookup, put, lookup-put, has_key, member}
pub mod States
pub mod Soundness
pub mod Validity
pub mod Resetting
use inferno_sim.Matcher.Externals.{Library, Values, Registry}
use inferno_sim.Matcher.{match_one}
use inferno_sim.Matcher.Compilation.{new as compile_matcher}
use inferno_sim.Matcher.Rules.{Rule, Config as MatchConfig, ConfigError, Matcher, Request, Reason}

pub record Response : Type 0 where
  pub status : ℤ
  pub headers : Values
  pub trailers : Values
  pub grpc_status : String
  pub body : String
  pub body_b64 : String
  pub body_template : String
  pub protobuf_type : String
  pub protobuf_json : String
  pub protobuf_stream : List String
  pub stream_message_delay : String

pub record Step : Type 0 where
  pub name : String
  pub state : String
  pub rule : Rule
  pub next_state : String
  pub response : Response

pub record Config : Type 0 where
  pub name : String
  pub initial_state : String
  pub steps : List Step

-- The name of the scenario that answers, the step's, and its response.
pub record Answer : Type 0 where
  pub scenario : String
  pub step : String
  pub response : Response

pub record Engine : Type 0 where
  pub configs : List Config
  pub states : Dict String
  pub compiled : List (List Matcher)

pub data Error : Type 0 where
  no_name no_initial_state no_state bad_status many_bodies bad_base64 bad_delay bad_template : Error
  duplicate_name unknown_next_state : String → Error
  bad_rule : ConfigError → Error

pub record Formats : Type 0 where
  pub base64 : String → Bool
  pub delay : String → Bool
  pub template : String → Bool

abbrev pub count_true : List Bool → ℕ
count_true [] = 0
count_true (b ∷ bs) = (if b then 1 else 0) + count_true bs

-- How many forms of a body the response configures.
abbrev pub response_forms : Response → ℕ
response_forms r = count_true (
    not (is_empty_text r.body)
    ∷ not (is_empty_text r.body_b64)
    ∷ not (is_empty_text r.body_template)
    ∷ not (is_empty_text r.protobuf_json)
    ∷ not (is_empty r.protobuf_stream)
    ∷ [])

abbrev pub all_true : (String → Bool) → List String → Bool
all_true p [] = true
all_true p (s ∷ ss) = p s && all_true p ss

unfoldable pub all_values : (String → Bool) → Values → Bool
all_values p [] = true
all_values p ((name, values) ∷ headers) = all_true p values && all_values p headers

-- `validateResponseTemplates`
unfoldable pub templates_ok : Formats → Response → Bool
unfolding all_values
templates_ok fmt r =
    fmt.template r.body_template
    && all_values fmt.template r.headers
    && all_values fmt.template r.trailers
    && fmt.template r.protobuf_json
    && all_true fmt.template r.protobuf_stream

module _ (lib : Library) (fmt : Formats) (matching : MatchConfig) (registry : Option Registry) where
  -- `CompileRuleWithRegistry`
  unfoldable pub compile_step : Rule → Result Error Matcher
  compile_step rule = elim (compile_matcher lib (record matching { rules = rule ∷ [] }) registry) [
    | err e ↦ err (bad_rule e)
    | ok m ↦ ok m
  ]

  -- A round of the loop over the steps of a scenario.
  unfoldable pub check_step : Step → Result Error Matcher
  unfolding templates_ok compile_step
  check_step s = do
    reject_if (is_empty_text s.state) no_state
    reject_if (ltb_ℤ s.response.status (pos 100) || ltb_ℤ (pos 599) s.response.status) bad_status
    reject_if (ltb 1 (response_forms s.response)) many_bodies
    reject_if (not (is_empty_text s.response.body_b64) && not (fmt.base64 s.response.body_b64))
        bad_base64
    reject_if
        (not (is_empty_text s.response.stream_message_delay)
          && not (fmt.delay s.response.stream_message_delay))
        bad_delay
    reject_if (not (templates_ok fmt s.response)) bad_template
    compile_step s.rule

  unfoldable pub check_steps : List Step → Result Error (List Matcher)
  unfolding check_step
  check_steps [] = ok []
  check_steps (s ∷ ss) = do m ← check_step s; ms ← check_steps ss; ok (m ∷ ms)

abbrev pub step_states : List Step → List String
step_states [] = []
step_states (s ∷ ss) = s.state ∷ step_states ss

-- The second loop over the steps: each `next_state` must be a state.
unfoldable pub check_next : List String → List Step → Result Error (Unit {0})
check_next states [] = ok tt
check_next states (s ∷ ss) = do
  reject_if (not (is_empty_text s.next_state) && not (member s.next_state states))
      (unknown_next_state s.next_state)
  check_next states ss

abbrev pub declared : Config → List String
declared cfg = cfg.initial_state ∷ step_states cfg.steps

module _ (lib : Library) (fmt : Formats) (matching : MatchConfig) (registry : Option Registry) where
  -- The loop of `NewWithRegistry` over the scenarios, with the names seen.
  unfoldable pub check_configs :
      List String → Dict String → List Config → Result Error (Dict String × List (List Matcher))
  unfolding check_steps check_next
  check_configs names states [] = ok (states, [])
  check_configs names states (cfg ∷ cfgs) = do
    reject_if (is_blank cfg.name) no_name
    reject_if (member cfg.name names) (duplicate_name cfg.name)
    reject_if (is_empty_text cfg.initial_state) no_initial_state
    matchers ← check_steps lib fmt matching registry cfg.steps
    check_next (declared cfg) cfg.steps
    rest ← check_configs (cfg.name ∷ names) (put cfg.name cfg.initial_state states) cfgs
    ok (rest.0, matchers ∷ rest.1)

  -- `NewWithRegistry`
  unfoldable pub new_engine : List Config → Result Error Engine
  unfolding check_configs
  new_engine configs = do
    checked ← check_configs [] [] configs
    ok (record { configs = configs; states = checked.0; compiled = checked.1 })

unfoldable pub reset_states : Dict String → List Config → Dict String
reset_states states [] = states
reset_states states (cfg ∷ cfgs) = reset_states (put cfg.name cfg.initial_state states) cfgs

-- `Reset`
unfoldable pub reset : Engine → Engine
unfolding reset_states
reset e = record e { states = reset_states e.states e.configs }

abbrev pub or_empty : Option String → String
or_empty none = ""
or_empty (some s) = s

-- `e.states[name]`
unfoldable pub state_of : Dict String → String → String
state_of states name = or_empty (lookup name states)

abbrev pub advance : Dict String → Config → Step → Dict String
advance states cfg s =
    if is_empty_text s.next_state then states else put cfg.name s.next_state states

abbrev pub answer_of : Config → Step → Answer
answer_of cfg s = record { scenario = cfg.name; step = s.name; response = s.response }

module _ (lib : Library) where
  abbrev pub rule_matches : Matcher → Request → String → Bool
  rule_matches m req body = elim (match_one lib m req body) [ ok _ ↦ true | err _ ↦ false ]

  -- The inner loop of `Match`: the first step of the current state whose rule matches.
  unfoldable pub find_step : String → List Step → List Matcher → Request → String → Option Step
  find_step current [] ms req body = none
  find_step current (s ∷ ss) [] req body = none
  find_step current (s ∷ ss) (m ∷ ms) req body =
      if str_eq s.state current && rule_matches m req body
      then some s
      else find_step current ss ms req body

  -- The outer loop of `Match`, with the states after it.
  unfoldable pub match_configs :
      Dict String
      → List Config
      → List (List Matcher)
      → Request
      → String
      → Option (Answer × Dict String)
  unfolding find_step state_of
  match_configs states [] mss req body = none
  match_configs states (cfg ∷ cfgs) [] req body = none
  match_configs states (cfg ∷ cfgs) (ms ∷ mss) req body =
      let later = match_configs states cfgs mss req body in
      elim (find_step (state_of states cfg.name) cfg.steps ms req body) [
        | none ↦ later
        | some s ↦ some (answer_of cfg s, advance states cfg s)
      ]

  -- `Match`: the new engine, and the answer if a step matches
  unfoldable pub match : Engine → Request → String → Engine × Option Answer
  unfolding match_configs
  match e req body = elim (match_configs e.states e.configs e.compiled req body) [
    | none ↦ (e, none)
    | some (answer, states) ↦ (record e { states = states }, some answer)
  ]
