-- ===== src/Tests/Linting.antt =====
-- Runs of the linter on a concrete scenario.
use inferno_sim.Prelude.{ℕ, suc, ◌+◌, String, ◌≡◌, refl, ◌↔◌, true, false, some, List, [], ◌∷◌}
use inferno_sim.Prelude.Lists.{length, get_elem?, any}
use inferno_sim.Prelude.Text.{folded, equal_fold}
use inferno_sim.Prelude.Dict.{lookup, put, member}
use inferno_sim.Matcher.{match_one, selects, check_json_fields, check_protobuf_fields}
use inferno_sim.Matcher.Rules.{Request}
use inferno_sim.Scenario.{Step, Config, answer_of, match, reset}
use inferno_sim.Lint.{Diagnostic, sweep, grow, reachable_states, check_reachable, lint_rules}
use inferno_sim.Lint.Reachability.{Reaches, reachable_states_iff}
use inferno_sim.Lint.Passes.{reachable_states_end}
use inferno_sim.Lint.Running.{match_all, answer-reachable}
use inferno_sim.Lint.Selectors.{is_global, lint_rules-global}
use inferno_sim.Tests.{plain_library, plain_engine, plain_scenario, last_step, get_order}
use inferno_sim.Tests.Calls.{plain_engine-IsSound}

reachable_states_end_example :
    (sweep plain_scenario.steps (reachable_states plain_scenario) false
      ≡ (reachable_states plain_scenario, false))
    × (grow
          (suc (length plain_scenario.steps) + 5)
          plain_scenario.steps
          (plain_scenario.initial_state ∷ [])
        ≡ reachable_states plain_scenario)
reachable_states_end_example = reachable_states_end plain_scenario 5

reachable_states_iff_example :
    (member "lost" (reachable_states plain_scenario) ≡ true) ↔ Reaches plain_scenario "lost"
reachable_states_iff_example = reachable_states_iff plain_scenario "lost"

abbrev before : List (Request × String)
before = (get_order, "") ∷ []

answered_last :
    (match plain_library (match_all plain_library (reset plain_engine) before) get_order "").1
    ≡ some (answer_of plain_scenario last_step)
unfolding match match_all reset match_one selects equal_fold folded lookup check_json_fields
    check_protobuf_fields put
answered_last = refl

answer-reachable_example :
    (i : ℕ) × (cfg : Config) × (j : ℕ) × (s : Step) × (get_elem? plain_engine.configs i ≡ some cfg)
    × (get_elem? cfg.steps j ≡ some s)
    × (answer_of plain_scenario last_step ≡ answer_of cfg s)
    × ((at : String) → check_reachable cfg (reachable_states cfg) s at ≡ [])
answer-reachable_example =
    answer-reachable plain_library plain_engine before get_order ""
      (answer_of plain_scenario last_step) plain_engine-IsSound answered_last

lint_rules-global_example :
    any
      (λ (d : Diagnostic). is_global d.code)
      (lint_rules (λ n. "0") (("any", last_step.rule) ∷ []) 0 [])
    ≡ false
lint_rules-global_example = lint_rules-global (λ n. "0") (("any", last_step.rule) ∷ []) 0 []
