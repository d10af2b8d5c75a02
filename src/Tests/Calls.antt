-- ===== src/Tests/Calls.antt =====
-- Runs of the JSON paths, the matcher, the scenario engine, the fault rules and the stub proxy on
-- concrete requests.
use inferno_sim.Prelude.{
  ℕ, ◌+◌, ◌-◌, ◌*◌, ◌≤◌, ◌<◌, String, ◌≡◌, refl, ◌≢◌, ◌↔◌, inl, inr, true, false, ◌||◌, none, some,
  List, [], ◌∷◌, arith,
}
use inferno_sim.Prelude.Lists.{length, get_elem?, take, any, count_if, All}
use inferno_sim.Prelude.Int.{pos}
use inferno_sim.Prelude.Result.{ok}
use inferno_sim.Prelude.Text.{equal_fold, trim_space}
use inferno_sim.Prelude.Dict.{lookup, put, member}
use inferno_sim.Json.{Json, num, obj, arr, nil, cons, field, end}
use inferno_sim.Matcher.{
  selects, rule_for, check_json_fields, check_protobuf_fields, match as match_captured, match_one,
}
use inferno_sim.Matcher.Compilation.{new as compile_matcher}
use inferno_sim.Prelude.Text.{folded}
use inferno_sim.Prelude.Sort.{sort_stable}
use inferno_sim.Matcher.Legacy.{match-IsExact_iff, IsExact}
use inferno_sim.Matcher.Selection.{rule_for-first, Selects, match_one_sound, HasMatched}
use inferno_sim.Scenario.{
  new_engine, check_configs, check_steps, check_step, compile_step, state_of, reset, answer_of,
  match as match_scenarios,
}
use inferno_sim.Scenario.Soundness.{IsSound, match-IsSound, reset_lem}
use inferno_sim.Scenario.Validity.{new_engine-IsSound, Answerable}
use inferno_sim.Scenario.Resetting.{HasStates, reset-match}
use inferno_sim.Inject.{Rule as FaultRule, Formats as FaultFormats, parse_rules}
use inferno_sim.Inject.Parsing.{parse_rules-ok, IsWithin as IsWithinBounds}
use inferno_sim.StubProxy.{match_expected, serve_all}
use inferno_sim.StubProxy.State.{Proxy}
use inferno_sim.StubProxy.{serve_transparent}
use inferno_sim.StubProxy.Transparent.{
  Steps, Counted, Steps-Counted, done, next, read_index, answer,
}
use inferno_sim.StubProxy.State.{configure_replay_cardinality, bump, reset as reset_proxy}
use inferno_sim.StubProxy.Cardinality.{
  configure-suffices, serve_all_counts, serve_all-limit, is_counted, is_refused,
}
use inferno_sim.StubProxy.Matching.{match_expected-first, IsExpected}
use inferno_sim.StubProxy.Resetting.{IsWithin, serve_all-reset, serve_all-IsWithin}
use inferno_sim.Tests.{
  plain_library, legacy_matcher, rule_matcher, compiled_rule, no_matching, get_order, nonce_order,
  captured_order, plain_step, plain_scenario, plain_formats, plain_engine, plain_backend,
  plain_proxy, order_event, orders,
}

abbrev document : Json
document = obj (field "id" (num "7") (field "lines" (arr (cons (num "1") nil)) end))

match-IsExact_iff_example :
    (match_captured plain_library legacy_matcher captured_order get_order "" ≡ ok tt)
    ↔ IsExact plain_library no_matching captured_order get_order
match-IsExact_iff_example =
    match-IsExact_iff plain_library legacy_matcher refl captured_order get_order ""

rule_for-first_example :
    (i : ℕ) × (get_elem? (compiled_rule ∷ []) i ≡ some compiled_rule)
    × Selects plain_library "GET" "shop" "/orders" compiled_rule
    × All (λ c. Selects plain_library "GET" "shop" "/orders" c → ⊥) (take i (compiled_rule ∷ []))
unfolding rule_for selects equal_fold folded
rule_for-first_example =
    rule_for-first plain_library (compiled_rule ∷ []) "GET" "shop" "/orders" compiled_rule refl

one_matches : match_one plain_library rule_matcher get_order "" ≡ ok tt
unfolding match_one selects equal_fold folded lookup check_json_fields check_protobuf_fields
one_matches = refl

match_one_sound_example : HasMatched plain_library rule_matcher get_order ""
match_one_sound_example = match_one_sound plain_library rule_matcher get_order "" one_matches

pub plain_engine-IsSound : IsSound plain_engine
unfolding member state_of lookup
plain_engine-IsSound = record {
  distinct = (tt, tt);
  steps = ((inr refl, (inl refl, tt)), tt);
  standing = (refl, tt);
}

match-IsSound_example : IsSound (match_scenarios plain_library plain_engine get_order "").0
match-IsSound_example = match-IsSound plain_library plain_engine get_order "" plain_engine-IsSound

reset_lem_example :
    IsSound (reset plain_engine)
    × All
        (λ cfg. state_of (reset plain_engine).states cfg.name ≡ cfg.initial_state)
        (plain_scenario ∷ [])
reset_lem_example = reset_lem plain_engine plain_engine-IsSound

answered :
    (match_scenarios plain_library plain_engine get_order "").1
    ≡ some (answer_of plain_scenario plain_step)
unfolding match_scenarios match_one selects equal_fold folded lookup check_json_fields
    check_protobuf_fields
answered = refl

built :
    new_engine plain_library plain_formats no_matching none (plain_scenario ∷ []) ≡ ok plain_engine
unfolding new_engine check_configs check_steps check_step compile_step trim_space member
    compile_matcher put
built = refl

new_engine-IsSound_example :
    IsSound plain_engine
    × (plain_engine.configs ≡ plain_scenario ∷ [])
    × All (λ cfg. state_of plain_engine.states cfg.name ≡ cfg.initial_state) (plain_scenario ∷ [])
    × All (λ cfg. All Answerable cfg.steps) (plain_scenario ∷ [])
new_engine-IsSound_example =
    new_engine-IsSound plain_library plain_formats no_matching none (plain_scenario ∷ [])
      plain_engine built

plain_engine-HasStates : HasStates plain_engine.states plain_engine.configs
unfolding lookup
plain_engine-HasStates = (refl, tt)

reset-match_example :
    let after = (match_scenarios plain_library plain_engine get_order "").0 in
    (reset after ≡ reset plain_engine) × HasStates after.states after.configs
reset-match_example = reset-match plain_library plain_engine get_order "" plain_engine-HasStates

abbrev fault_formats : FaultFormats
fault_formats = record { parse_duration = λ s. some (pos 200); atoi = λ s. some (pos 2) }

abbrev fault_rule : FaultRule
fault_rule = record { dep = "redis"; add_latency = pos 200; timeout = pos 0; retry_limit = pos 2 }

abbrev flags : List String
flags = "dep=redis latency=+200ms retries=2" ∷ []

parsed : parse_rules fault_formats flags ≡ ok (fault_rule ∷ [])
unfolding parse_rules
parsed = refl

parse_rules-ok_example :
    (length (fault_rule ∷ []) ≡ length flags)
    × All (λ (r : FaultRule). r.dep ≢ "") (fault_rule ∷ [])
    × All IsWithinBounds (fault_rule ∷ [])
parse_rules-ok_example = parse_rules-ok fault_formats flags (fault_rule ∷ []) parsed

plain_proxy-IsWithin : IsWithin plain_proxy
plain_proxy-IsWithin n = omega arith

configure-suffices_example :
    let q = configure_replay_cardinality true (pos 3) plain_proxy in
    (3 ≤ length q.events * q.match_multiplier) × (length q.events * (q.match_multiplier - 1) < 3)
configure-suffices_example =
    configure-suffices plain_proxy 3 (omega arith) (omega arith) (omega arith)

serve_all_counts_example :
    let r = serve_all plain_library plain_backend plain_proxy orders in
    (r.0.seen ≡ 0 + count_if is_counted orders)
    × (length r.0.divergences ≡ 0 + count_if is_refused r.1)
    × (r.0.unexpected ≡ (false || any is_refused r.1))
serve_all_counts_example = serve_all_counts plain_library plain_backend plain_proxy orders

serve_all-limit_example :
    count_if is_counted orders
    ≤ 2 + count_if is_refused (serve_all plain_library plain_backend plain_proxy orders).1
serve_all-limit_example =
    serve_all-limit plain_library plain_backend plain_proxy orders refl (omega arith)

expected :
    match_expected plain_library plain_proxy nonce_order ""
    ≡ some (order_event, record plain_proxy { use_counts = bump plain_proxy.use_counts 0 })
unfolding match_expected match_captured equal_fold sort_stable put member
expected = refl

match_expected-first_example :
    IsExpected plain_library plain_proxy nonce_order "" order_event
      (record plain_proxy { use_counts = bump plain_proxy.use_counts 0 })
match_expected-first_example =
    match_expected-first plain_library plain_proxy nonce_order "" order_event
      (record plain_proxy { use_counts = bump plain_proxy.use_counts 0 }) expected

serve_all-IsWithin_example : IsWithin (serve_all plain_library plain_backend plain_proxy orders).0
serve_all-IsWithin_example =
    serve_all-IsWithin plain_library plain_backend plain_proxy orders plain_engine-HasStates
      plain_proxy-IsWithin

serve_all-reset_example :
    (reset_proxy (serve_all plain_library plain_backend plain_proxy orders).0
      ≡ reset_proxy plain_proxy)
    × ((serve_all plain_library plain_backend
          (reset_proxy (serve_all plain_library plain_backend plain_proxy orders).0)
          orders).1
        ≡ (serve_all plain_library plain_backend (reset_proxy plain_proxy) orders).1)
serve_all-reset_example =
    serve_all-reset plain_library plain_backend plain_proxy orders orders plain_engine-HasStates
      plain_proxy-IsWithin

-- Two connections read the same index before either is answered.
abbrev after_one : Proxy
after_one = (serve_transparent plain_library plain_proxy 0 (some "shop") "").0

abbrev after_two : Proxy
after_two = (serve_transparent plain_library after_one 0 (some "") "10.0.0.1:80").0

racing :
    Steps plain_library
      (record { proxy = plain_proxy; loaded = [] })
      2
      (record { proxy = after_two; loaded = [] })
racing = next _ _ _ 0 2 (read_index _) (
    next _ _ _ 0 2 (read_index _) (
      next _ _ _ 1 1 (answer plain_proxy [] (0 ∷ []) 0 "shop" "")
        (next _ _ _ 1 0 (answer after_one [] [] 0 "" "10.0.0.1:80") (done _))))

Steps-Counted_example : Counted plain_library plain_proxy 2 after_two
Steps-Counted_example =
    Steps-Counted plain_library (record { proxy = plain_proxy; loaded = [] })
      (record { proxy = after_two; loaded = [] }) 2 racing
