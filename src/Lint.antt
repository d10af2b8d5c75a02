-- ===== src/Lint.antt =====
-- pkg/simlint/lint.go: what the linter reports of a replay configuration. The number in a location is
-- printed by a parameter, for `%d`; a code keeps what its message is printed from.
use inferno_sim.Prelude.{
  subst, ℕ, zero, suc, ◌+◌, ◌-◌, ◌*◌, ◌/◌, ◌%◌, ◌^◌, ◌≤◌, ◌<◌, min, max, String, ◌≡◌, refl, sym, ap,
  ◌∙◌, ◌≢◌, ◌↔◌, ◌⊎◌, inl, inr, Bool, true, false, not, ◌&&◌, ◌||◌, Option, none, some, List, [],
  ◌∷◌, ◌++◌, map, reverse, arith, str_eq, eq_iff, eq_refl, ltb, leb, ◌==◌, if◌then◌else◌, ltb→lt,
  lt→ltb, leb→le, ==_iff, Bool-cases, Option-cases,
}
use inferno_sim.Prelude.Lists.{
  length, get_elem?, set, take, drop, any, is_empty, count_if, length-append, take-append-drop,
  length-take, length-drop, take_all, drop_all, All, All-append, All-get_elem?, length-map,
  All_mono, All_of_places,
}
use inferno_sim.Prelude.Int.{ℤ, pos, negsuc, pos_part, neg_part, ltb_ℤ, ◌≤ℤ◌}
use inferno_sim.Prelude.Result.{
  Result, ok, err, ◌>>=◌, ◌>>◌, reject_if, >>=-eq-ok, reject_if-ok, guarded-ok, Result-cases,
}
use inferno_sim.Prelude.Text.{
  equal_fold, trim_space, is_blank, is_empty_text, equal_fold_refl, equal_fold_sym,
  equal_fold_trans, equal_fold_congr, str_eq-true, str_eq-false,
}
use inferno_sim.Prelude.Dict.{
  Dict, lookup, put, lookup-put, has_key, member, Distinct, not-member-cons, member-cons_parts,
  place_of_name,
}
use Prim.Native.Char.{nul}
use Prim.Native.Nat.{Ordering}
use Prim.Native.String
use Prim.Native.String.{compare}
use inferno_sim.Prelude.Sort.{sort_stable}
use inferno_sim.Matcher.Rules.{Rule}
use inferno_sim.Scenario.{Step, Config}
pub mod Passes
pub mod Reachability
pub mod Running
pub mod Selectors

pub data Code : Type 0 where
  config_invalid rule_unnamed rule_global scenario_empty step_unnamed : Code
  protobuf_schema_required no_scenarios : Code
  rule_duplicate_name step_duplicate_name : String → Code
  state_unreachable : String → String → Code
  step_shadowed : ℕ → Code

pub record Diagnostic : Type 0 where
  pub level : String
  pub code : Code
  pub location : String

-- What `File` reads of a `replaydriver.ReplayYAMLConfig`: the rules with their names, whether
-- `GRPC.Empty()` holds, and the scenarios.
pub record ReplayConfig : Type 0 where
  pub rules : List (String × Rule)
  pub no_schema : Bool
  pub scenarios : List Config

abbrev pub warning : Code → String → Diagnostic
warning c at = record { level = "warning"; code = c; location = at }

abbrev pub failure : Code → String → Diagnostic
failure c at = record { level = "error"; code = c; location = at }

-- `strings.Join`
unfoldable pub join : String → List String → String
join separator [] = ""
join separator (s ∷ []) = s
join separator (s ∷ ss) = String.◌++◌ s (String.◌++◌ separator (join separator ss))

-- `selectorKey`
unfoldable pub selector_key : Rule → String
unfolding join
selector_key r = join "|" (join "," r.methods ∷ r.host_regex ∷ r.path_regex ∷ r.grpc_method ∷ [])

-- The states that a pass over the steps adds, and whether it added one.
unfoldable pub sweep : List Step → List String → Bool → List String × Bool
unfolding member
sweep [] reachable changed = (reachable, changed)
sweep (s ∷ ss) reachable changed =
    let adds =
      member s.state reachable
      && (not (is_empty_text s.next_state) && not (member s.next_state reachable)) in
    sweep ss (if adds then s.next_state ∷ reachable else reachable) (adds || changed)

-- The loop `for changed`, on fuel: passes until one adds nothing.
unfoldable pub grow : ℕ → List Step → List String → List String
unfolding sweep
grow zero ss reachable = reachable
grow (suc n) ss reachable =
    let (next, changed) = sweep ss reachable false in
    let rest = grow n ss next in if changed then rest else next

unfoldable pub reachable_states : Config → List String
unfolding grow
reachable_states c = grow (suc (length c.steps)) c.steps (c.initial_state ∷ [])

-- The name of a step or a rule, against the names before it.
abbrev pub check_name : Code → (String → Code) → List String → String → String → List Diagnostic
check_name unnamed duplicate names name at =
    if is_empty_text name
    then warning unnamed at ∷ []
    else if member name names
    then failure (duplicate name) at ∷ []
    else []

unfoldable pub shadow_key : Step → String
unfolding join selector_key
shadow_key s = join (String.◌∷◌ nul "") (s.state ∷ selector_key s.rule ∷ [])

abbrev pub needs_schema : Step → Bool
needs_schema s =
    not (is_empty_text s.response.protobuf_json) || not (is_empty s.response.protobuf_stream)

-- What the linter says of a step whose state is not among the reachable ones.
unfoldable pub check_reachable : Config → List String → Step → String → List Diagnostic
unfolding member
check_reachable c reachable s at =
    if member s.state reachable
    then []
    else warning (state_unreachable s.state c.initial_state) at ∷ []

abbrev pub check_shadow : Option ℕ → String → List Diagnostic
check_shadow none at = []
check_shadow (some previous) at = warning (step_shadowed previous) at ∷ []

abbrev pub remember : Option ℕ → String → ℕ → Dict ℕ → Dict ℕ
remember none k i seen = put k i seen
remember (some previous) k i seen = seen

module _ (print : ℕ → String) where
  unfoldable pub scenario_location : ℕ → String
  unfolding join
  scenario_location i = join "" ("scenarios[" ∷ print i ∷ "]" ∷ [])

  unfoldable pub step_location : ℕ → ℕ → String
  unfolding join scenario_location
  step_location i j = join "" (scenario_location i ∷ ".steps[" ∷ print j ∷ "]" ∷ [])

  unfoldable pub rule_location : ℕ → String
  unfolding join
  rule_location i = join "" ("matching.rules[" ∷ print i ∷ "]" ∷ [])

  -- The second loop over the steps of a scenario, with the names and the selectors seen.
  unfoldable pub lint_steps :
      Bool → Config → List String → ℕ → ℕ → List String → Dict ℕ → List Step → List Diagnostic
  unfolding check_reachable lookup put shadow_key member step_location
  lint_steps no_schema c reachable i j names seen [] = []
  lint_steps no_schema c reachable i j names seen (s ∷ ss) =
      let at = step_location i j in
      check_name step_unnamed step_duplicate_name names s.name at
      ++ check_reachable c reachable s at
      ++ check_shadow (lookup (shadow_key s) seen) at
      ++ (if needs_schema s && no_schema
          then failure protobuf_schema_required (join "" (at ∷ ".response" ∷ [])) ∷ []
          else [])
      ++ lint_steps no_schema c reachable i (suc j) (s.name ∷ names)
          (remember (lookup (shadow_key s) seen) (shadow_key s) j seen) ss

  unfoldable pub lint_scenarios : Bool → ℕ → List Config → List Diagnostic
  unfolding lint_steps reachable_states scenario_location
  lint_scenarios no_schema i [] = []
  lint_scenarios no_schema i (c ∷ cs) =
      (if is_empty c.steps
        then warning scenario_empty (scenario_location i) ∷ []
        else lint_steps no_schema c (reachable_states c) i 0 [] [] c.steps)
      ++ lint_scenarios no_schema (suc i) cs

  -- `lintRules`
  unfoldable pub lint_rules : List (String × Rule) → ℕ → List String → List Diagnostic
  unfolding selector_key member rule_location
  lint_rules [] i names = []
  lint_rules ((name, r) ∷ rs) i names =
      let at = rule_location i in
      check_name rule_unnamed rule_duplicate_name names name at
      ++ (if is_empty_text (selector_key r) then warning rule_global at ∷ [] else [])
      ++ lint_rules rs (suc i) (name ∷ names)

abbrev pub text_ltb : String → String → Bool
text_ltb s t = elim (compare s t) [ Ordering.lt ↦ true | _ ↦ false ]

-- Errors first, then by location.
unfoldable pub diagnostic_less : Diagnostic → Diagnostic → Bool
diagnostic_less a b =
    if not (str_eq a.level b.level) then str_eq a.level "error" else text_ltb a.location b.location

-- `File`, given what `LoadReplayConfig` makes of the file
unfoldable pub lint : (ℕ → String) → String → Option ReplayConfig → List Diagnostic
unfolding lint_rules lint_scenarios sort_stable diagnostic_less
lint print path none = failure config_invalid path ∷ []
lint print path (some c) = sort_stable diagnostic_less (
    lint_rules print c.rules 0 []
    ++ lint_scenarios print c.no_schema 0 c.scenarios
    ++ (if is_empty c.scenarios then warning no_scenarios "scenarios" ∷ [] else []))

-- `ErrorCount`
abbrev pub error_count : List Diagnostic → ℕ
error_count ds = count_if (λ d. str_eq d.level "error") ds

-- `WarningCount`
abbrev pub warning_count : List Diagnostic → ℕ
warning_count ds = count_if (λ d. str_eq d.level "warning") ds
