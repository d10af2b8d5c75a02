-- ===== src/Workflow.antt =====
-- pkg/workflow/workflow.go: workflows that a captured incident must contain in order. Regular
-- expressions, durations and URLs are read by Go's packages, which are a parameter; times are
-- nanoseconds, with 0 for Go's zero time. A finding keeps what its message is printed from.
use inferno_sim.Prelude.{
  subst, ℕ, zero, suc, ◌+◌, ◌-◌, ◌*◌, ◌/◌, ◌%◌, ◌^◌, ◌≤◌, ◌<◌, min, max, String, ◌≡◌, refl, sym, ap,
  ◌∙◌, ◌≢◌, ◌↔◌, ◌⊎◌, inl, inr, Bool, true, false, not, ◌&&◌, ◌||◌, Option, none, some, List, [],
  ◌∷◌, ◌++◌, map, reverse, arith, str_eq, eq_iff, eq_refl, ltb, leb, ◌==◌, if◌then◌else◌, ltb→lt,
  lt→ltb, leb→le, ==_iff, Bool-cases, Option-cases,
}
use inferno_sim.Prelude.Lists.{
  length, get_elem?, set, take, drop, any, is_empty, count_if, length-append, take-append-drop,
  length-take, length-drop, take_all, drop_all, All, All-append, All-get_elem?, length-map,
  All_mono, All_of_places,
}
use inferno_sim.Prelude.Int.{ℤ, pos, negsuc, pos_part, neg_part, ltb_ℤ, ◌≤ℤ◌}
use inferno_sim.Prelude.Result.{
  Result, ok, err, ◌>>=◌, ◌>>◌, reject_if, >>=-eq-ok, reject_if-ok, guarded-ok, Result-cases,
}
use inferno_sim.Prelude.Text.{
  equal_fold, trim_space, is_blank, is_empty_text, equal_fold_refl, equal_fold_sym,
  equal_fold_trans, equal_fold_congr, str_eq-true, str_eq-false,
}
use inferno_sim.Prelude.Dict.{
  Dict, lookup, put, lookup-put, has_key, member, Distinct, not-member-cons, member-cons_parts,
  place_of_name,
}
use inferno_sim.Matcher.Externals.{Values}
pub mod Validity
pub mod Embedding
pub mod Correlation
pub mod Observed

pub record Tools : Type 0 where
  pub compiles : String → Bool
  pub matches : String → String → Bool
  pub parse_duration : String → Option ℤ

pub record Step : Type 0 where
  pub name : String
  pub protocol : String
  pub direction : String
  pub method : String
  pub path_regex : String
  pub grpc_method : String
  pub topic : String
  pub within : String

pub record Config : Type 0 where
  pub name : String
  pub correlation : String
  pub steps : List Step

-- `observed`
pub record Observation : Type 0 where
  pub protocol : String
  pub direction : String
  pub method : String
  pub path : String
  pub grpc_method : String
  pub topic : String
  pub correlation : String
  pub timestamp : ℕ
  pub sequence : ℤ
  pub location : String

pub data Error : Type 0 where
  no_name bad_correlation no_steps no_unique_name : Error
  no_path_regex no_grpc_method no_topic bad_protocol bad_direction bad_regex bad_within : Error
  duplicate_name : String → Error

-- The switch on the protocol of a step.
unfoldable pub check_protocol : Step → Result Error (Unit {0})
check_protocol s =
    if str_eq s.protocol "http"
    then reject_if (is_empty_text s.path_regex) no_path_regex
    else if str_eq s.protocol "grpc"
    then reject_if (is_empty_text s.grpc_method) no_grpc_method
    else if str_eq s.protocol "kafka"
    then reject_if (is_empty_text s.topic) no_topic
    else err bad_protocol

abbrev pub is_negative : ℤ → Bool
is_negative d = ltb_ℤ d (pos 0)

abbrev pub bad_duration : Option ℤ → Bool
bad_duration none = true
bad_duration (some d) = is_negative d

abbrev pub valid_direction : String → Bool
valid_direction d = is_empty_text d || (str_eq d "inbound" || str_eq d "outbound")

abbrev pub valid_correlation : String → Bool
valid_correlation c =
    is_empty_text c || (str_eq c "none" || (str_eq c "prefer" || str_eq c "required"))

module _ (tools : Tools) where
  -- A round of the loop of `ValidateConfigs` over the steps, behind the test of the name.
  unfoldable pub check_step : Step → Result Error (Unit {0})
  unfolding check_protocol
  check_step s = do
    check_protocol s
    reject_if (not (valid_direction s.direction)) bad_direction
    reject_if (not (is_empty_text s.path_regex) && not (tools.compiles s.path_regex)) bad_regex
    reject_if (not (is_empty_text s.within) && bad_duration (tools.parse_duration s.within))
        bad_within

  unfoldable pub check_steps : List String → List Step → Result Error (Unit {0})
  unfolding check_step member
  check_steps names [] = ok tt
  check_steps names (s ∷ ss) = do
    reject_if (is_empty_text s.name || member s.name names) no_unique_name
    check_step s
    check_steps (s.name ∷ names) ss

  unfoldable pub check_configs : List String → List Config → Result Error (Unit {0})
  unfolding check_steps trim_space
  check_configs names [] = ok tt
  check_configs names (c ∷ cs) = do
    reject_if (is_blank c.name) no_name
    reject_if (member c.name names) (duplicate_name c.name)
    reject_if (not (valid_correlation c.correlation)) bad_correlation
    reject_if (is_empty c.steps) no_steps
    check_steps [] c.steps
    check_configs (c.name ∷ names) cs

  -- `ValidateConfigs`
  unfoldable pub validate_configs : List Config → Result Error (Unit {0})
  unfolding check_configs
  validate_configs cs = check_configs [] cs

  -- `compiledStep.matches`
  unfoldable pub matches : Step → Observation → Bool
  unfolding equal_fold
  matches s o =
      str_eq o.protocol s.protocol
      && ((is_empty_text s.direction || str_eq o.direction s.direction)
          && ((is_empty_text s.method || equal_fold o.method s.method)
              && ((is_empty_text s.path_regex || tools.matches s.path_regex o.path)
                  && ((is_empty_text s.grpc_method || str_eq o.grpc_method s.grpc_method)
                      && (is_empty_text s.topic || str_eq o.topic s.topic)))))

pub data Problem : Type 0 where
  no_correlation other_correlation : Problem

-- What the correlation mode makes of an observation that matches: it is refused with a problem, it
-- is passed over, or it is taken.
pub data Verdict : Type 0 where
  refused : Problem → Verdict
  passed taken : Verdict

-- The conditions on the correlation, for the correlation fixed so far.
unfoldable pub judge : String → String → Observation → Verdict
judge mode fixed o =
    if str_eq mode "required" && is_empty_text o.correlation
    then refused no_correlation
    else if str_eq mode "required"
        && (not (is_empty_text fixed) && not (str_eq o.correlation fixed))
    then refused other_correlation
    else if str_eq mode "prefer"
        && (not (is_empty_text fixed)
            && (not (is_empty_text o.correlation) && not (str_eq o.correlation fixed)))
    then passed
    else taken

pub data Search : Type 0 where
  found : ℕ → Observation → List Observation → Search
  missing : Option Problem → Search

module _ (tools : Tools) where
  -- The loop over the observations from the cursor on, with the last problem; the observations behind
  -- the one that is found are what the next step looks at.
  unfoldable pub search : String → String → Step → ℕ → Option Problem → List Observation → Search
  unfolding matches judge
  search mode fixed s n problem [] = missing problem
  search mode fixed s n problem (o ∷ os) =
      elim (if matches tools s o then judge mode fixed o else passed) [
        | refused q ↦ search mode fixed s (n + 1) (some q) os
        | passed ↦ search mode fixed s (n + 1) problem os
        | taken ↦ found n o os
      ]

  -- `entry.max`: 0 where there is no bound
  abbrev pub bound_of : Step → ℕ
  bound_of s =
      if is_empty_text s.within
      then 0
      else elim (tools.parse_duration s.within) [ none ↦ 0 | some d ↦ pos_part d ]

pub data Finding : Type 0 where
  missing_step : String → String → String → ℕ → Option Problem → Finding
  timing_drift : String → ℕ → ℕ → String → Finding

abbrev pub first_nonempty : String → String → String
first_nonempty fixed new = if is_empty_text fixed then new else fixed

module _ (tools : Tools) where
  unfoldable pub drift : ℕ → Step → Observation → List Finding
  drift previous s o =
      if ltb 0 previous
        && (ltb 0 (bound_of tools s) && ltb (bound_of tools s) (o.timestamp - previous))
      then timing_drift s.name (o.timestamp - previous) (bound_of tools s) o.location ∷ []
      else []

  -- The loop of `VerifyIncident` over the steps of a workflow, from a cursor, with the correlation
  -- and the time of the step before.
  unfoldable pub verify_steps :
      Config → String → ℕ → ℕ → List Step → List Observation → List Finding
  unfolding search drift
  verify_steps c fixed previous n [] os = []
  verify_steps c fixed previous n (s ∷ ss) os =
      elim (search tools c.correlation fixed s n none os) [
        | missing q ↦ missing_step c.name s.protocol s.name n q ∷ []
        | found k o rest ↦
            drift previous s o
            ++ verify_steps c (first_nonempty fixed o.correlation) o.timestamp (k + 1) ss rest
      ]

  unfoldable pub verify_configs : List Config → List Observation → List Finding
  unfolding verify_steps
  verify_configs [] os = []
  verify_configs (c ∷ cs) os = verify_steps c "" 0 0 c.steps os ++ verify_configs cs os

  -- `VerifyIncident`, given what `loadObserved` returns
  unfoldable pub verify_incident : List Config → List Observation → Result Error (List Finding)
  unfolding validate_configs verify_configs
  verify_incident cs os = validate_configs tools cs >> ok (verify_configs cs os)
