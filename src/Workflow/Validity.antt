-- ===== src/Workflow/Validity.antt =====
-- pkg/workflow/workflow.go, `ValidateConfigs`: what `VerifyIncident` relies on where it compiles the
-- steps, with `MustCompile` and with an error that it drops.
use inferno_sim.Prelude.{
  ℕ, suc, ◌+◌, String, ◌≡◌, refl, sym, ◌∙◌, ◌≢◌, Bool, true, false, not, ◌&&◌, ◌||◌, Option, none,
  some, List, [], ◌∷◌, map, arith, lt→ltb,
}
use inferno_sim.Prelude.Lists.{is_empty, All, All_mono}
use inferno_sim.Prelude.Int.{ℤ, pos, negsuc}
use inferno_sim.Prelude.Result.{ok, reject_if, >>=-eq-ok, reject_if-ok}
use inferno_sim.Prelude.Text.{is_blank, is_empty_text}
use inferno_sim.Prelude.Dict.{member, Distinct, member-cons_parts}
use inferno_sim.Workflow.{
  Tools, Step, Config, check_protocol, check_step, check_steps, check_configs, validate_configs,
  valid_direction, bad_duration, no_name, duplicate_name, bad_correlation, no_steps, no_unique_name,
  bad_direction, bad_regex, bad_within, valid_correlation,
}

-- Neither of the two calls can fail on the step.
pub record IsCompilable (tools : Tools) (s : Step) : Type 0 where
  pub regex : is_empty_text s.path_regex ≡ false → tools.compiles s.path_regex ≡ true
  pub within :
      is_empty_text s.within ≡ false → (d : ℕ) × (tools.parse_duration s.within ≡ some (pos d))

abbrev pub step_names : List Step → List String
step_names = map (λ s. s.name)

abbrev pub config_names : List Config → List String
config_names = map (λ c. c.name)

pub record IsRunnable (tools : Tools) (c : Config) : Type 0 where
  pub has_steps : is_empty c.steps ≡ false
  pub distinct : Distinct (step_names c.steps)
  pub compilable : All (IsCompilable tools) c.steps

-- Distinct names, none of which the set holds.
abbrev pub IsFresh : List String → List String → Type 0
IsFresh names ks = All (λ k. member k names ≡ false) ks × Distinct ks

IsFresh-cons :
    (k : String) (names ks : List String)
    → member k names ≡ false
    → IsFresh (k ∷ names) ks
    → IsFresh names (k ∷ ks)
IsFresh-cons k names ks m (a, d) = (
  (
    m,
    All_mono (λ j. member j (k ∷ names) ≡ false) (λ j. member j names ≡ false) ks
        (λ j h. (member-cons_parts j k names h).1) a,
  ),
  (
    All_mono (λ j. member j (k ∷ names) ≡ false) (λ j. k ≢ j) ks
        (λ j h. (member-cons_parts j k names h).0) a,
    d,
  ),
)

IsFresh-nothing : (k : String) → member k [] ≡ false
unfolding member
IsFresh-nothing k = refl

good_duration : (o : Option ℤ) → bad_duration o ≡ false → (d : ℕ) × (o ≡ some (pos d))
good_duration (some (pos n)) h = (n, refl)
good_duration (some (negsuc n)) h =
    absurd (true_not_false (sym (lt→ltb 0 (0 + suc n) (omega arith)) ∙ h))
  where
    true_not_false : true ≡ false → ⊥
    true_not_false z = cc
good_duration none h = absurd (true_not_false h)
  where
    true_not_false : true ≡ false → ⊥
    true_not_false z = cc

module _ (tools : Tools) where
  check_step-IsCompilable : (s : Step) → check_step tools s ≡ ok tt → IsCompilable tools s
  unfolding check_step
  check_step-IsCompilable s h =
      let (_, _, h1) = >>=-eq-ok (check_protocol s) _ h in
      let (_, _, h2) =
        >>=-eq-ok (reject_if (not (valid_direction s.direction)) bad_direction) _ h1 in
      let (_, g3, h3) =
        >>=-eq-ok
          (reject_if (not (is_empty_text s.path_regex) && not (tools.compiles s.path_regex))
            bad_regex)
          _ h2 in
      let e3 = reject_if-ok _ bad_regex g3 in
      let e4 = reject_if-ok _ bad_within h3 in
      record {
        regex = λ n. taken_apart (is_empty_text s.path_regex) (tools.compiles s.path_regex) e3 n;
        within = λ n.
            good_duration (tools.parse_duration s.within) (
              not_bad (is_empty_text s.within) (bad_duration (tools.parse_duration s.within)) e4 n);
      }
    where
      taken_apart : (a b : Bool) → (not a && not b) ≡ false → a ≡ false → b ≡ true
      taken_apart a b z n = ground arith

      not_bad : (a b : Bool) → (not a && b) ≡ false → a ≡ false → b ≡ false
      not_bad a b z n = ground arith

  check_steps-IsFresh :
      (names : List String) (ss : List Step)
      → check_steps tools names ss ≡ ok tt
      → IsFresh names (step_names ss) × All (IsCompilable tools) ss
  unfolding check_steps
  check_steps-IsFresh names [] h = ((tt, tt), tt)
  check_steps-IsFresh names (s ∷ ss) h =
      let (_, g1, h1) =
        >>=-eq-ok (reject_if (is_empty_text s.name || member s.name names) no_unique_name) _ h in
      let (_, g2, h2) = >>=-eq-ok (check_step tools s) _ h1 in
      let (fresh, fine) = check_steps-IsFresh (s.name ∷ names) ss h2 in
      (
        IsFresh-cons s.name names (step_names ss)
            (new (is_empty_text s.name) (member s.name names) (reject_if-ok _ no_unique_name g1))
            fresh,
        (check_step-IsCompilable s g2, fine),
      )
    where
      new : (a b : Bool) → (a || b) ≡ false → b ≡ false
      new a b z = ground arith

  check_configs-IsFresh :
      (names : List String) (cs : List Config)
      → check_configs tools names cs ≡ ok tt
      → IsFresh names (config_names cs) × All (IsRunnable tools) cs
  unfolding check_configs
  check_configs-IsFresh names [] h = ((tt, tt), tt)
  check_configs-IsFresh names (c ∷ cs) h =
      let (_, g1, h1) = >>=-eq-ok (reject_if (is_blank c.name) no_name) _ h in
      let (_, g2, h2) = >>=-eq-ok (reject_if (member c.name names) (duplicate_name c.name)) _ h1 in
      let (_, g3, h3) =
        >>=-eq-ok (reject_if (not (valid_correlation c.correlation)) bad_correlation) _ h2 in
      let (_, g4, h4) = >>=-eq-ok (reject_if (is_empty c.steps) no_steps) _ h3 in
      let (_, g5, h5) = >>=-eq-ok (check_steps tools [] c.steps) _ h4 in
      let ((_, apart), fine) = check_steps-IsFresh [] c.steps g5 in
      let (fresh, rest) = check_configs-IsFresh (c.name ∷ names) cs h5 in
      (
        IsFresh-cons c.name names (config_names cs) (reject_if-ok _ (duplicate_name c.name) g2)
            fresh,
        (
          record { has_steps = reject_if-ok _ no_steps g4; distinct = apart; compilable = fine },
          rest,
        ),
      )

  -- Workflows that are accepted have distinct names, and each has at least one step, distinct names of
  -- its steps, and only steps whose regular expression compiles and whose bound, where there is one, is
  -- a duration that is not negative: compiling them afterwards neither panics nor drops an error.
  pub validate_configs-IsRunnable :
      (cs : List Config)
      → validate_configs tools cs ≡ ok tt
      → Distinct (config_names cs) × All (IsRunnable tools) cs
  unfolding validate_configs
  validate_configs-IsRunnable cs h =
      let ((_, apart), fine) = check_configs-IsFresh [] cs h in (apart, fine)
