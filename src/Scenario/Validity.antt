-- ===== src/Scenario/Validity.antt =====
-- What the engine of pkg/scenario/scenario.go accepts when it is built.
use inferno_sim.Prelude.{
  subst, ℕ, ◌≤◌, String, ◌≡◌, refl, sym, ap, ◌∙◌, ◌≢◌, inl, inr, Bool, false, ◌||◌, Option, List,
  [], ◌∷◌, arith, ltb, Bool-cases,
}
use inferno_sim.Prelude.Lists.{All, All_mono}
use inferno_sim.Prelude.Int.{pos, ltb_ℤ}
use inferno_sim.Prelude.Result.{Result, ok, err, reject_if, >>=-eq-ok, reject_if-ok}
use inferno_sim.Prelude.Text.{is_blank, is_empty_text}
use inferno_sim.Prelude.Dict.{Dict, put, member, Distinct, member-cons_parts}
use inferno_sim.Matcher.Externals.{Library, Registry}
use inferno_sim.Matcher.Rules.{Config as MatchConfig, Matcher}
use inferno_sim.Scenario.{
  Step, Config, Engine, Error, Formats, no_state, bad_status, many_bodies, response_forms,
  check_step, check_steps, check_next, declared, no_name, no_initial_state, duplicate_name,
  check_configs, new_engine, reset_states, state_of,
}
use inferno_sim.Scenario.Soundness.{
  names, GoesOn, Stands, IsSound, Initial, reset_states-Initial, Initial-Stands,
}

check_next-GoesOn :
    (states : List String) (ss : List Step) → check_next states ss ≡ ok tt → All (GoesOn states) ss
unfolding check_next
check_next-GoesOn states [] h = tt
check_next-GoesOn states (s ∷ ss) h = elim (Bool-cases (is_empty_text s.next_state)) [
  | inl e ↦ (inl e, check_next-GoesOn states ss (rw (e, check_next) at h))
  | inr e ↦ elim (Bool-cases (member s.next_state states)) [
    | inl m ↦ (inr m, check_next-GoesOn states ss (rw (e, m, check_next) at h))
    | inr m ↦ absurd (not_ok (rw (e, m, check_next) at h))
  ]
]
  where
    not_ok : {x : Error} → ◌≡◌ {A = Result Error (Unit {0})} (err x) (ok tt) → ⊥
    not_ok p = cc

-- A response's status and body can be sent.
pub record Answerable (s : Step) : Type 0 where
  pub status :
      (ltb_ℤ s.response.status (pos 100) ≡ false) × (ltb_ℤ (pos 599) s.response.status ≡ false)
  pub one_body : response_forms s.response ≤ 1

ok_inj {ℓ κ} : {E : Type ℓ} {A : Type κ} {a b : A} → ◌≡◌ {A = Result E A} (ok a) (ok b) → a ≡ b
ok_inj p = cc

check_step-Answerable :
    (lib : Library) (fmt : Formats) (matching : MatchConfig) (registry : Option Registry) (s : Step)
    (m : Matcher)
    → check_step lib fmt matching registry s ≡ ok m
    → Answerable s
unfolding check_step
check_step-Answerable lib fmt matching registry s m h =
    let (_, b0, h0) = >>=-eq-ok (reject_if (is_empty_text s.state) no_state) _ h in
    let (_, b1, h1) =
      >>=-eq-ok
        (reject_if (ltb_ℤ s.response.status (pos 100) || ltb_ℤ (pos 599) s.response.status)
          bad_status)
        _ h0 in
    let (_, b2, h2) = >>=-eq-ok (reject_if (ltb 1 (response_forms s.response)) many_bodies) _ h1 in
    record {
      status =
          neither (ltb_ℤ s.response.status (pos 100)) (ltb_ℤ (pos 599) s.response.status)
            (reject_if-ok _ _ b1);
      one_body = few (response_forms s.response) (reject_if-ok _ _ b2);
    }
  where
    neither : (a b : Bool) → (a || b) ≡ false → (a ≡ false) × (b ≡ false)
    neither a b p = ground arith

    few : (n : ℕ) → ltb 1 n ≡ false → n ≤ 1
    few n p = ground arith

check_steps-Answerable :
    (lib : Library) (fmt : Formats) (matching : MatchConfig) (registry : Option Registry)
    (ss : List Step) (ms : List Matcher)
    → check_steps lib fmt matching registry ss ≡ ok ms
    → All Answerable ss
unfolding check_steps
check_steps-Answerable lib fmt matching registry [] ms h = tt
check_steps-Answerable lib fmt matching registry (s ∷ ss) ms h =
    let (m, b0, h0) = >>=-eq-ok (check_step lib fmt matching registry s) _ h in
    let (ns, b1, h1) = >>=-eq-ok (check_steps lib fmt matching registry ss) _ h0 in
    (
      check_step-Answerable lib fmt matching registry s m b0,
      check_steps-Answerable lib fmt matching registry ss ns b1,
    )

module _ (lib : Library) (fmt : Formats) (matching : MatchConfig) (registry : Option Registry) where
  -- Accepted scenarios: the names are new and differ, no state is missing, and the states are
  -- those of a reset.
  check_configs-ok :
      (seen : List String) (states : Dict String) (cfgs : List Config)
      (r : Dict String × List (List Matcher))
      → check_configs lib fmt matching registry seen states cfgs ≡ ok r
      → Distinct (names cfgs)
        × All (λ k. member k seen ≡ false) (names cfgs)
        × All (λ cfg. All (GoesOn (declared cfg)) cfg.steps) cfgs
        × All (λ cfg. All Answerable cfg.steps) cfgs
        × (r.0 ≡ reset_states states cfgs)
  unfolding check_configs reset_states
  check_configs-ok seen states [] r h =
      (tt, tt, tt, tt, ap (λ (x : Dict String × List (List Matcher)). x.0) (sym (ok_inj h)))
  check_configs-ok seen states (cfg ∷ cfgs) r h =
      let (_, b0, h0) = >>=-eq-ok (reject_if (is_blank cfg.name) no_name) _ h in
      let (_, b1, h1) =
        >>=-eq-ok (reject_if (member cfg.name seen) (duplicate_name cfg.name)) _ h0 in
      let (_, b2, h2) =
        >>=-eq-ok (reject_if (is_empty_text cfg.initial_state) no_initial_state) _ h1 in
      let (ms, b3, h3) = >>=-eq-ok (check_steps lib fmt matching registry cfg.steps) _ h2 in
      let (_, b4, h4) = >>=-eq-ok (check_next (declared cfg) cfg.steps) _ h3 in
      let (rest, b5, h5) =
        >>=-eq-ok
          (check_configs lib fmt matching registry (cfg.name ∷ seen)
            (put cfg.name cfg.initial_state states) cfgs)
          _ h4 in
      let (d, fresh, goes, valid, same) =
        check_configs-ok (cfg.name ∷ seen) (put cfg.name cfg.initial_state states) cfgs rest b5 in
      (
        (
          All_mono (λ k. member k (cfg.name ∷ seen) ≡ false) (λ k. cfg.name ≢ k) (names cfgs)
              (λ k m. (member-cons_parts k cfg.name seen m).0) fresh,
          d,
        ),
        (
          reject_if-ok _ _ b1,
          All_mono (λ k. member k (cfg.name ∷ seen) ≡ false) (λ k. member k seen ≡ false)
              (names cfgs) (λ k m. (member-cons_parts k cfg.name seen m).1) fresh,
        ),
        (check_next-GoesOn (declared cfg) cfg.steps b4, goes),
        (check_steps-Answerable lib fmt matching registry cfg.steps ms b3, valid),
        ap (λ (x : Dict String × List (List Matcher)). x.0) (sym (ok_inj h5)) ∙ same,
      )

  -- An accepted configuration gives a sound engine with the scenarios of the configuration, each in
  -- its initial state, and every response has a status from 100 to 599 and at most one form of a
  -- body.
  pub new_engine-IsSound :
      (configs : List Config) (e : Engine)
      → new_engine lib fmt matching registry configs ≡ ok e
      → IsSound e
        × (e.configs ≡ configs)
        × All (λ cfg. state_of e.states cfg.name ≡ cfg.initial_state) configs
        × All (λ cfg. All Answerable cfg.steps) configs
  unfolding new_engine
  new_engine-IsSound configs e h =
      let (r, b, h0) = >>=-eq-ok (check_configs lib fmt matching registry [] [] configs) _ h in
      let (d, _, goes, valid, same) = check_configs-ok [] [] configs r b in
      let made : record { configs = configs; states = r.0; compiled = r.1 } ≡ e = ok_inj h0 in
      let initial =
        subst (λ (st : Dict String). All (Initial st) configs) (sym same)
          (reset_states-Initial [] configs d) in
      let standing = All_mono (Initial r.0) (Stands r.0) configs (Initial-Stands r.0) initial in
      subst
        (λ (x : Engine).
          IsSound x
          × (x.configs ≡ configs)
          × All (λ cfg. state_of x.states cfg.name ≡ cfg.initial_state) configs
          × All (λ cfg. All Answerable cfg.steps) configs)
        made (record { distinct = d; steps = goes; standing = standing }, refl, initial, valid)
