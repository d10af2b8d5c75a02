-- ===== src/Scenario/States.antt =====
-- The states of the scenario engine of pkg/scenario/scenario.go as requests come in.
use inferno_sim.Prelude.{
  ℕ, suc, String, ◌≡◌, refl, sym, ap, ◌∙◌, inl, inr, Bool, true, ◌&&◌, Option, none, some, List, [],
  ◌∷◌, arith, str_eq, Bool-cases, Option-cases,
}
use inferno_sim.Prelude.Lists.{get_elem?}
use inferno_sim.Prelude.Text.{str_eq-true}
use inferno_sim.Prelude.Dict.{Dict}
use inferno_sim.Matcher.Externals.{Library}
use inferno_sim.Matcher.Rules.{Matcher, Request}
use inferno_sim.Scenario.{
  Step, Config, Answer, Engine, state_of, rule_matches, find_step, advance, answer_of,
  match_configs, match,
}

-- A step has answered: it is a step of the scenario's current state whose rule matches, and the
-- scenario's state has gone on to the step's next state.
pub record Fired (lib : Library) (e : Engine) (req : Request) (body : String) (a : Answer)
    (states : Dict String) : Type 0 where
  pub place : ℕ
  pub cfg : Config
  pub there : get_elem? e.configs place ≡ some cfg
  pub step_place : ℕ
  pub step : Step
  pub matchers : List Matcher
  pub matcher : Matcher
  pub in_config : get_elem? cfg.steps step_place ≡ some step
  pub compiled : get_elem? e.compiled place ≡ some matchers
  pub of_step : get_elem? matchers step_place ≡ some matcher
  pub current : step.state ≡ state_of e.states cfg.name
  pub matched : rule_matches lib matcher req body ≡ true
  pub answered : a ≡ answer_of cfg step
  pub advanced : states ≡ advance e.states cfg step

module _ (lib : Library) where
  find_step-some :
      (current : String) (ss : List Step) (ms : List Matcher) (req : Request) (body : String)
      (s : Step)
      → find_step lib current ss ms req body ≡ some s
      → (j : ℕ) × (m : Matcher) × (get_elem? ss j ≡ some s)
        × (get_elem? ms j ≡ some m)
        × (s.state ≡ current)
        × (rule_matches lib m req body ≡ true)
  unfolding find_step
  find_step-some current [] ms req body s h = absurd (cc)
  find_step-some current (t ∷ ss) [] req body s h = absurd (cc)
  find_step-some current (t ∷ ss) (m ∷ ms) req body s h =
      elim (Bool-cases (str_eq t.state current && rule_matches lib m req body)) [
        | inl e ↦
            let (a, b) = and_parts (str_eq t.state current) (rule_matches lib m req body) e in
            let same : t ≡ s = some_inj t s (rw (e, find_step) at h) in
            (0, m, ap some same, refl, ap (λ (x : Step). x.state) (sym same) ∙ str_eq-true _ _ a, b)
        | inr e ↦
            let (j, n, p, q, r, t') =
              find_step-some current ss ms req body s (rw (e, find_step) at h) in
            (suc j, n, p, q, r, t')
      ]
    where
      some_inj : (a b : Step) → some a ≡ some b → a ≡ b
      some_inj a b p = cc

      and_parts : (a b : Bool) → (a && b) ≡ true → (a ≡ true) × (b ≡ true)
      and_parts a b h = ground arith

  match_configs-some :
      (states : Dict String) (cfgs : List Config) (mss : List (List Matcher)) (req : Request)
      (body : String) (a : Answer) (states' : Dict String)
      → match_configs lib states cfgs mss req body ≡ some (a, states')
      → (i : ℕ) × (cfg : Config) × (j : ℕ) × (s : Step) × (ms : List Matcher) × (m : Matcher)
        × (get_elem? cfgs i ≡ some cfg)
        × (get_elem? mss i ≡ some ms)
        × (get_elem? cfg.steps j ≡ some s)
        × (get_elem? ms j ≡ some m)
        × (s.state ≡ state_of states cfg.name)
        × (rule_matches lib m req body ≡ true)
        × (a ≡ answer_of cfg s)
        × (states' ≡ advance states cfg s)
  unfolding match_configs
  match_configs-some states [] mss req body a states' h = absurd (cc)
  match_configs-some states (cfg ∷ cfgs) [] req body a states' h = absurd (cc)
  match_configs-some states (cfg ∷ cfgs) (ms ∷ mss) req body a states' h =
      elim (Option-cases (find_step lib (state_of states cfg.name) cfg.steps ms req body)) [
        | inl e ↦
            let (i, c, j, s, ns, m, q1, q2, q3, q4, q5, q6, q7, q8) =
              match_configs-some states cfgs mss req body a states' (rw (e, match_configs) at h) in
            (suc i, c, j, s, ns, m, q1, q2, q3, q4, q5, q6, q7, q8)
        | inr (s, e) ↦
            let (j, m, p, q, r, t) =
              find_step-some (state_of states cfg.name) cfg.steps ms req body s e in
            let (x, y) = pair_inj (rw (e, match_configs) at h) in
            (0, cfg, j, s, ms, m, refl, refl, p, q, r, t, x, y)
      ]
    where
      pair_inj :
          {x : Answer} {y : Dict String}
          → ◌≡◌ {A = Option (Answer × Dict String)} (some (x, y)) (some (a, states'))
          → (a ≡ x) × (states' ≡ y)
      pair_inj p = ground arith

  -- An answer comes from a step of a scenario's current state whose rule matches the request, and
  -- the scenario has gone on as the step says.
  pub match-fires :
      (e : Engine) (req : Request) (body : String) (a : Answer)
      → (match lib e req body).1 ≡ some a
      → Fired lib e req body a (match lib e req body).0.states
  unfolding match
  match-fires e req body a h =
      elim (Option-cases (match_configs lib e.states e.configs e.compiled req body)) [
        | inl n ↦ absurd (some_not_none a (rw (n, match) at h))
        | inr ((b, states), p) ↦
            let (i, cfg, j, s, ms, m, c1, c2, c3, c4, c5, c6, c7, c8) =
              match_configs-some e.states e.configs e.compiled req body b states p in
            let same : a ≡ b = some_inj b a (rw (p, match) at h) in
            let after : (match lib e req body).0.states ≡ states = rw (p, match) in
            record {
              place = i;
              cfg = cfg;
              there = c1;
              step_place = j;
              step = s;
              matchers = ms;
              matcher = m;
              in_config = c3;
              compiled = c2;
              of_step = c4;
              current = c5;
              matched = c6;
              answered = same ∙ c7;
              advanced = after ∙ c8;
            }
      ]
    where
      some_inj : (a b : Answer) → some a ≡ some b → b ≡ a
      some_inj a b p = cc

      some_not_none : (a : Answer) → ◌≡◌ {A = Option Answer} none (some a) → ⊥
      some_not_none a p = cc

  -- A request changes no scenario of an engine but its states.
  pub match-configs :
      (e : Engine) (req : Request) (body : String) → (match lib e req body).0.configs ≡ e.configs
  unfolding match
  match-configs e req body =
      elim (Option-cases (match_configs lib e.states e.configs e.compiled req body)) [
        | inl n ↦ rw (n, match)
        | inr (_, p) ↦ rw (p, match)
      ]

  -- A request that no step answers leaves the engine as it is.
  pub match-quiet :
      (e : Engine) (req : Request) (body : String)
      → (match lib e req body).1 ≡ none
      → (match lib e req body).0 ≡ e
  unfolding match
  match-quiet e req body h =
      elim (Option-cases (match_configs lib e.states e.configs e.compiled req body)) [
        | inl n ↦ rw (n, match)
        | inr ((a, states), p) ↦ absurd (not_none a (rw (p, match) at h))
      ]
    where
      not_none : (a : Answer) → ◌≡◌ {A = Option Answer} (some a) none → ⊥
      not_none a p = cc

  pub match-shape :
      (e : Engine) (req : Request) (body : String)
      → (match lib e req body).0 ≡ record e { states = (match lib e req body).0.states }
  unfolding match
  match-shape e req body =
      elim (Option-cases (match_configs lib e.states e.configs e.compiled req body)) [
        | inl n ↦ rw (n, match)
        | inr (_, p) ↦ rw (p, match)
      ]
