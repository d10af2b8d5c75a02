-- ===== src/Lint/Running.antt =====
-- pkg/simlint/lint.go against pkg/scenario/scenario.go: the warning on a state that cannot be reached
-- is right about every run of the engine.
use inferno_sim.Prelude.{
  subst, ℕ, String, ◌≡◌, refl, sym, ◌∙◌, inl, inr, some, List, [], ◌∷◌, Bool-cases, Option-cases,
}
use inferno_sim.Prelude.Lists.{get_elem?, All, All-get_elem?, All_mono}
use inferno_sim.Prelude.Text.{is_empty_text}
use inferno_sim.Prelude.Dict.{Dict, Distinct}
use inferno_sim.Matcher.Externals.{Library}
use inferno_sim.Matcher.Rules.{Request}
use inferno_sim.Scenario.{Step, Config, Answer, Engine, state_of, advance, answer_of, match, reset}
use inferno_sim.Scenario.States.{match-fires, match-configs, match-quiet}
use inferno_sim.Scenario.Soundness.{names, IsSound, each-put, reset_lem, match-IsSound}
use inferno_sim.Lint.{reachable_states, check_reachable}
use inferno_sim.Lint.Reachability.{Reaches, start, move, reachable_states_iff}

-- The requests, one after the other.
unfoldable pub match_all : Library → Engine → List (Request × String) → Engine
unfolding match
match_all lib e [] = e
match_all lib e ((req, body) ∷ reqs) = match_all lib (match lib e req body).0 reqs

-- Every scenario stands in a state that it reaches.
abbrev pub IsReached : Engine → Type 0
IsReached e = All (λ c. Reaches c (state_of e.states c.name)) e.configs

advance-reached :
    (configs : List Config) (states : Dict String) (i : ℕ) (cfg : Config) (j : ℕ) (s : Step)
    → Distinct (names configs)
    → get_elem? configs i ≡ some cfg
    → get_elem? cfg.steps j ≡ some s
    → s.state ≡ state_of states cfg.name
    → All (λ c. Reaches c (state_of states c.name)) configs
    → All (λ c. Reaches c (state_of (advance states cfg s) c.name)) configs
advance-reached configs states i cfg j s d there in_config current reached =
    elim (Bool-cases (is_empty_text s.next_state)) [
      | inl e ↦ rw e reached
      | inr e ↦
          let now : Reaches cfg s.state =
            subst (λ x. Reaches cfg x) (sym current)
              (All-get_elem? (λ c. Reaches c (state_of states c.name)) configs i reached there) in
          rw e (
            each-put Reaches configs states i cfg s.next_state d there (move j s in_config now e)
              reached)
    ]

reset-configs : (e : Engine) → (reset e).configs ≡ e.configs
unfolding reset
reset-configs e = refl

module _ (lib : Library) where
  match-IsReached :
      (e : Engine) (req : Request) (body : String)
      → IsSound e
      → IsReached e
      → IsReached (match lib e req body).0
  match-IsReached e req body sound reached = elim (Option-cases (match lib e req body).1) [
    | inl quiet ↦
        subst (λ (x : Engine). IsReached x) (sym (match-quiet lib e req body quiet)) reached
    | inr (a, p) ↦
        let f = match-fires lib e req body a p in
        subst (λ cs. All (λ c. Reaches c (state_of (match lib e req body).0.states c.name)) cs)
          (sym (match-configs lib e req body))
          (subst (λ ss. All (λ c. Reaches c (state_of ss c.name)) e.configs) (sym f.advanced)
            (advance-reached e.configs e.states f.place f.cfg f.step_place f.step sound.distinct
              f.there f.in_config f.current reached))
  ]

  match_all-IsReached :
      (e : Engine) (reqs : List (Request × String))
      → IsSound e
      → IsReached e
      → IsReached (match_all lib e reqs) × ((match_all lib e reqs).configs ≡ e.configs)
  unfolding match_all
  match_all-IsReached e [] sound reached = (reached, refl)
  match_all-IsReached e ((req, body) ∷ reqs) sound reached =
      let (later, same) =
        match_all-IsReached (match lib e req body).0 reqs (match-IsSound lib e req body sound)
          (match-IsReached e req body sound reached) in
      (later, same ∙ match-configs lib e req body)

  -- After a reset of a sound engine and any requests, a step that answers is one of whose state the
  -- linter does not warn.
  pub answer-reachable :
      (e : Engine) (reqs : List (Request × String)) (req : Request) (body : String) (a : Answer)
      → IsSound e
      → (match lib (match_all lib (reset e) reqs) req body).1 ≡ some a
      → (i : ℕ) × (cfg : Config) × (j : ℕ) × (s : Step) × (get_elem? e.configs i ≡ some cfg)
        × (get_elem? cfg.steps j ≡ some s)
        × (a ≡ answer_of cfg s)
        × ((at : String) → check_reachable cfg (reachable_states cfg) s at ≡ [])
  unfolding check_reachable
  answer-reachable e reqs req body a sound h =
      let (fresh, initial) = reset_lem e sound in
      let begun : IsReached (reset e) =
        subst (λ cs. All (λ c. Reaches c (state_of (reset e).states c.name)) cs)
          (sym (reset-configs e))
          (All_mono (λ c. state_of (reset e).states c.name ≡ c.initial_state)
            (λ c. Reaches c (state_of (reset e).states c.name)) e.configs
            (λ c here. subst (λ x. Reaches c x) (sym here) start) initial) in
      let (reached, same) = match_all-IsReached (reset e) reqs fresh begun in
      let f = match-fires lib (match_all lib (reset e) reqs) req body a h in
      let now : Reaches f.cfg f.step.state =
        subst (λ x. Reaches f.cfg x) (sym f.current)
          (All-get_elem? (λ c. Reaches c (state_of (match_all lib (reset e) reqs).states c.name))
            (match_all lib (reset e) reqs).configs f.place reached f.there) in
      let listed = (reachable_states_iff f.cfg f.step.state).1 now in
      (
        f.place,
        f.cfg,
        f.step_place,
        f.step,
        subst (λ cs. get_elem? cs f.place ≡ some f.cfg) (same ∙ reset-configs e) f.there,
        f.in_config,
        f.answered,
        λ at. rw listed,
      )
