-- ===== src/Scenario/Soundness.antt =====
-- The invariant of the scenario engine of pkg/scenario/scenario.go: an engine that was built from
-- accepted scenarios always stands in declared states.
use inferno_sim.Prelude.{
  subst, ℕ, String, ◌≡◌, refl, sym, ap, ◌∙◌, ◌≢◌, ◌⊎◌, inl, inr, Bool, true, false, some, List, [],
  ◌∷◌, map, str_eq, eq_refl, if◌then◌else◌, Bool-cases, Option-cases,
}
use inferno_sim.Prelude.Lists.{get_elem?, All, All-get_elem?, All_mono, All_of_places}
use inferno_sim.Prelude.Text.{is_empty_text, str_eq-true}
use inferno_sim.Prelude.Dict.{Dict, lookup, put, lookup-put, member, Distinct, place_of_name}
use inferno_sim.Matcher.Externals.{Library}
use inferno_sim.Matcher.Rules.{Request}
use inferno_sim.Scenario.{
  Step, Config, Engine, declared, reset_states, reset, state_of, or_empty, advance, match,
}
use inferno_sim.Scenario.States.{match-fires, match-configs, match-quiet}

abbrev pub names : List Config → List String
names = map (λ c. c.name)

-- The step goes on to a declared state, if it goes on at all.
abbrev pub GoesOn : List String → Step → Type 0
GoesOn states s = (is_empty_text s.next_state ≡ true) ⊎ (member s.next_state states ≡ true)

-- The scenario stands in one of its declared states.
abbrev pub Stands : Dict String → Config → Type 0
Stands states cfg = member (state_of states cfg.name) (declared cfg) ≡ true

-- The invariant of the engine.
pub record IsSound (e : Engine) : Type 0 where
  pub distinct : Distinct (names e.configs)
  pub steps : All (λ cfg. All (GoesOn (declared cfg)) cfg.steps) e.configs
  pub standing : All (Stands e.states) e.configs

pub state_of-put :
    (k j : String) (v : String) (states : Dict String)
    → state_of (put k v states) j ≡ (if str_eq k j then v else state_of states j)
unfolding state_of
state_of-put k j v states = ap or_empty (lookup-put k j v states) ∙ shared (str_eq k j)
  where
    shared :
        (b : Bool)
        → or_empty (if b then some v else lookup j states)
          ≡ (if b then v else or_empty (lookup j states))
    shared true = refl
    shared false = refl

pub state_of-put_same :
    (k : String) (v : String) (states : Dict String) → state_of (put k v states) k ≡ v
state_of-put_same k v states = rw (state_of-put k k v states, eq_refl k)

pub state_of-put_other :
    (k j : String) (v : String) (states : Dict String)
    → k ≢ j
    → state_of (put k v states) j ≡ state_of states j
state_of-put_other k j v states h = elim (Bool-cases (str_eq k j)) [
  | inl e ↦ absurd (h (str_eq-true k j e))
  | inr e ↦ rw (state_of-put k j v states, e)
]

-- What holds of every scenario and its state still holds after one scenario has got a state for which
-- it holds.
pub each-put :
    (P : Config → String → Type 0) (configs : List Config) (states : Dict String) (i : ℕ)
    (cfg : Config) (next : String)
    → Distinct (names configs)
    → get_elem? configs i ≡ some cfg
    → P cfg next
    → All (λ c. P c (state_of states c.name)) configs
    → All (λ c. P c (state_of (put cfg.name next states) c.name)) configs
each-put P configs states i cfg next d there now before =
    All_of_places (λ c. P c (state_of (put cfg.name next states) c.name)) configs
      (λ j c e. at j c e)
  where
    at :
        (j : ℕ) (c : Config)
        → get_elem? configs j ≡ some c
        → P c (state_of (put cfg.name next states) c.name)
    at j c e = elim (Bool-cases (str_eq cfg.name c.name)) [
      | inl same ↦
          let here : cfg ≡ c =
            place_of_name (λ (x : Config). x.name) configs i j cfg c d there e
              (str_eq-true cfg.name c.name same) in
          subst (λ (x : Config). P x (state_of (put cfg.name next states) x.name)) here
            (rw (state_of-put_same cfg.name next states) now)
      | inr other ↦
          rw (state_of-put cfg.name c.name next states, other)
            (All-get_elem? (λ x. P x (state_of states x.name)) configs j before e)
    ]

Stands-advance :
    (configs : List Config) (states : Dict String) (i : ℕ) (cfg : Config) (s : Step)
    → Distinct (names configs)
    → get_elem? configs i ≡ some cfg
    → GoesOn (declared cfg) s
    → All (Stands states) configs
    → All (Stands (advance states cfg s)) configs
Stands-advance configs states i cfg s d there (inl e) standing = rw e standing
Stands-advance configs states i cfg s d there (inr m) standing =
    elim (Bool-cases (is_empty_text s.next_state)) [
      | inl e ↦ rw e standing
      | inr e ↦ rw e (
          each-put (λ c now. member now (declared c) ≡ true) configs states i cfg s.next_state d
            there m standing)
    ]

-- An engine that is sound is sound after a request, whatever the request is and whether or not a
-- step answers it.
pub match-IsSound :
    (lib : Library) (e : Engine) (req : Request) (body : String)
    → IsSound e
    → IsSound (match lib e req body).0
match-IsSound lib e req body sound = elim (Option-cases (match lib e req body).1) [
  | inl quiet ↦ subst (λ (x : Engine). IsSound x) (sym (match-quiet lib e req body quiet)) sound
  | inr (a, p) ↦
      let f = match-fires lib e req body a p in
      let same = match-configs lib e req body in
      let goes : GoesOn (declared f.cfg) f.step =
        All-get_elem? (GoesOn (declared f.cfg)) f.cfg.steps f.step_place
          (All-get_elem? (λ cfg. All (GoesOn (declared cfg)) cfg.steps) e.configs f.place
            sound.steps f.there)
          f.in_config in
      record {
        distinct = subst (λ cs. Distinct (names cs)) (sym same) sound.distinct;
        steps =
            subst (λ cs. All (λ cfg. All (GoesOn (declared cfg)) cfg.steps) cs) (sym same)
              sound.steps;
        standing =
            subst (λ cs. All (Stands (match lib e req body).0.states) cs) (sym same)
              (subst (λ ss. All (Stands ss) e.configs) (sym f.advanced)
                (Stands-advance e.configs e.states f.place f.cfg f.step sound.distinct f.there goes
                  sound.standing));
      }
]

reset_states-other :
    (states : Dict String) (cfgs : List Config) (name : String)
    → All (λ k. name ≢ k) (names cfgs)
    → state_of (reset_states states cfgs) name ≡ state_of states name
unfolding reset_states
reset_states-other states [] name h = refl
reset_states-other states (cfg ∷ cfgs) name (n, h) =
    reset_states-other (put cfg.name cfg.initial_state states) cfgs name h
    ∙ state_of-put_other cfg.name name cfg.initial_state states (λ p. n (sym p))

abbrev pub Initial : Dict String → Config → Type 0
Initial states cfg = state_of states cfg.name ≡ cfg.initial_state

pub reset_states-Initial :
    (states : Dict String) (cfgs : List Config)
    → Distinct (names cfgs)
    → All (Initial (reset_states states cfgs)) cfgs
unfolding reset_states
reset_states-Initial states [] d = tt
reset_states-Initial states (cfg ∷ cfgs) (h, d) = (
  reset_states-other (put cfg.name cfg.initial_state states) cfgs cfg.name h
      ∙ state_of-put_same cfg.name cfg.initial_state states,
  reset_states-Initial (put cfg.name cfg.initial_state states) cfgs d,
)

pub Initial-Stands : (states : Dict String) (cfg : Config) → Initial states cfg → Stands states cfg
unfolding member
Initial-Stands states cfg h = rw (h, member, eq_refl cfg.initial_state)

-- After a reset of a sound engine every scenario stands in its initial state, and the engine is
-- sound again.
pub reset_lem :
    (e : Engine)
    → IsSound e
    → IsSound (reset e)
      × All (λ cfg. state_of (reset e).states cfg.name ≡ cfg.initial_state) e.configs
unfolding reset
reset_lem e sound =
    let initial = reset_states-Initial e.states e.configs sound.distinct in
    (
      record {
        distinct = sound.distinct;
        steps = sound.steps;
        standing =
            All_mono (Initial (reset_states e.states e.configs))
              (Stands (reset_states e.states e.configs)) e.configs
              (Initial-Stands (reset_states e.states e.configs)) initial;
      },
      initial,
    )
