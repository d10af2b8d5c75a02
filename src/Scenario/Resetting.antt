-- ===== src/Scenario/Resetting.antt =====
-- A reset of the scenario engine of pkg/scenario/scenario.go undoes every request.
use inferno_sim.Prelude.{
  subst, ℕ, zero, suc, String, ◌≡◌, refl, sym, ap, ◌∙◌, ◌≢◌, inl, inr, Bool, true, false, ◌||◌,
  Option, none, some, List, [], ◌∷◌, map, arith, str_eq, eq_iff, eq_refl, if◌then◌else◌, Bool-cases,
  Option-cases,
}
use inferno_sim.Prelude.Lists.{get_elem?, All, All-get_elem?, All_mono}
use inferno_sim.Prelude.Text.{is_empty_text, str_eq-true, str_eq-false}
use inferno_sim.Prelude.Dict.{Dict, lookup, put, lookup-put, has_key, member}
use inferno_sim.Matcher.Externals.{Library}
use inferno_sim.Matcher.Rules.{Request}
use inferno_sim.Scenario.{Step, Config, Engine, reset_states, reset, advance, match}
use inferno_sim.Scenario.States.{match-fires, match-configs, match-quiet, match-shape}

-- Every scenario of the engine has a state.
abbrev pub HasStates : Dict String → List Config → Type 0
HasStates states cfgs = All (λ cfg. has_key cfg.name states ≡ true) cfgs

has_key-put :
    (k j : String) (v : String) (m : Dict String)
    → has_key j (put k v m) ≡ (str_eq k j || has_key j m)
has_key-put k j v m =
    ap (λ (o : Option String). elim o [ none ↦ false | some x ↦ true ]) (lookup-put k j v m)
    ∙ shared (str_eq k j)
  where
    shared :
        (b : Bool)
        → elim (if b then some v else lookup j m) [ none ↦ false | some x ↦ true ]
          ≡ (b || has_key j m)
    shared true = refl
    shared false = refl

put-put : (k : String) (v w : String) (m : Dict String) → put k v (put k w m) ≡ put k v m
unfolding put
put-put k v w [] = rw (put, eq_refl k)
put-put k v w ((j, u) ∷ m) = elim (Bool-cases (str_eq j k)) [
  | inl e ↦ rw (e, put, eq_refl k)
  | inr e ↦ rw (e, put, e, put-put k v w m)
]

put-swap :
    (k j : String) (v w : String) (m : Dict String)
    → k ≢ j
    → has_key k m ≡ true
    → put j w (put k v m) ≡ put k v (put j w m)
unfolding put lookup
put-swap k j v w [] n h = absurd (cc)
put-swap k j v w ((i, u) ∷ m) n h = elim (Bool-cases (str_eq i k)) [
  | inl e ↦
      let other : str_eq i j ≡ false = ground (arith, eq_iff i k, eq_iff i j) in
      let other' : str_eq k j ≡ false = ground (arith, eq_iff k j) in rw (e, other, put, other', e)
  | inr e ↦ elim (Bool-cases (str_eq i j)) [
    | inl f ↦ let other : str_eq j k ≡ false = ground (arith, eq_iff j k) in rw (e, f, put, other)
    | inr f ↦ rw (e, f, put, e, put-swap k j v w m n (rw (e, has_key, lookup) at h))
  ]
]

-- What a put of a scenario's state does is undone by a reset.
reset_states-put :
    (k v : String) (states : Dict String) (cfgs : List Config)
    → member k (map (λ c. c.name) cfgs) ≡ true
    → has_key k states ≡ true
    → reset_states (put k v states) cfgs ≡ reset_states states cfgs
unfolding reset_states member
reset_states-put k v states [] m h = absurd (cc)
reset_states-put k v states (cfg ∷ cfgs) m h = elim (Bool-cases (str_eq cfg.name k)) [
  | inl e ↦
      let same : cfg.name ≡ k = str_eq-true cfg.name k e in
      ap (λ (d : Dict String). reset_states d cfgs)
        (subst
          (λ n.
            put cfg.name cfg.initial_state (put n v states) ≡ put cfg.name cfg.initial_state states)
          same (put-put cfg.name cfg.initial_state v states))
  | inr e ↦
      let swapped =
        put-swap k cfg.name v cfg.initial_state states (λ q. str_eq-false cfg.name k e (sym q)) h in
      let there : has_key k (put cfg.name cfg.initial_state states) ≡ true =
        ground (arith, has_key-put cfg.name k cfg.initial_state states) in
      ap (λ (d : Dict String). reset_states d cfgs) swapped
      ∙ reset_states-put k v (put cfg.name cfg.initial_state states) cfgs (rw (e, member) at m)
          there
]

member-name :
    (cfgs : List Config) (i : ℕ) (cfg : Config)
    → get_elem? cfgs i ≡ some cfg
    → member cfg.name (map (λ c. c.name) cfgs) ≡ true
unfolding member
member-name [] i cfg h = absurd (cc)
member-name (c ∷ cfgs) zero cfg h =
    subst
      (λ (x : Config).
        (if str_eq c.name x.name then true else member x.name (map (λ y. y.name) cfgs)) ≡ true)
      (some_inj h) (rw (eq_refl c.name))
  where
    some_inj : some c ≡ some cfg → c ≡ cfg
    some_inj q = cc
member-name (c ∷ cfgs) (suc i) cfg h = ground (arith, member-name cfgs i cfg h)

HasStates-put :
    (k v : String) (states : Dict String) (cfgs : List Config)
    → HasStates states cfgs
    → HasStates (put k v states) cfgs
HasStates-put k v states cfgs h =
    All_mono (λ cfg. has_key cfg.name states ≡ true)
      (λ cfg. has_key cfg.name (put k v states) ≡ true) cfgs
      (λ cfg e. ground (arith, has_key-put k cfg.name v states)) h

HasStates-advance :
    (states : Dict String) (cfg : Config) (s : Step) (cfgs : List Config)
    → HasStates states cfgs
    → HasStates (advance states cfg s) cfgs
HasStates-advance states cfg s cfgs h = elim (Bool-cases (is_empty_text s.next_state)) [
  | inl e ↦ rw e h
  | inr e ↦ rw e (HasStates-put cfg.name s.next_state states cfgs h)
]

reset_states-advance :
    (states : Dict String) (cfg : Config) (s : Step) (cfgs : List Config)
    → member cfg.name (map (λ c. c.name) cfgs) ≡ true
    → has_key cfg.name states ≡ true
    → reset_states (advance states cfg s) cfgs ≡ reset_states states cfgs
reset_states-advance states cfg s cfgs m h = elim (Bool-cases (is_empty_text s.next_state)) [
  | inl e ↦ rw e
  | inr e ↦ rw e (reset_states-put cfg.name s.next_state states cfgs m h)
]

-- A reset after a request gives the same engine as a reset before it, where every scenario has a
-- state; and it has one after the request, too.
pub reset-match :
    (lib : Library) (e : Engine) (req : Request) (body : String)
    → HasStates e.states e.configs
    → let after = (match lib e req body).0 in
      (reset after ≡ reset e) × HasStates after.states after.configs
unfolding reset
reset-match lib e req body h = elim (Option-cases (match lib e req body).1) [
  | inl quiet ↦
      subst (λ (x : Engine). (reset x ≡ reset e) × HasStates x.states x.configs)
        (sym (match-quiet lib e req body quiet)) (refl, h)
  | inr (a, p) ↦
      let f = match-fires lib e req body a p in
      let here = member-name e.configs f.place f.cfg f.there in
      let set' =
        All-get_elem? (λ cfg. has_key cfg.name e.states ≡ true) e.configs f.place h f.there in
      let states = (match lib e req body).0.states in
      let undone : reset_states states e.configs ≡ reset_states e.states e.configs =
        ap (λ (d : Dict String). reset_states d e.configs) f.advanced
        ∙ reset_states-advance e.states f.cfg f.step e.configs here set' in
      (
        ap reset (match-shape lib e req body)
            ∙ ap (λ (d : Dict String). record e { states = d }) undone,
        subst (λ cs. HasStates states cs) (sym (match-configs lib e req body))
            (subst (λ (d : Dict String). HasStates d e.configs) (sym f.advanced)
              (HasStates-advance e.states f.cfg f.step e.configs h)),
      )
]

HasStates-reset :
    (states : Dict String) (cfgs : List Config) (done : List Config)
    → HasStates states done
    → HasStates (reset_states states cfgs) done × HasStates (reset_states states cfgs) cfgs
unfolding reset_states
HasStates-reset states [] done h = (h, tt)
HasStates-reset states (cfg ∷ cfgs) done h =
    let (a, b) = HasStates-reset (put cfg.name cfg.initial_state states) cfgs (cfg ∷ done) (
      ground (arith, has_key-put cfg.name cfg.name cfg.initial_state states, eq_refl cfg.name),
      HasStates-put cfg.name cfg.initial_state states done h,
    ) in
    (a.1, (a.0, b))

-- A reset gives every scenario a state.
pub reset-HasStates : (e : Engine) → HasStates (reset e).states e.configs
unfolding reset
reset-HasStates e = (HasStates-reset e.states e.configs [] tt).1
