-- ===== src/Workflow/Correlation.antt =====
-- pkg/workflow/workflow.go, `VerifyIncident`: what a workflow without a missing step shows of the
-- incident, for each mode of its correlation.
use inferno_sim.Prelude.{
  subst, ℕ, ◌+◌, String, ◌≡◌, refl, sym, ◌∙◌, ◌↔◌, inl, inr, Bool, true, false, not, ◌&&◌, ◌||◌,
  Option, none, List, [], ◌∷◌, arith, str_eq, eq_iff, eq_refl, Bool-cases,
}
use inferno_sim.Prelude.Lists.{any}
use inferno_sim.Prelude.Text.{is_empty_text, str_eq-true}
use inferno_sim.Workflow.{
  Tools, Step, Config, Observation, Problem, found, matches, judge, search, first_nonempty,
  verify_steps,
}
use inferno_sim.Workflow.Embedding.{
  Embeds, nothing_left, later, here, is_missing_step, is_taken, takes, Search-cases, search-found,
  search-missing, verify-found, verify-missing, found_inj, found-not-missing, search-taken,
  search-other,
}

-- The steps from some point on, while the correlation that is fixed stays one for which the search
-- stops at exactly the observations that the test takes.
module _ (tools : Tools) (c : Config) (Takes : Step → Observation → Bool) (IsGood : String → Type 0)
    (agree : (f : String) (s : Step) (o : Observation)
      → IsGood f
      → takes tools c.correlation f s o ≡ Takes s o)
    (keep : (f : String) (s : Step) (o : Observation)
      → IsGood f
      → Takes s o ≡ true
      → IsGood (first_nonempty f o.correlation)) where
  complete-Embeds :
      (ss : List Step) (os : List Observation) (f : String) (previous n : ℕ)
      → IsGood f
      → any is_missing_step (verify_steps tools c f previous n ss os) ≡ false
      → Embeds Takes ss os
  complete-Embeds [] os f previous n g h = nothing_left
  complete-Embeds (s ∷ ss) os f previous n g h =
      elim (Search-cases (search tools c.correlation f s n none os)) [
        | inl (k, o, rest, e) ↦
            let (t, into, out) =
              search-found tools Takes c.correlation f s (λ x. agree f s x g) n none os k o rest
                e in
            into ss (
              complete-Embeds ss rest (first_nonempty f o.correlation) o.timestamp (k + 1)
                (keep f s o g t) (sym (verify-found tools c f previous n s ss os k o rest e) ∙ h))
        | inr (q, e) ↦
            absurd (true_not_false (sym (verify-missing tools c f previous n s ss os q e) ∙ h))
      ]
    where
      true_not_false : true ≡ false → ⊥
      true_not_false z = cc

  Embeds-complete :
      (ss : List Step) (os : List Observation) (f : String) (previous n : ℕ)
      → IsGood f
      → Embeds Takes ss os
      → any is_missing_step (verify_steps tools c f previous n ss os) ≡ false
  unfolding verify_steps
  Embeds-complete [] os f previous n g r = refl
  Embeds-complete (s ∷ ss) os f previous n g r =
      elim (Search-cases (search tools c.correlation f s n none os)) [
        | inl (k, o, rest, e) ↦
            let (t, into, out) =
              search-found tools Takes c.correlation f s (λ x. agree f s x g) n none os k o rest
                e in
            verify-found tools c f previous n s ss os k o rest e
            ∙ Embeds-complete ss rest (first_nonempty f o.correlation) o.timestamp (k + 1)
                (keep f s o g t) (out ss r)
        | inr (q, e) ↦
            absurd
              (search-missing tools Takes c.correlation f s (λ x. agree f s x g) n none os q ss e r)
      ]

-- The mode asks for no correlation.
abbrev pub is_loose : String → Bool
is_loose mode = str_eq mode "" || str_eq mode "none"

judge-loose :
    (mode f : String) (o : Observation) → is_loose mode ≡ true → is_taken (judge mode f o) ≡ true
unfolding judge
judge-loose mode f o h = elim (Bool-cases (str_eq mode "")) [
  | inl e ↦ subst (λ m. is_taken (judge m f o) ≡ true) (sym (str_eq-true mode "" e)) refl
  | inr e ↦
      subst (λ m. is_taken (judge m f o) ≡ true) (sym (str_eq-true mode "none" (rw e at h))) refl
]

takes-loose :
    (tools : Tools) (mode f : String) (s : Step) (o : Observation)
    → is_loose mode ≡ true
    → takes tools mode f s o ≡ matches tools s o
takes-loose tools mode f s o h = elim (Bool-cases (matches tools s o)) [
  | inl e ↦ rw e (judge-loose mode f o h)
  | inr e ↦ rw e
]

-- A workflow that asks for no correlation has no missing step exactly when its steps happen in their
-- order among the observations: the search, which takes the first observation for each step, misses
-- no way in which they could have happened.
pub verify_steps-loose :
    (tools : Tools) (c : Config) (os : List Observation)
    → is_loose c.correlation ≡ true
    → (any is_missing_step (verify_steps tools c "" 0 0 c.steps os) ≡ false)
      ↔ Embeds (matches tools) c.steps os
verify_steps-loose tools c os h = (
  complete-Embeds tools c (matches tools) (λ f. Unit)
      (λ f s o g. takes-loose tools c.correlation f s o h) (λ f s o g t. tt) c.steps os "" 0 0 tt,
  Embeds-complete tools c (matches tools) (λ f. Unit)
      (λ f s o g. takes-loose tools c.correlation f s o h) (λ f s o g t. tt) c.steps os "" 0 0 tt,
)

-- The observation matches the step and carries this correlation.
abbrev pub carries : Tools → String → Step → Observation → Bool
carries tools id s o = matches tools s o && str_eq o.correlation id

module _ (tools : Tools) (c : Config) (required : c.correlation ≡ "required") where
  judge-fixed :
      (id : String) (o : Observation)
      → is_empty_text id ≡ false
      → is_taken (judge "required" id o) ≡ str_eq o.correlation id
  unfolding judge
  judge-fixed id o h = elim (Bool-cases (str_eq o.correlation id)) [
    | inl e ↦ ground (arith, eq_iff o.correlation id, eq_iff o.correlation "", eq_iff id "")
    | inr e ↦ ground (arith, eq_iff o.correlation "")
  ]

  takes-fixed :
      (id : String) (s : Step) (o : Observation)
      → is_empty_text id ≡ false
      → takes tools c.correlation id s o ≡ carries tools id s o
  takes-fixed id s o h =
      rw required
        (elim (Bool-cases (matches tools s o)) [ inl e ↦ rw e (judge-fixed id o h) | inr e ↦ rw e ])

  judge-first :
      (o : Observation) → is_taken (judge "required" "" o) ≡ not (is_empty_text o.correlation)
  unfolding judge
  judge-first o = elim (Bool-cases (is_empty_text o.correlation)) [ inl e ↦ rw e | inr e ↦ rw e ]

-- What the search finds is a place for the step, under any test that takes it there.
Embeds-found :
    (tools : Tools) (Takes : Step → Observation → Bool) (mode f : String) (s : Step)
    (ss : List Step) (n : ℕ) (q : Option Problem) (os : List Observation) (k : ℕ) (o : Observation)
    (rest : List Observation)
    → search tools mode f s n q os ≡ found k o rest
    → Takes s o ≡ true
    → Embeds Takes ss rest
    → Embeds Takes (s ∷ ss) os
unfolding search
Embeds-found tools Takes mode f s ss n q [] k o rest h t r = absurd (found-not-missing (sym h))
Embeds-found tools Takes mode f s ss n q (c ∷ os) k o rest h t r =
    elim (Bool-cases (takes tools mode f s c)) [
      | inl e ↦
          let (e1, e2) = found_inj (sym (search-taken tools mode f s n q c os e) ∙ h) in
          here (subst (λ (x : Observation). Takes s x ≡ true) (sym e1) t)
            (subst (λ (x : List Observation). Embeds Takes ss x) (sym e2) r)
      | inr e ↦
          let (p, g) = search-other tools mode f s n q c os e in
          later (Embeds-found tools Takes mode f s ss (n + 1) p os k o rest (sym g ∙ h) t r)
    ]

module _ (tools : Tools) (c : Config) (required : c.correlation ≡ "required") where
  -- Once a correlation is fixed, it stays.
  same_run :
      (id : String) (ss : List Step) (os : List Observation) (previous n : ℕ)
      → is_empty_text id ≡ false
      → any is_missing_step (verify_steps tools c id previous n ss os) ≡ false
      → Embeds (carries tools id) ss os
  same_run id ss os previous n e =
      complete-Embeds tools c (carries tools id) (λ f. f ≡ id)
        (λ f s o g. rw g (takes-fixed tools c required id s o e)) (λ f s o g t. rw (g, e)) ss os id
        previous n refl

  takes-first :
      (s : Step) (o : Observation)
      → takes tools c.correlation "" s o ≡ (matches tools s o && not (is_empty_text o.correlation))
  takes-first s o = rw required (elim (Bool-cases (matches tools s o)) [
    | inl e ↦ rw e (judge-first tools c required o)
    | inr e ↦ rw e
  ])

  one_run :
      (ss : List Step) (os : List Observation)
      → any is_missing_step (verify_steps tools c "" 0 0 ss os) ≡ false
      → (id : String) × (is_empty_text id ≡ false) × Embeds (carries tools id) ss os
  one_run [] os h = ("-", refl, nothing_left)
  one_run (s ∷ ss) os h = elim (Search-cases (search tools c.correlation "" s 0 none os)) [
    | inl (k, o, rest, e) ↦
        let (t, into, out) =
          search-found tools (λ x y. matches tools x y && not (is_empty_text y.correlation))
            c.correlation "" s (takes-first s) 0 none os k o rest e in
        let (m, nonempty) = parts (matches tools s o) (is_empty_text o.correlation) t in
        (
          o.correlation,
          nonempty,
          Embeds-found tools (carries tools o.correlation) c.correlation "" s ss 0 none os k o rest
              e (rw (m, eq_refl o.correlation))
              (same_run o.correlation ss rest o.timestamp (k + 1) nonempty
                (sym (verify-found tools c "" 0 0 s ss os k o rest e) ∙ h)),
        )
    | inr (q, e) ↦ absurd (true_not_false (sym (verify-missing tools c "" 0 0 s ss os q e) ∙ h))
  ]
    where
      true_not_false : true ≡ false → ⊥
      true_not_false z = cc

      parts : (a b : Bool) → (a && not b) ≡ true → (a ≡ true) × (b ≡ false)
      parts a b z = ground arith

-- A workflow that requires a correlation and has no missing step ran under one: its steps happen in
-- their order among the observations that carry one correlation that is not empty.
pub verify_steps-required :
    (tools : Tools) (c : Config) (os : List Observation)
    → c.correlation ≡ "required"
    → any is_missing_step (verify_steps tools c "" 0 0 c.steps os) ≡ false
    → (id : String) × (is_empty_text id ≡ false) × Embeds (carries tools id) c.steps os
verify_steps-required tools c os required = one_run tools c required c.steps os
