-- ===== src/Workflow/Embedding.antt =====
-- pkg/workflow/workflow.go, `VerifyIncident`: the search step by step against the sequences of
-- observations that a workflow can run through.
use inferno_sim.Prelude.{
  subst, ℕ, ◌+◌, ◌-◌, String, ◌≡◌, refl, sym, ◌∙◌, ◌⊎◌, inl, inr, Bool, true, false, ◌&&◌, Option,
  none, some, List, [], ◌∷◌, ◌++◌, arith, ltb, if◌then◌else◌, Bool-cases,
}
use inferno_sim.Prelude.Lists.{any}
use inferno_sim.Workflow.{
  Tools, Step, Config, Observation, Problem, Verdict, refused, passed, taken, Search, found,
  missing, matches, judge, search, Finding, missing_step, timing_drift, bound_of, first_nonempty,
  drift, verify_steps,
}

-- The steps happen among the observations in this order, each at an observation that the test takes
-- for it; observations in between may be anything.
pub data Embeds (Takes : Step → Observation → Bool) : List Step → List Observation → Type 0 where
  nothing_left : {os : List Observation} → Embeds Takes [] os
  later :
      {ss : List Step} {o : Observation} {os : List Observation}
      → Embeds Takes ss os
      → Embeds Takes ss (o ∷ os)
  here :
      {s : Step} {ss : List Step} {o : Observation} {os : List Observation}
      → Takes s o ≡ true
      → Embeds Takes ss os
      → Embeds Takes (s ∷ ss) (o ∷ os)

abbrev pub is_missing_step : Finding → Bool
is_missing_step (missing_step w p s n q) = true
is_missing_step (timing_drift s d b l) = false

abbrev pub is_taken : Verdict → Bool
is_taken (refused q) = false
is_taken passed = false
is_taken taken = true

-- The search stops at such an observation.
abbrev pub takes : Tools → String → String → Step → Observation → Bool
takes tools mode fixed s o = is_taken (if matches tools s o then judge mode fixed o else passed)

Verdict-cases : (v : Verdict) → (v ≡ taken) ⊎ ((v ≡ passed) ⊎ ((q : Problem) × (v ≡ refused q)))
Verdict-cases taken = inl refl
Verdict-cases passed = inr (inl refl)
Verdict-cases (refused q) = inr (inr (q, refl))

pub Search-cases :
    (r : Search)
    → ((k : ℕ) × (o : Observation) × (os : List Observation) × (r ≡ found k o os))
      ⊎ ((q : Option Problem) × (r ≡ missing q))
Search-cases (found k o os) = inl (k, o, os, refl)
Search-cases (missing q) = inr (q, refl)

module _ (tools : Tools) where
  pub search-taken :
      (mode fixed : String) (s : Step) (n : ℕ) (q : Option Problem) (o : Observation)
      (os : List Observation)
      → takes tools mode fixed s o ≡ true
      → search tools mode fixed s n q (o ∷ os) ≡ found n o os
  unfolding search
  search-taken mode fixed s n q o os h =
      elim (Verdict-cases (if matches tools s o then judge mode fixed o else passed)) [
        | inl e ↦ rw (e, search)
        | inr (inl e) ↦ absurd (false_not_true (rw e at h))
        | inr (inr (p, e)) ↦ absurd (false_not_true (rw e at h))
      ]
    where
      false_not_true : false ≡ true → ⊥
      false_not_true z = cc

  pub search-other :
      (mode fixed : String) (s : Step) (n : ℕ) (q : Option Problem) (o : Observation)
      (os : List Observation)
      → takes tools mode fixed s o ≡ false
      → (p : Option Problem) × (search tools mode fixed s n q (o ∷ os)
          ≡ search tools mode fixed s (n + 1) p os)
  unfolding search
  search-other mode fixed s n q o os h =
      elim (Verdict-cases (if matches tools s o then judge mode fixed o else passed)) [
        | inl e ↦ absurd (true_not_false (rw e at h))
        | inr (inl e) ↦ (q, rw (e, search))
        | inr (inr (p, e)) ↦ (some p, rw (e, search))
      ]
    where
      true_not_false : true ≡ false → ⊥
      true_not_false z = cc

no_step_behind :
    (Takes : Step → Observation → Bool) (s : Step) (ss : List Step) (os : List Observation)
    → Embeds Takes (s ∷ ss) os
    → Embeds Takes ss os
no_step_behind Takes s ss os (later r) = later (no_step_behind Takes s ss _ r)
no_step_behind Takes s ss os (here p r) = later r

pub found_inj :
    {k m : ℕ} {o p : Observation} {os ps : List Observation}
    → found k o os ≡ found m p ps
    → (o ≡ p) × (os ≡ ps)
found_inj h = ground arith

pub found-not-missing :
    {k : ℕ} {o : Observation} {os : List Observation} {q : Option Problem}
    → found k o os ≡ missing q
    → ⊥
found-not-missing h = cc

-- The search for one step, when it stops at exactly the observations that the test takes.
module _ (tools : Tools) (Takes : Step → Observation → Bool) (mode fixed : String) (s : Step)
    (agree : (o : Observation) → takes tools mode fixed s o ≡ Takes s o) where
  pub search-found :
      (n : ℕ) (q : Option Problem) (os : List Observation) (k : ℕ) (o : Observation)
      (rest : List Observation)
      → search tools mode fixed s n q os ≡ found k o rest
      → (Takes s o ≡ true)
        × ((ss : List Step) → Embeds Takes ss rest → Embeds Takes (s ∷ ss) os)
        × ((ss : List Step) → Embeds Takes (s ∷ ss) os → Embeds Takes ss rest)
  unfolding search
  search-found n q [] k o rest h = absurd (found-not-missing (sym h))
  search-found n q (c ∷ os) k o rest h = elim (Bool-cases (Takes s c)) [
    | inl e ↦
        let (e1, e2) =
          found_inj (sym (search-taken tools mode fixed s n q c os (agree c ∙ e)) ∙ h) in
        (
          subst (λ (x : Observation). Takes s x ≡ true) e1 e,
          λ ss r. here e (subst (λ (x : List Observation). Embeds Takes ss x) (sym e2) r),
          λ ss r. subst (λ (x : List Observation). Embeds Takes ss x) e2 (behind ss r),
        )
    | inr e ↦
        let (p, g) = search-other tools mode fixed s n q c os (agree c ∙ e) in
        let (t, into, out) = search-found (n + 1) p os k o rest (sym g ∙ h) in
        (t, λ ss r. later (into ss r), λ ss r. out ss (passed_over e ss r))
  ]
    where
      behind : (ss : List Step) → Embeds Takes (s ∷ ss) (c ∷ os) → Embeds Takes ss os
      behind ss (later r) = no_step_behind Takes s ss os r
      behind ss (here p r) = r

      passed_over :
          Takes s c ≡ false
          → (ss : List Step) → Embeds Takes (s ∷ ss) (c ∷ os)
          → Embeds Takes (s ∷ ss) os
      passed_over e ss (later r) = r
      passed_over e ss (here p r) = absurd (cc)

  pub search-missing :
      (n : ℕ) (q : Option Problem) (os : List Observation) (p : Option Problem) (ss : List Step)
      → search tools mode fixed s n q os ≡ missing p
      → Embeds Takes (s ∷ ss) os
      → ⊥
  search-missing n q [] p ss h r = elim r [ ]
  search-missing n q (c ∷ os) p ss h (later r) = elim (Bool-cases (Takes s c)) [
    | inl e ↦ found-not-missing (sym (search-taken tools mode fixed s n q c os (agree c ∙ e)) ∙ h)
    | inr e ↦
        let (u, g) = search-other tools mode fixed s n q c os (agree c ∙ e) in
        search-missing (n + 1) u os p ss (sym g ∙ h) r
  ]
  search-missing n q (c ∷ os) p ss h (here e r) =
      found-not-missing (sym (search-taken tools mode fixed s n q c os (agree c ∙ e)) ∙ h)

module _ (tools : Tools) where
  drift-quiet :
      (previous : ℕ) (s : Step) (o : Observation) (fs : List Finding)
      → any is_missing_step (drift tools previous s o ++ fs) ≡ any is_missing_step fs
  unfolding drift
  drift-quiet previous s o fs =
      elim (Bool-cases (
        ltb 0 previous
        && (ltb 0 (bound_of tools s) && ltb (bound_of tools s) (o.timestamp - previous)))) [
          | inl e ↦ rw (e, drift)
          | inr e ↦ rw (e, drift)
        ]

  pub verify-found :
      (c : Config) (fixed : String) (previous n : ℕ) (s : Step) (ss : List Step)
      (os : List Observation) (k : ℕ) (o : Observation) (rest : List Observation)
      → search tools c.correlation fixed s n none os ≡ found k o rest
      → any is_missing_step (verify_steps tools c fixed previous n (s ∷ ss) os)
        ≡ any is_missing_step
            (verify_steps tools c (first_nonempty fixed o.correlation) o.timestamp (k + 1) ss rest)
  unfolding verify_steps
  verify-found c fixed previous n s ss os k o rest h =
      rw (h, verify_steps) (drift-quiet previous s o _)

  pub verify-missing :
      (c : Config) (fixed : String) (previous n : ℕ) (s : Step) (ss : List Step)
      (os : List Observation) (q : Option Problem)
      → search tools c.correlation fixed s n none os ≡ missing q
      → any is_missing_step (verify_steps tools c fixed previous n (s ∷ ss) os) ≡ true
  unfolding verify_steps
  verify-missing c fixed previous n s ss os q h = rw (h, verify_steps)
