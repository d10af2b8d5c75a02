-- ===== src/Driver/Readiness.antt =====
-- pkg/replaydriver/verify.go: what the counts and the score of `VerifyIncident` show of the events.
use inferno_sim.Prelude.{
  subst, ℕ, zero, suc, ◌+◌, String, ◌≡◌, refl, sym, ◌∙◌, ◌↔◌, inl, inr, Bool, true, false, ◌&&◌,
  Option, none, some, List, [], ◌∷◌, ◌++◌, arith, ltb, ◌==◌, if◌then◌else◌, Bool-cases,
  Option-cases,
}
use inferno_sim.Prelude.Lists.{count_if-append, get_elem?, take, count_if}
use mathlib.Core.List.{append-nil, append_assoc}
use inferno_sim.EventLog.{Event}
use inferno_sim.Driver.State.{
  Reader, ProducedValue, ConsumedValue, identify_consumers, bearer_token,
}
use inferno_sim.Driver.{is_side_effect}
use inferno_sim.Driver.Verification.{
  TokenReader, Issue, side_effect, is_missing_dep, is_produced, missing_issues, expired_issues,
  jwt_expiry, produced_by, issues_from, verify_events,
}

-- What a list of events produces.
unfoldable pub produced_by_all : Reader → List Event → List ProducedValue
produced_by_all reader [] = []
produced_by_all reader (e ∷ es) = produced_by reader e ++ produced_by_all reader es

abbrev pub all_produced : List ProducedValue → List ConsumedValue → Bool
all_produced known [] = true
all_produced known (c ∷ cs) = is_produced known c && all_produced known cs

missing_issues_count :
    (i : ℕ) (known : List ProducedValue) (cs : List ConsumedValue)
    → (count_if is_missing_dep (missing_issues i known cs) == 0) ≡ all_produced known cs
unfolding missing_issues
missing_issues_count i known [] = refl
missing_issues_count i known (c ∷ cs) = elim (Bool-cases (is_produced known c)) [
  | inl e ↦ rw e (missing_issues_count i known cs)
  | inr e ↦ rw e (ground arith)
]

expired_issues_count :
    (tokens : TokenReader) (i : ℕ) (e : Event)
    → count_if is_missing_dep (expired_issues tokens i e) ≡ 0
unfolding expired_issues
expired_issues_count tokens i e = elim (Option-cases (bearer_token e)) [
  | inl a ↦ rw (a, expired_issues)
  | inr (token, a) ↦ elim (Option-cases (jwt_expiry tokens token)) [
    | inl b ↦ rw (a, expired_issues, b)
    | inr (exp, b) ↦ elim (Bool-cases (ltb exp e.timestamp)) [
      | inl c ↦ rw (a, expired_issues, b, c)
      | inr c ↦ rw (a, expired_issues, b, c)
    ]
  ]
]

side_effect_count :
    (b : Bool) (i : ℕ) (m : String)
    → count_if is_missing_dep (if b then side_effect i m ∷ [] else []) ≡ 0
side_effect_count true i m = refl
side_effect_count false i m = refl

module _ (reader : Reader) (tokens : TokenReader) where
  -- Each event's consumed values are produced before it.
  abbrev Sourced : List ProducedValue → List Event → Type 0
  Sourced known [] = Unit
  Sourced known (e ∷ es) =
      (all_produced known (identify_consumers e) ≡ true)
      × Sourced (known ++ produced_by reader e) es

  issues_from-cons :
      (i : ℕ) (known : List ProducedValue) (e : Event) (es : List Event)
      → count_if is_missing_dep (issues_from reader tokens i known (e ∷ es))
        ≡ count_if is_missing_dep (missing_issues i known (identify_consumers e))
          + count_if is_missing_dep
              (issues_from reader tokens (i + 1) (known ++ produced_by reader e) es)
  unfolding issues_from
  issues_from-cons i known e es =
      let effects = if is_side_effect e.method then side_effect i e.method ∷ [] else [] in
      let missing = missing_issues i known (identify_consumers e) in
      let expired = expired_issues tokens i e in
      let rest = issues_from reader tokens (i + 1) (known ++ produced_by reader e) es in
      omega (
        arith,
        count_if-append is_missing_dep (effects ++ missing ++ expired) rest,
        count_if-append is_missing_dep (effects ++ missing) expired,
        count_if-append is_missing_dep effects missing,
        side_effect_count (is_side_effect e.method) i e.method,
        expired_issues_count tokens i e,
      )

  issues_from-Sourced :
      (i : ℕ) (known : List ProducedValue) (es : List Event)
      → (count_if is_missing_dep (issues_from reader tokens i known es) ≡ 0) ↔ Sourced known es
  unfolding issues_from
  issues_from-Sourced i known [] = (λ h. tt, λ h. refl)
  issues_from-Sourced i known (e ∷ es) =
      let cons = issues_from-cons i known e es in
      let here = missing_issues_count i known (identify_consumers e) in
      let (forth, back) = issues_from-Sourced (i + 1) (known ++ produced_by reader e) es in
      (
        λ h. (sym here ∙ ground (arith, cons, h), forth (omega (arith, cons, h))),
        λ h. omega (
          arith,
          cons,
          none_here (missing_issues i known (identify_consumers e)) (here ∙ h.0),
          back h.1,
        ),
      )
    where
      none_here :
          (ms : List Issue)
          → (count_if is_missing_dep ms == 0) ≡ true
          → count_if is_missing_dep ms ≡ 0
      none_here ms h = ground arith

  Sourced-places :
      (known : List ProducedValue) (es : List Event)
      → Sourced known es
      → (i : ℕ) (e : Event) → get_elem? es i ≡ some e
      → all_produced (known ++ produced_by_all reader (take i es)) (identify_consumers e) ≡ true
  unfolding produced_by_all
  Sourced-places known [] h i e there = absurd (none_not_some there)
    where
      none_not_some : ◌≡◌ {A = Option Event} none (some e) → ⊥
      none_not_some z = cc
  Sourced-places known (d ∷ es) (h, rest) zero e there =
      subst (λ (x : Event). all_produced (known ++ []) (identify_consumers x) ≡ true)
        (some_inj there)
        (subst (λ ks. all_produced ks (identify_consumers d) ≡ true) (sym (append-nil known)) h)
    where
      some_inj : some d ≡ some e → d ≡ e
      some_inj z = cc
  Sourced-places known (d ∷ es) (h, rest) (suc i) e there =
      subst (λ ks. all_produced ks (identify_consumers e) ≡ true)
        (append_assoc known (produced_by reader d) (produced_by_all reader (take i es)))
        (Sourced-places (known ++ produced_by reader d) es rest i e there)

  places-Sourced :
      (known : List ProducedValue) (es : List Event)
      → ((i : ℕ) (e : Event)
          → get_elem? es i ≡ some e
          → all_produced (known ++ produced_by_all reader (take i es)) (identify_consumers e)
            ≡ true)
      → Sourced known es
  unfolding produced_by_all
  places-Sourced known [] h = tt
  places-Sourced known (d ∷ es) h = (
    subst (λ ks. all_produced ks (identify_consumers d) ≡ true) (append-nil known) (h 0 d refl),
    places-Sourced (known ++ produced_by reader d) es (λ i e there.
        subst (λ ks. all_produced ks (identify_consumers e) ≡ true)
          (sym (append_assoc known (produced_by reader d) (produced_by_all reader (take i es))))
          (h (suc i) e there)),
  )

  -- The assessment names no missing dependency exactly when every value that a request consumes, as a
  -- bearer token or a cookie, was produced by the captured response of an event before it.
  pub verify_events-missing :
      (es : List Event)
      → ((verify_events reader tokens es).missing_deps ≡ 0) ↔ (
          (i : ℕ) (e : Event)
          → get_elem? es i ≡ some e
          → all_produced (produced_by_all reader (take i es)) (identify_consumers e) ≡ true)
  unfolding verify_events
  verify_events-missing es =
      let (forth, back) = issues_from-Sourced 1 [] es in
      (λ h. Sourced-places [] es (forth h), λ h. back (places-Sourced [] es h))
