-- ===== src/StubProxy/Matching.antt =====
-- Which captured event the proxy of pkg/stubproxy/stubproxy.go answers with.
use inferno_sim.Prelude.{
  subst, ℕ, zero, suc, ◌+◌, ◌<◌, String, ◌≡◌, sym, ap, ◌∙◌, inl, inr, Bool, true, false, ◌&&◌,
  Option, none, some, List, [], ◌∷◌, arith, ltb, ltb→lt, Bool-cases, Option-cases,
}
use inferno_sim.Prelude.Lists.{get_elem?}
use inferno_sim.Matcher.Externals.{Library}
use inferno_sim.Matcher.Rules.{Request}
use inferno_sim.StubProxy.{is_match, find_expected, match_expected}
use inferno_sim.StubProxy.State.{Event, Proxy, bump}

-- An event that the request does not match, or that is used up.
abbrev pub IsSkipped : Library → Proxy → Request → String → ℕ → Event → Type 0
IsSkipped lib p req body n e =
    (is_match lib p.matcher e req body && ltb (p.use_counts n) p.match_multiplier) ≡ false

-- The event is the first that the request matches and that is not used up, and its use is counted.
pub record IsExpected (lib : Library) (p : Proxy) (req : Request) (body : String) (e : Event)
    (q : Proxy) : Type 0 where
  pub index : ℕ
  pub there : get_elem? p.events index ≡ some e
  pub matched : is_match lib p.matcher e req body ≡ true
  pub usable : p.use_counts index < p.match_multiplier
  pub first :
      (j : ℕ) (d : Event) → j < index → get_elem? p.events j ≡ some d → IsSkipped lib p req body j d
  pub counted : q ≡ record p { use_counts = bump p.use_counts index }

module _ (lib : Library) where
  find_expected-some :
      (p : Proxy) (n : ℕ) (es : List Event) (req : Request) (body : String) (m : ℕ) (e : Event)
      → find_expected lib p n es req body ≡ some (m, e)
      → (k : ℕ) × (m ≡ n + k)
        × (get_elem? es k ≡ some e)
        × (is_match lib p.matcher e req body ≡ true)
        × (p.use_counts m < p.match_multiplier)
        × ((j : ℕ) (d : Event)
            → j < k
            → get_elem? es j ≡ some d
            → IsSkipped lib p req body (n + j) d)
  unfolding find_expected
  find_expected-some p n [] req body m e h = absurd (cc)
  find_expected-some p n (c ∷ es) req body m e h =
      elim (Bool-cases
        (is_match lib p.matcher c req body && ltb (p.use_counts n) p.match_multiplier)) [
          | inl g ↦
              let (x, y) =
                and_parts (is_match lib p.matcher c req body)
                  (ltb (p.use_counts n) p.match_multiplier) g in
              let (e1, e2) = pair_inj (rw (g, find_expected) at h) in
              (
                0,
                omega (arith, e1),
                ap some e2,
                subst (λ (d : Event). is_match lib p.matcher d req body ≡ true) e2 x,
                subst (λ (k : ℕ). p.use_counts k < p.match_multiplier) e1
                    (ltb→lt (p.use_counts n) p.match_multiplier y),
                λ j d l there. absurd (omega (arith, l)),
              )
          | inr g ↦
              let (k, e1, e2, e3, e4, e5) =
                find_expected-some p (n + 1) es req body m e (rw (g, find_expected) at h) in
              (suc k, omega (arith, e1), e2, e3, e4, before g e5)
        ]
    where
      and_parts : (a b : Bool) → (a && b) ≡ true → (a ≡ true) × (b ≡ true)
      and_parts a b h = ground arith

      pair_inj : ◌≡◌ {A = Option (ℕ × Event)} (some (n, c)) (some (m, e)) → (n ≡ m) × (c ≡ e)
      pair_inj q = ground arith

      some_inj : {d : Event} → some c ≡ some d → c ≡ d
      some_inj q = cc

      before :
          {k : ℕ}
          → (is_match lib p.matcher c req body && ltb (p.use_counts n) p.match_multiplier) ≡ false
          → ((j : ℕ) (d : Event)
              → j < k
              → get_elem? es j ≡ some d
              → IsSkipped lib p req body (n + 1 + j) d)
          → (j : ℕ) (d : Event) → j < suc k
          → get_elem? (c ∷ es) j ≡ some d
          → IsSkipped lib p req body (n + j) d
      before g e5 zero d l there =
          subst (λ (t : ℕ). IsSkipped lib p req body t d) (omega arith)
            (subst (λ (x : Event). IsSkipped lib p req body n x) (some_inj there) g)
      before g e5 (suc j) d l there =
          subst (λ (t : ℕ). IsSkipped lib p req body t d) (omega arith)
            (e5 j d (omega (arith, l)) there)

  -- The event that the proxy answers with is the first captured event that the request matches and
  -- that has uses left, and the proxy changes by that one use.
  pub match_expected-first :
      (p : Proxy) (req : Request) (body : String) (e : Event) (q : Proxy)
      → match_expected lib p req body ≡ some (e, q)
      → IsExpected lib p req body e q
  unfolding match_expected
  match_expected-first p req body e q h =
      elim (Option-cases (find_expected lib p 0 p.events req body)) [
        | inl g ↦ absurd (not_some (rw (g, match_expected) at h))
        | inr ((m, d), g) ↦
            let (k, e1, e2, e3, e4, e5) = find_expected-some p 0 p.events req body m d g in
            let place : m ≡ k = omega (arith, e1) in
            let (s1, s2) = pair_inj (rw (g, match_expected) at h) in
            record {
              index = m;
              there = ap (λ (t : ℕ). get_elem? p.events t) place ∙ (e2 ∙ ap some s1);
              matched = subst (λ (x : Event). is_match lib p.matcher x req body ≡ true) s1 e3;
              usable = e4;
              first = λ j c l there.
                  subst (λ (t : ℕ). IsSkipped lib p req body t c) (omega arith)
                    (e5 j c (omega (arith, l, e1)) there);
              counted = sym s2;
            }
      ]
    where
      not_some : ◌≡◌ {A = Option (Event × Proxy)} none (some (e, q)) → ⊥
      not_some z = cc

      pair_inj :
          {d : Event} {r : Proxy}
          → ◌≡◌ {A = Option (Event × Proxy)} (some (d, r)) (some (e, q))
          → (d ≡ e) × (r ≡ q)
      pair_inj z = ground arith
