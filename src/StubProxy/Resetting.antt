-- ===== src/StubProxy/Resetting.antt =====
-- A reset of the proxy of pkg/stubproxy/stubproxy.go undoes a run, and a run keeps the use counts
-- within the multiplier.
use inferno_sim.Prelude.{
  subst, ℕ, ◌+◌, ◌-◌, ◌≤◌, ◌<◌, String, ◌≡◌, refl, sym, ap, ◌∙◌, inl, inr, true, false, ◌&&◌,
  Option, none, some, List, [], ◌∷◌, arith, str_eq, ltb, ◌==◌, ==_iff, Bool-cases, Option-cases,
}
use inferno_sim.Prelude.Lists.{is_empty}
use inferno_sim.Prelude.Dict.{put}
use Prim.Native.String
use inferno_sim.Matcher.Externals.{Library}
use inferno_sim.Matcher.Rules.{Request}
use inferno_sim.Scenario.{match as match_scenarios}
use inferno_sim.Scenario.Resetting.{HasStates, reset-match}
use inferno_sim.StubProxy.Response.{Backend}
use inferno_sim.StubProxy.{dep_key, match_expected, serve_captured, serve_counted, serve, serve_all}
use inferno_sim.StubProxy.State.{Proxy, no_captured_call, too_many, count_of, bump, diverge, reset}
use inferno_sim.StubProxy.Matching.{match_expected-first}

-- No captured event is used more often than the multiplier says.
abbrev pub IsWithin : Proxy → Type 0
IsWithin p = (n : ℕ) → p.use_counts n ≤ p.match_multiplier

-- What stays through a run: a reset leads to the same proxy, every scenario has a state, and no event
-- is used too often.
abbrev Same : Proxy → Proxy → Type 0
Same p q = (reset q ≡ reset p) × HasStates q.scenarios.states q.scenarios.configs × IsWithin q

abbrev Starts : Proxy → Type 0
Starts p = HasStates p.scenarios.states p.scenarios.configs × IsWithin p

bump-within : (uses : ℕ → ℕ) (k m n : ℕ) → ((j : ℕ) → uses j ≤ m) → uses k < m → bump uses k n ≤ m
bump-within uses k m n h l = elim (Bool-cases (n == k)) [
  | inl e ↦
      let same : n ≡ k = (==_iff n k).0 e in
      let few : uses n < m = subst (λ (t : ℕ). uses t < m) (sym same) l in ground (arith, few)
  | inr e ↦ ground (arith, h n)
]

module _ (lib : Library) (b : Backend) where
  serve_captured-Same :
      (p : Proxy) (req : Request) (body : String)
      → Starts p
      → Same p (serve_captured lib p req body).0
  unfolding serve_captured reset
  serve_captured-Same p req body (h, w) = elim (Option-cases (match_expected lib p req body)) [
    | inl e ↦
        let same : (serve_captured lib p req body).0
            ≡ diverge p (no_captured_call (p.seen - 1) req) =
          rw (e, serve_captured) in
        subst (Same p) (sym same) (refl, h, w)
    | inr ((v, q), e) ↦
        let x = match_expected-first lib p req body v q e in
        let dep = dep_key lib req in
        let r : Proxy = record p {
          use_counts = bump p.use_counts x.index;
          attempts = put dep (count_of dep p.attempts + 1) p.attempts;
        } in
        let same : (serve_captured lib p req body).0
            ≡ record q { attempts = put dep (count_of dep q.attempts + 1) q.attempts } =
          rw (e, serve_captured) in
        let same' : (serve_captured lib p req body).0 ≡ r =
          same
          ∙ ap
              (λ (y : Proxy). record y {
                attempts = put dep (count_of dep y.attempts + 1) y.attempts;
              })
              x.counted in
        subst (Same p) (sym same')
          (refl, h, λ n. bump-within p.use_counts x.index p.match_multiplier n w x.usable)
  ]

  serve_counted-Same :
      (p : Proxy) (req : Request) (body : String)
      → Starts p
      → Same p (serve_counted lib b p req body).0
  unfolding serve_counted reset
  serve_counted-Same p req body (h, w) =
      elim (Bool-cases (ltb 0 p.max_seen && ltb p.max_seen p.seen)) [
        | inl g ↦
            let same : (serve_counted lib b p req body).0 ≡ diverge p (too_many (p.seen - 1)) =
              rw (g, serve_counted) in
            subst (Same p) (sym same) (refl, h, w)
        | inr g ↦ elim (Option-cases (match_scenarios lib p.scenarios req body).1) [
          | inr (a, k) ↦
              let same : (serve_counted lib b p req body).0 ≡ after = rw (g, k, serve_counted) in
              subst (Same p) (sym same) kept
          | inl k ↦ elim (Bool-cases (is_empty p.events)) [
            | inl i ↦
                let same : (serve_counted lib b p req body).0 ≡ after =
                  rw (g, k, i, serve_counted) in
                subst (Same p) (sym same) kept
            | inr i ↦
                let same : (serve_counted lib b p req body).0
                    ≡ (serve_captured lib after req body).0 =
                  rw (g, k, i, serve_counted) in
                let (r, s, t) = serve_captured-Same after req body (kept.1, w) in
                subst (Same p) (sym same) (r ∙ kept.0, s, t)
          ]
        ]
      ]
    where
      after : Proxy
      after = record p { scenarios = (match_scenarios lib p.scenarios req body).0 }

      kept : Same p after
      kept =
          let (x, y) = reset-match lib p.scenarios req body h in
          (ap (λ (z : _). record (reset p) { scenarios = z }) x, y, w)

  serve-Same :
      (p : Proxy) (req : Request) (body : Option String)
      → Starts p
      → Same p (serve lib b p req body).0
  unfolding serve reset
  serve-Same p req none s = elim (Bool-cases (str_eq req.method "CONNECT")) [
    | inl h ↦ subst (Same p) (sym (the_same h)) (refl, s.0, s.1)
    | inr h ↦ subst (Same p) (sym (unread h)) (refl, s.0, s.1)
  ]
    where
      the_same : str_eq req.method "CONNECT" ≡ true → (serve lib b p req none).0 ≡ p
      the_same h = rw (h, serve)

      unread : str_eq req.method "CONNECT" ≡ false → (serve lib b p req none).0 ≡ p
      unread h = rw (h, serve)
  serve-Same p req (some t) s = elim (Bool-cases (str_eq req.method "CONNECT")) [
    | inl h ↦
        let same : (serve lib b p req (some t)).0 ≡ p = rw (h, serve) in
        subst (Same p) (sym same) (refl, s.0, s.1)
    | inr h ↦ elim (Bool-cases (ltb 16777216 (String.count t))) [
      | inl g ↦
          let same : (serve lib b p req (some t)).0 ≡ p = rw (h, g, serve) in
          subst (Same p) (sym same) (refl, s.0, s.1)
      | inr g ↦
          let q : Proxy = record p { seen = p.seen + 1 } in
          let same : (serve lib b p req (some t)).0 ≡ (serve_counted lib b q req t).0 =
            rw (h, g, serve) in
          subst (Same p) (sym same) (serve_counted-Same q req t s)
    ]
  ]

  serve_all-Same :
      (p : Proxy) (rs : List (Request × Option String)) → Starts p → Same p (serve_all lib b p rs).0
  unfolding serve_all
  serve_all-Same p [] s = (refl, s.0, s.1)
  serve_all-Same p ((req, body) ∷ rs) s =
      let (x, y, u) = serve-Same p req body s in
      let (z, w, v) = serve_all-Same (serve lib b p req body).0 rs (y, u) in (z ∙ x, w, v)

  -- A run can be repeated: where every scenario has a state and no event is used too often, a reset
  -- after any run leads to the proxy that a reset before it leads to, so the same requests then get
  -- the same outcomes.
  pub serve_all-reset :
      (p : Proxy) (first second : List (Request × Option String))
      → HasStates p.scenarios.states p.scenarios.configs
      → IsWithin p
      → (reset (serve_all lib b p first).0 ≡ reset p)
        × ((serve_all lib b (reset (serve_all lib b p first).0) second).1
            ≡ (serve_all lib b (reset p) second).1)
  serve_all-reset p first second h w =
      let e = (serve_all-Same p first (h, w)).0 in
      (e, ap (λ (q : Proxy). (serve_all lib b q second).1) e)

  -- A run leaves no captured event used more often than the multiplier says, where none was before
  -- and every scenario has a state.
  pub serve_all-IsWithin :
      (p : Proxy) (rs : List (Request × Option String))
      → HasStates p.scenarios.states p.scenarios.configs
      → IsWithin p
      → IsWithin (serve_all lib b p rs).0
  serve_all-IsWithin p rs h w = (serve_all-Same p rs (h, w)).2
