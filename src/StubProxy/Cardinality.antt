-- ===== src/StubProxy/Cardinality.antt =====
-- How many calls the proxy of pkg/stubproxy/stubproxy.go lets through, and what it notes of the rest.
use inferno_sim.Prelude.{
  subst, ℕ, zero, suc, ◌+◌, ◌-◌, ◌*◌, ◌/◌, ◌%◌, ◌≤◌, ◌<◌, max, String, ◌≡◌, refl, sym, ap, ◌∙◌, inl,
  inr, Bool, true, false, not, ◌&&◌, ◌||◌, Option, none, some, List, [], ◌∷◌, arith, str_eq, ltb,
  leb, ◌==◌, if◌then◌else◌, leb→le, Bool-cases, Option-cases,
}
use inferno_sim.Prelude.Lists.{length, any, is_empty, count_if, length-append}
use inferno_sim.Prelude.Int.{pos, max_int64}
use inferno_sim.Prelude.Result.{Result-cases}
use inferno_sim.Prelude.Dict.{put}
use Prim.Native.String
use inferno_sim.Matcher.Externals.{Library}
use inferno_sim.Matcher.Rules.{Request}
use native.Mathlib.Nat.{div-add-mod', mod-lt, mul_comm}
use inferno_sim.Inject.{Rule, match as rule_of}
use inferno_sim.Scenario.{Answer, match as match_scenarios}
use inferno_sim.StubProxy.Response.{Backend}
use inferno_sim.StubProxy.{
  trim_brackets, dep_key, inject, replay_captured, render_answer, scenario_reply, match_expected,
  find_expected, serve_captured, serve_counted, serve_connect, serve, serve_all,
}
use inferno_sim.StubProxy.State.{
  Event, Divergence, Proxy, Outcome, failed, unexpected_call, no_captured_call, too_many,
  no_capture, bad_body, too_large, count_of, bump, configure_replay_cardinality, diverge,
}

times_pred : (k q : ℕ) → 0 < q → k * (q - 1) + k ≡ k * q
times_pred k zero h = omega arith
times_pred k (suc q) h = grind arith

covered :
    (k n q r : ℕ)
    → 0 < n
    → 0 < k
    → r < k
    → n + k - 1 ≤ max_int64
    → q * k + r ≡ n + k - 1
    → (n ≤ k * (if ltb 0 k && leb (n + k - 1) max_int64 then max q 1 else 1))
      × (k * ((if ltb 0 k && leb (n + k - 1) max_int64 then max q 1 else 1) - 1) < n)
covered k n zero r p h l b e = (ground arith, ground arith)
covered k n (suc q) r p h l b e = (
  ground (arith, mul_comm k (suc q)),
  ground (arith, mul_comm k (suc q), times_pred k (suc q) (omega arith)),
)

-- Where the maximum is positive, there is a captured event, and an int64 holds the maximum and the
-- number of events less one, a cycling run gets the least multiplier with which the events can be
-- used as often as the maximum says.
pub configure-suffices :
    (p : Proxy) (n : ℕ)
    → 0 < n
    → 0 < length p.events
    → n + length p.events - 1 ≤ max_int64
    → let q = configure_replay_cardinality true (pos n) p in
      (n ≤ length q.events * q.match_multiplier) × (length q.events * (q.match_multiplier - 1) < n)
unfolding configure_replay_cardinality
configure-suffices p n g h b =
    covered (length p.events) n ((n + length p.events - 1) / length p.events)
      ((n + length p.events - 1) % length p.events) g h (mod-lt (n + length p.events - 1) h) b
      (div-add-mod' (n + length p.events - 1) (length p.events))

-- A request is counted if it is not a `CONNECT` and its body is read and within the limit.
abbrev pub is_counted : Request × Option String → Bool
is_counted (req, none) = false
is_counted (req, some s) = not (str_eq req.method "CONNECT") && not (ltb 16777216 (String.count s))

abbrev pub is_refused : Outcome → Bool
is_refused (failed _ unexpected_call) = true
is_refused _ = false

-- What the counters after a counted request are.
abbrev Counters : Proxy → Proxy × Outcome → Type 0
Counters p r =
    (r.0.seen ≡ p.seen)
    × (r.0.max_seen ≡ p.max_seen)
    × (length r.0.divergences ≡ length p.divergences + (if is_refused r.1 then 1 else 0))
    × (r.0.unexpected ≡ (p.unexpected || is_refused r.1))

-- What a request does to the counters, and that a counted one over the limit is refused.
abbrev Stepped : Proxy → Bool → Proxy × Outcome → Type 0
Stepped p counted r =
    (r.0.seen ≡ p.seen + (if counted then 1 else 0))
    × (r.0.max_seen ≡ p.max_seen)
    × (length r.0.divergences ≡ length p.divergences + (if is_refused r.1 then 1 else 0))
    × (r.0.unexpected ≡ (p.unexpected || is_refused r.1))
    × (0 < p.max_seen → p.max_seen ≤ p.seen → counted ≡ true → is_refused r.1 ≡ true)

or_false : (b : Bool) → b ≡ (b || false)
or_false true = refl
or_false false = refl

or_true : (b : Bool) → true ≡ (b || true)
or_true true = refl
or_true false = refl

quiet :
    (p q : Proxy) (o : Outcome)
    → q.seen ≡ p.seen
    → q.max_seen ≡ p.max_seen
    → q.divergences ≡ p.divergences
    → q.unexpected ≡ p.unexpected
    → is_refused o ≡ false
    → Counters p (q, o)
quiet p q o e1 e2 e3 e4 h = (
  e1,
  e2,
  ground (arith, ap (λ (ds : List Divergence). length ds) e3),
  rw h (e4 ∙ or_false p.unexpected),
)

uncounted : (p : Proxy) (o : Outcome) → is_refused o ≡ false → Stepped p false (p, o)
uncounted p o h =
    (omega arith, refl, ground arith, rw h (or_false p.unexpected), λ _ _ z. absurd (cc))

grouped : (a b c : Bool) {x y : Bool} → x ≡ (a || b) → y ≡ (x || c) → y ≡ (a || (b || c))
grouped a b c {x} {y} e f = ground (arith, e, f)

bound_step :
    (s t m k n out : ℕ) (c r : Bool)
    → t ≡ s + (if c then 1 else 0)
    → k ≡ m
    → (m ≤ s → c ≡ true → r ≡ true)
    → t + n ≤ max t k + out
    → s + ((if c then 1 else 0) + n) ≤ max s m + ((if r then 1 else 0) + out)
bound_step s t m k n out true true e f l h = ground arith
bound_step s t m k n out true false e f l h = elim (Bool-cases (leb m s)) [
  | inl g ↦ absurd (true≢false' (sym (l (leb→le m s g) refl)))
  | inr g ↦ ground arith
]
  where
    true≢false' : true ≡ false → ⊥
    true≢false' p = cc
bound_step s t m k n out false true e f l h = ground arith
bound_step s t m k n out false false e f l h = ground arith

noted : (p : Proxy) (d : Divergence) (n : ℕ) → Counters p (diverge p d, failed n unexpected_call)
noted p d n = (refl, refl, length-append p.divergences (d ∷ []), or_true p.unexpected)

module _ (lib : Library) (b : Backend) where
  replay_captured-quiet :
      (e : Event) (req : Request) → is_refused (replay_captured lib e req) ≡ false
  unfolding replay_captured
  replay_captured-quiet e req = elim (Bool-cases (e.status == 0)) [
    | inl h ↦ rw (h, replay_captured)
    | inr h ↦ elim (Option-cases (lib.decode e.response_body_b64)) [
      | inl g ↦ rw (h, g, replay_captured)
      | inr (s, g) ↦ rw (h, g, replay_captured)
    ]
  ]

  inject-quiet :
      (rule : Option Rule) (n : ℕ) (e : Event) (req : Request)
      → is_refused (inject lib rule n e req) ≡ false
  unfolding inject
  inject-quiet none n e req = replay_captured-quiet e req
  inject-quiet (some rule) n e req = ground (arith, replay_captured-quiet e req)

  scenario_reply-quiet :
      (a : Answer) (req : Request) (body : String)
      → is_refused (scenario_reply lib b a req body) ≡ false
  scenario_reply-quiet a req body = elim (Result-cases (render_answer lib b a req body)) [
    | inl (r, e) ↦ rw (e, is_refused)
    | inr (x, e) ↦ rw (e, is_refused)
  ]

  serve_captured-Counters :
      (p : Proxy) (req : Request) (body : String) → Counters p (serve_captured lib p req body)
  unfolding serve_captured match_expected
  serve_captured-Counters p req body =
      elim (Option-cases (find_expected lib p 0 p.events req body)) [
        | inl e ↦
            let same : serve_captured lib p req body
                ≡ (diverge p (no_captured_call (p.seen - 1) req), failed 502 unexpected_call) =
              rw (e, serve_captured, match_expected) in
            subst (Counters p) (sym same) (noted p (no_captured_call (p.seen - 1) req) 502)
        | inr ((n, v), e) ↦
            let dep = dep_key lib req in
            let attempt = count_of dep p.attempts + 1 in
            let q = record p {
              use_counts = bump p.use_counts n;
              attempts = put dep attempt p.attempts;
            } in
            let same : serve_captured lib p req body
                ≡ (q, inject lib (rule_of dep p.rules) attempt v req) =
              rw (e, serve_captured, match_expected) in
            subst (Counters p) (sym same) (
              quiet p q (inject lib (rule_of dep p.rules) attempt v req) refl refl refl refl
                (inject-quiet (rule_of dep p.rules) attempt v req))
      ]

  serve_counted-Counters :
      (p : Proxy) (req : Request) (body : String) → Counters p (serve_counted lib b p req body)
  unfolding serve_counted
  serve_counted-Counters p req body =
      elim (Bool-cases (ltb 0 p.max_seen && ltb p.max_seen p.seen)) [
        | inl h ↦ subst (Counters p) (sym (over h)) (noted p (too_many (p.seen - 1)) 502)
        | inr h ↦ elim (Option-cases (match_scenarios lib p.scenarios req body).1) [
          | inr (a, g) ↦ subst (Counters p) (sym (answered h g)) (
              quiet p after (scenario_reply lib b a req body) refl refl refl refl
                (scenario_reply-quiet a req body))
          | inl g ↦ elim (Bool-cases (is_empty p.events)) [
            | inl i ↦
                subst (Counters p) (sym (nothing h g i))
                  (quiet p after (failed 502 no_capture) refl refl refl refl refl)
            | inr i ↦
                subst (Counters p) (sym (captured h g i)) (serve_captured-Counters after req body)
          ]
        ]
      ]
    where
      after : Proxy
      after = record p { scenarios = (match_scenarios lib p.scenarios req body).0 }

      over :
          (ltb 0 p.max_seen && ltb p.max_seen p.seen) ≡ true
          → serve_counted lib b p req body
            ≡ (diverge p (too_many (p.seen - 1)), failed 502 unexpected_call)
      over h = rw (h, serve_counted)

      answered :
          {a : Answer}
          → (ltb 0 p.max_seen && ltb p.max_seen p.seen) ≡ false
          → (match_scenarios lib p.scenarios req body).1 ≡ some a
          → serve_counted lib b p req body ≡ (after, scenario_reply lib b a req body)
      answered h g = rw (h, g, serve_counted)

      nothing :
          (ltb 0 p.max_seen && ltb p.max_seen p.seen) ≡ false
          → (match_scenarios lib p.scenarios req body).1 ≡ none
          → is_empty p.events ≡ true
          → serve_counted lib b p req body ≡ (after, failed 502 no_capture)
      nothing h g i = rw (h, g, i, serve_counted)

      captured :
          (ltb 0 p.max_seen && ltb p.max_seen p.seen) ≡ false
          → (match_scenarios lib p.scenarios req body).1 ≡ none
          → is_empty p.events ≡ false
          → serve_counted lib b p req body ≡ serve_captured lib after req body
      captured h g i = rw (h, g, i, serve_counted)

  serve_counted-over :
      (p : Proxy) (req : Request) (body : String)
      → 0 < p.max_seen
      → p.max_seen < p.seen
      → is_refused (serve_counted lib b p req body).1 ≡ true
  unfolding serve_counted
  serve_counted-over p req body h1 h2 =
      let over : (ltb 0 p.max_seen && ltb p.max_seen p.seen) ≡ true = ground arith in
      rw (over, serve_counted)

  serve_connect-quiet : (p : Proxy) (req : Request) → is_refused (serve_connect lib b p req) ≡ false
  unfolding serve_connect
  serve_connect-quiet p req = elim (Option-cases p.tls_hosts) [
    | inl e ↦ rw (e, serve_connect)
    | inr (f, e) ↦ elim (Bool-cases (f (trim_brackets (lib.strip_port req.host)))) [
      | inl g ↦ rw (e, g, serve_connect)
      | inr g ↦ rw (e, g, serve_connect)
    ]
  ]

  serve-Stepped :
      (p : Proxy) (req : Request) (body : Option String)
      → Stepped p (is_counted (req, body)) (serve lib b p req body)
  unfolding serve
  serve-Stepped p req none = elim (Bool-cases (str_eq req.method "CONNECT")) [
    | inl h ↦
        let same : serve lib b p req none ≡ (p, serve_connect lib b p req) = rw (h, serve) in
        subst (Stepped p false) (sym same)
          (uncounted p (serve_connect lib b p req) (serve_connect-quiet p req))
    | inr h ↦
        let same : serve lib b p req none ≡ (p, failed 400 bad_body) = rw (h, serve) in
        subst (Stepped p false) (sym same) (uncounted p (failed 400 bad_body) refl)
  ]
  serve-Stepped p req (some s) = elim (Bool-cases (str_eq req.method "CONNECT")) [
    | inl h ↦
        let same : serve lib b p req (some s) ≡ (p, serve_connect lib b p req) = rw (h, serve) in
        let none' : is_counted (req, some s) ≡ false = rw (h, is_counted) in
        subst (Stepped p (is_counted (req, some s))) (sym same) (
          subst (λ c. Stepped p c (p, serve_connect lib b p req)) (sym none')
            (uncounted p (serve_connect lib b p req) (serve_connect-quiet p req)))
    | inr h ↦ elim (Bool-cases (ltb 16777216 (String.count s))) [
      | inl g ↦
          let same : serve lib b p req (some s) ≡ (p, failed 413 too_large) = rw (h, g, serve) in
          let none' : is_counted (req, some s) ≡ false = rw (h, g, is_counted) in
          subst (Stepped p (is_counted (req, some s))) (sym same) (
            subst (λ c. Stepped p c (p, failed 413 too_large)) (sym none')
              (uncounted p (failed 413 too_large) refl))
      | inr g ↦
          let q : Proxy = record p { seen = p.seen + 1 } in
          let same : serve lib b p req (some s) ≡ serve_counted lib b q req s = rw (h, g, serve) in
          let one : is_counted (req, some s) ≡ true = rw (h, g, is_counted) in
          let (a, c, d, e) = serve_counted-Counters q req s in
          subst (Stepped p (is_counted (req, some s))) (sym same) (
            subst (λ t. Stepped p t (serve_counted lib b q req s)) (sym one)
              (a, c, d, e, λ h1 h2 _. serve_counted-over q req s h1 (omega (arith, h2))))
    ]
  ]

  serve_all-bound :
      (p : Proxy) (rs : List (Request × Option String))
      → 0 < p.max_seen
      → p.seen + count_if is_counted rs
        ≤ max p.seen p.max_seen + count_if is_refused (serve_all lib b p rs).1
  unfolding serve_all
  serve_all-bound p [] h = omega arith
  serve_all-bound p ((req, body) ∷ rs) h =
      let (a, c, d, e, l) = serve-Stepped p req body in
      let q = (serve lib b p req body).0 in
      bound_step p.seen q.seen p.max_seen q.max_seen (count_if is_counted rs)
        (count_if is_refused (serve_all lib b q rs).1) (is_counted (req, body))
        (is_refused (serve lib b p req body).1) a c (l h)
        (serve_all-bound q rs (subst (λ (m : ℕ). 0 < m) (sym c) h))

  -- The numbers that a snapshot shows after a run: each counted request is observed, each refused
  -- one is a divergence, and the flag is set when there was one.
  pub serve_all_counts :
      (p : Proxy) (rs : List (Request × Option String))
      → let r = serve_all lib b p rs in
        (r.0.seen ≡ p.seen + count_if is_counted rs)
        × (length r.0.divergences ≡ length p.divergences + count_if is_refused r.1)
        × (r.0.unexpected ≡ (p.unexpected || any is_refused r.1))
  unfolding serve_all
  serve_all_counts p [] = (omega arith, omega arith, or_false p.unexpected)
  serve_all_counts p ((req, body) ∷ rs) =
      let (a, c, d, e, l) = serve-Stepped p req body in
      let q = (serve lib b p req body).0 in
      let (ia, id, ie) = serve_all_counts q rs in
      (
        ground (arith, a, ia),
        ground (arith, d, id),
        grouped p.unexpected (is_refused (serve lib b p req body).1)
            (any is_refused (serve_all lib b q rs).1) e ie,
      )

  -- In a run from the start with a maximum, at most as many of the counted requests as the maximum
  -- are not refused.
  pub serve_all-limit :
      (p : Proxy) (rs : List (Request × Option String))
      → p.seen ≡ 0
      → 0 < p.max_seen
      → count_if is_counted rs ≤ p.max_seen + count_if is_refused (serve_all lib b p rs).1
  serve_all-limit p rs h0 h = omega (arith, serve_all-bound p rs h)
