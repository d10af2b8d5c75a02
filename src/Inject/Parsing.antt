-- ===== src/Inject/Parsing.antt =====
-- What the rules that pkg/inject/inject.go reads are like.
use inferno_sim.Prelude.{
  subst, suc, String, ◌≡◌, refl, ap, ◌≢◌, inl, inr, false, not, List, [], ◌∷◌, arith, str_eq,
  if◌then◌else◌, Bool-cases,
}
use inferno_sim.Prelude.Lists.{length, is_empty, All}
use inferno_sim.Prelude.Int.{ℤ, pos, negsuc, ltb_ℤ}
use inferno_sim.Prelude.Result.{Result, ok, reject_if, >>=-eq-ok, reject_if-ok}
use inferno_sim.Prelude.Text.{is_empty_text, str_eq-false}
use inferno_sim.Prelude.Dict.{member}
use inferno_sim.Inject.{
  Formats, Rule, Error, bad_token, bad_latency, bad_timeout, bad_retries, negative_latency,
  timeout_not_positive, missing_dep, unsupported, fields, split_pair, trim_plus, or_error, set_key,
  parse_tokens, empty_rule, parse_flags, parse_rules,
}

-- No delay is negative, and the retry limit is a count or the -1 of no limit.
abbrev pub IsWithin : Rule → Type 0
IsWithin r =
    (ltb_ℤ r.add_latency (pos 0) ≡ false)
    × (ltb_ℤ r.timeout (pos 0) ≡ false)
    × (ltb_ℤ r.retry_limit (negsuc 0) ≡ false)

positive : (d : ℤ) → not (ltb_ℤ (pos 0) d) ≡ false → ltb_ℤ d (pos 0) ≡ false
positive (pos n) h = ground arith
positive (negsuc n) h = ground arith

counted : (d : ℤ) → ltb_ℤ d (pos 0) ≡ false → ltb_ℤ d (negsuc 0) ≡ false
counted (pos n) h = ground arith
counted (negsuc n) h = ground arith

ok_inj {ℓ κ} : {E : Type ℓ} {A : Type κ} {a b : A} → ◌≡◌ {A = Result E A} (ok a) (ok b) → a ≡ b
ok_inj p = cc

module _ (fmt : Formats) where
  set_key-IsWithin :
      (r : Rule) (unknown : List String) (k v : String) (q : Rule × List String)
      → IsWithin r
      → set_key fmt r unknown k v ≡ ok q
      → IsWithin q.0
  unfolding set_key
  set_key-IsWithin r unknown k v q (w1, w2, w3) h = elim (Bool-cases (str_eq k "dep")) [
    | inl e ↦ result (record r { dep = v }) unknown (rw (e, set_key) at h) (w1, w2, w3)
    | inr e ↦ elim (Bool-cases (str_eq k "latency")) [
      | inl f ↦
          let (d, a, h1) =
            >>=-eq-ok (or_error (bad_latency (trim_plus v)) (fmt.parse_duration (trim_plus v))) _
              (rw (e, f, set_key) at h) in
          let (_, b, h2) = >>=-eq-ok (reject_if (ltb_ℤ d (pos 0)) negative_latency) _ h1 in
          result (record r { add_latency = d }) unknown h2 (reject_if-ok _ _ b, w2, w3)
      | inr f ↦ elim (Bool-cases (str_eq k "timeout")) [
        | inl g ↦
            let (d, a, h1) =
              >>=-eq-ok (or_error (bad_timeout v) (fmt.parse_duration v)) _
                (rw (e, f, g, set_key) at h) in
            let (_, b, h2) =
              >>=-eq-ok (reject_if (not (ltb_ℤ (pos 0) d)) timeout_not_positive) _ h1 in
            result (record r { timeout = d }) unknown h2 (w1, positive d (reject_if-ok _ _ b), w3)
        | inr g ↦ elim (Bool-cases (str_eq k "retries")) [
          | inl i ↦
              let (n, a, h1) =
                >>=-eq-ok (or_error (bad_retries v) (fmt.atoi v)) _
                  (rw (e, f, g, i, set_key) at h) in
              let (_, b, h2) = >>=-eq-ok (reject_if (ltb_ℤ n (pos 0)) (bad_retries v)) _ h1 in
              result (record r { retry_limit = n }) unknown h2
                (w1, w2, counted n (reject_if-ok _ _ b))
          | inr i ↦
              result r (if member k unknown then unknown else k ∷ unknown)
                (rw (e, f, g, i, set_key) at h) (w1, w2, w3)
        ]
      ]
    ]
  ]
    where
      result :
          (r' : Rule) (unknown' : List String)
          → ◌≡◌ {A = Result Error (Rule × List String)} (ok (r', unknown')) (ok q)
          → IsWithin r'
          → IsWithin q.0
      result r' unknown' e w = subst (λ (p : Rule × List String). IsWithin p.0) (ok_inj e) w

  parse_tokens-IsWithin :
      (r : Rule) (unknown ps : List String) (q : Rule × List String)
      → IsWithin r
      → parse_tokens fmt r unknown ps ≡ ok q
      → IsWithin q.0
  unfolding parse_tokens
  parse_tokens-IsWithin r unknown [] q w h =
      subst (λ (p : Rule × List String). IsWithin p.0) (ok_inj h) w
  parse_tokens-IsWithin r unknown (p ∷ ps) q w h =
      let (kv, a, h1) = >>=-eq-ok (or_error (bad_token p) (split_pair p)) _ h in
      let (next, b, h2) = >>=-eq-ok (set_key fmt r unknown kv.0 kv.1) _ h1 in
      parse_tokens-IsWithin next.0 next.1 ps q (set_key-IsWithin r unknown kv.0 kv.1 next w b) h2

  parse_flags-ok :
      (unknown flags : List String) (q : List Rule × List String)
      → parse_flags fmt unknown flags ≡ ok q
      → (length q.0 ≡ length flags) × All (λ r. r.dep ≢ "") q.0 × All IsWithin q.0
  unfolding parse_flags
  parse_flags-ok unknown [] q h =
      subst
        (λ (p : List Rule × List String).
          (length p.0 ≡ 0) × All (λ r. r.dep ≢ "") p.0 × All IsWithin p.0)
        (ok_inj h) (refl, tt, tt)
  parse_flags-ok unknown (raw ∷ flags) q h =
      let (read, a, h1) = >>=-eq-ok (parse_tokens fmt empty_rule unknown (fields raw)) _ h in
      let (_, b, h2) = >>=-eq-ok (reject_if (is_empty_text read.0.dep) missing_dep) _ h1 in
      let (rest, c, h3) = >>=-eq-ok (parse_flags fmt read.1 flags) _ h2 in
      let (n, named, within) = parse_flags-ok read.1 flags rest c in
      subst
        (λ (p : List Rule × List String).
          (length p.0 ≡ suc (length flags)) × All (λ r. r.dep ≢ "") p.0 × All IsWithin p.0)
        (ok_inj h3)
        (
          ap suc n,
          (str_eq-false read.0.dep "" (reject_if-ok _ _ b), named),
          (parse_tokens-IsWithin empty_rule unknown (fields raw) read (refl, refl, refl) a, within),
        )

  -- Accepted flags give one rule each. Every rule names a dependency, its latency and its timeout are
  -- not negative, and its retry limit is at least -1.
  pub parse_rules-ok :
      (flags : List String) (rules : List Rule)
      → parse_rules fmt flags ≡ ok rules
      → (length rules ≡ length flags) × All (λ r. r.dep ≢ "") rules × All IsWithin rules
  unfolding parse_rules
  parse_rules-ok flags rules h =
      let (read, a, h1) = >>=-eq-ok (parse_flags fmt [] flags) _ h in
      let (_, b, h2) = >>=-eq-ok (reject_if (not (is_empty read.1)) (unsupported read.1)) _ h1 in
      subst
        (λ (rs : List Rule).
          (length rs ≡ length flags) × All (λ r. r.dep ≢ "") rs × All IsWithin rs)
        (ok_inj h2) (parse_flags-ok [] flags read a)
