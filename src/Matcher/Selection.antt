-- ===== src/Matcher/Selection.antt =====
-- Which rule pkg/matcher/matcher.go applies to a request, and what a match by it has checked.
use inferno_sim.Prelude.Text.{
  equal_fold, folded, equal_fold-folded, folded-equal_fold, is_empty_text,
}
use inferno_sim.Prelude.{
  ℕ, zero, suc, ◌↔◌, eq_iff, [], false, Bool, ◌&&◌, ◌||◌, str_eq, ap, sym, subst, ◌∙◌, String, ◌≡◌,
  refl, ◌⊎◌, inl, inr, true, some, List, ◌∷◌, arith, Bool-cases, Option-cases,
}
use inferno_sim.Prelude.Lists.{get_elem?, take, All}
use inferno_sim.Prelude.Result.{ok, >>=-eq-ok}
use inferno_sim.Prelude.Dict.{Dict}
use inferno_sim.Json.{Json, json_path_value}
use inferno_sim.Matcher.Externals.{Library, Values}
use inferno_sim.Matcher.{
  selects, rule_for, check_queries, check_headers, check_values, value_matches, string_value,
  check_json_fields, request_host, match_one,
}
use mathlib.Core.Bool.{true≢false}
use inferno_sim.Matcher.Comparing.{first_value, some_fold, method_allowed}
use inferno_sim.Matcher.Rules.{Request, CompiledRule, Matcher, Reason, json_path_mismatch}

module _ (lib : Library) where
  -- One of the methods is the request's but for case.
  abbrev pub IsListed : String → List String → Type 0
  IsListed method ms =
      (m : String) × (i : ℕ) × (get_elem? ms i ≡ some m) × (folded m ≡ folded method)

  -- A rule's selectors, each empty or met by the request.
  pub record Selects (method host path : String) (cr : CompiledRule) : Type 0 where
    pub methods : (cr.rule.methods ≡ []) ⊎ IsListed method cr.rule.methods
    pub host_regex :
        (cr.rule.host_regex ≡ "") ⊎ (lib.matches cr.rule.host_regex (lib.strip_port host) ≡ true)
    pub path_regex : (cr.rule.path_regex ≡ "") ⊎ (lib.matches cr.rule.path_regex path ≡ true)
    pub grpc_method : (cr.rule.grpc_method ≡ "") ⊎ (cr.rule.grpc_method ≡ path)

  some_fold_iff :
      (ms : List String) (method : String) → (some_fold ms method ≡ true) ↔ IsListed method ms
  unfolding some_fold
  some_fold_iff [] method = (λ h. absurd (cc), λ (m, i, e, f). absurd (cc))
  some_fold_iff (m ∷ ms) method = elim (Bool-cases (equal_fold m method)) [
    | inl e ↦ (λ _. (m, 0, refl, equal_fold-folded m method e), λ _. rw e)
    | inr e ↦ (
      λ h. let (n, i, at, f) = (some_fold_iff ms method).0 (ground arith) in (n, suc i, at, f),
      later e (some_fold_iff ms method).1,
    )
  ]
    where
      later :
          equal_fold m method ≡ false
          → (IsListed method ms → some_fold ms method ≡ true)
          → IsListed method (m ∷ ms)
          → some_fold (m ∷ ms) method ≡ true
      later e back (n, zero, at, f) = absurd (cc (folded-equal_fold n method f))
      later e back (n, suc i, at, f) = rw e (back (n, i, at, f))

  allowed_iff :
      (ms : List String) (method : String)
      → (method_allowed ms method ≡ true) ↔ ((ms ≡ []) ⊎ IsListed method ms)
  unfolding method_allowed
  allowed_iff [] method = (λ _. inl refl, λ _. refl)
  allowed_iff (m ∷ ms) method = (λ h. inr ((some_fold_iff (m ∷ ms) method).0 h), back)
    where
      back : ((m ∷ ms ≡ []) ⊎ IsListed method (m ∷ ms)) → some_fold (m ∷ ms) method ≡ true
      back (inl e) = absurd (cc)
      back (inr l) = (some_fold_iff (m ∷ ms) method).1 l

  empty_or_iff : (s : String) (b : Bool) → ((is_empty_text s || b) ≡ true) ↔ ((s ≡ "") ⊎ (b ≡ true))
  empty_or_iff s b = (forth, back)
    where
      forth : (is_empty_text s || b) ≡ true → (s ≡ "") ⊎ (b ≡ true)
      forth h = ground (arith, eq_iff s "")

      back : ((s ≡ "") ⊎ (b ≡ true)) → (is_empty_text s || b) ≡ true
      back h = ground (arith, eq_iff s "")

  same_or_iff :
      (s path : String) → ((is_empty_text s || str_eq s path) ≡ true) ↔ ((s ≡ "") ⊎ (s ≡ path))
  same_or_iff s path = (forth, back)
    where
      forth : (is_empty_text s || str_eq s path) ≡ true → (s ≡ "") ⊎ (s ≡ path)
      forth h = ground (arith, eq_iff s "", eq_iff s path)

      back : ((s ≡ "") ⊎ (s ≡ path)) → (is_empty_text s || str_eq s path) ≡ true
      back h = ground (arith, eq_iff s "", eq_iff s path)

  all_four :
      (a b c d : Bool)
      → ((a && b && c && d) ≡ true) ↔ ((a ≡ true) × (b ≡ true) × (c ≡ true) × (d ≡ true))
  all_four a b c d = (λ h. ground arith, λ h. ground arith)

  selects-Selects :
      (method host path : String) (cr : CompiledRule)
      → (selects lib cr method host path ≡ true) ↔ Selects method host path cr
  unfolding selects method_allowed
  selects-Selects method host path cr =
      let host_test = lib.matches cr.rule.host_regex (lib.strip_port host) in
      let path_test = lib.matches cr.rule.path_regex path in
      let tests =
        all_four (method_allowed cr.rule.methods method)
          (is_empty_text cr.rule.host_regex || host_test)
          (is_empty_text cr.rule.path_regex || path_test)
          (is_empty_text cr.rule.grpc_method || str_eq cr.rule.grpc_method path) in
      (
        λ h.
            let (a, b, c, d) = tests.0 h in
            record {
              methods = (allowed_iff cr.rule.methods method).0 a;
              host_regex = (empty_or_iff cr.rule.host_regex host_test).0 b;
              path_regex = (empty_or_iff cr.rule.path_regex path_test).0 c;
              grpc_method = (same_or_iff cr.rule.grpc_method path).0 d;
            },
        λ x. tests.1 (
          (allowed_iff cr.rule.methods method).1 x.methods,
          (empty_or_iff cr.rule.host_regex host_test).1 x.host_regex,
          (empty_or_iff cr.rule.path_regex path_test).1 x.path_regex,
          (same_or_iff cr.rule.grpc_method path).1 x.grpc_method,
        ),
      )

  -- The rule that is applied is the first whose selectors are all empty or met: it stands in the
  -- list, its selectors are, and those of no rule before it are.
  pub rule_for-first :
      (crs : List CompiledRule) (method host path : String) (cr : CompiledRule)
      → rule_for lib crs method host path ≡ some cr
      → (i : ℕ) × (get_elem? crs i ≡ some cr)
        × Selects method host path cr
        × All (λ c. Selects method host path c → ⊥) (take i crs)
  unfolding rule_for
  rule_for-first [] method host path cr h = absurd (cc)
  rule_for-first (c ∷ crs) method host path cr h =
      elim (Bool-cases (selects lib c method host path)) [
        | inl e ↦
            let same : c ≡ cr = ground arith in
            (
              0,
              ap some same,
              (selects-Selects method host path cr).0
                  (subst (λ x. selects lib x method host path ≡ true) same e),
              tt,
            )
        | inr e ↦
            let (i, at, chosen, before) = rule_for-first crs method host path cr (ground arith) in
            let unmet : Selects method host path c → ⊥ =
              λ x. true≢false (sym ((selects-Selects method host path c).1 x) ∙ e) in
            (suc i, at, chosen, (unmet, before))
      ]

  abbrev pub QueryHolds : Values → String × String → Type 0
  QueryHolds query (name, pattern) = lib.matches pattern (first_value name query) ≡ true

  abbrev pub HeaderHolds : Values → String × String → Type 0
  HeaderHolds headers (name, pattern) =
      lib.matches pattern (first_value (lib.canonical name) headers) ≡ true

  -- The value at the path is there, and its text matches.
  abbrev pub ValueHolds : Json → String × String → Type 0
  ValueHolds root (path, pattern) =
      (v : Json) × (json_path_value root path ≡ some v)
      × (lib.matches pattern (string_value lib v) ≡ true)

  check_queries_sound :
      (query : Values) (m : Dict String)
      → check_queries lib query m ≡ ok tt
      → All (QueryHolds query) m
  unfolding check_queries
  check_queries_sound query [] h = tt
  check_queries_sound query ((name, pattern) ∷ m) h =
      (ground arith, check_queries_sound query m (ground arith))

  check_headers_sound :
      (headers : Values) (m : Dict String)
      → check_headers lib headers m ≡ ok tt
      → All (HeaderHolds headers) m
  unfolding check_headers
  check_headers_sound headers [] h = tt
  check_headers_sound headers ((name, pattern) ∷ m) h =
      (ground arith, check_headers_sound headers m (ground arith))

  value_holds :
      (root : Json) (path pattern : String)
      → value_matches lib root path pattern ≡ true
      → ValueHolds root (path, pattern)
  unfolding value_matches
  value_holds root path pattern h = elim (Option-cases (json_path_value root path)) [
    | inl e ↦ absurd (ground arith)
    | inr (v, e) ↦ (v, e, ground arith)
  ]

  check_values-sound :
      (why : String → Reason) (root : Json) (m : Dict String)
      → check_values lib why root m ≡ ok tt
      → All (ValueHolds root) m
  unfolding check_values
  check_values-sound why root [] h = tt
  check_values-sound why root ((path, pattern) ∷ m) h =
      (value_holds root path pattern (ground arith), check_values-sound why root m (ground arith))

  -- What a match of a scenario step's rule has checked.
  pub record HasMatched (m : Matcher) (req : Request) (body : String) : Type 0 where
    pub cr : CompiledRule
    pub chosen : rule_for lib m.rules req.method (request_host req) req.url.path ≡ some cr
    pub headers : All (HeaderHolds req.headers) cr.headers
    pub query : All (QueryHolds req.url.query) cr.rule.query_regex
    pub fields :
        (cr.rule.json_path_regex ≡ [])
        ⊎ ((root : Json) × (lib.unmarshal body ≡ some root)
            × All (ValueHolds root) cr.rule.json_path_regex)

  fields_sound :
      (cr : CompiledRule) (body : String)
      → check_json_fields lib cr body ≡ ok tt
      → (cr.rule.json_path_regex ≡ [])
        ⊎ ((root : Json) × (lib.unmarshal body ≡ some root)
            × All (ValueHolds root) cr.rule.json_path_regex)
  unfolding check_json_fields
  fields_sound cr body h = go cr.rule.json_path_regex refl
    where
      go :
          (l : Dict String)
          → cr.rule.json_path_regex ≡ l
          → (cr.rule.json_path_regex ≡ [])
            ⊎ ((root : Json) × (lib.unmarshal body ≡ some root)
                × All (ValueHolds root) cr.rule.json_path_regex)
      go [] e = inl e
      go (p ∷ ps) e = elim (Option-cases (lib.unmarshal body)) [
        | inl f ↦ absurd (ground arith)
        | inr (root, f) ↦ inr (root, f, check_values-sound json_path_mismatch root _ (ground arith))
      ]

  -- A scenario step matches a request only if one of its matcher's rules is chosen for it, and all
  -- of that rule's patterns hold: of the headers, of the query, and of the values in the JSON body,
  -- which must be there.
  pub match_one_sound :
      (m : Matcher) (req : Request) (body : String)
      → match_one lib m req body ≡ ok tt
      → HasMatched m req body
  unfolding match_one
  match_one_sound m req body h =
      elim (Option-cases (rule_for lib m.rules req.method (request_host req) req.url.path)) [
        | inl e ↦ absurd (cc (rw (e, match_one) at h))
        | inr (cr, e) ↦
            let (u, h1, g1) =
              >>=-eq-ok (check_headers lib req.headers cr.headers) _ (rw (e, match_one) at h) in
            let (v, h2, g2) =
              >>=-eq-ok (check_queries lib req.url.query cr.rule.query_regex) _ g1 in
            let (w, h3, g3) = >>=-eq-ok (check_json_fields lib cr body) _ g2 in
            record {
              cr = cr;
              chosen = e;
              headers = check_headers_sound req.headers cr.headers h1;
              query = check_queries_sound req.url.query cr.rule.query_regex h2;
              fields = fields_sound cr body h3;
            }
      ]
