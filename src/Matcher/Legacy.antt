-- ===== src/Matcher/Legacy.antt =====
-- The matching of pkg/matcher/matcher.go where no rule is configured.
use inferno_sim.Prelude.{
  subst, ◌≡◌, refl, sym, ap, ◌∙◌, ◌≢◌, ◌↔◌, ◌⊎◌, String, inl, inr, true, false, none, some, [],
  arith, eq_iff, if◌then◌else◌, Bool-cases, Option-cases,
}
use inferno_sim.Prelude.Result.{ok, err}
use inferno_sim.Prelude.Text.{equal_fold, is_empty_text, str_eq-true}
use inferno_sim.Matcher.Hosts.{SameHost, equal_host_iff}
use inferno_sim.Matcher.Queries.{SameQuery, equal_query_iff}
use inferno_sim.Prelude.Text.{folded, equal_fold-folded, folded-equal_fold, str_eq-false}
use inferno_sim.Matcher.Externals.{Library, Url}
use inferno_sim.Matcher.{rule_for, match_exact, request_host, match}
use inferno_sim.Matcher.Comparing.{equal_host, escaped_path, equal_query}
use inferno_sim.Matcher.Rules.{
  Request, Captured, Config, Matcher, bad_captured_url, method_mismatch,
}

-- A text, or another where it is empty.
abbrev pub IsFirst : String → String → String → Type 0
IsFirst a b c = ((a ≡ "") × (c ≡ b)) ⊎ ((a ≢ "") × (c ≡ a))

IsFirst-text : (a b : String) → IsFirst a b (if is_empty_text a then b else a)
IsFirst-text a b = elim (Bool-cases (is_empty_text a)) [
  | inl e ↦ rw e (inl (str_eq-true a "" e, refl))
  | inr e ↦ rw e (inr (str_eq-false a "" e, refl))
]

IsFirst-unique : (a b c : String) → IsFirst a b c → (if is_empty_text a then b else a) ≡ c
IsFirst-unique a b c (inl (e, f)) = ground (arith, eq_iff a "")
IsFirst-unique a b c (inr (e, f)) = ground (arith, eq_iff a "")

-- Two URLs have the same escaped path, where an empty one is the root.
abbrev pub SamePath : Url → Url → Type 0
SamePath u v = (path : String) × IsFirst u.escaped_path "/" path × IsFirst v.escaped_path "/" path

-- What a match without rules comes down to. The request's host is that of its URL, or the one that
-- its `Host` header names where the URL has none.
pub record IsExact (lib : Library) (cfg : Config) (captured : Captured) (req : Request)
    : Type 0 where
  pub url : Url
  pub parsed : lib.parse_url captured.url ≡ some url
  pub same_method : folded req.method ≡ folded captured.method
  pub host : String
  pub named : IsFirst req.url.host req.host host
  pub same_host : SameHost host url.host
  pub same_path : SamePath req.url url
  pub same_query : SameQuery req.url.query url.query cfg.ignored_query_parameters

SamePath-of_eq : (u v : Url) → escaped_path u ≡ escaped_path v → SamePath u v
SamePath-of_eq u v e = (
  escaped_path u,
  IsFirst-text u.escaped_path "/",
  subst (IsFirst v.escaped_path "/") (sym e) (IsFirst-text v.escaped_path "/"),
)

SamePath-eq : (u v : Url) → SamePath u v → escaped_path u ≡ escaped_path v
SamePath-eq u v (path, a, b) =
    IsFirst-unique u.escaped_path "/" path a ∙ sym (IsFirst-unique v.escaped_path "/" path b)

exact_parts :
    (cfg : Config) (req : Request) (host : String) (url : Url)
    → match_exact cfg req host url ≡ ok tt
    → (equal_host host url.host ≡ true)
      × (escaped_path req.url ≡ escaped_path url)
      × (equal_query req.url.query url.query cfg.ignored_query_parameters ≡ true)
unfolding match_exact
exact_parts cfg req host url h = ground (arith, eq_iff (escaped_path req.url) (escaped_path url))

exact_ok :
    (cfg : Config) (req : Request) (host : String) (url : Url)
    → equal_host host url.host ≡ true
    → escaped_path req.url ≡ escaped_path url
    → equal_query req.url.query url.query cfg.ignored_query_parameters ≡ true
    → match_exact cfg req host url ≡ ok tt
unfolding match_exact
exact_ok cfg req host url a b d = ground (arith, eq_iff (escaped_path req.url) (escaped_path url))

module _ (lib : Library) (m : Matcher) (no_rules : m.rules ≡ []) where
  match-step :
      (captured : Captured) (req : Request) (body : String) (url : Url)
      → lib.parse_url captured.url ≡ some url
      → equal_fold req.method captured.method ≡ true
      → match lib m captured req body ≡ match_exact m.config req (request_host req) url
  unfolding match rule_for
  match-step captured req body url p q = rw (p, q, no_rules)

  match-unparsed :
      (captured : Captured) (req : Request) (body : String)
      → lib.parse_url captured.url ≡ none
      → match lib m captured req body ≡ err bad_captured_url
  unfolding match
  match-unparsed captured req body e = rw e

  match-other_method :
      (captured : Captured) (req : Request) (body : String) (url : Url)
      → lib.parse_url captured.url ≡ some url
      → equal_fold req.method captured.method ≡ false
      → match lib m captured req body ≡ err method_mismatch
  unfolding match
  match-other_method captured req body url e f = rw (e, f)

  -- Without rules a request matches a captured call exactly if the captured URL can be read, the
  -- methods agree but for case, the hosts agree but for case, an ending `:80` and then an ending `:443`, the
  -- escaped paths are the same, with an empty one as the root, and every query parameter that is not
  -- ignored has the same values in the same order.
  pub match-IsExact_iff :
      (captured : Captured) (req : Request) (body : String)
      → (match lib m captured req body ≡ ok tt) ↔ IsExact lib m.config captured req
  match-IsExact_iff captured req body = (forth, back)
    where
      forth : match lib m captured req body ≡ ok tt → IsExact lib m.config captured req
      forth h = elim (Option-cases (lib.parse_url captured.url)) [
        | inl e ↦ absurd (cc (match-unparsed captured req body e))
        | inr (url, e) ↦ elim (Bool-cases (equal_fold req.method captured.method)) [
          | inr f ↦ absurd (cc (match-other_method captured req body url e f))
          | inl f ↦
              let (a, b, d) =
                exact_parts m.config req (request_host req) url
                  (sym (match-step captured req body url e f) ∙ h) in
              record {
                url = url;
                parsed = e;
                same_method = equal_fold-folded req.method captured.method f;
                host = request_host req;
                named = IsFirst-text req.url.host req.host;
                same_host = (equal_host_iff (request_host req) url.host).0 a;
                same_path = SamePath-of_eq req.url url b;
                same_query =
                    (equal_query_iff req.url.query url.query m.config.ignored_query_parameters).0 d;
              }
        ]
      ]

      back : IsExact lib m.config captured req → match lib m captured req body ≡ ok tt
      back x =
          let host : request_host req ≡ x.host =
            IsFirst-unique req.url.host req.host x.host x.named in
          let same_host : equal_host (request_host req) x.url.host ≡ true =
            ap (λ h. equal_host h x.url.host) host
            ∙ (equal_host_iff x.host x.url.host).1 x.same_host in
          match-step captured req body x.url x.parsed
            (folded-equal_fold req.method captured.method x.same_method)
          ∙ exact_ok m.config req (request_host req) x.url same_host
              (SamePath-eq req.url x.url x.same_path)
              ((equal_query_iff req.url.query x.url.query m.config.ignored_query_parameters).1
                x.same_query)
