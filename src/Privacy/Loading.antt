-- ===== src/Privacy/Loading.antt =====
-- What a policy of pkg/privacy/policy.go is like once `Load` has accepted it.
use inferno_sim.Prelude.{
  subst, ℕ, ◌≤◌, String, ◌≡◌, refl, sym, ap, ◌∙◌, ◌⊎◌, inl, inr, Bool, true, false, not, ◌||◌,
  Option, none, some, List, [], ◌∷◌, arith, str_eq, ltb, ◌==◌, Bool-cases,
}
use inferno_sim.Prelude.Lists.{any, All, All_mono}
use inferno_sim.Prelude.Int.{pos_part}
use inferno_sim.Prelude.Result.{Result, ok, reject_if, >>=-eq-ok, reject_if-ok}
use inferno_sim.Prelude.Text.{equal_fold, trim_space, is_blank, is_empty_text, str_eq-true}
use inferno_sim.Prelude.Dict.{member}
use Prim.Native.String.{len}
use inferno_sim.Privacy.Checks.{
  Policy, NamedRule, JsonRule, Action, tokenize, missing_name, padded_name, missing_path,
  bad_action, bad_path, duplicate, missing_key_env, short_key, bad_version, valid_action,
  validate_named_rule, check_named, check_fields, parse_path, is_parsed, check_message_key,
  load_key, load,
}

-- A rule with a name that is not blank or padded, and an action that is one of the three.
pub record IsStrict (r : NamedRule) : Type 0 where
  pub named : is_blank r.name ≡ false
  pub trimmed : r.name ≡ trim_space r.name
  pub action : valid_action r.action ≡ true

pub record IsStrictField (r : JsonRule) : Type 0 where
  pub parsed : is_parsed (parse_path r.path) ≡ true
  pub action : valid_action r.action ≡ true

-- No rule has the name of a rule before it.
abbrev pub Apart : (String → String → Bool) → List NamedRule → Type 0
Apart same [] = Unit
Apart same (r ∷ rs) = All (λ q. same q.name r.name ≡ false) rs × Apart same rs

abbrev pub tokenizes : NamedRule → Bool
tokenizes r = str_eq r.action tokenize

abbrev pub tokenizes_field : JsonRule → Bool
tokenizes_field r = str_eq r.action tokenize

-- Some rule of the policy tokenizes.
abbrev pub needs_key : Policy → Bool
needs_key p =
    any tokenizes p.headers
    || (any tokenizes p.query_parameters
        || (any tokenizes_field p.json_fields
            || (str_eq p.message_key tokenize || any tokenizes p.message_headers)))

pub record IsLoaded (p : Policy) : Type 0 where
  pub headers : All IsStrict p.headers
  pub headers_apart : Apart equal_fold p.headers
  pub query : All IsStrict p.query_parameters
  pub query_apart : Apart str_eq p.query_parameters
  pub fields : All IsStrictField p.json_fields
  pub message_key : (p.message_key ≡ "") ⊎ (valid_action p.message_key ≡ true)
  pub message_headers : All IsStrict p.message_headers
  pub message_headers_apart : Apart equal_fold p.message_headers
  pub key : (needs_key p ≡ false) ⊎ (16 ≤ len p.token_key)

ok_inj {ℓ κ} : {E : Type ℓ} {A : Type κ} {a b : A} → ◌≡◌ {A = Result E A} (ok a) (ok b) → a ≡ b
ok_inj p = cc

not-false : (b : Bool) → not b ≡ false → b ≡ true
not-false true h = refl
not-false false h = cc

validate_named_rule-IsStrict : (r : NamedRule) → validate_named_rule r ≡ ok tt → IsStrict r
unfolding validate_named_rule
validate_named_rule-IsStrict r h =
    let (_, a, h1) = >>=-eq-ok (reject_if (is_blank r.name) missing_name) _ h in
    let (_, b, h2) =
      >>=-eq-ok (reject_if (not (str_eq r.name (trim_space r.name))) padded_name) _ h1 in
    record {
      named = reject_if-ok _ _ a;
      trimmed = str_eq-true _ _ (not-false _ (reject_if-ok _ _ b));
      action = not-false _ (reject_if-ok _ _ h2);
    }

check_named-ok :
    (same : String → String → Bool) (seen : List String) (rs : List NamedRule) (b : Bool)
    → check_named same seen rs ≡ ok b
    → All IsStrict rs
      × Apart same rs
      × All (λ q. any (same q.name) seen ≡ false) rs
      × (b ≡ any tokenizes rs)
unfolding check_named
check_named-ok same seen [] b h = (tt, tt, tt, sym (ok_inj h))
check_named-ok same seen (r ∷ rs) b h =
    let (u, v, h1) = >>=-eq-ok (validate_named_rule r) _ h in
    let (_, d, h2) = >>=-eq-ok (reject_if (any (same r.name) seen) (duplicate r.name)) _ h1 in
    let (later, e, h3) = >>=-eq-ok (check_named same (r.name ∷ seen) rs) _ h2 in
    let (strict, apart, fresh, tokens) = check_named-ok same (r.name ∷ seen) rs later e in
    (
      (validate_named_rule-IsStrict r v, strict),
      (
        All_mono (λ q. any (same q.name) (r.name ∷ seen) ≡ false) (λ q. same q.name r.name ≡ false)
            rs (λ q f. ground (arith, f)) fresh,
        apart,
      ),
      (
        reject_if-ok _ _ d,
        All_mono (λ q. any (same q.name) (r.name ∷ seen) ≡ false)
            (λ q. any (same q.name) seen ≡ false) rs (λ q f. ground (arith, f)) fresh,
      ),
      sym (ok_inj h3) ∙ ap (λ x. tokenizes r || x) tokens,
    )

check_fields-ok :
    (seen : List String) (rs : List JsonRule) (b : Bool)
    → check_fields seen rs ≡ ok b
    → All IsStrictField rs × (b ≡ any tokenizes_field rs)
unfolding check_fields
check_fields-ok seen [] b h = (tt, sym (ok_inj h))
check_fields-ok seen (r ∷ rs) b h =
    let (_, c, h1) = >>=-eq-ok (reject_if (is_blank r.path) missing_path) _ h in
    let (_, d, h2) =
      >>=-eq-ok (reject_if (not (is_parsed (parse_path r.path))) (bad_path r.path)) _ h1 in
    let (_, e, h3) = >>=-eq-ok (reject_if (not (valid_action r.action)) bad_action) _ h2 in
    let (_, f, h4) = >>=-eq-ok (reject_if (member r.path seen) (duplicate r.path)) _ h3 in
    let (later, g, h5) = >>=-eq-ok (check_fields (r.path ∷ seen) rs) _ h4 in
    let (strict, tokens) = check_fields-ok (r.path ∷ seen) rs later g in
    (
      (
        record {
          parsed = not-false _ (reject_if-ok _ _ d);
          action = not-false _ (reject_if-ok _ _ e);
        },
        strict,
      ),
      sym (ok_inj h5) ∙ ap (λ x. tokenizes_field r || x) tokens,
    )

check_message_key-ok :
    (a : Action) (b : Bool)
    → check_message_key a ≡ ok b
    → ((a ≡ "") ⊎ (valid_action a ≡ true)) × (b ≡ str_eq a tokenize)
unfolding check_message_key
check_message_key-ok a b h = elim (Bool-cases (is_empty_text a)) [
  | inl e ↦
      let none' : a ≡ "" = str_eq-true a "" e in
      (
        inl none',
        sym (ok_inj (rw (e, check_message_key) at h)) ∙ sym (ap (λ x. str_eq x tokenize) none'),
      )
  | inr e ↦
      let (_, c, h1) =
        >>=-eq-ok (reject_if (not (valid_action a)) bad_action) _
          (rw (e, check_message_key) at h) in
      (inr (not-false _ (reject_if-ok _ _ c)), sym (ok_inj h1))
]

load_key-ok :
    (env : String → String) (b : Bool) (p q : Policy)
    → load_key env b p ≡ ok q
    → (q ≡ record p { token_key = q.token_key }) × ((b ≡ false) ⊎ (16 ≤ len q.token_key))
unfolding load_key
load_key-ok env false p q h =
    (subst (λ (x : Policy). x ≡ record p { token_key = x.token_key }) (ok_inj h) refl, inl refl)
load_key-ok env true p q h =
    let (_, c, h1) = >>=-eq-ok (reject_if (is_empty_text p.token_key_env) missing_key_env) _ h in
    let (_, d, h2) =
      >>=-eq-ok (reject_if (ltb (len (env p.token_key_env)) 16) (short_key p.token_key_env)) _ h1 in
    (
      subst (λ (x : Policy). x ≡ record p { token_key = x.token_key }) (ok_inj h2) refl,
      inr (
          subst (λ (x : Policy). 16 ≤ len x.token_key) (ok_inj h2)
            (long (len (env p.token_key_env)) (reject_if-ok _ _ d))),
    )
  where
    long : (n : ℕ) → ltb n 16 ≡ false → 16 ≤ n
    long n f = ground arith

flags :
    {a b c d e a' b' c' d' e' : Bool}
    → a ≡ a'
    → b ≡ b'
    → c ≡ c'
    → d ≡ d'
    → e ≡ e'
    → (a || (b || (c || (d || e)))) ≡ (a' || (b' || (c' || (d' || e'))))
flags p q r s t = cc

-- A policy that `Load` accepts has strict rules whose names differ (header names but for case), and
-- a key of at least 16 bytes where a rule tokenizes.
pub load-IsLoaded :
    (env : String → String) (raw : Option Policy) (p : Policy) → load env raw ≡ ok p → IsLoaded p
unfolding load
load-IsLoaded env none p h = absurd (cc)
load-IsLoaded env (some raw) p h =
    let (_, v, h1) = >>=-eq-ok (reject_if (not (pos_part raw.version == 1)) bad_version) _ h in
    let (a, a', h2) = >>=-eq-ok (check_named equal_fold [] raw.headers) _ h1 in
    let (b, b', h3) = >>=-eq-ok (check_named str_eq [] raw.query_parameters) _ h2 in
    let (c, c', h4) = >>=-eq-ok (check_fields [] raw.json_fields) _ h3 in
    let (d, d', h5) = >>=-eq-ok (check_message_key raw.message_key) _ h4 in
    let (e, e', h6) = >>=-eq-ok (check_named equal_fold [] raw.message_headers) _ h5 in
    let (same, key) = load_key-ok env (a || (b || (c || (d || e)))) raw p h6 in
    let (a1, a2, _, a3) = check_named-ok equal_fold [] raw.headers a a' in
    let (b1, b2, _, b3) = check_named-ok str_eq [] raw.query_parameters b b' in
    let (c1, c2) = check_fields-ok [] raw.json_fields c c' in
    let (d1, d2) = check_message_key-ok raw.message_key d d' in
    let (e1, e2, _, e3) = check_named-ok equal_fold [] raw.message_headers e e' in
    subst (λ (x : Policy). IsLoaded x) (sym same)
      (record {
        headers = a1;
        headers_apart = a2;
        query = b1;
        query_apart = b2;
        fields = c1;
        message_key = d1;
        message_headers = e1;
        message_headers_apart = e2;
        key = elim key [ inl f ↦ inl (sym (flags a3 b3 c2 d2 e3) ∙ f) | inr l ↦ inr l ];
      })
