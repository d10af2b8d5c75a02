-- ===== src/Matcher.antt =====
-- pkg/matcher/matcher.go: rules for outbound requests, and their comparison with captured calls.
-- Go's maps are lists here, in the order in which the loop at hand meets them. What is taken from
-- Go's packages is a parameter: regular expressions, URLs, JSON text and base64. So is the registry
-- of Protobuf descriptors of pkg/grpcsim, which stands on a third-party decoder.
use inferno_sim.Prelude.{
  subst, ℕ, zero, suc, ◌+◌, ◌-◌, ◌*◌, ◌/◌, ◌%◌, ◌^◌, ◌≤◌, ◌<◌, min, max, String, ◌≡◌, refl, sym, ap,
  ◌∙◌, ◌≢◌, ◌↔◌, ◌⊎◌, inl, inr, Bool, true, false, not, ◌&&◌, ◌||◌, Option, none, some, List, [],
  ◌∷◌, ◌++◌, map, reverse, arith, str_eq, eq_iff, eq_refl, ltb, leb, ◌==◌, if◌then◌else◌, ltb→lt,
  lt→ltb, leb→le, ==_iff, Bool-cases, Option-cases,
}
use inferno_sim.Prelude.Lists.{
  length, get_elem?, set, take, drop, any, is_empty, count_if, length-append, take-append-drop,
  length-take, length-drop, take_all, drop_all, All, All-append, All-get_elem?, length-map,
  All_mono,
}
use inferno_sim.Prelude.Int.{ℤ, pos, negsuc, pos_part, neg_part, ltb_ℤ, ◌≤ℤ◌}
use inferno_sim.Prelude.Result.{
  Result, ok, err, ◌>>=◌, ◌>>◌, reject_if, >>=-eq-ok, reject_if-ok, guarded-ok, Result-cases,
}
use inferno_sim.Prelude.Text.{
  equal_fold, trim_space, is_blank, is_empty_text, equal_fold_refl, equal_fold_sym,
  equal_fold_trans, equal_fold_congr, str_eq-true, str_eq-false,
}
use inferno_sim.Prelude.Dict.{Dict, lookup, put, lookup-put, has_key, member}
pub mod Externals
pub mod Rules
pub mod Comparing
pub mod Compilation
pub mod Hosts
pub mod Queries
pub mod Legacy
pub mod Selection
use Prim.Native.String.{compare}
use Prim.Native.Nat.{Ordering}
use inferno_sim.Prelude.Sort.{sort_stable}
use inferno_sim.Prelude.Text.{drop_suffix, folded, lower_code, same_codes, codes}
use inferno_sim.Json.{Json, parse_json_path, json_path_value, remove_json_path, null, text}
use Externals.{Library, Values, Url, Registry}
use inferno_sim.Matcher.Rules.{
  Captured, CompiledRule, Config, ConfigError, Matcher, Reason, Request, Rule, bad_captured_url,
  bad_path, bad_regex, captured_method, captured_not_json, captured_not_protobuf, header_mismatch,
  header_regex_mismatch, host_mismatch, host_regex_mismatch, json_mismatch, json_path_mismatch,
  method_mismatch, missing_url, needs_schemas, no_captured_json, no_captured_protobuf,
  no_descriptors, path_mismatch, path_regex_mismatch, protobuf_field_mismatch, protobuf_mismatch,
  query_mismatch, query_regex_mismatch, request_not_json, request_not_protobuf, selector_mismatch,
  unknown_method,
}
use inferno_sim.Matcher.Comparing.{
  all_paths, all_same, canonical_headers, encode_values, equal_headers, equal_host, equal_query,
  escaped_path, first_value, get_or_empty, key_less, keys_of, method_allowed, pairs_from, pairs_of,
  same_pairs, some_fold, strip_default_port, without,
}
use inferno_sim.Matcher.Compilation.{all_compile, compile_headers, compile_rule, compile_rules, new}

unfoldable pub remove_paths : List String → Json → Json
remove_paths [] root = root
remove_paths (p ∷ ps) root = remove_paths ps (remove_json_path root p)

abbrev pub need {ℓ} : {A : Type ℓ} → Option A → Reason → Result Reason A
need none why = err why
need (some a) why = ok a

abbrev method_path : CompiledRule → Url → String
method_path cr u = if is_empty_text cr.rule.grpc_method then u.path else cr.rule.grpc_method

-- The part of `Match` without a rule.
unfoldable pub match_exact : Config → Request → String → Url → Result Reason (Unit {0})
unfolding equal_host equal_query
match_exact cfg req req_host captured_url = do
  reject_if (not (equal_host req_host captured_url.host)) host_mismatch
  reject_if (not (str_eq (escaped_path req.url) (escaped_path captured_url))) path_mismatch
  reject_if (not (equal_query req.url.query captured_url.query cfg.ignored_query_parameters))
      query_mismatch

abbrev pub request_host : Request → String
request_host req = if is_empty_text req.url.host then req.host else req.url.host

module _ (lib : Library) where
  -- The tests of a round of `ruleFor`: whether the rule is the one.
  unfoldable pub selects : CompiledRule → String → String → String → Bool
  unfolding method_allowed
  selects cr method host path =
      method_allowed cr.rule.methods method
      && (is_empty_text cr.rule.host_regex || lib.matches cr.rule.host_regex (lib.strip_port host))
      && (is_empty_text cr.rule.path_regex || lib.matches cr.rule.path_regex path)
      && (is_empty_text cr.rule.grpc_method || str_eq cr.rule.grpc_method path)

  -- `ruleFor`
  unfoldable pub rule_for : List CompiledRule → String → String → String → Option CompiledRule
  unfolding selects
  rule_for [] method host path = none
  rule_for (cr ∷ crs) method host path =
      if selects cr method host path then some cr else rule_for crs method host path

  -- The checks `for name, re := range …` of one map: the first that fails gives the reason.
  unfoldable pub check_queries : Values → Dict String → Result Reason (Unit {0})
  unfolding first_value
  check_queries query [] = ok tt
  check_queries query ((name, pattern) ∷ m) = do
    reject_if (not (lib.matches pattern (first_value name query))) (query_regex_mismatch name)
    check_queries query m

  unfoldable pub check_headers : Values → Dict String → Result Reason (Unit {0})
  unfolding first_value
  check_headers headers [] = ok tt
  check_headers headers ((name, pattern) ∷ m) = do
    reject_if (not (lib.matches pattern (first_value (lib.canonical name) headers)))
        (header_regex_mismatch name)
    check_headers headers m

  -- `stringValue`
  unfoldable pub string_value : Json → String
  string_value (text s) = s
  string_value null = ""
  string_value v = lib.marshal v

  unfoldable pub value_matches : Json → String → String → Bool
  unfolding string_value
  value_matches root path pattern = elim (json_path_value root path) [
    | none ↦ false
    | some v ↦ lib.matches pattern (string_value v)
  ]

  unfoldable pub check_values : (String → Reason) → Json → Dict String → Result Reason (Unit {0})
  unfolding value_matches
  check_values why root [] = ok tt
  check_values why root ((path, pattern) ∷ m) = do
    reject_if (not (value_matches root path pattern)) (why path)
    check_values why root m

  -- `base64.StdEncoding.DecodeString(captured.BodyB64)`, empty refused
  unfoldable pub captured_body : Captured → Reason → Result Reason String
  captured_body captured why = do
    body ← need (lib.decode captured.body_b64) why
    reject_if (is_empty_text body) why
    ok body

  unfoldable pub check_json : Config → CompiledRule → Captured → String → Result Reason (Unit {0})
  unfolding check_values remove_paths captured_body
  check_json cfg cr captured body =
      if is_empty cr.rule.json_path_regex && not cr.rule.compare_json then ok tt else do
        request ← need (lib.unmarshal body) request_not_json
        check_values json_path_mismatch request cr.rule.json_path_regex
        if not cr.rule.compare_json then ok tt else do
          raw ← captured_body captured no_captured_json
          expected ← need (lib.unmarshal raw) captured_not_json
          let ignored =
              cfg.ignored_json_paths
              ++ cr.rule.ignored_json_paths
              ++ keys_of cr.rule.json_path_regex
          reject_if
              (not (
                str_eq (lib.marshal (remove_paths ignored request))
                  (lib.marshal (remove_paths ignored expected))))
              json_mismatch

  unfoldable pub check_protobuf :
      Option Registry → CompiledRule → Captured → Url → String → Result Reason (Unit {0})
  unfolding check_values remove_paths captured_body
  check_protobuf grpc cr captured url body =
      if is_empty cr.rule.protobuf_field_regex && not cr.rule.compare_protobuf then ok tt else do
        registry ← need grpc no_descriptors
        request ← need (registry.decode_request (method_path cr url) body) request_not_protobuf
        check_values protobuf_field_mismatch request cr.rule.protobuf_field_regex
        if not cr.rule.compare_protobuf then ok tt else do
          raw ← captured_body captured no_captured_protobuf
          expected ← need (registry.decode_request (method_path cr url) raw) captured_not_protobuf
          let ignored = cr.rule.ignored_protobuf_fields ++ keys_of cr.rule.protobuf_field_regex
          reject_if
              (not (
                str_eq (lib.marshal (remove_paths ignored request))
                  (lib.marshal (remove_paths ignored expected))))
              protobuf_mismatch

  unfoldable pub check_json_fields : CompiledRule → String → Result Reason (Unit {0})
  unfolding check_values
  check_json_fields cr body = if is_empty cr.rule.json_path_regex then ok tt else do
    value ← need (lib.unmarshal body) request_not_json
    check_values json_path_mismatch value cr.rule.json_path_regex

  unfoldable pub check_protobuf_fields :
      Option Registry → CompiledRule → Url → String → Result Reason (Unit {0})
  unfolding check_values
  check_protobuf_fields grpc cr url body =
      if is_empty cr.rule.protobuf_field_regex && not cr.rule.compare_protobuf then ok tt else do
        registry ← need grpc no_descriptors
        value ← need (registry.decode_request (method_path cr url) body) request_not_protobuf
        check_values protobuf_field_mismatch value cr.rule.protobuf_field_regex

  abbrev both_match : String → String → String → Bool
  both_match pattern a b = lib.matches pattern a && lib.matches pattern b

  unfoldable pub check_host : CompiledRule → String → Url → Result Reason (Unit {0})
  unfolding equal_host
  check_host cr req_host captured_url =
      if is_empty_text cr.rule.host_regex
      then reject_if (not (equal_host req_host captured_url.host)) host_mismatch
      else reject_if
          (not (
            both_match cr.rule.host_regex (lib.strip_port req_host)
              (lib.strip_port captured_url.host)))
          host_regex_mismatch

  unfoldable pub check_path : CompiledRule → Url → Url → Result Reason (Unit {0})
  check_path cr url captured_url =
      if is_empty_text cr.rule.path_regex
      then reject_if (not (str_eq (escaped_path url) (escaped_path captured_url))) path_mismatch
      else reject_if (not (both_match cr.rule.path_regex url.path captured_url.path))
          path_regex_mismatch

  -- The part of `Match` with a rule.
  unfoldable pub match_rule :
      Matcher → CompiledRule → Captured → Request → String → Url → String → Result Reason (Unit {0})
  unfolding check_host check_path check_queries check_headers equal_query equal_headers check_json
      check_protobuf
  match_rule m cr captured req req_host captured_url body = do
    reject_if (not (method_allowed cr.rule.methods captured.method)) captured_method
    check_host cr req_host captured_url
    check_path cr req.url captured_url
    reject_if
        (not (
          equal_query req.url.query captured_url.query (
            m.config.ignored_query_parameters
            ++ cr.rule.ignored_query_parameters
            ++ keys_of cr.rule.query_regex)))
        query_mismatch
    check_queries req.url.query cr.rule.query_regex
    check_headers req.headers cr.headers
    reject_if
        (cr.rule.compare_headers
          && not (
              equal_headers lib req.headers captured.headers
                (m.config.ignored_headers ++ cr.rule.ignored_headers ++ keys_of cr.headers)))
        header_mismatch
    check_json m.config cr captured body
    check_protobuf m.grpc cr captured req.url body

  -- `Matcher.Match`: `ok` for a match, and the reason otherwise
  unfoldable pub match : Matcher → Captured → Request → String → Result Reason (Unit {0})
  unfolding rule_for match_exact match_rule
  match m captured req body = do
    captured_url ← need (lib.parse_url captured.url) bad_captured_url
    reject_if (not (equal_fold req.method captured.method)) method_mismatch
    elim (rule_for m.rules req.method (request_host req) (escaped_path req.url)) [
      | none ↦ match_exact m.config req (request_host req) captured_url
      | some cr ↦ match_rule m cr captured req (request_host req) captured_url body
    ]

  -- `RuleMatcher.Match`, with the matcher that `CompileRule` makes of one rule
  unfoldable pub match_one : Matcher → Request → String → Result Reason (Unit {0})
  unfolding rule_for check_headers check_queries check_values
  match_one m req body = elim (rule_for m.rules req.method (request_host req) req.url.path) [
    | none ↦ err selector_mismatch
    | some cr ↦ do
      check_headers req.headers cr.headers
      check_queries req.url.query cr.rule.query_regex
      check_json_fields cr body
      check_protobuf_fields m.grpc cr req.url body
  ]
