-- ===== src/Privacy.antt =====
-- pkg/privacy/policy.go: the policy that redacts, tokenizes or drops parts of what is captured. A
-- `*Policy` that may be nil is an option, and the decoded YAML is an input of `load`. The HMAC and
-- the JSON reader and writer are parameters.
use inferno_sim.Prelude.{
  subst, ℕ, zero, suc, ◌+◌, ◌-◌, ◌*◌, ◌/◌, ◌%◌, ◌^◌, ◌≤◌, ◌<◌, min, max, String, ◌≡◌, refl, sym, ap,
  ◌∙◌, ◌≢◌, ◌↔◌, ◌⊎◌, inl, inr, Bool, true, false, not, ◌&&◌, ◌||◌, Option, none, some, List, [],
  ◌∷◌, ◌++◌, map, reverse, arith, str_eq, eq_iff, eq_refl, ltb, leb, ◌==◌, if◌then◌else◌, ltb→lt,
  lt→ltb, leb→le, ==_iff, Bool-cases, Option-cases,
}
use inferno_sim.Prelude.Lists.{
  length, get_elem?, set, take, drop, any, is_empty, count_if, length-append, take-append-drop,
  length-take, length-drop, take_all, drop_all, All, All-append, All-get_elem?, length-map,
  All_mono, All_of_places,
}
use inferno_sim.Prelude.Int.{ℤ, pos, negsuc, pos_part, neg_part, ltb_ℤ, ◌≤ℤ◌}
use inferno_sim.Prelude.Result.{
  Result, ok, err, ◌>>=◌, ◌>>◌, reject_if, >>=-eq-ok, reject_if-ok, guarded-ok, Result-cases,
}
use inferno_sim.Prelude.Text.{
  equal_fold, trim_space, is_blank, is_empty_text, equal_fold_refl, equal_fold_sym,
  equal_fold_trans, equal_fold_congr, str_eq-true, str_eq-false,
}
use inferno_sim.Prelude.Dict.{
  Dict, lookup, put, lookup-put, has_key, member, Distinct, not-member-cons, member-cons_parts,
  place_of_name,
}
use Prim.Native.Char.{code}
use Prim.Native.String
use Prim.Native.String.{len}
use inferno_sim.Json.{
  Json, Token, key, index, text, arr, obj, Tokens, tokens_from, item_at, set_item, field_at,
  set_field, delete_field, Fields,
}
use inferno_sim.Matcher.Externals.{Values}
pub mod Checks
pub mod Loading
pub mod Messages
pub mod Documents
use inferno_sim.Privacy.Checks.{
  Action, Error, JsonRule, MessageHeader, NamedRule, Policy, bad_action, bad_path, bad_version,
  check_fields, check_message_key, check_named, drop_it, duplicate, is_parsed, load, load_key,
  missing_key_env, missing_name, missing_path, not_json, not_parsed, padded_name, parse_path,
  redact, redacted, short_key, tokenize, valid_action, validate_named_rule,
}

-- Go's HMAC as hexadecimal text, cut to 16 bytes, and encoding/json
pub record Tools : Type 0 where
  pub hmac_hex : String → String → String
  pub unmarshal : String → Option Json
  pub marshal : Json → String

-- An array item is never taken away.
abbrev pub kept_item : Option Json → Json
kept_item none = text redacted
kept_item (some v) = v

abbrev pub put_or_delete : String → Option Json → Fields → Fields
put_or_delete k none fs = delete_field k fs
put_or_delete k (some v) fs = set_field k v fs

abbrev pub with_values : String → Option (List String) → Values → Values
with_values name none rest = rest
with_values name (some vs) rest = (name, vs) ∷ rest

module _ (tools : Tools) where
  -- `token`
  unfoldable pub token : Policy → String → String
  token p value = String.◌++◌ "tok_" (tools.hmac_hex p.token_key value)

  -- `applyBytes`
  unfoldable pub apply_bytes : Policy → Action → String → String
  unfolding token
  apply_bytes p a value =
      if str_eq a drop_it
      then ""
      else if str_eq a redact
      then redacted
      else if str_eq a tokenize
      then token p value
      else value

  -- A round of the loop of `ApplyMessage` over its header rules: the headers filtered.
  unfoldable pub filter_headers : Policy → NamedRule → List MessageHeader → List MessageHeader
  unfolding apply_bytes equal_fold
  filter_headers p r [] = []
  filter_headers p r (h ∷ hs) =
      let rest = filter_headers p r hs in
      if not (equal_fold h.name r.name)
      then h ∷ rest
      else if str_eq r.action drop_it
      then rest
      else record h { value = apply_bytes p r.action h.value } ∷ rest

  unfoldable pub apply_header_rules :
      Policy → List NamedRule → List MessageHeader → List MessageHeader
  unfolding filter_headers
  apply_header_rules p [] hs = hs
  apply_header_rules p (r ∷ rs) hs = apply_header_rules p rs (filter_headers p r hs)

  -- `valueString`
  unfoldable pub value_string : Json → String
  value_string (text s) = s
  value_string v = tools.marshal v

  -- What `applyJSONRule` puts in place of a value; `none` takes a field away.
  unfoldable pub changed : Policy → Action → Json → Option Json
  unfolding token value_string
  changed p a v =
      if str_eq a drop_it
      then none
      else if str_eq a redact
      then some (text redacted)
      else if str_eq a tokenize
      then some (text (token p (value_string v)))
      else some v

  -- The walk of `applyJSONRule` along the parts of its path.
  unfoldable pub apply_at : Policy → Action → List Token → Json → Json
  unfolding changed item_at set_item field_at set_field delete_field
  apply_at p a [] v = v
  apply_at p a (index i ∷ []) (arr vs) = elim (item_at i vs) [
    | none ↦ arr vs
    | some v ↦ arr (set_item i (kept_item (changed p a v)) vs)
  ]
  apply_at p a (key k ∷ []) (obj fs) = elim (field_at k fs) [
    | none ↦ obj fs
    | some v ↦ obj (put_or_delete k (changed p a v) fs)
  ]
  apply_at p a (index i ∷ t ∷ ts) (arr vs) = elim (item_at i vs) [
    | none ↦ arr vs
    | some v ↦ arr (set_item i (apply_at p a (t ∷ ts) v) vs)
  ]
  apply_at p a (key k ∷ t ∷ ts) (obj fs) = elim (field_at k fs) [
    | none ↦ obj fs
    | some v ↦ obj (set_field k (apply_at p a (t ∷ ts) v) fs)
  ]
  apply_at p a _ v = v

  -- `applyJSONRule`
  unfoldable pub apply_json_rule : Policy → JsonRule → Json → Json
  unfolding parse_path apply_at
  apply_json_rule p r v = elim (parse_path r.path) [ none ↦ v | some ts ↦ apply_at p r.action ts v ]

  unfoldable pub apply_json_rules : Policy → List JsonRule → Json → Json
  unfolding apply_json_rule
  apply_json_rules p [] v = v
  apply_json_rules p (r ∷ rs) v = apply_json_rules p rs (apply_json_rule p r v)

  -- `ApplyBody` of a policy that is not nil
  unfoldable pub apply_body : Policy → String → Result Error String
  unfolding apply_json_rules
  apply_body p body =
      if is_empty p.json_fields || is_empty_text body
      then ok body
      else elim (tools.unmarshal body) [
        | none ↦ err not_json
        | some v ↦ ok (tools.marshal (apply_json_rules p p.json_fields v))
      ]

  -- `ApplyMessage`: the key, the headers and the payload
  unfoldable pub apply_message :
      Option Policy
      → String
      → List MessageHeader
      → String
      → Result Error (String × List MessageHeader × String)
  unfolding apply_bytes apply_header_rules apply_body
  apply_message none k hs payload = ok (k, hs, payload)
  apply_message (some p) k hs payload = do
    let clean_key = if is_empty_text p.message_key then k else apply_bytes p p.message_key k
    clean_payload ← apply_body p payload
    ok (clean_key, apply_header_rules p p.message_headers hs, clean_payload)

  -- The values of one name under an action; `none` takes the name away.
  unfoldable pub changed_values : Policy → Action → List String → Option (List String)
  unfolding token
  changed_values p a vs =
      if str_eq a drop_it
      then none
      else if str_eq a redact
      then some (redacted ∷ [])
      else if str_eq a tokenize
      then some (map (token p) vs)
      else some vs

  -- A round of `ApplyHeaders` and of `ApplyURL`: every name that is the rule's.
  unfoldable pub apply_rule : (String → String → Bool) → Policy → NamedRule → Values → Values
  unfolding changed_values
  apply_rule same p r [] = []
  apply_rule same p r ((name, vs) ∷ rest) =
      let later = apply_rule same p r rest in
      with_values name (if same name r.name then changed_values p r.action vs else some vs) later

  unfoldable pub apply_rules : (String → String → Bool) → Policy → List NamedRule → Values → Values
  unfolding apply_rule
  apply_rules same p [] vs = vs
  apply_rules same p (r ∷ rs) vs = apply_rules same p rs (apply_rule same p r vs)

  -- `ApplyHeaders`
  unfoldable pub apply_headers : Option Policy → Values → Values
  unfolding apply_rules equal_fold
  apply_headers none vs = vs
  apply_headers (some p) vs = apply_rules equal_fold p p.headers vs

  -- `ApplyURL`, on the query: the rest of the URL stays, and the query is encoded anew.
  unfoldable pub apply_query : Option Policy → Values → Values
  unfolding apply_rules
  apply_query none vs = vs
  apply_query (some p) vs = apply_rules str_eq p p.query_parameters vs

-- `HeaderRule`
unfoldable pub first_rule : String → List NamedRule → Option NamedRule
unfolding equal_fold
first_rule name [] = none
first_rule name (r ∷ rs) = if equal_fold r.name name then some r else first_rule name rs
