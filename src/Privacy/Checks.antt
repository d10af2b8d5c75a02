-- ===== src/Privacy/Checks.antt =====
-- pkg/privacy/policy.go: the schema of a policy, and the checks of `Load`.
use inferno_sim.Prelude.{
  suc, String, Bool, true, false, not, ◌||◌, Option, none, some, List, [], ◌∷◌, str_eq, ltb, ◌==◌,
  if◌then◌else◌,
}
use inferno_sim.Prelude.Lists.{any}
use inferno_sim.Prelude.Int.{ℤ, pos_part}
use inferno_sim.Prelude.Result.{Result, ok, err, ◌>>=◌, ◌>>◌, reject_if}
use inferno_sim.Prelude.Text.{equal_fold, trim_space, is_blank, is_empty_text}
use inferno_sim.Prelude.Dict.{member}
use Prim.Native.Char.{code}
use Prim.Native.String.{len}
use inferno_sim.Json.{Tokens, tokens_from}

-- `Action`, a text that YAML may set to anything
abbrev pub Action : Type 0
Action = String

abbrev pub redact : Action
redact = "redact"

abbrev pub tokenize : Action
tokenize = "tokenize"

abbrev pub drop_it : Action
drop_it = "drop"

abbrev pub redacted : String
redacted = "[REDACTED]"

pub record NamedRule : Type 0 where
  pub name : String
  pub action : Action

pub record JsonRule : Type 0 where
  pub path : String
  pub action : Action

pub record MessageHeader : Type 0 where
  pub name : String
  pub value : String

pub record Policy : Type 0 where
  pub version : ℤ
  pub capture_bodies : Bool
  pub token_key_env : String
  pub headers : List NamedRule
  pub query_parameters : List NamedRule
  pub json_fields : List JsonRule
  pub message_key : Action
  pub message_headers : List NamedRule
  pub token_key : String

pub data Error : Type 0 where
  not_parsed bad_version missing_name padded_name missing_path bad_action : Error
  bad_path duplicate : String → Error
  missing_key_env : Error
  short_key : String → Error
  not_json : Error

-- `validateAction`
unfoldable pub valid_action : Action → Bool
valid_action a = str_eq a redact || (str_eq a tokenize || str_eq a drop_it)

-- `validateNamedRule`
unfoldable pub validate_named_rule : NamedRule → Result Error (Unit {0})
unfolding valid_action trim_space
validate_named_rule r = do
  reject_if (is_blank r.name) missing_name
  reject_if (not (str_eq r.name (trim_space r.name))) padded_name
  reject_if (not (valid_action r.action)) bad_action

-- A loop of `Load` over named rules, with the names seen. Whether two names are the same depends on
-- the section. The result says whether a rule tokenizes.
unfoldable pub check_named :
    (String → String → Bool) → List String → List NamedRule → Result Error Bool
unfolding validate_named_rule
check_named same seen [] = ok false
check_named same seen (r ∷ rs) = do
  validate_named_rule r
  reject_if (any (same r.name) seen) (duplicate r.name)
  later ← check_named same (r.name ∷ seen) rs
  ok (str_eq r.action tokenize || later)

abbrev behind_root : String → Tokens
behind_root String.[] = none
behind_root (String.◌∷◌ d s) = if code d == b'.' then tokens_from (suc (len s)) s else none

-- `parsePath`; `none` is its error. Behind `$.` its loop is that of the matcher's paths.
unfoldable pub parse_path : String → Tokens
unfolding tokens_from
parse_path String.[] = none
parse_path (String.◌∷◌ c s) =
    if code c == b'$' then (if is_empty_text s then some [] else behind_root s) else none

abbrev pub is_parsed : Tokens → Bool
is_parsed none = false
is_parsed (some ts) = true

-- The loop of `Load` over the rules on JSON fields.
unfoldable pub check_fields : List String → List JsonRule → Result Error Bool
unfolding parse_path valid_action member
check_fields seen [] = ok false
check_fields seen (r ∷ rs) = do
  reject_if (is_blank r.path) missing_path
  reject_if (not (is_parsed (parse_path r.path))) (bad_path r.path)
  reject_if (not (valid_action r.action)) bad_action
  reject_if (member r.path seen) (duplicate r.path)
  later ← check_fields (r.path ∷ seen) rs
  ok (str_eq r.action tokenize || later)

unfoldable pub check_message_key : Action → Result Error Bool
unfolding valid_action
check_message_key a =
    if is_empty_text a
    then ok false
    else reject_if (not (valid_action a)) bad_action >> ok (str_eq a tokenize)

-- The end of `Load`: a key of 16 bytes from the environment, where a rule tokenizes.
unfoldable pub load_key : (String → String) → Bool → Policy → Result Error Policy
load_key env false p = ok p
load_key env true p = do
  reject_if (is_empty_text p.token_key_env) missing_key_env
  let token_key = env p.token_key_env
  reject_if (ltb (len token_key) 16) (short_key p.token_key_env)
  ok (record p { token_key = token_key })

-- `Load`, given what the YAML decoder makes of the file and the environment
unfoldable pub load : (String → String) → Option Policy → Result Error Policy
unfolding check_named check_fields check_message_key load_key equal_fold
load env none = err not_parsed
load env (some p) = do
  reject_if (not (pos_part p.version == 1)) bad_version
  a ← check_named equal_fold [] p.headers
  b ← check_named str_eq [] p.query_parameters
  c ← check_fields [] p.json_fields
  d ← check_message_key p.message_key
  e ← check_named equal_fold [] p.message_headers
  load_key env (a || (b || (c || (d || e)))) p
