-- ===== src/Driver/State.antt =====
-- pkg/replaydriver/dependency.go and state.go: the values that responses produce and requests
-- consume, and the rewriting of a request by the values seen so far.
use inferno_sim.Prelude.{
  ℕ, String, Bool, true, false, not, ◌&&◌, ◌||◌, Option, none, some, List, [], ◌∷◌, ◌++◌, map,
  str_eq, ◌==◌, if◌then◌else◌,
}
use inferno_sim.Prelude.Lists.{any, is_empty}
use inferno_sim.Prelude.Text.{equal_fold, trim_space, is_empty_text}
use inferno_sim.Prelude.Dict.{Dict, lookup, put}
use Prim.Native.Char.{Char, code}
use inferno_sim.Inject.{split_pair}
use inferno_sim.Matcher.Externals.{Values}
use inferno_sim.EventLog.{Event}
use inferno_sim.Driver.{starts_with, captured_response_headers, captured_response_body}

-- What is taken from encoding/base64, net/http (cookies), encoding/json with the `%v` form of a
-- value, and strings.
pub record Reader : Type 0 where
  pub decode : String → Option String
  pub decoded_part : String → String
  pub cookies : Values → List (String × String)
  pub fields : String → Option (List (String × String))
  pub header : String → Values → String
  pub contains : String → String → Bool
  pub replace_all : String → String → String → String

pub data ValueKind : Type 0 where
  auth_token cookie session_id resource_id : ValueKind

abbrev pub same_kind : ValueKind → ValueKind → Bool
same_kind auth_token auth_token = true
same_kind cookie cookie = true
same_kind session_id session_id = true
same_kind resource_id resource_id = true
same_kind _ _ = false

pub record ProducedValue : Type 0 where
  pub name : String
  pub kind : ValueKind
  pub value : String
  pub locator : String

pub record ConsumedValue : Type 0 where
  pub name : String
  pub kind : ValueKind
  pub value : String
  pub locator : String

abbrev pub token_keys : List String
token_keys =
    "token" ∷ "access_token" ∷ "id_token" ∷ "refresh_token" ∷ "jwt" ∷ "auth_token" ∷ "bearer" ∷ []

-- `isTokenKey`
unfoldable pub is_token_key : String → Bool
unfolding equal_fold
is_token_key k = any (λ pattern. equal_fold k pattern) token_keys

-- A field of a JSON body: it may be a token and it may be a resource.
unfoldable pub field_values : List (String × String) → List ProducedValue
unfolding is_token_key
field_values [] = []
field_values ((k, v) ∷ fields) =
    (if is_token_key k
      then record { name = k; kind = auth_token; value = v; locator = k } ∷ []
      else [])
    ++ (if str_eq k "id" || str_eq k "order_id"
        then record { name = k; kind = resource_id; value = v; locator = k } ∷ []
        else [])
    ++ field_values fields

abbrev pub cookie_value : String × String → ProducedValue
cookie_value c = record { name = c.0; kind = cookie; value = c.1; locator = "Set-Cookie" }

-- `strings.Split` at one character
unfoldable pub split : ℕ → String → List String
split mark String.[] = "" ∷ []
split mark (String.◌∷◌ c s) =
    let rest = split mark s in if code c == mark then "" ∷ rest else grown c rest
  where
    grown : Char → List String → List String
    grown d [] = []
    grown d (first ∷ others) = String.◌∷◌ d first ∷ others

abbrev bearer : String
bearer = "Bearer "

abbrev pub skip_prefix : String → String → String
skip_prefix s String.[] = s
skip_prefix String.[] (String.◌∷◌ d prefix) = ""
skip_prefix (String.◌∷◌ c s) (String.◌∷◌ d prefix) = skip_prefix s prefix

abbrev pub first_value : Option (List String) → Option String
first_value none = none
first_value (some []) = none
first_value (some (v ∷ vs)) = some v

-- The token of an `Authorization` header with a bearer token.
unfoldable pub bearer_token : Event → Option String
unfolding lookup starts_with
bearer_token e = elim (first_value (lookup "Authorization" e.headers)) [
  | none ↦ none
  | some v ↦ if starts_with v bearer then some (skip_prefix v bearer) else none
]

abbrev pub cookie_consumed : Option (String × String) → List ConsumedValue
cookie_consumed none = []
cookie_consumed (some (name, value)) =
    record { name = name; kind = cookie; value = value; locator = "Cookie" } ∷ []

unfoldable pub cookies_consumed : List String → List ConsumedValue
unfolding split_pair trim_space
cookies_consumed [] = []
cookies_consumed (c ∷ cs) = cookie_consumed (split_pair (trim_space c)) ++ cookies_consumed cs

-- `IdentifyConsumers`
unfoldable pub identify_consumers : Event → List ConsumedValue
unfolding bearer_token cookies_consumed split lookup
identify_consumers e =
    elim (bearer_token e) [
      | none ↦ []
      | some token ↦
          record {
            name = "Authorization";
            kind = auth_token;
            value = token;
            locator = "Authorization";
          }
          ∷ []
    ]
    ++ elim (first_value (lookup "Cookie" e.headers)) [
      | none ↦ []
      | some line ↦ cookies_consumed (split b';' line)
    ]

abbrev pub or_nothing : Option (List (String × String)) → List (String × String)
or_nothing none = []
or_nothing (some fs) = fs

module _ (reader : Reader) where
  -- `ExtractResponseValues`
  unfoldable pub extract_response_values : Values → String → List ProducedValue
  unfolding field_values
  extract_response_values headers body =
      map cookie_value (reader.cookies headers)
      ++ (if reader.contains (reader.header "Content-Type" headers) "application/json"
          then field_values (or_nothing (reader.fields body))
          else [])

  -- `substitute`
  unfoldable pub substitute : Dict String → String → String
  substitute [] output = output
  substitute ((old, new) ∷ rest) output =
      substitute rest (if is_empty_text old then output else reader.replace_all output old new)

  -- `PrepareBody`
  unfoldable pub prepare_body : Dict String → Event → Option String
  unfolding substitute
  prepare_body values e =
      if is_empty_text e.body_b64 then none else elim (reader.decode e.body_b64) [
        | none ↦ none
        | some body ↦ some (substitute values body)
      ]

  -- The headers part of `Rewrite`
  unfoldable pub rewrite_headers : Dict String → Values → Values
  unfolding substitute
  rewrite_headers values hs = map (λ h. (h.0, map (substitute values) h.1)) hs

-- The test of `UpdateState` on a captured value and a live one.
abbrev pub replaces : ProducedValue → ProducedValue → Bool
replaces old new =
    same_kind old.kind new.kind
    && ((str_eq old.name new.name || str_eq old.locator new.locator)
        && (not (is_empty_text old.value)
            && (not (is_empty_text new.value) && not (str_eq old.value new.value))))

unfoldable pub put_replaced : ProducedValue → List ProducedValue → Dict String → Dict String
unfolding put
put_replaced old [] values = values
put_replaced old (new ∷ news) values =
    put_replaced old news (if replaces old new then put old.value new.value values else values)

unfoldable pub put_all_replaced :
    List ProducedValue → List ProducedValue → Dict String → Dict String
unfolding put_replaced
put_all_replaced [] news values = values
put_all_replaced (old ∷ olds) news values =
    put_all_replaced olds news (put_replaced old news values)

-- The fallback without a captured response: every consumed value of the kind is replaced.
unfoldable pub put_consumed : ProducedValue → List ConsumedValue → Dict String → Dict String
unfolding put
put_consumed new [] values = values
put_consumed new (c ∷ cs) values = put_consumed new cs (
    if same_kind c.kind new.kind && not (str_eq c.value new.value)
    then put c.value new.value values
    else values)

unfoldable pub put_all_consumed :
    List ProducedValue → List ConsumedValue → Dict String → Dict String
unfolding put_consumed
put_all_consumed [] consumed values = values
put_all_consumed (new ∷ news) consumed values =
    put_all_consumed news consumed (put_consumed new consumed values)

-- The bytes of `capturedResponseBody`, whatever it says of them: a text that does not decode gives
-- those before its fault.
unfoldable pub captured_bytes : Reader → Event → String
captured_bytes reader e =
    let encoded = if e.response_captured then e.response_body_b64 else e.body_b64 in
    elim (captured_response_body reader.decode e) [
      | some body ↦ body
      | none ↦ if is_empty_text encoded then "" else reader.decoded_part encoded
    ]

-- `UpdateState`, with the consumed values of all captured events in the order of the events
unfoldable pub update_state :
    Reader → List ConsumedValue → Event → Values → String → Dict String → Dict String
unfolding extract_response_values put_all_replaced put_all_consumed captured_bytes
update_state reader consumed e live_headers live_body values =
    let live = extract_response_values reader live_headers live_body in
    let captured =
      extract_response_values reader (captured_response_headers e) (captured_bytes reader e) in
    let replaced = put_all_replaced captured live values in
    if is_empty captured then put_all_consumed live consumed replaced else replaced

unfoldable pub all_consumers : List Event → List ConsumedValue
unfolding identify_consumers
all_consumers [] = []
all_consumers (e ∷ es) = identify_consumers e ++ all_consumers es
