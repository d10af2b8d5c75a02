-- ===== src/Json.antt =====
-- A JSON value as Go's `any` holds it, and the JSONPath subset of pkg/matcher/matcher.go. A number
-- is kept as its text. An object is an association list, read at the first field of a name.
use inferno_sim.Prelude.{
  subst, ℕ, zero, suc, ◌+◌, ◌-◌, ◌*◌, ◌/◌, ◌%◌, ◌^◌, ◌≤◌, ◌<◌, min, max, String, ◌≡◌, refl, sym, ap,
  ◌∙◌, ◌≢◌, ◌↔◌, ◌⊎◌, inl, inr, Bool, true, false, not, ◌&&◌, ◌||◌, Option, none, some, List, [],
  ◌∷◌, ◌++◌, map, reverse, arith, str_eq, eq_iff, eq_refl, ltb, leb, ◌==◌, if◌then◌else◌, ltb→lt,
  lt→ltb, leb→le, ==_iff, Bool-cases, Option-cases,
}
use inferno_sim.Prelude.Lists.{
  length, get_elem?, set, take, drop, any, is_empty, count_if, length-append, take-append-drop,
  length-take, length-drop, take_all, drop_all, All, All-append, All-get_elem?, length-map,
  All_mono,
}
use inferno_sim.Prelude.Int.{ℤ, pos, negsuc, pos_part, neg_part, ltb_ℤ, ◌≤ℤ◌}
use inferno_sim.Prelude.Result.{
  Result, ok, err, ◌>>=◌, ◌>>◌, reject_if, >>=-eq-ok, reject_if-ok, guarded-ok, Result-cases,
}
use inferno_sim.Prelude.Text.{
  equal_fold, trim_space, is_blank, is_empty_text, equal_fold_refl, equal_fold_sym,
  equal_fold_trans, equal_fold_congr, str_eq-true, str_eq-false,
}
use inferno_sim.Prelude.Dict.{Dict, lookup, put, lookup-put, has_key, member}
pub mod Access
pub mod Parsing
use Prim.Native.Char.{code}
use Prim.Native.String

mutual
  pub data Json : Type 0 where
    null : Json
    bool : Bool → Json
    num : String → Json
    text : String → Json
    arr : Items → Json
    obj : Fields → Json

  pub data Items : Type 0 where
    nil : Items
    cons : Json → Items → Items

  pub data Fields : Type 0 where
    end : Fields
    field : String → Json → Fields → Fields

-- `array[index]`, with the bounds test before it
unfoldable pub item_at : ℕ → Items → Option Json
item_at i nil = none
item_at zero (cons v vs) = some v
item_at (suc i) (cons v vs) = item_at i vs

unfoldable pub set_item : ℕ → Json → Items → Items
set_item i w nil = nil
set_item zero w (cons v vs) = cons w vs
set_item (suc i) w (cons v vs) = cons v (set_item i w vs)

-- `value, ok := object[key]`
unfoldable pub field_at : String → Fields → Option Json
field_at k end = none
field_at k (field j v fs) = if str_eq j k then some v else field_at k fs

-- `object[key] = value` at a field that is there
unfoldable pub set_field : String → Json → Fields → Fields
set_field k w end = end
set_field k w (field j v fs) = if str_eq j k then field j w fs else field j v (set_field k w fs)

-- `delete(object, key)`
unfoldable pub delete_field : String → Fields → Fields
delete_field k end = end
delete_field k (field j v fs) =
    if str_eq j k then delete_field k fs else field j v (delete_field k fs)

-- `jsonPathToken`
pub data Token : Type 0 where
  key : String → Token
  index : ℕ → Token

-- The text before the first `.` or `[`, and the rest from there on.
unfoldable pub split_key : String → String × String
split_key String.[] = ("", "")
split_key (String.◌∷◌ c s) =
    let (before, rest) = split_key s in
    if code c == b'.' || code c == b'[' then ("", String.◌∷◌ c s) else (String.◌∷◌ c before, rest)

-- The text before the first `]` and the text after it.
unfoldable pub split_close : String → Option (String × String)
split_close String.[] = none
split_close (String.◌∷◌ c s) =
    let later = split_close s in
    if code c == b']'
    then some ("", s)
    else elim later [ none ↦ none | some (before, rest) ↦ some (String.◌∷◌ c before, rest) ]

unfoldable pub digits_from : ℕ → String → Option ℕ
digits_from n String.[] = some n
digits_from n (String.◌∷◌ c s) =
    let rest = digits_from (n * 10 + (code c - b'0')) s in
    if leb b'0' (code c) && leb (code c) b'9' then rest else none

-- A value above the largest `int` is refused.
abbrev pub int_limit : ℕ
int_limit = 2 ^ 63

unfoldable pub digits : String → Option ℕ
unfolding digits_from
digits String.[] = none
digits (String.◌∷◌ c s) = digits_from 0 (String.◌∷◌ c s)

abbrev in_range : Option ℕ → Option ℕ
in_range none = none
in_range (some n) = if ltb n int_limit then some n else none

abbrev zero_only : Option ℕ → Option ℕ
zero_only none = none
zero_only (some n) = if n == 0 then some 0 else none

-- strconv.Atoi, with a negative result refused: an index
unfoldable pub index_of_text : String → Option ℕ
unfolding digits
index_of_text String.[] = none
index_of_text (String.◌∷◌ c s) =
    if code c == b'+'
    then in_range (digits s)
    else if code c == b'-'
    then zero_only (digits s)
    else in_range (digits (String.◌∷◌ c s))

-- `strings.TrimPrefix(s, ".")`, one dot
unfoldable pub drop_dot : String → String
drop_dot String.[] = ""
drop_dot (String.◌∷◌ c s) = if code c == b'.' then s else String.◌∷◌ c s

-- `[index]` at the head of the text, and what follows it; the text behind `[` is given.
unfoldable pub read_index : String → Option (ℕ × String)
unfolding split_close index_of_text drop_dot
read_index s = elim (split_close s) [
  | none ↦ none
  | some (inner, rest) ↦ elim (index_of_text inner) [
    | none ↦ none
    | some n ↦ some (n, drop_dot rest)
  ]
]

abbrev with_key : String → List Token → List Token
with_key k ts = if is_empty_text k then ts else key k ∷ ts

abbrev pub Tokens : Type 0
Tokens = Option (List Token)

abbrev add : List Token → Tokens → Tokens
add ts none = none
add ts (some us) = some (ts ++ us)

-- A round of the loop of `parseJSONPath`, given the key and what stands behind it.
unfoldable pub round : (String → Tokens) → String → String → Tokens
unfolding read_index
round next k String.[] = some (with_key k [])
round next k (String.◌∷◌ d more) =
    if code d == b'.' then add (with_key k []) (next more) else elim (read_index more) [
      | none ↦ none
      | some (n, after) ↦ add (with_key k (index n ∷ [])) (next after)
    ]

-- The loop of `parseJSONPath` over what remains of the path. A round takes a character at least, so
-- the path's length bounds the rounds.
unfoldable pub tokens_from : ℕ → String → Tokens
unfolding split_key round
tokens_from zero s = none
tokens_from (suc fuel) String.[] = some []
tokens_from (suc fuel) (String.◌∷◌ c s) =
    round (tokens_from fuel) (split_key (String.◌∷◌ c s)).0 (split_key (String.◌∷◌ c s)).1

-- What `parseJSONPath` does behind the `$`: `.` and then keys, or `[`.
unfoldable pub tokens_after_root : String → Tokens
unfolding tokens_from
tokens_after_root String.[] = some []
tokens_after_root (String.◌∷◌ d s) =
    if code d == b'.'
    then tokens_from (suc (String.count s)) s
    else if code d == b'['
    then tokens_from (suc (String.count (String.◌∷◌ d s))) (String.◌∷◌ d s)
    else none

-- `parseJSONPath`; `none` is its error.
unfoldable pub parse_json_path : String → Tokens
unfolding tokens_after_root
parse_json_path String.[] = none
parse_json_path (String.◌∷◌ c s) = if code c == b'$' then tokens_after_root s else none

-- The walk of `JSONPathValue`.
unfoldable pub value_at : List Token → Json → Option Json
unfolding item_at field_at
value_at [] v = some v
value_at (index i ∷ ts) (arr vs) = elim (item_at i vs) [ none ↦ none | some v ↦ value_at ts v ]
value_at (key k ∷ ts) (obj fs) = elim (field_at k fs) [ none ↦ none | some v ↦ value_at ts v ]
value_at _ _ = none

-- The walk of `removeJSONPath`, which changes the document in place.
unfoldable pub remove_at : List Token → Json → Json
unfolding item_at set_item field_at set_field delete_field
remove_at [] v = v
remove_at (index i ∷ []) (arr vs) = arr (set_item i null vs)
remove_at (key k ∷ []) (obj fs) = obj (delete_field k fs)
remove_at (index i ∷ t ∷ ts) (arr vs) = elim (item_at i vs) [
  | none ↦ arr vs
  | some v ↦ arr (set_item i (remove_at (t ∷ ts) v) vs)
]
remove_at (key k ∷ t ∷ ts) (obj fs) = elim (field_at k fs) [
  | none ↦ obj fs
  | some v ↦ obj (set_field k (remove_at (t ∷ ts) v) fs)
]
remove_at _ v = v

-- `JSONPathValue`
unfoldable pub json_path_value : Json → String → Option Json
unfolding parse_json_path value_at
json_path_value root path = elim (parse_json_path path) [ none ↦ none | some ts ↦ value_at ts root ]

-- `removeJSONPath`
unfoldable pub remove_json_path : Json → String → Json
unfolding parse_json_path remove_at
remove_json_path root path = elim (parse_json_path path) [
  | none ↦ root
  | some ts ↦ remove_at ts root
]
