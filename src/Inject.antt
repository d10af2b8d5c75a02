-- ===== src/Inject.antt =====
-- pkg/inject/inject.go: the rules that inject faults into the calls to a dependency. Durations and
-- numbers are read by Go's time and strconv, which are parameters; a duration is in nanoseconds.
use inferno_sim.Prelude.{
  subst, ℕ, zero, suc, ◌+◌, ◌-◌, ◌*◌, ◌/◌, ◌%◌, ◌^◌, ◌≤◌, ◌<◌, min, max, String, ◌≡◌, refl, sym, ap,
  ◌∙◌, ◌≢◌, ◌↔◌, ◌⊎◌, inl, inr, Bool, true, false, not, ◌&&◌, ◌||◌, Option, none, some, List, [],
  ◌∷◌, ◌++◌, map, reverse, arith, str_eq, eq_iff, eq_refl, ltb, leb, ◌==◌, if◌then◌else◌, ltb→lt,
  lt→ltb, leb→le, ==_iff, Bool-cases, Option-cases,
}
use inferno_sim.Prelude.Lists.{
  length, get_elem?, set, take, drop, any, is_empty, count_if, length-append, take-append-drop,
  length-take, length-drop, take_all, drop_all, All, All-append, All-get_elem?, length-map,
  All_mono, All_of_places,
}
use inferno_sim.Prelude.Int.{ℤ, pos, negsuc, pos_part, neg_part, ltb_ℤ, ◌≤ℤ◌}
use inferno_sim.Prelude.Result.{
  Result, ok, err, ◌>>=◌, ◌>>◌, reject_if, >>=-eq-ok, reject_if-ok, guarded-ok, Result-cases,
}
use inferno_sim.Prelude.Text.{
  equal_fold, trim_space, is_blank, is_empty_text, equal_fold_refl, equal_fold_sym,
  equal_fold_trans, equal_fold_congr, str_eq-true, str_eq-false,
}
use inferno_sim.Prelude.Dict.{
  Dict, lookup, put, lookup-put, has_key, member, Distinct, not-member-cons, member-cons_parts,
  place_of_name,
}
use Prim.Native.Char.{code}
use inferno_sim.Prelude.Text.{is_space}
pub mod Parsing

pub record Formats : Type 0 where
  pub parse_duration : String → Option ℤ
  pub atoi : String → Option ℤ

pub record Rule : Type 0 where
  pub dep : String
  pub add_latency : ℤ
  pub timeout : ℤ
  pub retry_limit : ℤ

pub data Error : Type 0 where
  bad_token bad_latency bad_timeout bad_retries : String → Error
  negative_latency timeout_not_positive missing_dep : Error
  unsupported : List String → Error

abbrev pub add_word : String → List String → List String
add_word w ws = if is_empty_text w then ws else w ∷ ws

-- The text before the first space, and the words after it.
unfoldable pub split_word : String → String × List String
unfolding is_space
split_word String.[] = ("", [])
split_word (String.◌∷◌ c s) =
    let (w, ws) = split_word s in
    if is_space (code c) then ("", add_word w ws) else (String.◌∷◌ c w, ws)

-- strings.Fields
unfoldable pub fields : String → List String
unfolding split_word
fields s = let (w, ws) = split_word s in add_word w ws

-- strings.SplitN(s, "=", 2), with `none` where there is no `=`
unfoldable pub split_pair : String → Option (String × String)
split_pair String.[] = none
split_pair (String.◌∷◌ c s) =
    let later = split_pair s in
    if code c == b'='
    then some ("", s)
    else elim later [ none ↦ none | some (k, v) ↦ some (String.◌∷◌ c k, v) ]

-- strings.TrimPrefix(s, "+")
unfoldable pub trim_plus : String → String
trim_plus String.[] = ""
trim_plus (String.◌∷◌ c s) = if code c == b'+' then s else String.◌∷◌ c s

abbrev pub or_error {ℓ} : {A : Type ℓ} → Error → Option A → Result Error A
or_error e none = err e
or_error e (some a) = ok a

abbrev pub empty_rule : Rule
empty_rule = record { dep = ""; add_latency = pos 0; timeout = pos 0; retry_limit = negsuc 0 }

module _ (fmt : Formats) where
  -- The `switch` on the key of a token, for the rule and the unsupported keys so far.
  unfoldable pub set_key : Rule → List String → String → String → Result Error (Rule × List String)
  unfolding trim_plus
  set_key r unknown k v =
      if str_eq k "dep"
      then ok (record r { dep = v }, unknown)
      else if str_eq k "latency"
      then (do
        d ← or_error (bad_latency (trim_plus v)) (fmt.parse_duration (trim_plus v))
        reject_if (ltb_ℤ d (pos 0)) negative_latency
        ok (record r { add_latency = d }, unknown))
      else if str_eq k "timeout"
      then (do
        d ← or_error (bad_timeout v) (fmt.parse_duration v)
        reject_if (not (ltb_ℤ (pos 0) d)) timeout_not_positive
        ok (record r { timeout = d }, unknown))
      else if str_eq k "retries"
      then (do
        n ← or_error (bad_retries v) (fmt.atoi v)
        reject_if (ltb_ℤ n (pos 0)) (bad_retries v)
        ok (record r { retry_limit = n }, unknown))
      else ok (r, if member k unknown then unknown else k ∷ unknown)

  -- The loop over the tokens of a flag.
  unfoldable pub parse_tokens : Rule → List String → List String → Result Error (Rule × List String)
  unfolding set_key split_pair
  parse_tokens r unknown [] = ok (r, unknown)
  parse_tokens r unknown (p ∷ ps) = do
    kv ← or_error (bad_token p) (split_pair p)
    next ← set_key r unknown kv.0 kv.1
    parse_tokens next.0 next.1 ps

  -- The loop over the flags.
  unfoldable pub parse_flags : List String → List String → Result Error (List Rule × List String)
  unfolding parse_tokens fields
  parse_flags unknown [] = ok ([], unknown)
  parse_flags unknown (raw ∷ flags) = do
    read ← parse_tokens empty_rule unknown (fields raw)
    reject_if (is_empty_text read.0.dep) missing_dep
    rest ← parse_flags read.1 flags
    ok (read.0 ∷ rest.0, rest.1)

  -- `ParseRules`
  unfoldable pub parse_rules : List String → Result Error (List Rule)
  unfolding parse_flags
  parse_rules flags = do
    read ← parse_flags [] flags
    reject_if (not (is_empty read.1)) (unsupported read.1)
    ok read.0

-- `Match`: the first rule of a dependency
unfoldable pub match : String → List Rule → Option Rule
match dep [] = none
match dep (r ∷ rs) = if str_eq r.dep dep then some r else match dep rs
