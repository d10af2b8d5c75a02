-- ===== src/Matcher/Comparing.antt =====
-- pkg/matcher/matcher.go: methods, hosts, queries, headers and paths as a match compares them.
use inferno_sim.Prelude.{
  ℕ, String, Bool, true, false, ◌&&◌, none, some, List, [], ◌∷◌, ◌++◌, map, str_eq, ◌==◌,
  if◌then◌else◌,
}
use inferno_sim.Prelude.Lists.{length}
use inferno_sim.Prelude.Text.{equal_fold, is_empty_text}
use inferno_sim.Prelude.Dict.{Dict, lookup, put, member}
use Prim.Native.String.{compare}
use Prim.Native.Nat.{Ordering}
use inferno_sim.Prelude.Sort.{sort_stable}
use inferno_sim.Prelude.Text.{drop_suffix, folded, lower_code, same_codes, codes}
use inferno_sim.Json.{parse_json_path}
use inferno_sim.Matcher.Externals.{Library, Values, Url}

-- `methodAllowed`
unfoldable pub some_fold : List String → String → Bool
some_fold [] method = false
some_fold (m ∷ ms) method = if equal_fold m method then true else some_fold ms method

unfoldable pub method_allowed : List String → String → Bool
unfolding some_fold
method_allowed [] method = true
method_allowed (m ∷ ms) method = some_fold (m ∷ ms) method

-- `stripDefaultPort`, on code points
unfoldable pub strip_default_port : String → List ℕ
unfolding drop_suffix folded
strip_default_port host = drop_suffix (codes ":443") (drop_suffix (codes ":80") (folded host))

unfoldable pub equal_host : String → String → Bool
unfolding strip_default_port same_codes lower_code
equal_host a b =
    same_codes (map lower_code (strip_default_port a)) (map lower_code (strip_default_port b))

-- `escapedPath`
abbrev pub escaped_path : Url → String
escaped_path u = if is_empty_text u.escaped_path then "/" else u.escaped_path

-- `values.Get(name)`: the first value, or the empty text
unfoldable pub first_value : String → Values → String
first_value name values = elim (lookup name values) [ none ↦ "" | some [] ↦ "" | some (v ∷ vs) ↦ v ]

-- The `clone` of `equalQuery`.
unfoldable pub without : List String → Values → Values
without ignored [] = []
without ignored ((k, vs) ∷ values) =
    if member k ignored then without ignored values else (k, vs) ∷ without ignored values

abbrev pub key_less : String × List String → String × List String → Bool
key_less (a, _) (b, _) = elim (compare a b) [ Ordering.lt ↦ true | _ ↦ false ]

unfoldable pub pairs_of : String → List String → List (String × String)
pairs_of k [] = []
pairs_of k (v ∷ vs) = (k, v) ∷ pairs_of k vs

unfoldable pub pairs_from : Values → List (String × String)
unfolding pairs_of
pairs_from [] = []
pairs_from ((k, vs) ∷ values) = pairs_of k vs ++ pairs_from values

-- `values.Encode()`, before its pairs are escaped and joined: sorted by key
unfoldable pub encode_values : Values → List (String × String)
unfolding pairs_from
encode_values values = pairs_from (sort_stable key_less values)

unfoldable pub same_pairs : List (String × String) → List (String × String) → Bool
same_pairs [] [] = true
same_pairs ((k, v) ∷ ps) ((j, w) ∷ qs) = str_eq k j && str_eq v w && same_pairs ps qs
same_pairs _ _ = false

unfoldable pub equal_query : Values → Values → List String → Bool
unfolding without encode_values same_pairs
equal_query a b ignored =
    same_pairs (encode_values (without ignored a)) (encode_values (without ignored b))

abbrev pub text_less : String → String → Bool
text_less a b = elim (compare a b) [ Ordering.lt ↦ true | _ ↦ false ]

-- `m[name]`, the empty text where the name is missing
abbrev pub get_or_empty : String → Dict String → String
get_or_empty name m = elim (lookup name m) [ none ↦ "" | some value ↦ value ]

abbrev pub keys_of {ℓ} : {V : Type ℓ} → Dict V → List String
keys_of [] = []
keys_of ((k, v) ∷ m) = k ∷ keys_of m

unfoldable pub all_same : Dict String → Dict String → Bool
all_same [] right = true
all_same ((name, value) ∷ left) right =
    str_eq (get_or_empty name right) value && all_same left right

unfoldable pub all_paths : List String → Bool
all_paths [] = true
all_paths (p ∷ ps) = elim (parse_json_path p) [ none ↦ false | some ts ↦ all_paths ps ]

module _ (lib : Library) where
  -- The loop of `canonical` in `equalHeaders`.
  unfoldable pub canonical_headers : List String → Dict String → Values → Dict String
  canonical_headers ignore out [] = out
  canonical_headers ignore out ((name, values) ∷ headers) =
      let canonical = lib.canonical name in
      canonical_headers ignore
        (if member canonical ignore
          then out
          else put canonical (lib.join_nul (sort_stable text_less values)) out)
        headers

  unfoldable pub equal_headers : Values → Values → List String → Bool
  unfolding canonical_headers all_same
  equal_headers a b ignored =
      let ignore = map lib.canonical ignored in
      let left = canonical_headers ignore [] a in
      let right = canonical_headers ignore [] b in
      length left == length right && all_same left right
