-- ===== src/Json/Parsing.antt =====
-- The rounds of the path parser of pkg/matcher/matcher.go.
use inferno_sim.Prelude.{
  ℕ, zero, suc, ◌≤◌, ◌<◌, String, ◌≡◌, refl, inl, inr, some, [], ◌∷◌, arith, ◌==◌, Bool-cases,
  Option-cases,
}
use Prim.Native.String
use Prim.Native.Char.{code}
use text.Mathlib.TextLemmas.{length-cons}
use inferno_sim.Json.{
  key, index, split_key, split_close, drop_dot, index_of_text, read_index, Tokens, round,
  tokens_from, parse_json_path,
}

split_key-le : (s : String) → String.count (split_key s).1 ≤ String.count s
unfolding split_key
split_key-le String.[] = omega arith
split_key-le (String.◌∷◌ c s) = ground (arith, split_key-le s, length-cons c s)

parse_sample : parse_json_path "$.orders[0].id" ≡ some (key "orders" ∷ index 0 ∷ key "id" ∷ [])
unfolding parse_json_path
parse_sample = refl

split_close-le :
    (s before rest : String)
    → split_close s ≡ some (before, rest)
    → String.count rest ≤ String.count s
unfolding split_close
split_close-le String.[] before rest h = absurd (cc)
split_close-le (String.◌∷◌ c s) before rest h = elim (Option-cases (split_close s)) [
  | inl e ↦ ground (arith, length-cons c s)
  | inr ((a, b), e) ↦ ground (arith, length-cons c s, split_close-le s a b e)
]

drop_dot-le : (s : String) → String.count (drop_dot s) ≤ String.count s
unfolding drop_dot
drop_dot-le String.[] = omega arith
drop_dot-le (String.◌∷◌ c s) = ground (arith, length-cons c s)

read_index-le :
    (s : String) (n : ℕ) (after : String)
    → read_index s ≡ some (n, after)
    → String.count after ≤ String.count s
unfolding read_index
read_index-le s n after h = elim (Option-cases (split_close s)) [
  | inl e ↦ absurd (ground arith)
  | inr ((inner, rest), e) ↦ elim (Option-cases (index_of_text inner)) [
    | inl e' ↦ absurd (ground arith)
    | inr (m, e') ↦ ground (arith, split_close-le s inner rest e, drop_dot-le rest)
  ]
]

round_congr :
    (next next' : String → Tokens) (k r : String)
    → ((s : String) → String.count s < String.count r → next s ≡ next' s)
    → round next k r ≡ round next' k r
unfolding round
round_congr next next' k String.[] h = refl
round_congr next next' k (String.◌∷◌ d more) h = elim (Bool-cases (code d == b'.')) [
  | inl e ↦ rw e (rw (h more (omega (arith, length-cons d more))))
  | inr e ↦ elim (Option-cases (read_index more)) [
    | inl e' ↦ rw (e, e')
    | inr ((n, after), e') ↦
        rw (e, e') (rw (h after (omega (arith, length-cons d more, read_index-le more n after e'))))
  ]
]

-- With fuel above the length of the path the parser does not run out of it: all such fuels give
-- one result.
pub tokens_from_fuel :
    (f g : ℕ) (s : String)
    → String.count s < f
    → String.count s < g
    → tokens_from f s ≡ tokens_from g s
unfolding tokens_from
tokens_from_fuel zero g s h k = absurd (omega arith)
tokens_from_fuel (suc f) zero s h k = absurd (omega arith)
tokens_from_fuel (suc f) (suc g) String.[] h k = refl
tokens_from_fuel (suc f) (suc g) (String.◌∷◌ c s) h k =
    round_congr (tokens_from f) (tokens_from g) (split_key (String.◌∷◌ c s)).0
      (split_key (String.◌∷◌ c s)).1
      (λ t l.
        tokens_from_fuel f g t (omega (arith, split_key-le (String.◌∷◌ c s), l))
          (omega (arith, split_key-le (String.◌∷◌ c s), l)))
