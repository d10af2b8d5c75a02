-- ===== src/Lint/Selectors.antt =====
-- pkg/simlint/lint.go: the selector of a rule and the warning on a rule without one.
use inferno_sim.Prelude.{
  ℕ, suc, String, ◌≡◌, refl, ap, inl, inr, Bool, true, false, List, [], ◌∷◌, arith, Bool-cases,
}
use inferno_sim.Prelude.Lists.{any-append, any}
use inferno_sim.Prelude.Text.{is_empty_text, str_eq-true}
use inferno_sim.Prelude.Dict.{member}
use Prim.Native.String
use Prim.Native.String.{len}
use text.Mathlib.TextPositions.{len-append}
use inferno_sim.Matcher.Rules.{Rule}
use inferno_sim.Lint.{
  Code, rule_global, join, selector_key, lint_rules, check_name, rule_unnamed, rule_duplicate_name,
  rule_location,
}

abbrev pub is_global : Code → Bool
is_global rule_global = true
is_global _ = false

not-empty : (s t : String) → is_empty_text (String.◌++◌ s (String.◌++◌ "|" t)) ≡ false
not-empty s t = elim (Bool-cases (is_empty_text (String.◌++◌ s (String.◌++◌ "|" t)))) [
  | inl e ↦
      let nothing : String.◌++◌ s (String.◌++◌ "|" t) ≡ "" = str_eq-true _ "" e in
      absurd (omega (arith, len-append s (String.◌++◌ "|" t), len-append "|" t, ap len nothing))
  | inr e ↦ e
]

-- The separators stand in every selector.
selector_key-not-empty : (r : Rule) → is_empty_text (selector_key r) ≡ false
unfolding selector_key join
selector_key-not-empty r = not-empty (join "," r.methods) _

check_name_global :
    (names : List String) (name at : String)
    → any (λ d. is_global d.code) (check_name rule_unnamed rule_duplicate_name names name at)
      ≡ false
check_name_global names name at = elim (Bool-cases (is_empty_text name)) [
  | inl e ↦ rw e
  | inr e ↦ elim (Bool-cases (member name names)) [ inl f ↦ rw (e, f) | inr f ↦ rw (e, f) ]
]

-- No rule is reported as one that has no selector, not even one without methods, host, path and gRPC
-- method.
pub lint_rules-global :
    (print : ℕ → String) (rs : List (String × Rule)) (i : ℕ) (names : List String)
    → any (λ d. is_global d.code) (lint_rules print rs i names) ≡ false
unfolding lint_rules
lint_rules-global print [] i names = refl
lint_rules-global print ((name, r) ∷ rs) i names =
    let named = check_name_global names name (rule_location print i) in
    let later = lint_rules-global print rs (suc i) (name ∷ names) in
    rw (selector_key-not-empty r, any-append, any-append, named, later)
