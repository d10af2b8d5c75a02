-- ===== src/Prelude/TextOrder.antt =====
-- The order of texts by their code points, as Go's `<` has it on UTF-8 texts.
use Prim.Native.Nat.{ℕ, Ordering, compare as compare_ℕ}
use Prim.Native.Char.{code}
use Prim.Native.String.{String, compare, then as or_else}
use Prim.Native.String.compare
use mathlib.Core.Path.{◌≡◌, refl, sym, ap, ◌∙◌}
use mathlib.Core.Bool.{Bool, true, false, ◌&&◌, ◌||◌}
use mathlib.Core.List.{List, [], ◌∷◌}
use native.Mathlib.Omega.{arith, compare-lt, compare-eq, compare-gt}
use text.Mathlib.TextEquality.{codes_equal}
use text.Mathlib.TextPositions.{compare_refl, compare_self}
use inferno_sim.Prelude.Tests.{ltb, ◌==◌}
use inferno_sim.Prelude.Text.{codes}

abbrev pub is_lt : Ordering → Bool
is_lt Ordering.lt = true
is_lt _ = false

code_less : List ℕ → List ℕ → Bool
code_less s [] = false
code_less [] (d ∷ t) = true
code_less (c ∷ s) (d ∷ t) = ltb c d || (c == d && code_less s t)

then_less :
    (o : Ordering) (c d : ℕ) (r : Ordering) (s t : List ℕ)
    → compare_ℕ c d ≡ o
    → is_lt r ≡ code_less s t
    → is_lt (or_else o r) ≡ code_less (c ∷ s) (d ∷ t)
unfolding code_less
then_less Ordering.lt c d r s t e h = ground (arith, compare-lt c d e)
then_less Ordering.eq c d r s t e h = ground (arith, compare-eq c d e)
then_less Ordering.gt c d r s t e h = ground (arith, compare-gt c d e)

compare-codes : (s t : String) → is_lt (compare s t) ≡ code_less (codes s) (codes t)
unfolding code_less
compare-codes String.[] String.[] = ap is_lt compare.nil-nil
compare-codes String.[] (String.◌∷◌ d t) = ap is_lt (compare.nil-cons d t)
compare-codes (String.◌∷◌ c s) String.[] = ap is_lt (compare.cons-nil c s)
compare-codes (String.◌∷◌ c s) (String.◌∷◌ d t) =
    ap is_lt (compare.cons-cons c d s t)
    ∙ then_less (compare_ℕ (code c) (code d)) (code c) (code d) (compare s t) (codes s) (codes t)
        refl (compare-codes s t)

code_less-asym : (s t : List ℕ) → code_less s t ≡ true → code_less t s ≡ false
unfolding code_less
code_less-asym [] [] h = refl
code_less-asym [] (d ∷ t) h = refl
code_less-asym (c ∷ s) [] h = cc
code_less-asym (c ∷ s) (d ∷ t) h = ground (arith, code_less-asym s t)

code_less-not_trans :
    (s t u : List ℕ) → code_less s t ≡ false → code_less t u ≡ false → code_less s u ≡ false
unfolding code_less
code_less-not_trans s t [] h k = refl
code_less-not_trans [] [] (e ∷ u) h k = cc
code_less-not_trans [] (d ∷ t) (e ∷ u) h k = cc
code_less-not_trans (c ∷ s) [] (e ∷ u) h k = cc
code_less-not_trans (c ∷ s) (d ∷ t) (e ∷ u) h k = ground (arith, code_less-not_trans s t u)

code_less-antisym : (s t : List ℕ) → code_less s t ≡ false → code_less t s ≡ false → s ≡ t
unfolding code_less
code_less-antisym [] [] h k = refl
code_less-antisym [] (d ∷ t) h k = absurd (cc)
code_less-antisym (c ∷ s) [] h k = absurd (cc)
code_less-antisym (c ∷ s) (d ∷ t) h k = ground (arith, code_less-antisym s t)

codes-injective : (s t : String) → codes s ≡ codes t → s ≡ t
codes-injective String.[] String.[] h = refl
codes-injective String.[] (String.◌∷◌ d t) h = absurd (cc)
codes-injective (String.◌∷◌ c s) String.[] h = absurd (cc)
codes-injective (String.◌∷◌ c s) (String.◌∷◌ d t) h =
    let first : code c ≡ code d = cc in
    let rest : codes s ≡ codes t = cc in
    let same : c ≡ d =
      codes_equal c d (ap (compare_ℕ (code c)) (sym first) ∙ compare_self (code c)) in
    cc (same, codes-injective s t rest)

pub less_irrefl : (s : String) → is_lt (compare s s) ≡ false
less_irrefl s = ap is_lt (compare_refl s)

pub less_asym : (s t : String) → is_lt (compare s t) ≡ true → is_lt (compare t s) ≡ false
less_asym s t h =
    compare-codes t s ∙ code_less-asym (codes s) (codes t) (sym (compare-codes s t) ∙ h)

pub less-not_trans :
    (s t u : String)
    → is_lt (compare s t) ≡ false
    → is_lt (compare t u) ≡ false
    → is_lt (compare s u) ≡ false
less-not_trans s t u h k =
    compare-codes s u
    ∙ code_less-not_trans (codes s) (codes t) (codes u) (sym (compare-codes s t) ∙ h)
        (sym (compare-codes t u) ∙ k)

-- Texts of which neither is before the other are equal.
pub less_antisym :
    (s t : String) → is_lt (compare s t) ≡ false → is_lt (compare t s) ≡ false → s ≡ t
less_antisym s t h k = codes-injective s t (
    code_less-antisym (codes s) (codes t) (sym (compare-codes s t) ∙ h)
      (sym (compare-codes t s) ∙ k))
