-- ===== src/Prelude/Text.antt =====
-- Go's `strings` functions on the texts that the program reads: header names, methods, states and
-- topics, which are ASCII. A Go string and a `[]byte` are both a native `String`.
use Prim.Native.Nat.{ℕ, ◌+◌}
use Prim.Native.Char.{code}
use Prim.Native.String.{String}
use mathlib.Core.Path.{◌≡◌, refl, ◌∙◌}
use mathlib.Core.Bool.{Bool, true, false, ◌&&◌, ◌||◌}
use mathlib.Core.List.{List, [], ◌∷◌, map}
use native.Mathlib.Omega.{arith}
use text.Mathlib.Text.{◌==◌ as str_eq}
use text.Mathlib.TextEquality.{eq_iff}
use inferno_sim.Prelude.Tests.{leb, ◌==◌, if◌then◌else◌}

-- The code points of a text.
abbrev pub codes : String → List ℕ
codes String.[] = []
codes (String.◌∷◌ first rest) = code first ∷ codes rest

unfoldable pub same_codes : List ℕ → List ℕ → Bool
same_codes [] [] = true
same_codes (a ∷ as') (b ∷ bs) = a == b && same_codes as' bs
same_codes _ _ = false

unfoldable pub lower_code : ℕ → ℕ
lower_code c = if leb b'A' c && leb c b'Z' then c + 32 else c

unfoldable pub folded : String → List ℕ
unfolding lower_code
folded s = map lower_code (codes s)

-- strings.EqualFold
unfoldable pub equal_fold : String → String → Bool
unfolding same_codes
equal_fold s t = same_codes (folded s) (folded t)

unfoldable pub is_space : ℕ → Bool
is_space c = c == 32 || (leb 9 c && leb c 13)

unfoldable pub trim_left : String → String
unfolding is_space
trim_left String.[] = ""
trim_left (String.◌∷◌ c s) = if is_space (code c) then trim_left s else String.◌∷◌ c s

unfoldable pub reverse_onto : String → String → String
reverse_onto t String.[] = t
reverse_onto t (String.◌∷◌ c s) = reverse_onto (String.◌∷◌ c t) s

-- strings.TrimSpace
unfoldable pub trim_space : String → String
unfolding trim_left reverse_onto
trim_space s = reverse_onto "" (trim_left (reverse_onto "" (trim_left s)))

-- strings.TrimSpace(s) == ""
abbrev pub is_blank : String → Bool
is_blank s = str_eq (trim_space s) ""

-- s == ""
abbrev pub is_empty_text : String → Bool
is_empty_text s = str_eq s ""

pub same_codes_refl : (s : List ℕ) → same_codes s s ≡ true
unfolding same_codes
same_codes_refl [] = refl
same_codes_refl (c ∷ s) = ground (arith, same_codes_refl s)

pub same_codes-eq : (s t : List ℕ) → same_codes s t ≡ true → s ≡ t
unfolding same_codes
same_codes-eq [] [] h = refl
same_codes-eq (a ∷ s) (b ∷ t) h = ground (arith, same_codes-eq s t)
same_codes-eq [] (b ∷ t) h = cc
same_codes-eq (a ∷ s) [] h = cc

pub equal_fold-folded : (s t : String) → equal_fold s t ≡ true → folded s ≡ folded t
unfolding equal_fold
equal_fold-folded s t h = same_codes-eq (folded s) (folded t) h

pub folded-equal_fold : (s t : String) → folded s ≡ folded t → equal_fold s t ≡ true
unfolding equal_fold
folded-equal_fold s t e = rw e (same_codes_refl (folded t))

pub equal_fold_refl : (s : String) → equal_fold s s ≡ true
unfolding equal_fold
equal_fold_refl s = same_codes_refl (folded s)

pub equal_fold_sym : (s t : String) → equal_fold s t ≡ true → equal_fold t s ≡ true
unfolding equal_fold
equal_fold_sym s t h = rw (same_codes-eq (folded s) (folded t) h) (same_codes_refl (folded t))

pub equal_fold_trans :
    (s t u : String) → equal_fold s t ≡ true → equal_fold t u ≡ true → equal_fold s u ≡ true
unfolding equal_fold
equal_fold_trans s t u h k =
    rw (same_codes-eq (folded s) (folded t) h ∙ same_codes-eq (folded t) (folded u) k)
      (same_codes_refl (folded u))

-- Texts that fold alike fold alike to any third.
pub equal_fold_congr : (s t u : String) → equal_fold s t ≡ true → equal_fold s u ≡ equal_fold t u
unfolding equal_fold
equal_fold_congr s t u h = rw (same_codes-eq (folded s) (folded t) h)

-- A comparison is decided one way or the other, with the fact that it stands for.
pub str_eq-true : (s t : String) → str_eq s t ≡ true → s ≡ t
str_eq-true s t h = (eq_iff s t).0 h

pub str_eq-false : (s t : String) → str_eq s t ≡ false → s ≡ t → ⊥
str_eq-false s t h e = ground (arith, eq_iff s t)

-- strings.TrimSuffix, on code points
unfoldable pub drop_suffix : List ℕ → List ℕ → List ℕ
unfolding same_codes
drop_suffix suffix [] = []
drop_suffix suffix (c ∷ s) = if same_codes (c ∷ s) suffix then [] else c ∷ drop_suffix suffix s
