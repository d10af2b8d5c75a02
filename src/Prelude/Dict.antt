-- ===== src/Prelude/Dict.antt =====
-- Go's map from texts, as an association list: a missing key reads as `none`.
use Prim.Native.String.{String}
use Prim.Native.Nat.{ℕ, zero, suc}
use mathlib.Core.Path.{◌≡◌, refl, sym, ap, ◌∙◌, subst}
use mathlib.Core.Logic.{◌≢◌}
use mathlib.Core.Bool.{Bool, true, false}
use mathlib.Core.List.{List, [], ◌∷◌, map}
use mathlib.Core.Option.{Option, none, some}
use native.Mathlib.Omega.{arith}
use text.Mathlib.Text.{◌==◌ as str_eq}
use text.Mathlib.TextEquality.{eq_iff}
use inferno_sim.Prelude.Tests.{if◌then◌else◌}
use inferno_sim.Prelude.Lists.{All, get_elem?}

abbrev pub Dict {ℓ} : Type ℓ → Type ℓ
Dict V = List (String × V)

module _ {ℓ} {V : Type ℓ} where
  -- `value, ok := entries[wanted]`
  unfoldable pub lookup : String → Dict V → Option V
  lookup wanted [] = none
  lookup wanted ((name, value) ∷ rest) =
      if str_eq name wanted then some value else lookup wanted rest

  -- `entries[name] = value`: an entry that is there keeps its place, a new one stands last.
  unfoldable pub put : String → V → Dict V → Dict V
  put name value [] = (name, value) ∷ []
  put name value ((other, old) ∷ rest) =
      if str_eq other name then (name, value) ∷ rest else (other, old) ∷ put name value rest

  -- What is read after an assignment: the value under its name, and the old values elsewhere.
  pub lookup-put :
      (name wanted : String) (value : V) (entries : Dict V)
      → lookup wanted (put name value entries)
        ≡ (if str_eq name wanted then some value else lookup wanted entries)
  unfolding lookup put
  lookup-put name wanted value [] = refl
  lookup-put name wanted value ((other, old) ∷ rest) =
      let later = lookup-put name wanted value rest in
      ground (arith, eq_iff other wanted, eq_iff other name, eq_iff name wanted, later)

  abbrev pub has_key : String → Dict V → Bool
  has_key k m = elim (lookup k m) [ none ↦ false | some v ↦ true ]

-- A set of texts, as the source's `map[string]bool` and `map[string]struct{}`.
unfoldable pub member : String → List String → Bool
member k [] = false
member k (j ∷ js) = if str_eq j k then true else member k js

-- No two of the texts are equal.
abbrev pub Distinct : List String → Type 0
Distinct [] = Unit
Distinct (j ∷ js) = All (λ k. j ≢ k) js × Distinct js

pub not-member-cons :
    (k j : String) (js : List String) → j ≢ k → member k js ≡ false → member k (j ∷ js) ≡ false
unfolding member
not-member-cons k j js h m = ground (arith, eq_iff j k)

pub member-cons_parts :
    (k j : String) (js : List String) → member k (j ∷ js) ≡ false → (j ≢ k) × (member k js ≡ false)
unfolding member
member-cons_parts k j js m = (ground (arith, eq_iff j k), ground arith)

other-named {ℓ} :
    {A : Type ℓ} (name : A → String) (x : A) (xs : List A) (i : ℕ) (a : A)
    → All (λ k. name x ≢ k) (map name xs)
    → get_elem? xs i ≡ some a
    → name x ≢ name a
other-named name x [] i a h e = absurd (cc)
other-named name x (y ∷ ys) zero a (n, h) e = subst (λ z. name x ≢ name z) (some_inj e) n
  where
    some_inj : some y ≡ some a → y ≡ a
    some_inj p = cc
other-named name x (y ∷ ys) (suc i) a (n, h) e = other-named name x ys i a h e

-- Items with distinct names: a name determines the place.
pub place_of_name {ℓ} :
    {A : Type ℓ} (name : A → String) (xs : List A) (i j : ℕ) (a b : A)
    → Distinct (map name xs)
    → get_elem? xs i ≡ some a
    → get_elem? xs j ≡ some b
    → name a ≡ name b
    → a ≡ b
place_of_name name [] i j a b d e f h = absurd (cc)
place_of_name name (x ∷ xs) zero zero a b d e f h = some_inj (sym e ∙ f)
  where
    some_inj : some a ≡ some b → a ≡ b
    some_inj p = cc
place_of_name name (x ∷ xs) zero (suc j) a b (n, d) e f h =
    absurd (other-named name x xs j b n f (ap name (some_inj e) ∙ h))
  where
    some_inj : some x ≡ some a → x ≡ a
    some_inj p = cc
place_of_name name (x ∷ xs) (suc i) zero a b (n, d) e f h =
    absurd (other-named name x xs i a n e (ap name (some_inj f) ∙ sym h))
  where
    some_inj : some x ≡ some b → x ≡ b
    some_inj p = cc
place_of_name name (x ∷ xs) (suc i) (suc j) a b (n, d) e f h = place_of_name name xs i j a b d e f h
