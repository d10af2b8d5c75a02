-- ===== src/Prelude/Result.antt =====
-- Go's pair of a value and an error: one of the two.
use mathlib.Core.Path.{◌≡◌, refl}
use mathlib.Core.Bool.{Bool, true, false}
use mathlib.Core.Logic.{◌⊎◌, inl, inr}

pub data Result {ℓ κ} (E : Type ℓ) (A : Type κ) : Type (ℓ ⊔ κ) where
  ok : A → Result E A
  err : E → Result E A

infixl 5 ◌>>=◌ ◌>>◌
-- `value, err := first; if err != nil { return err }`, and then what needs the value
abbrev pub ◌>>=◌ {ℓ κ μ} :
    {E : Type ℓ} {A : Type κ} {B : Type μ} → Result E A → (A → Result E B) → Result E B
err failure >>= next = err failure
ok value >>= next = next value

-- The same where there is no value.
abbrev pub ◌>>◌ {ℓ κ} : {E : Type ℓ} {B : Type κ} → Result E (Unit {0}) → Result E B → Result E B
first >> rest = first >>= λ _. rest

-- `if bad { return err }`
abbrev pub reject_if {ℓ} : {E : Type ℓ} → Bool → E → Result E (Unit {0})
reject_if true e = err e
reject_if false e = ok tt

module _ {ℓ κ μ} {E : Type ℓ} {A : Type κ} {B : Type μ} where
  -- A chain that succeeds has a first step that succeeds, and goes on with its value.
  pub >>=-eq-ok :
      (first : Result E A) (next : A → Result E B) {out : B}
      → (first >>= next) ≡ ok out
      → (value : A) × (first ≡ ok value) × (next value ≡ ok out)
  >>=-eq-ok (err failure) next done = cc
  >>=-eq-ok (ok value) next done = (value, refl, done)

pub reject_if-ok {ℓ} :
    {E : Type ℓ} (b : Bool) (e : E) {v : Unit {0}} → reject_if b e ≡ ok v → b ≡ false
reject_if-ok true e h = cc
reject_if-ok false e h = refl

-- A guard in front of a result lets exactly that result through.
pub guarded-ok {ℓ κ} :
    {E : Type ℓ} {A : Type κ} (b : Bool) (e : E) (x : A) {y : A}
    → (reject_if b e >> ok x) ≡ ok y
    → (b ≡ false) × (y ≡ x)
guarded-ok true e x h = absurd (cc)
guarded-ok false e x h = (refl, cc)

pub Result-cases {ℓ κ} :
    {E : Type ℓ} {A : Type κ} (r : Result E A) → ((a : A) × (r ≡ ok a)) ⊎ ((e : E) × (r ≡ err e))
Result-cases (ok a) = inl (a, refl)
Result-cases (err e) = inr (e, refl)
