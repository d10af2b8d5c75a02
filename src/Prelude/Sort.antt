-- ===== src/Prelude/Sort.antt =====
-- `sort.SliceStable`: a stable sort by a strict weak order, with the laws that its callers use.
use mathlib.Core.Path.{◌≡◌, refl, subst}
use mathlib.Core.Bool.{Bool, true, false}
use mathlib.Core.Logic.{inl, inr}
use mathlib.Core.List.{List, [], ◌∷◌, Perm}
use mathlib.Core.List.Perm
use native.Mathlib.Omega.{arith}
use inferno_sim.Prelude.Tests.{if◌then◌else◌, Bool-cases}
use inferno_sim.Prelude.Lists.{All, All_mono, count_if}

-- The order of a `less` function: asymmetric, and "not less" is transitive.
pub record IsStrictWeak {ℓ} {A : Type ℓ} (less : A → A → Bool) : Type ℓ where
  pub asym : (a b : A) → less a b ≡ true → less b a ≡ false
  pub not_trans : (a b c : A) → less a b ≡ false → less b c ≡ false → less a c ≡ false

-- The items that pass a test, in their order.
unfoldable pub keep {ℓ} : {A : Type ℓ} → (A → Bool) → List A → List A
keep p [] = []
keep p (x ∷ xs) = if p x then x ∷ keep p xs else keep p xs

module _ {ℓ} {A : Type ℓ} (less : A → A → Bool) where
  -- Before the first item that is not less: equal items stay in their order.
  unfoldable pub insert : A → List A → List A
  insert x [] = x ∷ []
  insert x (y ∷ ys) = if less y x then y ∷ insert x ys else x ∷ y ∷ ys

  unfoldable pub sort_stable : List A → List A
  unfolding insert
  sort_stable [] = []
  sort_stable (x ∷ xs) = insert x (sort_stable xs)

  abbrev pub IsSorted : List A → Type 0
  IsSorted [] = Unit
  IsSorted (x ∷ xs) = All (λ y. less y x ≡ false) xs × IsSorted xs

  insert-perm : (x : A) (ys : List A) → Perm (insert x ys) (x ∷ ys)
  unfolding insert
  insert-perm x [] = Perm.refl _
  insert-perm x (y ∷ ys) = elim (Bool-cases (less y x)) [
    | inl e ↦ rw e (Perm.trans (Perm.cons y (insert-perm x ys)) (Perm.swap x y ys))
    | inr e ↦ rw e (Perm.refl _)
  ]

  -- Sorting keeps every item, as often as it stood there.
  pub sort_stable-perm : (xs : List A) → Perm (sort_stable xs) xs
  unfolding sort_stable
  sort_stable-perm [] = Perm.refl _
  sort_stable-perm (x ∷ xs) =
      Perm.trans (insert-perm x (sort_stable xs)) (Perm.cons x (sort_stable-perm xs))

  insert-All {κ} : (P : A → Type κ) (x : A) (ys : List A) → P x → All P ys → All P (insert x ys)
  unfolding insert
  insert-All P x [] p h = (p, tt)
  insert-All P x (y ∷ ys) p (q, h) = elim (Bool-cases (less y x)) [
    | inl e ↦ rw e (q, insert-All P x ys p h)
    | inr e ↦ rw e (p, (q, h))
  ]

  pub sort_stable-All {κ} : (P : A → Type κ) (xs : List A) → All P xs → All P (sort_stable xs)
  unfolding sort_stable
  sort_stable-All P [] h = tt
  sort_stable-All P (x ∷ xs) (p, h) = insert-All P x _ p (sort_stable-All P xs h)

  insert-All_parts {κ} :
      (P : A → Type κ) (x : A) (ys : List A) → All P (insert x ys) → P x × All P ys
  unfolding insert
  insert-All_parts P x [] h = h
  insert-All_parts P x (y ∷ ys) h = elim (Bool-cases (less y x)) [
    | inl e ↦
        let (q, r) = subst (All P) (branch-true e) h in
        let (p, s) = insert-All_parts P x ys r in (p, (q, s))
    | inr e ↦ subst (All P) (branch-false e) h
  ]
    where
      branch-true : less y x ≡ true → insert x (y ∷ ys) ≡ y ∷ insert x ys
      branch-true e = rw e

      branch-false : less y x ≡ false → insert x (y ∷ ys) ≡ x ∷ y ∷ ys
      branch-false e = rw e

  -- What holds of all that is sorted held of all before.
  pub sort_stable-All_back {κ} : (P : A → Type κ) (xs : List A) → All P (sort_stable xs) → All P xs
  unfolding sort_stable
  sort_stable-All_back P [] h = tt
  sort_stable-All_back P (x ∷ xs) h =
      let (p, q) = insert-All_parts P x (sort_stable xs) h in (p, sort_stable-All_back P xs q)

  insert-IsSorted : IsStrictWeak less → (x : A) (ys : List A) → IsSorted ys → IsSorted (insert x ys)
  unfolding insert
  insert-IsSorted w x [] h = (tt, tt)
  insert-IsSorted w x (y ∷ ys) (b, h) = elim (Bool-cases (less y x)) [
    | inl e ↦ rw e (insert-All _ x ys (w.asym y x e) b, insert-IsSorted w x ys h)
    | inr e ↦ rw e ((e, All_mono _ _ ys (λ z n. w.not_trans z y x n e) b), (b, h))
  ]

  -- No item of the result is less than one before it.
  pub sort_stable-IsSorted : IsStrictWeak less → (xs : List A) → IsSorted (sort_stable xs)
  unfolding sort_stable
  sort_stable-IsSorted w [] = tt
  sort_stable-IsSorted w (x ∷ xs) = insert-IsSorted w x _ (sort_stable-IsSorted w xs)

  insert-keep :
      (p : A → Bool)
      → ((a b : A) → p a ≡ true → p b ≡ true → less a b ≡ false)
      → (x : A) (ys : List A) → keep p (insert x ys) ≡ keep p (x ∷ ys)
  unfolding insert keep
  insert-keep p same x [] = refl
  insert-keep p same x (y ∷ ys) = ground (arith, insert-keep p same x ys, same y x)

  -- Items that the order does not tell apart stay in the order of the input.
  pub sort_stable-keep :
      (p : A → Bool)
      → ((a b : A) → p a ≡ true → p b ≡ true → less a b ≡ false)
      → (xs : List A) → keep p (sort_stable xs) ≡ keep p xs
  unfolding sort_stable keep
  sort_stable-keep p same [] = refl
  sort_stable-keep p same (x ∷ xs) =
      ground (arith, insert-keep p same x (sort_stable xs), sort_stable-keep p same xs)

  insert-count_if :
      (p : A → Bool) (x : A) (ys : List A) → count_if p (insert x ys) ≡ count_if p (x ∷ ys)
  unfolding insert
  insert-count_if p x [] = refl
  insert-count_if p x (y ∷ ys) = ground (arith, insert-count_if p x ys)

  pub sort_stable-count_if :
      (p : A → Bool) (xs : List A) → count_if p (sort_stable xs) ≡ count_if p xs
  unfolding sort_stable
  sort_stable-count_if p [] = refl
  sort_stable-count_if p (x ∷ xs) =
      ground (arith, insert-count_if p x (sort_stable xs), sort_stable-count_if p xs)
