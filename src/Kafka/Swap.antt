-- ===== src/Kafka/Swap.antt =====
-- The in-place reordering of pkg/kafkasim/kafka.go.
use inferno_sim.Prelude.{
  ℕ, zero, suc, ◌+◌, ◌-◌, ◌<◌, min, ◌≡◌, refl, ap, ◌∙◌, inl, inr, Bool, true, false, ◌&&◌, some,
  List, [], ◌∷◌, arith, ltb, leb, ◌==◌, if◌then◌else◌, Bool-cases, Option-cases,
}
use inferno_sim.Prelude.Lists.{length, get_elem?, set, count_if, All, All-get_elem?}
use inferno_sim.Kafka.{swap, reverse_range, reorder_from, reorder}

-- The place that a reversed range reads for place `i`.
abbrev pub mirror : ℕ → ℕ → ℕ → ℕ
mirror left right i = if leb left i && leb i right then left + right - i else i

mirror_index :
    (left right i : ℕ)
    → left < right
    → let m = mirror (left + 1) (right - 1) i in
      (if right == m then left else if left == m then right else m) ≡ mirror left right i
mirror_index left right i h = ground arith

two_ifs {ℓ} :
    {B : Type ℓ} (g : ℕ → B) (b b' : Bool) (x y z : ℕ)
    → (if b then g x else if b' then g y else g z) ≡ g (if b then x else if b' then y else z)
two_ifs g true b' x y z = refl
two_ifs g false true x y z = refl
two_ifs g false false x y z = refl

mirror_step {ℓ} :
    {B : Type ℓ} (g : ℕ → B) (left right i : ℕ)
    → left < right
    → let m = mirror (left + 1) (right - 1) i in
      (if right == m then g left else if left == m then g right else g m) ≡ g (mirror left right i)
mirror_step g left right i h =
    two_ifs g (right == mirror (left + 1) (right - 1) i) (left == mirror (left + 1) (right - 1) i)
      left right (mirror (left + 1) (right - 1) i)
    ∙ ap g (mirror_index left right i h)

module _ {ℓ} {A : Type ℓ} where
  count_if-set :
      (p : A → Bool) (xs : List A) (i : ℕ) (old new : A)
      → get_elem? xs i ≡ some old
      → count_if p (set xs i new) + (if p old then 1 else 0)
        ≡ count_if p xs + (if p new then 1 else 0)
  count_if-set p [] i old new e = absurd (cc)
  count_if-set p (x ∷ xs) zero old new e = ground arith
  count_if-set p (x ∷ xs) (suc i) old new e = omega (arith, count_if-set p xs i old new e)

  length-set : (xs : List A) (i : ℕ) (v : A) → length (set xs i v) ≡ length xs
  length-set [] i v = refl
  length-set (x ∷ xs) zero v = refl
  length-set (x ∷ xs) (suc i) v = ap suc (length-set xs i v)

  get_elem?-set :
      (xs : List A) (i j : ℕ) (v : A)
      → i < length xs
      → get_elem? (set xs i v) j ≡ (if i == j then some v else get_elem? xs j)
  get_elem?-set [] i j v h = absurd (omega arith)
  get_elem?-set (x ∷ xs) zero zero v h = refl
  get_elem?-set (x ∷ xs) zero (suc j) v h = ground arith
  get_elem?-set (x ∷ xs) (suc i) zero v h = ground arith
  get_elem?-set (x ∷ xs) (suc i) (suc j) v h = ground (arith, get_elem?-set xs i j v)

  get_elem?-in : (xs : List A) (i : ℕ) → i < length xs → (a : A) × (get_elem? xs i ≡ some a)
  get_elem?-in [] i h = absurd (omega arith)
  get_elem?-in (x ∷ xs) zero h = (x, refl)
  get_elem?-in (x ∷ xs) (suc i) h = get_elem?-in xs i (omega arith)

  swap_lem :
      (i j k : ℕ) (xs : List A)
      → i < length xs
      → j < length xs
      → get_elem? (swap i j xs) k
        ≡ (if j == k then get_elem? xs i else if i == k then get_elem? xs j else get_elem? xs k)
  unfolding swap
  swap_lem i j k xs h g =
      let (a, ea) = get_elem?-in xs i h in
      let (b, eb) = get_elem?-in xs j g in
      rw (ea, eb)
        (ground (
          arith,
          ea,
          eb,
          get_elem?-set (set xs i b) j k a,
          get_elem?-set xs i k b,
          length-set xs i b,
        ))

  -- What holds of the list and of the list with two items exchanged holds after `swap`.
  swap_rule {κ} :
      (Q : List A → Type κ) (i j : ℕ) (xs : List A)
      → Q xs
      → ((a b : A) → get_elem? xs i ≡ some a → get_elem? xs j ≡ some b → Q (set (set xs i b) j a))
      → Q (swap i j xs)
  unfolding swap
  swap_rule Q i j xs h g = elim (Option-cases (get_elem? xs i)) [
    | inl e ↦ rw (e, swap) h
    | inr (a, ea) ↦ elim (Option-cases (get_elem? xs j)) [
      | inl e ↦ rw (ea, e, swap) h
      | inr (b, eb) ↦ rw (ea, eb, swap) (g a b ea eb)
    ]
  ]

  length-swap : (i j : ℕ) (xs : List A) → length (swap i j xs) ≡ length xs
  length-swap i j xs =
      swap_rule (λ ys. length ys ≡ length xs) i j xs refl
        (λ a b ea eb. length-set (set xs i b) j a ∙ length-set xs i b)

  lt_of_get_elem? : (xs : List A) (i : ℕ) (a : A) → get_elem? xs i ≡ some a → i < length xs
  lt_of_get_elem? [] i a e = absurd (cc)
  lt_of_get_elem? (x ∷ xs) zero a e = omega arith
  lt_of_get_elem? (x ∷ xs) (suc i) a e = omega (arith, lt_of_get_elem? xs i a e)

  count_if-swap : (p : A → Bool) (i j : ℕ) (xs : List A) → count_if p (swap i j xs) ≡ count_if p xs
  count_if-swap p i j xs =
      swap_rule (λ ys. count_if p ys ≡ count_if p xs) i j xs refl
        (λ a b ea eb.
          let e : get_elem? (set xs i b) j ≡ some b =
            get_elem?-set xs i j b (lt_of_get_elem? xs i a ea) ∙ same (i == j) b eb in
          omega (arith, count_if-set p xs i a b ea, count_if-set p (set xs i b) j b a e))
    where
      same :
          (t : Bool) (b : A)
          → get_elem? xs j ≡ some b
          → (if t then some b else get_elem? xs j) ≡ some b
      same true b e = refl
      same false b e = e

  All-set {κ} : (P : A → Type κ) (xs : List A) (i : ℕ) (v : A) → All P xs → P v → All P (set xs i v)
  All-set P [] i v h q = tt
  All-set P (x ∷ xs) zero v (p, h) q = (q, h)
  All-set P (x ∷ xs) (suc i) v (p, h) q = (p, All-set P xs i v h q)

  All-swap {κ} : (P : A → Type κ) (i j : ℕ) (xs : List A) → All P xs → All P (swap i j xs)
  All-swap P i j xs h = swap_rule (All P) i j xs h (λ a b ea eb.
      All-set P (set xs i b) j a (All-set P xs i b h (All-get_elem? P xs j h eb))
        (All-get_elem? P xs i h ea))

  pub length-reverse_range :
      (fuel left right : ℕ) (xs : List A) → length (reverse_range fuel left right xs) ≡ length xs
  unfolding reverse_range
  length-reverse_range zero left right xs = refl
  length-reverse_range (suc fuel) left right xs = ground (
    arith,
    length-reverse_range fuel (left + 1) (right - 1) (swap left right xs),
    length-swap left right xs,
  )

  count_if-reverse_range :
      (p : A → Bool) (fuel left right : ℕ) (xs : List A)
      → count_if p (reverse_range fuel left right xs) ≡ count_if p xs
  unfolding reverse_range
  count_if-reverse_range p zero left right xs = refl
  count_if-reverse_range p (suc fuel) left right xs = ground (
    arith,
    count_if-reverse_range p fuel (left + 1) (right - 1) (swap left right xs),
    count_if-swap p left right xs,
  )

  All-reverse_range {κ} :
      (P : A → Type κ) (fuel left right : ℕ) (xs : List A)
      → All P xs
      → All P (reverse_range fuel left right xs)
  unfolding reverse_range
  All-reverse_range P zero left right xs h = h
  All-reverse_range P (suc fuel) left right xs h = elim (Bool-cases (ltb left right)) [
    | inl e ↦
        rw (e, reverse_range)
          (All-reverse_range P fuel (left + 1) (right - 1) (swap left right xs)
            (All-swap P left right xs h))
    | inr e ↦ rw (e, reverse_range) h
  ]

  -- The swap loop turns the range round and leaves all other places alone, if it is given as
  -- many rounds as the range is long.
  pub reverse_range_lem :
      (fuel left right i : ℕ) (xs : List A)
      → right < length xs
      → right < left + fuel
      → get_elem? (reverse_range fuel left right xs) i ≡ get_elem? xs (mirror left right i)
  unfolding reverse_range
  reverse_range_lem zero left right i xs h g = ap (get_elem? xs) (ground arith)
  reverse_range_lem (suc fuel) left right i xs h g = elim (Bool-cases (ltb left right)) [
    | inl e ↦
        rw (e, reverse_range)
          (reverse_range_lem fuel (left + 1) (right - 1) i (swap left right xs)
              (omega (arith, length-swap left right xs)) (ground arith)
            ∙ swap_lem left right (mirror (left + 1) (right - 1) i) xs (ground arith) h
            ∙ mirror_step (get_elem? xs) left right i (ground arith))
    | inr e ↦ rw (e, reverse_range) (ap (get_elem? xs) (ground arith))
  ]

  length-reorder_from :
      (fuel w start : ℕ) (xs : List A) → length (reorder_from fuel w start xs) ≡ length xs
  unfolding reorder_from
  length-reorder_from zero w start xs = refl
  length-reorder_from (suc fuel) w start xs =
      let last = min (start + w) (length xs) - 1 in
      let ys = reverse_range (length xs) start last xs in
      ground (
        arith,
        length-reorder_from fuel w (start + w) ys,
        length-reverse_range (length xs) start last xs,
      )

  count_if-reorder_from :
      (p : A → Bool) (fuel w start : ℕ) (xs : List A)
      → count_if p (reorder_from fuel w start xs) ≡ count_if p xs
  unfolding reorder_from
  count_if-reorder_from p zero w start xs = refl
  count_if-reorder_from p (suc fuel) w start xs =
      let last = min (start + w) (length xs) - 1 in
      let ys = reverse_range (length xs) start last xs in
      ground (
        arith,
        count_if-reorder_from p fuel w (start + w) ys,
        count_if-reverse_range p (length xs) start last xs,
      )

  All-reorder_from {κ} :
      (P : A → Type κ) (fuel w start : ℕ) (xs : List A)
      → All P xs
      → All P (reorder_from fuel w start xs)
  unfolding reorder_from
  All-reorder_from P zero w start xs h = h
  All-reorder_from P (suc fuel) w start xs h =
      let last = min (start + w) (length xs) - 1 in
      let ys = reverse_range (length xs) start last xs in
      elim (Bool-cases (ltb start (length xs))) [
        | inl e ↦
            rw (e, reorder_from)
              (All-reorder_from P fuel w (start + w) ys
                (All-reverse_range P (length xs) start last xs h))
        | inr e ↦ rw (e, reorder_from) h
      ]

module _ {ℓ} {A : Type ℓ} where
  pub length-reorder : (w : ℕ) (xs : List A) → length (reorder w xs) ≡ length xs
  unfolding reorder
  length-reorder w xs = ground (arith, length-reorder_from (length xs) w 0 xs)

  -- Reordering keeps the multiset of records: every test passes as often as before.
  pub count_if-reorder :
      (p : A → Bool) (w : ℕ) (xs : List A) → count_if p (reorder w xs) ≡ count_if p xs
  unfolding reorder
  count_if-reorder p w xs = ground (arith, count_if-reorder_from p (length xs) w 0 xs)

  pub All-reorder {κ} : (P : A → Type κ) (w : ℕ) (xs : List A) → All P xs → All P (reorder w xs)
  unfolding reorder
  All-reorder P w xs h = elim (Bool-cases (ltb 1 w)) [
    | inl e ↦ rw (e, reorder) (All-reorder_from P (length xs) w 0 xs h)
    | inr e ↦ rw (e, reorder) h
  ]
