-- ===== src/Kafka/Reorder.antt =====
-- What the reordering of pkg/kafkasim/kafka.go does to each place of the record list.
use inferno_sim.Prelude.{
  ℕ, zero, suc, ◌+◌, ◌-◌, ◌*◌, ◌/◌, ◌≤◌, ◌<◌, min, ◌≡◌, sym, ap, ◌∙◌, inl, inr, List, arith, ltb,
  if◌then◌else◌, ltb→lt, lt→ltb, Bool-cases,
}
use inferno_sim.Prelude.Lists.{length, get_elem?}
use native.Mathlib.Nat.{div-eq_of_lt-le, div-mul-le_self, lt-div-mul-add, le-div_iff_mul-le}
use inferno_sim.Kafka.{reverse_range, reorder_from, reorder}
use inferno_sim.Kafka.Swap.{mirror, reverse_range_lem, length-reverse_range}

-- The place whose record comes to place `i`: the mirror image of `i` in its window of `w` places,
-- the last window being cut off at the end of the `n` places.
abbrev pub source_place : ℕ → ℕ → ℕ → ℕ
source_place w n i = if ltb i n then i / w * w + (min (i / w * w + w) n - 1) - i else i

-- The facts about `i / w * w` that place `i` in a window which starts at `k * w`.
abbrev Base : ℕ → ℕ → ℕ → Type 0
Base w start i =
    (i / w * w ≤ i)
    × (i < i / w * w + w)
    × (start ≤ i → start ≤ i / w * w)
    × (start ≤ i → i < start + w → i / w * w ≡ start)
    × (start + w ≤ i → start + w ≤ i / w * w)

mul_mono : (a b w : ℕ) → a ≤ b → a * w ≤ b * w
mul_mono a b w h = grind arith

suc_times : (k w : ℕ) → (k + 1) * w ≡ k * w + w
suc_times k w = omega arith

Base-facts : (w k i : ℕ) → 0 < w → Base w (k * w) i
Base-facts w k i h = (
  div-mul-le_self i w,
  lt-div-mul-add h,
  λ g. mul_mono k (i / w) w ((le-div_iff_mul-le h).1 g),
  λ g l. ap (λ (q : ℕ). q * w) (div-eq_of_lt-le w g (rw (suc_times k w) l)),
  λ g.
      let l : (k + 1) * w ≤ i / w * w =
        mul_mono (k + 1) (i / w) w ((le-div_iff_mul-le h).1 (rw (suc_times k w) g)) in
      rw (suc_times k w) at l,
)

-- Where the windows from number `k + 1` on look for place `i`.
abbrev next_place : ℕ → ℕ → ℕ → ℕ → ℕ
next_place w k i n = if ltb i ((k + 1) * w) then i else source_place w n i

place_case :
    (w start i n b : ℕ) {next : ℕ}
    → next ≡ start + w
    → 0 < w
    → start < n
    → (b ≤ i)
      × (i < b + w)
      × (start ≤ i → start ≤ b)
      × (start ≤ i → i < start + w → b ≡ start)
      × (start + w ≤ i → start + w ≤ b)
    → mirror start
        (min (start + w) n - 1)
        (if ltb i next then i else if ltb i n then b + (min (b + w) n - 1) - i else i)
      ≡ (if ltb i start then i else if ltb i n then b + (min (b + w) n - 1) - i else i)
place_case w start i n b e h l f = ground arith

module _ {ℓ} {A : Type ℓ} where
  -- The list after the window at `k * w` has been turned round.
  abbrev turned : ℕ → ℕ → List A → List A
  turned w k xs = reverse_range (length xs) (k * w) (min (k * w + w) (length xs) - 1) xs

  length-turned : (w k : ℕ) (xs : List A) → length (turned w k xs) ≡ length xs
  length-turned w k xs = length-reverse_range (length xs) (k * w) _ xs

  place_step :
      (w k i : ℕ) (xs : List A)
      → 0 < w
      → k * w < length xs
      → mirror (k * w) (min (k * w + w) (length xs) - 1) (next_place w k i (length (turned w k xs)))
        ≡ (if ltb i (k * w) then i else source_place w (length xs) i)
  place_step w k i xs h l =
      ap (λ (n : ℕ). mirror (k * w) (min (k * w + w) (length xs) - 1) (next_place w k i n))
        (length-turned w k xs)
      ∙ place_case w (k * w) i (length xs) (i / w * w) (suc_times k w) h l (Base-facts w k i h)

  reorder_from_lem :
      (fuel w k i : ℕ) (xs : List A)
      → 0 < w
      → length xs ≤ k * w + fuel
      → get_elem? (reorder_from fuel w (k * w) xs) i
        ≡ get_elem? xs (if ltb i (k * w) then i else source_place w (length xs) i)
  unfolding reorder_from
  reorder_from_lem zero w k i xs h g = ap (get_elem? xs) (ground (arith, Base-facts w k i h))
  reorder_from_lem (suc fuel) w k i xs h g = elim (Bool-cases (ltb (k * w) (length xs))) [
    | inl e ↦
        rw (e, reorder_from)
          (ap (λ (t : ℕ). get_elem? (reorder_from fuel w t (turned w k xs)) i) (sym (suc_times k w))
            ∙ reorder_from_lem fuel w (k + 1) i (turned w k xs) h
                (omega (arith, suc_times k w, length-turned w k xs))
            ∙ reverse_range_lem (length xs) (k * w) (min (k * w + w) (length xs) - 1)
                (next_place w k i (length (turned w k xs))) xs (ground arith) (ground arith)
            ∙ ap (get_elem? xs) (place_step w k i xs h (ltb→lt _ _ e)))
    | inr e ↦ rw (e, reorder_from) (ap (get_elem? xs) (ground (arith, Base-facts w k i h)))
  ]

module _ {ℓ} {A : Type ℓ} where
  -- With a window of two or more, reordering turns each window round: place `i` of the result
  -- holds the record of the mirrored place in the window of `i`.
  pub reorder_lem :
      (w i : ℕ) (xs : List A)
      → 1 < w
      → get_elem? (reorder w xs) i ≡ get_elem? xs (source_place w (length xs) i)
  unfolding reorder
  reorder_lem w i xs h =
      rw (lt→ltb 1 w h, reorder)
        (ap (λ (t : ℕ). get_elem? (reorder_from (length xs) w t xs) i) (sym (zero_times w))
          ∙ reorder_from_lem (length xs) w 0 i xs (omega arith) (omega arith)
          ∙ ap (get_elem? xs) (ground (arith, zero_times w)))
    where
      zero_times : (w : ℕ) → 0 * w ≡ 0
      zero_times w = omega arith
