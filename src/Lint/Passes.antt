-- ===== src/Lint/Passes.antt =====
-- pkg/simlint/lint.go: the passes over the steps of a scenario, and the end of the loop over them.
use inferno_sim.Prelude.{
  ℕ, zero, suc, ◌+◌, ◌≤◌, ◌<◌, String, ◌≡◌, refl, sym, ◌∙◌, inl, inr, Bool, true, false, not, ◌&&◌,
  ◌||◌, Option, none, some, List, [], ◌∷◌, arith, str_eq, eq_refl, if◌then◌else◌, Bool-cases,
}
use inferno_sim.Prelude.Lists.{length, get_elem?, count_if, All, All_of_places}
use inferno_sim.Prelude.Text.{is_empty_text}
use inferno_sim.Prelude.Dict.{member}
use inferno_sim.Scenario.{Step, Config}
use inferno_sim.Lint.{sweep, grow, reachable_states}

-- The step goes on from a state that is reached to one that is not.
abbrev pub adds : List String → Step → Bool
adds r s = member s.state r && (not (is_empty_text s.next_state) && not (member s.next_state r))

-- Steps whose next state is still to be reached.
abbrev open_steps : List Step → List String → ℕ
open_steps ss r = count_if (λ s. not (member s.next_state r)) ss

abbrev pub IsWithin : List String → List String → Type 0
IsWithin r q = (k : String) → member k r ≡ true → member k q ≡ true

pub member-cons : (k j : String) (r : List String) → member k (j ∷ r) ≡ (str_eq j k || member k r)
unfolding member
member-cons k j r = ground arith

member-more : (k j : String) (r : List String) → member k r ≡ true → member k (j ∷ r) ≡ true
member-more k j r h = ground (arith, member-cons k j r)

open_steps_mono :
    (ss : List Step) (r q : List String) → IsWithin r q → open_steps ss q ≤ open_steps ss r
open_steps_mono [] r q w = omega arith
open_steps_mono (s ∷ ss) r q w = elim (Bool-cases (member s.next_state r)) [
  | inl e ↦ ground (arith, open_steps_mono ss r q w, w s.next_state)
  | inr e ↦ ground (arith, open_steps_mono ss r q w)
]

pub sweep-cons :
    (s : Step) (ss : List Step) (r : List String) (b : Bool)
    → sweep (s ∷ ss) r b ≡ sweep ss (if adds r s then s.next_state ∷ r else r) (adds r s || b)
unfolding sweep
sweep-cons s ss r b = refl

-- A pass keeps what is reached.
sweep-IsWithin : (ss : List Step) (r : List String) (b : Bool) → IsWithin r (sweep ss r b).0
unfolding sweep
sweep-IsWithin [] r b k h = h
sweep-IsWithin (s ∷ ss) r b k h = elim (Bool-cases (adds r s)) [
  | inl e ↦
      rw (sweep-cons s ss r b, e)
        (sweep-IsWithin ss (s.next_state ∷ r) true k (member-more k s.next_state r h))
  | inr e ↦ rw (sweep-cons s ss r b, e) (sweep-IsWithin ss r b k h)
]

-- A change stays noted.
sweep-flag : (ss : List Step) (r : List String) → (sweep ss r true).1 ≡ true
unfolding sweep
sweep-flag [] r = refl
sweep-flag (s ∷ ss) r = elim (Bool-cases (adds r s)) [
  | inl e ↦ rw (sweep-cons s ss r true, e) (sweep-flag ss (s.next_state ∷ r))
  | inr e ↦ rw (sweep-cons s ss r true, e) (sweep-flag ss r)
]

-- A pass without a change leaves the states as they are, and no step adds one.
sweep-same :
    (ss : List Step) (r : List String) (b : Bool)
    → (sweep ss r b).1 ≡ false
    → ((sweep ss r b).0 ≡ r) × All (λ s. adds r s ≡ false) ss
unfolding sweep
sweep-same [] r b h = (refl, tt)
sweep-same (s ∷ ss) r b h = elim (Bool-cases (adds r s)) [
  | inl e ↦ absurd (flagged ss (s.next_state ∷ r) (rw (sweep-cons s ss r b, e) at h))
  | inr e ↦
      let (same, none_adds) = sweep-same ss r b (rw (sweep-cons s ss r b, e) at h) in
      (rw (sweep-cons s ss r b, e) same, (e, none_adds))
]
  where
    flagged : (ts : List Step) (q : List String) → (sweep ts q true).1 ≡ false → ⊥
    flagged ts q g = true_not_false (sym (sweep-flag ts q) ∙ g)
      where
        true_not_false : true ≡ false → ⊥
        true_not_false z = cc

-- A step that adds its next state is open before, and not after.
open_steps-less :
    (ss : List Step) (r : List String) (i : ℕ) (s : Step)
    → get_elem? ss i ≡ some s
    → adds r s ≡ true
    → open_steps ss (s.next_state ∷ r) < open_steps ss r
open_steps-less [] r i s h a = absurd (none_not_some h)
  where
    none_not_some : ◌≡◌ {A = Option Step} none (some s) → ⊥
    none_not_some z = cc
open_steps-less (t ∷ ss) r zero s h a =
    let here : t ≡ s = some_inj h in
    let more = open_steps_mono ss r (s.next_state ∷ r) (λ k m. member-more k s.next_state r m) in
    rw here (counted s ss r a more)
  where
    some_inj : some t ≡ some s → t ≡ s
    some_inj z = cc

    counted :
        (s : Step) (ss : List Step) (r : List String)
        → adds r s ≡ true
        → open_steps ss (s.next_state ∷ r) ≤ open_steps ss r
        → open_steps (s ∷ ss) (s.next_state ∷ r) < open_steps (s ∷ ss) r
    counted s ss r a more =
        ground (arith, member-cons s.next_state s.next_state r, eq_refl s.next_state)
open_steps-less (t ∷ ss) r (suc i) s h a =
    let fewer = open_steps-less ss r i s h a in
    ground (arith, fewer, member-cons t.next_state s.next_state r)

-- A pass that changes the states leaves fewer steps open.
sweep-fewer :
    (all ss : List Step) (r : List String)
    → All (λ s. (i : ℕ) × (get_elem? all i ≡ some s)) ss
    → (sweep ss r false).1 ≡ true
    → open_steps all (sweep ss r false).0 < open_steps all r
unfolding sweep
sweep-fewer all [] r places h = absurd (false_not_true h)
  where
    false_not_true : false ≡ true → ⊥
    false_not_true z = cc
sweep-fewer all (s ∷ ss) r ((i, there), places) h = elim (Bool-cases (adds r s)) [
  | inl e ↦
      let grown = sweep-IsWithin ss (s.next_state ∷ r) true in
      let less = open_steps-less all r i s there e in
      let after =
        open_steps_mono all (s.next_state ∷ r) (sweep ss (s.next_state ∷ r) true).0 grown in
      rw (sweep-cons s ss r false, e) (omega (arith, less, after))
  | inr e ↦
      rw (sweep-cons s ss r false, e)
        (sweep-fewer all ss r places (rw (sweep-cons s ss r false, e) at h))
]

pub places_of : (ss : List Step) → All (λ s. (i : ℕ) × (get_elem? ss i ≡ some s)) ss
places_of ss = All_of_places (λ s. (i : ℕ) × (get_elem? ss i ≡ some s)) ss (λ i s h. (i, h))

-- With more fuel than open steps the loop ends at a set that no step adds to.
pub grow-closed :
    (n : ℕ) (ss : List Step) (r : List String)
    → open_steps ss r < n
    → IsWithin r (grow n ss r) × All (λ s. adds (grow n ss r) s ≡ false) ss
unfolding grow
grow-closed zero ss r h = absurd (omega (arith, h))
grow-closed (suc n) ss r h = elim (Bool-cases (sweep ss r false).1) [
  | inl e ↦
      let fewer = sweep-fewer ss ss r (places_of ss) e in
      let (within, closed) = grow-closed n ss (sweep ss r false).0 (omega (arith, fewer, h)) in
      rw e ((λ k m. within k (sweep-IsWithin ss r false k m)), closed)
  | inr e ↦ let (same, closed) = sweep-same ss r false e in rw (e, same) ((λ k m. m), closed)
]

-- Any fuel above the open steps gives one result.
grow-enough :
    (n m : ℕ) (ss : List Step) (r : List String)
    → open_steps ss r < n
    → open_steps ss r < m
    → grow n ss r ≡ grow m ss r
unfolding grow
grow-enough zero m ss r h k = absurd (omega (arith, h))
grow-enough (suc n) zero ss r h k = absurd (omega (arith, k))
grow-enough (suc n) (suc m) ss r h k = elim (Bool-cases (sweep ss r false).1) [
  | inl e ↦
      let fewer = sweep-fewer ss ss r (places_of ss) e in
      rw e (
        grow-enough n m ss (sweep ss r false).0 (omega (arith, fewer, h)) (omega (arith, fewer, k)))
  | inr e ↦ rw e
]

pub open_steps-bound : (ss : List Step) (r : List String) → open_steps ss r ≤ length ss
open_steps-bound [] r = omega arith
open_steps-bound (s ∷ ss) r = ground (arith, open_steps-bound ss r)

no_change :
    (ss : List Step) (r : List String)
    → All (λ s. adds r s ≡ false) ss
    → sweep ss r false ≡ (r, false)
unfolding sweep
no_change [] r h = refl
no_change (s ∷ ss) r (e, h) = rw (sweep-cons s ss r false, e) (no_change ss r h)

-- The loop over the states of a scenario ends: after as many passes as the scenario has steps, and one
-- more, a pass adds nothing, and with more fuel the states are the same.
pub reachable_states_end :
    (c : Config) (extra : ℕ)
    → (sweep c.steps (reachable_states c) false ≡ (reachable_states c, false))
      × (grow (suc (length c.steps) + extra) c.steps (c.initial_state ∷ []) ≡ reachable_states c)
unfolding reachable_states
reachable_states_end c extra =
    let bound = open_steps-bound c.steps (c.initial_state ∷ []) in
    (
      no_change c.steps _
          (grow-closed (suc (length c.steps)) c.steps (c.initial_state ∷ [])
            (omega (arith, bound))).1,
      grow-enough (suc (length c.steps) + extra) (suc (length c.steps)) c.steps
          (c.initial_state ∷ []) (omega (arith, bound)) (omega (arith, bound)),
    )
