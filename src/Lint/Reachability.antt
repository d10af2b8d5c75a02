-- ===== src/Lint/Reachability.antt =====
-- pkg/simlint/lint.go: the loop over the steps of a scenario collects exactly the states that the
-- scenario can reach.
use inferno_sim.Prelude.{
  subst, ℕ, zero, suc, String, ◌≡◌, ◌↔◌, inl, inr, Bool, true, false, not, ◌&&◌, some, List, [],
  ◌∷◌, arith, str_eq, eq_refl, Bool-cases,
}
use inferno_sim.Prelude.Lists.{length, get_elem?, All, All-get_elem?}
use inferno_sim.Prelude.Text.{is_empty_text, str_eq-true}
use inferno_sim.Prelude.Dict.{member}
use inferno_sim.Scenario.{Step, Config}
use inferno_sim.Lint.{sweep, grow, reachable_states}
use inferno_sim.Lint.Passes.{
  adds, member-cons, sweep-cons, places_of, grow-closed, open_steps-bound,
}

-- A state that a run of the scenario can stand in.
pub data Reaches (c : Config) : String → Type 0 where
  start : Reaches c c.initial_state
  move :
      (i : ℕ) (s : Step)
      → get_elem? c.steps i ≡ some s
      → Reaches c s.state
      → is_empty_text s.next_state ≡ false
      → Reaches c s.next_state

module _ (c : Config) where
  abbrev AreReached : List String → Type 0
  AreReached r = (k : String) → member k r ≡ true → Reaches c k

  AreReached-cons :
      (r : List String) (i : ℕ) (s : Step)
      → get_elem? c.steps i ≡ some s
      → AreReached r
      → adds r s ≡ true
      → AreReached (s.next_state ∷ r)
  AreReached-cons r i s there reached a k m = elim (Bool-cases (str_eq s.next_state k)) [
    | inl e ↦
        let (from_reached, nonempty) =
          parts (member s.state r) (is_empty_text s.next_state) (member s.next_state r) a in
        subst (λ x. Reaches c x) (str_eq-true s.next_state k e)
          (move i s there (reached s.state from_reached) nonempty)
    | inr e ↦ reached k (rw (member-cons k s.next_state r, e) at m)
  ]
    where
      parts : (x y z : Bool) → (x && (not y && not z)) ≡ true → (x ≡ true) × (y ≡ false)
      parts x y z h = ground arith

  sweep-AreReached :
      (ss : List Step) (r : List String) (b : Bool)
      → All (λ s. (i : ℕ) × (get_elem? c.steps i ≡ some s)) ss
      → AreReached r
      → AreReached (sweep ss r b).0
  unfolding sweep
  sweep-AreReached [] r b places reached = reached
  sweep-AreReached (s ∷ ss) r b ((i, there), places) reached = elim (Bool-cases (adds r s)) [
    | inl e ↦
        rw (sweep-cons s ss r b, e)
          (sweep-AreReached ss (s.next_state ∷ r) true places
            (AreReached-cons r i s there reached e))
    | inr e ↦ rw (sweep-cons s ss r b, e) (sweep-AreReached ss r b places reached)
  ]

  grow-AreReached : (n : ℕ) (r : List String) → AreReached r → AreReached (grow n c.steps r)
  unfolding grow
  grow-AreReached zero r reached = reached
  grow-AreReached (suc n) r reached =
      let next = sweep-AreReached c.steps r false (places_of c.steps) reached in
      elim (Bool-cases (sweep c.steps r false).1) [
        | inl e ↦ rw e (grow-AreReached n (sweep c.steps r false).0 next)
        | inr e ↦ rw e next
      ]

  Reaches-member :
      (r : List String)
      → member c.initial_state r ≡ true
      → All (λ s. adds r s ≡ false) c.steps
      → (k : String) → Reaches c k
      → member k r ≡ true
  Reaches-member r first closed k start = first
  Reaches-member r first closed k (move i s there from_reached nonempty) =
      let before = Reaches-member r first closed s.state from_reached in
      let quiet = All-get_elem? (λ t. adds r t ≡ false) c.steps i closed there in
      in_set (member s.state r) (is_empty_text s.next_state) (member s.next_state r) quiet before
        nonempty
    where
      in_set : (x y z : Bool) → (x && (not y && not z)) ≡ false → x ≡ true → y ≡ false → z ≡ true
      in_set x y z h p q = ground arith

  -- The states that the linter collects are those that the scenario reaches from its initial state by
  -- the next states of its steps.
  pub reachable_states_iff : (k : String) → (member k (reachable_states c) ≡ true) ↔ Reaches c k
  unfolding reachable_states
  reachable_states_iff k =
      let (within, closed) =
        grow-closed (suc (length c.steps)) c.steps (c.initial_state ∷ [])
          (omega (arith, open_steps-bound c.steps (c.initial_state ∷ []))) in
      let only : AreReached (c.initial_state ∷ []) = λ j m. first_only j m in
      (
        grow-AreReached (suc (length c.steps)) (c.initial_state ∷ []) only k,
        Reaches-member _
            (within c.initial_state (unfold member in ground (arith, eq_refl c.initial_state)))
            closed k,
      )
    where
      first_only : (j : String) → member j (c.initial_state ∷ []) ≡ true → Reaches c j
      first_only j m = elim (Bool-cases (str_eq c.initial_state j)) [
        | inl e ↦ subst (λ x. Reaches c x) (str_eq-true c.initial_state j e) start
        | inr e ↦ absurd (false_not_true (unfold member in rw (e) at m))
      ]
        where
          false_not_true : false ≡ true → ⊥
          false_not_true z = cc
