-- ===== src/Kafka/Index.antt =====
-- The index by id of pkg/kafkasim/kafka.go, for records with distinct ids.
use inferno_sim.Prelude.{
  ℕ, zero, suc, ◌+◌, String, ◌≡◌, refl, sym, ap, ◌∙◌, ◌≢◌, some, List, [], ◌∷◌, arith, eq_iff,
  eq_refl,
}
use inferno_sim.Prelude.Lists.{get_elem?, All, All_mono}
use inferno_sim.Prelude.Dict.{Dict, lookup, put, lookup-put, Distinct}
use inferno_sim.Message.{Record}
use inferno_sim.Message.Distinct.{ids, has_id, AtMostOnce-of_Distinct, Distinct-of_AtMostOnce}
use inferno_sim.Kafka.{index_from, index_of, reorder}
use inferno_sim.Kafka.Swap.{count_if-reorder, All-reorder}

-- The record stands at this place of the list.
abbrev pub StandsAt : List Record → ℕ → Record → Type 0
StandsAt rs i r = get_elem? rs i ≡ some r

lookup-index_from_fresh :
    (i : ℕ) (m : Dict ℕ) (rs : List Record) (k : String)
    → All (λ j. k ≢ j) (ids rs)
    → lookup k (index_from i m rs) ≡ lookup k m
unfolding index_from
lookup-index_from_fresh i m [] k h = refl
lookup-index_from_fresh i m (r ∷ rs) k (h, hs) =
    lookup-index_from_fresh (i + 1) (put r.id i m) rs k hs
    ∙ lookup-put r.id k i m
    ∙ ground (arith, eq_iff r.id k)

fresh-sym : (k : String) (js : List String) → All (λ j. k ≢ j) js → All (λ j. j ≢ k) js
fresh-sym k js h = All_mono _ _ js (λ j n e. n (sym e)) h

lookup-index_from :
    (i j : ℕ) (m : Dict ℕ) (rs : List Record) (r : Record)
    → Distinct (ids rs)
    → StandsAt rs j r
    → lookup r.id (index_from i m rs) ≡ some (i + j)
unfolding index_from
lookup-index_from i j m [] r d e = absurd (cc)
lookup-index_from i zero m (q ∷ qs) r (h, d) e =
    let same : q ≡ r = some_inj e in
    rw (← same) (
      lookup-index_from_fresh (i + 1) (put q.id i m) qs q.id h
      ∙ lookup-put q.id q.id i m
      ∙ ground (arith, eq_refl q.id))
  where
    some_inj : {a b : Record} → some a ≡ some b → a ≡ b
    some_inj p = cc
lookup-index_from i (suc j) m (q ∷ qs) r (h, d) e =
    lookup-index_from (i + 1) j (put q.id i m) qs r d e ∙ ap some (omega arith)

-- With distinct ids, the index maps the id of each record to the record's place.
pub index_of_lem :
    (rs : List Record) (i : ℕ) (r : Record)
    → Distinct (ids rs)
    → StandsAt rs i r
    → index_of (index_from 0 [] rs) r.id ≡ i
unfolding index_of
index_of_lem rs i r d e = rw (lookup-index_from 0 i [] rs r d e, index_of) (omega arith)

All-places :
    (rs qs : List Record) (k : ℕ)
    → ((i : ℕ) → get_elem? qs i ≡ get_elem? rs (k + i))
    → All (λ r. (i : ℕ) × StandsAt rs i r) qs
All-places rs [] k h = tt
All-places rs (q ∷ qs) k h = (
  (k, sym (h 0 ∙ ap (get_elem? rs) (omega arith))),
  All-places rs qs (k + 1) (λ i. h (suc i) ∙ ap (get_elem? rs) (omega arith)),
)

-- Every reordered record is one of the records.
pub reorder-places :
    (w : ℕ) (rs : List Record) → All (λ r. (i : ℕ) × StandsAt rs i r) (reorder w rs)
reorder-places w rs = All-reorder _ w rs (All-places rs rs 0 (λ i. ap (get_elem? rs) (omega arith)))

-- Reordering keeps the ids distinct.
pub reorder-Distinct :
    (w : ℕ) (rs : List Record) → Distinct (ids rs) → Distinct (ids (reorder w rs))
reorder-Distinct w rs d =
    Distinct-of_AtMostOnce (reorder w rs)
      (λ k. omega (arith, count_if-reorder (has_id k) w rs, AtMostOnce-of_Distinct rs d k))
