-- ===== src/Message/Distinct.antt =====
-- Ids that differ from one another, counted.
use inferno_sim.Prelude.{
  subst, ◌≤◌, String, ◌≡◌, refl, sym, ◌≢◌, inl, inr, Bool, List, [], ◌∷◌, map, arith, str_eq,
  eq_iff, eq_refl, Bool-cases,
}
use inferno_sim.Prelude.Lists.{count_if, All}
use inferno_sim.Prelude.Text.{str_eq-true}
use inferno_sim.Prelude.Dict.{Distinct}
use inferno_sim.Message.{Record}

abbrev pub ids : List Record → List String
ids = map (λ r. r.id)

abbrev pub has_id : String → Record → Bool
has_id k r = str_eq k r.id

abbrev pub AtMostOnce : List Record → Type 0
AtMostOnce rs = (k : String) → count_if (has_id k) rs ≤ 1

count_if-fresh :
    (k : String) (rs : List Record) → All (λ j. k ≢ j) (ids rs) → count_if (has_id k) rs ≡ 0
count_if-fresh k [] h = refl
count_if-fresh k (r ∷ rs) (h, hs) = ground (arith, eq_iff k r.id, count_if-fresh k rs hs)

fresh_of_count :
    (k : String) (rs : List Record) → count_if (has_id k) rs ≡ 0 → All (λ j. k ≢ j) (ids rs)
fresh_of_count k [] h = tt
fresh_of_count k (r ∷ rs) h = (ground (arith, eq_iff k r.id), fresh_of_count k rs (ground arith))

pub AtMostOnce-of_Distinct : (rs : List Record) → Distinct (ids rs) → AtMostOnce rs
AtMostOnce-of_Distinct [] d k = omega arith
AtMostOnce-of_Distinct (r ∷ rs) (h, d) k = elim (Bool-cases (str_eq k r.id)) [
  | inl e ↦
      let same : k ≡ r.id = str_eq-true k r.id e in
      let none' : count_if (has_id k) rs ≡ 0 =
        subst (λ j. count_if (has_id j) rs ≡ 0) (sym same) (count_if-fresh r.id rs h) in
      ground arith
  | inr e ↦ ground (arith, AtMostOnce-of_Distinct rs d k)
]

pub Distinct-of_AtMostOnce : (rs : List Record) → AtMostOnce rs → Distinct (ids rs)
Distinct-of_AtMostOnce [] h = tt
Distinct-of_AtMostOnce (r ∷ rs) h = (
  fresh_of_count r.id rs (ground (arith, h r.id, eq_refl r.id)),
  Distinct-of_AtMostOnce rs (λ k. ground (arith, h k)),
)
