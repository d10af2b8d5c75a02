-- ===== src/Kafka/Accounting.antt =====
-- How many records the plan of pkg/kafkasim/kafka.go drops, duplicates and poisons, and what it
-- keeps of each.
use inferno_sim.Prelude.{
  ℕ, zero, suc, ◌+◌, ◌*◌, ◌/◌, ◌%◌, ◌<◌, ◌≡◌, refl, sym, ap, ◌∙◌, ◌≢◌, ◌⊎◌, inl, inr, Bool, true,
  false, not, ◌&&◌, some, List, [], ◌∷◌, ◌++◌, arith, ltb, if◌then◌else◌, ltb→lt, Bool-cases,
}
use inferno_sim.Prelude.Lists.{length, get_elem?, count_if, All}
use inferno_sim.Prelude.Int.{pos_part}
use inferno_sim.Prelude.Result.{ok, guarded-ok}
use inferno_sim.Prelude.Dict.{Dict, Distinct}
use native.Mathlib.Nat.{div-add-mod', mod-lt, div-eq_of_lt-le}
use inferno_sim.Codec.{Codec}
use inferno_sim.Message.{Record}
use inferno_sim.Message.Distinct.{ids}
use inferno_sim.Kafka.{
  Faults, PlannedRecord, negative_fault, has_negative, hits, index_from, index_of, reorder,
  plan_one, plan_from, plan, contains, unique_from, unique_planned,
}
use inferno_sim.Kafka.Swap.{length-reorder}
use inferno_sim.Kafka.Index.{StandsAt, index_of_lem, reorder-places, reorder-Distinct}

-- How many of the `n` positions from `start` on pass the test.
abbrev pub count_range : (ℕ → Bool) → ℕ → ℕ → ℕ
count_range p start zero = 0
count_range p start (suc n) = (if p start then 1 else 0) + count_range p (start + 1) n

suc_times : (k w : ℕ) → (k + 1) * w ≡ k * w + w
suc_times k w = omega arith

-- The quotient and remainder of `n + 1`, from those of `n`.
div_next :
    (e n : ℕ)
    → 0 < e
    → (n % e + 1 < e) × ((n + 1) / e ≡ n / e) × ((n + 1) % e ≡ n % e + 1)
      ⊎ (((n + 1) / e ≡ n / e + 1) × ((n + 1) % e ≡ 0))
div_next e n h = elim (Bool-cases (ltb (n % e + 1) e)) [
  | inl l ↦
      let q : (n + 1) / e ≡ n / e =
        div-eq_of_lt-le e (omega (arith, div-add-mod' n e))
          (omega (arith, div-add-mod' n e, suc_times (n / e) e, ltb→lt _ _ l)) in
      inl (
        ltb→lt _ _ l,
        q,
        omega (arith, div-add-mod' n e, div-add-mod' (n + 1) e, ap (λ (t : ℕ). t * e) q),
      )
  | inr g ↦
      let last : n % e + 1 ≡ e = ground (arith, mod-lt n h) in
      let q : (n + 1) / e ≡ n / e + 1 =
        div-eq_of_lt-le e (omega (arith, div-add-mod' n e, suc_times (n / e) e))
          (omega (arith, div-add-mod' n e, suc_times (n / e) e, suc_times (n / e + 1) e)) in
      inr (
        q,
        omega (
          arith,
          div-add-mod' n e,
          div-add-mod' (n + 1) e,
          suc_times (n / e) e,
          ap (λ (t : ℕ). t * e) q,
        ),
      )
]

div_step : (every n : ℕ) → (n + 1) / every ≡ n / every + (if hits every (n + 1) then 1 else 0)
unfolding hits
div_step zero n = grind arith
div_step (suc e) n = ground (arith, div_next (suc e) n (omega arith))

count_range-hits_from :
    (every start n : ℕ)
    → count_range (hits every) (start + 1) n + start / every ≡ (start + n) / every
count_range-hits_from every start zero =
    let same : (start + 0) / every ≡ start / every = ap (λ (t : ℕ). t / every) (omega arith) in
    omega (arith, same)
count_range-hits_from every start (suc n) =
    let same : (start + 1 + n) / every ≡ (start + suc n) / every =
      ap (λ (t : ℕ). t / every) (omega arith) in
    omega (arith, count_range-hits_from every (start + 1) n, div_step every start, same)

zero-div : (every : ℕ) → 0 / every ≡ 0
zero-div every = grind arith

-- Of the positions 1 to n, n / every are multiples of `every`; none is counted if it is 0.
pub count_range-hits : (every n : ℕ) → count_range (hits every) 1 n ≡ n / every
count_range-hits every n = omega (arith, count_range-hits_from every 0 n, zero-div every, same)
  where
    same : (0 + n) / every ≡ n / every
    same = ap (λ (t : ℕ). t / every) (omega arith)

-- What the plan does at a position of the reordered list.
abbrev pub drops : Faults → ℕ → Bool
drops f = hits (pos_part f.drop_every)

abbrev pub keeps : Faults → ℕ → Bool
keeps f n = not (drops f n)

abbrev pub repeats : Faults → ℕ → Bool
repeats f n = keeps f n && hits (pos_part f.duplicate_every) n

abbrev pub spoils : Faults → ℕ → Bool
spoils f n = keeps f n && hits (pos_part f.poison_every) n

length-plan_from :
    (c : Codec) (f : Faults) (m : Dict ℕ) (n : ℕ) (rs : List Record)
    → length (plan_from c f m n rs)
      ≡ count_range (keeps f) n (length rs) + count_range (repeats f) n (length rs)
unfolding plan_from
length-plan_from c f m n [] = omega arith
length-plan_from c f m n (r ∷ rs) = ground (arith, length-plan_from c f m (n + 1) rs)

abbrev pub is_poisoned : PlannedRecord → Bool
is_poisoned p = p.poisoned

poisoned-plan_from :
    (c : Codec) (f : Faults) (m : Dict ℕ) (n : ℕ) (rs : List Record)
    → count_if is_poisoned (plan_from c f m n rs)
      ≡ count_range (spoils f) n (length rs)
        + count_range (λ k. spoils f k && repeats f k) n (length rs)
unfolding plan_from
poisoned-plan_from c f m n [] = omega arith
poisoned-plan_from c f m n (r ∷ rs) = ground (arith, poisoned-plan_from c f m (n + 1) rs)

kept_and_dropped :
    (f : Faults) (start n : ℕ) → count_range (keeps f) start n + count_range (drops f) start n ≡ n
kept_and_dropped f start zero = omega arith
kept_and_dropped f start (suc n) = ground (arith, kept_and_dropped f (start + 1) n)

abbrev IndexNew : Dict ℕ → List ℕ → Record → Type 0
IndexNew m seen r = contains (index_of m r.id) seen ≡ false

-- The indices of the records differ from one another.
abbrev Apart : Dict ℕ → List Record → Type 0
Apart m [] = Unit
Apart m (r ∷ rs) = All (λ q. index_of m r.id ≢ index_of m q.id) rs × Apart m rs

new-cons :
    (m : Dict ℕ) (i : ℕ) (seen : List ℕ) (rs : List Record)
    → All (λ q. i ≢ index_of m q.id) rs
    → All (IndexNew m seen) rs
    → All (IndexNew m (i ∷ seen)) rs
unfolding contains
new-cons m i seen [] h k = tt
new-cons m i seen (r ∷ rs) (h, hs) (k, ks) = (ground arith, new-cons m i seen rs hs ks)

contains-cons : (i : ℕ) (seen : List ℕ) → contains i (i ∷ seen) ≡ true
unfolding contains
contains-cons i seen = ground arith

unique-plan_one :
    (c : Codec) (f : Faults) (m : Dict ℕ) (n : ℕ) (seen : List ℕ) (r : Record)
    (ps : List PlannedRecord)
    → IndexNew m seen r
    → unique_from seen (plan_one c f m n r ++ ps)
      ≡ unique_from (if keeps f n then index_of m r.id ∷ seen else seen) ps
unfolding plan_one unique_from
unique-plan_one c f m n seen r ps h = ground (arith, contains-cons (index_of m r.id) seen)

unique-plan_from :
    (c : Codec) (f : Faults) (m : Dict ℕ) (n : ℕ) (seen : List ℕ) (rs : List Record)
    → All (IndexNew m seen) rs
    → Apart m rs
    → unique_from seen (plan_from c f m n rs) ≡ length seen + count_range (keeps f) n (length rs)
unfolding plan_from unique_from
unique-plan_from c f m n seen [] h a = omega arith
unique-plan_from c f m n seen (r ∷ rs) (h, hs) (a, as') =
    unique-plan_one c f m n seen r (plan_from c f m (n + 1) rs) h ∙ elim (Bool-cases (keeps f n)) [
      | inl e ↦ rw e (
          unique-plan_from c f m (n + 1) (index_of m r.id ∷ seen) rs
            (new-cons m (index_of m r.id) seen rs a hs) as'
          ∙ omega arith)
      | inr e ↦ rw e (unique-plan_from c f m (n + 1) seen rs hs as' ∙ omega arith)
    ]

Apart-of_places :
    (rs qs : List Record)
    → Distinct (ids rs)
    → All (λ r. (i : ℕ) × StandsAt rs i r) qs
    → Distinct (ids qs)
    → Apart (index_from 0 [] rs) qs
Apart-of_places rs [] d p e = tt
Apart-of_places rs (q ∷ qs) d ((i, at), ps) (h, e) = (go qs ps h, Apart-of_places rs qs d ps e)
  where
    go :
        (ts : List Record)
        → All (λ r. (i : ℕ) × StandsAt rs i r) ts
        → All (λ k. q.id ≢ k) (ids ts)
        → All (λ t. index_of (index_from 0 [] rs) q.id ≢ index_of (index_from 0 [] rs) t.id) ts
    go [] p g = tt
    go (t ∷ ts) ((j, at'), p) (n, g) = (
      λ same.
          let e : i ≡ j = sym (index_of_lem rs i q d at) ∙ same ∙ index_of_lem rs j t d at' in
          n (ap (λ (r : Record). r.id) (some_inj (sym at ∙ ap (get_elem? rs) e ∙ at'))),
      go ts p g,
    )
      where
        some_inj : {a b : Record} → some a ≡ some b → a ≡ b
        some_inj p = cc

-- What a successful `Plan` returns.
pub plan-ok :
    (c : Codec) (f : Faults) (records : List Record) (planned : List PlannedRecord)
    → plan c records f ≡ ok planned
    → planned
      ≡ plan_from c f (index_from 0 [] records) 1 (reorder (pos_part f.reorder_window) records)
unfolding plan
plan-ok c f records planned h = (guarded-ok (has_negative f) negative_fault _ h).1

All-nil : (m : Dict ℕ) (rs : List Record) → All (IndexNew m []) rs
unfolding contains
All-nil m [] = tt
All-nil m (r ∷ rs) = (refl, All-nil m rs)

-- The plan of a log with distinct ids, by its numbers: each record that is not dropped stands in
-- it once or twice; every `drop_every`-th position is dropped; the entries of a repeated position
-- make up the rest.
pub plan_accounts :
    (c : Codec) (f : Faults) (records : List Record) (planned : List PlannedRecord)
    → Distinct (ids records)
    → plan c records f ≡ ok planned
    → let n = length records in
      (unique_planned planned + n / pos_part f.drop_every ≡ n)
      × (length planned ≡ unique_planned planned + count_range (repeats f) 1 n)
      × (count_if is_poisoned planned
          ≡ count_range (spoils f) 1 n + count_range (λ k. spoils f k && repeats f k) 1 n)
unfolding plan unique_planned
plan_accounts c f records planned d h =
    let w = pos_part f.reorder_window in
    let m = index_from 0 [] records in
    let qs = reorder w records in
    let n = length records in
    let e = plan-ok c f records planned h in
    let apart =
      Apart-of_places records qs d (reorder-places w records) (reorder-Distinct w records d) in
    let counted : length {A = ℕ} [] + count_range (keeps f) 1 (length qs)
        ≡ count_range (keeps f) 1 n =
      omega (arith, ap (count_range (keeps f) 1) (length-reorder w records)) in
    let unique : unique_planned planned ≡ count_range (keeps f) 1 n =
      ap unique_planned e ∙ unique-plan_from c f m 1 [] qs (All-nil m qs) apart ∙ counted in
    let long : length planned ≡ count_range (keeps f) 1 n + count_range (repeats f) 1 n =
      ap length e
      ∙ length-plan_from c f m 1 qs
      ∙ ap (λ (k : ℕ). count_range (keeps f) 1 k + count_range (repeats f) 1 k)
          (length-reorder w records) in
    (
      omega (arith, unique, kept_and_dropped f 1 n, count_range-hits (pos_part f.drop_every) n),
      omega (arith, long, unique),
      ap (count_if is_poisoned) e
          ∙ poisoned-plan_from c f m 1 qs
          ∙ ap
              (λ (k : ℕ).
                count_range (spoils f) 1 k + count_range (λ j. spoils f j && repeats f j) 1 k)
              (length-reorder w records),
    )
