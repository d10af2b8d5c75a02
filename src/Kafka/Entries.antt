-- ===== src/Kafka/Entries.antt =====
-- What the plan of pkg/kafkasim/kafka.go puts into its entries, and when it refuses.
use inferno_sim.Prelude.{
  subst, ℕ, ◌+◌, ◌≤◌, ◌≡◌, refl, sym, ap, ◌∙◌, inl, inr, true, false, List, [], ◌∷◌, map, arith,
  Bool-cases,
}
use inferno_sim.Prelude.Lists.{All, All-append}
use inferno_sim.Prelude.Int.{pos, pos_part}
use inferno_sim.Prelude.Result.{ok, err}
use inferno_sim.Prelude.Dict.{Dict, Distinct}
use inferno_sim.Codec.{Codec}
use inferno_sim.Message.{Record, payload}
use inferno_sim.Message.Writing.{decode_payload}
use inferno_sim.Message.Distinct.{ids}
use inferno_sim.Kafka.{
  Faults, PlannedRecord, negative_fault, has_negative, hits, index_from, reorder, plan_entry,
  plan_one, plan_from, plan, poison_payload,
}
use inferno_sim.Kafka.Index.{StandsAt, index_of_lem, reorder-places}
use inferno_sim.Kafka.Accounting.{plan-ok}

-- An entry stands for the record at its index: for the record itself, or, if it is poisoned, for
-- the record with a payload that is not JSON and yet passes the check of its hash.
pub record IsFaithful (c : Codec) (records : List Record) (p : PlannedRecord) : Type 0 where
  pub origin : Record
  pub stands : StandsAt records p.original_index origin
  pub same_id : p.entry.id ≡ origin.id
  pub same_topic : p.entry.topic ≡ origin.topic
  pub same_key : p.entry.key_b64 ≡ origin.key_b64
  pub same_partition : p.entry.partition ≡ origin.partition
  pub untouched : p.poisoned ≡ false → p.entry ≡ origin
  pub spoilt : p.poisoned ≡ true → payload c p.entry ≡ ok poison_payload
  pub copies : p.duplicate_index ≤ 1

entry-IsFaithful :
    (c : Codec) (f : Faults) (records : List Record) (n i k : ℕ) (r : Record)
    → Distinct (ids records)
    → StandsAt records i r
    → k ≤ 1
    → IsFaithful c records
        (record (plan_entry c f (index_from 0 [] records) n r) { duplicate_index = k })
unfolding plan_entry
entry-IsFaithful c f records n i k r d at h = record {
  origin = r;
  stands = rw (index_of_lem records i r d at) at;
  same_id = ground arith;
  same_topic = ground arith;
  same_key = ground arith;
  same_partition = ground arith;
  untouched = λ e. ground arith;
  spoilt = λ e. rw e (decode_payload c _ poison_payload refl refl);
  copies = h;
}

plan_one-IsFaithful :
    (c : Codec) (f : Faults) (records : List Record) (n i : ℕ) (r : Record)
    → Distinct (ids records)
    → StandsAt records i r
    → All (IsFaithful c records) (plan_one c f (index_from 0 [] records) n r)
unfolding plan_one
plan_one-IsFaithful c f records n i r d at = elim (Bool-cases (hits (pos_part f.drop_every) n)) [
  | inl e ↦ rw e tt
  | inr e ↦ elim (Bool-cases (hits (pos_part f.duplicate_every) n)) [
    | inl e' ↦ rw (e, e') (once 0 (omega arith), (once 1 (omega arith), tt))
    | inr e' ↦ rw (e, e') (once 0 (omega arith), tt)
  ]
]
  where
    once :
        (k : ℕ)
        → k ≤ 1
        → IsFaithful c records
            (record (plan_entry c f (index_from 0 [] records) n r) { duplicate_index = k })
    once k h = entry-IsFaithful c f records n i k r d at h

plan_from-IsFaithful :
    (c : Codec) (f : Faults) (records : List Record) (n : ℕ) (qs : List Record)
    → Distinct (ids records)
    → All (λ r. (i : ℕ) × StandsAt records i r) qs
    → All (IsFaithful c records) (plan_from c f (index_from 0 [] records) n qs)
unfolding plan_from
plan_from-IsFaithful c f records n [] d h = tt
plan_from-IsFaithful c f records n (q ∷ qs) d ((i, at), h) =
    All-append _ (plan_one c f (index_from 0 [] records) n q) _
      (plan_one-IsFaithful c f records n i q d at) (plan_from-IsFaithful c f records (n + 1) qs d h)

-- Every entry of a plan stands for the record at its index, if the records' ids differ: it has
-- that record's id, topic, key and partition; it is that record if it is not poisoned; and if it
-- is, its payload is "{" and passes the check of its hash.
pub plan-IsFaithful :
    (c : Codec) (f : Faults) (records : List Record) (planned : List PlannedRecord)
    → Distinct (ids records)
    → plan c records f ≡ ok planned
    → All (IsFaithful c records) planned
plan-IsFaithful c f records planned d h =
    subst (All (IsFaithful c records)) (sym (plan-ok c f records planned h))
      (plan_from-IsFaithful c f records 1 _ d (reorder-places (pos_part f.reorder_window) records))

abbrev pub no_faults : Faults
no_faults = record {
  delay = pos 0;
  drop_every = pos 0;
  duplicate_every = pos 0;
  poison_every = pos 0;
  reorder_window = pos 0;
}

entries-plan_from :
    (c : Codec) (m : Dict ℕ) (n : ℕ) (rs : List Record)
    → map (λ p. p.entry) (plan_from c no_faults m n rs) ≡ rs
unfolding plan_from
entries-plan_from c m n [] = refl
entries-plan_from c m n (r ∷ rs) = ground (arith, entries-plan_from c m (n + 1) rs)

-- Negative faults are refused whatever the log, and without faults the plan is the log, in order.
pub plan_bounds :
    (c : Codec) (records : List Record)
    → ((f : Faults) → has_negative f ≡ true → plan c records f ≡ err negative_fault)
      × ((planned : List PlannedRecord)
          → plan c records no_faults ≡ ok planned
          → map (λ p. p.entry) planned ≡ records)
plan_bounds c records = (
  λ f h. unfold plan in rw h,
  λ planned h.
      ap (map (λ p. p.entry)) (plan-ok c no_faults records planned h)
      ∙ entries-plan_from c _ 1 (reorder 0 records)
      ∙ unfold reorder in refl,
)
