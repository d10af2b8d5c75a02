-- ===== src/Kafka.antt =====
-- pkg/kafkasim/kafka.go: the fault plan of a Kafka replay and the replay itself. The slice that
-- `Plan` reorders in place is a list that is written by position.
use inferno_sim.Prelude.{
  subst, ℕ, zero, suc, ◌+◌, ◌-◌, ◌*◌, ◌/◌, ◌%◌, ◌≤◌, ◌<◌, min, max, String, ◌≡◌, refl, sym, ap, ◌∙◌,
  ◌≢◌, ◌↔◌, ◌⊎◌, inl, inr, Bool, true, false, not, ◌&&◌, ◌||◌, Option, none, some, List, [], ◌∷◌,
  ◌++◌, map, reverse, arith, str_eq, eq_iff, eq_refl, ltb, leb, ◌==◌, if◌then◌else◌, ltb→lt, lt→ltb,
  leb→le, ==_iff, Bool-cases, Option-cases,
}
use inferno_sim.Prelude.Lists.{
  length, get_elem?, set, take, drop, any, is_empty, count_if, length-append, take-append-drop,
  length-take, length-drop, take_all, drop_all, All, All-append, All-get_elem?, length-map,
  All_mono,
}
use inferno_sim.Prelude.Int.{ℤ, pos, negsuc, pos_part, neg_part, ltb_ℤ, ◌≤ℤ◌}
use inferno_sim.Prelude.Result.{Result, ok, err, ◌>>=◌, ◌>>◌, reject_if, >>=-eq-ok, reject_if-ok}
use inferno_sim.Prelude.Text.{
  equal_fold, trim_space, is_blank, is_empty_text, equal_fold_refl, equal_fold_sym,
  equal_fold_trans, equal_fold_congr, str_eq-true, str_eq-false,
}
use inferno_sim.Prelude.Dict.{Dict, lookup, put, lookup-put, has_key, member}
pub mod Swap
pub mod Replay
pub mod Sent
pub mod Entries
pub mod Index
pub mod Accounting
pub mod Reorder
use inferno_sim.Codec.{Codec}
use inferno_sim.Message.{Record}
use Prim.Native.String.{len}
use Prim.Native.Char.{code}

pub record Faults : Type 0 where
  pub delay : ℤ
  pub drop_every : ℤ
  pub duplicate_every : ℤ
  pub poison_every : ℤ
  pub reorder_window : ℤ

pub record PlannedRecord : Type 0 where
  pub entry : Record
  pub original_index : ℕ
  pub duplicate_index : ℕ
  pub poisoned : Bool

pub data Error : Type 0 where
  negative_fault : Error
  invalid_topic : String → Error

-- `xs[i], xs[j] = xs[j], xs[i]`
unfoldable pub swap {ℓ} : {A : Type ℓ} → ℕ → ℕ → List A → List A
swap i j xs = elim (get_elem? xs i) [
  | none ↦ xs
  | some a ↦ elim (get_elem? xs j) [ none ↦ xs | some b ↦ set (set xs i b) j a ]
]

-- `for left < right { swap; left++; right-- }`; the fuel bounds the rounds.
unfoldable pub reverse_range {ℓ} : {A : Type ℓ} → ℕ → ℕ → ℕ → List A → List A
unfolding swap
reverse_range zero left right xs = xs
reverse_range (suc fuel) left right xs = elim (ltb left right) [
  | true ↦ reverse_range fuel (left + 1) (right - 1) (swap left right xs)
  | false ↦ xs
]

-- `for start := 0; start < len(ordered); start += window`
unfoldable pub reorder_from {ℓ} : {A : Type ℓ} → ℕ → ℕ → ℕ → List A → List A
unfolding reverse_range
reorder_from zero window start xs = xs
reorder_from (suc fuel) window start xs = elim (ltb start (length xs)) [
  | true ↦
      let last = min (start + window) (length xs) - 1 in
      reorder_from fuel window (start + window) (reverse_range (length xs) start last xs)
  | false ↦ xs
]

-- The `if faults.ReorderWindow > 1` block of `Plan`; a round for each record is enough.
unfoldable pub reorder {ℓ} : {A : Type ℓ} → ℕ → List A → List A
unfolding reorder_from
reorder window xs = if ltb 1 window then reorder_from (length xs) window 0 xs else xs

-- `indexByID`: a later record of the same id overwrites.
unfoldable pub index_from : ℕ → Dict ℕ → List Record → Dict ℕ
index_from index m [] = m
index_from index m (r ∷ rs) = index_from (index + 1) (put r.id index m) rs

-- `indexByID[id]`: 0 if the id is missing
unfoldable pub index_of : Dict ℕ → String → ℕ
index_of m id = elim (lookup id m) [ none ↦ 0 | some index ↦ index ]

-- `every > 0 && position % every == 0`
unfoldable pub hits : ℕ → ℕ → Bool
hits every position = ltb 0 every && position % every == 0

abbrev pub poison_payload : String
poison_payload = "{"

unfoldable pub plan_entry : Codec → Faults → Dict ℕ → ℕ → Record → PlannedRecord
plan_entry c f m position r =
    let poisoned = hits (pos_part f.poison_every) position in
    record {
      entry =
          if poisoned
          then record r {
            payload_b64 = c.encode poison_payload;
            payload_sha256 = c.sha256 poison_payload;
          }
          else r;
      original_index = index_of m r.id;
      duplicate_index = 0;
      poisoned = poisoned;
    }

-- What one record becomes: nothing, one entry, or an entry and its duplicate.
unfoldable pub plan_one : Codec → Faults → Dict ℕ → ℕ → Record → List PlannedRecord
unfolding plan_entry hits
plan_one c f m position r =
    let planned = plan_entry c f m position r in
    if hits (pos_part f.drop_every) position
    then []
    else if hits (pos_part f.duplicate_every) position
    then planned ∷ record planned { duplicate_index = 1 } ∷ []
    else planned ∷ []

-- the loop of `Plan` over the reordered records
unfoldable pub plan_from : Codec → Faults → Dict ℕ → ℕ → List Record → List PlannedRecord
unfolding plan_one
plan_from c f m position [] = []
plan_from c f m position (r ∷ rs) = plan_one c f m position r ++ plan_from c f m (position + 1) rs

abbrev pub is_negative : ℤ → Bool
is_negative n = ltb_ℤ n (pos 0)

abbrev pub has_negative : Faults → Bool
has_negative f =
    is_negative f.delay
    || is_negative f.drop_every
    || is_negative f.duplicate_every
    || is_negative f.poison_every
    || is_negative f.reorder_window

unfoldable pub plan : Codec → List Record → Faults → Result Error (List PlannedRecord)
unfolding reorder index_from plan_from
plan c records f = do
  reject_if (has_negative f) negative_fault
  ok (plan_from c f (index_from 0 [] records) 1 (reorder (pos_part f.reorder_window) records))

unfoldable pub contains : ℕ → List ℕ → Bool
contains n [] = false
contains n (m ∷ ms) = if m == n then true else contains n ms

-- the loop of `uniquePlanned`, with the indices seen
unfoldable pub unique_from : List ℕ → List PlannedRecord → ℕ
unfolding contains
unique_from seen [] = length seen
unique_from seen (p ∷ ps) =
    unique_from (if contains p.original_index seen then seen else p.original_index ∷ seen) ps

unfoldable pub unique_planned : List PlannedRecord → ℕ
unfolding unique_from
unique_planned ps = unique_from [] ps
