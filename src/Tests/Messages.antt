-- ===== src/Tests/Messages.antt =====
-- Runs of the message log and the Kafka replay on concrete records.
use inferno_sim.Prelude.{
  ◌+◌, ◌/◌, ◌≡◌, refl, ◌↔◌, false, ◌&&◌, Option, none, some, List, [], ◌∷◌, arith,
}
use inferno_sim.Prelude.Lists.{length, get_elem?, count_if, All}
use inferno_sim.Prelude.Int.{pos, ◌≤ℤ◌}
use inferno_sim.Prelude.Result.{ok}
use inferno_sim.Prelude.Text.{trim_space, str_eq-false}
use inferno_sim.Prelude.Dict.{member, Distinct}
use inferno_sim.Prelude.Sort.{sort_stable, keep}
use mathlib.Core.List.{Perm}
use inferno_sim.Message.{
  Record, Logger, new_logger, written, failed, torn, load, load_from, validate, key, payload,
  header_values, header_map, decode_headers, record_less, write, new_with_headers,
}
use inferno_sim.Message.Distinct.{ids}
use inferno_sim.Message.Reading.{load-ok_iff, load_order, all_read, IsGood, same_key, IsInOrder}
use inferno_sim.Message.Numbers.{IsIncreasing}
use inferno_sim.Message.Writing.{
  new_logger-IsCovered, write_lem, write_all-IsIncreasing, write_all, new_with_headers_lem,
  IsCovered, Written,
}
use inferno_sim.Message.{stamp}
use inferno_sim.Kafka.{plan, plan_from, index_from, reorder, unique_planned}
use inferno_sim.Kafka.Accounting.{plan_accounts, repeats, spoils, is_poisoned, count_range}
use inferno_sim.Kafka.Entries.{plan-IsFaithful, IsFaithful}
use inferno_sim.Kafka.Reorder.{reorder_lem, source_place}
use inferno_sim.Kafka.Replay.{delivered, replay, valid_topic}
use inferno_sim.Kafka.Sent.{replay_accounts}
use inferno_sim.Tests.{plain_codec, record_named, three_records, some_faults}

abbrev entries : List (Option Record)
entries =
    some (record_named "c" 3 3) ∷ some (record_named "a" 1 1) ∷ some (record_named "b" 2 2) ∷ []

ids_differ : Distinct (ids three_records)
ids_differ = (
  (str_eq-false "a" "b" refl, (str_eq-false "a" "c" refl, tt)),
  ((str_eq-false "b" "c" refl, tt), (tt, tt)),
)

loaded : load plain_codec entries ≡ ok three_records
unfolding load load_from validate key payload header_values decode_headers sort_stable header_map
    trim_space member record_less
loaded = refl

planned :
    plan plain_codec three_records some_faults
    ≡ ok (
        plan_from plain_codec some_faults
          (index_from 0 [] three_records)
          1
          (reorder 2 three_records))
unfolding plan
planned = refl

replayed : (replay plain_codec "" (λ rs. 0) some_faults (λ n. delivered) entries).1 ≡ none
unfolding replay load load_from validate key payload header_values decode_headers sort_stable
    header_map trim_space member plan record_less valid_topic
replayed = refl

-- The replay of three records with a duplicate at 2 and a drop at 3.
replay_accounts_example :
    let r = (replay plain_codec "" (λ rs. 0) some_faults (λ n. delivered) entries).0 in
    (r.produced ≡ length r.sent)
    × (r.produced + r.dropped ≡ r.loaded + r.duplicated)
    × (r.dropped ≡ r.loaded / 3)
    × (r.duplicated ≡ count_range (repeats some_faults) 1 r.loaded)
replay_accounts_example =
    replay_accounts plain_codec "" some_faults (λ n. delivered) (λ rs. 0) entries replayed

plan_accounts_example :
    let out =
      plan_from plain_codec some_faults
        (index_from 0 [] three_records)
        1
        (reorder 2 three_records) in
    (unique_planned out + 3 / 3 ≡ 3)
    × (length out ≡ unique_planned out + count_range (repeats some_faults) 1 3)
    × (count_if is_poisoned out
        ≡ count_range (spoils some_faults) 1 3
          + count_range (λ k. spoils some_faults k && repeats some_faults k) 1 3)
plan_accounts_example = plan_accounts plain_codec some_faults three_records _ ids_differ planned

plan-IsFaithful_example :
    All (IsFaithful plain_codec three_records) (
      plan_from plain_codec some_faults (index_from 0 [] three_records) 1 (reorder 2 three_records))
plan-IsFaithful_example = plan-IsFaithful plain_codec some_faults three_records _ ids_differ planned

load-ok_iff_example : (load plain_codec entries ≡ ok three_records) ↔ (
    (rs : List Record) × (entries ≡ all_read rs)
    × (three_records ≡ sort_stable record_less rs)
    × All (IsGood plain_codec) rs
    × Distinct (ids rs))
load-ok_iff_example = load-ok_iff plain_codec entries three_records

load_order_example :
    IsInOrder three_records
    × ((rs : List Record) × (entries ≡ all_read rs)
        × Perm three_records rs
        × ((a : Record)
            → keep (same_key plain_codec a) three_records ≡ keep (same_key plain_codec a) rs))
load_order_example = load_order plain_codec entries three_records loaded

abbrev logger : Logger
logger = record { sequence = pos 3; file = all_read three_records; broken = false }

logger-IsCovered : IsCovered logger
logger-IsCovered = (omega arith, (omega arith, (omega arith, tt)))

logger-IsIncreasing : IsIncreasing logger.file
logger-IsIncreasing = ((omega arith, (omega arith, tt)), ((omega arith, tt), (tt, tt)))

write_lem_example :
    Written plain_codec
      (failed torn)
      (stamp logger (record_named "d" 4 0))
      logger
      (write plain_codec (failed torn) logger (record_named "d" 4 0)).0
      (write plain_codec (failed torn) logger (record_named "d" 4 0)).1
write_lem_example =
    write_lem plain_codec (failed torn) logger (record_named "d" 4 0) (omega arith) logger-IsCovered

write_all-IsIncreasing_example :
    IsIncreasing
      (write_all plain_codec logger
        ((written, record_named "d" 4 0) ∷ (failed torn, record_named "e" 5 0) ∷ [])).file
write_all-IsIncreasing_example =
    write_all-IsIncreasing plain_codec logger
      ((written, record_named "d" 4 0) ∷ (failed torn, record_named "e" 5 0) ∷ []) (omega arith)
      logger-IsCovered logger-IsIncreasing

abbrev made : Record
made =
    new_with_headers plain_codec "id" 5 "orders" "k" "body" (record { key = "h"; value = "v" } ∷ [])

new_with_headers_example :
    (key plain_codec made ≡ ok "k")
    × (payload plain_codec made ≡ ok "body")
    × (header_values plain_codec made ≡ ok (record { key = "h"; value = "v" } ∷ []))
    × (validate plain_codec made ≡ ok tt)
unfolding trim_space
new_with_headers_example =
    new_with_headers_lem plain_codec "id" "orders" "k" "body" 5
      (record { key = "h"; value = "v" } ∷ []) (refl, tt) (str_eq-false "id" "" refl)
      (str_eq-false "orders" "" refl) (omega arith)

reorder_lem_example :
    get_elem? (reorder 2 three_records) 0 ≡ get_elem? three_records (source_place 2 3 0)
reorder_lem_example = reorder_lem 2 0 three_records (omega arith)

opened :
    new_logger plain_codec entries
    ≡ ok (record { sequence = pos 3; file = entries; broken = false })
unfolding new_logger load load_from validate key payload header_values decode_headers sort_stable
    header_map trim_space member record_less
opened = refl

new_logger-IsCovered_example :
    (entries ≡ entries)
    × (pos 0 ≤ℤ pos 3)
    × IsCovered (record { sequence = pos 3; file = entries; broken = false })
new_logger-IsCovered_example = new_logger-IsCovered plain_codec entries _ opened
