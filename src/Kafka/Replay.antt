-- ===== src/Kafka/Replay.antt =====
-- `Replay` of pkg/kafkasim/kafka.go. The broker and the context are an oracle that says for each
-- entry whether the wait is cancelled, the broker refuses it, or it is delivered; the optional
-- AsyncAPI check is a function that counts its findings. The waits themselves are left out.
use inferno_sim.Prelude.{
  ℕ, ◌+◌, ◌-◌, String, Bool, true, not, ◌&&◌, ◌||◌, Option, none, some, List, [], ◌∷◌, ◌++◌, str_eq,
  ltb, leb, ◌==◌, if◌then◌else◌,
}
use inferno_sim.Prelude.Lists.{length, count_if}
use inferno_sim.Prelude.Int.{ℤ, pos, ltb_ℤ}
use inferno_sim.Prelude.Result.{Result, ok, err, ◌>>=◌}
use inferno_sim.Prelude.Text.{is_empty_text}
use Prim.Native.String
use Prim.Native.String.{len}
use inferno_sim.Codec.{Codec}
use inferno_sim.Prelude.Text.{codes}
use inferno_sim.Message
use inferno_sim.Message.{Record, BinaryHeader}
use inferno_sim.Kafka.{Faults, PlannedRecord, plan, unique_planned}

-- The characters of `^[A-Za-z0-9._-]+$`.
unfoldable pub topic_code : ℕ → Bool
topic_code c =
    (leb b'A' c && leb c b'Z')
    || (leb b'a' c && leb c b'z')
    || (leb b'0' c && leb c b'9')
    || c == b'.'
    || c == b'_'
    || c == b'-'

abbrev pub every_code : (ℕ → Bool) → List ℕ → Bool
every_code p [] = true
every_code p (c ∷ cs) = p c && every_code p cs

-- `validateTopic`: whether the name is accepted
unfoldable pub valid_topic : String → Bool
unfolding topic_code
valid_topic topic =
    not (is_empty_text topic)
    && leb (len topic) 249
    && not (str_eq topic ".")
    && not (str_eq topic "..")
    && every_code topic_code (codes topic)

pub record Sent : Type 0 where
  pub topic : String
  pub partition : ℤ
  pub key : String
  pub value : String
  pub headers : List BinaryHeader
  pub timestamp : ℕ

pub record ReplayResult : Type 0 where
  pub loaded : ℕ
  pub produced : ℕ
  pub dropped : ℕ
  pub duplicated : ℕ
  pub poisoned : ℕ
  pub findings : ℕ
  pub sent : List Sent

pub data Delivery : Type 0 where
  cancelled refused delivered : Delivery

pub data ReplayError : Type 0 where
  load_failed : Message.Error → ReplayError
  schema_findings negative_fault context_done not_produced : ReplayError
  bad_topic : String → ReplayError
  bad_record : Message.Error → ReplayError

-- `if outbound.Partition < 0 { outbound.Partition = 0 }`
abbrev pub chosen_partition : ℤ → ℤ
chosen_partition p = if ltb_ℤ p (pos 0) then pos 0 else p

-- What the loop sends for an entry, if its key, payload and headers can be decoded.
unfoldable pub outbound : Codec → String → Record → Result Message.Error Sent
outbound c topic_prefix r = do
  k ← Message.key c r
  body ← Message.payload c r
  headers ← Message.header_values c r
  ok (record {
    topic = String.◌++◌ topic_prefix r.topic;
    partition = chosen_partition r.partition;
    key = k;
    value = body;
    headers = headers;
    timestamp = r.timestamp;
  })

abbrev pub deliver : ReplayResult → Sent → ReplayResult
deliver result s = record result { produced = result.produced + 1; sent = result.sent ++ s ∷ [] }

-- One round of the producing loop; an error ends it.
unfoldable pub send_one : Codec → String → Delivery → PlannedRecord → Result ReplayError Sent
unfolding outbound
send_one c topic_prefix cancelled p = err context_done
send_one c topic_prefix refused p = elim (outbound c topic_prefix p.entry) [
  | err e ↦ err (bad_record e)
  | ok s ↦ err not_produced
]
send_one c topic_prefix delivered p = elim (outbound c topic_prefix p.entry) [
  | err e ↦ err (bad_record e)
  | ok s ↦ ok s
]

-- the producing loop; entry number `k` meets the answer `answers k`
unfoldable pub send_from :
    Codec
    → String
    → (ℕ → Delivery)
    → ℕ
    → List PlannedRecord
    → ReplayResult
    → ReplayResult × Option ReplayError
unfolding send_one
send_from c topic_prefix answers k [] result = (result, none)
send_from c topic_prefix answers k (p ∷ ps) result = elim (send_one c topic_prefix (answers k) p) [
  | err e ↦ (result, some e)
  | ok s ↦ send_from c topic_prefix answers (k + 1) ps (deliver result s)
]

-- The first planned topic that is not accepted.
unfoldable pub bad_planned : String → List PlannedRecord → Option String
bad_planned topic_prefix [] = none
bad_planned topic_prefix (p ∷ ps) =
    let topic = String.◌++◌ topic_prefix p.entry.topic in
    if valid_topic topic then bad_planned topic_prefix ps else some topic

abbrev pub loaded_only : ℕ → ℕ → ReplayResult
loaded_only n findings = record {
  loaded = n;
  produced = 0;
  dropped = 0;
  duplicated = 0;
  poisoned = 0;
  findings = findings;
  sent = [];
}

abbrev pub planned_result : ℕ → List PlannedRecord → ReplayResult
planned_result n planned = record (loaded_only n 0) {
  dropped = n - unique_planned planned;
  duplicated = length planned - unique_planned planned;
  poisoned = count_if (λ p. p.poisoned) planned;
}

-- `Replay` from the topic checks on
unfoldable pub replay_planned :
    Codec → String → (ℕ → Delivery) → ℕ → List PlannedRecord → ReplayResult × Option ReplayError
unfolding send_from bad_planned
replay_planned c topic_prefix answers n planned = elim (bad_planned topic_prefix planned) [
  | some topic ↦ (loaded_only n 0, some (bad_topic topic))
  | none ↦ send_from c topic_prefix answers 0 planned (planned_result n planned)
]

-- `Replay` once the log is read
unfoldable pub replay_records :
    Codec
    → String
    → (List Record → ℕ)
    → Faults
    → (ℕ → Delivery)
    → List Record
    → ReplayResult × Option ReplayError
unfolding replay_planned
replay_records c topic_prefix findings f answers records =
    let n = length records in
    if ltb 0 (findings records)
    then (loaded_only n (findings records), some schema_findings)
    else elim (plan c records f) [
      | err e ↦ (loaded_only n 0, some negative_fault)
      | ok planned ↦ replay_planned c topic_prefix answers n planned
    ]

unfoldable pub replay :
    Codec
    → String
    → (List Record → ℕ)
    → Faults
    → (ℕ → Delivery)
    → List (Option Record)
    → ReplayResult × Option ReplayError
unfolding replay_records
replay c topic_prefix findings f answers entries = elim (Message.load c entries) [
  | err e ↦ (loaded_only 0 0, some (load_failed e))
  | ok records ↦ replay_records c topic_prefix findings f answers records
]
