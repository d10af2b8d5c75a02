-- ===== src/Message.antt =====
-- pkg/message/message.go: the records of a message log, their checks, and the log's reader and writer.
-- The reader is given what its JSON decoder yields, `none` for a malformed entry; the writer is told
-- what becomes of its line. Timestamps are nanoseconds, with 0 for Go's zero time.
pub mod Reading
pub mod Numbers
pub mod Writing
pub mod Distinct
use inferno_sim.Prelude.{
  ℕ, zero, suc, ◌+◌, ◌-◌, ◌*◌, ◌/◌, ◌%◌, ◌≤◌, ◌<◌, min, max, String, ◌≡◌, refl, sym, ap, ◌∙◌, ◌≢◌,
  ◌↔◌, ◌⊎◌, inl, inr, Bool, true, false, not, ◌&&◌, ◌||◌, Option, none, some, List, [], ◌∷◌, ◌++◌,
  map, reverse, arith, str_eq, eq_iff, eq_refl, ltb, leb, ◌==◌, if◌then◌else◌, ltb→lt, lt→ltb,
  leb→le, ==_iff, Bool-cases, Option-cases,
}
use inferno_sim.Prelude.Lists.{
  length, get_elem?, set, take, drop, any, is_empty, count_if, length-append, take-append-drop,
  length-take, length-drop, take_all, drop_all, All, All-append, All-get_elem?, length-map,
  All_mono,
}
use inferno_sim.Prelude.Int.{ℤ, pos, negsuc, pos_part, neg_part, ltb_ℤ, ◌≤ℤ◌, succ64}
use inferno_sim.Prelude.Result.{Result, ok, err, ◌>>=◌, ◌>>◌, reject_if, >>=-eq-ok}
use inferno_sim.Prelude.Text.{
  equal_fold, trim_space, is_blank, is_empty_text, equal_fold_refl, equal_fold_sym,
  equal_fold_trans, equal_fold_congr, str_eq-true, str_eq-false,
}
use inferno_sim.Prelude.Dict.{Dict, lookup, put, lookup-put, has_key, member}
use inferno_sim.Prelude.Sort.{sort_stable}
use inferno_sim.Codec.{Codec}
use Prim.Native.String.{len}

pub record Header : Type 0 where
  pub key : String
  pub value_b64 : String

pub record BinaryHeader : Type 0 where
  pub key : String
  pub value : String

pub record Record : Type 0 where
  pub version : ℕ
  pub id : String
  pub timestamp : ℕ
  pub sequence : ℤ
  pub broker : String
  pub direction : String
  pub topic : String
  pub partition : ℤ
  pub offset : ℤ
  pub key_b64 : String
  pub headers : List Header
  pub payload_b64 : String
  pub payload_sha256 : String
  pub redacted : Bool
  pub correlation_id : String
  pub schema : String

pub data Error : Type 0 where
  decode_failed : String → Error
  hash_mismatch empty_header_name bad_version missing_field bad_direction bad_json : Error
  duplicate_id : String → Error

abbrev pub format_version : ℕ
format_version = 1

module _ (c : Codec) where
  pub decode_field : String → String → Result Error String
  decode_field name value = elim (c.decode value) [
    | none ↦ err (decode_failed name)
    | some decoded ↦ ok decoded
  ]

  unfoldable pub key : Record → Result Error String
  unfolding decode_field
  key r = decode_field "key" r.key_b64

  unfoldable pub payload : Record → Result Error String
  unfolding decode_field
  payload r = do
    decoded ← decode_field "payload" r.payload_b64
    reject_if
        (not (is_empty_text r.payload_sha256) && not (str_eq (c.sha256 decoded) r.payload_sha256))
        hash_mismatch
    ok decoded

  -- the loop of `HeaderValues`
  unfoldable pub decode_headers : List Header → Result Error (List BinaryHeader)
  unfolding decode_field
  decode_headers [] = ok []
  decode_headers (h ∷ hs) = do
    reject_if (is_blank h.key) empty_header_name
    value ← decode_field h.key h.value_b64
    rest ← decode_headers hs
    ok (record { key = h.key; value = value } ∷ rest)

  unfoldable pub header_values : Record → Result Error (List BinaryHeader)
  unfolding decode_headers
  header_values r = decode_headers r.headers

  -- the loop of `HeaderMap`: a later header of the same name overwrites
  pub collect_headers : Dict String → List BinaryHeader → Dict String
  collect_headers m [] = m
  collect_headers m (h ∷ hs) = collect_headers (put h.key h.value m) hs

  unfoldable pub header_map : Record → Result Error (Dict String)
  unfolding header_values collect_headers
  header_map r = do headers ← header_values r; ok (collect_headers [] headers)

  unfoldable pub validate : Record → Result Error (Unit {0})
  validate r = do
    reject_if (not (r.version == format_version)) bad_version
    reject_if (is_empty_text r.id || is_empty_text r.topic || r.timestamp == 0) missing_field
    reject_if
        (not (is_empty_text r.direction)
          && not (str_eq r.direction "publish")
          && not (str_eq r.direction "consume"))
        bad_direction
    _ ← key r
    _ ← payload r
    _ ← header_map r
    ok tt

  -- the loop of `Load`, with the ids seen and the records read so far
  unfoldable pub load_from :
      List String → List Record → List (Option Record) → Result Error (List Record)
  load_from seen acc [] = ok acc
  load_from seen acc (none ∷ _) = err bad_json
  load_from seen acc (some r ∷ rest) = do
    validate r
    reject_if (member r.id seen) (duplicate_id r.id)
    load_from (r.id ∷ seen) (acc ++ r ∷ []) rest

-- sort.SliceStable in `Load`: by time, then by sequence number
unfoldable pub record_less : Record → Record → Bool
record_less a b =
    if a.timestamp == b.timestamp then ltb_ℤ a.sequence b.sequence else ltb a.timestamp b.timestamp

unfoldable pub load : Codec → List (Option Record) → Result Error (List Record)
load c entries = do records ← load_from c [] [] entries; ok (sort_stable record_less records)

-- The logger's counter, the entries that a reader of its file meets, and whether its buffered writer
-- has failed: the writer keeps its first error, and takes nothing after it.
pub record Logger : Type 0 where
  pub sequence : ℤ
  pub file : List (Option Record)
  pub broken : Bool

-- the loop of `NewLogger` over the records that the file holds
unfoldable pub last_sequence : ℤ → List Record → ℤ
last_sequence n [] = n
last_sequence n (r ∷ rs) = last_sequence (if ltb_ℤ n r.sequence then r.sequence else n) rs

unfoldable pub new_logger : Codec → List (Option Record) → Result Error Logger
unfolding last_sequence
new_logger c entries = do
  existing ← load c entries
  ok (record { sequence = last_sequence (pos 0) existing; file = entries; broken = false })

pub data WriteError : Type 0 where
  invalid : Error → WriteError
  io_error : WriteError

-- What `Write` makes of a record before it checks it.
unfoldable pub stamp : Logger → Record → Record
stamp l r = record r {
  sequence = succ64 l.sequence;
  version = if r.version == 0 then format_version else r.version;
}

-- What a flush that fails has left of a line: nothing, a part, or the whole record.
pub data Leftover : Type 0 where
  nothing torn whole : Leftover

-- What becomes of a line: it is written, it cannot be encoded, or the writer fails under it.
pub data Disk : Type 0 where
  written not_encoded : Disk
  failed : Leftover → Disk

abbrev pub left_entries : Leftover → Record → List (Option Record)
left_entries nothing s = []
left_entries torn s = none ∷ []
left_entries whole s = some s ∷ []

-- Encoding and flushing; the test is whether the writer has failed before.
store : Disk → Bool → Logger → Record → Logger × Result WriteError (Unit {0})
store written false l s = (record l { file = l.file ++ some s ∷ [] }, ok tt)
store (failed left) false l s =
    (record l { file = l.file ++ left_entries left s; broken = true }, err io_error)
store _ _ l s = (l, err io_error)

-- The rest of `Write`, once the stamped record `s` has been checked.
commit : Result Error (Unit {0}) → Disk → Logger → Record → Logger × Result WriteError (Unit {0})
commit (err e) disk l s = (record l { sequence = s.sequence }, err (invalid e))
commit (ok _) disk l s = store disk l.broken (record l { sequence = s.sequence }) s

-- `Logger.Write`; `disk` says what becomes of the line.
unfoldable pub write : Codec → Disk → Logger → Record → Logger × Result WriteError (Unit {0})
unfolding stamp commit store
write c disk l r = commit (validate c (stamp l r)) disk l (stamp l r)

-- A header that carries one of the correlation names, the names tried in order.
unfoldable pub named_value : String → List BinaryHeader → Option String
named_value wanted [] = none
named_value wanted (h ∷ hs) =
    if equal_fold h.key wanted && not (is_empty_text h.value)
    then some h.value
    else named_value wanted hs

unfoldable pub first_named : List String → List BinaryHeader → Option String
unfolding named_value
first_named [] headers = none
first_named (w ∷ ws) headers = elim (named_value w headers) [
  | some value ↦ some value
  | none ↦ first_named ws headers
]

unfoldable pub first_json : Codec → List String → String → Option String
first_json c [] body = none
first_json c (n ∷ ns) body = elim (c.json_text body n) [
  | some value ↦ some value
  | none ↦ first_json c ns body
]

unfoldable pub safe_correlation : Codec → String → String
safe_correlation c value =
    let trimmed = trim_space value in if ltb 256 (len trimmed) then c.sha256 trimmed else trimmed

unfoldable pub infer_correlation : Codec → List BinaryHeader → String → String
unfolding first_named first_json safe_correlation
infer_correlation c headers body =
    elim (first_named ("correlation-id" ∷ "x-correlation-id" ∷ "traceparent" ∷ "x-request-id" ∷ [])
      headers) [
        | some value ↦ safe_correlation c value
        | none ↦ elim (first_json c ("correlation_id" ∷ "trace_id" ∷ "request_id" ∷ []) body) [
          | some value ↦ safe_correlation c value
          | none ↦ ""
        ]
      ]

unfoldable pub encode_headers : Codec → List BinaryHeader → List Header
encode_headers c [] = []
encode_headers c (h ∷ hs) =
    record { key = h.key; value_b64 = c.encode h.value } ∷ encode_headers c hs

-- `NewWithHeaders`, given the generated id and the time
unfoldable pub new_with_headers :
    Codec → String → ℕ → String → String → String → List BinaryHeader → Record
unfolding encode_headers infer_correlation
new_with_headers c id now topic key payload headers = record {
  version = format_version;
  id = id;
  timestamp = now;
  sequence = pos 0;
  broker = "";
  direction = "";
  topic = topic;
  partition = negsuc 0;
  offset = negsuc 0;
  key_b64 = c.encode key;
  headers = encode_headers c headers;
  payload_b64 = c.encode payload;
  payload_sha256 = c.sha256 payload;
  redacted = false;
  correlation_id = infer_correlation c headers payload;
  schema = "";
}
