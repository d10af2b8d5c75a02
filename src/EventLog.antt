-- ===== src/EventLog.antt =====
-- pkg/event/event.go and pkg/event/log.go: captured events and the log that numbers them. Times are
-- nanoseconds. A log file is the list of its events, with a tail that may not decode.
use inferno_sim.Prelude.{
  map, false, ℕ, String, Bool, true, ◌&&◌, ◌||◌, Option, none, some, List, [], ◌∷◌, ◌++◌, leb, ◌==◌,
  if◌then◌else◌,
}
use inferno_sim.Prelude.Lists.{length}
use inferno_sim.Prelude.Int.{ℤ, pos, ltb_ℤ, succ64}
use inferno_sim.Prelude.Text.{codes}
use inferno_sim.Matcher.Externals.{Values}

pub record Event : Type 0 where
  pub id : String
  pub kind : String
  pub timestamp : ℕ
  pub sequence : ℤ
  pub method : String
  pub url : String
  pub status : ℤ
  pub duration : ℤ
  pub headers : Values
  pub body_size : ℤ
  pub trace_id : String
  pub body_b64 : String
  pub body_sha256 : String
  pub body_truncated : Bool
  pub body_redacted : Bool
  pub response_headers : Values
  pub response_trailers : Values
  pub response_body_b64 : String
  pub response_body_sha256 : String
  pub response_body_truncated : Bool
  pub response_body_redacted : Bool
  pub response_captured : Bool
  pub grpc_service_method : String

-- A character that a hexadecimal identifier has.
abbrev pub is_hex : ℕ → Bool
is_hex c = (leb b'0' c && leb c b'9') || (leb b'a' c && leb c b'f')

unfoldable pub all_hex : List ℕ → Bool
all_hex [] = true
all_hex (c ∷ cs) = is_hex c && all_hex cs

-- `SanitizeTraceID`: 32 such characters, or nothing
unfoldable pub sanitize_trace_id : String → String
unfolding all_hex
sanitize_trace_id raw = if length (codes raw) == 32 && all_hex (codes raw) then raw else ""

-- The entries that a reader of the file meets, the counter, and whether the buffered writer has
-- failed: it keeps its first error and takes nothing after it.
pub record Logger : Type 0 where
  pub file : List (Option Event)
  pub sequence : ℤ
  pub broken : Bool

-- The events before the first entry that does not decode: the rest of the file is cut off.
unfoldable pub decoded_prefix : List (Option Event) → List Event
decoded_prefix [] = []
decoded_prefix (none ∷ es) = []
decoded_prefix (some e ∷ es) = e ∷ decoded_prefix es

unfoldable pub last_sequence : ℤ → List Event → ℤ
last_sequence n [] = n
last_sequence n (e ∷ es) = last_sequence (if ltb_ℤ n e.sequence then e.sequence else n) es

-- `NewLogger`
unfoldable pub new_logger : List (Option Event) → Logger
unfolding decoded_prefix last_sequence
new_logger es = record {
  file = map some (decoded_prefix es);
  sequence = last_sequence (pos 0) (decoded_prefix es);
  broken = false;
}

-- What becomes of a line: it is written, it cannot be encoded, or the writer fails under it and
-- leaves nothing, a part or the whole event.
pub data Disk : Type 0 where
  written not_encoded left_nothing left_part left_whole : Disk

abbrev pub entries_left : Disk → Event → List (Option Event)
entries_left written e = some e ∷ []
entries_left left_part e = none ∷ []
entries_left left_whole e = some e ∷ []
entries_left _ e = []

abbrev pub breaks : Disk → Bool
breaks written = false
breaks not_encoded = false
breaks _ = true

-- `Write`: the number is used up in any case.
unfoldable pub write : Disk → Event → Logger → Logger
write disk e l =
    let n = succ64 l.sequence in
    if l.broken then record l { sequence = n } else record {
      file = l.file ++ entries_left disk (record e { sequence = n });
      sequence = n;
      broken = breaks disk;
    }
