-- ===== src/Driver.antt =====
-- pkg/replaydriver: the events that a replay reads, and the values that a request takes over from
-- earlier responses. Texts are read by Go's packages, which are a parameter: URLs, base64, SHA-256,
-- header names, cookies and JSON objects with the printed form of their values.
use inferno_sim.Prelude.{
  subst, ℕ, zero, suc, ◌+◌, ◌-◌, ◌*◌, ◌/◌, ◌%◌, ◌^◌, ◌≤◌, ◌<◌, min, max, String, ◌≡◌, refl, sym, ap,
  ◌∙◌, ◌≢◌, ◌↔◌, ◌⊎◌, inl, inr, Bool, true, false, not, ◌&&◌, ◌||◌, Option, none, some, List, [],
  ◌∷◌, ◌++◌, map, reverse, arith, str_eq, eq_iff, eq_refl, ltb, leb, ◌==◌, if◌then◌else◌, ltb→lt,
  lt→ltb, leb→le, ==_iff, Bool-cases, Option-cases,
}
use inferno_sim.Prelude.Lists.{
  length, get_elem?, set, take, drop, any, is_empty, count_if, length-append, take-append-drop,
  length-take, length-drop, take_all, drop_all, All, All-append, All-get_elem?, length-map,
  All_mono, All_of_places,
}
use inferno_sim.Prelude.Int.{ℤ, pos, negsuc, pos_part, neg_part, ltb_ℤ, ◌≤ℤ◌}
use inferno_sim.Prelude.Result.{
  Result, ok, err, ◌>>=◌, ◌>>◌, reject_if, >>=-eq-ok, reject_if-ok, guarded-ok, Result-cases,
}
use inferno_sim.Prelude.Text.{
  equal_fold, trim_space, is_blank, is_empty_text, equal_fold_refl, equal_fold_sym,
  equal_fold_trans, equal_fold_congr, str_eq-true, str_eq-false,
}
use inferno_sim.Prelude.Dict.{
  Dict, lookup, put, lookup-put, has_key, member, Distinct, not-member-cons, member-cons_parts,
  place_of_name,
}
use Prim.Native.Char.{code}
use inferno_sim.Prelude.Sort.{sort_stable}
use inferno_sim.Matcher.Externals.{Values}
use inferno_sim.EventLog.{Event}
pub mod State
pub mod Exchange
pub mod Replay
pub mod Rounds
pub mod SafeMode
pub mod Accounting
pub mod Verification
pub mod Readiness

-- `LoadInboundEvents` keeps requests, and the last response of each trace.
unfoldable pub requests_of : List Event → List Event
requests_of [] = []
requests_of (e ∷ es) =
    let rest = requests_of es in if str_eq e.kind "InboundRequest" then e ∷ rest else rest

unfoldable pub responses_of : Dict Event → List Event → Dict Event
unfolding put
responses_of found [] = found
responses_of found (e ∷ es) =
    responses_of
      (if not (str_eq e.kind "InboundRequest")
          && (str_eq e.kind "InboundResponse" && not (is_empty_text e.trace_id))
        then put e.trace_id e found
        else found)
      es

-- `a.Sub(b)`
abbrev pub time_between : ℕ → ℕ → ℤ
time_between a b = if leb b a then pos (a - b) else negsuc (b - a - 1)

-- The request with what its response says of it.
abbrev pub with_response : Event → Option Event → Event
with_response e none = e
with_response e (some r) = record e {
  status = r.status;
  duration = time_between r.timestamp e.timestamp;
  response_captured = true;
  response_headers = r.headers;
  response_trailers = r.response_trailers;
  response_body_b64 = r.body_b64;
  response_body_sha256 = r.body_sha256;
  response_body_truncated = r.body_truncated;
  response_body_redacted = r.body_redacted;
}

unfoldable pub event_less : Event → Event → Bool
event_less a b =
    if a.timestamp == b.timestamp then ltb_ℤ a.sequence b.sequence else ltb a.timestamp b.timestamp

abbrev pub all_decoded : List (Option Event) → Option (List Event)
all_decoded [] = some []
all_decoded (none ∷ es) = none
all_decoded (some e ∷ es) = elim (all_decoded es) [ none ↦ none | some rest ↦ some (e ∷ rest) ]

-- `LoadInboundEvents`; `none` is its error.
unfoldable pub load_inbound_events : List (Option Event) → Option (List Event)
unfolding requests_of responses_of lookup sort_stable event_less
load_inbound_events entries = elim (all_decoded entries) [
  | none ↦ none
  | some es ↦ some (
      sort_stable event_less
        (map (λ e. with_response e (lookup e.trace_id (responses_of [] es))) (requests_of es)))
]

-- `isSideEffect`
unfoldable pub is_side_effect : String → Bool
unfolding equal_fold
is_side_effect method =
    equal_fold method "POST"
    || (equal_fold method "PUT" || (equal_fold method "PATCH" || equal_fold method "DELETE"))

unfoldable pub starts_with : String → String → Bool
starts_with s String.[] = true
starts_with String.[] (String.◌∷◌ d prefix) = false
starts_with (String.◌∷◌ c s) (String.◌∷◌ d prefix) = code c == code d && starts_with s prefix

-- `safeModeAllowed`
unfoldable pub safe_mode_allowed : String → List String → Bool
unfolding starts_with
safe_mode_allowed path allow = any (λ prefix. starts_with path prefix) allow

-- `capturedResponseHeaders`
abbrev pub captured_response_headers : Event → Values
captured_response_headers e = if e.response_captured then e.response_headers else e.headers

-- `capturedResponseHash`
abbrev pub captured_response_hash : Event → String
captured_response_hash e = if e.response_captured then e.response_body_sha256 else e.body_sha256

-- `capturedResponseBody`
abbrev pub captured_response_body : (String → Option String) → Event → Option String
captured_response_body decode e =
    let encoded = if e.response_captured then e.response_body_b64 else e.body_b64 in
    if is_empty_text encoded then none else decode encoded
