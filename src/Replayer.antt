-- ===== src/Replayer.antt =====
-- pkg/replay/replay.go: the replay of a log of events in order. A log is the list of its lines, each
-- decoded or not. What is taken from Go's packages, and the answers of the target, are parameters.
use inferno_sim.Prelude.{
  subst, ℕ, zero, suc, ◌+◌, ◌-◌, ◌*◌, ◌/◌, ◌%◌, ◌^◌, ◌≤◌, ◌<◌, min, max, String, ◌≡◌, refl, sym, ap,
  ◌∙◌, ◌≢◌, ◌↔◌, ◌⊎◌, inl, inr, Bool, true, false, not, ◌&&◌, ◌||◌, Option, none, some, List, [],
  ◌∷◌, ◌++◌, map, reverse, arith, str_eq, eq_iff, eq_refl, ltb, leb, ◌==◌, if◌then◌else◌, ltb→lt,
  lt→ltb, leb→le, ==_iff, Bool-cases, Option-cases,
}
use inferno_sim.Prelude.Lists.{
  length, get_elem?, set, take, drop, any, is_empty, count_if, length-append, take-append-drop,
  length-take, length-drop, take_all, drop_all, All, All-append, All-get_elem?, length-map,
  All_mono, All_of_places,
}
use inferno_sim.Prelude.Int.{ℤ, pos, negsuc, pos_part, neg_part, ltb_ℤ, ◌≤ℤ◌}
use inferno_sim.Prelude.Result.{
  Result, ok, err, ◌>>=◌, ◌>>◌, reject_if, >>=-eq-ok, reject_if-ok, guarded-ok, Result-cases,
}
use inferno_sim.Prelude.Text.{
  equal_fold, trim_space, is_blank, is_empty_text, equal_fold_refl, equal_fold_sym,
  equal_fold_trans, equal_fold_congr, str_eq-true, str_eq-false,
}
use inferno_sim.Prelude.Dict.{
  Dict, lookup, put, lookup-put, has_key, member, Distinct, not-member-cons, member-cons_parts,
  place_of_name,
}
use inferno_sim.Prelude.Sort.{sort_stable}
use inferno_sim.Matcher.Externals.{Values}
use inferno_sim.EventLog.{Event}
use inferno_sim.Driver.{event_less, is_side_effect}
use inferno_sim.Driver.Exchange.{Url, add_header}
pub mod Order
pub mod Writes

pub record ReplayConfig : Type 0 where
  pub strict : Bool
  pub allow_writes : Bool

pub record Request : Type 0 where
  pub method : String
  pub url : Url
  pub headers : Values
  pub body : Option String

-- `new_request` is the URL of `http.NewRequest`; a send gives the status, or nothing on an error.
pub record Tools : Type 0 where
  pub decode : String → Option String
  pub hash : String → String
  pub parse_url : String → Option Url
  pub new_request : String → Url → Option Url
  pub canonical : String → String
  pub send : ℕ → Request → Option ℤ

pub data Error : Type 0 where
  not_parsed no_events : Error
  moved_backwards write_blocked bad_body bad_hash no_target bad_url bad_request : ℕ → Error
  request_failed status_mismatch no_answer unknown_type : ℕ → Error
  coverage_mismatch : ℕ → ℕ → Error

unfoldable pub all_parsed : List (Option Event) → Result Error (List Event)
all_parsed [] = ok []
all_parsed (none ∷ es) = err not_parsed
all_parsed (some e ∷ es) = all_parsed es >>= λ rest. ok (e ∷ rest)

-- `NewReplayer`, given the lines that its scanner yields: a line over 64 KB ends the log unnoticed
unfoldable pub new_replayer : List (Option Event) → Result Error (List Event)
unfolding all_parsed sort_stable event_less
new_replayer entries = do
  events ← all_parsed entries
  reject_if (is_empty events) no_events
  ok (sort_stable event_less events)

-- The values of a captured header without those that are redacted.
unfoldable pub add_kept : String → List String → Values → Values
unfolding add_header
add_kept name [] hs = hs
add_kept name (v ∷ vs) hs =
    add_kept name vs (if str_eq v "[REDACTED]" then hs else add_header name v hs)

abbrev pub or_error : {A : Type 0} → Error → Option A → Result Error A
or_error e none = err e
or_error e (some x) = ok x

module _ (tools : Tools) (target : Option Url) (cfg : ReplayConfig) where
  -- The body of a call, with the check of its fingerprint.
  unfoldable pub body_of : ℕ → Event → Result Error (Option String)
  body_of i e =
      if is_empty_text e.body_b64
      then ok none
      else (or_error (bad_body i) (tools.decode e.body_b64) >>= λ body.
          (reject_if
              (not (is_empty_text e.body_sha256) && not (str_eq (tools.hash body) e.body_sha256))
              (bad_hash i)
            >> ok (some body)))

  unfoldable pub kept_headers : Values → Values → Values
  unfolding add_kept equal_fold
  kept_headers [] hs = hs
  kept_headers ((k, vs) ∷ rest) hs = kept_headers rest (
      if equal_fold k "Authorization" || equal_fold k "Cookie"
      then hs
      else add_kept (tools.canonical k) vs hs)

  -- The headers of a call; a gRPC call gets its content type.
  unfoldable pub call_headers : Event → Values
  unfolding kept_headers put
  call_headers e =
      if is_empty_text e.grpc_service_method
      then kept_headers e.headers []
      else put "Content-Type" ("application/grpc" ∷ []) (kept_headers e.headers [])

  -- `executeOutboundCall` up to the sending.
  unfoldable pub outbound_request : ℕ → Event → Result Error Request
  unfolding body_of call_headers is_side_effect
  outbound_request i e = do
    reject_if (not cfg.allow_writes && is_side_effect e.method) (write_blocked i)
    body ← body_of i e
    base ← or_error (no_target i) target
    original ← or_error (bad_url i) (tools.parse_url e.url)
    url ← or_error (bad_request i) (
        tools.new_request e.method (record base {
          path = original.path;
          raw_path = original.raw_path;
          raw_query = original.raw_query;
        }))
    ok (record { method = e.method; url = url; headers = call_headers e; body = body })

  abbrev pub same_int : ℤ → ℤ → Bool
  same_int a b = not (ltb_ℤ a b) && not (ltb_ℤ b a)

  -- What the answer to a call means: a gRPC call may fail, unless the log has a status and is strict.
  unfoldable pub judge_answer : ℕ → Event → Option ℤ → Result Error (Unit {0})
  judge_answer i e none =
      if is_empty_text e.grpc_service_method
      then err (request_failed i)
      else reject_if (cfg.strict && ltb_ℤ (pos 0) e.status) (no_answer i)
  judge_answer i e (some status) =
      reject_if (cfg.strict && (ltb_ℤ (pos 0) e.status && not (same_int e.status status)))
        (status_mismatch i)

  abbrev pub known_types : List String
  known_types = "InboundRequest" ∷ "InboundResponse" ∷ "OutboundCall" ∷ "Timeout" ∷ "Retry" ∷ []

  -- `applyEvent`
  unfoldable pub apply_event : ℕ → Event → Result Error (Unit {0})
  unfolding member
  apply_event i e = reject_if (not (member e.kind known_types) && cfg.strict) (unknown_type i)

  abbrev pub is_call : Event → Bool
  is_call e = str_eq e.kind "OutboundCall" && not (str_eq e.method "CONNECT")

  -- The end of `Replay`, with the numbers of calls that were expected and observed.
  abbrev pub finish : ℕ → ℕ → Result Error (Unit {0})
  finish expected observed =
      reject_if (ltb 0 expected && observed == 0) (coverage_mismatch expected observed)

  -- `executeOutboundCall` or `applyEvent`: the request that is sent, and the result
  unfoldable pub handle : ℕ → Event → List Request × Result Error (Unit {0})
  unfolding outbound_request judge_answer apply_event
  handle i e =
      if is_call e
      then elim (outbound_request i e) [
        | err x ↦ ([], err x)
        | ok req ↦ (req ∷ [], judge_answer i e (tools.send i req))
      ]
      else ([], apply_event i e)

  -- The loop of `Replay`, with the time of the event before and the calls expected and observed: the
  -- requests that are sent, and the result.
  unfoldable pub replay_from : ℕ → ℕ → ℕ → ℕ → List Event → List Request × Result Error (Unit {0})
  unfolding handle
  replay_from i last expected observed [] = ([], finish expected observed)
  replay_from i last expected observed (e ∷ es) =
      let calls = if is_call e then 1 else 0 in
      let rest = replay_from (i + 1) e.timestamp (expected + calls) (observed + calls) es in
      if ltb 0 last && ltb e.timestamp last
      then ([], err (moved_backwards i))
      else elim (handle i e).1 [
        | err x ↦ ((handle i e).0, err x)
        | ok u ↦ ((handle i e).0 ++ rest.0, rest.1)
      ]

  -- `Replay`
  unfoldable pub replay : List Event → List Request × Result Error (Unit {0})
  unfolding replay_from
  replay events = replay_from 0 0 0 0 events
