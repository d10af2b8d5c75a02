-- ===== src/Driver/Verification.antt =====
-- pkg/replaydriver/verify.go: the safety assessment of an incident. An issue keeps what its detail is
-- printed from.
use inferno_sim.Prelude.{
  ℕ, ◌+◌, ◌-◌, ◌*◌, ◌%◌, String, Bool, true, false, ◌&&◌, Option, none, some, List, [], ◌∷◌, ◌++◌,
  str_eq, ltb, ◌==◌, if◌then◌else◌,
}
use inferno_sim.Prelude.Lists.{any, count_if}
use Prim.Native.String
use Prim.Native.String.{len}
use inferno_sim.EventLog.{Event}
use inferno_sim.Driver.{
  is_side_effect, captured_response_headers, captured_response_body, load_inbound_events,
}
use inferno_sim.Driver.State.{
  Reader, same_kind, ProducedValue, ConsumedValue, extract_response_values, identify_consumers,
  bearer_token, split,
}

-- What is taken from encoding/base64 and encoding/json: the two URL encodings, and the `exp` claim of
-- a JSON object as a time in nanoseconds.
pub record TokenReader : Type 0 where
  pub decode_padded : String → Option String
  pub decode_raw : String → Option String
  pub exp_claim : String → Option ℕ

pub data Issue : Type 0 where
  side_effect : ℕ → String → Issue
  missing_dep : ℕ → String → Issue
  expired_token : ℕ → ℕ → Issue

abbrev pub is_side_effect_issue : Issue → Bool
is_side_effect_issue (side_effect i m) = true
is_side_effect_issue _ = false

abbrev pub is_missing_dep : Issue → Bool
is_missing_dep (missing_dep i n) = true
is_missing_dep _ = false

abbrev pub is_expired_token : Issue → Bool
is_expired_token (expired_token i t) = true
is_expired_token _ = false

pub record VerifyResult : Type 0 where
  pub readiness_score : ℕ
  pub unsafe_requests : ℕ
  pub missing_deps : ℕ
  pub expired_tokens : ℕ
  pub issues : List Issue

abbrev pub padding : ℕ → String
padding n = if n == 2 then "==" else if n == 3 then "=" else ""

module _ (tokens : TokenReader) where
  abbrev pub claims_of : String → Option String
  claims_of payload =
      elim (tokens.decode_padded (String.◌++◌ payload (padding (len payload % 4)))) [
        | some data' ↦ some data'
        | none ↦ tokens.decode_raw payload
      ]

  -- The three parts of a token; the second one holds the claims.
  abbrev pub expiry_of_parts : List String → Option ℕ
  expiry_of_parts (head ∷ payload ∷ mac ∷ []) = elim (claims_of payload) [
    | none ↦ none
    | some claims ↦ tokens.exp_claim claims
  ]
  expiry_of_parts _ = none

  -- `jwtExpiry`
  unfoldable pub jwt_expiry : String → Option ℕ
  unfolding split
  jwt_expiry token = expiry_of_parts (split b'.' token)

  unfoldable pub expired_issues : ℕ → Event → List Issue
  unfolding bearer_token jwt_expiry
  expired_issues i e = elim (bearer_token e) [
    | none ↦ []
    | some token ↦ elim (jwt_expiry token) [
      | none ↦ []
      | some exp ↦ if ltb exp e.timestamp then expired_token i exp ∷ [] else []
    ]
  ]

-- The set `producedValues` holds such a value.
unfoldable pub is_produced : List ProducedValue → ConsumedValue → Bool
is_produced known c = any (λ p. same_kind p.kind c.kind && str_eq p.value c.value) known

unfoldable pub missing_issues : ℕ → List ProducedValue → List ConsumedValue → List Issue
unfolding is_produced
missing_issues i known [] = []
missing_issues i known (c ∷ cs) =
    (if is_produced known c then [] else missing_dep i c.name ∷ []) ++ missing_issues i known cs

-- The values that the captured response of an event produces.
unfoldable pub produced_by : Reader → Event → List ProducedValue
unfolding extract_response_values
produced_by reader e = elim (captured_response_body reader.decode e) [
  | none ↦ []
  | some body ↦ extract_response_values reader (captured_response_headers e) body
]

module _ (reader : Reader) (tokens : TokenReader) where
  -- The loop of `VerifyIncident`, with the values produced so far.
  unfoldable pub issues_from : ℕ → List ProducedValue → List Event → List Issue
  unfolding is_side_effect identify_consumers missing_issues expired_issues produced_by
  issues_from i known [] = []
  issues_from i known (e ∷ es) =
      (if is_side_effect e.method then side_effect i e.method ∷ [] else [])
      ++ missing_issues i known (identify_consumers e)
      ++ expired_issues tokens i e
      ++ issues_from (i + 1) (known ++ produced_by reader e) es

  -- `VerifyIncident` on the events that it loads; the score does not go below zero.
  unfoldable pub verify_events : List Event → VerifyResult
  unfolding issues_from
  verify_events es =
      let issues = issues_from 1 [] es in
      let unsafe = count_if is_side_effect_issue issues in
      let missing = count_if is_missing_dep issues in
      let expired = count_if is_expired_token issues in
      record {
        readiness_score = 100 - (unsafe * 10 + missing * 15 + expired * 20);
        unsafe_requests = unsafe;
        missing_deps = missing;
        expired_tokens = expired;
        issues = issues;
      }

  unfoldable pub verify_incident : List (Option Event) → Option VerifyResult
  unfolding verify_events load_inbound_events
  verify_incident entries = elim (load_inbound_events entries) [
    | none ↦ none
    | some es ↦ some (verify_events es)
  ]
