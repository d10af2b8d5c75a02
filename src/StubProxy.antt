-- ===== src/StubProxy.antt =====
-- pkg/stubproxy/stubproxy.go: the proxy that answers a service's outbound calls from the captured
-- events and the scenarios. `serve` is `ServeHTTP` up to the response that the client gets: waits and
-- the log of observed calls are left out, and a `CONNECT` that is allowed ends in a tunnel, whose
-- requests are served as `serve` does. `serve_transparent` is `handleTransparent`, which
-- runs side by side with itself. Go's map of use
-- counts is a function.
use inferno_sim.Prelude.{
  subst, ℕ, zero, suc, ◌+◌, ◌-◌, ◌*◌, ◌/◌, ◌%◌, ◌^◌, ◌≤◌, ◌<◌, min, max, String, ◌≡◌, refl, sym, ap,
  ◌∙◌, ◌≢◌, ◌↔◌, ◌⊎◌, inl, inr, Bool, true, false, not, ◌&&◌, ◌||◌, Option, none, some, List, [],
  ◌∷◌, ◌++◌, map, reverse, arith, str_eq, eq_iff, eq_refl, ltb, leb, ◌==◌, if◌then◌else◌, ltb→lt,
  lt→ltb, leb→le, ==_iff, Bool-cases, Option-cases,
}
use inferno_sim.Prelude.Lists.{
  length, get_elem?, set, take, drop, any, is_empty, count_if, length-append, take-append-drop,
  length-take, length-drop, take_all, drop_all, All, All-append, All-get_elem?, length-map,
  All_mono, All_of_places,
}
use inferno_sim.Prelude.Int.{ℤ, pos, negsuc, pos_part, neg_part, ltb_ℤ, ◌≤ℤ◌}
use inferno_sim.Prelude.Result.{
  Result, ok, err, ◌>>=◌, ◌>>◌, reject_if, >>=-eq-ok, reject_if-ok, guarded-ok, Result-cases,
}
use inferno_sim.Prelude.Text.{
  equal_fold, trim_space, is_blank, is_empty_text, equal_fold_refl, equal_fold_sym,
  equal_fold_trans, equal_fold_congr, str_eq-true, str_eq-false,
}
use inferno_sim.Prelude.Dict.{
  Dict, lookup, put, lookup-put, has_key, member, Distinct, not-member-cons, member-cons_parts,
  place_of_name,
}
use Prim.Native.Char.{code}
use Prim.Native.String
use inferno_sim.Prelude.Text.{codes, reverse_onto}
use inferno_sim.Matcher.Externals.{Library, Values}
use inferno_sim.Matcher.{request_host, match as match_captured}
use inferno_sim.Matcher.Comparing.{first_value}
use inferno_sim.Matcher.Rules.{Matcher, Request, Captured}
use inferno_sim.Scenario.{Answer, Engine, match as match_scenarios, reset as reset_scenarios}
use inferno_sim.Inject.{Rule, match as rule_of}
use inferno_sim.StubProxy.Response.{
  Backend, Reply, Error as BodyError, header_template, trailer_template, is_grpc_request,
  normalize_grpc_status, add_value, write_chunks, render_header, render_scenario_body,
}
pub mod Response
pub mod State
pub mod Cardinality
pub mod Matching
pub mod Resetting
pub mod Transparent
use inferno_sim.StubProxy.State.{
  Divergence, Event, Failure, Outcome, Proxy, bad_body, bad_scenario, bump, captured_body,
  captured_error, configure_replay_cardinality, count_of, diverge, failed, has_colon,
  host_not_allowed, injected_retry, injected_timeout, multiplier_for, new, no_capture,
  no_captured_call, no_https, replied, reset, too_large, too_many, tunnel, unexpected_call,
}

-- The headers of a scenario's response, with its name and the content type of gRPC.
unfoldable pub typed_headers : Answer → Values → Values
typed_headers a headers =
    let named = put "X-Inferno-Scenario" (a.scenario ∷ []) headers in
    let is_protobuf =
      not (is_empty_text a.response.protobuf_json) || not (is_empty a.response.protobuf_stream) in
    if is_protobuf && is_empty_text (first_value "Content-Type" named)
    then put "Content-Type" ("application/grpc" ∷ []) named
    else named

-- The status of the gRPC call that a scenario answers.
unfoldable pub grpc_code : Answer → Request → String
unfolding is_grpc_request normalize_grpc_status
grpc_code a req =
    let status = a.response.grpc_status in
    let given = if is_grpc_request req && is_empty_text status then "0" else status in
    if is_empty_text given then given else normalize_grpc_status given

abbrev pub is_bracket : ℕ → Bool
is_bracket c = c == b'[' || c == b']'

unfoldable pub trim_left_brackets : String → String
trim_left_brackets String.[] = ""
trim_left_brackets (String.◌∷◌ c s) =
    if is_bracket (code c) then trim_left_brackets s else String.◌∷◌ c s

-- strings.Trim(s, "[]")
unfoldable pub trim_brackets : String → String
unfolding trim_left_brackets
trim_brackets s = reverse_onto "" (trim_left_brackets (reverse_onto "" (trim_left_brackets s)))

module _ (lib : Library) where
  -- `depKeyFromHost`: a host that does not split stays as it is.
  abbrev pub dep_key_from_host : String → String
  dep_key_from_host host =
      if has_colon host then elim (lib.split_host_port host) [ none ↦ host | some h ↦ h ] else host

  -- `depKey`
  unfoldable pub dep_key : Request → String
  dep_key req = dep_key_from_host (request_host req)

  abbrev pub is_match : Matcher → Event → Request → String → Bool
  is_match m e req body = elim (match_captured lib m e.captured req body) [
    | ok _ ↦ true
    | err _ ↦ false
  ]

  -- The loop of `matchExpected` from an index on: the first event that matches and is not used up.
  unfoldable pub find_expected : Proxy → ℕ → List Event → Request → String → Option (ℕ × Event)
  find_expected p n [] req body = none
  find_expected p n (e ∷ es) req body =
      if is_match p.matcher e req body && ltb (p.use_counts n) p.match_multiplier
      then some (n, e)
      else find_expected p (n + 1) es req body

  -- `matchExpected`, with the proxy after it
  unfoldable pub match_expected : Proxy → Request → String → Option (Event × Proxy)
  unfolding find_expected
  match_expected p req body = elim (find_expected p 0 p.events req body) [
    | none ↦ none
    | some (n, e) ↦ some (e, record p { use_counts = bump p.use_counts n })
  ]

  -- The captured outcome, when no fault is injected.
  unfoldable pub replay_captured : Event → Request → Outcome
  unfolding is_grpc_request write_chunks
  replay_captured e req =
      if e.status == 0 then failed 502 captured_error else elim (lib.decode e.response_body_b64) [
        | none ↦ failed 502 captured_body
        | some body ↦
            let grpc_status =
              if is_grpc_request req && is_empty_text e.grpc_status then "0" else e.grpc_status in
            replied (
              write_chunks e.status e.response_headers e.response_trailers grpc_status (body ∷ [])
                0)
      ]

  -- The faults of the dependency's rule, at the given attempt.
  unfoldable pub inject : Option Rule → ℕ → Event → Request → Outcome
  unfolding replay_captured
  inject none attempt e req = replay_captured e req
  inject (some rule) attempt e req =
      if ltb_ℤ (pos 0) rule.timeout
      then failed 504 injected_timeout
      else if not (ltb_ℤ rule.retry_limit (pos 0)) && not (ltb_ℤ rule.retry_limit (pos attempt))
      then failed 502 injected_retry
      else replay_captured e req

  -- `ServeHTTP` where a captured event is expected.
  unfoldable pub serve_captured : Proxy → Request → String → Proxy × Outcome
  unfolding match_expected dep_key inject rule_of
  serve_captured p req body = elim (match_expected p req body) [
    | none ↦ (diverge p (no_captured_call (p.seen - 1) req), failed 502 unexpected_call)
    | some (e, q) ↦
        let dep = dep_key req in
        let attempt = count_of dep q.attempts + 1 in
        (
          record q { attempts = put dep attempt q.attempts },
          inject (rule_of dep q.rules) attempt e req,
        )
  ]

  module _ (b : Backend) where
    -- The response of a scenario that has matched, or the error of its templates.
    unfoldable pub render_answer : Answer → Request → String → Result BodyError Reply
    unfolding render_header render_scenario_body grpc_code typed_headers write_chunks
    render_answer a req body = do
      headers ← render_header lib b header_template a.response.headers req body []
      trailers ← render_header lib b trailer_template a.response.trailers req body []
      chunks ← render_scenario_body lib b a.response req body
      let delay =
          if is_empty_text a.response.stream_message_delay
          then 0
          else b.delay a.response.stream_message_delay
      ok (
          write_chunks (pos_part a.response.status) (typed_headers a headers) trailers
            (grpc_code a req) chunks delay)

    abbrev pub scenario_reply : Answer → Request → String → Outcome
    scenario_reply a req body = elim (render_answer a req body) [
      | err e ↦ failed 502 (bad_scenario e)
      | ok r ↦ replied r
    ]

    -- `ServeHTTP` once the request is counted.
    unfoldable pub serve_counted : Proxy → Request → String → Proxy × Outcome
    unfolding match_scenarios render_answer serve_captured
    serve_counted p req body =
        if ltb 0 p.max_seen && ltb p.max_seen p.seen
        then (diverge p (too_many (p.seen - 1)), failed 502 unexpected_call)
        else let (scenarios, answer) = match_scenarios lib p.scenarios req body in
          let q = record p { scenarios = scenarios } in
          elim answer [
            | some a ↦ (q, scenario_reply a req body)
            | none ↦
                if is_empty q.events then (q, failed 502 no_capture) else serve_captured q req body
          ]

    -- `serveTLSConnect` up to the tunnel.
    unfoldable pub serve_connect : Proxy → Request → Outcome
    serve_connect p req = elim p.tls_hosts [
      | none ↦ failed 501 no_https
      | some allowed ↦
          if allowed (trim_brackets (lib.strip_port req.host))
          then tunnel req.host
          else failed 403 host_not_allowed
    ]

    -- `ServeHTTP`. The body is `none` where it cannot be read.
    unfoldable pub serve : Proxy → Request → Option String → Proxy × Outcome
    unfolding serve_connect serve_counted
    serve p req body = if str_eq req.method "CONNECT" then (p, serve_connect p req) else elim body [
      | none ↦ (p, failed 400 bad_body)
      | some s ↦
          if ltb 16777216 (String.count s)
          then (p, failed 413 too_large)
          else serve_counted (record p { seen = p.seen + 1 }) req s
    ]

    -- A run: requests one after the other, and their outcomes.
    unfoldable pub serve_all : Proxy → List (Request × Option String) → Proxy × List Outcome
    unfolding serve
    serve_all p [] = (p, [])
    serve_all p ((req, body) ∷ rs) =
        let (q, o) = serve p req body in let (end', os) = serve_all q rs in (end', o ∷ os)

module _ (lib : Library) where
  -- The faults of a rule, with the attempts after it, and else the captured status.
  unfoldable pub answer_transparent : Option Rule → String → Event → Dict ℕ → Dict ℕ × ℕ
  answer_transparent none dep e attempts = (attempts, if e.status == 0 then 502 else e.status)
  answer_transparent (some rule) dep e attempts =
      let attempt = count_of dep attempts + 1 in
      let status = if e.status == 0 then 502 else e.status in
      if ltb_ℤ (pos 0) rule.timeout
      then (attempts, 504)
      else if not (ltb_ℤ rule.retry_limit (pos 0))
      then (
        put dep attempt attempts,
        if not (ltb_ℤ rule.retry_limit (pos attempt)) then 502 else status,
      )
      else (attempts, status)

  -- `handleTransparent` once the address is known. Connections are served side by side: `idx` is the
  -- event's index as this connection has loaded it, and other connections may have moved it on
  -- before this one counts. The request is `none` where it cannot be read, and else the host that it
  -- names; there is a status where a response is sent.
  unfoldable pub serve_transparent : Proxy → ℕ → Option String → String → Proxy × Option ℕ
  unfolding answer_transparent rule_of
  serve_transparent p idx none address = (p, none)
  serve_transparent p idx (some host) address =
      let q = record p { seen = p.seen + 1 } in
      elim (get_elem? p.events idx) [
        | none ↦ (diverge q (too_many idx), some 502)
        | some e ↦
            let dep = if is_empty_text host then address else host in
            let answer =
              answer_transparent (rule_of (dep_key_from_host lib dep) p.rules) dep e p.attempts in
            (record q { i = p.i + 1; attempts = answer.0 }, some answer.1)
      ]
