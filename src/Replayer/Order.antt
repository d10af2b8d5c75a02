-- ===== src/Replayer/Order.antt =====
-- pkg/replay/replay.go: the checks of `Replay` on the order of the events and on the number of calls.
use inferno_sim.Prelude.{
  subst, ℕ, ◌+◌, ◌≤◌, ◌≡◌, refl, sym, inl, inr, Bool, true, false, not, ◌&&◌, Option, none, some,
  List, [], ◌∷◌, arith, str_eq, ltb, ◌==◌, if◌then◌else◌, Bool-cases,
}
use inferno_sim.Prelude.Lists.{is_empty}
use inferno_sim.Prelude.Int.{ℤ}
use inferno_sim.Prelude.Result.{
  Result, ok, err, ◌>>=◌, reject_if, >>=-eq-ok, guarded-ok, Result-cases,
}
use inferno_sim.Prelude.Text.{is_empty_text}
use inferno_sim.Prelude.Sort.{sort_stable, IsSorted, IsStrictWeak, sort_stable-IsSorted}
use inferno_sim.EventLog.{Event}
use inferno_sim.Driver.{event_less}
use inferno_sim.Driver.Exchange.{Url}
use inferno_sim.Replayer.{
  ReplayConfig, Request, Tools, Error, moved_backwards, coverage_mismatch, no_answer,
  status_mismatch, unknown_type, bad_body, bad_hash, write_blocked, no_target, bad_url, bad_request,
  or_error, body_of, handle, outbound_request, judge_answer, apply_event, is_call, finish,
  all_parsed, no_events, new_replayer, replay_from, replay,
}

event_less-asym : (a b : Event) → event_less a b ≡ true → event_less b a ≡ false
unfolding event_less
event_less-asym a b h = ground arith

event_less-not_trans :
    (a b c : Event) → event_less a b ≡ false → event_less b c ≡ false → event_less a c ≡ false
unfolding event_less
event_less-not_trans a b c h k = ground arith

event_less-time : (a b : Event) → event_less a b ≡ false → b.timestamp ≤ a.timestamp
unfolding event_less
event_less-time a b h = ground arith

is_strict_weak : IsStrictWeak event_less
is_strict_weak = record { asym = event_less-asym; not_trans = event_less-not_trans }

-- An error of the order of the events, or of the number of calls.
abbrev pub is_bookkeeping : Error → Bool
is_bookkeeping (moved_backwards i) = true
is_bookkeeping (coverage_mismatch n m) = true
is_bookkeeping _ = false

-- No such error.
abbrev pub is_quiet : {A : Type 0} → Result Error A → Bool
is_quiet (ok x) = true
is_quiet (err x) = not (is_bookkeeping x)

record IsQuiet {A : Type 0} (r : Result Error A) : Type 0 where
  quiet : is_quiet r ≡ true

>>=-IsQuiet :
    {A : Type 0} {B : Type 0} (first : Result Error A) (next : A → Result Error B)
    → IsQuiet first
    → ((x : A) → IsQuiet (next x))
    → IsQuiet (first >>= next)
>>=-IsQuiet (ok x) next h k = k x
>>=-IsQuiet (err e) next h k = record { quiet = h.quiet }

reject_if-IsQuiet : (b : Bool) (e : Error) → is_bookkeeping e ≡ false → IsQuiet (reject_if b e)
reject_if-IsQuiet true e h = record { quiet = rw h }
reject_if-IsQuiet false e h = record { quiet = refl }

or_error-IsQuiet :
    {A : Type 0} (o : Option A) (e : Error) → is_bookkeeping e ≡ false → IsQuiet (or_error e o)
or_error-IsQuiet none e h = record { quiet = rw h }
or_error-IsQuiet (some x) e h = record { quiet = refl }

-- No event is earlier than the time before the first.
abbrev InTime : ℕ → List Event → Type 0
InTime last [] = Unit
InTime last (e ∷ es) = (last ≤ e.timestamp) × InTime e.timestamp es

IsSorted-InTime :
    (e : Event) (es : List Event) → IsSorted event_less (e ∷ es) → InTime e.timestamp es
IsSorted-InTime e [] h = tt
IsSorted-InTime e (d ∷ es) ((first, later), h) = (event_less-time d e first, IsSorted-InTime d es h)

IsSorted-InTime_all : (es : List Event) → IsSorted event_less es → InTime 0 es
IsSorted-InTime_all [] h = tt
IsSorted-InTime_all (e ∷ es) h = (omega arith, IsSorted-InTime e es h)

not_both : (n : ℕ) → (ltb 0 n && n == 0) ≡ false
not_both n = ground arith

module _ (tools : Tools) (target : Option Url) (cfg : ReplayConfig) where
  finish-IsQuiet : (n : ℕ) → IsQuiet (finish tools target cfg n n)
  finish-IsQuiet n = record { quiet = rw (not_both n) }

  body_of-IsQuiet : (i : ℕ) (e : Event) → IsQuiet (body_of tools target cfg i e)
  unfolding body_of
  body_of-IsQuiet i e = elim (Bool-cases (is_empty_text e.body_b64)) [
    | inl a ↦ rw a (record { quiet = refl })
    | inr a ↦ rw a (
        >>=-IsQuiet (or_error (bad_body i) (tools.decode e.body_b64)) _
          (or_error-IsQuiet (tools.decode e.body_b64) (bad_body i) refl)
          (λ body.
            >>=-IsQuiet
              (reject_if
                (not (is_empty_text e.body_sha256) && not (str_eq (tools.hash body) e.body_sha256))
                (bad_hash i))
              (λ u. ok (some body)) (reject_if-IsQuiet _ (bad_hash i) refl)
              (λ u. record { quiet = refl })))
  ]

  outbound_request-IsQuiet : (i : ℕ) (e : Event) → IsQuiet (outbound_request tools target cfg i e)
  unfolding outbound_request
  outbound_request-IsQuiet i e =
      >>=-IsQuiet (reject_if _ (write_blocked i)) _ (reject_if-IsQuiet _ (write_blocked i) refl)
        (λ u. >>=-IsQuiet (body_of tools target cfg i e) _ (body_of-IsQuiet i e) (λ body.
          >>=-IsQuiet (or_error (no_target i) target) _ (or_error-IsQuiet target (no_target i) refl)
            (λ base.
              >>=-IsQuiet (or_error (bad_url i) (tools.parse_url e.url)) _
                (or_error-IsQuiet _ (bad_url i) refl)
                (λ original.
                  >>=-IsQuiet
                    (or_error (bad_request i) (
                      tools.new_request e.method (record base {
                        path = original.path;
                        raw_path = original.raw_path;
                        raw_query = original.raw_query;
                      })))
                    _ (or_error-IsQuiet _ (bad_request i) refl) (λ url. record { quiet = refl })))))

  judge_answer-IsQuiet :
      (i : ℕ) (e : Event) (answer : Option ℤ) → IsQuiet (judge_answer tools target cfg i e answer)
  unfolding judge_answer
  judge_answer-IsQuiet i e none = elim (Bool-cases (is_empty_text e.grpc_service_method)) [
    | inl a ↦ rw (a, judge_answer) (record { quiet = refl })
    | inr a ↦ rw (a, judge_answer) (reject_if-IsQuiet _ (no_answer i) refl)
  ]
  judge_answer-IsQuiet i e (some status) = reject_if-IsQuiet _ (status_mismatch i) refl

  handle-IsQuiet : (i : ℕ) (e : Event) → IsQuiet (handle tools target cfg i e).1
  unfolding handle apply_event
  handle-IsQuiet i e = elim (Bool-cases (is_call tools target cfg e)) [
    | inl a ↦ elim (Result-cases (outbound_request tools target cfg i e)) [
      | inl (req, b) ↦ rw (a, b) (judge_answer-IsQuiet i e (tools.send i req))
      | inr (x, b) ↦
          let failing : IsQuiet {A = Request} (err x) = rw b at (outbound_request-IsQuiet i e) in
          rw (a, b) (record { quiet = failing.quiet })
    ]
    | inr a ↦ rw a (reject_if-IsQuiet _ (unknown_type i) refl)
  ]

  replay_from-IsQuiet :
      (i last n : ℕ) (es : List Event)
      → InTime last es
      → IsQuiet (replay_from tools target cfg i last n n es).1
  unfolding replay_from
  replay_from-IsQuiet i last n [] h = finish-IsQuiet n
  replay_from-IsQuiet i last n (e ∷ es) (first, later) =
      let calls : ℕ = if is_call tools target cfg e then 1 else 0 in
      let rest = replay_from-IsQuiet (i + 1) e.timestamp (n + calls) es later in
      let here = handle-IsQuiet i e in
      let in_order : (ltb 0 last && ltb e.timestamp last) ≡ false = ground (arith, first) in
      elim (Result-cases (handle tools target cfg i e).1) [
        | inr (x, b) ↦ rw (in_order, b) (rw b at here)
        | inl (u, b) ↦ rw (in_order, b) rest
      ]

-- A replay of the events that the log gives never reports that time moved backwards, nor that calls
-- were expected and none observed: it sorts the events first, and a call that fails ends it before.
pub replay-quiet :
    (tools : Tools) (target : Option Url) (cfg : ReplayConfig) (entries : List (Option Event))
    (events : List Event)
    → new_replayer entries ≡ ok events
    → is_quiet (replay tools target cfg events).1 ≡ true
unfolding replay new_replayer
replay-quiet tools target cfg entries events h =
    let (read, _, h1) = >>=-eq-ok (all_parsed entries) _ h in
    let (_, sorted) = guarded-ok (is_empty read) no_events (sort_stable event_less read) h1 in
    (replay_from-IsQuiet tools target cfg 0 0 0 events (
      IsSorted-InTime_all events (
        subst (λ es. IsSorted event_less es) (sym sorted)
          (sort_stable-IsSorted event_less is_strict_weak read)))).quiet
