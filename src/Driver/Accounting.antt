-- ===== src/Driver/Accounting.antt =====
-- pkg/replaydriver/replay.go: the counts of a replay.
use inferno_sim.Prelude.{
  ℕ, ◌+◌, ◌≤◌, String, ◌≡◌, refl, sym, inl, inr, not, ◌&&◌, Option, none, some, List, [], ◌∷◌,
  arith, ltb, Bool-cases, Option-cases,
}
use inferno_sim.Prelude.Lists.{length, is_empty, length-append}
use inferno_sim.Prelude.Int.{pos, ltb_ℤ}
use inferno_sim.Prelude.Result.{Result, ok, err}
use inferno_sim.Prelude.Dict.{Dict}
use inferno_sim.EventLog.{Event}
use inferno_sim.Driver.{is_side_effect, safe_mode_allowed}
use inferno_sim.Driver.State.{ConsumedValue, all_consumers}
use inferno_sim.Driver.Replay.{
  after_failure, after_answer, sending, early, last_result, body_limit, progress, receive, send,
  replay_one, replay_events, first_run, limited,
}
use inferno_sim.Driver.Exchange.{
  Url, Request, Response, Tools, Clock, ReplayConfig, Error, ReplayResult, Run, Ending, finished,
  stalled, late_before, late_after,
}
use inferno_sim.Driver.Rounds.{Comes, replay_one-Comes, replay_from-Comes}

-- At an index every request before it is skipped or has a signature; a signature is an error's or of a
-- replayed event; and a request that is sent has a signature.
pub record IsCounted (i : ℕ) (run : Run) : Type 0 where
  pub settled : length run.signatures + run.skipped ≡ i
  pub outcomes : length run.replayed + run.error_count ≡ length run.signatures
  pub progress : run.last_progress ≡ i
  pub sent : length run.sent ≡ length run.signatures

-- A replay that runs to its end counts the requests that it did not skip, and gives their signatures;
-- one that is cut off counts all requests before that.
abbrev pub Completes : Ending → ReplayResult → Type 0
Completes finished r =
    (r.completed + r.skipped ≡ r.total)
    × (length r.signatures ≡ r.completed)
    × (length r.replayed + r.error_count ≡ r.completed)
    × (r.last_progress ≡ r.total)
Completes _ r = r.completed ≡ r.last_progress

-- What a result tells of the requests that were sent and skipped.
pub record IsTrue (r : ReplayResult) (run : Run) : Type 0 where
  pub settled : length r.signatures + run.skipped ≡ r.last_progress
  pub sent : length run.sent ≡ length r.signatures
  pub within : r.last_progress ≤ r.total
  pub ending : Completes r.ending r

abbrev pub Tells : Result Error ReplayResult → Run → Type 0
Tells (err x) run = Unit
Tells (ok r) run = IsTrue r run

-- A run that has been counted, before the request of an index below the number of requests.
abbrev IsOpen : ℕ → ℕ → Run → Type 0
IsOpen total i run = (i ≤ total) × IsCounted i run

done-IsTrue : (total : ℕ) (run : Run) → IsOpen total total run → IsTrue (last_result run total) run
done-IsTrue total run (l, c) = record {
  settled = omega (arith, c.settled, c.progress);
  sent = c.sent;
  within = omega (arith, c.progress);
  ending = (
    omega (arith, c.settled),
    omega (arith, c.settled),
    omega (arith, c.outcomes, c.settled),
    c.progress,
  );
}

cut-IsTrue :
    (total i : ℕ) (run : Run) (ending : Ending)
    → IsOpen total i run
    → Completes ending (early run i total ending)
    → IsTrue (early run i total ending) run
cut-IsTrue total i run ending (l, c) done = record {
  settled = omega (arith, c.settled, c.progress);
  sent = c.sent;
  within = omega (arith, c.progress, l);
  ending = done;
}

module _ (tools : Tools) (clock : Clock) (client : ℕ → Request → Option Response)
    (target_base : String) (cfg : ReplayConfig) (total : ℕ) (consumed : List ConsumedValue) where
  progress-counted :
      (i : ℕ) (run : Run)
      → i + 1 ≤ total
      → length run.signatures + run.skipped ≡ i + 1
      → length run.replayed + run.error_count ≡ length run.signatures
      → length run.sent ≡ length run.signatures
      → Comes Tells
          (IsOpen total (i + 1))
          (progress tools clock client target_base cfg total consumed i run)
  progress-counted i run l a b c =
      let now : Run = record run { last_progress = i + 1 } in
      let counted : IsCounted (i + 1) now = record {
        settled = a;
        outcomes = b;
        progress = refl;
        sent = c;
      } in
      elim (Bool-cases (ltb_ℤ (pos 0) cfg.max_wall_clock && clock.is_late_after i)) [
        | inl e ↦ rw e (cut-IsTrue total (i + 1) now late_after (l, counted) refl)
        | inr e ↦ rw e (l, counted)
      ]

  receive-counted :
      (i : ℕ) (e : Event) (parsed : Url) (req : Request) (run : Run) (answer : Option Response)
      → i + 1 ≤ total
      → IsCounted i run
      → Comes Tells (IsOpen total (i + 1)) (
          receive tools clock client target_base cfg total consumed i e parsed req
            (sending req run)
            answer)
  unfolding receive after_answer
  receive-counted i e parsed req run none l c =
      progress-counted i
        (after_failure tools clock client target_base cfg total consumed e parsed (sending req run))
        l (omega (arith, c.settled, length-append run.signatures (_ ∷ [])))
        (omega (arith, c.outcomes, length-append run.signatures (_ ∷ [])))
        (omega
          (arith, c.sent, length-append run.sent (req ∷ []), length-append run.signatures (_ ∷ [])))
  receive-counted i e parsed req run (some resp) l c = elim (Option-cases resp.body) [
    | inl n ↦ rw n tt
    | inr (body, b) ↦ elim (Bool-cases (ltb body_limit (tools.size body))) [
      | inl large ↦ rw (b, large) tt
      | inr fits ↦
          rw (b, fits)
            (progress-counted i
              (after_answer tools clock client target_base cfg total consumed i e parsed req
                (sending req run) resp body)
              l (omega (arith, c.settled, length-append run.signatures (_ ∷ [])))
              (omega (
                arith,
                c.outcomes,
                length-append run.replayed (_ ∷ []),
                length-append run.signatures (_ ∷ []),
              ))
              (omega (
                arith,
                c.sent,
                length-append run.sent (req ∷ []),
                length-append run.signatures (_ ∷ []),
              )))
    ]
  ]

  send-counted :
      (i : ℕ) (e : Event) (parsed : Url) (req : Request) (run : Run)
      → i + 1 ≤ total
      → IsCounted i run
      → Comes Tells
          (IsOpen total (i + 1))
          (send tools clock client target_base cfg total consumed i e parsed req run)
  unfolding send
  send-counted i e parsed req run l c =
      elim (Bool-cases (
        cfg.safe_mode
        && (is_side_effect req.method
            && not (safe_mode_allowed req.url.path cfg.safe_mode_allow)))) [
              | inl a ↦ rw a (
                l,
                record {
                  settled = omega (arith, c.settled);
                  outcomes = c.outcomes;
                  progress = refl;
                  sent = c.sent;
                },
              )
              | inr a ↦ rw a (receive-counted i e parsed req run (client i req) l c)
            ]

  replay_one-counted :
      (i : ℕ) (e : Event) (run : Run)
      → i + 1 ≤ total
      → IsOpen total i run
      → Comes Tells
          (IsOpen total (i + 1))
          (replay_one tools clock client target_base cfg total consumed i e run)
  replay_one-counted i e run l (below, c) =
      replay_one-Comes tools clock client target_base cfg total consumed (IsOpen total) Tells i e
        run (λ x. tt) (cut-IsTrue total i run stalled (below, c) (sym c.progress))
        (cut-IsTrue total i run late_before (below, c) (sym c.progress))
        (λ parsed req. send-counted i e parsed req run l c)

-- The counts of a replay are true: the requests up to the last progress are those with a signature and
-- those that were skipped, and as many were sent as have a signature. A replay that runs to its end
-- counts as completed what it did not skip, each with an error or a replayed event; one that is cut off
-- counts every request before that, the skipped ones included.
pub replay_events-IsTrue :
    (tools : Tools) (clock : Clock) (client : ℕ → Request → Option Response) (events : List Event)
    (target_base : String) (cfg : ReplayConfig) (values : Dict String)
    → let out = replay_events tools clock client events target_base cfg values in Tells out.0 out.1
unfolding replay_events
replay_events-IsTrue tools clock client events target_base cfg values =
    elim (Bool-cases (not cfg.scale_positive)) [
      | inl a ↦ rw a tt
      | inr a ↦ elim (Bool-cases (not cfg.density_positive)) [
        | inl b ↦ rw (a, b) tt
        | inr b ↦ elim (Bool-cases (is_empty (limited cfg events))) [
          | inl c ↦ rw (a, b, c) tt
          | inr c ↦
              rw (a, b, c)
                (let es = limited cfg events in
                  let total = length es in
                  let consumed = all_consumers es in
                  replay_from-Comes tools clock client target_base cfg total consumed (IsOpen total)
                    Tells (replay_one-counted tools clock client target_base cfg total consumed)
                    (λ run h. done-IsTrue total run h) es 0 (first_run values) (omega arith)
                    (
                      omega arith,
                      record { settled = refl; outcomes = refl; progress = refl; sent = refl },
                    ))
        ]
      ]
    ]
