-- ===== src/Driver/SafeMode.antt =====
-- pkg/replaydriver/replay.go: what `ReplayEvents` sends in safe mode.
use inferno_sim.Prelude.{
  ℕ, String, ◌≡◌, inl, inr, Bool, true, false, not, ◌&&◌, Option, none, some, List, [], ◌∷◌, arith,
  ltb, Bool-cases, Option-cases,
}
use inferno_sim.Prelude.Lists.{length, is_empty, All, All-append}
use inferno_sim.Prelude.Int.{pos, ltb_ℤ}
use inferno_sim.Prelude.Result.{Result}
use inferno_sim.Prelude.Dict.{Dict}
use inferno_sim.EventLog.{Event}
use inferno_sim.Driver.{is_side_effect, safe_mode_allowed}
use inferno_sim.Driver.State.{ConsumedValue, all_consumers}
use inferno_sim.Driver.Replay.{
  after_failure, after_answer, sending, body_limit, progress, receive, send, replay_events,
  first_run, limited,
}
use inferno_sim.Driver.Exchange.{
  Url, Request, Response, Tools, Clock, ReplayConfig, Error, ReplayResult, Run,
}
use inferno_sim.Driver.Rounds.{Comes, replay_one-Comes, replay_from-Comes}

-- A request that changes nothing, or whose path the configuration allows.
abbrev pub is_safe : ReplayConfig → Request → Bool
is_safe cfg r =
    not (is_side_effect r.method && not (safe_mode_allowed r.url.path cfg.safe_mode_allow))

abbrev pub AreSafe : ReplayConfig → Run → Type 0
AreSafe cfg run = All (λ r. is_safe cfg r ≡ true) run.sent

module _ (tools : Tools) (clock : Clock) (client : ℕ → Request → Option Response)
    (target_base : String) (cfg : ReplayConfig) (total : ℕ) (consumed : List ConsumedValue) where
  abbrev Ends : Result Error ReplayResult → Run → Type 0
  Ends r run = AreSafe cfg run

  progress-safe :
      (i : ℕ) (run : Run)
      → AreSafe cfg run
      → Comes Ends (AreSafe cfg) (progress tools clock client target_base cfg total consumed i run)
  progress-safe i run h =
      elim (Bool-cases (ltb_ℤ (pos 0) cfg.max_wall_clock && clock.is_late_after i)) [
        | inl e ↦ rw e h
        | inr e ↦ rw e h
      ]

  receive-safe :
      (i : ℕ) (e : Event) (parsed : Url) (req : Request) (run : Run) (answer : Option Response)
      → AreSafe cfg run
      → Comes Ends
          (AreSafe cfg)
          (receive tools clock client target_base cfg total consumed i e parsed req run answer)
  unfolding receive
  receive-safe i e parsed req run none h =
      progress-safe i (after_failure tools clock client target_base cfg total consumed e parsed run)
        h
  receive-safe i e parsed req run (some resp) h = elim (Option-cases resp.body) [
    | inl n ↦ rw n h
    | inr (body, b) ↦ elim (Bool-cases (ltb body_limit (tools.size body))) [
      | inl large ↦ rw (b, large) h
      | inr fits ↦
          rw (b, fits)
            (progress-safe i
              (after_answer tools clock client target_base cfg total consumed i e parsed req run
                resp body)
              (unfold after_answer in h))
    ]
  ]

  send-safe :
      (i : ℕ) (e : Event) (parsed : Url) (req : Request) (run : Run)
      → cfg.safe_mode ≡ true
      → AreSafe cfg run
      → Comes Ends
          (AreSafe cfg)
          (send tools clock client target_base cfg total consumed i e parsed req run)
  unfolding send
  send-safe i e parsed req run safe h =
      elim (Bool-cases (
        cfg.safe_mode
        && (is_side_effect req.method
            && not (safe_mode_allowed req.url.path cfg.safe_mode_allow)))) [
              | inl a ↦ rw a h
              | inr a ↦
                  let one : is_safe cfg req ≡ true =
                    not_both cfg.safe_mode
                      (is_side_effect req.method
                        && not (safe_mode_allowed req.url.path cfg.safe_mode_allow))
                      safe a in
                  rw a (
                    receive-safe i e parsed req (sending req run) (client i req)
                      (All-append (λ r. is_safe cfg r ≡ true) run.sent (req ∷ []) h (one, tt)))
            ]
    where
      not_both : (x y : Bool) → x ≡ true → (x && y) ≡ false → not y ≡ true
      not_both x y p q = ground arith

-- In safe mode no request is sent that changes the target's state by its method, unless its path, after
-- the rewriting, is allowed: not in a replay that ends, and not in one that fails or stops on the way.
pub replay_events-safe :
    (tools : Tools) (clock : Clock) (client : ℕ → Request → Option Response) (events : List Event)
    (target_base : String) (cfg : ReplayConfig) (values : Dict String)
    → cfg.safe_mode ≡ true
    → All
        (λ r. is_safe cfg r ≡ true)
        (replay_events tools clock client events target_base cfg values).1.sent
unfolding replay_events
replay_events-safe tools clock client events target_base cfg values safe =
    elim (Bool-cases (not cfg.scale_positive)) [
      | inl a ↦ rw a tt
      | inr a ↦ elim (Bool-cases (not cfg.density_positive)) [
        | inl b ↦ rw (a, b) tt
        | inr b ↦ elim (Bool-cases (is_empty (limited cfg events))) [
          | inl c ↦ rw (a, b, c) tt
          | inr c ↦
              rw (a, b, c)
                (replay_from-Comes tools clock client target_base cfg (length (limited cfg events))
                  (all_consumers (limited cfg events)) (λ i run. AreSafe cfg run)
                  (λ r run. AreSafe cfg run)
                  (λ i e run l h.
                    replay_one-Comes tools clock client target_base cfg
                      (length (limited cfg events)) (all_consumers (limited cfg events))
                      (λ j q. AreSafe cfg q) (λ r q. AreSafe cfg q) i e run (λ x. h) h h
                      (λ parsed req.
                        send-safe tools clock client target_base cfg (length (limited cfg events))
                          (all_consumers (limited cfg events)) i e parsed req run safe h))
                  (λ run h. h) (limited cfg events) 0 (first_run values) (omega arith) tt)
        ]
      ]
    ]
