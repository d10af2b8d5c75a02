-- ===== src/Driver/Rounds.antt =====
-- pkg/replaydriver/replay.go: induction along the rounds of `ReplayEvents`.
use inferno_sim.Prelude.{
  subst, ℕ, ◌+◌, ◌≤◌, String, ◌≡◌, refl, inl, inr, ◌&&◌, Option, List, [], ◌∷◌, arith, Bool-cases,
}
use inferno_sim.Prelude.Lists.{length}
use inferno_sim.Prelude.Int.{pos, ltb_ℤ}
use inferno_sim.Prelude.Result.{Result, ok, err, Result-cases}
use inferno_sim.EventLog.{Event}
use inferno_sim.Driver.State.{ConsumedValue}
use inferno_sim.Driver.Replay.{early, last_result, send, prepare, replay_one, replay_from}
use inferno_sim.Driver.Exchange.{
  Url, Request, Response, Tools, Clock, ReplayConfig, Error, ReplayResult, Run, Progress, returned,
  going, stalled, late_before,
}

-- What a round comes to: the loop returns as `Post` says, or goes on as `Inv` says of the next index.
abbrev pub Comes : (Result Error ReplayResult → Run → Type 0) → (Run → Type 0) → Progress → Type 0
Comes Post Next (returned r run) = Post r run
Comes Post Next (going run) = Next run

module _ (tools : Tools) (clock : Clock) (client : ℕ → Request → Option Response)
    (target_base : String) (cfg : ReplayConfig) (total : ℕ) (consumed : List ConsumedValue)
    (Inv : ℕ → Run → Type 0) (Post : Result Error ReplayResult → Run → Type 0) where
  -- A round, from what holds where it returns early, skips, and has an answer or none.
  pub replay_one-Comes :
      (i : ℕ) (e : Event) (run : Run)
      → ((x : Error) → Post (err x) run)
      → Post (ok (early run i total stalled)) run
      → Post (ok (early run i total late_before)) run
      → ((parsed : Url) (req : Request)
          → Comes Post
              (Inv (i + 1))
              (send tools clock client target_base cfg total consumed i e parsed req run))
      → Comes Post
          (Inv (i + 1))
          (replay_one tools clock client target_base cfg total consumed i e run)
  unfolding replay_one
  replay_one-Comes i e run failing idle late sending =
      elim (Bool-cases (ltb_ℤ (pos 0) cfg.max_idle_time && clock.is_idle i)) [
        | inl a ↦ rw a idle
        | inr a ↦ elim (Bool-cases (ltb_ℤ (pos 0) cfg.max_wall_clock && clock.is_late i)) [
          | inl b ↦ rw (a, b) late
          | inr b ↦
              elim (Result-cases
                (prepare tools clock client target_base cfg total consumed i e run.values)) [
                  | inl ((parsed, req), c) ↦ rw (a, b, c) (sending parsed req)
                  | inr (x, c) ↦ rw (a, b, c) (failing x)
                ]
        ]
      ]

  -- The loop, from what holds of its rounds and of its end.
  pub replay_from-Comes :
      ((i : ℕ) (e : Event) (run : Run)
        → i + 1 ≤ total
        → Inv i run
        → Comes Post
            (Inv (i + 1))
            (replay_one tools clock client target_base cfg total consumed i e run))
      → ((run : Run) → Inv total run → Post (ok (last_result run total)) run)
      → (es : List Event) (i : ℕ) (run : Run) → i + length es ≡ total
      → Inv i run
      → let out = replay_from tools clock client target_base cfg total consumed i es run in
        Post out.0 out.1
  unfolding replay_from
  replay_from-Comes round done [] i run n h = done run (subst (λ k. Inv k run) (omega (arith, n)) h)
  replay_from-Comes round done (e ∷ es) i run n h =
      after (replay_one tools clock client target_base cfg total consumed i e run) refl
        (round i e run (omega (arith, n)) h)
        (λ now m c. replay_from-Comes round done es (i + 1) now m c)
    where
      after :
          (p : Progress)
          → replay_one tools clock client target_base cfg total consumed i e run ≡ p
          → Comes Post (Inv (i + 1)) p
          → ((now : Run)
              → i + 1 + length es ≡ total
              → Inv (i + 1) now
              → let out =
                  replay_from tools clock client target_base cfg total consumed (i + 1) es now in
                Post out.0 out.1)
          → let out =
              replay_from tools clock client target_base cfg total consumed i (e ∷ es) run in
            Post out.0 out.1
      after (returned r now) q c rest = rw (q, replay_from) c
      after (going now) q c rest = rw (q, replay_from) (rest now (omega (arith, n)) c)
