-- ===== src/Replayer/Writes.antt =====
-- pkg/replay/replay.go: what a replay sends without `--allow-writes`.
use inferno_sim.Prelude.{
  subst, ℕ, ◌+◌, ◌≡◌, inl, inr, Bool, false, not, ◌&&◌, Option, List, [], ◌∷◌, arith, ltb,
  if◌then◌else◌, Bool-cases,
}
use inferno_sim.Prelude.Lists.{All, All-append}
use inferno_sim.Prelude.Result.{Result, ok, reject_if, >>=-eq-ok, reject_if-ok, Result-cases}
use inferno_sim.EventLog.{Event}
use inferno_sim.Driver.{is_side_effect}
use inferno_sim.Driver.Exchange.{Url}
use inferno_sim.Replayer.{
  ReplayConfig, Request, Tools, Error, write_blocked, outbound_request, handle, is_call, body_of,
  replay_from, replay, or_error, no_target, bad_url, bad_request,
}

abbrev pub AreReads : List Request → Type 0
AreReads reqs = All (λ r. is_side_effect r.method ≡ false) reqs

module _ (tools : Tools) (target : Option Url) (cfg : ReplayConfig)
    (blocked : cfg.allow_writes ≡ false) where
  outbound_request-read :
      (i : ℕ) (e : Event) (req : Request)
      → outbound_request tools target cfg i e ≡ ok req
      → is_side_effect req.method ≡ false
  unfolding outbound_request
  outbound_request-read i e req h =
      let (_, g, h1) =
        >>=-eq-ok (reject_if (not cfg.allow_writes && is_side_effect e.method) (write_blocked i)) _
          h in
      let (_, _, h2) = >>=-eq-ok (body_of tools target cfg i e) _ h1 in
      let (base, _, h3) = >>=-eq-ok (or_error (no_target i) target) _ h2 in
      let (original, _, h4) = >>=-eq-ok (or_error (bad_url i) (tools.parse_url e.url)) _ h3 in
      let (_, _, h5) =
        >>=-eq-ok
          (or_error (bad_request i) (
            tools.new_request e.method (record base {
              path = original.path;
              raw_path = original.raw_path;
              raw_query = original.raw_query;
            })))
          _ h4 in
      subst (λ (r : Request). is_side_effect r.method ≡ false) (ok_inj h5)
        (not_blocked cfg.allow_writes (is_side_effect e.method) blocked (reject_if-ok _ _ g))
    where
      ok_inj : {a b : Request} → ◌≡◌ {A = Result Error Request} (ok a) (ok b) → a ≡ b
      ok_inj q = cc

      not_blocked : (a b : Bool) → a ≡ false → (not a && b) ≡ false → b ≡ false
      not_blocked a b p q = ground arith

  handle-reads : (i : ℕ) (e : Event) → AreReads (handle tools target cfg i e).0
  unfolding handle
  handle-reads i e = elim (Bool-cases (is_call tools target cfg e)) [
    | inl a ↦ elim (Result-cases (outbound_request tools target cfg i e)) [
      | inl (req, b) ↦ rw (a, b) (outbound_request-read i e req b, tt)
      | inr (x, b) ↦ rw (a, b) tt
    ]
    | inr a ↦ rw a tt
  ]

  replay_from-reads :
      (i last expected observed : ℕ) (es : List Event)
      → AreReads (replay_from tools target cfg i last expected observed es).0
  unfolding replay_from
  replay_from-reads i last expected observed [] = tt
  replay_from-reads i last expected observed (e ∷ es) =
      let calls : ℕ = if is_call tools target cfg e then 1 else 0 in
      let rest = replay_from-reads (i + 1) e.timestamp (expected + calls) (observed + calls) es in
      let here = handle-reads i e in
      elim (Bool-cases (ltb 0 last && ltb e.timestamp last)) [
        | inl a ↦ rw a tt
        | inr a ↦ elim (Result-cases (handle tools target cfg i e).1) [
          | inr (x, b) ↦ rw (a, b) here
          | inl (u, b) ↦
              rw (a, b)
                (All-append (λ r. is_side_effect r.method ≡ false) (handle tools target cfg i e).0 _
                  here rest)
        ]
      ]

-- Without the permission for writes, a replay sends no call that changes the target's state by its
-- method, wherever it stops.
pub replay-reads :
    (tools : Tools) (target : Option Url) (cfg : ReplayConfig) (events : List Event)
    → cfg.allow_writes ≡ false
    → All (λ r. is_side_effect r.method ≡ false) (replay tools target cfg events).0
unfolding replay
replay-reads tools target cfg events blocked =
    replay_from-reads tools target cfg blocked 0 0 0 0 events
