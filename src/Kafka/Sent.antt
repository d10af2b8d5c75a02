-- ===== src/Kafka/Sent.antt =====
-- What a Kafka replay by pkg/kafkasim/kafka.go has sent when it ends.
use inferno_sim.Prelude.{
  subst, ℕ, ◌+◌, ◌/◌, String, ◌≡◌, sym, ap, inl, inr, true, Option, none, List, [], ◌∷◌, arith, ltb,
  Bool-cases, Option-cases,
}
use inferno_sim.Prelude.Lists.{length, length-append, All, All-append}
use inferno_sim.Prelude.Int.{pos_part}
use inferno_sim.Prelude.Result.{ok, >>=-eq-ok, Result-cases}
use inferno_sim.Prelude.Dict.{Distinct}
use Prim.Native.String
use inferno_sim.Codec.{Codec}
use inferno_sim.Message
use inferno_sim.Message.{Record}
use inferno_sim.Message.Distinct.{ids}
use inferno_sim.Message.Reading.{load-Distinct}
use inferno_sim.Kafka.{Faults, PlannedRecord, plan}
use inferno_sim.Kafka.Accounting.{count_range, repeats, plan_accounts}
use inferno_sim.Kafka.Replay.{
  valid_topic, Sent, ReplayResult, Delivery, cancelled, refused, delivered, ReplayError, outbound,
  deliver, send_one, send_from, bad_planned, planned_result, replay_planned, replay_records, replay,
}

-- What the loop has done by its end: it has counted what it has sent; and if it ended without an
-- error, it has sent something for each entry.
abbrev Counted : List PlannedRecord → ReplayResult → ReplayResult × Option ReplayError → Type 0
Counted ps before (after, e) =
    (length after.sent + before.produced ≡ length before.sent + after.produced)
    × (after.loaded ≡ before.loaded)
    × (after.dropped ≡ before.dropped)
    × (after.duplicated ≡ before.duplicated)
    × (after.poisoned ≡ before.poisoned)
    × (e ≡ none → after.produced ≡ before.produced + length ps)

send_from-Counted :
    (c : Codec) (x : String) (answers : ℕ → Delivery) (k : ℕ) (ps : List PlannedRecord)
    (result : ReplayResult)
    → Counted ps result (send_from c x answers k ps result)
unfolding send_from
send_from-Counted c x answers k [] result = ground arith
send_from-Counted c x answers k (p ∷ ps) result = elim (Result-cases (send_one c x (answers k) p)) [
  | inr (e, stopped) ↦ rw (stopped, send_from) (ground arith)
  | inl (s, sent) ↦
      rw (sent, send_from)
        (let (a, b, d, e, f, g) = send_from-Counted c x answers (k + 1) ps (deliver result s) in
          (
            omega (arith, a, length-append result.sent (s ∷ [])),
            b,
            d,
            e,
            f,
            λ done. omega (arith, g done),
          ))
]

outbound-topic :
    (c : Codec) (x : String) (r : Record) (s : Sent)
    → outbound c x r ≡ ok s
    → s.topic ≡ String.◌++◌ x r.topic
unfolding outbound
outbound-topic c x r s h =
    let (k, _, h1) = >>=-eq-ok (Message.key c r) _ h in
    let (b, _, h2) = >>=-eq-ok (Message.payload c r) _ h1 in
    let (hs, _, h3) = >>=-eq-ok (Message.header_values c r) _ h2 in ground arith

send_one-topic :
    (c : Codec) (x : String) (d : Delivery) (p : PlannedRecord) (s : Sent)
    → send_one c x d p ≡ ok s
    → s.topic ≡ String.◌++◌ x p.entry.topic
unfolding send_one
send_one-topic c x cancelled p s h = absurd (cc)
send_one-topic c x refused p s h = elim (Result-cases (outbound c x p.entry)) [
  | inl (t, e) ↦ absurd (ground arith)
  | inr (t, e) ↦ absurd (ground arith)
]
send_one-topic c x delivered p s h = elim (Result-cases (outbound c x p.entry)) [
  | inl (t, e) ↦ outbound-topic c x p.entry s (ground arith)
  | inr (t, e) ↦ absurd (ground arith)
]

abbrev pub HasValidTopic : Sent → Type 0
HasValidTopic s = valid_topic s.topic ≡ true

abbrev Plannable : String → PlannedRecord → Type 0
Plannable x p = valid_topic (String.◌++◌ x p.entry.topic) ≡ true

bad_planned-none :
    (x : String) (ps : List PlannedRecord) → bad_planned x ps ≡ none → All (Plannable x) ps
unfolding bad_planned
bad_planned-none x [] h = tt
bad_planned-none x (p ∷ ps) h = (ground arith, bad_planned-none x ps (ground arith))

send_from-topics :
    (c : Codec) (x : String) (answers : ℕ → Delivery) (k : ℕ) (ps : List PlannedRecord)
    (result : ReplayResult)
    → All (Plannable x) ps
    → All HasValidTopic result.sent
    → All HasValidTopic (send_from c x answers k ps result).0.sent
unfolding send_from
send_from-topics c x answers k [] result h v = v
send_from-topics c x answers k (p ∷ ps) result (h, hs) v =
    elim (Result-cases (send_one c x (answers k) p)) [
      | inr (e, stopped) ↦ rw (stopped, send_from) v
      | inl (s, sent) ↦
          rw (sent, send_from)
            (send_from-topics c x answers (k + 1) ps (deliver result s) hs (
              All-append HasValidTopic result.sent (s ∷ []) v (
                subst (λ t. valid_topic t ≡ true) (sym (send_one-topic c x (answers k) p s sent)) h,
                tt,
              )))
    ]

-- However a replay ends, everything that it has sent went to a topic that `validateTopic` accepts.
pub replay-topics :
    (c : Codec) (x : String) (findings : List Record → ℕ) (f : Faults) (answers : ℕ → Delivery)
    (entries : List (Option Record))
    → All HasValidTopic (replay c x findings f answers entries).0.sent
unfolding replay
replay-topics c x findings f answers entries = elim (Result-cases (Message.load c entries)) [
  | inr (e, h) ↦ rw (h, replay) tt
  | inl (rs, h) ↦ rw (h, replay) (records rs)
]
  where
    planned :
        (n : ℕ) (ps : List PlannedRecord)
        → All HasValidTopic (replay_planned c x answers n ps).0.sent
    planned n ps = elim (Option-cases (bad_planned x ps)) [
      | inr (t, e) ↦ unfold replay_planned in rw (e, replay_planned) tt
      | inl e ↦
          unfold replay_planned in
          rw (e, replay_planned)
            (send_from-topics c x answers 0 ps (planned_result n ps) (bad_planned-none x ps e) tt)
    ]

    records :
        (rs : List Record) → All HasValidTopic (replay_records c x findings f answers rs).0.sent
    records rs = elim (Bool-cases (ltb 0 (findings rs))) [
      | inl e ↦ unfold replay_records in rw (e, replay_records) tt
      | inr e ↦ elim (Result-cases (plan c rs f)) [
        | inr (t, h) ↦ unfold replay_records in rw (e, h, replay_records) tt
        | inl (ps, h) ↦ unfold replay_records in rw (e, h, replay_records) (planned (length rs) ps)
      ]
    ]

abbrev Accounts : Faults → ReplayResult × Option ReplayError → Type 0
Accounts f (r, e) =
    e ≡ none
    → (r.produced ≡ length r.sent)
      × (r.produced + r.dropped ≡ r.loaded + r.duplicated)
      × (r.dropped ≡ r.loaded / pos_part f.drop_every)
      × (r.duplicated ≡ count_range (repeats f) 1 r.loaded)

module _ (c : Codec) (x : String) (f : Faults) (answers : ℕ → Delivery) where
  replay_planned-Accounts :
      (rs : List Record) (ps : List PlannedRecord)
      → Distinct (ids rs)
      → plan c rs f ≡ ok ps
      → Accounts f (replay_planned c x answers (length rs) ps)
  unfolding replay_planned
  replay_planned-Accounts rs ps d h = elim (Option-cases (bad_planned x ps)) [
    | inr (t, e) ↦ rw (e, replay_planned) (λ done. absurd (cc))
    | inl e ↦
        rw (e, replay_planned)
          (λ done.
            let n = length rs in
            let (a, b, _) = plan_accounts c f rs ps d h in
            let (s, l, dr, du, _, p) = send_from-Counted c x answers 0 ps (planned_result n ps) in
            let q = p done in
            (
              omega (arith, s),
              omega (arith, q, l, dr, du, a, b),
              omega (arith, dr, l, a, ap (λ (k : ℕ). k / pos_part f.drop_every) l),
              omega (arith, du, b, ap (count_range (repeats f) 1) l),
            ))
  ]

  replay_records-Accounts :
      (findings : List Record → ℕ) (rs : List Record)
      → Distinct (ids rs)
      → Accounts f (replay_records c x findings f answers rs)
  unfolding replay_records
  replay_records-Accounts findings rs d = elim (Bool-cases (ltb 0 (findings rs))) [
    | inl e ↦ rw (e, replay_records) (λ done. absurd (cc))
    | inr e ↦ elim (Result-cases (plan c rs f)) [
      | inr (t, h) ↦ rw (e, h, replay_records) (λ done. absurd (cc))
      | inl (ps, h) ↦ rw (e, h, replay_records) (replay_planned-Accounts rs ps d h)
    ]
  ]

  -- A replay that ends without an error has sent a message for each planned entry: it has
  -- produced as many as it has sent, those it loaded less those it dropped and with the
  -- duplicates; it dropped every `drop_every`-th record, and it duplicated those at the positions
  -- that `duplicate_every` divides and `drop_every` does not.
  pub replay_accounts :
      (findings : List Record → ℕ) (entries : List (Option Record))
      → (replay c x findings f answers entries).1 ≡ none
      → let r = (replay c x findings f answers entries).0 in
        (r.produced ≡ length r.sent)
        × (r.produced + r.dropped ≡ r.loaded + r.duplicated)
        × (r.dropped ≡ r.loaded / pos_part f.drop_every)
        × (r.duplicated ≡ count_range (repeats f) 1 r.loaded)
  replay_accounts findings entries = go
    where
      go : Accounts f (replay c x findings f answers entries)
      go = elim (Result-cases (Message.load c entries)) [
        | inr (e, h) ↦ unfold replay in rw (h, replay) (λ done. absurd (cc))
        | inl (rs, h) ↦
            unfold replay in
            rw (h, replay) (replay_records-Accounts findings rs (load-Distinct c entries rs h))
      ]
