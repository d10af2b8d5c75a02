-- ===== src/StubProxy/Transparent.antt =====
-- The transparent connections of pkg/stubproxy/stubproxy.go, which are served side by side: each has
-- a goroutine of its own, which reads the index of the next event and counts only later. The other
-- changes that a connection makes are one step here: each is atomic or under a lock, and none of
-- them is read again but the attempts, under their lock.
use inferno_sim.Prelude.{
  subst, ◌∙◌, ℕ, ◌+◌, String, ◌≡◌, refl, sym, inl, inr, none, some, List, [], ◌∷◌, ◌++◌, arith,
  if◌then◌else◌, Option-cases,
}
use inferno_sim.Prelude.Lists.{length, get_elem?, length-append}
use inferno_sim.Prelude.Text.{is_empty_text}
use inferno_sim.Matcher.Externals.{Library}
use inferno_sim.Inject.{match as rule_of}
use inferno_sim.StubProxy.{dep_key_from_host, answer_transparent, serve_transparent}
use inferno_sim.StubProxy.State.{Proxy, too_many, diverge}

-- The proxy, and the indices that connections have read and not used yet.
pub record World : Type 0 where
  pub proxy : Proxy
  pub loaded : List ℕ

module _ (lib : Library) where
  -- What may happen next, and whether a request was answered.
  pub data Step : World → ℕ → World → Type 0 where
    read_index : (w : World) → Step w 0 (record w { loaded = w.loaded ++ w.proxy.i ∷ [] })
    unreadable :
        (w : World) (address : String)
        → Step w 0 (record w { proxy = (serve_transparent lib w.proxy 0 none address).0 })
    answer :
        (p : Proxy) (before after : List ℕ) (idx : ℕ) (host address : String)
        → Step
            (record { proxy = p; loaded = before ++ idx ∷ after })
            1
            (record {
              proxy = (serve_transparent lib p idx (some host) address).0;
              loaded = before ++ after;
            })

  -- Any order of such steps, with the number of requests answered.
  pub data Steps : World → ℕ → World → Type 0 where
    done : (w : World) → Steps w 0 w
    next : (u v w : World) (m n : ℕ) → Step u m v → Steps v n w → Steps u (m + n) w

  -- What answering `n` requests does to the counters.
  abbrev pub Counted : Proxy → ℕ → Proxy → Type 0
  Counted p n q =
      (q.events ≡ p.events)
      × (q.seen ≡ p.seen + n)
      × (q.i + length q.divergences ≡ p.i + length p.divergences + n)

  serve_transparent-Counted :
      (p : Proxy) (idx : ℕ) (host address : String)
      → Counted p 1 (serve_transparent lib p idx (some host) address).0
  unfolding serve_transparent
  serve_transparent-Counted p idx host address = elim (Option-cases (get_elem? p.events idx)) [
    | inl e ↦
        let same : (serve_transparent lib p idx (some host) address).0
            ≡ diverge (record p { seen = p.seen + 1 }) (too_many idx) =
          rw (e, serve_transparent) in
        subst (Counted p 1) (sym same)
          (refl, refl, omega (arith, length-append p.divergences (too_many idx ∷ [])))
    | inr (v, e) ↦
        let dep = if is_empty_text host then address else host in
        let same : (serve_transparent lib p idx (some host) address).0 ≡ record p {
          seen = p.seen + 1;
          i = p.i + 1;
          attempts =
              (answer_transparent lib (rule_of (dep_key_from_host lib dep) p.rules) dep v
                p.attempts).0;
        } =
          rw (e, serve_transparent) in
        subst (Counted p 1) (sym same) (refl, refl, omega arith)
  ]

  Step-Counted : (u v : World) (n : ℕ) → Step u n v → Counted u.proxy n v.proxy
  unfolding serve_transparent
  Step-Counted u v n (read_index w) = (refl, omega arith, omega arith)
  Step-Counted u v n (unreadable w address) = (refl, omega arith, omega arith)
  Step-Counted u v n (answer p before after idx host address) =
      serve_transparent-Counted p idx host address

  -- However the connections interleave, each request that is answered is seen once, and either moves
  -- the index on by one or is noted as a divergence, also where several connections have read the
  -- same index.
  pub Steps-Counted : (u w : World) (n : ℕ) → Steps u n w → Counted u.proxy n w.proxy
  Steps-Counted u w n (done x) = (refl, omega arith, omega arith)
  Steps-Counted u w n (next x v y k m s ss) =
      let (e, a, b) = Step-Counted x v k s in
      let (e', a', b') = Steps-Counted v y m ss in
      (e' ∙ e, omega (arith, a, a'), omega (arith, b, b'))
