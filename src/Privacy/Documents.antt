-- ===== src/Privacy/Documents.antt =====
-- What the rules on JSON fields of pkg/privacy/policy.go do to a document.
use inferno_sim.Prelude.{
  ℕ, String, ◌≡◌, refl, sym, ap, ◌∙◌, inl, inr, Option, none, some, List, [], ◌∷◌, arith, str_eq,
  eq_refl, if◌then◌else◌, Option-cases,
}
use inferno_sim.Json.{
  Json, null, bool, num, Token, key, index, arr, obj, Items, Fields, item_at, set_item, field_at,
  set_field, value_at, text,
}
use inferno_sim.Json.Access.{item_at-set_item, field_at-set_field, field_at-delete_field}
use Prim.Native.String.{◌++◌ as concat}
use inferno_sim.Privacy.{Tools, token, value_string, changed, kept_item, put_or_delete, apply_at}
use inferno_sim.Privacy.Checks.{Policy, Action}

module _ (tools : Tools) (p : Policy) where
  -- A value as the text that a token is made of.
  abbrev pub printed : Json → String
  printed (text s) = s
  printed v = tools.marshal v

  abbrev pub token_of : Json → Json
  token_of v = text (concat "tok_" (tools.hmac_hex p.token_key (printed v)))

  -- An array keeps its length.
  abbrev pub without_value : Token → Option Json
  without_value (index i) = some (text "[REDACTED]")
  without_value (key k) = none

  -- What is to stand in place of a value.
  abbrev pub after_last : Action → Token → Json → Option Json
  after_last a t v =
      if str_eq a "drop"
      then without_value t
      else if str_eq a "redact"
      then some (text "[REDACTED]")
      else if str_eq a "tokenize"
      then some (token_of v)
      else some v

  printed_lem : (v : Json) → value_string tools v ≡ printed v
  unfolding value_string
  printed_lem (text s) = refl
  printed_lem null = refl
  printed_lem (bool b) = refl
  printed_lem (num s) = refl
  printed_lem (arr vs) = refl
  printed_lem (obj fs) = refl

  changed_item :
      (a : Action) (i : ℕ) (v : Json)
      → some (kept_item (changed tools p a v)) ≡ after_last a (index i) v
  unfolding changed token
  changed_item a i v = ground (arith, printed_lem v)

  changed_field :
      (a : Action) (k : String) (v : Json) → changed tools p a v ≡ after_last a (key k) v
  unfolding changed token
  changed_field a k v = ground (arith, printed_lem v)

  -- What stands at the end of a path, given what stood there.
  abbrev pub after_rule : Action → Token → List Token → Option Json → Option Json
  after_rule a t [] none = none
  after_rule a t [] (some v) = after_last a t v
  after_rule a t (u ∷ us) old = after_rule a u us old

  field_at-put_or_delete :
      (k j : String) (w : Option Json) (v : Json) (fs : Fields)
      → field_at k fs ≡ some v
      → field_at j (put_or_delete k w fs) ≡ (if str_eq k j then w else field_at j fs)
  field_at-put_or_delete k j none v fs h = field_at-delete_field k j fs
  field_at-put_or_delete k j (some w) v fs h = field_at-set_field k j w v fs h

  at_item :
      (i : ℕ) (ts : List Token) (vs : Items) (w : Json)
      → item_at i vs ≡ some w
      → value_at (index i ∷ ts) (arr vs) ≡ value_at ts w
  unfolding value_at
  at_item i ts vs w h = rw (h, value_at)

  at_field :
      (k : String) (ts : List Token) (fs : Fields) (w : Json)
      → field_at k fs ≡ some w
      → value_at (key k ∷ ts) (obj fs) ≡ value_at ts w
  unfolding value_at
  at_field k ts fs w h = rw (h, value_at)

  no_field :
      (k : String) (ts : List Token) (fs : Fields)
      → field_at k fs ≡ none
      → value_at (key k ∷ ts) (obj fs) ≡ none
  unfolding value_at
  no_field k ts fs h = rw (h, value_at)

  last_field :
      (k : String) (o : Option Json) (fs : Fields)
      → field_at k fs ≡ o
      → value_at (key k ∷ []) (obj fs) ≡ o
  last_field k none fs h = no_field k [] fs h
  last_field k (some v) fs h = at_field k [] fs v h ∙ unfold value_at in refl

  gone : (a : Action) (t : Token) (ts : List Token) → after_rule a t ts none ≡ none
  gone a t [] = refl
  gone a t (u ∷ us) = gone a u us

  -- At the end of its path a rule leaves nothing where there was nothing. Else "drop" takes a field
  -- away and redacts an array item, "redact" leaves a fixed text, "tokenize" leaves the token of the
  -- old value's text, and any other action leaves the old value.
  pub value_at-apply_at :
      (a : Action) (t : Token) (ts : List Token) (v : Json)
      → value_at (t ∷ ts) (apply_at tools p a (t ∷ ts) v) ≡ after_rule a t ts (value_at (t ∷ ts) v)
  unfolding value_at apply_at
  value_at-apply_at a (index i) [] (arr vs) = elim (Option-cases (item_at i vs)) [
    | inl e ↦ rw (e, apply_at) (rw (e, value_at))
    | inr (w, e) ↦
        let new = kept_item (changed tools p a w) in
        let applied : apply_at tools p a (index i ∷ []) (arr vs) ≡ arr (set_item i new vs) =
          rw (e, apply_at) in
        let there : item_at i (set_item i new vs) ≡ some new =
          item_at-set_item i i new w vs e ∙ ground arith in
        ap (value_at (index i ∷ [])) applied
        ∙ at_item i [] (set_item i new vs) new there
        ∙ changed_item a i w
        ∙ ap (after_rule a (index i) []) (sym (at_item i [] vs w e))
  ]
  value_at-apply_at a (key k) [] (obj fs) = elim (Option-cases (field_at k fs)) [
    | inl e ↦ rw (e, apply_at) (rw (e, value_at))
    | inr (w, e) ↦
        let new = changed tools p a w in
        let applied : apply_at tools p a (key k ∷ []) (obj fs) ≡ obj (put_or_delete k new fs) =
          rw (e, apply_at) in
        let there : field_at k (put_or_delete k new fs) ≡ new =
          field_at-put_or_delete k k new w fs e ∙ rw (eq_refl k) in
        ap (value_at (key k ∷ [])) applied
        ∙ last_field k new (put_or_delete k new fs) there
        ∙ changed_field a k w
        ∙ ap (after_rule a (key k) []) (sym (at_field k [] fs w e))
  ]
  value_at-apply_at a (index i) (t ∷ ts) (arr vs) = elim (Option-cases (item_at i vs)) [
    | inl e ↦ rw (e, apply_at) (rw (e, value_at) (sym (gone a t ts)))
    | inr (w, e) ↦
        let new = apply_at tools p a (t ∷ ts) w in
        let applied : apply_at tools p a (index i ∷ t ∷ ts) (arr vs) ≡ arr (set_item i new vs) =
          rw (e, apply_at) in
        let there : item_at i (set_item i new vs) ≡ some new =
          item_at-set_item i i new w vs e ∙ ground arith in
        ap (value_at (index i ∷ t ∷ ts)) applied
        ∙ at_item i (t ∷ ts) (set_item i new vs) new there
        ∙ value_at-apply_at a t ts w
        ∙ ap (after_rule a t ts) (sym (at_item i (t ∷ ts) vs w e))
  ]
  value_at-apply_at a (key k) (t ∷ ts) (obj fs) = elim (Option-cases (field_at k fs)) [
    | inl e ↦ rw (e, apply_at) (rw (e, value_at) (sym (gone a t ts)))
    | inr (w, e) ↦
        let new = apply_at tools p a (t ∷ ts) w in
        let applied : apply_at tools p a (key k ∷ t ∷ ts) (obj fs) ≡ obj (set_field k new fs) =
          rw (e, apply_at) in
        let there : field_at k (set_field k new fs) ≡ some new =
          field_at-set_field k k new w fs e ∙ rw (eq_refl k) in
        ap (value_at (key k ∷ t ∷ ts)) applied
        ∙ at_field k (t ∷ ts) (set_field k new fs) new there
        ∙ value_at-apply_at a t ts w
        ∙ ap (after_rule a t ts) (sym (at_field k (t ∷ ts) fs w e))
  ]
  value_at-apply_at a t ts v = sym (gone a t ts)
