-- ===== src/Privacy/Messages.antt =====
-- What `ApplyMessage` of pkg/privacy/policy.go does to the headers of a message: its passes over the
-- headers, one for each rule, do what one pass does.
use inferno_sim.Prelude.{
  String, ◌≡◌, refl, sym, ap, ◌∙◌, inl, inr, true, false, Option, none, some, List, [], ◌∷◌, str_eq,
  if◌then◌else◌, Bool-cases,
}
use inferno_sim.Prelude.Lists.{All, All_mono}
use inferno_sim.Prelude.Result.{ok, ◌>>=◌}
use inferno_sim.Prelude.Text.{equal_fold, is_empty_text, equal_fold_sym, equal_fold_congr}
use inferno_sim.Privacy.{
  Tools, apply_bytes, apply_body, filter_headers, apply_header_rules, apply_message, first_rule,
}
use inferno_sim.Privacy.Checks.{Policy, NamedRule, MessageHeader, drop_it, load}
use inferno_sim.Privacy.Loading.{Apart, load-IsLoaded}

module _ (tools : Tools) (p : Policy) where
  -- What becomes of a header under a rule.
  abbrev pub header_under : NamedRule → MessageHeader → Option MessageHeader
  header_under r h =
      if str_eq r.action drop_it
      then none
      else some (record h { value = apply_bytes tools p r.action h.value })

  -- What becomes of a header under the first rule of its name.
  abbrev pub sanitized : Option NamedRule → MessageHeader → Option MessageHeader
  sanitized none h = some h
  sanitized (some r) h = header_under r h

  abbrev pub prepend : Option MessageHeader → List MessageHeader → List MessageHeader
  prepend none hs = hs
  prepend (some h) hs = h ∷ hs

  -- One pass: each header by itself, under the first rule of its name.
  abbrev pub sanitize : List NamedRule → List MessageHeader → List MessageHeader
  sanitize rs [] = []
  sanitize rs (h ∷ hs) = prepend (sanitized (first_rule h.name rs) h) (sanitize rs hs)

  filter_headers-cons :
      (r : NamedRule) (h : MessageHeader) (hs : List MessageHeader)
      → filter_headers tools p r (h ∷ hs)
        ≡ prepend
            (if equal_fold h.name r.name then header_under r h else some h)
            (filter_headers tools p r hs)
  unfolding filter_headers
  filter_headers-cons r h hs = elim (Bool-cases (equal_fold h.name r.name)) [
    | inl e ↦ elim (Bool-cases (str_eq r.action drop_it)) [ inl f ↦ rw (e, f) | inr f ↦ rw (e, f) ]
    | inr e ↦ rw e
  ]

  -- No rule of the list has the name.
  abbrev Unruled : String → List NamedRule → Type 0
  Unruled name rs = All (λ r. equal_fold r.name name ≡ false) rs

  apply_header_rules-nil : (rs : List NamedRule) → apply_header_rules tools p rs [] ≡ []
  unfolding apply_header_rules filter_headers
  apply_header_rules-nil [] = refl
  apply_header_rules-nil (r ∷ rs) = apply_header_rules-nil rs

  unequal_sym : (s t : String) → equal_fold s t ≡ false → equal_fold t s ≡ false
  unequal_sym s t h = elim (Bool-cases (equal_fold t s)) [
    | inl e ↦ absurd (clash (sym h ∙ equal_fold_sym t s e))
    | inr e ↦ e
  ]
    where
      clash : false ≡ true → ⊥
      clash q = cc

  through :
      (rs : List NamedRule) (h : MessageHeader) (hs : List MessageHeader)
      → Unruled h.name rs
      → apply_header_rules tools p rs (h ∷ hs) ≡ h ∷ apply_header_rules tools p rs hs
  unfolding apply_header_rules
  through [] h hs u = refl
  through (r ∷ rs) h hs (n, u) =
      let other : equal_fold h.name r.name ≡ false = unequal_sym r.name h.name n in
      let one : filter_headers tools p r (h ∷ hs) ≡ h ∷ filter_headers tools p r hs =
        filter_headers-cons r h hs ∙ rw other in
      ap (apply_header_rules tools p rs) one ∙ through rs h (filter_headers tools p r hs) u

  changed_through :
      (rs : List NamedRule) (r : NamedRule) (h : MessageHeader) (hs : List MessageHeader)
      → Unruled h.name rs
      → apply_header_rules tools p rs (prepend (header_under r h) hs)
        ≡ prepend (header_under r h) (apply_header_rules tools p rs hs)
  changed_through rs r h hs u = elim (Bool-cases (str_eq r.action drop_it)) [
    | inl e ↦ rw e
    | inr e ↦ rw e (through rs (record h { value = apply_bytes tools p r.action h.value }) hs u)
  ]

  apply_header_rules-cons :
      (rs : List NamedRule) (h : MessageHeader) (hs : List MessageHeader)
      → Apart equal_fold rs
      → apply_header_rules tools p rs (h ∷ hs)
        ≡ prepend (sanitized (first_rule h.name rs) h) (apply_header_rules tools p rs hs)
  unfolding apply_header_rules first_rule
  apply_header_rules-cons [] h hs d = refl
  apply_header_rules-cons (r ∷ rs) h hs (a, d) = elim (Bool-cases (equal_fold r.name h.name)) [
    | inl e ↦
        let here : equal_fold h.name r.name ≡ true = equal_fold_sym r.name h.name e in
        let unruled : Unruled h.name rs =
          All_mono (λ q. equal_fold q.name r.name ≡ false) (λ q. equal_fold q.name h.name ≡ false)
            rs
            (λ q n.
              unequal_sym h.name q.name
                (sym (equal_fold_congr r.name h.name q.name e) ∙ unequal_sym q.name r.name n))
            a in
        let one : filter_headers tools p r (h ∷ hs)
            ≡ prepend (header_under r h) (filter_headers tools p r hs) =
          filter_headers-cons r h hs ∙ rw here in
        ap (apply_header_rules tools p rs) one
        ∙ rw (e, first_rule) (changed_through rs r h (filter_headers tools p r hs) unruled)
    | inr e ↦
        let other : equal_fold h.name r.name ≡ false = unequal_sym r.name h.name e in
        let one : filter_headers tools p r (h ∷ hs) ≡ h ∷ filter_headers tools p r hs =
          filter_headers-cons r h hs ∙ rw other in
        ap (apply_header_rules tools p rs) one
        ∙ rw (e, first_rule) (apply_header_rules-cons rs h (filter_headers tools p r hs) d)
  ]

  -- The rules, applied one after the other, treat each header as the first rule of its name says, if
  -- no two rules have one name but for case.
  pub apply_header_rules_lem :
      (rs : List NamedRule) (hs : List MessageHeader)
      → Apart equal_fold rs
      → apply_header_rules tools p rs hs ≡ sanitize rs hs
  apply_header_rules_lem rs [] d = apply_header_rules-nil rs
  apply_header_rules_lem rs (h ∷ hs) d =
      apply_header_rules-cons rs h hs d
      ∙ ap (prepend (sanitized (first_rule h.name rs) h)) (apply_header_rules_lem rs hs d)

-- What a loaded policy makes of a message: the key under the policy's action for keys, each header
-- under the first rule of its name, and the payload as a body is treated, with its error.
pub apply_message_lem :
    (tools : Tools) (env : String → String) (raw : Option Policy) (p : Policy) (k payload : String)
    (hs : List MessageHeader)
    → load env raw ≡ ok p
    → apply_message tools (some p) k hs payload ≡ (
        apply_body tools p payload >>= λ body. ok (
          (if is_empty_text p.message_key then k else apply_bytes tools p p.message_key k),
          sanitize tools p p.message_headers hs,
          body,
        ))
unfolding apply_message
apply_message_lem tools env raw p k payload hs h =
    let apart = (load-IsLoaded env raw p h).message_headers_apart in
    rw (apply_header_rules_lem tools p p.message_headers hs apart)
