-- ===== src/Json/Access.antt =====
-- What reading and removing a path of pkg/matcher/matcher.go do to a document.
use inferno_sim.Prelude.{
  ℕ, zero, suc, String, ◌≡◌, refl, ◌≢◌, ◌⊎◌, inl, inr, Option, none, some, List, [], ◌∷◌, arith,
  str_eq, eq_iff, eq_refl, ◌==◌, if◌then◌else◌, Option-cases,
}
use inferno_sim.Json.{
  Json, null, arr, obj, Items, nil, cons, Fields, end, field, item_at, set_item, field_at,
  set_field, delete_field, Token, key, index, value_at, remove_at,
}

pub item_at-set_item :
    (i j : ℕ) (w v : Json) (vs : Items)
    → item_at i vs ≡ some v
    → item_at j (set_item i w vs) ≡ (if i == j then some w else item_at j vs)
unfolding item_at set_item
item_at-set_item i j w v nil h = absurd (cc)
item_at-set_item zero zero w v (cons u us) h = refl
item_at-set_item zero (suc j) w v (cons u us) h = ground arith
item_at-set_item (suc i) zero w v (cons u us) h = ground arith
item_at-set_item (suc i) (suc j) w v (cons u us) h = ground (arith, item_at-set_item i j w v us h)

item_at-set_item-none :
    (i j : ℕ) (w : Json) (vs : Items)
    → item_at i vs ≡ none
    → item_at j (set_item i w vs) ≡ item_at j vs
unfolding item_at set_item
item_at-set_item-none i j w nil h = refl
item_at-set_item-none zero j w (cons u us) h = absurd (cc)
item_at-set_item-none (suc i) zero w (cons u us) h = refl
item_at-set_item-none (suc i) (suc j) w (cons u us) h = item_at-set_item-none i j w us h

pub field_at-set_field :
    (k j : String) (w v : Json) (fs : Fields)
    → field_at k fs ≡ some v
    → field_at j (set_field k w fs) ≡ (if str_eq k j then some w else field_at j fs)
unfolding field_at set_field
field_at-set_field k j w v end h = absurd (cc)
field_at-set_field k j w v (field i u fs) h =
    ground (arith, field_at-set_field k j w v fs, eq_iff i k, eq_iff i j, eq_iff k j)

pub field_at-delete_field :
    (k j : String) (fs : Fields)
    → field_at j (delete_field k fs) ≡ (if str_eq k j then none else field_at j fs)
unfolding field_at delete_field
field_at-delete_field k j end = ground arith
field_at-delete_field k j (field i u fs) =
    ground (arith, field_at-delete_field k j fs, eq_iff i k, eq_iff i j, eq_iff k j)

-- The value is gone, or is null, as a removed array item is.
abbrev pub IsGone : Option Json → Type 0
IsGone o = (o ≡ none) ⊎ (o ≡ some null)

-- After a path is removed, reading it gives nothing, or null where the path ends in an index.
pub value_at-remove_at :
    (t : Token) (ts : List Token) (v : Json) → IsGone (value_at (t ∷ ts) (remove_at (t ∷ ts) v))
unfolding value_at remove_at
value_at-remove_at (index i) [] (arr vs) = elim (Option-cases (item_at i vs)) [
  | inl e ↦ ground (arith, item_at-set_item-none i i null vs e)
  | inr (w, e) ↦ ground (arith, item_at-set_item i i null w vs e)
]
value_at-remove_at (key k) [] (obj fs) = ground (arith, field_at-delete_field k k fs, eq_refl k)
value_at-remove_at (index i) (t ∷ ts) (arr vs) = elim (Option-cases (item_at i vs)) [
  | inl e ↦ rw (e, remove_at) (rw (e, value_at) (inl refl))
  | inr (w, e) ↦
      rw (e, remove_at)
        (rw (item_at-set_item i i (remove_at (t ∷ ts) w) w vs e, value_at)
          (ground (arith, value_at-remove_at t ts w)))
]
value_at-remove_at (key k) (t ∷ ts) (obj fs) = elim (Option-cases (field_at k fs)) [
  | inl e ↦ rw (e, remove_at) (rw (e, value_at) (inl refl))
  | inr (w, e) ↦
      rw (e, remove_at)
        (rw (field_at-set_field k k (remove_at (t ∷ ts) w) w fs e, eq_refl k, value_at)
          (value_at-remove_at t ts w))
]
value_at-remove_at _ _ _ = inl refl

-- The paths part at some token, so that neither is a prefix of the other.
abbrev pub Diverge : List Token → List Token → Type 0
Diverge (t ∷ ts) (u ∷ us) = (t ≢ u) ⊎ ((t ≡ u) × Diverge ts us)
Diverge _ _ = ⊥

not-Diverge-nil : (ts : List Token) → Diverge ts [] → ⊥
not-Diverge-nil [] h = h
not-Diverge-nil (t ∷ ts) h = h

heads_differ : (t u : Token) (ts : List Token) → Diverge (t ∷ ts) (u ∷ []) → t ≢ u
heads_differ t u ts (inl n) = n
heads_differ t u ts (inr (e, d)) = absurd (not-Diverge-nil ts d)

key_through_index :
    (j : String) (ts : List Token) (i : ℕ) (us : List Token) (v : Json)
    → value_at (key j ∷ ts) (remove_at (index i ∷ us) v) ≡ value_at (key j ∷ ts) v
unfolding value_at remove_at
key_through_index j ts i [] (arr vs) = refl
key_through_index j ts i (u ∷ us) (arr vs) = elim (Option-cases (item_at i vs)) [
  | inl e ↦ rw (e, remove_at)
  | inr (w, e) ↦ rw (e, remove_at)
]
key_through_index j ts i _ _ = refl

index_through_key :
    (i : ℕ) (ts : List Token) (j : String) (us : List Token) (v : Json)
    → value_at (index i ∷ ts) (remove_at (key j ∷ us) v) ≡ value_at (index i ∷ ts) v
unfolding value_at remove_at
index_through_key i ts j [] (obj fs) = refl
index_through_key i ts j (u ∷ us) (obj fs) = elim (Option-cases (field_at j fs)) [
  | inl e ↦ rw (e, remove_at)
  | inr (w, e) ↦ rw (e, remove_at)
]
index_through_key i ts j _ _ = refl

-- Removing a path leaves the values on all paths that part from it.
pub value_at-remove_at-Diverge :
    (ts us : List Token) (v : Json) → Diverge ts us → value_at ts (remove_at us v) ≡ value_at ts v
unfolding value_at remove_at
value_at-remove_at-Diverge [] us v h = absurd h
value_at-remove_at-Diverge (t ∷ ts) [] v h = absurd h
value_at-remove_at-Diverge (key j ∷ ts) (key k ∷ []) (obj fs) h =
    let apart : key j ≢ key k = heads_differ (key j) (key k) ts h in
    ground (arith, field_at-delete_field k j fs, eq_iff k j, apart)
value_at-remove_at-Diverge (index j ∷ ts) (index i ∷ []) (arr vs) h =
    elim (Option-cases (item_at i vs)) [
      | inl e ↦ rw (item_at-set_item-none i j null vs e, value_at)
      | inr (w, e) ↦
          let apart : index j ≢ index i = heads_differ (index j) (index i) ts h in
          ground (arith, item_at-set_item i j null w vs e, apart)
    ]
value_at-remove_at-Diverge (key j ∷ ts) (key k ∷ u ∷ us) (obj fs) h =
    elim (Option-cases (field_at k fs)) [
      | inl e ↦ rw (e, remove_at)
      | inr (w, e) ↦
          rw (e, remove_at)
            (rw (field_at-set_field k j (remove_at (u ∷ us) w) w fs e, value_at)
              (ground (arith, eq_iff k j, value_at-remove_at-Diverge ts (u ∷ us) w)))
    ]
value_at-remove_at-Diverge (index j ∷ ts) (index i ∷ u ∷ us) (arr vs) h =
    elim (Option-cases (item_at i vs)) [
      | inl e ↦ rw (e, remove_at)
      | inr (w, e) ↦
          rw (e, remove_at)
            (rw (item_at-set_item i j (remove_at (u ∷ us) w) w vs e, value_at)
              (ground (arith, value_at-remove_at-Diverge ts (u ∷ us) w)))
    ]
value_at-remove_at-Diverge (key j ∷ ts) (index i ∷ us) v h = key_through_index j ts i us v
value_at-remove_at-Diverge (index i ∷ ts) (key j ∷ us) v h = index_through_key i ts j us v
value_at-remove_at-Diverge _ _ _ h = refl
