-- ===== src/Matcher/Queries.antt =====
-- The queries of pkg/matcher/matcher.go: what `equal_query` tells apart.
use inferno_sim.Prelude.{
  subst, String, ◌≡◌, refl, sym, ap, ◌∙◌, ◌↔◌, inl, inr, Bool, true, false, List, [], ◌∷◌, ◌++◌,
  arith, str_eq, eq_iff, eq_refl, if◌then◌else◌, Bool-cases,
}
use inferno_sim.Prelude.Lists.{All, All_mono, All-append}
use inferno_sim.Prelude.Text.{str_eq-true}
use inferno_sim.Prelude.TextOrder.{less_irrefl, less_asym, less-not_trans, less_antisym}
use inferno_sim.Prelude.Sort.{
  sort_stable, sort_stable-IsSorted, sort_stable-keep, IsSorted, IsStrictWeak, keep,
}
use inferno_sim.Prelude.Dict.{member}
use inferno_sim.Matcher.Externals.{Values}
use inferno_sim.Matcher.Comparing.{
  text_less, key_less, pairs_of, pairs_from, encode_values, same_pairs, without, equal_query,
}

-- The values under a name.
abbrev pub values_of : String → Values → List String
values_of k [] = []
values_of k ((j, vs) ∷ m) = if str_eq j k then vs ++ values_of k m else values_of k m

-- Two queries have the same values, in the same order, under each name outside the ignored ones.
abbrev pub SameQuery : Values → Values → List String → Type 0
SameQuery a b ignored = (k : String) → member k ignored ≡ false → values_of k a ≡ values_of k b

-- The values of a name among pairs.
picked : String → List (String × String) → List String
picked k [] = []
picked k ((j, v) ∷ ps) = if str_eq j k then v ∷ picked k ps else picked k ps

picked-append :
    (k : String) (ps qs : List (String × String)) → picked k (ps ++ qs) ≡ picked k ps ++ picked k qs
unfolding picked
picked-append k [] qs = refl
picked-append k ((j, v) ∷ ps) qs = elim (Bool-cases (str_eq j k)) [
  | inl e ↦ rw e (ap (λ (l : List String). v ∷ l) (picked-append k ps qs))
  | inr e ↦ rw e (picked-append k ps qs)
]

picked-pairs_of :
    (k j : String) (vs : List String) → picked k (pairs_of j vs) ≡ (if str_eq j k then vs else [])
unfolding picked pairs_of
picked-pairs_of k j [] = ground arith
picked-pairs_of k j (v ∷ vs) = elim (Bool-cases (str_eq j k)) [
  | inl e ↦ rw e (ap (λ (l : List String). v ∷ l) (picked-pairs_of k j vs ∙ rw e))
  | inr e ↦ rw e (picked-pairs_of k j vs ∙ rw e)
]

picked-pairs_from : (k : String) (m : Values) → picked k (pairs_from m) ≡ values_of k m
unfolding pairs_from picked
picked-pairs_from k [] = refl
picked-pairs_from k ((j, vs) ∷ m) =
    picked-append k (pairs_of j vs) (pairs_from m)
    ∙ rw (picked-pairs_of k j vs, picked-pairs_from k m)
        (elim (Bool-cases (str_eq j k)) [ inl e ↦ rw e | inr e ↦ rw e ])

abbrev has_key : String → String × List String → Bool
has_key k (j, _) = str_eq j k

-- The values under a name are those of the entries that have it.
values_of-keep : (k : String) (m : Values) → values_of k (keep (has_key k) m) ≡ values_of k m
unfolding keep
values_of-keep k [] = refl
values_of-keep k ((j, vs) ∷ m) = elim (Bool-cases (str_eq j k)) [
  | inl e ↦ rw (e, e) (ap (λ (l : List String). vs ++ l) (values_of-keep k m))
  | inr e ↦ rw e (values_of-keep k m)
]

key_less-IsStrictWeak : IsStrictWeak key_less
key_less-IsStrictWeak = record {
  asym = λ (a, _) (b, _) h. less_asym a b h;
  not_trans = λ (a, _) (b, _) (c, _) h k. less-not_trans a b c h k;
}

values_of-sort : (k : String) (m : Values) → values_of k (sort_stable key_less m) ≡ values_of k m
values_of-sort k m =
    sym (values_of-keep k (sort_stable key_less m))
    ∙ ap (values_of k) (sort_stable-keep key_less (has_key k) same m)
    ∙ values_of-keep k m
  where
    same :
        (a b : String × List String)
        → has_key k a ≡ true
        → has_key k b ≡ true
        → key_less a b ≡ false
    same (a, _) (b, _) h g = rw (str_eq-true a k h, str_eq-true b k g) (less_irrefl k)

picked-encode : (k : String) (m : Values) → picked k (encode_values m) ≡ values_of k m
unfolding encode_values
picked-encode k m = picked-pairs_from k (sort_stable key_less m) ∙ values_of-sort k m

values_of-outside :
    (k : String) (ignored : List String) (m : Values)
    → member k ignored ≡ false
    → values_of k (without ignored m) ≡ values_of k m
unfolding without
values_of-outside k ignored [] h = refl
values_of-outside k ignored ((j, vs) ∷ m) h = elim (Bool-cases (str_eq j k)) [
  | inl e ↦
      let kept : member j ignored ≡ false = ap (λ x. member x ignored) (str_eq-true j k e) ∙ h in
      rw (kept, e) (ap (λ (l : List String). vs ++ l) (values_of-outside k ignored m h))
  | inr e ↦ elim (Bool-cases (member j ignored)) [
    | inl g ↦ rw (g, e) (values_of-outside k ignored m h)
    | inr g ↦ rw (g, e) (values_of-outside k ignored m h)
  ]
]

values_of-ignored :
    (k : String) (ignored : List String) (m : Values)
    → member k ignored ≡ true
    → values_of k (without ignored m) ≡ []
unfolding without
values_of-ignored k ignored [] h = refl
values_of-ignored k ignored ((j, vs) ∷ m) h = elim (Bool-cases (member j ignored)) [
  | inl g ↦ rw g (values_of-ignored k ignored m h)
  | inr g ↦ elim (Bool-cases (str_eq j k)) [
    | inl e ↦ absurd (cc (g, h, ap (λ x. member x ignored) (str_eq-true j k e)))
    | inr e ↦ rw (g, e) (values_of-ignored k ignored m h)
  ]
]

-- Pairs by name.
abbrev IsByName : List (String × String) → Type 0
IsByName [] = Unit
IsByName ((j, _) ∷ ps) = All (λ (k, _). text_less k j ≡ false) ps × IsByName ps

ByName-append :
    (j : String) (vs : List String) (ps : List (String × String))
    → All (λ (k, _). text_less k j ≡ false) ps
    → IsByName ps
    → All (λ (k, _). text_less k j ≡ false) (pairs_of j vs ++ ps) × IsByName (pairs_of j vs ++ ps)
unfolding pairs_of
ByName-append j [] ps h g = (h, g)
ByName-append j (v ∷ vs) ps h g =
    let (a, b) = ByName-append j vs ps h g in ((less_irrefl j, a), (a, b))

pairs_from-All :
    (j : String) (m : Values)
    → All (λ (k, _). text_less k j ≡ false) m
    → All (λ (k, _). text_less k j ≡ false) (pairs_from m)
unfolding pairs_from pairs_of
pairs_from-All j [] h = tt
pairs_from-All j ((k, vs) ∷ m) (h, hs) =
    All-append _ (pairs_of k vs) (pairs_from m) (each vs) (pairs_from-All j m hs)
  where
    each : (vs : List String) → All (λ (k, _). text_less k j ≡ false) (pairs_of k vs)
    each [] = tt
    each (v ∷ vs) = (h, each vs)

pairs_from-IsByName : (m : Values) → IsSorted key_less m → IsByName (pairs_from m)
unfolding pairs_from
pairs_from-IsByName [] h = tt
pairs_from-IsByName ((j, vs) ∷ m) (h, hs) =
    (ByName-append j vs (pairs_from m) (pairs_from-All j m (All_mono _ _ m (λ (k, _) b. b) h))
      (pairs_from-IsByName m hs)).1

encode-IsByName : (m : Values) → IsByName (encode_values m)
unfolding encode_values
encode-IsByName m =
    pairs_from-IsByName (sort_stable key_less m)
      (sort_stable-IsSorted key_less key_less-IsStrictWeak m)

picked_above :
    (j k : String) (v : String) (vs : List String) (ps : List (String × String))
    → All (λ (k, _). text_less k j ≡ false) ps
    → picked k ps ≡ v ∷ vs
    → text_less k j ≡ false
unfolding picked
picked_above j k v vs [] h e = absurd (cc)
picked_above j k v vs ((i, w) ∷ ps) (h, hs) e = elim (Bool-cases (str_eq i k)) [
  | inl g ↦ ap (λ x. text_less x j) (sym (str_eq-true i k g)) ∙ h
  | inr g ↦ picked_above j k v vs ps hs (sym (rw g) ∙ e)
]

picked_first :
    (k v : String) (ps : List (String × String)) → picked k ((k, v) ∷ ps) ≡ v ∷ picked k ps
unfolding picked
picked_first k v ps = rw (eq_refl k)

picked_least :
    (j w k v : String) (vs : List String) (ps : List (String × String))
    → IsByName ((j, w) ∷ ps)
    → picked k ((j, w) ∷ ps) ≡ v ∷ vs
    → text_less k j ≡ false
picked_least j w k v vs ps (h, _) e = picked_above j k v vs ((j, w) ∷ ps) (less_irrefl j, h) e

picked_rest :
    (k v w : String) (ps qs : List (String × String))
    → ((i : String) → picked i ((k, v) ∷ ps) ≡ picked i ((k, w) ∷ qs))
    → (v ≡ w) × ((i : String) → picked i ps ≡ picked i qs)
unfolding picked
picked_rest k v w ps qs h =
    let first : v ∷ picked k ps ≡ w ∷ picked k qs =
      sym (picked_first k v ps) ∙ h k ∙ picked_first k w qs in
    (
      cc first,
      λ i. elim (Bool-cases (str_eq k i)) [
        | inl e ↦
            let same : k ≡ i = str_eq-true k i e in
            subst (λ x. picked x ps ≡ picked x qs) same (cc first)
        | inr e ↦ sym (rw e) ∙ h i ∙ rw e
      ],
    )

nothing_picked : (k : String) → picked k [] ≡ []
unfolding picked
nothing_picked k = refl

same_pairs_refl : (ps : List (String × String)) → same_pairs ps ps ≡ true
unfolding same_pairs
same_pairs_refl [] = refl
same_pairs_refl ((k, v) ∷ ps) = ground (arith, eq_refl k, eq_refl v, same_pairs_refl ps)

same_pairs-eq : (ps qs : List (String × String)) → same_pairs ps qs ≡ true → ps ≡ qs
unfolding same_pairs
same_pairs-eq [] [] h = refl
same_pairs-eq [] ((j, w) ∷ qs) h = absurd (cc)
same_pairs-eq ((k, v) ∷ ps) [] h = absurd (cc)
same_pairs-eq ((k, v) ∷ ps) ((j, w) ∷ qs) h =
    let e : k ≡ j = ground (arith, eq_iff k j) in
    let f : v ≡ w = ground (arith, eq_iff v w) in
    let g : same_pairs ps qs ≡ true = ground arith in cc (e, f, same_pairs-eq ps qs g)

-- Pairs by name are fixed by the values of each name.
picked-injective :
    (ps qs : List (String × String))
    → IsByName ps
    → IsByName qs
    → ((k : String) → picked k ps ≡ picked k qs)
    → ps ≡ qs
picked-injective [] [] a b h = refl
picked-injective [] ((k, v) ∷ qs) a b h = absurd (cc (h k, picked_first k v qs, nothing_picked k))
picked-injective ((k, v) ∷ ps) [] a b h = absurd (cc (h k, picked_first k v ps, nothing_picked k))
picked-injective ((k, v) ∷ ps) ((j, w) ∷ qs) (a, as') (b, bs) h =
    let e : k ≡ j =
      less_antisym k j
        (picked_least j w k v (picked k ps) qs (b, bs) (sym (h k) ∙ picked_first k v ps))
        (picked_least k v j w (picked j qs) ps (a, as') (h j ∙ picked_first j w qs)) in
    let h' : (i : String) → picked i ((k, v) ∷ ps) ≡ picked i ((k, w) ∷ qs) =
      subst (λ x. (i : String) → picked i ((k, v) ∷ ps) ≡ picked i ((x, w) ∷ qs)) (sym e) h in
    let (f, rest) = picked_rest k v w ps qs h' in cc (e, f, picked-injective ps qs as' bs rest)

same_pairs_iff : (ps qs : List (String × String)) → (same_pairs ps qs ≡ true) ↔ (ps ≡ qs)
same_pairs_iff ps qs =
    (same_pairs-eq ps qs, λ e. subst (λ x. same_pairs ps x ≡ true) e (same_pairs_refl ps))

-- The comparison of queries finds just those equal that have the same values under every name that
-- is not ignored.
pub equal_query_iff :
    (a b : Values) (ignored : List String)
    → (equal_query a b ignored ≡ true) ↔ SameQuery a b ignored
unfolding equal_query
equal_query_iff a b ignored = (forth, back)
  where
    forth :
        same_pairs (encode_values (without ignored a)) (encode_values (without ignored b)) ≡ true
        → SameQuery a b ignored
    forth h k outside =
        sym (values_of-outside k ignored a outside)
        ∙ sym (picked-encode k (without ignored a))
        ∙ ap (picked k) (
            (same_pairs_iff (encode_values (without ignored a))
                (encode_values (without ignored b))).0
              h)
        ∙ picked-encode k (without ignored b)
        ∙ values_of-outside k ignored b outside

    back :
        SameQuery a b ignored
        → same_pairs (encode_values (without ignored a)) (encode_values (without ignored b)) ≡ true
    back h =
        (same_pairs_iff (encode_values (without ignored a)) (encode_values (without ignored b))).1 (
          picked-injective (encode_values (without ignored a)) (encode_values (without ignored b))
            (encode-IsByName (without ignored a)) (encode-IsByName (without ignored b)) same)
      where
        same :
            (k : String)
            → picked k (encode_values (without ignored a))
              ≡ picked k (encode_values (without ignored b))
        same k =
            picked-encode k (without ignored a)
            ∙ middle k
            ∙ sym (picked-encode k (without ignored b))
          where
            middle :
                (k : String) → values_of k (without ignored a) ≡ values_of k (without ignored b)
            middle k = elim (Bool-cases (member k ignored)) [
              | inl e ↦ values_of-ignored k ignored a e ∙ sym (values_of-ignored k ignored b e)
              | inr e ↦
                  values_of-outside k ignored a e ∙ h k e ∙ sym (values_of-outside k ignored b e)
            ]
