-- ===== src/Message/Reading.antt =====
-- What pkg/message/message.go promises of a message log that it has read.
use inferno_sim.Prelude.Int.{ltb_ℤ, ◌≤ℤ◌}
use inferno_sim.Prelude.{
  ◌<◌, ◌⊎◌, not, String, ◌≡◌, refl, ap, ◌∙◌, ◌≢◌, ◌↔◌, Bool, true, false, ◌&&◌, Option, none, some,
  List, [], ◌∷◌, ◌++◌, map, arith, ◌==◌,
}
use inferno_sim.Prelude.Lists.{count_if, All, All_mono}
use inferno_sim.Prelude.Result.{ok, reject_if, >>=-eq-ok, reject_if-ok}
use inferno_sim.Prelude.Dict.{member, Distinct, not-member-cons, member-cons_parts}
use mathlib.Core.List.{Perm}
use mathlib.Core.List.{append-nil, append_assoc}
use inferno_sim.Prelude.Sort.{
  sort_stable, sort_stable-perm, sort_stable-IsSorted, sort_stable-keep, sort_stable-count_if,
  IsSorted, IsStrictWeak, keep,
}
use inferno_sim.Codec.{Codec}
use inferno_sim.Message.Distinct.{ids, has_id, AtMostOnce-of_Distinct, Distinct-of_AtMostOnce}
use inferno_sim.Message.{Record, validate, load_from, load, record_less}

-- The records of a log in which every entry was read.
abbrev pub all_read : List Record → List (Option Record)
all_read = map some

pub record_less-IsStrictWeak : IsStrictWeak record_less
unfolding record_less
record_less-IsStrictWeak = record {
  asym = λ a b h. ground arith;
  not_trans = λ a b c h k. ground arith;
}

-- A record may stand before another.
abbrev pub MayPrecede : Record → Record → Type 0
MayPrecede a b =
    (a.timestamp < b.timestamp) ⊎ ((a.timestamp ≡ b.timestamp) × (a.sequence ≤ℤ b.sequence))

abbrev pub IsInOrder : List Record → Type 0
IsInOrder [] = Unit
IsInOrder (r ∷ rs) = All (MayPrecede r) rs × IsInOrder rs

may_precede : (a b : Record) → record_less b a ≡ false → MayPrecede a b
unfolding record_less
may_precede a b h = ground arith

IsInOrder-of_IsSorted : (rs : List Record) → IsSorted record_less rs → IsInOrder rs
IsInOrder-of_IsSorted [] h = tt
IsInOrder-of_IsSorted (r ∷ rs) (h, hs) =
    (All_mono _ _ rs (λ b n. may_precede r b n) h, IsInOrder-of_IsSorted rs hs)

abbrev Unseen : List String → Record → Type 0
Unseen seen r = member r.id seen ≡ false

Unseen-cons :
    (i : String) (seen : List String) (rs : List Record)
    → All (λ k. i ≢ k) (ids rs)
    → All (Unseen seen) rs
    → All (Unseen (i ∷ seen)) rs
Unseen-cons i seen [] h k = tt
Unseen-cons i seen (r ∷ rs) (h, hs) (k, ks) =
    (not-member-cons r.id i seen h k, Unseen-cons i seen rs hs ks)

Unseen-cons_parts :
    (i : String) (seen : List String) (rs : List Record)
    → All (Unseen (i ∷ seen)) rs
    → All (λ k. i ≢ k) (ids rs) × All (Unseen seen) rs
Unseen-cons_parts i seen [] h = (tt, tt)
Unseen-cons_parts i seen (r ∷ rs) (h, hs) =
    let (a, b) = member-cons_parts r.id i seen h in
    let (as', bs) = Unseen-cons_parts i seen rs hs in ((a, as'), (b, bs))

module _ (c : Codec) where
  abbrev pub IsGood : Record → Type 0
  IsGood r = validate c r ≡ ok tt

  abbrev Accepted : List String → List Record → Type 0
  Accepted seen rs = All IsGood rs × Distinct (ids rs) × All (Unseen seen) rs

  abbrev Outcome : List String → List Record → List (Option Record) → List Record → Type 0
  Outcome seen acc entries out =
      (rs : List Record) × (entries ≡ all_read rs) × (out ≡ acc ++ rs) × Accepted seen rs

  load_from_sound :
      (seen : List String) (acc : List Record) (entries : List (Option Record)) (out : List Record)
      → load_from c seen acc entries ≡ ok out
      → Outcome seen acc entries out
  unfolding load_from
  load_from_sound seen acc [] out h = ([], refl, rw append-nil (cc), (tt, tt, tt))
  load_from_sound seen acc (none ∷ es) out h = absurd (cc)
  load_from_sound seen acc (some r ∷ es) out h =
      let (u, good, h') = >>=-eq-ok (validate c r) _ h in
      let (v, fresh, h'') = >>=-eq-ok (reject_if (member r.id seen) _) _ h' in
      let (rs, all, split, (goods, distinct, unseen)) =
        load_from_sound (r.id ∷ seen) (acc ++ r ∷ []) es out h'' in
      let (away, unseen') = Unseen-cons_parts r.id seen rs unseen in
      (
        r ∷ rs,
        ap (λ l. some r ∷ l) all,
        split ∙ append_assoc acc (r ∷ []) rs,
        ((good, goods), (away, distinct), (reject_if-ok (member r.id seen) _ fresh, unseen')),
      )

  load_from_complete :
      (seen : List String) (acc rs : List Record)
      → Accepted seen rs
      → load_from c seen acc (all_read rs) ≡ ok (acc ++ rs)
  unfolding load_from
  load_from_complete seen acc [] h = rw append-nil
  load_from_complete seen acc (r ∷ rs) ((good, goods), (away, distinct), (fresh, unseen)) =
      rw (good, fresh)
        (load_from_complete (r.id ∷ seen) (acc ++ r ∷ []) rs
            (goods, distinct, Unseen-cons r.id seen rs away unseen)
          ∙ ap ok (append_assoc acc (r ∷ []) rs))

  -- `Load` succeeds exactly if every entry is read, every record is valid and no two share an id;
  -- it then returns the records in a stable order by time and sequence number.
  pub load-ok_iff :
      (entries : List (Option Record)) (out : List Record)
      → (load c entries ≡ ok out) ↔ (
          (rs : List Record) × (entries ≡ all_read rs)
          × (out ≡ sort_stable record_less rs)
          × All IsGood rs
          × Distinct (ids rs))
  unfolding load
  load-ok_iff entries out = (forth, back)
    where
      forth :
          load c entries ≡ ok out
          → (rs : List Record) × (entries ≡ all_read rs)
            × (out ≡ sort_stable record_less rs)
            × All IsGood rs
            × Distinct (ids rs)
      forth h =
          let (read, loaded, sorted) = >>=-eq-ok (load_from c [] [] entries) _ h in
          let (rs, all, split, (goods, distinct, unseen)) =
            load_from_sound [] [] entries read loaded in
          (rs, all, cc, goods, distinct)

      unseen_nil : (rs : List Record) → All (Unseen []) rs
      unseen_nil [] = tt
      unseen_nil (r ∷ rs) = (unfold member in refl, unseen_nil rs)

      back :
          ((rs : List Record) × (entries ≡ all_read rs)
            × (out ≡ sort_stable record_less rs)
            × All IsGood rs
            × Distinct (ids rs))
          → load c entries ≡ ok out
      back (rs, all, sorted, goods, distinct) =
          rw (all, load_from_complete [] [] rs (goods, distinct, unseen_nil rs), sorted)

  abbrev pub same_key : Record → Record → Bool
  same_key a b =
      a.timestamp == b.timestamp
      && not (ltb_ℤ a.sequence b.sequence)
      && not (ltb_ℤ b.sequence a.sequence)

  -- A log that is read comes out by time, and where times are equal by sequence number: no record
  -- stands before one of an earlier time, or of the same time and a smaller number. It holds the
  -- records of the file, each as often as there, and records with the same time and number keep the
  -- file's order.
  pub load_order :
      (entries : List (Option Record)) (out : List Record)
      → load c entries ≡ ok out
      → IsInOrder out
        × ((rs : List Record) × (entries ≡ all_read rs)
            × Perm out rs
            × ((a : Record) → keep (same_key a) out ≡ keep (same_key a) rs))
  load_order entries out h =
      let (rs, all, sorted, _, _) = (load-ok_iff entries out).0 h in
      rw sorted (
        IsInOrder-of_IsSorted (sort_stable record_less rs)
            (sort_stable-IsSorted record_less record_less-IsStrictWeak rs),
        (
          rs,
          all,
          sort_stable-perm record_less rs,
          λ a. sort_stable-keep record_less (same_key a) (same_not_less a) rs,
        ),
      )
    where
      same_not_less :
          (a b d : Record) → same_key a b ≡ true → same_key a d ≡ true → record_less b d ≡ false
      same_not_less a b d h k = unfold record_less in ground arith

  -- The ids of a log that is read differ from one another.
  pub load-Distinct :
      (entries : List (Option Record)) (out : List Record)
      → load c entries ≡ ok out
      → Distinct (ids out)
  load-Distinct entries out h =
      let (rs, _, sorted, _, d) = (load-ok_iff entries out).0 h in
      Distinct-of_AtMostOnce out (λ k. omega (
        arith,
        ap (count_if (has_id k)) sorted,
        sort_stable-count_if record_less (has_id k) rs,
        AtMostOnce-of_Distinct rs d k,
      ))
