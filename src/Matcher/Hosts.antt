-- ===== src/Matcher/Hosts.antt =====
-- The hosts of pkg/matcher/matcher.go: what `equal_host` tells apart.
use inferno_sim.Prelude.{
  subst, ℕ, String, ◌≡◌, refl, sym, ap, ◌∙◌, ◌↔◌, ◌⊎◌, inl, inr, true, false, List, [], ◌∷◌, ◌++◌,
  map, arith, Bool-cases,
}
use inferno_sim.Prelude.Lists.{length, length-append, All}
use inferno_sim.Prelude.Text.{
  codes, folded, lower_code, same_codes, same_codes_refl, same_codes-eq, drop_suffix,
}
use inferno_sim.Matcher.Comparing.{strip_default_port, equal_host}

-- `t` is `s` without one such suffix, or `s` where it has none.
abbrev pub Trimmed : List ℕ → List ℕ → List ℕ → Type 0
Trimmed suffix s t = (s ≡ t ++ suffix) ⊎ ((s ≡ t) × ((u : List ℕ) → s ≡ u ++ suffix → ⊥))

-- A host in lower case, without the port 80 and then without the port 443.
abbrev pub Bare : String → List ℕ → Type 0
Bare host t = (m : List ℕ) × Trimmed (codes ":80") (folded host) m × Trimmed (codes ":443") m t

-- Two hosts agree but for case and default ports.
abbrev pub SameHost : String → String → Type 0
SameHost a b = (t : List ℕ) × Bare a t × Bare b t

drop_suffix-none :
    (suffix s : List ℕ) → ((u : List ℕ) → s ≡ u ++ suffix → ⊥) → drop_suffix suffix s ≡ s
unfolding drop_suffix
drop_suffix-none suffix [] h = refl
drop_suffix-none suffix (c ∷ s) h = elim (Bool-cases (same_codes (c ∷ s) suffix)) [
  | inl e ↦ absurd (h [] (same_codes-eq (c ∷ s) suffix e))
  | inr e ↦ rw e (
      ap (λ (l : List ℕ). c ∷ l)
        (drop_suffix-none suffix s (λ u k. h (c ∷ u) (ap (λ (l : List ℕ). c ∷ l) k))))
]

longer_differs : (c : ℕ) (t suffix : List ℕ) → same_codes (c ∷ t ++ suffix) suffix ≡ false
longer_differs c t suffix = elim (Bool-cases (same_codes (c ∷ t ++ suffix) suffix)) [
  | inr e ↦ e
  | inl e ↦ absurd (
      omega (
        arith,
        ap (λ (l : List ℕ). length l) (same_codes-eq (c ∷ t ++ suffix) suffix e),
        length-append t suffix,
      ))
]

drop_suffix-some : (x : ℕ) (suffix t : List ℕ) → drop_suffix (x ∷ suffix) (t ++ x ∷ suffix) ≡ t
unfolding drop_suffix
drop_suffix-some x suffix [] = rw (same_codes_refl (x ∷ suffix))
drop_suffix-some x suffix (c ∷ t) =
    rw (longer_differs c t (x ∷ suffix)) (ap (λ (l : List ℕ). c ∷ l) (drop_suffix-some x suffix t))

drop_suffix-of_Trimmed :
    (x : ℕ) (suffix s t : List ℕ) → Trimmed (x ∷ suffix) s t → drop_suffix (x ∷ suffix) s ≡ t
drop_suffix-of_Trimmed x suffix s t (inl e) =
    ap (drop_suffix (x ∷ suffix)) e ∙ drop_suffix-some x suffix t
drop_suffix-of_Trimmed x suffix s t (inr (e, h)) = drop_suffix-none (x ∷ suffix) s h ∙ e

Trimmed-cons :
    (c x : ℕ) (suffix s t : List ℕ)
    → same_codes (c ∷ s) (x ∷ suffix) ≡ false
    → Trimmed (x ∷ suffix) s t
    → Trimmed (x ∷ suffix) (c ∷ s) (c ∷ t)
Trimmed-cons c x suffix s t h (inl e) = inl (ap (λ (l : List ℕ). c ∷ l) e)
Trimmed-cons c x suffix s t h (inr (e, k)) = inr (ap (λ (l : List ℕ). c ∷ l) e, none_before)
  where
    none_before : (u : List ℕ) → c ∷ s ≡ u ++ x ∷ suffix → ⊥
    none_before [] p =
        absurd (cc (h, ap (λ l. same_codes l (x ∷ suffix)) p, same_codes_refl (x ∷ suffix)))
    none_before (d ∷ u) p = k u (cc p)

drop_suffix-Trimmed :
    (x : ℕ) (suffix s : List ℕ) → Trimmed (x ∷ suffix) s (drop_suffix (x ∷ suffix) s)
unfolding drop_suffix
drop_suffix-Trimmed x suffix [] = inr (refl, none_before)
  where
    none_before : (u : List ℕ) → [] ≡ u ++ x ∷ suffix → ⊥
    none_before [] p = cc p
    none_before (d ∷ u) p = cc p
drop_suffix-Trimmed x suffix (c ∷ s) = elim (Bool-cases (same_codes (c ∷ s) (x ∷ suffix))) [
  | inl e ↦ rw e (inl (same_codes-eq (c ∷ s) (x ∷ suffix) e))
  | inr e ↦
      rw e
        (Trimmed-cons c x suffix s (drop_suffix (x ∷ suffix) s) e (drop_suffix-Trimmed x suffix s))
]

strip-Bare : (host : String) → Bare host (strip_default_port host)
unfolding strip_default_port
strip-Bare host =
    let m = drop_suffix (codes ":80") (folded host) in
    (m, drop_suffix-Trimmed _ _ (folded host), drop_suffix-Trimmed _ _ m)

strip-of_Bare : (host : String) (t : List ℕ) → Bare host t → strip_default_port host ≡ t
unfolding strip_default_port
strip-of_Bare host t (m, h, k) =
    ap (drop_suffix (codes ":443")) (drop_suffix-of_Trimmed _ _ (folded host) m h)
    ∙ drop_suffix-of_Trimmed _ _ m t k

-- Lower-case code points stay as they are.
abbrev IsLower : List ℕ → Type 0
IsLower = All (λ c. lower_code c ≡ c)

map-IsLower : (s : List ℕ) → IsLower s → map lower_code s ≡ s
map-IsLower [] h = refl
map-IsLower (c ∷ s) (h, k) = cc (h, map-IsLower s k)

drop_suffix-IsLower : (suffix s : List ℕ) → IsLower s → IsLower (drop_suffix suffix s)
unfolding drop_suffix
drop_suffix-IsLower suffix [] h = tt
drop_suffix-IsLower suffix (c ∷ s) (h, k) = elim (Bool-cases (same_codes (c ∷ s) suffix)) [
  | inl e ↦ rw e tt
  | inr e ↦ rw e (h, drop_suffix-IsLower suffix s k)
]

lower_code-twice : (c : ℕ) → lower_code (lower_code c) ≡ lower_code c
unfolding lower_code
lower_code-twice c = ground arith

lowered-IsLower : (s : List ℕ) → IsLower (map lower_code s)
lowered-IsLower [] = tt
lowered-IsLower (c ∷ s) = (lower_code-twice c, lowered-IsLower s)

strip-lower : (host : String) → map lower_code (strip_default_port host) ≡ strip_default_port host
unfolding strip_default_port folded
strip-lower host = map-IsLower _ (
    drop_suffix-IsLower (codes ":443") _
      (drop_suffix-IsLower (codes ":80") _ (lowered-IsLower (codes host))))

-- The comparison of hosts finds just those equal that agree but for case and default ports.
pub equal_host_iff : (a b : String) → (equal_host a b ≡ true) ↔ SameHost a b
unfolding equal_host
equal_host_iff a b = (forth, back)
  where
    forth :
        same_codes (map lower_code (strip_default_port a)) (map lower_code (strip_default_port b))
          ≡ true
        → SameHost a b
    forth h =
        let same : strip_default_port b ≡ strip_default_port a =
          sym (sym (strip-lower a) ∙ same_codes-eq _ _ h ∙ strip-lower b) in
        (strip_default_port a, strip-Bare a, subst (Bare b) same (strip-Bare b))

    back :
        SameHost a b
        → same_codes (map lower_code (strip_default_port a)) (map lower_code (strip_default_port b))
          ≡ true
    back (t, h, k) =
        rw (strip-of_Bare a t h, strip-of_Bare b t k) (same_codes_refl (map lower_code t))
