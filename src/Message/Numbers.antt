-- ===== src/Message/Numbers.antt =====
-- The sequence numbers of the entries in a message log of pkg/message/message.go.
use inferno_sim.Prelude.Int.{ℤ, ◌≤ℤ◌, ◌<ℤ◌, ltb_ℤ}
use inferno_sim.Prelude.{Option, none, some, List, [], ◌∷◌, ◌++◌, arith, if◌then◌else◌}
use inferno_sim.Prelude.Lists.{All, All-append}
use inferno_sim.Message.Reading.{all_read}
use inferno_sim.Message.{Record, last_sequence}

-- An entry that is read has at most the given number.
abbrev pub IsUpTo : ℤ → Option Record → Type 0
IsUpTo n none = Unit
IsUpTo n (some r) = r.sequence ≤ℤ n

-- An entry that is read has a smaller number than the given one.
abbrev pub IsBelow : ℤ → Option Record → Type 0
IsBelow n none = Unit
IsBelow n (some r) = r.sequence <ℤ n

-- An entry that is read has a larger number than the record.
abbrev pub IsAbove : Record → Option Record → Type 0
IsAbove r none = Unit
IsAbove r (some q) = r.sequence <ℤ q.sequence

-- Numbers grow along the entries that are read.
abbrev pub IsIncreasing : List (Option Record) → Type 0
IsIncreasing [] = Unit
IsIncreasing (none ∷ es) = IsIncreasing es
IsIncreasing (some r ∷ es) = All (IsAbove r) es × IsIncreasing es

pub last_sequence-ge : (n : ℤ) (rs : List Record) → n ≤ℤ last_sequence n rs
unfolding last_sequence
last_sequence-ge n [] = omega arith
last_sequence-ge n (r ∷ rs) = ground (arith, last_sequence-ge n rs, last_sequence-ge r.sequence rs)

pub last_sequence-covers :
    (n : ℤ) (rs : List Record) → All (λ r. r.sequence ≤ℤ last_sequence n rs) rs
unfolding last_sequence
last_sequence-covers n [] = tt
last_sequence-covers n (r ∷ rs) = (
  ground (arith, last_sequence-ge n rs, last_sequence-ge r.sequence rs),
  last_sequence-covers (if ltb_ℤ n r.sequence then r.sequence else n) rs,
)

pub all_read-All :
    (n : ℤ) (rs : List Record) → All (λ r. r.sequence ≤ℤ n) rs → All (IsUpTo n) (all_read rs)
all_read-All n [] h = tt
all_read-All n (r ∷ rs) (h, hs) = (h, all_read-All n rs hs)

pub IsUpTo-IsBelow :
    (m n : ℤ) → m <ℤ n → (es : List (Option Record)) → All (IsUpTo m) es → All (IsBelow n) es
IsUpTo-IsBelow m n h [] k = tt
IsUpTo-IsBelow m n h (none ∷ es) (k, ks) = (tt, IsUpTo-IsBelow m n h es ks)
IsUpTo-IsBelow m n h (some r ∷ es) (k, ks) = (omega arith, IsUpTo-IsBelow m n h es ks)

pub IsBelow-IsUpTo : (n : ℤ) (es : List (Option Record)) → All (IsBelow n) es → All (IsUpTo n) es
IsBelow-IsUpTo n [] k = tt
IsBelow-IsUpTo n (none ∷ es) (k, ks) = (tt, IsBelow-IsUpTo n es ks)
IsBelow-IsUpTo n (some r ∷ es) (k, ks) = (omega arith, IsBelow-IsUpTo n es ks)

pub IsIncreasing-concat :
    (es : List (Option Record)) (s : Record)
    → IsIncreasing es
    → All (IsBelow s.sequence) es
    → IsIncreasing (es ++ some s ∷ [])
IsIncreasing-concat [] s h k = (tt, tt)
IsIncreasing-concat (none ∷ es) s h (k, ks) = IsIncreasing-concat es s h ks
IsIncreasing-concat (some r ∷ es) s (h, hs) (k, ks) =
    (All-append _ es (some s ∷ []) h (k, tt), IsIncreasing-concat es s hs ks)

pub IsIncreasing-torn :
    (es : List (Option Record)) → IsIncreasing es → IsIncreasing (es ++ none ∷ [])
IsIncreasing-torn [] h = tt
IsIncreasing-torn (none ∷ es) h = IsIncreasing-torn es h
IsIncreasing-torn (some r ∷ es) (h, hs) =
    (All-append _ es (none ∷ []) h (tt, tt), IsIncreasing-torn es hs)
