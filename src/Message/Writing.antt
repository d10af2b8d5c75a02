-- ===== src/Message/Writing.antt =====
-- What pkg/message/message.go promises of the sequence numbers that its logger writes, and of the
-- records that it makes.
use inferno_sim.Prelude.Int.{
  ℤ, pos, ◌≤ℤ◌, ◌<ℤ◌, pos_part, max_int64, succ64, succ64-next, pos_part-succ64,
}
use inferno_sim.Prelude.Sort.{sort_stable, sort_stable-All_back}
use inferno_sim.Message.Reading.{load-ok_iff}
use inferno_sim.Message.Numbers.{
  last_sequence-ge, last_sequence-covers, all_read-All, IsUpTo-IsBelow, IsBelow-IsUpTo,
  IsIncreasing-concat, IsIncreasing-torn, IsUpTo, IsBelow, IsIncreasing,
}
use mathlib.Core.List.{append-nil}
use inferno_sim.Prelude.{
  none, some, suc, ◌∙◌, ℕ, ◌+◌, ◌≤◌, ◌<◌, String, ◌≡◌, refl, sym, subst, ◌≢◌, ◌⊎◌, inl, inr, Bool,
  true, false, Option, List, [], ◌∷◌, ◌++◌, arith, eq_iff, eq_refl,
}
use inferno_sim.Prelude.Lists.{length, All, All-append}
use inferno_sim.Prelude.Result.{Result, ok, err, >>=-eq-ok}
use inferno_sim.Prelude.Text.{is_blank}
use inferno_sim.Codec.{Codec}
use inferno_sim.Message.{
  Record, BinaryHeader, Error, Logger, WriteError, Disk, written, not_encoded, failed, Leftover,
  nothing, torn, whole, store, left_entries, io_error, invalid, record_less, format_version,
  decode_field, key, payload, decode_headers, header_values, header_map, validate, commit, load,
  last_sequence, new_logger, stamp, write, encode_headers, new_with_headers,
}

-- The counter is at least every number in the file.
abbrev pub IsCovered : Logger → Type 0
IsCovered l = All (IsUpTo l.sequence) l.file

-- The counter can go on by so many calls before it wraps.
abbrev pub HasRoom : ℕ → Logger → Type 0
HasRoom n l = pos_part l.sequence + n ≤ max_int64

-- A logger opened on an existing file starts at or above every sequence number in it, and not
-- below zero.
pub new_logger-IsCovered :
    (c : Codec) (entries : List (Option Record)) (l : Logger)
    → new_logger c entries ≡ ok l
    → (l.file ≡ entries) × (pos 0 ≤ℤ l.sequence) × IsCovered l
unfolding new_logger
new_logger-IsCovered c entries l h =
    let (existing, loaded, e) = >>=-eq-ok (load c entries) _ h in
    let (rs, all, sorted, _, _) = (load-ok_iff c entries existing).0 loaded in
    let n = last_sequence (pos 0) existing in
    let covers : All (λ r. r.sequence ≤ℤ n) (sort_stable record_less rs) =
      subst (λ (l : List Record). All (λ r. r.sequence ≤ℤ n) l) sorted
        (last_sequence-covers (pos 0) existing) in
    subst (λ (k : Logger). (k.file ≡ entries) × (pos 0 ≤ℤ k.sequence) × IsCovered k) (ok_inj e)
      (
        refl,
        last_sequence-ge (pos 0) existing,
        subst (All (IsUpTo n)) (sym all)
            (all_read-All n rs (sort_stable-All_back record_less _ rs covers)),
      )
  where
    ok_inj : {a b : Logger} → ◌≡◌ {A = Result Error Logger} (ok a) (ok b) → a ≡ b
    ok_inj p = cc

-- What a call may leave of a record behind the file where the writer fails under it.
abbrev Remains : Record → List (Option Record) → Type 0
Remains s es = (es ≡ []) ⊎ (es ≡ none ∷ []) ⊎ (es ≡ some s ∷ [])

-- Why a call changes nothing but the counter.
abbrev Hindered : Codec → Disk → Record → Logger → Type 0
Hindered c disk s l = (validate c s ≢ ok tt) ⊎ (l.broken ≡ true) ⊎ (disk ≡ not_encoded)

abbrev pub Written : Codec → Disk → Record → Logger → Logger → Result WriteError (Unit {0}) → Type 0
Written c disk s l l' result =
    (l.sequence <ℤ s.sequence)
    × (l'.sequence ≡ s.sequence)
    × All (IsBelow s.sequence) l.file
    × IsCovered l'
    × ((disk ≡ written)
          × (validate c s ≡ ok tt)
          × (l.broken ≡ false)
          × (l'.broken ≡ false)
          × (l'.file ≡ l.file ++ some s ∷ [])
          × (result ≡ ok tt)
        ⊎ (Hindered c disk s l × (l'.file ≡ l.file) × (l'.broken ≡ l.broken) × (result ≢ ok tt))
        ⊎ (((left : Leftover) × (disk ≡ failed left))
            × (validate c s ≡ ok tt)
            × (l.broken ≡ false)
            × (l'.broken ≡ true)
            × ((es : List (Option Record)) × (l'.file ≡ l.file ++ es) × Remains s es)
            × (result ≢ ok tt)))

succ64-gt : (z : ℤ) → pos_part z < max_int64 → z <ℤ succ64 z
succ64-gt z h = omega (arith, succ64-next z h)

module _ (c : Codec) (l : Logger) (s : Record) (above : l.sequence <ℤ s.sequence)
    (below : All (IsBelow s.sequence) l.file) where
  unchanged :
      (disk : Disk) (result : Result WriteError (Unit {0}))
      → Hindered c disk s l
      → result ≢ ok tt
      → Written c disk s l (record l { sequence = s.sequence }) result
  unchanged disk result why h =
      (above, refl, below, IsBelow-IsUpTo s.sequence l.file below, inr (inl (why, refl, refl, h)))

  covered_with :
      (es : List (Option Record))
      → All (IsUpTo s.sequence) es
      → All (IsUpTo s.sequence) (l.file ++ es)
  covered_with es h = All-append _ l.file es (IsBelow-IsUpTo s.sequence l.file below) h

  left_lem :
      (left : Leftover)
      → All (IsUpTo s.sequence) (left_entries left s) × Remains s (left_entries left s)
  left_lem nothing = (tt, inl refl)
  left_lem torn = ((tt, tt), inr (inl refl))
  left_lem whole = ((omega arith, tt), inr (inr refl))

  store_lem :
      (disk : Disk) (broken : Bool)
      → validate c s ≡ ok tt
      → l.broken ≡ broken
      → let r = store disk broken (record l { sequence = s.sequence }) s in
        Written c disk s l r.0 r.1
  unfolding store
  store_lem written false p q = (
    above,
    refl,
    below,
    covered_with (some s ∷ []) (omega arith, tt),
    inl (refl, p, q, q, refl, refl),
  )
  store_lem not_encoded false p q = unchanged not_encoded (err io_error) (inr (inr refl)) (λ b. cc)
  store_lem (failed left) false p q =
      let (covered, remains) = left_lem left in
      (
        above,
        refl,
        below,
        covered_with (left_entries left s) covered,
        inr (inr ((left, refl), p, q, refl, (left_entries left s, refl, remains), λ b. cc)),
      )
  store_lem written true p q = unchanged written (err io_error) (inr (inl q)) (λ b. cc)
  store_lem not_encoded true p q = unchanged not_encoded (err io_error) (inr (inl q)) (λ b. cc)
  store_lem (failed left) true p q = unchanged (failed left) (err io_error) (inr (inl q)) (λ b. cc)

  commit_lem :
      (v : Result Error (Unit {0})) (disk : Disk)
      → validate c s ≡ v
      → Written c disk s l (commit v disk l s).0 (commit v disk l s).1
  unfolding commit
  commit_lem (err e) disk p = unchanged disk (err (invalid e)) (inl (λ b. cc)) (λ b. cc)
  commit_lem (ok t) disk p = store_lem disk l.broken p refl

-- Where the counter has room and covers the file, a call of `Write` moves the counter on to a number
-- above all in the file, and does one of three things. It succeeds: then the line is written, the
-- record is valid, the writer has not failed, and exactly the record is added. It fails and leaves the
-- file and the writer as they were, since the record is invalid, the writer has failed before, or the
-- line cannot be encoded. Or the writer fails under a valid record: then nothing, a part of a line or
-- the whole record is added, and the writer has failed from there on.
pub write_lem :
    (c : Codec) (disk : Disk) (l : Logger) (r : Record)
    → HasRoom 1 l
    → IsCovered l
    → Written c disk (stamp l r) l (write c disk l r).0 (write c disk l r).1
unfolding write stamp
write_lem c disk l r room h =
    let above : l.sequence <ℤ succ64 l.sequence = succ64-gt l.sequence (omega arith) in
    commit_lem c l (stamp l r) above (IsUpTo-IsBelow _ _ above l.file h) _ disk refl

-- A run of calls of `Write`.
unfoldable pub write_all : Codec → Logger → List (Disk × Record) → Logger
write_all c l [] = l
write_all c l ((disk, r) ∷ rs) = write_all c (write c disk l r).0 rs

Written-IsIncreasing :
    (c : Codec) (disk : Disk) (s : Record) (l l' : Logger) (result : Result WriteError (Unit {0}))
    → IsIncreasing l.file
    → Written c disk s l l' result
    → IsIncreasing l'.file
Written-IsIncreasing c disk s l l' result g (_, _, below, _, inl (_, _, _, _, e, _)) =
    subst IsIncreasing (sym e) (IsIncreasing-concat l.file s g below)
Written-IsIncreasing c disk s l l' result g (_, _, below, _, inr (inl (_, e, _, _))) =
    subst IsIncreasing (sym e) g
Written-IsIncreasing c disk s l l' result g
      (_, _, below, _, inr (inr (_, _, _, _, (es, e, left), _))) =
    subst IsIncreasing (sym e) (elim left [
      | inl n ↦
          subst (λ (x : List (Option Record)). IsIncreasing (l.file ++ x)) (sym n)
            (subst IsIncreasing (sym (append-nil l.file)) g)
      | inr (inl n) ↦
          subst (λ (x : List (Option Record)). IsIncreasing (l.file ++ x)) (sym n)
            (IsIncreasing-torn l.file g)
      | inr (inr n) ↦
          subst (λ (x : List (Option Record)). IsIncreasing (l.file ++ x)) (sym n)
            (IsIncreasing-concat l.file s g below)
    ])

room_left :
    (k : ℕ) (l l' : Logger) → HasRoom (suc k) l → l'.sequence ≡ succ64 l.sequence → HasRoom k l'
room_left k l l' h e = rw e (omega (arith, pos_part-succ64 l.sequence (omega arith)))

-- Whatever calls of `Write` are made, whichever of them fail and whatever a failed one leaves, the
-- sequence numbers of the records in the file grow strictly, if they did at the start, the counter
-- covered them, and it has room for the number of calls.
pub write_all-IsIncreasing :
    (c : Codec) (l : Logger) (calls : List (Disk × Record))
    → HasRoom (length calls) l
    → IsCovered l
    → IsIncreasing l.file
    → IsIncreasing (write_all c l calls).file
unfolding write_all
write_all-IsIncreasing c l [] room h g = g
write_all-IsIncreasing c l ((disk, r) ∷ calls) room h g =
    let w = write_lem c disk l r (omega arith) h in
    let (_, n, _, covered, _) = w in
    write_all-IsIncreasing c (write c disk l r).0 calls
      (room_left (length calls) l (write c disk l r).0 room (n ∙ stamped)) covered
      (Written-IsIncreasing c disk (stamp l r) l (write c disk l r).0 (write c disk l r).1 g w)
  where
    stamped : (stamp l r).sequence ≡ succ64 l.sequence
    stamped = unfold stamp in refl

-- Header names that `HeaderValues` accepts.
abbrev pub HasNames : List BinaryHeader → Type 0
HasNames = All (λ h. is_blank h.key ≡ false)

module _ (c : Codec) where
  decode-encode_field : (name value : String) → decode_field c name (c.encode value) ≡ ok value
  unfolding decode_field
  decode-encode_field name value = rw (c.decode-encode value, decode_field)

  decode-encode_headers :
      (hs : List BinaryHeader) → HasNames hs → decode_headers c (encode_headers c hs) ≡ ok hs
  unfolding decode_headers encode_headers
  decode-encode_headers [] h = refl
  decode-encode_headers (x ∷ hs) (p, h) =
      rw (p, decode-encode_field x.key x.value, decode-encode_headers hs h)

  pub decode_payload :
      (r : Record) (body : String)
      → r.payload_b64 ≡ c.encode body
      → r.payload_sha256 ≡ c.sha256 body
      → payload c r ≡ ok body
  unfolding payload
  decode_payload r body p q =
      rw (p, decode-encode_field "payload" body, q) (ground (arith, eq_refl (c.sha256 body)))

  validate_of_parts :
      (r : Record) (k body : String) (hs : List BinaryHeader)
      → r.version ≡ format_version
      → r.id ≢ ""
      → r.topic ≢ ""
      → 0 < r.timestamp
      → r.direction ≡ ""
      → key c r ≡ ok k
      → payload c r ≡ ok body
      → header_values c r ≡ ok hs
      → validate c r ≡ ok tt
  unfolding validate header_map
  validate_of_parts r k body hs v i t n d p q h =
      ground (arith, eq_iff r.id "", eq_iff r.topic "", eq_iff r.direction "")

  -- A record that `NewWithHeaders` makes gives back its key, its payload and its headers, and it
  -- passes `Validate` if it has an id, a topic and a time. The header names must not be blank.
  pub new_with_headers_lem :
      (id topic k body : String) (now : ℕ) (hs : List BinaryHeader)
      → HasNames hs
      → id ≢ ""
      → topic ≢ ""
      → 0 < now
      → let r = new_with_headers c id now topic k body hs in
        (key c r ≡ ok k)
        × (payload c r ≡ ok body)
        × (header_values c r ≡ ok hs)
        × (validate c r ≡ ok tt)
  unfolding new_with_headers
  new_with_headers_lem id topic k body now hs named h1 h2 h3 =
      let r : Record = new_with_headers c id now topic k body hs in
      let e1 : key c r ≡ ok k = unfold key in decode-encode_field "key" k in
      let e2 : payload c r ≡ ok body = decode_payload r body refl refl in
      let e3 : header_values c r ≡ ok hs = unfold header_values in decode-encode_headers hs named in
      (e1, e2, e3, validate_of_parts r k body hs refl h1 h2 h3 refl e1 e2 e3)
