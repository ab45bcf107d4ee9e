-- ===== src/Bgp/AsPaths/Real.antt =====
-- `startrealaspath_r` (src/bgp.c) on an update message whose offset table is filled.
use isocore.Base.{
  ℕ, ◌+◌, ◌*◌, ◌≡◌, ◌≢◌, refl, ap, ◌∙◌, arith, Bool, true, false, not, ◌||◌, ◌==◌, List, Option,
  none, some, get_elem?, if◌then◌else◌,
}
use isocore.Base.Bytes.{read_bytes, from_big}
use isocore.Bgp.{
  Msg, enoerr, Alloc, step, gets, return, ◌>>=◌, access-some, given_some, if_true, if_false,
  bgp_update, type_offset,
}
use isocore.Bgp.Pending.{has_pending}
use isocore.Bgp.Inverse.Fields.{check_type_ok, endpending_none}
use isocore.Bgp.Attribs.{seekbgpattr, attr_code_index, offset_not_found, is_extended}
use isocore.Bgp.MpAttr.{value_of}
use isocore.Bgp.AsPaths.{
  as_path_code, aggregator_code, as4_path_code, as4_aggregator_code, as_trans, fresh_path,
  as_size_of, getbgpas4path_r, assert_code, getaspath, getaggregatoras, place_path, ignores_as4,
  merge_paths, startrealaspath_r,
}
use isocore.Bgp.AsPaths.Count.{Segments, merged, merge_paths_lem}

-- An attribute at an offset of the packet: its code, the offset of its value and the value's length.
pub data Attr (buf : List ℕ) (at code : ℕ) : ℕ → ℕ → Type 0 where
  short_length :
      {flags low : ℕ}
      → get_elem? buf at ≡ some flags
      → is_extended flags ≡ false
      → get_elem? buf (at + 1) ≡ some code
      → get_elem? buf (at + 2) ≡ some low
      → Attr buf at code (at + 3) low
  extended_length :
      {flags low next : ℕ}
      → get_elem? buf at ≡ some flags
      → is_extended flags ≡ true
      → get_elem? buf (at + 1) ≡ some code
      → get_elem? buf (at + 2) ≡ some low
      → get_elem? buf (at + 3) ≡ some next
      → Attr buf at code (at + 4) (low * 256 + next)

value_of_lem :
    (m : Msg) (at code ptr len : ℕ)
    → Attr m.buf at code ptr len
    → value_of at m ≡ some ((ptr, len), m)
value_of_lem m at code ptr len (short_length {flags} f short c l) =
    step _ (access-some (λ m. get_elem? m.buf at) m f) (
      step _ (access-some (λ m. get_elem? m.buf (at + 2)) m l)
        (if_false (is_extended flags) _ _ m short refl))
value_of_lem m at code ptr len (extended_length {flags} f long c l n) =
    step _ (access-some (λ m. get_elem? m.buf at) m f) (
      step _ (access-some (λ m. get_elem? m.buf (at + 2)) m l) (
        if_true (is_extended flags) _ _ m long
          (step _ (access-some (λ m. get_elem? m.buf (at + 3)) m n) refl)))

Attr-code :
    (buf : List ℕ) (at code ptr len : ℕ)
    → Attr buf at code ptr len
    → get_elem? buf (at + 1) ≡ some code
Attr-code buf at code ptr len (short_length f short c l) = c
Attr-code buf at code ptr len (extended_length f long c l n) = c

assert_code_lem :
    (m : Msg) (at code ptr len this that : ℕ)
    → Attr m.buf at code ptr len
    → (code == this || code == that) ≡ true
    → assert_code at this that m ≡ some (tt, m)
unfolding assert_code
assert_code_lem m at code ptr len this that a e =
    step _ (access-some (λ m. get_elem? m.buf (at + 1)) m (Attr-code m.buf at code ptr len a))
      (if_true (code == this || code == that) _ _ m e refl)

getaspath_lem :
    (m : Msg) (at code ptr len : ℕ)
    → Attr m.buf at code ptr len
    → (code == as_path_code || code == as4_path_code) ≡ true
    → getaspath at m ≡ some ((ptr, len), m)
unfolding getaspath
getaspath_lem m at code ptr len a e =
    step _ (assert_code_lem m at code ptr len as_path_code as4_path_code a e)
      (value_of_lem m at code ptr len a)

getaggregatoras_lem :
    (m : Msg) (at ptr len : ℕ) (bs : List ℕ)
    → Attr m.buf at aggregator_code ptr len
    → read_bytes m.buf ptr (if len == 8 then 4 else 2) ≡ some bs
    → getaggregatoras at m ≡ some (from_big bs 0, m)
unfolding getaggregatoras
getaggregatoras_lem m at ptr len bs a e =
    step _ (assert_code_lem m at aggregator_code ptr len aggregator_code as4_aggregator_code a refl)
      (step _ (value_of_lem m at aggregator_code ptr len a)
        (step _ (access-some (λ m. read_bytes m.buf ptr (if len == 8 then 4 else 2)) m e) refl))

-- What an entry of the offset table stands for.
abbrev found : ℕ → Option ℕ
found off = if off == offset_not_found then none else some off

-- An update message that is read, without an error.
pub record IsRead (m : Msg) : Type 0 where
  pub live : m.err ≡ enoerr
  pub update : get_elem? m.buf type_offset ≡ some bgp_update
  pub rd : m.flags.rd ≡ true

-- An entry of the table that is set is what the search returns.
seekbgpattr_lem :
    (alloc : Alloc) (m : Msg) (code idx off : ℕ)
    → IsRead m
    → attr_code_index code ≡ some (some idx)
    → get_elem? m.offtab idx ≡ some off
    → off ≢ 0
    → seekbgpattr alloc code m ≡ some (found off, m)
unfolding seekbgpattr
seekbgpattr_lem alloc m code idx off reads notable entry set =
    check_type_ok bgp_update (λ f. f.rd) _ _ m reads.update reads.rd reads.live
      (step _ (given_some (attr_code_index code) m notable) (
        step _ refl (
          step _ (access-some (λ m. get_elem? m.offtab idx) m entry) (
            step _ (if_false (off == 0) _ _ m (ground (arith, set)) refl)
              (step _ (access-some (λ m. get_elem? m.offtab idx) m entry) refl)))))

found_set : (off : ℕ) → off ≢ offset_not_found → found off ≡ some off
found_set off h = let other : (off == offset_not_found) ≡ false = ground (arith, h) in rw other

seek_there :
    (alloc : Alloc) (m : Msg) (code idx off : ℕ)
    → IsRead m
    → attr_code_index code ≡ some (some idx)
    → get_elem? m.offtab idx ≡ some off
    → (off ≢ 0) × (off ≢ offset_not_found)
    → seekbgpattr alloc code m ≡ some (some off, m)
seek_there alloc m code idx off reads notable entry there =
    seekbgpattr_lem alloc m code idx off reads notable entry there.0
    ∙ ap (λ o. some (o, m)) (found_set off there.1)

-- What the entries of AGGREGATOR and AS4_AGGREGATOR say: whether AS4_PATH is to be used. It is not where both
-- attributes are there and the AS of the first is not AS_TRANS.
pub data Aggregators (buf : List ℕ) : ℕ → ℕ → Bool → Type 0 where
  no_aggregator : {aggr4 : ℕ} → Aggregators buf offset_not_found aggr4 true
  no_as4_aggregator : {aggr : ℕ} → Aggregators buf aggr offset_not_found true
  both_there :
      {aggr aggr4 ptr len : ℕ} {bs : List ℕ}
      → aggr ≢ offset_not_found
      → aggr4 ≢ offset_not_found
      → Attr buf aggr aggregator_code ptr len
      → read_bytes buf ptr (if len == 8 then 4 else 2) ≡ some bs
      → Aggregators buf aggr aggr4 (from_big bs 0 == as_trans)

ignores_as4-no_as4 : (m : Msg) (o : Option ℕ) → ignores_as4 o none m ≡ some (false, m)
unfolding ignores_as4
ignores_as4-no_as4 m none = refl
ignores_as4-no_as4 m (some aggr) = refl

ignores_as4_lem :
    (m : Msg) (aggr aggr4 : ℕ) (used : Bool)
    → Aggregators m.buf aggr aggr4 used
    → ignores_as4 (found aggr) (found aggr4) m ≡ some (not used, m)
unfolding ignores_as4
ignores_as4_lem m aggr aggr4 used no_aggregator = refl
ignores_as4_lem m aggr aggr4 used no_as4_aggregator = ignores_as4-no_as4 m (found aggr)
ignores_as4_lem m aggr aggr4 used (both_there {ptr = ptr} {len = len} {bs = bs} h h4 a e) =
    rw (found_set aggr h, found_set aggr4 h4)
      (step _ (getaggregatoras_lem m aggr ptr len bs a e) refl)

-- The entries of the offset table for the attributes that `startrealaspath_r` looks at.
pub record Table (m : Msg) (at aggr aggr4 at4 : ℕ) : Type 0 where
  pub as_path : get_elem? m.offtab 0 ≡ some at
  pub aggregator : get_elem? m.offtab 3 ≡ some aggr
  pub as4_aggregator : get_elem? m.offtab 10 ≡ some aggr4
  pub as4_path : get_elem? m.offtab 9 ≡ some at4
  pub has_as_path : (at ≢ 0) × (at ≢ offset_not_found)
  pub set_aggregator : aggr ≢ 0
  pub set_as4_aggregator : aggr4 ≢ 0
  pub has_as4_path : (at4 ≢ 0) × (at4 ≢ offset_not_found)

-- The message with an iteration over AS_PATH.
abbrev pub on_as_path : Msg → ℕ → ℕ → Msg
on_as_path m ptr len = record m {
  flags = record m.flags { aspath = true };
  path = record (fresh_path 2 m.path) { asptr = ptr; asend = ptr + len };
}

module _ (alloc : Alloc) (m : Msg) (at aggr aggr4 at4 ptr len ptr4 len4 ascount as4count : ℕ)
    (reads : IsRead m) (table : Table m at aggr aggr4 at4)
    (path : Attr m.buf at as_path_code ptr len) (path4 : Attr m.buf at4 as4_path_code ptr4 len4)
    (old : Segments 2 m.buf ptr (ptr + len) ascount)
    (new : Segments 4 m.buf ptr4 (ptr4 + len4) as4count) where
  abbrev opened : Msg
  opened = record m { flags = record m.flags { aspath = true } }

  abbrev fresh : Msg
  fresh = record opened { path = fresh_path 2 m.path }

  abbrev started : Msg
  started = on_as_path m ptr len

  -- What `startrealaspath_r` leaves, where AS4_PATH is used and where it is not.
  abbrev pub started_real : Bool → Msg
  started_real used = if used then merged started ptr4 (ptr4 + len4) ascount as4count else started

  on_started : IsRead started
  on_started = record { live = reads.live; update = reads.update; rd = reads.rd }

  placed : place_path (some at) fresh ≡ some (tt, started)
  unfolding place_path
  placed = step _ (getaspath_lem fresh at as_path_code ptr len path refl) refl

  merge_if_used :
      (used : Bool)
      → (if not used then return enoerr else (do
        as4p ← getbgpas4path_r alloc
        elim as4p [ none ↦ return enoerr | some at4 ↦ merge_paths at4 ]))
          started
        ≡ some (enoerr, started_real used)
  unfolding attr_code_index
  merge_if_used false = refl
  merge_if_used true =
      step _
        (seek_there alloc started as4_path_code 9 at4 on_started refl table.as4_path
          table.has_as4_path)
        (merge_paths_lem started at4 ptr4 len4 ascount as4count
          (getaspath_lem started at4 as4_path_code ptr4 len4 path4 refl) old new)

  -- On an update message that is read, without an error, with 2-byte ASes and no field open, whose offset
  -- table has the places of an AS_PATH and an AS4_PATH of whole segments, and for AGGREGATOR and
  -- AS4_AGGREGATOR their places or that they are not there: `startrealaspath_r` reports no error and starts
  -- an iteration over AS_PATH. The iteration is to turn to AS4_PATH after as many ASes as AS_PATH has more
  -- than AS4_PATH, a set counted as one; it stays on AS_PATH where AS_PATH has fewer, and where both
  -- aggregators are there and the AS of the first is not AS_TRANS.
  pub startrealaspath_r_lem :
      (used : Bool)
      → Aggregators m.buf aggr aggr4 used
      → has_pending m.flags ≡ false
      → m.flags.asn32bit ≡ false
      → startrealaspath_r alloc m ≡ some (enoerr, started_real used)
  unfolding startrealaspath_r attr_code_index
  startrealaspath_r_lem used aggregators closed two =
      check_type_ok bgp_update (λ f. f.rd) _ _ m reads.update reads.rd reads.live
        (step _ (endpending_none m closed) (
          step _ refl (
            step _ as_size (
              step _ refl (
                step _
                  (seek_there alloc fresh as_path_code 0 at on_fresh refl table.as_path
                    table.has_as_path)
                  (step _ placed (
                    step _
                      (seekbgpattr_lem alloc started aggregator_code 3 aggr on_started refl
                        table.aggregator table.set_aggregator)
                      (step _
                        (seekbgpattr_lem alloc started as4_aggregator_code 10 aggr4 on_started refl
                          table.as4_aggregator table.set_as4_aggregator)
                        (step _ (ignores_as4_lem started aggr aggr4 used aggregators)
                          (merge_if_used used))))))))))
    where
      as_size : gets as_size_of opened ≡ some (2, opened)
      as_size = rw two refl

      on_fresh : IsRead fresh
      on_fresh = record { live = reads.live; update = reads.update; rd = reads.rd }
