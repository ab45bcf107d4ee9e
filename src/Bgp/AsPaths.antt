-- ===== src/Bgp/AsPaths.antt =====
-- The iteration over AS paths (src/bgp.c): `startaspath_r`, `startas4path_r`, `startrealaspath_r` and
-- `nextaspath_r`.
pub mod Count
pub mod Loop
pub mod Iterate
pub mod Real
mod Tests
use isocore.Base.{
  ℕ, zero, suc, ◌+◌, ◌-◌, ◌*◌, ◌%◌, ◌^◌, Bool, true, false, not, ◌&&◌, ◌||◌, ltb, ◌==◌,
  if◌then◌else◌, List, Option, none, some, get_elem?,
}
use isocore.Base.Bytes.{read_bytes, from_big}
use isocore.Bgp.{
  Msg, Flags, AsPath, Err, enoerr, ebadattr, Alloc, M, ◌>>=◌, ◌>>◌, return, access, gets, modify,
  check_flags, check_type, bgp_update,
}
use isocore.Bgp.Pending.{endpending}
use isocore.Bgp.Attribs.{seekbgpattr}
use isocore.Bgp.MpAttr.{value_of}

-- `AS_PATH_CODE`, `AGGREGATOR_CODE`, `AS4_PATH_CODE` and `AS4_AGGREGATOR_CODE`
abbrev pub as_path_code : ℕ
as_path_code = 2

abbrev pub aggregator_code : ℕ
aggregator_code = 7

abbrev pub as4_path_code : ℕ
as4_path_code = 17

abbrev pub as4_aggregator_code : ℕ
as4_aggregator_code = 18

-- `AS_SEGMENT_SET` and `AS_TRANS`
abbrev pub as_segment_set : ℕ
as_segment_set = 1

abbrev pub as_trans : ℕ
as_trans = 23456

-- `getbgpaspath_r`, `getbgpas4path_r`, `getbgpaggregator_r` and `getbgpas4aggregator_r`
abbrev pub getbgpaspath_r : Alloc → M (Option ℕ)
getbgpaspath_r alloc = seekbgpattr alloc as_path_code

abbrev pub getbgpas4path_r : Alloc → M (Option ℕ)
getbgpas4path_r alloc = seekbgpattr alloc as4_path_code

abbrev pub getbgpaggregator_r : Alloc → M (Option ℕ)
getbgpaggregator_r alloc = seekbgpattr alloc aggregator_code

abbrev pub getbgpas4aggregator_r : Alloc → M (Option ℕ)
getbgpas4aggregator_r alloc = seekbgpattr alloc as4_aggregator_code

-- `assert(attr->code == ... || attr->code == ...)`: a failed assertion is a fault.
unfoldable pub assert_code : ℕ → ℕ → ℕ → M (Unit {0})
assert_code at this that = do
  code ← access (λ m. get_elem? m.buf (at + 1))
  if code == this || code == that then return tt else (λ m. none)

-- `getaspath`: the offset of the segments, and their length.
unfoldable pub getaspath : ℕ → M (ℕ × ℕ)
getaspath at = do assert_code at as_path_code as4_path_code; value_of at

-- `getaggregatoras`: 4 bytes when the attribute has 8, and 2 otherwise.
unfoldable pub getaggregatoras : ℕ → M ℕ
getaggregatoras at = do
  assert_code at aggregator_code as4_aggregator_code
  (ptr, len) ← value_of at
  bs ← access (λ m. read_bytes m.buf ptr (if len == 8 then 4 else 2))
  return (from_big bs 0)

-- `getrealbgpaggregator_r`: AS4_AGGREGATOR, if it is there and AGGREGATOR has AS_TRANS.
unfoldable pub getrealbgpaggregator_r : Alloc → M (Option ℕ)
getrealbgpaggregator_r alloc =
    check_type bgp_update (λ f. f.rd) (λ e. none)
      do
        aggr ← getbgpaggregator_r alloc
        elim aggr [
          | none ↦ return none
          | some at ↦ (do
            number ← getaggregatoras at
            if number == as_trans
                then (do
                  aggr4 ← getbgpas4aggregator_r alloc
                  elim aggr4 [ none ↦ return (some at) | some at4 ↦ return (some at4) ])
                else return (some at))
        ]

abbrev pub set_path : (AsPath → AsPath) → Msg → Msg
set_path f m = record m { path = f m.path }

-- The fields that each iteration begins with.
abbrev pub fresh_path : ℕ → AsPath → AsPath
fresh_path as_size a = record a {
  segi = 0;
  seglen = 0;
  as_size = as_size;
  ascount = 2 ^ 16 - 1;
  segno = 2 ^ 32 - 1;
}

abbrev pub with_aspath : Msg → Msg
with_aspath m = record m { flags = record m.flags { aspath = true } }

-- `msg->asptr` and `msg->asend` from the attribute, or NULL.
unfoldable pub place_path : Option ℕ → M (Unit {0})
place_path none = modify (set_path (λ a. record a { asptr = 0; asend = 0 }))
place_path (some at) = do
  (ptr, len) ← getaspath at
  modify (set_path (λ a. record a { asptr = ptr; asend = ptr + len }))

-- `dostartaspath`
unfoldable pub dostartaspath : Option ℕ → ℕ → M Err
dostartaspath attr as_size = do
  endpending
  modify (set_path (fresh_path as_size))
  place_path attr
  modify with_aspath
  return enoerr

abbrev pub as_size_of : Msg → ℕ
as_size_of m = if m.flags.asn32bit then 4 else 2

-- `startaspath_r`
unfoldable pub startaspath_r : Alloc → M Err
startaspath_r alloc =
    check_type bgp_update (λ f. f.rd) (λ e. e)
      do as_size ← gets as_size_of; attr ← getbgpaspath_r alloc; dostartaspath attr as_size

-- `startas4path_r`
unfoldable pub startas4path_r : Alloc → M Err
startas4path_r alloc =
    check_type bgp_update (λ f. f.rd) (λ e. e) do attr ← getbgpas4path_r alloc; dostartaspath attr 4

-- The loops that count the ASes between two offsets, a set as one: where they stop, and the count.
unfoldable pub count_ases : ℕ → ℕ → ℕ → ℕ → ℕ → List ℕ → Option (ℕ × ℕ)
count_ases zero as_size ptr end count buf = none
count_ases (suc fuel) as_size ptr end count buf = elim (ltb ptr end) [
  | false ↦ some (ptr, count)
  | true ↦ elim (get_elem? buf ptr) [
    | none ↦ none
    | some type ↦ elim (get_elem? buf (ptr + 1)) [
      | none ↦ none
      | some n ↦
          count_ases fuel as_size (ptr + 2 + n * as_size) end
            (count + (if type == as_segment_set then 1 else n)) buf
    ]
  ]
]

-- The part of `startrealaspath_r` that prepares the turn to AS4_PATH.
unfoldable pub merge_paths : ℕ → M Err
merge_paths as4p = do
  ptr ← gets (λ m. m.path.asptr)
  end ← gets (λ m. m.path.asend)
  (stop, ascount) ← access (λ m. count_ases (end - ptr + 1) 2 ptr end 0 m.buf)
  if ltb end stop then bad else (do
    (ptr4, len) ← getaspath as4p
    (stop4, as4count) ← access (λ m. count_ases (len + 1) 4 ptr4 (ptr4 + len) 0 m.buf)
    if ltb (ptr4 + len) stop4
        then bad
        else (if ltb ascount as4count then return enoerr else (do
          modify (λ m. record m {
            path = record m.path {
              as4ptr = ptr4;
              as4end = ptr4 + len;
              ascount = (ascount - as4count) % 2 ^ 16;
            };
            flags = record m.flags { realaspath = true };
          })
          return enoerr)))
  where
    bad : M Err
    bad = do modify (λ m. record m { err = ebadattr }); return ebadattr

-- Whether AGGREGATOR and AS4_AGGREGATOR are there and the first is not AS_TRANS.
unfoldable pub ignores_as4 : Option ℕ → Option ℕ → M Bool
ignores_as4 none aggr4 = return false
ignores_as4 (some aggr) none = return false
ignores_as4 (some aggr) (some aggr4) = do
  number ← getaggregatoras aggr
  return (not (number == as_trans))

-- `startrealaspath_r`
unfoldable pub startrealaspath_r : Alloc → M Err
startrealaspath_r alloc =
    check_type bgp_update (λ f. f.rd) (λ e. e)
      do
        endpending
        modify with_aspath
        as_size ← gets as_size_of
        modify (set_path (fresh_path as_size))
        asp ← getbgpaspath_r alloc
        place_path asp
        elim asp [
          | none ↦ return enoerr
          | some at ↦ if as_size == 4 then return enoerr else (do
            aggr ← getbgpaggregator_r alloc
            aggr4 ← getbgpas4aggregator_r alloc
            ignored ← ignores_as4 aggr aggr4
            if ignored then return enoerr else (do
              as4p ← getbgpas4path_r alloc
              elim as4p [ none ↦ return enoerr | some at4 ↦ merge_paths at4 ]))
        ]

-- What the loop of `nextaspath_r` ends with: the end of the path, or an AS to read.
pub data Segment : Type 0 where
  path_end in_segment : Segment

-- `while (msg->segi == msg->seglen)`
unfoldable pub next_segment : ℕ → M Segment
next_segment zero m = none
next_segment (suc fuel) m = elim (m.path.segi == m.path.seglen) [
  | false ↦ some (in_segment, m)
  | true ↦ elim (m.path.asptr == m.path.asend) [
    | true ↦ some (path_end, m)
    | false ↦ elim (ltb m.path.asend (m.path.asptr + 2)) [
      | true ↦ some (path_end, record m { err = ebadattr })
      | false ↦ elim (get_elem? m.buf m.path.asptr) [
        | none ↦ none
        | some type ↦ elim (get_elem? m.buf (m.path.asptr + 1)) [
          | none ↦ none
          | some seglen ↦ next_segment fuel (record m {
            path = record m.path {
              asptr = m.path.asptr + 2;
              type = type;
              seglen = seglen;
              segi = 0;
              segno = (m.path.segno + 1) % 2 ^ 32;
            };
          })
        ]
      ]
    ]
  ]
]

-- The AS at `asptr`, which is not compared with `asend`. A size other than 2 and 4, which the source asserts
-- not to occur, is read here too.
unfoldable pub read_as : M (Unit {0})
read_as = do
  ptr ← gets (λ m. m.path.asptr)
  size ← gets (λ m. m.path.as_size)
  bs ← access (λ m. read_bytes m.buf ptr size)
  modify (
      set_path (λ a. record a {
        as_number = from_big bs 0;
        asptr = a.asptr + size;
        segi = (a.segi + 1) % 256;
      }))

-- The count of the ASes that come from AS_PATH goes down, but within a set.
abbrev pub count_down : AsPath → AsPath
count_down a = record a {
  ascount =
      (a.ascount + 2 ^ 16 - (if not (a.type == as_segment_set) || a.segi == 1 then 1 else 0))
      % 2 ^ 16;
}

-- The turn to AS4_PATH.
abbrev pub commute : Msg → Msg
commute m = record m {
  path = record m.path {
    asptr = m.path.as4ptr;
    asend = m.path.as4end;
    as_size = 4;
    seglen = 0;
    segi = 0;
    ascount = 2 ^ 16 - 1;
  };
  flags = record m.flags { realaspath = false };
}

-- `nextaspath_r`: the entry, or NULL. It calls itself at the turn to AS4_PATH, at most once; `calls` is
-- the number of the calls that there may be.
unfoldable pub nextaspath_at : ℕ → M (Option AsPath)
nextaspath_at zero = λ m. none
nextaspath_at (suc calls) =
    check_flags (λ f. f.aspath) (λ _. none)
      do
        ptr ← gets (λ m. m.path.asptr)
        end ← gets (λ m. m.path.asend)
        segment ← next_segment (end - ptr + 2)
        elim segment [
          | path_end ↦ return none
          | in_segment ↦ (do
            read_as
            count ← gets (λ m. m.path.ascount)
            if count == 0
                then (do modify commute; nextaspath_at calls)
                else (do modify (set_path count_down); gets (λ m. some m.path)))
        ]

unfoldable pub nextaspath_r : M (Option AsPath)
nextaspath_r = nextaspath_at 2
