-- ===== src/Bgp/Attribs.antt =====
-- The path attributes of an update message (src/bgp.c): iteration, writing, and the search for one
-- attribute through the offset table.
use isocore.Base.{
  ℕ, zero, suc, ◌+◌, ◌-◌, ◌*◌, ◌/◌, ◌%◌, Bool, true, false, ltb, leb, ◌==◌, if◌then◌else◌, List,
  Option, none, some, get_elem?, get_or, set, map,
}
use isocore.Base.Bytes.{read_bytes}
use isocore.Bgp.{
  Err, enoerr, ebadattr, is_ok, Alloc, M, ◌>>=◌, ◌>>◌, return, access, gets, modify, check_flags,
  check_type, any_flags, bgp_update,
}
use isocore.Bgp.Fields.{store, getbgpattribs_r}
use isocore.Bgp.Pending.{endpending, endbgpattribs_r, bgppreserve, uptr_of}

-- `startbgpattribs_r`
unfoldable pub startbgpattribs_r : Alloc → M Err
startbgpattribs_r alloc =
    check_type bgp_update any_flags (λ e. e)
      do
        endpending
        f ← getbgpattribs_r
        (ptr, n) ← access (λ _. f)
        wr ← gets (λ m. m.flags.wr)
        e ←
            if wr
            then (do
              e ← bgppreserve alloc (ptr + n)
              if is_ok e
                  then (do
                    modify (λ m. record m { pktlen = (m.pktlen + 65536 - n % 65536) % 65536 })
                    return enoerr)
                  else return e)
            else return enoerr
        if is_ok e
            then (do
              modify λ m. record m {
                uptr = ptr;
                ustart = ptr;
                uend = ptr + n;
                moved = false;
                flags = record m.flags { pattr = true };
              }
              return enoerr)
            else gets (λ m. m.err)

-- `attr->flags & ATTR_EXTENDED_LENGTH`
abbrev pub is_extended : ℕ → Bool
is_extended flags = flags / 16 % 2 == 1

-- `putbgpattrib_r`; the attribute is the bytes that `attr` points to. There is no `bgpensure`.
unfoldable pub putbgpattrib_r : List ℕ → M Err
putbgpattrib_r attr =
    check_flags (λ f. if f.wr then f.pattr else false) (λ e. e)
      do
        flags ← access (λ _. get_elem? attr 0)
        low ← access (λ _. get_elem? attr 2)
        len ←
            if is_extended flags
            then (do next ← access (λ _. get_elem? attr 3); return (low * 256 + next + 4))
            else return (low + 3)
        bs ← access (λ _. read_bytes attr 0 len)
        uptr ← access uptr_of
        store uptr bs
        modify (λ m. record m { uptr = uptr + len; pktlen = (m.pktlen + len) % 65536 })
        return enoerr

-- `attr_code_index`, less its bias: the entry of `offtab` for a notable attribute. `none` is a read
-- past the 255 entries of the table.
unfoldable pub attr_code_index : ℕ → Option (Option ℕ)
attr_code_index code =
    if leb 255 code
    then none
    else some (
        if code == 2
        then some 0
        else (if code == 1
            then some 1
            else (if code == 6
                then some 2
                else (if code == 7
                    then some 3
                    else (if code == 3
                        then some 4
                        else (if code == 8
                            then some 5
                            else (if code == 14
                                then some 6
                                else (if code == 15
                                    then some 7
                                    else (if code == 16
                                        then some 8
                                        else (if code == 17
                                            then some 9
                                            else (if code == 18
                                                then some 10
                                                else (if code == 32
                                                    then some 11
                                                    else none))))))))))))

-- The entry in `offtab` is set for a notable attribute.
abbrev note_offset : ℕ → ℕ → M (Unit {0})
note_offset code at = do
  idx ← access (λ _. attr_code_index code)
  modify λ m. elim idx [ none ↦ m | some i ↦ record m { offtab = set m.offtab i (at % 65536) } ]

-- `msg->err = BGP_EBADATTR; return NULL;`
abbrev pub bad_attr : M (Option ℕ)
bad_attr = do modify (λ m. record m { err = ebadattr }); return none

-- The last part of `nextbgpattrib_r`: `uptr` is past the header, which stands at `at`.
unfoldable pub skip_value : ℕ → ℕ → ℕ → M (Option ℕ)
skip_value at after len = do
  modify (λ m. record m { uptr = after })
  uend ← gets (λ m. m.uend)
  if ltb uend (after + len) then bad_attr else (do
    modify (λ m. record m { uptr = after + len })
    code ← access (λ m. get_elem? m.buf (at + 1))
    note_offset code at
    return (some at))

-- `nextbgpattrib_r`: the offset of the next attribute, or NULL.
unfoldable pub nextbgpattrib_r : M (Option ℕ)
nextbgpattrib_r =
    check_flags (λ f. if f.rd then f.pattr else false) (λ _. none)
      do
        at ← access uptr_of
        uend ← gets (λ m. m.uend)
        if at == uend
            then return none
            else (if ltb uend (at + 3) then bad_attr else (do
              low ← access (λ m. get_elem? m.buf (at + 2))
              flags ← access (λ m. get_elem? m.buf at)
              if is_extended flags
                  then (if ltb uend (at + 4) then bad_attr else (do
                    next ← access (λ m. get_elem? m.buf (at + 3))
                    skip_value at (at + 4) (low * 256 + next)))
                  else skip_value at (at + 3) low))

-- The loop of `seekbgpattr`, on fuel: iterates up to an attribute with the code.
unfoldable pub seek_loop : ℕ → ℕ → M (Unit {0})
seek_loop zero code m = none
seek_loop (suc fuel) code m = elim (nextbgpattrib_r m) [
  | none ↦ none
  | some (none, m') ↦ some (tt, m')
  | some (some at, m') ↦ elim (get_elem? m'.buf (at + 1)) [
    | none ↦ none
    | some c ↦ elim (c == code) [ true ↦ some (tt, m') | false ↦ seek_loop fuel code m' ]
  ]
]

abbrev pub offset_not_found : ℕ
offset_not_found = 65535

-- The entries that are still 0 after a full iteration.
abbrev remap : List ℕ → List ℕ
remap = map (λ off. if off == 0 then offset_not_found else off)

-- `seekbgpattr`, up to the final lookup: iterates, restores the iterator of the caller (unless the
-- iteration ended in an error) and fills the table. The result says whether to go on.
unfoldable pub seek_fill : Alloc → ℕ → ℕ → M Bool
seek_fill alloc code idx = do
  saved ← gets (λ m. m)
  startbgpattribs_r alloc
  left ← gets (λ m. m.uend - m.uptr)
  seek_loop (suc left) code
  e ← endbgpattribs_r
  if is_ok e
      then (do
        modify λ m. record m {
          flags = saved.flags;
          ustart = saved.ustart;
          uptr = saved.uptr;
          uend = saved.uend;
          moved = saved.moved;
        }
        modify λ m. record m {
          offtab = if get_or m.offtab idx 0 == 0 then remap m.offtab else m.offtab;
        }
        return true)
      else return false

-- `seekbgpattr`: the offset of the attribute with the code, or NULL; `none` for a code that is not
-- notable (the assertion).
unfoldable pub seekbgpattr : Alloc → ℕ → M (Option ℕ)
seekbgpattr alloc code =
    check_type bgp_update (λ f. f.rd) (λ _. none)
      do
        notable ← access (λ _. attr_code_index code)
        idx ← access (λ _. notable)
        off ← access (λ m. get_elem? m.offtab idx)
        go_on ← if off == 0 then seek_fill alloc code idx else return true
        if go_on
            then (do
              off' ← access (λ m. get_elem? m.offtab idx)
              return (if off' == offset_not_found then none else some off'))
            else return none
