-- ===== src/Bgp/Pending.antt =====
-- The operations that close a field being read or written, and `endpending`, which closes whichever
-- is open (src/bgp.c).
use isocore.Base.{
  ℕ, ◌+◌, ◌-◌, ◌%◌, ◌^◌, Bool, true, false, ltb, ◌||◌, if◌then◌else◌, List, [], ◌∷◌, Option, none,
  some,
}
use isocore.Base.Bytes.{read_bytes, big16}
use isocore.Bgp.{
  Msg, Flags, Err, enoerr, enomem, einvop, Alloc, M, ◌>>=◌, ◌>>◌, return, access, gets, modify,
  check_flags, check_type, any_flags, bgp_open, params_offset, params_length_offset,
}
use isocore.Bgp.Fields.{store}

abbrev set_flags : (Flags → Flags) → M (Unit {0})
set_flags f = modify λ m. record m { flags = f m.flags }

-- The current position and the start of the field, while they point into the packet.
unfoldable pub uptr_of : Msg → Option ℕ
uptr_of m = if m.moved then none else some m.uptr

unfoldable pub ustart_of : Msg → Option ℕ
ustart_of m = if m.moved then none else some m.ustart

-- The copy of `bgppreserve` to `presbuf`, which is NULL if the allocation failed.
unfoldable pub preserve_copy : ℕ → ℕ → Bool → M Err
preserve_copy from size false m = some (enomem, record m { err = enomem; presbuf = [] })
preserve_copy from size true m = elim (read_bytes m.buf from size) [
  | none ↦ none
  | some bs ↦ some (enoerr, record m { presbuf = bs })
]

abbrev is_some : Option (List ℕ) → Bool
is_some none = false
is_some (some _) = true

-- `bgppreserve`: keeps what follows `from`; a copy of more than 96 bytes is allocated.
unfoldable pub bgppreserve : Alloc → ℕ → M Err
bgppreserve alloc from m =
    let size = (m.pktlen + 2 ^ 64 - from) % 2 ^ 64 in
    preserve_copy from size (if ltb 96 size then is_some (alloc size) else true) m

-- `bgprestore`: puts it back at the current position.
unfoldable pub bgprestore : M (Unit {0})
bgprestore = do
  uptr ← access uptr_of
  pktlen ← gets (λ m. m.pktlen)
  bs ← access (λ m. read_bytes m.presbuf 0 ((pktlen + 2 ^ 64 - uptr) % 2 ^ 64))
  store uptr bs

-- The length of the field from `ustart` to `uptr` is written before it.
unfoldable pub put_field_length : M (Unit {0})
put_field_length = do
  uptr ← access uptr_of
  ustart ← access ustart_of
  store (ustart - 2) (big16 ((uptr + 65536 - ustart) % 65536))

-- `endbgpcaps_r`; `getbgpparams_r` is inlined to its check and its result, `params_offset`.
unfoldable pub endbgpcaps_r : M Err
endbgpcaps_r =
    check_flags (λ f. f.pm) (λ e. e)
      do
        wr ← gets (λ m. m.flags.wr)
        r ← elim wr [
          | false ↦ return true
          | true ↦ do
            ptr ← gets (λ m. m.pptr)
            params ← gets (λ m. m.params)
            store (params + 1) (((ptr + 256 - (params + 2) % 256) % 256) ∷ [])
            base ← check_type bgp_open any_flags (λ _. none) (return (some params_offset))
            start ← access (λ _. base)
            if ltb 255 (ptr - start) || ltb ptr start
                then (do modify (λ m. record m { err = einvop }); return false)
                else (do store params_length_offset ((ptr - start) ∷ []); return true)
        ]
        if r
            then (do set_flags (λ f. record f { pm = false }); return enoerr)
            else gets (λ m. m.err)

-- `endwithdrawn_r`
unfoldable pub endwithdrawn_r : M Err
endwithdrawn_r =
    check_flags (λ f. f.withdrn) (λ e. e)
      do
        wr ← gets (λ m. m.flags.wr)
        elim wr [ false ↦ return tt | true ↦ (do bgprestore; put_field_length) ]
        set_flags (λ f. record f { withdrn = false; allwithdrn = false })
        return enoerr

-- `endbgpattribs_r`
unfoldable pub endbgpattribs_r : M Err
endbgpattribs_r =
    check_flags (λ f. f.pattr) (λ e. e)
      do
        wr ← gets (λ m. m.flags.wr)
        elim wr [ false ↦ return tt | true ↦ (do bgprestore; put_field_length) ]
        set_flags (λ f. record f { pattr = false })
        return enoerr

-- `endnlri_r`
unfoldable pub endnlri_r : M Err
endnlri_r =
    check_flags (λ f. f.nlri) (λ e. e)
      do set_flags (λ f. record f { nlri = false; allnlri = false }); gets (λ m. m.err)

-- `endaspath_r`
unfoldable pub endaspath_r : M Err
endaspath_r =
    check_flags (λ f. f.aspath) (λ e. e)
      do set_flags (λ f. record f { aspath = false; realaspath = false }); return enoerr

-- `endnhop_r`
unfoldable pub endnhop_r : M Err
endnhop_r =
    check_flags (λ f. f.nhop) (λ e. e) do set_flags (λ f. record f { nhop = false }); return enoerr

-- `endcommunities_r`
unfoldable pub endcommunities_r : M Err
endcommunities_r =
    check_flags (λ f. f.community) (λ e. e)
      do set_flags (λ f. record f { community = false }); gets (λ m. m.err)

-- Some field is open.
abbrev pub has_pending : Flags → Bool
has_pending f = f.pm || f.withdrn || f.pattr || f.nlri || f.aspath || f.nhop || f.community

-- `endpending`
unfoldable pub endpending : M Err
endpending = do
  f ← gets (λ m. m.flags)
  if has_pending f
      then (if f.pm
          then endbgpcaps_r
          else (if f.withdrn
              then endwithdrawn_r
              else (if f.pattr
                  then endbgpattribs_r
                  else (if f.nlri
                      then endnlri_r
                      else (if f.aspath
                          then endaspath_r
                          else (if f.community then endcommunities_r else endnhop_r))))))
      else gets (λ m. m.err)
