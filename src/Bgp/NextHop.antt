-- ===== src/Bgp/NextHop.antt =====
-- The iteration over the next hops of an update message (src/bgp.c): `startnhop_r`, `nextnhop_r`.
pub mod Read
use isocore.Base.{
  ℕ, ◌+◌, ◌/◌, ◌%◌, Bool, true, false, not, ◌||◌, ltb, ◌==◌, if◌then◌else◌, List, [], ◌∷◌, Option,
  none, some, drop,
}
use isocore.Base.Bytes.{read_bytes, write_bytes}
use isocore.NetAddr.{NetAddr, Family, inet, inet6}
use isocore.Bgp.{
  Msg, Flags, Hops, in_nhbuf, in_packet, Err, enoerr, ebadattr, Alloc, M, ◌>>=◌, ◌>>◌, return,
  access, gets, modify, check_flags, check_type, bgp_update,
}
use isocore.Base.{get_elem?, length}
use isocore.Bgp.Pending.{endpending}
use isocore.Bgp.Attribs.{seekbgpattr, is_extended}
use isocore.Bgp.MpAttr.{value_of, getmpafi, getmpsafi}

-- `getnexthop`: the four bytes of the value.
unfoldable pub getnexthop : ℕ → M (List ℕ)
getnexthop at = do
  flags ← access (λ m. get_elem? m.buf at)
  access (λ m. read_bytes m.buf (if is_extended flags then at + 4 else at + 3) 4)

-- `getmpnexthop`: the offset of the next hop and its length, the byte before it.
unfoldable pub getmpnexthop : ℕ → M (ℕ × ℕ)
getmpnexthop at = do
  flags ← access (λ m. get_elem? m.buf at)
  let ptr = (if is_extended flags then at + 4 else at + 3) + 3
  n ← access (λ m. get_elem? m.buf ptr)
  return (ptr + 1, n)

abbrev pub set_address : Family → ℕ → Msg → Msg
set_address af bitlen m = record m {
  pfxbuf = record m.pfxbuf { pfx = record m.pfxbuf.pfx { family = af; bitlen = bitlen } };
}

-- The part of `startnhop_r` for MP_REACH_NLRI; the result says whether the attribute is good.
unfoldable pub start_mpnhop : Option ℕ → M Bool
start_mpnhop none = return true
start_mpnhop (some at) = do
  (ptr, n) ← getmpnexthop at
  modify (λ m. record m { mpnh = some (ptr, ptr + n) })
  afi ← getmpafi at
  safi ← getmpsafi at
  if not (safi == 1 || safi == 2)
      then return false
      else (if afi == 1
          then (do modify (λ m. record m { mpfamily = inet; mpbitlen = 32 }); return true)
          else (if afi == 2
              then (do modify (λ m. record m { mpfamily = inet6; mpbitlen = 128 }); return true)
              else return false))

-- `startnhop_r`
unfoldable pub startnhop_r : Alloc → M Err
startnhop_r alloc =
    check_type bgp_update (λ f. f.rd) (λ e. e)
      do
        endpending
        modify (λ m. record m { nh = in_nhbuf []; mpnh = none })
        hop ← seekbgpattr alloc 3
        elim hop [
          | none ↦ return tt
          | some at ↦ (do
            bs ← getnexthop at
            modify (λ m. set_address inet 32 (record m { nh = in_nhbuf bs })))
        ]
        mp ← seekbgpattr alloc 14
        good ← start_mpnhop mp
        if good
            then (do
              modify (λ m. record m { flags = record m.flags { nhop = true } })
              return enoerr)
            else (do modify (λ m. record m { err = ebadattr }); return ebadattr)

abbrev pub no_more : Hops → Bool
no_more (in_nhbuf []) = true
no_more (in_nhbuf (b ∷ bs)) = false
no_more (in_packet ptr end) = ptr == end

-- The last part of `nextnhop_r`: a full address is copied, if there are as many bytes.
unfoldable pub copy_hop : Hops → ℕ → M (Option NetAddr)
copy_hop hops n m = elim hops [
  | in_nhbuf bs ↦
      (if ltb (length bs) n then bad else (do
        hop ← access (λ m'. read_bytes bs 0 n)
        bytes ← access (λ m'. write_bytes m'.pfxbuf.pfx.bytes 0 hop)
        modify (λ m'. record m' {
          pfxbuf = record m'.pfxbuf { pfx = record m'.pfxbuf.pfx { bytes = bytes } };
          nh = in_nhbuf (drop n bs);
        })
        gets (λ m'. some m'.pfxbuf.pfx)))
        m
  | in_packet ptr end ↦
      (if ltb end (ptr + n) then bad else (do
        hop ← access (λ m'. read_bytes m'.buf ptr n)
        bytes ← access (λ m'. write_bytes m'.pfxbuf.pfx.bytes 0 hop)
        modify (λ m'. record m' {
          pfxbuf = record m'.pfxbuf { pfx = record m'.pfxbuf.pfx { bytes = bytes } };
          nh = in_packet (ptr + n) end;
        })
        gets (λ m'. some m'.pfxbuf.pfx)))
        m
]
  where
    bad : M (Option NetAddr)
    bad = do modify (λ m'. record m' { err = ebadattr }); return none

-- `nextnhop_r`: the next next hop, or NULL.
unfoldable pub nextnhop_r : M (Option NetAddr)
nextnhop_r =
    check_flags (λ f. f.nhop) (λ _. none)
      do
        hops ← gets (λ m. m.nh)
        mp ← gets (λ m. m.mpnh)
        more ←
            if no_more hops
            then (elim mp [
              | none ↦ return false
              | some (ptr, end) ↦ (do
                modify (λ m.
                    set_address m.mpfamily m.mpbitlen
                      (record m { nh = in_packet ptr end; mpnh = none }))
                return true)
            ])
            else return true
        if more
            then (do
              hops' ← gets (λ m. m.nh)
              bitlen ← gets (λ m. m.pfxbuf.pfx.bitlen)
              copy_hop hops' (bitlen / 8))
            else return none
