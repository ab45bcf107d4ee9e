-- ===== src/Bgp/Prefixes.antt =====
-- Reading the prefixes of an update message (src/bgp.c): `nextwithdrawn_r` and `nextnlri_r`.
use isocore.Base.{
  ◌+◌, Bool, true, false, ltb, leb, ◌==◌, if◌then◌else◌, Option, none, some, get_elem?, replicate,
}
use isocore.Base.Bytes.{read_bytes, write_bytes, from_big}
use isocore.NetAddr.{NetAddrAp, naddrsize}
use isocore.Bgp.{
  Err, ebadwdrwn, ebadnlri, Alloc, M, ◌>>=◌, ◌>>◌, return, access, gets, modify, check_flags,
}
use isocore.Bgp.Pending.{uptr_of}
use isocore.Bgp.MpAttr.{enter_mp}

-- `msg->err = ...; return NULL;`
abbrev refuse : {A : Type 0} → Err → M (Option A)
refuse e = do modify (λ m. record m { err = e }); return none

-- The end of the two functions: the length in bits and that many bits. `early` says that the length
-- is stored before it is checked.
unfoldable pub read_bits : Err → Bool → M (Option NetAddrAp)
read_bits bad early = do
  uend ← gets (λ m. m.uend)
  at ← gets (λ m. m.uptr)
  bitlen ← access (λ m. get_elem? m.buf at)
  modify λ m. record m {
    uptr = at + 1;
    pfxbuf =
        if early
        then record m.pfxbuf { pfx = record m.pfxbuf.pfx { bitlen = bitlen } }
        else m.pfxbuf;
  }
  let n = naddrsize bitlen
  if ltb uend (at + 1 + n) then refuse bad else (do
    bs ← access (λ m. read_bytes m.buf (at + 1) n)
    bytes ← access (λ _. write_bytes (replicate 16 0) 0 bs)
    modify λ m. record m {
      pfxbuf = record m.pfxbuf { pfx = record m.pfxbuf.pfx { bitlen = bitlen; bytes = bytes } };
      uptr = at + 1 + n;
    }
    ap ← gets (λ m. m.pfxbuf)
    return (some ap))

-- The rest of the two functions, from the `memset`: a path identifier if F_ADDPATH is set, then the
-- prefix.
unfoldable pub read_prefix : Err → Bool → M (Option NetAddrAp)
read_prefix bad early = do
  uptr ← access uptr_of
  uend ← gets (λ m. m.uend)
  addpath ← gets (λ m. m.flags.addpath)
  modify λ m. record m {
    pfxbuf = record m.pfxbuf { pfx = record m.pfxbuf.pfx { bytes = replicate 16 0 } };
  }
  if addpath
      then (if leb uend (uptr + 4) then refuse bad else (do
        bs ← access (λ m. read_bytes m.buf uptr 4)
        modify
            λ m. record m { pfxbuf = record m.pfxbuf { pathid = from_big bs 0 }; uptr = uptr + 4 }
        read_bits bad early))
      else read_bits bad early

-- `nextwithdrawn_r`: the next withdrawn prefix, or NULL.
unfoldable pub nextwithdrawn_r : Alloc → M (Option NetAddrAp)
nextwithdrawn_r alloc =
    check_flags (λ f. if f.rd then f.withdrn else false) (λ _. none)
      do
        uptr ← access uptr_of
        uend ← gets (λ m. m.uend)
        more ←
            if uptr == uend
            then (do
              all ← gets (λ m. m.flags.allwithdrn)
              if all
                  then (do
                    modify (λ m. record m { flags = record m.flags { allwithdrn = false } })
                    enter_mp alloc 15 ebadwdrwn)
                  else return false)
            else return true
        if more then read_prefix ebadwdrwn false else return none

-- `nextnlri_r`: the next announced prefix, or NULL.
unfoldable pub nextnlri_r : Alloc → M (Option NetAddrAp)
nextnlri_r alloc =
    check_flags (λ f. if f.rd then f.nlri else false) (λ _. none)
      do
        uptr ← access uptr_of
        uend ← gets (λ m. m.uend)
        more ←
            if uptr == uend
            then (do
              all ← gets (λ m. m.flags.allnlri)
              if all
                  then (do
                    modify (λ m. record m { flags = record m.flags { allnlri = false } })
                    enter_mp alloc 14 ebadnlri)
                  else return false)
            else return true
        if more then read_prefix ebadnlri true else return none
