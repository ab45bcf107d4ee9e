-- ===== src/Bgp/Start.antt =====
-- The start of an iteration over the withdrawn routes or the NLRI field of an update message
-- (src/bgp.c).
use isocore.Base.{ℕ, ◌+◌, ◌-◌, ◌%◌, ◌^◌, true, false, if◌then◌else◌}
use isocore.NetAddr.{Family, inet}
use isocore.Bgp.{
  Flags, Err, enoerr, is_ok, Alloc, M, ◌>>=◌, ◌>>◌, return, access, gets, modify, check_type,
  any_flags, bgp_update,
}
use isocore.Bgp.Fields.{getwithdrawn_r, getnlri_r}
use isocore.Bgp.Pending.{endpending, bgppreserve}

-- The iterator is placed on a field, with the given flags set.
abbrev pub place : ℕ → ℕ → (Flags → Flags) → M (Unit {0})
place ptr n f = modify λ m. record m {
  uptr = ptr;
  ustart = ptr;
  uend = (ptr + n) % 2 ^ 64;
  moved = false;
  flags = f m.flags;
}

abbrev pub set_family : Family → M (Unit {0})
set_family af =
    modify λ m. record m { pfxbuf = record m.pfxbuf { pfx = record m.pfxbuf.pfx { family = af } } }

-- `dostartwithdrawn`
unfoldable pub dostartwithdrawn : Alloc → (Flags → Flags) → M Err
dostartwithdrawn alloc set = do
  endpending
  f ← getwithdrawn_r
  (ptr, n) ← access (λ _. f)
  wr ← gets (λ m. m.flags.wr)
  e ←
      if wr
      then (do
        e ← bgppreserve alloc (ptr + n)
        if is_ok e
            then (do
              modify (λ m. record m { pktlen = (m.pktlen + 65536 - n % 65536) % 65536 })
              return enoerr)
            else return e)
      else (do set_family inet; return enoerr)
  if is_ok e then (do place ptr n set; return enoerr) else gets (λ m. m.err)

-- `startwithdrawn_r`
unfoldable pub startwithdrawn_r : Alloc → M Err
startwithdrawn_r alloc =
    check_type bgp_update any_flags (λ e. e)
      do dostartwithdrawn alloc (λ f. record f { withdrn = true })

-- `startmpunreachnlri_r`
unfoldable pub startmpunreachnlri_r : M Err
startmpunreachnlri_r =
    check_type bgp_update (λ f. f.rd) (λ e. e)
      do place 0 0 (λ f. record f { withdrn = true; allwithdrn = true }); gets (λ m. m.err)

-- `startallwithdrawn_r`
unfoldable pub startallwithdrawn_r : Alloc → M Err
startallwithdrawn_r alloc =
    check_type bgp_update (λ f. f.rd) (λ e. e)
      do dostartwithdrawn alloc (λ f. record f { withdrn = true; allwithdrn = true })

-- `dostartnlri`
unfoldable pub dostartnlri : (Flags → Flags) → M Err
dostartnlri set = do
  endpending
  f ← getnlri_r
  (ptr, n) ← access (λ _. f)
  wr ← gets (λ m. m.flags.wr)
  if wr
      then modify (λ m. record m { pktlen = (m.pktlen + 65536 - n % 65536) % 65536 })
      else set_family inet
  place ptr n set
  gets (λ m. m.err)

-- `startnlri_r`
unfoldable pub startnlri_r : M Err
startnlri_r =
    check_type bgp_update any_flags (λ e. e) do dostartnlri (λ f. record f { nlri = true })

-- `startmpreachnlri_r`
unfoldable pub startmpreachnlri_r : M Err
startmpreachnlri_r =
    check_type bgp_update (λ f. f.rd) (λ e. e)
      do place 0 0 (λ f. record f { nlri = true; allnlri = true }); gets (λ m. m.err)

-- `startallnlri_r`
unfoldable pub startallnlri_r : M Err
startallnlri_r =
    check_type bgp_update (λ f. f.rd) (λ e. e)
      do dostartnlri (λ f. record f { nlri = true; allnlri = true })
