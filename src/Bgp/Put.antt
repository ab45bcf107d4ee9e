-- ===== src/Bgp/Put.antt =====
-- Writing the prefixes of an update message (src/bgp.c).
use isocore.Base.{
  ℕ, ◌+◌, ◌-◌, ◌%◌, ◌^◌, Bool, true, false, ltb, if◌then◌else◌, List, ◌∷◌, none, some, length,
}
use isocore.Base.Bytes.{read_bytes, big16, big32}
use isocore.NetAddr.{NetAddrAp, naddrsize}
use isocore.Bgp.{
  Err, enoerr, ebadhdr, Alloc, M, ◌>>=◌, ◌>>◌, return, access, gets, modify, check_flags,
  check_type, any_flags, bgp_update, base_packet_length,
}
use isocore.Bgp.Fields.{load16, store, getnlri_r}
use isocore.Bgp.Pending.{uptr_of}
use isocore.Bgp.Packet.{bgpensure}

-- A run of bytes is appended at the current position, after `bgpensure`.
unfoldable pub append_bytes : Alloc → List ℕ → M Bool
append_bytes alloc bs = do
  ok ← bgpensure alloc (length bs)
  if ok
      then (do
        uptr ← access uptr_of
        store uptr bs
        modify λ m. record m { uptr = uptr + length bs; pktlen = (m.pktlen + length bs) % 65536 }
        return true)
      else return false

-- `putwithdrawn_r` and `putnlri_r`, after the check: the path identifier if F_ADDPATH is set, then
-- the length in bits and the bytes of the address.
unfoldable pub put_prefix : Alloc → NetAddrAp → M Err
put_prefix alloc p = do
  addpath ← gets (λ m. m.flags.addpath)
  ok ← if addpath then append_bytes alloc (big32 p.pathid) else return true
  if ok
      then (do
        bs ← access (λ _. read_bytes p.pfx.bytes 0 (naddrsize p.pfx.bitlen))
        append_bytes alloc ((p.pfx.bitlen % 256) ∷ bs)
        gets (λ m. m.err))
      else gets (λ m. m.err)

-- `putwithdrawn_r`
unfoldable pub putwithdrawn_r : Alloc → NetAddrAp → M Err
putwithdrawn_r alloc p =
    check_flags (λ f. if f.wr then f.withdrn else false) (λ e. e) (put_prefix alloc p)

-- `putnlri_r`
unfoldable pub putnlri_r : Alloc → NetAddrAp → M Err
putnlri_r alloc p = check_flags (λ f. if f.wr then f.nlri else false) (λ e. e) (put_prefix alloc p)

-- `setwithdrawn_r`; `ptr` is taken before `bgpensure`.
unfoldable pub setwithdrawn_r : Alloc → List ℕ → M Err
setwithdrawn_r alloc bytes =
    check_type bgp_update (λ f. f.wr) (λ e. e)
      do
        let n = length bytes
        old ← access (load16 base_packet_length)
        before ← gets (λ m. m.bufsiz)
        ok ← if ltb old n then bgpensure alloc (n - old) else return true
        if ok
            then (do
              let start = base_packet_length + 2 + old
              after ← gets (λ m. m.bufsiz)
              saved ← access λ m.
                  if ltb before after
                  then none
                  else read_bytes m.buf start ((m.pktlen + 2 ^ 64 - start) % 2 ^ 64)
              store base_packet_length (big16 n)
              store (base_packet_length + 2) bytes
              store (base_packet_length + 2 + n) saved
              modify (λ m. record m { pktlen = (m.pktlen + 65536 - old + n) % 65536 })
              return enoerr)
            else gets (λ m. m.err)

-- `setnlri_r`: it stores the length in the two bytes before the field. The check returns F_WR, the
-- number 4 of `BGP_EBADHDR`.
unfoldable pub setnlri_r : Alloc → List ℕ → M Err
setnlri_r alloc bytes =
    check_type bgp_update any_flags (λ _. ebadhdr)
      do
        let n = length bytes
        f ← getnlri_r
        (ptr, old) ← access (λ _. f)
        before ← gets (λ m. m.bufsiz)
        ok ← if ltb old n then bgpensure alloc (n - old) else return true
        if ok
            then (do
              after ← gets (λ m. m.bufsiz)
              access (λ _. if ltb before after then none else some tt)
              store (ptr - 2) (big16 n)
              store ptr bytes
              modify (λ m. record m { pktlen = (m.pktlen + 65536 - old % 65536 + n) % 65536 })
              return enoerr)
            else gets (λ m. m.err)
