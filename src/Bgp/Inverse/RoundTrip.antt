-- ===== src/Bgp/Inverse/RoundTrip.antt =====
-- Writing an update message and reading it back.
use isocore.Base.{ℕ, suc, ◌+◌, ◌≤◌, ◌≡◌, ap, ◌∙◌, arith, List, [], ◌∷◌, some, length, take, map}
use isocore.NetAddr.{NetAddrAp}
use isocore.Bgp.{Msg, OpenFlags, Alloc}
use isocore.Bgp.Packet.{fastbuf}
use isocore.Bgp.Inverse.Read.{naddrsize_le}
use isocore.Bgp.Inverse.Session.{AllWhole, encode_all, write_update, write_update_lem}
use isocore.Bgp.Inverse.Receive.{AllPrefixes, read_back, read_update, read_update_lem}

prefixes-AllWhole : (ps : List NetAddrAp) → AllPrefixes ps → AllWhole ps
prefixes-AllWhole [] all = tt
prefixes-AllWhole (p ∷ ps) (h, all) =
    (omega (arith, naddrsize_le p.pfx.bitlen h.fits, h.sixteen), prefixes-AllWhole ps all)

-- A list of well-formed prefixes, whose encodings take at most 4073 bytes, is written by
-- `setbgpwrite_r`, `startnlri_r`, `putnlri_r` and `bgpfinish_r` on one message; `setbgpread_r`,
-- `startnlri_r` and `nextnlri_r` on another message, opened with the same path identifier flag,
-- return the same lengths, addresses and path identifiers in the same order, and then NULL. Without
-- that flag the path identifier is the one that the reader's message held. The embedded buffers
-- have 4096 bytes; the address family of what is read is IPv4.
pub nlri_round_trip :
    (alloc alloc' : Alloc) (o o' : OpenFlags) (ps : List NetAddrAp) (m m' : Msg)
    → o'.use_addpath ≡ o.use_addpath
    → length (fastbuf m) ≡ 4096
    → length (fastbuf m') ≡ 4096
    → AllPrefixes ps
    → 23 + length (encode_all o.use_addpath ps) ≤ 4096
    → (buf : List ℕ) × (n : ℕ) × (m1 m2 : Msg) × (write_update alloc o ps m
        ≡ some (some (buf, n), m1))
      × (read_update alloc' (take n buf) o' (suc (length ps)) m'
          ≡ some (map (read_back o.use_addpath m'.pfxbuf.pathid) ps, m2))
nlri_round_trip alloc alloc' o o' ps m m' same h h' all room =
    let (buf, m1, e1, packet) = write_update_lem alloc o ps m h (prefixes-AllWhole ps all) room in
    let n = 23 + length (encode_all o.use_addpath ps) in
    let (m2, e2) = read_update_lem alloc' o' o.use_addpath same ps n m' h' all (omega arith) in
    (buf, n, m1, m2, e1, ap (λ bs. read_update alloc' bs o' (suc (length ps)) m') packet ∙ e2)
