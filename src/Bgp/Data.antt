-- ===== src/Bgp/Data.antt =====
-- The contents of a packet as a whole, and the queries on a message (src/bgp.c).
use isocore.Base.{ℕ, ◌+◌, ◌%◌, Bool, if◌then◌else◌, List, Option, none, some, length}
use isocore.Bgp.{
  Msg, Err, Alloc, M, ◌>>◌, gets, modify, check_flags, length_offset, base_packet_length,
}
use isocore.Bgp.Fields.{load16, store}
use isocore.Bgp.Pending.{endpending}
use isocore.Bgp.Packet.{bgpensure}

-- `getbgpdata_r`: the buffer and the length in its header, whatever error is latched.
unfoldable pub getbgpdata_r : M (Option (List ℕ × ℕ))
getbgpdata_r m =
    if m.flags.rd
    then (elim (load16 length_offset m) [ none ↦ none | some n ↦ some (some (m.buf, n), m) ])
    else some (none, m)

-- `setbgpdata_r`; what `bgpensure` returns is not looked at.
unfoldable pub setbgpdata_r : Alloc → List ℕ → M Err
setbgpdata_r alloc bytes =
    check_flags (λ f. f.wr) (λ e. e)
      do
        endpending
        bgpensure alloc (length bytes + base_packet_length)
        store base_packet_length bytes
        modify (λ m. record m { pktlen = (base_packet_length + length bytes) % 65536 })
        gets (λ m. m.err)

-- `isbgpasn32bit_r`, `isbgpaddpath_r` and `bgperror_r`
abbrev pub isbgpasn32bit_r : Msg → Bool
isbgpasn32bit_r m = m.flags.asn32bit

abbrev pub isbgpaddpath_r : Msg → Bool
isbgpaddpath_r m = m.flags.addpath

abbrev pub bgperror_r : Msg → Err
bgperror_r m = m.err
