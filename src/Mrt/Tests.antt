-- ===== src/Mrt/Tests.antt =====
-- Packets that the theorems on opening and reading (src/mrt.c) are applied to.
use isocore.Base.{
  ℕ, ◌≡◌, ◌≢◌, refl, sym, ap, ◌∙◌, arith, false, if◌then◌else◌, List, [], ◌∷◌, ◌++◌, none, some,
  length, replicate, length-replicate,
}
use mathlib.Core.Option.{some-injective}
use isocore.Base.Bytes.{read_bytes}
use isocore.Mrt.{
  MrtErr, enoerr, ebadpeeridx, no_flags, MrtHeader, PeerEntry, MrtMsg, Outcome, fault, fails, ok,
  zero_addr, afi_ipv4,
}
use isocore.Mrt.Table.{mrtflags}
use isocore.Mrt.Open.{MrtAlloc, io_mem, setmrtread_r, setmrtreadfrom_r}
use isocore.Mrt.Open.Opened.{Cause, header_of, packet_of, setmrtreadfrom_r-Opened}
use isocore.Mrt.Open.Fill.{Sized, Result}
use isocore.Mrt.Headers.{getbgp4mpheader_r, unwrapbgp4mp_r, getzebraheader_r, unwrapzebra_r}
use isocore.Mrt.Headers.Safety.{Payload}
use isocore.Mrt.Headers.Inverse.{Session, Sized as SizedSession, header_of as session_header}
use isocore.Mrt.Memory.{Entries, reads-InPlace}
use isocore.Mrt.Packet.{
  io_mem-Bounded, encode_header, Known, bgp4mp_body, Wraps, setmrtread_r-unwrapbgp4mp_r,
}
use isocore.Mrt.Peers.{getpiviewname_r, getpeerents_r}
use isocore.Mrt.Legacy.{getribents_legacy}
use isocore.Mrt.Safe.{Safe, Any}
use isocore.Mrt.Samples.{holding}

abbrev alloc : MrtAlloc
alloc n = some (replicate n 0)

alloc-Sized : Sized alloc
alloc-Sized = record {
  sized =
      λ n block e. sym (ap length (some-injective (replicate n 0) block e)) ∙ length-replicate n 0;
}

alloc_gives : (n : ℕ) → alloc n ≢ none
alloc_gives n e = cc

abbrev fast_block : List ℕ
fast_block = replicate 4096 0

fast_block_size : length fast_block ≡ 4096
fast_block_size = length-replicate {A = ℕ} 4096 0

-- A BGP4MP message of a session with 4 byte AS numbers.
abbrev session : Session
session = record {
  v6 = false;
  peer_as = 65551;
  local_as = 64496;
  iface = 3;
  peer_addr = 192 ∷ 0 ∷ 2 ∷ 1 ∷ [];
  local_addr = 192 ∷ 0 ∷ 2 ∷ 2 ∷ [];
}

abbrev message : List ℕ
message = 255 ∷ 255 ∷ 19 ∷ 4 ∷ []

abbrev body : List ℕ
body = bgp4mp_body 16 4 [] session message

known : Known 1000 16 4 (length body)
unfolding mrtflags isocore.Mrt.Table.bgp4mp_flags
known = record {
  small_sec = omega arith;
  small_len = omega arith;
  low = omega arith;
  high = omega arith;
  small_subtype = omega arith;
  entry = refl;
}

wraps : Wraps 16 4
unfolding mrtflags isocore.Mrt.Table.bgp4mp_flags
wraps = record { is_bgp = refl; wraps_bgp = refl; no_state = refl }

session-Sized : SizedSession (mrtflags 16 4).as32 session
unfolding mrtflags isocore.Mrt.Table.bgp4mp_flags
session-Sized = record {
  peer_as = omega arith;
  local_as = omega arith;
  iface = omega arith;
  peer_addr = refl;
  local_addr = refl;
}

not_extended : length {A = ℕ} [] ≡ (if (mrtflags 16 4).is_ext then 4 else 0)
unfolding mrtflags isocore.Mrt.Table.bgp4mp_flags
not_extended = refl

setmrtread_r-unwrapbgp4mp_r_example :
    (m' : MrtMsg) × (left : List ℕ) × (setmrtread_r alloc fast_block
        (encode_header 1000 16 4 (length body) ++ (body ++ (7 ∷ [])))
        (holding 0 0 [])
      ≡ ok (enoerr, left) m')
    × (getbgp4mpheader_r m'
        ≡ ok (session_header session 0 0) (record m' { bgp4mphdr = session_header session 0 0 }))
    × (ptr : ℕ) × (unwrapbgp4mp_r m' ≡ ok (ptr, 4) m')
    × (read_bytes m'.buf ptr 4 ≡ some message)
setmrtread_r-unwrapbgp4mp_r_example =
    setmrtread_r-unwrapbgp4mp_r alloc alloc-Sized alloc_gives fast_block fast_block_size 1000 16 4
      [] session message (7 ∷ []) (holding 0 0 []) known wraps session-Sized not_extended

abbrev input : List ℕ
input = encode_header 1000 16 4 (length body) ++ body

setmrtreadfrom_r-Opened_example :
    Result
      (Cause alloc alloc-Sized fast_block fast_block_size io_mem io_mem-Bounded input)
      (holding 0 0 [])
      (header_of alloc alloc-Sized fast_block fast_block_size io_mem io_mem-Bounded input)
      (packet_of alloc alloc-Sized fast_block fast_block_size io_mem io_mem-Bounded input)
      (setmrtreadfrom_r alloc fast_block io_mem input (holding 0 0 []))
setmrtreadfrom_r-Opened_example =
    setmrtreadfrom_r-Opened alloc alloc-Sized fast_block fast_block_size io_mem io_mem-Bounded input
      (holding 0 0 [])

-- A BGP4MP packet that says nothing of its addresses.
abbrev cut : MrtMsg
cut = holding 16 4 (0 ∷ 0 ∷ 0 ∷ 1 ∷ 0 ∷ [])

reads-InPlace_example :
    Safe cut Any (getbgp4mpheader_r cut)
    × Safe cut (Payload cut) (unwrapbgp4mp_r cut)
    × Safe cut Any (getzebraheader_r cut)
    × Safe cut (Payload cut) (unwrapzebra_r cut)
    × Safe cut Any (getpiviewname_r 8 cut)
    × Safe cut (Entries cut) (getpeerents_r cut)
    × Safe cut (Entries cut) (getribents_legacy cut)
reads-InPlace_example = reads-InPlace cut (record { fits = omega arith }) 8
