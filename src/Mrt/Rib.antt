-- ===== src/Mrt/Rib.antt =====
-- TABLE_DUMPV2 RIB packets (src/mrt.c): the header with the prefix, and the entries, whose peers are
-- looked up in the peer index.
pub mod Lookup
pub mod Entry
pub mod Families
pub mod Header
mod Tests
use isocore.Base.{
  ℕ, ◌+◌, ◌-◌, Bool, true, ◌&&◌, ◌||◌, ltb, leb, ◌==◌, if◌then◌else◌, Option, none, some, get_elem?,
  replicate,
}
use isocore.Base.Bytes.{read_bytes, write_bytes}
use isocore.NetAddr.{Family, inet, inet6, naddrsize}
use isocore.Mrt.{
  ebadpeeridx, ebadribent, eribnotsup, MrtMsg, RibHeader, RibEntry, Outcome, fault, ok, R, ◌>>=◌,
  ◌>>◌, return, modify, gets, fail_with, check_flags, check_peeridx, check_bounds, copy, number,
  byte, message_offset, afi_ipv4, afi_ipv6, mrt_table_dumpv2,
}
use isocore.Mrt.Peers.{attempt, endpending, decodepeerent}

-- `SAFI_UNICAST` and `SAFI_MULTICAST`
abbrev pub safi_unicast : ℕ
safi_unicast = 1

abbrev pub safi_multicast : ℕ
safi_multicast = 2

-- The families of a generic RIB, which are in the packet.
unfoldable pub generic_families : ℕ → ℕ → R (ℕ × ℕ × ℕ)
generic_families ptr end = do
  check_bounds ptr end 3 ebadribent
  afi ← number ptr 2
  safi ← byte (ptr + 2)
  return (afi, safi, ptr + 3)

-- The switch on the subtype: the families and the offset after them.
unfoldable pub families_of : ℕ → ℕ → ℕ → R (ℕ × ℕ × ℕ)
families_of subtype ptr end =
    if subtype == 6 || subtype == 12
    then generic_families ptr end
    else (if subtype == 2 || subtype == 8
        then return (afi_ipv4, safi_unicast, ptr)
        else (if subtype == 3 || subtype == 9
            then return (afi_ipv4, safi_multicast, ptr)
            else (if subtype == 4 || subtype == 10
                then return (afi_ipv6, safi_unicast, ptr)
                else (if subtype == 5 || subtype == 11
                    then return (afi_ipv6, safi_multicast, ptr)
                    else fail_with eribnotsup))))

-- The address family for a supported AFI and SAFI.
unfoldable pub family_of : ℕ → ℕ → R Family
family_of afi safi =
    if safi == safi_unicast || safi == safi_multicast
    then (if afi == afi_ipv4
        then return inet
        else (if afi == afi_ipv6 then return inet6 else fail_with eribnotsup))
    else fail_with eribnotsup

-- The prefix's `n` bytes, into the 16 of the address.
unfoldable pub copy_nlri : ℕ → ℕ → R (Unit {0})
copy_nlri ptr n = do
  bs ← copy ptr n
  λ m. elim (write_bytes m.ribhdr.nlri.bytes 0 bs) [
    | none ↦ fault
    | some bytes ↦
        ok tt
          (record m { ribhdr = record m.ribhdr { nlri = record m.ribhdr.nlri { bytes = bytes } } })
  ]

-- What follows the bit length at `ptr`: the prefix and the count.
unfoldable pub read_nlri : ℕ → ℕ → ℕ → R (ℕ × ℕ × ℕ)
read_nlri ptr bitlen end = do
  let n = naddrsize bitlen
  check_bounds (ptr + 1) end (n + 2) ebadribent
  copy_nlri (ptr + 1) n
  count ← number (ptr + 1 + n) 2
  return (ptr + 3 + n, count, end - (ptr + 3 + n))

-- `getribents_v2`: the first entry, the count and the bytes of the entries.
unfoldable pub getribents_v2 : R (ℕ × ℕ × ℕ)
getribents_v2 = do
  check_flags (λ f. f.needs_pi)
  check_peeridx
  end ← gets (λ m. message_offset + m.hdr.len)
  check_bounds message_offset end 4 ebadribent
  seqno ← number message_offset 4
  subtype ← gets (λ m. m.hdr.subtype)
  fams ← families_of subtype (message_offset + 4) end
  let (afi, safi, ptr) = fams
  fam ← family_of afi safi
  check_bounds ptr end 1 ebadribent
  bitlen ← byte ptr
  modify (λ m. record m {
    ribhdr = record {
      seqno = seqno;
      afi = afi;
      safi = safi;
      nlri = record { family = fam; bitlen = bitlen; bytes = replicate 16 0 };
    };
  })
  read_nlri ptr bitlen end

-- What `nextribent_v2` reads of an entry: index, time, path id and attributes' length, with the offset
-- of the attributes. `reptr` is advanced by each read.
abbrev pub advance : ℕ → R (Unit {0})
advance n = modify (λ m. record m { reptr = m.reptr + n })

-- A big endian number at `reptr`, which it is advanced over.
unfoldable pub next_number : ℕ → R ℕ
next_number n = do ptr ← gets (λ m. m.reptr); v ← number ptr n; advance n; return v

unfoldable pub check_room : ℕ → R (Unit {0})
check_room n = do
  ptr ← gets (λ m. m.reptr)
  end ← gets (λ m. message_offset + m.hdr.len)
  check_bounds ptr end n ebadribent

-- The path id of an ADD-PATH packet.
unfoldable pub next_pathid : R ℕ
next_pathid = do
  addpath ← gets (λ m. m.flags.addpath)
  if addpath then (do check_room 4; next_number 4) else return 0

-- `decodepeerent` of the peer's entry in the peer index.
unfoldable pub lookup_peer : MrtMsg → ℕ → R (Unit {0})
lookup_peer pi idx m = elim pi.pitab [
  | none ↦ fault
  | some table ↦ elim (get_elem? table idx) [
    | none ↦ fault
    | some offset ↦ elim (decodepeerent pi.buf m.ribpe (offset + message_offset)) [
      | none ↦ fault
      | some (pe, ptr) ↦ ok tt (record m { ribpe = pe })
    ]
  ]
]

-- The entry at `reptr`, with the index that was read.
unfoldable pub entry_v2 : MrtMsg → ℕ → R (Option RibEntry)
entry_v2 pi idx = do
  advance 2
  originated ← next_number 4
  pathid ← next_pathid
  check_room 2
  attr_len ← next_number 2
  check_room attr_len
  modify (λ m. record m {
    ribent = record m.ribent {
      peer_idx = idx;
      originated = originated;
      nlri = m.ribhdr.nlri;
      pathid = pathid;
      attr_length = attr_len;
      attrs = m.reptr;
    };
  })
  advance attr_len
  lookup_peer pi idx
  gets (λ m. some m.ribent)

-- The part of `nextribent_v2` after the test for the end.
unfoldable pub next_entry : MrtMsg → R (Option RibEntry)
next_entry pi = do
  check_room 6
  ptr ← gets (λ m. m.reptr)
  idx ← number ptr 2
  if leb pi.picount idx then fail_with ebadpeeridx else entry_v2 pi idx

-- `nextribent_v2`, with the peer index it points to; `none` is NULL after the last entry.
unfoldable pub nextribent_v2 : MrtMsg → R (Option RibEntry)
nextribent_v2 pi m =
    if m.reptr == message_offset + m.hdr.len
    then ok none m
    else (if m.reptr == 0 then fault else next_entry pi m)
