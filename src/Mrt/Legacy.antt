-- ===== src/Mrt/Legacy.antt =====
-- TABLE_DUMP packets (src/mrt.c), and the operations on RIBs that tell both kinds apart.
use isocore.Base.{
  ℕ, zero, suc, ◌+◌, ◌-◌, ◌*◌, ◌==◌, if◌then◌else◌, ◌++◌, Option, none, some, drop, replicate, true,
}
use isocore.NetAddr.{NetAddr, inet, inet6}
use isocore.Mrt.{
  ebadribent, MrtMsg, RibHeader, RibEntry, fault, ok, R, ◌>>=◌, ◌>>◌, return, modify, gets,
  check_flags, check_type, check_bounds, copy, number, byte, message_offset, afi_ipv6,
  mrt_table_dump, mrt_table_dumpv2,
}
use isocore.Mrt.Peers.{attempt, endpending}
use isocore.Mrt.Rib.{advance, next_number, check_room, getribents_v2, nextribent_v2}

-- The header's length that the count takes: 2 * 4 more for IPv6, and 2 * 16 for IPv4.
abbrev pub counted_header : ℕ → ℕ
counted_header subtype = 14 + (if subtype == afi_ipv6 then 2 * 4 else 2 * 16)

-- The loop that counts the entries up to `end`, with the rounds left: a round advances by more than one.
unfoldable pub count_entries : ℕ → ℕ → ℕ → ℕ → R ℕ
count_entries zero hdrlen end cur = λ m. fault
count_entries (suc rounds) hdrlen end cur = if cur == end then return 0 else (do
  check_bounds cur end hdrlen ebadribent
  attr_len ← number (cur + (hdrlen - 2)) 2
  check_bounds (cur + hdrlen) end attr_len ebadribent
  n ← count_entries rounds hdrlen end (cur + hdrlen + attr_len)
  return (n + 1))

-- `getribents_legacy`, called with a place for the count.
unfoldable pub getribents_legacy : R (ℕ × ℕ × ℕ)
getribents_legacy = do
  check_type mrt_table_dump
  len ← gets (λ m. m.hdr.len)
  subtype ← gets (λ m. m.hdr.subtype)
  n ← count_entries (suc len) (counted_header subtype) (message_offset + len) message_offset
  return (message_offset, n, len)

-- An address over the old one, with the bit length of the old one.
unfoldable pub addr_over : ℕ → NetAddr → R NetAddr
addr_over subtype old = do
  ptr ← gets (λ m. m.reptr)
  let size = if subtype == afi_ipv6 then 16 else 4
  sin ← copy ptr size
  advance size
  return (record old {
    family = if subtype == afi_ipv6 then inet6 else inet;
    bytes = sin ++ drop size old.bytes;
  })

unfoldable pub next_byte : R ℕ
next_byte = do ptr ← gets (λ m. m.reptr); b ← byte ptr; advance 1; return b

-- The entry at `reptr`.
unfoldable pub entry_legacy : ℕ → R (Option RibEntry)
entry_legacy subtype = do
  check_room (14 + (if subtype == afi_ipv6 then 2 * 16 else 2 * 4))
  view ← next_number 2
  seqno ← next_number 2
  old ← gets (λ m. m.ribent.nlri)
  nlri ← addr_over subtype old
  modify (λ m. record m { ribent = record m.ribent { nlri = nlri } })
  bitlen ← next_byte
  modify (λ m. record m {
    ribent = record m.ribent { nlri = record m.ribent.nlri { bitlen = bitlen } };
  })
  advance 1
  originated ← next_number 4
  old_peer ← gets (λ m. m.ribpe.addr)
  peer ← addr_over subtype old_peer
  modify (λ m. record m {
    ribpe = record m.ribpe {
      addr = record peer { bitlen = if subtype == afi_ipv6 then 128 else 32 };
    };
  })
  as_number ← next_number 2
  attr_len ← next_number 2
  check_room attr_len
  modify (λ m. record m {
    ribent = record m.ribent {
      peer_idx = 0;
      attr_length = attr_len;
      seqno = seqno;
      originated = originated;
      pathid = 0;
      attrs = m.reptr;
    };
  })
  advance attr_len
  modify (λ m. record m {
    ribpe = record m.ribpe { as_size = 2; as_number = as_number; id = replicate 4 0 };
  })
  gets (λ m. some m.ribent)

-- `nextribent_legacy`
unfoldable pub nextribent_legacy : R (Option RibEntry)
nextribent_legacy m =
    if m.reptr == message_offset + m.hdr.len
    then ok none m
    else (if m.reptr == 0 then fault else entry_legacy m.hdr.subtype m)

-- `getribents_r`
unfoldable pub getribents_r : R (ℕ × ℕ × ℕ)
getribents_r m = if m.hdr.type == mrt_table_dumpv2 then getribents_v2 m else getribents_legacy m

-- `startribents_r`: the count is not set where `getribents_r` fails; `reptr` is then NULL, which is 0.
unfoldable pub startribents_r : R (RibHeader × Option ℕ)
startribents_r = do
  endpending
  entries ← attempt getribents_r
  modify (λ m. record m {
    reptr = elim entries [ none ↦ 0 | some (ptr, count, n) ↦ ptr ];
    flags = record m.flags { re = true };
  })
  hdr ← gets (λ m. m.ribhdr)
  return (hdr, elim entries [ none ↦ none | some (ptr, count, n) ↦ some count ])

-- `nextribent_r`
unfoldable pub nextribent_r : MrtMsg → R (Option RibEntry)
nextribent_r pi = do
  check_flags (λ f. f.re)
  λ m. if m.hdr.type == mrt_table_dumpv2 then nextribent_v2 pi m else nextribent_legacy m
