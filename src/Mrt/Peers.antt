-- ===== src/Mrt/Peers.antt =====
-- The peer index table (src/mrt.c): its header, the iteration over its peers, and the table of their
-- offsets that the RIB packets use.
pub mod Read
pub mod Setup
pub mod Table
use isocore.Base.{
  ℕ, zero, suc, ◌+◌, ◌-◌, min, Bool, true, false, not, ◌&&◌, ◌||◌, ltb, ◌==◌, if◌then◌else◌,
  bit_and, List, [], ◌∷◌, ◌++◌, Option, none, some, get_elem?,
}
use isocore.Base.Bytes.{read_bytes, write_bytes, from_big}
use isocore.NetAddr.{NetAddr, Family, inet, inet6}
use isocore.Mrt.{
  MrtErr, enoerr, einvop, enomem, ebadpeeridxhdr, ebadpeeridx, notpeeridx, is_ok, MrtFlags,
  PeerEntry, MrtMsg, Outcome, fault, fails, ok, R, ◌>>=◌, ◌>>◌, return, modify, gets, check_flags,
  check_bounds, copy, number, message_offset,
}

-- A call whose early return does not end the caller.
unfoldable pub attempt : {A : Type 0} → R A → R (Option A)
attempt f m = elim (f m) [ fault ↦ fault | fails m' ↦ ok none m' | ok a m' ↦ ok (some a) m' ]

-- `getpicollector_r`: the four bytes of the address.
unfoldable pub getpicollector_r : R (List ℕ)
getpicollector_r = do check_flags (λ f. f.is_pi); copy message_offset 4

-- `getpiviewname_r`: the length of the name, and what is written to a buffer of `n` bytes.
unfoldable pub getpiviewname_r : ℕ → R (ℕ × List ℕ)
getpiviewname_r n = do
  check_flags (λ f. f.is_pi)
  end ← gets (λ m. message_offset + m.hdr.len)
  check_bounds message_offset end 6 ebadpeeridxhdr
  len ← number (message_offset + 4) 2
  check_bounds (message_offset + 6) end len ebadpeeridxhdr
  let room = min n (len + 1)
  if ltb 0 room
      then (do name ← copy (message_offset + 6) (room - 1); return (len, name ++ 0 ∷ []))
      else return (len, [])

-- `getpeerents_r`: the first entry, the count and the bytes of the entries.
unfoldable pub getpeerents_r : R (ℕ × ℕ × ℕ)
getpeerents_r = do
  check_flags (λ f. f.is_pi)
  end ← gets (λ m. message_offset + m.hdr.len)
  check_bounds message_offset end 6 ebadpeeridxhdr
  len ← number (message_offset + 4) 2
  check_bounds (message_offset + 6) end (len + 2) ebadpeeridxhdr
  count ← number (message_offset + 6 + len) 2
  return (message_offset + 8 + len, count, end - (message_offset + 8 + len))

-- `endpeerents_r`
unfoldable pub endpeerents_r : R MrtErr
endpeerents_r = do
  check_flags (λ f. f.pe)
  modify (λ m. record m { flags = record m.flags { pe = false } })
  return enoerr

-- `endribents_r`, which sets the flag again.
unfoldable pub endribents_r : R MrtErr
endribents_r = do
  check_flags (λ f. f.re)
  modify (λ m. record m { flags = record m.flags { re = true } })
  return enoerr

-- `endpending`, whose result its callers leave.
unfoldable pub endpending : R (Unit {0})
endpending m =
    if m.flags.re
    then (do attempt endribents_r; return tt) m
    else (if m.flags.pe then (do attempt endpeerents_r; return tt) m else ok tt m)

-- `startpeerents_r`: the count is not set where `getpeerents_r` fails; `peptr` is then NULL, which is 0.
unfoldable pub startpeerents_r : R (Option ℕ)
startpeerents_r = do
  check_flags (λ f. f.is_pi)
  endpending
  entries ← attempt getpeerents_r
  modify (λ m. record m {
    peptr = elim entries [ none ↦ 0 | some (ptr, count, n) ↦ ptr ];
    flags = record m.flags { pe = true };
  })
  return (elim entries [ none ↦ none | some (ptr, count, n) ↦ some count ])

-- The bits `PT_IPV6` and `PT_AS32`.
abbrev pub pt_ipv6 : ℕ → Bool
pt_ipv6 flags = not (bit_and flags 1 == 0)

abbrev pub pt_as32 : ℕ → Bool
pt_as32 flags = not (bit_and flags 2 == 0)

-- `decodepeerent`, out of a buffer and over an old entry: the entry and the offset after it. The copies
-- are not compared with the end of the packet.
unfoldable pub decodepeerent : List ℕ → PeerEntry → ℕ → Option (PeerEntry × ℕ)
decodepeerent buf dst ptr = elim (get_elem? buf ptr) [
  | none ↦ none
  | some flags ↦
      let size = if pt_ipv6 flags then 16 else 4 in
      let as_size = if pt_as32 flags then 4 else 2 in
      elim (read_bytes buf (ptr + 1) 4) [
        | none ↦ none
        | some id ↦ elim (read_bytes buf (ptr + 5) size) [
          | none ↦ none
          | some sin ↦ elim (write_bytes dst.addr.bytes 0 sin) [
            | none ↦ none
            | some bytes ↦ elim (read_bytes buf (ptr + 5 + size) as_size) [
              | none ↦ none
              | some number ↦ some (
                record {
                  as_size = as_size;
                  as_number = from_big number 0;
                  id = id;
                  addr = record {
                    family = if pt_ipv6 flags then inet6 else inet;
                    bitlen = if pt_ipv6 flags then 128 else 32;
                    bytes = bytes;
                  };
                },
                ptr + 5 + size + as_size,
              )
            ]
          ]
        ]
      ]
]

-- `nextpeerent_r`: the next peer, or NULL after the last.
unfoldable pub nextpeerent_r : R (Option PeerEntry)
nextpeerent_r = do
  check_flags (λ f. f.pe)
  λ m.
      if m.peptr == m.hdr.len + message_offset
      then ok none m
      else (if m.peptr == 0 then fault else (elim (decodepeerent m.buf m.entry m.peptr) [
        | none ↦ fault
        | some (pe, ptr) ↦ ok (some pe) (record m { entry = pe; peptr = ptr })
      ]))

-- The loop of `setuppitable`; a NULL `peptr` has no offset.
unfoldable pub pitab_loop : ℕ → R (List ℕ)
pitab_loop zero = return []
pitab_loop (suc n) = do
  offset ← λ m. if m.peptr == 0 then fault else ok (m.peptr - message_offset) m
  attempt nextpeerent_r
  rest ← pitab_loop n
  return (offset ∷ rest)

abbrev pub null_pitab : MrtMsg → MrtMsg
null_pitab m = record m { pitab = none; fast_pitab = false }

-- `setuppitable` where there is no table yet; `memory` says whether `malloc` succeeds.
unfoldable pub fill_table : Bool → R MrtErr
fill_table memory = do
  started ← attempt startpeerents_r
  elim started [
    | none ↦ return ebadpeeridx
    | some none ↦ λ m. fault
    | some (some count) ↦
        if ltb 128 count && not memory then (do modify null_pitab; return enomem) else (do
          table ← pitab_loop count
          ended ← attempt endpeerents_r
          elim ended [
            | none ↦ (do modify null_pitab; return ebadpeeridx)
            | some e ↦ (do
              modify (λ m. record m {
                pitab = some table;
                fast_pitab = not (ltb 128 count);
                picount = count;
              })
              return enoerr)
          ])
  ]

-- `setuppitable`, as far as it changes the peer index.
unfoldable pub setup_table : Bool → R MrtErr
setup_table memory pi = elim pi.pitab [ some table ↦ ok enoerr pi | none ↦ fill_table memory pi ]

-- `setuppitable`, with both messages: what the first one keeps is the pointer.
unfoldable pub setuppitable : Bool → MrtMsg → MrtMsg → Option (MrtErr × MrtMsg × MrtMsg)
setuppitable memory msg pi = elim (setup_table memory pi) [
  | fault ↦ none
  | fails pi' ↦ none
  | ok e pi' ↦ some (e, record msg { peer_index = true }, pi')
]

-- `setmrtpi_r`
unfoldable pub setmrtpi_r : Bool → MrtMsg → MrtMsg → Option (MrtErr × MrtMsg × MrtMsg)
setmrtpi_r memory msg pi =
    if msg.flags.needs_pi && pi.flags.is_pi
    then setuppitable memory msg pi
    else some (einvop, msg, pi)

-- `setribpi_r`
unfoldable pub setribpi_r : Bool → MrtMsg → MrtMsg → Option (MrtErr × MrtMsg × MrtMsg)
setribpi_r memory msg pi =
    if not (is_ok msg.err) || not (is_ok pi.err)
    then some (einvop, msg, pi)
    else (if not pi.flags.is_pi then some (notpeeridx, msg, pi) else setuppitable memory msg pi)
