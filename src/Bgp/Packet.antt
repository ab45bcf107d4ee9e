-- ===== src/Bgp/Packet.antt =====
-- Opening, growing, finishing and closing a packet (src/bgp.c).
use isocore.Base.{
  ℕ, ◌+◌, ◌-◌, Bool, true, false, not, ltb, leb, ◌==◌, ◌||◌, ◌&&◌, if◌then◌else◌, List, [], ◌∷◌,
  ◌++◌, Option, none, some, length, take, drop, replicate, min, get_elem?,
}
use isocore.Base.Bytes.{read_bytes, write_bytes, big16, from_big}
use isocore.Bgp.{
  Msg, OpenFlags, no_flags, Err, enoerr, eio, enomem, ebadhdr, ebadtype, Alloc, M, ◌>>=◌, ◌>>◌,
  return, access, gets, modify, check_flags, bgp_marker, length_offset, base_packet_length,
  type_offset,
}
use isocore.Bgp.Fields.{load16, store}
use isocore.Bgp.Pending.{endpending}

-- `BGPBUFSIZ`
abbrev pub bgpbufsiz : ℕ
bgpbufsiz = 4096

-- The embedded buffer.
abbrev pub fastbuf : Msg → List ℕ
fastbuf m = if m.fast then m.buf else m.spare

-- `bgp_minlengths`: 0 for the entries that the table does not name.
abbrev pub bgp_minlengths : ℕ → ℕ
bgp_minlengths type =
    if type == 1
    then 29
    else (if type == 2
        then 23
        else (if type == 3
            then 21
            else (if type == 4
                then 19
                else (if type == 5 then 23 else (if type == 255 then 19 else 0)))))

-- `setbgpwrite_r`; the table has 256 entries.
unfoldable pub setbgpwrite_r : ℕ → OpenFlags → M Err
setbgpwrite_r type flags m =
    if leb 256 type || bgp_minlengths type == 0
    then some (ebadtype, m)
    else (do
      modify λ m. record m {
        flags = record no_flags {
          wr = true;
          asn32bit = flags.use_asn32bit;
          addpath = flags.use_addpath;
        };
        pktlen = bgp_minlengths type;
        bufsiz = bgpbufsiz;
        err = enoerr;
        buf = fastbuf m;
        fast = true;
      }
      store 0 bgp_marker
      store length_offset (replicate (bgp_minlengths type - length_offset) 0)
      store type_offset (type ∷ [])
      return enoerr)
        m

-- The `memcpy` of `setbgpread_r` into the buffer chosen, NULL if the allocation failed.
unfoldable pub copy_packet : Bool → List ℕ → Option (List ℕ) → M Err
copy_packet fast bytes none m = some (enomem, record m { buf = []; fast = fast; spare = fastbuf m })
copy_packet fast bytes (some block) m = elim (write_bytes block 0 bytes) [
  | none ↦ none
  | some b ↦
      some (enoerr, record m { buf = b; fast = fast; spare = fastbuf m; offtab = replicate 16 0 })
]

-- The branch of `BGPF_NOCOPY`: the caller's buffer is shared.
unfoldable pub share_packet : List ℕ → M Err
share_packet bytes m = some (
  enoerr,
  record m {
    buf = bytes;
    fast = false;
    spare = fastbuf m;
    flags = record m.flags { sh = true };
    offtab = replicate 16 0;
  },
)

-- `setbgpread_r`; its first line is the `assert`.
unfoldable pub setbgpread_r : Alloc → List ℕ → OpenFlags → M Err
setbgpread_r alloc bytes flags = do
  let n = length bytes
  access (λ _. if leb n 65535 then some tt else none)
  modify λ m. record m {
    flags = record no_flags {
      rd = true;
      asn32bit = flags.use_asn32bit;
      addpath = flags.use_addpath;
    };
    err = enoerr;
    pktlen = n;
    bufsiz = n;
  }
  fast ← gets fastbuf
  if flags.nocopy
      then share_packet bytes
      else (if ltb bgpbufsiz n
          then copy_packet false bytes (alloc n)
          else copy_packet true bytes (some fast))

-- The `io->read` of the caller's stream: up to `n` bytes, and what is left of the stream.
abbrev pub Read : Type 0 → Type 0
Read S = S → ℕ → List ℕ × S

abbrev list_eq : List ℕ → List ℕ → Bool
list_eq [] [] = true
list_eq [] (y ∷ ys) = false
list_eq (x ∷ xs) [] = false
list_eq (x ∷ xs) (y ∷ ys) = x == y && list_eq xs ys

-- The second half of `setbgpreadfrom_r`, once the header is known good: the chosen buffer gets the
-- header and the rest of the packet.
unfoldable pub read_body :
    {S : Type 0} → Read S → S → List ℕ → ℕ → Bool → OpenFlags → Option (List ℕ) → M (Err × S)
read_body read s hdr len fast flags none m =
    some ((enomem, s), record m { buf = []; fast = fast; spare = fastbuf m })
read_body read s hdr len fast flags (some block) m =
    let (body, s') = read s (len - base_packet_length) in
    elim (write_bytes block 0 (hdr ++ body)) [
      | none ↦ none
      | some b ↦ some (
          if length body == len - base_packet_length
          then (
            (enoerr, s'),
            record m {
              buf = b;
              fast = fast;
              spare = fastbuf m;
              flags = record no_flags {
                rd = true;
                asn32bit = flags.use_asn32bit;
                addpath = flags.use_addpath;
              };
              err = enoerr;
              pktlen = len;
              bufsiz = len;
              offtab = replicate 16 0;
            },
          )
          else ((eio, s'), record m { buf = b; fast = fast; spare = fastbuf m }))
    ]

-- `setbgpreadfrom_r`, with the stream left for the next packet
unfoldable pub setbgpreadfrom_r : {S : Type 0} → Alloc → Read S → S → OpenFlags → M (Err × S)
setbgpreadfrom_r alloc read s flags m =
    let (hdr, s') = read s base_packet_length in
    let len = from_big (take 2 (drop length_offset hdr)) 0 in
    if not (length hdr == base_packet_length)
    then some ((eio, s'), m)
    else (if not (list_eq (take 16 hdr) bgp_marker)
        then some ((ebadhdr, s'), m)
        else (if ltb len base_packet_length
            then some ((ebadhdr, s'), m)
            else (if ltb bgpbufsiz len
                then read_body read s' hdr len false flags (alloc len) m
                else read_body read s' hdr len true flags (some (fastbuf m)) m)))

-- `bgpensure`: room for `len` more bytes. `realloc` is taken to move the buffer.
unfoldable pub bgpensure : Alloc → ℕ → M Bool
bgpensure alloc len m =
    let len' = len + m.pktlen in
    let size = min (len' + 256) 65535 in
    if ltb m.bufsiz len'
    then (elim (alloc size) [
      | none ↦ some (false, record m { err = enomem })
      | some block ↦
          elim (read_bytes m.buf 0 (if m.fast then m.pktlen else min (length m.buf) size)) [
            | none ↦ none
            | some old ↦ elim (write_bytes block 0 old) [
              | none ↦ none
              | some b ↦ some (
                true,
                record m { buf = b; fast = false; spare = fastbuf m; bufsiz = size; moved = true },
              )
            ]
          ]
    ])
    else some (true, m)

-- `bgpfinish_r`: the packet and its length, or NULL.
unfoldable pub bgpfinish_r : M (Option (List ℕ × ℕ))
bgpfinish_r =
    check_flags (λ f. f.wr) (λ _. none)
      do
        endpending
        n ← gets (λ m. m.pktlen)
        store length_offset (big16 n)
        modify λ m. record m {
          offtab = if m.flags.presofftab then m.offtab else replicate 16 0;
          flags = record m.flags { wr = false; presofftab = false; rd = true };
        }
        buf ← gets (λ m. m.buf)
        return (some (buf, n))

-- `getbgplength_r`
unfoldable pub getbgplength_r : M ℕ
getbgplength_r = check_flags (λ f. f.rd) (λ _. 0) (access (load16 length_offset))

-- `getbgptype_r`; `none` inside is `BGP_BADTYPE`.
unfoldable pub getbgptype_r : M (Option ℕ)
getbgptype_r m =
    if m.flags.rd || m.flags.wr
    then (elim (get_elem? m.buf type_offset) [ none ↦ none | some t ↦ some (some t, m) ])
    else some (none, m)

-- `bgpclose_r`; a buffer that it frees is gone, an embedded or shared one is left.
unfoldable pub bgpclose_r : M Err
bgpclose_r m = some (
  m.err,
  record m { err = enoerr; flags = no_flags; buf = if m.fast || m.flags.sh then m.buf else [] },
)
