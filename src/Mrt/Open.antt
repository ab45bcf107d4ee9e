-- ===== src/Mrt/Open.antt =====
-- Opening and closing an MRT packet, and what it is (src/mrt.c).
pub mod Fill
pub mod Opened
use isocore.Base.{
  ℕ, ◌%◌, ◌^◌, ◌+◌, ◌-◌, ◌*◌, Bool, true, false, not, ◌&&◌, ◌||◌, ltb, leb, ◌==◌, if◌then◌else◌,
  List, [], ◌∷◌, ◌++◌, Option, none, some, length, take, drop, replicate,
}
use isocore.Base.Bytes.{read_bytes, write_bytes, from_big}
use isocore.Mrt.{
  MrtErr, enoerr, eio, enomem, ebadhdr, etypenotsup, MrtFlags, no_flags, MrtHeader, MrtMsg, Outcome,
  fault, fails, ok, R, ◌>>=◌, ◌>>◌, return, gets, check_flags, mrt_bgp, mrt_bgp4mp_et,
  message_offset,
}
use isocore.Mrt.Table.{mrtflags}

-- What `malloc` returns for a size, and the stream that packets are read from: up to `n` bytes and the
-- stream that is left, and whether it had an error.
abbrev pub MrtAlloc : Type 0
MrtAlloc = ℕ → Option (List ℕ)

pub record Stream (S : Type 0) : Type 0 where
  pub read : S → ℕ → List ℕ × S
  pub error : S → Bool

-- `msg->hdr` as it is decoded, with a time stamp that has no fraction.
abbrev pub decode_header : List ℕ → MrtHeader
decode_header hdr = record {
  tv_sec = from_big (take 4 hdr) 0;
  tv_nsec = 0;
  type = from_big (take 2 (drop 4 hdr)) 0;
  subtype = from_big (take 2 (drop 6 hdr)) 0;
  len = from_big (take 4 (drop 8 hdr)) 0;
}

-- The header as it is while only the time is decoded.
abbrev pub stamp_only : List ℕ → MrtHeader
stamp_only hdr = record {
  tv_sec = from_big (take 4 hdr) 0;
  tv_nsec = 0;
  type = 0;
  subtype = 0;
  len = 0;
}

-- The last part of `setmrtreadfrom_r`.
unfoldable pub finish_read : MrtFlags → ℕ → R MrtErr
finish_read flags n m =
    if flags.is_ext
    then (elim (read_bytes m.buf message_offset 4) [
      | none ↦ fault
      | some usec ↦ ok enoerr (opened (from_big usec 0 * 1000))
    ])
    else ok enoerr (opened m.hdr.tv_nsec)
  where
    opened : ℕ → MrtMsg
    opened nsec = record m {
      hdr = record m.hdr { tv_nsec = nsec };
      flags = record flags { rd = true };
      err = enoerr;
      bufsiz = n % 2 ^ 32;
      peer_index = false;
      pitab = none;
    }

-- The packet's buffer is filled with the header and what follows it.
unfoldable pub fill_buffer :
    {S : Type 0}
    → Stream S
    → S
    → List ℕ
    → MrtFlags
    → Bool
    → Option (List ℕ)
    → MrtMsg
    → Outcome (MrtErr × S)
fill_buffer io s hdr flags fast none m = ok (enomem, s) (record m { buf = []; fast = fast })
fill_buffer io s hdr flags fast (some block) m =
    let (body, s') = io.read s m.hdr.len in
    elim (write_bytes block 0 (hdr ++ body)) [
      | none ↦ fault
      | some b ↦
          if length body == m.hdr.len
          then (elim (finish_read flags (m.hdr.len + 12) (record m { buf = b; fast = fast })) [
            | fault ↦ fault
            | fails m' ↦ fails m'
            | ok e m' ↦ ok (e, s') m'
          ])
          else ok (if io.error s' then eio else ebadhdr, s') (record m { buf = b; fast = fast })
    ]

-- `fastbuf` has `MRTBUFSIZ` bytes, whose contents are given.
-- `setmrtreadfrom_r`, with the stream left for the next packet.
unfoldable pub setmrtreadfrom_r :
    {S : Type 0} → MrtAlloc → List ℕ → Stream S → S → MrtMsg → Outcome (MrtErr × S)
setmrtreadfrom_r alloc fastbuf io s m =
    let (hdr, s') = io.read s 12 in
    let h = decode_header hdr in
    let flags = mrtflags h.type h.subtype in
    if not (length hdr == 12)
    then ok (if ltb 0 (length hdr) then ebadhdr else eio, s') m
    else (if ltb h.type mrt_bgp || ltb mrt_bgp4mp_et h.type
        then ok (etypenotsup, s') (record m { hdr = stamp_only hdr })
        else (if leb 13 h.subtype
            then ok (ebadhdr, s') (record m { hdr = stamp_only hdr })
            else (if not flags.valid
                then ok (ebadhdr, s') (record m { hdr = h })
                else (if ltb 4096 (h.len + 12)
                    then fill_buffer io s' hdr flags false (alloc (h.len + 12))
                        (record m { hdr = h })
                    else fill_buffer io s' hdr flags true (some fastbuf) (record m { hdr = h })))))

-- A memory stream of `IO_MEM_RDINIT` (src/io.c): `io_mread` takes what is left if it is less, and there is
-- no error.
abbrev pub io_mem : Stream (List ℕ)
io_mem = record { read = λ left n. (take n left, drop n left); error = λ left. false }

-- `setmrtread_r`
unfoldable pub setmrtread_r : MrtAlloc → List ℕ → List ℕ → MrtMsg → Outcome (MrtErr × List ℕ)
setmrtread_r alloc fastbuf packet m = setmrtreadfrom_r alloc fastbuf io_mem packet m

-- `getmrtheader_r`
unfoldable pub getmrtheader_r : R MrtHeader
getmrtheader_r = do check_flags (λ f. f.rd); gets (λ m. m.hdr)

-- `mrterror_r` and `mrtclose_r`; the freed buffers are not used again.
unfoldable pub mrterror_r : R MrtErr
mrterror_r = gets (λ m. m.err)

unfoldable pub mrtclose_r : R MrtErr
mrtclose_r m = ok m.err (record m { flags = no_flags })

-- `ismrtext_r`, `isbgpwrapper_r`, `ismrtrib_r`, `ismrtasn32bit_r` and `ismrtaddpath_r`
abbrev pub ismrtext_r : MrtMsg → Bool
ismrtext_r m = m.flags.rd && m.flags.is_ext

abbrev pub isbgpwrapper_r : MrtMsg → Bool
isbgpwrapper_r m = m.flags.rd && m.flags.wraps_bgp

abbrev pub ismrtrib_r : MrtMsg → Bool
ismrtrib_r m = m.flags.rd && m.flags.needs_pi

abbrev pub ismrtasn32bit_r : MrtMsg → Bool
ismrtasn32bit_r m = m.flags.as32

abbrev pub ismrtaddpath_r : MrtMsg → Bool
ismrtaddpath_r m = m.flags.addpath
