-- ===== src/Mrt/Rib/Header.antt =====
-- The header of a RIB packet (src/mrt.c) that is read as it was written, and the prefix that is longer
-- than an address.
use isocore.Base.{
  ℕ, ◌==◌, ◌+◌, ◌-◌, ◌^◌, ◌≤◌, ◌<◌, ◌≡◌, refl, sym, ap, ◌∙◌, arith, true, List, [], ◌∷◌, ◌++◌,
  Option, none, some, length, drop, replicate,
}
use mathlib.Core.Path.{subst}
use isocore.Base.Bytes.{write_bytes, write_front, big16, big32, from_big-big16, from_big-big32}
use isocore.NetAddr.{naddrsize}
use isocore.Mrt.{
  enoerr, einvop, eneedspeeridx, ebadribent, MrtMsg, Outcome, fault, ok, return, check_bounds,
  message_offset, mrt_table_dumpv2,
}
use isocore.Mrt.Legacy.{getribents_r}
use isocore.Mrt.Headers.{end_of}
use isocore.Mrt.Headers.Inverse.{family}
use isocore.Mrt.Rib.{read_nlri, families_of, copy_nlri, getribents_v2}
use isocore.Mrt.Run.{
  Runs, run, run_fault, computes, require_ok, Front, Front-advance, number_front, copy_front,
  bounds_front, bounds_ok, if_holds,
}
use isocore.Mrt.Rib.Families.{
  RibKind, subtype_of, afi_of, safi_of, encode_families, families_size, encode_rib, byte_front,
  families_of_lem, family_of_lem, length-encode_families, naddrsize_small, naddrsize_large,
  too_long,
}

-- A RIB packet that was opened, with its peer index, and with a header that was written.
pub record Written (k : RibKind) (seqno bitlen : ℕ) (prefix : List ℕ) (count : ℕ) (rest : List ℕ)
    (m : MrtMsg) : Type 0 where
  pub live : m.err ≡ enoerr
  pub needs_pi : m.flags.needs_pi ≡ true
  pub has_index : m.peer_index ≡ true
  pub is_kind : m.hdr.subtype ≡ subtype_of k
  pub small_seqno : seqno < 2 ^ 32
  pub small_count : count < 65536
  pub size_prefix : length prefix ≡ naddrsize bitlen
  pub bytes : Front m.buf message_offset (end_of m) (encode_rib k seqno bitlen prefix count rest)

module _ (k : RibKind) (seqno bitlen : ℕ) (prefix : List ℕ) (count : ℕ) (rest : List ℕ) (m : MrtMsg)
    (w : Written k seqno bitlen prefix count rest m) where
  abbrev pub prefix_at : ℕ
  prefix_at = 16 + families_size k.generic + 1

  abbrev pub entries_at : ℕ
  entries_at = prefix_at + naddrsize bitlen + 2

  at_families :
      Front m.buf 16
        (end_of m)
        (encode_families k ++ ((bitlen ∷ []) ++ (prefix ++ (big16 count ++ rest))))
  at_families = Front-advance (big32 seqno) _ 4 refl w.bytes

  at_bitlen :
      Front m.buf
        (16 + families_size k.generic)
        (end_of m)
        ((bitlen ∷ []) ++ (prefix ++ (big16 count ++ rest)))
  at_bitlen =
      Front-advance (encode_families k) _ (families_size k.generic) (length-encode_families k)
        at_families

  at_prefix : Front m.buf prefix_at (end_of m) (prefix ++ (big16 count ++ rest))
  at_prefix = Front-advance (bitlen ∷ []) _ 1 refl at_bitlen

  at_count : Front m.buf (prefix_at + naddrsize bitlen) (end_of m) (big16 count ++ rest)
  at_count = Front-advance prefix _ (naddrsize bitlen) w.size_prefix at_prefix

  at_entries : Front m.buf entries_at (end_of m) rest
  at_entries = Front-advance (big16 count) _ 2 refl at_count

  -- The message with the header's fields, and the bytes of the prefix.
  abbrev pub with_header : List ℕ → MrtMsg
  with_header bytes = record m {
    ribhdr = record {
      seqno = seqno;
      afi = afi_of k.v6;
      safi = safi_of k.multicast;
      nlri = record { family = family k.v6; bitlen = bitlen; bytes = bytes };
    };
  }

  abbrev length_at : ℕ
  length_at = 16 + families_size k.generic

  up_to_prefix :
      {r : Outcome (ℕ × ℕ × ℕ)}
      → Runs (read_nlri length_at bitlen (end_of m)) (with_header (replicate 16 0)) r
      → Runs getribents_v2 m r
  unfolding getribents_v2
  up_to_prefix rest_runs = run _ (require_ok einvop _ m w.needs_pi w.live) (
      run _ (require_ok eneedspeeridx _ m w.has_index w.live) (
        run _ computes (
          run _
            (bounds_ok message_offset (end_of m) 4 ebadribent (omega (arith, at_families.order)))
            (run _
              (number_front m (big32 seqno) _ 4 refl w.bytes
                (from_big-big32 seqno (omega (arith, w.small_seqno))))
              (run _ computes (
                run _ families (
                  run _ (family_of_lem m k.v6 k.multicast) (
                    run _ (bounds_front m (bitlen ∷ []) _ 1 refl at_bitlen ebadribent) (
                      run _ (byte_front m length_at (end_of m) bitlen _ at_bitlen)
                        (run _ computes rest_runs))))))))))
    where
      families :
          Runs
            (families_of m.hdr.subtype 16 (end_of m))
            m
            (ok (afi_of k.v6, safi_of k.multicast, length_at) m)
      families =
          subst
            (λ s.
              Runs (families_of s 16 (end_of m)) m
                (ok (afi_of k.v6, safi_of k.multicast, length_at) m))
            (sym w.is_kind)
            (families_of_lem m 16 (end_of m) _ k.generic k.addpath k.v6 k.multicast at_families)

  check_room_prefix :
      {m' : MrtMsg}
      → Runs
          (check_bounds (length_at + 1) (end_of m) (naddrsize bitlen + 2) ebadribent)
          m'
          (ok tt m')
  check_room_prefix =
      bounds_ok prefix_at (end_of m) (naddrsize bitlen + 2) ebadribent
        (omega (arith, at_entries.order))

  -- `memcpy` into the 16 bytes of the address.
  abbrev into_address : Option (List ℕ) → Outcome (Unit {0})
  into_address o = elim o [ none ↦ fault | some bytes ↦ ok tt (with_header bytes) ]

  copy_nlri_lem :
      {r : Outcome (Unit {0})}
      → into_address (write_bytes (replicate 16 0) 0 prefix) ≡ r
      → Runs (copy_nlri prefix_at (naddrsize bitlen)) (with_header (replicate 16 0)) r
  unfolding copy_nlri
  copy_nlri_lem e =
      run _
        (copy_front (with_header (replicate 16 0)) prefix _ (naddrsize bitlen) w.size_prefix
          at_prefix)
        (record { eq = e })

  -- The way of `getribents_r` to TABLE_DUMP_V2.
  on_v2 :
      {r : Outcome (ℕ × ℕ × ℕ)}
      → m.hdr.type ≡ mrt_table_dumpv2
      → getribents_v2 m ≡ r
      → getribents_r m ≡ r
  unfolding getribents_r
  on_v2 is_v2 e =
      let v2 : (m.hdr.type == mrt_table_dumpv2) ≡ true = ground (arith, is_v2) in
      if_holds _ _ _ v2 ∙ e

  -- For a TABLE_DUMP_V2 packet of any of the ten RIB subtypes, with its peer index and no error, that was
  -- written for a sequence number, a prefix of at most 128 bits and a count: `getribents_r` returns the place
  -- after the header, the count and the bytes that are left, where the entries that were written are, and
  -- sets the header to what was written, the prefix with zeros after it.
  pub getribents_r-header :
      m.hdr.type ≡ mrt_table_dumpv2
      → bitlen ≤ 128
      → (getribents_r m
          ≡ ok
              (entries_at, count, end_of m - entries_at)
              (with_header (prefix ++ drop (naddrsize bitlen) (replicate 16 0))))
        × Front m.buf entries_at (end_of m) rest
  unfolding read_nlri
  getribents_r-header is_v2 h = (
    on_v2 is_v2
        (up_to_prefix (
          run _ check_room_prefix (
            run _ (copy_nlri_lem (ap into_address write)) (
              run _
                (number_front (with_header (prefix ++ drop (naddrsize bitlen) (replicate 16 0)))
                  (big16 count) rest 2 refl at_count (from_big-big16 count w.small_count))
                last)))).eq,
    at_entries,
  )
    where
      write :
          write_bytes (replicate 16 0) 0 prefix
          ≡ some (prefix ++ drop (naddrsize bitlen) (replicate 16 0))
      write =
          write_front (replicate 16 0) prefix
            (omega (arith, w.size_prefix, naddrsize_small bitlen h))
          ∙ ap (λ n. some (prefix ++ drop n (replicate 16 0))) w.size_prefix

      last :
          {m' : MrtMsg}
          → Runs {A = ℕ × ℕ × ℕ}
              (return (
                length_at + 3 + naddrsize bitlen,
                count,
                end_of m - (length_at + 3 + naddrsize bitlen),
              ))
              m'
              (ok (entries_at, count, end_of m - entries_at) m')
      last {m'} = record { eq = ap (λ p. ok (p, count, end_of m - p) m') shifted }
        where
          shifted : length_at + 3 + naddrsize bitlen ≡ entries_at
          shifted = omega arith

  -- For a TABLE_DUMP_V2 packet of any of the ten RIB subtypes, with its peer index and no error, that was
  -- written for a sequence number, a prefix of more than 128 bits, all of whose bytes are there, and a count:
  -- `getribents_r` writes outside of the 16 bytes of the address.
  pub getribents_r-overrun : m.hdr.type ≡ mrt_table_dumpv2 → 128 < bitlen → getribents_r m ≡ fault
  unfolding read_nlri
  getribents_r-overrun is_v2 h =
      on_v2 is_v2
        (up_to_prefix
          (run _ check_room_prefix (run_fault _ (copy_nlri_lem (ap into_address write))))).eq
    where
      write : write_bytes (replicate 16 0) 0 prefix ≡ none
      write = too_long prefix (omega (arith, w.size_prefix, naddrsize_large bitlen h))
