-- ===== src/Mrt/Open/Opened.antt =====
-- What a packet is after it was opened (src/mrt.c).
use isocore.Base.{
  ℕ, ◌+◌, ◌≤◌, ◌<◌, ◌≡◌, ◌≢◌, refl, arith, inl, Bool, true, false, not, ◌||◌, ltb, leb, ◌==◌,
  ltb→lt, leb→le, if◌then◌else◌, List, ◌++◌, Option, none, some, length,
}
use isocore.Mrt.{
  MrtErr, enoerr, eio, enomem, ebadhdr, etypenotsup, MrtHeader, MrtMsg, Outcome, ok, mrt_bgp,
  mrt_bgp4mp_et,
}
use isocore.Mrt.Table.{mrtflags}
use isocore.Mrt.Open.{MrtAlloc, Stream, decode_header, stamp_only, fill_buffer, setmrtreadfrom_r}
use isocore.Mrt.Open.Fill.{Sized, Bounded, Result, Result-if, fill_buffer-Opened}

module _ {S : Type 0} (alloc : MrtAlloc) (blocks : Sized alloc) (fastbuf : List ℕ)
    (fast_size : length fastbuf ≡ 4096) (io : Stream S) (few : Bounded io) where
  -- The decoded header, and the bytes of the packet, that the stream has.
  abbrev pub header_of : S → MrtHeader
  header_of s = decode_header (io.read s 12).0

  abbrev pub packet_of : S → List ℕ
  packet_of s = (io.read s 12).0 ++ (io.read (io.read s 12).1 (header_of s).len).0

  -- Why the packet is refused: its header is not whole, the type or the subtype is out of range or not in
  -- the table, there is no memory, or the stream ends before the packet.
  pub data Cause (s : S) : MrtErr → Type 0 where
    bad_header :
        length ((io.read s 12).0) ≢ 12
        → Cause s (if ltb 0 (length ((io.read s 12).0)) then ebadhdr else eio)
    bad_type :
        (ltb (header_of s).type mrt_bgp || ltb mrt_bgp4mp_et (header_of s).type) ≡ true
        → Cause s etypenotsup
    bad_subtype : 13 ≤ (header_of s).subtype → Cause s ebadhdr
    bad_entry : (mrtflags (header_of s).type (header_of s).subtype).valid ≡ false → Cause s ebadhdr
    bad_memory : alloc ((header_of s).len + 12) ≡ none → Cause s enomem
    bad_body :
        length ((io.read (io.read s 12).1 (header_of s).len).0) ≢ (header_of s).len
        → Cause s (if io.error (io.read (io.read s 12).1 (header_of s).len).1 then eio else ebadhdr)

  -- For blocks of the size asked for, an embedded buffer of 4096 bytes and a stream that gives no more
  -- than was asked for, `setmrtreadfrom_r` accesses nothing outside of its buffers. Either it returns the
  -- error of one of the listed causes, which holds, and leaves the flags and the error of the message as they were, or it returns `MRT_ENOERR`, the
  -- packet is in the buffer with the header's length, its flags are those of the table for its type and
  -- subtype with the one for reading, that entry is valid, and neither an error nor a peer index is left
  -- from before.
  pub setmrtreadfrom_r-Opened :
      (s : S) (m : MrtMsg)
      → Result (Cause s) m (header_of s) (packet_of s) (setmrtreadfrom_r alloc fastbuf io s m)
  unfolding setmrtreadfrom_r fill_buffer
  setmrtreadfrom_r-Opened s m =
      decide (not (length hdr == 12)) _ _
        (λ t. small (ltb 0 (length hdr)) (bad_header (λ e. ground (arith, e, t))))
        λ whole.
          decide (ltb h.type mrt_bgp || ltb mrt_bgp4mp_et h.type) _ _
            (λ t. refused etypenotsup (stamp_only hdr) (bad_type t) (λ e. cc))
            λ f.
              decide (leb 13 h.subtype) _ _
                (λ t.
                  refused ebadhdr (stamp_only hdr) (bad_subtype (leb→le 13 h.subtype t)) (λ e. cc))
                λ f.
                  decide (not (mrtflags h.type h.subtype).valid) _ _
                    (λ t. refused ebadhdr h (bad_entry (ground (arith, t))) (λ e. cc))
                    λ valid.
                      decide (ltb 4096 (h.len + 12)) _ _
                        (λ big.
                          allocated (twelve whole) (is_valid valid) (ltb→lt _ _ big)
                            (alloc (h.len + 12)) refl)
                        (λ small.
                          fill_buffer-Opened io few m h hdr (twelve whole) s' (is_valid valid)
                            (Cause s) bad_body true fastbuf (ground (arith, small, fast_size))
                            (omega (arith, fast_size)))
    where
      hdr : List ℕ
      hdr = (io.read s 12).0

      s' : S
      s' = (io.read s 12).1

      h : MrtHeader
      h = header_of s

      decide :
          (b : Bool) (x y : Outcome (MrtErr × S))
          → (b ≡ true → Result (Cause s) m h (packet_of s) x)
          → (b ≡ false → Result (Cause s) m h (packet_of s) y)
          → Result (Cause s) m h (packet_of s) (if b then x else y)
      decide = Result-if (Cause s) m h (packet_of s)

      refused :
          (e : MrtErr) (k : MrtHeader)
          → Cause s e
          → e ≢ enoerr
          → Result {S = S} (Cause s) m h (packet_of s) (ok (e, s') (record m { hdr = k }))
      refused e k c d = inl (record { cause = c; flags = refl; err = refl; error = d })

      small :
          (b : Bool)
          → Cause s (if b then ebadhdr else eio)
          → Result {S = S} (Cause s) m h (packet_of s) (ok (if b then ebadhdr else eio, s') m)
      small true c = inl (record { cause = c; flags = refl; err = refl; error = λ e. cc })
      small false c = inl (record { cause = c; flags = refl; err = refl; error = λ e. cc })

      twelve : not (length hdr == 12) ≡ false → length hdr ≡ 12
      twelve f = ground (arith, f)

      is_valid :
          not (mrtflags h.type h.subtype).valid ≡ false → (mrtflags h.type h.subtype).valid ≡ true
      is_valid f = ground (arith, f)

      allocated :
          length hdr ≡ 12
          → (mrtflags h.type h.subtype).valid ≡ true
          → 4096 < h.len + 12
          → (o : Option (List ℕ)) → alloc (h.len + 12) ≡ o
          → Result {S = S}
              (Cause s)
              m
              h
              (packet_of s)
              (fill_buffer io s' hdr (mrtflags h.type h.subtype) false o (record m { hdr = h }))
      allocated whole valid big none e =
          inl (record { cause = bad_memory e; flags = refl; err = refl; error = λ e. cc })
      allocated whole valid big (some block) e =
          fill_buffer-Opened io few m h hdr whole s' valid (Cause s) bad_body false block
            (omega (arith, blocks.sized (h.len + 12) block e))
            (omega (arith, big, blocks.sized (h.len + 12) block e))
