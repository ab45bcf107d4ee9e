-- ===== src/Mrt/Memory.antt =====
-- What reads a packet and compares every offset with its end (src/mrt.c).
use isocore.Base.{ℕ, zero, suc, ◌+◌, ◌≤◌, ◌<◌, min, ◌≡◌, ap, arith, ltb, ◌==◌}
use isocore.Mrt.{einvop, ebadpeeridxhdr, ebadribent, MrtMsg, message_offset}
use isocore.Mrt.Headers.{end_of, getbgp4mpheader_r, unwrapbgp4mp_r, getzebraheader_r, unwrapzebra_r}
use isocore.Mrt.Headers.Safety.{
  obtains_end, Payload, getbgp4mpheader_r-SafeOp, unwrapbgp4mp_r-SafeOp, getzebraheader_r-SafeOp,
  unwrapzebra_r-SafeOp,
}
use isocore.Mrt.Peers.{getpiviewname_r, getpeerents_r}
use isocore.Mrt.Legacy.{count_entries, getribents_legacy, counted_header}
use isocore.Mrt.Safe.{
  InPlace, same, Safe, SafeOp, Any, after, branch, returns, obtains, requires, bounds, reads_number,
  copies,
}

-- The entries that `getpeerents_r` and `getribents_legacy` return end where the packet does.
abbrev pub Entries : MrtMsg → ℕ × ℕ × ℕ → Type 0
Entries m (ptr, count, n) = ptr + n ≡ end_of m

module _ (m : MrtMsg) (i : InPlace m) where
  getpeerents_r-SafeOp : SafeOp m (Entries m) getpeerents_r
  unfolding getpeerents_r
  getpeerents_r-SafeOp = after (requires einvop _) λ u v. after (obtains_end m i) λ end is_end.
      after (bounds message_offset end 6 ebadpeeridxhdr) λ u room.
        after (reads_number i _ 2 (omega (arith, room, is_end))) λ len v.
          after (bounds _ end _ ebadpeeridxhdr) λ u more.
            after (reads_number i _ 2 (omega (arith, more, is_end)))
              λ count v. returns _ (omega (arith, more, is_end))

  getpiviewname_r-SafeOp : (n : ℕ) → SafeOp m Any (getpiviewname_r n)
  unfolding getpiviewname_r
  getpiviewname_r-SafeOp n = after (requires einvop _) λ u v. after (obtains_end m i) λ end is_end.
      after (bounds message_offset end 6 ebadpeeridxhdr) λ u room.
        after (reads_number i _ 2 (omega (arith, room, is_end))) λ len v.
          after (bounds _ end len ebadpeeridxhdr) λ u more.
            branch (ltb 0 (min n (len + 1)))
              (after (copies i _ _ (omega (arith, more, is_end))) λ name l. returns _ tt)
              (returns _ tt)

  -- Each round advances, so one round for each byte is enough.
  count_entries-SafeOp :
      (rounds hdrlen end cur : ℕ)
      → end ≡ end_of m
      → 2 ≤ hdrlen
      → cur ≤ end
      → end < cur + rounds
      → SafeOp m Any (count_entries rounds hdrlen end cur)
  unfolding count_entries
  count_entries-SafeOp zero hdrlen end cur is_end big start enough = absurd (omega arith)
  count_entries-SafeOp (suc rounds) hdrlen end cur is_end big start enough =
      branch (cur == end) (returns _ tt) (
        after (bounds cur end hdrlen ebadribent) λ u room.
          after (reads_number i _ 2 (omega (arith, room, is_end, big))) λ attr_len v.
            after (bounds _ end attr_len ebadribent) λ u more.
              after
                (count_entries-SafeOp rounds hdrlen end (cur + hdrlen + attr_len) is_end big more
                  (omega (arith, big, more, enough)))
                λ n v. returns _ tt)

  getribents_legacy-SafeOp : SafeOp m (Entries m) getribents_legacy
  unfolding getribents_legacy
  getribents_legacy-SafeOp = after (requires einvop _) λ u v.
      after (obtains {P = λ len. len ≡ m.hdr.len} _ (λ m' s. ap (λ h. h.len) s.hdr)) λ len is_len.
        after (obtains {P = Any} _ (λ m' s. tt)) λ subtype v.
          after
            (count_entries-SafeOp (suc len) (counted_header subtype) (message_offset + len)
              message_offset (omega (arith, is_len)) (ground arith) (omega arith) (omega arith))
            λ n v. returns _ (omega (arith, is_len))

  -- For a packet that is in its buffer, the headers of BGP4MP and Zebra packets, the BGP messages in
  -- them, the view's name and the start and the count of the entries of a peer index and of a TABLE_DUMP
  -- are read without an access outside of the buffer and without an end of the rounds given, whatever
  -- the packet holds, and leave the packet, its header and its flags as they are, also where they fail.
  -- The messages and the entries that are returned end where the packet does.
  pub reads-InPlace :
      (n : ℕ)
      → Safe m Any (getbgp4mpheader_r m)
        × Safe m (Payload m) (unwrapbgp4mp_r m)
        × Safe m Any (getzebraheader_r m)
        × Safe m (Payload m) (unwrapzebra_r m)
        × Safe m Any (getpiviewname_r n m)
        × Safe m (Entries m) (getpeerents_r m)
        × Safe m (Entries m) (getribents_legacy m)
  reads-InPlace n = (
    (getbgp4mpheader_r-SafeOp m i).run m (same m),
    (unwrapbgp4mp_r-SafeOp m i).run m (same m),
    (getzebraheader_r-SafeOp m i).run m (same m),
    (unwrapzebra_r-SafeOp m i).run m (same m),
    (getpiviewname_r-SafeOp n).run m (same m),
    getpeerents_r-SafeOp.run m (same m),
    getribents_legacy-SafeOp.run m (same m),
  )
