-- ===== src/Mrt/Headers/Safety.antt =====
-- The operations on BGP4MP and Zebra headers (src/mrt.c) stay inside of the packet.
use isocore.Base.{
  ℕ, ◌+◌, ◌≤◌, ◌*◌, ◌≡◌, refl, sym, ap, ◌∙◌, arith, ◌==◌, Option, none, some, length, drop,
  length-drop, take, length-take, replicate, ◌++◌, List,
}
use mathlib.Core.Path.{subst}
use isocore.Base.Bytes.{read_bytes, write_bytes, read_front, write_front}
use isocore.NetAddr.{NetAddr, Family, inet, inet6, makenaddr, naddrsize}
use isocore.Mrt.{
  einvop, ebadbgp4mphdr, ebadzebrahdr, eafinotsup, MrtMsg, Bgp4mpHeader, ZebraHeader, fault, ok,
  gets, message_offset, afi_ipv4, afi_ipv6,
}
use isocore.Mrt.Headers.{
  start_of, end_of, naddr_at, set_bgp4mp, read_ases, read_addrs, read_states, read_family,
  skip_addrs, skip_family, getbgp4mpheader_r, unwrapbgp4mp_r, ipv4_over, set_zebra, zebra_local,
  zebra_states, getzebraheader_r, unwrapzebra_r,
}
use isocore.Mrt.Safe.{
  InPlace, Safe, SafeOp, Any, after, branch, returns, fails_with, modifies, obtains, requires,
  bounds, reads_number, copies,
}

naddrsize_bytes : (size : ℕ) → naddrsize (8 * size) ≡ size
unfolding naddrsize
naddrsize_bytes size = ground arith

-- `makenaddr` of whole bytes that are there.
pub makenaddr_lem :
    (family : Family) (sin : List ℕ) (size : ℕ)
    → size ≤ 16
    → size ≤ length sin
    → makenaddr family sin (8 * size)
      ≡ some (record {
        family = family;
        bitlen = 8 * size;
        bytes = take size sin ++ drop size (replicate 16 0);
      })
unfolding makenaddr
makenaddr_lem family sin size small there =
    ap (λ n. made (read_bytes sin 0 n)) (naddrsize_bytes size) ∙ ap made read ∙ ap filled write
  where
    bs : List ℕ
    bs = take size sin

    length_bs : length bs ≡ size
    length_bs = omega (arith, there, length-take size sin)

    filled : Option (List ℕ) → Option NetAddr
    filled o = elim o [
      | none ↦ none
      | some bytes ↦ some (record { family = family; bitlen = 8 * size; bytes = bytes })
    ]

    made : Option (List ℕ) → Option NetAddr
    made o = elim o [ none ↦ none | some src ↦ filled (write_bytes (replicate 16 0) 0 src) ]

    read : read_bytes sin 0 size ≡ some bs
    read = read_front sin size there

    write : write_bytes (replicate 16 0) 0 bs ≡ some (bs ++ drop size (replicate 16 0))
    write =
        write_front (replicate 16 0) bs (omega (arith, small, length_bs))
        ∙ ap (λ n. some (bs ++ drop n (replicate 16 0))) length_bs

-- The offset and the length that `unwrapbgp4mp_r` and `unwrapzebra_r` return end where the packet does.
abbrev pub Payload : MrtMsg → ℕ × ℕ → Type 0
Payload m (ptr, n) = ptr + n ≡ end_of m

module _ (m : MrtMsg) (i : InPlace m) where
  sets_bgp4mp : (f : Bgp4mpHeader → Bgp4mpHeader) → SafeOp m Any (set_bgp4mp f)
  sets_bgp4mp f =
      modifies (λ m. record m { bgp4mphdr = f m.bgp4mphdr })
        λ m'. record { buf = refl; hdr = refl; flags = refl }

  sets_zebra : (f : ZebraHeader → ZebraHeader) → SafeOp m Any (set_zebra f)
  sets_zebra f =
      modifies (λ m. record m { zebrahdr = f m.zebrahdr })
        λ m'. record { buf = refl; hdr = refl; flags = refl }

  pub obtains_end : SafeOp m (λ end. end ≡ end_of m) (gets end_of)
  obtains_end = obtains end_of (λ m' s. ap (λ h. message_offset + h.len) s.hdr)

  module _ (end : ℕ) (is_end : end ≡ end_of m) where
    naddr_at-SafeOp :
        (family : Family) (ptr size : ℕ)
        → size ≤ 16
        → ptr + size ≤ end
        → SafeOp m Any (naddr_at family ptr (8 * size))
    unfolding naddr_at
    naddr_at-SafeOp family ptr size small h = record {
      run = λ m' s.
          subst (λ o. Safe m Any (elim o [ none ↦ fault | some a ↦ ok a m' ]))
            (sym (
              makenaddr_lem family (drop ptr m'.buf) size small
                (omega (arith, h, is_end, i.fits, ap length s.buf, length-drop ptr m'.buf))))
            (s, tt);
    }

    read_ases-SafeOp : (ptr size : ℕ) → SafeOp m (λ next. next ≤ end) (read_ases ptr end size)
    unfolding read_ases
    read_ases-SafeOp ptr size = after (bounds ptr end (2 * size) ebadbgp4mphdr) λ u room.
        after (reads_number i ptr size (omega (arith, room, is_end))) λ peer v.
          after (sets_bgp4mp _) λ u v.
            after (reads_number i (ptr + size) size (omega (arith, room, is_end)))
              λ loc v. after (sets_bgp4mp _) λ u v. returns _ (omega (arith, room))

    read_addrs-SafeOp :
        (family : Family) (ptr size : ℕ)
        → size ≤ 16
        → SafeOp m (λ next. next ≤ end) (read_addrs ptr end family size)
    unfolding read_addrs
    read_addrs-SafeOp family ptr size small =
        after (bounds ptr end (2 * size) ebadbgp4mphdr) λ u room.
          after (naddr_at-SafeOp family ptr size small (omega (arith, room))) λ peer v.
            after (sets_bgp4mp _) λ u v.
              after (naddr_at-SafeOp family (ptr + size) size small (omega (arith, room)))
                λ loc v. after (sets_bgp4mp _) λ u v. returns _ (omega (arith, room))

    read_states-SafeOp : (ptr : ℕ) → SafeOp m Any (read_states ptr end)
    unfolding read_states
    read_states-SafeOp ptr = after (bounds ptr end 4 ebadbgp4mphdr) λ u room.
        after (reads_number i ptr 2 (omega (arith, room, is_end))) λ old v.
          after (sets_bgp4mp _) λ u v.
            after (reads_number i (ptr + 2) 2 (omega (arith, room, is_end))) λ new v. sets_bgp4mp _

    read_family-SafeOp : (afi ptr : ℕ) → SafeOp m (λ next. next ≤ end) (read_family afi ptr end)
    unfolding read_family
    read_family-SafeOp afi ptr =
        branch (afi == afi_ipv4) (read_addrs-SafeOp inet ptr 4 (omega arith)) (
          branch (afi == afi_ipv6) (read_addrs-SafeOp inet6 ptr 16 (omega arith))
            (fails_with eafinotsup))

    skip_addrs-SafeOp : (ptr size : ℕ) → SafeOp m (λ next. next ≤ end) (skip_addrs ptr end size)
    unfolding skip_addrs
    skip_addrs-SafeOp ptr size =
        after (bounds ptr end (2 * size) ebadbgp4mphdr) λ u room. returns _ room

    ipv4_over-SafeOp : (old : NetAddr) (ptr : ℕ) → ptr + 4 ≤ end → SafeOp m Any (ipv4_over old ptr)
    unfolding ipv4_over
    ipv4_over-SafeOp old ptr h =
        after (copies i ptr 4 (omega (arith, h, is_end))) λ sin l. returns _ tt

    zebra_local-SafeOp : (ptr : ℕ) → SafeOp m Any (zebra_local ptr end)
    unfolding zebra_local
    zebra_local-SafeOp ptr = after (bounds ptr end 6 ebadzebrahdr) λ u room.
        after (reads_number i ptr 2 (omega (arith, room, is_end))) λ as_number v.
          after (sets_zebra _) λ u v. after (obtains {P = Any} _ (λ m' s. tt)) λ old v.
            after (ipv4_over-SafeOp old (ptr + 2) (omega (arith, room))) λ addr v. sets_zebra _

    zebra_states-SafeOp : (ptr : ℕ) → SafeOp m Any (zebra_states ptr end)
    unfolding zebra_states
    zebra_states-SafeOp ptr = after (bounds ptr end 4 ebadzebrahdr) λ u room.
        after (reads_number i ptr 2 (omega (arith, room, is_end))) λ old v.
          after (sets_zebra _) λ u v.
            after (reads_number i (ptr + 2) 2 (omega (arith, room, is_end))) λ new v. sets_zebra _

  pub getbgp4mpheader_r-SafeOp : SafeOp m Any getbgp4mpheader_r
  unfolding getbgp4mpheader_r
  getbgp4mpheader_r-SafeOp = after (requires einvop _) λ u v.
      after (obtains {P = Any} start_of (λ m' s. tt)) λ start v. after obtains_end λ end is_end.
        after (sets_bgp4mp _) λ u v. after (obtains {P = Any} _ (λ m' s. tt)) λ as32 v.
          after (read_ases-SafeOp end is_end start _) λ ptr v.
            after (bounds ptr end 4 ebadbgp4mphdr) λ u room.
              after (reads_number i ptr 2 (omega (arith, room, is_end))) λ iface v.
                after (sets_bgp4mp _) λ u v.
                  after (reads_number i (ptr + 2) 2 (omega (arith, room, is_end))) λ afi v.
                    after (read_family-SafeOp end is_end afi (ptr + 4)) λ next v.
                      after (obtains {P = Any} _ (λ m' s. tt)) λ has_state v.
                        after
                          (branch has_state (read_states-SafeOp end is_end next) (sets_bgp4mp _))
                          λ u v. obtains _ (λ m' s. tt)

  pub unwrapbgp4mp_r-SafeOp : SafeOp m (Payload m) unwrapbgp4mp_r
  unfolding unwrapbgp4mp_r skip_family
  unwrapbgp4mp_r-SafeOp = after (requires einvop _) λ u v.
      after (obtains {P = Any} start_of (λ m' s. tt)) λ start v. after obtains_end λ end is_end.
        after (obtains {P = Any} _ (λ m' s. tt)) λ as32 v.
          after (bounds start end _ ebadbgp4mphdr) λ u room.
            after (reads_number i _ 2 (omega (arith, room, is_end))) λ afi v.
              after
                (branch (afi == afi_ipv4) (skip_addrs-SafeOp end is_end _ 4) (
                  branch (afi == afi_ipv6) (skip_addrs-SafeOp end is_end _ 16)
                    (fails_with eafinotsup)))
                λ ptr inside. returns _ (omega (arith, inside, is_end))

  pub getzebraheader_r-SafeOp : SafeOp m Any getzebraheader_r
  unfolding getzebraheader_r
  getzebraheader_r-SafeOp = after (requires einvop _) λ u v. after obtains_end λ end is_end.
      after (bounds message_offset end 6 ebadzebrahdr) λ u room.
        after (reads_number i message_offset 2 (omega (arith, room, is_end))) λ as_number v.
          after (sets_zebra _) λ u v. after (obtains {P = Any} _ (λ m' s. tt)) λ old v.
            after (ipv4_over-SafeOp end is_end old (message_offset + 2) (omega (arith, room)))
              λ addr v. after (sets_zebra _) λ u v.
                after (obtains {P = Any} _ (λ m' s. tt)) λ wraps v.
                  after (obtains {P = Any} _ (λ m' s. tt)) λ has_state v.
                    after
                      (branch wraps (zebra_local-SafeOp end is_end _)
                        (branch has_state (zebra_states-SafeOp end is_end _) (fails_with einvop)))
                      λ u v. obtains _ (λ m' s. tt)

  pub unwrapzebra_r-SafeOp : SafeOp m (Payload m) unwrapzebra_r
  unfolding unwrapzebra_r
  unwrapzebra_r-SafeOp = after (requires einvop _) λ u v. after (requires einvop _) λ u v.
      after obtains_end λ end is_end.
        after (bounds message_offset end 12 ebadzebrahdr)
          λ u room. returns _ (omega (arith, room, is_end))
