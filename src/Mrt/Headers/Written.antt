-- ===== src/Mrt/Headers/Written.antt =====
-- What the operations on BGP4MP packets (src/mrt.c) return of a packet that was written for a session.
use isocore.Base.{
  ℕ, ◌+◌, ◌-◌, ◌*◌, ◌<◌, ◌≡◌, refl, sym, ap, arith, Bool, true, false, ◌&&◌, if◌then◌else◌, List,
  ◌++◌,
}
use mathlib.Core.Path.{subst}
use isocore.Base.Bytes.{big16, from_big-big16}
use isocore.Mrt.{enoerr, einvop, ebadbgp4mphdr, MrtMsg, ok, afi_ipv4, afi_ipv6}
use isocore.Mrt.Headers.{start_of, end_of, zero_bgp4mp, getbgp4mpheader_r, unwrapbgp4mp_r}
use isocore.Mrt.Headers.Inverse.{
  Session, Sized, as_size, addr_size, family, encode_as, encode_bgp4mp, header_of, states, state,
  length-encode_as, from_big-encode_as, read_family_lem, skip_family_lem, read_states_lem,
}
use isocore.Mrt.Headers.Fields.{address, read_ases_lem}
use isocore.Mrt.Run.{
  Runs, run, computes, require_ok, Front, Front-advance, Front-pair, number_front, bounds_front,
  bounds_ok,
}

module _ (m : MrtMsg) (live : m.err ≡ enoerr) (s : Session) (sized : Sized m.flags.as32 s)
    (rest : List ℕ)
    (written : Front m.buf (start_of m) (end_of m) (encode_bgp4mp m.flags.as32 s rest)) where
  abbrev as32 : Bool
  as32 = m.flags.as32

  abbrev end : ℕ
  end = end_of m

  abbrev addrs : List ℕ
  addrs = s.peer_addr ++ (s.local_addr ++ rest)

  abbrev afi : ℕ
  afi = if s.v6 then afi_ipv6 else afi_ipv4

  small_afi : afi < 65536
  small_afi = ground arith

  -- The offsets after the AS numbers, the interface, the AFI and the addresses.
  abbrev after_ases : ℕ
  after_ases = start_of m + 2 * as_size as32

  abbrev pub payload : ℕ
  payload = after_ases + 4 + 2 * addr_size s.v6

  at_ases : Front m.buf after_ases end (big16 s.iface ++ (big16 afi ++ addrs))
  at_ases =
      Front-pair (encode_as as32 s.peer_as) (encode_as as32 s.local_as) _ (as_size as32)
        (length-encode_as as32 s.peer_as) (length-encode_as as32 s.local_as) written

  at_afi : Front m.buf (after_ases + 2) end (big16 afi ++ addrs)
  at_afi = Front-advance (big16 s.iface) (big16 afi ++ addrs) 2 refl at_ases

  at_addrs : Front m.buf (after_ases + 4) end addrs
  at_addrs = Front-advance (big16 s.iface ++ big16 afi) addrs 4 refl at_ases

  pub at_payload : Front m.buf payload end rest
  at_payload =
      Front-pair s.peer_addr s.local_addr rest (addr_size s.v6) sized.peer_addr sized.local_addr
        at_addrs

  pub getbgp4mpheader_r_lem :
      (old new : ℕ) (payload_bytes : List ℕ)
      → old < 65536
      → new < 65536
      → rest ≡ states m.flags.has_state old new ++ payload_bytes
      → (m.flags.rd && m.flags.is_bgp) ≡ true
      → Runs getbgp4mpheader_r m (
          ok (header_of s (state m.flags.has_state old) (state m.flags.has_state new)) (record m {
            bgp4mphdr = header_of s (state m.flags.has_state old) (state m.flags.has_state new);
          }))
  unfolding getbgp4mpheader_r
  getbgp4mpheader_r_lem old new payload_bytes small_old small_new is_rest bgp =
      run _ (require_ok einvop _ m bgp live) (
        run _ computes (
          run _ computes (
            run _ computes (
              run _ computes (
                run _
                  (read_ases_lem cleared (start_of m) end (as_size as32) (encode_as as32 s.peer_as)
                    (encode_as as32 s.local_as) _ (length-encode_as as32 s.peer_as)
                    (length-encode_as as32 s.local_as) written s.peer_as s.local_as
                    (from_big-encode_as as32 s.peer_as sized.peer_as)
                    (from_big-encode_as as32 s.local_as sized.local_as))
                  (run _
                    (bounds_front with_ases (big16 s.iface ++ big16 afi) addrs 4 refl at_ases
                      ebadbgp4mphdr)
                    (run _
                      (number_front with_ases (big16 s.iface) (big16 afi ++ addrs) 2 refl at_ases
                        (from_big-big16 s.iface sized.iface))
                      (run _ computes (
                        run _
                          (number_front with_iface (big16 afi) addrs 2 refl at_afi
                            (from_big-big16 afi small_afi))
                          (run _
                            (read_family_lem with_iface (after_ases + 4) end s.v6 s.peer_addr
                              s.local_addr rest sized.peer_addr sized.local_addr at_addrs)
                            (run _ computes (
                              run _
                                (read_states_lem with_addrs payload end old new payload_bytes
                                  small_old small_new m.flags.has_state
                                  (subst (λ r. Front m.buf payload end r) is_rest at_payload))
                                computes))))))))))))
    where
      cleared : MrtMsg
      cleared = record m { bgp4mphdr = zero_bgp4mp }

      with_ases : MrtMsg
      with_ases = record m {
        bgp4mphdr = record zero_bgp4mp { peer_as = s.peer_as; local_as = s.local_as };
      }

      with_iface : MrtMsg
      with_iface = record m { bgp4mphdr = record with_ases.bgp4mphdr { iface = s.iface } }

      with_addrs : MrtMsg
      with_addrs = record m {
        bgp4mphdr = record with_iface.bgp4mphdr {
          peer_addr = address (family s.v6) s.peer_addr;
          local_addr = address (family s.v6) s.local_addr;
        };
      }

  -- Both AS numbers, as `unwrapbgp4mp_r` counts them.
  abbrev ases : ℕ
  ases = if as32 then 8 else 4

  ases_lem : (b : Bool) → 2 * as_size b ≡ (if b then 8 else 4)
  ases_lem true = refl
  ases_lem false = refl

  shifted : (k : ℕ) → after_ases + k ≡ start_of m + ases + k
  shifted k = ap (λ n. start_of m + n + k) (ases_lem as32)

  pub unwrapbgp4mp_r_lem :
      (m.flags.rd && m.flags.wraps_bgp) ≡ true
      → Runs unwrapbgp4mp_r m (ok (payload, end - payload) m)
  unfolding unwrapbgp4mp_r
  unwrapbgp4mp_r_lem wraps =
      subst (λ p. Runs unwrapbgp4mp_r m (ok (p, end - p) m))
        (ap (λ n. n + 2 * addr_size s.v6) (sym (shifted 4)))
        (run _ (require_ok einvop _ m wraps live) (
          run _ computes (
            run _ computes (
              run _ computes (
                run _
                  (bounds_ok (start_of m) end (ases + 4) ebadbgp4mphdr
                    (omega (arith, shifted 4, at_addrs.order)))
                  (run _
                    (number_front m (big16 afi) addrs 2 refl
                      (subst (λ p. Front m.buf p end (big16 afi ++ addrs)) (shifted 2) at_afi)
                      (from_big-big16 afi small_afi))
                    (run _
                      (skip_family_lem m (start_of m + ases + 4) end s.v6 s.peer_addr s.local_addr
                        rest sized.peer_addr sized.local_addr
                        (subst (λ p. Front m.buf p end addrs) (shifted 4) at_addrs))
                      computes)))))))
