-- ===== src/Mrt/Headers/Fields.antt =====
-- AS numbers and addresses of a BGP4MP header (src/mrt.c) that are read as they were written.
use isocore.Base.{
  ℕ, ◌+◌, ◌-◌, ◌*◌, ◌≤◌, ◌≡◌, sym, ap, ◌∙◌, arith, List, ◌++◌, append_assoc, Option, none, some,
  length, length-append, length-drop, take, drop, replicate,
}
use isocore.Base.Window.{window_fits}
use isocore.Base.Bytes.{take-take, take-append_eq, from_big}
use isocore.NetAddr.{NetAddr, Family}
use isocore.Mrt.{ebadbgp4mphdr, MrtMsg, Outcome, fault, ok}
use isocore.Mrt.Headers.{naddr_at, read_ases, read_addrs}
use isocore.Mrt.Headers.Safety.{makenaddr_lem}
use isocore.Mrt.Run.{Runs, run, computes, Front, Front-advance, number_front, bounds_front}

-- An address of four or sixteen bytes.
abbrev pub address : Family → List ℕ → NetAddr
address family bs = record {
  family = family;
  bitlen = 8 * length bs;
  bytes = bs ++ drop (length bs) (replicate 16 0);
}

module _ (m : MrtMsg) (ptr end size : ℕ) (xs ys rest : List ℕ) (length-xs : length xs ≡ size)
    (length-ys : length ys ≡ size) (f : Front m.buf ptr end (xs ++ (ys ++ rest))) where
  pub whole : Front m.buf ptr end ((xs ++ ys) ++ rest)
  whole = record {
    in_buf = f.in_buf;
    order = f.order;
    front = f.front ∙ sym (append_assoc xs ys rest);
  }

  pub length-whole : length (xs ++ ys) ≡ 2 * size
  length-whole = omega (arith, length-xs, length-ys, length-append xs ys)

  second : Front m.buf (ptr + size) end (ys ++ rest)
  second = Front-advance xs (ys ++ rest) size length-xs f

  pub read_ases_lem :
      (p l : ℕ)
      → from_big xs 0 ≡ p
      → from_big ys 0 ≡ l
      → Runs (read_ases ptr end size) m (
          ok
            (ptr + 2 * size)
            (record m { bgp4mphdr = record m.bgp4mphdr { peer_as = p; local_as = l } }))
  unfolding read_ases
  read_ases_lem p l is_p is_l =
      run _ (bounds_front m (xs ++ ys) rest (2 * size) length-whole whole ebadbgp4mphdr) (
        run _ (number_front m xs (ys ++ rest) size length-xs f is_p) (
          run _ computes (
            run _
              (number_front (record m { bgp4mphdr = record m.bgp4mphdr { peer_as = p } }) ys rest
                size length-ys second is_l)
              (run _ computes computes))))

module _ (m : MrtMsg) (family : Family) (ptr end size : ℕ) (small : size ≤ 16) where
  naddr_at_lem :
      (xs ys : List ℕ)
      → length xs ≡ size
      → Front m.buf ptr end (xs ++ ys)
      → Runs (naddr_at family ptr (8 * size)) m (ok (address family xs) m)
  unfolding naddr_at
  naddr_at_lem xs ys size_xs f = record {
    eq =
        ap made (
          makenaddr_lem family (drop ptr m.buf) size small
            (omega (arith, fits, f.in_buf, length-drop ptr m.buf)))
        ∙ ap
            (λ bs.
              ok
                (record {
                  family = family;
                  bitlen = 8 * size;
                  bytes = bs ++ drop size (replicate 16 0);
                })
                m)
            taken
        ∙ ap
            (λ n.
              ok (record { family = family; bitlen = 8 * n; bytes = xs ++ drop n (replicate 16 0) })
                m)
            (sym size_xs);
  }
    where
      made : Option NetAddr → Outcome NetAddr
      made o = elim o [ none ↦ fault | some a ↦ ok a m ]

      fits : ptr + size ≤ end
      fits = omega (arith, size_xs, window_fits m.buf ptr end xs ys f.in_buf f.order f.front)

      taken : take size (drop ptr m.buf) ≡ xs
      taken =
          sym (take-take size (end - ptr) (drop ptr m.buf) (omega (arith, fits)))
          ∙ ap (take size) f.front
          ∙ take-append_eq size xs ys (sym size_xs)

module _ (m : MrtMsg) (family : Family) (ptr end size : ℕ) (small : size ≤ 16) (xs ys rest : List ℕ)
    (length-xs : length xs ≡ size) (length-ys : length ys ≡ size)
    (f : Front m.buf ptr end (xs ++ (ys ++ rest))) where
  pub read_addrs_lem : Runs (read_addrs ptr end family size) m (
      ok (ptr + 2 * size) (record m {
        bgp4mphdr = record m.bgp4mphdr {
          peer_addr = address family xs;
          local_addr = address family ys;
        };
      }))
  unfolding read_addrs
  read_addrs_lem =
      run _
        (bounds_front m (xs ++ ys) rest (2 * size)
          (length-whole m ptr end size xs ys rest length-xs length-ys f)
          (whole m ptr end size xs ys rest length-xs length-ys f) ebadbgp4mphdr)
        (run _ (naddr_at_lem m family ptr end size small xs (ys ++ rest) length-xs f) (
          run _ computes (
            run _
              (naddr_at_lem
                (record m { bgp4mphdr = record m.bgp4mphdr { peer_addr = address family xs } })
                family (ptr + size) end size small ys rest length-ys
                (second m ptr end size xs ys rest length-xs length-ys f))
              (run _ computes computes))))
