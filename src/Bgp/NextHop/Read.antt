-- ===== src/Bgp/NextHop/Read.antt =====
-- `nextnhop_r` returns the next hop of NEXT_HOP and then the one of MP_REACH_NLRI.
use isocore.Base.{
  ℕ, zero, suc, ap, ◌∙◌, append-nil, length-drop, ◌+◌, ◌≤◌, ◌≡◌, refl, arith, true, ltb, ◌==◌, List,
  [], ◌∷◌, ◌++◌, none, some, length, drop,
}
use isocore.Base.Bytes.{read_bytes, write_bytes}
use isocore.NetAddr.{NetAddr, inet, inet6}
use isocore.Bgp.{
  Msg, in_nhbuf, in_packet, enoerr, step, bind_option, check_flags_ok, if_true, if_false,
  access-some,
}
use isocore.Bgp.NextHop.{nextnhop_r, copy_hop}

drop_all : (n : ℕ) (xs : List ℕ) → length xs ≤ n → drop n xs ≡ []
drop_all zero [] h = refl
drop_all (suc n) [] h = refl
drop_all zero (x ∷ xs) h = absurd (omega arith)
drop_all (suc n) (x ∷ xs) h = drop_all n xs (omega arith)

module _ (m : Msg) (a b c d ptr : ℕ) (v6 : List ℕ) (sixteen : length m.pfxbuf.pfx.bytes ≡ 16)
    (stored : read_bytes m.buf ptr 16 ≡ some v6) (whole : length v6 ≡ 16) where
  -- What `startnhop_r` leaves of an update message with both attributes, the second for IPv6.
  abbrev pub both_hops : Msg
  both_hops = record m {
    flags = record m.flags { nhop = true };
    err = enoerr;
    nh = in_nhbuf (a ∷ b ∷ c ∷ d ∷ []);
    mpnh = some (ptr, ptr + 16);
    mpfamily = inet6;
    mpbitlen = 128;
    pfxbuf = record m.pfxbuf { pfx = record m.pfxbuf.pfx { family = inet; bitlen = 32 } };
  }

  abbrev pub first_hop : NetAddr
  first_hop = record {
    family = inet;
    bitlen = 32;
    bytes = a ∷ b ∷ c ∷ d ∷ drop 4 m.pfxbuf.pfx.bytes;
  }

  abbrev pub second_hop : NetAddr
  second_hop = record { family = inet6; bitlen = 128; bytes = v6 }

  abbrev after_first : Msg
  after_first = record both_hops {
    nh = in_nhbuf [];
    pfxbuf = record both_hops.pfxbuf { pfx = first_hop };
  }

  abbrev after_second : Msg
  after_second = record after_first {
    nh = in_packet (ptr + 16) (ptr + 16);
    mpnh = none;
    pfxbuf = record after_first.pfxbuf { pfx = second_hop };
  }

  write_four :
      write_bytes m.pfxbuf.pfx.bytes 0 (a ∷ b ∷ c ∷ d ∷ [])
      ≡ some (a ∷ b ∷ c ∷ d ∷ drop 4 m.pfxbuf.pfx.bytes)
  unfolding write_bytes
  write_four = ground (arith, sixteen)

  nextnhop_r_first : nextnhop_r both_hops ≡ some (some first_hop, after_first)
  unfolding nextnhop_r copy_hop read_bytes bind_option
  nextnhop_r_first = check_flags_ok _ _ _ both_hops refl refl (
      step _
        (access-some (λ m'. write_bytes m'.pfxbuf.pfx.bytes 0 (a ∷ b ∷ c ∷ d ∷ [])) both_hops
          write_four)
        refl)

  abbrev switched : Msg
  switched = record after_first {
    nh = in_packet ptr (ptr + 16);
    mpnh = none;
    pfxbuf = record after_first.pfxbuf { pfx = record first_hop { family = inet6; bitlen = 128 } };
  }

  write_sixteen : write_bytes first_hop.bytes 0 v6 ≡ some v6
  unfolding write_bytes
  write_sixteen = ground (
    arith,
    whole,
    length-drop 4 m.pfxbuf.pfx.bytes,
    sixteen,
    ap (λ xs. v6 ++ xs)
          (drop_all (0 + length v6) first_hop.bytes
            (omega (arith, length-drop 4 m.pfxbuf.pfx.bytes)))
        ∙ append-nil v6,
  )

  nextnhop_r_second : nextnhop_r after_first ≡ some (some second_hop, after_second)
  unfolding nextnhop_r copy_hop bind_option
  nextnhop_r_second = check_flags_ok _ _ _ after_first refl refl (
      if_false (ltb (ptr + 16) (ptr + 16)) _ _ switched (ground arith) (
        step _ (access-some (λ m'. read_bytes m'.buf ptr 16) switched stored) (
          step _ (access-some (λ m'. write_bytes m'.pfxbuf.pfx.bytes 0 v6) switched write_sixteen)
            refl)))

  nextnhop_r_last : nextnhop_r after_second ≡ some (none, after_second)
  unfolding nextnhop_r bind_option
  nextnhop_r_last =
      check_flags_ok _ _ _ after_second refl refl
        (step _ (if_true (ptr + 16 == ptr + 16) _ _ after_second (ground arith) refl) refl)

  -- On a message without an error that holds an IPv4 next hop and an IPv6 one inside of its packet,
  -- as `startnhop_r` leaves it, `nextnhop_r` returns the two in this order, and then NULL.
  pub nextnhop_r_both :
      (m1 m2 : Msg) × (nextnhop_r both_hops ≡ some (some first_hop, m1))
      × (nextnhop_r m1 ≡ some (some second_hop, m2))
      × (nextnhop_r m2 ≡ some (none, m2))
  nextnhop_r_both =
      (after_first, after_second, nextnhop_r_first, nextnhop_r_second, nextnhop_r_last)
