-- ===== src/Bgp/Inverse/Open.antt =====
-- Writing an open message and reading its fixed fields back.
use isocore.Base.{
  ℕ, ◌<◌, ◌≡◌, refl, arith, true, false, List, [], ◌∷◌, ◌++◌, some, length, drop, replicate,
  length-drop,
}
use isocore.Base.Bytes.{read_bytes, big16, from_big-big16}
use isocore.Bgp.{
  Msg, OpenFlags, no_flags, enoerr, step, bind_option, check_flags_ok, access-some, bgp_open,
  bgp_marker,
}
use isocore.Bgp.Fields.{load16}
use isocore.Bgp.Packet.{setbgpwrite_r, fastbuf, bgpfinish_r, bgpbufsiz}
use isocore.Bgp.Open.{OpenMsg, getbgpopen_r, setbgpopen_r}
use isocore.Bgp.Inverse.Fields.{check_type_ok, endpending_none}
use isocore.Bgp.Inverse.Write.{store_lem}

module _ (o : OpenFlags) (m : Msg) (whole : length (fastbuf m) ≡ 4096) where
  -- The message with a buffer that starts with some bytes.
  abbrev at_front : List ℕ → Msg
  at_front bs = record m {
    flags = record no_flags { wr = true; asn32bit = o.use_asn32bit; addpath = o.use_addpath };
    pktlen = 29;
    bufsiz = bgpbufsiz;
    err = enoerr;
    buf = bs;
    fast = true;
  }

  abbrev rest : List ℕ
  rest = drop 13 (drop 16 (fastbuf m))

  abbrev header : List ℕ → List ℕ
  header bs = bgp_marker ++ bs

  abbrev fixed : ℕ → List ℕ → List ℕ → List ℕ → List ℕ
  fixed v asn hold iden = header (0 ∷ 0 ∷ 1 ∷ v ∷ (asn ++ (hold ++ (iden ++ (0 ∷ rest)))))

  abbrev none2 : List ℕ
  none2 = 0 ∷ 0 ∷ []

  abbrev none4 : List ℕ
  none4 = 0 ∷ 0 ∷ 0 ∷ 0 ∷ []

  opened_lem : setbgpwrite_r bgp_open o m ≡ some (enoerr, at_front (fixed 0 none2 none2 none4))
  unfolding setbgpwrite_r bind_option
  opened_lem = step _ (store_lem 0 bgp_marker (at_front (fastbuf m)) (omega arith)) (
      step _
        (store_lem 16 (replicate 13 0) (at_front (header (drop 16 (fastbuf m))))
          (omega (arith, length-drop 16 (fastbuf m))))
        (step _ (store_lem 18 (1 ∷ []) (at_front (header (replicate 13 0 ++ rest))) (omega arith))
          refl))

  module _ (v my_as hold_time a b c d : ℕ) where
    abbrev op : OpenMsg
    op = record { version = v; hold_time = hold_time; my_as = my_as; iden = a ∷ b ∷ c ∷ d ∷ [] }

    abbrev written : Msg
    written = at_front (fixed v (big16 my_as) (big16 hold_time) op.iden)

    setbgpopen_r_lem :
        setbgpopen_r op (at_front (fixed 0 none2 none2 none4)) ≡ some (enoerr, written)
    unfolding setbgpopen_r bind_option
    setbgpopen_r_lem =
        check_type_ok bgp_open (λ f. f.wr) _ _ (at_front (fixed 0 none2 none2 none4)) refl refl refl
          (step _ (store_lem 19 (v ∷ []) (at_front (fixed 0 none2 none2 none4)) (omega arith)) (
            step _
              (store_lem 22 (big16 hold_time) (at_front (fixed v none2 none2 none4)) (omega arith))
              (step _
                (store_lem 20 (big16 my_as) (at_front (fixed v none2 (big16 hold_time) none4))
                  (omega arith))
                (step _
                  (store_lem 24 op.iden (at_front (fixed v (big16 my_as) (big16 hold_time) none4))
                    (omega arith))
                  refl))))

    abbrev sent : Msg
    sent = record written {
      buf = header (0 ∷ 29 ∷ 1 ∷ v ∷ (big16 my_as ++ (big16 hold_time ++ (op.iden ++ (0 ∷ rest)))));
      offtab = replicate 16 0;
      flags = record written.flags { wr = false; rd = true };
    }

    bgpfinish_r_lem : bgpfinish_r written ≡ some (some (sent.buf, 29), sent)
    unfolding bgpfinish_r bind_option
    bgpfinish_r_lem = check_flags_ok _ _ _ written refl refl (
        step _ (endpending_none written refl)
          (step _ (store_lem 16 (big16 29) written (omega arith)) refl))

    load_hold_time : hold_time < 65536 → load16 22 sent ≡ some hold_time
    unfolding load16 read_bytes
    load_hold_time h = ground (arith, from_big-big16 hold_time h)

    load_my_as : my_as < 65536 → load16 20 sent ≡ some my_as
    unfolding load16 read_bytes
    load_my_as h = ground (arith, from_big-big16 my_as h)

    load_iden : read_bytes sent.buf 24 4 ≡ some op.iden
    unfolding read_bytes
    load_iden = ground arith

    getbgpopen_r_lem : my_as < 65536 → hold_time < 65536 → getbgpopen_r sent ≡ some (some op, sent)
    unfolding getbgpopen_r bind_option
    getbgpopen_r_lem ha hh =
        check_type_ok bgp_open (λ f. f.rd) _ _ sent refl refl refl
          (step _ (access-some (load16 22) sent (load_hold_time hh)) (
            step _ (access-some (load16 20) sent (load_my_as ha))
              (step _ (access-some (λ m'. read_bytes m'.buf 24 4) sent load_iden) refl)))

    -- The fields of an open message are read back from the finished packet: `setbgpwrite_r`,
    -- `setbgpopen_r`, `bgpfinish_r` and `getbgpopen_r` on one message whose embedded buffer has 4096
    -- bytes, for 16-bit numbers and an identifier of four bytes. The packet has 29 bytes.
    pub open_round_trip :
        my_as < 65536
        → hold_time < 65536
        → (m' : Msg) × (setbgpwrite_r bgp_open o m ≡ some (enoerr, m'))
          × (m'' : Msg) × (setbgpopen_r op m' ≡ some (enoerr, m''))
          × (sent : Msg) × (bgpfinish_r m'' ≡ some (some (sent.buf, 29), sent))
          × (getbgpopen_r sent ≡ some (some op, sent))
    open_round_trip ha hh =
        (_, opened_lem, _, setbgpopen_r_lem, _, bgpfinish_r_lem, getbgpopen_r_lem ha hh)
