-- ===== src/Bgp/Inverse/Put.antt =====
-- `putnlri_r` and `putwithdrawn_r` append the encoding of a prefix to the packet.
use isocore.Base.{
  ℕ, ◌+◌, ◌%◌, ◌≤◌, ◌<◌, ◌≡◌, refl, ap, ◌∙◌, arith, Bool, true, false, if◌then◌else◌, List, [], ◌∷◌,
  ◌++◌, some, length, take, append_assoc, length-append,
}
use isocore.Base.Bytes.{read_bytes, big32}
use isocore.NetAddr.{NetAddrAp, naddrsize}
use isocore.Bgp.{Msg, enoerr, Alloc, step, check_flags_ok, if_true, if_false, given_some}
use isocore.Bgp.Put.{put_prefix, putnlri_r, putwithdrawn_r}
use isocore.Bgp.Inverse.Write.{
  AtEnd, appended, content, append_bytes_lem, appended-AtEnd, content-appended,
}

-- The wire form of a prefix: the path identifier if there is one, the length in bits, and as many
-- bytes as hold it.
abbrev pub encode : Bool → NetAddrAp → List ℕ
encode addpath p =
    (if addpath then big32 p.pathid else [])
    ++ ((p.pfx.bitlen % 256) ∷ take (naddrsize p.pfx.bitlen) p.pfx.bytes)

-- The bytes were appended, and nothing else of the message changed.
pub record Wrote (bs : List ℕ) (m m' : Msg) : Type 0 where
  pub at_end : AtEnd m'
  pub packet : content m' ≡ content m ++ bs
  pub same_flags : m'.flags ≡ m.flags
  pub same_err : m'.err ≡ m.err
  pub same_size : m'.bufsiz ≡ m.bufsiz
  pub same_start : m'.ustart ≡ m.ustart
  pub same_kept : m'.presbuf ≡ m.presbuf
  pub longer : m'.pktlen ≡ m.pktlen + length bs

appended-Wrote :
    (bs : List ℕ) (m : Msg)
    → AtEnd m
    → m.pktlen + length bs ≤ m.bufsiz
    → m.bufsiz < 65536
    → Wrote bs m (appended bs m)
appended-Wrote bs m h room small = record {
  at_end = appended-AtEnd bs m h room small;
  packet = content-appended bs m h room small;
  same_flags = refl;
  same_err = refl;
  same_size = refl;
  same_start = refl;
  same_kept = refl;
  longer = omega arith;
}

pub Wrote-trans :
    {cs bs : List ℕ} {m m' m'' : Msg} → Wrote cs m m' → Wrote bs m' m'' → Wrote (cs ++ bs) m m''
Wrote-trans {cs} {bs} {m} v w = record {
  at_end = w.at_end;
  packet = w.packet ∙ ap (λ c. c ++ bs) v.packet ∙ append_assoc (content m) cs bs;
  same_flags = w.same_flags ∙ v.same_flags;
  same_err = w.same_err ∙ v.same_err;
  same_size = w.same_size ∙ v.same_size;
  same_start = w.same_start ∙ v.same_start;
  same_kept = w.same_kept ∙ v.same_kept;
  longer = omega (arith, v.longer, w.longer, length-append cs bs);
}

read_prefix_of : (n : ℕ) (xs : List ℕ) → n ≤ length xs → read_bytes xs 0 n ≡ some (take n xs)
unfolding read_bytes
read_prefix_of n xs h = ground arith

module _ (alloc : Alloc) (p : NetAddrAp) (whole : naddrsize p.pfx.bitlen ≤ length p.pfx.bytes) where
  abbrev body : List ℕ
  body = (p.pfx.bitlen % 256) ∷ take (naddrsize p.pfx.bitlen) p.pfx.bytes

  put_prefix_plain :
      (m : Msg)
      → AtEnd m
      → m.flags.addpath ≡ false
      → m.pktlen + length body ≤ m.bufsiz
      → m.err ≡ enoerr
      → put_prefix alloc p m ≡ some (enoerr, appended body m)
  unfolding put_prefix
  put_prefix_plain m h e room ok = step _ refl (
      step _ (if_false m.flags.addpath _ _ m e refl) (
        step _ (given_some _ m (read_prefix_of _ p.pfx.bytes whole))
          (step _ (append_bytes_lem alloc body m h room) (ap (λ x. some (x, appended body m)) ok))))

  put_prefix_path :
      (m : Msg)
      → AtEnd m
      → m.bufsiz < 65536
      → m.flags.addpath ≡ true
      → m.pktlen + 4 + length body ≤ m.bufsiz
      → m.err ≡ enoerr
      → put_prefix alloc p m ≡ some (enoerr, appended body (appended (big32 p.pathid) m))
  unfolding put_prefix
  put_prefix_path m h small e room ok =
      let ids = big32 p.pathid in
      let m1 = appended ids m in
      step _ refl (
        step _ (if_true m.flags.addpath _ _ m e (append_bytes_lem alloc ids m h (omega arith))) (
          step _ (given_some _ m1 (read_prefix_of _ p.pfx.bytes whole)) (
            step _
              (append_bytes_lem alloc body m1 (appended-AtEnd ids m h (omega arith) small)
                (omega arith))
              (ap (λ x. some (x, appended body m1)) ok))))

  -- `put_prefix` succeeds where there is room, and appends the encoding of the prefix.
  put_prefix_lem :
      (b : Bool) (m : Msg)
      → AtEnd m
      → m.bufsiz < 65536
      → m.flags.addpath ≡ b
      → m.pktlen + length (encode b p) ≤ m.bufsiz
      → m.err ≡ enoerr
      → (m' : Msg) × (put_prefix alloc p m ≡ some (enoerr, m')) × Wrote (encode b p) m m'
  put_prefix_lem true m h small e room ok = (
    appended body (appended ids m),
    put_prefix_path m h small e (omega arith) ok,
    Wrote-trans v (appended-Wrote body _ v.at_end (omega arith) small),
  )
    where
      ids : List ℕ
      ids = big32 p.pathid

      v : Wrote ids m (appended ids m)
      v = appended-Wrote ids m h (omega arith) small
  put_prefix_lem false m h small e room ok = (
    appended body m,
    put_prefix_plain m h e (omega arith) ok,
    appended-Wrote body m h (omega arith) small,
  )

  -- `putnlri_r`, while the NLRI field of a packet is written and there is room.
  pub putnlri_r_lem :
      (b : Bool) (m : Msg)
      → AtEnd m
      → m.bufsiz < 65536
      → m.flags.wr ≡ true
      → m.flags.nlri ≡ true
      → m.flags.addpath ≡ b
      → m.pktlen + length (encode b p) ≤ m.bufsiz
      → m.err ≡ enoerr
      → (m' : Msg) × (putnlri_r alloc p m ≡ some (enoerr, m')) × Wrote (encode b p) m m'
  putnlri_r_lem b m h small w n path room ok =
      let (m', e, v) = put_prefix_lem b m h small path room ok in
      (m', unfold putnlri_r in check_flags_ok _ _ _ m (rw (w, n)) ok e, v)

  -- `putwithdrawn_r`, while the withdrawn routes are written and there is room.
  pub putwithdrawn_r_lem :
      (b : Bool) (m : Msg)
      → AtEnd m
      → m.bufsiz < 65536
      → m.flags.wr ≡ true
      → m.flags.withdrn ≡ true
      → m.flags.addpath ≡ b
      → m.pktlen + length (encode b p) ≤ m.bufsiz
      → m.err ≡ enoerr
      → (m' : Msg) × (putwithdrawn_r alloc p m ≡ some (enoerr, m')) × Wrote (encode b p) m m'
  putwithdrawn_r_lem b m h small w n path room ok =
      let (m', e, v) = put_prefix_lem b m h small path room ok in
      (m', unfold putwithdrawn_r in check_flags_ok _ _ _ m (rw (w, n)) ok e, v)
