-- ===== src/Bgp/Inverse/Session.antt =====
-- Writing an update message: `setbgpwrite_r`, `startnlri_r`, `putnlri_r` for each prefix, and
-- `bgpfinish_r`.
use isocore.Base.{
  ℕ, ◌+◌, ◌≤◌, ◌≡◌, refl, sym, ap, ◌∙◌, arith, Bool, true, false, List, [], ◌∷◌, ◌++◌, Option, some,
  length, take, drop, replicate, if◌then◌else◌, append_assoc, append-nil, length-append,
  length-drop, take-append-drop,
}
use isocore.Base.Bytes.{read_bytes, big16, take-append_eq}
use isocore.NetAddr.{NetAddrAp, naddrsize}
use isocore.Bgp.{
  Msg, Flags, OpenFlags, no_flags, Err, enoerr, Alloc, M, ◌>>◌, return, step, bind_option,
  check_flags_ok, if_true, if_false, bgp_update, bgp_marker,
}
use isocore.Bgp.Fields.{load16}
use isocore.Bgp.Packet.{setbgpwrite_r, fastbuf, bgpfinish_r, bgpbufsiz}
use isocore.Bgp.Pending.{endpending, endnlri_r, has_pending}
use isocore.Bgp.Start.{startnlri_r}
use isocore.Bgp.Put.{putnlri_r}
use isocore.Bgp.Inverse.Fields.{IsUpdate}
use isocore.Bgp.Inverse.Start.{startnlri_write, at_nlri, emptied}
use isocore.Bgp.Inverse.Write.{AtEnd, content, store_lem}
use isocore.Bgp.Inverse.Put.{encode, Wrote, putnlri_r_lem}

-- The header of an update message of `n` bytes, with no withdrawn routes and no attributes.
abbrev pub header : ℕ → List ℕ
header n = bgp_marker ++ (big16 n ++ (2 ∷ 0 ∷ 0 ∷ 0 ∷ 0 ∷ []))

abbrev opened : OpenFlags → Msg → Msg
opened o m = record m {
  flags = record no_flags { wr = true; asn32bit = o.use_asn32bit; addpath = o.use_addpath };
  pktlen = 23;
  bufsiz = bgpbufsiz;
  err = enoerr;
  buf = header 0 ++ drop 7 (drop 16 (fastbuf m));
  fast = true;
}

abbrev blank : OpenFlags → Msg → Msg
blank o m = record (opened o m) { buf = fastbuf m }

abbrev marked : OpenFlags → Msg → Msg
marked o m = record (opened o m) { buf = bgp_marker ++ drop 16 (fastbuf m) }

abbrev zeroed : OpenFlags → Msg → Msg
zeroed o m = record (opened o m) {
  buf = bgp_marker ++ (replicate 7 0 ++ drop 7 (drop 16 (fastbuf m)));
}

setbgpwrite_r_lem :
    (o : OpenFlags) (m : Msg)
    → length (fastbuf m) ≡ 4096
    → setbgpwrite_r bgp_update o m ≡ some (enoerr, opened o m)
unfolding setbgpwrite_r bind_option
setbgpwrite_r_lem o m h = step _ (store_lem 0 bgp_marker (blank o m) (omega arith)) (
    step _ (store_lem 16 (replicate 7 0) (marked o m) (omega (arith, length-drop 16 (fastbuf m))))
      (step _ (store_lem 18 (2 ∷ []) (zeroed o m) (omega arith)) refl))

opened-IsUpdate : (o : OpenFlags) (m : Msg) → IsUpdate (opened o m) 0 0
unfolding load16 read_bytes
opened-IsUpdate o m = record {
  type = refl;
  no_error = refl;
  withdrawn = ground arith;
  attributes = ground arith;
}

-- The flags while the NLRI field of a new packet is written.
abbrev nlri_flags : OpenFlags → Flags
nlri_flags o = record no_flags {
  wr = true;
  nlri = true;
  asn32bit = o.use_asn32bit;
  addpath = o.use_addpath;
}

record Writing (o : OpenFlags) (m : Msg) : Type 0 where
  at_end : AtEnd m
  size : m.bufsiz ≡ 4096
  flags : m.flags ≡ nlri_flags o
  ok : m.err ≡ enoerr

-- `putnlri_r` for each prefix of a list.
abbrev pub put_all : Alloc → List NetAddrAp → M Err
put_all alloc [] = return enoerr
put_all alloc (p ∷ ps) = do putnlri_r alloc p; put_all alloc ps

abbrev pub encode_all : Bool → List NetAddrAp → List ℕ
encode_all a [] = []
encode_all a (p ∷ ps) = encode a p ++ encode_all a ps

-- The address of every prefix holds as many bytes as its length says.
abbrev pub AllWhole : List NetAddrAp → Type 0
AllWhole [] = Unit
AllWhole (p ∷ ps) = (naddrsize p.pfx.bitlen ≤ length p.pfx.bytes) × AllWhole ps

module _ (alloc : Alloc) (o : OpenFlags) where
  abbrev bytes_of : List NetAddrAp → List ℕ
  bytes_of ps = encode_all o.use_addpath ps

  Wrote-Writing : {bs : List ℕ} {m m' : Msg} → Writing o m → Wrote bs m m' → Writing o m'
  Wrote-Writing w v = record {
    at_end = v.at_end;
    size = v.same_size ∙ w.size;
    flags = v.same_flags ∙ w.flags;
    ok = v.same_err ∙ w.ok;
  }

  put_all_lem :
      (ps : List NetAddrAp) (m : Msg)
      → AllWhole ps
      → Writing o m
      → m.pktlen + length (bytes_of ps) ≤ 4096
      → (m' : Msg) × (put_all alloc ps m ≡ some (enoerr, m'))
        × Writing o m'
        × (content m' ≡ content m ++ bytes_of ps)
        × (m'.pktlen ≡ m.pktlen + length (bytes_of ps))
  unfolding bind_option
  put_all_lem [] m all w room = (m, refl, w, sym (append-nil (content m)), omega arith)
  put_all_lem (p ∷ ps) m (whole, all) w room =
      let (m1, e1, v) =
        putnlri_r_lem alloc p whole o.use_addpath m w.at_end (omega (arith, w.size))
          (ap (λ f. f.wr) w.flags) (ap (λ f. f.nlri) w.flags) (ap (λ f. f.addpath) w.flags)
          (omega (arith, w.size, more)) w.ok in
      let (m2, e2, w2, c2, n2) =
        put_all_lem ps m1 all (Wrote-Writing w v) (omega (arith, v.longer, more)) in
      (
        m2,
        step _ e1 e2,
        w2,
        c2 ∙ ap (λ xs. xs ++ bytes_of ps) v.packet ∙ append_assoc (content m) b (bytes_of ps),
        omega (arith, n2, v.longer, more),
      )
    where
      b : List ℕ
      b = encode o.use_addpath p

      more : length (bytes_of (p ∷ ps)) ≡ length b + length (bytes_of ps)
      more = length-append b (bytes_of ps)

  -- The packet that `bgpfinish_r` hands out, and the message that it leaves.
  finished : Msg → Msg
  finished m = record m {
    buf = take 16 m.buf ++ (big16 m.pktlen ++ drop 18 m.buf);
    offtab = if m.flags.presofftab then m.offtab else replicate 16 0;
    flags = record m.flags {
      nlri = false;
      allnlri = false;
      wr = false;
      presofftab = false;
      rd = true;
    };
  }

  closed_nlri : Msg → Msg
  closed_nlri m = record m { flags = record m.flags { nlri = false; allnlri = false } }

  endnlri_r_lem :
      (m : Msg) → m.flags.nlri ≡ true → m.err ≡ enoerr → endnlri_r m ≡ some (m.err, closed_nlri m)
  unfolding endnlri_r bind_option closed_nlri
  endnlri_r_lem m n ok = check_flags_ok _ _ _ m n ok refl

  endpending_nlri : (m : Msg) → Writing o m → endpending m ≡ some (m.err, closed_nlri m)
  unfolding endpending bind_option
  endpending_nlri m w = if_true _ _ _ m (ap has_pending w.flags) (
      if_false _ _ _ m (ap (λ f. f.pm) w.flags) (
        if_false _ _ _ m (ap (λ f. f.withdrn) w.flags) (
          if_false _ _ _ m (ap (λ f. f.pattr) w.flags) (
            if_true _ _ _ m (ap (λ f. f.nlri) w.flags)
              (endnlri_r_lem m (ap (λ f. f.nlri) w.flags) w.ok)))))

  bgpfinish_r_lem :
      (m : Msg)
      → Writing o m
      → 23 ≤ m.pktlen
      → bgpfinish_r m ≡ some (some ((finished m).buf, m.pktlen), finished m)
  unfolding bgpfinish_r bind_option finished closed_nlri
  bgpfinish_r_lem m w long = check_flags_ok _ _ _ m (ap (λ f. f.wr) w.flags) w.ok (
      step _ (endpending_nlri m w) (
        step _ (store_lem 16 (big16 m.pktlen) (closed_nlri m) (omega (arith, w.at_end.fits))) refl))

  -- Writing a whole update message that only announces prefixes.
  abbrev pub write_update : List NetAddrAp → M (Option (List ℕ × ℕ))
  write_update ps = do setbgpwrite_r bgp_update o; startnlri_r; put_all alloc ps; bgpfinish_r

  started : Msg → Msg
  started m = at_nlri 23 0 (emptied 0 (opened o m))

  started-Writing : (m : Msg) → length (fastbuf m) ≡ 4096 → Writing o (started m)
  unfolding started
  started-Writing m h = record {
    at_end = record {
      here = refl;
      end = refl;
      capacity = omega (arith, length-drop 7 (drop 16 (fastbuf m)), length-drop 16 (fastbuf m));
      fits = omega arith;
    };
    size = refl;
    flags = refl;
    ok = refl;
  }

  finished_packet :
      (m : Msg) (bs : List ℕ)
      → content m ≡ header 0 ++ bs
      → m.pktlen ≡ 23 + length bs
      → take m.pktlen (finished m).buf ≡ header m.pktlen ++ bs
  unfolding finished
  finished_packet m bs c n =
      rw parts (take-append_eq m.pktlen (header m.pktlen ++ bs) (drop m.pktlen m.buf) (omega arith))
    where
      parts : m.buf ≡ (header 0 ++ bs) ++ drop m.pktlen m.buf
      parts = sym (take-append-drop m.pktlen m.buf) ∙ ap (λ xs. xs ++ drop m.pktlen m.buf) c

  -- On a message whose embedded buffer has 4096 bytes, for prefixes whose addresses hold as many
  -- bytes as their lengths say and whose encodings fit 4073 bytes, `bgpfinish_r` returns a buffer and
  -- a length: the packet is the marker, its length, the type 2, two empty fields and the encodings
  -- in order.
  pub write_update_lem :
      (ps : List NetAddrAp) (m : Msg)
      → length (fastbuf m) ≡ 4096
      → AllWhole ps
      → 23 + length (bytes_of ps) ≤ 4096
      → (buf : List ℕ) × (m' : Msg) × (write_update ps m
          ≡ some (some (buf, 23 + length (bytes_of ps)), m'))
        × (take (23 + length (bytes_of ps)) buf ≡ header (23 + length (bytes_of ps)) ++ bytes_of ps)
  unfolding bind_option started
  write_update_lem ps m h all room =
      let (m2, e, w, c, n) = put_all_lem ps (started m) all (started-Writing m h) room in
      (
        (finished m2).buf,
        finished m2,
        step _ (setbgpwrite_r_lem o m h) (
            step _ (startnlri_write (opened o m) 0 0 (opened-IsUpdate o m) refl refl) (
              step _ e (
                bgpfinish_r_lem m2 w (omega arith)
                ∙ ap (λ k. some (some ((finished m2).buf, k), finished m2)) n))),
        rw n at (finished_packet m2 (bytes_of ps) c n),
      )
