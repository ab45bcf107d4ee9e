-- ===== src/Bgp/Inverse/Receive.antt =====
-- Reading an update message: `setbgpread_r`, `startnlri_r`, and `nextnlri_r` until it returns NULL.
use isocore.Base.{
  ℕ, zero, suc, ◌+◌, ◌-◌, ◌%◌, ◌^◌, ◌≤◌, ◌≡◌, refl, ap, ap₂, ◌∙◌, arith, Bool, true, false, List,
  [], ◌∷◌, ◌++◌, none, some, length, take, drop, if◌then◌else◌, length-append, length-take,
  length-drop, map, ◌==◌, get_elem?,
}
use isocore.Base.Bytes.{read_bytes, take-append_eq, big32}
use isocore.NetAddr.{NetAddrAp, inet, naddrsize}
use isocore.Bgp.{
  Msg, OpenFlags, enoerr, ebadnlri, Alloc, M, ◌>>=◌, ◌>>◌, return, access, step, bind_option,
  check_flags_ok, if_true, if_false,
}
use isocore.Bgp.Fields.{load16}
use isocore.Bgp.Packet.{setbgpread_r, fastbuf}
use isocore.Bgp.Pending.{has_pending}
use isocore.Bgp.Start.{startnlri_r}
use isocore.Bgp.Prefixes.{nextnlri_r}
use isocore.Bgp.Inverse.Load.{Loaded, setbgpread_r_lem}
use isocore.Bgp.Inverse.Fields.{IsUpdate}
use isocore.Bgp.Inverse.Start.{startnlri_read, at_nlri, ipv4}
use isocore.Bgp.Inverse.Write.{access_uptr}
use isocore.Bgp.Inverse.Put.{encode}
use isocore.Bgp.Inverse.Read.{Inside, IsPrefix, remaining, read_prefix_lem}
use isocore.Bgp.Inverse.Session.{encode_all, header}

module _ (alloc : Alloc) where
  -- `nextnlri_r` until it returns NULL, `n` calls at most.
  abbrev pub next_all : ℕ → M (List NetAddrAp)
  next_all zero = access (λ _. none)
  next_all (suc n) = do
    p ← nextnlri_r alloc
    elim p [ none ↦ return [] | some p ↦ do ps ← next_all n; return (p ∷ ps) ]

-- What is read of a prefix: an IPv4 one, with the path identifier where the message has them.
abbrev pub read_back : Bool → ℕ → NetAddrAp → NetAddrAp
read_back a id p = record {
  pfx = record { family = inet; bitlen = p.pfx.bitlen; bytes = p.pfx.bytes };
  pathid = if a then p.pathid else id;
}

abbrev pub AllPrefixes : List NetAddrAp → Type 0
AllPrefixes [] = Unit
AllPrefixes (p ∷ ps) = IsPrefix p × AllPrefixes ps

-- The NLRI field is being read.
record Reading (a : Bool) (id : ℕ) (m : Msg) : Type 0 where
  inside : Inside m
  rd : m.flags.rd ≡ true
  nlri : m.flags.nlri ≡ true
  last : m.flags.allnlri ≡ false
  path : m.flags.addpath ≡ a
  ok : m.err ≡ enoerr
  family : m.pfxbuf.pfx.family ≡ inet
  id_kept : a ≡ false → m.pfxbuf.pathid ≡ id

nextnlri_r_end :
    (alloc : Alloc) (a : Bool) (id : ℕ) (m : Msg)
    → Reading a id m
    → remaining m ≡ []
    → nextnlri_r alloc m ≡ some (none, m)
unfolding nextnlri_r bind_option
nextnlri_r_end alloc a id m r e = check_flags_ok _ _ _ m (rw (r.rd, r.nlri)) r.ok (
    step _ (access_uptr m r.inside.here) (
      step _ (if_true (m.uptr == m.uend) _ _ m at_end (if_false m.flags.allnlri _ _ m r.last refl))
        refl))
  where
    at_end : (m.uptr == m.uend) ≡ true
    at_end = ground (
      arith,
      ap length e,
      length-take (m.uend - m.uptr) (drop m.uptr m.buf),
      length-drop m.uptr m.buf,
      r.inside.order,
      r.inside.in_buf,
    )

kept : (a : Bool) (x y id : ℕ) → (a ≡ false → y ≡ id) → (if a then x else y) ≡ (if a then x else id)
kept true x y id h = refl
kept false x y id h = h refl

if_else : (a : Bool) (x y : ℕ) → a ≡ false → (if a then x else y) ≡ y
if_else a x y e = rw e

module _ (alloc : Alloc) (a : Bool) (id : ℕ) where
  nextnlri_r_more :
      (p : NetAddrAp) (rest : List ℕ) (m : Msg)
      → IsPrefix p
      → Reading a id m
      → remaining m ≡ encode a p ++ rest
      → (m' : Msg) × (nextnlri_r alloc m ≡ some (some (read_back a id p), m'))
        × Reading a id m'
        × (remaining m' ≡ rest)
  unfolding nextnlri_r bind_option
  nextnlri_r_more p rest m h r e =
      let (m', run, inside, left, fl, er, pfx) =
        read_prefix_lem ebadnlri true p h rest a m r.inside r.path e in
      (
        m',
        check_flags_ok _ _ _ m (rw (r.rd, r.nlri)) r.ok (
            step _ (access_uptr m r.inside.here) (
              step _ (if_false (m.uptr == m.uend) _ _ m more refl) (
                run
                ∙ ap (λ x. some (some x, m'))
                    (pfx
                      ∙ ap₂
                          (λ f i. record {
                            pfx = record { family = f; bitlen = p.pfx.bitlen; bytes = p.pfx.bytes };
                            pathid = i;
                          })
                          r.family (kept a p.pathid m.pfxbuf.pathid id r.id_kept))))),
        record {
          inside = inside;
          rd = ap (λ f. f.rd) fl ∙ r.rd;
          nlri = ap (λ f. f.nlri) fl ∙ r.nlri;
          last = ap (λ f. f.allnlri) fl ∙ r.last;
          path = ap (λ f. f.addpath) fl ∙ r.path;
          ok = er ∙ r.ok;
          family = ap (λ x. x.pfx.family) pfx ∙ r.family;
          id_kept =
              λ f. ap (λ x. x.pathid) pfx ∙ if_else a p.pathid m.pfxbuf.pathid f ∙ r.id_kept f;
        },
        left,
      )
    where
      more : (m.uptr == m.uend) ≡ false
      more = ground (
        arith,
        ap length e,
        length-append (encode a p) rest,
        length-append (if a then big32 p.pathid else [])
            ((p.pfx.bitlen % 256) ∷ take (naddrsize p.pfx.bitlen) p.pfx.bytes),
        length-take (m.uend - m.uptr) (drop m.uptr m.buf),
        length-drop m.uptr m.buf,
        r.inside.order,
        r.inside.in_buf,
      )

  next_all_lem :
      (ps : List NetAddrAp) (m : Msg)
      → AllPrefixes ps
      → Reading a id m
      → remaining m ≡ encode_all a ps
      → (m' : Msg) × (next_all alloc (suc (length ps)) m ≡ some (map (read_back a id) ps, m'))
        × Reading a id m'
  unfolding bind_option
  next_all_lem [] m all r e = (m, step _ (nextnlri_r_end alloc a id m r e) refl, r)
  next_all_lem (p ∷ ps) m (h, all) r e =
      let (m1, e1, r1, left) = nextnlri_r_more p (encode_all a ps) m h r e in
      let (m2, e2, r2) = next_all_lem ps m1 all r1 left in (m2, step _ e1 (step _ e2 refl), r2)

-- Reading the announced prefixes of a packet.
abbrev pub read_update : Alloc → List ℕ → OpenFlags → ℕ → M (List NetAddrAp)
read_update alloc bytes o n = do setbgpread_r alloc bytes o; startnlri_r; next_all alloc n

module _ (len : ℕ) (xs : List ℕ) (m : Msg) (e : m.buf ≡ header len ++ xs)
    (ok : m.err ≡ enoerr) where
  received-IsUpdate : IsUpdate m 0 0
  unfolding load16 read_bytes
  received-IsUpdate = record {
    type = ap (λ b. get_elem? b 18) e;
    no_error = ok;
    withdrawn = rw e (ground arith);
    attributes = rw e (ground arith);
  }

module _ (alloc : Alloc) (o : OpenFlags) (a : Bool) (with_id : o.use_addpath ≡ a)
    (ps : List NetAddrAp) (len : ℕ) where
  abbrev bytes_of : List ℕ
  bytes_of = encode_all a ps

  abbrev packet : List ℕ
  packet = header len ++ bytes_of

  abbrev rest_of : Msg → ℕ
  rest_of m = (m.pktlen + 2 ^ 64 - 23) % 2 ^ 64

  begun : Msg → Msg
  begun m = at_nlri 23 (rest_of m) (ipv4 m)

  begun-Reading :
      (m0 m : Msg)
      → Loaded packet o m0 m
      → length packet ≤ 4096
      → Reading a m0.pfxbuf.pathid (begun m) × (remaining (begun m) ≡ bytes_of)
  unfolding begun
  begun-Reading m0 m l small = (
    record {
      inside = record {
        here = refl;
        order = omega (arith, l.whole);
        in_buf = omega (arith, l.whole, ap length l.buf, length-append packet l.tail);
      };
      rd = ap (λ f. f.rd) l.flags;
      nlri = refl;
      last = ap (λ f. f.allnlri) l.flags;
      path = ap (λ f. f.addpath) l.flags ∙ with_id;
      ok = l.ok;
      family = refl;
      id_kept = λ _. ap (λ x. x.pathid) l.pfxbuf;
    },
    ap (λ k. take k (drop 23 m.buf)) count
        ∙ ap (λ b. take (length bytes_of) (drop 23 b)) l.buf
        ∙ take-append_eq (length bytes_of) bytes_of l.tail refl,
  )
    where
      count : (begun m).uend - 23 ≡ length bytes_of
      count = omega (arith, l.whole)

  -- On a message whose embedded buffer has 4096 bytes, from a packet that is the header of an update
  -- message, with any length field, and the encodings of well-formed prefixes, 4096 bytes at most,
  -- every prefix is read back in order, and then there is no other.
  pub read_update_lem :
      (m : Msg)
      → length (fastbuf m) ≡ 4096
      → AllPrefixes ps
      → length packet ≤ 4096
      → (m' : Msg) × (read_update alloc packet o (suc (length ps)) m
          ≡ some (map (read_back a m.pfxbuf.pathid) ps, m'))
  unfolding bind_option begun
  read_update_lem m h all small =
      let (m1, e1, l) = setbgpread_r_lem alloc packet o m h small o.nocopy refl in
      let (r, left) = begun-Reading m m1 l small in
      let (m2, e2, _) = next_all_lem alloc a m.pfxbuf.pathid ps (begun m1) all r left in
      (
        m2,
        step _ e1 (
            step _
              (startnlri_read m1 0 0 (received-IsUpdate len (bytes_of ++ l.tail) m1 l.buf l.ok)
                (ap has_pending l.flags) (ap (λ f. f.wr) l.flags))
              e2),
      )
