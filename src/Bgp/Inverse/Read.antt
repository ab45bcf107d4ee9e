-- ===== src/Bgp/Inverse/Read.antt =====
-- `nextnlri_r` and `nextwithdrawn_r` read the encoding of a prefix back.
use isocore.Base.{
  ℕ, ◌+◌, ◌%◌, ◌≤◌, ◌<◌, ◌≡◌, refl, sym, ap, ◌∙◌, arith, Bool, true, false, if◌then◌else◌, List, [],
  ◌∷◌, ◌++◌, some, length, take, drop, replicate, append-nil, length-take, leb, ltb, get_elem?,
}
use isocore.Base.Bytes.{read_bytes, write_bytes, big32, from_big, from_big-big32}
use isocore.Base.Window.{window, window_fits, read-window, window-advance, window-head}
use isocore.NetAddr.{NetAddrAp, naddrsize}
use isocore.Bgp.{Msg, Err, step, bind_option, if_true, if_false, given_some, access-some}
use isocore.Bgp.Prefixes.{read_bits, read_prefix}
use isocore.Bgp.Inverse.Write.{access_uptr}
use isocore.Bgp.Inverse.Put.{encode}

-- The bytes that the iterator has left.
abbrev pub remaining : Msg → List ℕ
remaining m = window m.buf m.uptr m.uend

-- The iterator stands inside of the packet.
pub record Inside (m : Msg) : Type 0 where
  pub here : m.moved ≡ false
  pub order : m.uptr ≤ m.uend
  pub in_buf : m.uend ≤ length m.buf

-- A prefix whose length fits its byte and its 16 bytes of address, with nothing after its bits'
-- bytes: what the packet holds of it determines it.
pub record IsPrefix (p : NetAddrAp) : Type 0 where
  pub sixteen : length p.pfx.bytes ≡ 16
  pub fits : p.pfx.bitlen ≤ 128
  pub padded :
      take (naddrsize p.pfx.bitlen) p.pfx.bytes ++ drop (naddrsize p.pfx.bitlen) (replicate 16 0)
      ≡ p.pfx.bytes
  pub id_fits : p.pathid < 4294967296

pub naddrsize_le : (b : ℕ) → b ≤ 128 → naddrsize b ≤ 16
unfolding naddrsize
naddrsize_le b h = ground arith

module _ (bad : Err) (early : Bool) (p : NetAddrAp) (h : IsPrefix p) (rest : List ℕ) where
  abbrev size : ℕ
  size = naddrsize p.pfx.bitlen

  -- The prefix as it is left in `pfxbuf`, after the path identifier `id`.
  abbrev seen : ℕ → Msg → NetAddrAp
  seen id m = record {
    pfx = record { family = m.pfxbuf.pfx.family; bitlen = p.pfx.bitlen; bytes = p.pfx.bytes };
    pathid = id;
  }

  abbrev body : List ℕ
  body = p.pfx.bitlen ∷ take size p.pfx.bytes

  length-body : length body ≡ 1 + size
  length-body =
      omega (arith, length-take size p.pfx.bytes, naddrsize_le p.pfx.bitlen h.fits, h.sixteen)

  copied : write_bytes (replicate 16 0) 0 (take size p.pfx.bytes) ≡ some p.pfx.bytes
  unfolding write_bytes
  copied = ground (
    arith,
    length-body,
    naddrsize_le p.pfx.bitlen h.fits,
    ap (λ n. take size p.pfx.bytes ++ drop n (replicate 16 0)) len ∙ h.padded,
  )
    where
      len : 0 + length (take size p.pfx.bytes) ≡ size
      len = omega (arith, length-body)

  -- The part of `read_prefix` after the path identifier, on the window of a buffer.
  module _ (buf : List ℕ) (lo hi : ℕ) (in_buf : hi ≤ length buf) (order : lo ≤ hi)
      (front : window buf lo hi ≡ body ++ rest) where
    first_byte : get_elem? buf lo ≡ some p.pfx.bitlen
    first_byte = window-head buf lo hi p.pfx.bitlen (take size p.pfx.bytes ++ rest) front

    in_window : ltb hi (lo + 1 + size) ≡ false
    in_window = ground (arith, length-body, window_fits buf lo hi body rest in_buf order front)

    after_first : window buf (lo + 1) hi ≡ take size p.pfx.bytes ++ rest
    after_first =
        window-advance buf lo hi (p.pfx.bitlen ∷ []) (take size p.pfx.bytes ++ rest) in_buf order
          front

    address_bytes : read_bytes buf (lo + 1) size ≡ some (take size p.pfx.bytes)
    address_bytes = rw len at (
        read-window buf (lo + 1) hi (take size p.pfx.bytes) rest in_buf
          (omega (arith, length-body, window_fits buf lo hi body rest in_buf order front))
          after_first)
      where
        len : length (take size p.pfx.bytes) ≡ size
        len = omega (arith, length-body)

    after_body : window buf (lo + 1 + size) hi ≡ rest
    after_body = rw shift at (window-advance buf lo hi body rest in_buf order front)
      where
        shift : lo + length body ≡ lo + 1 + size
        shift = omega (arith, length-body)

  -- The message once the length in bits is read.
  counted : Msg → Msg
  counted m = record m {
    uptr = m.uptr + 1;
    pfxbuf =
        if early
        then record m.pfxbuf { pfx = record m.pfxbuf.pfx { bitlen = p.pfx.bitlen } }
        else m.pfxbuf;
  }

  -- What is left in the message, with the path identifier `id`.
  left : ℕ → ℕ → Msg → Msg
  left id at m = record m {
    pfxbuf = record {
      pfx = record { family = m.pfxbuf.pfx.family; bitlen = p.pfx.bitlen; bytes = p.pfx.bytes };
      pathid = id;
    };
    uptr = at;
  }

  counted-left :
      (m : Msg)
      → record (counted m) {
        pfxbuf = record (counted m).pfxbuf {
          pfx = record (counted m).pfxbuf.pfx { bitlen = p.pfx.bitlen; bytes = p.pfx.bytes };
        };
        uptr = m.uptr + 1 + size;
      }
        ≡ left m.pfxbuf.pathid (m.uptr + 1 + size) m
  unfolding counted left
  counted-left m = ground arith

  read_bits_lem :
      (m : Msg)
      → Inside m
      → remaining m ≡ body ++ rest
      → read_bits bad early m
        ≡ some (
          some (left m.pfxbuf.pathid (m.uptr + 1 + size) m).pfxbuf,
          left m.pfxbuf.pathid (m.uptr + 1 + size) m,
        )
  unfolding read_bits bind_option counted
  read_bits_lem m i r =
      step _
        (access-some (λ m'. get_elem? m'.buf m.uptr) m
          (first_byte m.buf m.uptr m.uend i.in_buf i.order r))
        (if_false _ _ _ (counted m) (in_window m.buf m.uptr m.uend i.in_buf i.order r) (
          step _
            (access-some (λ m'. read_bytes m'.buf (m.uptr + 1) size) (counted m)
              (address_bytes m.buf m.uptr m.uend i.in_buf i.order r))
            (step _ (given_some _ (counted m) copied)
              (ap (λ x. some (some x.pfxbuf, x)) (counted-left m)))))

  cleared : Msg → Msg
  cleared m = record m {
    pfxbuf = record m.pfxbuf { pfx = record m.pfxbuf.pfx { bytes = replicate 16 0 } };
  }

  -- The message once the path identifier is read.
  identified : ℕ → Msg → Msg
  identified id m = record (cleared m) {
    pfxbuf = record (cleared m).pfxbuf { pathid = id };
    uptr = m.uptr + 4;
  }

  read_prefix_plain :
      (m : Msg)
      → Inside m
      → m.flags.addpath ≡ false
      → remaining m ≡ body ++ rest
      → read_prefix bad early m
        ≡ some (
          some (left m.pfxbuf.pathid (m.uptr + 1 + size) m).pfxbuf,
          left m.pfxbuf.pathid (m.uptr + 1 + size) m,
        )
  unfolding read_prefix bind_option left cleared
  read_prefix_plain m i e r = step _ (access_uptr m i.here) (
      if_false _ _ _ (cleared m) e (
        read_bits_lem (cleared m) (record { here = i.here; order = i.order; in_buf = i.in_buf }) r))

  read_prefix_path :
      (m : Msg)
      → Inside m
      → m.flags.addpath ≡ true
      → remaining m ≡ big32 p.pathid ++ (body ++ rest)
      → read_prefix bad early m
        ≡ some (
          some (left p.pathid (m.uptr + 4 + 1 + size) m).pfxbuf,
          left p.pathid (m.uptr + 4 + 1 + size) m,
        )
  unfolding read_prefix bind_option left cleared identified
  read_prefix_path m i e r = step _ (access_uptr m i.here) (
      if_true _ _ _ (cleared m) e (
        if_false _ _ _ (cleared m) more (
          step _
            (access-some (λ m'. read_bytes m'.buf m.uptr 4) (cleared m)
              (read-window m.buf m.uptr m.uend ids (body ++ rest) i.in_buf i.order r))
            (rw (← known) (read_bits_lem (identified p.pathid m) inside after)))))
    where
      ids : List ℕ
      ids = big32 p.pathid

      known : p.pathid ≡ from_big ids 0
      known = sym (from_big-big32 p.pathid h.id_fits)

      after : remaining (identified p.pathid m) ≡ body ++ rest
      after = window-advance m.buf m.uptr m.uend ids (body ++ rest) i.in_buf i.order r

      fits : m.uptr + 4 + length (body ++ rest) ≤ m.uend
      fits = omega (
        arith,
        window_fits m.buf m.uptr m.uend (ids ++ (body ++ rest)) [] i.in_buf i.order
            (r ∙ sym (append-nil (ids ++ (body ++ rest)))),
      )

      more : leb m.uend (m.uptr + 4) ≡ false
      more = ground (arith, fits)

      inside : Inside (identified p.pathid m)
      inside = record { here = i.here; order = omega (arith, fits); in_buf = i.in_buf }

  small : p.pfx.bitlen % 256 ≡ p.pfx.bitlen
  small = omega (arith, h.fits)

  id_of : Bool → Msg → ℕ
  id_of b m = if b then p.pathid else m.pfxbuf.pathid

  reads :
      (b : Bool) (m : Msg)
      → Inside m
      → m.flags.addpath ≡ b
      → remaining m ≡ encode b p ++ rest
      → let m' = left (id_of b m) (m.uptr + length (encode b p)) m in
        read_prefix bad early m ≡ some (some m'.pfxbuf, m')
  unfolding id_of
  reads true m i e r =
      read_prefix_path m i e (rw small at r)
      ∙ ap (λ at. some (some (left p.pathid at m).pfxbuf, left p.pathid at m))
          (omega (arith, length-body))
  reads false m i e r =
      read_prefix_plain m i e (rw small at r)
      ∙ ap (λ at. some (some (left m.pfxbuf.pathid at m).pfxbuf, left m.pfxbuf.pathid at m))
          (omega (arith, length-body))

  -- The two iterators read the encoding of a prefix back, with the path identifier if there is one,
  -- and stand behind it.
  pub read_prefix_lem :
      (b : Bool) (m : Msg)
      → Inside m
      → m.flags.addpath ≡ b
      → remaining m ≡ encode b p ++ rest
      → (m' : Msg) × (read_prefix bad early m ≡ some (some m'.pfxbuf, m'))
        × Inside m'
        × (remaining m' ≡ rest)
        × (m'.flags ≡ m.flags)
        × (m'.err ≡ m.err)
        × (m'.pfxbuf ≡ record {
          pfx = record { family = m.pfxbuf.pfx.family; bitlen = p.pfx.bitlen; bytes = p.pfx.bytes };
          pathid = if b then p.pathid else m.pfxbuf.pathid;
        })
  unfolding left id_of
  read_prefix_lem b m i e r = (
    left (id_of b m) (m.uptr + length (encode b p)) m,
    reads b m i e r,
    record {
      here = i.here;
      order = window_fits m.buf m.uptr m.uend (encode b p) rest i.in_buf i.order r;
      in_buf = i.in_buf;
    },
    window-advance m.buf m.uptr m.uend (encode b p) rest i.in_buf i.order r,
    refl,
    refl,
    refl,
  )
