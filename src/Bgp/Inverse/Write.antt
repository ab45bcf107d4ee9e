-- ===== src/Bgp/Inverse/Write.antt =====
-- What the prefixes that `putnlri_r` writes leave in the packet.
use isocore.Base.{
  ℕ, ◌+◌, ◌%◌, ◌≤◌, ◌<◌, ◌≡◌, refl, arith, true, false, List, ◌++◌, some, length, take, drop,
  append_assoc, length-take, length-drop, length-append,
}
use isocore.Base.Bytes.{write_bytes, take-append_eq}
use isocore.Bgp.Pending.{uptr_of}
use isocore.Bgp.{access, step, bind_option, Msg, Alloc}
use isocore.Bgp.Fields.{store}
use isocore.Bgp.Packet.{bgpensure}
use isocore.Bgp.Put.{append_bytes}

-- The message after a run of bytes is appended.
abbrev pub appended : List ℕ → Msg → Msg
appended bs m = record m {
  buf = take m.uptr m.buf ++ (bs ++ drop (m.uptr + length bs) m.buf);
  uptr = m.uptr + length bs;
  pktlen = (m.pktlen + length bs) % 65536;
}

-- The iterator stands at the end of the packet, and the buffer is what `bufsiz` says.
pub record AtEnd (m : Msg) : Type 0 where
  pub here : m.moved ≡ false
  pub end : m.uptr ≡ m.pktlen
  pub capacity : m.bufsiz ≡ length m.buf
  pub fits : m.pktlen ≤ length m.buf

-- There is room: nothing moves.
bgpensure_room :
    (alloc : Alloc) (n : ℕ) (m : Msg)
    → n + m.pktlen ≤ m.bufsiz
    → bgpensure alloc n m ≡ some (true, m)
unfolding bgpensure
bgpensure_room alloc n m h = ground arith

pub access_uptr : (m : Msg) → m.moved ≡ false → access uptr_of m ≡ some (m.uptr, m)
unfolding uptr_of
access_uptr m h = ground arith

pub store_lem :
    (off : ℕ) (bs : List ℕ) (m : Msg)
    → off + length bs ≤ length m.buf
    → store off bs m
      ≡ some (tt, record m { buf = take off m.buf ++ (bs ++ drop (off + length bs) m.buf) })
unfolding store write_bytes
store_lem off bs m h = ground arith

pub append_bytes_lem :
    (alloc : Alloc) (bs : List ℕ) (m : Msg)
    → AtEnd m
    → m.pktlen + length bs ≤ m.bufsiz
    → append_bytes alloc bs m ≡ some (true, appended bs m)
unfolding append_bytes bind_option
append_bytes_lem alloc bs m h room =
    step _ (bgpensure_room alloc (length bs) m (omega arith))
      (step _ (access_uptr m h.here) (step _ (store_lem m.uptr bs m (omega arith)) refl))

-- The packet written so far.
abbrev pub content : Msg → List ℕ
content m = take m.pktlen m.buf

length-appended :
    (bs : List ℕ) (m : Msg)
    → m.uptr + length bs ≤ length m.buf
    → length (appended bs m).buf ≡ length m.buf
length-appended bs m h = omega (
  arith,
  length-append (take m.uptr m.buf) (bs ++ drop (m.uptr + length bs) m.buf),
  length-append bs (drop (m.uptr + length bs) m.buf),
  length-take m.uptr m.buf,
  length-drop (m.uptr + length bs) m.buf,
)

pub appended-AtEnd :
    (bs : List ℕ) (m : Msg)
    → AtEnd m
    → m.pktlen + length bs ≤ m.bufsiz
    → m.bufsiz < 65536
    → AtEnd (appended bs m)
appended-AtEnd bs m h room small = record {
  here = h.here;
  end = omega (arith, h.end);
  capacity = omega (arith, h.capacity, length-appended bs m);
  fits = omega (arith, h.capacity, length-appended bs m);
}

pub content-appended :
    (bs : List ℕ) (m : Msg)
    → AtEnd m
    → m.pktlen + length bs ≤ m.bufsiz
    → m.bufsiz < 65536
    → content (appended bs m) ≡ content m ++ bs
content-appended bs m h room small =
    rw (h.end, wraps, ← append_assoc)
      (take-append_eq (m.pktlen + length bs) (take m.pktlen m.buf ++ bs) _ whole)
  where
    wraps : (m.pktlen + length bs) % 65536 ≡ m.pktlen + length bs
    wraps = omega arith

    whole : m.pktlen + length bs ≡ length (take m.pktlen m.buf ++ bs)
    whole =
        omega
          (arith, length-append (take m.pktlen m.buf) bs, length-take m.pktlen m.buf, h.capacity)
