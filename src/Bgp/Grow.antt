-- ===== src/Bgp/Grow.antt =====
-- `bgpensure`, and what appending to a packet does once it has grown.
use isocore.Base.{
  ℕ, ◌+◌, ◌≤◌, ◌<◌, ◌≡◌, refl, ◌∙◌, arith, Bool, true, false, List, ◌++◌, none, some, length, take,
  drop, min, length-append, length-take, length-drop, Bool-cases, ◌⊎◌, inl, inr, leb, leb→le,
  lt→ltb, if◌then◌else◌,
}
use isocore.Base.Bytes.{read_bytes, write_bytes, take-take, take-append_le}
use isocore.Bgp.{Msg, Alloc, step, bind_option}
use isocore.Bgp.Pending.{uptr_of}
use isocore.Bgp.Packet.{bgpensure}
use isocore.Bgp.Put.{append_bytes}

-- The allocator returns blocks of the size asked for.
abbrev pub Allocates : Alloc → Type 0
Allocates alloc = (n : ℕ) → (block : List ℕ) × (alloc n ≡ some block) × (length block ≡ n)

-- The buffer is what `bufsiz` says, and holds the packet.
pub record Sized (m : Msg) : Type 0 where
  pub capacity : m.bufsiz ≡ length m.buf
  pub fits : m.pktlen ≤ length m.buf

le_lt_dec : (a b : ℕ) → (a ≤ b) ⊎ (b < a)
le_lt_dec a b = elim (Bool-cases (leb a b)) [
  | inl h ↦ inl (leb→le a b h)
  | inr h ↦ inr (ground arith)
]

-- The number of bytes that `bgpensure` copies, and the size that it asks for.
abbrev kept_bytes : ℕ → Msg → ℕ
kept_bytes size m = if m.fast then m.pktlen else min (length m.buf) size

kept_bounds :
    (b : Bool) (n k size : ℕ)
    → n ≤ k
    → n ≤ size
    → let c = if b then n else min k size in (n ≤ c) × (c ≤ k) × (c ≤ size)
kept_bounds true n k size h h' = (omega arith, h, h')
kept_bounds false n k size h h' = (omega arith, omega arith, omega arith)

module _ (alloc : Alloc) (len : ℕ) (m : Msg) (gives : Allocates alloc) (s : Sized m)
    (small : len + m.pktlen ≤ 65535) where
  abbrev size : ℕ
  size = min (len + m.pktlen + 256) 65535

  abbrev block : List ℕ
  block = (gives size).0

  abbrev old : List ℕ
  old = take (kept_bytes size m) m.buf

  abbrev grown : Msg
  grown = record m {
    buf = old ++ drop (length old) block;
    fast = false;
    spare = if m.fast then m.buf else m.spare;
    bufsiz = size;
    moved = true;
  }

  abbrev bounds :
      (m.pktlen ≤ kept_bytes size m)
      × (kept_bytes size m ≤ length m.buf)
      × (kept_bytes size m ≤ size)
  bounds = kept_bounds m.fast m.pktlen (length m.buf) size s.fits (omega arith)

  length-old : length old ≡ kept_bytes size m
  length-old = omega (arith, length-take (kept_bytes size m) m.buf, bounds)

  read_old : read_bytes m.buf 0 (kept_bytes size m) ≡ some old
  unfolding read_bytes
  read_old = ground (arith, bounds)

  write_old : write_bytes block 0 old ≡ some (old ++ drop (length old) block)
  unfolding write_bytes
  write_old = ground (arith, bounds, length-old, (gives size).2)

  bgpensure-grown : m.bufsiz < len + m.pktlen → bgpensure alloc len m ≡ some (true, grown)
  unfolding bgpensure
  bgpensure-grown h =
      rw (lt→ltb m.bufsiz (len + m.pktlen) h, (gives size).1, read_old, write_old) refl

  bgpensure_same : len + m.pktlen ≤ m.bufsiz → bgpensure alloc len m ≡ some (true, m)
  unfolding bgpensure
  bgpensure_same h = ground arith

  grown-Sized : Sized grown
  grown-Sized = record {
    capacity = omega (
      arith,
      length-append old (drop (length old) block),
      length-drop (length old) block,
      length-old,
      bounds,
      (gives size).2,
    );
    fits = omega (arith, length-append old (drop (length old) block), length-old, bounds);
  }

  grown_content : take m.pktlen grown.buf ≡ take m.pktlen m.buf
  grown_content =
      take-append_le m.pktlen old (drop (length old) block) (omega (arith, length-old, bounds))
      ∙ take-take m.pktlen (kept_bytes size m) m.buf (omega (arith, bounds))

  -- While the packet stays within 65535 bytes, the buffer has the size that `bufsiz` says and the
  -- allocator returns blocks of the size asked for, `bgpensure` returns true
  -- and leaves room for the bytes asked for, with the packet unchanged, its length included.
  pub bgpensure_lem :
      (m' : Msg) × (bgpensure alloc len m ≡ some (true, m'))
      × Sized m'
      × (len + m.pktlen ≤ m'.bufsiz)
      × (m'.pktlen ≡ m.pktlen)
      × (take m.pktlen m'.buf ≡ take m.pktlen m.buf)
      × (m'.err ≡ m.err)
  bgpensure_lem = elim (le_lt_dec (len + m.pktlen) m.bufsiz) [
    | inl h ↦ (m, bgpensure_same h, s, h, refl, refl, refl)
    | inr h ↦ (grown, bgpensure-grown h, grown-Sized, omega arith, refl, grown_content, refl)
  ]

-- `bgpensure` does not move `uptr` with the buffer: where the bytes do not fit the buffer but the
-- packet stays within 65535 bytes, and the allocator returns blocks of the size asked for, appending
-- them writes through a pointer into the buffer left behind.
pub append_bytes-stale :
    (alloc : Alloc) (bs : List ℕ) (m : Msg)
    → Allocates alloc
    → Sized m
    → length bs + m.pktlen ≤ 65535
    → m.bufsiz < length bs + m.pktlen
    → append_bytes alloc bs m ≡ none
unfolding append_bytes bind_option uptr_of
append_bytes-stale alloc bs m gives s small h =
    step _ (bgpensure-grown alloc (length bs) m gives s small h) refl
