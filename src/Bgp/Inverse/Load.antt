-- ===== src/Bgp/Inverse/Load.antt =====
-- `setbgpread_r` on a packet that fits the embedded buffer.
use isocore.Base.{
  ℕ, ◌≤◌, ◌≡◌, refl, sym, ap, arith, Bool, true, false, List, [], ◌++◌, none, some, length, drop,
  replicate, if◌then◌else◌, append-nil, leb, ltb,
}
use isocore.Base.Bytes.{write_bytes}
use isocore.Bgp.{
  Msg, OpenFlags, no_flags, enoerr, Alloc, step, bind_option, if_true, if_false, given_some,
}
use isocore.Bgp.Packet.{setbgpread_r, share_packet, copy_packet, fastbuf, bgpbufsiz}

-- The message once `setbgpread_r` has the packet.
pub record Loaded (bytes : List ℕ) (o : OpenFlags) (m m' : Msg) : Type 0 where
  pub tail : List ℕ
  pub buf : m'.buf ≡ bytes ++ tail
  pub flags : m'.flags ≡ record no_flags {
    sh = o.nocopy;
    rd = true;
    asn32bit = o.use_asn32bit;
    addpath = o.use_addpath;
  }
  pub ok : m'.err ≡ enoerr
  pub whole : m'.pktlen ≡ length bytes
  pub pfxbuf : m'.pfxbuf ≡ m.pfxbuf

abbrev entered : List ℕ → OpenFlags → Msg → Msg
entered bytes o m = record m {
  flags = record no_flags { rd = true; asn32bit = o.use_asn32bit; addpath = o.use_addpath };
  err = enoerr;
  pktlen = length bytes;
  bufsiz = length bytes;
}

shared : List ℕ → OpenFlags → Msg → Msg
shared bytes o m = record (entered bytes o m) {
  buf = bytes;
  fast = false;
  spare = fastbuf m;
  flags = record (entered bytes o m).flags { sh = true };
  offtab = replicate 16 0;
}

if_leb : {A : Type 0} (a : A) (n : ℕ) → n ≤ 65535 → (if leb n 65535 then some a else none) ≡ some a
if_leb a n h = ground arith

copy_packet_lem :
    (bytes block : List ℕ) (m : Msg)
    → length bytes ≤ length block
    → copy_packet true bytes (some block) m
      ≡ some (
        enoerr,
        record m {
          buf = bytes ++ drop (length bytes) block;
          fast = true;
          spare = fastbuf m;
          offtab = replicate 16 0;
        },
      )
unfolding copy_packet write_bytes
copy_packet_lem bytes block m h = ground arith

pub setbgpread_r_lem :
    (alloc : Alloc) (bytes : List ℕ) (o : OpenFlags) (m : Msg)
    → length (fastbuf m) ≡ 4096
    → length bytes ≤ 4096
    → (b : Bool) → o.nocopy ≡ b
    → (m' : Msg) × (setbgpread_r alloc bytes o m ≡ some (enoerr, m')) × Loaded bytes o m m'
unfolding setbgpread_r share_packet bind_option shared
setbgpread_r_lem alloc bytes o m h small true e = (
  shared bytes o m,
  step _ (given_some _ m (if_leb tt (length bytes) (omega arith))) (if_true o.nocopy _ _ _ e refl),
  record {
    tail = [];
    buf = sym (append-nil bytes);
    flags =
        ap
          (λ b. record no_flags {
            sh = b;
            rd = true;
            asn32bit = o.use_asn32bit;
            addpath = o.use_addpath;
          })
          (sym e);
    ok = refl;
    whole = refl;
    pfxbuf = refl;
  },
)
setbgpread_r_lem alloc bytes o m h small false e = (
  _,
  step _ (given_some _ m (if_leb tt (length bytes) (omega arith))) (
      if_false o.nocopy _ _ _ e (
        if_false (ltb bgpbufsiz (length bytes)) _ _ (entered bytes o m) (ground arith)
          (copy_packet_lem bytes (fastbuf m) (entered bytes o m) (omega arith)))),
  record {
    tail = drop (length bytes) (fastbuf m);
    buf = refl;
    flags =
        ap
          (λ b. record no_flags {
            sh = b;
            rd = true;
            asn32bit = o.use_asn32bit;
            addpath = o.use_addpath;
          })
          (sym e);
    ok = refl;
    whole = refl;
    pfxbuf = refl;
  },
)
