-- ===== src/Bgp/Tests.antt =====
-- Runs of the operations on concrete messages.
use isocore.Base.{
  ℕ, ◌+◌, ◌≤◌, ◌<◌, ◌≡◌, ◌≢◌, refl, arith, true, false, List, [], ◌∷◌, ◌++◌, none, some, length,
  take, get_elem?, map, replicate, length-replicate,
}
use isocore.NetAddr.{NetAddrAp, inet, naddrsize}
use isocore.Bgp.{
  no_path, Msg, in_nhbuf, OpenFlags, no_flags, enoerr, eio, Alloc, bgp_open, bgp_marker,
  params_length_offset,
}
use isocore.Bgp.Packet.{setbgpwrite_r, bgpfinish_r, bgpensure}
use isocore.Bgp.Open.{OpenMsg, getbgpopen_r, setbgpopen_r, setbgpparams_r}
use isocore.Bgp.Attribs.{nextbgpattrib_r}
use isocore.Bgp.Prefixes.{nextnlri_r}
use isocore.Bgp.Put.{append_bytes}
use isocore.Base.Bytes.{read_bytes}
use isocore.Bgp.NextHop.{nextnhop_r}
use isocore.Bgp.NextHop.Read.{both_hops, first_hop, second_hop, nextnhop_r_both}
use isocore.Bgp.Latch.{AllRefuse, AllReturnNull, AllEndsRefuse, error_latched}
use isocore.Bgp.Grow.{Sized, Allocates, bgpensure_lem, append_bytes-stale}
use isocore.Bgp.Iterate.{Steps, nextbgpattrib_r_lem}
use isocore.Bgp.Overrun.{nextnlri_r-overrun, setbgpparams_r-misplaced}
use isocore.Bgp.Inverse.Read.{Inside, IsPrefix}
use isocore.Bgp.Inverse.Session.{AllWhole, encode_all, header, write_update, write_update_lem}
use isocore.Bgp.Inverse.Receive.{read_back, read_update, read_update_lem}
use isocore.Bgp.Inverse.RoundTrip.{nlri_round_trip}
use isocore.Bgp.Inverse.Open.{open_round_trip}

abbrev greeting : OpenMsg
greeting = record { version = 4; hold_time = 180; my_as = 65001; iden = 192 ∷ 0 ∷ 2 ∷ 1 ∷ [] }

eio-not_ok : eio ≢ enoerr
eio-not_ok e = cc

-- A message that no operation was called on yet.
abbrev fresh : Msg
fresh = record {
  flags = no_flags;
  err = enoerr;
  buf = replicate 4096 0;
  fast = true;
  spare = [];
  pktlen = 0;
  bufsiz = 0;
  params = 0;
  pptr = 0;
  ustart = 0;
  uptr = 0;
  uend = 0;
  moved = false;
  pfxbuf = record {
    pfx = record { family = inet; bitlen = 0; bytes = replicate 16 0 };
    pathid = 0;
  };
  presbuf = [];
  offtab = replicate 16 0;
  ccode = 0;
  nh = in_nhbuf [];
  mpnh = none;
  mpfamily = inet;
  mpbitlen = 0;
  path = no_path;
}

fresh_whole : length fresh.buf ≡ 4096
fresh_whole = length-replicate {A = ℕ} 4096 0

abbrev no_memory : Alloc
no_memory n = none

abbrev zeroed_memory : Alloc
zeroed_memory n = some (replicate n 0)

zeroed_memory-Allocates : Allocates zeroed_memory
zeroed_memory-Allocates n = (replicate n 0, refl, length-replicate n 0)

abbrev with_path_ids : OpenFlags
with_path_ids = record { nocopy = false; use_addpath = true; use_asn32bit = false }

-- 192.0.2.0/24 with the path identifier 7, and 10.0.0.0/8 with 300.
abbrev first : NetAddrAp
first = record {
  pfx = record { family = inet; bitlen = 24; bytes = 192 ∷ 0 ∷ 2 ∷ replicate 13 0 };
  pathid = 7;
}

abbrev second : NetAddrAp
second = record {
  pfx = record { family = inet; bitlen = 8; bytes = 10 ∷ replicate 15 0 };
  pathid = 300;
}

first-IsPrefix : IsPrefix first
unfolding naddrsize
first-IsPrefix = record { sixteen = refl; fits = omega arith; padded = refl; id_fits = omega arith }

second-IsPrefix : IsPrefix second
unfolding naddrsize
second-IsPrefix = record {
  sixteen = refl;
  fits = omega arith;
  padded = refl;
  id_fits = omega arith;
}

abbrev both : List NetAddrAp
both = first ∷ second ∷ []

both_encoded :
    encode_all true both ≡ 0 ∷ 0 ∷ 0 ∷ 7 ∷ 24 ∷ 192 ∷ 0 ∷ 2 ∷ 0 ∷ 0 ∷ 1 ∷ 44 ∷ 8 ∷ 10 ∷ []
unfolding naddrsize
both_encoded = refl

both_fit : 23 + length (encode_all true both) ≤ 4096
unfolding naddrsize
both_fit = omega arith

nlri_round_trip_example :
    (buf : List ℕ) × (n : ℕ) × (m1 m2 : Msg) × (write_update no_memory with_path_ids both fresh
      ≡ some (some (buf, n), m1))
    × (read_update no_memory (take n buf) with_path_ids 3 fresh
        ≡ some (map (read_back true 0) both, m2))
nlri_round_trip_example =
    nlri_round_trip no_memory no_memory with_path_ids with_path_ids both fresh fresh refl
      fresh_whole fresh_whole (first-IsPrefix, (second-IsPrefix, tt)) both_fit

both_whole : AllWhole both
unfolding naddrsize
both_whole = (omega arith, (omega arith, tt))

write_update_lem_example :
    (buf : List ℕ) × (m' : Msg) × (write_update no_memory with_path_ids both fresh
      ≡ some (some (buf, 23 + length (encode_all true both)), m'))
    × (take (23 + length (encode_all true both)) buf
        ≡ header (23 + length (encode_all true both)) ++ encode_all true both)
write_update_lem_example =
    write_update_lem no_memory with_path_ids both fresh fresh_whole both_whole both_fit

read_update_lem_example :
    (m' : Msg) × (read_update no_memory (header 37 ++ encode_all true both) with_path_ids 3 fresh
      ≡ some (map (read_back true 0) both, m'))
read_update_lem_example =
    read_update_lem no_memory with_path_ids true refl both 37 fresh fresh_whole
      (first-IsPrefix, (second-IsPrefix, tt)) (omega (arith, both_fit))

open_round_trip_example :
    (m' : Msg) × (setbgpwrite_r bgp_open with_path_ids fresh ≡ some (enoerr, m'))
    × (m'' : Msg) × (setbgpopen_r greeting m' ≡ some (enoerr, m''))
    × (sent : Msg) × (bgpfinish_r m'' ≡ some (some (sent.buf, 29), sent))
    × (getbgpopen_r sent ≡ some (some greeting, sent))
open_round_trip_example =
    open_round_trip with_path_ids fresh fresh_whole 4 65001 180 192 0 2 1 (omega arith)
      (omega arith)

abbrev failed : Msg
failed = record fresh { err = eio }

error_latched_example :
    AllRefuse no_memory failed failed eio
    × AllReturnNull no_memory failed failed
    × AllEndsRefuse failed failed eio
error_latched_example = error_latched no_memory failed eio-not_ok

-- A buffer of 30 bytes that is full.
abbrev full : Msg
full = record fresh { buf = replicate 30 1; pktlen = 30; bufsiz = 30; uptr = 30 }

full-Sized : Sized full
full-Sized = record { capacity = refl; fits = omega arith }

bgpensure_lem_example :
    (m' : Msg) × (bgpensure zeroed_memory 5 full ≡ some (true, m'))
    × Sized m'
    × (35 ≤ m'.bufsiz)
    × (m'.pktlen ≡ 30)
    × (take 30 m'.buf ≡ take 30 full.buf)
    × (m'.err ≡ enoerr)
bgpensure_lem_example =
    bgpensure_lem zeroed_memory 5 full zeroed_memory-Allocates full-Sized (omega arith)

append_bytes-stale_example : append_bytes zeroed_memory (24 ∷ 192 ∷ 0 ∷ 2 ∷ []) full ≡ none
append_bytes-stale_example =
    append_bytes-stale zeroed_memory (24 ∷ 192 ∷ 0 ∷ 2 ∷ []) full zeroed_memory-Allocates full-Sized
      (omega arith) (omega arith)

-- An iteration over a field of four bytes, an ORIGIN attribute.
abbrev attribute : Msg
attribute = record fresh {
  flags = record no_flags { rd = true; pattr = true };
  buf = 64 ∷ 1 ∷ 1 ∷ 0 ∷ [];
  uptr = 0;
  uend = 4;
}

attribute-Inside : Inside attribute
attribute-Inside = record { here = refl; order = omega arith; in_buf = omega arith }

origin_code : (c : ℕ) → some 1 ≡ some c → c < 255
origin_code c e = ground (arith, e)

nextbgpattrib_r_lem_example : Steps 3 nextbgpattrib_r attribute
nextbgpattrib_r_lem_example =
    nextbgpattrib_r_lem attribute attribute-Inside refl refl refl origin_code

-- A prefix of 136 bits, with its 17 bytes.
abbrev long_prefix : Msg
long_prefix = record fresh {
  flags = record no_flags { rd = true; nlri = true };
  buf = 136 ∷ replicate 17 1;
  uptr = 0;
  uend = 18;
}

long_prefix-Inside : Inside long_prefix
long_prefix-Inside = record { here = refl; order = omega arith; in_buf = omega arith }

long_prefix_fits : 0 + 1 + naddrsize 136 ≤ 18
unfolding naddrsize
long_prefix_fits = omega arith

nextnlri_r-overrun_example : nextnlri_r no_memory long_prefix ≡ none
nextnlri_r-overrun_example =
    nextnlri_r-overrun long_prefix long_prefix-Inside 136 refl (omega arith) long_prefix_fits
      no_memory refl refl refl refl

-- An open message that is being written.
abbrev opening : Msg
opening = record fresh {
  flags = record no_flags { wr = true };
  buf = bgp_marker ++ (0 ∷ 0 ∷ 1 ∷ replicate 20 0);
}

setbgpparams_r-misplaced_example :
    (m' : Msg) × (setbgpparams_r (2 ∷ 0 ∷ []) opening ≡ some (enoerr, m'))
    × (get_elem? m'.buf params_length_offset ≡ some 0)
    × (get_elem? m'.buf 1 ≡ some 2)
setbgpparams_r-misplaced_example =
    setbgpparams_r-misplaced (2 ∷ 0 ∷ []) opening refl refl refl (omega arith) (omega arith)

-- A packet that holds 2001:db8::1 at offset 2.
abbrev v6_hop : List ℕ
v6_hop = 32 ∷ 1 ∷ 13 ∷ 184 ∷ (replicate 11 0 ++ (1 ∷ []))

abbrev with_hops : Msg
with_hops = record fresh { buf = 0 ∷ 0 ∷ v6_hop }

v6_hop_stored : read_bytes with_hops.buf 2 16 ≡ some v6_hop
unfolding read_bytes
v6_hop_stored = refl

nextnhop_r_both_example :
    (m1 m2 : Msg) × (nextnhop_r (both_hops with_hops 192 0 2 1 2 v6_hop refl v6_hop_stored refl)
      ≡ some (some (first_hop with_hops 192 0 2 1 2 v6_hop refl v6_hop_stored refl), m1))
    × (nextnhop_r m1
        ≡ some (some (second_hop with_hops 192 0 2 1 2 v6_hop refl v6_hop_stored refl), m2))
    × (nextnhop_r m2 ≡ some (none, m2))
nextnhop_r_both_example = nextnhop_r_both with_hops 192 0 2 1 2 v6_hop refl v6_hop_stored refl
