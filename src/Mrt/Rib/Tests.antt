-- ===== src/Mrt/Rib/Tests.antt =====
-- A peer index and RIB packets that the theorems on them (src/mrt.c) are applied to.
use isocore.Base.{ℕ, ◌≡◌, refl, arith, true, false, List, [], ◌∷◌, ◌++◌, some, replicate}
use isocore.Base.Bytes.{read_bytes}
use isocore.NetAddr.{NetAddr, inet}
use isocore.Mrt.{enoerr, ebadpeeridx, no_flags, MrtMsg, fault, fails, ok}
use isocore.Mrt.Peers.{setup_table}
use isocore.Mrt.Peers.Read.{Peer}
use isocore.Mrt.Peers.Setup.{none_left, one_more}
use isocore.Mrt.Peers.Table.{Index, encode_index}
use isocore.Mrt.Legacy.{getribents_r, nextribent_r}
use isocore.Mrt.Rib.Entry.{
  Carried, read_entry, encode_entry, nextribent_r-entry, nextribent_r-ebadpeeridx,
}
use isocore.Mrt.Rib.Header.{Written, with_header, getribents_r-header, getribents_r-overrun}
use isocore.Mrt.Rib.Families.{RibKind, encode_rib}
use isocore.Mrt.Run.{Front}
use isocore.Mrt.Samples.{holding}

-- A peer index with two peers.
abbrev one : Peer
one = record {
  v6 = false;
  as32 = true;
  id = 1 ∷ 2 ∷ 3 ∷ 4 ∷ [];
  addr = 192 ∷ 0 ∷ 2 ∷ 1 ∷ [];
  number = 65551;
}

abbrev two : Peer
two = record {
  v6 = true;
  as32 = false;
  id = 5 ∷ 6 ∷ 7 ∷ 8 ∷ [];
  addr = 32 ∷ 1 ∷ replicate 14 0;
  number = 64496;
}

abbrev peers : List Peer
peers = one ∷ two ∷ []

abbrev index : MrtMsg
index = record (holding 13 1 (encode_index (10 ∷ 0 ∷ 0 ∷ 1 ∷ []) (118 ∷ []) peers)) {
  flags = record no_flags { valid = true; is_pi = true; rd = true };
}

index-Index : Index (10 ∷ 0 ∷ 0 ∷ 1 ∷ []) (118 ∷ []) peers index
index-Index = record {
  size_collector = refl;
  small_view = omega arith;
  small_count = omega arith;
  peers =
      one_more (record { id = refl; addr = refl; number = omega arith })
        (one_more (record { id = refl; addr = refl; number = omega arith }) none_left);
  live = refl;
  is_pi = refl;
  no_pe = refl;
  no_re = refl;
  room = refl;
  no_table = refl;
  written = record { in_buf = omega arith; order = omega arith; front = refl };
}

abbrev kind : RibKind
kind = record { generic = false; addpath = true; v6 = false; multicast = false }

abbrev entry_of_second : Carried
entry_of_second = record { index = 1; originated = 1234; pathid = 9; attrs = 64 ∷ 1 ∷ 1 ∷ 0 ∷ [] }

abbrev rib : Carried → MrtMsg
rib c = record (holding 13 8 (encode_rib kind 5 24 (192 ∷ 0 ∷ 2 ∷ []) 1 (encode_entry true c []))) {
  flags = record no_flags { valid = true; needs_pi = true; addpath = true; rd = true; re = true };
  peer_index = true;
  reptr = 22;
}

nextribent_r-entry_example :
    (pi' : MrtMsg) × (setup_table true index ≡ ok enoerr pi')
    × (nextribent_r pi' (rib entry_of_second)
        ≡ ok
            (some (read_entry entry_of_second two (rib entry_of_second)).ribent)
            (read_entry entry_of_second two (rib entry_of_second)))
    × (read_bytes (rib entry_of_second).buf 34 4 ≡ some (64 ∷ 1 ∷ 1 ∷ 0 ∷ []))
    × Front (rib entry_of_second).buf 38 38 []
nextribent_r-entry_example =
    nextribent_r-entry (10 ∷ 0 ∷ 0 ∷ 1 ∷ []) (118 ∷ []) peers index index-Index
      (rib entry_of_second) entry_of_second []
      (record { in_buf = omega arith; order = omega arith; front = refl }) (omega arith)
      (record {
        index = omega arith;
        originated = omega arith;
        pathid = omega arith;
        attrs = omega arith;
      })
      true two refl refl refl refl refl refl

abbrev entry_of_eighth : Carried
entry_of_eighth = record entry_of_second { index = 7 }

nextribent_r-ebadpeeridx_example :
    (pi' : MrtMsg) × (setup_table true index ≡ ok enoerr pi')
    × (nextribent_r pi' (rib entry_of_eighth)
        ≡ fails (record (rib entry_of_eighth) { err = ebadpeeridx }))
nextribent_r-ebadpeeridx_example =
    nextribent_r-ebadpeeridx (10 ∷ 0 ∷ 0 ∷ 1 ∷ []) (118 ∷ []) peers index index-Index
      (rib entry_of_eighth) entry_of_eighth []
      (record { in_buf = omega arith; order = omega arith; front = refl }) (omega arith)
      (record {
        index = omega arith;
        originated = omega arith;
        pathid = omega arith;
        attrs = omega arith;
      })
      true refl (omega arith) refl refl refl

-- A RIB header with a prefix of 24 bits.
rib-Written :
    Written kind 5 24
      (192 ∷ 0 ∷ 2 ∷ [])
      1
      (encode_entry true entry_of_second [])
      (rib entry_of_second)
unfolding isocore.NetAddr.naddrsize
rib-Written = record {
  live = refl;
  needs_pi = refl;
  has_index = refl;
  is_kind = refl;
  small_seqno = omega arith;
  small_count = omega arith;
  size_prefix = refl;
  bytes = record { in_buf = omega arith; order = omega arith; front = refl };
}

abbrev prefix : List ℕ
prefix = 192 ∷ 0 ∷ 2 ∷ []

getribents_r-header_example :
    (getribents_r (rib entry_of_second)
      ≡ ok
          (22, 1, 16)
          (with_header kind 5 24 prefix 1
            (encode_entry true entry_of_second [])
            (rib entry_of_second)
            rib-Written
            (prefix ++ replicate 13 0)))
    × Front (rib entry_of_second).buf 22 38 (encode_entry true entry_of_second [])
unfolding isocore.NetAddr.naddrsize
getribents_r-header_example =
    getribents_r-header kind 5 24 prefix 1 (encode_entry true entry_of_second [])
      (rib entry_of_second) rib-Written refl (omega arith)

-- A RIB header with a prefix of 136 bits.
abbrev long_rib : MrtMsg
long_rib = record (holding 13 8 (encode_rib kind 5 136 (replicate 17 1) 1 [])) {
  flags = record no_flags { valid = true; needs_pi = true; addpath = true; rd = true };
  peer_index = true;
}

long_rib-Written : Written kind 5 136 (replicate 17 1) 1 [] long_rib
unfolding isocore.NetAddr.naddrsize
long_rib-Written = record {
  live = refl;
  needs_pi = refl;
  has_index = refl;
  is_kind = refl;
  small_seqno = omega arith;
  small_count = omega arith;
  size_prefix = refl;
  bytes = record { in_buf = omega arith; order = omega arith; front = refl };
}

getribents_r-overrun_example : getribents_r long_rib ≡ fault
getribents_r-overrun_example =
    getribents_r-overrun kind 5 136 (replicate 17 1) 1 [] long_rib long_rib-Written refl
      (omega arith)
