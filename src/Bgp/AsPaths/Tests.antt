-- ===== src/Bgp/AsPaths/Tests.antt =====
-- Runs of the iteration over AS paths.
use isocore.Base.{◌≡◌, refl, arith, true, false, List, [], ◌∷◌, ◌++◌, ℕ, none, some, replicate}
use isocore.Base.Bytes.{read_bytes}
use isocore.NetAddr.{inet}
use isocore.Bgp.{no_path, Msg, no_flags, enoerr, in_nhbuf}
use isocore.Bgp.AsPaths.{startrealaspath_r}
use isocore.Bgp.AsPaths.Count.{Segments, no_segment, segment, merged}
use isocore.Bgp.AsPaths.Real.{
  Attr, short_length, IsRead, Table, Aggregators, both_there, on_as_path, startrealaspath_r_lem,
}
use isocore.Bgp.AsPaths.Loop.{Ases, no_more, new_segment, one_as, IsOnPath}
use isocore.Bgp.AsPaths.Iterate.{path_ases, path_ases_lem, path_ases-turns}

-- An AS_PATH, a sequence of 1 and 2 and a set of 3, and an attribute AS4_PATH, a sequence of 65538.
abbrev on_path : Msg
on_path = record {
  flags = record no_flags { rd = true; aspath = true };
  err = enoerr;
  buf = 2 ∷ 2 ∷ 0 ∷ 1 ∷ 0 ∷ 2 ∷ 1 ∷ 1 ∷ 0 ∷ 3 ∷ 64 ∷ 17 ∷ 6 ∷ 2 ∷ 1 ∷ 0 ∷ 1 ∷ 0 ∷ 2 ∷ [];
  fast = false;
  spare = [];
  pktlen = 19;
  bufsiz = 19;
  params = 0;
  pptr = 0;
  ustart = 0;
  uptr = 0;
  uend = 19;
  moved = false;
  pfxbuf = record {
    pfx = record { family = inet; bitlen = 0; bytes = replicate 16 0 };
    pathid = 0;
  };
  presbuf = [];
  offtab = replicate 16 0;
  ccode = 0;
  nh = in_nhbuf [];
  mpnh = none;
  mpfamily = inet;
  mpbitlen = 0;
  path = record no_path { asend = 10; as_size = 2; ascount = 65535 };
}

-- An update packet with the AS_PATH 1 2 {3}, an AGGREGATOR with AS_TRANS, an AS4_AGGREGATOR and the AS4_PATH
-- 65538.
abbrev packet : List ℕ
packet =
    replicate 18 255
    ++ (2 ∷ 64 ∷ 2 ∷ 10 ∷ 2 ∷ 2 ∷ 0 ∷ 1 ∷ 0 ∷ 2 ∷ 1 ∷ 1 ∷ 0 ∷ 3 ∷ [])
    ++ (192 ∷ 7 ∷ 6 ∷ 91 ∷ 160 ∷ 192 ∷ 0 ∷ 2 ∷ 1 ∷ [])
    ++ (192 ∷ 18 ∷ 8 ∷ 0 ∷ 1 ∷ 0 ∷ 2 ∷ 192 ∷ 0 ∷ 2 ∷ 1 ∷ [])
    ++ (192 ∷ 17 ∷ 6 ∷ 2 ∷ 1 ∷ 0 ∷ 1 ∷ 0 ∷ 2 ∷ [])

abbrev received : Msg
received = record on_path {
  flags = record no_flags { rd = true };
  buf = packet;
  pktlen = 61;
  bufsiz = 61;
  offtab = 19 ∷ 65535 ∷ 65535 ∷ 32 ∷ replicate 5 65535 ++ 52 ∷ 41 ∷ replicate 5 65535;
}

received-IsRead : IsRead received
received-IsRead = record { live = refl; update = refl; rd = refl }

received-Table : Table received 19 32 41 52
received-Table = record {
  as_path = refl;
  aggregator = refl;
  as4_aggregator = refl;
  as4_path = refl;
  has_as_path = (omega arith, omega arith);
  set_aggregator = omega arith;
  set_as4_aggregator = omega arith;
  has_as4_path = (omega arith, omega arith);
}

path-Attr : Attr packet 19 2 22 10
path-Attr = short_length refl refl refl refl

path4-Attr : Attr packet 52 17 55 6
path4-Attr = short_length refl refl refl refl

old-Segments : Segments 2 packet 22 32 3
old-Segments = segment {type = 2} refl refl (segment {type = 1} refl refl no_segment)

new-Segments : Segments 4 packet 55 61 1
new-Segments = segment {type = 2} refl refl no_segment

aggregators : Aggregators packet 32 41 true
unfolding read_bytes
aggregators =
    both_there {len = 6} {bs = 91 ∷ 160 ∷ []} (omega arith) (omega arith)
      (short_length refl refl refl refl) refl

startrealaspath_r_lem_example :
    startrealaspath_r (λ n. none) received
    ≡ some (enoerr, merged (on_as_path received 22 10) 55 61 3 1)
startrealaspath_r_lem_example =
    startrealaspath_r_lem (λ n. none) received 19 32 41 52 22 10 55 6 3 1 received-IsRead
      received-Table path-Attr path4-Attr old-Segments new-Segments true aggregators refl refl

three_ases : Ases 2 on_path.buf 0 10 0 (1 ∷ 2 ∷ 3 ∷ [])
unfolding read_bytes
three_ases = new_segment refl refl (omega arith) (
    one_as {bs = 0 ∷ 1 ∷ []} refl (
      one_as {bs = 0 ∷ 2 ∷ []} refl
        (new_segment refl refl (omega arith) (one_as {bs = 0 ∷ 3 ∷ []} refl no_more))))

on_path-IsOnPath : IsOnPath on_path 0 (1 ∷ 2 ∷ 3 ∷ [])
on_path-IsOnPath = record {
  on = refl;
  good = refl;
  index = refl;
  byte = omega arith;
  int16 = omega arith;
  enough = omega arith;
  ases = three_ases;
}

path_ases_lem_example : (last : Msg) × (path_ases 4 on_path ≡ some (1 ∷ 2 ∷ 3 ∷ [], last))
path_ases_lem_example = path_ases_lem 4 on_path 0 (1 ∷ 2 ∷ 3 ∷ []) on_path-IsOnPath (omega arith)

-- The same path, with no AS left to come from AS_PATH.
abbrev spent_path : Msg
spent_path = record on_path {
  path = record no_path { asend = 10; as_size = 2; ascount = 0; as4ptr = 13; as4end = 19 };
}

four_ases : Ases 4 on_path.buf 13 19 0 (65538 ∷ [])
unfolding read_bytes
four_ases = new_segment refl refl (omega arith) (one_as {bs = 0 ∷ 1 ∷ 0 ∷ 2 ∷ []} refl no_more)

path_ases-turns_example : (last : Msg) × (path_ases 4 spent_path ≡ some (65538 ∷ [], last))
path_ases-turns_example =
    path_ases-turns 4 spent_path 0 1 65538 (2 ∷ 3 ∷ []) [] refl refl refl (omega arith) refl
      three_ases four_ases (omega arith) (omega arith)
