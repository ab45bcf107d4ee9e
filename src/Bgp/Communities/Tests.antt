-- ===== src/Bgp/Communities/Tests.antt =====
-- A run of the iteration over communities.
use isocore.Base.{◌≡◌, refl, arith, true, false, List, [], ◌∷◌, none, some, replicate}
use isocore.NetAddr.{inet}
use isocore.Bgp.{no_path, Msg, no_flags, enoerr, in_nhbuf}
use isocore.Bgp.Communities.{Community, comm, community_code}
use isocore.Bgp.Communities.Read.{Iterating, next_communities, next_communities_lem}
use isocore.Bgp.Inverse.Read.{remaining}

-- Two communities, 65001:1 and 65001:2.
abbrev two : List Community
two = comm 4259905537 ∷ comm 4259905538 ∷ []

abbrev reading : Msg
reading = record {
  flags = record no_flags { rd = true; community = true };
  err = enoerr;
  buf = 253 ∷ 233 ∷ 0 ∷ 1 ∷ 253 ∷ 233 ∷ 0 ∷ 2 ∷ [];
  fast = false;
  spare = [];
  pktlen = 8;
  bufsiz = 8;
  params = 0;
  pptr = 0;
  ustart = 0;
  uptr = 0;
  uend = 8;
  moved = false;
  pfxbuf = record {
    pfx = record { family = inet; bitlen = 0; bytes = replicate 16 0 };
    pathid = 0;
  };
  presbuf = [];
  offtab = replicate 16 0;
  ccode = community_code;
  nh = in_nhbuf [];
  mpnh = none;
  mpfamily = inet;
  mpbitlen = 0;
  path = no_path;
}

reading-Iterating : Iterating community_code reading
reading-Iterating = record {
  inside = record { here = refl; order = omega arith; in_buf = omega arith };
  small = omega arith;
  community = refl;
  kind = refl;
  ok = refl;
}

next_communities_lem_example :
    (m' : Msg) × (next_communities 3 reading ≡ some (two, m')) × (remaining m' ≡ [])
next_communities_lem_example =
    next_communities_lem community_code two reading ((refl, omega arith), ((refl, omega arith), tt))
      reading-Iterating refl
