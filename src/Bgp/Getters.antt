-- ===== src/Bgp/Getters.antt =====
-- The attributes of an update message by their codes (src/bgp.c). Those of AS paths and communities
-- stand with their iterations.
use isocore.Base.{ℕ, Option}
use isocore.Bgp.{Alloc, M}
use isocore.Bgp.Attribs.{seekbgpattr}

-- `getbgporigin_r`
abbrev pub getbgporigin_r : Alloc → M (Option ℕ)
getbgporigin_r alloc = seekbgpattr alloc 1

-- `getbgpnexthop_r`
abbrev pub getbgpnexthop_r : Alloc → M (Option ℕ)
getbgpnexthop_r alloc = seekbgpattr alloc 3

-- `getbgpatomicaggregate_r`
abbrev pub getbgpatomicaggregate_r : Alloc → M (Option ℕ)
getbgpatomicaggregate_r alloc = seekbgpattr alloc 6

-- `getbgpmpreach_r`
abbrev pub getbgpmpreach_r : Alloc → M (Option ℕ)
getbgpmpreach_r alloc = seekbgpattr alloc 14

-- `getbgpmpunreach_r`
abbrev pub getbgpmpunreach_r : Alloc → M (Option ℕ)
getbgpmpunreach_r alloc = seekbgpattr alloc 15
