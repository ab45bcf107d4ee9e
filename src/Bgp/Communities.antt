-- ===== src/Bgp/Communities.antt =====
-- The iteration over the communities of an update message (src/bgp.c): `startcommunities_r` and
-- `nextcommunity_r`, with the getters of the three attributes.
pub mod Read
mod Tests
use isocore.Base.{
  ℕ, ◌+◌, ◌-◌, ◌%◌, ◌^◌, Bool, true, false, ltb, ◌==◌, if◌then◌else◌, List, Option, none, some,
  take, drop,
}
use isocore.Base.Bytes.{read_bytes, from_big}
use isocore.Bgp.{
  Msg, Flags, Err, enoerr, einvop, ebadattr, Alloc, M, ◌>>=◌, ◌>>◌, return, access, gets, modify,
  check_flags, check_type, bgp_update,
}
use isocore.Bgp.Pending.{endpending}
use isocore.Bgp.Attribs.{seekbgpattr}
use isocore.Bgp.MpAttr.{value_of}

abbrev pub community_code : ℕ
community_code = 8

abbrev pub extended_community_code : ℕ
extended_community_code = 16

abbrev pub large_community_code : ℕ
large_community_code = 32

-- `getbgpcommunities_r`, `getbgpexcommunities_r` and `getbgplargecommunities_r`
abbrev pub getbgpcommunities_r : Alloc → M (Option ℕ)
getbgpcommunities_r alloc = seekbgpattr alloc community_code

abbrev pub getbgpexcommunities_r : Alloc → M (Option ℕ)
getbgpexcommunities_r alloc = seekbgpattr alloc extended_community_code

abbrev pub getbgplargecommunities_r : Alloc → M (Option ℕ)
getbgplargecommunities_r alloc = seekbgpattr alloc large_community_code

-- What `nextcommunity_r` leaves in `cbuf`: a number, the eight bytes of an extended community as they
-- are, or the three numbers of a large one.
pub data Community : Type 0 where
  comm : ℕ → Community
  excomm : List ℕ → Community
  lcomm : ℕ → ℕ → ℕ → Community

-- The rest of `startcommunities_r`, once the attribute was looked up.
unfoldable pub place_communities : ℕ → Option ℕ → M Err
place_communities code attr = do
  modify (λ m. record m { ccode = code; flags = record m.flags { community = true } })
  elim attr [
    | none ↦ (do
      modify (λ m. record m { ustart = 0; uptr = 0; uend = 0; moved = false })
      gets (λ m. m.err))
    | some at ↦ (do
      (ptr, size) ← value_of at
      modify (λ m. record m { ustart = at; uptr = ptr; uend = ptr + size; moved = false })
      return enoerr)
  ]

-- `startcommunities_r`
unfoldable pub startcommunities_r : Alloc → ℕ → M Err
startcommunities_r alloc code =
    check_type bgp_update (λ f. f.rd) (λ e. e)
      do
        endpending
        if code == community_code
            then (do attr ← getbgpcommunities_r alloc; place_communities code attr)
            else (if code == extended_community_code
                then (do attr ← getbgpexcommunities_r alloc; place_communities code attr)
                else (if code == large_community_code
                    then (do attr ← getbgplargecommunities_r alloc; place_communities code attr)
                    else (do modify (λ m. record m { err = einvop }); return einvop)))

-- One case of the switch in `nextcommunity_r`: `n` bytes are taken, if there are as many.
unfoldable pub take_community : ℕ → (List ℕ → Community) → M (Option Community)
take_community n decode = do
  uptr ← gets (λ m. m.uptr)
  uend ← gets (λ m. m.uend)
  if ltb ((uend + 2 ^ 64 - uptr) % 2 ^ 64) n
      then (do modify (λ m. record m { err = ebadattr }); return none)
      else (do
        bs ← access (λ m. read_bytes m.buf uptr n)
        modify (λ m. record m { uptr = uptr + n })
        return (some (decode bs)))

abbrev pub decode_comm : List ℕ → Community
decode_comm bs = comm (from_big bs 0)

abbrev pub decode_lcomm : List ℕ → Community
decode_lcomm bs =
    lcomm (from_big (take 4 bs) 0) (from_big (take 4 (drop 4 bs)) 0)
      (from_big (take 4 (drop 8 bs)) 0)

-- `nextcommunity_r`: the next community, or NULL; `none` for another code (the assertion).
unfoldable pub nextcommunity_r : M (Option Community)
nextcommunity_r =
    check_flags (λ f. f.community) (λ _. none)
      do
        uptr ← gets (λ m. m.uptr)
        uend ← gets (λ m. m.uend)
        code ← gets (λ m. m.ccode)
        if uptr == uend
            then return none
            else (if code == community_code
                then take_community 4 decode_comm
                else (if code == extended_community_code
                    then take_community 8 excomm
                    else (if code == large_community_code
                        then take_community 12 decode_lcomm
                        else access (λ _. none))))
