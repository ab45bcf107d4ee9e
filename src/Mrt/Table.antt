-- ===== src/Mrt/Table.antt =====
-- The flags of the packets by their type and subtype (`masktab` and `mrtflags` of src/mrt.c).
use isocore.Base.{ℕ, true, ◌||◌, ◌&&◌, ◌==◌, leb, if◌then◌else◌}
use isocore.Mrt.{
  MrtFlags, no_flags, mrt_bgp, mrt_table_dump, mrt_table_dumpv2, mrt_bgp4mp, mrt_bgp4mp_et,
  afi_ipv4, afi_ipv6,
}

-- The rows of `masktab`. An entry that is not written in the table is 0.
unfoldable pub table_dump_flags : ℕ → MrtFlags
table_dump_flags s =
    if s == afi_ipv4 || s == afi_ipv6
    then record no_flags { valid = true; wraps_bgp = true }
    else no_flags

unfoldable pub table_dumpv2_flags : ℕ → MrtFlags
table_dumpv2_flags s =
    if s == 1
    then record no_flags { valid = true; is_pi = true }
    else (if leb 2 s && leb s 6
        then record no_flags { valid = true; needs_pi = true }
        else (if leb 8 s && leb s 12
            then record no_flags { valid = true; needs_pi = true; addpath = true }
            else no_flags))

unfoldable pub bgp_flags : ℕ → MrtFlags
bgp_flags s =
    if s == 0 || s == 2 || s == 4
    then record no_flags { valid = true }
    else (if s == 1 || s == 5 || s == 6 || s == 7
        then record no_flags { valid = true; wraps_bgp = true }
        else (if s == 3 then record no_flags { valid = true; has_state = true } else no_flags))

-- `BGP4MP_MESSAGE_ADDPATH`, 8, is missing in the table.
unfoldable pub bgp4mp_flags : ℕ → MrtFlags
bgp4mp_flags s =
    if s == 0
    then record no_flags { valid = true; is_bgp = true; has_state = true }
    else (if s == 1 || s == 6
        then record no_flags { valid = true; is_bgp = true; wraps_bgp = true }
        else (if s == 4 || s == 7
            then record no_flags { valid = true; as32 = true; is_bgp = true; wraps_bgp = true }
            else (if s == 5
                then record no_flags { valid = true; as32 = true; is_bgp = true; has_state = true }
                else (if s == 9 || s == 11
                    then record no_flags {
                      valid = true;
                      as32 = true;
                      is_bgp = true;
                      wraps_bgp = true;
                      addpath = true;
                    }
                    else (if s == 10
                        then record no_flags {
                          valid = true;
                          is_bgp = true;
                          wraps_bgp = true;
                          addpath = true;
                        }
                        else no_flags)))))

abbrev pub extended : MrtFlags → MrtFlags
extended f = if f.valid then record f { is_ext = true } else f

-- `mrtflags`, for the types and subtypes that the table has.
unfoldable pub mrtflags : ℕ → ℕ → MrtFlags
mrtflags type subtype =
    if type == mrt_bgp
    then bgp_flags subtype
    else (if type == mrt_table_dump
        then table_dump_flags subtype
        else (if type == mrt_table_dumpv2
            then table_dumpv2_flags subtype
            else (if type == mrt_bgp4mp
                then bgp4mp_flags subtype
                else (if type == mrt_bgp4mp_et
                    then extended (bgp4mp_flags subtype)
                    else no_flags))))
