-- ===== src/Mrt/Headers/Inverse.antt =====
-- BGP4MP packets (src/mrt.c) that are read as they were written.
use isocore.Base.{
  ℕ, ◌+◌, ◌*◌, ◌^◌, ◌<◌, ◌≡◌, refl, arith, Bool, true, false, if◌then◌else◌, List, [], ◌++◌, length,
}
use isocore.Base.Bytes.{big16, big32, from_big, from_big-big16, from_big-big32}
use isocore.NetAddr.{Family, inet, inet6}
use isocore.Mrt.{ebadbgp4mphdr, MrtMsg, Bgp4mpHeader, ok, afi_ipv4, afi_ipv6}
use isocore.Mrt.Headers.{set_bgp4mp, read_states, read_family, skip_addrs, skip_family}
use isocore.Mrt.Run.{Runs, run, computes, Front, Front-advance, number_front, bounds_front}
use isocore.Mrt.Headers.Fields.{address, whole, length-whole, read_addrs_lem}

-- What a BGP4MP packet says of the session, with addresses of four or sixteen bytes.
pub record Session : Type 0 where
  pub v6 : Bool
  pub peer_as : ℕ
  pub local_as : ℕ
  pub iface : ℕ
  pub peer_addr : List ℕ
  pub local_addr : List ℕ

abbrev pub as_size : Bool → ℕ
as_size as32 = if as32 then 4 else 2

abbrev pub addr_size : Bool → ℕ
addr_size v6 = if v6 then 16 else 4

abbrev pub family : Bool → Family
family v6 = if v6 then inet6 else inet

-- The numbers and the addresses have their size.
pub record Sized (as32 : Bool) (s : Session) : Type 0 where
  pub peer_as : s.peer_as < 256 ^ as_size as32
  pub local_as : s.local_as < 256 ^ as_size as32
  pub iface : s.iface < 65536
  pub peer_addr : length s.peer_addr ≡ addr_size s.v6
  pub local_addr : length s.local_addr ≡ addr_size s.v6

abbrev pub encode_as : Bool → ℕ → List ℕ
encode_as as32 v = if as32 then big32 v else big16 v

-- The packet's bytes for the session.
abbrev pub encode_bgp4mp : Bool → Session → List ℕ → List ℕ
encode_bgp4mp as32 s rest =
    encode_as as32 s.peer_as
    ++ (encode_as as32 s.local_as
        ++ (big16 s.iface
            ++ (big16 (if s.v6 then afi_ipv6 else afi_ipv4)
                ++ (s.peer_addr ++ (s.local_addr ++ rest)))))

-- The header for the session, with a change of the state.
abbrev pub header_of : Session → ℕ → ℕ → Bgp4mpHeader
header_of s old new = record {
  peer_as = s.peer_as;
  local_as = s.local_as;
  peer_addr = address (family s.v6) s.peer_addr;
  local_addr = address (family s.v6) s.local_addr;
  iface = s.iface;
  old_state = old;
  new_state = new;
}

pub length-encode_as : (as32 : Bool) (v : ℕ) → length (encode_as as32 v) ≡ as_size as32
length-encode_as true v = refl
length-encode_as false v = refl

pub from_big-encode_as :
    (as32 : Bool) (v : ℕ) → v < 256 ^ as_size as32 → from_big (encode_as as32 v) 0 ≡ v
from_big-encode_as true v h = from_big-big32 v (omega (arith, h))
from_big-encode_as false v h = from_big-big16 v (omega (arith, h))

module _ (m : MrtMsg) (ptr end : ℕ) where
  pub read_family_lem :
      (v6 : Bool) (xs ys rest : List ℕ)
      → length xs ≡ addr_size v6
      → length ys ≡ addr_size v6
      → Front m.buf ptr end (xs ++ (ys ++ rest))
      → Runs (read_family (if v6 then afi_ipv6 else afi_ipv4) ptr end) m (
          ok (ptr + 2 * addr_size v6) (record m {
            bgp4mphdr = record m.bgp4mphdr {
              peer_addr = address (family v6) xs;
              local_addr = address (family v6) ys;
            };
          }))
  unfolding read_family
  read_family_lem true xs ys rest h k f =
      read_addrs_lem m inet6 ptr end 16 (omega arith) xs ys rest h k f
  read_family_lem false xs ys rest h k f =
      read_addrs_lem m inet ptr end 4 (omega arith) xs ys rest h k f

  pub skip_family_lem :
      (v6 : Bool) (xs ys rest : List ℕ)
      → length xs ≡ addr_size v6
      → length ys ≡ addr_size v6
      → Front m.buf ptr end (xs ++ (ys ++ rest))
      → Runs
          (skip_family (if v6 then afi_ipv6 else afi_ipv4) ptr end)
          m
          (ok (ptr + 2 * addr_size v6) m)
  unfolding skip_family skip_addrs
  skip_family_lem true xs ys rest h k f =
      run _
        (bounds_front m (xs ++ ys) rest 32 (length-whole m ptr end 16 xs ys rest h k f)
          (whole m ptr end 16 xs ys rest h k f) ebadbgp4mphdr)
        computes
  skip_family_lem false xs ys rest h k f =
      run _
        (bounds_front m (xs ++ ys) rest 8 (length-whole m ptr end 4 xs ys rest h k f)
          (whole m ptr end 4 xs ys rest h k f) ebadbgp4mphdr)
        computes

-- The bytes of a change of the state, and what the header has of it.
abbrev pub states : Bool → ℕ → ℕ → List ℕ
states has_state old new = if has_state then big16 old ++ big16 new else []

abbrev pub state : Bool → ℕ → ℕ
state has_state v = if has_state then v else 0

module _ (m : MrtMsg) (ptr end old new : ℕ) (rest : List ℕ) (small_old : old < 65536)
    (small_new : new < 65536) where
  pub read_states_lem :
      (has_state : Bool)
      → Front m.buf ptr end (states has_state old new ++ rest)
      → Runs
          (if has_state
            then read_states ptr end
            else set_bgp4mp (λ h. record h { old_state = 0; new_state = 0 }))
          m
          (ok tt (record m {
            bgp4mphdr = record m.bgp4mphdr {
              old_state = state has_state old;
              new_state = state has_state new;
            };
          }))
  unfolding read_states
  read_states_lem false f = computes
  read_states_lem true f =
      run _ (bounds_front m (big16 old ++ big16 new) rest 4 refl f ebadbgp4mphdr) (
        run _
          (number_front m (big16 old) (big16 new ++ rest) 2 refl f (from_big-big16 old small_old))
          (run _ computes (
            run _
              (number_front (record m { bgp4mphdr = record m.bgp4mphdr { old_state = old } })
                (big16 new) rest 2 refl (Front-advance (big16 old) (big16 new ++ rest) 2 refl f)
                (from_big-big16 new small_new))
              computes)))
