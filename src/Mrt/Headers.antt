-- ===== src/Mrt/Headers.antt =====
-- The headers of BGP4MP and of Zebra BGP packets, and the BGP messages that these wrap (src/mrt.c).
pub mod Safety
pub mod Fields
pub mod Inverse
pub mod Written
use isocore.Base.{ℕ, ◌+◌, ◌-◌, ◌*◌, Bool, ◌&&◌, ◌==◌, if◌then◌else◌, Option, none, some, drop, ◌++◌}
use isocore.NetAddr.{NetAddr, Family, inet, inet6, makenaddr}
use isocore.Mrt.{
  einvop, ebadbgp4mphdr, ebadzebrahdr, eafinotsup, MrtMsg, Bgp4mpHeader, ZebraHeader, Outcome,
  fault, ok, R, ◌>>=◌, ◌>>◌, return, modify, gets, fail_with, check_flags, check_type, check_bounds,
  copy, number, message_offset, message_extended_offset, mrt_bgp, afi_ipv4, afi_ipv6, zero_addr,
}

-- `ptr` and `end` as both operations on BGP4MP start with them.
abbrev pub start_of : MrtMsg → ℕ
start_of m = if m.flags.is_ext then message_extended_offset else message_offset

abbrev pub end_of : MrtMsg → ℕ
end_of m = message_offset + m.hdr.len

-- `makenaddr` of the bytes at a place of the packet.
unfoldable pub naddr_at : Family → ℕ → ℕ → R NetAddr
naddr_at family ptr bitlen m = elim (makenaddr family (drop ptr m.buf) bitlen) [
  | none ↦ fault
  | some a ↦ ok a m
]

abbrev pub zero_bgp4mp : Bgp4mpHeader
zero_bgp4mp = record {
  peer_as = 0;
  local_as = 0;
  peer_addr = zero_addr;
  local_addr = zero_addr;
  iface = 0;
  old_state = 0;
  new_state = 0;
}

abbrev pub set_bgp4mp : (Bgp4mpHeader → Bgp4mpHeader) → R (Unit {0})
set_bgp4mp f = modify (λ m. record m { bgp4mphdr = f m.bgp4mphdr })

-- Both AS numbers, of `size` bytes each.
unfoldable pub read_ases : ℕ → ℕ → ℕ → R ℕ
read_ases ptr end size = do
  check_bounds ptr end (2 * size) ebadbgp4mphdr
  peer ← number ptr size
  set_bgp4mp (λ h. record h { peer_as = peer })
  loc ← number (ptr + size) size
  set_bgp4mp (λ h. record h { local_as = loc })
  return (ptr + 2 * size)

-- Both addresses, of `size` bytes each.
unfoldable pub read_addrs : ℕ → ℕ → Family → ℕ → R ℕ
read_addrs ptr end family size = do
  check_bounds ptr end (2 * size) ebadbgp4mphdr
  peer ← naddr_at family ptr (8 * size)
  set_bgp4mp (λ h. record h { peer_addr = peer })
  loc ← naddr_at family (ptr + size) (8 * size)
  set_bgp4mp (λ h. record h { local_addr = loc })
  return (ptr + 2 * size)

unfoldable pub read_states : ℕ → ℕ → R (Unit {0})
read_states ptr end = do
  check_bounds ptr end 4 ebadbgp4mphdr
  old ← number ptr 2
  set_bgp4mp (λ h. record h { old_state = old })
  new ← number (ptr + 2) 2
  set_bgp4mp (λ h. record h { new_state = new })

-- The addresses of the family that the packet names.
unfoldable pub read_family : ℕ → ℕ → ℕ → R ℕ
read_family afi ptr end =
    if afi == afi_ipv4
    then read_addrs ptr end inet 4
    else (if afi == afi_ipv6 then read_addrs ptr end inet6 16 else fail_with eafinotsup)

-- `getbgp4mpheader_r`
unfoldable pub getbgp4mpheader_r : R Bgp4mpHeader
getbgp4mpheader_r = do
  check_flags (λ f. f.rd && f.is_bgp)
  start ← gets start_of
  end ← gets end_of
  set_bgp4mp (λ h. zero_bgp4mp)
  as32 ← gets (λ m. m.flags.as32)
  ptr ← read_ases start end (if as32 then 4 else 2)
  check_bounds ptr end 4 ebadbgp4mphdr
  iface ← number ptr 2
  set_bgp4mp (λ h. record h { iface = iface })
  afi ← number (ptr + 2) 2
  next ← read_family afi (ptr + 4) end
  has_state ← gets (λ m. m.flags.has_state)
  if has_state
      then read_states next end
      else set_bgp4mp (λ h. record h { old_state = 0; new_state = 0 })
  gets (λ m. m.bgp4mphdr)

-- `unwrapbgp4mp_r`: the offset of the BGP message, and the bytes from it to the end.
unfoldable pub skip_addrs : ℕ → ℕ → ℕ → R ℕ
skip_addrs ptr end size = do check_bounds ptr end (2 * size) ebadbgp4mphdr; return (ptr + 2 * size)

unfoldable pub skip_family : ℕ → ℕ → ℕ → R ℕ
skip_family afi ptr end =
    if afi == afi_ipv4
    then skip_addrs ptr end 4
    else (if afi == afi_ipv6 then skip_addrs ptr end 16 else fail_with eafinotsup)

unfoldable pub unwrapbgp4mp_r : R (ℕ × ℕ)
unwrapbgp4mp_r = do
  check_flags (λ f. f.rd && f.wraps_bgp)
  start ← gets start_of
  end ← gets end_of
  as32 ← gets (λ m. m.flags.as32)
  let ases = if as32 then 8 else 4
  check_bounds start end (ases + 4) ebadbgp4mphdr
  afi ← number (start + ases + 2) 2
  ptr ← skip_family afi (start + ases + 4) end
  return (ptr, end - ptr)

-- An IPv4 address in a Zebra BGP header: the 12 bytes after it are left as they are.
unfoldable pub ipv4_over : NetAddr → ℕ → R NetAddr
ipv4_over old ptr = do
  sin ← copy ptr 4
  return (record { family = inet; bitlen = 32; bytes = sin ++ drop 4 old.bytes })

abbrev pub set_zebra : (ZebraHeader → ZebraHeader) → R (Unit {0})
set_zebra f = modify (λ m. record m { zebrahdr = f m.zebrahdr })

-- The part of `getzebraheader_r` that depends on the kind of packet.
unfoldable pub zebra_local : ℕ → ℕ → R (Unit {0})
zebra_local ptr end = do
  check_bounds ptr end 6 ebadzebrahdr
  as_number ← number ptr 2
  set_zebra (λ h. record h { local_as = as_number })
  old ← gets (λ m. m.zebrahdr.local_addr)
  addr ← ipv4_over old (ptr + 2)
  set_zebra (λ h. record h { local_addr = addr })

unfoldable pub zebra_states : ℕ → ℕ → R (Unit {0})
zebra_states ptr end = do
  check_bounds ptr end 4 ebadzebrahdr
  old ← number ptr 2
  set_zebra (λ h. record h { old_state = old })
  new ← number (ptr + 2) 2
  set_zebra (λ h. record h { new_state = new })

-- `getzebraheader_r`
unfoldable pub getzebraheader_r : R ZebraHeader
getzebraheader_r = do
  check_type mrt_bgp
  end ← gets end_of
  check_bounds message_offset end 6 ebadzebrahdr
  as_number ← number message_offset 2
  set_zebra (λ h. record h { peer_as = as_number })
  old ← gets (λ m. m.zebrahdr.peer_addr)
  addr ← ipv4_over old (message_offset + 2)
  set_zebra (λ h. record h { peer_addr = addr })
  wraps ← gets (λ m. m.flags.wraps_bgp)
  has_state ← gets (λ m. m.flags.has_state)
  if wraps
      then zebra_local (message_offset + 6) end
      else (if has_state then zebra_states (message_offset + 6) end else fail_with einvop)
  gets (λ m. m.zebrahdr)

-- `unwrapzebra_r`
unfoldable pub unwrapzebra_r : R (ℕ × ℕ)
unwrapzebra_r = do
  check_type mrt_bgp
  check_flags (λ f. f.wraps_bgp && f.rd)
  end ← gets end_of
  check_bounds message_offset end 12 ebadzebrahdr
  return (message_offset + 12, end - (message_offset + 12))
