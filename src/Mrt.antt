-- ===== src/Mrt.antt =====
-- src/mrt.c, include/isolario/mrt.h: an MRT packet that is read in place (`mrt_msg_t`).
--
-- Pointers into the packet are offsets into `buf`. An operation is a function from a message to an
-- outcome: `fault` is an access outside of the packet's buffer, or through NULL; `fails` is an early
-- return of NULL or of the error, with the message that is left; `ok` is what is returned.
-- The members of the union are fields of their own. `peer_index` is a pointer to another message, which
-- the operations that follow it take as an argument. The thread-local versions only pass `&curmsg`.
pub mod Table
pub mod Open
pub mod Peers
pub mod Rib
pub mod Legacy
pub mod Headers
pub mod Safe
pub mod Run
pub mod Memory
pub mod Packet
pub mod Samples
mod Tests
use isocore.Base.{
  ℕ, ◌+◌, Bool, true, false, ◌&&◌, ltb, ◌==◌, not, if◌then◌else◌, List, [], Option, none, some,
  get_elem?, replicate,
}
use isocore.Base.Bytes.{read_bytes, from_big}
use isocore.NetAddr.{NetAddr, unspec}

-- `MRT_ENOERR` and the error codes that follow it; `notpeeridx` is the one before it.
pub data MrtErr : Type 0 where
  notpeeridx enoerr eio einvop enomem ebadhdr ebadtype ebadbgp4mphdr ebadzebrahdr ebadpeeridxhdr
        ebadpeeridx :
      MrtErr
  eneedspeeridx eribnotsup ebadribent eafinotsup etypenotsup : MrtErr

abbrev pub is_ok : MrtErr → Bool
is_ok enoerr = true
is_ok _ = false

-- The bits of `msg->flags`.
pub record MrtFlags : Type 0 where
  pub valid : Bool
  pub as32 : Bool
  pub is_pi : Bool
  pub needs_pi : Bool
  pub is_ext : Bool
  pub is_bgp : Bool
  pub has_state : Bool
  pub wraps_bgp : Bool
  pub addpath : Bool
  pub rd : Bool
  pub wr : Bool
  pub pe : Bool
  pub re : Bool

abbrev pub no_flags : MrtFlags
no_flags = record {
  valid = false;
  as32 = false;
  is_pi = false;
  needs_pi = false;
  is_ext = false;
  is_bgp = false;
  has_state = false;
  wraps_bgp = false;
  addpath = false;
  rd = false;
  wr = false;
  pe = false;
  re = false;
}

-- `mrt_header_t`, with the time stamp's two fields.
pub record MrtHeader : Type 0 where
  pub tv_sec : ℕ
  pub tv_nsec : ℕ
  pub type : ℕ
  pub subtype : ℕ
  pub len : ℕ

-- `peer_entry_t`; `id` is kept as its four bytes.
pub record PeerEntry : Type 0 where
  pub as_size : ℕ
  pub as_number : ℕ
  pub id : List ℕ
  pub addr : NetAddr

-- `rib_header_t`
pub record RibHeader : Type 0 where
  pub seqno : ℕ
  pub afi : ℕ
  pub safi : ℕ
  pub nlri : NetAddr

-- `rib_entry_t`; `peer` points to `ribpe`, and `attrs` into the packet.
pub record RibEntry : Type 0 where
  pub peer_idx : ℕ
  pub attr_length : ℕ
  pub seqno : ℕ
  pub originated : ℕ
  pub nlri : NetAddr
  pub pathid : ℕ
  pub attrs : ℕ

-- `bgp4mp_header_t`
pub record Bgp4mpHeader : Type 0 where
  pub peer_as : ℕ
  pub local_as : ℕ
  pub peer_addr : NetAddr
  pub local_addr : NetAddr
  pub iface : ℕ
  pub old_state : ℕ
  pub new_state : ℕ

-- `zebra_header_t`
pub record ZebraHeader : Type 0 where
  pub peer_as : ℕ
  pub peer_addr : NetAddr
  pub old_state : ℕ
  pub new_state : ℕ
  pub local_as : ℕ
  pub local_addr : NetAddr

-- `mrt_msg_t`. `peer_index` says whether the pointer is set; `pitab` is NULL or the table, and
-- `fast_pitab` says that it is the embedded one.
pub record MrtMsg : Type 0 where
  pub flags : MrtFlags
  pub err : MrtErr
  pub bufsiz : ℕ
  pub peer_index : Bool
  pub hdr : MrtHeader
  pub entry : PeerEntry
  pub peptr : ℕ
  pub ribhdr : RibHeader
  pub ribent : RibEntry
  pub ribpe : PeerEntry
  pub reptr : ℕ
  pub bgp4mphdr : Bgp4mpHeader
  pub zebrahdr : ZebraHeader
  pub buf : List ℕ
  pub fast : Bool
  pub pitab : Option (List ℕ)
  pub fast_pitab : Bool
  pub picount : ℕ

-- The outcome of an operation.
pub data Outcome (A : Type 0) : Type 0 where
  fault : Outcome A
  fails : MrtMsg → Outcome A
  ok : A → MrtMsg → Outcome A

abbrev pub R : Type 0 → Type 0
R A = MrtMsg → Outcome A

unfoldable pub then_do : {A B : Type 0} → (A → R B) → Outcome A → Outcome B
then_do k fault = fault
then_do k (fails m) = fails m
then_do k (ok a m) = k a m

infixl 5 ◌>>=◌ ◌>>◌
abbrev pub ◌>>=◌ : {A B : Type 0} → R A → (A → R B) → R B
◌>>=◌ f k m = then_do k (f m)

abbrev pub ◌>>◌ : {A B : Type 0} → R A → R B → R B
f >> g = f >>= λ _. g

abbrev pub return : {A : Type 0} → A → R A
return a m = ok a m

abbrev pub modify : (MrtMsg → MrtMsg) → R (Unit {0})
modify f m = ok tt (f m)

abbrev pub gets : {A : Type 0} → (MrtMsg → A) → R A
gets f m = ok (f m) m

-- `msg->err = e; return NULL;`
abbrev pub fail_with : {A : Type 0} → MrtErr → R A
fail_with e m = fails (record m { err = e })

-- `CHECKFLAGSR`, `CHECKTYPER` and `CHECKPEERIDXR`: an error is latched unless the test holds, an earlier
-- one is kept, and any error ends the operation.
abbrev pub latch : MrtErr → Bool → MrtMsg → MrtMsg
latch e true m = m
latch e false m = record m { err = if is_ok m.err then e else m.err }

unfoldable pub require : MrtErr → (MrtMsg → Bool) → R (Unit {0})
require e has m = let m' = latch e (has m) m in if is_ok m'.err then ok tt m' else fails m'

abbrev pub check_flags : (MrtFlags → Bool) → R (Unit {0})
check_flags has = require einvop (λ m. has m.flags)

abbrev pub check_type : ℕ → R (Unit {0})
check_type which = require einvop (λ m. m.hdr.type == which)

abbrev pub check_peeridx : R (Unit {0})
check_peeridx = require eneedspeeridx (λ m. m.peer_index)

-- `CHECKBOUNDSR`
unfoldable pub check_bounds : ℕ → ℕ → ℕ → MrtErr → R (Unit {0})
check_bounds ptr end size e m =
    if ltb end (ptr + size) then fails (record m { err = e }) else ok tt m

-- `memcpy` out of the packet.
unfoldable pub copy : ℕ → ℕ → R (List ℕ)
copy ptr n m = elim (read_bytes m.buf ptr n) [ none ↦ fault | some bs ↦ ok bs m ]

-- A copied big endian number of `n` bytes.
unfoldable pub number : ℕ → ℕ → R ℕ
number ptr n m = elim (read_bytes m.buf ptr n) [ none ↦ fault | some bs ↦ ok (from_big bs 0) m ]

-- `*ptr`
unfoldable pub byte : ℕ → R ℕ
byte ptr m = elim (get_elem? m.buf ptr) [ none ↦ fault | some b ↦ ok b m ]

-- `MESSAGE_OFFSET`, `MESSAGE_EXTENDED_OFFSET`
abbrev pub message_offset : ℕ
message_offset = 12

abbrev pub message_extended_offset : ℕ
message_extended_offset = 16

-- `MRT_BGP` to `MRT_BGP4MP_ET`
abbrev pub mrt_bgp : ℕ
mrt_bgp = 5

abbrev pub mrt_table_dump : ℕ
mrt_table_dump = 12

abbrev pub mrt_table_dumpv2 : ℕ
mrt_table_dumpv2 = 13

abbrev pub mrt_bgp4mp : ℕ
mrt_bgp4mp = 16

abbrev pub mrt_bgp4mp_et : ℕ
mrt_bgp4mp_et = 17

-- `AFI_IPV4` and `AFI_IPV6`
abbrev pub afi_ipv4 : ℕ
afi_ipv4 = 1

abbrev pub afi_ipv6 : ℕ
afi_ipv6 = 2

-- `memset` of an address to 0.
abbrev pub zero_addr : NetAddr
zero_addr = record { family = unspec; bitlen = 0; bytes = replicate 16 0 }
