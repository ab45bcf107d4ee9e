-- ===== src/Bgp/Fields.antt =====
-- The three variable fields of an update message: where each starts and how long it is
-- (`getwithdrawn_r`, `getbgpattribs_r`, `getnlri_r` of src/bgp.c).
use isocore.Base.{ℕ, ◌+◌, ◌-◌, ◌%◌, ◌^◌, Option, none, some, List}
use isocore.Base.Bytes.{read_bytes, write_bytes, from_big}
use isocore.Bgp.{
  Msg, M, ◌>>=◌, return, access, gets, check_type, any_flags, bgp_update, base_packet_length,
}

-- A big endian 16-bit number at an offset.
unfoldable pub load16 : ℕ → Msg → Option ℕ
load16 off m = elim (read_bytes m.buf off 2) [ none ↦ none | some bs ↦ some (from_big bs 0) ]

-- A copy of bytes to an offset of the packet.
unfoldable pub store : ℕ → List ℕ → M (Unit {0})
store off bs m = elim (write_bytes m.buf off bs) [
  | none ↦ none
  | some b ↦ some (tt, record m { buf = b })
]

-- A pointer and a length; `none` is the NULL that is returned on an error, with the length left
-- unset.
abbrev pub Field : Type 0
Field = Option (ℕ × ℕ)

-- `getwithdrawn_r`
unfoldable pub getwithdrawn_r : M Field
getwithdrawn_r =
    check_type bgp_update any_flags (λ _. none)
      do n ← access (load16 base_packet_length); return (some (base_packet_length + 2, n))

-- `getbgpattribs_r`: after the withdrawn routes.
unfoldable pub getbgpattribs_r : M Field
getbgpattribs_r =
    check_type bgp_update any_flags (λ _. none)
      do
        f ← getwithdrawn_r
        (ptr, withdrawn_size) ← access (λ _. f)
        n ← access (load16 (ptr + withdrawn_size))
        return (some (ptr + withdrawn_size + 2, n))

-- `getnlri_r`: what is left of the packet. The difference of pointers is a `size_t`.
unfoldable pub getnlri_r : M Field
getnlri_r =
    check_type bgp_update any_flags (λ _. none)
      do
        f ← getbgpattribs_r
        (attrs, pattrs_length) ← access (λ _. f)
        let ptr = attrs + pattrs_length
        pktlen ← gets (λ m. m.pktlen)
        return (some (ptr, (pktlen + 2 ^ 64 - ptr) % 2 ^ 64))
