-- ===== src/NetAddr.antt =====
-- include/isolario/netaddr.h and src/netaddr.c: IPv4 and IPv6 prefixes (`netaddr_t`) and the
-- comparisons on them. The union of the 16 address bytes is a list of bytes; `u16` and `u32` read
-- its members as the host's little endian numbers (only their equality is ever used).
pub mod Bits
pub mod Compare
pub mod Unrolled
pub mod Reserved
pub mod Checked
mod Tests
use isocore.Base.{
  ℕ, zero, suc, ◌+◌, ◌-◌, ◌*◌, ◌/◌, ◌%◌, ◌^◌, bit_and, Bool, true, false, not, ◌&&◌, ◌||◌, ◌==◌,
  ltb, leb, if◌then◌else◌, List, [], ◌∷◌, ◌++◌, Option, none, some, get_or, take, replicate, length,
}
use isocore.Base.Bytes.{read_bytes, write_bytes}

-- The address families that the library tells apart: `AF_UNSPEC`, `AF_INET`, `AF_INET6`.
pub data Family : Type 0 where
  unspec inet inet6 : Family

abbrev pub family_eq : Family → Family → Bool
family_eq unspec unspec = true
family_eq inet inet = true
family_eq inet6 inet6 = true
family_eq _ _ = false

-- `netaddr_t`
pub record NetAddr : Type 0 where
  pub family : Family
  pub bitlen : ℕ
  pub bytes : List ℕ

-- `netaddrap_t`
pub record NetAddrAp : Type 0 where
  pub pfx : NetAddr
  pub pathid : ℕ

-- `ip->bytes[i]`
abbrev pub byte_at : NetAddr → ℕ → ℕ
byte_at a i = get_or a.bytes i 0

-- `ip->u16[i]`
unfoldable pub u16_at : NetAddr → ℕ → ℕ
u16_at a i = byte_at a (2 * i) + 256 * byte_at a (2 * i + 1)

-- `ip->u32[i]`
unfoldable pub u32_at : NetAddr → ℕ → ℕ
u32_at a i =
    byte_at a (4 * i)
    + 256 * byte_at a (4 * i + 1)
    + 65536 * byte_at a (4 * i + 2)
    + 16777216 * byte_at a (4 * i + 3)

-- `(bitlen >> 3) + ((bitlen & 7) != 0)`
unfoldable pub naddrsize : ℕ → ℕ
naddrsize bitlen = bitlen / 8 + (if bitlen % 8 == 0 then 0 else 1)

-- `makenaddr`: zeroes the 16 bytes and copies `naddrsize(bitlen)` of them from `sin`.
-- `none` is a copy past the end of `sin` or of the address.
unfoldable pub makenaddr : Family → List ℕ → ℕ → Option NetAddr
unfolding naddrsize read_bytes write_bytes
makenaddr family sin bitlen = elim (read_bytes sin 0 (naddrsize bitlen)) [
  | none ↦ none
  | some src ↦ elim (write_bytes (replicate 16 0) 0 src) [
    | none ↦ none
    | some bs ↦ some (record { family = family; bitlen = bitlen; bytes = bs })
  ]
]

-- The loop of `saddrfamily`, with the rounds left; a list's end is the terminating NUL.
family_loop : ℕ → List ℕ → Family
family_loop zero [] = unspec
family_loop zero (c ∷ s) = if c == b':' then inet6 else unspec
family_loop (suc n) [] = unspec
family_loop (suc n) (c ∷ s) =
    if c == b'.' then inet else (if c == b':' then inet6 else family_loop n s)

-- `saddrfamily`; `none` is the NULL pointer.
unfoldable pub saddrfamily : Option (List ℕ) → Family
unfolding family_loop
saddrfamily none = unspec
saddrfamily (some s) = family_loop 4 s

-- `~0u << (8 - (mask & 7))`, on 32 bits.
unfoldable pub mask_byte : ℕ → ℕ
mask_byte mask = (4294967295 * 2 ^ (8 - mask % 8)) % 2 ^ 32

-- The cases 8, 16, ..., 128 of the switch in `prefixeqwithmask`, by the number of whole bytes.
unfoldable pub whole_bytes : NetAddr → NetAddr → ℕ → Bool
whole_bytes addr dest n =
    if n == 16
    then (((w 0 && w 1) && w 2) && w 3)
    else (if n == 15
        then ((((w 0 && w 1) && w 2) && h 6) && b 14)
        else (if n == 14
            then (((w 0 && w 1) && w 2) && h 6)
            else (if n == 13
                then (((w 0 && w 1) && w 2) && b 12)
                else (if n == 12
                    then ((w 0 && w 1) && w 2)
                    else (if n == 11
                        then (((w 0 && w 1) && h 4) && b 10)
                        else (if n == 10
                            then ((w 0 && w 1) && h 4)
                            else (if n == 9
                                then ((w 0 && w 1) && b 8)
                                else (if n == 8
                                    then (w 0 && w 1)
                                    else (if n == 7
                                        then ((w 0 && h 2) && (byte_at addr 6 == byte_at addr 6))
                                        else (if n == 6
                                            then (w 0 && h 2)
                                            else (if n == 5
                                                then (w 0 && b 4)
                                                else (if n == 4
                                                    then w 0
                                                    else (if n == 3
                                                        then (h 0 && b 2)
                                                        else (if n == 2
                                                            then h 0
                                                            else (if n == 1
                                                            then b 0
                                                            else true)))))))))))))))
  where
    w : ℕ → Bool
    w i = u32_at addr i == u32_at dest i

    h : ℕ → Bool
    h i = u16_at addr i == u16_at dest i

    b : ℕ → Bool
    b i = byte_at addr i == byte_at dest i

-- `(addr->bytes[n] & m) == (dest->bytes[n] & m)`
unfoldable pub masked_byte_eq : NetAddr → NetAddr → ℕ → ℕ → Bool
masked_byte_eq addr dest mask n =
    bit_and (byte_at addr n) (mask_byte mask) == bit_and (byte_at dest n) (mask_byte mask)

-- `prefixeqwithmask`: the cases 8n + 1 to 8n + 7 compare byte n under the mask and fall through to
-- case 8n. `none` is the `unreachable()` of the default.
unfoldable pub prefixeqwithmask : NetAddr → NetAddr → ℕ → Option Bool
unfolding whole_bytes masked_byte_eq
prefixeqwithmask addr dest mask =
    if ltb 128 mask
    then none
    else (if mask % 8 == 0
        then some (whole_bytes addr dest (mask / 8))
        else (if masked_byte_eq addr dest mask (mask / 8)
            then some (whole_bytes addr dest (mask / 8))
            else some false))

-- `prefixeq`
unfoldable pub prefixeq : NetAddr → NetAddr → Option Bool
unfolding prefixeqwithmask
prefixeq a b =
    if family_eq a.family b.family
    then (if a.bitlen == b.bitlen then prefixeqwithmask a b a.bitlen else some false)
    else some false

-- `memcmp(a, b, n) == 0`
unfoldable pub memcmp_eq : List ℕ → List ℕ → ℕ → Bool
memcmp_eq a b zero = true
memcmp_eq a b (suc n) = memcmp_eq a b n && (get_or a n 0 == get_or b n 0)

-- `naddreq`
unfoldable pub naddreq : NetAddr → NetAddr → Bool
unfolding memcmp_eq
naddreq a b =
    if family_eq a.family b.family
    then elim a.family [
      | inet ↦ memcmp_eq a.bytes b.bytes 4
      | inet6 ↦ memcmp_eq a.bytes b.bytes 16
      | unspec ↦ true
    ]
    else false

-- `patcompwithmask` of src/patriciatrie.c
unfoldable pub patcompwithmask : NetAddr → NetAddr → ℕ → Bool
unfolding memcmp_eq masked_byte_eq
patcompwithmask addr dest mask =
    memcmp_eq addr.bytes dest.bytes (mask / 8)
    && (mask % 8 == 0 || masked_byte_eq addr dest mask (mask / 8))
