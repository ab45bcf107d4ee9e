-- ===== src/NetAddr/Reserved.antt =====
-- `isnaddrreserved` of src/netaddr.c, against the table of reserved blocks that it encodes.
use isocore.Base.{
  ℕ, ◌+◌, ◌-◌, ◌*◌, ◌/◌, ◌^◌, ◌<◌, ◌≡◌, ◌≢◌, refl, arith, Bool, true, false, not, ◌&&◌, ◌||◌, ◌==◌,
  ltb, leb, if◌then◌else◌, List, [], ◌∷◌,
}
use isocore.NetAddr.{NetAddr, inet6, family_eq, byte_at}
use isocore.NetAddr.Compare.{IsAddr, byte_lt}

-- `frombig16(ip->u16[i])`
abbrev big16_at : NetAddr → ℕ → ℕ
big16_at ip i = byte_at ip (2 * i) * 256 + byte_at ip (2 * i + 1)

-- The branch for `AF_INET6`, on the two leading 16-bit groups.
reserved6 : ℕ → ℕ → Bool
reserved6 a b =
    ltb a 8192
    || ltb 16383 a
    || (a == 8193 && leb b 511)
    || (a == 8193 && b == 3512)
    || (a == 8193 && leb 16 b && leb b 31)
    || a == 8194

-- The other branch, on the three leading bytes.
reserved4 : ℕ → ℕ → ℕ → Bool
reserved4 a b c =
    (a == 10 || a == 127 || leb 224 a)
    || (a == 100 && leb 64 b && leb b 127)
    || (a == 169 && b == 254)
    || (a == 172 && leb 16 b && leb b 31)
    || (a == 192 && b == 0 && c == 2)
    || (a == 192 && b == 88 && c == 99)
    || (a == 192 && b == 0 && c == 0)
    || (a == 198 && (b == 18 || b == 19))
    || (a == 198 && b == 51 && c == 100)
    || (a == 203 && b == 0 && c == 113)

-- `isnaddrreserved`
pub isnaddrreserved : NetAddr → Bool
unfolding reserved4 reserved6
isnaddrreserved ip =
    if family_eq ip.family inet6
    then (if ip.bitlen == 0 then true else reserved6 (big16_at ip 0) (big16_at ip 1))
    else (if ip.bitlen == 0 then true else reserved4 (byte_at ip 0) (byte_at ip 1) (byte_at ip 2))

-- The leading 32 bits of an address, as a number.
abbrev pub head32 : NetAddr → ℕ
head32 ip = byte_at ip 0 * 16777216 + byte_at ip 1 * 65536 + byte_at ip 2 * 256 + byte_at ip 3

-- A block of addresses: its leading 32 bits and its prefix length (32 at most).
abbrev pub Block : Type 0
Block = ℕ × ℕ

abbrev pub block : ℕ → ℕ → ℕ → ℕ → ℕ → Block
block a b c d len = (a * 16777216 + b * 65536 + c * 256 + d, len)

-- The address lies in one of the blocks.
abbrev pub in_blocks : ℕ → List Block → Bool
in_blocks v [] = false
in_blocks v ((p, len) ∷ bs) = v / 2 ^ (32 - len) == p / 2 ^ (32 - len) || in_blocks v bs

-- 10/8, 127/8, 224/3, 100.64/10, 169.254/16, 172.16/12, 192.0.2/24, 192.88.99/24, 192.0.0/24,
-- 198.18/15, 198.51.100/24, 203.0.113/24
abbrev pub blocks4 : List Block
blocks4 =
    block 10 0 0 0 8
    ∷ block 127 0 0 0 8
    ∷ block 224 0 0 0 3
    ∷ block 100 64 0 0 10
    ∷ block 169 254 0 0 16
    ∷ block 172 16 0 0 12
    ∷ block 192 0 2 0 24
    ∷ block 192 88 99 0 24
    ∷ block 192 0 0 0 24
    ∷ block 198 18 0 0 15
    ∷ block 198 51 100 0 24
    ∷ block 203 0 113 0 24
    ∷ []

-- 2000::/3, outside of which all is reserved
abbrev pub routable6 : List Block
routable6 = block 0x20 0 0 0 3 ∷ []

-- 2001::/23, 2001:db8::/32, 2001:10::/28, 2002::/16
abbrev pub blocks6 : List Block
blocks6 =
    block 0x20 1 0 0 23
    ∷ block 0x20 1 0x0d 0xb8 32
    ∷ block 0x20 1 0 0x10 28
    ∷ block 0x20 2 0 0 16
    ∷ []

abbrev pub reserved_block : NetAddr → Bool
reserved_block ip =
    if family_eq ip.family inet6
    then (not (in_blocks (head32 ip) routable6) || in_blocks (head32 ip) blocks6)
    else in_blocks (head32 ip) blocks4

||_assoc : (x y z : Bool) → ((x || y) || z) ≡ (x || (y || z))
||_assoc true y z = refl
||_assoc false y z = refl

||-false : (x : Bool) → (x || false) ≡ x
||-false true = refl
||-false false = refl

not-not : (x : Bool) → not (not x) ≡ x
not-not true = refl
not-not false = refl

module _ (a b c d : ℕ) (ha : a < 256) (hb : b < 256) (hc : c < 256) (hd : d < 256) where
  abbrev v : ℕ
  v = a * 16777216 + b * 65536 + c * 256 + d

  in_10_0_0_0_8 : (v / 2 ^ 24 == 10) ≡ (a == 10)
  in_10_0_0_0_8 = ground arith

  in_127_0_0_0_8 : (v / 2 ^ 24 == 127) ≡ (a == 127)
  in_127_0_0_0_8 = ground arith

  in_224_0_0_0_3 : (v / 2 ^ 29 == 7) ≡ (leb 224 a)
  in_224_0_0_0_3 = ground arith

  in_100_64_0_0_10 : (v / 2 ^ 22 == 401) ≡ (a == 100 && leb 64 b && leb b 127)
  in_100_64_0_0_10 = ground arith

  in_169_254_0_0_16 : (v / 2 ^ 16 == 43518) ≡ (a == 169 && b == 254)
  in_169_254_0_0_16 = ground arith

  in_172_16_0_0_12 : (v / 2 ^ 20 == 2753) ≡ (a == 172 && leb 16 b && leb b 31)
  in_172_16_0_0_12 = ground arith

  in_192_0_2_0_24 : (v / 2 ^ 8 == 12582914) ≡ (a == 192 && b == 0 && c == 2)
  in_192_0_2_0_24 = ground arith

  in_192_88_99_0_24 : (v / 2 ^ 8 == 12605539) ≡ (a == 192 && b == 88 && c == 99)
  in_192_88_99_0_24 = ground arith

  in_192_0_0_0_24 : (v / 2 ^ 8 == 12582912) ≡ (a == 192 && b == 0 && c == 0)
  in_192_0_0_0_24 = ground arith

  in_198_18_0_0_15 : (v / 2 ^ 17 == 25353) ≡ (a == 198 && (b == 18 || b == 19))
  in_198_18_0_0_15 = ground arith

  in_198_51_100_0_24 : (v / 2 ^ 8 == 12989284) ≡ (a == 198 && b == 51 && c == 100)
  in_198_51_100_0_24 = ground arith

  in_203_0_113_0_24 : (v / 2 ^ 8 == 13303921) ≡ (a == 203 && b == 0 && c == 113)
  in_203_0_113_0_24 = ground arith

  in_32_0_0_0_3 : (v / 2 ^ 29 == 1) ≡ (not (ltb (a * 256 + b) 8192 || ltb 16383 (a * 256 + b)))
  in_32_0_0_0_3 = ground arith

  in_32_1_0_0_23 : (v / 2 ^ 9 == 1048704) ≡ ((a * 256 + b) == 8193 && leb (c * 256 + d) 511)
  in_32_1_0_0_23 = ground arith

  in_32_1_13_184_32 : (v / 2 ^ 0 == 536939960) ≡ ((a * 256 + b) == 8193 && (c * 256 + d) == 3512)
  in_32_1_13_184_32 = ground arith

  in_32_1_0_16_28 :
      (v / 2 ^ 4 == 33558529)
      ≡ ((a * 256 + b) == 8193 && leb 16 (c * 256 + d) && leb (c * 256 + d) 31)
  in_32_1_0_16_28 = ground arith

  in_32_2_0_0_16 : (v / 2 ^ 16 == 8194) ≡ ((a * 256 + b) == 8194)
  in_32_2_0_0_16 = ground arith

  reserved4_lem : reserved4 a b c ≡ in_blocks v blocks4
  unfolding reserved4
  reserved4_lem = simp (
    ||_assoc, ||-false, in_10_0_0_0_8, in_127_0_0_0_8, in_224_0_0_0_3, in_100_64_0_0_10,
    in_169_254_0_0_16, in_172_16_0_0_12, in_192_0_2_0_24, in_192_88_99_0_24, in_192_0_0_0_24,
    in_198_18_0_0_15, in_198_51_100_0_24, in_203_0_113_0_24,
  )

  reserved6_lem :
      reserved6 (a * 256 + b) (c * 256 + d) ≡ (not (in_blocks v routable6) || in_blocks v blocks6)
  unfolding reserved6
  reserved6_lem = simp (
    ||_assoc, ||-false, not-not, in_32_0_0_0_3, in_32_1_0_0_23, in_32_1_13_184_32, in_32_1_0_16_28,
    in_32_2_0_0_16,
  )

-- For a well-formed address of either family and a prefix length that is not 0, `isnaddrreserved`
-- says that the address is reserved exactly when it lies in one of the blocks of the table.
pub isnaddrreserved_lem :
    (ip : NetAddr) → IsAddr ip → ip.bitlen ≢ 0 → isnaddrreserved ip ≡ reserved_block ip
unfolding isnaddrreserved
isnaddrreserved_lem ip h ne = ground (
  arith,
  reserved4_lem (byte_at ip 0) (byte_at ip 1) (byte_at ip 2) (byte_at ip 3)
      (byte_lt ip.bytes 0 h.octets) (byte_lt ip.bytes 1 h.octets) (byte_lt ip.bytes 2 h.octets)
      (byte_lt ip.bytes 3 h.octets),
  reserved6_lem (byte_at ip 0) (byte_at ip 1) (byte_at ip 2) (byte_at ip 3)
      (byte_lt ip.bytes 0 h.octets) (byte_lt ip.bytes 1 h.octets) (byte_lt ip.bytes 2 h.octets)
      (byte_lt ip.bytes 3 h.octets),
)
