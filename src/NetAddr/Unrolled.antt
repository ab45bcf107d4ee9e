-- ===== src/NetAddr/Unrolled.antt =====
-- The unrolled comparison `prefixeqwithmask` against the bit strings of the addresses.
use isocore.Base.{
  ℕ, zero, suc, ◌+◌, ◌*◌, ◌/◌, ◌≤◌, ◌<◌, ◌≡◌, ◌≢◌, ◌↔◌, ◌⊎◌, refl, arith, Bool, true, ◌&&◌, ◌==◌,
  List, [], ◌∷◌, some, take, get_or, set, ap,
}
use isocore.NetAddr.{
  NetAddr, byte_at, u16_at, u32_at, whole_bytes, prefixeqwithmask, memcmp_eq, patcompwithmask,
}
use isocore.NetAddr.Bits.{bits}
use isocore.NetAddr.Compare.{IsAddr, byte_lt, &&_assoc, patcompwithmask_lem}

u16_eq :
    (a b : NetAddr) (i : ℕ)
    → IsAddr a
    → IsAddr b
    → (u16_at a i == u16_at b i) ≡ (
        (byte_at a (2 * i) == byte_at b (2 * i))
        && (byte_at a (2 * i + 1) == byte_at b (2 * i + 1)))
unfolding u16_at
u16_eq a b i ha hb = ground (
  arith,
  byte_lt a.bytes (2 * i) ha.octets,
  byte_lt a.bytes (2 * i + 1) ha.octets,
  byte_lt b.bytes (2 * i) hb.octets,
  byte_lt b.bytes (2 * i + 1) hb.octets,
)

u32_eq :
    (a b : NetAddr) (i : ℕ)
    → IsAddr a
    → IsAddr b
    → (u32_at a i == u32_at b i) ≡ (
        (((byte_at a (4 * i) == byte_at b (4 * i))
            && (byte_at a (4 * i + 1) == byte_at b (4 * i + 1)))
          && (byte_at a (4 * i + 2) == byte_at b (4 * i + 2)))
        && (byte_at a (4 * i + 3) == byte_at b (4 * i + 3)))
unfolding u32_at
u32_eq a b i ha hb = ground (
  arith,
  byte_lt a.bytes (4 * i) ha.octets,
  byte_lt a.bytes (4 * i + 1) ha.octets,
  byte_lt a.bytes (4 * i + 2) ha.octets,
  byte_lt a.bytes (4 * i + 3) ha.octets,
  byte_lt b.bytes (4 * i) hb.octets,
  byte_lt b.bytes (4 * i + 1) hb.octets,
  byte_lt b.bytes (4 * i + 2) hb.octets,
  byte_lt b.bytes (4 * i + 3) hb.octets,
)

whole_bytes_lem :
    (a b : NetAddr) (n : ℕ)
    → IsAddr a
    → IsAddr b
    → n ≤ 16
    → n ≢ 7
    → whole_bytes a b n ≡ memcmp_eq a.bytes b.bytes n
unfolding whole_bytes memcmp_eq
whole_bytes_lem a b zero ha hb h ne = refl
whole_bytes_lem a b (suc zero) ha hb h ne = refl
whole_bytes_lem a b (suc (suc zero)) ha hb h ne =
    simp (u32_eq _ _ _ ha hb, u16_eq _ _ _ ha hb, &&_assoc)
whole_bytes_lem a b (suc (suc (suc zero))) ha hb h ne =
    simp (u32_eq _ _ _ ha hb, u16_eq _ _ _ ha hb, &&_assoc)
whole_bytes_lem a b (suc (suc (suc (suc zero)))) ha hb h ne =
    simp (u32_eq _ _ _ ha hb, u16_eq _ _ _ ha hb, &&_assoc)
whole_bytes_lem a b (suc (suc (suc (suc (suc zero))))) ha hb h ne =
    simp (u32_eq _ _ _ ha hb, u16_eq _ _ _ ha hb, &&_assoc)
whole_bytes_lem a b (suc (suc (suc (suc (suc (suc zero)))))) ha hb h ne =
    simp (u32_eq _ _ _ ha hb, u16_eq _ _ _ ha hb, &&_assoc)
whole_bytes_lem a b (suc (suc (suc (suc (suc (suc (suc zero))))))) ha hb h ne = absurd (ne refl)
whole_bytes_lem a b (suc (suc (suc (suc (suc (suc (suc (suc zero)))))))) ha hb h ne =
    simp (u32_eq _ _ _ ha hb, u16_eq _ _ _ ha hb, &&_assoc)
whole_bytes_lem a b (suc (suc (suc (suc (suc (suc (suc (suc (suc zero))))))))) ha hb h ne =
    simp (u32_eq _ _ _ ha hb, u16_eq _ _ _ ha hb, &&_assoc)
whole_bytes_lem a b (suc (suc (suc (suc (suc (suc (suc (suc (suc (suc zero)))))))))) ha hb h ne =
    simp (u32_eq _ _ _ ha hb, u16_eq _ _ _ ha hb, &&_assoc)
whole_bytes_lem a b (suc (suc (suc (suc (suc (suc (suc (suc (suc (suc (suc zero))))))))))) ha hb h
      ne =
    simp (u32_eq _ _ _ ha hb, u16_eq _ _ _ ha hb, &&_assoc)
whole_bytes_lem a b (suc (suc (suc (suc (suc (suc (suc (suc (suc (suc (suc (suc zero)))))))))))) ha
      hb h ne =
    simp (u32_eq _ _ _ ha hb, u16_eq _ _ _ ha hb, &&_assoc)
whole_bytes_lem a b
      (suc (suc (suc (suc (suc (suc (suc (suc (suc (suc (suc (suc (suc zero))))))))))))) ha hb h
      ne =
    simp (u32_eq _ _ _ ha hb, u16_eq _ _ _ ha hb, &&_assoc)
whole_bytes_lem a b
      (suc (suc (suc (suc (suc (suc (suc (suc (suc (suc (suc (suc (suc (suc zero)))))))))))))) ha hb
      h ne =
    simp (u32_eq _ _ _ ha hb, u16_eq _ _ _ ha hb, &&_assoc)
whole_bytes_lem a b
      (suc (suc (suc (suc (suc (suc (suc (suc (suc (suc (suc (suc (suc (suc (suc zero)))))))))))))))
      ha hb h ne =
    simp (u32_eq _ _ _ ha hb, u16_eq _ _ _ ha hb, &&_assoc)
whole_bytes_lem a b
      (suc (
        suc
          (suc (suc (suc (suc (suc (suc (suc (suc (suc (suc (suc (suc (suc (suc zero))))))))))))))))
      ha hb h ne =
    simp (u32_eq _ _ _ ha hb, u16_eq _ _ _ ha hb, &&_assoc)
whole_bytes_lem a b
      (suc (
        suc (
          suc
            (suc (suc (suc (suc (suc (suc (suc (suc (suc (suc (suc (suc (suc (suc n)))))))))))))))))
      ha hb h ne =
    absurd (omega arith)

-- On addresses of 16 bytes, for every mask up to 128 outside 56 to 63, `prefixeqwithmask` returns, and decides whether the two
-- addresses agree on their leading `mask` bits.
pub prefixeqwithmask_lem :
    (a b : NetAddr) (mask : ℕ)
    → IsAddr a
    → IsAddr b
    → mask ≤ 128
    → (mask < 56) ⊎ (63 < mask)
    → (r : Bool) × (prefixeqwithmask a b mask ≡ some r)
      × ((r ≡ true) ↔ (take mask (bits a.bytes) ≡ take mask (bits b.bytes)))
prefixeqwithmask_lem a b mask ha hb h out =
    (patcompwithmask a b mask, same, patcompwithmask_lem a b mask ha hb h)
  where
    same : prefixeqwithmask a b mask ≡ some (patcompwithmask a b mask)
    same =
        unfold prefixeqwithmask patcompwithmask in
        ground (arith, whole_bytes_lem a b (mask / 8) ha hb)

get_or-set_ne : (xs : List ℕ) (i j v : ℕ) → i ≢ j → get_or (set xs i v) j 0 ≡ get_or xs j 0
get_or-set_ne [] i j v h = refl
get_or-set_ne (x ∷ xs) zero zero v h = absurd (h refl)
get_or-set_ne (x ∷ xs) zero (suc j) v h = refl
get_or-set_ne (x ∷ xs) (suc i) zero v h = refl
get_or-set_ne (x ∷ xs) (suc i) (suc j) v h = get_or-set_ne xs i j v (λ e. h (ap suc e))

-- For the masks 56 to 63 the seventh byte of the second address is never read: whatever it holds,
-- `prefixeqwithmask` answers the same.
pub prefixeqwithmask-skips_byte :
    (a b : NetAddr) (mask v : ℕ)
    → 56 ≤ mask
    → mask < 64
    → prefixeqwithmask a (record b { bytes = set b.bytes 6 v }) mask ≡ prefixeqwithmask a b mask
unfolding prefixeqwithmask u16_at u32_at
prefixeqwithmask-skips_byte a b mask v lo hi =
    let e : mask / 8 ≡ 7 = omega arith in
    rw e (
      simp (
        get_or-set_ne b.bytes 6 0 v (omega arith),
        get_or-set_ne b.bytes 6 1 v (omega arith),
        get_or-set_ne b.bytes 6 2 v (omega arith),
        get_or-set_ne b.bytes 6 3 v (omega arith),
        get_or-set_ne b.bytes 6 4 v (omega arith),
        get_or-set_ne b.bytes 6 5 v (omega arith),
        get_or-set_ne b.bytes 6 7 v (omega arith),
      ))
