-- ===== src/NetAddr/Compare.antt =====
-- `patcompwithmask` against the bit strings of the addresses.
use isocore.Base.{
  ℕ, zero, suc, ◌+◌, ◌-◌, ◌*◌, ◌/◌, ◌%◌, ◌^◌, ◌≤◌, ◌<◌, ◌≡◌, ◌↔◌, refl, arith, Bool, true, false,
  ◌&&◌, ◌==◌, ==_iff, List, [], ◌∷◌, take, length, get_or,
}
use isocore.NetAddr.{NetAddr, byte_at, mask_byte, masked_byte_eq, memcmp_eq, patcompwithmask}
use native.Mathlib.Nat.{one-le-pow}
use isocore.NetAddr.Bits.{bits, IsBytes, Leading, Leading-bits, bit_and-mask_byte}

-- A well-formed address: 16 bytes.
pub record IsAddr (a : NetAddr) : Type 0 where
  pub sixteen : length a.bytes ≡ 16
  pub octets : IsBytes a.bytes

pub byte_lt : (xs : List ℕ) (i : ℕ) → IsBytes xs → get_or xs i 0 < 256
byte_lt [] i h = omega arith
byte_lt (x ∷ xs) zero h = h.0
byte_lt (x ∷ xs) (suc i) h = byte_lt xs i h.1

pub &&_assoc : (a b c : Bool) → ((a && b) && c) ≡ (a && (b && c))
&&_assoc true b c = refl
&&_assoc false b c = refl

true-&& : (a : Bool) → (true && a) ≡ a
true-&& a = refl

memcmp_eq-cons :
    (x y : ℕ) (xs ys : List ℕ) (n : ℕ)
    → memcmp_eq (x ∷ xs) (y ∷ ys) (suc n) ≡ ((x == y) && memcmp_eq xs ys n)
unfolding memcmp_eq
memcmp_eq-cons x y xs ys zero = ground arith
memcmp_eq-cons x y xs ys (suc n) =
    rw (memcmp_eq-cons x y xs ys n)
      (&&_assoc (x == y) (memcmp_eq xs ys n) (get_or xs n 0 == get_or ys n 0))

-- Agreement on leading bytes and bits, by index.
memcmp_eq-Leading :
    (n r : ℕ) (xs ys : List ℕ)
    → length xs ≡ length ys
    → n ≤ length xs
    → Leading n r xs ys
      ↔ ((memcmp_eq xs ys n ≡ true) × (get_or xs n 0 / 2 ^ (8 - r) ≡ get_or ys n 0 / 2 ^ (8 - r)))
unfolding memcmp_eq
memcmp_eq-Leading n r [] (y ∷ ys) e h = absurd (omega arith)
memcmp_eq-Leading n r (x ∷ xs) [] e h = absurd (omega arith)
memcmp_eq-Leading zero r [] [] e h = (λ _. (refl, refl), λ _. tt)
memcmp_eq-Leading (suc n) r [] [] e h = absurd (omega arith)
memcmp_eq-Leading zero r (x ∷ xs) (y ∷ ys) e h = (λ p. (refl, p), λ p. p.1)
memcmp_eq-Leading (suc n) r (x ∷ xs) (y ∷ ys) e h =
    ground (arith, memcmp_eq-cons x y xs ys n, memcmp_eq-Leading n r xs ys)

mask_byte_mod : (mask : ℕ) → mask_byte mask ≡ mask_byte (mask % 8)
unfolding mask_byte
mask_byte_mod mask = let e : mask % 8 % 8 ≡ mask % 8 = omega arith in rw e

mul_iff : (u v p : ℕ) → 0 < p → ((u * p == v * p) ≡ true) ↔ (u ≡ v)
mul_iff u v p h = (λ e. grind arith, λ e. rw e ((==_iff _ _).1 refl))

-- The bytes under the mask agree exactly when their leading bits do.
masked_byte_eq_iff :
    (a b : NetAddr) (mask n : ℕ)
    → IsAddr a
    → IsAddr b
    → (masked_byte_eq a b mask n ≡ true)
      ↔ (byte_at a n / 2 ^ (8 - mask % 8) ≡ byte_at b n / 2 ^ (8 - mask % 8))
unfolding masked_byte_eq
masked_byte_eq_iff a b mask n ha hb =
    rw
      (
        mask_byte_mod mask,
        bit_and-mask_byte (byte_at a n) (mask % 8) (byte_lt a.bytes n ha.octets) (omega arith),
        bit_and-mask_byte (byte_at b n) (mask % 8) (byte_lt b.bytes n hb.octets) (omega arith),
      )
      (mul_iff _ _ _ (one-le-pow (8 - mask % 8) 2 (omega arith)))

-- On addresses of 16 bytes, for every mask up to 128, `patcompwithmask` returns true exactly when the
-- leading `mask` bits of the two agree.
pub patcompwithmask_lem :
    (a b : NetAddr) (mask : ℕ)
    → IsAddr a
    → IsAddr b
    → mask ≤ 128
    → (patcompwithmask a b mask ≡ true) ↔ (take mask (bits a.bytes) ≡ take mask (bits b.bytes))
unfolding patcompwithmask
patcompwithmask_lem a b mask ha hb h = ground (
  arith,
  split,
  Leading-bits (mask / 8) (mask % 8) a.bytes b.bytes ha.octets hb.octets,
  memcmp_eq-Leading (mask / 8) (mask % 8) a.bytes b.bytes,
  masked_byte_eq_iff a b mask (mask / 8) ha hb,
  byte_lt a.bytes (mask / 8) ha.octets,
  byte_lt b.bytes (mask / 8) hb.octets,
)
  where
    split : mask ≡ mask / 8 * 8 + mask % 8
    split = omega arith
