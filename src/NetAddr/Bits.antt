-- ===== src/NetAddr/Bits.antt =====
-- An address as the string of its bits, the specification of the comparisons under a mask.
use isocore.Base.{
  ℕ, zero, suc, ◌+◌, ◌-◌, ◌*◌, ◌/◌, ◌%◌, ◌^◌, ◌≤◌, ◌<◌, ◌≡◌, ◌↔◌, refl, arith, bit_and, Bool, true,
  ◌&&◌, ◌==◌, ==_iff, List, [], ◌∷◌, ◌++◌, take, length,
}
use isocore.Base.Bytes.{take-append_le}
use isocore.NetAddr.{mask_byte}

-- The eight bits of a byte, the most significant first.
abbrev pub byte_bits : ℕ → List ℕ
byte_bits x =
    (x / 128 % 2)
    ∷ (x / 64 % 2)
    ∷ (x / 32 % 2)
    ∷ (x / 16 % 2)
    ∷ (x / 8 % 2)
    ∷ (x / 4 % 2)
    ∷ (x / 2 % 2)
    ∷ (x % 2)
    ∷ []

-- The bits of a run of bytes.
abbrev pub bits : List ℕ → List ℕ
bits [] = []
bits (x ∷ xs) = byte_bits x ++ bits xs

-- The test holds of every number up to a bound.
unfoldable pub up_to : (ℕ → Bool) → ℕ → Bool
up_to test zero = test 0
up_to test (suc bound) = up_to test bound && test (suc bound)

pub up_to_lem :
    (test : ℕ → Bool) (bound i : ℕ) → i ≤ bound → up_to test bound ≡ true → test i ≡ true
unfolding up_to
up_to_lem test zero zero le e = e
up_to_lem test zero (suc i) le e = absurd (omega arith)
up_to_lem test (suc bound) i le e = ground (arith, up_to_lem test bound i)

abbrev keeps_leading : ℕ → ℕ → Bool
keeps_leading r x = bit_and x (mask_byte r) == x / 2 ^ (8 - r) * 2 ^ (8 - r)

every_mask : up_to (λ r. up_to (keeps_leading r) 255) 7 ≡ true
unfolding up_to mask_byte
every_mask = refl

-- The mask keeps the leading bits of a byte.
pub bit_and-mask_byte :
    (x r : ℕ) → x < 256 → r < 8 → bit_and x (mask_byte r) ≡ x / 2 ^ (8 - r) * 2 ^ (8 - r)
bit_and-mask_byte x r hx hr = (==_iff _ _).0 (
    up_to_lem (keeps_leading r) 255 x (omega arith)
      (up_to_lem (λ k. up_to (keeps_leading k) 255) 7 r (omega arith) every_mask))

-- The leading `r` bits of a byte are its quotient by `2 ^ (8 - r)`.
pub byte_bits_iff :
    (x y r : ℕ)
    → x < 256
    → y < 256
    → r < 8
    → (take r (byte_bits x) ≡ take r (byte_bits y)) ↔ (x / 2 ^ (8 - r) ≡ y / 2 ^ (8 - r))
byte_bits_iff x y zero hx hy hr = (λ e. ground arith, λ e. ground arith)
byte_bits_iff x y (suc zero) hx hy hr = (λ e. ground arith, λ e. ground arith)
byte_bits_iff x y (suc (suc zero)) hx hy hr = (λ e. ground arith, λ e. ground arith)
byte_bits_iff x y (suc (suc (suc zero))) hx hy hr = (λ e. ground arith, λ e. ground arith)
byte_bits_iff x y (suc (suc (suc (suc zero)))) hx hy hr = (λ e. ground arith, λ e. ground arith)
byte_bits_iff x y (suc (suc (suc (suc (suc zero))))) hx hy hr =
    (λ e. ground arith, λ e. ground arith)
byte_bits_iff x y (suc (suc (suc (suc (suc (suc zero)))))) hx hy hr =
    (λ e. ground arith, λ e. ground arith)
byte_bits_iff x y (suc (suc (suc (suc (suc (suc (suc zero))))))) hx hy hr =
    (λ e. ground arith, λ e. ground arith)
byte_bits_iff x y (suc (suc (suc (suc (suc (suc (suc (suc r)))))))) hx hy hr = absurd (omega arith)

-- Every element is a byte.
abbrev pub IsBytes : List ℕ → Type 0
IsBytes [] = Unit
IsBytes (x ∷ xs) = (x < 256) × IsBytes xs

-- Two runs of bytes agree on `n` bytes and on the leading `r` bits of the next.
abbrev pub Leading : ℕ → ℕ → List ℕ → List ℕ → Type 0
Leading zero r (x ∷ xs) (y ∷ ys) = x / 2 ^ (8 - r) ≡ y / 2 ^ (8 - r)
Leading (suc n) r (x ∷ xs) (y ∷ ys) = (x ≡ y) × Leading n r xs ys
Leading _ _ _ _ = Unit

take-nil : (n : ℕ) → take {A = ℕ} n [] ≡ []
take-nil zero = refl
take-nil (suc n) = refl

Leading-cons {ℓ} :
    {P : Type ℓ} (x y : ℕ) (us vs : List ℕ)
    → x < 256
    → y < 256
    → (us ≡ vs) ↔ P
    → (byte_bits x ++ us ≡ byte_bits y ++ vs) ↔ ((x ≡ y) × P)
Leading-cons x y us vs hx hy ih = (λ e. (ground arith, ih.0 (cc)), λ p. cc (p.0, ih.1 p.1))

pub Leading-bits :
    (n r : ℕ) (xs ys : List ℕ)
    → IsBytes xs
    → IsBytes ys
    → length xs ≡ length ys
    → r < 8
    → (take (n * 8 + r) (bits xs) ≡ take (n * 8 + r) (bits ys)) ↔ Leading n r xs ys
Leading-bits zero r [] [] bx by e hr = (λ _. tt, λ _. rw take-nil)
Leading-bits (suc n) r [] [] bx by e hr = (λ _. tt, λ _. rw take-nil)
Leading-bits n r [] (y ∷ ys) bx by e hr = absurd (omega arith)
Leading-bits n r (x ∷ xs) [] bx by e hr = absurd (omega arith)
Leading-bits zero r (x ∷ xs) (y ∷ ys) bx by e hr =
    rw (whole, cut x xs, cut y ys) (byte_bits_iff x y r bx.0 by.0 hr)
  where
    whole : 0 * 8 + r ≡ r
    whole = omega arith

    cut : (z : ℕ) (zs : List ℕ) → take r (byte_bits z ++ bits zs) ≡ take r (byte_bits z)
    cut z zs = take-append_le r (byte_bits z) (bits zs) (omega arith)
Leading-bits (suc n) r (x ∷ xs) (y ∷ ys) bx by e hr =
    rw shift (Leading-cons x y _ _ bx.0 by.0 (Leading-bits n r xs ys bx.1 by.1 (omega arith) hr))
  where
    shift : suc n * 8 + r ≡ suc (suc (suc (suc (suc (suc (suc (suc (n * 8 + r))))))))
    shift = omega arith
