-- ===== src/Patricia/BitOf.antt =====
-- The bit that chooses a child, in the string of the bits of a prefix.
use isocore.Base.{
  ℕ, zero, suc, ◌+◌, ◌*◌, ◌/◌, ◌%◌, ◌^◌, ◌≤◌, ◌<◌, ◌≡◌, refl, sym, ap, ◌∙◌, arith, bit_and, Bool,
  true, false, not, ◌==◌, List, [], ◌∷◌, ◌++◌, take, length, get_or,
}
use isocore.NetAddr.{NetAddr, byte_at}
use isocore.NetAddr.Bits.{bits, byte_bits, up_to, up_to_lem}
use isocore.NetAddr.Compare.{IsAddr, byte_lt}
use isocore.Patricia.{bit_of}

abbrev same_bool : Bool → Bool → Bool
same_bool true b = b
same_bool false b = not b

same_bool-eq : (a b : Bool) → same_bool a b ≡ true → a ≡ b
same_bool-eq true b h = sym h
same_bool-eq false true h = cc
same_bool-eq false false h = refl

abbrev agrees : ℕ → ℕ → Bool
agrees j x = same_bool (not (bit_and x (128 / 2 ^ j) == 0)) (get_or (byte_bits x) j 0 == 1)

every_bit : up_to (λ j. up_to (agrees j) 255) 7 ≡ true
unfolding up_to
every_bit = refl

bit_of_byte :
    (x j : ℕ)
    → x < 256
    → j < 8
    → not (bit_and x (128 / 2 ^ j) == 0) ≡ (get_or (byte_bits x) j 0 == 1)
bit_of_byte x j hx hj = same_bool-eq _ _ (
    up_to_lem (agrees j) 255 x (omega arith)
      (up_to_lem (λ k. up_to (agrees k) 255) 7 j (omega arith) every_bit))

get_or-append_lt : (j : ℕ) (xs ys : List ℕ) → j < length xs → get_or (xs ++ ys) j 0 ≡ get_or xs j 0
get_or-append_lt j [] ys h = absurd (omega arith)
get_or-append_lt zero (x ∷ xs) ys h = refl
get_or-append_lt (suc j) (x ∷ xs) ys h = get_or-append_lt j xs ys (omega arith)

get_or-bits :
    (n j : ℕ) (xs : List ℕ)
    → n < length xs
    → j < 8
    → get_or (bits xs) (n * 8 + j) 0 ≡ get_or (byte_bits (get_or xs n 0)) j 0
get_or-bits n j [] h hj = absurd (omega arith)
get_or-bits zero j (x ∷ xs) h hj =
    ap (λ i. get_or (bits (x ∷ xs)) i 0) first ∙ get_or-append_lt j (byte_bits x) (bits xs) hj
  where
    first : 0 * 8 + j ≡ j
    first = omega arith
get_or-bits (suc n) j (x ∷ xs) h hj =
    ap (λ i. get_or (bits (x ∷ xs)) i 0) shift ∙ get_or-bits n j xs (omega arith) hj
  where
    shift : suc n * 8 + j ≡ suc (suc (suc (suc (suc (suc (suc (suc (n * 8 + j))))))))
    shift = omega arith

-- The test is the bit at that place of the string.
pub bit_of_lem :
    (p : NetAddr) (k : ℕ) → IsAddr p → k < 128 → bit_of p k ≡ (get_or (bits p.bytes) k 0 == 1)
unfolding bit_of
bit_of_lem p k h lt =
    bit_of_byte (byte_at p (k / 8)) (k % 8) (byte_lt p.bytes (k / 8) h.octets) (omega arith)
    ∙ ap (λ b. b == 1)
        (sym (get_or-bits (k / 8) (k % 8) p.bytes (omega (arith, h.sixteen)) (omega arith)))
    ∙ ap (λ j. get_or (bits p.bytes) j 0 == 1) split
  where
    split : k / 8 * 8 + k % 8 ≡ k
    split = omega arith

get_or-take : (n m : ℕ) (xs : List ℕ) → n < m → get_or (take m xs) n 0 ≡ get_or xs n 0
get_or-take n zero xs h = absurd (omega arith)
get_or-take n (suc m) [] h = refl
get_or-take zero (suc m) (x ∷ xs) h = refl
get_or-take (suc n) (suc m) (x ∷ xs) h = get_or-take n m xs (omega arith)

-- Prefixes that agree on their leading bits choose the same child below.
pub bit_of-take :
    (a b : NetAddr) (n m : ℕ)
    → IsAddr a
    → IsAddr b
    → n < m
    → m ≤ 128
    → take m (bits a.bytes) ≡ take m (bits b.bytes)
    → bit_of a n ≡ bit_of b n
bit_of-take a b n m ha hb lt le e =
    bit_of_lem a n ha (omega arith)
    ∙ ap (λ x. x == 1)
        (sym (get_or-take n m (bits a.bytes) lt)
          ∙ ap (λ xs. get_or xs n 0) e
          ∙ get_or-take n m (bits b.bytes) lt)
    ∙ sym (bit_of_lem b n hb (omega arith))
