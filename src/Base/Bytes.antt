-- ===== src/Base/Bytes.antt =====
-- Byte buffers: reads and writes of a run of bytes, bounds included, and big endian numbers
-- (`frombig16`, `tobig16` and their 32-bit versions of include/isolario/endian.h).
use Prim.Native.Nat.{ℕ, zero, suc, ◌+◌, ◌*◌, ◌/◌, ◌%◌, ◌≤◌, ◌<◌}
use mathlib.Core.Path.{◌≡◌, refl, ap, ◌∙◌}
use mathlib.Core.Option.{Option, none, some}
use mathlib.Core.List.{List, [], ◌∷◌, ◌++◌}
use native.Mathlib.Omega.{arith}
use isocore.Base.Tests.{leb, if◌then◌else◌}
use isocore.Base.Lists.{length, take, drop}

-- `n` bytes at offset `off`; `none` where C would read outside of the buffer.
unfoldable pub read_bytes : List ℕ → ℕ → ℕ → Option (List ℕ)
read_bytes buf off n = if leb (off + n) (length buf) then some (take n (drop off buf)) else none

-- The buffer with `bs` copied to offset `off`; `none` where C would write outside of it.
unfoldable pub write_bytes : List ℕ → ℕ → List ℕ → Option (List ℕ)
write_bytes buf off bs =
    if leb (off + length bs) (length buf)
    then some (take off buf ++ (bs ++ drop (off + length bs) buf))
    else none

module _ {ℓ} {A : Type ℓ} where
  pub take-append_le : (n : ℕ) (xs ys : List A) → n ≤ length xs → take n (xs ++ ys) ≡ take n xs
  take-append_le zero xs ys h = refl
  take-append_le (suc n) [] ys h = absurd (omega arith)
  take-append_le (suc n) (x ∷ xs) ys h = ap (◌∷◌ x) (take-append_le n xs ys (omega arith))

  pub take-append_eq : (n : ℕ) (xs ys : List A) → n ≡ length xs → take n (xs ++ ys) ≡ xs
  take-append_eq zero [] ys h = refl
  take-append_eq zero (x ∷ xs) ys h = absurd (omega arith)
  take-append_eq (suc n) [] ys h = absurd (omega arith)
  take-append_eq (suc n) (x ∷ xs) ys h = ap (◌∷◌ x) (take-append_eq n xs ys (omega arith))

  pub drop-append_eq : (n : ℕ) (xs ys : List A) → n ≡ length xs → drop n (xs ++ ys) ≡ ys
  drop-append_eq zero [] ys h = refl
  drop-append_eq zero (x ∷ xs) ys h = absurd (omega arith)
  drop-append_eq (suc n) [] ys h = absurd (omega arith)
  drop-append_eq (suc n) (x ∷ xs) ys h = drop-append_eq n xs ys (omega arith)

  pub drop-append_le :
      (n : ℕ) (xs ys : List A) → n ≤ length xs → drop n (xs ++ ys) ≡ drop n xs ++ ys
  drop-append_le zero xs ys h = refl
  drop-append_le (suc n) [] ys h = absurd (omega arith)
  drop-append_le (suc n) (x ∷ xs) ys h = drop-append_le n xs ys (omega arith)

  pub take_all : (n : ℕ) (xs : List A) → length xs ≤ n → take n xs ≡ xs
  take_all zero [] h = refl
  take_all zero (x ∷ xs) h = absurd (omega arith)
  take_all (suc n) [] h = refl
  take_all (suc n) (x ∷ xs) h = ap (◌∷◌ x) (take_all n xs (omega arith))

  pub take-take : (m n : ℕ) (xs : List A) → m ≤ n → take m (take n xs) ≡ take m xs
  take-take zero n xs h = refl
  take-take (suc m) zero xs h = absurd (omega arith)
  take-take (suc m) (suc n) [] h = refl
  take-take (suc m) (suc n) (x ∷ xs) h = ap (◌∷◌ x) (take-take m n xs (omega arith))

  pub drop-drop : (m n : ℕ) (xs : List A) → drop m (drop n xs) ≡ drop (n + m) xs
  drop-drop m zero xs = ap (λ k. drop k xs) (omega arith)
  drop-drop zero (suc n) [] = go (suc n + zero)
    where
      go : (k : ℕ) → [] ≡ drop {A = A} k []
      go zero = refl
      go (suc k) = refl
  drop-drop (suc m) (suc n) [] = go (suc n + suc m)
    where
      go : (k : ℕ) → [] ≡ drop {A = A} k []
      go zero = refl
      go (suc k) = refl
  drop-drop m (suc n) (x ∷ xs) = drop-drop m n xs ∙ ap (λ k. drop k (x ∷ xs)) shift
    where
      shift : suc (n + m) ≡ suc n + m
      shift = omega arith

-- Big endian numbers of two and four bytes.
abbrev pub big16 : ℕ → List ℕ
big16 v = (v / 256 % 256) ∷ (v % 256) ∷ []

abbrev pub big32 : ℕ → List ℕ
big32 v = (v / 16777216 % 256) ∷ (v / 65536 % 256) ∷ (v / 256 % 256) ∷ (v % 256) ∷ []

-- The number that a run of bytes stands for.
abbrev pub from_big : List ℕ → ℕ → ℕ
from_big [] acc = acc
from_big (b ∷ bs) acc = from_big bs (acc * 256 + b)

pub from_big-big16 : (v : ℕ) → v < 65536 → from_big (big16 v) 0 ≡ v
from_big-big16 v h = omega arith

pub from_big-big32 : (v : ℕ) → v < 4294967296 → from_big (big32 v) 0 ≡ v
from_big-big32 v h = omega arith

-- Reads and writes at the front of a buffer.
pub read_front : (xs : List ℕ) (n : ℕ) → n ≤ length xs → read_bytes xs 0 n ≡ some (take n xs)
unfolding read_bytes
read_front xs n h = ground (arith, h)

pub write_front :
    (buf bs : List ℕ)
    → length bs ≤ length buf
    → write_bytes buf 0 bs ≡ some (bs ++ drop (length bs) buf)
unfolding write_bytes
write_front buf bs h = ground (arith, h)
