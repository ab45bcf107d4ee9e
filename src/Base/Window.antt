-- ===== src/Base/Window.antt =====
-- The part of a buffer between two offsets, read from its front.
use isocore.Base.Lists.{length, take, drop, get_elem?, length-take, length-drop, length-append}
use isocore.Base.Bytes.{read_bytes, take-append_eq, drop-append_eq, take-take, drop-drop}
use Prim.Native.Nat.{ℕ, zero, suc, ◌+◌, ◌-◌, ◌≤◌}
use mathlib.Core.Path.{◌≡◌, refl, sym, ap, ◌∙◌}
use mathlib.Core.Option.{some}
use mathlib.Core.List.{List, [], ◌∷◌, ◌++◌}
use native.Mathlib.Omega.{arith}

abbrev pub window : List ℕ → ℕ → ℕ → List ℕ
window buf lo hi = take (hi - lo) (drop lo buf)

drop-take_nil : (m j : ℕ) → drop {A = ℕ} m (take j []) ≡ []
drop-take_nil zero zero = refl
drop-take_nil zero (suc j) = refl
drop-take_nil (suc m) zero = refl
drop-take_nil (suc m) (suc j) = refl

pub take-drop : (n k : ℕ) (xs : List ℕ) → take k (drop n xs) ≡ drop n (take (n + k) xs)
take-drop zero k xs = ap (λ j. take j xs) (omega arith)
take-drop (suc n) zero [] = sym (drop-take_nil (suc n) (suc n + zero))
take-drop (suc n) (suc k) [] = sym (drop-take_nil (suc n) (suc n + suc k))
take-drop (suc n) k (x ∷ xs) = take-drop n k xs ∙ ap (λ j. drop (suc n) (take j (x ∷ xs))) shift
  where
    shift : suc (n + k) ≡ suc n + k
    shift = omega arith

module _ (buf : List ℕ) (lo hi : ℕ) (xs ys : List ℕ) (in_buf : hi ≤ length buf) (order : lo ≤ hi)
    (front : window buf lo hi ≡ xs ++ ys) where
  pub window_fits : lo + length xs ≤ hi
  window_fits = omega (
    arith,
    ap length front,
    length-append xs ys,
    length-take (hi - lo) (drop lo buf),
    length-drop lo buf,
  )

  pub read-window : read_bytes buf lo (length xs) ≡ some xs
  unfolding read_bytes
  read-window = ground (
    arith,
    window_fits,
    sym (take-take (length xs) (hi - lo) (drop lo buf) (omega (arith, window_fits)))
        ∙ ap (take (length xs)) front
        ∙ take-append_eq (length xs) xs ys refl,
  )

  pub window-advance : window buf (lo + length xs) hi ≡ ys
  window-advance =
      rw
        (
          ← drop-drop (length xs) lo buf,
          take-drop (length xs) (hi - (lo + length xs)) (drop lo buf),
          same,
        )
        (ap (drop (length xs)) front ∙ drop-append_eq (length xs) xs ys refl)
    where
      same : length xs + (hi - (lo + length xs)) ≡ hi - lo
      same = omega (arith, window_fits)

get_elem?-drop : (n : ℕ) (xs ys : List ℕ) (x : ℕ) → drop n xs ≡ x ∷ ys → get_elem? xs n ≡ some x
get_elem?-drop zero [] ys x e = cc
get_elem?-drop (suc n) [] ys x e = cc
get_elem?-drop zero (z ∷ xs) ys x e = cc
get_elem?-drop (suc n) (z ∷ xs) ys x e = get_elem?-drop n xs ys x e

take_head : (k : ℕ) (zs ys : List ℕ) (x : ℕ) → take k zs ≡ x ∷ ys → (ws : List ℕ) × (zs ≡ x ∷ ws)
take_head zero zs ys x e = cc
take_head (suc k) [] ys x e = cc
take_head (suc k) (z ∷ zs) ys x e = (zs, cc)

-- The byte at the front of a window that is not empty.
pub window-head :
    (buf : List ℕ) (lo hi x : ℕ) (ys : List ℕ)
    → window buf lo hi ≡ x ∷ ys
    → get_elem? buf lo ≡ some x
window-head buf lo hi x ys e =
    let (ws, d) = take_head (hi - lo) (drop lo buf) ys x e in get_elem?-drop lo buf ws x d
