-- ===== src/Mrt/Run.antt =====
-- What the primitive operations of src/mrt.c return where a packet starts with given bytes.
use isocore.Base.{
  ℕ, ◌+◌, ◌*◌, ◌≤◌, ◌≡◌, refl, sym, ap, ◌∙◌, arith, Bool, true, false, if◌then◌else◌, List, ◌++◌,
  some, length, ◌-◌, take, drop, length-append, length-take, length-drop, [], append-nil,
}
use mathlib.Core.Path.{subst}
use isocore.Base.Bytes.{read_bytes, from_big, drop-append_eq}
use isocore.Base.Window.{window, window_fits, read-window, window-advance, take-drop}
use isocore.Mrt.{
  MrtErr, enoerr, is_ok, MrtMsg, Outcome, fault, fails, ok, R, then_do, ◌>>=◌, latch, require,
  check_bounds, copy, number,
}
use isocore.Mrt.Safe.{number_read, copy_read}

then_do_ok : {A B : Type 0} (k : A → R B) (a : A) (m : MrtMsg) → then_do k (ok a m) ≡ k a m
unfolding then_do
then_do_ok k a m = refl

-- Tests whose value is known.
pub if_holds : {A : Type 0} (b : Bool) (x y : A) → b ≡ true → (if b then x else y) ≡ x
if_holds b x y e = ap (λ c. if c then x else y) e

pub if_fails : {A : Type 0} (b : Bool) (x y : A) → b ≡ false → (if b then x else y) ≡ y
if_fails b x y e = ap (λ c. if c then x else y) e

-- The outcome of an operation in a message, and the rules for it.
pub record Runs {A : Type 0} (f : R A) (m : MrtMsg) (r : Outcome A) : Type 0 where
  pub eq : f m ≡ r

pub run :
    {A B : Type 0} {f : R A} (k : A → R B) {m m' : MrtMsg} {a : A} {r : Outcome B}
    → Runs f m (ok a m')
    → Runs (k a) m' r
    → Runs (f >>= k) m r
run k {m' = m'} {a = a} first rest = record {
  eq = ap (then_do k) first.eq ∙ (then_do_ok k a m' ∙ rest.eq);
}

then_do_fault : {A B : Type 0} (k : A → R B) → then_do k fault ≡ fault
unfolding then_do
then_do_fault k = refl

pub run_fault :
    {A B : Type 0} {f : R A} (k : A → R B) {m : MrtMsg} → Runs f m fault → Runs (f >>= k) m fault
run_fault k first = record { eq = ap (then_do k) first.eq ∙ then_do_fault k }

pub computes : {A : Type 0} {f : R A} {m : MrtMsg} → Runs f m (f m)
computes = record { eq = refl }

pub run_then :
    {A : Type 0} {b : Bool} {x : R A} (y : R A) {m : MrtMsg} {r : Outcome A}
    → b ≡ true
    → Runs x m r
    → Runs (if b then x else y) m r
run_then {A = A} {b = b} {x = x} y {m = m} e first = record {
  eq = ap (λ (f : R A). f m) (if_holds b x y e) ∙ first.eq;
}

pub run_else :
    {A : Type 0} {b : Bool} (x : R A) {y : R A} {m : MrtMsg} {r : Outcome A}
    → b ≡ false
    → Runs y m r
    → Runs (if b then x else y) m r
run_else {A = A} {b = b} x {y = y} {m = m} e second = record {
  eq = ap (λ (f : R A). f m) (if_fails b x y e) ∙ second.eq;
}

pub require_ok :
    (e : MrtErr) (has : MrtMsg → Bool) (m : MrtMsg)
    → has m ≡ true
    → m.err ≡ enoerr
    → Runs (require e has) m (ok tt m)
unfolding require
require_ok e has m h live = record {
  eq =
      ap (λ b. let l = latch e b m in if is_ok l.err then ok tt l else fails l) h
      ∙ ap (λ x. if is_ok x then ok tt m else fails m) live;
}

-- The bytes from `ptr` to `end` in a buffer are `xs`.
pub record Front (buf : List ℕ) (ptr end : ℕ) (xs : List ℕ) : Type 0 where
  pub in_buf : end ≤ length buf
  pub order : ptr ≤ end
  pub front : window buf ptr end ≡ xs

-- What follows a known prefix.
pub Front-prefix :
    (buf : List ℕ) (ptr end : ℕ) (xs ys : List ℕ)
    → end ≤ length buf
    → length xs ≡ ptr
    → take end buf ≡ xs ++ ys
    → Front buf ptr end ys
Front-prefix buf ptr end xs ys in_buf at packet = record {
  in_buf = in_buf;
  order = order;
  front =
      take-drop ptr (end - ptr) buf
      ∙ (ap (λ n. drop ptr (take n buf)) whole
          ∙ (ap (drop ptr) packet ∙ drop-append_eq ptr xs ys (sym at)));
}
  where
    order : ptr ≤ end
    order = omega (arith, at, in_buf, ap length packet, length-append xs ys, length-take end buf)

    whole : ptr + (end - ptr) ≡ end
    whole = omega (arith, order)

pub Front-advance :
    {buf : List ℕ} {ptr end : ℕ} (xs ys : List ℕ) (n : ℕ)
    → length xs ≡ n
    → Front buf ptr end (xs ++ ys)
    → Front buf (ptr + n) end ys
Front-advance {buf = buf} {ptr = ptr} {end = end} xs ys n size f = record {
  in_buf = f.in_buf;
  order = omega (arith, size, window_fits buf ptr end xs ys f.in_buf f.order f.front);
  front =
      ap (λ k. window buf (ptr + k) end) (sym size)
      ∙ window-advance buf ptr end xs ys f.in_buf f.order f.front;
}

pub Front-pair :
    {buf : List ℕ} {ptr end : ℕ} (xs ys rest : List ℕ) (n : ℕ)
    → length xs ≡ n
    → length ys ≡ n
    → Front buf ptr end (xs ++ (ys ++ rest))
    → Front buf (ptr + 2 * n) end rest
Front-pair {buf = buf} {ptr = ptr} {end = end} xs ys rest n h k f =
    subst (λ p. Front buf p end rest) twice
      (Front-advance ys rest n k (Front-advance xs (ys ++ rest) n h f))
  where
    twice : ptr + n + n ≡ ptr + 2 * n
    twice = omega arith

module _ (m : MrtMsg) {ptr end : ℕ} (xs ys : List ℕ) (n : ℕ) (size : length xs ≡ n)
    (f : Front m.buf ptr end (xs ++ ys)) where
  pub number_front : {v : ℕ} → from_big xs 0 ≡ v → Runs (number ptr n) m (ok v m)
  number_front e = record {
    eq =
        number_read m ptr n xs (
          ap (read_bytes m.buf ptr) (sym size)
          ∙ read-window m.buf ptr end xs ys f.in_buf f.order f.front)
        ∙ ap (λ v. ok v m) e;
  }

  pub copy_front : Runs (copy ptr n) m (ok xs m)
  copy_front = record {
    eq = copy_read m ptr n xs (
        ap (read_bytes m.buf ptr) (sym size)
        ∙ read-window m.buf ptr end xs ys f.in_buf f.order f.front);
  }

  pub bounds_front : (e : MrtErr) → Runs (check_bounds ptr end n e) m (ok tt m)
  unfolding check_bounds
  bounds_front e = record {
    eq = ground (arith, size, window_fits m.buf ptr end xs ys f.in_buf f.order f.front);
  }

pub bounds_ok :
    {m : MrtMsg} (ptr end size : ℕ) (e : MrtErr)
    → ptr + size ≤ end
    → Runs (check_bounds ptr end size e) m (ok tt m)
unfolding check_bounds
bounds_ok ptr end size e h = record { eq = ground (arith, h) }

-- The bytes to the end, read at once.
pub read_front_all :
    (m : MrtMsg) (ptr end : ℕ) (xs : List ℕ)
    → Front m.buf ptr end xs
    → (end - ptr ≡ length xs) × (read_bytes m.buf ptr (length xs) ≡ some xs)
read_front_all m ptr end xs f = (
  omega (
    arith,
    f.in_buf,
    f.order,
    ap length f.front,
    length-take (end - ptr) (drop ptr m.buf),
    length-drop ptr m.buf,
  ),
  read-window m.buf ptr end xs [] f.in_buf f.order (f.front ∙ sym (append-nil xs)),
)
