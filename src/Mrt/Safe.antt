-- ===== src/Mrt/Safe.antt =====
-- Operations of src/mrt.c that stay inside of the packet: a relation between a message and an outcome,
-- and a rule for each primitive operation.
use isocore.Base.{
  ℕ, ◌+◌, ◌≤◌, ◌≡◌, refl, sym, ap, ◌∙◌, arith, Bool, true, false, ltb, if◌then◌else◌, List, none,
  some, length, length-take, length-drop, take, drop,
}
use mathlib.Core.Path.{subst}
use isocore.Base.Bytes.{read_bytes, from_big}
use isocore.Mrt.{
  MrtErr, is_ok, MrtMsg, Outcome, fault, fails, ok, R, then_do, ◌>>=◌, return, gets, modify,
  fail_with, latch, require, check_bounds, copy, number, message_offset,
}

-- The packet is in its buffer.
pub record InPlace (m : MrtMsg) : Type 0 where
  pub fits : message_offset + m.hdr.len ≤ length m.buf

-- The second message has the packet, the header and the flags of the first one.
pub record Same (m m' : MrtMsg) : Type 0 where
  pub buf : m'.buf ≡ m.buf
  pub hdr : m'.hdr ≡ m.hdr
  pub flags : m'.flags ≡ m.flags

pub same : (m : MrtMsg) → Same m m
same m = record { buf = refl; hdr = refl; flags = refl }

-- The outcome is not a fault, the packet is as before, and a result has the property.
abbrev pub Safe : {A : Type 0} → MrtMsg → (A → Type 0) → Outcome A → Type 0
Safe m P fault = ⊥
Safe m P (fails m') = Same m m'
Safe m P (ok a m') = Same m m' × P a

abbrev pub Any : {A : Type 0} → A → Type 0
Any a = Unit {0}

pub Same-Same : {m m' m'' : MrtMsg} → Same m m' → Same m' m'' → Same m m''
Same-Same s t = record { buf = t.buf ∙ s.buf; hdr = t.hdr ∙ s.hdr; flags = t.flags ∙ s.flags }

Same-latch : (e : MrtErr) (b : Bool) (m : MrtMsg) → Same m (latch e b m)
Same-latch e true m = same m
Same-latch e false m = record { buf = refl; hdr = refl; flags = refl }

-- What a read that succeeds returns.
module _ (m : MrtMsg) (ptr n : ℕ) (bs : List ℕ) (read : read_bytes m.buf ptr n ≡ some bs) where
  pub number_read : number ptr n m ≡ ok (from_big bs 0) m
  unfolding number
  number_read = ap (λ o. elim o [ none ↦ fault | some cs ↦ ok (from_big cs 0) m ]) read

  pub copy_read : copy ptr n m ≡ ok bs m
  unfolding copy
  copy_read = ap (λ o. elim o [ none ↦ fault | some cs ↦ ok cs m ]) read

-- An operation that is safe in every message that has the packet of `m`, and the rules for it.
pub record SafeOp (m : MrtMsg) {A : Type 0} (P : A → Type 0) (f : R A) : Type 0 where
  pub run : (m' : MrtMsg) → Same m m' → Safe m P (f m')

module _ {m : MrtMsg} where
  run_after :
      {A B : Type 0} (P : A → Type 0) (Q : B → Type 0) (k : A → R B) (o : Outcome A)
      → Safe m P o
      → ((a : A) → P a → SafeOp m Q (k a))
      → Safe m Q (then_do k o)
  unfolding then_do
  run_after P Q k fault s each = s
  run_after P Q k (fails m') s each = s
  run_after P Q k (ok a m') (s, p) each = (each a p).run m' s

  pub after :
      {A B : Type 0} {P : A → Type 0} {Q : B → Type 0} {f : R A} {k : A → R B}
      → SafeOp m P f
      → ((a : A) → P a → SafeOp m Q (k a))
      → SafeOp m Q (f >>= k)
  after {P = P} {Q = Q} {f = f} {k = k} first each = record {
    run = λ m' s. run_after P Q k (f m') (first.run m' s) each;
  }

  pub branch :
      {A : Type 0} {P : A → Type 0} (b : Bool) {x y : R A}
      → SafeOp m P x
      → SafeOp m P y
      → SafeOp m P (if b then x else y)
  branch true t f = t
  branch false t f = f

  pub returns : {A : Type 0} {P : A → Type 0} (a : A) → P a → SafeOp m P (return a)
  returns a p = record { run = λ m' s. (s, p) }

  pub fails_with : {A : Type 0} {P : A → Type 0} (e : MrtErr) → SafeOp m P (fail_with e)
  fails_with e = record { run = λ m' s. record { buf = s.buf; hdr = s.hdr; flags = s.flags } }

  pub obtains :
      {A : Type 0} {P : A → Type 0} (f : MrtMsg → A)
      → ((m' : MrtMsg) → Same m m' → P (f m'))
      → SafeOp m P (gets f)
  obtains f p = record { run = λ m' s. (s, p m' s) }

  pub modifies : (f : MrtMsg → MrtMsg) → ((m' : MrtMsg) → Same m' (f m')) → SafeOp m Any (modify f)
  modifies f t = record { run = λ m' s. (Same-Same s (t m'), tt) }

  pub requires : (e : MrtErr) (has : MrtMsg → Bool) → SafeOp m Any (require e has)
  unfolding require
  requires e has = record { run = λ m' s. go m' s (is_ok (latch e (has m') m').err) }
    where
      latched : (m' : MrtMsg) → Same m m' → Same m (latch e (has m') m')
      latched m' s = Same-Same s (Same-latch e (has m') m')

      go :
          (m' : MrtMsg) (s : Same m m') (b : Bool)
          → Safe m Any (if b then ok tt (latch e (has m') m') else fails (latch e (has m') m'))
      go m' s true = (latched m' s, tt)
      go m' s false = latched m' s

  pub bounds :
      (ptr end size : ℕ) (e : MrtErr)
      → SafeOp m (λ _. ptr + size ≤ end) (check_bounds ptr end size e)
  unfolding check_bounds
  bounds ptr end size e = record { run = λ m' s. go m' s (ltb end (ptr + size)) refl }
    where
      go :
          (m' : MrtMsg) (s : Same m m') (b : Bool)
          → ltb end (ptr + size) ≡ b
          → Safe m (λ _. ptr + size ≤ end) (if b then fails (record m' { err = e }) else ok tt m')
      go m' s true t = record { buf = s.buf; hdr = s.hdr; flags = s.flags }
      go m' s false f = (s, ground (arith, f))

  module _ (i : InPlace m) (ptr n : ℕ) (h : ptr + n ≤ message_offset + m.hdr.len) where
    pub read_inside :
        (m' : MrtMsg) (s : Same m m')
        → (bs : List ℕ) × (read_bytes m'.buf ptr n ≡ some bs) × (length bs ≡ n)
    unfolding read_bytes
    read_inside m' s = (
      take n (drop ptr m'.buf),
      ground (arith, i.fits, ap length s.buf),
      omega
          (arith, i.fits, ap length s.buf, length-take n (drop ptr m'.buf), length-drop ptr m'.buf),
    )

    pub reads_number : SafeOp m Any (number ptr n)
    reads_number = record {
      run = λ m' s.
          let (bs, e, l) = read_inside m' s in
          subst (λ o. Safe m Any o) (sym (number_read m' ptr n bs e)) (s, tt);
    }

    pub copies : SafeOp m (λ bs. length bs ≡ n) (copy ptr n)
    copies = record {
      run = λ m' s.
          let (bs, e, l) = read_inside m' s in
          subst (λ o. Safe m (λ bs. length bs ≡ n) o) (sym (copy_read m' ptr n bs e)) (s, l);
    }
