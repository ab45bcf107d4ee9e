-- ===== src/Bgp/AsPaths/Loop.antt =====
-- The ASes of a path, and the loop of `nextaspath_r` that enters the next segment (src/bgp.c).
use isocore.Base.{
  ℕ, zero, suc, ◌+◌, ◌%◌, ◌^◌, ◌≤◌, ◌<◌, ◌≡◌, refl, sym, ap, ◌∙◌, arith, true, false, ltb, ◌==◌,
  List, [], ◌∷◌, some, length, get_elem?,
}
use mathlib.Core.Path.{subst, ap₂}
use isocore.Base.Bytes.{read_bytes, from_big}
use isocore.Bgp.{Msg, enoerr}
use isocore.Bgp.AsPaths.{path_end, in_segment, next_segment}

-- The ASes from an offset on, `left` of them in the segment that the offset is in.
pub data Ases (size : ℕ) (buf : List ℕ) : ℕ → ℕ → ℕ → List ℕ → Type 0 where
  no_more : {end : ℕ} → Ases size buf end end 0 []
  new_segment :
      {ptr end type n : ℕ} {xs : List ℕ}
      → get_elem? buf ptr ≡ some type
      → get_elem? buf (ptr + 1) ≡ some n
      → n < 256
      → Ases size buf (ptr + 2) end n xs
      → Ases size buf ptr end 0 xs
  one_as :
      {ptr end left : ℕ} {bs xs : List ℕ}
      → read_bytes buf ptr size ≡ some bs
      → Ases size buf (ptr + size) end left xs
      → Ases size buf ptr end (suc left) (from_big bs 0 ∷ xs)

Ases-le :
    (size : ℕ) (buf : List ℕ) (ptr end left : ℕ) (xs : List ℕ)
    → Ases size buf ptr end left xs
    → ptr ≤ end
Ases-le size buf ptr end left xs no_more = omega arith
Ases-le size buf ptr end left xs (new_segment t l b more) =
    let below = Ases-le size buf _ end _ xs more in omega (arith, below)
Ases-le size buf ptr end left xs (one_as r more) =
    let below = Ases-le size buf _ end _ _ more in omega (arith, below)

-- A message in the iteration, with these ASes to come, and no turn to AS4_PATH before their end.
pub record IsOnPath (m : Msg) (left : ℕ) (xs : List ℕ) : Type 0 where
  pub on : m.flags.aspath ≡ true
  pub good : m.err ≡ enoerr
  pub index : m.path.segi + left ≡ m.path.seglen
  pub byte : m.path.seglen < 256
  pub int16 : m.path.ascount < 2 ^ 16
  pub enough : length xs < m.path.ascount
  pub ases : Ases m.path.as_size m.buf m.path.asptr m.path.asend left xs

abbrev entered : Msg → ℕ → ℕ → Msg
entered m type n = record m {
  path = record m.path {
    asptr = m.path.asptr + 2;
    type = type;
    seglen = n;
    segi = 0;
    segno = (m.path.segno + 1) % 2 ^ 32;
  };
}

segment-stays :
    (fuel : ℕ) (m : Msg)
    → (m.path.segi == m.path.seglen) ≡ false
    → next_segment (suc fuel) m ≡ some (in_segment, m)
unfolding next_segment
segment-stays fuel m e = ground (arith, e)

segment-ends :
    (fuel : ℕ) (m : Msg)
    → (m.path.segi == m.path.seglen) ≡ true
    → (m.path.asptr == m.path.asend) ≡ true
    → next_segment (suc fuel) m ≡ some (path_end, m)
unfolding next_segment
segment-ends fuel m e f = ground (arith, e, f)

segment-enters :
    (fuel : ℕ) (m : Msg) (type n : ℕ)
    → (m.path.segi == m.path.seglen) ≡ true
    → (m.path.asptr == m.path.asend) ≡ false
    → ltb m.path.asend (m.path.asptr + 2) ≡ false
    → get_elem? m.buf m.path.asptr ≡ some type
    → get_elem? m.buf (m.path.asptr + 1) ≡ some n
    → next_segment (suc fuel) m ≡ next_segment fuel (entered m type n)
unfolding next_segment
segment-enters fuel m type n e f g t l = ground (arith, e, f, g, t, l)

-- What the loop does not change.
pub record Kept (m n : Msg) : Type 0 where
  pub same_count : n.path.ascount ≡ m.path.ascount
  pub same_buf : n.buf ≡ m.buf
  pub same_ptr4 : n.path.as4ptr ≡ m.path.as4ptr
  pub same_end4 : n.path.as4end ≡ m.path.as4end

Kept-refl : (m : Msg) → Kept m m
Kept-refl m = record { same_count = refl; same_buf = refl; same_ptr4 = refl; same_end4 = refl }

Kept-trans : (m n o : Msg) → Kept m n → Kept n o → Kept m o
Kept-trans m n o a b = record {
  same_count = b.same_count ∙ a.same_count;
  same_buf = b.same_buf ∙ a.same_buf;
  same_ptr4 = b.same_ptr4 ∙ a.same_ptr4;
  same_end4 = b.same_end4 ∙ a.same_end4;
}

-- The loop of `nextaspath_r` stops before an AS.
pub record AtAs (fuel : ℕ) (m : Msg) (x : ℕ) (xs : List ℕ) : Type 0 where
  pub next : Msg
  pub left : ℕ
  pub bytes : List ℕ
  pub found : next_segment fuel m ≡ some (in_segment, next)
  pub on : next.flags.aspath ≡ true
  pub good : next.err ≡ enoerr
  pub kept : Kept m next
  pub index : next.path.segi + suc left ≡ next.path.seglen
  pub byte : next.path.seglen < 256
  pub read : read_bytes next.buf next.path.asptr next.path.as_size ≡ some bytes
  pub value : from_big bytes 0 ≡ x
  pub more :
      Ases next.path.as_size next.buf (next.path.asptr + next.path.as_size) next.path.asend left xs

-- It stops at the end of the path, without an error.
pub record AtEnd (fuel : ℕ) (m : Msg) : Type 0 where
  pub next : Msg
  pub found : next_segment fuel m ≡ some (path_end, next)
  pub good : next.err ≡ enoerr

abbrev pub Stops : ℕ → Msg → List ℕ → Type 0
Stops fuel m [] = AtEnd fuel m
Stops fuel m (x ∷ xs) = AtAs fuel m x xs

Stops-entered :
    (fuel : ℕ) (m m' : Msg) (xs : List ℕ)
    → next_segment (suc fuel) m ≡ next_segment fuel m'
    → Kept m m'
    → Stops fuel m' xs
    → Stops (suc fuel) m xs
Stops-entered fuel m m' [] e c s = record { next = s.next; found = e ∙ s.found; good = s.good }
Stops-entered fuel m m' (x ∷ xs) e c s = record {
  next = s.next;
  left = s.left;
  bytes = s.bytes;
  found = e ∙ s.found;
  on = s.on;
  good = s.good;
  kept = Kept-trans m m' s.next c s.kept;
  index = s.index;
  byte = s.byte;
  read = s.read;
  value = s.value;
  more = s.more;
}

Ases-carried :
    (size size' : ℕ) (buf buf' : List ℕ) (ptr ptr' end end' left : ℕ) (xs : List ℕ)
    → size' ≡ size
    → buf' ≡ buf
    → ptr' ≡ ptr
    → end' ≡ end
    → Ases size buf (ptr + size) end left xs
    → Ases size' buf' (ptr' + size') end' left xs
Ases-carried size size' buf buf' ptr ptr' end end' left xs es eb ep ee h =
    subst (λ e. Ases size' buf' (ptr' + size') e left xs) (sym ee)
      (subst (λ p. Ases size' buf' (p + size') end left xs) (sym ep)
        (subst (λ b. Ases size' b (ptr + size') end left xs) (sym eb)
          (subst (λ s. Ases s buf (ptr + s) end left xs) (sym es) h)))

pub next_segment_lem :
    (fuel : ℕ) (m : Msg) (size : ℕ) (buf : List ℕ) (ptr end left : ℕ) (xs : List ℕ)
    → Ases size buf ptr end left xs
    → m.path.as_size ≡ size
    → m.buf ≡ buf
    → m.path.asptr ≡ ptr
    → m.path.asend ≡ end
    → end < ptr + fuel
    → m.flags.aspath ≡ true
    → m.err ≡ enoerr
    → m.path.segi + left ≡ m.path.seglen
    → m.path.seglen < 256
    → Stops fuel m xs
next_segment_lem zero m size buf ptr end left xs h es eb ep ee lt on good index byte =
    let le = Ases-le size buf ptr end left xs h in absurd (omega (arith, le, lt))
next_segment_lem (suc fuel) m size buf ptr end left xs no_more es eb ep ee lt on good index byte =
    record {
      next = m;
      found = segment-ends fuel m (ground (arith, index)) (ground (arith, ep, ee));
      good = good;
    }
next_segment_lem (suc fuel) m size buf ptr end left xs
      (new_segment {type = type} {n = n} t l b more) es eb ep ee lt on good index byte =
    let below = Ases-le size buf _ end _ xs more in
    let at_type : get_elem? m.buf m.path.asptr ≡ some type = ap₂ get_elem? eb ep ∙ t in
    let at_length : get_elem? m.buf (m.path.asptr + 1) ≡ some n =
      ap₂ (λ xs p. get_elem? xs (p + 1)) eb ep ∙ l in
    Stops-entered fuel m (entered m type n) xs
      (segment-enters fuel m type n (ground (arith, index)) (ground (arith, below, ep, ee))
        (ground (arith, below, ep, ee)) at_type at_length)
      (record { same_count = refl; same_buf = refl; same_ptr4 = refl; same_end4 = refl })
      (next_segment_lem fuel (entered m type n) size buf (ptr + 2) end n xs more es eb
        (ap (λ p. p + 2) ep) ee (omega (arith, lt)) on good (omega arith) b)
next_segment_lem (suc fuel) m size buf ptr end left xs (one_as {left = rest} {bs = bs} r more) es eb
      ep ee lt on good index byte =
    record {
      next = m;
      left = rest;
      bytes = bs;
      found = segment-stays fuel m (ground (arith, index));
      on = on;
      good = good;
      kept = Kept-refl m;
      index = index;
      byte = byte;
      read =
          subst (λ s. read_bytes m.buf m.path.asptr s ≡ some bs) (sym es)
            (ap₂ (λ xs p. read_bytes xs p size) eb ep ∙ r);
      value = refl;
      more =
          Ases-carried size m.path.as_size buf m.buf ptr m.path.asptr end m.path.asend rest _ es eb
            ep ee more;
    }
