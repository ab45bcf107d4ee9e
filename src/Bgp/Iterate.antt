-- ===== src/Bgp/Iterate.antt =====
-- The iterators over a packet that is being read: how far one step goes, and where it fails.
use isocore.Base.{
  ℕ, zero, suc, ◌+◌, ◌*◌, ◌≤◌, ◌<◌, ◌≡◌, ◌⊎◌, inl, inr, refl, ◌∙◌, arith, Bool, true, false, List,
  [], ◌∷◌, Option, none, some, length, get_elem?, set, ◌%◌, ltb, leb, ◌==◌, if◌then◌else◌,
  Bool-cases,
}
use isocore.Bgp.{
  Msg, Err, enoerr, ebadattr, M, ◌>>=◌, step, bind_option, check_flags_ok, if_true, if_false,
  access, access-some, given_some,
}
use isocore.Bgp.Attribs.{bad_attr, nextbgpattrib_r, skip_value, attr_code_index, is_extended}
use isocore.Bgp.Inverse.Read.{Inside}
use isocore.Bgp.Inverse.Write.{access_uptr}

-- What one step of an iterator leaves: no result, or `n` bytes of progress at least, and an iterator
-- that stands inside of the same field.
pub record Step {A : Type 0} (n : ℕ) (m : Msg) (r : Option A) (m' : Msg) : Type 0 where
  inside : Inside m'
  same_end : m'.uend ≡ m.uend
  same_buf : m'.buf ≡ m.buf
  progress : (r ≡ none) ⊎ (m.uptr + n ≤ m'.uptr)

byte_in : (xs : List ℕ) (i : ℕ) → i < length xs → (b : ℕ) × (get_elem? xs i ≡ some b)
byte_in [] i h = absurd (omega arith)
byte_in (x ∷ xs) zero h = (x, refl)
byte_in (x ∷ xs) (suc i) h = byte_in xs i (omega arith)

abbrev pub Steps : {A : Type 0} → ℕ → M (Option A) → Msg → Type 0
Steps {A} n f m = (r : Option A) × (m' : Msg) × (f m ≡ some (r, m')) × Step n m r m'

if_else : {A : Type 0} (b : Bool) (x y : A) → b ≡ false → (if b then x else y) ≡ y
if_else b x y e = rw e refl

index_known : (code : ℕ) → code < 255 → (i : Option ℕ) × (attr_code_index code ≡ some i)
unfolding attr_code_index
index_known code h = (_, if_else (leb 255 code) none _ (ground arith))

module _ (at after len code : ℕ) (m : Msg) (i : Inside m) (lo : at + 3 ≤ after)
    (hi : after ≤ m.uend) (c : get_elem? m.buf (at + 1) ≡ some code) (e : m.uptr ≡ at) where
  skip_value_bad : ltb m.uend (after + len) ≡ true → Steps 3 (skip_value at after len) m
  unfolding skip_value bind_option
  skip_value_bad out = (
    none,
    record m { uptr = after; err = ebadattr },
    if_true (ltb m.uend (after + len)) _ _ (record m { uptr = after }) out refl,
    record {
      inside = record { here = i.here; order = hi; in_buf = i.in_buf };
      same_end = refl;
      same_buf = refl;
      progress = inl refl;
    },
  )

  skipped : Option ℕ → Msg
  skipped none = record m { uptr = after + len }
  skipped (some k) = record m { uptr = after + len; offtab = set m.offtab k (at % 65536) }

  skip_value_good :
      (k : Option ℕ)
      → attr_code_index code ≡ some k
      → ltb m.uend (after + len) ≡ false
      → skip_value at after len m ≡ some (some at, skipped k)
  unfolding skip_value bind_option skipped
  skip_value_good none known fits =
      if_false (ltb m.uend (after + len)) _ _ (record m { uptr = after }) fits
        (step _ (access-some (λ m'. get_elem? m'.buf (at + 1)) (record m { uptr = after + len }) c)
          (step _ (step _ (given_some _ (record m { uptr = after + len }) known) refl) refl))
  skip_value_good (some k) known fits =
      if_false (ltb m.uend (after + len)) _ _ (record m { uptr = after }) fits
        (step _ (access-some (λ m'. get_elem? m'.buf (at + 1)) (record m { uptr = after + len }) c)
          (step _ (step _ (given_some _ (record m { uptr = after + len }) known) refl) refl))

  skipped-Step : (k : Option ℕ) → ltb m.uend (after + len) ≡ false → Step 3 m (some at) (skipped k)
  unfolding skipped
  skipped-Step none fits = record {
    inside = record { here = i.here; order = ground arith; in_buf = i.in_buf };
    same_end = refl;
    same_buf = refl;
    progress = inr (omega arith);
  }
  skipped-Step (some k) fits = record {
    inside = record { here = i.here; order = ground arith; in_buf = i.in_buf };
    same_end = refl;
    same_buf = refl;
    progress = inr (omega arith);
  }

  skip_value_lem : code < 255 → Steps 3 (skip_value at after len) m
  skip_value_lem small = elim (Bool-cases (ltb m.uend (after + len))) [
    | inl out ↦ skip_value_bad out
    | inr fits ↦
        let (k, known) = index_known code small in
        (some at, skipped k, skip_value_good k known fits, skipped-Step k fits)
  ]

follows :
    {A : Type 0} (f : M (Option A)) {m : Msg} {n : ℕ} {o : Option (Option A × Msg)}
    → f m ≡ o
    → (r : Option A) × (m' : Msg) × (o ≡ some (r, m')) × Step n m r m'
    → Steps n f m
follows f e (r, m', h, s) = (r, m', e ∙ h, s)

module _ (m : Msg) (i : Inside m) (rd : m.flags.rd ≡ true) (open_ : m.flags.pattr ≡ true)
    (ok : m.err ≡ enoerr) where
  stays : (e : Err) → Step {A = ℕ} 3 m none (record m { err = e })
  stays e = record {
    inside = record { here = i.here; order = i.order; in_buf = i.in_buf };
    same_end = refl;
    same_buf = refl;
    progress = inl refl;
  }

  -- Past the first checks the header is read.
  module _ (more : (m.uptr == m.uend) ≡ false) (fits : ltb m.uend (m.uptr + 3) ≡ false) where
    within : m.uptr + 3 ≤ m.uend
    within = ground arith

    abbrev low : (b : ℕ) × (get_elem? m.buf (m.uptr + 2) ≡ some b)
    low = byte_in m.buf (m.uptr + 2) (omega (arith, within, i.in_buf))

    abbrev flags : (b : ℕ) × (get_elem? m.buf m.uptr ≡ some b)
    flags = byte_in m.buf m.uptr (omega (arith, within, i.in_buf))

    abbrev code : (b : ℕ) × (get_elem? m.buf (m.uptr + 1) ≡ some b)
    code = byte_in m.buf (m.uptr + 1) (omega (arith, within, i.in_buf))

    header_read :
        {r : Option (Option ℕ × Msg)}
        → (if is_extended flags.0
              then (if ltb m.uend (m.uptr + 4) then bad_attr else (do
                next ← access (λ m'. get_elem? m'.buf (m.uptr + 3))
                skip_value m.uptr (m.uptr + 4) (low.0 * 256 + next)))
              else skip_value m.uptr (m.uptr + 3) low.0)
            m
          ≡ r
        → nextbgpattrib_r m ≡ r
    unfolding nextbgpattrib_r bind_option
    header_read e = check_flags_ok _ _ _ m (rw (rd, open_) refl) ok (
        step _ (access_uptr m i.here) (
          if_false (m.uptr == m.uend) _ _ m more (
            if_false (ltb m.uend (m.uptr + 3)) _ _ m fits (
              step _ (access-some (λ m'. get_elem? m'.buf (m.uptr + 2)) m low.1)
                (step _ (access-some (λ m'. get_elem? m'.buf m.uptr) m flags.1) e)))))

    attribute_read : code.0 < 255 → Steps 3 nextbgpattrib_r m
    unfolding bind_option
    attribute_read small = elim (Bool-cases (is_extended flags.0)) [
      | inl ext ↦ elim (Bool-cases (ltb m.uend (m.uptr + 4))) [
        | inl short ↦ (
          none,
          record m { err = ebadattr },
          header_read (
              if_true (is_extended flags.0) _ _ m ext
                (if_true (ltb m.uend (m.uptr + 4)) _ _ m short refl)),
          stays ebadattr,
        )
        | inr long ↦
            let (next, known) = byte_in m.buf (m.uptr + 3) (ground (arith, i.in_buf)) in
            follows nextbgpattrib_r
              (header_read (
                if_true (is_extended flags.0) _ _ m ext (
                  if_false (ltb m.uend (m.uptr + 4)) _ _ m long
                    (step _ (access-some (λ m'. get_elem? m'.buf (m.uptr + 3)) m known) refl))))
              (skip_value_lem m.uptr (m.uptr + 4) (low.0 * 256 + next) code.0 m i (omega arith)
                (ground arith) code.1 refl small)
      ]
      | inr plain ↦
          follows nextbgpattrib_r (header_read (if_false (is_extended flags.0) _ _ m plain refl)) (
            skip_value_lem m.uptr (m.uptr + 3) low.0 code.0 m i (omega arith)
              (omega (arith, within)) code.1 refl small)
    ]

  -- On a message without an error that is being read, with its path attributes open and an iterator
  -- inside of the packet, one step of the iteration never reads outside of the packet, unless
  -- the attribute has the code 255. It stays inside of the field, and moves past at least the three
  -- bytes of a header where it returns an attribute.
  pub nextbgpattrib_r_lem :
      ((c : ℕ) → get_elem? m.buf (m.uptr + 1) ≡ some c → c < 255) → Steps 3 nextbgpattrib_r m
  unfolding nextbgpattrib_r bind_option
  nextbgpattrib_r_lem small = elim (Bool-cases (m.uptr == m.uend)) [
    | inl end ↦ (
      none,
      m,
      check_flags_ok _ _ _ m (rw (rd, open_) refl) ok
          (step _ (access_uptr m i.here) (if_true (m.uptr == m.uend) _ _ m end refl)),
      stays m.err,
    )
    | inr more ↦ elim (Bool-cases (ltb m.uend (m.uptr + 3))) [
      | inl short ↦ (
        none,
        record m { err = ebadattr },
        check_flags_ok _ _ _ m (rw (rd, open_) refl) ok (
            step _ (access_uptr m i.here) (
              if_false (m.uptr == m.uend) _ _ m more
                (if_true (ltb m.uend (m.uptr + 3)) _ _ m short refl))),
        stays ebadattr,
      )
      | inr fits ↦ attribute_read more fits (small (code more fits).0 (code more fits).1)
    ]
  ]
