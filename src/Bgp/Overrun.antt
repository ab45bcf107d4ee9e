-- ===== src/Bgp/Overrun.antt =====
-- Where the code writes outside of its memory or to the wrong place.
use isocore.Base.{
  ℕ, zero, suc, ◌+◌, ◌≤◌, ◌<◌, ◌≡◌, refl, ◌∙◌, arith, true, false, List, [], ◌∷◌, ◌++◌, Option,
  none, some, length, take, drop, get_elem?, ltb, ◌==◌, length-take, length-drop, replicate,
}
use isocore.Base.Bytes.{read_bytes, write_bytes}
use isocore.NetAddr.{naddrsize}
use isocore.Bgp.{
  Msg, enoerr, ebadnlri, Alloc, M, step, bind_option, check_flags_ok, if_false, access, access-some,
  bgp_open, params_length_offset,
}
use isocore.Bgp.Prefixes.{read_bits, read_prefix, nextnlri_r}
use isocore.Bgp.Open.{setbgpparams_r}
use isocore.Bgp.Inverse.Fields.{check_type_ok}
use isocore.Bgp.Inverse.Read.{Inside}
use isocore.Bgp.Inverse.Write.{access_uptr, store_lem}

-- A step that fails, and the access that does.
fails : {A B : Type 0} (k : A → M B) {o : Option (A × Msg)} → o ≡ none → bind_option k o ≡ none
unfolding bind_option
fails k e = rw e refl

given_none : {A : Type 0} (o : Option A) (m : Msg) → o ≡ none → access (λ _. o) m ≡ none
given_none o m e = rw e refl

naddrsize_long : (b : ℕ) → 128 < b → 16 < naddrsize b
unfolding naddrsize
naddrsize_long b h = ground arith

module _ (m : Msg) (i : Inside m) (b : ℕ) (first : get_elem? m.buf m.uptr ≡ some b) (long : 128 < b)
    (fits : m.uptr + 1 + naddrsize b ≤ m.uend) where
  abbrev bs : List ℕ
  bs = take (naddrsize b) (drop (m.uptr + 1) m.buf)

  read_long : read_bytes m.buf (m.uptr + 1) (naddrsize b) ≡ some bs
  unfolding read_bytes
  read_long = ground (arith, i.in_buf)

  write_long : write_bytes (replicate 16 0) 0 bs ≡ none
  unfolding write_bytes
  write_long = ground (
    arith,
    naddrsize_long b long,
    i.in_buf,
    length-take (naddrsize b) (drop (m.uptr + 1) m.buf),
    length-drop (m.uptr + 1) m.buf,
  )

  abbrev cleared : Msg
  cleared = record m {
    pfxbuf = record m.pfxbuf { pfx = record m.pfxbuf.pfx { bytes = replicate 16 0 } };
  }

  abbrev counted : Msg
  counted = record cleared {
    uptr = m.uptr + 1;
    pfxbuf = record cleared.pfxbuf { pfx = record cleared.pfxbuf.pfx { bitlen = b } };
  }

  read_bits_long : read_bits ebadnlri true cleared ≡ none
  unfolding read_bits bind_option
  read_bits_long = step _ (access-some (λ m'. get_elem? m'.buf m.uptr) cleared first) (
      if_false (ltb m.uend (m.uptr + 1 + naddrsize b)) _ _ counted (ground arith) (
        step _ (access-some (λ m'. read_bytes m'.buf (m.uptr + 1) (naddrsize b)) counted read_long)
          (fails _ (given_none _ counted write_long))))

  -- A prefix in the NLRI field that is longer than 128 bits, all of whose bytes are in the packet, is
  -- not refused, on a message without an error and without path identifiers whose NLRI field is being
  -- read: `nextnlri_r` copies more than 16 bytes into the address.
  pub nextnlri_r-overrun :
      (alloc : Alloc)
      → m.flags.rd ≡ true
      → m.flags.nlri ≡ true
      → m.flags.addpath ≡ false
      → m.err ≡ enoerr
      → nextnlri_r alloc m ≡ none
  unfolding nextnlri_r read_prefix bind_option
  nextnlri_r-overrun alloc rd nlri path ok = check_flags_ok _ _ _ m (rw (rd, nlri) refl) ok (
      step _ (access_uptr m i.here) (
        step _ (if_false (m.uptr == m.uend) _ _ m (ground arith) refl) (
          step _ (access_uptr m i.here)
            (if_false m.flags.addpath _ _ cleared path read_bits_long))))

get_elem?-write_before :
    (i off : ℕ) (bs xs : List ℕ)
    → i < off
    → i < length xs
    → get_elem? (take off xs ++ bs) i ≡ get_elem? xs i
get_elem?-write_before i zero bs xs h h' = absurd (omega arith)
get_elem?-write_before i (suc off) bs [] h h' = absurd (omega arith)
get_elem?-write_before zero (suc off) bs (x ∷ xs) h h' = refl
get_elem?-write_before (suc i) (suc off) bs (x ∷ xs) h h' =
    get_elem?-write_before i off bs xs (omega arith) (omega arith)

one_byte :
    (n : ℕ) (xs : List ℕ) → 2 ≤ length xs → get_elem? (take 1 xs ++ (n ∷ drop 2 xs)) 1 ≡ some n
one_byte n [] h = absurd (omega arith)
one_byte n (x ∷ xs) h = refl

other_byte :
    (n : ℕ) (xs : List ℕ)
    → get_elem? (take 1 xs ++ (n ∷ drop 2 xs)) params_length_offset
      ≡ get_elem? xs params_length_offset
other_byte n [] = refl
other_byte n (x ∷ []) = refl
other_byte n (x ∷ y ∷ xs) = refl

length-one_byte :
    (n : ℕ) (xs : List ℕ) → 2 ≤ length xs → length (take 1 xs ++ (n ∷ drop 2 xs)) ≡ length xs
length-one_byte n [] h = absurd (omega arith)
length-one_byte n (x ∷ []) h = absurd (omega arith)
length-one_byte n (x ∷ y ∷ xs) h = refl

-- On an open message without an error that is being written, for at most 255 bytes that fit the
-- buffer, `setbgpparams_r` succeeds, but the length byte of the parameters stays what it was: the
-- length is stored over the second byte of the marker.
pub setbgpparams_r-misplaced :
    (bytes : List ℕ) (m : Msg)
    → get_elem? m.buf 18 ≡ some bgp_open
    → m.flags.wr ≡ true
    → m.err ≡ enoerr
    → length bytes ≤ 255
    → 29 + length bytes ≤ length m.buf
    → (m' : Msg) × (setbgpparams_r bytes m ≡ some (enoerr, m'))
      × (get_elem? m'.buf params_length_offset ≡ get_elem? m.buf params_length_offset)
      × (get_elem? m'.buf 1 ≡ some (length bytes))
unfolding setbgpparams_r bind_option
setbgpparams_r-misplaced bytes m type wr ok small room = (
  record m {
    buf = take 29 once ++ (bytes ++ drop (29 + length bytes) once);
    pktlen = 29 + length bytes;
  },
  check_type_ok bgp_open (λ f. f.wr) _ _ m type wr ok
      (if_false (ltb 255 (length bytes)) _ _ m (ground arith) (
        step _ (store_lem 1 (length bytes ∷ []) m (omega arith))
          (step _ (store_lem 29 bytes (record m { buf = once }) (omega (arith, same))) refl))),
  get_elem?-write_before 28 29 _ once (omega arith) (omega (arith, same))
      ∙ other_byte (length bytes) m.buf,
  get_elem?-write_before 1 29 _ once (omega arith) (omega (arith, same))
      ∙ one_byte (length bytes) m.buf (omega arith),
)
  where
    once : List ℕ
    once = take 1 m.buf ++ (length bytes ∷ drop 2 m.buf)

    same : length once ≡ length m.buf
    same = length-one_byte (length bytes) m.buf (omega arith)
