-- ===== src/Mrt/Rib/Families.antt =====
-- The families of a RIB (src/mrt.c), by its subtype or in the packet, and the sizes of its prefix.
use isocore.Base.{
  ℕ, ◌+◌, ◌≤◌, ◌<◌, ◌≡◌, refl, ap, arith, Bool, true, false, if◌then◌else◌, List, [], ◌∷◌, ◌++◌,
  none, some, length, replicate,
}
use isocore.Base.Bytes.{write_bytes, big16, big32, from_big-big16}
use isocore.Base.Window.{window-head}
use isocore.NetAddr.{naddrsize}
use isocore.Mrt.{ebadribent, MrtMsg, fault, ok, return, byte, afi_ipv4, afi_ipv6}
use isocore.Mrt.Headers.Inverse.{family}
use isocore.Mrt.Rib.{generic_families, safi_unicast, safi_multicast, families_of, family_of}
use isocore.Mrt.Run.{Runs, run, computes, Front, Front-advance, number_front, bounds_front}

-- What the subtype says: whether the families are in the packet, and which they are.
pub record RibKind : Type 0 where
  pub generic : Bool
  pub addpath : Bool
  pub v6 : Bool
  pub multicast : Bool

abbrev pub subtype_of : RibKind → ℕ
subtype_of k =
    (if k.generic then 6 else 2 + (if k.v6 then 2 else 0) + (if k.multicast then 1 else 0))
    + (if k.addpath then 6 else 0)

abbrev pub afi_of : Bool → ℕ
afi_of v6 = if v6 then afi_ipv6 else afi_ipv4

abbrev pub safi_of : Bool → ℕ
safi_of multicast = if multicast then safi_multicast else safi_unicast

abbrev pub encode_families : RibKind → List ℕ
encode_families k = if k.generic then big16 (afi_of k.v6) ++ (safi_of k.multicast ∷ []) else []

abbrev pub families_size : Bool → ℕ
families_size generic = if generic then 3 else 0

-- The bytes of a RIB's header, and what follows.
abbrev pub encode_rib : RibKind → ℕ → ℕ → List ℕ → ℕ → List ℕ → List ℕ
encode_rib k seqno bitlen prefix count rest =
    big32 seqno ++ (encode_families k ++ ((bitlen ∷ []) ++ (prefix ++ (big16 count ++ rest))))

pub byte_front :
    (m : MrtMsg) (ptr end b : ℕ) (ys : List ℕ)
    → Front m.buf ptr end (b ∷ ys)
    → Runs (byte ptr) m (ok b m)
unfolding byte
byte_front m ptr end b ys f = record {
  eq = ap (λ o. elim o [ none ↦ fault | some b ↦ ok b m ]) (window-head m.buf ptr end b ys f.front);
}

small_afi : (v6 : Bool) → afi_of v6 < 65536
small_afi true = omega arith
small_afi false = omega arith

module _ (m : MrtMsg) (ptr end : ℕ) (rest : List ℕ) where
  read_families :
      (v6 multicast : Bool)
      → Front m.buf ptr end ((big16 (afi_of v6) ++ (safi_of multicast ∷ [])) ++ rest)
      → Runs (generic_families ptr end) m (ok (afi_of v6, safi_of multicast, ptr + 3) m)
  unfolding generic_families
  read_families v6 multicast f =
      run _
        (bounds_front m (big16 (afi_of v6) ++ (safi_of multicast ∷ [])) rest 3 refl f ebadribent)
        (run _
          (number_front m (big16 (afi_of v6)) _ 2 refl f
            (from_big-big16 (afi_of v6) (small_afi v6)))
          (run _
            (byte_front m (ptr + 2) end (safi_of multicast) rest
              (Front-advance (big16 (afi_of v6)) _ 2 refl f))
            computes))

  no_families :
      (afi safi : ℕ) → Runs {A = ℕ × ℕ × ℕ} (return (afi, safi, ptr)) m (ok (afi, safi, ptr + 0) m)
  no_families afi safi = record { eq = ap (λ p. ok (afi, safi, p) m) (omega arith) }

pub families_of_lem :
    (m : MrtMsg) (ptr end : ℕ) (rest : List ℕ) (generic addpath v6 multicast : Bool)
    → (let k : RibKind = record {
      generic = generic;
      addpath = addpath;
      v6 = v6;
      multicast = multicast;
    } in
        Front m.buf ptr end (encode_families k ++ rest)
        → Runs
            (families_of (subtype_of k) ptr end)
            m
            (ok (afi_of v6, safi_of multicast, ptr + families_size generic) m))
unfolding families_of
families_of_lem m ptr end rest true true v6 multi f = read_families m ptr end rest v6 multi f
families_of_lem m ptr end rest true false v6 multi f = read_families m ptr end rest v6 multi f
families_of_lem m ptr end rest false true true true f = no_families m ptr end rest _ _
families_of_lem m ptr end rest false true true false f = no_families m ptr end rest _ _
families_of_lem m ptr end rest false true false true f = no_families m ptr end rest _ _
families_of_lem m ptr end rest false true false false f = no_families m ptr end rest _ _
families_of_lem m ptr end rest false false true true f = no_families m ptr end rest _ _
families_of_lem m ptr end rest false false true false f = no_families m ptr end rest _ _
families_of_lem m ptr end rest false false false true f = no_families m ptr end rest _ _
families_of_lem m ptr end rest false false false false f = no_families m ptr end rest _ _

pub family_of_lem :
    (m : MrtMsg) (v6 multicast : Bool)
    → Runs (family_of (afi_of v6) (safi_of multicast)) m (ok (family v6) m)
unfolding family_of
family_of_lem m true true = computes
family_of_lem m true false = computes
family_of_lem m false true = computes
family_of_lem m false false = computes

pub length-encode_families : (k : RibKind) → length (encode_families k) ≡ families_size k.generic
length-encode_families k = by_kind k.generic
  where
    by_kind :
        (b : Bool)
        → length (if b then big16 (afi_of k.v6) ++ (safi_of k.multicast ∷ []) else [])
          ≡ families_size b
    by_kind true = refl
    by_kind false = refl

pub naddrsize_small : (b : ℕ) → b ≤ 128 → naddrsize b ≤ 16
unfolding naddrsize
naddrsize_small b h = ground (arith, h)

pub naddrsize_large : (b : ℕ) → 128 < b → 16 < naddrsize b
unfolding naddrsize
naddrsize_large b h = ground (arith, h)

pub too_long : (bs : List ℕ) → 16 < length bs → write_bytes (replicate 16 0) 0 bs ≡ none
unfolding write_bytes
too_long bs h = ground (arith, h)
