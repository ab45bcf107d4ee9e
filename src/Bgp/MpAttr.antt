-- ===== src/Bgp/MpAttr.antt =====
-- The prefixes inside of the attributes MP_REACH_NLRI and MP_UNREACH_NLRI (src/bgpattribs.c,
-- include/isolario/bgpattribs.h), and the step of the iterators that turns to them (src/bgp.c).
use isocore.Base.{
  ℕ, ◌+◌, ◌-◌, ◌*◌, ◌%◌, ◌^◌, Bool, false, not, ◌==◌, ◌||◌, if◌then◌else◌, none, some, get_elem?,
}
use isocore.NetAddr.{inet, inet6}
use isocore.Bgp.{Err, Alloc, M, ◌>>=◌, ◌>>◌, return, access, modify}
use isocore.Bgp.Fields.{load16}
use isocore.Bgp.Start.{set_family}
use isocore.Bgp.Attribs.{seekbgpattr, is_extended}

-- `getmpafi`, `getmpsafi` and `getmpnlri` of src/bgpattribs.c, on the attribute at an offset: the
-- value starts after the header.
abbrev pub value_of : ℕ → M (ℕ × ℕ)
value_of at = do
  flags ← access (λ m. get_elem? m.buf at)
  low ← access (λ m. get_elem? m.buf (at + 2))
  if is_extended flags
      then (do next ← access (λ m. get_elem? m.buf (at + 3)); return (at + 4, low * 256 + next))
      else return (at + 3, low)

unfoldable pub getmpafi : ℕ → M ℕ
getmpafi at = do (ptr, len) ← value_of at; access (load16 ptr)

unfoldable pub getmpsafi : ℕ → M ℕ
getmpsafi at = do (ptr, len) ← value_of at; access (λ m. get_elem? m.buf (ptr + 2))

-- `getmpnlri`: the offset of the prefixes and their length, a `size_t`.
unfoldable pub getmpnlri : ℕ → M (ℕ × ℕ)
getmpnlri at = do
  (start, len) ← value_of at
  code ← access (λ m. get_elem? m.buf (at + 1))
  ptr ←
      if code == 14
      then (do skip ← access (λ m. get_elem? m.buf (start + 3)); return (start + 3 + skip + 2))
      else return (start + 3)
  return (ptr, (len + 2 ^ 64 - (ptr - start)) % 2 ^ 64)

-- The body of the loop that turns to the multiprotocol attribute, in `nextwithdrawn_r` and
-- `nextnlri_r`. The result says whether there are prefixes to read.
unfoldable pub enter_mp : Alloc → ℕ → Err → M Bool
enter_mp alloc code bad = do
  attr ← seekbgpattr alloc code
  elim attr [
    | none ↦ return false
    | some at ↦ (do
      afi ← getmpafi at
      safi ← getmpsafi at
      if not (safi == 1 || safi == 2)
          then (do modify (λ m. record m { err = bad }); return false)
          else (if not (afi == 1 || afi == 2)
              then (do modify (λ m. record m { err = bad }); return false)
              else (do
                set_family (if afi == 1 then inet else inet6)
                (ptr, n) ← getmpnlri at
                modify λ m. record m {
                  ustart = ptr;
                  uptr = ptr;
                  uend = (ptr + n) % 2 ^ 64;
                  moved = false;
                }
                return (not (ptr == (ptr + n) % 2 ^ 64)))))
  ]
