-- ===== src/Bgp/Open.antt =====
-- Open messages (src/bgp.c): the fixed fields and the capabilities in the optional parameters.
use isocore.Base.{
  ℕ, zero, suc, ◌+◌, ◌%◌, true, false, ltb, leb, ◌==◌, if◌then◌else◌, List, [], ◌∷◌, Option, none,
  some, length, get_elem?,
}
use isocore.Base.Bytes.{read_bytes, big16}
use isocore.Bgp.{
  Err, enoerr, einvop, ebadparamlen, M, ◌>>=◌, ◌>>◌, return, access, gets, modify, check_flags,
  check_type, any_flags, bgp_open, version_offset, hold_time_offset, my_as_offset, iden_offset,
  params_length_offset, params_offset,
}
use isocore.Bgp.Fields.{load16, store}
use isocore.Bgp.Pending.{endpending}

-- `bgp_open_t`; the identifier is kept as its four bytes.
pub record OpenMsg : Type 0 where
  pub version : ℕ
  pub hold_time : ℕ
  pub my_as : ℕ
  pub iden : List ℕ

-- `getbgpopen_r`
unfoldable pub getbgpopen_r : M (Option OpenMsg)
getbgpopen_r =
    check_type bgp_open (λ f. f.rd) (λ _. none)
      do
        version ← access (λ m. get_elem? m.buf version_offset)
        hold_time ← access (load16 hold_time_offset)
        my_as ← access (load16 my_as_offset)
        iden ← access (λ m. read_bytes m.buf iden_offset 4)
        return
            (some (record { version = version; hold_time = hold_time; my_as = my_as; iden = iden }))

-- `setbgpopen_r`
unfoldable pub setbgpopen_r : OpenMsg → M Err
setbgpopen_r op =
    check_type bgp_open (λ f. f.wr) (λ e. e)
      do
        store version_offset (op.version ∷ [])
        store hold_time_offset (big16 op.hold_time)
        store my_as_offset (big16 op.my_as)
        store iden_offset op.iden
        return enoerr

-- `getbgpparams_r`: the offset of the parameters and their length, or NULL.
unfoldable pub getbgpparams_r : M (Option (ℕ × ℕ))
getbgpparams_r =
    check_type bgp_open any_flags (λ _. none)
      do n ← access (λ m. get_elem? m.buf params_length_offset); return (some (params_offset, n))

-- `PARAM_LENGTH_OFFSET`, the offset of the length inside of a parameter.
abbrev pub param_length_offset : ℕ
param_length_offset = 1

-- `setbgpparams_r`: it stores the length at `buf[PARAM_LENGTH_OFFSET]`.
unfoldable pub setbgpparams_r : List ℕ → M Err
setbgpparams_r bytes =
    check_type bgp_open (λ f. f.wr) (λ e. e)
      do
        let n = length bytes
        if ltb 255 n then (do modify (λ m. record m { err = einvop }); return einvop) else (do
          store param_length_offset (n ∷ [])
          store params_offset bytes
          modify (λ m. record m { pktlen = params_offset + n })
          return enoerr)

-- NULL is offset 0.
abbrev pointer_of : Option (ℕ × ℕ) → ℕ
pointer_of none = 0
pointer_of (some (ptr, n)) = ptr

-- `startbgpcaps_r`
unfoldable pub startbgpcaps_r : M Err
startbgpcaps_r =
    check_type bgp_open any_flags (λ e. e)
      do
        endpending
        modify (λ m. record m { flags = record m.flags { pm = true } })
        p ← getbgpparams_r
        let start = pointer_of p
        modify (λ m. record m { params = start; pptr = start })
        return enoerr

-- `bgpcap_t`
pub record Cap : Type 0 where
  pub code : ℕ
  pub len : ℕ
  pub content : List ℕ

-- `putbgpcap_r`; the header of the parameter is written before the size is checked.
unfoldable pub putbgpcap_r : Cap → M Err
putbgpcap_r cap =
    check_flags (λ f. if f.wr then f.pm else false) (λ e. e)
      do
        ptr ← gets (λ m. m.pptr)
        params ← gets (λ m. m.params)
        ptr' ←
            if ptr == params
            then (do
              store ptr (2 ∷ 0 ∷ [])
              modify (λ m. record m { pktlen = (m.pktlen + 2) % 65536 })
              return (ptr + 2))
            else return ptr
        let n = 2 + cap.len
        if ltb 255 n then (do modify (λ m. record m { err = einvop }); return einvop) else (do
          bs ← access (λ _. read_bytes (cap.code ∷ cap.len ∷ cap.content) 0 n)
          store ptr' bs
          modify (λ m. record m { pktlen = (m.pktlen + n) % 65536; pptr = ptr' + n })
          return enoerr)

-- What the loop of `nextbgpcap_r` leaves: a capability parameter was found at the pointer, or the
-- parameters are over, with or without an error.
pub data Scan : Type 0 where
  found : ℕ → ℕ → ℕ → Scan
  over : ℕ → Scan
  overrun : ℕ → Scan

-- The loop of `nextbgpcap_r` over `ptr`, `msg->params` and `end`, on fuel; `none` is a read out of
-- range or a lack of fuel. While it runs, `ptr` and `msg->params` are equal on entry, so it goes on
-- as long as parameters are skipped.
unfoldable pub skip_params : ℕ → List ℕ → ℕ → ℕ → ℕ → Option Scan
skip_params zero buf limit ptr end = none
skip_params (suc fuel) buf limit ptr end =
    let rest : Option Scan = elim (get_elem? buf (end + 1)) [
      | none ↦ none
      | some n ↦ skip_params fuel buf limit end (end + 2 + n)
    ] in
    if leb limit ptr
    then (if ltb limit ptr then some (overrun ptr) else some (over ptr))
    else (elim (get_elem? buf ptr) [
      | none ↦ none
      | some code ↦ if code == 2 then some (found (ptr + 2) end ptr) else rest
    ])

-- The last check of `nextbgpcap_r`: the capability lies within its parameter.
unfoldable pub take_cap : ℕ → ℕ → M (Option ℕ)
take_cap ptr end = do
  n ← access (λ m. get_elem? m.buf (ptr + 1))
  if ltb end (ptr + n + 2)
      then (do modify (λ m. record m { err = ebadparamlen }); return none)
      else (do modify (λ m. record m { pptr = ptr + 2 + n }); return (some ptr))

-- `nextbgpcap_r`: the offset of the next capability, or NULL. When the current parameter is used up
-- (`ptr == end`), `end` stays where that parameter ends.
unfoldable pub nextbgpcap_r : M (Option ℕ)
nextbgpcap_r =
    check_flags (λ f. if f.rd then f.pm else false) (λ _. none)
      do
        p ← getbgpparams_r
        (base, n) ← access (λ _. p)
        let limit = base + n
        params ← gets (λ m. m.params)
        plen ← access (λ m. get_elem? m.buf (params + 1))
        let end = params + 2 + plen
        ptr ← gets (λ m. m.pptr)
        modify (λ m. record m { params = if ptr == end then end else params })
        if ptr == (if ptr == end then end else params)
            then (do
              s ← access (λ m. skip_params 256 m.buf limit ptr end)
              elim s [
                | found ptr' end' at ↦ (do
                  modify (λ m. record m { params = at })
                  take_cap ptr' end')
                | over at ↦ (do modify (λ m. record m { params = at }); return none)
                | overrun at ↦ (do
                  modify (λ m. record m { params = at; err = ebadparamlen })
                  return none)
              ])
            else take_cap ptr end
