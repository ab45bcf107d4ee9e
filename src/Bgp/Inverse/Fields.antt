-- ===== src/Bgp/Inverse/Fields.antt =====
-- Where the fields of an update message are, and the start of an iteration over them.
use isocore.Base.{
  ℕ, ◌+◌, ◌-◌, ◌%◌, ◌^◌, ◌≡◌, refl, arith, Bool, true, false, Option, some, get_elem?,
}
use isocore.Bgp.{
  Msg, Flags, Err, enoerr, M, step, bind_option, check_type, check_flags_ok, access-some,
  bgp_update, any_flags, type_offset, base_packet_length,
}
use isocore.Bgp.Fields.{load16, getwithdrawn_r, getbgpattribs_r, getnlri_r}
use isocore.Bgp.Pending.{endpending, has_pending}

pub check_type_ok :
    {A : Type 0} (type : ℕ) (has : Flags → Bool) (fail : Err → A) (body : M A) (m : Msg)
    {r : Option (A × Msg)}
    → get_elem? m.buf type_offset ≡ some type
    → has m.flags ≡ true
    → m.err ≡ enoerr
    → body m ≡ r
    → check_type type has fail body m ≡ r
unfolding check_type
check_type_ok type has fail body m t h ok b =
    rw (t, check_type) (check_flags_ok _ fail body m (ground (arith, h)) ok b)

-- An open update message without errors, with its two length fields.
pub record IsUpdate (m : Msg) (w a : ℕ) : Type 0 where
  pub type : get_elem? m.buf type_offset ≡ some bgp_update
  pub no_error : m.err ≡ enoerr
  pub withdrawn : load16 base_packet_length m ≡ some w
  pub attributes : load16 (base_packet_length + 2 + w) m ≡ some a

module _ (m : Msg) (w a : ℕ) (u : IsUpdate m w a) where
  pub getwithdrawn_r_lem : getwithdrawn_r m ≡ some (some (base_packet_length + 2, w), m)
  unfolding getwithdrawn_r bind_option
  getwithdrawn_r_lem =
      check_type_ok bgp_update any_flags _ _ m u.type refl u.no_error
        (step _ (access-some (load16 base_packet_length) m u.withdrawn) refl)

  pub getbgpattribs_r_lem : getbgpattribs_r m ≡ some (some (base_packet_length + 2 + w + 2, a), m)
  unfolding getbgpattribs_r bind_option
  getbgpattribs_r_lem = check_type_ok bgp_update any_flags _ _ m u.type refl u.no_error (
      step _ getwithdrawn_r_lem
        (step _ (access-some (load16 (base_packet_length + 2 + w)) m u.attributes) refl))

  -- The NLRI field is what follows the other two, up to the end of the packet.
  pub getnlri_r_lem :
      let ptr = base_packet_length + 2 + w + 2 + a in
      getnlri_r m ≡ some (some (ptr, (m.pktlen + 2 ^ 64 - ptr) % 2 ^ 64), m)
  unfolding getnlri_r bind_option
  getnlri_r_lem =
      check_type_ok bgp_update any_flags _ _ m u.type refl u.no_error
        (step _ getbgpattribs_r_lem refl)

pub endpending_none : (m : Msg) → has_pending m.flags ≡ false → endpending m ≡ some (m.err, m)
unfolding endpending bind_option
endpending_none m e = rw e
