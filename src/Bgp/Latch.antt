-- ===== src/Bgp/Latch.antt =====
-- The error latch: what the checked operations do on a message that has an error.
use isocore.Base.{ℕ, ◌≡◌, ◌≢◌, refl, ap, ◌∙◌, Bool, true, false, if◌then◌else◌, List, none, some}
use isocore.NetAddr.{NetAddrAp}
use isocore.Bgp.{
  Msg, Flags, Err, enoerr, einvop, eio, enomem, ebadhdr, ebadtype, ebadparamlen, ebadwdrwn,
  ebadattr, ebadnlri, is_ok, latch, Alloc, M, check_flags,
}
use isocore.Bgp.Packet.{bgpfinish_r, getbgplength_r}
use isocore.Bgp.Data.{setbgpdata_r}
use isocore.Bgp.Open.{Cap, putbgpcap_r, nextbgpcap_r}
use isocore.Bgp.Attribs.{putbgpattrib_r, nextbgpattrib_r}
use isocore.Bgp.Prefixes.{nextwithdrawn_r, nextnlri_r}
use isocore.Bgp.Put.{putwithdrawn_r, putnlri_r}
use isocore.Bgp.Pending.{endbgpcaps_r, endwithdrawn_r, endbgpattribs_r, endnlri_r}

not_ok : (e : Err) → e ≢ enoerr → is_ok e ≡ false
not_ok enoerr h = absurd (h refl)
not_ok eio h = refl
not_ok einvop h = refl
not_ok enomem h = refl
not_ok ebadhdr h = refl
not_ok ebadtype h = refl
not_ok ebadparamlen h = refl
not_ok ebadwdrwn h = refl
not_ok ebadattr h = refl
not_ok ebadnlri h = refl

-- The operation returns the value and leaves the message so.
abbrev pub Answers : {A : Type 0} → M A → Msg → A → Msg → Type 0
Answers f m a m' = f m ≡ some (a, m')

latch_kept : (b : Bool) (m : Msg) → m.err ≢ enoerr → latch b m ≡ m
latch_kept true m h = refl
latch_kept false m h = ap (λ e. record m { err = e }) (rw (not_ok m.err h))

check_flags_latched :
    {A : Type 0} (has : Flags → Bool) (fail : Err → A) (body : M A) (m : Msg)
    → m.err ≢ enoerr
    → Answers (check_flags has fail body) m (fail m.err) m
unfolding check_flags
check_flags_latched has fail body m h =
    ap (λ m'. if is_ok m'.err then body m' else some (fail m'.err, m'))
      (latch_kept (has m.flags) m h)
    ∙ rw (not_ok m.err h)

-- What all these operations do where the check fails: those that write return `e`, those that read
-- return nothing, and the message is left as `m'`.
pub record AllRefuse (alloc : Alloc) (m m' : Msg) (e : Err) : Type 0 where
  put_nlri : (p : NetAddrAp) → Answers (putnlri_r alloc p) m e m'
  put_withdrawn : (p : NetAddrAp) → Answers (putwithdrawn_r alloc p) m e m'
  put_attribute : (bs : List ℕ) → Answers (putbgpattrib_r bs) m e m'
  put_capability : (c : Cap) → Answers (putbgpcap_r c) m e m'
  set_data : (bs : List ℕ) → Answers (setbgpdata_r alloc bs) m e m'
  finish : Answers bgpfinish_r m none m'

pub record AllReturnNull (alloc : Alloc) (m m' : Msg) : Type 0 where
  next_nlri : Answers (nextnlri_r alloc) m none m'
  next_withdrawn : Answers (nextwithdrawn_r alloc) m none m'
  next_attribute : Answers nextbgpattrib_r m none m'
  next_capability : Answers nextbgpcap_r m none m'
  get_length : Answers getbgplength_r m 0 m'

pub record AllEndsRefuse (m m' : Msg) (e : Err) : Type 0 where
  end_capabilities : Answers endbgpcaps_r m e m'
  end_withdrawn : Answers endwithdrawn_r m e m'
  end_attributes : Answers endbgpattribs_r m e m'
  end_nlri : Answers endnlri_r m e m'

-- Once a message has an error, every one of these operations returns it (or NULL, or 0) and changes
-- nothing, whatever state the message is in.
pub error_latched :
    (alloc : Alloc) (m : Msg)
    → m.err ≢ enoerr
    → AllRefuse alloc m m m.err × AllReturnNull alloc m m × AllEndsRefuse m m m.err
unfolding putnlri_r putwithdrawn_r putbgpattrib_r putbgpcap_r setbgpdata_r bgpfinish_r nextnlri_r
    nextwithdrawn_r nextbgpattrib_r nextbgpcap_r getbgplength_r endbgpcaps_r endwithdrawn_r
    endbgpattribs_r endnlri_r
error_latched alloc m h = (
  record {
    put_nlri = λ p. check_flags_latched _ _ _ m h;
    put_withdrawn = λ p. check_flags_latched _ _ _ m h;
    put_attribute = λ bs. check_flags_latched _ _ _ m h;
    put_capability = λ c. check_flags_latched _ _ _ m h;
    set_data = λ bs. check_flags_latched _ _ _ m h;
    finish = check_flags_latched _ _ _ m h;
  },
  record {
    next_nlri = check_flags_latched _ _ _ m h;
    next_withdrawn = check_flags_latched _ _ _ m h;
    next_attribute = check_flags_latched _ _ _ m h;
    next_capability = check_flags_latched _ _ _ m h;
    get_length = check_flags_latched _ _ _ m h;
  },
  record {
    end_capabilities = check_flags_latched _ _ _ m h;
    end_withdrawn = check_flags_latched _ _ _ m h;
    end_attributes = check_flags_latched _ _ _ m h;
    end_nlri = check_flags_latched _ _ _ m h;
  },
)
