-- ===== src/Bgp/Inverse/Start.antt =====
-- `startnlri_r` on an update message in which no field is open.
use isocore.Base.{ℕ, ◌+◌, ◌-◌, ◌%◌, ◌^◌, ◌≡◌, refl, ap, true, false, some}
use isocore.NetAddr.{inet}
use isocore.Bgp.{
  Msg, enoerr, step, bind_option, if_true, if_false, bgp_update, any_flags, base_packet_length,
}
use isocore.Bgp.Pending.{has_pending}
use isocore.Bgp.Start.{dostartnlri, startnlri_r}
use isocore.Bgp.Inverse.Fields.{IsUpdate, check_type_ok, getnlri_r_lem, endpending_none}

abbrev pub nlri_start : ℕ → ℕ → ℕ
nlri_start w a = base_packet_length + 2 + w + 2 + a

-- The iterator on the NLRI field, which is emptied when the packet is written.
abbrev pub at_nlri : ℕ → ℕ → Msg → Msg
at_nlri ptr n m = record m {
  uptr = ptr;
  ustart = ptr;
  uend = (ptr + n) % 2 ^ 64;
  moved = false;
  flags = record m.flags { nlri = true };
}

abbrev pub emptied : ℕ → Msg → Msg
emptied n m = record m { pktlen = (m.pktlen + 65536 - n % 65536) % 65536 }

abbrev pub ipv4 : Msg → Msg
ipv4 m = record m { pfxbuf = record m.pfxbuf { pfx = record m.pfxbuf.pfx { family = inet } } }

module _ (m : Msg) (w a : ℕ) (u : IsUpdate m w a) (closed : has_pending m.flags ≡ false) where
  abbrev ptr : ℕ
  ptr = nlri_start w a

  abbrev n : ℕ
  n = (m.pktlen + 2 ^ 64 - ptr) % 2 ^ 64

  pub startnlri_write :
      m.flags.wr ≡ true → startnlri_r m ≡ some (enoerr, at_nlri ptr n (emptied n m))
  unfolding startnlri_r dostartnlri bind_option
  startnlri_write wr = check_type_ok bgp_update any_flags _ _ m u.type refl u.no_error (
      step _ (endpending_none m closed) (
        step _ (getnlri_r_lem m w a u) (
          step _ (if_true m.flags.wr _ _ m wr refl)
            (ap (λ e. some (e, at_nlri ptr n (emptied n m))) u.no_error))))

  pub startnlri_read : m.flags.wr ≡ false → startnlri_r m ≡ some (enoerr, at_nlri ptr n (ipv4 m))
  unfolding startnlri_r dostartnlri bind_option
  startnlri_read wr = check_type_ok bgp_update any_flags _ _ m u.type refl u.no_error (
      step _ (endpending_none m closed) (
        step _ (getnlri_r_lem m w a u) (
          step _ (if_false m.flags.wr _ _ m wr refl)
            (ap (λ e. some (e, at_nlri ptr n (ipv4 m))) u.no_error))))
