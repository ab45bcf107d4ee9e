-- ===== src/Mrt/Open/Fill.antt =====
-- How the buffer of a packet is filled (src/mrt.c), and what the message then holds.
use isocore.Base.{
  ℕ, ◌%◌, ◌^◌, ◌+◌, ◌*◌, ◌≤◌, ◌≡◌, ◌≢◌, refl, sym, arith, ◌⊎◌, inl, inr, Bool, true, false, ◌==◌,
  Bool-cases, ==_iff, if◌then◌else◌, List, ◌++◌, none, some, length, take, drop, length-append,
  length-drop,
}
use mathlib.Core.Path.{subst}
use isocore.Base.Bytes.{read_bytes, write_bytes, from_big, take-append_eq, write_front}
use isocore.Mrt.{
  MrtErr, enoerr, eio, ebadhdr, MrtFlags, MrtHeader, MrtMsg, Outcome, fault, fails, ok,
  message_offset,
}
use isocore.Mrt.Table.{mrtflags}
use isocore.Mrt.Open.{MrtAlloc, Stream, finish_read, fill_buffer}
use isocore.Mrt.Safe.{InPlace}

-- `malloc` returns blocks of the size asked for, and a stream at most the bytes asked for.
pub record Sized (alloc : MrtAlloc) : Type 0 where
  pub sized : (n : ℕ) (block : List ℕ) → alloc n ≡ some block → length block ≡ n

pub record Bounded {S : Type 0} (io : Stream S) : Type 0 where
  pub bounded : (s : S) (n : ℕ) → length ((io.read s n).0) ≤ n

-- The message holds the packet of a decoded header `h` with the bytes `bs`, and has the flags for it.
pub record Opened (h : MrtHeader) (bs : List ℕ) (m : MrtMsg) : Type 0 where
  pub in_place : InPlace m
  pub packet : take (message_offset + m.hdr.len) m.buf ≡ bs
  pub type : m.hdr.type ≡ h.type
  pub subtype : m.hdr.subtype ≡ h.subtype
  pub len : m.hdr.len ≡ h.len
  pub flags : m.flags ≡ record (mrtflags h.type h.subtype) { rd = true }
  pub valid : (mrtflags h.type h.subtype).valid ≡ true
  pub err : m.err ≡ enoerr
  pub no_index : m.peer_index ≡ false

-- The message that was refused for a cause: its flags and its error are as before.
pub record Refused (Cause : MrtErr → Type 0) (m : MrtMsg) (e : MrtErr) (m' : MrtMsg) : Type 0 where
  pub cause : Cause e
  pub flags : m'.flags ≡ m.flags
  pub err : m'.err ≡ m.err
  pub error : e ≢ enoerr

module _ {S : Type 0} (Cause : MrtErr → Type 0) (m : MrtMsg) (h : MrtHeader) (bs : List ℕ) where
  abbrev pub Result : Outcome (MrtErr × S) → Type 0
  Result fault = ⊥
  Result (fails m') = ⊥
  Result (ok (e, s) m') = Refused Cause m e m' ⊎ ((e ≡ enoerr) × Opened h bs m')

  pub Result-if :
      (b : Bool) (x y : Outcome (MrtErr × S))
      → (b ≡ true → Result x)
      → (b ≡ false → Result y)
      → Result (if b then x else y)
  Result-if true x y t f = t refl
  Result-if false x y t f = f refl

-- The message that `finish_read` leaves.
abbrev opened_with : MrtFlags → ℕ → ℕ → MrtMsg → MrtMsg
opened_with flags n nsec m = record m {
  hdr = record m.hdr { tv_nsec = nsec };
  flags = record flags { rd = true };
  err = enoerr;
  bufsiz = n % 2 ^ 32;
  peer_index = false;
  pitab = none;
}

finish_read_lem :
    (flags : MrtFlags) (n : ℕ) (m : MrtMsg)
    → 16 ≤ length m.buf
    → (nsec : ℕ) × (finish_read flags n m ≡ ok enoerr (opened_with flags n nsec m))
unfolding finish_read read_bytes
finish_read_lem flags n m h = elim (Bool-cases flags.is_ext) [
  | inl t ↦ (from_big (take 4 (drop 12 m.buf)) 0 * 1000, ground (arith, t, h))
  | inr f ↦ (m.hdr.tv_nsec, ground (arith, f))
]

module _ {S : Type 0} (io : Stream S) (few : Bounded io) (m : MrtMsg) (h : MrtHeader) (hdr : List ℕ)
    (twelve : length hdr ≡ 12) (s : S) (valid : (mrtflags h.type h.subtype).valid ≡ true)
    (Cause : MrtErr → Type 0)
    (short : length ((io.read s h.len).0) ≢ h.len
      → Cause (if io.error (io.read s h.len).1 then eio else ebadhdr)) where
  abbrev body : List ℕ
  body = (io.read s h.len).0

  abbrev flags : MrtFlags
  flags = mrtflags h.type h.subtype

  -- The buffer holds the packet where there was room for it.
  pub fill_buffer-Opened :
      (fast : Bool) (block : List ℕ)
      → 12 + h.len ≤ length block
      → 16 ≤ length block
      → Result {S = S} Cause m h
          (hdr ++ body)
          (fill_buffer io s hdr flags fast (some block) (record m { hdr = h }))
  unfolding fill_buffer
  fill_buffer-Opened fast block room sixteen =
      subst (λ o. Result Cause m h (hdr ++ body) (elim o [ none ↦ fault | some b ↦ filled b ]))
        (sym write)
        (Result-if Cause m h (hdr ++ body) (length body == h.len) (finished bs) _ (λ t. done t)
          (λ f. refused (io.error (io.read s h.len).1) (short (λ e. ground (arith, e, f)))))
    where
      bs : List ℕ
      bs = (hdr ++ body) ++ drop (length (hdr ++ body)) block

      at : List ℕ → MrtMsg
      at b = record m { hdr = h; buf = b; fast = fast }

      finished : List ℕ → Outcome (MrtErr × S)
      finished b = elim (finish_read flags (h.len + 12) (at b)) [
        | fault ↦ fault
        | fails m' ↦ fails m'
        | ok e m' ↦ ok (e, (io.read s h.len).1) m'
      ]

      filled : List ℕ → Outcome (MrtErr × S)
      filled b =
          if length body == h.len
          then finished b
          else ok (if io.error (io.read s h.len).1 then eio else ebadhdr, (io.read s h.len).1)
              (at b)

      total : length (hdr ++ body) ≤ length block
      total = omega (arith, room, few.bounded s h.len, twelve, length-append hdr body)

      write : write_bytes block 0 (hdr ++ body) ≡ some bs
      write = write_front block (hdr ++ body) total

      length_bs : length bs ≡ length block
      length_bs = omega (
        arith,
        total,
        length-append (hdr ++ body) (drop (length (hdr ++ body)) block),
        length-drop (length (hdr ++ body)) block,
      )

      done : (length body == h.len) ≡ true → Result Cause m h (hdr ++ body) (finished bs)
      done t =
          let (nsec, e) =
            finish_read_lem flags (h.len + 12) (at bs) (omega (arith, sixteen, length_bs)) in
          subst
            (λ o. Result Cause m h (hdr ++ body) (elim o [
              | fault ↦ fault
              | fails m' ↦ fails m'
              | ok e m' ↦ ok (e, (io.read s h.len).1) m'
            ]))
            (sym e)
            (inr (
              refl,
              record {
                in_place = record { fits = omega (arith, room, length_bs) };
                packet = take-append_eq (12 + h.len) (hdr ++ body) _ (
                    omega
                      (arith, twelve, (==_iff (length body) h.len).0 t, length-append hdr body));
                type = refl;
                subtype = refl;
                len = refl;
                flags = refl;
                valid = valid;
                err = refl;
                no_index = refl;
              },
            ))

      refused :
          (b : Bool)
          → Cause (if b then eio else ebadhdr)
          → Result Cause m h
              (hdr ++ body)
              (ok (if b then eio else ebadhdr, (io.read s h.len).1) (at bs))
      refused true c = inl (record { cause = c; flags = refl; err = refl; error = λ e. cc })
      refused false c = inl (record { cause = c; flags = refl; err = refl; error = λ e. cc })
