-- ===== src/Mrt/Packet.antt =====
-- A BGP4MP packet from the stream to the BGP message in it (src/mrt.c).
use isocore.Base.{
  ℕ, ◌+◌, ◌^◌, ◌≤◌, ◌<◌, ◌≡◌, ◌≢◌, refl, sym, ap, ◌∙◌, arith, inl, inr, Bool, true, false, ◌&&◌,
  if◌then◌else◌, List, ◌++◌, append_assoc, none, some, length, take, length-append, length-take,
  ap₂,
}
use mathlib.Core.Path.{subst}
use isocore.Base.Bytes.{read_bytes, big16, big32, from_big-big16, from_big-big32, take-append_eq}
use isocore.Mrt.{MrtErr, enoerr, MrtMsg, MrtHeader, Outcome, fault, fails, ok}
use isocore.Mrt.Table.{mrtflags}
use isocore.Mrt.Open.{MrtAlloc, io_mem, setmrtread_r}
use isocore.Mrt.Open.Opened.{
  header_of, Cause, bad_header, bad_type, bad_subtype, bad_entry, bad_memory, bad_body,
  setmrtreadfrom_r-Opened,
}
use isocore.Mrt.Open.Fill.{Sized, Bounded, Opened, Result}
use isocore.Mrt.Headers.{getbgp4mpheader_r, unwrapbgp4mp_r, start_of, end_of}
use isocore.Mrt.Headers.Inverse.{
  Session, encode_bgp4mp, states, state, header_of as session_header, Sized as SizedSession,
}
use isocore.Mrt.Headers.Written.{
  payload as message, at_payload, getbgp4mpheader_r_lem, unwrapbgp4mp_r_lem,
}
use isocore.Mrt.Run.{Front, Front-prefix, read_front_all}

pub io_mem-Bounded : Bounded io_mem
io_mem-Bounded = record { bounded = λ s n. omega (arith, length-take n s) }

-- A packet's header.
abbrev pub encode_header : ℕ → ℕ → ℕ → ℕ → List ℕ
encode_header sec type subtype len = big32 sec ++ (big16 type ++ (big16 subtype ++ big32 len))

-- A time, a type and a subtype that fit, and are in the table, for a body of `len` bytes.
pub record Known (sec type subtype len : ℕ) : Type 0 where
  pub small_sec : sec < 2 ^ 32
  pub small_len : len < 2 ^ 32
  pub low : 5 ≤ type
  pub high : type ≤ 17
  pub small_subtype : subtype < 13
  pub entry : (mrtflags type subtype).valid ≡ true

module _ (alloc : MrtAlloc) (blocks : Sized alloc) (memory : (n : ℕ) → alloc n ≢ none)
    (fastbuf : List ℕ) (fast_size : length fastbuf ≡ 4096) (sec type subtype : ℕ)
    (body rest : List ℕ) (known : Known sec type subtype (length body)) (m : MrtMsg) where
  abbrev head : List ℕ
  head = encode_header sec type subtype (length body)

  abbrev input : List ℕ
  input = head ++ (body ++ rest)

  abbrev h : MrtHeader
  h = header_of alloc blocks fastbuf fast_size io_mem io_mem-Bounded input

  is_type : h.type ≡ type
  is_type = from_big-big16 type (omega (arith, known.high))

  is_subtype : h.subtype ≡ subtype
  is_subtype = from_big-big16 subtype (omega (arith, known.small_subtype))

  is_len : h.len ≡ length body
  is_len = from_big-big32 (length body) (omega (arith, known.small_len))

  body_read : take h.len (body ++ rest) ≡ body
  body_read = take-append_eq h.len body rest is_len

  no_refusal : (e : MrtErr) → Cause alloc blocks fastbuf fast_size io_mem io_mem-Bounded input e → ⊥
  no_refusal _ (bad_header d) = d refl
  no_refusal _ (bad_type t) = ground (arith, t, is_type, known.low, known.high)
  no_refusal _ (bad_subtype t) = omega (arith, t, is_subtype, known.small_subtype)
  no_refusal _ (bad_entry t) =
      ground (arith, sym t ∙ (ap₂ (λ a b. (mrtflags a b).valid) is_type is_subtype ∙ known.entry))
  no_refusal _ (bad_memory t) = memory (h.len + 12) t
  no_refusal _ (bad_body d) = d (ap length body_read ∙ sym is_len)

  -- The outcome is that of a packet that is opened.
  abbrev Accepted : Outcome (MrtErr × List ℕ) → Type 0
  Accepted o =
      (m' : MrtMsg) × (left : List ℕ) × (o ≡ ok (enoerr, left) m')
      × Opened h (head ++ take h.len (body ++ rest)) m'

  not_refused :
      (o : Outcome (MrtErr × List ℕ))
      → Result
          (Cause alloc blocks fastbuf fast_size io_mem io_mem-Bounded input)
          m
          h
          (head ++ take h.len (body ++ rest))
          o
      → Accepted o
  not_refused fault r = absurd r
  not_refused (fails m') r = absurd r
  not_refused (ok (e, left) m') (inl refused) = absurd (no_refusal e refused.cause)
  not_refused (ok (e, left) m') (inr (done, opened)) =
      (m', left, ap (λ e. ok (e, left) m') done, opened)

  opened : Accepted (setmrtread_r alloc fastbuf input m)
  unfolding setmrtread_r
  opened =
      not_refused _
        (setmrtreadfrom_r-Opened alloc blocks fastbuf fast_size io_mem io_mem-Bounded input m)

-- A BGP4MP packet: the microseconds of an extended one, the session, and the BGP message.
abbrev pub bgp4mp_body : ℕ → ℕ → List ℕ → Session → List ℕ → List ℕ
bgp4mp_body type subtype usec s payload =
    usec ++ encode_bgp4mp (mrtflags type subtype).as32 s payload

-- The type and the subtype are those of a wrapped BGP message.
pub record Wraps (type subtype : ℕ) : Type 0 where
  pub is_bgp : (mrtflags type subtype).is_bgp ≡ true
  pub wraps_bgp : (mrtflags type subtype).wraps_bgp ≡ true
  pub no_state : (mrtflags type subtype).has_state ≡ false

-- The header's operations on a message that holds such a packet.
module _ (type subtype : ℕ) (usec : List ℕ) (s : Session) (payload head : List ℕ)
    (twelve : length head ≡ 12) (wraps : Wraps type subtype)
    (sized : SizedSession (mrtflags type subtype).as32 s)
    (ext : length usec ≡ (if (mrtflags type subtype).is_ext then 4 else 0)) (m : MrtMsg)
    (live : m.err ≡ enoerr) (flags : m.flags ≡ record (mrtflags type subtype) { rd = true })
    (fits : end_of m ≤ length m.buf)
    (holds : take (end_of m) m.buf ≡ head ++ bgp4mp_body type subtype usec s payload) where
  starts :
      (b : Bool)
      → length usec ≡ (if b then 4 else 0)
      → length (head ++ usec) ≡ (if b then 16 else 12)
  starts true e = omega (arith, e, twelve, length-append head usec)
  starts false e = omega (arith, e, twelve, length-append head usec)

  start : length (head ++ usec) ≡ start_of m
  start =
      starts (mrtflags type subtype).is_ext ext ∙ sym (ap (λ f. if f.is_ext then 16 else 12) flags)

  sized_here : SizedSession m.flags.as32 s
  sized_here = subst (λ f. SizedSession f.as32 s) (sym flags) sized

  written : Front m.buf (start_of m) (end_of m) (encode_bgp4mp m.flags.as32 s payload)
  written = Front-prefix m.buf (start_of m) (end_of m) (head ++ usec) _ fits start (
      holds
      ∙ (sym (append_assoc head usec _)
          ∙ ap (λ f. (head ++ usec) ++ encode_bgp4mp f.as32 s payload) (sym flags)))

  no_state : m.flags.has_state ≡ false
  no_state = ap (λ f. f.has_state) flags ∙ wraps.no_state

  header_here :
      getbgp4mpheader_r m
      ≡ ok (session_header s 0 0) (record m { bgp4mphdr = session_header s 0 0 })
  header_here =
      subst
        (λ v.
          getbgp4mpheader_r m
          ≡ ok (session_header s v v) (record m { bgp4mphdr = session_header s v v }))
        (ap (λ b. state b 0) no_state)
        (getbgp4mpheader_r_lem m live s sized_here payload written 0 0 payload (omega arith)
          (omega arith) (sym (ap (λ b. states b 0 0 ++ payload) no_state))
          (ap (λ f. f.rd && f.is_bgp) flags ∙ wraps.is_bgp)).eq

  abbrev at : ℕ
  at = message m live s sized_here payload written

  message_here :
      (unwrapbgp4mp_r m ≡ ok (at, length payload) m)
      × (read_bytes m.buf at (length payload) ≡ some payload)
  message_here =
      let (n, read) =
        read_front_all m at (end_of m) payload (at_payload m live s sized_here payload written) in
      (
        (unwrapbgp4mp_r_lem m live s sized_here payload written
              (ap (λ f. f.rd && f.wraps_bgp) flags ∙ wraps.wraps_bgp)).eq
            ∙ ap (λ n. ok (at, n) m) n,
        read,
      )

module _ (alloc : MrtAlloc) (blocks : Sized alloc) (memory : (n : ℕ) → alloc n ≢ none)
    (fastbuf : List ℕ) (fast_size : length fastbuf ≡ 4096) (sec type subtype : ℕ) (usec : List ℕ)
    (s : Session) (payload rest : List ℕ) where
  abbrev bgp_body : List ℕ
  bgp_body = bgp4mp_body type subtype usec s payload

  abbrev packet : List ℕ
  packet = encode_header sec type subtype (length bgp_body) ++ (bgp_body ++ rest)

  -- A BGP4MP packet that is written for a session and a BGP message, with a known type and subtype
  -- that wrap a message, numbers and addresses that fit, four bytes of microseconds where the type is
  -- extended and none otherwise, and memory for it: `setmrtread_r` opens it, also when more bytes follow,
  -- `getbgp4mpheader_r` then returns the session, with no states, and `unwrapbgp4mp_r` the offset and the
  -- length of that message, which is there in the packet.
  pub setmrtread_r-unwrapbgp4mp_r :
      (m : MrtMsg)
      → Known sec type subtype (length bgp_body)
      → Wraps type subtype
      → SizedSession (mrtflags type subtype).as32 s
      → length usec ≡ (if (mrtflags type subtype).is_ext then 4 else 0)
      → (m' : MrtMsg) × (left : List ℕ) × (setmrtread_r alloc fastbuf packet m
          ≡ ok (enoerr, left) m')
        × (getbgp4mpheader_r m'
            ≡ ok (session_header s 0 0) (record m' { bgp4mphdr = session_header s 0 0 }))
        × (ptr : ℕ) × (unwrapbgp4mp_r m' ≡ ok (ptr, length payload) m')
        × (read_bytes m'.buf ptr (length payload) ≡ some payload)
  setmrtread_r-unwrapbgp4mp_r m known wraps sized ext =
      let (m', left, accepted, o) =
        opened alloc blocks memory fastbuf fast_size sec type subtype bgp_body rest known m in
      (
        m',
        left,
        accepted,
        header_here type subtype usec s payload head12 refl wraps sized ext m' o.err (flags m' o)
            o.in_place.fits (holds m' o),
        at type subtype usec s payload head12 refl wraps sized ext m' o.err (flags m' o)
            o.in_place.fits (holds m' o),
        (message_here type subtype usec s payload head12 refl wraps sized ext m' o.err (flags m' o)
            o.in_place.fits (holds m' o)).0,
        (message_here type subtype usec s payload head12 refl wraps sized ext m' o.err (flags m' o)
            o.in_place.fits (holds m' o)).1,
      )
    where
      head12 : List ℕ
      head12 = encode_header sec type subtype (length bgp_body)

      decoded : MrtHeader
      decoded = h alloc blocks memory fastbuf fast_size sec type subtype bgp_body rest known m

      flags :
          (m' : MrtMsg)
          → Opened decoded (head12 ++ take decoded.len (bgp_body ++ rest)) m'
          → m'.flags ≡ record (mrtflags type subtype) { rd = true }
      flags m' o =
          o.flags
          ∙ ap₂ (λ a b. record (mrtflags a b) { rd = true })
              (is_type alloc blocks memory fastbuf fast_size sec type subtype bgp_body rest known m)
              (is_subtype alloc blocks memory fastbuf fast_size sec type subtype bgp_body rest known
                m)

      holds :
          (m' : MrtMsg)
          → Opened decoded (head12 ++ take decoded.len (bgp_body ++ rest)) m'
          → take (end_of m') m'.buf ≡ head12 ++ bgp_body
      holds m' o =
          o.packet
          ∙ ap (λ bs. head12 ++ bs)
              (body_read alloc blocks memory fastbuf fast_size sec type subtype bgp_body rest known
                m)
