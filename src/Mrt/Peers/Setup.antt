-- ===== src/Mrt/Peers/Setup.antt =====
-- The table of the peers' offsets that `setuppitable` (src/mrt.c) makes of a peer index that was written
-- for a list of peers.
use isocore.Base.{
  ℕ, ◌+◌, ◌-◌, ◌≤◌, ◌≡◌, refl, ap, ◌∙◌, arith, Bool, true, false, ◌==◌, List, [], ◌∷◌, ◌++◌,
  append_assoc, Option, none, some, length, drop, length-append, length-drop,
}
use isocore.Base.Window.{window_fits}
use isocore.Mrt.{enoerr, einvop, MrtMsg, PeerEntry, Outcome, fault, fails, ok, R, message_offset}
use isocore.Mrt.Headers.{end_of}
use isocore.Mrt.Headers.Inverse.{addr_size}
use isocore.Mrt.Peers.{attempt, nextpeerent_r, pitab_loop}
use isocore.Mrt.Peers.Read.{Peer, Fits, encode_peer, entry_over, decodepeerent_lem}
use isocore.Mrt.Run.{Runs, run, computes, require_ok, Front, Front-advance, if_fails}

abbrev pub encode_peers : List Peer → List ℕ
encode_peers [] = []
encode_peers (p ∷ ps) = encode_peer p ++ encode_peers ps

pub data AllFit : List Peer → Type 0 where
  none_left : AllFit []
  one_more : {p : Peer} {ps : List Peer} → Fits p → AllFit ps → AllFit (p ∷ ps)

-- The offsets of the peers after the header, for the first one's.
abbrev pub offsets : List Peer → ℕ → List ℕ
offsets [] at = []
offsets (p ∷ ps) at = at ∷ offsets ps (at + length (encode_peer p))

pub attempt_ok :
    {A : Type 0} {f : R A} {m m' : MrtMsg} {a : A}
    → Runs f m (ok a m')
    → Runs (attempt f) m (ok (some a) m')
unfolding attempt
attempt_ok r = record {
  eq = ap (λ o. elim o [ fault ↦ fault | fails m' ↦ ok none m' | ok a m' ↦ ok (some a) m' ]) r.eq;
}

pub addr_size_small : (v6 : Bool) → addr_size v6 ≤ 16
addr_size_small true = omega arith
addr_size_small false = omega arith

-- What an iteration over the peers needs of the message.
pub record Iterates (m : MrtMsg) : Type 0 where
  pub live : m.err ≡ enoerr
  pub pe : m.flags.pe ≡ true
  pub after_header : message_offset ≤ m.peptr
  pub room : length m.entry.addr.bytes ≡ 16

module _ (m : MrtMsg) (i : Iterates m) (p : Peer) (fits : Fits p) (rest : List ℕ)
    (f : Front m.buf m.peptr (end_of m) (encode_peer p ++ rest)) where
  abbrev advanced : MrtMsg
  advanced = record m { entry = entry_over m.entry p; peptr = m.peptr + length (encode_peer p) }

  nextpeerent_r_lem : Runs nextpeerent_r m (ok (some (entry_over m.entry p)) advanced)
  unfolding nextpeerent_r
  nextpeerent_r_lem = run _ (require_ok einvop _ m i.pe i.live) (record {
    eq =
        if_fails (m.peptr == m.hdr.len + message_offset) _ _ not_end
        ∙ (if_fails (m.peptr == 0) _ _ not_null
            ∙ ap next (decodepeerent_lem m.buf m.peptr (end_of m) m.entry i.room p fits rest f));
  })
    where
      next : Option (PeerEntry × ℕ) → Outcome (Option PeerEntry)
      next o = elim o [
        | none ↦ fault
        | some (pe, ptr) ↦ ok (some pe) (record m { entry = pe; peptr = ptr })
      ]

      not_end : (m.peptr == m.hdr.len + message_offset) ≡ false
      not_end = ground (
        arith,
        window_fits m.buf m.peptr (end_of m) (encode_peer p) rest f.in_buf f.order f.front,
      )

      not_null : (m.peptr == 0) ≡ false
      not_null = ground (arith, i.after_header)

  length-entry_over : length (entry_over m.entry p).addr.bytes ≡ 16
  length-entry_over = omega (
    arith,
    fits.addr,
    addr_size_small p.v6,
    i.room,
    length-append p.addr (drop (length p.addr) m.entry.addr.bytes),
    length-drop (length p.addr) m.entry.addr.bytes,
  )

  advanced-Iterates : Iterates advanced
  advanced-Iterates = record {
    live = i.live;
    pe = i.pe;
    after_header = omega (arith, i.after_header);
    room = length-entry_over;
  }

-- The loop of `setuppitable` over all the peers.
pub pitab_loop_lem :
    (ps : List Peer) (m : MrtMsg) (rest : List ℕ)
    → AllFit ps
    → Iterates m
    → Front m.buf m.peptr (end_of m) (encode_peers ps ++ rest)
    → (e : PeerEntry) × (ptr : ℕ) × Runs
        (pitab_loop (length ps))
        m
        (ok (offsets ps (m.peptr - message_offset)) (record m { entry = e; peptr = ptr }))
unfolding pitab_loop
pitab_loop_lem [] m rest none_left i f = (m.entry, m.peptr, computes)
pitab_loop_lem (p ∷ ps) m rest (one_more fits all) i f =
    let (e, ptr, runs) =
      pitab_loop_lem ps m' rest all (advanced-Iterates m i p fits _ first) later in
    (
      e,
      ptr,
      run _ (record { eq = if_fails (m.peptr == 0) _ _ not_null })
          (run _ (attempt_ok (nextpeerent_r_lem m i p fits _ first)) (
            run _ runs (record {
              eq =
                  ap
                    (λ at.
                      ok ((m.peptr - 12) ∷ offsets ps at) (record m { entry = e; peptr = ptr }))
                    shifted;
            }))),
    )
  where
    first : Front m.buf m.peptr (end_of m) (encode_peer p ++ (encode_peers ps ++ rest))
    first = record {
      in_buf = f.in_buf;
      order = f.order;
      front = f.front ∙ append_assoc (encode_peer p) (encode_peers ps) rest;
    }

    m' : MrtMsg
    m' = advanced m i p fits _ first

    later : Front m.buf (m.peptr + length (encode_peer p)) (end_of m) (encode_peers ps ++ rest)
    later = Front-advance (encode_peer p) (encode_peers ps ++ rest) _ refl first

    not_null : (m.peptr == 0) ≡ false
    not_null = ground (arith, i.after_header)

    shifted : m.peptr + length (encode_peer p) - 12 ≡ m.peptr - 12 + length (encode_peer p)
    shifted = omega (arith, i.after_header)
