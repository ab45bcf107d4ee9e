-- ===== src/Mrt/Peers/Table.antt =====
-- `setuppitable` (src/mrt.c) on a peer index that was written for a view and a list of peers.
use isocore.Base.{
  ℕ, ◌+◌, ◌-◌, ◌<◌, ◌≡◌, refl, sym, ap, ◌∙◌, arith, Bool, true, false, not, ◌&&◌, ltb, List, [],
  ◌++◌, append-nil, none, some, length,
}
use mathlib.Core.Path.{subst}
use isocore.Base.Bytes.{big16, from_big-big16}
use isocore.Mrt.{enoerr, einvop, ebadpeeridxhdr, MrtMsg, ok, message_offset}
use isocore.Mrt.Headers.{end_of}
use isocore.Mrt.Peers.{
  endpending, getpeerents_r, startpeerents_r, endpeerents_r, fill_table, setup_table,
}
use isocore.Mrt.Peers.Read.{Peer}
use isocore.Mrt.Peers.Setup.{encode_peers, AllFit, offsets, attempt_ok, Iterates, pitab_loop_lem}
use isocore.Mrt.Run.{
  Runs, run, computes, require_ok, Front, Front-advance, number_front, bounds_ok, run_else,
  if_fails,
}

-- The bytes of a peer index.
abbrev pub encode_index : List ℕ → List ℕ → List Peer → List ℕ
encode_index collector view ps =
    collector ++ (big16 (length view) ++ (view ++ (big16 (length ps) ++ encode_peers ps)))

-- A peer index that was written for the peers, as it is before the first use.
pub record Index (collector view : List ℕ) (ps : List Peer) (pi : MrtMsg) : Type 0 where
  pub size_collector : length collector ≡ 4
  pub small_view : length view < 65536
  pub small_count : length ps < 65536
  pub peers : AllFit ps
  pub live : pi.err ≡ enoerr
  pub is_pi : pi.flags.is_pi ≡ true
  pub no_pe : pi.flags.pe ≡ false
  pub no_re : pi.flags.re ≡ false
  pub room : length pi.entry.addr.bytes ≡ 16
  pub no_table : pi.pitab ≡ none
  pub written : Front pi.buf message_offset (end_of pi) (encode_index collector view ps)

module _ (collector view : List ℕ) (ps : List Peer) (pi : MrtMsg)
    (i : Index collector view ps pi) where
  -- Where the entries start.
  abbrev first : ℕ
  first = 20 + length view

  at_length :
      Front pi.buf 16
        (end_of pi)
        (big16 (length view) ++ (view ++ (big16 (length ps) ++ encode_peers ps)))
  at_length = Front-advance collector _ 4 i.size_collector i.written

  at_view : Front pi.buf 18 (end_of pi) (view ++ (big16 (length ps) ++ encode_peers ps))
  at_view = Front-advance (big16 (length view)) _ 2 refl at_length

  at_count : Front pi.buf (18 + length view) (end_of pi) (big16 (length ps) ++ encode_peers ps)
  at_count = Front-advance view _ (length view) refl at_view

  pub at_peers : Front pi.buf first (end_of pi) (encode_peers ps ++ [])
  at_peers =
      let f = Front-advance (big16 (length ps)) _ 2 refl at_count in
      subst (λ q. Front pi.buf q (end_of pi) (encode_peers ps ++ [])) (omega arith)
        (record {
          in_buf = f.in_buf;
          order = f.order;
          front = f.front ∙ sym (append-nil (encode_peers ps));
        })

  getpeerents_r_lem : Runs getpeerents_r pi (ok (first, length ps, end_of pi - first) pi)
  unfolding getpeerents_r
  getpeerents_r_lem = run _ (require_ok einvop _ pi i.is_pi i.live) (
      run _ computes (
        run _ (bounds_ok message_offset (end_of pi) 6 ebadpeeridxhdr (omega (arith, at_view.order)))
          (run _
            (number_front pi (big16 (length view)) _ 2 refl at_length
              (from_big-big16 (length view) i.small_view))
            (run _
              (bounds_ok 18 (end_of pi) (length view + 2) ebadpeeridxhdr
                (omega (arith, at_peers.order)))
              (run _
                (number_front pi (big16 (length ps)) _ 2 refl at_count
                  (from_big-big16 (length ps) i.small_count))
                computes)))))

  abbrev started : MrtMsg
  started = record pi { peptr = first; flags = record pi.flags { pe = true } }

  startpeerents_r_lem : Runs startpeerents_r pi (ok (some (length ps)) started)
  unfolding startpeerents_r endpending
  startpeerents_r_lem = run _ (require_ok einvop _ pi i.is_pi i.live) (
      run _ (record { eq = if_fails pi.flags.re _ _ i.no_re ∙ if_fails pi.flags.pe _ _ i.no_pe })
        (run _ (attempt_ok getpeerents_r_lem) (run _ computes computes)))

  started-Iterates : Iterates started
  started-Iterates = record { live = i.live; pe = refl; after_header = omega arith; room = i.room }

  -- What is left of the peer index once the table is set up.
  abbrev table_of : List ℕ
  table_of = offsets ps (8 + length view)

  pub record Indexed (pi' : MrtMsg) : Type 0 where
    pub buf : pi'.buf ≡ pi.buf
    pub hdr : pi'.hdr ≡ pi.hdr
    pub table : pi'.pitab ≡ some (offsets ps (8 + length view))
    pub count : pi'.picount ≡ length ps

  pub setup_table_lem :
      (memory : Bool)
      → (ltb 128 (length ps) && not memory) ≡ false
      → (pi' : MrtMsg) × (setup_table memory pi ≡ ok enoerr pi') × Indexed pi'
  unfolding setup_table fill_table endpeerents_r
  setup_table_lem memory enough =
      let (e, ptr, loop) = pitab_loop_lem ps started [] i.peers started-Iterates at_peers in
      (
        record pi {
          flags = record pi.flags { pe = false };
          entry = e;
          peptr = ptr;
          pitab = some (offsets ps (first - message_offset));
          fast_pitab = not (ltb 128 (length ps));
          picount = length ps;
        },
        ap (λ o. elim o [ some table ↦ ok enoerr pi | none ↦ fill_table memory pi ]) i.no_table
            ∙ (run _ (attempt_ok startpeerents_r_lem) (
                run_else _ enough (
                  run _ loop (
                    run _
                      (attempt_ok (ended (record started { entry = e; peptr = ptr }) i.live refl))
                      (run _ computes computes))))).eq,
        record {
          buf = refl;
          hdr = refl;
          table = ap (λ at. some (offsets ps at)) shifted;
          count = refl;
        },
      )
    where
      ended :
          (m : MrtMsg)
          → m.err ≡ enoerr
          → m.flags.pe ≡ true
          → Runs endpeerents_r m (ok enoerr (record m { flags = record m.flags { pe = false } }))
      ended m live pe = run _ (require_ok einvop _ m pe live) (run _ computes computes)

      shifted : first - message_offset ≡ 8 + length view
      shifted = omega arith
