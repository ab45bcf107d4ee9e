-- ===== src/Mrt/Rib/Entry.antt =====
-- RIB entries (src/mrt.c) that are read as they were written.
use isocore.Base.{
  ℕ, zero, suc, ◌+◌, ◌^◌, ◌≤◌, ◌<◌, ◌≡◌, refl, ap, ◌∙◌, arith, Bool, true, false, not, ◌&&◌, ltb,
  leb, ◌==◌, if◌then◌else◌, List, [], ◌∷◌, ◌++◌, Option, some, length, get_elem?,
}
use isocore.Base.Bytes.{read_bytes, big16, big32, from_big, from_big-big16, from_big-big32}
use isocore.Base.Window.{window_fits}
use isocore.Mrt.{
  ebadribent, ebadpeeridx, enoerr, MrtMsg, RibEntry, Outcome, fails, ok, ◌>>◌, return,
  message_offset, fail_with, einvop, mrt_table_dumpv2,
}
use isocore.Mrt.Legacy.{nextribent_r}
use isocore.Mrt.Headers.{end_of}
use isocore.Mrt.Peers.{setup_table}
use isocore.Mrt.Peers.Read.{Peer, entry_over, read_front_of}
use isocore.Mrt.Peers.Table.{Index, Indexed, setup_table_lem}
use isocore.Mrt.Rib.{next_number, check_room, next_pathid, entry_v2, next_entry, nextribent_v2}
use isocore.Mrt.Rib.Lookup.{lookup_peer_lem}
use isocore.Mrt.Run.{
  Runs, run, computes, Front, Front-advance, number_front, bounds_ok, run_else, run_then, if_fails,
  if_holds, require_ok,
}

-- An entry that a RIB packet carries.
pub record Carried : Type 0 where
  pub index : ℕ
  pub originated : ℕ
  pub pathid : ℕ
  pub attrs : List ℕ

pub record Sized (c : Carried) : Type 0 where
  pub index : c.index < 65536
  pub originated : c.originated < 2 ^ 32
  pub pathid : c.pathid < 2 ^ 32
  pub attrs : length c.attrs < 65536

abbrev pub encode_pathid : Bool → ℕ → List ℕ
encode_pathid addpath v = if addpath then big32 v else []

abbrev pub after_index : Bool → Carried → List ℕ → List ℕ
after_index addpath c rest =
    big32 c.originated
    ++ (encode_pathid addpath c.pathid ++ (big16 (length c.attrs) ++ (c.attrs ++ rest)))

abbrev pub encode_entry : Bool → Carried → List ℕ → List ℕ
encode_entry addpath c rest = big16 c.index ++ after_index addpath c rest

-- A number at `reptr`, and the message after it.
module _ (m : MrtMsg) (end : ℕ) (xs ys : List ℕ) (n : ℕ) (size : length xs ≡ n)
    (f : Front m.buf m.reptr end (xs ++ ys)) where
  next_number_lem :
      {v : ℕ} → from_big xs 0 ≡ v → Runs (next_number n) m (ok v (record m { reptr = m.reptr + n }))
  unfolding next_number
  next_number_lem e =
      run _ computes (run _ (number_front m xs ys n size f e) (run _ computes computes))

  check_room_lem : end ≡ end_of m → Runs (check_room n) m (ok tt m)
  unfolding check_room
  check_room_lem e = run _ computes (
      run _ computes (
        bounds_ok m.reptr (end_of m) n ebadribent
          (omega (arith, e, size, window_fits m.buf m.reptr end xs ys f.in_buf f.order f.front))))

check_room_ok : (m : MrtMsg) (n : ℕ) → m.reptr + n ≤ end_of m → Runs (check_room n) m (ok tt m)
unfolding check_room
check_room_ok m n h = run _ computes (run _ computes (bounds_ok m.reptr (end_of m) n ebadribent h))

below : (ps : List Peer) (idx : ℕ) (p : Peer) → get_elem? ps idx ≡ some p → idx < length ps
below [] idx p e = cc
below (q ∷ ps) zero p e = omega arith
below (q ∷ ps) (suc idx) p e = omega (arith, below ps idx p e)

abbrev pathid_size : Bool → ℕ
pathid_size addpath = if addpath then 4 else 0

-- The path id, which is 0 where the packet has none.
next_pathid_lem :
    (m : MrtMsg) (v : ℕ) (rest : List ℕ)
    → v < 2 ^ 32
    → Front m.buf m.reptr (end_of m) (encode_pathid m.flags.addpath v ++ rest)
    → Runs next_pathid m (
        ok
          (if m.flags.addpath then v else 0)
          (record m { reptr = m.reptr + pathid_size m.flags.addpath }))
unfolding next_pathid
next_pathid_lem m v rest small f = run _ computes (by_flag m.flags.addpath f)
  where
    stays : m.reptr ≡ m.reptr + 0
    stays = omega arith

    by_flag :
        (b : Bool)
        → Front m.buf m.reptr (end_of m) (encode_pathid b v ++ rest)
        → Runs
            (if b then (check_room 4 >> next_number 4) else return 0)
            m
            (ok (if b then v else 0) (record m { reptr = m.reptr + pathid_size b }))
    by_flag true f = run _ (check_room_lem m (end_of m) (big32 v) rest 4 refl f refl) (
        next_number_lem m (end_of m) (big32 v) rest 4 refl f
          (from_big-big32 v (omega (arith, small))))
    by_flag false f = record { eq = ap (λ p. ok 0 (record m { reptr = p })) stays }

length-encode_pathid : (b : Bool) (v : ℕ) → length (encode_pathid b v) ≡ pathid_size b
length-encode_pathid true v = refl
length-encode_pathid false v = refl

-- Where an entry's attributes start.
abbrev pub attrs_of : MrtMsg → ℕ
attrs_of m = m.reptr + 2 + 4 + pathid_size m.flags.addpath + 2

-- What the message holds once an entry was read: the entry, with its peer, and the place after it.
abbrev pub read_entry : Carried → Peer → MrtMsg → MrtMsg
read_entry c p m = record m {
  reptr = attrs_of m + length c.attrs;
  ribent = record m.ribent {
    peer_idx = c.index;
    originated = c.originated;
    nlri = m.ribhdr.nlri;
    pathid = if m.flags.addpath then c.pathid else 0;
    attr_length = length c.attrs;
    attrs = attrs_of m;
  };
  ribpe = entry_over m.ribpe p;
}

module _ (collector view : List ℕ) (ps : List Peer) (pi : MrtMsg) (i : Index collector view ps pi)
    (m : MrtMsg) (c : Carried) (rest : List ℕ)
    (f : Front m.buf m.reptr (end_of m) (encode_entry m.flags.addpath c rest))
    (started : message_offset ≤ m.reptr) (sized : Sized c) where
  abbrev addpath : Bool
  addpath = m.flags.addpath

  at_time : Front m.buf (m.reptr + 2) (end_of m) (after_index addpath c rest)
  at_time = Front-advance (big16 c.index) _ 2 refl f

  at_pathid :
      Front m.buf
        (m.reptr + 2 + 4)
        (end_of m)
        (encode_pathid addpath c.pathid ++ (big16 (length c.attrs) ++ (c.attrs ++ rest)))
  at_pathid = Front-advance (big32 c.originated) _ 4 refl at_time

  at_length :
      Front m.buf
        (m.reptr + 2 + 4 + pathid_size addpath)
        (end_of m)
        (big16 (length c.attrs) ++ (c.attrs ++ rest))
  at_length =
      Front-advance (encode_pathid addpath c.pathid) _ (pathid_size addpath)
        (length-encode_pathid addpath c.pathid) at_pathid

  at_attrs : Front m.buf (attrs_of m) (end_of m) (c.attrs ++ rest)
  at_attrs = Front-advance (big16 (length c.attrs)) _ 2 refl at_length

  abbrev with_reptr : ℕ → MrtMsg
  with_reptr ptr = record m { reptr = ptr }

  module _ (pi' : MrtMsg) (indexed : Indexed collector view ps pi i pi') where
    entry_v2_lem :
        (p : Peer)
        → get_elem? ps c.index ≡ some p
        → length m.ribpe.addr.bytes ≡ 16
        → Runs (entry_v2 pi' c.index) m (ok (some (read_entry c p m).ribent) (read_entry c p m))
    unfolding entry_v2
    entry_v2_lem p e room = run _ computes (
        run _
          (next_number_lem (with_reptr (m.reptr + 2)) (end_of m) (big32 c.originated) _ 4 refl
            at_time (from_big-big32 c.originated (omega (arith, sized.originated))))
          (run _ (next_pathid_lem (with_reptr (m.reptr + 2 + 4)) c.pathid _ sized.pathid at_pathid)
            (run _
              (check_room_lem (with_reptr (m.reptr + 2 + 4 + pathid_size addpath)) (end_of m)
                (big16 (length c.attrs)) _ 2 refl at_length refl)
              (run _
                (next_number_lem (with_reptr (m.reptr + 2 + 4 + pathid_size addpath)) (end_of m)
                  (big16 (length c.attrs)) _ 2 refl at_length
                  (from_big-big16 (length c.attrs) sized.attrs))
                (run _
                  (check_room_lem (with_reptr (attrs_of m)) (end_of m) c.attrs rest (length c.attrs)
                    refl at_attrs refl)
                  (run _ computes (
                    run _ computes (
                      run _ (lookup_peer_lem collector view ps pi i pi' indexed c.index p e _ room)
                        computes))))))))

    not_end : (m.reptr == message_offset + m.hdr.len) ≡ false
    not_end =
        ground
          (arith, window_fits m.buf m.reptr (end_of m) (big16 c.index) _ f.in_buf f.order f.front)

    not_null : (m.reptr == 0) ≡ false
    not_null = ground (arith, started)

    read_index :
        {r : Outcome (Option RibEntry)}
        → Runs (if leb pi'.picount c.index then fail_with ebadpeeridx else entry_v2 pi' c.index) m r
        → nextribent_v2 pi' m ≡ r
    unfolding nextribent_v2 next_entry
    read_index then_runs =
        if_fails _ _ _ not_end
        ∙ (if_fails _ _ _ not_null
            ∙ (run _ (check_room_ok m 6 (omega (arith, at_pathid.order))) (
                run _ computes (
                  run _
                    (number_front m (big16 c.index) _ 2 refl f (from_big-big16 c.index sized.index))
                    then_runs))).eq)

  -- The checks of `nextribent_r`, and its way to TABLE_DUMP_V2.
  on_v2 :
      {r : Outcome (Option RibEntry)}
      → m.err ≡ enoerr
      → m.flags.re ≡ true
      → m.hdr.type ≡ mrt_table_dumpv2
      → (pi' : MrtMsg) → nextribent_v2 pi' m ≡ r
      → nextribent_r pi' m ≡ r
  unfolding nextribent_r
  on_v2 live started is_v2 pi' e =
      let v2 : (m.hdr.type == mrt_table_dumpv2) ≡ true = ground (arith, is_v2) in
      (run _ (require_ok einvop _ m started live) (record { eq = if_holds _ _ _ v2 ∙ e })).eq

  -- For a peer index that was written for a list of peers and is not in use yet, with memory for the table
  -- where it is needed, and a TABLE_DUMP_V2 packet on which an iteration over RIB entries was started, with no
  -- error, and with an entry at the place that was reached, whose numbers fit: with the table that
  -- `setuppitable` sets, `nextribent_r` returns the entry that was written, with the prefix of the RIB's
  -- header, no path id where the packet has none, and the peer at the entry's index in the list; the next
  -- place is after the entry's attributes, which are where the entry points. The entry's `seqno` stays as it
  -- was before the call.
  pub nextribent_r-entry :
      (memory : Bool) (p : Peer)
      → (ltb 128 (length ps) && not memory) ≡ false
      → get_elem? ps c.index ≡ some p
      → length m.ribpe.addr.bytes ≡ 16
      → m.err ≡ enoerr
      → m.flags.re ≡ true
      → m.hdr.type ≡ mrt_table_dumpv2
      → (pi' : MrtMsg) × (setup_table memory pi ≡ ok enoerr pi')
        × (nextribent_r pi' m ≡ ok (some (read_entry c p m).ribent) (read_entry c p m))
        × (read_bytes m.buf (read_entry c p m).ribent.attrs (length c.attrs) ≡ some c.attrs)
        × Front m.buf (read_entry c p m).reptr (end_of m) rest
  nextribent_r-entry memory p enough e room live started is_v2 =
      let (pi', done, indexed) = setup_table_lem collector view ps pi i memory enough in
      let known : leb pi'.picount c.index ≡ false =
        ground (arith, indexed.count, below ps c.index p e) in
      (
        pi',
        done,
        on_v2 live started is_v2 pi'
            (read_index pi' indexed (run_else _ known (entry_v2_lem pi' indexed p e room))),
        read_front_of c.attrs rest (length c.attrs) refl at_attrs,
        Front-advance c.attrs rest (length c.attrs) refl at_attrs,
      )

  -- For a peer index that was written for a list of peers and is not in use yet, with memory for the table
  -- where it is needed, and a TABLE_DUMP_V2 packet on which an iteration over RIB entries was started, with no
  -- error, and with an entry at the place that was reached, whose numbers fit, but whose peer index is not
  -- below the number of the peers: with the table that `setuppitable` sets, `nextribent_r` returns NULL with
  -- `MRT_EBADPEERIDX`, and the place stays at the entry.
  pub nextribent_r-ebadpeeridx :
      (memory : Bool)
      → (ltb 128 (length ps) && not memory) ≡ false
      → length ps ≤ c.index
      → m.err ≡ enoerr
      → m.flags.re ≡ true
      → m.hdr.type ≡ mrt_table_dumpv2
      → (pi' : MrtMsg) × (setup_table memory pi ≡ ok enoerr pi')
        × (nextribent_r pi' m ≡ fails (record m { err = ebadpeeridx }))
  nextribent_r-ebadpeeridx memory enough out live started is_v2 =
      let (pi', done, indexed) = setup_table_lem collector view ps pi i memory enough in
      let unknown : leb pi'.picount c.index ≡ true = ground (arith, indexed.count, out) in
      (
        pi',
        done,
        on_v2 live started is_v2 pi' (read_index pi' indexed (run_then _ unknown computes)),
      )
