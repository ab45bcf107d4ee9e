-- ===== src/Mrt/Rib/Lookup.antt =====
-- The peer of a RIB entry (src/mrt.c): what is decoded at the offset in the table is the peer with the
-- entry's index.
use isocore.Base.{
  ℕ, zero, suc, ◌+◌, ◌≡◌, refl, ap, ◌∙◌, arith, List, [], ◌∷◌, ◌++◌, append_assoc, Option, none,
  some, length, get_elem?,
}
use mathlib.Core.Path.{subst}
use mathlib.Core.Option.{some-injective}
use isocore.Mrt.{MrtMsg, PeerEntry, Outcome, fault, ok, message_offset}
use isocore.Mrt.Headers.{end_of}
use isocore.Mrt.Peers.{decodepeerent}
use isocore.Mrt.Peers.Read.{Peer, Fits, encode_peer, entry_over, decodepeerent_lem}
use isocore.Mrt.Peers.Setup.{encode_peers, AllFit, one_more, offsets}
use isocore.Mrt.Peers.Table.{Index, Indexed, at_peers}
use isocore.Mrt.Rib.{lookup_peer}
use isocore.Mrt.Run.{Runs, Front, Front-advance}

-- Where the peer with an index is.
record Located (buf : List ℕ) (end at : ℕ) (ps : List Peer) (idx : ℕ) (p : Peer) : Type 0 where
  offset : ℕ
  rest : List ℕ
  in_table : get_elem? (offsets ps at) idx ≡ some offset
  written : Front buf (offset + message_offset) end (encode_peer p ++ rest)
  fits : Fits p

locate_peer :
    (buf : List ℕ) (end : ℕ) (ps : List Peer) (at idx : ℕ) (p : Peer) (rest : List ℕ)
    → AllFit ps
    → get_elem? ps idx ≡ some p
    → Front buf (at + message_offset) end (encode_peers ps ++ rest)
    → Located buf end at ps idx p
locate_peer buf end [] at idx p rest all e f = cc
locate_peer buf end (q ∷ ps) at zero p rest (one_more fits all) e f = record {
  offset = at;
  rest = encode_peers ps ++ rest;
  in_table = refl;
  written =
      subst (λ p. Front buf (at + message_offset) end (encode_peer p ++ (encode_peers ps ++ rest)))
        (some-injective q p e)
        (record {
          in_buf = f.in_buf;
          order = f.order;
          front = f.front ∙ append_assoc (encode_peer q) (encode_peers ps) rest;
        });
  fits = subst Fits (some-injective q p e) fits;
}
locate_peer buf end (q ∷ ps) at (suc idx) p rest (one_more fits all) e f =
    let l = locate_peer buf end ps (at + length (encode_peer q)) idx p rest all e later in
    record {
      offset = l.offset;
      rest = l.rest;
      in_table = l.in_table;
      written = l.written;
      fits = l.fits;
    }
  where
    later : Front buf (at + length (encode_peer q) + message_offset) end (encode_peers ps ++ rest)
    later =
        subst (λ ptr. Front buf ptr end (encode_peers ps ++ rest)) (omega arith)
          (Front-advance (encode_peer q) (encode_peers ps ++ rest) _ refl (record {
            in_buf = f.in_buf;
            order = f.order;
            front = f.front ∙ append_assoc (encode_peer q) (encode_peers ps) rest;
          }))

module _ (collector view : List ℕ) (ps : List Peer) (pi : MrtMsg)
    (i : Index collector view ps pi) where
  pub lookup_peer_lem :
      (pi' : MrtMsg) (indexed : Indexed collector view ps pi i pi') (idx : ℕ) (p : Peer)
      → get_elem? ps idx ≡ some p
      → (m : MrtMsg) → length m.ribpe.addr.bytes ≡ 16
      → Runs (lookup_peer pi' idx) m (ok tt (record m { ribpe = entry_over m.ribpe p }))
  unfolding lookup_peer
  lookup_peer_lem pi' indexed idx p e m room =
      let l = locate_peer pi.buf (end_of pi) ps (8 + length view) idx p [] i.peers e start in
      record {
        eq =
            ap with_table indexed.table
            ∙ (ap with_offset l.in_table
                ∙ ap with_peer (
                    ap (λ buf. decodepeerent buf m.ribpe (l.offset + message_offset)) indexed.buf
                    ∙ decodepeerent_lem pi.buf (l.offset + message_offset) (end_of pi) m.ribpe room
                        p l.fits l.rest l.written));
      }
    where
      with_peer : Option (PeerEntry × ℕ) → Outcome (Unit {0})
      with_peer o = elim o [ none ↦ fault | some (pe, ptr) ↦ ok tt (record m { ribpe = pe }) ]

      with_offset : Option ℕ → Outcome (Unit {0})
      with_offset o = elim o [
        | none ↦ fault
        | some offset ↦ with_peer (decodepeerent pi'.buf m.ribpe (offset + message_offset))
      ]

      with_table : Option (List ℕ) → Outcome (Unit {0})
      with_table o = elim o [ none ↦ fault | some table ↦ with_offset (get_elem? table idx) ]

      start : Front pi.buf (8 + length view + message_offset) (end_of pi) (encode_peers ps ++ [])
      start =
          subst (λ ptr. Front pi.buf ptr (end_of pi) (encode_peers ps ++ [])) (omega arith)
            (at_peers collector view ps pi i)
