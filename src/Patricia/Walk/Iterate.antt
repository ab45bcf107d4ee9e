-- ===== src/Patricia/Walk/Iterate.antt =====
-- The iterator of the trie visits each prefix once, and ends.
use isocore.Base.{
  ℕ, zero, suc, ◌+◌, ◌≤◌, ◌<◌, ◌≡◌, refl, sym, ap, ◌∙◌, arith, Bool, true, false, List, [], ◌∷◌,
  ◌++◌, Option, none, some, not, append-nil,
}
use isocore.NetAddr.{NetAddr}
use isocore.Patricia.{Tree, nil, node, plain, glue, released, TrieNode, Trie, ispnodeglue}
use isocore.Patricia.Search.{entry}
use isocore.Patricia.Shape.{entries, IsPatricia}
use isocore.Patricia.Walk.{
  PatIterator, move_next, patiteratormovenext, patiteratorskipglue, patiteratorinit, patiteratorget,
  patiteratornext, patiteratorend,
}
use isocore.Patricia.Walk.Pending.{
  size_of, size_of_all, of_all, pending, pending_size, IsVisit, move_next_lem, start-IsVisit,
  IsPatricia-Below,
}

-- The node of the iterator is no glue node.
abbrev pub stands : Tree → Bool
stands nil = true
stands (node k q v l r) = not (ispnodeglue k)

record Skips (fuel : ℕ) (t : Tree) (ts : List Tree) : Type 0 where
  next : PatIterator
  skipped : patiteratorskipglue fuel (record { curr = t; stack = ts }) ≡ some next
  visit : IsVisit 129 next
  rest : pending entries next ≡ pending entries (record { curr = t; stack = ts })
  count : pending_size next ≤ size_of t + size_of_all ts
  at : stands next.curr ≡ true

skip_step :
    (fuel : ℕ) (q : NetAddr) (v : ℕ) (l r : Tree) (ts : List Tree) (it : PatIterator)
    → move_next 129 l r ts ≡ some it
    → patiteratorskipglue (suc fuel) (record { curr = node glue q v l r; stack = ts })
      ≡ patiteratorskipglue fuel it
unfolding patiteratorskipglue
skip_step fuel q v l r ts it e =
    ap (λ o. elim o [ none ↦ none | some i ↦ patiteratorskipglue fuel i ]) e

patiteratorskipglue_lem :
    (fuel : ℕ) (t : Tree) (ts : List Tree)
    → IsVisit 129 (record { curr = t; stack = ts })
    → size_of t + size_of_all ts < fuel
    → Skips fuel t ts
unfolding patiteratorskipglue
patiteratorskipglue_lem zero t ts h lt = absurd (omega (arith, lt))
patiteratorskipglue_lem (suc fuel) nil ts h lt = record {
  next = record { curr = nil; stack = ts };
  skipped = refl;
  visit = h;
  rest = refl;
  count = omega arith;
  at = refl;
}
patiteratorskipglue_lem (suc fuel) (node plain q v l r) ts h lt = record {
  next = record { curr = node plain q v l r; stack = ts };
  skipped = refl;
  visit = h;
  rest = refl;
  count = omega arith;
  at = refl;
}
patiteratorskipglue_lem (suc fuel) (node glue q v l r) ts h lt =
    let m = move_next_lem 129 glue q v l r ts h.valid h.below h.deep h.stacked in
    let s =
      patiteratorskipglue_lem fuel m.next.curr m.next.stack m.visit (omega (arith, lt, m.count)) in
    record {
      next = s.next;
      skipped = skip_step fuel q v l r ts m.next m.moved ∙ s.skipped;
      visit = s.visit;
      rest = s.rest ∙ m.rest entries refl;
      count = omega (arith, s.count, m.count);
      at = s.at;
    }
patiteratorskipglue_lem (suc fuel) (node released q v l r) ts h lt =
    absurd (cc (h.valid.0.1.in_tree))

next_step :
    (fuel : ℕ) (q : NetAddr) (v : ℕ) (l r : Tree) (ts : List Tree) (it : PatIterator)
    → move_next 129 l r ts ≡ some it
    → patiteratornext fuel (record { curr = node plain q v l r; stack = ts })
      ≡ patiteratorskipglue fuel it
unfolding patiteratornext patiteratormovenext
next_step fuel q v l r ts it e =
    ap (λ o. elim o [ none ↦ none | some i ↦ patiteratorskipglue fuel i ]) e

-- The loop over the nodes of a trie: `while (!patiteratorend(&it)) { patiteratorget(&it); ... patiteratornext(&it); }`.
unfoldable pub visit_loop : ℕ → ℕ → PatIterator → Option (List TrieNode)
visit_loop zero m it = none
visit_loop (suc n) m it = elim (patiteratorend it) [
  | true ↦ some []
  | false ↦ elim (patiteratorget it) [
    | none ↦ none
    | some e ↦ elim (patiteratornext m it) [
      | none ↦ none
      | some it' ↦ elim (visit_loop n m it') [ none ↦ none | some es ↦ some (e ∷ es) ]
    ]
  ]
]

visit_loop_step :
    (n m : ℕ) (q : NetAddr) (v : ℕ) (l r : Tree) (ts : List Tree) (it : PatIterator)
    (es : List TrieNode)
    → patiteratornext m (record { curr = node plain q v l r; stack = ts }) ≡ some it
    → visit_loop n m it ≡ some es
    → visit_loop (suc n) m (record { curr = node plain q v l r; stack = ts })
      ≡ some (entry q v ∷ es)
unfolding visit_loop patiteratorend patiteratorget
visit_loop_step n m q v l r ts it es e h =
    ap
      (λ o. elim o [
        | none ↦ none
        | some i ↦ elim (visit_loop n m i) [ none ↦ none | some xs ↦ some (entry q v ∷ xs) ]
      ])
      e
    ∙ ap (λ o. elim o [ none ↦ none | some xs ↦ some (entry q v ∷ xs) ]) h

visit_loop_lem :
    (n m : ℕ) (t : Tree) (ts : List Tree)
    → IsVisit 129 (record { curr = t; stack = ts })
    → stands t ≡ true
    → size_of t + size_of_all ts < n
    → size_of t + size_of_all ts < m
    → visit_loop n m (record { curr = t; stack = ts }) ≡ some (entries t ++ of_all entries ts)
unfolding visit_loop patiteratorend
visit_loop_lem zero m t ts h at lt le = absurd (omega (arith, lt))
visit_loop_lem (suc n) m nil ts h at lt le = ap (λ xs. some (of_all entries xs)) (sym h.deep)
visit_loop_lem (suc n) m (node plain q v l r) ts h at lt le =
    let mv = move_next_lem 129 plain q v l r ts h.valid h.below h.deep h.stacked in
    let s =
      patiteratorskipglue_lem m mv.next.curr mv.next.stack mv.visit (omega (arith, le, mv.count)) in
    visit_loop_step n m q v l r ts s.next (pending entries s.next)
      (next_step m q v l r ts mv.next mv.moved ∙ s.skipped)
      (visit_loop_lem n m s.next.curr s.next.stack s.visit s.at
        (omega (arith, lt, s.count, mv.count)) (omega (arith, le, s.count, mv.count)))
    ∙ ap (λ xs. some (entry q v ∷ xs)) (s.rest ∙ mv.rest entries refl)
visit_loop_lem (suc n) m (node glue q v l r) ts h at lt le = cc
visit_loop_lem (suc n) m (node released q v l r) ts h at lt le = cc

-- The loop with its `patiteratorinit`.
unfoldable pub visit_all : ℕ → Trie → Option (List TrieNode)
visit_all fuel pt = elim (patiteratorinit fuel pt) [
  | none ↦ none
  | some it ↦ visit_loop fuel fuel it
]

visit_all_step :
    (fuel : ℕ) (pt : Trie) (it : PatIterator)
    → patiteratorskipglue fuel (record { curr = pt.head; stack = [] }) ≡ some it
    → visit_all fuel pt ≡ visit_loop fuel fuel it
unfolding visit_all patiteratorinit
visit_all_step fuel pt it e = ap (λ o. elim o [ none ↦ none | some i ↦ visit_loop fuel fuel i ]) e

-- In a well-formed trie, the loop that takes the node of the iterator and moves it on ends, after a
-- number of steps that the number of nodes bounds; its stack of 129 entries never overflows; and it has
-- then visited each node that holds a prefix once, in the order of the tree.
pub visit_all_lem :
    (pt : Trie) (fuel : ℕ)
    → IsPatricia pt.head
    → size_of pt.head < fuel
    → visit_all fuel pt ≡ some (entries pt.head)
visit_all_lem pt fuel wf lt =
    let s =
      patiteratorskipglue_lem fuel pt.head []
        (start-IsVisit 129 pt.head wf (IsPatricia-Below pt.head wf)) (omega (arith, lt)) in
    visit_all_step fuel pt s.next s.skipped
    ∙ visit_loop_lem fuel fuel s.next.curr s.next.stack s.visit s.at (omega (arith, lt, s.count))
        (omega (arith, lt, s.count))
    ∙ ap some (s.rest ∙ append-nil (entries pt.head))
