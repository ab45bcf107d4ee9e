-- ===== src/Patricia/Walk/Firsts.antt =====
-- `patgetfirstsubnetsofn` against a recursion over the tree.
use isocore.Base.{
  ℕ, zero, suc, ◌+◌, ◌<◌, ◌≤◌, ◌≡◌, refl, sym, ap, ◌∙◌, arith, Bool, true, false, ltb, lt→ltb, List,
  [], ◌∷◌, ◌++◌, none, some, length, append-nil, append_assoc, Bool-cases, inl, inr, if◌then◌else◌,
}
use isocore.NetAddr.{NetAddr}
use isocore.Patricia.{Tree, nil, node, Kind, TrieNode, Trie, is_nil, bit_of}
use isocore.Patricia.Search.{entry}
use isocore.Patricia.Shape.{IsPatricia}
use isocore.Patricia.Walk.{
  PatIterator, move_next, pop_node, is_first, first_loop, patgetfirstsubnetsofn, subtree_of,
  room_for,
}
use isocore.Patricia.Walk.Pending.{
  size_of, size_of_all, of_all, Below, IsVisit, move_next_lem, pop_node_lem, start-IsVisit,
}
use isocore.Patricia.Walk.Cover.{firsts, firsts-counted, firsts-other}

first_counts :
    (fuel m : ℕ) (k : Kind) (q : NetAddr) (v : ℕ) (l r : Tree) (ts : List Tree)
    (res : List TrieNode)
    → is_first k q ≡ true
    → first_loop (suc fuel) m (record { curr = node k q v l r; stack = ts }) res
      ≡ first_loop fuel m (pop_node ts) (res ++ entry q v ∷ [])
unfolding first_loop
first_counts fuel m k q v l r ts res first =
    ap
      (λ b. elim b [
        | true ↦ first_loop fuel m (pop_node ts) (res ++ entry q v ∷ [])
        | false ↦ elim (move_next (m + 1) l r ts) [
          | none ↦ none
          | some it ↦ first_loop fuel m it res
        ]
      ])
      first

first_moves :
    (fuel m : ℕ) (k : Kind) (q : NetAddr) (v : ℕ) (l r : Tree) (ts : List Tree)
    (res : List TrieNode) (it : PatIterator)
    → is_first k q ≡ false
    → move_next (m + 1) l r ts ≡ some it
    → first_loop (suc fuel) m (record { curr = node k q v l r; stack = ts }) res
      ≡ first_loop fuel m it res
unfolding first_loop
first_moves fuel m k q v l r ts res it other e =
    ap
      (λ b. elim b [
        | true ↦ first_loop fuel m (pop_node ts) (res ++ entry q v ∷ [])
        | false ↦ elim (move_next (m + 1) l r ts) [ none ↦ none | some i ↦ first_loop fuel m i res ]
      ])
      other
    ∙ ap (λ o. elim o [ none ↦ none | some i ↦ first_loop fuel m i res ]) e

first_loop_lem :
    (fuel m : ℕ) (t : Tree) (ts : List Tree) (res : List TrieNode)
    → IsVisit (m + 1) (record { curr = t; stack = ts })
    → size_of t + size_of_all ts < fuel
    → first_loop fuel m (record { curr = t; stack = ts }) res
      ≡ some (res ++ (firsts t ++ of_all firsts ts))
unfolding first_loop
first_loop_lem zero m t ts res h lt = absurd (omega (arith, lt))
first_loop_lem (suc fuel) m nil ts res h lt =
    ap some (sym (append-nil res) ∙ ap (λ xs. res ++ of_all firsts xs) (sym h.deep))
first_loop_lem (suc fuel) m (node k q v l r) ts res h lt = elim (Bool-cases (is_first k q)) [
  | inl first ↦
      let p = pop_node_lem (m + 1) ts h.stacked in
      first_counts fuel m k q v l r ts res first
      ∙ first_loop_lem fuel m (pop_node ts).curr (pop_node ts).stack (res ++ entry q v ∷ []) p.visit
          (omega (arith, lt, p.count))
      ∙ ap (λ xs. some ((res ++ entry q v ∷ []) ++ xs)) (p.rest firsts refl)
      ∙ ap some (append_assoc res (entry q v ∷ []) (of_all firsts ts))
      ∙ ap (λ xs. some (res ++ (xs ++ of_all firsts ts))) (sym (firsts-counted k q v l r first))
  | inr other ↦
      let mv = move_next_lem (m + 1) k q v l r ts h.valid h.below h.deep h.stacked in
      first_moves fuel m k q v l r ts res mv.next other mv.moved
      ∙ first_loop_lem fuel m mv.next.curr mv.next.stack res mv.visit (omega (arith, lt, mv.count))
      ∙ ap (λ xs. some (res ++ xs)) (mv.rest firsts refl)
      ∙ ap (λ xs. some (res ++ (xs ++ of_all firsts ts))) (sym (firsts-other k q v l r other))
]

-- The topmost node that a path to the prefix has at its length or below.
abbrev pub top_of : NetAddr → Tree → Tree
top_of p nil = nil
top_of p (node k q v l r) =
    if ltb q.bitlen p.bitlen
    then (if bit_of p q.bitlen then top_of p r else top_of p l)
    else node k q v l r

pub subtree_of_lem : (t : Tree) (p : NetAddr) → IsPatricia t → subtree_of t p ≡ some (top_of p t)
unfolding subtree_of
subtree_of_lem nil p wf = refl
subtree_of_lem (node k q v l r) p ((s, ok), wl, wr) =
    ground (arith, ok.in_tree, subtree_of_lem l p wl, subtree_of_lem r p wr)

-- A part of a tree keeps what the loop needs.
record IsPart (size : ℕ) (t u : Tree) : Type 0 where
  valid : IsPatricia t
  below : Below size t
  smaller : size_of t ≤ size_of u

IsPart-if :
    (size : ℕ) (b : Bool) (x y u : Tree)
    → IsPart size x u
    → IsPart size y u
    → IsPart size (if b then x else y) u
IsPart-if size true x y u hx hy = hx
IsPart-if size false x y u hx hy = hy

IsPart-child : (size : ℕ) (t u w : Tree) → size_of u < size_of w → IsPart size t u → IsPart size t w
IsPart-child size t u w lt h = record {
  valid = h.valid;
  below = h.below;
  smaller = omega (arith, lt, h.smaller);
}

top_of-IsPart :
    (size : ℕ) (t : Tree) (p : NetAddr) → IsPatricia t → Below size t → IsPart size (top_of p t) t
top_of-IsPart size nil p wf b = record { valid = wf; below = b; smaller = omega arith }
top_of-IsPart size (node k q v l r) p (ok, wl, wr) (lt, bl, br) =
    IsPart-if size (ltb q.bitlen p.bitlen) _ _ (node k q v l r)
      (IsPart-if size (bit_of p q.bitlen) _ _ (node k q v l r)
        (IsPart-child size (top_of p r) r (node k q v l r) (omega arith)
          (top_of-IsPart size r p wr br))
        (IsPart-child size (top_of p l) l (node k q v l r) (omega arith)
          (top_of-IsPart size l p wl bl)))
      (record { valid = (ok, wl, wr); below = (lt, bl, br); smaller = omega arith })

first_subnets_step :
    (fuel n : ℕ) (pt : Trie) (p : NetAddr) (start : Tree) (res : List TrieNode)
    → is_nil pt.head ≡ false
    → subtree_of pt.head p ≡ some start
    → room_for pt p ≡ some n
    → first_loop fuel pt.maxbitlen (record { curr = start; stack = [] }) [] ≡ some res
    → length res ≤ n
    → patgetfirstsubnetsofn fuel true pt p ≡ some (some res)
unfolding patgetfirstsubnetsofn
first_subnets_step fuel n pt p start res some_head down room ran fits =
    let inside : ltb (length res) (n + 1) ≡ true =
      lt→ltb (length res) (n + 1) (omega (arith, fits)) in
    ground (arith, some_head, down, room, ran, inside)

-- In a well-formed trie that is not empty, whose prefixes are not longer than its addresses, when the
-- array has room for them, `patgetfirstsubnetsofn` returns the topmost prefixes at or below the first
-- node on the path to the given prefix that is at least as long.
pub patgetfirstsubnetsofn_lem :
    (pt : Trie) (p : NetAddr) (fuel n : ℕ)
    → IsPatricia pt.head
    → Below (pt.maxbitlen + 1) pt.head
    → is_nil pt.head ≡ false
    → size_of pt.head < fuel
    → room_for pt p ≡ some n
    → length (firsts (top_of p pt.head)) ≤ n
    → patgetfirstsubnetsofn fuel true pt p ≡ some (some (firsts (top_of p pt.head)))
patgetfirstsubnetsofn_lem pt p fuel n wf fits some_head lt room le =
    let part = top_of-IsPart (pt.maxbitlen + 1) pt.head p wf fits in
    first_subnets_step fuel n pt p (top_of p pt.head) (firsts (top_of p pt.head)) some_head
      (subtree_of_lem pt.head p wf) room
      (first_loop_lem fuel pt.maxbitlen (top_of p pt.head) [] []
          (start-IsVisit (pt.maxbitlen + 1) (top_of p pt.head) part.valid part.below)
          (omega (arith, lt, part.smaller))
        ∙ ap some (append-nil (firsts (top_of p pt.head))))
      le
