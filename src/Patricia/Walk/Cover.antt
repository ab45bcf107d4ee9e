-- ===== src/Patricia/Walk/Cover.antt =====
-- `patcoverage` and `patgetfirstsubnetsofn` against recursions over the tree.
use isocore.Base.{
  ℕ, zero, suc, ◌+◌, ◌-◌, ◌%◌, ◌^◌, ◌<◌, ◌≡◌, refl, sym, ap, ◌∙◌, arith, true, false, ltb,
  if◌then◌else◌, List, [], ◌∷◌, ◌++◌, none, some, append-nil, Bool-cases, inl, inr,
}
use isocore.NetAddr.{NetAddr}
use isocore.Patricia.{Tree, nil, node, Kind, plain, glue, released, TrieNode, Trie}
use isocore.Patricia.Search.{entry}
use isocore.Patricia.Shape.{IsPatricia}
use isocore.Patricia.Walk.{PatIterator, move_next, pop_node, is_first, coverage_loop, patcoverage}
use isocore.Patricia.Walk.Pending.{
  size_of, size_of_all, of_all, Below, IsVisit, move_next_lem, pop_node_lem, start-IsVisit,
}

-- The topmost nodes that hold a prefix, the one of length 0 left out.
abbrev pub firsts : Tree → List TrieNode
firsts nil = []
firsts (node plain q v l r) = if ltb 0 q.bitlen then entry q v ∷ [] else firsts l ++ firsts r
firsts (node glue q v l r) = firsts l ++ firsts r
firsts (node released q v l r) = firsts l ++ firsts r

-- The number of the addresses of the prefixes in a list.
abbrev pub addresses : ℕ → List TrieNode → ℕ
addresses m [] = 0
addresses m (e ∷ es) = 2 ^ (m - e.prefix.bitlen) + addresses m es

wrap : (a b c : ℕ) → ((a + b % 2 ^ 128) % 2 ^ 128 + c) % 2 ^ 128 ≡ (a + (b + c)) % 2 ^ 128
wrap a b c = omega arith

-- One step of `coverage_loop` at a node that is counted, and at another one.
coverage_counts :
    (fuel m : ℕ) (k : Kind) (q : NetAddr) (v : ℕ) (l r : Tree) (ts : List Tree) (acc : ℕ)
    → is_first k q ≡ true
    → q.bitlen < m + 1
    → coverage_loop (suc fuel) m (record { curr = node k q v l r; stack = ts }) acc
      ≡ coverage_loop fuel m (pop_node ts) ((acc + 2 ^ (m - q.bitlen) % 2 ^ 128) % 2 ^ 128)
unfolding coverage_loop
coverage_counts fuel m k q v l r ts acc first lt =
    let fits : ltb m q.bitlen ≡ false = ground arith in
    ap
      (λ b. elim b [
        | true ↦ elim (ltb m q.bitlen) [
          | true ↦ none
          | false ↦
              coverage_loop fuel m (pop_node ts) ((acc + 2 ^ (m - q.bitlen) % 2 ^ 128) % 2 ^ 128)
        ]
        | false ↦ elim (move_next (m + 1) l r ts) [
          | none ↦ none
          | some it ↦ coverage_loop fuel m it acc
        ]
      ])
      first
    ∙ ap
        (λ b. elim b [
          | true ↦ none
          | false ↦
              coverage_loop fuel m (pop_node ts) ((acc + 2 ^ (m - q.bitlen) % 2 ^ 128) % 2 ^ 128)
        ])
        fits

coverage_moves :
    (fuel m : ℕ) (k : Kind) (q : NetAddr) (v : ℕ) (l r : Tree) (ts : List Tree) (acc : ℕ)
    (it : PatIterator)
    → is_first k q ≡ false
    → move_next (m + 1) l r ts ≡ some it
    → coverage_loop (suc fuel) m (record { curr = node k q v l r; stack = ts }) acc
      ≡ coverage_loop fuel m it acc
unfolding coverage_loop
coverage_moves fuel m k q v l r ts acc it other e =
    ap
      (λ b. elim b [
        | true ↦ elim (ltb m q.bitlen) [
          | true ↦ none
          | false ↦
              coverage_loop fuel m (pop_node ts) ((acc + 2 ^ (m - q.bitlen) % 2 ^ 128) % 2 ^ 128)
        ]
        | false ↦ elim (move_next (m + 1) l r ts) [
          | none ↦ none
          | some i ↦ coverage_loop fuel m i acc
        ]
      ])
      other
    ∙ ap (λ o. elim o [ none ↦ none | some i ↦ coverage_loop fuel m i acc ]) e

pub firsts-counted :
    (k : Kind) (q : NetAddr) (v : ℕ) (l r : Tree)
    → is_first k q ≡ true
    → firsts (node k q v l r) ≡ entry q v ∷ []
firsts-counted plain q v l r e = ground (arith, e)
firsts-counted glue q v l r e = cc
firsts-counted released q v l r e = cc

pub firsts-other :
    (k : Kind) (q : NetAddr) (v : ℕ) (l r : Tree)
    → is_first k q ≡ false
    → firsts (node k q v l r) ≡ firsts l ++ firsts r
firsts-other plain q v l r e = ground (arith, e)
firsts-other glue q v l r e = refl
firsts-other released q v l r e = refl

coverage_loop_lem :
    (fuel m : ℕ) (t : Tree) (ts : List Tree) (acc : ℕ)
    → IsVisit (m + 1) (record { curr = t; stack = ts })
    → size_of t + size_of_all ts < fuel
    → acc < 2 ^ 128
    → coverage_loop fuel m (record { curr = t; stack = ts }) acc
      ≡ some ((acc + addresses m (firsts t ++ of_all firsts ts)) % 2 ^ 128)
unfolding coverage_loop
coverage_loop_lem zero m t ts acc h lt b = absurd (omega (arith, lt))
coverage_loop_lem (suc fuel) m nil ts acc h lt b = ap some (
    let small : acc ≡ (acc + 0) % 2 ^ 128 = omega arith in
    small ∙ ap (λ xs. (acc + addresses m (of_all firsts xs)) % 2 ^ 128) (sym h.deep))
coverage_loop_lem (suc fuel) m (node k q v l r) ts acc h lt b = elim (Bool-cases (is_first k q)) [
  | inl first ↦
      let p = pop_node_lem (m + 1) ts h.stacked in
      coverage_counts fuel m k q v l r ts acc first h.below.0
      ∙ coverage_loop_lem fuel m (pop_node ts).curr (pop_node ts).stack
          ((acc + 2 ^ (m - q.bitlen) % 2 ^ 128) % 2 ^ 128) p.visit (omega (arith, lt, p.count))
          (omega arith)
      ∙ ap
          (λ xs.
            some ((((acc + 2 ^ (m - q.bitlen) % 2 ^ 128) % 2 ^ 128) + addresses m xs) % 2 ^ 128))
          (p.rest firsts refl)
      ∙ ap some (wrap acc (2 ^ (m - q.bitlen)) (addresses m (of_all firsts ts)))
      ∙ ap (λ xs. some ((acc + addresses m (xs ++ of_all firsts ts)) % 2 ^ 128))
          (sym (firsts-counted k q v l r first))
  | inr other ↦
      let mv = move_next_lem (m + 1) k q v l r ts h.valid h.below h.deep h.stacked in
      coverage_moves fuel m k q v l r ts acc mv.next other mv.moved
      ∙ coverage_loop_lem fuel m mv.next.curr mv.next.stack acc mv.visit
          (omega (arith, lt, mv.count)) b
      ∙ ap (λ xs. some ((acc + addresses m xs) % 2 ^ 128)) (mv.rest firsts refl)
      ∙ ap (λ xs. some ((acc + addresses m (xs ++ of_all firsts ts)) % 2 ^ 128))
          (sym (firsts-other k q v l r other))
]

-- In a well-formed trie whose prefixes are not longer than its addresses, `patcoverage` ends and
-- returns the number of the addresses, modulo 2^128, of the topmost prefixes, that is of those with no
-- shorter prefix of the trie above them; a prefix of length 0 is passed over.
pub patcoverage_lem :
    (pt : Trie) (fuel : ℕ)
    → IsPatricia pt.head
    → Below (pt.maxbitlen + 1) pt.head
    → size_of pt.head < fuel
    → patcoverage fuel pt ≡ some (addresses pt.maxbitlen (firsts pt.head) % 2 ^ 128)
unfolding patcoverage
patcoverage_lem pt fuel wf fits lt =
    coverage_loop_lem fuel pt.maxbitlen pt.head [] 0
      (start-IsVisit (pt.maxbitlen + 1) pt.head wf fits) (omega (arith, lt)) (omega arith)
    ∙ ap some (
        let zero_add : (0 + addresses pt.maxbitlen (firsts pt.head ++ []))
            ≡ addresses pt.maxbitlen (firsts pt.head ++ []) =
          omega arith in
        ap (λ n. n % 2 ^ 128) zero_add
        ∙ ap (λ xs. addresses pt.maxbitlen xs % 2 ^ 128) (append-nil (firsts pt.head)))
