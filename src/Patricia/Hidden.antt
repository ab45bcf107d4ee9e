-- ===== src/Patricia/Hidden.antt =====
-- What `patinsertn` and `patremoven` do against their purpose (src/patriciatrie.c).
use isocore.Base.{
  ℕ, ◌<◌, ◌≡◌, ◌==◌, refl, sym, ap, ◌∙◌, arith, Bool, true, false, [], Option, none, some, ltb,
  lt→ltb, if◌then◌else◌, Bool-cases, inl, inr,
}
use isocore.NetAddr.{NetAddr}
use isocore.Patricia.{Tree, nil, node, plain, glue, Trie, is_nil, bit_of}
use isocore.Patricia.Search.{entry, search_exact, patsearchexactn}
use isocore.Patricia.Pages.{getfreenode, taken}
use isocore.Patricia.Insert.{
  descend, differ_bit_of, ascend, Inserted, insert_at, insert_from, insert_new, insert_first,
  patinsertn, join, new_node, glue_prefix, with_head, one_more,
}

head_of : Option Inserted → Tree
head_of none = nil
head_of (some res) = res.trie.head

join-right :
    (maxbits : ℕ) (p : NetAddr) (n : Tree)
    → p.bitlen < maxbits
    → bit_of p p.bitlen ≡ true
    → join maxbits p.bitlen p (new_node p) n ≡ node glue (glue_prefix p.bitlen) 0 n (new_node p)
unfolding join
join-right maxbits p n fits side = rw (lt→ltb p.bitlen maxbits fits, side) refl

join-left :
    (maxbits : ℕ) (p : NetAddr) (n : Tree)
    → bit_of p p.bitlen ≡ false
    → join maxbits p.bitlen p (new_node p) n ≡ node glue (glue_prefix p.bitlen) 0 (new_node p) n
unfolding join
join-left maxbits p n side = elim (Bool-cases (ltb p.bitlen maxbits)) [
  | inl fits ↦ rw (fits, side) refl
  | inr out ↦ rw out refl
]

search_exact-leaf :
    (p s : NetAddr) → ltb p.bitlen s.bitlen ≡ true → search_exact (new_node p) s ≡ some none
unfolding search_exact
search_exact-leaf p s longer = ground (arith, longer)

search_exact-side :
    (p s : NetAddr) (l r : Tree) (b : Bool)
    → ltb p.bitlen s.bitlen ≡ true
    → bit_of s p.bitlen ≡ b
    → search_exact (node glue (glue_prefix p.bitlen) 0 l r) s
      ≡ (if b then search_exact r s else search_exact l s)
unfolding search_exact glue_prefix
search_exact-side p s l r b longer side = ground (arith, longer, side)

-- The search for a longer prefix that takes the side of the new node comes to the new node, a leaf.
search_exact-join :
    (maxbits : ℕ) (p s : NetAddr) (n : Tree)
    → p.bitlen < maxbits
    → p.bitlen < s.bitlen
    → bit_of s p.bitlen ≡ bit_of p p.bitlen
    → search_exact (join maxbits p.bitlen p (new_node p) n) s ≡ some none
search_exact-join maxbits p s n fits longer same =
    let long : ltb p.bitlen s.bitlen ≡ true = lt→ltb p.bitlen s.bitlen longer in
    elim (Bool-cases (bit_of p p.bitlen)) [
      | inl right ↦
          ap (λ t. search_exact t s) (join-right maxbits p n fits right)
          ∙ search_exact-side p s n (new_node p) true long (same ∙ right)
          ∙ search_exact-leaf p s long
      | inr left ↦
          ap (λ t. search_exact t s) (join-left maxbits p n left)
          ∙ search_exact-side p s (new_node p) n false long (same ∙ left)
          ∙ search_exact-leaf p s long
    ]

-- The trie with the new node on one side of its head.
abbrev joined : Trie → Trie → NetAddr → Tree → Inserted
joined pt last p n = record {
  trie = with_head last (join pt.maxbitlen p.bitlen p (new_node p) n) (one_more pt.nprefs);
  returned = some (entry p 0);
  inserted = true;
}

insert_new-joined :
    (memory : Bool) (pt a b : Trie) (p q : NetAddr) (v : ℕ) (l r : Tree)
    → (q.bitlen == p.bitlen) ≡ false
    → getfreenode memory pt ≡ taken a
    → getfreenode memory a ≡ taken b
    → insert_new memory pt p p.bitlen (node plain q v l r) []
      ≡ some (joined pt b p (node plain q v l r))
unfolding insert_new
insert_new-joined memory pt a b p q v l r other one two = ground (arith, other, one, two)

insert_at-joined :
    (memory : Bool) (pt a b : Trie) (p q : NetAddr) (v : ℕ) (l r : Tree)
    → (q.bitlen == p.bitlen) ≡ false
    → getfreenode memory pt ≡ taken a
    → getfreenode memory a ≡ taken b
    → insert_at memory pt p p.bitlen (ascend p.bitlen (node plain q v l r) [])
      ≡ some (joined pt b p (node plain q v l r))
unfolding insert_at ascend
insert_at-joined memory pt a b p q v l r other one two =
    let new = insert_new-joined memory pt a b p q v l r other one two in ground (arith, other, new)

descend-stops :
    (maxbits : ℕ) (p q : NetAddr) (v : ℕ) (l r : Tree)
    → ltb q.bitlen p.bitlen ≡ false
    → descend maxbits (node plain q v l r) p []
      ≡ some (record { at = node plain q v l r; way = [] })
unfolding descend
descend-stops maxbits p q v l r e = ground (arith, e)

insert_from-joined :
    (bitclz : ℕ → ℕ) (memory : Bool) (pt a b : Trie) (p q : NetAddr) (v : ℕ) (l r : Tree)
    → (q.bitlen == p.bitlen) ≡ false
    → differ_bit_of bitclz p q ≡ some p.bitlen
    → getfreenode memory pt ≡ taken a
    → getfreenode memory a ≡ taken b
    → insert_from bitclz memory pt p (record { at = node plain q v l r; way = [] })
      ≡ some (joined pt b p (node plain q v l r))
unfolding insert_from
insert_from-joined bitclz memory pt a b p q v l r other d one two =
    ap
      (λ o. elim o [
        | none ↦ none
        | some x ↦ insert_at memory pt p x (ascend x (node plain q v l r) [])
      ])
      d
    ∙ insert_at-joined memory pt a b p q v l r other one two

patinsertn-joined :
    (bitclz : ℕ → ℕ) (memory : Bool) (pt a b : Trie) (p q : NetAddr) (v : ℕ) (l r : Tree)
    → pt.head ≡ node plain q v l r
    → p.bitlen < q.bitlen
    → differ_bit_of bitclz p q ≡ some p.bitlen
    → getfreenode memory pt ≡ taken a
    → getfreenode memory a ≡ taken b
    → patinsertn bitclz memory pt p ≡ some (joined pt b p (node plain q v l r))
unfolding patinsertn
patinsertn-joined bitclz memory pt a b p q v l r at shorter d one two =
    let stays : ltb q.bitlen p.bitlen ≡ false = ground arith in
    let other : (q.bitlen == p.bitlen) ≡ false = ground arith in
    ap
      (λ t. if is_nil t then insert_first memory pt p else (elim (descend pt.maxbitlen t p []) [
        | none ↦ none
        | some spot ↦ insert_from bitclz memory pt p spot
      ]))
      at
    ∙ ap (λ o. elim o [ none ↦ none | some spot ↦ insert_from bitclz memory pt p spot ])
        (descend-stops pt.maxbitlen p q v l r stays)
    ∙ insert_from-joined bitclz memory pt a b p q v l r other d one two

-- When the head of a trie holds a prefix that starts with the bits of the shorter prefix `p`, and there
-- are two nodes to take, `patinsertn` of `p` hides each longer prefix that has the bit of `p` after
-- its bits, also the one of the head: a search for it ends at the new node, without a result.
pub patinsertn-hides :
    (bitclz : ℕ → ℕ) (memory : Bool) (pt a b : Trie) (p q s : NetAddr) (v : ℕ) (l r : Tree)
    → pt.head ≡ node plain q v l r
    → p.bitlen < q.bitlen
    → p.bitlen < pt.maxbitlen
    → differ_bit_of bitclz p q ≡ some p.bitlen
    → getfreenode memory pt ≡ taken a
    → getfreenode memory a ≡ taken b
    → p.bitlen < s.bitlen
    → bit_of s p.bitlen ≡ bit_of p p.bitlen
    → (res : Inserted) → patinsertn bitclz memory pt p ≡ some res
    → patsearchexactn res.trie s ≡ some none
unfolding patsearchexactn head_of
patinsertn-hides bitclz memory pt a b p q s v l r at shorter fits d one two longer same res run =
    let is_joined : some (joined pt b p (node plain q v l r)) ≡ some res =
      sym (patinsertn-joined bitclz memory pt a b p q v l r at shorter d one two) ∙ run in
    ap (λ o. search_exact (head_of o) s) (sym is_joined)
    ∙ search_exact-join pt.maxbitlen p s (node plain q v l r) fits longer same
