-- ===== src/Patricia/Above/Best.antt =====
-- `patsearchbestn` against the longest strict supernet.
use isocore.Base.{
  ℕ, ◌≤◌, ◌≡◌, refl, sym, ap, ◌∙◌, arith, Bool, true, false, ◌&&◌, ltb, leb, List, [], ◌∷◌, ◌++◌,
  Option, none, some, if◌then◌else◌, Bool-cases, inl, inr,
}
use isocore.NetAddr.{NetAddr, patcompwithmask}
use isocore.Patricia.{
  Tree, nil, node, Kind, plain, glue, released, TrieNode, Trie, is_released, bit_of,
}
use isocore.Patricia.Search.{entry, search_best, patsearchbestn}
use isocore.Patricia.Shape.{entries, NodeIsValid, IsPatricia}
use isocore.Patricia.Lookup.{IsQuery}
use isocore.Patricia.Above.{
  filter_by, IsAbove, one_side, nothing_below, nothing_under, filter_by-counted, filter_by-passed,
}

-- The prefix `q` is a shorter supernet of `p`.
abbrev pub is_above : NetAddr → NetAddr → Bool
is_above p q = ltb q.bitlen p.bitlen && patcompwithmask q p q.bitlen

is_above-IsAbove : (p : NetAddr) → IsAbove p (is_above p)
is_above-IsAbove p = record { shorter = λ q e. first q e; agree = λ q e. second q e }
  where
    first : (q : NetAddr) → is_above p q ≡ true → q.bitlen ≤ p.bitlen
    first q e = ground (arith, e)

    second : (q : NetAddr) → is_above p q ≡ true → patcompwithmask q p q.bitlen ≡ true
    second q e = ground (arith, e)

-- The last element of a list, or what was found before.
abbrev pub last_of : Option TrieNode → List TrieNode → Option TrieNode
last_of o [] = o
last_of o (x ∷ xs) = last_of (some x) xs

module _ (p : NetAddr) (query : IsQuery p) where
  best_glue :
      (q : NetAddr) (v : ℕ) (l r : Tree) (o : Option TrieNode) (b : Bool)
      → ltb q.bitlen p.bitlen ≡ true
      → bit_of p q.bitlen ≡ b
      → search_best (node glue q v l r) p o ≡ (if b then search_best r p o else search_best l p o)
  unfolding search_best
  best_glue q v l r o b lt side = ground (arith, lt, side)

  best_plain :
      (q : NetAddr) (v : ℕ) (l r : Tree) (o : Option TrieNode) (b : Bool)
      → ltb q.bitlen p.bitlen ≡ true
      → bit_of p q.bitlen ≡ b
      → patcompwithmask q p q.bitlen ≡ true
      → search_best (node plain q v l r) p o
        ≡ (if b then search_best r p (some (entry q v)) else search_best l p (some (entry q v)))
  unfolding search_best
  best_plain q v l r o b lt side comp =
      let short : leb q.bitlen p.bitlen ≡ true = ground (arith, lt) in
      ground (arith, lt, side, short, comp)

  best_stops :
      (q : NetAddr) (v : ℕ) (l r : Tree) (o : Option TrieNode)
      → ltb q.bitlen p.bitlen ≡ true
      → patcompwithmask q p q.bitlen ≡ false
      → search_best (node plain q v l r) p o ≡ some o
  unfolding search_best
  best_stops q v l r o lt comp =
      let short : leb q.bitlen p.bitlen ≡ true = ground (arith, lt) in
      ground (arith, lt, short, comp)

  best_ends :
      (k : Kind) (q : NetAddr) (v : ℕ) (l r : Tree) (o : Option TrieNode)
      → is_released k ≡ false
      → ltb q.bitlen p.bitlen ≡ false
      → search_best (node k q v l r) p o ≡ some o
  unfolding search_best
  best_ends k q v l r o live ge = ground (arith, live, ge)

  nothing_here :
      (s : List ℕ) (k : Kind) (q : NetAddr) (v : ℕ) (l r : Tree)
      → NodeIsValid s k q l r
      → ltb q.bitlen p.bitlen ≡ false
      → filter_by (is_above p) (entries (node k q v l r)) ≡ []
  nothing_here s plain q v l r ok ge =
      let passed : is_above p q ≡ false = rw ge refl in
      filter_by-passed p query (is_above p) (is_above-IsAbove p) q v (entries l ++ entries r) passed
      ∙ nothing_below p query (is_above p) (is_above-IsAbove p) s plain q l r ok
          (ground (arith, ge))
  nothing_here s glue q v l r ok ge =
      nothing_below p query (is_above p) (is_above-IsAbove p) s glue q l r ok (ground (arith, ge))
  nothing_here s released q v l r ok ge =
      nothing_below p query (is_above p) (is_above-IsAbove p) s released q l r ok
        (ground (arith, ge))

  search_best_lem :
      (t : Tree) (o : Option TrieNode)
      → IsPatricia t
      → search_best t p o ≡ some (last_of o (filter_by (is_above p) (entries t)))
  search_best_lem nil o wf = unfold search_best in refl
  search_best_lem (node released q v l r) o ((s, ok), wl, wr) = absurd (cc (ok.in_tree))
  search_best_lem (node glue q v l r) o ((s, ok), wl, wr) =
      elim (Bool-cases (ltb q.bitlen p.bitlen)) [
        | inr ge ↦
            best_ends glue q v l r o refl ge
            ∙ ap (λ xs. some (last_of o xs)) (sym (nothing_here s glue q v l r ok ge))
        | inl lt ↦ elim (Bool-cases (bit_of p q.bitlen)) [
          | inl right ↦
              best_glue q v l r o true lt right
              ∙ search_best_lem r o wr
              ∙ ap (λ xs. some (last_of o xs))
                  (sym (
                    one_side p query (is_above p) (is_above-IsAbove p) s glue q l r true ok wl wr
                      right))
          | inr left ↦
              best_glue q v l r o false lt left
              ∙ search_best_lem l o wl
              ∙ ap (λ xs. some (last_of o xs))
                  (sym (
                    one_side p query (is_above p) (is_above-IsAbove p) s glue q l r false ok wl wr
                      left))
        ]
      ]
  search_best_lem (node plain q v l r) o ((s, ok), wl, wr) =
      elim (Bool-cases (ltb q.bitlen p.bitlen)) [
        | inr ge ↦
            best_ends plain q v l r o refl ge
            ∙ ap (λ xs. some (last_of o xs)) (sym (nothing_here s plain q v l r ok ge))
        | inl lt ↦ elim (Bool-cases (patcompwithmask q p q.bitlen)) [
          | inr differs ↦
              let passed : is_above p q ≡ false = ground (arith, lt, differs) in
              best_stops q v l r o lt differs
              ∙ ap (λ xs. some (last_of o xs))
                  (sym (
                    filter_by-passed p query (is_above p) (is_above-IsAbove p) q v
                      (entries l ++ entries r) passed
                    ∙ nothing_under p query (is_above p) (is_above-IsAbove p) s q l r ok wl wr
                        (ground (arith, lt)) differs))
          | inl comp ↦
              let above : is_above p q ≡ true = ground (arith, lt, comp) in
              let counted =
                filter_by-counted p query (is_above p) (is_above-IsAbove p) q v
                  (entries l ++ entries r) above in
              elim (Bool-cases (bit_of p q.bitlen)) [
                | inl right ↦
                    best_plain q v l r o true lt right comp
                    ∙ search_best_lem r (some (entry q v)) wr
                    ∙ ap (λ xs. some (last_of o xs))
                        (ap (λ xs. entry q v ∷ xs)
                            (sym (
                              one_side p query (is_above p) (is_above-IsAbove p) s plain q l r true
                                ok wl wr right))
                          ∙ sym counted)
                | inr left ↦
                    best_plain q v l r o false lt left comp
                    ∙ search_best_lem l (some (entry q v)) wl
                    ∙ ap (λ xs. some (last_of o xs))
                        (ap (λ xs. entry q v ∷ xs)
                            (sym (
                              one_side p query (is_above p) (is_above-IsAbove p) s plain q l r false
                                ok wl wr left))
                          ∙ sym counted)
              ]
        ]
      ]

-- In a well-formed trie, for a well-formed prefix, `patsearchbestn` never faults and finds the last node
-- of the list of those whose prefix is a supernet of the given one and shorter than it, or NULL: the
-- prefix itself is never its result.
pub patsearchbestn_lem :
    (pt : Trie) (p : NetAddr)
    → IsPatricia pt.head
    → IsQuery p
    → patsearchbestn pt p ≡ some (last_of none (filter_by (is_above p) (entries pt.head)))
unfolding patsearchbestn
patsearchbestn_lem pt p wf query = search_best_lem p query pt.head none wf
