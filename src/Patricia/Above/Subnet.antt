-- ===== src/Patricia/Above/Subnet.antt =====
-- `patissubnetofn` against the prefixes of the trie that cover a given one.
use isocore.Base.{
  ℕ, ◌≤◌, ◌≡◌, refl, sym, ap, ◌∙◌, arith, Bool, true, false, not, ◌&&◌, ltb, leb, List, [], ◌∷◌,
  ◌++◌, some, if◌then◌else◌, Bool-cases, inl, inr,
}
use isocore.NetAddr.{NetAddr, patcompwithmask}
use isocore.Patricia.{
  Tree, nil, node, Kind, plain, glue, released, TrieNode, Trie, is_glue, is_released, bit_of,
}
use isocore.Patricia.Search.{search_subnet, patissubnetofn}
use isocore.Patricia.Shape.{entries, IsPatricia}
use isocore.Patricia.Lookup.{IsQuery}
use isocore.Patricia.Above.{
  filter_by, one_side, nothing_below, nothing_under, filter_by-counted, filter_by-passed,
}
use isocore.Patricia.Above.Supernets.{covers, covers-IsAbove, covers_same, covers_shorter}

abbrev pub is_empty : List TrieNode → Bool
is_empty [] = true
is_empty (x ∷ xs) = false

module _ (p : NetAddr) (query : IsQuery p) (m : ℕ) (fits : p.bitlen ≤ m) where
  subnet_glue :
      (q : NetAddr) (v : ℕ) (l r : Tree) (b : Bool)
      → ltb q.bitlen p.bitlen ≡ true
      → bit_of p q.bitlen ≡ b
      → search_subnet m (node glue q v l r) p
        ≡ (if b then search_subnet m r p else search_subnet m l p)
  unfolding search_subnet
  subnet_glue q v l r b lt side =
      let inside : ltb q.bitlen m ≡ true = ground (arith, lt, fits) in
      ground (arith, lt, side, inside)

  subnet_plain :
      (q : NetAddr) (v : ℕ) (l r : Tree) (b : Bool)
      → ltb q.bitlen p.bitlen ≡ true
      → patcompwithmask q p q.bitlen ≡ b
      → search_subnet m (node plain q v l r) p ≡ some b
  unfolding search_subnet
  subnet_plain q v l r b lt comp =
      let inside : ltb q.bitlen m ≡ true = ground (arith, lt, fits) in
      ground (arith, lt, comp, inside)

  subnet_ends :
      (k : Kind) (q : NetAddr) (v : ℕ) (l r : Tree)
      → is_released k ≡ false
      → ltb q.bitlen p.bitlen ≡ false
      → search_subnet m (node k q v l r) p
        ≡ some ((not (is_glue k) && leb q.bitlen p.bitlen) && patcompwithmask q p p.bitlen)
  unfolding search_subnet
  subnet_ends k q v l r live ge = ground (arith, live, ge)

  -- Whether a node or what is below it covers the prefix.
  found_here :
      (q : NetAddr) (v : ℕ) (l r : Tree)
      → filter_by (covers p) (entries l ++ entries r) ≡ []
      → covers p q ≡ not (is_empty (filter_by (covers p) (entries (node plain q v l r))))
  found_here q v l r below = elim (Bool-cases (covers p q)) [
    | inl counted ↦
        counted
        ∙ ap (λ xs. not (is_empty xs))
            (sym (
              filter_by-counted p query (covers p) (covers-IsAbove p) q v (entries l ++ entries r)
                counted))
    | inr passed ↦
        passed
        ∙ ap (λ xs. not (is_empty xs))
            (sym (
              filter_by-passed p query (covers p) (covers-IsAbove p) q v (entries l ++ entries r)
                passed
              ∙ below))
  ]

  search_subnet_lem :
      (t : Tree)
      → IsPatricia t
      → search_subnet m t p ≡ some (not (is_empty (filter_by (covers p) (entries t))))
  search_subnet_lem nil wf = unfold search_subnet in refl
  search_subnet_lem (node released q v l r) ((s, ok), wl, wr) = absurd (cc (ok.in_tree))
  search_subnet_lem (node glue q v l r) ((s, ok), wl, wr) =
      elim (Bool-cases (ltb q.bitlen p.bitlen)) [
        | inr ge ↦
            subnet_ends glue q v l r refl ge
            ∙ ap (λ xs. some (not (is_empty xs)))
                (sym (
                  nothing_below p query (covers p) (covers-IsAbove p) s glue q l r ok
                    (ground (arith, ge))))
        | inl lt ↦ elim (Bool-cases (bit_of p q.bitlen)) [
          | inl right ↦
              subnet_glue q v l r true lt right
              ∙ search_subnet_lem r wr
              ∙ ap (λ xs. some (not (is_empty xs)))
                  (sym (
                    one_side p query (covers p) (covers-IsAbove p) s glue q l r true ok wl wr
                      right))
          | inr left ↦
              subnet_glue q v l r false lt left
              ∙ search_subnet_lem l wl
              ∙ ap (λ xs. some (not (is_empty xs)))
                  (sym (
                    one_side p query (covers p) (covers-IsAbove p) s glue q l r false ok wl wr
                      left))
        ]
      ]
  search_subnet_lem (node plain q v l r) ((s, ok), wl, wr) =
      elim (Bool-cases (ltb q.bitlen p.bitlen)) [
        | inr ge ↦
            subnet_ends plain q v l r refl ge
            ∙ ap some (sym (covers_same p query m fits q ge))
            ∙ ap some (
                found_here q v l r (
                  nothing_below p query (covers p) (covers-IsAbove p) s plain q l r ok
                    (ground (arith, ge))))
        | inl lt ↦ elim (Bool-cases (patcompwithmask q p q.bitlen)) [
          | inl comp ↦
              let counted = covers_shorter p query m fits q lt comp in
              subnet_plain q v l r true lt comp
              ∙ ap (λ xs. some (not (is_empty xs)))
                  (sym (
                    filter_by-counted p query (covers p) (covers-IsAbove p) q v
                      (entries l ++ entries r) counted))
          | inr differs ↦
              let passed : covers p q ≡ false = ground (arith, differs) in
              subnet_plain q v l r false lt differs
              ∙ ap some (sym passed)
              ∙ ap some (
                  found_here q v l r (
                    nothing_under p query (covers p) (covers-IsAbove p) s q l r ok wl wr
                      (ground (arith, lt)) differs))
        ]
      ]

-- In a well-formed trie, for a well-formed prefix that is not longer than its addresses, `patissubnetofn`
-- never faults, and is true exactly when a prefix of the trie covers the given one.
pub patissubnetofn_lem :
    (pt : Trie) (p : NetAddr)
    → IsPatricia pt.head
    → IsQuery p
    → p.bitlen ≤ pt.maxbitlen
    → patissubnetofn pt p ≡ some (not (is_empty (filter_by (covers p) (entries pt.head))))
unfolding patissubnetofn
patissubnetofn_lem pt p wf query fits = search_subnet_lem p query pt.maxbitlen fits pt.head wf
