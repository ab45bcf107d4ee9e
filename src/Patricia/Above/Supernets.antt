-- ===== src/Patricia/Above/Supernets.antt =====
-- `patgetsupernetsofn` against the prefixes of the trie that cover a given one.
use isocore.Base.{
  ℕ, ◌+◌, ◌≤◌, ◌<◌, ◌≡◌, refl, sym, ap, ◌∙◌, arith, Bool, true, false, not, ◌&&◌, ltb, leb, lt→ltb,
  List, [], ◌∷◌, ◌++◌, some, length, append-nil, append_assoc, if◌then◌else◌, Bool-cases, inl, inr,
  ◌⊎◌,
}
use isocore.NetAddr.{NetAddr, patcompwithmask}
use isocore.Patricia.{
  Tree, nil, node, Kind, plain, glue, released, TrieNode, Trie, is_glue, is_released, is_nil,
  bit_of,
}
use isocore.Patricia.Search.{entry, search_supernets, patgetsupernetsofn}
use isocore.Patricia.Shape.{entries, Every, HangsBelow, NodeIsValid, IsPatricia}
use isocore.Patricia.Lookup.{IsQuery, if_is_true, if_is_false}
use isocore.Patricia.Above.{
  filter_by, IsAbove, one_side, nothing_below, nothing_under, filter_by-counted, filter_by-passed,
}

-- The prefix `q` is `p` or a supernet of it.
abbrev pub covers : NetAddr → NetAddr → Bool
covers p q = leb q.bitlen p.bitlen && patcompwithmask q p q.bitlen

pub covers-IsAbove : (p : NetAddr) → IsAbove p (covers p)
covers-IsAbove p = record { shorter = λ q e. first q e; agree = λ q e. second q e }
  where
    first : (q : NetAddr) → covers p q ≡ true → q.bitlen ≤ p.bitlen
    first q e = ground (arith, e)

    second : (q : NetAddr) → covers p q ≡ true → patcompwithmask q p q.bitlen ≡ true
    second q e = ground (arith, e)

abbrev root_length : Tree → ℕ
root_length nil = 0
root_length (node k q v l r) = q.bitlen

root-below :
    (n : ℕ) (b : Bool) (t : Tree)
    → Every (HangsBelow n b) t
    → (is_nil t ≡ true) ⊎ (n + 1 ≤ root_length t)
root-below n b nil h = inl refl
root-below n b (node k q v l r) h = inr (omega (arith, h.0.0))

module _ (p : NetAddr) (query : IsQuery p) (m : ℕ) (fits : p.bitlen ≤ m) where
  -- One step of the loop at a glue node, and at one with a prefix.
  supernets_glue :
      (q : NetAddr) (v : ℕ) (l r : Tree) (res : List TrieNode) (b : Bool)
      → ltb q.bitlen p.bitlen ≡ true
      → bit_of p q.bitlen ≡ b
      → search_supernets m (node glue q v l r) p res
        ≡ (if b then search_supernets m r p res else search_supernets m l p res)
  unfolding search_supernets
  supernets_glue q v l r res b lt side =
      let inside : ltb q.bitlen m ≡ true = ground (arith, lt, fits) in
      ground (arith, lt, side, inside)

  supernets_plain :
      (q : NetAddr) (v : ℕ) (l r : Tree) (res : List TrieNode) (b : Bool)
      → ltb q.bitlen p.bitlen ≡ true
      → bit_of p q.bitlen ≡ b
      → patcompwithmask q p q.bitlen ≡ true
      → search_supernets m (node plain q v l r) p res ≡ (
          if b
          then search_supernets m r p (res ++ entry q v ∷ [])
          else search_supernets m l p (res ++ entry q v ∷ []))
  unfolding search_supernets
  supernets_plain q v l r res b lt side comp =
      let inside : ltb q.bitlen m ≡ true = ground (arith, lt, fits) in
      ground (arith, lt, side, inside, comp)

  supernets_stops :
      (q : NetAddr) (v : ℕ) (l r : Tree) (res : List TrieNode)
      → ltb q.bitlen p.bitlen ≡ true
      → patcompwithmask q p q.bitlen ≡ false
      → search_supernets m (node plain q v l r) p res ≡ some res
  unfolding search_supernets
  supernets_stops q v l r res lt comp =
      let inside : ltb q.bitlen m ≡ true = ground (arith, lt, fits) in
      ground (arith, lt, inside, comp)

  supernets_ends :
      (k : Kind) (q : NetAddr) (v : ℕ) (l r : Tree) (res : List TrieNode)
      → is_released k ≡ false
      → ltb q.bitlen p.bitlen ≡ false
      → search_supernets m (node k q v l r) p res
        ≡ some (
            if (not (is_glue k) && leb q.bitlen p.bitlen) && patcompwithmask q p p.bitlen
            then (res ++ entry q v ∷ [])
            else res)
  unfolding search_supernets
  supernets_ends k q v l r res live ge = ground (arith, live, ge)

  pub covers_same :
      (q : NetAddr)
      → ltb q.bitlen p.bitlen ≡ false
      → covers p q ≡ (leb q.bitlen p.bitlen && patcompwithmask q p p.bitlen)
  covers_same q ge = elim (Bool-cases (leb q.bitlen p.bitlen)) [
    | inl le ↦
        let same : q.bitlen ≡ p.bitlen = ground (arith, ge, le) in
        ap (λ n. leb q.bitlen p.bitlen && patcompwithmask q p n) same
    | inr gt ↦ rw gt refl
  ]

  pub covers_shorter :
      (q : NetAddr)
      → ltb q.bitlen p.bitlen ≡ true
      → patcompwithmask q p q.bitlen ≡ true
      → covers p q ≡ true
  covers_shorter q lt comp = ground (arith, lt, comp)

  supernets_here :
      (s : List ℕ) (k : Kind) (q : NetAddr) (v : ℕ) (l r : Tree) (res : List TrieNode)
      → NodeIsValid s k q l r
      → ltb q.bitlen p.bitlen ≡ false
      → (if (not (is_glue k) && leb q.bitlen p.bitlen) && patcompwithmask q p p.bitlen
          then (res ++ entry q v ∷ [])
          else res)
        ≡ res ++ filter_by (covers p) (entries (node k q v l r))
  supernets_here s glue q v l r res ok ge =
      sym (append-nil res)
      ∙ ap (λ xs. res ++ xs)
          (sym (
            nothing_below p query (covers p) (covers-IsAbove p) s glue q l r ok
              (ground (arith, ge))))
  supernets_here s released q v l r res ok ge = absurd (cc (ok.in_tree))
  supernets_here s plain q v l r res ok ge =
      let below =
        nothing_below p query (covers p) (covers-IsAbove p) s plain q l r ok (ground (arith, ge)) in
      ap (λ b. if b then (res ++ entry q v ∷ []) else res) (sym (covers_same q ge))
      ∙ elim (Bool-cases (covers p q)) [
        | inl counted ↦
            if_is_true (covers p q) _ _ counted
            ∙ ap (λ xs. res ++ xs)
                (ap (λ xs. entry q v ∷ xs) (sym below)
                  ∙ sym (
                      filter_by-counted p query (covers p) (covers-IsAbove p) q v
                        (entries l ++ entries r) counted))
        | inr passed ↦
            if_is_false (covers p q) _ _ passed
            ∙ sym (append-nil res)
            ∙ ap (λ xs. res ++ xs)
                (sym below
                  ∙ sym (
                      filter_by-passed p query (covers p) (covers-IsAbove p) q v
                        (entries l ++ entries r) passed))
      ]

  -- The last side of the loop, with the results in hand.
  pub search_supernets_lem :
      (t : Tree) (res : List TrieNode)
      → IsPatricia t
      → search_supernets m t p res ≡ some (res ++ filter_by (covers p) (entries t))
  search_supernets_lem nil res wf = unfold search_supernets in ap some (sym (append-nil res))
  search_supernets_lem (node released q v l r) res ((s, ok), wl, wr) = absurd (cc (ok.in_tree))
  search_supernets_lem (node glue q v l r) res ((s, ok), wl, wr) =
      elim (Bool-cases (ltb q.bitlen p.bitlen)) [
        | inr ge ↦
            supernets_ends glue q v l r res refl ge
            ∙ ap some (supernets_here s glue q v l r res ok ge)
        | inl lt ↦ elim (Bool-cases (bit_of p q.bitlen)) [
          | inl right ↦
              supernets_glue q v l r res true lt right
              ∙ search_supernets_lem r res wr
              ∙ ap (λ xs. some (res ++ xs))
                  (sym (
                    one_side p query (covers p) (covers-IsAbove p) s glue q l r true ok wl wr
                      right))
          | inr left ↦
              supernets_glue q v l r res false lt left
              ∙ search_supernets_lem l res wl
              ∙ ap (λ xs. some (res ++ xs))
                  (sym (
                    one_side p query (covers p) (covers-IsAbove p) s glue q l r false ok wl wr
                      left))
        ]
      ]
  search_supernets_lem (node plain q v l r) res ((s, ok), wl, wr) =
      elim (Bool-cases (ltb q.bitlen p.bitlen)) [
        | inr ge ↦
            supernets_ends plain q v l r res refl ge
            ∙ ap some (supernets_here s plain q v l r res ok ge)
        | inl lt ↦ elim (Bool-cases (patcompwithmask q p q.bitlen)) [
          | inr differs ↦
              supernets_stops q v l r res lt differs
              ∙ ap some (
                  sym (append-nil res)
                  ∙ ap (λ xs. res ++ xs)
                      (sym (
                          nothing_under p query (covers p) (covers-IsAbove p) s q l r ok wl wr
                            (ground (arith, lt)) differs)
                        ∙ sym (
                            filter_by-passed p query (covers p) (covers-IsAbove p) q v
                              (entries l ++ entries r) (ground (arith, differs)))))
          | inl comp ↦
              let counted =
                filter_by-counted p query (covers p) (covers-IsAbove p) q v (entries l ++ entries r)
                  (covers_shorter q lt comp) in
              elim (Bool-cases (bit_of p q.bitlen)) [
                | inl right ↦
                    supernets_plain q v l r res true lt right comp
                    ∙ search_supernets_lem r (res ++ entry q v ∷ []) wr
                    ∙ ap some (append_assoc res (entry q v ∷ []) (filter_by (covers p) (entries r)))
                    ∙ ap (λ xs. some (res ++ xs))
                        (ap (λ xs. entry q v ∷ xs)
                            (sym (
                              one_side p query (covers p) (covers-IsAbove p) s plain q l r true ok
                                wl wr right))
                          ∙ sym counted)
                | inr left ↦
                    supernets_plain q v l r res false lt left comp
                    ∙ search_supernets_lem l (res ++ entry q v ∷ []) wl
                    ∙ ap some (append_assoc res (entry q v ∷ []) (filter_by (covers p) (entries l)))
                    ∙ ap (λ xs. some (res ++ xs))
                        (ap (λ xs. entry q v ∷ xs)
                            (sym (
                              one_side p query (covers p) (covers-IsAbove p) s plain q l r false ok
                                wl wr left))
                          ∙ sym counted)
              ]
        ]
      ]

  -- The prefixes that cover `p` have different lengths.
  length-own :
      (k : Kind) (q : NetAddr) (v : ℕ) (l r : Tree)
      → length (filter_by (covers p) (entries (node k q v l r)))
        ≤ length (filter_by (covers p) (entries l ++ entries r)) + 1
  length-own glue q v l r = omega arith
  length-own released q v l r = omega arith
  length-own plain q v l r = elim (Bool-cases (covers p q)) [
    | inl counted ↦
        rw
          (ap length (
            filter_by-counted p query (covers p) (covers-IsAbove p) q v (entries l ++ entries r)
              counted))
          (omega arith)
    | inr passed ↦
        rw
          (ap length (
            filter_by-passed p query (covers p) (covers-IsAbove p) q v (entries l ++ entries r)
              passed))
          (omega arith)
  ]

  entries-longer :
      (s : List ℕ) (k : Kind) (q : NetAddr) (v : ℕ) (l r : Tree)
      → NodeIsValid s k q l r
      → p.bitlen < q.bitlen
      → filter_by (covers p) (entries (node k q v l r)) ≡ []
  entries-longer s glue q v l r ok gt =
      nothing_below p query (covers p) (covers-IsAbove p) s glue q l r ok (omega (arith, gt))
  entries-longer s released q v l r ok gt =
      nothing_below p query (covers p) (covers-IsAbove p) s released q l r ok (omega (arith, gt))
  entries-longer s plain q v l r ok gt =
      let passed : covers p q ≡ false = ground (arith, gt) in
      filter_by-passed p query (covers p) (covers-IsAbove p) q v (entries l ++ entries r) passed
      ∙ nothing_below p query (covers p) (covers-IsAbove p) s plain q l r ok (omega (arith, gt))

  length-supernets :
      (t : Tree) (n : ℕ)
      → IsPatricia t
      → (is_nil t ≡ true) ⊎ (n ≤ root_length t)
      → n ≤ p.bitlen + 1
      → length (filter_by (covers p) (entries t)) + n ≤ p.bitlen + 1
  length-supernets nil n wf deep le = omega (arith, le)
  length-supernets (node k q v l r) n wf (inl e) le = cc
  length-supernets (node k q v l r) n ((s, ok), wl, wr) (inr deep) le =
      elim (Bool-cases (leb q.bitlen p.bitlen)) [
        | inr gt ↦
            let empty = ap length (entries-longer s k q v l r ok (ground (arith, gt))) in
            omega (arith, empty, le)
        | inl short ↦ elim (Bool-cases (bit_of p q.bitlen)) [
          | inl right ↦
              let side =
                ap length
                  (one_side p query (covers p) (covers-IsAbove p) s k q l r true ok wl wr right) in
              let child =
                length-supernets r (q.bitlen + 1) wr (root-below q.bitlen true r ok.right)
                  (ground (arith, short)) in
              omega (arith, length-own k q v l r, side, child, deep)
          | inr left ↦
              let side =
                ap length
                  (one_side p query (covers p) (covers-IsAbove p) s k q l r false ok wl wr left) in
              let child =
                length-supernets l (q.bitlen + 1) wl (root-below q.bitlen false l ok.left)
                  (ground (arith, short)) in
              omega (arith, length-own k q v l r, side, child, deep)
        ]
      ]

supernets_step :
    (pt : Trie) (p : NetAddr) (res : List TrieNode)
    → is_nil pt.head ≡ false
    → search_supernets pt.maxbitlen pt.head p [] ≡ some res
    → length res < p.bitlen + 2
    → patgetsupernetsofn true pt p ≡ some (some res)
unfolding patgetsupernetsofn
supernets_step pt p res some_head ran lt =
    let inside : ltb (length res) (p.bitlen + 2) ≡ true = lt→ltb (length res) (p.bitlen + 2) lt in
    ground (arith, some_head, ran, inside)

-- In a well-formed trie that is not empty, for a well-formed prefix that is not longer than its
-- addresses, `patgetsupernetsofn` never faults when `malloc` succeeds: its results fit into the array,
-- and they are the nodes of the trie whose prefix covers the given one, in the order of the tree.
pub patgetsupernetsofn_lem :
    (pt : Trie) (p : NetAddr)
    → IsPatricia pt.head
    → is_nil pt.head ≡ false
    → IsQuery p
    → p.bitlen ≤ pt.maxbitlen
    → patgetsupernetsofn true pt p ≡ some (some (filter_by (covers p) (entries pt.head)))
patgetsupernetsofn_lem pt p wf some_head query fits =
    let bound =
      length-supernets p query pt.maxbitlen fits pt.head 0 wf (inr (omega arith)) (omega arith) in
    supernets_step pt p (filter_by (covers p) (entries pt.head)) some_head
      (search_supernets_lem p query pt.maxbitlen fits pt.head [] wf) (omega (arith, bound))
