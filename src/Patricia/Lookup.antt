-- ===== src/Patricia/Lookup.antt =====
-- `patsearchexactn` against a search through the list of the prefixes of the trie.
use isocore.Base.{
  ℕ, ◌≤◌, ◌<◌, ◌≡◌, ◌==◌, ◌≢◌, refl, sym, ap, ◌∙◌, arith, Bool, true, false, ◌||◌, List, [], ◌∷◌,
  ◌++◌, none, some, take, ltb, if◌then◌else◌, Bool-cases, inl, inr,
}
use isocore.NetAddr.{NetAddr, patcompwithmask}
use isocore.NetAddr.Bits.{bits}
use isocore.NetAddr.Compare.{IsAddr, patcompwithmask_lem}
use isocore.NetAddr.Checked.{&&_split}
use isocore.Patricia.{
  Tree, nil, node, Kind, plain, glue, released, TrieNode, Trie, is_glue, is_released, bit_of,
}
use isocore.Patricia.Search.{entry, search_exact, patsearchexactn}
use isocore.Patricia.BitOf.{bit_of-take}
use isocore.Patricia.Shape.{
  entries, Every, HangsBelow, NodeIsValid, IsPatricia, same_prefix, find_prefix,
}

-- A prefix that is searched for.
pub record IsQuery (p : NetAddr) : Type 0 where
  pub address : IsAddr p
  pub fits : p.bitlen ≤ 128

pub if_is_true {ℓ} : {A : Type ℓ} (b : Bool) (x y : A) → b ≡ true → (if b then x else y) ≡ x
if_is_true b x y e = rw e refl

pub if_is_false {ℓ} : {A : Type ℓ} (b : Bool) (x y : A) → b ≡ false → (if b then x else y) ≡ y
if_is_false b x y e = rw e refl

module _ (p : NetAddr) (query : IsQuery p) where
  pub find_prefix-append :
      (xs ys : List TrieNode)
      → find_prefix p xs ≡ none
      → find_prefix p (xs ++ ys) ≡ find_prefix p ys
  find_prefix-append [] ys h = refl
  find_prefix-append (x ∷ xs) ys h = ground (arith, find_prefix-append xs ys)

  pub find_prefix-append_left :
      (xs ys : List TrieNode)
      → find_prefix p ys ≡ none
      → find_prefix p (xs ++ ys) ≡ find_prefix p xs
  find_prefix-append_left [] ys h = h
  find_prefix-append_left (x ∷ xs) ys h = ground (arith, find_prefix-append_left xs ys)

  -- The same prefix on the other side of a node.
  same_prefix-other_side :
      (q : NetAddr) (n : ℕ) (b : Bool)
      → IsAddr q
      → n < q.bitlen
      → bit_of q n ≡ b
      → bit_of p n ≢ b
      → same_prefix q p ≡ false
  same_prefix-other_side q n b hq lt side other = elim (Bool-cases (same_prefix q p)) [
    | inr e ↦ e
    | inl e ↦
        let (len, comp) = &&_split (q.bitlen == p.bitlen) (patcompwithmask q p p.bitlen) e in
        let same : take p.bitlen (bits q.bytes) ≡ take p.bitlen (bits p.bytes) =
          (patcompwithmask_lem q p p.bitlen hq query.address query.fits).0 comp in
        absurd (
          other (
            sym (bit_of-take q p n p.bitlen hq query.address (ground arith) query.fits same)
            ∙ side))
  ]

  -- A subtree on the other side of a node does not hold the prefix.
  pub find_prefix-other_side :
      (t : Tree) (n : ℕ) (b : Bool)
      → IsPatricia t
      → Every (HangsBelow n b) t
      → bit_of p n ≢ b
      → find_prefix p (entries t) ≡ none
  find_prefix-other_side nil n b wf below other = refl
  find_prefix-other_side (node plain q v l r) n b ((s, ok), wl, wr) (own, bl, br) other =
      rw (same_prefix-other_side q n b (ok.address refl) own.0 (own.1 refl) other) (
        find_prefix-append (entries l) (entries r) (find_prefix-other_side l n b wl bl other)
        ∙ find_prefix-other_side r n b wr br other)
  find_prefix-other_side (node glue q v l r) n b ((s, ok), wl, wr) (own, bl, br) other =
      find_prefix-append (entries l) (entries r) (find_prefix-other_side l n b wl bl other)
      ∙ find_prefix-other_side r n b wr br other
  find_prefix-other_side (node released q v l r) n b ((s, ok), wl, wr) below other =
      absurd (cc (ok.in_tree))

  -- Longer prefixes are not the one.
  find_prefix-longer :
      (t : Tree) (n : ℕ) (b : Bool)
      → IsPatricia t
      → Every (HangsBelow n b) t
      → p.bitlen ≤ n
      → find_prefix p (entries t) ≡ none
  find_prefix-longer nil n b wf below le = refl
  find_prefix-longer (node plain q v l r) n b (ok, wl, wr) (own, bl, br) le = rw differs (
      find_prefix-append (entries l) (entries r) (find_prefix-longer l n b wl bl le)
      ∙ find_prefix-longer r n b wr br le)
    where
      differs : same_prefix q p ≡ false
      differs = ground (arith, own.0)
  find_prefix-longer (node glue q v l r) n b (ok, wl, wr) (own, bl, br) le =
      find_prefix-append (entries l) (entries r) (find_prefix-longer l n b wl bl le)
      ∙ find_prefix-longer r n b wr br le
  find_prefix-longer (node released q v l r) n b ((s, ok), wl, wr) below le =
      absurd (cc (ok.in_tree))

  -- `search_exact` at a node: it goes to one side, or ends.
  search_goes :
      (k : Kind) (q : NetAddr) (v : ℕ) (l r : Tree)
      → is_released k ≡ false
      → ltb q.bitlen p.bitlen ≡ true
      → search_exact (node k q v l r) p
        ≡ (if bit_of p q.bitlen then search_exact r p else search_exact l p)
  unfolding search_exact
  search_goes k q v l r live lt = ground (arith, live, lt)

  search_ends :
      (k : Kind) (q : NetAddr) (v : ℕ) (l r : Tree)
      → is_released k ≡ false
      → ltb q.bitlen p.bitlen ≡ false
      → search_exact (node k q v l r) p
        ≡ some (
            if ltb p.bitlen q.bitlen || is_glue k
            then none
            else (if patcompwithmask q p p.bitlen then some (entry q v) else none))
  unfolding search_exact
  search_ends k q v l r live ge = ground (arith, live, ge)

  -- A node with another length is not the one.
  pub find_prefix-shorter :
      (k : Kind) (q : NetAddr) (v : ℕ) (l r : Tree)
      → ltb q.bitlen p.bitlen ≡ true
      → find_prefix p (entries (node k q v l r)) ≡ find_prefix p (entries l ++ entries r)
  find_prefix-shorter plain q v l r lt =
      let differs : same_prefix q p ≡ false = ground arith in rw differs refl
  find_prefix-shorter glue q v l r lt = refl
  find_prefix-shorter released q v l r lt = refl

  find_prefix-below :
      (s : List ℕ) (k : Kind) (q : NetAddr) (v : ℕ) (l r : Tree)
      → NodeIsValid s k q l r
      → IsPatricia l
      → IsPatricia r
      → p.bitlen ≤ q.bitlen
      → find_prefix p (entries l ++ entries r) ≡ none
  find_prefix-below s k q v l r ok wl wr le =
      find_prefix-append (entries l) (entries r) (find_prefix-longer l q.bitlen false wl ok.left le)
      ∙ find_prefix-longer r q.bitlen true wr ok.right le

  pub find_prefix-here :
      (s : List ℕ) (k : Kind) (q : NetAddr) (v : ℕ) (l r : Tree)
      → NodeIsValid s k q l r
      → IsPatricia l
      → IsPatricia r
      → ltb q.bitlen p.bitlen ≡ false
      → (if ltb p.bitlen q.bitlen || is_glue k
          then none
          else (if patcompwithmask q p p.bitlen then some (entry q v) else none))
        ≡ find_prefix p (entries (node k q v l r))
  find_prefix-here s plain q v l r ok wl wr ge =
      ground (arith, find_prefix-below s plain q v l r ok wl wr)
  find_prefix-here s glue q v l r ok wl wr ge =
      ground (arith, find_prefix-below s glue q v l r ok wl wr)
  find_prefix-here s released q v l r ok wl wr ge = absurd (cc (ok.in_tree))

  pub search_exact_lem :
      (t : Tree) → IsPatricia t → search_exact t p ≡ some (find_prefix p (entries t))
  search_exact_lem nil wf = unfold search_exact in refl
  search_exact_lem (node k q v l r) ((s, ok), wl, wr) = elim (Bool-cases (ltb q.bitlen p.bitlen)) [
    | inl lt ↦ search_goes k q v l r ok.in_tree lt ∙ elim (Bool-cases (bit_of p q.bitlen)) [
      | inl right ↦
          if_is_true (bit_of p q.bitlen) _ _ right
          ∙ search_exact_lem r wr
          ∙ ap some (
              sym (
                find_prefix-shorter k q v l r lt
                ∙ find_prefix-append (entries l) (entries r)
                    (find_prefix-other_side l q.bitlen false wl ok.left (λ e. cc))))
      | inr left ↦
          if_is_false (bit_of p q.bitlen) _ _ left
          ∙ search_exact_lem l wl
          ∙ ap some (
              sym (
                find_prefix-shorter k q v l r lt
                ∙ find_prefix-append_left (entries l) (entries r)
                    (find_prefix-other_side r q.bitlen true wr ok.right (λ e. cc))))
    ]
    | inr ge ↦
        search_ends k q v l r ok.in_tree ge ∙ ap some (find_prefix-here s k q v l r ok wl wr ge)
  ]

-- In a well-formed trie, for a well-formed prefix, `patsearchexactn` never faults, and finds what a
-- search through the list of its prefixes finds: the first node with this prefix, or NULL.
pub patsearchexactn_lem :
    (pt : Trie) (p : NetAddr)
    → IsPatricia pt.head
    → IsQuery p
    → patsearchexactn pt p ≡ some (find_prefix p (entries pt.head))
unfolding patsearchexactn
patsearchexactn_lem pt p wf query = search_exact_lem p query pt.head wf
