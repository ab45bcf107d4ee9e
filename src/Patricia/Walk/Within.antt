-- ===== src/Patricia/Walk/Within.antt =====
-- `patgetfirstsubnetsofn` against the topmost subnets of a prefix in the whole trie.
use isocore.Base.{
  ℕ, ◌+◌, ◌≤◌, ◌<◌, ◌≡◌, ◌≢◌, ◌⊎◌, refl, sym, ap, ap₂, ◌∙◌, arith, Bool, true, false, ◌&&◌, ltb,
  leb, List, [], ◌∷◌, ◌++◌, some, length, take, append-nil, if◌then◌else◌, Bool-cases, inl, inr,
}
use isocore.NetAddr.{NetAddr, patcompwithmask}
use isocore.NetAddr.Bits.{bits}
use isocore.NetAddr.Checked.{&&_split}
use isocore.NetAddr.Compare.{IsAddr, patcompwithmask_lem}
use isocore.Patricia.{
  Tree, nil, node, Kind, plain, glue, released, TrieNode, Trie, is_glue, is_nil, bit_of,
}
use isocore.Patricia.Search.{entry}
use isocore.Patricia.BitOf.{bit_of-take}
use isocore.Patricia.Shape.{Every, HangsBelow, StartsWith, NodeIsValid, IsPatricia}
use isocore.Patricia.Lookup.{IsQuery, if_is_true, if_is_false}
use isocore.Patricia.Above.{Every-map, Every-both, Sound, IsPatricia-Sound, take-take_le}
use isocore.Patricia.Walk.{patgetfirstsubnetsofn, room_for}
use isocore.Patricia.Walk.Pending.{size_of, Below}
use isocore.Patricia.Walk.Cover.{firsts}
use isocore.Patricia.Walk.Firsts.{top_of, patgetfirstsubnetsofn_lem}

-- `q` is a subnet of `p`, one of which is `p`.
abbrev pub is_within : NetAddr → NetAddr → Bool
is_within p q = leb p.bitlen q.bitlen && patcompwithmask q p p.bitlen

-- The prefixes of a trie that are subnets of `p`, the one of length 0 left out, with no other of them above.
abbrev pub first_subnets : NetAddr → Tree → List TrieNode
first_subnets p nil = []
first_subnets p (node plain q v l r) =
    if ltb 0 q.bitlen && is_within p q
    then entry q v ∷ []
    else first_subnets p l ++ first_subnets p r
first_subnets p (node glue q v l r) = first_subnets p l ++ first_subnets p r
first_subnets p (node released q v l r) = first_subnets p l ++ first_subnets p r

module _ (p : NetAddr) (query : IsQuery p) where
  abbrev IsIn : Bool → Kind → NetAddr → Type 0
  IsIn b k q = is_glue k ≡ false → is_within p q ≡ b

  -- When all prefixes are subnets, and when none is.
  first_subnets-all : (t : Tree) → Every (IsIn true) t → first_subnets p t ≡ firsts t
  first_subnets-all nil h = refl
  first_subnets-all (node plain q v l r) h =
      let more = ap₂ (λ xs ys. xs ++ ys) (first_subnets-all l h.1) (first_subnets-all r h.2) in
      let within = h.0 refl in
      elim (Bool-cases (ltb 0 q.bitlen)) [
        | inl long ↦ rw (long, within) refl
        | inr zero_long ↦ rw zero_long more
      ]
  first_subnets-all (node glue q v l r) h =
      ap₂ (λ xs ys. xs ++ ys) (first_subnets-all l h.1) (first_subnets-all r h.2)
  first_subnets-all (node released q v l r) h =
      ap₂ (λ xs ys. xs ++ ys) (first_subnets-all l h.1) (first_subnets-all r h.2)

  first_subnets-none : (t : Tree) → Every (IsIn false) t → first_subnets p t ≡ []
  first_subnets-none nil h = refl
  first_subnets-none (node plain q v l r) h =
      let more = ap₂ (λ xs ys. xs ++ ys) (first_subnets-none l h.1) (first_subnets-none r h.2) in
      let without = h.0 refl in
      elim (Bool-cases (ltb 0 q.bitlen)) [
        | inl long ↦ rw (long, without) more
        | inr zero_long ↦ rw zero_long more
      ]
  first_subnets-none (node glue q v l r) h =
      ap₂ (λ xs ys. xs ++ ys) (first_subnets-none l h.1) (first_subnets-none r h.2)
  first_subnets-none (node released q v l r) h =
      ap₂ (λ xs ys. xs ++ ys) (first_subnets-none l h.1) (first_subnets-none r h.2)

  within_bits :
      (q : NetAddr)
      → IsAddr q
      → is_within p q ≡ true
      → take p.bitlen (bits q.bytes) ≡ take p.bitlen (bits p.bytes)
  within_bits q hq e =
      (patcompwithmask_lem q p p.bitlen hq query.address query.fits).0
        (&&_split (leb p.bitlen q.bitlen) (patcompwithmask q p p.bitlen) e).1

  refuted : (q : NetAddr) → is_within p q ≢ true → is_within p q ≡ false
  refuted q h = elim (Bool-cases (is_within p q)) [ inl e ↦ absurd (h e) | inr e ↦ e ]

  -- On the other side of a node that is shorter than the prefix, no prefix is a subnet.
  first_subnets-other_side :
      (t : Tree) (n : ℕ) (b : Bool)
      → IsPatricia t
      → Every (HangsBelow n b) t
      → n < p.bitlen
      → bit_of p n ≢ b
      → first_subnets p t ≡ []
  first_subnets-other_side t n b wf below lt other = first_subnets-none t (
      Every-map (λ k q. HangsBelow n b k q × Sound k q) (IsIn false)
        (λ k q h g. refuted q (λ e. other (
          sym (
            bit_of-take q p n p.bitlen (h.1.1 g) query.address lt query.fits
              (within_bits q (h.1.1 g) e))
          ∙ h.0.1 g)))
        t (Every-both (HangsBelow n b) Sound t below (IsPatricia-Sound t wf)))

  -- A prefix of a subtree whose nodes have the first `n` bits in common.
  abbrev Shares : ℕ → List ℕ → Kind → NetAddr → Type 0
  Shares n s k q = (n ≤ q.bitlen) × StartsWith n s k q × (is_glue k ≡ false → IsAddr q)

  IsIn-Shares :
      (n : ℕ) (s : List ℕ) (x : NetAddr)
      → p.bitlen ≤ n
      → take n (bits x.bytes) ≡ s
      → IsAddr x
      → is_within p x ≡ true
      → (k : Kind) (q : NetAddr) → Shares n s k q
      → IsIn true k q
  IsIn-Shares n s x le starts hx e k q shares real =
      let long : leb p.bitlen q.bitlen ≡ true = ground (arith, shares.0, le) in
      let same : take p.bitlen (bits q.bytes) ≡ take p.bitlen (bits p.bytes) =
        take-take_le p.bitlen n (bits q.bytes) (bits x.bytes) le (shares.1 real ∙ sym starts)
        ∙ within_bits x hx e in
      rw (long, (patcompwithmask_lem q p p.bitlen (shares.2 real) query.address query.fits).1 same)
        refl

  -- A node that holds a subnet of `p`, among those with the bits `s`.
  record Held (n : ℕ) (s : List ℕ) : Type 0 where
    prefix : NetAddr
    starts : take n (bits prefix.bytes) ≡ s
    real : IsAddr prefix
    within : is_within p prefix ≡ true

  subnets_or_none :
      (n : ℕ) (s : List ℕ) (t : Tree) → Every (Shares n s) t → Every (IsIn false) t ⊎ Held n s
  subnets_or_none n s nil h = inl tt
  subnets_or_none n s (node k q v l r) h = elim (subnets_or_none n s l h.1) [
    | inr held ↦ inr held
    | inl left ↦ elim (subnets_or_none n s r h.2) [
      | inr held ↦ inr held
      | inl right ↦ elim (Bool-cases (is_within p q)) [
        | inr out ↦ inl ((λ g. out), left, right)
        | inl within ↦ elim (Bool-cases (is_glue k)) [
          | inl is ↦ inl ((λ g. cc), left, right)
          | inr real ↦
              inr (record { prefix = q; starts = h.0.1 real; real = h.0.2 real; within = within })
        ]
      ]
    ]
  ]

  -- The nodes below one share its bits.
  side-Shares :
      (n : ℕ) (s : List ℕ) (b : Bool) (t : Tree)
      → IsPatricia t
      → Every (HangsBelow n b) t
      → Every (StartsWith n s) t
      → Every (Shares n s) t
  side-Shares n s b t wf below starts =
      Every-map (λ k q. (HangsBelow n b k q × StartsWith n s k q) × Sound k q) (Shares n s)
        (λ k q h. (omega (arith, h.0.0.0), h.0.1, h.1.1)) t
        (Every-both (λ k q. HangsBelow n b k q × StartsWith n s k q) Sound t
          (Every-both (HangsBelow n b) (StartsWith n s) t below starts) (IsPatricia-Sound t wf))

  -- At the node where the path to the prefix stops.
  first_subnets-stop :
      (t : Tree) (n : ℕ) (s : List ℕ)
      → p.bitlen ≤ n
      → Every (Shares n s) t
      → first_subnets p t ≢ []
      → firsts t ≡ first_subnets p t
  first_subnets-stop t n s le shares some_there = elim (subnets_or_none n s t shares) [
    | inl out ↦ absurd (some_there (first_subnets-none t out))
    | inr held ↦ sym (
        first_subnets-all t (
          Every-map (Shares n s) (IsIn true)
            (IsIn-Shares n s held.prefix le held.starts held.real held.within) t shares))
  ]

  -- A node that is shorter than the prefix is no subnet, and its subnets are on the side of the prefix.
  first_subnets-shorter :
      (k : Kind) (q : NetAddr) (v : ℕ) (l r : Tree)
      → q.bitlen < p.bitlen
      → first_subnets p (node k q v l r) ≡ first_subnets p l ++ first_subnets p r
  first_subnets-shorter plain q v l r lt =
      let short : leb p.bitlen q.bitlen ≡ false = ground (arith, lt) in
      elim (Bool-cases (ltb 0 q.bitlen)) [
        | inl long ↦ rw (long, short) refl
        | inr zero_long ↦ rw zero_long refl
      ]
  first_subnets-shorter glue q v l r lt = refl
  first_subnets-shorter released q v l r lt = refl

  first_subnets-side :
      (s : List ℕ) (k : Kind) (q : NetAddr) (v : ℕ) (l r : Tree) (b : Bool)
      → NodeIsValid s k q l r
      → IsPatricia l
      → IsPatricia r
      → q.bitlen < p.bitlen
      → bit_of p q.bitlen ≡ b
      → first_subnets p (node k q v l r) ≡ (if b then first_subnets p r else first_subnets p l)
  first_subnets-side s k q v l r true ok wl wr lt side =
      first_subnets-shorter k q v l r lt
      ∙ ap (λ xs. xs ++ first_subnets p r)
          (first_subnets-other_side l q.bitlen false wl ok.left lt (λ e. cc))
  first_subnets-side s k q v l r false ok wl wr lt side =
      first_subnets-shorter k q v l r lt
      ∙ ap (λ xs. first_subnets p l ++ xs)
          (first_subnets-other_side r q.bitlen true wr ok.right lt (λ e. cc))
      ∙ append-nil (first_subnets p l)

  firsts-top_of :
      (t : Tree) → IsPatricia t → first_subnets p t ≢ [] → firsts (top_of p t) ≡ first_subnets p t
  firsts-top_of nil wf some_there = refl
  firsts-top_of (node k q v l r) ((s, ok), wl, wr) some_there =
      elim (Bool-cases (ltb q.bitlen p.bitlen)) [
        | inr stop ↦
            ap firsts (if_is_false (ltb q.bitlen p.bitlen) _ _ stop)
            ∙ first_subnets-stop (node k q v l r) q.bitlen s (ground (arith, stop))
                (
                  (omega arith, ok.own, ok.address),
                  side-Shares q.bitlen s false l wl ok.left ok.under_left,
                  side-Shares q.bitlen s true r wr ok.right ok.under_right,
                )
                some_there
        | inl lt ↦
            ap firsts (if_is_true (ltb q.bitlen p.bitlen) _ _ lt)
            ∙ elim (Bool-cases (bit_of p q.bitlen)) [
              | inl right ↦
                  let side =
                    first_subnets-side s k q v l r true ok wl wr (ground (arith, lt)) right in
                  ap firsts (if_is_true (bit_of p q.bitlen) _ _ right)
                  ∙ firsts-top_of r wr (λ e. some_there (side ∙ e))
                  ∙ sym side
              | inr left ↦
                  let side =
                    first_subnets-side s k q v l r false ok wl wr (ground (arith, lt)) left in
                  ap firsts (if_is_false (bit_of p q.bitlen) _ _ left)
                  ∙ firsts-top_of l wl (λ e. some_there (side ∙ e))
                  ∙ sym side
            ]
      ]

-- In a well-formed trie whose prefixes are not longer than its addresses, when it holds a subnet of the given
-- prefix (itself included) that is not of length 0, and the array has room for the result:
-- `patgetfirstsubnetsofn` ends and returns the first-level subnets, that is all the subnets of the given prefix
-- in the trie with no other of them above; a prefix of length 0 is passed over.
pub patgetfirstsubnetsofn-first_subnets :
    (pt : Trie) (p : NetAddr) (fuel n : ℕ)
    → IsPatricia pt.head
    → IsQuery p
    → Below (pt.maxbitlen + 1) pt.head
    → is_nil pt.head ≡ false
    → size_of pt.head < fuel
    → room_for pt p ≡ some n
    → first_subnets p pt.head ≢ []
    → length (first_subnets p pt.head) ≤ n
    → patgetfirstsubnetsofn fuel true pt p ≡ some (some (first_subnets p pt.head))
patgetfirstsubnetsofn-first_subnets pt p fuel n wf query fits some_head lt room some_there le =
    let same = firsts-top_of p query pt.head wf some_there in
    patgetfirstsubnetsofn_lem pt p fuel n wf fits some_head lt room
      (omega (arith, le, ap length same))
    ∙ ap (λ xs. some (some xs)) same
