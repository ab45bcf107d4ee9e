-- ===== src/Patricia/Remove/Locate.antt =====
-- The search of `patremoven`, and the entries around the node it finds.
use isocore.Base.{
  ℕ, ◌≡◌, refl, sym, ap, ◌∙◌, arith, Bool, true, false, ◌||◌, List, [], ◌∷◌, ◌++◌, none, some, ltb,
  if◌then◌else◌, Bool-cases, inl, inr,
}
use isocore.NetAddr.{NetAddr, patcompwithmask}
use isocore.Patricia.{
  Tree, nil, node, Kind, plain, glue, released, TrieNode, is_glue, is_released, bit_of,
}
use isocore.Patricia.Shape.{entries, NodeIsValid, IsPatricia, same_prefix, find_prefix}
use isocore.Patricia.Lookup.{
  IsQuery, if_is_true, if_is_false, find_prefix-append, find_prefix-append_left,
  find_prefix-other_side, find_prefix-shorter, find_prefix-here,
}
use isocore.Patricia.Path.{Frame, frame, rebuild}
use isocore.Patricia.Path.Swap.{own_entry, beside, around}
use isocore.Patricia.Remove.{Place, locate}

-- A list without its first node with a given prefix.
abbrev pub erase : NetAddr → List TrieNode → List TrieNode
erase p [] = []
erase p (e ∷ es) = if same_prefix e.prefix p then es else e ∷ erase p es

-- The nodes of a way, and what hangs beside them, do not have this prefix.
abbrev pub Misses : NetAddr → List Frame → Type 0
Misses p [] = Unit
Misses p (f ∷ fs) =
    (find_prefix p (own_entry f.kind f.prefix f.payload) ≡ none)
    × (find_prefix p (entries f.other) ≡ none)
    × Misses p fs

module _ (p : NetAddr) (query : IsQuery p) where
  erase-append :
      (xs ys : List TrieNode) → find_prefix p xs ≡ none → erase p (xs ++ ys) ≡ xs ++ erase p ys
  erase-append [] ys h = refl
  erase-append (x ∷ xs) ys h = ground (arith, erase-append xs ys)

  erase-append_left :
      (xs ys : List TrieNode) (e : TrieNode)
      → find_prefix p xs ≡ some e
      → erase p (xs ++ ys) ≡ erase p xs ++ ys
  erase-append_left [] ys e h = cc
  erase-append_left (x ∷ xs) ys e h = ground (arith, erase-append_left xs ys e)

  find_append_left :
      (xs ys : List TrieNode) (e : TrieNode)
      → find_prefix p xs ≡ some e
      → find_prefix p (xs ++ ys) ≡ some e
  find_append_left [] ys e h = cc
  find_append_left (x ∷ xs) ys e h = ground (arith, find_append_left xs ys e)

  find_beside :
      (side : Bool) (other : Tree) (xs : List TrieNode) (e : TrieNode)
      → find_prefix p (entries other) ≡ none
      → find_prefix p xs ≡ some e
      → find_prefix p (beside side other xs) ≡ some e
  find_beside false other xs e clear h = find_append_left xs (entries other) e h
  find_beside true other xs e clear h = find_prefix-append p query (entries other) xs clear ∙ h

  erase-beside :
      (side : Bool) (other : Tree) (xs : List TrieNode) (e : TrieNode)
      → find_prefix p (entries other) ≡ none
      → find_prefix p xs ≡ some e
      → erase p (beside side other xs) ≡ beside side other (erase p xs)
  erase-beside false other xs e clear h = erase-append_left xs (entries other) e h
  erase-beside true other xs e clear h = erase-append (entries other) xs clear

  pub find_around :
      (fs : List Frame) (xs : List TrieNode) (e : TrieNode)
      → Misses p fs
      → find_prefix p xs ≡ some e
      → find_prefix p (around fs xs) ≡ some e
  find_around [] xs e m h = h
  find_around (f ∷ fs) xs e m h =
      find_around fs (own_entry f.kind f.prefix f.payload ++ beside f.side f.other xs) e m.2 (
        find_prefix-append p query (own_entry f.kind f.prefix f.payload) (beside f.side f.other xs)
          m.0
        ∙ find_beside f.side f.other xs e m.1 h)

  pub erase-around :
      (fs : List Frame) (xs : List TrieNode) (e : TrieNode)
      → Misses p fs
      → find_prefix p xs ≡ some e
      → erase p (around fs xs) ≡ around fs (erase p xs)
  erase-around [] xs e m h = refl
  erase-around (f ∷ fs) xs e m h =
      erase-around fs (own_entry f.kind f.prefix f.payload ++ beside f.side f.other xs) e m.2 (
        find_prefix-append p query (own_entry f.kind f.prefix f.payload) (beside f.side f.other xs)
          m.0
        ∙ find_beside f.side f.other xs e m.1 h)
      ∙ ap (around fs) (
          erase-append (own_entry f.kind f.prefix f.payload) (beside f.side f.other xs) m.0
          ∙ ap (λ ys. own_entry f.kind f.prefix f.payload ++ ys)
              (erase-beside f.side f.other xs e m.1 h))

abbrev place : NetAddr → ℕ → Tree → Tree → List Frame → Kind → Place
place q v l r way k = record { kind = k; prefix = q; payload = v; left = l; right = r; way = way }

-- What the search ends with.
pub data Outcome (p : NetAddr) (t : Tree) (way : List Frame) : Type 0 where
  missing : locate t p way ≡ some none → find_prefix p (entries t) ≡ none → Outcome p t way
  found :
      (q : NetAddr) (v : ℕ) (l r : Tree) (fs : List Frame)
      → locate t p way
        ≡ some
            (some (record { kind = plain; prefix = q; payload = v; left = l; right = r; way = fs }))
      → rebuild fs (node plain q v l r) ≡ rebuild way t
      → Misses p fs
      → same_prefix q p ≡ true
      → Outcome p t way

module _ (p : NetAddr) (query : IsQuery p) where
  locate_goes :
      (k : Kind) (q : NetAddr) (v : ℕ) (l r : Tree) (way : List Frame)
      → is_released k ≡ false
      → ltb q.bitlen p.bitlen ≡ true
      → locate (node k q v l r) p way ≡ (
          if bit_of p q.bitlen
          then locate r p (frame k q v true l ∷ way)
          else locate l p (frame k q v false r ∷ way))
  unfolding locate
  locate_goes k q v l r way live lt = ground (arith, live, lt)

  locate_ends :
      (k : Kind) (q : NetAddr) (v : ℕ) (l r : Tree) (way : List Frame)
      → is_released k ≡ false
      → ltb q.bitlen p.bitlen ≡ false
      → locate (node k q v l r) p way
        ≡ some (
            if ltb p.bitlen q.bitlen || is_glue k
            then none
            else (if patcompwithmask q p p.bitlen then some (place q v l r way k) else none))
  unfolding locate
  locate_ends k q v l r way live ge = ground (arith, live, ge)

  own_shorter :
      (k : Kind) (q : NetAddr) (v : ℕ)
      → ltb q.bitlen p.bitlen ≡ true
      → find_prefix p (own_entry k q v) ≡ none
  own_shorter plain q v lt = let differs : same_prefix q p ≡ false = ground arith in rw differs refl
  own_shorter glue q v lt = refl
  own_shorter released q v lt = refl

  Outcome-child :
      (t c : Tree) (way : List Frame) (f : Frame)
      → locate t p way ≡ locate c p (f ∷ way)
      → rebuild (f ∷ way) c ≡ rebuild way t
      → find_prefix p (entries t) ≡ find_prefix p (entries c)
      → Outcome p c (f ∷ way)
      → Outcome p t way
  Outcome-child t c way f go same look (missing e m) = missing (go ∙ e) (look ∙ m)
  Outcome-child t c way f go same look (found q v l r fs e b m s) =
      found q v l r fs (go ∙ e) (b ∙ same) m s

  Outcome-here :
      (s : List ℕ) (k : Kind) (q : NetAddr) (v : ℕ) (l r : Tree) (way : List Frame)
      → NodeIsValid s k q l r
      → IsPatricia l
      → IsPatricia r
      → Misses p way
      → ltb q.bitlen p.bitlen ≡ false
      → Outcome p (node k q v l r) way
  Outcome-here s glue q v l r way ok wl wr m ge =
      missing (locate_ends glue q v l r way refl ge ∙ ground arith)
        (sym (find_prefix-here p query s glue q v l r ok wl wr ge) ∙ ground arith)
  Outcome-here s released q v l r way ok wl wr m ge = absurd (cc (ok.in_tree))
  Outcome-here s plain q v l r way ok wl wr m ge = elim (Bool-cases (same_prefix q p)) [
    | inl same ↦
        found q v l r way (locate_ends plain q v l r way refl ge ∙ ground arith) refl m same
    | inr other ↦
        missing (locate_ends plain q v l r way refl ge ∙ ground arith)
          (sym (find_prefix-here p query s plain q v l r ok wl wr ge) ∙ ground arith)
  ]

  pub locate_lem : (t : Tree) (way : List Frame) → IsPatricia t → Misses p way → Outcome p t way
  locate_lem nil way wf m = unfold locate in missing refl refl
  locate_lem (node k q v l r) way ((s, ok), wl, wr) m = elim (Bool-cases (ltb q.bitlen p.bitlen)) [
    | inr ge ↦ Outcome-here s k q v l r way ok wl wr m ge
    | inl lt ↦ elim (Bool-cases (bit_of p q.bitlen)) [
      | inl right ↦
          let clear = find_prefix-other_side p query l q.bitlen false wl ok.left (λ e. cc) in
          Outcome-child (node k q v l r) r way (frame k q v true l)
            (locate_goes k q v l r way ok.in_tree lt ∙ if_is_true (bit_of p q.bitlen) _ _ right)
            refl
            (find_prefix-shorter p query k q v l r lt
              ∙ find_prefix-append p query (entries l) (entries r) clear)
            (locate_lem r (frame k q v true l ∷ way) wr (own_shorter k q v lt, clear, m))
      | inr left ↦
          let clear = find_prefix-other_side p query r q.bitlen true wr ok.right (λ e. cc) in
          Outcome-child (node k q v l r) l way (frame k q v false r)
            (locate_goes k q v l r way ok.in_tree lt ∙ if_is_false (bit_of p q.bitlen) _ _ left)
            refl
            (find_prefix-shorter p query k q v l r lt
              ∙ find_prefix-append_left p query (entries l) (entries r) clear)
            (locate_lem l (frame k q v false r ∷ way) wl (own_shorter k q v lt, clear, m))
    ]
  ]
