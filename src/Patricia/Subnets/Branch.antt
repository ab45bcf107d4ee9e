-- ===== src/Patricia/Subnets/Branch.antt =====
-- `patgetsubnetsofn` on a chain of nodes, and where nodes branch.
use isocore.Base.{
  ℕ, zero, suc, ◌+◌, ◌<◌, ◌≤◌, ◌≡◌, refl, sym, ap, ◌∙◌, arith, Bool, true, false, not, ltb, lt→ltb,
  List, [], ◌∷◌, ◌++◌, Option, none, some, length, set, get_or, replicate, length-replicate,
  append-nil, append_assoc, Bool-cases, inl, inr, if◌then◌else◌,
}
use isocore.NetAddr.{NetAddr, patcompwithmask}
use isocore.Patricia.{
  Tree, nil, node, Kind, plain, glue, released, TrieNode, Trie, ispnodeglue, is_nil,
}
use isocore.Patricia.Search.{entry, within}
use isocore.Patricia.Shape.{entries, Every, IsPatricia}
use isocore.Patricia.Walk.{subtree_of, room_for}
use isocore.Patricia.Walk.Pending.{size_of}
use isocore.Patricia.Walk.Firsts.{top_of, subtree_of_lem}
use isocore.Patricia.Subnets.{
  SlotWalk, start_walk, read_slot, move_on, subnets_loop, patgetsubnetsofn,
}

-- The prefixes of a tree that agree with `p` on its bits.
abbrev pub Agree : NetAddr → Tree → Type 0
Agree p t = Every (λ k q. ispnodeglue k ≡ false → patcompwithmask q p p.bitlen ≡ true) t

-- No node has two children.
abbrev pub is_chain : Tree → Bool
is_chain nil = true
is_chain (node k q v nil r) = is_chain r
is_chain (node k q v (node k' q' v' l' r') nil) = is_chain (node k' q' v' l' r')
is_chain (node k q v (node k' q' v' l' r') (node k'' q'' v'' l'' r'')) = false

-- The entries of the array from `sp` on were not written.
Unwritten : List (Option Tree) → ℕ → Type 0
Unwritten slots sp = (i : ℕ) → sp ≤ i → get_or slots i none ≡ none

get_or-set_ne :
    (xs : List (Option Tree)) (i j : ℕ) (x : Option Tree)
    → j < i
    → get_or (set xs j x) i none ≡ get_or xs i none
get_or-set_ne [] i j x lt = refl
get_or-set_ne (y ∷ xs) zero j x lt = absurd (omega (arith, lt))
get_or-set_ne (y ∷ xs) (suc i) zero x lt = refl
get_or-set_ne (y ∷ xs) (suc i) (suc j) x lt = get_or-set_ne xs i j x (omega (arith, lt))

set-Unwritten :
    (slots : List (Option Tree)) (sp : ℕ) (x : Option Tree)
    → Unwritten slots sp
    → Unwritten (set slots sp x) (sp + 1)
unfolding Unwritten
set-Unwritten slots sp x h =
    λ i le. get_or-set_ne slots i sp x (omega (arith, le)) ∙ h i (omega (arith, le))

abbrev blank : ℕ → List (Option Tree)
blank n = replicate n none

length-blank : (n : ℕ) → length (blank n) ≡ n
length-blank n = length-replicate n none

get_or-blank : (n i : ℕ) → get_or (blank n) i none ≡ none
get_or-blank zero i = refl
get_or-blank (suc n) zero = refl
get_or-blank (suc n) (suc i) = get_or-blank n i

blank-Unwritten : (n sp : ℕ) → Unwritten (blank n) sp
unfolding Unwritten
blank-Unwritten n sp = λ i le. get_or-blank n i

-- A node with two children.
move_on-room :
    (l r : Tree) (slots : List (Option Tree)) (sp : ℕ)
    → is_nil l ≡ false
    → is_nil r ≡ false
    → ltb sp (length slots) ≡ true
    → move_on l r slots sp ≡ some (record { next = l; slots = set slots sp (some r); sp = sp + 1 })
unfolding move_on
move_on-room l r slots sp hl hr room = rw (hl, hr, room) refl

move_on-full :
    (l r : Tree) (slots : List (Option Tree)) (sp : ℕ)
    → is_nil l ≡ false
    → is_nil r ≡ false
    → ltb sp (length slots) ≡ false
    → move_on l r slots sp ≡ none
unfolding move_on
move_on-full l r slots sp hl hr full = rw (hl, hr, full) refl

-- One step of the loop at a node whose prefix agrees.
visited : NetAddr → Kind → NetAddr → ℕ → List TrieNode → List TrieNode
visited p k q v res = if ispnodeglue k then res else res ++ entry q v ∷ []

subnets_moves :
    (fuel : ℕ) (p : NetAddr) (k : Kind) (q : NetAddr) (v : ℕ) (l r : Tree)
    (slots : List (Option Tree)) (sp : ℕ) (res : List TrieNode) (o : Option SlotWalk)
    → (ispnodeglue k ≡ false → patcompwithmask q p p.bitlen ≡ true)
    → move_on l r slots sp ≡ o
    → subnets_loop (suc fuel) p (record { next = node k q v l r; slots = slots; sp = sp }) res
      ≡ elim o [ none ↦ none | some w ↦ subnets_loop fuel p w (visited p k q v res) ]
unfolding subnets_loop visited
subnets_moves fuel p plain q v l r slots sp res o agree e =
    ap
      (λ b. elim (not b) [
        | true ↦ some res
        | false ↦ elim (move_on l r slots sp) [
          | none ↦ none
          | some w ↦ subnets_loop fuel p w (res ++ entry q v ∷ [])
        ]
      ])
      (agree refl)
    ∙ ap (λ x. elim x [ none ↦ none | some w ↦ subnets_loop fuel p w (res ++ entry q v ∷ []) ]) e
subnets_moves fuel p glue q v l r slots sp res o agree e =
    ap (λ x. elim x [ none ↦ none | some w ↦ subnets_loop fuel p w res ]) e
subnets_moves fuel p released q v l r slots sp res o agree e =
    ap (λ x. elim x [ none ↦ none | some w ↦ subnets_loop fuel p w res ]) e

-- With an entry on the stack, the loop comes to a leaf and reads an entry that was not written.
subnets_loop-pops :
    (fuel : ℕ) (p : NetAddr) (t : Tree) (slots : List (Option Tree)) (sp : ℕ) (res : List TrieNode)
    → is_nil t ≡ false
    → 0 < sp
    → Agree p t
    → Unwritten slots sp
    → subnets_loop fuel p (record { next = t; slots = slots; sp = sp }) res ≡ none
unfolding move_on read_slot Unwritten subnets_loop
subnets_loop-pops zero p t slots sp res h pos agree clear = refl
subnets_loop-pops (suc fuel) p nil slots sp res h pos agree clear = cc
subnets_loop-pops (suc fuel) p (node k q v nil nil) slots sp res h pos agree clear =
    subnets_moves fuel p k q v nil nil slots sp res none agree.0
      (ground (arith, clear sp (omega arith)))
subnets_loop-pops (suc fuel) p (node k q v nil (node kr qr vr lr rr)) slots sp res h pos agree
      clear =
    subnets_moves fuel p k q v nil (node kr qr vr lr rr) slots sp res _ agree.0 refl
    ∙ subnets_loop-pops fuel p (node kr qr vr lr rr) slots sp (visited p k q v res) refl pos agree.2
        clear
subnets_loop-pops (suc fuel) p (node k q v (node kl ql vl ll rl) nil) slots sp res h pos agree
      clear =
    subnets_moves fuel p k q v (node kl ql vl ll rl) nil slots sp res _ agree.0 refl
    ∙ subnets_loop-pops fuel p (node kl ql vl ll rl) slots sp (visited p k q v res) refl pos agree.1
        clear
subnets_loop-pops (suc fuel) p (node k q v (node kl ql vl ll rl) (node kr qr vr lr rr)) slots sp res
      h pos agree clear =
    elim (Bool-cases (ltb sp (length slots))) [
      | inl room ↦
          subnets_moves fuel p k q v (node kl ql vl ll rl) (node kr qr vr lr rr) slots sp res _
            agree.0
            (move_on-room (node kl ql vl ll rl) (node kr qr vr lr rr) slots sp refl refl room)
          ∙ subnets_loop-pops fuel p (node kl ql vl ll rl)
              (set slots sp (some (node kr qr vr lr rr))) (sp + 1) (visited p k q v res) refl
              (omega arith) agree.1 (set-Unwritten slots sp (some (node kr qr vr lr rr)) clear)
      | inr full ↦
          subnets_moves fuel p k q v (node kl ql vl ll rl) (node kr qr vr lr rr) slots sp res none
            agree.0
            (move_on-full (node kl ql vl ll rl) (node kr qr vr lr rr) slots sp refl refl full)
    ]

entries-visited :
    (p : NetAddr) (k : Kind) (q : NetAddr) (v : ℕ) (l r : Tree) (res : List TrieNode)
    → visited p k q v res ++ (entries l ++ entries r) ≡ res ++ entries (node k q v l r)
unfolding visited
entries-visited p plain q v l r res = append_assoc res (entry q v ∷ []) (entries l ++ entries r)
entries-visited p glue q v l r res = refl
entries-visited p released q v l r res = refl

-- The loop from its start.
subnets_loop_lem :
    (fuel m : ℕ) (p : NetAddr) (t : Tree) (res : List TrieNode)
    → Agree p t
    → size_of t < fuel
    → subnets_loop fuel p (record { next = t; slots = blank (m + 1); sp = 0 }) res
      ≡ (if is_chain t then some (res ++ entries t) else none)
unfolding move_on read_slot subnets_loop
subnets_loop_lem zero m p t res agree lt = absurd (omega (arith, lt))
subnets_loop_lem (suc fuel) m p nil res agree lt = ap some (sym (append-nil res))
subnets_loop_lem (suc fuel) m p (node k q v nil nil) res agree lt =
    subnets_moves fuel p k q v nil nil (blank (m + 1)) 0 res _ agree.0 refl
    ∙ subnets_loop_lem fuel m p nil (visited p k q v res) tt (omega (arith, lt))
    ∙ ap some (entries-visited p k q v nil nil res)
subnets_loop_lem (suc fuel) m p (node k q v nil (node kr qr vr lr rr)) res agree lt =
    subnets_moves fuel p k q v nil (node kr qr vr lr rr) (blank (m + 1)) 0 res _ agree.0 refl
    ∙ subnets_loop_lem fuel m p (node kr qr vr lr rr) (visited p k q v res) agree.2
        (omega (arith, lt))
    ∙ ap (λ xs. if is_chain (node kr qr vr lr rr) then some xs else none)
        (entries-visited p k q v nil (node kr qr vr lr rr) res)
subnets_loop_lem (suc fuel) m p (node k q v (node kl ql vl ll rl) nil) res agree lt =
    subnets_moves fuel p k q v (node kl ql vl ll rl) nil (blank (m + 1)) 0 res _ agree.0 refl
    ∙ subnets_loop_lem fuel m p (node kl ql vl ll rl) (visited p k q v res) agree.1
        (omega (arith, lt))
    ∙ ap (λ xs. if is_chain (node kl ql vl ll rl) then some (visited p k q v res ++ xs) else none)
        (sym (append-nil (entries (node kl ql vl ll rl))))
    ∙ ap (λ xs. if is_chain (node kl ql vl ll rl) then some xs else none)
        (entries-visited p k q v (node kl ql vl ll rl) nil res)
subnets_loop_lem (suc fuel) m p (node k q v (node kl ql vl ll rl) (node kr qr vr lr rr)) res agree
      lt =
    subnets_moves fuel p k q v (node kl ql vl ll rl) (node kr qr vr lr rr) (blank (m + 1)) 0 res _
      agree.0
      (move_on-room (node kl ql vl ll rl) (node kr qr vr lr rr) (blank (m + 1)) 0 refl refl
        (lt→ltb 0 (length (blank (m + 1))) (rw (length-blank (m + 1)) (omega arith))))
    ∙ subnets_loop-pops fuel p (node kl ql vl ll rl)
        (set (blank (m + 1)) 0 (some (node kr qr vr lr rr))) 1 (visited p k q v res) refl
        (omega arith) agree.1
        (set-Unwritten (blank (m + 1)) 0 (some (node kr qr vr lr rr)) (blank-Unwritten (m + 1) 0))

subnets_step :
    (fuel n : ℕ) (pt : Trie) (p : NetAddr) (start : Tree) (o : Option (List TrieNode))
    → is_nil pt.head ≡ false
    → subtree_of pt.head p ≡ some start
    → room_for pt p ≡ some n
    → subnets_loop fuel p (record { next = start; slots = blank (pt.maxbitlen + 1); sp = 0 }) [] ≡ o
    → patgetsubnetsofn fuel true pt p ≡ elim o [
      | none ↦ none
      | some res ↦ elim (within (n + 1) res) [ none ↦ none | some res' ↦ some (some res') ]
    ]
unfolding patgetsubnetsofn start_walk
subnets_step fuel n pt p start o some_head down room ran =
    ground (arith, some_head, down, room, ran)

-- In a well-formed trie, when all prefixes from the first node on the path to `p` that is at least as
-- long agree with `p`, and the array has room for them, `patgetsubnetsofn` returns those prefixes if none
-- of these nodes has two children; where one has two, it reads an entry of its stack that was not
-- written, or leaves the stack.
pub patgetsubnetsofn_lem :
    (pt : Trie) (p : NetAddr) (fuel n : ℕ)
    → IsPatricia pt.head
    → is_nil pt.head ≡ false
    → Agree p (top_of p pt.head)
    → size_of (top_of p pt.head) < fuel
    → room_for pt p ≡ some n
    → length (entries (top_of p pt.head)) ≤ n
    → patgetsubnetsofn fuel true pt p
      ≡ (if is_chain (top_of p pt.head) then some (some (entries (top_of p pt.head))) else none)
patgetsubnetsofn_lem pt p fuel n wf some_head agree lt room le =
    let fits : ltb (length (entries (top_of p pt.head))) (n + 1) ≡ true =
      lt→ltb _ _ (omega (arith, le)) in
    subnets_step fuel n pt p (top_of p pt.head) _ some_head (subtree_of_lem pt.head p wf) room
      (subnets_loop_lem fuel pt.maxbitlen p (top_of p pt.head) [] agree lt)
    ∙ elim (Bool-cases (is_chain (top_of p pt.head))) [
      | inl chain ↦ rw (chain, fits) refl
      | inr branch ↦ rw branch refl
    ]
