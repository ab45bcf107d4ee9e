-- ===== src/Patricia/Subnets.antt =====
-- The visits of the trie that read their stack back with `*(sp--)` (src/patriciatrie.c): `patgetsubnetsofn`,
-- `patissupernetofn`, `patgetrelatedofn` and `patisrelatedofn`.
pub mod Branch
use isocore.Base.{
  ℕ, zero, suc, ◌+◌, ◌-◌, Bool, true, false, not, ◌&&◌, ltb, ◌==◌, if◌then◌else◌, List, [], ◌∷◌,
  ◌++◌, Option, none, some, length, set, get_or, replicate,
}
use isocore.NetAddr.{NetAddr, patcompwithmask}
use isocore.Patricia.{Tree, nil, node, TrieNode, Trie, ispnodeglue, is_released, is_nil, bit_of}
use isocore.Patricia.Search.{entry, within}
use isocore.Patricia.Walk.{subtree_of, room_for}

-- The local variables of the visits: `next`, the array `stack` with the entries that were written, and
-- `sp` as an index.
pub record SlotWalk : Type 0 where
  pub next : Tree
  pub slots : List (Option Tree)
  pub sp : ℕ

unfoldable pub start_walk : ℕ → Tree → SlotWalk
start_walk maxbitlen t = record { next = t; slots = replicate (maxbitlen + 1) none; sp = 0 }

-- `next = *(sp--)`: a fault where the entry was not written, or is not one of the array.
unfoldable pub read_slot : List (Option Tree) → ℕ → Option SlotWalk
read_slot slots sp = elim (get_or slots sp none) [
  | none ↦ none
  | some t ↦ some (record { next = t; slots = slots; sp = sp - 1 })
]

-- The node to visit after one with these children.
unfoldable pub move_on : Tree → Tree → List (Option Tree) → ℕ → Option SlotWalk
move_on l r slots sp =
    if is_nil l
    then (if is_nil r
        then (if sp == 0
            then some (record { next = nil; slots = slots; sp = sp })
            else read_slot slots sp)
        else some (record { next = r; slots = slots; sp = sp }))
    else (if is_nil r
        then some (record { next = l; slots = slots; sp = sp })
        else (if ltb sp (length slots)
            then some (record { next = l; slots = set slots sp (some r); sp = sp + 1 })
            else none))

-- The second loop of `patgetsubnetsofn` and of `patgetrelatedofn`.
unfoldable pub subnets_loop : ℕ → NetAddr → SlotWalk → List TrieNode → Option (List TrieNode)
subnets_loop zero p w res = none
subnets_loop (suc fuel) p w res = elim w.next [
  | nil ↦ some res
  | node k q v l r ↦ elim (not (ispnodeglue k) && not (patcompwithmask q p p.bitlen)) [
    | true ↦ some res
    | false ↦ elim (move_on l r w.slots w.sp) [
      | none ↦ none
      | some w' ↦ subnets_loop fuel p w' (if ispnodeglue k then res else res ++ entry q v ∷ [])
    ]
  ]
]

-- `patgetsubnetsofn`; `memory` says whether `malloc` succeeds, and the inner `none` is NULL.
unfoldable pub patgetsubnetsofn : ℕ → Bool → Trie → NetAddr → Option (Option (List TrieNode))
patgetsubnetsofn fuel memory pt p = elim pt.head [
  | nil ↦ some none
  | node k q v l r ↦ elim (subtree_of pt.head p) [
    | none ↦ none
    | some start ↦ elim (room_for pt p) [
      | none ↦ none
      | some n ↦
          if memory
          then (elim (subnets_loop fuel p (start_walk pt.maxbitlen start) []) [
            | none ↦ none
            | some res ↦ elim (within (n + 1) res) [ none ↦ none | some res' ↦ some (some res') ]
          ])
          else some none
    ]
  ]
]

-- The second loop of `patissupernetofn`.
unfoldable pub supernet_loop : ℕ → NetAddr → SlotWalk → Option Bool
supernet_loop zero p w = none
supernet_loop (suc fuel) p w = elim w.next [
  | nil ↦ some false
  | node k q v l r ↦ elim (ispnodeglue k) [
    | false ↦ some (patcompwithmask q p p.bitlen)
    | true ↦ elim (move_on l r w.slots w.sp) [ none ↦ none | some w' ↦ supernet_loop fuel p w' ]
  ]
]

-- `patissupernetofn`
unfoldable pub patissupernetofn : ℕ → Trie → NetAddr → Option Bool
patissupernetofn fuel pt p = elim (subtree_of pt.head p) [
  | none ↦ none
  | some start ↦ supernet_loop fuel p (start_walk pt.maxbitlen start)
]

-- The array that `patgetrelatedofn` returns, and whether a NULL ends it.
pub record Related : Type 0 where
  pub nodes : List TrieNode
  pub terminated : Bool

-- The first loop of `patgetrelatedofn`: where it stops, or `nil` after an early return.
pub record RelatedPath : Type 0 where
  pub found : List TrieNode
  pub start : Tree
  pub returned : Bool

unfoldable pub related_path : Tree → NetAddr → List TrieNode → Option RelatedPath
related_path nil p res = some (record { found = res; start = nil; returned = false })
related_path (node k q v l r) p res = elim (is_released k) [
  | true ↦ none
  | false ↦ elim (ltb q.bitlen p.bitlen) [
    | false ↦ some (record { found = res; start = node k q v l r; returned = false })
    | true ↦ elim (ispnodeglue k) [
      | true ↦ elim (bit_of p q.bitlen) [
        | true ↦ related_path r p res
        | false ↦ related_path l p res
      ]
      | false ↦ elim (patcompwithmask q p q.bitlen) [
        | true ↦ elim (bit_of p q.bitlen) [
          | true ↦ related_path r p (res ++ entry q v ∷ [])
          | false ↦ related_path l p (res ++ entry q v ∷ [])
        ]
        | false ↦ some (record { found = res; start = nil; returned = true })
      ]
    ]
  ]
]

-- `patgetrelatedofn`: the early return leaves the array without its NULL.
unfoldable pub patgetrelatedofn : ℕ → Bool → Trie → NetAddr → Option (Option Related)
patgetrelatedofn fuel memory pt p = elim pt.head [
  | nil ↦ some none
  | node k q v l r ↦ elim (room_for pt p) [
    | none ↦ none
    | some n ↦
        if memory
        then (elim (related_path pt.head p []) [
          | none ↦ none
          | some path ↦
              if path.returned
              then (elim (within (n + p.bitlen + 4) path.found) [
                | none ↦ none
                | some res ↦ some (some (record { nodes = res; terminated = false }))
              ])
              else (elim (subnets_loop fuel p (start_walk pt.maxbitlen path.start) path.found) [
                | none ↦ none
                | some all ↦ elim (within (n + p.bitlen + 3) all) [
                  | none ↦ none
                  | some res ↦ some (some (record { nodes = res; terminated = true }))
                ]
              ])
        ])
        else some none
  ]
]

-- The loops of `patisrelatedofn`.
unfoldable pub is_related_path : Tree → NetAddr → Option (Option Tree)
is_related_path nil p = some (some nil)
is_related_path (node k q v l r) p = elim (is_released k) [
  | true ↦ none
  | false ↦ elim (ltb q.bitlen p.bitlen) [
    | false ↦ some (some (node k q v l r))
    | true ↦ elim (not (ispnodeglue k) && patcompwithmask q p q.bitlen) [
      | true ↦ some none
      | false ↦ elim (bit_of p q.bitlen) [
        | true ↦ is_related_path r p
        | false ↦ is_related_path l p
      ]
    ]
  ]
]

unfoldable pub is_related_loop : ℕ → NetAddr → SlotWalk → Option Bool
is_related_loop zero p w = none
is_related_loop (suc fuel) p w = elim w.next [
  | nil ↦ some false
  | node k q v l r ↦ elim (not (ispnodeglue k) && patcompwithmask q p p.bitlen) [
    | true ↦ some true
    | false ↦ elim (move_on l r w.slots w.sp) [ none ↦ none | some w' ↦ is_related_loop fuel p w' ]
  ]
]

-- `patisrelatedofn`
unfoldable pub patisrelatedofn : ℕ → Trie → NetAddr → Option Bool
patisrelatedofn fuel pt p = elim (is_related_path pt.head p) [
  | none ↦ none
  | some none ↦ some true
  | some (some start) ↦ is_related_loop fuel p (start_walk pt.maxbitlen start)
]
