-- ===== src/Patricia/Walk.antt =====
-- The visits of the trie with a stack (src/patriciatrie.c): the iterator, `patcoverage` and
-- `patgetfirstsubnetsofn`.
pub mod Pending
pub mod Iterate
pub mod Cover
pub mod Firsts
pub mod Within
use isocore.Base.{
  ℕ, zero, suc, ◌+◌, ◌-◌, ◌%◌, ◌^◌, Bool, true, false, not, ◌&&◌, ◌||◌, ltb, leb, ◌==◌,
  if◌then◌else◌, List, [], ◌∷◌, ◌++◌, Option, none, some, length,
}
use isocore.NetAddr.{NetAddr, inet, family_eq}
use isocore.Patricia.{
  Tree, nil, node, Kind, TrieNode, Trie, ispnodeglue, is_released, is_nil, bit_of,
}
use isocore.Patricia.Search.{entry, within}

-- `patiterator_t`; the stack has its top first.
pub record PatIterator : Type 0 where
  pub curr : Tree
  pub stack : List Tree

-- `*sp++ = n` on a stack of `size` entries: a fault when it is full.
unfoldable pub push_node : ℕ → Tree → List Tree → Option (List Tree)
push_node size t stack = if ltb (length stack) size then some (t ∷ stack) else none

-- `if (sp != stack) next = *(--sp); else next = NULL;`
unfoldable pub pop_node : List Tree → PatIterator
pop_node [] = record { curr = nil; stack = [] }
pop_node (t ∷ stack) = record { curr = t; stack = stack }

-- The node to visit after one with these children.
unfoldable pub move_next : ℕ → Tree → Tree → List Tree → Option PatIterator
move_next size l r stack =
    if is_nil l
    then some (if is_nil r then pop_node stack else record { curr = r; stack = stack })
    else (if is_nil r
        then some (record { curr = l; stack = stack })
        else (elim (push_node size r stack) [
          | none ↦ none
          | some stack' ↦ some (record { curr = l; stack = stack' })
        ]))

-- `patiteratormovenext`, which dereferences `curr`.
unfoldable pub patiteratormovenext : PatIterator → Option PatIterator
patiteratormovenext it = elim it.curr [ nil ↦ none | node k q v l r ↦ move_next 129 l r it.stack ]

-- `patiteratorskipglue`
unfoldable pub patiteratorskipglue : ℕ → PatIterator → Option PatIterator
patiteratorskipglue zero it = none
patiteratorskipglue (suc fuel) it = elim it.curr [
  | nil ↦ some it
  | node k q v l r ↦ elim (ispnodeglue k) [
    | false ↦ some it
    | true ↦ elim (move_next 129 l r it.stack) [
      | none ↦ none
      | some it' ↦ patiteratorskipglue fuel it'
    ]
  ]
]

-- `patiteratorinit`
unfoldable pub patiteratorinit : ℕ → Trie → Option PatIterator
patiteratorinit fuel pt = patiteratorskipglue fuel (record { curr = pt.head; stack = [] })

-- `patiteratorget`
unfoldable pub patiteratorget : PatIterator → Option TrieNode
patiteratorget it = elim it.curr [ nil ↦ none | node k q v l r ↦ some (entry q v) ]

-- `patiteratornext`
unfoldable pub patiteratornext : ℕ → PatIterator → Option PatIterator
patiteratornext fuel it = elim (patiteratormovenext it) [
  | none ↦ none
  | some it' ↦ patiteratorskipglue fuel it'
]

-- `patiteratorend`
unfoldable pub patiteratorend : PatIterator → Bool
patiteratorend it = is_nil it.curr

-- `!ispnodeglue(n) && n->prefix.bitlen != 0`
abbrev pub is_first : Kind → NetAddr → Bool
is_first k q = not (ispnodeglue k) && not (q.bitlen == 0)

-- The loop of `patcoverage`: a shift by a negative number is a fault.
unfoldable pub coverage_loop : ℕ → ℕ → PatIterator → ℕ → Option ℕ
coverage_loop zero maxbitlen it coverage = none
coverage_loop (suc fuel) maxbitlen it coverage = elim it.curr [
  | nil ↦ some coverage
  | node k q v l r ↦ elim (is_first k q) [
    | true ↦ elim (ltb maxbitlen q.bitlen) [
      | true ↦ none
      | false ↦
          coverage_loop fuel maxbitlen (pop_node it.stack)
            ((coverage + 2 ^ (maxbitlen - q.bitlen) % 2 ^ 128) % 2 ^ 128)
    ]
    | false ↦ elim (move_next (maxbitlen + 1) l r it.stack) [
      | none ↦ none
      | some it' ↦ coverage_loop fuel maxbitlen it' coverage
    ]
  ]
]

-- `patcoverage`
unfoldable pub patcoverage : ℕ → Trie → Option ℕ
patcoverage fuel pt = coverage_loop fuel pt.maxbitlen (record { curr = pt.head; stack = [] }) 0

-- The loop of `patgetfirstsubnetsofn` that goes down to the prefix.
unfoldable pub subtree_of : Tree → NetAddr → Option Tree
subtree_of nil p = some nil
subtree_of (node k q v l r) p = elim (is_released k) [
  | true ↦ none
  | false ↦ elim (ltb q.bitlen p.bitlen) [
    | true ↦ elim (bit_of p q.bitlen) [ true ↦ subtree_of r p | false ↦ subtree_of l p ]
    | false ↦ some (node k q v l r)
  ]
]

-- The nodes that the array of results has room for: `1ull << (pt->maxbitlen - prefix->bitlen)` is a
-- fault unless the shift is at least 0 and below 64.
unfoldable pub room_for : Trie → NetAddr → Option ℕ
room_for pt p =
    if family_eq p.family inet || leb 96 p.bitlen
    then (if leb p.bitlen pt.maxbitlen && ltb (pt.maxbitlen - p.bitlen) 64
        then some (
            if ltb pt.nprefs (2 ^ (pt.maxbitlen - p.bitlen))
            then pt.nprefs
            else 2 ^ (pt.maxbitlen - p.bitlen))
        else none)
    else some pt.nprefs

-- The second loop of `patgetfirstsubnetsofn`.
unfoldable pub first_loop : ℕ → ℕ → PatIterator → List TrieNode → Option (List TrieNode)
first_loop zero maxbitlen it res = none
first_loop (suc fuel) maxbitlen it res = elim it.curr [
  | nil ↦ some res
  | node k q v l r ↦ elim (is_first k q) [
    | true ↦ first_loop fuel maxbitlen (pop_node it.stack) (res ++ entry q v ∷ [])
    | false ↦ elim (move_next (maxbitlen + 1) l r it.stack) [
      | none ↦ none
      | some it' ↦ first_loop fuel maxbitlen it' res
    ]
  ]
]

-- `patgetfirstsubnetsofn`; `memory` says whether `malloc` succeeds, and the inner `none` is NULL.
unfoldable pub patgetfirstsubnetsofn : ℕ → Bool → Trie → NetAddr → Option (Option (List TrieNode))
patgetfirstsubnetsofn fuel memory pt p = elim pt.head [
  | nil ↦ some none
  | node k q v l r ↦ elim (subtree_of pt.head p) [
    | none ↦ none
    | some start ↦ elim (room_for pt p) [
      | none ↦ none
      | some n ↦
          if memory
          then (elim (first_loop fuel pt.maxbitlen (record { curr = start; stack = [] }) []) [
            | none ↦ none
            | some res ↦ elim (within (n + 1) res) [ none ↦ none | some res' ↦ some (some res') ]
          ])
          else some none
    ]
  ]
]
