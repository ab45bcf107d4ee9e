-- ===== src/Patricia/Search.antt =====
-- The searches along one path of the trie (src/patriciatrie.c).
use isocore.Base.{
  ℕ, ◌+◌, Bool, true, false, not, ◌&&◌, ◌||◌, ltb, leb, if◌then◌else◌, List, [], ◌∷◌, ◌++◌, Option,
  none, some, length,
}
use isocore.NetAddr.{NetAddr, patcompwithmask}
use isocore.Patricia.{Tree, nil, node, TrieNode, Trie, is_glue, is_released, bit_of}

abbrev pub entry : NetAddr → ℕ → TrieNode
entry q v = record { prefix = q; payload = v }

-- The loop of `patsearchexactn` and what follows it.
unfoldable pub search_exact : Tree → NetAddr → Option (Option TrieNode)
search_exact nil p = some none
search_exact (node k q v l r) p = elim (is_released k) [
  | true ↦ none
  | false ↦ elim (ltb q.bitlen p.bitlen) [
    | true ↦ elim (bit_of p q.bitlen) [ true ↦ search_exact r p | false ↦ search_exact l p ]
    | false ↦ some (
        if ltb p.bitlen q.bitlen || is_glue k
        then none
        else (if patcompwithmask q p p.bitlen then some (entry q v) else none))
  ]
]

-- `patsearchexactn`
unfoldable pub patsearchexactn : Trie → NetAddr → Option (Option TrieNode)
patsearchexactn pt p = search_exact pt.head p

-- The loop of `patsearchbestn`, with the node found last.
unfoldable pub search_best : Tree → NetAddr → Option TrieNode → Option (Option TrieNode)
search_best nil p last = some last
search_best (node k q v l r) p last = elim (is_released k) [
  | true ↦ none
  | false ↦ elim (ltb q.bitlen p.bitlen) [
    | true ↦ elim (is_glue k) [
      | true ↦ elim (bit_of p q.bitlen) [
        | true ↦ search_best r p last
        | false ↦ search_best l p last
      ]
      | false ↦ elim (leb q.bitlen p.bitlen && patcompwithmask q p q.bitlen) [
        | true ↦ elim (bit_of p q.bitlen) [
          | true ↦ search_best r p (some (entry q v))
          | false ↦ search_best l p (some (entry q v))
        ]
        | false ↦ some last
      ]
    ]
    | false ↦ some last
  ]
]

-- `patsearchbestn`
unfoldable pub patsearchbestn : Trie → NetAddr → Option (Option TrieNode)
patsearchbestn pt p = search_best pt.head p none

-- The loop of `patgetsupernetsofn` and the test after it, with the results so far.
unfoldable pub search_supernets : ℕ → Tree → NetAddr → List TrieNode → Option (List TrieNode)
search_supernets maxbitlen nil p res = some res
search_supernets maxbitlen (node k q v l r) p res = elim (is_released k) [
  | true ↦ none
  | false ↦ elim (ltb q.bitlen p.bitlen) [
    | true ↦ elim (is_glue k) [
      | true ↦ elim (ltb q.bitlen maxbitlen && bit_of p q.bitlen) [
        | true ↦ search_supernets maxbitlen r p res
        | false ↦ search_supernets maxbitlen l p res
      ]
      | false ↦ elim (ltb q.bitlen maxbitlen && patcompwithmask q p q.bitlen) [
        | true ↦ elim (ltb q.bitlen maxbitlen && bit_of p q.bitlen) [
          | true ↦ search_supernets maxbitlen r p (res ++ entry q v ∷ [])
          | false ↦ search_supernets maxbitlen l p (res ++ entry q v ∷ [])
        ]
        | false ↦ some res
      ]
    ]
    | false ↦ some (
        if (not (is_glue k) && leb q.bitlen p.bitlen) && patcompwithmask q p p.bitlen
        then (res ++ entry q v ∷ [])
        else res)
  ]
]

-- An array of results, with the terminating NULL: a fault if it is longer than what was allocated.
abbrev pub within : ℕ → List TrieNode → Option (List TrieNode)
within capacity res = if ltb (length res) capacity then some res else none

-- `patgetsupernetsofn`; `memory` says whether `malloc` succeeds, and the inner `none` is NULL.
unfoldable pub patgetsupernetsofn : Bool → Trie → NetAddr → Option (Option (List TrieNode))
patgetsupernetsofn memory pt p = elim pt.head [
  | nil ↦ some none
  | node k q v l r ↦
      if memory
      then (elim (search_supernets pt.maxbitlen pt.head p []) [
        | none ↦ none
        | some res ↦ elim (within (p.bitlen + 2) res) [ none ↦ none | some res' ↦ some (some res') ]
      ])
      else some none
]

-- `patissubnetofn`
unfoldable pub search_subnet : ℕ → Tree → NetAddr → Option Bool
search_subnet maxbitlen nil p = some false
search_subnet maxbitlen (node k q v l r) p = elim (is_released k) [
  | true ↦ none
  | false ↦ elim (ltb q.bitlen p.bitlen) [
    | true ↦ elim (is_glue k) [
      | true ↦ elim (ltb q.bitlen maxbitlen && bit_of p q.bitlen) [
        | true ↦ search_subnet maxbitlen r p
        | false ↦ search_subnet maxbitlen l p
      ]
      | false ↦ some (ltb q.bitlen maxbitlen && patcompwithmask q p q.bitlen)
    ]
    | false ↦ some ((not (is_glue k) && leb q.bitlen p.bitlen) && patcompwithmask q p p.bitlen)
  ]
]

unfoldable pub patissubnetofn : Trie → NetAddr → Option Bool
patissubnetofn pt p = search_subnet pt.maxbitlen pt.head p
