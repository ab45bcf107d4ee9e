-- ===== src/Patricia/Insert.antt =====
-- `patinsertn` (src/patriciatrie.c). The compiler's `__builtin_clz`, which `bitclz` returns, is a
-- parameter.
use isocore.Base.{
  ℕ, zero, suc, ◌+◌, ◌*◌, ◌/◌, ◌%◌, min, bit_xor, Bool, true, false, ◌&&◌, ◌||◌, ltb, leb, ◌==◌,
  if◌then◌else◌, List, [], ◌∷◌, Option, none, some, replicate,
}
use isocore.Base.Bytes.{from_big}
use isocore.NetAddr.{NetAddr, unspec, u32_at}
use isocore.Patricia.{
  Tree, nil, node, plain, glue, TrieNode, Trie, is_glue, is_released, is_nil, bit_of,
}
use isocore.Patricia.Search.{entry}
use isocore.Patricia.Path.{Frame, frame, plug, rebuild}
use isocore.Patricia.Pages.{taken, no_node, in_use, getfreenode}

-- A node, and the way to it.
pub record Spot : Type 0 where
  pub at : Tree
  pub way : List Frame

-- The first loop of `patinsertn`.
unfoldable pub descend : ℕ → Tree → NetAddr → List Frame → Option Spot
descend maxbits nil p way = some (record { at = nil; way = way })
descend maxbits (node k q v l r) p way = elim (is_released k) [
  | true ↦ none
  | false ↦ elim (ltb q.bitlen p.bitlen || is_glue k) [
    | false ↦ some (record { at = node k q v l r; way = way })
    | true ↦ elim (ltb q.bitlen maxbits && bit_of p q.bitlen) [
      | true ↦ elim (is_nil r) [
        | true ↦ some (record { at = node k q v l r; way = way })
        | false ↦ descend maxbits r p (frame k q v true l ∷ way)
      ]
      | false ↦ elim (is_nil l) [
        | true ↦ some (record { at = node k q v l r; way = way })
        | false ↦ descend maxbits l p (frame k q v false r ∷ way)
      ]
    ]
  ]
]

-- `frombig32` on a machine whose bytes go from the low to the high one.
unfoldable pub frombig32 : ℕ → ℕ
frombig32 r =
    from_big ((r % 256) ∷ (r / 256 % 256) ∷ (r / 65536 % 256) ∷ (r / 16777216 % 256) ∷ []) 0

-- The loop that compares the words of two prefixes from the `i`th on: a fault after the 4 words.
unfoldable pub differ_loop : (ℕ → ℕ) → ℕ → ℕ → ℕ → NetAddr → NetAddr → ℕ → Option ℕ
differ_loop bitclz zero i check_bit p q differ_bit =
    if ltb (32 * i) check_bit then none else some differ_bit
differ_loop bitclz (suc words) i check_bit p q differ_bit =
    let rest = differ_loop bitclz words (i + 1) check_bit p q (32 * i + 32) in
    let r = bit_xor (u32_at p i) (u32_at q i) in
    if ltb (32 * i) check_bit
    then (if r == 0 then rest else some (32 * i + bitclz (frombig32 r)))
    else some differ_bit

-- The first bit where two prefixes differ, or the length of the shorter one.
unfoldable pub differ_bit_of : (ℕ → ℕ) → NetAddr → NetAddr → Option ℕ
differ_bit_of bitclz p q = elim (differ_loop bitclz 4 0 (min q.bitlen p.bitlen) p q 0) [
  | none ↦ none
  | some d ↦ some (if ltb (min q.bitlen p.bitlen) d then min q.bitlen p.bitlen else d)
]

-- `while (parent && parent->prefix.bitlen >= differ_bit)`
unfoldable pub ascend : ℕ → Tree → List Frame → Spot
ascend d t [] = record { at = t; way = [] }
ascend d t (f ∷ fs) =
    if leb d f.prefix.bitlen then ascend d (plug f t) fs else record { at = t; way = f ∷ fs }

-- What `patinsertn` leaves: the trie, the node that it returns (`none` is NULL), and `*inserted`, which
-- is true for PREFIX_INSERTED.
pub record Inserted : Type 0 where
  pub trie : Trie
  pub returned : Option TrieNode
  pub inserted : Bool

-- `pt->nprefs++` on an unsigned int.
abbrev pub one_more : ℕ → ℕ
one_more n = (n + 1) % 4294967296

abbrev pub with_head : Trie → Tree → ℕ → Trie
with_head pt head nprefs = record {
  head = head;
  maxbitlen = pt.maxbitlen;
  nprefs = nprefs;
  pages = pt.pages;
  free = pt.free;
}

abbrev pub new_node : NetAddr → Tree
new_node p = node plain p 0 nil nil

-- `pnodeinit(glue, NULL)`, with the length set after it.
unfoldable pub glue_prefix : ℕ → NetAddr
glue_prefix d = record { family = unspec; bitlen = d; bytes = replicate 16 0 }

-- A new node where the trie is empty, or where a node has no child.
unfoldable pub insert_first : Bool → Trie → NetAddr → Option Inserted
insert_first memory pt p = elim (getfreenode memory pt) [
  | no_node ↦ some (record { trie = pt; returned = none; inserted = false })
  | in_use ↦ none
  | taken pt' ↦ some (record {
    trie = with_head pt' (new_node p) (one_more pt.nprefs);
    returned = some (entry p 0);
    inserted = true;
  })
]

-- `n->children[bit != 0] = newnode`
unfoldable pub hang : ℕ → Tree → NetAddr → Tree → Tree
hang maxbits nil p new = nil
hang maxbits (node k q v l r) p new =
    if ltb q.bitlen maxbits && bit_of p q.bitlen then node k q v l new else node k q v new r

-- A glue node with the new node on its side, and `n` on the other one.
unfoldable pub join : ℕ → ℕ → NetAddr → Tree → Tree → Tree
join maxbits d p new n =
    if ltb d maxbits && bit_of p d
    then node glue (glue_prefix d) 0 n new
    else node glue (glue_prefix d) 0 new n

-- The new node below `n`, or next to it under a glue node.
unfoldable pub insert_new : Bool → Trie → NetAddr → ℕ → Tree → List Frame → Option Inserted
insert_new memory pt p d nil way = none
insert_new memory pt p d (node k q v l r) way = elim (getfreenode memory pt) [
  | no_node ↦ some (record { trie = pt; returned = none; inserted = false })
  | in_use ↦ none
  | taken pt' ↦
      if q.bitlen == d
      then some (record {
        trie =
            with_head pt' (rebuild way (hang pt.maxbitlen (node k q v l r) p (new_node p)))
              (one_more pt.nprefs);
        returned = some (entry p 0);
        inserted = true;
      })
      else (elim (getfreenode memory pt') [
        | no_node ↦ some (record {
          trie = with_head pt' pt.head (one_more pt.nprefs);
          returned = none;
          inserted = false;
        })
        | in_use ↦ none
        | taken pt'' ↦ some (record {
          trie =
              with_head pt'' (rebuild way (join pt.maxbitlen d p (new_node p) (node k q v l r)))
                (one_more pt.nprefs);
          returned = some (entry p 0);
          inserted = true;
        })
      ])
]

-- What follows the second loop: a node with the prefix's length is the one, or a new one is made.
unfoldable pub insert_at : Bool → Trie → NetAddr → ℕ → Spot → Option Inserted
insert_at memory pt p d spot = elim spot.at [
  | nil ↦ none
  | node k q v l r ↦
      if (d == p.bitlen) && (q.bitlen == p.bitlen)
      then some (
          if is_glue k
          then record { trie = pt; returned = some (entry q v); inserted = false }
          else record {
            trie = with_head pt (rebuild spot.way (node k p v l r)) (one_more pt.nprefs);
            returned = some (entry p v);
            inserted = false;
          })
      else insert_new memory pt p d (node k q v l r) spot.way
]

-- The comparison with the node where the first loop stops.
unfoldable pub insert_from : (ℕ → ℕ) → Bool → Trie → NetAddr → Spot → Option Inserted
insert_from bitclz memory pt p spot = elim spot.at [
  | nil ↦ none
  | node k q v l r ↦ elim (differ_bit_of bitclz p q) [
    | none ↦ none
    | some d ↦ insert_at memory pt p d (ascend d spot.at spot.way)
  ]
]

-- `patinsertn`; `memory` says whether `malloc` succeeds.
unfoldable pub patinsertn : (ℕ → ℕ) → Bool → Trie → NetAddr → Option Inserted
patinsertn bitclz memory pt p =
    if is_nil pt.head then insert_first memory pt p else (elim (descend pt.maxbitlen pt.head p []) [
      | none ↦ none
      | some spot ↦ insert_from bitclz memory pt p spot
    ])
