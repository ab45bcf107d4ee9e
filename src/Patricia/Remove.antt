-- ===== src/Patricia/Remove.antt =====
-- `patremoven` (src/patriciatrie.c).
pub mod Locate
pub mod Gap
pub mod Valid
pub mod After
use isocore.Base.{
  ℕ, ◌+◌, ◌-◌, ◌%◌, ◌^◌, Bool, true, false, not, ◌&&◌, ◌||◌, ltb, if◌then◌else◌, List, [], ◌∷◌,
  Option, none, some,
}
use isocore.NetAddr.{NetAddr, patcompwithmask}
use isocore.Patricia.{
  Tree, nil, node, Kind, plain, glue, released, Trie, is_glue, is_released, is_nil, bit_of,
}
use isocore.Patricia.Path.{Frame, frame, plug, rebuild}
use isocore.Patricia.Pages.{putfreenode}

-- A node of the tree, and the way to it.
pub record Place : Type 0 where
  pub kind : Kind
  pub prefix : NetAddr
  pub payload : ℕ
  pub left : Tree
  pub right : Tree
  pub way : List Frame

-- The loop of `patsearchexactn`, which also keeps the way.
unfoldable pub locate : Tree → NetAddr → List Frame → Option (Option Place)
locate nil p way = some none
locate (node k q v l r) p way = elim (is_released k) [
  | true ↦ none
  | false ↦ elim (ltb q.bitlen p.bitlen) [
    | true ↦ elim (bit_of p q.bitlen) [
      | true ↦ locate r p (frame k q v true l ∷ way)
      | false ↦ locate l p (frame k q v false r ∷ way)
    ]
    | false ↦ some (
        if ltb p.bitlen q.bitlen || is_glue k
        then none
        else (if patcompwithmask q p p.bitlen
            then some (record { kind = k; prefix = q; payload = v; left = l; right = r; way = way })
            else none))
  ]
]

-- The trie and the payload that `patremoven` returns: `none` is NULL.
pub record Removed : Type 0 where
  pub trie : Trie
  pub payload : Option ℕ

-- `pt->nprefs--` on an unsigned int.
unfoldable pub less_one : ℕ → ℕ
less_one n = (n + 4294967295) % 4294967296

abbrev pub removed : Trie → Tree → List Bool → Option ℕ → Removed
removed pt head free payload = record {
  trie = record {
    head = head;
    maxbitlen = pt.maxbitlen;
    nprefs = less_one pt.nprefs;
    pages = pt.pages;
    free = free;
  };
  payload = payload;
}

-- A node without children: a parent that is glue is removed with it. `setpnodeparent` dereferences the
-- other child of such a parent.
unfoldable pub remove_leaf : Trie → ℕ → List Frame → Option Removed
remove_leaf pt v [] = some (removed pt nil (putfreenode false pt.free) (some v))
remove_leaf pt v (f ∷ fs) =
    if is_glue f.kind
    then (if is_nil f.other
        then none
        else some (
            removed pt (rebuild fs f.other) (putfreenode false (putfreenode false pt.free))
              (some v)))
    else some (removed pt (rebuild fs (plug f nil)) (putfreenode false pt.free) (some v))

-- What follows the search: a node with two children goes to the free list, and stays in the tree.
unfoldable pub remove_at : Trie → Place → Option Removed
remove_at pt at =
    if is_nil at.left
    then (if is_nil at.right
        then remove_leaf pt at.payload at.way
        else some
            (removed pt (rebuild at.way at.right) (putfreenode false pt.free) (some at.payload)))
    else (if is_nil at.right
        then some
            (removed pt (rebuild at.way at.left) (putfreenode false pt.free) (some at.payload))
        else some (
            removed pt (rebuild at.way (node released at.prefix at.payload at.left at.right))
              (putfreenode true pt.free) (some at.payload)))

-- `patremoven`
unfoldable pub patremoven : Trie → NetAddr → Option Removed
patremoven pt p = elim (locate pt.head p []) [
  | none ↦ none
  | some none ↦ some (removed pt pt.head pt.free none)
  | some (some at) ↦ remove_at pt at
]
