-- ===== src/Patricia.antt =====
-- src/patriciatrie.c and include/isolario/patriciatrie.h: a trie of prefixes (`patricia_trie_t`).
--
-- The nodes that hang below `head` are a tree; NULL is `nil`. The parent pointers stand for the way
-- back to the head, which `patinsertn` and `patremoven` take as a path. A free node keeps its link
-- where a node has its prefix: a node that was put on the free list while it hangs in the tree is
-- `released`, and reading its prefix is a fault, the `none` of the operations.
pub mod Search
pub mod BitOf
pub mod Shape
pub mod Lookup
pub mod Walk
pub mod Subnets
pub mod Path
pub mod Pages
pub mod Remove
pub mod Above
pub mod Insert
pub mod Hidden
mod Tests
use isocore.Base.{
  ℕ, ◌+◌, ◌*◌, ◌/◌, ◌%◌, ◌^◌, bit_and, Bool, true, false, not, ◌==◌, List, [], ◌∷◌, Option, none,
  some,
}
use isocore.NetAddr.{NetAddr, byte_at}

-- `ispnodeglue`, and the nodes whose prefix was overwritten by `putfreenode`.
pub data Kind : Type 0 where
  plain glue released : Kind

-- `union pnode_s`: the kind, the prefix, the payload and the two children.
pub data Tree : Type 0 where
  nil : Tree
  node : Kind → NetAddr → ℕ → Tree → Tree → Tree

-- `trienode_t`, the public part of a node.
pub record TrieNode : Type 0 where
  pub prefix : NetAddr
  pub payload : ℕ

abbrev pub is_glue : Kind → Bool
is_glue glue = true
is_glue _ = false

abbrev pub is_released : Kind → Bool
is_released released = true
is_released _ = false

-- A released node has the bit of a glue node too.
abbrev pub ispnodeglue : Kind → Bool
ispnodeglue plain = false
ispnodeglue _ = true

abbrev pub is_nil : Tree → Bool
is_nil nil = true
is_nil (node k q v l r) = false

-- `prefix->bytes[k >> 3] & (0x80 >> (k & 7))`, as the index of a child.
unfoldable pub bit_of : NetAddr → ℕ → Bool
bit_of p k = not (bit_and (byte_at p (k / 8)) (128 / 2 ^ (k % 8)) == 0)

-- `patricia_trie_t`. `free` has an entry for each node of the free list, which says whether the node
-- still hangs in the tree; `pages` counts the pages of 128 nodes.
pub record Trie : Type 0 where
  pub head : Tree
  pub maxbitlen : ℕ
  pub nprefs : ℕ
  pub pages : ℕ
  pub free : List Bool
