-- ===== src/Patricia/Shape.antt =====
-- The well-formed tries, and the prefixes that a trie holds.
use isocore.Base.{
  ℕ, ◌≤◌, ◌<◌, ◌≡◌, ◌==◌, Bool, true, false, ◌&&◌, List, [], ◌∷◌, ◌++◌, Option, none, some, take,
  if◌then◌else◌,
}
use isocore.NetAddr.{NetAddr, patcompwithmask}
use isocore.NetAddr.Bits.{bits}
use isocore.NetAddr.Compare.{IsAddr}
use isocore.Patricia.{
  Tree, nil, node, Kind, plain, glue, released, TrieNode, is_glue, is_released, is_nil, bit_of,
}
use isocore.Patricia.Search.{entry}

-- The nodes that hold a prefix, in the order of the tree: a node, its left and its right subtree.
abbrev pub entries : Tree → List TrieNode
entries nil = []
entries (node plain q v l r) = entry q v ∷ (entries l ++ entries r)
entries (node glue q v l r) = entries l ++ entries r
entries (node released q v l r) = entries l ++ entries r

-- A condition on every node of a tree.
abbrev pub Every : (Kind → NetAddr → Type 0) → Tree → Type 0
Every P nil = Unit
Every P (node k q v l r) = P k q × Every P l × Every P r

-- A node that hangs on the side `b` of one with `n` bits.
abbrev pub HangsBelow : ℕ → Bool → Kind → NetAddr → Type 0
HangsBelow n b k q = (n < q.bitlen) × (is_glue k ≡ false → bit_of q n ≡ b)

-- A prefix starts with the bits `s`.
abbrev pub StartsWith : ℕ → List ℕ → Kind → NetAddr → Type 0
StartsWith n s k q = is_glue k ≡ false → take n (bits q.bytes) ≡ s

-- One node: its prefix is one, no prefix below leaves its bits `s`, and a glue node has two children.
pub record NodeIsValid (s : List ℕ) (k : Kind) (q : NetAddr) (l r : Tree) : Type 0 where
  pub in_tree : is_released k ≡ false
  pub fits : q.bitlen ≤ 128
  pub address : is_glue k ≡ false → IsAddr q
  pub own : StartsWith q.bitlen s k q
  pub left : Every (HangsBelow q.bitlen false) l
  pub right : Every (HangsBelow q.bitlen true) r
  pub under_left : Every (StartsWith q.bitlen s) l
  pub under_right : Every (StartsWith q.bitlen s) r
  pub branches : is_glue k ≡ true → (is_nil l ≡ false) × (is_nil r ≡ false)

-- Every node of the tree is valid, for some bits.
abbrev pub IsPatricia : Tree → Type 0
IsPatricia nil = Unit
IsPatricia (node k q v l r) = ((s : List ℕ) × NodeIsValid s k q l r) × IsPatricia l × IsPatricia r

-- The first node of a list with a given prefix.
abbrev pub same_prefix : NetAddr → NetAddr → Bool
same_prefix q p = q.bitlen == p.bitlen && patcompwithmask q p p.bitlen

abbrev pub find_prefix : NetAddr → List TrieNode → Option TrieNode
find_prefix p [] = none
find_prefix p (e ∷ es) = if same_prefix e.prefix p then some e else find_prefix p es
