-- ===== src/Patricia/Path.antt =====
-- The way from a node of the trie back to the head, which the parent pointers keep.
pub mod Swap
use isocore.Base.{ℕ, List, [], ◌∷◌, Bool, true, false}
use isocore.NetAddr.{NetAddr}
use isocore.Patricia.{Tree, node, Kind}

-- A node of the way: the side of the child that the way takes, and the other child.
pub record Frame : Type 0 where
  pub kind : Kind
  pub prefix : NetAddr
  pub payload : ℕ
  pub side : Bool
  pub other : Tree

-- The node with a child at this side.
abbrev pub plug_side : Bool → Kind → NetAddr → ℕ → Tree → Tree → Tree
plug_side false k q v other t = node k q v t other
plug_side true k q v other t = node k q v other t

abbrev pub plug : Frame → Tree → Tree
plug f t = plug_side f.side f.kind f.prefix f.payload f.other t

-- The tree with `t` at the end of the way.
abbrev pub rebuild : List Frame → Tree → Tree
rebuild [] t = t
rebuild (f ∷ fs) t = rebuild fs (plug f t)

abbrev pub frame : Kind → NetAddr → ℕ → Bool → Tree → Frame
frame k q v side other = record { kind = k; prefix = q; payload = v; side = side; other = other }
