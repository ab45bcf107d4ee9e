-- ===== src/Patricia/Walk/Pending.antt =====
-- What a visit still has before it, and the room its stack needs.
use isocore.Base.{
  ℕ, suc, ◌+◌, ◌≤◌, ◌<◌, ◌≡◌, refl, sym, ap, ◌∙◌, arith, List, [], ◌∷◌, ◌++◌, some, length,
  append_assoc, append-nil, lt→ltb,
}
use isocore.NetAddr.{NetAddr}
use isocore.Patricia.{Tree, nil, node, Kind, TrieNode}
use isocore.Patricia.Shape.{Every, IsPatricia}
use isocore.Patricia.Walk.{PatIterator, push_node, pop_node, move_next}

-- The nodes of a tree.
abbrev pub size_of : Tree → ℕ
size_of nil = 0
size_of (node k q v l r) = suc (size_of l + size_of r)

abbrev pub size_of_all : List Tree → ℕ
size_of_all [] = 0
size_of_all (t ∷ ts) = size_of t + size_of_all ts

-- What a visit still has before it, of what `g` lists for a tree.
abbrev pub of_all : (Tree → List TrieNode) → List Tree → List TrieNode
of_all g [] = []
of_all g (t ∷ ts) = g t ++ of_all g ts

abbrev pub pending : (Tree → List TrieNode) → PatIterator → List TrieNode
pending g it = g it.curr ++ of_all g it.stack

abbrev pub pending_size : PatIterator → ℕ
pending_size it = size_of it.curr + size_of_all it.stack

-- Every node has less than `size` bits.
abbrev pub Below : ℕ → Tree → Type 0
Below size t = Every (λ k q. q.bitlen < size) t

pub IsPatricia-Below : (t : Tree) → IsPatricia t → Below 129 t
IsPatricia-Below nil wf = tt
IsPatricia-Below (node k q v l r) ((s, ok), wl, wr) =
    (omega (arith, ok.fits), IsPatricia-Below l wl, IsPatricia-Below r wr)

-- A node on a stack above `n` others has more than `n` bits.
abbrev pub Deeper : ℕ → Tree → Type 0
Deeper n nil = ⊥
Deeper n (node k q v l r) = n < q.bitlen

-- The nodes of the stack hang below different nodes of one path.
abbrev pub Stacked : ℕ → List Tree → Type 0
Stacked size [] = Unit
Stacked size (t ∷ ts) = IsPatricia t × Below size t × Deeper (length ts) t × Stacked size ts

-- The stack is empty at the end of a visit, and has no more entries than a node has bits before it.
abbrev pub Deep : Tree → List Tree → Type 0
Deep nil ts = ts ≡ []
Deep (node k q v l r) ts = length ts ≤ q.bitlen

-- The invariant of the visits.
pub record IsVisit (size : ℕ) (it : PatIterator) : Type 0 where
  pub valid : IsPatricia it.curr
  pub below : Below size it.curr
  pub deep : Deep it.curr it.stack
  pub stacked : Stacked size it.stack

-- After `pop_node`, the visit has what the stack held.
pop_node-IsVisit : (size : ℕ) (ts : List Tree) → Stacked size ts → IsVisit size (pop_node ts)
unfolding pop_node
pop_node-IsVisit size [] h = record { valid = tt; below = tt; deep = refl; stacked = tt }
pop_node-IsVisit size (nil ∷ ts) h = absurd h.2
pop_node-IsVisit size (node k q v l r ∷ ts) h = record {
  valid = h.0;
  below = h.1;
  deep = omega (arith, h.2);
  stacked = h.3;
}

pop_node-pending :
    (g : Tree → List TrieNode) (ts : List Tree) → g nil ≡ [] → pending g (pop_node ts) ≡ of_all g ts
unfolding pop_node
pop_node-pending g [] e = rw e refl
pop_node-pending g (t ∷ ts) e = refl

pop_node-pending_size : (ts : List Tree) → pending_size (pop_node ts) ≡ size_of_all ts
unfolding pop_node
pop_node-pending_size [] = refl
pop_node-pending_size (t ∷ ts) = refl

-- One move: there is room on the stack, the invariant is kept, and what is pending is what was below
-- the node and on the stack.
pub record Moves (size : ℕ) (l r : Tree) (ts : List Tree) : Type 0 where
  pub next : PatIterator
  pub moved : move_next size l r ts ≡ some next
  pub visit : IsVisit size next
  pub rest : (g : Tree → List TrieNode) → g nil ≡ [] → pending g next ≡ (g l ++ g r) ++ of_all g ts
  pub count : pending_size next ≡ (size_of l + size_of r) + size_of_all ts

pub start-IsVisit :
    (size : ℕ) (t : Tree)
    → IsPatricia t
    → Below size t
    → IsVisit size (record { curr = t; stack = [] })
start-IsVisit size nil wf b = record { valid = wf; below = b; deep = refl; stacked = tt }
start-IsVisit size (node k q v l r) wf b = record {
  valid = wf;
  below = b;
  deep = omega arith;
  stacked = tt;
}

pub record Popped (size : ℕ) (ts : List Tree) : Type 0 where
  pub visit : IsVisit size (pop_node ts)
  pub rest : (g : Tree → List TrieNode) → g nil ≡ [] → pending g (pop_node ts) ≡ of_all g ts
  pub count : pending_size (pop_node ts) ≡ size_of_all ts

pub pop_node_lem : (size : ℕ) (ts : List Tree) → Stacked size ts → Popped size ts
pop_node_lem size ts h = record {
  visit = pop_node-IsVisit size ts h;
  rest = λ g e. pop_node-pending g ts e;
  count = pop_node-pending_size ts;
}

pub move_next_lem :
    (size : ℕ) (k : Kind) (q : NetAddr) (v : ℕ) (l r : Tree) (ts : List Tree)
    → IsPatricia (node k q v l r)
    → Below size (node k q v l r)
    → length ts ≤ q.bitlen
    → Stacked size ts
    → Moves size l r ts
unfolding move_next push_node
move_next_lem size k q v nil nil ts ((s, ok), wl, wr) (lt, bl, br) le st =
    let p = pop_node_lem size ts st in
    record {
      next = pop_node ts;
      moved = refl;
      visit = p.visit;
      rest = λ g e. p.rest g e ∙ rw e refl;
      count = p.count ∙ omega arith;
    }
move_next_lem size k q v nil (node k' q' v' l' r') ts ((s, ok), wl, wr) (lt, bl, br) le st =
    record {
      next = record { curr = node k' q' v' l' r'; stack = ts };
      moved = refl;
      visit = record {
        valid = wr;
        below = br;
        deep = omega (arith, le, ok.right.0.0);
        stacked = st;
      };
      rest = λ g e. rw e refl;
      count = omega arith;
    }
move_next_lem size k q v (node k' q' v' l' r') nil ts ((s, ok), wl, wr) (lt, bl, br) le st =
    record {
      next = record { curr = node k' q' v' l' r'; stack = ts };
      moved = refl;
      visit = record {
        valid = wl;
        below = bl;
        deep = omega (arith, le, ok.left.0.0);
        stacked = st;
      };
      rest =
          λ g e. rw e (ap (λ xs. xs ++ of_all g ts) (sym (append-nil (g (node k' q' v' l' r')))));
      count = omega arith;
    }
move_next_lem size k q v (node ka qa va la ra) (node kb qb vb lb rb) ts ((s, ok), wl, wr)
      (lt, bl, br) le st =
    record {
      next = record { curr = node ka qa va la ra; stack = node kb qb vb lb rb ∷ ts };
      moved = rw (lt→ltb (length ts) size (omega (arith, le, lt))) refl;
      visit = record {
        valid = wl;
        below = bl;
        deep = omega (arith, le, ok.left.0.0);
        stacked = (wr, br, omega (arith, le, ok.right.0.0), st);
      };
      rest = λ g e.
          sym (append_assoc (g (node ka qa va la ra)) (g (node kb qb vb lb rb)) (of_all g ts));
      count = omega arith;
    }
