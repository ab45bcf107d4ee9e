-- ===== src/Patricia/Remove/Gap.antt =====
-- The trie after a removal.
use isocore.Base.{
  ℕ, ◌≡◌, refl, sym, ap, ◌∙◌, arith, Bool, true, false, List, [], ◌∷◌, ◌++◌, Option, none, some,
  append-nil, Bool-cases, inl, inr,
}
use mathlib.Core.Path.{subst}
use isocore.NetAddr.{NetAddr}
use isocore.Patricia.{Tree, nil, node, Kind, plain, glue, released, TrieNode, Trie, is_glue, is_nil}
use isocore.Patricia.Search.{entry}
use isocore.Patricia.Shape.{entries, IsPatricia, same_prefix, find_prefix}
use isocore.Patricia.Lookup.{IsQuery}
use isocore.Patricia.Path.{Frame, plug, plug_side, rebuild}
use isocore.Patricia.Path.Swap.{
  IsPatricia-inner, beside, own_entry, around, entries-plug, entries-rebuild,
}
use isocore.Patricia.Pages.{putfreenode}
use isocore.Patricia.Remove.{locate, Removed, less_one, removed, remove_leaf, remove_at, patremoven}
use isocore.Patricia.Remove.Locate.{
  erase, Misses, find_around, erase-around, missing, found, locate_lem,
}

-- The payload of a node that was found.
abbrev pub payload_of : Option TrieNode → Option ℕ
payload_of none = none
payload_of (some e) = some e.payload

-- The trie that `patremoven` leaves: what it holds, its count, and what it returns.
pub record Leaves (pt : Trie) (p : NetAddr) : Type 0 where
  pub result : Removed
  pub returned : patremoven pt p ≡ some result
  pub holds : entries result.trie.head ≡ erase p (entries pt.head)
  pub payload : result.payload ≡ payload_of (find_prefix p (entries pt.head))
  pub count : result.trie.nprefs ≡ less_one pt.nprefs

-- A glue parent that loses one child is replaced by the other one.
entries-glue_gap :
    (f : Frame)
    → is_glue f.kind ≡ true
    → entries f.other ≡ own_entry f.kind f.prefix f.payload ++ beside f.side f.other []
entries-glue_gap f g = go f.kind f.side g
  where
    go :
        (k : Kind) (side : Bool)
        → is_glue k ≡ true
        → entries f.other ≡ own_entry k f.prefix f.payload ++ beside side f.other []
    go plain side g = cc
    go released side g = cc
    go glue false g = refl
    go glue true g = sym (append-nil (entries f.other))

-- What removing a node, found at a place, does to the tree.
record Cut (pt : Trie) (v : ℕ) (l r : Tree) (fs : List Frame) (o : Option Removed) : Type 0 where
  result : Removed
  returned : o ≡ some result
  holds : entries result.trie.head ≡ around fs (entries l ++ entries r)
  payload : result.payload ≡ some v
  count : result.trie.nprefs ≡ less_one pt.nprefs

pub glue-other :
    (f : Frame) (fs : List Frame) (t : Tree)
    → IsPatricia (rebuild fs (plug f t))
    → is_glue f.kind ≡ true
    → is_nil f.other ≡ false
glue-other f fs t wf g = go f.side (IsPatricia-inner fs (plug f t) wf)
  where
    go :
        (side : Bool)
        → IsPatricia (plug_side side f.kind f.prefix f.payload f.other t)
        → is_nil f.other ≡ false
    go false h = (h.0.1.branches g).1
    go true h = (h.0.1.branches g).0

remove_leaf_lem :
    (pt : Trie) (v : ℕ) (fs : List Frame) (t : Tree)
    → IsPatricia (rebuild fs t)
    → Cut pt v nil nil fs (remove_leaf pt v fs)
unfolding remove_leaf
remove_leaf_lem pt v [] t wf = record {
  result = removed pt nil (putfreenode false pt.free) (some v);
  returned = refl;
  holds = refl;
  payload = refl;
  count = refl;
}
remove_leaf_lem pt v (f ∷ fs) t wf = elim (Bool-cases (is_glue f.kind)) [
  | inl g ↦ record {
    result =
        removed pt (rebuild fs f.other) (putfreenode false (putfreenode false pt.free)) (some v);
    returned = ground (arith, g, glue-other f fs t wf g);
    holds = entries-rebuild fs f.other ∙ ap (around fs) (entries-glue_gap f g);
    payload = refl;
    count = refl;
  }
  | inr g ↦ record {
    result = removed pt (rebuild fs (plug f nil)) (putfreenode false pt.free) (some v);
    returned = rw g refl;
    holds =
        entries-rebuild fs (plug f nil)
        ∙ ap (around fs) (entries-plug f.kind f.prefix f.payload f.side f.other nil);
    payload = refl;
    count = refl;
  }
]

remove_at_lem :
    (pt : Trie) (q : NetAddr) (v : ℕ) (l r : Tree) (fs : List Frame)
    → IsPatricia (rebuild fs (node plain q v l r))
    → Cut pt v l r fs (
        remove_at pt
          (record { kind = plain; prefix = q; payload = v; left = l; right = r; way = fs }))
unfolding remove_at
remove_at_lem pt q v nil nil fs wf = remove_leaf_lem pt v fs (node plain q v nil nil) wf
remove_at_lem pt q v nil (node k' q' v' l' r') fs wf = record {
  result = removed pt (rebuild fs (node k' q' v' l' r')) (putfreenode false pt.free) (some v);
  returned = refl;
  holds = entries-rebuild fs (node k' q' v' l' r');
  payload = refl;
  count = refl;
}
remove_at_lem pt q v (node k' q' v' l' r') nil fs wf = record {
  result = removed pt (rebuild fs (node k' q' v' l' r')) (putfreenode false pt.free) (some v);
  returned = refl;
  holds =
      entries-rebuild fs (node k' q' v' l' r')
      ∙ ap (around fs) (sym (append-nil (entries (node k' q' v' l' r'))));
  payload = refl;
  count = refl;
}
remove_at_lem pt q v (node ka qa va la ra) (node kb qb vb lb rb) fs wf = record {
  result =
      removed pt (rebuild fs (node released q v (node ka qa va la ra) (node kb qb vb lb rb)))
        (putfreenode true pt.free) (some v);
  returned = refl;
  holds = entries-rebuild fs (node released q v (node ka qa va la ra) (node kb qb vb lb rb));
  payload = refl;
  count = refl;
}

erase-missing : (p : NetAddr) (xs : List TrieNode) → find_prefix p xs ≡ none → erase p xs ≡ xs
erase-missing p [] h = refl
erase-missing p (x ∷ xs) h = ground (arith, erase-missing p xs)

removal_found :
    (pt : Trie) (p q : NetAddr) (v : ℕ) (l r : Tree) (fs : List Frame)
    → IsQuery p
    → locate pt.head p []
      ≡ some
          (some (record { kind = plain; prefix = q; payload = v; left = l; right = r; way = fs }))
    → rebuild fs (node plain q v l r) ≡ pt.head
    → Misses p fs
    → same_prefix q p ≡ true
    → IsPatricia pt.head
    → Leaves pt p
unfolding patremoven
removal_found pt p q v l r fs query e back m same wf =
    let cut = remove_at_lem pt q v l r fs (subst IsPatricia (sym back) wf) in
    let all : entries pt.head ≡ around fs (entry q v ∷ (entries l ++ entries r)) =
      ap entries (sym back) ∙ entries-rebuild fs (node plain q v l r) in
    let here : find_prefix p (entry q v ∷ (entries l ++ entries r)) ≡ some (entry q v) =
      rw same refl in
    let gone : erase p (entry q v ∷ (entries l ++ entries r)) ≡ entries l ++ entries r =
      rw same refl in
    record {
      result = cut.result;
      returned =
          ap
            (λ o. elim o [
              | none ↦ none
              | some none ↦ some (removed pt pt.head pt.free none)
              | some (some at) ↦ remove_at pt at
            ])
            e
          ∙ cut.returned;
      holds =
          cut.holds
          ∙ sym (
              ap (erase p) all
              ∙ erase-around p query fs (entry q v ∷ (entries l ++ entries r)) (entry q v) m here
              ∙ ap (around fs) gone);
      payload =
          cut.payload
          ∙ sym (
              ap (λ xs. payload_of (find_prefix p xs)) all
              ∙ ap payload_of (
                  find_around p query fs (entry q v ∷ (entries l ++ entries r)) (entry q v) m
                    here));
      count = cut.count;
    }

removal_missed :
    (pt : Trie) (p : NetAddr)
    → locate pt.head p [] ≡ some none
    → find_prefix p (entries pt.head) ≡ none
    → Leaves pt p
unfolding patremoven
removal_missed pt p e h = record {
  result = removed pt pt.head pt.free none;
  returned =
      ap
        (λ o. elim o [
          | none ↦ none
          | some none ↦ some (removed pt pt.head pt.free none)
          | some (some at) ↦ remove_at pt at
        ])
        e;
  holds = sym (erase-missing p (entries pt.head) h);
  payload = sym (ap payload_of h);
  count = refl;
}

-- In a well-formed trie, for a well-formed prefix, `patremoven` never faults: it takes the first node
-- with this prefix out of the list of the nodes and returns its payload, or NULL when there is none,
-- and takes one off the number of prefixes in both cases.
pub patremoven_lem : (pt : Trie) (p : NetAddr) → IsPatricia pt.head → IsQuery p → Leaves pt p
patremoven_lem pt p wf query = elim (locate_lem p query pt.head [] wf tt) [
  | missing e h ↦ removal_missed pt p e h
  | found q v l r fs e back m same ↦ removal_found pt p q v l r fs query e back m same wf
]
