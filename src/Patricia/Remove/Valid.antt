-- ===== src/Patricia/Remove/Valid.antt =====
-- The well-formedness of the trie after a removal.
use isocore.Base.{
  ℕ, ◌≡◌, refl, sym, ap, ◌∙◌, Bool, true, false, ◌||◌, List, [], ◌∷◌, Option, none, some,
  Bool-cases, inl, inr,
}
use mathlib.Core.Path.{subst}
use isocore.NetAddr.{NetAddr}
use isocore.Patricia.{Tree, nil, node, Kind, plain, Trie, is_glue, is_nil}
use isocore.Patricia.Shape.{IsPatricia}
use isocore.Patricia.Lookup.{IsQuery}
use isocore.Patricia.Path.{Frame, plug_side, plug, rebuild}
use isocore.Patricia.Path.Swap.{
  Covers, IsPatricia-inner, IsPatricia-plug, IsPatricia-rebuild, Covers-plug, plug_side-not_nil,
}
use isocore.Patricia.Remove.{Place, locate, Removed, removed, remove_leaf, remove_at, patremoven}
use isocore.Patricia.Remove.Locate.{Outcome, missing, found, locate_lem}
use isocore.Patricia.Remove.Gap.{glue-other}

plug-other :
    (k : Kind) (q : NetAddr) (v : ℕ) (side : Bool) (other t : Tree)
    → Covers (plug_side side k q v other t) other
plug-other k q v false other t = λ P h. h.2
plug-other k q v true other t = λ P h. h.1

IsPatricia-other :
    (k : Kind) (q : NetAddr) (v : ℕ) (side : Bool) (other t : Tree)
    → IsPatricia (plug_side side k q v other t)
    → IsPatricia other
IsPatricia-other k q v false other t wf = wf.2
IsPatricia-other k q v true other t wf = wf.1

Covers-nil : (t : Tree) → Covers t nil
Covers-nil t = λ P h. tt

rebuild-without_leaf :
    (f : Frame) (fs : List Frame) (t : Tree)
    → is_glue f.kind ≡ false
    → IsPatricia (rebuild fs (plug f t))
    → IsPatricia (rebuild fs (plug f nil))
rebuild-without_leaf f fs t g wf =
    IsPatricia-rebuild fs (plug f t) (plug f nil) wf
      (IsPatricia-plug f.kind f.prefix f.payload f.side f.other t nil
        (IsPatricia-inner fs (plug f t) wf) tt (Covers-nil t) (λ h n. cc))
      (Covers-plug f.kind f.prefix f.payload f.side f.other t nil (Covers-nil t))
      (λ h. plug_side-not_nil f.kind f.prefix f.payload f.side f.other nil)

rebuild-without_parent :
    (f : Frame) (fs : List Frame) (t : Tree)
    → is_glue f.kind ≡ true
    → IsPatricia (rebuild fs (plug f t))
    → IsPatricia (rebuild fs f.other)
rebuild-without_parent f fs t g wf =
    IsPatricia-rebuild fs (plug f t) f.other wf
      (IsPatricia-other f.kind f.prefix f.payload f.side f.other t
        (IsPatricia-inner fs (plug f t) wf))
      (plug-other f.kind f.prefix f.payload f.side f.other t) (λ h. glue-other f fs t wf g)

-- The trie of a result is well-formed.
Keeps : Option Removed → Type 0
Keeps none = Unit
Keeps (some res) = IsPatricia res.trie.head

remove_leaf-IsPatricia :
    (pt : Trie) (v : ℕ) (fs : List Frame) (t : Tree)
    → IsPatricia (rebuild fs t)
    → Keeps (remove_leaf pt v fs)
unfolding remove_leaf Keeps
remove_leaf-IsPatricia pt v [] t wf = tt
remove_leaf-IsPatricia pt v (f ∷ fs) t wf = elim (Bool-cases (is_glue f.kind)) [
  | inl g ↦ rw (g, glue-other f fs t wf g) (rebuild-without_parent f fs t g wf)
  | inr g ↦ rw g (rebuild-without_leaf f fs t g wf)
]

remove_at-IsPatricia :
    (pt : Trie) (q : NetAddr) (v : ℕ) (l r : Tree) (fs : List Frame)
    → IsPatricia (rebuild fs (node plain q v l r))
    → (is_nil l || is_nil r) ≡ true
    → Keeps (
        remove_at pt
          (record { kind = plain; prefix = q; payload = v; left = l; right = r; way = fs }))
unfolding remove_at Keeps
remove_at-IsPatricia pt q v nil nil fs wf one =
    remove_leaf-IsPatricia pt v fs (node plain q v nil nil) wf
remove_at-IsPatricia pt q v nil (node k' q' v' l' r') fs wf one =
    IsPatricia-rebuild fs (node plain q v nil (node k' q' v' l' r')) (node k' q' v' l' r') wf
      (IsPatricia-inner fs (node plain q v nil (node k' q' v' l' r')) wf).2 (λ P h. h.2) (λ h. refl)
remove_at-IsPatricia pt q v (node k' q' v' l' r') nil fs wf one =
    IsPatricia-rebuild fs (node plain q v (node k' q' v' l' r') nil) (node k' q' v' l' r') wf
      (IsPatricia-inner fs (node plain q v (node k' q' v' l' r') nil) wf).1 (λ P h. h.1) (λ h. refl)
remove_at-IsPatricia pt q v (node ka qa va la ra) (node kb qb vb lb rb) fs wf one = cc

some_of : Option (Option Place) → Place → Place
some_of (some (some at)) other = at
some_of _ other = other

removal-IsPatricia :
    (pt : Trie) (p : NetAddr) (at : Place) (res : Removed)
    → IsPatricia pt.head
    → Outcome p pt.head []
    → locate pt.head p [] ≡ some (some at)
    → (is_nil at.left || is_nil at.right) ≡ true
    → patremoven pt p ≡ some res
    → IsPatricia res.trie.head
unfolding patremoven Keeps
removal-IsPatricia pt p at res wf (missing e m) here one run = absurd (cc)
removal-IsPatricia pt p at res wf (found q v l r fs e back m same) here one run =
    let is_at : at
        ≡ record { kind = plain; prefix = q; payload = v; left = l; right = r; way = fs } =
      unfold some_of in ap (λ o. some_of o at) (sym here ∙ e) in
    let one' : (is_nil l || is_nil r) ≡ true =
      ap (λ a. is_nil a.left || is_nil a.right) (sym is_at) ∙ one in
    let ran : remove_at pt
          (record { kind = plain; prefix = q; payload = v; left = l; right = r; way = fs })
        ≡ some res =
      sym (
        ap
          (λ o. elim o [
            | none ↦ none
            | some none ↦ some (removed pt pt.head pt.free none)
            | some (some a) ↦ remove_at pt a
          ])
          e)
      ∙ run in
    subst Keeps ran (remove_at-IsPatricia pt q v l r fs (subst IsPatricia (sym back) wf) one')

-- When the node that `patremoven` finds in a well-formed trie has a child at most, the trie that it
-- leaves is well-formed.
pub patremoven-IsPatricia :
    (pt : Trie) (p : NetAddr) (at : Place) (res : Removed)
    → IsPatricia pt.head
    → IsQuery p
    → locate pt.head p [] ≡ some (some at)
    → (is_nil at.left || is_nil at.right) ≡ true
    → patremoven pt p ≡ some res
    → IsPatricia res.trie.head
patremoven-IsPatricia pt p at res wf query here one run =
    removal-IsPatricia pt p at res wf (locate_lem p query pt.head [] wf tt) here one run
