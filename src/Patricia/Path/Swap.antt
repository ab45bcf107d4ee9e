-- ===== src/Patricia/Path/Swap.antt =====
-- A part of a trie that is replaced by one with less in it.
use isocore.Base.{ℕ, ◌≡◌, refl, ap, ◌∙◌, Bool, true, false, List, [], ◌∷◌, ◌++◌}
use isocore.NetAddr.{NetAddr}
use isocore.Patricia.{Tree, Kind, plain, glue, released, TrieNode, is_glue, is_nil}
use isocore.Patricia.Search.{entry}
use isocore.Patricia.Shape.{entries, Every, IsPatricia}
use isocore.Patricia.Path.{Frame, plug_side, plug, rebuild}

-- What holds of every node of `t` holds of every node of `t'`.
abbrev pub Covers : Tree → Tree → Type 1
Covers t t' = (P : Kind → NetAddr → Type 0) → Every P t → Every P t'

IsPatricia-child :
    (k : Kind) (q : NetAddr) (v : ℕ) (side : Bool) (other t : Tree)
    → IsPatricia (plug_side side k q v other t)
    → IsPatricia t
IsPatricia-child k q v false other t wf = wf.1
IsPatricia-child k q v true other t wf = wf.2

pub IsPatricia-inner : (fs : List Frame) (t : Tree) → IsPatricia (rebuild fs t) → IsPatricia t
IsPatricia-inner [] t wf = wf
IsPatricia-inner (f ∷ fs) t wf =
    IsPatricia-child f.kind f.prefix f.payload f.side f.other t (IsPatricia-inner fs (plug f t) wf)

pub Covers-plug :
    (k : Kind) (q : NetAddr) (v : ℕ) (side : Bool) (other t t' : Tree)
    → Covers t t'
    → Covers (plug_side side k q v other t) (plug_side side k q v other t')
Covers-plug k q v false other t t' c = λ P h. (h.0, c P h.1, h.2)
Covers-plug k q v true other t t' c = λ P h. (h.0, h.1, c P h.2)

pub IsPatricia-plug :
    (k : Kind) (q : NetAddr) (v : ℕ) (side : Bool) (other t t' : Tree)
    → IsPatricia (plug_side side k q v other t)
    → IsPatricia t'
    → Covers t t'
    → (is_glue k ≡ true → is_nil t ≡ false → is_nil t' ≡ false)
    → IsPatricia (plug_side side k q v other t')
IsPatricia-plug k q v false other t t' ((s, ok), wl, wr) wf c keep = (
  (
    s,
    record {
      in_tree = ok.in_tree;
      fits = ok.fits;
      address = ok.address;
      own = ok.own;
      left = c _ ok.left;
      right = ok.right;
      under_left = c _ ok.under_left;
      under_right = ok.under_right;
      branches = λ g. (keep g (ok.branches g).0, (ok.branches g).1);
    },
  ),
  wf,
  wr,
)
IsPatricia-plug k q v true other t t' ((s, ok), wl, wr) wf c keep = (
  (
    s,
    record {
      in_tree = ok.in_tree;
      fits = ok.fits;
      address = ok.address;
      own = ok.own;
      left = ok.left;
      right = c _ ok.right;
      under_left = ok.under_left;
      under_right = c _ ok.under_right;
      branches = λ g. ((ok.branches g).0, keep g (ok.branches g).1);
    },
  ),
  wl,
  wf,
)

pub plug_side-not_nil :
    (k : Kind) (q : NetAddr) (v : ℕ) (side : Bool) (other t : Tree)
    → is_nil (plug_side side k q v other t) ≡ false
plug_side-not_nil k q v false other t = refl
plug_side-not_nil k q v true other t = refl

-- Replacing the end of a way by a well-formed tree with less in it keeps the trie well-formed.
pub IsPatricia-rebuild :
    (fs : List Frame) (t t' : Tree)
    → IsPatricia (rebuild fs t)
    → IsPatricia t'
    → Covers t t'
    → (is_nil t ≡ false → is_nil t' ≡ false)
    → IsPatricia (rebuild fs t')
IsPatricia-rebuild [] t t' wf wf' c keep = wf'
IsPatricia-rebuild (f ∷ fs) t t' wf wf' c keep =
    IsPatricia-rebuild fs (plug f t) (plug f t') wf
      (IsPatricia-plug f.kind f.prefix f.payload f.side f.other t t'
        (IsPatricia-inner fs (plug f t) wf) wf' c (λ g h. keep h))
      (Covers-plug f.kind f.prefix f.payload f.side f.other t t' c)
      (λ h. plug_side-not_nil f.kind f.prefix f.payload f.side f.other t')

-- What a frame holds around the entries of its child.
abbrev pub own_entry : Kind → NetAddr → ℕ → List TrieNode
own_entry plain q v = entry q v ∷ []
own_entry _ q v = []

abbrev pub beside : Bool → Tree → List TrieNode → List TrieNode
beside false other xs = xs ++ entries other
beside true other xs = entries other ++ xs

abbrev pub around : List Frame → List TrieNode → List TrieNode
around [] xs = xs
around (f ∷ fs) xs = around fs (own_entry f.kind f.prefix f.payload ++ beside f.side f.other xs)

pub entries-plug :
    (k : Kind) (q : NetAddr) (v : ℕ) (side : Bool) (other t : Tree)
    → entries (plug_side side k q v other t) ≡ own_entry k q v ++ beside side other (entries t)
entries-plug plain q v false other t = refl
entries-plug plain q v true other t = refl
entries-plug glue q v false other t = refl
entries-plug glue q v true other t = refl
entries-plug released q v false other t = refl
entries-plug released q v true other t = refl

pub entries-rebuild : (fs : List Frame) (t : Tree) → entries (rebuild fs t) ≡ around fs (entries t)
entries-rebuild [] t = refl
entries-rebuild (f ∷ fs) t =
    entries-rebuild fs (plug f t)
    ∙ ap (around fs) (entries-plug f.kind f.prefix f.payload f.side f.other t)
