-- ===== src/Patricia/Remove/After.antt =====
-- Searching a trie after a removal.
use isocore.Base.{[], ◌≡◌, sym, ap, ◌∙◌, ◌||◌, true, some}
use mathlib.Core.Option.{some-injective}
use isocore.NetAddr.{NetAddr}
use isocore.Patricia.{Trie, is_nil}
use isocore.Patricia.Search.{patsearchexactn}
use isocore.Patricia.Shape.{entries, IsPatricia, find_prefix}
use isocore.Patricia.Lookup.{IsQuery, patsearchexactn_lem}
use isocore.Patricia.Remove.{Place, Removed, locate, patremoven}
use isocore.Patricia.Remove.Locate.{erase}
use isocore.Patricia.Remove.Gap.{patremoven_lem}
use isocore.Patricia.Remove.Valid.{patremoven-IsPatricia}

-- After `patremoven` took a node with a child at most out of a well-formed trie, `patsearchexactn` finds, for
-- every well-formed prefix, what a search through the list of the nodes without that one finds.
pub patsearchexactn-patremoven :
    (pt : Trie) (p s : NetAddr) (at : Place) (res : Removed)
    → IsPatricia pt.head
    → IsQuery p
    → IsQuery s
    → locate pt.head p [] ≡ some (some at)
    → (is_nil at.left || is_nil at.right) ≡ true
    → patremoven pt p ≡ some res
    → patsearchexactn res.trie s ≡ some (find_prefix s (erase p (entries pt.head)))
patsearchexactn-patremoven pt p s at res wf query sought here one run =
    let left = patremoven_lem pt p wf query in
    let same : left.result ≡ res = some-injective left.result res (sym left.returned ∙ run) in
    patsearchexactn_lem res.trie s (patremoven-IsPatricia pt p at res wf query here one run) sought
    ∙ ap (λ es. some (find_prefix s es)) (ap (λ r. entries r.trie.head) (sym same) ∙ left.holds)
