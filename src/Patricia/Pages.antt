-- ===== src/Patricia/Pages.antt =====
-- The pages and the free list of a trie (src/patriciatrie.c).
use isocore.Base.{ℕ, zero, suc, ◌+◌, Bool, false, if◌then◌else◌, List, [], ◌∷◌, ◌++◌, replicate}
use isocore.NetAddr.{Family, inet6, family_eq}
use isocore.Patricia.{nil, Trie}

-- `patinit`
unfoldable pub patinit : Family → Trie
patinit family = record {
  head = nil;
  maxbitlen = if family_eq family inet6 then 128 else 32;
  nprefs = 0;
  pages = 0;
  free = [];
}

-- `patclear`: the nodes of the pages are free again, and none of them hangs in the tree.
unfoldable pub free_pages : ℕ → List Bool → List Bool
free_pages zero free = free
free_pages (suc n) free = free_pages n (replicate 128 false ++ free)

unfoldable pub patclear : Trie → Trie
patclear pt = record {
  head = nil;
  maxbitlen = pt.maxbitlen;
  nprefs = 0;
  pages = pt.pages;
  free = free_pages pt.pages [];
}

-- `patallocpage`; `memory` says whether `malloc` succeeds.
unfoldable pub patallocpage : Bool → Trie → Trie
patallocpage memory pt =
    if memory
    then record {
      head = pt.head;
      maxbitlen = pt.maxbitlen;
      nprefs = pt.nprefs;
      pages = pt.pages + 1;
      free = replicate 128 false ++ pt.free;
    }
    else pt

-- `putfreenode`, of a node that still hangs in the tree or not.
unfoldable pub putfreenode : Bool → List Bool → List Bool
putfreenode hangs free = hangs ∷ free

-- What `getfreenode` does: it takes a node, returns NULL, or takes a node that hangs in the tree, whose
-- fields the caller then overwrites.
pub data Taken : Type 0 where
  taken : Trie → Taken
  no_node : Taken
  in_use : Taken

unfoldable pub take_node : Trie → Taken
take_node pt = elim pt.free [
  | [] ↦ no_node
  | hangs ∷ rest ↦
      if hangs
      then in_use
      else taken (record {
        head = pt.head;
        maxbitlen = pt.maxbitlen;
        nprefs = pt.nprefs;
        pages = pt.pages;
        free = rest;
      })
]

-- `getfreenode`
unfoldable pub getfreenode : Bool → Trie → Taken
getfreenode memory pt = elim pt.free [
  | [] ↦ take_node (patallocpage memory pt)
  | hangs ∷ rest ↦ take_node pt
]
