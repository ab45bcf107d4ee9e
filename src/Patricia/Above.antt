-- ===== src/Patricia/Above.antt =====
-- The prefixes of a trie that lie above a given one.
pub mod Supernets
pub mod Best
pub mod Subnet
use isocore.Base.{
  ℕ, zero, suc, ◌+◌, ◌≤◌, ◌<◌, ◌≡◌, ◌≢◌, refl, sym, ap, ap₂, ◌∙◌, arith, Bool, true, false, ◌&&◌,
  List, [], ◌∷◌, ◌++◌, take, append-nil, if◌then◌else◌, Bool-cases, inl, inr,
}
use isocore.NetAddr.{NetAddr, patcompwithmask}
use isocore.NetAddr.Bits.{bits}
use isocore.NetAddr.Compare.{IsAddr, patcompwithmask_lem}
use isocore.Patricia.{Tree, nil, node, Kind, plain, glue, released, TrieNode, is_glue, bit_of}
use isocore.Patricia.Search.{entry}
use isocore.Patricia.BitOf.{bit_of-take}
use isocore.Patricia.Shape.{entries, Every, HangsBelow, StartsWith, NodeIsValid, IsPatricia}
use isocore.Patricia.Lookup.{IsQuery}

-- The nodes of a list whose prefix passes a test.
abbrev pub filter_by : (NetAddr → Bool) → List TrieNode → List TrieNode
filter_by c [] = []
filter_by c (e ∷ es) = if c e.prefix then e ∷ filter_by c es else filter_by c es

filter_by-append :
    (c : NetAddr → Bool) (xs ys : List TrieNode)
    → filter_by c (xs ++ ys) ≡ filter_by c xs ++ filter_by c ys
filter_by-append c [] ys = refl
filter_by-append c (x ∷ xs) ys = ground (arith, filter_by-append c xs ys)

pub Every-map :
    (P Q : Kind → NetAddr → Type 0)
    → ((k : Kind) (q : NetAddr) → P k q → Q k q)
    → (t : Tree) → Every P t
    → Every Q t
Every-map P Q f nil h = tt
Every-map P Q f (node k q v l r) h = (f k q h.0, Every-map P Q f l h.1, Every-map P Q f r h.2)

pub Every-both :
    (P Q : Kind → NetAddr → Type 0) (t : Tree)
    → Every P t
    → Every Q t
    → Every (λ k q. P k q × Q k q) t
Every-both P Q nil h g = tt
Every-both P Q (node k q v l r) h g =
    ((h.0, g.0), Every-both P Q l h.1 g.1, Every-both P Q r h.2 g.2)

-- A node that may hold a prefix.
abbrev pub Sound : Kind → NetAddr → Type 0
Sound k q = (q.bitlen ≤ 128) × (is_glue k ≡ false → IsAddr q)

pub IsPatricia-Sound : (t : Tree) → IsPatricia t → Every Sound t
IsPatricia-Sound nil wf = tt
IsPatricia-Sound (node k q v l r) ((s, ok), wl, wr) =
    ((ok.fits, ok.address), IsPatricia-Sound l wl, IsPatricia-Sound r wr)

-- A test that is passed by supernets of `p` only, one of which may be `p`.
pub record IsAbove (p : NetAddr) (c : NetAddr → Bool) : Type 0 where
  pub shorter : (q : NetAddr) → c q ≡ true → q.bitlen ≤ p.bitlen
  pub agree : (q : NetAddr) → c q ≡ true → patcompwithmask q p q.bitlen ≡ true

pub take-take_le :
    (n m : ℕ) (xs ys : List ℕ) → n ≤ m → take m xs ≡ take m ys → take n xs ≡ take n ys
take-take_le n m xs ys le e = sym (both n m xs le) ∙ ap (take n) e ∙ both n m ys le
  where
    both : (n m : ℕ) (xs : List ℕ) → n ≤ m → take n (take m xs) ≡ take n xs
    both zero m xs le = refl
    both (suc n) zero xs le = absurd (omega (arith, le))
    both (suc n) (suc m) [] le = refl
    both (suc n) (suc m) (x ∷ xs) le = ap (λ ys. x ∷ ys) (both n m xs (omega (arith, le)))

module _ (p : NetAddr) (query : IsQuery p) (c : NetAddr → Bool) (above : IsAbove p c) where
  -- No node of the tree passes the test.
  filter_by-none :
      (t : Tree) → Every (λ k q. is_glue k ≡ false → c q ≡ false) t → filter_by c (entries t) ≡ []
  filter_by-none nil h = refl
  filter_by-none (node plain q v l r) h = rw (h.0 refl) (
      filter_by-append c (entries l) (entries r)
      ∙ ap₂ (λ xs ys. xs ++ ys) (filter_by-none l h.1) (filter_by-none r h.2))
  filter_by-none (node glue q v l r) h =
      filter_by-append c (entries l) (entries r)
      ∙ ap₂ (λ xs ys. xs ++ ys) (filter_by-none l h.1) (filter_by-none r h.2)
  filter_by-none (node released q v l r) h =
      filter_by-append c (entries l) (entries r)
      ∙ ap₂ (λ xs ys. xs ++ ys) (filter_by-none l h.1) (filter_by-none r h.2)

  -- A test that cannot be passed.
  refuted : (q : NetAddr) → c q ≢ true → c q ≡ false
  refuted q h = elim (Bool-cases (c q)) [ inl e ↦ absurd (h e) | inr e ↦ e ]

  bits_agree :
      (q : NetAddr)
      → IsAddr q
      → c q ≡ true
      → take q.bitlen (bits q.bytes) ≡ take q.bitlen (bits p.bytes)
  bits_agree q hq e =
      (patcompwithmask_lem q p q.bitlen hq query.address
          (omega (arith, above.shorter q e, query.fits))).0
        (above.agree q e)

  -- On the other side of a node.
  filter_by-other_side :
      (t : Tree) (n : ℕ) (b : Bool)
      → IsPatricia t
      → Every (HangsBelow n b) t
      → bit_of p n ≢ b
      → filter_by c (entries t) ≡ []
  filter_by-other_side t n b wf below other = filter_by-none t (
      Every-map (λ k q. HangsBelow n b k q × Sound k q) (λ k q. is_glue k ≡ false → c q ≡ false)
        (λ k q h g. refuted q (λ e. other (
          sym (
            bit_of-take q p n q.bitlen (h.1.1 g) query.address h.0.0 h.1.0
              (bits_agree q (h.1.1 g) e))
          ∙ h.0.1 g)))
        t (Every-both (HangsBelow n b) Sound t below (IsPatricia-Sound t wf)))

  -- Below a node that is as long as the prefix, or longer.
  filter_by-longer :
      (t : Tree) (n : ℕ) (b : Bool)
      → Every (HangsBelow n b) t
      → p.bitlen ≤ n
      → filter_by c (entries t) ≡ []
  filter_by-longer t n b below le = filter_by-none t (
      Every-map (HangsBelow n b) (λ k q. is_glue k ≡ false → c q ≡ false)
        (λ k q h g. refuted q (λ e. omega (arith, above.shorter q e, h.0, le))) t below)

  -- Below a node that is no supernet.
  filter_by-under :
      (t : Tree) (q : NetAddr) (s : List ℕ) (b : Bool)
      → IsPatricia t
      → IsAddr q
      → q.bitlen ≤ p.bitlen
      → take q.bitlen (bits q.bytes) ≡ s
      → Every (HangsBelow q.bitlen b) t
      → Every (StartsWith q.bitlen s) t
      → patcompwithmask q p q.bitlen ≡ false
      → filter_by c (entries t) ≡ []
  filter_by-under t q s b wf hq le own below starts differs = filter_by-none t (
      Every-map (λ k x. (HangsBelow q.bitlen b k x × StartsWith q.bitlen s k x) × Sound k x)
        (λ k x. is_glue k ≡ false → c x ≡ false)
        (λ k x h g. refuted x (λ e. contradiction (
          (patcompwithmask_lem q p q.bitlen hq query.address (omega (arith, le, query.fits))).1 (
            own
            ∙ sym (h.0.1 g)
            ∙ take-take_le q.bitlen x.bitlen (bits x.bytes) (bits p.bytes) (omega (arith, h.0.0.0))
                (bits_agree x (h.1.1 g) e)))))
        t
        (Every-both (λ k x. HangsBelow q.bitlen b k x × StartsWith q.bitlen s k x) Sound t
          (Every-both (HangsBelow q.bitlen b) (StartsWith q.bitlen s) t below starts)
          (IsPatricia-Sound t wf)))
    where
      contradiction : patcompwithmask q p q.bitlen ≡ true → ⊥
      contradiction e = cc

  -- The side of the prefix holds all that passes.
  pub one_side :
      (s : List ℕ) (k : Kind) (q : NetAddr) (l r : Tree) (b : Bool)
      → NodeIsValid s k q l r
      → IsPatricia l
      → IsPatricia r
      → bit_of p q.bitlen ≡ b
      → filter_by c (entries l ++ entries r)
        ≡ (if b then filter_by c (entries r) else filter_by c (entries l))
  one_side s k q l r true ok wl wr side =
      filter_by-append c (entries l) (entries r)
      ∙ ap (λ xs. xs ++ filter_by c (entries r))
          (filter_by-other_side l q.bitlen false wl ok.left (λ e. cc))
  one_side s k q l r false ok wl wr side =
      filter_by-append c (entries l) (entries r)
      ∙ ap (λ xs. filter_by c (entries l) ++ xs)
          (filter_by-other_side r q.bitlen true wr ok.right (λ e. cc))
      ∙ append-nil (filter_by c (entries l))

  -- Nothing below a node passes that is not longer than it.
  pub nothing_below :
      (s : List ℕ) (k : Kind) (q : NetAddr) (l r : Tree)
      → NodeIsValid s k q l r
      → p.bitlen ≤ q.bitlen
      → filter_by c (entries l ++ entries r) ≡ []
  nothing_below s k q l r ok le =
      filter_by-append c (entries l) (entries r)
      ∙ ap₂ (λ xs ys. xs ++ ys) (filter_by-longer l q.bitlen false ok.left le)
          (filter_by-longer r q.bitlen true ok.right le)

  pub nothing_under :
      (s : List ℕ) (q : NetAddr) (l r : Tree)
      → NodeIsValid s plain q l r
      → IsPatricia l
      → IsPatricia r
      → q.bitlen ≤ p.bitlen
      → patcompwithmask q p q.bitlen ≡ false
      → filter_by c (entries l ++ entries r) ≡ []
  nothing_under s q l r ok wl wr le comp =
      filter_by-append c (entries l) (entries r)
      ∙ ap₂ (λ xs ys. xs ++ ys)
          (filter_by-under l q s false wl (ok.address refl) le (ok.own refl) ok.left ok.under_left
            comp)
          (filter_by-under r q s true wr (ok.address refl) le (ok.own refl) ok.right ok.under_right
            comp)

  pub filter_by-counted :
      (q : NetAddr) (v : ℕ) (xs : List TrieNode)
      → c q ≡ true
      → filter_by c (entry q v ∷ xs) ≡ entry q v ∷ filter_by c xs
  filter_by-counted q v xs e = rw e refl

  pub filter_by-passed :
      (q : NetAddr) (v : ℕ) (xs : List TrieNode)
      → c q ≡ false
      → filter_by c (entry q v ∷ xs) ≡ filter_by c xs
  filter_by-passed q v xs e = rw e refl
