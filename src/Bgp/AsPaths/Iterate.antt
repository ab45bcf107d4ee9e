-- ===== src/Bgp/AsPaths/Iterate.antt =====
-- What the iteration over an AS path returns (src/bgp.c).
use isocore.Base.{
  ℕ, zero, suc, ◌+◌, ◌-◌, ◌%◌, ◌^◌, ◌<◌, ◌≡◌, refl, sym, ap, ◌∙◌, arith, Bool, true, false, ◌==◌,
  List, [], ◌∷◌, none, some, length, if◌then◌else◌,
}
use mathlib.Core.Path.{subst}
use isocore.Base.Bytes.{read_bytes, from_big}
use isocore.Bgp.{if_true, Msg, AsPath, enoerr, M, step, access-some, if_false, check_flags_ok}
use isocore.Bgp.AsPaths.{
  commute, path_end, in_segment, next_segment, read_as, count_down, set_path, nextaspath_at,
  nextaspath_r,
}
use isocore.Bgp.AsPaths.Loop.{Ases, IsOnPath, Stops, next_segment_lem}

-- One call: it returns the entry of the next AS, and goes on after it; at the end it returns NULL.
record Gives (calls : ℕ) (m : Msg) (x : ℕ) (xs : List ℕ) : Type 0 where
  next : Msg
  left : ℕ
  returned : nextaspath_at (suc calls) m ≡ some (some next.path, next)
  number : next.path.as_number ≡ x
  path : IsOnPath next left xs

read_as_lem :
    (m : Msg) (bs : List ℕ)
    → read_bytes m.buf m.path.asptr m.path.as_size ≡ some bs
    → read_as m
      ≡ some (
        tt,
        set_path
            (λ a. record a {
              as_number = from_big bs 0;
              asptr = a.asptr + m.path.as_size;
              segi = (a.segi + 1) % 256;
            })
            m,
      )
unfolding read_as
read_as_lem m bs r = step _ refl (
    step _ refl (step _ (access-some (λ x. read_bytes x.buf m.path.asptr m.path.as_size) m r) refl))

abbrev read_to : Msg → List ℕ → Msg
read_to m bs =
    set_path
      (λ a. record a {
        as_number = from_big bs 0;
        asptr = a.asptr + m.path.as_size;
        segi = (a.segi + 1) % 256;
      })
      m

nextaspath-gives :
    (calls : ℕ) (m n : Msg) (bs : List ℕ)
    → m.flags.aspath ≡ true
    → m.err ≡ enoerr
    → next_segment (m.path.asend - m.path.asptr + 2) m ≡ some (in_segment, n)
    → read_bytes n.buf n.path.asptr n.path.as_size ≡ some bs
    → (n.path.ascount == 0) ≡ false
    → nextaspath_at (suc calls) m
      ≡ some (some (count_down (read_to n bs).path), set_path count_down (read_to n bs))
unfolding nextaspath_at
nextaspath-gives calls m n bs on good found read more =
    check_flags_ok (λ f. f.aspath) (λ e. none) _ m on good
      (step _ refl (
        step _ refl (
          step _ found (
            step _ (read_as_lem n bs read) (
              step _ refl
                (if_false (n.path.ascount == 0) _ _ (read_to n bs) more (step _ refl refl)))))))

nextaspath-ends :
    (m n : Msg)
    → m.flags.aspath ≡ true
    → m.err ≡ enoerr
    → next_segment (m.path.asend - m.path.asptr + 2) m ≡ some (path_end, n)
    → nextaspath_r m ≡ some (none, n)
unfolding nextaspath_r nextaspath_at
nextaspath-ends m n on good found =
    check_flags_ok (λ f. f.aspath) (λ e. none) _ m on good
      (step _ refl (step _ refl (step _ found refl)))

IsOnPath-Stops :
    (m : Msg) (left : ℕ) (xs : List ℕ)
    → IsOnPath m left xs
    → Stops (m.path.asend - m.path.asptr + 2) m xs
IsOnPath-Stops m left xs h =
    next_segment_lem (m.path.asend - m.path.asptr + 2) m m.path.as_size m.buf m.path.asptr
      m.path.asend left xs h.ases refl refl refl refl (omega arith) h.on h.good h.index h.byte

still_counts :
    (c n : ℕ) (b : Bool) → c < 2 ^ 16 → suc n < c → n < (c + 2 ^ 16 - (if b then 1 else 0)) % 2 ^ 16
still_counts c n true h lt = omega (arith, h, lt)
still_counts c n false h lt = omega (arith, h, lt)

nextaspath_at-Gives :
    (calls : ℕ) (m : Msg) (left x : ℕ) (xs : List ℕ) → IsOnPath m left (x ∷ xs) → Gives calls m x xs
nextaspath_at-Gives calls m left x xs h =
    let s = IsOnPath-Stops m left (x ∷ xs) h in
    record {
      next = set_path count_down (read_to s.next s.bytes);
      left = s.left;
      returned =
          nextaspath-gives calls m s.next s.bytes h.on h.good s.found s.read
            (ground (arith, s.kept.same_count, h.enough));
      number = s.value;
      path = record {
        on = s.on;
        good = s.good;
        index = omega (arith, s.index, s.byte);
        byte = s.byte;
        int16 = omega arith;
        enough =
            still_counts s.next.path.ascount (length xs) _
              (omega (arith, s.kept.same_count, h.int16))
              (omega (arith, s.kept.same_count, h.enough));
        ases = s.more;
      };
    }

nextaspath_r-nextaspath_at : (m : Msg) → nextaspath_r m ≡ nextaspath_at 2 m
unfolding nextaspath_r
nextaspath_r-nextaspath_at m = refl

-- The calls of `nextaspath_r` until it returns NULL, with the numbers of the entries.
unfoldable pub path_ases : ℕ → M (List ℕ)
path_ases zero m = none
path_ases (suc fuel) m = elim (nextaspath_r m) [
  | none ↦ none
  | some (entry, m') ↦ elim entry [
    | none ↦ some ([], m')
    | some a ↦ elim (path_ases fuel m') [
      | none ↦ none
      | some (as_numbers, m'') ↦ some (a.as_number ∷ as_numbers, m'')
    ]
  ]
]

path_ases-step :
    (fuel : ℕ) (m next last : Msg) (a : AsPath) (xs : List ℕ)
    → nextaspath_r m ≡ some (some a, next)
    → path_ases fuel next ≡ some (xs, last)
    → path_ases (suc fuel) m ≡ some (a.as_number ∷ xs, last)
unfolding path_ases
path_ases-step fuel m next last a xs e h = ground (arith, e, h)

path_ases-ends :
    (fuel : ℕ) (m last : Msg)
    → nextaspath_r m ≡ some (none, last)
    → path_ases (suc fuel) m ≡ some ([], last)
unfolding path_ases
path_ases-ends fuel m last e = ground (arith, e)

-- When whole segments are between the position of an iteration and its end, with `xs` their ASes, and
-- there is no turn to AS4_PATH before the last of them, the calls of `nextaspath_r` return the entries of
-- exactly these ASes, in their order, over the borders of the segments, and then NULL.
pub path_ases_lem :
    (fuel : ℕ) (m : Msg) (left : ℕ) (xs : List ℕ)
    → IsOnPath m left xs
    → length xs < fuel
    → (last : Msg) × (path_ases fuel m ≡ some (xs, last))
path_ases_lem zero m left xs h lt = absurd (omega (arith, lt))
path_ases_lem (suc fuel) m left [] h lt =
    let s = IsOnPath-Stops m left [] h in
    (s.next, path_ases-ends fuel m s.next (nextaspath-ends m s.next h.on h.good s.found))
path_ases_lem (suc fuel) m left (x ∷ xs) h lt =
    let g = nextaspath_at-Gives 1 m left x xs h in
    let (last, rest) = path_ases_lem fuel g.next g.left xs g.path (omega (arith, lt)) in
    (
      last,
      path_ases-step fuel m g.next last g.next.path xs (nextaspath_r-nextaspath_at m ∙ g.returned)
            rest
          ∙ ap (λ n. some (n ∷ xs, last)) g.number,
    )

Ases-placed :
    (buf buf' : List ℕ) (ptr ptr' end end' : ℕ) (xs : List ℕ)
    → buf' ≡ buf
    → ptr' ≡ ptr
    → end' ≡ end
    → Ases 4 buf ptr end 0 xs
    → Ases 4 buf' ptr' end' 0 xs
Ases-placed buf buf' ptr ptr' end end' xs eb ep ee h =
    subst (λ e. Ases 4 buf' ptr' e 0 xs) (sym ee)
      (subst (λ p. Ases 4 buf' p end 0 xs) (sym ep) (subst (λ b. Ases 4 b ptr end 0 xs) (sym eb) h))

nextaspath-turns :
    (calls : ℕ) (m n : Msg) (bs : List ℕ)
    → m.flags.aspath ≡ true
    → m.err ≡ enoerr
    → next_segment (m.path.asend - m.path.asptr + 2) m ≡ some (in_segment, n)
    → read_bytes n.buf n.path.asptr n.path.as_size ≡ some bs
    → (n.path.ascount == 0) ≡ true
    → nextaspath_at (suc calls) m ≡ nextaspath_at calls (commute (read_to n bs))
unfolding nextaspath_at
nextaspath-turns calls m n bs on good found read none_left =
    check_flags_ok (λ f. f.aspath) (λ e. none) _ m on good
      (step _ refl (
        step _ refl (
          step _ found (
            step _ (read_as_lem n bs read) (
              step _ refl
                (if_true (n.path.ascount == 0) _ _ (read_to n bs) none_left (step _ refl refl)))))))

-- When no AS of AS_PATH is left to be returned, but the iteration is before one, and AS4_PATH is made of whole
-- segments, the next call of `nextaspath_r` returns the entry of the first AS of AS4_PATH, and the calls
-- after it return those of the rest, and then NULL.
pub path_ases-turns :
    (fuel : ℕ) (m : Msg) (left x y : ℕ) (xs ys : List ℕ)
    → m.flags.aspath ≡ true
    → m.err ≡ enoerr
    → m.path.segi + left ≡ m.path.seglen
    → m.path.seglen < 256
    → m.path.ascount ≡ 0
    → Ases m.path.as_size m.buf m.path.asptr m.path.asend left (x ∷ xs)
    → Ases 4 m.buf m.path.as4ptr m.path.as4end 0 (y ∷ ys)
    → length ys + 1 < 65535
    → length ys + 1 < fuel
    → (last : Msg) × (path_ases fuel m ≡ some (y ∷ ys, last))
path_ases-turns zero m left x y xs ys on good index byte spent old new few lt =
    absurd (omega (arith, lt))
path_ases-turns (suc fuel) m left x y xs ys on good index byte spent old new few lt =
    let s =
      next_segment_lem (m.path.asend - m.path.asptr + 2) m m.path.as_size m.buf m.path.asptr
        m.path.asend left (x ∷ xs) old refl refl refl refl (omega arith) on good index byte in
    let after : IsOnPath (commute (read_to s.next s.bytes)) 0 (y ∷ ys) = record {
      on = s.on;
      good = s.good;
      index = refl;
      byte = omega arith;
      int16 = omega arith;
      enough = omega (arith, few);
      ases =
          Ases-placed m.buf s.next.buf m.path.as4ptr s.next.path.as4ptr m.path.as4end
            s.next.path.as4end (y ∷ ys) s.kept.same_buf s.kept.same_ptr4 s.kept.same_end4 new;
    } in
    let g = nextaspath_at-Gives 0 (commute (read_to s.next s.bytes)) 0 y ys after in
    let (last, rest) = path_ases_lem fuel g.next g.left ys g.path (omega (arith, lt)) in
    (
      last,
      path_ases-step fuel m g.next last g.next.path ys
            (nextaspath_r-nextaspath_at m
              ∙ nextaspath-turns 1 m s.next s.bytes on good s.found s.read
                  (ground (arith, s.kept.same_count, spent))
              ∙ g.returned)
            rest
          ∙ ap (λ n. some (n ∷ ys, last)) g.number,
    )
