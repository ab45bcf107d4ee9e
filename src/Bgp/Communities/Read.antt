-- ===== src/Bgp/Communities/Read.antt =====
-- `nextcommunity_r` returns the communities that an attribute holds.
use isocore.Base.{
  ℕ, zero, suc, ◌+◌, ◌-◌, ◌%◌, ◌^◌, ◌≤◌, ◌<◌, ◌≡◌, refl, sym, ap, ◌∙◌, arith, true, false, ltb,
  ◌==◌, if◌then◌else◌, List, [], ◌∷◌, ◌++◌, Option, none, some, length, drop, length-take,
  length-drop,
}
use isocore.Base.Bytes.{read_bytes, from_big-big32, big32}
use isocore.Base.Window.{window_fits, read-window, window-advance}
use isocore.Bgp.{
  Msg, enoerr, M, ◌>>=◌, return, access, step, bind_option, check_flags_ok, if_true, if_false,
  access-some,
}
use isocore.Bgp.Communities.{
  Community, comm, excomm, lcomm, take_community, nextcommunity_r, decode_comm, decode_lcomm,
  community_code, extended_community_code, large_community_code,
}
use isocore.Bgp.Inverse.Read.{Inside, remaining}

-- The wire form of a community.
abbrev pub encode_community : Community → List ℕ
encode_community (comm v) = big32 v
encode_community (excomm bs) = bs
encode_community (lcomm a b c) = big32 a ++ (big32 b ++ big32 c)

-- A community of the kind of an attribute, with numbers that fit.
abbrev pub IsOfKind : ℕ → Community → Type 0
IsOfKind code (comm v) = (code ≡ community_code) × (v < 4294967296)
IsOfKind code (excomm bs) = (code ≡ extended_community_code) × (length bs ≡ 8)
IsOfKind code (lcomm a b c) =
    (code ≡ large_community_code) × (a < 4294967296) × (b < 4294967296) × (c < 4294967296)

-- The communities of an attribute are being read.
pub record Iterating (code : ℕ) (m : Msg) : Type 0 where
  pub inside : Inside m
  pub small : m.uend < 2 ^ 64
  pub community : m.flags.community ≡ true
  pub kind : m.ccode ≡ code
  pub ok : m.err ≡ enoerr

module _ (m : Msg) (code : ℕ) (h : Iterating code m) (bs rest : List ℕ)
    (front : remaining m ≡ bs ++ rest) where
  abbrev after : Msg
  after = record m { uptr = m.uptr + length bs }

  fits : m.uptr + length bs ≤ m.uend
  fits = window_fits m.buf m.uptr m.uend bs rest h.inside.in_buf h.inside.order front

  after-Iterating : Iterating code after
  after-Iterating = record {
    inside = record { here = h.inside.here; order = fits; in_buf = h.inside.in_buf };
    small = h.small;
    community = h.community;
    kind = h.kind;
    ok = h.ok;
  }

  left : remaining after ≡ rest
  left = window-advance m.buf m.uptr m.uend bs rest h.inside.in_buf h.inside.order front

  take_community_lem :
      (decode : List ℕ → Community)
      → take_community (length bs) decode m ≡ some (some (decode bs), after)
  unfolding take_community bind_option
  take_community_lem decode =
      if_false (ltb ((m.uend + 2 ^ 64 - m.uptr) % 2 ^ 64) (length bs)) _ _ m
        (ground (arith, fits, h.small))
        (step _
          (access-some (λ m'. read_bytes m'.buf m.uptr (length bs)) m
            (read-window m.buf m.uptr m.uend bs rest h.inside.in_buf h.inside.order front))
          refl)

  chosen :
      {r : Option (Option Community × Msg)}
      → 0 < length bs
      → (if m.ccode == community_code
            then take_community 4 decode_comm
            else (if m.ccode == extended_community_code
                then take_community 8 excomm
                else (if m.ccode == large_community_code
                    then take_community 12 decode_lcomm
                    else access (λ _. none))))
          m
        ≡ r
      → nextcommunity_r m ≡ r
  unfolding nextcommunity_r bind_option
  chosen some_bytes e =
      check_flags_ok _ _ _ m h.community h.ok
        (if_false (m.uptr == m.uend) _ _ m (ground (arith, fits)) e)

is : (a b : ℕ) → a ≡ b → (a == b) ≡ true
is a b e = ground arith

is_not : (a b c : ℕ) → a ≡ b → (b == c) ≡ false → (a == c) ≡ false
is_not a b c e n = rw e n

same_lcomm : {a a' b b' c c' : ℕ} → a ≡ a' → b ≡ b' → c ≡ c' → lcomm a b c ≡ lcomm a' b' c'
same_lcomm e f g = cc

nextcommunity_r_more :
    (c : Community) (code : ℕ) (m : Msg) (rest : List ℕ)
    → Iterating code m
    → IsOfKind code c
    → remaining m ≡ encode_community c ++ rest
    → (m' : Msg) × (nextcommunity_r m ≡ some (some c, m'))
      × Iterating code m'
      × (remaining m' ≡ rest)
nextcommunity_r_more (comm v) code m rest h (k, lt) front =
    let bs = big32 v in
    (
      after m code h bs rest front,
      chosen m code h bs rest front (omega arith) (
            if_true (m.ccode == 8) _ _ m (is _ _ (h.kind ∙ k))
              (take_community_lem m code h bs rest front decode_comm))
          ∙ ap (λ n. some (some (comm n), after m code h bs rest front)) (from_big-big32 v lt),
      after-Iterating m code h bs rest front,
      left m code h bs rest front,
    )
nextcommunity_r_more (excomm bs) code m rest h (k, eight) front = (
  after m code h bs rest front,
  chosen m code h bs rest front (omega arith) (
      if_false (m.ccode == 8) _ _ m (is_not _ _ _ (h.kind ∙ k) refl) (
        if_true (m.ccode == 16) _ _ m (is _ _ (h.kind ∙ k)) (
          ap (λ k. take_community k excomm m) (sym eight)
          ∙ take_community_lem m code h bs rest front excomm))),
  after-Iterating m code h bs rest front,
  left m code h bs rest front,
)
nextcommunity_r_more (lcomm a b c) code m rest h (k, la, lb, lc) front =
    let bs = big32 a ++ (big32 b ++ big32 c) in
    (
      after m code h bs rest front,
      chosen m code h bs rest front (omega arith) (
            if_false (m.ccode == 8) _ _ m (is_not _ _ _ (h.kind ∙ k) refl) (
              if_false (m.ccode == 16) _ _ m (is_not _ _ _ (h.kind ∙ k) refl) (
                if_true (m.ccode == 32) _ _ m (is _ _ (h.kind ∙ k))
                  (take_community_lem m code h bs rest front decode_lcomm))))
          ∙ ap (λ x. some (some x, after m code h bs rest front))
              (same_lcomm (from_big-big32 a la) (from_big-big32 b lb) (from_big-big32 c lc)),
      after-Iterating m code h bs rest front,
      left m code h bs rest front,
    )

nextcommunity_r_end :
    (code : ℕ) (m : Msg) → Iterating code m → remaining m ≡ [] → nextcommunity_r m ≡ some (none, m)
unfolding nextcommunity_r bind_option
nextcommunity_r_end code m h e =
    check_flags_ok _ _ _ m h.community h.ok (if_true (m.uptr == m.uend) _ _ m at_end refl)
  where
    at_end : (m.uptr == m.uend) ≡ true
    at_end = ground (
      arith,
      ap length e,
      length-take (m.uend - m.uptr) (drop m.uptr m.buf),
      length-drop m.uptr m.buf,
      h.inside.order,
      h.inside.in_buf,
    )

-- `nextcommunity_r` until it returns NULL, `n` calls at most.
abbrev pub next_communities : ℕ → M (List Community)
next_communities zero = access (λ _. none)
next_communities (suc n) = do
  c ← nextcommunity_r
  elim c [ none ↦ return [] | some c ↦ do cs ← next_communities n; return (c ∷ cs) ]

abbrev pub encode_communities : List Community → List ℕ
encode_communities [] = []
encode_communities (c ∷ cs) = encode_community c ++ encode_communities cs

abbrev pub AllOfKind : ℕ → List Community → Type 0
AllOfKind code [] = Unit
AllOfKind code (c ∷ cs) = IsOfKind code c × AllOfKind code cs

-- On a message without an error whose communities are being iterated, where the iterator stands
-- before the encodings of communities of the attribute's kind, in a packet of less than 2^64 bytes,
-- `nextcommunity_r` returns those communities in order, and then NULL.
pub next_communities_lem :
    (code : ℕ) (cs : List Community) (m : Msg)
    → AllOfKind code cs
    → Iterating code m
    → remaining m ≡ encode_communities cs
    → (m' : Msg) × (next_communities (suc (length cs)) m ≡ some (cs, m')) × (remaining m' ≡ [])
unfolding bind_option
next_communities_lem code [] m all h e = (m, step _ (nextcommunity_r_end code m h e) refl, e)
next_communities_lem code (c ∷ cs) m (k, all) h e =
    let (m1, e1, h1, left1) = nextcommunity_r_more c code m (encode_communities cs) h k e in
    let (m2, e2, left2) = next_communities_lem code cs m1 all h1 left1 in
    (m2, step _ e1 (step _ e2 refl), left2)
