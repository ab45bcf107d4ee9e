-- ===== src/Bgp/AsPaths/Count.antt =====
-- Counting the ASes of a path, and what `merge_paths`, a part of `startrealaspath_r`, makes of the two
-- counts (src/bgp.c).
use isocore.Base.{
  ℕ, zero, suc, ◌+◌, ◌-◌, ◌*◌, ◌%◌, ◌^◌, ◌≤◌, ◌<◌, ◌≡◌, refl, ap, ◌∙◌, arith, true, false, ltb,
  ◌==◌, lt→ltb, List, none, some, get_elem?, if◌then◌else◌, Bool-cases, inl, inr,
}
use isocore.Bgp.{Msg, enoerr, bind_option, step, access-some, if_false, return, modify, ◌>>◌}
use isocore.Bgp.AsPaths.{as_segment_set, count_ases, getaspath, merge_paths}

-- The segments between two offsets of a buffer, and the number of their ASes, a set counted as one.
pub data Segments (as_size : ℕ) (buf : List ℕ) : ℕ → ℕ → ℕ → Type 0 where
  no_segment : {end : ℕ} → Segments as_size buf end end 0
  segment :
      {ptr end count type n : ℕ}
      → get_elem? buf ptr ≡ some type
      → get_elem? buf (ptr + 1) ≡ some n
      → Segments as_size buf (ptr + 2 + n * as_size) end count
      → Segments as_size buf ptr end ((if type == as_segment_set then 1 else n) + count)

Segments-le :
    (as_size : ℕ) (buf : List ℕ) (ptr end count : ℕ)
    → Segments as_size buf ptr end count
    → ptr ≤ end
Segments-le as_size buf ptr end count no_segment = omega arith
Segments-le as_size buf ptr end count (segment {n} t l more) =
    let below = Segments-le as_size buf _ end _ more in omega (arith, below)

count_ases-step :
    (fuel as_size ptr end count type n : ℕ) (buf : List ℕ)
    → ptr < end
    → get_elem? buf ptr ≡ some type
    → get_elem? buf (ptr + 1) ≡ some n
    → count_ases (suc fuel) as_size ptr end count buf
      ≡ count_ases fuel as_size
          (ptr + 2 + n * as_size)
          end
          (count + (if type == as_segment_set then 1 else n))
          buf
unfolding count_ases
count_ases-step fuel as_size ptr end count type n buf lt t l =
    ap
      (λ b. elim b [
        | false ↦ some (ptr, count)
        | true ↦ elim (get_elem? buf ptr) [
          | none ↦ none
          | some x ↦ elim (get_elem? buf (ptr + 1)) [
            | none ↦ none
            | some y ↦
                count_ases fuel as_size (ptr + 2 + y * as_size) end
                  (count + (if x == as_segment_set then 1 else y)) buf
          ]
        ]
      ])
      (lt→ltb ptr end lt)
    ∙ ap
        (λ o. elim o [
          | none ↦ none
          | some x ↦ elim (get_elem? buf (ptr + 1)) [
            | none ↦ none
            | some y ↦
                count_ases fuel as_size (ptr + 2 + y * as_size) end
                  (count + (if x == as_segment_set then 1 else y)) buf
          ]
        ])
        t
    ∙ ap
        (λ o. elim o [
          | none ↦ none
          | some y ↦
              count_ases fuel as_size (ptr + 2 + y * as_size) end
                (count + (if type == as_segment_set then 1 else y)) buf
        ])
        l

count_ases-end :
    (fuel as_size end count : ℕ) (buf : List ℕ)
    → count_ases (suc fuel) as_size end end count buf ≡ some (end, count)
unfolding count_ases
count_ases-end fuel as_size end count buf =
    let here : ltb end end ≡ false = ground arith in
    ap
      (λ b. elim b [
        | false ↦ some (end, count)
        | true ↦ elim (get_elem? buf end) [
          | none ↦ none
          | some x ↦ elim (get_elem? buf (end + 1)) [
            | none ↦ none
            | some y ↦
                count_ases fuel as_size (end + 2 + y * as_size) end
                  (count + (if x == as_segment_set then 1 else y)) buf
          ]
        ]
      ])
      here

-- On whole segments, the loop ends where they end, with their number of ASes.
pub count_ases_lem :
    (fuel as_size : ℕ) (buf : List ℕ) (ptr end acc count : ℕ)
    → Segments as_size buf ptr end count
    → end < ptr + fuel
    → count_ases fuel as_size ptr end acc buf ≡ some (end, acc + count)
count_ases_lem zero as_size buf ptr end acc count h lt =
    let le = Segments-le as_size buf ptr end count h in absurd (omega (arith, le, lt))
count_ases_lem (suc fuel) as_size buf ptr end acc count no_segment lt =
    count_ases-end fuel as_size end acc buf ∙ ap (λ c. some (end, c)) (omega arith)
count_ases_lem (suc fuel) as_size buf ptr end acc count
      (segment {count = rest} {type = type} {n = n} t l more) lt =
    let below = Segments-le as_size buf _ end _ more in
    let add : acc + (if type == as_segment_set then 1 else n) + rest
        ≡ acc + ((if type == as_segment_set then 1 else n) + rest) =
      omega arith in
    count_ases-step fuel as_size ptr end acc type n buf (omega (arith, below)) t l
    ∙ count_ases_lem fuel as_size buf (ptr + 2 + n * as_size) end
        (acc + (if type == as_segment_set then 1 else n)) rest more (omega (arith, lt))
    ∙ ap (λ c. some (end, c)) add

-- What `startrealaspath_r` sets for the two counts.
abbrev pub merged : Msg → ℕ → ℕ → ℕ → ℕ → Msg
merged m ptr4 end4 ascount as4count = if ltb ascount as4count then m else record m {
  path = record m.path { as4ptr = ptr4; as4end = end4; ascount = (ascount - as4count) % 2 ^ 16 };
  flags = record m.flags { realaspath = true };
}

count_all :
    (fuel as_size : ℕ) (buf : List ℕ) (ptr end count : ℕ)
    → Segments as_size buf ptr end count
    → end < ptr + fuel
    → count_ases fuel as_size ptr end 0 buf ≡ some (end, count)
count_all fuel as_size buf ptr end count h lt =
    let zero_add : 0 + count ≡ count = omega arith in
    count_ases_lem fuel as_size buf ptr end 0 count h lt ∙ ap (λ c. some (end, c)) zero_add

-- The last test of `merge_paths`.
turn :
    (m : Msg) (ptr4 end4 ascount as4count : ℕ)
    → (if ltb ascount as4count then return enoerr else (do
      modify (λ x. record x {
        path = record x.path {
          as4ptr = ptr4;
          as4end = end4;
          ascount = (ascount - as4count) % 2 ^ 16;
        };
        flags = record x.flags { realaspath = true };
      })
      return enoerr))
        m
      ≡ some (enoerr, merged m ptr4 end4 ascount as4count)
unfolding bind_option
turn m ptr4 end4 ascount as4count = elim (Bool-cases (ltb ascount as4count)) [
  | inl fewer ↦ rw fewer refl
  | inr enough ↦ rw enough refl
]

-- When the AS_PATH of the iteration is whole segments, and the attribute is an AS4_PATH or an AS_PATH of whole
-- segments, `merge_paths` reports no error and leaves the message as `merged` with the two counts.
pub merge_paths_lem :
    (m : Msg) (as4p ptr4 len ascount as4count : ℕ)
    → getaspath as4p m ≡ some ((ptr4, len), m)
    → Segments 2 m.buf m.path.asptr m.path.asend ascount
    → Segments 4 m.buf ptr4 (ptr4 + len) as4count
    → merge_paths as4p m ≡ some (enoerr, merged m ptr4 (ptr4 + len) ascount as4count)
unfolding merge_paths
merge_paths_lem m as4p ptr4 len ascount as4count at old new =
    let le = Segments-le 2 m.buf m.path.asptr m.path.asend ascount old in
    step _ refl (
      step _ refl (
        step _
          (access-some
            (λ x. count_ases (m.path.asend - m.path.asptr + 1) 2 m.path.asptr m.path.asend 0 x.buf)
            m
            (count_all (m.path.asend - m.path.asptr + 1) 2 m.buf m.path.asptr m.path.asend ascount
              old (omega (arith, le))))
          (if_false (ltb m.path.asend m.path.asend) _ _ m (ground arith) (
            step _ at (
              step _
                (access-some (λ x. count_ases (len + 1) 4 ptr4 (ptr4 + len) 0 x.buf) m
                  (count_all (len + 1) 4 m.buf ptr4 (ptr4 + len) as4count new (omega arith)))
                (if_false (ltb (ptr4 + len) (ptr4 + len)) _ _ m (ground arith)
                  (turn m ptr4 (ptr4 + len) ascount as4count)))))))
