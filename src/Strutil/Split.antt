-- ===== src/Strutil/Split.antt =====
-- What `splitstr` (src/strutil.c) returns of a string that was joined.
use isocore.Base.{
  ℕ, zero, suc, ◌+◌, ◌-◌, ◌^◌, ◌<◌, ◌≡◌, refl, sym, ap, ◌∙◌, arith, true, false, ◌&&◌, leb, ◌==◌,
  if◌then◌else◌, List, [], ◌∷◌, ◌++◌, append_assoc, Option, none, some, length, take, drop,
  length-append,
}
use isocore.Base.Bytes.{take-append_eq, drop-append_eq}
use isocore.Strutil.{
  starts_with, strstr, count_loop, substrcnt, split_loop, stored, splitstr, total, joinstr,
}
use isocore.Strutil.Join.{lacks, Fields, last, more, intercalate, joinstr_lem}

starts_with_self : (delim rest : List ℕ) → starts_with delim (delim ++ rest) ≡ true
starts_with_self [] rest = refl
starts_with_self (d ∷ ds) rest = ground (arith, starts_with_self ds rest)

module _ (d : ℕ) (ds : List ℕ) where
  abbrev delim : List ℕ
  delim = d ∷ ds

  lacks_head : (c : ℕ) (s : List ℕ) → lacks d (c ∷ s) ≡ true → (d == c) ≡ false
  lacks_head c s h = ground (arith, h)

  lacks_tail : (c : ℕ) (s : List ℕ) → lacks d (c ∷ s) ≡ true → lacks d s ≡ true
  lacks_tail c s h = ground (arith, h)

  no_occurrence : (s : List ℕ) → lacks d s ≡ true → strstr s delim ≡ none
  unfolding strstr
  no_occurrence [] h = refl
  no_occurrence (c ∷ s) h =
      ap
        (λ b.
          if b && starts_with ds s
          then some 0
          else elim (strstr s delim) [ none ↦ none | some k ↦ some (suc k) ])
        (lacks_head c s h)
      ∙ ap (λ o. elim o [ none ↦ none | some k ↦ some (suc k) ])
          (no_occurrence s (lacks_tail c s h))

  strstr_found :
      (s rest : List ℕ) → lacks d s ≡ true → strstr (s ++ (delim ++ rest)) delim ≡ some (length s)
  unfolding strstr
  strstr_found [] rest h =
      ap
        (λ b.
          if b
          then some 0
          else elim (strstr (ds ++ rest) delim) [ none ↦ none | some k ↦ some (suc k) ])
        (starts_with_self delim rest)
  strstr_found (c ∷ s) rest h =
      ap
        (λ b.
          if b && starts_with ds (s ++ (delim ++ rest))
          then some 0
          else elim (strstr (s ++ (delim ++ rest)) delim) [ none ↦ none | some k ↦ some (suc k) ])
        (lacks_head c s h)
      ∙ ap (λ o. elim o [ none ↦ none | some k ↦ some (suc k) ])
          (strstr_found s rest (lacks_tail c s h))

  split_step :
      (rounds : ℕ) (xs : List ℕ)
      → 0 < length xs
      → split_loop (suc rounds) xs delim ≡ elim (strstr xs delim) [
        | none ↦ some (xs ∷ [])
        | some k ↦ elim (split_loop rounds (drop (k + length delim) xs) delim) [
          | none ↦ none
          | some rest ↦ some (take k xs ∷ rest)
        ]
      ]
  unfolding split_loop
  split_step rounds [] h = absurd (omega arith)
  split_step rounds (c ∷ s) h = refl

  count_step :
      (rounds : ℕ) (xs : List ℕ)
      → 0 < length xs
      → count_loop (suc rounds) xs delim ≡ elim (strstr xs delim) [
        | none ↦ some (0, length xs)
        | some k ↦ elim (count_loop rounds (drop (k + length delim) xs) delim) [
          | none ↦ none
          | some (count, n) ↦ some (suc count, k + n)
        ]
      ]
  unfolding count_loop
  count_step rounds [] h = absurd (omega arith)
  count_step rounds (c ∷ s) h = refl

  -- One round of the loops, at a string that has the delimiter after `s`.
  module _ (rounds : ℕ) (s rest : List ℕ) (h : lacks d s ≡ true) where
    abbrev xs : List ℕ
    xs = s ++ (delim ++ rest)

    left : drop (length s + length delim) xs ≡ rest
    left =
        ap (drop (length s + length delim)) (sym (append_assoc s delim rest))
        ∙ drop-append_eq (length s + length delim) (s ++ delim) rest (sym (length-append s delim))

    not_empty : 0 < length xs
    not_empty = omega (arith, length-append s (delim ++ rest))

    split_round :
        (ss : List (List ℕ))
        → split_loop rounds rest delim ≡ some ss
        → split_loop (suc rounds) xs delim ≡ some (s ∷ ss)
    split_round ss e =
        split_step rounds xs not_empty
        ∙ (ap
              (λ o. elim o [
                | none ↦ some (xs ∷ [])
                | some k ↦ elim (split_loop rounds (drop (k + length delim) xs) delim) [
                  | none ↦ none
                  | some rest ↦ some (take k xs ∷ rest)
                ]
              ])
              (strstr_found s rest h)
            ∙ (ap
                  (λ r. elim (split_loop rounds r delim) [
                    | none ↦ none
                    | some rest ↦ some (take (length s) xs ∷ rest)
                  ])
                  left
                ∙ (ap (λ o. elim o [ none ↦ none | some rest ↦ some (take (length s) xs ∷ rest) ]) e
                    ∙ ap (λ t. some (t ∷ ss)) (take-append_eq (length s) s (delim ++ rest) refl))))

    count_round :
        (count n : ℕ)
        → count_loop rounds rest delim ≡ some (count, n)
        → count_loop (suc rounds) xs delim ≡ some (suc count, length s + n)
    count_round count n e =
        count_step rounds xs not_empty
        ∙ (ap
              (λ o. elim o [
                | none ↦ some (0, length xs)
                | some k ↦ elim (count_loop rounds (drop (k + length delim) xs) delim) [
                  | none ↦ none
                  | some (count, n) ↦ some (suc count, k + n)
                ]
              ])
              (strstr_found s rest h)
            ∙ (ap
                  (λ r. elim (count_loop rounds r delim) [
                    | none ↦ none
                    | some (count, n) ↦ some (suc count, length s + n)
                  ])
                  left
                ∙ ap
                    (λ o. elim o [ none ↦ none | some (count, n) ↦ some (suc count, length s + n) ])
                    e))

  length-joined :
      (s t : List ℕ) (ss : List (List ℕ))
      → length (intercalate delim (s ∷ t ∷ ss))
        ≡ length s + (length delim + length (intercalate delim (t ∷ ss)))
  length-joined s t ss = omega (
    arith,
    length-append s (delim ++ intercalate delim (t ∷ ss)),
    length-append delim (intercalate delim (t ∷ ss)),
  )

  split_loop_lem :
      (ss : List (List ℕ))
      → Fields d ss
      → (rounds : ℕ) → length (intercalate delim ss) < rounds
      → split_loop rounds (intercalate delim ss) delim ≡ some ss
  split_loop_lem ss f zero enough = absurd (omega arith)
  split_loop_lem _ (last c s h) (suc rounds) enough =
      split_step rounds (c ∷ s) (omega arith)
      ∙ ap
          (λ o. elim o [
            | none ↦ some ((c ∷ s) ∷ [])
            | some k ↦ elim (split_loop rounds (drop (k + length delim) (c ∷ s)) delim) [
              | none ↦ none
              | some rest ↦ some (take k (c ∷ s) ∷ rest)
            ]
          ])
          (no_occurrence (c ∷ s) h)
  split_loop_lem _ (more s t ss h f) (suc rounds) enough =
      split_round rounds s (intercalate delim (t ∷ ss)) h (t ∷ ss)
        (split_loop_lem (t ∷ ss) f rounds (omega (arith, enough, length-joined s t ss)))

  count_loop_lem :
      (ss : List (List ℕ))
      → Fields d ss
      → (rounds : ℕ) → length (intercalate delim ss) < rounds
      → count_loop rounds (intercalate delim ss) delim ≡ some (length ss - 1, total ss)
  count_loop_lem ss f zero enough = absurd (omega arith)
  count_loop_lem _ (last c s h) (suc rounds) enough =
      count_step rounds (c ∷ s) (omega arith)
      ∙ (ap
            (λ o. elim o [
              | none ↦ some (0, length (c ∷ s))
              | some k ↦ elim (count_loop rounds (drop (k + length delim) (c ∷ s)) delim) [
                | none ↦ none
                | some (count, n) ↦ some (suc count, k + n)
              ]
            ])
            (no_occurrence (c ∷ s) h)
          ∙ ap (λ n. some (0, n)) (omega arith))
  count_loop_lem _ (more s t ss h f) (suc rounds) enough =
      count_round rounds s (intercalate delim (t ∷ ss)) h _ _
        (count_loop_lem (t ∷ ss) f rounds (omega (arith, enough, length-joined s t ss)))
      ∙ ap (λ n. some (n, total (s ∷ t ∷ ss))) (omega arith)

  stored_lem : (ss : List (List ℕ)) → stored ss ≡ total ss + length ss
  stored_lem [] = refl
  stored_lem (s ∷ ss) = omega (arith, stored_lem ss)

  not_none : (ss : List (List ℕ)) → Fields d ss → 0 < length ss
  not_none _ (last c s h) = omega arith
  not_none _ (more s t ss h f) = omega arith

  splitstr_lem :
      (ss : List (List ℕ)) → Fields d ss → splitstr (intercalate delim ss) delim ≡ some ss
  unfolding splitstr substrcnt
  splitstr_lem ss f =
      ap counted (count_loop_lem ss f (suc (length joined)) (omega arith))
      ∙ (ap split (split_loop_lem ss f (suc (length joined)) (omega arith))
          ∙ ap (λ b. if b then some ss else none) room)
    where
      joined : List ℕ
      joined = intercalate delim ss

      split : Option (List (List ℕ)) → Option (List (List ℕ))
      split o = elim o [
        | none ↦ none
        | some res ↦
            if leb (length res + 1) (length ss - 1 + 2)
              && leb (stored res) (total ss + (length ss - 1) + 1)
            then some res
            else none
      ]

      counted : Option (ℕ × ℕ) → Option (List (List ℕ))
      counted o = elim o [
        | none ↦ none
        | some (n, size) ↦ elim (split_loop (suc (length joined)) joined delim) [
          | none ↦ none
          | some res ↦
              if leb (length res + 1) (n + 2) && leb (stored res) (size + n + 1)
              then some res
              else none
        ]
      ]

      room :
          (leb (length ss + 1) (length ss - 1 + 2)
            && leb (stored ss) (total ss + (length ss - 1) + 1))
          ≡ true
      room = ground (arith, not_none ss f, stored_lem ss)

  -- For a delimiter whose first character is in none of the strings, at least one string, the last one
  -- not empty, and a result shorter than 2^64: `joinstr` writes the strings with the delimiter between
  -- them, within its buffer, and `splitstr` of that ends, within its memory, with the same strings.
  pub splitstr-joinstr :
      (ss : List (List ℕ))
      → Fields d ss
      → length (intercalate delim ss) + 1 < 2 ^ 64
      → (joinstr delim ss ≡ some (intercalate delim ss))
        × (splitstr (intercalate delim ss) delim ≡ some ss)
  splitstr-joinstr _ (last c s h) small =
      (joinstr_lem d ds (c ∷ s) [] small, splitstr_lem _ (last c s h))
  splitstr-joinstr _ (more s t ss h f) small =
      (joinstr_lem d ds s (t ∷ ss) small, splitstr_lem _ (more s t ss h f))
