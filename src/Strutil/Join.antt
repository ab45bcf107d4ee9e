-- ===== src/Strutil/Join.antt =====
-- What `joinstr` (src/strutil.c) writes.
use isocore.Base.{
  ℕ, ◌+◌, ◌*◌, ◌%◌, ◌^◌, ◌<◌, ◌≡◌, refl, sym, ap, ◌∙◌, arith, Bool, true, false, ◌&&◌, ltb, ◌==◌,
  not, if◌then◌else◌, List, [], ◌∷◌, ◌++◌, append-nil, length, length-append, some, none, leb,
}
use isocore.Strutil.{total, join_loop, bufsiz, joinstr}

-- The character is not in the string.
abbrev pub lacks : ℕ → List ℕ → Bool
lacks x [] = true
lacks x (c ∷ s) = not (x == c) && lacks x s

-- One string at least, without the character; the last one is not empty.
pub data Fields (x : ℕ) : List (List ℕ) → Type 0 where
  last : (c : ℕ) (s : List ℕ) → lacks x (c ∷ s) ≡ true → Fields x ((c ∷ s) ∷ [])
  more :
      (s t : List ℕ) (ss : List (List ℕ))
      → lacks x s ≡ true
      → Fields x (t ∷ ss)
      → Fields x (s ∷ t ∷ ss)

-- The strings with the delimiter between them.
abbrev pub intercalate : List ℕ → List (List ℕ) → List ℕ
intercalate delim [] = []
intercalate delim (s ∷ []) = s
intercalate delim (s ∷ t ∷ ss) = s ++ (delim ++ intercalate delim (t ∷ ss))

zero_plus : (n : ℕ) → 0 + n ≡ n
zero_plus n = omega arith

module _ (d : ℕ) (ds : List ℕ) where
  join_loop_lem :
      (ss : List (List ℕ)) (end ptr : ℕ)
      → end ≡ ptr + length (intercalate (d ∷ ds) ss)
      → join_loop (d ∷ ds) end ptr ss ≡ intercalate (d ∷ ds) ss
  unfolding join_loop
  join_loop_lem [] end ptr e = refl
  join_loop_lem (s ∷ []) end ptr e =
      ap (λ b. s ++ (if b then (d ∷ ds) ++ [] else [])) (no_more) ∙ append-nil s
    where
      no_more : ltb (ptr + length s) end ≡ false
      no_more = ground (arith, e)
  join_loop_lem (s ∷ t ∷ ss) end ptr e =
      ap
        (λ b.
          s
          ++ (if b
              then (d ∷ ds) ++ join_loop (d ∷ ds) end (ptr + length s + length (d ∷ ds)) (t ∷ ss)
              else join_loop (d ∷ ds) end (ptr + length s) (t ∷ ss)))
        there
      ∙ ap (λ r. s ++ ((d ∷ ds) ++ r))
          (join_loop_lem (t ∷ ss) end (ptr + length s + length (d ∷ ds)) rest)
    where
      sizes :
          length (intercalate (d ∷ ds) (s ∷ t ∷ ss))
          ≡ length s + (length (d ∷ ds) + length (intercalate (d ∷ ds) (t ∷ ss)))
      sizes = omega (
        arith,
        length-append s ((d ∷ ds) ++ intercalate (d ∷ ds) (t ∷ ss)),
        length-append (d ∷ ds) (intercalate (d ∷ ds) (t ∷ ss)),
      )

      there : ltb (ptr + length s) end ≡ true
      there = ground (arith, e, sizes)

      rest : end ≡ ptr + length s + length (d ∷ ds) + length (intercalate (d ∷ ds) (t ∷ ss))
      rest = omega (arith, e, sizes)

  length-intercalate :
      (s : List ℕ) (ss : List (List ℕ))
      → length (intercalate (d ∷ ds) (s ∷ ss)) ≡ total (s ∷ ss) + length (d ∷ ds) * length ss
  length-intercalate s [] = omega arith
  length-intercalate s (t ∷ ss) = omega (
    arith,
    length-intercalate t ss,
    length-append s ((d ∷ ds) ++ intercalate (d ∷ ds) (t ∷ ss)),
    length-append (d ∷ ds) (intercalate (d ∷ ds) (t ∷ ss)),
  )

  pub joinstr_lem :
      (s : List ℕ) (ss : List (List ℕ))
      → length (intercalate (d ∷ ds) (s ∷ ss)) + 1 < 2 ^ 64
      → joinstr (d ∷ ds) (s ∷ ss) ≡ some (intercalate (d ∷ ds) (s ∷ ss))
  unfolding joinstr
  joinstr_lem s ss small =
      ap
        (λ buf.
          if leb (length buf + 1) ((bufsiz (d ∷ ds) (s ∷ ss) + 1) % 2 ^ 64) then some buf else none)
        (join_loop_lem (s ∷ ss) (bufsiz (d ∷ ds) (s ∷ ss)) 0 (size ∙ sym (zero_plus _)))
      ∙ ap (λ b. if b then some (intercalate (d ∷ ds) (s ∷ ss)) else none) fits
    where
      size : bufsiz (d ∷ ds) (s ∷ ss) ≡ length (intercalate (d ∷ ds) (s ∷ ss))
      size = ground (arith, small, length-intercalate s ss)

      fits :
          leb (length (intercalate (d ∷ ds) (s ∷ ss)) + 1) ((bufsiz (d ∷ ds) (s ∷ ss) + 1) % 2 ^ 64)
          ≡ true
      fits = ground (arith, small, size)
