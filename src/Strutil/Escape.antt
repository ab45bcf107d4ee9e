-- ===== src/Strutil/Escape.antt =====
-- `strunescape` after `strescape` (src/strutil.c).
use isocore.Base.{
  ℕ, ◌≡◌, refl, sym, ap, ◌∙◌, arith, inl, inr, true, false, not, ◌&&◌, ◌==◌, if◌then◌else◌, List,
  [], ◌∷◌, Bool-cases,
}
use isocore.Strutil.{escapechar, unescapechar, front, strescape, strunescape}
use isocore.Strutil.Join.{lacks}

-- What is left of each character: an escaped one is followed by the letter of its escape.
abbrev pub doubled : List ℕ → List ℕ
doubled [] = []
doubled (c ∷ s) =
    if escapechar c == 0
    then c ∷ doubled s
    else unescapechar (escapechar c) ∷ escapechar c ∷ doubled s

letter : (c : ℕ) → (92 == c) ≡ false → (escapechar c == 0) ≡ false → (escapechar c == 92) ≡ false
letter c h e = ground (arith, h, e)

known : (c : ℕ) → (escapechar c == 0) ≡ false → (unescapechar (escapechar c) == 0) ≡ false
known c e = ground (arith, e)

-- For a string without a backslash, `strunescape` does not give back what was given to `strescape`: each
-- character that is escaped is followed by the letter of its escape, and a vertical tab is a line feed.
-- The other characters are as they were.
pub strunescape-strescape : (s : List ℕ) → lacks 92 s ≡ true → strunescape (strescape s) ≡ doubled s
unfolding strescape strunescape
strunescape-strescape [] h = refl
strunescape-strescape (c ∷ s) h = elim (Bool-cases (escapechar c == 0)) [
  | inl e ↦
      ap (λ b. strunescape (if b then c ∷ strescape s else 92 ∷ escapechar c ∷ strescape s)) e
      ∙ (ap
            (λ b.
              if b && not (unescapechar (front (strescape s)) == 0)
              then unescapechar (front (strescape s)) ∷ strunescape (strescape s)
              else c ∷ strunescape (strescape s))
            (plain c (head h))
          ∙ (ap (λ r. c ∷ r) (strunescape-strescape s (tail h))
              ∙ ap
                  (λ b.
                    if b
                    then c ∷ doubled s
                    else unescapechar (escapechar c) ∷ escapechar c ∷ doubled s)
                  (sym e)))
  | inr e ↦
      ap (λ b. strunescape (if b then c ∷ strescape s else 92 ∷ escapechar c ∷ strescape s)) e
      ∙ (ap
            (λ b.
              if not b
              then unescapechar (escapechar c) ∷ strunescape (escapechar c ∷ strescape s)
              else 92 ∷ strunescape (escapechar c ∷ strescape s))
            (known c e)
          ∙ (ap
                (λ b.
                  unescapechar (escapechar c)
                  ∷ (if b && not (unescapechar (front (strescape s)) == 0)
                      then unescapechar (front (strescape s)) ∷ strunescape (strescape s)
                      else escapechar c ∷ strunescape (strescape s)))
                (letter c (head h) e)
              ∙ (ap (λ r. unescapechar (escapechar c) ∷ escapechar c ∷ r)
                    (strunescape-strescape s (tail h))
                  ∙ ap
                      (λ b.
                        if b
                        then c ∷ doubled s
                        else unescapechar (escapechar c) ∷ escapechar c ∷ doubled s)
                      (sym e))))
]
  where
    head : lacks 92 (c ∷ s) ≡ true → (92 == c) ≡ false
    head h = ground (arith, h)

    tail : lacks 92 (c ∷ s) ≡ true → lacks 92 s ≡ true
    tail h = ground (arith, h)

    plain : (c : ℕ) → (92 == c) ≡ false → (c == 92) ≡ false
    plain c h = ground (arith, h)
