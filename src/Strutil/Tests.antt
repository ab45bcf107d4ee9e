-- ===== src/Strutil/Tests.antt =====
-- Strings that the theorems on src/strutil.c are applied to.
use isocore.Base.{ℕ, ◌≡◌, refl, arith, List, [], ◌∷◌, some}
use isocore.Strutil.{splitstr, joinstr, strescape, strunescape}
use isocore.Strutil.Join.{Fields, last, more}
use isocore.Strutil.Split.{splitstr-joinstr}
use isocore.Strutil.Escape.{strunescape-strescape}

-- "a", "" and "bc", with ", " between them.
abbrev words : List (List ℕ)
words = (97 ∷ []) ∷ [] ∷ (98 ∷ 99 ∷ []) ∷ []

abbrev joined : List ℕ
joined = 97 ∷ 44 ∷ 32 ∷ 44 ∷ 32 ∷ 98 ∷ 99 ∷ []

words-Fields : Fields 44 words
words-Fields =
    more (97 ∷ []) [] ((98 ∷ 99 ∷ []) ∷ []) refl
      (more [] (98 ∷ 99 ∷ []) [] refl (last 98 (99 ∷ []) refl))

splitstr-joinstr_example :
    (joinstr (44 ∷ 32 ∷ []) words ≡ some joined) × (splitstr joined (44 ∷ 32 ∷ []) ≡ some words)
splitstr-joinstr_example = splitstr-joinstr 44 (32 ∷ []) words words-Fields (omega arith)

-- "a", a line feed and a quote.
abbrev line : List ℕ
line = 97 ∷ 10 ∷ 34 ∷ []

strunescape-strescape_example : strunescape (strescape line) ≡ 97 ∷ 10 ∷ 110 ∷ 34 ∷ 34 ∷ []
strunescape-strescape_example = strunescape-strescape line refl
