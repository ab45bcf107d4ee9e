-- ===== src/Strutil.antt =====
-- src/strutil.c: splitting and joining strings, and escapes. A string is the list of its characters
-- before the NUL.
pub mod Join
pub mod Split
pub mod Escape
mod Tests
use isocore.Base.{
  ℕ, zero, suc, ◌+◌, ◌-◌, ◌*◌, ◌%◌, ◌^◌, Bool, true, false, not, ◌&&◌, ltb, leb, ◌==◌,
  if◌then◌else◌, List, [], ◌∷◌, ◌++◌, Option, none, some, length, take, drop,
}

-- `strncmp(s, prefix, strlen(prefix)) == 0`
abbrev pub starts_with : List ℕ → List ℕ → Bool
starts_with [] s = true
starts_with (d ∷ ds) [] = false
starts_with (d ∷ ds) (c ∷ s) = d == c && starts_with ds s

-- `strstr`: the offset of the first occurrence.
unfoldable pub strstr : List ℕ → List ℕ → Option ℕ
strstr [] delim = if starts_with delim [] then some 0 else none
strstr (c ∷ s) delim =
    let rest = strstr s delim in
    if starts_with delim (c ∷ s) then some 0 else elim rest [ none ↦ none | some k ↦ some (suc k) ]

-- The loop of `substrcnt`, with the rounds left: the count and the characters outside of the
-- occurrences. `none` is a loop that does not end.
unfoldable pub count_loop : ℕ → List ℕ → List ℕ → Option (ℕ × ℕ)
count_loop zero s delim = none
count_loop (suc rounds) [] delim = some (0, 0)
count_loop (suc rounds) (c ∷ s) delim = elim (strstr (c ∷ s) delim) [
  | none ↦ some (0, length (c ∷ s))
  | some k ↦ elim (count_loop rounds (drop (k + length delim) (c ∷ s)) delim) [
    | none ↦ none
    | some (count, n) ↦ some (suc count, k + n)
  ]
]

-- `substrcnt`: a round takes one character at least, unless the delimiter is empty.
unfoldable pub substrcnt : List ℕ → List ℕ → Option (ℕ × ℕ)
substrcnt s delim = count_loop (suc (length s)) s delim

-- The loop of `splitstr`, with the rounds left.
unfoldable pub split_loop : ℕ → List ℕ → List ℕ → Option (List (List ℕ))
split_loop zero s delim = none
split_loop (suc rounds) [] delim = some []
split_loop (suc rounds) (c ∷ s) delim = elim (strstr (c ∷ s) delim) [
  | none ↦ some ((c ∷ s) ∷ [])
  | some k ↦ elim (split_loop rounds (drop (k + length delim) (c ∷ s)) delim) [
    | none ↦ none
    | some rest ↦ some (take k (c ∷ s) ∷ rest)
  ]
]

-- The bytes of the strings with a NUL each.
abbrev pub stored : List (List ℕ) → ℕ
stored [] = 0
stored (s ∷ ss) = length s + 1 + stored ss

-- `splitstr`, where `malloc` succeeds: `none` is a loop that does not end, or a write outside of the
-- `n + 2` pointers or the `size + n + 1` bytes.
unfoldable pub splitstr : List ℕ → List ℕ → Option (List (List ℕ))
splitstr s delim = elim (substrcnt s delim) [
  | none ↦ none
  | some (n, size) ↦ elim (split_loop (suc (length s)) s delim) [
    | none ↦ none
    | some res ↦
        if leb (length res + 1) (n + 2) && leb (stored res) (size + n + 1) then some res else none
  ]
]

abbrev pub total : List (List ℕ) → ℕ
total [] = 0
total (s ∷ ss) = length s + total ss

-- `n - 1`, on 64 bits.
abbrev pub one_less : ℕ → ℕ
one_less n = if n == 0 then 2 ^ 64 - 1 else n - 1

-- The loop of `joinstr`, from the offset that `ptr` has in the buffer.
unfoldable pub join_loop : List ℕ → ℕ → ℕ → List (List ℕ) → List ℕ
join_loop delim end ptr [] = []
join_loop delim end ptr (s ∷ ss) =
    let more = delim ++ join_loop delim end (ptr + length s + length delim) ss in
    let last = join_loop delim end (ptr + length s) ss in
    s ++ (if ltb (ptr + length s) end then more else last)

abbrev pub bufsiz : List ℕ → List (List ℕ) → ℕ
bufsiz delim strings = (total strings + length delim * one_less (length strings)) % 2 ^ 64

-- `joinstr`, where `malloc` succeeds: `none` is a write outside of the buffer.
unfoldable pub joinstr : List ℕ → List (List ℕ) → Option (List ℕ)
joinstr delim strings =
    let buf = join_loop delim (bufsiz delim strings) 0 strings in
    if leb (length buf + 1) ((bufsiz delim strings + 1) % 2 ^ 64) then some buf else none

-- The table of `strescape`; 0 is no escape.
abbrev pub escapechar : ℕ → ℕ
escapechar c =
    if c == b'"'
    then b'"'
    else (if c == 92
        then 92
        else (if c == b'/'
            then b'/'
            else (if c == 8
                then b'b'
                else (if c == 12
                    then b'f'
                    else (if c == 10
                        then b'n'
                        else (if c == 13
                            then b'r'
                            else (if c == 9 then b't' else (if c == 11 then b'n' else 0))))))))

-- The table of `strunescape`.
abbrev pub unescapechar : ℕ → ℕ
unescapechar c =
    if c == b'"'
    then b'"'
    else (if c == 92
        then 92
        else (if c == b'/'
            then b'/'
            else (if c == b'b'
                then 8
                else (if c == b'f'
                    then 12
                    else (if c == b'n'
                        then 10
                        else (if c == b'r'
                            then 13
                            else (if c == b't' then 9 else (if c == b'v' then 11 else 0))))))))

-- `strescape`, for characters from 0 to 127, what is written before the NUL.
unfoldable pub strescape : List ℕ → List ℕ
strescape [] = []
strescape (c ∷ src) =
    let rest = strescape src in if escapechar c == 0 then c ∷ rest else 92 ∷ escapechar c ∷ rest

-- `*cur`, which is the NUL at the end.
abbrev pub front : List ℕ → ℕ
front [] = 0
front (c ∷ s) = c

-- `strunescape`: the character after a backslash is read, and not skipped.
unfoldable pub strunescape : List ℕ → List ℕ
strunescape [] = []
strunescape (c ∷ cur) =
    let rest = strunescape cur in
    if c == 92 && not (unescapechar (front cur) == 0)
    then unescapechar (front cur) ∷ rest
    else c ∷ rest
