-- ===== src/Conf/Tokens.antt =====
-- The scanner of sources/fusg-common/src/conf.c: `skip_white`, `token_string`, `token`, `line_end`
-- and `consume`. A `char**` that moves along a line is the rest of the line, up to its terminating
-- zero, which the functions return.
use fusg.Base.{
  ℕ, Bool, true, false, ◌&&◌, ◌||◌, [], ◌∷◌, Option, none, some, Bytes, leb, ◌==◌, if◌then◌else◌,
  drop,
}

-- `isspace` in the C locale
abbrev pub is_space : ℕ → Bool
is_space c = c == 32 || (leb 9 c && leb c 13)

abbrev pub is_quote : ℕ → Bool
is_quote c = c == 34 || c == 39

unfoldable pub skip_white : Bytes → Bytes
skip_white [] = []
skip_white (c ∷ s) = let rest = skip_white s in if is_space c then rest else c ∷ s

abbrev put : ℕ → Option (Bytes × Option Bytes) → Option (Bytes × Option Bytes)
put c none = none
put c (some (content, rest)) = some (c ∷ content, rest)

-- The loop of `token_string`: the characters up to the delimiter `del`, and the rest behind it, if
-- it is there. `escaped` is true behind a backslash, where the code steps over the next character
-- without a look at it; at the end of the line that is the terminating zero, and the loop goes on to
-- read behind it: `none`.
unfoldable pub scan_string : ℕ → Bool → Bytes → Option (Bytes × Option Bytes)
scan_string del true [] = none
scan_string del false [] = some ([], none)
scan_string del true (c ∷ s) = put c (scan_string del false s)
scan_string del false (c ∷ s) =
    let rest = scan_string del (c == 92) s in if c == del then some ([], some s) else put c rest

-- `token_string` on a line that starts with `del`; without a closing delimiter the line stays
unfoldable pub token_string : ℕ → Bytes → Option (Option Bytes × Bytes)
token_string del s = elim (scan_string del false s) [
  | none ↦ none
  | some (content, some rest) ↦ some (some content, rest)
  | some (content, none) ↦ some (some content, del ∷ s)
]

-- the characters up to a space or the end, and the rest from there
unfoldable pub split_word : Bytes → Bytes × Bytes
split_word [] = ([], [])
split_word (c ∷ s) =
    let (word, rest) = split_word s in if is_space c then ([], c ∷ s) else (c ∷ word, rest)

-- `token`: `none` is a read behind the line, a null token is `some (none, …)`
unfoldable pub token : Bytes → Option (Option Bytes × Bytes)
token [] = some (none, [])
token (c ∷ s) =
    let (word, rest) = split_word (c ∷ s) in
    if is_quote c
    then token_string c s
    else (if is_space c then some (none, c ∷ s) else some (some word, drop 1 rest))

-- `line_end`: true where something other than a comment is left
abbrev pub line_end : Bytes → Bool
line_end [] = false
line_end (c ∷ s) = if c == 10 || c == 35 then false else true

-- `consume`, with the line behind it
abbrev pub consume : ℕ → Bytes → Bool × Bytes
consume c [] = (false, [])
consume c (x ∷ s) = if x == c then (true, s) else (false, x ∷ s)
