-- ===== src/FilePath/Absolute.antt =====
-- `fabsolute` of sources/fusg-common/include/fusg/utils.h.
--
-- The scan works in place on one buffer with three pointers, and c ≤ l ≤ r always: what lies
-- before `c` is written, what lies from `r` on is not read yet, and a write never reaches `r`. So
-- the pointers are a split of the buffer here: `out` is [path, c), the last byte first; `held` is
-- [l, r), or `none` where `l` is null; the bytes from `r` on are the list that the loop walks.
-- `first` is the byte at `path[0]`, which the last lines of the function use again.
use fusg.Base.{
  ℕ, ◌-◌, [], ◌∷◌, ◌++◌, reverse, Option, none, some, leb, ◌==◌, if◌then◌else◌, length, take, Bytes,
}

-- A path, the null pointer, or an access outside of the buffer (undefined behaviour).
pub data Absolute : Type 0 where
  absolute : Bytes → Absolute
  null : Absolute
  undefined : Absolute

pub record Scan : Type 0 where
  pub first : ℕ
  pub out : Bytes
  pub held : Option Bytes

-- `*c = b; c++`
unfoldable pub put : ℕ → Scan → Scan
put b s = record s { first = elim s.out [ [] ↦ b | _ ∷ _ ↦ s.first ]; out = b ∷ s.out }

-- `for (;l <= r; c++, l++) *c = *l;`
unfoldable pub put_all : Bytes → Scan → Scan
unfolding put
put_all [] s = s
put_all (b ∷ bs) s = put_all bs (put b s)

-- `for (--c; c > path && *c != '/'; c--);`
unfoldable pub rewind : Bytes → Bytes
rewind [] = []
rewind (b ∷ bs) = if b == b'/' then bs else rewind bs

-- the rewind of '/..'; `none` is `if (c == path) return NULL`
unfoldable pub parent : Bytes → Option Bytes
unfolding rewind
parent [] = none
parent (b ∷ bs) = some (rewind (b ∷ bs))

-- `*r == '/'`
unfoldable pub scan_slash : Scan → Option Scan
unfolding parent
scan_slash s = elim s.held [
  | none ↦ some (record s { held = some (b'/' ∷ []) })
  | some l ↦
      if leb 3 (length l)
      then (elim (parent s.out) [
        | none ↦ none
        | some out ↦ some (record s { out = out; held = some (b'/' ∷ []) })
      ])
      else some (record s { held = some (b'/' ∷ []) })
]

-- `*r == '.'`
unfoldable pub scan_dot : Scan → Scan
unfolding put_all
scan_dot s = elim s.held [
  | none ↦ put b'.' s
  | some l ↦
      if length l == 3
      then put_all (l ++ b'.' ∷ []) (record s { held = none })
      else record s { held = some (l ++ b'.' ∷ []) }
]

-- any other byte
unfoldable pub scan_other : ℕ → Scan → Scan
unfolding put_all
scan_other ch s = elim s.held [
  | none ↦ put ch s
  | some l ↦ put_all (l ++ ch ∷ []) (record s { held = none })
]

-- one round of `for (; *r; r++)`
unfoldable pub scan_byte : ℕ → Scan → Option Scan
unfolding scan_slash scan_dot scan_other
scan_byte ch s =
    if ch == b'/'
    then scan_slash s
    else if ch == b'.'
    then some (scan_dot s)
    else some (scan_other ch s)

unfoldable pub scan : Bytes → Scan → Option Scan
unfolding scan_byte
scan [] s = some s
scan (ch ∷ rest) s = elim (scan_byte ch s) [ none ↦ none | some s' ↦ scan rest s' ]

-- behind the loop: '/..' at the end
unfoldable pub last_parent : Scan → Option Bytes
unfolding parent
last_parent s = elim s.held [
  | none ↦ some s.out
  | some l ↦ if length l == 3 then parent s.out else some s.out
]

-- `if (c == path) c += 1; *c = '\0';`
unfoldable pub terminate : ℕ → Bytes → Bytes
terminate first [] = first ∷ []
terminate first (b ∷ bs) = reverse (b ∷ bs)

unfoldable pub finish : Scan → Absolute
unfolding last_parent terminate
finish s = elim (last_parent s) [ none ↦ null | some out ↦ absolute (terminate s.first out) ]

abbrev pub head_byte : Bytes → ℕ
head_byte [] = 0
head_byte (b ∷ bs) = b

-- The second half of `fabsolute`: the string in the buffer, resolved in place.
unfoldable pub resolve : Bytes → Absolute
unfolding scan finish
resolve s = elim (scan s (record { first = head_byte s; out = []; held = none })) [
  | none ↦ null
  | some s' ↦ finish s'
]

-- the last byte, `absolute[len-1]`; a string has none if it is empty
unfoldable pub last_byte : Bytes → Option ℕ
last_byte [] = none
last_byte (b ∷ []) = some b
last_byte (b ∷ bs) = last_byte bs

-- `cwd` with a '/' appended if it has none at its end
unfoldable pub with_slash : Bytes → Option Bytes
unfolding last_byte
with_slash cwd = elim (last_byte cwd) [
  | none ↦ none
  | some b ↦ some (if b == b'/' then cwd else cwd ++ b'/' ∷ [])
]

-- `snprintf(to, size, "%s", s)`
abbrev pub snprintf : ℕ → Bytes → Bytes
snprintf size s = take (size - 1) s

-- The first half: `path` is copied behind `cwd` into a buffer of `path_max` bytes. The separator
-- is written at `len`, so it and the terminating byte have to lie in the buffer.
unfoldable pub join : ℕ → Bytes → Bytes → Option Bytes
unfolding with_slash
join path_max cwd path = elim (with_slash cwd) [
  | none ↦ none
  | some base ↦
      if leb path_max (length base)
      then none
      else some (base ++ snprintf (path_max - length base) path)
]

-- the second half, on the buffer that the first leaves
abbrev pub resolve_joined : Option Bytes → Absolute
resolve_joined none = undefined
resolve_joined (some s) = resolve s

unfoldable pub fabsolute : ℕ → Option Bytes → Option Bytes → Absolute
unfolding join resolve
fabsolute path_max none path = null
fabsolute path_max (some cwd) none = null
fabsolute path_max (some cwd) (some path) =
    if head_byte path == b'/'
    then resolve (snprintf path_max path)
    else resolve_joined (join path_max cwd path)
