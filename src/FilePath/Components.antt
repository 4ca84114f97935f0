-- ===== src/FilePath/Components.antt =====
-- Paths as lists of components: the independent description that the scans are held to.
use mathlib.Core.Path.{ap₂}
use fusg.Base.{
  ℕ, ◌&&◌, true, false, List, [], ◌∷◌, ◌++◌, reverse, Option, none, some, ◌==◌, if◌then◌else◌,
  Bytes, All, All-append, ◌≡◌, refl, sym, ap, ◌∙◌, inl, inr, Bool-cases, append-nil, append_assoc,
}

-- What a component stands for: nothing between two slashes, '.', '..', or a name.
pub data Kind : Type 0 where
  empty dot dot_dot name : Kind

unfoldable pub kind : Bytes → Kind
kind [] = empty
kind (a ∷ []) = if a == b'.' then dot else name
kind (a ∷ b ∷ []) = if a == b'.' && b == b'.' then dot_dot else name
kind (a ∷ b ∷ c ∷ cs) = name

-- The components between the slashes of `s`; `p` is what precedes `s` in the first.
unfoldable pub split : Bytes → Bytes → List Bytes
split p [] = p ∷ []
split p (ch ∷ s) = if ch == b'/' then p ∷ split [] s else split (p ++ ch ∷ []) s

-- One more component on the stack of names, the innermost first; `none` if it leads above the
-- root.
unfoldable pub enter : List Bytes → Bytes → Option (List Bytes)
enter st p = elim (kind p) [
  | Kind.empty ↦ some st
  | Kind.dot ↦ some st
  | Kind.dot_dot ↦ elim st [ [] ↦ none | x ∷ up ↦ some up ]
  | Kind.name ↦ some (p ∷ st)
]

unfoldable pub enter_all : List Bytes → List Bytes → Option (List Bytes)
unfolding enter
enter_all st [] = some st
enter_all st (p ∷ ps) = elim (enter st p) [ none ↦ none | some st' ↦ enter_all st' ps ]

pub enter_all-cons :
    (st : List Bytes) (p : Bytes) (ps : List Bytes) {st' : List Bytes}
    → enter st p ≡ some st'
    → enter_all st (p ∷ ps) ≡ enter_all st' ps
unfolding enter_all
enter_all-cons st p ps e = rw (e, enter_all)

-- The text of a list of names, the outermost first: each behind a '/'.
unfoldable pub render : List Bytes → Bytes
render [] = []
render (x ∷ xs) = b'/' ∷ (x ++ render xs)

-- The text of a stack of names; the root is '/'.
unfoldable pub path_of : List Bytes → Bytes
unfolding render
path_of [] = b'/' ∷ []
path_of (x ∷ st) = render (reverse (x ∷ st))

-- A component that a canonical path may have: a name without a '/'.
abbrev pub NoSlash : Bytes → Type 0
NoSlash = All (λ b. (b == b'/') ≡ false)

abbrev pub IsName : Bytes → Type 0
IsName x = (kind x ≡ name) × NoSlash x

pub split-slash : (ch : ℕ) (s p : Bytes) → (ch == b'/') ≡ true → split p (ch ∷ s) ≡ p ∷ split [] s
unfolding split
split-slash ch s p h = rw h

pub split-other :
    (ch : ℕ) (s p : Bytes) → (ch == b'/') ≡ false → split p (ch ∷ s) ≡ split (p ++ ch ∷ []) s
unfolding split
split-other ch s p h = rw h

-- Splitting at one '/' splits on both of its sides.
pub split-append : (s t p : Bytes) → split p (s ++ b'/' ∷ t) ≡ split p s ++ split [] t
split-append [] t p = split-slash b'/' t p refl ∙ unfold split in refl
split-append (ch ∷ s) t p = elim (Bool-cases (ch == b'/')) [
  | inl h ↦ rw (split-slash ch _ p h, split-slash ch s p h) (ap (◌∷◌ p) (split-append s t []))
  | inr h ↦ rw (split-other ch _ p h, split-other ch s p h) (split-append s t (p ++ ch ∷ []))
]

pub split-NoSlash : (s p : Bytes) → NoSlash p → All NoSlash (split p s)
unfolding split
split-NoSlash [] p n = (n, tt)
split-NoSlash (ch ∷ s) p n = elim (Bool-cases (ch == b'/')) [
  | inl h ↦ rw h (n, split-NoSlash s [] tt)
  | inr h ↦ rw h (split-NoSlash s (p ++ ch ∷ []) (All-append _ p (ch ∷ []) n (h, tt)))
]

-- The text of names splits into the names.
pub split-render :
    (y p : Bytes) (ys : List Bytes)
    → NoSlash y
    → All NoSlash ys
    → split p (y ++ render ys) ≡ (p ++ y) ∷ ys
unfolding render
split-render [] p [] n h = unfold split in ap (λ q. q ∷ []) (sym (append-nil p))
split-render [] p (z ∷ ys) n h =
    split-slash b'/' _ p refl ∙ ap₂ ◌∷◌ (sym (append-nil p)) (split-render z [] ys h.0 h.1)
split-render (c ∷ y) p ys n h =
    split-other c (y ++ render ys) p n.0 ∙ split-render y (p ++ c ∷ []) ys n.1 h ∙ rw append_assoc
