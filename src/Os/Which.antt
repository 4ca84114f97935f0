-- ===== src/Os/Which.antt =====
-- `fwhich` of sources/fusg-common/src/utils.c.
use fusg.Base.{
  ℕ, ◌+◌, ◌-◌, ◌==◌, Bool, List, [], ◌∷◌, ◌++◌, Option, none, some, Bytes, length, take, take_all,
  length-append, All, map, leb, false, ◌<◌, arith, if◌then◌else◌, append-nil, ◌≡◌, refl, sym, ap,
  ◌∙◌, inl, inr, Bool-cases,
}

-- What `snprintf` leaves behind an entry of PATH: its bound is PATH_MAX and the length of the entry.
abbrev pub candidate : ℕ → Bytes → Bytes → Bytes
candidate path_max command entry = entry ++ take (path_max + length entry - 1) (b'/' ∷ command)

-- the buffer, a null pointer, or a failed assertion or a write behind the buffer of PATH_MAX bytes
pub data Which : Type 0 where
  found_at : Bytes → Which
  not_found : Which
  undefined : Which

-- `is_exec` is `fisfile` and `eaccess`. `skip` and `copy` are the two inner loops; `copy` has the bytes of
-- the entry so far, and the buffer is returned where it names an executable file.
module _ (is_exec : Bytes → Bool) (path_max : ℕ) (command : Bytes) where
  abbrev pub found_or : Bytes → Which → Which
  found_or entry rest =
      if leb path_max (length (candidate path_max command entry))
      then undefined
      else (if is_exec (candidate path_max command entry)
          then found_at (candidate path_max command entry)
          else rest)

  -- `none` for the entry is the loop that skips separators
  unfoldable pub which_loop : Option Bytes → Bytes → Which
  which_loop none [] = found_or [] not_found
  which_loop (some entry) [] = found_or entry not_found
  which_loop none (c ∷ s) =
      let skip = which_loop none s in
      let copy = which_loop (some (c ∷ [])) s in if c == b':' then skip else copy
  which_loop (some entry) (c ∷ s) =
      let next = which_loop none s in
      let copy = which_loop (some (entry ++ (c ∷ []))) s in
      if c == b':' then found_or entry next else copy

  -- the outer loop; `none` is PATH without a value
  abbrev pub search_path : Option Bytes → Which
  search_path none = not_found
  search_path (some []) = not_found
  search_path (some (c ∷ s)) = which_loop none (c ∷ s)

  unfoldable pub fwhich : Option Bytes → Which
  fwhich path = elim command [ [] ↦ undefined | c ∷ s ↦ search_path path ]

-- The pieces of PATH between its separators.
abbrev extended : Bytes → List Bytes → List Bytes
extended e [] = e ∷ []
extended e (x ∷ xs) = (e ++ x) ∷ xs

abbrev pub pieces : Bytes → List Bytes
pieces [] = [] ∷ []
pieces (c ∷ s) = let rest = pieces s in if c == b':' then [] ∷ rest else extended (c ∷ []) rest

-- all but the empty ones; an empty one behind the last separator counts
abbrev pub considered : List Bytes → List Bytes
considered [] = []
considered (x ∷ []) = x ∷ []
considered ([] ∷ y ∷ xs) = considered (y ∷ xs)
considered ((c ∷ x) ∷ y ∷ xs) = (c ∷ x) ∷ considered (y ∷ xs)

abbrev pub directories : Bytes → List Bytes
directories [] = []
directories (c ∷ s) = considered (pieces (c ∷ s))

-- the first of some paths that is an executable file
abbrev pub first_named : (Bytes → Bool) → List Bytes → Which
first_named is_exec [] = not_found
first_named is_exec (x ∷ xs) = if is_exec x then found_at x else first_named is_exec xs

-- the same by the buffers of the code
abbrev first_in : (Bytes → Bool) → ℕ → Bytes → List Bytes → Which
first_in is_exec path_max command [] = not_found
first_in is_exec path_max command (x ∷ xs) =
    found_or is_exec path_max command x (first_in is_exec path_max command xs)

pieces-cons : (s : Bytes) → (x : Bytes) × (xs : List Bytes) × (pieces s ≡ x ∷ xs)
pieces-cons [] = ([], [], refl)
pieces-cons (c ∷ s) =
    let (x, xs, e) = pieces-cons s in
    elim (Bool-cases (c == b':')) [
      | inl k ↦ ([], pieces s, rw k refl)
      | inr k ↦ (c ∷ x, xs, rw k (rw e refl))
    ]

one_more : (before : Bytes) (c : ℕ) (s : Bytes) → before ++ (c ∷ s) ≡ (before ++ (c ∷ [])) ++ s
one_more [] c s = refl
one_more (b ∷ before) c s = ap (◌∷◌ b) (one_more before c s)

module _ (is_exec : Bytes → Bool) (path_max : ℕ) (command : Bytes) where
  abbrev first_of : List Bytes → Which
  first_of = first_in is_exec path_max command

  considered-skip :
      (xs : List Bytes)
      → ((y : Bytes) × (ys : List Bytes) × (xs ≡ y ∷ ys))
      → considered ([] ∷ xs) ≡ considered xs
  considered-skip [] (y, ys, e) = absurd (cc e)
  considered-skip (x ∷ xs) e = refl

  considered-keep :
      (b : ℕ) (x : Bytes) (xs : List Bytes) → considered ((b ∷ x) ∷ xs) ≡ (b ∷ x) ∷ considered xs
  considered-keep b x [] = refl
  considered-keep b x (y ∷ xs) = refl

  -- the entry so far, if there is one, and the rest of PATH
  abbrev expected : Option (ℕ × Bytes) → Bytes → Which
  expected none s = first_of (considered (pieces s))
  expected (some (b, e)) s = first_of (considered (extended (b ∷ e) (pieces s)))

  abbrev entry_of : Option (ℕ × Bytes) → Option Bytes
  entry_of none = none
  entry_of (some (b, e)) = some (b ∷ e)

  which_loop-expected :
      (o : Option (ℕ × Bytes)) (s : Bytes)
      → which_loop is_exec path_max command (entry_of o) s ≡ expected o s
  unfolding which_loop
  which_loop-expected none [] = refl
  which_loop-expected (some (b, e)) [] = rw (append-nil e) refl
  which_loop-expected none (c ∷ s) = elim (Bool-cases (c == b':')) [
    | inl k ↦ rw k (
        which_loop-expected none s ∙ ap first_of (sym (considered-skip (pieces s) (pieces-cons s))))
    | inr k ↦ rw k (which_loop-expected (some (c, [])) s)
  ]
  which_loop-expected (some (b, e)) (c ∷ s) = elim (Bool-cases (c == b':')) [
    | inl k ↦ rw k (
        rw (which_loop-expected none s) (
          sym (
            ap first_of (
              ap (λ x. considered ((b ∷ x) ∷ pieces s)) (append-nil e)
              ∙ considered-keep b e (pieces s)))))
    | inr k ↦ rw k (
        which_loop-expected (some (b, e ++ (c ∷ []))) s
        ∙ ap (λ x. first_of (considered x)) (two_steps (pieces s)))
  ]
    where
      two_steps :
          (xs : List Bytes)
          → extended (b ∷ (e ++ (c ∷ []))) xs ≡ extended (b ∷ e) (extended (c ∷ []) xs)
      two_steps [] = refl
      two_steps (x ∷ xs) = ap (λ y. (b ∷ y) ∷ xs) (sym (one_more e c x))

  -- the path fits the buffer
  abbrev pub Fits : Bytes → Type 0
  Fits dir = length dir + length command + 1 < path_max

  candidate-Fits :
      (dir : Bytes) → Fits dir → candidate path_max command dir ≡ dir ++ (b'/' ∷ command)
  candidate-Fits dir h =
      ap (λ x. dir ++ x) (take_all (path_max + length dir - 1) (b'/' ∷ command) (omega (arith, h)))

  first_in-named :
      (dirs : List Bytes)
      → All Fits dirs
      → first_of dirs ≡ first_named is_exec (map (λ dir. dir ++ (b'/' ∷ command)) dirs)
  first_in-named [] h = refl
  first_in-named (x ∷ xs) h =
      let n : length (x ++ (b'/' ∷ command)) ≡ length x + (length command + 1) =
        length-append x (b'/' ∷ command) ∙ omega arith in
      let fits : leb path_max (length (x ++ (b'/' ∷ command))) ≡ false = ground (arith, n, h.0) in
      rw (candidate-Fits x h.0, fits, first_in-named xs h.1) refl

  search_path-named :
      (path : Bytes)
      → All Fits (directories path)
      → search_path is_exec path_max command (some path)
        ≡ first_named is_exec (map (λ dir. dir ++ (b'/' ∷ command)) (directories path))
  search_path-named [] h = refl
  search_path-named (c ∷ s) h =
      which_loop-expected none (c ∷ s) ∙ first_in-named (directories (c ∷ s)) h

-- The search of a command, whose name is not empty, in PATH returns the first executable file of those
-- that are named by a directory between the separators, a slash and the command, if each of these paths
-- fits the buffer. Empty directories are passed over, but for one behind the last separator, for which the root
-- directory is searched; an empty PATH has none.
pub fwhich-first_in :
    (is_exec : Bytes → Bool) (path_max c : ℕ) (s path : Bytes)
    → All (Fits is_exec path_max (c ∷ s)) (directories path)
    → fwhich is_exec path_max (c ∷ s) (some path)
      ≡ first_named is_exec (map (λ dir. dir ++ (b'/' ∷ c ∷ s)) (directories path))
unfolding fwhich
fwhich-first_in is_exec path_max c s path h = search_path-named is_exec path_max (c ∷ s) path h
