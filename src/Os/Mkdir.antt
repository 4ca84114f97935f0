-- ===== src/Os/Mkdir.antt =====
-- `mkdir_p` of sources/fusg-common/include/fusg/utils.h. The path is not a null pointer, and `len` is
-- its length.
use fusg.Base.{
  ℕ, ◌==◌, ==_iff, Bool, true, false, List, [], ◌∷◌, ◌++◌, append-nil, Option, none, some, Bytes, ℤ,
  success, failure, if◌then◌else◌, ◌≡◌, refl, ap, ◌∙◌, ◌⊎◌, inl, inr, All, Bool-cases,
}

-- what mkdir(2) answers; `already_there` is EEXIST
pub data Mkdir : Type 0 where
  made already_there refused : Mkdir

abbrev pub is_refused : Mkdir → Bool
is_refused refused = true
is_refused _ = false

abbrev pub without_slash : Bytes → Bytes
without_slash [] = []
without_slash (c ∷ []) = if c == b'/' then [] else c ∷ []
without_slash (c ∷ d ∷ s) = c ∷ without_slash (d ∷ s)

-- The loop on what follows `before`; the calls have the last one first.
unfoldable pub mkdir_loop : (Bytes → Mkdir) → Bytes → Bytes → List Bytes → ℤ × List Bytes
mkdir_loop mkdir before [] calls = (success, calls)
mkdir_loop mkdir before (c ∷ s) calls =
    let rest = mkdir_loop mkdir (before ++ (c ∷ [])) s (before ∷ calls) in
    let next = mkdir_loop mkdir (before ++ (c ∷ [])) s calls in
    if c == b'/'
    then (if is_refused (mkdir before) then (failure, before ∷ calls) else rest)
    else next

-- the loop starts behind the first byte, which is read outside of the string where there is none
abbrev pub mkdir_from : (Bytes → Mkdir) → Bytes → Option (ℤ × List Bytes)
mkdir_from mkdir [] = none
mkdir_from mkdir (c ∷ s) = some (mkdir_loop mkdir (c ∷ []) s [])

unfoldable pub mkdir_p : (Bytes → Mkdir) → Bytes → Option (ℤ × List Bytes)
mkdir_p mkdir dirpath = mkdir_from mkdir (without_slash dirpath)

abbrev pub IsCalled : Bytes → List Bytes → Type 0
IsCalled q [] = ⊥
IsCalled q (c ∷ cs) = (q ≡ c) ⊎ IsCalled q cs

-- a path above `path`
abbrev pub IsAncestor : Bytes → Bytes → Type 0
IsAncestor path q = (rest : Bytes) × (path ≡ q ++ (b'/' ∷ rest))

module _ (mkdir : Bytes → Mkdir) where
  calls_kept :
      (before s : Bytes) (calls : List Bytes) (q : Bytes)
      → IsCalled q calls
      → IsCalled q (mkdir_loop mkdir before s calls).1
  unfolding mkdir_loop
  calls_kept before [] calls q h = h
  calls_kept before (c ∷ s) calls q h = elim (Bool-cases (c == b'/')) [
    | inr e ↦ rw e (calls_kept (before ++ (c ∷ [])) s calls q h)
    | inl e ↦ rw e (elim (Bool-cases (is_refused (mkdir before))) [
      | inl r ↦ rw r (inr h)
      | inr r ↦ rw r (calls_kept (before ++ (c ∷ [])) s (before ∷ calls) q (inr h))
    ])
  ]

  one_more : (before : Bytes) (c : ℕ) (s : Bytes) → before ++ (c ∷ s) ≡ (before ++ (c ∷ [])) ++ s
  one_more [] c s = refl
  one_more (b ∷ before) c s = ap (◌∷◌ b) (one_more before c s)

  loop-IsAncestor :
      (before s : Bytes) (calls : List Bytes) (path : Bytes)
      → path ≡ before ++ s
      → All (IsAncestor path) calls
      → All (IsAncestor path) (mkdir_loop mkdir before s calls).1
  unfolding mkdir_loop
  loop-IsAncestor before [] calls path e h = h
  loop-IsAncestor before (c ∷ s) calls path e h = elim (Bool-cases (c == b'/')) [
    | inr x ↦ rw x (loop-IsAncestor (before ++ (c ∷ [])) s calls path (e ∙ one_more before c s) h)
    | inl x ↦
        let here : IsAncestor path before =
          (s, e ∙ ap (λ d. before ++ (d ∷ s)) ((==_iff c b'/').0 x)) in
        rw x (elim (Bool-cases (is_refused (mkdir before))) [
          | inl r ↦ rw r (here, h)
          | inr r ↦ rw r (
              loop-IsAncestor (before ++ (c ∷ [])) s (before ∷ calls) path (e ∙ one_more before c s)
                (here, h))
        ])
  ]

  -- with no refusal every slash in `s` has its call
  loop-IsCalled :
      ((q : Bytes) → is_refused (mkdir q) ≡ false)
      → (before s : Bytes) (calls : List Bytes) (r rest : Bytes) → s ≡ r ++ (b'/' ∷ rest)
      → IsCalled (before ++ r) (mkdir_loop mkdir before s calls).1
  unfolding mkdir_loop
  loop-IsCalled fine before [] calls [] rest e = absurd (cc e)
  loop-IsCalled fine before [] calls (d ∷ r) rest e = absurd (cc e)
  loop-IsCalled fine before (c ∷ s) calls [] rest e =
      let slash : (c == b'/') ≡ true = rw (head e) refl in
      rw slash (
        rw (fine before) (
          calls_kept (before ++ (c ∷ [])) s (before ∷ calls) (before ++ [])
            (inl (append-nil before))))
    where
      head : (c ∷ s) ≡ b'/' ∷ rest → c ≡ b'/'
      head x = cc x
  loop-IsCalled fine before (c ∷ s) calls (d ∷ r) rest e =
      let head : d ≡ c = cc e in
      let tail : s ≡ r ++ (b'/' ∷ rest) = cc e in
      let same : before ++ (d ∷ r) ≡ (before ++ (c ∷ [])) ++ r =
        ap (λ x. before ++ (x ∷ r)) head ∙ one_more before c r in
      rw same (elim (Bool-cases (c == b'/')) [
        | inr x ↦ rw x (loop-IsCalled fine (before ++ (c ∷ [])) s calls r rest tail)
        | inl x ↦ rw x (
            rw (fine before)
              (loop-IsCalled fine (before ++ (c ∷ [])) s (before ∷ calls) r rest tail))
      ])

  -- the value where nothing is refused
  loop-success :
      ((q : Bytes) → is_refused (mkdir q) ≡ false)
      → (before s : Bytes) (calls : List Bytes) → (mkdir_loop mkdir before s calls).0 ≡ success
  unfolding mkdir_loop
  loop-success fine before [] calls = refl
  loop-success fine before (c ∷ s) calls = elim (Bool-cases (c == b'/')) [
    | inr x ↦ rw x (loop-success fine (before ++ (c ∷ [])) s calls)
    | inl x ↦ rw x (rw (fine before) (loop-success fine (before ++ (c ∷ [])) s (before ∷ calls)))
  ]

  -- Whatever mkdir(2) answers, for a path that is `c ∷ s` behind the cut of a slash at its end,
  -- `mkdir_p` asks for no directory but those above the path, and so never for the path itself.
  pub mkdir_p-IsAncestor :
      (dirpath : Bytes) (c : ℕ) (s : Bytes)
      → without_slash dirpath ≡ c ∷ s
      → (r : ℤ × List Bytes) × (mkdir_p mkdir dirpath ≡ some r) × All (IsAncestor (c ∷ s)) r.1
  unfolding mkdir_p
  mkdir_p-IsAncestor dirpath c s e = (
    mkdir_loop mkdir (c ∷ []) s [],
    ap (mkdir_from mkdir) e,
    loop-IsAncestor (c ∷ []) s [] (c ∷ s) refl tt,
  )

  -- Where mkdir(2) refuses nothing, `mkdir_p` returns 0, and has asked for each directory above the path
  -- `c ∷ s`, but the empty one.
  pub mkdir_p-IsCalled :
      ((q : Bytes) → is_refused (mkdir q) ≡ false)
      → (dirpath : Bytes) (c : ℕ) (s : Bytes) → without_slash dirpath ≡ c ∷ s
      → (q rest : Bytes) → s ≡ q ++ (b'/' ∷ rest)
      → (calls : List Bytes) × (mkdir_p mkdir dirpath ≡ some (success, calls))
        × IsCalled (c ∷ q) calls
  unfolding mkdir_p
  mkdir_p-IsCalled fine dirpath c s e q rest x =
      let (rc, calls) = mkdir_loop mkdir (c ∷ []) s [] in
      (
        calls,
        ap (mkdir_from mkdir) e ∙ ap (λ n. some (n, calls)) (loop-success fine (c ∷ []) s []),
        loop-IsCalled fine (c ∷ []) s [] q rest x,
      )
