-- ===== src/Os/Removed.antt =====
-- What `fremove_r` of sources/fusg-common/include/fusg/utils.h removes, whatever the file system answers.
use fusg.Base.{
  ℕ, ◌+◌, ◌*◌, ◌≤◌, ◌<◌, true, false, List, [], ◌∷◌, ◌++◌, Option, none, some, Bytes, ℤ, success,
  failure, is_zero, ltb, ltb→lt, lt→ltb, length, length-append, if◌then◌else◌, append_assoc, ◌≡◌,
  ◌≢◌, codes, refl, sym, ap, ◌∙◌, ◌⊎◌, inl, inr, arith, All, All-append, Bool-cases,
}
use fusg.Os.Files.{FileError, Files}
use fusg.Os.Remove.{
  Walk, Walked, went, undefined, exhausted, W, is_dots, cap_limit, removed, call_remove, grown,
  gather, remove_each,
}

-- `path`, or a path that is reached from it by names other than '.' and '..'
pub data Below (path : Bytes) : Bytes → Type 0 where
  here : Below path path
  inside :
      {q : Bytes} (name : Bytes)
      → Below path q
      → name ≢ codes "."
      → name ≢ codes ".."
      → Below path (q ++ (b'/' ∷ name))

Below-trans : {a b c : Bytes} → Below a b → Below b c → Below a c
Below-trans h here = h
Below-trans h (inside name k e f) = inside name (Below-trans h k) e f

not_dot : (name : Bytes) → is_dots name ≡ false → name ≢ codes "."
not_dot name h e = cc (rw e at h)

not_dots : (name : Bytes) → is_dots name ≡ false → name ≢ codes ".."
not_dots name h e = cc (rw e at h)

abbrev pub IsBelow : Bytes → Bytes × Option FileError → Type 0
IsBelow path call = Below path call.0

abbrev pub IsName : Bytes → Type 0
IsName name = is_dots name ≡ false

-- a new value of the list of calls
pub record Extends (path : Bytes) (old later : List (Bytes × Option FileError)) : Type 0 where
  pub calls : List (Bytes × Option FileError)
  pub split : later ≡ calls ++ old
  pub below : All (IsBelow path) calls

pub Extends-refl : (path : Bytes) (xs : List (Bytes × Option FileError)) → Extends path xs xs
Extends-refl path xs = record { calls = []; split = refl; below = tt }

pub Extends-trans :
    (path : Bytes) {xs ys zs : List (Bytes × Option FileError)}
    → Extends path xs ys
    → Extends path ys zs
    → Extends path xs zs
Extends-trans path h k = record {
  calls = k.calls ++ h.calls;
  split = k.split ∙ ap (λ l. k.calls ++ l) h.split ∙ sym (append_assoc k.calls h.calls _);
  below = All-append (IsBelow path) k.calls h.calls k.below h.below;
}

All-Below :
    {a b : Bytes} (calls : List (Bytes × Option FileError))
    → Below a b
    → All (IsBelow b) calls
    → All (IsBelow a) calls
All-Below [] h k = tt
All-Below (c ∷ cs) h k = (Below-trans h k.0, All-Below cs h k.1)

Extends-Below :
    {a b : Bytes} {xs ys : List (Bytes × Option FileError)}
    → Below a b
    → Extends b xs ys
    → Extends a xs ys
Extends-Below h k = record { calls = k.calls; split = k.split; below = All-Below k.calls h k.below }

abbrev pub last_call : List (Bytes × Option FileError) → Option (Bytes × Option FileError)
last_call [] = none
last_call (c ∷ cs) = some c

-- What a call leaves: it returns, has asked to remove nothing but paths below `path`, and has closed
-- the directories that it opened. The code is 0 only where `path` was removed in the end, else -1.
pub record IsLeft {S : Type 0} (path : Bytes) (w : Walk S) (rc : ℤ) (w' : Walk S) : Type 0 where
  pub extends : Extends path w.removals w'.removals
  pub open_dirs : w'.open_dirs ≡ w.open_dirs
  pub code : (rc ≡ success) × (last_call w'.removals ≡ some (path, none)) ⊎ (rc ≡ failure)

abbrev pub Leaves : {S : Type 0} → Bytes → Walk S → Walked S ℤ → Type 0
Leaves path w (went rc w') = IsLeft path w rc w'
Leaves path w undefined = ⊥
Leaves path w exhausted = ⊥

module _ {S : Type 0} (fs : Files S) where
  pub call_remove-Leaves : (path : Bytes) (w : Walk S) → Leaves path w (call_remove fs path w)
  unfolding call_remove
  call_remove-Leaves path w = go (fs.remove w.files path)
    where
      one : (e : Option FileError) → Extends path w.removals ((path, e) ∷ w.removals)
      one e = record { calls = (path, e) ∷ []; split = refl; below = (here, tt) }

      go : (x : Option FileError × S) → Leaves path w (removed path x w)
      go (none, s) = record { extends = one none; open_dirs = refl; code = inl (refl, refl) }
      go (some e, s) = record { extends = one (some e); open_dirs = refl; code = inr refl }

-- The loop over the entries returns names, and changes nothing.
abbrev pub Gathers : {S : Type 0} → Walk S → Walked S (List Bytes) → Type 0
Gathers w (went files w') = (w' ≡ w) × All IsName files
Gathers w undefined = ⊥
Gathers w exhausted = ⊥

module _ {S : Type 0} (fs : Files S) (memory : (s : S) (n : ℕ) → fs.realloc s n ≡ true) where
  pub grown-room :
      (f cap : ℕ) (s : S)
      → f ≤ cap
      → 1 ≤ cap
      → f < cap_limit
      → (cap' : ℕ) × (grown fs f cap s ≡ some cap') × (f < cap')
  grown-room f cap s le one small = elim (Bool-cases (ltb f cap)) [
    | inl e ↦ (cap, rw e refl, ltb→lt f cap e)
    | inr e ↦ (2 * cap, rw (e, memory s (2 * cap)) (ground arith), omega arith)
  ]

  pub gather-Gathers :
      (names : List Bytes) (f cap : ℕ) (files : List Bytes) (w : Walk S)
      → f ≤ cap
      → 1 ≤ cap
      → f + length names ≤ cap_limit
      → All IsName files
      → Gathers w (gather fs names f cap files w)
  unfolding gather
  gather-Gathers [] f cap files w le one small h = (refl, h)
  gather-Gathers (name ∷ names) f cap files w le one small h = elim (Bool-cases (is_dots name)) [
    | inl e ↦ rw e (gather-Gathers names f cap files w le one (omega arith) h)
    | inr e ↦
        let (cap', g, lt) = grown-room f cap w.files le one (omega arith) in
        rw (e, g)
          (rw (lt→ltb f cap' lt) (
            gather-Gathers names (f + 1) cap' (files ++ (name ∷ [])) w (omega arith) (omega arith)
              (omega arith) (All-append IsName files (name ∷ []) h (e, tt))))
  ]

kept_code :
    {rc : ℤ} {A : Type 0} → ((rc ≡ success) × A ⊎ (rc ≡ failure)) → (rc ≡ success) ⊎ (rc ≡ failure)
kept_code (inl (e, a)) = inl e
kept_code (inr e) = inr e

module _ {S : Type 0} where
  -- the code of a loop over the files need not be that of the path itself
  pub record IsKept (path : Bytes) (w : Walk S) (rc : ℤ) (w' : Walk S) : Type 0 where
    pub extends : Extends path w.removals w'.removals
    pub open_dirs : w'.open_dirs ≡ w.open_dirs
    pub code : (rc ≡ success) ⊎ (rc ≡ failure)

  abbrev pub Keeps : Bytes → Walk S → Walked S ℤ → Type 0
  Keeps path w (went rc w') = IsKept path w rc w'
  Keeps path w undefined = ⊥
  Keeps path w exhausted = ⊥

module _ {S : Type 0} (path_max : ℕ) where
  pub remove_each-Keeps :
      (rec : Bytes → W S ℤ) (path : Bytes) (names : List Bytes) (w : Walk S)
      → ((q : Bytes) (w : Walk S)
          → length path < length q
          → length q ≤ path_max
          → Leaves q w (rec q w))
      → All IsName names
      → Keeps path w (remove_each path_max rec path names w)
  unfolding remove_each
  remove_each-Keeps rec path [] w r h = record {
    extends = Extends-refl path w.removals;
    open_dirs = refl;
    code = inl refl;
  }
  remove_each-Keeps rec path (name ∷ names) w r h =
      elim (Bool-cases (ltb path_max (length (path ++ (b'/' ∷ name))))) [
        | inl e ↦
            rw e
              (record { extends = Extends-refl path w.removals; open_dirs = refl; code = inr refl })
        | inr e ↦ rw e (
            go (rec (path ++ (b'/' ∷ name)) w)
              (r (path ++ (b'/' ∷ name)) w (omega (arith, length-append path (b'/' ∷ name)))
                (ground arith))
              (λ w1. remove_each-Keeps rec path names w1 r h.1))
      ]
    where
      below : Below path (path ++ (b'/' ∷ name))
      below = inside name here (not_dot name h.0) (not_dots name h.0)

      go :
          (x : Walked S ℤ)
          → Leaves (path ++ (b'/' ∷ name)) w x
          → ((w1 : Walk S) → Keeps path w1 (remove_each path_max rec path names w1))
          → Keeps path w (elim x [
            | went rc w' ↦ if is_zero rc then remove_each path_max rec path names w' else went rc w'
            | undefined ↦ undefined
            | exhausted ↦ exhausted
          ])
      go undefined l k = l
      go exhausted l k = l
      go (went rc w') l k = elim (Bool-cases (is_zero rc)) [
        | inr z ↦ rw z (record {
          extends = Extends-Below below l.extends;
          open_dirs = l.open_dirs;
          code = kept_code l.code;
        })
        | inl z ↦ rw z (more (remove_each path_max rec path names w') (k w'))
      ]
        where
          more : (y : Walked S ℤ) → Keeps path w' y → Keeps path w y
          more undefined m = m
          more exhausted m = m
          more (went rc' w2) m = record {
            extends = Extends-trans path (Extends-Below below l.extends) m.extends;
            open_dirs = m.open_dirs ∙ l.open_dirs;
            code = m.code;
          }
