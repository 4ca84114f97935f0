-- ===== src/FilePath/Canonical.antt =====
-- `fiscanonical` of sources/fusg-common/include/fusg/utils.h. Its `int` indices are natural
-- numbers here: paths are shorter than 2^31 bytes.
use fusg.Base.{
  ℕ, ◌+◌, Bool, true, false, ◌&&◌, List, [], ◌∷◌, ◌++◌, Option, none, some, ltb, ◌==◌,
  if◌then◌else◌, Bytes, length, ◌≡◌, refl, ap, ◌∙◌, inl, inr, arith, Bool-cases, Option-cases,
  ==_iff, lt→ltb,
}
use fusg.FilePath.Absolute.{head_byte}
use fusg.FilePath.Components.{Kind, kind, split, split-slash, split-other}

-- one round of the loop, on the byte `path[i]`; `none` is `return 0`
unfoldable pub canonical_step : ℕ → ℕ → Option ℕ
canonical_step score ch =
    if ch == b'/'
    then if ltb 0 score then none else some (score + 1)
    else if ch == b'.' && ltb 0 score
    then if ltb 2 score then some 0 else some (score + 1)
    else some 0

unfoldable pub canonical_loop : ℕ → Bytes → Bool
unfolding canonical_step
canonical_loop score [] = if ltb 0 score then false else true
canonical_loop score (ch ∷ rest) = elim (canonical_step score ch) [
  | none ↦ false
  | some score' ↦ canonical_loop score' rest
]

abbrev pub tail : Bytes → Bytes
tail [] = []
tail (b ∷ bs) = bs

unfoldable pub fiscanonical : Bytes → Bool
unfolding canonical_loop
fiscanonical path =
    if head_byte path == b'/'
    then canonical_loop (if ltb 1 (length path) then 1 else 0) (tail path)
    else false

abbrev is_name : Kind → Bool
is_name Kind.name = true
is_name k = false

abbrev pub all_names : List Bytes → Bool
all_names [] = true
all_names (p ∷ ps) = is_name (kind p) && all_names ps

-- what follows the first '/' of a canonical path: nothing, or names between single slashes
abbrev pub is_normal : Bytes → Bool
is_normal [] = true
is_normal (ch ∷ s) = all_names (split [] (ch ∷ s))

abbrev score_of : Kind → ℕ
score_of Kind.empty = 1
score_of Kind.dot = 2
score_of Kind.dot_dot = 3
score_of Kind.name = 0

abbrev loop_next : Bytes → Option ℕ → Bool
loop_next s none = false
loop_next s (some score) = canonical_loop score s

canonical_loop-cons :
    (score ch : ℕ) (s : Bytes)
    → canonical_loop score (ch ∷ s) ≡ loop_next s (canonical_step score ch)
canonical_loop-cons score ch s = elim (Option-cases (canonical_step score ch)) [
  | inl e ↦ rw e (unfold canonical_loop in rw (e, canonical_loop))
  | inr (u, e) ↦ rw e (unfold canonical_loop in rw (e, canonical_loop))
]

canonical_step-other :
    (p : Bytes) (ch : ℕ)
    → (ch == b'/') ≡ false
    → canonical_step (score_of (kind p)) ch ≡ some (score_of (kind (p ++ ch ∷ [])))
unfolding canonical_step kind
canonical_step-other [] ch h = ground arith
canonical_step-other (a ∷ []) ch h = ground arith
canonical_step-other (a ∷ b ∷ []) ch h = ground arith
canonical_step-other (a ∷ b ∷ c ∷ p) ch h = ground arith

loop-slash :
    (k : Kind) (s : Bytes)
    → loop_next s (canonical_step (score_of k) b'/') ≡ (is_name k && canonical_loop 1 s)
unfolding canonical_step
loop-slash Kind.empty s = refl
loop-slash Kind.dot s = refl
loop-slash Kind.dot_dot s = refl
loop-slash Kind.name s = refl

loop-end : (k : Kind) → canonical_loop (score_of k) [] ≡ (is_name k && true)
unfolding canonical_loop
loop-end Kind.empty = refl
loop-end Kind.dot = refl
loop-end Kind.dot_dot = refl
loop-end Kind.name = refl

canonical_loop-split : (s p : Bytes) → canonical_loop (score_of (kind p)) s ≡ all_names (split p s)
unfolding kind
canonical_loop-split [] p = loop-end (kind p) ∙ unfold split in refl
canonical_loop-split (ch ∷ s) p = elim (Bool-cases (ch == b'/')) [
  | inl h ↦
      canonical_loop-cons (score_of (kind p)) ch s
      ∙ rw (split-slash ch s p h, (==_iff ch b'/').0 h)
          (loop-slash (kind p) s ∙ ap (λ b. is_name (kind p) && b) (canonical_loop-split s []))
  | inr h ↦
      canonical_loop-cons (score_of (kind p)) ch s
      ∙ rw (split-other ch s p h, canonical_step-other p ch h)
          (canonical_loop-split s (p ++ ch ∷ []))
]

-- `fiscanonical` accepts exactly the absolute paths that are '/' or have a name, and no '.' or
-- '..', between every two slashes and behind the last.
pub fiscanonical-is_normal :
    (path : Bytes)
    → fiscanonical path ≡ (if head_byte path == b'/' then is_normal (tail path) else false)
unfolding fiscanonical
fiscanonical-is_normal [] = refl
fiscanonical-is_normal (a ∷ []) = refl
fiscanonical-is_normal (a ∷ ch ∷ s) =
    let long : ltb 1 (length (a ∷ ch ∷ s)) ≡ true = lt→ltb 1 _ (omega arith) in
    rw long
      (unfold kind in ap (λ b. if a == b'/' then b else false) (canonical_loop-split (ch ∷ s) []))
