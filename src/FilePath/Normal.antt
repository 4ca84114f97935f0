-- ===== src/FilePath/Normal.antt =====
-- What `fabsolute` returns: the normal form of the components, which `fiscanonical` accepts.
use mathlib.Core.Path.{subst}
use mathlib.Core.List.{reverse-reverse}
use fusg.Base.{
  true, List, [], ◌∷◌, ◌++◌, reverse, reverse_aux, reverse-cons, append_assoc, some, ◌==◌, Bytes,
  All, All-reverse, ◌≡◌, refl, sym, ap, ◌∙◌, inl, inr, arith, Bool-cases, Option-cases, ==_iff,
}
use fusg.FilePath.Absolute.{absolute, resolve}
use fusg.FilePath.Components.{
  kind, split, split-slash, split-other, split-NoSlash, split-render, enter, enter_all,
  enter_all-cons, render, path_of, NoSlash, IsName,
}
use fusg.FilePath.Canonical.{fiscanonical, all_names, is_normal, fiscanonical-is_normal}
use fusg.FilePath.Resolve.{resolve-components}

enter-IsName :
    (st : List Bytes) (p : Bytes) {st' : List Bytes}
    → All IsName st
    → NoSlash p
    → enter st p ≡ some st'
    → All IsName st'
unfolding enter
enter-IsName st p h n e = ground arith

pub enter_all-IsName :
    (ps st : List Bytes) {st' : List Bytes}
    → All IsName st
    → All NoSlash ps
    → enter_all st ps ≡ some st'
    → All IsName st'
enter_all-IsName [] st h n e = unfold enter_all in ground (arith, e)
enter_all-IsName (p ∷ ps) st h n e = elim (Option-cases (enter st p)) [
  | inl q ↦ unfold enter_all in ground (arith, q, e)
  | inr (st', q) ↦
      enter_all-IsName ps st' (enter-IsName st p h n.0 q) n.1 (sym (enter_all-cons st p ps q) ∙ e)
]

all_names-IsName : (ys : List Bytes) → All IsName ys → all_names ys ≡ true
all_names-IsName [] h = refl
all_names-IsName (y ∷ ys) h = rw (h.0.0, all_names-IsName ys h.1)

IsName-NoSlash : (ys : List Bytes) → All IsName ys → All NoSlash ys
IsName-NoSlash [] h = tt
IsName-NoSlash (y ∷ ys) h = (h.0.1, IsName-NoSlash ys h.1)

render-fiscanonical :
    (y : Bytes) (ys : List Bytes) → IsName y → All IsName ys → fiscanonical (render (y ∷ ys)) ≡ true
render-fiscanonical [] ys n h = unfold kind in cc (n.0)
render-fiscanonical (c ∷ y) ys n h =
    fiscanonical-is_normal (render ((c ∷ y) ∷ ys))
    ∙ unfold render in
      (ap all_names (split-render (c ∷ y) [] ys n.1 (IsName-NoSlash ys h))
        ∙ all_names-IsName ((c ∷ y) ∷ ys) (n, h))

render-nil : render [] ≡ []
unfolding render
render-nil = refl

path_of-concat :
    (zs : List Bytes) (x : Bytes) → path_of (zs ++ x ∷ []) ≡ render (reverse (zs ++ x ∷ []))
unfolding path_of
path_of-concat [] x = refl
path_of-concat (z ∷ zs) x = refl

path_of-reverse : (y : Bytes) (ys : List Bytes) → path_of (reverse (y ∷ ys)) ≡ render (y ∷ ys)
path_of-reverse y ys =
    subst (λ zs. path_of zs ≡ render (reverse zs)) (sym (reverse-cons y ys))
      (path_of-concat (reverse ys) y)
    ∙ ap render (reverse-reverse (y ∷ ys))

path_of-fiscanonical : (st : List Bytes) → All IsName st → fiscanonical (path_of st) ≡ true
path_of-fiscanonical st h =
    subst (λ zs. fiscanonical (path_of zs) ≡ true) (reverse-reverse st)
      (from_root (reverse st) (All-reverse IsName st h))
  where
    from_root : (ys : List Bytes) → All IsName ys → fiscanonical (path_of (reverse ys)) ≡ true
    from_root [] n = unfold path_of fiscanonical in refl
    from_root (y ∷ ys) n = rw path_of-reverse (render-fiscanonical y ys n.0 n.1)

render-split : (s p : Bytes) → render (split p s) ≡ b'/' ∷ (p ++ s)
render-split [] p = unfold render split in refl
render-split (ch ∷ s) p = elim (Bool-cases (ch == b'/')) [
  | inl h ↦
      rw (split-slash ch s p h, render-split-cons p s (render-split s []), (==_iff ch b'/').0 h)
  | inr h ↦ rw (split-other ch s p h, render-split s (p ++ ch ∷ []), append_assoc)
]
  where
    render-split-cons :
        (p s : Bytes)
        → render (split [] s) ≡ b'/' ∷ s
        → render (p ∷ split [] s) ≡ b'/' ∷ (p ++ b'/' ∷ s)
    render-split-cons p s e = unfold render in rw e

enter-name :
    (y : Bytes) (ys st : List Bytes) → all_names (y ∷ ys) ≡ true → enter st y ≡ some (y ∷ st)
unfolding enter
enter-name y ys st h = ground arith

all_names-tail : (y : Bytes) (ys : List Bytes) → all_names (y ∷ ys) ≡ true → all_names ys ≡ true
all_names-tail y ys h = ground arith

enter_all-names :
    (ys st : List Bytes) → all_names ys ≡ true → enter_all st ys ≡ some (reverse_aux ys st)
enter_all-names [] st h = unfold enter_all in refl
enter_all-names (y ∷ ys) st h =
    enter_all-cons st y ys (enter-name y ys st h)
    ∙ enter_all-names ys (y ∷ st) (all_names-tail y ys h)

-- The scan returns a canonical path as it is.
pub resolve-is_normal : (s : Bytes) → is_normal s ≡ true → resolve (b'/' ∷ s) ≡ absolute (b'/' ∷ s)
resolve-is_normal [] h = resolve-components [] ∙ unfold split enter_all enter kind path_of in refl
resolve-is_normal (ch ∷ s) h =
    resolve-components (ch ∷ s)
    ∙ rw (enter_all-names (split [] (ch ∷ s)) [] h) (ap absolute (whole (split [] (ch ∷ s)) refl))
  where
    whole : (ps : List Bytes) → split [] (ch ∷ s) ≡ ps → path_of (reverse ps) ≡ b'/' ∷ ch ∷ s
    whole [] e = cc (ap render e, render-split (ch ∷ s) [], render-nil)
    whole (y ∷ ys) e = path_of-reverse y ys ∙ ap render (sym e) ∙ render-split (ch ∷ s) []

-- What the scan of an absolute path returns is canonical.
pub resolve-fiscanonical :
    (s : Bytes) {r : Bytes} → resolve (b'/' ∷ s) ≡ absolute r → fiscanonical r ≡ true
resolve-fiscanonical s {r} e = elim (Option-cases (enter_all [] (split [] s))) [
  | inl q ↦ cc (resolve-components s, q)
  | inr (st, q) ↦
      let same : path_of st ≡ r = cc (rw q at (resolve-components s), e) in
      rw (← same)
        (path_of-fiscanonical st (enter_all-IsName (split [] s) [] tt (split-NoSlash s [] tt) q))
]
