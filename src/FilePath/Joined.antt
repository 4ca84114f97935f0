-- ===== src/FilePath/Joined.antt =====
-- `fabsolute` as a whole: the join of `cwd` and `path`, and what the scan makes of it.
use fusg.Base.{
  ℕ, zero, suc, ◌+◌, ◌-◌, ◌<◌, ◌≤◌, Bool, true, List, [], ◌∷◌, ◌++◌, append_assoc, Option, none,
  some, ◌==◌, if◌then◌else◌, leb, Bytes, length, length-append, take, take_all, ◌≡◌, ◌≢◌, ◌⊎◌, refl,
  sym, ap, ◌∙◌, inl, inr, arith, Bool-cases, Option-cases, ==_iff,
}
use fusg.FilePath.Absolute.{
  absolute, undefined, head_byte, resolve, resolve_joined, last_byte, with_slash, snprintf, join,
  fabsolute,
}
use fusg.FilePath.Components.{kind, split, split-append, enter, enter_all, enter_all-cons}
use fusg.FilePath.Canonical.{fiscanonical, tail, is_normal, fiscanonical-is_normal}
use fusg.FilePath.Resolve.{normal_form, resolve-components}
use fusg.FilePath.Normal.{resolve-is_normal, resolve-fiscanonical}

-- an empty component changes nothing
enter_all-skip : (xs ys st : List Bytes) → enter_all st (xs ++ [] ∷ ys) ≡ enter_all st (xs ++ ys)
enter_all-skip [] ys st = enter_all-cons st [] ys (unfold enter kind in refl)
enter_all-skip (x ∷ xs) ys st = elim (Option-cases (enter st x)) [
  | inl e ↦ unfold enter_all in rw (e, enter_all)
  | inr (st', e) ↦
      rw (enter_all-cons st x (xs ++ [] ∷ ys) e, enter_all-cons st x (xs ++ ys) e)
        (enter_all-skip xs ys st')
]

last_byte-cases :
    (a b : ℕ) (s : Bytes)
    → last_byte (a ∷ s) ≡ some b
    → (s ≡ []) ⊎ ((s' : Bytes) × (s ≡ s' ++ b ∷ []))
unfolding last_byte
last_byte-cases a b [] e = inl refl
last_byte-cases a b (c ∷ []) e = inr ([], ground arith)
last_byte-cases a b (c ∷ d ∷ s) e = elim (last_byte-cases c b (d ∷ s) e) [
  | inl n ↦ cc n
  | inr (s', q) ↦ inr (c ∷ s', ap (◌∷◌ c) q)
]

last_byte-some : (a : ℕ) (s : Bytes) → last_byte (a ∷ s) ≢ none
unfolding last_byte
last_byte-some a [] e = cc e
last_byte-some a (b ∷ s) e = last_byte-some b s e

-- The text that `path` is appended to: it begins and ends with a '/', and means `cwd`.
record IsBase (c d : Bytes) : Type 0 where
  found : with_slash (b'/' ∷ c) ≡ some (b'/' ∷ d)
  size : length d ≤ length c + 1
  means : (t : Bytes) → enter_all [] (split [] (d ++ t)) ≡ enter_all [] (split [] c ++ split [] t)

slash_means :
    (c t : Bytes)
    → (c ≡ []) ⊎ ((c' : Bytes) × (c ≡ c' ++ b'/' ∷ []))
    → enter_all [] (split [] (c ++ t)) ≡ enter_all [] (split [] c ++ split [] t)
slash_means c t (inl e) = rw e (sym (enter_all-skip [] (split [] t) []) ∙ unfold split in refl)
slash_means c t (inr (c', e)) =
    rw (e, append_assoc, split-append, split-append, append_assoc)
      (sym (enter_all-skip (split [] c') (split [] t) []) ∙ unfold split in refl)

base : (c : Bytes) → (d : Bytes) × IsBase c d
base c = elim (Option-cases (last_byte (b'/' ∷ c))) [
  | inl e ↦ absurd (last_byte-some b'/' c e)
  | inr (b, e) ↦ elim (Bool-cases (b == b'/')) [
    | inl slash ↦ (
      c,
      record {
        found = unfold with_slash in rw (e, with_slash) (rw slash);
        size = omega arith;
        means =
            λ t. slash_means c t (last_byte-cases b'/' b'/' c (rw ((==_iff b b'/').0 slash) at e));
      },
    )
    | inr other ↦ (
      c ++ b'/' ∷ [],
      record {
        found = unfold with_slash in rw (e, with_slash) (rw other);
        size = omega (arith, length-append c (b'/' ∷ []));
        means = λ t. rw (append_assoc, split-append);
      },
    )
  ]
]

abbrev is_absolute : Bytes → Bool
is_absolute path = head_byte path == b'/'

-- the components that `path` stands for in the directory '/' ++ c
abbrev pub components : Bytes → Bytes → List Bytes
components c path =
    if head_byte path == b'/' then split [] (tail path) else split [] c ++ split [] path

resolve-absolute :
    (path : Bytes)
    → (head_byte path == b'/') ≡ true
    → resolve path ≡ normal_form (enter_all [] (split [] (tail path)))
resolve-absolute [] h = cc h
resolve-absolute (b ∷ path) h = rw ((==_iff b b'/').0 h) (resolve-components path)

join-base :
    (n : ℕ) (c d path : Bytes)
    → IsBase c d
    → length d + 1 < n
    → join n (b'/' ∷ c) path ≡ some (b'/' ∷ (d ++ snprintf (n - suc (length d)) path))
unfolding join
join-base n c d path b h = rw (b.found, join) (ground arith)

-- For an absolute working directory and a path that fit into the buffer together, `fabsolute`
-- returns the names that are left of the components of `path`, or of the directory and then of a
-- relative `path`, when '.' and empty components are dropped and '..' takes back the name before
-- it; it returns NULL exactly where a '..' has no name before it.
pub fabsolute-components :
    (n : ℕ) (c path : Bytes)
    → length c + length path + 2 < n
    → fabsolute n (some (b'/' ∷ c)) (some path) ≡ normal_form (enter_all [] (components c path))
unfolding fabsolute
fabsolute-components n c path h = elim (Bool-cases (head_byte path == b'/')) [
  | inl e ↦ rw e (rw (take_all (n - 1) path (omega arith)) (resolve-absolute path e))
  | inr e ↦
      let (d, b) = base c in
      let fits : take (n - suc (length d) - 1) path ≡ path =
        take_all _ path (omega (arith, b.size)) in
      rw e (
        rw (join-base n c d path b (omega (arith, b.size))) (
          resolve-components (d ++ snprintf (n - suc (length d)) path)
          ∙ rw fits (ap normal_form (b.means path))))
]

join-long :
    (n : ℕ) (c d path : Bytes) → IsBase c d → n ≤ length d + 1 → join n (b'/' ∷ c) path ≡ none
unfolding join
join-long n c d path b h = rw (b.found, join) (ground arith)

joined-fiscanonical :
    (n : ℕ) (c path : Bytes) {r : Bytes}
    → resolve_joined (join n (b'/' ∷ c) path) ≡ absolute r
    → fiscanonical r ≡ true
joined-fiscanonical n c path e =
    let (d, b) = base c in
    elim (Bool-cases (leb n (length d + 1))) [
      | inl q ↦ cc (e, join-long n c d path b (ground arith))
      | inr q ↦
          let fits = join-base n c d path b (ground arith) in
          resolve-fiscanonical (d ++ snprintf (n - suc (length d)) path) (rw fits at e)
    ]

-- Whatever `fabsolute` returns for an absolute working directory, cut to the buffer or not, is a
-- path that `fiscanonical` accepts.
pub fabsolute-fiscanonical :
    (n : ℕ) (c path : Bytes) {r : Bytes}
    → 1 < n
    → fabsolute n (some (b'/' ∷ c)) (some path) ≡ absolute r
    → fiscanonical r ≡ true
unfolding fabsolute
fabsolute-fiscanonical n c [] h e = joined-fiscanonical n c [] e
fabsolute-fiscanonical zero c (b ∷ path) h e = absurd (omega arith)
fabsolute-fiscanonical (suc zero) c (b ∷ path) h e = absurd (omega arith)
fabsolute-fiscanonical (suc (suc n)) c (b ∷ path) {r} h e = elim (Bool-cases (b == b'/')) [
  | inl q ↦
      let short : suc (suc n) - 1 ≡ suc n = omega arith in
      resolve-fiscanonical (take n path) (rw ((==_iff b b'/').0 q) at (rw short at (rw q at e)))
  | inr q ↦ joined-fiscanonical (suc (suc n)) c (b ∷ path) (rw q at e)
]

-- `fabsolute` returns a canonical path that fits the buffer as it is, whatever the directory.
pub fabsolute_id :
    (n : ℕ) (cwd path : Bytes)
    → length path < n
    → fiscanonical path ≡ true
    → fabsolute n (some cwd) (some path) ≡ absolute path
unfolding fabsolute
fabsolute_id n cwd [] h f = unfold fiscanonical in cc f
fabsolute_id n cwd (b ∷ path) h f = elim (Bool-cases (b == b'/')) [
  | inl q ↦
      let s : is_normal path ≡ true = sym (rw q at (fiscanonical-is_normal (b ∷ path))) ∙ f in
      rw q (
        rw (take_all (n - 1) (b ∷ path) (omega arith))
          (rw ((==_iff b b'/').0 q) (resolve-is_normal path s)))
  | inr q ↦ cc (rw q at (fiscanonical-is_normal (b ∷ path)), f)
]

resolve-defined : (s : Bytes) → resolve s ≢ undefined
unfolding resolve
resolve-defined s e = ground arith

join-defined :
    (n a : ℕ) (cwd path : Bytes)
    → length (a ∷ cwd) + 1 < n
    → resolve_joined (join n (a ∷ cwd) path) ≢ undefined
unfolding join
join-defined n a cwd path h e = elim (Option-cases (last_byte (a ∷ cwd))) [
  | inl q ↦ last_byte-some a cwd q
  | inr (b, q) ↦ ground (
    arith,
    q,
    resolve-defined ((a ∷ cwd) ++ snprintf (n - length (a ∷ cwd)) path),
    resolve-defined
        (((a ∷ cwd) ++ b'/' ∷ []) ++ snprintf (n - length ((a ∷ cwd) ++ b'/' ∷ [])) path),
    length-append (a ∷ cwd) (b'/' ∷ []),
  )
]

-- With a non-empty working directory that leaves room for a '/' and the terminating byte,
-- `fabsolute` does not access memory outside of its buffer, whatever the path.
pub fabsolute-defined :
    (n a : ℕ) (cwd : Bytes) (path : Option Bytes)
    → length (a ∷ cwd) + 1 < n
    → fabsolute n (some (a ∷ cwd)) path ≢ undefined
unfolding fabsolute
fabsolute-defined n a cwd none h e = cc e
fabsolute-defined n a cwd (some path) h e = elim (Bool-cases (head_byte path == b'/')) [
  | inl q ↦ resolve-defined (snprintf n path) (rw q at e)
  | inr q ↦ join-defined n a cwd path h (rw q at e)
]
