-- ===== src/Os/Remove.antt =====
-- `fremove_r` of sources/fusg-common/include/fusg/utils.h, and `db_delete` of db.c, which calls it.
use fusg.Base.{
  ℕ, zero, suc, ◌+◌, ◌-◌, ◌*◌, ◌^◌, Bool, true, false, ◌&&◌, List, [], ◌∷◌, ◌++◌, Option, none,
  some, Bytes, ℤ, success, failure, is_zero, is_minus_one, ltb, leb, ◌==◌, length, if◌then◌else◌,
}
use fusg.Os.Files.{FileError, no_entry, not_empty, other_error, Listing, unopened, listed, Files}

-- The state of a walk: the file system, `errno`, the calls of remove(3) with their answers, the last
-- first, and the number of directories that are open.
pub record Walk (S : Type 0) : Type 0 where
  pub files : S
  pub errno : Option FileError
  pub removals : List (Bytes × Option FileError)
  pub open_dirs : ℕ

-- `undefined` is a write outside of the list of names, and `exhausted` the end of the fuel
pub data Walked (S : Type 0) (A : Type 0) : Type 0 where
  went : A → Walk S → Walked S A
  undefined : Walked S A
  exhausted : Walked S A

abbrev pub W : Type 0 → Type 0 → Type 0
W S A = Walk S → Walked S A

-- "." and ".."
abbrev pub is_dots : Bytes → Bool
is_dots [] = false
is_dots (c ∷ []) = c == b'.'
is_dots (c ∷ d ∷ []) = c == b'.' && d == b'.'
is_dots (c ∷ d ∷ e ∷ s) = false

abbrev pub is_not_empty : Option FileError → Bool
is_not_empty (some not_empty) = true
is_not_empty _ = false

-- `rc && errno == ENOENT`
abbrev pub forgive : ℤ → Option FileError → ℤ
forgive rc (some no_entry) = success
forgive rc _ = rc

-- `files_cap` at which `<<= 1` overflows an `int`
abbrev pub cap_limit : ℕ
cap_limit = 2 ^ 30

module _ {S : Type 0} where
  abbrev pub pure : {A : Type 0} → A → W S A
  pure a w = went a w

  infixl 5 ◌>>=◌ ◌>>◌
  abbrev pub ◌>>=◌ : {A B : Type 0} → W S A → (A → W S B) → W S B
  ◌>>=◌ m f w = elim (m w) [ went a w' ↦ f a w' | undefined ↦ undefined | exhausted ↦ exhausted ]

  abbrev pub ◌>>◌ : {A B : Type 0} → W S A → W S B → W S B
  m >> k = m >>= λ _. k

  abbrev pub gets : {A : Type 0} → (Walk S → A) → W S A
  gets f w = went (f w) w

  abbrev pub set_errno : Option FileError → W S (Unit {0})
  set_errno e w = went tt (record w { errno = e })

  abbrev pub fail : FileError → W S ℤ
  fail e = set_errno (some e) >> pure failure

  -- a call of remove(3); `errno` is set where it fails
  abbrev pub removed : Bytes → Option FileError × S → W S ℤ
  removed path (none, s) w =
      went success (record w { files = s; removals = (path, none) ∷ w.removals })
  removed path (some e, s) w =
      went failure (record w { files = s; errno = some e; removals = (path, some e) ∷ w.removals })

module _ {S : Type 0} (fs : Files S) where
  unfoldable pub call_remove : Bytes → W S ℤ
  call_remove path w = removed path (fs.remove w.files path) w

  -- `if (f >= files_cap)`: the new capacity; the result of realloc(3) is not tested
  abbrev pub grown : ℕ → ℕ → S → Option ℕ
  grown f cap s =
      if ltb f cap
      then some cap
      else (if leb cap_limit cap
          then none
          else (if fs.realloc s (2 * cap) then some (2 * cap) else none))

  -- The loop over the entries: `f` names are written to `files`, which has room for `cap`.
  unfoldable pub gather : List Bytes → ℕ → ℕ → List Bytes → W S (List Bytes)
  gather [] f cap files w = went files w
  gather (name ∷ names) f cap files w =
      let skip = gather names f cap files w in
      let keep = λ (cap' : ℕ). gather names (f + 1) cap' (files ++ (name ∷ [])) w in
      if is_dots name then skip else (elim (grown f cap w.files) [
        | none ↦ undefined
        | some cap' ↦ if ltb f cap' then keep cap' else undefined
      ])

module _ {S : Type 0} (path_max : ℕ) where
  -- the loop over the files, where `rec` is the recursive call
  unfoldable pub remove_each : (Bytes → W S ℤ) → Bytes → List Bytes → W S ℤ
  remove_each rec path [] w = went success w
  remove_each rec path (name ∷ names) w =
      let filepath = path ++ (b'/' ∷ name) in
      let next = λ (rc : ℤ) (w' : Walk S).
        if is_zero rc then remove_each rec path names w' else went rc w' in
      if ltb path_max (length filepath) then fail other_error w else (rec filepath >>= next) w

module _ {S : Type 0} (fs : Files S) (path_max : ℕ) where
  -- behind the loop over the entries, with `errno` as readdir(3) left it
  unfoldable pub remove_files : (Bytes → W S ℤ) → Bytes → Option FileError → List Bytes → W S ℤ
  remove_files rec path (some e) files = pure failure
  remove_files rec path none files = do
    rc ← remove_each path_max rec path files
    if is_zero rc then call_remove fs path else pure rc

  -- `if (dir)`, up to the label `bail`
  unfoldable pub remove_dir : (Bytes → W S ℤ) → Bytes → List Bytes → Option FileError → W S ℤ
  remove_dir rec path names stopped = do
    set_errno none
    s ← gets (λ w. w.files)
    let walk : W S ℤ = do
      files ← gather fs names 0 2 []
      set_errno stopped
      remove_files rec path stopped files
    if fs.malloc s 2 then walk else fail other_error

  abbrev pub enter_dir : W S (Unit {0})
  enter_dir w = went tt (record w { open_dirs = w.open_dirs + 1 })

  abbrev pub leave_dir : W S (Unit {0})
  leave_dir w = went tt (record w { open_dirs = w.open_dirs - 1 })

  abbrev pub walk_listing : (Bytes → W S ℤ) → Bytes → Listing → W S ℤ
  walk_listing rec path (unopened e) = fail e
  walk_listing rec path (listed names stopped) = do
    enter_dir
    rc ← remove_dir rec path names stopped
    leave_dir
    pure rc

  -- `rc == -1 && errno == ENOTEMPTY`
  unfoldable pub descend : (Bytes → W S ℤ) → Bytes → ℤ → W S ℤ
  descend rec path rc w =
      if is_minus_one rc && is_not_empty w.errno
      then walk_listing rec path (fs.entries w.files path) w
      else went rc w

  -- on fuel; a recursive call has a longer path
  unfoldable pub fremove_r : ℕ → Bytes → W S ℤ
  fremove_r zero path w = exhausted
  fremove_r (suc fuel) path w = (call_remove fs path >>= descend (fremove_r fuel) path) w

  -- a null pointer is EINVAL
  abbrev pub remove_path : Option Bytes → W S ℤ
  remove_path none = fail other_error
  remove_path (some path) = fremove_r (path_max + 1) path

  unfoldable pub db_delete : Option Bytes → W S ℤ
  db_delete dbpath = do
    rc ← remove_path dbpath
    errno ← gets (λ w. w.errno)
    pure (if is_zero rc then rc else forgive rc errno)
