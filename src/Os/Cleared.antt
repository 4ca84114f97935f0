-- ===== src/Os/Cleared.antt =====
-- `fremove_r` of sources/fusg-common/include/fusg/utils.h on a directory tree that can be removed.
use fusg.Base.{
  codes, equal, ◌||◌, ℕ, zero, suc, ◌+◌, ◌≤◌, ◌<◌, true, false, List, [], ◌∷◌, ◌++◌, Option, none,
  some, Bytes, ℤ, success, ltb, lt→ltb, length, length-append, append-nil, append_assoc,
  if◌then◌else◌, ◌≡◌, refl, ap, ◌∙◌, inl, inr, arith, Bool-cases,
}
use fusg.Os.Files.{FileError, not_empty, listed, Files}
use fusg.Os.Remove.{
  Walk, Walked, went, is_dots, cap_limit, ◌>>=◌, removed, call_remove, gather, remove_each,
  remove_files, remove_dir, walk_listing, descend, fremove_r,
}
use fusg.Os.Removed.{grown-room}

-- the entries of a directory but '.' and '..'
abbrev pub named : List Bytes → List Bytes
named [] = []
named (name ∷ names) =
    let rest = named names in
    if equal name (codes ".") || equal name (codes "..") then rest else name ∷ rest

is_dots-equal : (name : Bytes) → (equal name (codes ".") || equal name (codes "..")) ≡ is_dots name
unfolding equal
is_dots-equal [] = refl
is_dots-equal (c ∷ []) = ground arith
is_dots-equal (c ∷ d ∷ []) = ground arith
is_dots-equal (c ∷ d ∷ e ∷ s) = ground arith

mutual
  -- A path can be removed: at once, or, where remove(3) says that it is not empty, behind all its
  -- entries in the order of readdir(3), the paths of which fit the buffer. The state of the file system
  -- before it and behind it.
  pub data Clears {S : Type 0} (fs : Files S) (path_max : ℕ) : S → Bytes → S → Type 0 where
    at_once :
        {s s' : S} {path : Bytes} → fs.remove s path ≡ (none, s') → Clears fs path_max s path s'
    behind :
        {s s1 s2 s' : S} {path : Bytes} (names : List Bytes)
        → fs.remove s path ≡ (some not_empty, s1)
        → fs.entries s1 path ≡ listed names none
        → length names ≤ cap_limit
        → fs.malloc s1 2 ≡ true
        → ClearsAll fs path_max s1 path (named names) s2
        → fs.remove s2 path ≡ (none, s')
        → Clears fs path_max s path s'

  pub data ClearsAll {S : Type 0} (fs : Files S) (path_max : ℕ)
      : S → Bytes → List Bytes → S → Type 0 where
    end : {s : S} {path : Bytes} → ClearsAll fs path_max s path [] s
    next :
        {s s1 s' : S} {path name : Bytes} {names : List Bytes}
        → length (path ++ (b'/' ∷ name)) ≤ path_max
        → Clears fs path_max s (path ++ (b'/' ∷ name)) s1
        → ClearsAll fs path_max s1 path names s'
        → ClearsAll fs path_max s path (name ∷ names) s'

-- a return with code 0 in the state `s` of the file system
abbrev pub Returns : {S : Type 0} → S → Walked S ℤ → Type 0
Returns {S} s x = (w : Walk S) × (x ≡ went success w) × (w.files ≡ s)

module _ {S : Type 0} (fs : Files S) (memory : (s : S) (n : ℕ) → fs.realloc s n ≡ true) where
  gather-named :
      (names : List Bytes) (f cap : ℕ) (files : List Bytes) (w : Walk S)
      → f ≤ cap
      → 1 ≤ cap
      → f + length names ≤ cap_limit
      → gather fs names f cap files w ≡ went (files ++ named names) w
  unfolding gather
  gather-named [] f cap files w le one small = rw (append-nil files) refl
  gather-named (name ∷ names) f cap files w le one small = elim (Bool-cases (is_dots name)) [
    | inl e ↦ rw (is_dots-equal name) (rw e (gather-named names f cap files w le one (omega arith)))
    | inr e ↦
        let (cap', g, lt) = grown-room fs memory f cap w.files le one (omega arith) in
        rw (is_dots-equal name) (
          rw (e, g)
            (rw (lt→ltb f cap' lt) (
              gather-named names (f + 1) cap' (files ++ (name ∷ [])) w (omega arith) (omega arith)
                (omega arith)
              ∙ ap (λ l. went l w) (append_assoc files (name ∷ []) (named names)))))
  ]

  call_remove-removed :
      (path : Bytes) (w : Walk S) (x : Option FileError × S)
      → fs.remove w.files path ≡ x
      → call_remove fs path w ≡ removed path x w
  unfolding call_remove
  call_remove-removed path w x e = ap (λ y. removed path y w) e

  -- behind the loop over the entries
  remove_files-Returns :
      (path_max : ℕ) (rec : Bytes → Walk S → Walked S ℤ) (path : Bytes) (names : List Bytes)
      (s2 s' : S) (w : Walk S)
      → Returns s2 (remove_each path_max rec path names w)
      → fs.remove s2 path ≡ (none, s')
      → Returns s' (remove_files fs path_max rec path none names w)
  unfolding remove_files
  remove_files-Returns path_max rec path names s2 s' w (w2, run, e) gone =
      rw (run, ◌>>=◌)
        (rw (call_remove-removed path w2 (none, s') (ap (λ s. fs.remove s path) e ∙ gone))
          (_, refl, refl))

  remove_dir-Returns :
      (path_max : ℕ) (rec : Bytes → Walk S → Walked S ℤ) (path : Bytes) (names : List Bytes)
      (s2 s' : S) (w : Walk S)
      → length names ≤ cap_limit
      → fs.malloc w.files 2 ≡ true
      → Returns s2 (remove_each path_max rec path (named names) (record w { errno = none }))
      → fs.remove s2 path ≡ (none, s')
      → Returns s' (remove_dir fs path_max rec path names none w)
  unfolding remove_dir
  remove_dir-Returns path_max rec path names s2 s' w few room each gone = rw room (
      rw
        (
          gather-named names 0 2 [] (record w { errno = none }) (omega arith) (omega arith)
              (omega arith),
          ◌>>=◌,
        )
        (remove_files-Returns path_max rec path (named names) s2 s' (record w { errno = none }) each
          gone))

  fremove_r-at_once :
      (path_max k : ℕ) (path : Bytes) (s' : S) (w : Walk S)
      → fs.remove w.files path ≡ (none, s')
      → Returns s' (fremove_r fs path_max (suc k) path w)
  unfolding fremove_r descend
  fremove_r-at_once path_max k path s' w gone =
      rw (call_remove-removed path w (none, s') gone, ◌>>=◌) (_, refl, refl)

  -- the walk where the directory is open
  abbrev entered : Bytes → S → Walk S → Walk S
  entered path s1 w = record {
    files = s1;
    errno = some not_empty;
    removals = (path, some not_empty) ∷ w.removals;
    open_dirs = w.open_dirs + 1;
  }

  fremove_r-behind :
      (path_max k : ℕ) (path : Bytes) (names : List Bytes) (s1 s2 s' : S) (w : Walk S)
      → fs.remove w.files path ≡ (some not_empty, s1)
      → fs.entries s1 path ≡ listed names none
      → length names ≤ cap_limit
      → fs.malloc s1 2 ≡ true
      → ((w1 : Walk S)
          → w1.files ≡ s1
          → Returns s2 (remove_each path_max (fremove_r fs path_max k) path (named names) w1))
      → fs.remove s2 path ≡ (none, s')
      → Returns s' (fremove_r fs path_max (suc k) path w)
  unfolding fremove_r descend
  fremove_r-behind path_max k path names s1 s2 s' w full found few room each gone =
      let (w2, run, e) =
        remove_dir-Returns path_max (fremove_r fs path_max k) path names s2 s' (entered path s1 w)
          few room (each (record (entered path s1 w) { errno = none }) refl) gone in
      rw (call_remove-removed path w (some not_empty, s1) full, ◌>>=◌)
        (rw (found, walk_listing) (rw (run, ◌>>=◌) (_, refl, e)))

  remove_each-next :
      (path_max : ℕ) (rec : Bytes → Walk S → Walked S ℤ) (path name : Bytes) (names : List Bytes)
      (s1 s' : S) (w : Walk S)
      → length (path ++ (b'/' ∷ name)) ≤ path_max
      → Returns s1 (rec (path ++ (b'/' ∷ name)) w)
      → ((w1 : Walk S) → w1.files ≡ s1 → Returns s' (remove_each path_max rec path names w1))
      → Returns s' (remove_each path_max rec path (name ∷ names) w)
  unfolding remove_each
  remove_each-next path_max rec path name names s1 s' w fits (w1, run, e) rest =
      let short : ltb path_max (length (path ++ (b'/' ∷ name))) ≡ false = ground arith in
      rw short (rw (run, ◌>>=◌) (rest w1 e))

module _ {S : Type 0} (fs : Files S) (memory : (s : S) (n : ℕ) → fs.realloc s n ≡ true)
    (path_max : ℕ) where
  remove_each-end :
      (rec : Bytes → Walk S → Walked S ℤ) (path : Bytes) (s : S) (w : Walk S)
      → w.files ≡ s
      → Returns s (remove_each path_max rec path [] w)
  unfolding remove_each
  remove_each-end rec path s w at = (w, refl, at)

  -- fuel for the rest of the buffer
  deeper :
      (k : ℕ) (path name : Bytes)
      → length (path ++ (b'/' ∷ name)) ≤ path_max
      → path_max < suc k + length path
      → (j : ℕ) × (k ≡ suc j) × (path_max < suc j + length (path ++ (b'/' ∷ name)))
  deeper zero path name fits room = absurd (omega (arith, length-append path (b'/' ∷ name)))
  deeper (suc j) path name fits room = (j, refl, omega (arith, length-append path (b'/' ∷ name)))

  mutual
    cleared :
        {s s' : S} {path : Bytes}
        → Clears fs path_max s path s'
        → (k : ℕ) (w : Walk S) → w.files ≡ s
        → path_max < suc k + length path
        → Returns s' (fremove_r fs path_max (suc k) path w)
    cleared {s} {s'} {path} (at_once gone) k w at room =
        fremove_r-at_once fs memory path_max k path s' w (ap (λ x. fs.remove x path) at ∙ gone)
    cleared {s} {s'} {path} (behind {s1 = s1} {s2 = s2} names full found few heap all gone) k w at
          room =
        fremove_r-behind fs memory path_max k path names s1 s2 s' w
          (ap (λ x. fs.remove x path) at ∙ full) found few heap
          (λ w1 e. all_cleared all k w1 e room) gone

    all_cleared :
        {s s' : S} {path : Bytes} {names : List Bytes}
        → ClearsAll fs path_max s path names s'
        → (k : ℕ) (w : Walk S) → w.files ≡ s
        → path_max < suc k + length path
        → Returns s' (remove_each path_max (fremove_r fs path_max k) path names w)
    all_cleared {s} {s'} {path} end k w at room =
        remove_each-end (fremove_r fs path_max k) path s w at
    all_cleared {s} {s'} {path} (next {s1 = s1} {name = name} {names = names} fits one rest) k w at
          room =
        let (j, e, deep) = deeper k path name fits room in
        remove_each-next fs memory path_max (fremove_r fs path_max k) path name names s1 s' w fits
          (rw e (cleared one j w at deep)) (λ w1 e1. all_cleared rest k w1 e1 room)

  -- Where realloc(3) does not fail, a path that can be removed, at once or behind all entries
  -- of its directory but '.' and '..', of which there are at most 2 ^ 30, with paths that fit
  -- the buffer and with memory for their list: with fuel above the room that is left in the
  -- buffer, `fremove_r` returns 0 and leaves the file system as the removals leave it.
  pub fremove_r-Returns :
      (s s' : S) (path : Bytes) (fuel : ℕ) (w : Walk S)
      → Clears fs path_max s path s'
      → w.files ≡ s
      → 1 ≤ fuel
      → path_max < fuel + length path
      → Returns s' (fremove_r fs path_max fuel path w)
  fremove_r-Returns s s' path zero w c at one room = absurd (omega arith)
  fremove_r-Returns s s' path (suc k) w c at one room = cleared c k w at room
